-- ===== src/Tcp/Connections.antt =====
-- The map of connections of librtc3d/server.cc.
use sled_server.Common.{
  ◌≡◌, refl, sym, ap, ◌∙◌, Bool, true, false, ◌&&◌, ◌||◌, not, Option, none, some, List, [], ◌∷◌,
  arith, Bool-cases, Option-cases, inl, inr,
}
use sled_server.Common.Int.{ℤ, pos, negsuc, eq_ℤ}
use sled_server.Common.Outcome.{running}
use sled_server.Tcp.{
  NetConnection, NetServer, Handlers, Accepting, ended, erase, entry, assign, unregister, lt_ℤ,
  fresh, connection_at, net_disconnect, net_on_read, net_on_new_connection,
}

pub eq_ℤ_sound : (a b : ℤ) → eq_ℤ a b ≡ true → a ≡ b
eq_ℤ_sound (pos a) (pos b) h = ground (arith, h)
eq_ℤ_sound (negsuc a) (negsuc b) h = ground (arith, h)
eq_ℤ_sound (pos a) (negsuc b) h = cc
eq_ℤ_sound (negsuc a) (pos b) h = cc

pub eq_ℤ_refl : (a : ℤ) → eq_ℤ a a ≡ true
eq_ℤ_refl (pos a) = ground arith
eq_ℤ_refl (negsuc a) = ground arith

-- An entry is a connection with the descriptor that is its key, and with its read event.
abbrev pub is_own : ℤ → Option NetConnection → Bool
is_own k none = false
is_own k (some c) = eq_ℤ c.fd k && c.read_event

abbrev pub all_own : List (ℤ × Option NetConnection) → Bool
all_own [] = true
all_own ((k, c) ∷ rest) = is_own k c && all_own rest

abbrev is_present : Option (Option NetConnection) → Bool
is_present none = false
is_present (some c) = true

abbrev pub is_known : ℤ → List (ℤ × Option NetConnection) → Bool
is_known fd entries = is_present (entry fd entries)

pub is_known_cons :
    (x k : ℤ) (d : Option NetConnection) (l : List (ℤ × Option NetConnection))
    → is_known x ((k, d) ∷ l) ≡ (eq_ℤ k x || is_known x l)
is_known_cons x k d l = elim (Bool-cases (eq_ℤ k x)) [ inl e ↦ rw e refl | inr e ↦ rw e refl ]

abbrev pub all_known : List ℤ → List (ℤ × Option NetConnection) → Bool
all_known [] entries = true
all_known (fd ∷ fds) entries = is_known fd entries && all_known fds entries

-- Every entry is a connection under its own descriptor, and every descriptor that is read has one.
pub record IsTidy {U : Type 0} (s : NetServer U) : Type 0 where
  pub own : all_own s.connection_data ≡ true
  pub known : all_known s.reading s.connection_data ≡ true

pub all_own-erase :
    (fd : ℤ) (l : List (ℤ × Option NetConnection)) → all_own l ≡ true → all_own (erase fd l) ≡ true
all_own-erase fd [] h = refl
all_own-erase fd ((k, c) ∷ l) h =
    let rest = all_own-erase fd l (ground (arith, h)) in
    elim (Bool-cases (eq_ℤ k fd)) [ inl e ↦ simp e rest | inr e ↦ simp e (ground (arith, h, rest)) ]

all_own-assign :
    (fd : ℤ) (l : List (ℤ × Option NetConnection))
    → all_own l ≡ true
    → all_own (assign fd (some (fresh fd)) l) ≡ true
all_own-assign fd [] h = simp (eq_ℤ_refl fd) refl
all_own-assign fd ((k, c) ∷ l) h =
    let rest = all_own-assign fd l (ground (arith, h)) in
    elim (Bool-cases (eq_ℤ k fd)) [
      | inl e ↦ simp (e, eq_ℤ_refl fd) (ground (arith, h))
      | inr e ↦ elim (Bool-cases (lt_ℤ fd k)) [
        | inl f ↦ simp (e, f, eq_ℤ_refl fd) (ground (arith, h))
        | inr f ↦ simp (e, f) (ground (arith, h, rest))
      ]
    ]

pub eq_ℤ_sym : (a b : ℤ) → eq_ℤ a b ≡ eq_ℤ b a
eq_ℤ_sym (pos a) (pos b) = ground arith
eq_ℤ_sym (negsuc a) (negsuc b) = ground arith
eq_ℤ_sym (pos a) (negsuc b) = refl
eq_ℤ_sym (negsuc a) (pos b) = refl

-- Erasing a key leaves the entries of the others.
pub entry-erase :
    (x fd : ℤ) (l : List (ℤ × Option NetConnection))
    → eq_ℤ fd x ≡ false
    → entry x (erase fd l) ≡ entry x l
entry-erase x fd [] n = refl
entry-erase x fd ((k, c) ∷ l) n = elim (Bool-cases (eq_ℤ k fd)) [
  | inl e ↦
      let m : eq_ℤ k x ≡ false = ap (λ z. eq_ℤ z x) (eq_ℤ_sound k fd e) ∙ n in
      simp (e, m) (entry-erase x fd l n)
  | inr e ↦ simp (e, entry-erase x fd l n) refl
]

pub same_key : (k fd x : ℤ) → eq_ℤ k fd ≡ true → eq_ℤ k x ≡ eq_ℤ fd x
same_key k fd x e = ap (λ z. eq_ℤ z x) (eq_ℤ_sound k fd e)

pub other_key : (k fd x : ℤ) → eq_ℤ k fd ≡ false → eq_ℤ k x ≡ true → eq_ℤ fd x ≡ false
other_key k fd x n e = ap (λ z. eq_ℤ fd z) (sym (eq_ℤ_sound k x e)) ∙ eq_ℤ_sym fd k ∙ n

pub is_known-assign :
    (x fd : ℤ) (c : Option NetConnection) (l : List (ℤ × Option NetConnection))
    → is_known x (assign fd c l) ≡ (eq_ℤ fd x || is_known x l)
is_known-assign x fd c [] = is_known_cons x fd c []
is_known-assign x fd c ((k, d) ∷ l) =
    let old = is_known_cons x k d l in
    elim (Bool-cases (eq_ℤ k fd)) [
      | inl e ↦ simp e (is_known_cons x fd c l ∙ ground (arith, old, same_key k fd x e))
      | inr e ↦ elim (Bool-cases (lt_ℤ fd k)) [
        | inl f ↦ simp (e, f) (is_known_cons x fd c ((k, d) ∷ l))
        | inr f ↦
            let later = is_known-assign x fd c l in
            simp (e, f) (is_known_cons x k d (assign fd c l) ∙ ground (arith, old, later))
      ]
    ]

-- Erasing a key leaves the entries of the others, and none of that key.
pub is_known-erase :
    (x fd : ℤ) (l : List (ℤ × Option NetConnection))
    → is_known x (erase fd l) ≡ (not (eq_ℤ fd x) && is_known x l)
is_known-erase x fd [] = ground arith
is_known-erase x fd ((k, c) ∷ l) =
    let old = is_known_cons x k c l in
    let rest = is_known-erase x fd l in
    elim (Bool-cases (eq_ℤ k fd)) [
      | inl e ↦ simp e (ground (arith, old, rest, same_key k fd x e))
      | inr e ↦
          let far = other_key k fd x e in
          simp e (is_known_cons x k c (erase fd l) ∙ ground (arith, old, rest, far))
    ]

pub assign-is_known :
    (fd : ℤ) (c : Option NetConnection) (l : List (ℤ × Option NetConnection))
    → entry fd (assign fd c l) ≡ some c
assign-is_known fd c [] = simp (eq_ℤ_refl fd) refl
assign-is_known fd c ((k, d) ∷ l) = elim (Bool-cases (eq_ℤ k fd)) [
  | inl e ↦ simp (e, eq_ℤ_refl fd) refl
  | inr e ↦ elim (Bool-cases (lt_ℤ fd k)) [
    | inl f ↦ simp (e, f, eq_ℤ_refl fd) refl
    | inr f ↦ simp (e, f) (assign-is_known fd c l)
  ]
]

all_known-assign :
    (fds : List ℤ) (fd : ℤ) (c : Option NetConnection) (l : List (ℤ × Option NetConnection))
    → all_known fds l ≡ true
    → all_known fds (assign fd c l) ≡ true
all_known-assign [] fd c l h = refl
all_known-assign (x ∷ fds) fd c l h =
    let here : is_known x l ≡ true = ground (arith, h) in
    let rest = all_known-assign fds fd c l (ground (arith, h)) in
    ground (arith, is_known-assign x fd c l, here, rest)

all_known-unregister :
    (fd : ℤ) (fds : List ℤ) (l : List (ℤ × Option NetConnection))
    → all_known fds l ≡ true
    → all_known (unregister fd fds) (erase fd l) ≡ true
all_known-unregister fd [] l h = refl
all_known-unregister fd (x ∷ fds) l h =
    let rest = all_known-unregister fd fds l (ground (arith, h)) in
    elim (Bool-cases (eq_ℤ x fd)) [
      | inl e ↦ simp e rest
      | inr e ↦
          let here : is_known x l ≡ true = ground (arith, h) in
          let left : is_known x (erase fd l) ≡ true =
            ap is_present (entry-erase x fd l (eq_ℤ_sym fd x ∙ e)) ∙ here in
          simp e (ground (arith, left, rest))
    ]

-- A connection that is closed is the one under its descriptor.
pub net_disconnect-IsTidy :
    {U : Type 0}
    → (h : Handlers U) (c : NetConnection) (s : NetServer U) → c.read_event ≡ true
    → IsTidy s
    → IsTidy (net_disconnect h (some c) s)
unfolding net_disconnect
net_disconnect-IsTidy h c s r v = record {
  own = all_own-erase c.fd s.connection_data v.own;
  known = rw r (all_known-unregister c.fd s.reading s.connection_data v.known);
}

-- A new connection leaves the server tidy, whatever is refused before its write buffer is made; the
-- buffer itself must not be.
pub net_on_new_connection-IsTidy :
    {U : Type 0}
    → (h : Handlers U) (a : Accepting) (s : NetServer U) → a.bufferevent_socket_new ≡ true
    → IsTidy s
    → IsTidy (net_on_new_connection h a s)
unfolding net_on_new_connection
net_on_new_connection-IsTidy h a s b v = elim (Bool-cases a.event_new) [
  | inr e ↦ rw e v
  | inl e ↦ elim (Bool-cases a.event_add) [
    | inr f ↦ rw (e, f) v
    | inl f ↦
        rw (e, f, b)
          (record {
            own = all_own-assign a.client s.connection_data v.own;
            known =
                let rest =
                  all_known-assign s.reading a.client (some (fresh a.client)) s.connection_data
                    v.known in
                let new : is_known a.client
                      (assign a.client (some (fresh a.client)) s.connection_data)
                    ≡ true =
                  ap is_present
                    (assign-is_known a.client (some (fresh a.client)) s.connection_data) in
                ground (arith, new, rest);
          })
  ]
]

entry_own :
    (fd : ℤ) (l : List (ℤ × Option NetConnection)) {o : Option NetConnection}
    → all_own l ≡ true
    → entry fd l ≡ some o
    → is_own fd o ≡ true
entry_own fd [] h e = cc
entry_own fd ((k, c) ∷ l) {o} h e = elim (Bool-cases (eq_ℤ k fd)) [
  | inr n ↦ entry_own fd l (ground (arith, h)) (ground (arith, e, n))
  | inl n ↦
      let same : c ≡ o = ground (arith, e, n) in
      let good : is_own k c ≡ true = ground (arith, h) in
      rw (sym (eq_ℤ_sound k fd n), sym same) good
]

-- What a descriptor that is read stands for.
pub reading_own :
    {U : Type 0}
    → (fd : ℤ) (s : NetServer U) → IsTidy s
    → is_known fd s.connection_data ≡ true
    → (c : NetConnection) × ((connection_at fd s ≡ (some c, s))
        × ((c.fd ≡ fd) × (c.read_event ≡ true)))
unfolding connection_at
reading_own fd s v k = elim (Option-cases (entry fd s.connection_data)) [
  | inl e ↦ absurd (no_entry e)
  | inr (none, e) ↦ absurd (nothing e)
  | inr (some c, e) ↦
      let own = entry_own fd s.connection_data v.own e in
      (
        c,
        (
          rw (connection_at, e) refl,
          (eq_ℤ_sound c.fd fd (ground (arith, own)), ground (arith, own)),
        ),
      )
]
  where
    no_entry : entry fd s.connection_data ≡ none → ⊥
    no_entry e = cc

    nothing : entry fd s.connection_data ≡ some none → ⊥
    nothing e = let own : false ≡ true = entry_own fd s.connection_data v.own e in cc

-- On a tidy server, a client that fails or ends on a descriptor that is read is disconnected: its
-- handler runs, its entry and its event go, and the server is tidy again.
pub net_on_read-IsTidy :
    {U : Type 0}
    → (h : Handlers U) (fd : ℤ) (s : NetServer U) → IsTidy s
    → is_known fd s.connection_data ≡ true
    → (c : NetConnection) × ((c.fd ≡ fd)
        × ((net_on_read h ended fd s ≡ running (net_disconnect h (some c) s))
            × IsTidy (net_disconnect h (some c) s)))
unfolding net_on_read
net_on_read-IsTidy h fd s v k =
    let (c, (e, (f, r))) = reading_own fd s v k in
    (c, (f, (ap (λ p. running (net_disconnect h p.0 p.1)) e, net_disconnect-IsTidy h c s r v)))
