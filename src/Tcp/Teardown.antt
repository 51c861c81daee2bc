-- ===== src/Tcp/Teardown.antt =====
-- The loop of net_teardown_server (librtc3d/server.cc), which disconnects the first entry of the map
-- until there is none.
use sled_server.Common.{
  ℕ, zero, suc, ◌≤◌, ◌≡◌, refl, ap, ◌∙◌, Bool, true, false, ◌&&◌, Option, none, some, List, [], ◌∷◌,
  length, arith, Bool-cases, inl, inr,
}
use sled_server.Common.Int.{ℤ, eq_ℤ}
use sled_server.Common.Outcome.{running}
use sled_server.Tcp.{
  NetConnection, NetServer, Handlers, ended, erase, entry, assign, lt_ℤ, net_disconnect,
  net_on_read, net_on_new_connection, connection_at, close_first, teardown_loop,
}
use sled_server.Tcp.Connections.{
  eq_ℤ_sound, eq_ℤ_refl, all_own, all_own-erase, entry-erase, assign-is_known, IsTidy,
}

length-erase : (fd : ℤ) (l : List (ℤ × Option NetConnection)) → length (erase fd l) ≤ length l
length-erase fd [] = omega arith
length-erase fd ((k, c) ∷ l) =
    let rest = length-erase fd l in
    elim (Bool-cases (eq_ℤ k fd)) [
      | inl e ↦ simp e (omega (arith, rest))
      | inr e ↦ simp e (omega (arith, rest))
    ]

-- The entry goes that the loop takes.
erase-first :
    (k fd : ℤ) (c : Option NetConnection) (l : List (ℤ × Option NetConnection))
    → eq_ℤ fd k ≡ true
    → erase fd ((k, c) ∷ l) ≡ erase fd l
erase-first k fd c l h =
    let m : eq_ℤ k fd ≡ true = ap (λ z. eq_ℤ k z) (eq_ℤ_sound fd k h) ∙ eq_ℤ_refl k in rw m refl

abbrev pub IsClosed : {U : Type 0} → Option (NetServer U) → Type 0
IsClosed none = ⊥
IsClosed (some t) = t.connection_data ≡ []

close_first-IsClosed :
    {U : Type 0}
    → (n : ℕ) (h : Handlers U) (l : List (ℤ × Option NetConnection)) (s : NetServer U)
    → s.connection_data ≡ l
    → all_own l ≡ true
    → length l ≤ n
    → IsClosed (close_first n h l s)
unfolding close_first net_disconnect
close_first-IsClosed n h [] s e a b = e
close_first-IsClosed zero h (x ∷ l) s e a b = absurd (omega (arith, b))
close_first-IsClosed (suc n) h ((k, none) ∷ l) s e a b = cc
close_first-IsClosed (suc n) h ((k, some c) ∷ l) s e a b =
    let own : eq_ℤ c.fd k ≡ true = ground (arith, a) in
    let left : erase c.fd s.connection_data ≡ erase c.fd l =
      ap (erase c.fd) e ∙ erase-first k c.fd (some c) l own in
    close_first-IsClosed n h _ (net_disconnect h (some c) s) refl
      (rw left (all_own-erase c.fd l (ground (arith, a))))
      (rw left (omega (arith, length-erase c.fd l, b)))

-- On a server where every entry is a connection under its own descriptor, the loop ends after as
-- many rounds as there are entries, or earlier, and no connection is left.
pub teardown_loop-IsClosed :
    {U : Type 0}
    → (h : Handlers U) (s : NetServer U) → all_own s.connection_data ≡ true
    → IsClosed (teardown_loop (length s.connection_data) h s)
unfolding teardown_loop
teardown_loop-IsClosed h s a =
    close_first-IsClosed (length s.connection_data) h s.connection_data s refl a (omega arith)

-- An entry is a null pointer, or a connection under its own descriptor.
abbrev pub is_own_or_null : ℤ → Option NetConnection → Bool
is_own_or_null k none = true
is_own_or_null k (some c) = eq_ℤ c.fd k

abbrev pub all_own_or_null : List (ℤ × Option NetConnection) → Bool
all_own_or_null [] = true
all_own_or_null ((k, c) ∷ rest) = is_own_or_null k c && all_own_or_null rest

all_own_or_null-erase :
    (fd : ℤ) (l : List (ℤ × Option NetConnection))
    → all_own_or_null l ≡ true
    → all_own_or_null (erase fd l) ≡ true
all_own_or_null-erase fd [] h = refl
all_own_or_null-erase fd ((k, c) ∷ l) h =
    let rest = all_own_or_null-erase fd l (ground (arith, h)) in
    elim (Bool-cases (eq_ℤ k fd)) [ inl e ↦ simp e rest | inr e ↦ simp e (ground (arith, h, rest)) ]

-- A null pointer that stands behind a connection is not its own.
entry-behind :
    (x k : ℤ) (c : NetConnection) (l : List (ℤ × Option NetConnection))
    → entry x ((k, some c) ∷ l) ≡ some none
    → (eq_ℤ k x ≡ false) × (entry x l ≡ some none)
entry-behind x k c l e = elim (Bool-cases (eq_ℤ k x)) [
  | inl m ↦ absurd cc
  | inr m ↦ (m, ground (arith, e, m))
]

close_first-never :
    {U : Type 0}
    → (n : ℕ) (h : Handlers U) (x : ℤ) (l : List (ℤ × Option NetConnection)) (s : NetServer U)
    → s.connection_data ≡ l
    → all_own_or_null l ≡ true
    → entry x l ≡ some none
    → close_first n h l s ≡ none
unfolding close_first net_disconnect
close_first-never n h x [] s e a m = cc
close_first-never zero h x (y ∷ l) s e a m = refl
close_first-never (suc n) h x ((k, none) ∷ l) s e a m =
    close_first-never n h x s.connection_data s refl (rw e a) (rw e m)
close_first-never (suc n) h x ((k, some c) ∷ l) s e a m =
    let own : eq_ℤ c.fd k ≡ true = ground (arith, a) in
    let left : erase c.fd s.connection_data ≡ erase c.fd l =
      ap (erase c.fd) e ∙ erase-first k c.fd (some c) l own in
    let (other, behind) = entry-behind x k c l m in
    let apart : eq_ℤ c.fd x ≡ false = ap (λ z. eq_ℤ z x) (eq_ℤ_sound c.fd k own) ∙ other in
    close_first-never n h x _ (net_disconnect h (some c) s) refl
      (rw left (all_own_or_null-erase c.fd l (ground (arith, a))))
      (rw left (entry-erase x c.fd l apart ∙ behind))

all_own-weaken : (l : List (ℤ × Option NetConnection)) → all_own l ≡ true → all_own_or_null l ≡ true
all_own-weaken [] h = refl
all_own-weaken ((k, none) ∷ l) h = cc
all_own-weaken ((k, some c) ∷ l) h = ground (arith, h, all_own-weaken l)

all_own_or_null-assign :
    (fd : ℤ) (l : List (ℤ × Option NetConnection))
    → all_own_or_null l ≡ true
    → all_own_or_null (assign fd none l) ≡ true
all_own_or_null-assign fd [] h = refl
all_own_or_null-assign fd ((k, c) ∷ l) h =
    let rest = all_own_or_null-assign fd l (ground (arith, h)) in
    elim (Bool-cases (eq_ℤ k fd)) [
      | inl e ↦ simp e (ground (arith, h))
      | inr e ↦ elim (Bool-cases (lt_ℤ fd k)) [
        | inl f ↦ simp (e, f) (ground (arith, h))
        | inr f ↦ simp (e, f) (ground (arith, h, rest))
      ]
    ]

-- Suppose that a tidy server has no entry for a descriptor, that a client is accepted on it whose
-- read event is added, and that its write buffer cannot be made. When the client leaves, a null
-- pointer comes into the map, and from then on the loop that shuts the server down never ends.
pub teardown_never_ends :
    {U : Type 0}
    → (h : Handlers U) (client : ℤ) (fuel : ℕ) (s : NetServer U) → IsTidy s
    → entry client s.connection_data ≡ none
    → (t : NetServer U) × ((net_on_read h ended client (
            net_on_new_connection h
              (record {
                client = client;
                event_new = true;
                event_add = true;
                bufferevent_socket_new = false;
              })
              s)
          ≡ running t)
        × (teardown_loop fuel h t ≡ none))
unfolding net_on_read net_on_new_connection connection_at net_disconnect teardown_loop
teardown_never_ends h client fuel s v e =
    let t : NetServer _ = record s {
      connection_data = assign client none s.connection_data;
      reading = client ∷ s.reading;
    } in
    (
      t,
      (
        rw (connection_at, e) refl,
        close_first-never fuel h client t.connection_data t refl
            (all_own_or_null-assign client s.connection_data
              (all_own-weaken s.connection_data v.own))
            (assign-is_known client none s.connection_data),
      ),
    )
