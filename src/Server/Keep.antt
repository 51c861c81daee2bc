-- ===== src/Server/Keep.antt =====
-- What the server (src/server.cc) keeps in order, and the operations on its parts.
use sled_server.Common.{
  ℕ, ◌≡◌, refl, ◌∙◌, Bool, true, false, ◌&&◌, ◌==◌, Option, none, some, List, [], ◌∷◌, ◌++◌, length,
  arith, Bool-cases, Option-cases, inl, inr,
}
use sled_server.Common.Int.{ℤ, Fpu, eq_ℤ}
use sled_server.Profile.{Profile, max_profiles, create}
use sled_server.Upload.Visits.{in_table}
use sled_server.Upload.Termination.{all_linked}
use sled_server.Api.Table.{IsCreated, create_from-IsCreated}
use sled_server.Api.{Device, profiles_of, with_profiles}
use sled_server.Api.Soundness.{IsReady, with_profiles-IsSound}
use sled_server.Parser.{ByteOrder}
use sled_server.Server.{
  Server, find, tlate_profile_id, created_slot, remember, remove, without, is_client, set_order,
}

-- Every number that a profile is translated to is a slot of the table, or -1.
abbrev pub all_slots : List (ℤ × ℤ) → Bool
all_slots [] = true
all_slots ((k, v) ∷ rest) = in_table max_profiles v && all_slots rest

-- Every client of the stream is connected.
abbrev pub all_clients : List ℕ → List (ℕ × ByteOrder) → Bool
all_clients [] clients = true
all_clients (id ∷ ids) clients = is_client id clients && all_clients ids clients

pub record IsInOrder (s : Server) : Type 0 where
  pub ready : IsReady s.device
  pub translated : all_slots s.profile_tlate ≡ true
  pub streaming : all_clients s.stream_clients s.clients ≡ true

-- A table of profiles in the place of the device's.
pub with_profiles-IsReady :
    (ps : List Profile) (d : Device)
    → length ps ≡ max_profiles
    → all_linked max_profiles ps ≡ true
    → IsReady d
    → IsReady (with_profiles ps d)
with_profiles-IsReady ps d e a v = record {
  sound = with_profiles-IsSound ps d v.sound;
  full = e;
  linked = a;
  handles = v.handles;
}

abbrev HasGoodSlot : Server × ℤ → Type 0
HasGoodSlot r = IsInOrder r.0 × (in_table max_profiles r.1 ≡ true)

created_slot-HasGoodSlot :
    (s : Server) (r : Option (ℕ × List Profile))
    → IsCreated max_profiles 0 (profiles_of s.device) r
    → IsInOrder s
    → HasGoodSlot (created_slot r s)
created_slot-HasGoodSlot s none h v = (v, refl)
created_slot-HasGoodSlot s (some (i, ps)) (e, (b, a)) v = (
  record {
    ready = with_profiles-IsReady ps s.device (e ∙ v.ready.full) a v.ready;
    translated = v.translated;
    streaming = v.streaming;
  },
  ground (arith, b, v.ready.full),
)

all_slots-append :
    (l : List (ℤ × ℤ)) (k v : ℤ)
    → all_slots l ≡ true
    → in_table max_profiles v ≡ true
    → all_slots (l ++ ((k, v) ∷ [])) ≡ true
all_slots-append [] k v a t = ground (arith, t)
all_slots-append ((j, w) ∷ l) k v a t =
    ground (arith, a, all_slots-append l k v (ground (arith, a)) t)

remember-HasGoodSlot :
    (profile : ℤ) (r : Server × ℤ) → HasGoodSlot r → HasGoodSlot (remember profile r)
remember-HasGoodSlot profile (s, id) (v, t) = (
  record {
    ready = v.ready;
    translated = all_slots-append s.profile_tlate profile id v.translated t;
    streaming = v.streaming;
  },
  t,
)

all_slots-find :
    (key : ℤ) (l : List (ℤ × ℤ)) {v : ℤ}
    → all_slots l ≡ true
    → find key l ≡ some v
    → in_table max_profiles v ≡ true
unfolding find
all_slots-find key [] a e = cc
all_slots-find key ((k, w) ∷ l) {v} a e =
    let later : find key l ≡ some v → in_table max_profiles v ≡ true =
      all_slots-find key l (ground (arith, a)) in
    elim (Bool-cases (eq_ℤ k key)) [ inl h ↦ ground (arith, a, e, h) | inr h ↦ later cc ]

pub tlate_profile_id-HasGoodSlot :
    (fpu : Fpu) (profile : ℤ) (s : Server)
    → IsInOrder s
    → HasGoodSlot (tlate_profile_id fpu profile s)
unfolding tlate_profile_id create
tlate_profile_id-HasGoodSlot fpu profile s v = elim (Option-cases (find profile s.profile_tlate)) [
  | inr (id, e) ↦
      rw (e, tlate_profile_id) (v, all_slots-find profile s.profile_tlate v.translated e)
  | inl e ↦
      rw (e, tlate_profile_id)
        (remember-HasGoodSlot profile _ (
          created_slot-HasGoodSlot s _
            (create_from-IsCreated fpu max_profiles 0 (profiles_of s.device) v.ready.linked) v))
]

pub all_clients-remove :
    (id : ℕ) (ids : List ℕ) (clients : List (ℕ × ByteOrder))
    → all_clients ids clients ≡ true
    → all_clients (remove id ids) clients ≡ true
all_clients-remove id [] clients a = refl
all_clients-remove id (x ∷ ids) clients a =
    let rest = all_clients-remove id ids clients (ground (arith, a)) in
    elim (Bool-cases (x == id)) [ inl h ↦ simp h rest | inr h ↦ simp h (ground (arith, a, rest)) ]

pub all_clients-append :
    (id : ℕ) (ids : List ℕ) (clients : List (ℕ × ByteOrder))
    → all_clients ids clients ≡ true
    → is_client id clients ≡ true
    → all_clients (ids ++ (id ∷ [])) clients ≡ true
all_clients-append id [] clients a c = ground (arith, c)
all_clients-append id (x ∷ ids) clients a c =
    ground (arith, a, all_clients-append id ids clients (ground (arith, a)) c)

pub is_client-set_order :
    (x id : ℕ) (order : ByteOrder) (clients : List (ℕ × ByteOrder))
    → is_client x (set_order id order clients) ≡ is_client x clients
is_client-set_order x id order [] = refl
is_client-set_order x id order ((k, o) ∷ clients) = elim (Bool-cases (k == id)) [
  | inl h ↦ simp h refl
  | inr h ↦ simp (h, is_client-set_order x id order clients) refl
]

pub all_clients-set_order :
    (id : ℕ) (order : ByteOrder) (ids : List ℕ) (clients : List (ℕ × ByteOrder))
    → all_clients ids clients ≡ true
    → all_clients ids (set_order id order clients) ≡ true
all_clients-set_order id order [] clients a = refl
all_clients-set_order id order (x ∷ ids) clients a =
    let rest = all_clients-set_order id order ids clients (ground (arith, a)) in
    simp (is_client-set_order x id order clients) (ground (arith, a, rest))

-- Whoever is no client leaves no client of the stream behind.
pub is_client-without :
    (x id : ℕ) (clients : List (ℕ × ByteOrder))
    → (x == id) ≡ false
    → is_client x (without id clients) ≡ is_client x clients
is_client-without x id [] n = refl
is_client-without x id ((k, o) ∷ clients) n = elim (Bool-cases (k == id)) [
  | inl h ↦ simp h (is_client-without x id clients n ∙ ground (arith, h, n))
  | inr h ↦ simp (h, is_client-without x id clients n) refl
]

pub not_client-without :
    (id : ℕ) (clients : List (ℕ × ByteOrder)) → is_client id (without id clients) ≡ false
not_client-without id [] = refl
not_client-without id ((k, o) ∷ clients) = elim (Bool-cases (k == id)) [
  | inl h ↦ simp h (not_client-without id clients)
  | inr h ↦ simp (h, not_client-without id clients) refl
]

pub all_clients-without :
    (id : ℕ) (ids : List ℕ) (clients : List (ℕ × ByteOrder))
    → all_clients ids clients ≡ true
    → all_clients (remove id ids) (without id clients) ≡ true
all_clients-without id [] clients a = refl
all_clients-without id (x ∷ ids) clients a =
    let rest = all_clients-without id ids clients (ground (arith, a)) in
    elim (Bool-cases (x == id)) [
      | inl h ↦ simp h rest
      | inr h ↦ simp (h, is_client-without x id clients h) (ground (arith, a, rest))
    ]
