-- ===== src/Server/Isolation.antt =====
-- The profiles of libsled that the numbers of the clients stand for (src/server.cc, tlate_profile_id).
pub mod Commands
use mathlib.Core.Bool.{true≢false}
use sled_server.Common.{
  ℕ, suc, ◌+◌, ◌≡◌, ◌≢◌, refl, sym, ap, ◌∙◌, Bool, true, false, not, ◌&&◌, ◌||◌, ◌==◌, Option, none,
  some, List, [], ◌∷◌, ◌++◌, Bool-cases, Option-cases, inl, inr, arith,
}
use sled_server.Common.Int.{ℤ, pos, negsuc, Fpu, eq_ℤ}
use sled_server.Tcp.Connections.{eq_ℤ_sound, eq_ℤ_refl}
use sled_server.Profile.{Profile, create}
use sled_server.Profile.Usage.{used_at, IsNewSlot, create-IsNewSlot}
use sled_server.Api.{profiles_of, with_profiles}
use sled_server.Server.{Server, find, created_slot, remember, tlate_profile_id}

-- Whether a number of a client stands for slot `j`.
abbrev pub is_given : ℕ → List (ℤ × ℤ) → Bool
is_given j [] = false
is_given j ((k, v) ∷ rest) = eq_ℤ v (pos j) || is_given j rest

-- A number that stands for no slot, or for one that nothing in a list stands for.
abbrev is_free : ℤ → List (ℤ × ℤ) → Bool
is_free (pos j) l = not (is_given j l)
is_free (negsuc n) l = true

-- No slot is given twice.
abbrev pub are_apart : List (ℤ × ℤ) → Bool
are_apart [] = true
are_apart ((k, v) ∷ rest) = is_free v rest && are_apart rest

-- Every slot that is given is in use, none is given twice, and what was in use at first still is and
-- has been given to nobody.
pub record IsApart (first : ℕ → Bool) (s : Server) : Type 0 where
  pub used : (j : ℕ) → is_given j s.profile_tlate ≡ true → used_at j (profiles_of s.device) ≡ true
  pub apart : are_apart s.profile_tlate ≡ true
  pub kept : (j : ℕ) → first j ≡ true → used_at j (profiles_of s.device) ≡ true
  pub reserved : (j : ℕ) → first j ≡ true → is_given j s.profile_tlate ≡ false

-- What changes neither the translation nor the marks.
pub IsApart-same :
    (first : ℕ → Bool) (s t : Server)
    → t.profile_tlate ≡ s.profile_tlate
    → ((j : ℕ) → used_at j (profiles_of t.device) ≡ used_at j (profiles_of s.device))
    → IsApart first s
    → IsApart first t
IsApart-same first s t e u v = record {
  used = λ j g. u j ∙ v.used j (ap (is_given j) (sym e) ∙ g);
  apart = ap are_apart e ∙ v.apart;
  kept = λ j f. u j ∙ v.kept j f;
  reserved = λ j f. ap (is_given j) e ∙ v.reserved j f;
}

is_given-append :
    (j : ℕ) (k v : ℤ) (l : List (ℤ × ℤ))
    → is_given j (l ++ ((k, v) ∷ [])) ≡ (eq_ℤ v (pos j) || is_given j l)
is_given-append j k v [] = refl
is_given-append j k v ((i, w) ∷ l) = ground (arith, is_given-append j k v l)

is_free-append :
    (w k v : ℤ) (l : List (ℤ × ℤ))
    → is_free w l ≡ true
    → is_free v ((k, w) ∷ []) ≡ true
    → is_free w (l ++ ((k, v) ∷ [])) ≡ true
is_free-append (negsuc n) k v l h g = refl
is_free-append (pos j) k (negsuc n) l h g = ground (arith, h, is_given-append j k (negsuc n) l)
is_free-append (pos j) k (pos i) l h g = ground (arith, h, g, is_given-append j k (pos i) l)

are_apart-append :
    (k v : ℤ) (l : List (ℤ × ℤ))
    → are_apart l ≡ true
    → is_free v l ≡ true
    → are_apart (l ++ ((k, v) ∷ [])) ≡ true
are_apart-append k (negsuc n) [] a f = refl
are_apart-append k (pos n) [] a f = refl
are_apart-append k v ((i, w) ∷ l) a f =
    let rest : are_apart l ≡ true = ground (arith, a) in
    let here : is_free w l ≡ true = ground (arith, a) in
    let (later, other) = free_parts v i w l f in
    ground (arith, are_apart-append k v l rest later, is_free-append w k v l here other)
  where
    free_parts :
        (v i w : ℤ) (l : List (ℤ × ℤ))
        → is_free v ((i, w) ∷ l) ≡ true
        → (is_free v l ≡ true) × (is_free v ((k, w) ∷ []) ≡ true)
    free_parts (negsuc n) i w l f = (refl, refl)
    free_parts (pos n) i w l f = (ground (arith, f), ground (arith, f))

different :
    (used : ℕ → Bool) (i j n : ℕ) → used j ≡ true → used n ≡ false → i ≡ 0 + n → (i == j) ≡ false
different used i j n a b e = elim (Bool-cases (i == j)) [
  | inr d ↦ d
  | inl d ↦
      let same : j ≡ n = ground (arith, d, e) in absurd (true≢false (sym a ∙ ap used same ∙ b))
]

not_given :
    (used : ℕ → Bool) (l : List (ℤ × ℤ)) (i n : ℕ)
    → ((j : ℕ) → is_given j l ≡ true → used j ≡ true)
    → used n ≡ false
    → i ≡ 0 + n
    → is_given i l ≡ false
not_given used l i n u b e = elim (Bool-cases (is_given i l)) [
  | inr d ↦ d
  | inl d ↦
      let same : i ≡ n = ground (arith, e) in absurd (true≢false (sym (u i d) ∙ ap used same ∙ b))
]

-- A number that is remembered for what sled_profile_create made.
remembered :
    (first : ℕ → Bool) (profile : ℤ) (s : Server) (r : Option (ℕ × List Profile))
    → IsNewSlot 0 (profiles_of s.device) r
    → IsApart first s
    → IsApart first (remember profile (created_slot r s)).0
remembered first profile s none h v = record {
  used = λ j g. v.used j (sym (is_given-append j profile (negsuc 0) s.profile_tlate) ∙ g);
  apart = are_apart-append profile (negsuc 0) s.profile_tlate v.apart refl;
  kept = v.kept;
  reserved = λ j f. is_given-append j profile (negsuc 0) s.profile_tlate ∙ v.reserved j f;
}
remembered first profile s (some (i, ps)) (n, (e, (f, g))) v =
    let l = s.profile_tlate in
    let old = λ (j : ℕ). used_at j (profiles_of s.device) in
    let new : is_given i l ≡ false = not_given old l i n v.used f e in
    record {
      used = λ j h. elim (Bool-cases (is_given j l)) [
        | inl b ↦ ground (arith, g j, v.used j b)
        | inr b ↦ ground (arith, g j, e, is_given-append j profile (pos i) l, h, b)
      ];
      apart = are_apart-append profile (pos i) l v.apart (ground (arith, new));
      kept = λ j h. ground (arith, g j, v.kept j h);
      reserved = λ j h.
          let other : (i == j) ≡ false = different old i j n (v.kept j h) f e in
          ground (arith, is_given-append j profile (pos i) l, v.reserved j h, other);
    }

-- Whatever number a client names.
pub tlate_profile_id-IsApart :
    (first : ℕ → Bool) (fpu : Fpu) (profile : ℤ) (s : Server)
    → IsApart first s
    → IsApart first (tlate_profile_id fpu profile s).0
unfolding tlate_profile_id
tlate_profile_id-IsApart first fpu profile s v =
    elim (Option-cases (find profile s.profile_tlate)) [
      | inr (z, e) ↦ rw (e, tlate_profile_id) v
      | inl e ↦
          rw (e, tlate_profile_id)
            (remembered first profile s (create fpu (profiles_of s.device))
              (create-IsNewSlot fpu (profiles_of s.device)) v)
    ]

is_given-find : (k : ℤ) (j : ℕ) (l : List (ℤ × ℤ)) → find k l ≡ some (pos j) → is_given j l ≡ true
unfolding find
is_given-find k j [] e = cc
is_given-find k j ((i, v) ∷ l) e = elim (Bool-cases (eq_ℤ i k)) [
  | inl h ↦
      let same : v ≡ pos j = ground (arith, e, h) in
      ground (arith, ap (λ z. eq_ℤ z (pos j)) same, eq_ℤ_refl (pos j))
  | inr h ↦ ground (arith, is_given-find k j l (ground (arith, e, h)))
]

given_once :
    (j : ℕ) (v : ℤ) (l : List (ℤ × ℤ)) → v ≡ pos j → is_free v l ≡ true → is_given j l ≡ true → ⊥
given_once j v l e f g =
    let free : is_free (pos j) l ≡ true = ap (λ z. is_free z l) (sym e) ∙ f in
    ground (arith, free, g)

-- The numbers that stand for a slot are one.
pub find-apart :
    (k n : ℤ) (j : ℕ) (l : List (ℤ × ℤ))
    → are_apart l ≡ true
    → find k l ≡ some (pos j)
    → find n l ≡ some (pos j)
    → k ≡ n
unfolding find
find-apart k n j [] a e f = cc
find-apart k n j ((i, v) ∷ l) a e f = elim (Bool-cases (eq_ℤ i k)) [
  | inl h ↦ elim (Bool-cases (eq_ℤ i n)) [
    | inl g ↦ sym (eq_ℤ_sound i k h) ∙ eq_ℤ_sound i n g
    | inr g ↦ absurd (
        given_once j v l (ground (arith, e, h)) (ground (arith, a))
          (is_given-find n j l (ground (arith, f, g))))
  ]
  | inr h ↦ elim (Bool-cases (eq_ℤ i n)) [
    | inl g ↦ absurd (
        given_once j v l (ground (arith, f, g)) (ground (arith, a))
          (is_given-find k j l (ground (arith, e, h))))
    | inr g ↦ find-apart k n j l (ground (arith, a)) (ground (arith, e, h)) (ground (arith, f, g))
  ]
]

pub is_given-found :
    (k : ℤ) (j : ℕ) (l : List (ℤ × ℤ)) → is_given j l ≡ false → find k l ≢ some (pos j)
is_given-found k j l h e = true≢false (sym (is_given-find k j l e) ∙ h)
