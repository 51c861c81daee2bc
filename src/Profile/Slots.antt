-- ===== src/Profile/Slots.antt =====
-- Which slot of the profile table (libsled/sled_profile.cc) is taken, and which handles are valid.
use sled_server.Common.{
  ◌⊎◌, ℕ, zero, suc, ◌+◌, ◌<◌, ◌≡◌, ◌≢◌, ◌↔◌, refl, true, false, Option, none, some, List, [], ◌∷◌,
  get_elem?, set, arith, Option-cases, inl, inr, Bool-cases,
}
use sled_server.Common.Int.{ℤ, pos, negsuc, Fpu}
use sled_server.Profile.{
  Profile, max_profiles, clear_profile, create_from, create, used_slot, modify,
}

-- A new profile as sled_profile_create leaves it in slot `i`.
abbrev pub fresh : Fpu → ℕ → Profile → Profile
fresh fpu i p = record (clear_profile fpu i true p) { in_use = true; never_sent = true }

-- All the profiles are in use.
abbrev pub AllUsed : List Profile → Type 0
AllUsed [] = Unit {0}
AllUsed (p ∷ ps) = (p.in_use ≡ true) × AllUsed ps

-- Slot `k` is the first free one of `ps`, and `qs` has a fresh profile there and is `ps` elsewhere.
-- `i` is the number of the first slot.
abbrev pub Takes : Fpu → ℕ → ℕ → List Profile → List Profile → Type 0
Takes fpu i zero [] qs = ⊥
Takes fpu i zero (p ∷ ps) qs = (p.in_use ≡ false) × (qs ≡ fresh fpu i p ∷ ps)
Takes fpu i (suc k) [] qs = ⊥
Takes fpu i (suc k) (p ∷ ps) [] = ⊥
Takes fpu i (suc k) (p ∷ ps) (q ∷ qs) = (p.in_use ≡ true) × ((q ≡ p) × Takes fpu (suc i) k ps qs)

-- The outcome of the search, either way.
abbrev pub Created : Fpu → ℕ → List Profile → Option (ℕ × List Profile) → Type 0
Created fpu i ps none = AllUsed ps
Created fpu i ps (some (j, qs)) = (k : ℕ) × (j ≡ i + k) × Takes fpu i k ps qs

Created-skip :
    (fpu : Fpu) (i : ℕ) (p : Profile) (ps : List Profile) (r : Option (ℕ × List Profile))
    → p.in_use ≡ true
    → Created fpu (suc i) ps r
    → Created fpu i (p ∷ ps) (elim r [ none ↦ none | some (j, qs) ↦ some (j, p ∷ qs) ])
Created-skip fpu i p ps none u h = (u, h)
Created-skip fpu i p ps (some (j, qs)) u (k, e, t) = (suc k, omega arith, (u, (refl, t)))

create_from_lem : (fpu : Fpu) (i : ℕ) (ps : List Profile) → Created fpu i ps (create_from fpu i ps)
unfolding create_from
create_from_lem fpu i [] = tt
create_from_lem fpu i (p ∷ ps) = elim (Bool-cases p.in_use) [
  | inl u ↦ simp u (Created-skip fpu i p ps _ u (create_from_lem fpu (suc i) ps))
  | inr f ↦ simp f (zero, omega arith, (f, refl))
]

-- Creating a profile takes the first free slot and leaves all others as they were; it fails only
-- if every slot is in use.
pub create_first_free : (fpu : Fpu) (ps : List Profile) → Created fpu 0 ps (create fpu ps)
unfolding create
create_first_free fpu ps = create_from_lem fpu 0 ps

-- A handle is good if it is the number of a slot, below the fixed size, that is in use.
abbrev pub IsGood : List Profile → ℤ → Type 0
IsGood ps handle =
    (n : ℕ) × (p : Profile) × (handle ≡ pos n)
    × (n < max_profiles)
    × (get_elem? ps n ≡ some p)
    × (p.in_use ≡ true)

pub used_slot_good :
    (ps : List Profile) (handle : ℤ) (n : ℕ) (p : Profile)
    → used_slot ps handle ≡ some (n, p)
    → (handle ≡ pos n) × (n < max_profiles) × (get_elem? ps n ≡ some p) × (p.in_use ≡ true)
unfolding used_slot
used_slot_good ps (negsuc m) n p h = cc
used_slot_good ps (pos m) n p h = ground arith

-- A setter fails, or writes the slot of the handle.
pub modify_cases :
    (f : Profile → Profile) (ps : List Profile) (handle : ℤ)
    → (modify f handle ps ≡ none)
      ⊎ ((n : ℕ) × (p : Profile) × (modify f handle ps ≡ some (set ps n (f p)))
          × (get_elem? ps n ≡ some p))
unfolding modify
modify_cases f ps handle = elim (Option-cases (used_slot ps handle)) [
  | inl e ↦ inl (rw (e, modify))
  | inr ((n, p), e) ↦
      let (a, b, c, u) = used_slot_good ps handle n p e in inr (n, p, rw (e, modify) refl, c)
]

-- A handle that is not good, in any way, makes each setter fail.
pub modify_fails :
    (f : Profile → Profile) (ps : List Profile) (handle : ℤ)
    → ¬ IsGood ps handle
    → modify f handle ps ≡ none
unfolding modify
modify_fails f ps handle bad = elim (Option-cases (used_slot ps handle)) [
  | inl e ↦ rw (e, modify)
  | inr ((n, p), e) ↦
      let (a, b, c, d) = used_slot_good ps handle n p e in absurd (bad (n, p, a, b, c, d))
]

used_slot_of_good :
    (ps : List Profile) (n : ℕ) (p : Profile)
    → n < max_profiles
    → get_elem? ps n ≡ some p
    → p.in_use ≡ true
    → used_slot ps (pos n) ≡ some (n, p)
unfolding used_slot
used_slot_of_good ps n p h e u = ground arith

-- On a good handle a setter writes that slot and no other.
pub modify_writes :
    (f : Profile → Profile) (ps : List Profile) (n : ℕ) (p : Profile)
    → n < max_profiles
    → get_elem? ps n ≡ some p
    → p.in_use ≡ true
    → modify f (pos n) ps ≡ some (set ps n (f p))
unfolding modify
modify_writes f ps n p h e u = rw (used_slot_of_good ps n p h e u, modify)

modify_not_none :
    (f : Profile → Profile) (ps : List Profile) (handle : ℤ)
    → IsGood ps handle
    → modify f handle ps ≢ none
modify_not_none f ps (pos m) (n, p, h, b, g, u) e =
    let w = modify_writes f ps n p b g u in ground (arith, w)
modify_not_none f ps (negsuc m) (n, p, h, b, g, u) e = cc

-- Each setter fails exactly on the handles that are not good: a negative one, one past the end of
-- the table, or one that is not in use.
pub modify_fails_iff :
    (f : Profile → Profile) (ps : List Profile) (handle : ℤ)
    → (modify f handle ps ≡ none) ↔ (¬ IsGood ps handle)
modify_fails_iff f ps handle =
    (λ e good. modify_not_none f ps handle good e, modify_fails f ps handle)
