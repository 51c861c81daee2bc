-- ===== src/Profile/Usage.antt =====
-- Which slots of the profile table are in use (libsled/sled_profile.cc).
use sled_server.Common.{
  ℕ, zero, suc, ◌+◌, ◌≡◌, refl, ◌∙◌, Bool, true, false, ◌||◌, ◌==◌, Option, none, some, List, [],
  ◌∷◌, get_elem?, set, Bool-cases, inl, inr, arith,
}
use sled_server.Common.Int.{ℤ, Fpu}
use sled_server.Profile.{
  Profile, PositionType, BlendType, FieldState, profiles_reset, mark_as_unsaved, set_field_state,
  clear_profile, create_from, create, modify, set_table, set_target, set_next, write_table,
  write_target, write_next,
}
use sled_server.Profile.Slots.{modify_cases}

abbrev pub used_at : ℕ → List Profile → Bool
used_at n [] = false
used_at zero (p ∷ ps) = p.in_use
used_at (suc n) (p ∷ ps) = used_at n ps

pub used_at-set :
    (m n : ℕ) (ps : List Profile) (p q : Profile)
    → get_elem? ps n ≡ some p
    → q.in_use ≡ p.in_use
    → used_at m (set ps n q) ≡ used_at m ps
used_at-set m n [] p q g e = refl
used_at-set zero zero (x ∷ ps) p q g e = ground (arith, g, e)
used_at-set (suc m) zero (x ∷ ps) p q g e = refl
used_at-set zero (suc n) (x ∷ ps) p q g e = refl
used_at-set (suc m) (suc n) (x ∷ ps) p q g e = used_at-set m n ps p q g e

-- The slots in use are those that `b` tells.
abbrev pub HasUse : (ℕ → Bool) → List Profile → Type 0
HasUse b ps = (m : ℕ) → used_at m ps ≡ b m

used_at-profiles_reset : (m : ℕ) (ps : List Profile) → used_at m (profiles_reset ps) ≡ used_at m ps
unfolding profiles_reset mark_as_unsaved
used_at-profiles_reset m [] = refl
used_at-profiles_reset zero (p ∷ ps) = elim (Bool-cases p.in_use) [
  | inl u ↦ rw u refl
  | inr u ↦ rw u refl
]
used_at-profiles_reset (suc m) (p ∷ ps) = used_at-profiles_reset m ps

pub profiles_reset-HasUse :
    (b : ℕ → Bool) (ps : List Profile) → HasUse b ps → HasUse b (profiles_reset ps)
profiles_reset-HasUse b ps h = λ m. used_at-profiles_reset m ps ∙ h m

pub set_field_state-in_use :
    (index : ℕ) (f : FieldState) (p : Profile) → (set_field_state index f p).in_use ≡ p.in_use
unfolding set_field_state
set_field_state-in_use index f p = ground arith

pub field-HasUse :
    (b : ℕ → Bool) (ps : List Profile) (n index : ℕ) (f : FieldState) (p : Profile)
    → get_elem? ps n ≡ some p
    → HasUse b ps
    → HasUse b (set ps n (set_field_state index f p))
field-HasUse b ps n index f p e h =
    λ m. used_at-set m n ps p (set_field_state index f p) e (set_field_state-in_use index f p) ∙ h m

-- What a setter that keeps the mark leaves.
abbrev pub KeepsUse : List Profile → Option (List Profile) → Type 0
KeepsUse ps none = ℕ
KeepsUse ps (some qs) = (m : ℕ) → used_at m qs ≡ used_at m ps

modify-KeepsUse :
    (f : Profile → Profile) (z : ℤ) (ps : List Profile)
    → ((p : Profile) → (f p).in_use ≡ p.in_use)
    → KeepsUse ps (modify f z ps)
modify-KeepsUse f z ps k = elim (modify_cases f ps z) [
  | inl e ↦ rw e 0
  | inr (n, p, e, g) ↦ rw e (λ m. used_at-set m n ps p (f p) g (k p))
]

pub set_table-KeepsUse : (z table : ℤ) (ps : List Profile) → KeepsUse ps (set_table z table ps)
unfolding set_table write_table
set_table-KeepsUse z table ps = modify-KeepsUse (write_table table) z ps λ p. ground arith

pub set_target-KeepsUse :
    (fpu : Fpu) (z : ℤ) (type : PositionType) (position time : ℕ) (ps : List Profile)
    → KeepsUse ps (set_target fpu z type position time ps)
unfolding set_target write_target
set_target-KeepsUse fpu z type position time ps =
    modify-KeepsUse (write_target fpu type position time) z ps λ p. ground arith

pub set_next-KeepsUse :
    (fpu : Fpu) (z next_profile : ℤ) (delay : ℕ) (blend : BlendType) (ps : List Profile)
    → KeepsUse ps (set_next fpu z next_profile delay blend ps)
unfolding set_next write_next
set_next-KeepsUse fpu z next_profile delay blend ps =
    modify-KeepsUse (write_next fpu next_profile delay blend) z ps λ p. ground arith

-- A slot that was free, and is the only one whose use changes.
abbrev pub IsNewSlot : ℕ → List Profile → Option (ℕ × List Profile) → Type 0
IsNewSlot i ps none = ℕ
IsNewSlot i ps (some (j, qs)) =
    (n : ℕ) × ((j ≡ i + n)
      × ((used_at n ps ≡ false) × ((m : ℕ) → used_at m qs ≡ (m == n || used_at m ps))))

first_new :
    (m : ℕ) (p q : Profile) (ps : List Profile)
    → q.in_use ≡ true
    → used_at m (q ∷ ps) ≡ (m == 0 || used_at m (p ∷ ps))
first_new zero p q ps h = ground (arith, h)
first_new (suc m) p q ps h = ground arith

later_new :
    (m n : ℕ) (p : Profile) (ps qs : List Profile)
    → ((k : ℕ) → used_at k qs ≡ (k == n || used_at k ps))
    → used_at m (p ∷ qs) ≡ (m == suc n || used_at m (p ∷ ps))
later_new zero n p ps qs h = ground arith
later_new (suc m) n p ps qs h = ground (arith, h m)

skipped :
    (i : ℕ) (p : Profile) (ps : List Profile) (r : Option (ℕ × List Profile))
    → IsNewSlot (suc i) ps r
    → IsNewSlot i (p ∷ ps) (elim r [ none ↦ none | some (j, qs) ↦ some (j, p ∷ qs) ])
skipped i p ps none h = 0
skipped i p ps (some (j, qs)) (n, (e, (f, g))) =
    (suc n, (omega (arith, e), (f, λ m. later_new m n p ps qs g)))

create_from-IsNewSlot :
    (fpu : Fpu) (i : ℕ) (ps : List Profile) → IsNewSlot i ps (create_from fpu i ps)
unfolding create_from clear_profile
create_from-IsNewSlot fpu i [] = 0
create_from-IsNewSlot fpu i (p ∷ ps) = elim (Bool-cases p.in_use) [
  | inr u ↦ simp u (0, (omega arith, (u, λ m. first_new m p (clear_profile fpu i true p) ps refl)))
  | inl u ↦
      simp u (skipped i p ps (create_from fpu (suc i) ps) (create_from-IsNewSlot fpu (suc i) ps))
]

pub create-IsNewSlot : (fpu : Fpu) (ps : List Profile) → IsNewSlot 0 ps (create fpu ps)
unfolding create
create-IsNewSlot fpu ps = create_from-IsNewSlot fpu 0 ps
