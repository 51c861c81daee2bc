-- ===== src/Api/Table.antt =====
-- The profile table (libsled/sled_profile.cc) as a whole: its size and the profiles behind each other.
use sled_server.Common.{
  ℕ, suc, ◌+◌, ◌<◌, ◌≡◌, refl, ap, ◌∙◌, Bool, true, false, ltb, Option, none, some, List, [], ◌∷◌,
  length, length-set, arith, Bool-cases, inl, inr,
}
use sled_server.Common.Int.{ℤ, pos, negsuc, Fpu}
use sled_server.Profile.{
  Profile, BlendType, blend_after, max_profiles, clear_profile, create_from, create, modify,
  set_table, set_next, write_table, write_next,
}
use sled_server.Profile.Slots.{modify_cases}
use sled_server.Upload.Visits.{in_table}
use sled_server.Upload.Termination.{all_linked, all_linked-set, all_linked-get_elem?}
use sled_server.Api.{Registered, kept, handle_of, create_handle, clear_all, registered}

-- A handle of a slot.
abbrev pub is_slot : ℤ → Bool
is_slot (pos n) = ltb n max_profiles
is_slot (negsuc n) = false

pub in_table-is_slot : (z : ℤ) → is_slot z ≡ true → in_table max_profiles z ≡ true
in_table-is_slot (pos n) h = h
in_table-is_slot (negsuc n) h = refl

-- The four profiles that sled_create registers are slots of the table.
abbrev pub IsSlots : Registered → Type 0
IsSlots r =
    (is_slot r.there ≡ true)
    × ((is_slot r.rthere ≡ true) × ((is_slot r.back ≡ true) × (is_slot r.rback ≡ true)))

abbrev pub IsCreated : ℕ → ℕ → List Profile → Option (ℕ × List Profile) → Type 0
IsCreated n i ps none = ℕ
IsCreated n i ps (some (j, qs)) =
    (length qs ≡ length ps) × ((j < i + length ps) × (all_linked n qs ≡ true))

IsCreated-skip :
    (n i : ℕ) (p : Profile) (ps : List Profile) (r : Option (ℕ × List Profile))
    → in_table n p.next_profile ≡ true
    → IsCreated n (suc i) ps r
    → IsCreated n i (p ∷ ps) (elim r [ none ↦ none | some (j, qs) ↦ some (j, p ∷ qs) ])
IsCreated-skip n i p ps none a h = h
IsCreated-skip n i p ps (some (j, qs)) a (e, (b, c)) =
    (ap suc e, (omega (arith, b), ground (arith, a, c)))

pub create_from-IsCreated :
    (fpu : Fpu) (n i : ℕ) (ps : List Profile)
    → all_linked n ps ≡ true
    → IsCreated n i ps (create_from fpu i ps)
unfolding create_from clear_profile
create_from-IsCreated fpu n i [] a = 0
create_from-IsCreated fpu n i (p ∷ ps) a = elim (Bool-cases p.in_use) [
  | inr u ↦ simp u (refl, (omega arith, ground (arith, a)))
  | inl u ↦ simp u (
      IsCreated-skip n i p ps _ (ground (arith, a))
        (create_from-IsCreated fpu n (suc i) ps (ground (arith, a))))
]

-- The table has its size, and every profile's next one is in it.
abbrev pub IsTable : List Profile → Type 0
IsTable ps = (length ps ≡ max_profiles) × (all_linked max_profiles ps ≡ true)

handle_of-IsTable :
    (ps : List Profile) (r : Option (ℕ × List Profile))
    → IsCreated max_profiles 0 ps r
    → IsTable ps
    → IsTable (handle_of r ps).1
handle_of-IsTable ps none h v = v
handle_of-IsTable ps (some (j, qs)) (e, (b, a)) v = (e ∙ v.0, a)

create_handle-IsTable :
    (fpu : Fpu) (ps : List Profile) → IsTable ps → IsTable (create_handle fpu ps).1
unfolding create
create_handle-IsTable fpu ps v =
    handle_of-IsTable ps (create fpu ps) (create_from-IsCreated fpu max_profiles 0 ps v.1) v

kept-IsTable :
    (f : Profile → Profile) (z : ℤ) (ps : List Profile)
    → ((p : Profile)
        → in_table max_profiles p.next_profile ≡ true
        → in_table max_profiles (f p).next_profile ≡ true)
    → IsTable ps
    → IsTable (kept (modify f z) ps)
kept-IsTable f z ps k v = elim (modify_cases f ps z) [
  | inl e ↦ rw (kept, e) v
  | inr (n, p, e, g) ↦
      rw (kept, e)
        (
          length-set ps n (f p) ∙ v.0,
          all_linked-set max_profiles ps n (f p) v.1
              (k p (all_linked-get_elem? max_profiles ps n p v.1 g)),
        )
]

set_table-IsTable :
    (z table : ℤ) (ps : List Profile) → IsTable ps → IsTable (kept (set_table z table) ps)
unfolding set_table write_table
set_table-IsTable z table ps v = kept-IsTable (write_table table) z ps (λ p h. ground (arith, h)) v

set_next-IsTable :
    (fpu : Fpu) (z next_profile : ℤ) (delay : ℕ) (blend : BlendType) (ps : List Profile)
    → in_table max_profiles next_profile ≡ true
    → IsTable ps
    → IsTable (kept (set_next fpu z next_profile delay blend) ps)
unfolding set_next write_next
set_next-IsTable fpu z next_profile delay blend ps t v =
    kept-IsTable (write_next fpu next_profile delay blend) z ps (λ p h. ground (arith, h, t)) v

clear_all-length : (fpu : Fpu) (i : ℕ) (ps : List Profile) → length (clear_all fpu i ps) ≡ length ps
unfolding clear_all
clear_all-length fpu i [] = refl
clear_all-length fpu i (p ∷ ps) = ap suc (clear_all-length fpu (suc i) ps)

all_linked-clear_all :
    (fpu : Fpu) (n i : ℕ) (ps : List Profile) → all_linked n (clear_all fpu i ps) ≡ true
unfolding clear_all clear_profile
all_linked-clear_all fpu n i [] = refl
all_linked-clear_all fpu n i (p ∷ ps) = all_linked-clear_all fpu n (suc i) ps

-- sled_create's table is in order, whatever the memory held.
pub registered-IsTable :
    (fpu : Fpu) (memory : List Profile)
    → length memory ≡ max_profiles
    → IsSlots (registered fpu memory)
    → IsTable (registered fpu memory).table
unfolding registered
registered-IsTable fpu memory e h =
    let a = create_handle fpu (clear_all fpu 0 memory) in
    let b = create_handle fpu a.1 in
    let c = create_handle fpu b.1 in
    let d = create_handle fpu c.1 in
    let start : IsTable (clear_all fpu 0 memory) =
      (clear_all-length fpu 0 memory ∙ e, all_linked-clear_all fpu max_profiles 0 memory) in
    let made : IsTable d.1 = create_handle-IsTable fpu c.1 (
      create_handle-IsTable fpu b.1
        (create_handle-IsTable fpu a.1 (create_handle-IsTable fpu _ start))) in
    let filled = set_table-IsTable d.0 (pos 3) _ (
      set_table-IsTable c.0 (pos 0) _
        (set_table-IsTable b.0 (pos 1) _ (set_table-IsTable a.0 (pos 0) d.1 made))) in
    let zero_delay = fpu.literal 0 in
    set_next-IsTable fpu c.0 a.0 zero_delay blend_after _ (in_table-is_slot a.0 h.0) (
      set_next-IsTable fpu b.0 c.0 zero_delay blend_after _ (in_table-is_slot c.0 h.1.1.0) (
        set_next-IsTable fpu a.0 c.0 zero_delay blend_after _ (in_table-is_slot c.0 h.1.1.0)
          filled))

-- With four slots at least, the four profiles are there.
pub registered-IsSlots :
    (fpu : Fpu) (memory : List Profile)
    → length memory ≡ max_profiles
    → IsSlots (registered fpu memory)
unfolding registered create create_from clear_all clear_profile
registered-IsSlots fpu [] e = absurd (omega (arith, e))
registered-IsSlots fpu (p ∷ []) e = absurd (omega (arith, e))
registered-IsSlots fpu (p ∷ q ∷ []) e = absurd (omega (arith, e))
registered-IsSlots fpu (p ∷ q ∷ r ∷ []) e = absurd (omega (arith, e))
registered-IsSlots fpu (p ∷ q ∷ r ∷ s ∷ rest) e = (refl, (refl, (refl, refl)))
