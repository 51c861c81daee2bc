-- ===== src/Profile.antt =====
-- libsled/sled_profile.cc and the profile part of libsled/sled_internal.h: the local copies of the
-- motion profiles. A handle is the `int` that the program passes about; -1 as a result is `none`.
pub mod Slots
pub mod Usage
pub mod Pending
use sled_server.Common.{
  ℕ, zero, suc, ◌+◌, Bool, true, false, Option, none, some, List, [], ◌∷◌, ltb, ◌==◌, ◌&&◌, ◌||◌,
  not, if◌then◌else◌, get_elem?, set, map, bit_or,
}
use sled_server.Common.Int.{ℤ, pos, negsuc, eq_ℤ, is_nonneg, Double, Fpu}

pub data FieldState : Type 0 where
  changed : FieldState
  writing : FieldState
  invalid : FieldState
  written : FieldState

pub data PositionType : Type 0 where
  absolute relative_target relative_actual : PositionType

pub data BlendType : Type 0 where
  no_blend blend_before blend_after : BlendType

-- sled_profile_t
pub record Profile : Type 0 where
  pub in_use : Bool
  pub never_sent : Bool
  pub profile : ℕ
  pub table : ℤ
  pub position_type : PositionType
  pub position : Double
  pub time : Double
  pub next_profile : ℤ
  pub delay : Double
  pub blend_type : BlendType
  pub ob_o_p : FieldState
  pub ob_o_v : FieldState
  pub ob_o_c : FieldState
  pub ob_o_acc : FieldState
  pub ob_o_dec : FieldState
  pub ob_o_tab : FieldState
  pub ob_o_fn : FieldState
  pub ob_o_ft : FieldState

abbrev pub max_profiles : ℕ
max_profiles = 99

abbrev pub position_type_number : PositionType → ℕ
position_type_number absolute = 0
position_type_number relative_target = 1
position_type_number relative_actual = 2

abbrev pub blend_type_number : BlendType → ℕ
blend_type_number no_blend = 0
blend_type_number blend_before = 1
blend_type_number blend_after = 2

abbrev position_bits : PositionType → ℕ
position_bits absolute = 0
position_bits relative_actual = bit_or 0x01 0x04
position_bits relative_target = bit_or 0x01 0x02

abbrev blend_bits : BlendType → ℕ
blend_bits no_blend = 0
blend_bits blend_before = bit_or 0x100 0x10
blend_bits blend_after = 0x10

-- sled_profile_get_controlword
unfoldable pub get_controlword : Profile → ℕ
get_controlword p =
    bit_or
      (bit_or
        (bit_or
          (bit_or (position_bits p.position_type) (if is_nonneg p.next_profile then 0x08 else 0))
          (blend_bits p.blend_type))
        0x200)
      0x2000

-- sled_profile_mark_as_unsaved
unfoldable pub mark_as_unsaved : Profile → Profile
mark_as_unsaved p = record p {
  ob_o_p = changed;
  ob_o_v = changed;
  ob_o_c = changed;
  ob_o_acc = changed;
  ob_o_dec = changed;
  ob_o_tab = changed;
  ob_o_fn = changed;
  ob_o_ft = changed;
}

abbrev pub is_changed : FieldState → Bool
is_changed changed = true
is_changed _ = false

-- sled_profile_has_changes_pending
unfoldable pub has_changes_pending : Profile → Bool
has_changes_pending p =
    is_changed p.ob_o_p
    || is_changed p.ob_o_v
    || is_changed p.ob_o_c
    || is_changed p.ob_o_acc
    || is_changed p.ob_o_dec
    || is_changed p.ob_o_tab
    || is_changed p.ob_o_fn
    || is_changed p.ob_o_ft

-- sled_profile_set_field_state, by the numbers of the dictionary objects in interface.h.
unfoldable pub set_field_state : ℕ → FieldState → Profile → Profile
set_field_state index s p =
    if index == 0x35BE
    then record p { ob_o_p = s }
    else if index == 0x35BF
    then record p { ob_o_v = s }
    else if index == 0x35B9
    then record p { ob_o_c = s }
    else if index == 0x35B7
    then record p { ob_o_acc = s }
    else if index == 0x35BA
    then record p { ob_o_dec = s }
    else if index == 0x35B8
    then record p { ob_o_tab = s }
    else if index == 0x35BC
    then record p { ob_o_fn = s }
    else if index == 0x35BD
    then record p { ob_o_ft = s }
    else p

-- What sled_profile_clear does to the profile with number `i`. `never_sent` stays as it is.
unfoldable pub clear_profile : Fpu → ℕ → Bool → Profile → Profile
unfolding mark_as_unsaved
clear_profile fpu i in_use p = mark_as_unsaved (record p {
  profile = 201 + i;
  in_use = in_use;
  table = pos 2;
  position_type = absolute;
  position = fpu.literal 0;
  time = fpu.literal 1;
  next_profile = negsuc 0;
  delay = fpu.literal 0;
  blend_type = no_blend;
})

-- sled_profiles_reset
unfoldable pub profiles_reset : List Profile → List Profile
unfolding mark_as_unsaved
profiles_reset = map λ p. if p.in_use then mark_as_unsaved p else p

-- The loop of sled_profile_create, which looks for a slot from `i` on.
unfoldable pub create_from : Fpu → ℕ → List Profile → Option (ℕ × List Profile)
unfolding clear_profile
create_from fpu i [] = none
create_from fpu i (p ∷ ps) =
    let rest = create_from fpu (suc i) ps in
    if p.in_use
    then elim rest [ none ↦ none | some (j, qs) ↦ some (j, p ∷ qs) ]
    else some (i, record (clear_profile fpu i true p) { in_use = true; never_sent = true } ∷ ps)

-- sled_profile_create
unfoldable pub create : Fpu → List Profile → Option (ℕ × List Profile)
unfolding create_from
create fpu ps = create_from fpu 0 ps

-- sled_profile_create_pt
unfoldable pub create_pt : Fpu → Double → Double → List Profile → Option (ℕ × List Profile)
unfolding create
create_pt fpu position time ps = elim (create fpu ps) [
  | none ↦ none
  | some (i, qs) ↦ elim (get_elem? qs i) [
    | none ↦ none
    | some p ↦ some (i, set qs i (record p { position = position; time = time }))
  ]
]

-- The tests `profile < 0 || profile >= MAX_PROFILES` and `!in_use` that each setter makes.
unfoldable pub used_slot : List Profile → ℤ → Option (ℕ × Profile)
used_slot ps (negsuc n) = none
used_slot ps (pos n) =
    if ltb n max_profiles
    then elim (get_elem? ps n) [ none ↦ none | some p ↦ if p.in_use then some (n, p) else none ]
    else none

-- A setter changes the profile of a used slot, and fails on any other handle.
unfoldable pub modify : (Profile → Profile) → ℤ → List Profile → Option (List Profile)
unfolding used_slot
modify f handle ps = elim (used_slot ps handle) [
  | none ↦ none
  | some (n, p) ↦ some (set ps n (f p))
]

-- sled_profile_destroy
unfoldable pub destroy : ℤ → List Profile → Option (List Profile)
unfolding modify
destroy = modify λ p. record p { in_use = false }

unfoldable pub write_table : ℤ → Profile → Profile
write_table table p =
    if not (eq_ℤ p.table table) then record p { table = table; ob_o_tab = changed } else p

-- sled_profile_set_table
unfoldable pub set_table : ℤ → ℤ → List Profile → Option (List Profile)
unfolding modify write_table
set_table handle table = modify (write_table table) handle

unfoldable pub write_target : Fpu → PositionType → Double → Double → Profile → Profile
write_target fpu type position time p =
    let p1 =
      if not (position_type_number p.position_type == position_type_number type)
      then record p { ob_o_c = changed; position_type = type }
      else p in
    let p2 =
      if fpu.ne p1.position position
      then record p1 { ob_o_p = changed; position = position }
      else p1 in
    if fpu.ne p2.time time
    then record p2 { ob_o_acc = changed; ob_o_dec = changed; time = time }
    else p2

-- sled_profile_set_target
unfoldable pub set_target :
    Fpu → ℤ → PositionType → Double → Double → List Profile → Option (List Profile)
unfolding modify write_target
set_target fpu handle type position time = modify (write_target fpu type position time) handle

unfoldable pub write_next : Fpu → ℤ → Double → BlendType → Profile → Profile
write_next fpu next_profile delay blend_type p =
    let p1 =
      if not (eq_ℤ p.next_profile next_profile)
      then record p { ob_o_c = changed; ob_o_fn = changed; next_profile = next_profile }
      else p in
    let p2 =
      if fpu.ne p1.delay delay
      then record p1 { ob_o_c = changed; ob_o_ft = changed; delay = delay }
      else p1 in
    if not (blend_type_number p2.blend_type == blend_type_number blend_type)
    then record p2 { ob_o_c = changed; blend_type = blend_type }
    else p2

-- sled_profile_set_next
unfoldable pub set_next : Fpu → ℤ → ℤ → Double → BlendType → List Profile → Option (List Profile)
unfolding modify write_next
set_next fpu handle next_profile delay blend_type =
    modify (write_next fpu next_profile delay blend_type) handle
