-- ===== src/Upload.antt =====
-- libsled/sled_profile.cc: how the pending changes of a profile are uploaded to the drive.
-- An `Upload` is the part of sled_t that this uses.
pub mod Marks
pub mod Visits
pub mod Usage
pub mod Termination
use sled_server.Common.{
  ℕ, zero, suc, ◌+◌, ◌-◌, ◌*◌, ◌%◌, Bool, true, false, not, ◌&&◌, ◌==◌, if◌then◌else◌, Option, none,
  some, List, [], ◌∷◌, get_elem?, set, bit_and, bit_or,
}
use sled_server.Common.Int.{ℤ, pos, negsuc, Fpu}
use sled_server.Common.Outcome.{Outcome, running, overflow, fault, ◌>>=◌}
use sled_server.Sdo.{Channel, queue_write_with_cb, queue_write, profile_written, profile_invalid}
use sled_server.Profile.{
  Profile, FieldState, writing, is_changed, has_changes_pending, get_controlword, set_field_state,
}

pub record Upload : Type 0 where
  pub profiles : List Profile
  pub current_profile : ℕ
  pub channel : Channel

-- The field of a profile that WRITE_FIELD_IF_CHANGED names with a dictionary object.
unfoldable pub field_state : ℕ → Profile → FieldState
field_state index p =
    if index == 0x35BE
    then p.ob_o_p
    else if index == 0x35BF
    then p.ob_o_v
    else if index == 0x35B9
    then p.ob_o_c
    else if index == 0x35B7
    then p.ob_o_acc
    else if index == 0x35BA
    then p.ob_o_dec
    else if index == 0x35B8
    then p.ob_o_tab
    else if index == 0x35BC
    then p.ob_o_fn
    else p.ob_o_ft

-- An `int` as the uint32_t that a request carries.
abbrev pub as_uint32 : ℤ → ℕ
as_uint32 (pos n) = n % 4294967296
as_uint32 (negsuc n) = 4294967295 - n % 4294967296

unfoldable pub queue_step : (Channel → Outcome Channel) → Upload → Outcome Upload
queue_step f u = f u.channel >>= λ c. running (record u { channel = c })

-- The request for a value, if it could be computed.
unfoldable pub queue_value : ℕ → ℕ → Option ℕ → Upload → Outcome Upload
unfolding queue_step queue_write_with_cb
queue_value id index none u = overflow
queue_value id index (some value) u =
    queue_step (queue_write_with_cb index 0x01 value 0x04 (profile_written id) (profile_invalid id))
      u

-- WRITE_FIELD_IF_CHANGED for profile `id`. The value is computed where the field has changed only, and
-- is none where its computation overflows.
unfoldable pub write_field : ℕ → ℕ → Option ℕ → Upload → Outcome Upload
unfolding field_state queue_value set_field_state
write_field id index value u = elim (get_elem? u.profiles id) [
  | none ↦ fault
  | some p ↦
      if is_changed (field_state index p)
      then queue_value id index value
          (record u { profiles = set u.profiles id (set_field_state index writing p) })
      else running u
]

-- COPY_MOTION_TASK
unfoldable pub copy_motion_task : ℕ → ℕ → Upload → Outcome Upload
unfolding queue_step queue_write
copy_motion_task from to =
    queue_step
      (queue_write 0x2082 0x00 (bit_or (bit_and from 0xFFFF) (bit_and to 0xFFFF * 65536)) 0x04)

unfoldable pub write_fields : ℕ → List (ℕ × Option ℕ) → Upload → Outcome Upload
unfolding write_field
write_fields id [] u = running u
write_fields id ((index, value) ∷ rest) u = write_field id index value u >>= write_fields id rest

abbrev half_time : Fpu → Profile → Option ℕ
half_time fpu p =
    fpu.to_int32 (fpu.add (fpu.div (fpu.mul p.time (fpu.literal 1000)) (fpu.literal 2)) fpu.half)

-- `n - 1` for the pattern of an int32_t, which overflows at the least one.
abbrev pub less_one : Option ℕ → Option ℕ
less_one none = none
less_one (some n) = if n == 2147483648 then none else some ((n + 4294967295) % 4294967296)

-- The first six fields, and the two that follow the look-up of the next profile.
abbrev pub own_fields : Fpu → Profile → List (ℕ × Option ℕ)
own_fields fpu p =
    (0x35BE, fpu.to_int32 (fpu.mul (fpu.mul p.position (fpu.literal 1000)) (fpu.literal 1000)))
    ∷ (0x35BF, some 0x00)
    ∷ (0x35B9, some (get_controlword p))
    ∷ (0x35B7, half_time fpu p)
    ∷ (0x35BA, less_one (half_time fpu p))
    ∷ (0x35B8, some (as_uint32 p.table))
    ∷ []

abbrev pub next_fields : Fpu → Profile → ℕ → List (ℕ × Option ℕ)
next_fields fpu p next_profile =
    (0x35BC, some next_profile) ∷ (0x35BD, fpu.to_int32 (fpu.mul p.delay (fpu.literal 1000))) ∷ []

-- The number of the next profile in the drive; a read past the table is undefined behaviour.
unfoldable pub next_number : List Profile → ℤ → Outcome ℕ
next_number ps (negsuc n) = running 0
next_number ps (pos n) = elim (get_elem? ps n) [ none ↦ fault | some q ↦ running q.profile ]

-- Load the profile in slot 0 of the drive.
unfoldable pub load : Profile → Upload → Outcome Upload
unfolding copy_motion_task
load p u =
    if not p.never_sent && not (u.current_profile == p.profile)
    then (copy_motion_task p.profile 0 u >>= λ v.
        running (record v { current_profile = p.profile }))
    else running u

unfoldable pub mark_sent : ℕ → Upload → Upload
mark_sent id u = elim (get_elem? u.profiles id) [
  | none ↦ u
  | some p ↦ record u { profiles = set u.profiles id (record p { never_sent = false }) }
]

-- The writes for one profile with pending changes.
unfoldable pub write_profile : Fpu → ℕ → Profile → Upload → Outcome Upload
unfolding load write_fields next_number copy_motion_task mark_sent
write_profile fpu id p u = load p u >>= write_fields id (own_fields fpu p) >>= λ v.
    next_number v.profiles p.next_profile >>= λ next_profile.
    write_fields id (next_fields fpu p next_profile) v >>= copy_motion_task 0 p.profile >>= λ w.
    running (mark_sent id w)

-- sled_profile_write_pending_changes, which calls itself for the next profile. One more round than
-- there are profiles with pending changes is enough (Upload.Termination).
unfoldable pub write_pending : ℕ → Fpu → ℕ → Upload → Outcome Upload
unfolding write_profile
write_pending zero fpu id u = fault
write_pending (suc n) fpu id u = elim (get_elem? u.profiles id) [
  | none ↦ fault
  | some p ↦ elim (has_changes_pending p) [
    | false ↦ running u
    | true ↦ write_profile fpu id p u >>= λ v. elim p.next_profile [
      | negsuc m ↦ running v
      | pos m ↦ write_pending n fpu m v
    ]
  ]
]
