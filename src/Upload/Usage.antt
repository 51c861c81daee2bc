-- ===== src/Upload/Usage.antt =====
-- An upload of changes (libsled/sled_profile.cc) and the marks of the slots in use.
use sled_server.Common.{
  ℕ, zero, suc, Option, none, some, ◌*◌, bit_and, bit_or, refl, ◌∙◌, Bool, List, [], ◌∷◌, get_elem?,
  set, Bool-cases, Option-cases, inl, inr, arith,
}
use sled_server.Common.Int.{ℤ, pos, negsuc, Fpu}
use sled_server.Common.Outcome.{Outcome, running, ◌>>=◌, OnReturn, OnReturn-bind, OnReturn-then}
use sled_server.Sdo.{Channel, queue_write, queue_write_with_cb, profile_written, profile_invalid}
use sled_server.Profile.{Profile, is_changed, set_field_state, has_changes_pending, writing}
use sled_server.Profile.Usage.{HasUse, used_at-set, field-HasUse}
use sled_server.Upload.{
  Upload, field_state, queue_step, queue_value, write_field, write_fields, own_fields, next_fields,
  next_number, copy_motion_task, load, mark_sent, write_profile, write_pending,
}

module _ (b : ℕ → Bool) where
  abbrev pub Uses : Upload → Type 0
  Uses u = HasUse b u.profiles

  queue_step-Uses :
      (f : Channel → Outcome Channel) (u : Upload) → Uses u → OnReturn Uses (queue_step f u)
  unfolding queue_step
  queue_step-Uses f u h = OnReturn-bind Uses (f u.channel) _ λ c. h

  queue_value-Uses :
      (id index : ℕ) (value : Option ℕ) (u : Upload)
      → Uses u
      → OnReturn Uses (queue_value id index value u)
  unfolding queue_value
  queue_value-Uses id index none u h = tt
  queue_value-Uses id index (some value) u h =
      queue_step-Uses
        (queue_write_with_cb index 0x01 value 0x04 (profile_written id) (profile_invalid id)) u h

  write_field-Uses :
      (id index : ℕ) (value : Option ℕ) (u : Upload)
      → Uses u
      → OnReturn Uses (write_field id index value u)
  unfolding write_field
  write_field-Uses id index value u h = elim (Option-cases (get_elem? u.profiles id)) [
    | inl e ↦ rw (e, write_field) tt
    | inr (p, e) ↦ elim (Bool-cases (is_changed (field_state index p))) [
      | inr n ↦ rw (e, n, write_field) h
      | inl y ↦
          rw (e, y, write_field)
            (queue_value-Uses id index value
              (record u { profiles = set u.profiles id (set_field_state index writing p) })
              (field-HasUse b u.profiles id index writing p e h))
    ]
  ]

  write_fields-Uses :
      (id : ℕ) (fields : List (ℕ × Option ℕ)) (u : Upload)
      → Uses u
      → OnReturn Uses (write_fields id fields u)
  unfolding write_fields
  write_fields-Uses id [] u h = h
  write_fields-Uses id ((index, value) ∷ fields) u h =
      OnReturn-then Uses Uses (write_field id index value u) _ (write_field-Uses id index value u h)
        (write_fields-Uses id fields)

  copy-Uses : (from to : ℕ) (u : Upload) → Uses u → OnReturn Uses (copy_motion_task from to u)
  unfolding copy_motion_task
  copy-Uses from to u h =
      queue_step-Uses
        (queue_write 0x2082 0x00 (bit_or (bit_and from 0xFFFF) (bit_and to 0xFFFF * 65536)) 0x04) u
        h

  load-Uses : (p : Profile) (u : Upload) → Uses u → OnReturn Uses (load p u)
  unfolding load
  load-Uses p u h =
      let copied =
        OnReturn-then Uses Uses (copy_motion_task p.profile 0 u)
          (λ v. running (record v { current_profile = p.profile })) (copy-Uses p.profile 0 u h)
          (λ v k. k) in
      ground (arith, h, copied)

  mark_sent-Uses : (id : ℕ) (u : Upload) → Uses u → Uses (mark_sent id u)
  unfolding mark_sent
  mark_sent-Uses id u h = elim (Option-cases (get_elem? u.profiles id)) [
    | inl e ↦ rw (e, mark_sent) h
    | inr (p, e) ↦ rw (e, mark_sent) λ m. used_at-set m id u.profiles p _ e refl ∙ h m
  ]

  write_profile-Uses :
      (fpu : Fpu) (id : ℕ) (p : Profile) (u : Upload)
      → Uses u
      → OnReturn Uses (write_profile fpu id p u)
  unfolding write_profile
  write_profile-Uses fpu id p u h =
      OnReturn-then Uses Uses (load p u >>= write_fields id (own_fields fpu p)) _
        (OnReturn-then Uses Uses (load p u) _ (load-Uses p u h)
          (write_fields-Uses id (own_fields fpu p)))
        λ v k. OnReturn-bind Uses (next_number v.profiles p.next_profile) _ λ next_profile.
          OnReturn-then Uses Uses
            (write_fields id (next_fields fpu p next_profile) v >>= copy_motion_task 0 p.profile) _
            (OnReturn-then Uses Uses (write_fields id (next_fields fpu p next_profile) v) _
              (write_fields-Uses id (next_fields fpu p next_profile) v k) (copy-Uses 0 p.profile))
            (mark_sent-Uses id)

  next-Uses :
      (z : ℤ) (f : ℕ → Upload → Outcome Upload) (v : Upload)
      → Uses v
      → ((m : ℕ) → OnReturn Uses (f m v))
      → OnReturn Uses (elim z [ negsuc m ↦ running v | pos m ↦ f m v ])
  next-Uses (negsuc m) f v h k = h
  next-Uses (pos m) f v h k = k m

  pub write_pending-Uses :
      (n : ℕ) (fpu : Fpu) (id : ℕ) (u : Upload) → Uses u → OnReturn Uses (write_pending n fpu id u)
  unfolding write_pending
  write_pending-Uses zero fpu id u h = tt
  write_pending-Uses (suc n) fpu id u h = elim (Option-cases (get_elem? u.profiles id)) [
    | inl e ↦ rw (e, write_pending) tt
    | inr (p, e) ↦ elim (Bool-cases (has_changes_pending p)) [
      | inr c ↦ rw (e, c, write_pending) h
      | inl c ↦
          rw (e, c, write_pending)
            (OnReturn-then Uses Uses (write_profile fpu id p u) _ (write_profile-Uses fpu id p u h)
              λ v k.
                next-Uses p.next_profile (write_pending n fpu) v k
                  (λ m. write_pending-Uses n fpu m v k))
    ]
  ]
