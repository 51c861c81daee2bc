-- ===== src/Api/Usage.antt =====
-- The functions of libsled (libsled/sled.cc, libsled/sled_profile.cc) and the marks of the slots in
-- use.
use sled_server.Common.{
  ℕ, ◌≡◌, ◌∙◌, Bool, true, if◌then◌else◌, Option, none, some, List, get_elem?, set, Bool-cases,
  Option-cases, inl, inr, arith,
}
use sled_server.Common.Int.{ℤ, pos, negsuc, Double, Fpu}
use sled_server.Common.Outcome.{Outcome, running, ◌>>=◌, OnReturn, OnReturn-then}
use sled_server.Profile.{
  Profile, BlendType, set_target, set_next, used_slot, absolute, blend_after, set_field_state,
  written,
}
use sled_server.Profile.Usage.{
  HasUse, KeepsUse, set_target-KeepsUse, set_next-KeepsUse, profiles_reset-HasUse, field-HasUse,
}
use sled_server.Upload.Usage.{Uses, write_pending-Uses}
use sled_server.Upload.{write_pending}
use sled_server.Mp.{MpEvent, on_channel}
use sled_server.Mp
use sled_server.Ds.{Drive, on_motion}
use sled_server.Sdo.{queue_write}
use sled_server.Net.{on_drive, on_sdo}
use sled_server.Sled.{Sled, on_network}
use sled_server.Sled.Loop.{Input, step}
use sled_server.Sled.Tables.{on_drive-Has, net-Has, dispatch_sdo-Has}
use sled_server.Sled.Tables.Loop.{step-Has}
use sled_server.Api.{
  Device, profiles_of, with_profiles, upload_of, upload_rounds, write_changes, on_sled, queue_word,
  start_task, is_idle, execute, attempt, far_end, half_period, sinusoid_start, sinusoid_stop,
  rsinusoid_profiles, rsinusoid_start, rsinusoid_stop, light_set_state,
}

module _ (b : ℕ → Bool) where
  wrote :
      (ps : List Profile) (n index : ℕ) (p : Profile)
      → get_elem? ps n ≡ some p
      → HasUse b ps
      → HasUse b (set ps n (set_field_state index written p))
  wrote ps n index p e h = field-HasUse b ps n index written p e h

  abbrev pub UsesSlots : Device → Type 0
  UsesSlots d = HasUse b (profiles_of d)

  abbrev pub UsesFirst : Device × Bool → Type 0
  UsesFirst r = UsesSlots r.0

  abbrev SledUses : Sled → Type 0
  SledUses s = HasUse b s.network.profiles

  pub write_changes-Uses :
      (fpu : Fpu) (z : ℤ) (d : Device) → UsesSlots d → OnReturn UsesSlots (write_changes fpu z d)
  unfolding write_changes
  write_changes-Uses fpu (negsuc n) d h = tt
  write_changes-Uses fpu (pos n) d h =
      OnReturn-then (Uses b) UsesSlots (write_pending upload_rounds fpu n (upload_of d)) _
        (write_pending-Uses b upload_rounds fpu n (upload_of d) h) λ u k. k

  on_sled-Uses :
      (f : Sled → Outcome Sled) (d : Device)
      → OnReturn SledUses (f d.sled)
      → OnReturn UsesSlots (on_sled f d)
  on_sled-Uses f d h = OnReturn-then SledUses UsesSlots (f d.sled) _ h λ s k. k

  on_drive-Uses :
      (f : Drive → Outcome Drive) (s : Sled)
      → SledUses s
      → OnReturn SledUses (on_network (on_drive f) s)
  unfolding on_network
  on_drive-Uses f s h =
      OnReturn-then (λ n. HasUse b n.profiles) SledUses (on_drive f s.network) _
        (on_drive-Has (HasUse b) (profiles_reset-HasUse b) wrote f s.network h) λ n k. k

  attempted_at :
      (d : Device) (o : Option (List Profile))
      → KeepsUse (profiles_of d) o
      → UsesSlots d
      → UsesSlots (elim o [ none ↦ d | some ps ↦ with_profiles ps d ])
  attempted_at d none k h = h
  attempted_at d (some ps) k h = λ m. k m ∙ h m

  -- The setters that the interface calls, whether they take their arguments or not.
  aimed :
      (fpu : Fpu) (z : ℤ) (position time : Double) (d : Device)
      → UsesSlots d
      → UsesSlots (attempt (set_target fpu z absolute position time) d)
  aimed fpu z position time d h =
      attempted_at d (set_target fpu z absolute position time (profiles_of d))
        (set_target-KeepsUse fpu z absolute position time (profiles_of d)) h

  pub linked :
      (fpu : Fpu) (z next_profile : ℤ) (delay : Double) (blend : BlendType) (d : Device)
      → UsesSlots d
      → UsesSlots (attempt (set_next fpu z next_profile delay blend) d)
  linked fpu z next_profile delay blend d h =
      attempted_at d (set_next fpu z next_profile delay blend (profiles_of d))
        (set_next-KeepsUse fpu z next_profile delay blend (profiles_of d)) h

  start_task-Uses : (number : ℕ) (s : Sled) → SledUses s → OnReturn SledUses (start_task number s)
  unfolding start_task queue_word on_sdo
  start_task-Uses number s h =
      OnReturn-then SledUses SledUses (queue_word 0x2080 number s >>= queue_word 0x6040 0x3F) _
        (OnReturn-then SledUses SledUses (queue_word 0x2080 number s) (queue_word 0x6040 0x3F)
          (word 0x2080 number s h) (word 0x6040 0x3F))
        (on_drive-Uses (on_motion (Mp.handle_event MpEvent.setpoint_set)))
    where
      word :
          (index value : ℕ) (t : Sled) → SledUses t → OnReturn SledUses (queue_word index value t)
      word index value t k =
          on_drive-Uses (on_motion (on_channel (queue_write index 0x00 value 0x02))) t k

  pub execute-Uses :
      (fpu : Fpu) (z : ℤ) (d : Device) → UsesSlots d → OnReturn UsesFirst (execute fpu z d)
  unfolding execute
  execute-Uses fpu z d h = elim (Option-cases (used_slot (profiles_of d) z)) [
    | inl e ↦ rw (e, execute) h
    | inr ((n, p), e) ↦ elim (Bool-cases (is_idle d.sled.network.drive.motion.mp)) [
      | inr i ↦ rw (e, i, execute) h
      | inl i ↦
          rw (e, i, execute)
            (OnReturn-then UsesSlots UsesFirst
              (write_changes fpu (pos n) d >>= on_sled (start_task p.profile)) _
              (OnReturn-then UsesSlots UsesSlots (write_changes fpu (pos n) d)
                (on_sled (start_task p.profile)) (write_changes-Uses fpu (pos n) d h)
                λ x k. on_sled-Uses (start_task p.profile) x (start_task-Uses p.profile x.sled k))
              λ x k. k)
    ]
  ]

  pub sinusoid_start-Uses :
      (fpu : Fpu) (amplitude period : Double) (d : Device)
      → UsesSlots d
      → OnReturn UsesFirst (sinusoid_start fpu amplitude period d)
  unfolding sinusoid_start
  sinusoid_start-Uses fpu amplitude period d h =
      let half = half_period fpu period in
      execute-Uses fpu d.sinusoid_there _ (
        linked fpu d.sinusoid_back d.sinusoid_there (fpu.literal 0) blend_after _ (
          linked fpu d.sinusoid_there d.sinusoid_back (fpu.literal 0) blend_after _ (
            aimed fpu d.sinusoid_back d.sled.last_position half _
              (aimed fpu d.sinusoid_there (far_end fpu amplitude d) half d h))))

  pub sinusoid_stop-Uses :
      (fpu : Fpu) (d : Device) → UsesSlots d → OnReturn UsesFirst (sinusoid_stop fpu d)
  unfolding sinusoid_stop
  sinusoid_stop-Uses fpu d h =
      OnReturn-then UsesSlots UsesFirst (write_changes fpu d.sinusoid_there _)
        (λ e. running (e, true))
        (write_changes-Uses fpu d.sinusoid_there _ (
          linked fpu d.sinusoid_back (negsuc 0) (fpu.literal 0) blend_after _
            (linked fpu d.sinusoid_there (negsuc 0) (fpu.literal 0) blend_after d h)))
        λ e k. k

  rsinusoid_profiles-Uses :
      (fpu : Fpu) (amplitude period : Double) (d : Device)
      → UsesSlots d
      → UsesSlots (rsinusoid_profiles fpu amplitude period d)
  unfolding rsinusoid_profiles
  rsinusoid_profiles-Uses fpu amplitude period d h =
      let far = far_end fpu amplitude d in
      let here = d.sled.last_position in
      let half = half_period fpu period in
      let zero_delay = fpu.literal 0 in
      linked fpu d.sinusoid_back d.sinusoid_there zero_delay blend_after _ (
        linked fpu d.sinusoid_there d.sinusoid_back zero_delay blend_after _ (
          linked fpu d.sinusoid_rthere d.sinusoid_back zero_delay blend_after _ (
            aimed fpu d.sinusoid_rback here half _ (
              aimed fpu d.sinusoid_back here half _ (
                aimed fpu d.sinusoid_there far half _
                  (aimed fpu d.sinusoid_rthere far half d h))))))

  pub rsinusoid_start-Uses :
      (fpu : Fpu) (amplitude period : Double) (d : Device)
      → UsesSlots d
      → OnReturn UsesFirst (rsinusoid_start fpu amplitude period d)
  unfolding rsinusoid_start
  rsinusoid_start-Uses fpu amplitude period d h =
      let m1 = write_changes fpu d.sinusoid_rthere (rsinusoid_profiles fpu amplitude period d) in
      let m2 = m1 >>= write_changes fpu d.sinusoid_there in
      let m3 = m2 >>= write_changes fpu d.sinusoid_back in
      OnReturn-then UsesSlots UsesFirst (m3 >>= write_changes fpu d.sinusoid_rback) _
        (OnReturn-then UsesSlots UsesSlots m3 (write_changes fpu d.sinusoid_rback)
          (OnReturn-then UsesSlots UsesSlots m2 (write_changes fpu d.sinusoid_back)
            (OnReturn-then UsesSlots UsesSlots m1 (write_changes fpu d.sinusoid_there)
              (write_changes-Uses fpu d.sinusoid_rthere _
                (rsinusoid_profiles-Uses fpu amplitude period d h))
              (write_changes-Uses fpu d.sinusoid_there))
            (write_changes-Uses fpu d.sinusoid_back))
          (write_changes-Uses fpu d.sinusoid_rback))
        (execute-Uses fpu d.sinusoid_rthere)

  pub rsinusoid_stop-Uses :
      (fpu : Fpu) (d : Device) → UsesSlots d → OnReturn UsesFirst (rsinusoid_stop fpu d)
  unfolding rsinusoid_stop
  rsinusoid_stop-Uses fpu d h =
      OnReturn-then UsesSlots UsesFirst (write_changes fpu d.sinusoid_there _)
        (λ e. running (e, true))
        (write_changes-Uses fpu d.sinusoid_there _
          (linked fpu d.sinusoid_there d.sinusoid_rback (fpu.literal 0) blend_after d h))
        λ e k. k

  pub light_set_state-Uses :
      (on : Bool) (d : Device) → UsesSlots d → OnReturn UsesFirst (light_set_state on d)
  unfolding light_set_state on_sdo
  light_set_state-Uses on d h =
      let g = on_motion (on_channel (queue_write 0x35AE 0x01 (if on then 0x01 else 0x00) 0x04)) in
      let f = on_network (on_drive g) in
      let lit =
        OnReturn-then UsesSlots UsesFirst (on_sled f d) (λ e. running (e, true))
          (on_sled-Uses f d (on_drive-Uses g d.sled h)) (λ e k. k) in
      ground (arith, h, lit)

  -- An event of the event loop.
  pub step-Uses :
      (fpu : Fpu) (now : Double) (i : Input) (d : Device)
      → UsesSlots d
      → OnReturn UsesSlots (on_sled (step fpu now i) d)
  step-Uses fpu now i d h = on_sled-Uses (step fpu now i) d (
      step-Has (λ n. HasUse b n.profiles) (net-Has (HasUse b) (profiles_reset-HasUse b) wrote)
        (on_drive-Has (HasUse b) (profiles_reset-HasUse b) wrote)
        (dispatch_sdo-Has (HasUse b) (profiles_reset-HasUse b) wrote) fpu now i d.sled h)
