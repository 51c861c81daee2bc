-- ===== src/Api/Motions.antt =====
-- The sinusoids and the lights of libsled/sled.cc.
use sled_server.Common.{◌≡◌, refl, Bool, true, if◌then◌else◌, Bool-cases, inl, inr}
use sled_server.Common.Int.{ℤ, negsuc, Double, Fpu}
use sled_server.Common.Outcome.{running, ◌>>=◌, Ensures, Ensures-bind, Allows, Allows-bind}
use sled_server.Profile.{absolute, blend_after}
use sled_server.Sdo.{queue_write}
use sled_server.Net.{on_sdo}
use sled_server.Sled.{on_network}
use sled_server.Api.{
  Device, profiles_of, on_sled, write_changes, execute, far_end, half_period, sinusoid_start,
  sinusoid_stop, rsinusoid_profiles, rsinusoid_start, rsinusoid_stop, light_set_state, is_disabled,
}
use sled_server.Api.Table.{is_slot, in_table-is_slot}
use sled_server.Api.Soundness.{
  IsReady, IsReadyFirst, write_changes-IsReady, set_target-IsReady, set_next-IsReady,
  execute-IsReady, on_sled-IsReady, queue-IsSoundWith,
}

-- Any end of a function: write the changes of one profile and answer 0.
write-IsReadyFirst :
    (fpu : Fpu) (z : ℤ) (d : Device)
    → is_slot z ≡ true
    → IsReady d
    → Allows IsReadyFirst (write_changes fpu z d >>= λ e. running (e, true))
write-IsReadyFirst fpu z d s v =
    Allows-bind IsReady IsReadyFirst (write_changes fpu z d) _ (write_changes-IsReady fpu z d s v)
      λ e w. w

pub sinusoid_start-IsReady :
    (fpu : Fpu) (amplitude period : Double) (d : Device)
    → IsReady d
    → Allows IsReadyFirst (sinusoid_start fpu amplitude period d)
unfolding sinusoid_start
sinusoid_start-IsReady fpu amplitude period d v = execute-IsReady fpu d.sinusoid_there _ (
    set_next-IsReady fpu d.sinusoid_back d.sinusoid_there (fpu.literal 0) blend_after _
      (in_table-is_slot d.sinusoid_there v.handles.0)
      (set_next-IsReady fpu d.sinusoid_there d.sinusoid_back (fpu.literal 0) blend_after _
        (in_table-is_slot d.sinusoid_back v.handles.1.1.0)
        (set_target-IsReady fpu d.sinusoid_back absolute d.sled.last_position
          (half_period fpu period) _
          (set_target-IsReady fpu d.sinusoid_there absolute (far_end fpu amplitude d)
            (half_period fpu period) d v))))

pub sinusoid_stop-IsReady :
    (fpu : Fpu) (d : Device) → IsReady d → Allows IsReadyFirst (sinusoid_stop fpu d)
unfolding sinusoid_stop
sinusoid_stop-IsReady fpu d v = write-IsReadyFirst fpu d.sinusoid_there _ v.handles.0 (
    set_next-IsReady fpu d.sinusoid_back (negsuc 0) (fpu.literal 0) blend_after _ refl
      (set_next-IsReady fpu d.sinusoid_there (negsuc 0) (fpu.literal 0) blend_after d refl v))

rsinusoid_profiles-IsReady :
    (fpu : Fpu) (amplitude period : Double) (d : Device)
    → IsReady d
    → IsReady (rsinusoid_profiles fpu amplitude period d)
unfolding rsinusoid_profiles
rsinusoid_profiles-IsReady fpu amplitude period d v =
    let far = far_end fpu amplitude d in
    let here = d.sled.last_position in
    let half = half_period fpu period in
    let to_there = in_table-is_slot d.sinusoid_there v.handles.0 in
    let to_back = in_table-is_slot d.sinusoid_back v.handles.1.1.0 in
    set_next-IsReady fpu d.sinusoid_back d.sinusoid_there (fpu.literal 0) blend_after _ to_there (
      set_next-IsReady fpu d.sinusoid_there d.sinusoid_back (fpu.literal 0) blend_after _ to_back (
        set_next-IsReady fpu d.sinusoid_rthere d.sinusoid_back (fpu.literal 0) blend_after _ to_back
          (set_target-IsReady fpu d.sinusoid_rback absolute here half _ (
            set_target-IsReady fpu d.sinusoid_back absolute here half _ (
              set_target-IsReady fpu d.sinusoid_there absolute far half _
                (set_target-IsReady fpu d.sinusoid_rthere absolute far half d v))))))

pub rsinusoid_start-IsReady :
    (fpu : Fpu) (amplitude period : Double) (d : Device)
    → IsReady d
    → Allows IsReadyFirst (rsinusoid_start fpu amplitude period d)
unfolding rsinusoid_start
rsinusoid_start-IsReady fpu amplitude period d v =
    let e = rsinusoid_profiles fpu amplitude period d in
    let write : (z : ℤ)
        → is_slot z ≡ true
        → (x : Device) → IsReady x
        → Allows IsReady (write_changes fpu z x) =
      λ z s x w. write_changes-IsReady fpu z x s w in
    let m1 = write_changes fpu d.sinusoid_rthere e in
    let m2 = m1 >>= write_changes fpu d.sinusoid_there in
    let m3 = m2 >>= write_changes fpu d.sinusoid_back in
    let m4 = m3 >>= write_changes fpu d.sinusoid_rback in
    let h1 =
      write d.sinusoid_rthere v.handles.1.0 e
        (rsinusoid_profiles-IsReady fpu amplitude period d v) in
    let h2 =
      Allows-bind IsReady IsReady m1 (write_changes fpu d.sinusoid_there) h1
        (write d.sinusoid_there v.handles.0) in
    let h3 =
      Allows-bind IsReady IsReady m2 (write_changes fpu d.sinusoid_back) h2
        (write d.sinusoid_back v.handles.1.1.0) in
    let h4 =
      Allows-bind IsReady IsReady m3 (write_changes fpu d.sinusoid_rback) h3
        (write d.sinusoid_rback v.handles.1.1.1) in
    Allows-bind IsReady IsReadyFirst m4 (execute fpu d.sinusoid_rthere) h4
      (execute-IsReady fpu d.sinusoid_rthere)

pub rsinusoid_stop-IsReady :
    (fpu : Fpu) (d : Device) → IsReady d → Allows IsReadyFirst (rsinusoid_stop fpu d)
unfolding rsinusoid_stop
rsinusoid_stop-IsReady fpu d v = write-IsReadyFirst fpu d.sinusoid_there _ v.handles.0 (
    set_next-IsReady fpu d.sinusoid_there d.sinusoid_rback (fpu.literal 0) blend_after d
      (in_table-is_slot d.sinusoid_rback v.handles.1.1.1) v)

pub light_set_state-IsReady :
    (state : Bool) (d : Device) → IsReady d → Ensures IsReadyFirst (light_set_state state d)
unfolding light_set_state
light_set_state-IsReady state d v =
    let f = on_network (on_sdo (queue_write 0x35AE 0x01 (if state then 0x01 else 0x00) 0x04)) in
    elim (Bool-cases (is_disabled d.sled.network.drive.motion.channel.state)) [
      | inl off ↦ rw off v
      | inr on ↦ rw on (
          Ensures-bind IsReady IsReadyFirst (on_sled f d) _
            (on_sled-IsReady f d v (
              queue-IsSoundWith 0x35AE 0x01 (if state then 0x01 else 0x00) 0x04 (profiles_of d)
                d.sled (v.sound, refl)))
            λ e w. w)
    ]
