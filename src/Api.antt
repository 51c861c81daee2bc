-- ===== src/Api.antt =====
-- The functions that libsled offers to a program (libsled/sled.cc, libsled/sled_profile.cc). A
-- `Device` is the whole of sled_t; a handle of a profile is an `int`, and the flag beside a device is
-- true where the function returns 0.
pub mod Table
pub mod Events
pub mod Usage
pub mod Soundness
pub mod Motions
pub mod Creation
pub mod Execution
use sled_server.Common.{
  ℕ, zero, suc, ◌+◌, ◌-◌, ◌*◌, Bool, true, false, not, ◌&&◌, ◌==◌, if◌then◌else◌, Option, none,
  some, List, [], ◌∷◌, get_elem?, set,
}
use sled_server.Common.Int.{ℤ, pos, negsuc, Double, Fpu}
use sled_server.Common.Outcome.{Outcome, running, fault, ◌>>=◌}
use sled_server.Sdo.{SdoState, queue_write}
use sled_server.Mp.{MpState, MpEvent, Motion, on_channel}
use sled_server.Mp
use sled_server.Ds.{Drive, on_motion}
use sled_server.Net.{Network, NetState, on_drive, on_sdo}
use sled_server.Profile.{
  Profile, PositionType, BlendType, absolute, blend_after, used_slot, create, clear_profile,
  set_table, set_target, set_next,
}
use sled_server.Upload.{Upload, write_pending}
use sled_server.Sled.{Sled, on_network, IntfEvent, Driver, handle_event}
use sled_server.Sled.Reach.{assembled}

pub record Device : Type 0 where
  pub sled : Sled
  pub current_profile : ℕ
  pub sinusoid_there : ℤ
  pub sinusoid_rthere : ℤ
  pub sinusoid_back : ℤ
  pub sinusoid_rback : ℤ

abbrev pub profiles_of : Device → List Profile
profiles_of d = d.sled.network.profiles

abbrev pub with_profiles : List Profile → Device → Device
with_profiles ps d = record d {
  sled = record (d.sled) { network = record (d.sled.network) { profiles = ps } };
}

-- The part of sled_t that an upload uses, and the rest with that part put back.
abbrev pub upload_of : Device → Upload
upload_of d = record {
  profiles = d.sled.network.profiles;
  current_profile = d.current_profile;
  channel = d.sled.network.drive.motion.channel;
}

abbrev pub with_upload : Upload → Device → Device
with_upload u d =
    let n = d.sled.network in
    record d {
      sled = record (d.sled) {
        network = record n {
          drive = record (n.drive) { motion = record (n.drive.motion) { channel = u.channel } };
          profiles = u.profiles;
        };
      };
      current_profile = u.current_profile;
    }

abbrev pub on_sled : (Sled → Outcome Sled) → Device → Outcome Device
on_sled f d = f d.sled >>= λ s. running (record d { sled = s })

-- The rounds that the model grants an upload: one more than there are slots.
abbrev pub upload_rounds : ℕ
upload_rounds = 100

-- sled_profile_write_pending_changes on a handle; a negative one is outside the table.
unfoldable pub write_changes : Fpu → ℤ → Device → Outcome Device
unfolding write_pending
write_changes fpu (negsuc n) d = fault
write_changes fpu (pos n) d =
    write_pending upload_rounds fpu n (upload_of d) >>= λ u. running (with_upload u d)

abbrev pub is_idle : MpState → Bool
is_idle MpState.pp_idle = true
is_idle _ = false

unfoldable pub queue_word : ℕ → ℕ → Sled → Outcome Sled
unfolding on_network on_sdo queue_write
queue_word index value = on_network (on_sdo (queue_write index 0x00 value 0x02))

-- The requests of sled_profile_execute: the motion task, and the control word with the new
-- set-point bit.
unfoldable pub start_task : ℕ → Sled → Outcome Sled
unfolding queue_word on_network on_drive on_motion Mp.handle_event
start_task number s =
    queue_word 0x2080 number s
    >>= queue_word 0x6040 0x3F
    >>= on_network (on_drive (on_motion (Mp.handle_event MpEvent.setpoint_set)))

-- sled_profile_execute. An upload changes no task's number, so it is read first.
unfoldable pub execute : Fpu → ℤ → Device → Outcome (Device × Bool)
unfolding used_slot write_changes start_task
execute fpu handle d = elim (used_slot (profiles_of d) handle) [
  | none ↦ running (d, false)
  | some (n, p) ↦
      if is_idle d.sled.network.drive.motion.mp
      then (write_changes fpu (pos n) d >>= on_sled (start_task p.profile) >>= λ e.
          running (e, true))
      else running (d, false)
]

-- A setter whose result the caller drops.
abbrev pub attempt : (List Profile → Option (List Profile)) → Device → Device
attempt f d = elim (f (profiles_of d)) [ none ↦ d | some ps ↦ with_profiles ps d ]

-- The position that is twice the amplitude away.
abbrev far_end : Fpu → Double → Device → Double
far_end fpu amplitude d = fpu.add d.sled.last_position (fpu.mul amplitude (fpu.literal 2))

abbrev half_period : Fpu → Double → Double
half_period fpu period = fpu.div period (fpu.literal 2)

-- sled_sinusoid_start
unfoldable pub sinusoid_start : Fpu → Double → Double → Device → Outcome (Device × Bool)
unfolding set_target set_next execute
sinusoid_start fpu amplitude period d =
    let far = far_end fpu amplitude d in
    let here = d.sled.last_position in
    let half = half_period fpu period in
    let d1 = attempt (set_target fpu d.sinusoid_there absolute far half) d in
    let d2 = attempt (set_target fpu d.sinusoid_back absolute here half) d1 in
    let d3 =
      attempt (set_next fpu d.sinusoid_there d.sinusoid_back (fpu.literal 0) blend_after) d2 in
    let d4 =
      attempt (set_next fpu d.sinusoid_back d.sinusoid_there (fpu.literal 0) blend_after) d3 in
    execute fpu d.sinusoid_there d4

-- sled_sinusoid_stop
unfoldable pub sinusoid_stop : Fpu → Device → Outcome (Device × Bool)
unfolding set_next write_changes
sinusoid_stop fpu d =
    let none_next = negsuc 0 in
    let d1 = attempt (set_next fpu d.sinusoid_there none_next (fpu.literal 0) blend_after) d in
    let d2 = attempt (set_next fpu d.sinusoid_back none_next (fpu.literal 0) blend_after) d1 in
    write_changes fpu d.sinusoid_there d2 >>= λ e. running (e, true)

-- The setters of sled_rsinusoid_start.
unfoldable pub rsinusoid_profiles : Fpu → Double → Double → Device → Device
unfolding set_target set_next
rsinusoid_profiles fpu amplitude period d =
    let far = far_end fpu amplitude d in
    let here = d.sled.last_position in
    let half = half_period fpu period in
    let zero_delay = fpu.literal 0 in
    let d1 = attempt (set_target fpu d.sinusoid_rthere absolute far half) d in
    let d2 = attempt (set_target fpu d.sinusoid_there absolute far half) d1 in
    let d3 = attempt (set_target fpu d.sinusoid_back absolute here half) d2 in
    let d4 = attempt (set_target fpu d.sinusoid_rback absolute here half) d3 in
    let d5 = attempt (set_next fpu d.sinusoid_rthere d.sinusoid_back zero_delay blend_after) d4 in
    let d6 = attempt (set_next fpu d.sinusoid_there d.sinusoid_back zero_delay blend_after) d5 in
    attempt (set_next fpu d.sinusoid_back d.sinusoid_there zero_delay blend_after) d6

-- sled_rsinusoid_start
unfoldable pub rsinusoid_start : Fpu → Double → Double → Device → Outcome (Device × Bool)
unfolding rsinusoid_profiles write_changes execute
rsinusoid_start fpu amplitude period d =
    write_changes fpu d.sinusoid_rthere (rsinusoid_profiles fpu amplitude period d)
    >>= write_changes fpu d.sinusoid_there
    >>= write_changes fpu d.sinusoid_back
    >>= write_changes fpu d.sinusoid_rback
    >>= execute fpu d.sinusoid_rthere

-- sled_rsinusoid_stop
unfoldable pub rsinusoid_stop : Fpu → Device → Outcome (Device × Bool)
unfolding set_next write_changes
rsinusoid_stop fpu d =
    write_changes fpu d.sinusoid_there
      (attempt (set_next fpu d.sinusoid_there d.sinusoid_rback (fpu.literal 0) blend_after) d)
    >>= λ e. running (e, true)

abbrev pub is_disabled : SdoState → Bool
is_disabled SdoState.disabled = true
is_disabled _ = false

-- sled_light_set_state
unfoldable pub light_set_state : Bool → Device → Outcome (Device × Bool)
unfolding on_network on_sdo queue_write
light_set_state state d =
    if is_disabled d.sled.network.drive.motion.channel.state
    then running (d, false)
    else (on_sled
          (on_network (on_sdo (queue_write 0x35AE 0x01 (if state then 0x01 else 0x00) 0x04))) d
        >>= λ e. running (e, true))

abbrev pub is_operational : NetState → Bool
is_operational NetState.operational = true
is_operational _ = false

-- sled_rt_get_position
unfoldable pub rt_get_position : Device → Option Double
rt_get_position d = if is_operational d.sled.network.net then some d.sled.last_position else none

-- sled_rt_get_position_and_time: the position and the time that it writes, and whether it returns 0.
unfoldable pub rt_get_position_and_time : Double → Double → Device → Double × (Double × Bool)
rt_get_position_and_time now nan d =
    if is_operational d.sled.network.net
    then (d.sled.last_position, (d.sled.last_time, true))
    else (nan, (now, false))

-- The loop of sled_create over the profiles.
unfoldable pub clear_all : Fpu → ℕ → List Profile → List Profile
clear_all fpu i [] = []
clear_all fpu i (p ∷ ps) = clear_profile fpu i false p ∷ clear_all fpu (suc i) ps

-- The handle that sled_profile_create returns, and the table.
abbrev pub handle_of : Option (ℕ × List Profile) → List Profile → ℤ × List Profile
handle_of none ps = (negsuc 0, ps)
handle_of (some (i, qs)) ps = (pos i, qs)

abbrev pub create_handle : Fpu → List Profile → ℤ × List Profile
create_handle fpu ps = handle_of (create fpu ps) ps

-- A setter whose result sled_create drops.
abbrev pub kept : (List Profile → Option (List Profile)) → List Profile → List Profile
kept f ps = elim (f ps) [ none ↦ ps | some qs ↦ qs ]

pub record Registered : Type 0 where
  pub there : ℤ
  pub rthere : ℤ
  pub back : ℤ
  pub rback : ℤ
  pub table : List Profile

-- The profiles that sled_create registers, in what the memory holds.
unfoldable pub registered : Fpu → List Profile → Registered
unfolding clear_all
registered fpu memory =
    let a = create_handle fpu (clear_all fpu 0 memory) in
    let b = create_handle fpu a.1 in
    let c = create_handle fpu b.1 in
    let d = create_handle fpu c.1 in
    let t = kept (set_table d.0 (pos 3)) (
      kept (set_table c.0 (pos 0))
        (kept (set_table b.0 (pos 1)) (kept (set_table a.0 (pos 0)) d.1))) in
    record {
      there = a.0;
      rthere = b.0;
      back = c.0;
      rback = d.0;
      table = kept (set_next fpu c.0 a.0 (fpu.literal 0) blend_after) (
          kept (set_next fpu b.0 c.0 (fpu.literal 0) blend_after)
            (kept (set_next fpu a.0 c.0 (fpu.literal 0) blend_after) t));
    }

-- sled_create, in the memory that malloc returns; `time` is the time of a message too long ago.
unfoldable pub sled_create : Driver → Fpu → Double → Device → Outcome Device
unfolding registered
sled_create driver fpu time memory =
    let r = registered fpu (profiles_of memory) in
    handle_event driver IntfEvent.open_it (assembled memory.sled time r.table) >>= λ s.
    running (record memory {
      sled = s;
      sinusoid_there = r.there;
      sinusoid_rthere = r.rthere;
      sinusoid_back = r.back;
      sinusoid_rback = r.rback;
    })
