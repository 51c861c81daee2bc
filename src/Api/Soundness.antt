-- ===== src/Api/Soundness.antt =====
-- What the functions of libsled's interface (libsled/sled.cc, libsled/sled_profile.cc) keep of the
-- invariant of libsled and of the profile table.
use sled_server.Common.{
  ℕ, ◌≡◌, refl, sym, ap, ◌∙◌, Bool, true, List, length, length-set, arith, Option-cases, Bool-cases,
  inl, inr,
}
use sled_server.Common.Int.{ℤ, pos, negsuc, Double, Fpu}
use sled_server.Common.Outcome.{
  Outcome, running, exited, overflow, fault, ◌>>=◌, Ensures, Allows, Allows-bind, Allows-of_Ensures,
  Returns, Ensures-bind, Ensures-mono, Returns-mono, Ensures-of_Returns, Settles-Allows,
}
use sled_server.Sdo.{queue_write, plain_write}
use sled_server.Mp.{MpState, MpEvent, Motion}
use sled_server.Mp
use sled_server.Mp.Outputs.{SdoMode, sdo_mode, handle_event-messages}
use sled_server.Sdo.Fifo.{transcript}
use sled_server.Ds.{Drive, on_motion}
use sled_server.Ds.Outputs.{is_active, is_enabled, on_motion-Returns}
use sled_server.Net.{on_drive, on_sdo}
use sled_server.Net.Channels.{HasMode, enqueue-HasMode}
use sled_server.Net.Coupling.{is_up, Below, is_operational, is_live, allows, on_sdo-Ensures}
use sled_server.Net.Coupling
use sled_server.Response.Soundness.{Kept-IsSound, is_attached}
use sled_server.Profile.{
  Profile, PositionType, BlendType, max_profiles, used_slot, modify, set_table, set_target,
  set_next, write_table, write_target, write_next,
}
use sled_server.Profile.Slots.{used_slot_good, modify_cases}
use sled_server.Upload.{Upload, write_pending}
use sled_server.Upload.Visits.{in_table}
use sled_server.Upload.Termination.{
  all_linked, Settled, write_pending-Settles, all_fit, pending_count_bound, all_linked-set,
  all_linked-get_elem?,
}
use sled_server.Sled.{Sled, on_network}
use sled_server.Sled.Soundness.{IsSound, on_network-IsSound, drive_step-IsSound}
use sled_server.Api.Table.{is_slot}
use sled_server.Api.{
  Device, profiles_of, with_profiles, upload_of, with_upload, upload_rounds, on_sled, write_changes,
  queue_word, start_task, execute, attempt, is_idle,
}

-- The four profiles that sled_create registers are slots of the table.
abbrev pub HasHandles : Device → Type 0
HasHandles d =
    (is_slot d.sinusoid_there ≡ true)
    × ((is_slot d.sinusoid_rthere ≡ true)
        × ((is_slot d.sinusoid_back ≡ true) × (is_slot d.sinusoid_rback ≡ true)))

-- libsled is in order, and so is its profile table: it has its fixed size, and every profile's next
-- one is in it.
pub record IsReady (d : Device) : Type 0 where
  pub sound : IsSound d.sled
  pub full : length (profiles_of d) ≡ max_profiles
  pub linked : all_linked max_profiles (profiles_of d) ≡ true
  pub handles : HasHandles d

abbrev mode_of : Device → SdoMode
mode_of d = sdo_mode d.sled.network.drive.motion.channel.state

with_upload-IsSound :
    (u : Upload) (d : Device)
    → IsSound d.sled
    → HasMode (mode_of d) u.channel
    → IsSound (with_upload u d).sled
with_upload-IsSound u d v (w, m) = record {
  attached = v.attached;
  settled = v.settled;
  network_sound = record {
    below = (v.network_sound.below.0, (v.network_sound.below.1.0, (w, refl)));
    allowed = rw m v.network_sound.allowed;
  };
}

pub write_changes-IsReady :
    (fpu : Fpu) (z : ℤ) (d : Device)
    → is_slot z ≡ true
    → IsReady d
    → Allows IsReady (write_changes fpu z d)
unfolding write_changes
write_changes-IsReady fpu (negsuc n) d s v = cc
write_changes-IsReady fpu (pos n) d s v =
    let u = upload_of d in
    let few = pending_count_bound u.profiles in
    let w = v.sound.network_sound.below.1.1.0 in
    let o = write_pending upload_rounds fpu n u in
    let S = Settled (mode_of d) n u in
    Allows-bind S IsReady o _
      (Settles-Allows (all_fit fpu u.profiles ≡ true) S o (
        write_pending-Settles upload_rounds fpu n u (omega (arith, few, v.full))
          (ground (arith, s, v.full)) (ap (λ k. all_linked k u.profiles) v.full ∙ v.linked)
          (w, refl)))
      λ x h. record {
        sound = with_upload-IsSound x d v.sound h.channel_kept;
        full = h.size_kept ∙ v.full;
        linked = ap (λ k. all_linked k x.profiles) (sym v.full) ∙ h.links_kept;
        handles = v.handles;
      }

pub with_profiles-IsSound :
    (ps : List Profile) (d : Device) → IsSound d.sled → IsSound (with_profiles ps d).sled
with_profiles-IsSound ps d v = record {
  attached = v.attached;
  settled = v.settled;
  network_sound = record { below = v.network_sound.below; allowed = v.network_sound.allowed };
}

attempt-IsReady :
    (f : Profile → Profile) (z : ℤ) (d : Device)
    → ((p : Profile)
        → in_table max_profiles p.next_profile ≡ true
        → in_table max_profiles (f p).next_profile ≡ true)
    → IsReady d
    → IsReady (attempt (modify f z) d)
attempt-IsReady f z d k v = elim (modify_cases f (profiles_of d) z) [
  | inl e ↦ rw (e, attempt) v
  | inr (n, p, e, g) ↦
      rw (e, attempt)
        (record {
          sound = with_profiles-IsSound _ d v.sound;
          full = length-set (profiles_of d) n (f p) ∙ v.full;
          linked =
              all_linked-set max_profiles (profiles_of d) n (f p) v.linked
                (k p (all_linked-get_elem? max_profiles (profiles_of d) n p v.linked g));
          handles = v.handles;
        })
]

-- The setters keep the links in the table.
pub set_table-IsReady :
    (z table : ℤ) (d : Device) → IsReady d → IsReady (attempt (set_table z table) d)
unfolding set_table write_table
set_table-IsReady z table d v = attempt-IsReady (write_table table) z d (λ p h. ground (arith, h)) v

pub set_target-IsReady :
    (fpu : Fpu) (z : ℤ) (type : PositionType) (position time : Double) (d : Device)
    → IsReady d
    → IsReady (attempt (set_target fpu z type position time) d)
unfolding set_target write_target
set_target-IsReady fpu z type position time d v =
    attempt-IsReady (write_target fpu type position time) z d (λ p h. ground (arith, h)) v

pub set_next-IsReady :
    (fpu : Fpu) (z next_profile : ℤ) (delay : Double) (blend : BlendType) (d : Device)
    → in_table max_profiles next_profile ≡ true
    → IsReady d
    → IsReady (attempt (set_next fpu z next_profile delay blend) d)
unfolding set_next write_next
set_next-IsReady fpu z next_profile delay blend d t v =
    attempt-IsReady (write_next fpu next_profile delay blend) z d (λ p h. ground (arith, h, t)) v

-- A request from outside.
queue-IsSound :
    (index subindex value size : ℕ) (s : Sled)
    → IsSound s
    → Ensures IsSound (on_network (on_sdo (queue_write index subindex value size)) s)
unfolding queue_write
queue-IsSound index subindex value size s v =
    let n = s.network in
    let k = sdo_mode n.drive.motion.channel.state in
    let f = queue_write index subindex value size in
    let b = v.network_sound.below in
    on_network-IsSound (on_sdo f) s v (
      Ensures-mono {P = Coupling.Kept (is_operational n.net) k n} (on_sdo f n)
        (on_sdo-Ensures k f n b (
          Ensures-of_Returns (HasMode k) (f n.drive.motion.channel)
            (enqueue-HasMode (plain_write index subindex value size) n.drive.motion.channel b.1.1)))
        λ m h. (ap is_attached h.0, Kept-IsSound k n m h v.network_sound.allowed))

setpoint_active :
    (s : MpState) → is_active (Mp.next_state_given_event s MpEvent.setpoint_set) ≡ is_active s
unfolding Mp.next_state_given_event
setpoint_active s = ground arith

setpoint-Returns :
    (up : Bool) (k : SdoMode) (d : Drive)
    → Below up k d
    → Returns (Below up k) (on_motion (Mp.handle_event MpEvent.setpoint_set) d)
setpoint-Returns up k d b =
    let f = Mp.handle_event MpEvent.setpoint_set in
    Returns-mono
      {P = λ n.
        (n.ds ≡ d.ds)
        × ((is_active n.motion.mp ≡ is_active d.motion.mp) × HasMode k n.motion.channel)}
      (on_motion f d)
      (on_motion-Returns (λ m. (is_active m.mp ≡ is_active d.motion.mp) × HasMode k m.channel) f d
        (Returns-mono (f d.motion)
          (handle_event-messages MpEvent.setpoint_set d.motion (transcript d.motion.channel)
            (b.1.1, refl))
          λ m h. (ap is_active h.0 ∙ setpoint_active d.motion.mp, h.1.0)))
      λ n h. (ap is_up h.0 ∙ b.0, (h.1.0 ∙ b.1.0 ∙ ap is_enabled (sym h.0), h.1.1))

-- A step below the network machine leaves the profile table.
profiles_left :
    (P : Sled → Type 0) (s : Sled) (o : Outcome Drive)
    → Ensures P (
        o >>= (λ d. running (record (s.network) { drive = d })) >>= λ n.
        running (record s { network = n }))
    → Ensures
        (λ t. P t × (t.network.profiles ≡ s.network.profiles))
        (o >>= (λ d. running (record (s.network) { drive = d })) >>= λ n.
          running (record s { network = n }))
profiles_left P s (running d) h = (h, refl)
profiles_left P s exited h = tt
profiles_left P s overflow h = h
profiles_left P s fault h = h

-- Sound, with these profiles.
abbrev pub IsSoundWith : List Profile → Sled → Type 0
IsSoundWith ps s = IsSound s × (s.network.profiles ≡ ps)

drive-IsSoundWith :
    (f : Drive → Outcome Drive) (ps : List Profile) (s : Sled)
    → s.network.profiles ≡ ps
    → Ensures IsSound (on_network (on_drive f) s)
    → Ensures (IsSoundWith ps) (on_network (on_drive f) s)
unfolding on_network on_drive
drive-IsSoundWith f ps s e h =
    Ensures-mono {P = λ t. IsSound t × (t.network.profiles ≡ s.network.profiles)}
      (on_network (on_drive f) s) (profiles_left IsSound s (f s.network.drive) h)
      λ t g. (g.0, g.1 ∙ e)

pub queue-IsSoundWith :
    (index subindex value size : ℕ) (ps : List Profile) (s : Sled)
    → IsSoundWith ps s
    → Ensures (IsSoundWith ps) (on_network (on_sdo (queue_write index subindex value size)) s)
unfolding on_sdo
queue-IsSoundWith index subindex value size ps s (v, e) =
    drive-IsSoundWith _ ps s e (queue-IsSound index subindex value size s v)

start_task-IsSoundWith :
    (number : ℕ) (ps : List Profile) (s : Sled)
    → IsSoundWith ps s
    → Ensures (IsSoundWith ps) (start_task number s)
unfolding start_task queue_word
start_task-IsSoundWith number ps s v =
    let q : ℕ → ℕ → Sled → Outcome Sled =
      λ index value. on_network (on_sdo (queue_write index 0x00 value 0x02)) in
    Ensures-bind (IsSoundWith ps) (IsSoundWith ps) (q 0x2080 number s >>= q 0x6040 0x3F) _
      (Ensures-bind (IsSoundWith ps) (IsSoundWith ps) (q 0x2080 number s) (q 0x6040 0x3F)
        (queue-IsSoundWith 0x2080 0x00 number 0x02 ps s v)
        λ t w. queue-IsSoundWith 0x6040 0x00 0x3F 0x02 ps t w)
      λ t w. drive-IsSoundWith (on_motion (Mp.handle_event MpEvent.setpoint_set)) ps t w.1 (
        drive_step-IsSound (on_motion (Mp.handle_event MpEvent.setpoint_set)) t setpoint-Returns
          w.0)

pub on_sled-IsReady :
    (f : Sled → Outcome Sled) (d : Device)
    → IsReady d
    → Ensures (IsSoundWith (profiles_of d)) (f d.sled)
    → Ensures IsReady (on_sled f d)
on_sled-IsReady f d v h = Ensures-bind (IsSoundWith (profiles_of d)) IsReady (f d.sled) _ h λ s g.
    record {
      sound = g.0;
      full = ap length g.1 ∙ v.full;
      linked = ap (all_linked max_profiles) g.1 ∙ v.linked;
      handles = v.handles;
    }

-- What a function of the interface leaves.
abbrev pub IsReadyFirst : Device × Bool → Type 0
IsReadyFirst r = IsReady r.0

pub execute-IsReady :
    (fpu : Fpu) (z : ℤ) (d : Device) → IsReady d → Allows IsReadyFirst (execute fpu z d)
unfolding execute
execute-IsReady fpu z d v = elim (Option-cases (used_slot (profiles_of d) z)) [
  | inl e ↦ rw (e, execute) v
  | inr ((n, p), e) ↦
      let (a, b, c, u) = used_slot_good (profiles_of d) z n p e in
      elim (Bool-cases (is_idle d.sled.network.drive.motion.mp)) [
        | inr busy ↦ rw (e, execute, busy) v
        | inl idle ↦
            rw (e, execute, idle)
              (Allows-bind IsReady IsReadyFirst
                (write_changes fpu (pos n) d >>= on_sled (start_task p.profile)) _
                (Allows-bind IsReady IsReady (write_changes fpu (pos n) d)
                  (on_sled (start_task p.profile))
                  (write_changes-IsReady fpu (pos n) d (ground (arith, b)) v)
                  λ x w. Allows-of_Ensures IsReady (on_sled (start_task p.profile) x) (
                    on_sled-IsReady (start_task p.profile) x w
                      (start_task-IsSoundWith p.profile (profiles_of x) x.sled (w.sound, refl))))
                λ x w. w)
      ]
]
