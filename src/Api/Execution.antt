-- ===== src/Api/Execution.antt =====
-- What sled_profile_execute (libsled/sled_profile.cc) asks of the drive.
use mathlib.Core.List.{append_assoc, append-nil}
use sled_server.Common.{
  ℕ, ◌≡◌, refl, sym, ap, ◌∙◌, Bool, true, false, some, List, [], ◌∷◌, ◌++◌, get_elem?,
}
use sled_server.Common.Int.{ℤ, pos, Fpu}
use sled_server.Common.Outcome.{
  Outcome, running, exited, overflow, fault, ◌>>=◌, Returns, Returns-bind, Returns-mono,
}
use sled_server.Can.{CanMessage, write_req_message}
use sled_server.Sdo.{queue_write, plain_write}
use sled_server.Mp.{Motion, MpState, MpEvent, on_channel}
use sled_server.Mp
use sled_server.Mp.Outputs.{
  SdoMode, HasSent, After, messages, control_message, enqueue-HasSent, on_channel-Returns,
  handle_event-messages,
}
use sled_server.Ds.{on_motion}
use sled_server.Net.{on_drive, on_sdo}
use sled_server.Profile.{Profile, used_slot, has_changes_pending}
use sled_server.Profile.Slots.{used_slot_good}
use sled_server.Upload.{write_pending}
use sled_server.Sled.{Sled, on_network}
use sled_server.Api.{
  Device, profiles_of, on_sled, write_changes, queue_word, start_task, execute, is_idle,
}

abbrev motion_of : Sled → Motion
motion_of s = s.network.drive.motion

lifted :
    (P : Motion → Type 0) (f : Motion → Outcome Motion) (s : Sled)
    → Returns P (f (motion_of s))
    → Returns (λ t. P (motion_of t)) (on_network (on_drive (on_motion f)) s)
unfolding on_network on_drive on_motion
lifted P f s h = put_back (f (motion_of s)) h
  where
    put_back :
        (o : Outcome Motion)
        → Returns P o
        → Returns
            (λ t. P (motion_of t))
            (o
              >>= (λ m. running (record (s.network.drive) { motion = m }))
              >>= (λ d. running (record (s.network) { drive = d }))
              >>= λ n. running (record s { network = n }))
    put_back (running m) h = h
    put_back exited h = h
    put_back overflow h = h
    put_back fault h = h

-- The motion profile machine is in a state, and the messages were given to the SDO machine.
abbrev pub IsAt : MpState → SdoMode → List CanMessage → Sled → Type 0
IsAt state k msgs s = ((motion_of s).mp ≡ state) × HasSent k msgs (motion_of s).channel

queue_word-IsAt :
    (state : MpState) (k : SdoMode) (msgs : List CanMessage) (index value : ℕ) (s : Sled)
    → IsAt state k msgs s
    → Returns
        (IsAt state k (msgs ++ write_req_message index 0x00 value 0x02 ∷ []))
        (queue_word index value s)
unfolding queue_word on_sdo queue_write
queue_word-IsAt state k msgs index value s (e, h) =
    let more = msgs ++ write_req_message index 0x00 value 0x02 ∷ [] in
    lifted (λ m. (m.mp ≡ state) × HasSent k more m.channel)
      (on_channel (queue_write index 0x00 value 0x02)) s
      (Returns-mono {P = λ m. (m.mp ≡ (motion_of s).mp) × HasSent k more m.channel}
        (on_channel (queue_write index 0x00 value 0x02) (motion_of s))
        (on_channel-Returns (HasSent k more) (queue_write index 0x00 value 0x02) (motion_of s)
          (enqueue-HasSent (plain_write index 0x00 value 0x02) msgs (motion_of s).channel h))
        λ m v. (v.0 ∙ e, v.1))

setpoint-IsAt :
    (k : SdoMode) (msgs : List CanMessage) (s : Sled)
    → IsAt MpState.pp_idle k msgs s
    → Returns
        (IsAt MpState.pp_sp_nack k msgs)
        (on_network (on_drive (on_motion (Mp.handle_event MpEvent.setpoint_set))) s)
unfolding Mp.next_state_given_event
setpoint-IsAt k msgs s (e, h) =
    lifted (λ m. (m.mp ≡ MpState.pp_sp_nack) × HasSent k msgs m.channel)
      (Mp.handle_event MpEvent.setpoint_set) s
      (Returns-mono {P = After k MpEvent.setpoint_set msgs (motion_of s)}
        (Mp.handle_event MpEvent.setpoint_set (motion_of s))
        (handle_event-messages MpEvent.setpoint_set (motion_of s) msgs h)
        (λ n v. after (motion_of s).mp n e v))
  where
    after :
        (state : MpState) (n : Motion)
        → state ≡ MpState.pp_idle
        → (n.mp ≡ Mp.next_state_given_event state MpEvent.setpoint_set)
          × HasSent k (msgs ++ messages state MpEvent.setpoint_set) n.channel
        → (n.mp ≡ MpState.pp_sp_nack) × HasSent k msgs n.channel
    after state n e v = (
      v.0 ∙ ap (λ z. Mp.next_state_given_event z MpEvent.setpoint_set) e,
      (v.1.0, v.1.1 ∙ ap (λ z. msgs ++ messages z MpEvent.setpoint_set) e ∙ append-nil msgs),
    )

-- The two requests of sled_profile_execute.
abbrev pub task_messages : Profile → List CanMessage
task_messages p = write_req_message 0x2080 0x00 p.profile 0x02 ∷ control_message 0x3F ∷ []

start_task-IsAt :
    (k : SdoMode) (msgs : List CanMessage) (p : Profile) (s : Sled)
    → IsAt MpState.pp_idle k msgs s
    → Returns (IsAt MpState.pp_sp_nack k (msgs ++ task_messages p)) (start_task p.profile s)
unfolding start_task
start_task-IsAt k msgs p s h =
    let one = msgs ++ write_req_message 0x2080 0x00 p.profile 0x02 ∷ [] in
    let two = one ++ control_message 0x3F ∷ [] in
    let whole : two ≡ msgs ++ task_messages p =
      append_assoc msgs (write_req_message 0x2080 0x00 p.profile 0x02 ∷ [])
        (control_message 0x3F ∷ []) in
    rw (sym whole) (
      Returns-bind (IsAt MpState.pp_idle k two) (IsAt MpState.pp_sp_nack k two)
        (queue_word 0x2080 p.profile s >>= queue_word 0x6040 0x3F) _
        (Returns-bind (IsAt MpState.pp_idle k one) (IsAt MpState.pp_idle k two)
          (queue_word 0x2080 p.profile s) (queue_word 0x6040 0x3F)
          (queue_word-IsAt MpState.pp_idle k msgs 0x2080 p.profile s h)
          (queue_word-IsAt MpState.pp_idle k one 0x6040 0x3F))
        (setpoint-IsAt k two))

write_changes_nothing :
    (fpu : Fpu) (n : ℕ) (p : Profile) (d : Device)
    → get_elem? (profiles_of d) n ≡ some p
    → has_changes_pending p ≡ false
    → write_changes fpu (pos n) d ≡ running d
unfolding write_changes write_pending
write_changes_nothing fpu n p d g c = rw (write_pending, g, c) refl

abbrev pub IsExecuted : SdoMode → List CanMessage → Device × Bool → Type 0
IsExecuted k msgs r = (r.1 ≡ true) × IsAt MpState.pp_sp_nack k msgs (r.0).sled

-- Executing a profile in use that has no changes to send, while the motion profile machine is idle,
-- succeeds: the number of the profile's task and then the control word with the new set-point bit
-- join the messages that a valid SDO machine was given before, and nothing else does; the machine
-- is then in PP_SP_NACK, where it waits for the drive to acknowledge the set-point.
pub execute-IsExecuted :
    (fpu : Fpu) (z : ℤ) (d : Device) (n : ℕ) (p : Profile) (k : SdoMode) (msgs : List CanMessage)
    → used_slot (profiles_of d) z ≡ some (n, p)
    → has_changes_pending p ≡ false
    → IsAt MpState.pp_idle k msgs d.sled
    → Returns (IsExecuted k (msgs ++ task_messages p)) (execute fpu z d)
unfolding execute
execute-IsExecuted fpu z d n p k msgs u c h =
    let (a, b, g, w) = used_slot_good (profiles_of d) z n p u in
    let idle : is_idle d.sled.network.drive.motion.mp ≡ true = ap is_idle h.0 in
    let all = msgs ++ task_messages p in
    rw (u, execute, idle, write_changes_nothing fpu n p d g c)
      (Returns-bind (λ e. IsAt MpState.pp_sp_nack k all e.sled) (IsExecuted k all)
        (on_sled (start_task p.profile) d) _
        (Returns-bind (IsAt MpState.pp_sp_nack k all) (λ e. IsAt MpState.pp_sp_nack k all e.sled)
          (start_task p.profile d.sled) _ (start_task-IsAt k msgs p d.sled h) λ s v. v)
        λ e v. (refl, v))
