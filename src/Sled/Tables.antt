-- ===== src/Sled/Tables.antt =====
-- The profile table while libsled handles its events: the network machine marks every profile for
-- upload when it becomes operational, and the answers to an upload mark what has been written.
pub mod Loop
use sled_server.Common.{
  ℕ, zero, suc, ◌+◌, ◌*◌, ◌≡◌, refl, Bool, true, false, not, ◌&&◌, ◌||◌, ◌==◌, if◌then◌else◌,
  Option, none, some, List, [], ◌∷◌, get_elem?, set, Bool-cases, Option-cases, inl, inr,
}
use sled_server.Common.Int.{Double, Fpu, is_nonneg}
use sled_server.Common.Outcome.{
  Outcome, running, fault, ◌>>=◌, OnReturn, OnReturn-bind, OnReturn-then,
}
use sled_server.Machine
use sled_server.Can.{nmt_enterpreoperational, nmt_startremotenode}
use sled_server.Sdo
use sled_server.Sdo.{
  intf_send_nmt_command, Channel, SdoItem, SdoEvent, WriteCallback, no_write_callback,
  net_upload_complete, profile_written, call_abort,
}
use sled_server.Profile.{Profile, profiles_reset, set_field_state, written}
use sled_server.Mp.{on_channel}
use sled_server.Ds
use sled_server.Ds.{Drive, DsEvent, on_motion}
use sled_server.Net.{
  Network, NetState, NetEvent, on_drive, on_sdo, enter_operational, leave_operational, sdos_enabled,
  sdos_disabled, send_nmt, queue_setup,
}
use sled_server.Net
use sled_server.Response.{
  byte_at, Answer, field_written, call_write, finish, assert, read_callback, write_callback,
  abort_callback, call_if, dispatch_answer, dispatch_sdo, answer_kind, write_answer, read_answer,
  abort_answer, other_answer,
}
use sled_server.Sled.{
  Sled, Driver, CanResult, IntfState, IntfEvent, on_network, intf_open, intf_close, handle_rounds,
  handle_event, on_nmt, on_tpdo, nmt_watchdog, dispatch_msg,
}
use sled_server.Sled
use sled_server.Sled.Loop.{Reading, Input, readable, watchdog, read_ok, read_result, on_read, step}

-- A property of tables that both kinds of writes keep.
module _ (R : List Profile → Type 0) (reset : (ps : List Profile) → R ps → R (profiles_reset ps))
    (wrote : (ps : List Profile) (n index : ℕ) (p : Profile)
      → get_elem? ps n ≡ some p
      → R ps
      → R (set ps n (set_field_state index written p))) where
  abbrev Has : Network → Type 0
  Has n = R n.profiles

  pub on_drive-Has : (f : Drive → Outcome Drive) (n : Network) → Has n → OnReturn Has (on_drive f n)
  unfolding on_drive
  on_drive-Has f n h = OnReturn-bind Has (f n.drive) _ λ d. h

  on_sdo-Has : (f : Channel → Outcome Channel) (n : Network) → Has n → OnReturn Has (on_sdo f n)
  unfolding on_sdo
  on_sdo-Has f n h = on_drive-Has (on_motion (on_channel f)) n h

  enabled-Has : (n : Network) → Has n → OnReturn Has (sdos_enabled n)
  unfolding sdos_enabled
  enabled-Has n h = on_sdo-Has (Sdo.handle_event SdoEvent.net_sdo_enabled) n h

  disabled-Has : (n : Network) → Has n → OnReturn Has (sdos_disabled n)
  unfolding sdos_disabled
  disabled-Has n h = on_sdo-Has (Sdo.handle_event SdoEvent.net_sdo_disabled) n h

  send_nmt-Has : (command : ℕ) (n : Network) → Has n → OnReturn Has (send_nmt command n)
  unfolding send_nmt
  send_nmt-Has command n h = on_sdo-Has (λ c. running (intf_send_nmt_command command c)) n h

  enter_operational-Has : (n : Network) → Has n → OnReturn Has (enter_operational n)
  unfolding enter_operational
  enter_operational-Has n h =
      on_drive-Has (Ds.handle_event DsEvent.net_operational)
        (record n { profiles = profiles_reset n.profiles }) (reset n.profiles h)

  on_enter-Has : (s : NetState) (n : Network) → Has n → OnReturn Has (Net.on_enter s n)
  unfolding Net.on_enter
  on_enter-Has NetState.disabled n h = disabled-Has n h
  on_enter-Has NetState.unknown n h =
      OnReturn-then Has Has (sdos_disabled n) (send_nmt nmt_enterpreoperational) (disabled-Has n h)
        (send_nmt-Has nmt_enterpreoperational)
  on_enter-Has NetState.stopped n h =
      OnReturn-then Has Has (sdos_disabled n) (send_nmt nmt_startremotenode) (disabled-Has n h)
        (send_nmt-Has nmt_startremotenode)
  on_enter-Has NetState.startremotenode n h = send_nmt-Has nmt_startremotenode n h
  on_enter-Has NetState.enterpreoperational n h = send_nmt-Has nmt_enterpreoperational n h
  on_enter-Has NetState.uploadconfig n h = on_sdo-Has queue_setup n h
  on_enter-Has NetState.operational n h =
      OnReturn-then Has Has (sdos_enabled n) enter_operational (enabled-Has n h)
        enter_operational-Has
  on_enter-Has NetState.preoperational n h =
      OnReturn-then Has Has (sdos_enabled n) (on_sdo queue_setup) (enabled-Has n h)
        (on_sdo-Has queue_setup)

  on_exit-Has : (s : NetState) (n : Network) → Has n → OnReturn Has (Net.on_exit s n)
  unfolding Net.on_exit leave_operational
  on_exit-Has NetState.operational n h =
      on_drive-Has (Ds.handle_event DsEvent.net_inoperational) n h
  on_exit-Has _ n h = h

  pub net-Has : (e : NetEvent) (n : Network) → Has n → OnReturn Has (Net.handle_event e n)
  unfolding Net.handle_event
  net-Has e n h =
      let s = Net.next_state_given_event n.net e in
      elim (Bool-cases (Net.net_number n.net == Net.net_number s)) [
        | inl q ↦ rw (q, Machine.handle_event) h
        | inr q ↦
            rw (q, Machine.handle_event)
              (OnReturn-then Has Has (Net.on_exit n.net n) _ (on_exit-Has n.net n h)
                λ m g. on_enter-Has s (record m { net = s }) g)
      ]

  field_written-Has : (id index : ℕ) (n : Network) → Has n → Has (field_written id index n)
  unfolding field_written
  field_written-Has id index n h = elim (Option-cases (get_elem? n.profiles id)) [
    | inl e ↦ rw (field_written, e) h
    | inr (p, e) ↦ rw (field_written, e) (wrote n.profiles id index p e h)
  ]

  call_write-Has :
      (c : WriteCallback) (index : ℕ) (n : Network) → Has n → OnReturn Has (call_write c index n)
  unfolding call_write
  call_write-Has no_write_callback index n h = h
  call_write-Has net_upload_complete index n h = net-Has _ n h
  call_write-Has (profile_written id) index n h = field_written-Has id index n h

  assert-Has : (b : Bool) (n : Network) → Has n → OnReturn Has (assert b n)
  unfolding assert
  assert-Has true n h = h
  assert-Has false n h = tt

  finish-Has : (e : SdoEvent) (n : Network) → Has n → OnReturn Has (finish e n)
  unfolding finish
  finish-Has e n h = on_sdo-Has (Sdo.finish_active e) n h

  asserted :
      (b : Bool) (n : Network) (f : Network → Outcome Network)
      → Has n
      → ((m : Network) → Has m → OnReturn Has (f m))
      → OnReturn Has (assert b n >>= f)
  asserted b n f h k = OnReturn-then Has Has (assert b n) f (assert-Has b n h) k

  read_callback-Has :
      (index subindex : ℕ) (o : Option SdoItem) (n : Network)
      → Has n
      → OnReturn Has (read_callback index subindex o n)
  unfolding read_callback
  read_callback-Has index subindex none n h = tt
  read_callback-Has index subindex (some sdo) n h = asserted _ n _ h (finish-Has _)

  write_callback-Has :
      (index subindex : ℕ) (o : Option SdoItem) (n : Network)
      → Has n
      → OnReturn Has (write_callback index subindex o n)
  unfolding write_callback
  write_callback-Has index subindex none n h = tt
  write_callback-Has index subindex (some sdo) n h =
      OnReturn-then Has Has _ _ (asserted _ n _ h (call_write-Has sdo.write_callback index))
        (finish-Has _)

  abort_callback-Has :
      (index subindex : ℕ) (o : Option SdoItem) (n : Network)
      → Has n
      → OnReturn Has (abort_callback index subindex o n)
  unfolding abort_callback
  abort_callback-Has index subindex none n h = tt
  abort_callback-Has index subindex (some sdo) n h =
      OnReturn-then Has Has _ _ (asserted _ n _ h (on_sdo-Has (call_abort sdo.abort_callback)))
        (finish-Has _)

  called :
      (b : Bool) (f : Network → Outcome Network) (n : Network)
      → Has n
      → OnReturn Has (f n)
      → OnReturn Has (call_if b f n)
  unfolding call_if
  called true f n h k = k
  called false f n h k = h

  answered :
      (a : Answer) (index subindex : ℕ) (n : Network)
      → Has n
      → OnReturn Has (dispatch_answer a index subindex n)
  unfolding dispatch_answer
  answered write_answer index subindex n h =
      let c = n.drive.motion.channel in
      called c.on_write (write_callback index subindex c.sdo_active) n h
        (write_callback-Has index subindex c.sdo_active n h)
  answered read_answer index subindex n h =
      let c = n.drive.motion.channel in
      called c.on_read (read_callback index subindex c.sdo_active) n h
        (read_callback-Has index subindex c.sdo_active n h)
  answered abort_answer index subindex n h =
      let c = n.drive.motion.channel in
      called c.on_abort (abort_callback index subindex c.sdo_active) n h
        (abort_callback-Has index subindex c.sdo_active n h)
  answered other_answer index subindex n h = h

  pub dispatch_sdo-Has :
      (bytes : List ℕ) (n : Network) → Has n → OnReturn Has (dispatch_sdo bytes n)
  unfolding dispatch_sdo
  dispatch_sdo-Has bytes n h =
      answered (answer_kind (byte_at bytes 0)) (byte_at bytes 1 + byte_at bytes 2 * 256)
        (byte_at bytes 3) n h
