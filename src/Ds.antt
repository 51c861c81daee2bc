-- ===== src/Ds.antt =====
-- libsled/machines/mch_ds.cc: the DS402 device state machine. It can reach the SDO machine and,
-- through the callbacks that libsled/sled.cc registers, the motion profile machine.
pub mod Outputs
pub mod Transitions
use sled_server.Common.{ℕ, Bool, true, false, ◌==◌, ◌&&◌, if◌then◌else◌}
use sled_server.Common.Outcome.{Outcome, running, ◌>>=◌}
use sled_server.Machine.{Machine}
use sled_server.Machine
use sled_server.Sdo
use sled_server.Mp.{Motion, MpEvent, not_number, on_channel}
use sled_server.Mp

pub data DsEvent : Type 0 where
  net_operational net_inoperational : DsEvent
  not_ready_to_switch_on ready_to_switch_on switched_on operation_enabled : DsEvent
  fault fault_reaction_active quick_stop_active : DsEvent
  voltage_enabled voltage_disabled : DsEvent

pub data DsState : Type 0 where
  disabled unknown : DsState
  fault clearing_fault : DsState
  ready_to_switch_on switch_on switched_on prepare_switch_on shutdown : DsState
  switch_on_disabled enable_operation disable_operation operation_enabled : DsState

pub record Drive : Type 0 where
  pub ds : DsState
  pub motion : Motion

unfoldable pub on_motion : (Motion → Outcome Motion) → Drive → Outcome Drive
on_motion f d = f d.motion >>= λ m. running (record d { motion = m })

-- The enumerators' numbers.
unfoldable pub ds_number : DsState → ℕ
ds_number DsState.disabled = 0
ds_number DsState.unknown = 1
ds_number DsState.fault = 2
ds_number DsState.clearing_fault = 3
ds_number DsState.ready_to_switch_on = 4
ds_number DsState.switch_on = 5
ds_number DsState.switched_on = 6
ds_number DsState.prepare_switch_on = 7
ds_number DsState.shutdown = 8
ds_number DsState.switch_on_disabled = 9
ds_number DsState.enable_operation = 10
ds_number DsState.disable_operation = 11
ds_number DsState.operation_enabled = 12

-- The `switch` of mch_ds_next_state_given_event.
unfoldable pub switch_state : DsState → DsEvent → DsState
switch_state DsState.disabled DsEvent.net_operational = DsState.unknown
switch_state DsState.fault DsEvent.fault = DsState.clearing_fault
switch_state DsState.clearing_fault DsEvent.not_ready_to_switch_on = DsState.switch_on_disabled
switch_state DsState.clearing_fault DsEvent.ready_to_switch_on = DsState.ready_to_switch_on
switch_state DsState.clearing_fault DsEvent.switched_on = DsState.switched_on
switch_state DsState.unknown DsEvent.not_ready_to_switch_on = DsState.switch_on_disabled
switch_state DsState.unknown DsEvent.ready_to_switch_on = DsState.ready_to_switch_on
switch_state DsState.switch_on_disabled DsEvent.voltage_enabled = DsState.prepare_switch_on
switch_state DsState.prepare_switch_on DsEvent.ready_to_switch_on = DsState.ready_to_switch_on
switch_state DsState.ready_to_switch_on DsEvent.voltage_enabled = DsState.switch_on
switch_state DsState.switch_on DsEvent.switched_on = DsState.switched_on
switch_state DsState.switch_on DsEvent.voltage_disabled = DsState.shutdown
switch_state DsState.shutdown DsEvent.not_ready_to_switch_on = DsState.switch_on_disabled
switch_state DsState.shutdown DsEvent.ready_to_switch_on = DsState.ready_to_switch_on
switch_state DsState.switched_on DsEvent.voltage_enabled = DsState.enable_operation
switch_state DsState.switched_on DsEvent.voltage_disabled = DsState.shutdown
switch_state DsState.disable_operation DsEvent.switched_on = DsState.switched_on
switch_state DsState.enable_operation DsEvent.operation_enabled = DsState.operation_enabled
switch_state DsState.operation_enabled DsEvent.voltage_disabled = DsState.disable_operation
switch_state s _ = s

-- The tests above the `switch`, for a machine that passes the first of them.
unfoldable pub preempt : DsState → DsEvent → DsState
unfolding switch_state
preempt s DsEvent.net_inoperational = DsState.disabled
preempt s DsEvent.fault = DsState.clearing_fault
preempt s DsEvent.fault_reaction_active = DsState.fault
preempt s event = switch_state s event

-- mch_ds_next_state_given_event; `!state == ST_DS_DISABLED` is `(!state) == ST_DS_DISABLED`.
unfoldable pub next_state_given_event : DsState → DsEvent → DsState
unfolding ds_number switch_state preempt
next_state_given_event s event =
    if not_number (ds_number s) == ds_number DsState.disabled
    then preempt s event
    else switch_state s event

-- mch_ds_send_control_word
unfoldable pub send_control_word : ℕ → Drive → Outcome Drive
unfolding on_motion on_channel
send_control_word control_word =
    on_motion (on_channel (Sdo.queue_write Mp.ob_control_word 0x00 control_word 0x02))

-- mch_ds_on_enter, with mch_ds_on_operation_enabled of sled.cc.
unfoldable pub on_enter : DsState → Drive → Outcome Drive
unfolding send_control_word on_motion on_channel
on_enter DsState.unknown d = send_control_word 0x06 d
on_enter DsState.prepare_switch_on d = send_control_word 0x06 d
on_enter DsState.switch_on d = send_control_word 0x07 d
on_enter DsState.shutdown d = send_control_word 0x06 d
on_enter DsState.enable_operation d = send_control_word 0x0F d
on_enter DsState.disable_operation d = send_control_word 0x07 d
on_enter DsState.operation_enabled d = on_motion (Mp.handle_event MpEvent.ds_operational) d
on_enter DsState.clearing_fault d = on_motion (on_channel (Sdo.queue_read 0x3518 0x01)) d
on_enter _ d = running d

-- mch_ds_on_exit, with mch_ds_on_operation_disabled of sled.cc.
unfoldable pub on_exit : DsState → Drive → Outcome Drive
unfolding on_motion
on_exit DsState.operation_enabled d = on_motion (Mp.handle_event MpEvent.ds_inoperational) d
on_exit _ d = running d

unfoldable pub machine : Machine DsState DsEvent Drive
unfolding ds_number next_state_given_event on_enter on_exit
machine = record {
  number = ds_number;
  state = λ d. d.ds;
  set_state = λ s d. record d { ds = s };
  next_state_given_event = next_state_given_event;
  on_exit = λ d. on_exit d.ds d;
  on_enter = λ d. on_enter d.ds d;
}

-- mch_ds_handle_event
unfoldable pub handle_event : DsEvent → Drive → Outcome Drive
unfolding machine Machine.handle_event
handle_event event d = Machine.handle_event machine event d
