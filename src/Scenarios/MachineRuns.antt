-- ===== src/Scenarios/MachineRuns.antt =====
-- The machines of libsled/machines/ on their way from power-on to the first motion.
use mathlib.Core.List.{reverse}
use sled_server.Common.{◌≡◌, refl, ◌⊎◌, inl, true, false, none, some, [], ◌∷◌, arith}
use sled_server.Common.Outcome.{exited, Returns}
use sled_server.Sdo.{
  Channel, SdoItem, SdoState, SdoEvent, no_abort_callback, net_upload_failed, no_write_callback,
  create, enqueue, finish_active, handle_event,
}
use sled_server.Sdo
use sled_server.Sdo.Invariant.{IsValid}
use sled_server.Sdo.Fifo.{request, transcript, transcript-enqueue}
use sled_server.Sdo.Draining.{answer_all, answer_all-drains}
use sled_server.Sdo.Clearing.{enable_drops}
use sled_server.Mp.{MpState, MpEvent, Motion, next_state_given_event}
use sled_server.Mp
use sled_server.Mp.Outputs.{
  SdoMode, HasSent, control_message, mode_message, messages, handle_event-messages,
}
use sled_server.Mp.Outputs as MpOutputs
use sled_server.Mp.Handshake.{
  homing_events, homing_messages, homing_sequence, run_states, Has, HasThen, setpoint_handshake,
}
use sled_server.Mp.Handshake
use sled_server.Ds.{Drive, DsState, DsEvent}
use sled_server.Ds
use sled_server.Ds.Outputs as DsOutputs
use sled_server.Ds.Outputs.{IsCoupled, drive_event-messages}
use sled_server.Ds.Transitions
use sled_server.Ds.Transitions.{
  power_up_events, power_up_messages, power_up, run-IsCoupled, next_state_guard,
}

abbrev pub waiting_channel : Channel
waiting_channel = record {
  state = SdoState.waiting;
  sdo_queue = [];
  sdo_active = none;
  on_read = false;
  on_write = false;
  on_abort = false;
  sent = [];
}

waiting-IsValid : IsValid waiting_channel
waiting-IsValid = ground arith

pub waiting-HasSent : HasSent SdoMode.on [] waiting_channel
waiting-HasSent = ((waiting-IsValid, refl), refl)

abbrev light_item : SdoItem
light_item = record {
  is_write = true;
  index = 0x6300;
  subindex = 0x01;
  value = 0x01;
  size = 0x04;
  abort_callback = no_abort_callback;
  write_callback = no_write_callback;
}

abbrev setup_item : SdoItem
setup_item = record light_item { abort_callback = net_upload_failed }

transcript-enqueue_example :
    Returns (λ d. transcript d ≡ request light_item ∷ []) (enqueue light_item waiting_channel)
transcript-enqueue_example = transcript-enqueue light_item waiting_channel waiting-IsValid

-- One item on its way, another one waiting.
abbrev sending_channel : Channel
sending_channel = record waiting_channel {
  state = SdoState.sending;
  sdo_queue = setup_item ∷ [];
  sdo_active = some light_item;
  on_write = true;
  on_abort = true;
}

abbrev queued_channel : Channel
queued_channel = record sending_channel { sdo_queue = light_item ∷ [] }

answer_all-drains_example :
    Returns
      (λ d.
        (d.state ≡ SdoState.waiting)
        × ((d.sdo_queue ≡ []) × (reverse d.sent ≡ transcript queued_channel)))
      (answer_all (SdoEvent.write_response ∷ SdoEvent.read_response ∷ []) queued_channel)
answer_all-drains_example =
    answer_all-drains (SdoEvent.write_response ∷ SdoEvent.read_response ∷ []) queued_channel refl
      refl refl

abbrev disabled_channel : Channel
disabled_channel = record waiting_channel { state = SdoState.disabled; sdo_queue = setup_item ∷ [] }

enable_drops_example : Sdo.handle_event SdoEvent.net_sdo_enabled disabled_channel ≡ exited
enable_drops_example = enable_drops disabled_channel (inl refl)

abbrev motion_off : Motion
motion_off = record { mp = MpState.disabled; channel = waiting_channel }

handle_event-messages_example :
    Returns
      (MpOutputs.After SdoMode.on MpEvent.ds_operational [] motion_off)
      (Mp.handle_event MpEvent.ds_operational motion_off)
handle_event-messages_example =
    handle_event-messages MpEvent.ds_operational motion_off [] waiting-HasSent

homing_sequence_example :
    Returns
      (λ n. (n.mp ≡ MpState.pp_idle) × HasSent SdoMode.on homing_messages n.channel)
      (Handshake.run homing_events motion_off)
homing_sequence_example = homing_sequence motion_off [] waiting-HasSent refl

setpoint_handshake_example :
    HasThen MpEvent.setpoint_ack MpEvent.setpoint_nack
      (MpEvent.mode_pp ∷ MpEvent.setpoint_ack ∷ MpEvent.setpoint_nack ∷ [])
    ⊎ Has MpEvent.ds_inoperational
        (MpEvent.mode_pp ∷ MpEvent.setpoint_ack ∷ MpEvent.setpoint_nack ∷ [])
unfolding next_state_given_event
setpoint_handshake_example =
    setpoint_handshake (MpEvent.mode_pp ∷ MpEvent.setpoint_ack ∷ MpEvent.setpoint_nack ∷ []) refl

abbrev drive_unknown : Drive
drive_unknown = record { ds = DsState.unknown; motion = motion_off }

drive_event-messages_example :
    Returns
      (DsOutputs.After SdoMode.on DsEvent.ready_to_switch_on [] drive_unknown)
      (Ds.handle_event DsEvent.ready_to_switch_on drive_unknown)
drive_event-messages_example =
    drive_event-messages DsEvent.ready_to_switch_on drive_unknown [] waiting-HasSent refl

run-IsCoupled_example :
    Returns
      (λ n.
        (n.ds ≡ Transitions.run_states DsState.unknown power_up_events)
        × (IsCoupled n
            × (IsValid n.motion.channel
                × (MpOutputs.sdo_mode n.motion.channel.state ≡ SdoMode.on))))
      (Transitions.run power_up_events drive_unknown)
run-IsCoupled_example = run-IsCoupled power_up_events drive_unknown [] waiting-HasSent refl

power_up_example :
    Returns
      (λ n.
        (n.ds ≡ DsState.operation_enabled)
        × (IsCoupled n × HasSent SdoMode.on power_up_messages n.motion.channel))
      (Transitions.run power_up_events drive_unknown)
power_up_example = power_up drive_unknown [] waiting-HasSent refl refl
