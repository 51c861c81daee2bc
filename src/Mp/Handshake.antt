-- ===== src/Mp/Handshake.antt =====
-- Sequences of events of the motion profile machine (libsled/machines/mch_mp.cc): homing, and the
-- handshake for a new set-point.
use mathlib.Core.List.{append-nil, append_assoc}
use sled_server.Common.{◌≡◌, refl, ◌∙◌, ap, ◌⊎◌, inl, inr, List, [], ◌∷◌, ◌++◌, arith, sym}
use sled_server.Common.Outcome.{Outcome, running, ◌>>=◌, Returns, Returns-bind, Returns-mono}
use sled_server.Can.{CanMessage}
use sled_server.Mp.{MpState, MpEvent, Motion, next_state_given_event, handle_event}
use sled_server.Mp.Outputs.{
  SdoMode, HasSent, After, messages, control_message, mode_message, handle_event-messages,
}

-- One event after the other.
unfoldable pub run : List MpEvent → Motion → Outcome Motion
run [] m = running m
run (e ∷ es) m = handle_event e m >>= run es

abbrev pub run_states : MpState → List MpEvent → MpState
run_states s [] = s
run_states s (e ∷ es) = run_states (next_state_given_event s e) es

abbrev pub run_messages : MpState → List MpEvent → List CanMessage
run_messages s [] = []
run_messages s (e ∷ es) = messages s e ++ run_messages (next_state_given_event s e) es

-- A sequence of events never faults; it leads to the state that the table gives, and all messages
-- reach the SDO machine in order.
pub run-messages :
    {k : SdoMode} (es : List MpEvent) (m : Motion) (msgs : List CanMessage)
    → HasSent k msgs m.channel
    → Returns
        (λ n. (n.mp ≡ run_states m.mp es) × HasSent k (msgs ++ run_messages m.mp es) n.channel)
        (run es m)
unfolding run
run-messages [] m msgs h = (refl, (h.0, h.1 ∙ sym (append-nil msgs)))
run-messages {k} (e ∷ es) m msgs h =
    Returns-bind (After k e msgs m) _ (handle_event e m) (run es) (handle_event-messages e m msgs h)
      λ n hn. Returns-mono (run es n) (run-messages es n (msgs ++ messages m.mp e) hn.1) λ l hl. (
        hl.0 ∙ ap (λ s. run_states s es) hn.0,
        (
          hl.1.0,
          hl.1.1
              ∙ append_assoc msgs (messages m.mp e) (run_messages n.mp es)
              ∙ ap (λ s. msgs ++ (messages m.mp e ++ run_messages s es)) hn.0,
        ),
      )

abbrev pub homing_events : List MpEvent
homing_events =
    MpEvent.ds_operational ∷ MpEvent.mode_homing ∷ MpEvent.not_homed ∷ MpEvent.homed
    ∷ MpEvent.mode_pp ∷ []

abbrev pub homing_messages : List CanMessage
homing_messages =
    mode_message 0x06 ∷ control_message 0x3F ∷ control_message 0x2F ∷ mode_message 0x01 ∷ []

homing_table :
    (s : MpState)
    → s ≡ MpState.disabled
    → (run_states s homing_events ≡ MpState.pp_idle)
      × (run_messages s homing_events ≡ homing_messages)
unfolding next_state_given_event
homing_table s off = rw off (refl, refl)

-- Homing: from DISABLED, the device machine becoming operational, and then a drive that reports
-- homing mode, not homed, homed and profile position mode, bring the machine to PP_IDLE; the drive is told to enter homing mode, to start and to end
-- homing, and to enter profile position mode, in this order.
pub homing_sequence :
    {k : SdoMode} (m : Motion) (msgs : List CanMessage)
    → HasSent k msgs m.channel
    → m.mp ≡ MpState.disabled
    → Returns
        (λ n. (n.mp ≡ MpState.pp_idle) × HasSent k (msgs ++ homing_messages) n.channel)
        (run homing_events m)
homing_sequence m msgs h off =
    let (to, said) = homing_table m.mp off in
    Returns-mono (run homing_events m) (run-messages homing_events m msgs h)
      λ n k. (k.0 ∙ to, (k.1.0, k.1.1 ∙ ap (◌++◌ msgs) said))

-- `b` stands in the list behind an `a`.
abbrev pub Has : MpEvent → List MpEvent → Type 0
Has a [] = ⊥
Has a (e ∷ es) = (e ≡ a) ⊎ Has a es

abbrev pub HasThen : MpEvent → MpEvent → List MpEvent → Type 0
HasThen a b [] = ⊥
HasThen a b (e ∷ es) = ((e ≡ a) × Has b es) ⊎ HasThen a b es

ack_needs_nack :
    (es : List MpEvent)
    → run_states MpState.pp_sp_ack es ≡ MpState.pp_idle
    → Has MpEvent.setpoint_nack es ⊎ Has MpEvent.ds_inoperational es
unfolding next_state_given_event
ack_needs_nack [] h = cc
ack_needs_nack (MpEvent.setpoint_nack ∷ es) h = inl (inl refl)
ack_needs_nack (MpEvent.ds_inoperational ∷ es) h = inr (inl refl)
ack_needs_nack (_ ∷ es) h = ground (arith, ack_needs_nack es h)

-- A new set-point has been announced. The machine takes another one only after the drive has
-- acknowledged it and then withdrawn the acknowledgement, unless the device was disabled.
pub setpoint_handshake :
    (es : List MpEvent)
    → run_states MpState.pp_sp_nack es ≡ MpState.pp_idle
    → HasThen MpEvent.setpoint_ack MpEvent.setpoint_nack es ⊎ Has MpEvent.ds_inoperational es
unfolding next_state_given_event
setpoint_handshake [] h = cc
setpoint_handshake (MpEvent.setpoint_ack ∷ es) h = ground (arith, ack_needs_nack es h)
setpoint_handshake (MpEvent.ds_inoperational ∷ es) h = inr (inl refl)
setpoint_handshake (_ ∷ es) h = ground (arith, setpoint_handshake es h)
