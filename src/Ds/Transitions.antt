-- ===== src/Ds/Transitions.antt =====
-- Sequences of events of the device machine (libsled/machines/mch_ds.cc).
use mathlib.Core.List.{append-nil, append_assoc}
use mathlib.Core.Path.{ap₂}
use sled_server.Common.{
  ◌≡◌, ◌≢◌, refl, ◌∙◌, ap, false, List, [], ◌∷◌, ◌++◌, arith, sym, if◌then◌else◌, ◌==◌,
}
use sled_server.Common.Outcome.{Outcome, running, ◌>>=◌, Returns, Returns-bind, Returns-mono}
use sled_server.Can.{CanMessage}
use sled_server.Sdo.Invariant.{IsValid}
use sled_server.Mp.Outputs.{SdoMode, sdo_mode, HasSent, control_message, mode_message}
use sled_server.Ds.{ds_number, DsState, DsEvent, Drive, next_state_given_event, handle_event}
use sled_server.Ds.Outputs.{
  is_enabled, enter_messages, IsCoupled, After, messages, drive_event-messages,
}

next_state_disabled :
    (e : DsEvent)
    → next_state_given_event DsState.disabled e ≢ DsState.disabled
    → e ≡ DsEvent.net_operational
unfolding next_state_given_event
next_state_disabled e h = ground arith

-- The tests above the `switch` do what their form suggests, although `!` binds tighter than `==`:
-- in every state but DISABLED the loss of the network disables the machine and the two fault
-- reports are taken at once; and an event that leaves DISABLED is that of the network becoming
-- operational.
pub next_state_guard :
    (s : DsState) (e : DsEvent)
    → s ≢ DsState.disabled
    → next_state_given_event DsState.disabled e ≢ DsState.disabled
    → (next_state_given_event s DsEvent.net_inoperational ≡ DsState.disabled)
      × (next_state_given_event s DsEvent.fault ≡ DsState.clearing_fault)
      × (next_state_given_event s DsEvent.fault_reaction_active ≡ DsState.fault)
      × (e ≡ DsEvent.net_operational)
unfolding next_state_given_event
next_state_guard s e h l = (ground arith, ground arith, ground arith, next_state_disabled e l)

-- One event after the other.
unfoldable pub run : List DsEvent → Drive → Outcome Drive
run [] d = running d
run (e ∷ es) d = handle_event e d >>= run es

-- The state that the table gives for the events.
abbrev pub run_states : DsState → List DsEvent → DsState
run_states s [] = s
run_states s (e ∷ es) = run_states (next_state_given_event s e) es

-- Any sequence of events: the handlers return, the state is the table's, the motion profile machine
-- is active exactly if operation is enabled at the end, and the SDO machine is in order and in the
-- mode that it had.
pub run-IsCoupled :
    {k : SdoMode} (es : List DsEvent) (d : Drive) (msgs : List CanMessage)
    → HasSent k msgs d.motion.channel
    → IsCoupled d
    → Returns
        (λ n.
          (n.ds ≡ run_states d.ds es)
          × (IsCoupled n × (IsValid n.motion.channel × (sdo_mode n.motion.channel.state ≡ k))))
        (run es d)
unfolding run
run-IsCoupled [] d msgs h c = (refl, (c, h.0))
run-IsCoupled {k} (e ∷ es) d msgs h c =
    Returns-bind (After k e msgs d) _ (handle_event e d) (run es)
      (drive_event-messages e d msgs h c)
      λ n hn.
        Returns-mono (run es n) (run-IsCoupled es n (msgs ++ messages d e) hn.1.1 hn.1.0)
          λ l hl. (hl.0 ∙ ap (λ s. run_states s es) hn.0, hl.1)

-- What is sent on the way to OPERATION_ENABLED.
abbrev pub run_messages : DsState → List DsEvent → List CanMessage
run_messages s [] = []
run_messages s (e ∷ es) =
    (if ds_number s == ds_number (next_state_given_event s e)
      then []
      else enter_messages (next_state_given_event s e))
    ++ run_messages (next_state_given_event s e) es

-- Operation is not enabled before the last of the events.
abbrev pub IsApproach : DsState → List DsEvent → Type 0
IsApproach s [] = Unit {0}
IsApproach s (e ∷ es) = (is_enabled s ≡ false) × IsApproach (next_state_given_event s e) es

messages_quiet :
    (d : Drive) (e : DsEvent)
    → is_enabled d.ds ≡ false
    → messages d e ≡ (
        if ds_number d.ds == ds_number (next_state_given_event d.ds e)
        then []
        else enter_messages (next_state_given_event d.ds e))
messages_quiet d e h = ground arith

run-messages :
    {k : SdoMode} (es : List DsEvent) (d : Drive) (msgs : List CanMessage)
    → HasSent k msgs d.motion.channel
    → IsCoupled d
    → IsApproach d.ds es
    → Returns
        (λ n.
          (n.ds ≡ run_states d.ds es)
          × (IsCoupled n × HasSent k (msgs ++ run_messages d.ds es) n.motion.channel))
        (run es d)
unfolding run
run-messages [] d msgs h c a = (refl, (c, (h.0, h.1 ∙ sym (append-nil msgs))))
run-messages {k} (e ∷ es) d msgs h c a =
    Returns-bind (After k e msgs d) _ (handle_event e d) (run es)
      (drive_event-messages e d msgs h c)
      λ n hn.
        Returns-mono (run es n)
          (run-messages es n (msgs ++ messages d e) hn.1.1 hn.1.0 (rw hn.0 a.1))
          λ l hl. (
            hl.0 ∙ ap (λ s. run_states s es) hn.0,
            (
              hl.1.0,
              (
                hl.1.1.0,
                hl.1.1.1
                    ∙ append_assoc msgs (messages d e) (run_messages n.ds es)
                    ∙ ap₂ (λ l s. msgs ++ (l ++ run_messages s es)) (messages_quiet d e a.0) hn.0,
              ),
            ),
          )

abbrev pub power_up_events : List DsEvent
power_up_events =
    DsEvent.ready_to_switch_on ∷ DsEvent.voltage_enabled ∷ DsEvent.switched_on
    ∷ DsEvent.voltage_enabled ∷ DsEvent.operation_enabled ∷ []

abbrev pub power_up_messages : List CanMessage
power_up_messages = control_message 0x07 ∷ control_message 0x0F ∷ mode_message 0x06 ∷ []

power_up_table :
    (s : DsState)
    → s ≡ DsState.unknown
    → (run_states s power_up_events ≡ DsState.operation_enabled)
      × (run_messages s power_up_events ≡ power_up_messages)
      × IsApproach s power_up_events
unfolding next_state_given_event
power_up_table s u = rw u (refl, refl, (refl, (refl, (refl, (refl, (refl, tt))))))

-- Power-up: in the state UNKNOWN, a drive that reports ready, voltage, switched on, voltage and
-- operation enabled brings the machine to OPERATION_ENABLED; the drive is told to switch on, to
-- enable operation, and, by the motion profile machine, to enter homing mode, in this order.
pub power_up :
    {k : SdoMode} (d : Drive) (msgs : List CanMessage)
    → HasSent k msgs d.motion.channel
    → IsCoupled d
    → d.ds ≡ DsState.unknown
    → Returns
        (λ n.
          (n.ds ≡ DsState.operation_enabled)
          × (IsCoupled n × HasSent k (msgs ++ power_up_messages) n.motion.channel))
        (run power_up_events d)
power_up d msgs h c u =
    let (to, said, path) = power_up_table d.ds u in
    Returns-mono (run power_up_events d) (run-messages power_up_events d msgs h c path)
      λ n k. (k.0 ∙ to, (k.1.0, (k.1.1.0, k.1.1.1 ∙ ap (◌++◌ msgs) said)))
