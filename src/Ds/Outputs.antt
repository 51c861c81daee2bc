-- ===== src/Ds/Outputs.antt =====
-- What the device machine of libsled/machines/mch_ds.cc sends to the drive, and how it switches
-- the motion profile machine on and off.
use mathlib.Core.List.{append-nil, append_assoc}
use sled_server.Common.{
  ℕ, ◌≡◌, ◌≢◌, refl, sym, inl, inr, Bool-cases, ==_iff, ◌∙◌, ap, Bool, true, false, List, [], ◌∷◌,
  ◌++◌, arith, if◌then◌else◌, ◌==◌,
}
use sled_server.Common.Outcome.{
  Outcome, ◌>>=◌, Returns, Returns-bind, Returns-mono, Returns-running,
}
use sled_server.Can.{CanMessage, read_req_message}
use sled_server.Sdo.{SdoItem, enqueue, plain_write, plain_read, queue_write, queue_read}
use sled_server.Sdo.Fifo.{request}
use sled_server.Machine.Laws.{IsInjective, handle_event-cases}
use sled_server.Mp.{Motion, MpState, MpEvent, on_channel, ob_control_word}
use sled_server.Mp
use sled_server.Mp.Outputs
use sled_server.Mp.Outputs.{
  SdoMode, HasSent, control_message, mode_message, enqueue-HasSent, on_channel-Returns,
}
use sled_server.Ds.{
  DsState, DsEvent, Drive, on_motion, ds_number, next_state_given_event, send_control_word,
  on_enter, on_exit, machine, handle_event,
}

abbrev pub is_active : MpState → Bool
is_active MpState.disabled = false
is_active _ = true

abbrev pub is_enabled : DsState → Bool
is_enabled DsState.operation_enabled = true
is_enabled _ = false

-- The motion profile machine is active exactly while operation is enabled.
abbrev pub IsCoupled : Drive → Type 0
IsCoupled d = is_active d.motion.mp ≡ is_enabled d.ds

-- The messages of the actions.
abbrev pub enter_messages : DsState → List CanMessage
enter_messages DsState.unknown = control_message 0x06 ∷ []
enter_messages DsState.prepare_switch_on = control_message 0x06 ∷ []
enter_messages DsState.switch_on = control_message 0x07 ∷ []
enter_messages DsState.shutdown = control_message 0x06 ∷ []
enter_messages DsState.enable_operation = control_message 0x0F ∷ []
enter_messages DsState.disable_operation = control_message 0x07 ∷ []
enter_messages DsState.operation_enabled = mode_message 0x06 ∷ []
enter_messages DsState.clearing_fault = read_req_message 0x3518 0x01 ∷ []
enter_messages _ = []

-- Homing that is under way is called off.
abbrev pub exit_messages : DsState → MpState → List CanMessage
exit_messages DsState.operation_enabled MpState.hh_homing = control_message 0x2F ∷ []
exit_messages _ _ = []

abbrev pub messages : Drive → DsEvent → List CanMessage
messages d e =
    let t = next_state_given_event d.ds e in
    if ds_number d.ds == ds_number t then [] else exit_messages d.ds d.motion.mp ++ enter_messages t

number_injective : IsInjective machine
unfolding machine
number_injective s t h = ground arith

pub on_motion-Returns :
    (P : Motion → Type 0) (f : Motion → Outcome Motion) (d : Drive)
    → Returns P (f d.motion)
    → Returns (λ n. (n.ds ≡ d.ds) × P n.motion) (on_motion f d)
unfolding on_motion
on_motion-Returns P f d h = let (m, r, w) = Returns-running (f d.motion) h in rw r (refl, w)

-- What an action of the machine leaves: the motion profile machine in `mp`, and `msgs` sent.
abbrev Left : SdoMode → MpState → List CanMessage → Drive → Drive → Type 0
Left k mp msgs d n = (n.ds ≡ d.ds) × ((n.motion.mp ≡ mp) × HasSent k msgs n.motion.channel)

send_item :
    {k : SdoMode} (sdo : SdoItem) (msgs : List CanMessage) (d : Drive)
    → HasSent k msgs d.motion.channel
    → Returns
        (Left k d.motion.mp (msgs ++ request sdo ∷ []) d)
        (on_motion (on_channel (enqueue sdo)) d)
send_item {k} sdo msgs d h =
    on_motion-Returns (λ m. (m.mp ≡ d.motion.mp) × HasSent k (msgs ++ request sdo ∷ []) m.channel)
      (on_channel (enqueue sdo)) d
      (on_channel-Returns (HasSent k (msgs ++ request sdo ∷ [])) (enqueue sdo) d.motion
        (enqueue-HasSent sdo msgs d.motion.channel h))

send_word :
    {k : SdoMode} (word : ℕ) (msgs : List CanMessage) (d : Drive)
    → HasSent k msgs d.motion.channel
    → Returns (Left k d.motion.mp (msgs ++ control_message word ∷ []) d) (send_control_word word d)
unfolding send_control_word queue_write
send_word {k} word msgs d h = send_item (plain_write ob_control_word 0x00 word 0x02) msgs d h

quiet :
    {k : SdoMode} (msgs : List CanMessage) (d : Drive)
    → HasSent k msgs d.motion.channel
    → Left k d.motion.mp (msgs ++ []) d d
quiet {k} msgs d h = (refl, (refl, (h.0, h.1 ∙ sym (append-nil msgs))))

abbrev motion_after : DsState → MpState
motion_after DsState.operation_enabled = MpState.switch_mode_homing
motion_after _ = MpState.disabled

mp_switched_on :
    (s : MpState)
    → s ≡ MpState.disabled
    → (Mp.next_state_given_event s MpEvent.ds_operational ≡ MpState.switch_mode_homing)
      × (Outputs.messages s MpEvent.ds_operational ≡ mode_message 0x06 ∷ [])
unfolding Mp.next_state_given_event
mp_switched_on s off = ground arith

mp_switched_off :
    (s : MpState)
    → (Mp.next_state_given_event s MpEvent.ds_inoperational ≡ MpState.disabled)
      × (Outputs.messages s MpEvent.ds_inoperational ≡ exit_messages DsState.operation_enabled s)
unfolding Mp.next_state_given_event
mp_switched_off s = ground arith

-- The same event of the motion profile machine, with its outcome named otherwise.
motion_event :
    {k : SdoMode} (e : MpEvent) (mp : MpState) (said msgs : List CanMessage) (d : Drive)
    → HasSent k msgs d.motion.channel
    → Mp.next_state_given_event d.motion.mp e ≡ mp
    → Outputs.messages d.motion.mp e ≡ said
    → Returns (Left k mp (msgs ++ said) d) (on_motion (Mp.handle_event e) d)
motion_event {k} e mp said msgs d h to says =
    on_motion-Returns (λ m. (m.mp ≡ mp) × HasSent k (msgs ++ said) m.channel) (Mp.handle_event e) d
      (Returns-mono (Mp.handle_event e d.motion) (Outputs.handle_event-messages e d.motion msgs h)
        λ n k. (k.0 ∙ to, (k.1.0, k.1.1 ∙ ap (◌++◌ msgs) says)))

word_off :
    {k : SdoMode} (word : ℕ) (msgs : List CanMessage) (d : Drive)
    → HasSent k msgs d.motion.channel
    → d.motion.mp ≡ MpState.disabled
    → Returns
        (Left k MpState.disabled (msgs ++ control_message word ∷ []) d)
        (send_control_word word d)
word_off {k} word msgs d h off =
    Returns-mono (send_control_word word d) (send_word word msgs d h)
      λ n k. (k.0, (k.1.0 ∙ off, k.1.1))

on_enter-Returns :
    {k : SdoMode} (s : DsState) (msgs : List CanMessage) (d : Drive)
    → HasSent k msgs d.motion.channel
    → d.motion.mp ≡ MpState.disabled
    → Returns (Left k (motion_after s) (msgs ++ enter_messages s) d) (on_enter s d)
unfolding on_enter queue_read
on_enter-Returns {k} DsState.unknown msgs d h off = word_off 0x06 msgs d h off
on_enter-Returns {k} DsState.prepare_switch_on msgs d h off = word_off 0x06 msgs d h off
on_enter-Returns {k} DsState.switch_on msgs d h off = word_off 0x07 msgs d h off
on_enter-Returns {k} DsState.shutdown msgs d h off = word_off 0x06 msgs d h off
on_enter-Returns {k} DsState.enable_operation msgs d h off = word_off 0x0F msgs d h off
on_enter-Returns {k} DsState.disable_operation msgs d h off = word_off 0x07 msgs d h off
on_enter-Returns {k} DsState.operation_enabled msgs d h off =
    motion_event MpEvent.ds_operational MpState.switch_mode_homing (mode_message 0x06 ∷ []) msgs d h
      (mp_switched_on d.motion.mp off).0 (mp_switched_on d.motion.mp off).1
on_enter-Returns {k} DsState.clearing_fault msgs d h off =
    Returns-mono (on_motion (on_channel (queue_read 0x3518 0x01)) d)
      (send_item (plain_read 0x3518 0x01) msgs d h) λ n k. (k.0, (k.1.0 ∙ off, k.1.1))
on_enter-Returns {k} _ msgs d h off = (refl, (off, (quiet msgs d h).1.1))

on_exit-Returns :
    {k : SdoMode} (s : DsState) (msgs : List CanMessage) (d : Drive)
    → HasSent k msgs d.motion.channel
    → is_active d.motion.mp ≡ is_enabled s
    → Returns (Left k MpState.disabled (msgs ++ exit_messages s d.motion.mp) d) (on_exit s d)
unfolding on_exit
on_exit-Returns {k} DsState.operation_enabled msgs d h c =
    motion_event MpEvent.ds_inoperational MpState.disabled _ msgs d h
      (mp_switched_off d.motion.mp).0 (mp_switched_off d.motion.mp).1
on_exit-Returns {k} _ msgs d h c = (refl, (ground arith, (quiet msgs d h).1.1))

-- What the two machines are like after the event.
abbrev pub After : SdoMode → DsEvent → List CanMessage → Drive → Drive → Type 0
After k e msgs d n =
    (n.ds ≡ next_state_given_event d.ds e)
    × (IsCoupled n × HasSent k (msgs ++ messages d e) n.motion.channel)

messages_moved :
    (d : Drive) (e : DsEvent)
    → next_state_given_event d.ds e ≢ d.ds
    → messages d e
      ≡ exit_messages d.ds d.motion.mp ++ enter_messages (next_state_given_event d.ds e)
unfolding machine
messages_moved d e other =
    elim (Bool-cases (ds_number d.ds == ds_number (next_state_given_event d.ds e))) [
      | inl same ↦ absurd (
          other (sym (number_injective d.ds (next_state_given_event d.ds e) ((==_iff _ _).0 same))))
      | inr moved ↦ rw moved
    ]

stay :
    {k : SdoMode} (e : DsEvent) (d : Drive) (msgs : List CanMessage)
    → HasSent k msgs d.motion.channel
    → IsCoupled d
    → next_state_given_event d.ds e ≡ d.ds
    → After k e msgs d d
stay {k} e d msgs h c same = rw same (ground (arith, append-nil msgs))

motion_after-coupled : (s : DsState) → is_active (motion_after s) ≡ is_enabled s
motion_after-coupled s = ground arith

move :
    {k : SdoMode} (e : DsEvent) (d : Drive) (msgs : List CanMessage)
    → HasSent k msgs d.motion.channel
    → IsCoupled d
    → next_state_given_event d.ds e ≢ d.ds
    → Returns (After k e msgs d) (
        on_exit d.ds d >>= λ l.
        on_enter (next_state_given_event d.ds e) (record l { ds = next_state_given_event d.ds e }))
move {k} e d msgs h c other =
    let n = next_state_given_event d.ds e in
    let said = msgs ++ exit_messages d.ds d.motion.mp in
    Returns-bind (Left k MpState.disabled said d) (After k e msgs d) (on_exit d.ds d) _
      (on_exit-Returns d.ds msgs d h c)
      λ l hl.
        Returns-mono (on_enter n (record l { ds = n }))
          (on_enter-Returns n said (record l { ds = n }) hl.1.1 hl.1.0)
          λ k hk. (
            hk.0,
            (
              ap is_active hk.1.0 ∙ motion_after-coupled n ∙ ap is_enabled (sym hk.0),
              (
                hk.1.1.0,
                hk.1.1.1
                    ∙ append_assoc msgs (exit_messages d.ds d.motion.mp) (enter_messages n)
                    ∙ ap (◌++◌ msgs) (sym (messages_moved d e other)),
              ),
            ),
          )

-- The machine goes to the state that the table names; the motion profile machine is active exactly
-- in the state OPERATION_ENABLED; and the messages of the actions join those that the SDO machine
-- was given before, in order. The handler never faults and never ends the process.
pub drive_event-messages :
    {k : SdoMode} (e : DsEvent) (d : Drive) (msgs : List CanMessage)
    → HasSent k msgs d.motion.channel
    → IsCoupled d
    → Returns (After k e msgs d) (handle_event e d)
unfolding handle_event
drive_event-messages {k} e d msgs h c =
    handle_event-cases machine (Returns (After k e msgs d)) e d number_injective (stay e d msgs h c)
      (move e d msgs h c)
