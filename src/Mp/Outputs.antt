-- ===== src/Mp/Outputs.antt =====
-- What the motion profile machine of libsled/machines/mch_mp.cc sends to the drive.
use mathlib.Core.List.{append-nil, append_assoc}
use sled_server.Common.{
  ℕ, ◌≡◌, ◌≢◌, refl, sym, inl, inr, Bool-cases, ==_iff, ◌∙◌, ap, List, [], ◌∷◌, ◌++◌, arith,
  if◌then◌else◌, ◌==◌,
}
use sled_server.Common.Outcome.{
  Outcome, running, ◌>>=◌, Returns, Returns-bind, Returns-mono, Returns-running,
}
use sled_server.Can.{CanMessage, write_req_message}
use sled_server.Sdo.{Channel, SdoState, SdoItem, plain_write, enqueue, queue_write}
use sled_server.Sdo.Invariant.{IsValid, enqueue-Returns}
use sled_server.Sdo.Fifo.{transcript, request, transcript-enqueue}
use sled_server.Machine.Laws.{IsInjective, handle_event-cases}
use sled_server.Mp.{
  MpState, MpEvent, Motion, on_channel, mp_number, next_state_given_event, on_enter, on_exit,
  send_mode_switch, send_control_word, machine, handle_event, ob_control_word,
}

-- Whether the SDO machine is off, has failed, or transmits.
pub data SdoMode : Type 0 where
  off failed on : SdoMode

abbrev pub sdo_mode : SdoState → SdoMode
sdo_mode SdoState.disabled = SdoMode.off
sdo_mode SdoState.error = SdoMode.failed
sdo_mode SdoState.waiting = SdoMode.on
sdo_mode SdoState.sending = SdoMode.on

-- The SDO machine is in order, in mode `k`, and has been given the messages `msgs`.
abbrev pub HasSent : SdoMode → List CanMessage → Channel → Type 0
HasSent k msgs c = (IsValid c × (sdo_mode c.state ≡ k)) × (transcript c ≡ msgs)

enqueue-mode :
    (sdo : SdoItem) (c : Channel)
    → IsValid c
    → Returns (λ d. sdo_mode d.state ≡ sdo_mode c.state) (enqueue sdo c)
unfolding enqueue
enqueue-mode sdo c v = ground arith

-- An item joins the messages at the end.
pub enqueue-HasSent :
    {k : SdoMode} (sdo : SdoItem) (msgs : List CanMessage) (c : Channel)
    → HasSent k msgs c
    → Returns (HasSent k (msgs ++ request sdo ∷ [])) (enqueue sdo c)
enqueue-HasSent sdo msgs c ((v, k), e) =
    let (d, r, w) = Returns-running (enqueue sdo c) (enqueue-Returns sdo c v) in
    let t : Returns (λ x. transcript x ≡ transcript c ++ request sdo ∷ []) (running d) =
      rw r at (transcript-enqueue sdo c v) in
    let n : Returns (λ x. sdo_mode x.state ≡ sdo_mode c.state) (running d) =
      rw r at (enqueue-mode sdo c v) in
    rw r ((w, n ∙ k), t ∙ ap (λ l. l ++ request sdo ∷ []) e)

pub on_channel-Returns :
    (P : Channel → Type 0) (f : Channel → Outcome Channel) (m : Motion)
    → Returns P (f m.channel)
    → Returns (λ n. (n.mp ≡ m.mp) × P n.channel) (on_channel f m)
unfolding on_channel
on_channel-Returns P f m h = let (d, r, w) = Returns-running (f m.channel) h in rw r (refl, w)

abbrev pub control_message : ℕ → CanMessage
control_message word = write_req_message ob_control_word 0x00 word 0x02

abbrev pub mode_message : ℕ → CanMessage
mode_message mode = write_req_message 0x6060 0x00 mode 0x01

-- The messages of the actions.
abbrev pub enter_messages : MpState → List CanMessage
enter_messages MpState.switch_mode_homing = mode_message 0x06 ∷ []
enter_messages MpState.switch_mode_pp = mode_message 0x01 ∷ []
enter_messages MpState.hh_homing = control_message 0x3F ∷ []
enter_messages MpState.pp_sp_ack = control_message 0x2F ∷ []
enter_messages _ = []

abbrev pub exit_messages : MpState → List CanMessage
exit_messages MpState.hh_homing = control_message 0x2F ∷ []
exit_messages _ = []

abbrev pub messages : MpState → MpEvent → List CanMessage
messages s e =
    let t = next_state_given_event s e in
    if mp_number s == mp_number t then [] else exit_messages s ++ enter_messages t

number_injective : IsInjective machine
unfolding machine
number_injective s t h = ground arith

send_control_word-Returns :
    {k : SdoMode} (word : ℕ) (msgs : List CanMessage) (m : Motion)
    → HasSent k msgs m.channel
    → Returns
        (λ n. (n.mp ≡ m.mp) × HasSent k (msgs ++ control_message word ∷ []) n.channel)
        (send_control_word word m)
unfolding send_control_word queue_write
send_control_word-Returns {k} word msgs m h =
    on_channel-Returns (HasSent k (msgs ++ control_message word ∷ []))
      (queue_write ob_control_word 0x00 word 0x02) m
      (enqueue-HasSent (plain_write ob_control_word 0x00 word 0x02) msgs m.channel h)

send_mode_switch-Returns :
    {k : SdoMode} (mode : ℕ) (msgs : List CanMessage) (m : Motion)
    → HasSent k msgs m.channel
    → Returns
        (λ n. (n.mp ≡ m.mp) × HasSent k (msgs ++ mode_message mode ∷ []) n.channel)
        (send_mode_switch mode m)
unfolding send_mode_switch queue_write
send_mode_switch-Returns {k} mode msgs m h =
    on_channel-Returns (HasSent k (msgs ++ mode_message mode ∷ []))
      (queue_write 0x6060 0x00 mode 0x01) m
      (enqueue-HasSent (plain_write 0x6060 0x00 mode 0x01) msgs m.channel h)

quiet :
    {k : SdoMode} (msgs : List CanMessage) (m : Motion)
    → HasSent k msgs m.channel
    → (m.mp ≡ m.mp) × HasSent k (msgs ++ []) m.channel
quiet {k} msgs m h = (refl, (h.0, h.1 ∙ sym (append-nil msgs)))

on_enter-Returns :
    {k : SdoMode} (s : MpState) (msgs : List CanMessage) (m : Motion)
    → HasSent k msgs m.channel
    → Returns (λ n. (n.mp ≡ m.mp) × HasSent k (msgs ++ enter_messages s) n.channel) (on_enter s m)
unfolding on_enter
on_enter-Returns {k} MpState.switch_mode_homing msgs m h = send_mode_switch-Returns 0x06 msgs m h
on_enter-Returns {k} MpState.switch_mode_pp msgs m h = send_mode_switch-Returns 0x01 msgs m h
on_enter-Returns {k} MpState.hh_homing msgs m h = send_control_word-Returns 0x3F msgs m h
on_enter-Returns {k} MpState.pp_sp_ack msgs m h = send_control_word-Returns 0x2F msgs m h
on_enter-Returns {k} _ msgs m h = quiet msgs m h

on_exit-Returns :
    {k : SdoMode} (s : MpState) (msgs : List CanMessage) (m : Motion)
    → HasSent k msgs m.channel
    → Returns (λ n. (n.mp ≡ m.mp) × HasSent k (msgs ++ exit_messages s) n.channel) (on_exit s m)
unfolding on_exit
on_exit-Returns {k} MpState.hh_homing msgs m h = send_control_word-Returns 0x2F msgs m h
on_exit-Returns {k} _ msgs m h = quiet msgs m h

-- What the machine is like after the event.
abbrev pub After : SdoMode → MpEvent → List CanMessage → Motion → Motion → Type 0
After k e msgs m n =
    (n.mp ≡ next_state_given_event m.mp e) × HasSent k (msgs ++ messages m.mp e) n.channel

messages_moved :
    (s : MpState) (e : MpEvent)
    → next_state_given_event s e ≢ s
    → messages s e ≡ exit_messages s ++ enter_messages (next_state_given_event s e)
unfolding machine
messages_moved s e other =
    elim (Bool-cases (mp_number s == mp_number (next_state_given_event s e))) [
      | inl same ↦
          absurd
            (other (sym (number_injective s (next_state_given_event s e) ((==_iff _ _).0 same))))
      | inr moved ↦ rw moved
    ]

stay :
    {k : SdoMode} (e : MpEvent) (m : Motion) (msgs : List CanMessage)
    → HasSent k msgs m.channel
    → next_state_given_event m.mp e ≡ m.mp
    → After k e msgs m m
stay {k} e m msgs h same = rw same (ground (arith, append-nil msgs))

move :
    {k : SdoMode} (e : MpEvent) (m : Motion) (msgs : List CanMessage)
    → HasSent k msgs m.channel
    → next_state_given_event m.mp e ≢ m.mp
    → Returns (After k e msgs m) (
        on_exit m.mp m >>= λ l.
        on_enter (next_state_given_event m.mp e) (record l { mp = next_state_given_event m.mp e }))
move {k} e m msgs h other =
    let n = next_state_given_event m.mp e in
    Returns-bind (λ l. (l.mp ≡ m.mp) × HasSent k (msgs ++ exit_messages m.mp) l.channel)
      (After k e msgs m) (on_exit m.mp m) _ (on_exit-Returns m.mp msgs m h)
      λ l hl.
        Returns-mono (on_enter n (record l { mp = n }))
          (on_enter-Returns n (msgs ++ exit_messages m.mp) (record l { mp = n }) hl.1)
          λ k hk. (
            hk.0,
            (
              hk.1.0,
              hk.1.1
                  ∙ append_assoc msgs (exit_messages m.mp) (enter_messages n)
                  ∙ ap (◌++◌ msgs) (sym (messages_moved m.mp e other)),
            ),
          )

-- The machine goes to the state that the table names, and the messages of the actions join those
-- that the SDO machine was given before, in order; it never faults and never ends the process.
pub handle_event-messages :
    {k : SdoMode} (e : MpEvent) (m : Motion) (msgs : List CanMessage)
    → HasSent k msgs m.channel
    → Returns (After k e msgs m) (handle_event e m)
unfolding handle_event
handle_event-messages {k} e m msgs h =
    handle_event-cases machine (Returns (After k e msgs m)) e m number_injective (stay e m msgs h)
      (move e m msgs h)
