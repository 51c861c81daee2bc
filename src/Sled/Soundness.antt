-- ===== src/Sled/Soundness.antt =====
-- The invariant of the whole of libsled, and the callbacks of the interface in libsled/sled.cc.
use sled_server.Common.{
  ℕ, ◌+◌, ◌/◌, ◌%◌, ◌-◌, ◌*◌, ◌≡◌, ◌≢◌, ◌⊎◌, inl, inr, refl, sym, ap, ◌∙◌, Bool, true, false, ◌==◌,
  if◌then◌else◌, List, arith, Bool-cases,
}
use sled_server.Common.Int.{Double, Fpu}
use sled_server.Common.Outcome.{
  Outcome, running, Ensures, Returns, Ensures-bind, Ensures-mono, Ensures-of_Returns,
}
use sled_server.Mp.Outputs.{SdoMode, sdo_mode}
use sled_server.Ds.{Drive}
use sled_server.Net.{Network, NetEvent, NetState, on_drive}
use sled_server.Net
use sled_server.Net.Coupling
use sled_server.Net.Coupling.{handle_event-IsSound, on_drive-Ensures, is_operational}
use sled_server.Response.{byte_at, answer_kind, dispatch_sdo}
use sled_server.Response.Soundness.{
  is_attached, is_external, attached_kept, Kept-IsSound, expected, is_registered,
  dispatch_answer-IsSound,
}
use sled_server.Sled.Status.{on_tpdo1-Returns}
use sled_server.Sled.{
  Sled, IntfState, on_network, on_nmt, nmt_watchdog, on_tpdo, on_tpdo1, dispatch_msg,
}

abbrev pub is_open : IntfState → Bool
is_open IntfState.opened = true
is_open _ = false

-- The network machine is on exactly while the interface is open, and what is below it is in order.
pub record IsSound (s : Sled) : Type 0 where
  pub attached : is_attached s.network.net ≡ is_open s.intf
  pub settled : s.intf ≢ IntfState.closing
  pub network_sound : Coupling.IsSound s.network

pub on_network-Ensures :
    (P : Network → Type 0) (f : Network → Outcome Network) (s : Sled)
    → Ensures P (f s.network)
    → Ensures (λ t. P t.network × (t.intf ≡ s.intf)) (on_network f s)
unfolding on_network
on_network-Ensures P f s h =
    Ensures-bind P (λ t. P t.network × (t.intf ≡ s.intf)) (f s.network) _ h λ n hn. (hn, refl)

-- A handler of the network machine keeps the whole sound where it keeps the network sound and does
-- not switch the network machine on or off.
pub on_network-IsSound :
    (f : Network → Outcome Network) (s : Sled)
    → IsSound s
    → Ensures
        (λ n. (is_attached n.net ≡ is_attached s.network.net) × Coupling.IsSound n)
        (f s.network)
    → Ensures IsSound (on_network f s)
on_network-IsSound f s v h =
    Ensures-mono (on_network f s)
      (on_network-Ensures
        (λ n. (is_attached n.net ≡ is_attached s.network.net) × Coupling.IsSound n) f s h)
      λ t g. record {
        attached = g.0.0 ∙ v.attached ∙ ap is_open (sym g.1);
        settled = λ c. v.settled (sym g.1 ∙ c);
        network_sound = g.0.1;
      }

-- Every event from the drive or the watchdog, in every sound state of the whole.
network_event-IsSound :
    (e : NetEvent) (s : Sled)
    → is_external e ≡ true
    → IsSound s
    → Ensures IsSound (on_network (Net.handle_event e) s)
network_event-IsSound e s x v = on_network-IsSound (Net.handle_event e) s v (
    Ensures-mono {P = Coupling.After e s.network} (Net.handle_event e s.network)
      (handle_event-IsSound e s.network v.network_sound)
      λ n h. (ap is_attached h.0 ∙ attached_kept s.network.net e x, h.1))

-- What is sound is the interface machine and the network; the rest is free.
pub same_parts : (s t : Sled) → t.intf ≡ s.intf → t.network ≡ s.network → IsSound s → IsSound t
same_parts s t i n v = record {
  attached = ap (λ m. is_attached m.net) n ∙ v.attached ∙ ap is_open (sym i);
  settled = λ c. v.settled (sym i ∙ c);
  network_sound = rw n v.network_sound;
}

-- The state that a heartbeat reports.
on_state : ℕ → Sled → Outcome Sled
on_state state s =
    if state == 0x04
    then on_network (Net.handle_event NetEvent.stopped) s
    else if state == 0x05
    then on_network (Net.handle_event NetEvent.operational) s
    else if state == 0x7F
    then on_network (Net.handle_event NetEvent.preoperational) s
    else running s

on_state-IsSound : (state : ℕ) (s : Sled) → IsSound s → Ensures IsSound (on_state state s)
unfolding on_state
on_state-IsSound state s v = ground (
  arith,
  network_event-IsSound NetEvent.stopped s refl v,
  network_event-IsSound NetEvent.operational s refl v,
  network_event-IsSound NetEvent.preoperational s refl v,
)

pub on_nmt-IsSound :
    (now : Double) (state : ℕ) (s : Sled) → IsSound s → Ensures IsSound (on_nmt now state s)
unfolding on_nmt on_state
on_nmt-IsSound now state s v =
    Ensures-bind IsSound IsSound (on_state state s) _ (on_state-IsSound state s v)
      λ t h. same_parts t (record t { time_last_nmt_msg = now }) refl refl h

pub nmt_watchdog-IsSound :
    (fpu : Fpu) (now : Double) (s : Sled) → IsSound s → Ensures IsSound (nmt_watchdog fpu now s)
unfolding nmt_watchdog
nmt_watchdog-IsSound fpu now s v =
    elim (Bool-cases (fpu.gt (fpu.sub now s.time_last_nmt_msg) (fpu.literal 2))) [
      | inl late ↦ rw late (
          network_event-IsSound NetEvent.watchdog_failed (record s { message_written = true }) refl
            (same_parts s _ refl refl v))
      | inr fresh ↦ rw fresh (same_parts s _ refl refl v)
    ]

-- A handler of the drive below the network machine.
pub drive_step-IsSound :
    (f : Drive → Outcome Drive) (s : Sled)
    → ((up : Bool) (k : SdoMode) (d : Drive)
        → Coupling.Below up k d
        → Returns (Coupling.Below up k) (f d))
    → IsSound s
    → Ensures IsSound (on_network (on_drive f) s)
drive_step-IsSound f s keep v =
    let n = s.network in
    let up = is_operational n.net in
    let k = sdo_mode n.drive.motion.channel.state in
    on_network-IsSound (on_drive f) s v (
      Ensures-mono {P = Coupling.Kept up k n} (on_drive f n)
        (on_drive-Ensures (Coupling.Below up k) f n (
          Ensures-of_Returns (Coupling.Below up k) (f n.drive)
            (keep up k n.drive v.network_sound.below)))
        λ m h. (ap is_attached h.0, Kept-IsSound k n m h v.network_sound.allowed))

on_tpdo-IsSound :
    (fpu : Fpu) (now : Double) (pdo : ℕ) (bytes : List ℕ) (s : Sled)
    → IsSound s
    → Ensures IsSound (on_tpdo fpu now pdo bytes s)
unfolding on_tpdo
on_tpdo-IsSound fpu now pdo bytes s v =
    let status = byte_at bytes 1 * 256 + byte_at bytes 0 in
    elim (Bool-cases (pdo == 1)) [
      | inl first ↦ rw first (
          drive_step-IsSound (on_tpdo1 status (byte_at bytes 2)) s
            (λ up k d b. on_tpdo1-Returns status (byte_at bytes 2) d b) v)
      | inr other ↦ ground (arith, other, v, same_parts s)
    ]

-- The answer, if the message is one, is expected or has no callback registered.
abbrev pub IsAnswerable : ℕ → List ℕ → Sled → Type 0
IsAnswerable function bytes s =
    let c = s.network.drive.motion.channel in
    let a = answer_kind (byte_at bytes 0) in
    function ≡ 0x0B
    → (is_registered a c ≡ false)
      ⊎ (expected a (byte_at bytes 1 + byte_at bytes 2 * 256) (byte_at bytes 3) c.sdo_active ≡ true)

answer-IsSound :
    (bytes : List ℕ) (s : Sled)
    → IsSound s
    → IsAnswerable 0x0B bytes s
    → Ensures IsSound (on_network (dispatch_sdo bytes) s)
unfolding dispatch_sdo
answer-IsSound bytes s v h = on_network-IsSound (dispatch_sdo bytes) s v (
    dispatch_answer-IsSound (answer_kind (byte_at bytes 0))
      (byte_at bytes 1 + byte_at bytes 2 * 256) (byte_at bytes 3) s.network v.network_sound
      (h refl))

-- Every message that the interface can deliver, where a response is one that the program can
-- answer for, leaves the whole sound or ends the process.
pub dispatch_msg-IsSound :
    (fpu : Fpu) (now : Double) (id : ℕ) (bytes : List ℕ) (s : Sled)
    → IsSound s
    → IsAnswerable (id / 128) bytes s
    → Ensures IsSound (dispatch_msg fpu now id bytes s)
unfolding dispatch_msg
dispatch_msg-IsSound fpu now id bytes s v h = ground (
  arith,
  on_tpdo-IsSound fpu now ((id / 128 - 1) / 2) bytes s v,
  on_nmt-IsSound now (byte_at bytes 0 % 128) s v,
  answer-IsSound bytes s v,
)
