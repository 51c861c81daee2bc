-- ===== src/Sled/Steps.antt =====
-- The events that the event loop delivers (libsled/interface.cc, libsled/sled.cc), and closing on
-- an error.
use sled_server.Common.{◌/◌, ◌≡◌, ◌≢◌, ◌⊎◌, inl, inr, refl, sym, ap, ◌∙◌, true, false, arith}
use sled_server.Common.Int.{Double, Fpu}
use sled_server.Common.Outcome.{Ensures, Ensures-mono}
use sled_server.Mp.{MpState}
use sled_server.Ds.{DsState}
use sled_server.Ds.Outputs.{is_active, is_enabled}
use sled_server.Mp.Outputs.{SdoMode, sdo_mode}
use sled_server.Net.{Network, NetEvent, NetState}
use sled_server.Net
use sled_server.Net.Coupling
use sled_server.Net.Coupling.{handle_event-IsSound, is_up, is_operational, is_live, allows}
use sled_server.Response.Soundness.{is_attached}
use sled_server.Sled.{
  Sled, IntfState, IntfEvent, Driver, CanResult, on_network, intf_close, handle_event,
}
use sled_server.Sled.Closing.{close_ignored, intf_close-opened, close_opened}
use sled_server.Sled.Loop.{Input, can_id, readable, watchdog, read_ok, read_result, on_read, step}
use sled_server.Sled.Soundness.{
  IsSound, is_open, same_parts, on_network-Ensures, IsAnswerable, dispatch_msg-IsSound,
  nmt_watchdog-IsSound,
}

closed_detaches :
    (n : NetState) → Net.next_state_given_event n NetEvent.intf_closed ≡ NetState.disabled
unfolding Net.next_state_given_event
closed_detaches n = ground arith

-- What is left when the interface is closed: the machines above the SDO machine are disabled, and
-- the SDO machine does not transmit.
pub record IsShut (s : Sled) : Type 0 where
  pub intf_shut : s.intf ≡ IntfState.closed
  pub network_shut : s.network.net ≡ NetState.disabled
  pub device_shut : s.network.drive.ds ≡ DsState.disabled
  pub motion_shut : s.network.drive.motion.mp ≡ MpState.disabled
  pub sdo_shut : sdo_mode s.network.drive.motion.channel.state ≢ SdoMode.on

up_disabled : (s : DsState) → is_up s ≡ false → s ≡ DsState.disabled
up_disabled s h = ground arith

active_disabled : (s : MpState) → is_active s ≡ false → s ≡ MpState.disabled
active_disabled s h = ground arith

not_allowed : (k : SdoMode) → allows false k ≡ true → k ≢ SdoMode.on
not_allowed k h = ground arith

shut_device :
    (n : Network)
    → n.net ≡ NetState.disabled
    → Coupling.IsSound n
    → (n.drive.ds ≡ DsState.disabled)
      × ((n.drive.motion.mp ≡ MpState.disabled)
          × (sdo_mode n.drive.motion.channel.state ≢ SdoMode.on))
shut_device n e v =
    let k = sdo_mode n.drive.motion.channel.state in
    let up : is_up n.drive.ds ≡ false = v.below.0 ∙ ap is_operational e in
    let d = up_disabled n.drive.ds up in
    let a : is_active n.drive.motion.mp ≡ false = v.below.1.0 ∙ ap is_enabled d in
    (
      d,
      (
        active_disabled n.drive.motion.mp a,
        not_allowed k (ap (λ b. allows (is_live b) k) (sym e) ∙ v.allowed),
      ),
    )

-- Telling the network machine that the interface is closed.
detach :
    (s : Sled)
    → s.intf ≡ IntfState.closed
    → Coupling.IsSound s.network
    → Ensures (λ t. IsSound t × IsShut t) (on_network (Net.handle_event NetEvent.intf_closed) s)
detach s c v =
    Ensures-mono
      {P = λ t. Coupling.After NetEvent.intf_closed s.network t.network × (t.intf ≡ s.intf)}
      (on_network (Net.handle_event NetEvent.intf_closed) s)
      (on_network-Ensures (Coupling.After NetEvent.intf_closed s.network)
        (Net.handle_event NetEvent.intf_closed) s
        (handle_event-IsSound NetEvent.intf_closed s.network v))
      λ t h.
        let e = h.0.0 ∙ closed_detaches s.network.net in
        let b = shut_device t.network e h.0.1 in
        (
          record {
            attached = ap is_attached e ∙ ap is_open (sym (h.1 ∙ c));
            settled = λ k. ground (arith, k, h.1, c);
            network_sound = h.0.1;
          },
          record {
            intf_shut = h.1 ∙ c;
            network_shut = e;
            device_shut = b.0;
            motion_shut = b.1.0;
            sdo_shut = b.1.1;
          },
        )

-- If the interface is open and its handle is given up, an error of the driver shuts everything
-- below the interface down.
pub intf_close-shuts :
    (d : Driver) (s : Sled)
    → IsSound s
    → s.intf ≡ IntfState.opened
    → (s.handle ≡ 0) ⊎ (d.can_close ≡ CanResult.err_ok)
    → Ensures (λ t. IsSound t × IsShut t) (intf_close (handle_event d) d s)
intf_close-shuts d s v o h =
    let (fd, e) = intf_close-opened d s o h in
    rw e (
      detach (record s { intf = IntfState.closed; handle = 0; fd = fd; read_event = false }) refl
        v.network_sound)

is_opened_or_not : (i : IntfState) → (i ≡ IntfState.opened) ⊎ (i ≢ IntfState.opened)
is_opened_or_not i = ground arith

close_event-IsSound :
    (d : Driver) (s : Sled)
    → IsSound s
    → s.handle ≡ 0
    → Ensures IsSound (handle_event d IntfEvent.close_it s)
close_event-IsSound d s v h = elim (is_opened_or_not s.intf) [
  | inl o ↦ rw (close_opened d s o h) (
      Ensures-mono {P = λ t. IsSound t × IsShut t} _
        (detach (record s { intf = IntfState.closed; read_event = false }) refl v.network_sound)
        λ t g. g.0)
  | inr o ↦ rw (close_ignored d s o) v
]

-- Whatever the driver answers.
intf_close-IsSound :
    (d : Driver) (s : Sled) → IsSound s → Ensures IsSound (intf_close (handle_event d) d s)
unfolding intf_close
intf_close-IsSound d s v = ground (
  arith,
  close_event-IsSound d (record s { read_event = false }) (same_parts s _ refl refl v),
  close_event-IsSound d (record s { read_event = false; handle = 0; fd = 0 })
      (same_parts s _ refl refl v) refl,
  same_parts s (record s { read_event = false }) refl refl v,
)

-- What the interface delivers, if it delivers a message, can be answered for.
abbrev pub IsAccepted : Input → Sled → Type 0
IsAccepted (readable d r) s = IsAnswerable (can_id r / 128) r.bytes s
IsAccepted watchdog s = Unit

-- Every event of the event loop in every sound state, with every answer of the driver and every
-- message but a response that nothing asked for, leads to a sound state or ends the process.
pub step-IsSound :
    (fpu : Fpu) (now : Double) (i : Input) (s : Sled)
    → IsSound s
    → IsAccepted i s
    → Ensures IsSound (step fpu now i s)
unfolding step on_read read_result read_ok
step-IsSound fpu now (readable d r) s v h =
    ground (arith, dispatch_msg-IsSound fpu now (can_id r) r.bytes s v h, intf_close-IsSound d s v)
step-IsSound fpu now watchdog s v h = nmt_watchdog-IsSound fpu now s v
