-- ===== src/Sled/Reach.antt =====
-- The states of libsled after sled_create (libsled/sled.cc).
use sled_server.Common.{
  ◌≡◌, ◌≢◌, refl, sym, ap, ◌∙◌, true, false, List, arith, Bool-cases, inl, inr,
}
use sled_server.Common.Int.{Double, Fpu}
use sled_server.Common.Outcome.{
  overflow, running, fault, Ensures, Ensures-mono, Returns-mono, Ensures-of_Returns,
  Ensures-running, Ensures-no_fault,
}
use sled_server.Sdo.{create}
use sled_server.Sdo.Invariant.{create-IsValid}
use sled_server.Mp.{MpState}
use sled_server.Ds.{DsState}
use sled_server.Net.{NetState, NetEvent, Network}
use sled_server.Net
use sled_server.Net.Coupling
use sled_server.Net.Coupling.{handle_event-IsSound}
use sled_server.Response.Soundness.{is_attached}
use sled_server.Profile.{Profile}
use sled_server.Sled.{Sled, IntfState, IntfEvent, Driver, on_network, handle_event}
use sled_server.Sled.Closing.{opens, open_success, open_fails}
use sled_server.Sled.Loop.{Input, step}
use sled_server.Sled.Soundness.{IsSound, on_network-Ensures, is_open}
use sled_server.Sled.Steps.{IsAccepted, step-IsSound}

-- What sled_create has made when it opens the interface, given what malloc returned, the time that
-- it writes and its profiles: intf_create with setup_state_machines. It leaves the last position
-- and velocity, their time, and `message_written` as they were in the memory.
unfoldable pub assembled : Sled → Double → List Profile → Sled
unfolding create
assembled memory time profiles = record memory {
  intf = IntfState.closed;
  handle = 0;
  fd = 0;
  read_event = false;
  network = record {
    net = NetState.disabled;
    drive = record {
      ds = DsState.disabled;
      motion = record { mp = MpState.disabled; channel = create };
    };
    profiles = profiles;
  };
  time_last_nmt_msg = time;
}

-- The states that the program is in between two calls of the event loop.
pub data Reaches (fpu : Fpu) : Sled → Type 0 where
  start :
      (d : Driver) (memory : Sled) (time : Double) (profiles : List Profile) (s : Sled)
      → handle_event d IntfEvent.open_it (assembled memory time profiles) ≡ running s
      → Reaches fpu s
  next :
      (now : Double) (i : Input) (s t : Sled)
      → Reaches fpu s
      → IsAccepted i s
      → step fpu now i s ≡ running t
      → Reaches fpu t

assembled-IsSound :
    (memory : Sled) (time : Double) (profiles : List Profile)
    → Coupling.IsSound (assembled memory time profiles).network
unfolding assembled
assembled-IsSound memory time profiles = record {
  below = (refl, (refl, (create-IsValid, refl)));
  allowed = refl;
}

opened_attaches :
    (n : NetState)
    → is_attached n ≡ false
    → is_attached (Net.next_state_given_event n NetEvent.intf_opened) ≡ true
unfolding Net.next_state_given_event
opened_attaches n h = ground arith

-- The interface has opened.
attach :
    (s : Sled)
    → s.intf ≡ IntfState.opened
    → is_attached s.network.net ≡ false
    → Coupling.IsSound s.network
    → Ensures IsSound (on_network (Net.handle_event NetEvent.intf_opened) s)
attach s o c v =
    Ensures-mono
      {P = λ t. Coupling.After NetEvent.intf_opened s.network t.network × (t.intf ≡ s.intf)}
      (on_network (Net.handle_event NetEvent.intf_opened) s)
      (on_network-Ensures (Coupling.After NetEvent.intf_opened s.network)
        (Net.handle_event NetEvent.intf_opened) s
        (handle_event-IsSound NetEvent.intf_opened s.network v))
      λ t h. record {
        attached =
            ap is_attached h.0.0 ∙ opened_attaches s.network.net c ∙ ap is_open (sym (h.1 ∙ o));
        settled = ground (arith, h.1, o);
        network_sound = h.0.1;
      }

pub start-IsSound :
    (d : Driver) (memory : Sled) (time : Double) (profiles : List Profile)
    → Ensures IsSound (handle_event d IntfEvent.open_it (assembled memory time profiles))
unfolding assembled
start-IsSound d memory time profiles =
    let s = assembled memory time profiles in
    elim (Bool-cases (opens d)) [
      | inl ok ↦ rw (open_success d s refl refl ok) (
          attach
            (record s {
              intf = IntfState.opened;
              handle = d.can_open;
              fd = d.can_file_handle;
              read_event = true;
            })
            refl refl (assembled-IsSound memory time profiles))
      | inr bad ↦ Ensures-of_Returns IsSound _ (
          Returns-mono {P = λ t. (t.intf ≡ IntfState.opening) × (t.network ≡ s.network)}
            (handle_event d IntfEvent.open_it s) (open_fails d s refl refl bad)
            λ t h. record {
              attached = ap (λ n. is_attached n.net) h.1 ∙ ap is_open (sym h.0);
              settled = ground (arith, h.0);
              network_sound = rw h.1 (assembled-IsSound memory time profiles);
            })
    ]

-- Every state that the program reaches is sound, as long as no response reaches it that nothing
-- asked for: the network machine is on exactly while the interface is open, the device machine
-- exactly while the network is operational, the motion profile machine exactly while operation is
-- enabled, and the SDO machine transmits only where the network allows it.
pub Reaches-IsSound : (fpu : Fpu) (s : Sled) → Reaches fpu s → IsSound s
Reaches-IsSound fpu s (Reaches.start d memory time profiles _ e) =
    Ensures-running IsSound _ s (start-IsSound d memory time profiles) e
Reaches-IsSound fpu t (Reaches.next now i s _ r a e) =
    Ensures-running IsSound _ t (step-IsSound fpu now i s (Reaches-IsSound fpu s r) a) e

-- In a state that the program reaches, no event that the event loop delivers, unless it is a
-- response that nothing asked for, runs into an assertion or into undefined behaviour.
pub Reaches-no_fault :
    (fpu : Fpu) (now : Double) (i : Input) (s : Sled)
    → Reaches fpu s
    → IsAccepted i s
    → (step fpu now i s ≢ fault) × (step fpu now i s ≢ overflow)
Reaches-no_fault fpu now i s r a =
    Ensures-no_fault IsSound (step fpu now i s)
      (step-IsSound fpu now i s (Reaches-IsSound fpu s r) a)
