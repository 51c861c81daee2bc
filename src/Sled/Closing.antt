-- ===== src/Sled/Closing.antt =====
-- Opening and closing the CAN interface (libsled/machines/mch_intf.cc, libsled/interface.cc).
use sled_server.Common.{
  ℕ, suc, ◌≡◌, ◌≢◌, ◌⊎◌, refl, Bool, true, false, not, ◌&&◌, ◌==◌, if◌then◌else◌, arith,
}
use sled_server.Common.Outcome.{running, Returns, Returns-mono}
use sled_server.Net.{Network, NetEvent, NetState}
use sled_server.Net
use sled_server.Sled.{
  Sled, IntfState, IntfEvent, Driver, CanResult, is_ready, on_network, intf_close, handle_event,
  handle_rounds,
}

-- With no handle left, the event CLOSE takes an open interface machine all the way to CLOSED, and
-- the network machine is told.
pub close_opened :
    (d : Driver) (s : Sled)
    → s.intf ≡ IntfState.opened
    → s.handle ≡ 0
    → handle_event d IntfEvent.close_it s
      ≡ on_network
          (Net.handle_event NetEvent.intf_closed)
          (record s { intf = IntfState.closed; read_event = false })
unfolding handle_event
close_opened d s o h = ground arith

-- In every other state the event CLOSE is ignored.
pub close_ignored :
    (d : Driver) (s : Sled)
    → s.intf ≢ IntfState.opened
    → handle_event d IntfEvent.close_it s ≡ running s
unfolding handle_event
close_ignored d s o = ground arith

-- intf_close on an open interface whose handle CAN_Close gives up.
pub intf_close-opened :
    (d : Driver) (s : Sled)
    → s.intf ≡ IntfState.opened
    → (s.handle ≡ 0) ⊎ (d.can_close ≡ CanResult.err_ok)
    → (fd : ℕ) × (intf_close (handle_event d) d s
        ≡ on_network
            (Net.handle_event NetEvent.intf_closed)
            (record s { intf = IntfState.closed; handle = 0; fd = fd; read_event = false }))
unfolding intf_close
intf_close-opened d s o h = (
  if s.handle == 0 then s.fd else 0,
  ground (
    arith,
    h,
    close_opened d (record s { read_event = false }) o,
    close_opened d (record s { handle = 0; fd = 0; read_event = false }) o refl,
  ),
)

-- Two rounds are enough for every event in every state.
pub intf_rounds_enough :
    (n : ℕ) (d : Driver) (e : IntfEvent) (s : Sled)
    → handle_rounds (suc (suc n)) d e s ≡ handle_event d e s
unfolding handle_event
intf_rounds_enough n d e s = ground arith

opening_ignores :
    (d : Driver) (e : IntfEvent) (t : Sled)
    → t.intf ≡ IntfState.opening
    → e ≢ IntfEvent.is_opened
    → handle_event d e t ≡ running t
unfolding handle_event
opening_ignores d e t o n = ground arith

-- What intf_open needs of the system and of the driver.
abbrev pub opens : Driver → Bool
opens d = d.device_exists && d.is_character_device && not (d.can_open == 0) && is_ready d.can_init

pub open_fails :
    (d : Driver) (s : Sled)
    → s.intf ≡ IntfState.closed
    → s.handle ≡ 0
    → opens d ≡ false
    → Returns
        (λ t. (t.intf ≡ IntfState.opening) × (t.network ≡ s.network))
        (handle_event d IntfEvent.open_it s)
unfolding handle_event
open_fails d s c h x = ground arith

-- If the interface cannot be opened, for any of the reasons that intf_open tests, the interface
-- machine ends in OPENING with the network machine as it was; and there a later event, unless it is
-- OPENED, is ignored, that of the failure, a second OPEN and a CLOSE included.
pub open_failure_stuck :
    (d later : Driver) (e : IntfEvent) (s : Sled)
    → s.intf ≡ IntfState.closed
    → s.handle ≡ 0
    → opens d ≡ false
    → e ≢ IntfEvent.is_opened
    → Returns
        (λ t.
          (t.intf ≡ IntfState.opening)
          × ((t.network ≡ s.network) × (handle_event later e t ≡ running t)))
        (handle_event d IntfEvent.open_it s)
open_failure_stuck d later e s c h x n =
    Returns-mono (handle_event d IntfEvent.open_it s) (open_fails d s c h x)
      λ t ht. (ht.0, (ht.1, opening_ignores later e t ht.0 n))

-- If it can be opened, the interface machine ends in OPENED, the handle and the read event are
-- set, and the network machine is told.
pub open_success :
    (d : Driver) (s : Sled)
    → s.intf ≡ IntfState.closed
    → s.handle ≡ 0
    → opens d ≡ true
    → handle_event d IntfEvent.open_it s
      ≡ on_network (Net.handle_event NetEvent.intf_opened) (record s {
        intf = IntfState.opened;
        handle = d.can_open;
        fd = d.can_file_handle;
        read_event = true;
      })
unfolding handle_event
open_success d s c h x = ground arith
