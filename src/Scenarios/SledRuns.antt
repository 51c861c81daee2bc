-- ===== src/Scenarios/SledRuns.antt =====
-- The whole of libsled, from sled_create to an error of the CAN driver.
use sled_server.Common.{◌≡◌, ◌≢◌, refl, inr, true, false, some, [], ◌∷◌, arith}
use sled_server.Common.Int.{pos}
use sled_server.Common.Outcome.{overflow, Outcome, running, fault, Returns, Ensures}
use sled_server.Scenarios.ProfileRuns.{fpu}
use sled_server.Sdo
use sled_server.Sdo.{create, SdoState, SdoItem, net_upload_failed, no_write_callback}
use sled_server.Mp.{MpState}
use sled_server.Mp.Outputs.{SdoMode}
use sled_server.Ds.{Drive, DsState}
use sled_server.Net.{Network, NetState, NetEvent}
use sled_server.Net
use sled_server.Net.Coupling
use sled_server.Net.Coupling.{handle_event-IsSound}
use sled_server.Response.{write_answer, dispatch_answer, matches}
use sled_server.Response.Soundness.{IsSoundAt, dispatch_answer-IsSound}
use sled_server.Sled.{
  Sled, IntfState, IntfEvent, Driver, CanResult, intf_close, handle_event, dispatch_msg,
}
use sled_server.Sled.Closing.{open_failure_stuck}
use sled_server.Sled.Loop.{Input, readable, step}
use sled_server.Sled.Soundness.{IsSound}
use sled_server.Sled.Steps.{IsShut, intf_close-shuts}
use sled_server.Sled.Reach.{assembled, Reaches, Reaches-IsSound, Reaches-no_fault}

abbrev pub driver : Driver
driver = record {
  device_exists = true;
  is_character_device = true;
  can_open = 5;
  can_init = CanResult.err_ok;
  can_file_handle = 7;
  can_close = CanResult.err_ok;
}

abbrev no_device : Driver
no_device = record driver { device_exists = false }

-- The state that a handler returns in.
abbrev value : Outcome Sled → Sled → Sled
value (running s) t = s
value _ t = t

abbrev item : SdoItem
item = record {
  is_write = true;
  index = 0x1800;
  subindex = 0x01;
  value = 0x181;
  size = 0x04;
  abort_callback = net_upload_failed;
  write_callback = no_write_callback;
}

-- A network whose first configuration item is on its way.
abbrev pub network : Network
network = record {
  net = NetState.uploadconfig;
  drive = record {
    ds = DsState.disabled;
    motion = record {
      mp = MpState.disabled;
      channel = record create {
        state = SdoState.sending;
        sdo_active = some item;
        on_write = true;
        on_abort = true;
      };
    };
  };
  profiles = [];
}

-- Fresh memory, which may hold anything.
abbrev pub memory : Sled
memory = record {
  intf = IntfState.closing;
  handle = 9;
  fd = 9;
  read_event = true;
  network = network;
  last_time = 1;
  last_position = 2;
  last_velocity = 3;
  time_last_nmt_msg = 4;
  message_written = true;
}

abbrev created : Sled
created = assembled memory 0 []

abbrev opened : Sled
opened = value (handle_event driver IntfEvent.open_it created) created

-- The heartbeat of an operational drive, which is first told to become preoperational.
abbrev heartbeat : Input
heartbeat =
    readable driver (record {
      result = CanResult.err_ok;
      kind = 0;
      id = 0x701;
      bytes = 0x05 ∷ [];
      status = pos 0;
    })

abbrev after_heartbeat : Sled
after_heartbeat = value (step fpu 3 heartbeat opened) created

opened-Reaches : Reaches fpu opened
unfolding handle_event assembled Net.handle_event Sdo.handle_event
opened-Reaches = Reaches.start driver memory 0 [] opened refl

after_heartbeat-Reaches : Reaches fpu after_heartbeat
unfolding handle_event assembled step Net.handle_event Sdo.handle_event dispatch_msg
after_heartbeat-Reaches =
    Reaches.next 3 heartbeat opened after_heartbeat opened-Reaches (λ e. cc) refl

after_heartbeat_net : after_heartbeat.network.net ≡ NetState.enterpreoperational
unfolding handle_event assembled step Net.handle_event Sdo.handle_event dispatch_msg
after_heartbeat_net = refl

Reaches-IsSound_example : IsSound after_heartbeat
Reaches-IsSound_example = Reaches-IsSound fpu after_heartbeat after_heartbeat-Reaches

Reaches-no_fault_example :
    (step fpu 4 heartbeat after_heartbeat ≢ fault)
    × (step fpu 4 heartbeat after_heartbeat ≢ overflow)
Reaches-no_fault_example =
    Reaches-no_fault fpu 4 heartbeat after_heartbeat after_heartbeat-Reaches (λ e. cc)

handle_event-IsSound_example :
    Ensures
      (Coupling.After NetEvent.operational opened.network)
      (Net.handle_event NetEvent.operational opened.network)
handle_event-IsSound_example =
    handle_event-IsSound NetEvent.operational opened.network
      (Reaches-IsSound fpu opened opened-Reaches).network_sound

opened_intf : opened.intf ≡ IntfState.opened
unfolding handle_event assembled Net.handle_event Sdo.handle_event
opened_intf = refl

intf_close-shuts_example :
    Ensures (λ t. IsSound t × IsShut t) (intf_close (handle_event driver) driver opened)
intf_close-shuts_example =
    intf_close-shuts driver opened (Reaches-IsSound fpu opened opened-Reaches) opened_intf
      (inr refl)

created_closed : (created.intf ≡ IntfState.closed) × (created.handle ≡ 0)
unfolding assembled
created_closed = (refl, refl)

open_failure_stuck_example :
    Returns
      (λ t.
        (t.intf ≡ IntfState.opening)
        × ((t.network ≡ created.network) × (handle_event driver IntfEvent.open_it t ≡ running t)))
      (handle_event no_device IntfEvent.open_it created)
open_failure_stuck_example =
    open_failure_stuck no_device driver IntfEvent.open_it created created_closed.0 created_closed.1
      refl (ground arith)

abbrev drive : Drive
drive = record {
  ds = DsState.unknown;
  motion = record { mp = MpState.disabled; channel = record create { state = SdoState.waiting } };
}

drive_Below : Coupling.Below true SdoMode.on drive
unfolding create
drive_Below = (refl, (refl, (ground arith, refl)))

network_IsSound : Coupling.IsSound network
unfolding create
network_IsSound = record { below = (refl, (refl, (ground arith, refl))); allowed = refl }

dispatch_answer-IsSound_example :
    Ensures (IsSoundAt true) (dispatch_answer write_answer 0x1800 0x01 network)
unfolding matches
dispatch_answer-IsSound_example =
    dispatch_answer-IsSound write_answer 0x1800 0x01 network network_IsSound (inr refl)
