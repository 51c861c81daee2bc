-- ===== src/Net.antt =====
-- libsled/machines/mch_net.cc: the network management machine. Through the callbacks that
-- libsled/sled.cc registers it switches the SDO machine and the device machine.
pub mod Channels
pub mod Coupling
use sled_server.Common.{ℕ, Bool, true, false, List, [], ◌∷◌}
use sled_server.Common.Outcome.{Outcome, running, ◌>>=◌}
use sled_server.Machine.{Machine}
use sled_server.Machine
use sled_server.Can.{nmt_enterpreoperational, nmt_startremotenode}
use sled_server.Sdo.{
  Channel, SdoEvent, SdoItem, WriteCallback, no_write_callback, net_upload_complete,
  net_upload_failed, intf_send_nmt_command,
}
use sled_server.Sdo
use sled_server.Mp.{on_channel}
use sled_server.Ds.{Drive, DsEvent, on_motion}
use sled_server.Ds
use sled_server.Profile.{Profile, profiles_reset}

pub data NetEvent : Type 0 where
  intf_opened intf_closed : NetEvent
  upload_complete upload_failed : NetEvent
  stopped operational preoperational : NetEvent
  watchdog_failed : NetEvent

pub data NetState : Type 0 where
  disabled : NetState
  unknown stopped preoperational operational : NetState
  enterpreoperational uploadconfig startremotenode : NetState

pub record Network : Type 0 where
  pub net : NetState
  pub drive : Drive
  pub profiles : List Profile

unfoldable pub on_drive : (Drive → Outcome Drive) → Network → Outcome Network
on_drive f n = f n.drive >>= λ d. running (record n { drive = d })

unfoldable pub on_sdo : (Channel → Outcome Channel) → Network → Outcome Network
unfolding on_drive on_motion on_channel
on_sdo f = on_drive (on_motion (on_channel f))

-- The enumerators' numbers.
unfoldable pub net_number : NetState → ℕ
net_number NetState.disabled = 0
net_number NetState.unknown = 1
net_number NetState.stopped = 2
net_number NetState.preoperational = 3
net_number NetState.operational = 4
net_number NetState.enterpreoperational = 5
net_number NetState.uploadconfig = 6
net_number NetState.startremotenode = 7

-- The arguments of ENQUEUE.
entry : WriteCallback → ℕ → ℕ → ℕ → ℕ → SdoItem
entry final index subindex value size = record {
  is_write = true;
  index = index;
  subindex = subindex;
  value = value;
  size = size;
  abort_callback = net_upload_failed;
  write_callback = final;
}

-- The calls of ENQUEUE in mch_net_queue_setup, in order.
unfoldable pub setup_items : List SdoItem
unfolding entry
setup_items =
    entry no_write_callback 0x1A00 0x00 0x00 0x01
    ∷ entry no_write_callback 0x1A00 0x01 0x60410010 0x04
    ∷ entry no_write_callback 0x1A00 0x02 0x60610008 0x04
    ∷ entry no_write_callback 0x1A00 0x00 0x02 0x01
    ∷ entry no_write_callback 0x1800 0x01 0x40000181 0x04
    ∷ entry no_write_callback 0x1800 0x02 0xFF 0x01
    ∷ entry no_write_callback 0x1800 0x03 0x0A 0x02
    ∷ entry no_write_callback 0x1800 0x05 0x0A 0x02
    ∷ entry no_write_callback 0x1A01 0x00 0x00 0x01
    ∷ entry no_write_callback 0x1A01 0x01 0x60640020 0x04
    ∷ entry no_write_callback 0x1A01 0x02 0x606C0020 0x04
    ∷ entry no_write_callback 0x1A01 0x00 0x02 0x01
    ∷ entry no_write_callback 0x1801 0x01 0x40000281 0x04
    ∷ entry no_write_callback 0x1801 0x02 0xFF 0x01
    ∷ entry no_write_callback 0x1801 0x03 0x0A 0x02
    ∷ entry no_write_callback 0x1801 0x05 0x0A 0x02
    ∷ entry no_write_callback 0x1601 0x00 0x00 0x01
    ∷ entry no_write_callback 0x1601 0x01 0x60C10120 0x04
    ∷ entry no_write_callback 0x1601 0x00 0x01 0x01
    ∷ entry no_write_callback 0x1401 0x02 0x01 0x01
    ∷ entry no_write_callback 0x1A02 0x00 0x00 0x01
    ∷ entry no_write_callback 0x1802 0x01 0x40000381 0x04
    ∷ entry no_write_callback 0x1A03 0x00 0x00 0x01
    ∷ entry net_upload_complete 0x1803 0x01 0x40000481 0x04
    ∷ []

unfoldable pub enqueue_all : List SdoItem → Channel → Outcome Channel
enqueue_all [] c = running c
enqueue_all (sdo ∷ rest) c = Sdo.enqueue sdo c >>= enqueue_all rest

-- mch_net_queue_setup
unfoldable pub queue_setup : Channel → Outcome Channel
unfolding enqueue_all setup_items
queue_setup = enqueue_all setup_items

-- mch_net_next_state_given_event
unfoldable pub next_state_given_event : NetState → NetEvent → NetState
next_state_given_event NetState.disabled NetEvent.intf_opened = NetState.unknown
next_state_given_event NetState.unknown NetEvent.stopped = NetState.stopped
next_state_given_event NetState.unknown NetEvent.preoperational = NetState.preoperational
next_state_given_event NetState.unknown NetEvent.operational = NetState.enterpreoperational
next_state_given_event NetState.unknown NetEvent.intf_closed = NetState.disabled
next_state_given_event NetState.stopped NetEvent.intf_closed = NetState.disabled
next_state_given_event NetState.preoperational NetEvent.intf_closed = NetState.disabled
next_state_given_event NetState.preoperational NetEvent.upload_complete = NetState.startremotenode
next_state_given_event NetState.preoperational NetEvent.stopped = NetState.unknown
next_state_given_event NetState.preoperational NetEvent.watchdog_failed = NetState.unknown
next_state_given_event NetState.operational NetEvent.intf_closed = NetState.disabled
next_state_given_event NetState.operational NetEvent.stopped = NetState.unknown
next_state_given_event NetState.operational NetEvent.preoperational = NetState.unknown
next_state_given_event NetState.operational NetEvent.watchdog_failed = NetState.unknown
next_state_given_event NetState.uploadconfig NetEvent.intf_closed = NetState.disabled
next_state_given_event NetState.uploadconfig NetEvent.upload_complete = NetState.startremotenode
next_state_given_event NetState.startremotenode NetEvent.intf_closed = NetState.disabled
next_state_given_event NetState.startremotenode NetEvent.operational = NetState.operational
next_state_given_event NetState.enterpreoperational NetEvent.intf_closed = NetState.disabled
next_state_given_event NetState.enterpreoperational NetEvent.preoperational =
    NetState.preoperational
next_state_given_event s _ = s

-- mch_net_on_sdos_enabled and mch_net_on_sdos_disabled of sled.cc.
unfoldable pub sdos_enabled : Network → Outcome Network
unfolding on_sdo
sdos_enabled = on_sdo (Sdo.handle_event SdoEvent.net_sdo_enabled)

unfoldable pub sdos_disabled : Network → Outcome Network
unfolding on_sdo
sdos_disabled = on_sdo (Sdo.handle_event SdoEvent.net_sdo_disabled)

unfoldable pub send_nmt : ℕ → Network → Outcome Network
unfolding on_sdo intf_send_nmt_command
send_nmt command = on_sdo λ c. running (intf_send_nmt_command command c)

-- mch_net_on_enter_operational of sled.cc.
unfoldable pub enter_operational : Network → Outcome Network
unfolding on_drive
enter_operational n =
    on_drive (Ds.handle_event DsEvent.net_operational)
      (record n { profiles = profiles_reset n.profiles })

-- mch_net_on_leave_operational of sled.cc.
unfoldable pub leave_operational : Network → Outcome Network
unfolding on_drive
leave_operational = on_drive (Ds.handle_event DsEvent.net_inoperational)

-- mch_net_on_enter. The case of ST_NET_STOPPED has no `break` and goes on with the next one.
unfoldable pub on_enter : NetState → Network → Outcome Network
unfolding sdos_enabled sdos_disabled send_nmt enter_operational queue_setup
on_enter NetState.disabled n = sdos_disabled n
on_enter NetState.unknown n = sdos_disabled n >>= send_nmt nmt_enterpreoperational
on_enter NetState.stopped n = sdos_disabled n >>= send_nmt nmt_startremotenode
on_enter NetState.startremotenode n = send_nmt nmt_startremotenode n
on_enter NetState.enterpreoperational n = send_nmt nmt_enterpreoperational n
on_enter NetState.uploadconfig n = on_sdo queue_setup n
on_enter NetState.operational n = sdos_enabled n >>= enter_operational
on_enter NetState.preoperational n = sdos_enabled n >>= on_sdo queue_setup

-- mch_net_on_exit
unfoldable pub on_exit : NetState → Network → Outcome Network
unfolding leave_operational
on_exit NetState.operational n = leave_operational n
on_exit _ n = running n

unfoldable pub machine : Machine NetState NetEvent Network
unfolding net_number next_state_given_event on_enter on_exit
machine = record {
  number = net_number;
  state = λ n. n.net;
  set_state = λ s n. record n { net = s };
  next_state_given_event = next_state_given_event;
  on_exit = λ n. on_exit n.net n;
  on_enter = λ n. on_enter n.net n;
}

-- mch_net_handle_event
unfoldable pub handle_event : NetEvent → Network → Outcome Network
unfolding machine Machine.handle_event
handle_event event n = Machine.handle_event machine event n
