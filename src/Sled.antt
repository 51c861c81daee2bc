-- ===== src/Sled.antt =====
-- libsled/sled.cc, libsled/machines/mch_intf.cc and the parts of libsled/interface.cc that open and
-- close the CAN interface and hand its messages on. A `Sled` is sled_t with intf_t and the five
-- machines.
pub mod Loop
pub mod Soundness
pub mod Closing
pub mod Status
pub mod Steps
pub mod Reach
pub mod Tables
pub mod Interface
use sled_server.Common.{
  ℕ, zero, suc, ◌+◌, ◌-◌, ◌*◌, ◌/◌, ◌%◌, Bool, true, false, not, ◌&&◌, ◌||◌, ◌==◌, if◌then◌else◌,
  List, [], ◌∷◌, ◌++◌, bit_and,
}
use sled_server.Common.Int.{ℤ, Double, Fpu}
use sled_server.Common.Outcome.{Outcome, running, fault, ◌>>=◌}
use sled_server.Machine.{Machine}
use sled_server.Machine
use sled_server.Mp.{MpEvent}
use sled_server.Mp.Handshake
use sled_server.Ds.{DsEvent, Drive, on_motion}
use sled_server.Ds.Transitions
use sled_server.Net.{Network, NetEvent, on_drive}
use sled_server.Net
use sled_server.Response.{byte_at, dispatch_sdo}

pub data IntfState : Type 0 where
  closed opened opening closing : IntfState

pub data IntfEvent : Type 0 where
  open_it close_it is_opened is_closed : IntfEvent

pub record Sled : Type 0 where
  pub intf : IntfState
  pub handle : ℕ
  pub fd : ℕ
  pub read_event : Bool
  pub network : Network
  pub last_time : Double
  pub last_position : Double
  pub last_velocity : Double
  pub time_last_nmt_msg : Double
  pub message_written : Bool

-- A result of the CAN driver: CAN_ERR_OK, CAN_ERR_QRCVEMPTY, or another.
pub data CanResult : Type 0 where
  err_ok err_qrcvempty err_other : CanResult

-- What the system and the CAN driver answer while one call of the program runs.
pub record Driver : Type 0 where
  pub device_exists : Bool
  pub is_character_device : Bool
  pub can_open : ℕ
  pub can_init : CanResult
  pub can_file_handle : ℕ
  pub can_close : CanResult

unfoldable pub on_network : (Network → Outcome Network) → Sled → Outcome Sled
on_network f s = f s.network >>= λ n. running (record s { network = n })

-- The enumerators' numbers.
unfoldable pub intf_number : IntfState → ℕ
intf_number IntfState.closed = 0
intf_number IntfState.opened = 1
intf_number IntfState.opening = 2
intf_number IntfState.closing = 3

-- mch_intf_next_state_given_event
unfoldable pub next_state_given_event : IntfState → IntfEvent → IntfState
next_state_given_event IntfState.closed IntfEvent.open_it = IntfState.opening
next_state_given_event IntfState.opening IntfEvent.is_opened = IntfState.opened
next_state_given_event IntfState.closing IntfEvent.is_closed = IntfState.closed
next_state_given_event IntfState.opened IntfEvent.close_it = IntfState.closing
next_state_given_event s _ = s

abbrev pub is_ok : CanResult → Bool
is_ok CanResult.err_ok = true
is_ok _ = false

abbrev pub is_ready : CanResult → Bool
is_ready CanResult.err_other = false
is_ready _ = true

-- intf_close, whose return value no caller reads. The close handler is intf_on_close of sled.cc,
-- which tells the interface machine; it is not called where CAN_Close fails.
unfoldable pub intf_close : (IntfEvent → Sled → Outcome Sled) → Driver → Sled → Outcome Sled
intf_close handle d s =
    let s1 = record s { read_event = false } in
    if s1.handle == 0
    then handle IntfEvent.close_it s1
    else if is_ok d.can_close
    then handle IntfEvent.close_it (record s1 { handle = 0; fd = 0 })
    else running s1

-- intf_open; the flag is true where it returns 0.
unfoldable pub intf_open : (IntfEvent → Sled → Outcome Sled) → Driver → Sled → Outcome (Sled × Bool)
unfolding intf_close
intf_open handle d s =
    if not (s.handle == 0)
    then running (s, true)
    else if not d.device_exists
    then running (s, false)
    else if not d.is_character_device
    then running (s, false)
    else if d.can_open == 0
    then running (record s { handle = 0 }, false)
    else if is_ready d.can_init
    then running (record s { handle = d.can_open; fd = d.can_file_handle; read_event = true }, true)
    else intf_close handle d (record s { handle = d.can_open }) >>= λ t. running (t, false)

-- mch_intf_on_enter, with mch_intf_on_opened and mch_intf_on_closed of sled.cc.
unfoldable pub on_enter :
    (IntfEvent → Sled → Outcome Sled) → Driver → IntfState → Sled → Outcome Sled
unfolding intf_open intf_close on_network
on_enter handle d IntfState.opening s = intf_open handle d s >>= λ r.
    handle (if r.1 then IntfEvent.is_opened else IntfEvent.is_closed) r.0
on_enter handle d IntfState.closing s = intf_close handle d s >>= handle IntfEvent.is_closed
on_enter handle d IntfState.opened s = on_network (Net.handle_event NetEvent.intf_opened) s
on_enter handle d IntfState.closed s = on_network (Net.handle_event NetEvent.intf_closed) s

unfoldable pub machine :
    (IntfEvent → Sled → Outcome Sled) → Driver → Machine IntfState IntfEvent Sled
unfolding intf_number next_state_given_event on_enter
machine handle d = record {
  number = intf_number;
  state = λ s. s.intf;
  set_state = λ i s. record s { intf = i };
  next_state_given_event = next_state_given_event;
  on_exit = λ s. running s;
  on_enter = λ s. on_enter handle d s.intf s;
}

-- Entering OPENING or CLOSING handles further events, so the machine is given rounds; two are
-- enough for every event (Sled.Closing).
unfoldable pub handle_rounds : ℕ → Driver → IntfEvent → Sled → Outcome Sled
unfolding machine Machine.handle_event
handle_rounds zero d event s = fault
handle_rounds (suc n) d event s = Machine.handle_event (machine (handle_rounds n d) d) event s

abbrev pub rounds : ℕ
rounds = 2

-- mch_intf_handle_event
unfoldable pub handle_event : Driver → IntfEvent → Sled → Outcome Sled
unfolding handle_rounds
handle_event d event s = handle_rounds rounds d event s

-- intf_on_nmt
unfoldable pub on_nmt : Double → ℕ → Sled → Outcome Sled
unfolding on_network
on_nmt now state s =
    (if state == 0x04
      then on_network (Net.handle_event NetEvent.stopped) s
      else if state == 0x05
      then on_network (Net.handle_event NetEvent.operational) s
      else if state == 0x7F
      then on_network (Net.handle_event NetEvent.preoperational) s
      else running s)
    >>= λ t. running (record t { time_last_nmt_msg = now })

abbrev pub when {ℓ} : {A : Type ℓ} → Bool → A → List A
when true a = a ∷ []
when false a = []

-- The device state that a status word reports.
unfoldable pub state_events : ℕ → List DsEvent
state_events status =
    when (bit_and status 0x4F == 0x40) DsEvent.not_ready_to_switch_on
    ++ (when (bit_and status 0x6F == 0x21) DsEvent.ready_to_switch_on
        ++ (when (bit_and status 0x6F == 0x23) DsEvent.switched_on
            ++ (when (bit_and status 0x6F == 0x27) DsEvent.operation_enabled
                ++ (when (bit_and status 0x4F == 0x08) DsEvent.fault
                    ++ (when (bit_and status 0x4F == 0x0F) DsEvent.fault_reaction_active
                        ++ when (bit_and status 0x6F == 0x07) DsEvent.quick_stop_active)))))

unfoldable pub voltage_event : ℕ → DsEvent
voltage_event status =
    if bit_and status 0x10 == 0x10 then DsEvent.voltage_enabled else DsEvent.voltage_disabled

-- What a status word and a mode report to the motion profile machine.
unfoldable pub motion_events : ℕ → ℕ → List MpEvent
motion_events status mode =
    when (bit_and status 0x400 == 0x400) MpEvent.target_reached
    ++ ((if mode == 0x01
          then MpEvent.mode_pp
            ∷ (if bit_and status 0x1000 == 0x1000
                then MpEvent.setpoint_ack
                else MpEvent.setpoint_nack)
            ∷ []
          else [])
        ++ ((if mode == 0x06
              then MpEvent.mode_homing
                ∷ (if bit_and status 0x1000 == 0x1000 then MpEvent.homed else MpEvent.not_homed)
                ∷ []
              else [])
            ++ when (mode == 0x07) MpEvent.mode_ip))

-- The first process data object: the events of the status word, one handled after the other.
unfoldable pub on_tpdo1 : ℕ → ℕ → Drive → Outcome Drive
unfolding state_events voltage_event motion_events on_motion Transitions.run Handshake.run
on_tpdo1 status mode d =
    Transitions.run (state_events status ++ voltage_event status ∷ []) d
    >>= on_motion (Handshake.run (motion_events status mode))

-- Four bytes, the lowest first, as the pattern of an int32_t.
unfoldable pub int32_at : List ℕ → ℕ → ℕ
int32_at bytes n =
    byte_at bytes (n + 3) * 16777216
    + byte_at bytes (n + 2) * 65536
    + byte_at bytes (n + 1) * 256
    + byte_at bytes n

-- intf_on_tpdo
unfoldable pub on_tpdo : Fpu → Double → ℕ → List ℕ → Sled → Outcome Sled
unfolding on_tpdo1 int32_at on_network on_drive
on_tpdo fpu now pdo bytes s =
    if pdo == 1
    then on_network
        (on_drive (on_tpdo1 (byte_at bytes 1 * 256 + byte_at bytes 0) (byte_at bytes 2))) s
    else if pdo == 2
    then running (record s {
      last_time = now;
      last_position =
          fpu.div (fpu.div (fpu.of_int32 (int32_at bytes 0)) (fpu.literal 1000)) (fpu.literal 1000);
      last_velocity =
          fpu.div (fpu.div (fpu.of_int32 (int32_at bytes 4)) (fpu.literal 1000)) (fpu.literal 1000);
    })
    else running s

-- nmt_watchdog
unfoldable pub nmt_watchdog : Fpu → Double → Sled → Outcome Sled
unfolding on_network
nmt_watchdog fpu now s =
    if fpu.gt (fpu.sub now s.time_last_nmt_msg) (fpu.literal 2)
    then on_network (Net.handle_event NetEvent.watchdog_failed)
        (record s { message_written = true })
    else running (record s { message_written = false })

-- intf_dispatch_msg: the branch is chosen by the function code, which is the identifier without
-- its low seven bits. Emergency messages are only logged.
unfoldable pub dispatch_msg : Fpu → Double → ℕ → List ℕ → Sled → Outcome Sled
unfolding on_tpdo on_nmt dispatch_sdo on_network
dispatch_msg fpu now id bytes s =
    let function = id / 128 in
    if function == 0x03 || function == 0x05 || function == 0x07 || function == 0x09
    then on_tpdo fpu now ((function - 1) / 2) bytes s
    else if function == 0x0E
    then on_nmt now (byte_at bytes 0 % 128) s
    else if function == 0x0B
    then on_network (dispatch_sdo bytes) s
    else running s
