-- ===== src/Mp.antt =====
-- libsled/machines/mch_mp.cc: the motion profile machine, compiled as libsled/config.h leaves it
-- (DIRTY_SINUSOID is not defined). It can reach the SDO machine.
pub mod Outputs
pub mod Handshake
use sled_server.Common.{ℕ, Bool, true, false, ◌==◌, ◌&&◌, if◌then◌else◌}
use sled_server.Common.Outcome.{Outcome, running, ◌>>=◌}
use sled_server.Machine.{Machine}
use sled_server.Machine
use sled_server.Sdo.{Channel}
use sled_server.Sdo

pub data MpState : Type 0 where
  disabled : MpState
  switch_mode_homing hh_unknown hh_homing : MpState
  switch_mode_pp pp_idle pp_sp_nack pp_sp_ack : MpState
  switch_mode_ip ip_sinusoid ip_sinusoid_stop : MpState

pub data MpEvent : Type 0 where
  ds_operational ds_inoperational : MpEvent
  mode_homing mode_pp mode_ip : MpEvent
  homed not_homed : MpEvent
  setpoint_set setpoint_ack setpoint_nack target_reached : MpEvent
  sinusoid_start sinusoid_stop : MpEvent

pub record Motion : Type 0 where
  pub mp : MpState
  pub channel : Channel

unfoldable pub on_channel : (Channel → Outcome Channel) → Motion → Outcome Motion
on_channel f m = f m.channel >>= λ c. running (record m { channel = c })

-- The enumerators' numbers.
unfoldable pub mp_number : MpState → ℕ
mp_number MpState.disabled = 0
mp_number MpState.switch_mode_homing = 1
mp_number MpState.hh_unknown = 2
mp_number MpState.hh_homing = 3
mp_number MpState.switch_mode_pp = 4
mp_number MpState.pp_idle = 5
mp_number MpState.pp_sp_nack = 6
mp_number MpState.pp_sp_ack = 7
mp_number MpState.switch_mode_ip = 8
mp_number MpState.ip_sinusoid = 9
mp_number MpState.ip_sinusoid_stop = 10

-- `!x == y` in C is `(!x) == y`.
abbrev pub not_number : ℕ → ℕ
not_number n = if n == 0 then 1 else 0

abbrev is_ds_inoperational : MpEvent → Bool
is_ds_inoperational MpEvent.ds_inoperational = true
is_ds_inoperational _ = false

-- The `switch` of mch_mp_next_state_given_event.
unfoldable pub switch_state : MpState → MpEvent → MpState
switch_state MpState.disabled MpEvent.ds_operational = MpState.switch_mode_homing
switch_state MpState.switch_mode_homing MpEvent.mode_homing = MpState.hh_unknown
switch_state MpState.hh_unknown MpEvent.not_homed = MpState.hh_homing
switch_state MpState.hh_unknown MpEvent.homed = MpState.switch_mode_pp
switch_state MpState.switch_mode_pp MpEvent.mode_pp = MpState.pp_idle
switch_state MpState.hh_homing MpEvent.homed = MpState.switch_mode_pp
switch_state MpState.pp_idle MpEvent.setpoint_set = MpState.pp_sp_nack
switch_state MpState.pp_sp_nack MpEvent.setpoint_ack = MpState.pp_sp_ack
switch_state MpState.pp_sp_ack MpEvent.setpoint_nack = MpState.pp_idle
switch_state s _ = s

-- mch_mp_next_state_given_event
unfoldable pub next_state_given_event : MpState → MpEvent → MpState
unfolding mp_number switch_state
next_state_given_event s event =
    if not_number (mp_number s) == mp_number MpState.disabled && is_ds_inoperational event
    then MpState.disabled
    else switch_state s event

abbrev pub ob_control_word : ℕ
ob_control_word = 0x6040

-- mch_mp_send_mode_switch
unfoldable pub send_mode_switch : ℕ → Motion → Outcome Motion
unfolding on_channel
send_mode_switch mode = on_channel (Sdo.queue_write 0x6060 0x00 mode 0x01)

-- mch_mp_send_control_word
unfoldable pub send_control_word : ℕ → Motion → Outcome Motion
unfolding on_channel
send_control_word control_word = on_channel (Sdo.queue_write ob_control_word 0x00 control_word 0x02)

-- mch_mp_on_enter
unfoldable pub on_enter : MpState → Motion → Outcome Motion
unfolding send_mode_switch send_control_word
on_enter MpState.switch_mode_homing m = send_mode_switch 0x06 m
on_enter MpState.switch_mode_pp m = send_mode_switch 0x01 m
on_enter MpState.hh_homing m = send_control_word 0x3F m
on_enter MpState.pp_sp_ack m = send_control_word 0x2F m
on_enter _ m = running m

-- mch_mp_on_exit
unfoldable pub on_exit : MpState → Motion → Outcome Motion
unfolding send_control_word
on_exit MpState.hh_homing m = send_control_word 0x2F m
on_exit _ m = running m

unfoldable pub machine : Machine MpState MpEvent Motion
unfolding mp_number next_state_given_event on_enter on_exit
machine = record {
  number = mp_number;
  state = λ m. m.mp;
  set_state = λ s m. record m { mp = s };
  next_state_given_event = next_state_given_event;
  on_exit = λ m. on_exit m.mp m;
  on_enter = λ m. on_enter m.mp m;
}

-- mch_mp_handle_event
unfoldable pub handle_event : MpEvent → Motion → Outcome Motion
unfolding machine Machine.handle_event
handle_event event m = Machine.handle_event machine event m
