-- ===== src/Sled/Loop.antt =====
-- What the event loop calls in libsled: intf_on_read of libsled/interface.cc and the watchdog of
-- libsled/sled.cc.
use sled_server.Common.{ℕ, Bool, ◌==◌, ◌%◌, if◌then◌else◌, List, bit_and}
use sled_server.Common.Int.{ℤ, is_nonneg, Double, Fpu}
use sled_server.Common.Outcome.{Outcome, running}
use sled_server.Sled.{Sled, Driver, CanResult, intf_close, handle_event, dispatch_msg, nmt_watchdog}

-- What LINUX_CAN_Read and CAN_Status give.
pub record Reading : Type 0 where
  pub result : CanResult
  pub kind : ℕ
  pub id : ℕ
  pub bytes : List ℕ
  pub status : ℤ

-- The test `MSGTYPE & MSGTYPE_STATUS == MSGTYPE_STATUS`, which C reads as `MSGTYPE & 1`.
unfoldable pub is_status : ℕ → Bool
is_status kind = bit_and kind 1 == 1

-- The identifier is a DWORD, which a uint16_t takes.
abbrev pub can_id : Reading → ℕ
can_id r = r.id % 65536

unfoldable pub read_ok : Fpu → Double → Driver → Reading → Sled → Outcome Sled
unfolding is_status
read_ok fpu now d r s =
    if is_status r.kind
    then if is_nonneg r.status then running s else intf_close (handle_event d) d s
    else dispatch_msg fpu now (can_id r) r.bytes s

unfoldable pub read_result : Fpu → Double → Driver → Reading → CanResult → Sled → Outcome Sled
unfolding read_ok
read_result fpu now d r CanResult.err_ok s = read_ok fpu now d r s
read_result fpu now d r CanResult.err_qrcvempty s = running s
read_result fpu now d r CanResult.err_other s = intf_close (handle_event d) d s

-- intf_on_read
unfoldable pub on_read : Fpu → Double → Driver → Reading → Sled → Outcome Sled
unfolding read_result
on_read fpu now d r s = if s.fd == 0 then running s else read_result fpu now d r r.result s

-- The two events that the event loop delivers.
pub data Input : Type 0 where
  readable : Driver → Reading → Input
  watchdog : Input

unfoldable pub step : Fpu → Double → Input → Sled → Outcome Sled
unfolding on_read
step fpu now (readable d r) s = on_read fpu now d r s
step fpu now watchdog s = nmt_watchdog fpu now s
