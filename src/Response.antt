-- ===== src/Response.antt =====
-- What libsled/interface.cc and libsled/machines/mch_sdo.cc do with a response to a service data
-- object. The callbacks reach the network machine and the profiles, hence the state is `Network`.
pub mod Soundness
use sled_server.Common.{
  ℕ, ◌+◌, ◌*◌, Bool, true, false, not, ◌&&◌, ◌||◌, ◌==◌, if◌then◌else◌, Option, none, some, List,
  [], ◌∷◌, get_elem?, set,
}
use sled_server.Common.Outcome.{Outcome, running, fault, ◌>>=◌}
use sled_server.Sdo.{
  Channel, SdoItem, SdoEvent, WriteCallback, no_write_callback, net_upload_complete,
  profile_written, call_abort,
}
use sled_server.Sdo
use sled_server.Profile.{Profile, written, set_field_state}
use sled_server.Net.{Network, NetEvent, on_sdo}
use sled_server.Net

-- The n-th of the eight data bytes of a received message.
abbrev pub byte_at : List ℕ → ℕ → ℕ
byte_at bytes n = elim (get_elem? bytes n) [ none ↦ 0 | some b ↦ b ]

-- on_success_callback of sled_profile.cc.
unfoldable pub field_written : ℕ → ℕ → Network → Network
field_written profile index n = elim (get_elem? n.profiles profile) [
  | none ↦ n
  | some p ↦ record n { profiles = set n.profiles profile (set_field_state index written p) }
]

unfoldable pub call_write : WriteCallback → ℕ → Network → Outcome Network
unfolding field_written
call_write no_write_callback index n = running n
call_write net_upload_complete index n = Net.handle_event NetEvent.upload_complete n
call_write (profile_written profile) index n = running (field_written profile index n)

-- The assertions that the three callbacks share.
unfoldable pub matches : ℕ → ℕ → SdoItem → Bool
matches index subindex sdo = sdo.index == index && sdo.subindex == subindex

unfoldable pub finish : SdoEvent → Network → Outcome Network
unfolding on_sdo
finish event = on_sdo (Sdo.finish_active event)

unfoldable pub assert : Bool → Network → Outcome Network
assert true n = running n
assert false n = fault

-- mch_sdo_read_callback; no item has a read callback.
unfoldable pub read_callback : ℕ → ℕ → Option SdoItem → Network → Outcome Network
unfolding matches finish assert
read_callback index subindex none n = fault
read_callback index subindex (some sdo) n =
    assert (not sdo.is_write && matches index subindex sdo) n >>= finish SdoEvent.read_response

-- mch_sdo_write_callback
unfoldable pub write_callback : ℕ → ℕ → Option SdoItem → Network → Outcome Network
unfolding matches finish assert call_write
write_callback index subindex none n = fault
write_callback index subindex (some sdo) n =
    assert (sdo.is_write && matches index subindex sdo) n
    >>= call_write sdo.write_callback index
    >>= finish SdoEvent.write_response

-- mch_sdo_abort_callback
unfoldable pub abort_callback : ℕ → ℕ → Option SdoItem → Network → Outcome Network
unfolding matches finish assert
abort_callback index subindex none n = fault
abort_callback index subindex (some sdo) n =
    assert (matches index subindex sdo) n
    >>= on_sdo (call_abort sdo.abort_callback)
    >>= finish SdoEvent.abort_response

-- The command byte of a response.
pub data Answer : Type 0 where
  write_answer read_answer abort_answer other_answer : Answer

unfoldable pub answer_kind : ℕ → Answer
answer_kind command =
    if command == 0x60
    then write_answer
    else if command == 0x43 || command == 0x47 || command == 0x4B || command == 0x4F
    then read_answer
    else if command == 0x80
    then abort_answer
    else other_answer

-- With no callback registered the interface only writes to the log.
unfoldable pub call_if : Bool → (Network → Outcome Network) → Network → Outcome Network
call_if true f n = f n
call_if false f n = running n

unfoldable pub dispatch_answer : Answer → ℕ → ℕ → Network → Outcome Network
unfolding call_if read_callback write_callback abort_callback
dispatch_answer write_answer index subindex n =
    let c = n.drive.motion.channel in
    call_if c.on_write (write_callback index subindex c.sdo_active) n
dispatch_answer read_answer index subindex n =
    let c = n.drive.motion.channel in
    call_if c.on_read (read_callback index subindex c.sdo_active) n
dispatch_answer abort_answer index subindex n =
    let c = n.drive.motion.channel in
    call_if c.on_abort (abort_callback index subindex c.sdo_active) n
dispatch_answer other_answer index subindex n = running n

-- The branch for function 0x0B of intf_dispatch_msg. (The value that it decodes reaches read
-- callbacks and the log only.)
unfoldable pub dispatch_sdo : List ℕ → Network → Outcome Network
unfolding answer_kind dispatch_answer
dispatch_sdo bytes n =
    let index = byte_at bytes 1 + byte_at bytes 2 * 256 in
    let subindex = byte_at bytes 3 in
    dispatch_answer (answer_kind (byte_at bytes 0)) index subindex n
