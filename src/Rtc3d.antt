-- ===== src/Rtc3d.antt =====
-- librtc3d/rtc3d.cc: how the bytes of a client become commands. A `Connection` is
-- rtc3d_connection_t; its machine integers keep their widths, and the host is little-endian.
pub mod Memory
pub mod Framing
pub mod Stream
pub mod Sizes
pub mod Dataframe
pub mod Setup
use sled_server.Common.{
  ℕ, ◌+◌, ◌-◌, ◌*◌, ◌/◌, ◌%◌, ◌^◌, Bool, true, false, ◌==◌, if◌then◌else◌, List, [], ◌∷◌, ◌++◌,
  length,
}
use sled_server.Common.Outcome.{Outcome, running, fault, ◌>>=◌}
use sled_server.Rtc3d.Memory.{Buffer, empty, allocated, read_cell, write_cell, c_string}

pub record Connection : Type 0 where
  pub size_left : ℕ
  pub size : ℕ
  pub data_left : ℕ
  pub buffer : Buffer

-- The system and the program above: the sizes that `malloc` grants, the command handler, which
-- acts on the state `U` of the program, and whether the connection is still in memory in that state.
pub record Host (U : Type 0) : Type 0 where
  pub grants : ℕ → Bool
  pub command : List ℕ → U → Outcome U
  pub is_connected : U → Bool

-- The bytes that `htonl` leaves in memory.
unfoldable pub htonl : ℕ → List ℕ
htonl n = n / 16777216 % 256 ∷ n / 65536 % 256 ∷ n / 256 % 256 ∷ n % 256 ∷ []

-- What rtc3d_send_command and rtc3d_send_error hand to the network.
unfoldable pub send_command : List ℕ → List ℕ
unfolding htonl
send_command command = htonl (8 + length command) ++ (htonl 1 ++ command)

unfoldable pub send_error : List ℕ → List ℕ
unfolding htonl
send_error error = htonl (8 + length error) ++ (htonl 0 ++ error)

-- connect_handler, as far as it concerns the connection
abbrev pub connected : Connection
connected = record { size_left = 4; size = 0; data_left = 0; buffer = empty }

-- One byte of a little-endian number.
unfoldable pub set_byte : ℕ → ℕ → ℕ → ℕ
set_byte k b n = n - n / 256 ^ k % 256 * 256 ^ k + b * 256 ^ k

-- get_uint32
unfoldable pub get_uint32 : Buffer → ℕ → Outcome ℕ
get_uint32 block offset = read_cell block offset >>= λ a. read_cell block (offset + 1) >>= λ b.
    read_cell block (offset + 2) >>= λ c.
    read_cell block (offset + 3) >>= λ d. running (a * 16777216 + b * 65536 + c * 256 + d)

-- malloc; a null pointer has no cell that can be used.
unfoldable pub malloc : {U : Type 0} → Host U → ℕ → Buffer
malloc host n = if host.grants n then allocated n else empty

-- packet_handler. Only a command acts on anything.
unfoldable pub packet_handler : {U : Type 0} → Host U → Connection → U → Outcome U
unfolding get_uint32
packet_handler host c u = get_uint32 c.buffer 0 >>= λ kind.
    if kind == 1
    then (write_cell c.buffer c.size 0 >>= λ block.
        c_string block 4 >>= λ text. host.command text u)
    else running u

-- The last byte of the payload: the packet is handled and the buffer is given back. The connection is
-- used again for that, which is undefined behaviour if the command has released it.
unfoldable pub complete : {U : Type 0} → Host U → Connection → U → Outcome (Connection × U)
unfolding packet_handler
complete host c u = packet_handler host c u >>= λ v.
    if host.is_connected v
    then running (record { size_left = 4; size = 0; data_left = 0; buffer = empty }, v)
    else fault

-- One byte of the size. With the last one the payload's size is known.
unfoldable pub header_byte : {U : Type 0} → Host U → ℕ → Connection → Connection
unfolding set_byte malloc
header_byte host b c =
    let size = set_byte (c.size_left - 1) b c.size in
    let payload = (size + 4294967292) % 4294967296 in
    if c.size_left - 1 == 0
    then record {
      size_left = 0;
      size = payload;
      data_left = payload % 256;
      buffer = malloc host ((payload + 1) % 4294967296);
    }
    else record c { size_left = c.size_left - 1; size = size }

unfoldable pub payload_byte : {U : Type 0} → Host U → ℕ → Connection → U → Outcome (Connection × U)
unfolding complete
payload_byte host b c u = write_cell c.buffer (c.size - c.data_left) b >>= λ block.
    let d = record c { data_left = c.data_left - 1; buffer = block } in
    if c.data_left - 1 == 0 then complete host d u else running (d, u)

-- The body of the loop of read_handler
unfoldable pub read_byte : {U : Type 0} → Host U → ℕ → Connection → U → Outcome (Connection × U)
unfolding header_byte payload_byte
read_byte host b c u =
    if c.size_left == 0
    then (if c.data_left == 0 then running (c, u) else payload_byte host b c u)
    else running (header_byte host b c, u)

-- read_handler
unfoldable pub read_handler :
    {U : Type 0} → Host U → List ℕ → Connection → U → Outcome (Connection × U)
unfolding read_byte
read_handler host [] c u = running (c, u)
read_handler host (b ∷ bytes) c u = read_byte host b c u >>= λ r. read_handler host bytes r.0 r.1
