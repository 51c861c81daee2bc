-- ===== src/Can.antt =====
-- CAN messages as libsled/interface.cc builds them. A byte is a number below 256.
use sled_server.Common.{ℕ, ◌+◌, ◌-◌, ◌*◌, ◌/◌, ◌%◌, List, [], ◌∷◌}

-- can_message_t
pub record CanMessage : Type 0 where
  pub id : ℕ
  pub kind : ℕ
  pub len : ℕ
  pub payload : List ℕ

abbrev pub mt_standard : ℕ
mt_standard = 0x00

abbrev pub nmt_enterpreoperational : ℕ
nmt_enterpreoperational = 0x80

abbrev pub nmt_startremotenode : ℕ
nmt_startremotenode = 0x01

-- The message that intf_send_nmt_command writes.
unfoldable pub nmt_message : ℕ → CanMessage
nmt_message command = record {
  id = 0;
  kind = mt_standard;
  len = 2;
  payload = command ∷ 1 ∷ 0 ∷ 0 ∷ 0 ∷ 0 ∷ 0 ∷ 0 ∷ [];
}

-- The message that intf_send_read_req writes, for a 16-bit index and an 8-bit subindex.
unfoldable pub read_req_message : ℕ → ℕ → CanMessage
read_req_message index subindex = record {
  id = 0x0C * 128 + 1;
  kind = mt_standard;
  len = 8;
  payload = 0x40 ∷ index % 256 ∷ index / 256 % 256 ∷ subindex ∷ 0 ∷ 0 ∷ 0 ∷ 0 ∷ [];
}

-- The message that intf_send_write_req writes: the command byte tells the size, and the 32-bit
-- value stands in four bytes, the lowest first. `0x2F - ((size - 1) * 4)` wraps at 256.
unfoldable pub write_req_message : ℕ → ℕ → ℕ → ℕ → CanMessage
write_req_message index subindex value size = record {
  id = 0x0C * 128 + 1;
  kind = mt_standard;
  len = 8;
  payload =
      (0x2F + 4 + 1024 - size * 4) % 256
      ∷ index % 256
      ∷ index / 256 % 256
      ∷ subindex
      ∷ value % 256
      ∷ value / 256 % 256
      ∷ value / 65536 % 256
      ∷ value / 16777216 % 256
      ∷ [];
}
