-- ===== src/Rtc3d/Framing.antt =====
-- One packet through the framing of librtc3d/rtc3d.cc.
use sled_server.Common.{
  ℕ, suc, ◌+◌, ◌-◌, ◌*◌, ◌/◌, ◌%◌, ◌<◌, ◌≡◌, sym, ap, ◌∙◌, true, List, [], ◌∷◌, ◌++◌, length,
  length-append, arith,
}
use mathlib.Core.List.{append_assoc}
use sled_server.Common.Outcome.{running, ◌>>=◌}
use sled_server.Rtc3d.Memory.{
  read_cell, write_cell, c_string, Holds, Holds-append, stored, is_text, string_from-Holds,
}
use sled_server.Rtc3d.{
  Connection, Host, connected, htonl, set_byte, malloc, get_uint32, packet_handler, complete,
  payload_byte, read_byte, read_handler,
}

-- The size of the payload that a size field announces, in 32 bits.
abbrev pub payload_size : ℕ → ℕ
payload_size announced = (announced + 4294967292) % 4294967296

-- The connection after a whole size field.
abbrev pub announced_connection : {U : Type 0} → Host U → ℕ → Connection
announced_connection host announced = record {
  size_left = 0;
  size = payload_size announced;
  data_left = payload_size announced % 256;
  buffer = malloc host ((payload_size announced + 1) % 4294967296);
}

set_bytes :
    (a b c d : ℕ)
    → a < 256
    → b < 256
    → c < 256
    → set_byte 0 d (set_byte 1 c (set_byte 2 b (set_byte 3 a 0)))
      ≡ a * 16777216 + b * 65536 + c * 256 + d
unfolding set_byte
set_bytes a b c d x y z = omega arith

htonl_digits :
    (n : ℕ)
    → n < 4294967296
    → n / 16777216 % 256 * 16777216 + n / 65536 % 256 * 65536 + n / 256 % 256 * 256 + n % 256 ≡ n
htonl_digits n h = omega arith

-- Any size field, on a fresh connection.
pub header_read :
    {U : Type 0}
    → (host : Host U) (n : ℕ) (rest : List ℕ) (u : U) → n < 4294967296
    → read_handler host (htonl n ++ rest) connected u
      ≡ read_handler host rest (announced_connection host n) u
unfolding read_handler htonl
header_read host n rest u h =
    let e =
      set_bytes (n / 16777216 % 256) (n / 65536 % 256) (n / 256 % 256) (n % 256) (omega arith)
        (omega arith) (omega arith)
      ∙ htonl_digits n h in
    ap (λ size. read_handler host rest (announced_connection host size) u) e

-- A connection with a payload under way: so much of it is in the buffer, and so much is still to
-- come.
pub record IsLoading (c : Connection) (got : List ℕ) (missing : ℕ) : Type 0 where
  pub header_done : c.size_left ≡ 0
  pub due : c.data_left ≡ missing
  pub whole : c.size ≡ length got + missing
  pub room : c.size < c.buffer.capacity
  pub contents : Holds c.buffer.cell 0 got

abbrev stored_byte : ℕ → Connection → Connection
stored_byte b c = record c {
  data_left = c.data_left - 1;
  buffer = record (c.buffer) { cell = stored c.buffer.cell (c.size - c.data_left) b };
}

stored-IsLoading :
    (b n : ℕ) (got : List ℕ) (c : Connection)
    → IsLoading c got (suc n)
    → IsLoading (stored_byte b c) (got ++ b ∷ []) n
stored-IsLoading b n got c l = record {
  header_done = l.header_done;
  due = omega (arith, l.due);
  whole = omega (arith, l.whole, length-append got (b ∷ []));
  room = l.room;
  contents =
      Holds-append c.buffer.cell 0 (c.size - c.data_left) b got (omega (arith, l.whole, l.due))
        l.contents;
}

last_step :
    {U : Type 0}
    → (host : Host U) (b : ℕ) (got : List ℕ) (c : Connection) (u : U) → IsLoading c got 1
    → read_byte host b c u ≡ complete host (stored_byte b c) u
unfolding read_byte payload_byte write_cell
last_step host b got c u l = ground (arith, l.header_done, l.due, l.whole, l.room)

next_step :
    {U : Type 0}
    → (host : Host U) (b n : ℕ) (got : List ℕ) (c : Connection) (u : U)
    → IsLoading c got (suc (suc n))
    → read_byte host b c u ≡ running (stored_byte b c, u)
unfolding read_byte payload_byte write_cell
next_step host b n got c u l = ground (arith, l.header_done, l.due, l.whole, l.room)

-- The rest of a payload fills the buffer, and with its last byte the packet is handled.
pub payload_read :
    {U : Type 0}
    → (host : Host U) (b : ℕ) (bytes got rest : List ℕ) (c : Connection) (u : U)
    → IsLoading c got (suc (length bytes))
    → (d : Connection) × (IsLoading d (got ++ b ∷ bytes) 0
        × (read_handler host (b ∷ bytes ++ rest) c u
            ≡ complete host d u >>= λ r. read_handler host rest r.0 r.1))
unfolding read_handler
payload_read host b [] got rest c u l = (
  stored_byte b c,
  (
    stored-IsLoading b 0 got c l,
    ap (λ o. o >>= λ r. read_handler host rest r.0 r.1) (last_step host b got c u l),
  ),
)
payload_read host b (x ∷ bytes) got rest c u l =
    let (d, (ld, e)) =
      payload_read host x bytes (got ++ b ∷ []) rest (stored_byte b c) u
        (stored-IsLoading b (suc (length bytes)) got c l) in
    (
      d,
      (
        rw (sym (append_assoc got (b ∷ []) (x ∷ bytes))) ld,
        ap (λ o. o >>= λ r. read_handler host (x ∷ bytes ++ rest) r.0 r.1)
              (next_step host b (length bytes) got c u l)
            ∙ e,
      ),
    )

-- A command packet in the buffer reaches the command handler as the text it is.
pub packet_command :
    {U : Type 0}
    → (host : Host U) (text : List ℕ) (c : Connection) (u : U) → is_text text ≡ true
    → IsLoading c (htonl 1 ++ text) 0
    → packet_handler host c u ≡ host.command text u
unfolding packet_handler get_uint32 read_cell write_cell c_string htonl
packet_command host text c u t l =
    let ended =
      Holds-append c.buffer.cell 0 c.size 0 (htonl 1 ++ text) (omega (arith, l.whole)) l.contents in
    let full = record (c.buffer) { cell = stored c.buffer.cell c.size 0 } in
    let s =
      string_from-Holds c.buffer.capacity 4 full text t (omega (arith, l.whole, l.room))
        (omega (arith, l.whole, l.room)) ended.1.1.1.1 in
    ground (
      arith, s, l.room, l.whole, l.contents.0, l.contents.1.0, l.contents.1.1.0, l.contents.1.1.1.0,
    )
