-- ===== src/Rtc3d/Dataframe.antt =====
-- librtc3d/rtc3d_dataframe.cc: the frame that carries one position, and how a client reads it.
use sled_server.Common.{
  ℕ, zero, suc, ◌+◌, ◌*◌, ◌/◌, ◌%◌, ◌<◌, ◌≡◌, refl, List, [], ◌∷◌, ◌++◌, length, arith,
}
use sled_server.Rtc3d.{htonl}

-- The bytes that htonll leaves in the memory of a little-endian host: the high word first.
unfoldable pub htonll : ℕ → List ℕ
unfolding htonl
htonll value = htonl (value / 4294967296) ++ htonl (value % 4294967296)

-- rtc3d_set_packet_header
unfoldable pub set_packet_header : ℕ → ℕ → List ℕ
unfolding htonl
set_packet_header size type = htonl size ++ htonl type

-- rtc3d_set_component_header
unfoldable pub set_component_header : ℕ → ℕ → ℕ → ℕ → List ℕ
unfolding htonl htonll
set_component_header size type frame time =
    htonl size ++ (htonl type ++ (htonl frame ++ htonll time))

-- rtc3d_set_marker, for the patterns of four floats; htonf turns the bytes of a pattern round.
unfoldable pub set_marker : ℕ → ℕ → ℕ → ℕ → List ℕ
unfolding htonl
set_marker x y z delta = htonl x ++ (htonl y ++ (htonl z ++ htonl delta))

-- rtc3d_send_data: the bytes that it hands to the network. `point` is the pattern of a float.
unfoldable pub send_data : ℕ → ℕ → ℕ → List ℕ
unfolding set_packet_header set_component_header set_marker
send_data frame time point =
    set_packet_header 52 3
    ++ (htonl 1 ++ (set_component_header 40 1 frame time ++ (htonl 1 ++ set_marker point 0 0 0)))

abbrev first_word : List ℕ → ℕ
first_word (a ∷ b ∷ c ∷ d ∷ rest) = a * 16777216 + b * 65536 + c * 256 + d
first_word _ = 0

-- The 32-bit number, the highest byte first, at an offset of a packet.
abbrev pub word_at : ℕ → List ℕ → ℕ
word_at zero bytes = first_word bytes
word_at (suc n) [] = 0
word_at (suc n) (b ∷ bytes) = word_at n bytes

digits :
    (n : ℕ)
    → n < 4294967296
    → n / 16777216 % 256 * 16777216 + n / 65536 % 256 * 65536 + n / 256 % 256 * 256 + n % 256 ≡ n
digits n h = omega arith

-- A frame has the 52 bytes that it announces, of which its one component is the last 40, and a
-- reader finds in it the frame's number (32 bits), the time (64 bits) and the position's pattern
-- (32 bits) that were sent.
pub send_data-read :
    (frame time point : ℕ)
    → frame < 4294967296
    → time < 18446744073709551616
    → point < 4294967296
    → (length (send_data frame time point) ≡ word_at 0 (send_data frame time point))
      × (word_at 12 (send_data frame time point) + 12 ≡ 52)
      × (word_at 20 (send_data frame time point) ≡ frame)
      × (word_at 24 (send_data frame time point) * 4294967296
            + word_at 28 (send_data frame time point)
          ≡ time)
      × (word_at 36 (send_data frame time point) ≡ point)
unfolding send_data htonll
send_data-read frame time point f t p = (
  refl,
  refl,
  digits frame f,
  omega (
    arith,
    digits (time / 4294967296) (omega (arith, t)),
    digits (time % 4294967296) (omega arith),
  ),
  digits point p,
)
