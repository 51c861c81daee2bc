-- ===== src/Scenarios/Rtc3dRuns.antt =====
-- Packets of a client of librtc3d/rtc3d.cc.
use sled_server.Common.{ℕ, ◌≡◌, refl, inr, true, List, [], ◌∷◌, ◌++◌, arith}
use sled_server.Common.Outcome.{running, fault}
use sled_server.Rtc3d.{Host, connected, htonl, read_handler}
use sled_server.Rtc3d.Framing.{announced_connection}
use sled_server.Common.{length, ◌+◌, ◌*◌}
use sled_server.Rtc3d.Dataframe.{send_data, word_at, send_data-read}
use sled_server.Rtc3d.Stream
use sled_server.Rtc3d.{send_command}
use sled_server.Rtc3d.Stream.{read_chunks, run_commands, stream_read}
use sled_server.Rtc3d.Sizes.{multiple_deafens, size_faults}

-- A program that keeps its commands.
abbrev recorder : Host (List (List ℕ))
recorder = record {
  grants = λ n. true;
  command = λ text u. running (u ++ text ∷ []);
  is_connected = λ u. true;
}

-- "Version 1.0" and "Bye", cut in the middle of a size and of a text.
abbrev version : List ℕ
version = 86 ∷ 101 ∷ 114 ∷ 115 ∷ 105 ∷ 111 ∷ 110 ∷ 32 ∷ 49 ∷ 46 ∷ 48 ∷ []

abbrev bye : List ℕ
bye = 66 ∷ 121 ∷ 101 ∷ []

abbrev cut : List (List ℕ)
cut =
    (0 ∷ 0 ∷ 0 ∷ [])
    ∷ (19 ∷ 0 ∷ 0 ∷ 0 ∷ 1 ∷ 86 ∷ 101 ∷ 114 ∷ [])
    ∷ (115 ∷ 105 ∷ 111 ∷ 110 ∷ 32 ∷ 49 ∷ 46 ∷ 48 ∷ 0 ∷ 0 ∷ [])
    ∷ (0 ∷ 11 ∷ 0 ∷ 0 ∷ 0 ∷ 1 ∷ 66 ∷ 121 ∷ 101 ∷ [])
    ∷ []

cut-joined : Stream.joined cut ≡ Stream.frames (version ∷ bye ∷ [])
unfolding send_command
cut-joined = refl

stream_read_example :
    read_chunks recorder cut connected [] ≡ running (connected, version ∷ bye ∷ [])
stream_read_example = stream_read recorder (version ∷ bye ∷ []) cut [] (λ n h. refl) refl cut-joined

multiple_deafens_example :
    read_handler recorder (htonl 260 ++ version) connected []
    ≡ running (announced_connection recorder 260, [])
multiple_deafens_example = multiple_deafens recorder 260 version [] (omega arith) refl

size_faults_example :
    read_handler recorder (htonl 261 ++ ((7 ∷ []) ++ version)) connected [] ≡ fault
size_faults_example =
    size_faults recorder 261 (7 ∷ []) version [] (omega arith) (inr (omega arith)) refl (λ h. cc)

send_data-read_example :
    (length (send_data 7 5000000000 1065353216) ≡ word_at 0 (send_data 7 5000000000 1065353216))
    × (word_at 12 (send_data 7 5000000000 1065353216) + 12 ≡ 52)
    × (word_at 20 (send_data 7 5000000000 1065353216) ≡ 7)
    × (word_at 24 (send_data 7 5000000000 1065353216) * 4294967296
          + word_at 28 (send_data 7 5000000000 1065353216)
        ≡ 5000000000)
    × (word_at 36 (send_data 7 5000000000 1065353216) ≡ 1065353216)
send_data-read_example =
    send_data-read 7 5000000000 1065353216 (omega arith) (omega arith) (omega arith)
