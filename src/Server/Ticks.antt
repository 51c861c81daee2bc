-- ===== src/Server/Ticks.antt =====
-- What the server (src/server.cc) does every millisecond: the statistics of the delays
-- (update_timeout_stats) and the frames that it streams (on_timeout).
use mathlib.Core.List.{append_assoc, append-nil}
use sled_server.Common.{
  ℕ, ◌+◌, ◌<◌, ◌≤◌, ◌≡◌, refl, sym, ap, ◌∙◌, true, false, leb, ◌==◌, if◌then◌else◌, none, some,
  List, [], ◌∷◌, ◌++◌, arith,
}
use sled_server.Common.Int.{Double, Fpu}
use sled_server.Common.Outcome.{Outcome, running, fault, ◌>>=◌}
use sled_server.Api.{rt_get_position_and_time}
use sled_server.Server.{Server, Stats, Numerics, Reply, frame, say, is_client}
use sled_server.Server.Keep.{all_clients, IsInOrder}

-- REPORT_EVERY_X_SAMPLES
abbrev pub report_every_x_samples : ℕ
report_every_x_samples = 300000

-- update_timeout_stats. The report goes to the system's log alone.
unfoldable pub update_timeout_stats : Fpu → Double → Stats → Stats
update_timeout_stats fpu time_actual s =
    let previous : Double = elim s.time_previous [ none ↦ time_actual | some t ↦ t ] in
    let delay = fpu.sub time_actual previous in
    let late = fpu.gt delay (fpu.div (fpu.literal 2000) (fpu.literal 1000000)) in
    let num_samples = s.num_samples + 1 in
    if leb report_every_x_samples num_samples
    then record {
      time_previous = some time_actual;
      sum_delay = fpu.literal 0;
      max_delay = fpu.literal 0;
      num_samples = 0;
      num_unacceptable = 0;
    }
    else record {
      time_previous = some time_actual;
      sum_delay = fpu.add s.sum_delay delay;
      max_delay = if fpu.gt delay s.max_delay then delay else s.max_delay;
      num_samples = num_samples;
      num_unacceptable = if late then s.num_unacceptable + 1 else s.num_unacceptable;
    }

-- rtc3d_send_data to each client in turn. The memory of one that is gone may not be used.
unfoldable pub send_frames : Reply → List ℕ → Server → Outcome Server
send_frames reply [] s = running s
send_frames reply (id ∷ ids) s =
    (if is_client id s.clients then running (say id reply s) else fault) >>= send_frames reply ids

-- What on_timeout sends to every client of the stream: SAWTOOTH is defined.
unfoldable pub frame_of : Fpu → Numerics → Double → Double → ℕ → Reply
frame_of fpu math tcurrent time n =
    frame n (math.to_uint64 (fpu.mul time (fpu.literal 1000000)))
      (math.to_float (fpu.mul (math.fmod tcurrent (fpu.literal 10)) (fpu.literal 1000)))

-- frame++, for an int
unfoldable pub next_frame : Server → Outcome Server
next_frame s =
    if s.frame_number == 2147483647
    then fault
    else running (record s { frame_number = s.frame_number + 1 })

-- on_timeout. `events & EV_TIMEOUT == 0` is `events & 0`, so it never returns at once. The clock is
-- read again where libsled has no position.
unfoldable pub on_timeout : Fpu → Numerics → Double → Double → Double → Server → Outcome Server
unfolding update_timeout_stats frame_of send_frames next_frame
on_timeout fpu math tcurrent now nan s =
    let t = record s { stats = update_timeout_stats fpu tcurrent s.stats } in
    let time = (rt_get_position_and_time now nan t.device).1.0 in
    send_frames (frame_of fpu math tcurrent time t.frame_number) t.stream_clients t >>= next_frame

-- The counters before a call.
abbrev pub AreCounting : Stats → Type 0
AreCounting s = (s.num_unacceptable ≤ s.num_samples) × (s.num_samples < report_every_x_samples)

-- The delays that count as missed are at most all delays, of which there are always less than
-- 300000: the count starts again where the report is made.
pub update_timeout_stats-AreCounting :
    (fpu : Fpu) (time_actual : Double) (s : Stats)
    → AreCounting s
    → AreCounting (update_timeout_stats fpu time_actual s)
unfolding update_timeout_stats
update_timeout_stats-AreCounting fpu time_actual s v = ground (arith, v.0, v.1)

abbrev pub to_all : Reply → List ℕ → List (ℕ × Reply)
to_all reply [] = []
to_all reply (id ∷ ids) = (id, reply) ∷ to_all reply ids

send_frames_lem :
    (reply : Reply) (ids : List ℕ) (s : Server)
    → all_clients ids s.clients ≡ true
    → send_frames reply ids s ≡ running (record s { sent = s.sent ++ to_all reply ids })
unfolding send_frames
send_frames_lem reply [] s a = ap (λ l. running (record s { sent = l })) (sym (append-nil s.sent))
send_frames_lem reply (id ∷ ids) s a =
    let here : is_client id s.clients ≡ true = ground (arith, a) in
    let rest : all_clients ids s.clients ≡ true = ground (arith, a) in
    rw here (
      send_frames_lem reply ids (say id reply s) rest
      ∙ ap (λ l. running (record s { sent = l }))
          (append_assoc s.sent ((id, reply) ∷ []) (to_all reply ids)))

pub on_timeout_lem :
    (fpu : Fpu) (math : Numerics) (tcurrent now nan : Double) (s : Server)
    → IsInOrder s
    → (s.frame_number == 2147483647) ≡ false
    → on_timeout fpu math tcurrent now nan s
      ≡ running (record s {
        stats = update_timeout_stats fpu tcurrent s.stats;
        sent =
            s.sent
            ++ to_all
                (frame_of fpu math tcurrent
                  ((rt_get_position_and_time now nan s.device).1.0)
                  s.frame_number)
                s.stream_clients;
        frame_number = s.frame_number + 1;
      })
unfolding on_timeout next_frame
on_timeout_lem fpu math tcurrent now nan s v n =
    let t : Server = record s { stats = update_timeout_stats fpu tcurrent s.stats } in
    let reply =
      frame_of fpu math tcurrent ((rt_get_position_and_time now nan s.device).1.0) s.frame_number in
    ap (λ o. o >>= next_frame) (send_frames_lem reply s.stream_clients t v.streaming)
    ∙ counted (record t { sent = s.sent ++ to_all reply s.stream_clients }) n
  where
    counted :
        (t : Server)
        → (t.frame_number == 2147483647) ≡ false
        → next_frame t ≡ running (record t { frame_number = t.frame_number + 1 })
    counted t n = rw (next_frame, n) refl
