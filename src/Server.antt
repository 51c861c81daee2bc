-- ===== src/Server.antt =====
-- The program above the libraries: src/server.cc, src/server.h. A `Server` is sled_server_ctx_t with
-- the connections that librtc3d keeps; a client is a number, the pointer of its connection. What the
-- program gives to the network is kept in `sent`, oldest first.
pub mod Keep
pub mod Setup
pub mod Replies
pub mod Answers
pub mod Staying
pub mod Isolation
pub mod Ticks
pub mod Commands
use sled_server.Common.{
  ℕ, ◌+◌, Bool, true, false, not, ◌||◌, ◌==◌, if◌then◌else◌, Option, none, some, List, [], ◌∷◌,
  ◌++◌,
}
use sled_server.Common.Int.{ℤ, pos, negsuc, Double, Fpu, eq_ℤ, is_nonneg}
use sled_server.Common.Outcome.{Outcome, running, fault, ◌>>=◌}
use sled_server.Profile.{Profile, create, set_table, set_target, set_next, no_blend}
use sled_server.Api.{
  Device, profiles_of, with_profiles, attempt, execute, sinusoid_start, sinusoid_stop,
  rsinusoid_start, rsinusoid_stop, light_set_state, rt_get_position,
}
use sled_server.Rtc3d.{Host, send_command, send_error}
use sled_server.Rtc3d.Dataframe.{send_data}
use sled_server.Parser.{Command, CommandType, ByteOrder, Tools, big_endian, parse}
use sled_server.Parser.Lexer.{ascii, lex}

-- What the program sends to a client: `frame n time point` has the pattern of a float.
pub data Reply : Type 0 where
  command error : List ℕ → Reply
  frame : ℕ → ℕ → ℕ → Reply

-- The bytes that librtc3d makes of it.
unfoldable pub packet_of : Reply → List ℕ
packet_of (command text) = send_command text
packet_of (error text) = send_error text
packet_of (frame n time point) = send_data n time point

-- The functions of the C library that the server applies to doubles, and the conversions to the
-- pattern of a float and to uint64_t.
pub record Numerics : Type 0 where
  pub abs : Double → Double
  pub fmod : Double → Double → Double
  pub to_float : Double → ℕ
  pub to_uint64 : Double → ℕ

-- The static variables of update_timeout_stats; `time_previous` has no value before the first call.
pub record Stats : Type 0 where
  pub time_previous : Option Double
  pub sum_delay : Double
  pub max_delay : Double
  pub num_samples : ℕ
  pub num_unacceptable : ℕ

pub record Server : Type 0 where
  pub device : Device
  pub clients : List (ℕ × ByteOrder)
  pub stream_clients : List ℕ
  pub profile_tlate : List (ℤ × ℤ)
  pub stats : Stats
  pub frame_number : ℕ
  pub sent : List (ℕ × Reply)

abbrev pub say : ℕ → Reply → Server → Server
say id reply s = record s { sent = s.sent ++ ((id, reply) ∷ []) }

abbrev pub say_command : ℕ → List ℕ → Server → Server
say_command id text = say id (command text)

abbrev pub say_error : ℕ → List ℕ → Server → Server
say_error id text = say id (error text)

-- ok or an error, by what a function of libsled returned.
abbrev pub report : ℕ → List ℕ → List ℕ → Bool → Server → Server
report id good bad true = say_command id good
report id good bad false = say_error id bad

-- std::list::remove
abbrev pub remove : ℕ → List ℕ → List ℕ
remove id [] = []
remove id (x ∷ xs) = let rest = remove id xs in if x == id then rest else x ∷ rest

-- The entry of a key in an association list.
unfoldable pub find : ℤ → List (ℤ × ℤ) → Option ℤ
find key [] = none
find key ((k, v) ∷ rest) = let other = find key rest in if eq_ℤ k key then some v else other

abbrev pub without : ℕ → List (ℕ × ByteOrder) → List (ℕ × ByteOrder)
without id [] = []
without id ((k, o) ∷ rest) =
    let other = without id rest in if k == id then other else (k, o) ∷ other

abbrev pub is_client : ℕ → List (ℕ × ByteOrder) → Bool
is_client id [] = false
is_client id ((k, o) ∷ rest) = k == id || is_client id rest

-- rtc3d_set_byte_order
abbrev pub set_order : ℕ → ByteOrder → List (ℕ × ByteOrder) → List (ℕ × ByteOrder)
set_order id order [] = []
set_order id order ((k, o) ∷ rest) =
    if k == id then (k, order) ∷ rest else (k, o) ∷ set_order id order rest

-- What sled_profile_create answers, and the table behind it.
abbrev pub created_slot : Option (ℕ × List Profile) → Server → Server × ℤ
created_slot none s = (s, negsuc 0)
created_slot (some (i, ps)) s = (record s { device = with_profiles ps s.device }, pos i)

abbrev pub remember : ℤ → Server × ℤ → Server × ℤ
remember profile (s, id) =
    (record s { profile_tlate = s.profile_tlate ++ ((profile, id) ∷ []) }, id)

unfoldable pub tlate_profile_id : Fpu → ℤ → Server → Server × ℤ
unfolding find
tlate_profile_id fpu profile s = elim (find profile s.profile_tlate) [
  | some id ↦ (s, id)
  | none ↦ remember profile (created_slot (create fpu (profiles_of s.device)) s)
]

-- rtc3d_disconnect_handler
unfoldable pub disconnect_handler : ℕ → Server → Server
disconnect_handler id s = record s { stream_clients = remove id s.stream_clients }

-- rtc3d_disconnect: the handler runs and the connection is released.
unfoldable pub disconnect : ℕ → Server → Server
unfolding disconnect_handler
disconnect id s = let t = disconnect_handler id s in record t { clients = without id t.clients }

-- connect_handler of librtc3d/rtc3d.cc
unfoldable pub connect : ℕ → Server → Server
connect id s = record s { clients = (id, big_endian) ∷ s.clients }

-- A function of libsled, and the answer to the client.
abbrev pub perform :
    (Device → Outcome (Device × Bool)) → (Bool → Server → Server) → Server → Outcome Server
perform f answer s = f s.device >>= λ r. running (answer r.1 (record s { device = r.0 }))

-- The profile behind in a profile-set command: where there is one it is translated.
unfoldable pub set_next_profile : Fpu → ℕ → ℤ → Command → Server → Server
unfolding tlate_profile_id
set_next_profile fpu id profile_id c s =
    let ok = say_command id (ascii "ok-profile-set") in
    let next = tlate_profile_id fpu c.next_profile s in
    if is_nonneg c.next_profile
    then (if is_nonneg next.1
        then ok (record (next.0) {
          device =
              attempt (set_next fpu profile_id next.1 c.next_delay c.blend_type) (next.0.device);
        })
        else say_error id (ascii "err-profile-set") next.0)
    else ok (record s {
      device = attempt (set_next fpu profile_id (negsuc 0) (fpu.literal 0) no_blend) s.device;
    })

-- The target and the table of a profile-set command; each may fail.
unfoldable pub set_profile : Fpu → ℕ → ℤ → Command → Server → Server
unfolding set_next_profile
set_profile fpu id profile_id c s =
    let bad = say_error id (ascii "err-profile-set") in
    elim (set_target fpu profile_id c.position_type c.position c.time (profiles_of s.device)) [
      | none ↦ bad s
      | some ps ↦
          let t = record s { device = with_profiles ps s.device } in
          elim (set_table profile_id c.table ps) [
            | none ↦ bad t
            | some qs ↦
                set_next_profile fpu id profile_id c
                  (record t { device = with_profiles qs t.device })
          ]
    ]

-- The case cmd_profile_set. A position out of bounds is reported and then used.
unfoldable pub profile_set : Fpu → Numerics → ℕ → Command → Server → Server
unfolding tlate_profile_id set_profile
profile_set fpu math id c s =
    let bad = say_error id (ascii "err-profile-set") in
    let t = tlate_profile_id fpu c.profile s in
    if is_nonneg t.1
    then set_profile fpu id t.1 c (if fpu.gt (math.abs c.position) fpu.half then bad t.0 else t.0)
    else bad t.0

unfoldable pub stream_frames : ℕ → Bool → Server → Server
stream_frames id on s =
    let rest = remove id s.stream_clients in
    say_command id (ascii "ok-streamframes")
      (record s { stream_clients = if on then rest ++ (id ∷ []) else rest })

unfoldable pub send_current_frame : Fpu → Numerics → ℕ → Server → Server
send_current_frame fpu math id s = elim (rt_get_position s.device) [
  | none ↦ say_error id (ascii "err-sendcurrentframe") s
  | some position ↦
      say id
        (frame 4294967295 18446744073709551615
          (math.to_float (fpu.mul position (fpu.literal 1000))))
        s
]

abbrev pub sinusoid : Fpu → ℕ → Command → Server → Outcome Server
sinusoid fpu id c =
    if c.boolean
    then perform (sinusoid_start fpu c.amplitude c.period)
        (report id (ascii "ok-sinusoid-start") (ascii "err-sinusoid-start"))
    else perform (sinusoid_stop fpu)
        (report id (ascii "ok-sinusoid-stop") (ascii "err-sinusoid-stop"))

abbrev pub rsinusoid : Fpu → ℕ → Command → Server → Outcome Server
rsinusoid fpu id c =
    if c.boolean
    then perform (rsinusoid_start fpu c.amplitude c.period)
        (report id (ascii "ok-rsinusoid-start") (ascii "err-rsinusoid-start"))
    else perform (rsinusoid_stop fpu)
        (report id (ascii "ok-rsinusoid-stop") (ascii "err-rsinusoid-stop"))

abbrev pub profile_execute : Fpu → ℕ → Command → Server → Outcome Server
profile_execute fpu id c s =
    let t = tlate_profile_id fpu c.profile s in
    perform (execute fpu t.1) (report id (ascii "ok-profile-execute") (ascii "err-profile-execute"))
      t.0

-- The switch on the type of a command.
unfoldable pub obey_type : Fpu → Numerics → ℕ → Command → CommandType → Server → Outcome Server
unfolding stream_frames send_current_frame profile_set disconnect
obey_type fpu math id c CommandType.cmd_setbyteorder s = running (
    say_command id (ascii "ok-setbyteorder")
      (record s { clients = set_order id c.byte_order s.clients }))
obey_type fpu math id c CommandType.cmd_streamframes s = running (stream_frames id c.boolean s)
obey_type fpu math id c CommandType.cmd_sendcurrentframe s =
    running (send_current_frame fpu math id s)
obey_type fpu math id c CommandType.cmd_profile_execute s = profile_execute fpu id c s
obey_type fpu math id c CommandType.cmd_profile_set s = running (profile_set fpu math id c s)
obey_type fpu math id c CommandType.cmd_sinusoid s = sinusoid fpu id c s
obey_type fpu math id c CommandType.cmd_rsinusoid s = rsinusoid fpu id c s
obey_type fpu math id c CommandType.cmd_lights s =
    perform (light_set_state c.boolean) (report id (ascii "ok-light") (ascii "err-light")) s
obey_type fpu math id c CommandType.cmd_sendstatus s = running s
obey_type fpu math id c CommandType.cmd_home s = running s
obey_type fpu math id c CommandType.cmd_clearfault s = running s
obey_type fpu math id c CommandType.cmd_bye s =
    running (disconnect id (say_command id (ascii "bye") s))
obey_type fpu math id c _ s = running (say_error id (ascii "err-notsupported") s)

-- rtc3d_command_handler. `memory` is what the stack holds where the command is parsed into.
unfoldable pub command_handler :
    Tools → Fpu → Numerics → ℕ → Command → List ℕ → Server → Outcome Server
unfolding obey_type
command_handler tools fpu math id memory text s = elim (parse tools (lex tools text) memory) [
  | none ↦ running (say_error id (ascii "err-syntaxerror") s)
  | some c ↦ obey_type fpu math id c c.type s
]

-- The server as librtc3d's program above, for the packets of one client.
abbrev pub host_of : Tools → Fpu → Numerics → (Server → Command) → (ℕ → Bool) → ℕ → Host Server
host_of tools fpu math memory grants id = record {
  grants = grants;
  command = λ text s. command_handler tools fpu math id (memory s) text s;
  is_connected = λ s. is_client id s.clients;
}
