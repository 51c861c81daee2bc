-- ===== src/Scenarios/ProgramRuns.antt =====
-- The program with a client that connects, asks for the stream of frames, and gets one.
use sled_server.Common.{ℕ, ◌≡◌, refl, ap, true, some, List, [], ◌∷◌, length-replicate}
use sled_server.Common.Int.{pos}
use sled_server.Common.Outcome.{Outcome, running, exited, overflow, fault, ◌>>=◌, Returns}
use sled_server.Rtc3d.{send_command, read_handler}
use sled_server.Rtc3d.Memory.{write_cell, read_cell, c_string}
use sled_server.Parser.{parse}
use sled_server.Parser.Lexer.{ascii, lex}
use sled_server.Common.{false}
use sled_server.Api.{execute}
use sled_server.Profile.{create}
use sled_server.Program.Isolation.{Reaches-isolated}
use sled_server.Profile.Usage.{used_at}
use sled_server.Api.{profiles_of, with_profiles}
use sled_server.Server.{Server, find}
use sled_server.Program.Refused.{refused_faults}
use sled_server.Tcp.{NetServer, bytes, ended}
use sled_server.Api.{Device, sled_create, rt_get_position_and_time}
use sled_server.Api.Soundness.{IsReady}
use sled_server.Api.Creation.{sled_create-IsReady}
use sled_server.Server.{command_handler, connect, command, frame}
use sled_server.Server.Setup.{
  Resources, started, create_sled, with_server, setup_sled_server_context,
}
use sled_server.Program.{Program, Env, id_of, new_connection, readable, timeout, step}
use sled_server.Program.Coupling.{IsCoupled}
use sled_server.Program.Reach.{Reaches, start, next, begin, Reaches-IsCoupled}
use sled_server.Sled.{handle_event}
use sled_server.Sled.Reach.{assembled}
use sled_server.Net
use sled_server.Sdo
use sled_server.Scenarios.ProfileRuns.{fpu, profile_0}
use sled_server.Scenarios.SledRuns.{driver}
use sled_server.Scenarios.ServerRuns.{tools, math, garbage, blank, returned}
use sled_server.Scenarios.TcpRuns.{accepting}

abbrev env : Env
env = record { tools = tools; fpu = fpu; math = math; memory = λ s. garbage; grants = λ n. true }

abbrev device : Device
device = returned blank (sled_create driver fpu 0 blank)

returned_by : (d : Device) (o : Outcome Device) → Returns IsReady o → o ≡ running (returned d o)
returned_by d (running e) h = refl
returned_by d exited h = absurd (h tt)
returned_by d overflow h = absurd (h tt)
returned_by d fault h = absurd (h tt)

abbrev all_granted : Resources
all_granted = record {
  context = true;
  parser = true;
  sled = true;
  watchdog = true;
  server = true;
  periodic = true;
}

set_up :
    setup_sled_server_context all_granted driver fpu 0 blank ≡ running (some (started fpu device))
unfolding setup_sled_server_context create_sled with_server
set_up =
    ap (λ o. o >>= λ d. running (some (started fpu d)))
      (returned_by blank (sled_create driver fpu 0 blank)
        (sled_create-IsReady driver fpu 0 blank (length-replicate 99 profile_0)))

-- Where a callback ends.
abbrev after : NetServer Program → Outcome (NetServer Program) → NetServer Program
after s (running t) = t
after s _ = s

abbrev first_server : NetServer Program
first_server =
    after (begin (started fpu device))
      (step env (new_connection accepting true) (begin (started fpu device)))

abbrev packet : List ℕ
packet = send_command (ascii "streamframes")

abbrev second_server : NetServer Program
second_server = after first_server (step env (readable (pos 6) (bytes packet)) first_server)

streams : Reaches env (begin (started fpu device)) second_server
unfolding step read_handler send_command write_cell read_cell c_string command_handler parse lex
    connect id_of
streams =
    next (readable (pos 6) (bytes packet))
      (next (new_connection accepting true) start (refl, refl) refl) refl refl

Reaches-IsCoupled_example : IsCoupled second_server
Reaches-IsCoupled_example =
    Reaches-IsCoupled env all_granted driver 0 blank (started fpu device) second_server
      (length-replicate 99 profile_0) set_up streams

refused_faults_example :
    (t : NetServer Program) × ((step env
          (new_connection accepting false)
          (begin (started fpu device))
        ≡ running t)
      × (step env (readable (pos 6) ended) t ≡ fault))
refused_faults_example =
    refused_faults env (begin (started fpu device)) accepting
      (Reaches-IsCoupled env all_granted driver 0 blank (started fpu device)
        (begin (started fpu device)) (length-replicate 99 profile_0) set_up start)
      refl refl refl refl ended

-- The client gets its answer and a frame, and is gone when it ends.
third_server :
    (after second_server (step env (timeout 30 31 0) second_server)).user.server.sent
    ≡ (12, command (ascii "ok-streamframes")) ∷ (12, frame 0 31000000 0) ∷ []
unfolding step read_handler send_command write_cell read_cell c_string command_handler parse lex
    connect id_of rt_get_position_and_time sled_create handle_event assembled Net.handle_event
    Sdo.handle_event
third_server = refl

last_server :
    (after second_server (step env (readable (pos 6) ended) second_server)).connection_data ≡ []
unfolding step read_handler send_command write_cell read_cell c_string command_handler parse lex
    connect id_of
last_server = refl

-- The client that streams asks for the lights, and stops its stream, in one delivery.
abbrev two_texts : List (List ℕ)
two_texts = ascii "lights on" ∷ ascii "streamframes stop" ∷ []

-- A table of two slots, of which the first is in use.
abbrev small_server : Server
small_server = started fpu (
    with_profiles (record profile_0 { in_use = true } ∷ record profile_0 { in_use = false } ∷ [])
      blank)

abbrev small_first : NetServer Program
small_first =
    after (begin small_server) (step env (new_connection accepting true) (begin small_server))

-- The tools of the scenario read a number as the count of its digits.
abbrev execute_6 : List ℕ
execute_6 = send_command (ascii "profile 6 execute")

abbrev small_second : NetServer Program
small_second = after small_first (step env (readable (pos 6) (bytes execute_6)) small_first)

executes : Reaches env (begin small_server) small_second
unfolding step read_handler send_command write_cell read_cell c_string command_handler parse lex
    connect id_of execute create
executes =
    next (readable (pos 6) (bytes execute_6))
      (next (new_connection accepting true) start (refl, refl) refl) refl refl

translated : find (pos 1) small_second.user.server.profile_tlate ≡ some (pos 1)
unfolding find step read_handler send_command write_cell read_cell c_string command_handler parse
    lex connect id_of execute create
translated = refl

Reaches-isolated_example : (pos 1 ≡ pos 1) × (used_at 1 (profiles_of small_server.device) ≡ false)
Reaches-isolated_example =
    Reaches-isolated env small_server small_second (pos 1) (pos 1) 1 refl executes translated
      translated
