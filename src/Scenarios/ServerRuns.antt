-- ===== src/Scenarios/ServerRuns.antt =====
-- The server with one client that streams, on the device that sled_create leaves.
use sled_server.Common.{
  ℕ, ◌≡◌, ◌↔◌, refl, true, false, none, some, List, [], ◌∷◌, ◌++◌, replicate, length,
  length-replicate,
}
use sled_server.Common.Int.{pos, negsuc}
use sled_server.Common.Outcome.{Outcome, running, exited, overflow, fault, Returns, Allows}
use sled_server.Profile.{absolute, no_blend}
use sled_server.Rtc3d.{connected, send_command, read_handler}
use sled_server.Api.{Device, with_profiles, sled_create}
use sled_server.Api.Soundness.{IsReady}
use sled_server.Api.{execute}
use sled_server.Api.Execution.{IsExecuted, task_messages, execute-IsExecuted}
use sled_server.Mp.{MpState}
use sled_server.Mp.Outputs.{SdoMode}
use sled_server.Ds.{DsState}
use sled_server.Profile.{used_slot, has_changes_pending}
use sled_server.Scenarios.MachineRuns.{waiting_channel, waiting-HasSent}
use sled_server.Api.Creation.{sled_create-IsReady}
use sled_server.Parser.{
  Command, CommandType, big_endian, little_endian, sta_off, Token, Tools, parse,
}
use sled_server.Parser.Lexer.{ascii, lex}
use sled_server.Parser.Grammar.{IsSentence}
use sled_server.Parser.Equivalence.{parse_iff}
use sled_server.Server.{Server, Numerics, command_handler, host_of}
use sled_server.Server.Keep.{IsInOrder}
use sled_server.Server.Setup.{Resources}
use sled_server.Server.Commands.{command_handler-IsInOrder}
use sled_server.Server.Replies.{AreAnswers, AreKept}
use sled_server.Server.Answers.{
  least_due, most_due, command_handler-AreAnswers, command_handler-AreKept, bye_read,
}
use sled_server.Scenarios.ProfileRuns.{fpu, profile_0}
use sled_server.Scenarios.SledRuns.{driver, memory, network}

abbrev pub tools : Tools
tools = record {
  float_of_int = λ z. 0;
  atoi = λ bytes. pos (length bytes);
  atof = λ bytes. length bytes;
  recovers = λ ts. false;
}

abbrev pub math : Numerics
math = record { abs = λ x. x; fmod = λ x y. 0; to_float = λ x. x; to_uint64 = λ x. x }

-- What the stack holds before a command is parsed.
abbrev pub garbage : Command
garbage = record {
  type = CommandType.cmd_bye;
  boolean = true;
  byte_order = little_endian;
  status = sta_off;
  amplitude = 5;
  period = 6;
  profile = negsuc 3;
  table = negsuc 4;
  position_type = absolute;
  position = 7;
  time = 8;
  next_profile = pos 9;
  next_delay = 10;
  blend_type = no_blend;
}

parse_iff_example :
    (parse tools (Token.profile ∷ Token.int (pos 3) ∷ Token.execute ∷ []) garbage
      ≡ some (record garbage { profile = pos 3; type = CommandType.cmd_profile_execute }))
    ↔ IsSentence tools
        (Token.profile ∷ Token.int (pos 3) ∷ Token.execute ∷ [])
        garbage
        (record garbage { profile = pos 3; type = CommandType.cmd_profile_execute })
parse_iff_example =
    parse_iff tools (Token.profile ∷ Token.int (pos 3) ∷ Token.execute ∷ []) garbage
      (record garbage { profile = pos 3; type = CommandType.cmd_profile_execute })

abbrev pub blank : Device
blank = with_profiles (replicate 99 profile_0) (record {
  sled = memory;
  current_profile = 3;
  sinusoid_there = pos 77;
  sinusoid_rthere = pos 77;
  sinusoid_back = pos 77;
  sinusoid_rback = pos 77;
})

-- The device that a function returns.
abbrev pub returned : Device → Outcome Device → Device
returned d (running e) = e
returned d _ = d

pub returned-IsReady :
    (d : Device) (o : Outcome Device) → Returns IsReady o → IsReady (returned d o)
returned-IsReady d (running e) h = h
returned-IsReady d exited h = absurd (h tt)
returned-IsReady d overflow h = absurd (h tt)
returned-IsReady d fault h = absurd (h tt)

abbrev pub server : Server
server = record {
  device = returned blank (sled_create driver fpu 0 blank);
  clients = (7, big_endian) ∷ (9, little_endian) ∷ [];
  stream_clients = 9 ∷ [];
  profile_tlate = (pos 5, pos 4) ∷ [];
  stats = record {
    time_previous = none;
    sum_delay = 0;
    max_delay = 0;
    num_samples = 299999;
    num_unacceptable = 12;
  };
  frame_number = 3;
  sent = [];
}

server-IsInOrder : IsInOrder server
server-IsInOrder = record {
  ready =
      returned-IsReady blank (sled_create driver fpu 0 blank)
        (sled_create-IsReady driver fpu 0 blank (length-replicate 99 profile_0));
  translated = refl;
  streaming = refl;
}

abbrev request : List ℕ
request = ascii "profile 6 set table 2 abs 0.25 4 next 5 blend after"

abbrev granted : Resources
granted = record {
  context = true;
  parser = true;
  sled = true;
  watchdog = true;
  server = true;
  periodic = true;
}

command_handler-IsInOrder_example :
    Allows IsInOrder (command_handler tools fpu math 7 garbage request server)
command_handler-IsInOrder_example =
    command_handler-IsInOrder tools fpu math 7 garbage request server refl server-IsInOrder

command_handler-AreAnswers_example :
    Allows
      (λ t.
        AreAnswers 7
          (least_due (parse tools (lex tools request) garbage))
          (most_due (parse tools (lex tools request) garbage))
          server.sent
          t.sent)
      (command_handler tools fpu math 7 garbage request server)
command_handler-AreAnswers_example =
    command_handler-AreAnswers tools fpu math 7 garbage request server refl server-IsInOrder

command_handler-AreKept_example :
    Allows
      (λ t. AreKept server.profile_tlate t.profile_tlate)
      (command_handler tools fpu math 7 garbage request server)
command_handler-AreKept_example =
    command_handler-AreKept tools fpu math 7 garbage request server refl server-IsInOrder

bye_read_example :
    read_handler
      (host_of tools fpu math (λ s. garbage) (λ n. true) 9)
      (send_command (ascii "bye") ++ [])
      connected
      server
    ≡ fault
bye_read_example = bye_read tools fpu math (λ s. garbage) (λ n. true) 9 [] server (λ n h. refl)

-- A drive that waits for a set-point.
abbrev idle_device : Device
idle_device = record blank {
  sled = record memory {
    network = record network {
      drive = record {
        ds = DsState.operation_enabled;
        motion = record { mp = MpState.pp_idle; channel = waiting_channel };
      };
      profiles = profile_0 ∷ [];
    };
  };
}

execute-IsExecuted_example :
    Returns
      (IsExecuted SdoMode.on ([] ++ task_messages profile_0))
      (execute fpu (pos 0) idle_device)
unfolding used_slot has_changes_pending
execute-IsExecuted_example =
    execute-IsExecuted fpu (pos 0) idle_device 0 profile_0 SdoMode.on [] refl refl
      (refl, waiting-HasSent)
