-- ===== src/Scenarios/MainRuns.antt =====
-- The start of the program where the system grants everything.
use sled_server.Common.{◌≡◌, refl, true, false, none, some, List, [], ◌∷◌}
use sled_server.Main.{System, get_uid_by_name, no_daemon, unknown, child, Call, main}
use sled_server.Main.Privileges.{
  before_setup, trace, no_opt_out, last_user, IsPrepared, main-IsPrepared,
}
use sled_server.Parser.Lexer.{ascii}

abbrev granting : System
granting = record {
  getpwnam = λ name. elim name [ [] ↦ none | c ∷ name ↦ some 1000 ];
  fork = child;
  setsid = true;
  chdir = true;
  sched_setscheduler = true;
  rlim_cur = some 104857600;
  mlockall = true;
  setuid = λ uid. true;
  event_base = true;
  priority_init = true;
  context = true;
  loop_ends = false;
}

abbrev early_calls : List Call
early_calls =
    Call.open_log
    ∷ Call.forked
    ∷ Call.set_mask
    ∷ Call.new_session
    ∷ Call.root_directory
    ∷ Call.close_handles
    ∷ Call.to_syslog
    ∷ Call.catch_signals
    ∷ Call.realtime_task
    ∷ Call.lock_memory
    ∷ Call.drop_to 1000
    ∷ Call.new_base
    ∷ Call.prioritise
    ∷ []

prepared : before_setup (trace (main granting (ascii "sled") (unknown ∷ []))) ≡ some early_calls
unfolding main
prepared = refl

main-IsPrepared_example :
    IsPrepared granting
      (last_user granting (unknown ∷ []) (get_uid_by_name granting (ascii "sled")))
      (no_opt_out (unknown ∷ []))
      early_calls
main-IsPrepared_example =
    main-IsPrepared granting (ascii "sled") (unknown ∷ []) early_calls prepared

-- Without a user to run as and without the daemon, the program sets up its server as it was started.
no_user :
    before_setup (trace (main granting [] (no_daemon ∷ [])))
    ≡ some (
        Call.open_log ∷ Call.catch_signals ∷ Call.realtime_task ∷ Call.lock_memory ∷ Call.new_base
        ∷ Call.prioritise ∷ [])
unfolding main
no_user = refl
