-- ===== src/Main.antt =====
-- The start of the program: src/main.cc. What the system answers is a parameter; a run keeps the
-- calls that matter to the system, oldest first, and how it ended.
pub mod Privileges
use sled_server.Common.{
  ℕ, Bool, true, false, not, ◌&&◌, ◌==◌, ltb, if◌then◌else◌, Option, none, some, List, [], ◌∷◌,
  ◌++◌,
}

-- What getopt_long delivers: each option in its order. An option that it does not know is printed
-- about by getopt_long and falls through the switch.
pub data Flag : Type 0 where
  no_daemon help unknown : Flag
  user : List ℕ → Flag

pub data Fork : Type 0 where
  failed parent child : Fork

-- The answers of the system: the user of a name, and what each call returns. `rlim_cur` is none
-- where getrlimit fails; `priority_init` tells whether event_base_priority_init returns when it is
-- given no base, and `loop_ends` whether event_base_loop does.
pub record System : Type 0 where
  pub getpwnam : List ℕ → Option ℕ
  pub fork : Fork
  pub setsid : Bool
  pub chdir : Bool
  pub sched_setscheduler : Bool
  pub rlim_cur : Option ℕ
  pub mlockall : Bool
  pub setuid : ℕ → Bool
  pub event_base : Bool
  pub priority_init : Bool
  pub context : Bool
  pub loop_ends : Bool

pub data Call : Type 0 where
  print_help open_log forked set_mask new_session root_directory close_handles to_syslog : Call
  catch_signals realtime_task lock_memory new_base prioritise : Call
  drop_to : ℕ → Call
  setup_context event_loop teardown_context : Call

-- How a run ends: `exit` or the return of `main` with a status, a crash, or not at all.
pub data Ending : Type 0 where
  exited : ℕ → Ending
  crashed serving : Ending

pub data Run (A : Type 0) : Type 0 where
  going : A → List Call → Run A
  ended : Ending → List Call → Run A

infixl 5 ◌>>=◌
abbrev pub ◌>>=◌ :
    {A B : Type 0} → (List Call → Run A) → (A → List Call → Run B) → List Call → Run B
m >>= f = λ calls. elim (m calls) [ going a later ↦ f a later | ended e later ↦ ended e later ]

infixl 5 ◌>>◌
abbrev pub ◌>>◌ : {A B : Type 0} → (List Call → Run A) → (List Call → Run B) → List Call → Run B
m >> n = m >>= λ _. n

abbrev pub call : Call → List Call → Run (Unit {0})
call c calls = going tt (calls ++ (c ∷ []))

abbrev pub stop : {A : Type 0} → Ending → List Call → Run A
stop e calls = ended e calls

abbrev pub pass : List Call → Run (Unit {0})
pass calls = going tt calls

abbrev pub must : Bool → ℕ → List Call → Run (Unit {0})
must true status = pass
must false status = stop (exited status)

abbrev pub exit_success : ℕ
exit_success = 0

abbrev pub exit_failure : ℕ
exit_failure = 1

-- (uid_t) -1
abbrev pub no_uid : ℕ
no_uid = 4294967295

abbrev pub min_memlock : ℕ
min_memlock = 104857600

-- get_uid_by_name
unfoldable pub get_uid_by_name : System → List ℕ → ℕ
get_uid_by_name sys name = elim (sys.getpwnam name) [ none ↦ no_uid | some uid ↦ uid ]

-- The loop over the options.
unfoldable pub parse_flags : System → List Flag → ℕ → Bool → List Call → Run (ℕ × Bool)
unfolding get_uid_by_name
parse_flags sys [] uid daemonize = λ calls. going (uid, daemonize) calls
parse_flags sys (no_daemon ∷ flags) uid daemonize = parse_flags sys flags uid false
parse_flags sys (help ∷ flags) uid daemonize = call print_help >> stop (exited exit_success)
parse_flags sys (unknown ∷ flags) uid daemonize = parse_flags sys flags uid daemonize
parse_flags sys (user name ∷ flags) uid daemonize =
    let rest = parse_flags sys flags (get_uid_by_name sys name) daemonize in
    if get_uid_by_name sys name == no_uid then stop (exited exit_failure) else rest

-- fork in daemonize: the parent is done, and so is a process that cannot fork.
abbrev pub fork_off : Fork → List Call → Run (Unit {0})
fork_off failed = stop (exited exit_failure)
fork_off parent = stop (exited exit_success)
fork_off child = pass

-- daemonize. The three standard handles are closed, and the two streams redirected, by one call each.
unfoldable pub daemonize : System → List Call → Run (Unit {0})
daemonize sys =
    call forked
    >> fork_off sys.fork
    >> call set_mask
    >> call new_session
    >> must sys.setsid exit_failure
    >> call root_directory
    >> must sys.chdir exit_failure
    >> call close_handles
    >> call to_syslog

abbrev pub enough_memory : Option ℕ → Bool
enough_memory none = false
enough_memory (some limit) = not (ltb limit min_memlock)

-- setup_realtime, and the return of `main` where it fails
unfoldable pub setup_realtime : System → List Call → Run (Unit {0})
setup_realtime sys =
    call realtime_task
    >> must sys.sched_setscheduler 1
    >> must (enough_memory sys.rlim_cur) 1
    >> call lock_memory
    >> must sys.mlockall 1

-- Privileges are dropped where there is a user to run as.
unfoldable pub drop_privileges : System → ℕ → List Call → Run (Unit {0})
drop_privileges sys uid =
    if uid == no_uid then pass else (call (drop_to uid) >> must (sys.setuid uid) exit_failure)

-- The event base is used before it is tested. (How it is configured is left out.)
unfoldable pub setup_libevent : System → List Call → Run (Unit {0})
setup_libevent sys =
    call new_base
    >> call prioritise
    >> (if sys.event_base
        then pass
        else if sys.priority_init
        then stop (exited 1)
        else stop crashed)

unfoldable pub serve : System → List Call → Run (Unit {0})
serve sys =
    call setup_context
    >> must sys.context 1
    >> call event_loop
    >> (if sys.loop_ends then pass else stop serving)
    >> call teardown_context
    >> stop (exited 0)

-- main, behind its options
unfoldable pub start : System → ℕ × Bool → List Call → Run (Unit {0})
unfolding daemonize setup_realtime drop_privileges setup_libevent serve
start sys (uid, daemonize_flag) =
    must (not (daemonize_flag && uid == no_uid)) exit_failure
    >> call open_log
    >> (if daemonize_flag then daemonize sys else pass)
    >> call catch_signals
    >> setup_realtime sys
    >> drop_privileges sys uid
    >> setup_libevent sys
    >> serve sys

-- main. The user is first looked up by the default name.
unfoldable pub main : System → List ℕ → List Flag → Run (Unit {0})
unfolding parse_flags start
main sys default_user flags =
    (parse_flags sys flags (get_uid_by_name sys default_user) true >>= start sys) []

-- signal_handler: a segmentation fault ends the program with a failure, a termination with success,
-- and it returns from any other signal.
unfoldable pub signal_handler : ℕ → Option ℕ
signal_handler sig =
    if sig == 11 then some exit_failure else if sig == 15 then some exit_success else none
