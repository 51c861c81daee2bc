-- ===== src/Main/Privileges.antt =====
-- What src/main.cc has done when it sets the server up.
use mathlib.Core.Option.{none-ne-some}
use sled_server.Common.{
  ℕ, ◌≡◌, ◌⊎◌, inl, inr, refl, sym, ◌∙◌, Bool, true, false, ◌&&◌, ◌==◌, if◌then◌else◌, Option, none,
  some, List, [], ◌∷◌, ◌++◌, arith, Bool-cases,
}
use sled_server.Main.{
  System, Flag, Call, Run, no_daemon, help, unknown, user, going, ended, setup_context, open_log,
  forked, set_mask, new_session, root_directory, close_handles, to_syslog, catch_signals,
  realtime_task, lock_memory, new_base, prioritise, drop_to, no_uid, enough_memory, get_uid_by_name,
  parse_flags, start, main,
}

abbrev pub trace : {A : Type 0} → Run A → List Call
trace (going a calls) = calls
trace (ended e calls) = calls

abbrev is_setup : Call → Bool
is_setup setup_context = true
is_setup _ = false

-- The calls before the server's set-up, if it is set up.
abbrev pub before_setup : List Call → Option (List Call)
before_setup [] = none
before_setup (c ∷ calls) =
    let rest = before_setup calls in
    if is_setup c then some [] else elim rest [ none ↦ none | some l ↦ some (c ∷ l) ]

abbrev pub daemon_calls : Bool → List Call
daemon_calls false = []
daemon_calls true =
    forked ∷ set_mask ∷ new_session ∷ root_directory ∷ close_handles ∷ to_syslog ∷ []

abbrev pub drop_calls : ℕ → List Call
drop_calls uid = if uid == no_uid then [] else drop_to uid ∷ []

-- The calls of a start as the user `uid`, as a daemon or not.
abbrev pub start_calls : ℕ → Bool → List Call
start_calls uid daemon =
    open_log
    ∷ (daemon_calls daemon
        ++ (catch_signals
            ∷ realtime_task
            ∷ lock_memory
            ∷ (drop_calls uid ++ (new_base ∷ prioritise ∷ []))))

-- Privileges have been dropped, or there is no user to run as and no daemon was asked for.
abbrev pub IsPermitted : System → ℕ → Bool → Type 0
IsPermitted sys uid daemon = (sys.setuid uid ≡ true) ⊎ (((uid == no_uid) ≡ true) × (daemon ≡ false))

pub record IsPrepared (sys : System) (uid : ℕ) (daemon : Bool) (calls : List Call) : Type 0 where
  pub in_order : calls ≡ start_calls uid daemon
  pub permitted : IsPermitted sys uid daemon
  pub locked : sys.mlockall ≡ true
  pub realtime : sys.sched_setscheduler ≡ true
  pub memory : enough_memory sys.rlim_cur ≡ true

start-IsPrepared :
    (sys : System) (uid : ℕ) (daemon : Bool) (calls : List Call)
    → before_setup (trace (start sys (uid, daemon) [])) ≡ some calls
    → IsPrepared sys uid daemon calls
unfolding start
start-IsPrepared sys uid daemon calls h = ground arith

-- No option that takes the daemon away.
abbrev pub no_opt_out : List Flag → Bool
no_opt_out [] = true
no_opt_out (no_daemon ∷ flags) = false
no_opt_out (_ ∷ flags) = no_opt_out flags

-- The user that the last such option names, or the one before.
abbrev pub last_user : System → List Flag → ℕ → ℕ
last_user sys [] uid = uid
last_user sys (user name ∷ flags) uid = last_user sys flags (get_uid_by_name sys name)
last_user sys (_ ∷ flags) uid = last_user sys flags uid

-- What the options come to: a user and whether to become a daemon, or an end.
abbrev IsChoice : ℕ → Bool → Run (ℕ × Bool) → Type 0
IsChoice uid daemon (going r calls) = (calls ≡ []) × ((r.0 ≡ uid) × (r.1 ≡ daemon))
IsChoice uid daemon (ended e calls) = before_setup calls ≡ none

parse_flags-IsChoice :
    (sys : System) (flags : List Flag) (uid : ℕ) (daemon : Bool)
    → IsChoice
        (last_user sys flags uid)
        (daemon && no_opt_out flags)
        (parse_flags sys flags uid daemon [])
unfolding parse_flags
parse_flags-IsChoice sys [] uid daemon = (refl, (refl, ground arith))
parse_flags-IsChoice sys (no_daemon ∷ flags) uid daemon =
    let off : (daemon && false) ≡ false = ground arith in
    rw off (parse_flags-IsChoice sys flags uid false)
parse_flags-IsChoice sys (help ∷ flags) uid daemon = refl
parse_flags-IsChoice sys (unknown ∷ flags) uid daemon = parse_flags-IsChoice sys flags uid daemon
parse_flags-IsChoice sys (user name ∷ flags) uid daemon =
    let found = get_uid_by_name sys name in
    elim (Bool-cases (found == no_uid)) [
      | inl e ↦ rw e refl
      | inr e ↦ rw e (parse_flags-IsChoice sys flags found daemon)
    ]

chosen :
    (sys : System) (uid : ℕ) (daemon : Bool) (r : Run (ℕ × Bool)) (calls : List Call)
    → IsChoice uid daemon r
    → before_setup
        (trace (elim r [ going a later ↦ start sys a later | ended e later ↦ ended e later ]))
      ≡ some calls
    → IsPrepared sys uid daemon calls
chosen sys uid daemon (ended e later) calls c h = absurd (none-ne-some _ (sym c ∙ h))
chosen sys uid daemon (going (u, d) later) calls (c, (e, f)) h =
    start-IsPrepared sys uid daemon calls (rw (sym c, sym e, sym f) h)

-- Whatever the system answers and whatever the options are: if the server is set up, then the log
-- has been opened, the program has become a daemon unless an option told it not to, the signals are
-- caught, it is a real-time task and its memory is locked, in this order, and after that it has
-- become the user that the last such option names, or the default one; only where there is no such
-- user and an option told it not to become a daemon has it kept its privileges.
pub main-IsPrepared :
    (sys : System) (default_user : List ℕ) (flags : List Flag) (calls : List Call)
    → before_setup (trace (main sys default_user flags)) ≡ some calls
    → IsPrepared sys
        (last_user sys flags (get_uid_by_name sys default_user))
        (no_opt_out flags)
        calls
unfolding main
main-IsPrepared sys default_user flags calls h =
    let uid = get_uid_by_name sys default_user in
    chosen sys (last_user sys flags uid) (no_opt_out flags) (parse_flags sys flags uid true [])
      calls (parse_flags-IsChoice sys flags uid true) h
