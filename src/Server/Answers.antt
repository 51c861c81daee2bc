-- ===== src/Server/Answers.antt =====
-- The answers to a client's commands: src/server.cc, rtc3d_command_handler.
use sled_server.Common.{
  ℕ, ◌≡◌, refl, ap, ◌∙◌, Bool, true, Option, none, some, List, ◌++◌, Bool-cases, Option-cases, inl,
  inr, arith,
}
use sled_server.Common.Int.{ℤ, Fpu, is_nonneg}
use sled_server.Common.Outcome.{
  Outcome, running, exited, overflow, fault, Allows, OnReturn, OnReturn-bind, Allows-OnReturn,
  Allows-mono, ◌>>=◌,
}
use sled_server.Profile.{set_table, set_target}
use sled_server.Api.{
  Device, profiles_of, execute, light_set_state, rt_get_position, sinusoid_start, sinusoid_stop,
  rsinusoid_start, rsinusoid_stop,
}
use sled_server.Parser.{Command, CommandType, Tools, parse}
use sled_server.Parser.Lexer.{ascii, lex}
use sled_server.Server.{
  Server, Numerics, Reply, say, report, perform, is_client, tlate_profile_id, set_next_profile,
  set_profile, profile_set, stream_frames, send_current_frame, disconnect, disconnect_handler,
  profile_execute, obey_type, command_handler, host_of,
}
use sled_server.Rtc3d.{connected, send_command, read_handler}
use sled_server.Rtc3d.Stream.{IsGenerous, command_read, obey}
use sled_server.Server.Keep.{IsInOrder, not_client-without, is_client-set_order, is_client-without}
use sled_server.Server.Commands.{command_handler-IsInOrder}
use sled_server.Server.Replies.{
  AreAnswers, AreKept, IsStep, silent, unchanged, said, reported, joined, wider,
  tlate_profile_id-IsStep,
}

-- An answer after a change that answers nothing.
then_said :
    (id : ℕ) (reply : Reply) (s t : Server) → IsStep id 0 0 s t → IsStep id 1 1 s (say id reply t)
then_said id reply s t v = joined v (said id reply t)

on_device : (id : ℕ) (s : Server) (d : Device) → IsStep id 0 0 s (record s { device = d })
on_device id s d = silent id s _ refl (λ k v e. e) (λ x n. refl)

set_next_profile-IsStep :
    (fpu : Fpu) (id : ℕ) (z : ℤ) (c : Command) (s : Server)
    → IsStep id 1 1 s (set_next_profile fpu id z c s)
unfolding set_next_profile
set_next_profile-IsStep fpu id z c s =
    let u = tlate_profile_id fpu c.next_profile s in
    let w = tlate_profile_id-IsStep fpu id c.next_profile s in
    elim (Bool-cases (is_nonneg c.next_profile)) [
      | inr n ↦ rw n (then_said id _ s _ (on_device id s _))
      | inl n ↦ elim (Bool-cases (is_nonneg u.1)) [
        | inr m ↦ rw (n, m) (then_said id _ s u.0 w)
        | inl m ↦ rw (n, m) (then_said id _ s _ (joined w (on_device id u.0 _)))
      ]
    ]

set_profile-IsStep :
    (fpu : Fpu) (id : ℕ) (z : ℤ) (c : Command) (s : Server)
    → IsStep id 1 1 s (set_profile fpu id z c s)
unfolding set_profile
set_profile-IsStep fpu id z c s =
    elim (Option-cases
      (set_target fpu z c.position_type c.position c.time (profiles_of s.device))) [
        | inl e ↦ rw (e, set_profile) (said id _ s)
        | inr (ps, e) ↦ elim (Option-cases (set_table z c.table ps)) [
          | inl g ↦ rw (e, set_profile, g) (then_said id _ s _ (on_device id s _))
          | inr (qs, g) ↦
              rw (e, set_profile, g)
                (joined (on_device id s _) (set_next_profile-IsStep fpu id z c _))
        ]
      ]

profile_set-IsStep :
    (fpu : Fpu) (math : Numerics) (id : ℕ) (c : Command) (s : Server)
    → IsStep id 1 2 s (profile_set fpu math id c s)
unfolding profile_set
profile_set-IsStep fpu math id c s =
    let u = tlate_profile_id fpu c.profile s in
    let w = tlate_profile_id-IsStep fpu id c.profile s in
    elim (Bool-cases (is_nonneg u.1)) [
      | inr n ↦ rw n (wider (omega arith) (omega arith) (then_said id _ s u.0 w))
      | inl n ↦ elim (Bool-cases (fpu.gt (math.abs c.position) fpu.half)) [
        | inl b ↦
            rw (n, b)
              (wider (omega arith) (omega arith)
                (joined (then_said id _ s u.0 w) (set_profile-IsStep fpu id u.1 c _)))
        | inr b ↦
            rw (n, b)
              (wider (omega arith) (omega arith) (joined w (set_profile-IsStep fpu id u.1 c _)))
      ]
    ]

send_current_frame-IsStep :
    (fpu : Fpu) (math : Numerics) (id : ℕ) (s : Server)
    → IsStep id 1 1 s (send_current_frame fpu math id s)
unfolding send_current_frame
send_current_frame-IsStep fpu math id s = elim (Option-cases (rt_get_position s.device)) [
  | inl e ↦ rw (e, send_current_frame) (said id _ s)
  | inr (position, e) ↦ rw (e, send_current_frame) (said id _ s)
]

perform-IsStep :
    (f : Device → Outcome (Device × Bool)) (id : ℕ) (good bad : List ℕ) (s : Server)
    → OnReturn (IsStep id 1 1 s) (perform f (report id good bad) s)
perform-IsStep f id good bad s =
    OnReturn-bind (IsStep id 1 1 s) (f s.device) _
      λ r. joined (on_device id s r.0) (reported id good bad r.1 _)

OnReturn-joined :
    {id : ℕ} (lo hi : ℕ) {s t : Server} (o : Outcome Server)
    → IsStep id 0 0 s t
    → OnReturn (IsStep id lo hi t) o
    → OnReturn (IsStep id lo hi s) o
OnReturn-joined lo hi (running u) v w = wider (omega arith) (omega arith) (joined v w)
OnReturn-joined lo hi exited v w = tt
OnReturn-joined lo hi overflow v w = tt
OnReturn-joined lo hi fault v w = tt

-- How often a command is answered.
abbrev pub fewest : CommandType → ℕ
fewest CommandType.cmd_sendstatus = 0
fewest CommandType.cmd_home = 0
fewest CommandType.cmd_clearfault = 0
fewest _ = 1

abbrev pub most : CommandType → ℕ
most CommandType.cmd_profile_set = 2
most type = fewest type

obey_type-IsStep :
    (fpu : Fpu) (math : Numerics) (id : ℕ) (c : Command) (type : CommandType) (s : Server)
    → OnReturn (IsStep id (fewest type) (most type) s) (obey_type fpu math id c type s)
unfolding obey_type stream_frames disconnect disconnect_handler
obey_type-IsStep fpu math id c CommandType.cmd_setbyteorder s =
    then_said id _ s _
      (silent id s _ refl (λ k v e. e) (λ x n. is_client-set_order x id c.byte_order s.clients))
obey_type-IsStep fpu math id c CommandType.cmd_streamframes s =
    then_said id _ s _ (silent id s _ refl (λ k v e. e) (λ x n. refl))
obey_type-IsStep fpu math id c CommandType.cmd_sendcurrentframe s =
    send_current_frame-IsStep fpu math id s
obey_type-IsStep fpu math id c CommandType.cmd_profile_execute s =
    let u = tlate_profile_id fpu c.profile s in
    OnReturn-joined 1 1 (profile_execute fpu id c s) (tlate_profile_id-IsStep fpu id c.profile s) (
      perform-IsStep (execute fpu u.1) id (ascii "ok-profile-execute") (ascii "err-profile-execute")
        u.0)
obey_type-IsStep fpu math id c CommandType.cmd_profile_set s = profile_set-IsStep fpu math id c s
obey_type-IsStep fpu math id c CommandType.cmd_sinusoid s = elim (Bool-cases c.boolean) [
  | inl b ↦ rw b (
      perform-IsStep (sinusoid_start fpu c.amplitude c.period) id (ascii "ok-sinusoid-start")
        (ascii "err-sinusoid-start") s)
  | inr b ↦ rw b (
      perform-IsStep (sinusoid_stop fpu) id (ascii "ok-sinusoid-stop") (ascii "err-sinusoid-stop")
        s)
]
obey_type-IsStep fpu math id c CommandType.cmd_rsinusoid s = elim (Bool-cases c.boolean) [
  | inl b ↦ rw b (
      perform-IsStep (rsinusoid_start fpu c.amplitude c.period) id (ascii "ok-rsinusoid-start")
        (ascii "err-rsinusoid-start") s)
  | inr b ↦ rw b (
      perform-IsStep (rsinusoid_stop fpu) id (ascii "ok-rsinusoid-stop")
        (ascii "err-rsinusoid-stop") s)
]
obey_type-IsStep fpu math id c CommandType.cmd_lights s =
    perform-IsStep (light_set_state c.boolean) id (ascii "ok-light") (ascii "err-light") s
obey_type-IsStep fpu math id c CommandType.cmd_sendstatus s = unchanged id s
obey_type-IsStep fpu math id c CommandType.cmd_home s = unchanged id s
obey_type-IsStep fpu math id c CommandType.cmd_clearfault s = unchanged id s
obey_type-IsStep fpu math id c CommandType.cmd_bye s =
    joined (said id _ s)
      (silent id _ _ refl (λ k v e. e) (λ x n. is_client-without x id s.clients n))
obey_type-IsStep fpu math id c CommandType.cmd_setinternalstatus s = said id _ s
obey_type-IsStep fpu math id c CommandType.cmd_sendinternalstatus s = said id _ s

-- The answers that a text is due: a text that is no command has one.
abbrev pub least_due : Option Command → ℕ
least_due none = 1
least_due (some c) = fewest c.type

abbrev pub most_due : Option Command → ℕ
most_due none = 1
most_due (some c) = most c.type

pub command_handler-IsStep :
    (tools : Tools) (fpu : Fpu) (math : Numerics) (id : ℕ) (memory : Command) (text : List ℕ)
    (s : Server)
    → OnReturn
        (IsStep id
          (least_due (parse tools (lex tools text) memory))
          (most_due (parse tools (lex tools text) memory))
          s)
        (command_handler tools fpu math id memory text s)
unfolding command_handler
command_handler-IsStep tools fpu math id memory text s =
    elim (Option-cases (parse tools (lex tools text) memory)) [
      | inl e ↦ rw (e, command_handler, least_due, most_due) (said id _ s)
      | inr (c, e) ↦
          rw (e, command_handler, least_due, most_due) (obey_type-IsStep fpu math id c c.type s)
    ]

module _ (tools : Tools) (fpu : Fpu) (math : Numerics) (id : ℕ) where
  command_handler-Allows :
      (memory : Command) (text : List ℕ) (s : Server)
      → is_client id s.clients ≡ true
      → IsInOrder s
      → Allows
          (IsStep id
            (least_due (parse tools (lex tools text) memory))
            (most_due (parse tools (lex tools text) memory))
            s)
          (command_handler tools fpu math id memory text s)
  command_handler-Allows memory text s k v =
      Allows-OnReturn IsInOrder _ (command_handler tools fpu math id memory text s)
        (command_handler-IsInOrder tools fpu math id memory text s k v)
        (command_handler-IsStep tools fpu math id memory text s)

  -- On a server in order, if the handler returns, a text of a connected client is answered to that
  -- client and to no other: once where it is no command, never where it asks for the status, for homing or for the clearing
  -- of a fault, once or twice where it sets a profile, and once for every other command.
  pub command_handler-AreAnswers :
      (memory : Command) (text : List ℕ) (s : Server)
      → is_client id s.clients ≡ true
      → IsInOrder s
      → Allows
          (λ t.
            AreAnswers id
              (least_due (parse tools (lex tools text) memory))
              (most_due (parse tools (lex tools text) memory))
              s.sent
              t.sent)
          (command_handler tools fpu math id memory text s)
  command_handler-AreAnswers memory text s k v =
      Allows-mono (command_handler tools fpu math id memory text s)
        (command_handler-Allows memory text s k v) (λ t w. w.answers)

  -- On a server in order, whatever a connected client sends, if the handler returns, a number of a
  -- profile that has been translated, to one of libsled or to -1, is translated to the same one.
  pub command_handler-AreKept :
      (memory : Command) (text : List ℕ) (s : Server)
      → is_client id s.clients ≡ true
      → IsInOrder s
      → Allows
          (λ t. AreKept s.profile_tlate t.profile_tlate)
          (command_handler tools fpu math id memory text s)
  command_handler-AreKept memory text s k v =
      Allows-mono (command_handler tools fpu math id memory text s)
        (command_handler-Allows memory text s k v) (λ t w. w.kept)

bye_parsed :
    (tools : Tools) (memory : Command)
    → parse tools (lex tools (ascii "bye")) memory
      ≡ some (record memory { type = CommandType.cmd_bye })
unfolding parse lex
bye_parsed tools memory = refl

bye_obeyed :
    (tools : Tools) (fpu : Fpu) (math : Numerics) (memory : Server → Command) (grants : ℕ → Bool)
    (id : ℕ) (s : Server)
    → obey (host_of tools fpu math memory grants id) (ascii "bye") s ≡ fault
unfolding obey_type disconnect disconnect_handler command_handler
bye_obeyed tools fpu math memory grants id s =
    rw (bye_parsed tools (memory s), command_handler, not_client-without id s.clients) refl

-- A client that says bye, in a packet read from a fresh connection, makes the server use memory that
-- it has released, if `malloc` grants every size up to 256: the command handler releases the
-- connection, and the reader writes to it afterwards.
pub bye_read :
    (tools : Tools) (fpu : Fpu) (math : Numerics) (memory : Server → Command) (grants : ℕ → Bool)
    (id : ℕ) (rest : List ℕ) (s : Server)
    → IsGenerous (host_of tools fpu math memory grants id)
    → read_handler
        (host_of tools fpu math memory grants id)
        (send_command (ascii "bye") ++ rest)
        connected
        s
      ≡ fault
bye_read tools fpu math memory grants id rest s g =
    let host = host_of tools fpu math memory grants id in
    command_read host (ascii "bye") rest s g refl
    ∙ ap (λ o. o >>= λ v. read_handler host rest connected v)
        (bye_obeyed tools fpu math memory grants id s)
