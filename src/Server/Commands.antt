-- ===== src/Server/Commands.antt =====
-- The commands of a client (src/server.cc, rtc3d_command_handler) and the order of the server.
use sled_server.Common.{
  ℕ, ◌≡◌, refl, sym, Bool, true, false, if◌then◌else◌, Option, some, List, Bool-cases, Option-cases,
  inl, inr,
}
use sled_server.Common.Int.{ℤ, negsuc, Fpu, is_nonneg}
use sled_server.Common.Outcome.{Allows-of_Ensures, Outcome, Allows, Allows-bind}
use sled_server.Profile.{Profile, set_table, set_target, no_blend}
use sled_server.Api.{
  Device, profiles_of, with_profiles, attempt, execute, light_set_state, rt_get_position,
  sinusoid_start, sinusoid_stop, rsinusoid_start, rsinusoid_stop,
}
use sled_server.Api.Soundness.{
  IsReady, IsReadyFirst, set_table-IsReady, set_target-IsReady, set_next-IsReady, execute-IsReady,
}
use sled_server.Api.Motions.{
  sinusoid_start-IsReady, sinusoid_stop-IsReady, rsinusoid_start-IsReady, rsinusoid_stop-IsReady,
  light_set_state-IsReady,
}
use sled_server.Parser.{Command, CommandType, Tools, parse}
use sled_server.Parser.Lexer.{ascii, lex}
use sled_server.Server.{
  Server, Numerics, Reply, say, say_error, report, perform, is_client, tlate_profile_id,
  set_next_profile, set_profile, profile_set, stream_frames, send_current_frame, disconnect,
  disconnect_handler, sinusoid, rsinusoid, profile_execute, obey_type, command_handler,
}
use sled_server.Server.Keep.{
  IsInOrder, tlate_profile_id-HasGoodSlot, all_clients-remove, all_clients-append,
  all_clients-set_order, all_clients-without,
}

with_device :
    (d : Device) (s : Server) → IsReady d → IsInOrder s → IsInOrder (record s { device = d })
with_device d s r v = record { ready = r; translated = v.translated; streaming = v.streaming }

said : (id : ℕ) (reply : Reply) (s : Server) → IsInOrder s → IsInOrder (say id reply s)
said id reply s v = record { ready = v.ready; translated = v.translated; streaming = v.streaming }

reported :
    (id : ℕ) (good bad : List ℕ) (b : Bool) (s : Server)
    → IsInOrder s
    → IsInOrder (report id good bad b s)
reported id good bad true s v = said id _ s v
reported id good bad false s v = said id _ s v

perform-IsInOrder :
    (f : Device → Outcome (Device × Bool)) (id : ℕ) (good bad : List ℕ) (s : Server)
    → Allows IsReadyFirst (f s.device)
    → IsInOrder s
    → Allows IsInOrder (perform f (report id good bad) s)
perform-IsInOrder f id good bad s h v =
    Allows-bind IsReadyFirst IsInOrder (f s.device) _ h
      λ r g. reported id good bad r.1 _ (with_device r.0 s g v)

-- What a setter leaves when it takes its arguments.
attempted :
    (f : List Profile → Option (List Profile)) (d : Device) {ps : List Profile}
    → f (profiles_of d) ≡ some ps
    → IsReady (attempt f d)
    → IsReady (with_profiles ps d)
attempted f d {ps} e h = rw (sym at_table) h
  where
    at_table : attempt f d ≡ with_profiles ps d
    at_table = rw (attempt, e) refl

set_next_profile-IsInOrder :
    (fpu : Fpu) (id : ℕ) (z : ℤ) (c : Command) (s : Server)
    → IsInOrder s
    → IsInOrder (set_next_profile fpu id z c s)
unfolding set_next_profile
set_next_profile-IsInOrder fpu id z c s v =
    let (w, t) = tlate_profile_id-HasGoodSlot fpu c.next_profile s v in
    let u = tlate_profile_id fpu c.next_profile s in
    elim (Bool-cases (is_nonneg c.next_profile)) [
      | inr n ↦ rw n (
          said id _ _ (
            with_device _ s
              (set_next-IsReady fpu z (negsuc 0) (fpu.literal 0) no_blend s.device refl v.ready) v))
      | inl n ↦ elim (Bool-cases (is_nonneg u.1)) [
        | inr m ↦ rw (n, m) (said id _ _ w)
        | inl m ↦
            rw (n, m)
              (said id _ _ (
                with_device _ u.0
                  (set_next-IsReady fpu z u.1 c.next_delay c.blend_type (u.0.device) t w.ready) w))
      ]
    ]

set_profile-IsInOrder :
    (fpu : Fpu) (id : ℕ) (z : ℤ) (c : Command) (s : Server)
    → IsInOrder s
    → IsInOrder (set_profile fpu id z c s)
unfolding set_profile
set_profile-IsInOrder fpu id z c s v =
    let f = set_target fpu z c.position_type c.position c.time in
    elim (Option-cases (f (profiles_of s.device))) [
      | inl e ↦ rw (e, set_profile) (said id _ s v)
      | inr (ps, e) ↦
          let r =
            attempted f s.device e
              (set_target-IsReady fpu z c.position_type c.position c.time s.device v.ready) in
          let w = with_device (with_profiles ps s.device) s r v in
          elim (Option-cases (set_table z c.table ps)) [
            | inl g ↦ rw (e, set_profile, g) (said id _ _ w)
            | inr (qs, g) ↦
                rw (e, set_profile, g)
                  (set_next_profile-IsInOrder fpu id z c _ (
                    with_device _ _
                      (attempted (set_table z c.table) (with_profiles ps s.device) g
                        (set_table-IsReady z c.table _ r))
                      w))
          ]
    ]

profile_set-IsInOrder :
    (fpu : Fpu) (math : Numerics) (id : ℕ) (c : Command) (s : Server)
    → IsInOrder s
    → IsInOrder (profile_set fpu math id c s)
unfolding profile_set
profile_set-IsInOrder fpu math id c s v =
    let (w, t) = tlate_profile_id-HasGoodSlot fpu c.profile s v in
    let u = tlate_profile_id fpu c.profile s in
    elim (Bool-cases (is_nonneg u.1)) [
      | inr n ↦ rw n (said id _ _ w)
      | inl n ↦
          rw n
            (set_profile-IsInOrder fpu id u.1 c _ (warned (fpu.gt (math.abs c.position) fpu.half)))
    ]
  where
    warned :
        (b : Bool)
        → IsInOrder (
            if b
            then say_error id (ascii "err-profile-set") ((tlate_profile_id fpu c.profile s).0)
            else (tlate_profile_id fpu c.profile s).0)
    warned true = said id _ _ (tlate_profile_id-HasGoodSlot fpu c.profile s v).0
    warned false = (tlate_profile_id-HasGoodSlot fpu c.profile s v).0

stream_frames-IsInOrder :
    (id : ℕ) (on : Bool) (s : Server)
    → is_client id s.clients ≡ true
    → IsInOrder s
    → IsInOrder (stream_frames id on s)
unfolding stream_frames
stream_frames-IsInOrder id true s c v = record {
  ready = v.ready;
  translated = v.translated;
  streaming =
      all_clients-append id _ s.clients
        (all_clients-remove id s.stream_clients s.clients v.streaming) c;
}
stream_frames-IsInOrder id false s c v = record {
  ready = v.ready;
  translated = v.translated;
  streaming = all_clients-remove id s.stream_clients s.clients v.streaming;
}

send_current_frame-IsInOrder :
    (fpu : Fpu) (math : Numerics) (id : ℕ) (s : Server)
    → IsInOrder s
    → IsInOrder (send_current_frame fpu math id s)
unfolding send_current_frame
send_current_frame-IsInOrder fpu math id s v = elim (Option-cases (rt_get_position s.device)) [
  | inl e ↦ rw (e, send_current_frame) (said id _ s v)
  | inr (position, e) ↦ rw (e, send_current_frame) (said id _ s v)
]

pub disconnect-IsInOrder : (id : ℕ) (s : Server) → IsInOrder s → IsInOrder (disconnect id s)
unfolding disconnect disconnect_handler
disconnect-IsInOrder id s v = record {
  ready = v.ready;
  translated = v.translated;
  streaming = all_clients-without id s.stream_clients s.clients v.streaming;
}

sinusoid-IsInOrder :
    (fpu : Fpu) (id : ℕ) (c : Command) (s : Server)
    → IsInOrder s
    → Allows IsInOrder (sinusoid fpu id c s)
sinusoid-IsInOrder fpu id c s v = elim (Bool-cases c.boolean) [
  | inl b ↦ rw b (
      perform-IsInOrder (sinusoid_start fpu c.amplitude c.period) id (ascii "ok-sinusoid-start")
        (ascii "err-sinusoid-start") s
        (sinusoid_start-IsReady fpu c.amplitude c.period s.device v.ready) v)
  | inr b ↦ rw b (
      perform-IsInOrder (sinusoid_stop fpu) id (ascii "ok-sinusoid-stop")
        (ascii "err-sinusoid-stop") s (sinusoid_stop-IsReady fpu s.device v.ready) v)
]

rsinusoid-IsInOrder :
    (fpu : Fpu) (id : ℕ) (c : Command) (s : Server)
    → IsInOrder s
    → Allows IsInOrder (rsinusoid fpu id c s)
rsinusoid-IsInOrder fpu id c s v = elim (Bool-cases c.boolean) [
  | inl b ↦ rw b (
      perform-IsInOrder (rsinusoid_start fpu c.amplitude c.period) id (ascii "ok-rsinusoid-start")
        (ascii "err-rsinusoid-start") s
        (rsinusoid_start-IsReady fpu c.amplitude c.period s.device v.ready) v)
  | inr b ↦ rw b (
      perform-IsInOrder (rsinusoid_stop fpu) id (ascii "ok-rsinusoid-stop")
        (ascii "err-rsinusoid-stop") s (rsinusoid_stop-IsReady fpu s.device v.ready) v)
]

profile_execute-IsInOrder :
    (fpu : Fpu) (id : ℕ) (c : Command) (s : Server)
    → IsInOrder s
    → Allows IsInOrder (profile_execute fpu id c s)
profile_execute-IsInOrder fpu id c s v =
    let (w, t) = tlate_profile_id-HasGoodSlot fpu c.profile s v in
    let u = tlate_profile_id fpu c.profile s in
    perform-IsInOrder (execute fpu u.1) id _ _ u.0 (execute-IsReady fpu u.1 (u.0.device) w.ready) w

obey_type-IsInOrder :
    (fpu : Fpu) (math : Numerics) (id : ℕ) (c : Command) (type : CommandType) (s : Server)
    → is_client id s.clients ≡ true
    → IsInOrder s
    → Allows IsInOrder (obey_type fpu math id c type s)
unfolding obey_type
obey_type-IsInOrder fpu math id c CommandType.cmd_setbyteorder s k v = said id _ _ (record {
  ready = v.ready;
  translated = v.translated;
  streaming = all_clients-set_order id c.byte_order s.stream_clients s.clients v.streaming;
})
obey_type-IsInOrder fpu math id c CommandType.cmd_streamframes s k v =
    stream_frames-IsInOrder id c.boolean s k v
obey_type-IsInOrder fpu math id c CommandType.cmd_sendcurrentframe s k v =
    send_current_frame-IsInOrder fpu math id s v
obey_type-IsInOrder fpu math id c CommandType.cmd_profile_execute s k v =
    profile_execute-IsInOrder fpu id c s v
obey_type-IsInOrder fpu math id c CommandType.cmd_profile_set s k v =
    profile_set-IsInOrder fpu math id c s v
obey_type-IsInOrder fpu math id c CommandType.cmd_sinusoid s k v = sinusoid-IsInOrder fpu id c s v
obey_type-IsInOrder fpu math id c CommandType.cmd_rsinusoid s k v = rsinusoid-IsInOrder fpu id c s v
obey_type-IsInOrder fpu math id c CommandType.cmd_lights s k v =
    perform-IsInOrder (light_set_state c.boolean) id (ascii "ok-light") (ascii "err-light") s
      (Allows-of_Ensures IsReadyFirst (light_set_state c.boolean s.device)
        (light_set_state-IsReady c.boolean s.device v.ready))
      v
obey_type-IsInOrder fpu math id c CommandType.cmd_sendstatus s k v = v
obey_type-IsInOrder fpu math id c CommandType.cmd_home s k v = v
obey_type-IsInOrder fpu math id c CommandType.cmd_clearfault s k v = v
obey_type-IsInOrder fpu math id c CommandType.cmd_bye s k v =
    disconnect-IsInOrder id _ (said id _ s v)
obey_type-IsInOrder fpu math id c CommandType.cmd_setinternalstatus s k v = said id _ s v
obey_type-IsInOrder fpu math id c CommandType.cmd_sendinternalstatus s k v = said id _ s v

-- Whatever text a connected client sends to a server in order, and whatever the memory holds that it is
-- parsed into, the
-- command handler faults nowhere, but for the conversion of a number that an int32_t cannot hold; and
-- where it neither comes to such a number nor ends the process, it leaves the server in order: the state
-- machines and the queue of libsled, its profile table with the four profiles of sled_create, the
-- translation of profile numbers, and the connections to which frames are streamed.
pub command_handler-IsInOrder :
    (tools : Tools) (fpu : Fpu) (math : Numerics) (id : ℕ) (memory : Command) (text : List ℕ)
    (s : Server)
    → is_client id s.clients ≡ true
    → IsInOrder s
    → Allows IsInOrder (command_handler tools fpu math id memory text s)
unfolding command_handler
command_handler-IsInOrder tools fpu math id memory text s k v =
    elim (Option-cases (parse tools (lex tools text) memory)) [
      | inl e ↦ rw (e, command_handler) (said id _ s v)
      | inr (c, e) ↦ rw (e, command_handler) (obey_type-IsInOrder fpu math id c c.type s k v)
    ]
