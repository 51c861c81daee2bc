-- ===== src/Server/Staying.antt =====
-- Which commands leave a client connected: src/server.cc, rtc3d_command_handler.
use sled_server.Common.{
  ℕ, ◌≡◌, refl, sym, ap, ◌∙◌, Bool, true, false, Option, none, some, List, Bool-cases, Option-cases,
  inl, inr, arith,
}
use sled_server.Common.Int.{ℤ, Fpu, is_nonneg}
use sled_server.Common.Outcome.{Outcome, OnReturn, OnReturn-bind}
use sled_server.Profile.{Profile, create, set_table, set_target}
use sled_server.Api.{
  Device, profiles_of, execute, light_set_state, sinusoid_start, sinusoid_stop, rsinusoid_start,
  rsinusoid_stop, rt_get_position,
}
use sled_server.Parser.{Command, CommandType, Tools, parse}
use sled_server.Parser.Lexer.{ascii, lex}
use sled_server.Server.{
  Server, Numerics, report, perform, is_client, find, created_slot, tlate_profile_id,
  set_next_profile, set_profile, profile_set, stream_frames, send_current_frame, obey_type,
  command_handler,
}
use sled_server.Server.Keep.{is_client-set_order}

created_slot-clients :
    (s : Server) (r : Option (ℕ × List Profile)) → (created_slot r s).0.clients ≡ s.clients
created_slot-clients s none = refl
created_slot-clients s (some (i, ps)) = refl

tlate_profile_id-clients :
    (fpu : Fpu) (z : ℤ) (s : Server) → (tlate_profile_id fpu z s).0.clients ≡ s.clients
unfolding tlate_profile_id
tlate_profile_id-clients fpu z s = elim (Option-cases (find z s.profile_tlate)) [
  | inr (i, e) ↦ rw (e, tlate_profile_id) refl
  | inl e ↦ rw (e, tlate_profile_id) (created_slot-clients s (create fpu (profiles_of s.device)))
]

set_next_profile-clients :
    (fpu : Fpu) (id : ℕ) (z : ℤ) (c : Command) (s : Server)
    → (set_next_profile fpu id z c s).clients ≡ s.clients
unfolding set_next_profile
set_next_profile-clients fpu id z c s =
    ground (arith, tlate_profile_id-clients fpu c.next_profile s)

set_profile-clients :
    (fpu : Fpu) (id : ℕ) (z : ℤ) (c : Command) (s : Server)
    → (set_profile fpu id z c s).clients ≡ s.clients
unfolding set_profile
set_profile-clients fpu id z c s =
    elim (Option-cases
      (set_target fpu z c.position_type c.position c.time (profiles_of s.device))) [
        | inl e ↦ rw (e, set_profile) refl
        | inr (ps, e) ↦ elim (Option-cases (set_table z c.table ps)) [
          | inl f ↦ rw (e, f, set_profile) refl
          | inr (qs, f) ↦ rw (e, f, set_profile) (set_next_profile-clients fpu id z c _)
        ]
      ]

profile_set-clients :
    (fpu : Fpu) (math : Numerics) (id : ℕ) (c : Command) (s : Server)
    → (profile_set fpu math id c s).clients ≡ s.clients
unfolding profile_set
profile_set-clients fpu math id c s =
    let t = tlate_profile_id fpu c.profile s in
    let e = tlate_profile_id-clients fpu c.profile s in
    elim (Bool-cases (is_nonneg t.1)) [
      | inr n ↦ rw (n, profile_set) e
      | inl y ↦ elim (Bool-cases (fpu.gt (math.abs c.position) fpu.half)) [
        | inl b ↦ rw (y, b, profile_set) (set_profile-clients fpu id t.1 c _ ∙ e)
        | inr b ↦ rw (y, b, profile_set) (set_profile-clients fpu id t.1 c t.0 ∙ e)
      ]
    ]

report-clients :
    (id : ℕ) (good bad : List ℕ) (b : Bool) (s : Server)
    → (report id good bad b s).clients ≡ s.clients
report-clients id good bad true s = refl
report-clients id good bad false s = refl

-- The client is as connected as it was.
abbrev pub Stays : ℕ → Server → Server → Type 0
Stays id s t = is_client id t.clients ≡ is_client id s.clients

performed :
    (f : Device → Outcome (Device × Bool)) (id : ℕ) (good bad : List ℕ) (s : Server)
    → OnReturn (Stays id s) (perform f (report id good bad) s)
performed f id good bad s =
    OnReturn-bind (Stays id s) (f s.device) _
      λ r. ap (is_client id) (report-clients id good bad r.1 (record s { device = r.0 }))

abbrev pub is_bye : CommandType → Bool
is_bye CommandType.cmd_bye = true
is_bye _ = false

obey_type-Stays :
    (fpu : Fpu) (math : Numerics) (id : ℕ) (c : Command) (type : CommandType) (s : Server)
    → is_bye type ≡ false
    → OnReturn (Stays id s) (obey_type fpu math id c type s)
unfolding obey_type stream_frames send_current_frame
obey_type-Stays fpu math id c CommandType.cmd_setbyteorder s n =
    is_client-set_order id id c.byte_order s.clients
obey_type-Stays fpu math id c CommandType.cmd_streamframes s n = refl
obey_type-Stays fpu math id c CommandType.cmd_sendcurrentframe s n =
    elim (Option-cases (rt_get_position s.device)) [
      | inl e ↦ rw (e, send_current_frame) refl
      | inr (p, e) ↦ rw (e, send_current_frame) refl
    ]
obey_type-Stays fpu math id c CommandType.cmd_profile_execute s n =
    let t = tlate_profile_id fpu c.profile s in
    OnReturn-bind (Stays id s) (execute fpu t.1 t.0.device) _ λ r. ap (is_client id) (
      report-clients id (ascii "ok-profile-execute") (ascii "err-profile-execute") r.1
        (record (t.0) { device = r.0 })
      ∙ tlate_profile_id-clients fpu c.profile s)
obey_type-Stays fpu math id c CommandType.cmd_profile_set s n =
    ap (is_client id) (profile_set-clients fpu math id c s)
obey_type-Stays fpu math id c CommandType.cmd_sinusoid s n = elim (Bool-cases c.boolean) [
  | inl b ↦ rw b (performed (sinusoid_start fpu c.amplitude c.period) id _ _ s)
  | inr b ↦ rw b (performed (sinusoid_stop fpu) id _ _ s)
]
obey_type-Stays fpu math id c CommandType.cmd_rsinusoid s n = elim (Bool-cases c.boolean) [
  | inl b ↦ rw b (performed (rsinusoid_start fpu c.amplitude c.period) id _ _ s)
  | inr b ↦ rw b (performed (rsinusoid_stop fpu) id _ _ s)
]
obey_type-Stays fpu math id c CommandType.cmd_lights s n =
    performed (light_set_state c.boolean) id _ _ s
obey_type-Stays fpu math id c CommandType.cmd_sendstatus s n = refl
obey_type-Stays fpu math id c CommandType.cmd_home s n = refl
obey_type-Stays fpu math id c CommandType.cmd_clearfault s n = refl
obey_type-Stays fpu math id c CommandType.cmd_bye s n = cc
obey_type-Stays fpu math id c CommandType.cmd_setinternalstatus s n = refl
obey_type-Stays fpu math id c CommandType.cmd_sendinternalstatus s n = refl

-- Whether a text is the command that disconnects.
abbrev pub asks_bye : Option Command → Bool
asks_bye none = false
asks_bye (some c) = is_bye c.type

pub command_handler-Stays :
    (tools : Tools) (fpu : Fpu) (math : Numerics) (id : ℕ) (memory : Command) (text : List ℕ)
    (s : Server)
    → asks_bye (parse tools (lex tools text) memory) ≡ false
    → OnReturn (Stays id s) (command_handler tools fpu math id memory text s)
unfolding command_handler
command_handler-Stays tools fpu math id memory text s n =
    elim (Option-cases (parse tools (lex tools text) memory)) [
      | inl e ↦ rw (e, command_handler) refl
      | inr (c, e) ↦
          rw (e, command_handler) (obey_type-Stays fpu math id c c.type s (sym (ap asks_bye e) ∙ n))
    ]
