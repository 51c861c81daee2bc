-- ===== src/Server/Isolation/Commands.antt =====
-- The commands of the clients (src/server.cc, rtc3d_command_handler) and the slots that their numbers
-- stand for.
use sled_server.Common.{
  ℕ, ◌≡◌, refl, ap, ◌∙◌, Bool, true, false, Option, none, some, List, Bool-cases, Option-cases, inl,
  inr,
}
use sled_server.Common.Int.{ℤ, negsuc, Fpu, is_nonneg}
use sled_server.Common.Outcome.{Outcome, OnReturn, OnReturn-then}
use sled_server.Profile.{Profile, set_table, set_target, set_next, no_blend}
use sled_server.Profile.Usage.{used_at, KeepsUse, set_table-KeepsUse, set_target-KeepsUse}
use sled_server.Api.{
  Device, profiles_of, with_profiles, attempt, execute, light_set_state, sinusoid_start,
  sinusoid_stop, rsinusoid_start, rsinusoid_stop, rt_get_position,
}
use sled_server.Api.Usage.{
  UsesFirst, linked, execute-Uses, sinusoid_start-Uses, sinusoid_stop-Uses, rsinusoid_start-Uses,
  rsinusoid_stop-Uses, light_set_state-Uses,
}
use sled_server.Parser.{Command, CommandType, Tools, parse}
use sled_server.Parser.Lexer.{ascii, lex}
use sled_server.Server.{
  Server, Numerics, say_error, report, perform, tlate_profile_id, set_next_profile, set_profile,
  profile_set, stream_frames, send_current_frame, disconnect, disconnect_handler, obey_type,
  command_handler,
}
use sled_server.Server.Isolation.{IsApart, IsApart-same, tlate_profile_id-IsApart}

module _ (first : ℕ → Bool) where
  abbrev Apart : Server → Type 0
  Apart s = IsApart first s

  reported :
      (id : ℕ) (good bad : List ℕ) (b : Bool) (s : Server)
      → Apart s
      → Apart (report id good bad b s)
  reported id good bad true s v = IsApart-same first s _ refl (λ j. refl) v
  reported id good bad false s v = IsApart-same first s _ refl (λ j. refl) v

  performed :
      (f : Device → Outcome (Device × Bool)) (id : ℕ) (good bad : List ℕ) (s : Server)
      → OnReturn (UsesFirst (λ j. used_at j (profiles_of s.device))) (f s.device)
      → Apart s
      → OnReturn Apart (perform f (report id good bad) s)
  performed f id good bad s h v =
      OnReturn-then (UsesFirst (λ j. used_at j (profiles_of s.device))) Apart (f s.device) _ h
        λ r k.
          reported id good bad r.1 (record s { device = r.0 })
            (IsApart-same first s (record s { device = r.0 }) refl k v)

  with_next :
      (fpu : Fpu) (z next_profile : ℤ) (delay : ℕ) (c : Command) (s : Server)
      → Apart s
      → Apart
          (record s { device = attempt (set_next fpu z next_profile delay c.blend_type) s.device })
  with_next fpu z next_profile delay c s v =
      IsApart-same first s _ refl
        (linked (λ j. used_at j (profiles_of s.device)) fpu z next_profile delay c.blend_type
          s.device (λ j. refl))
        v

  set_next_profile-Apart :
      (fpu : Fpu) (id : ℕ) (z : ℤ) (c : Command) (s : Server)
      → Apart s
      → Apart (set_next_profile fpu id z c s)
  unfolding set_next_profile
  set_next_profile-Apart fpu id z c s v =
      let t = tlate_profile_id fpu c.next_profile s in
      let w = tlate_profile_id-IsApart first fpu c.next_profile s v in
      elim (Bool-cases (is_nonneg c.next_profile)) [
        | inr n ↦ rw n (
            IsApart-same first s _ refl
              (linked (λ j. used_at j (profiles_of s.device)) fpu z (negsuc 0) (fpu.literal 0)
                no_blend s.device (λ j. refl))
              v)
        | inl y ↦ elim (Bool-cases (is_nonneg t.1)) [
          | inr n ↦ rw (y, n) (IsApart-same first t.0 _ refl (λ j. refl) w)
          | inl m ↦
              rw (y, m)
                (IsApart-same first t.0 _ refl
                  (linked (λ j. used_at j (profiles_of t.0.device)) fpu z t.1 c.next_delay
                    c.blend_type t.0.device (λ j. refl))
                  w)
        ]
      ]

  kept_at :
      (ps : List Profile) {qs : List Profile} (o : Option (List Profile))
      → o ≡ some qs
      → KeepsUse ps o
      → (j : ℕ) → used_at j qs ≡ used_at j ps
  kept_at ps {qs} (some rs) e k = let same : qs ≡ rs = cc in λ j. ap (used_at j) same ∙ k j
  kept_at ps none e k = cc

  set_profile-Apart :
      (fpu : Fpu) (id : ℕ) (z : ℤ) (c : Command) (s : Server)
      → Apart s
      → Apart (set_profile fpu id z c s)
  unfolding set_profile
  set_profile-Apart fpu id z c s v =
      let o = set_target fpu z c.position_type c.position c.time (profiles_of s.device) in
      elim (Option-cases o) [
        | inl e ↦ rw (e, set_profile) (IsApart-same first s _ refl (λ j. refl) v)
        | inr (ps, e) ↦
            let t : Server = record s { device = with_profiles ps s.device } in
            let w =
              IsApart-same first s t refl
                (kept_at (profiles_of s.device) o e (
                  set_target-KeepsUse fpu z c.position_type c.position c.time
                    (profiles_of s.device)))
                v in
            elim (Option-cases (set_table z c.table ps)) [
              | inl f ↦ rw (e, f, set_profile) (IsApart-same first t _ refl (λ j. refl) w)
              | inr (qs, f) ↦
                  rw (e, f, set_profile)
                    (set_next_profile-Apart fpu id z c _ (
                      IsApart-same first t _ refl
                        (kept_at ps (set_table z c.table ps) f (set_table-KeepsUse z c.table ps))
                        w))
            ]
      ]

  profile_set-Apart :
      (fpu : Fpu) (math : Numerics) (id : ℕ) (c : Command) (s : Server)
      → Apart s
      → Apart (profile_set fpu math id c s)
  unfolding profile_set
  profile_set-Apart fpu math id c s v =
      let t = tlate_profile_id fpu c.profile s in
      let w = tlate_profile_id-IsApart first fpu c.profile s v in
      let bad =
        IsApart-same first t.0 (say_error id (ascii "err-profile-set") t.0) refl (λ j. refl) w in
      elim (Bool-cases (is_nonneg t.1)) [
        | inr n ↦ rw (n, profile_set) bad
        | inl y ↦ elim (Bool-cases (fpu.gt (math.abs c.position) fpu.half)) [
          | inl b ↦ rw (y, b, profile_set) (set_profile-Apart fpu id t.1 c _ bad)
          | inr b ↦ rw (y, b, profile_set) (set_profile-Apart fpu id t.1 c t.0 w)
        ]
      ]

  obey_type-Apart :
      (fpu : Fpu) (math : Numerics) (id : ℕ) (c : Command) (type : CommandType) (s : Server)
      → Apart s
      → OnReturn Apart (obey_type fpu math id c type s)
  unfolding obey_type stream_frames send_current_frame disconnect disconnect_handler
  obey_type-Apart fpu math id c CommandType.cmd_sendcurrentframe s v =
      elim (Option-cases (rt_get_position s.device)) [
        | inl e ↦ rw (e, send_current_frame) (IsApart-same first s _ refl (λ j. refl) v)
        | inr (p, e) ↦ rw (e, send_current_frame) (IsApart-same first s _ refl (λ j. refl) v)
      ]
  obey_type-Apart fpu math id c CommandType.cmd_profile_execute s v =
      let t = tlate_profile_id fpu c.profile s in
      performed (execute fpu t.1) id (ascii "ok-profile-execute") (ascii "err-profile-execute") t.0
        (execute-Uses _ fpu t.1 t.0.device (λ j. refl))
        (tlate_profile_id-IsApart first fpu c.profile s v)
  obey_type-Apart fpu math id c CommandType.cmd_profile_set s v =
      profile_set-Apart fpu math id c s v
  obey_type-Apart fpu math id c CommandType.cmd_sinusoid s v = elim (Bool-cases c.boolean) [
    | inl b ↦ rw b (
        performed (sinusoid_start fpu c.amplitude c.period) id _ _ s
          (sinusoid_start-Uses _ fpu c.amplitude c.period s.device (λ j. refl)) v)
    | inr b ↦
        rw b
          (performed (sinusoid_stop fpu) id _ _ s (sinusoid_stop-Uses _ fpu s.device (λ j. refl)) v)
  ]
  obey_type-Apart fpu math id c CommandType.cmd_rsinusoid s v = elim (Bool-cases c.boolean) [
    | inl b ↦ rw b (
        performed (rsinusoid_start fpu c.amplitude c.period) id _ _ s
          (rsinusoid_start-Uses _ fpu c.amplitude c.period s.device (λ j. refl)) v)
    | inr b ↦
        rw b (
          performed (rsinusoid_stop fpu) id _ _ s (rsinusoid_stop-Uses _ fpu s.device (λ j. refl))
            v)
  ]
  obey_type-Apart fpu math id c CommandType.cmd_lights s v =
      performed (light_set_state c.boolean) id _ _ s
        (light_set_state-Uses _ c.boolean s.device (λ j. refl)) v
  obey_type-Apart fpu math id c CommandType.cmd_sendstatus s v = v
  obey_type-Apart fpu math id c CommandType.cmd_home s v = v
  obey_type-Apart fpu math id c CommandType.cmd_clearfault s v = v
  obey_type-Apart fpu math id c CommandType.cmd_setbyteorder s v =
      IsApart-same first s _ refl (λ j. refl) v
  obey_type-Apart fpu math id c CommandType.cmd_streamframes s v =
      IsApart-same first s _ refl (λ j. refl) v
  obey_type-Apart fpu math id c CommandType.cmd_bye s v = IsApart-same first s _ refl (λ j. refl) v
  obey_type-Apart fpu math id c CommandType.cmd_setinternalstatus s v =
      IsApart-same first s _ refl (λ j. refl) v
  obey_type-Apart fpu math id c CommandType.cmd_sendinternalstatus s v =
      IsApart-same first s _ refl (λ j. refl) v

  pub command_handler-Apart :
      (tools : Tools) (fpu : Fpu) (math : Numerics) (id : ℕ) (memory : Command) (text : List ℕ)
      (s : Server)
      → Apart s
      → OnReturn Apart (command_handler tools fpu math id memory text s)
  unfolding command_handler
  command_handler-Apart tools fpu math id memory text s v =
      elim (Option-cases (parse tools (lex tools text) memory)) [
        | inl e ↦ rw (e, command_handler) (IsApart-same first s _ refl (λ j. refl) v)
        | inr (c, e) ↦ rw (e, command_handler) (obey_type-Apart fpu math id c c.type s v)
      ]
