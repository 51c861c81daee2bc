-- ===== src/Program/Isolation.antt =====
-- The slots of the profile table that clients get, in the program as a whole.
use mathlib.Core.Bool.{true≢false}
use mathlib.Core.Path.{subst}
use sled_server.Common.{
  ℕ, ◌+◌, ◌≡◌, refl, sym, ap, ◌∙◌, Bool, true, false, Option, some, none, List, [], ◌∷◌, Bool-cases,
  Option-cases, inl, inr, arith,
}
use sled_server.Common.Int.{ℤ, pos, Double}
use sled_server.Common.Outcome.{Outcome, running, exited, overflow, fault, OnReturn, OnReturn-then}
use sled_server.Tcp.{
  NetConnection, NetServer, Accepting, failed, ended, bytes, entry, connection_at, net_disconnect,
  net_on_read, net_on_client_event, net_on_new_connection,
}
use sled_server.Profile.Usage.{used_at}
use sled_server.Api.{profiles_of, on_sled, rt_get_position_and_time}
use sled_server.Api.Usage.{UsesSlots, step-Uses}
use sled_server.Sled.Loop
use sled_server.Rtc3d.{read_handler}
use sled_server.Server.{
  Server, Numerics, Reply, is_client, say, find, connect, disconnect, command_handler,
}
use sled_server.Server
use sled_server.Server.Ticks.{on_timeout, send_frames, next_frame, frame_of, update_timeout_stats}
use sled_server.Server.Isolation.{
  IsApart, IsApart-same, is_given, are_apart, is_given-found, find-apart,
}
use sled_server.Server.Isolation.Commands.{command_handler-Apart}
use sled_server.Program.{
  Program, Env, Event, new_connection, readable, client_event, timeout, device_event, id_of,
  has_local, local_at, host_at, handlers, connect_handler, disconnect_handler, read, read_local,
  with_server, on_device, callback, survive, step,
}
use sled_server.Program.Reading.{read_handler-Has}
use sled_server.Program.Reach.{Reaches, start, next, begin}

module _ (first : ℕ → Bool) (env : Env) where
  abbrev Apart : NetServer Program → Type 0
  Apart s = IsApart first s.user.server

  new_connection-Apart :
      (a : Accepting) (granted : Bool) (s : NetServer Program)
      → Apart s
      → Apart (net_on_new_connection (handlers env granted) a s)
  unfolding net_on_new_connection handlers connect_handler connect
  new_connection-Apart a granted s v =
      let joined =
        IsApart-same first s.user.server (connect (id_of a.client) s.user.server) refl (λ j. refl)
          v in
      elim (Bool-cases a.event_new) [
        | inr e ↦ rw e v
        | inl e ↦ elim (Bool-cases a.event_add) [
          | inr f ↦ rw (e, f) v
          | inl f ↦ elim (Bool-cases a.bufferevent_socket_new) [
            | inl b ↦ elim (Bool-cases granted) [
              | inl g ↦ rw (e, f, b, g) joined
              | inr g ↦ rw (e, f, b, g) v
            ]
            | inr b ↦ rw (e, f, b) v
          ]
        ]
      ]

  disconnect-Apart :
      (o : Option NetConnection) (s : NetServer Program)
      → Apart s
      → Apart (net_disconnect (handlers env true) o s)
  unfolding net_disconnect handlers disconnect_handler disconnect Server.disconnect_handler
  disconnect-Apart none s v = v
  disconnect-Apart (some c) s v = elim (Bool-cases (has_local c.fd s.user.local)) [
    | inl k ↦ rw k (
        IsApart-same first s.user.server (disconnect (id_of c.fd) s.user.server) refl (λ j. refl) v)
    | inr k ↦ rw k v
  ]

  connection_at-Apart : (fd : ℤ) (s : NetServer Program) → Apart s → Apart (connection_at fd s).1
  unfolding connection_at
  connection_at-Apart fd s v = elim (Option-cases (entry fd s.connection_data)) [
    | inl e ↦ rw (e, connection_at) v
    | inr (c, e) ↦ rw (e, connection_at) v
  ]

  gone-Apart :
      (fd : ℤ) (s : NetServer Program)
      → Apart s
      → Apart (net_disconnect (handlers env true) (connection_at fd s).0 (connection_at fd s).1)
  gone-Apart fd s v =
      disconnect-Apart (connection_at fd s).0 (connection_at fd s).1 (connection_at-Apart fd s v)

  weaken :
      (id : ℕ) (m : Outcome Server)
      → OnReturn (IsApart first) m
      → OnReturn (λ v. is_client id v.clients ≡ true → IsApart first v) m
  weaken id (running v) h = λ c. h
  weaken id exited h = tt
  weaken id overflow h = tt
  weaken id fault h = tt

  read-Apart :
      (o : Option NetConnection) (buffer : List ℕ) (s : NetServer Program)
      → Apart s
      → OnReturn Apart (read env o buffer s)
  unfolding read read_local
  read-Apart none buffer s v = tt
  read-Apart (some c) buffer s v = elim (Option-cases (local_at c.fd s.user.local)) [
    | inl e ↦ rw (e, read_local) tt
    | inr (l, e) ↦
        rw (e, read_local)
          (OnReturn-then (λ r. IsApart first r.1) Apart
            (read_handler (host_at env c.fd) buffer l s.user.server) _
            (read_handler-Has (host_at env c.fd) (IsApart first)
              (λ text u w.
                weaken (id_of c.fd)
                  (command_handler env.tools env.fpu env.math (id_of c.fd) (env.memory u) text u)
                  (command_handler-Apart first env.tools env.fpu env.math (id_of c.fd)
                    (env.memory u) text u w))
              buffer l s.user.server v)
            λ r k. k)
  ]

  send_frames-Apart :
      (reply : Reply) (ids : List ℕ) (s : Server)
      → IsApart first s
      → OnReturn (IsApart first) (send_frames reply ids s)
  unfolding send_frames
  send_frames-Apart reply [] s v = v
  send_frames-Apart reply (id ∷ ids) s v = elim (Bool-cases (is_client id s.clients)) [
    | inr n ↦ rw n tt
    | inl y ↦ rw y (
        send_frames-Apart reply ids (say id reply s)
          (IsApart-same first s (say id reply s) refl (λ j. refl) v))
  ]

  next_frame-Apart : (s : Server) → IsApart first s → OnReturn (IsApart first) (next_frame s)
  unfolding next_frame
  next_frame-Apart s v = ground (
    arith,
    IsApart-same first s (record s { frame_number = s.frame_number + 1 }) refl (λ j. refl) v,
  )

  server-Apart :
      (f : Server → Outcome Server) (s : NetServer Program)
      → OnReturn (IsApart first) (f s.user.server)
      → OnReturn Apart (with_server f s)
  unfolding with_server
  server-Apart f s h = OnReturn-then (IsApart first) Apart (f s.user.server) _ h λ u k. k

  timeout-Apart :
      (tcurrent now nan : Double) (s : Server)
      → IsApart first s
      → OnReturn (IsApart first) (on_timeout env.fpu env.math tcurrent now nan s)
  unfolding on_timeout
  timeout-Apart tcurrent now nan s v =
      let t : Server = record s { stats = update_timeout_stats env.fpu tcurrent s.stats } in
      let time = (rt_get_position_and_time now nan s.device).1.0 in
      let reply = frame_of env.fpu env.math tcurrent time s.frame_number in
      OnReturn-then (IsApart first) (IsApart first) (send_frames reply s.stream_clients t)
        next_frame
        (send_frames-Apart reply s.stream_clients t (IsApart-same first s t refl (λ j. refl) v))
        next_frame-Apart

  device-Apart :
      (now : Double) (i : Loop.Input) (s : Server)
      → IsApart first s
      → OnReturn (IsApart first) (on_device (on_sled (Loop.step env.fpu now i)) s)
  unfolding on_device
  device-Apart now i s v =
      let b = λ (j : ℕ). used_at j (profiles_of s.device) in
      OnReturn-then (UsesSlots b) (IsApart first) (on_sled (Loop.step env.fpu now i) s.device) _
        (step-Uses b env.fpu now i s.device (λ j. refl))
        λ d k. IsApart-same first s (record s { device = d }) refl k v

  callback-Apart : (e : Event) (s : NetServer Program) → Apart s → OnReturn Apart (callback env e s)
  unfolding callback net_on_read net_on_client_event handlers
  callback-Apart (new_connection a granted) s v = new_connection-Apart a granted s v
  callback-Apart (readable fd failed) s v = gone-Apart fd s v
  callback-Apart (readable fd ended) s v = gone-Apart fd s v
  callback-Apart (readable fd (bytes buffer)) s v =
      read-Apart (connection_at fd s).0 buffer (connection_at fd s).1 (connection_at-Apart fd s v)
  callback-Apart (client_event fd true) s v = gone-Apart fd s v
  callback-Apart (client_event fd false) s v = v
  callback-Apart (timeout tcurrent now nan) s v =
      server-Apart (on_timeout env.fpu env.math tcurrent now nan) s
        (timeout-Apart tcurrent now nan s.user.server v)
  callback-Apart (device_event now i) s v =
      server-Apart (on_device (on_sled (Loop.step env.fpu now i))) s
        (device-Apart now i s.user.server v)

  step-Apart : (e : Event) (s : NetServer Program) → Apart s → OnReturn Apart (step env e s)
  unfolding step
  step-Apart e s v =
      OnReturn-then Apart Apart (callback env e s) survive (callback-Apart e s v)
        λ t w. elim (Bool-cases t.user.crashed) [ inl k ↦ rw k tt | inr k ↦ rw k w ]

  Reaches-Apart : (s t : NetServer Program) → Apart s → Reaches env s t → Apart t
  Reaches-Apart s t v start = v
  Reaches-Apart s t v (next {t = w} e r d q) =
      subst (OnReturn Apart) q (step-Apart e w (Reaches-Apart s w v r))

-- In every state that the program reaches from a server that has translated no number yet, two numbers
-- of clients that stand for one profile of libsled are the same number, and that profile was free when
-- the server began, so it is none of those that libsled had registered for itself.
pub Reaches-isolated :
    (env : Env) (s : Server) (t : NetServer Program) (k n : ℤ) (j : ℕ)
    → s.profile_tlate ≡ []
    → Reaches env (begin s) t
    → find k t.user.server.profile_tlate ≡ some (pos j)
    → find n t.user.server.profile_tlate ≡ some (pos j)
    → (k ≡ n) × (used_at j (profiles_of s.device) ≡ false)
Reaches-isolated env s t k n j e r f g =
    let b = λ (i : ℕ). used_at i (profiles_of s.device) in
    let v = Reaches-Apart b env (begin s) t (fresh b s e (λ i. refl)) r in
    (
      find-apart k n j t.user.server.profile_tlate v.apart f g,
      elim (Bool-cases (used_at j (profiles_of s.device))) [
        | inr u ↦ u
        | inl u ↦ absurd (is_given-found k j t.user.server.profile_tlate (v.reserved j u) f)
      ],
    )
  where
    fresh :
        (b : ℕ → Bool) (s : Server)
        → s.profile_tlate ≡ []
        → ((i : ℕ) → used_at i (profiles_of s.device) ≡ b i)
        → IsApart b s
    fresh b s e u = record {
      used = λ i g. absurd (true≢false (sym g ∙ ap (is_given i) e));
      apart = ap are_apart e;
      kept = λ i h. u i ∙ h;
      reserved = λ i h. ap (is_given i) e;
    }
