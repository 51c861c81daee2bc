-- ===== src/Program/Connecting.antt =====
-- The callbacks of librtc3d/server.cc and the three tables of connections.
use mathlib.Core.Path.{subst}
use sled_server.Common.{
  ℕ, ◌≡◌, refl, sym, ap, ◌∙◌, Bool, true, not, ◌&&◌, ◌||◌, ◌==◌, some, List, [], ◌∷◌, Bool-cases,
  inl, inr, arith,
}
use sled_server.Common.Int.{ℤ, eq_ℤ}
use sled_server.Common.Outcome.{
  Outcome, running, exited, overflow, fault, OnReturn, OnReturn-then, Allows,
}
use sled_server.Parser.{ByteOrder, big_endian}
use sled_server.Parser.{parse}
use sled_server.Parser.Lexer.{lex}
use sled_server.Tcp.{
  NetConnection, NetServer, Accepting, fresh, net_disconnect, net_on_new_connection, assign,
}
use sled_server.Tcp.Connections.{
  IsTidy, eq_ℤ_sound, is_known, is_known-assign, is_known-erase, net_on_new_connection-IsTidy,
  net_disconnect-IsTidy,
}
use sled_server.Rtc3d.{read_handler}
use sled_server.Server.{Server, connect, disconnect, is_client, command_handler}
use sled_server.Server
use sled_server.Server.Keep.{IsInOrder, all_clients}
use sled_server.Server.Commands.{disconnect-IsInOrder, command_handler-IsInOrder}
use sled_server.Server.Replies.{IsStep}
use sled_server.Server.Answers.{command_handler-IsStep, least_due, most_due}
use sled_server.Program.{
  Program, Env, id_of, has_local, host_at, handlers, connect_handler, disconnect_handler, read,
  read_local,
}
use sled_server.Program.Coupling.{
  IsCoupled, id_of-eq_ℤ, has_local-set_local, local_at-has_local, has_local-free_local,
  is_client-free,
}
use sled_server.Program.Reading.{read_handler-Has}

all_clients-cons :
    (id : ℕ) (o : ByteOrder) (ids : List ℕ) (clients : List (ℕ × ByteOrder))
    → all_clients ids clients ≡ true
    → all_clients ids ((id, o) ∷ clients) ≡ true
all_clients-cons id o [] clients h = refl
all_clients-cons id o (x ∷ ids) clients h =
    ground (arith, h, all_clients-cons id o ids clients (ground (arith, h)))

connect-IsInOrder : (id : ℕ) (s : Server) → IsInOrder s → IsInOrder (connect id s)
unfolding connect
connect-IsInOrder id s v = record {
  ready = v.ready;
  translated = v.translated;
  streaming = all_clients-cons id big_endian s.stream_clients s.clients v.streaming;
}

module _ (env : Env) (s : NetServer Program) (v : IsCoupled s) where
  -- The connection that is added last.
  abbrev added : Accepting → NetServer Program
  added a = record s {
    connection_data = assign a.client (some (fresh a.client)) s.connection_data;
    reading = a.client ∷ s.reading;
    user = connect_handler true (fresh a.client) s.user;
  }

  -- A new connection leaves the program coupled, if its buffer and its context can be made.
  pub new_connection-IsCoupled :
      (a : Accepting)
      → a.bufferevent_socket_new ≡ true
      → IsCoupled (net_on_new_connection (handlers env true) a s)
  unfolding net_on_new_connection handlers connect_handler connect
  new_connection-IsCoupled a b =
      let t = net_on_new_connection-IsTidy (handlers env true) a s b v.tidy in
      elim (Bool-cases a.event_new) [
        | inr e ↦ rw e v
        | inl e ↦ elim (Bool-cases a.event_add) [
          | inr f ↦ rw (e, f) v
          | inl f ↦
              let same : net_on_new_connection (handlers env true) a s ≡ added a =
                rw (net_on_new_connection, e, f, b) refl in
              subst IsCoupled (sym same) (record {
                tidy = subst IsTidy same t;
                order = connect-IsInOrder (id_of a.client) s.user.server v.order;
                alive = v.alive;
                clients = λ x.
                    ap (λ z. z || is_client (id_of x) s.user.server.clients) (id_of-eq_ℤ a.client x)
                    ∙ ap (λ z. eq_ℤ a.client x || z) (v.clients x)
                    ∙ sym (is_known-assign x a.client (some (fresh a.client)) s.connection_data);
                contexts = λ x.
                    ap (λ z. eq_ℤ a.client x || z) (v.contexts x)
                    ∙ sym (is_known-assign x a.client (some (fresh a.client)) s.connection_data);
              })
        ]
      ]

  pub disconnect-IsCoupled :
      (c : NetConnection)
      → c.read_event ≡ true
      → is_known c.fd s.connection_data ≡ true
      → IsCoupled (net_disconnect (handlers env true) (some c) s)
  unfolding net_disconnect handlers disconnect_handler disconnect Server.disconnect_handler
  disconnect-IsCoupled c r k =
      let t = net_disconnect-IsTidy (handlers env true) c s r v.tidy in
      let there : has_local c.fd s.user.local ≡ true = v.contexts c.fd ∙ k in
      rw there (record {
        tidy = subst IsTidy (rw there refl) t;
        order = disconnect-IsInOrder (id_of c.fd) s.user.server v.order;
        alive = v.alive;
        clients = λ x.
            let gone = is_client-free x c.fd s.user.server.clients in
            gone
            ∙ ap (λ b. not (eq_ℤ c.fd x) && b) (v.clients x)
            ∙ sym (is_known-erase x c.fd s.connection_data);
        contexts = λ x.
            has_local-free_local x c.fd s.user.local
            ∙ ap (λ b. not (eq_ℤ c.fd x) && b) (v.contexts x)
            ∙ sym (is_known-erase x c.fd s.connection_data);
      })

-- What holds of the server while the bytes of one descriptor are read: the clients stay the same.
pub record IsHeld (known : ℤ → Bool) (u : Server) : Type 0 where
  pub order : IsInOrder u
  pub clients : (x : ℤ) → is_client (id_of x) u.clients ≡ known x

held :
    (id lo hi : ℕ) {u : Server} (known : ℤ → Bool) (fd : ℤ) (m : Outcome Server)
    → id ≡ id_of fd
    → known fd ≡ true
    → IsHeld known u
    → Allows IsInOrder m
    → OnReturn (IsStep id lo hi u) m
    → OnReturn (λ v. is_client id v.clients ≡ true → IsHeld known v) m
held id lo hi known fd (running v) e k q w g = λ c. record {
  order = w;
  clients = λ x. elim (Bool-cases (eq_ℤ x fd)) [
    | inl n ↦
        let p = eq_ℤ_sound x fd n in
        ap (λ z. is_client (id_of z) v.clients) p
        ∙ ap (λ z. is_client z v.clients) (sym e)
        ∙ c
        ∙ sym k
        ∙ ap known (sym p)
    | inr n ↦ g.others (id_of x) (ap (λ z. id_of x == z) e ∙ id_of-eq_ℤ x fd ∙ n) ∙ q.clients x
  ];
}
held id lo hi known fd exited e k q w g = tt
held id lo hi known fd overflow e k q w g = tt
held id lo hi known fd fault e k q w g = tt

module _ (env : Env) (known : ℤ → Bool) (fd : ℤ) (k : known fd ≡ true) where
  pub command-IsHeld :
      (text : List ℕ) (u : Server)
      → IsHeld known u
      → OnReturn
          (λ v. (host_at env fd).is_connected v ≡ true → IsHeld known v)
          ((host_at env fd).command text u)
  command-IsHeld text u q =
      let m = command_handler env.tools env.fpu env.math (id_of fd) (env.memory u) text u in
      let o = parse env.tools (lex env.tools text) (env.memory u) in
      held (id_of fd) (least_due o) (most_due o) known fd m refl k q
        (command_handler-IsInOrder env.tools env.fpu env.math (id_of fd) (env.memory u) text u
          (q.clients fd ∙ k) q.order)
        (command_handler-IsStep env.tools env.fpu env.math (id_of fd) (env.memory u) text u)

module _ (env : Env) (s : NetServer Program) (v : IsCoupled s) where
  -- Bytes from a known descriptor leave the program coupled, where they are read to their end.
  pub read-IsCoupled :
      (c : NetConnection) (bytes : List ℕ)
      → is_known c.fd s.connection_data ≡ true
      → OnReturn IsCoupled (read env (some c) bytes s)
  unfolding read read_local
  read-IsCoupled c bytes k =
      let known : ℤ → Bool = λ x. is_known x s.connection_data in
      let (l, e) = local_at-has_local c.fd s.user.local (v.contexts c.fd ∙ k) in
      rw (e, read_local)
        (OnReturn-then (λ r. IsHeld known r.1) IsCoupled
          (read_handler (host_at env c.fd) bytes l s.user.server) _
          (read_handler-Has (host_at env c.fd) (IsHeld known) (command-IsHeld env known c.fd k)
            bytes l s.user.server (record { order = v.order; clients = v.clients }))
          λ r q. record {
            tidy = record { own = v.tidy.own; known = v.tidy.known };
            order = q.order;
            alive = v.alive;
            clients = q.clients;
            contexts = λ x. has_local-set_local x c.fd r.0 s.user.local ∙ v.contexts x;
          })
