-- ===== src/Program/Refused.antt =====
-- A connection whose context librtc3d had no memory for (librtc3d/rtc3d.cc, connect_handler).
use sled_server.Common.{
  ℕ, ◌≡◌, refl, ap, ◌∙◌, Bool, true, false, if◌then◌else◌, none, some, List, [], ◌∷◌, arith,
}
use sled_server.Common.Int.{ℤ}
use sled_server.Common.Outcome.{running, fault, ◌>>=◌}
use sled_server.Tcp.{
  NetServer, Accepting, Received, failed, ended, bytes, fresh, assign, connection_at,
  net_disconnect, net_on_read, net_on_new_connection,
}
use sled_server.Tcp.Connections.{is_known, assign-is_known}
use sled_server.Rtc3d.{Connection}
use sled_server.Program.{
  Program, Env, has_local, local_at, handlers, connect_handler, disconnect_handler, read,
  read_local, new_connection, readable, callback, survive, step,
}
use sled_server.Program.Coupling.{IsCoupled}

local_at-none : (fd : ℤ) (l : List (ℤ × Connection)) → has_local fd l ≡ false → local_at fd l ≡ none
unfolding local_at
local_at-none fd [] h = refl
local_at-none fd ((k, c) ∷ l) h = ground (arith, h, local_at-none fd l (ground (arith, h)))

module _ (env : Env) (s : NetServer Program) (a : Accepting) (v : IsCoupled s)
    (e : a.event_new ≡ true) (f : a.event_add ≡ true) (b : a.bufferevent_socket_new ≡ true)
    (unknown : is_known a.client s.connection_data ≡ false) where
  -- The server with an entry that has no context.
  abbrev entered : NetServer Program
  entered = record s {
    connection_data = assign a.client (some (fresh a.client)) s.connection_data;
    reading = a.client ∷ s.reading;
  }

  absent : has_local a.client s.user.local ≡ false
  absent = v.contexts a.client ∙ unknown

  accepted : step env (new_connection a false) s ≡ running entered
  unfolding step callback net_on_new_connection handlers connect_handler
  accepted =
      let same : net_on_new_connection (handlers env false) a s ≡ entered =
        rw (net_on_new_connection, e, f, b) refl in
      ap survive same ∙ ap (λ (c : Bool). if c then fault else running entered) v.alive

  found : connection_at a.client entered ≡ (some (fresh a.client), entered)
  unfolding connection_at
  found =
      rw (connection_at, assign-is_known a.client (some (fresh a.client)) s.connection_data) refl

  ended_faults :
      (running (net_disconnect (handlers env true) (some (fresh a.client)) entered) >>= survive)
      ≡ fault
  unfolding net_disconnect handlers disconnect_handler
  ended_faults = rw absent refl

  sent_faults :
      (buffer : List ℕ) → (read env (some (fresh a.client)) buffer entered >>= survive) ≡ fault
  unfolding read read_local
  sent_faults buffer = rw (local_at-none a.client s.user.local absent, read_local) refl

  received_faults : (r : Received) → step env (readable a.client r) entered ≡ fault
  unfolding step callback net_on_read handlers
  received_faults failed =
      ap (λ p. running (net_disconnect (handlers env true) p.0 p.1) >>= survive) found
      ∙ ended_faults
  received_faults ended =
      ap (λ p. running (net_disconnect (handlers env true) p.0 p.1) >>= survive) found
      ∙ ended_faults
  received_faults (bytes buffer) =
      ap (λ p. read env p.0 buffer p.1 >>= survive) found ∙ sent_faults buffer

  -- On a program whose three tables of connections agree and whose parts are in order, a client is
  -- accepted on a descriptor that has no entry, its events and its write buffer are made, and there is
  -- no memory for its context. That callback returns; the next one on that descriptor faults, whether
  -- the client sends bytes, ends, or fails.
  pub refused_faults :
      (r : Received)
      → (t : NetServer Program) × ((step env (new_connection a false) s ≡ running t)
          × (step env (readable a.client r) t ≡ fault))
  refused_faults r = (entered, (accepted, received_faults r))
