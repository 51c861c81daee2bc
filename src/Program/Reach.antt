-- ===== src/Program/Reach.antt =====
-- The states that the program reaches, one callback of the event loop after the other.
use mathlib.Core.Path.{subst}
use sled_server.Common.{
  ℕ, ◌≡◌, refl, sym, ap, ◌∙◌, Bool, true, false, ◌||◌, ◌==◌, Option, some, List, [], ◌∷◌, length,
  Bool-cases, inl, inr, arith,
}
use sled_server.Common.Int.{ℤ, eq_ℤ, Double}
use sled_server.Common.Outcome.{
  Outcome, running, ◌>>=◌, OnReturn, OnReturn-then, Ensures, Ensures-bind,
}
use sled_server.Tcp.{
  NetConnection, NetServer, failed, ended, bytes, connection_at, net_on_read, net_on_client_event,
  net_disconnect,
}
use sled_server.Tcp.Connections.{is_known, all_known, reading_own, eq_ℤ_sound}
use sled_server.Profile.{max_profiles}
use sled_server.Sled.{Driver}
use sled_server.Sled.Steps.{IsAccepted}
use sled_server.Sled.Loop
use sled_server.Api.{Device, profiles_of, on_sled}
use sled_server.Api.Soundness.{IsReady}
use sled_server.Api.Events.{step-IsReady}
use sled_server.Server.{Server, is_client}
use sled_server.Server.Keep.{IsInOrder}
use sled_server.Server.Setup.{Resources, setup_sled_server_context, set_up-IsStarted, IsStarted}
use sled_server.Server.Ticks.{on_timeout, on_timeout_lem}
use sled_server.Program.{
  Program, Env, id_of, Event, new_connection, readable, client_event, timeout, device_event,
  handlers, read, with_server, on_device, callback, survive, step,
}
use sled_server.Program.Coupling.{IsCoupled, survive-eq-running}
use sled_server.Program.Connecting.{new_connection-IsCoupled, disconnect-IsCoupled, read-IsCoupled}

abbrev pub is_read : ℤ → List ℤ → Bool
is_read fd [] = false
is_read fd (x ∷ xs) = eq_ℤ x fd || is_read fd xs

-- What the event loop delivers: a descriptor that can be read has its event in the loop, and the
-- descriptor of a write buffer is that of a connection. A new connection has its buffer and memory
-- for its context, the frame counter is not at the largest int, and a response of the device answers
-- a request.
abbrev pub IsDelivered : Event → NetServer Program → Type 0
IsDelivered (new_connection a granted) s = (a.bufferevent_socket_new ≡ true) × (granted ≡ true)
IsDelivered (readable fd r) s = is_read fd s.reading ≡ true
IsDelivered (client_event fd bad) s = is_known fd s.connection_data ≡ true
IsDelivered (timeout tcurrent now nan) s = (s.user.server.frame_number == 2147483647) ≡ false
IsDelivered (device_event now i) s = IsAccepted i s.user.server.device.sled

pub is_read-is_known :
    (fd : ℤ) (fds : List ℤ) (l : List (ℤ × Option NetConnection))
    → is_read fd fds ≡ true
    → all_known fds l ≡ true
    → is_known fd l ≡ true
is_read-is_known fd [] l r a = cc
is_read-is_known fd (x ∷ fds) l r a = elim (Bool-cases (eq_ℤ x fd)) [
  | inl e ↦
      let here : is_known x l ≡ true = ground (arith, a) in
      ap (λ z. is_known z l) (sym (eq_ℤ_sound x fd e)) ∙ here
  | inr e ↦ is_read-is_known fd fds l (ground (arith, r, e)) (ground (arith, a))
]

-- What is asked of a callback: of the bytes of a client, only where they are read to their end.
abbrev pub Keeps : Event → Outcome (NetServer Program) → Type 0
Keeps (readable fd (bytes buffer)) m = OnReturn IsCoupled m
Keeps _ m = Ensures IsCoupled m

module _ (env : Env) (s : NetServer Program) (v : IsCoupled s) where
  with_order :
      (u : Server)
      → IsInOrder u
      → u.clients ≡ s.user.server.clients
      → IsCoupled (record s { user = record (s.user) { server = u } })
  with_order u w e = record {
    tidy = record { own = v.tidy.own; known = v.tidy.known };
    order = w;
    alive = v.alive;
    clients = λ x. ap (λ l. is_client (id_of x) l) e ∙ v.clients x;
    contexts = v.contexts;
  }

  gone :
      (fd : ℤ)
      → is_known fd s.connection_data ≡ true
      → Ensures IsCoupled
          (let r = connection_at fd s in running (net_disconnect (handlers env true) r.0 r.1))
  gone fd k =
      let (c, (e, (f, r))) = reading_own fd s v.tidy k in
      subst (λ p. IsCoupled (net_disconnect (handlers env true) p.0 p.1)) (sym e)
        (disconnect-IsCoupled env s v c r (ap (λ z. is_known z s.connection_data) f ∙ k))

  timeout-IsCoupled :
      (tcurrent now nan : Double)
      → (s.user.server.frame_number == 2147483647) ≡ false
      → Ensures IsCoupled (with_server (on_timeout env.fpu env.math tcurrent now nan) s)
  unfolding with_server
  timeout-IsCoupled tcurrent now nan n =
      let u = s.user.server in
      rw (on_timeout_lem env.fpu env.math tcurrent now nan u v.order n) (
        with_order _
          (record {
            ready = v.order.ready;
            translated = v.order.translated;
            streaming = v.order.streaming;
          })
          refl)

  device_event-IsCoupled :
      (now : Double) (i : Loop.Input)
      → IsAccepted i s.user.server.device.sled
      → Ensures IsCoupled (with_server (on_device (on_sled (Loop.step env.fpu now i))) s)
  unfolding with_server on_device
  device_event-IsCoupled now i a =
      let u = s.user.server in
      Ensures-bind (λ w. IsInOrder w × (w.clients ≡ u.clients)) IsCoupled
        (on_device (on_sled (Loop.step env.fpu now i)) u) _
        (Ensures-bind IsReady (λ w. IsInOrder w × (w.clients ≡ u.clients))
          (on_sled (Loop.step env.fpu now i) u.device) _
          (step-IsReady env.fpu now i u.device v.order.ready a)
          λ d w. (
            record { ready = w; translated = v.order.translated; streaming = v.order.streaming },
            refl,
          ))
        λ w h. with_order w h.0 h.1

  received-IsCoupled :
      (fd : ℤ) (buffer : List ℕ)
      → is_known fd s.connection_data ≡ true
      → OnReturn IsCoupled (net_on_read (handlers env true) (bytes buffer) fd s)
  unfolding net_on_read handlers
  received-IsCoupled fd buffer k =
      let (c, (e, (f, r))) = reading_own fd s v.tidy k in
      subst (λ p. OnReturn IsCoupled (read env p.0 buffer p.1)) (sym e)
        (read-IsCoupled env s v c buffer (ap (λ z. is_known z s.connection_data) f ∙ k))

  survive-IsCoupled :
      (m : Outcome (NetServer Program)) → Ensures IsCoupled m → Ensures IsCoupled (m >>= survive)
  survive-IsCoupled m h =
      Ensures-bind IsCoupled IsCoupled m survive h
        λ t w. subst (Ensures IsCoupled) (sym (survive-eq-running t w)) w

  survive-Keeps :
      (e : Event) (m : Outcome (NetServer Program)) → Keeps e m → Keeps e (m >>= survive)
  survive-Keeps (readable fd (bytes buffer)) m h =
      OnReturn-then IsCoupled IsCoupled m survive h
        λ t w. subst (OnReturn IsCoupled) (sym (survive-eq-running t w)) w
  survive-Keeps (readable fd failed) m h = survive-IsCoupled m h
  survive-Keeps (readable fd ended) m h = survive-IsCoupled m h
  survive-Keeps (new_connection a granted) m h = survive-IsCoupled m h
  survive-Keeps (client_event fd bad) m h = survive-IsCoupled m h
  survive-Keeps (timeout tcurrent now nan) m h = survive-IsCoupled m h
  survive-Keeps (device_event now i) m h = survive-IsCoupled m h

  callback-Keeps : (e : Event) → IsDelivered e s → Keeps e (callback env e s)
  unfolding callback net_on_read net_on_client_event
  callback-Keeps (new_connection a granted) (b, g) = rw g (new_connection-IsCoupled env s v a b)
  callback-Keeps (readable fd failed) d =
      gone fd (is_read-is_known fd s.reading s.connection_data d v.tidy.known)
  callback-Keeps (readable fd ended) d =
      gone fd (is_read-is_known fd s.reading s.connection_data d v.tidy.known)
  callback-Keeps (readable fd (bytes buffer)) d =
      received-IsCoupled fd buffer (is_read-is_known fd s.reading s.connection_data d v.tidy.known)
  callback-Keeps (client_event fd true) d = gone fd d
  callback-Keeps (client_event fd false) d = v
  callback-Keeps (timeout tcurrent now nan) d = timeout-IsCoupled tcurrent now nan d
  callback-Keeps (device_event now i) d = device_event-IsCoupled now i d

  pub step-Keeps : (e : Event) → IsDelivered e s → Keeps e (step env e s)
  unfolding step
  step-Keeps e d = survive-Keeps e (callback env e s) (callback-Keeps e d)

-- The program as src/main.cc starts the event loop on it.
abbrev pub begin : Server → NetServer Program
begin s = record {
  connection_data = [];
  reading = [];
  user = record { server = s; local = []; crashed = false };
}

-- The states after callbacks that return.
pub data Reaches (env : Env) (s : NetServer Program) : NetServer Program → Type 0 where
  start : Reaches env s s
  next :
      {t u : NetServer Program} (e : Event)
      → Reaches env s t
      → IsDelivered e t
      → step env e t ≡ running u
      → Reaches env s u

begin-IsCoupled : (s : Server) → IsInOrder s → s.clients ≡ [] → IsCoupled (begin s)
begin-IsCoupled s v e = record {
  tidy = record { own = refl; known = refl };
  order = v;
  alive = refl;
  clients = λ x. ap (λ l. is_client (id_of x) l) e;
  contexts = λ x. refl;
}

Keeps-running :
    (e : Event) (m : Outcome (NetServer Program)) (u : NetServer Program)
    → Keeps e m
    → m ≡ running u
    → IsCoupled u
Keeps-running (readable fd (bytes buffer)) m u k q = subst (OnReturn IsCoupled) q k
Keeps-running (readable fd failed) m u k q = subst (Ensures IsCoupled) q k
Keeps-running (readable fd ended) m u k q = subst (Ensures IsCoupled) q k
Keeps-running (new_connection a granted) m u k q = subst (Ensures IsCoupled) q k
Keeps-running (client_event fd bad) m u k q = subst (Ensures IsCoupled) q k
Keeps-running (timeout tcurrent now nan) m u k q = subst (Ensures IsCoupled) q k
Keeps-running (device_event now i) m u k q = subst (Ensures IsCoupled) q k

Reaches-keeps : (env : Env) (s t : NetServer Program) → IsCoupled s → Reaches env s t → IsCoupled t
Reaches-keeps env s t v start = v
Reaches-keeps env s t v (next {t = w} e r d q) =
    Keeps-running e (step env e w) t (step-Keeps env w (Reaches-keeps env s w v r) e d) q

-- From the context that src/server.cc sets up, where it returns one, with whatever the system grants
-- for it and whatever the memory held, every sequence of callbacks that are delivered and return
-- leads to a program whose three tables of connections agree and whose parts are in order, libsled
-- and its profile table among them, if the table has its size. A new connection is delivered with
-- its buffer and the memory for its context, a descriptor is one of the loop's, the frame counter is
-- not at the largest int, and a response of the device answers a request.
pub Reaches-IsCoupled :
    (env : Env) (has : Resources) (driver : Driver) (time : Double) (memory : Device) (s : Server)
    (t : NetServer Program)
    → length (profiles_of memory) ≡ max_profiles
    → setup_sled_server_context has driver env.fpu time memory ≡ running (some s)
    → Reaches env (begin s) t
    → IsCoupled t
Reaches-IsCoupled env has driver time memory s t n e r =
    let (v, c) : IsInOrder s × (s.clients ≡ []) =
      subst (OnReturn IsStarted) e (set_up-IsStarted has driver env.fpu time memory n) in
    Reaches-keeps env (begin s) t (begin-IsCoupled s v c) r
