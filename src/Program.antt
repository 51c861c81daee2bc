-- ===== src/Program.antt =====
-- The program as one system: librtc3d's TCP server (librtc3d/server.cc) with the handlers that
-- librtc3d/rtc3d.cc sets, the server of src/server.cc above them, and libsled below it. A step is
-- one callback of the event loop.
pub mod Coupling
pub mod Reading
pub mod Connecting
pub mod Reach
pub mod Shutdown
pub mod Serving
pub mod Isolation
pub mod Refused
use sled_server.Common.{
  ℕ, ◌+◌, ◌*◌, Bool, true, false, ◌||◌, if◌then◌else◌, Option, none, some, List, [], ◌∷◌,
}
use sled_server.Common.Int.{ℤ, pos, negsuc, eq_ℤ, Double, Fpu}
use sled_server.Common.Outcome.{Outcome, running, fault, ◌>>=◌}
use sled_server.Tcp.{
  NetConnection, NetServer, Handlers, Received, Accepting, net_on_client_event, net_on_read,
  net_on_new_connection,
}
use sled_server.Rtc3d.{Connection, Host, connected, read_handler}
use sled_server.Parser.{Command, Tools}
use sled_server.Api.{Device, on_sled}
use sled_server.Sled.Loop.{Input}
use sled_server.Sled.Loop
use sled_server.Server.{Server, Numerics, connect, disconnect, host_of}
use sled_server.Server.Ticks.{on_timeout}

-- What the program gets from outside: the tools of the parser, the arithmetic, what the stack holds
-- where a command is parsed into, and the sizes that `malloc` grants.
pub record Env : Type 0 where
  pub tools : Tools
  pub fpu : Fpu
  pub math : Numerics
  pub memory : Server → Command
  pub grants : ℕ → Bool

-- The server, for each descriptor the context of librtc3d that net_get_local_data gives (none where
-- that is a null pointer), and whether a handler has gone through a null pointer.
pub record Program : Type 0 where
  pub server : Server
  pub local : List (ℤ × Connection)
  pub crashed : Bool

-- The number that stands for the connection of a descriptor.
unfoldable pub id_of : ℤ → ℕ
id_of (pos n) = 2 * n
id_of (negsuc n) = 2 * n + 1

abbrev pub has_local : ℤ → List (ℤ × Connection) → Bool
has_local fd [] = false
has_local fd ((k, c) ∷ rest) = eq_ℤ k fd || has_local fd rest

-- net_get_local_data
unfoldable pub local_at : ℤ → List (ℤ × Connection) → Option Connection
local_at fd [] = none
local_at fd ((k, c) ∷ rest) = let other = local_at fd rest in if eq_ℤ k fd then some c else other

-- A connection that has been written to.
abbrev pub set_local : ℤ → Connection → List (ℤ × Connection) → List (ℤ × Connection)
set_local fd c [] = []
set_local fd c ((k, d) ∷ rest) =
    let other = set_local fd c rest in if eq_ℤ k fd then (k, c) ∷ other else (k, d) ∷ other

abbrev pub free_local : ℤ → List (ℤ × Connection) → List (ℤ × Connection)
free_local fd [] = []
free_local fd ((k, c) ∷ rest) =
    let other = free_local fd rest in if eq_ℤ k fd then other else (k, c) ∷ other

-- The program above the packets of one descriptor.
abbrev pub host_at : Env → ℤ → Host Server
host_at env fd = host_of env.tools env.fpu env.math env.memory env.grants (id_of fd)

-- connect_handler of librtc3d/rtc3d.cc: without memory for its context, the connection has a null
-- pointer for one.
unfoldable pub connect_handler : Bool → NetConnection → Program → Program
connect_handler granted c p =
    if granted
    then record {
      server = connect (id_of c.fd) p.server;
      local = (c.fd, connected) ∷ p.local;
      crashed = p.crashed;
    }
    else p

-- disconnect_handler of librtc3d/rtc3d.cc, with the handler of src/server.cc. It does not ask whether
-- there is a context.
unfoldable pub disconnect_handler : NetConnection → Program → Program
disconnect_handler c p =
    if has_local c.fd p.local
    then record {
      server = disconnect (id_of c.fd) p.server;
      local = free_local c.fd p.local;
      crashed = p.crashed;
    }
    else record p { crashed = true }

unfoldable pub read_local :
    Env → ℤ → List ℕ → Option Connection → NetServer Program → Outcome (NetServer Program)
read_local env fd bytes none s = fault
read_local env fd bytes (some c) s = read_handler (host_at env fd) bytes c s.user.server >>= λ r.
    running
      (record s { user = record (s.user) { server = r.1; local = set_local fd r.0 s.user.local } })

-- read_handler of librtc3d/rtc3d.cc. A null pointer has no data. (A command that disconnects its own
-- client makes it fault, so that what the disconnection does to the connections is not seen.)
unfoldable pub read :
    Env → Option NetConnection → List ℕ → NetServer Program → Outcome (NetServer Program)
unfolding read_local local_at
read env none bytes s = fault
read env (some c) bytes s = read_local env c.fd bytes (local_at c.fd s.user.local) s

-- The handlers that rtc3d_setup_server sets; the flag is the memory that `new` is granted.
unfoldable pub handlers : Env → Bool → Handlers Program
unfolding connect_handler disconnect_handler read
handlers env granted = record {
  connect = connect_handler granted;
  disconnect = disconnect_handler;
  read = read env;
}

-- A callback of the event loop, with what the system answers in it: a new connection (and whether
-- there is memory for its context), a descriptor that can be read, an event of a write buffer, the timer of the server (the clock, the clock again,
-- and the value that is no number), and an event of libsled.
pub data Event : Type 0 where
  new_connection : Accepting → Bool → Event
  readable : ℤ → Received → Event
  client_event : ℤ → Bool → Event
  timeout : Double → Double → Double → Event
  device_event : Double → Input → Event

unfoldable pub with_server :
    (Server → Outcome Server) → NetServer Program → Outcome (NetServer Program)
with_server f s =
    f s.user.server >>= λ v. running (record s { user = record (s.user) { server = v } })

unfoldable pub on_device : (Device → Outcome Device) → Server → Outcome Server
on_device f s = f s.device >>= λ d. running (record s { device = d })

unfoldable pub callback : Env → Event → NetServer Program → Outcome (NetServer Program)
unfolding net_on_new_connection net_on_read net_on_client_event handlers with_server on_device
    on_timeout Loop.step
callback env (new_connection a granted) s =
    running (net_on_new_connection (handlers env granted) a s)
callback env (readable fd r) s = net_on_read (handlers env true) r fd s
callback env (client_event fd bad) s = running (net_on_client_event (handlers env true) bad fd s)
callback env (timeout tcurrent now nan) s =
    with_server (on_timeout env.fpu env.math tcurrent now nan) s
callback env (device_event now i) s = with_server (on_device (on_sled (Loop.step env.fpu now i))) s

abbrev pub survive : NetServer Program → Outcome (NetServer Program)
survive t = if t.user.crashed then fault else running t

unfoldable pub step : Env → Event → NetServer Program → Outcome (NetServer Program)
unfolding callback
step env e s = callback env e s >>= survive
