-- ===== src/Tcp/Setup.antt =====
-- librtc3d/server.cc: how the TCP server comes to its listening socket, and how it accepts a client.
-- What the system and libevent answer is a parameter; the calls that matter to them are kept, oldest
-- first.
use sled_server.Common.{
  ℕ, ◌%◌, ◌≡◌, Bool, true, false, not, ◌&&◌, ◌||◌, ◌==◌, if◌then◌else◌, Option, none, some, List,
  [], ◌∷◌, ◌++◌, arith,
}
use sled_server.Common.Int.{ℤ, negsuc, eq_ℤ}
use sled_server.Common.Outcome.{Outcome, running, fault, Returns}
use sled_server.Tcp.{unregister}
use sled_server.Tcp.Connections.{eq_ℤ_refl}

-- What the system answers: whether there is memory, a descriptor or -1, and which calls are granted.
pub record Sockets : Type 0 where
  pub memory : Bool
  pub socket : ℤ
  pub bind : Bool
  pub listen : Bool
  pub event_new : Bool
  pub event_add : Bool

pub data SocketCall : Type 0 where
  opened nonblocking no_delay reuse_address listening closed : ℤ → SocketCall
  bound : ℤ → ℕ → SocketCall
  event_made event_added event_freed : ℤ → SocketCall

-- The functions of librtc3d/rtc3d.cc that the TCP server calls.
pub data NetHandler : Type 0 where
  rtc3d_connect rtc3d_disconnect rtc3d_read : NetHandler

-- net_server_t, before it has connections. A null pointer is no handler.
pub record Listener : Type 0 where
  pub sock : ℤ
  pub connect_handler : Option NetHandler
  pub disconnect_handler : Option NetHandler
  pub read_handler : Option NetHandler

abbrev pub failed : ℤ
failed = negsuc 0

-- setup_server_socket
unfoldable pub setup_server_socket : Sockets → ℕ → ℤ × List SocketCall
setup_server_socket sys port =
    let s = sys.socket in
    let prepared =
      opened s ∷ nonblocking s ∷ no_delay s ∷ reuse_address s ∷ bound s (port % 65536) ∷ [] in
    if eq_ℤ s failed
    then (failed, [])
    else if not sys.bind
    then (failed, prepared ++ (closed s ∷ []))
    else if not sys.listen
    then (failed, prepared ++ (listening s ∷ closed s ∷ []))
    else (s, prepared ++ (listening s ∷ []))

-- accept_client, for what `accept` returns
unfoldable pub accept_client : ℤ → ℤ × List SocketCall
accept_client client =
    if eq_ℤ client failed
    then (failed, [])
    else (client, opened client ∷ nonblocking client ∷ no_delay client ∷ [])

-- net_setup_server. libevent uses the event that it is given to add.
unfoldable pub net_setup_server : Sockets → ℕ → Outcome (Option Listener × List SocketCall)
unfolding setup_server_socket
net_setup_server sys port =
    let r = setup_server_socket sys port in
    let sock = r.0 in
    if not sys.memory
    then running (none, [])
    else if eq_ℤ sock failed
    then running (none, r.1)
    else if not sys.event_new
    then fault
    else if not sys.event_add
    then running (none, r.1 ++ (event_made sock ∷ event_added sock ∷ event_freed sock ∷ []))
    else running (
      some (record {
        sock = sock;
        connect_handler = none;
        disconnect_handler = none;
        read_handler = none;
      }),
      r.1 ++ (event_made sock ∷ event_added sock ∷ []),
    )

-- The setters do nothing on a null pointer.
unfoldable pub net_set_connect_handler : NetHandler → Option Listener → Option Listener
net_set_connect_handler h none = none
net_set_connect_handler h (some s) = some (record s { connect_handler = some h })

unfoldable pub net_set_disconnect_handler : NetHandler → Option Listener → Option Listener
net_set_disconnect_handler h none = none
net_set_disconnect_handler h (some s) = some (record s { disconnect_handler = some h })

unfoldable pub net_set_read_handler : NetHandler → Option Listener → Option Listener
net_set_read_handler h none = none
net_set_read_handler h (some s) = some (record s { read_handler = some h })

abbrev one_open : SocketCall → List ℤ → List ℤ
one_open (opened s) fds = s ∷ fds
one_open (closed s) fds = unregister s fds
one_open _ fds = fds

-- The descriptors that are open after some calls.
abbrev pub open_after : List SocketCall → List ℤ → List ℤ
open_after [] fds = fds
open_after (c ∷ calls) fds = open_after calls (one_open c fds)

abbrev is_bound : ℤ → ℕ → SocketCall → Bool
is_bound sock port (bound s p) = eq_ℤ s sock && p == port
is_bound sock port _ = false

abbrev is_listening : ℤ → SocketCall → Bool
is_listening sock (listening s) = eq_ℤ s sock
is_listening sock _ = false

abbrev any : (SocketCall → Bool) → List SocketCall → Bool
any f [] = false
any f (c ∷ calls) = f c || any f calls

-- The listening socket is ready, but its event cannot be added.
abbrev pub is_leaking : Sockets → Bool
is_leaking sys =
    sys.memory && (not (eq_ℤ sys.socket failed) && (sys.bind && (sys.listen && not sys.event_add)))

-- One socket is open, which is bound to the port and listening.
abbrev pub IsOpen : Sockets → ℕ → List SocketCall → Type 0
IsOpen sys port calls =
    (open_after calls [] ≡ sys.socket ∷ [])
    × ((any (is_bound sys.socket (port % 65536)) calls ≡ true)
        × (any (is_listening sys.socket) calls ≡ true))

-- What a set-up leaves: a server on the system's socket, which is the one that is open, bound to the
-- port and listening; or no server, and no open socket but one whose event could not be added.
abbrev pub IsSetUp : Sockets → ℕ → Option Listener × List SocketCall → Type 0
IsSetUp sys port (none, calls) =
    open_after calls [] ≡ (if is_leaking sys then sys.socket ∷ [] else [])
IsSetUp sys port (some s, calls) = (s.sock ≡ sys.socket) × IsOpen sys port calls

-- If an event can be made, the set-up returns: with a server whose socket is the only one open, bound
-- to the port's low sixteen bits and listening; or with none, and then no socket stays open unless
-- the event of a socket that listens already could not be added, which leaves that socket open.
pub net_setup_server-IsSetUp :
    (sys : Sockets) (port : ℕ)
    → sys.event_new ≡ true
    → Returns (IsSetUp sys port) (net_setup_server sys port)
unfolding net_setup_server setup_server_socket
net_setup_server-IsSetUp sys port e = ground (arith, e, eq_ℤ_refl sys.socket)
