-- ===== src/Rtc3d/Setup.antt =====
-- librtc3d/rtc3d.cc: the set-up of the server that src/server.cc uses, and its handlers.
use sled_server.Common.{
  ℕ, ◌≡◌, refl, Bool, true, if◌then◌else◌, Option, none, some, List, [], ◌∷◌, arith,
}
use sled_server.Common.Outcome.{Outcome, running, ◌>>=◌, Returns}
use sled_server.Tcp.Setup.{
  Sockets, SocketCall, Listener, IsOpen, open_after, is_leaking, rtc3d_connect, rtc3d_disconnect,
  rtc3d_read, net_setup_server, net_set_connect_handler, net_set_disconnect_handler,
  net_set_read_handler, IsSetUp, net_setup_server-IsSetUp,
}

-- The functions of src/server.cc that librtc3d calls.
pub data UserHandler : Type 0 where
  user_connect user_disconnect user_error user_command user_data : UserHandler

-- rtc3d_server_t
pub record Rtc3dServer : Type 0 where
  pub net_server : Option Listener
  pub connect_handler : Option UserHandler
  pub disconnect_handler : Option UserHandler
  pub error_handler : Option UserHandler
  pub command_handler : Option UserHandler
  pub data_handler : Option UserHandler

unfoldable pub with_net_server :
    Option Listener × List SocketCall → Option Rtc3dServer × List SocketCall
unfolding net_set_connect_handler net_set_disconnect_handler net_set_read_handler
with_net_server (none, calls) = (none, calls)
with_net_server (some s, calls) = (
  some (record {
    net_server = net_set_read_handler rtc3d_read (
        net_set_disconnect_handler rtc3d_disconnect
          (net_set_connect_handler rtc3d_connect (some s)));
    connect_handler = none;
    disconnect_handler = none;
    error_handler = none;
    command_handler = none;
    data_handler = none;
  }),
  calls,
)

-- rtc3d_setup_server. The port that it is given is not used.
unfoldable pub rtc3d_setup_server :
    Bool → Sockets → ℕ → Outcome (Option Rtc3dServer × List SocketCall)
unfolding with_net_server
rtc3d_setup_server memory sys port =
    if memory
    then (net_setup_server sys 3375 >>= λ r. running (with_net_server r))
    else running (none, [])

-- rtc3d_set_connect_handler and the like, which do nothing on a null pointer.
unfoldable pub rtc3d_set_handler : UserHandler → Option Rtc3dServer → Option Rtc3dServer
rtc3d_set_handler h none = none
rtc3d_set_handler user_connect (some s) = some (record s { connect_handler = some user_connect })
rtc3d_set_handler user_disconnect (some s) =
    some (record s { disconnect_handler = some user_disconnect })
rtc3d_set_handler user_error (some s) = some (record s { error_handler = some user_error })
rtc3d_set_handler user_command (some s) = some (record s { command_handler = some user_command })
rtc3d_set_handler user_data (some s) = some (record s { data_handler = some user_data })

-- The two handlers that setup_sled_server_context installs.
unfoldable pub install_handlers :
    Option Rtc3dServer × List SocketCall → Option Rtc3dServer × List SocketCall
unfolding rtc3d_set_handler
install_handlers (s, calls) =
    (rtc3d_set_handler user_command (rtc3d_set_handler user_disconnect s), calls)

-- A server whose packets reach src/server.cc, on a socket that listens on port 3375.
abbrev pub IsServing : Sockets → Option Rtc3dServer × List SocketCall → Type 0
IsServing sys (none, calls) = open_after calls [] ≡ (if is_leaking sys then sys.socket ∷ [] else [])
IsServing sys (some s, calls) =
    (s.net_server
      ≡ some (record {
        sock = sys.socket;
        connect_handler = some rtc3d_connect;
        disconnect_handler = some rtc3d_disconnect;
        read_handler = some rtc3d_read;
      }))
    × ((s.disconnect_handler ≡ some user_disconnect)
        × ((s.command_handler ≡ some user_command)
            × ((s.connect_handler ≡ none) × IsOpen sys 3375 calls)))

installed :
    (sys : Sockets) (r : Option Listener × List SocketCall)
    → IsSetUp sys 3375 r
    → IsServing sys (install_handlers (with_net_server r))
unfolding install_handlers with_net_server rtc3d_set_handler net_set_read_handler
    net_set_disconnect_handler net_set_connect_handler
installed sys (none, calls) h = h
installed sys (some s, calls) h = (ground (arith, h.0), (refl, (refl, (refl, h.1))))

-- If an event can be made and there is memory for the server, its set-up, whatever port it is asked
-- for, returns: with a server on port 3375 whose connections, disconnections and bytes reach librtc3d,
-- and whose commands and disconnections reach the program; or with none, and then no socket stays open
-- unless the event of a socket that listens already could not be added.
pub rtc3d_setup_server-IsServing :
    (sys : Sockets) (port : ℕ)
    → sys.event_new ≡ true
    → Returns
        (IsServing sys)
        (rtc3d_setup_server true sys port >>= λ r. running (install_handlers r))
unfolding rtc3d_setup_server
rtc3d_setup_server-IsServing sys port e =
    after_setup (net_setup_server sys 3375) (net_setup_server-IsSetUp sys 3375 e)
  where
    after_setup :
        (m : Outcome (Option Listener × List SocketCall))
        → Returns (IsSetUp sys 3375) m
        → Returns
            (IsServing sys)
            (m >>= (λ r. running (with_net_server r)) >>= λ r. running (install_handlers r))
    after_setup (Outcome.running r) h = installed sys r h
    after_setup Outcome.exited h = h
    after_setup Outcome.overflow h = h
    after_setup Outcome.fault h = h
