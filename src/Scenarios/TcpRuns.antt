-- ===== src/Scenarios/TcpRuns.antt =====
-- The TCP server with two clients.
use sled_server.Common.{ℕ, ◌≡◌, refl, true, false, none, some, [], ◌∷◌, ◌+◌}
use sled_server.Common.Int.{pos}
use sled_server.Common.Outcome.{running, ◌>>=◌, Returns}
use sled_server.Tcp.{
  NetServer, Handlers, Accepting, ended, fresh, net_on_read, net_on_new_connection, teardown_loop,
}
use sled_server.Tcp.Connections.{IsTidy}
use sled_server.Tcp.Setup.{Sockets, SocketCall, net_setup_server}
use sled_server.Rtc3d.Setup.{
  rtc3d_setup_server, install_handlers, IsServing, rtc3d_setup_server-IsServing,
}
use sled_server.Tcp.Teardown.{teardown_never_ends}

-- The program above counts its clients.
abbrev counting : Handlers ℕ
counting = record { connect = λ c n. n + 1; disconnect = λ c n. n; read = λ c bytes s. running s }

abbrev server : NetServer ℕ
server = record {
  connection_data = (pos 5, some (fresh (pos 5))) ∷ (pos 8, some (fresh (pos 8))) ∷ [];
  reading = pos 8 ∷ pos 5 ∷ [];
  user = 2;
}

server-IsTidy : IsTidy server
server-IsTidy = record { own = refl; known = refl }

abbrev pub accepting : Accepting
accepting = record {
  client = pos 6;
  event_new = true;
  event_add = true;
  bufferevent_socket_new = true;
}

teardown_never_ends_example :
    (t : NetServer ℕ) × ((net_on_read counting ended (pos 6) (
          net_on_new_connection counting
            (record {
              client = pos 6;
              event_new = true;
              event_add = true;
              bufferevent_socket_new = false;
            })
            server)
        ≡ running t)
      × (teardown_loop 100 counting t ≡ none))
teardown_never_ends_example = teardown_never_ends counting (pos 6) 100 server server-IsTidy refl

-- A system that grants all.
abbrev granting : Sockets
granting = record {
  memory = true;
  socket = pos 4;
  bind = true;
  listen = true;
  event_new = true;
  event_add = true;
}

rtc3d_setup_server-IsServing_example :
    Returns
      (IsServing granting)
      (rtc3d_setup_server true granting 80 >>= λ r. running (install_handlers r))
rtc3d_setup_server-IsServing_example = rtc3d_setup_server-IsServing granting 80 refl

-- The socket of a server whose event is refused stays open.
refused :
    rtc3d_setup_server true (record granting { event_add = false }) 80
    ≡ running (
      none,
      SocketCall.opened (pos 4)
          ∷ SocketCall.nonblocking (pos 4)
          ∷ SocketCall.no_delay (pos 4)
          ∷ SocketCall.reuse_address (pos 4)
          ∷ SocketCall.bound (pos 4) 3375
          ∷ SocketCall.listening (pos 4)
          ∷ SocketCall.event_made (pos 4)
          ∷ SocketCall.event_added (pos 4)
          ∷ SocketCall.event_freed (pos 4)
          ∷ [],
    )
unfolding rtc3d_setup_server net_setup_server
refused = refl
