-- ===== src/Program/Shutdown.antt =====
-- Shutting the program's server down (librtc3d/server.cc, net_teardown_server).
use mathlib.Core.Option.{map}
use sled_server.Common.{ℕ, ◌≡◌, true, false, Option, some, none, List, [], ◌∷◌, ◌++◌}
use sled_server.Tcp.{NetServer, teardown_loop}
use sled_server.Program.{Program, Env, handlers}
use sled_server.Program.Coupling.{IsCoupled}

abbrev IsStillCoupled : Option (NetServer Program) → Type 0
IsStillCoupled none = ℕ
IsStillCoupled (some t) = IsCoupled t

-- What is given back to the system while the server is shut down.
pub data Resource : Type 0 where
  sled parser event_base listening_socket net_server rtc3d_server context : Resource

-- A shutdown: what has been given back, in this order, and the server's state.
pub record Closing : Type 0 where
  pub released : List Resource
  pub remaining : NetServer Program

abbrev pub release : Resource → Closing → Closing
release r c = record c { released = c.released ++ (r ∷ []) }

-- connection_data.clear
abbrev pub close : NetServer Program → Closing → Closing
close t c = record c { remaining = record t { connection_data = [] } }

-- net_teardown_server: the loop on fuel, none where that is used up, and what follows it.
unfoldable pub net_teardown_server : ℕ → Env → Closing → Option Closing
unfolding teardown_loop
net_teardown_server fuel env c =
    map (λ t. release net_server (release listening_socket (release event_base (close t c))))
      (teardown_loop fuel (handlers env true) c.remaining)

-- rtc3d_teardown_server
unfoldable pub rtc3d_teardown_server : ℕ → Env → Closing → Option Closing
unfolding net_teardown_server
rtc3d_teardown_server fuel env c = map (release rtc3d_server) (net_teardown_server fuel env c)

-- libsled and the parser are given back first.
abbrev pub freed : NetServer Program → Closing
freed s = release parser (release sled (record { released = []; remaining = s }))

-- teardown_sled_server_context. libsled and the parser are gone when the connections are closed.
unfoldable pub teardown_sled_server_context : ℕ → Env → NetServer Program → Option Closing
unfolding rtc3d_teardown_server
teardown_sled_server_context fuel env s =
    map (release context) (rtc3d_teardown_server fuel env (freed s))

-- Nobody is connected any more, for any part of the program.
pub record IsEmptied (t : NetServer Program) : Type 0 where
  pub unconnected : t.connection_data ≡ []
  pub no_contexts : t.user.local ≡ []
  pub no_clients : t.user.server.clients ≡ []
  pub no_stream : t.user.server.stream_clients ≡ []
  pub alive : t.user.crashed ≡ false

-- The order in which the server gives back what it holds.
abbrev pub all_released : List Resource
all_released =
    sled ∷ parser ∷ event_base ∷ listening_socket ∷ net_server ∷ rtc3d_server ∷ context ∷ []

-- The shutdown has come to its end: everything is given back, and nobody is connected.
abbrev pub IsShutDown : Option Closing → Type 0
IsShutDown none = ⊥
IsShutDown (some c) = (c.released ≡ all_released) × IsEmptied c.remaining
