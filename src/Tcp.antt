-- ===== src/Tcp.antt =====
-- librtc3d/server.cc: the connections of the TCP server. The sockets and libevent are parameters:
-- what they answer comes with each event.
pub mod Connections
pub mod Teardown
pub mod Setup
use sled_server.Common.{
  ℕ, zero, suc, ltb, Bool, true, false, if◌then◌else◌, Option, none, some, List, [], ◌∷◌, length,
}
use sled_server.Common.Int.{ℤ, pos, negsuc, eq_ℤ}
use sled_server.Common.Outcome.{Outcome, running}

-- net_connection_t: whether its two events are there.
pub record NetConnection : Type 0 where
  pub fd : ℤ
  pub read_event : Bool
  pub buffer_event : Bool

-- net_server_t with the descriptors whose read event is in the event loop. A `none` in the map is a
-- null pointer, and `user` is the state of the program above.
pub record NetServer (U : Type 0) : Type 0 where
  pub connection_data : List (ℤ × Option NetConnection)
  pub reading : List ℤ
  pub user : U

-- The handlers that the program above sets. A read may disconnect the client.
pub record Handlers (U : Type 0) : Type 0 where
  pub connect : NetConnection → U → U
  pub disconnect : NetConnection → U → U
  pub read : Option NetConnection → List ℕ → NetServer U → Outcome (NetServer U)

abbrev pub lt_ℤ : ℤ → ℤ → Bool
lt_ℤ (pos a) (pos b) = ltb a b
lt_ℤ (negsuc a) (negsuc b) = ltb b a
lt_ℤ (pos a) (negsuc b) = false
lt_ℤ (negsuc a) (pos b) = true

-- std::map, in the order of the keys: erase, the entry of a key, and an assignment.
abbrev pub erase : ℤ → List (ℤ × Option NetConnection) → List (ℤ × Option NetConnection)
erase fd [] = []
erase fd ((k, c) ∷ rest) = let other = erase fd rest in if eq_ℤ k fd then other else (k, c) ∷ other

abbrev pub entry : ℤ → List (ℤ × Option NetConnection) → Option (Option NetConnection)
entry fd [] = none
entry fd ((k, c) ∷ rest) = let other = entry fd rest in if eq_ℤ k fd then some c else other

abbrev pub assign :
    ℤ → Option NetConnection → List (ℤ × Option NetConnection) → List (ℤ × Option NetConnection)
assign fd c [] = (fd, c) ∷ []
assign fd c ((k, d) ∷ rest) =
    let other = assign fd c rest in
    if eq_ℤ k fd
    then (fd, c) ∷ rest
    else if lt_ℤ fd k
    then (fd, c) ∷ (k, d) ∷ rest
    else (k, d) ∷ other

abbrev pub unregister : ℤ → List ℤ → List ℤ
unregister fd [] = []
unregister fd (x ∷ xs) = let rest = unregister fd xs in if eq_ℤ x fd then rest else x ∷ rest

-- operator[]: a missing key is inserted with a null pointer.
unfoldable pub connection_at : {U : Type 0} → ℤ → NetServer U → Option NetConnection × NetServer U
connection_at fd s = elim (entry fd s.connection_data) [
  | some c ↦ (c, s)
  | none ↦ (none, record s { connection_data = assign fd none s.connection_data })
]

-- net_disconnect
unfoldable pub net_disconnect :
    {U : Type 0} → Handlers U → Option NetConnection → NetServer U → NetServer U
net_disconnect h none s = s
net_disconnect h (some c) s = record s {
  connection_data = erase c.fd s.connection_data;
  reading = if c.read_event then unregister c.fd s.reading else s.reading;
  user = h.disconnect c s.user;
}

-- net_on_client_event; `bad` is the test for an error or the end of the stream.
unfoldable pub net_on_client_event :
    {U : Type 0} → Handlers U → Bool → ℤ → NetServer U → NetServer U
unfolding net_disconnect connection_at
net_on_client_event h bad fd s =
    let r = connection_at fd s in if bad then net_disconnect h r.0 r.1 else s

-- What `read` returns.
pub data Received : Type 0 where
  failed ended : Received
  bytes : List ℕ → Received

-- net_on_read
unfoldable pub net_on_read :
    {U : Type 0} → Handlers U → Received → ℤ → NetServer U → Outcome (NetServer U)
unfolding net_disconnect connection_at
net_on_read h (bytes buffer) fd s = let r = connection_at fd s in h.read r.0 buffer r.1
net_on_read h _ fd s = let r = connection_at fd s in running (net_disconnect h r.0 r.1)

-- What the system answers to a new connection.
pub record Accepting : Type 0 where
  pub client : ℤ
  pub event_new : Bool
  pub event_add : Bool
  pub bufferevent_socket_new : Bool

abbrev pub fresh : ℤ → NetConnection
fresh client = record { fd = client; read_event = true; buffer_event = true }

-- net_on_new_connection
unfoldable pub net_on_new_connection :
    {U : Type 0} → Handlers U → Accepting → NetServer U → NetServer U
net_on_new_connection h a s =
    if a.event_new
    then (if a.event_add
        then (let t = record s { reading = a.client ∷ s.reading } in
            if a.bufferevent_socket_new
            then record t {
              connection_data = assign a.client (some (fresh a.client)) t.connection_data;
              user = h.connect (fresh a.client) t.user;
            }
            else t)
        else s)
    else s

-- The loop of net_teardown_server, on fuel: none where it is used up.
unfoldable pub close_first :
    {U : Type 0}
    → ℕ
    → Handlers U
    → List (ℤ × Option NetConnection)
    → NetServer U
    → Option (NetServer U)
unfolding net_disconnect
close_first n h [] s = some s
close_first zero h (e ∷ entries) s = none
close_first (suc n) h ((k, c) ∷ entries) s =
    let t = net_disconnect h c s in close_first n h t.connection_data t

unfoldable pub teardown_loop : {U : Type 0} → ℕ → Handlers U → NetServer U → Option (NetServer U)
unfolding close_first
teardown_loop fuel h s = close_first fuel h s.connection_data s
