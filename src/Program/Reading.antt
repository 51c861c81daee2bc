-- ===== src/Program/Reading.antt =====
-- The bytes of a client (librtc3d/rtc3d.cc, read_handler) in the program as a whole.
use sled_server.Common.{ℕ, ◌-◌, ◌≡◌, true, ◌==◌, List, [], ◌∷◌, Bool-cases, inl, inr, arith}
use sled_server.Common.Outcome.{OnReturn, OnReturn-bind, OnReturn-then}
use sled_server.Rtc3d.Memory.{write_cell, c_string}
use sled_server.Rtc3d.{
  Connection, Host, get_uint32, packet_handler, complete, payload_byte, read_byte, read_handler,
}

-- What the commands of a client keep, as long as it stays connected, its bytes keep.
module _ {U : Type 0} (host : Host U) (Q : U → Type 0)
    (kept : (text : List ℕ) (u : U)
      → Q u
      → OnReturn (λ v. host.is_connected v ≡ true → Q v) (host.command text u)) where
  abbrev Stays : U → Type 0
  Stays v = host.is_connected v ≡ true → Q v

  abbrev HasSecond : Connection × U → Type 0
  HasSecond r = Q r.1

  packet-Stays : (c : Connection) (u : U) → Q u → OnReturn Stays (packet_handler host c u)
  unfolding packet_handler
  packet-Stays c u q = OnReturn-bind Stays (get_uint32 c.buffer 0) _ λ kind.
      elim (Bool-cases (kind == 1)) [
        | inr n ↦ rw n λ h. q
        | inl y ↦ rw y (
            OnReturn-bind Stays (write_cell c.buffer c.size 0) _
              λ block. OnReturn-bind Stays (c_string block 4) _ λ text. kept text u q)
      ]

  complete-Has : (c : Connection) (u : U) → Q u → OnReturn HasSecond (complete host c u)
  unfolding complete
  complete-Has c u q =
      OnReturn-then Stays HasSecond (packet_handler host c u) _ (packet-Stays c u q)
        λ v s. elim (Bool-cases (host.is_connected v)) [ inl y ↦ rw y (s y) | inr n ↦ rw n tt ]

  read_byte-Has : (b : ℕ) (c : Connection) (u : U) → Q u → OnReturn HasSecond (read_byte host b c u)
  unfolding read_byte payload_byte
  read_byte-Has b c u q =
      let payload : OnReturn HasSecond (payload_byte host b c u) =
        OnReturn-bind HasSecond (write_cell c.buffer (c.size - c.data_left) b) _ λ block.
          let d : Connection = record c { data_left = c.data_left - 1; buffer = block } in
          ground (arith, q, complete-Has d u q) in
      ground (arith, q, payload)

  pub read_handler-Has :
      (bytes : List ℕ) (c : Connection) (u : U)
      → Q u
      → OnReturn HasSecond (read_handler host bytes c u)
  unfolding read_handler
  read_handler-Has [] c u q = q
  read_handler-Has (b ∷ bytes) c u q =
      OnReturn-then HasSecond HasSecond (read_byte host b c u) _ (read_byte-Has b c u q)
        λ r k. read_handler-Has bytes r.0 r.1 k
