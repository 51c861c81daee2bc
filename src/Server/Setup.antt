-- ===== src/Server/Setup.antt =====
-- Where the server begins: src/server.cc, setup_sled_server_context.
use sled_server.Common.{
  ℕ, ◌≡◌, refl, Bool, ◌&&◌, if◌then◌else◌, Option, none, some, [], length, Bool-cases, inl, inr,
}
use sled_server.Common.Int.{Double, Fpu}
use sled_server.Common.Outcome.{
  Outcome, running, fault, ◌>>=◌, OnReturn, OnReturn-then, Returns-OnReturn,
}
use sled_server.Profile.{max_profiles}
use sled_server.Sled.{Driver}
use sled_server.Api.{Device, profiles_of, sled_create}
use sled_server.Api.Soundness.{IsReady}
use sled_server.Api.Creation.{sled_create-IsReady}
use sled_server.Server.{Server}
use sled_server.Server.Keep.{IsInOrder}

-- What the system grants: the context, the parser, the memory of libsled and its watchdog's event
-- (in sled_create), the server of librtc3d, and the event of the timer.
pub record Resources : Type 0 where
  pub context : Bool
  pub parser : Bool
  pub sled : Bool
  pub watchdog : Bool
  pub server : Bool
  pub periodic : Bool

-- The context that is made of a device. Static variables begin at zero.
abbrev pub started : Fpu → Device → Server
started fpu d = record {
  device = d;
  clients = [];
  stream_clients = [];
  profile_tlate = [];
  stats = record {
    time_previous = none;
    sum_delay = fpu.literal 0;
    max_delay = fpu.literal 0;
    num_samples = 0;
    num_unacceptable = 0;
  };
  frame_number = 0;
  sent = [];
}

-- sled_create looks at neither answer, and goes through the null pointer it was given.
unfoldable pub create_sled : Resources → Driver → Fpu → Double → Device → Outcome Device
create_sled has driver fpu time memory =
    if has.sled && has.watchdog then sled_create driver fpu time memory else fault

-- Without a server the context is deleted, and used after that; the event of the timer is used
-- without a look at it.
unfoldable pub with_server : Resources → Fpu → Device → Outcome (Option Server)
with_server has fpu d = if has.server && has.periodic then running (some (started fpu d)) else fault

unfoldable pub setup_sled_server_context :
    Resources → Driver → Fpu → Double → Device → Outcome (Option Server)
unfolding create_sled with_server
setup_sled_server_context has driver fpu time memory =
    if has.context && has.parser
    then create_sled has driver fpu time memory >>= with_server has fpu
    else running none

-- Nothing, or a server in order that has no clients yet.
abbrev pub IsStarted : Option Server → Type 0
IsStarted none = ℕ
IsStarted (some s) = IsInOrder s × (s.clients ≡ [])

module _ (has : Resources) (driver : Driver) (fpu : Fpu) (time : Double) (memory : Device)
    (e : length (profiles_of memory) ≡ max_profiles) where
  -- A context that is set up is in order, whatever was granted for it.
  pub set_up-IsStarted : OnReturn IsStarted (setup_sled_server_context has driver fpu time memory)
  unfolding setup_sled_server_context create_sled with_server
  set_up-IsStarted = elim (Bool-cases (has.context && has.parser)) [
    | inr n ↦ rw n 0
    | inl y ↦ elim (Bool-cases (has.sled && has.watchdog)) [
      | inr n ↦ rw (y, n) tt
      | inl l ↦
          rw (y, l)
            (OnReturn-then IsReady IsStarted (sled_create driver fpu time memory)
              (with_server has fpu)
              (Returns-OnReturn IsReady (sled_create driver fpu time memory)
                (sled_create-IsReady driver fpu time memory e))
              λ d r. elim (Bool-cases (has.server && has.periodic)) [
                | inr n ↦ rw n tt
                | inl p ↦ rw p (record { ready = r; translated = refl; streaming = refl }, refl)
              ])
    ]
  ]
