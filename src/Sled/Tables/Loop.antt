-- ===== src/Sled/Tables/Loop.antt =====
-- The events of the event loop (libsled/interface.cc, libsled/sled.cc) and a property of what is
-- behind the interface machine.
use sled_server.Common.{
  ℕ, zero, suc, ◌/◌, ◌%◌, ◌*◌, ◌+◌, ◌-◌, Bool, true, false, ◌==◌, List, Bool-cases, inl, inr, arith,
}
use sled_server.Common.Int.{Double, Fpu}
use sled_server.Common.Outcome.{Outcome, running, OnReturn, OnReturn-then}
use sled_server.Machine
use sled_server.Ds.{Drive}
use sled_server.Net.{Network, NetEvent, on_drive}
use sled_server.Net
use sled_server.Response.{byte_at, dispatch_sdo}
use sled_server.Sled.{
  Sled, Driver, IntfState, IntfEvent, on_network, intf_open, intf_close, intf_number,
  next_state_given_event, on_enter, machine, handle_rounds, rounds, handle_event, on_nmt, on_tpdo1,
  on_tpdo, nmt_watchdog, dispatch_msg,
}
use sled_server.Sled.Loop.{Input, can_id, readable, watchdog, read_ok, read_result, on_read, step}

module _ (P : Network → Type 0)
    (net : (e : NetEvent) (n : Network) → P n → OnReturn P (Net.handle_event e n))
    (drive : (f : Drive → Outcome Drive) (n : Network) → P n → OnReturn P (on_drive f n))
    (sdo : (bytes : List ℕ) (n : Network) → P n → OnReturn P (dispatch_sdo bytes n)) where
  abbrev Has : Sled → Type 0
  Has s = P s.network

  abbrev HasFirst : Sled × Bool → Type 0
  HasFirst r = P r.0.network

  on_network-Has :
      (f : Network → Outcome Network) (s : Sled)
      → OnReturn P (f s.network)
      → OnReturn Has (on_network f s)
  unfolding on_network
  on_network-Has f s h = OnReturn-then P Has (f s.network) _ h λ n k. k

  -- The handler of the interface machine that the functions below call.
  module _ (handle : IntfEvent → Sled → Outcome Sled) (d : Driver)
      (kept : (e : IntfEvent) (s : Sled) → Has s → OnReturn Has (handle e s)) where
    closing-Has : (s : Sled) → Has s → OnReturn Has (intf_close handle d s)
    unfolding intf_close
    closing-Has s h = ground (
      arith,
      h,
      kept IntfEvent.close_it (record s { read_event = false }) h,
      kept IntfEvent.close_it (record s { read_event = false; handle = 0; fd = 0 }) h,
    )

    opening-Has : (s : Sled) → Has s → OnReturn HasFirst (intf_open handle d s)
    unfolding intf_open
    opening-Has s h =
        let shut =
          OnReturn-then Has HasFirst (intf_close handle d (record s { handle = d.can_open }))
            (λ t. running (t, false)) (closing-Has (record s { handle = d.can_open }) h)
            (λ t k. k) in
        ground (arith, h, shut)

    entered-Has : (i : IntfState) (s : Sled) → Has s → OnReturn Has (on_enter handle d i s)
    unfolding on_enter
    entered-Has IntfState.opening s h =
        OnReturn-then HasFirst Has (intf_open handle d s) _ (opening-Has s h) λ r k. kept _ r.0 k
    entered-Has IntfState.closing s h =
        OnReturn-then Has Has (intf_close handle d s) _ (closing-Has s h) (kept IntfEvent.is_closed)
    entered-Has IntfState.opened s h =
        on_network-Has (Net.handle_event NetEvent.intf_opened) s
          (net NetEvent.intf_opened s.network h)
    entered-Has IntfState.closed s h =
        on_network-Has (Net.handle_event NetEvent.intf_closed) s
          (net NetEvent.intf_closed s.network h)

  rounds-Has :
      (n : ℕ) (d : Driver) (e : IntfEvent) (s : Sled) → Has s → OnReturn Has (handle_rounds n d e s)
  unfolding handle_rounds
  rounds-Has zero d e s h = tt
  rounds-Has (suc n) d e s h =
      let i = next_state_given_event s.intf e in
      elim (Bool-cases (intf_number s.intf == intf_number i)) [
        | inl q ↦ rw (q, machine, Machine.handle_event) h
        | inr q ↦
            rw (q, machine, Machine.handle_event)
              (entered-Has (handle_rounds n d) d (rounds-Has n d) i (record s { intf = i }) h)
      ]

  event-Has : (d : Driver) (e : IntfEvent) (s : Sled) → Has s → OnReturn Has (handle_event d e s)
  unfolding handle_event
  event-Has d e s h = rounds-Has rounds d e s h

  pub intf_close-Has :
      (d : Driver) (s : Sled) → Has s → OnReturn Has (intf_close (handle_event d) d s)
  intf_close-Has d s h = closing-Has (handle_event d) d (event-Has d) s h

  nmt-Has : (now : Double) (state : ℕ) (s : Sled) → Has s → OnReturn Has (on_nmt now state s)
  unfolding on_nmt
  nmt-Has now state s h = ground (
    arith,
    h,
    on_network-Has (Net.handle_event NetEvent.stopped) s (net NetEvent.stopped s.network h),
    on_network-Has (Net.handle_event NetEvent.operational) s (net NetEvent.operational s.network h),
    on_network-Has (Net.handle_event NetEvent.preoperational) s
        (net NetEvent.preoperational s.network h),
  )

  tpdo-Has :
      (fpu : Fpu) (now : Double) (pdo : ℕ) (bytes : List ℕ) (s : Sled)
      → Has s
      → OnReturn Has (on_tpdo fpu now pdo bytes s)
  unfolding on_tpdo
  tpdo-Has fpu now pdo bytes s h =
      let f = on_tpdo1 (byte_at bytes 1 * 256 + byte_at bytes 0) (byte_at bytes 2) in
      ground (arith, h, on_network-Has (on_drive f) s (drive f s.network h))

  watchdog-Has :
      (fpu : Fpu) (now : Double) (s : Sled) → Has s → OnReturn Has (nmt_watchdog fpu now s)
  unfolding nmt_watchdog
  watchdog-Has fpu now s h = ground (
    arith,
    h,
    on_network-Has (Net.handle_event NetEvent.watchdog_failed) (record s { message_written = true })
        (net NetEvent.watchdog_failed s.network h),
  )

  message-Has :
      (fpu : Fpu) (now : Double) (id : ℕ) (bytes : List ℕ) (s : Sled)
      → Has s
      → OnReturn Has (dispatch_msg fpu now id bytes s)
  unfolding dispatch_msg
  message-Has fpu now id bytes s h = ground (
    arith,
    h,
    tpdo-Has fpu now ((id / 128 - 1) / 2) bytes s h,
    nmt-Has now (byte_at bytes 0 % 128) s h,
    on_network-Has (dispatch_sdo bytes) s (sdo bytes s.network h),
  )

  -- What every part behind the interface machine keeps is kept by each event of the event loop
  -- that returns.
  pub step-Has :
      (fpu : Fpu) (now : Double) (i : Input) (s : Sled) → Has s → OnReturn Has (step fpu now i s)
  unfolding step on_read read_result read_ok
  step-Has fpu now (readable d r) s h =
      ground (arith, h, message-Has fpu now (can_id r) r.bytes s h, intf_close-Has d s h)
  step-Has fpu now watchdog s h = watchdog-Has fpu now s h
