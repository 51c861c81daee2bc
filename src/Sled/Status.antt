-- ===== src/Sled/Status.antt =====
-- What intf_on_tpdo of libsled/sled.cc makes of a status word.
use sled_server.Common.{
  ℕ, ◌<◌, ◌≤◌, ◌≡◌, refl, sym, ap, ◌∙◌, Bool, true, false, ◌&&◌, List, [], ◌∷◌, ◌++◌, length, arith,
  leb, every_below, every_below-passes,
}
use sled_server.Common.Outcome.{Returns, Returns-bind, Returns-mono}
use sled_server.Sdo.Fifo.{transcript}
use sled_server.Mp.{Motion, MpEvent, MpState}
use sled_server.Mp
use sled_server.Mp.Handshake
use sled_server.Mp.Outputs.{SdoMode}
use sled_server.Ds.{Drive, DsEvent, DsState, on_motion}
use sled_server.Ds
use sled_server.Ds.Transitions
use sled_server.Ds.Outputs.{on_motion-Returns, is_active, is_enabled}
use sled_server.Net.Channels.{HasMode}
use sled_server.Net.Coupling.{Below, is_up}
use sled_server.Sled.{when, state_events, voltage_event, motion_events, on_tpdo1}

-- The reports of the drive, as opposed to those of another machine.
abbrev is_ds_report : DsEvent → Bool
is_ds_report DsEvent.net_operational = false
is_ds_report DsEvent.net_inoperational = false
is_ds_report _ = true

abbrev is_mp_report : MpEvent → Bool
is_mp_report MpEvent.ds_operational = false
is_mp_report MpEvent.ds_inoperational = false
is_mp_report _ = true

abbrev all {ℓ} : {A : Type ℓ} → (A → Bool) → List A → Bool
all p [] = true
all p (x ∷ xs) = p x && all p xs

all-append {ℓ} :
    {A : Type ℓ} (p : A → Bool) (xs ys : List A)
    → all p xs ≡ true
    → all p ys ≡ true
    → all p (xs ++ ys) ≡ true
all-append p [] ys h k = k
all-append p (x ∷ xs) ys h k = ground (arith, all-append p xs ys)

all-when {ℓ} : {A : Type ℓ} (p : A → Bool) (b : Bool) (x : A) → p x ≡ true → all p (when b x) ≡ true
all-when p true x h = rw h
all-when p false x h = refl

state_reports : (status : ℕ) → all is_ds_report (state_events status) ≡ true
unfolding state_events
state_reports status = ground arith

ds_reports :
    (status : ℕ) → all is_ds_report (state_events status ++ voltage_event status ∷ []) ≡ true
unfolding voltage_event
ds_reports status =
    all-append is_ds_report (state_events status) (voltage_event status ∷ []) (state_reports status)
      (ground arith)

mp_reports : (status mode : ℕ) → all is_mp_report (motion_events status mode) ≡ true
unfolding motion_events
mp_reports status mode = ground arith

up_step :
    (s : DsState) (e : DsEvent)
    → is_ds_report e ≡ true
    → is_up (Ds.next_state_given_event s e) ≡ is_up s
unfolding Ds.next_state_given_event
up_step s e h = ground arith

active_step :
    (s : MpState) (e : MpEvent)
    → is_mp_report e ≡ true
    → is_active (Mp.next_state_given_event s e) ≡ is_active s
unfolding Mp.next_state_given_event
active_step s e h = ground arith

up_kept :
    (es : List DsEvent) (s : DsState)
    → all is_ds_report es ≡ true
    → is_up (Transitions.run_states s es) ≡ is_up s
up_kept [] s h = refl
up_kept (e ∷ es) s h = ground (arith, up_kept es (Ds.next_state_given_event s e), up_step s e)

pub active_kept :
    (es : List MpEvent) (s : MpState)
    → all is_mp_report es ≡ true
    → is_active (Handshake.run_states s es) ≡ is_active s
active_kept [] s h = refl
active_kept (e ∷ es) s h =
    ground (arith, active_kept es (Mp.next_state_given_event s e), active_step s e)

motion_reports :
    {up : Bool} {k : SdoMode} (status mode : ℕ) (d : Drive)
    → Below up k d
    → Returns (Below up k) (on_motion (Handshake.run (motion_events status mode)) d)
motion_reports {up} {k} status mode d b =
    let es = motion_events status mode in
    let o = Handshake.run es d.motion in
    Returns-mono
      {P = λ n.
        (n.ds ≡ d.ds)
        × ((is_active n.motion.mp ≡ is_active d.motion.mp) × HasMode k n.motion.channel)}
      (on_motion (Handshake.run es) d)
      (on_motion-Returns (λ m. (is_active m.mp ≡ is_active d.motion.mp) × HasMode k m.channel)
        (Handshake.run es) d
        (Returns-mono o
          (Handshake.run-messages es d.motion (transcript d.motion.channel) (b.1.1, refl))
          λ m h. (ap is_active h.0 ∙ active_kept es d.motion.mp (mp_reports status mode), h.1.0)))
      λ n h. (ap is_up h.0 ∙ b.0, (h.1.0 ∙ b.1.0 ∙ ap is_enabled (sym h.0), h.1.1))

-- A status word, whatever it holds, is handled with no fault and switches neither machine on or
-- off from outside.
pub on_tpdo1-Returns :
    {up : Bool} {k : SdoMode} (status mode : ℕ) (d : Drive)
    → Below up k d
    → Returns (Below up k) (on_tpdo1 status mode d)
unfolding on_tpdo1
on_tpdo1-Returns {up} {k} status mode d b =
    let es = state_events status ++ voltage_event status ∷ [] in
    Returns-bind (Below up k) (Below up k) (Transitions.run es d)
      (on_motion (Handshake.run (motion_events status mode)))
      (Returns-mono (Transitions.run es d)
        (Transitions.run-IsCoupled es d (transcript d.motion.channel) (b.1.1, refl) b.1.0)
        λ n h. (ap is_up h.0 ∙ up_kept es d.ds (ds_reports status) ∙ b.0, (h.1.0, h.1.1)))
      (motion_reports status mode)

one_state : (status : ℕ) → Bool
unfolding state_events
one_state status = leb (length (state_events status)) 1

one_state_table : every_below one_state 65536 ≡ true
unfolding one_state every_below
one_state_table = refl

-- A 16-bit status word reports at most one of the seven device states.
pub state_events_exclusive : (status : ℕ) → status < 65536 → length (state_events status) ≤ 1
unfolding one_state
state_events_exclusive status h =
    let e : one_state status ≡ true = every_below-passes one_state 65536 status h one_state_table in
    ground (arith, e)
