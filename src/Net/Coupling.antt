-- ===== src/Net/Coupling.antt =====
-- How the network machine of libsled/machines/mch_net.cc and the three machines below it depend on
-- each other.
use sled_server.Common.{ℕ, ◌≡◌, ◌≢◌, refl, sym, ap, ◌∙◌, Bool, true, false, arith}
use sled_server.Common.Outcome.{
  Outcome, running, exited, overflow, fault, ◌>>=◌, Ensures, Ensures-bind, Ensures-mono,
  Returns-mono, Ensures-of_Returns,
}
use sled_server.Can.{nmt_enterpreoperational, nmt_startremotenode}
use sled_server.Sdo.{Channel, SdoEvent, intf_send_nmt_command}
use sled_server.Sdo
use sled_server.Sdo.Fifo.{transcript}
use sled_server.Mp.{on_channel}
use sled_server.Mp.Outputs.{SdoMode, sdo_mode}
use sled_server.Ds.{Drive, DsState, DsEvent, on_motion}
use sled_server.Ds
use sled_server.Ds.Outputs.{IsCoupled}
use sled_server.Ds.Outputs
use sled_server.Machine.Laws.{IsInjective, handle_event-cases}
use sled_server.Net.{
  NetState, NetEvent, Network, on_drive, on_sdo, sdos_enabled, sdos_disabled, send_nmt,
  enter_operational, leave_operational, queue_setup, next_state_given_event, on_enter, on_exit,
  machine, handle_event,
}
use sled_server.Profile.{profiles_reset}
use sled_server.Net.Channels.{
  HasMode, mode_disabled, disable-HasMode, enable-HasMode, nmt-HasMode, queue_setup-HasSent,
}

abbrev pub is_up : DsState → Bool
is_up DsState.disabled = false
is_up _ = true

abbrev pub is_operational : NetState → Bool
is_operational NetState.operational = true
is_operational _ = false

-- In these states the drive answers service data objects.
abbrev pub is_live : NetState → Bool
is_live NetState.preoperational = true
is_live NetState.operational = true
is_live NetState.uploadconfig = true
is_live NetState.startremotenode = true
is_live _ = false

-- The modes of the SDO machine that a state of the network machine allows.
abbrev pub allows : Bool → SdoMode → Bool
allows true SdoMode.off = false
allows false SdoMode.on = false
allows _ _ = true

-- The device machine is on or off as `up` says, the motion profile machine follows it, and the SDO
-- machine is in order and in mode `k`.
abbrev pub Below : Bool → SdoMode → Drive → Type 0
Below up k d = (is_up d.ds ≡ up) × (IsCoupled d × HasMode k d.motion.channel)

pub record IsSound (n : Network) : Type 0 where
  pub below : Below (is_operational n.net) (sdo_mode n.drive.motion.channel.state) n.drive
  pub allowed : allows (is_live n.net) (sdo_mode n.drive.motion.channel.state) ≡ true

-- What a step below the network machine leaves.
abbrev pub Kept : Bool → SdoMode → Network → Network → Type 0
Kept up k n m = (m.net ≡ n.net) × Below up k m.drive

number_injective : IsInjective machine
unfolding machine
number_injective s t h = ground arith

-- Steps on a part of the network leave the rest of it.
pub on_drive-Ensures :
    (P : Drive → Type 0) (f : Drive → Outcome Drive) (n : Network)
    → Ensures P (f n.drive)
    → Ensures (λ m. (m.net ≡ n.net) × P m.drive) (on_drive f n)
unfolding on_drive
on_drive-Ensures P f n h =
    Ensures-bind P (λ m. (m.net ≡ n.net) × P m.drive) (f n.drive) _ h (λ d hd. (refl, hd))

rewrap :
    {up : Bool} {k : SdoMode} (l : SdoMode) (d : Drive) (o : Outcome Channel)
    → Below up k d
    → Ensures (HasMode l) o
    → Ensures (Below up l) (
        o
        >>= (λ c. running (record (d.motion) { channel = c }))
        >>= (λ m. running (record d { motion = m })))
rewrap l d (running c) b h = (b.0, (b.1.0, h))
rewrap l d exited b h = tt
rewrap l d overflow b h = h
rewrap l d fault b h = absurd (h tt)

pub on_sdo-Ensures :
    {up : Bool} {k : SdoMode} (l : SdoMode) (f : Channel → Outcome Channel) (n : Network)
    → Below up k n.drive
    → Ensures (HasMode l) (f n.drive.motion.channel)
    → Ensures (Kept up l n) (on_sdo f n)
unfolding on_sdo on_motion on_channel
on_sdo-Ensures {up} l f n b h =
    on_drive-Ensures (Below up l) (on_motion (on_channel f)) n
      (rewrap l n.drive (f n.drive.motion.channel) b h)

-- A step of the device machine, for any table entry that it meets.
device-Ensures :
    {up : Bool} {k : SdoMode} (to : Bool) (e : DsEvent) (n : Network)
    → Below up k n.drive
    → is_up (Ds.next_state_given_event n.drive.ds e) ≡ to
    → Ensures (Kept to k n) (on_drive (Ds.handle_event e) n)
device-Ensures {k} to e n b t =
    let o = Ds.handle_event e n.drive in
    let msgs = transcript n.drive.motion.channel in
    on_drive-Ensures (Below to k) (Ds.handle_event e) n (
      Ensures-of_Returns (Below to k) o (
        Returns-mono o (Outputs.drive_event-messages e n.drive msgs (b.1.1, refl) b.1.0)
          λ d h. (ap is_up h.0 ∙ t, (h.1.0, h.1.1.0))))

device_on :
    (s : DsState)
    → is_up s ≡ false
    → is_up (Ds.next_state_given_event s DsEvent.net_operational) ≡ true
unfolding Ds.next_state_given_event
device_on s h = ground arith

device_off : (s : DsState) → is_up (Ds.next_state_given_event s DsEvent.net_inoperational) ≡ false
unfolding Ds.next_state_given_event
device_off s = ground arith

-- What the entered state needs of the mode of the SDO machine.
abbrev ready : NetState → SdoMode → Bool
ready NetState.startremotenode SdoMode.off = false
ready NetState.uploadconfig SdoMode.off = false
ready NetState.enterpreoperational SdoMode.on = false
ready _ _ = true

next_ready :
    (s : NetState) (e : NetEvent) (k : SdoMode)
    → allows (is_live s) k ≡ true
    → next_state_given_event s e ≢ s
    → ready (next_state_given_event s e) k ≡ true
unfolding next_state_given_event
next_ready s e k a h = ground arith

-- What the entering action of state `t` leaves.
abbrev Entered : NetState → Network → Network → Type 0
Entered t l n =
    (n.net ≡ l.net)
    × ((k : SdoMode) × Below (is_operational t) k n.drive × (allows (is_live t) k ≡ true))

nmt-Ensures :
    {up : Bool} {k : SdoMode} (command : ℕ) (n : Network)
    → Below up k n.drive
    → Ensures (Kept up k n) (send_nmt command n)
unfolding send_nmt
nmt-Ensures {k} command n b =
    on_sdo-Ensures k (λ c. running (intf_send_nmt_command command c)) n b
      (nmt-HasMode command n.drive.motion.channel b.1.1)

setup-Ensures :
    {up : Bool} {k : SdoMode} (n : Network)
    → Below up k n.drive
    → Ensures (Kept up k n) (on_sdo queue_setup n)
setup-Ensures {k} n b =
    let c = n.drive.motion.channel in
    on_sdo-Ensures k queue_setup n b (
      Ensures-of_Returns (HasMode k) (queue_setup c) (
        Returns-mono (queue_setup c) (queue_setup-HasSent (transcript c) c (b.1.1, refl))
          λ d h. h.0))

sdos_disabled-Ensures :
    {up : Bool} {k : SdoMode} (n : Network)
    → Below up k n.drive
    → Ensures (Kept up (mode_disabled k) n) (sdos_disabled n)
unfolding sdos_disabled
sdos_disabled-Ensures {k} n b =
    let f = Sdo.handle_event SdoEvent.net_sdo_disabled in
    let c = n.drive.motion.channel in
    on_sdo-Ensures (mode_disabled k) f n b
      (Ensures-of_Returns (HasMode (mode_disabled k)) (f c) (disable-HasMode c b.1.1))

sdos_enabled-Ensures :
    {up : Bool} {k : SdoMode} (n : Network)
    → Below up k n.drive
    → Ensures (Kept up SdoMode.on n) (sdos_enabled n)
unfolding sdos_enabled
sdos_enabled-Ensures n b =
    on_sdo-Ensures SdoMode.on (Sdo.handle_event SdoEvent.net_sdo_enabled) n b
      (enable-HasMode n.drive.motion.channel b.1.1)

not_live : (k : SdoMode) → allows false (mode_disabled k) ≡ true
not_live k = ground arith

enter_operational-Ensures :
    {k : SdoMode} (n : Network)
    → Below false k n.drive
    → Ensures (Kept true k n) (enter_operational n)
unfolding enter_operational
enter_operational-Ensures n b =
    device-Ensures true DsEvent.net_operational (record n { profiles = profiles_reset n.profiles })
      b (device_on n.drive.ds b.0)

Entered-IsSound : (t : NetState) (l m : Network) → l.net ≡ t → Entered t l m → IsSound m
Entered-IsSound t l m e (same, (k, b, a)) = record {
  below = (b.0 ∙ sym (ap is_operational (same ∙ e)), (b.1.0, (b.1.1.0, refl)));
  allowed = rw (same ∙ e, b.1.1.1) a;
}

enter-Ensures :
    (t : NetState) (k : SdoMode) (l : Network)
    → Below false k l.drive
    → ready t k ≡ true
    → Ensures (Entered t l) (on_enter t l)
unfolding on_enter
enter-Ensures NetState.disabled k l b r =
    Ensures-mono {P = Kept false (mode_disabled k) l} {Q = Entered NetState.disabled l}
      (sdos_disabled l) (sdos_disabled-Ensures l b) λ m h. (h.0, (mode_disabled k, h.1, not_live k))
enter-Ensures NetState.unknown k l b r =
    Ensures-bind (Kept false (mode_disabled k) l) (Entered NetState.unknown l) (sdos_disabled l)
      (send_nmt nmt_enterpreoperational) (sdos_disabled-Ensures l b)
      λ m h.
        Ensures-mono {P = Kept false (mode_disabled k) m} {Q = Entered NetState.unknown l}
          (send_nmt nmt_enterpreoperational m) (nmt-Ensures _ m h.1)
          λ n g. (g.0 ∙ h.0, (mode_disabled k, g.1, not_live k))
enter-Ensures NetState.stopped k l b r =
    Ensures-bind (Kept false (mode_disabled k) l) (Entered NetState.stopped l) (sdos_disabled l)
      (send_nmt nmt_startremotenode) (sdos_disabled-Ensures l b)
      λ m h.
        Ensures-mono {P = Kept false (mode_disabled k) m} {Q = Entered NetState.stopped l}
          (send_nmt nmt_startremotenode m) (nmt-Ensures _ m h.1)
          λ n g. (g.0 ∙ h.0, (mode_disabled k, g.1, not_live k))
enter-Ensures NetState.preoperational k l b r =
    Ensures-bind (Kept false SdoMode.on l) (Entered NetState.preoperational l) (sdos_enabled l)
      (on_sdo queue_setup) (sdos_enabled-Ensures l b)
      λ m h.
        Ensures-mono {P = Kept false SdoMode.on m} {Q = Entered NetState.preoperational l}
          (on_sdo queue_setup m) (setup-Ensures m h.1) λ n g. (g.0 ∙ h.0, (SdoMode.on, g.1, refl))
enter-Ensures NetState.operational k l b r =
    Ensures-bind (Kept false SdoMode.on l) (Entered NetState.operational l) (sdos_enabled l)
      enter_operational (sdos_enabled-Ensures l b)
      λ m h.
        Ensures-mono {P = Kept true SdoMode.on m} {Q = Entered NetState.operational l}
          (enter_operational m) (enter_operational-Ensures m h.1)
          λ n g. (g.0 ∙ h.0, (SdoMode.on, g.1, refl))
enter-Ensures NetState.enterpreoperational k l b r =
    Ensures-mono {P = Kept false k l} {Q = Entered NetState.enterpreoperational l}
      (send_nmt nmt_enterpreoperational l) (nmt-Ensures _ l b) λ n g. (g.0, (k, g.1, ground arith))
enter-Ensures NetState.uploadconfig k l b r =
    Ensures-mono {P = Kept false k l} {Q = Entered NetState.uploadconfig l} (on_sdo queue_setup l)
      (setup-Ensures l b) λ n g. (g.0, (k, g.1, ground arith))
enter-Ensures NetState.startremotenode k l b r =
    Ensures-mono {P = Kept false k l} {Q = Entered NetState.startremotenode l}
      (send_nmt nmt_startremotenode l) (nmt-Ensures _ l b) λ n g. (g.0, (k, g.1, ground arith))

exit-Ensures :
    (s : NetState) (k : SdoMode) (n : Network)
    → Below (is_operational s) k n.drive
    → Ensures (Kept false k n) (on_exit s n)
unfolding on_exit leave_operational
exit-Ensures NetState.operational k n b =
    device-Ensures false DsEvent.net_inoperational n b (device_off n.drive.ds)
exit-Ensures _ k n b = (refl, b)

-- What holds after an event.
abbrev pub After : NetEvent → Network → Network → Type 0
After e n m = (m.net ≡ next_state_given_event n.net e) × IsSound m

move :
    (e : NetEvent) (n : Network)
    → IsSound n
    → next_state_given_event n.net e ≢ n.net
    → Ensures (After e n) (
        on_exit n.net n >>= λ l.
        on_enter
          (next_state_given_event n.net e)
          (record l { net = next_state_given_event n.net e }))
move e n v other =
    let t = next_state_given_event n.net e in
    let k = sdo_mode n.drive.motion.channel.state in
    Ensures-bind (Kept false k n) (After e n) (on_exit n.net n) _ (exit-Ensures n.net k n v.below)
      λ l h.
        Ensures-mono (on_enter t (record l { net = t }))
          (enter-Ensures t k (record l { net = t }) h.1 (next_ready n.net e k v.allowed other))
          λ m g. (g.0, Entered-IsSound t (record l { net = t }) m refl g)

-- From a sound network every event leads to the state that the table names and to a sound network
-- again; the only other outcome is the exit of the process when a queue with an abort callback is
-- dropped. No event leads to a fault.
pub handle_event-IsSound :
    (e : NetEvent) (n : Network) → IsSound n → Ensures (After e n) (handle_event e n)
unfolding handle_event
handle_event-IsSound e n v =
    handle_event-cases machine (Ensures (After e n)) e n number_injective (λ same. (sym same, v))
      (move e n v)
