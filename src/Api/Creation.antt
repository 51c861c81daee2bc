-- ===== src/Api/Creation.antt =====
-- The device that sled_create (libsled/sled.cc) leaves.
use sled_server.Common.{◌≡◌, refl, ap, ◌∙◌, Bool-cases, inl, inr, length, List}
use sled_server.Common.Int.{Double, Fpu}
use sled_server.Common.Outcome.{
  Outcome, running, exited, overflow, fault, Returns-bind, Ensures, Returns, Returns-mono,
}
use sled_server.Profile.{Profile, max_profiles}
use sled_server.Net
use sled_server.Sdo
use sled_server.Net.{NetState, NetEvent}
use sled_server.Sled.{Sled, Driver, IntfEvent, IntfState, handle_event, on_network}
use sled_server.Sled.Closing.{opens, open_success, open_fails}
use sled_server.Sled.Soundness.{IsSound}
use sled_server.Sled.Reach.{assembled, start-IsSound}
use sled_server.Api.{Device, profiles_of, registered, sled_create}
use sled_server.Api.Soundness.{IsReady}
use sled_server.Api.Table.{registered-IsTable, registered-IsSlots}

start-keeps :
    (d : Driver) (memory : Sled) (time : Double) (profiles : List Profile)
    → Returns
        (λ s. s.network.profiles ≡ profiles)
        (handle_event d IntfEvent.open_it (assembled memory time profiles))
unfolding assembled Net.handle_event on_network Sdo.handle_event
start-keeps d memory time profiles =
    let s = assembled memory time profiles in
    elim (Bool-cases (opens d)) [
      | inl ok ↦ rw (open_success d s refl refl ok) refl
      | inr bad ↦
          Returns-mono {P = λ t. (t.intf ≡ IntfState.opening) × (t.network ≡ s.network)}
            (handle_event d IntfEvent.open_it s) (open_fails d s refl refl bad)
            (λ t h. ap (λ n. n.profiles) h.1)
    ]

both :
    (P Q : Sled → Type 0) (o : Outcome Sled)
    → Ensures P o
    → Returns Q o
    → Returns (λ s. P s × Q s) o
both P Q (running s) h k = (h, k)
both P Q exited h k = k
both P Q overflow h k = k
both P Q fault h k = k

pub sled_create-IsReady :
    (driver : Driver) (fpu : Fpu) (time : Double) (memory : Device)
    → length (profiles_of memory) ≡ max_profiles
    → Returns IsReady (sled_create driver fpu time memory)
unfolding sled_create
sled_create-IsReady driver fpu time memory e =
    let ps = profiles_of memory in
    let r = registered fpu ps in
    let h = registered-IsSlots fpu ps e in
    let t = registered-IsTable fpu ps e h in
    Returns-bind (λ s. IsSound s × (s.network.profiles ≡ r.table)) IsReady
      (handle_event driver IntfEvent.open_it (assembled memory.sled time r.table)) _
      (both IsSound _ _ (start-IsSound driver memory.sled time r.table)
        (start-keeps driver memory.sled time r.table))
      λ s v. record { sound = v.0; full = ap length v.1 ∙ t.0; linked = rw v.1 t.1; handles = h }
