-- ===== src/Api/Events.antt =====
-- The events of the event loop (libsled/interface.cc, libsled/sled.cc) and the profile table of the
-- device.
use sled_server.Common.{
  ℕ, suc, ◌≡◌, refl, ap, ◌∙◌, true, some, List, [], ◌∷◌, length, length-set, get_elem?, set,
  Bool-cases, inl, inr, arith,
}
use sled_server.Common.Int.{Double, Fpu}
use sled_server.Common.Outcome.{Outcome, Ensures, Ensures-bind, OnReturn}
use sled_server.Profile.{
  Profile, max_profiles, profiles_reset, mark_as_unsaved, set_field_state, written,
}
use sled_server.Upload.Visits.{in_table}
use sled_server.Upload.Termination.{all_linked, all_linked-set, all_linked-get_elem?}
use sled_server.Sled.{Sled}
use sled_server.Sled.Loop.{Input, step}
use sled_server.Sled.Soundness.{IsSound}
use sled_server.Sled.Steps.{IsAccepted, step-IsSound}
use sled_server.Sled.Tables.{on_drive-Has, net-Has, dispatch_sdo-Has}
use sled_server.Sled.Tables.Loop.{step-Has}
use sled_server.Api.{Device, on_sled}
use sled_server.Api.Soundness.{IsReady}
use sled_server.Api.Table.{IsTable}

profiles_reset-all_linked :
    (n : ℕ) (ps : List Profile) → all_linked n ps ≡ true → all_linked n (profiles_reset ps) ≡ true
unfolding profiles_reset mark_as_unsaved
profiles_reset-all_linked n [] h = refl
profiles_reset-all_linked n (p ∷ ps) h =
    let rest = profiles_reset-all_linked n ps (ground (arith, h)) in
    elim (Bool-cases p.in_use) [
      | inl u ↦ rw u (ground (arith, h, rest))
      | inr u ↦ rw u (ground (arith, h, rest))
    ]

profiles_reset-length : (ps : List Profile) → length (profiles_reset ps) ≡ length ps
unfolding profiles_reset
profiles_reset-length [] = refl
profiles_reset-length (p ∷ ps) = ap suc (profiles_reset-length ps)

profiles_reset-IsTable : (ps : List Profile) → IsTable ps → IsTable (profiles_reset ps)
profiles_reset-IsTable ps v =
    (profiles_reset-length ps ∙ v.0, profiles_reset-all_linked max_profiles ps v.1)

set_field_state-linked :
    (index : ℕ) (p : Profile)
    → in_table max_profiles p.next_profile ≡ true
    → in_table max_profiles (set_field_state index written p).next_profile ≡ true
unfolding set_field_state
set_field_state-linked index p h = ground (arith, h)

field-IsTable :
    (ps : List Profile) (n index : ℕ) (p : Profile)
    → get_elem? ps n ≡ some p
    → IsTable ps
    → IsTable (set ps n (set_field_state index written p))
field-IsTable ps n index p e v = (
  length-set ps n (set_field_state index written p) ∙ v.0,
  all_linked-set max_profiles ps n _ v.1
      (set_field_state-linked index p (all_linked-get_elem? max_profiles ps n p v.1 e)),
)

step-IsTable :
    (fpu : Fpu) (now : Double) (i : Input) (s : Sled)
    → IsTable s.network.profiles
    → OnReturn (λ t. IsTable t.network.profiles) (step fpu now i s)
step-IsTable fpu now i s v =
    step-Has (λ n. IsTable n.profiles) (net-Has IsTable profiles_reset-IsTable field-IsTable)
      (on_drive-Has IsTable profiles_reset-IsTable field-IsTable)
      (dispatch_sdo-Has IsTable profiles_reset-IsTable field-IsTable) fpu now i s v

-- Every event of the event loop, in every ready device, with every answer of the driver and every
-- message but a response that nothing asked for, leaves the device ready or ends the process.
pub step-IsReady :
    (fpu : Fpu) (now : Double) (i : Input) (d : Device)
    → IsReady d
    → IsAccepted i d.sled
    → Ensures IsReady (on_sled (step fpu now i) d)
step-IsReady fpu now i d v a =
    Ensures-bind (λ s. IsSound s × IsTable s.network.profiles) IsReady (step fpu now i d.sled) _
      (with_table (step fpu now i d.sled) (step-IsSound fpu now i d.sled v.sound a)
        (step-IsTable fpu now i d.sled (v.full, v.linked)))
      λ s w. record { sound = w.0; full = w.1.0; linked = w.1.1; handles = v.handles }
  where
    with_table :
        (m : Outcome Sled)
        → Ensures IsSound m
        → OnReturn (λ s. IsTable s.network.profiles) m
        → Ensures (λ s. IsSound s × IsTable s.network.profiles) m
    with_table (Outcome.running s) p q = (p, q)
    with_table Outcome.exited p q = tt
    with_table Outcome.overflow p q = p
    with_table Outcome.fault p q = p
