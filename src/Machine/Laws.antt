-- ===== src/Machine/Laws.antt =====
-- The rule for PREFIX_handle_event of libsled/machines/machine_body.h.
use sled_server.Common.{◌≡◌, ◌≢◌, ◌==◌, ==_iff, Bool-cases, inl, inr, ap, sym, arith}
use sled_server.Common.Outcome.{Outcome, running, ◌>>=◌}
use sled_server.Machine.{Machine, handle_event}

module _ {State Event Owner : Type 0} (m : Machine State Event Owner) where
  -- No two states have the same number.
  abbrev pub IsInjective : Type 0
  IsInjective = (s t : State) → m.number s ≡ m.number t → s ≡ t

  -- An event either leaves the state as it is and does nothing, or takes the two actions.
  pub handle_event-cases {κ} :
      (Q : Outcome Owner → Type κ) (e : Event) (o : Owner)
      → IsInjective
      → (m.next_state_given_event (m.state o) e ≡ m.state o → Q (running o))
      → (m.next_state_given_event (m.state o) e ≢ m.state o
          → Q (
              m.on_exit o >>= λ l.
              m.on_enter (m.set_state (m.next_state_given_event (m.state o) e) l)))
      → Q (handle_event m e o)
  unfolding handle_event
  handle_event-cases Q e o inj stays moves =
      elim (Bool-cases
        (m.number (m.state o) == m.number (m.next_state_given_event (m.state o) e))) [
          | inl same ↦ rw same (stays (sym (inj _ _ ((==_iff _ _).0 same))))
          | inr other ↦ rw other (moves (λ h. ground (arith, other, ap m.number h)))
        ]
