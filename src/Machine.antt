-- ===== src/Machine.antt =====
-- The state machine that libsled/machines/machine_body.h generates for each PREFIX, from the
-- machine's own three functions.
pub mod Laws
use sled_server.Common.{ℕ, ◌==◌, if◌then◌else◌}
use sled_server.Common.Outcome.{Outcome, running, ◌>>=◌}

-- What the macros take from a machine's files: the numbers of its enumerators, its `state` field,
-- and the functions PREFIX_next_state_given_event, PREFIX_on_exit and PREFIX_on_enter. `Owner` is
-- everything that the machine's handlers can reach.
pub record Machine (State Event Owner : Type 0) : Type 0 where
  pub number : State → ℕ
  pub state : Owner → State
  pub set_state : State → Owner → Owner
  pub next_state_given_event : State → Event → State
  pub on_exit : Owner → Outcome Owner
  pub on_enter : Owner → Outcome Owner

module _ {State Event Owner : Type 0} where
  -- PREFIX_handle_event
  unfoldable pub handle_event : Machine State Event Owner → Event → Owner → Outcome Owner
  handle_event m event o =
      let next_state = m.next_state_given_event (m.state o) event in
      if m.number (m.state o) == m.number next_state
      then running o
      else m.on_exit o >>= λ left. m.on_enter (m.set_state next_state left)
