-- ===== src/Sdo/Clearing.antt =====
-- What happens to the items that wait when transmission is enabled, and how many rounds the SDO
-- machine of libsled/machines/mch_sdo.cc takes.
use sled_server.Common.{
  ℕ, suc, ◌≡◌, refl, ◌⊎◌, Bool, true, false, ◌||◌, List, [], ◌∷◌, arith, if◌then◌else◌,
}
use sled_server.Common.Outcome.{running, exited}
use sled_server.Sdo.{
  SdoItem, SdoState, SdoEvent, Channel, AbortCallback, no_abort_callback, clear_items, handle_event,
  handle_rounds,
}

abbrev pub has_abort_callback : AbortCallback → Bool
has_abort_callback no_abort_callback = false
has_abort_callback _ = true

abbrev pub any_abort_callback : List SdoItem → Bool
any_abort_callback [] = false
any_abort_callback (sdo ∷ rest) = has_abort_callback sdo.abort_callback || any_abort_callback rest

clear_items_lem :
    (items : List SdoItem) (c : Channel)
    → clear_items items c
      ≡ (if any_abort_callback items then exited else running (record c { sdo_queue = [] }))
unfolding clear_items
clear_items_lem [] c = refl
clear_items_lem (sdo ∷ rest) c = ground (arith, clear_items_lem rest c)

-- Enabling a disabled machine, or one in its error state, ends the process if an item that waits
-- has an abort callback. Otherwise all such items are dropped, none is sent, and the machine
-- waits.
pub enable_drops :
    (c : Channel)
    → (c.state ≡ SdoState.disabled) ⊎ (c.state ≡ SdoState.error)
    → handle_event SdoEvent.net_sdo_enabled c ≡ (
        if any_abort_callback c.sdo_queue
        then exited
        else running (record c { state = SdoState.waiting; sdo_queue = [] }))
unfolding handle_event
enable_drops c s = ground (arith, clear_items_lem c.sdo_queue c)

-- Two rounds are enough for every event in every state: with more the machine does the same.
pub handle_rounds_enough :
    (n : ℕ) (e : SdoEvent) (c : Channel) → handle_rounds (suc (suc n)) e c ≡ handle_event e c
unfolding handle_event
handle_rounds_enough n e c = ground (arith, clear_items_lem c.sdo_queue c)
