-- ===== src/Sdo/Invariant.antt =====
-- What holds of the SDO machine of libsled/machines/mch_sdo.cc between two calls.
use sled_server.Common.{◌≡◌, refl, true, not, Option, none, some, List, [], ◌∷◌, arith}
use sled_server.Common.Outcome.{Ensures, Returns}
use sled_server.Sdo.{
  SdoItem, SdoState, SdoEvent, Channel, clear_items, handle_event, finish_active, enqueue, create,
}

-- The callbacks that the interface has registered are those for the item on its way.
abbrev pub Awaits : Option SdoItem → Channel → Type 0
Awaits none c = ⊥
Awaits (some sdo) c =
    (c.on_write ≡ sdo.is_write) × (c.on_read ≡ not sdo.is_write) × (c.on_abort ≡ true)

-- While the machine waits its queue is empty; while it sends, an item is on its way.
pub record IsValid (c : Channel) : Type 0 where
  pub drained : c.state ≡ SdoState.waiting → c.sdo_queue ≡ []
  pub busy : c.state ≡ SdoState.sending → Awaits c.sdo_active c

pub create-IsValid : IsValid create
unfolding create
create-IsValid = ground arith

-- Clearing the queue leaves all else as it was.
pub clear_items-Ensures :
    (items : List SdoItem) (c : Channel)
    → Ensures (λ d. d ≡ record c { sdo_queue = [] }) (clear_items items c)
unfolding clear_items
clear_items-Ensures [] c = refl
clear_items-Ensures (sdo ∷ rest) c = ground (arith, clear_items-Ensures rest c)

-- The answer to an item on its way: read, write or abort.
pub data IsAnswer : SdoEvent → Type 0 where
  read : IsAnswer SdoEvent.read_response
  written : IsAnswer SdoEvent.write_response
  aborted : IsAnswer SdoEvent.abort_response

pub disable-Returns :
    (c : Channel)
    → IsValid c
    → Returns
        (λ d. IsValid d × (d.sent ≡ c.sent) × (d.sdo_queue ≡ c.sdo_queue))
        (handle_event SdoEvent.net_sdo_disabled c)
unfolding handle_event
disable-Returns c v = ground arith

-- On an enabled machine the event does nothing; else the queue is dropped first, which may end the
-- process.
pub enable-Ensures :
    (c : Channel) → IsValid c → Ensures IsValid (handle_event SdoEvent.net_sdo_enabled c)
unfolding handle_event
enable-Ensures c v = ground (arith, clear_items-Ensures c.sdo_queue c)

pub enqueue-Returns : (sdo : SdoItem) (c : Channel) → IsValid c → Returns IsValid (enqueue sdo c)
unfolding enqueue
enqueue-Returns sdo c v = ground arith

pub answer-Returns :
    {e : SdoEvent} → IsAnswer e → (c : Channel) → IsValid c → Returns IsValid (finish_active e c)
unfolding finish_active
answer-Returns read c v = ground arith
answer-Returns written c v = ground arith
answer-Returns aborted c v = ground arith
