-- ===== src/Sdo/Fifo.antt =====
-- The SDO machine of libsled/machines/mch_sdo.cc as a channel of requests to the CAN bus.
use mathlib.Core.List.{reverse, reverse-cons, append-nil, append_assoc, map-append}
use sled_server.Common.{
  ◌≡◌, refl, ap, ◌∙◌, ◌⊎◌, ◌≢◌, inl, inr, sym, true, false, some, List, [], ◌∷◌, ◌++◌, map, arith,
}
use sled_server.Common.Outcome.{running, Returns}
use sled_server.Can.{CanMessage, read_req_message, write_req_message}
use sled_server.Sdo.{
  SdoItem, SdoState, SdoEvent, Channel, finish_active, send, enqueue, SdoState-discrete,
}
use sled_server.Sdo.Invariant.{IsValid, IsAnswer, read, written, aborted}

-- The request that stands on the bus for an item.
abbrev pub request : SdoItem → CanMessage
request sdo = elim sdo.is_write [
  | true ↦ write_req_message sdo.index sdo.subindex sdo.value sdo.size
  | false ↦ read_req_message sdo.index sdo.subindex
]

-- All messages in order: those written to the bus, then those that wait.
abbrev pub transcript : Channel → List CanMessage
transcript c = reverse c.sent ++ map request c.sdo_queue

queue_push :
    (sdo : SdoItem) (sent : List CanMessage) (q : List SdoItem)
    → reverse sent ++ map request (q ++ sdo ∷ [])
      ≡ (reverse sent ++ map request q) ++ request sdo ∷ []
queue_push sdo sent q = rw (map-append, append_assoc) refl

-- A request that moves from the queue to the bus keeps its place.
sent_front :
    (sdo : SdoItem) (sent : List CanMessage) (q : List SdoItem)
    → reverse (request sdo ∷ sent) ++ map request q ≡ reverse sent ++ map request (sdo ∷ q)
sent_front sdo sent q = rw (reverse-cons (request sdo) sent, append_assoc) refl

sent-send : (sdo : SdoItem) (c : Channel) → (send sdo c).sent ≡ request sdo ∷ c.sent
unfolding send
sent-send sdo c = ground arith

pub queue-send : (sdo : SdoItem) (c : Channel) → (send sdo c).sdo_queue ≡ c.sdo_queue
unfolding send
queue-send sdo c = ground arith

pub transcript-send :
    (sdo : SdoItem) (c d : Channel)
    → d.sent ≡ c.sent
    → transcript (send sdo d) ≡ reverse c.sent ++ map request (sdo ∷ d.sdo_queue)
transcript-send sdo c d e = rw (sent-send, queue-send, e) (sent_front sdo c.sent d.sdo_queue)

enqueue_idle :
    (sdo : SdoItem) (c : Channel)
    → c.state ≡ SdoState.waiting
    → c.sdo_queue ≡ []
    → enqueue sdo c
      ≡ running
          (send sdo (record c { state = SdoState.sending; sdo_active = some sdo; sdo_queue = [] }))
unfolding enqueue
enqueue_idle sdo c w q = ground arith

enqueue_waits :
    (sdo : SdoItem) (c : Channel)
    → c.state ≢ SdoState.waiting
    → enqueue sdo c ≡ running (record c { sdo_queue = c.sdo_queue ++ sdo ∷ [] })
unfolding enqueue
enqueue_waits sdo c w = ground arith

-- In every state a new item goes to the end of the transcript: it is sent at once, or it waits
-- behind the others.
pub transcript-enqueue :
    (sdo : SdoItem) (c : Channel)
    → IsValid c
    → Returns (λ d. transcript d ≡ transcript c ++ request sdo ∷ []) (enqueue sdo c)
transcript-enqueue sdo c v = elim (SdoState-discrete c.state SdoState.waiting) [
  | yes w ↦ rw (enqueue_idle sdo c w (v.drained w)) (
      transcript-send sdo c _ refl
      ∙ rw (v.drained w) (sym (ap (λ t. t ++ request sdo ∷ []) (append-nil (reverse c.sent)))))
  | no w ↦ rw (enqueue_waits sdo c w) (queue_push sdo c.sent c.sdo_queue)
]

next_sent :
    (q : List SdoItem) (c : Channel) (e : SdoEvent)
    → c.state ≡ SdoState.sending
    → (e ≡ SdoEvent.read_response) ⊎ (e ≡ SdoEvent.write_response)
    → c.sdo_queue ≡ q
    → Returns (λ d. transcript d ≡ transcript c) (finish_active e c)
unfolding finish_active
next_sent [] c e s r h = ground arith
next_sent (sdo ∷ q) c e s r h = ground (
  arith,
  transcript-send sdo c
      (record c { state = SdoState.sending; sdo_active = some sdo; sdo_queue = q }) refl,
)

-- An answer sends the item that waits first, and neither drops nor reorders one.
pub transcript-answer :
    {e : SdoEvent}
    → IsAnswer e
    → (c : Channel) → c.state ≡ SdoState.sending
    → Returns (λ d. transcript d ≡ transcript c) (finish_active e c)
transcript-answer read c s = next_sent c.sdo_queue c _ s (inl refl) refl
transcript-answer written c s = next_sent c.sdo_queue c _ s (inr refl) refl
transcript-answer aborted c s = unfold finish_active in ground arith
