-- ===== src/Sdo/Draining.antt =====
-- The SDO machine of libsled/machines/mch_sdo.cc while the drive answers its requests.
use mathlib.Core.List.{reverse, append-nil}
use sled_server.Common.{
  suc, ◌≡◌, refl, ◌∙◌, sym, Bool, true, false, ◌&&◌, List, [], ◌∷◌, length, some, arith,
}
use sled_server.Common.Outcome.{Outcome, running, Returns, Returns-bind, Returns-mono, ◌>>=◌}
use sled_server.Sdo.{SdoItem, SdoState, SdoEvent, Channel, finish_active, send}
use sled_server.Sdo.Fifo.{transcript, transcript-send, queue-send}

-- An answer that is no abort.
abbrev pub is_good : SdoEvent → Bool
is_good SdoEvent.read_response = true
is_good SdoEvent.write_response = true
is_good _ = false

abbrev pub all_good : List SdoEvent → Bool
all_good [] = true
all_good (e ∷ events) = is_good e && all_good events

-- The answers to the items, one after the other.
abbrev pub answer_all : List SdoEvent → Channel → Outcome Channel
answer_all [] c = running c
answer_all (e ∷ events) c = finish_active e c >>= answer_all events

state-send : (sdo : SdoItem) (c : Channel) → (send sdo c).state ≡ c.state
unfolding send
state-send sdo c = ground arith

-- The next item is on its way, and `q` waits.
abbrev IsGoingOn : List SdoItem → Channel → Channel → Type 0
IsGoingOn q c d = (d.state ≡ SdoState.sending) × ((d.sdo_queue ≡ q) × (transcript d ≡ transcript c))

next_goes :
    (sdo : SdoItem) (q : List SdoItem) (c : Channel) (e : SdoEvent)
    → c.state ≡ SdoState.sending
    → is_good e ≡ true
    → c.sdo_queue ≡ sdo ∷ q
    → Returns (IsGoingOn q c) (finish_active e c)
unfolding finish_active
next_goes sdo q c e s g h =
    let d : Channel = record c { state = SdoState.sending; sdo_active = some sdo; sdo_queue = q } in
    ground (arith, transcript-send sdo c d refl, state-send sdo d, queue-send sdo d)

abbrev IsIdle : Channel → Channel → Type 0
IsIdle c d = (d.state ≡ SdoState.waiting) × ((d.sdo_queue ≡ []) × (transcript d ≡ transcript c))

last_done :
    (c : Channel) (e : SdoEvent)
    → c.state ≡ SdoState.sending
    → is_good e ≡ true
    → c.sdo_queue ≡ []
    → Returns (IsIdle c) (finish_active e c)
unfolding finish_active
last_done c e s g h = ground arith

drain :
    (q : List SdoItem) (events : List SdoEvent) (c : Channel)
    → c.state ≡ SdoState.sending
    → c.sdo_queue ≡ q
    → all_good events ≡ true
    → length events ≡ suc (length q)
    → Returns (IsIdle c) (answer_all events c)
drain q [] c s h g n = absurd (omega (arith, n))
drain [] (e ∷ f ∷ events) c s h g n = absurd (omega (arith, n))
drain [] (e ∷ []) c s h g n =
    Returns-bind (IsIdle c) (IsIdle c) (finish_active e c) _ (last_done c e s (ground (arith, g)) h)
      λ d v. v
drain (sdo ∷ q) (e ∷ events) c s h g n =
    Returns-bind (IsGoingOn q c) (IsIdle c) (finish_active e c) _
      (next_goes sdo q c e s (ground (arith, g)) h)
      λ d v.
        Returns-mono {P = IsIdle d} (answer_all events d)
          (drain q events d v.0 v.1.0 (ground (arith, g)) (omega (arith, n)))
          λ f w. (w.0, (w.1.0, w.1.1 ∙ v.1.1))

-- While an item is on its way and `n` items wait, n + 1 answers, none of them an abort, bring the
-- machine to WAITING with nothing left in its queue; by then every message that waited has been
-- written to the bus, in the order of the queue.
pub answer_all-drains :
    (events : List SdoEvent) (c : Channel)
    → c.state ≡ SdoState.sending
    → all_good events ≡ true
    → length events ≡ suc (length c.sdo_queue)
    → Returns
        (λ d. (d.state ≡ SdoState.waiting) × ((d.sdo_queue ≡ []) × (reverse d.sent ≡ transcript c)))
        (answer_all events c)
answer_all-drains events c s g n =
    Returns-mono {P = IsIdle c} (answer_all events c) (drain c.sdo_queue events c s refl g n)
      λ d w. (w.0, (w.1.0, all_sent d w.1.0 ∙ w.1.1))
  where
    all_sent : (d : Channel) → d.sdo_queue ≡ [] → reverse d.sent ≡ transcript d
    all_sent d h = rw h (sym (append-nil (reverse d.sent)))
