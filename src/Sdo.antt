-- ===== src/Sdo.antt =====
-- libsled/machines/mch_sdo.cc: the queue of service data objects, of which one is on its way at a
-- time. A `Channel` is mch_sdo_t with the part of intf_t that it drives: the callbacks that wait
-- for a response, and the messages handed to CAN_Write, newest first.
pub mod Invariant
pub mod Fifo
pub mod Draining
pub mod Clearing
use sled_server.Common.{ℕ, zero, suc, Bool, true, false, Option, none, some, List, [], ◌∷◌, ◌++◌}
use sled_server.Common.Outcome.{Outcome, running, exited, fault, ◌>>=◌}
use sled_server.Machine.{Machine}
use sled_server.Machine
use sled_server.Can.{CanMessage, nmt_message, read_req_message, write_req_message}

-- sdo_write_callback_t with its `data`: NULL, mch_net_sdo_write_callback, or on_success_callback
-- for the profile with the given handle.
pub data WriteCallback : Type 0 where
  no_write_callback : WriteCallback
  net_upload_complete : WriteCallback
  profile_written : ℕ → WriteCallback

-- sdo_abort_callback_t with its `data`: NULL, mch_net_sdo_abort_callback, or on_failure_callback
-- for the profile with the given handle.
pub data AbortCallback : Type 0 where
  no_abort_callback : AbortCallback
  net_upload_failed : AbortCallback
  profile_invalid : ℕ → AbortCallback

-- sdo_t. No caller in the repository passes a read callback, so `read_callback` is always NULL.
pub record SdoItem : Type 0 where
  pub is_write : Bool
  pub index : ℕ
  pub subindex : ℕ
  pub value : ℕ
  pub size : ℕ
  pub abort_callback : AbortCallback
  pub write_callback : WriteCallback

pub data SdoState : Type 0 where
  disabled error waiting sending : SdoState

pub SdoState-discrete : Discrete SdoState
SdoState-discrete = hlevel

pub data SdoEvent : Type 0 where
  net_sdo_disabled net_sdo_enabled item_available : SdoEvent
  read_response write_response abort_response : SdoEvent

pub record Channel : Type 0 where
  pub state : SdoState
  pub sdo_queue : List SdoItem
  pub sdo_active : Option SdoItem
  pub on_read : Bool  -- intf->read_callback is set
  pub on_write : Bool  -- intf->write_callback is set
  pub on_abort : Bool  -- intf->abort_callback is set
  pub sent : List CanMessage

-- The enumerators' numbers.
unfoldable pub sdo_number : SdoState → ℕ
sdo_number SdoState.disabled = 0
sdo_number SdoState.error = 1
sdo_number SdoState.waiting = 2
sdo_number SdoState.sending = 3

-- mch_sdo_next_state_given_event
unfoldable pub next_state_given_event : SdoState → SdoEvent → SdoState
next_state_given_event SdoState.disabled SdoEvent.net_sdo_enabled = SdoState.waiting
next_state_given_event SdoState.error SdoEvent.net_sdo_enabled = SdoState.waiting
next_state_given_event SdoState.waiting SdoEvent.net_sdo_disabled = SdoState.disabled
next_state_given_event SdoState.waiting SdoEvent.item_available = SdoState.sending
next_state_given_event SdoState.sending SdoEvent.net_sdo_disabled = SdoState.disabled
next_state_given_event SdoState.sending SdoEvent.read_response = SdoState.waiting
next_state_given_event SdoState.sending SdoEvent.write_response = SdoState.waiting
next_state_given_event SdoState.sending SdoEvent.abort_response = SdoState.error
next_state_given_event s _ = s

-- intf_write, whose return value no caller reads.
unfoldable pub intf_write : CanMessage → Channel → Channel
intf_write msg c = record c { sent = msg ∷ c.sent }

unfoldable pub intf_send_nmt_command : ℕ → Channel → Channel
unfolding intf_write nmt_message
intf_send_nmt_command command c = intf_write (nmt_message command) c

unfoldable pub intf_send_read_req : ℕ → ℕ → Channel → Channel
unfolding intf_write
intf_send_read_req index subindex c =
    intf_write (read_req_message index subindex)
      (record c { on_read = true; on_write = false; on_abort = true })

unfoldable pub intf_send_write_req : ℕ → ℕ → ℕ → ℕ → Channel → Channel
unfolding intf_write
intf_send_write_req index subindex value size c =
    intf_write (write_req_message index subindex value size)
      (record c { on_read = false; on_write = true; on_abort = true })

-- mch_sdo_send
unfoldable pub send : SdoItem → Channel → Channel
unfolding intf_send_read_req intf_send_write_req
send sdo c = elim sdo.is_write [
  | true ↦ intf_send_write_req sdo.index sdo.subindex sdo.value sdo.size c
  | false ↦ intf_send_read_req sdo.index sdo.subindex c
]

-- The front of the queue is taken with no test: on an empty queue that is undefined.
unfoldable pub send_front : List SdoItem → Channel → Outcome Channel
unfolding send
send_front [] c = fault
send_front (sdo ∷ rest) c =
    running (send sdo (record c { sdo_active = some sdo; sdo_queue = rest }))

unfoldable pub next_item :
    (SdoEvent → Channel → Outcome Channel) → List SdoItem → Channel → Outcome Channel
next_item handle [] c = running c
next_item handle (sdo ∷ rest) c = handle SdoEvent.item_available c

unfoldable pub enter : (SdoEvent → Channel → Outcome Channel) → SdoState → Channel → Outcome Channel
unfolding send_front next_item
enter handle SdoState.sending c = send_front c.sdo_queue c
enter handle SdoState.waiting c = next_item handle c.sdo_queue c
enter handle _ c = running c

-- Both abort callbacks of the program end the process. (The profile's one marks the field as
-- invalid first, which nothing can observe any more.)
unfoldable pub call_abort : AbortCallback → Channel → Outcome Channel
call_abort no_abort_callback c = running c
call_abort net_upload_failed c = exited
call_abort (profile_invalid profile) c = exited

-- mch_sdo_clear_queue
unfoldable pub clear_items : List SdoItem → Channel → Outcome Channel
unfolding call_abort
clear_items [] c = running (record c { sdo_queue = [] })
clear_items (sdo ∷ rest) c = call_abort sdo.abort_callback c >>= clear_items rest

unfoldable pub clear_queue : Channel → Outcome Channel
unfolding clear_items
clear_queue c = clear_items c.sdo_queue c

unfoldable pub leave : SdoState → Channel → Outcome Channel
unfolding clear_queue
leave SdoState.disabled c = clear_queue c
leave SdoState.error c = clear_queue c
leave _ c = running c

-- mch_sdo_on_enter and mch_sdo_on_exit. Entering WAITING handles one event more, so the machine
-- is given rounds; `rounds` is enough for every event (Sdo.Clearing).
unfoldable pub machine : (SdoEvent → Channel → Outcome Channel) → Machine SdoState SdoEvent Channel
unfolding sdo_number next_state_given_event enter leave
machine handle = record {
  number = sdo_number;
  state = λ c. c.state;
  set_state = λ s c. record c { state = s };
  next_state_given_event = next_state_given_event;
  on_exit = λ c. leave c.state c;
  on_enter = λ c. enter handle c.state c;
}

unfoldable pub handle_rounds : ℕ → SdoEvent → Channel → Outcome Channel
unfolding machine Machine.handle_event
handle_rounds zero event c = fault
handle_rounds (suc n) event c = Machine.handle_event (machine (handle_rounds n)) event c

abbrev pub rounds : ℕ
rounds = 2

-- mch_sdo_handle_event
unfoldable pub handle_event : SdoEvent → Channel → Outcome Channel
unfolding handle_rounds
handle_event event c = handle_rounds rounds event c

-- How the three response callbacks end: the item is freed and the machine told.
unfoldable pub finish_active : SdoEvent → Channel → Outcome Channel
unfolding handle_event
finish_active event c = handle_event event (record c { sdo_active = none })

unfoldable pub enqueue : SdoItem → Channel → Outcome Channel
unfolding handle_event
enqueue sdo c =
    handle_event SdoEvent.item_available (record c { sdo_queue = c.sdo_queue ++ sdo ∷ [] })

-- mch_sdo_queue_write_with_cb
unfoldable pub queue_write_with_cb :
    ℕ → ℕ → ℕ → ℕ → WriteCallback → AbortCallback → Channel → Outcome Channel
unfolding enqueue
queue_write_with_cb index subindex value size write_callback abort_callback = enqueue (record {
  is_write = true;
  index = index;
  subindex = subindex;
  value = value;
  size = size;
  abort_callback = abort_callback;
  write_callback = write_callback;
})

-- The item that mch_sdo_queue_write makes.
unfoldable pub plain_write : ℕ → ℕ → ℕ → ℕ → SdoItem
plain_write index subindex value size = record {
  is_write = true;
  index = index;
  subindex = subindex;
  value = value;
  size = size;
  abort_callback = no_abort_callback;
  write_callback = no_write_callback;
}

-- mch_sdo_queue_write
unfoldable pub queue_write : ℕ → ℕ → ℕ → ℕ → Channel → Outcome Channel
unfolding queue_write_with_cb plain_write
queue_write index subindex value size =
    queue_write_with_cb index subindex value size no_write_callback no_abort_callback

-- mch_sdo_queue_read_with_cb, with no read callback.
unfoldable pub queue_read_with_cb : ℕ → ℕ → AbortCallback → Channel → Outcome Channel
unfolding enqueue
queue_read_with_cb index subindex abort_callback = enqueue (record {
  is_write = false;
  index = index;
  subindex = subindex;
  value = 0;
  size = 0;
  abort_callback = abort_callback;
  write_callback = no_write_callback;
})

-- The item that mch_sdo_queue_read makes.
unfoldable pub plain_read : ℕ → ℕ → SdoItem
plain_read index subindex = record {
  is_write = false;
  index = index;
  subindex = subindex;
  value = 0;
  size = 0;
  abort_callback = no_abort_callback;
  write_callback = no_write_callback;
}

-- mch_sdo_queue_read
unfoldable pub queue_read : ℕ → ℕ → Channel → Outcome Channel
unfolding queue_read_with_cb plain_read
queue_read index subindex = queue_read_with_cb index subindex no_abort_callback

-- What mch_sdo_create makes, with the callbacks that intf_create leaves unset.
unfoldable pub create : Channel
create = record {
  state = SdoState.disabled;
  sdo_queue = [];
  sdo_active = none;
  on_read = false;
  on_write = false;
  on_abort = false;
  sent = [];
}
