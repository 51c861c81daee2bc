-- ===== src/Response/Soundness.antt =====
-- Which responses the program survives (libsled/interface.cc, libsled/machines/mch_sdo.cc).
use sled_server.Common.{
  ℕ, ◌≡◌, refl, sym, ap, ◌∙◌, Bool, true, false, not, ◌&&◌, Option, none, some, get_elem?, arith,
  Option-cases, inl, inr, ◌⊎◌,
}
use sled_server.Common.Outcome.{
  Outcome, Ensures, Returns, Ensures-bind, Ensures-mono, Returns-both, Ensures-of_Returns,
}
use sled_server.Sdo.{
  Channel, SdoItem, SdoEvent, SdoState, WriteCallback, no_write_callback, net_upload_complete,
  profile_written, AbortCallback, no_abort_callback, net_upload_failed, profile_invalid, call_abort,
  finish_active,
}
use sled_server.Sdo.Invariant.{IsValid, IsAnswer, read, written, aborted, answer-Returns}
use sled_server.Mp.Outputs.{SdoMode, sdo_mode}
use sled_server.Net.{Network, NetState, NetEvent, on_sdo}
use sled_server.Net
use sled_server.Net.Channels.{HasMode}
use sled_server.Net.Coupling.{
  IsSound, Kept, allows, is_live, is_operational, on_sdo-Ensures, handle_event-IsSound,
}
use sled_server.Response.{
  Answer, write_answer, read_answer, abort_answer, other_answer, field_written, call_write, matches,
  finish, call_if, read_callback, write_callback, abort_callback, dispatch_answer,
}

-- The mode of the SDO machine after an answer.
abbrev mode_after : SdoEvent → SdoState → SdoMode
mode_after SdoEvent.abort_response SdoState.sending = SdoMode.failed
mode_after _ s = sdo_mode s

finish_active-mode :
    {e : SdoEvent}
    → IsAnswer e
    → (c : Channel) → IsValid c
    → Returns (λ d. sdo_mode d.state ≡ mode_after e c.state) (finish_active e c)
unfolding finish_active
finish_active-mode read c v = ground arith
finish_active-mode written c v = ground arith
finish_active-mode aborted c v = ground arith

allows-mode_after :
    (b : Bool) (e : SdoEvent) (s : SdoState)
    → allows b (sdo_mode s) ≡ true
    → allows b (mode_after e s) ≡ true
allows-mode_after b e s h = ground arith

-- A network is sound again once its drive is known to be, in a mode that its state allows.
pub Kept-IsSound :
    (k : SdoMode) (n m : Network)
    → Kept (is_operational n.net) k n m
    → allows (is_live n.net) k ≡ true
    → IsSound m
Kept-IsSound k n m (same, b) a = record {
  below = (b.0 ∙ sym (ap is_operational same), (b.1.0, (b.1.1.0, refl)));
  allowed = rw (same, b.1.1.1) a;
}

abbrev pub is_attached : NetState → Bool
is_attached NetState.disabled = false
is_attached _ = true

-- An event that does not come from the interface keeps the network machine on or off.
abbrev pub is_external : NetEvent → Bool
is_external NetEvent.intf_opened = false
is_external NetEvent.intf_closed = false
is_external _ = true

pub attached_kept :
    (n : NetState) (e : NetEvent)
    → is_external e ≡ true
    → is_attached (Net.next_state_given_event n e) ≡ is_attached n
unfolding Net.next_state_given_event
attached_kept n e h = ground arith

-- A sound network whose machine is on or off as `on` says.
abbrev pub IsSoundAt : Bool → Network → Type 0
IsSoundAt on n = (is_attached n.net ≡ on) × IsSound n

finish-IsSound :
    {on : Bool} {e : SdoEvent}
    → IsAnswer e
    → (n : Network) → IsSoundAt on n
    → Ensures (IsSoundAt on) (finish e n)
unfolding finish
finish-IsSound {on} {e} w n (o, v) =
    let c = n.drive.motion.channel in
    let k = mode_after e c.state in
    Ensures-mono {P = Kept (is_operational n.net) k n} (on_sdo (finish_active e) n)
      (on_sdo-Ensures k (finish_active e) n v.below (
        Ensures-of_Returns (HasMode k) (finish_active e c) (
          Returns-both IsValid (λ d. sdo_mode d.state ≡ k) (finish_active e c)
            (answer-Returns w c v.below.1.1.0) (finish_active-mode w c v.below.1.1.0))))
      λ m h. (ap is_attached h.0 ∙ o, Kept-IsSound k n m h (allows-mode_after _ e _ v.allowed))

field_written-IsSound :
    {on : Bool} (profile index : ℕ) (n : Network)
    → IsSoundAt on n
    → IsSoundAt on (field_written profile index n)
unfolding field_written
field_written-IsSound profile index n (o, v) = elim (Option-cases (get_elem? n.profiles profile)) [
  | inl e ↦ rw (e, field_written) (o, v)
  | inr (p, e) ↦ rw (e, field_written) (o, record { below = v.below; allowed = v.allowed })
]

call_write-IsSound :
    {on : Bool} (w : WriteCallback) (index : ℕ) (n : Network)
    → IsSoundAt on n
    → Ensures (IsSoundAt on) (call_write w index n)
unfolding call_write
call_write-IsSound no_write_callback index n v = v
call_write-IsSound net_upload_complete index n v =
    Ensures-mono (Net.handle_event NetEvent.upload_complete n)
      (handle_event-IsSound NetEvent.upload_complete n v.1)
      λ m h. (ap is_attached h.0 ∙ attached_kept n.net NetEvent.upload_complete refl ∙ v.0, h.1)
call_write-IsSound (profile_written profile) index n v = field_written-IsSound profile index n v

call_abort-IsSound :
    {on : Bool} (a : AbortCallback) (n : Network)
    → IsSoundAt on n
    → Ensures (IsSoundAt on) (on_sdo (call_abort a) n)
unfolding Net.on_sdo call_abort
call_abort-IsSound no_abort_callback n v = v
call_abort-IsSound net_upload_failed n v = tt
call_abort-IsSound (profile_invalid profile) n v = tt

-- The answer is one to the item on its way: of its kind, and with its index and subindex.
abbrev pub expected : Answer → ℕ → ℕ → Option SdoItem → Bool
expected other_answer index subindex active = true
expected _ index subindex none = false
expected write_answer index subindex (some sdo) = sdo.is_write && matches index subindex sdo
expected read_answer index subindex (some sdo) = not sdo.is_write && matches index subindex sdo
expected abort_answer index subindex (some sdo) = matches index subindex sdo

-- A callback that is registered for the answer's kind.
abbrev pub is_registered : Answer → Channel → Bool
is_registered write_answer c = c.on_write
is_registered read_answer c = c.on_read
is_registered abort_answer c = c.on_abort
is_registered other_answer c = false

write-IsSound :
    {on : Bool} (index subindex : ℕ) (n : Network) (active : Option SdoItem)
    → IsSoundAt on n
    → expected write_answer index subindex active ≡ true
    → Ensures (IsSoundAt on) (write_callback index subindex active n)
unfolding write_callback
write-IsSound index subindex n none v e = cc
write-IsSound {on} index subindex n (some sdo) v e = simp e (
    Ensures-bind (IsSoundAt on) (IsSoundAt on) (call_write sdo.write_callback index n)
      (finish SdoEvent.write_response) (call_write-IsSound sdo.write_callback index n v)
      (finish-IsSound written))

read-IsSound :
    {on : Bool} (index subindex : ℕ) (n : Network) (active : Option SdoItem)
    → IsSoundAt on n
    → expected read_answer index subindex active ≡ true
    → Ensures (IsSoundAt on) (read_callback index subindex active n)
unfolding read_callback
read-IsSound index subindex n none v e = cc
read-IsSound index subindex n (some sdo) v e = simp e (finish-IsSound read n v)

abort-IsSound :
    {on : Bool} (index subindex : ℕ) (n : Network) (active : Option SdoItem)
    → IsSoundAt on n
    → expected abort_answer index subindex active ≡ true
    → Ensures (IsSoundAt on) (abort_callback index subindex active n)
unfolding abort_callback
abort-IsSound index subindex n none v e = cc
abort-IsSound {on} index subindex n (some sdo) v e = simp e (
    Ensures-bind (IsSoundAt on) (IsSoundAt on) (on_sdo (call_abort sdo.abort_callback) n)
      (finish SdoEvent.abort_response) (call_abort-IsSound sdo.abort_callback n v)
      (finish-IsSound aborted))

⊎_map : {A B C : Type 0} → A ⊎ B → (B → C) → A ⊎ C
⊎_map (inl a) f = inl a
⊎_map (inr b) f = inr (f b)

call_if-IsSound :
    {on : Bool} (b : Bool) (f : Network → Outcome Network) (n : Network)
    → IsSoundAt on n
    → (b ≡ false) ⊎ Ensures (IsSoundAt on) (f n)
    → Ensures (IsSoundAt on) (call_if b f n)
unfolding call_if
call_if-IsSound false f n v h = v
call_if-IsSound true f n v (inl e) = cc
call_if-IsSound true f n v (inr g) = g

-- An answer to the item on its way, and any answer for which no callback is registered, leaves
-- the network sound, with its machine on or off as before, or ends the process; it never faults.
pub dispatch_answer-IsSound :
    (a : Answer) (index subindex : ℕ) (n : Network)
    → IsSound n
    → (is_registered a n.drive.motion.channel ≡ false)
      ⊎ (expected a index subindex n.drive.motion.channel.sdo_active ≡ true)
    → Ensures (IsSoundAt (is_attached n.net)) (dispatch_answer a index subindex n)
unfolding dispatch_answer
dispatch_answer-IsSound write_answer index subindex n v h =
    let c = n.drive.motion.channel in
    call_if-IsSound c.on_write (write_callback index subindex c.sdo_active) n (refl, v)
      (⊎_map h (write-IsSound index subindex n c.sdo_active (refl, v)))
dispatch_answer-IsSound read_answer index subindex n v h =
    let c = n.drive.motion.channel in
    call_if-IsSound c.on_read (read_callback index subindex c.sdo_active) n (refl, v)
      (⊎_map h (read-IsSound index subindex n c.sdo_active (refl, v)))
dispatch_answer-IsSound abort_answer index subindex n v h =
    let c = n.drive.motion.channel in
    call_if-IsSound c.on_abort (abort_callback index subindex c.sdo_active) n (refl, v)
      (⊎_map h (abort-IsSound index subindex n c.sdo_active (refl, v)))
dispatch_answer-IsSound other_answer index subindex n v h = (refl, v)
