-- ===== src/Net/Channels.antt =====
-- How the network machine of libsled/machines/mch_net.cc uses the SDO machine.
use mathlib.Core.List.{append-nil, append_assoc}
use sled_server.Common.{refl, ℕ, ◌≡◌, sym, ap, ◌∙◌, List, [], ◌∷◌, ◌++◌, map, arith}
use sled_server.Common.Outcome.{
  Ensures, Returns, Returns-bind, Returns-mono, Ensures-both, Returns-both,
}
use sled_server.Can.{CanMessage}
use sled_server.Sdo.{Channel, SdoEvent, SdoItem, SdoState, intf_send_nmt_command, enqueue}
use sled_server.Sdo
use sled_server.Sdo.Invariant.{IsValid, clear_items-Ensures, disable-Returns, enable-Ensures}
use sled_server.Sdo.Fifo.{transcript, request}
use sled_server.Mp.Outputs.{SdoMode, sdo_mode, HasSent, enqueue-HasSent}
use sled_server.Net.{enqueue_all, setup_items, queue_setup}

-- The SDO machine is in order and in mode `k`.
abbrev pub HasMode : SdoMode → Channel → Type 0
HasMode k c = IsValid c × (sdo_mode c.state ≡ k)

abbrev pub mode_disabled : SdoMode → SdoMode
mode_disabled SdoMode.off = SdoMode.off
mode_disabled SdoMode.failed = SdoMode.failed
mode_disabled SdoMode.on = SdoMode.off

disabled-mode :
    (c : Channel)
    → Returns
        (λ d. sdo_mode d.state ≡ mode_disabled (sdo_mode c.state))
        (Sdo.handle_event SdoEvent.net_sdo_disabled c)
unfolding Sdo.handle_event
disabled-mode c = ground arith

enabled-mode :
    (c : Channel)
    → IsValid c
    → Ensures (λ d. sdo_mode d.state ≡ SdoMode.on) (Sdo.handle_event SdoEvent.net_sdo_enabled c)
unfolding Sdo.handle_event
enabled-mode c v = ground (arith, clear_items-Ensures c.sdo_queue c)

-- Transmission is switched off; what waits stays in the queue.
pub disable-HasMode :
    {k : SdoMode} (c : Channel)
    → HasMode k c
    → Returns (HasMode (mode_disabled k)) (Sdo.handle_event SdoEvent.net_sdo_disabled c)
disable-HasMode c (v, k) =
    let o = Sdo.handle_event SdoEvent.net_sdo_disabled c in
    Returns-mono o (Returns-both _ _ o (disable-Returns c v) (disabled-mode c))
      λ d h. (h.0.0, h.1 ∙ ap mode_disabled k)

pub enable-HasMode :
    {k : SdoMode} (c : Channel)
    → HasMode k c
    → Ensures (HasMode SdoMode.on) (Sdo.handle_event SdoEvent.net_sdo_enabled c)
enable-HasMode c (v, k) =
    Ensures-both IsValid (λ d. sdo_mode d.state ≡ SdoMode.on)
      (Sdo.handle_event SdoEvent.net_sdo_enabled c) (enable-Ensures c v) (enabled-mode c v)

pub nmt-HasMode :
    {k : SdoMode} (command : ℕ) (c : Channel)
    → HasMode k c
    → HasMode k (intf_send_nmt_command command c)
unfolding intf_send_nmt_command
nmt-HasMode command c h = ground arith

pub enqueue-HasMode :
    {k : SdoMode} (sdo : SdoItem) (c : Channel) → HasMode k c → Returns (HasMode k) (enqueue sdo c)
enqueue-HasMode sdo c h =
    Returns-mono (enqueue sdo c) (enqueue-HasSent sdo (transcript c) c (h, refl)) λ d g. g.0

enqueue_all-HasSent :
    {k : SdoMode} (items : List SdoItem) (msgs : List CanMessage) (c : Channel)
    → HasSent k msgs c
    → Returns (HasSent k (msgs ++ map request items)) (enqueue_all items c)
unfolding enqueue_all
enqueue_all-HasSent [] msgs c h = (h.0, h.1 ∙ sym (append-nil msgs))
enqueue_all-HasSent {k} (sdo ∷ rest) msgs c h =
    Returns-bind (HasSent k (msgs ++ request sdo ∷ [])) _ (enqueue sdo c) (enqueue_all rest)
      (enqueue-HasSent sdo msgs c h)
      λ d hd.
        Returns-mono (enqueue_all rest d) (enqueue_all-HasSent rest (msgs ++ request sdo ∷ []) d hd)
          λ b hb. (hb.0, hb.1 ∙ append_assoc msgs (request sdo ∷ []) (map request rest))

-- The configuration of the drive, all of it and in the order of the source, joins the messages
-- that the SDO machine was given before; no step faults or ends the process.
pub queue_setup-HasSent :
    {k : SdoMode} (msgs : List CanMessage) (c : Channel)
    → HasSent k msgs c
    → Returns (HasSent k (msgs ++ map request setup_items)) (queue_setup c)
unfolding queue_setup
queue_setup-HasSent msgs c h = enqueue_all-HasSent setup_items msgs c h
