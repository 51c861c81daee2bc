-- ===== src/Sled/Interface.antt =====
-- libsled/interface.cc: how an intf_t is made and given its handlers, and how libsled/sled.cc does so.
-- A pointer is told by whether it is set; the parts that change later are fields of `Sled` and of the
-- channel.
use sled_server.Common.{ℕ, ◌≡◌, refl, Bool, true, false, List, ◌&&◌}
use sled_server.Common.Int.{Double}
use sled_server.Common.Outcome.{Outcome}
use sled_server.Sdo
use sled_server.Profile.{Profile}
use sled_server.Sled.{Sled, Driver, IntfEvent, intf_close}
use sled_server.Sled.Reach.{assembled}

pub record Interface : Type 0 where
  pub handle : ℕ
  pub fd : ℕ
  pub read_event : Bool
  pub payload : Bool
  pub nmt_state_handler : Bool
  pub tpdo_handler : Bool
  pub close_handler : Bool
  pub read_callback : Bool
  pub write_callback : Bool
  pub abort_callback : Bool

unfoldable pub intf_clear_sdo_callbacks : Interface → Interface
intf_clear_sdo_callbacks i = record i {
  read_callback = false;
  write_callback = false;
  abort_callback = false;
}

-- intf_create, in the memory that it gets
unfoldable pub intf_create : Interface → Interface
unfolding intf_clear_sdo_callbacks
intf_create memory = intf_clear_sdo_callbacks (record memory {
  handle = 0;
  fd = 0;
  read_event = false;
  payload = false;
  nmt_state_handler = false;
  tpdo_handler = false;
  close_handler = false;
})

unfoldable pub intf_set_callback_payload : Interface → Interface
intf_set_callback_payload i = record i { payload = true }

unfoldable pub intf_set_nmt_state_handler : Interface → Interface
intf_set_nmt_state_handler i = record i { nmt_state_handler = true }

unfoldable pub intf_set_tpdo_handler : Interface → Interface
intf_set_tpdo_handler i = record i { tpdo_handler = true }

unfoldable pub intf_set_close_handler : Interface → Interface
intf_set_close_handler i = record i { close_handler = true }

-- The part of sled_create that sets the interface up.
unfoldable pub set_up_interface : Interface → Interface
unfolding intf_create intf_set_callback_payload intf_set_nmt_state_handler intf_set_tpdo_handler
    intf_set_close_handler
set_up_interface memory = intf_set_tpdo_handler (
    intf_set_nmt_state_handler
      (intf_set_close_handler (intf_set_callback_payload (intf_create memory))))

-- intf_destroy, which nothing calls
unfoldable pub intf_destroy : (IntfEvent → Sled → Outcome Sled) → Driver → Sled → Outcome Sled
unfolding intf_close
intf_destroy handle d s = intf_close handle d s

-- Every handler is there.
abbrev is_handled : Interface → Bool
is_handled i = i.payload && (i.nmt_state_handler && (i.tpdo_handler && i.close_handler))

-- Whatever the memory held, the interface that is set up has all its handlers, and else it is the one
-- that libsled is assembled with.
set_up_interface-assembled :
    (memory : Interface) (before : Sled) (time : Double) (profiles : List Profile)
    → let i = set_up_interface memory in
      let s = assembled before time profiles in
      (is_handled i ≡ true)
      × ((i.handle ≡ s.handle)
          × ((i.fd ≡ s.fd)
              × ((i.read_event ≡ s.read_event)
                  × ((i.read_callback ≡ s.network.drive.motion.channel.on_read)
                      × ((i.write_callback ≡ s.network.drive.motion.channel.on_write)
                          × (i.abort_callback ≡ s.network.drive.motion.channel.on_abort))))))
unfolding set_up_interface assembled Sdo.create
set_up_interface-assembled memory before time profiles =
    (refl, (refl, (refl, (refl, (refl, (refl, refl))))))
