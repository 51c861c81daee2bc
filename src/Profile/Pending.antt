-- ===== src/Profile/Pending.antt =====
-- Which fields of a profile the setters of libsled/sled_profile.cc mark for upload.
use sled_server.Common.{◌≡◌, ◌⊎◌, arith}
use sled_server.Common.Int.{ℤ, Double, Fpu}
use sled_server.Profile.{
  changed, Profile, PositionType, BlendType, get_controlword, write_table, write_target, write_next,
}

-- From `p` to `q`: the value of a dictionary object is the same, or the object is marked as
-- changed; the number and the use of the profile stay.
pub record IsTracked (p q : Profile) : Type 0 where
  pub position_marked : (q.position ≡ p.position) ⊎ (q.ob_o_p ≡ changed)
  pub control_marked : (get_controlword q ≡ get_controlword p) ⊎ (q.ob_o_c ≡ changed)
  pub time_marked : (q.time ≡ p.time) ⊎ ((q.ob_o_acc ≡ changed) × (q.ob_o_dec ≡ changed))
  pub table_marked : (q.table ≡ p.table) ⊎ (q.ob_o_tab ≡ changed)
  pub next_marked : (q.next_profile ≡ p.next_profile) ⊎ (q.ob_o_fn ≡ changed)
  pub delay_marked : (q.delay ≡ p.delay) ⊎ (q.ob_o_ft ≡ changed)
  pub number_kept : q.profile ≡ p.profile
  pub use_kept : q.in_use ≡ p.in_use
  pub velocity_kept : q.ob_o_v ≡ p.ob_o_v

-- A change of the table is never lost.
pub write_table-IsTracked : (table : ℤ) (p : Profile) → IsTracked p (write_table table p)
unfolding write_table get_controlword
write_table-IsTracked table p = ground arith

-- When a target is set, every dictionary object whose value differs is marked for upload, and the
-- number and the use of the profile stay.
pub write_target-IsTracked :
    (fpu : Fpu) (type : PositionType) (position time : Double) (p : Profile)
    → IsTracked p (write_target fpu type position time p)
unfolding write_target get_controlword
write_target-IsTracked fpu type position time p = ground arith

-- When the next profile is set, every dictionary object whose value differs is marked for upload,
-- and the number and the use of the profile stay.
pub write_next-IsTracked :
    (fpu : Fpu) (next_profile : ℤ) (delay : Double) (blend_type : BlendType) (p : Profile)
    → IsTracked p (write_next fpu next_profile delay blend_type p)
unfolding write_next get_controlword
write_next-IsTracked fpu next_profile delay blend_type p = ground arith
