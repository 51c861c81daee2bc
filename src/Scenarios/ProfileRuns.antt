-- ===== src/Scenarios/ProfileRuns.antt =====
-- A small profile table of libsled/sled_profile.cc.
use sled_server.Common.{
  ◌≡◌, if◌then◌else◌, none, some, refl, true, false, List, [], ◌∷◌, ◌+◌, ◌-◌, ◌*◌, ◌/◌, arith, not,
  ◌==◌, ltb,
}
use sled_server.Common.Int.{pos, negsuc, Fpu}
use sled_server.Profile.{Profile, absolute, no_blend, written}
use sled_server.Common.Outcome.{Returns}
use sled_server.Sdo.{create as create_channel}
use sled_server.Sdo.Invariant.{IsValid, create-IsValid}
use sled_server.Upload.{Upload, write_pending}
use sled_server.Upload.Termination.{is_pending, write_pending-Returns}
use sled_server.Profile.{changed, has_changes_pending}

-- A processor whose doubles are the natural numbers.
abbrev pub fpu : Fpu
fpu = record {
  literal = λ n. n;
  half = 0;
  add = λ a b. a + b;
  sub = λ a b. a - b;
  mul = λ a b. a * b;
  div = λ a b. a / b;
  ne = λ a b. not (a == b);
  gt = λ a b. ltb b a;
  to_int32 = λ a. if ltb a 4294967296 then some a else none;
  of_int32 = λ a. a;
}

abbrev pub profile_0 : Profile
profile_0 = record {
  in_use = true;
  never_sent = false;
  profile = 201;
  table = pos 2;
  position_type = absolute;
  position = 4;
  time = 7;
  next_profile = negsuc 0;
  delay = 0;
  blend_type = no_blend;
  ob_o_p = written;
  ob_o_v = written;
  ob_o_c = written;
  ob_o_acc = written;
  ob_o_dec = written;
  ob_o_tab = written;
  ob_o_fn = written;
  ob_o_ft = written;
}

abbrev profiles : List Profile
profiles =
    profile_0 ∷ record profile_0 { in_use = false } ∷ record profile_0 { in_use = false } ∷ []

-- Two profiles with changes pending that are linked in a circle.
abbrev circle : Upload
circle = record {
  profiles =
      record profile_0 { next_profile = pos 1; ob_o_p = changed; ob_o_ft = changed }
      ∷ record profile_0 { profile = 202; next_profile = pos 0; ob_o_p = changed }
      ∷ [];
  current_profile = 0;
  channel = create_channel;
}

write_pending-Returns_example :
    Returns
      (λ v. IsValid v.channel × (is_pending v.profiles 0 ≡ false))
      (write_pending 3 fpu 0 circle)
unfolding has_changes_pending
write_pending-Returns_example =
    write_pending-Returns 3 fpu 0 circle (omega arith) (omega arith) refl refl create-IsValid
