-- ===== src/Parser.antt =====
-- The grammar of the commands: src/parser.yac, with command_t of src/parser.h. The semantic actions
-- write into a `Command` whose fields are as the caller left them.
pub mod Lexer
pub mod Scanning
pub mod Grammar
pub mod Sound
pub mod Equivalence
use sled_server.Common.{
  ℕ, Bool, true, false, not, ◌&&◌, if◌then◌else◌, Option, none, some, List, [], ◌∷◌,
}
use mathlib.Core.Option.{bind}
use sled_server.Common.Int.{ℤ, negsuc, Double}
use sled_server.Profile.{PositionType, BlendType, no_blend, blend_before, blend_after}

pub data CommandType : Type 0 where
  cmd_setbyteorder cmd_sendcurrentframe cmd_sendstatus cmd_streamframes : CommandType
  cmd_profile_execute cmd_profile_set cmd_sinusoid cmd_rsinusoid cmd_lights : CommandType
  cmd_bye cmd_home cmd_clearfault cmd_setinternalstatus cmd_sendinternalstatus : CommandType

pub data ByteOrder : Type 0 where
  big_endian little_endian : ByteOrder

pub data Status : Type 0 where
  sta_off sta_preoperational sta_operational sta_outputenabled : Status

-- command_t
pub record Command : Type 0 where
  pub type : CommandType
  pub boolean : Bool
  pub byte_order : ByteOrder
  pub status : Status
  pub amplitude : Double
  pub period : Double
  pub profile : ℤ
  pub table : ℤ
  pub position_type : PositionType
  pub position : Double
  pub time : Double
  pub next_profile : ℤ
  pub next_delay : Double
  pub blend_type : BlendType

pub data Token : Type 0 where
  colon setbyteorder bigendian littleendian sendcurrentframe sendstatus : Token
  streamframes frequencydivisor stop profile set execute table next after : Token
  blend before sinusoid rsinusoid start lights on off bye home clearfault : Token
  setinternalstatus preoperational operational outputenabled sendinternalstatus string : Token
  postype : PositionType → Token
  int : ℤ → Token
  float : Double → Token

-- What the C library and bison give: `float(i)`, `atoi`, `atof` (rounded to a float, the type of the
-- token's value), and whether the generated parser
-- recovers from an error behind SETINTERNALSTATUS, where these tokens follow it.
pub record Tools : Type 0 where
  pub float_of_int : ℤ → Double
  pub atoi : List ℕ → ℤ
  pub atof : List ℕ → Double
  pub recovers : List Token → Bool

unfoldable pub number : Tools → Token → Option Double
number tools (int n) = some (tools.float_of_int n)
number tools (float x) = some x
number tools _ = none

unfoldable pub two_numbers :
    {A : Type 0} → Tools → Token → Token → (Double → Double → Option A) → Option A
unfolding number bind
two_numbers tools a b f = bind (number tools a) λ x. bind (number tools b) λ y. f x y

unfoldable pub blend_word : Token → Option BlendType
blend_word before = some blend_before
blend_word after = some blend_after
blend_word _ = none

-- blend_part, which ends the input
unfoldable pub blend_end : (BlendType → Option Command) → List Token → Option Command
unfolding blend_word bind
blend_end f (b ∷ []) = bind (blend_word b) f
blend_end f _ = none

-- What may follow after_part.
unfoldable pub after_rest : List Token → Command → Option Command
unfolding blend_end
after_rest [] m = some (record m { blend_type = no_blend })
after_rest (blend ∷ rest) m = blend_end (λ how. some (record m { blend_type = how })) rest
after_rest _ m = none

unfoldable pub after_number : Tools → List Token → Command → Option Command
unfolding number after_rest bind
after_number tools (a ∷ rest) m =
    bind (number tools a) λ delay. after_rest rest (record m { next_delay = delay })
after_number tools [] m = none

-- What may follow next_part.
unfoldable pub next_rest : Tools → List Token → Command → Option Command
unfolding after_number blend_end
next_rest tools [] m = some (record m { blend_type = no_blend })
next_rest tools (after ∷ rest) m = after_number tools rest m
next_rest tools (blend ∷ rest) m =
    blend_end (λ how. some (record m { blend_type = how; next_delay = 0 })) rest
next_rest tools _ m = none

unfoldable pub next_number : Tools → List Token → Command → Option Command
unfolding next_rest
next_number tools (int n ∷ rest) m = next_rest tools rest (record m { next_profile = n })
next_number tools _ m = none

-- What may follow profile_def_base.
unfoldable pub profile_tail : Tools → List Token → Command → Option Command
unfolding next_number
profile_tail tools [] m = some (record m { next_profile = negsuc 0 })
profile_tail tools (next ∷ rest) m = next_number tools rest m
profile_tail tools _ m = none

-- What may follow profile_part.
unfoldable pub profile_numbers : Tools → List Token → Command → Option Command
unfolding two_numbers profile_tail
profile_numbers tools (a ∷ b ∷ rest) m =
    two_numbers tools a b λ x y. profile_tail tools rest (record m { position = x; time = y })
profile_numbers tools _ m = none

unfoldable pub profile_type : Tools → List Token → Command → Option Command
unfolding profile_numbers
profile_type tools (postype p ∷ rest) m =
    profile_numbers tools rest (record m { position_type = p })
profile_type tools _ m = none

-- profile_def_base behind SET
unfoldable pub profile_set : Tools → List Token → Command → Option Command
unfolding profile_type
profile_set tools (table ∷ int t ∷ rest) m =
    profile_type tools rest (record m { type = cmd_profile_set; table = t })
profile_set tools _ m = none

unfoldable pub profile_rest : Tools → List Token → Command → Option Command
unfolding profile_set
profile_rest tools (execute ∷ []) m = some (record m { type = cmd_profile_execute })
profile_rest tools (set ∷ rest) m = profile_set tools rest m
profile_rest tools _ m = none

unfoldable pub profile_number : Tools → List Token → Command → Option Command
unfolding profile_rest
profile_number tools (int n ∷ rest) m = profile_rest tools rest (record m { profile = n })
profile_number tools _ m = none

-- The states that SETINTERNALSTATUS takes.
abbrev pub status_of : List Token → Option Status
status_of (off ∷ []) = some sta_off
status_of (preoperational ∷ []) = some sta_preoperational
status_of (operational ∷ []) = some sta_operational
status_of (outputenabled ∷ []) = some sta_outputenabled
status_of _ = none

-- With `error` in the place of a state nothing is written.
unfoldable pub set_status : Tools → List Token → Command → Option Status → Option Command
set_status tools rest m (some s) = some (record m { type = cmd_setinternalstatus; status = s })
set_status tools rest m none = if tools.recovers rest then some m else none

unfoldable pub internal_status : Tools → List Token → Command → Option Command
unfolding set_status
internal_status tools rest m = set_status tools rest m (status_of rest)

unfoldable pub motion_start : Tools → CommandType → List Token → Command → Option Command
unfolding two_numbers
motion_start tools type (a ∷ b ∷ []) m =
    two_numbers tools a b
      λ x y. some (record m { type = type; boolean = true; amplitude = x; period = y })
motion_start tools type _ m = none

-- sinusoid and rsinusoid, behind their first token
unfoldable pub motion : Tools → CommandType → List Token → Command → Option Command
unfolding motion_start
motion tools type (start ∷ rest) m = motion_start tools type rest m
motion tools type (stop ∷ []) m = some (record m { type = type; boolean = false })
motion tools type _ m = none

-- byteorder, behind its first token
unfoldable pub byte_order_word : List Token → Command → Option Command
byte_order_word (bigendian ∷ []) m =
    some (record m { type = cmd_setbyteorder; byte_order = big_endian })
byte_order_word (littleendian ∷ []) m =
    some (record m { type = cmd_setbyteorder; byte_order = little_endian })
byte_order_word _ m = none

-- A divisor is read and not used.
unfoldable pub divisor : List Token → Command → Option Command
divisor (colon ∷ int n ∷ []) m = some (record m { type = cmd_streamframes; boolean = true })
divisor _ m = none

-- streamframes, behind its first token
unfoldable pub stream_rest : List Token → Command → Option Command
unfolding divisor
stream_rest [] m = some (record m { type = cmd_streamframes; boolean = true })
stream_rest (stop ∷ []) m = some (record m { type = cmd_streamframes; boolean = false })
stream_rest (frequencydivisor ∷ rest) m = divisor rest m
stream_rest _ m = none

-- lights, behind its first token
unfoldable pub light_word : List Token → Command → Option Command
light_word (on ∷ []) m = some (record m { type = cmd_lights; boolean = true })
light_word (off ∷ []) m = some (record m { type = cmd_lights; boolean = false })
light_word _ m = none

-- A command of one token.
unfoldable pub alone : CommandType → List Token → Command → Option Command
alone type [] m = some (record m { type = type })
alone type _ m = none

-- yyparse, by the first token
unfoldable pub parse : Tools → List Token → Command → Option Command
unfolding profile_number internal_status motion byte_order_word stream_rest light_word alone
parse tools (setbyteorder ∷ rest) m = byte_order_word rest m
parse tools (sendcurrentframe ∷ rest) m = alone cmd_sendcurrentframe rest m
parse tools (sendstatus ∷ rest) m = alone cmd_sendstatus rest m
parse tools (streamframes ∷ rest) m = stream_rest rest m
parse tools (profile ∷ rest) m = profile_number tools rest m
parse tools (sinusoid ∷ rest) m = motion tools cmd_sinusoid rest m
parse tools (rsinusoid ∷ rest) m = motion tools cmd_rsinusoid rest m
parse tools (lights ∷ rest) m = light_word rest m
parse tools (bye ∷ rest) m = alone cmd_bye rest m
parse tools (home ∷ rest) m = alone cmd_home rest m
parse tools (clearfault ∷ rest) m = alone cmd_clearfault rest m
parse tools (setinternalstatus ∷ rest) m = internal_status tools rest m
parse tools (sendinternalstatus ∷ rest) m = alone cmd_sendinternalstatus rest m
parse tools _ m = none
