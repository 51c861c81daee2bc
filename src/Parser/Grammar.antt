-- ===== src/Parser/Grammar.antt =====
-- The productions of src/parser.yac as a data type, with their tokens and their semantic actions.
use sled_server.Common.{◌≡◌, refl, true, false, none, some, List, [], ◌∷◌}
use sled_server.Common.Int.{ℤ, negsuc, Double}
use sled_server.Profile.{PositionType, BlendType, no_blend, blend_before, blend_after}
use sled_server.Parser.{
  Tools, Token, Status, Command, colon, setbyteorder, bigendian, littleendian, sendcurrentframe,
  sendstatus, streamframes, frequencydivisor, stop, profile, set, execute, table, next, after,
  blend, before, sinusoid, rsinusoid, start, lights, on, off, bye, home, clearfault,
  setinternalstatus, preoperational, operational, outputenabled, sendinternalstatus, postype, int,
  float, sta_off, sta_preoperational, sta_operational, sta_outputenabled, cmd_setbyteorder,
  cmd_sendcurrentframe, cmd_sendstatus, cmd_streamframes, cmd_profile_execute, cmd_profile_set,
  cmd_sinusoid, cmd_rsinusoid, cmd_lights, cmd_bye, cmd_home, cmd_clearfault, cmd_setinternalstatus,
  cmd_sendinternalstatus, big_endian, little_endian, status_of, parse, profile_tail,
  internal_status, set_status,
}

-- number
pub data Number : Type 0 where
  whole : ℤ → Number
  point : Double → Number

-- blend_part
pub data BlendPart : Type 0 where
  before_it after_it : BlendPart

-- What follows profile_def_base in the rules of `profile`.
pub data NextPart : Type 0 where
  no_next : NextPart
  next_only : ℤ → NextPart
  next_after : ℤ → Number → NextPart
  next_blend : ℤ → BlendPart → NextPart
  next_after_blend : ℤ → Number → BlendPart → NextPart

-- command, with the tools of the parser for `setinternalstatus: SETINTERNALSTATUS error`.
pub data Sentence (tools : Tools) : Type 0 where
  byteorder_big byteorder_little send_frame send_state stream stream_stop : Sentence tools
  stream_divisor : ℤ → Sentence tools
  profile_run : ℤ → Sentence tools
  profile_def : ℤ → ℤ → PositionType → Number → Number → NextPart → Sentence tools
  sinusoid_on : Number → Number → Sentence tools
  rsinusoid_on : Number → Number → Sentence tools
  sinusoid_off rsinusoid_off lights_on lights_off say_bye go_home clear_it send_internal :
      Sentence tools
  internal : Status → Sentence tools
  internal_error :
      (rest : List Token) → status_of rest ≡ none → tools.recovers rest ≡ true → Sentence tools

abbrev pub number_token : Number → Token
number_token (whole n) = int n
number_token (point x) = float x

-- $<fval>$
abbrev pub value : Tools → Number → Double
value tools (whole n) = tools.float_of_int n
value tools (point x) = x

abbrev pub blend_tokens : BlendPart → List Token
blend_tokens before_it = blend ∷ before ∷ []
blend_tokens after_it = blend ∷ after ∷ []

abbrev pub how : BlendPart → BlendType
how before_it = blend_before
how after_it = blend_after

abbrev pub next_tokens : NextPart → List Token
next_tokens no_next = []
next_tokens (next_only n) = next ∷ int n ∷ []
next_tokens (next_after n x) = next ∷ int n ∷ after ∷ number_token x ∷ []
next_tokens (next_blend n b) = next ∷ int n ∷ blend_tokens b
next_tokens (next_after_blend n x b) = next ∷ int n ∷ after ∷ number_token x ∷ blend_tokens b

abbrev pub status_tokens : Status → List Token
status_tokens sta_off = off ∷ []
status_tokens sta_preoperational = preoperational ∷ []
status_tokens sta_operational = operational ∷ []
status_tokens sta_outputenabled = outputenabled ∷ []

-- The tokens that a production derives.
unfoldable pub tokens_of : {tools : Tools} → Sentence tools → List Token
tokens_of byteorder_big = setbyteorder ∷ bigendian ∷ []
tokens_of byteorder_little = setbyteorder ∷ littleendian ∷ []
tokens_of send_frame = sendcurrentframe ∷ []
tokens_of send_state = sendstatus ∷ []
tokens_of stream = streamframes ∷ []
tokens_of stream_stop = streamframes ∷ stop ∷ []
tokens_of (stream_divisor n) = streamframes ∷ frequencydivisor ∷ colon ∷ int n ∷ []
tokens_of (profile_run n) = profile ∷ int n ∷ execute ∷ []
tokens_of (profile_def n t p x y next_part) =
    profile
    ∷ int n
    ∷ set
    ∷ table
    ∷ int t
    ∷ postype p
    ∷ number_token x
    ∷ number_token y
    ∷ next_tokens next_part
tokens_of (sinusoid_on x y) = sinusoid ∷ start ∷ number_token x ∷ number_token y ∷ []
tokens_of (rsinusoid_on x y) = rsinusoid ∷ start ∷ number_token x ∷ number_token y ∷ []
tokens_of sinusoid_off = sinusoid ∷ stop ∷ []
tokens_of rsinusoid_off = rsinusoid ∷ stop ∷ []
tokens_of lights_on = lights ∷ on ∷ []
tokens_of lights_off = lights ∷ off ∷ []
tokens_of say_bye = bye ∷ []
tokens_of go_home = home ∷ []
tokens_of clear_it = clearfault ∷ []
tokens_of send_internal = sendinternalstatus ∷ []
tokens_of (internal s) = setinternalstatus ∷ status_tokens s
tokens_of (internal_error rest n r) = setinternalstatus ∷ rest

-- The actions of next_part, after_part and blend_part come before that of the rule.
unfoldable pub next_action : Tools → NextPart → Command → Command
next_action tools no_next m = record m { next_profile = negsuc 0 }
next_action tools (next_only n) m = record (record m { next_profile = n }) { blend_type = no_blend }
next_action tools (next_after n x) m =
    record (record (record m { next_profile = n }) { next_delay = value tools x }) {
      blend_type = no_blend;
    }
next_action tools (next_blend n b) m =
    record (record (record m { next_profile = n }) { blend_type = how b }) { next_delay = 0 }
next_action tools (next_after_blend n x b) m =
    record (record (record m { next_profile = n }) { next_delay = value tools x }) {
      blend_type = how b;
    }

-- What the actions of a production write, in the order in which the rules are reduced.
unfoldable pub action : {tools : Tools} → Sentence tools → Command → Command
unfolding next_action
action byteorder_big m = record m { type = cmd_setbyteorder; byte_order = big_endian }
action byteorder_little m = record m { type = cmd_setbyteorder; byte_order = little_endian }
action send_frame m = record m { type = cmd_sendcurrentframe }
action send_state m = record m { type = cmd_sendstatus }
action stream m = record m { type = cmd_streamframes; boolean = true }
action stream_stop m = record m { type = cmd_streamframes; boolean = false }
action (stream_divisor n) m = record m { type = cmd_streamframes; boolean = true }
action (profile_run n) m = record (record m { profile = n }) { type = cmd_profile_execute }
action {tools} (profile_def n t p x y next_part) m =
    next_action tools next_part (record (record m { profile = n }) {
      type = cmd_profile_set;
      table = t;
      position_type = p;
      position = value tools x;
      time = value tools y;
    })
action {tools} (sinusoid_on x y) m = record m {
  type = cmd_sinusoid;
  boolean = true;
  amplitude = value tools x;
  period = value tools y;
}
action {tools} (rsinusoid_on x y) m = record m {
  type = cmd_rsinusoid;
  boolean = true;
  amplitude = value tools x;
  period = value tools y;
}
action sinusoid_off m = record m { type = cmd_sinusoid; boolean = false }
action rsinusoid_off m = record m { type = cmd_rsinusoid; boolean = false }
action lights_on m = record m { type = cmd_lights; boolean = true }
action lights_off m = record m { type = cmd_lights; boolean = false }
action say_bye m = record m { type = cmd_bye }
action go_home m = record m { type = cmd_home }
action clear_it m = record m { type = cmd_clearfault }
action send_internal m = record m { type = cmd_sendinternalstatus }
action (internal s) m = record m { type = cmd_setinternalstatus; status = s }
action (internal_error rest n r) m = m

pub some_injective : {A : Type 0} {a b : A} → some a ≡ some b → a ≡ b
some_injective h = cc

tail_complete :
    (tools : Tools) (next_part : NextPart) (m : Command)
    → profile_tail tools (next_tokens next_part) m ≡ some (next_action tools next_part m)
unfolding profile_tail next_action
tail_complete tools no_next m = refl
tail_complete tools (next_only n) m = refl
tail_complete tools (next_after n (whole x)) m = refl
tail_complete tools (next_after n (point x)) m = refl
tail_complete tools (next_blend n before_it) m = refl
tail_complete tools (next_blend n after_it) m = refl
tail_complete tools (next_after_blend n (whole x) before_it) m = refl
tail_complete tools (next_after_blend n (point x) before_it) m = refl
tail_complete tools (next_after_blend n (whole x) after_it) m = refl
tail_complete tools (next_after_blend n (point x) after_it) m = refl

profile_complete :
    (tools : Tools) (n t : ℤ) (p : PositionType) (x y : Number) (next_part : NextPart) (m : Command)
    → parse tools (tokens_of {tools = tools} (profile_def n t p x y next_part)) m
      ≡ some (action {tools = tools} (profile_def n t p x y next_part) m)
unfolding parse tokens_of action
profile_complete tools n t p (whole x) (whole y) next_part m = tail_complete tools next_part _
profile_complete tools n t p (whole x) (point y) next_part m = tail_complete tools next_part _
profile_complete tools n t p (point x) (whole y) next_part m = tail_complete tools next_part _
profile_complete tools n t p (point x) (point y) next_part m = tail_complete tools next_part _

-- The parser takes every sentence of the grammar, with the values that the actions give.
pub parse_complete :
    {tools : Tools} (s : Sentence tools) (m : Command)
    → parse tools (tokens_of s) m ≡ some (action s m)
unfolding parse tokens_of action internal_status set_status
parse_complete {tools} (profile_def n t p x y next_part) m =
    profile_complete tools n t p x y next_part m
parse_complete (sinusoid_on (whole x) (whole y)) m = refl
parse_complete (sinusoid_on (whole x) (point y)) m = refl
parse_complete (sinusoid_on (point x) (whole y)) m = refl
parse_complete (sinusoid_on (point x) (point y)) m = refl
parse_complete (rsinusoid_on (whole x) (whole y)) m = refl
parse_complete (rsinusoid_on (whole x) (point y)) m = refl
parse_complete (rsinusoid_on (point x) (whole y)) m = refl
parse_complete (rsinusoid_on (point x) (point y)) m = refl
parse_complete (internal sta_off) m = refl
parse_complete (internal sta_preoperational) m = refl
parse_complete (internal sta_operational) m = refl
parse_complete (internal sta_outputenabled) m = refl
parse_complete (internal_error rest n r) m = rw (n, set_status, r) refl
parse_complete _ m = refl

-- A list of tokens is a sentence, with these values.
abbrev pub IsSentence : Tools → List Token → Command → Command → Type 0
IsSentence tools ts m c = (s : Sentence tools) × ((tokens_of s ≡ ts) × (action s m ≡ c))
