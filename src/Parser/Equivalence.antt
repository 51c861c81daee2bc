-- ===== src/Parser/Equivalence.antt =====
-- The parser against the grammar: src/parser.yac.
use mathlib.Core.Option.{none-ne-some}
use sled_server.Common.{
  ◌≡◌, ◌↔◌, inl, inr, refl, ap, ◌∙◌, sym, true, false, Bool-cases, Option-cases, none, some, List,
  [], ◌∷◌,
}
use sled_server.Parser.{
  Tools, Token, Status, Command, CommandType, internal_status, set_status, motion, status_of,
  byte_order_word, divisor, stream_rest, light_word, alone, parse, cmd_sinusoid, cmd_rsinusoid,
}
use sled_server.Parser.Grammar.{
  Sentence, tokens_of, action, IsSentence, some_injective, parse_complete, status_tokens,
}
use sled_server.Parser.Sound.{motion_start-IsMotion, profile_number-IsSentence}

abbrev IsAlone : CommandType → List Token → Command → Command → Type 0
IsAlone type ts m c = ([] ≡ ts) × (record m { type = type } ≡ c)

alone-IsAlone :
    (type : CommandType) (ts : List Token) (m : Command) {c : Command}
    → alone type ts m ≡ some c
    → IsAlone type ts m c
unfolding alone
alone-IsAlone type [] m h = (refl, some_injective h)
alone-IsAlone type (t ∷ ts) m h = cc

status_of_sound : (ts : List Token) {s : Status} → status_of ts ≡ some s → status_tokens s ≡ ts
status_of_sound (Token.off ∷ []) h = rw (sym (some_injective h)) refl
status_of_sound (Token.preoperational ∷ []) h = rw (sym (some_injective h)) refl
status_of_sound (Token.operational ∷ []) h = rw (sym (some_injective h)) refl
status_of_sound (Token.outputenabled ∷ []) h = rw (sym (some_injective h)) refl
status_of_sound _ h = cc

internal_status-IsSentence :
    (tools : Tools) (ts : List Token) (m : Command) {c : Command}
    → internal_status tools ts m ≡ some c
    → IsSentence tools (Token.setinternalstatus ∷ ts) m c
unfolding internal_status set_status tokens_of action
internal_status-IsSentence tools ts m h = elim (Option-cases (status_of ts)) [
  | inr (s, e) ↦ (
    Sentence.internal s,
    (rw (status_of_sound ts e) refl, some_injective (ap (set_status tools ts m) (sym e) ∙ h)),
  )
  | inl e ↦ elim (Bool-cases (tools.recovers ts)) [
    | inl r ↦ (
      Sentence.internal_error ts e r,
      (refl, some_injective (recovered r ∙ ap (set_status tools ts m) (sym e) ∙ h)),
    )
    | inr r ↦ absurd (none-ne-some _ (refused r ∙ ap (set_status tools ts m) (sym e) ∙ h))
  ]
]
  where
    recovered : tools.recovers ts ≡ true → some m ≡ set_status tools ts m none
    recovered r = rw r refl

    refused : tools.recovers ts ≡ false → none ≡ set_status tools ts m none
    refused r = rw r refl

byte_order_word-IsSentence :
    (tools : Tools) (ts : List Token) (m : Command) {c : Command}
    → byte_order_word ts m ≡ some c
    → IsSentence tools (Token.setbyteorder ∷ ts) m c
unfolding byte_order_word tokens_of action
byte_order_word-IsSentence tools (Token.bigendian ∷ []) m h =
    (Sentence.byteorder_big, (refl, some_injective h))
byte_order_word-IsSentence tools (Token.littleendian ∷ []) m h =
    (Sentence.byteorder_little, (refl, some_injective h))
byte_order_word-IsSentence tools _ m h = cc

divisor-IsSentence :
    (tools : Tools) (ts : List Token) (m : Command) {c : Command}
    → divisor ts m ≡ some c
    → IsSentence tools (Token.streamframes ∷ Token.frequencydivisor ∷ ts) m c
unfolding divisor tokens_of action
divisor-IsSentence tools (Token.colon ∷ Token.int n ∷ []) m h =
    (Sentence.stream_divisor n, (refl, some_injective h))
divisor-IsSentence tools _ m h = cc

stream_rest-IsSentence :
    (tools : Tools) (ts : List Token) (m : Command) {c : Command}
    → stream_rest ts m ≡ some c
    → IsSentence tools (Token.streamframes ∷ ts) m c
unfolding stream_rest tokens_of action
stream_rest-IsSentence tools [] m h = (Sentence.stream, (refl, some_injective h))
stream_rest-IsSentence tools (Token.stop ∷ []) m h =
    (Sentence.stream_stop, (refl, some_injective h))
stream_rest-IsSentence tools (Token.frequencydivisor ∷ rest) m h = divisor-IsSentence tools rest m h
stream_rest-IsSentence tools _ m h = cc

light_word-IsSentence :
    (tools : Tools) (ts : List Token) (m : Command) {c : Command}
    → light_word ts m ≡ some c
    → IsSentence tools (Token.lights ∷ ts) m c
unfolding light_word tokens_of action
light_word-IsSentence tools (Token.on ∷ []) m h = (Sentence.lights_on, (refl, some_injective h))
light_word-IsSentence tools (Token.off ∷ []) m h = (Sentence.lights_off, (refl, some_injective h))
light_word-IsSentence tools _ m h = cc

sinusoid-IsSentence :
    (tools : Tools) (ts : List Token) (m : Command) {c : Command}
    → motion tools cmd_sinusoid ts m ≡ some c
    → IsSentence tools (Token.sinusoid ∷ ts) m c
unfolding motion tokens_of action
sinusoid-IsSentence tools (Token.start ∷ rest) m h =
    let (x, (y, (e, f))) = motion_start-IsMotion tools cmd_sinusoid rest m h in
    (Sentence.sinusoid_on x y, (ap (λ l. Token.sinusoid ∷ l) e, f))
sinusoid-IsSentence tools (Token.stop ∷ []) m h = (Sentence.sinusoid_off, (refl, some_injective h))
sinusoid-IsSentence tools _ m h = cc

rsinusoid-IsSentence :
    (tools : Tools) (ts : List Token) (m : Command) {c : Command}
    → motion tools cmd_rsinusoid ts m ≡ some c
    → IsSentence tools (Token.rsinusoid ∷ ts) m c
unfolding motion tokens_of action
rsinusoid-IsSentence tools (Token.start ∷ rest) m h =
    let (x, (y, (e, f))) = motion_start-IsMotion tools cmd_rsinusoid rest m h in
    (Sentence.rsinusoid_on x y, (ap (λ l. Token.rsinusoid ∷ l) e, f))
rsinusoid-IsSentence tools (Token.stop ∷ []) m h =
    (Sentence.rsinusoid_off, (refl, some_injective h))
rsinusoid-IsSentence tools _ m h = cc

alone-IsSentence :
    (tools : Tools) (s : Sentence tools) (type : CommandType) (t : Token) (ts : List Token)
    (m : Command) {c : Command}
    → tokens_of s ≡ t ∷ []
    → action s m ≡ record m { type = type }
    → alone type ts m ≡ some c
    → IsSentence tools (t ∷ ts) m c
alone-IsSentence tools s type t ts m e f h =
    let (p, q) = alone-IsAlone type ts m h in (s, (e ∙ ap (λ l. t ∷ l) p, f ∙ q))

parse_sound :
    (tools : Tools) (ts : List Token) (m : Command) {c : Command}
    → parse tools ts m ≡ some c
    → IsSentence tools ts m c
unfolding parse tokens_of action
parse_sound tools (Token.setbyteorder ∷ rest) m h = byte_order_word-IsSentence tools rest m h
parse_sound tools (Token.sendcurrentframe ∷ rest) m h =
    alone-IsSentence tools Sentence.send_frame _ _ rest m refl refl h
parse_sound tools (Token.sendstatus ∷ rest) m h =
    alone-IsSentence tools Sentence.send_state _ _ rest m refl refl h
parse_sound tools (Token.streamframes ∷ rest) m h = stream_rest-IsSentence tools rest m h
parse_sound tools (Token.profile ∷ rest) m h = profile_number-IsSentence tools rest m h
parse_sound tools (Token.sinusoid ∷ rest) m h = sinusoid-IsSentence tools rest m h
parse_sound tools (Token.rsinusoid ∷ rest) m h = rsinusoid-IsSentence tools rest m h
parse_sound tools (Token.lights ∷ rest) m h = light_word-IsSentence tools rest m h
parse_sound tools (Token.bye ∷ rest) m h =
    alone-IsSentence tools Sentence.say_bye _ _ rest m refl refl h
parse_sound tools (Token.home ∷ rest) m h =
    alone-IsSentence tools Sentence.go_home _ _ rest m refl refl h
parse_sound tools (Token.clearfault ∷ rest) m h =
    alone-IsSentence tools Sentence.clear_it _ _ rest m refl refl h
parse_sound tools (Token.setinternalstatus ∷ rest) m h = internal_status-IsSentence tools rest m h
parse_sound tools (Token.sendinternalstatus ∷ rest) m h =
    alone-IsSentence tools Sentence.send_internal _ _ rest m refl refl h
parse_sound tools _ m h = cc

-- The parser takes a list of tokens, into any command memory, exactly where a production of the
-- grammar derives that list, and what it leaves in the command is then what the actions of the
-- production write.
pub parse_iff :
    (tools : Tools) (ts : List Token) (m c : Command)
    → (parse tools ts m ≡ some c) ↔ IsSentence tools ts m c
parse_iff tools ts m c = (
  parse_sound tools ts m,
  λ (s, (e, f)). ap (λ l. parse tools l m) (sym e) ∙ parse_complete s m ∙ ap some f,
)
