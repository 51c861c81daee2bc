-- ===== src/Parser/Sound.antt =====
-- The helpers of the parser and the parts of a production: src/parser.yac.
use sled_server.Common.{◌≡◌, refl, ap, ◌∙◌, sym, true, Option, none, some, List, [], ◌∷◌}
use mathlib.Core.Option.{bind}
use sled_server.Common.Int.{ℤ, Double}
use sled_server.Profile.{PositionType, BlendType}
use sled_server.Parser.{
  Tools, Token, Command, cmd_profile_set, CommandType, number, two_numbers, blend_word, blend_end,
  after_rest, after_number, next_rest, next_number, profile_tail, profile_numbers, profile_type,
  profile_set, profile_rest, profile_number, motion_start,
}
use sled_server.Parser.Grammar.{
  profile_def, profile_run, Number, BlendPart, NextPart, whole, point, number_token, value,
  blend_tokens, how, before_it, after_it, next_tokens, next_action, tokens_of, action, IsSentence,
  some_injective, no_next, next_only, next_after, next_blend, next_after_blend,
}

some_of_bind :
    {A B : Type 0} (o : Option A) (f : A → Option B) {y : B}
    → bind o f ≡ some y
    → (x : A) × ((o ≡ some x) × (f x ≡ some y))
unfolding bind
some_of_bind none f h = cc
some_of_bind (some x) f h = (x, (refl, h))

abbrev IsNumber : Tools → Token → Double → Type 0
IsNumber tools a x = (n : Number) × ((number_token n ≡ a) × (value tools n ≡ x))

number-IsNumber :
    (tools : Tools) (a : Token) {x : Double} → number tools a ≡ some x → IsNumber tools a x
unfolding number
number-IsNumber tools (Token.int n) h = (whole n, (refl, some_injective h))
number-IsNumber tools (Token.float y) h = (point y, (refl, some_injective h))
number-IsNumber tools _ h = cc

abbrev IsBlend : Token → BlendType → Type 0
IsBlend b t = (p : BlendPart) × ((blend_tokens p ≡ Token.blend ∷ b ∷ []) × (how p ≡ t))

blend_word-IsBlend : (b : Token) {t : BlendType} → blend_word b ≡ some t → IsBlend b t
unfolding blend_word
blend_word-IsBlend Token.before h = (before_it, (refl, some_injective h))
blend_word-IsBlend Token.after h = (after_it, (refl, some_injective h))
blend_word-IsBlend _ h = cc

abbrev IsBlendEnd : (BlendType → Option Command) → List Token → Command → Type 0
IsBlendEnd f ts c = (p : BlendPart) × ((blend_tokens p ≡ Token.blend ∷ ts) × (f (how p) ≡ some c))

blend_end-IsBlendEnd :
    (f : BlendType → Option Command) (ts : List Token) {c : Command}
    → blend_end f ts ≡ some c
    → IsBlendEnd f ts c
unfolding blend_end
blend_end-IsBlendEnd f (b ∷ []) h =
    let (t, (e, g)) = some_of_bind (blend_word b) f h in
    let (p, (q, r)) = blend_word-IsBlend b e in (p, (q, ap f r ∙ g))
blend_end-IsBlendEnd f [] h = cc
blend_end-IsBlendEnd f (a ∷ b ∷ rest) h = cc

abbrev IsTail : Tools → List Token → Command → Command → Type 0
IsTail tools ts m c = (p : NextPart) × ((next_tokens p ≡ ts) × (next_action tools p m ≡ c))

after_rest-IsTail :
    (tools : Tools) (n : ℤ) (x : Number) (ts : List Token) (m : Command) {c : Command}
    → after_rest ts (record (record m { next_profile = n }) { next_delay = value tools x }) ≡ some c
    → IsTail tools (Token.next ∷ Token.int n ∷ Token.after ∷ number_token x ∷ ts) m c
unfolding after_rest next_action
after_rest-IsTail tools n x [] m h = (next_after n x, (refl, some_injective h))
after_rest-IsTail tools n x (Token.blend ∷ rest) m h =
    let (p, (q, r)) = blend_end-IsBlendEnd _ rest h in
    (
      next_after_blend n x p,
      (ap (λ l. Token.next ∷ Token.int n ∷ Token.after ∷ number_token x ∷ l) q, some_injective r),
    )
after_rest-IsTail tools n x _ m h = cc

after_number-IsTail :
    (tools : Tools) (n : ℤ) (ts : List Token) (m : Command) {c : Command}
    → after_number tools ts (record m { next_profile = n }) ≡ some c
    → IsTail tools (Token.next ∷ Token.int n ∷ Token.after ∷ ts) m c
unfolding after_number
after_number-IsTail tools n [] m h = cc
after_number-IsTail tools n (a ∷ rest) m h =
    let (x, (e, g)) = some_of_bind (number tools a) _ h in
    let (w, (q, r)) = number-IsNumber tools a e in
    rw (sym q) (
      after_rest-IsTail tools n w rest m (
        ap (λ y. after_rest rest (record (record m { next_profile = n }) { next_delay = y })) r
        ∙ g))

next_rest-IsTail :
    (tools : Tools) (n : ℤ) (ts : List Token) (m : Command) {c : Command}
    → next_rest tools ts (record m { next_profile = n }) ≡ some c
    → IsTail tools (Token.next ∷ Token.int n ∷ ts) m c
unfolding next_rest next_action
next_rest-IsTail tools n [] m h = (next_only n, (refl, some_injective h))
next_rest-IsTail tools n (Token.after ∷ rest) m h = after_number-IsTail tools n rest m h
next_rest-IsTail tools n (Token.blend ∷ rest) m h =
    let (p, (q, r)) = blend_end-IsBlendEnd _ rest h in
    (next_blend n p, (ap (λ l. Token.next ∷ Token.int n ∷ l) q, some_injective r))
next_rest-IsTail tools n _ m h = cc

next_number-IsTail :
    (tools : Tools) (ts : List Token) (m : Command) {c : Command}
    → next_number tools ts m ≡ some c
    → IsTail tools (Token.next ∷ ts) m c
unfolding next_number
next_number-IsTail tools (Token.int n ∷ rest) m h = next_rest-IsTail tools n rest m h
next_number-IsTail tools _ m h = cc

profile_tail-IsTail :
    (tools : Tools) (ts : List Token) (m : Command) {c : Command}
    → profile_tail tools ts m ≡ some c
    → IsTail tools ts m c
unfolding profile_tail next_action
profile_tail-IsTail tools [] m h = (no_next, (refl, some_injective h))
profile_tail-IsTail tools (Token.next ∷ rest) m h = next_number-IsTail tools rest m h
profile_tail-IsTail tools _ m h = cc

abbrev pub IsMotion : Tools → CommandType → List Token → Command → Command → Type 0
IsMotion tools type ts m c =
    (x : Number) × ((y : Number) × ((Token.start ∷ number_token x ∷ number_token y ∷ []
          ≡ Token.start ∷ ts)
        × (record m {
          type = type;
          boolean = true;
          amplitude = value tools x;
          period = value tools y;
        }
            ≡ c)))

pub motion_start-IsMotion :
    (tools : Tools) (type : CommandType) (ts : List Token) (m : Command) {c : Command}
    → motion_start tools type ts m ≡ some c
    → IsMotion tools type ts m c
unfolding motion_start two_numbers
motion_start-IsMotion tools type [] m h = cc
motion_start-IsMotion tools type (a ∷ []) m h = cc
motion_start-IsMotion tools type (a ∷ b ∷ d ∷ rest) m h = cc
motion_start-IsMotion tools type (a ∷ b ∷ []) m h =
    let (x, (e, g)) = some_of_bind (number tools a) _ h in
    let (y, (f, k)) = some_of_bind (number tools b) _ g in
    let (v, (p, q)) = number-IsNumber tools a e in
    let (w, (r, t)) = number-IsNumber tools b f in
    (
      v,
      (
        w,
        (
          ap (λ l. Token.start ∷ l ∷ number_token w ∷ []) p ∙ ap (λ l. Token.start ∷ a ∷ l ∷ []) r,
          rw (q, t) (some_injective k),
        ),
      ),
    )

profile_numbers-IsSentence :
    (tools : Tools) (n t : ℤ) (d : PositionType) (ts : List Token) (m : Command) {c : Command}
    → profile_numbers tools ts
        (record m { profile = n; type = cmd_profile_set; table = t; position_type = d })
      ≡ some c
    → IsSentence tools
        (Token.profile ∷ Token.int n ∷ Token.set ∷ Token.table ∷ Token.int t ∷ Token.postype d ∷ ts)
        m
        c
unfolding profile_numbers two_numbers tokens_of action
profile_numbers-IsSentence tools n t d [] m h = cc
profile_numbers-IsSentence tools n t d (a ∷ []) m h = cc
profile_numbers-IsSentence tools n t d (a ∷ b ∷ rest) m h =
    let (x, (e, g)) = some_of_bind (number tools a) _ h in
    let (y, (f, k)) = some_of_bind (number tools b) _ g in
    let (v, (p, q)) = number-IsNumber tools a e in
    let (w, (r, u)) = number-IsNumber tools b f in
    let (next_part, (j, l)) = profile_tail-IsTail tools rest _ k in
    (profile_def n t d v w next_part, (rw (p, r, j) refl, rw (q, u) l))

profile_type-IsSentence :
    (tools : Tools) (n t : ℤ) (ts : List Token) (m : Command) {c : Command}
    → profile_type tools ts (record m { profile = n; type = cmd_profile_set; table = t }) ≡ some c
    → IsSentence tools
        (Token.profile ∷ Token.int n ∷ Token.set ∷ Token.table ∷ Token.int t ∷ ts)
        m
        c
unfolding profile_type
profile_type-IsSentence tools n t (Token.postype d ∷ rest) m h =
    profile_numbers-IsSentence tools n t d rest m h
profile_type-IsSentence tools n t _ m h = cc

profile_set-IsSentence :
    (tools : Tools) (n : ℤ) (ts : List Token) (m : Command) {c : Command}
    → profile_set tools ts (record m { profile = n }) ≡ some c
    → IsSentence tools (Token.profile ∷ Token.int n ∷ Token.set ∷ ts) m c
unfolding profile_set
profile_set-IsSentence tools n (Token.table ∷ Token.int t ∷ rest) m h =
    profile_type-IsSentence tools n t rest m h
profile_set-IsSentence tools n _ m h = cc

profile_rest-IsSentence :
    (tools : Tools) (n : ℤ) (ts : List Token) (m : Command) {c : Command}
    → profile_rest tools ts (record m { profile = n }) ≡ some c
    → IsSentence tools (Token.profile ∷ Token.int n ∷ ts) m c
unfolding profile_rest tokens_of action
profile_rest-IsSentence tools n (Token.execute ∷ []) m h = (profile_run n, (refl, some_injective h))
profile_rest-IsSentence tools n (Token.set ∷ rest) m h = profile_set-IsSentence tools n rest m h
profile_rest-IsSentence tools n _ m h = cc

pub profile_number-IsSentence :
    (tools : Tools) (ts : List Token) (m : Command) {c : Command}
    → profile_number tools ts m ≡ some c
    → IsSentence tools (Token.profile ∷ ts) m c
unfolding profile_number
profile_number-IsSentence tools (Token.int n ∷ rest) m h = profile_rest-IsSentence tools n rest m h
profile_number-IsSentence tools _ m h = cc
