-- ===== src/Parser/Lexer.antt =====
-- The tokens of a command: src/scanner.lex. A byte that no rule takes is only echoed.
use Prim.Native.Char.{code}
use Prim.Native.String.{String}
use sled_server.Common.{
  ℕ, zero, suc, ◌+◌, Bool, true, false, ◌&&◌, ◌||◌, ◌==◌, leb, if◌then◌else◌, Option, none, some,
  List, [], ◌∷◌, ◌++◌, length,
}
use sled_server.Profile.{absolute, relative_target, relative_actual}
use sled_server.Parser.{
  Token, Tools, colon, setbyteorder, bigendian, littleendian, sendcurrentframe, streamframes,
  frequencydivisor, stop, profile, set, execute, table, next, after, blend, before, sinusoid,
  rsinusoid, start, lights, on, off, bye, home, clearfault, setinternalstatus, preoperational,
  operational, outputenabled, sendinternalstatus, string, postype, int, float,
}

-- The bytes of a text in ASCII.
abbrev pub ascii : String → List ℕ
ascii String.[] = []
ascii (String.◌∷◌ c rest) = code c ∷ ascii rest

abbrev pub is_digit : ℕ → Bool
is_digit c = leb b'0' c && leb c b'9'

abbrev is_upper : ℕ → Bool
is_upper c = leb b'A' c && leb c b'Z'

abbrev pub is_letter : ℕ → Bool
is_letter c = is_upper c || (leb b'a' c && leb c b'z')

abbrev pub is_word : ℕ → Bool
is_word c = is_letter c || is_digit c

abbrev lower : ℕ → ℕ
lower c = if is_upper c then c + 32 else c

-- A text without regard to case.
abbrev pub is_text : List ℕ → List ℕ → Bool
is_text [] [] = true
is_text (a ∷ more) (b ∷ rest) = lower a == lower b && is_text more rest
is_text _ _ = false

-- The words of the language.
unfoldable pub keyword : List ℕ → Token
keyword w =
    if is_text w (ascii "abs")
    then postype absolute
    else if is_text w (ascii "reltgt")
    then postype relative_target
    else if is_text w (ascii "relact")
    then postype relative_actual
    else if is_text w (ascii "frequencydivisor")
    then frequencydivisor
    else if is_text w (ascii "setbyteorder")
    then setbyteorder
    else if is_text w (ascii "bigendian")
    then bigendian
    else if is_text w (ascii "littleendian")
    then littleendian
    else if is_text w (ascii "sendcurrentframe")
    then sendcurrentframe
    else if is_text w (ascii "streamframes")
    then streamframes
    else if is_text w (ascii "stop")
    then stop
    else if is_text w (ascii "profile")
    then profile
    else if is_text w (ascii "set")
    then set
    else if is_text w (ascii "execute")
    then execute
    else if is_text w (ascii "table")
    then table
    else if is_text w (ascii "next")
    then next
    else if is_text w (ascii "after")
    then after
    else if is_text w (ascii "blend")
    then blend
    else if is_text w (ascii "before")
    then before
    else if is_text w (ascii "sinusoid")
    then sinusoid
    else if is_text w (ascii "rsinusoid")
    then rsinusoid
    else if is_text w (ascii "start")
    then start
    else if is_text w (ascii "lights")
    then lights
    else if is_text w (ascii "on")
    then on
    else if is_text w (ascii "off")
    then off
    else if is_text w (ascii "bye")
    then bye
    else if is_text w (ascii "home")
    then home
    else if is_text w (ascii "clearfault")
    then clearfault
    else if is_text w (ascii "setinternalstatus")
    then setinternalstatus
    else if is_text w (ascii "preoperational")
    then preoperational
    else if is_text w (ascii "operational")
    then operational
    else if is_text w (ascii "outputenabled")
    then outputenabled
    else if is_text w (ascii "sendinternalstatus")
    then sendinternalstatus
    else string

-- The longest run of bytes that pass a test, and what follows it.
abbrev pub span : (ℕ → Bool) → List ℕ → List ℕ × List ℕ
span p [] = ([], [])
span p (c ∷ rest) = let more = span p rest in if p c then (c ∷ more.0, more.1) else ([], c ∷ rest)

-- The digits behind a point, with the point, or nothing.
abbrev pub fraction : List ℕ → List ℕ × List ℕ
fraction (c ∷ d ∷ rest) =
    let run = span is_digit (d ∷ rest) in
    if c == b'.' && is_digit d then (c ∷ run.0, run.1) else ([], c ∷ d ∷ rest)
fraction rest = ([], rest)

-- FLOAT where a fraction follows the digits, else INT where there are digits, else no number.
unfoldable pub number_of :
    Tools → List ℕ → List ℕ × List ℕ → List ℕ × List ℕ → Option (Token × List ℕ)
number_of tools sign whole (d ∷ digits, left) =
    some (float (tools.atof (sign ++ (whole.0 ++ d ∷ digits))), left)
number_of tools sign (d ∷ digits, left) ([], rest) =
    some (int (tools.atoi (sign ++ d ∷ digits)), left)
number_of tools sign ([], left) ([], rest) = none

-- A number behind what may be its sign.
unfoldable pub lex_number : Tools → List ℕ → List ℕ → Option (Token × List ℕ)
unfolding number_of
lex_number tools sign bytes =
    let whole = span is_digit bytes in number_of tools sign whole (fraction whole.1)

abbrev pub number_at : Tools → List ℕ → Option (Token × List ℕ)
number_at tools [] = none
number_at tools (c ∷ rest) =
    if c == b'-' then lex_number tools (c ∷ []) rest else lex_number tools [] (c ∷ rest)

-- What no rule takes is one byte.
abbrev pub or_skip : List ℕ → Option (Token × List ℕ) → Option Token × List ℕ
or_skip rest none = (none, rest)
or_skip rest (some (t, left)) = (some t, left)

-- The next token, if a rule makes one, and what follows; some input is left.
unfoldable pub next_token : Tools → ℕ → List ℕ → Option Token × List ℕ
unfolding keyword lex_number
next_token tools c rest =
    if is_letter c
    then (let word = span is_word rest in (some (keyword (c ∷ word.0)), word.1))
    else if c == b':'
    then (some colon, rest)
    else or_skip rest (number_at tools (c ∷ rest))

abbrev pub with_token : Option Token → List Token → List Token
with_token none more = more
with_token (some t) more = t ∷ more

-- The calls of yylex, on fuel.
unfoldable pub lex_from : ℕ → Tools → List ℕ → List Token
unfolding next_token
lex_from zero tools bytes = []
lex_from (suc n) tools [] = []
lex_from (suc n) tools (c ∷ rest) =
    let r = next_token tools c rest in with_token r.0 (lex_from n tools r.1)

-- yylex, until the input ends
unfoldable pub lex : Tools → List ℕ → List Token
unfolding lex_from
lex tools bytes = lex_from (length bytes) tools bytes
