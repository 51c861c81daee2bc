-- ===== src/Parser/Scanning.antt =====
-- The fuel of the scanner (src/scanner.lex).
use sled_server.Common.{
  ℕ, zero, suc, ◌+◌, ◌≤◌, ◌<◌, ◌≡◌, refl, ap, Bool, ◌&&◌, ◌==◌, Option, none, some, List, [], ◌∷◌,
  length, arith, Bool-cases, inl, inr,
}
use sled_server.Parser.{Token, Tools}
use sled_server.Parser.Lexer.{
  is_digit, is_letter, is_word, span, fraction, number_of, lex_number, or_skip, with_token,
  next_token, lex_from, lex,
}

length-span : (p : ℕ → Bool) (l : List ℕ) → length (span p l).0 + length (span p l).1 ≡ length l
length-span p [] = refl
length-span p (c ∷ l) =
    let rest = length-span p l in
    elim (Bool-cases (p c)) [ inl e ↦ simp e (omega (arith, rest)) | inr e ↦ simp e (omega arith) ]

length-fraction : (l : List ℕ) → length (fraction l).0 + length (fraction l).1 ≡ length l
length-fraction [] = refl
length-fraction (c ∷ []) = omega arith
length-fraction (c ∷ d ∷ l) =
    let run = length-span is_digit (d ∷ l) in
    elim (Bool-cases (c == b'.' && is_digit d)) [
      | inl e ↦ simp e (omega (arith, run))
      | inr e ↦ simp e (omega arith)
    ]

-- What is left behind a number is shorter than the bytes.
abbrev IsShorter : ℕ → Option (Token × List ℕ) → Type 0
IsShorter n none = ℕ
IsShorter n (some (t, left)) = length left < n

number_of-IsShorter :
    (tools : Tools) (sign : List ℕ) (whole part : List ℕ × List ℕ) (n : ℕ)
    → length part.0 + length part.1 ≡ length whole.1
    → length whole.0 + length whole.1 ≡ n
    → IsShorter n (number_of tools sign whole part)
unfolding number_of
number_of-IsShorter tools sign whole (d ∷ digits, left) n p w = omega (arith, p, w)
number_of-IsShorter tools sign (d ∷ digits, left) ([], rest) n p w = omega (arith, p, w)
number_of-IsShorter tools sign ([], left) ([], rest) n p w = 0

lex_number-IsShorter :
    (tools : Tools) (sign bytes : List ℕ) → IsShorter (length bytes) (lex_number tools sign bytes)
unfolding lex_number
lex_number-IsShorter tools sign bytes =
    let whole = span is_digit bytes in
    number_of-IsShorter tools sign whole (fraction whole.1) (length bytes) (length-fraction whole.1)
      (length-span is_digit bytes)

or_skip-IsShorter :
    (rest : List ℕ) (n : ℕ) (o : Option (Token × List ℕ))
    → n ≤ suc (length rest)
    → IsShorter n o
    → length (or_skip rest o).1 ≤ length rest
or_skip-IsShorter rest n none b h = omega arith
or_skip-IsShorter rest n (some (t, left)) b h = omega (arith, b, h)

length-next_token :
    (tools : Tools) (c : ℕ) (rest : List ℕ) → length (next_token tools c rest).1 ≤ length rest
unfolding next_token
length-next_token tools c rest = elim (Bool-cases (is_letter c)) [
  | inl e ↦ rw e (omega (arith, length-span is_word rest))
  | inr e ↦ elim (Bool-cases (c == b':')) [
    | inl f ↦ rw (e, f) (omega arith)
    | inr f ↦
        rw (e, f)
          (elim (Bool-cases (c == b'-')) [
            | inl g ↦ rw g (
                or_skip-IsShorter rest (length rest) _ (omega arith)
                  (lex_number-IsShorter tools (c ∷ []) rest))
            | inr g ↦ rw g (
                or_skip-IsShorter rest (suc (length rest)) _ (omega arith)
                  (lex_number-IsShorter tools [] (c ∷ rest)))
          ])
  ]
]

lex_from_same :
    (tools : Tools) (m n : ℕ) (bytes : List ℕ)
    → length bytes ≤ m
    → length bytes ≤ n
    → lex_from m tools bytes ≡ lex_from n tools bytes
unfolding lex_from
lex_from_same tools zero zero bytes a b = refl
lex_from_same tools zero (suc n) [] a b = refl
lex_from_same tools (suc m) zero [] a b = refl
lex_from_same tools (suc m) (suc n) [] a b = refl
lex_from_same tools zero (suc n) (c ∷ rest) a b = absurd (omega (arith, a))
lex_from_same tools (suc m) zero (c ∷ rest) a b = absurd (omega (arith, b))
lex_from_same tools (suc m) (suc n) (c ∷ rest) a b =
    let shorter = length-next_token tools c rest in
    let r = next_token tools c rest in
    ap (with_token r.0)
      (lex_from_same tools m n r.1 (omega (arith, a, shorter)) (omega (arith, b, shorter)))

-- The scanner makes the same tokens of a text with any fuel that is at least the number of its
-- bytes, so it has always taken the whole text.
lex_from_enough :
    (tools : Tools) (n : ℕ) (bytes : List ℕ)
    → length bytes ≤ n
    → lex_from n tools bytes ≡ lex tools bytes
unfolding lex
lex_from_enough tools n bytes b = lex_from_same tools n (length bytes) bytes b (omega arith)
