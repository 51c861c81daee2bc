-- ===== src/Rtc3d/Memory.antt =====
-- The payload buffer of librtc3d/rtc3d.cc: memory of a known size whose cells may not have been
-- written yet.
use sled_server.Common.{
  ℕ, zero, suc, ◌+◌, ◌<◌, ◌≤◌, ◌≡◌, Bool, true, false, ◌==◌, ltb, if◌then◌else◌, List, [], ◌∷◌,
  ◌++◌, length, Option, none, some, arith,
}
use sled_server.Common.Outcome.{Outcome, running, fault, ◌>>=◌}

pub record Buffer : Type 0 where
  pub capacity : ℕ
  pub cell : ℕ → Option ℕ

-- No memory: a null or a released pointer.
abbrev pub empty : Buffer
empty = record { capacity = 0; cell = λ _. none }

abbrev pub allocated : ℕ → Buffer
allocated n = record { capacity = n; cell = λ _. none }

abbrev written : Option ℕ → Outcome ℕ
written none = fault
written (some b) = running b

-- A read outside the buffer, or of a cell that nothing has written, is undefined behaviour.
unfoldable pub read_cell : Buffer → ℕ → Outcome ℕ
read_cell m i = if ltb i m.capacity then written (m.cell i) else fault

abbrev pub stored : (ℕ → Option ℕ) → ℕ → ℕ → ℕ → Option ℕ
stored f i b j = if j == i then some b else f j

unfoldable pub write_cell : Buffer → ℕ → ℕ → Outcome Buffer
write_cell m i b =
    if ltb i m.capacity then running (record m { cell = stored m.cell i b }) else fault

-- The string that starts at a cell and ends before the first zero, looked for in so many cells.
unfoldable pub string_from : ℕ → Buffer → ℕ → Outcome (List ℕ)
unfolding read_cell
string_from zero m i = fault
string_from (suc n) m i =
    let rest = string_from n m (suc i) in
    read_cell m i >>= λ b. if b == 0 then running [] else rest >>= λ text. running (b ∷ text)

-- No string is longer than its buffer, where a read past the end is a fault.
unfoldable pub c_string : Buffer → ℕ → Outcome (List ℕ)
unfolding string_from
c_string m i = string_from m.capacity m i

-- The cells from `i` on hold these bytes.
abbrev pub Holds : (ℕ → Option ℕ) → ℕ → List ℕ → Type 0
Holds f i [] = Unit
Holds f i (b ∷ bytes) = (f i ≡ some b) × Holds f (suc i) bytes

Holds-stored :
    (f : ℕ → Option ℕ) (i j b : ℕ) (bytes : List ℕ)
    → i + length bytes ≤ j
    → Holds f i bytes
    → Holds (stored f j b) i bytes
Holds-stored f i j b [] h w = tt
Holds-stored f i j b (x ∷ bytes) h w =
    (ground (arith, h, w.0), Holds-stored f (suc i) j b bytes (omega (arith, h)) w.1)

-- A write behind what is held lengthens it.
pub Holds-append :
    (f : ℕ → Option ℕ) (i j b : ℕ) (bytes : List ℕ)
    → j ≡ i + length bytes
    → Holds f i bytes
    → Holds (stored f j b) i (bytes ++ b ∷ [])
Holds-append f i j b [] e h = (ground (arith, e), tt)
Holds-append f i j b (x ∷ bytes) e h =
    (ground (arith, e, h.0), Holds-append f (suc i) j b bytes (omega (arith, e)) h.1)

abbrev pub is_text : List ℕ → Bool
is_text [] = true
is_text (b ∷ bytes) = if b == 0 then false else is_text bytes

-- A text with its final zero is read back.
pub string_from-Holds :
    (n i : ℕ) (m : Buffer) (text : List ℕ)
    → is_text text ≡ true
    → length text < n
    → i + length text < m.capacity
    → Holds m.cell i (text ++ 0 ∷ [])
    → string_from n m i ≡ running text
unfolding string_from
string_from-Holds zero i m text t l c h = absurd (omega (arith, l))
string_from-Holds (suc n) i m [] t l c h = ground (arith, h.0, c)
string_from-Holds (suc n) i m (b ∷ text) t l c h =
    let rest =
      string_from-Holds n (suc i) m text (ground (arith, t)) (omega (arith, l)) (omega (arith, c))
        h.1 in
    ground (arith, rest, h.0, t, c)
