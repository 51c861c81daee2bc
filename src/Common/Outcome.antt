-- ===== src/Common/Outcome.antt =====
-- How a handler of the program ends: it returns, it ends the process by `exit`, or it runs into a
-- fault (a failed `assert`, or undefined behaviour such as a read outside an array). The undefined
-- conversion of a double that an int32_t cannot hold is told apart from other faults: `overflow`.
use mathlib.Core.Logic.{◌≢◌}
use mathlib.Core.Path.{◌≡◌, refl, subst}

pub data Outcome {ℓ} (A : Type ℓ) : Type ℓ where
  running : A → Outcome A
  exited : Outcome A
  overflow : Outcome A
  fault : Outcome A

infixl 5 ◌>>=◌
abbrev pub ◌>>=◌ {ℓ κ} : {A : Type ℓ} {B : Type κ} → Outcome A → (A → Outcome B) → Outcome B
running a >>= f = f a
exited >>= f = exited
overflow >>= f = overflow
fault >>= f = fault

-- The handler neither faults nor overflows, and what it returns satisfies `P`.
abbrev pub Ensures {ℓ κ} : {A : Type ℓ} → (A → Type κ) → Outcome A → Type κ
Ensures P (running a) = P a
Ensures P exited = Unit
Ensures P overflow = Unit → ⊥
Ensures P fault = Unit → ⊥

-- The handler faults nowhere, but for an overflow, and what it returns satisfies `P`.
abbrev pub Allows {ℓ κ} : {A : Type ℓ} → (A → Type κ) → Outcome A → Type κ
Allows P (running a) = P a
Allows P exited = Unit
Allows P overflow = Unit
Allows P fault = Unit → ⊥

-- The handler returns, and what it returns satisfies `P`.
abbrev pub Returns {ℓ κ} : {A : Type ℓ} → (A → Type κ) → Outcome A → Type κ
Returns P (running a) = P a
Returns P exited = Unit → ⊥
Returns P overflow = Unit → ⊥
Returns P fault = Unit → ⊥

module _ {ℓ κ} {A : Type ℓ} {B : Type ℓ} (P : A → Type κ) (Q : B → Type κ) where
  pub Ensures-bind :
      (m : Outcome A) (f : A → Outcome B)
      → Ensures P m
      → ((a : A) → P a → Ensures Q (f a))
      → Ensures Q (m >>= f)
  Ensures-bind (running a) f h k = k a h
  Ensures-bind exited f h k = tt
  Ensures-bind overflow f h k = absurd (h tt)
  Ensures-bind fault f h k = absurd (h tt)

  pub Allows-bind :
      (m : Outcome A) (f : A → Outcome B)
      → Allows P m
      → ((a : A) → P a → Allows Q (f a))
      → Allows Q (m >>= f)
  Allows-bind (running a) f h k = k a h
  Allows-bind exited f h k = tt
  Allows-bind overflow f h k = tt
  Allows-bind fault f h k = absurd (h tt)

  pub Returns-bind :
      (m : Outcome A) (f : A → Outcome B)
      → Returns P m
      → ((a : A) → P a → Returns Q (f a))
      → Returns Q (m >>= f)
  Returns-bind (running a) f h k = k a h
  Returns-bind exited f h k = absurd (h tt)
  Returns-bind overflow f h k = absurd (h tt)
  Returns-bind fault f h k = absurd (h tt)

module _ {ℓ κ} {A : Type ℓ} {P : A → Type κ} {Q : A → Type κ} where
  pub Ensures-mono : (m : Outcome A) → Ensures P m → ((a : A) → P a → Q a) → Ensures Q m
  Ensures-mono (running a) h k = k a h
  Ensures-mono exited h k = tt
  Ensures-mono overflow h k = absurd (h tt)
  Ensures-mono fault h k = absurd (h tt)

  pub Allows-mono : (m : Outcome A) → Allows P m → ((a : A) → P a → Q a) → Allows Q m
  Allows-mono (running a) h k = k a h
  Allows-mono exited h k = tt
  Allows-mono overflow h k = tt
  Allows-mono fault h k = absurd (h tt)

  pub Returns-mono : (m : Outcome A) → Returns P m → ((a : A) → P a → Q a) → Returns Q m
  Returns-mono (running a) h k = k a h
  Returns-mono exited h k = absurd (h tt)
  Returns-mono overflow h k = absurd (h tt)
  Returns-mono fault h k = absurd (h tt)

pub Ensures-of_Returns {ℓ κ} :
    {A : Type ℓ} (P : A → Type κ) (m : Outcome A) → Returns P m → Ensures P m
Ensures-of_Returns P (running a) h = h
Ensures-of_Returns P exited h = tt
Ensures-of_Returns P overflow h = absurd (h tt)
Ensures-of_Returns P fault h = absurd (h tt)

pub Allows-of_Ensures {ℓ κ} :
    {A : Type ℓ} (P : A → Type κ) (m : Outcome A) → Ensures P m → Allows P m
Allows-of_Ensures P (running a) h = h
Allows-of_Ensures P exited h = tt
Allows-of_Ensures P overflow h = tt
Allows-of_Ensures P fault h = h

pub Ensures-both {ℓ κ} :
    {A : Type ℓ} (P Q : A → Type κ) (m : Outcome A)
    → Ensures P m
    → Ensures Q m
    → Ensures (λ a. P a × Q a) m
Ensures-both P Q (running a) p q = (p, q)
Ensures-both P Q exited p q = tt
Ensures-both P Q overflow p q = absurd (p tt)
Ensures-both P Q fault p q = absurd (p tt)

pub Returns-both {ℓ κ} :
    {A : Type ℓ} (P Q : A → Type κ) (m : Outcome A)
    → Returns P m
    → Returns Q m
    → Returns (λ a. P a × Q a) m
Returns-both P Q (running a) p q = (p, q)
Returns-both P Q exited p q = absurd (p tt)
Returns-both P Q overflow p q = absurd (p tt)
Returns-both P Q fault p q = absurd (p tt)

-- A handler that returns ends in a state.
pub Returns-running {ℓ κ} :
    {A : Type ℓ} {P : A → Type κ} (m : Outcome A) → Returns P m → (a : A) × (m ≡ running a) × P a
Returns-running (running a) h = (a, refl, h)
Returns-running exited h = absurd (h tt)
Returns-running overflow h = absurd (h tt)
Returns-running fault h = absurd (h tt)

pub bind_assoc {ℓ κ ι} :
    {A : Type ℓ} {B : Type κ} {C : Type ι} (m : Outcome A) (f : A → Outcome B) (g : B → Outcome C)
    → (m >>= f >>= g) ≡ (m >>= λ a. f a >>= g)
bind_assoc (running a) f g = refl
bind_assoc exited f g = refl
bind_assoc overflow f g = refl
bind_assoc fault f g = refl

-- Two ways to go on that agree everywhere.
pub bind_cong {ℓ κ} :
    {A : Type ℓ} {B : Type κ} (m : Outcome A) (f g : A → Outcome B)
    → ((a : A) → f a ≡ g a)
    → (m >>= f) ≡ (m >>= g)
bind_cong (running a) f g h = h a
bind_cong exited f g h = refl
bind_cong overflow f g h = refl
bind_cong fault f g h = refl

-- Where a handler that ensures `P` returns.
pub Ensures-running {ℓ κ} :
    {A : Type ℓ} (P : A → Type κ) (m : Outcome A) (a : A) → Ensures P m → m ≡ running a → P a
Ensures-running P m a h e = subst (Ensures P) e h

pub Ensures-no_fault {ℓ κ} :
    {A : Type ℓ} (P : A → Type κ) (m : Outcome A) → Ensures P m → (m ≢ fault) × (m ≢ overflow)
Ensures-no_fault P m h = (λ e. subst (Ensures P) e h tt, λ e. subst (Ensures P) e h tt)

-- Whatever the handler returns satisfies `P`, if it returns.
abbrev pub OnReturn {ℓ κ} : {A : Type ℓ} → (A → Type κ) → Outcome A → Type κ
OnReturn P (running a) = P a
OnReturn P _ = Unit

pub OnReturn-bind {ℓ κ} :
    {A B : Type ℓ} (P : B → Type κ) (m : Outcome A) (f : A → Outcome B)
    → ((a : A) → OnReturn P (f a))
    → OnReturn P (m >>= f)
OnReturn-bind P (running a) f k = k a
OnReturn-bind P exited f k = tt
OnReturn-bind P overflow f k = tt
OnReturn-bind P fault f k = tt

pub Allows-OnReturn {ℓ κ} :
    {A : Type ℓ} (P Q : A → Type κ) (m : Outcome A) → Allows P m → OnReturn Q m → Allows Q m
Allows-OnReturn P Q (running a) h k = k
Allows-OnReturn P Q exited h k = tt
Allows-OnReturn P Q overflow h k = tt
Allows-OnReturn P Q fault h k = h

pub Returns-OnReturn {ℓ κ} :
    {A : Type ℓ} (P : A → Type κ) (m : Outcome A) → Returns P m → OnReturn P m
Returns-OnReturn P (running a) h = h
Returns-OnReturn P exited h = tt
Returns-OnReturn P overflow h = tt
Returns-OnReturn P fault h = tt

pub OnReturn-then {ℓ κ} :
    {A B : Type ℓ} (P : A → Type κ) (Q : B → Type κ) (m : Outcome A) (f : A → Outcome B)
    → OnReturn P m
    → ((a : A) → P a → OnReturn Q (f a))
    → OnReturn Q (m >>= f)
OnReturn-then P Q (running a) f h k = k a h
OnReturn-then P Q exited f h k = tt
OnReturn-then P Q overflow f h k = tt
OnReturn-then P Q fault f h k = tt

-- The handler returns what satisfies `P`, or it overflows; where `Safe` holds it does not.
abbrev pub Settles {ℓ} : {A : Type ℓ} → Type 0 → (A → Type 0) → Outcome A → Type 0
Settles Safe P (running a) = P a
Settles Safe P overflow = Safe → ⊥
Settles Safe P exited = Unit → ⊥
Settles Safe P fault = Unit → ⊥

module _ {ℓ} {A B : Type ℓ} (Safe : Type 0) (P : A → Type 0) (Q : B → Type 0) where
  pub Settles-bind :
      (m : Outcome A) (f : A → Outcome B)
      → Settles Safe P m
      → ((a : A) → P a → Settles Safe Q (f a))
      → Settles Safe Q (m >>= f)
  Settles-bind (running a) f h k = k a h
  Settles-bind exited f h k = absurd (h tt)
  Settles-bind overflow f h k = h
  Settles-bind fault f h k = absurd (h tt)

-- A narrower condition, and a weaker property.
pub Settles-mono {ℓ} :
    {A : Type ℓ} {P Q : A → Type 0} (Safe More : Type 0) (m : Outcome A)
    → (More → Safe)
    → Settles Safe P m
    → ((a : A) → P a → Q a)
    → Settles More Q m
Settles-mono Safe More (running a) n h k = k a h
Settles-mono Safe More exited n h k = absurd (h tt)
Settles-mono Safe More overflow n h k = λ s. h (n s)
Settles-mono Safe More fault n h k = absurd (h tt)

pub Settles-of_Returns {ℓ} :
    {A : Type ℓ} (Safe : Type 0) (P : A → Type 0) (m : Outcome A) → Returns P m → Settles Safe P m
Settles-of_Returns Safe P (running a) h = h
Settles-of_Returns Safe P exited h = absurd (h tt)
Settles-of_Returns Safe P overflow h = absurd (h tt)
Settles-of_Returns Safe P fault h = absurd (h tt)

pub Settles-Returns {ℓ} :
    {A : Type ℓ} (Safe : Type 0) (P : A → Type 0) (m : Outcome A)
    → Safe
    → Settles Safe P m
    → Returns P m
Settles-Returns Safe P (running a) s h = h
Settles-Returns Safe P exited s h = absurd (h tt)
Settles-Returns Safe P overflow s h = absurd (h s)
Settles-Returns Safe P fault s h = absurd (h tt)

pub Settles-Allows {ℓ} :
    {A : Type ℓ} (Safe : Type 0) (P : A → Type 0) (m : Outcome A) → Settles Safe P m → Allows P m
Settles-Allows Safe P (running a) h = h
Settles-Allows Safe P exited h = tt
Settles-Allows Safe P overflow h = tt
Settles-Allows Safe P fault h = absurd (h tt)
