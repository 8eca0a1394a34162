-- ===== src/Prelude/Run.antt =====
-- Results of code that asserts, reads memory or may not end.
use mathlib.Core.Path.{◌≡◌, refl, sym, transport}
use mathlib.Core.Bool.{Bool, true, false}
use mathlib.Core.Option.{Option, none, some}
use mojo.Prelude.Tests.{if◌then◌else◌}

-- A result, a failed assertion or an access outside the memory, or no fuel left.
pub data Run (A : Type 0) : Type 0 where
  ok : A → Run A
  fault : Run A
  out_of_fuel : Run A

infixl 5 ◌>>=◌
abbrev pub ◌>>=◌ : {A B : Type 0} → Run A → (A → Run B) → Run B
ok a >>= k = k a
fault >>= k = fault
out_of_fuel >>= k = out_of_fuel

-- A memory access.
abbrev pub access : {A : Type 0} → Option A → Run A
access none = fault
access (some a) = ok a

-- `assert(b)`, and what follows it.
abbrev pub assert : {A : Type 0} → Bool → Run A → Run A
assert b k = if b then k else fault

-- A run that ends with a result, and one with the property.
abbrev pub Returns : {A : Type 0} → (A → Type 0) → Run A → Type 0
Returns P (ok a) = P a
Returns P fault = ⊥
Returns P out_of_fuel = ⊥

-- A run that does not run out of fuel, with the property if it has a result.
abbrev pub Ends : {A : Type 0} → (A → Type 0) → Run A → Type 0
Ends P (ok a) = P a
Ends P fault = Unit
Ends P out_of_fuel = ⊥

pub Ends-bind :
    {A B : Type 0} (P : A → Type 0) (Q : B → Type 0) (r : Run A) (k : A → Run B)
    → Ends P r
    → ((a : A) → P a → Ends Q (k a))
    → Ends Q (r >>= k)
Ends-bind P Q (ok a) k h next = next a h
Ends-bind P Q fault k h next = tt
Ends-bind P Q out_of_fuel k h next = h

pub Ends-assert :
    {A : Type 0} (P : A → Type 0) (b : Bool) (r : Run A) → Ends P r → Ends P (assert b r)
Ends-assert P true r h = h
Ends-assert P false r h = tt

-- A test, which each branch may use.
pub Ends-test :
    {A : Type 0} (P : A → Type 0) (b : Bool) (r s : Run A)
    → (b ≡ true → Ends P r)
    → (b ≡ false → Ends P s)
    → Ends P (elim b as (λ _. Run A) [ true ↦ r | false ↦ s ])
Ends-test P true r s h k = h refl
Ends-test P false r s h k = k refl

-- The same of an option.
pub Ends-option :
    {A B : Type 0} (P : A → Type 0) (o : Option B) (r : Run A) (s : B → Run A)
    → (o ≡ none → Ends P r)
    → ((b : B) → o ≡ some b → Ends P (s b))
    → Ends P (elim o as (λ _. Run A) [ none ↦ r | some b ↦ s b ])
Ends-option P none r s h k = h refl
Ends-option P (some b) r s h k = k b refl

-- A property of the result, if there is one: the run may also fail, or have too little fuel.
abbrev pub Yields : {A : Type 0} → (A → Type 0) → Run A → Type 0
Yields P (ok a) = P a
Yields P fault = Unit
Yields P out_of_fuel = Unit

pub Yields-bind :
    {A B : Type 0} (P : A → Type 0) (Q : B → Type 0) (r : Run A) (k : A → Run B)
    → Yields P r
    → ((a : A) → P a → Yields Q (k a))
    → Yields Q (r >>= k)
Yields-bind P Q (ok a) k h next = next a h
Yields-bind P Q fault k h next = tt
Yields-bind P Q out_of_fuel k h next = tt

pub Yields-assert :
    {A : Type 0} (P : A → Type 0) (b : Bool) (r : Run A) → Yields P r → Yields P (assert b r)
Yields-assert P true r h = h
Yields-assert P false r h = tt

pub Yields-if :
    {A : Type 0} (P : A → Type 0) (b : Bool) (r s : Run A)
    → Yields P r
    → Yields P s
    → Yields P (if b then r else s)
Yields-if P true r s h k = h
Yields-if P false r s h k = k

pub Yields-test :
    {A : Type 0} (P : A → Type 0) (b : Bool) (r s : Run A)
    → (b ≡ true → Yields P r)
    → (b ≡ false → Yields P s)
    → Yields P (elim b as (λ _. Run A) [ true ↦ r | false ↦ s ])
Yields-test P true r s h k = h refl
Yields-test P false r s h k = k refl

pub Yields-option :
    {A B : Type 0} (P : A → Type 0) (o : Option B) (r : Run A) (s : B → Run A)
    → (o ≡ none → Yields P r)
    → ((b : B) → o ≡ some b → Yields P (s b))
    → Yields P (elim o as (λ _. Run A) [ none ↦ r | some b ↦ s b ])
Yields-option P none r s h k = h refl
Yields-option P (some b) r s h k = k b refl

-- Nothing is asked of the result.
pub Yields-any : {A : Type 0} (r : Run A) → Yields (λ _. Unit {0}) r
Yields-any (ok a) = tt
Yields-any fault = tt
Yields-any out_of_fuel = tt

pub Ends-if :
    {A : Type 0} (P : A → Type 0) (b : Bool) (r s : Run A)
    → (b ≡ true → Ends P r)
    → (b ≡ false → Ends P s)
    → Ends P (if b then r else s)
Ends-if P true r s h k = h refl
Ends-if P false r s h k = k refl

pub Ends-map :
    {A : Type 0} (P Q : A → Type 0) (r : Run A) → Ends P r → ((a : A) → P a → Q a) → Ends Q r
Ends-map P Q (ok a) h f = f a h
Ends-map P Q fault h f = tt
Ends-map P Q out_of_fuel h f = h

pub Returns-bind :
    {A B : Type 0} (P : A → Type 0) (Q : B → Type 0) (r : Run A) (k : A → Run B)
    → Returns P r
    → ((a : A) → P a → Returns Q (k a))
    → Returns Q (r >>= k)
Returns-bind P Q (ok a) k h next = next a h
Returns-bind P Q fault k h next = elim h [ ]
Returns-bind P Q out_of_fuel k h next = elim h [ ]

pub Returns-access :
    {A B : Type 0} (Q : B → Type 0) (o : Option A) (a : A) (k : A → Run B)
    → o ≡ some a
    → Returns Q (k a)
    → Returns Q (access o >>= k)
Returns-access Q o a k e h = transport (λ i. Returns Q (access (sym e i) >>= k)) h

pub Returns-assert :
    {A : Type 0} (P : A → Type 0) (b : Bool) (r : Run A)
    → b ≡ true
    → Returns P r
    → Returns P (assert b r)
Returns-assert P true r e h = h
Returns-assert P false r e h = cc

pub Returns-test :
    {A : Type 0} (P : A → Type 0) (b : Bool) (r s : Run A)
    → (b ≡ true → Returns P r)
    → (b ≡ false → Returns P s)
    → Returns P (if b then r else s)
Returns-test P true r s h k = h refl
Returns-test P false r s h k = k refl

pub Returns-option :
    {A B : Type 0} (P : A → Type 0) (o : Option B) (r : Run A) (s : B → Run A)
    → (o ≡ none → Returns P r)
    → ((b : B) → o ≡ some b → Returns P (s b))
    → Returns P (elim o as (λ _. Run A) [ none ↦ r | some b ↦ s b ])
Returns-option P none r s h k = h refl
Returns-option P (some b) r s h k = k b refl

-- A run that returns has the property of its result.
pub Returns-Yields : {A : Type 0} (P : A → Type 0) (r : Run A) → Returns P r → Yields P r
Returns-Yields P (ok a) h = h
Returns-Yields P fault h = tt
Returns-Yields P out_of_fuel h = tt

-- An access with a property of what is there.
pub Yields-access :
    {A B : Type 0} (Q : B → Type 0) (o : Option A) (k : A → Run B)
    → ((a : A) → o ≡ some a → Yields Q (k a))
    → Yields Q (access o >>= k)
Yields-access Q none k h = tt
Yields-access Q (some a) k h = h a refl

pub Returns-map :
    {A : Type 0} (P Q : A → Type 0) (r : Run A) → Returns P r → ((a : A) → P a → Q a) → Returns Q r
Returns-map P Q (ok a) h f = f a h
Returns-map P Q fault h f = elim h [ ]
Returns-map P Q out_of_fuel h f = elim h [ ]

pub Returns-some :
    {A B : Type 0} (P : A → Type 0) (o : Option B) (r : Run A) (s : B → Run A) (b : B)
    → o ≡ some b
    → Returns P (s b)
    → Returns P (elim o as (λ _. Run A) [ none ↦ r | some b ↦ s b ])
Returns-some {A = A} P o r s b e h =
    transport (λ i. Returns P (elim (sym e i) as (λ _. Run A) [ none ↦ r | some b ↦ s b ])) h

pub Yields-map :
    {A : Type 0} (P Q : A → Type 0) (r : Run A) → Yields P r → ((a : A) → P a → Q a) → Yields Q r
Yields-map P Q (ok a) h f = f a h
Yields-map P Q fault h f = tt
Yields-map P Q out_of_fuel h f = tt
