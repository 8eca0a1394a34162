-- ===== src/Prelude/Tests.antt =====
-- Boolean tests on the native numbers, the conditional, and 32-bit arithmetic.
use Prim.Native.Nat.{ℕ, ◌+◌, ◌-◌, ◌*◌, ◌/◌, ◌%◌, ◌≤◌, ◌<◌, compare, Ordering}
use mathlib.Core.Path.{◌≡◌, refl}
use mathlib.Core.Logic.{◌⊎◌, inl, inr}
use mathlib.Core.Bool.{Bool, true, false}
use mathlib.Core.Option.{Option, none, some}
use native.Mathlib.Omega.{arith}

abbrev pub ltb : ℕ → ℕ → Bool
ltb a b = elim (compare a b) [ Ordering.lt ↦ true | _ ↦ false ]

abbrev pub leb : ℕ → ℕ → Bool
leb a b = elim (compare a b) [ Ordering.gt ↦ false | _ ↦ true ]

infix 50 ◌==◌
abbrev pub ◌==◌ : ℕ → ℕ → Bool
a == b = elim (compare a b) [ Ordering.eq ↦ true | _ ↦ false ]

infix 1 if◌then◌else◌
abbrev pub if◌then◌else◌ {ℓ} : {A : Type ℓ} → Bool → A → A → A
if true then x else y = x
if false then x else y = y

-- `omega` reads a test through such a lemma.
pub ltb→lt : (a b : ℕ) → ltb a b ≡ true → a < b
ltb→lt a b h = ground arith

pub test_same : (a b : ℕ) → a ≡ b → (a == b) ≡ true
test_same a b h = ground arith

pub Bool-cases : (b : Bool) → (b ≡ true) ⊎ (b ≡ false)
Bool-cases true = inl refl
Bool-cases false = inr refl

pub Option-cases {ℓ} : {A : Type ℓ} (o : Option A) → (o ≡ none) ⊎ ((a : A) × (o ≡ some a))
Option-cases none = inl refl
Option-cases (some a) = inr (a, refl)

-- `UINT32_MAX`, and the number of values of a `uint32_t`.
abbrev pub uint32_max : ℕ
uint32_max = 0xffffffff

abbrev pub word : ℕ
word = 0x100000000

-- `(uint32_t)(a - b)`, which wraps around.
unfoldable pub sub32 : ℕ → ℕ → ℕ
sub32 a b = (a + word - b % word) % word

-- Where the difference is not negative there is no wrap.
pub sub32-le : (a b : ℕ) → b ≤ a → a < word → sub32 a b ≡ a - b
unfolding sub32
sub32-le a b h k = omega arith

-- `MOJOM_INTERNAL_ROUND_TO_8`, `(num + 7) & ~7`, where `num + 7` fits its type.
unfoldable pub round_to_8 : ℕ → ℕ
round_to_8 num = (num + 7) / 8 * 8

pub round_to_8_bounds : (n : ℕ) → (n ≤ round_to_8 n) × (round_to_8 n < n + 8)
unfolding round_to_8
round_to_8_bounds n = omega arith

-- What holds of both branches.
pub if_cases {ℓ κ} :
    {A : Type ℓ} (P : A → Type κ) (b : Bool) (x y : A) → P x → P y → P (if b then x else y)
if_cases P true x y h k = h
if_cases P false x y h k = k

pub option_cases {ℓ κ} :
    {A : Type ℓ} {B : Type 0} (P : A → Type κ) (o : Option B) (x : A) (y : B → A)
    → (o ≡ none → P x)
    → ((b : B) → o ≡ some b → P (y b))
    → P (elim o as (λ _. A) [ none ↦ x | some b ↦ y b ])
option_cases P none x y h k = h refl
option_cases P (some b) x y h k = k b refl

-- The same, where each branch may use the test.
pub if_split {ℓ κ} :
    {A : Type ℓ} (P : A → Type κ) (b : Bool) (x y : A)
    → (b ≡ true → P x)
    → (b ≡ false → P y)
    → P (if b then x else y)
if_split P true x y h k = h refl
if_split P false x y h k = k refl
