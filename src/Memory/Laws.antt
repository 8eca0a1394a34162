-- ===== src/Memory/Laws.antt =====
-- What is read where: the laws of loads after stores, and of accesses inside the region.
use mojo.Prelude.{ℕ, ◌*◌, ◌/◌, inr, ◌∙◌, ◌+◌, ◌%◌, ◌≤◌, ◌<◌, ◌≡◌, ◌⊎◌, true, some, arith, word}
use mojo.Memory.{Memory, in_bounds, word32, word64, load32, load64, put32, put64, store32, store64}

pub word32-lt : (f : ℕ → ℕ) (a : ℕ) → word32 f a < word
unfolding word32
word32-lt f a = omega arith

pub in_bounds_lem :
    (m : Memory) (a n : ℕ) → m.base ≤ a → a + n ≤ m.base + m.size → in_bounds m a n ≡ true
unfolding in_bounds
in_bounds_lem m a n h k = ground arith

module _ (m : Memory) (a : ℕ) (low : m.base ≤ a) where
  pub load32_lem : a + 4 ≤ m.base + m.size → load32 m a ≡ some (word32 m.byte a)
  unfolding load32
  load32_lem h = rw (in_bounds_lem m a 4 low h)

  pub load64_lem : a + 8 ≤ m.base + m.size → load64 m a ≡ some (word64 m.byte a)
  unfolding load64
  load64_lem h = rw (in_bounds_lem m a 8 low h)

pub word32-put32_self : (f : ℕ → ℕ) (a v : ℕ) → word32 (put32 f a v) a ≡ v % word
unfolding word32 put32
word32-put32_self f a v = ground arith

pub word32-put32_ne :
    (f : ℕ → ℕ) (a v b : ℕ) → (a + 4 ≤ b) ⊎ (b + 4 ≤ a) → word32 (put32 f a v) b ≡ word32 f b
unfolding word32 put32
word32-put32_ne f a v b h = ground arith

pub store32_lem :
    (m : Memory) (a v : ℕ)
    → m.base ≤ a
    → a + 4 ≤ m.base + m.size
    → store32 m a v ≡ some (record m { byte = put32 m.byte a v })
unfolding store32
store32_lem m a v low h = rw (in_bounds_lem m a 4 low h)

pub store64_lem :
    (m : Memory) (a v : ℕ)
    → m.base ≤ a
    → a + 8 ≤ m.base + m.size
    → store64 m a v ≡ some (record m { byte = put64 m.byte a v })
unfolding store64
store64_lem m a v low h = rw (in_bounds_lem m a 8 low h)

pub word64-put64_self : (f : ℕ → ℕ) (a v : ℕ) → v < word * word → word64 (put64 f a v) a ≡ v
unfolding word64 put64
word64-put64_self f a v h = omega (
  arith,
  word32-put32_ne (put32 f a v) (a + 4) (v / word) a (inr (omega arith)),
  word32-put32_self f a v,
  word32-put32_self (put32 f a v) (a + 4) (v / word),
)

pub word32-put64_ne :
    (f : ℕ → ℕ) (a v b : ℕ) → (a + 8 ≤ b) ⊎ (b + 4 ≤ a) → word32 (put64 f a v) b ≡ word32 f b
unfolding put64
word32-put64_ne f a v b h =
    word32-put32_ne (put32 f a v) (a + 4) (v / word) b (omega arith)
    ∙ word32-put32_ne f a v b (omega arith)

pub word64-put64_ne :
    (f : ℕ → ℕ) (a v b : ℕ) → (a + 8 ≤ b) ⊎ (b + 8 ≤ a) → word64 (put64 f a v) b ≡ word64 f b
unfolding word64
word64-put64_ne f a v b h =
    omega
      (arith, word32-put64_ne f a v b (omega arith), word32-put64_ne f a v (b + 4) (omega arith))
