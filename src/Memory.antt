-- ===== src/Memory.antt =====
-- A mapped region of memory, byte by byte, with the little-endian 32-bit and 64-bit accesses that
-- public/c/lib/bindings makes through its casts. An access outside the region is `none`.
pub mod Laws
use mojo.Prelude.{
  ℕ, ◌+◌, ◌-◌, ◌*◌, ◌/◌, ◌%◌, Bool, ◌&&◌, Option, none, some, leb, ltb, ◌==◌, if◌then◌else◌, word,
}

pub record Memory : Type 0 where
  pub base : ℕ
  pub size : ℕ
  pub byte : ℕ → ℕ

-- The `n` bytes from `a` on lie inside the region.
unfoldable pub in_bounds : Memory → ℕ → ℕ → Bool
in_bounds m a n = leb m.base a && leb (a + n) (m.base + m.size)

unfoldable pub word32 : (ℕ → ℕ) → ℕ → ℕ
word32 f a =
    f a % 256 + f (a + 1) % 256 * 0x100 + f (a + 2) % 256 * 0x10000 + f (a + 3) % 256 * 0x1000000

unfoldable pub word64 : (ℕ → ℕ) → ℕ → ℕ
word64 f a = word32 f a + word32 f (a + 4) * word

unfoldable pub load32 : Memory → ℕ → Option ℕ
load32 m a = if in_bounds m a 4 then some (word32 m.byte a) else none

unfoldable pub load64 : Memory → ℕ → Option ℕ
load64 m a = if in_bounds m a 8 then some (word64 m.byte a) else none

unfoldable pub put32 : (ℕ → ℕ) → ℕ → ℕ → ℕ → ℕ
put32 f a v b =
    if b == a
    then v % 256
    else if b == a + 1
    then v / 0x100 % 256
    else if b == a + 2
    then v / 0x10000 % 256
    else if b == a + 3
    then v / 0x1000000 % 256
    else f b

unfoldable pub put64 : (ℕ → ℕ) → ℕ → ℕ → ℕ → ℕ
unfolding put32
put64 f a v = put32 (put32 f a v) (a + 4) (v / word)

unfoldable pub store32 : Memory → ℕ → ℕ → Option Memory
store32 m a v = if in_bounds m a 4 then some (record m { byte = put32 m.byte a v }) else none

unfoldable pub store64 : Memory → ℕ → ℕ → Option Memory
store64 m a v = if in_bounds m a 8 then some (record m { byte = put64 m.byte a v }) else none

-- `memcpy`, of `n` bytes, between ranges that do not overlap.
unfoldable pub copy_bytes : (ℕ → ℕ) → ℕ → ℕ → ℕ → ℕ → ℕ
copy_bytes f dst src n b = if leb dst b && ltb b (dst + n) then f (src + b - dst) else f b

unfoldable pub memcpy : Memory → ℕ → ℕ → ℕ → Option Memory
memcpy m dst src n =
    if in_bounds m dst n && in_bounds m src n
    then some (record m { byte = copy_bytes m.byte dst src n })
    else none
