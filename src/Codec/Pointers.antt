-- ===== src/Codec/Pointers.antt =====
-- encode_pointer and decode_pointer undo one another.
use mojo.Prelude.{ℕ, ◌+◌, ◌-◌, ◌*◌, ◌≤◌, ◌<◌, ◌≡◌, ◌⊎◌, ◌∙◌, refl, arith, ◌==◌, word, if◌then◌else◌}
use mojo.Memory.{Memory, word32, word64, put64}
use mojo.Memory.Laws.{load64_lem, store64_lem, word64-put64_self, word32-put64_ne, word32-lt}
use mojo.Prelude.Run.{Returns, ok, ◌>>=◌}
use mojo.Codec.{World}
use mojo.Codec.Encode.{encode_pointer}
use mojo.Codec.Decode.{decode_pointer}

-- A cell of eight bytes inside the memory.
pub record IsCell (m : Memory) (p : ℕ) : Type 0 where
  pub low : m.base ≤ p
  pub high : p + 8 ≤ m.base + m.size

-- `w'` holds `v` at `p`, and is like `w` in everything else.
pub record IsWrite (w w' : World) (p v : ℕ) : Type 0 where
  pub written : word64 w'.memory.byte p ≡ v
  pub base : w'.memory.base ≡ w.memory.base
  pub size : w'.memory.size ≡ w.memory.size
  pub handles : w'.handles ≡ w.handles
  pub used : w'.num_handles_used ≡ w.num_handles_used
  pub rest : (a : ℕ) → (p + 8 ≤ a) ⊎ (a + 4 ≤ p) → word32 w'.memory.byte a ≡ word32 w.memory.byte a

-- The one change that both make.
abbrev pub written : World → ℕ → ℕ → World
written w p v = record w { memory = record (w.memory) { byte = put64 w.memory.byte p v } }

written-IsWrite : (w : World) (p v : ℕ) → v < word * word → IsWrite w (written w p v) p v
written-IsWrite w p v small = record {
  written = word64-put64_self w.memory.byte p v small;
  base = refl;
  size = refl;
  handles = refl;
  used = refl;
  rest = λ a away. word32-put64_ne w.memory.byte p v a away;
}

pub word64-lt : (f : ℕ → ℕ) (a : ℕ) → word64 f a < word * word
unfolding word64
word64-lt f a = omega (arith, word32-lt f a, word32-lt f (a + 4))

module _ (w : World) (p : ℕ) (cell : IsCell w.memory p) where
  abbrev pub ptr : ℕ
  ptr = word64 w.memory.byte p

  -- A null pointer stays null, and one that leads forward, by less than `max_offset`, becomes
  -- the distance.
  pub encode_pointer-written :
      (max_offset : ℕ)
      → (ptr ≡ 0) ⊎ ((p < ptr) × (ptr - p < max_offset))
      → encode_pointer p max_offset w ≡ ok (written w p (ptr - p))
  unfolding encode_pointer
  encode_pointer-written max_offset h =
      rw
        (
          load64_lem w.memory p cell.low cell.high,
          store64_lem w.memory p 0 cell.low cell.high,
          store64_lem w.memory p (ptr - p) cell.low cell.high,
        )
        (ground arith)

  pub decode_pointer-written :
      decode_pointer p w ≡ ok (written w p (if ptr == 0 then 0 else p + ptr))
  unfolding decode_pointer
  decode_pointer-written =
      rw (load64_lem w.memory p cell.low cell.high, store64_lem w.memory p _ cell.low cell.high)

IsWrite-twice :
    (w : World) (p u v : ℕ) → v < word * word → IsWrite w (written (written w p u) p v) p v
IsWrite-twice w p u v small = record {
  written = word64-put64_self (put64 w.memory.byte p u) p v small;
  base = refl;
  size = refl;
  handles = refl;
  used = refl;
  rest = λ a away.
      word32-put64_ne (put64 w.memory.byte p u) p v a away
      ∙ word32-put64_ne w.memory.byte p u a away;
}

module _ (w : World) (p max_offset : ℕ) (cell : IsCell w.memory p) where
  -- For a pointer in the memory that is null, or leads forward by less than `max_offset`, encoding
  -- and then decoding end with no failed assertion, give the pointer back, and change no 32-bit
  -- word outside it, nor the handles.
  pub decode_pointer-encode_pointer :
      let ptr = word64 w.memory.byte p in
      (ptr ≡ 0) ⊎ ((p < ptr) × (ptr - p < max_offset))
      → Returns (λ w'. IsWrite w w' p ptr) (encode_pointer p max_offset w >>= decode_pointer p)
  decode_pointer-encode_pointer h =
      let q = word64 w.memory.byte p in
      let w₁ = written w p (q - p) in
      let cell₁ : IsCell w₁.memory p = record { low = cell.low; high = cell.high } in
      let small = word64-lt w.memory.byte p in
      let stored : word64 w₁.memory.byte p ≡ q - p =
        word64-put64_self w.memory.byte p (q - p) (omega arith) in
      let value : (if word64 w₁.memory.byte p == 0 then 0 else p + word64 w₁.memory.byte p) ≡ q =
        ground arith in
      rw (encode_pointer-written w p cell max_offset h, decode_pointer-written w₁ p cell₁, value)
        (IsWrite-twice w p (q - p) q small)

  -- For an offset in the memory, less than `max_offset`, whose target has a 64-bit address, decoding
  -- and then encoding end with no failed assertion, give the offset back, and change no 32-bit word
  -- outside it, nor the handles.
  pub encode_pointer-decode_pointer :
      let offset = word64 w.memory.byte p in
      offset < max_offset
      → p + offset < word * word
      → Returns (λ w'. IsWrite w w' p offset) (decode_pointer p w >>= encode_pointer p max_offset)
  encode_pointer-decode_pointer near addressed =
      let o = word64 w.memory.byte p in
      let v = if o == 0 then 0 else p + o in
      let w₁ = written w p v in
      let cell₁ : IsCell w₁.memory p = record { low = cell.low; high = cell.high } in
      let stored : word64 w₁.memory.byte p ≡ v =
        word64-put64_self w.memory.byte p v (ground arith) in
      let value : word64 w₁.memory.byte p - p ≡ o = ground arith in
      rw
        (
          decode_pointer-written w p cell,
          encode_pointer-written w₁ p cell₁ max_offset (ground arith),
          value,
        )
        (IsWrite-twice w p v o (omega arith))
