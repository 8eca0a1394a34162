-- ===== src/Buffer/Arrays.antt =====
-- What MojomArray_New promises.
use mojo.Prelude.{
  ℕ, ◌+◌, ◌*◌, ◌%◌, ◌≤◌, ◌<◌, ◌≡◌, ◌⊎◌, Option, none, some, arith, ltb, ltb→lt, Bool-cases, inl,
  inr, word, round_to_8, round_to_8_bounds, uint32_max, ◌==◌, ◌∙◌, if◌then◌else◌, true, refl,
}
use mojo.Memory.{Memory, word32, put32}
use mojo.Memory.Laws.{store32_lem, word32-put32_self, word32-put32_ne}
use mojo.Buffer.{Buffer, NewArray, null, array, fault, write_header, new_array}
use mojo.Buffer.Allocate.{IsBuffer, Allocated, allocate-Allocated}

-- The buffer lies in the memory.
pub record Backs (m : Memory) (b : Buffer) : Type 0 where
  pub low : m.base ≤ b.buf
  pub high : b.buf + b.buf_size ≤ m.base + m.size

-- The header of an array of `bytes` bytes in all, rounded up, and `n` elements.
pub record HasHeader (m m' : Memory) (p bytes n : ℕ) : Type 0 where
  pub num_bytes : word32 m'.byte p ≡ round_to_8 bytes
  pub num_elements : word32 m'.byte (p + 4) ≡ n
  pub rest : (a : ℕ) → (p + 8 ≤ a) ⊎ (a + 4 ≤ p) → word32 m'.byte a ≡ word32 m.byte a

abbrev pub Made : Memory → Buffer → ℕ → ℕ → NewArray → Type 0
Made m b n bytes (null b') = (b' ≡ b) × (b.buf_size < b.num_bytes_used + round_to_8 bytes)
Made m b n bytes (array p m' b') = Allocated b bytes (some p) b' × HasHeader m m' p bytes n
Made m b n bytes fault = ⊥

module _ (m : Memory) (b : Buffer) (n : ℕ) (count : n < word) (ok : IsBuffer b)
    (backs : Backs m b) where
  write_header-Made :
      (p bytes : ℕ) (b' : Buffer)
      → Allocated b bytes (some p) b'
      → 8 ≤ bytes
      → Made m b n bytes (write_header m b' p bytes n)
  unfolding write_header
  write_header-Made p bytes b' got header =
      let (at, used, buf, size, ok') = got in
      let m₁ : Memory = record m { byte = put32 m.byte (p + 4) n } in
      let total = round_to_8 bytes in
      let small : total < word = omega (arith, ok'.within, ok'.small, size) in
      rw
        (
          store32_lem m (p + 4) n (omega (arith, backs.low))
              (omega (arith, backs.high, ok'.within, round_to_8_bounds bytes)),
          store32_lem m₁ p (total % word) (omega (arith, backs.low))
              (omega (arith, backs.high, ok'.within, round_to_8_bounds bytes)),
          write_header,
        )
        (
          got,
          record {
            num_bytes = omega (arith, word32-put32_self m₁.byte p (total % word));
            num_elements = omega (
              arith,
              word32-put32_ne m₁.byte p (total % word) (p + 4) (inl (omega arith)),
              word32-put32_self m.byte (p + 4) n,
            );
            rest = λ a away.
                word32-put32_ne m₁.byte p (total % word) a (omega arith)
                ∙ word32-put32_ne m.byte (p + 4) n a (omega arith);
          },
        )

  Allocated-Made :
      (bytes : ℕ) (p : Option ℕ) (b' : Buffer)
      → Allocated b bytes p b'
      → 8 ≤ bytes
      → Made m b n bytes (elim p [
        | none ↦ null b'
        | some arr ↦
            if arr + round_to_8 bytes == b'.buf + b'.num_bytes_used
            then write_header m b' arr bytes n
            else fault
      ])
  Allocated-Made bytes none b' got header = got
  Allocated-Made bytes (some p) b' got header =
      let (at, used, buf, size, ok') = got in
      let meets : (p + round_to_8 bytes == b'.buf + b'.num_bytes_used) ≡ true = ground arith in
      rw meets (write_header-Made p bytes b' got header)

  -- With a 32-bit count of elements and a well-formed buffer that lies in the memory, MojomArray_New
  -- returns NULL only for want of room, and the buffer is then as before; else it allocates, and
  -- the header holds the size rounded up, with no wrap, and the count, and no 32-bit word outside
  -- the header changes. No assertion fails.
  pub new_array-Made :
      (element_byte_size : ℕ)
      → let bytes = 8 + n * element_byte_size in
        Made m b n bytes (new_array m b n element_byte_size)
  unfolding new_array
  new_array-Made element_byte_size =
      let bytes = 8 + n * element_byte_size in
      elim (Bool-cases (ltb uint32_max bytes)) [
        | inl huge ↦
            rw huge
              (refl, omega (arith, ok.small, round_to_8_bounds bytes, ltb→lt uint32_max bytes huge))
        | inr fits ↦
            rw fits (Allocated-Made bytes _ _ (allocate-Allocated b bytes ok) (omega arith))
      ]
