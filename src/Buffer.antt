-- ===== src/Buffer.antt =====
-- MojomBuffer_Allocate (public/c/lib/bindings/buffer.c) and MojomArray_New
-- (public/c/lib/bindings/array.c): a bump allocator over a caller's buffer, and arrays in it.
pub mod Allocate
pub mod Arrays
use mojo.Prelude.{
  ℕ, ◌+◌, ◌-◌, ◌*◌, ◌%◌, Option, none, some, ltb, if◌then◌else◌, uint32_max, word, round_to_8, ◌==◌,
  List, [], ◌∷◌,
}
use mojo.Memory.{Memory, store32}

-- `struct MojomBuffer`.
pub record Buffer : Type 0 where
  pub buf : ℕ
  pub buf_size : ℕ
  pub num_bytes_used : ℕ

-- `MojomBuffer_Allocate`: the address, unless there is no room, and the buffer behind it. The sum
-- is taken in 64 bits; the counter has 32.
unfoldable pub allocate : Buffer → ℕ → Option ℕ × Buffer
unfolding round_to_8
allocate b num_bytes =
    let bytes_used = b.num_bytes_used in
    let size = round_to_8 num_bytes in
    if ltb b.buf_size (bytes_used + size)
    then (none, b)
    else (some (b.buf + bytes_used), record b { num_bytes_used = (b.num_bytes_used + size) % word })

unfoldable pub collect : Option ℕ → ℕ → List (ℕ × ℕ) → List (ℕ × ℕ)
collect none n rs = rs
collect (some a) n rs = (a, n) ∷ rs

-- Requests made one after the other: the addresses that were given out, with what was asked for.
unfoldable pub allocate_all : Buffer → List ℕ → List (ℕ × ℕ) × Buffer
unfolding allocate collect
allocate_all b [] = ([], b)
allocate_all b (n ∷ ns) =
    let (p, b') = allocate b n in let (rs, b'') = allocate_all b' ns in (collect p n rs, b'')

-- How `MojomArray_New` ends. `null` leaves the memory as it was; a failed assertion is a fault.
pub data NewArray : Type 0 where
  null : Buffer → NewArray
  array : ℕ → Memory → Buffer → NewArray
  fault : NewArray

unfoldable pub write_header : Memory → Buffer → ℕ → ℕ → ℕ → NewArray
write_header m b arr num_bytes num_elements = elim (store32 m (arr + 4) num_elements) [
  | none ↦ fault
  | some m ↦ elim (store32 m arr (round_to_8 num_bytes % word)) [
    | none ↦ fault
    | some m ↦ array arr m b
  ]
]

-- `MojomArray_New`. `(uint64_t)num_elements * element_byte_size` does not wrap in 64 bits.
unfoldable pub new_array : Memory → Buffer → ℕ → ℕ → NewArray
unfolding write_header
new_array m b num_elements element_byte_size =
    let num_bytes = 8 + num_elements * element_byte_size in
    if ltb uint32_max num_bytes
    then null b
    else (let (p, b') = allocate b num_bytes in
        elim p [
          | none ↦ null b'
          | some arr ↦
              if arr + round_to_8 num_bytes == b'.buf + b'.num_bytes_used
              then write_header m b' arr num_bytes num_elements
              else fault
        ])
