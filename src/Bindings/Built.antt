-- ===== src/Bindings/Built.antt =====
-- What the builders of public/cpp/bindings/lib/message_builder.cc write, and where.
use mojo.Prelude.{
  ℕ, ◌+◌, ◌-◌, ◌%◌, ◌≤◌, ◌<◌, ◌≡◌, refl, ◌∙◌, ap, none, some, false, ltb, ◌==◌, word, arith,
}
use mojo.Prelude.Run.{Run, ok, fault, ◌>>=◌, access, Returns}
use mojo.Memory.{Memory, put32, put64, word32, store32}
use mojo.Memory.Laws.{store32_lem, store64_lem, word32-put32_self, word32-put32_ne}
use mojo.Bindings.Builder.{
  FixedBuffer, size_values, align, allocate_fixed, data_size, initialize, allocate_header,
  message_builder, message_with_request_id_builder,
}

-- The bytes of a header.
abbrev pub framed : (ℕ → ℕ) → ℕ → ℕ → ℕ → ℕ → ℕ → ℕ → ℕ
framed f p num_bytes version name flags =
    put32 (put32 (put32 (put32 f p num_bytes) (p + 4) version) (p + 8) name) (p + 12) flags

pub framed-words :
    (f : ℕ → ℕ) (p num_bytes version name flags : ℕ)
    → (word32 (framed f p num_bytes version name flags) p ≡ num_bytes % word)
      × (word32 (framed f p num_bytes version name flags) (p + 4) ≡ version % word)
      × (word32 (framed f p num_bytes version name flags) (p + 12) ≡ flags % word)
framed-words f p num_bytes version name flags =
    let f₁ = put32 f p num_bytes in
    let f₂ = put32 f₁ (p + 4) version in
    let f₃ = put32 f₂ (p + 8) name in
    (
      word32-put32_ne f₃ (p + 12) flags p (omega arith)
          ∙ word32-put32_ne f₂ (p + 8) name p (omega arith)
          ∙ word32-put32_ne f₁ (p + 4) version p (omega arith)
          ∙ word32-put32_self f p num_bytes,
      word32-put32_ne f₃ (p + 12) flags (p + 4) (omega arith)
          ∙ word32-put32_ne f₂ (p + 8) name (p + 4) (omega arith)
          ∙ word32-put32_self f₁ (p + 4) version,
      word32-put32_self f₃ (p + 12) flags,
    )

aligned_size : (n : ℕ) → n % 8 ≡ 0 → n < word → align n ≡ n
unfolding align
aligned_size n a small = omega arith

pub data_size_lem :
    (n payload : ℕ)
    → n % 8 ≡ 0
    → n + payload + 8 < word
    → (n + payload ≤ data_size (n + payload)) × (data_size (n + payload) < n + payload + 8)
unfolding data_size align
data_size_lem n payload a small = omega arith

-- In a buffer that is not in use, an aligned size that fits is given its first bytes.
first_allocation :
    (ptr size n : ℕ)
    → n % 8 ≡ 0
    → 0 < n
    → n ≤ data_size size
    → data_size size < word
    → allocate_fixed n (initialize ptr size)
      ≡ (some ptr, record { ptr = ptr; cursor = n; size = data_size size })
unfolding allocate_fixed initialize
first_allocation ptr size n a positive fits small =
    let d = aligned_size n a (omega arith) in
    let some_bytes : (n == 0) ≡ false = ground arith in
    let room : ltb ((data_size size + size_values - 0) % size_values) n ≡ false = ground arith in
    let start : ptr + 0 ≡ ptr = omega arith in
    let end : (0 + n) % size_values ≡ n = omega arith in rw (d, some_bytes, room, start, end) refl

-- What a builder leaves: the bytes, and the buffer behind the header.
abbrev pub Framed : Memory → (ℕ → ℕ) → ℕ → ℕ → ℕ → Memory × FixedBuffer → Type 0
Framed m f ptr size header_size (m', b) =
    (m' ≡ record m { byte = f })
    × (b ≡ record { ptr = ptr; cursor = header_size; size = data_size size })

module _ (m : Memory) (ptr : ℕ) (low : m.base ≤ ptr) where
  -- The stores of the fields of a header, which `f` has some of already.
  stored :
      (f : ℕ → ℕ) (offset v : ℕ)
      → ptr + offset + 4 ≤ m.base + m.size
      → store32 (record m { byte = f }) (ptr + offset) v
        ≡ some (record m { byte = put32 f (ptr + offset) v })
  stored f offset v h = store32_lem (record m { byte = f }) (ptr + offset) v (omega arith) h

  first_header :
      (size n : ℕ)
      → n % 8 ≡ 0
      → 4 < n
      → n ≤ data_size size
      → data_size size < word
      → ptr + data_size size ≤ m.base + m.size
      → allocate_header n m (initialize ptr size)
        ≡ ok (
          (ptr, record m { byte = put32 m.byte ptr n }),
          record { ptr = ptr; cursor = n; size = data_size size },
        )
  unfolding allocate_header
  first_header size n a positive fits small high =
      ap
        (λ (h, b). elim h as (λ _. Run ((ℕ × Memory) × FixedBuffer)) [
          | none ↦ fault
          | some q ↦ access (store32 m q n) >>= (λ m'. ok ((q, m'), b))
        ])
        (first_allocation ptr size n a (omega arith) fits small)
      ∙ ap
          (λ o.
            access o
            >>= (λ m'. ok ((ptr, m'), record { ptr = ptr; cursor = n; size = data_size size })))
          (store32_lem m ptr n low (omega arith))

  pub message_builder-Framed :
      (name payload : ℕ)
      → payload + 32 < word
      → ptr + data_size (16 + payload) ≤ m.base + m.size
      → Returns
          (Framed m (framed m.byte ptr 16 0 name 0) ptr (16 + payload) 16)
          (message_builder m ptr name payload)
  unfolding message_builder
  message_builder-Framed name payload small high =
      let d = data_size_lem 16 payload (omega arith) (omega arith) in
      let f₁ = put32 m.byte ptr 16 in
      let f₂ = put32 f₁ (ptr + 4) 0 in
      let f₃ = put32 f₂ (ptr + 8) name in
      rw
        (
          first_header (16 + payload) 16 (omega arith) (omega arith) (omega arith) (omega arith)
              (omega arith),
          stored f₁ 4 0 (omega arith),
          stored f₂ 8 name (omega arith),
          stored f₃ 12 0 (omega arith),
        )
        (refl, refl)

  pub message_with_request_id_builder-Framed :
      (name payload flags request_id : ℕ)
      → payload + 32 < word
      → ptr + data_size (24 + payload) ≤ m.base + m.size
      → Returns
          (Framed m
            (put64 (framed m.byte ptr 24 1 name flags) (ptr + 16) request_id)
            ptr
            (24 + payload)
            24)
          (message_with_request_id_builder m ptr name payload flags request_id)
  unfolding message_with_request_id_builder
  message_with_request_id_builder-Framed name payload flags request_id small high =
      let d = data_size_lem 24 payload (omega arith) (omega arith) in
      let f₁ = put32 m.byte ptr 24 in
      let f₂ = put32 f₁ (ptr + 4) 1 in
      let f₃ = put32 f₂ (ptr + 8) name in
      let f₄ = put32 f₃ (ptr + 12) flags in
      rw
        (
          first_header (24 + payload) 24 (omega arith) (omega arith) (omega arith) (omega arith)
              (omega arith),
          stored f₁ 4 1 (omega arith),
          stored f₂ 8 name (omega arith),
          stored f₃ 12 flags (omega arith),
          store64_lem (record m { byte = f₄ }) (ptr + 16) request_id (omega arith) (omega arith),
        )
        (refl, refl)
