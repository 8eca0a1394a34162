-- ===== src/Bindings/Pointers.antt =====
-- Pointers in messages of the C++ bindings: EncodePointer and DecodePointerRaw of
-- bindings_serialization.cc and ValidateEncodedPointer of validation_util.cc, in
-- public/cpp/bindings/lib. Pointers have 64 bits.
use mojo.Prelude.{
  ℕ, ◌+◌, ◌-◌, ◌%◌, ◌≤◌, ◌<◌, ◌≡◌, ◌⊎◌, inl, inr, refl, ap, ◌∙◌, Bool, true, ◌&&◌, Option, none,
  some, leb, ◌==◌, if◌then◌else◌, word, uint32_max, arith, if_split, ◌*◌,
}
use mojo.Memory.{Memory, load64, store64, put64}
use mojo.Memory.Laws.{load64_lem, store64_lem, word64-put64_self}
use mojo.Bindings.{add_address}

-- `EncodePointer` of a pointer into the slot at an address. A difference of pointers is taken as
-- unsigned.
unfoldable pub encode_pointer_into : ℕ → ℕ → Memory → Option Memory
encode_pointer_into ptr slot m =
    if ptr == 0
    then store64 m slot 0
    else store64 m slot ((ptr + 0x10000000000000000 - slot) % 0x10000000000000000)

-- `DecodePointerRaw`.
unfoldable pub decode_pointer_raw : ℕ → Memory → Option ℕ
unfolding add_address
decode_pointer_raw slot m = elim (load64 m slot) [
  | none ↦ none
  | some offset ↦ some (if offset == 0 then 0 else add_address slot offset)
]

-- `ValidateEncodedPointer`.
unfoldable pub validate_encoded_pointer : ℕ → Memory → Option Bool
unfolding add_address
validate_encoded_pointer slot m = elim (load64 m slot) [
  | none ↦ none
  | some offset ↦ some (leb offset uint32_max && leb slot (add_address slot (offset % word)))
]

-- A pointer to an object, of less than 2^64, that the validation allows behind its slot.
abbrev pub IsForward : ℕ → ℕ → Type 0
IsForward ptr slot = (slot < ptr) × (ptr ≤ slot + uint32_max) × (ptr < 0x10000000000000000)

abbrev pub Coded : ℕ → ℕ → Option Memory → Type 0
Coded ptr slot none = ⊥
Coded ptr slot (some m) =
    (decode_pointer_raw slot m ≡ some ptr) × (validate_encoded_pointer slot m ≡ some true)

-- The slot holds the offset of the pointer, or 0 for a null pointer.
abbrev LeadsTo : ℕ → ℕ → ℕ → Type 0
LeadsTo ptr slot offset = ((ptr ≡ 0) × (offset ≡ 0)) ⊎ (IsForward ptr slot × (slot + offset ≡ ptr))

coded :
    (ptr slot offset : ℕ) (m : Memory)
    → load64 m slot ≡ some offset
    → slot < 0x10000000000000000
    → LeadsTo ptr slot offset
    → Coded ptr slot (some m)
unfolding decode_pointer_raw validate_encoded_pointer add_address
coded ptr slot offset m l h k = elim k [
  | inl (p, o) ↦ (
    rw (decode_pointer_raw, l) (ap some (ground arith)),
    rw (validate_encoded_pointer, l) (ap some (ground arith)),
  )
  | inr (f, o) ↦ (
    rw (decode_pointer_raw, l) (ap some (ground arith)),
    rw (validate_encoded_pointer, l) (ap some (ground arith)),
  )
]

stored :
    (ptr slot offset : ℕ) (m : Memory)
    → m.base ≤ slot
    → slot + 8 ≤ m.base + m.size
    → slot < 0x10000000000000000
    → offset < word * word
    → LeadsTo ptr slot offset
    → Coded ptr slot (store64 m slot offset)
stored ptr slot offset m low high small fits k = rw (store64_lem m slot offset low high) (
    coded ptr slot offset (record m { byte = put64 m.byte slot offset })
      (load64_lem (record m { byte = put64 m.byte slot offset }) slot low high
        ∙ ap some (word64-put64_self m.byte slot offset fits))
      small k)

-- A null pointer, and one that leads less than 4 GiB forward from its slot, is encoded in a slot that
-- lies in the memory so that ValidateEncodedPointer accepts the slot and DecodePointerRaw yields the
-- pointer again.
pub encode_pointer_into-Coded :
    (ptr slot : ℕ) (m : Memory)
    → m.base ≤ slot
    → slot + 8 ≤ m.base + m.size
    → slot < 0x10000000000000000
    → (ptr ≡ 0) ⊎ IsForward ptr slot
    → Coded ptr slot (encode_pointer_into ptr slot m)
unfolding encode_pointer_into
encode_pointer_into-Coded ptr slot m low high small k =
    if_split (Coded ptr slot) (ptr == 0) _ _
      (λ e. stored ptr slot 0 m low high small (omega arith) (inl (ground arith, refl)))
      (λ e.
        stored ptr slot _ m low high small (omega arith)
          (elim k [ inl null ↦ absurd (ground arith) | inr f ↦ inr (f, omega arith) ]))
