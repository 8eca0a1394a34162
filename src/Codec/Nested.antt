-- ===== src/Codec/Nested.antt =====
-- Unions inside unions, which are pointers (MOJOM_TYPE_DESCRIPTOR_TYPE_UNION_PTR). The dispatch
-- hands the address of the pointer to the union's function, in place of the address of the union.
use mojo.Prelude.{
  ℕ, suc, ◌+◌, ◌-◌, ◌%◌, ◌≤◌, ◌<◌, ◌≡◌, ◌≢◌, inr, refl, Bool, true, false, List, [], ◌∷◌, All,
  arith, leb, ◌==◌, word, none,
}
use mojo.Memory.{Memory, in_bounds, load32, word32, word64}
use mojo.Memory.Laws.{load32_lem, load64_lem, word64-put64_self}
use mojo.Descriptor.{union_ptr, UnionEntry, Descriptors}
use mojo.Validation.{
  Context, fault as read_fault, validate_union_data, validate_pointer, follow_pointer,
  dispatch_validate,
}
use mojo.Prelude.Run.{◌>>=◌, ok}
use mojo.Codec.{World, Coder, code_union, union_is_set}
use mojo.Codec.Encode.{encode_union, encode_union_at, encode_pointer, dispatch_encode}
use mojo.Codec.Pointers.{IsCell, written, encode_pointer-written}

-- A load that begins at the end of the memory is refused.
load32_past : (m : Memory) (a : ℕ) → m.base + m.size ≤ a → load32 m a ≡ none
unfolding load32 in_bounds
load32_past m a h = ground arith

-- Where a nested union's pointer leads to the very end of the message, its offset a multiple of
-- eight below 4 GiB and not behind `next_pointer`, MojomType_DispatchValidate accepts the pointer
-- and then reads the union behind the end of the message.
pub nested_union_past_end :
    (m : Memory) (t : Descriptors) (num_handles f d p size : ℕ) (nullable : Bool) (c : Context)
    → m.base ≤ p
    → p + size ≡ m.base + m.size
    → 8 ≤ size
    → size < word
    → size % 8 ≡ 0
    → word64 m.byte p ≡ size
    → c.next_pointer ≤ p + size
    → dispatch_validate m t num_handles (suc f) union_ptr d nullable p size c ≡ read_fault
unfolding dispatch_validate follow_pointer validate_pointer validate_union_data
nested_union_past_end m t num_handles f d p size nullable c low high room small aligned offset
      next =
    rw (load64_lem m p low (omega arith), offset)
      (ground (arith, load32_past m (p + size) (omega arith)))

-- No entry carries the tag 0.
abbrev pub NoZeroTag : List UnionEntry → Type 0
NoZeroTag = All (λ (e : UnionEntry). e.tag ≢ 0)

code_union_miss :
    (code : Coder) (p size : ℕ) (es : List UnionEntry) (w : World)
    → NoZeroTag es
    → w.memory.base ≤ p
    → p + 8 ≤ w.memory.base + w.memory.size
    → word32 w.memory.byte (p + 4) ≡ 0
    → code_union code p size es w ≡ ok w
unfolding code_union
code_union_miss code p size [] w ns low high tag = refl
code_union_miss code p size (e ∷ es) w (n, ns) low high tag =
    let miss : (0 == e.tag) ≡ false = ground arith in
    rw (load32_lem w.memory (p + 4) (omega arith) (omega arith), tag, miss, code_union, ◌>>=◌)
      (code_union_miss code p size es w ns low high tag)

high_half : (f : ℕ → ℕ) (p : ℕ) → word64 f p < word → word32 f (p + 4) ≡ 0
unfolding word64
high_half f p h = omega arith

-- For a pointer that leads forward, inside its buffer of 16 bytes to 4 GiB, to a nested union in the
-- memory whose descriptor has no entry with the tag 0, MojomType_DispatchEncodePointersAndHandles
-- with any fuel from one on does what encode_pointer does and no more: whatever the union holds, it
-- is not encoded.
pub nested_union_not_encoded :
    (t : Descriptors) (f d p size : ℕ) (nullable : Bool) (w : World)
    → let q = word64 w.memory.byte p in
      IsCell w.memory p
      → p < q
      → q - p < size
      → size < word
      → 16 ≤ size
      → q + 16 ≤ w.memory.base + w.memory.size
      → NoZeroTag (t.union_at d).entries
      → dispatch_encode t (suc f) union_ptr d nullable p size w ≡ encode_pointer p size w
unfolding dispatch_encode encode_union_at encode_union union_is_set
nested_union_not_encoded t f d p size nullable w cell forward near small room inside tags =
    let q = word64 w.memory.byte p in
    let w₁ = written w p (q - p) in
    let offset : word64 w₁.memory.byte p ≡ q - p =
      word64-put64_self w.memory.byte p (q - p) (omega arith) in
    let tag : word32 w₁.memory.byte (p + 4) ≡ 0 = high_half w₁.memory.byte p (omega arith) in
    let fits : leb 16 size ≡ true = ground arith in
    rw
      (
        load64_lem w.memory p cell.low cell.high,
        encode_pointer-written w p cell size (inr (forward, near)),
        load32_lem w₁.memory q (omega (arith, cell.low)) (omega arith),
        fits,
        code_union_miss (dispatch_encode t f) p size (t.union_at d).entries w₁ tags cell.low
            (omega (arith, cell.high)) tag,
      )
      (ground arith)
