-- ===== src/Copy/Nested.antt =====
-- The size of a union inside a union, or in another slot that holds a pointer to it.
use mojo.Prelude.{ℕ, suc, ◌+◌, ◌≤◌, ◌<◌, ◌≡◌, refl, Bool, false, List, [], ◌∷◌, arith, ◌==◌, word}
use mojo.Memory.{Memory, word32, word64}
use mojo.Memory.Laws.{load32_lem, load64_lem}
use mojo.Descriptor.{union_ptr, UnionEntry, Descriptors}
use mojo.Prelude.Run.{ok, ◌>>=◌}
use mojo.Codec.{union_is_set}
use mojo.Codec.Nested.{NoZeroTag}
use mojo.Copy.Sizes.{Sizer, size_member, size_union, size_union_at, add_size, dispatch_size}

size_member_miss :
    (sizer : Sizer) (m : Memory) (p : ℕ) (es : List UnionEntry)
    → NoZeroTag es
    → m.base ≤ p
    → p + 8 ≤ m.base + m.size
    → word32 m.byte (p + 4) ≡ 0
    → size_member sizer m p es ≡ ok 0
unfolding size_member
size_member_miss sizer m p [] ns low high tag = refl
size_member_miss sizer m p (e ∷ es) (n, ns) low high tag =
    let miss : (0 == e.tag) ≡ false = ground arith in
    rw (load32_lem m (p + 4) (omega arith) (omega arith), tag, miss, size_member, ◌>>=◌)
      (size_member_miss sizer m p es ns low high tag)

high_half : (f : ℕ → ℕ) (p : ℕ) → word64 f p < word → word32 f (p + 4) ≡ 0
unfolding word64
high_half f p h = omega arith

-- For a pointer below 4 GiB to a nested union in the memory whose descriptor has no entry with the
-- tag 0, MojomType_DispatchComputeSerializedSize with any fuel from one on counts the 16 bytes of the
-- union, and whatever the union points at is not counted.
pub nested_union_not_counted :
    (t : Descriptors) (m : Memory) (f d p : ℕ) (nullable : Bool)
    → let q = word64 m.byte p in
      0 < p
      → m.base ≤ p
      → p + 8 ≤ m.base + m.size
      → 0 < q
      → q < word
      → m.base ≤ q
      → q + 16 ≤ m.base + m.size
      → NoZeroTag (t.union_at d).entries
      → dispatch_size t m (suc f) union_ptr d nullable p ≡ ok 16
unfolding dispatch_size size_union_at size_union union_is_set add_size
nested_union_not_counted t m f d p nullable some_p low high some_q small below above tags =
    rw
      (
        load64_lem m p low high,
        load32_lem m (word64 m.byte p) below (omega arith),
        size_member_miss (dispatch_size t m f) m p (t.union_at d).entries tags low high
            (high_half m.byte p small),
      )
      (ground arith)
