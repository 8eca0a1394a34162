-- ===== src/Codec/Handles.antt =====
-- encode_handle moves a handle into the array, and decode_handle moves it out again.
use mojo.Prelude.{
  ℕ, ◌+◌, ◌≤◌, ◌<◌, ◌≡◌, ◌≢◌, ◌⊎◌, ◌∙◌, inl, inr, refl, Bool, true, false, arith, ◌==◌,
  if◌then◌else◌, uint32_max, length, set, get_elem?-set_self, set-set,
}
use mojo.Memory.{Memory, word32, put32}
use mojo.Memory.Laws.{load32_lem, store32_lem, word32-put32_self, word32-put32_ne, word32-lt}
use mojo.Validation.{encoded_handle_invalid}
use mojo.Prelude.Run.{ok, ◌>>=◌}
use mojo.Codec.{World, handle_invalid}
use mojo.Codec.Encode.{encode_handle}
use mojo.Codec.Decode.{decode_handle}
use mojo.Prelude.Run.{Returns}

-- A handle that can be encoded: there is room in the array, or it is null and may be.
abbrev pub Encodable : World → Bool → ℕ → Type 0
Encodable w nullable h =
    ((h ≡ handle_invalid) × (nullable ≡ true))
    ⊎ ((h ≢ handle_invalid) × (w.num_handles_used < length w.handles))

-- The handle `h` is back at `p`, the array keeps no copy of it, and the count tells whether one
-- was moved. The rest of the memory is as it was.
pub record IsBack (w w' : World) (p h : ℕ) : Type 0 where
  pub restored : word32 w'.memory.byte p ≡ h
  pub handles :
      w'.handles
      ≡ (if h == handle_invalid then w.handles else set w.handles w.num_handles_used handle_invalid)
  pub used : w'.num_handles_used ≡ w.num_handles_used + (if h == handle_invalid then 0 else 1)
  pub rest : (a : ℕ) → (p + 4 ≤ a) ⊎ (a + 4 ≤ p) → word32 w'.memory.byte a ≡ word32 w.memory.byte a

module _ (w : World) (nullable : Bool) (p : ℕ) (low : w.memory.base ≤ p)
    (high : p + 4 ≤ w.memory.base + w.memory.size) where
  abbrev stored : ℕ → Memory
  stored v = record (w.memory) { byte = put32 w.memory.byte p v }

  encode_null :
      word32 w.memory.byte p ≡ handle_invalid
      → nullable ≡ true
      → encode_handle nullable p w ≡ ok (record w { memory = stored encoded_handle_invalid })
  unfolding encode_handle
  encode_null e n =
      rw (
        load32_lem w.memory p low high,
        e,
        n,
        store32_lem w.memory p encoded_handle_invalid low high,
      )

  encode_moved :
      word32 w.memory.byte p ≢ handle_invalid
      → w.num_handles_used < length w.handles
      → encode_handle nullable p w
        ≡ ok (record w {
          memory = stored w.num_handles_used;
          handles = set w.handles w.num_handles_used (word32 w.memory.byte p);
          num_handles_used = w.num_handles_used + 1;
        })
  unfolding encode_handle
  encode_moved set? room =
      rw (load32_lem w.memory p low high, store32_lem w.memory p w.num_handles_used low high)
        (ground arith)

  twice_rest :
      (u v a : ℕ)
      → (p + 4 ≤ a) ⊎ (a + 4 ≤ p)
      → word32 (put32 (put32 w.memory.byte p u) p v) a ≡ word32 w.memory.byte a
  twice_rest u v a away =
      word32-put32_ne (put32 w.memory.byte p u) p v a away
      ∙ word32-put32_ne w.memory.byte p u a away

  null-IsBack :
      word32 w.memory.byte p ≡ handle_invalid
      → Returns
          (λ w'. IsBack w w' p (word32 w.memory.byte p))
          (decode_handle p (record w { memory = stored encoded_handle_invalid }))
  unfolding decode_handle
  null-IsBack e =
      let m₁ = stored encoded_handle_invalid in
      rw
        (
          load32_lem m₁ p low high,
          word32-put32_self w.memory.byte p encoded_handle_invalid,
          store32_lem m₁ p handle_invalid low high,
          e,
        )
        (record {
          restored = word32-put32_self m₁.byte p handle_invalid;
          handles = refl;
          used = omega arith;
          rest = twice_rest encoded_handle_invalid handle_invalid;
        })

  moved-IsBack :
      word32 w.memory.byte p ≢ handle_invalid
      → w.num_handles_used < length w.handles
      → length w.handles ≤ uint32_max
      → let h = word32 w.memory.byte p in
        Returns
          (λ w'. IsBack w w' p h)
          (decode_handle p (record w {
            memory = stored w.num_handles_used;
            handles = set w.handles w.num_handles_used h;
            num_handles_used = w.num_handles_used + 1;
          }))
  unfolding decode_handle
  moved-IsBack set? room few =
      let h = word32 w.memory.byte p in
      let u = w.num_handles_used in
      let m₁ = stored u in
      let index : word32 m₁.byte p ≡ u = omega (arith, word32-put32_self w.memory.byte p u) in
      let real : (u == encoded_handle_invalid) ≡ false = ground arith in
      rw
        (
          load32_lem m₁ p low high,
          index,
          real,
          get_elem?-set_self w.handles u h room,
          store32_lem m₁ p h low high,
        )
        (record {
          restored = omega (arith, word32-put32_self m₁.byte p h, word32-lt w.memory.byte p);
          handles = ground (arith, set-set w.handles u h handle_invalid);
          used = ground arith;
          rest = twice_rest u h;
        })

  -- For a handle in the memory that is null and may be, or has room in an array of fewer than 2 ^ 32
  -- handles, encoding and then decoding end with no failed assertion and give the handle back. A
  -- handle that was moved is no longer in its place in the array and is counted, a null one changes
  -- neither, and no 32-bit word of memory outside the handle changes.
  pub decode_handle-encode_handle :
      Encodable w nullable (word32 w.memory.byte p)
      → length w.handles ≤ uint32_max
      → Returns
          (λ w'. IsBack w w' p (word32 w.memory.byte p))
          (encode_handle nullable p w >>= decode_handle p)
  decode_handle-encode_handle (inl (e, n)) few = rw (encode_null e n) (null-IsBack e)
  decode_handle-encode_handle (inr (set?, room)) few =
      rw (encode_moved set? room) (moved-IsBack set? room few)
