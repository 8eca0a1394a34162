-- ===== src/Copy/Exact.antt =====
-- The copy of one object: the bytes are those of the source, and nothing else is written.
use mojo.Prelude.{
  ℕ, ◌+◌, ◌*◌, ◌≤◌, ◌<◌, ◌≡◌, ◌⊎◌, inl, inr, refl, true, false, some, arith, ltb, leb, ◌&&◌, ◌==◌,
  word, round_to_8, round_to_8_bounds, ap, ◌∙◌,
}
use mojo.Memory.{Memory, memcpy, word32, word64, put64, put32, copy_bytes}
use mojo.Memory.Laws.{load32_lem, store64_lem, in_bounds_lem, word32-put64_ne, word64-put64_self}
use mojo.Buffer.{allocate}
use mojo.Buffer.Allocate.{IsBuffer}
use mojo.Descriptor.{ArrayDescriptor, is_pod}
use mojo.Prelude.Run.{ok, fault, out_of_fuel}
use mojo.Copy.{Heap, Copied, Copier, copy_object, copy_array}

-- Where the buffer has its next free byte.
abbrev pub next_free : Heap → ℕ
next_free h = h.buffer.buf + h.buffer.num_bytes_used

-- The `n` bytes from `a` on and the `k` bytes from `b` on have none in common.
abbrev pub Apart : ℕ → ℕ → ℕ → ℕ → Type 0
Apart a n b k = (a + n ≤ b) ⊎ (b + k ≤ a)

-- The source is an object of `n` bytes by its header; it and the slot for the pointer are in the
-- memory, and so is the buffer, which has room for a copy; no two of the three overlap.
pub record IsCopyable (h : Heap) (in_object out_object n : ℕ) : Type 0 where
  pub buffer : IsBuffer h.buffer
  pub room : h.buffer.num_bytes_used + round_to_8 n ≤ h.buffer.buf_size
  pub buf_low : h.memory.base ≤ h.buffer.buf
  pub buf_high : h.buffer.buf + h.buffer.buf_size ≤ h.memory.base + h.memory.size
  pub addresses : h.memory.base + h.memory.size ≤ word * word
  pub not_null : 0 < h.memory.base
  pub header : word32 h.memory.byte in_object ≡ n
  pub has_header : 8 ≤ n
  pub in_low : h.memory.base ≤ in_object
  pub in_high : in_object + n ≤ h.memory.base + h.memory.size
  pub out_low : h.memory.base ≤ out_object
  pub out_high : out_object + 8 ≤ h.memory.base + h.memory.size
  pub slot_and_source : Apart out_object 8 in_object n
  pub slot_and_copy : Apart out_object 8 (next_free h) n
  pub source_and_copy : Apart in_object n (next_free h) n

-- The heap after the copy.
abbrev copied_heap : Heap → ℕ → ℕ → ℕ → Heap
copied_heap h in_object out_object n = record {
  memory = record h.memory {
    byte = copy_bytes (put64 h.memory.byte out_object (next_free h)) (next_free h) in_object n;
  };
  buffer = (allocate h.buffer n).1;
}

-- The slot holds the address of the copy, the copy has the bytes of the source, and all else is as
-- it was but for the bytes that are taken from the buffer.
pub record Exact (h : Heap) (in_object out_object n : ℕ) (h' : Heap) : Type 0 where
  pub placed : word64 h'.memory.byte out_object ≡ next_free h
  pub bytes : (i : ℕ) → i < n → h'.memory.byte (next_free h + i) ≡ h.memory.byte (in_object + i)
  pub rest :
      (a : ℕ)
      → Apart out_object 8 a 1
      → Apart (next_free h) n a 1
      → h'.memory.byte a ≡ h.memory.byte a
  pub taken : h'.buffer.num_bytes_used ≡ h.buffer.num_bytes_used + round_to_8 n

-- A copy that returns true, in a heap with the property.
abbrev pub Succeeds : (Heap → Type 0) → Copied → Type 0
Succeeds P (ok (true, h)) = P h
Succeeds P (ok (false, h)) = ⊥
Succeeds P fault = ⊥
Succeeds P out_of_fuel = ⊥

put64_ne : (f : ℕ → ℕ) (a v b : ℕ) → Apart a 8 b 1 → put64 f a v b ≡ f b
unfolding put64 put32
put64_ne f a v b h = ground arith

word64_same :
    (f g : ℕ → ℕ) (a : ℕ) → ((b : ℕ) → a ≤ b → b < a + 8 → f b ≡ g b) → word64 f a ≡ word64 g a
unfolding word64 word32
word64_same f g a h =
    rw
      (
        h a (omega arith) (omega arith),
        h (a + 1) (omega arith) (omega arith),
        h (a + 2) (omega arith) (omega arith),
        h (a + 3) (omega arith) (omega arith),
        h (a + 4) (omega arith) (omega arith),
        h (a + 4 + 1) (omega arith) (omega arith),
        h (a + 4 + 2) (omega arith) (omega arith),
        h (a + 4 + 3) (omega arith) (omega arith),
      )
      refl

copy_bytes-inside :
    (f : ℕ → ℕ) (dst src n i : ℕ) → i < n → copy_bytes f dst src n (dst + i) ≡ f (src + i)
unfolding copy_bytes
copy_bytes-inside f dst src n i l =
    let inside : (leb dst (dst + i) && ltb (dst + i) (dst + n)) ≡ true = ground arith in
    rw inside (ap f (omega arith))

copy_bytes-outside :
    (f : ℕ → ℕ) (dst src n b : ℕ) → Apart dst n b 1 → copy_bytes f dst src n b ≡ f b
unfolding copy_bytes
copy_bytes-outside f dst src n b apart = ground arith

allocate-next_free :
    (h : Heap) (n : ℕ)
    → IsBuffer h.buffer
    → h.buffer.num_bytes_used + round_to_8 n ≤ h.buffer.buf_size
    → ((allocate h.buffer n).0 ≡ some (next_free h))
      × ((allocate h.buffer n).1.num_bytes_used ≡ h.buffer.num_bytes_used + round_to_8 n)
unfolding allocate
allocate-next_free h n w room = ground (arith, w.small)

Apart-one : (a n b k x : ℕ) → Apart a n b k → a ≤ x → x < a + n → Apart b k x 1
Apart-one a n b k x (inl h) l r = inr (omega arith)
Apart-one a n b k x (inr h) l r = inl (omega arith)

Apart-at : (a n b k i : ℕ) → Apart a n b k → i < k → Apart a n (b + i) 1
Apart-at a n b k i (inl h) l = inl (omega arith)
Apart-at a n b k i (inr h) l = inr (omega arith)

free_below :
    (h : Heap) (n : ℕ)
    → 8 ≤ n
    → h.buffer.num_bytes_used + round_to_8 n ≤ h.buffer.buf_size
    → h.buffer.buf + h.buffer.buf_size ≤ h.memory.base + h.memory.size
    → h.memory.base + h.memory.size ≤ word * word
    → next_free h < word * word
free_below h n some_n room high below = omega (arith, round_to_8_bounds n)

copied_heap-Exact :
    (h : Heap) (in_object out_object n : ℕ)
    → IsCopyable h in_object out_object n
    → Exact h in_object out_object n (copied_heap h in_object out_object n)
copied_heap-Exact h in_object out_object n c =
    let p = next_free h in
    let f = put64 h.memory.byte out_object p in
    record {
      placed =
          word64_same (copy_bytes f p in_object n) f out_object (λ b low high.
            copy_bytes-outside f p in_object n b
              (Apart-one out_object 8 p n b c.slot_and_copy low high))
          ∙ word64-put64_self h.memory.byte out_object p
              (free_below h n c.has_header c.room c.buf_high c.addresses);
      bytes = λ i l.
          copy_bytes-inside f p in_object n i l
          ∙ put64_ne h.memory.byte out_object p (in_object + i)
              (Apart-at out_object 8 in_object n i c.slot_and_source l);
      rest =
          λ a x y. copy_bytes-outside f p in_object n a y ∙ put64_ne h.memory.byte out_object p a x;
      taken = (allocate-next_free h n c.buffer c.room).1;
    }

slot_and_header :
    (out_object in_object n : ℕ)
    → 8 ≤ n
    → Apart out_object 8 in_object n
    → (out_object + 8 ≤ in_object) ⊎ (in_object + 4 ≤ out_object)
slot_and_header out_object in_object n some_n (inl h) = inl h
slot_and_header out_object in_object n some_n (inr h) = inr (omega arith)

some_address : (a : ℕ) → 0 < a → (a == 0) ≡ false
some_address a h = ground arith

memcpy_lem :
    (m : Memory) (dst src n : ℕ)
    → m.base ≤ dst
    → dst + n ≤ m.base + m.size
    → m.base ≤ src
    → src + n ≤ m.base + m.size
    → memcpy m dst src n ≡ some (record m { byte = copy_bytes m.byte dst src n })
unfolding memcpy
memcpy_lem m dst src n l h l' h' = rw (in_bounds_lem m dst n l h, in_bounds_lem m src n l' h')

copy_object-copied_heap :
    (h : Heap) (in_object out_object n : ℕ)
    → IsCopyable h in_object out_object n
    → copy_object in_object out_object h ≡ ok (true, copied_heap h in_object out_object n)
unfolding copy_object
copy_object-copied_heap h in_object out_object n c =
    let m : Memory = record h.memory { byte = put64 h.memory.byte out_object (next_free h) } in
    let not_null : (next_free h == 0) ≡ false =
      some_address (next_free h) (omega (arith, c.not_null, c.buf_low)) in
    rw
      (
        load32_lem h.memory in_object c.in_low (omega (arith, c.in_high, c.has_header)),
        c.header,
        (allocate-next_free h n c.buffer c.room).0,
        store64_lem h.memory out_object (next_free h) c.out_low c.out_high,
        not_null,
        load32_lem m in_object c.in_low (omega (arith, c.in_high, c.has_header)),
        word32-put64_ne h.memory.byte out_object (next_free h) in_object
            (slot_and_header out_object in_object n c.has_header c.slot_and_source),
        c.header,
        memcpy_lem m (next_free h) in_object n (omega (arith, c.buf_low))
            (omega (arith, c.room, c.buf_high, round_to_8_bounds n)) c.in_low c.in_high,
      )
      refl

-- For an object whose array descriptor is of elements without pointers and handles: if the source, the
-- slot for the pointer to the copy and the buffer are in the memory, do not overlap and the buffer
-- has room, MojomArray_DeepCopy returns true; the slot holds the next free address of the buffer,
-- the bytes from there on are those of the source, no other byte has changed, and the
-- buffer's counter has advanced by the object's size, rounded up.
pub copy_array-Exact :
    (copy : Copier) (d : ArrayDescriptor) (h : Heap) (in_array out_array n : ℕ)
    → is_pod d.elem_type ≡ true
    → IsCopyable h in_array out_array n
    → Succeeds (Exact h in_array out_array n) (copy_array copy d in_array out_array h)
unfolding copy_array
copy_array-Exact copy d h in_array out_array n pods c =
    let some_in : (in_array == 0) ≡ false =
      some_address in_array (omega (arith, c.not_null, c.in_low)) in
    let some_out : (out_array == 0) ≡ false =
      some_address out_array (omega (arith, c.not_null, c.out_low)) in
    rw (some_in, some_out, copy_object-copied_heap h in_array out_array n c, pods)
      (copied_heap-Exact h in_array out_array n c)
