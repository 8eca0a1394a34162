-- ===== src/Tests/Copying.antt =====
-- Sizes and copies at small inputs.
use mojo.Prelude.{round_to_8, ◌≡◌, refl, inl, inr, [], ◌∷◌, false, arith}
use mojo.Memory.{load64, in_bounds, load32, Memory, word32, word64}
use mojo.Buffer.Allocate.{IsBuffer}
use mojo.Descriptor.{array_ptr, union_ptr, string_descriptor, is_pod, is_pointer, is_union}
use mojo.Prelude.Run.{ok}
use mojo.Copy.{Heap, dispatch_copy, copy_array}
use mojo.Copy.Sizes.{dispatch_size}
use mojo.Copy.Grows.{GrowsTo}
use mojo.Copy.Bounds.{dispatch_copy-Grows}
use mojo.Copy.Exact.{IsCopyable, Exact, Succeeds, copy_array-Exact}
use mojo.Copy.Nested.{nested_union_not_counted}
use mojo.Tests.Samples.{memory_of, tables}

-- At 1000 an array of 16 bytes, at 1016 a pointer to it, and from 1024 on a buffer of 24 bytes; the
-- first eight of them stand for the slot of the pointer to a copy.
abbrev text : Heap
text = record {
  memory = memory_of 1000 (
      16 ∷ 0 ∷ 0 ∷ 0 ∷ 3 ∷ 0 ∷ 0 ∷ 0 ∷ 97 ∷ 98 ∷ 99 ∷ 0 ∷ 0 ∷ 0 ∷ 0 ∷ 0 ∷ 0xe8 ∷ 3 ∷ 0 ∷ 0 ∷ 0 ∷ 0
      ∷ 0 ∷ 0 ∷ 0 ∷ 0 ∷ 0 ∷ 0 ∷ 0 ∷ 0 ∷ 0 ∷ 0 ∷ 0 ∷ 0 ∷ 0 ∷ 0 ∷ 0 ∷ 0 ∷ 0 ∷ 0 ∷ 0 ∷ 0 ∷ 0 ∷ 0 ∷ 0
      ∷ 0 ∷ 0 ∷ 0 ∷ []);
  buffer = record { buf = 1024; buf_size = 24; num_bytes_used = 8 };
}

text-IsBuffer : IsBuffer text.buffer
text-IsBuffer = omega arith

text-IsCopyable : IsCopyable text 1000 1024 16
unfolding word32 round_to_8
text-IsCopyable = record {
  buffer = text-IsBuffer;
  room = omega arith;
  buf_low = omega arith;
  buf_high = omega arith;
  addresses = omega arith;
  not_null = omega arith;
  header = refl;
  has_header = omega arith;
  in_low = omega arith;
  in_high = omega arith;
  out_low = omega arith;
  out_high = omega arith;
  slot_and_source = inr (omega arith);
  slot_and_copy = inl (omega arith);
  source_and_copy = inl (omega arith);
}

-- The pointer at 1016 leads to 16 bytes.
text_size : dispatch_size tables text.memory 1 array_ptr 0 false 1016 ≡ ok 16
unfolding dispatch_size load64 in_bounds word64 word32 load32 is_pointer is_union
text_size = refl

dispatch_copy-Grows_example : GrowsTo text (dispatch_copy tables 5 array_ptr 0 1016 1024 text)
dispatch_copy-Grows_example = dispatch_copy-Grows tables 5 array_ptr 0 1016 1024 text text-IsBuffer

copy_array-Exact_example :
    Succeeds
      (Exact text 1000 1024 16)
      (copy_array (dispatch_copy tables 4) string_descriptor 1000 1024 text)
unfolding is_pod
copy_array-Exact_example =
    copy_array-Exact (dispatch_copy tables 4) string_descriptor text 1000 1024 16 refl
      text-IsCopyable

-- At 1000 a pointer to a union at 1016, which has the tag 1.
abbrev pointed : Memory
pointed = memory_of 1000 (
    0xf8 ∷ 3 ∷ 0 ∷ 0 ∷ 0 ∷ 0 ∷ 0 ∷ 0 ∷ 7 ∷ 0 ∷ 0 ∷ 0 ∷ 0 ∷ 0 ∷ 0 ∷ 0 ∷ 16 ∷ 0 ∷ 0 ∷ 0 ∷ 1 ∷ 0 ∷ 0
    ∷ 0 ∷ 7 ∷ 0 ∷ 0 ∷ 0 ∷ 0 ∷ 0 ∷ 0 ∷ 0 ∷ [])

nested_union_not_counted_example : dispatch_size tables pointed 1 union_ptr 0 false 1000 ≡ ok 16
unfolding word64 word32
nested_union_not_counted_example =
    nested_union_not_counted tables pointed 0 0 1000 false (omega arith) (omega arith) (omega arith)
      (omega arith) (omega arith) (omega arith) (omega arith) (omega arith, tt)
