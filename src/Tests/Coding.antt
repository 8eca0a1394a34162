-- ===== src/Tests/Coding.antt =====
-- Encoding and decoding at small inputs.
use mojo.Prelude.{◌≡◌, inr, [], ◌∷◌, false, arith}
use mojo.Memory.{word32, word64}
use mojo.Descriptor.{union_ptr}
use mojo.Prelude.Run.{◌>>=◌}
use mojo.Codec.{World}
use mojo.Codec.Encode.{encode_pointer, encode_handle, dispatch_encode}
use mojo.Codec.Decode.{decode_pointer, decode_handle}
use mojo.Prelude.Run.{Returns}
use mojo.Codec.Pointers.{IsWrite, decode_pointer-encode_pointer}
use mojo.Codec.Handles.{IsBack, decode_handle-encode_handle}
use mojo.Codec.Nested.{nested_union_not_encoded}
use mojo.Tests.Samples.{memory_of, tables}

-- A pointer at 1000 to 1016, and a handle 7 at 1008.
abbrev pointing : World
pointing = record {
  memory = memory_of 1000 (
      0xf8 ∷ 3 ∷ 0 ∷ 0 ∷ 0 ∷ 0 ∷ 0 ∷ 0 ∷ 7 ∷ 0 ∷ 0 ∷ 0 ∷ 0 ∷ 0 ∷ 0 ∷ 0 ∷ 16 ∷ 0 ∷ 0 ∷ 0 ∷ 1 ∷ 0 ∷ 0
      ∷ 0 ∷ 7 ∷ 0 ∷ 0 ∷ 0 ∷ 0 ∷ 0 ∷ 0 ∷ 0 ∷ []);
  handles = 0 ∷ 0 ∷ [];
  num_handles_used = 1;
}

-- An offset of sixteen in place of the pointer.
abbrev encoded : World
encoded = record pointing { memory = memory_of 1000 (16 ∷ 0 ∷ 0 ∷ 0 ∷ 0 ∷ 0 ∷ 0 ∷ 0 ∷ []) }

decode_pointer-encode_pointer_example :
    Returns
      (λ w'. IsWrite pointing w' 1000 1016)
      (encode_pointer 1000 32 pointing >>= decode_pointer 1000)
unfolding word64 word32
decode_pointer-encode_pointer_example =
    decode_pointer-encode_pointer pointing 1000 32
      (record { low = omega arith; high = omega arith }) (inr (omega arith, omega arith))

decode_handle-encode_handle_example :
    Returns
      (λ w'. IsBack pointing w' 1008 7)
      (encode_handle false 1008 pointing >>= decode_handle 1008)
unfolding word32
decode_handle-encode_handle_example =
    decode_handle-encode_handle pointing false 1008 (omega arith) (omega arith)
      (inr (omega arith, omega arith)) (omega arith)

-- The pointer at 1000 becomes an offset; the handle 7 of the union at 1016 stays as it is.
nested_union_not_encoded_example :
    dispatch_encode tables 1 union_ptr 0 false 1000 32 pointing ≡ encode_pointer 1000 32 pointing
unfolding word64 word32
nested_union_not_encoded_example =
    nested_union_not_encoded tables 0 0 1000 32 false pointing
      (record { low = omega arith; high = omega arith }) (omega arith) (omega arith) (omega arith)
      (omega arith) (omega arith) (omega arith, tt)
