-- ===== src/Codec/Decode.antt =====
-- Decoding in place: decode_pointer, decode_handle and *_DecodePointersAndHandles of
-- public/c/lib/bindings. The array of handles is not NULL.
use mojo.Prelude.{
  ℕ, zero, suc, ◌+◌, ◌-◌, Bool, not, ◌||◌, ltb, leb, ◌==◌, if◌then◌else◌, sub32, get_elem?, set,
}
use mojo.Memory.{load32, load64, store32, store64}
use mojo.Descriptor.{
  struct_ptr, map_ptr, array_ptr, union_ptr, union_inline, handle, interface, pod, StructDescriptor,
  UnionDescriptor, ArrayDescriptor, Descriptors, is_pod,
}
use mojo.Validation.{encoded_handle_invalid, union_size}
use mojo.Prelude.Run.{Run, ok, fault, out_of_fuel, ◌>>=◌, access, assert}
use mojo.Codec.{handle_invalid, World, Coder, code_entries, code_elements, code_union, union_is_set}

unfoldable pub decode_pointer : ℕ → World → Run World
decode_pointer pointer w = do
  offset ← access (load64 w.memory pointer)
  m ← access (store64 w.memory pointer (if offset == 0 then 0 else pointer + offset))
  ok (record w { memory = m })

-- `get_elem?` is `none` where `*handle < in_num_handles` fails, which is asserted.
unfoldable pub decode_handle : ℕ → World → Run World
decode_handle slot w = do
  index ← access (load32 w.memory slot)
  if index == encoded_handle_invalid
      then (do m ← access (store32 w.memory slot handle_invalid); ok (record w { memory = m }))
      else do
        h ← access (get_elem? w.handles index)
        m ← access (store32 w.memory slot h)
        ok (record w { memory = m; handles = set w.handles index handle_invalid })

-- `MojomStruct_DecodePointersAndHandles`.
unfoldable pub decode_struct : Coder → StructDescriptor → ℕ → ℕ → World → Run World
decode_struct code d inout_struct in_struct_size w =
    assert (not (inout_struct == 0)) (code_entries code inout_struct in_struct_size d.entries w)

-- `MojomArray_DecodePointersAndHandles`.
unfoldable pub decode_array : Coder → ArrayDescriptor → ℕ → ℕ → World → Run World
decode_array code d inout_array in_array_size w = assert (not (inout_array == 0)) (
    if is_pod d.elem_type then ok w else do
      num_elements ← access (load32 w.memory (inout_array + 4))
      code_elements code d inout_array in_array_size num_elements 0 w)

-- `MojomUnion_DecodePointersAndHandles`.
unfoldable pub decode_union : Coder → UnionDescriptor → ℕ → ℕ → World → Run World
decode_union code d inout_union in_union_size w =
    assert (leb union_size in_union_size) (code_union code inout_union in_union_size d.entries w)

-- The cases of the dispatch for a pointer, from the decoding of what it points at.
unfoldable pub decode_pointee : (ℕ → ℕ → World → Run World) → Bool → ℕ → ℕ → World → Run World
unfolding decode_pointer
decode_pointee body in_nullable inout_buf in_buf_size w = do
  w ← decode_pointer inout_buf w
  ptr ← access (load64 w.memory inout_buf)
  assert (ptr == 0 || ltb ptr (inout_buf + in_buf_size)) (
      if not in_nullable || not (ptr == 0)
      then body ptr (sub32 in_buf_size (ptr - inout_buf)) w
      else ok w)

-- The case of a union, whose data is at `u_data`. The call is made at `inout_buf`.
unfoldable pub decode_union_at : Coder → UnionDescriptor → Bool → ℕ → ℕ → ℕ → World → Run World
unfolding decode_union union_is_set
decode_union_at code d in_nullable u_data inout_buf in_buf_size w = do
  is_set ← union_is_set w.memory in_nullable u_data
  if is_set then decode_union code d inout_buf in_buf_size w else ok w

-- `MojomType_DispatchDecodePointersAndHandles`.
unfoldable pub dispatch_decode : Descriptors → ℕ → Coder
dispatch_decode t zero ty d in_nullable inout_buf in_buf_size w = out_of_fuel
dispatch_decode t (suc f) struct_ptr d in_nullable inout_buf in_buf_size w =
    decode_pointee (decode_struct (dispatch_decode t f) (t.struct_at d)) in_nullable inout_buf
      in_buf_size w
dispatch_decode t (suc f) map_ptr d in_nullable inout_buf in_buf_size w =
    decode_pointee (decode_struct (dispatch_decode t f) (t.struct_at d)) in_nullable inout_buf
      in_buf_size w
dispatch_decode t (suc f) array_ptr d in_nullable inout_buf in_buf_size w =
    decode_pointee (decode_array (dispatch_decode t f) (t.array_at d)) in_nullable inout_buf
      in_buf_size w
dispatch_decode t (suc f) union_ptr d in_nullable inout_buf in_buf_size w = do
  w ← decode_pointer inout_buf w
  union_buf ← access (load64 w.memory inout_buf)
  assert (union_buf == 0 || ltb union_buf (inout_buf + in_buf_size)) (
      decode_union_at (dispatch_decode t f) (t.union_at d) in_nullable union_buf inout_buf
        in_buf_size w)
dispatch_decode t (suc f) union_inline d in_nullable inout_buf in_buf_size w =
    decode_union_at (dispatch_decode t f) (t.union_at d) in_nullable inout_buf inout_buf in_buf_size
      w
dispatch_decode t (suc f) handle d in_nullable inout_buf in_buf_size w = decode_handle inout_buf w
dispatch_decode t (suc f) interface d in_nullable inout_buf in_buf_size w =
    decode_handle inout_buf w
dispatch_decode t (suc f) pod d in_nullable inout_buf in_buf_size w = fault
