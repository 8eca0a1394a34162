-- ===== src/Codec/Encode.antt =====
-- Encoding in place: encode_pointer, encode_handle and *_EncodePointersAndHandles of
-- public/c/lib/bindings.
use mojo.Prelude.{
  ℕ, zero, suc, ◌+◌, ◌-◌, Bool, not, ◌&&◌, ◌||◌, ltb, leb, ◌==◌, if◌then◌else◌, sub32, length, set,
}
use mojo.Memory.{load32, load64, store32, store64}
use mojo.Descriptor.{
  struct_ptr, map_ptr, array_ptr, union_ptr, union_inline, handle, interface, pod, StructDescriptor,
  UnionDescriptor, ArrayDescriptor, Descriptors, is_pod,
}
use mojo.Validation.{encoded_handle_invalid, union_size}
use mojo.Prelude.Run.{Run, ok, fault, out_of_fuel, ◌>>=◌, access, assert}
use mojo.Codec.{handle_invalid, World, Coder, code_entries, code_elements, code_union, union_is_set}

unfoldable pub encode_pointer : ℕ → ℕ → World → Run World
encode_pointer pointer max_offset w = do
  ptr ← access (load64 w.memory pointer)
  if ptr == 0
      then (do m ← access (store64 w.memory pointer 0); ok (record w { memory = m }))
      else assert (ltb pointer ptr && ltb (ptr - pointer) max_offset)
          (do m ← access (store64 w.memory pointer (ptr - pointer)); ok (record w { memory = m }))

unfoldable pub encode_handle : Bool → ℕ → World → Run World
encode_handle nullable slot w = do
  h ← access (load32 w.memory slot)
  if h == handle_invalid
      then assert nullable (do
        m ← access (store32 w.memory slot encoded_handle_invalid)
        ok (record w { memory = m }))
      else assert (ltb w.num_handles_used (length w.handles)) (do
        m ← access (store32 w.memory slot w.num_handles_used)
        ok (record w {
          memory = m;
          handles = set w.handles w.num_handles_used h;
          num_handles_used = w.num_handles_used + 1;
        }))

-- `MojomStruct_EncodePointersAndHandles`.
unfoldable pub encode_struct : Coder → StructDescriptor → ℕ → ℕ → World → Run World
encode_struct code d inout_struct in_struct_size w =
    assert (not (inout_struct == 0))
      (assert (leb 8 in_struct_size) (code_entries code inout_struct in_struct_size d.entries w))

-- `MojomArray_EncodePointersAndHandles`.
unfoldable pub encode_array : Coder → ArrayDescriptor → ℕ → ℕ → World → Run World
encode_array code d inout_array in_array_size w = assert (not (inout_array == 0)) (
    assert (leb 8 in_array_size) (do
      num_bytes ← access (load32 w.memory inout_array)
      assert (leb num_bytes in_array_size) (
          if is_pod d.elem_type then ok w else do
            num_elements ← access (load32 w.memory (inout_array + 4))
            code_elements code d inout_array in_array_size num_elements 0 w)))

-- `MojomUnion_EncodePointersAndHandles`.
unfoldable pub encode_union : Coder → UnionDescriptor → ℕ → ℕ → World → Run World
encode_union code d inout_union in_buf_size w =
    assert (leb union_size in_buf_size) (code_union code inout_union in_buf_size d.entries w)

-- The cases of the dispatch for a pointer, from the encoding of what it points at.
unfoldable pub encode_pointee : (ℕ → ℕ → World → Run World) → Bool → ℕ → ℕ → World → Run World
unfolding encode_pointer
encode_pointee body in_nullable inout_buf in_buf_size w = do
  ptr ← access (load64 w.memory inout_buf)
  w ← encode_pointer inout_buf in_buf_size w
  if not in_nullable || not (ptr == 0)
      then body ptr (sub32 in_buf_size (ptr - inout_buf)) w
      else ok w

-- The case of a union, whose data is at `u_data`. The call is made at `inout_buf`.
unfoldable pub encode_union_at : Coder → UnionDescriptor → Bool → ℕ → ℕ → ℕ → World → Run World
unfolding encode_union union_is_set
encode_union_at code d in_nullable u_data inout_buf in_buf_size w = do
  is_set ← union_is_set w.memory in_nullable u_data
  if is_set then encode_union code d inout_buf in_buf_size w else ok w

-- `MojomType_DispatchEncodePointersAndHandles`.
unfoldable pub dispatch_encode : Descriptors → ℕ → Coder
dispatch_encode t zero ty d in_nullable inout_buf in_buf_size w = out_of_fuel
dispatch_encode t (suc f) struct_ptr d in_nullable inout_buf in_buf_size w =
    encode_pointee (encode_struct (dispatch_encode t f) (t.struct_at d)) in_nullable inout_buf
      in_buf_size w
dispatch_encode t (suc f) map_ptr d in_nullable inout_buf in_buf_size w =
    encode_pointee (encode_struct (dispatch_encode t f) (t.struct_at d)) in_nullable inout_buf
      in_buf_size w
dispatch_encode t (suc f) array_ptr d in_nullable inout_buf in_buf_size w =
    encode_pointee (encode_array (dispatch_encode t f) (t.array_at d)) in_nullable inout_buf
      in_buf_size w
dispatch_encode t (suc f) union_ptr d in_nullable inout_buf in_buf_size w = do
  union_buf ← access (load64 w.memory inout_buf)
  w ← encode_pointer inout_buf in_buf_size w
  encode_union_at (dispatch_encode t f) (t.union_at d) in_nullable union_buf inout_buf in_buf_size w
dispatch_encode t (suc f) union_inline d in_nullable inout_buf in_buf_size w =
    encode_union_at (dispatch_encode t f) (t.union_at d) in_nullable inout_buf inout_buf in_buf_size
      w
dispatch_encode t (suc f) handle d in_nullable inout_buf in_buf_size w =
    encode_handle in_nullable inout_buf w
dispatch_encode t (suc f) interface d in_nullable inout_buf in_buf_size w =
    encode_handle in_nullable inout_buf w
dispatch_encode t (suc f) pod d in_nullable inout_buf in_buf_size w = fault
