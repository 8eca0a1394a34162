-- ===== src/Codec.antt =====
-- The state of the operations that rewrite a message in place, and the parts of their
-- loops that the two directions share (struct.c, array.c and union.c of public/c/lib/bindings).
pub mod Encode
pub mod Decode
pub mod Pointers
pub mod Handles
pub mod Nested
use mojo.Prelude.{
  ℕ, zero, suc, ◌+◌, ◌-◌, Bool, true, false, not, ◌&&◌, Option, none, some, List, [], ◌∷◌, ltb,
  ◌==◌, if◌then◌else◌, sub32,
}
use mojo.Prelude.Run.{Run, ok, fault, ◌>>=◌, access, assert}
use mojo.Memory.{Memory, load32}
use mojo.Descriptor.{ElemType, StructEntry, UnionEntry, ArrayDescriptor, is_pod}
use mojo.Validation.{array_index_by_type}

-- `MOJO_HANDLE_INVALID`.
abbrev pub handle_invalid : ℕ
handle_invalid = 0

-- The memory with the message, and the array of handles that go with it: of a
-- `struct MojomHandleBuffer` with `num_handles_used`, which decoding leaves alone.
pub record World : Type 0 where
  pub memory : Memory
  pub handles : List ℕ
  pub num_handles_used : ℕ

-- A call of MojomType_DispatchEncodePointersAndHandles or of its counterpart.
abbrev pub Coder : Type 0
Coder = ElemType → ℕ → Bool → ℕ → ℕ → World → Run World

-- The loop of MojomStruct_EncodePointersAndHandles and of its counterpart. The version is read
-- again in each round, as the code does.
unfoldable pub code_entries : Coder → ℕ → ℕ → List StructEntry → World → Run World
code_entries code inout_struct in_struct_size [] w = ok w
code_entries code inout_struct in_struct_size (e ∷ es) w = do
  version ← access (load32 w.memory (inout_struct + 4))
  elim (ltb version e.min_version) [
    | true ↦ code_entries code inout_struct in_struct_size es w
    | false ↦ assert (ltb (8 + e.offset) in_struct_size) (do
      w ←
          code e.elem_type e.elem_descriptor e.nullable (inout_struct + 8 + e.offset)
            (sub32 in_struct_size (8 + e.offset)) w
      code_entries code inout_struct in_struct_size es w)
  ]

-- The loop of MojomArray_EncodePointersAndHandles and of its counterpart: `n` elements are left.
unfoldable pub code_elements : Coder → ArrayDescriptor → ℕ → ℕ → ℕ → ℕ → World → Run World
unfolding array_index_by_type
code_elements code d inout_array in_array_size zero i w = ok w
code_elements code d inout_array in_array_size (suc n) i w = do
  elem_data ← access (array_index_by_type inout_array d.elem_type i)
  assert (ltb elem_data (inout_array + in_array_size)) (do
    w ←
        code d.elem_type d.elem_descriptor d.nullable elem_data
          (sub32 in_array_size (elem_data - inout_array)) w
    code_elements code d inout_array in_array_size n (i + 1) w)

-- The loop of MojomUnion_EncodePointersAndHandles and of its counterpart.
unfoldable pub code_union : Coder → ℕ → ℕ → List UnionEntry → World → Run World
code_union code inout_union in_buf_size [] w = ok w
code_union code inout_union in_buf_size (e ∷ es) w = do
  tag ← access (load32 w.memory (inout_union + 4))
  elim (tag == e.tag) [
    | false ↦ code_union code inout_union in_buf_size es w
    | true ↦
        if is_pod e.elem_type
        then ok w
        else code e.elem_type e.elem_descriptor e.nullable (inout_union + 8) (sub32 in_buf_size 8) w
  ]

-- `!in_nullable || (u_data != NULL && u_data->size != 0)`.
unfoldable pub union_is_set : Memory → Bool → ℕ → Run Bool
union_is_set m in_nullable u_data =
    if not in_nullable
    then ok true
    else if u_data == 0
    then ok false
    else do size ← access (load32 m u_data); ok (not (size == 0))
