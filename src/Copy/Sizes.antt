-- ===== src/Copy/Sizes.antt =====
-- *_ComputeSerializedSize of public/c/lib/bindings: the bytes that an object and all that it points
-- at take in a message.
use mojo.Prelude.{
  ℕ, zero, suc, ◌+◌, ◌%◌, Bool, true, false, not, ◌||◌, List, [], ◌∷◌, ltb, ◌==◌, if◌then◌else◌,
}
use mojo.Memory.{Memory, load32, load64}
use mojo.Descriptor.{
  ElemType, struct_ptr, map_ptr, array_ptr, union_ptr, union_inline, handle, interface, pod,
  StructEntry, StructDescriptor, UnionEntry, UnionDescriptor, ArrayDescriptor, Descriptors,
  is_pointer, is_union,
}
use mojo.Validation.{array_index_by_type, union_size}
use mojo.Prelude.Run.{Run, ok, fault, out_of_fuel, ◌>>=◌, access, assert}
use mojo.Codec.{union_is_set}

-- A call of MojomType_DispatchComputeSerializedSize.
abbrev pub Sizer : Type 0
Sizer = ElemType → ℕ → Bool → ℕ → Run ℕ

-- A sum of `size_t`.
unfoldable pub add_size : ℕ → ℕ → ℕ
add_size a b = (a + b) % 0x10000000000000000

-- The types of elements whose size is not that of the slot they are in.
unfoldable pub is_sized : ElemType → Bool
is_sized ty = is_pointer ty || is_union ty

-- The loop of MojomStruct_ComputeSerializedSize.
unfoldable pub size_entries : Sizer → Memory → ℕ → List StructEntry → ℕ → Run ℕ
unfolding is_sized add_size
size_entries sizer m in_struct [] size = ok size
size_entries sizer m in_struct (e ∷ es) size = elim (is_sized e.elem_type) [
  | false ↦ size_entries sizer m in_struct es size
  | true ↦ (do
    version ← access (load32 m (in_struct + 4))
    elim (ltb version e.min_version) [
      | true ↦ size_entries sizer m in_struct es size
      | false ↦ (do
        n ← sizer e.elem_type e.elem_descriptor e.nullable (in_struct + 8 + e.offset)
        size_entries sizer m in_struct es (add_size size n))
    ])
]

-- `MojomStruct_ComputeSerializedSize`.
unfoldable pub size_struct : Sizer → Memory → StructDescriptor → ℕ → Run ℕ
unfolding size_entries
size_struct sizer m d in_struct =
    assert (not (in_struct == 0)) (do
      num_bytes ← access (load32 m in_struct)
      size_entries sizer m in_struct d.entries num_bytes)

-- The loop of MojomArray_ComputeSerializedSize: `n` elements are left.
unfoldable pub size_elements : Sizer → ArrayDescriptor → ℕ → ℕ → ℕ → ℕ → Run ℕ
unfolding array_index_by_type add_size
size_elements sizer d in_array zero i size = ok size
size_elements sizer d in_array (suc n) i size = do
  elem_data ← access (array_index_by_type in_array d.elem_type i)
  k ← sizer d.elem_type d.elem_descriptor d.nullable elem_data
  size_elements sizer d in_array n (i + 1) (add_size size k)

-- `MojomArray_ComputeSerializedSize`.
unfoldable pub size_array : Sizer → Memory → ArrayDescriptor → ℕ → Run ℕ
unfolding size_elements is_sized
size_array sizer m d in_array = assert (not (in_array == 0)) (do
  num_bytes ← access (load32 m in_array)
  if is_sized d.elem_type
      then (do
        num_elements ← access (load32 m (in_array + 4))
        size_elements sizer d in_array num_elements 0 num_bytes)
      else ok num_bytes)

-- The loop of MojomUnion_ComputeSerializedSize.
unfoldable pub size_member : Sizer → Memory → ℕ → List UnionEntry → Run ℕ
size_member sizer m in_union [] = ok 0
size_member sizer m in_union (e ∷ es) = do
  tag ← access (load32 m (in_union + 4))
  elim (tag == e.tag) [
    | false ↦ size_member sizer m in_union es
    | true ↦
        if is_pointer e.elem_type
        then sizer e.elem_type e.elem_descriptor e.nullable (in_union + 8)
        else ok 0
  ]

-- `MojomUnion_ComputeSerializedSize`.
unfoldable pub size_union : Sizer → Memory → UnionDescriptor → ℕ → Run ℕ
unfolding size_member
size_union sizer m d in_union =
    assert (not (in_union == 0)) (size_member sizer m in_union d.entries)

-- The cases of the dispatch for a pointer to a struct, a map or an array.
unfoldable pub size_pointee : (ℕ → Run ℕ) → Memory → Bool → ℕ → Run ℕ
size_pointee body m nullable slot = do
  data_ptr ← access (load64 m slot)
  if not nullable || not (data_ptr == 0) then body data_ptr else ok 0

-- The case of a union, whose data is at `udata`. The call is made at `slot`.
unfoldable pub size_union_at : Sizer → Memory → UnionDescriptor → Bool → ℕ → ℕ → ℕ → Run ℕ
unfolding size_union union_is_set add_size
size_union_at sizer m d nullable udata slot size = do
  is_set ← union_is_set m nullable udata
  if is_set then (do n ← size_union sizer m d slot; ok (add_size size n)) else ok size

-- `MojomType_DispatchComputeSerializedSize`.
unfoldable pub dispatch_size : Descriptors → Memory → ℕ → Sizer
unfolding size_struct size_array size_pointee size_union_at
dispatch_size t m zero ty d nullable slot = out_of_fuel
dispatch_size t m (suc f) struct_ptr d nullable slot =
    size_pointee (size_struct (dispatch_size t m f) m (t.struct_at d)) m nullable slot
dispatch_size t m (suc f) map_ptr d nullable slot =
    size_pointee (size_struct (dispatch_size t m f) m (t.struct_at d)) m nullable slot
dispatch_size t m (suc f) array_ptr d nullable slot =
    size_pointee (size_array (dispatch_size t m f) m (t.array_at d)) m nullable slot
dispatch_size t m (suc f) union_ptr d nullable slot = do
  udata ← access (load64 m slot)
  size_union_at (dispatch_size t m f) m (t.union_at d) nullable udata slot
      (if udata == 0 then 0 else union_size)
dispatch_size t m (suc f) union_inline d nullable slot =
    size_union_at (dispatch_size t m f) m (t.union_at d) nullable slot slot 0
dispatch_size t m (suc f) handle d nullable slot = fault
dispatch_size t m (suc f) interface d nullable slot = fault
dispatch_size t m (suc f) pod d nullable slot = fault
