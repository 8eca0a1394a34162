-- ===== src/Copy.antt =====
-- *_DeepCopy of public/c/lib/bindings: a mojom object is copied into memory that is taken from a
-- buffer, and so is all that it points at.
pub mod Sizes
pub mod Grows
pub mod Bounds
pub mod Nested
pub mod Exact
use mojo.Prelude.{
  ℕ, zero, suc, ◌+◌, Bool, true, false, not, ◌||◌, Option, none, some, List, [], ◌∷◌, ltb, ◌==◌,
  if◌then◌else◌, uint32_max,
}
use mojo.Memory.{Memory, load32, load64, store64, memcpy}
use mojo.Buffer.{Buffer, allocate}
use mojo.Descriptor.{
  ElemType, struct_ptr, map_ptr, array_ptr, union_ptr, union_inline, handle, interface, pod,
  StructEntry, StructDescriptor, UnionEntry, UnionDescriptor, ArrayDescriptor, Descriptors, is_pod,
}
use mojo.Validation.{array_index_by_type, union_size}
use mojo.Prelude.Run.{Run, ok, out_of_fuel, ◌>>=◌, access, assert}

-- The memory and the buffer that copies are taken from.
pub record Heap : Type 0 where
  pub memory : Memory
  pub buffer : Buffer

-- What a copy returns, and the memory and the buffer after it.
abbrev pub Copied : Type 0
Copied = Run (Bool × Heap)

-- A call of MojomType_DispatchDeepCopy.
abbrev pub Copier : Type 0
Copier = ElemType → ℕ → ℕ → ℕ → Heap → Copied

-- `if (!…) return false;` and what follows it.
abbrev pub if_copied : Bool × Heap → (Heap → Copied) → Copied
if_copied (true, h) k = k h
if_copied (false, h) k = ok (false, h)

-- The address that MojomBuffer_Allocate returns; NULL is 0.
abbrev pub address : Option ℕ → ℕ
address none = 0
address (some a) = a

-- `*out = MojomBuffer_Allocate(buffer, in->num_bytes)`, the test for NULL, and the memcpy.
unfoldable pub copy_object : ℕ → ℕ → Heap → Copied
copy_object in_object out_object h = do
  num_bytes ← access (load32 h.memory in_object)
  let (p, b) = allocate h.buffer num_bytes in
      (do
        m ← access (store64 h.memory out_object (address p))
        if address p == 0 then ok (false, record { memory = m; buffer = b }) else (do
          n ← access (load32 m in_object)
          m ← access (memcpy m (address p) in_object n)
          ok (true, record { memory = m; buffer = b })))

-- The loop of MojomStruct_DeepCopy; `*out_struct` is read in each round.
unfoldable pub copy_entries : Copier → ℕ → ℕ → List StructEntry → Heap → Copied
copy_entries copy in_struct out_struct [] h = ok (true, h)
copy_entries copy in_struct out_struct (e ∷ es) h = do
  version ← access (load32 h.memory (in_struct + 4))
  elim (ltb version e.min_version) [
    | true ↦ copy_entries copy in_struct out_struct es h
    | false ↦ (do
      out ← access (load64 h.memory out_struct)
      r ← copy e.elem_type e.elem_descriptor (in_struct + 8 + e.offset) (out + 8 + e.offset) h
      if_copied r (λ h. copy_entries copy in_struct out_struct es h))
  ]

-- `MojomStruct_DeepCopy`.
unfoldable pub copy_struct : Copier → StructDescriptor → ℕ → ℕ → Heap → Copied
unfolding copy_object copy_entries
copy_struct copy d in_struct out_struct h = assert (not (in_struct == 0)) (
    assert (not (out_struct == 0)) (do
      r ← copy_object in_struct out_struct h
      if_copied r (λ h. copy_entries copy in_struct out_struct d.entries h)))

-- The loop of MojomArray_DeepCopy: `n` elements are left. `*out_array` is read in each round.
unfoldable pub copy_elements : Copier → ArrayDescriptor → ℕ → ℕ → ℕ → ℕ → Heap → Copied
unfolding array_index_by_type
copy_elements copy d in_array out_array zero i h = ok (true, h)
copy_elements copy d in_array out_array (suc n) i h = do
  in_elem_data ← access (array_index_by_type in_array d.elem_type i)
  out ← access (load64 h.memory out_array)
  out_elem_data ← access (array_index_by_type out d.elem_type i)
  r ← copy d.elem_type d.elem_descriptor in_elem_data out_elem_data h
  if_copied r (λ h. copy_elements copy d in_array out_array n (i + 1) h)

-- `MojomArray_DeepCopy`.
unfoldable pub copy_array : Copier → ArrayDescriptor → ℕ → ℕ → Heap → Copied
unfolding copy_object copy_elements
copy_array copy d in_array out_array h = assert (not (in_array == 0)) (
    assert (not (out_array == 0)) (do
      r ← copy_object in_array out_array h
      if_copied r (λ h. if is_pod d.elem_type then ok (true, h) else (do
        num_elements ← access (load32 h.memory (in_array + 4))
        copy_elements copy d in_array out_array num_elements 0 h))))

-- The loop of MojomUnion_DeepCopy, and the return behind it.
unfoldable pub copy_member : Copier → ℕ → ℕ → ℕ → List UnionEntry → Heap → Copied
copy_member copy num_fields in_union out_union [] h = do
  tag ← access (load32 h.memory (in_union + 4))
  ok (ltb tag num_fields || (tag == uint32_max), h)
copy_member copy num_fields in_union out_union (e ∷ es) h = do
  tag ← access (load32 h.memory (in_union + 4))
  elim (tag == e.tag) [
    | false ↦ copy_member copy num_fields in_union out_union es h
    | true ↦
        if is_pod e.elem_type
        then ok (true, h)
        else copy e.elem_type e.elem_descriptor (in_union + 8) (out_union + 8) h
  ]

-- `MojomUnion_DeepCopy`.
unfoldable pub copy_union : Copier → UnionDescriptor → ℕ → ℕ → Heap → Copied
unfolding copy_member
copy_union copy d in_union out_union h = do
  m ← access (memcpy h.memory out_union in_union union_size)
  size ← access (load32 m in_union)
  if size == 0
      then ok (true, record h { memory = m })
      else copy_member copy d.num_fields in_union out_union d.entries (record h { memory = m })

-- The cases of a pointer: a null one, and from the copy of what it points at one that is not.
unfoldable pub copy_pointee : (ℕ → ℕ → Heap → Copied) → ℕ → ℕ → Heap → Copied
copy_pointee body in_data out_data h = do
  ptr ← access (load64 h.memory in_data)
  if ptr == 0
      then (do m ← access (store64 h.memory out_data 0); ok (true, record h { memory = m }))
      else body ptr out_data h

-- What the case of a union pointer does with one that is not null.
unfoldable pub copy_union_pointee : Copier → UnionDescriptor → ℕ → ℕ → Heap → Copied
unfolding copy_union
copy_union_pointee copy d in_union out_data h =
    let (p, b) = allocate h.buffer union_size in
    if address p == 0 then ok (false, record h { buffer = b }) else (do
      m ← access (store64 h.memory out_data (address p))
      copy_union copy d in_union (address p) (record { memory = m; buffer = b }))

-- `MojomType_DispatchDeepCopy`.
unfoldable pub dispatch_copy : Descriptors → ℕ → Copier
unfolding copy_struct copy_array copy_union copy_pointee copy_union_pointee
dispatch_copy t zero ty d in_data out_data h = out_of_fuel
dispatch_copy t (suc f) struct_ptr d in_data out_data h =
    assert (not (in_data == 0))
      (copy_pointee (copy_struct (dispatch_copy t f) (t.struct_at d)) in_data out_data h)
dispatch_copy t (suc f) map_ptr d in_data out_data h =
    assert (not (in_data == 0))
      (copy_pointee (copy_struct (dispatch_copy t f) (t.struct_at d)) in_data out_data h)
dispatch_copy t (suc f) array_ptr d in_data out_data h =
    assert (not (in_data == 0))
      (copy_pointee (copy_array (dispatch_copy t f) (t.array_at d)) in_data out_data h)
dispatch_copy t (suc f) union_ptr d in_data out_data h =
    assert (not (in_data == 0))
      (copy_pointee (copy_union_pointee (dispatch_copy t f) (t.union_at d)) in_data out_data h)
dispatch_copy t (suc f) union_inline d in_data out_data h =
    assert (not (in_data == 0)) (copy_union (dispatch_copy t f) (t.union_at d) in_data out_data h)
dispatch_copy t (suc f) handle d in_data out_data h = assert (not (in_data == 0)) (ok (true, h))
dispatch_copy t (suc f) interface d in_data out_data h = assert (not (in_data == 0)) (ok (true, h))
dispatch_copy t (suc f) pod d in_data out_data h = assert (not (in_data == 0)) (ok (true, h))
