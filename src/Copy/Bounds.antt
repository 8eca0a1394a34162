-- ===== src/Copy/Bounds.antt =====
-- Every copying function grows the heap only, on every branch.
use mojo.Prelude.{ℕ, zero, suc, ◌+◌, true, List, [], ◌∷◌, refl, not, ltb, ◌==◌}
use mojo.Memory.{load32, load64}
use mojo.Buffer.{allocate}
use mojo.Buffer.Allocate.{IsBuffer}
use mojo.Descriptor.{
  ElemType, StructEntry, StructDescriptor, UnionEntry, UnionDescriptor, ArrayDescriptor,
  Descriptors,
}
use mojo.Prelude.Run.{ok}
use mojo.Copy.{
  Heap, Copied, Copier, address, copy_entries, copy_struct, copy_elements, copy_array, copy_member,
  copy_union, copy_pointee, copy_union_pointee, dispatch_copy,
}
use mojo.Copy.Grows.{
  GrowsTo, GrowsAlways, Grows-refl, GrowsTo-after, GrowsTo-then, GrowsTo-access, GrowsTo-assert,
  GrowsTo-if, GrowsTo-test, GrowsTo-store64, GrowsTo-memcpy, allocate-Grows, written-Grows,
  copy_object-Grows,
}
use mojo.Validation.{array_index_by_type, union_size}
use mojo.Descriptor.{
  is_pod, struct_ptr, map_ptr, array_ptr, union_ptr, union_inline, handle, interface, pod,
}

-- The loops and the functions, for a dispatch that grows.
abbrev CopierGrows : Copier → Type 0
CopierGrows copy =
    (ty : ElemType) (d in_data out_data : ℕ) → GrowsAlways (copy ty d in_data out_data)

copy_entries-Grows :
    (copy : Copier) (in_struct out_struct : ℕ) (es : List StructEntry)
    → CopierGrows copy
    → GrowsAlways (copy_entries copy in_struct out_struct es)
unfolding copy_entries
copy_entries-Grows copy in_struct out_struct [] c h w = Grows-refl h w
copy_entries-Grows copy in_struct out_struct (e ∷ es) c h w =
    GrowsTo-access h (load32 h.memory (in_struct + 4)) _ (λ version.
      GrowsTo-test h (ltb version e.min_version) _ _
        (copy_entries-Grows copy in_struct out_struct es c h w)
        (GrowsTo-access h (load64 h.memory out_struct) _ (λ out.
          GrowsTo-then h _ _ (c e.elem_type e.elem_descriptor _ _ h w)
            (copy_entries-Grows copy in_struct out_struct es c))))

copy_struct-Grows :
    (copy : Copier) (d : StructDescriptor) (in_struct out_struct : ℕ)
    → CopierGrows copy
    → GrowsAlways (copy_struct copy d in_struct out_struct)
unfolding copy_struct
copy_struct-Grows copy d in_struct out_struct c h w = GrowsTo-assert h (not (in_struct == 0)) _ (
    GrowsTo-assert h (not (out_struct == 0)) _ (
      GrowsTo-then h _ _ (copy_object-Grows in_struct out_struct h w)
        (copy_entries-Grows copy in_struct out_struct d.entries c)))

copy_elements-Grows :
    (copy : Copier) (d : ArrayDescriptor) (in_array out_array n i : ℕ)
    → CopierGrows copy
    → GrowsAlways (copy_elements copy d in_array out_array n i)
unfolding copy_elements
copy_elements-Grows copy d in_array out_array zero i c h w = Grows-refl h w
copy_elements-Grows copy d in_array out_array (suc n) i c h w =
    GrowsTo-access h (array_index_by_type in_array d.elem_type i) _ (λ from.
      GrowsTo-access h (load64 h.memory out_array) _ (λ out.
        GrowsTo-access h (array_index_by_type out d.elem_type i) _ (λ to.
          GrowsTo-then h _ _ (c d.elem_type d.elem_descriptor from to h w)
            (copy_elements-Grows copy d in_array out_array n (i + 1) c))))

copy_array-Grows :
    (copy : Copier) (d : ArrayDescriptor) (in_array out_array : ℕ)
    → CopierGrows copy
    → GrowsAlways (copy_array copy d in_array out_array)
unfolding copy_array
copy_array-Grows copy d in_array out_array c h w = GrowsTo-assert h (not (in_array == 0)) _ (
    GrowsTo-assert h (not (out_array == 0)) _ (
      GrowsTo-then h _ _ (copy_object-Grows in_array out_array h w) (λ h' w'.
        GrowsTo-if h' (is_pod d.elem_type) (ok (true, h')) _ (Grows-refl h' w') (
          GrowsTo-access h' (load32 h'.memory (in_array + 4)) _
            (λ n. copy_elements-Grows copy d in_array out_array n 0 c h' w')))))

copy_member-Grows :
    (copy : Copier) (num_fields in_union out_union : ℕ) (es : List UnionEntry)
    → CopierGrows copy
    → GrowsAlways (copy_member copy num_fields in_union out_union es)
unfolding copy_member
copy_member-Grows copy num_fields in_union out_union [] c h w =
    GrowsTo-access h (load32 h.memory (in_union + 4)) _ (λ tag. Grows-refl h w)
copy_member-Grows copy num_fields in_union out_union (e ∷ es) c h w =
    GrowsTo-access h (load32 h.memory (in_union + 4)) _ (λ tag.
      GrowsTo-test h (tag == e.tag) _ _
        (GrowsTo-if h (is_pod e.elem_type) _ _ (Grows-refl h w)
          (c e.elem_type e.elem_descriptor (in_union + 8) (out_union + 8) h w))
        (copy_member-Grows copy num_fields in_union out_union es c h w))

copy_union-Grows :
    (copy : Copier) (d : UnionDescriptor) (in_union out_union : ℕ)
    → CopierGrows copy
    → GrowsAlways (copy_union copy d in_union out_union)
unfolding copy_union
copy_union-Grows copy d in_union out_union c h w =
    GrowsTo-memcpy h h.memory out_union in_union union_size _ (λ m r.
      GrowsTo-access h (load32 m in_union) _ (λ size.
        GrowsTo-if h (size == 0) _ _ (written-Grows h m w r) (
          GrowsTo-after h (record h { memory = m }) _ (written-Grows h m w r)
            (copy_member-Grows copy d.num_fields in_union out_union d.entries c
              (record h { memory = m }) w))))

copy_pointee-Grows :
    (body : ℕ → ℕ → Heap → Copied) (in_data out_data : ℕ)
    → ((p : ℕ) → GrowsAlways (body p out_data))
    → GrowsAlways (copy_pointee body in_data out_data)
unfolding copy_pointee
copy_pointee-Grows body in_data out_data b h w = GrowsTo-access h (load64 h.memory in_data) _ (λ p.
    GrowsTo-if h (p == 0) _ _
      (GrowsTo-store64 h h.memory out_data 0 _ (λ m r. written-Grows h m w r)) (b p h w))

copy_union_pointee-Grows :
    (copy : Copier) (d : UnionDescriptor) (in_union out_data : ℕ)
    → CopierGrows copy
    → GrowsAlways (copy_union_pointee copy d in_union out_data)
unfolding copy_union_pointee
copy_union_pointee-Grows copy d in_union out_data c h w =
    let (p, b) = allocate h.buffer union_size in
    GrowsTo-if h (address p == 0) _ _ (allocate-Grows h union_size h.memory w refl refl) (
      GrowsTo-store64 h h.memory out_data (address p) _ (λ m r.
        let g = allocate-Grows h union_size m w r.0 r.1 in
        GrowsTo-after h (record { memory = m; buffer = b }) _ g
          (copy_union-Grows copy d in_union (address p) c (record { memory = m; buffer = b })
            g.well)))

dispatch_copy-CopierGrows : (t : Descriptors) (fuel : ℕ) → CopierGrows (dispatch_copy t fuel)
unfolding dispatch_copy
dispatch_copy-CopierGrows t zero ty d in_data out_data h w = tt
dispatch_copy-CopierGrows t (suc f) struct_ptr d in_data out_data h w =
    GrowsTo-assert h (not (in_data == 0)) _ (
      copy_pointee-Grows (copy_struct (dispatch_copy t f) (t.struct_at d)) in_data out_data
        (λ p. copy_struct-Grows _ (t.struct_at d) p out_data (dispatch_copy-CopierGrows t f)) h w)
dispatch_copy-CopierGrows t (suc f) map_ptr d in_data out_data h w =
    GrowsTo-assert h (not (in_data == 0)) _ (
      copy_pointee-Grows (copy_struct (dispatch_copy t f) (t.struct_at d)) in_data out_data
        (λ p. copy_struct-Grows _ (t.struct_at d) p out_data (dispatch_copy-CopierGrows t f)) h w)
dispatch_copy-CopierGrows t (suc f) array_ptr d in_data out_data h w =
    GrowsTo-assert h (not (in_data == 0)) _ (
      copy_pointee-Grows (copy_array (dispatch_copy t f) (t.array_at d)) in_data out_data
        (λ p. copy_array-Grows _ (t.array_at d) p out_data (dispatch_copy-CopierGrows t f)) h w)
dispatch_copy-CopierGrows t (suc f) union_ptr d in_data out_data h w =
    GrowsTo-assert h (not (in_data == 0)) _ (
      copy_pointee-Grows (copy_union_pointee (dispatch_copy t f) (t.union_at d)) in_data out_data
        (λ p. copy_union_pointee-Grows _ (t.union_at d) p out_data (dispatch_copy-CopierGrows t f))
        h w)
dispatch_copy-CopierGrows t (suc f) union_inline d in_data out_data h w =
    GrowsTo-assert h (not (in_data == 0)) _
      (copy_union-Grows _ (t.union_at d) in_data out_data (dispatch_copy-CopierGrows t f) h w)
dispatch_copy-CopierGrows t (suc f) handle d in_data out_data h w =
    GrowsTo-assert h (not (in_data == 0)) _ (Grows-refl h w)
dispatch_copy-CopierGrows t (suc f) interface d in_data out_data h w =
    GrowsTo-assert h (not (in_data == 0)) _ (Grows-refl h w)
dispatch_copy-CopierGrows t (suc f) pod d in_data out_data h w =
    GrowsTo-assert h (not (in_data == 0)) _ (Grows-refl h w)

-- With whatever descriptors, data and fuel, MojomType_DispatchDeepCopy into a well-formed buffer, when
-- it returns, true or false, has left the buffer well-formed and at its place, has given none of
-- it back, and the mapped memory is the same region.
pub dispatch_copy-Grows :
    (t : Descriptors) (fuel : ℕ) (ty : ElemType) (d in_data out_data : ℕ) (h : Heap)
    → IsBuffer h.buffer
    → GrowsTo h (dispatch_copy t fuel ty d in_data out_data h)
dispatch_copy-Grows t fuel = dispatch_copy-CopierGrows t fuel
