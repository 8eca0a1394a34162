-- ===== src/Validation/Array.antt =====
-- MojomArray_Validate: the header keeps every element inside the array.
use mojo.Prelude.{
  ℕ, zero, suc, ◌+◌, ◌-◌, ◌*◌, ◌/◌, ◌≤◌, ◌<◌, ◌≡◌, inl, inr, refl, false, some, arith, ltb,
  Bool-cases, sub32, sub32-le, word,
}
use mojo.Memory.{Memory, word32}
use mojo.Memory.Laws.{load32_lem}
use mojo.Descriptor.{
  ElemType, struct_ptr, map_ptr, array_ptr, union_ptr, union_inline, handle, interface, pod,
  ArrayDescriptor, Descriptors, is_pod,
}
use mojo.Descriptor.WellFormed.{width, IsPlain, IsArray}
use mojo.Validation.{
  Context, Dispatch, array_index_by_type, validate_array_header, validate_elements, array_validate,
}
use mojo.Validation.Safe.{
  Safe, Safe-and_then, Safe-mono, limit, IsContext, Advances, Advances-refl, Advances-trans,
}
use mojo.Validation.Spec.{Done, SafeDispatch, rank-le}

-- The elements of an array stand side by side behind the header.
pub array_index_by_type_lem :
    (array index : ℕ) (ty : ElemType)
    → IsPlain ty
    → is_pod ty ≡ false
    → array_index_by_type array ty index ≡ some (array + 8 + width ty * index)
unfolding array_index_by_type is_pod
array_index_by_type_lem array index struct_ptr p h = refl
array_index_by_type_lem array index map_ptr p h = refl
array_index_by_type_lem array index array_ptr p h = refl
array_index_by_type_lem array index union_ptr p h = absurd p
array_index_by_type_lem array index union_inline p h = refl
array_index_by_type_lem array index handle p h = refl
array_index_by_type_lem array index interface p h = refl
array_index_by_type_lem array index pod p h = cc

-- What an accepted array header is known to satisfy.
pub record HeaderFits (m : Memory) (d : ArrayDescriptor) (a n : ℕ) (c c' : Context) : Type 0 where
  pub same : c' ≡ c
  pub header : 8 ≤ n
  pub within : word32 m.byte a ≤ n
  pub elements : 8 + (d.elem_num_bits * word32 m.byte (a + 4) + 7) / 8 ≤ word32 m.byte a

mul_le_right : (w i num : ℕ) → i ≤ num → w * i ≤ w * num
mul_le_right w i num h = grind arith

mul_le_left : (w bits num : ℕ) → w ≤ bits → w * num ≤ bits * num
mul_le_left w bits num h = grind arith

-- Element `i` of `num` that are `w` bytes wide ends before the array does.
pub element_bound :
    (w bits i num num_bytes : ℕ)
    → 8 * w ≤ bits
    → 8 + (bits * num + 7) / 8 ≤ num_bytes
    → i < num
    → 8 + w * i + w ≤ num_bytes
element_bound w bits i num num_bytes wide fits before =
    omega (arith, mul_le_right w (suc i) num before, mul_le_left (8 * w) bits num wide)

module _ (m : Memory) (t : Descriptors) (num_handles k : ℕ) (dispatch : Dispatch)
    (safe : SafeDispatch m t num_handles k dispatch) (small : m.size < word) (a n : ℕ)
    (low : m.base ≤ a) (high : a + n ≡ limit m) (d : ArrayDescriptor) (ok : IsArray t d) where
  pub validate_array_header-Safe :
      (c : Context) → Safe (HeaderFits m d a n c) (validate_array_header m d a n c)
  unfolding validate_array_header
  validate_array_header-Safe c = elim (Bool-cases (ltb n 8)) [
    | inl short ↦ rw short tt
    | inr whole ↦
        rw
          (
            whole,
            load32_lem m a low (ground arith),
            load32_lem m (a + 4) (ground arith) (ground arith),
          )
          (ground arith)
  ]

  element-Safe :
      (i num : ℕ) (c : Context)
      → is_pod d.elem_type ≡ false
      → 8 + width d.elem_type * i + width d.elem_type ≤ n
      → IsContext m num_handles c
      → 1 + 2 * (limit m + 1 - c.next_pointer) < k
      → let p = a + 8 + width d.elem_type * i in
        Safe
          (Advances m num_handles c)
          (dispatch d.elem_type d.elem_descriptor d.nullable p (sub32 n (p - a)) c)
  element-Safe i num c not_pod room context fuel =
      let off = 8 + width d.elem_type * i in
      let p = a + 8 + width d.elem_type * i in
      let left : sub32 n (p - a) ≡ n - (p - a) = sub32-le n (p - a) (omega arith) (omega arith) in
      Safe-mono (Done m num_handles d.elem_type d.nullable p (sub32 n (p - a)) c)
        (Advances m num_handles c) _
        (safe d.elem_type d.elem_descriptor d.nullable p (sub32 n (p - a)) c
          (record {
            plain = ok.plain;
            refers = ok.refers;
            low = omega arith;
            high = omega arith;
            room = omega arith;
            context = context;
          })
          (omega (arith, rank-le d.elem_type)))
        λ c' done. done.advances

  pub validate_elements-Safe :
      (num num_bytes rest i : ℕ) (c : Context)
      → is_pod d.elem_type ≡ false
      → 8 + (d.elem_num_bits * num + 7) / 8 ≤ num_bytes
      → num_bytes ≤ n
      → i + rest ≡ num
      → IsContext m num_handles c
      → 1 + 2 * (limit m + 1 - c.next_pointer) < k
      → Safe (Advances m num_handles c) (validate_elements dispatch d a n rest i c)
  unfolding validate_elements
  validate_elements-Safe num num_bytes zero i c not_pod fits within count context fuel =
      Advances-refl context
  validate_elements-Safe num num_bytes (suc rest) i c not_pod fits within count context fuel =
      let inside : 8 + width d.elem_type * i + width d.elem_type ≤ num_bytes =
        element_bound (width d.elem_type) d.elem_num_bits i num num_bytes ok.wide fits
          (omega arith) in
      rw (array_index_by_type_lem a i d.elem_type ok.plain not_pod) (
        Safe-and_then (Advances m num_handles c) (Advances m num_handles c) _ _
          (element-Safe i num c not_pod (omega arith) context fuel)
          λ c' done.
            Safe-mono (Advances m num_handles c') (Advances m num_handles c) _
              (validate_elements-Safe num num_bytes rest (i + 1) c' not_pod fits within
                (omega arith) done.within (omega (arith, done.pointer)))
              λ c'' more. Advances-trans done more)

  pub array_validate-Safe :
      (c : Context)
      → IsContext m num_handles c
      → c.next_pointer ≤ a
      → a ≤ limit m
      → 2 * (limit m + 1 - a) ≤ k
      → Safe (λ c'. Advances m num_handles c c' × (8 ≤ n)) (array_validate m dispatch d a n c)
  unfolding array_validate
  array_validate-Safe c context before inside fuel =
      Safe-and_then (HeaderFits m d a n c) (λ c'. Advances m num_handles c c' × (8 ≤ n)) _ _
        (validate_array_header-Safe c)
        λ c₀ h.
          rw
            (
              load32_lem m a low (omega (arith, h.header)),
              load32_lem m (a + 4) (omega arith) (omega (arith, h.header)),
              h.same,
            )
            (elim (Bool-cases (is_pod d.elem_type)) [
              | inl flat ↦ rw flat (omega (arith, h.header, h.elements, h.within))
              | inr deep ↦ rw deep (
                  let c' : Context = record c { next_pointer = a + word32 m.byte a } in
                  Safe-mono (Advances m num_handles c') _ _
                    (validate_elements-Safe (word32 m.byte (a + 4)) (word32 m.byte a)
                      (word32 m.byte (a + 4)) 0 c' deep h.elements h.within (omega arith)
                      (omega (arith, h.within)) (omega (arith, h.elements)))
                    λ c'' more. omega (arith, more, h.header, h.elements))
            ])
