-- ===== src/Validation/Union.antt =====
-- MojomUnion_Validate, and the step from a pointer to what it points at.
use mojo.Prelude.{
  ℕ, ◌+◌, ◌-◌, ◌*◌, ◌≤◌, ◌<◌, ◌≡◌, inl, inr, refl, Bool, not, ◌&&◌, List, [], ◌∷◌, arith, ◌==◌,
  Bool-cases, sub32, sub32-le, word,
}
use mojo.Memory.{Memory, word32, word64}
use mojo.Memory.Laws.{load32_lem, load64_lem}
use mojo.Descriptor.{
  ElemType, struct_ptr, map_ptr, array_ptr, union_ptr, union_inline, handle, interface, pod,
  UnionEntry, UnionDescriptor, Descriptors, is_pod,
}
use mojo.Descriptor.WellFormed.{width, IsPlain, IsUnionField, RefersWell, IsUnion}
use mojo.Validation.{
  ◌>>=◌, Context, Outcome, Dispatch, union_size, union_validate, validate_union_data,
  follow_pointer,
}
use mojo.Validation.Safe.{Safe, Safe-and_then, Safe-mono, limit, IsContext, Advances, Advances-refl}
use mojo.Validation.Pointer.{Points, validate_pointer-Safe}
use mojo.Validation.Spec.{Done, SafeDispatch, rank}

-- What a union holds in place is plain, takes eight bytes at most and no call more.
union_field : (ty : ElemType) → IsUnionField ty → IsPlain ty × (width ty ≤ 8) × (rank ty ≡ 0)
union_field struct_ptr h = (tt, omega arith, refl)
union_field map_ptr h = (tt, omega arith, refl)
union_field array_ptr h = (tt, omega arith, refl)
union_field union_ptr h = absurd h
union_field union_inline h = absurd h
union_field handle h = (tt, omega arith, refl)
union_field interface h = (tt, omega arith, refl)
union_field pod h = (tt, omega arith, refl)

module _ (m : Memory) (t : Descriptors) (num_handles k : ℕ) (dispatch : Dispatch)
    (safe : SafeDispatch m t num_handles k dispatch) (small : m.size < word) (u n : ℕ)
    (low : m.base ≤ u) (high : u + n ≡ limit m) (room : 16 ≤ n) (nullable : Bool) (c : Context)
    (context : IsContext m num_handles c) (fuel : 2 * (limit m + 1 - c.next_pointer) < k) where
  field-Safe :
      (e : UnionEntry)
      → IsUnionField e.elem_type
      → RefersWell t e.elem_type e.elem_descriptor
      → Safe
          (Advances m num_handles c)
          (dispatch e.elem_type e.elem_descriptor e.nullable (u + 8) (sub32 n 8) c)
  field-Safe e plain refers =
      let (p, w, r) = union_field e.elem_type plain in
      let left : sub32 n 8 ≡ n - 8 = sub32-le n 8 (omega arith) (omega arith) in
      Safe-mono (Done m num_handles e.elem_type e.nullable (u + 8) (sub32 n 8) c)
        (Advances m num_handles c) _
        (safe e.elem_type e.elem_descriptor e.nullable (u + 8) (sub32 n 8) c
          (record {
            plain = p;
            refers = refers;
            low = omega arith;
            high = omega arith;
            room = omega arith;
            context = context;
          })
          (omega arith))
        λ c' done. done.advances

  pub union_validate-Safe :
      (es : List UnionEntry)
      → IsUnion t (record { num_fields = 0; entries = es })
      → Safe (Advances m num_handles c) (union_validate m dispatch nullable u n es c)
  unfolding union_validate
  union_validate-Safe [] ok = Advances-refl context
  union_validate-Safe (e ∷ es) ((plain, refers), ok) =
      rw (load32_lem m (u + 4) (omega arith) (omega arith))
        (elim (Bool-cases (word32 m.byte (u + 4) == e.tag)) [
          | inr other ↦ rw (other, Safe, ◌>>=◌, union_validate) (union_validate-Safe es ok)
          | inl hit ↦
              rw (hit, Safe, ◌>>=◌, union_validate)
                (elim (Bool-cases (is_pod e.elem_type)) [
                  | inl flat ↦ rw flat (Advances-refl context)
                  | inr deep ↦
                      rw (deep, load32_lem m u low (omega arith))
                        (elim (Bool-cases (not nullable && not (word32 m.byte u == union_size))) [
                          | inl null ↦ rw null tt
                          | inr sized ↦ rw sized (field-Safe e plain refers)
                        ])
                ])
        ])

  pub validate_union_data-Safe :
      (d : UnionDescriptor)
      → IsUnion t d
      → Safe (Advances m num_handles c) (validate_union_data m dispatch d nullable u n c)
  unfolding validate_union_data
  validate_union_data-Safe d ok =
      rw (load32_lem m u low (omega arith)) (elim (Bool-cases (word32 m.byte u == 0)) [
        | inl null ↦ rw null (elim (Bool-cases nullable) [
          | inl may ↦ rw may (Advances-refl context)
          | inr must ↦ rw must tt
        ])
        | inr set ↦ rw set (union_validate-Safe d.entries ok)
      ])

-- Where a pointer leads: `body` is called on a target that lies behind all that is claimed.
pub follow_pointer-Safe :
    (m : Memory) (p size : ℕ) (nullable : Bool) (body : ℕ → ℕ → Context → Outcome) (c : Context)
    (Q : Context → Type 0)
    → m.size < word
    → m.base ≤ p
    → p + size ≡ limit m
    → 8 ≤ size
    → ((c' : Context) → Points m p size nullable c c' → word64 m.byte p ≡ 0 → Q c')
    → ((a n : ℕ) (c' : Context)
        → Points m p size nullable c c'
        → a ≡ p + word64 m.byte p
        → a + n ≡ limit m
        → c'.next_pointer ≡ a
        → Safe Q (body a n c'))
    → Safe Q (follow_pointer m p size nullable body c)
unfolding follow_pointer
follow_pointer-Safe m p size nullable body c Q small low high room null target =
    Safe-and_then (Points m p size nullable c) Q _ _
      (validate_pointer-Safe m p size nullable c low (omega arith))
      λ c' ok. rw (load64_lem m p low (omega arith)) (elim (Bool-cases (word64 m.byte p == 0)) [
        | inl zero? ↦ rw zero? (null c' ok (ground arith))
        | inr set ↦ rw set (
            target (p + word64 m.byte p) (sub32 size (word64 m.byte p)) c' ok refl
              (omega (arith, sub32-le size (word64 m.byte p) ok.within, ok.within)) (ground arith))
      ])
