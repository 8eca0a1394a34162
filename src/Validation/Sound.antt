-- ===== src/Validation/Sound.antt =====
-- MojomType_DispatchValidate and MojomStruct_Validate as a whole: on the descriptors that the
-- generator emits they end, and they read nothing outside the message.
use mojo.Prelude.{ℕ, zero, suc, ◌+◌, ◌*◌, ◌≤◌, ◌<◌, ◌≡◌, refl, Bool, true, false, arith, word}
use mojo.Memory.{Memory, word64}
use mojo.Memory.Laws.{load32_lem}
use mojo.Descriptor.{
  struct_ptr, map_ptr, array_ptr, union_ptr, union_inline, handle, interface, pod, Descriptors,
}
use mojo.Descriptor.WellFormed.{IsWellFormed}
use mojo.Validation.{Context, Outcome, follow_pointer, dispatch_validate, struct_validate}
use mojo.Validation.Safe.{
  Safe, Safe-mono, limit, IsContext, Advances, Advances-refl, Advances-trans,
}
use mojo.Validation.Pointer.{Points, validate_handle-Safe}
use mojo.Validation.Spec.{Done, SafeDispatch}
use mojo.Validation.Struct.{struct_validate-Safe}
use mojo.Validation.Array.{array_validate-Safe}
use mojo.Validation.Union.{validate_union_data-Safe, follow_pointer-Safe}
use mojo.Validation.Map.{struct_map_validate-Safe}

module _ (m : Memory) (num_handles : ℕ) where
  -- Where a pointer leads on, the context is sound and has moved up to the target.
  record AtTarget (p size : ℕ) (nullable : Bool) (a n : ℕ) (c c' : Context) : Type 0 where
    low : m.base ≤ a
    target : a ≡ p + word64 m.byte p
    left : word64 m.byte p + n ≡ size
    inside : a ≤ limit m
    reached : c'.next_pointer ≡ a
    context : IsContext m num_handles c'
    advances : Advances m num_handles c c'

  ok_target :
      {p size : ℕ} {nullable : Bool} {a n : ℕ} {c c' : Context}
      → Points m p size nullable c c'
      → a ≡ p + word64 m.byte p
      → a + n ≡ limit m
      → c'.next_pointer ≡ a
      → m.base ≤ p
      → p + size ≡ limit m
      → IsContext m num_handles c
      → AtTarget p size nullable a n c c'
  ok_target ok e left reached low high context = omega (arith, ok.within, ok.forward, ok.handle)

  -- A call at a pointer, from what is known where the pointer leads.
  pointer-Safe :
      (p size : ℕ) (nullable : Bool) (body : ℕ → ℕ → Context → Outcome) (c : Context)
      (Q : Context → Type 0)
      → m.size < word
      → m.base ≤ p
      → p + size ≡ limit m
      → 8 ≤ size
      → IsContext m num_handles c
      → ((c' : Context) → Advances m num_handles c c' → (nullable ≡ false → ⊥) → Q c')
      → ((a n : ℕ) (c' : Context)
          → AtTarget p size nullable a n c c'
          → a + n ≡ limit m
          → Safe Q (body a n c'))
      → Safe Q (follow_pointer m p size nullable body c)
  pointer-Safe p size nullable body c Q small low high room context null target =
      follow_pointer-Safe m p size nullable body c Q small low high room
        (λ c' ok z. null c' (omega arith) (λ e. ok.non_null e z))
        (λ a n c' ok e left reached.
          target a n c' (ok_target ok e left reached low high context) left)

module _ (m : Memory) (t : Descriptors) (num_handles : ℕ) (wf : IsWellFormed t)
    (small : m.size < word) where
  plain-Done :
      {p size n a : ℕ} {nullable : Bool} {c c' : Context} (Q : Context → Type 0) (o : Outcome)
      → AtTarget m num_handles p size nullable a n c c'
      → Safe (Advances m num_handles c') o
      → ((c'' : Context) → Advances m num_handles c c'' → Q c'')
      → Safe Q o
  plain-Done {c'} Q o at safe done =
      Safe-mono (Advances m num_handles c') Q o safe
        λ c'' more. done c'' (Advances-trans at.advances more)

  array-Done :
      {p size n a : ℕ} {c c' c'' : Context} (nullable : Bool)
      → AtTarget m num_handles p size nullable a n c c'
      → Advances m num_handles c' c''
      → 8 ≤ n
      → Done m num_handles array_ptr nullable p size c c''
  array-Done false at more room = record {
    advances = Advances-trans at.advances more;
    header = omega (arith, at.left);
  }
  array-Done true at more room = record { advances = Advances-trans at.advances more; header = tt }

  array_null :
      {p size : ℕ} {c c' : Context} (nullable : Bool)
      → Advances m num_handles c c'
      → (nullable ≡ false → ⊥)
      → Done m num_handles array_ptr nullable p size c c'
  array_null false more must = absurd (must refl)
  array_null true more may = record { advances = more; header = tt }

  -- Enough fuel: the bytes that are still unclaimed, twice, and one for a union.
  pub dispatch_validate-Safe :
      (k : ℕ) → SafeDispatch m t num_handles k (dispatch_validate m t num_handles k)
  unfolding dispatch_validate
  dispatch_validate-Safe zero ty d nullable p size c r fuel = absurd (omega arith)
  dispatch_validate-Safe (suc f) struct_ptr d nullable p size c r fuel =
      pointer-Safe m num_handles p size nullable _ c _ small r.low r.high r.room r.context
        (λ c' more _. record { advances = more; header = tt })
        λ a n c' at left.
          plain-Done _ _ at
            (struct_validate-Safe m t num_handles f _ (dispatch_validate-Safe f) small a n at.low
              left (t.struct_at d) c' (wf.structs d) at.context (omega (arith, at.reached))
              at.inside (omega (arith, at.reached, at.advances.pointer)))
            λ c'' more. record { advances = more; header = tt }
  dispatch_validate-Safe (suc f) map_ptr d nullable p size c r fuel =
      pointer-Safe m num_handles p size nullable _ c _ small r.low r.high r.room r.context
        (λ c' more _. record { advances = more; header = tt })
        λ a n c' at left.
          plain-Done _ _ at
            (struct_map_validate-Safe m t num_handles f _ (dispatch_validate-Safe f) small a n
              at.low left (t.struct_at d) c' (wf.structs d) r.refers at.context
              (omega (arith, at.reached)) at.inside
              (omega (arith, at.reached, at.advances.pointer)))
            λ c'' more. record { advances = more; header = tt }
  dispatch_validate-Safe (suc f) array_ptr d nullable p size c r fuel =
      pointer-Safe m num_handles p size nullable _ c _ small r.low r.high r.room r.context
        (λ c' more null. array_null nullable more null)
        λ a n c' at left.
          Safe-mono (λ c''. Advances m num_handles c' c'' × (8 ≤ n)) _ _
            (array_validate-Safe m t num_handles f _ (dispatch_validate-Safe f) small a n at.low
              left (t.array_at d) (wf.arrays d) c' at.context (omega (arith, at.reached)) at.inside
              (omega (arith, at.reached, at.advances.pointer)))
            λ c'' (more, room). array-Done nullable at more room
  dispatch_validate-Safe (suc f) union_ptr d nullable p size c r fuel = absurd r.plain
  dispatch_validate-Safe (suc f) union_inline d nullable p size c r fuel =
      Safe-mono (Advances m num_handles c) _ _
        (validate_union_data-Safe m t num_handles f _ (dispatch_validate-Safe f) small p size r.low
          r.high r.room nullable c r.context (omega arith) (t.union_at d) (wf.unions d))
        λ c' more. record { advances = more; header = tt }
  dispatch_validate-Safe (suc f) handle d nullable p size c r fuel =
      rw (load32_lem m p r.low (omega (arith, r.high, r.room))) (
        Safe-mono (Advances m num_handles c) _ _
          (validate_handle-Safe m _ num_handles nullable c r.context)
          λ c' more. record { advances = more; header = tt })
  dispatch_validate-Safe (suc f) interface d nullable p size c r fuel =
      rw (load32_lem m p r.low (omega (arith, r.high, r.room))) (
        Safe-mono (Advances m num_handles c) _ _
          (validate_handle-Safe m _ num_handles nullable c r.context)
          λ c' more. record { advances = more; header = tt })
  dispatch_validate-Safe (suc f) pod d nullable p size c r fuel = record {
    advances = Advances-refl r.context;
    header = tt;
  }

  -- On well-formed descriptors MojomStruct_Validate of a body that fills the memory, less than
  -- 4 GiB, from a fresh context, with fuel for twice its bytes and two more, ends with an acceptance
  -- or an error: it reads nothing outside the body. Where it accepts, `next_pointer` has not moved
  -- back nor past the end, and `next_handle_index` not past the handles.
  pub struct_validate_total :
      (d k : ℕ)
      → 2 * (m.size + 1) ≤ k
      → let start : Context = record { next_handle_index = 0; next_pointer = m.base } in
        Safe (Advances m num_handles start) (
          struct_validate m
            (dispatch_validate m t num_handles k)
            (t.struct_at d)
            m.base
            m.size
            start)
  struct_validate_total d k enough =
      struct_validate-Safe m t num_handles k _ (dispatch_validate-Safe k) small m.base m.size
        (omega arith) (omega arith) (t.struct_at d) _ (wf.structs d) (omega arith) (omega arith)
        (omega arith) (omega arith)
