-- ===== src/Validation/Spec.antt =====
-- What one call of MojomType_DispatchValidate owes its caller, and what it may rely on.
use mojo.Prelude.{ℕ, ◌+◌, ◌-◌, ◌*◌, ◌≤◌, ◌<◌, ◌≡◌, Bool, false, arith}
use mojo.Memory.{Memory, word64}
use mojo.Descriptor.{ElemType, array_ptr, union_inline, Descriptors}
use mojo.Descriptor.WellFormed.{width, IsPlain, RefersWell}
use mojo.Validation.{Context, Dispatch}
use mojo.Validation.Safe.{Safe, limit, IsContext, Advances}

-- A pointer to an array that must not be null leads to a whole array header.
abbrev pub HeaderAt : Memory → ElemType → Bool → ℕ → ℕ → Type 0
HeaderAt m array_ptr false p size = word64 m.byte p + 8 ≤ size
HeaderAt m _ _ p size = Unit

-- A union in place takes one call more than what it holds.
abbrev pub rank : ElemType → ℕ
rank union_inline = 1
rank _ = 0

pub rank-le : (ty : ElemType) → rank ty ≤ 1
rank-le union_inline = omega arith
rank-le _ = omega arith

-- The fuel that suffices from a context on: each object claims bytes that no other may claim.
abbrev pub budget : Memory → ElemType → Context → ℕ
budget m ty c = rank ty + 2 * (limit m + 1 - c.next_pointer)

-- The element lies in the memory, with all that is left behind it, and the context is sound.
pub record Ready (m : Memory) (t : Descriptors) (num_handles : ℕ) (ty : ElemType) (d p size : ℕ)
    (c : Context) : Type 0 where
  pub plain : IsPlain ty
  pub refers : RefersWell t ty d
  pub low : m.base ≤ p
  pub high : p + size ≡ limit m
  pub room : width ty ≤ size
  pub context : IsContext m num_handles c

pub record Done (m : Memory) (num_handles : ℕ) (ty : ElemType) (nullable : Bool) (p size : ℕ)
    (c c' : Context) : Type 0 where
  pub advances : Advances m num_handles c c'
  pub header : HeaderAt m ty nullable p size

abbrev pub SafeDispatch : Memory → Descriptors → ℕ → ℕ → Dispatch → Type 0
SafeDispatch m t num_handles k dispatch =
    (ty : ElemType) (d : ℕ) (nullable : Bool) (p size : ℕ) (c : Context)
    → Ready m t num_handles ty d p size c
    → budget m ty c < k
    → Safe (Done m num_handles ty nullable p size c) (dispatch ty d nullable p size c)
