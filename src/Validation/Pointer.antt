-- ===== src/Validation/Pointer.antt =====
-- validate_pointer and validate_handle.
use mojo.Prelude.{ℕ, ◌+◌, ◌%◌, ◌≤◌, ◌≡◌, ◌≢◌, ◌⊎◌, Bool, false, arith}
use mojo.Memory.{Memory, word64}
use mojo.Memory.Laws.{load64_lem}
use mojo.Validation.{Context, validate_pointer, validate_handle}
use mojo.Validation.Safe.{Safe, limit, IsContext, Advances}

-- What an accepted pointer at `p`, with `size` bytes from there on, is known to satisfy.
pub record Points (m : Memory) (p size : ℕ) (nullable : Bool) (c c' : Context) : Type 0 where
  pub within : word64 m.byte p ≤ size
  pub aligned : word64 m.byte p % 8 ≡ 0
  pub non_null : nullable ≡ false → word64 m.byte p ≢ 0
  pub handle : c'.next_handle_index ≡ c.next_handle_index
  pub forward : c.next_pointer ≤ c'.next_pointer
  pub null_or_target :
      ((word64 m.byte p ≡ 0) × (c'.next_pointer ≡ c.next_pointer))
      ⊎ (c'.next_pointer ≡ p + word64 m.byte p)

module _ (m : Memory) (p size : ℕ) (nullable : Bool) (c : Context) (low : m.base ≤ p)
    (high : p + 8 ≤ limit m) where
  pub validate_pointer-Safe :
      Safe (Points m p size nullable c) (validate_pointer m p size nullable c)
  unfolding validate_pointer
  validate_pointer-Safe = rw (load64_lem m p low high) (ground arith)

pub validate_handle-Safe :
    (m : Memory) (h num_handles : ℕ) (nullable : Bool) (c : Context)
    → IsContext m num_handles c
    → Safe (Advances m num_handles c) (validate_handle h num_handles nullable c)
unfolding validate_handle
validate_handle-Safe m h num_handles nullable c i = ground arith
