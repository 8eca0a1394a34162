-- ===== src/System/Handles.antt =====
-- The calls on handles: MojoClose to MojoDuplicateHandleWithReducedRights.
use Prim.Native.Nat.{bit_and}
use mojo.Prelude.{ℕ, ◌-◌}
use mojo.System.{
  MojoResult, unknown, invalid_argument, permission_denied, resource_exhausted, busy, MxError,
  err_bad_handle, err_invalid_args, err_access_denied, err_no_memory, err_busy, Kernel, Reply,
  succeeded, answer, stored, next,
}

unfoldable pub close_error : MxError → MojoResult
close_error err_invalid_args = invalid_argument
close_error _ = unknown

unfoldable pub duplicate_error : MxError → MojoResult
duplicate_error err_bad_handle = invalid_argument
duplicate_error err_invalid_args = invalid_argument
duplicate_error err_access_denied = permission_denied
duplicate_error err_no_memory = resource_exhausted
duplicate_error _ = unknown

-- The switch of MojoGetRights, and that of MojoDuplicateHandleWithReducedRights.
unfoldable pub rights_error : MxError → MojoResult
rights_error err_busy = busy
rights_error err_bad_handle = invalid_argument
rights_error err_invalid_args = invalid_argument
rights_error err_access_denied = permission_denied
rights_error err_no_memory = resource_exhausted
rights_error _ = unknown

-- `a & ~b`: the bits of `a` that `b` has not.
unfoldable pub and_not : ℕ → ℕ → ℕ
and_not a b = a - bit_and a b

module _ (k : Kernel) where
  open k use {State}

  -- `MojoClose`.
  unfoldable pub close : ℕ → State → Reply (Unit {0}) × State
  unfolding close_error
  close handle s = answer close_error stored (k.handle_close handle s)

  -- `MojoDuplicateHandle`.
  unfoldable pub duplicate_handle : ℕ → State → Reply ℕ × State
  unfolding duplicate_error
  duplicate_handle handle s =
      answer duplicate_error stored (k.handle_duplicate handle k.same_rights s)

  -- `MojoGetRights`.
  unfoldable pub get_rights : ℕ → State → Reply ℕ × State
  unfolding rights_error
  get_rights handle s = answer rights_error stored (k.handle_get_info handle s)

  -- `MojoDuplicateHandleWithReducedRights`.
  unfoldable pub duplicate_handle_with_reduced_rights : ℕ → ℕ → State → Reply ℕ × State
  unfolding get_rights rights_error and_not
  duplicate_handle_with_reduced_rights handle rights_to_remove s =
      next (get_rights handle s) (λ original_rights s'.
        answer rights_error stored
          (k.handle_duplicate handle (and_not original_rights rights_to_remove) s'))

  -- `MojoReplaceHandleWithReducedRights`.
  unfoldable pub replace_handle_with_reduced_rights : ℕ → ℕ → State → Reply ℕ × State
  unfolding duplicate_handle_with_reduced_rights close
  replace_handle_with_reduced_rights handle rights_to_remove s =
      next (duplicate_handle_with_reduced_rights handle rights_to_remove s)
        (λ new_handle s'. next (close handle s') (λ _ s''. (succeeded new_handle, s'')))
