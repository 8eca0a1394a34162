-- ===== src/System/WaitSets.antt =====
-- Wait sets: MojoCreateWaitSet to MojoWaitSetWait.
use mojo.Prelude.{ℕ, Option, none, some, ltb, ◌==◌, if◌then◌else◌}
use mojo.System.{
  MojoResult, unknown, invalid_argument, deadline_exceeded, not_found, already_exists,
  permission_denied, resource_exhausted, unimplemented, MxError, err_bad_handle, err_invalid_args,
  err_access_denied, err_no_memory, err_timed_out, err_not_supported, err_already_exists,
  err_not_found, Kernel, Reply, unless, answer, stored,
}
use mojo.System.Waiting.{mojo_deadline_to_time}

unfoldable pub wait_set_create_error : MxError → MojoResult
wait_set_create_error err_no_memory = resource_exhausted
wait_set_create_error _ = unknown

unfoldable pub wait_set_add_error : MxError → MojoResult
wait_set_add_error err_no_memory = resource_exhausted
wait_set_add_error err_bad_handle = invalid_argument
wait_set_add_error err_invalid_args = invalid_argument
wait_set_add_error err_access_denied = permission_denied
wait_set_add_error err_not_supported = invalid_argument
wait_set_add_error err_already_exists = already_exists
wait_set_add_error _ = unknown

unfoldable pub wait_set_remove_error : MxError → MojoResult
wait_set_remove_error err_bad_handle = invalid_argument
wait_set_remove_error err_invalid_args = invalid_argument
wait_set_remove_error err_access_denied = permission_denied
wait_set_remove_error err_not_found = not_found
wait_set_remove_error _ = unknown

unfoldable pub wait_set_wait_error : MxError → MojoResult
wait_set_wait_error err_no_memory = resource_exhausted
wait_set_wait_error err_bad_handle = invalid_argument
wait_set_wait_error err_invalid_args = invalid_argument
wait_set_wait_error err_access_denied = permission_denied
wait_set_wait_error err_timed_out = deadline_exceeded
wait_set_wait_error _ = unknown

-- `struct MojoCreateWaitSetOptions` and `struct MojoWaitSetAddOptions`, which have these fields, at
-- 0 and 4.
pub record WaitSetOptions : Type 0 where
  pub struct_size : ℕ
  pub flags : ℕ

-- The two ifs on options: what they return, if they do.
unfoldable pub refuse_options : WaitSetOptions → Option MojoResult
refuse_options o =
    if ltb o.struct_size 4
    then some invalid_argument
    else if ltb o.struct_size 8
    then none
    else if o.flags == 0
    then none
    else some unimplemented

-- And those of options that may be null.
unfoldable pub check_options : Option WaitSetOptions → Option MojoResult
unfolding refuse_options
check_options none = none
check_options (some o) = refuse_options o

module _ (k : Kernel) where
  open k use {State}

  -- `MojoCreateWaitSet`.
  unfoldable pub create_wait_set : Option WaitSetOptions → State → Reply ℕ × State
  unfolding check_options wait_set_create_error
  create_wait_set options s =
      unless (check_options options) s (answer wait_set_create_error stored (k.wait_set_create s))

  -- `MojoWaitSetAdd`.
  unfoldable pub wait_set_add :
      ℕ → ℕ → ℕ → ℕ → Option WaitSetOptions → State → Reply (Unit {0}) × State
  unfolding check_options wait_set_add_error
  wait_set_add wait_set handle signals cookie options s =
      unless (check_options options) s
        (answer wait_set_add_error stored (k.wait_set_add wait_set handle signals cookie s))

  -- `MojoWaitSetRemove`.
  unfoldable pub wait_set_remove : ℕ → ℕ → State → Reply (Unit {0}) × State
  unfolding wait_set_remove_error
  wait_set_remove wait_set cookie s =
      answer wait_set_remove_error stored (k.wait_set_remove wait_set cookie s)

  -- `MojoWaitSetWait`.
  unfoldable pub wait_set_wait : ℕ → ℕ → ℕ → ℕ → ℕ → State → Reply (Unit {0}) × State
  unfolding wait_set_wait_error mojo_deadline_to_time
  wait_set_wait wait_set deadline num_results results max_results s =
      answer wait_set_wait_error stored (
        k.wait_set_wait wait_set (mojo_deadline_to_time k.time_infinite deadline) num_results
          results max_results s)
