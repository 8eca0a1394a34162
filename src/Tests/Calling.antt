-- ===== src/Tests/Calling.antt =====
-- The calls of system/mojo.c at small inputs.
use mojo.Prelude.{◌&&◌, ℕ, ◌+◌, ◌*◌, ◌≤◌, ◌≡◌, refl, Option, none, some, arith, ◌==◌, if◌then◌else◌}
use mojo.System.{invalid_argument}
use mojo.System.Handles.{
  close, close_error, rights_error, get_rights, and_not, duplicate_handle_with_reduced_rights,
  replace_handle_with_reduced_rights,
}
use mojo.System.Waiting.{plus, word_64, time_to_mojo_ticks, mojo_deadline_to_time}
use mojo.System.WaitSets.{check_options, refuse_options}
use mojo.System.Calls.{call_get_rights, perform, is_ok, has_out}
use mojo.System.Contract.{stores-when-ok}
use mojo.System.Deadlines.{time_to_mojo_ticks-mojo_deadline_to_time, mojo_deadline_to_time-wraps}
use mojo.System.Replace.{
  Duplicated, Replaced, replace_reduced-Replaced, replace_reduced-leaks, replace_reduced-keeps,
}
use mojo.Tests.Kernel.{Handles, table_kernel, table_kernel_table}

-- Handles 3 and 7, both with all of the rights 1, 2, 4 and 8.
abbrev two : ℕ → Option ℕ
two h = if h == 3 then some 15 else if h == 7 then some 15 else none

two-free : (h : ℕ) → 8 ≤ h → two h ≡ none
two-free h le = ground arith

abbrev two_handles : Handles
two_handles = record { table = two; bound = 8; free = two-free }

replaced_rights :
    (replace_handle_with_reduced_rights table_kernel 3 6 two_handles).1.table 8 ≡ some 9
unfolding replace_handle_with_reduced_rights duplicate_handle_with_reduced_rights get_rights close
    close_error rights_error and_not
replaced_rights = refl

short_options : check_options (some (record { struct_size = 3; flags = 0 })) ≡ some invalid_argument
unfolding check_options refuse_options
short_options = refl

old_options : check_options (some (record { struct_size = 4; flags = 9 })) ≡ none
unfolding check_options refuse_options
old_options = refl

stores-when-ok_example : (perform table_kernel (call_get_rights 3) two_handles).0.stores ≡ (
    has_out (call_get_rights 3)
    && is_ok (perform table_kernel (call_get_rights 3) two_handles).0.result)
stores-when-ok_example = stores-when-ok table_kernel (call_get_rights 3) two_handles

time_to_mojo_ticks-mojo_deadline_to_time_example :
    time_to_mojo_ticks (mojo_deadline_to_time 0xffffffffffffffff 5000000) ≡ plus 5000000
time_to_mojo_ticks-mojo_deadline_to_time_example =
    time_to_mojo_ticks-mojo_deadline_to_time 0xffffffffffffffff 5000000 (omega arith)

mojo_deadline_to_time-wraps_example :
    mojo_deadline_to_time 0xffffffffffffffff 18446744073709552 + word_64 ≤ 18446744073709552 * 1000
mojo_deadline_to_time-wraps_example =
    mojo_deadline_to_time-wraps 0xffffffffffffffff 18446744073709552 (omega arith)
      (λ e. ground arith)

replace_reduced-Replaced_example :
    Replaced table_kernel table_kernel_table 3 6 8 two_handles
      (replace_handle_with_reduced_rights table_kernel 3 6 two_handles).1
unfolding replace_handle_with_reduced_rights duplicate_handle_with_reduced_rights get_rights close
    close_error rights_error and_not
replace_reduced-Replaced_example =
    replace_reduced-Replaced table_kernel table_kernel_table 3 6 8 two_handles refl

replace_reduced-leaks_example :
    ((replace_handle_with_reduced_rights table_kernel 7 6 two_handles).0.out ≡ none)
    × Duplicated table_kernel table_kernel_table 7 6 8 two_handles
        (replace_handle_with_reduced_rights table_kernel 7 6 two_handles).1
unfolding duplicate_handle_with_reduced_rights get_rights close close_error rights_error and_not
replace_reduced-leaks_example =
    replace_reduced-leaks table_kernel table_kernel_table 7 6 8 two_handles refl refl

replace_reduced-keeps_example :
    table_kernel_table.rights_of
      (replace_handle_with_reduced_rights table_kernel 7 6 two_handles).1
      7
    ≡ some 15
unfolding replace_handle_with_reduced_rights duplicate_handle_with_reduced_rights get_rights close
    close_error rights_error and_not
replace_reduced-keeps_example =
    replace_reduced-keeps table_kernel table_kernel_table 7 6 7 15 two_handles refl refl
