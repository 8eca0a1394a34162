-- ===== src/System/Calls.antt =====
-- The calls that system/mojo.c defines, with their arguments, as values: a program is what it calls.
use mojo.Prelude.{ℕ, Option, none, some, Bool, true, false}
use mojo.System.{Kernel, Reply, MojoResult, ok}
use mojo.System.Handles.{
  close, duplicate_handle, get_rights, duplicate_handle_with_reduced_rights,
  replace_handle_with_reduced_rights,
}
use mojo.System.Waiting.{wait, wait_many}
use mojo.System.Pipes.{
  DataPipeOptions, create_message_pipe, write_message, read_message, create_data_pipe,
  data_pipe_options, write_data, begin_write_data, end_write_data, read_data, begin_read_data,
  end_read_data,
}
use mojo.System.Buffers.{
  create_shared_buffer, duplicate_buffer_handle, get_buffer_information, map_buffer, unmap_buffer,
}
use mojo.System.WaitSets.{
  WaitSetOptions, create_wait_set, wait_set_add, wait_set_remove, wait_set_wait,
}

-- One constructor for each function, but for MojoGetTimeTicksNow, which returns no MojoResult.
pub data Call : Type 0 where
  call_close call_duplicate call_get_rights : ℕ → Call
  call_duplicate_reduced call_replace_reduced : ℕ → ℕ → Call
  call_wait : ℕ → ℕ → ℕ → ℕ → Call
  call_wait_many : ℕ → ℕ → ℕ → ℕ → ℕ → ℕ → Call
  call_create_message_pipe : Option ℕ → Call
  call_write_message call_read_message : ℕ → ℕ → ℕ → ℕ → ℕ → ℕ → Call
  call_create_data_pipe : Option DataPipeOptions → Call
  call_data_pipe_options : ℕ → Call
  call_write_data call_read_data : ℕ → ℕ → ℕ → ℕ → Call
  call_begin_write_data call_begin_read_data : ℕ → ℕ → ℕ → Call
  call_end_write_data call_end_read_data : ℕ → ℕ → Call
  call_create_shared_buffer : Option ℕ → ℕ → Call
  call_duplicate_buffer : ℕ → Option ℕ → Call
  call_get_buffer_information : ℕ → ℕ → ℕ → Call
  call_map_buffer : ℕ → ℕ → ℕ → ℕ → ℕ → Call
  call_unmap_buffer : ℕ → Call
  call_create_wait_set : Option WaitSetOptions → Call
  call_wait_set_add : ℕ → ℕ → ℕ → ℕ → Option WaitSetOptions → Call
  call_wait_set_remove : ℕ → ℕ → Call
  call_wait_set_wait : ℕ → ℕ → ℕ → ℕ → ℕ → Call

-- What a call returns, and whether mojo.c has stored through an out parameter. What the kernel stores
-- through the pointers that it is given is in the kernel's state, whatever the result.
pub record Outcome : Type 0 where
  pub result : MojoResult
  pub stores : Bool

unfoldable pub is_some : {A : Type 0} → Option A → Bool
is_some none = false
is_some (some _) = true

unfoldable pub is_ok : MojoResult → Bool
is_ok ok = true
is_ok _ = false

unfoldable pub outcome : {A S : Type 0} → Reply A × S → Outcome × S
unfolding is_some
outcome (r, s) = (record { result = r.result; stores = is_some r.out }, s)

-- A call for which mojo.c itself stores nothing.
unfoldable pub plain_outcome : {S : Type 0} → Reply (Unit {0}) × S → Outcome × S
plain_outcome (r, s) = (record { result = r.result; stores = false }, s)

-- A call in a state of the kernel.
unfoldable pub perform : (k : Kernel) → Call → k.State → Outcome × k.State
unfolding close duplicate_handle get_rights duplicate_handle_with_reduced_rights
    replace_handle_with_reduced_rights wait wait_many create_message_pipe write_message read_message
    create_data_pipe data_pipe_options write_data begin_write_data end_write_data read_data
    begin_read_data end_read_data create_shared_buffer duplicate_buffer_handle
    get_buffer_information map_buffer unmap_buffer create_wait_set wait_set_add wait_set_remove
    wait_set_wait outcome plain_outcome
perform k (call_close h) s = plain_outcome (close k h s)
perform k (call_duplicate h) s = outcome (duplicate_handle k h s)
perform k (call_get_rights h) s = outcome (get_rights k h s)
perform k (call_duplicate_reduced h r) s = outcome (duplicate_handle_with_reduced_rights k h r s)
perform k (call_replace_reduced h r) s = outcome (replace_handle_with_reduced_rights k h r s)
perform k (call_wait h x d p) s = plain_outcome (wait k h x d p s)
perform k (call_wait_many h x n d i p) s = plain_outcome (wait_many k h x n d i p s)
perform k (call_create_message_pipe o) s = outcome (create_message_pipe k o s)
perform k (call_write_message p b n h m f) s = plain_outcome (write_message k p b n h m f s)
perform k (call_read_message p b n h m f) s = plain_outcome (read_message k p b n h m f s)
perform k (call_create_data_pipe o) s = outcome (create_data_pipe k o s)
perform k (call_data_pipe_options h) s = plain_outcome (data_pipe_options k h s)
perform k (call_write_data p e n f) s = outcome (write_data k p e n f s)
perform k (call_begin_write_data p b f) s = outcome (begin_write_data k p b f s)
perform k (call_end_write_data p n) s = plain_outcome (end_write_data k p n s)
perform k (call_read_data p e n f) s = outcome (read_data k p e n f s)
perform k (call_begin_read_data p b f) s = outcome (begin_read_data k p b f s)
perform k (call_end_read_data p n) s = plain_outcome (end_read_data k p n s)
perform k (call_create_shared_buffer o n) s = outcome (create_shared_buffer k o n s)
perform k (call_duplicate_buffer h o) s = outcome (duplicate_buffer_handle k h o s)
perform k (call_get_buffer_information h i n) s = outcome (get_buffer_information k h i n s)
perform k (call_map_buffer h o n b f) s = plain_outcome (map_buffer k h o n b f s)
perform k (call_unmap_buffer b) s = plain_outcome (unmap_buffer k b s)
perform k (call_create_wait_set o) s = outcome (create_wait_set k o s)
perform k (call_wait_set_add w h x c o) s = plain_outcome (wait_set_add k w h x c o s)
perform k (call_wait_set_remove w c) s = plain_outcome (wait_set_remove k w c s)
perform k (call_wait_set_wait w d n r m) s = plain_outcome (wait_set_wait k w d n r m s)

-- Whether the call has an out parameter that mojo.c itself stores through: those of the other calls,
-- where they have any, are the kernel's to write.
unfoldable pub has_out : Call → Bool
has_out (call_duplicate _) = true
has_out (call_get_rights _) = true
has_out (call_duplicate_reduced _ _) = true
has_out (call_replace_reduced _ _) = true
has_out (call_create_message_pipe _) = true
has_out (call_create_data_pipe _) = true
has_out (call_write_data _ _ _ _) = true
has_out (call_begin_write_data _ _ _) = true
has_out (call_read_data _ _ _ _) = true
has_out (call_begin_read_data _ _ _) = true
has_out (call_create_shared_buffer _ _) = true
has_out (call_duplicate_buffer _ _) = true
has_out (call_get_buffer_information _ _ _) = true
has_out (call_create_wait_set _) = true
has_out _ = false
