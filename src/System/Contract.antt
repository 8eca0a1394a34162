-- ===== src/System/Contract.antt =====
-- When the calls of mojo.c store through their out parameters, the kernel's stores aside.
use mojo.Prelude.{ℕ, ◌&&◌, ◌≡◌, refl, none, some, arith}
use mojo.System.{Kernel, unknown, internal, stored}
use mojo.System.Handles.{
  and_not, close_error, duplicate_error, rights_error, close, duplicate_handle, get_rights,
  duplicate_handle_with_reduced_rights, replace_handle_with_reduced_rights,
}
use mojo.System.Waiting.{wait, wait_many}
use mojo.System.Pipes.{
  create_error, data_pipe_error, create_message_pipe, write_message, read_message, create_data_pipe,
  data_pipe_options, write_data, begin_write_data, end_write_data, read_data, begin_read_data,
  end_read_data, uintptr_max, to_uint32,
}
use mojo.System.Buffers.{
  buffer_information_error, create_shared_buffer, duplicate_buffer_handle, get_buffer_information,
  map_buffer, unmap_buffer, information_of,
}
use mojo.System.WaitSets.{
  wait_set_create_error, check_options, create_wait_set, wait_set_add, wait_set_remove,
  wait_set_wait,
}
use mojo.System.Calls.{
  Call, call_begin_read_data, call_begin_write_data, call_close, call_create_data_pipe,
  call_create_message_pipe, call_create_shared_buffer, call_create_wait_set, call_data_pipe_options,
  call_duplicate, call_duplicate_buffer, call_duplicate_reduced, call_end_read_data,
  call_end_write_data, call_get_buffer_information, call_get_rights, call_map_buffer,
  call_read_data, call_read_message, call_replace_reduced, call_unmap_buffer, call_wait,
  call_wait_many, call_wait_set_add, call_wait_set_remove, call_wait_set_wait, call_write_data,
  call_write_message, is_some, is_ok, outcome, plain_outcome, perform, has_out,
}
use mojo.System.Errors.{
  Agrees, answer-Agrees, next-Agrees, unless-Agrees, check_options-Fails, close_error-Fails,
  duplicate_error-Fails, rights_error-Fails, create_error-Fails, buffer_information_error-Fails,
  wait_set_create_error-Fails, data_pipe_error-Fails,
}

close-Agrees : (k : Kernel) (h : ℕ) (s : k.State) → Agrees (close k h s).0
unfolding close
close-Agrees k h s = answer-Agrees close_error stored (k.handle_close h s) close_error-Fails

get_rights-Agrees : (k : Kernel) (h : ℕ) (s : k.State) → Agrees (get_rights k h s).0
unfolding get_rights
get_rights-Agrees k h s =
    answer-Agrees rights_error stored (k.handle_get_info h s) rights_error-Fails

duplicate_reduced-Agrees :
    (k : Kernel) (h removed : ℕ) (s : k.State)
    → Agrees (duplicate_handle_with_reduced_rights k h removed s).0
unfolding duplicate_handle_with_reduced_rights
duplicate_reduced-Agrees k h removed s =
    next-Agrees (get_rights k h s) _ (get_rights-Agrees k h s) (λ original s'.
      answer-Agrees rights_error stored (k.handle_duplicate h (and_not original removed) s')
        rights_error-Fails)

replace_reduced-Agrees :
    (k : Kernel) (h removed : ℕ) (s : k.State)
    → Agrees (replace_handle_with_reduced_rights k h removed s).0
unfolding replace_handle_with_reduced_rights is_some is_ok
replace_reduced-Agrees k h removed s =
    next-Agrees (duplicate_handle_with_reduced_rights k h removed s) _
      (duplicate_reduced-Agrees k h removed s)
      (λ new s'. next-Agrees (close k h s') _ (close-Agrees k h s') (λ _ s''. refl))

-- Whatever the kernel answers, a call with an out parameter that mojo.c itself stores through stores
-- there exactly if its result is MOJO_RESULT_OK, and mojo.c stores nothing in any other call.
pub stores-when-ok :
    (k : Kernel) (c : Call) (s : k.State)
    → (perform k c s).0.stores ≡ (has_out c && is_ok (perform k c s).0.result)
unfolding perform outcome plain_outcome has_out is_some is_ok close duplicate_handle get_rights
    duplicate_handle_with_reduced_rights replace_handle_with_reduced_rights wait wait_many
    create_message_pipe write_message read_message create_data_pipe data_pipe_options write_data
    begin_write_data end_write_data read_data begin_read_data end_read_data create_shared_buffer
    duplicate_buffer_handle get_buffer_information map_buffer unmap_buffer create_wait_set
    wait_set_add wait_set_remove wait_set_wait
stores-when-ok k (call_close h) s = refl
stores-when-ok k (call_duplicate h) s =
    answer-Agrees duplicate_error stored (k.handle_duplicate h k.same_rights s)
      duplicate_error-Fails
stores-when-ok k (call_get_rights h) s =
    answer-Agrees rights_error stored (k.handle_get_info h s) rights_error-Fails
stores-when-ok k (call_duplicate_reduced h r) s = duplicate_reduced-Agrees k h r s
stores-when-ok k (call_replace_reduced h r) s = replace_reduced-Agrees k h r s
stores-when-ok k (call_wait h x d p) s = refl
stores-when-ok k (call_wait_many h x n d i p) s = refl
stores-when-ok k (call_create_message_pipe none) s =
    answer-Agrees create_error stored (k.message_pipe_create 0 s) create_error-Fails
stores-when-ok k (call_create_message_pipe (some o)) s =
    let z = answer-Agrees create_error stored (k.message_pipe_create 0 s) create_error-Fails in
    ground arith
stores-when-ok k (call_write_message p b n h m f) s = refl
stores-when-ok k (call_read_message p b n h m f) s = refl
stores-when-ok k (call_create_data_pipe none) s =
    answer-Agrees create_error stored (k.data_pipe_create 0 1 0 s) create_error-Fails
stores-when-ok k (call_create_data_pipe (some o)) s =
    let z =
      answer-Agrees create_error stored
        (k.data_pipe_create 0 o.element_num_bytes o.capacity_num_bytes s) create_error-Fails in
    ground arith
stores-when-ok k (call_data_pipe_options h) s = refl
stores-when-ok k (call_write_data p e n f) s =
    let z =
      answer-Agrees (data_pipe_error unknown) to_uint32 (k.data_pipe_write p 0 n e s)
        (data_pipe_error-Fails unknown refl) in
    ground arith
stores-when-ok k (call_begin_write_data p b f) s =
    let z =
      answer-Agrees (data_pipe_error unknown) to_uint32
        (k.data_pipe_begin_write p 0 uintptr_max b s) (data_pipe_error-Fails unknown refl) in
    ground arith
stores-when-ok k (call_end_write_data p n) s = refl
stores-when-ok k (call_read_data p e n f) s =
    let z =
      answer-Agrees (data_pipe_error internal) to_uint32 (k.data_pipe_read p 0 n e s)
        (data_pipe_error-Fails internal refl) in
    ground arith
stores-when-ok k (call_begin_read_data p b f) s =
    let z =
      answer-Agrees (data_pipe_error internal) to_uint32
        (k.data_pipe_begin_read p 0 uintptr_max b s) (data_pipe_error-Fails internal refl) in
    ground arith
stores-when-ok k (call_end_read_data p n) s = refl
stores-when-ok k (call_create_shared_buffer none n) s =
    answer-Agrees create_error stored (k.vm_object_create n s) create_error-Fails
stores-when-ok k (call_create_shared_buffer (some f) n) s =
    let z = answer-Agrees create_error stored (k.vm_object_create n s) create_error-Fails in
    ground arith
stores-when-ok k (call_duplicate_buffer h none) s =
    answer-Agrees duplicate_error stored (k.handle_duplicate h k.same_rights s)
      duplicate_error-Fails
stores-when-ok k (call_duplicate_buffer h (some f)) s =
    let z =
      answer-Agrees duplicate_error stored (k.handle_duplicate h k.same_rights s)
        duplicate_error-Fails in
    ground arith
stores-when-ok k (call_get_buffer_information h i n) s =
    let z =
      answer-Agrees buffer_information_error information_of (k.vm_object_get_size h s)
        buffer_information_error-Fails in
    ground arith
stores-when-ok k (call_map_buffer h o n b f) s = refl
stores-when-ok k (call_unmap_buffer b) s = refl
stores-when-ok k (call_create_wait_set o) s =
    unless-Agrees (check_options o) s _ (check_options-Fails o)
      (answer-Agrees wait_set_create_error stored (k.wait_set_create s) wait_set_create_error-Fails)
stores-when-ok k (call_wait_set_add w h x c o) s = refl
stores-when-ok k (call_wait_set_remove w c) s = refl
stores-when-ok k (call_wait_set_wait w d n r m) s = refl
