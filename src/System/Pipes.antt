-- ===== src/System/Pipes.antt =====
-- Message pipes and data pipes: MojoCreateMessagePipe to MojoEndReadData.
use mojo.Prelude.{ℕ, ◌%◌, Option, none, some, ◌==◌, if◌then◌else◌, word}
use mojo.System.{
  MojoResult, unknown, invalid_argument, permission_denied, resource_exhausted, failed_precondition,
  unimplemented, internal, should_wait, MxError, err_bad_handle, err_invalid_args,
  err_access_denied, err_no_memory, err_bad_state, err_channel_closed, err_not_enough_buffer,
  err_not_ready, Kernel, Reply, failed, answer, stored,
}

-- MojoCreateMessagePipe, MojoCreateDataPipe and MojoCreateSharedBuffer switch alike.
unfoldable pub create_error : MxError → MojoResult
create_error err_invalid_args = invalid_argument
create_error err_no_memory = resource_exhausted
create_error _ = unknown

-- The switch of MojoWriteMessage; ERR_TOO_BIG falls through.
unfoldable pub write_message_error : MxError → MojoResult
write_message_error err_invalid_args = invalid_argument
write_message_error err_access_denied = permission_denied
write_message_error err_bad_state = failed_precondition
write_message_error err_no_memory = resource_exhausted
write_message_error _ = unknown

unfoldable pub read_message_error : MxError → MojoResult
read_message_error err_invalid_args = invalid_argument
read_message_error err_access_denied = permission_denied
read_message_error err_bad_state = should_wait
read_message_error err_channel_closed = failed_precondition
read_message_error err_no_memory = resource_exhausted
read_message_error err_not_enough_buffer = resource_exhausted
read_message_error _ = unknown

-- The switches of the calls on data pipes, but for their defaults.
unfoldable pub data_pipe_error : MojoResult → MxError → MojoResult
data_pipe_error other err_bad_handle = invalid_argument
data_pipe_error other err_invalid_args = invalid_argument
data_pipe_error other err_access_denied = permission_denied
data_pipe_error other err_bad_state = failed_precondition
data_pipe_error other err_not_ready = should_wait
data_pipe_error other _ = other

-- The switch of MojoEndReadData, which does not name ERR_NOT_READY.
unfoldable pub end_read_error : MxError → MojoResult
end_read_error err_bad_handle = invalid_argument
end_read_error err_invalid_args = invalid_argument
end_read_error err_access_denied = permission_denied
end_read_error err_bad_state = failed_precondition
end_read_error _ = internal

-- `struct MojoCreateDataPipeOptions`.
pub record DataPipeOptions : Type 0 where
  pub flags : ℕ
  pub element_num_bytes : ℕ
  pub capacity_num_bytes : ℕ

-- `(uint32_t)` of a number of bytes.
abbrev pub to_uint32 : ℕ → ℕ
to_uint32 n = n % word

-- `UINTPTR_MAX`.
abbrev pub uintptr_max : ℕ
uintptr_max = 0xffffffffffffffff

module _ (k : Kernel) where
  open k use {State}

  -- `MojoCreateMessagePipe`; of the options only the flags are read.
  unfoldable pub create_message_pipe : Option ℕ → State → Reply (ℕ × ℕ) × State
  unfolding create_error
  create_message_pipe none s = answer create_error stored (k.message_pipe_create 0 s)
  create_message_pipe (some flags) s =
      if flags == 0
      then answer create_error stored (k.message_pipe_create 0 s)
      else (failed invalid_argument, s)

  -- `MojoWriteMessage`.
  unfoldable pub write_message : ℕ → ℕ → ℕ → ℕ → ℕ → ℕ → State → Reply (Unit {0}) × State
  unfolding write_message_error
  write_message pipe bytes num_bytes handles num_handles flags s =
      answer write_message_error stored
        (k.message_write pipe bytes num_bytes handles num_handles flags s)

  -- `MojoReadMessage`. The kernel stores the message and the two numbers through the addresses, the
  -- numbers also where they are too small.
  unfoldable pub read_message : ℕ → ℕ → ℕ → ℕ → ℕ → ℕ → State → Reply (Unit {0}) × State
  unfolding read_message_error
  read_message pipe bytes num_bytes handles num_handles flags s =
      answer read_message_error stored
        (k.message_read pipe bytes num_bytes handles num_handles flags s)

  -- `MojoCreateDataPipe`.
  unfoldable pub create_data_pipe : Option DataPipeOptions → State → Reply (ℕ × ℕ) × State
  unfolding create_error
  create_data_pipe none s = answer create_error stored (k.data_pipe_create 0 1 0 s)
  create_data_pipe (some o) s =
      if o.flags == 0
      then answer create_error stored
          (k.data_pipe_create 0 o.element_num_bytes o.capacity_num_bytes s)
      else (failed unimplemented, s)

  -- `MojoSetDataPipeProducerOptions`, `MojoGetDataPipeProducerOptions` and those of the consumer.
  unfoldable pub data_pipe_options : ℕ → State → Reply (Unit {0}) × State
  data_pipe_options handle s = (failed unimplemented, s)

  -- `MojoWriteData`: `num_bytes` is what `*num_bytes` holds.
  unfoldable pub write_data : ℕ → ℕ → ℕ → ℕ → State → Reply ℕ × State
  unfolding data_pipe_error
  write_data producer elements num_bytes flags s =
      if flags == 0
      then answer (data_pipe_error unknown) to_uint32
          (k.data_pipe_write producer 0 num_bytes elements s)
      else (failed unimplemented, s)

  -- `MojoBeginWriteData`.
  unfoldable pub begin_write_data : ℕ → ℕ → ℕ → State → Reply ℕ × State
  unfolding data_pipe_error
  begin_write_data producer buffer flags s =
      if flags == 0
      then answer (data_pipe_error unknown) to_uint32
          (k.data_pipe_begin_write producer 0 uintptr_max buffer s)
      else (failed unimplemented, s)

  -- `MojoEndWriteData`.
  unfoldable pub end_write_data : ℕ → ℕ → State → Reply (Unit {0}) × State
  unfolding data_pipe_error
  end_write_data producer num_bytes_written s =
      answer (data_pipe_error internal) stored (k.data_pipe_end_write producer num_bytes_written s)

  -- `MojoReadData`.
  unfoldable pub read_data : ℕ → ℕ → ℕ → ℕ → State → Reply ℕ × State
  unfolding data_pipe_error
  read_data consumer elements num_bytes flags s =
      if flags == 0
      then answer (data_pipe_error internal) to_uint32
          (k.data_pipe_read consumer 0 num_bytes elements s)
      else (failed unimplemented, s)

  -- `MojoBeginReadData`.
  unfoldable pub begin_read_data : ℕ → ℕ → ℕ → State → Reply ℕ × State
  unfolding data_pipe_error
  begin_read_data consumer buffer flags s =
      if flags == 0
      then answer (data_pipe_error internal) to_uint32
          (k.data_pipe_begin_read consumer 0 uintptr_max buffer s)
      else (failed unimplemented, s)

  -- `MojoEndReadData`.
  unfoldable pub end_read_data : ℕ → ℕ → State → Reply (Unit {0}) × State
  unfolding end_read_error
  end_read_data consumer num_bytes_read s =
      answer end_read_error stored (k.data_pipe_end_read consumer num_bytes_read s)
