-- ===== src/System/Buffers.antt =====
-- Shared buffers: MojoCreateSharedBuffer to MojoUnmapBuffer.
use mojo.Prelude.{ℕ, Option, none, some, ◌||◌, ltb, ◌==◌, if◌then◌else◌}
use mojo.System.{
  MojoResult, unknown, invalid_argument, permission_denied, resource_exhausted, unimplemented,
  MxError, err_invalid_args, err_access_denied, err_no_memory, Kernel, Reply, failed, answer,
  stored,
}
use mojo.System.Handles.{duplicate_handle}
use mojo.System.Pipes.{create_error}

-- The switch of MojoGetBufferInformation.
unfoldable pub buffer_information_error : MxError → MojoResult
buffer_information_error err_invalid_args = invalid_argument
buffer_information_error err_access_denied = permission_denied
buffer_information_error _ = unknown

unfoldable pub map_error : MxError → MojoResult
map_error err_invalid_args = invalid_argument
map_error err_access_denied = permission_denied
map_error err_no_memory = resource_exhausted
map_error _ = unknown

unfoldable pub unmap_error : MxError → MojoResult
unmap_error err_invalid_args = invalid_argument
unmap_error _ = unknown

-- `struct MojoBufferInformation`.
pub record BufferInformation : Type 0 where
  pub struct_size : ℕ
  pub flags : ℕ
  pub num_bytes : ℕ

-- What MojoGetBufferInformation stores of a buffer of `n` bytes.
abbrev pub information_of : ℕ → BufferInformation
information_of n = record { struct_size = 16; flags = 0; num_bytes = n }

module _ (k : Kernel) where
  open k use {State}

  -- `MojoCreateSharedBuffer`; of the options only the flags are read.
  unfoldable pub create_shared_buffer : Option ℕ → ℕ → State → Reply ℕ × State
  unfolding create_error
  create_shared_buffer none num_bytes s =
      answer create_error stored (k.vm_object_create num_bytes s)
  create_shared_buffer (some flags) num_bytes s =
      if flags == 0
      then answer create_error stored (k.vm_object_create num_bytes s)
      else (failed unimplemented, s)

  -- `MojoDuplicateBufferHandle`; of the options only the flags are read.
  unfoldable pub duplicate_buffer_handle : ℕ → Option ℕ → State → Reply ℕ × State
  unfolding duplicate_handle
  duplicate_buffer_handle handle none s = duplicate_handle k handle s
  duplicate_buffer_handle handle (some flags) s =
      if flags == 0 then duplicate_handle k handle s else (failed unimplemented, s)

  -- `MojoGetBufferInformation`: `info` is an address, and null is 0.
  unfoldable pub get_buffer_information : ℕ → ℕ → ℕ → State → Reply BufferInformation × State
  unfolding buffer_information_error
  get_buffer_information handle info info_num_bytes s =
      if (info == 0) || ltb info_num_bytes 16
      then (failed invalid_argument, s)
      else answer buffer_information_error information_of (k.vm_object_get_size handle s)

  -- `MojoMapBuffer`: the kernel stores the address of the mapping at `buffer`.
  unfoldable pub map_buffer : ℕ → ℕ → ℕ → ℕ → ℕ → State → Reply (Unit {0}) × State
  unfolding map_error
  map_buffer handle offset num_bytes buffer flags s =
      if flags == 0
      then answer map_error stored
          (k.process_vm_map 0 handle offset num_bytes buffer k.perm_read_write s)
      else (failed invalid_argument, s)

  -- `MojoUnmapBuffer`.
  unfoldable pub unmap_buffer : ℕ → State → Reply (Unit {0}) × State
  unfolding unmap_error
  unmap_buffer buffer s = answer unmap_error stored (k.process_vm_unmap 0 buffer 0 s)
