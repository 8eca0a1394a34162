-- ===== src/System.antt =====
-- The Mojo system calls of system/mojo.c, over the Magenta kernel. The kernel's code is not part of
-- the repository: its calls are a parameter, and so are its error codes, which the code only
-- tells apart by name.
pub mod Handles
pub mod Waiting
pub mod Pipes
pub mod Buffers
pub mod WaitSets
pub mod Calls
pub mod Errors
pub mod Deadlines
pub mod Contract
pub mod Rights
pub mod Replace
use mojo.Prelude.{ℕ, Option, none, some}

-- The MOJO_RESULT_* values.
pub data MojoResult : Type 0 where
  ok cancelled unknown invalid_argument deadline_exceeded not_found already_exists : MojoResult
  permission_denied resource_exhausted failed_precondition unimplemented internal : MojoResult
  busy should_wait aborted out_of_range unavailable data_loss : MojoResult

-- The ERR_* values that the code names, and the others.
pub data MxError : Type 0 where
  err_bad_handle err_invalid_args err_access_denied err_no_memory err_busy err_cancelled : MxError
  err_timed_out err_bad_state err_too_big err_channel_closed err_not_enough_buffer : MxError
  err_not_ready err_not_supported err_already_exists err_not_found : MxError
  err_other : ℕ → MxError

-- A negative code, or what the call yields: nothing for an `mx_status_t` of NO_ERROR.
pub data MxResult (A : Type 0) : Type 0 where
  error : MxError → MxResult A
  value : A → MxResult A

abbrev pub MxStatus : Type 0
MxStatus = MxResult (Unit {0})

-- The kernel's calls. `State` is the kernel's, and the memory that callers let it write to by
-- pointer, which is an address here. Calls that create two handles yield them as a pair.
pub record Kernel : Type 1 where
  pub State : Type 0
  pub same_rights : ℕ
  pub time_infinite : ℕ
  pub perm_read_write : ℕ
  pub handle_close : ℕ → State → MxStatus × State
  pub handle_duplicate : ℕ → ℕ → State → MxResult ℕ × State
  pub handle_get_info : ℕ → State → MxResult ℕ × State
  pub current_time : State → ℕ × State
  pub handle_wait_one : ℕ → ℕ → ℕ → ℕ → State → MxStatus × State
  pub handle_wait_many : ℕ → ℕ → ℕ → ℕ → ℕ → ℕ → State → MxStatus × State
  pub message_pipe_create : ℕ → State → MxResult (ℕ × ℕ) × State
  pub message_write : ℕ → ℕ → ℕ → ℕ → ℕ → ℕ → State → MxStatus × State
  pub message_read : ℕ → ℕ → ℕ → ℕ → ℕ → ℕ → State → MxStatus × State
  pub data_pipe_create : ℕ → ℕ → ℕ → State → MxResult (ℕ × ℕ) × State
  pub data_pipe_write : ℕ → ℕ → ℕ → ℕ → State → MxResult ℕ × State
  pub data_pipe_begin_write : ℕ → ℕ → ℕ → ℕ → State → MxResult ℕ × State
  pub data_pipe_end_write : ℕ → ℕ → State → MxStatus × State
  pub data_pipe_read : ℕ → ℕ → ℕ → ℕ → State → MxResult ℕ × State
  pub data_pipe_begin_read : ℕ → ℕ → ℕ → ℕ → State → MxResult ℕ × State
  pub data_pipe_end_read : ℕ → ℕ → State → MxStatus × State
  pub vm_object_create : ℕ → State → MxResult ℕ × State
  pub vm_object_get_size : ℕ → State → MxResult ℕ × State
  pub process_vm_map : ℕ → ℕ → ℕ → ℕ → ℕ → ℕ → State → MxStatus × State
  pub process_vm_unmap : ℕ → ℕ → ℕ → State → MxStatus × State
  pub wait_set_create : State → MxResult ℕ × State
  pub wait_set_add : ℕ → ℕ → ℕ → ℕ → State → MxStatus × State
  pub wait_set_remove : ℕ → ℕ → State → MxStatus × State
  pub wait_set_wait : ℕ → ℕ → ℕ → ℕ → ℕ → State → MxStatus × State

-- The result of a call, and what mojo.c itself stores through out parameters, if it does. An out
-- parameter whose address mojo.c hands to the kernel is not part of it: what the kernel stores there,
-- and with which results, is in the kernel's state.
pub record Reply (A : Type 0) : Type 0 where
  pub result : MojoResult
  pub out : Option A

abbrev pub failed : {A : Type 0} → MojoResult → Reply A
failed r = record { result = r; out = none }

abbrev pub succeeded : {A : Type 0} → A → Reply A
succeeded a = record { result = ok; out = some a }

-- `if (result < 0) switch (result) …`, or the switch on a status: `translate` is the switch, and
-- `store` what goes to the out parameter.
abbrev pub answer :
    {A B S : Type 0} → (MxError → MojoResult) → (A → B) → MxResult A × S → Reply B × S
answer translate store (error e, s) = (failed (translate e), s)
answer translate store (value a, s) = (succeeded (store a), s)

-- A status has nothing to store.
abbrev pub stored : {A : Type 0} → A → A
stored a = a

-- `if (result != MOJO_RESULT_OK) return result;` and what follows it. A result is `ok` exactly if
-- there is something in `out`.
abbrev pub proceed :
    {A B S : Type 0} → Option A → MojoResult → S → (A → S → Reply B × S) → Reply B × S
proceed none result s go = (failed result, s)
proceed (some a) result s go = go a s

abbrev pub next : {A B S : Type 0} → Reply A × S → (A → S → Reply B × S) → Reply B × S
next (r, s) go = proceed r.out r.result s go

-- What a test of the arguments returns, if it does, and what the call does else.
abbrev pub unless : {A S : Type 0} → Option MojoResult → S → Reply A × S → Reply A × S
unless none s call = call
unless (some r) s call = (failed r, s)
