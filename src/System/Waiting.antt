-- ===== src/System/Waiting.antt =====
-- Time, MojoWait and MojoWaitMany. `mx_time_t` is an unsigned number of nanoseconds in 64 bits.
use mojo.Prelude.{ℕ, ◌-◌, ◌*◌, ◌/◌, ◌%◌, ltb, ◌==◌, if◌then◌else◌}
use mojo.System.{
  MojoResult, cancelled, unknown, invalid_argument, deadline_exceeded, permission_denied,
  resource_exhausted, failed_precondition, busy, MxError, err_invalid_args, err_access_denied,
  err_no_memory, err_busy, err_cancelled, err_timed_out, err_bad_state, Kernel, Reply, answer,
  stored,
}

-- `MojoTimeTicks`, a signed number of microseconds; `minus` is of a number that is not 0.
pub data Ticks : Type 0 where
  plus : ℕ → Ticks
  minus : ℕ → Ticks

-- `2 ^ 64`.
abbrev pub word_64 : ℕ
word_64 = 0x10000000000000000

-- `TimeToMojoTicks`: the cast to a signed number, and a division that rounds towards 0.
unfoldable pub time_to_mojo_ticks : ℕ → Ticks
time_to_mojo_ticks t =
    if ltb t 0x8000000000000000
    then plus (t / 1000)
    else if (word_64 - t) / 1000 == 0
    then plus 0
    else minus ((word_64 - t) / 1000)

-- `MOJO_DEADLINE_INDEFINITE`.
abbrev pub deadline_indefinite : ℕ
deadline_indefinite = 0xffffffffffffffff

-- `MojoDeadlineToTime`. The product has 64 bits.
unfoldable pub mojo_deadline_to_time : ℕ → ℕ → ℕ
mojo_deadline_to_time time_infinite deadline =
    if deadline == deadline_indefinite then time_infinite else deadline * 1000 % word_64

-- The switches of MojoWait and MojoWaitMany.
unfoldable pub wait_error : MxError → MojoResult
wait_error err_cancelled = cancelled
wait_error err_no_memory = resource_exhausted
wait_error err_invalid_args = invalid_argument
wait_error err_timed_out = deadline_exceeded
wait_error err_bad_state = failed_precondition
wait_error err_busy = busy
wait_error err_access_denied = permission_denied
wait_error _ = unknown

module _ (k : Kernel) where
  open k use {State}

  -- `MojoGetTimeTicksNow`.
  unfoldable pub get_time_ticks_now : State → Ticks × State
  unfolding time_to_mojo_ticks
  get_time_ticks_now s = let (t, s') = k.current_time s in (time_to_mojo_ticks t, s')

  -- `MojoWait`. The kernel gets the address of the signals state and stores there whatever the result,
  -- in its own state: the reply has no part of it, as mojo.c does not touch it.
  unfoldable pub wait : ℕ → ℕ → ℕ → ℕ → State → Reply (Unit {0}) × State
  unfolding wait_error mojo_deadline_to_time
  wait handle signals deadline signals_state s = answer wait_error stored (
      k.handle_wait_one handle signals (mojo_deadline_to_time k.time_infinite deadline)
        signals_state s)

  -- `MojoWaitMany`. The result index and the signals states are the kernel's to store too, also where
  -- the wait fails.
  unfoldable pub wait_many : ℕ → ℕ → ℕ → ℕ → ℕ → ℕ → State → Reply (Unit {0}) × State
  unfolding wait_error mojo_deadline_to_time
  wait_many handles signals num_handles deadline result_index signals_states s =
      answer wait_error stored (
        k.handle_wait_many num_handles handles signals
          (mojo_deadline_to_time k.time_infinite deadline) result_index signals_states s)
