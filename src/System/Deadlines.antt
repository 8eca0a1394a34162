-- ===== src/System/Deadlines.antt =====
-- Deadlines in microseconds and the kernel's times in nanoseconds.
use mojo.Prelude.{ℕ, ◌+◌, ◌*◌, ◌≤◌, ◌<◌, ◌≡◌, ◌≢◌, arith}
use mojo.System.Waiting.{
  plus, word_64, deadline_indefinite, time_to_mojo_ticks, mojo_deadline_to_time,
}

-- A deadline whose time stays below `2 ^ 63` comes back from the kernel's time as the number of
-- microseconds it was.
pub time_to_mojo_ticks-mojo_deadline_to_time :
    (time_infinite deadline : ℕ)
    → deadline * 1000 < 0x8000000000000000
    → time_to_mojo_ticks (mojo_deadline_to_time time_infinite deadline) ≡ plus deadline
unfolding time_to_mojo_ticks mojo_deadline_to_time
time_to_mojo_ticks-mojo_deadline_to_time time_infinite deadline h = ground arith

-- Of two deadlines whose times stay below `2 ^ 64`, the later one has the later time.
pub mojo_deadline_to_time-monotone :
    (time_infinite earlier later : ℕ)
    → earlier < later
    → later * 1000 < word_64
    → mojo_deadline_to_time time_infinite earlier < mojo_deadline_to_time time_infinite later
unfolding mojo_deadline_to_time
mojo_deadline_to_time-monotone time_infinite earlier later less h = ground arith

-- A deadline of `2 ^ 64` nanoseconds or more, unless it is MOJO_DEADLINE_INDEFINITE, is cut to a time
-- that is earlier by at least `2 ^ 64` nanoseconds.
pub mojo_deadline_to_time-wraps :
    (time_infinite deadline : ℕ)
    → word_64 ≤ deadline * 1000
    → deadline ≢ deadline_indefinite
    → mojo_deadline_to_time time_infinite deadline + word_64 ≤ deadline * 1000
unfolding mojo_deadline_to_time
mojo_deadline_to_time-wraps time_infinite deadline h finite = ground arith
