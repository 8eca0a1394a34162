-- ===== src/Tests/Watching.antt =====
-- A handle watcher at small inputs.
use mojo.Prelude.{
  ℕ, zero, suc, ◌≡◌, refl, false, some, List, [], ◌∷◌, arith, get_elem?, ◌==◌, if◌then◌else◌, ◌-◌,
  ◌+◌, ◌*◌, length,
}
use mojo.Prelude.Run.{ok, Returns, Yields}
use mojo.Prelude.Maps.{find}
use mojo.System.{MojoResult, ok, should_wait}
use mojo.Watcher.{
  HandleWatcherTimer, HandleWatcherThreadState, HandleWatcherCommand, Outside, update_timer,
}
use mojo.Watcher.Commands.{
  from_dart, perform_command, command_add_handle, command_of, command_at, handle_of,
}
use mojo.Watcher.Loop.{
  run, serve_ready, get_dart_time_in_millis, process_timers, wait_deadline, thread_main,
}
use mojo.Watcher.Invariant.{IsWatcher, bound}
use mojo.Watcher.Refines.{Performed, perform_command-Performed}
use mojo.Watcher.Waits.{Served, serve_ready-Served}
use mojo.Watcher.Sessions.{Ended, run-Ended}
use mojo.Watcher.Stops.{IsStopping, thread_main-closes_twice}
use mojo.Watcher.Timers.{IsTimers, deadline_of, updated, update_timer-deadline_of}
use mojo.Watcher.Expires.{Completed, process_timers-Completed, wait_deadline_lem}
use mojo.Watcher.Requests.{Arrives, from_dart-Arrives}

data Event : Type 0 where
  posted_null closed : ℕ → Event
  posted : ℕ → ℕ → Event
  read_clock : Event

-- The latest event first. The clock stands at 5 ms, every handle is readable at once, and the
-- command that comes is to shut down.
abbrev outside : Outside
outside = record {
  State = List Event;
  illegal_port = 0;
  dart_post_null = λ p s. posted_null p ∷ s;
  dart_post_integer = λ p n s. posted p n ∷ s;
  mojo_close = λ h s. closed h ∷ s;
  mojo_get_time_ticks_now = λ s. (5000, s);
  mojo_wait = λ h signals d s. (should_wait, s);
  mojo_wait_many =
      λ hs signals d s. (record { result = MojoResult.ok; satisfied = some (λ i. 1) }, s);
  mojo_read_message = λ h s. (
    record {
      result = MojoResult.ok;
      command = record { handle_or_deadline = 0; port = 0; data_bits = 32 };
      num_bytes = 24;
      num_handles = 0;
    },
    s,
  );
}

-- The control handle is 2; handle 7 is bound to port 3 for reading, handle 9 to port 4 for writing.
abbrev watcher : HandleWatcherThreadState
watcher = record {
  shutdown = false;
  control_pipe_consumer_handle = 2;
  wait_many_handles = 2 ∷ 7 ∷ 9 ∷ [];
  wait_many_signals = 1 ∷ 1 ∷ 2 ∷ [];
  wait_many_signals_state = 1 ∷ 1 ∷ 1 ∷ [];
  handle_ports = 0 ∷ 3 ∷ 4 ∷ [];
  handle_to_index_map = (2, 0) ∷ (7, 1) ∷ (9, 2) ∷ [];
  timers = [];
}

abbrev add_seven : HandleWatcherCommand
add_seven = record { handle_or_deadline = 7; port = 3; data_bits = 2 }

add_again :
    Returns
      (λ (w, s). (bound w 7 ≡ some (3, 3)) × (s ≡ []))
      (perform_command outside add_seven watcher [])
unfolding perform_command find
add_again = (refl, refl)

found_in :
    (h i : ℕ)
    → find h watcher.handle_to_index_map ≡ some i
    → get_elem? watcher.wait_many_handles i ≡ some h
unfolding find
found_in h i f = ground arith

listed_in :
    (h i : ℕ)
    → get_elem? watcher.wait_many_handles i ≡ some h
    → find h watcher.handle_to_index_map ≡ some i
unfolding find
listed_in h zero f = ground arith
listed_in h (suc zero) f = ground arith
listed_in h (suc (suc zero)) f = ground arith
listed_in h (suc (suc (suc i))) f = cc

watcher-IsWatcher : IsWatcher watcher
watcher-IsWatcher = record {
  signals_length = refl;
  states_length = refl;
  ports_length = refl;
  map_length = refl;
  ascends = ((omega arith, (omega arith, tt)), ((omega arith, tt), (tt, tt)));
  found = found_in;
  listed = listed_in;
  control = refl;
}

perform_command-Performed_example :
    Returns
      (Performed outside command_add_handle add_seven watcher [])
      (perform_command outside add_seven watcher [])
unfolding command_of handle_of
perform_command-Performed_example =
    perform_command-Performed outside command_add_handle add_seven watcher [] watcher-IsWatcher refl
      (λ h. omega arith)

serve_ready-Served_example : Returns (Served outside watcher []) (serve_ready outside watcher [])
serve_ready-Served_example = serve_ready-Served outside watcher [] watcher-IsWatcher

run-Ended_example : Yields (Ended outside watcher) (run outside 1 watcher [])
run-Ended_example = run-Ended outside 1 watcher [] watcher-IsWatcher

abbrev outside-IsStopping : IsStopping outside 2
unfolding command_of command_at
outside-IsStopping = record {
  satisfied = λ s i. 1;
  waits = λ hs signals d s. refl;
  readable = λ s. refl;
  reads = λ s. refl;
  whole = λ s. refl;
  no_handles = λ s. refl;
  command = λ s. refl;
}

thread_main-closes_twice_example :
    Returns (λ s'. (s₀ : List Event) × (s' ≡ closed 2 ∷ closed 2 ∷ s₀)) (thread_main outside 1 2 [])
thread_main-closes_twice_example = thread_main-closes_twice outside 0 2 [] refl outside-IsStopping

-- The thread ends at the first command.
thread_ends : thread_main outside 1 2 [] ≡ ok (closed 2 ∷ closed 2 ∷ [])
unfolding thread_main
thread_ends = refl

abbrev timers : List HandleWatcherTimer
timers = record { deadline = 3; port = 3 } ∷ record { deadline = 8; port = 4 } ∷ []

abbrev timed : HandleWatcherThreadState
timed = record watcher { timers = timers }

-- A clock that is two milliseconds later at each event, a reading of it included.
abbrev ticking : Outside
ticking = record outside { mojo_get_time_ticks_now = λ s. (5000 + 2000 * length s, read_clock ∷ s) }

abbrev later_timers : List HandleWatcherTimer
later_timers = record { deadline = 3; port = 3 } ∷ record { deadline = 10; port = 4 } ∷ []

abbrev timed_later : HandleWatcherThreadState
timed_later = record watcher { timers = later_timers }

timers-IsTimers : IsTimers timers
timers-IsTimers = record {
  ordered = ((omega arith, tt), (tt, tt));
  one_per_port = (refl, (refl, tt));
}

update_timer-deadline_of_example :
    IsTimers (update_timer 8 5 timed).timers
    × ((q : ℕ)
        → deadline_of q (update_timer 8 5 timed).timers
          ≡ (if q == 5 then updated 8 5 timers else deadline_of q timers))
update_timer-deadline_of_example = update_timer-deadline_of 8 5 timed timers-IsTimers

process_timers-Completed_example :
    Completed ticking later_timers
      (5, read_clock ∷ [])
      (process_timers ticking timed_later []).0.timers
      (process_timers ticking timed_later []).1
unfolding get_dart_time_in_millis
process_timers-Completed_example =
    process_timers-Completed ticking timed_later [] ((omega arith, tt), (tt, tt))

-- The second timer is left at 9 ms, one millisecond before its deadline.
process_timers_leaves : process_timers ticking timed_later [] ≡ (
  record timed_later { timers = record { deadline = 10; port = 4 } ∷ [] },
  read_clock ∷ posted_null 3 ∷ read_clock ∷ [],
)
unfolding process_timers
process_timers_leaves = refl

-- WaitDeadline then reads 11 ms.
wait_deadline_lem_example :
    (wait_deadline ticking
      (record { deadline = 10; port = 4 } ∷ [])
      (read_clock ∷ posted_null 3 ∷ read_clock ∷ [])).0
    ≡ 0x10000000000000000 - 1000
wait_deadline_lem_example =
    wait_deadline_lem ticking (record { deadline = 10; port = 4 }) []
      (read_clock ∷ posted_null 3 ∷ read_clock ∷ []) (omega arith) (omega arith)

from_dart-Arrives_example :
    Returns
      (λ c. (command_of c ≡ some command_add_handle) × Arrives command_add_handle 7 3 5 c)
      (from_dart 0 0 7 3 5)
unfolding command_at
from_dart-Arrives_example = from_dart-Arrives 0 0 7 3 5 command_add_handle refl (omega arith)

-- Port 5 gets no timer for the time that port 4 has one for.
timer_dropped : (update_timer 8 5 timed).timers ≡ timers
unfolding update_timer
timer_dropped = refl
