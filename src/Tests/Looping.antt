-- ===== src/Tests/Looping.antt =====
-- The run loop at small inputs.
use mojo.Prelude.Maps.{erase, find, insert}
use mojo.Prelude.{
  All, ℕ, zero, suc, inl, ◌+◌, ◌≤◌, ◌≡◌, ◌≢◌, refl, true, false, none, some, List, [], ◌∷◌, arith,
  length, ◌==◌, if◌then◌else◌,
}
use mojo.Prelude.Run.{Yields, Ends, Returns}
use mojo.System.{MojoResult, deadline_exceeded}
use mojo.System.Calls.{is_ok}
use mojo.RunLoop.{
  DelayedTaskInfo, HandlerDeadlineInfo, HandlerInfo, RunState, RunLoop, Action, add_handler,
  remove_handler, post_delayed_task, quit, WaitReply, results, failed, Surroundings, new_run_loop,
  push, task_less, deadline_less, perform_all, perform, do_post_delayed_task, do_add_handler,
  set_deadline, schedule, next_after, do_quit, set_should_quit, invalid_time_ticks,
}
use mojo.RunLoop.Queue.{Has}
use mojo.RunLoop.Clock.{IsClock, IsAhead}
use mojo.System.Waiting.{plus}
use mojo.RunLoop.Tasks.{count_ready}
use mojo.RunLoop.Invariant.{IsLoop}
use mojo.RunLoop.Iteration.{
  run_ready, ready_round, run_internal, task_now, wait_phase, run_iterations, do_iteration,
  after_tasks, handle_reply,
}
use mojo.RunLoop.Wakeup.{
  calculate_absolute_deadline, drop_stale, earlier, first_task_time, wait_deadline,
  relative_deadline,
}
use mojo.RunLoop.Notify.{
  quitting, is_empty, notify_deadlines, notify_results, deadline_round, grow_state, grow_results,
  call_handler,
}
use mojo.RunLoop.Ready.{Done, ready_tasks_end}
use mojo.RunLoop.Lifetimes.{client_calls, runs, destroyed, live_all, live_all-IsLoop}
use mojo.RunLoop.Deadlines.{IsBy, HasTimes, calculate_absolute_deadline-IsBy}
use mojo.RunLoop.Stale.{expired_handler_stays}

-- The time and the cookies of the wait set.
record Place : Type 0 where
  time : ℕ
  cookies : List ℕ

abbrev without : ℕ → List ℕ → List ℕ
without c [] = []
without c (d ∷ ds) = if c == d then ds else d ∷ without c ds

-- A wait yields the first cookie, or lets the time pass.
abbrev wait_for : ℕ → Place → List ℕ → WaitReply × Place
wait_for d s [] = (failed deadline_exceeded, record s { time = s.time + d })
wait_for d s (c ∷ cs) = (results (record { cookie = c; wait_result = MojoResult.ok } ∷ []) 1, s)

-- Task 1 posts task 2, which is due at once, and adds a handler; task 2 stops the loop.
abbrev calls_of : ℕ → List Action
calls_of (suc zero) = post_delayed_task 2 (plus 0) ∷ add_handler 5 7 1 10 ∷ []
calls_of (suc (suc zero)) = quit ∷ []
calls_of _ = []

-- Every reading of the clock takes a tick.
abbrev place : Surroundings
place = record {
  State = Place;
  get_time_ticks_now = λ s. (s.time, record s { time = suc s.time });
  wait_set_add = λ h x c s. (MojoResult.ok, record s { cookies = c ∷ s.cookies });
  wait_set_remove = λ c s. (MojoResult.ok, record s { cookies = without c s.cookies });
  wait_set_wait = λ d n s. wait_for d s s.cookies;
  run_task = λ t s. (calls_of t, s);
  on_handle_ready = λ h i s. ([], s);
  on_handle_error = λ h i r s. ([], s);
}

wait_for-time : (d : ℕ) (s : Place) (cs : List ℕ) → s.time ≤ (wait_for d s cs).1.time
wait_for-time d s [] = omega arith
wait_for-time d s (c ∷ cs) = omega arith

abbrev clock : IsClock place
clock = record {
  time = λ s. s.time;
  reads = λ s. (omega arith, omega arith);
  adds = λ h x c s. omega arith;
  removes = λ c s. omega arith;
  waits = λ d n s. wait_for-time d s s.cookies;
  runs = λ t s. omega arith;
  readies = λ h i s. omega arith;
  errs = λ h i r s. omega arith;
}

calls_of-few : (t : ℕ) → length (calls_of t) ≤ 2
calls_of-few zero = omega arith
calls_of-few (suc zero) = omega arith
calls_of-few (suc (suc zero)) = omega arith
calls_of-few (suc (suc (suc t))) = omega arith

calls_of-IsAhead : (t : ℕ) → All IsAhead (calls_of t)
calls_of-IsAhead zero = tt
calls_of-IsAhead (suc zero) = (refl, (tt, tt))
calls_of-IsAhead (suc (suc zero)) = (tt, tt)
calls_of-IsAhead (suc (suc (suc t))) = tt

abbrev start : Place
start = record { time = 100; cookies = [] }

abbrev first_task : DelayedTaskInfo
first_task = record { id = 1; task = 1; absolute_run_time = plus 100 }

abbrev last_task : DelayedTaskInfo
last_task = record { id = 2; task = 3; absolute_run_time = plus 200 }

-- Two tasks, and handler 5 with a deadline.
abbrev soon : HandlerDeadlineInfo
soon = record { id = 3; absolute_deadline = 120 }

abbrev waiting : HandlerInfo
waiting = record { handler = 5; handle_signals = 1; absolute_deadline = 120 }

abbrev busy_loop : RunLoop
busy_loop = record {
  next_id = 4;
  handlers = (3, waiting) ∷ [];
  handler_deadlines = soon ∷ [];
  delayed_tasks = first_task ∷ last_task ∷ [];
  current_run_state = none;
}

-- A run until idle: task 1, and in the next iteration task 2, which stops it.
busy_run :
    Returns
      (λ r. (length r.0.delayed_tasks ≡ 1) × (length r.0.handlers ≡ 1))
      (run_internal place 9 true busy_loop start)
unfolding run_internal run_iterations do_iteration run_ready ready_round after_tasks wait_phase
    wait_deadline relative_deadline handle_reply notify_results notify_deadlines deadline_round
    grow_state grow_results calculate_absolute_deadline drop_stale earlier first_task_time
    call_handler quitting is_empty perform_all perform do_add_handler do_post_delayed_task do_quit
    set_should_quit set_deadline schedule insert find erase push task_less deadline_less next_after
    is_ok
busy_run = (refl, refl)

ready_tasks_end_example : Ends (Done place clock (task_now 100 busy_loop)) (
    run_ready place 2
      (task_now 100 busy_loop)
      false
      busy_loop
      (record { time = 101; cookies = [] }))
unfolding count_ready task_less
ready_tasks_end_example =
    ready_tasks_end place clock 2 2 busy_loop start (λ t s. calls_of-few t)
      (λ t s. calls_of-IsAhead t) ((refl, tt), (tt, tt)) (omega arith) (omega arith)

busy-IsLoop : IsLoop busy_loop
unfolding find task_less deadline_less
busy-IsLoop = record {
  tasks = ((refl, tt), (tt, tt));
  deadlines = (tt, tt);
  keys = (tt, tt);
  entries = λ k h found some_deadline. inl (ground arith);
}

busy-HasTimes : HasTimes busy_loop
busy-HasTimes = record { tasks = (refl, (refl, tt)); deadlines = (omega arith, tt) }

calculate_absolute_deadline-IsBy_example :
    ((t : DelayedTaskInfo)
      → Has t busy_loop.delayed_tasks
      → IsBy (calculate_absolute_deadline busy_loop).0.0 t.absolute_run_time)
    × ((k : ℕ) (h : HandlerInfo)
        → find k busy_loop.handlers ≡ some h
        → h.absolute_deadline ≢ invalid_time_ticks
        → IsBy (calculate_absolute_deadline busy_loop).0.0 (plus h.absolute_deadline))
calculate_absolute_deadline-IsBy_example =
    calculate_absolute_deadline-IsBy busy_loop busy-IsLoop busy-HasTimes

live_all-IsLoop_example :
    Yields
      (λ r. IsLoop r.0)
      (live_all place 9
        (client_calls (add_handler 5 7 1 10 ∷ post_delayed_task 1 (plus 0) ∷ remove_handler 3 ∷ [])
          ∷ runs true
          ∷ destroyed
          ∷ [])
        new_run_loop
        start)
live_all-IsLoop_example =
    live_all-IsLoop place 9
      (client_calls (add_handler 5 7 1 10 ∷ post_delayed_task 1 (plus 0) ∷ remove_handler 3 ∷ [])
        ∷ runs true
        ∷ destroyed
        ∷ [])
      start

-- A run in which the wait set still has the cookie of handler 3.
abbrev run : RunState
run = record { should_quit = false; results_size = 16 }

abbrev running_loop : RunLoop
running_loop = record busy_loop { current_run_state = some run }

abbrev late : Place
late = record { time = 130; cookies = 3 ∷ [] }

expired_handler_stays_example :
    Returns
      (λ r. (r.0 ≡ true) × (find 3 r.1.handlers ≡ none) × (r.2.cookies ≡ 3 ∷ []))
      (notify_deadlines place 2 (plus 120) false running_loop late)
unfolding find quitting
expired_handler_stays_example =
    expired_handler_stays place (λ s. s.cookies) 0 120 running_loop late soon waiting (λ s. refl)
      (tt, tt) refl refl (omega arith) refl refl

abbrev idle_loop : RunLoop
idle_loop = record new_run_loop { delayed_tasks = last_task ∷ [] }
