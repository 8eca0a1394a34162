-- ===== src/RunLoop/Stale.antt =====
-- Where the run loop and its wait set, or its comments, part.
use mojo.Prelude.Maps.{Ascends, find, find-erase_self}
use mojo.Prelude.{◌+◌, ℕ, suc, ◌≤◌, ◌<◌, ◌≡◌, refl, true, false, none, some, List, [], ◌∷◌, arith}
use mojo.Prelude.Run.{◌>>=◌, Returns}
use mojo.System.{deadline_exceeded}
use mojo.System.Waiting.{plus}
use mojo.RunLoop.{
  above, below, ticks_ltb, DelayedTaskInfo, HandlerDeadlineInfo, HandlerInfo, RunLoop, Surroundings,
  task_less, perform_all,
}
use mojo.RunLoop.Iteration.{
  run_ready, ready_round, after_tasks, wait_phase, do_iteration, run_iterations, run_internal,
}
use mojo.RunLoop.Notify.{quitting, is_empty, deadline_round, notify_deadlines}

-- Where a handler whose deadline has come is the only one with a deadline, its call calls nothing on
-- the loop, and no call of a handler changes the cookies of the wait set by itself,
-- NotifyHandlersDeadlineExceeded forgets the handler and leaves its cookie in the wait set.
pub expired_handler_stays :
    (e : Surroundings) (cookies : e.State → List ℕ) (f b : ℕ) (l : RunLoop) (s : e.State)
    (d : HandlerDeadlineInfo) (h : HandlerInfo)
    → ((s' : e.State)
        → cookies (e.on_handle_error h.handler d.id deadline_exceeded s').1 ≡ cookies s')
    → Ascends l.handlers
    → quitting l.current_run_state ≡ false
    → l.handler_deadlines ≡ d ∷ []
    → d.absolute_deadline ≤ b
    → find d.id l.handlers ≡ some h
    → (e.on_handle_error h.handler d.id deadline_exceeded s).0 ≡ []
    → Returns
        (λ r. (r.0 ≡ true) × (find d.id r.1.handlers ≡ none) × (cookies r.2 ≡ cookies s))
        (notify_deadlines e (suc (suc f)) (plus b) false l s)
unfolding notify_deadlines deadline_round perform_all
expired_handler_stays e cookies f b l s d h keeps keys goes one due found silent =
    let not_later : ticks_ltb (plus b) (plus d.absolute_deadline) ≡ false = ground arith in
    rw (one, deadline_round, not_later, found, silent, perform_all, ◌>>=◌, goes)
      (refl, find-erase_self d.id l.handlers keys, keeps s)

-- The loop does not wait for tasks alone: with no handler, a run that is to go on until Quit returns
-- with a queued task that is not due, and leaves the queue as it was.
pub run_leaves_tasks :
    (e : Surroundings) (f : ℕ) (l : RunLoop) (s : e.State) (t : DelayedTaskInfo)
    (ts : List DelayedTaskInfo)
    → l.handlers ≡ []
    → l.delayed_tasks ≡ t ∷ ts
    → (e.get_time_ticks_now s).0 + below t.absolute_run_time < above t.absolute_run_time
    → Returns (λ r. r.0.delayed_tasks ≡ t ∷ ts) (run_internal e (suc f) false l s)
unfolding run_internal run_iterations do_iteration run_ready ready_round after_tasks wait_phase
    task_less is_empty
run_leaves_tasks e f l s t ts none_left queued early =
    let n : DelayedTaskInfo = record {
      id = l.next_id;
      task = 0;
      absolute_run_time = plus (e.get_time_ticks_now s).0;
    } in
    let not_due : task_less n t ≡ false = ground arith in
    rw (queued, ready_round, not_due, ◌>>=◌, none_left) queued
