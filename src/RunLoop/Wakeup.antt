-- ===== src/RunLoop/Wakeup.antt =====
-- How long an iteration of the run loop waits.
use mojo.Prelude.Maps.{find}
use mojo.Prelude.{ℕ, ◌+◌, ◌-◌, Bool, true, false, ◌||◌, none, some, List, [], ◌∷◌, if◌then◌else◌}
use mojo.System.Waiting.{Ticks, plus}
use mojo.RunLoop.{
  above, below, ticks_eqb, ticks_ltb, DelayedTaskInfo, HandlerDeadlineInfo, IdToHandlerInfoMap,
  RunLoop, invalid_time_ticks, deadline_indefinite,
}

-- The stale entries on top of the queue of deadlines are removed.
unfoldable pub drop_stale : IdToHandlerInfoMap → List HandlerDeadlineInfo → List HandlerDeadlineInfo
unfolding find
drop_stale handlers [] = []
drop_stale handlers (d ∷ ds) = elim (find d.id handlers) [
  | none ↦ drop_stale handlers ds
  | some _ ↦ d ∷ ds
]

-- The earlier of a deadline that may be forever and that of the top entry; whether it is a task's.
unfoldable pub earlier : Ticks × Bool → List HandlerDeadlineInfo → Ticks × Bool
earlier (absolute_deadline, is_task) [] = (absolute_deadline, is_task)
earlier (absolute_deadline, is_task) (d ∷ ds) =
    if ticks_eqb absolute_deadline (plus invalid_time_ticks)
      || ticks_ltb (plus d.absolute_deadline) absolute_deadline
    then (plus d.absolute_deadline, false)
    else (absolute_deadline, is_task)

unfoldable pub first_task_time : List DelayedTaskInfo → Ticks × Bool
first_task_time [] = (plus invalid_time_ticks, false)
first_task_time (t ∷ ts) = (t.absolute_run_time, true)

-- `RunLoop::CalculateAbsoluteDeadline`.
unfoldable pub calculate_absolute_deadline : RunLoop → (Ticks × Bool) × RunLoop
unfolding drop_stale earlier first_task_time
calculate_absolute_deadline l =
    let deadlines = drop_stale l.handlers l.handler_deadlines in
    (
      earlier (first_task_time l.delayed_tasks) deadlines,
      record l { handler_deadlines = deadlines },
    )

-- `absolute_deadline` of an iteration.
unfoldable pub wait_deadline : Bool → ℕ → RunLoop → (Ticks × Bool) × RunLoop
unfolding calculate_absolute_deadline
wait_deadline quit_when_idle now l =
    if quit_when_idle then ((plus now, false), l) else calculate_absolute_deadline l

-- `std::max(now, absolute_deadline) - now`, unless there is none.
unfoldable pub relative_deadline : ℕ → Ticks → ℕ
relative_deadline now absolute_deadline =
    if ticks_eqb absolute_deadline (plus invalid_time_ticks)
    then deadline_indefinite
    else above absolute_deadline - (now + below absolute_deadline)
