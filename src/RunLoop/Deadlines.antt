-- ===== src/RunLoop/Deadlines.antt =====
-- How long the loop waits: until the first task or deadline that is due.
use mojo.Prelude.Maps.{find}
use mojo.Prelude.{
  ◌+◌, ℕ, ◌≤◌, ◌<◌, ◌≡◌, ◌≢◌, inl, inr, Bool, false, some, List, [], ◌∷◌, All, arith, option_cases,
}
use mojo.System.Waiting.{Ticks, plus}
use mojo.RunLoop.{
  above, below, ticks_eqb, DelayedTaskInfo, HandlerDeadlineInfo, HandlerInfo, IdToHandlerInfoMap,
  RunLoop, task_less, deadline_less, invalid_time_ticks,
}
use mojo.RunLoop.Queue.{InOrder, Has, All-Has}
use mojo.RunLoop.Tasks.{IsOrdered}
use mojo.RunLoop.Invariant.{IsLoop, entry}
use mojo.RunLoop.Wakeup.{drop_stale, earlier, first_task_time, calculate_absolute_deadline}
use mojo.RunLoop.Kept.{drop_stale-InOrder, drop_stale-Covers}

-- `a` is not later than `b`.
abbrev pub NotLater : Ticks → Ticks → Type 0
NotLater a b = above a + below b ≤ above b + below a

-- `deadline` is a time, which 0 is not, and not behind `t`.
abbrev pub IsBy : Ticks → Ticks → Type 0
IsBy deadline t = (ticks_eqb deadline (plus invalid_time_ticks) ≡ false) × NotLater deadline t

-- No time in the two queues is 0, which stands for no time.
pub record HasTimes (l : RunLoop) : Type 0 where
  pub tasks :
      All (λ t. ticks_eqb t.absolute_run_time (plus invalid_time_ticks) ≡ false) l.delayed_tasks
  pub deadlines : All (λ d. 0 < d.absolute_deadline) l.handler_deadlines

drop_stale-All :
    (P : HandlerDeadlineInfo → Type 0) (hs : IdToHandlerInfoMap) (ds : List HandlerDeadlineInfo)
    → All P ds
    → All P (drop_stale hs ds)
unfolding drop_stale
drop_stale-All P hs [] a = tt
drop_stale-All P hs (d ∷ ds) a =
    option_cases (All P) (find d.id hs) _ _ (λ _. drop_stale-All P hs ds a.1) (λ _ _. a)

-- The first entry is not behind the others.
top_deadline :
    (d x : HandlerDeadlineInfo) (ds : List HandlerDeadlineInfo)
    → InOrder deadline_less (d ∷ ds)
    → Has x (d ∷ ds)
    → d.absolute_deadline ≤ x.absolute_deadline
unfolding deadline_less
top_deadline d x ds o (inl p) = ground arith
top_deadline d x ds o (inr p) =
    let later : deadline_less d x ≡ false =
      All-Has deadline_less (λ y. deadline_less d y ≡ false) x ds o.0 p in
    ground arith

top_task :
    (t x : DelayedTaskInfo) (ts : List DelayedTaskInfo)
    → IsOrdered (t ∷ ts)
    → Has x (t ∷ ts)
    → NotLater t.absolute_run_time x.absolute_run_time
unfolding task_less
top_task t x ts o (inl p) = ground arith
top_task t x ts o (inr p) =
    let later : task_less t x ≡ false = All-Has task_less (λ y. task_less t y ≡ false) x ts o.0 p in
    ground arith

first_task-IsBy :
    (ts : List DelayedTaskInfo) (x : DelayedTaskInfo)
    → IsOrdered ts
    → All (λ t. ticks_eqb t.absolute_run_time (plus invalid_time_ticks) ≡ false) ts
    → Has x ts
    → IsBy (first_task_time ts).0 x.absolute_run_time
unfolding first_task_time
first_task-IsBy [] x o times p = elim p [ ]
first_task-IsBy (t ∷ ts) x o times p = (times.0, top_task t x ts o p)

-- The earlier of the two is by both.
earlier-first :
    (b : Ticks) (is_task : Bool) (ds : List HandlerDeadlineInfo) (t : Ticks)
    → All (λ d. 0 < d.absolute_deadline) ds
    → IsBy b t
    → IsBy (earlier (b, is_task) ds).0 t
unfolding earlier
earlier-first b is_task [] t times p = p
earlier-first b is_task (d ∷ ds) t times p = ground arith

earlier-top :
    (b : Ticks) (is_task : Bool) (ds : List HandlerDeadlineInfo) (x : HandlerDeadlineInfo)
    → InOrder deadline_less ds
    → All (λ d. 0 < d.absolute_deadline) ds
    → Has x ds
    → IsBy (earlier (b, is_task) ds).0 (plus x.absolute_deadline)
unfolding earlier
earlier-top b is_task [] x o times p = elim p [ ]
earlier-top b is_task (d ∷ ds) x o times p = ground (arith, top_deadline d x ds o p)

-- In a run loop whose queues hold no time 0, CalculateAbsoluteDeadline finds a time that is not behind
-- the run time of any queued task, and not behind the deadline of any handler that has one: the
-- loop does not sleep through them.
pub calculate_absolute_deadline-IsBy :
    (l : RunLoop)
    → IsLoop l
    → HasTimes l
    → ((t : DelayedTaskInfo)
        → Has t l.delayed_tasks
        → IsBy (calculate_absolute_deadline l).0.0 t.absolute_run_time)
      × ((k : ℕ) (h : HandlerInfo)
          → find k l.handlers ≡ some h
          → h.absolute_deadline ≢ invalid_time_ticks
          → IsBy (calculate_absolute_deadline l).0.0 (plus h.absolute_deadline))
unfolding calculate_absolute_deadline
calculate_absolute_deadline-IsBy l v times =
    let ds = drop_stale l.handlers l.handler_deadlines in
    let first = first_task_time l.delayed_tasks in
    let some_times =
      drop_stale-All (λ d. 0 < d.absolute_deadline) l.handlers l.handler_deadlines
        times.deadlines in
    (
      λ t p.
          earlier-first first.0 first.1 ds t.absolute_run_time some_times
            (first_task-IsBy l.delayed_tasks t v.tasks times.tasks p),
      λ k h found some_deadline.
          earlier-top first.0 first.1 ds (entry k h.absolute_deadline)
            (drop_stale-InOrder l.handlers l.handler_deadlines v.deadlines) some_times
            (drop_stale-Covers l.handlers l.handler_deadlines v.entries k h found some_deadline),
    )
