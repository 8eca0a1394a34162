-- ===== src/RunLoop/Runs.antt =====
-- A run of the loop keeps what holds of it between two calls.
use mojo.Prelude.Maps.{erase, erase-Ascends, find}
use mojo.Prelude.{ℕ, zero, suc, ◌≡◌, refl, Bool, true, false, not, List, [], ◌∷◌}
use mojo.Prelude.Run.{
  Run, Yields, Yields-bind, Yields-assert, Yields-if, Yields-test, Yields-option,
}
use mathlib.Core.Path.{subst}
use mojo.System.{deadline_exceeded}
use mojo.System.Calls.{is_ok}
use mojo.System.Waiting.{Ticks, plus}
use mojo.RunLoop.{
  ticks_ltb, ticks_eqb, DelayedTaskInfo, HandlerDeadlineInfo, RunState, RunLoop, WaitSetResult,
  WaitReply, results, failed, Surroundings, task_less, deadline_less, perform_all,
  invalid_time_ticks,
}
use mojo.RunLoop.Queue.{InOrder}
use mojo.RunLoop.Invariant.{Covers, IsLoop, erase-IsLoop, perform_all-IsLoop}
use mojo.RunLoop.Iteration.{
  Phase, quits, goes_on, ready_round, run_ready, handle_reply, wait_phase, after_tasks,
  do_iteration, run_iterations, run_internal,
}
use mojo.RunLoop.Wakeup.{wait_deadline, relative_deadline}
use mojo.RunLoop.Notify.{
  quitting, is_empty, grow_state, call_handler, notify_results, deadline_round, notify_deadlines,
}
use mojo.RunLoop.Kept.{pop-Covers, expire-Covers, wait_deadline-IsLoop, set_state-IsLoop}

module _ (e : Surroundings) where
  open e use {State}

  abbrev PhaseIsLoop : Phase State → Type 0
  PhaseIsLoop (quits l s) = IsLoop l
  PhaseIsLoop (goes_on did l s) = IsLoop l

  ready_round-IsLoop :
      (rest : RunLoop → State → Run (Phase State)) (n : DelayedTaskInfo) (did : Bool) (l : RunLoop)
      (s : State) (ts : List DelayedTaskInfo)
      → l.delayed_tasks ≡ ts
      → IsLoop l
      → ((l' : RunLoop) (s' : State) → IsLoop l' → Yields PhaseIsLoop (rest l' s'))
      → Yields PhaseIsLoop (ready_round e rest n did l s ts)
  unfolding ready_round
  ready_round-IsLoop rest n did l s [] q v next = v
  ready_round-IsLoop rest n did l s (t ∷ ts) q v next =
      Yields-test _ (task_less n t) _ _
        (λ due.
          let w : IsLoop (record l { delayed_tasks = ts }) = record {
            tasks = (subst (InOrder task_less) q v.tasks).1;
            deadlines = v.deadlines;
            keys = v.keys;
            entries = v.entries;
          } in
          Yields-bind (λ r. IsLoop r.0) _
            (perform_all e (e.run_task t.task s).0 (record l { delayed_tasks = ts })
              (e.run_task t.task s).1)
            _ (perform_all-IsLoop e (e.run_task t.task s).0 _ (e.run_task t.task s).1 w)
            (λ r v'.
              Yields-test _ (quitting r.0.current_run_state) _ _ (λ _. v') (λ _. next r.0 r.1 v')))
        (λ early. v)

  run_ready-IsLoop :
      (f : ℕ) (n : DelayedTaskInfo) (did : Bool) (l : RunLoop) (s : State)
      → IsLoop l
      → Yields PhaseIsLoop (run_ready e f n did l s)
  unfolding run_ready
  run_ready-IsLoop zero n did l s v = tt
  run_ready-IsLoop (suc f) n did l s v =
      ready_round-IsLoop (run_ready e f n true) n did l s l.delayed_tasks refl v
        (run_ready-IsLoop f n true)

  notify_results-IsLoop :
      (rs : List WaitSetResult) (did : Bool) (l : RunLoop) (s : State)
      → IsLoop l
      → Yields (λ r. IsLoop r.1) (notify_results e rs did l s)
  unfolding notify_results
  notify_results-IsLoop [] did l s v = v
  notify_results-IsLoop (r ∷ rs) did l s v =
      Yields-option _ (find r.cookie l.handlers) _ _ (λ _. notify_results-IsLoop rs did l s v)
        (λ h found.
          let (removed, s₁) = e.wait_set_remove r.cookie s in
          let (actions, s₂) = call_handler e h r s₁ in
          Yields-assert _ (is_ok removed) _ (
            Yields-bind (λ r. IsLoop r.0) _
              (perform_all e actions (record l { handlers = erase r.cookie l.handlers }) s₂) _
              (perform_all-IsLoop e actions _ s₂ (erase-IsLoop r.cookie l v))
              (λ a v'.
                Yields-test _ (quitting a.0.current_run_state) _ _ (λ _. v')
                  (λ _. notify_results-IsLoop rs true a.0 a.1 v'))))

  deadline_round-IsLoop :
      (rest : Bool → RunLoop → State → Run (Bool × RunLoop × State)) (b : Ticks) (did : Bool)
      (l : RunLoop) (s : State) (ds : List HandlerDeadlineInfo)
      → l.handler_deadlines ≡ ds
      → IsLoop l
      → ((did' : Bool) (l' : RunLoop) (s' : State)
          → IsLoop l'
          → Yields (λ r. IsLoop r.1) (rest did' l' s'))
      → Yields (λ r. IsLoop r.1) (deadline_round e rest b did l s ds)
  unfolding deadline_round
  deadline_round-IsLoop rest b did l s [] q v next = v
  deadline_round-IsLoop rest b did l s (d ∷ ds) q v next =
      let order = subst (InOrder deadline_less) q v.deadlines in
      let covers = subst (Covers l.handlers) q v.entries in
      Yields-test _ (ticks_ltb b (plus d.absolute_deadline)) _ _ (λ _. v)
        (λ _.
          Yields-option _ (find d.id l.handlers) _ _
            (λ stale. next did _ s (record {
              tasks = v.tasks;
              deadlines = order.1;
              keys = v.keys;
              entries = pop-Covers l.handlers d ds covers stale;
            }))
            (λ h found.
              let (actions, s₁) = e.on_handle_error h.handler d.id deadline_exceeded s in
              let w : IsLoop
                  (record l { handlers = erase d.id l.handlers; handler_deadlines = ds }) =
                record {
                  tasks = v.tasks;
                  deadlines = order.1;
                  keys = erase-Ascends d.id l.handlers v.keys;
                  entries = expire-Covers l d ds v covers;
                } in
              Yields-bind (λ r. IsLoop r.0) _
                (perform_all e actions
                  (record l { handlers = erase d.id l.handlers; handler_deadlines = ds }) s₁)
                _ (perform_all-IsLoop e actions _ s₁ w)
                (λ a v'.
                  Yields-test _ (quitting a.0.current_run_state) _ _ (λ _. v')
                    (λ _. next true a.0 a.1 v'))))

  notify_deadlines-IsLoop :
      (f : ℕ) (b : Ticks) (did : Bool) (l : RunLoop) (s : State)
      → IsLoop l
      → Yields (λ r. IsLoop r.1) (notify_deadlines e f b did l s)
  unfolding notify_deadlines
  notify_deadlines-IsLoop zero b did l s v = tt
  notify_deadlines-IsLoop (suc f) b did l s v =
      deadline_round-IsLoop (notify_deadlines e f b) b did l s l.handler_deadlines refl v
        (notify_deadlines-IsLoop f b)

  handle_reply-IsLoop :
      (f : ℕ) (deadline : Ticks × Bool) (did : Bool) (reply : WaitReply) (l : RunLoop) (s : State)
      → IsLoop l
      → Yields (λ r. IsLoop r.1) (handle_reply e f deadline did reply l s)
  unfolding handle_reply
  handle_reply-IsLoop f (b, is_task) did (results rs n) l s v =
      Yields-assert _ (not (is_empty rs)) _ (
        Yields-bind (λ r. IsLoop r.1) _
          (notify_results e rs false
            (record l { current_run_state = grow_state n l.current_run_state }) s)
          _
          (notify_results-IsLoop rs false _ s
            (set_state-IsLoop (grow_state n l.current_run_state) l v))
          (λ r v'. v'))
  handle_reply-IsLoop f (b, is_task) did (failed deadline_exceeded) l s v =
      Yields-assert _ (not (ticks_eqb b (plus invalid_time_ticks))) _ (
        Yields-bind (λ r. IsLoop r.1) _ (notify_deadlines e f b false l s) _
          (notify_deadlines-IsLoop f b false l s v) (λ r v'. v'))
  handle_reply-IsLoop f (b, is_task) did (failed _) l s v = tt

  wait_phase-IsLoop :
      (f : ℕ) (quit_when_idle : Bool) (now : ℕ) (did : Bool) (r : RunState) (l : RunLoop)
      (s : State)
      → IsLoop l
      → Yields (λ r. IsLoop r.1) (wait_phase e f quit_when_idle now did r l s)
  unfolding wait_phase
  wait_phase-IsLoop f quit_when_idle now did r l s v =
      let w = wait_deadline quit_when_idle now l in
      let (reply, s₁) = e.wait_set_wait (relative_deadline now w.0.0) r.results_size s in
      Yields-if _ (is_empty l.handlers) _ _ v (
        Yields-bind (λ r. IsLoop r.1) _ (handle_reply e f w.0 did reply w.1 s₁) _
          (handle_reply-IsLoop f w.0 did reply w.1 s₁ (wait_deadline-IsLoop quit_when_idle now l v))
          (λ r v'. v'))

  after_tasks-IsLoop :
      (f : ℕ) (quit_when_idle : Bool) (now : ℕ) (p : Phase State)
      → PhaseIsLoop p
      → Yields (λ r. IsLoop r.1) (after_tasks e f quit_when_idle now p)
  unfolding after_tasks
  after_tasks-IsLoop f quit_when_idle now (quits l s) v = v
  after_tasks-IsLoop f quit_when_idle now (goes_on did l s) v =
      Yields-option _ l.current_run_state _ _ (λ _. tt)
        (λ r _. wait_phase-IsLoop f quit_when_idle now did r l s v)

  do_iteration-IsLoop :
      (f : ℕ) (quit_when_idle : Bool) (l : RunLoop) (s : State)
      → IsLoop l
      → Yields (λ r. IsLoop r.1) (do_iteration e f quit_when_idle l s)
  unfolding do_iteration
  do_iteration-IsLoop f quit_when_idle l s v =
      Yields-option _ l.current_run_state _ _ (λ _. tt)
        (λ r _. Yields-assert _ (not r.should_quit) _ (
          let (now, s₁) = e.get_time_ticks_now s in
          let n : DelayedTaskInfo = record {
            id = l.next_id;
            task = 0;
            absolute_run_time = plus now;
          } in
          Yields-bind PhaseIsLoop _ (run_ready e f n false l s₁) _
            (run_ready-IsLoop f n false l s₁ v) (after_tasks-IsLoop f quit_when_idle now)))

  run_iterations-IsLoop :
      (f : ℕ) (quit_when_idle : Bool) (l : RunLoop) (s : State)
      → IsLoop l
      → Yields (λ r. IsLoop r.0) (run_iterations e f quit_when_idle l s)
  unfolding run_iterations
  run_iterations-IsLoop zero quit_when_idle l s v = tt
  run_iterations-IsLoop (suc f) quit_when_idle l s v =
      Yields-bind (λ r. IsLoop r.1) _ (do_iteration e (suc f) quit_when_idle l s) _
        (do_iteration-IsLoop (suc f) quit_when_idle l s v)
        (λ r v'.
          Yields-test _ r.0 _ _ (λ _. run_iterations-IsLoop f quit_when_idle r.1 r.2 v') (λ _. v'))

  pub run_internal-IsLoop :
      (f : ℕ) (quit_when_idle : Bool) (l : RunLoop) (s : State)
      → IsLoop l
      → Yields (λ r. IsLoop r.0) (run_internal e f quit_when_idle l s)
  unfolding run_internal
  run_internal-IsLoop f quit_when_idle l s v =
      Yields-bind (λ r. IsLoop r.0) _ (run_iterations e f quit_when_idle _ s) _
        (run_iterations-IsLoop f quit_when_idle _ s (set_state-IsLoop _ l v))
        (λ r v'. set_state-IsLoop l.current_run_state r.0 v')
