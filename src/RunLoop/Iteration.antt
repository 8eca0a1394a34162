-- ===== src/RunLoop/Iteration.antt =====
-- The loop itself: `RunLoop::RunInternal`, `RunLoop::DoIteration` and what they call.
use mojo.Prelude.{
  ℕ, zero, suc, Bool, true, false, not, ◌||◌, none, some, List, [], ◌∷◌, if◌then◌else◌,
}
use mojo.Prelude.Run.{Run, ok, fault, out_of_fuel, ◌>>=◌, assert}
use mojo.System.{deadline_exceeded, aborted}
use mojo.System.Waiting.{Ticks, plus}
use mojo.RunLoop.{
  ticks_eqb, IdToHandlerInfoMap, DelayedTaskInfo, RunState, RunLoop, WaitReply, results, failed,
  Surroundings, task_less, perform_all, invalid_time_ticks,
}
use mojo.RunLoop.Wakeup.{wait_deadline, relative_deadline}
use mojo.RunLoop.Notify.{
  quitting, is_empty, initial_num_results, grow_state, notify_results, notify_deadlines,
}

-- The fake task that the queue is compared with.
abbrev pub task_now : ℕ → RunLoop → DelayedTaskInfo
task_now now l = record { id = l.next_id; task = 0; absolute_run_time = plus now }

-- How the tasks that are ready end: with a call of Quit, or with the work that was done.
pub data Phase (S : Type 0) : Type 0 where
  quits : RunLoop → S → Phase S
  goes_on : Bool → RunLoop → S → Phase S

module _ (e : Surroundings) where
  open e use {State}

  -- A round of the loop over the tasks that are ready, from what follows it and the queue.
  unfoldable pub ready_round :
      (RunLoop → State → Run (Phase State))
      → DelayedTaskInfo
      → Bool
      → RunLoop
      → State
      → List DelayedTaskInfo
      → Run (Phase State)
  unfolding task_less quitting
  ready_round rest now_task did l s [] = ok (goes_on did l s)
  ready_round rest now_task did l s (t ∷ ts) = elim (task_less now_task t) [
    | false ↦ ok (goes_on did l s)
    | true ↦
        let (actions, s₁) = e.run_task t.task s in
        (do
          (l', s') ← perform_all e actions (record l { delayed_tasks = ts }) s₁
          elim (quitting l'.current_run_state) [ true ↦ ok (quits l' s') | false ↦ rest l' s' ])
  ]

  -- That loop: `now_task` is the fake task.
  unfoldable pub run_ready : ℕ → DelayedTaskInfo → Bool → RunLoop → State → Run (Phase State)
  unfolding ready_round
  run_ready zero now_task did l s = out_of_fuel
  run_ready (suc f) now_task did l s =
      ready_round (run_ready f now_task true) now_task did l s l.delayed_tasks

  -- What an iteration does with the reply of the wait set; every other result is an assertion.
  unfoldable pub handle_reply :
      ℕ → Ticks × Bool → Bool → WaitReply → RunLoop → State → Run (Bool × RunLoop × State)
  unfolding notify_results notify_deadlines grow_state is_empty
  handle_reply f (absolute_deadline, is_task) did (results rs max_results) l s =
      assert (not (is_empty rs)) (do
        (work, l', s') ←
            notify_results e rs false
              (record l { current_run_state = grow_state max_results l.current_run_state }) s
        ok (did || work, l', s'))
  handle_reply f (absolute_deadline, is_task) did (failed deadline_exceeded) l s =
      assert (not (ticks_eqb absolute_deadline (plus invalid_time_ticks))) (do
        (work, l', s') ← notify_deadlines e f absolute_deadline false l s
        ok (did || work || is_task, l', s'))
  handle_reply f (absolute_deadline, is_task) did (failed _) l s = fault

  -- The second half of an iteration: the wait.
  unfoldable pub wait_phase :
      ℕ → Bool → ℕ → Bool → RunState → RunLoop → State → Run (Bool × RunLoop × State)
  unfolding wait_deadline relative_deadline handle_reply quitting is_empty
  wait_phase f quit_when_idle now did r l s =
      if is_empty l.handlers
      then ok (did, l, s)
      else (let ((absolute_deadline, is_task), l₁) = wait_deadline quit_when_idle now l in
          let (reply, s₁) =
            e.wait_set_wait (relative_deadline now absolute_deadline) r.results_size s in
          (do
            (should_continue, l', s') ← handle_reply f (absolute_deadline, is_task) did reply l₁ s₁
            ok (
              if quitting l'.current_run_state
                  then false
                  else if quit_when_idle
                  then should_continue
                  else not (is_empty l'.handlers),
              l',
              s',
            )))

  -- What follows the tasks that were ready.
  unfoldable pub after_tasks : ℕ → Bool → ℕ → Phase State → Run (Bool × RunLoop × State)
  unfolding wait_phase
  after_tasks f quit_when_idle now (quits l s) = ok (false, l, s)
  after_tasks f quit_when_idle now (goes_on did l s) = elim (l.current_run_state) [
    | none ↦ fault
    | some r ↦ wait_phase f quit_when_idle now did r l s
  ]

  -- `RunLoop::DoIteration`.
  unfoldable pub do_iteration : ℕ → Bool → RunLoop → State → Run (Bool × RunLoop × State)
  unfolding run_ready after_tasks
  do_iteration f quit_when_idle l s = elim (l.current_run_state) [
    | none ↦ fault
    | some r ↦ assert (not r.should_quit) (
        let (now, s₁) = e.get_time_ticks_now s in
        (do
          phase ← run_ready f (task_now now l) false l s₁
          after_tasks f quit_when_idle now phase))
  ]

  unfoldable pub run_iterations : ℕ → Bool → RunLoop → State → Run (RunLoop × State)
  run_iterations zero quit_when_idle l s = out_of_fuel
  run_iterations (suc f) quit_when_idle l s = do
    (more, l', s') ← do_iteration (suc f) quit_when_idle l s
    elim more [ true ↦ run_iterations f quit_when_idle l' s' | false ↦ ok (l', s') ]

  -- `RunLoop::RunInternal`, which Run and RunUntilIdle call.
  unfoldable pub run_internal : ℕ → Bool → RunLoop → State → Run (RunLoop × State)
  unfolding run_iterations
  run_internal f quit_when_idle l s = do
    (l', s') ←
        run_iterations f quit_when_idle
          (record l {
            current_run_state =
                some (record { should_quit = false; results_size = initial_num_results });
          })
          s
    ok (record l' { current_run_state = l.current_run_state }, s')

  -- A round of the loop of `RunLoop::~RunLoop`, from what follows it and the handlers.
  unfoldable pub abort_round :
      (RunLoop → State → Run (RunLoop × State))
      → RunLoop
      → State
      → IdToHandlerInfoMap
      → Run (RunLoop × State)
  abort_round rest l s [] = ok (l, s)
  abort_round rest l s ((id, h) ∷ hs) =
      let (actions, s₁) = e.on_handle_error h.handler id aborted s in
      (do (l', s') ← perform_all e actions (record l { handlers = hs }) s₁; rest l' s')

  -- That loop.
  unfoldable pub abort_handlers : ℕ → RunLoop → State → Run (RunLoop × State)
  unfolding abort_round
  abort_handlers zero l s = out_of_fuel
  abort_handlers (suc f) l s = abort_round (abort_handlers f) l s l.handlers
