-- ===== src/RunLoop/Notify.antt =====
-- The calls of handlers: `RunLoop::NotifyResults` and `RunLoop::NotifyHandlersDeadlineExceeded`.
use mojo.Prelude.Maps.{erase, find}
use mojo.Prelude.{
  ℕ, zero, suc, ◌*◌, ◌%◌, Bool, true, false, Option, none, some, List, [], ◌∷◌, ltb, if◌then◌else◌,
  word,
}
use mojo.Prelude.Run.{Run, ok, out_of_fuel, ◌>>=◌, assert}
use mojo.System.{deadline_exceeded}
use mojo.System.Calls.{is_ok}
use mojo.System.Waiting.{Ticks, plus}
use mojo.RunLoop.{
  ticks_ltb, HandlerDeadlineInfo, HandlerInfo, RunState, RunLoop, Action, WaitSetResult,
  Surroundings, perform_all,
}

-- `current_run_state_->should_quit`.
unfoldable pub quitting : Option RunState → Bool
quitting none = false
quitting (some r) = r.should_quit

unfoldable pub is_empty {ℓ} : {A : Type ℓ} → List A → Bool
is_empty [] = true
is_empty (_ ∷ _) = false

-- `kInitialWaitSetNumResults` and `kMaximumWaitSetNumResults`.
abbrev pub initial_num_results : ℕ
initial_num_results = 16

abbrev pub maximum_num_results : ℕ
maximum_num_results = 256

-- More results than were accepted: twice the number, up to the limit.
unfoldable pub grow_results : ℕ → RunState → RunState
grow_results max_results r =
    if ltb r.results_size max_results
    then record r {
      results_size =
          if ltb (r.results_size * 2 % word) maximum_num_results
          then r.results_size * 2 % word
          else maximum_num_results;
    }
    else r

unfoldable pub grow_state : ℕ → Option RunState → Option RunState
unfolding grow_results
grow_state max_results none = none
grow_state max_results (some r) = some (grow_results max_results r)

module _ (e : Surroundings) where
  open e use {State}

  -- The call of a handler with a result of the wait set.
  unfoldable pub call_handler : HandlerInfo → WaitSetResult → State → List Action × State
  call_handler h r s =
      if is_ok r.wait_result
      then e.on_handle_ready h.handler r.cookie s
      else e.on_handle_error h.handler r.cookie r.wait_result s

  -- `RunLoop::NotifyResults`.
  unfoldable pub notify_results :
      List WaitSetResult → Bool → RunLoop → State → Run (Bool × RunLoop × State)
  unfolding find erase call_handler quitting is_ok
  notify_results [] did l s = ok (did, l, s)
  notify_results (r ∷ rs) did l s = elim (find r.cookie l.handlers) [
    | none ↦ notify_results rs did l s
    | some h ↦
        let (removed, s₁) = e.wait_set_remove r.cookie s in
        assert (is_ok removed) (
          let (actions, s₂) = call_handler h r s₁ in
          (do
            (l', s') ← perform_all e actions (record l { handlers = erase r.cookie l.handlers }) s₂
            elim (quitting l'.current_run_state) [
              | true ↦ ok (true, l', s')
              | false ↦ notify_results rs true l' s'
            ]))
  ]

  -- A round of `RunLoop::NotifyHandlersDeadlineExceeded`, from what follows it and the queue.
  unfoldable pub deadline_round :
      (Bool → RunLoop → State → Run (Bool × RunLoop × State))
      → Ticks
      → Bool
      → RunLoop
      → State
      → List HandlerDeadlineInfo
      → Run (Bool × RunLoop × State)
  unfolding find erase quitting
  deadline_round rest absolute_deadline did l s [] = ok (did, l, s)
  deadline_round rest absolute_deadline did l s (d ∷ ds) =
      elim (ticks_ltb absolute_deadline (plus d.absolute_deadline)) [
        | true ↦ ok (did, l, s)
        | false ↦ elim (find d.id l.handlers) [
          | none ↦ rest did (record l { handler_deadlines = ds }) s
          | some h ↦
              let (actions, s₁) = e.on_handle_error h.handler d.id deadline_exceeded s in
              (do
                (l', s') ←
                    perform_all e actions
                      (record l { handlers = erase d.id l.handlers; handler_deadlines = ds }) s₁
                elim (quitting l'.current_run_state) [
                  | true ↦ ok (true, l', s')
                  | false ↦ rest true l' s'
                ])
        ]
      ]

  -- `RunLoop::NotifyHandlersDeadlineExceeded`.
  unfoldable pub notify_deadlines :
      ℕ → Ticks → Bool → RunLoop → State → Run (Bool × RunLoop × State)
  unfolding deadline_round
  notify_deadlines zero absolute_deadline did l s = out_of_fuel
  notify_deadlines (suc f) absolute_deadline did l s =
      deadline_round (notify_deadlines f absolute_deadline) absolute_deadline did l s
        l.handler_deadlines
