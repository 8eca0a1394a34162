-- ===== src/RunLoop/Ready.antt =====
-- The loop over the tasks that are ready ends, and leaves none that is ready.
use mojo.Prelude.{
  ℕ, zero, suc, ◌+◌, ◌*◌, ◌≤◌, ◌<◌, ◌≡◌, refl, sym, ap, ◌∙◌, Bool, true, false, List, [], ◌∷◌,
  arith, length,
}
use mojo.Prelude.Run.{Run, Ends, Ends-bind, Ends-test}
use mojo.RunLoop.{above, DelayedTaskInfo, RunLoop, Surroundings, task_less, perform_all}
use mojo.RunLoop.Tasks.{IsOrdered, count_ready, count_ready-top, count_ready-nil, count_ready-pop}
use mojo.RunLoop.Clock.{IsClock, CallsAtMost, PostsAhead}
use mojo.RunLoop.Iteration.{Phase, quits, goes_on, task_now, run_ready, ready_round}
use mojo.RunLoop.Notify.{quitting}
use mojo.RunLoop.Calls.{id_limit, Kept, perform_all-Kept}

module _ (e : Surroundings) (c : IsClock e) (n : DelayedTaskInfo) where
  open e use {State}
  open c use {time}

  -- The loop stops with a call of Quit, or when no task is ready.
  abbrev pub Done : Phase State → Type 0
  Done (quits l s) = Unit {0}
  Done (goes_on did l s) = count_ready n l.delayed_tasks ≡ 0

  -- What a round starts from, with `m` tasks that are ready and `k` calls for each.
  pub record Starts (k m : ℕ) (l : RunLoop) (s : State) (ts : List DelayedTaskInfo) : Type 0 where
    pub ordered : IsOrdered ts
    pub clock : above n.absolute_run_time ≤ time s
    pub ids : n.id ≤ l.next_id
    pub ready : count_ready n ts ≡ m
    pub room : l.next_id + m * k < id_limit

  room_for : (k m m' i : ℕ) → suc m' ≡ m → i + m * k < id_limit → i + (k + m' * k) < id_limit
  room_for k m m' i p room =
      let q : suc m' * k ≡ k + m' * k = grind arith in omega (arith, q, ap (λ (x : ℕ). x * k) p)

  ready_round-Ends :
      (k m : ℕ) (callbacks : CallsAtMost e k) (ahead : PostsAhead e)
      (rest : RunLoop → State → Run (Phase State)) (did : Bool) (l : RunLoop) (s : State)
      (ts : List DelayedTaskInfo)
      → l.delayed_tasks ≡ ts
      → Starts k m l s ts
      → ((m' : ℕ) (l' : RunLoop) (s' : State)
          → suc m' ≡ m
          → Starts k m' l' s' l'.delayed_tasks
          → Ends Done (rest l' s'))
      → Ends Done (ready_round e rest n did l s ts)
  unfolding ready_round
  ready_round-Ends k m callbacks ahead rest did l s [] q st next =
      ap (count_ready n) q ∙ count_ready-nil n
  ready_round-Ends k m callbacks ahead rest did l s (t ∷ ts) q st next =
      Ends-test Done (task_less n t) _ _
        (λ due.
          let actions = (e.run_task t.task s).0 in
          let s₁ = (e.run_task t.task s).1 in
          let l₁ : RunLoop = record l { delayed_tasks = ts } in
          let m' = count_ready n ts in
          let one_less : suc m' ≡ m = sym (count_ready-pop n t ts due) ∙ st.ready in
          let later : time s ≤ time s₁ = c.runs t.task s in
          let few : length actions ≤ k = callbacks t.task s in
          let room : l.next_id + (k + m' * k) < id_limit =
            room_for k m m' l.next_id one_less st.room in
          Ends-bind (Kept e c n (length actions) l₁ s₁) Done (perform_all e actions l₁ s₁) _
            (perform_all-Kept e c n actions l₁ s₁ (ahead t.task s) st.ordered.1
              (omega (arith, st.clock)) st.ids (omega arith))
            (λ (a : RunLoop × State) (h : Kept e c n (length actions) l₁ s₁ a).
              Ends-test Done (quitting a.0.current_run_state) _ _ (λ _. tt)
                (λ _. next m' a.0 a.1 one_less (record {
                  ordered = h.ordered;
                  clock = omega (arith, h.clock, st.clock);
                  ids = omega (arith, h.ids_low, st.ids);
                  ready = h.ready;
                  room = omega (arith, h.ids_high);
                }))))
        (λ early. ap (count_ready n) q ∙ count_ready-top n t ts early st.ordered)

  run_ready_start :
      (k : ℕ) (callbacks : CallsAtMost e k) (ahead : PostsAhead e) (fuel m : ℕ) (did : Bool)
      (l : RunLoop) (s : State)
      → m < fuel
      → Starts k m l s l.delayed_tasks
      → Ends Done (run_ready e fuel n did l s)
  unfolding run_ready
  run_ready_start k callbacks ahead zero m did l s h st = absurd (omega arith)
  run_ready_start k callbacks ahead (suc f) m did l s h st =
      ready_round-Ends k m callbacks ahead (run_ready e f n true) did l s l.delayed_tasks refl st
        (λ m' l' s' less st'. run_ready_start k callbacks ahead f m' true l' s' (omega arith) st')

-- On a clock that does not go back, the loop over the tasks that are ready ends, though its tasks
-- may post tasks, even ones that are due at once: if the queue is in order, no task posts another with
-- a delay below 0, a task makes at most `k` calls and the ids that these can take do not wrap, one round more than there are ready tasks is
-- enough, and it ends with a call of Quit, with no ready task in the queue, or with an assertion.
pub ready_tasks_end :
    (e : Surroundings) (c : IsClock e) (k fuel : ℕ) (l : RunLoop) (s : e.State)
    → let (now, s') = e.get_time_ticks_now s in
      let ready = count_ready (task_now now l) l.delayed_tasks in
      CallsAtMost e k
      → PostsAhead e
      → IsOrdered l.delayed_tasks
      → ready < fuel
      → l.next_id + ready * k < id_limit
      → Ends (Done e c (task_now now l)) (run_ready e fuel (task_now now l) false l s')
ready_tasks_end e c k fuel l s callbacks ahead o enough room =
    let n = task_now (e.get_time_ticks_now s).0 l in
    run_ready_start e c n k callbacks ahead fuel (count_ready n l.delayed_tasks) false l
      (e.get_time_ticks_now s).1 enough
      (record { ordered = o; clock = (c.reads s).1; ids = omega arith; ready = refl; room = room })
