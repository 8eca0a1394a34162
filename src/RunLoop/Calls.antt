-- ===== src/RunLoop/Calls.antt =====
-- What the calls of one task do to the tasks that are ready: nothing.
use mojo.Prelude.Maps.{find}
use mojo.Prelude.{
  ℕ, suc, ◌+◌, ◌-◌, ◌≤◌, ◌<◌, ◌≡◌, refl, ap, ◌∙◌, false, List, [], ◌∷◌, arith, leb, ◌==◌, length,
  All, not,
}
use mojo.Prelude.Run.{Run, ok, fault, out_of_fuel, Ends, Ends-bind, Ends-assert, Ends-option}
use mojo.RunLoop.{
  DelayedTaskInfo, RunLoop, Action, add_handler, remove_handler, post_delayed_task, quit,
  Surroundings, task_less, next_after, set_deadline, schedule, do_add_handler, do_remove_handler,
  do_post_delayed_task, do_quit, perform, perform_all, max_ticks, above, below, ticks_after,
}
use mojo.System.Calls.{is_ok}
use mojo.RunLoop.Tasks.{IsOrdered, push-IsOrdered, count_ready, count_ready-push}
use mojo.RunLoop.Clock.{IsClock, IsAhead}
use mojo.System.Waiting.{Ticks, plus, minus}

-- `2 ^ 64`.
abbrev pub id_limit : ℕ
id_limit = 0x10000000000000000

module _ (e : Surroundings) (c : IsClock e) (n : DelayedTaskInfo) where
  open e use {State}
  open c use {time}

  -- After at most `k` calls the queue is in order still, no more of it is ready for `n`, the ids have
  -- advanced by `k` at most, and time has not gone back.
  pub record Kept (k : ℕ) (l : RunLoop) (s : State) (after : RunLoop × State) : Type 0 where
    pub ordered : IsOrdered after.0.delayed_tasks
    pub ready : count_ready n after.0.delayed_tasks ≡ count_ready n l.delayed_tasks
    pub ids_low : l.next_id ≤ after.0.next_id
    pub ids_high : after.0.next_id ≤ l.next_id + k
    pub clock : time s ≤ time after.1

  next_after_lem : (i : ℕ) → i + 1 < id_limit → next_after i ≡ i + 1
  unfolding next_after
  next_after_lem i h = omega arith

  post-Kept :
      (task : ℕ) (delay : Ticks) (l : RunLoop) (s : State)
      → below delay ≡ 0
      → IsOrdered l.delayed_tasks
      → above n.absolute_run_time ≤ time s
      → n.id ≤ l.next_id
      → l.next_id + 1 < id_limit
      → Ends (Kept 1 l s) (do_post_delayed_task e task delay l s)
  unfolding do_post_delayed_task task_less
  post-Kept task (minus d) l s ahead o clock ids room =
      let now = (e.get_time_ticks_now s).0 in
      let t : DelayedTaskInfo = record {
        id = l.next_id;
        task = task;
        absolute_run_time = ticks_after now (minus d);
      } in
      let reads = c.reads s in
      let late : task_less n t ≡ false = ground arith in
      record {
        ordered = push-IsOrdered t l.delayed_tasks o;
        ready = count_ready-push n t l.delayed_tasks late;
        ids_low = omega (arith, next_after_lem l.next_id room);
        ids_high = omega (arith, next_after_lem l.next_id room);
        clock = omega arith;
      }
  post-Kept task (plus d) l s ahead o clock ids room =
      let now = (e.get_time_ticks_now s).0 in
      let t : DelayedTaskInfo = record {
        id = l.next_id;
        task = task;
        absolute_run_time = plus (now + d);
      } in
      let reads = c.reads s in
      let late : task_less n t ≡ false = ground arith in
      Ends-assert _ (leb d (max_ticks - now)) _ (record {
        ordered = push-IsOrdered t l.delayed_tasks o;
        ready = count_ready-push n t l.delayed_tasks late;
        ids_low = omega (arith, next_after_lem l.next_id room);
        ids_high = omega (arith, next_after_lem l.next_id room);
        clock = omega arith;
      })

  set_deadline-keeps :
      (id deadline : ℕ) (l : RunLoop) (s : State)
      → let ((d, l'), s') = set_deadline e id deadline l s in
        (l'.delayed_tasks ≡ l.delayed_tasks) × (l'.next_id ≡ l.next_id) × (time s ≤ time s')
  unfolding set_deadline schedule
  set_deadline-keeps id deadline l s = let r = c.reads s in ground arith

  add-Kept :
      (handler handle signals deadline : ℕ) (l : RunLoop) (s : State)
      → IsOrdered l.delayed_tasks
      → l.next_id + 1 < id_limit
      → Ends (Kept 1 l s) (do_add_handler e handler handle signals deadline l s)
  unfolding do_add_handler
  add-Kept handler handle signals deadline l s o room =
      let id = l.next_id in
      let l₁ : RunLoop = record l { next_id = next_after id } in
      let z = set_deadline-keeps id deadline l₁ s in
      let i = next_after_lem id room in
      Ends-assert _ (not (handler == 0)) _ (
        Ends-assert _ (not (handle == 0)) _ (
          Ends-assert _
            (is_ok (e.wait_set_add handle signals id (set_deadline e id deadline l₁ s).1).0) _
            (record {
              ordered = rw z.0 o;
              ready = ap (count_ready n) z.0;
              ids_low = omega arith;
              ids_high = omega arith;
              clock = omega (arith, c.adds handle signals id (set_deadline e id deadline l₁ s).1);
            })))

  Kept-none : (k : ℕ) (l : RunLoop) (s : State) → IsOrdered l.delayed_tasks → Kept k l s (l, s)
  Kept-none k l s o = record {
    ordered = o;
    ready = refl;
    ids_low = omega arith;
    ids_high = omega arith;
    clock = omega arith;
  }

  remove-Kept :
      (id : ℕ) (l : RunLoop) (s : State)
      → IsOrdered l.delayed_tasks
      → Ends (Kept 1 l s) (do_remove_handler e id l s)
  unfolding do_remove_handler
  remove-Kept id l s o =
      Ends-option _ (find id l.handlers) _ _ (λ q. Kept-none 1 l s o)
        (λ h q. Ends-assert _ (is_ok (e.wait_set_remove id s).0) _ (record {
          ordered = o;
          ready = refl;
          ids_low = omega arith;
          ids_high = omega arith;
          clock = c.removes id s;
        }))

  perform-Kept :
      (a : Action) (l : RunLoop) (s : State)
      → IsAhead a
      → IsOrdered l.delayed_tasks
      → above n.absolute_run_time ≤ time s
      → n.id ≤ l.next_id
      → l.next_id + 1 < id_limit
      → Ends (Kept 1 l s) (perform e a l s)
  unfolding perform do_quit
  perform-Kept (add_handler h x g d) l s ahead o clock ids room = add-Kept h x g d l s o room
  perform-Kept (remove_handler id) l s ahead o clock ids room = remove-Kept id l s o
  perform-Kept (post_delayed_task t d) l s ahead o clock ids room =
      post-Kept t d l s ahead o clock ids room
  perform-Kept quit l s ahead o clock ids room = record {
    ordered = o;
    ready = refl;
    ids_low = omega arith;
    ids_high = omega arith;
    clock = omega arith;
  }

  Kept-more :
      (j k t : ℕ) (l : RunLoop) (s : State) (m : RunLoop × State) (r : Run (RunLoop × State))
      → j + k ≡ t
      → Kept j l s m
      → Ends (Kept k m.0 m.1) r
      → Ends (Kept t l s) r
  Kept-more j k t l s m (ok a) sum h h' = record {
    ordered = h'.ordered;
    ready = h'.ready ∙ h.ready;
    ids_low = omega (arith, h.ids_low, h'.ids_low);
    ids_high = omega (arith, h.ids_high, h'.ids_high);
    clock = omega (arith, h.clock, h'.clock);
  }
  Kept-more j k t l s m fault sum h h' = tt
  Kept-more j k t l s m out_of_fuel sum h h' = h'

  pub perform_all-Kept :
      (actions : List Action) (l : RunLoop) (s : State)
      → All IsAhead actions
      → IsOrdered l.delayed_tasks
      → above n.absolute_run_time ≤ time s
      → n.id ≤ l.next_id
      → l.next_id + length actions < id_limit
      → Ends (Kept (length actions) l s) (perform_all e actions l s)
  unfolding perform_all
  perform_all-Kept [] l s ahead o clock ids room = Kept-none 0 l s o
  perform_all-Kept (a ∷ actions) l s ahead o clock ids room =
      Ends-bind (Kept 1 l s) _ (perform e a l s) _
        (perform-Kept a l s ahead.0 o clock ids (omega arith))
        (λ (m : RunLoop × State) (h : Kept 1 l s m).
          Kept-more 1 (length actions) (suc (length actions)) l s m _ (omega arith) h (
            perform_all-Kept actions m.0 m.1 ahead.1 h.ordered (omega (arith, h.clock))
              (omega (arith, h.ids_low)) (omega (arith, h.ids_high))))
