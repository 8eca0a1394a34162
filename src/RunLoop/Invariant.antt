-- ===== src/RunLoop/Invariant.antt =====
-- What holds of a run loop between two calls.
use mojo.Prelude.Maps.{
  Ascends, erase, erase-Ascends, find, find-erase, find-insert, insert, insert-Ascends,
}
use mojo.Prelude.{
  ℕ, ◌+◌, ◌-◌, ◌≡◌, ◌≢◌, inl, inr, refl, true, false, not, some, List, [], ◌∷◌, arith, leb, ◌==◌,
  if_cases,
}
use mojo.Prelude.Run.{Yields, Yields-bind, Yields-assert, Yields-option}
use mojo.System.Calls.{is_ok}
use mojo.RunLoop.{
  is_in_range, HandlerDeadlineInfo, HandlerInfo, IdToHandlerInfoMap, RunLoop, Action, add_handler,
  remove_handler, post_delayed_task, quit, Surroundings, deadline_less, push, schedule,
  set_deadline, next_after, do_add_handler, do_remove_handler, do_post_delayed_task, do_quit,
  perform, perform_all, max_ticks, invalid_time_ticks,
}
use mojo.RunLoop.Queue.{InOrder, Has, Has-push, Has-push_self, push-InOrder}
use mojo.RunLoop.Tasks.{IsOrdered, push-IsOrdered}

deadline_less_trans :
    (a b c : HandlerDeadlineInfo)
    → deadline_less b a ≡ true
    → deadline_less b c ≡ false
    → deadline_less a c ≡ false
unfolding deadline_less
deadline_less_trans a b c p q = ground arith

deadline_less_asym :
    (a b : HandlerDeadlineInfo) → deadline_less b a ≡ true → deadline_less a b ≡ false
unfolding deadline_less
deadline_less_asym a b p = ground arith

abbrev pub entry : ℕ → ℕ → HandlerDeadlineInfo
entry id deadline = record { id = id; absolute_deadline = deadline }

-- Every handler with a deadline has an entry in the queue.
abbrev pub Covers : IdToHandlerInfoMap → List HandlerDeadlineInfo → Type 0
Covers hs ds =
    (k : ℕ) (h : HandlerInfo)
    → find k hs ≡ some h
    → h.absolute_deadline ≢ invalid_time_ticks
    → Has (entry k h.absolute_deadline) ds

-- Both queues are in order, the map has ascending keys, and no deadline of a handler is forgotten.
pub record IsLoop (l : RunLoop) : Type 0 where
  pub tasks : IsOrdered l.delayed_tasks
  pub deadlines : InOrder deadline_less l.handler_deadlines
  pub keys : Ascends l.handlers
  pub entries : Covers l.handlers l.handler_deadlines

-- The queue after `set_deadline` has an entry for the deadline that it returns.
record Scheduled (id : ℕ) (ds : List HandlerDeadlineInfo) (deadline : ℕ) (l : RunLoop)
    : Type 0 where
  deadlines : InOrder deadline_less l.handler_deadlines
  has : deadline ≢ invalid_time_ticks → Has (entry id deadline) l.handler_deadlines
  old : (d : HandlerDeadlineInfo) → Has d ds → Has d l.handler_deadlines

push-deadlines :
    (x : HandlerDeadlineInfo) (ds : List HandlerDeadlineInfo)
    → InOrder deadline_less ds
    → InOrder deadline_less (push deadline_less x ds)
push-deadlines = push-InOrder deadline_less deadline_less_trans deadline_less_asym

never :
    (id : ℕ) (l : RunLoop)
    → InOrder deadline_less l.handler_deadlines
    → Scheduled id l.handler_deadlines invalid_time_ticks l
never id l o = record { deadlines = o; has = λ h. absurd (h refl); old = λ d h. h }

-- A handler less.
pub erase-IsLoop :
    (id : ℕ) (l : RunLoop) → IsLoop l → IsLoop (record l { handlers = erase id l.handlers })
erase-IsLoop id l v = record {
  tasks = v.tasks;
  deadlines = v.deadlines;
  keys = erase-Ascends id l.handlers v.keys;
  entries = λ k h found some_deadline.
      v.entries k h (find-erase id k h l.handlers v.keys found).0 some_deadline;
}

module _ (e : Surroundings) where
  open e use {State}

  schedule-Scheduled :
      (id deadline now : ℕ) (l : RunLoop)
      → InOrder deadline_less l.handler_deadlines
      → Scheduled id l.handler_deadlines
          (schedule e id deadline now l).0
          (schedule e id deadline now l).1
  unfolding schedule
  schedule-Scheduled id deadline now l o =
      if_cases (λ (x : ℕ × RunLoop). Scheduled id l.handler_deadlines x.0 x.1)
        (leb deadline (max_ticks - now)) _ _
        (record {
          deadlines = push-deadlines (entry id (now + deadline)) l.handler_deadlines o;
          has = λ _. Has-push_self deadline_less (entry id (now + deadline)) l.handler_deadlines;
          old = λ d. Has-push deadline_less (entry id (now + deadline)) d l.handler_deadlines;
        })
        (never id l o)

  set_deadline-Scheduled :
      (id deadline : ℕ) (l : RunLoop) (s : State)
      → InOrder deadline_less l.handler_deadlines
      → let ((d, l'), s') = set_deadline e id deadline l s in Scheduled id l.handler_deadlines d l'
  unfolding set_deadline
  set_deadline-Scheduled id deadline l s o =
      if_cases (λ (x : (ℕ × RunLoop) × State). Scheduled id l.handler_deadlines x.0.0 x.0.1)
        (leb deadline max_ticks) _ _ (schedule-Scheduled id deadline (e.get_time_ticks_now s).0 l o)
        (never id l o)

  added :
      (id k : ℕ) (x h : HandlerInfo) (ds : List HandlerDeadlineInfo)
      → id ≡ k
      → x ≡ h
      → (x.absolute_deadline ≢ invalid_time_ticks → Has (entry id x.absolute_deadline) ds)
      → h.absolute_deadline ≢ invalid_time_ticks
      → Has (entry k h.absolute_deadline) ds
  added id k x h ds p q = rw (← p, ← q) (λ new. new)

  add-Covers :
      (id : ℕ) (x : HandlerInfo) (hs : IdToHandlerInfoMap) (ds ds' : List HandlerDeadlineInfo)
      → Covers hs ds
      → ((d : HandlerDeadlineInfo) → Has d ds → Has d ds')
      → (x.absolute_deadline ≢ invalid_time_ticks → Has (entry id x.absolute_deadline) ds')
      → Covers (insert id x hs) ds'
  add-Covers id x hs ds ds' c old new k h found some_deadline =
      elim (find-insert id k x h hs found) [
        | inl p ↦ old _ (c k h p some_deadline)
        | inr (p, q) ↦ added id k x h ds' p q new some_deadline
      ]

  set_deadline-same :
      (id deadline : ℕ) (l : RunLoop) (s : State)
      → let ((d, l'), s') = set_deadline e id deadline l s in
        (l'.handlers ≡ l.handlers) × (l'.delayed_tasks ≡ l.delayed_tasks)
  unfolding set_deadline schedule
  set_deadline-same id deadline l s = ground arith

  add-IsLoop :
      (handler handle signals deadline : ℕ) (l : RunLoop) (s : State)
      → IsLoop l
      → Yields (λ a. IsLoop a.0) (do_add_handler e handler handle signals deadline l s)
  unfolding do_add_handler
  add-IsLoop handler handle signals deadline l s v =
      let id = l.next_id in
      let l₁ : RunLoop = record l { next_id = next_after id } in
      let a = set_deadline-Scheduled id deadline l₁ s v.deadlines in
      let same = set_deadline-same id deadline l₁ s in
      let x : HandlerInfo = record {
        handler = handler;
        handle_signals = signals;
        absolute_deadline = (set_deadline e id deadline l₁ s).0.0;
      } in
      Yields-assert _ (not (handler == 0)) _ (
        Yields-assert _ (not (handle == 0)) _ (
          Yields-assert _
            (is_ok (e.wait_set_add handle signals id (set_deadline e id deadline l₁ s).1).0) _
            (record {
              tasks = rw same.1 v.tasks;
              deadlines = a.deadlines;
              keys = rw same.0 (insert-Ascends id x l.handlers v.keys);
              entries =
                  rw same.0
                    (add-Covers id x l.handlers l.handler_deadlines _ v.entries a.old a.has);
            })))

  remove-IsLoop :
      (id : ℕ) (l : RunLoop) (s : State)
      → IsLoop l
      → Yields (λ a. IsLoop a.0) (do_remove_handler e id l s)
  unfolding do_remove_handler
  remove-IsLoop id l s v =
      Yields-option _ (find id l.handlers) _ _ (λ q. v)
        (λ h q. Yields-assert _ (is_ok (e.wait_set_remove id s).0) _ (erase-IsLoop id l v))

  perform-IsLoop :
      (a : Action) (l : RunLoop) (s : State) → IsLoop l → Yields (λ r. IsLoop r.0) (perform e a l s)
  unfolding perform do_quit do_post_delayed_task
  perform-IsLoop (add_handler h x g d) l s v = add-IsLoop h x g d l s v
  perform-IsLoop (remove_handler id) l s v = remove-IsLoop id l s v
  perform-IsLoop (post_delayed_task t d) l s v =
      Yields-assert _ (is_in_range (e.get_time_ticks_now s).0 d) _ (record {
        tasks = push-IsOrdered _ l.delayed_tasks v.tasks;
        deadlines = v.deadlines;
        keys = v.keys;
        entries = v.entries;
      })
  perform-IsLoop quit l s v = record {
    tasks = v.tasks;
    deadlines = v.deadlines;
    keys = v.keys;
    entries = v.entries;
  }

  pub perform_all-IsLoop :
      (actions : List Action) (l : RunLoop) (s : State)
      → IsLoop l
      → Yields (λ r. IsLoop r.0) (perform_all e actions l s)
  unfolding perform_all
  perform_all-IsLoop [] l s v = v
  perform_all-IsLoop (a ∷ actions) l s v =
      Yields-bind (λ r. IsLoop r.0) _ (perform e a l s) _ (perform-IsLoop a l s v)
        (λ r v'. perform_all-IsLoop actions r.0 r.1 v')
