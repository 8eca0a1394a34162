-- ===== src/RunLoop/Lifetimes.antt =====
-- A run loop from one call to the next, to its destruction.
use mojo.Prelude.{ℕ, zero, suc, ◌≡◌, refl, ap, ◌∙◌, Bool, List, [], ◌∷◌}
use mojo.Prelude.Maps.{erase, erase-head, find}
use mojo.Prelude.Run.{Run, ok, ◌>>=◌, Yields, Yields-bind}
use mathlib.Core.Path.{subst}
use mojo.System.{aborted}
use mojo.RunLoop.{
  HandlerInfo, IdToHandlerInfoMap, RunLoop, Action, Surroundings, perform_all, new_run_loop,
}
use mojo.RunLoop.Invariant.{IsLoop, erase-IsLoop, perform_all-IsLoop}
use mojo.RunLoop.Iteration.{run_internal, abort_round, abort_handlers}
use mojo.RunLoop.Runs.{run_internal-IsLoop}

-- What happens to a run loop: a client makes calls, it runs, or its destructor calls the handlers.
pub data Event : Type 0 where
  client_calls : List Action → Event
  runs : Bool → Event
  destroyed : Event

unfoldable pub live : (e : Surroundings) → ℕ → Event → RunLoop → e.State → Run (RunLoop × e.State)
unfolding perform_all run_internal abort_handlers
live e f (client_calls actions) l s = perform_all e actions l s
live e f (runs quit_when_idle) l s = run_internal e f quit_when_idle l s
live e f destroyed l s = abort_handlers e f l s

unfoldable pub live_all :
    (e : Surroundings) → ℕ → List Event → RunLoop → e.State → Run (RunLoop × e.State)
unfolding live
live_all e f [] l s = ok (l, s)
live_all e f (event ∷ events) l s = do (l', s') ← live e f event l s; live_all e f events l' s'

head-IsLoop :
    (l : RunLoop) (id : ℕ) (h : HandlerInfo) (hs : IdToHandlerInfoMap)
    → l.handlers ≡ (id, h) ∷ hs
    → IsLoop l
    → IsLoop (record l { handlers = hs })
head-IsLoop l id h hs q v =
    subst (λ x. IsLoop (record l { handlers = x })) (ap (erase id) q ∙ erase-head id h hs)
      (erase-IsLoop id l v)

module _ (e : Surroundings) where
  open e use {State}

  abort_round-IsLoop :
      (rest : RunLoop → State → Run (RunLoop × State)) (l : RunLoop) (s : State)
      (hs : IdToHandlerInfoMap)
      → l.handlers ≡ hs
      → IsLoop l
      → ((l' : RunLoop) (s' : State) → IsLoop l' → Yields (λ r. IsLoop r.0) (rest l' s'))
      → Yields (λ r. IsLoop r.0) (abort_round e rest l s hs)
  unfolding abort_round
  abort_round-IsLoop rest l s [] q v next = v
  abort_round-IsLoop rest l s ((id, h) ∷ hs) q v next =
      let (actions, s₁) = e.on_handle_error h.handler id aborted s in
      Yields-bind (λ r. IsLoop r.0) _ (perform_all e actions (record l { handlers = hs }) s₁) _
        (perform_all-IsLoop e actions (record l { handlers = hs }) s₁ (head-IsLoop l id h hs q v))
        (λ r w. next r.0 r.1 w)

  abort_handlers-IsLoop :
      (f : ℕ) (l : RunLoop) (s : State)
      → IsLoop l
      → Yields (λ r. IsLoop r.0) (abort_handlers e f l s)
  unfolding abort_handlers
  abort_handlers-IsLoop zero l s v = tt
  abort_handlers-IsLoop (suc f) l s v =
      abort_round-IsLoop (abort_handlers e f) l s l.handlers refl v (abort_handlers-IsLoop f)

  live-IsLoop :
      (f : ℕ) (event : Event) (l : RunLoop) (s : State)
      → IsLoop l
      → Yields (λ r. IsLoop r.0) (live e f event l s)
  unfolding live
  live-IsLoop f (client_calls actions) l s v = perform_all-IsLoop e actions l s v
  live-IsLoop f (runs quit_when_idle) l s v = run_internal-IsLoop e f quit_when_idle l s v
  live-IsLoop f destroyed l s v = abort_handlers-IsLoop f l s v

lives-IsLoop :
    (e : Surroundings) (f : ℕ) (events : List Event) (l : RunLoop) (s : e.State)
    → IsLoop l
    → Yields (λ r. IsLoop r.0) (live_all e f events l s)
unfolding live_all
lives-IsLoop e f [] l s v = v
lives-IsLoop e f (event ∷ events) l s v =
    Yields-bind (λ r. IsLoop r.0) _ (live e f event l s) _ (live-IsLoop e f event l s v)
      (λ r w. lives-IsLoop e f events r.0 r.1 w)

new_run_loop-IsLoop : IsLoop new_run_loop
unfolding find
new_run_loop-IsLoop = record {
  tasks = tt;
  deadlines = tt;
  keys = tt;
  entries = λ k h found some_deadline. cc;
}

-- From a new run loop on, whatever the clock, the wait set and the client do, and in whatever order a
-- client makes calls, the loop runs or its destructor calls the handlers, if the code returns then
-- both queues are in order, the keys of the handlers ascend, and every handler with a deadline has an
-- entry in the queue of deadlines.
pub live_all-IsLoop :
    (e : Surroundings) (f : ℕ) (events : List Event) (s : e.State)
    → Yields (λ r. IsLoop r.0) (live_all e f events new_run_loop s)
live_all-IsLoop e f events s = lives-IsLoop e f events new_run_loop s new_run_loop-IsLoop
