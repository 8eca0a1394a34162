-- ===== src/RunLoop.antt =====
-- mojo::RunLoop of public/cpp/utility (run_loop.h and run_loop.cc): its queues, and the calls that a
-- client makes on it. The clock and the deadlines of handlers are numbers of
-- microseconds and not negative; the times of tasks are signed, as a delay may be.
pub mod Queue
pub mod Clock
pub mod Tasks
pub mod Calls
pub mod Ready
pub mod Wakeup
pub mod Notify
pub mod Iteration
pub mod Invariant
pub mod Kept
pub mod Runs
pub mod Lifetimes
pub mod Deadlines
pub mod Stale
use mojo.Prelude.{
  ℕ, zero, suc, ◌+◌, ◌-◌, ◌%◌, Bool, true, false, not, ◌&&◌, ◌||◌, Option, none, some, List, [],
  ◌∷◌, ltb, leb, ◌==◌, if◌then◌else◌,
}
use mojo.Prelude.Maps.{find, erase, insert}
use mojo.Prelude.Run.{Run, ok, fault, ◌>>=◌, assert}
use mojo.System.{MojoResult}
use mojo.System.Calls.{is_ok}
use mojo.System.Waiting.{Ticks, plus, minus}

-- `MojoTimeTicks` by its parts, of which one is 0, and its comparisons.
abbrev pub above : Ticks → ℕ
above (plus n) = n
above (minus n) = 0

abbrev pub below : Ticks → ℕ
below (plus n) = 0
below (minus n) = n

abbrev pub ticks_ltb : Ticks → Ticks → Bool
ticks_ltb a b = ltb (above a + below b) (above b + below a)

abbrev pub ticks_eqb : Ticks → Ticks → Bool
ticks_eqb a b = above a + below b == above b + below a

-- `now + delay`.
abbrev pub ticks_after : ℕ → Ticks → Ticks
ticks_after now (plus n) = plus (now + n)
ticks_after now (minus n) = if leb n now then plus (now - n) else minus (n - now)

-- `RunLoop::DelayedTaskInfo`; a closure is a number that the client knows.
pub record DelayedTaskInfo : Type 0 where
  pub id : ℕ
  pub task : ℕ
  pub absolute_run_time : Ticks

-- `RunLoop::HandlerDeadlineInfo`.
pub record HandlerDeadlineInfo : Type 0 where
  pub id : ℕ
  pub absolute_deadline : ℕ

-- `RunLoop::HandlerInfo`; a handler is a number that the client knows.
pub record HandlerInfo : Type 0 where
  pub handler : ℕ
  pub handle_signals : ℕ
  pub absolute_deadline : ℕ

-- `DelayedTaskInfo::operator<`: a task that runs later, or was posted later, is less.
unfoldable pub task_less : DelayedTaskInfo → DelayedTaskInfo → Bool
task_less a b =
    if ticks_eqb a.absolute_run_time b.absolute_run_time
    then ltb b.id a.id
    else ticks_ltb b.absolute_run_time a.absolute_run_time

-- `HandlerDeadlineInfo::operator<`.
unfoldable pub deadline_less : HandlerDeadlineInfo → HandlerDeadlineInfo → Bool
deadline_less a b =
    if a.absolute_deadline == b.absolute_deadline
    then ltb a.id b.id
    else ltb b.absolute_deadline a.absolute_deadline

-- `std::priority_queue::push`: the queue is a list, and its top, the greatest element, the head.
unfoldable pub push {ℓ} : {A : Type ℓ} → (A → A → Bool) → A → List A → List A
push less x [] = x ∷ []
push less x (y ∷ ys) = if less y x then x ∷ y ∷ ys else y ∷ push less x ys

-- `std::map<RunLoopHandler::Id, HandlerInfo>`, in the order of its keys.
abbrev pub IdToHandlerInfoMap : Type 0
IdToHandlerInfoMap = List (ℕ × HandlerInfo)

-- `RunLoop::RunState`, less the vector, which is written before it is read.
pub record RunState : Type 0 where
  pub should_quit : Bool
  pub results_size : ℕ

-- `RunLoop`; nested runs are not modelled.
pub record RunLoop : Type 0 where
  pub next_id : ℕ
  pub handlers : IdToHandlerInfoMap
  pub handler_deadlines : List HandlerDeadlineInfo
  pub delayed_tasks : List DelayedTaskInfo
  pub current_run_state : Option RunState

-- What a callback calls on the loop.
pub data Action : Type 0 where
  add_handler : ℕ → ℕ → ℕ → ℕ → Action
  remove_handler : ℕ → Action
  post_delayed_task : ℕ → Ticks → Action
  quit : Action

-- `MojoWaitSetResult`, less the signals.
pub record WaitSetResult : Type 0 where
  pub cookie : ℕ
  pub wait_result : MojoResult

-- What WaitSetWait returns: the results and `max_results`, or a result that is not MOJO_RESULT_OK.
pub data WaitReply : Type 0 where
  results : List WaitSetResult → ℕ → WaitReply
  failed : MojoResult → WaitReply

-- The clock, the wait set and the client. None of them is part of the run loop: they are a parameter,
-- with a state of their own. A callback tells what it calls on the loop, in order.
pub record Surroundings : Type 1 where
  pub State : Type 0
  pub get_time_ticks_now : State → ℕ × State
  pub wait_set_add : ℕ → ℕ → ℕ → State → MojoResult × State
  pub wait_set_remove : ℕ → State → MojoResult × State
  pub wait_set_wait : ℕ → ℕ → State → WaitReply × State
  pub run_task : ℕ → State → List Action × State
  pub on_handle_ready : ℕ → ℕ → State → List Action × State
  pub on_handle_error : ℕ → ℕ → MojoResult → State → List Action × State

-- `std::numeric_limits<MojoTimeTicks>::max()`, `kInvalidTimeTicks` and MOJO_DEADLINE_INDEFINITE.
abbrev pub max_ticks : ℕ
max_ticks = 0x7fffffffffffffff

-- `delay <= std::numeric_limits<MojoTimeTicks>::max() - now`.
abbrev pub is_in_range : ℕ → Ticks → Bool
is_in_range now (plus n) = leb n (max_ticks - now)
is_in_range now (minus n) = true

abbrev pub invalid_time_ticks : ℕ
invalid_time_ticks = 0

abbrev pub deadline_indefinite : ℕ
deadline_indefinite = 0xffffffffffffffff

-- `next_id_++`, of 64 bits.
unfoldable pub next_after : ℕ → ℕ
next_after id = (id + 1) % 0x10000000000000000

-- `if (current_run_state_) current_run_state_->should_quit = true;`
unfoldable pub set_should_quit : Option RunState → Option RunState
set_should_quit none = none
set_should_quit (some r) = some (record r { should_quit = true })

-- `RunLoop::Quit`.
unfoldable pub do_quit : RunLoop → RunLoop
unfolding set_should_quit
do_quit l = record l { current_run_state = set_should_quit l.current_run_state }

-- A new loop, once it has its wait set.
abbrev pub new_run_loop : RunLoop
new_run_loop = record {
  next_id = 1;
  handlers = [];
  handler_deadlines = [];
  delayed_tasks = [];
  current_run_state = none;
}

module _ (e : Surroundings) where
  open e use {State}

  -- The deadline of a new handler: where it is not forever, its time is queued.
  unfoldable pub schedule : ℕ → ℕ → ℕ → RunLoop → ℕ × RunLoop
  unfolding push deadline_less
  schedule id deadline now l =
      if leb deadline (max_ticks - now)
      then (
        now + deadline,
        record l {
          handler_deadlines =
              push deadline_less (record { id = id; absolute_deadline = now + deadline })
                l.handler_deadlines;
        },
      )
      else (invalid_time_ticks, l)

  -- The first half of `RunLoop::AddHandler`, up to the absolute deadline. The clock is read only if
  -- the deadline is one of `MojoTimeTicks`.
  unfoldable pub set_deadline : ℕ → ℕ → RunLoop → State → (ℕ × RunLoop) × State
  unfolding schedule
  set_deadline id deadline l s =
      if leb deadline max_ticks
      then (let (now, s') = e.get_time_ticks_now s in (schedule id deadline now l, s'))
      else ((invalid_time_ticks, l), s)

  -- `RunLoop::AddHandler`.
  unfoldable pub do_add_handler : ℕ → ℕ → ℕ → ℕ → RunLoop → State → Run (RunLoop × State)
  unfolding set_deadline insert next_after is_ok
  do_add_handler handler handle handle_signals deadline l s = assert (not (handler == 0)) (
      assert (not (handle == 0)) (
        let id = l.next_id in
        let ((absolute_deadline, l'), s') =
          set_deadline id deadline (record l { next_id = next_after id }) s in
        let info : HandlerInfo = record {
          handler = handler;
          handle_signals = handle_signals;
          absolute_deadline = absolute_deadline;
        } in
        let (result, s'') = e.wait_set_add handle handle_signals id s' in
        assert (is_ok result) (ok (record l' { handlers = insert id info l'.handlers }, s''))))

  -- `RunLoop::RemoveHandler`.
  unfoldable pub do_remove_handler : ℕ → RunLoop → State → Run (RunLoop × State)
  unfolding find erase is_ok
  do_remove_handler id l s = elim (find id l.handlers) [
    | none ↦ ok (l, s)
    | some _ ↦
        let (result, s') = e.wait_set_remove id s in
        assert (is_ok result) (ok (record l { handlers = erase id l.handlers }, s'))
  ]

  -- `RunLoop::PostDelayedTask`.
  unfoldable pub do_post_delayed_task : ℕ → Ticks → RunLoop → State → Run (RunLoop × State)
  unfolding push task_less next_after
  do_post_delayed_task task delay l s =
      let id = l.next_id in
      let (now, s') = e.get_time_ticks_now s in
      assert (is_in_range now delay) (
        ok (
          record l {
            next_id = next_after id;
            delayed_tasks =
                push task_less
                  (record { id = id; task = task; absolute_run_time = ticks_after now delay })
                  l.delayed_tasks;
          },
          s',
        ))

  unfoldable pub perform : Action → RunLoop → State → Run (RunLoop × State)
  unfolding do_add_handler do_remove_handler do_post_delayed_task do_quit
  perform (add_handler handler handle handle_signals deadline) l s =
      do_add_handler handler handle handle_signals deadline l s
  perform (remove_handler id) l s = do_remove_handler id l s
  perform (post_delayed_task task delay) l s = do_post_delayed_task task delay l s
  perform quit l s = ok (do_quit l, s)

  -- A callback.
  unfoldable pub perform_all : List Action → RunLoop → State → Run (RunLoop × State)
  perform_all [] l s = ok (l, s)
  perform_all (a ∷ actions) l s = do (l', s') ← perform a l s; perform_all actions l' s'
