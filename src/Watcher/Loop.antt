-- ===== src/Watcher/Loop.antt =====
-- The thread of a handle watcher: its timers, its waits and its end, in
-- public/platform/dart/dart_handle_watcher.cc.
use Prim.Native.Nat.{bit_and}
use mojo.Prelude.{
  ℕ, zero, suc, ◌+◌, ◌-◌, ◌*◌, ◌/◌, ◌%◌, Bool, true, false, not, ◌&&◌, Option, none, some, List, [],
  ◌∷◌, leb, ◌==◌, if◌then◌else◌, length, get_elem?,
}
use mojo.Prelude.Run.{Run, ok, fault, out_of_fuel, ◌>>=◌, access, assert}
use mojo.System.{MojoResult, deadline_exceeded, invalid_argument}
use mojo.System.Calls.{is_ok}
use mojo.Watcher.{
  HandleWatcherTimer, HandleWatcherThreadState, Outside, signal_readable, signal_peer_closed,
  signal_all, post_null, post_signal, add_handle, close_handle, remove_handle_at_index,
}
use mojo.Watcher.Commands.{process_control_message}

-- 2^64, and MOJO_DEADLINE_INDEFINITE.
abbrev pub two_64 : ℕ
two_64 = 0x10000000000000000

abbrev pub deadline_indefinite : ℕ
deadline_indefinite = 0xffffffffffffffff

unfoldable pub is_deadline_exceeded : MojoResult → Bool
is_deadline_exceeded deadline_exceeded = true
is_deadline_exceeded _ = false

unfoldable pub is_invalid_argument : MojoResult → Bool
is_invalid_argument invalid_argument = true
is_invalid_argument _ = false

-- `RemoveHandleAtIndex` of each index.
unfoldable pub remove_all : List ℕ → HandleWatcherThreadState → Run HandleWatcherThreadState
unfolding remove_handle_at_index
remove_all [] w = ok w
remove_all (i ∷ is) w = do w' ← remove_handle_at_index i w; remove_all is w'

-- What MojoWaitMany stores in the signals states.
unfoldable pub fill : (ℕ → ℕ) → List ℕ → List ℕ
fill f [] = []
fill f (x ∷ xs) = f 0 ∷ fill (λ i. f (suc i)) xs

unfoldable pub store_states : Option (ℕ → ℕ) → HandleWatcherThreadState → HandleWatcherThreadState
unfolding fill
store_states none w = w
store_states (some f) w = record w { wait_many_signals_state = fill f w.wait_many_signals_state }

-- The handles whose signals states say that their peers are closed.
unfoldable pub closed_by_state : List ℕ → List ℕ → Run (List ℕ)
closed_by_state [] states = ok []
closed_by_state (h ∷ hs) [] = fault
closed_by_state (h ∷ hs) (x ∷ xs) = do
  closed ← closed_by_state hs xs
  ok (if bit_and x signal_peer_closed == 0 then closed else h ∷ closed)

module _ (e : Outside) where
  open e use {State}

  -- `GetDartTimeInMillis`.
  unfoldable pub get_dart_time_in_millis : State → ℕ × State
  get_dart_time_in_millis s = let (ticks, s') = e.mojo_get_time_ticks_now s in (ticks / 1000, s')

  -- The loop of ProcessTimers, with what it has read from the clock.
  unfoldable pub complete_timers :
      ℕ → List HandleWatcherTimer → State → List HandleWatcherTimer × State
  unfolding post_null get_dart_time_in_millis
  complete_timers now [] s = ([], s)
  complete_timers now (t ∷ ts) s =
      let (now', s') = get_dart_time_in_millis (post_null e t.port s) in
      let rest = complete_timers now' ts s' in if leb t.deadline now then rest else (t ∷ ts, s)

  -- `HandleWatcherThreadState::ProcessTimers`.
  unfoldable pub process_timers :
      HandleWatcherThreadState → State → HandleWatcherThreadState × State
  unfolding complete_timers get_dart_time_in_millis
  process_timers w s =
      let (now, s₁) = get_dart_time_in_millis s in
      let (timers, s₂) = complete_timers now w.timers s₁ in (record w { timers = timers }, s₂)

  -- The deadline of the wait: an `int64_t` product that is converted to a MojoDeadline, both of 64
  -- bits, with the clock read once more.
  unfoldable pub wait_deadline : List HandleWatcherTimer → State → ℕ × State
  unfolding get_dart_time_in_millis
  wait_deadline [] s = (deadline_indefinite, s)
  wait_deadline (t ∷ ts) s =
      let (now, s') = get_dart_time_in_millis s in ((t.deadline + two_64 - now) * 1000 % two_64, s')

  -- `ShouldCloseHandle`.
  unfoldable pub should_close_handle : ℕ → State → Bool × State
  unfolding is_ok is_deadline_exceeded
  should_close_handle handle s =
      if handle == 0
      then (false, s)
      else let (result, s') = e.mojo_wait handle signal_all 0 s in
        (not (is_ok result) && not (is_deadline_exceeded result), s')

  -- The handles that a wait on each of them finds closed.
  unfoldable pub closed_by_wait : List ℕ → State → List ℕ × State
  unfolding should_close_handle
  closed_by_wait [] s = ([], s)
  closed_by_wait (h ∷ hs) s =
      let (closes, s₁) = should_close_handle h s in
      let (closed, s₂) = closed_by_wait hs s₁ in (if closes then h ∷ closed else closed, s₂)

  unfoldable pub closed_handles : Bool → HandleWatcherThreadState → State → Run (List ℕ × State)
  unfolding closed_by_state closed_by_wait
  closed_handles true w s = do
    closed ← closed_by_state w.wait_many_handles w.wait_many_signals_state
    ok (closed, s)
  closed_handles false w s = ok (closed_by_wait w.wait_many_handles s)

  unfoldable pub close_all :
      List ℕ → HandleWatcherThreadState → State → Run (HandleWatcherThreadState × State)
  unfolding close_handle
  close_all [] w s = ok (w, s)
  close_all (h ∷ hs) w s = do
    (w', s') ← close_handle e h e.illegal_port true w s
    close_all hs w' s'

  -- `HandleWatcherThreadState::PruneClosedHandles`.
  unfoldable pub prune_closed_handles :
      Bool → HandleWatcherThreadState → State → Run (HandleWatcherThreadState × State)
  unfolding closed_handles close_all
  prune_closed_handles signals_state_is_valid w s = do
    (closed, s') ← closed_handles signals_state_is_valid w s
    close_all closed w s'

  -- The port of a handle to which something happened is notified.
  unfoldable pub notify_at : ℕ → HandleWatcherThreadState → State → Run (Bool × State)
  unfolding post_signal
  notify_at i w s = do
    signals ← access (get_elem? w.wait_many_signals i)
    state ← access (get_elem? w.wait_many_signals_state i)
    if bit_and state signals == 0 then ok (false, s) else (do
      port ← access (get_elem? w.handle_ports i)
      ok (true, post_signal e port (bit_and state signals) s))

  -- The loop of ProcessWaitManyResults over the indexes below a number, from above, but for that of
  -- the control handle; the indexes of the handles to remove.
  unfoldable pub notify_ready : ℕ → HandleWatcherThreadState → State → Run (List ℕ × State)
  unfolding notify_at
  notify_ready zero w s = ok ([], s)
  notify_ready (suc zero) w s = ok ([], s)
  notify_ready (suc (suc i)) w s = do
    (ready, s₁) ← notify_at (suc i) w s
    (to_remove, s₂) ← notify_ready (suc i) w s₁
    ok (if ready then suc i ∷ to_remove else to_remove, s₂)

  -- The handles that are ready: their ports are notified, and then they are removed.
  unfoldable pub serve_ready :
      HandleWatcherThreadState → State → Run (HandleWatcherThreadState × State)
  unfolding notify_ready remove_all
  serve_ready w s = do
    (to_remove, s') ← notify_ready (length w.wait_many_handles) w s
    w' ← remove_all to_remove w
    ok (w', s')

  -- The check for a control message at the end of ProcessWaitManyResults.
  unfoldable pub check_control :
      HandleWatcherThreadState → State → Run (HandleWatcherThreadState × State)
  unfolding process_control_message
  check_control w s = do
    signals ← access (get_elem? w.wait_many_signals 0)
    state ← access (get_elem? w.wait_many_signals_state 0)
    if bit_and state signals == 0 then ok (w, s) else process_control_message e w s

  -- `HandleWatcherThreadState::ProcessWaitManyResults`, which does not read the index.
  unfoldable pub process_wait_many_results :
      MojoResult → HandleWatcherThreadState → State → Run (HandleWatcherThreadState × State)
  unfolding prune_closed_handles is_ok is_deadline_exceeded is_invalid_argument serve_ready
      check_control
  process_wait_many_results result w s = assert (not (is_deadline_exceeded result)) (
      if not (is_ok result)
      then prune_closed_handles (not (is_invalid_argument result)) w s
      else (do (w', s') ← serve_ready w s; check_control w' s'))

  -- The body of the loop of `HandleWatcherThreadState::Run`.
  unfoldable pub run_once :
      HandleWatcherThreadState → State → Run (HandleWatcherThreadState × State)
  unfolding process_timers wait_deadline store_states is_deadline_exceeded process_wait_many_results
  run_once w s =
      let (w₁, s₁) = process_timers w s in
      assert (length w₁.wait_many_signals == length w₁.wait_many_handles) (
        let (deadline, s₂) = wait_deadline w₁.timers s₁ in
        let (reply, s₃) = e.mojo_wait_many w₁.wait_many_handles w₁.wait_many_signals deadline s₂ in
        let w₂ = store_states reply.satisfied w₁ in
        if is_deadline_exceeded reply.result
        then ok (w₂, s₃)
        else process_wait_many_results reply.result w₂ s₃)

  -- `HandleWatcherThreadState::Run`, for a number of rounds.
  unfoldable pub run : ℕ → HandleWatcherThreadState → State → Run (HandleWatcherThreadState × State)
  unfolding run_once
  run zero w s =
      if w.shutdown then ok (w, e.mojo_close w.control_pipe_consumer_handle s) else out_of_fuel
  run (suc rounds) w s =
      if w.shutdown
      then ok (w, e.mojo_close w.control_pipe_consumer_handle s)
      else (do (w', s') ← run_once w s; run rounds w' s')

  -- `HandleWatcherThreadState::HandleWatcherThreadState`.
  unfoldable pub new_state : ℕ → State → Run (HandleWatcherThreadState × State)
  unfolding add_handle
  new_state handle s = assert (not (handle == 0)) (
      add_handle e handle signal_readable e.illegal_port
        (record {
          shutdown = false;
          control_pipe_consumer_handle = handle;
          wait_many_handles = [];
          wait_many_signals = [];
          wait_many_signals_state = [];
          handle_ports = [];
          handle_to_index_map = [];
          timers = [];
        })
        s)

  -- `HandleWatcherThreadState::~HandleWatcherThreadState`.
  unfoldable pub delete_state : HandleWatcherThreadState → State → State
  delete_state w s =
      if w.control_pipe_consumer_handle == 0
      then s
      else e.mojo_close w.control_pipe_consumer_handle s

  -- `HandleWatcher::ThreadMain`.
  unfoldable pub thread_main : ℕ → ℕ → State → Run State
  unfolding new_state run delete_state
  thread_main rounds handle s = do
    (w, s₁) ← new_state handle s
    (w', s₂) ← run rounds w s₁
    ok (delete_state w' s₂)
