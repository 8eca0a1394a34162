-- ===== src/Watcher/Stops.antt =====
-- The end of the handle watcher of public/platform/dart/dart_handle_watcher.cc, once it is told to shut down.
use Prim.Native.Nat.{bit_and}
use mojo.Watcher.Invariant.{IsWatcher, bound}
use mojo.Watcher.Adds.{Changed}
use mojo.Watcher.Refines.{timers-IsWatcher}
use mojo.Watcher.Waits.{serve_ready-Served, ready}
use mojo.Watcher.Keeps.{store_states-Kept}
use mojo.Watcher.Sessions.{first_state, first_tables, delete_state_lem}
use mojo.Watcher.Commands.{
  command_shutdown_handle_watcher, command_of, do_shutdown, perform, perform_command,
  process_control_message,
}
use mojo.Watcher.Loop.{
  fill, store_states, is_deadline_exceeded, serve_ready, check_control, process_timers,
  wait_deadline, process_wait_many_results, run_once, run, new_state, thread_main,
}
use mojo.System.{MojoResult}
use mojo.System.Calls.{is_ok}
use mojo.Prelude.{
  ℕ, zero, suc, ◌<◌, ◌≡◌, refl, ap, ◌∙◌, sym, none, some, List, [], ◌∷◌, ◌==◌, true, false, not,
  length, get_elem?, get_elem?-bound, get_elem?-some, arith, if◌then◌else◌, test_same,
}
use mathlib.Core.Path.{transport}
use mojo.Prelude.Maps.{find, assign}
use mojo.Prelude.Run.{
  ok, assert, Returns, Returns-bind, Returns-assert, Returns-access, Returns-map, Returns-test,
  Returns-some,
}
use mojo.Watcher.{HandleWatcherThreadState, WaitManyReply, Outside, signal_readable, add_handle}

-- A world in which the control handle is readable whenever the watcher waits, and what is read from
-- it is the command to shut down.
pub record IsStopping (e : Outside) (control : ℕ) : Type 0 where
  pub satisfied : e.State → ℕ → ℕ
  pub waits :
      (handles signals : List ℕ) (deadline : ℕ) (s : e.State)
      → (e.mojo_wait_many handles signals deadline s).0
        ≡ record { result = MojoResult.ok; satisfied = some (satisfied s) }
  pub readable : (s : e.State) → bit_and (satisfied s 0) signal_readable ≡ signal_readable
  pub reads : (s : e.State) → (e.mojo_read_message control s).0.result ≡ MojoResult.ok
  pub whole : (s : e.State) → (e.mojo_read_message control s).0.num_bytes ≡ 24
  pub no_handles : (s : e.State) → (e.mojo_read_message control s).0.num_handles ≡ 0
  pub command :
      (s : e.State)
      → command_of (e.mojo_read_message control s).0.command ≡ some command_shutdown_handle_watcher

-- The control handle is waited for.
abbrev pub WaitsForControl : HandleWatcherThreadState → Type 0
WaitsForControl w = get_elem? w.wait_many_signals 0 ≡ some signal_readable

fill-first : (f : ℕ → ℕ) (xs : List ℕ) → 0 < length xs → get_elem? (fill f xs) 0 ≡ some (f 0)
unfolding fill
fill-first f [] l = ground arith
fill-first f (x ∷ xs) l = refl

is_ok_lem : (r : MojoResult) → r ≡ MojoResult.ok → is_ok r ≡ true
unfolding is_ok
is_ok_lem r h = ap is_ok h

module _ (e : Outside) where
  open e use {State}

  -- The watcher is shut down, with the same control handle.
  abbrev pub Stopped : HandleWatcherThreadState → HandleWatcherThreadState × State → Type 0
  Stopped w (w', s') =
      (w'.shutdown ≡ true) × (w'.control_pipe_consumer_handle ≡ w.control_pipe_consumer_handle)

  process_control_message-Stopped :
      (w : HandleWatcherThreadState) (s : State)
      → IsStopping e w.control_pipe_consumer_handle
      → Returns (Stopped w) (process_control_message e w s)
  unfolding process_control_message perform_command perform do_shutdown
  process_control_message-Stopped w s h =
      let r = e.mojo_read_message w.control_pipe_consumer_handle s in
      Returns-assert _ (is_ok r.0.result) _ (is_ok_lem r.0.result (h.reads s)) (
        Returns-assert _ (r.0.num_bytes == 24) _ (test_same r.0.num_bytes 24 (h.whole s)) (
          Returns-assert _ (r.0.num_handles == 0) _ (test_same r.0.num_handles 0 (h.no_handles s)) (
            Returns-some (Stopped w) (command_of r.0.command) _ _ command_shutdown_handle_watcher
              (h.command s) (refl, refl))))

  check_control-Stopped :
      (w : HandleWatcherThreadState) (s : State) (state : ℕ)
      → IsStopping e w.control_pipe_consumer_handle
      → WaitsForControl w
      → get_elem? w.wait_many_signals_state 0 ≡ some state
      → bit_and state signal_readable ≡ signal_readable
      → Returns (Stopped w) (check_control e w s)
  unfolding check_control
  check_control-Stopped w s state h c x b =
      Returns-access _ (get_elem? w.wait_many_signals 0) signal_readable _ c (
        Returns-access _ (get_elem? w.wait_many_signals_state 0) state _ x (
          Returns-test (Stopped w) (bit_and state signal_readable == 0) _ _
            (λ z. absurd (ground arith)) (λ z. process_control_message-Stopped w s h)))

  -- The control handle is never among those that are served.
  control_kept :
      (w w' : HandleWatcherThreadState)
      → IsWatcher w
      → WaitsForControl w
      → Changed w (λ k. if ready w k then none else bound w k) w'
      → WaitsForControl w'
  control_kept w w' g c h =
      let f = g.listed w.control_pipe_consumer_handle 0 g.control in
      let f' = h.keeps.listed w'.control_pipe_consumer_handle 0 h.keeps.control in
      let b = h.binds w.control_pipe_consumer_handle in
      let l = get_elem?-bound w.wait_many_handles 0 w.control_pipe_consumer_handle g.control in
      let l' =
        get_elem?-bound w'.wait_many_handles 0 w'.control_pipe_consumer_handle h.keeps.control in
      let (p, y) = get_elem?-some w.handle_ports 0 (omega (arith, g.ports_length)) in
      let (p', y') = get_elem?-some w'.handle_ports 0 (omega (arith, h.keeps.ports_length)) in
      let (x', z') =
        get_elem?-some w'.wait_many_signals 0 (omega (arith, h.keeps.signals_length)) in
      let q = h.same_control in ground arith

  serve_then_check :
      (w : HandleWatcherThreadState) (s : State) (state : ℕ)
      → IsWatcher w
      → IsStopping e w.control_pipe_consumer_handle
      → WaitsForControl w
      → get_elem? w.wait_many_signals_state 0 ≡ some state
      → bit_and state signal_readable ≡ signal_readable
      → Returns (Stopped w) (process_wait_many_results e MojoResult.ok w s)
  unfolding process_wait_many_results is_ok is_deadline_exceeded
  serve_then_check w s state g h c x b =
      Returns-bind _ _ (serve_ready e w s) _ (serve_ready-Served e w s g) (λ (w', s') (d, t).
        Returns-map _ _ (check_control e w' s')
          (check_control-Stopped w' s' state
            (transport (λ i. IsStopping e (sym d.same_control i)) h) (control_kept w w' g c d)
            (d.same_state ∙ x) b)
          (λ q r. (r.0, r.1 ∙ d.same_control)))

  after_wait :
      (w : HandleWatcherThreadState) (s : State) (f : ℕ → ℕ) (reply : WaitManyReply)
      → IsWatcher w
      → IsStopping e w.control_pipe_consumer_handle
      → WaitsForControl w
      → reply ≡ record { result = MojoResult.ok; satisfied = some f }
      → bit_and (f 0) signal_readable ≡ signal_readable
      → Returns (Stopped w) (
          if is_deadline_exceeded reply.result
          then ok (store_states reply.satisfied w, s)
          else process_wait_many_results e reply.result (store_states reply.satisfied w) s)
  unfolding is_deadline_exceeded store_states
  after_wait w s f reply g h c r b =
      let l = get_elem?-bound w.wait_many_handles 0 w.control_pipe_consumer_handle g.control in
      transport
        (λ i.
          let reply' = sym r i in
          Returns (Stopped w) (
            if is_deadline_exceeded reply'.result
            then ok (store_states reply'.satisfied w, s)
            else process_wait_many_results e reply'.result (store_states reply'.satisfied w) s))
        (serve_then_check (store_states (some f) w) s (f 0) (store_states-Kept (some f) w g).0 h c
          (fill-first f w.wait_many_signals_state (omega (arith, g.states_length))) b)

  run_once-Stopped :
      (w : HandleWatcherThreadState) (s : State)
      → IsWatcher w
      → IsStopping e w.control_pipe_consumer_handle
      → WaitsForControl w
      → Returns (Stopped w) (run_once e w s)
  unfolding run_once process_timers
  run_once-Stopped w s g h c =
      let (w₁, s₁) = process_timers e w s in
      let g₁ = timers-IsWatcher w₁.timers w.shutdown w g in
      let (deadline, s₂) = wait_deadline e w₁.timers s₁ in
      let (reply, s₃) = e.mojo_wait_many w₁.wait_many_handles w₁.wait_many_signals deadline s₂ in
      Returns-assert _ (length w₁.wait_many_signals == length w₁.wait_many_handles) _
        (test_same _ _ g.signals_length)
        (after_wait w₁ s₃ (h.satisfied s₂) reply g₁ h c
          (h.waits w₁.wait_many_handles w₁.wait_many_signals deadline s₂) (h.readable s₂))

  -- The control handle was closed last.
  abbrev ClosedLast : HandleWatcherThreadState → HandleWatcherThreadState × State → Type 0
  ClosedLast w (w', s') =
      (w'.control_pipe_consumer_handle ≡ w.control_pipe_consumer_handle)
      × ((s₀ : State) × (s' ≡ e.mojo_close w.control_pipe_consumer_handle s₀))

  shut_run :
      (rounds : ℕ) (w : HandleWatcherThreadState) (s : State)
      → w.shutdown ≡ true
      → Returns (ClosedLast w) (run e rounds w s)
  unfolding run
  shut_run zero w s h =
      Returns-test (ClosedLast w) w.shutdown _ _ (λ y. (refl, (s, refl))) (λ n. cc)
  shut_run (suc rounds) w s h =
      Returns-test (ClosedLast w) w.shutdown _ _ (λ y. (refl, (s, refl))) (λ n. cc)

  run-ClosedLast :
      (rounds : ℕ) (w : HandleWatcherThreadState) (s : State)
      → IsWatcher w
      → IsStopping e w.control_pipe_consumer_handle
      → WaitsForControl w
      → Returns (ClosedLast w) (run e (suc rounds) w s)
  unfolding run
  run-ClosedLast rounds w s g h c =
      Returns-test (ClosedLast w) w.shutdown _ _ (λ y. (refl, (s, refl)))
        (λ n.
          Returns-bind (Stopped w) _ (run_once e w s) _ (run_once-Stopped w s g h c) (λ (w', s') t.
            Returns-map _ _ (run e rounds w' s') (shut_run rounds w' s' t.0)
              (λ q r. (r.0 ∙ t.1, (r.1.0, r.1.1 ∙ ap (λ h'. e.mojo_close h' r.1.0) t.1)))))

  new_state_lem :
      (handle : ℕ) (s : State)
      → (handle == 0) ≡ false
      → new_state e handle s ≡ ok (first_state e handle, s)
  unfolding new_state add_handle find assign
  new_state_lem handle s n = ap (λ b. assert (not b) (ok (first_state e handle, s))) n

  -- With a control handle that is not 0, in a world where the watcher is told to shut down, one round
  -- is enough for ThreadMain to return, and it has closed the control handle twice: Run closes it at
  -- its end, and the destructor of the state closes it again.
  pub thread_main-closes_twice :
      (rounds handle : ℕ) (s : State)
      → (handle == 0) ≡ false
      → IsStopping e handle
      → Returns
          (λ s'. (s₀ : State) × (s' ≡ e.mojo_close handle (e.mojo_close handle s₀)))
          (thread_main e (suc rounds) handle s)
  unfolding thread_main
  thread_main-closes_twice rounds handle s n h = rw (new_state_lem handle s n) (
      Returns-bind (ClosedLast (first_state e handle)) _
        (run e (suc rounds) (first_state e handle) s) _
        (run-ClosedLast rounds (first_state e handle) s (first_tables e handle) h refl)
        (λ (w', s₂) c. (c.1.0, delete_state_lem e handle w' s₂ c.1.0 c.0 n c.1.1)))
