-- ===== src/Watcher/Sessions.antt =====
-- The whole thread of the handle watcher of public/platform/dart/dart_handle_watcher.cc.
use mojo.Watcher.Invariant.{IsWatcher}
use mojo.Watcher.Removes.{Kept}
use mojo.Watcher.Keeps.{
  store_states-Kept, Keeps, Keeps-bind, process_control_message-Keeps, prune_closed_handles-Keeps,
}
use mojo.Watcher.Refines.{timers-IsWatcher}
use mojo.Watcher.Waits.{serve_ready-Served}
use mojo.Watcher.Loop.{
  store_states, is_deadline_exceeded, is_invalid_argument, serve_ready, check_control,
  process_timers, wait_deadline, process_wait_many_results, run_once, run, delete_state,
}
use mojo.System.{MojoResult}
use mojo.System.Calls.{is_ok}
use mojo.Prelude.{
  ℕ, zero, suc, ◌≡◌, refl, ap, ◌∙◌, some, [], ◌∷◌, ◌==◌, true, false, not, length, get_elem?, arith,
  if_split,
}
use mojo.Prelude.Maps.{find}
use mojo.Prelude.Run.{
  ok, Yields, Yields-bind, Yields-assert, Yields-if, Yields-map, Yields-access, Returns-Yields,
  Returns-map,
}
use mojo.Watcher.{HandleWatcherThreadState, Outside, signal_readable}

-- The tables with the control handle alone.
abbrev pub first_state : Outside → ℕ → HandleWatcherThreadState
first_state e handle = record {
  shutdown = false;
  control_pipe_consumer_handle = handle;
  wait_many_handles = handle ∷ [];
  wait_many_signals = signal_readable ∷ [];
  wait_many_signals_state = 0 ∷ [];
  handle_ports = e.illegal_port ∷ [];
  handle_to_index_map = (handle, 0) ∷ [];
  timers = [];
}

listed_first :
    (h handle i : ℕ) → get_elem? (handle ∷ []) i ≡ some h → find h ((handle, 0) ∷ []) ≡ some i
unfolding find
listed_first h handle zero f = ground arith
listed_first h handle (suc i) f = cc

module _ (e : Outside) where
  open e use {State}

  serve_ready-Keeps :
      (w : HandleWatcherThreadState) (s : State)
      → IsWatcher w
      → Yields (Keeps e w) (serve_ready e w s)
  serve_ready-Keeps w s g = Returns-Yields (Keeps e w) (serve_ready e w s) (
      Returns-map _ _ (serve_ready e w s) (serve_ready-Served e w s g)
        (λ r h. (h.0.keeps, h.0.same_control)))

  check_control-Keeps :
      (w : HandleWatcherThreadState) (s : State)
      → IsWatcher w
      → Yields (Keeps e w) (check_control e w s)
  unfolding check_control
  check_control-Keeps w s g = Yields-access _ (get_elem? w.wait_many_signals 0) _ (λ signals a.
      Yields-access _ (get_elem? w.wait_many_signals_state 0) _ (λ state b.
        Yields-if (Keeps e w) _ (ok (w, s)) _ (g, refl) (process_control_message-Keeps e w s g)))

  process_wait_many_results-Keeps :
      (result : MojoResult) (w : HandleWatcherThreadState) (s : State)
      → IsWatcher w
      → Yields (Keeps e w) (process_wait_many_results e result w s)
  unfolding process_wait_many_results
  process_wait_many_results-Keeps result w s g =
      Yields-assert _ (not (is_deadline_exceeded result)) _ (
        Yields-if (Keeps e w) (not (is_ok result)) _ _
          (prune_closed_handles-Keeps e (not (is_invalid_argument result)) w s g)
          (Keeps-bind e w (serve_ready e w s) _ (serve_ready-Keeps w s g)
            (λ w' s' g'. check_control-Keeps w' s' g')))

  run_once-Keeps :
      (w : HandleWatcherThreadState) (s : State) → IsWatcher w → Yields (Keeps e w) (run_once e w s)
  unfolding run_once process_timers
  run_once-Keeps w s g =
      let (w₁, s₁) = process_timers e w s in
      let g₁ = timers-IsWatcher w₁.timers w.shutdown w g in
      let (deadline, s₂) = wait_deadline e w₁.timers s₁ in
      let (reply, s₃) = e.mojo_wait_many w₁.wait_many_handles w₁.wait_many_signals deadline s₂ in
      let k = store_states-Kept reply.satisfied w₁ g₁ in
      Yields-assert _ (length w₁.wait_many_signals == length w₁.wait_many_handles) _ (
        Yields-if (Keeps e w) (is_deadline_exceeded reply.result) _ _ k (
          Yields-map (Keeps e (store_states reply.satisfied w₁)) (Keeps e w) _
            (process_wait_many_results-Keeps reply.result (store_states reply.satisfied w₁) s₃ k.0)
            (λ q c. (c.0, c.1 ∙ k.1))))

  -- The end of Run: the tables are in order, the watcher is shut down, and the control handle is
  -- closed last.
  abbrev pub Ended : HandleWatcherThreadState → HandleWatcherThreadState × State → Type 0
  Ended w (w', s') =
      Kept w w'
      × (w'.shutdown ≡ true)
      × ((s₀ : State) × (s' ≡ e.mojo_close w.control_pipe_consumer_handle s₀))

  -- Whatever the system and the commands do, Run ends, if it does, with its tables in order, shut
  -- down, and with the control handle, which is still the same, closed last.
  pub run-Ended :
      (rounds : ℕ) (w : HandleWatcherThreadState) (s : State)
      → IsWatcher w
      → Yields (Ended w) (run e rounds w s)
  unfolding run
  run-Ended zero w s g =
      if_split (Yields (Ended w)) w.shutdown _ _ (λ h. ((g, refl), h, (s, refl))) (λ h. tt)
  run-Ended (suc n) w s g =
      if_split (Yields (Ended w)) w.shutdown _ _ (λ h. ((g, refl), h, (s, refl)))
        (λ h.
          Yields-bind (Keeps e w) (Ended w) (run_once e w s) _ (run_once-Keeps w s g) (λ (w', s') k.
            Yields-map (Ended w') (Ended w) (run e n w' s') (run-Ended n w' s' k.0) (λ q c.
              ((c.0.0, c.0.1 ∙ k.1), c.1, (c.2.0, c.2.1 ∙ ap (λ h'. e.mojo_close h' c.2.0) k.1)))))

  pub first_tables : (handle : ℕ) → IsWatcher (first_state e handle)
  unfolding find
  first_tables handle = record {
    signals_length = refl;
    states_length = refl;
    ports_length = refl;
    map_length = refl;
    ascends = (tt, tt);
    found = λ h i f. ground arith;
    listed = λ h i f. listed_first h handle i f;
    control = refl;
  }

  pub delete_state_lem :
      (handle : ℕ) (w : HandleWatcherThreadState) (s s₀ : State)
      → w.control_pipe_consumer_handle ≡ handle
      → (handle == 0) ≡ false
      → s ≡ e.mojo_close handle s₀
      → delete_state e w s ≡ e.mojo_close handle (e.mojo_close handle s₀)
  unfolding delete_state
  delete_state_lem handle w s s₀ h n c = ground arith
