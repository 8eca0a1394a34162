-- ===== src/Watcher/Closes.antt =====
-- RemoveHandle and CloseHandle of public/platform/dart/dart_handle_watcher.cc as changes of a map from
-- handles to signals and ports.
use mojo.Watcher.Invariant.{IsWatcher, bound_at, bound}
use mojo.Watcher.Removes.{Removed, remove_handle_at_index-Removed}
use mojo.Watcher.Adds.{Changed, bound-found}
use mojo.Prelude.{
  ℕ, zero, suc, ◌<◌, ◌≡◌, ◌≢◌, refl, ap, sym, Option, none, some, ◌==◌, if◌then◌else◌, Bool, true,
  false, not, ◌||◌, get_elem?, get_elem?-some, get_elem?-bound, arith,
}
use mojo.Prelude.Maps.{find}
use mojo.Prelude.Run.{
  ok, Returns, Returns-access, Returns-map, Returns-bind, Returns-assert, Returns-option,
}
use mojo.Watcher.{
  HandleWatcherThreadState, Outside, signal_peer_closed, post_null, post_signal, post_pruned,
  remove_handle, remove_handle_at_index, close_handle,
}

-- A handle is taken out of a map.
abbrev pub unbind : ℕ → (ℕ → Option (ℕ × ℕ)) → ℕ → Option (ℕ × ℕ)
unbind handle b k = if k == handle then none else b k

index-positive :
    (w : HandleWatcherThreadState) (handle index : ℕ)
    → IsWatcher w
    → handle ≢ w.control_pipe_consumer_handle
    → find handle w.handle_to_index_map ≡ some index
    → 0 < index
index-positive w handle zero g n f = let h = g.found handle 0 f in let c = g.control in ground arith
index-positive w handle (suc index) g n f = omega arith

Removed-Changed :
    (w w' : HandleWatcherThreadState) (handle index : ℕ)
    → 0 < index
    → Removed w index handle w'
    → Changed w (unbind handle (bound w)) w'
Removed-Changed w w' handle index p r = record {
  same_state = r.states_below 0 p;
  keeps = r.keeps;
  binds = r.unbound;
  same_control = r.same_control;
  same_timers = r.same_timers;
  same_shutdown = r.same_shutdown;
}

absent-Changed :
    (w : HandleWatcherThreadState) (handle : ℕ)
    → IsWatcher w
    → find handle w.handle_to_index_map ≡ none
    → Changed w (unbind handle (bound w)) w
absent-Changed w handle g f = record {
  keeps = g;
  binds = λ k. ground arith;
  same_state = refl;
  same_control = refl;
  same_timers = refl;
  same_shutdown = refl;
}

pub remove_handle-Changed :
    (handle : ℕ) (w : HandleWatcherThreadState)
    → IsWatcher w
    → handle ≢ w.control_pipe_consumer_handle
    → Returns (Changed w (unbind handle (bound w))) (remove_handle handle w)
unfolding remove_handle
remove_handle-Changed handle w g n =
    Returns-option (Changed w (unbind handle (bound w))) (find handle w.handle_to_index_map) (ok w)
      _ (λ f. absent-Changed w handle g f)
      (λ index f.
        let z = index-positive w handle index g n f in
        Returns-assert _ (not (index == 0)) _ (ground arith) (
          Returns-map (Removed w index handle) (Changed w (unbind handle (bound w)))
            (remove_handle_at_index index w)
            (remove_handle_at_index-Removed w index handle g z (g.found handle index f))
            (λ w' r. Removed-Changed w w' handle index z r)))

module _ (e : Outside) where
  open e use {State}

  -- The port of a handle that is pruned is told that the peer is closed.
  abbrev pub pruned_port : Bool → Option (ℕ × ℕ) → State → State
  pruned_port false o s = s
  pruned_port true none s = s
  pruned_port true (some (bound_signals, bound_port)) s =
      post_signal e bound_port signal_peer_closed s

  post_pruned_lem :
      (pruning : Bool) (index handle old port : ℕ) (w : HandleWatcherThreadState) (s : State)
      → get_elem? w.handle_ports index ≡ some port
      → bound w handle ≡ some (old, port)
      → Returns
          (λ s'. s' ≡ pruned_port pruning (bound w handle) s)
          (post_pruned e pruning index w s)
  unfolding post_pruned
  post_pruned_lem false index handle old port w s y b = refl
  post_pruned_lem true index handle old port w s y b =
      Returns-access _ (get_elem? w.handle_ports index) port _ y
        (ap (λ o. pruned_port true o s) (sym b))

  pruned-absent :
      (pruning : Bool) (o : Option (ℕ × ℕ)) (s : State) → o ≡ none → s ≡ pruned_port pruning o s
  pruned-absent false o s h = refl
  pruned-absent true o s h = ap (λ o'. pruned_port true o' s) (sym h)

  abbrev pub Closed :
      ℕ → ℕ → Bool → HandleWatcherThreadState → State → HandleWatcherThreadState × State → Type 0
  Closed handle port pruning w s (w', s') =
      Changed w (unbind handle (bound w)) w'
      × (s' ≡ pruned_port pruning (bound w handle) (post_null e port (e.mojo_close handle s)))

  pub close_handle-Closed :
      (handle port : ℕ) (pruning : Bool) (w : HandleWatcherThreadState) (s : State)
      → IsWatcher w
      → handle ≢ w.control_pipe_consumer_handle
      → (not pruning || port == e.illegal_port) ≡ true
      → Returns (Closed handle port pruning w s) (close_handle e handle port pruning w s)
  unfolding close_handle post_pruned
  close_handle-Closed handle port pruning w s g n p =
      Returns-assert _ (not pruning || port == e.illegal_port) _ p (
        Returns-option (Closed handle port pruning w s) (find handle w.handle_to_index_map) _ _
          (λ f. (
            absent-Changed w handle g f,
            pruned-absent pruning (bound w handle) _ (ap (bound_at w) f),
          ))
          (λ index f.
            let z = index-positive w handle index g n f in
            let x = g.found handle index f in
            let l = get_elem?-bound w.wait_many_handles index handle x in
            Returns-assert _ (not (index == 0)) _ (ground arith) (
              let (old, a) =
                get_elem?-some w.wait_many_signals index (omega (arith, g.signals_length)) in
              let (q, y) = get_elem?-some w.handle_ports index (omega (arith, g.ports_length)) in
              let b = bound-found handle index old q w f a y in
              Returns-bind _ _ (post_pruned e pruning index w _) _
                (post_pruned_lem pruning index handle old q w _ y b)
                (λ s₂ h.
                  Returns-bind _ _ (remove_handle handle w) _ (remove_handle-Changed handle w g n)
                    (λ w' c. (c, h))))))
