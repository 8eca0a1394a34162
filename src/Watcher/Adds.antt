-- ===== src/Watcher/Adds.antt =====
-- AddHandle of public/platform/dart/dart_handle_watcher.cc keeps the tables in order.
use Prim.Native.Nat.{bit_or}
use mojo.Watcher.Invariant.{IsWatcher, bound_at, bound}
use mojo.Watcher.Tables.{
  with_handle, with_signals, with_handle-IsWatcher, with_signals-IsWatcher, bound-with_handle,
  bound-with_signals,
}
use mojo.Prelude.{
  ℕ, ◌≡◌, refl, ap, sym, Option, none, some, ◌==◌, if◌then◌else◌, false, not, get_elem?,
  get_elem?-some, get_elem?-bound, get_elem?-append, arith, test_same,
}
use mojo.Prelude.Maps.{find}
use mojo.Prelude.Run.{Returns, Returns-test, Returns-access, Returns-assert, Returns-option}
use mojo.Watcher.{
  HandleWatcherThreadState, Outside, signal_peer_closed, post_signal, bind_again, add_handle,
}

-- A change of the tables, which `f` says, and of nothing else.
pub record Changed (w : HandleWatcherThreadState) (f : ℕ → Option (ℕ × ℕ))
    (w' : HandleWatcherThreadState) : Type 0 where
  pub keeps : IsWatcher w'
  pub binds : (k : ℕ) → bound w' k ≡ f k
  pub same_control : w'.control_pipe_consumer_handle ≡ w.control_pipe_consumer_handle
  pub same_state : get_elem? w'.wait_many_signals_state 0 ≡ get_elem? w.wait_many_signals_state 0
  pub same_timers : w'.timers ≡ w.timers
  pub same_shutdown : w'.shutdown ≡ w.shutdown

-- What is bound to a handle after signals are added for a port: only the port that is bound to it
-- may add some.
abbrev pub bind_one : ℕ → ℕ → Option (ℕ × ℕ) → Option (ℕ × ℕ)
bind_one signals port none = some (signals, port)
bind_one signals port (some (bound_signals, bound_port)) =
    if bound_port == port
    then some (bit_or bound_signals signals, bound_port)
    else some (bound_signals, bound_port)

-- A handle that is not in the map is bound.
new-Changed :
    (handle signals port : ℕ) (w : HandleWatcherThreadState)
    → IsWatcher w
    → find handle w.handle_to_index_map ≡ none
    → Changed w
        (λ k. if k == handle then bind_one signals port (bound w k) else bound w k)
        (with_handle handle signals port w)
new-Changed handle signals port w g f = record {
  keeps = with_handle-IsWatcher handle signals port w g f;
  binds = λ k. let b = bound-with_handle handle signals port w k g f in ground arith;
  same_state =
      let a = get_elem?-append w.wait_many_signals_state 0 0 in
      let c = g.control in
      let l = g.states_length in
      let p = get_elem?-bound w.wait_many_handles 0 w.control_pipe_consumer_handle c in
      ground arith;
  same_control = refl;
  same_timers = refl;
  same_shutdown = refl;
}

pub bound-found :
    (handle index signals port : ℕ) (w : HandleWatcherThreadState)
    → find handle w.handle_to_index_map ≡ some index
    → get_elem? w.wait_many_signals index ≡ some signals
    → get_elem? w.handle_ports index ≡ some port
    → bound w handle ≡ some (signals, port)
bound-found handle index signals port w f x y = ground arith

-- A handle in the map has more signals, if the port is the one that is bound to it.
same-Changed :
    (handle index signals old port : ℕ) (w : HandleWatcherThreadState)
    → IsWatcher w
    → find handle w.handle_to_index_map ≡ some index
    → get_elem? w.wait_many_signals index ≡ some old
    → get_elem? w.handle_ports index ≡ some port
    → Changed w
        (λ k. if k == handle then bind_one signals port (bound w k) else bound w k)
        (with_signals index (bit_or old signals) w)
same-Changed handle index signals old port w g f x y = record {
  keeps = with_signals-IsWatcher index (bit_or old signals) w g;
  binds = λ k.
      let a = bound-found handle index old port w f x y in
      let b = bound-with_signals handle index (bit_or old signals) port w k g f y in ground arith;
  same_state = refl;
  same_control = refl;
  same_timers = refl;
  same_shutdown = refl;
}

refused-Changed :
    (handle signals old bound_port port : ℕ) (w : HandleWatcherThreadState)
    → IsWatcher w
    → bound w handle ≡ some (old, bound_port)
    → (bound_port == port) ≡ false
    → Changed w (λ k. if k == handle then bind_one signals port (bound w k) else bound w k) w
refused-Changed handle signals old bound_port port w g b h = record {
  keeps = g;
  binds = λ k. ground arith;
  same_state = refl;
  same_control = refl;
  same_timers = refl;
  same_shutdown = refl;
}

module _ (e : Outside) where
  open e use {State}

  -- Another port is told that the peer is closed.
  abbrev pub refuse_port : ℕ → Option (ℕ × ℕ) → State → State
  refuse_port port none s = s
  refuse_port port (some (bound_signals, bound_port)) s =
      if bound_port == port then s else post_signal e port signal_peer_closed s

  abbrev pub Added :
      ℕ → ℕ → ℕ → HandleWatcherThreadState → State → HandleWatcherThreadState × State → Type 0
  Added handle signals port w s (w', s') =
      Changed w (λ k. if k == handle then bind_one signals port (bound w k) else bound w k) w'
      × (s' ≡ refuse_port port (bound w handle) s)

  bind_again-Added :
      (handle index signals old bound_port port : ℕ) (w : HandleWatcherThreadState) (s : State)
      → IsWatcher w
      → find handle w.handle_to_index_map ≡ some index
      → get_elem? w.wait_many_signals index ≡ some old
      → get_elem? w.handle_ports index ≡ some bound_port
      → Returns (Added handle signals port w s) (bind_again e index handle signals port w s)
  unfolding bind_again
  bind_again-Added handle index signals old bound_port port w s g f x y =
      let b = bound-found handle index old bound_port w f x y in
      Returns-access _ (get_elem? w.wait_many_handles index) handle _ (g.found handle index f) (
        Returns-assert _ (handle == handle) _ (test_same handle handle refl) (
          Returns-access _ (get_elem? w.handle_ports index) bound_port _ y (
            Returns-test (Added handle signals port w s) (not (bound_port == port)) _ _
              (λ h. (
                refused-Changed handle signals old bound_port port w g b (ground arith),
                ground arith,
              ))
              (λ h. Returns-access _ (get_elem? w.wait_many_signals index) old _ x (
                Returns-assert _ _ _ (test_same _ _ (sym g.map_length)) (
                  same-Changed handle index signals old port w g f x (ground arith),
                  ground arith,
                ))))))

  pub add_handle-Added :
      (handle signals port : ℕ) (w : HandleWatcherThreadState) (s : State)
      → IsWatcher w
      → Returns (Added handle signals port w s) (add_handle e handle signals port w s)
  unfolding add_handle
  add_handle-Added handle signals port w s g =
      Returns-option (Added handle signals port w s) (find handle w.handle_to_index_map) _ _
        (λ f.
          let c = new-Changed handle signals port w g f in
          Returns-assert _ _ _ (test_same _ _ (sym c.keeps.map_length))
            (c, ap (λ o. refuse_port port (bound_at w o) s) (sym f)))
        (λ index f.
          let l = get_elem?-bound w.wait_many_handles index handle (g.found handle index f) in
          let (old, x) =
            get_elem?-some w.wait_many_signals index (omega (arith, g.signals_length)) in
          let (p, y) = get_elem?-some w.handle_ports index (omega (arith, g.ports_length)) in
          bind_again-Added handle index signals old p port w s g f x y)
