-- ===== src/Watcher/Tables.antt =====
-- The tables after an AddHandle of public/platform/dart/dart_handle_watcher.cc: a handle more, or other
-- signals.
use mojo.Watcher.Invariant.{IsWatcher, bound}
use mojo.Prelude.{
  ℕ, ◌≡◌, ◌∙◌, none, some, [], ◌∷◌, ◌++◌, ◌==◌, if◌then◌else◌, Option-cases, inl, inr, length,
  get_elem?, set, get_elem?-bound, get_elem?-append, get_elem?-set, length-set, length-append,
  arith,
}
use mojo.Prelude.Maps.{find, assign, find-assign, assign-Ascends, length-assign_new}
use mojo.Watcher.{HandleWatcherThreadState}

-- The tables of a watcher that has a handle added, and one with other signals.
abbrev pub with_handle : ℕ → ℕ → ℕ → HandleWatcherThreadState → HandleWatcherThreadState
with_handle handle signals port w = record w {
  wait_many_handles = w.wait_many_handles ++ (handle ∷ []);
  wait_many_signals = w.wait_many_signals ++ (signals ∷ []);
  wait_many_signals_state = w.wait_many_signals_state ++ (0 ∷ []);
  handle_ports = w.handle_ports ++ (port ∷ []);
  handle_to_index_map = assign handle (length w.wait_many_handles) w.handle_to_index_map;
}

abbrev pub with_signals : ℕ → ℕ → HandleWatcherThreadState → HandleWatcherThreadState
with_signals index signals w = record w {
  wait_many_signals = set w.wait_many_signals index signals;
}

pub with_handle-IsWatcher :
    (handle signals port : ℕ) (w : HandleWatcherThreadState)
    → IsWatcher w
    → find handle w.handle_to_index_map ≡ none
    → IsWatcher (with_handle handle signals port w)
with_handle-IsWatcher handle signals port w g f =
    let n = length w.wait_many_handles in
    let h = length-append w.wait_many_handles (handle ∷ []) in
    record {
      signals_length =
          let l = length-append w.wait_many_signals (signals ∷ []) in
          omega (arith, g.signals_length);
      states_length =
          let l = length-append w.wait_many_signals_state (0 ∷ []) in
          omega (arith, g.states_length);
      ports_length =
          let l = length-append w.handle_ports (port ∷ []) in omega (arith, g.ports_length);
      map_length =
          let l = length-assign_new handle n w.handle_to_index_map f in omega (arith, g.map_length);
      ascends = assign-Ascends handle n w.handle_to_index_map g.ascends;
      found = λ k j e.
          let a = find-assign handle k n w.handle_to_index_map g.ascends in
          let b = get_elem?-append w.wait_many_handles j handle in
          ground (arith, g.found k j, get_elem?-bound w.wait_many_handles j k);
      listed = λ k j e.
          let a = find-assign handle k n w.handle_to_index_map g.ascends in
          let b = get_elem?-append w.wait_many_handles j handle in ground (arith, g.listed k j);
      control =
          let b = get_elem?-append w.wait_many_handles 0 handle in
          let c = g.control in
          let l = get_elem?-bound w.wait_many_handles 0 w.control_pipe_consumer_handle c in
          ground arith;
    }

pub with_signals-IsWatcher :
    (index signals : ℕ) (w : HandleWatcherThreadState)
    → IsWatcher w
    → IsWatcher (with_signals index signals w)
with_signals-IsWatcher index signals w g = record {
  signals_length = length-set w.wait_many_signals index signals ∙ g.signals_length;
  states_length = g.states_length;
  ports_length = g.ports_length;
  map_length = g.map_length;
  ascends = g.ascends;
  found = g.found;
  listed = g.listed;
  control = g.control;
}

pub bound-with_handle :
    (handle signals port : ℕ) (w : HandleWatcherThreadState) (k : ℕ)
    → IsWatcher w
    → find handle w.handle_to_index_map ≡ none
    → bound (with_handle handle signals port w) k
      ≡ (if k == handle then some (signals, port) else bound w k)
bound-with_handle handle signals port w k g f =
    let n = length w.wait_many_handles in
    let a = find-assign handle k n w.handle_to_index_map g.ascends in
    let s = g.signals_length in
    let p = g.ports_length in
    let sₙ = get_elem?-append w.wait_many_signals n signals in
    let pₙ = get_elem?-append w.handle_ports n port in
    elim (Option-cases (find k w.handle_to_index_map)) [
      | inl e ↦ ground arith
      | inr (j, e) ↦
          let l = get_elem?-bound w.wait_many_handles j k (g.found k j e) in
          let sⱼ = get_elem?-append w.wait_many_signals j signals in
          let pⱼ = get_elem?-append w.handle_ports j port in ground arith
    ]

pub bound-with_signals :
    (handle index signals port : ℕ) (w : HandleWatcherThreadState) (k : ℕ)
    → IsWatcher w
    → find handle w.handle_to_index_map ≡ some index
    → get_elem? w.handle_ports index ≡ some port
    → bound (with_signals index signals w) k
      ≡ (if k == handle then some (signals, port) else bound w k)
bound-with_signals handle index signals port w k g f p =
    let s = g.signals_length in
    let h = g.found handle index f in
    let l = get_elem?-bound w.wait_many_handles index handle h in
    elim (Option-cases (find k w.handle_to_index_map)) [
      | inl e ↦ ground arith
      | inr (j, e) ↦
          let sⱼ = get_elem?-set w.wait_many_signals index j signals (omega arith) in
          let hⱼ = g.found k j e in ground arith
    ]
