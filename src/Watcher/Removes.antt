-- ===== src/Watcher/Removes.antt =====
-- RemoveHandleAtIndex and RemoveHandle of public/platform/dart/dart_handle_watcher.cc keep the
-- tables in order.
use mojo.Watcher.Invariant.{IsWatcher, bound, after, after-IsWatcher, bound-after}
use mojo.Prelude.{
  ℕ, zero, suc, ◌-◌, ◌<◌, ◌≡◌, refl, sym, none, some, List, leb, ◌==◌, if◌then◌else◌, true, not,
  Option-cases, inl, inr, length, get_elem?, get_elem?-some, get_elem?-bound, arith, test_same,
}
use mojo.Prelude.Maps.{find}
use mojo.Prelude.Run.{
  Run, ok, ◌>>=◌, Returns, Returns-access, Returns-map, Returns-bind, Returns-assert, Yields,
  Returns-Yields, Yields-access, Yields-assert, Yields-option,
}
use mojo.Watcher.{HandleWatcherThreadState, swap_out, remove_handle_at_index, remove_handle}
use mojo.Watcher.Vectors.{Swapped, swap_out_lem}

-- A list that agrees with another up to an index.
abbrev pub Agree : ℕ → List ℕ → List ℕ → Type 0
Agree n xs ys = (j : ℕ) → j < n → get_elem? ys j ≡ get_elem? xs j

-- What a removal does: the handle is unbound and the others stay as they are, and so do the tables
-- below its index.
pub record Removed (w : HandleWatcherThreadState) (index removed : ℕ)
    (w' : HandleWatcherThreadState) : Type 0 where
  pub keeps : IsWatcher w'
  pub unbound : (k : ℕ) → bound w' k ≡ (if k == removed then none else bound w k)
  pub handles_below : Agree index w.wait_many_handles w'.wait_many_handles
  pub signals_below : Agree index w.wait_many_signals w'.wait_many_signals
  pub states_below : Agree index w.wait_many_signals_state w'.wait_many_signals_state
  pub ports_below : Agree index w.handle_ports w'.handle_ports
  pub shorter : suc (length w'.wait_many_handles) ≡ length w.wait_many_handles
  pub same_control : w'.control_pipe_consumer_handle ≡ w.control_pipe_consumer_handle
  pub same_timers : w'.timers ≡ w.timers
  pub same_shutdown : w'.shutdown ≡ w.shutdown

Swapped-Agree :
    (index last_index : ℕ) (xs ys : List ℕ)
    → index < suc last_index
    → Swapped index last_index xs ys
    → Agree index xs ys
Swapped-Agree index last_index xs ys l s j h = let e = s.1 j in ground arith

swap_out-bind :
    (Q : HandleWatcherThreadState → Type 0) (index n length_of_all : ℕ) (xs : List ℕ)
    (k : List ℕ → Run HandleWatcherThreadState)
    → index < length_of_all
    → length_of_all ≡ suc n
    → length xs ≡ length_of_all
    → ((ys : List ℕ) → Swapped index n xs ys → Returns Q (k ys))
    → Returns Q (swap_out index n xs >>= k)
swap_out-bind Q index n length_of_all xs k l e h next =
    Returns-bind (Swapped index n xs) Q (swap_out index n xs) k
      (swap_out_lem index n xs (omega arith) (omega arith)) next

leb-positive : (k : ℕ) → 0 < k → leb 1 k ≡ true
leb-positive k h = ground arith

after-Removed :
    (w : HandleWatcherThreadState) (index n removed last : ℕ) (hs ss sts ps : List ℕ)
    (g : IsWatcher w)
    → length w.wait_many_handles ≡ suc n
    → 0 < index
    → get_elem? w.wait_many_handles index ≡ some removed
    → get_elem? w.wait_many_handles n ≡ some last
    → Swapped index n w.wait_many_handles hs
    → Swapped index n w.wait_many_signals ss
    → Swapped index n w.wait_many_signals_state sts
    → Swapped index n w.handle_ports ps
    → Removed w index removed (after w index n removed last hs ss sts ps)
after-Removed w index n removed last hs ss sts ps g e p at at_last a b c d =
    let l = get_elem?-bound w.wait_many_handles index removed at in
    record {
      keeps = after-IsWatcher w index n removed last g e p at at_last hs ss sts ps a b c d;
      unbound = λ k. bound-after w index n removed last g e p at at_last hs ss sts ps k b d;
      handles_below = Swapped-Agree index n _ _ (omega arith) a;
      signals_below = Swapped-Agree index n _ _ (omega arith) b;
      states_below = Swapped-Agree index n _ _ (omega arith) c;
      ports_below = Swapped-Agree index n _ _ (omega arith) d;
      shorter = let m = a.0 in omega arith;
      same_control = refl;
      same_timers = refl;
      same_shutdown = refl;
    }

pub remove_handle_at_index-Removed :
    (w : HandleWatcherThreadState) (index removed : ℕ)
    → IsWatcher w
    → 0 < index
    → get_elem? w.wait_many_handles index ≡ some removed
    → Returns (Removed w index removed) (remove_handle_at_index index w)
unfolding remove_handle_at_index
remove_handle_at_index-Removed w index removed g positive at =
    let n = length w.wait_many_handles - 1 in
    let l = get_elem?-bound w.wait_many_handles index removed at in
    let (last, at_last) = get_elem?-some w.wait_many_handles n (omega arith) in
    let e : length w.wait_many_handles ≡ suc n = omega arith in
    Returns-assert _ (not (index == 0)) _ (ground arith) (
      Returns-access _ (get_elem? w.wait_many_handles index) removed _ at (
        Returns-access _ (get_elem? w.wait_many_handles n) last _ at_last (
          swap_out-bind _ index n _ w.wait_many_handles _ l e refl (λ hs a.
            swap_out-bind _ index n _ w.wait_many_signals _ l e g.signals_length (λ ss b.
              swap_out-bind _ index n _ w.wait_many_signals_state _ l e g.states_length (λ sts c.
                swap_out-bind _ index n _ w.handle_ports _ l e g.ports_length (λ ps d.
                  let r =
                    after-Removed w index n removed last hs ss sts ps g e positive at at_last a b c
                      d in
                  let m = a.0 in
                  Returns-assert _ (leb 1 (length hs)) _ (leb-positive (length hs) (omega arith)) (
                    Returns-assert _ (length hs == _) _ (test_same _ _ (sym r.keeps.map_length))
                      r))))))))

-- The tables are in order, and the control handle is the same.
abbrev pub Kept : HandleWatcherThreadState → HandleWatcherThreadState → Type 0
Kept w w' = IsWatcher w' × (w'.control_pipe_consumer_handle ≡ w.control_pipe_consumer_handle)

-- A removal at any index, if the watcher returns from it.
pub remove_handle_at_index-Kept :
    (w : HandleWatcherThreadState) (index : ℕ)
    → IsWatcher w
    → Yields (Kept w) (remove_handle_at_index index w)
unfolding remove_handle_at_index
remove_handle_at_index-Kept w zero g = tt
remove_handle_at_index-Kept w (suc i) g =
    elim (Option-cases (get_elem? w.wait_many_handles (suc i))) [
      | inl e ↦
          Yields-assert _ (not (suc i == 0)) _
            (Yields-access _ (get_elem? w.wait_many_handles (suc i)) _ (λ a h. cc))
      | inr (removed, e) ↦ Returns-Yields (Kept w) (remove_handle_at_index (suc i) w) (
          Returns-map (Removed w (suc i) removed) (Kept w) (remove_handle_at_index (suc i) w)
            (remove_handle_at_index-Removed w (suc i) removed g (omega arith) e)
            (λ w' r. (r.keeps, r.same_control)))
    ]

pub remove_handle-Kept :
    (handle : ℕ) (w : HandleWatcherThreadState)
    → IsWatcher w
    → Yields (Kept w) (remove_handle handle w)
unfolding remove_handle
remove_handle-Kept handle w g =
    Yields-option (Kept w) (find handle w.handle_to_index_map) (ok w) _ (λ e. (g, refl))
      (λ index e. Yields-assert _ (not (index == 0)) _ (remove_handle_at_index-Kept w index g))
