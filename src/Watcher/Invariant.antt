-- ===== src/Watcher/Invariant.antt =====
-- The tables of a handle watcher, and the removal of a handle from them, in
-- public/platform/dart/dart_handle_watcher.cc.
use mojo.Prelude.{
  ℕ, suc, ◌<◌, ◌≡◌, ◌∙◌, sym, Option, none, some, List, ◌==◌, if◌then◌else◌, not, ◌&&◌,
  Option-cases, inl, inr, length, get_elem?, get_elem?-bound, arith,
}
use mojo.Prelude.Maps.{
  Ascends, find, erase, assign, find-erase_lem, find-assign, erase-Ascends, assign-Ascends,
  length-erase, length-assign_old,
}
use mojo.Watcher.{HandleWatcherThreadState}
use mojo.Watcher.Vectors.{Swapped}

-- The vectors have one length, the map has each handle under its index, and the control handle is
-- the first.
pub record IsWatcher (w : HandleWatcherThreadState) : Type 0 where
  pub signals_length : length w.wait_many_signals ≡ length w.wait_many_handles
  pub states_length : length w.wait_many_signals_state ≡ length w.wait_many_handles
  pub ports_length : length w.handle_ports ≡ length w.wait_many_handles
  pub map_length : length w.handle_to_index_map ≡ length w.wait_many_handles
  pub ascends : Ascends w.handle_to_index_map
  pub found :
      (h i : ℕ) → find h w.handle_to_index_map ≡ some i → get_elem? w.wait_many_handles i ≡ some h
  pub listed :
      (h i : ℕ) → get_elem? w.wait_many_handles i ≡ some h → find h w.handle_to_index_map ≡ some i
  pub control : get_elem? w.wait_many_handles 0 ≡ some w.control_pipe_consumer_handle

-- The signals and the port that are bound to a handle.
abbrev pub both : Option ℕ → Option ℕ → Option (ℕ × ℕ)
both none y = none
both (some x) none = none
both (some x) (some y) = some (x, y)

abbrev pub bound_at : HandleWatcherThreadState → Option ℕ → Option (ℕ × ℕ)
bound_at w none = none
bound_at w (some i) = both (get_elem? w.wait_many_signals i) (get_elem? w.handle_ports i)

abbrev pub bound : HandleWatcherThreadState → ℕ → Option (ℕ × ℕ)
bound w h = bound_at w (find h w.handle_to_index_map)

-- The handle map after the removal of the handle at an index.
abbrev pub moved : ℕ → ℕ → ℕ → ℕ → List (ℕ × ℕ) → List (ℕ × ℕ)
moved index last_index removed last m =
    let erased = erase removed m in if index == last_index then erased else assign last index erased

pub find-moved :
    (index last_index removed last k : ℕ) (m : List (ℕ × ℕ))
    → Ascends m
    → find k (moved index last_index removed last m) ≡ (
        if not (index == last_index) && (k == last)
        then some index
        else if k == removed
        then none
        else find k m)
find-moved index last_index removed last k m a =
    let f = find-erase_lem removed k m a in
    let g = find-assign last k index (erase removed m) (erase-Ascends removed m a) in ground arith

moved-Ascends :
    (index last_index removed last : ℕ) (m : List (ℕ × ℕ))
    → Ascends m
    → Ascends (moved index last_index removed last m)
moved-Ascends index last_index removed last m a =
    let f = erase-Ascends removed m a in
    let g = assign-Ascends last index (erase removed m) f in ground arith

length-moved :
    (index last_index removed last : ℕ) (m : List (ℕ × ℕ))
    → Ascends m
    → find removed m ≡ some index
    → find last m ≡ some last_index
    → suc (length (moved index last_index removed last m)) ≡ length m
length-moved index last_index removed last m a f g =
    let e = length-erase removed index m f in
    let h = find-erase_lem removed last m a in
    let l = length-assign_old last index last_index (erase removed m) (erase-Ascends removed m a) in
    ground arith

-- The state that RemoveHandleAtIndex leaves, with the vectors that it leaves.
abbrev pub after :
    HandleWatcherThreadState
    → ℕ
    → ℕ
    → ℕ
    → ℕ
    → List ℕ
    → List ℕ
    → List ℕ
    → List ℕ
    → HandleWatcherThreadState
after w index last_index removed last hs ss sts ps = record w {
  wait_many_handles = hs;
  wait_many_signals = ss;
  wait_many_signals_state = sts;
  handle_ports = ps;
  handle_to_index_map = moved index last_index removed last w.handle_to_index_map;
}

module _ (w : HandleWatcherThreadState) (index last_index removed last : ℕ) (g : IsWatcher w)
    (n : length w.wait_many_handles ≡ suc last_index) (positive : 0 < index)
    (at_index : get_elem? w.wait_many_handles index ≡ some removed)
    (at_last : get_elem? w.wait_many_handles last_index ≡ some last) where
  moved-found :
      (ys : List ℕ) (k j : ℕ)
      → Swapped index last_index w.wait_many_handles ys
      → find k (moved index last_index removed last w.handle_to_index_map) ≡ some j
      → get_elem? ys j ≡ some k
  moved-found ys k j sw h =
      let f = find-moved index last_index removed last k w.handle_to_index_map g.ascends in
      let s = sw.1 j in
      let b = get_elem?-bound w.wait_many_handles index removed at_index in
      ground (arith, g.found k j, get_elem?-bound w.wait_many_handles j k)

  moved-listed :
      (ys : List ℕ) (k j : ℕ)
      → Swapped index last_index w.wait_many_handles ys
      → get_elem? ys j ≡ some k
      → find k (moved index last_index removed last w.handle_to_index_map) ≡ some j
  moved-listed ys k j sw h =
      let f = find-moved index last_index removed last k w.handle_to_index_map g.ascends in
      let s = sw.1 j in
      let r = g.listed removed index at_index in
      let l = g.listed last last_index at_last in ground (arith, g.listed k j)

  pub after-IsWatcher :
      (hs ss sts ps : List ℕ)
      → Swapped index last_index w.wait_many_handles hs
      → Swapped index last_index w.wait_many_signals ss
      → Swapped index last_index w.wait_many_signals_state sts
      → Swapped index last_index w.handle_ports ps
      → IsWatcher (after w index last_index removed last hs ss sts ps)
  after-IsWatcher hs ss sts ps a b c d = record {
    signals_length = b.0 ∙ sym a.0;
    states_length = c.0 ∙ sym a.0;
    ports_length = d.0 ∙ sym a.0;
    map_length =
        let e =
          length-moved index last_index removed last w.handle_to_index_map g.ascends
            (g.listed removed index at_index) (g.listed last last_index at_last) in
        let l = g.map_length in let m = a.0 in omega arith;
    ascends = moved-Ascends index last_index removed last w.handle_to_index_map g.ascends;
    found = λ k j h. moved-found hs k j a h;
    listed = λ k j h. moved-listed hs k j a h;
    control =
        let s = a.1 0 in
        let l = get_elem?-bound w.wait_many_handles index removed at_index in
        let z = g.control in ground arith;
  }

  pub bound-after :
      (hs ss sts ps : List ℕ) (k : ℕ)
      → Swapped index last_index w.wait_many_signals ss
      → Swapped index last_index w.handle_ports ps
      → bound (after w index last_index removed last hs ss sts ps) k
        ≡ (if k == removed then none else bound w k)
  bound-after hs ss sts ps k b d =
      let f = find-moved index last_index removed last k w.handle_to_index_map g.ascends in
      let r = g.listed removed index at_index in
      let l = g.listed last last_index at_last in
      let i = get_elem?-bound w.wait_many_handles index removed at_index in
      elim (Option-cases (find k w.handle_to_index_map)) [
        | inl e ↦ ground arith
        | inr (j, e) ↦
            let h = g.found k j e in
            let m = get_elem?-bound w.wait_many_handles j k h in
            let b₁ = b.1 j in
            let b₂ = b.1 index in let d₁ = d.1 j in let d₂ = d.1 index in ground arith
      ]
