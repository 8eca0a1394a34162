-- ===== src/Watcher/Ready.antt =====
-- The removal of several handles in ProcessWaitManyResults of
-- public/platform/dart/dart_handle_watcher.cc, from the highest index.
use mojo.Watcher.Invariant.{IsWatcher, bound}
use mojo.Watcher.Removes.{Removed, remove_handle_at_index-Removed}
use mojo.Watcher.Adds.{Changed}
use mojo.Watcher.Loop.{remove_all}
use mojo.Prelude.{
  ℕ, suc, ◌<◌, ◌≡◌, refl, ◌∙◌, Option, none, some, List, [], ◌∷◌, ◌==◌, if◌then◌else◌, Bool, true,
  false, ◌||◌, Option-cases, inl, inr, length, get_elem?, get_elem?-some, arith,
}
use mojo.Prelude.Maps.{find}
use mojo.Prelude.Run.{Returns, Returns-map, Returns-bind}
use mojo.Watcher.{HandleWatcherThreadState, remove_handle_at_index}

-- Indexes below a number, none of them that of the control handle, from above.
abbrev pub Descends : ℕ → List ℕ → Type 0
Descends n [] = Unit {0}
Descends n (i ∷ is) = (0 < i) × (i < n) × Descends i is

abbrev pub among : ℕ → List ℕ → Bool
among i [] = false
among i (j ∷ js) = i == j || among i js

-- Whether the index of a handle is in a list.
abbrev pub among_handles : HandleWatcherThreadState → List ℕ → ℕ → Bool
among_handles w is k = elim (find k w.handle_to_index_map) [ none ↦ false | some i ↦ among i is ]

pub among-below : (n i : ℕ) (is : List ℕ) → Descends n is → among i is ≡ true → i < n
among-below n i [] d h = cc
among-below n i (j ∷ js) d h = ground (arith, among-below j i js)

pub Descends-up : (m n : ℕ) (is : List ℕ) → m < suc n → Descends m is → Descends n is
Descends-up m n [] l d = tt
Descends-up m n (i ∷ is) l d = (d.0, omega arith, d.2)

-- The handles at lower indexes stay where they are.
among-Removed :
    (w w' : HandleWatcherThreadState) (index removed k : ℕ) (is : List ℕ)
    → IsWatcher w
    → Removed w index removed w'
    → Descends index is
    → among_handles w' is k ≡ among_handles w is k
among-Removed w w' index removed k is g r d = elim (Option-cases (find k w.handle_to_index_map)) [
  | inl e ↦ elim (Option-cases (find k w'.handle_to_index_map)) [
    | inl e' ↦ ground arith
    | inr (j', e') ↦
        let f' = r.keeps.found k j' e' in
        let b = r.handles_below j' in ground (arith, among-below index j' is, g.listed k j')
  ]
  | inr (j, e) ↦
      let f = g.found k j e in
      let b = r.handles_below j in
      elim (Option-cases (find k w'.handle_to_index_map)) [
        | inl e' ↦ ground (arith, among-below index j is, r.keeps.listed k j)
        | inr (j', e') ↦
            let f' = r.keeps.found k j' e' in
            let b' = r.handles_below j' in
            ground (
              arith,
              among-below index j is,
              among-below index j' is,
              r.keeps.listed k j,
              g.listed k j',
            )
      ]
]

-- What is bound after one removal and then the others.
bound-step :
    (w : HandleWatcherThreadState) (index removed k : ℕ) (is : List ℕ) (o o' : Option (ℕ × ℕ))
    → IsWatcher w
    → get_elem? w.wait_many_handles index ≡ some removed
    → o' ≡ (if k == removed then none else bound w k)
    → o ≡ (if among_handles w is k then none else o')
    → o ≡ (if among_handles w (index ∷ is) k then none else bound w k)
bound-step w index removed k is o o' g at h h' =
    let r = g.listed removed index at in
    elim (Option-cases (find k w.handle_to_index_map)) [
      | inl e ↦ ground arith
      | inr (j, e) ↦ let f = g.found k j e in ground arith
    ]

remove_all-step :
    (w w' w'' : HandleWatcherThreadState) (index removed : ℕ) (is : List ℕ)
    → IsWatcher w
    → get_elem? w.wait_many_handles index ≡ some removed
    → Descends index is
    → 0 < index
    → Removed w index removed w'
    → Changed w' (λ k. if among_handles w' is k then none else bound w' k) w''
    → Changed w (λ k. if among_handles w (index ∷ is) k then none else bound w k) w''
remove_all-step w w' w'' index removed is g at d p r c = record {
  same_state = c.same_state ∙ r.states_below 0 p;
  keeps = c.keeps;
  binds = λ k.
      let a = among-Removed w w' index removed k is g r d in
      let b = c.binds k in
      bound-step w index removed k is (bound w'' k) (bound w' k) g at (r.unbound k) (ground arith);
  same_control = c.same_control ∙ r.same_control;
  same_timers = c.same_timers ∙ r.same_timers;
  same_shutdown = c.same_shutdown ∙ r.same_shutdown;
}

none-Changed :
    (w : HandleWatcherThreadState)
    → IsWatcher w
    → Changed w (λ k. if among_handles w [] k then none else bound w k) w
none-Changed w g = record {
  keeps = g;
  binds = λ k. ground arith;
  same_state = refl;
  same_control = refl;
  same_timers = refl;
  same_shutdown = refl;
}

pub remove_all-Changed :
    (is : List ℕ) (w : HandleWatcherThreadState)
    → IsWatcher w
    → Descends (length w.wait_many_handles) is
    → Returns (Changed w (λ k. if among_handles w is k then none else bound w k)) (remove_all is w)
unfolding remove_all
remove_all-Changed [] w g d = none-Changed w g
remove_all-Changed (i ∷ is) w g d =
    let (removed, at) = get_elem?-some w.wait_many_handles i d.1 in
    Returns-bind (Removed w i removed) _ (remove_handle_at_index i w) _
      (remove_handle_at_index-Removed w i removed g d.0 at)
      (λ w' r.
        Returns-map _ _ (remove_all is w')
          (remove_all-Changed is w' r.keeps
            (Descends-up i (length w'.wait_many_handles) is (omega (arith, r.shorter)) d.2))
          (λ w'' c. remove_all-step w w' w'' i removed is g at d.2 d.0 r c))
