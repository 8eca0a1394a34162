-- ===== src/Watcher/Waits.antt =====
-- What the watcher of public/platform/dart/dart_handle_watcher.cc does with the handles that a wait
-- finds ready.
use Prim.Native.Nat.{bit_and}
use mojo.Watcher.Invariant.{IsWatcher, both, bound}
use mojo.Watcher.Adds.{Changed}
use mojo.Watcher.Ready.{Descends, Descends-up, among, among_handles, remove_all-Changed}
use mojo.Watcher.Loop.{remove_all, notify_at, notify_ready, serve_ready}
use mojo.Prelude.{
  ℕ, zero, suc, ◌<◌, ◌≡◌, refl, ap, ◌∙◌, Option, none, some, List, ◌∷◌, ltb, ◌==◌, if◌then◌else◌,
  Bool, true, false, not, ◌&&◌, Option-cases, inl, inr, length, get_elem?, get_elem?-some,
  get_elem?-bound, arith,
}
use mojo.Prelude.Maps.{find}
use mojo.Prelude.Run.{Returns, Returns-bind, Returns-access, Returns-test}
use mojo.Watcher.{HandleWatcherThreadState, Outside, post_signal}

-- The signals at an index that the watcher waits for and that are satisfied.
abbrev pub common : Option (ℕ × ℕ) → ℕ
common none = 0
common (some (signals, state)) = bit_and state signals

abbrev pub satisfied_at : HandleWatcherThreadState → ℕ → ℕ
satisfied_at w i =
    common (both (get_elem? w.wait_many_signals i) (get_elem? w.wait_many_signals_state i))

-- Whether a handle, not the control handle, is ready.
abbrev pub ready : HandleWatcherThreadState → ℕ → Bool
ready w k = elim (find k w.handle_to_index_map) [
  | none ↦ false
  | some i ↦ ltb 0 i && not (satisfied_at w i == 0)
]

module _ (e : Outside) where
  open e use {State}

  -- The satisfied signals are sent to a port, if there are any.
  abbrev pub send_satisfied : ℕ → Option ℕ → State → State
  send_satisfied satisfied none s = s
  send_satisfied satisfied (some port) s =
      if satisfied == 0 then s else post_signal e port satisfied s

  -- The ports of the handles at the indexes below a number are told, from above.
  abbrev pub tell_ports : ℕ → HandleWatcherThreadState → State → State
  tell_ports zero w s = s
  tell_ports (suc zero) w s = s
  tell_ports (suc (suc i)) w s =
      tell_ports (suc i) w
        (send_satisfied (satisfied_at w (suc i)) (get_elem? w.handle_ports (suc i)) s)

  abbrev Told : ℕ → HandleWatcherThreadState → State → Bool × State → Type 0
  Told i w s (b, s') =
      (b ≡ not (satisfied_at w i == 0))
      × (s' ≡ send_satisfied (satisfied_at w i) (get_elem? w.handle_ports i) s)

  notify_at-Told :
      (i : ℕ) (w : HandleWatcherThreadState) (s : State)
      → IsWatcher w
      → i < length w.wait_many_handles
      → Returns (Told i w s) (notify_at e i w s)
  unfolding notify_at
  notify_at-Told i w s g l =
      let (signals, a) = get_elem?-some w.wait_many_signals i (omega (arith, g.signals_length)) in
      let (state, b) =
        get_elem?-some w.wait_many_signals_state i (omega (arith, g.states_length)) in
      let (port, c) = get_elem?-some w.handle_ports i (omega (arith, g.ports_length)) in
      Returns-access _ (get_elem? w.wait_many_signals i) signals _ a (
        Returns-access _ (get_elem? w.wait_many_signals_state i) state _ b (
          Returns-test (Told i w s) (bit_and state signals == 0) _ _
            (λ h. (ground arith, ground arith))
            (λ h.
              Returns-access _ (get_elem? w.handle_ports i) port _ c (ground arith, ground arith))))

  abbrev Notified : ℕ → HandleWatcherThreadState → State → List ℕ × State → Type 0
  Notified n w s (is, s') =
      Descends n is
      × ((i : ℕ) → among i is ≡ (ltb 0 i && ltb i n && not (satisfied_at w i == 0)))
      × (s' ≡ tell_ports n w s)

  Notified-step :
      (n : ℕ) (w : HandleWatcherThreadState) (s s' s'' : State) (b : Bool) (is : List ℕ)
      → Told (suc n) w s (b, s')
      → Notified (suc n) w s' (is, s'')
      → Notified (suc (suc n)) w s (if b then suc n ∷ is else is, s'')
  Notified-step n w s s' s'' true is t h = (
    (omega arith, omega arith, h.0),
    λ i. let a = h.1 i in let c = t.0 in ground arith,
    h.2 ∙ ap (tell_ports (suc n) w) t.1,
  )
  Notified-step n w s s' s'' false is t h = (
    Descends-up (suc n) (suc (suc n)) is (omega arith) h.0,
    λ i. let a = h.1 i in let c = t.0 in ground arith,
    h.2 ∙ ap (tell_ports (suc n) w) t.1,
  )

  notify_ready-Notified :
      (n : ℕ) (w : HandleWatcherThreadState) (s : State)
      → IsWatcher w
      → n < suc (length w.wait_many_handles)
      → Returns (Notified n w s) (notify_ready e n w s)
  unfolding notify_ready
  notify_ready-Notified zero w s g l = (tt, λ i. ground arith, refl)
  notify_ready-Notified (suc zero) w s g l = (tt, λ i. ground arith, refl)
  notify_ready-Notified (suc (suc n)) w s g l =
      Returns-bind _ _ (notify_at e (suc n) w s) _ (notify_at-Told (suc n) w s g (omega arith))
        (λ r t.
          Returns-bind _ _ (notify_ready e (suc n) w r.1) _
            (notify_ready-Notified (suc n) w r.1 g (omega arith))
            (λ q h. Notified-step n w s r.1 q.1 r.0 q.0 t h))

  among-ready :
      (w : HandleWatcherThreadState) (is : List ℕ) (k : ℕ)
      → IsWatcher w
      → ((i : ℕ)
          → among i is
            ≡ (ltb 0 i && ltb i (length w.wait_many_handles) && not (satisfied_at w i == 0)))
      → among_handles w is k ≡ ready w k
  among-ready w is k g h = elim (Option-cases (find k w.handle_to_index_map)) [
    | inl f ↦ ground arith
    | inr (i, f) ↦
        let l = get_elem?-bound w.wait_many_handles i k (g.found k i f) in
        let a = h i in ground arith
  ]

  abbrev pub Served : HandleWatcherThreadState → State → HandleWatcherThreadState × State → Type 0
  Served w s (w', s') =
      Changed w (λ k. if ready w k then none else bound w k) w'
      × (s' ≡ tell_ports (length w.wait_many_handles) w s)

  -- In tables in good order every handle that is ready, but for the control handle, is unbound, and no
  -- other; its port is sent the signals that are satisfied, from the highest index on; no check fails.
  pub serve_ready-Served :
      (w : HandleWatcherThreadState) (s : State)
      → IsWatcher w
      → Returns (Served w s) (serve_ready e w s)
  unfolding serve_ready
  serve_ready-Served w s g =
      let n = length w.wait_many_handles in
      Returns-bind _ _ (notify_ready e n w s) _ (notify_ready-Notified n w s g (omega arith))
        (λ r h. Returns-bind _ _ (remove_all r.0 w) _ (remove_all-Changed r.0 w g h.0) (λ w' c. (
          record {
            keeps = c.keeps;
            binds = λ k. let a = among-ready w r.0 k g h.1 in let b = c.binds k in ground arith;
            same_state = c.same_state;
            same_control = c.same_control;
            same_timers = c.same_timers;
            same_shutdown = c.same_shutdown;
          },
          h.2,
        )))
