-- ===== src/Watcher/Timers.antt =====
-- The timers of the watcher of public/platform/dart/dart_handle_watcher.cc.
use mojo.Prelude.{
  ℕ, ◌≤◌, ◌<◌, ◌≡◌, refl, sym, Option, none, some, List, [], ◌∷◌, ◌==◌, if◌then◌else◌, Bool, false,
  ◌||◌, Bool-cases, All, arith, inl, inr,
}
use mathlib.Core.Path.{transport}
use mojo.Watcher.{
  HandleWatcherTimer, HandleWatcherThreadState, is_negative, erase_timer, insert_timer,
  update_timer,
}

-- The deadlines ascend, and no two are the same.
abbrev pub IsTimerSet : List HandleWatcherTimer → Type 0
IsTimerSet [] = Unit {0}
IsTimerSet (t ∷ ts) = All (λ u. t.deadline < u.deadline) ts × IsTimerSet ts

abbrev pub has_port : ℕ → List HandleWatcherTimer → Bool
has_port port [] = false
has_port port (t ∷ ts) = t.port == port || has_port port ts

abbrev pub has_deadline : ℕ → List HandleWatcherTimer → Bool
has_deadline deadline [] = false
has_deadline deadline (t ∷ ts) = t.deadline == deadline || has_deadline deadline ts

-- One timer at most for each port.
abbrev pub IsOnePerPort : List HandleWatcherTimer → Type 0
IsOnePerPort [] = Unit {0}
IsOnePerPort (t ∷ ts) = (has_port t.port ts ≡ false) × IsOnePerPort ts

-- The deadline of the timer of a port.
abbrev pub deadline_of : ℕ → List HandleWatcherTimer → Option ℕ
deadline_of port [] = none
deadline_of port (t ∷ ts) = if t.port == port then some t.deadline else deadline_of port ts

All-erase_timer :
    (n port : ℕ) (ts : List HandleWatcherTimer)
    → All (λ u. n < u.deadline) ts
    → All (λ u. n < u.deadline) (erase_timer port ts)
unfolding erase_timer
All-erase_timer n port [] h = tt
All-erase_timer n port (t ∷ ts) h = ground (arith, All-erase_timer n port ts)

erase_timer-IsTimerSet :
    (port : ℕ) (ts : List HandleWatcherTimer) → IsTimerSet ts → IsTimerSet (erase_timer port ts)
unfolding erase_timer
erase_timer-IsTimerSet port [] h = tt
erase_timer-IsTimerSet port (t ∷ ts) h =
    ground (arith, All-erase_timer t.deadline port ts, erase_timer-IsTimerSet port ts)

has_port-erase_timer :
    (q port : ℕ) (ts : List HandleWatcherTimer)
    → has_port q ts ≡ false
    → has_port q (erase_timer port ts) ≡ false
unfolding erase_timer
has_port-erase_timer q port [] h = refl
has_port-erase_timer q port (t ∷ ts) h = ground (arith, has_port-erase_timer q port ts)

erase_timer-IsOnePerPort :
    (port : ℕ) (ts : List HandleWatcherTimer) → IsOnePerPort ts → IsOnePerPort (erase_timer port ts)
unfolding erase_timer
erase_timer-IsOnePerPort port [] h = tt
erase_timer-IsOnePerPort port (t ∷ ts) h =
    ground (arith, has_port-erase_timer t.port port ts, erase_timer-IsOnePerPort port ts)

deadline_of-absent :
    (port : ℕ) (ts : List HandleWatcherTimer)
    → has_port port ts ≡ false
    → deadline_of port ts ≡ none
deadline_of-absent port [] h = refl
deadline_of-absent port (t ∷ ts) h = ground (arith, deadline_of-absent port ts)

deadline_of-erase_timer :
    (q port : ℕ) (ts : List HandleWatcherTimer)
    → IsOnePerPort ts
    → deadline_of q (erase_timer port ts) ≡ (if q == port then none else deadline_of q ts)
unfolding erase_timer
deadline_of-erase_timer q port [] h = ground arith
deadline_of-erase_timer q port (t ∷ ts) h =
    ground (arith, deadline_of-absent q ts, deadline_of-erase_timer q port ts)

has_port-erased :
    (port : ℕ) (ts : List HandleWatcherTimer)
    → IsOnePerPort ts
    → has_port port (erase_timer port ts) ≡ false
unfolding erase_timer
has_port-erased port [] h = refl
has_port-erased port (t ∷ ts) h = ground (arith, has_port-erased port ts)

All-insert_timer :
    (n : ℕ) (x : HandleWatcherTimer) (ts : List HandleWatcherTimer)
    → n < x.deadline
    → All (λ u. n < u.deadline) ts
    → All (λ u. n < u.deadline) (insert_timer x ts)
unfolding insert_timer
All-insert_timer n x [] l h = (l, tt)
All-insert_timer n x (t ∷ ts) l h = ground (arith, All-insert_timer n x ts)

pub All-later :
    (m n : ℕ) (ts : List HandleWatcherTimer)
    → m < n
    → All (λ u. n < u.deadline) ts
    → All (λ u. m < u.deadline) ts
All-later m n [] l h = tt
All-later m n (t ∷ ts) l h = (omega arith, All-later m n ts l h.1)

insert_timer-IsTimerSet :
    (x : HandleWatcherTimer) (ts : List HandleWatcherTimer)
    → IsTimerSet ts
    → IsTimerSet (insert_timer x ts)
unfolding insert_timer
insert_timer-IsTimerSet x [] h = (tt, tt)
insert_timer-IsTimerSet x (t ∷ ts) h = ground (
  arith,
  All-later x.deadline t.deadline ts,
  All-insert_timer t.deadline x ts,
  insert_timer-IsTimerSet x ts,
)

has_port-insert_timer :
    (q : ℕ) (x : HandleWatcherTimer) (ts : List HandleWatcherTimer)
    → has_port q ts ≡ false
    → (x.port == q) ≡ false
    → has_port q (insert_timer x ts) ≡ false
unfolding insert_timer
has_port-insert_timer q x [] h n = ground arith
has_port-insert_timer q x (t ∷ ts) h n = ground (arith, has_port-insert_timer q x ts)

insert_timer-IsOnePerPort :
    (x : HandleWatcherTimer) (ts : List HandleWatcherTimer)
    → IsOnePerPort ts
    → has_port x.port ts ≡ false
    → IsOnePerPort (insert_timer x ts)
unfolding insert_timer
insert_timer-IsOnePerPort x [] h n = (refl, tt)
insert_timer-IsOnePerPort x (t ∷ ts) h n =
    ground (arith, has_port-insert_timer t.port x ts, insert_timer-IsOnePerPort x ts)

has_deadline-later :
    (d n : ℕ) (ts : List HandleWatcherTimer)
    → d ≤ n
    → All (λ u. n < u.deadline) ts
    → has_deadline d ts ≡ false
has_deadline-later d n [] l h = refl
has_deadline-later d n (t ∷ ts) l h = ground (arith, has_deadline-later d n ts)

deadline_of-insert_timer :
    (q : ℕ) (x : HandleWatcherTimer) (ts : List HandleWatcherTimer)
    → IsTimerSet ts
    → has_port x.port ts ≡ false
    → deadline_of q (insert_timer x ts) ≡ (
        if q == x.port
        then (if has_deadline x.deadline ts then none else some x.deadline)
        else deadline_of q ts)
unfolding insert_timer
deadline_of-insert_timer q x [] h n = ground arith
deadline_of-insert_timer q x (t ∷ ts) h n = ground (
  arith,
  has_deadline-later x.deadline t.deadline ts,
  deadline_of-absent x.port ts,
  deadline_of-insert_timer q x ts,
)

-- Timers in good order.
pub record IsTimers (ts : List HandleWatcherTimer) : Type 0 where
  pub ordered : IsTimerSet ts
  pub one_per_port : IsOnePerPort ts

-- The deadline that UpdateTimer leaves for a port; another port's timer with the same deadline keeps
-- the new one out.
abbrev pub updated : ℕ → ℕ → List HandleWatcherTimer → Option ℕ
updated deadline port ts =
    if is_negative deadline
    then none
    else if has_deadline deadline (erase_timer port ts)
    then none
    else some deadline

-- After UpdateTimer the timers are in good order, and no other port's deadline has changed; the
-- port's own is the new one, unless it is negative or another port has a timer with that deadline:
-- then the port has no timer.
pub update_timer-deadline_of :
    (deadline port : ℕ) (w : HandleWatcherThreadState)
    → IsTimers w.timers
    → IsTimers (update_timer deadline port w).timers
      × ((q : ℕ)
          → deadline_of q (update_timer deadline port w).timers
            ≡ (if q == port then updated deadline port w.timers else deadline_of q w.timers))
unfolding update_timer
update_timer-deadline_of deadline port w g =
    let ts = erase_timer port w.timers in
    let x : HandleWatcherTimer = record { deadline = deadline; port = port } in
    let o = erase_timer-IsTimerSet port w.timers g.ordered in
    let p = erase_timer-IsOnePerPort port w.timers g.one_per_port in
    let n = has_port-erased port w.timers g.one_per_port in
    elim (Bool-cases (is_negative deadline)) [
      | inl h ↦ (
        transport (λ i. IsTimers (if sym h i then ts else insert_timer x ts))
            (record { ordered = o; one_per_port = p }),
        λ q. let d = deadline_of-erase_timer q port w.timers g.one_per_port in ground arith,
      )
      | inr h ↦ (
        transport (λ i. IsTimers (if sym h i then ts else insert_timer x ts))
            (record {
              ordered = insert_timer-IsTimerSet x ts o;
              one_per_port = insert_timer-IsOnePerPort x ts p n;
            }),
        λ q.
            let d = deadline_of-erase_timer q port w.timers g.one_per_port in
            let i = deadline_of-insert_timer q x ts o n in ground arith,
      )
    ]
