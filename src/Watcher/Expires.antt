-- ===== src/Watcher/Expires.antt =====
-- The timers that ProcessTimers of public/platform/dart/dart_handle_watcher.cc completes, and the deadline
-- of the wait that follows. The clock is read anew after each timer, and may have any time then.
use mojo.Prelude.{
  ℕ, ◌+◌, ◌-◌, ◌*◌, ◌/◌, ◌%◌, ◌≤◌, ◌<◌, ◌≡◌, refl, ap, List, [], ◌∷◌, ◌++◌, leb, if◌then◌else◌,
  true, false, if_split, All, arith,
}
use mojo.Watcher.{HandleWatcherTimer, HandleWatcherThreadState, Outside, post_null}
use mojo.Watcher.Loop.{
  two_64, get_dart_time_in_millis, complete_timers, process_timers, wait_deadline,
}
use mojo.Watcher.Timers.{IsTimerSet, All-later}

wait_early :
    (now d : ℕ)
    → d < 0x8000000000000000 / 1000
    → leb now d ≡ true
    → (d + two_64 - now) * 1000 % two_64 ≡ (d - now) * 1000
wait_early now d k l = let h : now ≤ d = ground arith in omega arith

wait_late :
    (now d : ℕ)
    → now < 0x8000000000000000 / 1000 + 1
    → leb now d ≡ false
    → (d + two_64 - now) * 1000 % two_64 ≡ two_64 - (now - d) * 1000
wait_late now d k l = let h : d < now = ground arith in omega arith

module _ (e : Outside) where
  open e use {State}

  -- The milliseconds that the clock shows once some timers' ports have been told, one after the other,
  -- and the clock read after each.
  abbrev pub last_read : List HandleWatcherTimer → ℕ × State → ℕ × State
  last_read [] q = q
  last_read (t ∷ ts) (now, s) = last_read ts (get_dart_time_in_millis e (post_null e t.port s))

  -- Each of some timers has a deadline that the clock had reached when it was read last before its
  -- port was told.
  abbrev pub AllDue : List HandleWatcherTimer → ℕ × State → Type 0
  AllDue [] q = Unit
  AllDue (t ∷ ts) (now, s) =
      (t.deadline ≤ now) × AllDue ts (get_dart_time_in_millis e (post_null e t.port s))

  -- From a first reading of the clock, some timers, the first ones, are completed, each of them due;
  -- the deadlines of the others are later than the last reading.
  pub record Completed (before : List HandleWatcherTimer) (q : ℕ × State)
      (after : List HandleWatcherTimer) (s' : State) : Type 0 where
    pub completed : List HandleWatcherTimer
    pub split : before ≡ completed ++ after
    pub told : (last_read completed q).1 ≡ s'
    pub due : AllDue completed q
    pub left : All (λ t. (last_read completed q).0 < t.deadline) after

  none-Completed :
      (t : HandleWatcherTimer) (ts : List HandleWatcherTimer) (now : ℕ) (s : State)
      → IsTimerSet (t ∷ ts)
      → leb t.deadline now ≡ false
      → Completed (t ∷ ts) (now, s) (t ∷ ts) s
  none-Completed t ts now s h n = record {
    completed = [];
    split = refl;
    told = refl;
    due = tt;
    left = (ground arith, All-later now t.deadline ts (ground arith) h.0);
  }

  one-Completed :
      (t : HandleWatcherTimer) (ts ts' : List HandleWatcherTimer) (now : ℕ) (s s' : State)
      → leb t.deadline now ≡ true
      → Completed ts (get_dart_time_in_millis e (post_null e t.port s)) ts' s'
      → Completed (t ∷ ts) (now, s) ts' s'
  one-Completed t ts ts' now s s' l c = record {
    completed = t ∷ c.completed;
    split = ap (λ us. t ∷ us) c.split;
    told = c.told;
    due = (ground arith, c.due);
    left = c.left;
  }

  abbrev Completes : List HandleWatcherTimer → ℕ × State → List HandleWatcherTimer × State → Type 0
  Completes ts q (ts', s') = Completed ts q ts' s'

  complete_timers-Completed :
      (ts : List HandleWatcherTimer) (now : ℕ) (s : State)
      → IsTimerSet ts
      → Completes ts (now, s) (complete_timers e now ts s)
  unfolding complete_timers
  complete_timers-Completed [] now s h = record {
    completed = [];
    split = refl;
    told = refl;
    due = tt;
    left = tt;
  }
  complete_timers-Completed (t ∷ ts) now s h =
      let (now', s') = get_dart_time_in_millis e (post_null e t.port s) in
      if_split (Completes (t ∷ ts) (now, s)) (leb t.deadline now) _ _
        (λ l. one-Completed t ts _ now s _ l (complete_timers-Completed ts now' s' h.1))
        (λ l. none-Completed t ts now s h l)

  -- ProcessTimers, on timers in order, completes some timers, the first ones, in the order of their
  -- deadlines, and each of them only once the time read last before it is told has reached its
  -- deadline; the deadlines of those that are left are later than the last time it reads, which is
  -- read after the last timer is told.
  pub process_timers-Completed :
      (w : HandleWatcherThreadState) (s : State)
      → IsTimerSet w.timers
      → Completed w.timers
          (get_dart_time_in_millis e s)
          (process_timers e w s).0.timers
          (process_timers e w s).1
  unfolding process_timers
  process_timers-Completed w s h =
      let (now, s') = get_dart_time_in_millis e s in complete_timers-Completed w.timers now s' h

  -- With the clock and the first deadline below 2 ^ 63 microseconds the wait lasts until the first
  -- deadline, where the time that WaitDeadline reads has not passed it; where it has, the microseconds
  -- that it is late are taken from 2 ^ 64, which leaves a wait of some 500,000 years.
  pub wait_deadline_lem :
      (t : HandleWatcherTimer) (ts : List HandleWatcherTimer) (s : State)
      → (e.mojo_get_time_ticks_now s).0 < 0x8000000000000000
      → t.deadline < 0x8000000000000000 / 1000
      → let now = (e.mojo_get_time_ticks_now s).0 / 1000 in
        (wait_deadline e (t ∷ ts) s).0 ≡ (
          if leb now t.deadline
          then (t.deadline - now) * 1000
          else two_64 - (now - t.deadline) * 1000)
  unfolding wait_deadline get_dart_time_in_millis
  wait_deadline_lem t ts s h k =
      let now = (e.mojo_get_time_ticks_now s).0 / 1000 in
      if_split (λ x. (wait_deadline e (t ∷ ts) s).0 ≡ x) (leb now t.deadline) _ _
        (λ l. wait_early now t.deadline k l) (λ l. wait_late now t.deadline (omega arith) l)
