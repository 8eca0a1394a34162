-- ===== src/RunLoop/Kept.antt =====
-- What a run of the loop changes by itself keeps what holds of it between two calls.
use mojo.Prelude.Maps.{erase, find, find-erase}
use mojo.Prelude.{
  ℕ, ◌≡◌, inl, inr, sym, ap, Bool, true, false, Option, none, List, [], ◌∷◌, option_cases,
}
use mojo.RunLoop.{HandlerDeadlineInfo, IdToHandlerInfoMap, RunState, RunLoop, deadline_less}
use mojo.RunLoop.Queue.{InOrder}
use mojo.RunLoop.Invariant.{Covers, IsLoop}
use mojo.RunLoop.Wakeup.{drop_stale, calculate_absolute_deadline, wait_deadline}

-- Entries that no handler needs may go.
pub pop-Covers :
    (hs : IdToHandlerInfoMap) (d : HandlerDeadlineInfo) (ds : List HandlerDeadlineInfo)
    → Covers hs (d ∷ ds)
    → find d.id hs ≡ none
    → Covers hs ds
pop-Covers hs d ds c stale k h found some_deadline = elim (c k h found some_deadline) [
  | inl p ↦ absurd (let q = ap (λ (x : HandlerDeadlineInfo). find x.id hs) p in cc)
  | inr p ↦ p
]

-- And that of a handler that goes too.
pub expire-Covers :
    (l : RunLoop) (d : HandlerDeadlineInfo) (ds : List HandlerDeadlineInfo)
    → IsLoop l
    → Covers l.handlers (d ∷ ds)
    → Covers (erase d.id l.handlers) ds
expire-Covers l d ds v c k h found some_deadline =
    let f = find-erase d.id k h l.handlers v.keys found in
    elim (c k h f.0 some_deadline) [
      | inl p ↦ absurd (f.1 (sym (ap (λ (x : HandlerDeadlineInfo). x.id) p)))
      | inr p ↦ p
    ]

pub drop_stale-InOrder :
    (hs : IdToHandlerInfoMap) (ds : List HandlerDeadlineInfo)
    → InOrder deadline_less ds
    → InOrder deadline_less (drop_stale hs ds)
unfolding drop_stale
drop_stale-InOrder hs [] o = tt
drop_stale-InOrder hs (d ∷ ds) o =
    option_cases (InOrder deadline_less) (find d.id hs) _ _ (λ _. drop_stale-InOrder hs ds o.1)
      (λ _ _. o)

pub drop_stale-Covers :
    (hs : IdToHandlerInfoMap) (ds : List HandlerDeadlineInfo)
    → Covers hs ds
    → Covers hs (drop_stale hs ds)
unfolding drop_stale
drop_stale-Covers hs [] c = c
drop_stale-Covers hs (d ∷ ds) c =
    option_cases (Covers hs) (find d.id hs) _ _
      (λ stale. drop_stale-Covers hs ds (pop-Covers hs d ds c stale)) (λ _ _. c)

calculate-IsLoop : (l : RunLoop) → IsLoop l → IsLoop (calculate_absolute_deadline l).1
unfolding calculate_absolute_deadline
calculate-IsLoop l v = record {
  tasks = v.tasks;
  deadlines = drop_stale-InOrder l.handlers l.handler_deadlines v.deadlines;
  keys = v.keys;
  entries = drop_stale-Covers l.handlers l.handler_deadlines v.entries;
}

pub wait_deadline-IsLoop :
    (quit_when_idle : Bool) (now : ℕ) (l : RunLoop)
    → IsLoop l
    → IsLoop (wait_deadline quit_when_idle now l).1
unfolding wait_deadline
wait_deadline-IsLoop true now l v = v
wait_deadline-IsLoop false now l v = calculate-IsLoop l v

-- The state of the run is no part of it.
pub set_state-IsLoop :
    (r : Option RunState) (l : RunLoop) → IsLoop l → IsLoop (record l { current_run_state = r })
set_state-IsLoop r l v = record {
  tasks = v.tasks;
  deadlines = v.deadlines;
  keys = v.keys;
  entries = v.entries;
}
