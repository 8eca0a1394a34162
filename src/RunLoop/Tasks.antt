-- ===== src/RunLoop/Tasks.antt =====
-- The queue of tasks: its order, and how many of its tasks are ready.
use mojo.Prelude.{
  ℕ, suc, ◌+◌, ◌≡◌, refl, true, false, List, [], ◌∷◌, All, arith, if◌then◌else◌, Bool-cases, inl,
  inr,
}
use mojo.RunLoop.Queue.{InOrder, push-InOrder}
use mojo.RunLoop.{DelayedTaskInfo, task_less, push}

-- The tasks in the order in which they are due.
abbrev pub IsOrdered : List DelayedTaskInfo → Type 0
IsOrdered = InOrder task_less

task_less_trans :
    (a b c : DelayedTaskInfo) → task_less b a ≡ true → task_less b c ≡ false → task_less a c ≡ false
unfolding task_less
task_less_trans a b c p q = ground arith

task_less_asym : (a b : DelayedTaskInfo) → task_less b a ≡ true → task_less a b ≡ false
unfolding task_less
task_less_asym a b p = ground arith

-- What is not ready for `n` has nothing behind it that is.
task_less-none :
    (n a b : DelayedTaskInfo)
    → task_less n a ≡ false
    → task_less a b ≡ false
    → task_less n b ≡ false
unfolding task_less
task_less-none n a b p q = ground arith

pub push-IsOrdered :
    (x : DelayedTaskInfo) (ys : List DelayedTaskInfo)
    → IsOrdered ys
    → IsOrdered (push task_less x ys)
push-IsOrdered = push-InOrder task_less task_less_trans task_less_asym

-- How many tasks are greater than the fake task `n`.
unfoldable pub count_ready : DelayedTaskInfo → List DelayedTaskInfo → ℕ
count_ready n [] = 0
count_ready n (t ∷ ts) = (if task_less n t then 1 else 0) + count_ready n ts

pub count_ready-push :
    (n x : DelayedTaskInfo) (ys : List DelayedTaskInfo)
    → task_less n x ≡ false
    → count_ready n (push task_less x ys) ≡ count_ready n ys
unfolding count_ready push
count_ready-push n x [] e = rw e
count_ready-push n x (y ∷ ys) e = elim (Bool-cases (task_less y x)) [
  | inl e' ↦ rw (e', count_ready, e) (omega arith)
  | inr e' ↦ rw (e', count_ready, count_ready-push n x ys e)
]

count_ready-none :
    (n t : DelayedTaskInfo) (ts : List DelayedTaskInfo)
    → task_less n t ≡ false
    → All (λ u. task_less t u ≡ false) ts
    → count_ready n ts ≡ 0
unfolding count_ready
count_ready-none n t [] e h = refl
count_ready-none n t (u ∷ ts) e h =
    rw (task_less-none n t u e h.0) (omega (arith, count_ready-none n t ts e h.1))

-- If the first task is not ready, none is.
pub count_ready-top :
    (n t : DelayedTaskInfo) (ts : List DelayedTaskInfo)
    → task_less n t ≡ false
    → IsOrdered (t ∷ ts)
    → count_ready n (t ∷ ts) ≡ 0
unfolding count_ready
count_ready-top n t ts e h = rw e (omega (arith, count_ready-none n t ts e h.0))

pub count_ready-pop :
    (n t : DelayedTaskInfo) (ts : List DelayedTaskInfo)
    → task_less n t ≡ true
    → count_ready n (t ∷ ts) ≡ suc (count_ready n ts)
unfolding count_ready
count_ready-pop n t ts e = rw e (omega arith)

pub count_ready-nil : (n : DelayedTaskInfo) → count_ready n [] ≡ 0
unfolding count_ready
count_ready-nil n = refl
