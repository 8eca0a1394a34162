-- ===== src/RunLoop/Clock.antt =====
-- What the run loop relies on in its surroundings: a clock that does not go back.
use mojo.Prelude.{ℕ, ◌≤◌, ◌≡◌, length, All}
use mojo.System.{MojoResult}
use mojo.RunLoop.{Action, add_handler, remove_handler, post_delayed_task, quit, Surroundings, below}

-- `time s` is a time that has been reached. GetTimeTicksNow returns a time between that of the states
-- before and after it, and no other call takes time back.
pub record IsClock (e : Surroundings) : Type 0 where
  pub time : e.State → ℕ
  pub reads :
      (s : e.State)
      → (time s ≤ (e.get_time_ticks_now s).0)
        × ((e.get_time_ticks_now s).0 ≤ time (e.get_time_ticks_now s).1)
  pub adds : (h x c : ℕ) (s : e.State) → time s ≤ time (e.wait_set_add h x c s).1
  pub removes : (c : ℕ) (s : e.State) → time s ≤ time (e.wait_set_remove c s).1
  pub waits : (d n : ℕ) (s : e.State) → time s ≤ time (e.wait_set_wait d n s).1
  pub runs : (t : ℕ) (s : e.State) → time s ≤ time (e.run_task t s).1
  pub readies : (h i : ℕ) (s : e.State) → time s ≤ time (e.on_handle_ready h i s).1
  pub errs : (h i : ℕ) (r : MojoResult) (s : e.State) → time s ≤ time (e.on_handle_error h i r s).1

-- A task makes at most `k` calls on the loop.
abbrev pub CallsAtMost : Surroundings → ℕ → Type 0
CallsAtMost e k = (t : ℕ) (s : e.State) → length (e.run_task t s).0 ≤ k

-- A call that posts no task for a time that has passed.
abbrev pub IsAhead : Action → Type 0
IsAhead (add_handler _ _ _ _) = Unit
IsAhead (remove_handler _) = Unit
IsAhead (post_delayed_task _ delay) = below delay ≡ 0
IsAhead quit = Unit

-- No task posts another one with a delay below 0.
abbrev pub PostsAhead : Surroundings → Type 0
PostsAhead e = (t : ℕ) (s : e.State) → All IsAhead (e.run_task t s).0
