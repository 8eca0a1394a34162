-- ===== src/Watcher/Threads.antt =====
-- The handle watchers of a process: HandleWatcher of public/platform/dart/dart_handle_watcher.cc. Each
-- function that uses the map of threads holds a lock while it does.
use mojo.Watcher.Commands.{shutdown_command}
use mojo.Prelude.{ℕ, ◌≡◌, refl, ap, ◌∙◌, not, Option, none, some, List, [], ◌∷◌, arith}
use mojo.Prelude.Maps.{find, erase, assign}
use mojo.Prelude.Run.{Run, ok, fault, ◌>>=◌, assert}
use mojo.System.Calls.{is_some}
use mojo.Watcher.{HandleWatcherCommand}

-- The system and the threads. A new message pipe has a consumer and a producer.
pub record Process : Type 1 where
  pub State : Type 0
  pub illegal_port : ℕ
  pub mojo_create_message_pipe : State → Option (ℕ × ℕ) × State
  pub mojo_write_message : ℕ → HandleWatcherCommand → State → State
  pub mojo_close : ℕ → State → State
  pub new_thread : ℕ → State → ℕ × State
  pub join : ℕ → State → State

-- `handle_watcher_threads_`, in the order of the handles.
abbrev pub HandleWatcherThreads : Type 0
HandleWatcherThreads = List (ℕ × ℕ)

-- `HandleWatcher::RemoveLocked`.
unfoldable pub remove_locked : ℕ → HandleWatcherThreads → Option ℕ × HandleWatcherThreads
unfolding find erase
remove_locked handle m = (find handle m, erase handle m)

unfoldable pub control_handles : HandleWatcherThreads → List ℕ
control_handles [] = []
control_handles ((handle, t) ∷ m) = handle ∷ control_handles m

module _ (p : Process) where
  open p use {State}

  -- `HandleWatcher::Start`.
  unfoldable pub start : HandleWatcherThreads → State → Run ((ℕ × HandleWatcherThreads) × State)
  unfolding is_some find assign
  start m s =
      let (pipe, s₁) = p.mojo_create_message_pipe s in
      elim pipe [
        | none ↦ ok ((0, m), s₁)
        | some ends ↦
            let (t, s₂) = p.new_thread ends.0 s₁ in
            assert (not (is_some (find ends.1 m))) (ok ((ends.1, assign ends.1 t m), s₂))
      ]

  -- `HandleWatcher::SendCommand`, whose result the functions here do not read.
  unfoldable pub send_command : ℕ → HandleWatcherCommand → State → State
  send_command handle command s = p.mojo_write_message handle command s

  -- The thread of a handle is shut down and waited for, and the handle is closed.
  unfoldable pub finish : ℕ → ℕ → State → State
  unfolding send_command shutdown_command
  finish handle t s =
      p.mojo_close handle (p.join t (send_command handle (shutdown_command p.illegal_port) s))

  -- `HandleWatcher::Stop`.
  unfoldable pub stop : ℕ → HandleWatcherThreads → State → HandleWatcherThreads × State
  unfolding remove_locked finish
  stop handle m s =
      let (thread, m') = remove_locked handle m in
      elim thread [ none ↦ (m', s) | some t ↦ (m', finish handle t s) ]

  -- `HandleWatcher::StopLocked`.
  unfoldable pub stop_locked : ℕ → HandleWatcherThreads → State → Run (HandleWatcherThreads × State)
  unfolding remove_locked finish
  stop_locked handle m s =
      let (thread, m') = remove_locked handle m in
      elim thread [ none ↦ fault | some t ↦ ok (m', finish handle t s) ]

  unfoldable pub stop_each :
      List ℕ → HandleWatcherThreads → State → Run (HandleWatcherThreads × State)
  unfolding stop_locked
  stop_each [] m s = ok (m, s)
  stop_each (handle ∷ handles) m s = do (m', s') ← stop_locked handle m s; stop_each handles m' s'

  -- `HandleWatcher::StopAll`.
  unfoldable pub stop_all : HandleWatcherThreads → State → Run (HandleWatcherThreads × State)
  unfolding control_handles stop_each
  stop_all m s = stop_each (control_handles m) m s

  -- Each thread is finished, in the order of the map.
  abbrev pub finish_all : HandleWatcherThreads → State → State
  finish_all [] s = s
  finish_all ((handle, t) ∷ m) s = finish_all m (finish handle t s)

  stop_locked-head :
      (handle t : ℕ) (m : HandleWatcherThreads) (s : State)
      → stop_locked handle ((handle, t) ∷ m) s ≡ ok (m, finish handle t s)
  unfolding stop_locked remove_locked find erase
  stop_locked-head handle t m s = ground arith

  -- StopAll finishes every thread, and leaves none in the map: none of its checks fails.
  pub stop_all-finish_all :
      (m : HandleWatcherThreads) (s : State) → stop_all m s ≡ ok ([], finish_all m s)
  unfolding stop_all stop_each control_handles
  stop_all-finish_all [] s = refl
  stop_all-finish_all ((handle, t) ∷ m) s =
      ap (λ r. r >>= (λ (m', s'). stop_each (control_handles m) m' s'))
        (stop_locked-head handle t m s)
      ∙ stop_all-finish_all m (finish handle t s)
