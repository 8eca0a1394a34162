-- ===== src/Watcher/Refines.antt =====
-- The commands of the handle watcher of public/platform/dart/dart_handle_watcher.cc as changes of a map
-- from handles to signals and ports.
use mojo.Watcher.Closes.{unbind, remove_handle-Changed, close_handle-Closed}
use mojo.Watcher.Invariant.{IsWatcher, bound}
use mojo.Watcher.Adds.{Changed, bind_one, refuse_port, add_handle-Added}
use mojo.Watcher.Commands.{
  Command, command_add_handle, command_remove_handle, command_close_handle, command_add_timer,
  command_shutdown_handle_watcher, command_of, signals_of, handle_of, do_shutdown, perform,
  perform_command,
}
use mojo.Prelude.{
  ℕ, ◌≡◌, ◌≢◌, refl, ◌∙◌, sym, Option, some, List, ◌==◌, if◌then◌else◌, Bool, true, false,
}
use mojo.Prelude.Run.{Returns, Returns-map, Returns-bind, Returns-some}
use mojo.Watcher.{
  HandleWatcherThreadState, HandleWatcherTimer, HandleWatcherCommand, Outside, post_null,
  add_handle, remove_handle, close_handle, update_timer,
}

-- Neither the timers nor the flag are part of the tables.
pub timers-IsWatcher :
    (ts : List HandleWatcherTimer) (b : Bool) (w : HandleWatcherThreadState)
    → IsWatcher w
    → IsWatcher (record w { timers = ts; shutdown = b })
timers-IsWatcher ts b w g = record {
  signals_length = g.signals_length;
  states_length = g.states_length;
  ports_length = g.ports_length;
  map_length = g.map_length;
  ascends = g.ascends;
  found = g.found;
  listed = g.listed;
  control = g.control;
}

module _ (e : Outside) where
  open e use {State}

  -- The map after a command.
  abbrev pub after_command :
      Command → HandleWatcherCommand → (ℕ → Option (ℕ × ℕ)) → ℕ → Option (ℕ × ℕ)
  after_command command_add_handle c b =
      λ k. if k == handle_of c then bind_one (signals_of c) c.port (b k) else b k
  after_command command_remove_handle c b = unbind (handle_of c) b
  after_command command_close_handle c b = unbind (handle_of c) b
  after_command command_add_timer c b = b
  after_command command_shutdown_handle_watcher c b = b

  -- What a command does outside the watcher.
  abbrev pub outside_of : Command → HandleWatcherCommand → (ℕ → Option (ℕ × ℕ)) → State → State
  outside_of command_add_handle c b s = refuse_port e c.port (b (handle_of c)) s
  outside_of command_remove_handle c b s = s
  outside_of command_close_handle c b s = post_null e c.port (e.mojo_close (handle_of c) s)
  outside_of command_add_timer c b s = s
  outside_of command_shutdown_handle_watcher c b s = s

  -- The timers and the flag after a command.
  abbrev pub timers_after :
      Command → HandleWatcherCommand → HandleWatcherThreadState → List HandleWatcherTimer
  timers_after command_add_timer c w = (update_timer c.handle_or_deadline c.port w).timers
  timers_after command c w = w.timers

  abbrev pub shutdown_after : Command → Bool → Bool
  shutdown_after command_shutdown_handle_watcher old = true
  shutdown_after command old = old

  pub record Performed (command : Command) (c : HandleWatcherCommand) (w : HandleWatcherThreadState)
      (s : State) (r : HandleWatcherThreadState × State) : Type 0 where
    pub keeps : IsWatcher r.0
    pub binds : (k : ℕ) → bound r.0 k ≡ after_command command c (bound w) k
    pub does : r.1 ≡ outside_of command c (bound w) s
    pub times : r.0.timers ≡ timers_after command c w
    pub shuts : r.0.shutdown ≡ shutdown_after command w.shutdown
    pub same_control : r.0.control_pipe_consumer_handle ≡ w.control_pipe_consumer_handle

  Changed-Performed :
      (command : Command) (c : HandleWatcherCommand) (w : HandleWatcherThreadState) (s : State)
      (r : HandleWatcherThreadState × State)
      → Changed w (after_command command c (bound w)) r.0
      → r.1 ≡ outside_of command c (bound w) s
      → timers_after command c w ≡ w.timers
      → shutdown_after command w.shutdown ≡ w.shutdown
      → Performed command c w s r
  Changed-Performed command c w s r h d t u = record {
    keeps = h.keeps;
    binds = h.binds;
    does = d;
    times = h.same_timers ∙ sym t;
    shuts = h.same_shutdown ∙ sym u;
    same_control = h.same_control;
  }

  perform-Performed :
      (command : Command) (c : HandleWatcherCommand) (w : HandleWatcherThreadState) (s : State)
      → IsWatcher w
      → handle_of c ≢ w.control_pipe_consumer_handle
      → Returns (Performed command c w s) (perform e command c w s)
  unfolding perform update_timer do_shutdown
  perform-Performed command_add_handle c w s g n =
      Returns-map _ _ (add_handle e (handle_of c) (signals_of c) c.port w s)
        (add_handle-Added e (handle_of c) (signals_of c) c.port w s g)
        (λ r p. Changed-Performed command_add_handle c w s r p.0 p.1 refl refl)
  perform-Performed command_remove_handle c w s g n =
      Returns-bind _ _ (remove_handle (handle_of c) w) _ (remove_handle-Changed (handle_of c) w g n)
        (λ w' p. Changed-Performed command_remove_handle c w s (w', s) p refl refl refl)
  perform-Performed command_close_handle c w s g n =
      Returns-map _ _ (close_handle e (handle_of c) c.port false w s)
        (close_handle-Closed e (handle_of c) c.port false w s g n refl)
        (λ r p. Changed-Performed command_close_handle c w s r p.0 p.1 refl refl)
  perform-Performed command_add_timer c w s g n = record {
    keeps = timers-IsWatcher (update_timer c.handle_or_deadline c.port w).timers w.shutdown w g;
    binds = λ k. refl;
    does = refl;
    times = refl;
    shuts = refl;
    same_control = refl;
  }
  perform-Performed command_shutdown_handle_watcher c w s g n = record {
    keeps = timers-IsWatcher w.timers true w g;
    binds = λ k. refl;
    does = refl;
    times = refl;
    shuts = refl;
    same_control = refl;
  }

  -- In tables in good order a command that does not name the control handle fails no check, keeps the
  -- tables in order, and changes what is bound to each handle, the timers, the flag and the world
  -- outside as after_command, timers_after, shutdown_after and outside_of say.
  pub perform_command-Performed :
      (command : Command) (c : HandleWatcherCommand) (w : HandleWatcherThreadState) (s : State)
      → IsWatcher w
      → command_of c ≡ some command
      → handle_of c ≢ w.control_pipe_consumer_handle
      → Returns (Performed command c w s) (perform_command e c w s)
  unfolding perform_command
  perform_command-Performed command c w s g h n =
      Returns-some (Performed command c w s) (command_of c) _ _ command h
        (perform-Performed command c w s g n)
