-- ===== src/Watcher/Keeps.antt =====
-- Whatever the commands are, the handle watcher of public/platform/dart/dart_handle_watcher.cc keeps its
-- tables in order.
use mojo.Watcher.Invariant.{IsWatcher}
use mojo.Watcher.Removes.{Kept, remove_handle-Kept}
use mojo.Watcher.Adds.{add_handle-Added}
use mojo.Watcher.Refines.{timers-IsWatcher}
use mojo.Watcher.Commands.{
  Command, command_add_handle, command_remove_handle, command_close_handle, command_add_timer,
  command_shutdown_handle_watcher, command_of, signals_of, handle_of, do_shutdown, perform,
  perform_command, process_control_message,
}
use mojo.Watcher.Loop.{fill, store_states, close_all, closed_handles, prune_closed_handles}
use mojo.System.Calls.{is_ok}
use mojo.Prelude.{
  ℕ, suc, ◌≡◌, refl, ap, ◌∙◌, Option, none, some, List, [], ◌∷◌, ◌==◌, Bool, true, false, not, ◌||◌,
  length,
}
use mojo.Prelude.Maps.{find}
use mojo.Prelude.Run.{
  Run, ◌>>=◌, Yields, Yields-bind, Yields-assert, Yields-option, Yields-any, Yields-map,
  Returns-Yields, Returns-map,
}
use mojo.Watcher.{
  HandleWatcherThreadState, HandleWatcherCommand, Outside, post_pruned, add_handle, remove_handle,
  close_handle, update_timer,
}

pub length-fill : (f : ℕ → ℕ) (xs : List ℕ) → length (fill f xs) ≡ length xs
unfolding fill
length-fill f [] = refl
length-fill f (x ∷ xs) = ap suc (length-fill (λ i. f (suc i)) xs)

pub store_states-Kept :
    (o : Option (ℕ → ℕ)) (w : HandleWatcherThreadState) → IsWatcher w → Kept w (store_states o w)
unfolding store_states
store_states-Kept none w g = (g, refl)
store_states-Kept (some f) w g = (
  record {
    signals_length = g.signals_length;
    states_length = length-fill f w.wait_many_signals_state ∙ g.states_length;
    ports_length = g.ports_length;
    map_length = g.map_length;
    ascends = g.ascends;
    found = g.found;
    listed = g.listed;
    control = g.control;
  },
  refl,
)

module _ (e : Outside) where
  open e use {State}

  abbrev pub Keeps : HandleWatcherThreadState → HandleWatcherThreadState × State → Type 0
  Keeps w (w', s') = Kept w w'

  -- What keeps the tables after what keeps them.
  pub Keeps-bind :
      (w : HandleWatcherThreadState) (r : Run (HandleWatcherThreadState × State))
      (k : HandleWatcherThreadState × State → Run (HandleWatcherThreadState × State))
      → Yields (Keeps w) r
      → ((w' : HandleWatcherThreadState) (s' : State)
          → IsWatcher w'
          → Yields (Keeps w') (k (w', s')))
      → Yields (Keeps w) (r >>= k)
  Keeps-bind w r k h next = Yields-bind (Keeps w) (Keeps w) r k h (λ (w', s') g.
      Yields-map (Keeps w') (Keeps w) (k (w', s')) (next w' s' g.0) (λ q c. (c.0, c.1 ∙ g.1)))

  add_handle-Keeps :
      (handle signals port : ℕ) (w : HandleWatcherThreadState) (s : State)
      → IsWatcher w
      → Yields (Keeps w) (add_handle e handle signals port w s)
  add_handle-Keeps handle signals port w s g =
      Returns-Yields (Keeps w) (add_handle e handle signals port w s) (
        Returns-map _ _ (add_handle e handle signals port w s)
          (add_handle-Added e handle signals port w s g) (λ r h. (h.0.keeps, h.0.same_control)))

  close_handle-Keeps :
      (handle port : ℕ) (pruning : Bool) (w : HandleWatcherThreadState) (s : State)
      → IsWatcher w
      → Yields (Keeps w) (close_handle e handle port pruning w s)
  unfolding close_handle
  close_handle-Keeps handle port pruning w s g =
      Yields-assert _ (not pruning || port == e.illegal_port) _ (
        Yields-option (Keeps w) (find handle w.handle_to_index_map) _ _ (λ f. (g, refl))
          (λ index f. Yields-assert _ (not (index == 0)) _ (
            Yields-bind _ _ (post_pruned e pruning index w _) _
              (Yields-any (post_pruned e pruning index w _))
              (λ s₂ u.
                Yields-bind _ _ (remove_handle handle w) _ (remove_handle-Kept handle w g)
                  (λ w' h. h)))))

  perform-Keeps :
      (command : Command) (c : HandleWatcherCommand) (w : HandleWatcherThreadState) (s : State)
      → IsWatcher w
      → Yields (Keeps w) (perform e command c w s)
  unfolding perform update_timer do_shutdown
  perform-Keeps command_add_handle c w s g =
      add_handle-Keeps (handle_of c) (signals_of c) c.port w s g
  perform-Keeps command_remove_handle c w s g =
      Yields-bind _ _ (remove_handle (handle_of c) w) _ (remove_handle-Kept (handle_of c) w g)
        (λ w' h. h)
  perform-Keeps command_close_handle c w s g = close_handle-Keeps (handle_of c) c.port false w s g
  perform-Keeps command_add_timer c w s g =
      (timers-IsWatcher (update_timer c.handle_or_deadline c.port w).timers w.shutdown w g, refl)
  perform-Keeps command_shutdown_handle_watcher c w s g = (timers-IsWatcher w.timers true w g, refl)

  pub process_control_message-Keeps :
      (w : HandleWatcherThreadState) (s : State)
      → IsWatcher w
      → Yields (Keeps w) (process_control_message e w s)
  unfolding process_control_message perform_command
  process_control_message-Keeps w s g =
      let r = e.mojo_read_message w.control_pipe_consumer_handle s in
      Yields-assert _ (is_ok r.0.result) _ (
        Yields-assert _ (r.0.num_bytes == 24) _ (
          Yields-assert _ (r.0.num_handles == 0) _ (
            Yields-option (Keeps w) (command_of r.0.command) _ _ (λ h. tt)
              (λ command h. perform-Keeps command r.0.command w r.1 g))))

  close_all-Keeps :
      (hs : List ℕ) (w : HandleWatcherThreadState) (s : State)
      → IsWatcher w
      → Yields (Keeps w) (close_all e hs w s)
  unfolding close_all
  close_all-Keeps [] w s g = (g, refl)
  close_all-Keeps (h ∷ hs) w s g =
      Keeps-bind w (close_handle e h e.illegal_port true w s) _
        (close_handle-Keeps h e.illegal_port true w s g) (λ w' s' g'. close_all-Keeps hs w' s' g')

  pub prune_closed_handles-Keeps :
      (valid : Bool) (w : HandleWatcherThreadState) (s : State)
      → IsWatcher w
      → Yields (Keeps w) (prune_closed_handles e valid w s)
  unfolding prune_closed_handles
  prune_closed_handles-Keeps valid w s g =
      Yields-bind _ _ (closed_handles e valid w s) _ (Yields-any (closed_handles e valid w s))
        (λ r u. close_all-Keeps r.0 w r.1 g)
