-- ===== src/Watcher/Requests.antt =====
-- The commands that Dart programs send to the watcher, HandleWatcherCommand of
-- public/platform/dart/dart_handle_watcher.h, and those that it refuses.
use mojo.Watcher.Invariant.{IsWatcher}
use mojo.Watcher.Commands.{
  Command, command_add_handle, command_remove_handle, command_close_handle, command_add_timer,
  command_shutdown_handle_watcher, number_of, command_at, set_data, add_command, remove_command,
  close_command, timer_command, shutdown_command, command_with, from_dart, command_of, signals_of,
  handle_of, perform, perform_command,
}
use mojo.Prelude.{ℕ, ◌<◌, ◌≡◌, refl, ap, ◌∙◌, none, some, Bool, true, false, ◌⊎◌, inl, inr, arith}
use mojo.Prelude.Maps.{find}
use mojo.Prelude.Run.{ok, fault, ◌>>=◌, Returns, Returns-some}
use mojo.Watcher.{
  HandleWatcherThreadState, HandleWatcherCommand, Outside, remove_handle, close_handle,
}
use mojo.Prelude.{word, ◌%◌, ◌/◌, option_cases}

command_of-set_data :
    (command : Command) (signals : ℕ)
    → (command_at (set_data command signals / 8) ≡ some command)
      × (set_data command signals % 8 ≡ signals % 8)
unfolding set_data number_of command_at
command_of-set_data command_add_handle signals = ground arith
command_of-set_data command_remove_handle signals = ground arith
command_of-set_data command_close_handle signals = ground arith
command_of-set_data command_add_timer signals = ground arith
command_of-set_data command_shutdown_handle_watcher signals = ground arith

-- What the watcher reads of a command, where it uses it.
abbrev pub Arrives : Command → ℕ → ℕ → ℕ → HandleWatcherCommand → Type 0
Arrives command_add_handle argument port signals c =
    (handle_of c ≡ argument) × (c.port ≡ port) × (signals_of c ≡ signals % 8)
Arrives command_remove_handle argument port signals c = handle_of c ≡ argument
Arrives command_close_handle argument port signals c = (handle_of c ≡ argument) × (c.port ≡ port)
Arrives command_add_timer argument port signals c =
    (c.handle_or_deadline ≡ argument) × (c.port ≡ port)
Arrives command_shutdown_handle_watcher argument port signals c = Unit {0}

-- A handle of 32 bits, and any deadline.
abbrev pub Fits : Command → ℕ → Type 0
Fits command_add_timer argument = Unit {0}
Fits command argument = argument < word

command_with-Arrives :
    (illegal_port argument port signals : ℕ) (command : Command)
    → Fits command argument
    → (command_of (command_with illegal_port command argument port signals) ≡ some command)
      × Arrives command argument port signals
          (command_with illegal_port command argument port signals)
unfolding command_with command_of handle_of signals_of add_command remove_command close_command
    timer_command shutdown_command
command_with-Arrives illegal_port argument port signals command_add_handle l =
    let (a, b) = command_of-set_data command_add_handle (signals % word) in
    (a, (omega arith, refl, b ∙ omega arith))
command_with-Arrives illegal_port argument port signals command_remove_handle l =
    ((command_of-set_data command_remove_handle 0).0, omega arith)
command_with-Arrives illegal_port argument port signals command_close_handle l =
    ((command_of-set_data command_close_handle 0).0, (omega arith, refl))
command_with-Arrives illegal_port argument port signals command_add_timer l =
    ((command_of-set_data command_add_timer 0).0, (refl, refl))
command_with-Arrives illegal_port argument port signals command_shutdown_handle_watcher l =
    ((command_of-set_data command_shutdown_handle_watcher 0).0, tt)

-- A command that a Dart program sends under a number that stands for one, with a handle that fits 32
-- bits, arrives as that command, with its handle or deadline, and its port and signals where it has
-- them, the signals cut to three bits.
pub from_dart-Arrives :
    (illegal_port number argument port signals : ℕ) (command : Command)
    → command_at number ≡ some command
    → Fits command argument
    → Returns
        (λ c. (command_of c ≡ some command) × Arrives command argument port signals c)
        (from_dart illegal_port number argument port signals)
unfolding from_dart
from_dart-Arrives illegal_port number argument port signals command h l =
    Returns-some _ (command_at number) _ _ command h
      (command_with-Arrives illegal_port argument port signals command l)

-- The commands that take a handle away.
abbrev pub removes : Command → Bool
removes command_remove_handle = true
removes command_close_handle = true
removes command = false

remove_handle-faults :
    (handle : ℕ) (w : HandleWatcherThreadState)
    → IsWatcher w
    → handle ≡ w.control_pipe_consumer_handle
    → remove_handle handle w ≡ fault
unfolding remove_handle
remove_handle-faults handle w g h =
    let f = g.listed w.control_pipe_consumer_handle 0 g.control in
    option_cases (λ r. r ≡ fault) (find handle w.handle_to_index_map) _ _ (λ n. ground arith)
      (λ i n. ground arith)

module _ (e : Outside) where
  open e use {State}

  close_handle-faults :
      (handle port : ℕ) (w : HandleWatcherThreadState) (s : State)
      → IsWatcher w
      → handle ≡ w.control_pipe_consumer_handle
      → close_handle e handle port false w s ≡ fault
  unfolding close_handle
  close_handle-faults handle port w s g h =
      let f = g.listed w.control_pipe_consumer_handle 0 g.control in
      option_cases (λ r. r ≡ fault) (find handle w.handle_to_index_map) _ _ (λ n. ground arith)
        (λ i n. ground arith)

  perform-faults :
      (command : Command) (c : HandleWatcherCommand) (w : HandleWatcherThreadState) (s : State)
      → IsWatcher w
      → handle_of c ≡ w.control_pipe_consumer_handle
      → removes command ≡ true
      → perform e command c w s ≡ fault
  unfolding perform
  perform-faults command_add_handle c w s g h r = cc
  perform-faults command_remove_handle c w s g h r =
      ap (λ q. q >>= (λ w'. ok (w', s))) (remove_handle-faults (handle_of c) w g h)
  perform-faults command_close_handle c w s g h r = close_handle-faults (handle_of c) c.port w s g h
  perform-faults command_add_timer c w s g h r = cc
  perform-faults command_shutdown_handle_watcher c w s g h r = cc

  pub perform_command-faults :
      (c : HandleWatcherCommand) (w : HandleWatcherThreadState) (s : State)
      → IsWatcher w
      → (command_of c ≡ none)
        ⊎ ((command : Command) × (command_of c ≡ some command)
            × (removes command ≡ true)
            × (handle_of c ≡ w.control_pipe_consumer_handle))
      → perform_command e c w s ≡ fault
  unfolding perform_command
  perform_command-faults c w s g h =
      option_cases (λ r. r ≡ fault) (command_of c) _ _ (λ n. refl)
        (λ command n. elim h [
          | inl m ↦ cc
          | inr (command', m, r, k) ↦ perform-faults command c w s g k (ground arith)
        ])
