-- ===== src/Watcher/Commands.antt =====
-- The commands for a handle watcher: HandleWatcherCommand of dart_handle_watcher.h, and what the
-- watcher does with one.
use mojo.Prelude.{ℕ, ◌+◌, ◌*◌, ◌/◌, ◌%◌, true, false, Option, none, some, ◌==◌, if◌then◌else◌, word}
use mojo.Prelude.Run.{Run, ok, fault, ◌>>=◌, assert}
use mojo.System.Calls.{is_ok}
use mojo.Watcher.{
  HandleWatcherThreadState, HandleWatcherCommand, Outside, add_handle, remove_handle, close_handle,
  update_timer,
}

-- `HandleWatcherCommand::Command`.
pub data Command : Type 0 where
  command_add_handle command_remove_handle command_close_handle : Command
  command_add_timer command_shutdown_handle_watcher : Command

unfoldable pub number_of : Command → ℕ
number_of command_add_handle = 0
number_of command_remove_handle = 1
number_of command_close_handle = 2
number_of command_add_timer = 3
number_of command_shutdown_handle_watcher = 4

unfoldable pub command_at : ℕ → Option Command
command_at number =
    if number == 0
    then some command_add_handle
    else if number == 1
    then some command_remove_handle
    else if number == 2
    then some command_close_handle
    else if number == 3
    then some command_add_timer
    else if number == 4
    then some command_shutdown_handle_watcher
    else none

-- `HandleWatcherCommand::set_data`; MOJO_HANDLE_SIGNAL_ALL has three bits.
unfoldable pub set_data : Command → ℕ → ℕ
unfolding number_of
set_data command signals = number_of command * 8 + signals % 8

-- `HandleWatcherCommand::Add`, `Remove`, `Close`, `Timer` and `Shutdown`. MOJO_HANDLE_INVALID and
-- MOJO_HANDLE_SIGNAL_NONE are 0.
unfoldable pub add_command : ℕ → ℕ → ℕ → HandleWatcherCommand
unfolding set_data
add_command handle signals port = record {
  handle_or_deadline = handle;
  port = port;
  data_bits = set_data command_add_handle signals;
}

unfoldable pub remove_command : ℕ → ℕ → HandleWatcherCommand
unfolding set_data
remove_command illegal_port handle = record {
  handle_or_deadline = handle;
  port = illegal_port;
  data_bits = set_data command_remove_handle 0;
}

unfoldable pub close_command : ℕ → ℕ → HandleWatcherCommand
unfolding set_data
close_command handle port = record {
  handle_or_deadline = handle;
  port = port;
  data_bits = set_data command_close_handle 0;
}

unfoldable pub timer_command : ℕ → ℕ → HandleWatcherCommand
unfolding set_data
timer_command deadline port = record {
  handle_or_deadline = deadline;
  port = port;
  data_bits = set_data command_add_timer 0;
}

unfoldable pub shutdown_command : ℕ → HandleWatcherCommand
unfolding set_data
shutdown_command illegal_port = record {
  handle_or_deadline = 0;
  port = illegal_port;
  data_bits = set_data command_shutdown_handle_watcher 0;
}

-- `HandleWatcherCommand::FromDart`. A handle is an integer of 32 bits.
unfoldable pub command_with : ℕ → Command → ℕ → ℕ → ℕ → HandleWatcherCommand
unfolding add_command remove_command close_command timer_command shutdown_command
command_with illegal_port command_add_handle handle port signals =
    add_command (handle % word) (signals % word) port
command_with illegal_port command_remove_handle handle port signals =
    remove_command illegal_port (handle % word)
command_with illegal_port command_close_handle handle port signals =
    close_command (handle % word) port
command_with illegal_port command_add_timer deadline port signals = timer_command deadline port
command_with illegal_port command_shutdown_handle_watcher handle port signals =
    shutdown_command illegal_port

unfoldable pub from_dart : ℕ → ℕ → ℕ → ℕ → ℕ → Run HandleWatcherCommand
unfolding command_at command_with
from_dart illegal_port command handle_or_deadline port signals = elim (command_at command) [
  | none ↦ fault
  | some c ↦ ok (command_with illegal_port c handle_or_deadline port signals)
]

-- `HandleWatcherCommand::command`, `signals` and `handle`.
unfoldable pub command_of : HandleWatcherCommand → Option Command
unfolding command_at
command_of c = command_at (c.data_bits / 8)

unfoldable pub signals_of : HandleWatcherCommand → ℕ
signals_of c = c.data_bits % 8

unfoldable pub handle_of : HandleWatcherCommand → ℕ
handle_of c = c.handle_or_deadline % word

-- `HandleWatcherThreadState::Shutdown`.
unfoldable pub do_shutdown : HandleWatcherThreadState → HandleWatcherThreadState
do_shutdown w = record w { shutdown = true }

module _ (e : Outside) where
  open e use {State}

  -- The switch of ProcessControlMessage.
  unfoldable pub perform :
      Command
      → HandleWatcherCommand
      → HandleWatcherThreadState
      → State
      → Run (HandleWatcherThreadState × State)
  unfolding signals_of handle_of add_handle remove_handle close_handle update_timer do_shutdown
  perform command_add_handle c w s = add_handle e (handle_of c) (signals_of c) c.port w s
  perform command_remove_handle c w s = do w' ← remove_handle (handle_of c) w; ok (w', s)
  perform command_close_handle c w s = close_handle e (handle_of c) c.port false w s
  perform command_add_timer c w s = ok (update_timer c.handle_or_deadline c.port w, s)
  perform command_shutdown_handle_watcher c w s = ok (do_shutdown w, s)

  unfoldable pub perform_command :
      HandleWatcherCommand
      → HandleWatcherThreadState
      → State
      → Run (HandleWatcherThreadState × State)
  unfolding command_of perform
  perform_command c w s = elim (command_of c) [
    | none ↦ fault
    | some command ↦ perform command c w s
  ]

  -- `HandleWatcherThreadState::ProcessControlMessage`; a command has 24 bytes.
  unfoldable pub process_control_message :
      HandleWatcherThreadState → State → Run (HandleWatcherThreadState × State)
  unfolding perform_command is_ok
  process_control_message w s =
      let (reply, s') = e.mojo_read_message w.control_pipe_consumer_handle s in
      assert (is_ok reply.result) (
        assert (reply.num_bytes == 24)
          (assert (reply.num_handles == 0) (perform_command reply.command w s')))
