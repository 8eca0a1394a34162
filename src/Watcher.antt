-- ===== src/Watcher.antt =====
-- The handle watcher of Dart programs: HandleWatcherThreadState of
-- public/platform/dart/dart_handle_watcher.cc, its tables of handles and its timers.
pub mod Commands
pub mod Loop
pub mod Vectors
pub mod Invariant
pub mod Removes
pub mod Tables
pub mod Adds
pub mod Closes
pub mod Refines
pub mod Ready
pub mod Waits
pub mod Timers
pub mod Expires
pub mod Keeps
pub mod Sessions
pub mod Stops
pub mod Requests
pub mod Threads
use Prim.Native.Nat.{bit_or}
use mojo.Prelude.{
  ℕ, zero, suc, ◌+◌, ◌-◌, ◌*◌, ◌/◌, ◌%◌, Bool, true, false, not, ◌&&◌, ◌||◌, Option, none, some,
  List, [], ◌∷◌, ◌++◌, ltb, leb, ◌==◌, if◌then◌else◌, length, get_elem?, set,
}
use mojo.Prelude.Maps.{find, erase, assign}
use mojo.Prelude.Run.{Run, ok, fault, ◌>>=◌, access, assert}
use mojo.System.{MojoResult}

-- `HandleWatcherTimer`.
pub record HandleWatcherTimer : Type 0 where
  pub deadline : ℕ
  pub port : ℕ

-- `HandleWatcherThreadState`; of a signals state only the satisfied signals are read.
pub record HandleWatcherThreadState : Type 0 where
  pub shutdown : Bool
  pub control_pipe_consumer_handle : ℕ
  pub wait_many_handles : List ℕ
  pub wait_many_signals : List ℕ
  pub wait_many_signals_state : List ℕ
  pub handle_ports : List ℕ
  pub handle_to_index_map : List (ℕ × ℕ)
  pub timers : List HandleWatcherTimer

-- `HandleWatcherCommand`, with its integers as the 64 bits that they are.
pub record HandleWatcherCommand : Type 0 where
  pub handle_or_deadline : ℕ
  pub port : ℕ
  pub data_bits : ℕ

-- What MojoReadMessage returns and stores.
pub record ReadReply : Type 0 where
  pub result : MojoResult
  pub command : HandleWatcherCommand
  pub num_bytes : ℕ
  pub num_handles : ℕ

-- What MojoWaitMany returns, and the satisfied signals that it stores for each index, if any.
pub record WaitManyReply : Type 0 where
  pub result : MojoResult
  pub satisfied : Option (ℕ → ℕ)

-- The system and the Dart virtual machine. None of them is part of the watcher: they are a parameter,
-- with a state of their own.
pub record Outside : Type 1 where
  pub State : Type 0
  pub illegal_port : ℕ
  pub dart_post_null : ℕ → State → State
  pub dart_post_integer : ℕ → ℕ → State → State
  pub mojo_close : ℕ → State → State
  pub mojo_get_time_ticks_now : State → ℕ × State
  pub mojo_wait : ℕ → ℕ → ℕ → State → MojoResult × State
  pub mojo_wait_many : List ℕ → List ℕ → ℕ → State → WaitManyReply × State
  pub mojo_read_message : ℕ → State → ReadReply × State

-- MOJO_HANDLE_SIGNAL_READABLE, MOJO_HANDLE_SIGNAL_PEER_CLOSED and MOJO_HANDLE_SIGNAL_ALL.
abbrev pub signal_readable : ℕ
signal_readable = 1

abbrev pub signal_peer_closed : ℕ
signal_peer_closed = 4

abbrev pub signal_all : ℕ
signal_all = 7

-- The integers of 64 bits that are negative.
unfoldable pub is_negative : ℕ → Bool
is_negative bits = leb 0x8000000000000000 bits

-- `vector::pop_back`, which needs an element.
unfoldable pub drop_last {ℓ} : {A : Type ℓ} → List A → List A
drop_last [] = []
drop_last (x ∷ []) = []
drop_last (x ∷ y ∷ xs) = x ∷ drop_last (y ∷ xs)

unfoldable pub pop_back : {A : Type 0} → List A → Run (List A)
unfolding drop_last
pop_back [] = fault
pop_back (x ∷ xs) = ok (drop_last (x ∷ xs))

-- What becomes of a vector in RemoveHandleAtIndex: the last element takes the place of the removed one.
unfoldable pub swap_out : {A : Type 0} → ℕ → ℕ → List A → Run (List A)
unfolding pop_back
swap_out index last_index xs = if index == last_index then pop_back xs else (do
  last ← access (get_elem? xs last_index)
  removed ← access (get_elem? xs index)
  pop_back (set xs index last))

-- `HandleWatcherThreadState::RemoveHandleAtIndex`.
unfoldable pub remove_handle_at_index : ℕ → HandleWatcherThreadState → Run HandleWatcherThreadState
unfolding swap_out erase assign
remove_handle_at_index index w = assert (not (index == 0)) (
    let last_index = length w.wait_many_handles - 1 in
    (do
      removed ← access (get_elem? w.wait_many_handles index)
      last ← access (get_elem? w.wait_many_handles last_index)
      handles ← swap_out index last_index w.wait_many_handles
      signals ← swap_out index last_index w.wait_many_signals
      states ← swap_out index last_index w.wait_many_signals_state
      ports ← swap_out index last_index w.handle_ports
      let erased = erase removed w.handle_to_index_map
      let map = if index == last_index then erased else assign last index erased
      assert (leb 1 (length handles)) (
          assert (length handles == length map) (
            ok (record w {
              wait_many_handles = handles;
              wait_many_signals = signals;
              wait_many_signals_state = states;
              handle_ports = ports;
              handle_to_index_map = map;
            })))))

-- `HandleWatcherThreadState::RemoveHandle`.
unfoldable pub remove_handle : ℕ → HandleWatcherThreadState → Run HandleWatcherThreadState
unfolding find remove_handle_at_index
remove_handle handle w = elim (find handle w.handle_to_index_map) [
  | none ↦ ok w
  | some index ↦ assert (not (index == 0)) (remove_handle_at_index index w)
]

-- `timers_.erase` of the first timer with the port.
unfoldable pub erase_timer : ℕ → List HandleWatcherTimer → List HandleWatcherTimer
erase_timer port [] = []
erase_timer port (t ∷ ts) = if t.port == port then ts else t ∷ erase_timer port ts

-- `std::set::insert`, in the order of the deadlines; a timer with the same deadline keeps a new one
-- out.
unfoldable pub insert_timer : HandleWatcherTimer → List HandleWatcherTimer → List HandleWatcherTimer
insert_timer x [] = x ∷ []
insert_timer x (t ∷ ts) =
    if ltb x.deadline t.deadline
    then x ∷ t ∷ ts
    else if ltb t.deadline x.deadline
    then t ∷ insert_timer x ts
    else t ∷ ts

-- `HandleWatcherThreadState::UpdateTimer`.
unfoldable pub update_timer : ℕ → ℕ → HandleWatcherThreadState → HandleWatcherThreadState
unfolding erase_timer insert_timer is_negative
update_timer deadline port w =
    let timers = erase_timer port w.timers in
    record w {
      timers =
          if is_negative deadline
          then timers
          else insert_timer (record { deadline = deadline; port = port }) timers;
    }

module _ (e : Outside) where
  open e use {State}

  unfoldable pub post_null : ℕ → State → State
  post_null port s = if port == e.illegal_port then s else e.dart_post_null port s

  unfoldable pub post_signal : ℕ → ℕ → State → State
  post_signal port signalled s =
      if port == e.illegal_port then s else e.dart_post_integer port signalled s

  -- The half of `HandleWatcherThreadState::AddHandle` for a handle that is in the map.
  unfoldable pub bind_again :
      ℕ → ℕ → ℕ → ℕ → HandleWatcherThreadState → State → Run (HandleWatcherThreadState × State)
  unfolding post_signal
  bind_again index handle signals port w s = do
    there ← access (get_elem? w.wait_many_handles index)
    assert (there == handle) (do
      bound_port ← access (get_elem? w.handle_ports index)
      if not (bound_port == port) then ok (w, post_signal port signal_peer_closed s) else (do
        bound_signals ← access (get_elem? w.wait_many_signals index)
        assert (length w.wait_many_handles == length w.handle_to_index_map) (
            ok (
              record w {
                wait_many_signals = set w.wait_many_signals index (bit_or bound_signals signals);
              },
              s,
            ))))

  -- `HandleWatcherThreadState::AddHandle`.
  unfoldable pub add_handle :
      ℕ → ℕ → ℕ → HandleWatcherThreadState → State → Run (HandleWatcherThreadState × State)
  unfolding bind_again find assign
  add_handle handle signals port w s = elim (find handle w.handle_to_index_map) [
    | some index ↦ bind_again index handle signals port w s
    | none ↦
        let handles = w.wait_many_handles ++ (handle ∷ []) in
        let map = assign handle (length w.wait_many_handles) w.handle_to_index_map in
        assert (length handles == length map) (
          ok (
            record w {
              wait_many_handles = handles;
              wait_many_signals = w.wait_many_signals ++ (signals ∷ []);
              wait_many_signals_state = w.wait_many_signals_state ++ (0 ∷ []);
              handle_ports = w.handle_ports ++ (port ∷ []);
              handle_to_index_map = map;
            },
            s,
          ))
  ]

  -- The PEER_CLOSED that CloseHandle sends to the port of a handle that it prunes.
  unfoldable pub post_pruned : Bool → ℕ → HandleWatcherThreadState → State → Run State
  unfolding post_signal
  post_pruned pruning index w s =
      if pruning
      then (do
        port ← access (get_elem? w.handle_ports index)
        ok (post_signal port signal_peer_closed s))
      else ok s

  -- `HandleWatcherThreadState::CloseHandle`.
  unfoldable pub close_handle :
      ℕ → ℕ → Bool → HandleWatcherThreadState → State → Run (HandleWatcherThreadState × State)
  unfolding find remove_handle post_null post_pruned
  close_handle handle port pruning w s = assert (not pruning || port == e.illegal_port) (
      let s₁ = post_null port (e.mojo_close handle s) in
      elim (find handle w.handle_to_index_map) [
        | none ↦ ok (w, s₁)
        | some index ↦
            assert (not (index == 0))
              (do s₂ ← post_pruned pruning index w s₁; w' ← remove_handle handle w; ok (w', s₂))
      ])
