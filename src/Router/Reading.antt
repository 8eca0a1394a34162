-- ===== src/Router/Reading.antt =====
-- The reading half of the connector: connector.cc, and ReadMessage and ReadAndDispatchMessage of
-- message.cc. Client code does not destroy the router in a call, and does not wait in one.
use mojo.Router.Incoming.{handle_incoming_message}
use mojo.Prelude.{ℕ, zero, suc, Bool, true, false, not, ◌&&◌, ◌||◌, ◌==◌, if◌then◌else◌}
use mojo.Prelude.Run.{Run, ok, out_of_fuel, ◌>>=◌, assert}
use mojo.System.{MojoResult, deadline_exceeded, should_wait, resource_exhausted}
use mojo.System.Calls.{is_ok}
use mojo.Router.{Message, Outside, Router, perform_all, close_message_pipe}

unfoldable pub is_should_wait : MojoResult → Bool
is_should_wait should_wait = true
is_should_wait _ = false

unfoldable pub is_deadline_exceeded : MojoResult → Bool
is_deadline_exceeded deadline_exceeded = true
is_deadline_exceeded _ = false

unfoldable pub is_resource_exhausted : MojoResult → Bool
is_resource_exhausted resource_exhausted = true
is_resource_exhausted _ = false

-- A new `Message`.
abbrev pub empty_message : Message
empty_message = record { flags = 0; request_id = 0; body = 0 }

module _ (e : Outside) where
  open e use {State}

  -- `ReadMessage`: a call for the size, and one for the message.
  unfoldable pub read_message : ℕ → State → (MojoResult × Message) × State
  unfolding is_resource_exhausted
  read_message handle s =
      let (result, s') = e.read_message_size handle s in
      if is_resource_exhausted result
      then e.read_message_raw handle s'
      else ((result, empty_message), s')

  -- `ReadAndDispatchMessage`, once the message is read.
  unfoldable pub dispatch : MojoResult → Message → Router → State → Run (Bool × Router × State)
  unfolding is_ok handle_incoming_message
  dispatch result m r s = if is_ok result then handle_incoming_message e m r s else ok (false, r, s)

  -- `Connector::NotifyError`.
  unfoldable pub notify_error : Router → State → Run (Router × State)
  unfolding close_message_pipe perform_all
  notify_error r s =
      let (c, s₁) = close_message_pipe e (record r.connector { error = true }) s in
      let (actions, s₂) = e.connection_error s₁ in
      perform_all e actions (record r { connector = c }) s₂

  -- What `Connector::ReadSingleMessage` does behind the dispatch.
  unfoldable pub after_dispatch :
      MojoResult → Bool → Router → State → Run ((Bool × MojoResult) × Router × State)
  unfolding notify_error is_should_wait is_ok
  after_dispatch result received r s =
      if is_should_wait result
      then ok ((true, result), r, s)
      else if not (is_ok result)
          || r.connector.enforce_errors_from_incoming_receiver && not received
      then (do (r', s') ← notify_error r s; ok ((false, result), r', s'))
      else ok ((true, result), r, s)

  -- `Connector::ReadSingleMessage`: what it returns, and the result of the read.
  unfoldable pub read_single_message : Router → State → Run ((Bool × MojoResult) × Router × State)
  unfolding read_message dispatch after_dispatch
  read_single_message r s =
      let ((result, m), s₁) = read_message r.connector.message_pipe s in
      (do (received, r', s') ← dispatch result m r s₁; after_dispatch result received r' s')

  -- `Connector::WaitToReadMore`.
  unfoldable pub wait_to_read_more : Router → State → Run (Router × State)
  wait_to_read_more r s = assert (r.connector.async_wait_id == 0) (
      let (id, s') = e.async_wait r.connector.message_pipe s in
      ok (record r { connector = record r.connector { async_wait_id = id } }, s'))

  -- A round of the loop of ReadAllAvailableMessages behind the read, from what follows it.
  unfoldable pub after_read :
      (Router → State → Run (Router × State))
      → Bool × MojoResult
      → Router
      → State
      → Run (Router × State)
  unfolding wait_to_read_more is_should_wait
  after_read rest (false, result) r s = ok (r, s)
  after_read rest (true, result) r s = elim (is_should_wait result) [
    | true ↦ wait_to_read_more r s
    | false ↦ rest r s
  ]

  -- `Connector::ReadAllAvailableMessages`.
  unfoldable pub read_all_available_messages : ℕ → Router → State → Run (Router × State)
  unfolding read_single_message after_read
  read_all_available_messages zero r s = out_of_fuel
  read_all_available_messages (suc f) r s = elim (r.connector.error) [
    | true ↦ ok (r, s)
    | false ↦ do
      (outcome, r', s') ← read_single_message r s
      after_read (read_all_available_messages f) outcome r' s'
  ]

  -- `Connector::OnHandleReady`.
  unfoldable pub on_handle_ready : ℕ → MojoResult → Router → State → Run (Router × State)
  unfolding read_all_available_messages notify_error is_ok
  on_handle_ready f result r s = assert (not (r.connector.async_wait_id == 0)) (
      let r' = record r { connector = record r.connector { async_wait_id = 0 } } in
      if not (is_ok result) then notify_error r' s else read_all_available_messages f r' s)

  -- `Connector::WaitForIncomingMessage`.
  unfoldable pub wait_for_incoming_message : ℕ → Router → State → Run (Bool × Router × State)
  unfolding read_single_message notify_error is_ok is_should_wait is_deadline_exceeded
  wait_for_incoming_message deadline r s =
      if r.connector.error
      then ok (false, r, s)
      else (let (result, s₁) = e.wait r.connector.message_pipe deadline s in
          if is_should_wait result || is_deadline_exceeded result
          then ok (false, r, s₁)
          else if not (is_ok result)
          then (do (r', s') ← notify_error r s₁; ok (false, r', s'))
          else (do ((_, result'), r', s') ← read_single_message r s₁; ok (is_ok result', r', s')))
