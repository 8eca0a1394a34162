-- ===== src/Router/Incoming.antt =====
-- What becomes of a message that comes in: `Router::HandleIncomingMessage`, and the end of a
-- ResponderThunk.
use mojo.Prelude.{Bool, false, not, ◌||◌, none, some, if◌then◌else◌}
use mojo.Prelude.Maps.{find, erase}
use mojo.Prelude.Run.{Run, ok, ◌>>=◌}
use mojo.Message.{expects_response, is_response}
use mojo.Router.{Message, Outside, Router, run_validators_on_message, router_close, perform_all}

module _ (e : Outside) where
  open e use {State}

  -- `~ResponderThunk` of a thunk that the receiver did not take.
  unfoldable pub delete_responder : Bool → Bool → Router → State → Router × State
  unfolding router_close
  delete_responder accepted accept_was_invoked r s =
      if accepted || accept_was_invoked then (r, s) else router_close e r s

  -- A request for the incoming receiver.
  unfoldable pub handle_request : Message → Router → State → Run (Bool × Router × State)
  unfolding delete_responder router_close
  handle_request m r s =
      if r.has_receiver
      then (let ((answer, accept_was_invoked), s₁) = e.incoming_request m s in
          (do
            (r', s') ← perform_all e answer.actions r s₁
            let (r'', s'') = delete_responder answer.accepted accept_was_invoked r' s'
            ok (answer.accepted, r'', s'')))
      else (let (r', s') = router_close e r s in ok (false, r', s'))

  -- A response for the responder that waits for it.
  unfoldable pub handle_response : Message → Router → State → Run (Bool × Router × State)
  unfolding find erase
  handle_response m r s = elim (find m.request_id r.responders) [
    | none ↦ ok (false, r, s)
    | some responder ↦
        let (answer, s₁) = e.respond responder m s in
        (do
          (r', s') ←
              perform_all e answer.actions
                (record r { responders = erase m.request_id r.responders }) s₁
          ok (answer.accepted, r', s'))
  ]

  -- A message that asks for no answer.
  unfoldable pub handle_message : Message → Router → State → Run (Bool × Router × State)
  handle_message m r s =
      if r.has_receiver
      then (let (answer, s₁) = e.incoming m s in
          (do (r', s') ← perform_all e answer.actions r s₁; ok (answer.accepted, r', s')))
      else ok (false, r, s)

  -- `Router::HandleIncomingMessage`.
  unfoldable pub handle_incoming_message : Message → Router → State → Run (Bool × Router × State)
  unfolding handle_request handle_response handle_message run_validators_on_message expects_response
      is_response
  handle_incoming_message m r s =
      if not (run_validators_on_message e.validators m)
      then ok (false, r, s)
      else if expects_response m.flags
      then handle_request m r s
      else if is_response m.flags
      then handle_response m r s
      else handle_message m r s
