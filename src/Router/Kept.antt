-- ===== src/Router/Kept.antt =====
-- What holds of a router whatever comes in and whatever its client calls.
use mojo.Router.Incoming.{
  delete_responder, handle_request, handle_response, handle_message, handle_incoming_message,
}
use mojo.Prelude.{
  ℕ, ◌<◌, Bool, true, false, not, ◌||◌, List, [], ◌∷◌, All, arith, if◌then◌else◌, if_cases,
}
use mojo.Prelude.Maps.{
  find, erase, assign, Ascends, assign-Ascends, erase-Ascends, All-assign, All-erase,
}
use mojo.Prelude.Run.{Run, Yields, Yields-bind, Yields-if, Yields-option, Yields-any}
use mojo.System.{MojoResult}
use mojo.System.Calls.{is_ok}
use mojo.Message.{expects_response, is_response}
use mojo.Router.{
  Message, Action, send, request, close_pipe, Outside, Connector, Router, reserve_request_id,
  run_validators_on_message, close_message_pipe, connector_accept, router_accept,
  accept_with_responder, router_close, perform, perform_all,
}
use mojo.Router.Reading.{dispatch}

-- The request ids of the responders ascend, 0 is none of them, and the counter fits its type.
pub record IsRouter (r : Router) : Type 0 where
  pub keys : Ascends r.responders
  pub reserved : All (λ p. 0 < p.0) r.responders
  pub fits : r.next_request_id < 0x10000000000000000

-- The id of a request is not 0, even where the counter wraps around.
pub reserve_lem :
    (n : ℕ)
    → n < 0x10000000000000000
    → (0 < (reserve_request_id n).0) × ((reserve_request_id n).1 < 0x10000000000000000)
unfolding reserve_request_id
reserve_lem n fits = ground arith

pub connect-IsRouter :
    (c : Connector) (r : Router) → IsRouter r → IsRouter (record r { connector = c })
connect-IsRouter c r v = record { keys = v.keys; reserved = v.reserved; fits = v.fits }

erase-IsRouter :
    (id : ℕ) (r : Router) → IsRouter r → IsRouter (record r { responders = erase id r.responders })
erase-IsRouter id r v = record {
  keys = erase-Ascends id r.responders v.keys;
  reserved = All-erase 0 id r.responders v.reserved;
  fits = v.fits;
}

file-IsRouter :
    (accepted : Bool) (id responder next : ℕ) (c : Connector) (r : Router)
    → 0 < id
    → next < 0x10000000000000000
    → IsRouter r
    → IsRouter (record r {
      connector = c;
      next_request_id = next;
      responders = if accepted then assign id responder r.responders else r.responders;
    })
file-IsRouter true id responder next c r some_id fits v = record {
  keys = assign-Ascends id responder r.responders v.keys;
  reserved = All-assign 0 id responder r.responders some_id v.reserved;
  fits = fits;
}
file-IsRouter false id responder next c r some_id fits v = record {
  keys = v.keys;
  reserved = v.reserved;
  fits = fits;
}

module _ (e : Outside) where
  open e use {State}

  abbrev pub Keeps : Run (Router × State) → Type 0
  Keeps = Yields (λ x. IsRouter x.0)

  abbrev pub Answers : Run (Bool × Router × State) → Type 0
  Answers = Yields (λ x. IsRouter x.1)

  router_accept-IsRouter :
      (m : Message) (r : Router) (s : State) → IsRouter r → Answers (router_accept e m r s)
  unfolding router_accept
  router_accept-IsRouter m r s v =
      Yields-bind (λ _. Unit {0}) _ (connector_accept e m r.connector s) _ (Yields-any _)
        (λ x _. connect-IsRouter x.1 r v)

  request-IsRouter :
      (m : Message) (responder : ℕ) (r : Router) (s : State)
      → IsRouter r
      → Answers (accept_with_responder e m responder r s)
  unfolding accept_with_responder
  request-IsRouter m responder r s v =
      let (id, next) = reserve_request_id r.next_request_id in
      let (some_id, fits) = reserve_lem r.next_request_id v.fits in
      Yields-bind (λ _. Unit {0}) _
        (connector_accept e (record m { request_id = id }) r.connector s) _ (Yields-any _)
        (λ x _. file-IsRouter x.0 id responder next x.1 r some_id fits v)

  router_close-IsRouter : (r : Router) (s : State) → IsRouter r → IsRouter (router_close e r s).0
  unfolding router_close
  router_close-IsRouter r s v = connect-IsRouter (close_message_pipe e r.connector s).0 r v

  perform-IsRouter : (a : Action) (r : Router) (s : State) → IsRouter r → Keeps (perform e a r s)
  unfolding perform
  perform-IsRouter (send m) r s v =
      Yields-bind (λ x. IsRouter x.1) _ (router_accept e m r s) _ (router_accept-IsRouter m r s v)
        (λ x w. w)
  perform-IsRouter (request m responder) r s v =
      Yields-bind (λ x. IsRouter x.1) _ (accept_with_responder e m responder r s) _
        (request-IsRouter m responder r s v) (λ x w. w)
  perform-IsRouter close_pipe r s v = router_close-IsRouter r s v

  pub perform_all-IsRouter :
      (actions : List Action) (r : Router) (s : State)
      → IsRouter r
      → Keeps (perform_all e actions r s)
  unfolding perform_all
  perform_all-IsRouter [] r s v = v
  perform_all-IsRouter (a ∷ actions) r s v =
      Yields-bind (λ x. IsRouter x.0) _ (perform e a r s) _ (perform-IsRouter a r s v)
        (λ x w. perform_all-IsRouter actions x.0 x.1 w)

  delete-IsRouter :
      (accepted used : Bool) (r : Router) (s : State)
      → IsRouter r
      → IsRouter (delete_responder e accepted used r s).0
  unfolding delete_responder
  delete-IsRouter accepted used r s v =
      if_cases (λ (x : Router × State). IsRouter x.0) (accepted || used) _ _ v
        (router_close-IsRouter r s v)

  handle_request-IsRouter :
      (m : Message) (r : Router) (s : State) → IsRouter r → Answers (handle_request e m r s)
  unfolding handle_request
  handle_request-IsRouter m r s v =
      let ((answer, used), s₁) = e.incoming_request m s in
      Yields-if _ r.has_receiver _ _
        (Yields-bind (λ x. IsRouter x.0) _ (perform_all e answer.actions r s₁) _
          (perform_all-IsRouter answer.actions r s₁ v)
          (λ x w. delete-IsRouter answer.accepted used x.0 x.1 w))
        (router_close-IsRouter r s v)

  handle_response-IsRouter :
      (m : Message) (r : Router) (s : State) → IsRouter r → Answers (handle_response e m r s)
  unfolding handle_response
  handle_response-IsRouter m r s v =
      Yields-option _ (find m.request_id r.responders) _ _ (λ _. v)
        (λ responder _.
          let (answer, s₁) = e.respond responder m s in
          let w = erase-IsRouter m.request_id r v in
          Yields-bind (λ x. IsRouter x.0) _
            (perform_all e answer.actions
              (record r { responders = erase m.request_id r.responders }) s₁)
            _ (perform_all-IsRouter answer.actions _ s₁ w) (λ x w'. w'))

  handle_message-IsRouter :
      (m : Message) (r : Router) (s : State) → IsRouter r → Answers (handle_message e m r s)
  unfolding handle_message
  handle_message-IsRouter m r s v =
      let (answer, s₁) = e.incoming m s in
      Yields-if _ r.has_receiver _ _
        (Yields-bind (λ x. IsRouter x.0) _ (perform_all e answer.actions r s₁) _
          (perform_all-IsRouter answer.actions r s₁ v) (λ x w. w))
        v

  pub dispatch-IsRouter :
      (result : MojoResult) (m : Message) (r : Router) (s : State)
      → IsRouter r
      → Answers (dispatch e result m r s)
  unfolding dispatch handle_incoming_message
  dispatch-IsRouter result m r s v =
      Yields-if _ (is_ok result) _ _
        (Yields-if _ (not (run_validators_on_message e.validators m)) _ _ v (
          Yields-if _ (expects_response m.flags) _ _ (handle_request-IsRouter m r s v) (
            Yields-if _ (is_response m.flags) _ _ (handle_response-IsRouter m r s v)
              (handle_message-IsRouter m r s v))))
        v
