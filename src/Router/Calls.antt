-- ===== src/Router/Calls.antt =====
-- What the calls of a client leave alone, and what they do to the pipe.
use mojo.Router.Incoming.{
  delete_responder, handle_request, handle_response, handle_message, handle_incoming_message,
}
use mojo.Prelude.{
  ℕ, suc, ◌≤◌, ◌≡◌, ◌≢◌, refl, ◌∙◌, Bool, not, ◌||◌, List, [], ◌∷◌, arith, ◌==◌, if_cases,
}
use mojo.Prelude.Maps.{find, erase}
use mojo.Prelude.Run.{
  Run, ok, fault, out_of_fuel, Ends, Ends-bind, Ends-assert, Ends-if, Ends-option,
}
use mojo.System.{MojoResult, busy, failed_precondition}
use mojo.Message.{expects_response, is_response}
use mojo.Router.{
  Message, Action, send, request, close_pipe, Outside, Connector, Router, write_result,
  run_validators_on_message, cancel_wait, close_message_pipe, connector_accept, router_accept,
  accept_with_responder, router_close, perform, perform_all,
}

-- What is relied on in the pipe, the waiter and the client: `pending s` messages wait in the pipe, a
-- read of one takes it out, none comes in meanwhile, and the id of an asynchronous wait is not 0.
pub record IsPipe (e : Outside) : Type 0 where
  pub pending : e.State → ℕ
  pub sizes : (h : ℕ) (s : e.State) → pending (e.read_message_size h s).1 ≤ pending s
  pub sized :
      (h : ℕ) (s : e.State)
      → (e.read_message_size h s).0 ≡ MojoResult.ok
      → suc (pending (e.read_message_size h s).1) ≤ pending s
  pub reads : (h : ℕ) (s : e.State) → pending (e.read_message_raw h s).1 ≤ pending s
  pub taken :
      (h : ℕ) (s : e.State)
      → (e.read_message_raw h s).0.0 ≡ MojoResult.ok
      → suc (pending (e.read_message_raw h s).1) ≤ pending s
  pub writes :
      (h : ℕ) (m : Message) (s : e.State) → pending (e.write_message_raw h m s).1 ≤ pending s
  pub cancels : (i : ℕ) (s : e.State) → pending (e.cancel i s) ≤ pending s
  pub closes : (h : ℕ) (s : e.State) → pending (e.close h s) ≤ pending s
  pub calls : (m : Message) (s : e.State) → pending (e.incoming m s).1 ≤ pending s
  pub requests : (m : Message) (s : e.State) → pending (e.incoming_request m s).1 ≤ pending s
  pub responds : (i : ℕ) (m : Message) (s : e.State) → pending (e.respond i m s).1 ≤ pending s
  pub waits : (h : ℕ) (s : e.State) → (e.async_wait h s).0 ≢ 0

module _ (e : Outside) (p : IsPipe e) where
  open e use {State}
  open p use {pending}

  -- The error state is as it was, no wait and no pipe has come up, and no message has come in.
  pub record Calm (c : Connector) (s : State) (c' : Connector) (s' : State) : Type 0 where
    pub error : c'.error ≡ c.error
    pub wait : c.async_wait_id ≡ 0 → c'.async_wait_id ≡ 0
    pub pipe : c.message_pipe ≡ 0 → c'.message_pipe ≡ 0
    pub fewer : pending s' ≤ pending s

  abbrev pub CalmRouter : Router → State → Router × State → Type 0
  CalmRouter r s x = Calm r.connector s x.0.connector x.1

  pub Calm-none : (c : Connector) (s s' : State) → pending s' ≤ pending s → Calm c s c s'
  Calm-none c s s' h = record { error = refl; wait = λ z. z; pipe = λ z. z; fewer = h }

  pub Calm-then :
      (c : Connector) (s : State) (c' : Connector) (s' : State) (c'' : Connector) (s'' : State)
      → Calm c s c' s'
      → Calm c' s' c'' s''
      → Calm c s c'' s''
  Calm-then c s c' s' c'' s'' h h' = record {
    error = h'.error ∙ h.error;
    wait = λ z. h'.wait (h.wait z);
    pipe = λ z. h'.pipe (h.pipe z);
    fewer = omega (arith, h.fewer, h'.fewer);
  }

  -- A close leaves no pipe and no wait.
  pub close-Calm :
      (c : Connector) (s : State)
      → let (c', s') = close_message_pipe e c s in
        Calm c s c' s' × (c'.async_wait_id ≡ 0) × (c'.message_pipe ≡ 0)
  unfolding close_message_pipe cancel_wait
  close-Calm c s =
      let a = p.cancels c.async_wait_id s in
      let b = p.closes c.message_pipe s in
      let d = p.closes c.message_pipe (e.cancel c.async_wait_id s) in ground arith

  write-Calm :
      (result : MojoResult) (c : Connector) (s s' : State)
      → pending s' ≤ pending s
      → Ends (λ x. Calm c s x.1 s') (write_result result c)
  unfolding write_result
  write-Calm MojoResult.ok c s s' h = Calm-none c s s' h
  write-Calm failed_precondition c s s' h = record {
    error = refl;
    wait = λ z. z;
    pipe = λ z. z;
    fewer = h;
  }
  write-Calm busy c s s' h = tt
  write-Calm _ c s s' h = Calm-none c s s' h

  connector_accept-Calm :
      (m : Message) (c : Connector) (s : State)
      → Ends (λ x. Calm c s x.1 x.2) (connector_accept e m c s)
  unfolding connector_accept
  connector_accept-Calm m c s =
      Ends-if _ c.error _ _ (λ _. Calm-none c s s (omega arith))
        (λ _. Ends-assert _ (not (c.message_pipe == 0)) _ (
          Ends-if _ c.drop_writes _ _ (λ _. Calm-none c s s (omega arith))
            (λ _.
              let (result, s') = e.write_message_raw c.message_pipe m s in
              Ends-bind (λ x. Calm c s x.1 s') _ (write_result result c) _
                (write-Calm result c s s' (p.writes c.message_pipe m s)) (λ x h. h))))

  router_accept-Calm :
      (m : Message) (r : Router) (s : State)
      → Ends (λ x. Calm r.connector s x.1.connector x.2) (router_accept e m r s)
  unfolding router_accept
  router_accept-Calm m r s =
      Ends-bind (λ x. Calm r.connector s x.1 x.2) _ (connector_accept e m r.connector s) _
        (connector_accept-Calm m r.connector s) (λ x h. h)

  request-Calm :
      (m : Message) (responder : ℕ) (r : Router) (s : State)
      → Ends (λ x. Calm r.connector s x.1.connector x.2) (accept_with_responder e m responder r s)
  unfolding accept_with_responder
  request-Calm m responder r s =
      Ends-bind (λ x. Calm r.connector s x.1 x.2) _ (connector_accept e _ r.connector s) _
        (connector_accept-Calm _ r.connector s) (λ x h. h)

  router_close-Calm : (r : Router) (s : State) → CalmRouter r s (router_close e r s)
  unfolding router_close
  router_close-Calm r s = (close-Calm r.connector s).0

  perform-Calm : (a : Action) (r : Router) (s : State) → Ends (CalmRouter r s) (perform e a r s)
  unfolding perform
  perform-Calm (send m) r s =
      Ends-bind (λ x. Calm r.connector s x.1.connector x.2) _ (router_accept e m r s) _
        (router_accept-Calm m r s) (λ x h. h)
  perform-Calm (request m responder) r s =
      Ends-bind (λ x. Calm r.connector s x.1.connector x.2) _
        (accept_with_responder e m responder r s) _ (request-Calm m responder r s) (λ x h. h)
  perform-Calm close_pipe r s = router_close-Calm r s

  Calm-more :
      (r : Router) (s : State) (m : Router × State) (x : Run (Router × State))
      → CalmRouter r s m
      → Ends (CalmRouter m.0 m.1) x
      → Ends (CalmRouter r s) x
  Calm-more r s m (ok x) h h' = Calm-then r.connector s m.0.connector m.1 x.0.connector x.1 h h'
  Calm-more r s m fault h h' = tt
  Calm-more r s m out_of_fuel h h' = h'

  pub perform_all-Calm :
      (actions : List Action) (r : Router) (s : State)
      → Ends (CalmRouter r s) (perform_all e actions r s)
  unfolding perform_all
  perform_all-Calm [] r s = Calm-none r.connector s s (omega arith)
  perform_all-Calm (a ∷ actions) r s =
      Ends-bind (CalmRouter r s) _ (perform e a r s) _ (perform-Calm a r s)
        (λ m h. Calm-more r s m _ h (perform_all-Calm actions m.0 m.1))

  -- The calls of a client, from a state with no more messages in the pipe.
  answer-Calm :
      (actions : List Action) (r r' : Router) (s s' : State)
      → r'.connector ≡ r.connector
      → pending s' ≤ pending s
      → Ends (CalmRouter r s) (perform_all e actions r' s')
  answer-Calm actions r r' s s' same h =
      Calm-more r s (r', s') _ (rw same (Calm-none r.connector s s' h))
        (perform_all-Calm actions r' s')

  delete-Calm :
      (accepted used : Bool) (r : Router) (s : State)
      → CalmRouter r s (delete_responder e accepted used r s)
  unfolding delete_responder
  delete-Calm accepted used r s =
      if_cases (CalmRouter r s) (accepted || used) _ _ (Calm-none r.connector s s (omega arith))
        (router_close-Calm r s)

  handle_request-Calm :
      (m : Message) (r : Router) (s : State)
      → Ends (λ x. Calm r.connector s x.1.connector x.2) (handle_request e m r s)
  unfolding handle_request
  handle_request-Calm m r s =
      Ends-if _ r.has_receiver _ _
        (λ _.
          let ((answer, used), s₁) = e.incoming_request m s in
          Ends-bind (CalmRouter r s) _ (perform_all e answer.actions r s₁) _
            (answer-Calm answer.actions r r s s₁ refl (p.requests m s))
            (λ x h.
              Calm-then r.connector s x.0.connector x.1 _ _ h
                (delete-Calm answer.accepted used x.0 x.1)))
        (λ _. router_close-Calm r s)

  handle_response-Calm :
      (m : Message) (r : Router) (s : State)
      → Ends (λ x. Calm r.connector s x.1.connector x.2) (handle_response e m r s)
  unfolding handle_response
  handle_response-Calm m r s =
      Ends-option _ (find m.request_id r.responders) _ _
        (λ _. Calm-none r.connector s s (omega arith))
        (λ responder _.
          let (answer, s₁) = e.respond responder m s in
          Ends-bind (CalmRouter r s) _
            (perform_all e answer.actions
              (record r { responders = erase m.request_id r.responders }) s₁)
            _ (answer-Calm answer.actions r _ s s₁ refl (p.responds responder m s)) (λ x h. h))

  handle_message-Calm :
      (m : Message) (r : Router) (s : State)
      → Ends (λ x. Calm r.connector s x.1.connector x.2) (handle_message e m r s)
  unfolding handle_message
  handle_message-Calm m r s =
      Ends-if _ r.has_receiver _ _
        (λ _.
          let (answer, s₁) = e.incoming m s in
          Ends-bind (CalmRouter r s) _ (perform_all e answer.actions r s₁) _
            (answer-Calm answer.actions r r s s₁ refl (p.calls m s)) (λ x h. h))
        (λ _. Calm-none r.connector s s (omega arith))

  pub handle_incoming-Calm :
      (m : Message) (r : Router) (s : State)
      → Ends (λ x. Calm r.connector s x.1.connector x.2) (handle_incoming_message e m r s)
  unfolding handle_incoming_message
  handle_incoming-Calm m r s =
      Ends-if _ (not (run_validators_on_message e.validators m)) _ _
        (λ _. Calm-none r.connector s s (omega arith))
        (λ _.
          Ends-if _ (expects_response m.flags) _ _ (λ _. handle_request-Calm m r s)
            (λ _.
              Ends-if _ (is_response m.flags) _ _ (λ _. handle_response-Calm m r s)
                (λ _. handle_message-Calm m r s)))
