-- ===== src/Router/Sessions.antt =====
-- A router between two waits, and what closing does to it.
use mojo.Prelude.{ℕ, zero, suc, ◌≡◌, Bool, true, false, not, ◌&&◌, ◌||◌, List, [], ◌∷◌, arith, ◌==◌}
use mojo.Prelude.Run.{
  Run, ok, fault, ◌>>=◌, Yields, Yields-bind, Yields-assert, Yields-if, Yields-test,
}
use mojo.System.{MojoResult}
use mojo.System.Calls.{is_ok}
use mojo.Router.{
  Message, Action, Outside, Connector, Router, cancel_wait, close_message_pipe, connector_accept,
  perform_all, pass_message_pipe, router_pass, new_router,
}
use mojo.Router.Reading.{
  is_should_wait, is_deadline_exceeded, read_message, dispatch, notify_error, after_dispatch,
  read_single_message, wait_to_read_more, after_read, read_all_available_messages, on_handle_ready,
  wait_for_incoming_message,
}
use mojo.Router.Kept.{IsRouter, connect-IsRouter, perform_all-IsRouter, dispatch-IsRouter}

module _ (e : Outside) where
  open e use {State}

  notify_error-IsRouter :
      (r : Router) (s : State) → IsRouter r → Yields (λ x. IsRouter x.0) (notify_error e r s)
  unfolding notify_error
  notify_error-IsRouter r s v =
      let (c, s₁) = close_message_pipe e (record r.connector { error = true }) s in
      let (actions, s₂) = e.connection_error s₁ in
      perform_all-IsRouter e actions (record r { connector = c }) s₂ (connect-IsRouter c r v)

  after_dispatch-IsRouter :
      (result : MojoResult) (received : Bool) (r : Router) (s : State)
      → IsRouter r
      → Yields (λ x. IsRouter x.1) (after_dispatch e result received r s)
  unfolding after_dispatch
  after_dispatch-IsRouter result received r s v = Yields-if _ (is_should_wait result) _ _ v (
      Yields-if _
        (not (is_ok result) || r.connector.enforce_errors_from_incoming_receiver && not received) _
        _
        (Yields-bind (λ x. IsRouter x.0) _ (notify_error e r s) _ (notify_error-IsRouter r s v)
          (λ x w. w))
        v)

  read_single-IsRouter :
      (r : Router) (s : State) → IsRouter r → Yields (λ x. IsRouter x.1) (read_single_message e r s)
  unfolding read_single_message
  read_single-IsRouter r s v =
      let ((result, m), s₁) = read_message e r.connector.message_pipe s in
      Yields-bind (λ x. IsRouter x.1) _ (dispatch e result m r s₁) _
        (dispatch-IsRouter e result m r s₁ v) (λ x w. after_dispatch-IsRouter result x.0 x.1 x.2 w)

  after_read-IsRouter :
      (rest : Router → State → Run (Router × State)) (outcome : Bool × MojoResult) (r : Router)
      (s : State)
      → IsRouter r
      → ((r' : Router) (s' : State) → IsRouter r' → Yields (λ x. IsRouter x.0) (rest r' s'))
      → Yields (λ x. IsRouter x.0) (after_read e rest outcome r s)
  unfolding after_read wait_to_read_more
  after_read-IsRouter rest (false, result) r s v next = v
  after_read-IsRouter rest (true, result) r s v next =
      Yields-test _ (is_should_wait result) _ _
        (λ _. Yields-assert _ (r.connector.async_wait_id == 0) _ (connect-IsRouter _ r v))
        (λ _. next r s v)

  read_all-IsRouter :
      (f : ℕ) (r : Router) (s : State)
      → IsRouter r
      → Yields (λ x. IsRouter x.0) (read_all_available_messages e f r s)
  unfolding read_all_available_messages
  read_all-IsRouter zero r s v = tt
  read_all-IsRouter (suc f) r s v =
      Yields-test _ r.connector.error _ _ (λ _. v)
        (λ _.
          Yields-bind (λ x. IsRouter x.1) _ (read_single_message e r s) _
            (read_single-IsRouter r s v)
            (λ x w.
              after_read-IsRouter (read_all_available_messages e f) x.0 x.1 x.2 w
                (read_all-IsRouter f)))

  wait-IsRouter :
      (deadline : ℕ) (r : Router) (s : State)
      → IsRouter r
      → Yields (λ x. IsRouter x.1) (wait_for_incoming_message e deadline r s)
  unfolding wait_for_incoming_message
  wait-IsRouter deadline r s v =
      let (result, s₁) = e.wait r.connector.message_pipe deadline s in
      Yields-if _ r.connector.error _ _ v (
        Yields-if _ (is_should_wait result || is_deadline_exceeded result) _ _ v (
          Yields-if _ (not (is_ok result)) _ _
            (Yields-bind (λ x. IsRouter x.0) _ (notify_error e r s₁) _
              (notify_error-IsRouter r s₁ v) (λ x w. w))
            (Yields-bind (λ x. IsRouter x.1) _ (read_single_message e r s₁) _
              (read_single-IsRouter r s₁ v) (λ x w. w))))

-- What happens to a router: a wait for its pipe ends with a result, its client waits for a message,
-- makes calls or takes the pipe away.
pub data Event : Type 0 where
  handle_ready : MojoResult → Event
  wait_for_message : ℕ → Event
  client_calls : List Action → Event
  pipe_passed : Event

unfoldable pub handle_event : (e : Outside) → ℕ → Event → Router → e.State → Run (Router × e.State)
unfolding on_handle_ready wait_for_incoming_message perform_all router_pass
handle_event e f (handle_ready result) r s = on_handle_ready e f result r s
handle_event e f (wait_for_message deadline) r s = do
  (_, r', s') ← wait_for_incoming_message e deadline r s
  ok (r', s')
handle_event e f (client_calls actions) r s = perform_all e actions r s
handle_event e f pipe_passed r s = let (_, r', s') = router_pass e r s in ok (r', s')

unfoldable pub handle_events :
    (e : Outside) → ℕ → List Event → Router → e.State → Run (Router × e.State)
unfolding handle_event
handle_events e f [] r s = ok (r, s)
handle_events e f (v ∷ events) r s = do
  (r', s') ← handle_event e f v r s
  handle_events e f events r' s'

handle_event-IsRouter :
    (e : Outside) (f : ℕ) (v : Event) (r : Router) (s : e.State)
    → IsRouter r
    → Yields (λ x. IsRouter x.0) (handle_event e f v r s)
unfolding handle_event on_handle_ready wait_for_incoming_message router_pass
handle_event-IsRouter e f (handle_ready result) r s v =
    let c : Connector = record r.connector { async_wait_id = 0 } in
    let w = connect-IsRouter c r v in
    Yields-assert _ (not (r.connector.async_wait_id == 0)) _ (
      Yields-if _ (not (is_ok result)) _ _
        (notify_error-IsRouter e (record r { connector = c }) s w)
        (read_all-IsRouter e f (record r { connector = c }) s w))
handle_event-IsRouter e f (wait_for_message deadline) r s v =
    Yields-bind (λ x. IsRouter x.1) _ (wait_for_incoming_message e deadline r s) _
      (wait-IsRouter e deadline r s v) (λ x w. w)
handle_event-IsRouter e f (client_calls actions) r s v = perform_all-IsRouter e actions r s v
handle_event-IsRouter e f pipe_passed r s v =
    connect-IsRouter (pass_message_pipe e r.connector s).1 r v

events-IsRouter :
    (e : Outside) (f : ℕ) (events : List Event) (r : Router) (s : e.State)
    → IsRouter r
    → Yields (λ x. IsRouter x.0) (handle_events e f events r s)
unfolding handle_events
events-IsRouter e f [] r s v = v
events-IsRouter e f (event ∷ events) r s v =
    Yields-bind (λ x. IsRouter x.0) _ (handle_event e f event r s) _
      (handle_event-IsRouter e f event r s v) (λ x w. events-IsRouter e f events x.0 x.1 w)

-- From a new router on, with or without a receiver, whatever the pipe, the validators and the client
-- do, and in whatever order a wait for the pipe ends, the client waits for a message, makes calls or
-- takes the pipe away, if the code returns then no responder is filed under the request id 0, the
-- ids of the responders ascend, so that each has one responder, and the counter of ids fits 64 bits.
pub handle_events-IsRouter :
    (e : Outside) (f handle : ℕ) (has_receiver : Bool) (events : List Event) (s : e.State)
    → let (r, s') = new_router e handle s in
      Yields
        (λ x. IsRouter x.0)
        (handle_events e f events (record r { has_receiver = has_receiver }) s')
unfolding new_router
handle_events-IsRouter e f handle has_receiver events s =
    events-IsRouter e f events _ _ (record { keys = tt; reserved = tt; fits = omega arith })

-- CloseMessagePipe leaves a connector that is not in error out of the error state, and with no pipe:
-- the next message that is sent fails an assertion.
pub accept-close_message_pipe :
    (e : Outside) (m : Message) (c : Connector) (s s' : e.State)
    → c.error ≡ false
    → ((close_message_pipe e c s).0.error ≡ false)
      × (connector_accept e m (close_message_pipe e c s).0 s' ≡ fault)
unfolding close_message_pipe cancel_wait connector_accept
accept-close_message_pipe e m c s s' good = ground arith
