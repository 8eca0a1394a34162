-- ===== src/Router/Settles.antt =====
-- A connector that is done with reading waits for more, or is in error.
use mojo.Prelude.{
  ℕ, zero, suc, ◌≤◌, ◌<◌, ◌≡◌, ◌≢◌, ◌⊎◌, inl, inr, refl, ◌∙◌, Bool, true, false, not, ◌&&◌, ◌||◌,
  arith, ◌==◌,
}
use mojo.Prelude.Run.{Run, Ends, Ends-bind, Ends-assert, Ends-if, Ends-test, Ends-map}
use mojo.System.{MojoResult}
use mojo.System.Calls.{is_ok}
use mojo.Router.{Message, Outside, Connector, Router, close_message_pipe, perform_all}
use mojo.Router.Calls.{
  IsPipe, Calm, CalmRouter, Calm-none, close-Calm, perform_all-Calm, handle_incoming-Calm,
}
use mojo.Router.Reading.{
  is_should_wait, read_message, dispatch, notify_error, after_dispatch, read_single_message,
  wait_to_read_more, after_read, read_all_available_messages, on_handle_ready,
}

-- In error, with no pipe and no wait left.
pub record IsBroken (c : Connector) : Type 0 where
  pub error : c.error ≡ true
  pub wait : c.async_wait_id ≡ 0
  pub pipe : c.message_pipe ≡ 0

-- Or in good order, with a wait for the pipe.
pub record IsWaiting (c : Connector) : Type 0 where
  pub error : c.error ≡ false
  pub wait : c.async_wait_id ≢ 0

abbrev pub IsSettled : Connector → Type 0
IsSettled c = IsBroken c ⊎ IsWaiting c

is_ok_lem : (result : MojoResult) → is_ok result ≡ true → result ≡ MojoResult.ok
unfolding is_ok
is_ok_lem MojoResult.ok h = refl
is_ok_lem _ h = cc

module _ (e : Outside) (p : IsPipe e) where
  open e use {State}
  open p use {pending}

  notify_error-IsBroken :
      (r : Router) (s : State) → Ends (λ x. IsBroken x.0.connector) (notify_error e r s)
  unfolding notify_error
  notify_error-IsBroken r s =
      let c₀ : Connector = record r.connector { error = true } in
      let (c, s₁) = close_message_pipe e c₀ s in
      let (calm, no_wait, no_pipe) = close-Calm e p c₀ s in
      let (actions, s₂) = e.connection_error s₁ in
      Ends-map (CalmRouter e p (record r { connector = c }) s₂) _
        (perform_all e actions (record r { connector = c }) s₂)
        (perform_all-Calm e p actions (record r { connector = c }) s₂)
        (λ x h. record {
          error = h.error ∙ calm.error;
          wait = h.wait no_wait;
          pipe = h.pipe no_pipe;
        })

  -- A read takes no message in, and one that succeeds takes a message out.
  read_message-takes :
      (h : ℕ) (s : State)
      → let (x, s') = read_message e h s in
        (pending s' ≤ pending s) × (x.0 ≡ MojoResult.ok → suc (pending s') ≤ pending s)
  unfolding read_message
  read_message-takes h s =
      let s' = (e.read_message_size h s).1 in
      ground (arith, p.sizes h s, p.sized h s, p.reads h s', p.taken h s')

  dispatch-Calm :
      (result : MojoResult) (m : Message) (r : Router) (s : State)
      → Ends (λ x. Calm e p r.connector s x.1.connector x.2) (dispatch e result m r s)
  unfolding dispatch
  dispatch-Calm result m r s =
      Ends-if _ (is_ok result) _ _ (λ _. handle_incoming-Calm e p m r s)
        (λ _. Calm-none e p r.connector s s (omega arith))

  -- What a round of the loop leaves: an error; or no wait, and fewer messages but where there was none.
  abbrev Progress : State → ((Bool × MojoResult) × Router × State) → Type 0
  Progress s ((false, result), r', s') = IsBroken r'.connector
  Progress s ((true, result), r', s') =
      (r'.connector.error ≡ false)
      × (r'.connector.async_wait_id ≡ 0)
      × (is_should_wait result ≡ false → suc (pending s') ≤ pending s)

  after_dispatch-Progress :
      (s₀ : State) (result : MojoResult) (received : Bool) (r : Router) (s : State)
      → r.connector.error ≡ false
      → r.connector.async_wait_id ≡ 0
      → (result ≡ MojoResult.ok → suc (pending s) ≤ pending s₀)
      → Ends (Progress s₀) (after_dispatch e result received r s)
  unfolding after_dispatch
  after_dispatch-Progress s₀ result received r s good idle takes =
      let refused = r.connector.enforce_errors_from_incoming_receiver && not received in
      Ends-if _ (is_should_wait result) _ _ (λ w. (good, idle, λ z. absurd (ground arith)))
        (λ _.
          Ends-if _ (not (is_ok result) || refused) _ _
            (λ _.
              Ends-bind (λ x. IsBroken x.0.connector) _ (notify_error e r s) _
                (notify_error-IsBroken r s) (λ x h. h))
            (λ fine. (good, idle, λ _. takes (is_ok_lem result (ground arith)))))

  read_single-Progress :
      (r : Router) (s : State)
      → r.connector.error ≡ false
      → r.connector.async_wait_id ≡ 0
      → Ends (Progress s) (read_single_message e r s)
  unfolding read_single_message
  read_single-Progress r s good idle =
      let ((result, m), s₁) = read_message e r.connector.message_pipe s in
      let takes = (read_message-takes r.connector.message_pipe s).1 in
      Ends-bind (λ x. Calm e p r.connector s₁ x.1.connector x.2) _ (dispatch e result m r s₁) _
        (dispatch-Calm result m r s₁)
        (λ x calm.
          after_dispatch-Progress s result x.0 x.1 x.2 (calm.error ∙ good) (calm.wait idle)
            (λ took. omega (arith, takes took, calm.fewer)))

  after_read-IsSettled :
      (rest : Router → State → Run (Router × State)) (s : State)
      (x : (Bool × MojoResult) × Router × State)
      → Progress s x
      → ((r' : Router) (s' : State)
          → r'.connector.error ≡ false
          → r'.connector.async_wait_id ≡ 0
          → suc (pending s') ≤ pending s
          → Ends (λ y. IsSettled y.0.connector) (rest r' s'))
      → Ends (λ y. IsSettled y.0.connector) (after_read e rest x.0 x.1 x.2)
  unfolding after_read wait_to_read_more
  after_read-IsSettled rest s ((false, result), r', s') h next = inl h
  after_read-IsSettled rest s ((true, result), r', s') (good, idle, takes) next =
      Ends-test _ (is_should_wait result) _ _
        (λ _.
          Ends-assert _ (r'.connector.async_wait_id == 0) _
            (inr (record { error = good; wait = p.waits r'.connector.message_pipe s' })))
        (λ more. next r' s' good idle (takes more))

  read_all-IsSettled :
      (f : ℕ) (r : Router) (s : State)
      → r.connector.error ≡ false
      → r.connector.async_wait_id ≡ 0
      → pending s < f
      → Ends (λ x. IsSettled x.0.connector) (read_all_available_messages e f r s)
  unfolding read_all_available_messages
  read_all-IsSettled zero r s good idle enough = absurd (omega arith)
  read_all-IsSettled (suc f) r s good idle enough =
      Ends-test _ r.connector.error _ _ (λ bad. absurd (cc))
        (λ _.
          Ends-bind (Progress s) _ (read_single_message e r s) _
            (read_single-Progress r s good idle)
            (λ x h.
              after_read-IsSettled (read_all_available_messages e f) s x h
                (λ r' s' good' idle' less. read_all-IsSettled f r' s' good' idle' (omega arith))))

-- When a wait for the pipe of a connector in good order ends, with whatever result, and no message
-- comes in meanwhile, one round more than there are messages is enough for OnHandleReady, and unless
-- an assertion fails the connector is then in error with its pipe closed and no wait left, or it is in
-- good order and waits for the pipe again: it does not stop listening.
pub on_handle_ready-IsSettled :
    (e : Outside) (p : IsPipe e) (f : ℕ) (result : MojoResult) (r : Router) (s : e.State)
    → r.connector.error ≡ false
    → r.connector.async_wait_id ≢ 0
    → p.pending s < f
    → Ends (λ x. IsSettled x.0.connector) (on_handle_ready e f result r s)
unfolding on_handle_ready
on_handle_ready-IsSettled e p f result r s good waits enough =
    let r₁ : Router = record r { connector = record r.connector { async_wait_id = 0 } } in
    Ends-assert _ (not (r.connector.async_wait_id == 0)) _ (
      Ends-if _ (not (is_ok result)) _ _
        (λ _.
          Ends-map (λ x. IsBroken x.0.connector) _ (notify_error e r₁ s)
            (notify_error-IsBroken e p r₁ s) (λ x h. inl h))
        (λ _. read_all-IsSettled e p f r₁ s good refl enough))
