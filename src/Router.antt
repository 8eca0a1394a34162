-- ===== src/Router.antt =====
-- mojo::internal::Connector and Router of the C++ bindings (public/cpp/bindings/lib/connector.cc and
-- router.cc): messages that go out, and requests and the responders that wait for their answers.
-- MOJO_CHECK is an assertion; MOJO_DCHECK is left out, as in a
-- build that is not for debugging.
pub mod Incoming
pub mod Reading
pub mod Requests
pub mod Calls
pub mod Settles
pub mod Kept
pub mod Sessions
use mojo.Prelude.{
  ℕ, ◌+◌, ◌%◌, Bool, true, false, not, ◌&&◌, ◌||◌, Option, none, some, List, [], ◌∷◌, ◌==◌,
  if◌then◌else◌,
}
use mojo.Prelude.Maps.{find, erase, assign}
use mojo.Prelude.Run.{Run, ok, fault, ◌>>=◌, assert}
use mojo.System.{MojoResult, busy, failed_precondition}
use mojo.Message.{expects_response, is_response}

-- `Message`, as far as the router looks at it; `body` is all the rest.
pub record Message : Type 0 where
  pub flags : ℕ
  pub request_id : ℕ
  pub body : ℕ

-- What client code calls on a router: Accept, AcceptWithResponder or CloseMessagePipe. A responder is a
-- number that the client knows. The ResponderThunk that a client got for a request calls Accept too, and
-- CloseMessagePipe if it goes unused.
pub data Action : Type 0 where
  send : Message → Action
  request : Message → ℕ → Action
  close_pipe : Action

-- What a client does with a message: what it returns, and what it calls meanwhile.
pub record Answer : Type 0 where
  pub accepted : Bool
  pub actions : List Action

-- The message pipe, the waiter, the validators and the client. None of them is part of the router:
-- they are a parameter, with a state of their own. `incoming` and `incoming_request` are Accept and
-- AcceptWithResponder of the incoming receiver, the latter with whether it used the ResponderThunk.
pub record Outside : Type 1 where
  pub State : Type 0
  pub read_message_size : ℕ → State → MojoResult × State
  pub read_message_raw : ℕ → State → (MojoResult × Message) × State
  pub write_message_raw : ℕ → Message → State → MojoResult × State
  pub wait : ℕ → ℕ → State → MojoResult × State
  pub async_wait : ℕ → State → ℕ × State
  pub cancel : ℕ → State → State
  pub close : ℕ → State → State
  pub validators : List (Message → Bool)
  pub incoming : Message → State → Answer × State
  pub incoming_request : Message → State → (Answer × Bool) × State
  pub respond : ℕ → Message → State → Answer × State
  pub connection_error : State → List Action × State

-- `Connector`; a handle or a wait of 0 is none.
pub record Connector : Type 0 where
  pub message_pipe : ℕ
  pub async_wait_id : ℕ
  pub error : Bool
  pub drop_writes : Bool
  pub enforce_errors_from_incoming_receiver : Bool

-- `Router`; whether there is an incoming receiver is `has_receiver`.
pub record Router : Type 0 where
  pub connector : Connector
  pub has_receiver : Bool
  pub responders : List (ℕ × ℕ)
  pub next_request_id : ℕ

-- What Accept makes of the result of a write.
unfoldable pub write_result : MojoResult → Connector → Run (Bool × Connector)
write_result MojoResult.ok c = ok (true, c)
write_result failed_precondition c = ok (true, record c { drop_writes = true })
write_result busy c = fault
write_result _ c = ok (false, c)

-- `next_request_id_++`, once more where the id is 0: the id, and the next one.
unfoldable pub reserve_request_id : ℕ → ℕ × ℕ
reserve_request_id next_request_id =
    let next = (next_request_id + 1) % 0x10000000000000000 in
    if next_request_id == 0
    then (next, (next + 1) % 0x10000000000000000)
    else (next_request_id, next)

-- `RunValidatorsOnMessage`.
unfoldable pub run_validators_on_message : List (Message → Bool) → Message → Bool
run_validators_on_message [] m = true
run_validators_on_message (v ∷ vs) m = if not (v m) then false else run_validators_on_message vs m

-- The responders of a map.
unfoldable pub values : List (ℕ × ℕ) → List ℕ
values [] = []
values ((k, v) ∷ rs) = v ∷ values rs

-- `Router::EnableTestingMode`.
unfoldable pub enable_testing_mode : Router → Router
enable_testing_mode r = record r {
  connector = record r.connector { enforce_errors_from_incoming_receiver = false };
}

module _ (e : Outside) where
  open e use {State}

  -- `Connector::CancelWait`.
  unfoldable pub cancel_wait : Connector → State → Connector × State
  cancel_wait c s =
      if c.async_wait_id == 0
      then (c, s)
      else (record c { async_wait_id = 0 }, e.cancel c.async_wait_id s)

  -- `Connector::CloseMessagePipe`.
  unfoldable pub close_message_pipe : Connector → State → Connector × State
  unfolding cancel_wait
  close_message_pipe c s =
      let (c', s') = cancel_wait c s in
      if c'.message_pipe == 0
      then (c', s')
      else (record c' { message_pipe = 0 }, e.close c'.message_pipe s')

  -- `Connector::PassMessagePipe`: the handle leaves the connector.
  unfoldable pub pass_message_pipe : Connector → State → ℕ × Connector × State
  unfolding cancel_wait
  pass_message_pipe c s =
      let (c', s') = cancel_wait c s in (c'.message_pipe, record c' { message_pipe = 0 }, s')

  -- `Connector::Accept`. The caller's message loses its handles where they were sent; it is not
  -- followed.
  unfoldable pub connector_accept : Message → Connector → State → Run (Bool × Connector × State)
  unfolding write_result
  connector_accept m c s =
      if c.error
      then ok (false, c, s)
      else assert (not (c.message_pipe == 0)) (
          if c.drop_writes
          then ok (true, c, s)
          else (let (result, s') = e.write_message_raw c.message_pipe m s in
              (do (accepted, c') ← write_result result c; ok (accepted, c', s'))))

  -- `Router::Accept`.
  unfoldable pub router_accept : Message → Router → State → Run (Bool × Router × State)
  unfolding connector_accept
  router_accept m r s = do
    (accepted, c, s') ← connector_accept m r.connector s
    ok (accepted, record r { connector = c }, s')

  -- `Router::AcceptWithResponder`.
  unfoldable pub accept_with_responder : Message → ℕ → Router → State → Run (Bool × Router × State)
  unfolding connector_accept reserve_request_id assign
  accept_with_responder m responder r s =
      let (request_id, next) = reserve_request_id r.next_request_id in
      (do
        (accepted, c, s') ← connector_accept (record m { request_id = request_id }) r.connector s
        ok (
          accepted,
          record r {
            connector = c;
            next_request_id = next;
            responders =
                if accepted then assign request_id responder r.responders else r.responders;
          },
          s',
        ))

  -- `Router::CloseMessagePipe`.
  unfoldable pub router_close : Router → State → Router × State
  unfolding close_message_pipe
  router_close r s =
      let (c, s') = close_message_pipe r.connector s in (record r { connector = c }, s')

  -- `Router::PassMessagePipe`.
  unfoldable pub router_pass : Router → State → ℕ × Router × State
  unfolding pass_message_pipe
  router_pass r s =
      let (handle, c, s') = pass_message_pipe r.connector s in
      (handle, record r { connector = c }, s')

  -- `Router::Router`; a receiver is set later.
  unfoldable pub new_router : ℕ → State → Router × State
  new_router message_pipe s =
      let (id, s') = e.async_wait message_pipe s in
      (
        record {
          connector = record {
            message_pipe = message_pipe;
            async_wait_id = id;
            error = false;
            drop_writes = false;
            enforce_errors_from_incoming_receiver = true;
          };
          has_receiver = false;
          responders = [];
          next_request_id = 0;
        },
        s',
      )

  -- `Router::~Router`: the responders that are deleted, and the end of the connector.
  unfoldable pub destroy_router : Router → State → List ℕ × State
  unfolding close_message_pipe values
  destroy_router r s = (values r.responders, (close_message_pipe r.connector s).1)

  unfoldable pub perform : Action → Router → State → Run (Router × State)
  unfolding router_accept accept_with_responder router_close
  perform (send m) r s = do (_, r', s') ← router_accept m r s; ok (r', s')
  perform (request m responder) r s = do
    (_, r', s') ← accept_with_responder m responder r s
    ok (r', s')
  perform close_pipe r s = ok (router_close r s)

  -- The calls of client code.
  unfoldable pub perform_all : List Action → Router → State → Run (Router × State)
  perform_all [] r s = ok (r, s)
  perform_all (a ∷ actions) r s = do (r', s') ← perform a r s; perform_all actions r' s'
