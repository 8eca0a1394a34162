-- ===== src/Tests/Routing.antt =====
-- A router at small inputs.
use mojo.Router.Incoming.{delete_responder, handle_request, handle_message, handle_incoming_message}
use mojo.Prelude.{ℕ, suc, ◌≤◌, ◌≡◌, refl, true, false, List, [], ◌∷◌, arith}
use mojo.Prelude.Maps.{find, assign}
use mojo.Prelude.Run.{ok, fault, Ends, Yields, Returns}
use mojo.System.{MojoResult, should_wait, resource_exhausted}
use mojo.System.Calls.{is_ok}
use mojo.Message.{expects_response, is_response}
use mojo.Router.{
  Message, send, request, Outside, Connector, Router, write_result, reserve_request_id,
  run_validators_on_message, close_message_pipe, new_router, connector_accept, router_accept,
  accept_with_responder, perform, perform_all,
}
use mojo.Router.Reading.{
  is_should_wait, is_resource_exhausted, read_message, dispatch, after_dispatch,
  read_single_message, wait_to_read_more, after_read, read_all_available_messages, on_handle_ready,
}
use mojo.Router.Requests.{answered, Refuses, response-handled_once}
use mojo.Router.Calls.{IsPipe}
use mojo.Router.Settles.{IsSettled, on_handle_ready-IsSettled}
use mojo.Router.Kept.{IsRouter}
use mojo.Router.Sessions.{
  handle_ready, wait_for_message, client_calls, pipe_passed, handle_events, handle_events-IsRouter,
  accept-close_message_pipe,
}

-- The messages in the pipe.
abbrev Inbox : Type 0
Inbox = List Message

abbrev size_of_first : Inbox → MojoResult × Inbox
size_of_first [] = (should_wait, [])
size_of_first (m ∷ ms) = (resource_exhausted, m ∷ ms)

abbrev take_first : Inbox → (MojoResult × Message) × Inbox
take_first [] = ((should_wait, record { flags = 0; request_id = 0; body = 0 }), [])
take_first (m ∷ ms) = ((MojoResult.ok, m), ms)

-- A client that takes every message, answers a request at once, and makes a request when it gets a
-- response. Every wait has the id 9.
abbrev outside : Outside
outside = record {
  State = Inbox;
  read_message_size = λ h s. size_of_first s;
  read_message_raw = λ h s. take_first s;
  write_message_raw = λ h m s. (MojoResult.ok, s);
  wait = λ h d s. (MojoResult.ok, s);
  async_wait = λ h s. (9, s);
  cancel = λ i s. s;
  close = λ h s. s;
  validators = [];
  incoming = λ m s. (record { accepted = true; actions = [] }, s);
  incoming_request = λ m s. ((record { accepted = true; actions = send m ∷ [] }, true), s);
  respond = λ i m s. (record { accepted = true; actions = request m (suc i) ∷ [] }, s);
  connection_error = λ s. ([], s);
}

abbrev count : Inbox → ℕ
count [] = 0
count (m ∷ ms) = suc (count ms)

sizes-le : (s : Inbox) → count (size_of_first s).1 ≤ count s
sizes-le [] = omega arith
sizes-le (m ∷ ms) = omega arith

sizes-ok :
    (s : Inbox) → (size_of_first s).0 ≡ MojoResult.ok → suc (count (size_of_first s).1) ≤ count s
sizes-ok [] h = cc
sizes-ok (m ∷ ms) h = cc

takes-le : (s : Inbox) → count (take_first s).1 ≤ count s
takes-le [] = omega arith
takes-le (m ∷ ms) = omega arith

takes-ok : (s : Inbox) → (take_first s).0.0 ≡ MojoResult.ok → suc (count (take_first s).1) ≤ count s
takes-ok [] h = cc
takes-ok (m ∷ ms) h = omega arith

abbrev pipe : IsPipe outside
pipe = record {
  pending = count;
  sizes = λ h s. sizes-le s;
  sized = λ h s. sizes-ok s;
  reads = λ h s. takes-le s;
  taken = λ h s. takes-ok s;
  writes = λ h m s. omega arith;
  cancels = λ i s. omega arith;
  closes = λ h s. omega arith;
  calls = λ m s. omega arith;
  requests = λ m s. omega arith;
  responds = λ i m s. omega arith;
  waits = λ h s. ground arith;
}

-- In good order, and waiting for its pipe, 5.
abbrev connector : Connector
connector = record {
  message_pipe = 5;
  async_wait_id = 9;
  error = false;
  drop_writes = false;
  enforce_errors_from_incoming_receiver = true;
}

abbrev router : Router
router = record { connector = connector; has_receiver = true; responders = []; next_request_id = 0 }

abbrev plain : Message
plain = record { flags = 0; request_id = 0; body = 3 }

abbrev asking : Message
asking = record { flags = 1; request_id = 0; body = 4 }

abbrev response : Message
response = record { flags = 2; request_id = 1; body = 5 }

-- The first request has the id 1, and responder 7 is filed under it.
asked : Router
asked = record router { responders = (1, 7) ∷ []; next_request_id = 2 }

first_request : accept_with_responder outside asking 7 router [] ≡ ok (true, asked, [])
unfolding accept_with_responder connector_accept write_result reserve_request_id assign asked
first_request = refl

response-handled_once_example :
    (handle_incoming_message outside response asked []
      ≡ answered outside 7 response (record asked { responders = [] }) [])
    × Yields (Refuses outside response) (handle_incoming_message outside response asked [])
unfolding reserve_request_id find run_validators_on_message expects_response is_response
response-handled_once_example =
    response-handled_once outside asking response 7 router asked [] [] [] tt refl refl first_request
      refl refl refl (omega arith)

on_handle_ready-IsSettled_example :
    Ends
      (λ x. IsSettled x.0.connector)
      (on_handle_ready outside 3 MojoResult.ok router (plain ∷ asking ∷ []))
on_handle_ready-IsSettled_example =
    on_handle_ready-IsSettled outside pipe 3 MojoResult.ok router (plain ∷ asking ∷ []) refl
      (ground arith) (omega arith)

handle_events-IsRouter_example :
    let (r, s) = new_router outside 5 (plain ∷ response ∷ []) in
    Yields
      (λ x. IsRouter x.0)
      (handle_events outside 3
        (client_calls (request asking 7 ∷ [])
          ∷ handle_ready MojoResult.ok
          ∷ wait_for_message 10
          ∷ pipe_passed
          ∷ [])
        (record r { has_receiver = true })
        s)
handle_events-IsRouter_example =
    handle_events-IsRouter outside 3 5 true
      (client_calls (request asking 7 ∷ [])
        ∷ handle_ready MojoResult.ok
        ∷ wait_for_message 10
        ∷ pipe_passed
        ∷ [])
      (plain ∷ response ∷ [])

accept-close_message_pipe_example :
    ((close_message_pipe outside connector []).0.error ≡ false)
    × (connector_accept outside plain (close_message_pipe outside connector []).0 [] ≡ fault)
accept-close_message_pipe_example = accept-close_message_pipe outside plain connector [] [] refl

-- Both messages are read, and the connector waits again.
both_read :
    Returns
      (λ x. (x.1 ≡ []) × (x.0.connector.async_wait_id ≡ 9) × (x.0.connector.error ≡ false))
      (on_handle_ready outside 3 MojoResult.ok router (plain ∷ asking ∷ []))
unfolding on_handle_ready read_all_available_messages after_read wait_to_read_more
    read_single_message after_dispatch dispatch read_message is_ok is_should_wait
    is_resource_exhausted handle_incoming_message handle_request handle_message delete_responder
    perform_all perform router_accept connector_accept write_result run_validators_on_message
    expects_response is_response
both_read = (refl, refl, refl)
