-- ===== src/Tests/Validating.antt =====
-- Validation and the header of a message at small inputs.
use mojo.Prelude.{inl, ◌+◌, ◌≤◌, ◌≡◌, refl, [], ◌∷◌, false, arith, sub32}
use mojo.Memory.{Memory, word32, word64, load32, load64, in_bounds}
use mojo.Descriptor.{union_ptr, is_pod}
use mojo.Validation.{
  Context, valid, invalid, fault, illegal_memory_range, struct_validate, dispatch_validate,
  validate_entries, array_validate, validate_elements, follow_pointer, validate_pointer,
  validate_handle, is_valid_size_for_version, validate_array_header,
}
use mojo.Validation.Safe.{Safe, Advances}
use mojo.Validation.Sound.{struct_validate_total}
use mojo.Codec.Nested.{nested_union_past_end}
use mojo.Message
use mojo.Message.{
  validate_header, validate_request_expecting_response, validate_request_without_response,
  validate_response,
}
use mojo.Message.Header.{accepts, one_kind, request_id-within}
use mojo.Tests.Samples.{memory_of, message, tables, tables-IsWellFormed, named_pipe}

abbrev start : Context
start = record { next_handle_index = 0; next_pointer = 1000 }

-- What a run of the validation unfolds.
running : Unit {0}
unfolding struct_validate dispatch_validate validate_entries array_validate validate_elements
    follow_pointer validate_pointer validate_handle is_valid_size_for_version validate_array_header
    load32 load64 in_bounds word32 word64 sub32 is_pod validate_header
    validate_request_expecting_response
running = tt

-- One handle is used, and everything up to the end of the string.
message_valid :
    struct_validate message (dispatch_validate message tables 1 10) named_pipe 1000 40 start
    ≡ valid (record { next_handle_index = 1; next_pointer = 1035 })
unfolding running
message_valid = refl

-- The same bytes, cut off inside the string.
message_cut :
    struct_validate message (dispatch_validate message tables 1 10) named_pipe 1000 32 start
    ≡ invalid illegal_memory_range (record { next_handle_index = 0; next_pointer = 1024 })
unfolding running
message_cut = refl

struct_validate_total_example : Safe (Advances message 1 start) (
    struct_validate message
      (dispatch_validate message tables 1 82)
      (tables.struct_at 0)
      1000
      40
      start)
struct_validate_total_example =
    struct_validate_total message tables 1 tables-IsWellFormed (omega arith) 0 82 (omega arith)

-- A union in eight bytes that points at the end of the message.
abbrev dangling : Memory
dangling = memory_of 1000 (8 ∷ 0 ∷ 0 ∷ 0 ∷ 0 ∷ 0 ∷ 0 ∷ 0 ∷ [])

nested_union_past_end_example :
    dispatch_validate dangling tables 0 1 union_ptr 0 false 1000 8 start ≡ fault
unfolding running
nested_union_past_end_example =
    nested_union_past_end dangling tables 0 0 0 1000 8 false start (omega arith) refl (omega arith)
      (omega arith) refl refl (omega arith)

-- A request with an id that expects a response.
abbrev request : Memory
request = memory_of 1000 (
    24 ∷ 0 ∷ 0 ∷ 0 ∷ 1 ∷ 0 ∷ 0 ∷ 0 ∷ 7 ∷ 0 ∷ 0 ∷ 0 ∷ 1 ∷ 0 ∷ 0 ∷ 0 ∷ 5 ∷ 0 ∷ 0 ∷ 0 ∷ 0 ∷ 0 ∷ 0 ∷ 0
    ∷ [])

request_accepted : validate_header request 1000 24 ≡ Message.accept
unfolding running
request_accepted = refl

request_expects : validate_request_expecting_response request 1000 ≡ Message.accept
unfolding running
request_expects = refl

one_kind_example :
    accepts (validate_request_expecting_response request 1000)
      + accepts (validate_request_without_response request 1000)
      + accepts (validate_response request 1000)
    ≡ 1
one_kind_example = one_kind request 1000 24 (omega arith) (omega arith) request_accepted

request_id-within_example : (24 ≤ word32 request.byte 1000) × (word32 request.byte 1000 ≤ 24)
request_id-within_example =
    request_id-within request 1000 24 (omega arith) (omega arith) request_accepted
      (inl request_expects)
