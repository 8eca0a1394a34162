-- ===== src/Bindings.antt =====
-- Validation in the C++ bindings (public/cpp/bindings/lib): BoundsChecker, validation_util.cc,
-- message_header_validator.cc and message_validation.cc. Pointers have 64 bits, and MOJO_DCHECK is left
-- out, as in a build that is not for debugging.
pub mod Claims
pub mod Agree
pub mod Handles
pub mod Builder
pub mod Built
pub mod Accepted
pub mod Pointers
use mojo.Prelude.{
  ℕ, ◌+◌, ◌%◌, Bool, true, false, not, ◌&&◌, ◌||◌, Option, none, some, ltb, leb, ◌==◌,
  if◌then◌else◌, word,
}
use mojo.Memory.{Memory, load32}
use mojo.Validation.{
  ValidationError, misaligned_object, illegal_memory_range, unexpected_struct_header,
  message_header_invalid_flags, message_header_missing_request_id, encoded_handle_invalid,
}
use mojo.Message.{
  Verdict, accept, refuse, fault, ◌>>=◌, expects_response, is_response, message_size,
  message_with_request_id_size,
}

pub record BoundsChecker : Type 0 where
  pub data_begin : ℕ
  pub data_end : ℕ
  pub handle_begin : ℕ
  pub handle_end : ℕ

-- A sum of `uintptr_t`.
unfoldable pub add_address : ℕ → ℕ → ℕ
add_address a b = (a + b) % 0x10000000000000000

-- `BoundsChecker::BoundsChecker`.
unfoldable pub new_bounds_checker : ℕ → ℕ → ℕ → BoundsChecker
unfolding add_address
new_bounds_checker data_begin data_num_bytes num_handles =
    let data_end = add_address data_begin data_num_bytes in
    let handle_end = num_handles % word in
    record {
      data_begin = data_begin;
      data_end = if ltb data_end data_begin then data_begin else data_end;
      handle_begin = 0;
      handle_end = if ltb handle_end num_handles then 0 else handle_end;
    }

-- `BoundsChecker::InternalIsValidRange`.
unfoldable pub internal_is_valid_range : ℕ → ℕ → BoundsChecker → Bool
internal_is_valid_range begin end c = ltb begin end && leb c.data_begin begin && leb end c.data_end

unfoldable pub is_valid_range : ℕ → ℕ → BoundsChecker → Bool
unfolding internal_is_valid_range add_address
is_valid_range position num_bytes c =
    internal_is_valid_range position (add_address position num_bytes) c

-- Whether the claim succeeds, and the bounds after it.
unfoldable pub claim_memory : ℕ → ℕ → BoundsChecker → Bool × BoundsChecker
unfolding internal_is_valid_range add_address
claim_memory position num_bytes c =
    let end = add_address position num_bytes in
    if not (internal_is_valid_range position end c)
    then (false, c)
    else (true, record c { data_begin = end })

unfoldable pub claim_handle : ℕ → BoundsChecker → Bool × BoundsChecker
claim_handle index c =
    if index == encoded_handle_invalid
    then (true, c)
    else if ltb index c.handle_begin || leb c.handle_end index
    then (false, c)
    else (true, record c { handle_begin = (index + 1) % word })

-- `IsAligned`.
unfoldable pub is_aligned : ℕ → Bool
is_aligned ptr = ptr % 8 == 0

-- `ValidateStructHeaderAndClaimMemory`; what follows an accepted header gets the bounds after it.
unfoldable pub validate_struct_header_and_claim_memory :
    Memory → ℕ → BoundsChecker → (BoundsChecker → Verdict) → Verdict
unfolding is_valid_range claim_memory is_aligned
validate_struct_header_and_claim_memory m pointer c next =
    if not (is_aligned pointer)
    then refuse misaligned_object
    else if not (is_valid_range pointer 8 c)
    then refuse illegal_memory_range
    else do
      num_bytes ← load32 m pointer
      let (claimed, c') = claim_memory pointer num_bytes c in
          if ltb num_bytes 8
          then refuse unexpected_struct_header
          else if not claimed
          then refuse illegal_memory_range
          else next c'

-- The checks of `ValidateMessageHeader` on the flags.
unfoldable pub validate_flags : ℕ → ℕ → Verdict
unfolding expects_response is_response
validate_flags version flags =
    if ltb version 1 && (expects_response flags || is_response flags)
    then refuse message_header_missing_request_id
    else if expects_response flags && is_response flags
    then refuse message_header_invalid_flags
    else accept

-- `ValidateMessageHeader`.
unfoldable pub validate_message_header : Memory → ℕ → Verdict
unfolding validate_flags
validate_message_header m header = do
  version ← load32 m (header + 4)
  num_bytes ← load32 m header
  let flags_checked : Verdict = (do flags ← load32 m (header + 12); validate_flags version flags)
  if version == 0
      then (if not (num_bytes == message_size)
          then refuse unexpected_struct_header
          else flags_checked)
      else if version == 1
      then (if not (num_bytes == message_with_request_id_size)
          then refuse unexpected_struct_header
          else flags_checked)
      else if ltb num_bytes message_with_request_id_size
      then refuse unexpected_struct_header
      else flags_checked

-- `MessageHeaderValidator::Validate`.
unfoldable pub validate_header_of : Memory → ℕ → ℕ → Verdict
unfolding new_bounds_checker validate_struct_header_and_claim_memory validate_message_header
validate_header_of m message num_bytes =
    validate_struct_header_and_claim_memory m message (new_bounds_checker message num_bytes 0)
      (λ _. validate_message_header m message)

-- `ValidateMessageIsRequestWithoutResponse`.
unfoldable pub validate_message_is_request_without_response : Memory → ℕ → Verdict
unfolding expects_response is_response
validate_message_is_request_without_response m message = do
  flags ← load32 m (message + 12)
  if is_response flags
      then refuse message_header_invalid_flags
      else if expects_response flags
      then refuse message_header_invalid_flags
      else accept

-- `ValidateMessageIsRequestExpectingResponse`.
unfoldable pub validate_message_is_request_expecting_response : Memory → ℕ → Verdict
unfolding expects_response is_response
validate_message_is_request_expecting_response m message = do
  flags ← load32 m (message + 12)
  if is_response flags
      then refuse message_header_invalid_flags
      else if not (expects_response flags)
      then refuse message_header_invalid_flags
      else accept

-- `ValidateMessageIsResponse`.
unfoldable pub validate_message_is_response : Memory → ℕ → Verdict
unfolding expects_response is_response
validate_message_is_response m message = do
  flags ← load32 m (message + 12)
  if expects_response flags || not (is_response flags)
      then refuse message_header_invalid_flags
      else accept
