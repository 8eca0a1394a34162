-- ===== src/Message.antt =====
-- Validation of a message's header: public/c/lib/bindings/message.c.
pub mod Header
use mojo.Prelude.{
  ℕ, ◌+◌, ◌/◌, ◌%◌, Bool, true, false, not, ◌&&◌, ◌||◌, Option, none, some, ltb, ◌==◌,
  if◌then◌else◌,
}
use mojo.Memory.{Memory, load32}
use mojo.Validation.{
  ValidationError, illegal_memory_range, unexpected_struct_header, message_header_invalid_flags,
  message_header_missing_request_id,
}

-- MOJOM_VALIDATION_ERROR_NONE, an error, or a read outside the memory.
pub data Verdict : Type 0 where
  accept : Verdict
  refuse : ValidationError → Verdict
  fault : Verdict

infixl 5 ◌>>=◌
abbrev pub ◌>>=◌ : Option ℕ → (ℕ → Verdict) → Verdict
none >>= k = fault
some v >>= k = k v

-- `flags & MOJOM_MESSAGE_FLAGS_EXPECTS_RESPONSE`, bit 0.
unfoldable pub expects_response : ℕ → Bool
expects_response flags = flags % 2 == 1

-- `flags & MOJOM_MESSAGE_FLAGS_IS_RESPONSE`, bit 1.
unfoldable pub is_response : ℕ → Bool
is_response flags = flags / 2 % 2 == 1

-- `sizeof(struct MojomMessage)` and `sizeof(struct MojomMessageWithRequestId)`.
abbrev pub message_size : ℕ
message_size = 16

abbrev pub message_with_request_id_size : ℕ
message_with_request_id_size = 24

-- The check behind the ones on the version.
unfoldable pub check_exclusive : Memory → ℕ → Verdict
unfolding expects_response is_response
check_exclusive m in_buf = do
  flags ← load32 m (in_buf + 12)
  if expects_response flags && is_response flags
      then refuse message_header_invalid_flags
      else accept

-- The checks that depend on the version.
unfoldable pub check_version : Memory → ℕ → ℕ → ℕ → Verdict
unfolding check_exclusive
check_version m in_buf num_bytes version =
    if version == 0
    then (if not (num_bytes == message_size) then refuse unexpected_struct_header else do
      flags ← load32 m (in_buf + 12)
      if expects_response flags || is_response flags
          then refuse message_header_missing_request_id
          else check_exclusive m in_buf)
    else if version == 1
    then (if not (num_bytes == message_with_request_id_size)
        then refuse unexpected_struct_header
        else check_exclusive m in_buf)
    else if ltb num_bytes message_with_request_id_size
    then refuse unexpected_struct_header
    else check_exclusive m in_buf

-- `MojomMessage_ValidateHeader`.
unfoldable pub validate_header : Memory → ℕ → ℕ → Verdict
unfolding check_version
validate_header m in_buf in_buf_size = if ltb in_buf_size 8 then refuse illegal_memory_range else do
  num_bytes ← load32 m in_buf
  if ltb in_buf_size num_bytes
      then refuse illegal_memory_range
      else do version ← load32 m (in_buf + 4); check_version m in_buf num_bytes version

-- `MojomMessage_ValidateRequestExpectingResponse`.
unfoldable pub validate_request_expecting_response : Memory → ℕ → Verdict
unfolding expects_response
validate_request_expecting_response m in_buf = do
  flags ← load32 m (in_buf + 12)
  if expects_response flags then accept else refuse message_header_invalid_flags

-- `MojomMessage_ValidateRequestWithoutResponse`.
unfoldable pub validate_request_without_response : Memory → ℕ → Verdict
unfolding expects_response is_response
validate_request_without_response m in_buf = do
  flags ← load32 m (in_buf + 12)
  if not (expects_response flags) && not (is_response flags)
      then accept
      else refuse message_header_invalid_flags

-- `MojomMessage_ValidateResponse`.
unfoldable pub validate_response : Memory → ℕ → Verdict
unfolding is_response
validate_response m in_buf = do
  flags ← load32 m (in_buf + 12)
  if is_response flags then accept else refuse message_header_invalid_flags
