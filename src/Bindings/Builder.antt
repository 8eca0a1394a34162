-- ===== src/Bindings/Builder.antt =====
-- Messages that are built in the C++ bindings: fixed_buffer.cc and message_builder.cc of
-- public/cpp/bindings/lib. A `size_t` has 64 bits, and MOJO_DCHECK is left out.
use mojo.Prelude.{ℕ, ◌+◌, ◌-◌, ◌%◌, ◌||◌, Option, none, some, ltb, ◌==◌, if◌then◌else◌, word}
use mojo.Prelude.Run.{Run, ok, fault, ◌>>=◌, access}
use mojo.Memory.{Memory, store32, store64}
use mojo.Message.{message_size, message_with_request_id_size}

abbrev pub size_values : ℕ
size_values = 0x10000000000000000

-- `FixedBuffer`.
pub record FixedBuffer : Type 0 where
  pub ptr : ℕ
  pub cursor : ℕ
  pub size : ℕ

-- `Align`.
unfoldable pub align : ℕ → ℕ
align size = (size + (8 - size % 8) % 8) % size_values

-- `FixedBuffer::Allocate`.
unfoldable pub allocate_fixed : ℕ → FixedBuffer → Option ℕ × FixedBuffer
unfolding align
allocate_fixed num_bytes b =
    let delta = align num_bytes in
    if delta == 0 || ltb ((b.size + size_values - b.cursor) % size_values) delta
    then (none, b)
    else (some (b.ptr + b.cursor), record b { cursor = (b.cursor + delta) % size_values })

-- `data_num_bytes` of a message that is initialized for a size.
unfoldable pub data_size : ℕ → ℕ
unfolding align
data_size size = align (size % size_values) % word

-- `MessageBuilder::Initialize`, where `calloc` has yielded the address.
unfoldable pub initialize : ℕ → ℕ → FixedBuffer
unfolding data_size
initialize ptr size = record { ptr = ptr; cursor = 0; size = data_size size }

-- `Allocate` of a header of a size; a null pointer cannot be written through.
unfoldable pub allocate_header : ℕ → Memory → FixedBuffer → Run ((ℕ × Memory) × FixedBuffer)
unfolding allocate_fixed
allocate_header header_size m b =
    let (header, b') = allocate_fixed header_size b in
    elim header [
      | none ↦ fault
      | some h ↦ (do m' ← access (store32 m h header_size); ok ((h, m'), b'))
    ]

-- `MessageBuilder::MessageBuilder`.
unfoldable pub message_builder : Memory → ℕ → ℕ → ℕ → Run (Memory × FixedBuffer)
unfolding initialize allocate_header
message_builder m ptr name payload_size = do
  ((header, m₁), buf) ←
      allocate_header message_size m (initialize ptr (message_size + payload_size))
  m₂ ← access (store32 m₁ (header + 4) 0)
  m₃ ← access (store32 m₂ (header + 8) name)
  m₄ ← access (store32 m₃ (header + 12) 0)
  ok (m₄, buf)

-- `MessageWithRequestIDBuilder::MessageWithRequestIDBuilder`.
unfoldable pub message_with_request_id_builder :
    Memory → ℕ → ℕ → ℕ → ℕ → ℕ → Run (Memory × FixedBuffer)
unfolding initialize allocate_header
message_with_request_id_builder m ptr name payload_size flags request_id = do
  ((header, m₁), buf) ←
      allocate_header message_with_request_id_size m
        (initialize ptr (message_with_request_id_size + payload_size))
  m₂ ← access (store32 m₁ (header + 4) 1)
  m₃ ← access (store32 m₂ (header + 8) name)
  m₄ ← access (store32 m₃ (header + 12) flags)
  m₅ ← access (store64 m₄ (header + 16) request_id)
  ok (m₅, buf)

-- `RequestMessageBuilder` and `ResponseMessageBuilder`.
unfoldable pub request_message_builder : Memory → ℕ → ℕ → ℕ → Run (Memory × FixedBuffer)
unfolding message_with_request_id_builder
request_message_builder m ptr name payload_size =
    message_with_request_id_builder m ptr name payload_size 1 0

unfoldable pub response_message_builder : Memory → ℕ → ℕ → ℕ → ℕ → Run (Memory × FixedBuffer)
unfolding message_with_request_id_builder
response_message_builder m ptr name payload_size request_id =
    message_with_request_id_builder m ptr name payload_size 2 request_id
