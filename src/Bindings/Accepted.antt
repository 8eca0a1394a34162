-- ===== src/Bindings/Accepted.antt =====
-- The messages that the builders of public/cpp/bindings/lib/message_builder.cc make have headers that
-- the validators accept.
use mojo.Bindings.Built.{
  framed, framed-words, data_size_lem, Framed, message_builder-Framed,
  message_with_request_id_builder-Framed,
}
use mojo.Prelude.{
  ℕ, ◌+◌, ◌%◌, ◌≤◌, ◌<◌, ◌≡◌, refl, ◌∙◌, sym, ap, some, word, arith, inl, inr, ◌*◌, ◌⊎◌,
}
use mathlib.Core.Path.{transport}
use mojo.Prelude.Run.{Run, Returns, Returns-map}
use mojo.Memory.{Memory, put64, word32, load32, load64}
use mojo.Memory.Laws.{load32_lem, load64_lem, word32-put64_ne, word64-put64_self}
use mojo.Message.{accept, validate_header, expects_response, is_response}
use mojo.Message.Header.{IsHeader, validate_header-accept}
use mojo.Bindings.{
  validate_header_of, validate_message_is_request_expecting_response,
  validate_message_is_request_without_response, validate_message_is_response,
}
use mojo.Bindings.Agree.{validators_agree}
use mojo.Bindings.Builder.{
  FixedBuffer, data_size, message_builder, message_with_request_id_builder, request_message_builder,
  response_message_builder,
}

-- A message by its builder: a response has a request id.
pub data BuiltMessage : Type 0 where
  plain request : BuiltMessage
  response : ℕ → BuiltMessage

abbrev pub header_size : BuiltMessage → ℕ
header_size plain = 16
header_size request = 24
header_size (response request_id) = 24

abbrev pub build : BuiltMessage → Memory → ℕ → ℕ → ℕ → Run (Memory × FixedBuffer)
build plain m ptr name payload = message_builder m ptr name payload
build request m ptr name payload = request_message_builder m ptr name payload
build (response request_id) m ptr name payload =
    response_message_builder m ptr name payload request_id

-- The message is of its kind, and has its request id, cut to 64 bits, if it has one.
abbrev pub IsOfKind : BuiltMessage → Memory → ℕ → Type 0
IsOfKind plain m ptr = validate_message_is_request_without_response m ptr ≡ accept
IsOfKind request m ptr =
    (validate_message_is_request_expecting_response m ptr ≡ accept) × (load64 m (ptr + 16) ≡ some 0)
IsOfKind (response request_id) m ptr =
    (validate_message_is_response m ptr ≡ accept) × (load64 m (ptr + 16) ≡ some request_id)

abbrev pub FitsKind : BuiltMessage → Type 0
FitsKind (response request_id) = request_id < word * word
FitsKind kind = Unit {0}

IsHeader_lem :
    (m : Memory) (p size num_bytes version flags : ℕ)
    → word32 m.byte p ≡ num_bytes
    → word32 m.byte (p + 4) ≡ version
    → word32 m.byte (p + 12) ≡ flags
    → num_bytes ≤ size
    → ((version ≡ 0) × (num_bytes ≡ 16) × (flags ≡ 0))
      ⊎ ((version ≡ 1) × (num_bytes ≡ 24) × (flags < 3))
    → IsHeader m p size
IsHeader_lem m p size num_bytes version flags a b c l k = record {
  header = elim k [ inl (v, n, f) ↦ omega arith | inr (v, n, f) ↦ omega arith ];
  within = omega arith;
  bare = λ h. elim k [
    | inl (v, n, f) ↦ (omega arith, omega arith)
    | inr (v, n, f) ↦ absurd (omega arith)
  ];
  with_id = λ h. elim k [ inl (v, n, f) ↦ omega arith | inr (v, n, f) ↦ omega arith ];
  later = λ h. elim k [ inl (v, n, f) ↦ omega arith | inr (v, n, f) ↦ omega arith ];
  exclusive = elim k [ inl (v, n, f) ↦ λ h. omega arith | inr (v, n, f) ↦ λ h. omega arith ];
}

module _ (m : Memory) (ptr payload : ℕ) (low : m.base ≤ ptr) (small : payload + 32 < word)
    (top : ptr + payload + 32 < 0x10000000000000000) (aligned : ptr % 8 ≡ 0) where
  abbrev Accepted : ℕ → Memory → Type 0
  Accepted size m' =
      (validate_header_of m' ptr size ≡ accept) × (validate_header m' ptr size ≡ accept)

  header-Accepted :
      (m' : Memory) (size : ℕ)
      → m'.base ≤ ptr
      → ptr + size ≤ m'.base + m'.size
      → ptr + size < 0x10000000000000000
      → IsHeader m' ptr size
      → Accepted size m'
  header-Accepted m' size l h t g =
      let c = (validate_header-accept m' ptr size l h).1 g in
      ((validators_agree m' ptr size l h t aligned).1 c, c)

  plain-Accepted :
      (name : ℕ)
      → ptr + data_size (16 + payload) ≤ m.base + m.size
      → let m' : Memory = record m { byte = framed m.byte ptr 16 0 name 0 } in
        Accepted (data_size (16 + payload)) m' × IsOfKind plain m' ptr
  unfolding validate_message_is_request_without_response expects_response is_response
  plain-Accepted name high =
      let m' : Memory = record m { byte = framed m.byte ptr 16 0 name 0 } in
      let (a, b, c) = framed-words m.byte ptr 16 0 name 0 in
      let d = data_size_lem 16 payload (omega arith) (omega arith) in
      (
        header-Accepted m' (data_size (16 + payload)) low high (omega arith) (
            IsHeader_lem m' ptr (data_size (16 + payload)) 16 0 0 a b c (omega arith)
              (inl (refl, refl, refl))),
        rw (load32_lem m' (ptr + 12) (omega arith) (omega arith), c) (ground arith),
      )

  with_id-Accepted :
      (name flags request_id : ℕ)
      → flags < 3
      → ptr + data_size (24 + payload) ≤ m.base + m.size
      → let f = framed m.byte ptr 24 1 name flags in
        let m' : Memory = record m { byte = put64 f (ptr + 16) request_id } in
        Accepted (data_size (24 + payload)) m'
        × (load32 m' (ptr + 12) ≡ some flags)
        × (request_id < word * word → load64 m' (ptr + 16) ≡ some request_id)
  with_id-Accepted name flags request_id few high =
      let f = framed m.byte ptr 24 1 name flags in
      let f' = put64 f (ptr + 16) request_id in
      let m' : Memory = record m { byte = f' } in
      let (a, b, c) = framed-words m.byte ptr 24 1 name flags in
      let d = data_size_lem 24 payload (omega arith) (omega arith) in
      let a' = word32-put64_ne f (ptr + 16) request_id ptr (omega arith) ∙ a in
      let b' = word32-put64_ne f (ptr + 16) request_id (ptr + 4) (omega arith) ∙ b in
      let c' : word32 f' (ptr + 12) ≡ flags =
        word32-put64_ne f (ptr + 16) request_id (ptr + 12) (omega arith) ∙ c ∙ omega arith in
      (
        header-Accepted m' (data_size (24 + payload)) low high (omega arith) (
            IsHeader_lem m' ptr (data_size (24 + payload)) 24 1 flags a' b' c' (omega arith)
              (inr (refl, refl, few))),
        load32_lem m' (ptr + 12) (omega arith) (omega arith) ∙ ap some c',
        λ h.
            load64_lem m' (ptr + 16) (omega arith) (omega arith)
            ∙ ap some (word64-put64_self f (ptr + 16) request_id h),
      )

  abbrev pub Built : BuiltMessage → Memory × FixedBuffer → Type 0
  Built kind (m', b) =
      Accepted (data_size (header_size kind + payload)) m'
      × IsOfKind kind m' ptr
      × (b.cursor ≡ header_size kind)

  Framed-Built :
      (kind : BuiltMessage) (f : ℕ → ℕ) (r : Memory × FixedBuffer)
      → Framed m f ptr (header_size kind + payload) (header_size kind) r
      → Accepted (data_size (header_size kind + payload)) (record m { byte = f })
        × IsOfKind kind (record m { byte = f }) ptr
      → Built kind r
  Framed-Built kind f (m', b) (a, e) h =
      let t =
        transport
          (λ i.
            Accepted (data_size (header_size kind + payload)) (sym a i)
            × IsOfKind kind (sym a i) ptr)
          h in
      (t.0, t.1, ap (λ q. q.cursor) e)

  request_kind :
      (m' : Memory)
      → load32 m' (ptr + 12) ≡ some 1
      → validate_message_is_request_expecting_response m' ptr ≡ accept
  unfolding validate_message_is_request_expecting_response expects_response is_response
  request_kind m' l = rw l refl

  response_kind :
      (m' : Memory) → load32 m' (ptr + 12) ≡ some 2 → validate_message_is_response m' ptr ≡ accept
  unfolding validate_message_is_response expects_response is_response
  response_kind m' l = rw l refl

  -- Where the memory that is allocated for it lies at an aligned address and no address in it wraps
  -- around, each builder returns, and its message has a header that the validators of the C++ and of
  -- the C bindings accept, is of the builder's kind and has its request id; behind the header the
  -- buffer is free for the payload.
  pub build-Built :
      (kind : BuiltMessage) (name : ℕ)
      → FitsKind kind
      → ptr + data_size (header_size kind + payload) ≤ m.base + m.size
      → Returns (Built kind) (build kind m ptr name payload)
  unfolding request_message_builder response_message_builder
  build-Built plain name fits high =
      Returns-map _ _ (message_builder m ptr name payload)
        (message_builder-Framed m ptr low name payload small high)
        (λ r h. Framed-Built plain _ r h (plain-Accepted name high))
  build-Built request name fits high =
      let (x, l, d) = with_id-Accepted name 1 0 (omega arith) high in
      Returns-map _ _ (message_with_request_id_builder m ptr name payload 1 0)
        (message_with_request_id_builder-Framed m ptr low name payload 1 0 small high)
        (λ r h. Framed-Built request _ r h (x, (request_kind _ l, d (omega arith))))
  build-Built (response request_id) name fits high =
      let (x, l, d) = with_id-Accepted name 2 request_id (omega arith) high in
      Returns-map _ _ (message_with_request_id_builder m ptr name payload 2 request_id)
        (message_with_request_id_builder-Framed m ptr low name payload 2 request_id small high)
        (λ r h. Framed-Built (response request_id) _ r h (x, (response_kind _ l, d fits)))
