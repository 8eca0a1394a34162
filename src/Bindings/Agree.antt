-- ===== src/Bindings/Agree.antt =====
-- The C++ bindings and the C bindings judge the header of a message alike.
use mojo.Prelude.{
  ℕ, ◌+◌, ◌%◌, ◌≤◌, ◌<◌, ◌≡◌, ◌↔◌, arith, ltb, leb, word, true, ltb→lt, not, if◌then◌else◌, ◌∙◌,
  Bool-cases, inl, inr, refl,
}
use mojo.Memory.{Memory, word32}
use mojo.Memory.Laws.{load32_lem, word32-lt}
use mojo.Validation.{unexpected_struct_header, illegal_memory_range}
use mojo.Message.{
  Verdict, accept, refuse, validate_header, expects_response, is_response,
  validate_request_expecting_response, validate_request_without_response, validate_response,
}
use mojo.Message.Header.{IsHeader, validate_header-accept, size_of_header}
use mojo.Bindings.{
  BoundsChecker, validate_header_of, validate_message_header,
  validate_struct_header_and_claim_memory, new_bounds_checker, is_valid_range, claim_memory,
  internal_is_valid_range, add_address, is_aligned, validate_flags,
  validate_message_is_request_expecting_response, validate_message_is_request_without_response,
  validate_message_is_response,
}

module _ (m : Memory) (p size : ℕ) (low : m.base ≤ p) (high : p + size ≤ m.base + m.size)
    (top : p + size < 0x10000000000000000) (aligned : p % 8 ≡ 0) where
  whole-IsHeader :
      (num_bytes version : ℕ)
      → num_bytes ≡ word32 m.byte p
      → version ≡ word32 m.byte (p + 4)
      → 8 ≤ size
      → num_bytes ≤ size
      → (validate_message_header m p ≡ accept) ↔ IsHeader m p size
  unfolding validate_message_header validate_flags expects_response is_response
  whole-IsHeader num_bytes version e f header within =
      rw (load32_lem m p low (ground arith), load32_lem m (p + 4) (omega arith) (ground arith))
        (
          λ h. ground (arith, load32_lem m (p + 12) (omega arith)),
          λ h. ground (arith, h.bare, h.with_id, h.later, load32_lem m (p + 12) (omega arith)),
        )

  range_valid :
      (n : ℕ) → 0 < n → n < word → is_valid_range p n (new_bounds_checker p size 0) ≡ leb n size
  unfolding is_valid_range internal_is_valid_range add_address new_bounds_checker
  range_valid n some_bytes few = ground arith

  claim_valid : (n : ℕ) (c : BoundsChecker) → (claim_memory p n c).0 ≡ is_valid_range p n c
  unfolding claim_memory is_valid_range
  claim_valid n c = ground arith

  is_aligned_lem : is_aligned p ≡ true
  unfolding is_aligned
  is_aligned_lem = ground arith

  -- A claim of the bytes that the header says, behind a valid range for the header itself.
  claimed-accept :
      (num_bytes : ℕ)
      → num_bytes ≡ word32 m.byte p
      → 8 ≤ size
      → ((if ltb num_bytes 8
            then refuse unexpected_struct_header
            else if not (claim_memory p num_bytes (new_bounds_checker p size 0)).0
            then refuse illegal_memory_range
            else validate_message_header m p)
          ≡ accept)
        ↔ IsHeader m p size
  claimed-accept num_bytes e header = elim (Bool-cases (ltb num_bytes 8)) [
    | inl short ↦ rw short (
      λ h. cc,
      λ h. absurd (omega (arith, size_of_header m p size low high h, ltb→lt num_bytes 8 short)),
    )
    | inr whole ↦
        let bound = word32-lt m.byte p in
        let r =
          claim_valid num_bytes (new_bounds_checker p size 0)
          ∙ range_valid num_bytes (ground arith) (omega arith) in
        elim (Bool-cases (leb num_bytes size)) [
          | inl fits ↦
              rw (whole, r, fits)
                (whole-IsHeader num_bytes (word32 m.byte (p + 4)) e refl header (ground arith))
          | inr long ↦ rw (whole, r, long) (λ h. cc, λ h. absurd (let w = h.within in ground arith))
        ]
  ]

  struct_header_lem :
      (next : BoundsChecker → Verdict)
      → validate_struct_header_and_claim_memory m p (new_bounds_checker p size 0) next ≡ (
          if leb 8 size
          then (let (claimed, c) = claim_memory p (word32 m.byte p) (new_bounds_checker p size 0) in
              if ltb (word32 m.byte p) 8
              then refuse unexpected_struct_header
              else if not claimed
              then refuse illegal_memory_range
              else next c)
          else refuse illegal_memory_range)
  unfolding validate_struct_header_and_claim_memory
  struct_header_lem next = elim (Bool-cases (leb 8 size)) [
    | inl whole ↦
        rw
          (
            is_aligned_lem,
            range_valid 8 (omega arith) (omega arith),
            whole,
            load32_lem m p low (ground arith),
          )
          refl
    | inr short ↦ rw (is_aligned_lem, range_valid 8 (omega arith) (omega arith), short) refl
  ]

  validate_header_of-accept : (validate_header_of m p size ≡ accept) ↔ IsHeader m p size
  unfolding validate_header_of
  validate_header_of-accept =
      rw (struct_header_lem (λ _. validate_message_header m p)) (elim (Bool-cases (leb 8 size)) [
        | inl whole ↦ rw whole (claimed-accept (word32 m.byte p) refl (ground arith))
        | inr short ↦ rw short (λ h. cc, λ h. absurd (let w = h.header in ground arith))
      ])

-- Where a message lies in the memory at an aligned address, and no address in it wraps around, the
-- header validators of the C++ and the C bindings accept the same messages.
pub validators_agree :
    (m : Memory) (p size : ℕ)
    → m.base ≤ p
    → p + size ≤ m.base + m.size
    → p + size < 0x10000000000000000
    → p % 8 ≡ 0
    → (validate_header_of m p size ≡ accept) ↔ (validate_header m p size ≡ accept)
validators_agree m p size low high top aligned =
    let cpp = validate_header_of-accept m p size low high top aligned in
    let c = validate_header-accept m p size low high in (λ h. c.1 (cpp.0 h), λ h. cpp.1 (c.0 h))

-- Of a message in the memory with a header that the C bindings accept, the C++ and the C bindings
-- say alike whether it is a request that expects a response, one that expects none, or a response.
pub kinds_agree :
    (m : Memory) (p size : ℕ)
    → m.base ≤ p
    → p + size ≤ m.base + m.size
    → validate_header m p size ≡ accept
    → (validate_message_is_request_expecting_response m p ≡ validate_request_expecting_response m p)
      × (validate_message_is_request_without_response m p ≡ validate_request_without_response m p)
      × (validate_message_is_response m p ≡ validate_response m p)
unfolding validate_message_is_request_expecting_response
    validate_message_is_request_without_response validate_message_is_response
    validate_request_expecting_response validate_request_without_response validate_response
    expects_response is_response
kinds_agree m p size low high ok =
    let h = (validate_header-accept m p size low high).0 ok in
    rw
      (load32_lem m (p + 12) (omega arith)
        (omega (arith, size_of_header m p size low high h, h.within)))
      (ground (arith, h.exclusive))
