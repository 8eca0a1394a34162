-- ===== src/Message/Header.antt =====
-- What MojomMessage_ValidateHeader accepts, and what the three checks of the kind of a message
-- then say.
use mojo.Prelude.{
  ℕ, ◌+◌, ◌%◌, ◌≤◌, ◌<◌, ◌≡◌, ◌≢◌, ◌↔◌, ◌⊎◌, arith, ltb, ltb→lt, Bool-cases, inl, inr, refl,
}
use native.Mathlib.Decide.{dec_lt}
use mojo.Memory.{Memory, word32}
use mojo.Memory.Laws.{load32_lem}
use mojo.Message.{
  Verdict, accept, refuse, fault, validate_header, check_version, expects_response, is_response,
  validate_request_expecting_response, validate_request_without_response, validate_response,
}

-- 1 for an accepted message.
abbrev pub accepts : Verdict → ℕ
accepts accept = 1
accepts (refuse e) = 0
accepts fault = 0

-- The headers that the checks of message.c let pass, for a message in `size` bytes at `p`.
pub record IsHeader (m : Memory) (p size : ℕ) : Type 0 where
  pub header : 8 ≤ size
  pub within : word32 m.byte p ≤ size
  -- Version 0 is a bare header, with no request to answer or to be answered.
  pub bare : word32 m.byte (p + 4) ≡ 0 → (word32 m.byte p ≡ 16) × (word32 m.byte (p + 12) % 4 ≡ 0)
  -- Version 1 has a request id behind it, and later versions have at least that.
  pub with_id : word32 m.byte (p + 4) ≡ 1 → word32 m.byte p ≡ 24
  pub later : 1 < word32 m.byte (p + 4) → 24 ≤ word32 m.byte p
  -- No message is a request and a response.
  pub exclusive : word32 m.byte (p + 12) % 4 ≢ 3

module _ (m : Memory) (p size : ℕ) (low : m.base ≤ p) (high : p + size ≤ m.base + m.size) where
  check_version-accept :
      (num_bytes version : ℕ)
      → num_bytes ≡ word32 m.byte p
      → version ≡ word32 m.byte (p + 4)
      → 8 ≤ size
      → num_bytes ≤ size
      → (check_version m p num_bytes version ≡ accept) ↔ IsHeader m p size
  unfolding check_version expects_response is_response
  check_version-accept num_bytes version e f header within = (
    λ h. ground (arith, load32_lem m (p + 12) (omega arith)),
    λ h. ground (arith, h.bare, h.with_id, h.later, load32_lem m (p + 12) (omega arith)),
  )

  -- Where the message lies in the memory, MojomMessage_ValidateHeader accepts its header exactly if
  -- it is such a header.
  pub validate_header-accept : (validate_header m p size ≡ accept) ↔ IsHeader m p size
  unfolding validate_header
  validate_header-accept = elim (Bool-cases (ltb size 8)) [
    | inl short ↦ rw short (λ h. cc, λ h. absurd (omega (arith, h.header, ltb→lt size 8 short)))
    | inr whole ↦
        rw
          (
            whole,
            load32_lem m p low (ground arith),
            load32_lem m (p + 4) (omega arith) (ground arith),
          )
          (elim (Bool-cases (ltb size (word32 m.byte p))) [
            | inl long ↦
                rw long (
                  λ h. cc,
                  λ h. absurd (omega (arith, h.within, ltb→lt size (word32 m.byte p) long)),
                )
            | inr fits ↦ rw fits (
                check_version-accept (word32 m.byte p) (word32 m.byte (p + 4)) refl refl
                  (ground arith) (ground arith))
          ])
  ]

  -- Where the message lies in the memory, MojomMessage_ValidateHeader reads nothing outside the
  -- memory, whatever the message holds.
  pub validate_header-ne-fault : validate_header m p size ≢ fault
  unfolding validate_header check_version
  validate_header-ne-fault h = elim (Bool-cases (ltb size 8)) [
    | inl short ↦ ground arith
    | inr whole ↦ ground (
      arith,
      load32_lem m p low (ground arith),
      load32_lem m (p + 4) (omega arith) (ground arith),
      load32_lem m (p + 12) (omega arith),
    )
  ]

  pub size_of_header : IsHeader m p size → 16 ≤ word32 m.byte p
  size_of_header h = elim (dec_lt 1 (word32 m.byte (p + 4))) [
    | yes late ↦ omega (arith, h.later late)
    | no early ↦ ground (arith, h.bare, h.with_id)
  ]

  -- A message in the memory with an accepted header is of exactly one kind: exactly one of the
  -- checks for a request that expects a response, one that expects none, and a response accepts it.
  pub one_kind :
      validate_header m p size ≡ accept
      → accepts (validate_request_expecting_response m p)
          + accepts (validate_request_without_response m p)
          + accepts (validate_response m p)
        ≡ 1
  unfolding validate_request_expecting_response validate_request_without_response validate_response
  one_kind ok =
      let h = validate_header-accept.0 ok in
      rw (load32_lem m (p + 12) (omega arith) (omega (arith, size_of_header h, h.within)))
        (ground (arith, h.exclusive))

  -- Where a message in the memory has an accepted header and is accepted as a request that expects a
  -- response or as a response, its header has room for a request id, and lies in the message.
  pub request_id-within :
      validate_header m p size ≡ accept
      → (validate_request_expecting_response m p ≡ accept) ⊎ (validate_response m p ≡ accept)
      → (24 ≤ word32 m.byte p) × (word32 m.byte p ≤ size)
  unfolding validate_request_expecting_response validate_response
  request_id-within ok kind =
      let h = validate_header-accept.0 ok in
      ground (
        arith,
        kind,
        h.bare,
        h.with_id,
        h.later,
        h.within,
        load32_lem m (p + 12) (omega arith) (omega (arith, size_of_header h, h.within)),
      )
