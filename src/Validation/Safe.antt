-- ===== src/Validation/Safe.antt =====
-- Outcomes that neither fault nor run out of fuel, and how the context moves.
use mojo.Prelude.{ℕ, ◌+◌, ◌≤◌, arith}
use mojo.Memory.{Memory}
use mojo.Validation.{Context, Outcome, valid, invalid, fault, out_of_fuel, and_then}

-- The validation ends in a result, and in `P` of the context where it accepts.
abbrev pub Safe : (Context → Type 0) → Outcome → Type 0
Safe P (valid c) = P c
Safe P (invalid e c) = Unit
Safe P fault = ⊥
Safe P out_of_fuel = ⊥

pub Safe-and_then :
    (P Q : Context → Type 0) (o : Outcome) (k : Context → Outcome)
    → Safe P o
    → ((c : Context) → P c → Safe Q (k c))
    → Safe Q (and_then o k)
Safe-and_then P Q (valid c) k p next = next c p
Safe-and_then P Q (invalid e c) k p next = tt
Safe-and_then P Q fault k p next = p
Safe-and_then P Q out_of_fuel k p next = p

-- The first address behind the memory.
abbrev pub limit : Memory → ℕ
limit m = m.base + m.size

-- What later pointers and handles may refer to lies inside the memory and the handle array.
pub record IsContext (m : Memory) (num_handles : ℕ) (c : Context) : Type 0 where
  pub pointer_within : c.next_pointer ≤ limit m
  pub handle_within : c.next_handle_index ≤ num_handles

-- Memory and handles that were claimed stay claimed.
pub record Advances (m : Memory) (num_handles : ℕ) (c c' : Context) : Type 0 where
  pub pointer : c.next_pointer ≤ c'.next_pointer
  pub handle : c.next_handle_index ≤ c'.next_handle_index
  pub within : IsContext m num_handles c'

module _ {m : Memory} {num_handles : ℕ} where
  pub Advances-refl : {c : Context} → IsContext m num_handles c → Advances m num_handles c c
  Advances-refl i = ground arith

  pub Advances-trans :
      {c c' c'' : Context}
      → Advances m num_handles c c'
      → Advances m num_handles c' c''
      → Advances m num_handles c c''
  Advances-trans p q = ground arith

pub Safe-mono :
    (P Q : Context → Type 0) (o : Outcome) → Safe P o → ((c : Context) → P c → Q c) → Safe Q o
Safe-mono P Q (valid c) p weaken = weaken c p
Safe-mono P Q (invalid e c) p weaken = tt
Safe-mono P Q fault p weaken = p
Safe-mono P Q out_of_fuel p weaken = p
