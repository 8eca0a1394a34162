-- ===== src/Validation/Struct.antt =====
-- MojomStruct_Validate: the header keeps every entry inside the struct, and the entries are
-- validated one after the other.
use mojo.Prelude.{
  ℕ, ◌+◌, ◌-◌, ◌*◌, ◌≤◌, ◌<◌, ◌≡◌, inl, inr, List, [], ◌∷◌, arith, ltb, ◌==◌, ◌%◌, Bool-cases,
  sub32, sub32-le, word, All,
}
use mojo.Memory.{Memory, word32}
use mojo.Memory.Laws.{load32_lem}
use mojo.Descriptor.{StructVersion, StructEntry, StructDescriptor, Descriptors}
use mojo.Descriptor.WellFormed.{width, IsStruct, EntryFits}
use mojo.Validation.{Context, Dispatch, validate_entries, struct_validate}
use mojo.Validation.Safe.{
  Safe, Safe-and_then, Safe-mono, limit, IsContext, Advances, Advances-refl, Advances-trans,
}
use mojo.Validation.Spec.{Done, SafeDispatch, rank-le}
use mojo.Validation.Version.{SizeFits, is_valid_size_for_version-SizeFits}

module _ (m : Memory) (t : Descriptors) (num_handles k : ℕ) (dispatch : Dispatch)
    (safe : SafeDispatch m t num_handles k dispatch) (small : m.size < word) (a n : ℕ)
    (low : m.base ≤ a) (high : a + n ≡ limit m) where
  -- One entry that the struct has: its element is ready to be validated.
  pub entry-Safe :
      (versions : List StructVersion) (e : StructEntry) (c : Context)
      → EntryFits t versions e
      → 8 + e.offset + width e.elem_type ≤ n
      → IsContext m num_handles c
      → 1 + 2 * (limit m + 1 - c.next_pointer) < k
      → Safe
          (Done m num_handles e.elem_type e.nullable (a + 8 + e.offset) (sub32 n (8 + e.offset)) c)
          (dispatch e.elem_type e.elem_descriptor e.nullable
            (a + 8 + e.offset)
            (sub32 n (8 + e.offset))
            c)
  entry-Safe versions e c fit room context fuel =
      let left : sub32 n (8 + e.offset) ≡ n - (8 + e.offset) =
        sub32-le n (8 + e.offset) (omega arith) (omega arith) in
      safe e.elem_type e.elem_descriptor e.nullable (a + 8 + e.offset) (sub32 n (8 + e.offset)) c
        (record {
          plain = fit.plain;
          refers = fit.refers;
          low = omega arith;
          high = omega arith;
          room = omega arith;
          context = context;
        })
        (omega (arith, rank-le e.elem_type))

  pub validate_entries-Safe :
      (version : ℕ) (versions : List StructVersion) (es : List StructEntry) (c : Context)
      → All (EntryFits t versions) es
      → ((e : StructEntry)
          → EntryFits t versions e
          → e.min_version ≤ version
          → 8 + e.offset + width e.elem_type ≤ n)
      → IsContext m num_handles c
      → 1 + 2 * (limit m + 1 - c.next_pointer) < k
      → Safe (Advances m num_handles c) (validate_entries dispatch version a n es c)
  unfolding validate_entries
  validate_entries-Safe version versions [] c fit room context fuel = Advances-refl context
  validate_entries-Safe version versions (e ∷ es) c (f, fs) room context fuel =
      elim (Bool-cases (ltb version e.min_version)) [
        | inl newer ↦
            rw (newer, validate_entries)
              (validate_entries-Safe version versions es c fs room context fuel)
        | inr older ↦
            rw (older, validate_entries)
              (Safe-and_then _ (Advances m num_handles c) _ _
                (entry-Safe versions e c f (room e f (ground arith)) context fuel)
                λ c' done.
                  Safe-mono (Advances m num_handles c') (Advances m num_handles c) _
                    (validate_entries-Safe version versions es c' fs room done.advances.within
                      (omega (arith, done.advances.pointer)))
                    λ c'' more. Advances-trans done.advances more)
      ]

  -- The header is read inside the memory; what is left to show is about the entries.
  pub struct_validate-header :
      (d : StructDescriptor) (c : Context) (Q : Context → Type 0)
      → IsStruct t d
      → ((num_bytes version : ℕ)
          → SizeFits t d num_bytes version
          → num_bytes ≤ n
          → Safe Q (
              validate_entries dispatch version a n d.entries
                (record c { next_pointer = a + num_bytes })))
      → Safe Q (struct_validate m dispatch d a n c)
  unfolding struct_validate
  struct_validate-header d c Q ok entries = elim (Bool-cases (ltb n 8)) [
    | inl short ↦ rw short tt
    | inr whole ↦
        let num_bytes = word32 m.byte a in
        let version = word32 m.byte (a + 4) in
        let (b, e, fits) = is_valid_size_for_version-SizeFits ok num_bytes version in
        rw
          (
            whole,
            load32_lem m a low (ground arith),
            load32_lem m (a + 4) (ground arith) (ground arith),
            e,
          )
          (elim (Bool-cases (ltb n num_bytes)) [
            | inl long ↦ rw long tt
            | inr within ↦ rw within (elim (Bool-cases b) [
              | inr odd ↦ rw odd tt
              | inl good ↦ rw good (elim (Bool-cases (num_bytes % 8 == 0)) [
                | inr ragged ↦ rw ragged tt
                | inl even ↦ rw even (entries num_bytes version (fits good) (ground arith))
              ])
            ])
          ])
  ]

  -- A struct that is validated advances the context past itself and all that it holds.
  pub struct_validate-Safe :
      (d : StructDescriptor) (c : Context)
      → IsStruct t d
      → IsContext m num_handles c
      → c.next_pointer ≤ a
      → a ≤ limit m
      → 2 * (limit m + 1 - a) ≤ k
      → Safe (Advances m num_handles c) (struct_validate m dispatch d a n c)
  struct_validate-Safe d c ok context before inside fuel =
      struct_validate-header d c (Advances m num_handles c) ok λ num_bytes version fits within.
        let c' : Context = record c { next_pointer = a + num_bytes } in
        Safe-mono (Advances m num_handles c') (Advances m num_handles c) _
          (validate_entries-Safe version d.versions d.entries c' ok.entries_fit
            (λ e f old. omega (arith, fits.entry e f old)) (omega arith)
            (omega (arith, fits.header)))
          λ c'' more. omega (arith, more)
