-- ===== src/Validation/Map.antt =====
-- MojomMap_Validate: a validated map descriptor leads to two whole array headers.
use mojo.Prelude.{
  ℕ, ◌+◌, ◌-◌, ◌*◌, ◌≤◌, ◌<◌, ◌≡◌, inl, inr, false, [], ◌∷◌, arith, ltb, ◌==◌, Bool-cases, ap,
  sub32, sub32-le, word, All,
}
use mojo.Memory.{Memory, word32, word64}
use mojo.Memory.Laws.{load32_lem, load64_lem}
use mojo.Descriptor.{array_ptr, StructDescriptor, Descriptors}
use mojo.Descriptor.WellFormed.{map_entry, EntryFits, IsMap, IsStruct}
use mojo.Validation.{Context, Dispatch, and_then, validate_entries, struct_validate, map_validate}
use mojo.Validation.Safe.{
  Safe, Safe-and_then, Safe-mono, limit, IsContext, Advances, Advances-refl, Advances-trans,
}
use mojo.Validation.Spec.{Done, SafeDispatch}
use mojo.Validation.Struct.{entry-Safe, struct_validate-header}

-- The keys and the values are arrays whose headers lie in the `n` bytes from `a` on.
pub record IsMapAt (m : Memory) (a n : ℕ) : Type 0 where
  pub room : 24 ≤ n
  pub keys : 16 + word64 m.byte (a + 8) ≤ n
  pub values : 24 + word64 m.byte (a + 16) ≤ n

module _ (m : Memory) (t : Descriptors) (num_handles k : ℕ) (dispatch : Dispatch)
    (safe : SafeDispatch m t num_handles k dispatch) (small : m.size < word) (a n : ℕ)
    (low : m.base ≤ a) (high : a + n ≡ limit m) where
  field_address : (o q : ℕ) → a + 8 + o ≡ q → word64 m.byte (a + 8 + o) ≡ word64 m.byte q
  field_address o q e = ap (word64 m.byte) e

  -- One of the two entries, which every version has.
  map_entry-Safe :
      (d : StructDescriptor) (o e version : ℕ) (c : Context)
      → EntryFits t d.versions (map_entry o e)
      → 8 + o + 8 ≤ n
      → IsContext m num_handles c
      → 1 + 2 * (limit m + 1 - c.next_pointer) < k
      → Safe
          (λ c'. Advances m num_handles c c' × (16 + o + word64 m.byte (a + 8 + o) ≤ n))
          (dispatch array_ptr e false (a + 8 + o) (sub32 n (8 + o)) c)
  map_entry-Safe d o e version c fit room context fuel =
      Safe-mono (Done m num_handles array_ptr false (a + 8 + o) (sub32 n (8 + o)) c) _ _
        (entry-Safe m t num_handles k dispatch safe small a n low high d.versions (map_entry o e) c
          fit room context fuel)
        λ c' done. (
          done.advances,
          omega (arith, done.header, sub32-le n (8 + o) (omega arith) (omega arith)),
        )

  map_entries-Safe :
      (d : StructDescriptor) (x y version : ℕ) (c : Context)
      → EntryFits t d.versions (map_entry 0 x)
      → EntryFits t d.versions (map_entry 8 y)
      → 24 ≤ n
      → IsContext m num_handles c
      → 1 + 2 * (limit m + 1 - c.next_pointer) < k
      → Safe
          (λ c'. Advances m num_handles c c' × IsMapAt m a n)
          (validate_entries dispatch version a n (map_entry 0 x ∷ map_entry 8 y ∷ []) c)
  unfolding validate_entries
  map_entries-Safe d x y version c fx fy room context fuel =
      let first : ltb version 0 ≡ false = ground arith in
      rw (first, Safe, validate_entries)
        (Safe-and_then
          (λ c'. Advances m num_handles c c' × (16 + 0 + word64 m.byte (a + 8 + 0) ≤ n)) _ _ _
          (map_entry-Safe d 0 x version c fx (omega arith) context fuel)
          λ c' (done, keys).
            rw (first, Safe, validate_entries)
              (Safe-and_then
                (λ c''. Advances m num_handles c' c'' × (16 + 8 + word64 m.byte (a + 8 + 8) ≤ n)) _
                _ _
                (map_entry-Safe d 8 y version c' fy (omega arith) done.within
                  (omega (arith, done.pointer)))
                λ c'' (more, values). (
                  Advances-trans done more,
                  record {
                    room = room;
                    keys = omega (arith, keys, field_address 0 (a + 8) (omega arith));
                    values = omega (arith, values, field_address 8 (a + 16) (omega arith));
                  },
                )))

  pub map_validate-Safe :
      (c : Context)
      → IsContext m num_handles c
      → IsMapAt m a n
      → Safe (Advances m num_handles c) (map_validate m a c)
  unfolding map_validate
  map_validate-Safe c context at =
      let keys = word64 m.byte (a + 8) in
      let values = word64 m.byte (a + 16) in
      rw
        (
          load64_lem m (a + 8) (omega arith) (omega (arith, at.room)),
          load64_lem m (a + 16) (omega arith) (omega (arith, at.room)),
          load32_lem m (a + (8 + keys) + 4) (omega arith) (omega (arith, at.keys)),
          load32_lem m (a + (16 + values) + 4) (omega arith) (omega (arith, at.values)),
        )
        (elim (Bool-cases
          (word32 m.byte (a + (8 + keys) + 4) == word32 m.byte (a + (16 + values) + 4))) [
            | inl same ↦ rw same (Advances-refl context)
            | inr different ↦ rw different tt
          ])

  -- A map: its struct, and then the lengths of the two arrays.
  pub struct_map_validate-Safe :
      (d : StructDescriptor) (c : Context)
      → IsStruct t d
      → IsMap d
      → IsContext m num_handles c
      → c.next_pointer ≤ a
      → a ≤ limit m
      → 2 * (limit m + 1 - a) ≤ k
      → Safe
          (Advances m num_handles c)
          (and_then (struct_validate m dispatch d a n c) (map_validate m a))
  struct_map_validate-Safe d c ok (x, y, e) context before inside fuel =
      Safe-and_then (λ c'. Advances m num_handles c c' × IsMapAt m a n) (Advances m num_handles c) _
        _
        (struct_validate-header m t num_handles k dispatch safe small a n low high d c _ ok
          λ num_bytes version fits within.
            let fit : All (EntryFits t d.versions) (map_entry 0 x ∷ map_entry 8 y ∷ []) =
              rw e at ok.entries_fit in
            let c' : Context = record c { next_pointer = a + num_bytes } in
            rw e (
              Safe-mono (λ c''. Advances m num_handles c' c'' × IsMapAt m a n) _ _
                (map_entries-Safe d x y version c' fit.0 fit.1.0
                  (omega (arith, fits.entry (map_entry 8 y) fit.1.0 (omega arith)))
                  (omega (arith, fits.header)) (omega (arith, fits.header)))
                λ c'' (more, at). (omega (arith, more), at)))
        λ c' (done, at).
          Safe-mono (Advances m num_handles c') (Advances m num_handles c) _
            (map_validate-Safe c' done.within at) λ c'' more. Advances-trans done more
