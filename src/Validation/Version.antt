-- ===== src/Validation/Version.antt =====
-- is_valid_size_for_version: the scan finds the newest version that is not newer than the data.
use mojo.Prelude.{
  ℕ, zero, suc, ◌+◌, ◌-◌, ◌≤◌, ◌<◌, ◌≡◌, inl, inr, refl, sym, ap, ◌∙◌, Bool, true, some, List, [],
  ◌∷◌, arith, ltb, ◌==◌, not, if◌then◌else◌, Bool-cases, sub32-le, length, get_elem?,
}
use native.Mathlib.Decide.{dec_le}
use mojo.Descriptor.{StructVersion, StructEntry, StructDescriptor, Descriptors}
use mojo.Descriptor.WellFormed.{width, IsStruct, EntryFits}
use mojo.Validation.{seek_version, is_valid_size_for_version}

get_elem?-some :
    {A : Type 0} (xs : List A) (i : ℕ) → i < length xs → (x : A) × (get_elem? xs i ≡ some x)
get_elem?-some [] i h = absurd (omega arith)
get_elem?-some (x ∷ xs) zero h = (x, refl)
get_elem?-some (x ∷ xs) (suc i) h = get_elem?-some xs i (omega arith)

index_bound :
    {A : Type 0} (xs : List A) (i : ℕ) (x : A) → get_elem? xs i ≡ some x → i ≤ length xs - 1
index_bound [] i x h = cc
index_bound (y ∷ xs) zero x h = omega arith
index_bound (y ∷ []) (suc i) x h = cc
index_bound (y ∷ z ∷ xs) (suc i) x h = omega (arith, index_bound (z ∷ xs) i x h)

-- The scan from index `i` stops at an index `k`, behind no version up to `i` that is old enough.
record Found (versions : List StructVersion) (version i : ℕ) : Type 0 where
  at : ℕ
  found : StructVersion
  held : get_elem? versions at ≡ some found
  result : seek_version versions version i ≡ some found
  newest :
      (j : ℕ) (w : StructVersion)
      → j ≤ i
      → get_elem? versions j ≡ some w
      → w.version ≤ version
      → j ≤ at

-- A version that is too new is not what the scan looks for.
older_before :
    (versions : List StructVersion) (version i k : ℕ) (v : StructVersion)
    → get_elem? versions (suc i) ≡ some v
    → ltb version v.version ≡ true
    → ((j : ℕ) (w : StructVersion)
        → j ≤ i
        → get_elem? versions j ≡ some w
        → w.version ≤ version
        → j ≤ k)
    → (j : ℕ) (w : StructVersion) → j ≤ suc i
    → get_elem? versions j ≡ some w
    → w.version ≤ version
    → j ≤ k
older_before versions version i k v e newer rest j w l g o = elim (dec_le j i) [
  | yes within ↦ rest j w within g o
  | no past ↦
      let last : j ≡ suc i = omega arith in
      let same : some w ≡ some v = sym g ∙ ap (get_elem? versions) last ∙ e in ground arith
]

seek_version-Found :
    (versions : List StructVersion) (version i : ℕ) → i < length versions → Found versions version i
unfolding seek_version
seek_version-Found versions version zero h =
    let (v, e) = get_elem?-some versions 0 h in
    record { at = 0; found = v; held = e; result = e; newest = λ j w l _ _. l }
seek_version-Found versions version (suc i) h =
    let (v, e) = get_elem?-some versions (suc i) h in
    elim (Bool-cases (ltb version v.version)) [
      | inl newer ↦
          let rest = seek_version-Found versions version i (omega arith) in
          record {
            at = rest.at;
            found = rest.found;
            held = rest.held;
            result = rw (e, newer, seek_version) rest.result;
            newest = older_before versions version i rest.at v e newer rest.newest;
          }
      | inr older ↦ record {
        at = suc i;
        found = v;
        held = e;
        result = rw (e, older, seek_version);
        newest = λ j w l _ _. l;
      }
    ]

-- What the accepted size of a struct is known to be.
pub record SizeFits (t : Descriptors) (d : StructDescriptor) (num_bytes version : ℕ) : Type 0 where
  pub header : 8 ≤ num_bytes
  pub entry :
      (e : StructEntry)
      → EntryFits t d.versions e
      → e.min_version ≤ version
      → 8 + e.offset + width e.elem_type ≤ num_bytes

module _ {t : Descriptors} {d : StructDescriptor} (ok : IsStruct t d) (num_bytes version : ℕ) where
  -- The version that the scan ends at.
  scan : Found d.versions version (length d.versions - 1)
  scan =
      seek_version-Found d.versions version (length d.versions - 1) (omega (arith, ok.some_version))

  entry_of_scan :
      scan.found.num_bytes ≤ num_bytes
      → (e : StructEntry) → EntryFits t d.versions e
      → e.min_version ≤ version
      → 8 + e.offset + width e.elem_type ≤ num_bytes
  entry_of_scan long e fit old =
      let (i, v, held, same) = fit.since in
      let before : i ≤ scan.at =
        scan.newest i v (index_bound d.versions i v held) held (omega arith) in
      let newer : v.version ≤ scan.found.version =
        ok.ascending i scan.at v scan.found held scan.held before in
      omega (arith, fit.fits scan.at scan.found scan.held (omega arith))

  size_of_scan : scan.found.num_bytes ≤ num_bytes → SizeFits t d num_bytes version
  size_of_scan long = record {
    header = omega (arith, ok.has_header scan.at scan.found scan.held);
    entry = entry_of_scan long;
  }

  -- The table is read inside its bounds, and an accepted size covers each entry of the version.
  pub is_valid_size_for_version-SizeFits :
      (b : Bool) × (is_valid_size_for_version num_bytes version d.versions ≡ some b)
      × (b ≡ true → SizeFits t d num_bytes version)
  unfolding is_valid_size_for_version
  is_valid_size_for_version-SizeFits = (
    if version == scan.found.version
        then num_bytes == scan.found.num_bytes
        else not (ltb num_bytes scan.found.num_bytes),
    rw (
      sub32-le (length d.versions) 1 ok.some_version ok.few_versions,
      scan.result,
      is_valid_size_for_version,
    ),
    λ accepted. size_of_scan (ground arith),
  )
