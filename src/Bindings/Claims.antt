-- ===== src/Bindings/Claims.antt =====
-- What a BoundsChecker promises of a sequence of claims.
use mojo.Prelude.{
  ℕ, ◌+◌, ◌≤◌, ◌<◌, ◌≡◌, ◌≢◌, All, Bool, true, false, List, [], ◌∷◌, arith, word, if◌then◌else◌,
  refl, Bool-cases, inl, inr, ◌==◌,
}
use mojo.Prelude.Regions.{Ascending}
use mojo.Validation.{
  Context, valid, invalid, illegal_handle, encoded_handle_invalid, validate_handle,
}
use mojo.Bindings.{BoundsChecker, add_address, internal_is_valid_range, claim_memory, claim_handle}

-- A call of ClaimMemory or of ClaimHandle.
pub data Claim : Type 0 where
  memory_claim : ℕ → ℕ → Claim
  handle_claim : ℕ → Claim

-- What a claim that succeeds adds to the regions, and to the handles.
unfoldable pub collect_region : Bool → ℕ → ℕ → List (ℕ × ℕ) → List (ℕ × ℕ)
collect_region claimed position num_bytes rs = if claimed then (position, num_bytes) ∷ rs else rs

-- The invalid handle is no handle.
unfoldable pub collect_index : Bool → ℕ → List ℕ → List ℕ
collect_index claimed index is =
    if claimed then (if index == encoded_handle_invalid then is else index ∷ is) else is

-- The regions and the handles that were claimed, in the order of the claims.
unfoldable pub claim_all : List Claim → BoundsChecker → List (ℕ × ℕ) × List ℕ
unfolding claim_memory claim_handle collect_region collect_index
claim_all [] c = ([], [])
claim_all (memory_claim position num_bytes ∷ claims) c =
    let (claimed, c') = claim_memory position num_bytes c in
    let (rs, is) = claim_all claims c' in (collect_region claimed position num_bytes rs, is)
claim_all (handle_claim index ∷ claims) c =
    let (claimed, c') = claim_handle index c in
    let (rs, is) = claim_all claims c' in (rs, collect_index claimed index is)

-- Each handle is greater than the one before it, the first is `low` or greater, and the last is
-- less than `high`.
abbrev pub Rising : ℕ → ℕ → List ℕ → Type 0
Rising low high [] = low ≤ high
Rising low high (i ∷ is) = (low ≤ i) × Rising (i + 1) high is

-- The bounds are in order, and fit their types.
pub record IsBounds (c : BoundsChecker) : Type 0 where
  pub memory : c.data_begin ≤ c.data_end
  pub handles : c.handle_begin ≤ c.handle_end
  pub top : c.data_end < 0x10000000000000000
  pub many : c.handle_end < word

-- The arguments fit their types.
abbrev pub Fits : Claim → Type 0
Fits (memory_claim position num_bytes) = (position < 0x10000000000000000) × (num_bytes < word)
Fits (handle_claim index) = index < word

-- What a claim of memory does.
record ClaimedMemory (position num_bytes : ℕ) (c : BoundsChecker) (r : Bool × BoundsChecker)
    : Type 0 where
  bounds : IsBounds r.1
  data_end : r.1.data_end ≡ c.data_end
  handle_begin : r.1.handle_begin ≡ c.handle_begin
  handle_end : r.1.handle_end ≡ c.handle_end
  refused : r.0 ≡ false → r.1.data_begin ≡ c.data_begin
  claimed : r.0 ≡ true → (c.data_begin ≤ position) × (r.1.data_begin ≡ position + num_bytes)

claim_memory-Claimed :
    (position num_bytes : ℕ) (c : BoundsChecker)
    → IsBounds c
    → Fits (memory_claim position num_bytes)
    → ClaimedMemory position num_bytes c (claim_memory position num_bytes c)
unfolding claim_memory internal_is_valid_range add_address
claim_memory-Claimed position num_bytes c ok fits =
    let a = ok.memory in let b = ok.handles in let t = ok.top in let m = ok.many in ground arith

-- What a claim of a handle does.
record ClaimedHandle (index : ℕ) (c : BoundsChecker) (r : Bool × BoundsChecker) : Type 0 where
  bounds : IsBounds r.1
  data_begin : r.1.data_begin ≡ c.data_begin
  data_end : r.1.data_end ≡ c.data_end
  handle_end : r.1.handle_end ≡ c.handle_end
  rises : c.handle_begin ≤ r.1.handle_begin
  claimed :
      r.0 ≡ true
      → index ≢ encoded_handle_invalid
      → (c.handle_begin ≤ index) × (r.1.handle_begin ≡ index + 1)

claim_handle-Claimed :
    (index : ℕ) (c : BoundsChecker) → IsBounds c → ClaimedHandle index c (claim_handle index c)
unfolding claim_handle
claim_handle-Claimed index c ok =
    let a = ok.memory in let b = ok.handles in let t = ok.top in let m = ok.many in ground arith

collect_region-Ascending :
    (claimed : Bool) (position num_bytes : ℕ) (c c' : BoundsChecker) (rs : List (ℕ × ℕ))
    → ClaimedMemory position num_bytes c (claimed, c')
    → Ascending c'.data_begin c'.data_end rs
    → Ascending c.data_begin c.data_end (collect_region claimed position num_bytes rs)
unfolding collect_region
collect_region-Ascending true position num_bytes c c' rs step r =
    let (low, next) = step.claimed refl in (low, rw (← next, ← step.data_end) r)
collect_region-Ascending false position num_bytes c c' rs step r =
    rw (← step.refused refl, ← step.data_end) r

Rising-weaken :
    (low low' high : ℕ) (is : List ℕ) → low ≤ low' → Rising low' high is → Rising low high is
Rising-weaken low low' high [] h r = omega arith
Rising-weaken low low' high (i ∷ is) h (p, r) = (omega arith, r)

collect_index-Rising :
    (claimed : Bool) (index : ℕ) (c c' : BoundsChecker) (is : List ℕ)
    → ClaimedHandle index c (claimed, c')
    → Rising c'.handle_begin c'.handle_end is
    → Rising c.handle_begin c.handle_end (collect_index claimed index is)
unfolding collect_index
collect_index-Rising false index c c' is step r =
    rw (← step.handle_end)
      (Rising-weaken c.handle_begin c'.handle_begin c'.handle_end is step.rises r)
collect_index-Rising true index c c' is step r =
    elim (Bool-cases (index == encoded_handle_invalid)) [
      | inl invalid_one ↦
          rw (invalid_one, ← step.handle_end)
            (Rising-weaken c.handle_begin c'.handle_begin c'.handle_end is step.rises r)
      | inr some_handle ↦
          let (low, next) = step.claimed refl (ground arith) in
          rw some_handle (low, rw (← next, ← step.handle_end) r)
    ]

-- The bounds that a claim leaves alone.
Rising-same :
    (low low' high high' : ℕ) (is : List ℕ)
    → low' ≡ low
    → high' ≡ high
    → Rising low' high' is
    → Rising low high is
Rising-same low low' high high' is e f r = rw (← e, ← f) r

Ascending-same :
    (low low' high high' : ℕ) (rs : List (ℕ × ℕ))
    → low' ≡ low
    → high' ≡ high
    → Ascending low' high' rs
    → Ascending low high rs
Ascending-same low low' high high' rs e f r = rw (← e, ← f) r

-- Whatever a validator claims of a BoundsChecker whose bounds are in order, and whichever claims
-- succeed, the regions that it gets do not overlap, ascend and lie within the bounds of the data, and
-- no handle but the invalid one is given twice or from outside the bounds of the handles.
pub claim_all-Ascending :
    (c : BoundsChecker) (claims : List Claim)
    → IsBounds c
    → All Fits claims
    → Ascending c.data_begin c.data_end (claim_all claims c).0
      × Rising c.handle_begin c.handle_end (claim_all claims c).1
unfolding claim_all
claim_all-Ascending c [] ok fits = (ok.memory, ok.handles)
claim_all-Ascending c (memory_claim position num_bytes ∷ claims) ok (f, fits) =
    let step = claim_memory-Claimed position num_bytes c ok f in
    let (claimed, c') = claim_memory position num_bytes c in
    let (rs, is) = claim_all-Ascending c' claims step.bounds fits in
    (
      collect_region-Ascending claimed position num_bytes c c' _ step rs,
      Rising-same c.handle_begin c'.handle_begin c.handle_end c'.handle_end _ step.handle_begin
          step.handle_end is,
    )
claim_all-Ascending c (handle_claim index ∷ claims) ok (f, fits) =
    let step = claim_handle-Claimed index c ok in
    let (claimed, c') = claim_handle index c in
    let (rs, is) = claim_all-Ascending c' claims step.bounds fits in
    (
      Ascending-same c.data_begin c'.data_begin c.data_end c'.data_end _ step.data_begin
          step.data_end rs,
      collect_index-Rising claimed index c c' _ step is,
    )

-- The C++ and the C bindings accept the same handles, and both then expect a handle behind it next,
-- where the C bindings may accept the invalid handle.
pub handles_agree :
    (index : ℕ) (c : BoundsChecker) (context : Context)
    → c.handle_begin ≡ context.next_handle_index
    → index < word
    → validate_handle index c.handle_end true context ≡ (
        if (claim_handle index c).0
        then valid (record context { next_handle_index = (claim_handle index c).1.handle_begin })
        else invalid illegal_handle context)
unfolding validate_handle claim_handle
handles_agree index c context same fits = ground arith
