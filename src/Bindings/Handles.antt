-- ===== src/Bindings/Handles.antt =====
-- Handles in messages of the C++ bindings: bindings_serialization.cc.
use mojo.Prelude.{
  ℕ, zero, suc, ◌+◌, ◌%◌, ◌<◌, ◌≡◌, refl, ap, false, List, [], ◌∷◌, ◌++◌, arith, word, uint32_max,
  length, ◌==◌, if◌then◌else◌, Bool-cases, inl, inr,
}
use mojo.Prelude.Run.{Run, ok, fault, ◌>>=◌}
use mojo.Validation.{encoded_handle_invalid}

-- `EncodeHandle`: the index that takes the handle's place, and the handles of the message.
unfoldable pub encode_handle_into : ℕ → List ℕ → ℕ × List ℕ
encode_handle_into handle handles =
    if handle == 0
    then (encoded_handle_invalid, handles)
    else (length handles % word, handles ++ (handle ∷ []))

-- `FetchAndReset(&handles->at(index))`, which stops the program where there is no such handle.
unfoldable pub fetch_and_reset : ℕ → List ℕ → Run (ℕ × List ℕ)
fetch_and_reset index [] = fault
fetch_and_reset zero (h ∷ hs) = ok (h, 0 ∷ hs)
fetch_and_reset (suc index) (h ∷ hs) = do (x, hs') ← fetch_and_reset index hs; ok (x, h ∷ hs')

-- `DecodeHandle`.
unfoldable pub decode_handle_from : ℕ → List ℕ → Run (ℕ × List ℕ)
unfolding fetch_and_reset
decode_handle_from value handles =
    if value == encoded_handle_invalid then ok (0, handles) else fetch_and_reset value handles

-- The handles of an object, one after the other.
unfoldable pub encode_all : List ℕ → List ℕ → List ℕ × List ℕ
unfolding encode_handle_into
encode_all [] handles = ([], handles)
encode_all (h ∷ hs) handles =
    let (x, handles') = encode_handle_into h handles in
    let (xs, handles'') = encode_all hs handles' in (x ∷ xs, handles'')

unfoldable pub decode_all : List ℕ → List ℕ → Run (List ℕ × List ℕ)
unfolding decode_handle_from
decode_all [] handles = ok ([], handles)
decode_all (x ∷ xs) handles = do
  (h, handles') ← decode_handle_from x handles
  (hs, handles'') ← decode_all xs handles'
  ok (h ∷ hs, handles'')

-- The valid handles.
abbrev pub valid_ones : List ℕ → List ℕ
valid_ones [] = []
valid_ones (h ∷ hs) = if h == 0 then valid_ones hs else h ∷ valid_ones hs

-- And a hole in the place of each.
abbrev pub holes : List ℕ → List ℕ
holes [] = []
holes (h ∷ hs) = if h == 0 then holes hs else 0 ∷ holes hs

-- The indices behind `n` handles.
abbrev indices : ℕ → List ℕ → List ℕ
indices n [] = []
indices n (h ∷ hs) =
    if h == 0 then encoded_handle_invalid ∷ indices n hs else n ∷ indices (suc n) hs

append_nil : (xs : List ℕ) → xs ++ [] ≡ xs
append_nil [] = refl
append_nil (x ∷ xs) = ap (λ r. x ∷ r) (append_nil xs)

append_one : (xs : List ℕ) (y : ℕ) (ys : List ℕ) → (xs ++ (y ∷ [])) ++ ys ≡ xs ++ (y ∷ ys)
append_one [] y ys = refl
append_one (x ∷ xs) y ys = ap (λ r. x ∷ r) (append_one xs y ys)

length-append_one : (xs : List ℕ) (y : ℕ) → length (xs ++ (y ∷ [])) ≡ suc (length xs)
length-append_one [] y = refl
length-append_one (x ∷ xs) y = ap (λ r. suc r) (length-append_one xs y)

fetch_append :
    (u : List ℕ) (x : ℕ) (xs : List ℕ)
    → fetch_and_reset (length u) (u ++ (x ∷ xs)) ≡ ok (x, u ++ (0 ∷ xs))
unfolding fetch_and_reset
fetch_append [] x xs = refl
fetch_append (y ∷ u) x xs = rw (fetch_append u x xs) refl

encode_all_lem :
    (hs handles : List ℕ)
    → length handles + length hs < uint32_max
    → encode_all hs handles ≡ (indices (length handles) hs, handles ++ valid_ones hs)
unfolding encode_all encode_handle_into
encode_all_lem [] handles few = rw (append_nil handles) refl
encode_all_lem (h ∷ hs) handles few = elim (Bool-cases (h == 0)) [
  | inl none_left ↦ rw (none_left, encode_all_lem hs handles (omega arith)) refl
  | inr some_handle ↦
      let fits : length handles % word ≡ length handles = omega arith in
      rw
        (
          some_handle,
          fits,
          encode_all_lem hs (handles ++ (h ∷ [])) (omega (arith, length-append_one handles h)),
          length-append_one handles h,
          append_one handles h (valid_ones hs),
        )
        refl
]

decode_all_lem :
    (hs u : List ℕ)
    → length u + length hs < uint32_max
    → decode_all (indices (length u) hs) (u ++ valid_ones hs) ≡ ok (hs, u ++ holes hs)
unfolding decode_all decode_handle_from
decode_all_lem [] u few = refl
decode_all_lem (h ∷ hs) u few = elim (Bool-cases (h == 0)) [
  | inl none_left ↦
      let null : 0 ≡ h = ground arith in
      rw (none_left, decode_all_lem hs u (omega arith), ◌>>=◌)
        (ap (λ x. ok (x ∷ hs, u ++ holes hs)) null)
  | inr some_handle ↦
      let v = u ++ (0 ∷ []) in
      let apart : (length u == encoded_handle_invalid) ≡ false = ground arith in
      let rest : decode_all (indices (suc (length u)) hs) (u ++ (0 ∷ valid_ones hs))
          ≡ ok (hs, u ++ (0 ∷ holes hs)) =
        rw (length-append_one u 0, append_one u 0 (valid_ones hs), append_one u 0 (holes hs)) at
          (decode_all_lem hs v (omega (arith, length-append_one u 0))) in
      rw (some_handle, decode_all, apart, fetch_append u h (valid_ones hs), ◌>>=◌, rest) refl
]

-- What is encoded of a sequence of handles, some of them invalid, into a message with few enough, is
-- decoded to the same sequence, each handle once: only holes are left in the message in their places,
-- and the handles that it had before are as they were.
pub decode_all-encode_all :
    (hs handles : List ℕ)
    → length handles + length hs < uint32_max
    → decode_all (encode_all hs handles).0 (encode_all hs handles).1 ≡ ok (hs, handles ++ holes hs)
decode_all-encode_all hs handles few =
    rw (encode_all_lem hs handles few) (decode_all_lem hs handles few)
