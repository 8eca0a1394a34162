-- ===== src/Watcher/Vectors.antt =====
-- What RemoveHandleAtIndex of public/platform/dart/dart_handle_watcher.cc makes of each vector.
use mojo.Prelude.{
  ℕ, zero, suc, ◌<◌, ◌≡◌, ◌∙◌, Option, none, some, List, [], ◌∷◌, ltb, ◌==◌, if◌then◌else◌, true,
  length, get_elem?, set, get_elem?-some, get_elem?-set, length-set, arith,
}
use mojo.Prelude.Run.{Returns, Returns-test, Returns-access, Returns-map}
use mojo.Watcher.{drop_last, pop_back, swap_out}

-- The last element is in the place of the one at the index, and the list is shorter by one.
abbrev pub Swapped : {A : Type 0} → ℕ → ℕ → List A → List A → Type 0
Swapped index last_index xs ys =
    (length ys ≡ last_index)
    × ((j : ℕ)
        → get_elem? ys j ≡ (
            if ltb j last_index
            then (if j == index then get_elem? xs last_index else get_elem? xs j)
            else none))

length-drop_last :
    {A : Type 0} (n : ℕ) (xs : List A) → length xs ≡ suc n → length (drop_last xs) ≡ n
unfolding drop_last
length-drop_last n [] h = omega arith
length-drop_last n (x ∷ []) h = omega arith
length-drop_last zero (x ∷ y ∷ xs) h = omega arith
length-drop_last (suc n) (x ∷ y ∷ xs) h =
    let e = length-drop_last n (y ∷ xs) (omega arith) in omega arith

get_elem?-drop_last :
    {A : Type 0} (n j : ℕ) (xs : List A)
    → length xs ≡ suc n
    → get_elem? (drop_last xs) j ≡ (if ltb j n then get_elem? xs j else none)
unfolding drop_last
get_elem?-drop_last n j [] h = ground arith
get_elem?-drop_last n j (x ∷ []) h = ground arith
get_elem?-drop_last zero j (x ∷ y ∷ xs) h = ground arith
get_elem?-drop_last (suc n) zero (x ∷ y ∷ xs) h = ground arith
get_elem?-drop_last (suc n) (suc j) (x ∷ y ∷ xs) h =
    let e = get_elem?-drop_last n j (y ∷ xs) (omega arith) in ground arith

-- A vector without its last element.
pop_back_lem :
    {A : Type 0} (n : ℕ) (xs : List A)
    → length xs ≡ suc n
    → Returns
        (λ ys.
          (length ys ≡ n) × ((j : ℕ) → get_elem? ys j ≡ (if ltb j n then get_elem? xs j else none)))
        (pop_back xs)
unfolding pop_back
pop_back_lem n [] h = omega arith
pop_back_lem n (x ∷ xs) h = (length-drop_last n (x ∷ xs) h, λ j. get_elem?-drop_last n j (x ∷ xs) h)

swapped_last :
    {A : Type 0} (index last_index j : ℕ) (xs : List A) (o : Option A)
    → (index == last_index) ≡ true
    → o ≡ (if ltb j last_index then get_elem? xs j else none)
    → o ≡ (
        if ltb j last_index
        then (if j == index then get_elem? xs last_index else get_elem? xs j)
        else none)
swapped_last index last_index j xs o h e = ground arith

swapped_other :
    {A : Type 0} (index last_index j : ℕ) (xs : List A) (a : A) (o : Option A)
    → index < length xs
    → get_elem? xs last_index ≡ some a
    → o ≡ (if ltb j last_index then get_elem? (set xs index a) j else none)
    → o ≡ (
        if ltb j last_index
        then (if j == index then get_elem? xs last_index else get_elem? xs j)
        else none)
swapped_other index last_index j xs a o l h e = let s = get_elem?-set xs index j a l in ground arith

pub swap_out_lem :
    {A : Type 0} (index last_index : ℕ) (xs : List A)
    → index < length xs
    → length xs ≡ suc last_index
    → Returns (Swapped index last_index xs) (swap_out index last_index xs)
unfolding swap_out
swap_out_lem index last_index xs l h =
    let (a, ha) = get_elem?-some xs last_index (omega arith) in
    let (b, hb) = get_elem?-some xs index l in
    Returns-test (Swapped index last_index xs) (index == last_index) (pop_back xs) _
      (λ e.
        Returns-map _ _ (pop_back xs) (pop_back_lem last_index xs h)
          (λ ys p. (p.0, λ j. swapped_last index last_index j xs (get_elem? ys j) e (p.1 j))))
      (λ e. Returns-access _ (get_elem? xs last_index) a _ ha (
        Returns-access _ (get_elem? xs index) b _ hb (
          Returns-map _ _ (pop_back (set xs index a))
            (pop_back_lem last_index (set xs index a) (length-set xs index a ∙ h))
            (λ ys p.
              (p.0, λ j. swapped_other index last_index j xs a (get_elem? ys j) l ha (p.1 j))))))
