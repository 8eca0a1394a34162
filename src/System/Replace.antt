-- ===== src/System/Replace.antt =====
-- MojoDuplicateHandleWithReducedRights and MojoReplaceHandleWithReducedRights, on the table of the
-- rights that each valid handle has.
use mojo.Prelude.{ℕ, ◌≤◌, ◌<◌, arith, ◌≡◌, ◌≢◌, inl, inr, sym, ap, ◌∙◌, none, some}
use mathlib.Core.Option.{some-injective}
use mojo.System.{value, Kernel, Reply, answer, stored, next, succeeded}
use mojo.System.Handles.{
  and_not, rights_error, close, get_rights, duplicate_handle_with_reduced_rights,
  replace_handle_with_reduced_rights,
}
use mojo.System.Rights.{
  HandleTable, answer-cases, next-cases, get_rights-keeps, get_rights-tells, close-removes,
  close-fails,
}

-- The table has a new handle `n` with the rights of `h` less those that are removed.
pub record Duplicated (k : Kernel) (t : HandleTable k) (h removed n : ℕ) (s s' : k.State)
    : Type 0 where
  pub original : ℕ
  pub had : t.rights_of s h ≡ some original
  pub fresh : t.rights_of s n ≡ none
  pub has : t.rights_of s' n ≡ some (and_not original removed)
  pub others : (g : ℕ) → g ≢ n → t.rights_of s' g ≡ t.rights_of s g

-- And the handle `h` is no longer valid.
pub record Replaced (k : Kernel) (t : HandleTable k) (h removed n : ℕ) (s s' : k.State)
    : Type 0 where
  pub original : ℕ
  pub had : t.rights_of s h ≡ some original
  pub fresh : t.rights_of s n ≡ none
  pub has : t.rights_of s' n ≡ some (and_not original removed)
  pub gone : t.rights_of s' h ≡ none
  pub others : (g : ℕ) → g ≢ n → g ≢ h → t.rights_of s' g ≡ t.rights_of s g

-- The second steps of the two calls.
abbrev with_rights : (k : Kernel) → ℕ → ℕ → ℕ → k.State → Reply ℕ × k.State
with_rights k h removed original s =
    answer rights_error stored (k.handle_duplicate h (and_not original removed) s)

abbrev with_handle : (k : Kernel) → ℕ → ℕ → k.State → Reply ℕ × k.State
with_handle k h n s = next (close k h s) (λ _ s'. (succeeded n, s'))

and_not_le : (a b : ℕ) → and_not a b ≤ a
unfolding and_not
and_not_le a b = omega arith

-- Rights that are left are not taken for `MX_RIGHT_SAME_RIGHTS`.
and_not-plain :
    (k : Kernel) (original removed : ℕ)
    → original < k.same_rights
    → and_not original removed ≢ k.same_rights
and_not-plain k original removed h same = let z = and_not_le original removed in omega arith

with_rights-adds :
    (k : Kernel) (t : HandleTable k) (h removed original n : ℕ) (s : k.State)
    → original < k.same_rights
    → (with_rights k h removed original s).0.out ≡ some n
    → (t.rights_of s n ≡ none)
      × (t.rights_of (with_rights k h removed original s).1 n ≡ some (and_not original removed))
      × ((g : ℕ) → g ≢ n → t.rights_of (with_rights k h removed original s).1 g ≡ t.rights_of s g)
with_rights-adds k t h removed original n s below o =
    elim (answer-cases rights_error (k.handle_duplicate h (and_not original removed) s)) [
      | inl (e, p, q) ↦ cc
      | inr (a, p, q) ↦
          let same : a ≡ n = cc in
          let p' = p ∙ ap (λ x. (value x, (with_rights k h removed original s).1)) same in
          (
            t.duplicate_fresh h (and_not original removed) n s _ p',
            t.duplicate_given h (and_not original removed) n s _ p'
                (and_not-plain k original removed below),
            λ g d. t.duplicate_keeps h (and_not original removed) n s _ g p' d,
          )
    ]

with_rights-fails :
    (k : Kernel) (t : HandleTable k) (h removed original : ℕ) (s : k.State) (g : ℕ)
    → (with_rights k h removed original s).0.out ≡ none
    → t.rights_of (with_rights k h removed original s).1 g ≡ t.rights_of s g
with_rights-fails k t h removed original s g o =
    elim (answer-cases rights_error (k.handle_duplicate h (and_not original removed) s)) [
      | inl (e, p, q) ↦ t.duplicate_fails h (and_not original removed) e s _ g p
      | inr (a, p, q) ↦ cc
    ]

-- Under a kernel that keeps a table of handles, MojoDuplicateHandleWithReducedRights with a new
-- handle adds that handle, which was not valid, with the rights of the old one that are not removed,
-- and every other handle keeps its rights.
pub duplicate_reduced-Duplicated :
    (k : Kernel) (t : HandleTable k) (h removed n : ℕ) (s : k.State)
    → (duplicate_handle_with_reduced_rights k h removed s).0.out ≡ some n
    → Duplicated k t h removed n s (duplicate_handle_with_reduced_rights k h removed s).1
unfolding duplicate_handle_with_reduced_rights
duplicate_reduced-Duplicated k t h removed n s o =
    elim (next-cases (get_rights k h s) (with_rights k h removed)) [
      | inl (q, p, e) ↦ cc
      | inr (r, q, e) ↦
          let had = get_rights-tells k t h r s q in
          let z =
            with_rights-adds k t h removed r n (get_rights k h s).1 (t.rights_below h r s had)
              (sym (ap (λ x. x.0.out) e) ∙ o) in
          record {
            original = r;
            had = had;
            fresh = sym (get_rights-keeps k t h s n) ∙ z.0;
            has = ap (λ x. t.rights_of x.1 n) e ∙ z.1;
            others = λ g d. ap (λ x. t.rights_of x.1 g) e ∙ z.2 g d ∙ get_rights-keeps k t h s g;
          }
    ]

-- Under a kernel that keeps a table of handles, MojoDuplicateHandleWithReducedRights with no new
-- handle leaves the table as it was.
duplicate_reduced-fails :
    (k : Kernel) (t : HandleTable k) (h removed : ℕ) (s : k.State) (g : ℕ)
    → (duplicate_handle_with_reduced_rights k h removed s).0.out ≡ none
    → t.rights_of (duplicate_handle_with_reduced_rights k h removed s).1 g ≡ t.rights_of s g
unfolding duplicate_handle_with_reduced_rights
duplicate_reduced-fails k t h removed s g o =
    elim (next-cases (get_rights k h s) (with_rights k h removed)) [
      | inl (q, p, e) ↦ ap (λ x. t.rights_of x g) e ∙ get_rights-keeps k t h s g
      | inr (r, q, e) ↦
          ap (λ x. t.rights_of x.1 g) e
          ∙ with_rights-fails k t h removed r (get_rights k h s).1 g (sym (ap (λ x. x.0.out) e) ∙ o)
          ∙ get_rights-keeps k t h s g
    ]

-- Once MojoClose has returned with success, the replacement is the handle that was made.
with_handle-removes :
    (k : Kernel) (t : HandleTable k) (h m n : ℕ) (s : k.State)
    → (with_handle k h m s).0.out ≡ some n
    → (m ≡ n)
      × (t.rights_of (with_handle k h m s).1 h ≡ none)
      × ((g : ℕ) → g ≢ h → t.rights_of (with_handle k h m s).1 g ≡ t.rights_of s g)
with_handle-removes k t h m n s o = elim (next-cases (close k h s) (λ _ s'. (succeeded m, s'))) [
  | inl (q, p, e) ↦ cc
  | inr (u, q, e) ↦
      let z = close-removes k t h s u q in
      let back = ap (λ x. x.1) e in
      (
        some-injective m n (sym (ap (λ x. x.0.out) e) ∙ o),
        ap (λ x. t.rights_of x h) back ∙ z.0,
        λ g d. ap (λ x. t.rights_of x g) back ∙ z.1 g d,
      )
]

with_handle-fails :
    (k : Kernel) (t : HandleTable k) (h m : ℕ) (s : k.State) (g : ℕ)
    → (with_handle k h m s).0.out ≡ none
    → t.rights_of (with_handle k h m s).1 g ≡ t.rights_of s g
with_handle-fails k t h m s g o = elim (next-cases (close k h s) (λ _ s'. (succeeded m, s'))) [
  | inl (q, p, e) ↦ ap (λ x. t.rights_of x g) e ∙ close-fails k t h s g q
  | inr (u, q, e) ↦ let z = ap (λ x. x.0.out) e in cc
]

-- A handle that was valid is not one that was not.
apart :
    (k : Kernel) (t : HandleTable k) (s : k.State) (g n r : ℕ)
    → t.rights_of s g ≡ some r
    → t.rights_of s n ≡ none
    → g ≢ n
apart k t s g n r had fresh same = let z = ap (t.rights_of s) same in cc

-- Under a kernel that keeps a table of handles, MojoReplaceHandleWithReducedRights with a new handle
-- adds that handle, which was not valid, with the rights of the old one that are not removed; the old
-- one is no longer valid, and every other handle keeps its rights.
pub replace_reduced-Replaced :
    (k : Kernel) (t : HandleTable k) (h removed n : ℕ) (s : k.State)
    → (replace_handle_with_reduced_rights k h removed s).0.out ≡ some n
    → Replaced k t h removed n s (replace_handle_with_reduced_rights k h removed s).1
unfolding replace_handle_with_reduced_rights
replace_reduced-Replaced k t h removed n s o =
    elim (next-cases (duplicate_handle_with_reduced_rights k h removed s) (with_handle k h)) [
      | inl (q, p, e) ↦ cc
      | inr (m, q, e) ↦
          let s' = (duplicate_handle_with_reduced_rights k h removed s).1 in
          let z = with_handle-removes k t h m n s' (sym (ap (λ x. x.0.out) e) ∙ o) in
          let d = duplicate_reduced-Duplicated k t h removed n s (q ∙ ap some z.0) in
          let back = ap (λ x. x.1) e in
          let old_is_not_new = apart k t s h n d.original d.had d.fresh in
          record {
            original = d.original;
            had = d.had;
            fresh = d.fresh;
            has = ap (λ x. t.rights_of x n) back ∙ z.2 n (λ p. old_is_not_new (sym p)) ∙ d.has;
            gone = ap (λ x. t.rights_of x h) back ∙ z.1;
            others = λ g a b. ap (λ x. t.rights_of x g) back ∙ z.2 g b ∙ d.others g a;
          }
    ]

-- Under a kernel that keeps a table of handles, every handle that was valid keeps its rights, the
-- one to replace too, if MojoReplaceHandleWithReducedRights stores no new handle.
pub replace_reduced-keeps :
    (k : Kernel) (t : HandleTable k) (h removed g r : ℕ) (s : k.State)
    → (replace_handle_with_reduced_rights k h removed s).0.out ≡ none
    → t.rights_of s g ≡ some r
    → t.rights_of (replace_handle_with_reduced_rights k h removed s).1 g ≡ some r
unfolding replace_handle_with_reduced_rights
replace_reduced-keeps k t h removed g r s o valid =
    elim (next-cases (duplicate_handle_with_reduced_rights k h removed s) (with_handle k h)) [
      | inl (q, p, e) ↦
          ap (λ x. t.rights_of x g) e ∙ duplicate_reduced-fails k t h removed s g q ∙ valid
      | inr (m, q, e) ↦
          let d = duplicate_reduced-Duplicated k t h removed m s q in
          let s' = (duplicate_handle_with_reduced_rights k h removed s).1 in
          ap (λ x. t.rights_of x.1 g) e
          ∙ with_handle-fails k t h m s' g (sym (ap (λ x. x.0.out) e) ∙ o)
          ∙ d.others g (apart k t s g m r valid d.fresh)
          ∙ valid
    ]

-- Under a kernel that keeps a table of handles, if MojoDuplicateHandleWithReducedRights gives a new
-- handle and MojoClose then fails, MojoReplaceHandleWithReducedRights stores no handle, and the new
-- one stays in the table.
pub replace_reduced-leaks :
    (k : Kernel) (t : HandleTable k) (h removed n : ℕ) (s : k.State)
    → (duplicate_handle_with_reduced_rights k h removed s).0.out ≡ some n
    → (close k h (duplicate_handle_with_reduced_rights k h removed s).1).0.out ≡ none
    → ((replace_handle_with_reduced_rights k h removed s).0.out ≡ none)
      × Duplicated k t h removed n s (replace_handle_with_reduced_rights k h removed s).1
unfolding replace_handle_with_reduced_rights
replace_reduced-leaks k t h removed n s made refused =
    elim (next-cases (duplicate_handle_with_reduced_rights k h removed s) (with_handle k h)) [
      | inl (q, p, e) ↦ cc
      | inr (m, q, e) ↦
          elim (next-cases (close k h (duplicate_handle_with_reduced_rights k h removed s).1)
            (λ _ s'. (succeeded m, s'))) [
              | inr (u, q', e') ↦ cc
              | inl (q', p', e') ↦
                  let s' = (duplicate_handle_with_reduced_rights k h removed s).1 in
                  let d = duplicate_reduced-Duplicated k t h removed n s made in
                  let back = λ (g : ℕ).
                    ap (λ x. t.rights_of x.1 g) e
                    ∙ ap (λ x. t.rights_of x g) e'
                    ∙ close-fails k t h s' g refused in
                  (
                    ap (λ x. x.0.out) e ∙ p',
                    record {
                      original = d.original;
                      had = d.had;
                      fresh = d.fresh;
                      has = back n ∙ d.has;
                      others = λ g a. back g ∙ d.others g a;
                    },
                  )
            ]
    ]
