-- ===== src/System/Rights.antt =====
-- Handles and their rights. What the kernel does with handles is stated of a table of the rights
-- that each valid handle has; the calls of mojo.c that replace handles then are what handle.h says.
use mojo.Prelude.{ℕ, ◌<◌, ◌≡◌, ◌≢◌, ◌⊎◌, inl, inr, refl, sym, ap, ◌∙◌, Option, none, some}
use mojo.System.{
  MojoResult, MxError, MxResult, error, value, Kernel, Reply, answer, stored, proceed, next,
}
use mojo.System.Handles.{close_error, rights_error, close, get_rights}

-- What the code relies on in the kernel's calls on handles: `rights_of s h` are the rights of `h`,
-- or nothing if it is not a valid handle.
pub record HandleTable (k : Kernel) : Type 0 where
  pub rights_of : k.State → ℕ → Option ℕ
  -- `mx_handle_get_info` tells the rights of a handle, and leaves the handles as they are.
  pub info_rights :
      (h r : ℕ) (s s' : k.State) → k.handle_get_info h s ≡ (value r, s') → rights_of s h ≡ some r
  pub info_keeps :
      (h : ℕ) (s : k.State) (g : ℕ) → rights_of (k.handle_get_info h s).1 g ≡ rights_of s g
  -- `MX_RIGHT_SAME_RIGHTS` is a bit above that of each right.
  pub rights_below : (h r : ℕ) (s : k.State) → rights_of s h ≡ some r → r < k.same_rights
  -- `mx_handle_duplicate` adds a handle that was not valid, with the rights that it is given, or with
  -- those of the original, if it is given `MX_RIGHT_SAME_RIGHTS`.
  pub duplicate_fresh :
      (h r n : ℕ) (s s' : k.State) → k.handle_duplicate h r s ≡ (value n, s') → rights_of s n ≡ none
  pub duplicate_given :
      (h r n : ℕ) (s s' : k.State)
      → k.handle_duplicate h r s ≡ (value n, s')
      → r ≢ k.same_rights
      → rights_of s' n ≡ some r
  pub duplicate_same :
      (h n : ℕ) (s s' : k.State)
      → k.handle_duplicate h k.same_rights s ≡ (value n, s')
      → rights_of s' n ≡ rights_of s h
  pub duplicate_keeps :
      (h r n : ℕ) (s s' : k.State) (g : ℕ)
      → k.handle_duplicate h r s ≡ (value n, s')
      → g ≢ n
      → rights_of s' g ≡ rights_of s g
  pub duplicate_fails :
      (h r : ℕ) (e : MxError) (s s' : k.State) (g : ℕ)
      → k.handle_duplicate h r s ≡ (error e, s')
      → rights_of s' g ≡ rights_of s g
  -- `mx_handle_close` removes the handle, or nothing.
  pub close_removes :
      (h : ℕ) (s s' : k.State) → k.handle_close h s ≡ (value tt, s') → rights_of s' h ≡ none
  pub close_keeps :
      (h : ℕ) (s s' : k.State) (g : ℕ)
      → k.handle_close h s ≡ (value tt, s')
      → g ≢ h
      → rights_of s' g ≡ rights_of s g
  pub close_fails :
      (h : ℕ) (e : MxError) (s s' : k.State) (g : ℕ)
      → k.handle_close h s ≡ (error e, s')
      → rights_of s' g ≡ rights_of s g

-- A reply comes of an error, with nothing stored, or of a value, which is stored.
pub answer-cases :
    {A S : Type 0} (translate : MxError → MojoResult) (x : MxResult A × S)
    → let (r, s) = answer translate stored x in
      ((e : MxError) × (x ≡ (error e, s)) × (r.out ≡ none))
      ⊎ ((a : A) × (x ≡ (value a, s)) × (r.out ≡ some a))
answer-cases translate (error e, s) = inl (e, refl, refl)
answer-cases translate (value a, s) = inr (a, refl, refl)

proceed-cases :
    {A B S : Type 0} (out : Option A) (result : MojoResult) (s : S) (go : A → S → Reply B × S)
    → let (r, s') = proceed out result s go in
      ((out ≡ none) × (r.out ≡ none) × (s' ≡ s))
      ⊎ ((a : A) × (out ≡ some a) × (proceed out result s go ≡ go a s))
proceed-cases none result s go = inl (refl, refl, refl)
proceed-cases (some a) result s go = inr (a, refl, refl)

-- A call of two steps ends with the first one or with the second.
pub next-cases :
    {A B S : Type 0} (x : Reply A × S) (go : A → S → Reply B × S)
    → let (r, s') = next x go in
      ((x.0.out ≡ none) × (r.out ≡ none) × (s' ≡ x.1))
      ⊎ ((a : A) × (x.0.out ≡ some a) × (next x go ≡ go a x.1))
next-cases (r, s) go = proceed-cases r.out r.result s go

module _ (k : Kernel) (t : HandleTable k) where
  open k use {State}
  open t use {rights_of}

  pub get_rights-keeps :
      (h : ℕ) (s : State) (g : ℕ) → rights_of (get_rights k h s).1 g ≡ rights_of s g
  unfolding get_rights
  get_rights-keeps h s g = elim (answer-cases rights_error (k.handle_get_info h s)) [
    | inl (e, p, q) ↦ sym (ap (λ x. rights_of x.1 g) p) ∙ t.info_keeps h s g
    | inr (a, p, q) ↦ sym (ap (λ x. rights_of x.1 g) p) ∙ t.info_keeps h s g
  ]

  pub get_rights-tells :
      (h r : ℕ) (s : State) → (get_rights k h s).0.out ≡ some r → rights_of s h ≡ some r
  unfolding get_rights
  get_rights-tells h r s o = elim (answer-cases rights_error (k.handle_get_info h s)) [
    | inl (e, p, q) ↦ cc
    | inr (a, p, q) ↦ let z = t.info_rights h a s _ p in cc
  ]

  pub close-removes :
      (h : ℕ) (s : State) (u : Unit {0})
      → (close k h s).0.out ≡ some u
      → (rights_of (close k h s).1 h ≡ none)
        × ((g : ℕ) → g ≢ h → rights_of (close k h s).1 g ≡ rights_of s g)
  unfolding close
  close-removes h s u o = elim (answer-cases close_error (k.handle_close h s)) [
    | inl (e, p, q) ↦ cc
    | inr (a, p, q) ↦ (t.close_removes h s _ p, λ g. t.close_keeps h s _ g p)
  ]

  pub close-fails :
      (h : ℕ) (s : State) (g : ℕ)
      → (close k h s).0.out ≡ none
      → rights_of (close k h s).1 g ≡ rights_of s g
  unfolding close
  close-fails h s g o = elim (answer-cases close_error (k.handle_close h s)) [
    | inl (e, p, q) ↦ t.close_fails h e s _ g p
    | inr (a, p, q) ↦ cc
  ]
