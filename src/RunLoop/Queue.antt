-- ===== src/RunLoop/Queue.antt =====
-- std::priority_queue: what is pushed keeps the queue in order.
use mojo.Prelude.{◌≡◌, ◌⊎◌, inl, inr, Bool, true, false, List, [], ◌∷◌, All, Bool-cases, refl}
use mathlib.Core.Path.{subst}
use mojo.RunLoop.{push}

-- No element is greater than one before it, so that the first is the greatest.
abbrev pub InOrder {ℓ} : {A : Type ℓ} → (A → A → Bool) → List A → Type 0
InOrder less [] = Unit {0}
InOrder less (x ∷ xs) = All (λ y. less x y ≡ false) xs × InOrder less xs

-- `x` is one of the elements.
abbrev pub Has : {A : Type 0} → A → List A → Type 0
Has x [] = ⊥
Has x (y ∷ ys) = (y ≡ x) ⊎ Has x ys

module _ {A : Type 0} (less : A → A → Bool) where
  pub All-push : (P : A → Type 0) (x : A) (ys : List A) → P x → All P ys → All P (push less x ys)
  unfolding push
  All-push P x [] p h = (p, tt)
  All-push P x (y ∷ ys) p h = elim (Bool-cases (less y x)) [
    | inl e ↦ rw e (p, h)
    | inr e ↦ rw e (h.0, All-push P x ys p h.1)
  ]

  pub Has-push_self : (x : A) (ys : List A) → Has x (push less x ys)
  unfolding push
  Has-push_self x [] = inl refl
  Has-push_self x (y ∷ ys) = elim (Bool-cases (less y x)) [
    | inl e ↦ rw e (inl refl)
    | inr e ↦ rw e (inr (Has-push_self x ys))
  ]

  Has-tail : (z y : A) (xs ys : List A) → (Has z xs → Has z ys) → Has z (y ∷ xs) → Has z (y ∷ ys)
  Has-tail z y xs ys f (inl p) = inl p
  Has-tail z y xs ys f (inr p) = inr (f p)

  pub Has-push : (x z : A) (ys : List A) → Has z ys → Has z (push less x ys)
  unfolding push
  Has-push x z [] h = elim h [ ]
  Has-push x z (y ∷ ys) h = elim (Bool-cases (less y x)) [
    | inl e ↦ rw e (inr h)
    | inr e ↦ rw e (Has-tail z y ys (push less x ys) (Has-push x z ys) h)
  ]

  pub All-Has : (P : A → Type 0) (z : A) (ys : List A) → All P ys → Has z ys → P z
  All-Has P z [] a h = elim h [ ]
  All-Has P z (y ∷ ys) a (inl p) = subst P p a.0
  All-Has P z (y ∷ ys) a (inr p) = All-Has P z ys a.1 p

  module _ (trans : (a b c : A) → less b a ≡ true → less b c ≡ false → less a c ≡ false)
      (asym : (a b : A) → less b a ≡ true → less a b ≡ false) where
    All-trans :
        (x y : A) (ys : List A)
        → less y x ≡ true
        → All (λ u. less y u ≡ false) ys
        → All (λ u. less x u ≡ false) ys
    All-trans x y [] p h = tt
    All-trans x y (z ∷ ys) p h = (trans x y z p h.0, All-trans x y ys p h.1)

    pub push-InOrder : (x : A) (ys : List A) → InOrder less ys → InOrder less (push less x ys)
    unfolding push
    push-InOrder x [] h = (tt, tt)
    push-InOrder x (y ∷ ys) h = elim (Bool-cases (less y x)) [
      | inl e ↦ rw e ((asym x y e, All-trans x y ys e h.0), h)
      | inr e ↦ rw e (All-push _ x ys e h.0, push-InOrder x ys h.1)
    ]
