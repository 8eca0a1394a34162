-- ===== src/Prelude/Maps.antt =====
-- std::map with keys that are numbers: a list of keys and values in the order of the keys.
use Prim.Native.Nat.{ℕ, suc, ◌≤◌, ◌<◌}
use mathlib.Core.Path.{◌≡◌, refl}
use mathlib.Core.Logic.{◌≢◌, ◌⊎◌}
use mathlib.Core.Option.{Option, none, some}
use mathlib.Core.List.{List, [], ◌∷◌}
use native.Mathlib.Omega.{arith}
use mojo.Prelude.Lists.{All, length}
use mojo.Prelude.Tests.{ltb, ◌==◌, if◌then◌else◌}

unfoldable pub find {ℓ} : {A : Type ℓ} → ℕ → List (ℕ × A) → Option A
find id [] = none
find id ((k, h) ∷ hs) = if k == id then some h else find id hs

unfoldable pub erase {ℓ} : {A : Type ℓ} → ℕ → List (ℕ × A) → List (ℕ × A)
erase id [] = []
erase id ((k, h) ∷ hs) = if k == id then hs else (k, h) ∷ erase id hs

-- `insert` leaves an entry that is there alone.
unfoldable pub insert {ℓ} : {A : Type ℓ} → ℕ → A → List (ℕ × A) → List (ℕ × A)
insert id x [] = (id, x) ∷ []
insert id x ((k, h) ∷ hs) =
    if ltb id k
    then (id, x) ∷ (k, h) ∷ hs
    else if id == k
    then (k, h) ∷ hs
    else (k, h) ∷ insert id x hs

-- `m[id] = x`.
unfoldable pub assign {ℓ} : {A : Type ℓ} → ℕ → A → List (ℕ × A) → List (ℕ × A)
assign id x [] = (id, x) ∷ []
assign id x ((k, h) ∷ hs) =
    if ltb id k
    then (id, x) ∷ (k, h) ∷ hs
    else if id == k
    then (k, x) ∷ hs
    else (k, h) ∷ assign id x hs

-- The keys ascend.
abbrev pub Ascends : {A : Type 0} → List (ℕ × A) → Type 0
Ascends [] = Unit {0}
Ascends ((k, h) ∷ hs) = All (λ p. k < p.0) hs × Ascends hs

pub find-above :
    {A : Type 0} (id k : ℕ) (hs : List (ℕ × A)) → id ≤ k → All (λ p. k < p.0) hs → find id hs ≡ none
unfolding find
find-above id k [] l h = refl
find-above id k ((j, x) ∷ hs) l h = ground (arith, find-above id k hs)

pub find-insert :
    {A : Type 0} (id k : ℕ) (x h : A) (hs : List (ℕ × A))
    → find k (insert id x hs) ≡ some h
    → (find k hs ≡ some h) ⊎ ((id ≡ k) × (x ≡ h))
unfolding find insert
find-insert id k x h [] e = ground arith
find-insert id k x h ((j, y) ∷ hs) e = ground (arith, find-insert id k x h hs)

All-insert :
    {A : Type 0} (b id : ℕ) (x : A) (hs : List (ℕ × A))
    → b < id
    → All (λ p. b < p.0) hs
    → All (λ p. b < p.0) (insert id x hs)
unfolding insert
All-insert b id x [] l h = (l, tt)
All-insert b id x ((j, y) ∷ hs) l h = ground (arith, All-insert b id x hs)

All-below :
    {A : Type 0} (a b : ℕ) (hs : List (ℕ × A))
    → a ≤ b
    → All (λ p. b < p.0) hs
    → All (λ p. a < p.0) hs
All-below a b [] l h = tt
All-below a b ((j, y) ∷ hs) l h = (omega arith, All-below a b hs l h.1)

pub insert-Ascends :
    {A : Type 0} (id : ℕ) (x : A) (hs : List (ℕ × A)) → Ascends hs → Ascends (insert id x hs)
unfolding insert
insert-Ascends id x [] h = (tt, tt)
insert-Ascends id x ((j, y) ∷ hs) h =
    ground (arith, All-below id j hs, All-insert j id x hs, insert-Ascends id x hs)

pub All-erase :
    {A : Type 0} (b id : ℕ) (hs : List (ℕ × A))
    → All (λ p. b < p.0) hs
    → All (λ p. b < p.0) (erase id hs)
unfolding erase
All-erase b id [] h = tt
All-erase b id ((j, y) ∷ hs) h = ground (arith, All-erase b id hs)

pub erase-Ascends : {A : Type 0} (id : ℕ) (hs : List (ℕ × A)) → Ascends hs → Ascends (erase id hs)
unfolding erase
erase-Ascends id [] h = tt
erase-Ascends id ((j, y) ∷ hs) h = ground (arith, All-erase j id hs, erase-Ascends id hs)

pub find-erase :
    {A : Type 0} (id k : ℕ) (h : A) (hs : List (ℕ × A))
    → Ascends hs
    → find k (erase id hs) ≡ some h
    → (find k hs ≡ some h) × (k ≢ id)
unfolding find erase
find-erase id k h [] a e = cc
find-erase id k h ((j, y) ∷ hs) a e = ground (arith, find-above k j hs, find-erase id k h hs)

pub find-erase_self :
    {A : Type 0} (id : ℕ) (hs : List (ℕ × A)) → Ascends hs → find id (erase id hs) ≡ none
unfolding find erase
find-erase_self id [] a = refl
find-erase_self id ((j, y) ∷ hs) a = ground (arith, find-above id j hs, find-erase_self id hs)

pub All-assign :
    {A : Type 0} (b id : ℕ) (x : A) (hs : List (ℕ × A))
    → b < id
    → All (λ p. b < p.0) hs
    → All (λ p. b < p.0) (assign id x hs)
unfolding assign
All-assign b id x [] l h = (l, tt)
All-assign b id x ((j, y) ∷ hs) l h = ground (arith, All-assign b id x hs)

pub assign-Ascends :
    {A : Type 0} (id : ℕ) (x : A) (hs : List (ℕ × A)) → Ascends hs → Ascends (assign id x hs)
unfolding assign
assign-Ascends id x [] h = (tt, tt)
assign-Ascends id x ((j, y) ∷ hs) h =
    ground (arith, All-below id j hs, All-assign j id x hs, assign-Ascends id x hs)

pub find-assign :
    {A : Type 0} (id k : ℕ) (x : A) (hs : List (ℕ × A))
    → Ascends hs
    → find k (assign id x hs) ≡ (if k == id then some x else find k hs)
unfolding find assign
find-assign id k x [] a = ground arith
find-assign id k x ((j, y) ∷ hs) a = ground (arith, find-above k j hs, find-assign id k x hs)

erase-above :
    {A : Type 0} (id k : ℕ) (hs : List (ℕ × A)) → id ≤ k → All (λ p. k < p.0) hs → erase id hs ≡ hs
unfolding erase
erase-above id k [] l h = refl
erase-above id k ((j, x) ∷ hs) l h = ground (arith, erase-above id k hs)

-- What is added under a new key and erased leaves the map as it was.
pub erase-assign :
    {A : Type 0} (id : ℕ) (x : A) (hs : List (ℕ × A))
    → Ascends hs
    → find id hs ≡ none
    → erase id (assign id x hs) ≡ hs
unfolding find erase assign
erase-assign id x [] a h = ground arith
erase-assign id x ((j, y) ∷ hs) a h = ground (arith, erase-assign id x hs)

pub erase-head : {A : Type 0} (id : ℕ) (x : A) (hs : List (ℕ × A)) → erase id ((id, x) ∷ hs) ≡ hs
unfolding erase
erase-head id x hs = ground arith

pub find-erase_lem :
    {A : Type 0} (id k : ℕ) (hs : List (ℕ × A))
    → Ascends hs
    → find k (erase id hs) ≡ (if k == id then none else find k hs)
unfolding find erase
find-erase_lem id k [] a = ground arith
find-erase_lem id k ((j, y) ∷ hs) a = ground (arith, find-above k j hs, find-erase_lem id k hs)

-- A key that is there is one entry of the map.
pub length-erase :
    {A : Type 0} (id : ℕ) (x : A) (hs : List (ℕ × A))
    → find id hs ≡ some x
    → suc (length (erase id hs)) ≡ length hs
unfolding find erase
length-erase id x [] h = cc
length-erase id x ((j, y) ∷ hs) h = ground (arith, length-erase id x hs)

pub length-assign_old :
    {A : Type 0} (id : ℕ) (x y : A) (hs : List (ℕ × A))
    → Ascends hs
    → find id hs ≡ some y
    → length (assign id x hs) ≡ length hs
unfolding find assign
length-assign_old id x y [] a h = cc
length-assign_old id x y ((j, z) ∷ hs) a h =
    ground (arith, find-above id j hs, length-assign_old id x y hs)

pub length-assign_new :
    {A : Type 0} (id : ℕ) (x : A) (hs : List (ℕ × A))
    → find id hs ≡ none
    → length (assign id x hs) ≡ suc (length hs)
unfolding find assign
length-assign_new id x [] h = refl
length-assign_new id x ((j, z) ∷ hs) h = ground (arith, length-assign_new id x hs)
