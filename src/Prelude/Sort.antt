-- ===== src/Prelude/Sort.antt =====
-- Python's `sorted`: a stable sort by a test `le` on the keys, here by insertion.
use Prim.Native.Nat.{ℕ, zero, suc}
use mathlib.Core.Path.{◌≡◌, refl}
use mathlib.Core.Logic.{inl, inr}
use mathlib.Core.Bool.{Bool, true, false}
use mathlib.Core.Option.{some}
use mathlib.Core.List.{List, [], ◌∷◌, ◌++◌}
use native.Mathlib.Omega.{arith}
use clab_manager.Prelude.Tests.{if◌then◌else◌, Bool-cases}
use clab_manager.Prelude.Lists.{
  All, All-mono, All-keep, All-append, All-erase_at, All-set, In, tally, keep, erase_at, set,
  get_elem?,
}

module _ {ℓ} {A : Type ℓ} (le : A → A → Bool) where
  -- `x` came before all of the list, so it goes before its equals.
  unfoldable pub sorted_insert : A → List A → List A
  sorted_insert x [] = x ∷ []
  sorted_insert x (y ∷ ys) = if le x y then x ∷ y ∷ ys else y ∷ sorted_insert x ys

  unfoldable pub sorted : List A → List A
  unfolding sorted_insert
  sorted [] = []
  sorted (x ∷ xs) = sorted_insert x (sorted xs)

  -- Each item comes before all that follow it.
  abbrev pub Ordered : List A → Type 0
  Ordered [] = Unit
  Ordered (x ∷ xs) = All (λ y. le x y ≡ true) xs × Ordered xs

  module _ {κ} (P : A → Type κ) where
    All-sorted_insert : (x : A) (xs : List A) → P x → All P xs → All P (sorted_insert x xs)
    unfolding sorted_insert
    All-sorted_insert x [] p h = (p, tt)
    All-sorted_insert x (y ∷ ys) p h =
        elim (le x y) as (λ b. All P (if b then x ∷ y ∷ ys else y ∷ sorted_insert x ys)) [
          | true ↦ (p, h)
          | false ↦ (h.0, All-sorted_insert x ys p h.1)
        ]

    pub All-sorted : (xs : List A) → All P xs → All P (sorted xs)
    unfolding sorted
    All-sorted [] h = h
    All-sorted (x ∷ xs) h = All-sorted_insert x (sorted xs) h.0 (All-sorted xs h.1)

  tally-sorted_insert :
      (p : A → Bool) (x : A) (xs : List A) → tally p (sorted_insert x xs) ≡ tally p (x ∷ xs)
  unfolding sorted_insert
  tally-sorted_insert p x [] = refl
  tally-sorted_insert p x (y ∷ ys) = ground (arith, tally-sorted_insert p x ys)

  -- Sorting keeps how many items pass a test.
  pub tally-sorted : (p : A → Bool) (xs : List A) → tally p (sorted xs) ≡ tally p xs
  unfolding sorted
  tally-sorted p [] = refl
  tally-sorted p (x ∷ xs) = ground (arith, tally-sorted_insert p x (sorted xs), tally-sorted p xs)

  module _ (total : (x y : A) → le x y ≡ false → le y x ≡ true)
      (trans : (x y z : A) → le x y ≡ true → le y z ≡ true → le x z ≡ true) where
    sorted_insert-Ordered : (x : A) (xs : List A) → Ordered xs → Ordered (sorted_insert x xs)
    unfolding sorted_insert
    sorted_insert-Ordered x [] h = (tt, tt)
    sorted_insert-Ordered x (y ∷ ys) h = elim (Bool-cases (le x y)) [
      | inl e ↦ rw e ((e, All-mono _ _ (λ z. trans x y z e) ys h.0), h)
      | inr e ↦ rw e (
        All-sorted_insert (λ z. le y z ≡ true) x ys (total x y e) h.0,
        sorted_insert-Ordered x ys h.1,
      )
    ]

    pub sorted-Ordered : (xs : List A) → Ordered (sorted xs)
    unfolding sorted
    sorted-Ordered [] = tt
    sorted-Ordered (x ∷ xs) = sorted_insert-Ordered x (sorted xs) (sorted-Ordered xs)

module _ {A : Type 0} (le : A → A → Bool) where
  In-sorted_insert : (a x : A) (xs : List A) → In a (x ∷ xs) → In a (sorted_insert le x xs)
  unfolding sorted_insert
  In-sorted_insert a x [] h = h
  In-sorted_insert a x (y ∷ ys) h = ground (arith, In-sorted_insert a x ys)

  In-of_sorted_insert : (a x : A) (xs : List A) → In a (sorted_insert le x xs) → In a (x ∷ xs)
  unfolding sorted_insert
  In-of_sorted_insert a x [] h = h
  In-of_sorted_insert a x (y ∷ ys) h = ground (arith, In-of_sorted_insert a x ys)

  -- Sorting keeps the items.
  pub In-sorted : (a : A) (xs : List A) → In a xs → In a (sorted le xs)
  unfolding sorted
  In-sorted a [] h = h
  In-sorted a (x ∷ xs) (inl e) = In-sorted_insert a x (sorted le xs) (inl e)
  In-sorted a (x ∷ xs) (inr h) = In-sorted_insert a x (sorted le xs) (inr (In-sorted a xs h))

  pub In-of_sorted : (a : A) (xs : List A) → In a (sorted le xs) → In a xs
  unfolding sorted
  In-of_sorted a [] h = h
  In-of_sorted a (x ∷ xs) h = elim (In-of_sorted_insert a x (sorted le xs) h) [
    | inl e ↦ inl e
    | inr i ↦ inr (In-of_sorted a xs i)
  ]

module _ {ℓ} {A : Type ℓ} (p : A → A → Bool) where
  pub Ordered-keep : (q : A → Bool) (xs : List A) → Ordered p xs → Ordered p (keep q xs)
  Ordered-keep q [] h = h
  Ordered-keep q (x ∷ xs) h =
      elim (q x) as (λ b. Ordered p (if b then x ∷ keep q xs else keep q xs)) [
        | true ↦ (All-keep (λ y. p x y ≡ true) q xs h.0, Ordered-keep q xs h.1)
        | false ↦ Ordered-keep q xs h.1
      ]

  pub Ordered-erase_at : (xs : List A) (i : ℕ) → Ordered p xs → Ordered p (erase_at xs i)
  Ordered-erase_at [] i h = h
  Ordered-erase_at (x ∷ xs) zero h = h.1
  Ordered-erase_at (x ∷ xs) (suc i) h =
      (All-erase_at (λ y. p x y ≡ true) xs i h.0, Ordered-erase_at xs i h.1)

  module _ (symm : (x y : A) → p x y ≡ true → p y x ≡ true) where
    pub Ordered-append :
        (xs : List A) (v : A) → Ordered p xs → All (λ y. p v y ≡ true) xs → Ordered p (xs ++ v ∷ [])
    Ordered-append [] v o h = (tt, tt)
    Ordered-append (x ∷ xs) v o h = (
      All-append (λ y. p x y ≡ true) xs (v ∷ []) o.0 (symm v x h.0, tt),
      Ordered-append xs v o.1 h.1,
    )

    Ordered-sorted_insert_symmetric :
        (le : A → A → Bool) (x : A) (xs : List A)
        → Ordered p (x ∷ xs)
        → Ordered p (sorted_insert le x xs)
    unfolding sorted_insert
    Ordered-sorted_insert_symmetric le x [] o = o
    Ordered-sorted_insert_symmetric le x (y ∷ ys) o =
        elim (le x y) as (λ b. Ordered p (if b then x ∷ y ∷ ys else y ∷ sorted_insert le x ys)) [
          | true ↦ o
          | false ↦ (
            All-sorted_insert le (λ z. p y z ≡ true) x ys (symm x y o.0.0) o.1.0,
            Ordered-sorted_insert_symmetric le x ys (o.0.1, o.1.1),
          )
        ]

    -- Sorting by any test keeps a symmetric relation between all items.
    pub Ordered-sorted_symmetric :
        (le : A → A → Bool) (xs : List A) → Ordered p xs → Ordered p (sorted le xs)
    unfolding sorted
    Ordered-sorted_symmetric le [] o = o
    Ordered-sorted_symmetric le (x ∷ xs) o =
        Ordered-sorted_insert_symmetric le x (sorted le xs)
          (All-sorted le (λ y. p x y ≡ true) xs o.0, Ordered-sorted_symmetric le xs o.1)

    -- An item at `i` may be replaced by one that is related to all the others.
    pub Ordered-set :
        (xs : List A) (i : ℕ) (v : A)
        → Ordered p xs
        → All (λ y. p v y ≡ true) (erase_at xs i)
        → Ordered p (set xs i v)
    Ordered-set [] i v o h = o
    Ordered-set (x ∷ xs) zero v o h = (h, o.1)
    Ordered-set (x ∷ xs) (suc i) v o h =
        (All-set (λ y. p x y ≡ true) xs i v o.0 (symm v x h.0), Ordered-set xs i v o.1 h.1)

-- What holds of all items holds of the one that was put at `i`.
All_of_set {ℓ κ} :
    {A : Type ℓ} (P : A → Type κ) (xs : List A) (i : ℕ) (x v : A)
    → get_elem? xs i ≡ some x
    → All P (set xs i v)
    → P v
All_of_set P [] i x v here h = absurd (ground arith)
All_of_set P (y ∷ ys) zero x v here h = h.0
All_of_set P (y ∷ ys) (suc i) x v here h = All_of_set P ys i x v here h.1

-- The item that was put at `i` is related to all the others.
pub Ordered-of_set {ℓ} :
    {A : Type ℓ} (p : A → A → Bool)
    → ((x y : A) → p x y ≡ true → p y x ≡ true)
    → (xs : List A) (i : ℕ) (x v : A) → get_elem? xs i ≡ some x
    → Ordered p (set xs i v)
    → All (λ y. p v y ≡ true) (erase_at xs i)
Ordered-of_set p symm [] i x v here o = tt
Ordered-of_set p symm (y ∷ ys) zero x v here o = o.0
Ordered-of_set p symm (y ∷ ys) (suc i) x v here o = (
  symm y v (All_of_set (λ z. p y z ≡ true) ys i x v here o.0),
  Ordered-of_set p symm ys i x v here o.1,
)
