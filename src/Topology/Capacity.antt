-- ===== src/Topology/Capacity.antt =====
-- topology_builder.py: proofs on the names of the interfaces, and on the next free one.
use clab_manager.Prelude.{
  ℕ, zero, suc, ◌≤◌, ◌<◌, min, ◌≡◌, refl, ap, subst, true, false, not, inl, inr, none, some, List,
  [], ◌∷◌, map, length, All, first, if◌then◌else◌, false≢true, Text, ◌==◌, eq_iff, elem, Dict,
  lookup, some_or, arith, Option-cases, Bool-cases,
}
use clab_manager.Topology.Families.{
  Family, linux_family, router_families, interface_name, range, is_distinct,
  get_interfaces_for_family, interfaces_of, normalize_family,
}
use clab_manager.Topology.Wiring.{pool_of, pool}

-- The list without the first place of a text.
abbrev without : Text → List Text → List Text
without x [] = []
without x (y ∷ ys) = if y == x then ys else y ∷ without x ys

length-without :
    (x : Text) (ys : List Text) → elem x ys ≡ true → length ys ≡ suc (length (without x ys))
length-without x [] h = absurd (false≢true h)
length-without x (y ∷ ys) h = ground (arith, eq_iff y x, length-without x ys)

elem-without :
    (z x : Text) (ys : List Text)
    → (x == z) ≡ false
    → elem z ys ≡ true
    → elem z (without x ys) ≡ true
elem-without z x [] ne h = h
elem-without z x (y ∷ ys) ne h =
    ground (arith, eq_iff y x, eq_iff y z, eq_iff x z, elem-without z x ys)

abbrev AreIn : List Text → List Text → Type 0
AreIn ys xs = All (λ x. elem x ys ≡ true) xs

AreIn-without :
    (x : Text) (ys xs : List Text) → elem x xs ≡ false → AreIn ys xs → AreIn (without x ys) xs
AreIn-without x ys [] ne h = tt
AreIn-without x ys (z ∷ xs) ne h =
    ground (arith, eq_iff z x, eq_iff x z, elem-without z x ys, AreIn-without x ys xs)

-- Distinct texts that all stand in a list are no more than its length.
length-AreIn : (xs ys : List Text) → is_distinct xs ≡ true → AreIn ys xs → length xs ≤ length ys
unfolding is_distinct
length-AreIn [] ys d h = omega arith
length-AreIn (x ∷ xs) ys d h = elim (Bool-cases (elem x xs)) [
  | inl e ↦ absurd (false≢true (rw e at d))
  | inr e ↦
      let rest = length-AreIn xs (without x ys) (rw e at d) (AreIn-without x ys xs e h.1) in
      omega (arith, rest, length-without x ys h.0)
]

first-none : (xs ys : List Text) → first (λ x. not (elem x ys)) xs ≡ none → AreIn ys xs
first-none [] ys h = tt
first-none (x ∷ xs) ys h = ground (arith, first-none xs ys)

first-some :
    (x : Text) (xs ys : List Text)
    → first (λ x. not (elem x ys)) xs ≡ some x
    → (elem x ys ≡ false) × (elem x xs ≡ true)
first-some x [] ys h = absurd (cc h)
first-some x (y ∷ xs) ys h = ground (arith, eq_iff y x, first-some x xs ys)

-- Where fewer names are in use than there are, one is found that is not in use.
pub first_fresh :
    (xs ys : List Text) (d : Text)
    → is_distinct xs ≡ true
    → length ys < length xs
    → (elem (some_or (first (λ x. not (elem x ys)) xs) d) ys ≡ false)
      × (elem (some_or (first (λ x. not (elem x ys)) xs) d) xs ≡ true)
first_fresh xs ys d h l = elim (Option-cases (first (λ x. not (elem x ys)) xs)) [
  | inl e ↦ absurd (omega (arith, length-AreIn xs ys h (first-none xs ys e), l))
  | inr (x, e) ↦ rw e (first-some x xs ys e)
]

lookup-All {ℓ κ} :
    {V : Type ℓ} (P : V → Type κ) (k : Text) (v : V) (d : Dict V)
    → All (λ e. P e.1) d
    → P v
    → P (some_or (lookup k d) v)
lookup-All P k v [] h p = p
lookup-All P k v ((j, w) ∷ d) h p = elim (Bool-cases (j == k)) [
  | inl e ↦ rw e h.0
  | inr e ↦ rw e (lookup-All P k v d h.1 p)
]

abbrev HasPool : Family → Type 0
HasPool meta = is_distinct (pool_of meta) ≡ true

families-HasPool : All (λ e. HasPool e.1) router_families
unfolding pool_of is_distinct ◌==◌
families-HasPool = (refl, (refl, (refl, (refl, (refl, (refl, (refl, (refl, (refl, tt)))))))))

linux-HasPool : HasPool linux_family
unfolding pool_of is_distinct ◌==◌
linux-HasPool = refl

pub pool-is_distinct : (family : Text) → is_distinct (pool family) ≡ true
unfolding pool
pool-is_distinct family =
    lookup-All HasPool family linux_family router_families families-HasPool linux-HasPool

elem-range :
    (pattern : Text) (start lo n m : ℕ) (x : Text)
    → n ≤ m
    → elem x (map (interface_name pattern start) (range lo n)) ≡ true
    → elem x (map (interface_name pattern start) (range lo m)) ≡ true
elem-range pattern start lo zero m x h e = absurd (false≢true e)
elem-range pattern start lo (suc n) zero x h e = absurd (omega (arith, h))
elem-range pattern start lo (suc n) (suc m) x h e =
    ground (arith, elem-range pattern start (suc lo) n m x)

-- The first of a list of distinct names are distinct.
range-is_distinct :
    (pattern : Text) (start lo n m : ℕ)
    → n ≤ m
    → is_distinct (map (interface_name pattern start) (range lo m)) ≡ true
    → is_distinct (map (interface_name pattern start) (range lo n)) ≡ true
unfolding is_distinct
range-is_distinct pattern start lo zero m h d = refl
range-is_distinct pattern start lo (suc n) zero h d = absurd (omega (arith, h))
range-is_distinct pattern start lo (suc n) (suc m) h d = ground (
  arith,
  elem-range pattern start (suc lo) n m (interface_name pattern start lo),
  range-is_distinct pattern start (suc lo) n m,
)

length-range : (f : ℕ → Text) (lo n : ℕ) → length (map f (range lo n)) ≡ n
length-range f lo zero = refl
length-range f lo (suc n) = ap suc (length-range f (suc lo) n)

abbrev HasNames : Family → Type 0
HasNames meta =
    is_distinct (
      map (interface_name meta.interface_pattern meta.interface_start)
        (range 0 meta.max_interfaces))
    ≡ true

families-HasNames : All (λ e. HasNames e.1) router_families
unfolding interface_name is_distinct ◌==◌
families-HasNames = (refl, (refl, (refl, (refl, (refl, (refl, (refl, (refl, (refl, tt)))))))))

abbrev names_of : Family → ℕ → List Text
names_of meta count =
    map (interface_name meta.interface_pattern meta.interface_start) (range 0 count)

get_interfaces_known :
    (family_id : Text) (count : ℕ) (meta : Family)
    → lookup (normalize_family family_id) router_families ≡ some meta
    → get_interfaces_for_family family_id count ≡ names_of meta (min count meta.max_interfaces)
unfolding get_interfaces_for_family
get_interfaces_known family_id count meta h = ap (λ o. interfaces_of o count) h

some_inj {ℓ} : {A : Type ℓ} {a b : A} → some a ≡ some b → a ≡ b
some_inj {a = a} e = ap (λ o. some_or o a) e

All-lookup {ℓ κ} :
    {V : Type ℓ} (P : V → Type κ) (k : Text) (v : V) (d : Dict V)
    → All (λ e. P e.1) d
    → lookup k d ≡ some v
    → P v
All-lookup P k v [] h e = absurd (cc e)
All-lookup P k v ((j, w) ∷ d) h e = elim (Bool-cases (j == k)) [
  | inl q ↦ subst P (some_inj (rw q at e)) h.0
  | inr q ↦ All-lookup P k v d h.1 (rw q at e)
]

min_le : (a b : ℕ) → min a b ≤ b
min_le a b = omega arith

-- For a known family, under any of its names, the list of interfaces is as long as asked for but no
-- longer than the family allows, and has no name twice.
pub get_interfaces_lem :
    (family_id : Text) (count : ℕ) (meta : Family)
    → lookup (normalize_family family_id) router_families ≡ some meta
    → (length (get_interfaces_for_family family_id count) ≡ min count meta.max_interfaces)
      × (is_distinct (get_interfaces_for_family family_id count) ≡ true)
get_interfaces_lem family_id count meta h =
    let n = min count meta.max_interfaces in
    rw (get_interfaces_known family_id count meta h) (
      length-range (interface_name meta.interface_pattern meta.interface_start) 0 n,
      range-is_distinct meta.interface_pattern meta.interface_start 0 n meta.max_interfaces
          (min_le count meta.max_interfaces)
          (All-lookup HasNames (normalize_family family_id) meta router_families families-HasNames
            h),
    )

abbrev IsRoomy : Family → Type 0
IsRoomy meta = 8 ≤ length (pool_of meta)

families-IsRoomy : All (λ e. IsRoomy e.1) router_families
unfolding pool_of
families-IsRoomy = (
  omega arith,
  (
    omega arith,
    (
      omega arith,
      (omega arith, (omega arith, (omega arith, (omega arith, (omega arith, (omega arith, tt)))))),
    ),
  ),
)

linux-IsRoomy : IsRoomy linux_family
unfolding pool_of
linux-IsRoomy = omega arith

-- Every family has eight names at least.
pub pool_roomy : (family : Text) → 8 ≤ length (pool family)
unfolding pool
pool_roomy family =
    lookup-All IsRoomy family linux_family router_families families-IsRoomy linux-IsRoomy
