-- ===== src/Auth/Members.antt =====
-- auth.py: lemmas on the normalised members and on `_validate_single_group_membership`.
use clab_manager.Prelude.{
  ◌≡◌, ◌≢◌, refl, ap, sym, ◌∙◌, Bool, true, false, ◌||◌, Option, some, List, [], ◌∷◌, ◌++◌, inl,
  inr, arith, if◌then◌else◌, Text, ◌==◌, eq_iff, eq_refl, is_empty, elem, Dict, lookup, insert,
  sorted, sorted_insert, Bool-cases, lower-strip_idem,
}
use clab_manager.Auth.Data.{
  Group, ok, distinct, sorted_set, clean_all, normalize_username, normalize_members, text_le,
}
use clab_manager.Auth.Membership.{
  note_members, is_ignored, already_assigned, validate_single_group_membership,
}

pub elem-append : (m : Text) (xs ys : List Text) → elem m (xs ++ ys) ≡ (elem m xs || elem m ys)
elem-append m [] ys = refl
elem-append m (x ∷ xs) ys = ground (arith, elem-append m xs ys)

elem-sorted_insert :
    (le : Text → Text → Bool) (m x : Text) (xs : List Text)
    → elem m (sorted_insert le x xs) ≡ elem m (x ∷ xs)
unfolding sorted_insert
elem-sorted_insert le m x [] = refl
elem-sorted_insert le m x (y ∷ ys) = ground (arith, elem-sorted_insert le m x ys)

elem-sorted :
    (le : Text → Text → Bool) (m : Text) (xs : List Text) → elem m (sorted le xs) ≡ elem m xs
unfolding sorted
elem-sorted le m [] = refl
elem-sorted le m (x ∷ xs) =
    ground (arith, elem-sorted_insert le m x (sorted le xs), elem-sorted le m xs)

elem-distinct : (m : Text) (xs : List Text) → elem m (distinct xs) ≡ elem m xs
unfolding distinct
elem-distinct m [] = refl
elem-distinct m (x ∷ xs) = ground (arith, elem-distinct m xs, elem-distinct x xs, eq_iff x m)

pub elem-sorted_set : (m : Text) (xs : List Text) → elem m (sorted_set xs) ≡ elem m xs
unfolding sorted_set
elem-sorted_set m xs = elem-sorted text_le m (distinct xs) ∙ elem-distinct m xs

pub elem_of_clean_all :
    (f : Text → Text) (m : Text) (xs : List Text)
    → elem m (clean_all f xs) ≡ true
    → (x : Text) × (elem x xs ≡ true) × (f x ≡ m)
unfolding clean_all
elem_of_clean_all f m [] h = cc
elem_of_clean_all f m (x ∷ xs) h = elim (Bool-cases (is_empty (f x))) [
  | inl e ↦ let (y, i, p) = elem_of_clean_all f m xs (ground arith) in (y, ground arith, p)
  | inr e ↦ elim (Bool-cases (f x == m)) [
    | inl same ↦ (x, ground (arith, eq_refl x), (eq_iff (f x) m).0 same)
    | inr other ↦ let (y, i, p) = elem_of_clean_all f m xs (ground arith) in (y, ground arith, p)
  ]
]

-- A username that is in its normal form.
abbrev pub IsNormal : Text → Type 0
IsNormal m = normalize_username m ≡ m

pub normalize-IsNormal : (m : Text) → IsNormal (normalize_username m)
unfolding normalize_username
normalize-IsNormal m = lower-strip_idem m

pub members-IsNormal :
    (m : Text) (xs : List Text) → elem m (normalize_members xs) ≡ true → IsNormal m
unfolding normalize_members
members-IsNormal m xs h =
    let (x, i, p) = elem_of_clean_all normalize_username m xs (sym (elem-sorted_set m _) ∙ h) in
    ap normalize_username (sym p) ∙ normalize-IsNormal x ∙ p

-- Normalising names that are in their normal form adds no name.
pub elem_of_normalize_members :
    (m : Text) (xs : List Text)
    → ((x : Text) → elem x xs ≡ true → IsNormal x)
    → elem m (normalize_members xs) ≡ true
    → elem m xs ≡ true
unfolding normalize_members
elem_of_normalize_members m xs normal h =
    let (x, i, p) = elem_of_clean_all normalize_username m xs (sym (elem-sorted_set m _) ∙ h) in
    rw (← (sym (normal x i) ∙ p)) i

insert_ne : {V : Type 0} (k : Text) (v : V) (d : Dict V) → insert k v d ≢ []
insert_ne k v [] e = cc
insert_ne k v ((j, w) ∷ d) e = ground arith

note_members_nil :
    (name : Text) (members ms : List Text) (found : Dict Text)
    → note_members name members ms found ≡ []
    → (found ≡ []) × ((m : Text) → elem m ms ≡ true → elem m members ≡ false)
unfolding note_members
note_members_nil name members [] found h = (h, λ m i. cc)
note_members_nil name members (x ∷ xs) found h =
    let (rest, each) =
      note_members_nil name members xs (if elem x members then insert x name found else found) h in
    elim (Bool-cases (elem x members)) [
      | inl e ↦ absurd (insert_ne x name found (rw e at rest))
      | inr e ↦ (rw e at rest, λ m i. ground (arith, each m, eq_iff x m))
    ]

already_assigned_nil :
    (members : List Text) (ignore : Option Text) (groups : Dict Group) (found : Dict Text)
    → already_assigned members ignore groups found ≡ []
    → (found ≡ [])
      × ((name : Text) (g : Group) (m : Text)
          → lookup name groups ≡ some g
          → is_ignored ignore name ≡ false
          → elem m g.members ≡ true
          → elem m members ≡ false)
unfolding already_assigned
already_assigned_nil members ignore [] found h = (h, λ name g m l i e. cc)
already_assigned_nil members ignore ((k, g) ∷ groups) found h =
    let (rest, each) =
      already_assigned_nil members ignore groups
        (if is_ignored ignore k then found else note_members k members g.members found) h in
    elim (Bool-cases (is_ignored ignore k)) [
      | inl e ↦ (rw e at rest, λ name g' m l i j. ground (arith, each name g' m, eq_iff k name))
      | inr e ↦
          let (first, mine) = note_members_nil k members g.members found (rw e at rest) in
          (first, λ name g' m l i j. ground (arith, each name g' m, mine m, eq_iff k name))
    ]

-- Where the test passes, no member stands in a group that is not ignored.
pub validate_lem :
    (members : List Text) (groups : Dict Group) (ignore : Option Text) (u : Unit {0})
    → validate_single_group_membership members groups ignore ≡ ok u
    → (name : Text) (g : Group) (m : Text) → lookup name groups ≡ some g
    → is_ignored ignore name ≡ false
    → elem m g.members ≡ true
    → elem m members ≡ false
unfolding validate_single_group_membership
validate_lem members groups ignore u h =
    (already_assigned_nil members ignore groups [] (ground arith)).1
