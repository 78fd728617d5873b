-- ===== src/Auth/WellFormed.antt =====
-- auth.py: the invariant of the stored groups, and its lemmas on `_remove_user_from_groups`.
pub mod Operations
pub mod Changes
pub mod Passwords
use clab_manager.Prelude.{
  ℕ, ◌≡◌, ◌≢◌, refl, ap, sym, ◌∙◌, Bool, true, false, not, ◌&&◌, ◌||◌, Option, none, some, List, [],
  ◌∷◌, ◌++◌, inl, inr, ◌⊎◌, keep, length, ltb, leb, arith, if◌then◌else◌, Text, ◌==◌, eq_iff,
  eq_refl, strip, lower, is_empty, elem, Dict, lookup, insert, erase, has_key, values,
  HasUniqueKeys, lookup-insert, lookup-erase, insert-HasUniqueKeys, erase-HasUniqueKeys, Bool-cases,
  Option-cases,
}
use clab_manager.Auth.Data.{
  User, Group, Storage, Result, ok, err, ◌>>=◌, ◌>>◌, raise_if, or_raise, Ensures, Ensures-bind,
  Ensures-raise_if, Ensures-or_raise, normalize_username, normalize_members, clean_all, sorted_set,
}
use clab_manager.Auth.Membership.{
  is_ignored, validate_single_group_membership, assign_user_to_group, remove_user_from_groups,
  set_user_group_membership,
}
use clab_manager.Auth.Members.{
  IsNormal, elem-append, elem-sorted_set, elem_of_clean_all, validate_lem,
}

pub record IsGrouped (users : Dict User) (groups : Dict Group) : Type 0 where
  pub unique : HasUniqueKeys groups
  pub known :
      (k m : Text) (g : Group)
      → lookup k groups ≡ some g
      → elem m g.members ≡ true
      → has_key m users ≡ true
  pub normal :
      (k m : Text) (g : Group) → lookup k groups ≡ some g → elem m g.members ≡ true → IsNormal m
  pub single :
      (j k m : Text) (g h : Group)
      → lookup j groups ≡ some g
      → lookup k groups ≡ some h
      → elem m g.members ≡ true
      → elem m h.members ≡ true
      → j ≡ k

-- What a group has to satisfy to stand under the name `t`.
pub record IsJoinable (users : Dict User) (groups : Dict Group) (t : Text) (g : Group)
    : Type 0 where
  pub known : (m : Text) → elem m g.members ≡ true → has_key m users ≡ true
  pub normal : (m : Text) → elem m g.members ≡ true → IsNormal m
  pub apart :
      (k m : Text) (h : Group)
      → lookup k groups ≡ some h
      → (t == k) ≡ false
      → elem m h.members ≡ true
      → elem m g.members ≡ false

module _ (users : Dict User) (groups : Dict Group) (w : IsGrouped users groups) where
  pub insert-IsGrouped :
      (t : Text) (g : Group) → IsJoinable users groups t g → IsGrouped users (insert t g groups)
  insert-IsGrouped t g j = record {
    unique = insert-HasUniqueKeys t g groups w.unique;
    known = λ k m h l i. ground (arith, lookup-insert t k g groups, w.known k m h, j.known m);
    normal = λ k m h l i. elim (Bool-cases (t == k)) [
      | inl e ↦ j.normal m (ground (arith, lookup-insert t k g groups))
      | inr e ↦ w.normal k m h (ground (arith, lookup-insert t k g groups)) i
    ];
    single = λ a b m h h' l l' i i'. ground (
      arith,
      lookup-insert t a g groups,
      lookup-insert t b g groups,
      w.single a b m h h',
      j.apart a m h,
      j.apart b m h',
      eq_iff t a,
      eq_iff t b,
    );
  }

  pub erase-IsGrouped : (t : Text) → IsGrouped users (erase t groups)
  erase-IsGrouped t = record {
    unique = erase-HasUniqueKeys t groups w.unique;
    known = λ k m h l i. ground (arith, lookup-erase t k groups, w.known k m h);
    normal = λ k m h l i. w.normal k m h (ground (arith, lookup-erase t k groups)) i;
    single = λ a b m h h' l l' i i'.
        ground (arith, lookup-erase t a groups, lookup-erase t b groups, w.single a b m h h');
  }

  -- More accounts do no harm.
  pub users-IsGrouped :
      (users' : Dict User)
      → ((m : Text) → has_key m users ≡ true → has_key m users' ≡ true)
      → IsGrouped users' groups
  users-IsGrouped users' more = record {
    unique = w.unique;
    known = λ k m h l i. more m (w.known k m h l i);
    normal = w.normal;
    single = w.single;
  }

without : Text → Group → Group
without n g = record g { members = keep (λ m. not (m == n)) g.members }

lookup-remove_user :
    (n k : Text) (groups : Dict Group) (h : Group)
    → lookup k (remove_user_from_groups n groups) ≡ some h
    → (g : Group) × (lookup k groups ≡ some g) × (h ≡ without n g)
unfolding remove_user_from_groups without
lookup-remove_user n k [] h e = absurd (ground arith)
lookup-remove_user n k ((j, g) ∷ groups) h e = elim (Bool-cases (j == k)) [
  | inl s ↦ (g, ground arith, ground arith)
  | inr d ↦ let (g', l, p) = lookup-remove_user n k groups h (ground arith) in (g', ground arith, p)
]

lookup-remove_user_none :
    (n k : Text) (groups : Dict Group)
    → lookup k groups ≡ none
    → lookup k (remove_user_from_groups n groups) ≡ none
unfolding remove_user_from_groups
lookup-remove_user_none n k [] e = refl
lookup-remove_user_none n k ((j, g) ∷ groups) e = ground (arith, lookup-remove_user_none n k groups)

remove_user-HasUniqueKeys :
    (n : Text) (groups : Dict Group)
    → HasUniqueKeys groups
    → HasUniqueKeys (remove_user_from_groups n groups)
unfolding remove_user_from_groups
remove_user-HasUniqueKeys n [] h = tt
remove_user-HasUniqueKeys n ((j, g) ∷ groups) h =
    (lookup-remove_user_none n j groups h.0, remove_user-HasUniqueKeys n groups h.1)

elem-keep_ne :
    (n m : Text) (ms : List Text)
    → elem m (keep (λ x. not (x == n)) ms) ≡ true
    → (elem m ms ≡ true) × ((m == n) ≡ false)
elem-keep_ne n m [] h = cc
elem-keep_ne n m (x ∷ xs) h =
    ground (arith, elem-keep_ne n m xs, eq_iff x m, eq_iff x n, eq_iff m n)

-- After the removal nobody else has moved, and the user is in no group.
pub elem_of_removed :
    (n k m : Text) (groups : Dict Group) (h : Group)
    → lookup k (remove_user_from_groups n groups) ≡ some h
    → elem m h.members ≡ true
    → (g : Group) × (lookup k groups ≡ some g) × (elem m g.members ≡ true) × ((m == n) ≡ false)
unfolding without
elem_of_removed n k m groups h l i =
    let (g, l', p) = lookup-remove_user n k groups h l in
    let (i', ne) = elem-keep_ne n m g.members (rw p at i) in (g, l', i', ne)

pub remove_user-IsGrouped :
    (users : Dict User) (groups : Dict Group) (n : Text)
    → IsGrouped users groups
    → IsGrouped users (remove_user_from_groups n groups)
remove_user-IsGrouped users groups n w = record {
  unique = remove_user-HasUniqueKeys n groups w.unique;
  known =
      λ k m h l i. let (g, l', i', _) = elem_of_removed n k m groups h l i in w.known k m g l' i';
  normal =
      λ k m h l i. let (g, l', i', _) = elem_of_removed n k m groups h l i in w.normal k m g l' i';
  single = λ a b m h h' l l' i i'.
      let (g, k, e, _) = elem_of_removed n a m groups h l i in
      let (g', k', e', _) = elem_of_removed n b m groups h' l' i' in w.single a b m g g' k k' e e';
}
