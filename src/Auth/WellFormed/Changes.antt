-- ===== src/Auth/WellFormed/Changes.antt =====
-- auth.py: proofs on the operations on groups and the well-formed storage.
use clab_manager.Prelude.{
  ◌≡◌, refl, sym, ◌∙◌, true, false, not, ◌||◌, Option, none, some, List, [], ◌∷◌, inl, inr, keep,
  arith, Text, ◌==◌, eq_iff, is_empty, elem, Dict, lookup, erase, has_key, lookup-erase, Bool-cases,
  false≢true,
}
use clab_manager.Auth.Data.{
  User, Group, Storage, ok, Ensures, Ensures-bind, Ensures-raise_if, Ensures-or_raise,
  normalize_group_name, is_group_name, normalize_members, normalize_group,
}
use clab_manager.Auth.Membership.{is_ignored, validate_single_group_membership}
use clab_manager.Auth.Groups.{
  PublicGroup, NewGroup, GroupUpdate, check_known, target_name, target_members, rename,
  create_group, update_group, delete_group,
}
use clab_manager.Auth.Members.{IsNormal, members-IsNormal, elem_of_normalize_members, validate_lem}
use clab_manager.Auth.WellFormed.{IsGrouped, IsJoinable, insert-IsGrouped, erase-IsGrouped}
use clab_manager.Auth.WellFormed.Operations.{IsWellFormed}

pub normalize_group-members :
    (g h : Group) → normalize_group g ≡ some h → h.members ≡ normalize_members g.members
unfolding normalize_group
normalize_group-members g h e = ground arith

known_of_nil :
    (users : Dict User) (ms : List Text)
    → keep (λ m. not (has_key m users)) ms ≡ []
    → (m : Text) → elem m ms ≡ true
    → has_key m users ≡ true
known_of_nil users [] h m i = cc
known_of_nil users (x ∷ xs) h m i = elim (Bool-cases (has_key x users)) [
  | inl k ↦
      let rest = known_of_nil users xs (ground arith) m in
      elim (Bool-cases (x == m)) [ inl e ↦ rw (← (eq_iff x m).0 e) k | inr e ↦ rest (ground arith) ]
  | inr k ↦ absurd (ground arith)
]

-- Where the test passes, every member has an account.
check_known_lem :
    (members : List Text) (users : Dict User) (v : Unit {0})
    → check_known members users ≡ ok v
    → (m : Text) → elem m members ≡ true
    → has_key m users ≡ true
unfolding check_known
check_known_lem members users v h = known_of_nil users members (ground arith)

-- Members that pass both tests can stand in a group of any free name.
module _ (users : Dict User) (groups : Dict Group) (ms : List Text) (g : Group)
    (normal : (m : Text) → elem m ms ≡ true → IsNormal m) (same : g.members ≡ normalize_members ms)
    (v v' : Unit {0}) (known : check_known ms users ≡ ok v) where
  was_given : (m : Text) → elem m g.members ≡ true → elem m ms ≡ true
  was_given m i = elem_of_normalize_members m ms normal (rw same at i)

  IsJoinable-of_valid :
      (ignore : Option Text) (others : Dict Group) (t : Text)
      → validate_single_group_membership ms groups ignore ≡ ok v'
      → ((k : Text) (h : Group)
          → lookup k others ≡ some h
          → (t == k) ≡ false
          → (lookup k groups ≡ some h) × (is_ignored ignore k ≡ false))
      → IsJoinable users others t g
  IsJoinable-of_valid ignore others t valid seen = record {
    known = λ m i. check_known_lem ms users v known m (was_given m i);
    normal = λ m i. normal m (was_given m i);
    apart = λ k m h l ne i.
        let (l', free) = seen k h l ne in
        elim (Bool-cases (elem m g.members)) [
          | inr out ↦ out
          | inl here ↦ absurd (
              false≢true
                (sym (validate_lem ms groups ignore v' valid k h m l' free i) ∙ was_given m here))
        ];
  }

-- Where the storage is well formed, a creation of a group that succeeds leaves it so.
pub create_group-IsWellFormed :
    (r : NewGroup) (now : Text) (s : Storage)
    → IsWellFormed s
    → Ensures (λ out. IsWellFormed out.1) (create_group r now s)
unfolding create_group is_ignored
create_group-IsWellFormed r now s w =
    let n = normalize_group_name r.name in
    let P = λ (out : PublicGroup × Storage). IsWellFormed out.1 in
    let ms = normalize_members r.members in
    Ensures-raise_if P (is_empty n || not (is_group_name n)) _ _ λ _.
      Ensures-raise_if P (has_key n s.groups) _ _ λ new.
        Ensures-bind P (check_known ms s.users) _ λ v known.
          Ensures-bind P (validate_single_group_membership ms s.groups none) _ λ v' valid.
            Ensures-or_raise P (normalize_group _) _ _ λ group made. record {
              users_unique = w.users_unique;
              grouped = insert-IsGrouped s.users s.groups w.grouped n group (
                  IsJoinable-of_valid s.users s.groups ms group (λ m. members-IsNormal m r.members)
                    (normalize_group-members _ group made) v v' known none s.groups n valid
                    λ k h l ne. (l, refl));
            }

target_members-IsNormal :
    (s : Storage) (name : Text) (current : Group) (given : Option (List Text))
    → IsWellFormed s
    → lookup name s.groups ≡ some current
    → (m : Text) → elem m (target_members current given) ≡ true
    → IsNormal m
unfolding target_members
target_members-IsNormal s name current none w l m i = w.grouped.normal name m current l i
target_members-IsNormal s name current (some given) w l m i = members-IsNormal m given i

rename-IsGrouped :
    (users : Dict User) (groups : Dict Group) (name target : Text) (g : Group)
    → IsGrouped users groups
    → ((others : Dict Group)
        → ((k : Text) (h : Group)
            → lookup k others ≡ some h
            → (target == k) ≡ false
            → (lookup k groups ≡ some h) × ((k == name) ≡ false))
        → IsJoinable users others target g)
    → IsGrouped users (rename name target g groups)
unfolding rename
rename-IsGrouped users groups name target g w fits = elim (Bool-cases (target == name)) [
  | inl e ↦ rw e (
      insert-IsGrouped users groups w target g (
        fits groups
          λ k h l ne. (l, ground (arith, eq_iff target name, eq_iff k name, eq_iff target k))))
  | inr e ↦ rw e (
      insert-IsGrouped users (erase name groups) (erase-IsGrouped users groups w name) target g (
        fits (erase name groups) λ k h l ne. (
          ground (arith, lookup-erase name k groups),
          ground (arith, lookup-erase name k groups, eq_iff k name, eq_iff name k),
        )))
]

-- Where the storage is well formed, an update of a group that succeeds leaves it so, also where it
-- renames the group or replaces its members.
pub update_group-IsWellFormed :
    (given : Text) (r : GroupUpdate) (now : Text) (s : Storage)
    → IsWellFormed s
    → Ensures (λ out. IsWellFormed out.1) (update_group given r now s)
unfolding update_group is_ignored
update_group-IsWellFormed given r now s w =
    let n = normalize_group_name given in
    let P = λ (out : PublicGroup × Storage). IsWellFormed out.1 in
    Ensures-or_raise P (lookup n s.groups) _ _ λ current l.
      Ensures-bind P (target_name n r.new_name s.groups) _ λ target _.
        let ms = target_members current r.members in
        Ensures-bind P (check_known ms s.users) _ λ v known.
          Ensures-bind P (validate_single_group_membership ms s.groups (some n)) _ λ v' valid.
            Ensures-or_raise P (normalize_group _) _ _ λ group made. record {
              users_unique = w.users_unique;
              grouped = rename-IsGrouped s.users s.groups n target group w.grouped λ others seen.
                  IsJoinable-of_valid s.users s.groups ms group
                    (target_members-IsNormal s n current r.members w l)
                    (normalize_group-members _ group made) v v' known (some n) others target valid
                    λ k h e ne. let (e', d) = seen k h e ne in (e', ground arith);
            }

-- Where the storage is well formed, a deletion of a group that succeeds leaves it so.
pub delete_group-IsWellFormed :
    (given : Text) (s : Storage)
    → IsWellFormed s
    → Ensures (λ out. IsWellFormed out.1) (delete_group given s)
unfolding delete_group
delete_group-IsWellFormed given s w =
    let n = normalize_group_name given in
    let P = λ (out : (Unit {0}) × Storage). IsWellFormed out.1 in
    Ensures-or_raise P (lookup n s.groups) _ _ λ removed _. record {
      users_unique = w.users_unique;
      grouped = erase-IsGrouped s.users s.groups w.grouped n;
    }

-- No operation on groups changes the accounts.
pub create_group-users :
    (r : NewGroup) (now : Text) (s : Storage)
    → Ensures (λ out. out.1.users ≡ s.users) (create_group r now s)
unfolding create_group
create_group-users r now s =
    let n = normalize_group_name r.name in
    let P = λ (out : PublicGroup × Storage). out.1.users ≡ s.users in
    let ms = normalize_members r.members in
    Ensures-raise_if P (is_empty n || not (is_group_name n)) _ _ λ _.
      Ensures-raise_if P (has_key n s.groups) _ _ λ new.
        Ensures-bind P (check_known ms s.users) _ λ v known.
          Ensures-bind P (validate_single_group_membership ms s.groups none) _
            λ v' valid. Ensures-or_raise P (normalize_group _) _ _ λ group made. refl

pub update_group-users :
    (given : Text) (r : GroupUpdate) (now : Text) (s : Storage)
    → Ensures (λ out. out.1.users ≡ s.users) (update_group given r now s)
unfolding update_group
update_group-users given r now s =
    let n = normalize_group_name given in
    let P = λ (out : PublicGroup × Storage). out.1.users ≡ s.users in
    Ensures-or_raise P (lookup n s.groups) _ _ λ current l.
      Ensures-bind P (target_name n r.new_name s.groups) _ λ target _.
        let ms = target_members current r.members in
        Ensures-bind P (check_known ms s.users) _ λ v known.
          Ensures-bind P (validate_single_group_membership ms s.groups (some n)) _
            λ v' valid. Ensures-or_raise P (normalize_group _) _ _ λ group made. refl

pub delete_group-users :
    (given : Text) (s : Storage) → Ensures (λ out. out.1.users ≡ s.users) (delete_group given s)
unfolding delete_group
delete_group-users given s =
    Ensures-or_raise (λ (out : (Unit {0}) × Storage). out.1.users ≡ s.users)
      (lookup (normalize_group_name given) s.groups) _ _ λ removed _. refl
