-- ===== src/Auth/WellFormed/Operations.antt =====
-- auth.py: proofs on the operations on accounts and the well-formed storage.
use clab_manager.Prelude.{
  ◌≡◌, sym, ◌∙◌, true, false, not, ◌&&◌, ◌||◌, Option, none, some, List, [], ◌∷◌, ◌++◌, inl, inr,
  ◌⊎◌, length, ltb, leb, arith, if◌then◌else◌, Text, ◌==◌, eq_iff, eq_refl, strip, lower, is_empty,
  elem, Dict, lookup, insert, erase, has_key, HasUniqueKeys, lookup-insert, lookup-erase,
  insert-HasUniqueKeys, erase-HasUniqueKeys, Bool-cases, false≢true,
}
use clab_manager.Auth.Data.{
  User, Group, Storage, ok, Ensures, Ensures-bind, Ensures-raise_if, Ensures-or_raise, Ensures-of,
  parse_role, normalize_role, is_admin, active_admin_count, normalize_username,
  normalize_group_name, clean_all, sorted_set,
}
use clab_manager.Auth.Membership.{
  is_ignored, validate_single_group_membership, assign_user_to_group, remove_user_from_groups,
  set_user_group_membership,
}
use clab_manager.Auth.Users.{
  PublicUser, NewUser, UserUpdate, new_user, is_bad_email, assign_if_given, create_user, check_self,
  update_name, update_email, update_role, update_active, update_user, delete_user,
}
use clab_manager.Auth.Members.{
  IsNormal, normalize-IsNormal, elem-append, elem-sorted_set, elem_of_clean_all, validate_lem,
}
use clab_manager.Auth.WellFormed.{
  IsGrouped, IsJoinable, insert-IsGrouped, users-IsGrouped, elem_of_removed, remove_user-IsGrouped,
}

-- No account is stored twice, and the groups are well formed.
pub record IsWellFormed (s : Storage) : Type 0 where
  pub users_unique : HasUniqueKeys s.users
  pub grouped : IsGrouped s.users s.groups

not_ignored : (t k : Text) → (t == k) ≡ false → is_ignored (some t) k ≡ false
unfolding is_ignored
not_ignored t k h = ground (arith, eq_iff k t, eq_iff t k)

-- The members that the assignment writes: the old ones, and the user.
joined :
    (m u : Text) (ms : List Text)
    → ((x : Text) → elem x ms ≡ true → IsNormal x)
    → elem m (sorted_set (clean_all normalize_username ms ++ u ∷ [])) ≡ true
    → (elem m ms ≡ true) ⊎ (u ≡ m)
joined m u ms normal h =
    let all = clean_all normalize_username ms in
    let either : (elem m all || (u == m || false)) ≡ true =
      sym (elem-append m all (u ∷ [])) ∙ (sym (elem-sorted_set m (all ++ u ∷ [])) ∙ h) in
    elim (Bool-cases (elem m all)) [
      | inl old ↦
          let (x, i, p) = elem_of_clean_all normalize_username m ms old in
          inl (rw (← (sym (normal x i) ∙ p)) i)
      | inr new ↦ inr ((eq_iff u m).0 (ground arith))
    ]

module _ (users : Dict User) (groups : Dict Group) (w : IsGrouped users groups) (u : Text)
    (account : has_key u users ≡ true) (normal : IsNormal u) where
  joinable :
      (t : Text) (target : Group) (v : Unit {0})
      → lookup t groups ≡ some target
      → validate_single_group_membership (u ∷ []) groups (some t) ≡ ok v
      → IsJoinable users groups t (record target {
        members = sorted_set (clean_all normalize_username target.members ++ u ∷ []);
      })
  joinable t target v l valid = record {
    known = λ m i. elim (joined m u target.members (λ x. w.normal t x target l) i) [
      | inl old ↦ w.known t m target l old
      | inr e ↦ rw (← e) account
    ];
    normal = λ m i. elim (joined m u target.members (λ x. w.normal t x target l) i) [
      | inl old ↦ w.normal t m target l old
      | inr e ↦ rw (← e) normal
    ];
    apart = λ k m h l' ne i.
        let members = sorted_set (clean_all normalize_username target.members ++ u ∷ []) in
        elim (Bool-cases (elem m members)) [
          | inr out ↦ out
          | inl here ↦ elim (joined m u target.members (λ x. w.normal t x target l) here) [
            | inl old ↦
                absurd (false≢true (sym ne ∙ (eq_iff t k).1 (w.single t k m target h l l' old i)))
            | inr e ↦
                let clear =
                  validate_lem (u ∷ []) groups (some t) v valid k h m l' (not_ignored t k ne) i in
                absurd (ground (arith, eq_iff u m))
          ]
        ];
  }

  assign-IsGrouped :
      (group_name : Text) → Ensures (IsGrouped users) (assign_user_to_group u group_name groups)
  unfolding assign_user_to_group
  assign-IsGrouped group_name =
      let name = normalize_group_name group_name in
      elim (Bool-cases (is_empty name)) [
        | inl e ↦ rw e w
        | inr e ↦ rw e (
            Ensures-or_raise (IsGrouped users) (lookup name groups) _ _ λ target l.
              Ensures-bind (IsGrouped users)
                (validate_single_group_membership (u ∷ []) groups (some name)) _
                λ v valid.
                  insert-IsGrouped users groups w name
                    (record target {
                      members = sorted_set (clean_all normalize_username target.members ++ u ∷ []);
                    })
                    (joinable name target v l valid))
      ]

  assign_if_given-IsGrouped :
      (group_name : Option Text) → Ensures (IsGrouped users) (assign_if_given u group_name groups)
  unfolding assign_if_given
  assign_if_given-IsGrouped none = w
  assign_if_given-IsGrouped (some group_name) = assign-IsGrouped group_name

set_membership-IsGrouped :
    (users : Dict User) (groups : Dict Group) (u : Text) (group_name : Option Text)
    → IsGrouped users groups
    → has_key u users ≡ true
    → IsNormal u
    → Ensures (IsGrouped users) (set_user_group_membership u group_name groups)
unfolding set_user_group_membership
set_membership-IsGrouped users groups u none w account normal =
    remove_user-IsGrouped users groups u w
set_membership-IsGrouped users groups u (some group_name) w account normal =
    let left = remove_user_from_groups u groups in
    let w' = remove_user-IsGrouped users groups u w in
    elim (Bool-cases (is_empty (strip group_name))) [
      | inl e ↦ rw e w'
      | inr e ↦ rw e (assign-IsGrouped users left w' u account normal (strip group_name))
    ]

has_key-insert_self :
    (k : Text) (u : User) (users : Dict User) → has_key k (insert k u users) ≡ true
has_key-insert_self k u users = ground (arith, lookup-insert k k u users, eq_refl k)

pub has_key-insert :
    (k m : Text) (u : User) (users : Dict User)
    → has_key m users ≡ true
    → has_key m (insert k u users) ≡ true
has_key-insert k m u users h = ground (arith, lookup-insert k m u users)

-- Where the storage is well formed, a creation of an account that succeeds, in a group or in none,
-- leaves it so.
pub create_user-IsWellFormed :
    (hash_password : Text → Text) (r : NewUser) (now : Text) (s : Storage)
    → IsWellFormed s
    → Ensures (λ out. IsWellFormed out.1) (create_user hash_password r now s)
unfolding create_user
create_user-IsWellFormed hash_password r now s w =
    let n = normalize_username r.username in
    let P = λ (out : PublicUser × Storage). IsWellFormed out.1 in
    Ensures-raise_if P (is_empty n) _ _ λ _.
      Ensures-raise_if P (is_empty (strip r.full_name)) _ _ λ _.
        Ensures-raise_if P (is_bad_email (lower (strip r.email))) _ _ λ _.
          Ensures-or_raise P (parse_role (normalize_role r.role)) _ _ λ role _.
            Ensures-raise_if P (ltb (length r.password) 10) _ _ λ _.
              Ensures-raise_if P (has_key n s.users) _ _ λ new.
                let u = new_user r role now (hash_password r.password) in
                let users' = insert n u s.users in
                let grown =
                  users-IsGrouped s.users s.groups w.grouped users'
                    (λ m. has_key-insert n m u s.users) in
                Ensures-bind P (assign_if_given n r.group_name s.groups) _ λ groups e. record {
                  users_unique = insert-HasUniqueKeys n u s.users w.users_unique;
                  grouped =
                      Ensures-of (IsGrouped users') (assign_if_given n r.group_name s.groups) groups
                        e
                        (assign_if_given-IsGrouped users' s.groups grown n
                          (has_key-insert_self n u s.users) (normalize-IsNormal r.username)
                          r.group_name);
                }

regroup-IsGrouped :
    (users : Dict User) (groups groups' : Dict Group) (u : Text) (r : UserUpdate)
    → IsGrouped users groups
    → has_key u users ≡ true
    → IsNormal u
    → (if r.set_group_name then set_user_group_membership u r.group_name groups else ok groups)
      ≡ ok groups'
    → IsGrouped users groups'
regroup-IsGrouped users groups groups' u r w account normal e = elim (Bool-cases r.set_group_name) [
  | inl set ↦
      Ensures-of (IsGrouped users) (set_user_group_membership u r.group_name groups) groups'
        (ground arith) (set_membership-IsGrouped users groups u r.group_name w account normal)
  | inr stay ↦ Ensures-of (IsGrouped users) (ok groups) groups' (ground arith) w
]

-- Where the storage is well formed (no account twice, members are known accounts under their normal
-- names, nobody in two groups), an update that succeeds leaves it so, also where it moves the
-- account between groups.
pub update_user-IsWellFormed :
    (username : Text) (r : UserUpdate) (s : Storage)
    → IsWellFormed s
    → Ensures (λ out. IsWellFormed out.1) (update_user username r s)
unfolding update_user
update_user-IsWellFormed username r s w =
    let n = normalize_username username in
    let P = λ (out : PublicUser × Storage). IsWellFormed out.1 in
    Ensures-or_raise P (lookup n s.users) _ _ λ found known.
      Ensures-bind P (check_self n (normalize_username r.actor_username) r.role r.active) _ λ _ _.
        Ensures-bind P (update_name r.full_name found) _ λ named _.
          Ensures-bind P (update_email r.email named) _ λ mailed _.
            Ensures-bind P (update_role r.role (insert n mailed s.users) mailed) _ λ promoted _.
              Ensures-bind P (update_active r.active (insert n promoted s.users) promoted) _
                λ changed _.
                  let users' = insert n changed s.users in
                  let grown =
                    users-IsGrouped s.users s.groups w.grouped users'
                      (λ m. has_key-insert n m changed s.users) in
                  Ensures-bind P
                    (if r.set_group_name
                      then set_user_group_membership n r.group_name s.groups
                      else ok s.groups)
                    _
                    λ groups e. record {
                      users_unique = insert-HasUniqueKeys n changed s.users w.users_unique;
                      grouped =
                          regroup-IsGrouped users' s.groups groups n r grown
                            (has_key-insert_self n changed s.users) (normalize-IsNormal username) e;
                    }

erased-IsGrouped :
    (users : Dict User) (groups : Dict Group) (n : Text)
    → IsGrouped users groups
    → IsGrouped (erase n users) (remove_user_from_groups n groups)
erased-IsGrouped users groups n w =
    let w' = remove_user-IsGrouped users groups n w in
    record {
      unique = w'.unique;
      known = λ k m h l i.
          let (g, l', i', ne) = elem_of_removed n k m groups h l i in
          ground (arith, w.known k m g l' i', lookup-erase n m users, eq_iff n m, eq_iff m n);
      normal = w'.normal;
      single = w'.single;
    }

-- Where the storage is well formed, a deletion of an account that succeeds leaves it so: the
-- account is in no group any more.
pub delete_user-IsWellFormed :
    (username actor_username : Text) (s : Storage)
    → IsWellFormed s
    → Ensures (λ out. IsWellFormed out.1) (delete_user username actor_username s)
unfolding delete_user
delete_user-IsWellFormed username actor_username s w =
    let n = normalize_username username in
    let P = λ (out : (Unit {0}) × Storage). IsWellFormed out.1 in
    Ensures-or_raise P (lookup n s.users) _ _ λ found known.
      Ensures-raise_if P
        (not (is_empty (normalize_username actor_username))
          && n == normalize_username actor_username)
        _ _
        λ _.
          Ensures-raise_if P
            (is_admin found.role && (found.active && leb (active_admin_count s.users) 1)) _ _
            λ _. record {
              users_unique = erase-HasUniqueKeys n s.users w.users_unique;
              grouped = erased-IsGrouped s.users s.groups n w.grouped;
            }
