-- ===== src/Auth/Admins.antt =====
-- auth.py: proofs on the count of active administrators.
use clab_manager.Prelude.{
  ℕ, ◌+◌, ◌≤◌, ◌≡◌, ◌∙◌, Bool, true, false, not, ◌&&◌, Option, none, some, inl, inr, length, arith,
  leb, ltb, if◌then◌else◌, Text, ◌==◌, lower, strip, is_empty, Dict, lookup, insert, erase, has_key,
  HasUniqueKeys, lookup-insert_self, insert-insert, tally-insert, tally-insert_new, tally-erase,
  Option-cases,
}
use clab_manager.Auth.Data.{
  User, Storage, ok, Ensures, Ensures-bind, Ensures-raise_if, Ensures-or_raise, Ensures-of,
  normalize_role, is_admin, is_active_admin, active_admin_count, normalize_username, parse_role,
}
use clab_manager.Auth.Membership.{set_user_group_membership}
use clab_manager.Auth.Users.{
  PublicUser, NewUser, UserUpdate, new_user, assign_if_given, is_bad_email, create_user,
  set_password, reset_user_password, change_password, check_self, update_name, update_email,
  update_role, update_active, update_user, delete_user,
}

-- Some account is an active administrator.
abbrev pub HasAdmin : Storage → Type 0
HasAdmin s = 1 ≤ active_admin_count s.users

abbrev weight : User → ℕ
weight u = if is_active_admin u then 1 else 0

count-insert :
    (k : Text) (u v : User) (users : Dict User)
    → lookup k users ≡ some u
    → active_admin_count (insert k v users) + weight u ≡ active_admin_count users + weight v
unfolding active_admin_count
count-insert k u v users h = tally-insert is_active_admin k u v users h

-- The record under `k` changes from `u` to `v`, which is no less an administrator.
keeps_weight :
    (k : Text) (u v : User) (users : Dict User)
    → lookup k users ≡ some u
    → weight u ≤ weight v
    → 1 ≤ active_admin_count users
    → 1 ≤ active_admin_count (insert k v users)
keeps_weight k u v users h le one = omega (arith, count-insert k u v users h)

update_role_lem :
    (k : Text) (name : Option Text) (users : Dict User) (u v : User)
    → lookup k users ≡ some u
    → update_role name users u ≡ ok v
    → 1 ≤ active_admin_count users
    → 1 ≤ active_admin_count (insert k v users)
unfolding update_role is_active_admin
update_role_lem k none users u v h e one = keeps_weight k u v users h (ground arith) one
update_role_lem k (some name) users u v h e one =
    elim (Option-cases (parse_role (lower (strip name)))) [
      | inl e' ↦ absurd (ground arith)
      | inr (role, e') ↦ ground (arith, count-insert k u v users h)
    ]

update_active_lem :
    (k : Text) (active : Option Bool) (users : Dict User) (u v : User)
    → lookup k users ≡ some u
    → update_active active users u ≡ ok v
    → 1 ≤ active_admin_count users
    → 1 ≤ active_admin_count (insert k v users)
unfolding update_active is_active_admin
update_active_lem k none users u v h e one = keeps_weight k u v users h (ground arith) one
update_active_lem k (some active) users u v h e one = ground (arith, count-insert k u v users h)

update_name-weight :
    (name : Option Text) (u v : User) → update_name name u ≡ ok v → weight v ≡ weight u
unfolding update_name is_active_admin
update_name-weight name u v h = ground arith

update_email-weight :
    (email : Option Text) (u v : User) → update_email email u ≡ ok v → weight v ≡ weight u
unfolding update_email is_active_admin
update_email-weight email u v h = ground arith

-- Where some account is an active administrator, it is so after an update of any account that
-- succeeds.
pub update_user-HasAdmin :
    (username : Text) (r : UserUpdate) (s : Storage)
    → HasAdmin s
    → Ensures (λ out. HasAdmin out.1) (update_user username r s)
unfolding update_user
update_user-HasAdmin username r s one =
    let n = normalize_username username in
    let P = λ (out : PublicUser × Storage). HasAdmin out.1 in
    Ensures-or_raise P (lookup n s.users) _ _ λ found known.
      Ensures-bind P (check_self n (normalize_username r.actor_username) r.role r.active) _
        λ _ self. Ensures-bind P (update_name r.full_name found) _ λ named e₁.
          Ensures-bind P (update_email r.email named) _ λ mailed e₂.
            let same : weight mailed ≡ weight found =
              update_email-weight r.email named mailed e₂
              ∙ update_name-weight r.full_name found named e₁ in
            let one₁ = keeps_weight n found mailed s.users known (omega arith) one in
            Ensures-bind P (update_role r.role (insert n mailed s.users) mailed) _ λ promoted e₃.
              let one₂ : 1 ≤ active_admin_count (insert n promoted s.users) = rw insert-insert at (
                update_role_lem n r.role (insert n mailed s.users) mailed promoted
                  (lookup-insert_self n mailed s.users) e₃ one₁) in
              Ensures-bind P (update_active r.active (insert n promoted s.users) promoted) _
                λ changed e₄.
                  let one₃ : 1 ≤ active_admin_count (insert n changed s.users) =
                    rw insert-insert at (
                      update_active_lem n r.active (insert n promoted s.users) promoted changed
                        (lookup-insert_self n promoted s.users) e₄ one₂) in
                  Ensures-bind P
                    (if r.set_group_name
                      then set_user_group_membership n r.group_name s.groups
                      else ok s.groups)
                    _ λ groups e₅. one₃

insert_new-HasAdmin :
    (n : Text) (u : User) (users : Dict User)
    → has_key n users ≡ false
    → 1 ≤ active_admin_count users
    → 1 ≤ active_admin_count (insert n u users)
unfolding active_admin_count
insert_new-HasAdmin n u users new one =
    omega (arith, tally-insert_new is_active_admin n u users (ground arith))

-- Where some account is an active administrator, it is so after a creation of an account that
-- succeeds.
pub create_user-HasAdmin :
    (hash_password : Text → Text) (r : NewUser) (now : Text) (s : Storage)
    → HasAdmin s
    → Ensures (λ out. HasAdmin out.1) (create_user hash_password r now s)
unfolding create_user
create_user-HasAdmin hash_password r now s one =
    let n = normalize_username r.username in
    let P = λ (out : PublicUser × Storage). HasAdmin out.1 in
    Ensures-raise_if P (is_empty n) _ _ λ _.
      Ensures-raise_if P (is_empty (strip r.full_name)) _ _ λ _.
        Ensures-raise_if P (is_bad_email (lower (strip r.email))) _ _ λ _.
          Ensures-or_raise P (parse_role (normalize_role r.role)) _ _ λ role _.
            Ensures-raise_if P (ltb (length r.password) 10) _ _ λ _.
              Ensures-raise_if P (has_key n s.users) _ _ λ new.
                let kept : 1
                    ≤ active_admin_count
                        (insert n (new_user r role now (hash_password r.password)) s.users) =
                  insert_new-HasAdmin n (new_user r role now (hash_password r.password)) s.users new
                    one in
                Ensures-bind P (assign_if_given n r.group_name s.groups) _ λ groups _. kept

set_password-HasAdmin :
    (hash_password : Text → Text) (must_change : Bool) (username new_password : Text) (s : Storage)
    → HasAdmin s
    → Ensures
        (λ out. HasAdmin out.1)
        (set_password hash_password must_change username new_password s)
unfolding set_password
set_password-HasAdmin hash_password must_change username new_password s one =
    let n = normalize_username username in
    let P = λ (out : User × Storage). HasAdmin out.1 in
    Ensures-raise_if P (ltb (length new_password) 10) _ _ λ _.
      Ensures-or_raise P (lookup n s.users) _ _ λ found known.
        keeps_weight n found
          (record found {
            password_hash = hash_password new_password;
            must_change_password = must_change;
          })
          s.users known (unfold is_active_admin in omega arith) one

-- A reset of a password takes no administrator away.
pub reset_user_password-HasAdmin :
    (hash_password : Text → Text) (username new_password : Text) (s : Storage)
    → HasAdmin s
    → Ensures (λ out. HasAdmin out.1) (reset_user_password hash_password username new_password s)
unfolding reset_user_password
reset_user_password-HasAdmin hash_password username new_password s one =
    Ensures-bind (λ (out : PublicUser × Storage). HasAdmin out.1)
      (set_password hash_password true username new_password s) _
      λ (changed, s') e.
        Ensures-of (λ (out : User × Storage). HasAdmin out.1)
          (set_password hash_password true username new_password s) (changed, s') e
          (set_password-HasAdmin hash_password true username new_password s one)

-- Nor does a change of the own password.
pub change_password-HasAdmin :
    (hash_password : Text → Text) (username new_password : Text) (s : Storage)
    → HasAdmin s
    → Ensures (λ out. HasAdmin out.1) (change_password hash_password username new_password s)
unfolding change_password
change_password-HasAdmin hash_password username new_password s one =
    Ensures-bind (λ (out : (Unit {0}) × Storage). HasAdmin out.1)
      (set_password hash_password false username new_password s) _
      λ (changed, s') e.
        Ensures-of (λ (out : User × Storage). HasAdmin out.1)
          (set_password hash_password false username new_password s) (changed, s') e
          (set_password-HasAdmin hash_password false username new_password s one)

left_after_delete :
    (n : Text) (found : User) (users : Dict User)
    → HasUniqueKeys users
    → lookup n users ≡ some found
    → (is_admin found.role && (found.active && leb (active_admin_count users) 1)) ≡ false
    → 1 ≤ active_admin_count users
    → 1 ≤ active_admin_count (erase n users)
unfolding active_admin_count is_active_admin
left_after_delete n found users unique known room one =
    ground (arith, tally-erase is_active_admin n found users unique known)

-- Where some account is an active administrator and no account is stored twice, a deletion that
-- succeeds leaves an active administrator.
pub delete_user-HasAdmin :
    (username actor_username : Text) (s : Storage)
    → HasUniqueKeys s.users
    → HasAdmin s
    → Ensures (λ out. HasAdmin out.1) (delete_user username actor_username s)
unfolding delete_user
delete_user-HasAdmin username actor_username s unique one =
    let n = normalize_username username in
    let P = λ (out : (Unit {0}) × Storage). HasAdmin out.1 in
    Ensures-or_raise P (lookup n s.users) _ _ λ found known.
      Ensures-raise_if P
        (not (is_empty (normalize_username actor_username))
          && n == normalize_username actor_username)
        _ _
        λ _.
          Ensures-raise_if P
            (is_admin found.role && (found.active && leb (active_admin_count s.users) 1)) _ _
            λ room. left_after_delete n found s.users unique known room one
