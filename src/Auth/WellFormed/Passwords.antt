-- ===== src/Auth/WellFormed/Passwords.antt =====
-- auth.py: proofs on the changes of passwords and the well-formed storage.
use clab_manager.Prelude.{
  Bool, true, false, length, ltb, Text, lookup, insert, insert-HasUniqueKeys,
}
use clab_manager.Auth.Data.{
  User, Storage, Ensures, Ensures-bind, Ensures-raise_if, Ensures-or_raise, Ensures-of,
  normalize_username,
}
use clab_manager.Auth.Users.{PublicUser, set_password, reset_user_password, change_password}
use clab_manager.Auth.WellFormed.{users-IsGrouped}
use clab_manager.Auth.WellFormed.Operations.{IsWellFormed, has_key-insert}

set_password-IsWellFormed :
    (hash_password : Text → Text) (must_change : Bool) (username new_password : Text) (s : Storage)
    → IsWellFormed s
    → Ensures
        (λ out. IsWellFormed out.1)
        (set_password hash_password must_change username new_password s)
unfolding set_password
set_password-IsWellFormed hash_password must_change username new_password s w =
    let n = normalize_username username in
    let P = λ (out : User × Storage). IsWellFormed out.1 in
    Ensures-raise_if P (ltb (length new_password) 10) _ _ λ _.
      Ensures-or_raise P (lookup n s.users) _ _ λ found known.
        let u : User = record found {
          password_hash = hash_password new_password;
          must_change_password = must_change;
        } in
        record {
          users_unique = insert-HasUniqueKeys n u s.users w.users_unique;
          grouped =
              users-IsGrouped s.users s.groups w.grouped (insert n u s.users)
                (λ m. has_key-insert n m u s.users);
        }

-- A reset of a password keeps the storage well formed.
pub reset_user_password-IsWellFormed :
    (hash_password : Text → Text) (username new_password : Text) (s : Storage)
    → IsWellFormed s
    → Ensures
        (λ out. IsWellFormed out.1)
        (reset_user_password hash_password username new_password s)
unfolding reset_user_password
reset_user_password-IsWellFormed hash_password username new_password s w =
    Ensures-bind (λ (out : PublicUser × Storage). IsWellFormed out.1)
      (set_password hash_password true username new_password s) _
      λ (changed, s') e.
        Ensures-of (λ (out : User × Storage). IsWellFormed out.1)
          (set_password hash_password true username new_password s) (changed, s') e
          (set_password-IsWellFormed hash_password true username new_password s w)

-- So does a change of the own password.
pub change_password-IsWellFormed :
    (hash_password : Text → Text) (username new_password : Text) (s : Storage)
    → IsWellFormed s
    → Ensures (λ out. IsWellFormed out.1) (change_password hash_password username new_password s)
unfolding change_password
change_password-IsWellFormed hash_password username new_password s w =
    Ensures-bind (λ (out : (Unit {0}) × Storage). IsWellFormed out.1)
      (set_password hash_password false username new_password s) _
      λ (changed, s') e.
        Ensures-of (λ (out : User × Storage). IsWellFormed out.1)
          (set_password hash_password false username new_password s) (changed, s') e
          (set_password-IsWellFormed hash_password false username new_password s w)
