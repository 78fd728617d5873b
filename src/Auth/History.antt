-- ===== src/Auth/History.antt =====
-- auth.py: histories of operations on accounts and groups as a step relation on the storage.
use clab_manager.Prelude.{◌≡◌, Text}
use clab_manager.Auth.Data.{Storage, Result, ok, Ensures, Ensures-of}
use clab_manager.Auth.Users.{
  PublicUser, NewUser, UserUpdate, create_user, update_user, delete_user, reset_user_password,
  change_password,
}
use clab_manager.Auth.Groups.{
  PublicGroup, NewGroup, GroupUpdate, create_group, update_group, delete_group,
}
use clab_manager.Auth.Admins.{
  HasAdmin, create_user-HasAdmin, update_user-HasAdmin, delete_user-HasAdmin,
  reset_user_password-HasAdmin, change_password-HasAdmin,
}
use clab_manager.Auth.WellFormed.Operations.{
  IsWellFormed, create_user-IsWellFormed, update_user-IsWellFormed, delete_user-IsWellFormed,
}
use clab_manager.Auth.WellFormed.Passwords.{
  reset_user_password-IsWellFormed, change_password-IsWellFormed,
}
use clab_manager.Auth.WellFormed.Changes.{
  create_group-IsWellFormed, update_group-IsWellFormed, delete_group-IsWellFormed,
  create_group-users, update_group-users, delete_group-users,
}

-- A call of an operation that succeeds; one that raises saves nothing.
pub data Change (hash_password : Text → Text) : Storage → Storage → Type 0 where
  creates_user :
      {s t : Storage} (r : NewUser) (now : Text) (u : PublicUser)
      → create_user hash_password r now s ≡ ok (u, t)
      → Change hash_password s t
  updates_user :
      {s t : Storage} (name : Text) (r : UserUpdate) (u : PublicUser)
      → update_user name r s ≡ ok (u, t)
      → Change hash_password s t
  deletes_user :
      {s t : Storage} (name actor : Text) (v : Unit {0})
      → delete_user name actor s ≡ ok (v, t)
      → Change hash_password s t
  resets_password :
      {s t : Storage} (name password : Text) (u : PublicUser)
      → reset_user_password hash_password name password s ≡ ok (u, t)
      → Change hash_password s t
  changes_password :
      {s t : Storage} (name password : Text) (v : Unit {0})
      → change_password hash_password name password s ≡ ok (v, t)
      → Change hash_password s t
  creates_group :
      {s t : Storage} (r : NewGroup) (now : Text) (g : PublicGroup)
      → create_group r now s ≡ ok (g, t)
      → Change hash_password s t
  updates_group :
      {s t : Storage} (name : Text) (r : GroupUpdate) (now : Text) (g : PublicGroup)
      → update_group name r now s ≡ ok (g, t)
      → Change hash_password s t
  deletes_group :
      {s t : Storage} (name : Text) (v : Unit {0})
      → delete_group name s ≡ ok (v, t)
      → Change hash_password s t

pub data Changes (hash_password : Text → Text) : Storage → Storage → Type 0 where
  unchanged : {s : Storage} → Changes hash_password s s
  then_changed :
      {s t u : Storage}
      → Change hash_password s t
      → Changes hash_password t u
      → Changes hash_password s u

pub record IsSound (s : Storage) : Type 0 where
  pub well_formed : IsWellFormed s
  pub has_admin : HasAdmin s

-- The storage of an operation that succeeded, from what its lemmas ensure.
module _ {A : Type 0} (a : A) (t : Storage) (m : Result (A × Storage)) (e : m ≡ ok (a, t)) where
  IsSound-of : Ensures (λ out. IsWellFormed out.1) m → Ensures (λ out. HasAdmin out.1) m → IsSound t
  IsSound-of w admin = record {
    well_formed = Ensures-of (λ (out : A × Storage). IsWellFormed out.1) m (a, t) e w;
    has_admin = Ensures-of (λ (out : A × Storage). HasAdmin out.1) m (a, t) e admin;
  }

  IsSound-of_same :
      (s : Storage)
      → HasAdmin s
      → Ensures (λ out. IsWellFormed out.1) m
      → Ensures (λ out. out.1.users ≡ s.users) m
      → IsSound t
  IsSound-of_same s one w users = record {
    well_formed = Ensures-of (λ (out : A × Storage). IsWellFormed out.1) m (a, t) e w;
    has_admin = rw (Ensures-of (λ (out : A × Storage). out.1.users ≡ s.users) m (a, t) e users) one;
  }

module _ (hash_password : Text → Text) where
  Change-IsSound : {s t : Storage} → Change hash_password s t → IsSound s → IsSound t
  Change-IsSound {s} {t} (Change.creates_user r now u e) w =
      IsSound-of u t (create_user hash_password r now s) e
        (create_user-IsWellFormed hash_password r now s w.well_formed)
        (create_user-HasAdmin hash_password r now s w.has_admin)
  Change-IsSound {s} {t} (Change.updates_user name r u e) w =
      IsSound-of u t (update_user name r s) e (update_user-IsWellFormed name r s w.well_formed)
        (update_user-HasAdmin name r s w.has_admin)
  Change-IsSound {s} {t} (Change.deletes_user name actor v e) w =
      IsSound-of v t (delete_user name actor s) e
        (delete_user-IsWellFormed name actor s w.well_formed)
        (delete_user-HasAdmin name actor s w.well_formed.users_unique w.has_admin)
  Change-IsSound {s} {t} (Change.resets_password name password u e) w =
      IsSound-of u t (reset_user_password hash_password name password s) e
        (reset_user_password-IsWellFormed hash_password name password s w.well_formed)
        (reset_user_password-HasAdmin hash_password name password s w.has_admin)
  Change-IsSound {s} {t} (Change.changes_password name password v e) w =
      IsSound-of v t (change_password hash_password name password s) e
        (change_password-IsWellFormed hash_password name password s w.well_formed)
        (change_password-HasAdmin hash_password name password s w.has_admin)
  Change-IsSound {s} {t} (Change.creates_group r now g e) w =
      IsSound-of_same g t (create_group r now s) e s w.has_admin
        (create_group-IsWellFormed r now s w.well_formed) (create_group-users r now s)
  Change-IsSound {s} {t} (Change.updates_group name r now g e) w =
      IsSound-of_same g t (update_group name r now s) e s w.has_admin
        (update_group-IsWellFormed name r now s w.well_formed) (update_group-users name r now s)
  Change-IsSound {s} {t} (Change.deletes_group name v e) w =
      IsSound-of_same v t (delete_group name s) e s w.has_admin
        (delete_group-IsWellFormed name s w.well_formed) (delete_group-users name s)

  -- Where the storage is well formed (no account twice, members are known accounts under their
  -- normal names, nobody in two groups) and has an active administrator, it is so after every
  -- history of operations on accounts, passwords and groups that succeed.
  pub Changes-IsSound : {s t : Storage} → Changes hash_password s t → IsSound s → IsSound t
  Changes-IsSound Changes.unchanged w = w
  Changes-IsSound (Changes.then_changed c rest) w = Changes-IsSound rest (Change-IsSound c w)
