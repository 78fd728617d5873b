-- ===== src/Auth/Users.antt =====
-- auth.py: the operations on accounts. Each takes the storage that `_load_storage` returned, and
-- returns its result with the storage that it saves, or raises and saves nothing. `hash_password`
-- stands for `PasswordHasher.hash_password` with the salt that it draws.
use clab_manager.Prelude.{
  Bool, true, false, not, ◌&&◌, ◌||◌, Option, none, some, List, [], ◌∷◌, length, map, leb, ltb, eqb,
  if◌then◌else◌, Text, text, ◌==◌, lower, strip, is_empty, Dict, lookup, insert, erase, has_key,
  sorted,
}
use clab_manager.Auth.Data.{
  Role, User, Group, Storage, Result, ok, ◌>>=◌, ◌>>◌, raise_if, or_raise, username_required,
  name_required, email_invalid, role_invalid, password_short, user_exists, user_unknown,
  self_deactivation, self_demotion, self_deletion, last_admin_role, last_admin_active,
  last_admin_deleted, is_admin, parse_role, normalize_username, normalize_role, text_le,
  active_admin_count,
}
use clab_manager.Auth.Membership.{
  groups_for_user, assign_user_to_group, remove_user_from_groups, set_user_group_membership,
}

-- What the API shows of an account.
pub record PublicUser : Type 0 where
  pub username : Text
  pub full_name : Text
  pub email : Text
  pub role : Role
  pub active : Bool
  pub created_at : Text
  pub must_change_password : Bool
  pub groups : List Text

unfoldable pub public_user_payload : User → Dict Group → PublicUser
public_user_payload u groups = record {
  username = u.username;
  full_name = u.full_name;
  email = u.email;
  role = u.role;
  active = u.active;
  created_at = u.created_at;
  must_change_password = u.must_change_password;
  groups = sorted text_le (map (λ g. g.name) (groups_for_user u.username groups));
}

-- `"@" in email`
unfoldable pub has_at : Text → Bool
has_at [] = false
has_at (c ∷ cs) = eqb c b'@' || has_at cs

-- `not email or "@" not in email`
unfoldable pub is_bad_email : Text → Bool
unfolding has_at
is_bad_email email = is_empty email || not (has_at email)

pub record NewUser : Type 0 where
  pub username : Text
  pub full_name : Text
  pub email : Text
  pub password : Text
  pub role : Text
  pub group_name : Option Text

abbrev pub Saved : Type 0 → Type 0
Saved A = Result (A × Storage)

-- `if group_name is not None: _assign_user_to_group(...)`
unfoldable pub assign_if_given : Text → Option Text → Dict Group → Result (Dict Group)
assign_if_given username none groups = ok groups
assign_if_given username (some group_name) groups = assign_user_to_group username group_name groups

unfoldable pub new_user : NewUser → Role → Text → Text → User
new_user r role now password_hash = record {
  username = normalize_username r.username;
  full_name = strip r.full_name;
  email = lower (strip r.email);
  role = role;
  active = true;
  created_at = now;
  password_hash = password_hash;
  must_change_password = false;
}

module _ (hash_password : Text → Text) where
  unfoldable pub create_user : NewUser → Text → Storage → Saved PublicUser
  unfolding assign_if_given new_user is_bad_email public_user_payload
  create_user r now s = do
    let username = normalize_username r.username
    raise_if (is_empty username) username_required
    raise_if (is_empty (strip r.full_name)) name_required
    raise_if (is_bad_email (lower (strip r.email))) email_invalid
    role ← or_raise (parse_role (normalize_role r.role)) role_invalid
    raise_if (ltb (length r.password) 10) password_short
    raise_if (has_key username s.users) user_exists
    let created = new_user r role now (hash_password r.password)
    groups ← assign_if_given username r.group_name s.groups
    ok (
      public_user_payload created groups,
      record { users = insert username created s.users; groups = groups },
    )

  -- The two ways to set a password: by an administrator, and by the user.
  unfoldable pub set_password : Bool → Text → Text → Storage → Result (User × Storage)
  set_password must_change username new_password s = do
    let normalized = normalize_username username
    raise_if (ltb (length new_password) 10) password_short
    found ← or_raise (lookup normalized s.users) user_unknown
    let changed : User = record found {
      password_hash = hash_password new_password;
      must_change_password = must_change;
    }
    ok (changed, record s { users = insert normalized changed s.users })

  unfoldable pub reset_user_password : Text → Text → Storage → Saved PublicUser
  unfolding set_password public_user_payload
  reset_user_password username new_password s = do
    (changed, s') ← set_password true username new_password s
    ok (public_user_payload changed s'.groups, s')

  unfoldable pub change_password : Text → Text → Storage → Saved (Unit {0})
  unfolding set_password
  change_password username new_password s = do
    (changed, s') ← set_password false username new_password s
    ok (tt, s')

pub record UserUpdate : Type 0 where
  pub full_name : Option Text
  pub email : Option Text
  pub role : Option Text
  pub active : Option Bool
  pub group_name : Option Text
  pub set_group_name : Bool
  pub actor_username : Text

unfoldable pub is_some_false : Option Bool → Bool
is_some_false (some false) = true
is_some_false _ = false

-- `role and str(role).strip().lower() != "admin"`
unfoldable pub takes_admin : Option Text → Bool
takes_admin none = false
takes_admin (some role) = not (is_empty role) && not (lower (strip role) == text "admin")

-- An administrator may not turn off, or take the role from, the own account.
unfoldable pub check_self : Text → Text → Option Text → Option Bool → Result (Unit {0})
unfolding is_some_false takes_admin
check_self normalized actor role active =
    if not (is_empty actor) && normalized == actor
    then (do
      raise_if (is_some_false active) self_deactivation
      raise_if (takes_admin role) self_demotion)
    else ok tt

unfoldable pub update_name : Option Text → User → Result User
update_name none u = ok u
update_name (some name) u = do
  raise_if (is_empty (strip name)) name_required
  ok (record u { full_name = strip name })

unfoldable pub update_email : Option Text → User → Result User
unfolding is_bad_email
update_email none u = ok u
update_email (some email) u = do
  raise_if (is_bad_email (lower (strip email))) email_invalid
  ok (record u { email = lower (strip email) })

unfoldable pub update_role : Option Text → Dict User → User → Result User
update_role none users u = ok u
update_role (some name) users u = do
  role ← or_raise (parse_role (lower (strip name))) role_invalid
  raise_if (is_admin u.role && (not (is_admin role) && leb (active_admin_count users) 1))
      last_admin_role
  ok (record u { role = role })

-- The count is of the users as they stand, the changed record among them.
unfoldable pub update_active : Option Bool → Dict User → User → Result User
update_active none users u = ok u
update_active (some active) users u = do
  raise_if (is_admin u.role && (not active && leb (active_admin_count users) 1)) last_admin_active
  ok (record u { active = active })

unfoldable pub update_user : Text → UserUpdate → Storage → Saved PublicUser
unfolding check_self update_name update_email update_role update_active public_user_payload
update_user username r s = do
  let normalized = normalize_username username
  found ← or_raise (lookup normalized s.users) user_unknown
  check_self normalized (normalize_username r.actor_username) r.role r.active
  named ← update_name r.full_name found
  mailed ← update_email r.email named
  promoted ← update_role r.role (insert normalized mailed s.users) mailed
  changed ← update_active r.active (insert normalized promoted s.users) promoted
  groups ←
      if r.set_group_name
      then set_user_group_membership normalized r.group_name s.groups
      else ok s.groups
  ok (
    public_user_payload changed groups,
    record { users = insert normalized changed s.users; groups = groups },
  )

unfoldable pub delete_user : Text → Text → Storage → Saved (Unit {0})
delete_user username actor_username s = do
  let normalized = normalize_username username
  let actor = normalize_username actor_username
  found ← or_raise (lookup normalized s.users) user_unknown
  raise_if (not (is_empty actor) && normalized == actor) self_deletion
  raise_if (is_admin found.role && (found.active && leb (active_admin_count s.users) 1))
      last_admin_deleted
  ok (
    tt,
    record {
      users = erase normalized s.users;
      groups = remove_user_from_groups normalized s.groups;
    },
  )
