-- ===== src/Auth/Load.antt =====
-- auth.py: from the parsed file to the storage. A text that is absent in the file is empty here.
use clab_manager.Prelude.{
  Bool, true, false, ◌||◌, Option, none, some, List, [], ◌∷◌, keep, if◌then◌else◌, Text, text,
  lower, strip, is_empty, Dict, insert, has_key,
}
use clab_manager.Auth.Data.{
  Role, User, Group, Storage, parse_role, normalize_username, normalize_role, normalize_group,
}

-- An object of the list of users, before it is normalised.
pub record RawUser : Type 0 where
  pub username : Text
  pub full_name : Text
  pub email : Text
  pub role : Text
  pub active : Bool
  pub created_at : Text
  pub password_hash : Text
  pub must_change_password : Bool

-- The file: absent, no JSON, a list of users (an older format), an object, or another value. The items
-- of a list may be no objects. The groups of an object may be absent, or no list.
pub data Document : Type 0 where
  no_file garbled scalar : Document
  listing : List (Option RawUser) → Document
  object : Option (List (Option RawUser)) → Option (Option (List (Option Group))) → Document

unfoldable pub normalize_user : Text → RawUser → Option User
normalize_user now r =
    if is_empty (normalize_username r.username)
      || (is_empty (strip r.full_name)
          || (is_empty (lower (strip r.email)) || is_empty (strip r.password_hash)))
    then none
    else elim (parse_role (normalize_role r.role)) [
      | none ↦ none
      | some role ↦ some (record {
        username = normalize_username r.username;
        full_name = strip r.full_name;
        email = lower (strip r.email);
        role = role;
        active = r.active;
        created_at = if is_empty r.created_at then now else r.created_at;
        password_hash = strip r.password_hash;
        must_change_password = r.must_change_password;
      })
    ]

unfoldable pub read_users : Text → List (Option RawUser) → Dict User → Dict User
unfolding normalize_user
read_users now [] users = users
read_users now (none ∷ items) users = read_users now items users
read_users now (some r ∷ items) users = elim (normalize_user now r) [
  | none ↦ read_users now items users
  | some u ↦ read_users now items (insert u.username u users)
]

-- A group of the file, with its time of creation filled in.
unfoldable pub read_group : Text → Group → Option Group
read_group now g =
    normalize_group (record g { created_at = if is_empty g.created_at then now else g.created_at })

unfoldable pub read_groups : Text → List (Option Group) → Dict Group → Dict Group
unfolding read_group
read_groups now [] groups = groups
read_groups now (none ∷ items) groups = read_groups now items groups
read_groups now (some g ∷ items) groups = elim (read_group now g) [
  | none ↦ read_groups now items groups
  | some h ↦ read_groups now items (insert h.name h groups)
]

-- Members without an account leave their groups.
unfoldable pub drop_unknown : Dict User → Dict Group → Dict Group
drop_unknown users [] = []
drop_unknown users ((name, g) ∷ groups) =
    (name, record g { members = keep (λ m. has_key m users) g.members }) ∷ drop_unknown users groups

abbrev pub default_admin_username : Text
default_admin_username = text "admin"

-- `password_hash` is the hash of the configured first password.
unfoldable pub default_admin_record : Text → Text → User
default_admin_record password_hash now = record {
  username = default_admin_username;
  full_name = text "Administrateur VLM";
  email = text "admin@local";
  role = Role.admin;
  active = true;
  created_at = now;
  password_hash = password_hash;
  must_change_password = true;
}

-- The accounts of the first start. There is no hash where no first password is configured: that raises.
unfoldable pub first_users : Option Text → Text → Option (Dict User)
unfolding default_admin_record
first_users none now = none
first_users (some hash) now = some ((default_admin_username, default_admin_record hash now) ∷ [])

unfoldable pub first_storage : Option Text → Text → Option (Storage × Bool)
unfolding first_users
first_storage hash now = elim (first_users hash now) [
  | none ↦ none
  | some users ↦ some (record { users = users; groups = [] }, true)
]

-- `if not users:` the default administrator.
unfoldable pub some_users : Option Text → Text → Dict User → Option (Dict User)
unfolding first_users
some_users hash now [] = first_users hash now
some_users hash now (u ∷ users) = some (u ∷ users)

unfoldable pub read_storage :
    Option Text
    → Text
    → List (Option RawUser)
    → List (Option Group)
    → Bool
    → Option (Storage × Bool)
unfolding read_users read_groups drop_unknown some_users
read_storage hash now raw_users raw_groups needs_save =
    elim (some_users hash now (read_users now raw_users [])) [
      | none ↦ none
      | some users ↦ some (
        record { users = users; groups = drop_unknown users (read_groups now raw_groups []) },
        needs_save,
      )
    ]

abbrev pub list_of : {A : Type 0} → Option (List A) → List A
list_of none = []
list_of (some items) = items

-- The storage, and whether it is saved at once. `none` where the first password is missing.
unfoldable pub load_storage : Option Text → Text → Document → Option (Storage × Bool)
unfolding read_storage first_storage
load_storage hash now Document.no_file = first_storage hash now
load_storage hash now Document.garbled = first_storage hash now
load_storage hash now Document.scalar = read_storage hash now [] [] true
load_storage hash now (Document.listing users) = read_storage hash now users [] true
load_storage hash now (Document.object users none) = read_storage hash now (list_of users) [] true
load_storage hash now (Document.object users (some groups)) =
    read_storage hash now (list_of users) (list_of groups) false
