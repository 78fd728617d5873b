-- ===== src/Auth/Access.antt =====
-- auth.py: what a signed-in user may see and do.
use clab_manager.Prelude.{
  Bool, true, false, not, ◌&&◌, ◌||◌, Option, none, some, List, [], ◌∷◌, ◌++◌, map, keep, some_or,
  if◌then◌else◌, Text, ◌==◌, is_empty, elem, any, Dict, lookup, insert, has_key, keys, sorted,
}
use clab_manager.Auth.Data.{
  Role, User, Permission, Group, Storage, is_admin, text_le, normalize_username,
}
use clab_manager.Auth.Membership.{groups_for_user}

pub record AuthenticatedUser : Type 0 where
  pub username : Text
  pub full_name : Text
  pub email : Text
  pub role : Role
  pub active : Bool
  pub must_change_password : Bool
  pub groups : List Text
  pub full_vm_access : List Text
  pub lab_access : Dict (List Text)

-- The labs of a machine that is open as a whole are not listed.
unfoldable pub add_permissions : List Text → List Permission → Dict (List Text) → Dict (List Text)
add_permissions full [] labs = labs
add_permissions full (p ∷ ps) labs = add_permissions full ps (
    if is_empty p.vm_id || elem p.vm_id full
    then labs
    else insert p.vm_id (some_or (lookup p.vm_id labs) [] ++ p.labs) labs)

-- `full_vm_access` and `lab_access` along the groups.
unfoldable pub add_groups : List Group → List Text → Dict (List Text) → List Text × Dict (List Text)
unfolding add_permissions
add_groups [] full labs = (full, labs)
add_groups (g ∷ gs) full labs =
    let full' = full ++ g.vm_ids in
    add_groups gs full' (add_permissions full' g.lab_permissions labs)

unfoldable pub build_authenticated_user : User → Dict Group → AuthenticatedUser
unfolding add_groups
build_authenticated_user u groups =
    let user_groups = groups_for_user u.username groups in
    let (full, labs) = add_groups user_groups [] [] in
    record {
      username = u.username;
      full_name = u.full_name;
      email = u.email;
      role = u.role;
      active = u.active;
      must_change_password = u.must_change_password;
      groups = sorted text_le (map (λ g. g.name) user_groups);
      full_vm_access = full;
      lab_access = labs;
    }

unfoldable pub can_access_vm : AuthenticatedUser → Text → Bool
can_access_vm u vm_id =
    is_admin u.role || (elem vm_id u.full_vm_access || has_key vm_id u.lab_access)

unfoldable pub can_access_lab : AuthenticatedUser → Text → Text → Bool
can_access_lab u vm_id lab_name =
    is_admin u.role
    || (elem vm_id u.full_vm_access || elem lab_name (some_or (lookup vm_id u.lab_access) []))

unfoldable pub is_manager : Role → Bool
is_manager Role.user = false
is_manager Role.admin = true
is_manager Role.group_admin = true

unfoldable pub can_redeploy_lab : AuthenticatedUser → Bool
unfolding is_manager
can_redeploy_lab u = is_manager u.role

-- `none` for an unknown or inactive account.
unfoldable pub active_record : Text → Storage → Option User
active_record normalized s = elim (lookup normalized s.users) [
  | none ↦ none
  | some u ↦ if u.active then some u else none
]

unfoldable pub get_user : Text → Storage → Option AuthenticatedUser
unfolding active_record build_authenticated_user
get_user username s =
    let normalized = normalize_username username in
    if is_empty normalized then none else elim (active_record normalized s) [
      | none ↦ none
      | some u ↦ some (build_authenticated_user u s.groups)
    ]

-- `verify_password` stands for `PasswordHasher.verify_password`.
unfoldable pub authenticate_user :
    (Text → Text → Bool) → Text → Text → Storage → Option AuthenticatedUser
unfolding active_record build_authenticated_user
authenticate_user verify_password username password s =
    elim (active_record (normalize_username username) s) [
      | none ↦ none
      | some u ↦
          if verify_password password u.password_hash
          then some (build_authenticated_user u s.groups)
          else none
    ]

-- A machine with its labs.
pub record Item : Type 0 where
  pub id : Text
  pub labs : List Text

unfoldable pub visible_labs : AuthenticatedUser → Item → List Text
unfolding can_access_lab
visible_labs u item =
    if elem item.id u.full_vm_access then item.labs else keep (can_access_lab u item.id) item.labs

abbrev pub has_none : List Text → Bool
has_none [] = true
has_none (_ ∷ _) = false

unfoldable pub filter_visible : AuthenticatedUser → List Item → List Item
unfolding visible_labs can_access_vm
filter_visible u [] = []
filter_visible u (item ∷ items) =
    let rest = filter_visible u items in
    let labs = visible_labs u item in
    if not (can_access_vm u item.id)
    then rest
    else if not (elem item.id u.full_vm_access) && has_none labs
    then rest
    else record item { labs = labs } ∷ rest

unfoldable pub filter_items_for_user : AuthenticatedUser → List Item → List Item
unfolding filter_visible
filter_items_for_user u items = if is_admin u.role then items else filter_visible u items

-- `agent_ids` are the ids of the configured agents.
unfoldable pub user_visible_vm_ids : List Text → AuthenticatedUser → List Text
user_visible_vm_ids agent_ids u =
    if is_admin u.role
    then keep (λ id. not (is_empty id)) agent_ids
    else u.full_vm_access ++ keys u.lab_access

-- The names of two lists of groups that are in both.
unfoldable pub share_group : List Group → List Group → Bool
share_group gs hs = any (λ g. any (λ h. g.name == h.name) hs) gs

unfoldable pub can_group_admin_manage_user : AuthenticatedUser → Text → Storage → Bool
unfolding is_manager share_group
can_group_admin_manage_user actor target_username s =
    if is_admin actor.role
    then true
    else if not (is_manager actor.role)
    then false
    else if is_empty (normalize_username target_username)
    then false
    else elim (lookup (normalize_username actor.username) s.users) [
      | none ↦ false
      | some a ↦ elim (lookup (normalize_username target_username) s.users) [
        | none ↦ false
        | some t ↦
            not (is_manager t.role)
            && share_group (groups_for_user a.username s.groups)
                (groups_for_user t.username s.groups)
      ]
    ]
