-- ===== src/Auth/Groups.antt =====
-- auth.py: the operations on groups. Each takes the loaded storage, and returns its result with the
-- storage that it saves, or raises and saves nothing.
use clab_manager.Prelude.{
  not, ◌&&◌, ◌||◌, Option, none, some, List, [], ◌∷◌, map, keep, some_or, if◌then◌else◌, Text, ◌==◌,
  is_empty, Dict, lookup, insert, erase, has_key,
}
use clab_manager.Auth.Data.{
  User, Permission, Group, Storage, Result, ok, err, ◌>>=◌, ◌>>◌, raise_if, or_raise,
  group_name_invalid, group_exists, group_unknown, group_invalid, unknown_members,
  normalize_group_name, is_group_name, normalize_members, normalize_group,
}
use clab_manager.Auth.Membership.{validate_single_group_membership}
use clab_manager.Auth.Users.{Saved}

pub record PublicGroup : Type 0 where
  pub name : Text
  pub description : Text
  pub members : List Text
  pub member_details : List (Text × Text)
  pub vm_ids : List Text
  pub lab_permissions : List Permission
  pub created_at : Text

-- The full name of a member, or its username where the account is not known.
unfoldable pub member_detail : Dict User → Text → Text × Text
member_detail users member = elim (lookup member users) [
  | none ↦ (member, member)
  | some u ↦ (member, u.full_name)
]

unfoldable pub public_group_payload : Group → Dict User → PublicGroup
unfolding member_detail
public_group_payload g users = record {
  name = g.name;
  description = g.description;
  members = g.members;
  member_details = map (member_detail users) g.members;
  vm_ids = g.vm_ids;
  lab_permissions = g.lab_permissions;
  created_at = g.created_at;
}

unfoldable pub check_known : List Text → Dict User → Result (Unit {0})
check_known members users = elim (keep (λ m. not (has_key m users)) members) [
  | [] ↦ ok tt
  | m ∷ ms ↦ err (unknown_members (m ∷ ms))
]

pub record NewGroup : Type 0 where
  pub name : Text
  pub description : Text
  pub members : List Text
  pub vm_ids : List Text
  pub lab_permissions : List Permission

unfoldable pub create_group : NewGroup → Text → Storage → Saved PublicGroup
unfolding check_known public_group_payload
create_group r now s = do
  let name = normalize_group_name r.name
  raise_if (is_empty name || not (is_group_name name)) group_name_invalid
  raise_if (has_key name s.groups) group_exists
  let members = normalize_members r.members
  check_known members s.users
  validate_single_group_membership members s.groups none
  group ←
      or_raise
        (normalize_group (record {
          name = name;
          description = r.description;
          members = members;
          vm_ids = r.vm_ids;
          lab_permissions = r.lab_permissions;
          created_at = now;
        }))
        group_invalid
  ok (public_group_payload group s.users, record s { groups = insert name group s.groups })

pub record GroupUpdate : Type 0 where
  pub new_name : Option Text
  pub description : Option Text
  pub members : Option (List Text)
  pub vm_ids : Option (List Text)
  pub lab_permissions : Option (List Permission)

-- The name that the group is to have.
unfoldable pub target_name : Text → Option Text → Dict Group → Result Text
target_name name none groups = ok name
target_name name (some new_name) groups = do
  let target = normalize_group_name new_name
  raise_if (is_empty target || not (is_group_name target)) group_name_invalid
  raise_if (not (target == name) && has_key target groups) group_exists
  ok target

unfoldable pub target_members : Group → Option (List Text) → List Text
target_members current none = current.members
target_members current (some members) = normalize_members members

-- The group leaves its old name if it has a new one.
unfoldable pub rename : Text → Text → Group → Dict Group → Dict Group
rename name target group groups =
    insert target group (if target == name then groups else erase name groups)

unfoldable pub update_group : Text → GroupUpdate → Text → Storage → Saved PublicGroup
unfolding target_name target_members rename check_known public_group_payload
update_group given r now s = do
  let name = normalize_group_name given
  current ← or_raise (lookup name s.groups) group_unknown
  target ← target_name name r.new_name s.groups
  let members = target_members current r.members
  check_known members s.users
  validate_single_group_membership members s.groups (some name)
  group ←
      or_raise
        (normalize_group (record {
          name = target;
          description = some_or r.description current.description;
          members = members;
          vm_ids = some_or r.vm_ids current.vm_ids;
          lab_permissions = some_or r.lab_permissions current.lab_permissions;
          created_at = if is_empty current.created_at then now else current.created_at;
        }))
        group_invalid
  ok (public_group_payload group s.users, record s { groups = rename name target group s.groups })

unfoldable pub delete_group : Text → Storage → Saved (Unit {0})
delete_group given s = do
  let name = normalize_group_name given
  removed ← or_raise (lookup name s.groups) group_unknown
  ok (tt, record s { groups = erase name s.groups })
