-- ===== src/Auth/Listing.antt =====
-- auth.py: the lists of accounts and groups for the administration.
use clab_manager.Prelude.{Bool, List, map, sorted, if◌then◌else◌, Text, text, ◌==◌, values}
use clab_manager.Auth.Data.{Role, User, Storage, text_le}
use clab_manager.Auth.Users.{PublicUser, public_user_payload}
use clab_manager.Auth.Groups.{PublicGroup, public_group_payload}

-- The stored text of a role.
unfoldable pub role_name : Role → Text
role_name Role.user = text "user"
role_name Role.admin = text "admin"
role_name Role.group_admin = text "group-admin"

-- The order of the key `(item["role"], item["username"])`.
unfoldable pub user_le : User → User → Bool
unfolding role_name
user_le u v =
    if role_name u.role == role_name v.role
    then text_le u.username v.username
    else text_le (role_name u.role) (role_name v.role)

unfoldable pub list_users : Storage → List PublicUser
unfolding user_le
list_users s = map (λ u. public_user_payload u s.groups) (sorted user_le (values s.users))

unfoldable pub list_groups : Storage → List PublicGroup
list_groups s =
    map (λ g. public_group_payload g s.users)
      (sorted (λ g h. text_le g.name h.name) (values s.groups))
