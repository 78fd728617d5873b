-- ===== src/Auth/Membership.antt =====
-- auth.py: which group a user is in, and the changes of it.
use clab_manager.Prelude.{
  Bool, false, not, ◌&&◌, Option, none, some, List, [], ◌∷◌, ◌++◌, keep, if◌then◌else◌, Text, ◌==◌,
  strip, is_empty, elem, Dict, lookup, insert, values,
}
use clab_manager.Auth.Data.{
  Group, Result, ok, err, ◌>>=◌, ◌>>◌, or_raise, group_unknown, already_grouped,
  normalize_group_name, normalize_username, clean_all, sorted_set,
}

unfoldable pub groups_for_user : Text → Dict Group → List Group
groups_for_user username groups = keep (λ g. elem username g.members) (values groups)

-- The members of one group that stand among `members`.
unfoldable pub note_members : Text → List Text → List Text → Dict Text → Dict Text
note_members group_name members [] found = found
note_members group_name members (m ∷ ms) found =
    note_members group_name members ms (if elem m members then insert m group_name found else found)

-- `ignore_group and group_name == ignore_group`
unfoldable pub is_ignored : Option Text → Text → Bool
is_ignored none name = false
is_ignored (some ignored) name = not (is_empty ignored) && name == ignored

unfoldable pub already_assigned : List Text → Option Text → Dict Group → Dict Text → Dict Text
unfolding note_members is_ignored
already_assigned members ignore [] found = found
already_assigned members ignore ((name, g) ∷ groups) found =
    already_assigned members ignore groups
      (if is_ignored ignore name then found else note_members name members g.members found)

-- Raises where a member stands in a group other than the ignored one.
unfoldable pub validate_single_group_membership :
    List Text → Dict Group → Option Text → Result (Unit {0})
unfolding already_assigned
validate_single_group_membership members groups ignore =
    elim (already_assigned members ignore groups []) [
      | [] ↦ ok tt
      | e ∷ found ↦ err (already_grouped (e ∷ found))
    ]

unfoldable pub assign_user_to_group : Text → Text → Dict Group → Result (Dict Group)
unfolding validate_single_group_membership
assign_user_to_group username group_name groups =
    let name = normalize_group_name group_name in
    if is_empty name then ok groups else do
      target ← or_raise (lookup name groups) group_unknown
      validate_single_group_membership (username ∷ []) groups (some name)
      ok (
          insert name
            (record target {
              members = sorted_set (clean_all normalize_username target.members ++ username ∷ []);
            })
            groups)

unfoldable pub remove_user_from_groups : Text → Dict Group → Dict Group
remove_user_from_groups username [] = []
remove_user_from_groups username ((name, g) ∷ groups) =
    (name, record g { members = keep (λ m. not (m == username)) g.members })
    ∷ remove_user_from_groups username groups

unfoldable pub set_user_group_membership : Text → Option Text → Dict Group → Result (Dict Group)
unfolding assign_user_to_group remove_user_from_groups
set_user_group_membership username none groups = ok (remove_user_from_groups username groups)
set_user_group_membership username (some group_name) groups =
    let left = remove_user_from_groups username groups in
    if is_empty (strip group_name)
    then ok left
    else assign_user_to_group username (strip group_name) left
