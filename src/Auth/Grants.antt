-- ===== src/Auth/Grants.antt =====
-- auth.py: proofs on the computed access and on `filter_items_for_user`.
use clab_manager.Prelude.{
  ◌≡◌, refl, ap, Bool, true, false, not, ◌&&◌, ◌||◌, List, [], ◌∷◌, ◌++◌, inl, inr, ◌⊎◌, keep, any,
  arith, some_or, Text, ◌==◌, eq_iff, is_empty, elem, Dict, lookup, insert, lookup-insert, In,
  Bool-cases,
}
use clab_manager.Auth.Data.{User, Permission, Group, is_admin}
use clab_manager.Auth.Membership.{groups_for_user}
use clab_manager.Auth.Access.{
  AuthenticatedUser, Item, add_permissions, add_groups, build_authenticated_user, can_access_vm,
  has_none, can_access_lab, visible_labs, filter_visible,
}
use clab_manager.Auth.Members.{elem-append}

-- What a permission, and a group, says of one lab of one machine.
unfoldable pub permits : Text → Text → Permission → Bool
permits vm_id lab p = not (is_empty p.vm_id) && (p.vm_id == vm_id && elem lab p.labs)

unfoldable pub grants : Text → Text → Group → Bool
unfolding permits
grants vm_id lab g = elem vm_id g.vm_ids || any (permits vm_id lab) g.lab_permissions

-- The labs listed for a machine.
labs_of : Text → Dict (List Text) → List Text
labs_of vm_id labs = some_or (lookup vm_id labs) []

module _ (vm_id lab : Text) where
  add_permissions_lem :
      (full : List Text) (ps : List Permission) (labs : Dict (List Text))
      → (elem vm_id full || elem lab (labs_of vm_id (add_permissions full ps labs)))
        ≡ (elem vm_id full || (elem lab (labs_of vm_id labs) || any (permits vm_id lab) ps))
  unfolding add_permissions permits labs_of
  add_permissions_lem full [] labs = ground arith
  add_permissions_lem full (p ∷ ps) labs =
      elim (Bool-cases (is_empty p.vm_id || elem p.vm_id full)) [
        | inl e ↦ ground (arith, add_permissions_lem full ps labs, eq_iff p.vm_id vm_id)
        | inr e ↦
            let more = insert p.vm_id (some_or (lookup p.vm_id labs) [] ++ p.labs) labs in
            ground (
              arith,
              add_permissions_lem full ps more,
              lookup-insert p.vm_id vm_id (some_or (lookup p.vm_id labs) [] ++ p.labs) labs,
              elem-append lab (some_or (lookup p.vm_id labs) []) p.labs,
              eq_iff p.vm_id vm_id,
            )
      ]

  add_groups_lem :
      (gs : List Group) (full : List Text) (labs : Dict (List Text))
      → (elem vm_id (add_groups gs full labs).0
          || elem lab (labs_of vm_id (add_groups gs full labs).1))
        ≡ ((elem vm_id full || elem lab (labs_of vm_id labs)) || any (grants vm_id lab) gs)
  unfolding add_groups grants
  add_groups_lem [] full labs = ground arith
  add_groups_lem (g ∷ gs) full labs =
      let full' = full ++ g.vm_ids in
      ground (
        arith,
        add_groups_lem gs full' (add_permissions full' g.lab_permissions labs),
        add_permissions_lem full' g.lab_permissions labs,
        elem-append vm_id full g.vm_ids,
      )

  -- A user may use a lab exactly when it is an administrator, or one of its groups opens the
  -- machine or has a permission for the machine that lists the lab.
  pub can_access_lab_iff :
      (u : User) (groups : Dict Group)
      → can_access_lab (build_authenticated_user u groups) vm_id lab
        ≡ (is_admin u.role || any (grants vm_id lab) (groups_for_user u.username groups))
  unfolding can_access_lab build_authenticated_user labs_of
  can_access_lab_iff u groups =
      ap (λ b. is_admin u.role || b) (add_groups_lem (groups_for_user u.username groups) [] [])

pub elem_of_keep :
    (p : Text → Bool) (m : Text) (ms : List Text)
    → elem m (keep p ms) ≡ true
    → (elem m ms ≡ true) × (p m ≡ true)
elem_of_keep p m [] h = cc
elem_of_keep p m (x ∷ xs) h = ground (arith, elem_of_keep p m xs, eq_iff x m)

elem-keep :
    (p : Text → Bool) (m : Text) (ms : List Text)
    → elem m ms ≡ true
    → p m ≡ true
    → elem m (keep p ms) ≡ true
elem-keep p m [] h k = cc
elem-keep p m (x ∷ xs) h k = ground (arith, elem-keep p m xs, eq_iff x m)

module _ (u : AuthenticatedUser) (lab : Text) where
  visible_labs_lem :
      (item : Item)
      → elem lab (visible_labs u item) ≡ true
      → (elem lab item.labs ≡ true) × (can_access_lab u item.id lab ≡ true)
  unfolding visible_labs can_access_lab
  visible_labs_lem item h = ground (arith, elem_of_keep (can_access_lab u item.id) lab item.labs)

  shown_item : Item → Item
  shown_item item = record item { labs = visible_labs u item }

  shown_cases :
      (item shown : Item) (items : List Item)
      → In shown (filter_visible u (item ∷ items))
      → (shown_item item ≡ shown) ⊎ In shown (filter_visible u items)
  unfolding filter_visible shown_item
  shown_cases item shown items i = elim (Bool-cases (not (can_access_vm u item.id))) [
    | inl e ↦ inr (rw e at i)
    | inr e ↦
        elim (Bool-cases (not (elem item.id u.full_vm_access) && has_none (visible_labs u item))) [
          | inl k ↦ inr (rw (e, k) at i)
          | inr k ↦ rw (e, k) at i
        ]
  ]

  -- A lab on a filtered list of machines stands in the full list under the same machine, and the
  -- user may use it.
  pub filter_visible-IsAllowed :
      (items : List Item) (shown : Item)
      → In shown (filter_visible u items)
      → elem lab shown.labs ≡ true
      → (item : Item) × In item items
        × (item.id ≡ shown.id)
        × (elem lab item.labs ≡ true)
        × (can_access_lab u shown.id lab ≡ true)
  unfolding filter_visible shown_item
  filter_visible-IsAllowed [] shown i h = absurd i
  filter_visible-IsAllowed (item ∷ items) shown i h = elim (shown_cases item shown items i) [
    | inl e ↦
        let (here, allowed) = visible_labs_lem item (rw (← e) at h) in
        (item, inl refl, ap (λ x. x.id) e, here, rw (← e) allowed)
    | inr j ↦
        let (x, k, same, here, allowed) = filter_visible-IsAllowed items shown j h in
        (x, inr k, same, here, allowed)
  ]

  visible-elem :
      (item : Item)
      → elem lab item.labs ≡ true
      → can_access_lab u item.id lab ≡ true
      → elem lab (visible_labs u item) ≡ true
  unfolding visible_labs
  visible-elem item h c = ground (arith, elem-keep (can_access_lab u item.id) lab item.labs)

  vm_of_lab : (vm_id : Text) → can_access_lab u vm_id lab ≡ true → can_access_vm u vm_id ≡ true
  unfolding can_access_lab can_access_vm
  vm_of_lab vm_id c = ground arith

  has_none-elem : (xs : List Text) → elem lab xs ≡ true → has_none xs ≡ false
  has_none-elem [] h = cc
  has_none-elem (x ∷ xs) h = refl

  shown_first :
      (item : Item) (items : List Item)
      → elem lab item.labs ≡ true
      → can_access_lab u item.id lab ≡ true
      → In (shown_item item) (filter_visible u (item ∷ items))
  unfolding filter_visible shown_item visible_labs
  shown_first item items h c =
      let open_vm = vm_of_lab item.id c in
      let some_lab = has_none-elem (visible_labs u item) (visible-elem item h c) in
      elim (Bool-cases (elem item.id u.full_vm_access)) [
        | inl e ↦ rw (open_vm, e) (inl refl)
        | inr e ↦ rw (open_vm, e, rw (visible_labs, e) at some_lab) (inl refl)
      ]

  shown_rest :
      (item shown : Item) (items : List Item)
      → In shown (filter_visible u items)
      → In shown (filter_visible u (item ∷ items))
  unfolding filter_visible
  shown_rest item shown items i = elim (Bool-cases (not (can_access_vm u item.id))) [
    | inl e ↦ rw e i
    | inr e ↦
        elim (Bool-cases (not (elem item.id u.full_vm_access) && has_none (visible_labs u item))) [
          | inl k ↦ rw (e, k) i
          | inr k ↦ rw (e, k) (inr i)
        ]
  ]

  -- A lab of a listed machine that the user may use is on the filtered list under the same machine.
  pub filter_visible-IsComplete :
      (items : List Item) (item : Item)
      → In item items
      → elem lab item.labs ≡ true
      → can_access_lab u item.id lab ≡ true
      → (shown : Item) × In shown (filter_visible u items)
        × (shown.id ≡ item.id)
        × (elem lab shown.labs ≡ true)
  unfolding shown_item
  filter_visible-IsComplete [] item i h c = absurd i
  filter_visible-IsComplete (x ∷ xs) item (inl e) h c =
      (shown_item item, rw e (shown_first item xs h c), refl, visible-elem item h c)
  filter_visible-IsComplete (x ∷ xs) item (inr i) h c =
      let (shown, j, same, here) = filter_visible-IsComplete xs item i h c in
      (shown, shown_rest x shown xs j, same, here)
