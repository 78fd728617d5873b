-- ===== src/Auth/Managed.antt =====
-- auth.py: proofs on whom a group administrator may manage.
use clab_manager.Prelude.{
  ◌≡◌, refl, sym, Bool, true, false, not, ◌&&◌, some, List, [], ◌∷◌, inl, inr, any, In, arith, Text,
  ◌==◌, eq_iff, lookup, Bool-cases, Option-cases, false≢true,
}
use clab_manager.Auth.Data.{Role, User, Group, Storage, is_admin, normalize_username}
use clab_manager.Auth.Membership.{groups_for_user}
use clab_manager.Auth.Access.{
  AuthenticatedUser, is_manager, share_group, can_group_admin_manage_user,
}

-- The accounts of both are stored, the other one is an ordinary one, and some group has both.
pub record IsManaged (actor : AuthenticatedUser) (target : Text) (s : Storage) (a t : User)
    (g h : Group) : Type 0 where
  pub account : lookup (normalize_username actor.username) s.users ≡ some a
  pub managed : lookup (normalize_username target) s.users ≡ some t
  pub ordinary : t.role ≡ Role.user
  pub joined : In g (groups_for_user a.username s.groups)
  pub shared : In h (groups_for_user t.username s.groups)
  pub one_group : g.name ≡ h.name

any-In :
    (p : Group → Bool) (gs : List Group) → any p gs ≡ true → (g : Group) × In g gs × (p g ≡ true)
any-In p [] h = absurd (false≢true h)
any-In p (g ∷ gs) h = elim (Bool-cases (p g)) [
  | inl e ↦ (g, inl refl, e)
  | inr e ↦ let (k, i, q) = any-In p gs (rw e at h) in (k, inr i, q)
]

ordinary_of : (role : Role) → is_manager role ≡ false → role ≡ Role.user
unfolding is_manager
ordinary_of Role.admin h = absurd (false≢true (sym h))
ordinary_of Role.group_admin h = absurd (false≢true (sym h))
ordinary_of Role.user h = refl

split_and : (a b : Bool) → not a && b ≡ true → (a ≡ false) × (b ≡ true)
split_and a b h = ground arith

share_group_lem :
    (gs hs : List Group)
    → share_group gs hs ≡ true
    → (g : Group) × (h : Group) × In g gs × In h hs × (g.name ≡ h.name)
unfolding share_group
share_group_lem gs hs e =
    let (g, i, p) = any-In (λ g. any (λ h. g.name == h.name) hs) gs e in
    let (h, j, q) = any-In (λ h. g.name == h.name) hs p in (g, h, i, j, (eq_iff g.name h.name).0 q)

pub manage_lem :
    (actor : AuthenticatedUser) (target : Text) (s : Storage)
    → is_admin actor.role ≡ false
    → can_group_admin_manage_user actor target s ≡ true
    → (a : User) × (t : User) × (g : Group) × (h : Group) × IsManaged actor target s a t g h
unfolding can_group_admin_manage_user
manage_lem actor target s plain e =
    elim (Option-cases (lookup (normalize_username actor.username) s.users)) [
      | inl n ↦ absurd (ground arith)
      | inr (a, m) ↦ elim (Option-cases (lookup (normalize_username target) s.users)) [
        | inl n ↦ absurd (ground arith)
        | inr (t, k) ↦
            let both : not (is_manager t.role)
                  && share_group (groups_for_user a.username s.groups)
                      (groups_for_user t.username s.groups)
                ≡ true =
              ground arith in
            let (ordinary, shares) = split_and (is_manager t.role) _ both in
            let (g, h, i, j, same) =
              share_group_lem (groups_for_user a.username s.groups)
                (groups_for_user t.username s.groups) shares in
            (
              a,
              t,
              g,
              h,
              record {
                account = m;
                managed = k;
                ordinary = ordinary_of t.role ordinary;
                joined = i;
                shared = j;
                one_group = same;
              },
            )
      ]
    ]
