-- ===== src/Auth/Loaded.antt =====
-- auth.py: proofs on `_load_storage`.
use clab_manager.Prelude.{
  ◌≡◌, ◌≢◌, refl, subst, Bool, true, false, Option, none, some, List, [], ◌∷◌, inl, inr, keep,
  arith, Text, ◌==◌, eq_iff, elem, Dict, lookup, insert, has_key, HasUniqueKeys, lookup-insert,
  insert-HasUniqueKeys, Bool-cases, Option-cases,
}
use clab_manager.Auth.Data.{User, Group, Storage}
use clab_manager.Auth.Load.{
  RawUser, Document, normalize_user, read_users, read_group, read_groups, drop_unknown, first_users,
  first_storage, default_admin_record, some_users, read_storage, list_of, load_storage,
}
use clab_manager.Auth.Members.{IsNormal, members-IsNormal}
use clab_manager.Auth.Grants.{elem_of_keep}
use clab_manager.Auth.WellFormed.Changes.{normalize_group-members}

-- Every account stands under its own name.
pub record IsKeyed (users : Dict User) : Type 0 where
  pub unique : HasUniqueKeys users
  pub named : (k : Text) (u : User) → lookup k users ≡ some u → u.username ≡ k

pub record IsLoaded (s : Storage) : Type 0 where
  pub keyed : IsKeyed s.users
  pub nonempty : s.users ≢ []
  pub unique : HasUniqueKeys s.groups
  pub known :
      (k m : Text) (g : Group)
      → lookup k s.groups ≡ some g
      → elem m g.members ≡ true
      → (has_key m s.users ≡ true) × IsNormal m

insert-IsKeyed :
    (u : User) (users : Dict User) → IsKeyed users → IsKeyed (insert u.username u users)
insert-IsKeyed u users w = record {
  unique = insert-HasUniqueKeys u.username u users w.unique;
  named = λ k v l. elim (Bool-cases (u.username == k)) [
    | inl e ↦ ground (arith, lookup-insert u.username k u users, eq_iff u.username k)
    | inr e ↦ w.named k v (ground (arith, lookup-insert u.username k u users))
  ];
}

read_users-IsKeyed :
    (now : Text) (items : List (Option RawUser)) (users : Dict User)
    → IsKeyed users
    → IsKeyed (read_users now items users)
unfolding read_users
read_users-IsKeyed now [] users w = w
read_users-IsKeyed now (none ∷ items) users w = read_users-IsKeyed now items users w
read_users-IsKeyed now (some r ∷ items) users w = elim (Option-cases (normalize_user now r)) [
  | inl e ↦ rw (e, read_users) (read_users-IsKeyed now items users w)
  | inr (u, e) ↦
      rw (e, read_users)
        (read_users-IsKeyed now items (insert u.username u users) (insert-IsKeyed u users w))
]

-- The groups that were read: no name twice, and members under their normal names.
pub record IsRead (groups : Dict Group) : Type 0 where
  pub unique : HasUniqueKeys groups
  pub normal :
      (k m : Text) (g : Group) → lookup k groups ≡ some g → elem m g.members ≡ true → IsNormal m

read_group-IsNormal :
    (now : Text) (g h : Group) (m : Text)
    → read_group now g ≡ some h
    → elem m h.members ≡ true
    → IsNormal m
unfolding read_group
read_group-IsNormal now g h m e i =
    members-IsNormal m g.members (rw (normalize_group-members _ h e) at i)

insert-IsRead :
    (h : Group) (groups : Dict Group)
    → ((m : Text) → elem m h.members ≡ true → IsNormal m)
    → IsRead groups
    → IsRead (insert h.name h groups)
insert-IsRead h groups n w = record {
  unique = insert-HasUniqueKeys h.name h groups w.unique;
  normal = λ k m g l i. elim (Bool-cases (h.name == k)) [
    | inl e ↦ n m (ground (arith, lookup-insert h.name k h groups))
    | inr e ↦ w.normal k m g (ground (arith, lookup-insert h.name k h groups)) i
  ];
}

read_groups-IsRead :
    (now : Text) (items : List (Option Group)) (groups : Dict Group)
    → IsRead groups
    → IsRead (read_groups now items groups)
unfolding read_groups
read_groups-IsRead now [] groups w = w
read_groups-IsRead now (none ∷ items) groups w = read_groups-IsRead now items groups w
read_groups-IsRead now (some g ∷ items) groups w = elim (Option-cases (read_group now g)) [
  | inl e ↦ rw (e, read_groups) (read_groups-IsRead now items groups w)
  | inr (h, e) ↦
      rw (e, read_groups)
        (read_groups-IsRead now items (insert h.name h groups)
          (insert-IsRead h groups (λ m. read_group-IsNormal now g h m e) w))
]

module _ (users : Dict User) where
  known_part : Group → Group
  known_part g = record g { members = keep (λ m. has_key m users) g.members }

  lookup-drop_unknown :
      (k : Text) (groups : Dict Group) (h : Group)
      → lookup k (drop_unknown users groups) ≡ some h
      → (g : Group) × (lookup k groups ≡ some g) × (h ≡ known_part g)
  unfolding drop_unknown known_part
  lookup-drop_unknown k [] h e = absurd (ground arith)
  lookup-drop_unknown k ((j, g) ∷ groups) h e = elim (Bool-cases (j == k)) [
    | inl s ↦ (g, ground arith, ground arith)
    | inr d ↦
        let (g', l, p) = lookup-drop_unknown k groups h (ground arith) in (g', ground arith, p)
  ]

  lookup-drop_unknown-none :
      (k : Text) (groups : Dict Group)
      → lookup k groups ≡ none
      → lookup k (drop_unknown users groups) ≡ none
  unfolding drop_unknown
  lookup-drop_unknown-none k [] e = refl
  lookup-drop_unknown-none k ((j, g) ∷ groups) e = ground (arith, lookup-drop_unknown-none k groups)

  drop_unknown-HasUniqueKeys :
      (groups : Dict Group) → HasUniqueKeys groups → HasUniqueKeys (drop_unknown users groups)
  unfolding drop_unknown
  drop_unknown-HasUniqueKeys [] h = tt
  drop_unknown-HasUniqueKeys ((j, g) ∷ groups) h =
      (lookup-drop_unknown-none j groups h.0, drop_unknown-HasUniqueKeys groups h.1)

  -- Members that are left have an account.
  loaded :
      (groups : Dict Group)
      → IsKeyed users
      → users ≢ []
      → IsRead groups
      → IsLoaded (record { users = users; groups = drop_unknown users groups })
  unfolding known_part
  loaded groups w ne r = record {
    keyed = w;
    nonempty = ne;
    unique = drop_unknown-HasUniqueKeys groups r.unique;
    known = λ k m h l i.
        let (g, l', p) = lookup-drop_unknown k groups h l in
        let (i', has) = elem_of_keep (λ x. has_key x users) m g.members (rw p at i) in
        (has, r.normal k m g l' i');
  }

-- What holds of a storage that is returned, if one is.
abbrev pub Loads : Option (Storage × Bool) → Type 0
Loads none = Unit
Loads (some (s, saved)) = IsLoaded s

first-IsKeyed : (u : User) → IsKeyed ((u.username, u) ∷ [])
first-IsKeyed u = record {
  unique = (refl, tt);
  named = λ k v l. ground (arith, eq_iff u.username k);
}

cons_ne : {V : Type 0} (v : V) (xs : List V) → (v ∷ xs) ≢ []
cons_ne v xs e = cc

first_storage-IsLoaded : (hash : Option Text) (now : Text) → Loads (first_storage hash now)
unfolding first_storage first_users default_admin_record drop_unknown
first_storage-IsLoaded none now = tt
first_storage-IsLoaded (some hash) now =
    loaded ((_, default_admin_record hash now) ∷ []) []
      (first-IsKeyed (default_admin_record hash now)) (cons_ne _ _)
      (record { unique = tt; normal = λ k m g l. absurd (ground arith) })

some-injective : {A : Type 0} (a b : A) → some a ≡ some b → a ≡ b
some-injective a b e = ground arith

some_users-IsKeyed :
    (hash : Option Text) (now : Text) (users users' : Dict User)
    → IsKeyed users
    → some_users hash now users ≡ some users'
    → IsKeyed users' × (users' ≢ [])
unfolding some_users first_users default_admin_record
some_users-IsKeyed none now [] users' w e = absurd (ground arith)
some_users-IsKeyed (some hash) now [] users' w e =
    subst (λ d. IsKeyed d × (d ≢ [])) (some-injective _ users' e)
      (first-IsKeyed (default_admin_record hash now), cons_ne _ _)
some_users-IsKeyed hash now (u ∷ users) users' w e =
    subst (λ d. IsKeyed d × (d ≢ [])) (some-injective (u ∷ users) users' e) (w, cons_ne u users)

read_storage-IsLoaded :
    (hash : Option Text) (now : Text) (raw_users : List (Option RawUser))
    (raw_groups : List (Option Group)) (needs_save : Bool)
    → Loads (read_storage hash now raw_users raw_groups needs_save)
unfolding read_storage
read_storage-IsLoaded hash now raw_users raw_groups needs_save =
    let read =
      read_users-IsKeyed now raw_users []
        (record { unique = tt; named = λ k u l. absurd (ground arith) }) in
    elim (Option-cases (some_users hash now (read_users now raw_users []))) [
      | inl e ↦ rw (e, Loads) tt
      | inr (users, e) ↦
          let (keyed, ne) =
            some_users-IsKeyed hash now (read_users now raw_users []) users read e in
          rw (e, Loads)
            (loaded users (read_groups now raw_groups []) keyed ne (
              read_groups-IsRead now raw_groups []
                (record { unique = tt; normal = λ k m g l. absurd (ground arith) })))
    ]

-- Whatever the file holds, a storage that load_storage returns has an account, no account and no
-- group twice, every account under its own name, and as members of its groups only stored accounts
-- by their normal names.
pub load_storage-IsLoaded :
    (hash : Option Text) (now : Text) (document : Document) → Loads (load_storage hash now document)
unfolding load_storage
load_storage-IsLoaded hash now Document.no_file = first_storage-IsLoaded hash now
load_storage-IsLoaded hash now Document.garbled = first_storage-IsLoaded hash now
load_storage-IsLoaded hash now Document.scalar = read_storage-IsLoaded hash now [] [] true
load_storage-IsLoaded hash now (Document.listing users) =
    read_storage-IsLoaded hash now users [] true
load_storage-IsLoaded hash now (Document.object users none) =
    read_storage-IsLoaded hash now (list_of users) [] true
load_storage-IsLoaded hash now (Document.object users (some groups)) =
    read_storage-IsLoaded hash now (list_of users) (list_of groups) false
