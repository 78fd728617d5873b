-- ===== src/Auth/Data.antt =====
-- auth.py: the stored accounts and groups, their normal forms, and what the operations raise.
use clab_manager.Prelude.{
  ◌≡◌, refl, subst, ℕ, Bool, true, false, not, ◌&&◌, ◌||◌, Option, none, some, List, [], ◌∷◌, ◌++◌,
  all, length, tally, leb, ltb, eqb, if◌then◌else◌, Text, text, ◌==◌, lower, strip, is_empty, elem,
  Dict, lookup, insert, values, sorted, some_or,
}

pub data Role : Type 0 where
  user admin group_admin : Role

pub record User : Type 0 where
  pub username : Text
  pub full_name : Text
  pub email : Text
  pub role : Role
  pub active : Bool
  pub created_at : Text
  pub password_hash : Text
  pub must_change_password : Bool

-- The labs of one machine that a group may use.
pub record Permission : Type 0 where
  pub vm_id : Text
  pub labs : List Text

pub record Group : Type 0 where
  pub name : Text
  pub description : Text
  pub members : List Text
  pub vm_ids : List Text
  pub lab_permissions : List Permission
  pub created_at : Text

pub record Storage : Type 0 where
  pub users : Dict User
  pub groups : Dict Group

pub data Error : Type 0 where
  username_required name_required email_invalid role_invalid password_short : Error
  user_exists user_unknown : Error
  self_deactivation self_demotion self_deletion : Error
  last_admin_role last_admin_active last_admin_deleted : Error
  group_name_invalid group_exists group_unknown group_invalid : Error
  unknown_members : List Text → Error
  already_grouped : Dict Text → Error

pub data Result (A : Type 0) : Type 0 where
  ok : A → Result A
  err : Error → Result A

infixl 5 ◌>>=◌ ◌>>◌
abbrev pub ◌>>=◌ : {A B : Type 0} → Result A → (A → Result B) → Result B
ok a >>= f = f a
err e >>= f = err e

abbrev pub ◌>>◌ : {B : Type 0} → Result (Unit {0}) → Result B → Result B
m >> k = m >>= λ _. k

-- `if c: raise e`
abbrev pub raise_if : Bool → Error → Result (Unit {0})
raise_if true e = err e
raise_if false e = ok tt

abbrev pub or_raise : {A : Type 0} → Option A → Error → Result A
or_raise none e = err e
or_raise (some a) e = ok a

abbrev pub is_admin : Role → Bool
is_admin Role.admin = true
is_admin _ = false

-- A role by its name, in lower case.
unfoldable pub parse_role : Text → Option Role
parse_role name =
    if name == text "user"
    then some Role.user
    else if name == text "admin"
    then some Role.admin
    else if name == text "group-admin"
    then some Role.group_admin
    else none

unfoldable pub normalize_username : Text → Text
normalize_username value = lower (strip value)

unfoldable pub normalize_group_name : Text → Text
normalize_group_name value = lower (strip value)

-- `str(role or "user").strip().lower()`
unfoldable pub normalize_role : Text → Text
normalize_role value = lower (strip (if is_empty value then text "user" else value))

-- The order of Python's `str`.
unfoldable pub text_le : Text → Text → Bool
text_le [] t = true
text_le (a ∷ s) [] = false
text_le (a ∷ s) (b ∷ t) = ltb a b || eqb a b && text_le s t

-- A set of texts from a list.
unfoldable pub distinct : List Text → List Text
distinct [] = []
distinct (x ∷ xs) = let rest = distinct xs in if elem x rest then rest else x ∷ rest

-- `sorted({...})`
unfoldable pub sorted_set : List Text → List Text
unfolding distinct text_le
sorted_set xs = sorted text_le (distinct xs)

-- `[f(x) for x in xs if f(x)]`
unfoldable pub clean_all : (Text → Text) → List Text → List Text
clean_all f [] = []
clean_all f (x ∷ xs) = if is_empty (f x) then clean_all f xs else f x ∷ clean_all f xs

is_alnum : ℕ → Bool
is_alnum c = leb b'a' c && leb c b'z' || leb b'0' c && leb c b'9'

is_name_char : ℕ → Bool
unfolding is_alnum
is_name_char c = is_alnum c || eqb c b'_' || eqb c b'-'

-- `^[a-z0-9][a-z0-9_-]{1,63}$`
unfoldable pub is_group_name : Text → Bool
unfolding is_alnum is_name_char
is_group_name [] = false
is_group_name (c ∷ s) =
    is_alnum c && (all is_name_char s && (leb 1 (length s) && leb (length s) 63))

unfoldable pub normalize_members : List Text → List Text
unfolding sorted_set clean_all normalize_username
normalize_members xs = sorted_set (clean_all normalize_username xs)

is_nil : List Text → Bool
is_nil [] = true
is_nil (_ ∷ _) = false

unfoldable pub normalize_lab_permission : Permission → Option Permission
unfolding sorted_set clean_all is_nil
normalize_lab_permission p =
    let vm_id = strip p.vm_id in
    let labs = sorted_set (clean_all strip p.labs) in
    if is_empty vm_id || is_nil labs then none else some (record { vm_id = vm_id; labs = labs })

-- `permissions_map`: the labs of all entries for a machine come together.
unfoldable pub permissions_map : List Permission → Dict (List Text) → Dict (List Text)
unfolding normalize_lab_permission
permissions_map [] found = found
permissions_map (p ∷ ps) found = permissions_map ps (elim (normalize_lab_permission p) [
  | none ↦ found
  | some q ↦ insert q.vm_id (some_or (lookup q.vm_id found) [] ++ q.labs) found
])

permission_le : Text × List Text → Text × List Text → Bool
permission_le a b = text_le a.0 b.0

permissions_of : Dict (List Text) → List Permission
permissions_of [] = []
permissions_of ((vm_id, labs) ∷ d) =
    record { vm_id = vm_id; labs = sorted_set labs } ∷ permissions_of d

-- A group as given: `_normalize_group` returns none for a name that is no group name.
unfoldable pub normalize_group : Group → Option Group
unfolding normalize_group_name is_group_name normalize_members permissions_map permissions_of
    permission_le
normalize_group g =
    let name = normalize_group_name g.name in
    if is_empty name || not (is_group_name name)
    then none
    else some (record {
      name = name;
      description = strip g.description;
      members = normalize_members g.members;
      vm_ids = sorted_set (clean_all strip g.vm_ids);
      lab_permissions =
          permissions_of (sorted permission_le (permissions_map g.lab_permissions []));
      created_at = g.created_at;
    })

-- Users that are administrators and active.
unfoldable pub is_active_admin : User → Bool
is_active_admin u = is_admin u.role && u.active

unfoldable pub active_admin_count : Dict User → ℕ
unfolding is_active_admin
active_admin_count users = tally is_active_admin (values users)

-- Where the operation returns, what it returns has the property.
abbrev pub Ensures : {A : Type 0} → (A → Type 0) → Result A → Type 0
Ensures P (ok a) = P a
Ensures P (err e) = Unit

pub Ensures-bind :
    {A B : Type 0} (P : B → Type 0) (m : Result A) (f : A → Result B)
    → ((a : A) → m ≡ ok a → Ensures P (f a))
    → Ensures P (m >>= f)
Ensures-bind P (ok a) f k = k a refl
Ensures-bind P (err e) f k = tt

pub Ensures-raise_if :
    {B : Type 0} (P : B → Type 0) (b : Bool) (e : Error) (m : Result B)
    → (b ≡ false → Ensures P m)
    → Ensures P (raise_if b e >> m)
Ensures-raise_if P true e m k = tt
Ensures-raise_if P false e m k = k refl

pub Ensures-or_raise :
    {A B : Type 0} (P : B → Type 0) (o : Option A) (e : Error) (f : A → Result B)
    → ((a : A) → o ≡ some a → Ensures P (f a))
    → Ensures P (or_raise o e >>= f)
Ensures-or_raise P none e f k = tt
Ensures-or_raise P (some a) e f k = k a refl

ok-injective : {A : Type 0} {a b : A} → ok a ≡ ok b → a ≡ b
ok-injective e = cc

pub Ensures-of : {A : Type 0} (P : A → Type 0) (m : Result A) (a : A) → m ≡ ok a → Ensures P m → P a
Ensures-of P (ok b) a e h = subst P (ok-injective e) h
Ensures-of P (err x) a e h = cc
