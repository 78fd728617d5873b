-- ===== src/Jump/Rules.antt =====
-- jump_access.py: the addresses and the users, and the table of rules made of them.
use clab_manager.Prelude.{
  before_slash, ℕ, Bool, true, false, not, ◌&&◌, Option, none, some, List, [], ◌∷◌, ◌++◌, map,
  if◌then◌else◌, leb, Text, text, elem, lower, strip, is_empty, decimal, Dict, lookup, insert,
  some_or, sorted,
}
use clab_manager.Auth.Data.{Role, text_le, sorted_set}
use clab_manager.Auth.Users.{PublicUser}

-- A lab as the listing gives it: the owner of its active reservation (empty for none), and the management
-- addresses of its routers.
pub record LabItem : Type 0 where
  pub owner_username : Text
  pub routers : List Text

abbrev pub Items : Type 0
Items = List (List LabItem)

unfoldable is_user : PublicUser → Bool
is_user u = u.active && elim u.role [ Role.admin ↦ false | _ ↦ true ]

unfoldable names_of : List PublicUser → List Text
unfolding is_user
names_of [] = []
names_of (u ∷ users) =
    let username = lower (strip u.username) in
    if is_user u && not (is_empty username) then username ∷ names_of users else names_of users

unfoldable pub active_non_admin_users : List PublicUser → List Text
unfolding names_of sorted_set
active_non_admin_users users = sorted_set (names_of users)

-- `getpwnam` stands for the accounts of the host.
unfoldable pub uid_by_username : (Text → Option ℕ) → List Text → List (Text × ℕ)
uid_by_username getpwnam [] = []
uid_by_username getpwnam (username ∷ usernames) =
    let rest = uid_by_username getpwnam usernames in
    elim (getpwnam username) [ none ↦ rest | some uid ↦ (username, uid) ∷ rest ]

-- `out.add(x)`
unfoldable pub add : Text → List Text → List Text
add x xs = if elem x xs then xs else xs ++ x ∷ []

-- `allowed.setdefault(owner, set()).add(ip)`
unfoldable pub allow : Text → Text → Dict (List Text) → Dict (List Text)
allow owner ip allowed = insert owner (add ip (some_or (lookup owner allowed) [])) allowed

abbrev pub owner_of : LabItem → Text
owner_of lab = lower (strip lab.owner_username)

-- `ipv4` stands for `ipaddress.ip_address`: the normal form of an address of version 4, none for all else.
module _ (ipv4 : Text → Option Text) where
  unfoldable pub extract_ipv4 : Text → Option Text
  unfolding before_slash
  extract_ipv4 raw = if is_empty (strip raw) then none else ipv4 (strip (before_slash (strip raw)))

  unfoldable pub add_routers : List Text → List Text → List Text
  add_routers [] out = out
  add_routers (r ∷ routers) out =
      add_routers routers (elim (extract_ipv4 r) [ none ↦ out | some ip ↦ add ip out ])

  unfoldable pub gather_labs : List LabItem → List Text → List Text
  gather_labs [] out = out
  gather_labs (lab ∷ labs) out = gather_labs labs (add_routers lab.routers out)

  unfoldable pub gather_router_ips : Items → List Text → List Text
  gather_router_ips [] out = out
  gather_router_ips (vm ∷ items) out = gather_router_ips items (gather_labs vm out)

  unfoldable pub allow_routers : Text → List Text → Dict (List Text) → Dict (List Text)
  allow_routers owner [] allowed = allowed
  allow_routers owner (r ∷ routers) allowed =
      allow_routers owner routers
        (elim (extract_ipv4 r) [ none ↦ allowed | some ip ↦ allow owner ip allowed ])

  unfoldable pub allow_labs : List LabItem → Dict (List Text) → Dict (List Text)
  allow_labs [] allowed = allowed
  allow_labs (lab ∷ labs) allowed = allow_labs labs (
      if is_empty (owner_of lab) then allowed else allow_routers (owner_of lab) lab.routers allowed)

  unfoldable pub gather_allowed_ips_by_user : Items → Dict (List Text) → Dict (List Text)
  gather_allowed_ips_by_user [] allowed = allowed
  gather_allowed_ips_by_user (vm ∷ items) allowed =
      gather_allowed_ips_by_user items (allow_labs vm allowed)

-- A line of the chain.
pub data Rule : Type 0 where
  accept_established accept_root : Rule
  accept_own reject_routers : ℕ → Rule

-- The table: the set of all routers, the set of each user, and the chain.
pub record Table : Type 0 where
  pub routers_all : List Text
  pub user_sets : List (ℕ × List Text)
  pub output : List Rule

unfoldable pub by_uid : List (Text × ℕ) → List (Text × ℕ)
by_uid = sorted (λ p q. leb p.1 q.1)

unfoldable pub sets_of : Dict (List Text) → List (Text × ℕ) → List (ℕ × List Text)
sets_of allowed [] = []
sets_of allowed ((username, uid) ∷ users) =
    (uid, some_or (lookup username allowed) []) ∷ sets_of allowed users

unfoldable pub chain_of : List (Text × ℕ) → List Rule
chain_of [] = []
chain_of ((username, uid) ∷ users) = accept_own uid ∷ reject_routers uid ∷ chain_of users

unfoldable pub table_of : List Text → List (Text × ℕ) → Dict (List Text) → Table
unfolding by_uid sets_of chain_of
table_of router_ips user_uid allowed = record {
  routers_all = router_ips;
  user_sets = sets_of allowed (by_uid user_uid);
  output = accept_established ∷ accept_root ∷ chain_of (by_uid user_uid);
}

unfoldable pub joined : Text → List Text → Text
joined separator [] = []
joined separator (x ∷ []) = x
joined separator (x ∷ y ∷ xs) = x ++ (separator ++ joined separator (y ∷ xs))

unfoldable pub format_set_elements : List Text → Text
unfolding joined text_le
format_set_elements [] = []
format_set_elements (ip ∷ ips) =
    text " elements = { " ++ (joined (text ", ") (sorted text_le (ip ∷ ips)) ++ text " }")

unfoldable pub rule_line : Rule → Text
rule_line accept_established = text "    ct state established,related accept"
rule_line accept_root = text "    meta skuid 0 accept"
rule_line (accept_own uid) =
    text "    meta skuid "
    ++ (decimal uid ++ (text " ip daddr @user_" ++ (decimal uid ++ text " accept")))
rule_line (reject_routers uid) =
    text "    meta skuid "
    ++ (decimal uid ++ text " ip daddr @routers_all reject with icmpx type admin-prohibited")

unfoldable pub set_line : Text → List Text → Text
unfolding format_set_elements
set_line name ips =
    text "  set "
    ++ (name
        ++ (text " { type ipv4_addr; flags interval;" ++ (format_set_elements ips ++ text " }")))

unfoldable pub lines_of : Table → List Text
unfolding rule_line set_line
lines_of t =
    text "table inet vlm_jump {"
    ∷ set_line (text "routers_all") t.routers_all
    ∷ (map (λ s. set_line (text "user_" ++ decimal s.0) s.1) t.user_sets
        ++ (text "  chain output {"
            ∷ text "    type filter hook output priority 0; policy accept;"
            ∷ (map rule_line t.output ++ (text "  }" ∷ text "}" ∷ []))))

unfoldable pub render_rules : List Text → List (Text × ℕ) → Dict (List Text) → Text
unfolding table_of lines_of joined
render_rules router_ips user_uid allowed =
    joined (10 ∷ []) (lines_of (table_of router_ips user_uid allowed)) ++ 10 ∷ []

-- `reconcile_from_items`, where the filter is enabled: the text that is applied.
unfoldable pub reconcile : (Text → Option Text) → (Text → Option ℕ) → List PublicUser → Items → Text
unfolding active_non_admin_users uid_by_username gather_router_ips gather_allowed_ips_by_user
    render_rules
reconcile ipv4 getpwnam users items =
    render_rules (gather_router_ips ipv4 items [])
      (uid_by_username getpwnam (active_non_admin_users users))
      (gather_allowed_ips_by_user ipv4 items [])
