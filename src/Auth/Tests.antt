-- ===== src/Auth/Tests.antt =====
-- The properties of accounts, groups, tokens and sessions on concrete data.
use clab_manager.Prelude.{
  ◌≡◌, refl, true, false, ◌||◌, none, some, [], ◌∷◌, any, arith, Text, text, ◌==◌, eq_iff, elem,
  lower, strip, lstrip, rstrip, Dict, lookup, has_key, In, inl,
}
use clab_manager.Auth.Data.{
  Role, User, Group, Storage, ok, is_admin, normalize_group_name, normalize_username,
  active_admin_count,
}
use clab_manager.Auth.Membership.{groups_for_user, remove_user_from_groups}
use clab_manager.Auth.Users.{delete_user}
use clab_manager.Auth.Groups.{delete_group}
use clab_manager.Auth.Access.{
  AuthenticatedUser, Item, build_authenticated_user, can_access_lab, filter_visible, get_user,
}
use clab_manager.Auth.Session.{
  Activity, Session, Denial, granted, denied, get_current_user, require_admin,
}
use clab_manager.Auth.Tokens.{Tokens, Reason, Reply, generate_reset_token, consume_reset_token}
use clab_manager.Auth.Admins.{HasAdmin}
use clab_manager.Auth.History.{Change, Changes, IsSound, Changes-IsSound}
use clab_manager.Auth.Members.{IsNormal}
use clab_manager.Auth.WellFormed.{IsGrouped, IsJoinable, insert-IsGrouped}
use clab_manager.Auth.WellFormed.Operations.{IsWellFormed}
use clab_manager.Auth.Grants.{
  grants, can_access_lab_iff, filter_visible-IsAllowed, filter_visible-IsComplete,
}
use clab_manager.Auth.OneTime.{consume-generate, consume-consume, generate-IsLatest}
use clab_manager.Auth.Load.{Document, load_storage}
use clab_manager.Auth.Loaded.{Loads, load_storage-IsLoaded}
use clab_manager.Auth.Signed.{
  IsAdmitted, answers, get_current_user-IsAdmitted, require_admin-IsAdmin, answers_expired,
}

abbrev account : Text → Role → User
account name role = record {
  username = name;
  full_name = name;
  email = text "a@b";
  role = role;
  active = true;
  created_at = [];
  password_hash = [];
  must_change_password = false;
}

-- One group with one member, a machine and a lab of another machine.
abbrev network : Group
network = record {
  name = text "net";
  description = [];
  members = text "bob" ∷ [];
  vm_ids = text "vm1" ∷ [];
  lab_permissions = record { vm_id = text "vm2"; labs = text "bgp" ∷ [] } ∷ [];
  created_at = [];
}

abbrev root_account : User
root_account = account (text "root") Role.admin

abbrev bob_account : User
bob_account = account (text "bob") Role.user

abbrev people : Dict User
people = (text "root", root_account) ∷ (text "bob", bob_account) ∷ []

abbrev sample : Storage
sample = record { users = people; groups = (text "net", network) ∷ [] }

people_unique : lookup (text "root") ((text "bob", bob_account) ∷ []) ≡ none
unfolding ◌==◌
people_unique = refl

sample-HasAdmin : HasAdmin sample
unfolding active_admin_count
sample-HasAdmin = omega arith

only_bob : (m : Text) → elem m (text "bob" ∷ []) ≡ true → text "bob" ≡ m
only_bob m i = (eq_iff (text "bob") m).0 (ground arith)

bob_known : has_key (text "bob") people ≡ true
unfolding ◌==◌
bob_known = refl

bob-IsNormal : IsNormal (text "bob")
unfolding normalize_username lower strip lstrip rstrip
bob-IsNormal = refl

empty-IsGrouped : IsGrouped people []
empty-IsGrouped = record {
  unique = tt;
  known = λ k m g l i. absurd (ground arith);
  normal = λ k m g l i. absurd (ground arith);
  single = λ j k m g h l. absurd (ground arith);
}

network-IsJoinable : IsJoinable people [] (text "net") network
network-IsJoinable = record {
  known = λ m i. rw (← only_bob m i) bob_known;
  normal = λ m i. rw (← only_bob m i) bob-IsNormal;
  apart = λ k m h l. absurd (ground arith);
}

sample-IsWellFormed : IsWellFormed sample
sample-IsWellFormed = record {
  users_unique = (people_unique, (refl, tt));
  grouped = insert-IsGrouped people [] empty-IsGrouped (text "net") network network-IsJoinable;
}

abbrev hash_password : Text → Text
hash_password p = p

-- Without the group, and then without Bob.
abbrev ungrouped : Storage
ungrouped = record { users = people; groups = [] }

abbrev alone : Storage
alone = record { users = (text "root", root_account) ∷ []; groups = [] }

no_group : delete_group (text "net") sample ≡ ok (tt, ungrouped)
unfolding delete_group normalize_group_name normalize_username lower strip lstrip rstrip ◌==◌
no_group = refl

no_bob : delete_user (text "bob") (text "root") ungrouped ≡ ok (tt, alone)
unfolding delete_user remove_user_from_groups normalize_username lower strip lstrip rstrip ◌==◌
no_bob = refl

Changes-IsSound_example : IsSound alone
Changes-IsSound_example =
    Changes-IsSound hash_password
      (Changes.then_changed (Change.deletes_group (text "net") tt no_group) (
        Changes.then_changed (Change.deletes_user (text "bob") (text "root") tt no_bob)
          Changes.unchanged))
      (record { well_formed = sample-IsWellFormed; has_admin = sample-HasAdmin })

can_access_lab_iff_example :
    can_access_lab (build_authenticated_user bob_account sample.groups) (text "vm2") (text "bgp")
    ≡ (is_admin Role.user
        || any (grants (text "vm2") (text "bgp")) (groups_for_user (text "bob") sample.groups))
can_access_lab_iff_example = can_access_lab_iff (text "vm2") (text "bgp") bob_account sample.groups

abbrev bob_user : AuthenticatedUser
bob_user = build_authenticated_user bob_account sample.groups

abbrev two_labs : Item
two_labs = record { id = text "vm2"; labs = text "bgp" ∷ text "ospf" ∷ [] }

bob_may : can_access_lab bob_user (text "vm2") (text "bgp") ≡ true
unfolding can_access_lab build_authenticated_user groups_for_user ◌==◌
bob_may = refl

lists : elem (text "bgp") two_labs.labs ≡ true
unfolding ◌==◌
lists = refl

listed_once : elem (text "bgp") (text "bgp" ∷ []) ≡ true
unfolding ◌==◌
listed_once = refl

bob_normal_known : has_key (normalize_username (text "bob")) people ≡ true
unfolding ◌==◌ normalize_username lower strip lstrip rstrip
bob_normal_known = refl

filter_visible-IsComplete_example :
    (shown : Item) × In shown (filter_visible bob_user (two_labs ∷ []))
    × (shown.id ≡ text "vm2")
    × (elem (text "bgp") shown.labs ≡ true)
filter_visible-IsComplete_example =
    filter_visible-IsComplete bob_user (text "bgp") (two_labs ∷ []) two_labs (inl refl) lists
      bob_may

abbrev one_lab : Item
one_lab = record { id = text "vm2"; labs = text "bgp" ∷ [] }

one_shown : In one_lab (filter_visible bob_user (two_labs ∷ []))
unfolding filter_visible build_authenticated_user groups_for_user ◌==◌
one_shown = inl refl

filter_visible-IsAllowed_example :
    (item : Item) × In item (two_labs ∷ [])
    × (item.id ≡ text "vm2")
    × (elem (text "bgp") item.labs ≡ true)
    × (can_access_lab bob_user (text "vm2") (text "bgp") ≡ true)
filter_visible-IsAllowed_example =
    filter_visible-IsAllowed bob_user (text "bgp") (two_labs ∷ []) one_lab one_shown listed_once

consume-generate_example :
    (consume_reset_token
      (text "t1")
      5
      (generate_reset_token (text "t1") 3 4 (text "bob") sample []).1).0
    ≡ Reply.ok (normalize_username (text "bob"))
consume-generate_example =
    consume-generate (text "t1") 3 4 5 (text "bob") sample [] bob_normal_known (omega arith)

abbrev older : Tokens
older = (text "t0", record { username = text "bob"; expires_at = 9 }) ∷ []

consume-consume_example :
    (consume_reset_token (text "t0") 4 (consume_reset_token (text "t0") 3 older).1).0
    ≡ Reply.err Reason.invalid_link
consume-consume_example = consume-consume (text "t0") 3 4 older

newest :
    (consume_reset_token
      (text "t1")
      5
      (generate_reset_token (text "t1") 3 4 (text "bob") sample older).1).0
    ≡ Reply.ok (normalize_username (text "bob"))
unfolding consume_reset_token generate_reset_token normalize_username lower strip lstrip rstrip ◌==◌
newest = refl

generate-IsLatest_example : text "t1" ≡ text "t1"
generate-IsLatest_example =
    generate-IsLatest (text "t1") (text "t1") 3 4 5 (text "bob") sample older bob_normal_known
      newest

abbrev signed : Text → Session
signed name = record { username = name; last_activity = Activity.at 10 }

abbrev refreshed : Text → Session
refreshed name = record { username = name; last_activity = Activity.at 20 }

bob_enters :
    get_current_user 20 (text "/api/labs") (signed (text "bob")) sample
    ≡ (granted bob_user, refreshed (text "bob"))
unfolding get_current_user get_user build_authenticated_user normalize_username lower strip lstrip
    rstrip ◌==◌
bob_enters = refl

get_current_user-IsAdmitted_example :
    IsAdmitted 20 (text "/api/labs") (signed (text "bob")) sample bob_user (refreshed (text "bob"))
get_current_user-IsAdmitted_example =
    get_current_user-IsAdmitted 20 (text "/api/labs") (signed (text "bob")) sample bob_user
      (refreshed (text "bob")) bob_enters

root_enters :
    require_admin 20 (text "/api/users") (signed (text "root")) sample
    ≡ (granted (build_authenticated_user root_account sample.groups), refreshed (text "root"))
unfolding require_admin get_user build_authenticated_user normalize_username lower strip lstrip
    rstrip ◌==◌
root_enters = refl

require_admin-IsAdmin_example :
    (a : User) × (lookup (normalize_username (normalize_username (text "root"))) people ≡ some a)
    × (a.active ≡ true)
    × (is_admin a.role ≡ true)
require_admin-IsAdmin_example =
    require_admin-IsAdmin 20 (text "/api/users") (signed (text "root")) sample
      (build_authenticated_user root_account sample.groups) (refreshed (text "root")) root_enters

answers_expired_example :
    answers
      ((20_000_000_000, text "/api/labs") ∷ (20_000_000_001, text "/api/auth/me") ∷ [])
      (signed (text "bob"))
      sample
    ≡ denied Denial.session_expired ∷ denied Denial.unauthenticated ∷ []
answers_expired_example =
    answers_expired 10 20_000_000_000 (text "/api/labs")
      ((20_000_000_001, text "/api/auth/me") ∷ []) (signed (text "bob")) sample refl (omega arith)

-- A file of the older format, with an account, one without a name, and an item that is no object.
abbrev old_file : Document
old_file = Document.listing (
    some (record {
      username = text " Root ";
      full_name = text "Root";
      email = text "r@b";
      role = text "admin";
      active = true;
      created_at = [];
      password_hash = text "h";
      must_change_password = false;
    })
    ∷ none
    ∷ [])

load_storage-IsLoaded_example : Loads (load_storage none (text "now") old_file)
load_storage-IsLoaded_example = load_storage-IsLoaded none (text "now") old_file
