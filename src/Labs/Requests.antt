-- ===== src/Labs/Requests.antt =====
-- central/src/services/lab_requests.py: the requests for new labs, and how administrators handle them.
use clab_manager.Prelude.{
  Bool, true, false, ◌||◌, Option, none, some, List, [], ◌∷◌, ◌++◌, keep, first, length, ltb,
  some_or, if◌then◌else◌, Text, text, ◌==◌, elem, lower, strip, is_empty, sorted,
}
use clab_manager.Auth.Data.{text_le}

pub record LabRequest : Type 0 where
  pub id : Text
  pub owner_username : Text
  pub owner_full_name : Text
  pub owner_email : Text
  pub suggestion_title : Text
  pub need_details : Text
  pub resources_requirements : Text
  pub requested_router_images : Text
  pub status : Text
  pub assigned_admin_username : Option Text
  pub assigned_admin_full_name : Option Text
  pub assigned_at : Option Text
  pub admin_response : Text
  pub created_at : Text
  pub updated_at : Text
  pub updated_by : Text

-- The exceptions that the operations raise.
pub data Problem : Type 0 where
  invalid_user details_too_short invalid_request invalid_admin invalid_status unknown_request :
      Problem

pub data Reply (A : Type 0) : Type 0 where
  done : A → Reply A
  raised : Problem → Reply A

abbrev pub allowed_statuses : List Text
allowed_statuses = text "en_cours_etude" ∷ text "pris_en_compte" ∷ text "reponse" ∷ []

unfoldable pub normalize_status : Text → Reply Text
normalize_status value =
    let status = lower (strip value) in
    if elem status allowed_statuses then done status else raised Problem.invalid_status

-- `a or b` on texts.
unfoldable pub or_text : Text → Text → Text
or_text a b = if is_empty a then b else a

-- The key that `_sort_desc` orders by.
unfoldable pub last_change : LabRequest → Text
unfolding or_text
last_change r = or_text r.updated_at r.created_at

unfoldable pub newer : LabRequest → LabRequest → Bool
unfolding last_change
newer r q = text_le (last_change q) (last_change r)

unfoldable pub sort_desc : List LabRequest → List LabRequest
unfolding newer
sort_desc items = sorted newer items

pub record Suggestion : Type 0 where
  pub owner_username : Text
  pub owner_full_name : Text
  pub owner_email : Text
  pub suggestion_title : Text
  pub need_details : Text
  pub resources_requirements : Text
  pub requested_router_images : Text

unfoldable pub new_request : Suggestion → Text → Text → LabRequest
unfolding or_text
new_request s id now = record {
  id = id;
  owner_username = lower (strip s.owner_username);
  owner_full_name = strip s.owner_full_name;
  owner_email = strip s.owner_email;
  suggestion_title = or_text (strip s.suggestion_title) (text "Suggestion LAB");
  need_details = strip s.need_details;
  resources_requirements = strip s.resources_requirements;
  requested_router_images = strip s.requested_router_images;
  status = text "pris_en_compte";
  assigned_admin_username = none;
  assigned_admin_full_name = none;
  assigned_at = none;
  admin_response = [];
  created_at = now;
  updated_at = now;
  updated_by = lower (strip s.owner_username);
}

-- `id` is what `uuid4` drew. The result is the new request with the items that are saved.
unfoldable pub create_request :
    Suggestion → Text → Text → List LabRequest → Reply (LabRequest × List LabRequest)
unfolding new_request sort_desc
create_request s id now items =
    if is_empty (lower (strip s.owner_username))
    then raised Problem.invalid_user
    else if ltb (length (strip s.need_details)) 8
    then raised Problem.details_too_short
    else done (new_request s id now, sort_desc (items ++ new_request s id now ∷ []))

unfoldable pub is_visible : Text → Bool → LabRequest → Bool
is_visible actor actor_is_admin r = actor_is_admin || lower (strip r.owner_username) == actor

unfoldable pub list_requests : Text → Bool → List LabRequest → List LabRequest
unfolding sort_desc is_visible
list_requests actor_username actor_is_admin items =
    sort_desc (keep (is_visible (lower (strip actor_username)) actor_is_admin) items)

unfoldable pub has_id : Text → LabRequest → Bool
has_id key r = strip r.id == key

unfoldable pub get_request : Text → List LabRequest → Option LabRequest
unfolding has_id
get_request request_id items =
    if is_empty (strip request_id) then none else first (has_id (strip request_id)) items

-- The loop that changes the first request with the id.
unfoldable pub update_first :
    Text → (LabRequest → LabRequest) → List LabRequest → Option (LabRequest × List LabRequest)
unfolding has_id
update_first key f [] = none
update_first key f (r ∷ items) = elim (has_id key r) [
  | true ↦ some (f r, f r ∷ items)
  | false ↦ elim (update_first key f items) [ none ↦ none | some (u, rest) ↦ some (u, r ∷ rest) ]
]

-- The loop that takes the first request with the id out.
unfoldable pub remove_first : Text → List LabRequest → Option (LabRequest × List LabRequest)
unfolding has_id
remove_first key [] = none
remove_first key (r ∷ items) = elim (has_id key r) [
  | true ↦ some (r, items)
  | false ↦ elim (remove_first key items) [ none ↦ none | some (u, rest) ↦ some (u, r ∷ rest) ]
]

-- What a loop found is saved in order; nothing found is an error.
unfoldable pub save_found :
    Option (LabRequest × List LabRequest) → Reply (LabRequest × List LabRequest)
unfolding sort_desc
save_found none = raised Problem.unknown_request
save_found (some (r, items)) = done (r, sort_desc items)

unfoldable pub claimed : Text → Text → Text → LabRequest → LabRequest
unfolding or_text
claimed admin full_name now r = record r {
  assigned_admin_username = some admin;
  assigned_admin_full_name = some (or_text (strip full_name) admin);
  assigned_at = some now;
  updated_at = now;
  updated_by = admin;
  status =
      if elem (lower (strip r.status)) allowed_statuses then r.status else text "pris_en_compte";
}

unfoldable pub claim_request :
    Text → Text → Text → Text → List LabRequest → Reply (LabRequest × List LabRequest)
unfolding claimed update_first save_found
claim_request request_id admin_username admin_full_name now items =
    let admin = lower (strip admin_username) in
    if is_empty (strip request_id)
    then raised Problem.invalid_request
    else if is_empty admin
    then raised Problem.invalid_admin
    else save_found (update_first (strip request_id) (claimed admin admin_full_name now) items)

-- `not updated.get("assigned_admin_username")`
unfoldable pub is_unassigned : LabRequest → Bool
is_unassigned r = is_empty (some_or r.assigned_admin_username [])

unfoldable pub answered : Text → Text → Option Text → Option Text → Text → LabRequest → LabRequest
unfolding or_text is_unassigned
answered admin full_name status response now r =
    let changed : LabRequest = record r {
      status = some_or status r.status;
      admin_response = elim response [ none ↦ r.admin_response | some a ↦ strip a ];
      updated_at = now;
      updated_by = admin;
    } in
    if is_unassigned r
    then record changed {
      assigned_admin_username = some admin;
      assigned_admin_full_name = some (or_text (strip full_name) admin);
      assigned_at = some now;
    }
    else changed

-- The new status, where one is given.
unfoldable pub given_status : Option Text → Reply (Option Text)
unfolding normalize_status
given_status none = done none
given_status (some value) = elim (normalize_status value) [
  | done status ↦ done (some status)
  | raised p ↦ raised p
]

-- The part of `update_request_by_admin` after the tests of the id and of the administrator.
unfoldable pub answer :
    Text
    → Text
    → Text
    → Option Text
    → Option Text
    → Text
    → List LabRequest
    → Reply (LabRequest × List LabRequest)
unfolding given_status answered update_first save_found
answer request_id admin full_name status response now items = elim (given_status status) [
  | raised p ↦ raised p
  | done s ↦
      save_found (update_first (strip request_id) (answered admin full_name s response now) items)
]

unfoldable pub update_request_by_admin :
    Text
    → Text
    → Text
    → Option Text
    → Option Text
    → Text
    → List LabRequest
    → Reply (LabRequest × List LabRequest)
unfolding answer
update_request_by_admin request_id admin_username admin_full_name status response now items =
    let admin = lower (strip admin_username) in
    if is_empty (strip request_id)
    then raised Problem.invalid_request
    else if is_empty admin
    then raised Problem.invalid_admin
    else answer request_id admin admin_full_name status response now items

unfoldable pub delete_request : Text → List LabRequest → Reply (LabRequest × List LabRequest)
unfolding remove_first save_found
delete_request request_id items =
    if is_empty (strip request_id)
    then raised Problem.invalid_request
    else save_found (remove_first (strip request_id) items)
