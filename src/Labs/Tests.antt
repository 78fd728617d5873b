-- ===== src/Labs/Tests.antt =====
-- The properties of the locks, the sandbox flags and the requests on concrete data.
use clab_manager.Prelude.{
  ℕ, ◌*◌, ◌≤◌, Dict, sorted, ◌≡◌, ◌↔◌, refl, true, false, none, some, List, [], ◌∷◌, tally, arith,
  text, ◌==◌, lower, strip, lstrip, rstrip, is_empty, In, Ordered, ◌⊎◌,
}
use clab_manager.Labs.Locks.{Locks, is_locked, set_locked}
use clab_manager.Labs.Capacity.{
  Resources, budgets, required, memory_of, cpu_of, profile_of, estimate,
}
use clab_manager.Labs.Fitting.{estimate-fits}
use clab_manager.Labs.Requests.{
  LabRequest, done, new_request, newer, list_requests, has_id, get_request, claim_request,
  update_request_by_admin, delete_request,
}
use clab_manager.Labs.Flags.{set_locked-elsewhere}
use clab_manager.Labs.Workflow.{IsStored, Saves, update_request-IsStored, list_requests_iff}
use clab_manager.Labs.Handled.{claim_request-get, delete_request-get}

abbrev locks : Locks
locks =
    (text "vm1::bgp", record { locked = true; locked_by = text "root"; locked_at = text "t" }) ∷ []

differ : (text "vm2" == text "vm1") ≡ false
unfolding ◌==◌
differ = refl

set_locked-elsewhere_example :
    is_locked
      (text "vm1")
      (text "bgp")
      (set_locked (text "vm2") (text "bgp") false none (text "t") locks).1
    ≡ is_locked (text "vm1") (text "bgp") locks
set_locked-elsewhere_example =
    set_locked-elsewhere (text "vm2") (text "bgp") (text "vm1") (text "bgp") false none (text "t")
      locks (ground arith) (ground arith) differ

abbrev asked : LabRequest
asked =
    new_request
      (record {
        owner_username = text "Bob";
        owner_full_name = text "Bob";
        owner_email = [];
        suggestion_title = [];
        need_details = text "a lab for bgp";
        resources_requirements = [];
        requested_router_images = [];
      })
      (text "r1") (text "t1")

abbrev items : List LabRequest
items = asked ∷ []

items-IsStored : IsStored items
unfolding new_request lower strip lstrip rstrip ◌==◌
items-IsStored = record { known = (refl, tt); ordered = (tt, tt) }

id_given : is_empty (strip (text "r1")) ≡ false
unfolding strip lstrip rstrip
id_given = refl

admin_given : is_empty (lower (strip (text "Root"))) ≡ false
unfolding lower strip lstrip rstrip
admin_given = refl

one_item : tally (has_id (strip (text "r1"))) items ≡ 1
unfolding has_id new_request strip lstrip rstrip ◌==◌
one_item = refl

claim_request-get_example :
    (r : LabRequest) × (saved : List LabRequest) × (claim_request
        (text "r1")
        (text "Root")
        []
        (text "t2")
        items
      ≡ done (r, saved))
    × (get_request (text "r1") saved ≡ some r)
    × (r.assigned_admin_username ≡ some (lower (strip (text "Root"))))
claim_request-get_example =
    claim_request-get (text "r1") (text "Root") [] (text "t2") items id_given admin_given one_item

delete_request-get_example :
    (r : LabRequest) × (saved : List LabRequest) × (delete_request (text "r1") items
      ≡ done (r, saved))
    × (has_id (strip (text "r1")) r ≡ true)
    × (get_request (text "r1") saved ≡ none)
delete_request-get_example = delete_request-get (text "r1") items id_given one_item

update_request-IsStored_example : Saves IsStored (
    update_request_by_admin
      (text "r1")
      (text "Root")
      []
      (some (text " Reponse "))
      (some (text "done"))
      (text "t2")
      items)
update_request-IsStored_example =
    update_request-IsStored (text "r1") (text "Root") [] (some (text " Reponse "))
      (some (text "done")) (text "t2") items items-IsStored

list_requests_iff_example :
    Ordered newer (list_requests (text "BOB") false items)
    × (In asked (list_requests (text "BOB") false items) ↔ (
        In asked items
        × ((false ≡ true) ⊎ (lower (strip asked.owner_username) ≡ lower (strip (text "BOB"))))))
list_requests_iff_example = list_requests_iff asked (text "BOB") false items

-- Eight routers of 4096 MB on a machine with 16 GB.
abbrev machine : Resources
machine = record {
  memory_total = 16 * 1024 * 1024 * 1024;
  memory_used = 0;
  cpu_percent = 0;
  cpu_count = 8;
}

abbrev eight : Dict ℕ
eight = (text "juniper_vmx", 8) ∷ []

too_many : (estimate machine 20 (text "physical") eight []).ok ≡ false
unfolding estimate sorted profile_of lower strip ◌==◌
too_many = refl

estimate-fits_example :
    (required memory_of (estimate machine 20 (text "physical") eight []).suggested_by_kind * 100
      ≤ (budgets machine 20 (text "physical")).0)
    × (required cpu_of (estimate machine 20 (text "physical") eight []).suggested_by_kind * 100
        ≤ (budgets machine 20 (text "physical")).1)
estimate-fits_example = estimate-fits machine 20 (text "physical") eight [] too_many
