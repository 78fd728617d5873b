-- ===== src/Routes/Tests.antt =====
-- The properties of the routes on concrete requests.
use clab_manager.Prelude.{
  ℕ, inl, ◌*◌, ◌≡◌, refl, true, false, [], ◌∷◌, text, ◌==◌, lower, strip, sorted,
}
use clab_manager.Prelude.Int.{pos, ◌+ℤ◌}
use clab_manager.Reservations.Data.{
  Stamp, Hours, Entry, hour, lab_key, entry_start, entry_end, is_active_now, entries_for_key,
  set_entries_for_key, slot_entries, is_unexpired, same_owner,
}
use clab_manager.Reservations.Booking.{reserve_lab}
use clab_manager.Reservations.Queries.{
  get_reservation, release_lab, list_scheduled_reservations, cancel_scheduled_reservation,
  is_scheduled,
}
use clab_manager.Auth.Data.{Role}
use clab_manager.Auth.Access.{AuthenticatedUser, can_access_lab}
use clab_manager.Labs.Sandbox.{is_enabled, is_modified}
use clab_manager.Routes.State.{Action, Mark, Service, Response, success}
use clab_manager.Routes.Booking.{Call, create_route, cancel_route}
use clab_manager.Routes.Release.{Reset, release_route}
use clab_manager.Routes.Owned.{IsOwned, changed-IsOwned}
use clab_manager.Routes.Answers.{IsReleased, create_route_lem, release_route_lem}

abbrev ann : AuthenticatedUser
ann = record {
  username = text "ann";
  full_name = text "Ann";
  email = [];
  role = Role.admin;
  active = true;
  must_change_password = false;
  groups = [];
  full_vm_access = [];
  lab_access = [];
}

abbrev call : Call
call = record {
  vm_id = text "vm1";
  lab_name = text "bgp";
  user = ann;
  draws = record { now = λ _. 101 * hour; fresh = λ _ _. text "id" };
}

abbrev booking : Entry
booking = record {
  reservation_id = text "id";
  vm_id = text "vm1";
  lab_name = text "bgp";
  reserved_by = text "Ann";
  owner_username = text "ann";
  email = [];
  duration_hours = Hours.num (pos (2 * hour));
  reserved_at = Stamp.aware (101 * hour);
  starts_at = Stamp.aware (102 * hour);
  expires_at = Stamp.aware (104 * hour);
  updated_at = Stamp.missing;
  extended_at = Stamp.missing;
}

-- Nothing is booked.
abbrev idle : Service
idle = record {
  storage = record { users = []; groups = [] };
  bookings = [];
  locks = [];
  sandboxes = record { labs = []; modified = [] };
  events = [];
}

abbrev reset : Service → Reset × Service
reset s = (Reset.restored, s)

abbrev created : Response Entry × Service
created = create_route call (pos (2 * hour)) (Stamp.aware (102 * hour)) idle

creates : created ≡ (success booking, created.1)
unfolding create_route reserve_lab can_access_lab sorted ◌+ℤ◌ lab_key set_entries_for_key
    entries_for_key slot_entries ◌==◌ is_unexpired entry_end entry_start same_owner is_active_now
    lower
creates = refl

create_route_lem_example :
    (can_access_lab ann (text "vm1") (text "bgp") ≡ true)
    × (text "ann" ≡ text "ann")
    × (created.1.events
        ≡ record {
          username = text "ann";
          action = Action.reserving;
          mark = Mark.fine;
          vm_id = text "vm1";
          lab_name = text "bgp";
        }
          ∷ [])
create_route_lem_example =
    create_route_lem call (pos (2 * hour)) (Stamp.aware (102 * hour)) idle created.1 booking creates

abbrev running : Entry
running = record booking { starts_at = Stamp.aware (100 * hour) }

-- Ann holds the lab, and its sandbox was changed.
abbrev busy : Service
busy = record idle {
  bookings = set_entries_for_key [] (lab_key (text "vm1") (text "bgp")) (running ∷ []);
  sandboxes = record {
    labs = (text "vm1::bgp", true) ∷ [];
    modified = (text "vm1::bgp", true) ∷ [];
  };
}

abbrev released : Response Entry × Service
released = release_route (text "vm1" ∷ []) reset call busy

releases : released ≡ (success running, released.1)
unfolding release_route get_reservation release_lab can_access_lab sorted ◌+ℤ◌ lab_key
    set_entries_for_key entries_for_key slot_entries ◌==◌ is_unexpired entry_end entry_start
    same_owner is_active_now lower strip is_enabled is_modified
releases = refl

release_route_lem_example :
    (found : Entry) × IsReleased (text "vm1" ∷ []) reset call busy released.1 found
release_route_lem_example =
    release_route_lem (text "vm1" ∷ []) reset call released.1 running busy releases

-- Bob, who is no administrator, has booked the lab for later.
abbrev bob : AuthenticatedUser
bob = record ann {
  username = text "bob";
  role = Role.user;
  lab_access = (text "vm1", text "bgp" ∷ []) ∷ [];
}

abbrev bobs : Call
bobs = record call { user = bob }

abbrev coming : Entry
coming = record booking { owner_username = text "Bob" }

abbrev planned : Service
planned = record idle {
  bookings = set_entries_for_key [] (lab_key (text "vm1") (text "bgp")) (coming ∷ []);
}

abbrev cancelled : Response Entry × Service
cancelled = cancel_route bobs (text "id") planned

cancels : cancelled ≡ (success coming, cancelled.1)
unfolding cancel_route list_scheduled_reservations cancel_scheduled_reservation can_access_lab
    sorted lab_key set_entries_for_key entries_for_key slot_entries ◌==◌ is_unexpired entry_end
    entry_start same_owner is_scheduled is_active_now lower strip
cancels = refl

changed-IsOwned_example :
    (z : Entry) × (y : Entry) × (start : ℕ) × IsOwned bobs (text "id") planned z y start
changed-IsOwned_example = changed-IsOwned bobs (text "id") planned coming cancelled.1 (inl cancels)
