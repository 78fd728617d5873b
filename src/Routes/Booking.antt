-- ===== src/Routes/Booking.antt =====
-- reservations_routes.py: the routes that read, cancel, move, make and extend a booking. They make no
-- other request wait and see none in between.
use clab_manager.Prelude.{
  Bool, true, not, ◌&&◌, Option, none, some, List, first, if◌then◌else◌, is_some, Text, ◌==◌, eqb,
}
use clab_manager.Prelude.Int.{ℤ}
use clab_manager.Reservations.Data.{Stamp, Entry, Reservations}
use clab_manager.Reservations.Queries.{
  get_reservation, list_scheduled_reservations, cancel_scheduled_reservation,
}
use clab_manager.Reservations.Booking.{
  ok, err, Outcome, Request, reserve_lab, update_scheduled_reservation,
}
use clab_manager.Reservations.Extending.{extend_reservation}
use clab_manager.Auth.Access.{AuthenticatedUser, can_access_lab}
use clab_manager.Routes.State.{
  Action, Mark, Service, Response, success, failure, Draws, record_event, saved, status_of,
  is_foreign,
}

-- The lab, the user, and what the services draw.
pub record Call : Type 0 where
  pub vm_id : Text
  pub lab_name : Text
  pub user : AuthenticatedUser
  pub draws : Draws

-- The handlers run only on a lab that the user may use.
unfoldable pub with_visibility :
    {A : Type 0} → Call → Service → Response A × Service → Response A × Service
with_visibility c s rest =
    if can_access_lab c.user c.vm_id c.lab_name then rest else (failure 403, s)

unfoldable pub noted : Call → Action → Mark → Service → Service
unfolding record_event
noted c action mark s = record_event c.user action mark c.vm_id c.lab_name s

-- The bookings to come with the wanted id, and the service after they were listed.
unfoldable pub find_scheduled : Call → Text → Service → Option Entry × Service
unfolding saved
find_scheduled c id s =
    let (scheduled, d) =
      list_scheduled_reservations (c.draws.fresh 0) (c.draws.now 0) s.bookings c.vm_id c.lab_name in
    (first (λ x. x.reservation_id == id) scheduled, saved s d)

unfoldable pub answer_removed :
    Call → Action → Option Entry × Option Reservations → Service → Response Entry × Service
unfolding saved noted
answer_removed c action (none, d) s = (failure 404, saved s d)
answer_removed c action (some x, d) s = (success x, noted c action Mark.fine (saved s d))

-- After the target was found: only its owner or an administrator goes on.
unfoldable pub owned :
    Call
    → Action
    → Option Entry × Service
    → (Service → Response Entry × Service)
    → Response Entry × Service
unfolding is_foreign noted
owned c action (none, s) rest = (failure 404, s)
owned c action (some x, s) rest =
    if is_foreign c.user x then (failure 403, noted c action Mark.refused s) else rest s

unfoldable pub cancel_route : Call → Text → Service → Response Entry × Service
unfolding with_visibility find_scheduled owned answer_removed
cancel_route c id s = with_visibility c s (
    owned c Action.cancelling (find_scheduled c id s) λ s'.
      answer_removed c Action.cancelling
        (cancel_scheduled_reservation (c.draws.fresh 1) (c.draws.now 1) s'.bookings c.vm_id
          c.lab_name id)
        s')

-- What an operation that may raise is answered by. Only a conflict is recorded, and only where asked.
unfoldable pub answer_outcome :
    Call → Action → Bool → Outcome Entry → Service → Response Entry × Service
unfolding saved noted status_of
answer_outcome c action recorded (ok x, d) s = (success x, noted c action Mark.fine (saved s d))
answer_outcome c action recorded (err e, d) s = (
  failure (status_of e),
  if recorded && eqb (status_of e) 409 then noted c action Mark.refused (saved s d) else saved s d,
)

unfoldable pub answer_moved : Call → Outcome (Option Entry) → Service → Response Entry × Service
unfolding saved noted status_of
answer_moved c (ok (some x), d) s = (success x, noted c Action.updating Mark.fine (saved s d))
answer_moved c (ok none, d) s = (failure 404, saved s d)
answer_moved c (err e, d) s = (failure (status_of e), saved s d)

unfoldable pub update_route :
    Call → Text → Option Stamp → Option ℤ → Service → Response Entry × Service
unfolding with_visibility find_scheduled owned answer_moved
update_route c id starts_at duration_hours s = with_visibility c s (
    if not (is_some starts_at) && not (is_some duration_hours)
    then (failure 400, s)
    else owned c Action.updating (find_scheduled c id s) λ s'.
      answer_moved c
        (update_scheduled_reservation (c.draws.fresh 1) (c.draws.now 1) s'.bookings c.vm_id
          c.lab_name id starts_at duration_hours)
        s')

-- The booking is asked for in the name of the user.
unfoldable pub request_of : Call → ℤ → Stamp → Request
request_of c duration_hours starts_at = record {
  vm_id = c.vm_id;
  lab_name = c.lab_name;
  reserved_by = c.user.full_name;
  email = c.user.email;
  duration_hours = duration_hours;
  owner_username = c.user.username;
  starts_at = starts_at;
}

unfoldable pub create_route : Call → ℤ → Stamp → Service → Response Entry × Service
unfolding with_visibility request_of answer_outcome
create_route c duration_hours starts_at s = with_visibility c s (
    answer_outcome c Action.reserving true
      (reserve_lab (request_of c duration_hours starts_at) (c.draws.fresh 0 0) (c.draws.now 0)
        s.bookings)
      s)

-- The active booking, and the service after it was read.
unfoldable pub find_active : Call → Service → Option Entry × Service
unfolding saved
find_active c s =
    let (x, d) = get_reservation (c.draws.fresh 0) (c.draws.now 0) s.bookings c.vm_id c.lab_name in
    (x, saved s d)

unfoldable pub extend_route : Call → ℤ → Service → Response Entry × Service
unfolding with_visibility find_active owned answer_outcome
extend_route c additional_hours s = with_visibility c s (
    owned c Action.extending (find_active c s) λ s'.
      answer_outcome c Action.extending true
        (extend_reservation (c.draws.now 1) s'.bookings c.vm_id c.lab_name additional_hours) s')

-- The active booking and the bookings to come.
unfoldable pub get_route : Call → Service → Response (Option Entry × List Entry) × Service
unfolding with_visibility find_active saved
get_route c s = with_visibility c s (
    let (x, s') = find_active c s in
    let (scheduled, d) =
      list_scheduled_reservations (c.draws.fresh 1) (c.draws.now 1) s'.bookings c.vm_id
        c.lab_name in
    (success (x, scheduled), saved s' d))

-- The bookings to come.
unfoldable pub list_route : Call → Service → Response (List Entry) × Service
unfolding with_visibility saved
list_route c s = with_visibility c s (
    let (scheduled, d) =
      list_scheduled_reservations (c.draws.fresh 0) (c.draws.now 0) s.bookings c.vm_id c.lab_name in
    (success scheduled, saved s d))
