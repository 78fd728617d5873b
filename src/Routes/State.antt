-- ===== src/Routes/State.antt =====
-- reservations_routes.py: the stores that a route reads and writes, its answers, and the audit events.
use clab_manager.Prelude.{ℕ, Bool, not, ◌&&◌, Option, List, ◌∷◌, Text, some_or}
use clab_manager.Reservations.Data.{Entry, Reservations, same_owner}
use clab_manager.Reservations.Booking.{
  Error, bad_duration, bad_start, past_start, too_many, held_by, bad_extension, nothing_active,
  unreadable, expired, outside_window, at_maximum, above_available, type_error,
}
use clab_manager.Auth.Data.{Storage, is_admin}
use clab_manager.Auth.Access.{AuthenticatedUser}
use clab_manager.Labs.Locks.{Locks, is_locked}
use clab_manager.Labs.Sandbox.{Sandboxes}

-- The `action` and the `status` of an audit event.
pub data Action : Type 0 where
  cancelling updating reserving extending releasing : Action

pub data Mark : Type 0 where
  fine refused failed : Mark

-- What `record_event` is told, without the details.
pub record AuditEvent : Type 0 where
  pub username : Text
  pub action : Action
  pub mark : Mark
  pub vm_id : Text
  pub lab_name : Text

-- The stores of the services, and the events so far, the last one first.
pub record Service : Type 0 where
  pub storage : Storage
  pub bookings : Reservations
  pub locks : Locks
  pub sandboxes : Sandboxes
  pub events : List AuditEvent

-- The answer of a route: a value, or the status code of the exception.
pub data Response (A : Type 0) : Type 0 where
  success : A → Response A
  failure : ℕ → Response A

-- What the clock and `uuid4` give to the calls of one request, by the number of the call.
pub record Draws : Type 0 where
  pub now : ℕ → ℕ
  pub fresh : ℕ → ℕ → Text

unfoldable pub record_event : AuthenticatedUser → Action → Mark → Text → Text → Service → Service
record_event u action mark vm_id lab_name s = record s {
  events =
      record {
        username = u.username;
        action = action;
        mark = mark;
        vm_id = vm_id;
        lab_name = lab_name;
      }
      ∷ s.events;
}

-- The service after an operation on the bookings.
unfoldable pub saved : Service → Option Reservations → Service
saved s d = record s { bookings = some_or d s.bookings }

-- `ValueError` is answered by 400 and `RuntimeError` by 409; any other exception by 500.
unfoldable pub status_of : Error → ℕ
status_of bad_duration = 400
status_of bad_start = 400
status_of past_start = 400
status_of bad_extension = 400
status_of above_available = 400
status_of too_many = 409
status_of (held_by _) = 409
status_of nothing_active = 409
status_of unreadable = 409
status_of expired = 409
status_of outside_window = 409
status_of at_maximum = 409
status_of type_error = 500

-- `user.role != "admin" and not reservation_belongs_to(x, user.username)`
unfoldable pub is_foreign : AuthenticatedUser → Entry → Bool
unfolding same_owner
is_foreign u x = not (is_admin u.role) && not (same_owner x u.username)

-- Whether a lock keeps the user off the lab.
unfoldable pub is_locked_for : AuthenticatedUser → Text → Text → Service → Bool
is_locked_for u vm_id lab_name s = not (is_admin u.role) && is_locked vm_id lab_name s.locks
