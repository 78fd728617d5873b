-- ===== src/Routes/Release.antt =====
-- reservations_routes.py: the route that releases a lab, and takes a modified sandbox back first.
use clab_manager.Prelude.{
  ℕ, Bool, false, not, ◌&&◌, Option, none, some, List, if◌then◌else◌, Text, elem,
}
use clab_manager.Reservations.Data.{Entry, same_owner}
use clab_manager.Reservations.Queries.{release_lab}
use clab_manager.Auth.Data.{Role}
use clab_manager.Auth.Access.{AuthenticatedUser, can_group_admin_manage_user}
use clab_manager.Labs.Sandbox.{is_enabled, is_modified, set_modified}
use clab_manager.Routes.State.{Action, Mark, Service, Response, failure, is_foreign, is_locked_for}
use clab_manager.Routes.Booking.{Call, with_visibility, noted, find_active, answer_removed}

-- What `reset_sandbox_lab` answers: done, or a status code.
pub data Reset : Type 0 where
  restored : Reset
  broken : ℕ → Reset

-- Whether the user may not release the booking: a group administrator may for the members of its groups.
unfoldable pub may_not_release : Role → AuthenticatedUser → Entry → Service → Bool
unfolding is_foreign
may_not_release Role.group_admin u x s =
    not (same_owner x u.username) && not (can_group_admin_manage_user u x.owner_username s.storage)
may_not_release Role.admin u x s = is_foreign u x
may_not_release Role.user u x s = is_foreign u x

-- After the sandbox is as it has to be.
unfoldable pub finish_release : Call → Service → Response Entry × Service
unfolding answer_removed
finish_release c s =
    answer_removed c Action.releasing (release_lab (c.draws.now 1) s.bookings c.vm_id c.lab_name) s

-- After the sandbox was taken back, or not.
unfoldable pub after_reset : Call → Reset × Service → Response Entry × Service
unfolding noted finish_release
after_reset c (restored, s) =
    finish_release c (record s { sandboxes = set_modified c.vm_id c.lab_name false s.sandboxes })
after_reset c (broken code, s) = (failure code, noted c Action.releasing Mark.failed s)

unfoldable pub release_owned :
    List Text → (Service → Reset × Service) → Call → Service → Response Entry × Service
unfolding is_locked_for after_reset finish_release
release_owned agents reset c s =
    if is_enabled c.vm_id c.lab_name s.sandboxes && is_modified c.vm_id c.lab_name s.sandboxes
    then (if is_locked_for c.user c.vm_id c.lab_name s
        then (failure 423, s)
        else if not (elem c.vm_id agents)
        then (failure 404, s)
        else after_reset c (reset s))
    else finish_release c s

unfoldable pub release_found :
    List Text
    → (Service → Reset × Service)
    → Call
    → Option Entry × Service
    → Response Entry × Service
unfolding may_not_release noted release_owned
release_found agents reset c (none, s) = (failure 404, s)
release_found agents reset c (some x, s) =
    if may_not_release c.user.role c.user x s
    then (failure 403, noted c Action.releasing Mark.refused s)
    else release_owned agents reset c s

-- `agents` are the ids of the configured machines. `reset` is `reset_sandbox_lab`: the route waits for
-- it, so it may find the stores changed by other requests.
unfoldable pub release_route :
    List Text → (Service → Reset × Service) → Call → Service → Response Entry × Service
unfolding with_visibility find_active release_found
release_route agents reset c s =
    with_visibility c s (release_found agents reset c (find_active c s))
