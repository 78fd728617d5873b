-- ===== src/Auth/Session.antt =====
-- auth.py: the session of a request.
use clab_manager.Prelude.{
  ℕ, ◌+◌, Bool, not, ◌&&◌, none, some, [], ◌∷◌, if◌then◌else◌, ltb, Text, text, strip, elem,
}
use clab_manager.Auth.Data.{Role, Storage, is_admin, normalize_username}
use clab_manager.Auth.Access.{AuthenticatedUser, get_user, is_manager}

-- `last_activity` of the session: absent, no number, or a monotonic time in microseconds.
pub data Activity : Type 0 where
  never garbled : Activity
  at : ℕ → Activity

pub record Session : Type 0 where
  pub username : Text
  pub last_activity : Activity

abbrev pub cleared : Session
cleared = record { username = []; last_activity = Activity.never }

pub data Denial : Type 0 where
  session_expired : Denial
  unauthenticated : Denial
  password_change_required : Denial
  forbidden : Denial

pub data Answer : Type 0 where
  granted : AuthenticatedUser → Answer
  denied : Denial → Answer

-- Three hours.
abbrev pub session_timeout : ℕ
session_timeout = 10_800_000_000

unfoldable pub is_password_change_exempt_path : Text → Bool
is_password_change_exempt_path path =
    elem (strip path)
      (text "/api/auth/me" ∷ text "/api/auth/logout" ∷ text "/api/auth/change-password" ∷ [])

-- The part of `get_current_user` after the test of the activity.
unfoldable pub admit_user : ℕ → Text → Session → Storage → Answer × Session
unfolding is_password_change_exempt_path
admit_user now path session s = elim (get_user (normalize_username session.username) s) [
  | none ↦ (denied unauthenticated, cleared)
  | some u ↦
      if u.must_change_password && not (is_password_change_exempt_path path)
      then (denied password_change_required, session)
      else (granted u, record session { last_activity = Activity.at now })
]

unfoldable pub check_activity : ℕ → Text → Activity → Session → Storage → Answer × Session
unfolding admit_user
check_activity now path Activity.never session s = admit_user now path session s
check_activity now path Activity.garbled session s = (denied unauthenticated, cleared)
check_activity now path (Activity.at last) session s =
    if ltb (last + session_timeout) now
    then (denied session_expired, cleared)
    else admit_user now path session s

-- The monotonic clock reads `now`.
unfoldable pub get_current_user : ℕ → Text → Session → Storage → Answer × Session
unfolding check_activity
get_current_user now path session s = check_activity now path session.last_activity session s

-- Only a granted user passes, and only with a role that the test accepts.
unfoldable pub require : (Role → Bool) → Answer × Session → Answer × Session
require accepts (denied d, session) = (denied d, session)
require accepts (granted u, session) =
    if accepts u.role then (granted u, session) else (denied forbidden, session)

unfoldable pub require_admin : ℕ → Text → Session → Storage → Answer × Session
unfolding require get_current_user
require_admin now path session s = require is_admin (get_current_user now path session s)

unfoldable pub require_admin_or_group_admin : ℕ → Text → Session → Storage → Answer × Session
unfolding require get_current_user
require_admin_or_group_admin now path session s =
    require is_manager (get_current_user now path session s)
