-- ===== src/Auth/Signed.antt =====
-- auth.py: proofs on `get_current_user` and `require_admin`.
use clab_manager.Prelude.{
  ℕ, ◌+◌, ◌≤◌, ◌<◌, ◌≡◌, refl, ap, ◌∙◌, Bool, true, false, not, ◌&&◌, some, List, [], ◌∷◌, inl, inr,
  ltb, arith, Text, lower, strip, lstrip, rstrip, lookup, map, Bool-cases, Option-cases,
}
use clab_manager.Auth.Data.{Role, User, Storage, is_admin, normalize_username}
use clab_manager.Auth.Access.{AuthenticatedUser, active_record, get_user, build_authenticated_user}
use clab_manager.Auth.Session.{
  Activity, Session, cleared, Denial, Answer, granted, denied, session_timeout,
  is_password_change_exempt_path, admit_user, check_activity, get_current_user, require,
  require_admin,
}

-- What holds where `u` is let in, and `after` is the session then.
pub record IsAdmitted (now : ℕ) (path : Text) (session : Session) (s : Storage)
    (u : AuthenticatedUser) (after : Session) : Type 0 where
  pub account : User
  pub stored :
      lookup (normalize_username (normalize_username session.username)) s.users ≡ some account
  pub active : account.active ≡ true
  pub shown : build_authenticated_user account s.groups ≡ u
  pub changed : (u.must_change_password && not (is_password_change_exempt_path path)) ≡ false
  pub refreshed : record session { last_activity = Activity.at now } ≡ after
  pub recent : (last : ℕ) → session.last_activity ≡ Activity.at last → now ≤ last + session_timeout

get_user_lem :
    (name : Text) (s : Storage) (u : AuthenticatedUser)
    → get_user name s ≡ some u
    → (account : User) × (lookup (normalize_username name) s.users ≡ some account)
      × (account.active ≡ true)
      × (build_authenticated_user account s.groups ≡ u)
unfolding get_user active_record
get_user_lem name s u h = elim (Option-cases (lookup (normalize_username name) s.users)) [
  | inl e ↦ absurd (ground arith)
  | inr (account, e) ↦ (account, e, ground arith, ground arith)
]

admit_user-IsAdmitted :
    (now : ℕ) (path : Text) (session : Session) (s : Storage) (u : AuthenticatedUser)
    (after : Session)
    → ((last : ℕ) → session.last_activity ≡ Activity.at last → now ≤ last + session_timeout)
    → admit_user now path session s ≡ (granted u, after)
    → IsAdmitted now path session s u after
unfolding admit_user
admit_user-IsAdmitted now path session s u after recent h =
    elim (Option-cases (get_user (normalize_username session.username) s)) [
      | inl e ↦ absurd (ground arith)
      | inr (v, e) ↦
          let (account, stored, active, shown) =
            get_user_lem (normalize_username session.username) s v e in
          record {
            account = account;
            stored = stored;
            active = active;
            shown = ground arith;
            changed = ground arith;
            refreshed = ground arith;
            recent = recent;
          }
    ]

check_activity-IsAdmitted :
    (now : ℕ) (path : Text) (a : Activity) (session : Session) (s : Storage) (u : AuthenticatedUser)
    (after : Session)
    → session.last_activity ≡ a
    → check_activity now path a session s ≡ (granted u, after)
    → IsAdmitted now path session s u after
unfolding check_activity
check_activity-IsAdmitted now path Activity.never session s u after k h =
    admit_user-IsAdmitted now path session s u after (λ last e. cc) h
check_activity-IsAdmitted now path Activity.garbled session s u after k h = absurd (ground arith)
check_activity-IsAdmitted now path (Activity.at t) session s u after k h =
    elim (Bool-cases (ltb (t + session_timeout) now)) [
      | inl e ↦ absurd (ground arith)
      | inr e ↦
          admit_user-IsAdmitted now path session s u after (λ last e'. ground arith) (rw e at h)
    ]

-- Where a request is granted, the user is the stored, active account of the session, the session
-- was used in the last three hours or has no time of use yet, the path is exempt where a new
-- password is due, and the session is then fresh.
pub get_current_user-IsAdmitted :
    (now : ℕ) (path : Text) (session : Session) (s : Storage) (u : AuthenticatedUser)
    (after : Session)
    → get_current_user now path session s ≡ (granted u, after)
    → IsAdmitted now path session s u after
unfolding get_current_user
get_current_user-IsAdmitted now path session s u after =
    check_activity-IsAdmitted now path session.last_activity session s u after refl

require_lem :
    (accepts : Role → Bool) (answer : Answer × Session) (u : AuthenticatedUser) (after : Session)
    → require accepts answer ≡ (granted u, after)
    → (answer ≡ (granted u, after)) × (accepts u.role ≡ true)
unfolding require
require_lem accepts (denied d, session) u after h = absurd (ground arith)
require_lem accepts (granted v, session) u after h = ground arith

-- Where a request passes the test for administrators, the account of the session is stored, active
-- and an administrator.
pub require_admin-IsAdmin :
    (now : ℕ) (path : Text) (session : Session) (s : Storage) (u : AuthenticatedUser)
    (after : Session)
    → require_admin now path session s ≡ (granted u, after)
    → (account : User) × (lookup (normalize_username (normalize_username session.username)) s.users
        ≡ some account)
      × (account.active ≡ true)
      × (is_admin account.role ≡ true)
unfolding require_admin build_authenticated_user
require_admin-IsAdmin now path session s u after h =
    let (e, k) = require_lem is_admin (get_current_user now path session s) u after h in
    let w = get_current_user-IsAdmitted now path session s u after e in
    (w.account, w.stored, w.active, ap (λ v. is_admin v.role) w.shown ∙ k)

-- A session that was cleared lets nobody in.
cleared_lem :
    (now : ℕ) (path : Text) (s : Storage)
    → get_current_user now path cleared s ≡ (denied Denial.unauthenticated, cleared)
unfolding get_current_user check_activity admit_user get_user normalize_username lower strip lstrip
    rstrip
cleared_lem now path s = refl

-- The answers to a row of requests on one session, each at its time.
unfoldable pub answers : List (ℕ × Text) → Session → Storage → List Answer
answers [] session s = []
answers ((now, path) ∷ rest) session s =
    let (answer, after) = get_current_user now path session s in answer ∷ answers rest after s

answers-cleared :
    (rest : List (ℕ × Text)) (s : Storage)
    → answers rest cleared s ≡ map (λ _. denied Denial.unauthenticated) rest
unfolding answers
answers-cleared [] s = refl
answers-cleared ((now, path) ∷ rest) s =
    rw (cleared_lem now path s)
      (ap (λ l. denied Denial.unauthenticated ∷ l) (answers-cleared rest s))

check_expired :
    (last now : ℕ) (path : Text) (a : Activity) (session : Session) (s : Storage)
    → a ≡ Activity.at last
    → last + session_timeout < now
    → check_activity now path a session s ≡ (denied Denial.session_expired, cleared)
unfolding check_activity
check_expired last now path a session s e h = rw e (ground arith)

-- Where a request comes more than three hours after the last use of its session, it is refused as
-- expired, and every later request on that session is refused as not signed in.
pub answers_expired :
    (last now : ℕ) (path : Text) (rest : List (ℕ × Text)) (session : Session) (s : Storage)
    → session.last_activity ≡ Activity.at last
    → last + session_timeout < now
    → answers ((now, path) ∷ rest) session s
      ≡ denied Denial.session_expired ∷ map (λ _. denied Denial.unauthenticated) rest
unfolding answers get_current_user
answers_expired last now path rest session s e h =
    rw (check_expired last now path session.last_activity session s e h)
      (ap (λ l. denied Denial.session_expired ∷ l) (answers-cleared rest s))
