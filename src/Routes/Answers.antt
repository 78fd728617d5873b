-- ===== src/Routes/Answers.antt =====
-- reservations_routes.py: proofs on what a route that succeeds has tested, made and recorded.
use clab_manager.Prelude.{
  ℕ, ◌+◌, ◌≡◌, refl, Bool, true, false, not, ◌&&◌, Option, none, some, List, ◌∷◌, inl, inr, arith,
  Text, ◌==◌, eq_iff, elem, lower, lookup, ◌⊎◌, false≢true, subst, lookup-erase_self, Bool-cases,
  Option-cases,
}
use clab_manager.Prelude.Int.{ℤ, pos_part}
use clab_manager.Reservations.Data.{
  Stamp, Entry, Reservations, lab_key, prune_expired_entries, same_owner, entries_for_key,
}
use clab_manager.Reservations.Found.Stored.{IsNewest, get_reservation-IsNewest}
use clab_manager.Auth.Data.{Role, User, Group, Storage, is_admin}
use clab_manager.Auth.Managed.{IsManaged, manage_lem}
use clab_manager.Labs.Locks.{Lock, Locks, get_lock, is_locked}
use clab_manager.Reservations.Queries.{release_lab}
use clab_manager.Reservations.Booking.{
  ok, err, Outcome, start_time, Request, reserve_lab, book, reservation_of,
}
use clab_manager.Auth.Access.{AuthenticatedUser, can_access_lab}
use clab_manager.Routes.State.{
  Action, Mark, AuditEvent, Service, Response, success, record_event, saved, is_foreign,
  is_locked_for,
}
use clab_manager.Routes.Booking.{
  Call, with_visibility, noted, answer_removed, answer_outcome, request_of, create_route,
  find_active,
}
use clab_manager.Routes.Release.{
  Reset, may_not_release, finish_release, after_reset, release_owned, release_found, release_route,
}
use clab_manager.Labs.Sandbox.{is_enabled, is_modified, set_modified, flag}

abbrev event_of : Call → Action → Mark → AuditEvent
event_of c action mark = record {
  username = c.user.username;
  action = action;
  mark = mark;
  vm_id = c.vm_id;
  lab_name = c.lab_name;
}

pub visible_lem :
    {A : Type 0} (c : Call) (s : Service) (rest : Response A × Service) (x : A) (t : Service)
    → with_visibility c s rest ≡ (success x, t)
    → (can_access_lab c.user c.vm_id c.lab_name ≡ true) × (rest ≡ (success x, t))
unfolding with_visibility
visible_lem c s rest x t h = elim (Bool-cases (can_access_lab c.user c.vm_id c.lab_name)) [
  | inl e ↦ (e, ground arith)
  | inr e ↦ absurd (ground arith)
]

outcome_lem :
    (c : Call) (action : Action) (recorded : Bool) (out : Outcome Entry) (s : Service) (x : Entry)
    (t : Service)
    → answer_outcome c action recorded out s ≡ (success x, t)
    → (out.0 ≡ ok x) × (t.events ≡ event_of c action Mark.fine ∷ s.events)
unfolding answer_outcome noted record_event saved
outcome_lem c action recorded (ok y, d) s x t h = ground arith
outcome_lem c action recorded (err e, d) s x t h = absurd (ground arith)

book-owner :
    (r : Request) (id : Text) (now : ℕ) (data_ : Reservations) (start end : ℕ) (x : Entry)
    → (book r id now data_ start end).0 ≡ ok x
    → x.owner_username ≡ r.owner_username
unfolding book reservation_of
book-owner r id now data_ start end x h = ground arith

reserve_lab-owner :
    (r : Request) (id : Text) (now : ℕ) (data_ : Reservations) (x : Entry)
    → (reserve_lab r id now data_).0 ≡ ok x
    → x.owner_username ≡ r.owner_username
unfolding reserve_lab
reserve_lab-owner r id now data_ x h = elim (Option-cases (start_time now r.starts_at)) [
  | inl e ↦ absurd (ground arith)
  | inr (start, e) ↦
      book-owner r id now (prune_expired_entries now data_).0 start
        (start + pos_part r.duration_hours) x (ground arith)
]

-- Where a booking is answered with success, the user may use the lab, the booking is owned by the
-- user who asked, and the one event that is recorded tells of it.
pub create_route_lem :
    (c : Call) (duration_hours : ℤ) (starts_at : Stamp) (s t : Service) (x : Entry)
    → create_route c duration_hours starts_at s ≡ (success x, t)
    → (can_access_lab c.user c.vm_id c.lab_name ≡ true)
      × (x.owner_username ≡ c.user.username)
      × (t.events ≡ event_of c Action.reserving Mark.fine ∷ s.events)
unfolding create_route request_of
create_route_lem c duration_hours starts_at s t x h =
    let out =
      reserve_lab (request_of c duration_hours starts_at) (c.draws.fresh 0 0) (c.draws.now 0)
        s.bookings in
    let (visible, rest) = visible_lem c s (answer_outcome c Action.reserving true out s) x t h in
    let (made, noted_) = outcome_lem c Action.reserving true out s x t rest in
    (
      visible,
      reserve_lab-owner (request_of c duration_hours starts_at) (c.draws.fresh 0 0) (c.draws.now 0)
          s.bookings x made,
      noted_,
    )

removed-sandboxes :
    (c : Call) (action : Action) (out : Option Entry × Option Reservations) (s t : Service)
    (x : Entry)
    → answer_removed c action out s ≡ (success x, t)
    → (t.sandboxes ≡ s.sandboxes) × (t.events ≡ event_of c action Mark.fine ∷ s.events)
unfolding answer_removed noted record_event saved
removed-sandboxes c action (none, d) s t x h = absurd (ground arith)
removed-sandboxes c action (some y, d) s t x h = ground arith

set_modified-forgets :
    (c : Call) (s : Service)
    → is_modified c.vm_id c.lab_name (set_modified c.vm_id c.lab_name false s.sandboxes) ≡ false
unfolding is_modified set_modified flag
set_modified-forgets c s =
    ground (arith, lookup-erase_self (lab_key c.vm_id c.lab_name) s.sandboxes.modified)

after_reset_lem :
    (c : Call) (out : Reset × Service) (t : Service) (x : Entry)
    → after_reset c out ≡ (success x, t)
    → (out.0 ≡ Reset.restored) × (is_modified c.vm_id c.lab_name t.sandboxes ≡ false)
unfolding after_reset finish_release
after_reset_lem c (Reset.broken code, s) t x h = absurd (ground arith)
after_reset_lem c (Reset.restored, s) t x h =
    let clean : Service = record s {
      sandboxes = set_modified c.vm_id c.lab_name false s.sandboxes;
    } in
    let (same, _) =
      removed-sandboxes c Action.releasing
        (release_lab (c.draws.now 1) clean.bookings c.vm_id c.lab_name) clean t x h in
    (refl, rw same (set_modified-forgets c s))

-- Who may release a booking: an administrator, its owner, or a group administrator in a group with
-- the owner, whose account is an ordinary one.
abbrev pub MayRelease : AuthenticatedUser → Entry → Storage → Type 0
MayRelease u found storage =
    (u.role ≡ Role.admin)
    ⊎ ((lower found.owner_username ≡ lower u.username)
        ⊎ ((u.role ≡ Role.group_admin)
            × (a : User) × (o : User) × (g : Group) × (h : Group) × IsManaged u found.owner_username
                storage a o g h))

-- An administrator, or no lock is set on the lab.
abbrev pub IsUnlocked : AuthenticatedUser → Text → Text → Locks → Type 0
IsUnlocked u vm_id lab_name locks =
    (u.role ≡ Role.admin)
    ⊎ ((l : Lock) → lookup (lab_key vm_id lab_name) locks ≡ some l → l.locked ≡ false)

not-not : (b : Bool) → not b ≡ false → b ≡ true
not-not b h = ground arith

admin_of : (role : Role) → is_admin role ≡ true → role ≡ Role.admin
admin_of Role.admin h = refl
admin_of Role.group_admin h = absurd (false≢true h)
admin_of Role.user h = absurd (false≢true h)

pub not_foreign :
    (u : AuthenticatedUser) (found : Entry)
    → is_foreign u found ≡ false
    → (u.role ≡ Role.admin) ⊎ (lower found.owner_username ≡ lower u.username)
unfolding is_foreign same_owner
not_foreign u found h = elim (Bool-cases (is_admin u.role)) [
  | inl e ↦ inl (admin_of u.role e)
  | inr e ↦ inr ((eq_iff (lower found.owner_username) (lower u.username)).0 (ground arith))
]

may_release :
    (u : AuthenticatedUser) (found : Entry) (s : Service) (role : Role)
    → u.role ≡ role
    → may_not_release role u found s ≡ false
    → MayRelease u found s.storage
unfolding may_not_release same_owner
may_release u found s Role.admin e h = inl e
may_release u found s Role.user e h = elim (not_foreign u found h) [
  | inl a ↦ inl a
  | inr o ↦ inr (inl o)
]
may_release u found s Role.group_admin e h =
    elim (Bool-cases (lower found.owner_username == lower u.username)) [
      | inl o ↦ inr (inl ((eq_iff (lower found.owner_username) (lower u.username)).0 o))
      | inr o ↦
          let (a, t, g, h', k) =
            manage_lem u found.owner_username s.storage (rw e refl) (ground arith) in
          inr (inr (e, a, t, g, h', k))
    ]

unlocked_lem :
    (u : AuthenticatedUser) (vm_id lab_name : Text) (s : Service)
    → is_locked_for u vm_id lab_name s ≡ false
    → IsUnlocked u vm_id lab_name s.locks
unfolding is_locked_for is_locked get_lock
unlocked_lem u vm_id lab_name s h = elim (Bool-cases (is_admin u.role)) [
  | inl e ↦ inl (admin_of u.role e)
  | inr e ↦ inr (λ l k. ground arith)
]

-- What a release that succeeds has found: the booking `found` as a read gives it of the stored
-- bookings, a user that may release it, and a sandbox that is clean or was restored.
pub record IsReleased (agents : List Text) (reset : Service → Reset × Service) (c : Call)
    (s t : Service) (found : Entry) : Type 0 where
  pub visible : can_access_lab c.user c.vm_id c.lab_name ≡ true
  pub active :
      IsNewest
        (c.draws.fresh 0)
        (c.draws.now 0)
        (entries_for_key s.bookings (lab_key c.vm_id c.lab_name))
        (some found)
  pub permitted : MayRelease c.user found s.storage
  pub cleaned :
      (is_enabled c.vm_id c.lab_name s.sandboxes && is_modified c.vm_id c.lab_name s.sandboxes)
        ≡ true
      → IsUnlocked c.user c.vm_id c.lab_name s.locks
        × (elem c.vm_id agents ≡ true)
        × ((reset (find_active c s).1).0 ≡ Reset.restored)
        × (is_modified c.vm_id c.lab_name t.sandboxes ≡ false)

module _ (agents : List Text) (reset : Service → Reset × Service) (c : Call) (t : Service)
    (x : Entry) where
  release_owned_lem :
      (s : Service)
      → release_owned agents reset c s ≡ (success x, t)
      → (is_enabled c.vm_id c.lab_name s.sandboxes && is_modified c.vm_id c.lab_name s.sandboxes)
        ≡ true
      → (is_locked_for c.user c.vm_id c.lab_name s ≡ false)
        × (elem c.vm_id agents ≡ true)
        × ((reset s).0 ≡ Reset.restored)
        × (is_modified c.vm_id c.lab_name t.sandboxes ≡ false)
  unfolding release_owned
  release_owned_lem s h e = elim (Bool-cases (is_locked_for c.user c.vm_id c.lab_name s)) [
    | inl l ↦ absurd (ground arith)
    | inr l ↦ elim (Bool-cases (not (elem c.vm_id agents))) [
      | inl a ↦ absurd (ground arith)
      | inr a ↦
          let (ok_, clean) = after_reset_lem c (reset s) t x (rw (e, l, a) at h) in
          (l, not-not (elem c.vm_id agents) a, ok_, clean)
    ]
  ]

  release_found_lem :
      (found : Option Entry × Service)
      → release_found agents reset c found ≡ (success x, t)
      → (y : Entry) × (found.0 ≡ some y)
        × (may_not_release c.user.role c.user y found.1 ≡ false)
        × (release_owned agents reset c found.1 ≡ (success x, t))
  unfolding release_found
  release_found_lem (none, s) h = absurd (ground arith)
  release_found_lem (some y, s) h = elim (Bool-cases (may_not_release c.user.role c.user y s)) [
    | inl e ↦ absurd (ground arith)
    | inr e ↦ (y, refl, e, rw e at h)
  ]

  found-IsNewest :
      (s : Service) (y : Entry)
      → (find_active c s).0 ≡ some y
      → IsNewest
          (c.draws.fresh 0)
          (c.draws.now 0)
          (entries_for_key s.bookings (lab_key c.vm_id c.lab_name))
          (some y)
  unfolding find_active
  found-IsNewest s y h =
      subst
        (IsNewest (c.draws.fresh 0) (c.draws.now 0)
          (entries_for_key s.bookings (lab_key c.vm_id c.lab_name)))
        h (get_reservation-IsNewest (c.draws.fresh 0) (c.draws.now 0) s.bookings c.vm_id c.lab_name)

  -- Where the release of a lab is answered with success, the user may use the lab, a read of the
  -- stored bookings finds an active booking of the lab, and the user is an administrator, its owner
  -- whatever the case of the name, or a group administrator who shares a group with the owner,
  -- whose account is an ordinary one; and where the sandbox of the lab was on and modified, the
  -- user is an administrator or no lock was set on the lab, the machine is a configured one, the
  -- sandbox was restored, and it is no longer marked as modified.
  pub release_route_lem :
      (s : Service)
      → release_route agents reset c s ≡ (success x, t)
      → (found : Entry) × IsReleased agents reset c s t found
  unfolding release_route find_active
  release_route_lem s h =
      let (visible, rest) =
        visible_lem c s (release_found agents reset c (find_active c s)) x t h in
      let (y, active, permitted, rest') = release_found_lem (find_active c s) rest in
      (
        y,
        record {
          visible = visible;
          active = found-IsNewest s y active;
          permitted = may_release c.user y (find_active c s).1 c.user.role refl permitted;
          cleaned = λ dirty.
              let (unlocked, known, restored, clean) =
                release_owned_lem (find_active c s).1 rest' dirty in
              (
                unlocked_lem c.user c.vm_id c.lab_name (find_active c s).1 unlocked,
                known,
                restored,
                clean,
              );
        },
      )
