-- ===== src/Routes/Owned.antt =====
-- reservations_routes.py: proofs on whose bookings the routes that cancel and move let a user change.
use clab_manager.Prelude.{
  ℕ, ◌<◌, ◌≡◌, refl, sym, ap, ◌∙◌, Bool, true, false, not, ◌&&◌, Option, none, some, List, [], ◌∷◌,
  inl, inr, ◌⊎◌, In, first, keep, arith, Text, ◌==◌, eq_iff, is_some, lower, Bool-cases,
  Option-cases, In-of_sorted, In-of_keep,
}
use clab_manager.Prelude.Int.{ℤ}
use clab_manager.Reservations.Data.{Stamp, Entry, lab_key, entry_start, entries_for_key}
use clab_manager.Reservations.Queries.{
  opened, max_time, start_le, is_scheduled, list_scheduled_reservations,
}
use clab_manager.Reservations.Found.Stored.{IsNamed, named-same, In-of_opened}
use clab_manager.Auth.Data.{Role}
use clab_manager.Auth.Access.{can_access_lab}
use clab_manager.Routes.State.{Action, Service, Response, success, is_foreign}
use clab_manager.Routes.Booking.{Call, find_scheduled, owned, cancel_route, update_route}
use clab_manager.Routes.Answers.{visible_lem, not_foreign}

-- A stored booking of the lab that is still to come and has the id, or gets it where it is stored
-- without one, and that the user may change: as its owner or as an administrator.
pub record IsOwned (c : Call) (id : Text) (s : Service) (z y : Entry) (start : ℕ) : Type 0 where
  pub visible : can_access_lab c.user c.vm_id c.lab_name ≡ true
  pub there : In z (entries_for_key s.bookings (lab_key c.vm_id c.lab_name))
  pub named : IsNamed (c.draws.fresh 0) z y
  pub known : y.reservation_id ≡ id
  pub starts : entry_start z ≡ some start
  pub later : c.draws.now 0 < start
  pub permitted : (c.user.role ≡ Role.admin) ⊎ (lower z.owner_username ≡ lower c.user.username)

first-In :
    (p : Entry → Bool) (xs : List Entry) (y : Entry) → first p xs ≡ some y → In y xs × (p y ≡ true)
first-In p [] y h = absurd (ground arith)
first-In p (x ∷ xs) y h = elim (Bool-cases (p x)) [
  | inl e ↦ let same : x ≡ y = ground arith in (inl same, rw same at e)
  | inr e ↦ let (i, k) = first-In p xs y (ground arith) in (inr i, k)
]

scheduled-start :
    (now : ℕ) (y : Entry)
    → is_scheduled now y ≡ true
    → (start : ℕ) × (entry_start y ≡ some start) × (now < start)
unfolding is_scheduled
scheduled-start now y h = elim (Option-cases (entry_start y)) [
  | inl e ↦ absurd (ground arith)
  | inr (a, e) ↦ (a, e, ground arith)
]

owned_lem :
    (c : Call) (action : Action) (found : Option Entry × Service)
    (rest : Service → Response Entry × Service) (x : Entry) (t : Service)
    → owned c action found rest ≡ (success x, t)
    → (y : Entry) × (found.0 ≡ some y) × (is_foreign c.user y ≡ false)
unfolding owned
owned_lem c action (none, s) rest x t h = absurd (ground arith)
owned_lem c action (some y, s) rest x t h = elim (Bool-cases (is_foreign c.user y)) [
  | inl e ↦ absurd (ground arith)
  | inr e ↦ (y, refl, e)
]

named-owner :
    (fresh : ℕ → Text) (z y : Entry) → IsNamed fresh z y → y.owner_username ≡ z.owner_username
named-owner fresh z y (inl e) = ap (λ (v : Entry). v.owner_username) e
named-owner fresh z y (inr (_, n, e)) = ap (λ (v : Entry). v.owner_username) e

module _ (c : Call) (id : Text) (s : Service) (x : Entry) (t : Service) where
  found-IsOwned :
      (y : Entry)
      → can_access_lab c.user c.vm_id c.lab_name ≡ true
      → (find_scheduled c id s).0 ≡ some y
      → is_foreign c.user y ≡ false
      → (z : Entry) × (start : ℕ) × IsOwned c id s z y start
  unfolding find_scheduled list_scheduled_reservations
  found-IsOwned y visible found own =
      let now = c.draws.now 0 in
      let entries = (opened (c.draws.fresh 0) now s.bookings (lab_key c.vm_id c.lab_name)).1 in
      let (listed, known) =
        first-In (λ v. v.reservation_id == id)
          (clab_manager.Prelude.sorted (start_le max_time) (keep (is_scheduled now) entries)) y
          found in
      let (kept, scheduled) =
        In-of_keep (is_scheduled now) y entries
          (In-of_sorted (start_le max_time) y (keep (is_scheduled now) entries) listed) in
      let (z, there, named) =
        In-of_opened (c.draws.fresh 0) now s.bookings (lab_key c.vm_id c.lab_name) y kept in
      let (start, starts, later) = scheduled-start now y scheduled in
      let same = named-owner (c.draws.fresh 0) z y named in
      (
        z,
        start,
        record {
          visible = visible;
          there = there;
          named = named;
          known = (eq_iff y.reservation_id id).0 known;
          starts = sym (named-same (c.draws.fresh 0) now z y named).1 ∙ starts;
          later = later;
          permitted = elim (not_foreign c.user y own) [
            | inl a ↦ inl a
            | inr o ↦ inr (sym (ap lower same) ∙ o)
          ];
        },
      )

  owned-IsOwned :
      (action : Action) (rest : Service → Response Entry × Service)
      → can_access_lab c.user c.vm_id c.lab_name ≡ true
      → owned c action (find_scheduled c id s) rest ≡ (success x, t)
      → (z : Entry) × (y : Entry) × (start : ℕ) × IsOwned c id s z y start
  owned-IsOwned action rest visible h =
      let (y, found, own) = owned_lem c action (find_scheduled c id s) rest x t h in
      let (z, start, k) = found-IsOwned y visible found own in (z, y, start, k)

  cancelled-IsOwned :
      cancel_route c id s ≡ (success x, t)
      → (z : Entry) × (y : Entry) × (start : ℕ) × IsOwned c id s z y start
  unfolding cancel_route
  cancelled-IsOwned h =
      let (visible, rest) = visible_lem c s _ x t h in
      owned-IsOwned Action.cancelling _ visible rest

  moved-IsOwned :
      (starts_at : Option Stamp) (duration_hours : Option ℤ)
      → update_route c id starts_at duration_hours s ≡ (success x, t)
      → (z : Entry) × (y : Entry) × (start : ℕ) × IsOwned c id s z y start
  unfolding update_route
  moved-IsOwned starts_at duration_hours h =
      let (visible, rest) = visible_lem c s _ x t h in
      elim (Bool-cases (not (is_some starts_at) && not (is_some duration_hours))) [
        | inl e ↦ absurd (ground arith)
        | inr e ↦ owned-IsOwned Action.updating _ visible (rw e at rest)
      ]

-- Where the cancellation or the move of a booking by its id is answered with success, the user may
-- use the lab, and a stored booking of the lab that is still to come and has that id, or was given
-- it where it was stored without one, is owned by the user whatever the case of the name, or the
-- user is an administrator.
pub changed-IsOwned :
    (c : Call) (id : Text) (s : Service) (x : Entry) (t : Service)
    → (cancel_route c id s ≡ (success x, t))
      ⊎ ((starts_at : Option Stamp) × (duration_hours : Option ℤ) × (update_route c id starts_at
              duration_hours s
            ≡ (success x, t)))
    → (z : Entry) × (y : Entry) × (start : ℕ) × IsOwned c id s z y start
changed-IsOwned c id s x t (inl h) = cancelled-IsOwned c id s x t h
changed-IsOwned c id s x t (inr (starts_at, duration_hours, h)) =
    moved-IsOwned c id s x t starts_at duration_hours h
