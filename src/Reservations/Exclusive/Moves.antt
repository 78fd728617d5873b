-- ===== src/Reservations/Exclusive/Moves.antt =====
-- reservations.py: proofs on the other operations and the invariant that keeps owners apart.
use clab_manager.Prelude.{
  ℕ, suc, ◌+◌, ◌≡◌, ◌⊎◌, refl, Bool, true, false, ◌&&◌, Option, none, some, List, [], ◌∷◌, inl, inr,
  erase_at, set, arith, ◌∙◌, some_or, Text, ◌==◌, strip, is_empty, All, All-mono, Ordered, sorted,
  Ordered-sorted_symmetric, Ordered-set, Bool-cases, Option-cases,
}
use clab_manager.Prelude.Int.{ℤ, pos_part}
use clab_manager.Reservations.Data.{
  Stamp, Entry, Reservations, lab_key, entry_start, entry_end, same_owner, is_active_now,
  entries_for_key, set_entries_for_key, ensure_entry_ids, prune_expired_entries,
}
use clab_manager.Reservations.Queries.{
  start_le, opened, save_if, take_first, store_removed, is_future, get_reservation,
  cancel_scheduled_reservation, release_lab, list_scheduled_reservations, attach_reservations,
}
use clab_manager.Reservations.Booking.{
  Error, Result, ok, err, after, clashes, conflict, find_from, requested_window, moved_entry,
  move_target, update_scheduled_reservation, exceeds_simultaneous,
}
use clab_manager.Reservations.Exclusive.{
  apart, apart_symm, IsExclusive, prune-IsExclusive, set-IsExclusive, no_conflict, apart-window,
}

-- The id of a booking plays no part.
apart-id :
    (x y : Entry) (a b : Text)
    → apart (record x { reservation_id = a }) (record y { reservation_id = b }) ≡ apart x y
unfolding apart entry_start entry_end same_owner
apart-id x y a b = refl

ids-All :
    (fresh : ℕ → Text) (i : ℕ) (x : Entry) (xs : List Entry)
    → All (λ y. apart x y ≡ true) xs
    → All (λ y. apart x y ≡ true) (ensure_entry_ids fresh i xs).0
unfolding ensure_entry_ids
ids-All fresh i x [] h = tt
ids-All fresh i x (y ∷ ys) h = elim (Bool-cases (is_empty (strip y.reservation_id))) [
  | inl e ↦ rw e ((apart-id x y x.reservation_id (fresh i)) ∙ h.0, ids-All fresh (suc i) x ys h.1)
  | inr e ↦ rw e (h.0, ids-All fresh (suc i) x ys h.1)
]

ids-All_id :
    (x : Entry) (a : Text) (xs : List Entry)
    → All (λ y. apart x y ≡ true) xs
    → All (λ y. apart (record x { reservation_id = a }) y ≡ true) xs
ids-All_id x a xs =
    All-mono (λ y. apart x y ≡ true) (λ y. apart (record x { reservation_id = a }) y ≡ true)
      (λ y h. apart-id x y a y.reservation_id ∙ h) xs

ids-Ordered :
    (fresh : ℕ → Text) (i : ℕ) (xs : List Entry)
    → Ordered apart xs
    → Ordered apart (ensure_entry_ids fresh i xs).0
unfolding ensure_entry_ids
ids-Ordered fresh i [] o = tt
ids-Ordered fresh i (x ∷ xs) o = elim (Bool-cases (is_empty (strip x.reservation_id))) [
  | inl e ↦ rw e (
    ids-All_id x (fresh i) (ensure_entry_ids fresh (suc i) xs).0 (ids-All fresh (suc i) x xs o.0),
    ids-Ordered fresh (suc i) xs o.1,
  )
  | inr e ↦ rw e (ids-All fresh (suc i) x xs o.0, ids-Ordered fresh (suc i) xs o.1)
]

module _ (fresh : ℕ → Text) (now : ℕ) (data_ : Reservations) (h : IsExclusive data_) where
  opened-IsExclusive : (key : Text) → IsExclusive (opened fresh now data_ key).0
  unfolding opened
  opened-IsExclusive key = prune-IsExclusive now data_ h

  opened-Ordered : (key : Text) → Ordered apart (opened fresh now data_ key).1
  unfolding opened
  opened-Ordered key = ids-Ordered fresh 0 _ (prune-IsExclusive now data_ h key)

  save_if-IsExclusive :
      (changed : Bool) (key : Text)
      → IsExclusive (
          some_or
            (save_if changed (opened fresh now data_ key).0 key (opened fresh now data_ key).1)
            data_)
  unfolding save_if
  save_if-IsExclusive true key =
      set-IsExclusive _ key _ (opened-IsExclusive key) (opened-Ordered key)
  save_if-IsExclusive false key = h

  -- Where owners are apart under every key, they are so after get_reservation, list_scheduled_reservations, attach_reservations, which may save
  -- pruned data and new ids.
  pub get_reservation-IsExclusive :
      (vm_id lab_name : Text)
      → IsExclusive (after data_ (get_reservation fresh now data_ vm_id lab_name))
  unfolding get_reservation
  get_reservation-IsExclusive vm_id lab_name =
      save_if-IsExclusive (opened fresh now data_ (lab_key vm_id lab_name)).2
        (lab_key vm_id lab_name)

take_first-All :
    (test : Entry → Bool) (x : Entry) (xs : List Entry)
    → All (λ y. apart x y ≡ true) xs
    → All (λ y. apart x y ≡ true) (take_first test xs).1
unfolding take_first
take_first-All test x [] h = tt
take_first-All test x (y ∷ ys) h = elim (Bool-cases (test y)) [
  | inl e ↦ rw e h.1
  | inr e ↦ rw e (h.0, take_first-All test x ys h.1)
]

take_first-Ordered :
    (test : Entry → Bool) (xs : List Entry)
    → Ordered apart xs
    → Ordered apart (take_first test xs).1
unfolding take_first
take_first-Ordered test [] o = tt
take_first-Ordered test (y ∷ ys) o = elim (Bool-cases (test y)) [
  | inl e ↦ rw e o.1
  | inr e ↦ rw e (take_first-All test y ys o.0, take_first-Ordered test ys o.1)
]

store_removed-IsExclusive :
    (base data_ : Reservations) (key : Text) (otherwise : Option Reservations)
    (r : Option Entry × List Entry)
    → IsExclusive (some_or otherwise base)
    → IsExclusive data_
    → Ordered apart r.1
    → IsExclusive (after base (store_removed data_ key otherwise r))
unfolding store_removed
store_removed-IsExclusive base data_ key otherwise (none, kept) ho h o = ho
store_removed-IsExclusive base data_ key otherwise (some x, kept) ho h o =
    set-IsExclusive data_ key kept h o

module _ (fresh : ℕ → Text) (now : ℕ) (data_ : Reservations) (h : IsExclusive data_) where
  -- So does listing the bookings to come.
  pub list_scheduled-IsExclusive :
      (vm_id lab_name : Text)
      → IsExclusive (after data_ (list_scheduled_reservations fresh now data_ vm_id lab_name))
  unfolding list_scheduled_reservations
  list_scheduled-IsExclusive vm_id lab_name =
      save_if-IsExclusive fresh now data_ h (opened fresh now data_ (lab_key vm_id lab_name)).2
        (lab_key vm_id lab_name)

-- So does attaching the bookings to a list of machines.
pub attach-IsExclusive :
    (now : ℕ) (data_ : Reservations) (items : List (Text × List Text))
    → IsExclusive data_
    → IsExclusive (after data_ (attach_reservations now data_ items))
unfolding attach_reservations
attach-IsExclusive now data_ items h = elim (Bool-cases (prune_expired_entries now data_).1) [
  | inl e ↦ rw e (prune-IsExclusive now data_ h)
  | inr e ↦ rw e h
]

-- Where owners are apart under every key, they are so after a cancellation, whether it finds the
-- booking or not.
pub cancel-IsExclusive :
    (fresh : ℕ → Text) (now : ℕ) (data_ : Reservations) (vm_id lab_name reservation_id : Text)
    → IsExclusive data_
    → IsExclusive
        (after data_ (cancel_scheduled_reservation fresh now data_ vm_id lab_name reservation_id))
unfolding cancel_scheduled_reservation
cancel-IsExclusive fresh now data_ vm_id lab_name reservation_id h =
    let key = lab_key vm_id lab_name in
    let test = λ (x : Entry). x.reservation_id == reservation_id && is_future now x in
    store_removed-IsExclusive data_ (opened fresh now data_ key).0 key
      (save_if (opened fresh now data_ key).2 (opened fresh now data_ key).0 key
        (opened fresh now data_ key).1)
      (take_first test (opened fresh now data_ key).1)
      (save_if-IsExclusive fresh now data_ h (opened fresh now data_ key).2 key)
      (opened-IsExclusive fresh now data_ h key)
      (take_first-Ordered test (opened fresh now data_ key).1
        (opened-Ordered fresh now data_ h key))

-- Where owners are apart under every key, they are so after a release.
pub release-IsExclusive :
    (now : ℕ) (data_ : Reservations) (vm_id lab_name : Text)
    → IsExclusive data_
    → IsExclusive (after data_ (release_lab now data_ vm_id lab_name))
unfolding release_lab
release-IsExclusive now data_ vm_id lab_name h =
    let key = lab_key vm_id lab_name in
    let data' = (prune_expired_entries now data_).0 in
    let test = λ (x : Entry). is_active_now x now in
    store_removed-IsExclusive data_ data' key none (take_first test (entries_for_key data' key)) h
      (prune-IsExclusive now data_ h)
      (take_first-Ordered test (entries_for_key data' key) (prune-IsExclusive now data_ h key))

entry_start-moved_entry :
    (x : Entry) (now start : ℕ) (d : ℤ) → entry_start (moved_entry x now start d) ≡ some start
unfolding entry_start moved_entry
entry_start-moved_entry x now start d = refl

entry_end-moved_entry :
    (x : Entry) (now start : ℕ) (d : ℤ)
    → entry_end (moved_entry x now start d) ≡ some (start + pos_part d)
unfolding entry_end moved_entry
entry_end-moved_entry x now start d = refl

moved_entry-apart :
    (x : Entry) (now start : ℕ) (d : ℤ) (y : Entry)
    → clashes start (start + pos_part d) x.owner_username y ≡ false
    → apart (moved_entry x now start d) y ≡ true
unfolding moved_entry
moved_entry-apart x now start d y h =
    apart-window (moved_entry x now start d) y start (start + pos_part d)
      (entry_start-moved_entry x now start d) (entry_end-moved_entry x now start d) h

moved-Ordered :
    (x : Entry) (now start : ℕ) (d : ℤ) (i : ℕ) (entries : List Entry)
    → Ordered apart entries
    → conflict start (start + pos_part d) x.owner_username (erase_at entries i) ≡ none
    → Ordered apart (sorted (start_le 0) (set entries i (moved_entry x now start d)))
moved-Ordered x now start d i entries o h =
    Ordered-sorted_symmetric apart apart_symm (start_le 0)
      (set entries i (moved_entry x now start d))
      (Ordered-set apart apart_symm entries i (moved_entry x now start d) o (
        All-mono (λ y. clashes start (start + pos_part d) x.owner_username y ≡ false)
          (λ y. apart (moved_entry x now start d) y ≡ true) (moved_entry-apart x now start d)
          (erase_at entries i)
          (no_conflict start (start + pos_part d) x.owner_username (erase_at entries i) h)))

-- What `move_target` has tested when it saves, and what it saves.
pub record IsMoved (now : ℕ) (data_ : Reservations) (key : Text) (entries : List Entry) (i : ℕ)
    (target : Entry) (starts_at : Option Stamp) (duration_hours : Option ℤ) (d : Reservations)
    (start : ℕ) (duration : ℤ) : Type 0 where
  pub window : requested_window now target starts_at duration_hours ≡ ok (start, duration)
  pub free :
      conflict start (start + pos_part duration) target.owner_username (erase_at entries i) ≡ none
  pub allowed :
      exceeds_simultaneous
        (λ k x. k == key && x.reservation_id == target.reservation_id)
        start
        (start + pos_part duration)
        target.owner_username
        data_
      ≡ false
  pub result :
      (move_target now data_ key entries i target starts_at duration_hours).0
      ≡ ok (some (moved_entry target now start duration))
  pub saved :
      d
      ≡ set_entries_for_key data_ key
          (sorted (start_le 0) (set entries i (moved_entry target now start duration)))

Result-cases : {A : Type 0} (r : Result A) → ((e : Error) × (r ≡ err e)) ⊎ ((a : A) × (r ≡ ok a))
Result-cases (ok a) = inr (a, refl)
Result-cases (err e) = inl (e, refl)

pub move_target-saves :
    (now : ℕ) (data_ : Reservations) (key : Text) (entries : List Entry) (i : ℕ) (target : Entry)
    (starts_at : Option Stamp) (duration_hours : Option ℤ) (d : Reservations)
    → (move_target now data_ key entries i target starts_at duration_hours).1 ≡ some d
    → (start : ℕ) × (duration : ℤ) × IsMoved now data_ key entries i target starts_at duration_hours
        d start duration
unfolding move_target
move_target-saves now data_ key entries i target starts_at duration_hours d h =
    elim (Result-cases (requested_window now target starts_at duration_hours)) [
      | inl (e, p) ↦ absurd (ground arith)
      | inr ((start, duration), p) ↦ (
        start,
        duration,
        record {
          window = p;
          free = ground arith;
          allowed = ground arith;
          result = ground arith;
          saved = ground arith;
        },
      )
    ]

move_target-IsExclusive :
    (now : ℕ) (base data_ : Reservations) (key : Text) (entries : List Entry) (i : ℕ)
    (target : Entry) (starts_at : Option Stamp) (duration_hours : Option ℤ)
    → IsExclusive base
    → IsExclusive data_
    → Ordered apart entries
    → IsExclusive (after base (move_target now data_ key entries i target starts_at duration_hours))
move_target-IsExclusive now base data_ key entries i target starts_at duration_hours hb h o =
    elim (Option-cases (move_target now data_ key entries i target starts_at duration_hours).1) [
      | inl e ↦ rw e hb
      | inr (d, e) ↦ rw e (
          let (start, duration, m) =
            move_target-saves now data_ key entries i target starts_at duration_hours d e in
          rw m.saved (
            set-IsExclusive data_ key
              (sorted (start_le 0) (set entries i (moved_entry target now start duration))) h
              (moved-Ordered target now start duration i entries o m.free)))
    ]

-- Where owners are apart under every key, they are so after update_scheduled_reservation, whatever
-- is asked for.
pub update-IsExclusive :
    (fresh : ℕ → Text) (now : ℕ) (data_ : Reservations) (vm_id lab_name reservation_id : Text)
    (starts_at : Option Stamp) (duration_hours : Option ℤ)
    → IsExclusive data_
    → IsExclusive (
        after data_ (
          update_scheduled_reservation fresh now data_ vm_id lab_name reservation_id starts_at
            duration_hours))
unfolding update_scheduled_reservation
update-IsExclusive fresh now data_ vm_id lab_name reservation_id starts_at duration_hours h =
    let key = lab_key vm_id lab_name in
    let data' = (prune_expired_entries now data_).0 in
    let entries = (ensure_entry_ids fresh 0 (entries_for_key data' key)).0 in
    let o = ids-Ordered fresh 0 (entries_for_key data' key) (prune-IsExclusive now data_ h key) in
    elim (Option-cases
      (find_from 0 (λ x. x.reservation_id == reservation_id && is_future now x) entries)) [
        | inl e ↦ rw (e, update_scheduled_reservation) h
        | inr ((i, target), e) ↦
            rw (e, update_scheduled_reservation)
              (move_target-IsExclusive now data_ (set_entries_for_key data' key entries) key entries
                i target starts_at duration_hours h
                (set-IsExclusive data' key entries (prune-IsExclusive now data_ h) o) o)
      ]
