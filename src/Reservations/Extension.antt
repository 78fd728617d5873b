-- ===== src/Reservations/Extension.antt =====
-- reservations.py: proofs on `extend_reservation`.
pub mod Effects
pub mod Criterion
pub mod Moved
use clab_manager.Prelude.{
  ℕ, suc, ◌+◌, ◌≤◌, ◌≡◌, refl, Bool, true, false, some, List, [], ◌∷◌, inl, inr, get_elem?, set,
  arith, Text, Option-cases, Bool-cases,
}
use native.Mathlib.Nat.{zero-add}
use clab_manager.Prelude.Int.{ℤ, pos, ◌+ℤ◌, ◌-ℤ◌, ◌≤ℤ◌, ltb_ℤ, int_laws, le_of_ltb_ℤ}
use clab_manager.Reservations.Data.{
  Stamp, Entry, Reservations, max_reservation_total_hours, reservation_extension_window, lab_key,
  is_active_now, entries_for_key, set_entries_for_key, prune_expired_entries,
}
use clab_manager.Reservations.Booking.{ok, find_from}
use clab_manager.Reservations.Extending.{
  current_total, extended_entry, extend_until, extend_found, extend_reservation,
}

pub find_from_lem :
    (k : ℕ) (test : Entry → Bool) (xs : List Entry) (i : ℕ) (x : Entry)
    → find_from k test xs ≡ some (i, x)
    → (j : ℕ) × (i ≡ k + j) × (get_elem? xs j ≡ some x) × (test x ≡ true)
unfolding find_from
find_from_lem k test [] i x h = absurd (ground arith)
find_from_lem k test (y ∷ ys) i x h = elim (Bool-cases (test y)) [
  | inl e ↦ (0, ground arith, ground arith, ground arith)
  | inr e ↦
      let (j, at, here, passes) = find_from_lem (suc k) test ys i x (ground arith) in
      (suc j, omega arith, here, passes)
]

-- What an extension that succeeds has tested of the booking at index `i`, and what it saves.
pub record IsExtended (now : ℕ) (data_ : Reservations) (key : Text) (additional : ℤ) (y : Entry)
    (d : Reservations) (i : ℕ) (x : Entry) (expires : ℕ) (total : ℤ) : Type 0 where
  pub positive : pos 1 ≤ℤ additional
  pub found : get_elem? (entries_for_key (prune_expired_entries now data_).0 key) i ≡ some x
  pub chosen :
      find_from 0
        (λ v. is_active_now v now)
        (entries_for_key (prune_expired_entries now data_).0 key)
      ≡ some (i, x)
  pub active : is_active_now x now ≡ true
  pub ends : x.expires_at ≡ Stamp.aware expires
  pub counted : current_total x.duration_hours x.reserved_at expires ≡ some total
  pub running : now ≤ expires
  pub last_hour : expires ≤ now + reservation_extension_window
  pub within : total +ℤ additional ≤ℤ pos max_reservation_total_hours
  pub result : y ≡ extended_entry x now total expires additional
  pub saved :
      d
      ≡ set_entries_for_key
          (prune_expired_entries now data_).0
          key
          (set (entries_for_key (prune_expired_entries now data_).0 key) i y)

-- What `extend_until` has tested when it succeeds.
pub extend_until_lem :
    (now : ℕ) (data_ : Reservations) (key : Text) (entries : List Entry) (i : ℕ) (x y : Entry)
    (additional : ℤ) (expires : ℕ)
    → (extend_until now data_ key entries i x additional expires).0 ≡ ok y
    → (total : ℤ) × (current_total x.duration_hours x.reserved_at expires ≡ some total)
      × (now ≤ expires)
      × (expires ≤ now + reservation_extension_window)
      × (total +ℤ additional ≤ℤ pos max_reservation_total_hours)
      × (y ≡ extended_entry x now total expires additional)
      × ((extend_until now data_ key entries i x additional expires).1
          ≡ some (set_entries_for_key data_ key (set entries i y)))
unfolding extend_until
extend_until_lem now data_ key entries i x y additional expires h =
    elim (Option-cases (current_total x.duration_hours x.reserved_at expires)) [
      | inl e ↦ absurd (ground arith)
      | inr (total, e) ↦ (
        total,
        e,
        ground arith,
        ground arith,
        (let fits : ltb_ℤ (pos max_reservation_total_hours -ℤ total) additional ≡ false =
              ground arith in
            omega
              (int_laws, le_of_ltb_ℤ (pos max_reservation_total_hours -ℤ total) additional fits)),
        ground arith,
        ground arith,
      )
    ]

extend_found_lem :
    (now : ℕ) (data_ : Reservations) (key : Text) (entries : List Entry) (i : ℕ) (x y : Entry)
    (additional : ℤ) (reserved ends : Stamp)
    → (extend_found now data_ key entries i x additional reserved ends).0 ≡ ok y
    → (expires : ℕ) × (ends ≡ Stamp.aware expires)
      × (extend_found now data_ key entries i x additional reserved ends
          ≡ extend_until now data_ key entries i x additional expires)
unfolding extend_found
extend_found_lem now data_ key entries i x y additional Stamp.missing ends h = cc
extend_found_lem now data_ key entries i x y additional Stamp.garbled ends h = cc
extend_found_lem now data_ key entries i x y additional (Stamp.naive r) Stamp.missing h = cc
extend_found_lem now data_ key entries i x y additional (Stamp.naive r) Stamp.garbled h = cc
extend_found_lem now data_ key entries i x y additional (Stamp.naive r) (Stamp.naive e) h = cc
extend_found_lem now data_ key entries i x y additional (Stamp.naive r) (Stamp.aware e) h =
    (e, refl, refl)
extend_found_lem now data_ key entries i x y additional (Stamp.aware r) Stamp.missing h = cc
extend_found_lem now data_ key entries i x y additional (Stamp.aware r) Stamp.garbled h = cc
extend_found_lem now data_ key entries i x y additional (Stamp.aware r) (Stamp.naive e) h = cc
extend_found_lem now data_ key entries i x y additional (Stamp.aware r) (Stamp.aware e) h =
    (e, refl, refl)

module _ (now : ℕ) (data_ : Reservations) (vm_id lab_name : Text) (additional : ℤ) (y : Entry)
    (h : (extend_reservation now data_ vm_id lab_name additional).0 ≡ ok y) where
  abbrev lab_entries : List Entry
  lab_entries = entries_for_key (prune_expired_entries now data_).0 (lab_key vm_id lab_name)

  extend_finds :
      (pos 1 ≤ℤ additional)
      × (i : ℕ) × (x : Entry) × (find_from 0 (λ x. is_active_now x now) lab_entries ≡ some (i, x))
      × (extend_reservation now data_ vm_id lab_name additional
          ≡ extend_found now
              (prune_expired_entries now data_).0
              (lab_key vm_id lab_name)
              lab_entries
              i
              x
              additional
              x.reserved_at
              x.expires_at)
  unfolding extend_reservation
  extend_finds = elim (Option-cases (find_from 0 (λ x. is_active_now x now) lab_entries)) [
    | inl e ↦ absurd (ground arith)
    | inr ((i, x), e) ↦ (ground arith, i, x, e, ground arith)
  ]

  -- Where extend_reservation returns an entry, it is the first active booking of the lab with the
  -- new end and total, the booking runs now and is in its last hour, the total was in bounds, and
  -- the list of the lab with that entry replaced is saved.
  pub extend_reservation_lem :
      (d : Reservations) × (i : ℕ) × (x : Entry) × (expires : ℕ) × (total : ℤ)
      × ((extend_reservation now data_ vm_id lab_name additional).1 ≡ some d)
      × IsExtended now data_ (lab_key vm_id lab_name) additional y d i x expires total
  extend_reservation_lem =
      let (positive, i, x, found, same) = extend_finds in
      let (j, at, here, active) =
        find_from_lem 0 (λ x. is_active_now x now) lab_entries i x found in
      let (expires, ends, same') =
        extend_found_lem now (prune_expired_entries now data_).0 (lab_key vm_id lab_name)
          lab_entries i x y additional x.reserved_at x.expires_at (rw same at h) in
      let (total, counted, running, last_hour, within, result, saved) =
        extend_until_lem now (prune_expired_entries now data_).0 (lab_key vm_id lab_name)
          lab_entries i x y additional expires (rw same' at (rw same at h)) in
      (
        set_entries_for_key (prune_expired_entries now data_).0 (lab_key vm_id lab_name)
            (set lab_entries i y),
        i,
        x,
        expires,
        total,
        rw (same, same') saved,
        record {
          positive = positive;
          found = rw at (rw (zero-add) here);
          chosen = found;
          active = active;
          ends = ends;
          counted = counted;
          running = running;
          last_hour = last_hour;
          within = within;
          result = result;
          saved = refl;
        },
      )
