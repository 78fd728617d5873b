-- ===== src/Reservations/Booking.antt =====
-- reservations.py: the operations that book a lab and move a booking. Each takes the data that
-- `_load` returned, and returns its result, or what it raises, with the data that it saves.
use clab_manager.Prelude.{
  ℕ, suc, ◌+◌, Bool, not, ◌&&◌, ◌||◌, Option, none, some, List, [], ◌∷◌, ◌++◌, keep, set, erase_at,
  some_or, ltb, if◌then◌else◌, Text, text, ◌==◌, is_empty, keys, sorted,
}
use clab_manager.Prelude.Int.{ℤ, pos, pos_part, ◌+ℤ◌, ltb_ℤ, leb_ℤ}
use clab_manager.Reservations.Data.{
  Stamp, Hours, Entry, Reservations, max_reservation_hours, max_simultaneous_lab_reservations,
  lab_key, parse_dt, entry_start, on_span, intervals_overlap, same_owner, entries_for_key,
  set_entries_for_key, ensure_entry_ids, prune_expired_entries,
}
use clab_manager.Reservations.Timeline.{counted_entries, max_overlap}
use clab_manager.Reservations.Queries.{start_le, is_future}

-- What the operations raise. `type_error` is Python's refusal to compare or to subtract a date
-- with an offset and one without.
pub data Error : Type 0 where
  bad_duration bad_start past_start too_many : Error
  held_by : Text → Error
  bad_extension nothing_active unreadable expired outside_window at_maximum above_available : Error
  type_error : Error

pub data Result (A : Type 0) : Type 0 where
  ok : A → Result A
  err : Error → Result A

abbrev pub Outcome : Type 0 → Type 0
Outcome A = Result A × Option Reservations

-- The stored data after an operation.
abbrev pub after : {A : Type 0} → Reservations → A × Option Reservations → Reservations
after data_ out = some_or out.1 data_

abbrev pub raises : {A : Type 0} → Error → Outcome A
raises e = (err e, none)

-- Another owner's booking that shares the window.
unfoldable pub clashes : ℕ → ℕ → Text → Entry → Bool
unfolding intervals_overlap
clashes start end owner x = on_span x (intervals_overlap start end) && not (same_owner x owner)

-- Whom the refusal names, for the first booking that clashes.
unfoldable pub holder_of : Entry → Text
holder_of x = if is_empty x.reserved_by then text "quelqu'un d'autre" else x.reserved_by

unfoldable pub conflict : ℕ → ℕ → Text → List Entry → Option Text
unfolding clashes holder_of
conflict start end owner [] = none
conflict start end owner (x ∷ xs) =
    if clashes start end owner x then some (holder_of x) else conflict start end owner xs

-- `max_overlap + 1 > MAX_SIMULTANEOUS_LAB_RESERVATIONS`
unfoldable pub exceeds_simultaneous : (Text → Entry → Bool) → ℕ → ℕ → Text → Reservations → Bool
unfolding max_overlap counted_entries
exceeds_simultaneous skip start end owner data_ =
    ltb_ℤ (pos max_simultaneous_lab_reservations)
      (max_overlap start end (counted_entries skip owner data_ (keys data_)) +ℤ pos 1)

pub record Request : Type 0 where
  pub vm_id : Text
  pub lab_name : Text
  pub reserved_by : Text
  pub email : Text
  pub duration_hours : ℤ
  pub owner_username : Text
  pub starts_at : Stamp

-- `starts_at` empty means now, and a start in the past is moved to now.
unfoldable pub start_time : ℕ → Stamp → Option ℕ
start_time now Stamp.missing = some now
start_time now Stamp.garbled = none
start_time now (Stamp.naive t) = some (if ltb t now then now else t)
start_time now (Stamp.aware t) = some (if ltb t now then now else t)

-- What stays of the lab's list: it drops what does not parse, and the owner's own overlaps.
unfoldable pub is_kept : ℕ → ℕ → Text → Entry → Bool
is_kept start end owner x =
    on_span x (λ a b. not (same_owner x owner && intervals_overlap start end a b))

unfoldable pub cleaned_entries : ℕ → ℕ → Text → List Entry → List Entry
unfolding is_kept
cleaned_entries start end owner = keep (is_kept start end owner)

unfoldable pub reservation_of : Request → Text → ℕ → ℕ → ℕ → Entry
reservation_of r id now start end = record {
  reservation_id = id;
  vm_id = r.vm_id;
  lab_name = r.lab_name;
  reserved_by = r.reserved_by;
  owner_username = r.owner_username;
  email = r.email;
  duration_hours = Hours.num r.duration_hours;
  reserved_at = Stamp.aware now;
  starts_at = Stamp.aware start;
  expires_at = Stamp.aware end;
  updated_at = Stamp.missing;
  extended_at = Stamp.missing;
}

-- The part of `reserve_lab` after the window is known, on the pruned data.
unfoldable pub book : Request → Text → ℕ → Reservations → ℕ → ℕ → Outcome Entry
unfolding conflict exceeds_simultaneous cleaned_entries reservation_of start_le
book r id now data_ start end =
    let key = lab_key r.vm_id r.lab_name in
    let existing = entries_for_key data_ key in
    elim (conflict start end r.owner_username existing) [
      | some holder ↦ raises (held_by holder)
      | none ↦
          if exceeds_simultaneous (λ k _. k == key) start end r.owner_username data_
          then raises too_many
          else (
            ok (reservation_of r id now start end),
            some (
                set_entries_for_key data_ key (
                  sorted (start_le 0) (
                    cleaned_entries start end r.owner_username existing
                    ++ reservation_of r id now start end ∷ []))),
          )
    ]

unfoldable pub reserve_lab : Request → Text → ℕ → Reservations → Outcome Entry
unfolding book start_time prune_expired_entries
reserve_lab r id now data_ =
    if leb_ℤ r.duration_hours (pos 0) || ltb_ℤ (pos max_reservation_hours) r.duration_hours
    then raises bad_duration
    else elim (start_time now r.starts_at) [
      | none ↦ raises bad_start
      | some start ↦
          book r id now (prune_expired_entries now data_).0 start
            (start + pos_part r.duration_hours)
    ]

-- The first item that passes the test, with its index.
unfoldable pub find_from : ℕ → (Entry → Bool) → List Entry → Option (ℕ × Entry)
find_from i test [] = none
find_from i test (x ∷ xs) =
    let rest = find_from (suc i) test xs in if test x then some (i, x) else rest

-- `float(target.get("duration_hours") or 0)`, or 0 where that raises.
unfoldable pub current_duration : Hours → ℤ
current_duration Hours.absent = pos 0
current_duration Hours.unreadable = pos 0
current_duration (Hours.num d) = d

unfoldable pub requested_start : ℕ → Entry → Option Stamp → Option ℕ
requested_start now target none = some (some_or (entry_start target) now)
requested_start now target (some s) = parse_dt s

-- The new window of a booking that is moved: its start, and its duration in place of `None`.
unfoldable pub requested_window : ℕ → Entry → Option Stamp → Option ℤ → Result (ℕ × ℤ)
unfolding requested_start current_duration
requested_window now target starts_at duration_hours = elim (requested_start now target starts_at) [
  | none ↦ err bad_start
  | some start ↦
      let duration = some_or duration_hours (current_duration target.duration_hours) in
      if ltb start now
      then err past_start
      else if leb_ℤ duration (pos 0) || ltb_ℤ (pos max_reservation_hours) duration
      then err bad_duration
      else ok (start, duration)
]

unfoldable pub moved_entry : Entry → ℕ → ℕ → ℤ → Entry
moved_entry target now start duration = record target {
  duration_hours = Hours.num duration;
  starts_at = Stamp.aware start;
  expires_at = Stamp.aware (start + pos_part duration);
  updated_at = Stamp.aware now;
}

-- The part of `update_scheduled_reservation` after the target `entries[i]` is found.
unfoldable pub move_target :
    ℕ
    → Reservations
    → Text
    → List Entry
    → ℕ
    → Entry
    → Option Stamp
    → Option ℤ
    → Outcome (Option Entry)
unfolding requested_window conflict exceeds_simultaneous moved_entry start_le
move_target now data_ key entries i target starts_at duration_hours =
    elim (requested_window now target starts_at duration_hours) [
      | err e ↦ raises e
      | ok (start, duration) ↦
          let end = start + pos_part duration in
          let owner = target.owner_username in
          elim (conflict start end owner (erase_at entries i)) [
            | some holder ↦ raises (held_by holder)
            | none ↦
                if exceeds_simultaneous
                  (λ k x. k == key && x.reservation_id == target.reservation_id) start end owner
                  data_
                then raises too_many
                else (
                  ok (some (moved_entry target now start duration)),
                  some (
                      set_entries_for_key data_ key (
                        sorted (start_le 0)
                          (set entries i (moved_entry target now start duration)))),
                )
          ]
    ]

-- The ids are written into the entries that `data` holds, so the rule reads them there.
unfoldable pub update_scheduled_reservation :
    (ℕ → Text)
    → ℕ
    → Reservations
    → Text
    → Text
    → Text
    → Option Stamp
    → Option ℤ
    → Outcome (Option Entry)
unfolding move_target find_from ensure_entry_ids prune_expired_entries
update_scheduled_reservation fresh now data_ vm_id lab_name reservation_id starts_at
      duration_hours =
    let key = lab_key vm_id lab_name in
    let data' = (prune_expired_entries now data_).0 in
    let entries = (ensure_entry_ids fresh 0 (entries_for_key data' key)).0 in
    elim (find_from 0 (λ x. x.reservation_id == reservation_id && is_future now x) entries) [
      | none ↦ (ok none, none)
      | some (i, target) ↦
          move_target now (set_entries_for_key data' key entries) key entries i target starts_at
            duration_hours
    ]
