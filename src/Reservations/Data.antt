-- ===== src/Reservations/Data.antt =====
-- reservations.py: the stored bookings, and the helpers that read, group and prune them.
-- A time is a number of microseconds since `datetime.min` in UTC, a duration one of microseconds.
pub mod Laws
use clab_manager.Prelude.{
  ℕ, suc, ◌*◌, Bool, true, false, not, ◌&&◌, ◌||◌, Option, none, some, List, [], ◌∷◌, ◌++◌, length,
  keep, leb, ltb, eqb, if◌then◌else◌, Text, text, ◌==◌, lower, strip, is_empty, Dict, lookup,
  insert, erase, keys,
}
use clab_manager.Prelude.Int.{ℤ}

-- A stored timestamp: absent or empty, text that is no ISO date, or a date without or with an
-- offset, as its instant.
pub data Stamp : Type 0 where
  missing garbled : Stamp
  naive aware : ℕ → Stamp

-- A stored `duration_hours`: absent, no number, or a number.
pub data Hours : Type 0 where
  absent unreadable : Hours
  num : ℤ → Hours

pub record Entry : Type 0 where
  pub reservation_id : Text
  pub vm_id : Text
  pub lab_name : Text
  pub reserved_by : Text
  pub owner_username : Text
  pub email : Text
  pub duration_hours : Hours
  pub reserved_at : Stamp
  pub starts_at : Stamp
  pub expires_at : Stamp
  pub updated_at : Stamp
  pub extended_at : Stamp

-- What the file holds for a lab: a list, whose items may be no objects, one object, or neither.
pub data Slot : Type 0 where
  many : List (Option Entry) → Slot
  one : Entry → Slot
  other : Slot

abbrev pub Reservations : Type 0
Reservations = Dict Slot

abbrev pub hour : ℕ
hour = 3_600_000_000

abbrev pub max_reservation_hours : ℕ
max_reservation_hours = 6 * hour

abbrev pub max_reservation_total_hours : ℕ
max_reservation_total_hours = 7 * hour

abbrev pub reservation_extension_window : ℕ
reservation_extension_window = 1 * hour

abbrev pub max_simultaneous_lab_reservations : ℕ
max_simultaneous_lab_reservations = 2

-- `vm_id::lab_name`
unfoldable pub lab_key : Text → Text → Text
lab_key vm_id lab_name = vm_id ++ (text "::" ++ lab_name)

unfoldable pub parse_dt : Stamp → Option ℕ
parse_dt Stamp.missing = none
parse_dt Stamp.garbled = none
parse_dt (Stamp.naive t) = some t
parse_dt (Stamp.aware t) = some t

-- `a or b` on timestamps.
unfoldable pub or_stamp : Stamp → Stamp → Stamp
or_stamp Stamp.missing b = b
or_stamp a b = a

unfoldable pub entry_start : Entry → Option ℕ
unfolding parse_dt or_stamp
entry_start x = parse_dt (or_stamp x.starts_at x.reserved_at)

unfoldable pub entry_end : Entry → Option ℕ
unfolding parse_dt
entry_end x = parse_dt x.expires_at

-- A test of both ends, false where one of them does not parse.
abbrev pub on_span : Entry → (ℕ → ℕ → Bool) → Bool
on_span x test = elim (entry_start x) [
  | none ↦ false
  | some a ↦ elim (entry_end x) [ none ↦ false | some b ↦ test a b ]
]

unfoldable pub is_active_now : Entry → ℕ → Bool
is_active_now x now = on_span x (λ a b. leb a now && leb now b)

unfoldable pub intervals_overlap : ℕ → ℕ → ℕ → ℕ → Bool
intervals_overlap start_a end_a start_b end_b = ltb start_a end_b && ltb start_b end_a

unfoldable pub same_owner : Entry → Text → Bool
same_owner x username = lower x.owner_username == lower username

-- The objects of a list.
unfoldable pub objects : List (Option Entry) → List Entry
objects [] = []
objects (none ∷ xs) = objects xs
objects (some x ∷ xs) = x ∷ objects xs

unfoldable pub slot_entries : Option Slot → List Entry
unfolding objects
slot_entries none = []
slot_entries (some (Slot.many xs)) = objects xs
slot_entries (some (Slot.one x)) = x ∷ []
slot_entries (some Slot.other) = []

unfoldable pub entries_for_key : Reservations → Text → List Entry
entries_for_key data_ key = slot_entries (lookup key data_)

unfoldable pub stored : List Entry → List (Option Entry)
stored [] = []
stored (x ∷ xs) = some x ∷ stored xs

unfoldable pub set_entries_for_key : Reservations → Text → List Entry → Reservations
unfolding stored
set_entries_for_key data_ key [] = erase key data_
set_entries_for_key data_ key (x ∷ xs) = insert key (Slot.many (stored (x ∷ xs))) data_

-- `fresh i` is the text of the `uuid4()` drawn for the item at position `i`. The flag says whether
-- any was drawn.
unfoldable pub ensure_entry_ids : (ℕ → Text) → ℕ → List Entry → List Entry × Bool
ensure_entry_ids fresh i [] = ([], false)
ensure_entry_ids fresh i (x ∷ xs) =
    let (rest, changed) = ensure_entry_ids fresh (suc i) xs in
    if is_empty (strip x.reservation_id)
    then (record x { reservation_id = fresh i } ∷ rest, true)
    else (x ∷ rest, changed)

-- An entry is dropped once its end has passed; one with no readable end is kept.
unfoldable pub is_unexpired : ℕ → Entry → Bool
is_unexpired now x = elim (entry_end x) [ none ↦ true | some b ↦ leb now b ]

unfoldable pub prune_keys : ℕ → List Text → Reservations → Reservations × Bool
prune_keys now [] data_ = (data_, false)
prune_keys now (key ∷ rest) data_ =
    let before = entries_for_key data_ key in
    let kept = keep (is_unexpired now) before in
    let (data', changed) = prune_keys now rest (set_entries_for_key data_ key kept) in
    (data', not (eqb (length kept) (length before)) || changed)

unfoldable pub prune_expired_entries : ℕ → Reservations → Reservations × Bool
unfolding prune_keys
prune_expired_entries now data_ = prune_keys now (keys data_) data_

unfoldable pub reservation_belongs_to : Entry → Text → Bool
unfolding same_owner
reservation_belongs_to x username = same_owner x username
