-- ===== src/Reservations/Timeline.antt =====
-- reservations.py, the simultaneous reservation rule: the bookings that share the window become
-- events, and a sweep over the sorted events finds the highest number at one time.
pub mod Peak
use clab_manager.Prelude.{
  ℕ, Bool, true, false, not, ◌&&◌, ◌||◌, Option, none, some, List, [], ◌∷◌, ◌++◌, keep, ltb, eqb,
  if◌then◌else◌, Text, keys, min, max, sorted,
}
use clab_manager.Prelude.Int.{ℤ, pos, negsuc, ◌+ℤ◌, ltb_ℤ, leb_ℤ}
use clab_manager.Reservations.Data.{
  Entry, Reservations, entry_start, entry_end, same_owner, entries_for_key,
}

-- A time, and +1 where a booking begins or -1 where it ends.
abbrev pub Event : Type 0
Event = ℕ × ℤ

-- The order of the key `(item[0], item[1])`: at one time, ends come before beginnings.
unfoldable pub event_le : Event → Event → Bool
event_le (t, d) (u, e) = ltb t u || eqb t u && leb_ℤ d e

-- The events of a booking that shares the window `start`, `end`.
unfoldable pub entry_events : ℕ → ℕ → Entry → List Event
entry_events start end x = elim (entry_start x) [
  | none ↦ []
  | some a ↦ elim (entry_end x) [
    | none ↦ []
    | some b ↦
        if ltb (max start a) (min end b)
        then (max start a, pos 1) ∷ (min end b, negsuc 0) ∷ []
        else []
  ]
]

unfoldable pub timeline_events : ℕ → ℕ → List Entry → List Event
unfolding entry_events
timeline_events start end [] = []
timeline_events start end (x ∷ xs) = entry_events start end x ++ timeline_events start end xs

-- The bookings of the owner that the rule counts: those under `ks` that are not skipped.
unfoldable pub counted_entries :
    (Text → Entry → Bool) → Text → Reservations → List Text → List Entry
counted_entries skip owner data_ [] = []
counted_entries skip owner data_ (k ∷ ks) =
    keep (λ x. not (skip k x) && same_owner x owner) (entries_for_key data_ k)
    ++ counted_entries skip owner data_ ks

unfoldable pub higher : ℤ → ℤ → ℤ
higher top next = if ltb_ℤ top next then next else top

-- `current_overlap` and `max_overlap` along the events.
unfoldable pub sweep : ℤ → ℤ → List Event → ℤ
unfolding higher
sweep current top [] = top
sweep current top ((_, delta) ∷ es) = let next = current +ℤ delta in sweep next (higher top next) es

unfoldable pub max_overlap : ℕ → ℕ → List Entry → ℤ
unfolding sweep timeline_events event_le
max_overlap start end xs = sweep (pos 0) (pos 0) (sorted event_le (timeline_events start end xs))
