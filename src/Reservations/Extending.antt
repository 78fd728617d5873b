-- ===== src/Reservations/Extending.antt =====
-- reservations.py: the operation that extends the active booking of a lab.
use clab_manager.Prelude.{
  ℕ, suc, ◌+◌, ◌-◌, ◌*◌, ◌/◌, ◌%◌, ◌&&◌, ◌||◌, Option, none, some, List, set, erase_at, ltb, eqb,
  if◌then◌else◌, Text,
}
use clab_manager.Prelude.Int.{ℤ, pos, negsuc, pos_part, ◌+ℤ◌, ◌-ℤ◌, ltb_ℤ, leb_ℤ}
use clab_manager.Reservations.Data.{
  Stamp, Hours, Entry, Reservations, max_reservation_total_hours, reservation_extension_window,
  lab_key, is_active_now, entries_for_key, set_entries_for_key, prune_expired_entries,
}
use clab_manager.Reservations.Booking.{
  ok, err, Outcome, raises, find_from, bad_extension, nothing_active, unreadable, expired,
  outside_window, at_maximum, above_available, type_error,
}

-- `round(h, 4)`: to the nearest multiple of a ten-thousandth of an hour, a tie to the even one.
abbrev pub rounding_unit : ℕ
rounding_unit = 360_000

unfoldable pub round_nat : ℕ → ℕ
round_nat n =
    let q = n / 360_000 in
    let r = n % 360_000 in
    if ltb (2 * r) 360_000 || eqb (2 * r) 360_000 && eqb (q % 2) 0
    then q * 360_000
    else (q + 1) * 360_000

unfoldable pub round_hours : ℤ → ℤ
unfolding round_nat
round_hours (pos n) = pos (round_nat n)
round_hours (negsuc n) = pos 0 -ℤ pos (round_nat (suc n))

-- The stored duration, or the time since the booking was made. `none`: the subtraction of a date
-- without an offset is refused.
unfoldable pub current_total : Hours → Stamp → ℕ → Option ℤ
current_total (Hours.num d) _ _ = some d
current_total _ (Stamp.aware r) expires = some (pos (expires - r))
current_total _ _ _ = none

unfoldable pub extended_entry : Entry → ℕ → ℤ → ℕ → ℤ → Entry
unfolding round_hours
extended_entry x now total expires additional = record x {
  duration_hours = Hours.num (round_hours (total +ℤ additional));
  expires_at = Stamp.aware (expires + pos_part additional);
  extended_at = Stamp.aware now;
}

-- The part of `extend_reservation` after both dates of the active booking `entries[i]` are read.
-- The window opens at `expires_at - 1h`: the test adds the hour to the other side.
unfoldable pub extend_until :
    ℕ → Reservations → Text → List Entry → ℕ → Entry → ℤ → ℕ → Outcome Entry
unfolding current_total extended_entry
extend_until now data_ key entries i x additional expires =
    if ltb expires now
    then (err expired, some (set_entries_for_key data_ key (erase_at entries i)))
    else if ltb (now + reservation_extension_window) expires
    then raises outside_window
    else elim (current_total x.duration_hours x.reserved_at expires) [
      | none ↦ raises type_error
      | some total ↦
          let remaining = pos max_reservation_total_hours -ℤ total in
          if leb_ℤ remaining (pos 0)
          then raises at_maximum
          else if ltb_ℤ remaining additional
          then raises above_available
          else (
            ok (extended_entry x now total expires additional),
            some (
                set_entries_for_key data_ key
                  (set entries i (extended_entry x now total expires additional))),
          )
    ]

-- Reads `reserved_at` and `expires_at`; `now > expires_at` is refused for a date with no offset.
unfoldable pub extend_found :
    ℕ → Reservations → Text → List Entry → ℕ → Entry → ℤ → Stamp → Stamp → Outcome Entry
unfolding extend_until
extend_found now data_ key entries i x additional Stamp.missing _ = raises unreadable
extend_found now data_ key entries i x additional Stamp.garbled _ = raises unreadable
extend_found now data_ key entries i x additional _ Stamp.missing = raises unreadable
extend_found now data_ key entries i x additional _ Stamp.garbled = raises unreadable
extend_found now data_ key entries i x additional _ (Stamp.naive _) = raises type_error
extend_found now data_ key entries i x additional _ (Stamp.aware expires) =
    extend_until now data_ key entries i x additional expires

unfoldable pub extend_reservation : ℕ → Reservations → Text → Text → ℤ → Outcome Entry
unfolding extend_found find_from prune_expired_entries
extend_reservation now data_ vm_id lab_name additional_hours =
    if leb_ℤ additional_hours (pos 0)
    then raises bad_extension
    else (let key = lab_key vm_id lab_name in
        let data' = (prune_expired_entries now data_).0 in
        let entries = entries_for_key data' key in
        elim (find_from 0 (λ x. is_active_now x now) entries) [
          | none ↦ raises nothing_active
          | some (i, x) ↦
              extend_found now data' key entries i x additional_hours x.reserved_at x.expires_at
        ])
