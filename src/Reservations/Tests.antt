-- ===== src/Reservations/Tests.antt =====
-- The properties of the bookings on concrete data.
use clab_manager.Prelude.{
  ℕ, ◌+◌, ◌*◌, ◌≡◌, ◌≤◌, ◌<◌, ◌↔◌, refl, true, false, some, [], ◌∷◌, arith, Text, text, ◌==◌, lower,
  In, keys, sorted, false, List, inl, inr,
}
use clab_manager.Prelude.Int.{ℤ, pos, ◌+ℤ◌, ◌-ℤ◌, ◌≤ℤ◌}
use clab_manager.Reservations.Data.{
  Stamp, Hours, Entry, Reservations, hour, lab_key, entry_start, entry_end, is_active_now,
  entries_for_key, set_entries_for_key, prune_expired_entries, slot_entries, is_unexpired,
  same_owner,
}
use clab_manager.Reservations.Timeline.{counted_entries}
use clab_manager.Reservations.Timeline.Peak.{depth}
use clab_manager.Reservations.Queries.{get_reservation, release_lab, count_user_active_reservations}
use clab_manager.Reservations.Booking.{
  ok, err, held_by, Request, after, clashes, exceeds_simultaneous, reserve_lab, find_from,
}
use clab_manager.Reservations.Extending.{extend_reservation}
use clab_manager.Reservations.Exclusive.{apart, IsExclusive, IsBooked, set-IsExclusive}
use clab_manager.Reservations.History.{Step, History, History-IsExclusive}
use clab_manager.Reservations.Limit.{exceeds_iff, reserve_lab-limit}
use clab_manager.Reservations.Extension.Effects.{extend_tiny}
use clab_manager.Reservations.Extension.Criterion.{
  IsRunning, extend_reservation_iff, extend-overlaps,
}
use clab_manager.Reservations.Extension.Moved.{IsMoved, extend-IsMoved}
use clab_manager.Reservations.Found.Stored.{
  IsNewest, IsFreed, get_reservation-IsNewest, release_lab-IsFreed,
}

-- The booking `id` of a user, for some hours from an hour on.
abbrev booking : Text → Text → ℕ → ℕ → Entry
booking id owner from hours = record {
  reservation_id = id;
  vm_id = text "vm1";
  lab_name = text "bgp";
  reserved_by = owner;
  owner_username = owner;
  email = [];
  duration_hours = Hours.num (pos (hours * hour));
  reserved_at = Stamp.aware (90 * hour);
  starts_at = Stamp.aware (from * hour);
  expires_at = Stamp.aware ((from + hours) * hour);
  updated_at = Stamp.missing;
  extended_at = Stamp.missing;
}

abbrev key : Text
key = lab_key (text "vm1") (text "bgp")

abbrev ann : Entry
ann = booking (text "a") (text "ann") 100 2

abbrev bob : Entry
bob = booking (text "b") (text "bob") 103 1

-- Ann has the lab from hour 100 to 102, Bob from 103 to 104.
abbrev sample : Reservations
sample = set_entries_for_key [] key (ann ∷ bob ∷ [])

abbrev now : ℕ
now = 101 * hour

abbrev fresh : ℕ → Text
fresh _ = text "new"

sample-IsExclusive : IsExclusive sample
unfolding apart clashes entries_for_key slot_entries entry_start entry_end
sample-IsExclusive = set-IsExclusive [] key (ann ∷ bob ∷ []) (λ _. tt) ((refl, tt), (tt, tt))

-- Who asks for the lab, from an hour on.
abbrev asked : Text → ℕ → ℕ → Request
asked owner from hours = record {
  vm_id = text "vm1";
  lab_name = text "bgp";
  reserved_by = owner;
  email = [];
  duration_hours = pos (hours * hour);
  owner_username = owner;
  starts_at = Stamp.aware (from * hour);
}

refuses_overlap :
    (reserve_lab (asked (text "eve") 101 1) (text "e") now sample).0 ≡ err (held_by (text "ann"))
unfolding reserve_lab sorted ◌+ℤ◌ lab_key set_entries_for_key entries_for_key slot_entries ◌==◌
    is_unexpired entry_end entry_start same_owner is_active_now lower
refuses_overlap = refl

counts_ann : count_user_active_reservations now sample (text "Ann") ≡ 1
unfolding count_user_active_reservations lab_key set_entries_for_key entries_for_key slot_entries
    ◌==◌ is_unexpired entry_end entry_start same_owner is_active_now lower
counts_ann = refl

exceeds_iff_example :
    (exceeds_simultaneous (λ _ _. false) (100 * hour) (102 * hour) (text "ann") sample ≡ true) ↔ (
      (t : ℕ) × (100 * hour ≤ t)
      × (t < 102 * hour)
      × (2 ≤ depth t (counted_entries (λ _ _. false) (text "ann") sample (keys sample))))
exceeds_iff_example = exceeds_iff (λ _ _. false) (100 * hour) (102 * hour) (text "ann") sample

books :
    (reserve_lab (asked (text "eve") 104 1) (text "e") now sample).1
    ≡ some (after sample (reserve_lab (asked (text "eve") 104 1) (text "e") now sample))
unfolding reserve_lab sorted ◌+ℤ◌ lab_key set_entries_for_key entries_for_key slot_entries ◌==◌
    is_unexpired entry_end entry_start same_owner is_active_now lower
books = refl

reserve_lab-limit_example :
    (start : ℕ) × IsBooked
      (asked (text "eve") 104 1)
      (text "e")
      now
      sample
      (after sample (reserve_lab (asked (text "eve") 104 1) (text "e") now sample))
      start
    × ((t : ℕ)
        → start ≤ t
        → t < start + 1 * hour
        → depth t (
            counted_entries
              (λ k _. k == key)
              (text "eve")
              (prune_expired_entries now sample).0
              (keys (prune_expired_entries now sample).0))
          ≤ 1)
reserve_lab-limit_example =
    reserve_lab-limit (asked (text "eve") 104 1) (text "e") now sample
      (after sample (reserve_lab (asked (text "eve") 104 1) (text "e") now sample)) books

-- Ann's booking with two more hours, over the one of Bob.
abbrev longer : Entry
longer = record ann {
  duration_hours = Hours.num (pos (4 * hour));
  expires_at = Stamp.aware (104 * hour);
  extended_at = Stamp.aware now;
}

extends : (extend_reservation now sample (text "vm1") (text "bgp") (pos (2 * hour))).0 ≡ ok longer
unfolding extend_reservation ◌-ℤ◌ ◌+ℤ◌ lab_key set_entries_for_key entries_for_key slot_entries ◌==◌
    is_unexpired entry_end entry_start same_owner is_active_now lower
extends = refl

-- Ann's booking runs and is in its last hour, and Bob's comes after it.
ann-IsRunning :
    IsRunning now
      (entries_for_key sample (lab_key (text "vm1") (text "bgp")))
      ann
      []
      (bob ∷ [])
      (100 * hour)
      (90 * hour)
      (102 * hour)
      (pos (2 * hour))
unfolding lab_key set_entries_for_key entries_for_key slot_entries entry_start ◌==◌
ann-IsRunning = record {
  split = refl;
  before = tt;
  starts = refl;
  begun = omega arith;
  made_at = refl;
  ends = refl;
  due = omega arith;
  counted = inl refl;
}

extend_reservation_iff_example :
    ((y : Entry) × ((extend_reservation now sample (text "vm1") (text "bgp") (pos (2 * hour))).0
        ≡ ok y))
    ↔ ((pos 1 ≤ℤ pos (2 * hour))
        × (102 * hour ≤ now + hour)
        × (pos (2 * hour) +ℤ pos (2 * hour) ≤ℤ pos (7 * hour)))
extend_reservation_iff_example =
    extend_reservation_iff now sample (text "vm1") (text "bgp") (pos (2 * hour)) ann [] (bob ∷ [])
      (100 * hour) (90 * hour) (102 * hour) (pos (2 * hour)) ann-IsRunning

extend-IsMoved_example :
    (x : Entry) × (front : List Entry) × (back : List Entry) × (e : ℕ) × (total : ℤ) × IsMoved now
      (entries_for_key sample key)
      (entries_for_key
        (after sample (extend_reservation now sample (text "vm1") (text "bgp") (pos (2 * hour))))
        key)
      (pos (2 * hour))
      x
      longer
      front
      back
      e
      total
extend-IsMoved_example =
    extend-IsMoved now sample (text "vm1") (text "bgp") (pos (2 * hour)) longer extends

bob_there : In bob (entries_for_key sample (lab_key (text "vm1") (text "bgp")))
unfolding lab_key set_entries_for_key entries_for_key slot_entries ◌==◌
bob_there = inr (inl refl)

bob_other : (lower bob.owner_username == lower ann.owner_username) ≡ false
unfolding lower ◌==◌
bob_other = refl

four_fit : pos (2 * hour) +ℤ pos (2 * hour) ≤ℤ pos (7 * hour)
unfolding ◌+ℤ◌
four_fit = omega arith

bob_starts : entry_start bob ≡ some (103 * hour)
unfolding entry_start
bob_starts = refl

bob_ends : entry_end bob ≡ some (104 * hour)
unfolding entry_end
bob_ends = refl

extend-overlaps_example :
    ((y : Entry) × ((extend_reservation now sample (text "vm1") (text "bgp") (pos (2 * hour))).0
        ≡ ok y))
    × ¬ IsExclusive
        (after sample (extend_reservation now sample (text "vm1") (text "bgp") (pos (2 * hour))))
extend-overlaps_example =
    extend-overlaps now sample (text "vm1") (text "bgp") (pos (2 * hour)) ann [] (bob ∷ [])
      (100 * hour) (90 * hour) (102 * hour) (pos (2 * hour)) bob (103 * hour) (104 * hour)
      ann-IsRunning (omega arith) (omega arith) four_fit bob_there bob_other bob_starts bob_ends
      (omega arith) (omega arith)

-- Ann's booking with 0.179999 s more.
abbrev nudged : Entry
nudged = record ann {
  expires_at = Stamp.aware (102 * hour + 179_999);
  extended_at = Stamp.aware now;
}

nudges : (extend_reservation now sample (text "vm1") (text "bgp") (pos 179_999)).0 ≡ ok nudged
unfolding extend_reservation ◌-ℤ◌ ◌+ℤ◌ lab_key set_entries_for_key entries_for_key slot_entries ◌==◌
    is_unexpired entry_end entry_start same_owner is_active_now lower
nudges = refl

finds_ann :
    find_from 0
      (λ v. is_active_now v now)
      (entries_for_key (prune_expired_entries now sample).0 (lab_key (text "vm1") (text "bgp")))
    ≡ some (0, ann)
unfolding find_from prune_expired_entries lab_key set_entries_for_key entries_for_key slot_entries
    ◌==◌ is_unexpired entry_end entry_start same_owner is_active_now lower
finds_ann = refl

extend_tiny_example :
    (0 < 179_999)
    × (nudged.duration_hours ≡ ann.duration_hours)
    × (nudged.expires_at ≡ Stamp.aware (102 * hour + 179_999))
extend_tiny_example =
    extend_tiny now sample (text "vm1") (text "bgp") 20_000 179_999 (102 * hour) 0 ann nudged
      finds_ann refl refl (omega arith) nudges

get_reservation-IsNewest_example :
    IsNewest fresh now
      (entries_for_key sample key)
      (get_reservation fresh now sample (text "vm1") (text "bgp")).0
get_reservation-IsNewest_example =
    get_reservation-IsNewest fresh now sample (text "vm1") (text "bgp")

release_lab-IsFreed_example : IsFreed now (entries_for_key sample key) (
  (release_lab now sample (text "vm1") (text "bgp")).0,
  entries_for_key (after sample (release_lab now sample (text "vm1") (text "bgp"))) key,
)
release_lab-IsFreed_example = release_lab-IsFreed now sample (text "vm1") (text "bgp")

-- Eve books the lab after Ann, and then Ann's booking is released.
abbrev with_eve : Reservations
with_eve = after sample (reserve_lab (asked (text "eve") 102 1) (text "e") now sample)

History-IsExclusive_example :
    IsExclusive (after with_eve (release_lab now with_eve (text "vm1") (text "bgp")))
History-IsExclusive_example =
    History-IsExclusive
      (History.next (Step.reserves (asked (text "eve") 102 1) (text "e") now)
        (History.next (Step.releases now (text "vm1") (text "bgp")) History.empty))
      sample-IsExclusive
