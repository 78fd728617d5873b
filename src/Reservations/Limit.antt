-- ===== src/Reservations/Limit.antt =====
-- reservations.py: proofs on the rule of simultaneous reservations.
use clab_manager.Prelude.{
  ℕ, ◌+◌, ◌≤◌, ◌<◌, ◌≡◌, ◌↔◌, Bool, true, false, some, List, arith, Text, ◌==◌, keys, leb→le, leb,
  inl, inr, Bool-cases,
}
use clab_manager.Prelude.Int.{pos, pos_part, ◌+ℤ◌, int_laws, ltb_ℤ→lt, lt→ltb_ℤ}
use clab_manager.Reservations.Data.{Entry, Reservations, lab_key, prune_expired_entries}
use clab_manager.Reservations.Timeline.{counted_entries, max_overlap}
use clab_manager.Reservations.Timeline.Peak.{depth, depth-le-max_overlap, max_overlap_reached}
use clab_manager.Reservations.Booking.{Request, exceeds_simultaneous, reserve_lab}
use clab_manager.Reservations.Exclusive.{IsBooked, reserve_lab-saves}

module _ (skip : Text → Entry → Bool) (start end : ℕ) (owner : Text) (data_ : Reservations) where
  -- The bookings of the owner that the rule counts.
  abbrev others : List Entry
  others = counted_entries skip owner data_ (keys data_)

  exceeds_of_depth :
      (t : ℕ)
      → start ≤ t
      → t < end
      → 2 ≤ depth t others
      → exceeds_simultaneous skip start end owner data_ ≡ true
  unfolding exceeds_simultaneous
  exceeds_of_depth t h k two =
      lt→ltb_ℤ (pos 2) (max_overlap start end others +ℤ pos 1)
        (omega (int_laws, depth-le-max_overlap start end others t h k))

  depth_of_exceeds :
      exceeds_simultaneous skip start end owner data_ ≡ true
      → (t : ℕ) × (start ≤ t) × (t < end) × (2 ≤ depth t others)
  unfolding exceeds_simultaneous
  depth_of_exceeds h =
      let over = ltb_ℤ→lt (pos 2) (max_overlap start end others +ℤ pos 1) h in
      let (t, a, b, c) = max_overlap_reached start end others (omega int_laws) in
      (t, a, b, omega int_laws)

  -- The rule of the simultaneous reservations refuses a window exactly when at some time of the
  -- window at least two of the bookings that it counts for the owner hold.
  pub exceeds_iff :
      (exceeds_simultaneous skip start end owner data_ ≡ true)
      ↔ ((t : ℕ) × (start ≤ t) × (t < end) × (2 ≤ depth t others))
  exceeds_iff = (depth_of_exceeds, λ (t, h, k, two). exceeds_of_depth t h k two)

  at_most_one :
      exceeds_simultaneous skip start end owner data_ ≡ false
      → (t : ℕ) → start ≤ t
      → t < end
      → depth t others ≤ 1
  at_most_one h t p q = elim (Bool-cases (leb 2 (depth t others))) [
    | inl two ↦ cc (exceeds_of_depth t p q (leb→le 2 (depth t others) two), h)
    | inr few ↦ ground arith
  ]

-- Where reserve_lab saves data, the booking passed all its tests, and at no time of its window do
-- more than one of the bookings that the owner has on other labs hold.
pub reserve_lab-limit :
    (r : Request) (id : Text) (now : ℕ) (data_ d : Reservations)
    → (reserve_lab r id now data_).1 ≡ some d
    → (start : ℕ) × IsBooked r id now data_ d start
      × ((t : ℕ)
          → start ≤ t
          → t < start + pos_part r.duration_hours
          → depth t (
              counted_entries
                (λ k _. k == lab_key r.vm_id r.lab_name)
                r.owner_username
                (prune_expired_entries now data_).0
                (keys (prune_expired_entries now data_).0))
            ≤ 1)
reserve_lab-limit r id now data_ d h =
    let (start, b) = reserve_lab-saves r id now data_ d h in
    (
      start,
      b,
      at_most_one (λ k _. k == lab_key r.vm_id r.lab_name) start (start + pos_part r.duration_hours)
          r.owner_username (prune_expired_entries now data_).0 b.allowed,
    )
