-- ===== src/Reservations/Extension/Moved.antt =====
-- reservations.py: proofs on what `extend_reservation` stores, of the bookings of a lab as they are stored.
use clab_manager.Prelude.{ℕ, ◌+◌, ◌*◌, ◌≤◌, ◌≡◌, ◌∙◌, some, List, ◌∷◌, ◌++◌, keep, arith, Text}
use clab_manager.Prelude.Int.{ℤ, pos, pos_part, ◌+ℤ◌, ◌≤ℤ◌}
use clab_manager.Reservations.Data.{
  Stamp, Hours, Entry, Reservations, hour, lab_key, is_active_now, entries_for_key,
  prune_expired_entries,
}
use clab_manager.Reservations.Data.Laws.{entries-prune, entries-set_self}
use clab_manager.Reservations.Booking.{ok, after}
use clab_manager.Reservations.Extending.{
  current_total, round_hours, extended_entry, extend_reservation,
}
use clab_manager.Reservations.Extension.{extend_reservation_lem}
use clab_manager.Reservations.Extension.Effects.{
  round_hours_near, current_total-num, round_hours_bound,
}
use clab_manager.Reservations.Found.Split.{
  has_not_ended, keep-unexpired, unexpired-active, IsFirst, find_from-keep,
}

-- The booking `x` with its end `e` moved by the hours, as the lab keeps it among the others.
pub record IsMoved (now : ℕ) (xs after_ : List Entry) (additional : ℤ) (x y : Entry)
    (front back : List Entry) (e : ℕ) (total : ℤ) : Type 0 where
  pub first : IsFirst (λ z. is_active_now z now) xs x front back
  pub ends : x.expires_at ≡ Stamp.aware e
  pub positive : pos 1 ≤ℤ additional
  pub due : now ≤ e
  pub last_hour : e ≤ now + hour
  pub bounded : total ≤ℤ pos (7 * hour)
  pub near :
      (d : ℤ)
      → x.duration_hours ≡ Hours.num d
      → (total ≤ℤ d +ℤ additional +ℤ pos 180_000) × (d +ℤ additional ≤ℤ total +ℤ pos 180_000)
  pub made : y ≡ record x {
    duration_hours = Hours.num total;
    expires_at = Stamp.aware (e + pos_part additional);
    extended_at = Stamp.aware now;
  }
  pub leaves : after_ ≡ keep (has_not_ended now) front ++ (y ∷ keep (has_not_ended now) back)

near_of :
    (x : Entry) (e : ℕ) (d total additional : ℤ)
    → x.duration_hours ≡ Hours.num d
    → current_total x.duration_hours x.reserved_at e ≡ some total
    → (round_hours (total +ℤ additional) ≤ℤ d +ℤ additional +ℤ pos 180_000)
      × (d +ℤ additional ≤ℤ round_hours (total +ℤ additional) +ℤ pos 180_000)
near_of x e d total additional stored counted =
    let same : total ≡ d = cc (counted, stored, current_total-num d x.reserved_at e) in
    rw same (round_hours_near (d +ℤ additional))

-- Where extend_reservation returns an entry, it is the first stored booking of the lab that is
-- active, which is in the last hour before its end, with that end moved by the hours that were
-- asked for, a duration of at most seven hours, which is the stored number and the hours but for
-- half a ten-thousandth of an hour where a number was stored, and the time of the extension; and
-- the lab keeps it in its place between the bookings before it and after it, but for those whose
-- end has passed.
pub extend-IsMoved :
    (now : ℕ) (data_ : Reservations) (vm_id lab_name : Text) (additional : ℤ) (y : Entry)
    → (extend_reservation now data_ vm_id lab_name additional).0 ≡ ok y
    → (x : Entry) × (front : List Entry) × (back : List Entry) × (e : ℕ) × (total : ℤ) × IsMoved now
        (entries_for_key data_ (lab_key vm_id lab_name))
        (entries_for_key
          (after data_ (extend_reservation now data_ vm_id lab_name additional))
          (lab_key vm_id lab_name))
        additional
        x
        y
        front
        back
        e
        total
unfolding extended_entry
extend-IsMoved now data_ vm_id lab_name additional y h =
    let key = lab_key vm_id lab_name in
    let xs = entries_for_key data_ key in
    let (d, i, x, e, total, saved, k) =
      extend_reservation_lem now data_ vm_id lab_name additional y h in
    let kept : entries_for_key (prune_expired_entries now data_).0 key
        ≡ keep (has_not_ended now) xs =
      entries-prune now data_ key ∙ keep-unexpired now xs in
    let (j, front, back, at, first, sets) =
      find_from-keep (has_not_ended now) (λ z. is_active_now z now) (unexpired-active now) 0 xs i x
        (rw kept at k.chosen) in
    let here : i ≡ j = omega (arith, at) in
    (
      x,
      front,
      back,
      e,
      round_hours (total +ℤ additional),
      record {
        first = first;
        ends = k.ends;
        positive = k.positive;
        due = k.running;
        last_hour = omega (arith, k.last_hour);
        bounded = round_hours_bound (total +ℤ additional) k.within;
        near = λ d stored. near_of x e d total additional stored k.counted;
        made = k.result;
        leaves =
            rw (saved, k.saved)
              (entries-set_self (prune_expired_entries now data_).0 key _
                ∙ rw (kept, here) (sets y));
      },
    )
