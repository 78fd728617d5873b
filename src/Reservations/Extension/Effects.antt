-- ===== src/Reservations/Extension/Effects.antt =====
-- reservations.py: proofs on what `extend_reservation` does to the duration and to the other bookings.
use clab_manager.Prelude.{
  ℕ, suc, ◌+◌, ◌*◌, ◌≤◌, ◌<◌, ◌≡◌, refl, ap, sym, ◌∙◌, true, false, some, List, In, inl, inr, set,
  erase_at, arith, Text, All-In, In-erase_at, Bool-cases, lower, eq_refl, Ordered, Ordered-of_set,
}
use clab_manager.Prelude.Int.{ℤ, pos, negsuc, pos_part, ◌+ℤ◌, ◌≤ℤ◌, int_laws}
use clab_manager.Reservations.Data.{
  Stamp, Hours, Entry, Reservations, max_reservation_total_hours, lab_key, entry_start, same_owner,
  entry_end, is_active_now, entries_for_key, prune_expired_entries,
}
use clab_manager.Reservations.Data.Laws.{entries-set_self}
use clab_manager.Reservations.Booking.{ok, after, find_from, clashes}
use clab_manager.Reservations.Extending.{
  round_nat, round_hours, current_total, extended_entry, extend_reservation,
}
use clab_manager.Reservations.Exclusive.{apart, apart_symm, IsExclusive}
use clab_manager.Reservations.Extension.{extend_reservation_lem}

round_nat_bound :
    (n : ℕ) → n ≤ max_reservation_total_hours → round_nat n ≤ max_reservation_total_hours
unfolding round_nat
round_nat_bound n h = ground arith

pub round_hours_bound :
    (h : ℤ)
    → h ≤ℤ pos max_reservation_total_hours
    → round_hours h ≤ℤ pos max_reservation_total_hours
unfolding round_hours
round_hours_bound (pos n) h = omega (arith, round_nat_bound n)
round_hours_bound (negsuc n) h = omega int_laws

round_nat_near : (n : ℕ) → (round_nat n ≤ n + 180_000) × (n ≤ round_nat n + 180_000)
unfolding round_nat
round_nat_near n = ground arith

pub round_hours_near :
    (h : ℤ) → (round_hours h ≤ℤ h +ℤ pos 180_000) × (h ≤ℤ round_hours h +ℤ pos 180_000)
unfolding round_hours
round_hours_near (pos n) =
    let k = round_nat_near n in (omega (int_laws, k.0), omega (int_laws, k.1))
round_hours_near (negsuc n) =
    let k = round_nat_near (suc n) in (omega (int_laws, k.0, k.1), omega (int_laws, k.0, k.1))

-- A multiple of the unit and less than half a unit more rounds to the multiple.
round_nat_down : (q a : ℕ) → a < 180_000 → round_nat (q * 360_000 + a) ≡ q * 360_000
unfolding round_nat
round_nat_down q a h = ground arith

pub extended_entry-fields :
    (x : Entry) (now : ℕ) (total : ℤ) (expires : ℕ) (additional : ℤ)
    → (entry_start (extended_entry x now total expires additional) ≡ entry_start x)
      × (entry_end (extended_entry x now total expires additional)
          ≡ some (expires + pos_part additional))
      × ((extended_entry x now total expires additional).owner_username ≡ x.owner_username)
unfolding extended_entry entry_start entry_end
extended_entry-fields x now total expires additional = (refl, refl, refl)

clashes-same_owner : (start end : ℕ) (x : Entry) → clashes start end x.owner_username x ≡ false
unfolding clashes same_owner
clashes-same_owner start end x = ground (arith, eq_refl (lower x.owner_username))

apart_of_clash :
    (y z : Entry) (start end : ℕ)
    → entry_start y ≡ some start
    → entry_end y ≡ some end
    → apart y z ≡ true
    → clashes start end y.owner_username z ≡ false
unfolding apart
apart_of_clash y z start end hs he h = ground arith

module _ (now : ℕ) (data_ : Reservations) (vm_id lab_name : Text) (additional : ℤ) (y : Entry)
    (start end : ℕ) (h : (extend_reservation now data_ vm_id lab_name additional).0 ≡ ok y)
    (hs : entry_start y ≡ some start) (he : entry_end y ≡ some end) where
  abbrev key_ : Text
  key_ = lab_key vm_id lab_name

  abbrev before : List Entry
  before = entries_for_key (prune_expired_entries now data_).0 key_

  pub free_of_exclusive :
      IsExclusive (after data_ (extend_reservation now data_ vm_id lab_name additional))
      → (z : Entry) → In z before
      → clashes start end y.owner_username z ≡ false
  free_of_exclusive excl z there = elim (Bool-cases (clashes start end y.owner_username z)) [
    | inr free ↦ free
    | inl c ↦
        let (d, i, x, ends, total, saved, e) =
          extend_reservation_lem now data_ vm_id lab_name additional y h in
        let ordered : Ordered apart (set before i y) =
          rw (entries-set_self (prune_expired_entries now data_).0 key_ (set before i y)) at
            (rw e.saved at (rw saved at (excl key_))) in
        let owner : y.owner_username ≡ x.owner_username =
          ap (λ (v : Entry). v.owner_username) e.result
          ∙ (extended_entry-fields x now total ends additional).2 in
        let other : x ≡ z → ⊥ = λ p. cc (clashes-same_owner start end x, c, owner, p) in
        apart_of_clash y z start end hs he (
          All-In (λ v. apart y v ≡ true) z (erase_at before i)
            (Ordered-of_set apart apart_symm before i x y e.found ordered)
            (In-erase_at z x before i there e.found other))
  ]

-- What an extension by less than half a unit makes of a booking with a stored duration in whole
-- units.
extended_entry-tiny :
    (x : Entry) (now q a expires : ℕ)
    → a < 180_000
    → ((extended_entry x now (pos (q * 360_000)) expires (pos a)).duration_hours
        ≡ Hours.num (pos (q * 360_000)))
      × ((extended_entry x now (pos (q * 360_000)) expires (pos a)).expires_at
          ≡ Stamp.aware (expires + a))
unfolding extended_entry round_hours ◌+ℤ◌
extended_entry-tiny x now q a expires small = (ground (arith, round_nat_down q a small), refl)

pub current_total-num : (d : ℤ) (r : Stamp) (e : ℕ) → current_total (Hours.num d) r e ≡ some d
unfolding current_total
current_total-num d r e = refl

-- Where the active booking has a stored duration in whole ten-thousandths of an hour and an end
-- with an offset, an extension by less than 0.18 s that succeeds moves its end and leaves the
-- stored duration as it was.
pub extend_tiny :
    (now : ℕ) (data_ : Reservations) (vm_id lab_name : Text) (q a t i : ℕ) (x y : Entry)
    → find_from 0
        (λ v. is_active_now v now)
        (entries_for_key (prune_expired_entries now data_).0 (lab_key vm_id lab_name))
      ≡ some (i, x)
    → x.duration_hours ≡ Hours.num (pos (q * 360_000))
    → x.expires_at ≡ Stamp.aware t
    → a < 180_000
    → (extend_reservation now data_ vm_id lab_name (pos a)).0 ≡ ok y
    → (0 < a) × (y.duration_hours ≡ x.duration_hours) × (y.expires_at ≡ Stamp.aware (t + a))
extend_tiny now data_ vm_id lab_name q a t i x y chosen stored_ ends small h =
    let (d, i', v, expires, total, saved, e) =
      extend_reservation_lem now data_ vm_id lab_name (pos a) y h in
    let same : x ≡ v = cc (chosen, e.chosen) in
    let at : t ≡ expires = cc (ends, e.ends, same) in
    let count : pos (q * 360_000) ≡ total =
      cc (e.counted, same, stored_, current_total-num (pos (q * 360_000)) v.reserved_at expires) in
    let tiny = extended_entry-tiny x now q a t small in
    let made : y ≡ extended_entry x now (pos (q * 360_000)) t (pos a) =
      rw (same, at, count) e.result in
    (omega (arith, e.positive), rw made (tiny.0 ∙ sym stored_), rw made tiny.1)
