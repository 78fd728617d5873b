-- ===== src/Reservations/Extension/Criterion.antt =====
-- reservations.py: proofs on when `extend_reservation` succeeds, and that it does not look at the other
-- bookings of the lab.
use clab_manager.Prelude.{
  ℕ, ◌+◌, ◌-◌, ◌*◌, ◌≤◌, ◌<◌, ◌≡◌, ◌↔◌, refl, sym, ap, ◌∙◌, true, false, some, List, ◌∷◌, ◌++◌, In,
  inl, inr, ◌⊎◌, keep, length, All, arith, Text, ◌==◌, lower, leb, ltb, false≢true, Bool-cases,
  In-keep, if◌then◌else◌,
}
use clab_manager.Prelude.Int.{ℤ, pos, pos_part, ◌+ℤ◌, ◌-ℤ◌, ◌≤ℤ◌, ltb_ℤ, leb_ℤ, int_laws}
use clab_manager.Reservations.Data.{
  Stamp, Hours, Entry, Reservations, hour, max_reservation_total_hours, lab_key, entry_start,
  entry_end, same_owner, intervals_overlap, is_active_now, entries_for_key, prune_expired_entries,
}
use clab_manager.Reservations.Data.Laws.{entries-prune}
use clab_manager.Reservations.Booking.{Error, ok, Outcome, raises, after, find_from, clashes}
use clab_manager.Reservations.Extending.{
  current_total, extended_entry, extend_until, extend_found, extend_reservation,
}
use clab_manager.Reservations.Exclusive.{IsExclusive}
use clab_manager.Reservations.Extension.{extend_until_lem}
use clab_manager.Reservations.Extension.Effects.{free_of_exclusive, extended_entry-fields}
use clab_manager.Reservations.Found.Split.{
  has_not_ended, keep-unexpired, unexpired-active, find_from-first,
}

-- The counted duration of a booking from `r` to `e`: the stored number, or else the time between.
abbrev pub IsTotal : Entry → ℕ → ℕ → ℤ → Type 0
IsTotal x r e d =
    (x.duration_hours ≡ Hours.num d)
    ⊎ (((x.duration_hours ≡ Hours.absent) ⊎ (x.duration_hours ≡ Hours.unreadable))
        × (d ≡ pos (e - r)))

-- The first active booking of the lab, with dates that have an offset.
pub record IsRunning (now : ℕ) (xs : List Entry) (x : Entry) (front back : List Entry)
    (start r e : ℕ) (d : ℤ) : Type 0 where
  pub split : xs ≡ front ++ (x ∷ back)
  pub before : All (λ z. is_active_now z now ≡ false) front
  pub starts : entry_start x ≡ some start
  pub begun : start ≤ now
  pub made_at : x.reserved_at ≡ Stamp.aware r
  pub ends : x.expires_at ≡ Stamp.aware e
  pub due : now ≤ e
  pub counted : IsTotal x r e d

entry_end-aware : (x : Entry) (e : ℕ) → x.expires_at ≡ Stamp.aware e → entry_end x ≡ some e
unfolding entry_end
entry_end-aware x e h = rw h

active_of :
    (x : Entry) (start e now : ℕ)
    → entry_start x ≡ some start
    → entry_end x ≡ some e
    → start ≤ now
    → now ≤ e
    → is_active_now x now ≡ true
unfolding is_active_now
active_of x start e now s t h k = ground arith

total_lem :
    (x : Entry) (r e : ℕ) (d : ℤ)
    → IsTotal x r e d
    → current_total x.duration_hours (Stamp.aware r) e ≡ some d
unfolding current_total
total_lem x r e d (inl h) = rw h refl
total_lem x r e d (inr (inl h, k)) = rw (h, k) refl
total_lem x r e d (inr (inr h, k)) = rw (h, k) refl

not_lt : (m n : ℕ) → n ≤ m → ltb m n ≡ false
not_lt m n h = ground arith

not_le : (m n : ℕ) → n < m → leb m n ≡ false
not_le m n h = ground arith

fits_of :
    (d additional : ℤ)
    → pos 1 ≤ℤ additional
    → d +ℤ additional ≤ℤ pos max_reservation_total_hours
    → (leb_ℤ (pos max_reservation_total_hours -ℤ d) (pos 0) ≡ false)
      × (ltb_ℤ (pos max_reservation_total_hours -ℤ d) additional ≡ false)
fits_of d additional h k =
    (not_le _ _ (omega (int_laws, h, k)), not_lt _ _ (omega (int_laws, h, k)))

positive_of : (h : ℤ) → leb_ℤ h (pos 0) ≡ false → pos 1 ≤ℤ h
positive_of h e = ground arith

module _ (now : ℕ) (data' : Reservations) (key : Text) (xs : List Entry) (i : ℕ) (x : Entry)
    (additional : ℤ) (e : ℕ) (d : ℤ) where
  until_iff :
      current_total x.duration_hours x.reserved_at e ≡ some d
      → now ≤ e
      → pos 1 ≤ℤ additional
      → ((y : Entry) × ((extend_until now data' key xs i x additional e).0 ≡ ok y))
        ↔ ((e ≤ now + hour) × (d +ℤ additional ≤ℤ pos (7 * hour)))
  unfolding extend_until
  until_iff counted due positive = (
    λ (y, h).
        let (total, at, _, window, within, _, _) =
          extend_until_lem now data' key xs i x y additional e h in
        let same : total ≡ d = cc (at, counted) in (omega (arith, window), rw same at within),
    λ (window, within).
        let (a, b) = fits_of d additional positive within in
        (extended_entry x now d e additional, rw (counted, a, b) (ground arith)),
  )

  found-until :
      (r : ℕ) (reserved ends : Stamp)
      → reserved ≡ Stamp.aware r
      → ends ≡ Stamp.aware e
      → extend_found now data' key xs i x additional reserved ends
        ≡ extend_until now data' key xs i x additional e
  unfolding extend_found
  found-until r reserved ends h k = rw (h, k) refl

module _ (now : ℕ) (data_ : Reservations) (vm_id lab_name : Text) (additional : ℤ) (x : Entry)
    (front back : List Entry) (start r e : ℕ) (d : ℤ)
    (h : IsRunning now
      (entries_for_key data_ (lab_key vm_id lab_name))
      x
      front
      back
      start
      r
      e
      d) where
  abbrev current : List Entry
  current = entries_for_key (prune_expired_entries now data_).0 (lab_key vm_id lab_name)

  found_running :
      find_from 0 (λ z. is_active_now z now) current
      ≡ some (0 + length (keep (has_not_ended now) front), x)
  found_running =
      rw
        (
          entries-prune now data_ (lab_key vm_id lab_name),
          keep-unexpired now (entries_for_key data_ (lab_key vm_id lab_name)),
          h.split,
        )
        (find_from-first (has_not_ended now) (λ z. is_active_now z now) (unexpired-active now) 0
          front back x h.before
          (active_of x start e now h.starts (entry_end-aware x e h.ends) h.begun h.due))

  abbrev until : Outcome Entry
  until =
      extend_until now (prune_expired_entries now data_).0 (lab_key vm_id lab_name) current
        (0 + length (keep (has_not_ended now) front)) x additional e

  reaches :
      extend_reservation now data_ vm_id lab_name additional
      ≡ (if leb_ℤ additional (pos 0) then raises Error.bad_extension else until)
  unfolding extend_reservation
  reaches = rw found_running (
      ap (λ (o : Outcome Entry). if leb_ℤ additional (pos 0) then raises Error.bad_extension else o)
        (found-until now (prune_expired_entries now data_).0 (lab_key vm_id lab_name) current
          (0 + length (keep (has_not_ended now) front)) x additional e d r x.reserved_at
          x.expires_at h.made_at h.ends))

  reaches_until :
      leb_ℤ additional (pos 0) ≡ false
      → extend_reservation now data_ vm_id lab_name additional ≡ until
  reaches_until b = reaches ∙ rw b refl

  positive_hours :
      (y : Entry)
      → (extend_reservation now data_ vm_id lab_name additional).0 ≡ ok y
      → leb_ℤ additional (pos 0) ≡ false
  unfolding extend_reservation
  positive_hours y k = elim (Bool-cases (leb_ℤ additional (pos 0))) [
    | inl b ↦ absurd (cc (rw b at k))
    | inr b ↦ b
  ]

  pub extension_made :
      (y : Entry)
      → (extend_reservation now data_ vm_id lab_name additional).0 ≡ ok y
      → (total : ℤ) × (y ≡ extended_entry x now total e additional)
  extension_made y k =
      let made =
        extend_until_lem now (prune_expired_entries now data_).0 (lab_key vm_id lab_name) current
          (0 + length (keep (has_not_ended now) front)) x y additional e
          (sym (ap (λ (o : Outcome Entry). o.0) (reaches_until (positive_hours y k))) ∙ k) in
      (made.0, made.5)

  -- Where the first stored booking of the lab that is active has begun and has dates with an
  -- offset, extend_reservation returns an entry exactly when the hours are more than none, that
  -- booking ends within the next hour, and its counted duration with the hours is at most seven
  -- hours.
  pub extend_reservation_iff :
      ((y : Entry) × ((extend_reservation now data_ vm_id lab_name additional).0 ≡ ok y))
      ↔ ((pos 1 ≤ℤ additional) × (e ≤ now + hour) × (d +ℤ additional ≤ℤ pos (7 * hour)))
  extend_reservation_iff =
      let counted : current_total x.duration_hours x.reserved_at e ≡ some d =
        ap (λ s. current_total x.duration_hours s e) h.made_at ∙ total_lem x r e d h.counted in
      let reached =
        until_iff now (prune_expired_entries now data_).0 (lab_key vm_id lab_name) current
          (0 + length (keep (has_not_ended now) front)) x additional e d counted h.due in
      (
        λ (y, k).
            let b = positive_hours y k in
            let positive = positive_of additional b in
            let (window, fits) =
              (reached positive).0
                (y, sym (ap (λ (o : Outcome Entry). o.0) (reaches_until b)) ∙ k) in
            (positive, window, fits),
        λ (p, q, f).
            let (y, k) = (reached p).1 (q, f) in
            (
              y,
              ap (λ (o : Outcome Entry). o.0) (reaches_until (not_le _ _ (omega (arith, p)))) ∙ k,
            ),
      )

late_kept :
    (now : ℕ) (z : Entry) (b : ℕ) → entry_end z ≡ some b → now ≤ b → has_not_ended now z ≡ true
late_kept now z b h k = ground arith

clashes_of :
    (start end a b : ℕ) (owner : Text) (z : Entry)
    → entry_start z ≡ some a
    → entry_end z ≡ some b
    → start < b
    → a < end
    → (lower z.owner_username == lower owner) ≡ false
    → clashes start end owner z ≡ true
unfolding clashes same_owner intervals_overlap
clashes_of start end a b owner z az bz h k other = ground arith

-- Where the first stored booking of the lab that is active has begun, has dates with an offset and
-- ends within the next hour, and its counted duration with the hours asked for is at most seven
-- hours, and the lab has a stored booking of another owner that begins before the moved end and
-- ends after the old one, extend_reservation returns an entry, and owners are then not apart: two
-- owners hold the lab at one time.
pub extend-overlaps :
    (now : ℕ) (data_ : Reservations) (vm_id lab_name : Text) (additional : ℤ) (x : Entry)
    (front back : List Entry) (start r e : ℕ) (d : ℤ) (z : Entry) (a b : ℕ)
    → IsRunning now (entries_for_key data_ (lab_key vm_id lab_name)) x front back start r e d
    → pos 1 ≤ℤ additional
    → e ≤ now + hour
    → d +ℤ additional ≤ℤ pos (7 * hour)
    → In z (entries_for_key data_ (lab_key vm_id lab_name))
    → (lower z.owner_username == lower x.owner_username) ≡ false
    → entry_start z ≡ some a
    → entry_end z ≡ some b
    → a < e + pos_part additional
    → e < b
    → ((y : Entry) × ((extend_reservation now data_ vm_id lab_name additional).0 ≡ ok y))
      × ¬ IsExclusive (after data_ (extend_reservation now data_ vm_id lab_name additional))
extend-overlaps now data_ vm_id lab_name additional x front back start r e d z a b h p q f there
      other az bz early late =
    let (y, k) =
      (extend_reservation_iff now data_ vm_id lab_name additional x front back start r e d h).1
        (p, q, f) in
    let (total, made) =
      extension_made now data_ vm_id lab_name additional x front back start r e d h y k in
    let fields = extended_entry-fields x now total e additional in
    let owner : y.owner_username ≡ x.owner_username =
      ap (λ (v : Entry). v.owner_username) made ∙ fields.2 in
    (
      (y, k),
      λ excl.
          let free =
            free_of_exclusive now data_ vm_id lab_name additional y start (e + pos_part additional)
              k (ap entry_start made ∙ (fields.0 ∙ h.starts)) (ap entry_end made ∙ fields.1) excl z
              (rw
                (
                  entries-prune now data_ (lab_key vm_id lab_name),
                  keep-unexpired now (entries_for_key data_ (lab_key vm_id lab_name)),
                )
                (In-keep (has_not_ended now) z (entries_for_key data_ (lab_key vm_id lab_name))
                  there (late_kept now z b bz (omega (arith, h.due, late))))) in
          false≢true (
            sym free
            ∙ clashes_of start (e + pos_part additional) a b y.owner_username z az bz
                (omega (arith, h.begun, h.due, late)) early (rw owner other)),
    )
