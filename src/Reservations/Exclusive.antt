-- ===== src/Reservations/Exclusive.antt =====
-- reservations.py: the invariant that keeps owners apart, and its proof for `reserve_lab`.
pub mod Moves
use clab_manager.Prelude.{
  ℕ, zero, suc, ◌+◌, ◌≡◌, ◌≢◌, refl, sym, ◌∙◌, ap, Bool, true, false, not, ◌&&◌, ◌||◌, Option, none,
  some, List, [], ◌∷◌, ◌++◌, ◌⊎◌, inl, inr, keep, erase_at, set, get_elem?, leb, ltb, Option-cases,
  if◌then◌else◌, arith, Text, ◌==◌, eq_iff, eq_refl, lower, All, All-keep, All-mono, Ordered,
  sorted, Bool-cases, Ordered-keep, Ordered-sorted_symmetric, Ordered-append, Ordered-erase_at,
  Ordered-set, subst,
}
use clab_manager.Prelude.Int.{ℤ, pos, pos_part, ◌≤ℤ◌, leb_ℤ, ltb_ℤ}
use clab_manager.Reservations.Data.{
  Stamp, Entry, Reservations, entry_start, entry_end, on_span, is_active_now, same_owner,
  intervals_overlap, entries_for_key, set_entries_for_key, prune_expired_entries, is_unexpired,
  lab_key, max_reservation_hours,
}
use clab_manager.Reservations.Data.Laws.{entries-set, entries-prune}
use clab_manager.Reservations.Queries.{start_le}
use clab_manager.Reservations.Booking.{
  Result, ok, err, Request, clashes, conflict, is_kept, cleaned_entries, reservation_of, book,
  reserve_lab, start_time, after, exceeds_simultaneous,
}

-- The two have one owner, or share no time.
unfoldable pub apart : Entry → Entry → Bool
unfolding clashes
apart x y = not (on_span x (λ a b. clashes a b x.owner_username y))

pub apart_symm : (x y : Entry) → apart x y ≡ true → apart y x ≡ true
unfolding apart same_owner
apart_symm x y h = ground (
  arith,
  eq_iff (lower x.owner_username) (lower y.owner_username),
  eq_iff (lower y.owner_username) (lower x.owner_username),
)

-- Under every key, any two of the bookings are apart.
abbrev pub IsExclusive : Reservations → Type 0
IsExclusive data_ = (key : Text) → Ordered apart (entries_for_key data_ key)

pub prune-IsExclusive :
    (now : ℕ) (data_ : Reservations)
    → IsExclusive data_
    → IsExclusive (prune_expired_entries now data_).0
prune-IsExclusive now data_ h key =
    rw (entries-prune now data_ key) (Ordered-keep apart (is_unexpired now) _ (h key))

pub set-IsExclusive :
    (data_ : Reservations) (k : Text) (xs : List Entry)
    → IsExclusive data_
    → Ordered apart xs
    → IsExclusive (set_entries_for_key data_ k xs)
set-IsExclusive data_ k xs h o key = elim (Bool-cases (k == key)) [
  | inl e ↦ rw (entries-set, e) o
  | inr e ↦ rw (entries-set, e) (h key)
]

-- With no conflict found, no booking in the list clashes.
no_conflict :
    (start end : ℕ) (owner : Text) (xs : List Entry)
    → conflict start end owner xs ≡ none
    → All (λ y. clashes start end owner y ≡ false) xs
unfolding conflict
no_conflict start end owner [] h = tt
no_conflict start end owner (x ∷ xs) h = ground (arith, no_conflict start end owner xs)

-- A booking over the window is apart from all that do not clash with it.
pub apart-window :
    (v y : Entry) (start end : ℕ)
    → entry_start v ≡ some start
    → entry_end v ≡ some end
    → clashes start end v.owner_username y ≡ false
    → apart v y ≡ true
unfolding apart
apart-window v y start end hs he h = ground arith

entry_start-reservation_of :
    (r : Request) (id : Text) (now start end : ℕ)
    → entry_start (reservation_of r id now start end) ≡ some start
unfolding entry_start reservation_of
entry_start-reservation_of r id now start end = refl

entry_end-reservation_of :
    (r : Request) (id : Text) (now start end : ℕ)
    → entry_end (reservation_of r id now start end) ≡ some end
unfolding entry_end reservation_of
entry_end-reservation_of r id now start end = refl

reservation_of-apart :
    (r : Request) (id : Text) (now start end : ℕ) (y : Entry)
    → clashes start end r.owner_username y ≡ false
    → apart (reservation_of r id now start end) y ≡ true
unfolding reservation_of
reservation_of-apart r id now start end y h =
    let v = reservation_of r id now start end in
    apart-window v y start end (entry_start-reservation_of r id now start end)
      (entry_end-reservation_of r id now start end) h

-- The list that `reserve_lab` writes.
pub written : Request → Text → ℕ → ℕ → ℕ → List Entry → List Entry
written r id now start end existing =
    sorted (start_le 0) (
      cleaned_entries start end r.owner_username existing ++ reservation_of r id now start end ∷ [])

written-Ordered :
    (r : Request) (id : Text) (now start end : ℕ) (existing : List Entry)
    → Ordered apart existing
    → conflict start end r.owner_username existing ≡ none
    → Ordered apart (written r id now start end existing)
unfolding written cleaned_entries
written-Ordered r id now start end existing o h =
    let v = reservation_of r id now start end in
    let kept = is_kept start end r.owner_username in
    Ordered-sorted_symmetric apart apart_symm (start_le 0) (keep kept existing ++ v ∷ []) (
      Ordered-append apart apart_symm (keep kept existing) v (Ordered-keep apart kept existing o) (
        All-keep (λ y. apart v y ≡ true) kept existing
          (All-mono (λ y. clashes start end r.owner_username y ≡ false) (λ y. apart v y ≡ true)
            (reservation_of-apart r id now start end) existing
            (no_conflict start end r.owner_username existing h))))

-- What a booking that is saved has passed, and what it saves.
pub record IsBooked (r : Request) (id : Text) (now : ℕ) (data_ d : Reservations) (start : ℕ)
    : Type 0 where
  pub positive : pos 1 ≤ℤ r.duration_hours
  pub bounded : r.duration_hours ≤ℤ pos max_reservation_hours
  pub starts : start_time now r.starts_at ≡ some start
  pub free :
      conflict start
        (start + pos_part r.duration_hours)
        r.owner_username
        (entries_for_key (prune_expired_entries now data_).0 (lab_key r.vm_id r.lab_name))
      ≡ none
  pub allowed :
      exceeds_simultaneous
        (λ k _. k == lab_key r.vm_id r.lab_name)
        start
        (start + pos_part r.duration_hours)
        r.owner_username
        (prune_expired_entries now data_).0
      ≡ false
  pub result :
      (reserve_lab r id now data_).0
      ≡ ok (reservation_of r id now start (start + pos_part r.duration_hours))
  pub saved :
      d
      ≡ set_entries_for_key (prune_expired_entries now data_).0 (lab_key r.vm_id r.lab_name) (
          written r id now start
            (start + pos_part r.duration_hours)
            (entries_for_key (prune_expired_entries now data_).0 (lab_key r.vm_id r.lab_name)))

pub reserve_lab-saves :
    (r : Request) (id : Text) (now : ℕ) (data_ d : Reservations)
    → (reserve_lab r id now data_).1 ≡ some d
    → (start : ℕ) × IsBooked r id now data_ d start
unfolding reserve_lab book written
reserve_lab-saves r id now data_ d h = elim (Option-cases (start_time now r.starts_at)) [
  | inl e ↦ absurd (ground arith)
  | inr (start, e) ↦ (
    start,
    record {
      positive = ground arith;
      bounded = ground arith;
      starts = e;
      free = ground arith;
      allowed = ground arith;
      result = ground arith;
      saved = ground arith;
    },
  )
]

-- Where under every key any two bookings have one owner or share no time, it is so after
-- reserve_lab, whatever is asked for and whether it books or refuses.
pub reserve_lab-IsExclusive :
    (r : Request) (id : Text) (now : ℕ) (data_ : Reservations)
    → IsExclusive data_
    → IsExclusive (after data_ (reserve_lab r id now data_))
reserve_lab-IsExclusive r id now data_ h = elim (Option-cases (reserve_lab r id now data_).1) [
  | inl e ↦ rw e h
  | inr (d, e) ↦ rw e (
      let (start, b) = reserve_lab-saves r id now data_ d e in
      let data' = (prune_expired_entries now data_).0 in
      let key = lab_key r.vm_id r.lab_name in
      rw b.saved (
        set-IsExclusive data' key
          (written r id now start (start + pos_part r.duration_hours) (entries_for_key data' key))
          (prune-IsExclusive now data_ h)
          (written-Ordered r id now start (start + pos_part r.duration_hours)
            (entries_for_key data' key) (prune-IsExclusive now data_ h key) b.free)))
]
