-- ===== src/Reservations/Found/Stored.antt =====
-- reservations.py: proofs on reading and releasing, of the bookings of a lab as they are stored.
use clab_manager.Prelude.{
  ℕ, suc, ◌≤◌, ◌≡◌, refl, sym, subst, ap, ◌∙◌, Bool, true, false, Option, none, some, List, [], ◌∷◌,
  ◌++◌, In, inl, inr, ◌⊎◌, keep, All, Text, strip, is_empty, Bool-cases, In-keep, In-of_keep,
  if◌then◌else◌,
}
use clab_manager.Reservations.Data.{
  Entry, Reservations, lab_key, entry_start, entry_end, is_active_now, is_unexpired,
  entries_for_key, ensure_entry_ids, prune_expired_entries,
}
use clab_manager.Reservations.Data.Laws.{entries-prune, entries-set_self}
use clab_manager.Reservations.Queries.{
  opened, get_reservation, take_first, store_removed, release_lab,
}
use clab_manager.Reservations.Booking.{after}
use clab_manager.Reservations.Found.{IsCurrent, get_reservation-IsCurrent}
use clab_manager.Reservations.Found.Split.{has_not_ended, keep-unexpired, unexpired-active, IsFirst}

-- The booking as it is stored, or with a drawn id where it is stored without one.
abbrev pub IsNamed : (ℕ → Text) → Entry → Entry → Type 0
IsNamed fresh x y =
    (y ≡ x)
    ⊎ ((is_empty (strip x.reservation_id) ≡ true)
        × (n : ℕ) × (y ≡ record x { reservation_id = fresh n }))

pub named-same :
    (fresh : ℕ → Text) (now : ℕ) (x y : Entry)
    → IsNamed fresh x y
    → (is_active_now y now ≡ is_active_now x now) × (entry_start y ≡ entry_start x)
unfolding is_active_now entry_start entry_end
named-same fresh now x y (inl e) = (ap (λ v. is_active_now v now) e, ap entry_start e)
named-same fresh now x y (inr (_, n, e)) = (ap (λ v. is_active_now v now) e, ap entry_start e)

In-of_IsNamed :
    (fresh : ℕ → Text) (i : ℕ) (xs : List Entry) (y : Entry)
    → In y (ensure_entry_ids fresh i xs).0
    → (x : Entry) × In x xs × IsNamed fresh x y
unfolding ensure_entry_ids
In-of_IsNamed fresh i [] y h = elim h [ ]
In-of_IsNamed fresh i (x ∷ xs) y h = elim (Bool-cases (is_empty (strip x.reservation_id))) [
  | inl e ↦ elim (rw e at h) [
    | inl same ↦ (x, inl refl, inr (e, i, sym same))
    | inr there ↦ let (z, k, n) = In-of_IsNamed fresh (suc i) xs y there in (z, inr k, n)
  ]
  | inr e ↦ elim (rw e at h) [
    | inl same ↦ (x, inl refl, inl (sym same))
    | inr there ↦ let (z, k, n) = In-of_IsNamed fresh (suc i) xs y there in (z, inr k, n)
  ]
]

In-IsNamed :
    (fresh : ℕ → Text) (i : ℕ) (xs : List Entry) (x : Entry)
    → In x xs
    → (y : Entry) × In y (ensure_entry_ids fresh i xs).0 × IsNamed fresh x y
unfolding ensure_entry_ids
In-IsNamed fresh i [] x h = elim h [ ]
In-IsNamed fresh i (z ∷ xs) x (inl same) = elim (Bool-cases (is_empty (strip z.reservation_id))) [
  | inl e ↦ rw e (
    record z { reservation_id = fresh i },
    inl refl,
    subst (λ v. IsNamed fresh v (record z { reservation_id = fresh i })) same (inr (e, i, refl)),
  )
  | inr e ↦ rw e (z, inl refl, inl same)
]
In-IsNamed fresh i (z ∷ xs) x (inr there) =
    let (y, k, n) = In-IsNamed fresh (suc i) xs x there in
    elim (Bool-cases (is_empty (strip z.reservation_id))) [
      | inl e ↦ rw e (y, inr k, n)
      | inr e ↦ rw e (y, inr k, n)
    ]

module _ (fresh : ℕ → Text) (now : ℕ) (data_ : Reservations) (key : Text) where
  pub In-of_opened :
      (y : Entry)
      → In y (opened fresh now data_ key).1
      → (x : Entry) × In x (entries_for_key data_ key) × IsNamed fresh x y
  unfolding opened
  In-of_opened y h =
      let (x, there, n) =
        In-of_IsNamed fresh 0 (entries_for_key (prune_expired_entries now data_).0 key) y h in
      (
        x,
        (In-of_keep (is_unexpired now) x (entries_for_key data_ key)
            (rw (entries-prune now data_ key) at there)).0,
        n,
      )

  In-opened :
      (x : Entry)
      → In x (entries_for_key data_ key)
      → is_active_now x now ≡ true
      → (y : Entry) × In y (opened fresh now data_ key).1 × IsNamed fresh x y
  unfolding opened is_unexpired
  In-opened x h active =
      In-IsNamed fresh 0 (entries_for_key (prune_expired_entries now data_).0 key) x (
        rw (entries-prune now data_ key) (
          In-keep (is_unexpired now) x (entries_for_key data_ key) h
            (unexpired-active now x active)))

-- What a read may return, where `xs` is stored.
abbrev pub IsNewest : (ℕ → Text) → ℕ → List Entry → Option Entry → Type 0
IsNewest fresh now xs none = (z : Entry) → In z xs → is_active_now z now ≡ false
IsNewest fresh now xs (some y) =
    (x : Entry) × In x xs
    × IsNamed fresh x y
    × (is_active_now x now ≡ true)
    × ((z : Entry) (a s : ℕ)
        → In z xs
        → is_active_now z now ≡ true
        → entry_start z ≡ some a
        → entry_start x ≡ some s
        → a ≤ s)

IsNewest-of_current :
    (fresh : ℕ → Text) (now : ℕ) (data_ : Reservations) (key : Text) (found : Option Entry)
    → IsCurrent now (opened fresh now data_ key).1 found
    → IsNewest fresh now (entries_for_key data_ key) found
IsNewest-of_current fresh now data_ key none h = λ z there.
    elim (Bool-cases (is_active_now z now)) [
      | inr idle ↦ idle
      | inl active ↦
          let (y, k, n) = In-opened fresh now data_ key z there active in
          sym (named-same fresh now z y n).0 ∙ h y k
    ]
IsNewest-of_current fresh now data_ key (some y) h =
    let (x, there, n) = In-of_opened fresh now data_ key y h.1 in
    let same = named-same fresh now x y n in
    (
      x,
      there,
      n,
      sym same.0 ∙ h.0,
      λ z a s i active ez ex.
          let (v, k, m) = In-opened fresh now data_ key z i active in
          let like = named-same fresh now z v m in
          h.2 v a s k (like.0 ∙ active) (like.1 ∙ ez) (same.1 ∙ ex),
    )

-- get_reservation returns a stored booking of the lab, with a drawn id where it has none, that is
-- active and has the latest start among the stored bookings of the lab that are active; and none
-- only where no stored booking of the lab is active.
pub get_reservation-IsNewest :
    (fresh : ℕ → Text) (now : ℕ) (data_ : Reservations) (vm_id lab_name : Text)
    → IsNewest fresh now
        (entries_for_key data_ (lab_key vm_id lab_name))
        (get_reservation fresh now data_ vm_id lab_name).0
get_reservation-IsNewest fresh now data_ vm_id lab_name =
    IsNewest-of_current fresh now data_ (lab_key vm_id lab_name)
      (get_reservation fresh now data_ vm_id lab_name).0
      (get_reservation-IsCurrent fresh now data_ vm_id lab_name)

-- What a release returns and leaves, where `xs` is stored.
abbrev pub IsFreed : ℕ → List Entry → Option Entry × List Entry → Type 0
IsFreed now xs (none, left) = All (λ z. is_active_now z now ≡ false) xs × (left ≡ xs)
IsFreed now xs (some y, left) =
    (front : List Entry) × (back : List Entry) × IsFirst (λ z. is_active_now z now) xs y front back
    × (left ≡ keep (has_not_ended now) front ++ keep (has_not_ended now) back)

-- What taking out the first item of the kept ones leaves of all.
abbrev IsTakenFrom :
    (Entry → Bool) → (Entry → Bool) → List Entry → Option Entry × List Entry → Type 0
IsTakenFrom p test xs (none, left) = All (λ z. test z ≡ false) xs
IsTakenFrom p test xs (some y, left) =
    (front : List Entry) × (back : List Entry) × IsFirst test xs y front back
    × (left ≡ keep p front ++ keep p back)

module _ (p test : Entry → Bool) (kept : (z : Entry) → test z ≡ true → p z ≡ true) where
  taken-later :
      (z : Entry) (xs : List Entry) (r : Option Entry × List Entry)
      → test z ≡ false
      → IsTakenFrom p test xs r
      → IsTakenFrom p test (z ∷ xs) (r.0, if p z then z ∷ r.1 else r.1)
  taken-later z xs (none, left) t h = (t, h)
  taken-later z xs (some y, left) t (front, back, first, leaves) = (
    z ∷ front,
    back,
    record { split = ap (◌∷◌ z) first.split; before = (t, first.before); passes = first.passes },
    elim (Bool-cases (p z)) [ inl e ↦ rw e (ap (◌∷◌ z) leaves) | inr e ↦ rw e leaves ],
  )

  take_first-keep : (xs : List Entry) → IsTakenFrom p test xs (take_first test (keep p xs))
  unfolding take_first
  take_first-keep [] = tt
  take_first-keep (z ∷ xs) = elim (Bool-cases (test z)) [
    | inl t ↦ rw (kept z t, t) ([], xs, record { split = refl; before = tt; passes = t }, refl)
    | inr t ↦
        let later = taken-later z xs (take_first test (keep p xs)) t (take_first-keep xs) in
        elim (Bool-cases (p z)) [ inl e ↦ rw (e, t) (rw e at later) | inr e ↦ rw e (rw e at later) ]
  ]

IsFreed-of_taken :
    (now : ℕ) (data_ data' : Reservations) (key : Text) (r : Option Entry × List Entry)
    → IsTakenFrom (has_not_ended now) (λ z. is_active_now z now) (entries_for_key data_ key) r
    → IsFreed now (entries_for_key data_ key) (
      (store_removed data' key none r).0,
      entries_for_key (after data_ (store_removed data' key none r)) key,
    )
unfolding store_removed
IsFreed-of_taken now data_ data' key (none, left) h = (h, refl)
IsFreed-of_taken now data_ data' key (some y, left) (front, back, first, leaves) =
    (front, back, first, entries-set_self data' key left ∙ leaves)

-- release_lab takes out the first stored booking of the lab that is active and returns it, and the
-- lab keeps the bookings before it and after it, in their order, but for those whose end has
-- passed; where no stored booking of the lab is active it returns none and the lab keeps its
-- bookings as they were.
pub release_lab-IsFreed :
    (now : ℕ) (data_ : Reservations) (vm_id lab_name : Text)
    → IsFreed now (entries_for_key data_ (lab_key vm_id lab_name)) (
      (release_lab now data_ vm_id lab_name).0,
      entries_for_key (after data_ (release_lab now data_ vm_id lab_name)) (lab_key vm_id lab_name),
    )
unfolding release_lab
release_lab-IsFreed now data_ vm_id lab_name =
    let key = lab_key vm_id lab_name in
    let data' = (prune_expired_entries now data_).0 in
    let test = λ (x : Entry). is_active_now x now in
    IsFreed-of_taken now data_ data' key (take_first test (entries_for_key data' key)) (
      rw (entries-prune now data_ key, keep-unexpired now (entries_for_key data_ key))
        (take_first-keep (has_not_ended now) test (unexpired-active now)
          (entries_for_key data_ key)))
