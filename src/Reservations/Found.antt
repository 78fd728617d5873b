-- ===== src/Reservations/Found.antt =====
-- reservations.py: proofs on what reading the active booking of a lab finds.
pub mod Split
pub mod Stored
use clab_manager.Prelude.{
  ℕ, ◌≤◌, ◌≡◌, refl, true, false, Option, none, some, List, [], ◌∷◌, In, inl, inr, ◌⊎◌, arith, Text,
  All, All-In, All-mono, Option-cases, ltb, ltb→lt, Bool-cases,
}
use clab_manager.Reservations.Data.{Entry, Reservations, lab_key, entry_start, is_active_now}
use clab_manager.Reservations.Queries.{
  later_of, later_active, latest_active, entry_of, opened, get_reservation,
}

-- The best so far is the latest active booking of those seen.
abbrev IsLatest : ℕ → Option (Entry × ℕ) → List Entry → Type 0
IsLatest now none seen = All (λ x. is_active_now x now ≡ false) seen
IsLatest now (some (y, s)) seen =
    (is_active_now y now ≡ true)
    × (entry_start y ≡ some s)
    × In y seen
    × All (λ x. is_active_now x now ≡ true → (a : ℕ) → entry_start x ≡ some a → a ≤ s) seen

later_active-cases :
    (now : ℕ) (best : Option (Entry × ℕ)) (x : Entry)
    → ((is_active_now x now ≡ false) × (later_active now best x ≡ best))
      ⊎ ((a : ℕ) × (is_active_now x now ≡ true)
          × (entry_start x ≡ some a)
          × (later_active now best x ≡ later_of best x a))
unfolding later_active is_active_now
later_active-cases now best x = elim (Option-cases (entry_start x)) [
  | inl e ↦ inl (ground arith)
  | inr (a, e) ↦ elim (Bool-cases (is_active_now x now)) [
    | inl active ↦ inr (a, active, e, ground arith)
    | inr idle ↦ inl (idle, ground arith)
  ]
]

later_of-IsLatest :
    (now : ℕ) (best : Option (Entry × ℕ)) (x : Entry) (a : ℕ) (seen : List Entry)
    → is_active_now x now ≡ true
    → entry_start x ≡ some a
    → IsLatest now best seen
    → IsLatest now (later_of best x a) (x ∷ seen)
unfolding later_of
later_of-IsLatest now none x a seen active e h = (
  active,
  e,
  inl refl,
  (
    (λ _ b p. ground arith),
    All-mono (λ z. is_active_now z now ≡ false)
        (λ z. is_active_now z now ≡ true → (b : ℕ) → entry_start z ≡ some b → b ≤ a)
        (λ z idle act b p. absurd (ground arith)) seen h,
  ),
)
later_of-IsLatest now (some (y, s)) x a seen active e h = elim (Bool-cases (ltb s a)) [
  | inl lt ↦ rw lt (
    active,
    e,
    inl refl,
    (
      (λ _ b p. ground arith),
      All-mono (λ z. is_active_now z now ≡ true → (b : ℕ) → entry_start z ≡ some b → b ≤ s)
          (λ z. is_active_now z now ≡ true → (b : ℕ) → entry_start z ≡ some b → b ≤ a)
          (λ z k act b p. omega (arith, k act b p, ltb→lt s a lt)) seen h.3,
    ),
  )
  | inr ge ↦ rw ge (h.0, h.1, inr h.2, ((λ _ b p. ground arith), h.3))
]

IsLatest-skip :
    (now : ℕ) (best : Option (Entry × ℕ)) (x : Entry) (seen : List Entry)
    → is_active_now x now ≡ false
    → IsLatest now best seen
    → IsLatest now best (x ∷ seen)
IsLatest-skip now none x seen idle h = (idle, h)
IsLatest-skip now (some (y, s)) x seen idle h =
    (h.0, h.1, inr h.2, ((λ act b p. absurd (ground arith)), h.3))

later_active-IsLatest :
    (now : ℕ) (best : Option (Entry × ℕ)) (x : Entry) (seen : List Entry)
    → IsLatest now best seen
    → IsLatest now (later_active now best x) (x ∷ seen)
later_active-IsLatest now best x seen h = elim (later_active-cases now best x) [
  | inl (idle, same) ↦ rw same (IsLatest-skip now best x seen idle h)
  | inr (a, active, e, same) ↦ rw same (later_of-IsLatest now best x a seen active e h)
]

-- The items of `xs`, last first, before `seen`.
abbrev onto : List Entry → List Entry → List Entry
onto [] seen = seen
onto (x ∷ xs) seen = onto xs (x ∷ seen)

latest_active-IsLatest :
    (now : ℕ) (best : Option (Entry × ℕ)) (xs seen : List Entry)
    → IsLatest now best seen
    → IsLatest now (latest_active now best xs) (onto xs seen)
unfolding latest_active
latest_active-IsLatest now best [] seen h = h
latest_active-IsLatest now best (x ∷ xs) seen h =
    latest_active-IsLatest now (later_active now best x) xs (x ∷ seen)
      (later_active-IsLatest now best x seen h)

In-onto : (z : Entry) (xs seen : List Entry) → In z xs ⊎ In z seen → In z (onto xs seen)
In-onto z [] seen (inl h) = elim h [ ]
In-onto z [] seen (inr h) = h
In-onto z (x ∷ xs) seen (inl (inl e)) = In-onto z xs (x ∷ seen) (inr (inl e))
In-onto z (x ∷ xs) seen (inl (inr h)) = In-onto z xs (x ∷ seen) (inl h)
In-onto z (x ∷ xs) seen (inr h) = In-onto z xs (x ∷ seen) (inr (inr h))

In-of_onto : (z : Entry) (xs seen : List Entry) → In z (onto xs seen) → In z xs ⊎ In z seen
In-of_onto z [] seen h = inr h
In-of_onto z (x ∷ xs) seen h = elim (In-of_onto z xs (x ∷ seen) h) [
  | inl i ↦ inl (inr i)
  | inr (inl e) ↦ inl (inl e)
  | inr (inr i) ↦ inr i
]

-- What a search for the active booking has found among the bookings `xs`.
abbrev pub IsCurrent : ℕ → List Entry → Option Entry → Type 0
IsCurrent now xs none = (z : Entry) → In z xs → is_active_now z now ≡ false
IsCurrent now xs (some y) =
    (is_active_now y now ≡ true)
    × In y xs
    × ((z : Entry) (a s : ℕ)
        → In z xs
        → is_active_now z now ≡ true
        → entry_start z ≡ some a
        → entry_start y ≡ some s
        → a ≤ s)

IsCurrent-of_latest :
    (now : ℕ) (xs : List Entry) (best : Option (Entry × ℕ))
    → IsLatest now best (onto xs [])
    → IsCurrent now xs (entry_of best)
unfolding entry_of
IsCurrent-of_latest now xs none h =
    λ z i. All-In (λ x. is_active_now x now ≡ false) z (onto xs []) h (In-onto z xs [] (inl i))
IsCurrent-of_latest now xs (some (y, s)) h = (
  h.0,
  elim (In-of_onto y xs [] h.2) [ inl i ↦ i | inr nothing ↦ absurd nothing ],
  λ z a s' i act e e'.
      let le =
        All-In (λ x. is_active_now x now ≡ true → (b : ℕ) → entry_start x ≡ some b → b ≤ s) z
          (onto xs []) h.3 (In-onto z xs [] (inl i)) act a e in
      ground arith,
)

-- What a read finds among the bookings that the pruning leaves.
pub get_reservation-IsCurrent :
    (fresh : ℕ → Text) (now : ℕ) (data_ : Reservations) (vm_id lab_name : Text)
    → IsCurrent now
        (opened fresh now data_ (lab_key vm_id lab_name)).1
        (get_reservation fresh now data_ vm_id lab_name).0
unfolding get_reservation
get_reservation-IsCurrent fresh now data_ vm_id lab_name =
    let xs = (opened fresh now data_ (lab_key vm_id lab_name)).1 in
    IsCurrent-of_latest now xs (latest_active now none xs)
      (latest_active-IsLatest now none xs [] tt)
