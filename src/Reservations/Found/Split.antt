-- ===== src/Reservations/Found/Split.antt =====
-- reservations.py: where the first booking that passes a test stands among the stored bookings of a lab.
use clab_manager.Prelude.{
  ℕ, suc, ◌+◌, ◌≡◌, refl, ap, ◌∙◌, Bool, true, false, none, some, List, [], ◌∷◌, ◌++◌, inl, inr,
  keep, length, set, All, arith, leb, Bool-cases,
}
use clab_manager.Reservations.Data.{Entry, entry_end, is_active_now, is_unexpired}
use clab_manager.Reservations.Booking.{find_from}

-- An end that does not parse, or has not passed.
abbrev pub has_not_ended : ℕ → Entry → Bool
has_not_ended now x = elim (entry_end x) [ none ↦ true | some b ↦ leb now b ]

pub keep-unexpired :
    (now : ℕ) (xs : List Entry) → keep (is_unexpired now) xs ≡ keep (has_not_ended now) xs
unfolding is_unexpired
keep-unexpired now xs = refl

pub unexpired-active :
    (now : ℕ) (x : Entry) → is_active_now x now ≡ true → has_not_ended now x ≡ true
unfolding is_active_now
unexpired-active now x h = ground arith

-- The list is `front`, then an item that passes the test, then `back`, and none of `front` passes.
pub record IsFirst (test : Entry → Bool) (xs : List Entry) (x : Entry) (front back : List Entry)
    : Type 0 where
  pub split : xs ≡ front ++ (x ∷ back)
  pub before : All (λ z. test z ≡ false) front
  pub passes : test x ≡ true

module _ (p test : Entry → Bool) (kept : (z : Entry) → test z ≡ true → p z ≡ true) where
  -- The search among the items that are kept.
  pub find_from-keep :
      (k : ℕ) (xs : List Entry) (i : ℕ) (x : Entry)
      → find_from k test (keep p xs) ≡ some (i, x)
      → (j : ℕ) × (front : List Entry) × (back : List Entry) × (i ≡ k + j)
        × IsFirst test xs x front back
        × ((y : Entry) → set (keep p xs) j y ≡ keep p front ++ (y ∷ keep p back))
  unfolding find_from
  find_from-keep k [] i x h = absurd (ground arith)
  find_from-keep k (z ∷ xs) i x h = elim (Bool-cases (test z)) [
    | inl t ↦
        let e = kept z t in
        let same : z ≡ x = ground arith in
        (
          0,
          [],
          xs,
          ground arith,
          record { split = ap (λ v. v ∷ xs) same; before = tt; passes = rw⁻¹ same t },
          λ y. rw e refl,
        )
    | inr t ↦ elim (Bool-cases (p z)) [
      | inl e ↦
          let (j, front, back, at, first, sets) = find_from-keep (suc k) xs i x (ground arith) in
          (
            suc j,
            z ∷ front,
            back,
            omega (arith, at),
            record {
              split = ap (◌∷◌ z) first.split;
              before = (t, first.before);
              passes = first.passes;
            },
            λ y. rw e (ap (◌∷◌ z) (sets y)),
          )
      | inr e ↦
          let (j, front, back, at, first, sets) = find_from-keep k xs i x (rw e at h) in
          (
            j,
            z ∷ front,
            back,
            at,
            record {
              split = ap (◌∷◌ z) first.split;
              before = (t, first.before);
              passes = first.passes;
            },
            λ y. rw e (sets y),
          )
    ]
  ]

  pub find_from-first :
      (k : ℕ) (front back : List Entry) (x : Entry)
      → All (λ z. test z ≡ false) front
      → test x ≡ true
      → find_from k test (keep p (front ++ (x ∷ back))) ≡ some (k + length (keep p front), x)
  unfolding find_from
  find_from-first k [] back x h t = rw (kept x t, t) (ap (λ n. some (n, x)) (omega arith))
  find_from-first k (z ∷ front) back x h t = elim (Bool-cases (p z)) [
    | inl e ↦
        rw (e, h.0)
          (find_from-first (suc k) front back x h.1 t ∙ ap (λ n. some (n, x)) (omega arith))
    | inr e ↦ rw e (find_from-first k front back x h.1 t)
  ]
