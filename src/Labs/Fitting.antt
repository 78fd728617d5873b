-- ===== src/Labs/Fitting.antt =====
-- sandbox_capacity.py: proofs on the suggested numbers of nodes.
use clab_manager.Prelude.{
  ℕ, ◌*◌, ◌≤◌, ◌<◌, ◌≡◌, false, List, [], ◌∷◌, leb, leb→le, lt→ltb, Text, Dict, sorted, Bool-cases,
  inl, inr, arith,
}
use native.Mathlib.Nat.{div-mul-le_self, mul-le-mul_right, le_of_mul-le-mul_right, eq-zero-or-pos}
use clab_manager.Auth.Data.{text_le}
use clab_manager.Labs.Capacity.{
  Resources, budgets, Weight, memory_of, cpu_of, profile_of, required, Ratio, ratio_of, smaller,
  scaled, suggest, estimate,
}

-- One fraction is at most another.
abbrev IsBelow : Ratio → Ratio → Type 0
IsBelow p q = p.0 * q.1 ≤ q.0 * p.1

scaled_lem : (r : Ratio) (count w : ℕ) → scaled r count * w * r.1 ≤ r.0 * (count * w)
unfolding scaled
scaled_lem r count w =
    let h = mul-le-mul_right w (div-mul-le_self (count * r.0) r.1) in grind (arith, h)

required-suggest :
    (weight : Weight) (r : Ratio) (counts : Dict ℕ)
    → required weight (suggest r counts) * r.1 ≤ r.0 * required weight counts
unfolding required suggest
required-suggest weight r [] = omega arith
required-suggest weight r ((kind, count) ∷ counts) =
    let h = required-suggest weight r counts in
    let k = scaled_lem r count (weight (profile_of kind)) in grind (arith, h, k)

not_leb : (a b : ℕ) → leb a b ≡ false → b ≤ a
not_leb a b e = ground arith

smaller-IsBelow : (p q : Ratio) → IsBelow (smaller p q) p × IsBelow (smaller p q) q
unfolding smaller
smaller-IsBelow p q = elim (Bool-cases (leb (p.0 * q.1) (q.0 * p.1))) [
  | inl e ↦ rw e (omega arith, leb→le (p.0 * q.1) (q.0 * p.1) e)
  | inr e ↦ rw e (not_leb (p.0 * q.1) (q.0 * p.1) e, omega arith)
]

smaller-pos : (p q : Ratio) → 0 < p.1 → 0 < q.1 → 0 < (smaller p q).1
unfolding smaller
smaller-pos p q hp hq = elim (Bool-cases (leb (p.0 * q.1) (q.0 * p.1))) [
  | inl e ↦ rw e hp
  | inr e ↦ rw e hq
]

IsBelow-trans : (p q r : Ratio) → 0 < q.1 → IsBelow p q → IsBelow q r → IsBelow p r
IsBelow-trans p q r pos h k =
    let a = mul-le-mul_right r.1 h in
    let b = mul-le-mul_right p.1 k in le_of_mul-le-mul_right (grind (arith, a, b)) pos

ratio_of-pos : (budget need : ℕ) → 0 < (ratio_of budget need).1
unfolding ratio_of
ratio_of-pos budget need = ground arith

-- A ratio below that of the budget brings the need below the budget.
fits_within :
    (weight : Weight) (r : Ratio) (counts : Dict ℕ) (budget : ℕ)
    → 0 < r.1
    → IsBelow r (ratio_of budget (required weight counts))
    → required weight (suggest r counts) * 100 ≤ budget
unfolding ratio_of
fits_within weight r counts budget pos below =
    let h = required-suggest weight r counts in
    elim (eq-zero-or-pos (required weight counts)) [
      | inl e ↦
          let low = rw e at h in
          let z : required weight (suggest r counts) ≤ 0 =
            le_of_mul-le-mul_right (grind (arith, low)) pos in
          omega (arith, z)
      | inr n ↦
          le_of_mul-le-mul_right
            (grind (arith, h, rw (lt→ltb 0 (required weight counts) n) at below)) pos
    ]

-- Where the nodes of a topology do not fit, the numbers of nodes that are suggested in their place
-- need no more memory and no more computing than the budgets.
pub estimate-fits :
    (r : Resources) (guard_band : ℕ) (mode : Text) (counts : Dict ℕ) (unknown : List Text)
    → (estimate r guard_band mode counts unknown).ok ≡ false
    → (required memory_of (estimate r guard_band mode counts unknown).suggested_by_kind * 100
        ≤ (budgets r guard_band mode).0)
      × (required cpu_of (estimate r guard_band mode counts unknown).suggested_by_kind * 100
          ≤ (budgets r guard_band mode).1)
unfolding estimate
estimate-fits r guard_band mode counts unknown full =
    let b = budgets r guard_band mode in
    let by_kind = sorted (λ (e : Text × ℕ) (f : Text × ℕ). text_le e.0 f.0) counts in
    let m = ratio_of b.0 (required memory_of by_kind) in
    let c = ratio_of b.1 (required cpu_of by_kind) in
    let first = smaller (1, 1) m in
    let mp = ratio_of-pos b.0 (required memory_of by_kind) in
    let cp = ratio_of-pos b.1 (required cpu_of by_kind) in
    let fp = smaller-pos (1, 1) m (omega arith) mp in
    let ratio = smaller first c in
    let rp = smaller-pos first c fp cp in
    let low = smaller-IsBelow first c in
    rw full (
      fits_within memory_of ratio by_kind b.0 rp
          (IsBelow-trans ratio first m fp low.0 (smaller-IsBelow (1, 1) m).1),
      fits_within cpu_of ratio by_kind b.1 rp low.1,
    )
