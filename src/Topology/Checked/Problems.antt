-- ===== src/Topology/Checked/Problems.antt =====
-- topology_builder.py: proofs on the lists of problems, and on labels.
use clab_manager.Prelude.{
  ℕ, ◌≡◌, ◌↔◌, refl, sym, strip, lstrip, rstrip, Bool, true, false, false≢true, not, ◌&&◌, List, [],
  ◌∷◌, ◌++◌, Text, is_empty,
}
use clab_manager.Topology.Checks.{Problem, unless, is_label}

pub append_none : (xs ys : List Problem) → (xs ++ ys ≡ []) ↔ ((xs ≡ []) × (ys ≡ []))
append_none [] ys = (λ e. (refl, e), λ h. h.1)
append_none (x ∷ xs) ys = (λ e. absurd (cc e), λ h. absurd (cc (h.0)))

pub unless_none : (b : Bool) (p : Problem) → (unless b p ≡ []) ↔ (b ≡ true)
unfolding unless
unless_none true p = (λ e. refl, λ e. refl)
unless_none false p = (λ e. absurd (cc e), λ e. absurd (cc e))

pub unless_first :
    (b : Bool) (p : Problem) (ys : List Problem)
    → (unless b p ++ ys ≡ []) ↔ ((b ≡ true) × (ys ≡ []))
unfolding unless
unless_first true p ys = (λ e. (refl, e), λ h. h.1)
unless_first false p ys = (λ e. absurd (cc e), λ h. absurd (cc (h.0)))

pub label_filled : (n : ℕ) (s : Text) → is_label n s ≡ true → is_empty s ≡ false
unfolding is_label
label_filled n [] h = sym h
label_filled n (c ∷ s) h = refl

pub not-true : {b : Bool} → not b ≡ true → b ≡ false
not-true {b = true} e = sym e
not-true {b = false} e = refl

pub not_of : {b : Bool} → b ≡ false → not b ≡ true
not_of {b = true} e = sym e
not_of {b = false} e = refl

pub strip_filled : (s : Text) → is_label 30 (strip s) ≡ true → is_empty s ≡ false
unfolding is_label strip lstrip rstrip
strip_filled [] h = sym h
strip_filled (c ∷ s) h = refl

pub and_not : {a b : Bool} → not a && b ≡ true → (a ≡ false) × (b ≡ true)
and_not {a = true} e = absurd (false≢true e)
and_not {a = false} e = (refl, e)
