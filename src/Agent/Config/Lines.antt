-- ===== src/Agent/Config/Lines.antt =====
-- Python's `splitlines` and `"\n".join`, and their round trip.
use clab_manager.Prelude.{
  ℕ, ◌≡◌, refl, ap, ◌∙◌, Bool, true, false, not, ◌&&◌, ◌||◌, List, [], ◌∷◌, ◌++◌, All, all,
  if◌then◌else◌, leb, eqb, Text, Bool-cases, inl, inr, false≢true,
}

-- The line breaks of ASCII and of the controls above it.
unfoldable pub is_break : ℕ → Bool
is_break c =
    leb 10 c && leb c 13 || (leb 28 c && leb c 30 || (eqb c 133 || (eqb c 8232 || eqb c 8233)))

unfoldable pub onto_first : ℕ → List Text → List Text
onto_first c [] = (c ∷ []) ∷ []
onto_first c (l ∷ ls) = (c ∷ l) ∷ ls

-- `after_cr` tells that a line feed belongs to the break before it.
unfoldable pub lines_from : Bool → Text → List Text
unfolding is_break onto_first
lines_from after_cr [] = []
lines_from after_cr (c ∷ s) =
    let ended = [] ∷ lines_from (eqb c 13) s in
    let rest = lines_from false s in
    if after_cr && eqb c 10 then rest else if is_break c then ended else onto_first c rest

unfoldable pub splitlines : Text → List Text
unfolding lines_from
splitlines s = lines_from false s

-- `"\n".join(lines) + "\n"` for lines, and the empty text for none.
unfoldable pub unlines : List Text → Text
unlines [] = []
unlines (l ∷ ls) = l ++ 10 ∷ unlines ls

-- A line has no break in it.
abbrev pub IsLine : Text → Type 0
IsLine l = all (λ c. not (is_break c)) l ≡ true

onto_first-IsLine :
    (c : ℕ) (ls : List Text) → is_break c ≡ false → All IsLine ls → All IsLine (onto_first c ls)
unfolding onto_first
onto_first-IsLine c [] e h = (rw e refl, tt)
onto_first-IsLine c (l ∷ ls) e h = (rw e h.0, h.1)

lines_from-IsLine : (b : Bool) (s : Text) → All IsLine (lines_from b s)
unfolding lines_from
lines_from-IsLine b [] = tt
lines_from-IsLine b (c ∷ s) = elim (Bool-cases (b && eqb c 10)) [
  | inl e ↦ rw e (lines_from-IsLine false s)
  | inr e ↦ elim (Bool-cases (is_break c)) [
    | inl k ↦ rw (e, k) (refl, lines_from-IsLine (eqb c 13) s)
    | inr k ↦ rw (e, k) (onto_first-IsLine c (lines_from false s) k (lines_from-IsLine false s))
  ]
]

pub splitlines-IsLine : (s : Text) → All IsLine (splitlines s)
unfolding splitlines
splitlines-IsLine s = lines_from-IsLine false s

lines_from-line : (l s : Text) → IsLine l → lines_from false (l ++ 10 ∷ s) ≡ l ∷ lines_from false s
unfolding lines_from is_break
lines_from-line [] s h = refl
lines_from-line (c ∷ l) s h = elim (Bool-cases (is_break c)) [
  | inl e ↦ absurd (false≢true (rw e at h))
  | inr e ↦ rw (e, lines_from-line l s (rw e at h)) refl
]

-- What was put together from lines falls apart into them.
pub splitlines-unlines : (ls : List Text) → All IsLine ls → splitlines (unlines ls) ≡ ls
unfolding splitlines unlines lines_from
splitlines-unlines [] h = refl
splitlines-unlines (l ∷ ls) h =
    lines_from-line l (unlines ls) h.0 ∙ ap (λ r. l ∷ r) (splitlines-unlines ls h.1)
