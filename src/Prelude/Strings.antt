-- ===== src/Prelude/Strings.antt =====
-- Text as a list of code points, with the methods of Python's `str` that the program calls.
-- Letters and blanks are those of ASCII.
use Prim.Native.Nat.{ℕ, zero, suc, ◌+◌, ◌/◌, ◌%◌}
use Prim.Native.Char.{code}
use Prim.Native.String.{String}
use mathlib.Core.Path.{◌≡◌, refl, ap, ◌∙◌}
use mathlib.Core.Logic.{◌↔◌, inl, inr}
use mathlib.Core.Bool.{Bool, true, false, ◌&&◌, ◌||◌}
use mathlib.Core.Option.{Option, none, some}
use mathlib.Core.List.{List, [], ◌∷◌, ◌++◌}
use native.Mathlib.Omega.{arith}
use clab_manager.Prelude.Tests.{ltb, leb, eqb, if◌then◌else◌, Bool-cases}

abbrev pub Text : Type 0
Text = List ℕ

-- A literal.
abbrev pub text : String → Text
text String.[] = []
text (String.◌∷◌ c s) = code c ∷ text s

-- `str(n)`, on fuel: a number has no more digits than its value and one.
unfoldable decimal_from : ℕ → ℕ → Text
decimal_from zero n = []
decimal_from (suc fuel) n =
    let front = decimal_from fuel (n / 10) in
    if ltb n 10 then (48 + n) ∷ [] else front ++ ((48 + n % 10) ∷ [])

unfoldable pub decimal : ℕ → Text
unfolding decimal_from
decimal n = decimal_from (suc n) n

infix 50 ◌==◌
unfoldable pub ◌==◌ : Text → Text → Bool
[] == [] = true
(a ∷ s) == (b ∷ t) = eqb a b && s == t
_ == _ = false

eq_sound : (s t : Text) → (s == t) ≡ true → s ≡ t
unfolding ◌==◌
eq_sound [] [] h = refl
eq_sound (a ∷ s) (b ∷ t) h = ground (arith, eq_sound s t)
eq_sound [] (b ∷ t) h = cc
eq_sound (a ∷ s) [] h = cc

pub eq_refl : (s : Text) → (s == s) ≡ true
unfolding ◌==◌
eq_refl [] = refl
eq_refl (a ∷ s) = ground (arith, eq_refl s)

pub eq_iff : (s t : Text) → ((s == t) ≡ true) ↔ (s ≡ t)
eq_iff s t = (eq_sound s t, λ e. ground (arith, eq_refl s))

-- `s in xs`, for a list or set of texts.
abbrev pub elem : Text → List Text → Bool
elem s [] = false
elem s (x ∷ xs) = x == s || elem s xs

lower_char : ℕ → ℕ
lower_char c = if leb 65 c && leb c 90 then c + 32 else c

-- `s.lower()`
unfoldable pub lower : Text → Text
unfolding lower_char
lower [] = []
lower (c ∷ s) = lower_char c ∷ lower s

is_blank : ℕ → Bool
is_blank c = leb 9 c && leb c 13 || leb 28 c && leb c 32

-- The truth of a text: it is not empty.
abbrev pub is_empty : Text → Bool
is_empty [] = true
is_empty (_ ∷ _) = false

unfoldable pub lstrip : Text → Text
unfolding is_blank
lstrip [] = []
lstrip (c ∷ s) = if is_blank c then lstrip s else c ∷ s

unfoldable pub rstrip : Text → Text
unfolding is_blank
rstrip [] = []
rstrip (c ∷ s) = let rest = rstrip s in if is_blank c && is_empty rest then [] else c ∷ rest

-- `s.strip()`
unfoldable pub strip : Text → Text
unfolding lstrip rstrip
strip s = rstrip (lstrip s)

pub lower_idem : (s : Text) → lower (lower s) ≡ lower s
unfolding lower lower_char
lower_idem [] = refl
lower_idem (c ∷ s) = ground (arith, lower_idem s)

rstrip_idem : (s : Text) → rstrip (rstrip s) ≡ rstrip s
unfolding rstrip
rstrip_idem [] = refl
rstrip_idem (c ∷ s) = ground (arith, rstrip_idem s)

-- What is left of a text after a prefix, if it has the prefix.
unfoldable pub after_prefix : Text → Text → Option Text
after_prefix [] s = some s
after_prefix (p ∷ ps) [] = none
after_prefix (p ∷ ps) (c ∷ cs) = let rest = after_prefix ps cs in if eqb p c then rest else none

-- `s.startswith(p)`
unfoldable pub starts_with : Text → Text → Bool
unfolding after_prefix
starts_with p s = elim (after_prefix p s) [ none ↦ false | some _ ↦ true ]

-- `p in s`
unfoldable pub contains : Text → Text → Bool
unfolding starts_with
contains p [] = starts_with p []
contains p (c ∷ cs) = starts_with p (c ∷ cs) || contains p cs

-- The text before the first `/`.
unfoldable pub before_slash : Text → Text
before_slash [] = []
before_slash (c ∷ cs) = let rest = before_slash cs in if eqb c 47 then [] else c ∷ rest

abbrev IsClean : Text → Type 0
IsClean [] = Unit
IsClean (c ∷ s) = is_blank c ≡ false

lstrip-IsClean : (s : Text) → IsClean (lstrip s)
unfolding lstrip
lstrip-IsClean [] = tt
lstrip-IsClean (c ∷ s) = elim (Bool-cases (is_blank c)) [
  | inl e ↦ rw e (lstrip-IsClean s)
  | inr e ↦ rw e e
]

-- What has no blank in front has none after the end is stripped.
lstrip-rstrip : (s : Text) → IsClean s → lstrip (rstrip s) ≡ rstrip s
unfolding lstrip rstrip
lstrip-rstrip [] h = refl
lstrip-rstrip (c ∷ s) h = rw h (rw h refl)

pub strip_idem : (s : Text) → strip (strip s) ≡ strip s
unfolding strip
strip_idem s = ap rstrip (lstrip-rstrip (lstrip s) (lstrip-IsClean s)) ∙ rstrip_idem (lstrip s)

is_blank-lower : (c : ℕ) → is_blank (lower_char c) ≡ is_blank c
unfolding is_blank lower_char
is_blank-lower c = ground arith

is_empty-lower : (s : Text) → is_empty (lower s) ≡ is_empty s
unfolding lower
is_empty-lower [] = refl
is_empty-lower (c ∷ s) = refl

lstrip-lower : (s : Text) → lstrip (lower s) ≡ lower (lstrip s)
unfolding lstrip lower
lstrip-lower [] = refl
lstrip-lower (c ∷ s) = ground (arith, is_blank-lower c, lstrip-lower s)

rstrip-lower : (s : Text) → rstrip (lower s) ≡ lower (rstrip s)
unfolding rstrip lower
rstrip-lower [] = refl
rstrip-lower (c ∷ s) = ground (arith, is_blank-lower c, rstrip-lower s, is_empty-lower (rstrip s))

strip-lower : (s : Text) → strip (lower s) ≡ lower (strip s)
unfolding strip
strip-lower s = ap rstrip (lstrip-lower s) ∙ rstrip-lower (lstrip s)

-- `str.strip().lower()` twice is the same as once.
pub lower-strip_idem : (s : Text) → lower (strip (lower (strip s))) ≡ lower (strip s)
lower-strip_idem s =
    ap lower (strip-lower (strip s) ∙ ap lower (strip_idem s)) ∙ lower_idem (strip s)
