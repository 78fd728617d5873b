-- ===== src/Agent/Config/Compared.antt =====
-- config_management_service.py: proofs on the comparison of configurations.
pub mod Lines
use clab_manager.Prelude.{
  after_prefix, ◌≡◌, ◌↔◌, refl, sym, ap, ◌∙◌, Bool, true, false, not, ◌&&◌, ◌||◌, ◌⊎◌, none, some,
  List, [], ◌∷◌, ◌++◌, map, any, tally, eqb, Text, text, ◌==◌, eq_iff, eq_refl, elem, Bool-cases,
  Option-cases, inl, inr, arith, false≢true, sorted, tally-sorted,
}
use clab_manager.Auth.Data.{text_le}
use clab_manager.Agent.Config.Diff.{
  minus, parse_set_config, unit_of, unit_le, add_unit, units_of, delete_unit, delete_lines,
  generate_delete_commands_junos, ConfigDiff, is_none_left, calculate_config_diff,
}

elem-minus : (l : Text) (a b : List Text) → elem l (minus a b) ≡ elem l a && not (elem l b)
unfolding minus
elem-minus l [] b = refl
elem-minus l (x ∷ a) b = elim (Bool-cases (x == l)) [
  | inl e ↦ ground (arith, e, ap (λ y. elem y b) ((eq_iff x l).0 e), elem-minus l a b)
  | inr e ↦ ground (arith, e, elem-minus l a b)
]

elem-tally : (l : Text) (xs : List Text) → elem l xs ≡ not (eqb (tally (λ x. x == l) xs) 0)
elem-tally l [] = refl
elem-tally l (x ∷ xs) = ground (arith, elem-tally l xs)

elem-sorted :
    (le : Text → Text → Bool) (l : Text) (xs : List Text) → elem l (sorted le xs) ≡ elem l xs
elem-sorted le l xs =
    elem-tally l (sorted le xs)
    ∙ (ap (λ n. not (eqb n 0)) (tally-sorted le (λ x. x == l) xs) ∙ sym (elem-tally l xs))

none_left_iff : (xs : List Text) → (is_none_left xs ≡ true) ↔ ((l : Text) → elem l xs ≡ false)
unfolding is_none_left
none_left_iff [] = (λ _ l. refl, λ _. refl)
none_left_iff (x ∷ xs) =
    (λ e. absurd (false≢true e), λ f. absurd (false≢true (sym (f x) ∙ rw (eq_refl x) refl)))

or_false : (b : Bool) → b || false ≡ b
or_false true = refl
or_false false = refl

or_comm : (a b : Bool) → a || b ≡ b || a
or_comm true true = refl
or_comm true false = refl
or_comm false true = refl
or_comm false false = refl

or_true : (b : Bool) → b || true ≡ true
or_true true = refl
or_true false = refl

minus_none : (a b : Bool) → a && not b ≡ false → b && not a ≡ false → a ≡ b
minus_none true true e f = refl
minus_none true false e f = e
minus_none false true e f = sym f
minus_none false false e f = refl

same_none : (a b : Bool) → a ≡ b → a && not b ≡ false
same_none true b e = rw⁻¹ e refl
same_none false b e = refl

both_iff : (a b : Bool) → (a && b ≡ true) ↔ ((a ≡ true) × (b ≡ true))
both_iff true b = (λ e. (refl, e), λ h. h.1)
both_iff false b = (λ e. absurd (false≢true e), λ h. h.0)

-- What a comparison says of the two texts.
pub record IsDifference (base running : Text) (d : ConfigDiff) : Type 0 where
  pub missing :
      (l : Text)
      → elem l d.missing_from_running
        ≡ elem l (parse_set_config base) && not (elem l (parse_set_config running))
  pub extra :
      (l : Text)
      → elem l d.extra_in_running
        ≡ elem l (parse_set_config running) && not (elem l (parse_set_config base))
  pub same :
      (d.match ≡ true)
      ↔ ((l : Text) → elem l (parse_set_config base) ≡ elem l (parse_set_config running))

-- The comparison of two configurations lists as missing exactly the lines of the first that the
-- second lacks, as extra exactly those of the second that the first lacks, and says that they match
-- exactly when they have the same lines.
pub calculate_config_diff_lem :
    (base running family : Text)
    → IsDifference base running (calculate_config_diff base running family)
unfolding calculate_config_diff
calculate_config_diff_lem base running family =
    let a = parse_set_config base in
    let b = parse_set_config running in
    let m = none_left_iff (minus a b) in
    let n = none_left_iff (minus b a) in
    let both = both_iff (is_none_left (minus a b)) (is_none_left (minus b a)) in
    record {
      missing = λ l. elem-sorted text_le l (minus a b) ∙ elem-minus l a b;
      extra = λ l. elem-sorted text_le l (minus b a) ∙ elem-minus l b a;
      same = (
        λ e l.
            let h = both.0 e in
            minus_none (elem l a) (elem l b) (sym (elem-minus l a b) ∙ m.0 h.0 l)
              (sym (elem-minus l b a) ∙ n.0 h.1 l),
        λ f. both.1 (
          m.1 (λ l. elem-minus l a b ∙ same_none (elem l a) (elem l b) (f l)),
          n.1 (λ l. elem-minus l b a ∙ same_none (elem l b) (elem l a) (sym (f l))),
        ),
      );
    }

-- A command of the list deletes the line, or the unit that it belongs to.
pub record IsCovered (commands : List Text) (line : Text) : Type 0 where
  pub unit : (u : Text × Text) → unit_of line ≡ some u → elem (delete_unit u) commands ≡ true
  pub path :
      (rest : Text)
      → unit_of line ≡ none
      → after_prefix (text "set ") line ≡ some rest
      → elem (text "delete " ++ rest) commands ≡ true

elem-append : (l : Text) (xs ys : List Text) → elem l (xs ++ ys) ≡ elem l xs || elem l ys
elem-append l [] ys = refl
elem-append l (x ∷ xs) ys = ground (arith, elem-append l xs ys)

elem_here : (l : Text) (xs : List Text) → elem l (l ∷ xs) ≡ true
elem_here l xs = rw (eq_refl l) refl

elem_later : (l x : Text) (xs : List Text) → elem l xs ≡ true → elem l (x ∷ xs) ≡ true
elem_later l x xs h = ground (arith, h)

-- Where the text is in the list: at its head, or after it.
elem_cases : (l x : Text) (xs : List Text) → elem l (x ∷ xs) ≡ true → (x ≡ l) ⊎ (elem l xs ≡ true)
elem_cases l x xs h = elim (Bool-cases (x == l)) [
  | inl e ↦ inl ((eq_iff x l).0 e)
  | inr e ↦ inr (rw e at h)
]

delete_lines_later :
    (l x : Text) (lines : List Text)
    → elem l (delete_lines lines) ≡ true
    → elem l (delete_lines (x ∷ lines)) ≡ true
unfolding delete_lines
delete_lines_later l x lines h = elim (Option-cases (unit_of x)) [
  | inr (u, e) ↦ rw (e, delete_lines) h
  | inl e ↦ elim (Option-cases (after_prefix (text "set ") x)) [
    | inl k ↦ rw (e, k, delete_lines) h
    | inr (path, k) ↦
        rw (e, k, delete_lines) (elem_later l (text "delete " ++ path) (delete_lines lines) h)
  ]
]

path_deleted :
    (line rest : Text) (lines : List Text)
    → elem line lines ≡ true
    → unit_of line ≡ none
    → after_prefix (text "set ") line ≡ some rest
    → elem (text "delete " ++ rest) (delete_lines lines) ≡ true
unfolding delete_lines
path_deleted line rest [] h u p = absurd (false≢true h)
path_deleted line rest (x ∷ lines) h u p = elim (elem_cases line x lines h) [
  | inl e ↦
      rw (ap unit_of e ∙ u, ap (after_prefix (text "set ")) e ∙ p, delete_lines)
        (elem_here (text "delete " ++ rest) (delete_lines lines))
  | inr k ↦ delete_lines_later (text "delete " ++ rest) x lines (path_deleted line rest lines k u p)
]

has_unit : Text × Text → List (Text × Text) → Bool
has_unit u us = any (λ v. v.0 == u.0 && v.1 == u.1) us

or_left : (a b : Bool) → a ≡ true → a ≡ a || b
or_left true b e = refl
or_left false b e = absurd (false≢true e)

pair_same : (v u : Text × Text) → v.0 ≡ u.0 → v.1 ≡ u.1 → v ≡ u
pair_same (a, b) (c, d) e f = cc (e, f)

moved :
    (v u : Text × Text) (us : List (Text × Text))
    → v.0 == u.0 && v.1 == u.1 ≡ true
    → has_unit v us ≡ true
    → has_unit u us ≡ true
moved v u us k e =
    let h = (both_iff (v.0 == u.0) (v.1 == u.1)).0 k in
    sym (ap (λ w. has_unit w us) (pair_same v u ((eq_iff v.0 u.0).0 h.0) ((eq_iff v.1 u.1).0 h.1)))
    ∙ e

has_unit-add_unit :
    (u v : Text × Text) (us : List (Text × Text))
    → has_unit u (add_unit v us) ≡ has_unit u us || v.0 == u.0 && v.1 == u.1
unfolding add_unit has_unit
has_unit-add_unit u v us = elim (Bool-cases (has_unit v us)) [
  | inl e ↦ elim (Bool-cases (v.0 == u.0 && v.1 == u.1)) [
    | inl k ↦ rw e (or_left (has_unit u us) (v.0 == u.0 && v.1 == u.1) (moved v u us k e))
    | inr k ↦ rw (e, k) (sym (or_false _))
  ]
  | inr e ↦ rw e (or_comm (v.0 == u.0 && v.1 == u.1) (has_unit u us))
]

unit_listed :
    (line : Text) (u : Text × Text) (lines : List Text)
    → elem line lines ≡ true
    → unit_of line ≡ some u
    → has_unit u (units_of lines) ≡ true
unfolding units_of
unit_listed line u [] h e = absurd (false≢true h)
unit_listed line u (x ∷ lines) h e = elim (elem_cases line x lines h) [
  | inl q ↦
      rw (ap unit_of q ∙ e, units_of)
        (has_unit-add_unit u u (units_of lines) ∙ rw (eq_refl u.0, eq_refl u.1) (or_true _))
  | inr k ↦ elim (Option-cases (unit_of x)) [
    | inl q ↦ rw (q, units_of) (unit_listed line u lines k e)
    | inr (v, q) ↦
        rw (q, units_of)
          (has_unit-add_unit u v (units_of lines) ∙ rw (unit_listed line u lines k e) refl)
  ]
]

unit_deleted :
    (u : Text × Text) (us : List (Text × Text))
    → has_unit u us ≡ true
    → elem (delete_unit u) (map delete_unit us) ≡ true
unfolding has_unit
unit_deleted u [] h = absurd (false≢true h)
unit_deleted u (v ∷ us) h = elim (Bool-cases (v.0 == u.0 && v.1 == u.1)) [
  | inl e ↦
      let k = (both_iff (v.0 == u.0) (v.1 == u.1)).0 e in
      let same = pair_same v u ((eq_iff v.0 u.0).0 k.0) ((eq_iff v.1 u.1).0 k.1) in
      rw ((eq_iff (delete_unit v) (delete_unit u)).1 (ap delete_unit same)) refl
  | inr e ↦
      elem_later (delete_unit u) (delete_unit v) (map delete_unit us)
        (unit_deleted u us (rw e at h))
]

unit_tally :
    (u : Text × Text) (us : List (Text × Text))
    → has_unit u us ≡ not (eqb (tally (λ v. v.0 == u.0 && v.1 == u.1) us) 0)
unfolding has_unit
unit_tally u [] = refl
unit_tally u (v ∷ us) = ground (arith, unit_tally u us)

has_unit-sorted :
    (u : Text × Text) (us : List (Text × Text)) → has_unit u (sorted unit_le us) ≡ has_unit u us
has_unit-sorted u us =
    let p = λ (v : Text × Text). v.0 == u.0 && v.1 == u.1 in
    unit_tally u (sorted unit_le us)
    ∙ (ap (λ n. not (eqb n 0)) (tally-sorted unit_le p us) ∙ sym (unit_tally u us))

-- Every line that runs on a Junos router and is not in its base is covered by the delete commands:
-- a line of an interface unit by the deletion of its unit, any other line that begins with set by
-- the deletion of its path.
pub junos-IsCovered :
    (base_lines running_lines : List Text) (line : Text)
    → elem line running_lines ≡ true
    → elem line base_lines ≡ false
    → IsCovered (generate_delete_commands_junos base_lines running_lines) line
unfolding generate_delete_commands_junos
junos-IsCovered base_lines running_lines line r b =
    let extra = minus running_lines base_lines in
    let units = map delete_unit (sorted unit_le (units_of extra)) in
    let lines = delete_lines (sorted text_le extra) in
    let listed = elem-minus line running_lines base_lines ∙ rw (r, b) refl in
    record {
      unit = λ u e.
          elem-append (delete_unit u) units lines
          ∙ rw
              (unit_deleted u (sorted unit_le (units_of extra))
                (has_unit-sorted u (units_of extra) ∙ unit_listed line u extra listed e))
              refl;
      path = λ rest e p.
          elem-append (text "delete " ++ rest) units lines
          ∙ rw
              (path_deleted line rest (sorted text_le extra)
                (elem-sorted text_le line extra ∙ listed) e p)
              (or_true _);
    }
