-- ===== src/Agent/Config/Compared/Lines.antt =====
-- config_management_service.py: proofs on the comparison of configurations, by their lines.
use clab_manager.Prelude.{
  ◌≡◌, ◌↔◌, refl, sym, ap, ◌∙◌, Bool, true, false, not, ◌&&◌, ◌||◌, List, [], ◌∷◌, eqb, Text, ◌==◌,
  eq_iff, elem, Bool-cases, inl, inr, arith, false≢true, strip, starts_with, after_prefix, In,
}
use clab_manager.Agent.Config.Lines.{splitlines}
use clab_manager.Agent.Config.Clean.{rstrip_cr}
use clab_manager.Agent.Config.Diff.{
  add, is_set_line, set_from, parse_set_config, ConfigDiff, calculate_config_diff,
}
use clab_manager.Agent.Config.Compared.{calculate_config_diff_lem}

-- A line that is not empty and whose first character is no `#`.
abbrev pub is_command : Text → Bool
is_command [] = false
is_command (c ∷ s) = not (eqb c 35)

-- The text is a line of the configuration without the blanks around it, and a command.
abbrev pub HasCommand : Text → Text → Type 0
HasCommand config l =
    (raw : Text) × In raw (splitlines config) × (strip (rstrip_cr raw) ≡ l) × (is_command l ≡ true)

is_set_line-command : (l : Text) → is_set_line l ≡ is_command l
unfolding is_set_line starts_with after_prefix
is_set_line-command [] = refl
is_set_line-command (c ∷ s) = ground arith

elem-add : (l x : Text) (xs : List Text) → elem l (add x xs) ≡ (x == l) || elem l xs
unfolding add
elem-add l x xs = ground (arith, eq_iff x l)

or_left : (a b : Bool) → a ≡ true → a || b ≡ true
or_left a b h = ground arith

or_right : (a b : Bool) → b ≡ true → a || b ≡ true
or_right a b h = ground arith

and_iff : (a b : Bool) → (a && not b ≡ true) ↔ ((a ≡ true) × ¬ (b ≡ true))
and_iff true true = (λ e. absurd (false≢true e), λ h. absurd (h.1 refl))
and_iff true false = (λ _. (refl, false≢true), λ _. refl)
and_iff false b = (λ e. absurd (false≢true e), λ h. h.0)

bool_ext : (a b : Bool) → (a ≡ true) ↔ (b ≡ true) → a ≡ b
bool_ext true b h = sym (h.0 refl)
bool_ext false true h = h.1 refl
bool_ext false false h = refl

set_from_iff :
    (l : Text) (lines : List Text)
    → (elem l (set_from lines) ≡ true)
      ↔ ((raw : Text) × In raw lines × (strip (rstrip_cr raw) ≡ l) × (is_command l ≡ true))
unfolding set_from
set_from_iff l [] = (λ e. absurd (false≢true e), λ h. elim h.1 [ ])
set_from_iff l (raw ∷ lines) =
    let line = strip (rstrip_cr raw) in
    let (back, forth) = set_from_iff l lines in
    elim (Bool-cases (is_set_line line)) [
      | inl e ↦ rw e (
        λ h. elim (Bool-cases (line == l)) [
          | inl same ↦
              let at = (eq_iff line l).0 same in
              (raw, inl refl, at, rw at at (sym (is_set_line-command line) ∙ e))
          | inr other ↦
              let (r, i, at, c) = back (rw other at (sym (elem-add l line (set_from lines)) ∙ h)) in
              (r, inr i, at, c)
        ],
        λ (r, i, at, c). elem-add l line (set_from lines) ∙ elim i [
          | inl same ↦
              or_left (line == l) (elem l (set_from lines))
                ((eq_iff line l).1 (ap (λ v. strip (rstrip_cr v)) same ∙ at))
          | inr there ↦ or_right (line == l) (elem l (set_from lines)) (forth (r, there, at, c))
        ],
      )
      | inr e ↦ rw e (
        λ h. let (r, i, at, c) = back h in (r, inr i, at, c),
        λ (r, i, at, c). elim i [
          | inl same ↦ absurd (
              false≢true (
                sym e
                ∙ (is_set_line-command line
                    ∙ (ap is_command (ap (λ v. strip (rstrip_cr v)) same ∙ at) ∙ c))))
          | inr there ↦ forth (r, there, at, c)
        ],
      )
    ]

parse_iff : (config l : Text) → (elem l (parse_set_config config) ≡ true) ↔ HasCommand config l
unfolding parse_set_config
parse_iff config l = set_from_iff l (splitlines config)

-- What a comparison says of the two texts.
pub record IsComparison (base running : Text) (d : ConfigDiff) : Type 0 where
  pub missing :
      (l : Text)
      → (elem l d.missing_from_running ≡ true) ↔ (HasCommand base l × ¬ HasCommand running l)
  pub extra :
      (l : Text) → (elem l d.extra_in_running ≡ true) ↔ (HasCommand running l × ¬ HasCommand base l)
  pub same : (d.match ≡ true) ↔ ((l : Text) → HasCommand base l ↔ HasCommand running l)

lacks_iff :
    (a b : Text) (l : Text) (found : Bool)
    → found ≡ elem l (parse_set_config a) && not (elem l (parse_set_config b))
    → (found ≡ true) ↔ (HasCommand a l × ¬ HasCommand b l)
lacks_iff a b l found h =
    let (p, q) = and_iff (elem l (parse_set_config a)) (elem l (parse_set_config b)) in
    (
      λ e. let k = p (sym h ∙ e) in ((parse_iff a l).0 k.0, λ c. k.1 ((parse_iff b l).1 c)),
      λ k. h ∙ q ((parse_iff a l).1 k.0, λ e. k.1 ((parse_iff b l).0 e)),
    )

-- The comparison of two configurations, where the commands of a text are its lines without the
-- blanks around them that are not empty and do not begin with `#`, lists as missing exactly the
-- commands of the first that the second lacks, as extra exactly those of the second that the first
-- lacks, and says that they match exactly when they have the same commands.
pub calculate_config_diff-IsComparison :
    (base running family : Text)
    → IsComparison base running (calculate_config_diff base running family)
calculate_config_diff-IsComparison base running family =
    let d = calculate_config_diff_lem base running family in
    record {
      missing = λ l. lacks_iff base running l _ (d.missing l);
      extra = λ l. lacks_iff running base l _ (d.extra l);
      same = (
        λ e l.
            let k = d.same.0 e l in
            (
              λ c. (parse_iff running l).0 (sym k ∙ (parse_iff base l).1 c),
              λ c. (parse_iff base l).0 (k ∙ (parse_iff running l).1 c),
            ),
        λ f. d.same.1 λ l. bool_ext _ _ (
          λ e. (parse_iff running l).1 ((f l).0 ((parse_iff base l).0 e)),
          λ e. (parse_iff base l).1 ((f l).1 ((parse_iff running l).0 e)),
        ),
      );
    }
