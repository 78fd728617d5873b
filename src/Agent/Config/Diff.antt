-- ===== src/Agent/Config/Diff.antt =====
-- config_management_service.py: the comparison of a stored configuration with the running one.
use clab_manager.Prelude.{
  after_prefix, starts_with, ℕ, Bool, true, false, not, ◌&&◌, ◌||◌, Option, none, some, List, [],
  ◌∷◌, ◌++◌, map, keep, any, if◌then◌else◌, leb, eqb, Text, text, ◌==◌, elem, strip, is_empty,
  sorted,
}
use clab_manager.Auth.Data.{text_le}
use clab_manager.Agent.Config.Lines.{splitlines}
use clab_manager.Agent.Config.Clean.{rstrip_cr, is_ios_prompt}

-- `s.add(x)`
unfoldable pub add : Text → List Text → List Text
add x xs = if elem x xs then xs else x ∷ xs

unfoldable pub is_set_line : Text → Bool
unfolding starts_with
is_set_line line = not (is_empty line) && not (starts_with (text "#") line)

-- The set of the lines without comments; `add` keeps each once.
unfoldable pub set_from : List Text → List Text
set_from [] = []
set_from (raw ∷ lines) =
    let line = strip (rstrip_cr raw) in
    let rest = set_from lines in if is_set_line line then add line rest else rest

unfoldable pub parse_set_config : Text → List Text
unfolding set_from is_set_line add rstrip_cr
parse_set_config config_text = set_from (splitlines config_text)

-- `a - b`
unfoldable pub minus : List Text → List Text → List Text
minus a b = keep (λ x. not (elem x b)) a

unfoldable pub is_blank_char : ℕ → Bool
is_blank_char c = leb 9 c && leb c 13 || leb 28 c && leb c 32

-- The words of a line, apart by blanks.
unfoldable pub words : Text → List Text
unfolding is_blank_char
words [] = []
words (c ∷ []) = if is_blank_char c then [] else (c ∷ []) ∷ []
words (c ∷ d ∷ s) =
    let rest = words (d ∷ s) in
    if is_blank_char c
    then rest
    else if is_blank_char d
    then (c ∷ []) ∷ rest
    else elim rest [ [] ↦ (c ∷ []) ∷ [] | w ∷ ws ↦ (c ∷ w) ∷ ws ]

-- A character of a word for `\b`.
unfoldable pub is_word_char : ℕ → Bool
is_word_char c =
    leb b'A' c && leb c b'Z'
    || (leb b'a' c && leb c b'z' || (leb b'0' c && leb c b'9' || eqb c b'_'))

-- What `(\S+)\b` takes of a word: all but the characters after its last word character.
unfoldable pub to_boundary : Text → Text
unfolding is_word_char
to_boundary [] = []
to_boundary (c ∷ s) =
    let rest = to_boundary s in if is_empty rest && not (is_word_char c) then [] else c ∷ rest

-- The interface and the unit of a line `set interfaces … unit …`, at its start.
unfoldable pub unit_of : Text → Option (Text × Text)
unfolding words to_boundary
unit_of line = elim (words line) [
  | w0 ∷ w1 ∷ w2 ∷ w3 ∷ w4 ∷ ws ↦
      if w0 == text "set"
        && (w1 == text "interfaces" && (w3 == text "unit" && not (is_empty (to_boundary w4))))
      then some (w2, to_boundary w4)
      else none
  | _ ↦ none
]

abbrev pub unit_le : Text × Text → Text × Text → Bool
unit_le (a, b) (c, d) = if a == c then text_le b d else text_le a c

unfoldable pub add_unit : Text × Text → List (Text × Text) → List (Text × Text)
add_unit u us = if any (λ v. v.0 == u.0 && v.1 == u.1) us then us else u ∷ us

unfoldable pub units_of : List Text → List (Text × Text)
units_of [] = []
units_of (line ∷ lines) =
    let rest = units_of lines in elim (unit_of line) [ none ↦ rest | some u ↦ add_unit u rest ]

unfoldable pub delete_unit : Text × Text → Text
delete_unit (iface, unit) = text "delete interfaces " ++ (iface ++ (text " unit " ++ unit))

unfoldable pub delete_lines : List Text → List Text
delete_lines [] = []
delete_lines (line ∷ lines) =
    let rest = delete_lines lines in
    elim (unit_of line) [
      | some _ ↦ rest
      | none ↦ elim (after_prefix (text "set ") line) [
        | none ↦ rest
        | some path ↦ (text "delete " ++ path) ∷ rest
      ]
    ]

unfoldable pub generate_delete_commands_junos : List Text → List Text → List Text
unfolding minus units_of delete_unit delete_lines
generate_delete_commands_junos base_lines running_lines =
    let extra = minus running_lines base_lines in
    map delete_unit (sorted unit_le (units_of extra)) ++ delete_lines (sorted text_le extra)

-- `no` is put before a line, or taken away.
unfoldable pub negated : Text → Text
unfolding after_prefix
negated line = elim (after_prefix (text "no ") line) [
  | none ↦ text "no " ++ line
  | some rest ↦ rest
]

unfoldable pub negate_all : List Text → List Text
negate_all [] = []
negate_all (line ∷ lines) =
    let rest = negate_all lines in
    if is_empty (strip line) then rest else negated (strip line) ∷ rest

unfoldable pub generate_delete_commands_cisco : List Text → List Text → List Text
unfolding minus negate_all negated
generate_delete_commands_cisco base_lines running_lines =
    negate_all (sorted text_le (minus running_lines base_lines))

unfoldable pub without_backspaces : Text → Text
without_backspaces = keep (λ c. not (eqb c 8))

unfoldable pub is_top_level : Text → Bool
unfolding starts_with is_ios_prompt
is_top_level line =
    let stripped = strip line in
    not (
      is_empty stripped
      || (starts_with (text "!") stripped
          || (starts_with (text " ") line
              || (starts_with (9 ∷ []) line
                  || (elem stripped (text "end" ∷ text "show running-config" ∷ [])
                      || (starts_with (text "Building configuration") stripped
                          || (starts_with (text "Current configuration") stripped
                              || (starts_with (text "Last configuration change") stripped
                                  || (starts_with (text "% ") stripped
                                      || is_ios_prompt stripped)))))))))

unfoldable pub top_from : List Text → List Text
unfolding is_top_level
top_from [] = []
top_from (raw ∷ lines) =
    let line = rstrip_cr (without_backspaces raw) in
    let rest = top_from lines in if is_top_level line then add (strip line) rest else rest

unfoldable pub parse_ios_top_level_commands : Text → List Text
unfolding top_from add rstrip_cr without_backspaces
parse_ios_top_level_commands config_text = top_from (splitlines config_text)

unfoldable pub generate_delete_commands_ios_top_level : Text → Text → List Text
unfolding minus negated
generate_delete_commands_ios_top_level base_config running_config = map negated (
    sorted text_le (
      minus (parse_ios_top_level_commands running_config)
        (parse_ios_top_level_commands base_config)))

pub record ConfigDiff : Type 0 where
  pub missing_from_running : List Text
  pub extra_in_running : List Text
  pub delete_commands : List Text
  pub match : Bool

unfoldable pub is_none_left : List Text → Bool
is_none_left [] = true
is_none_left (_ ∷ _) = false

unfoldable pub delete_commands_for : Text → Text → Text → List Text
delete_commands_for base_config running_config family =
    let base_lines = parse_set_config base_config in
    let running_lines = parse_set_config running_config in
    if elem family (text "junos" ∷ text "vjunos" ∷ text "crpd" ∷ [])
    then generate_delete_commands_junos base_lines running_lines
    else if elem family (text "ios" ∷ text "ceos" ∷ [])
    then generate_delete_commands_ios_top_level base_config running_config
    else if family == text "iosxr"
    then generate_delete_commands_cisco base_lines running_lines
    else minus running_lines base_lines

unfoldable pub calculate_config_diff : Text → Text → Text → ConfigDiff
calculate_config_diff base_config running_config family =
    let missing = minus (parse_set_config base_config) (parse_set_config running_config) in
    let extra = minus (parse_set_config running_config) (parse_set_config base_config) in
    record {
      missing_from_running = sorted text_le missing;
      extra_in_running = sorted text_le extra;
      delete_commands = delete_commands_for base_config running_config family;
      match = is_none_left missing && is_none_left extra;
    }
