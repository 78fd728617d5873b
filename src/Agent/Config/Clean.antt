-- ===== src/Agent/Config/Clean.antt =====
-- config_management_service.py: the lines of a captured configuration that are kept.
use clab_manager.Prelude.{
  after_prefix, starts_with, contains, ℕ, Bool, true, false, not, ◌&&◌, ◌||◌, none, some, List, [],
  ◌∷◌, ◌++◌, all, if◌then◌else◌, leb, eqb, length, Text, text, ◌==◌, elem, strip, is_empty,
}
use clab_manager.Agent.Config.Lines.{splitlines, unlines}

-- `line.rstrip("\r")`
unfoldable pub rstrip_cr : Text → Text
rstrip_cr [] = []
rstrip_cr (c ∷ s) = let rest = rstrip_cr s in if eqb c 13 && is_empty rest then [] else c ∷ rest

unfoldable pub is_name_char : ℕ → Bool
is_name_char c =
    leb b'A' c && leb c b'Z'
    || (leb b'a' c && leb c b'z'
        || (leb b'0' c && leb c b'9'
            || (eqb c b'_' || (eqb c b'.' || (eqb c b':' || (eqb c b'/' || eqb c b'-'))))))

-- The end of a prompt: `#` or `>`, and blanks.
unfoldable pub is_prompt_end : Text → Bool
is_prompt_end [] = false
is_prompt_end (c ∷ s) = (eqb c b'#' || eqb c b'>') && is_empty (strip s)

-- What follows `(`: characters that are none of `)` and line breaks, `)`, and the end.
unfoldable pub is_mode_end : Bool → Text → Bool
unfolding is_prompt_end
is_mode_end some_read [] = false
is_mode_end some_read (c ∷ s) =
    let rest = is_mode_end true s in
    if eqb c b')' then some_read && is_prompt_end s else not (eqb c 13 || eqb c 10) && rest

unfoldable pub is_prompt_from : Bool → Text → Bool
unfolding is_name_char is_prompt_end is_mode_end
is_prompt_from some_read [] = false
is_prompt_from some_read (c ∷ s) =
    let rest = is_prompt_from true s in
    if is_name_char c
    then rest
    else some_read && (is_prompt_end (c ∷ s) || eqb c b'(' && is_mode_end false s)

-- `_IOS_CAPTURE_PROMPT_RE`
unfoldable pub is_ios_prompt : Text → Bool
unfolding is_prompt_from
is_ios_prompt s = is_prompt_from false s

unfoldable pub is_ios_noise : Text → Bool
unfolding starts_with is_ios_prompt
is_ios_noise value =
    let stripped = strip value in
    is_empty value
    || (stripped == text "!"
        || (starts_with (text "Building configuration") value
            || (starts_with (text "Current configuration") value
                || (stripped == text "show running-config"
                    || (stripped == text "end" || is_ios_prompt stripped)))))

unfoldable pub starts_certificate : Text → Bool
unfolding starts_with
starts_certificate value = starts_with (text "crypto pki certificate chain ") (strip value)

-- The loop; `in_block` is set within the chain of a certificate.
unfoldable pub ios_from : Bool → List Text → List Text
ios_from in_block [] = []
ios_from true (line ∷ lines) =
    let after = ios_from false lines in
    let within = ios_from true lines in
    if strip (rstrip_cr line) == text "quit" then after else within
ios_from false (line ∷ lines) =
    let rest = ios_from false lines in
    let within = ios_from true lines in
    if is_ios_noise (rstrip_cr line)
    then rest
    else if starts_certificate (rstrip_cr line)
    then within
    else rstrip_cr line ∷ rest

unfoldable pub sanitize_ios_like : Text → List Text
unfolding ios_from rstrip_cr is_ios_noise starts_certificate
sanitize_ios_like config = ios_from false (splitlines config)

-- `value.replace("interface preconfigure ", "interface ", 1)`, on a value that has it.
unfoldable pub replace_first : Text → Text → Text → Text
unfolding after_prefix
replace_first old new [] = []
replace_first old new (c ∷ s) =
    let later = c ∷ replace_first old new s in
    elim (after_prefix old (c ∷ s)) [ none ↦ later | some rest ↦ new ++ rest ]

unfoldable pub unpreconfigured : Text → Text
unfolding starts_with replace_first
unpreconfigured value =
    if starts_with (text "interface preconfigure ") (strip value)
    then replace_first (text "interface preconfigure ") (text "interface ") value
    else value

abbrev pub mgmt : Text
mgmt = text "MgmtEth0/RP0/CPU0/0"

unfoldable pub is_indented : Text → Bool
unfolding starts_with
is_indented line = starts_with (text " ") line || starts_with (9 ∷ []) line

unfoldable pub opens_mgmt : Text → Bool
opens_mgmt line = strip line == text "interface MgmtEth0/RP0/CPU0/0"

unfoldable pub is_mgmt_route : Text → Bool
unfolding contains starts_with
is_mgmt_route line =
    contains mgmt (strip line)
    && (starts_with (text "0.0.0.0/0 ") (strip line) || starts_with (text "::/0 ") (strip line))

-- The loop; `in_block` is set within the block of the management interface.
unfoldable pub prepare_from : Bool → List Text → List Text
prepare_from in_block [] = []
prepare_from in_block (line ∷ lines) =
    let rest = prepare_from false lines in
    let within = prepare_from true lines in
    if in_block && is_indented line
    then within
    else if opens_mgmt line
    then within
    else if is_mgmt_route line
    then rest
    else line ∷ rest

-- `is_stamp` and `is_prompt` stand for the patterns of a time stamp and of a prompt of IOS-XR.
module _ (is_stamp is_prompt : Text → Bool) where
  unfoldable pub is_xr_noise : Text → Bool
  unfolding starts_with contains
  is_xr_noise value =
      let stripped = strip value in
      is_empty stripped
      || (elem stripped (text "^" ∷ text "end" ∷ text "!" ∷ [])
          || (starts_with (text "!!") stripped
              || (stripped == text "show running-config"
                  || (starts_with (text "Building configuration") stripped
                      || (starts_with (text "Current configuration") stripped
                          || (starts_with (text "Last configuration change") stripped
                              || (starts_with (text "% ") stripped
                                  || (contains (text "Invalid input detected") stripped
                                      || (is_stamp stripped
                                          || (is_prompt stripped
                                              || all (λ c. eqb c b'-') stripped
                                                && leb 5 (length stripped)))))))))))

  unfoldable pub xr_from : List Text → List Text
  unfolding is_xr_noise
  xr_from [] = []
  xr_from (line ∷ lines) =
      let rest = xr_from lines in
      let value = unpreconfigured (rstrip_cr line) in
      if is_xr_noise value then rest else value ∷ rest

  unfoldable pub sanitize_iosxr : Text → List Text
  unfolding xr_from rstrip_cr unpreconfigured
  sanitize_iosxr config = xr_from (splitlines config)

  unfoldable pub normalize_captured_config : Text → Text → Text
  normalize_captured_config family config_text =
      if elem family (text "ios" ∷ text "ceos" ∷ [])
      then unlines (sanitize_ios_like config_text)
      else if family == text "iosxr"
      then unlines (sanitize_iosxr config_text)
      else config_text

  unfoldable pub prepare_iosxr_reconfigure : Text → List Text
  unfolding prepare_from sanitize_iosxr
  prepare_iosxr_reconfigure config_text = prepare_from false (sanitize_iosxr config_text)
