-- ===== src/Agent/Config/Cleaned.antt =====
-- config_management_service.py: proofs on the cleaning of configurations.
use clab_manager.Prelude.{
  ◌≡◌, refl, ap, ◌∙◌, Bool, true, false, ◌&&◌, List, [], ◌∷◌, ◌++◌, All, Text, text, ◌==◌, elem,
  strip, Bool-cases, inl, inr, arith,
}
use clab_manager.Agent.Config.Lines.{
  is_break, IsLine, splitlines, unlines, splitlines-IsLine, splitlines-unlines,
}
use clab_manager.Agent.Config.Clean.{
  rstrip_cr, is_ios_noise, starts_certificate, ios_from, sanitize_ios_like,
  normalize_captured_config, is_indented, opens_mgmt, is_mgmt_route, prepare_from,
}

-- A line without breaks has no carriage return to take off.
rstrip_cr_line : (l : Text) → IsLine l → rstrip_cr l ≡ l
unfolding rstrip_cr is_break
rstrip_cr_line [] h = refl
rstrip_cr_line (c ∷ l) h = ground (arith, rstrip_cr_line l)

-- What the cleaning keeps, and keeps again.
record IsKept (l : Text) : Type 0 where
  pub whole : IsLine l
  pub quiet : is_ios_noise l ≡ false
  pub free : starts_certificate l ≡ false

ios_from-IsKept : (b : Bool) (ls : List Text) → All IsLine ls → All IsKept (ios_from b ls)
unfolding ios_from
ios_from-IsKept true [] h = tt
ios_from-IsKept false [] h = tt
ios_from-IsKept true (l ∷ ls) h = elim (Bool-cases (strip (rstrip_cr l) == text "quit")) [
  | inl e ↦ rw e (ios_from-IsKept false ls h.1)
  | inr e ↦ rw e (ios_from-IsKept true ls h.1)
]
ios_from-IsKept false (l ∷ ls) h =
    let same = rstrip_cr_line l h.0 in
    elim (Bool-cases (is_ios_noise l)) [
      | inl e ↦ rw (same, e) (ios_from-IsKept false ls h.1)
      | inr e ↦ elim (Bool-cases (starts_certificate l)) [
        | inl k ↦ rw (same, e, k) (ios_from-IsKept true ls h.1)
        | inr k ↦
            rw (same, e, k)
              (record { whole = h.0; quiet = e; free = k }, ios_from-IsKept false ls h.1)
      ]
    ]

ios_from_kept : (ls : List Text) → All IsKept ls → ios_from false ls ≡ ls
unfolding ios_from
ios_from_kept [] h = refl
ios_from_kept (l ∷ ls) h =
    rw (rstrip_cr_line l h.0.whole, h.0.quiet, h.0.free) (ap (λ r. l ∷ r) (ios_from_kept ls h.1))

kept_lines : (ls : List Text) → All IsKept ls → All IsLine ls
kept_lines [] h = tt
kept_lines (l ∷ ls) h = (h.0.whole, kept_lines ls h.1)

sanitize_again :
    (s : Text) → sanitize_ios_like (unlines (sanitize_ios_like s)) ≡ sanitize_ios_like s
unfolding sanitize_ios_like
sanitize_again s =
    let kept = ios_from-IsKept false (splitlines s) (splitlines-IsLine s) in
    let ls = ios_from false (splitlines s) in
    ap (ios_from false) (splitlines-unlines ls (kept_lines ls kept)) ∙ ios_from_kept ls kept

-- For every family but IOS-XR, cleaning a captured configuration twice gives the same text as
-- cleaning it once.
pub normalize_idem :
    (is_stamp is_prompt : Text → Bool) (family config : Text)
    → (family == text "iosxr") ≡ false
    → normalize_captured_config is_stamp is_prompt family
        (normalize_captured_config is_stamp is_prompt family config)
      ≡ normalize_captured_config is_stamp is_prompt family config
unfolding normalize_captured_config
normalize_idem is_stamp is_prompt family config other =
    elim (Bool-cases (elem family (text "ios" ∷ text "ceos" ∷ []))) [
      | inl e ↦ rw e (ap unlines (sanitize_again config))
      | inr e ↦ rw (e, other) refl
    ]

-- The block before ended: nothing follows, or a line that is not indented.
abbrev pub IsOutside : List Text → Type 0
IsOutside [] = Unit
IsOutside (l ∷ ls) = is_indented l ≡ false

prepare_block :
    (block ys : List Text)
    → All (λ l. is_indented l ≡ true) block
    → IsOutside ys
    → prepare_from true (block ++ ys) ≡ prepare_from false ys
unfolding prepare_from
prepare_block [] [] h o = refl
prepare_block [] (y ∷ ys) h o = rw o refl
prepare_block (l ∷ block) ys h o = rw h.0 (prepare_block block ys h.1 o)

prepare-append :
    (b : Bool) (xs : List Text) (header : Text) (block ys : List Text)
    → opens_mgmt header ≡ true
    → All (λ l. is_indented l ≡ true) block
    → IsOutside ys
    → prepare_from b (xs ++ header ∷ (block ++ ys)) ≡ prepare_from b xs ++ prepare_from false ys
unfolding prepare_from
prepare-append b [] header block ys m h o = elim (Bool-cases (b && is_indented header)) [
  | inl e ↦ rw e (prepare_block block ys h o)
  | inr e ↦ rw (e, m) (prepare_block block ys h o)
]
prepare-append b (x ∷ xs) header block ys m h o =
    let within = prepare-append true xs header block ys m h o in
    let rest = prepare-append false xs header block ys m h o in
    rw (within, rest)
      (elim (Bool-cases (b && is_indented x)) [
        | inl e ↦ rw e refl
        | inr e ↦ elim (Bool-cases (opens_mgmt x)) [
          | inl k ↦ rw (e, k) refl
          | inr k ↦ elim (Bool-cases (is_mgmt_route x)) [
            | inl r ↦ rw (e, k, r) refl
            | inr r ↦ rw (e, k, r) refl
          ]
        ]
      ])

-- A line that is none of the management interface.
abbrev pub IsFree : Text → Type 0
IsFree l = (opens_mgmt l ≡ false) × (is_mgmt_route l ≡ false)

prepare-IsFree : (b : Bool) (ls : List Text) → All IsFree (prepare_from b ls)
unfolding prepare_from
prepare-IsFree b [] = tt
prepare-IsFree b (l ∷ ls) = elim (Bool-cases (b && is_indented l)) [
  | inl e ↦ rw e (prepare-IsFree true ls)
  | inr e ↦ elim (Bool-cases (opens_mgmt l)) [
    | inl k ↦ rw (e, k) (prepare-IsFree true ls)
    | inr k ↦ elim (Bool-cases (is_mgmt_route l)) [
      | inl m ↦ rw (e, k, m) (prepare-IsFree false ls)
      | inr m ↦ rw (e, k, m) ((k, m), prepare-IsFree false ls)
    ]
  ]
]

-- The preparation of a cleaned IOS-XR configuration drops the header of the management interface
-- with the indented lines after it, up to the end or the first line that is not indented, and
-- prepares the rest as if they were not there; and no line that it keeps is such a header or a
-- default route over the management interface.
pub prepare_lem :
    (xs : List Text) (header : Text) (block ys : List Text)
    → opens_mgmt header ≡ true
    → All (λ l. is_indented l ≡ true) block
    → IsOutside ys
    → (prepare_from false (xs ++ header ∷ (block ++ ys))
        ≡ prepare_from false xs ++ prepare_from false ys)
      × All IsFree (prepare_from false (xs ++ header ∷ (block ++ ys)))
prepare_lem xs header block ys m h o = (
  prepare-append false xs header block ys m h o,
  prepare-IsFree false (xs ++ header ∷ (block ++ ys)),
)
