-- ===== src/Topology/Families.antt =====
-- topology_builder.py: the families of routers and the names of their interfaces.
use clab_manager.Prelude.{
  after_prefix, ℕ, zero, suc, ◌+◌, ◌-◌, ◌/◌, ◌%◌, min, Bool, true, false, ◌&&◌, Option, none, some,
  List, [], ◌∷◌, ◌++◌, map, length, if◌then◌else◌, not, elem, Text, text, decimal, lower, strip,
  is_empty, Dict, lookup, some_or,
}

-- The fields of a family that are computed with.
pub record Family : Type 0 where
  pub clab_kind : Text
  pub interface_pattern : Text
  pub interface_start : ℕ
  pub max_interfaces : ℕ

abbrev family : Text → Text → ℕ → ℕ → Family
family kind pattern start most = record {
  clab_kind = kind;
  interface_pattern = pattern;
  interface_start = start;
  max_interfaces = most;
}

abbrev pub linux_family : Family
linux_family = family (text "linux") (text "eth{n}") 0 8

abbrev pub router_families : Dict Family
router_families =
    (text "iosxr", family (text "cisco_xrd") (text "Gi0-0-0-{n}") 0 32)
    ∷ (text "junos", family (text "juniper_vmx") (text "ge-0/0/{n}") 0 16)
    ∷ (text "ios", family (text "cisco_iol") (text "Ethernet{slot}/{n}") 0 16)
    ∷ (text "crpd", family (text "juniper_crpd") (text "eth{n}") 0 8)
    ∷ (text "sros", family (text "nokia_sros") (text "ethernet-1/{n}") 1 32)
    ∷ (text "srl", family (text "nokia_srlinux") (text "ethernet-1/{n}") 1 32)
    ∷ (text "ceos", family (text "arista_ceos") (text "Ethernet{n}") 0 32)
    ∷ (text "vjunos", family (text "juniper_vjunos-switch") (text "et-0/0/{n}") 0 12)
    ∷ (text "linux", linux_family)
    ∷ []

abbrev pub family_aliases : Dict Text
family_aliases =
    (text "nokia_srlinux", text "srl")
    ∷ (text "srlinux", text "srl")
    ∷ (text "sr-linux", text "srl")
    ∷ (text "nokia_sros", text "sros")
    ∷ (text "vr-sros", text "sros")
    ∷ (text "arista_ceos", text "ceos")
    ∷ (text "juniper_vjunos-switch", text "vjunos")
    ∷ (text "juniper_vjunos-router", text "vjunos")
    ∷ []

unfoldable pub normalize_family : Text → Text
normalize_family family_id =
    let key = lower (strip family_id) in
    if is_empty key then [] else some_or (lookup key family_aliases) key

-- `s.replace(old, new)`, with `skip` characters of a match still to pass.
unfoldable pub replaced : Text → Text → ℕ → Text → Text
unfolding after_prefix
replaced old new skip [] = []
replaced old new (suc skip) (c ∷ s) = replaced old new skip s
replaced old new zero (c ∷ s) =
    let kept = c ∷ replaced old new 0 s in
    let changed = new ++ replaced old new (length old - 1) s in
    elim (after_prefix old (c ∷ s)) [ none ↦ kept | some _ ↦ changed ]

unfoldable pub has_text : Text → Text → Bool
unfolding after_prefix
has_text old [] = false
has_text old (c ∷ s) = elim (after_prefix old (c ∷ s)) [ none ↦ has_text old s | some _ ↦ true ]

-- The name of the interface `i` in a pattern; `start` is added where the pattern has no slot.
unfoldable pub interface_name : Text → ℕ → ℕ → Text
unfolding replaced has_text decimal
interface_name pattern start i =
    if has_text (text "{slot}") pattern && has_text (text "{n}") pattern
    then replaced (text "{n}") (decimal (i % 4)) 0
        (replaced (text "{slot}") (decimal (i / 4)) 0 pattern)
    else replaced (text "{n}") (decimal (i + start)) 0 pattern

-- `range(lo, lo + n)`
abbrev pub range : ℕ → ℕ → List ℕ
range lo zero = []
range lo (suc n) = lo ∷ range (suc lo) n

unfoldable pub interfaces_of : Option Family → ℕ → List Text
unfolding interface_name decimal
interfaces_of none count = map (λ i. text "eth" ++ decimal i) (range 0 count)
interfaces_of (some meta) count =
    map (interface_name meta.interface_pattern meta.interface_start)
      (range 0 (min count meta.max_interfaces))

unfoldable pub get_interfaces_for_family : Text → ℕ → List Text
unfolding normalize_family interfaces_of
get_interfaces_for_family family_id count =
    interfaces_of (lookup (normalize_family family_id) router_families) count

-- No name twice.
unfoldable pub is_distinct : List Text → Bool
is_distinct [] = true
is_distinct (x ∷ xs) = not (elem x xs) && is_distinct xs
