-- ===== src/Agent/Nodes.antt =====
-- config_management_service.py: the names, the families and the credentials of the nodes of a lab.
use clab_manager.Prelude.{
  after_prefix, starts_with, contains, ◌-◌, Bool, ◌&&◌, ◌||◌, Option, none, some, List, [], ◌∷◌,
  ◌++◌, if◌then◌else◌, leb, Text, text, ◌==◌, elem, lower, strip, Dict, lookup, map,
}

-- A router as the inventory lists it.
pub record Router : Type 0 where
  pub name : Text
  pub kind : Text
  pub mgmt_ipv4 : Text

unfoldable pub upper : Text → Text
upper = map (λ c. if leb b'a' c && leb c b'z' then c - 32 else c)

unfoldable pub short_node_name : Text → Text → Text
unfolding after_prefix
short_node_name container_name lab_name =
    elim (after_prefix (text "clab-" ++ (lab_name ++ text "-")) container_name) [
      | none ↦ container_name
      | some rest ↦ rest
    ]

abbrev pub skip_kinds : List Text
skip_kinds = text "linux" ∷ text "host" ∷ text "bridge" ∷ text "ovs-bridge" ∷ text "ovs_bridge" ∷ []

unfoldable pub is_linux_srv_node : Router → Text → Bool
unfolding starts_with contains upper
is_linux_srv_node router short_name =
    let kind = lower (strip router.kind) in
    starts_with (text "SRV") (upper (strip short_name))
    || (elem kind skip_kinds || (contains (text "linux") kind || contains (text "server") kind))

-- The internal families of the kinds that can be configured.
abbrev pub supported_families : Dict Text
supported_families =
    (text "cisco_xrd", text "iosxr")
    ∷ (text "cisco_xrv9k", text "iosxr")
    ∷ (text "cisco_xrv", text "iosxr")
    ∷ (text "cisco_iol", text "ios")
    ∷ (text "cisco_iosv", text "ios")
    ∷ (text "cisco_csr1000v", text "ios")
    ∷ (text "juniper_vmx", text "junos")
    ∷ (text "juniper_vsrx", text "junos")
    ∷ (text "juniper_vqfx", text "junos")
    ∷ (text "juniper_crpd", text "crpd")
    ∷ (text "juniper_vjunos-switch", text "vjunos")
    ∷ (text "juniper_vjunos-router", text "vjunos")
    ∷ (text "nokia_sros", text "sros")
    ∷ (text "nokia_srlinux", text "srl")
    ∷ (text "arista_ceos", text "ceos")
    ∷ []

unfoldable pub family_of : Router → Option Text
family_of router = lookup (lower router.kind) supported_families

-- A user name and a password.
unfoldable pub credentials_for_node : Text → Text → Text × Text
unfolding starts_with upper
credentials_for_node short_name family =
    let up = upper short_name in
    if starts_with (text "CE") up
    then (text "admin", text "admin")
    else if family == text "srl"
    then (text "admin", text "NokiaSrl1!")
    else if family == text "sros" || family == text "ceos"
    then (text "admin", text "admin")
    else if starts_with (text "J-") up || family == text "junos"
    then (text "admin", text "admin@123")
    else if starts_with (text "C-") up || family == text "iosxr"
    then (text "clab", text "clab@123")
    else (text "admin", text "admin")
