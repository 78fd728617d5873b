-- ===== src/Topology/Tests.antt =====
-- The properties of topologies on concrete ones.
use clab_manager.Prelude.{
  ◌≡◌, ◌↔◌, refl, Bool, true, some, [], ◌∷◌, All, length, min, arith, Text, text, ◌==◌, lower,
  strip, lookup, map, keys,
}
use clab_manager.Topology.Families.{
  Family, router_families, normalize_family, get_interfaces_for_family, is_distinct,
}
use clab_manager.Topology.Checks.{
  node_problems, has_family, link_problems, is_used, Node, Link, Topology, validate_topology,
  node_name,
}
use clab_manager.Topology.Checked.{IsSound, validate_topology_iff}
use clab_manager.Topology.Checked.Links.{are_distinct}
use clab_manager.Topology.Wiring.{wire, families_from, generate}
use clab_manager.Topology.Wired.{AreGiven, AreBlank, FitsIn, flat, few-FitsIn}
use clab_manager.Topology.Capacity.{get_interfaces_lem}
use clab_manager.Topology.Generated.{IsEntered, generate-are_distinct, generate-nodes}

abbrev router : Text → Text → Node (Unit {0})
router name family = record {
  name = name;
  family = family;
  image = text "img";
  mgmt_ip = [];
  startup_config = [];
  original_kind = [];
  extra_params = (text "kind", tt) ∷ (text "cpu", tt) ∷ [];
}

abbrev link : Text → Text → Text → Text → Link
link a i b j = record { src_node = a; src_iface = i; dst_node = b; dst_iface = j }

-- One link comes with its interfaces, the other one has none.
abbrev imported : Link
imported = link (text "r1") (text "eth1") (text "r2") (text "Gi0-0-0-0")

abbrev drawn : Link
drawn = link (text "r1") [] (text "r2") []

abbrev sample : Topology (Unit {0})
sample = record {
  lab_name = text "bgp";
  mgmt_network = text "mgmt";
  mgmt_subnet = text "172.20.20.0/24";
  nodes = router (text "r1") (text "linux") ∷ router (text "r2") (text "iosxr") ∷ [];
  links = imported ∷ drawn ∷ [];
  passthrough_links = [];
  imported_link_count = 1;
}

abbrev any_network : Text → Bool
any_network _ = true

is_valid : validate_topology any_network sample ≡ []
unfolding validate_topology strip node_problems has_family ◌==◌ lower link_problems is_used
is_valid = refl

validate_topology_iff_example :
    (validate_topology any_network sample ≡ []) ↔ IsSound any_network sample
validate_topology_iff_example = validate_topology_iff any_network sample

imported-AreGiven : AreGiven (imported ∷ [])
unfolding strip
imported-AreGiven = ((refl, refl), tt)

drawn-AreBlank : AreBlank (drawn ∷ [])
unfolding strip
drawn-AreBlank = ((refl, refl), tt)

sample-FitsIn : FitsIn (families_from sample.nodes []) sample.links
sample-FitsIn = few-FitsIn (families_from sample.nodes []) sample.links (omega arith)

generate-are_distinct_example :
    are_distinct (flat (wire (families_from sample.nodes []) 0 sample.links [])) ≡ true
generate-are_distinct_example =
    generate-are_distinct any_network sample (imported ∷ []) (drawn ∷ []) is_valid refl
      imported-AreGiven drawn-AreBlank sample-FitsIn

generate-nodes_example :
    (keys (generate sample).nodes ≡ map node_name sample.nodes)
    × All (IsEntered (generate sample).nodes) sample.nodes
generate-nodes_example = generate-nodes any_network sample is_valid

abbrev sr_linux : Family
sr_linux = record {
  clab_kind = text "nokia_srlinux";
  interface_pattern = text "ethernet-1/{n}";
  interface_start = 1;
  max_interfaces = 32;
}

sr_linux_known : lookup (normalize_family (text " SR-Linux ")) router_families ≡ some sr_linux
unfolding normalize_family ◌==◌ lower strip
sr_linux_known = refl

get_interfaces_lem_example :
    (length (get_interfaces_for_family (text " SR-Linux ") 40) ≡ min 40 32)
    × (is_distinct (get_interfaces_for_family (text " SR-Linux ") 40) ≡ true)
get_interfaces_lem_example = get_interfaces_lem (text " SR-Linux ") 40 sr_linux sr_linux_known
