-- ===== src/Topology/Checks.antt =====
-- topology_builder.py: the checks of a topology, with the list of all its problems.
use clab_manager.Prelude.{
  ℕ, ◌+◌, Bool, true, false, not, ◌&&◌, ◌||◌, List, [], ◌∷◌, ◌++◌, map, keep, any, all,
  if◌then◌else◌, leb, eqb, length, Text, ◌==◌, elem, strip, is_empty, Dict, has_key,
}
use clab_manager.Topology.Families.{normalize_family, router_families}

-- A node; a field that is absent or null is the empty text. `V` stands for the further values of YAML.
pub record Node (V : Type 0) : Type 0 where
  pub name : Text
  pub family : Text
  pub image : Text
  pub mgmt_ip : Text
  pub startup_config : Text
  pub original_kind : Text
  pub extra_params : Dict V

pub record Link : Type 0 where
  pub src_node : Text
  pub src_iface : Text
  pub dst_node : Text
  pub dst_iface : Text

pub record Topology (V : Type 0) : Type 0 where
  pub lab_name : Text
  pub mgmt_network : Text
  pub mgmt_subnet : Text
  pub nodes : List (Node V)
  pub links : List Link
  pub passthrough_links : List (List Text)
  pub imported_link_count : ℕ

pub data Problem : Type 0 where
  lab_name_missing lab_name_malformed network_missing subnet_missing subnet_malformed no_nodes
        node_unnamed :
      Problem
  node_malformed node_twice node_without_image : Text → Problem
  family_unknown : Text → Text → Problem
  link_unfinished : ℕ → Problem
  source_unknown destination_unknown loop_on : ℕ → Text → Problem
  interface_used : ℕ → Text → Text → Problem

unfoldable pub is_letter : ℕ → Bool
is_letter c = leb b'A' c && leb c b'Z' || leb b'a' c && leb c b'z'

unfoldable pub is_label_char : ℕ → Bool
unfolding is_letter
is_label_char c = is_letter c || (leb b'0' c && leb c b'9' || (eqb c b'_' || eqb c b'-'))

-- `^[a-zA-Z][a-zA-Z0-9_-]{0,most}$`, on a text that is stripped.
unfoldable pub is_label : ℕ → Text → Bool
unfolding is_letter is_label_char
is_label most [] = false
is_label most (c ∷ s) = is_letter c && (all is_label_char s && leb (length s) most)

unfoldable pub unless : Bool → Problem → List Problem
unless true p = []
unless false p = p ∷ []

unfoldable pub validate_lab_name : Text → List Problem
unfolding is_label unless
validate_lab_name name =
    if is_empty (strip name)
    then lab_name_missing ∷ []
    else unless (is_label 62 (strip name)) lab_name_malformed

-- `is_network` stands for `ipaddress.IPv4Network(…, strict=False)` and whether it takes the text.
unfoldable pub validate_mgmt : (Text → Bool) → Text → Text → List Problem
unfolding unless
validate_mgmt is_network mgmt_network mgmt_subnet =
    unless (not (is_empty (strip mgmt_network))) network_missing
    ++ (if is_empty (strip mgmt_subnet)
        then subnet_missing ∷ []
        else unless (is_network (strip mgmt_subnet)) subnet_malformed)

module _ {V : Type 0} where
  abbrev pub node_name : Node V → Text
  node_name node = strip node.name

  -- A node without a family, or of a family that is known.
  unfoldable pub has_family : Node V → Bool
  unfolding normalize_family
  has_family node = is_empty node.family || has_key (normalize_family node.family) router_families

  -- What the loop finds in a node with a name, where `seen` are the names before it.
  unfoldable pub node_problems : List Text → Node V → List Problem
  node_problems seen node =
      let name = node_name node in
      unless (is_label 30 name) (node_malformed name)
      ++ (unless (not (elem name seen)) (node_twice name)
          ++ (unless (has_family node) (family_unknown node.family name)
              ++ unless (not (is_empty (strip node.image))) (node_without_image name)))

  unfoldable pub validate_nodes_from : List Text → List (Node V) → List Problem
  validate_nodes_from seen [] = []
  validate_nodes_from seen (node ∷ nodes) =
      let skipped = node_unnamed ∷ validate_nodes_from seen nodes in
      let rest = validate_nodes_from (node_name node ∷ seen) nodes in
      if is_empty (node_name node) then skipped else node_problems seen node ++ rest

  unfoldable pub validate_nodes : List (Node V) → List Problem
  unfolding validate_nodes_from
  validate_nodes [] = no_nodes ∷ []
  validate_nodes (node ∷ nodes) = validate_nodes_from [] (node ∷ nodes)

  -- What the loop over the nodes writes back into a node.
  unfoldable pub with_family : Node V → Node V
  unfolding normalize_family
  with_family node =
      if is_empty (node_name node) || is_empty (normalize_family node.family)
      then node
      else record node { family = normalize_family node.family }

  unfoldable pub known_names : List (Node V) → List Text
  known_names nodes = map node_name (keep (λ n. not (is_empty n.name)) nodes)

abbrev pub End : Type 0
End = Text × Text

unfoldable pub same_end : End → End → Bool
same_end e f = e.0 == f.0 && e.1 == f.1

unfoldable pub is_used : List End → End → Bool
unfolding same_end
is_used seen e = any (same_end e) seen

abbrev pub source : Link → End
source link = (strip link.src_node, strip link.src_iface)

abbrev pub target : Link → End
target link = (strip link.dst_node, strip link.dst_iface)

-- Both interfaces are given.
abbrev pub is_explicit : Link → Bool
is_explicit link = not (is_empty (source link).1) && not (is_empty (target link).1)

abbrev pub is_unfinished : Link → Bool
is_unfinished link = is_empty (source link).0 || is_empty (target link).0

unfoldable pub link_problems : List Text → List End → ℕ → Link → List Problem
link_problems names seen i link =
    unless (elem (source link).0 names) (source_unknown i (source link).0)
    ++ (unless (elem (target link).0 names) (destination_unknown i (target link).0)
        ++ (unless (not ((source link).0 == (target link).0)) (loop_on i (source link).0)
            ++ (unless (not (is_explicit link && is_used seen (source link)))
                  (interface_used i (source link).1 (source link).0)
                ++ unless (not (is_explicit link && is_used seen (target link)))
                    (interface_used i (target link).1 (target link).0))))

unfoldable pub seen_after : List End → Link → List End
seen_after seen link = if is_explicit link then target link ∷ source link ∷ seen else seen

-- The loop over the links, with the ends seen before and the number of the link.
unfoldable pub validate_links_from : List Text → List End → ℕ → List Link → List Problem
unfolding seen_after
validate_links_from names seen i [] = []
validate_links_from names seen i (link ∷ links) =
    let skipped = link_unfinished i ∷ validate_links_from names seen (i + 1) links in
    let rest = validate_links_from names (seen_after seen link) (i + 1) links in
    if is_unfinished link then skipped else link_problems names seen i link ++ rest

unfoldable pub validate_links : List Link → List Text → List Problem
unfolding validate_links_from
validate_links links names = validate_links_from names [] 1 links

-- The problems; the topology is valid where there are none.
unfoldable pub validate_topology : {V : Type 0} → (Text → Bool) → Topology V → List Problem
unfolding validate_lab_name validate_mgmt validate_nodes validate_links known_names
validate_topology is_network t =
    validate_lab_name t.lab_name
    ++ (validate_mgmt is_network t.mgmt_network t.mgmt_subnet
        ++ (validate_nodes t.nodes ++ validate_links t.links (known_names t.nodes)))
