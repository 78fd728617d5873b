-- ===== src/Topology/Wiring.antt =====
-- topology_builder.py: the nodes and the links of the document that is generated.
use clab_manager.Prelude.{
  decimal, ℕ, zero, suc, ◌+◌, min, not, none, some, List, [], ◌∷◌, ◌++◌, map, keep, first, leb,
  length, if◌then◌else◌, Text, text, elem, strip, is_empty, Dict, lookup, insert, some_or,
}
use clab_manager.Topology.Families.{
  Family, linux_family, router_families, normalize_family, interface_name, range,
}
use clab_manager.Topology.Checks.{Node, Link, Topology, End, node_name, source, target}

-- `or`, on texts.
unfoldable pub or_text : Text → Text → Text
or_text a b = if is_empty a then b else a

unfoldable pub family_of_node : {V : Type 0} → Node V → Text
unfolding or_text
family_of_node node =
    or_text (normalize_family (strip (or_text node.family (text "linux")))) (text "linux")

-- A value of the document: a text of the definition, or one of the parameters that came with it.
pub data Value (V : Type 0) : Type 0 where
  plain : Text → Value V
  given : V → Value V

abbrev pub protected_keys : List Text
protected_keys =
    text "kind"
    ∷ text "image"
    ∷ text "mgmt-ipv4"
    ∷ text "mgmt_ipv4"
    ∷ text "startup-config"
    ∷ text "startup_config"
    ∷ []

unfoldable pub default_kind : Text → Text
default_kind family = elim (lookup family router_families) [
  | none ↦ family
  | some meta ↦ meta.clab_kind
]

module _ {V : Type 0} where
  unfoldable pub with_text : Text → Text → Dict (Value V) → Dict (Value V)
  with_text key s entry = if is_empty s then entry else insert key (plain s) entry

  -- The loop over the further parameters.
  unfoldable pub with_extra : Dict V → Dict (Value V) → Dict (Value V)
  with_extra [] entry = entry
  with_extra ((k, v) ∷ extra) entry =
      with_extra extra (if elem k protected_keys then entry else insert k (given v) entry)

  unfoldable pub kind_of : Node V → Text
  unfolding family_of_node or_text default_kind
  kind_of node = strip (or_text node.original_kind (default_kind (family_of_node node)))

  unfoldable pub entry_of : Node V → Dict (Value V)
  unfolding with_text with_extra kind_of
  entry_of node = with_extra node.extra_params (
      with_text (text "startup-config") (strip node.startup_config) (
        with_text (text "mgmt-ipv4") (strip node.mgmt_ip)
          ((text "kind", plain (kind_of node)) ∷ (text "image", plain (strip node.image)) ∷ [])))

  unfoldable pub nodes_from : List (Node V) → Dict (Dict (Value V)) → Dict (Dict (Value V))
  nodes_from [] out = out
  nodes_from (node ∷ nodes) out = nodes_from nodes (insert (node_name node) (entry_of node) out)

  unfoldable pub families_from : List (Node V) → Dict Text → Dict Text
  families_from [] out = out
  families_from (node ∷ nodes) out =
      families_from nodes (insert (node_name node) (family_of_node node) out)

abbrev pub used_by : Text → Dict (List Text) → List Text
used_by node used = some_or (lookup node used) []

-- `used.setdefault(node, []).append(name)`
unfoldable pub note_used : Text → Text → Dict (List Text) → Dict (List Text)
note_used node name used = insert node (used_by node used ++ name ∷ []) used

-- The names that are tried in their order; the numbers start at 0 for every family.
unfoldable pub pool_of : Family → List Text
unfolding interface_name
pool_of meta = map (interface_name meta.interface_pattern 0) (range 0 meta.max_interfaces)

unfoldable pub pool : Text → List Text
pool family = pool_of (some_or (lookup family router_families) linux_family)

unfoldable pub auto_name : Text → Text → ℕ → Dict (List Text) → Text
auto_name node family link_index used =
    some_or (first (λ name. not (elem name (used_by node used))) (pool family))
      (text "eth" ++ decimal link_index)

-- An interface that is given, or the next free one.
unfoldable pub iface_for : Dict Text → ℕ → End → Dict (List Text) → Text
iface_for families link_index (node, iface) used =
    let auto = auto_name node (some_or (lookup node families) (text "linux")) link_index used in
    if is_empty iface then auto else iface

unfoldable pub assign : Dict Text → ℕ → End → Dict (List Text) → Text × Dict (List Text)
assign families link_index e used =
    let name = iface_for families link_index e used in (name, note_used e.0 name used)

-- The loop over the links: the ends of each, and the interfaces in use.
unfoldable pub wire : Dict Text → ℕ → List Link → Dict (List Text) → List (End × End)
wire families i [] used = []
wire families i (link ∷ links) used =
    let src = assign families i (source link) used in
    let dst = assign families i (target link) src.1 in
    (((source link).0, src.0), ((target link).0, dst.0)) ∷ wire families (i + 1) links dst.1

unfoldable pub endpoint : End → Text
endpoint e = e.0 ++ (text ":" ++ e.1)

-- `xs.insert(i, x)`
unfoldable pub insert_at {ℓ} : {A : Type ℓ} → ℕ → A → List A → List A
insert_at i x [] = x ∷ []
insert_at zero x (y ∷ ys) = x ∷ y ∷ ys
insert_at (suc i) x (y ∷ ys) = y ∷ insert_at i x ys

-- The links of the outside world, put in after the imported ones.
unfoldable pub pass_through : List (List Text) → ℕ → List (List Text) → List (List Text) × ℕ
unfolding insert_at
pass_through [] imported out = (out, imported)
pass_through (ends ∷ rest) imported out =
    let eps = keep (λ e. not (is_empty e)) ends in
    let skipped = pass_through rest imported out in
    let taken = pass_through rest (imported + 1) (insert_at (min imported (length out)) eps out) in
    if leb 2 (length eps) then taken else skipped

-- What is handed to the YAML printer.
pub record Document (V : Type 0) : Type 0 where
  pub name : Text
  pub network : Text
  pub ipv4_subnet : Text
  pub nodes : Dict (Dict (Value V))
  pub links : List (List Text)

unfoldable pub generate : {V : Type 0} → Topology V → Document V
unfolding nodes_from families_from wire endpoint pass_through
generate t = record {
  name = strip t.lab_name;
  network = strip t.mgmt_network;
  ipv4_subnet = strip t.mgmt_subnet;
  nodes = nodes_from t.nodes [];
  links =
      (pass_through t.passthrough_links t.imported_link_count (
        map (λ l. endpoint l.0 ∷ endpoint l.1 ∷ [])
          (wire (families_from t.nodes []) 0 t.links []))).0;
}
