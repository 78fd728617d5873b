-- ===== src/Topology/Checked.antt =====
-- topology_builder.py: proofs on the checks of a whole topology.
pub mod Problems
pub mod Nodes
pub mod Links
use clab_manager.Prelude.{
  ◌≡◌, ◌↔◌, refl, sym, ◌∙◌, strip, Bool, true, false, false≢true, not, List, [], ◌∷◌, ◌++◌, map,
  All, Text, is_empty, ◌<◌, length, arith, Bool-cases, inl, inr,
}
use clab_manager.Topology.Families.{is_distinct}
use clab_manager.Topology.Checks.{
  lab_name_malformed, subnet_malformed, subnet_missing, network_missing, Node, Topology, unless,
  is_label, validate_lab_name, validate_mgmt, node_name, validate_nodes, known_names,
  validate_links, validate_topology,
}
use clab_manager.Topology.Checked.Problems.{
  append_none, unless_none, unless_first, label_filled, not-true, not_of,
}
use clab_manager.Topology.Checked.Nodes.{
  IsGoodNode, unseen_none, validate_nodes_from_iff, known_names-All,
}
use clab_manager.Topology.Checked.Links.{
  IsJoined, explicit_ends, are_distinct, free_none, validate_links_from_iff,
}

-- A topology as the check asks for it.
pub record IsSound {V : Type 0} (is_network : Text → Bool) (t : Topology V) : Type 0 where
  pub labelled : is_label 62 (strip t.lab_name) ≡ true
  pub networked : is_empty (strip t.mgmt_network) ≡ false
  pub addressed :
      (is_empty (strip t.mgmt_subnet) ≡ false) × (is_network (strip t.mgmt_subnet) ≡ true)
  pub inhabited : 0 < length t.nodes
  pub nodes : All IsGoodNode t.nodes
  pub names : is_distinct (map node_name t.nodes) ≡ true
  pub links : All (IsJoined (map node_name t.nodes)) t.links
  pub ends : are_distinct (explicit_ends t.links) ≡ true

lab_name_none : (name : Text) → (validate_lab_name name ≡ []) ↔ (is_label 62 (strip name) ≡ true)
unfolding validate_lab_name
lab_name_none name = elim (Bool-cases (is_empty (strip name))) [
  | inl e ↦
      rw e (λ x. absurd (cc x), λ x. absurd (false≢true (sym (label_filled 62 (strip name) x) ∙ e)))
  | inr e ↦ rw e (unless_none (is_label 62 (strip name)) lab_name_malformed)
]

mgmt_none :
    (is_network : Text → Bool) (network subnet : Text)
    → (validate_mgmt is_network network subnet ≡ []) ↔ (
        (is_empty (strip network) ≡ false)
        × (is_empty (strip subnet) ≡ false)
        × (is_network (strip subnet) ≡ true))
unfolding validate_mgmt
mgmt_none is_network network subnet =
    let f = unless_none (is_network (strip subnet)) subnet_malformed in
    elim (Bool-cases (is_empty (strip subnet))) [
      | inl e ↦ rw e (
        λ x.
            let p =
              (unless_first (not (is_empty (strip network))) network_missing
                  (subnet_missing ∷ [])).0
                x in
            absurd (cc (p.1)),
        λ x. absurd (false≢true (sym x.1)),
      )
      | inr e ↦
          let g =
            unless_first (not (is_empty (strip network))) network_missing
              (unless (is_network (strip subnet)) subnet_malformed) in
          rw e (λ x. (not-true (g.0 x).0, refl, f.0 (g.0 x).1), λ x. g.1 (not_of x.0, f.1 x.2))
    ]

nodes_none :
    {V : Type 0} (nodes : List (Node V))
    → (validate_nodes nodes ≡ [])
      ↔ ((0 < length nodes) × All IsGoodNode nodes × (is_distinct (map node_name nodes) ≡ true))
unfolding validate_nodes
nodes_none [] = (λ e. absurd (cc e), λ h. absurd (omega (arith, h.0)))
nodes_none (node ∷ nodes) =
    let r = validate_nodes_from_iff [] (node ∷ nodes) in
    (λ e. (omega arith, (r.0 e).0, (r.0 e).2), λ h. r.1 (h.1, unseen_none (node ∷ nodes), h.2))

-- The check of a topology finds no problem exactly when the name of the lab and the network are of
-- their form, there is a node, the nodes have valid and distinct names, known families and images,
-- every link joins two different known nodes, and no interface is given twice by the links that
-- have both interfaces given.
pub validate_topology_iff :
    {V : Type 0} (is_network : Text → Bool) (t : Topology V)
    → (validate_topology is_network t ≡ []) ↔ IsSound is_network t
unfolding validate_topology validate_links
validate_topology_iff is_network t =
    let lab = validate_lab_name t.lab_name in
    let mgmt = validate_mgmt is_network t.mgmt_network t.mgmt_subnet in
    let nodes = validate_nodes t.nodes in
    let links = validate_links t.links (known_names t.nodes) in
    let a = append_none lab (mgmt ++ (nodes ++ links)) in
    let b = append_none mgmt (nodes ++ links) in
    let c = append_none nodes links in
    let l = lab_name_none t.lab_name in
    let m = mgmt_none is_network t.mgmt_network t.mgmt_subnet in
    let n = nodes_none t.nodes in
    let k = validate_links_from_iff (known_names t.nodes) [] 1 t.links in
    (
      λ x.
          let p = a.0 x in
          let q = b.0 p.1 in
          let r = c.0 q.1 in
          let h = m.0 q.0 in
          let g = n.0 r.0 in
          let j = k.0 r.1 in
          record {
            labelled = l.0 p.0;
            networked = h.0;
            addressed = (h.1, h.2);
            inhabited = g.0;
            nodes = g.1;
            names = g.2;
            links = rw⁻¹ (known_names-All t.nodes g.1) j.0;
            ends = j.2;
          },
      λ x. a.1 (
        l.1 x.labelled,
        b.1 (
          m.1 (x.networked, x.addressed.0, x.addressed.1),
          c.1 (
            n.1 (x.inhabited, x.nodes, x.names),
            k.1 (
              rw (known_names-All t.nodes x.nodes) x.links,
              free_none (explicit_ends t.links),
              x.ends,
            ),
          ),
        ),
      ),
    )
