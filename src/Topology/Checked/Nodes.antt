-- ===== src/Topology/Checked/Nodes.antt =====
-- topology_builder.py: proofs on the checks of the nodes.
use clab_manager.Prelude.{
  ◌≡◌, ◌↔◌, refl, sym, ap, ◌∙◌, strip, true, false, false≢true, not, List, [], ◌∷◌, ◌++◌, map, All,
  Text, eq_iff, elem, is_empty, arith, Bool-cases, inl, inr,
}
use clab_manager.Topology.Families.{is_distinct}
use clab_manager.Topology.Checks.{
  Node, unless, is_label, node_name, has_family, node_problems, validate_nodes_from, known_names,
  node_malformed, node_twice, family_unknown, node_without_image,
}
use clab_manager.Topology.Checked.Problems.{
  append_none, unless_none, unless_first, label_filled, not-true, not_of, strip_filled, and_not,
}

module _ {V : Type 0} where
  -- A name of its form, a known family or none, and an image.
  pub record IsGoodNode (node : Node V) : Type 0 where
    pub named : is_label 30 (node_name node) ≡ true
    pub related : has_family node ≡ true
    pub equipped : is_empty (strip node.image) ≡ false

  abbrev pub AreUnseen : List Text → List (Node V) → Type 0
  AreUnseen seen nodes = All (λ n. elem (node_name n) seen ≡ false) nodes

  unseen_cons :
      (x : Text) (seen : List Text) (nodes : List (Node V))
      → AreUnseen (x ∷ seen) nodes ↔ (AreUnseen seen nodes × (elem x (map node_name nodes) ≡ false))
  unseen_cons x seen [] = (λ _. (tt, refl), λ _. tt)
  unseen_cons x seen (node ∷ nodes) =
      ground (arith, unseen_cons x seen nodes, eq_iff x (node_name node), eq_iff (node_name node) x)

  node_problems_none :
      (seen : List Text) (node : Node V)
      → (node_problems seen node ≡ []) ↔ (IsGoodNode node × (elem (node_name node) seen ≡ false))
  unfolding node_problems
  node_problems_none seen node =
      let name = node_name node in
      let twice = unless (not (elem name seen)) (node_twice name) in
      let stray = unless (has_family node) (family_unknown node.family name) in
      let without = unless (not (is_empty (strip node.image))) (node_without_image name) in
      let a = unless_first (is_label 30 name) (node_malformed name) (twice ++ (stray ++ without)) in
      let b = unless_first (not (elem name seen)) (node_twice name) (stray ++ without) in
      let c = unless_first (has_family node) (family_unknown node.family name) without in
      let d = unless_none (not (is_empty (strip node.image))) (node_without_image name) in
      (
        λ e.
            let h = a.0 e in
            let k = b.0 h.1 in
            let l = c.0 k.1 in
            (record { named = h.0; related = l.0; equipped = not-true (d.0 l.1) }, not-true k.0),
        λ h. a.1 (h.0.named, b.1 (not_of h.1, c.1 (h.0.related, d.1 (not_of h.0.equipped)))),
      )

  pub validate_nodes_from_iff :
      (seen : List Text) (nodes : List (Node V))
      → (validate_nodes_from seen nodes ≡ [])
        ↔ (All IsGoodNode nodes × AreUnseen seen nodes × (is_distinct (map node_name nodes) ≡ true))
  unfolding validate_nodes_from is_distinct
  validate_nodes_from_iff seen [] = (λ _. (tt, tt, refl), λ _. refl)
  validate_nodes_from_iff seen (node ∷ nodes) =
      let name = node_name node in
      let p = append_none (node_problems seen node) (validate_nodes_from (name ∷ seen) nodes) in
      let q = node_problems_none seen node in
      let r = validate_nodes_from_iff (name ∷ seen) nodes in
      let u = unseen_cons name seen nodes in
      elim (Bool-cases (is_empty name)) [
        | inl e ↦ rw e (
          λ x. absurd (cc x),
          λ x. absurd (false≢true (sym (label_filled 30 name x.0.0.named) ∙ e)),
        )
        | inr e ↦ rw e (
          λ x.
              let a = q.0 (p.0 x).0 in
              let b = r.0 (p.0 x).1 in let c = u.0 b.1 in ((a.0, b.0), (a.1, c.0), rw c.1 b.2),
          λ x. let d = and_not x.2 in p.1 (q.1 (x.0.0, x.1.0), r.1 (x.0.1, u.1 (x.1.1, d.0), d.1)),
        )
      ]

  pub known_names-All :
      (nodes : List (Node V)) → All IsGoodNode nodes → known_names nodes ≡ map node_name nodes
  unfolding known_names
  known_names-All [] h = refl
  known_names-All (node ∷ nodes) h =
      rw (strip_filled node.name h.0.named)
        (ap (λ l. node_name node ∷ l) (known_names-All nodes h.1))

pub unseen_none : {V : Type 0} (nodes : List (Node V)) → AreUnseen [] nodes
unseen_none [] = tt
unseen_none (node ∷ nodes) = (refl, unseen_none nodes)
