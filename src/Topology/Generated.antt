-- ===== src/Topology/Generated.antt =====
-- topology_builder.py: proofs on the document of a topology that passed the check.
use clab_manager.Prelude.{
  ◌≡◌, refl, sym, ap, ◌∙◌, Bool, true, false, inl, inr, none, some, List, [], ◌∷◌, ◌++◌, map, All,
  Text, text, ◌==◌, eq_iff, elem, strip, is_empty, Dict, lookup, lookup-insert, lookup-insert_self,
  insert, All-mono, keys, arith, Bool-cases, false≢true,
}
use clab_manager.Topology.Families.{is_distinct}
use clab_manager.Topology.Checks.{Node, Link, Topology, validate_topology, node_name}
use clab_manager.Topology.Checked.{validate_topology_iff}
use clab_manager.Topology.Checked.Problems.{and_not}
use clab_manager.Topology.Checked.Links.{explicit_ends, are_distinct}
use clab_manager.Topology.Wiring.{
  Value, plain, given, generate, with_text, with_extra, kind_of, entry_of, nodes_from,
  families_from, wire, protected_keys,
}
use clab_manager.Topology.Wired.{AreGiven, AreBlank, FitsIn, flat, wire-are_distinct}

ends-append_blank :
    (imported drawn : List Link)
    → AreBlank drawn
    → explicit_ends (imported ++ drawn) ≡ explicit_ends imported
unfolding explicit_ends
ends-append_blank [] [] b = refl
ends-append_blank [] (l ∷ drawn) b = rw b.0.0 (ends-append_blank [] drawn b.1)
ends-append_blank (l ∷ imported) drawn b = rw (ends-append_blank imported drawn b) refl

-- Where a topology passes the check, and its links are some with both interfaces given and then
-- some with none, and no node has more link ends than its family has interfaces, the wiring uses no
-- interface of a node twice.
pub generate-are_distinct :
    {V : Type 0} (is_network : Text → Bool) (t : Topology V) (imported drawn : List Link)
    → validate_topology is_network t ≡ []
    → t.links ≡ imported ++ drawn
    → AreGiven imported
    → AreBlank drawn
    → FitsIn (families_from t.nodes []) t.links
    → are_distinct (flat (wire (families_from t.nodes []) 0 t.links [])) ≡ true
generate-are_distinct is_network t imported drawn valid split g b fits =
    let sound = (validate_topology_iff is_network t).0 valid in
    let ends = rw (split, ends-append_blank imported drawn b) at sound.ends in
    rw split
      (wire-are_distinct (families_from t.nodes []) imported drawn g b ends (rw split at fits))

not_protected :
    (k j : Text) → elem k protected_keys ≡ true → elem j protected_keys ≡ false → (j == k) ≡ false
not_protected k j p e = elim (Bool-cases (j == k)) [
  | inl q ↦ absurd (false≢true (sym e ∙ ap (λ x. elem x protected_keys) ((eq_iff j k).0 q) ∙ p))
  | inr q ↦ q
]

append_nil : (xs : List Text) → xs ++ [] ≡ xs
append_nil [] = refl
append_nil (x ∷ xs) = ap (λ l. x ∷ l) (append_nil xs)

append_one : (xs : List Text) (y : Text) (zs : List Text) → (xs ++ y ∷ []) ++ zs ≡ xs ++ y ∷ zs
append_one [] y zs = refl
append_one (x ∷ xs) y zs = ap (λ l. x ∷ l) (append_one xs y zs)

All-new {ℓ} : (V : Type ℓ) (names : List Text) → All (λ n. lookup {V = V} n [] ≡ none) names
All-new V [] = tt
All-new V (n ∷ names) = (refl, All-new V names)

module _ {V : Type 0} where
  lookup-with_text :
      (k key s : Text) (entry : Dict (Value V))
      → (key == k) ≡ false
      → lookup k (with_text key s entry) ≡ lookup k entry
  unfolding with_text
  lookup-with_text k key s entry ne = elim (Bool-cases (is_empty s)) [
    | inl e ↦ rw e refl
    | inr e ↦ rw e (rw (lookup-insert key k (plain s) entry, ne) refl)
  ]

  lookup-with_extra :
      (k : Text) (extra : Dict V) (entry : Dict (Value V))
      → elem k protected_keys ≡ true
      → lookup k (with_extra extra entry) ≡ lookup k entry
  unfolding with_extra
  lookup-with_extra k [] entry p = refl
  lookup-with_extra k ((j, v) ∷ extra) entry p = elim (Bool-cases (elem j protected_keys)) [
    | inl e ↦ rw e (lookup-with_extra k extra entry p)
    | inr e ↦ rw e (
        lookup-with_extra k extra (insert j (given v) entry) p
        ∙ rw (lookup-insert j k (given v) entry, not_protected k j p e) refl)
  ]

  entry-kind : (node : Node V) → lookup (text "kind") (entry_of node) ≡ some (plain (kind_of node))
  unfolding entry_of ◌==◌
  entry-kind node =
      lookup-with_extra (text "kind") node.extra_params _ refl
      ∙ (lookup-with_text (text "kind") (text "startup-config") (strip node.startup_config) _ refl
          ∙ lookup-with_text (text "kind") (text "mgmt-ipv4") (strip node.mgmt_ip) _ refl)

  entry-image :
      (node : Node V) → lookup (text "image") (entry_of node) ≡ some (plain (strip node.image))
  unfolding entry_of ◌==◌
  entry-image node =
      lookup-with_extra (text "image") node.extra_params _ refl
      ∙ (lookup-with_text (text "image") (text "startup-config") (strip node.startup_config) _ refl
          ∙ lookup-with_text (text "image") (text "mgmt-ipv4") (strip node.mgmt_ip) _ refl)

  abbrev AreNew : List Text → Dict (Dict (Value V)) → Type 0
  AreNew names out = All (λ n. lookup n out ≡ none) names

  new_insert :
      (k : Text) (v : Dict (Value V)) (names : List Text) (out : Dict (Dict (Value V)))
      → elem k names ≡ false
      → AreNew names out
      → AreNew names (insert k v out)
  new_insert k v [] out ne h = tt
  new_insert k v (n ∷ names) out ne h =
      ground (arith, lookup-insert k n v out, eq_iff k n, eq_iff n k, new_insert k v names out)

  keys-insert_new :
      (k : Text) (v : Dict (Value V)) (out : Dict (Dict (Value V)))
      → lookup k out ≡ none
      → keys (insert k v out) ≡ keys out ++ k ∷ []
  keys-insert_new k v [] h = refl
  keys-insert_new k v ((j, w) ∷ out) h = elim (Bool-cases (j == k)) [
    | inl e ↦ absurd (cc (rw e at h))
    | inr e ↦ rw e (ap (λ l. j ∷ l) (keys-insert_new k v out (rw e at h)))
  ]

  keys-nodes_from :
      (nodes : List (Node V)) (out : Dict (Dict (Value V)))
      → is_distinct (map node_name nodes) ≡ true
      → AreNew (map node_name nodes) out
      → keys (nodes_from nodes out) ≡ keys out ++ map node_name nodes
  unfolding nodes_from is_distinct
  keys-nodes_from [] out d h = sym (append_nil (keys out))
  keys-nodes_from (node ∷ nodes) out d h =
      let c = and_not d in
      keys-nodes_from nodes (insert (node_name node) (entry_of node) out) c.1
        (new_insert (node_name node) (entry_of node) (map node_name nodes) out c.0 h.1)
      ∙ rw (keys-insert_new (node_name node) (entry_of node) out h.0)
          (append_one (keys out) (node_name node) (map node_name nodes))

  lookup-nodes_from :
      (k : Text) (nodes : List (Node V)) (out : Dict (Dict (Value V)))
      → elem k (map node_name nodes) ≡ false
      → lookup k (nodes_from nodes out) ≡ lookup k out
  unfolding nodes_from
  lookup-nodes_from k [] out h = refl
  lookup-nodes_from k (node ∷ nodes) out h =
      let rest = lookup-nodes_from k nodes (insert (node_name node) (entry_of node) out) in
      ground (arith, rest, lookup-insert (node_name node) k (entry_of node) out)

  All-entered :
      (nodes : List (Node V)) (out : Dict (Dict (Value V)))
      → is_distinct (map node_name nodes) ≡ true
      → All (λ n. lookup (node_name n) (nodes_from nodes out) ≡ some (entry_of n)) nodes
  unfolding nodes_from is_distinct
  All-entered [] out d = tt
  All-entered (node ∷ nodes) out d =
      let c = and_not d in
      let next = insert (node_name node) (entry_of node) out in
      (
        lookup-nodes_from (node_name node) nodes next c.0
            ∙ lookup-insert_self (node_name node) (entry_of node) out,
        All-entered nodes next c.1,
      )

  -- A node in a document: under its name, with its kind and its image.
  pub record IsEntered (out : Dict (Dict (Value V))) (node : Node V) : Type 0 where
    pub entry : lookup (node_name node) out ≡ some (entry_of node)
    pub kind : lookup (text "kind") (entry_of node) ≡ some (plain (kind_of node))
    pub image : lookup (text "image") (entry_of node) ≡ some (plain (strip node.image))

-- Where a topology passes the check, the document that is generated has the nodes under their names
-- in their order, each with its own entry, with the kind and the image of its definition whatever
-- its further parameters are.
pub generate-nodes :
    {V : Type 0} (is_network : Text → Bool) (t : Topology V)
    → validate_topology is_network t ≡ []
    → (keys (generate t).nodes ≡ map node_name t.nodes) × All (IsEntered (generate t).nodes) t.nodes
unfolding generate
generate-nodes is_network t valid =
    let sound = (validate_topology_iff is_network t).0 valid in
    (
      keys-nodes_from t.nodes [] sound.names (All-new _ (map node_name t.nodes)),
      All-mono _ (IsEntered (generate t).nodes)
          (λ n e. record { entry = e; kind = entry-kind n; image = entry-image n }) t.nodes
          (All-entered t.nodes [] sound.names),
    )
