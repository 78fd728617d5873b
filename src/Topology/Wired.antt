-- ===== src/Topology/Wired.antt =====
-- topology_builder.py: proofs on the wiring of the links.
use clab_manager.Prelude.{
  decimal, ℕ, suc, ◌+◌, ◌≤◌, ◌<◌, ◌≡◌, refl, ap, ◌∙◌, Bool, true, false, ◌||◌, inl, inr, List, [],
  ◌∷◌, ◌++◌, map, length, length-append, All, tally, if◌then◌else◌, Text, text, ◌==◌, eq_iff,
  eq_refl, elem, Dict, lookup, lookup-insert, some_or, arith, Bool-cases, is_empty,
}
use clab_manager.Topology.Checks.{Link, End, same_end, is_used, source, target}
use clab_manager.Topology.Checked.Problems.{and_not}
use clab_manager.Topology.Checked.Links.{are_distinct, AreFree, free_cons, free_none, explicit_ends}
use clab_manager.Topology.Wiring.{used_by, note_used, pool, auto_name, iface_for, assign, wire}
use clab_manager.Topology.Capacity.{first_fresh, pool-is_distinct, pool_roomy}

add_zero : (n : ℕ) → n + 0 ≡ n
add_zero n = omega arith

add_suc : (n m : ℕ) → n + suc m ≡ n + 1 + m
add_suc n m = omega arith

-- The ends of the links one after the other, each with the number of its link.
abbrev numbered : ℕ → List Link → List (ℕ × End)
numbered i [] = []
numbered i (link ∷ links) = (i, source link) ∷ (i, target link) ∷ numbered (i + 1) links

abbrev pub flat : List (End × End) → List End
flat [] = []
flat ((e, f) ∷ rest) = e ∷ f ∷ flat rest

assign_all : Dict Text → List (ℕ × End) → Dict (List Text) → List End
assign_all families [] used = []
assign_all families ((i, e) ∷ es) used =
    (e.0, iface_for families i e used)
    ∷ assign_all families es (note_used e.0 (iface_for families i e used) used)

flat-wire :
    (families : Dict Text) (i : ℕ) (links : List Link) (used : Dict (List Text))
    → flat (wire families i links used) ≡ assign_all families (numbered i links) used
unfolding wire assign assign_all
flat-wire families i [] used = refl
flat-wire families i (link ∷ links) used =
    let used1 = note_used (source link).0 (iface_for families i (source link) used) used in
    let used2 = note_used (target link).0 (iface_for families i (target link) used1) used1 in
    rw (flat-wire families (i + 1) links used2) refl

abbrev is_at : Text → ℕ × End → Bool
is_at node (i, e) = e.0 == node

-- The ends seen are those that the interfaces in use tell.
abbrev Tracks : List End → Dict (List Text) → Type 0
Tracks seen used = (node name : Text) → is_used seen (node, name) ≡ elem name (used_by node used)

-- Every node has names enough for the ends to come.
abbrev HasRoom : Dict Text → List (ℕ × End) → Dict (List Text) → Type 0
HasRoom families es used =
    (node : Text)
    → length (used_by node used) + tally (is_at node) es
      ≤ length (pool (some_or (lookup node families) (text "linux")))

elem-append : (x : Text) (xs : List Text) (y : Text) → elem x (xs ++ y ∷ []) ≡ elem x xs || y == x
elem-append x [] y = ground arith
elem-append x (z ∷ xs) y = ground (arith, elem-append x xs y)

used_by-note :
    (node name other : Text) (used : Dict (List Text))
    → used_by other (note_used node name used)
      ≡ (if node == other then used_by node used ++ name ∷ [] else used_by other used)
unfolding note_used
used_by-note node name other used =
    rw (lookup-insert node other (used_by node used ++ name ∷ []) used)
      (elim (Bool-cases (node == other)) [ inl e ↦ rw e refl | inr e ↦ rw e refl ])

track_note :
    (seen : List End) (used : Dict (List Text)) (node name : Text)
    → Tracks seen used
    → Tracks ((node, name) ∷ seen) (note_used node name used)
unfolding is_used same_end
track_note seen used node name h other x =
    rw (used_by-note node name other used) (elim (Bool-cases (node == other)) [
      | inl e ↦ ground (
        arith,
        e,
        h node x,
        h other x,
        eq_iff node other,
        eq_iff other node,
        eq_iff x name,
        eq_iff name x,
        elem-append x (used_by node used) name,
      )
      | inr e ↦ ground (arith, e, h other x, eq_iff node other, eq_iff other node)
    ])

room_note :
    (families : Dict Text) (i : ℕ) (e : End) (es : List (ℕ × End)) (used : Dict (List Text))
    (name : Text)
    → HasRoom families ((i, e) ∷ es) used
    → HasRoom families es (note_used e.0 name used)
room_note families i e es used name h node =
    let k = h node in
    rw (used_by-note e.0 name node used) (elim (Bool-cases (e.0 == node)) [
      | inl q ↦ rw q (
          omega (
            arith,
            rw q at k,
            length-append (used_by e.0 used) (name ∷ []),
            ap (λ n. length (used_by n used)) ((eq_iff e.0 node).0 q),
          ))
      | inr q ↦ rw q (omega (arith, rw q at k))
    ])

fresh_cons :
    (e : End) (seen out : List End)
    → is_used seen e ≡ false
    → AreFree (e ∷ seen) out × (are_distinct out ≡ true)
    → AreFree seen (e ∷ out) × (are_distinct (e ∷ out) ≡ true)
unfolding are_distinct
fresh_cons e seen out f h = let c = (free_cons e seen out).0 h.0 in ((f, c.0), rw c.1 h.1)

iface_blank :
    (families : Dict Text) (i : ℕ) (e : End) (used : Dict (List Text))
    → is_empty e.1 ≡ true
    → length (used_by e.0 used) < length (pool (some_or (lookup e.0 families) (text "linux")))
    → elem (iface_for families i e used) (used_by e.0 used) ≡ false
unfolding iface_for auto_name
iface_blank families i e used b room =
    let family = some_or (lookup e.0 families) (text "linux") in
    rw b
      (first_fresh (pool family) (used_by e.0 used) (text "eth" ++ decimal i)
        (pool-is_distinct family) room).0

iface_given :
    (families : Dict Text) (i : ℕ) (e : End) (used : Dict (List Text))
    → is_empty e.1 ≡ false
    → iface_for families i e used ≡ e.1
unfolding iface_for
iface_given families i e used b = rw b refl

assign_blank :
    (families : Dict Text) (es : List (ℕ × End)) (used : Dict (List Text)) (seen : List End)
    → All (λ x. is_empty x.1.1 ≡ true) es
    → Tracks seen used
    → HasRoom families es used
    → AreFree seen (assign_all families es used)
      × (are_distinct (assign_all families es used) ≡ true)
unfolding assign_all are_distinct
assign_blank families [] used seen b t r = (tt, refl)
assign_blank families ((i, e) ∷ es) used seen b t r =
    let name = iface_for families i e used in
    let room = rw (eq_refl e.0) at (r e.0) in
    let fresh = iface_blank families i e used b.0 (omega (arith, room)) in
    fresh_cons (e.0, name) seen (assign_all families es (note_used e.0 name used))
      (t e.0 name ∙ fresh)
      (assign_blank families es (note_used e.0 name used) ((e.0, name) ∷ seen) b.1
        (track_note seen used e.0 name t) (room_note families i e es used name r))

abbrev ends_of : List (ℕ × End) → List End
ends_of = map (λ x. x.1)

distinct_cons :
    (e : End) (es : List End)
    → are_distinct (e ∷ es) ≡ true
    → (is_used es e ≡ false) × (are_distinct es ≡ true)
unfolding are_distinct
distinct_cons e es h = and_not h

assign_given :
    (families : Dict Text) (es bs : List (ℕ × End)) (used : Dict (List Text)) (seen : List End)
    → All (λ x. is_empty x.1.1 ≡ false) es
    → All (λ x. is_empty x.1.1 ≡ true) bs
    → Tracks seen used
    → HasRoom families (es ++ bs) used
    → AreFree seen (ends_of es)
    → are_distinct (ends_of es) ≡ true
    → AreFree seen (assign_all families (es ++ bs) used)
      × (are_distinct (assign_all families (es ++ bs) used) ≡ true)
unfolding assign_all
assign_given families [] bs used seen g b t r f d = assign_blank families bs used seen b t r
assign_given families ((i, e) ∷ es) bs used seen g b t r f d =
    let c = distinct_cons e (ends_of es) d in
    rw (iface_given families i e used g.0) (
      fresh_cons e seen (assign_all families (es ++ bs) (note_used e.0 e.1 used)) f.0 (
        assign_given families es bs (note_used e.0 e.1 used) (e ∷ seen) g.1 b
          (track_note seen used e.0 e.1 t) (room_note families i e (es ++ bs) used e.1 r)
          ((free_cons e seen (ends_of es)).1 (f.1, c.0)) c.1))

numbered-append :
    (i : ℕ) (xs ys : List Link)
    → numbered i (xs ++ ys) ≡ numbered i xs ++ numbered (i + length xs) ys
numbered-append i [] ys = rw (add_zero i) refl
numbered-append i (x ∷ xs) ys = rw (numbered-append (i + 1) xs ys, add_suc i (length xs)) refl

-- Links with both interfaces given.
abbrev pub AreGiven : List Link → Type 0
AreGiven links = All (λ l. (is_empty (source l).1 ≡ false) × (is_empty (target l).1 ≡ false)) links

-- Links with no interface given.
abbrev pub AreBlank : List Link → Type 0
AreBlank links = All (λ l. (is_empty (source l).1 ≡ true) × (is_empty (target l).1 ≡ true)) links

-- Every node has as many interfaces as the links have ends at it.
abbrev pub FitsIn : Dict Text → List Link → Type 0
FitsIn families links =
    (node : Text)
    → tally (is_at node) (numbered 0 links)
      ≤ length (pool (some_or (lookup node families) (text "linux")))

given_numbered :
    (i : ℕ) (links : List Link)
    → AreGiven links
    → All (λ x. is_empty x.1.1 ≡ false) (numbered i links)
given_numbered i [] h = tt
given_numbered i (l ∷ links) h = (h.0.0, (h.0.1, given_numbered (i + 1) links h.1))

blank_numbered :
    (i : ℕ) (links : List Link)
    → AreBlank links
    → All (λ x. is_empty x.1.1 ≡ true) (numbered i links)
blank_numbered i [] h = tt
blank_numbered i (l ∷ links) h = (h.0.0, (h.0.1, blank_numbered (i + 1) links h.1))

ends-given :
    (i : ℕ) (links : List Link) → AreGiven links → ends_of (numbered i links) ≡ explicit_ends links
unfolding explicit_ends
ends-given i [] h = refl
ends-given i (l ∷ links) h = rw (h.0.0, h.0.1, ends-given (i + 1) links h.1) refl

Tracks-none : Tracks [] []
unfolding is_used
Tracks-none node name = refl

tracks_room :
    (families : Dict Text) (links : List Link)
    → FitsIn families links
    → HasRoom families (numbered 0 links) []
tracks_room families links fits node = omega (arith, fits node)

-- Wired.
pub wire-are_distinct :
    (families : Dict Text) (imported drawn : List Link)
    → AreGiven imported
    → AreBlank drawn
    → are_distinct (explicit_ends imported) ≡ true
    → FitsIn families (imported ++ drawn)
    → are_distinct (flat (wire families 0 (imported ++ drawn) [])) ≡ true
wire-are_distinct families imported drawn g b d fits =
    let split = numbered-append 0 imported drawn in
    let room = tracks_room families (imported ++ drawn) fits in
    rw (flat-wire families 0 (imported ++ drawn) [], split)
      (assign_given families (numbered 0 imported) (numbered (0 + length imported) drawn) [] []
        (given_numbered 0 imported g) (blank_numbered (0 + length imported) drawn b) Tracks-none
        (rw split at room) (free_none (ends_of (numbered 0 imported)))
        (rw (ends-given 0 imported g) d)).1

tally_le : (node : Text) (es : List (ℕ × End)) → tally (is_at node) es ≤ length es
tally_le node [] = omega arith
tally_le node (e ∷ es) = ground (arith, tally_le node es)

-- Eight ends fit everywhere.
pub few-FitsIn :
    (families : Dict Text) (links : List Link)
    → length (numbered 0 links) ≤ 8
    → FitsIn families links
few-FitsIn families links few node = omega (
  arith,
  tally_le node (numbered 0 links),
  pool_roomy (some_or (lookup node families) (text "linux")),
  few,
)
