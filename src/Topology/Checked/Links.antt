-- ===== src/Topology/Checked/Links.antt =====
-- topology_builder.py: proofs on the checks of the links.
use clab_manager.Prelude.{
  ℕ, ◌+◌, ◌≡◌, ◌↔◌, refl, sym, ◌∙◌, Bool, true, false, false≢true, not, ◌&&◌, List, [], ◌∷◌, ◌++◌,
  All, if◌then◌else◌, Text, ◌==◌, eq_iff, elem, arith, Bool-cases, inl, inr,
}
use clab_manager.Topology.Checks.{
  Link, End, unless, same_end, is_used, source, target, is_explicit, is_unfinished, link_problems,
  seen_after, source_unknown, destination_unknown, loop_on, interface_used, validate_links_from,
}
use clab_manager.Topology.Checked.Problems.{
  append_none, unless_none, unless_first, not-true, not_of, and_not,
}

-- A link between two different known nodes.
pub record IsJoined (names : List Text) (link : Link) : Type 0 where
  pub finished : is_unfinished link ≡ false
  pub from : elem (source link).0 names ≡ true
  pub to : elem (target link).0 names ≡ true
  pub apart : ((source link).0 == (target link).0) ≡ false

-- Where both interfaces are given, no end is among those seen.
abbrev IsFree : List End → Link → Type 0
IsFree seen link =
    is_explicit link ≡ true
    → (is_used seen (source link) ≡ false) × (is_used seen (target link) ≡ false)

not_and : (a b : Bool) → (not (a && b) ≡ true) ↔ (a ≡ true → b ≡ false)
not_and true true = (λ e. absurd (false≢true e), λ f. sym (f refl))
not_and true false = (λ e _. refl, λ f. refl)
not_and false b = (λ e q. absurd (false≢true q), λ f. refl)

link_problems_none :
    (names : List Text) (seen : List End) (i : ℕ) (link : Link)
    → is_unfinished link ≡ false
    → (link_problems names seen i link ≡ []) ↔ (IsJoined names link × IsFree seen link)
unfolding link_problems
link_problems_none names seen i link h =
    let src = source link in
    let dst = target link in
    let to = unless (elem dst.0 names) (destination_unknown i dst.0) in
    let loop = unless (not (src.0 == dst.0)) (loop_on i src.0) in
    let left = unless (not (is_explicit link && is_used seen src)) (interface_used i src.1 src.0) in
    let right =
      unless (not (is_explicit link && is_used seen dst)) (interface_used i dst.1 dst.0) in
    let a =
      unless_first (elem src.0 names) (source_unknown i src.0) (to ++ (loop ++ (left ++ right))) in
    let b =
      unless_first (elem dst.0 names) (destination_unknown i dst.0) (loop ++ (left ++ right)) in
    let c = unless_first (not (src.0 == dst.0)) (loop_on i src.0) (left ++ right) in
    let d =
      unless_first (not (is_explicit link && is_used seen src)) (interface_used i src.1 src.0)
        right in
    let e =
      unless_none (not (is_explicit link && is_used seen dst)) (interface_used i dst.1 dst.0) in
    let l = not_and (is_explicit link) (is_used seen src) in
    let r = not_and (is_explicit link) (is_used seen dst) in
    (
      λ x.
          let p = a.0 x in
          let q = b.0 p.1 in
          let s = c.0 q.1 in
          let t = d.0 s.1 in
          (
            record { finished = h; from = p.0; to = q.0; apart = not-true s.0 },
            λ k. (l.0 t.0 k, r.0 (e.0 t.1) k),
          ),
      λ x. a.1 (
        x.0.from,
        b.1 (
          x.0.to,
          c.1 (not_of x.0.apart, d.1 (l.1 (λ k. (x.1 k).0), e.1 (r.1 (λ k. (x.1 k).1)))),
        ),
      ),
    )

-- The ends of the links that have both interfaces given.
unfoldable pub explicit_ends : List Link → List End
explicit_ends [] = []
explicit_ends (link ∷ links) =
    if is_explicit link
    then source link ∷ target link ∷ explicit_ends links
    else explicit_ends links

unfoldable pub are_distinct : List End → Bool
are_distinct [] = true
are_distinct (e ∷ es) = not (is_used es e) && are_distinct es

same_end_sym : (e f : End) → same_end e f ≡ same_end f e
unfolding same_end
same_end_sym e f = ground (arith, eq_iff e.0 f.0, eq_iff f.0 e.0, eq_iff e.1 f.1, eq_iff f.1 e.1)

abbrev pub AreFree : List End → List End → Type 0
AreFree seen ends = All (λ e. is_used seen e ≡ false) ends

pub free_cons :
    (e : End) (seen ends : List End)
    → AreFree (e ∷ seen) ends ↔ (AreFree seen ends × (is_used ends e ≡ false))
unfolding is_used
free_cons e seen [] = (λ _. (tt, refl), λ _. tt)
free_cons e seen (f ∷ ends) = ground (arith, free_cons e seen ends, same_end_sym e f)

used_elsewhere :
    (e f : End) (ends : List End) → (e.0 == f.0) ≡ false → is_used (f ∷ ends) e ≡ is_used ends e
unfolding is_used same_end
used_elsewhere e f ends h = rw h refl

IsFree-step :
    (seen : List End) (link : Link) (ends : List End)
    → ((source link).0 == (target link).0) ≡ false
    → (IsFree seen link × AreFree (seen_after seen link) ends × (are_distinct ends ≡ true)) ↔ (
        AreFree seen (if is_explicit link then source link ∷ target link ∷ ends else ends)
        × (are_distinct (if is_explicit link then source link ∷ target link ∷ ends else ends)
            ≡ true))
unfolding seen_after are_distinct
IsFree-step seen link ends apart =
    let a = free_cons (target link) (source link ∷ seen) ends in
    let b = free_cons (source link) seen ends in
    elim (Bool-cases (is_explicit link)) [
      | inl e ↦
          rw (e, used_elsewhere (source link) (target link) ends apart)
            (
              λ x.
                  let c = a.0 x.1 in
                  let d = b.0 c.0 in (((x.0 refl).0, ((x.0 refl).1, d.0)), rw (d.1, c.1) x.2),
              λ x.
                  let u = and_not x.1 in
                  let v = and_not u.1 in
                  (λ _. (x.0.0, x.0.1.0), a.1 (b.1 (x.0.1.1, u.0), v.0), v.1),
            )
      | inr e ↦ rw e (λ x. (x.1, x.2), λ x. (λ k. absurd (false≢true k), x.0, x.1))
    ]

pub validate_links_from_iff :
    (names : List Text) (seen : List End) (i : ℕ) (links : List Link)
    → (validate_links_from names seen i links ≡ []) ↔ (
        All (IsJoined names) links
        × AreFree seen (explicit_ends links)
        × (are_distinct (explicit_ends links) ≡ true))
unfolding validate_links_from explicit_ends are_distinct
validate_links_from_iff names seen i [] = (λ _. (tt, tt, refl), λ _. refl)
validate_links_from_iff names seen i (link ∷ links) =
    let p =
      append_none (link_problems names seen i link)
        (validate_links_from names (seen_after seen link) (i + 1) links) in
    let r = validate_links_from_iff names (seen_after seen link) (i + 1) links in
    let q = link_problems_none names seen i link in
    let f = IsFree-step seen link (explicit_ends links) in
    elim (Bool-cases (is_unfinished link)) [
      | inl e ↦ rw e (λ x. absurd (cc x), λ x. absurd (false≢true (sym x.0.0.finished ∙ e)))
      | inr e ↦ rw e (
        λ x.
            let a = (q e).0 (p.0 x).0 in
            let b = r.0 (p.0 x).1 in
            let c = (f a.0.apart).0 (a.1, b.1, b.2) in ((a.0, b.0), c.0, c.1),
        λ x.
            let c = (f x.0.0.apart).1 (x.1, x.2) in
            p.1 ((q e).1 (x.0.0, c.0), r.1 (x.0.1, c.1, c.2)),
      )
    ]

pub free_none : (ends : List End) → AreFree [] ends
unfolding is_used
free_none [] = tt
free_none (e ∷ ends) = (refl, free_none ends)
