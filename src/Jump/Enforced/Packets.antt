-- ===== src/Jump/Enforced/Packets.antt =====
-- jump_access.py: the reading of its rules on a packet, and proofs on the table of rules.
use clab_manager.Prelude.{
  ℕ, ◌≡◌, refl, sym, ap, ◌∙◌, Bool, true, false, not, ◌&&◌, ◌||◌, inl, inr, Option, none, some,
  List, [], ◌∷◌, All, any, tally, if◌then◌else◌, eqb, eqb_iff, leb, Text, elem, Dict, lookup,
  some_or, arith, Bool-cases, All-sorted, tally-sorted,
}
use clab_manager.Jump.Rules.{
  Rule, accept_established, accept_root, accept_own, reject_routers, Table, by_uid, sets_of,
  chain_of, table_of,
}

-- What the rules read of a packet that leaves the host.
pub record Packet : Type 0 where
  pub uid : ℕ
  pub daddr : Text
  pub established : Bool

abbrev in_set : List (ℕ × List Text) → ℕ → Text → Bool
in_set sets uid ip = any (λ s. eqb s.0 uid && elem ip s.1) sets

-- What one rule decides, if it decides.
abbrev decides : Table → Packet → Rule → Option Bool
decides t p accept_established = if p.established then some true else none
decides t p accept_root = if eqb p.uid 0 then some true else none
decides t p (accept_own uid) =
    if eqb p.uid uid && in_set t.user_sets uid p.daddr then some true else none
decides t p (reject_routers uid) =
    if eqb p.uid uid && elem p.daddr t.routers_all then some false else none

-- The first rule that decides has the verdict; the policy accepts.
abbrev passes : Table → Packet → List Rule → Bool
passes t p [] = true
passes t p (r ∷ rules) = elim (decides t p r) [ none ↦ passes t p rules | some verdict ↦ verdict ]

abbrev pub is_let_through : Table → Packet → Bool
is_let_through t p = passes t p t.output

abbrev pub has_uid : ℕ → Text × ℕ → Bool
has_uid uid p = eqb p.1 uid

passes-chain_of :
    (t : Table) (p : Packet) (users : List (Text × ℕ))
    → passes t p (chain_of users)
      ≡ not (
          any (has_uid p.uid) users
          && (not (in_set t.user_sets p.uid p.daddr) && elem p.daddr t.routers_all))
unfolding chain_of
passes-chain_of t p [] = refl
passes-chain_of t p ((username, uid) ∷ users) = elim (Bool-cases (eqb p.uid uid)) [
  | inl e ↦
      let s = ap (λ n. in_set t.user_sets n p.daddr) ((eqb_iff p.uid uid).0 e) in
      ground (arith, e, s, passes-chain_of t p users)
  | inr e ↦ ground (arith, e, passes-chain_of t p users)
]

in_set-sets_of :
    (allowed : Dict (List Text)) (users : List (Text × ℕ)) (username : Text) (uid : ℕ) (ip : Text)
    → All (λ p. has_uid uid p ≡ true → p.0 ≡ username) users
    → in_set (sets_of allowed users) uid ip
      ≡ any (has_uid uid) users && elem ip (some_or (lookup username allowed) [])
unfolding sets_of
in_set-sets_of allowed [] username uid ip h = refl
in_set-sets_of allowed ((name, n) ∷ users) username uid ip h = elim (Bool-cases (eqb n uid)) [
  | inl e ↦
      let s = ap (λ u. elem ip (some_or (lookup u allowed) [])) (h.0 e) in
      ground (arith, e, s, in_set-sets_of allowed users username uid ip h.1)
  | inr e ↦ rw e (in_set-sets_of allowed users username uid ip h.1)
]

any-tally :
    (uid : ℕ) (users : List (Text × ℕ))
    → any (has_uid uid) users ≡ not (eqb (tally (has_uid uid) users) 0)
any-tally uid [] = refl
any-tally uid (p ∷ users) = ground (arith, any-tally uid users)

any-by_uid :
    (uid : ℕ) (users : List (Text × ℕ)) → any (has_uid uid) (by_uid users) ≡ any (has_uid uid) users
unfolding by_uid
any-by_uid uid users =
    let le = λ (p : Text × ℕ) (q : Text × ℕ). leb p.1 q.1 in
    any-tally uid (by_uid users)
    ∙ (ap (λ n. not (eqb n 0)) (tally-sorted le (has_uid uid) users) ∙ sym (any-tally uid users))

passes_first :
    (t : Table) (p : Packet) (rules : List Rule)
    → p.established ≡ false
    → eqb p.uid 0 ≡ false
    → passes t p (accept_established ∷ accept_root ∷ rules) ≡ passes t p rules
passes_first t p rules fresh mortal = ground (arith, fresh, mortal)

de_morgan : (a r : Bool) → not (not a && r) ≡ not r || a
de_morgan true true = refl
de_morgan true false = refl
de_morgan false true = refl
de_morgan false false = refl

-- What a listed user can reach.
pub table-lets_through :
    (routers : List Text) (users : List (Text × ℕ)) (allowed : Dict (List Text)) (username : Text)
    (p : Packet)
    → p.established ≡ false
    → eqb p.uid 0 ≡ false
    → any (has_uid p.uid) users ≡ true
    → All (λ q. has_uid p.uid q ≡ true → q.0 ≡ username) users
    → is_let_through (table_of routers users allowed) p
      ≡ not (elem p.daddr routers) || elem p.daddr (some_or (lookup username allowed) [])
unfolding table_of
table-lets_through routers users allowed username p fresh mortal listed only =
    let le = λ (q : Text × ℕ) (r : Text × ℕ). leb q.1 r.1 in
    let owned = All-sorted le (λ q. has_uid p.uid q ≡ true → q.0 ≡ username) users only in
    let set = in_set-sets_of allowed (by_uid users) username p.uid p.daddr owned in
    let here = any-by_uid p.uid users ∙ listed in
    let chain = passes-chain_of (table_of routers users allowed) p (by_uid users) in
    passes_first (table_of routers users allowed) p (chain_of (by_uid users)) fresh mortal
    ∙ (chain
        ∙ rw (set, here)
            (de_morgan (elem p.daddr (some_or (lookup username allowed) []))
              (elem p.daddr routers)))
