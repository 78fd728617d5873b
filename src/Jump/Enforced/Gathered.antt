-- ===== src/Jump/Enforced/Gathered.antt =====
-- jump_access.py: proofs on the addresses gathered from the reservations.
use clab_manager.Prelude.{
  ◌≡◌, refl, sym, ap, ◌∙◌, Bool, true, false, ◌&&◌, ◌||◌, inl, inr, Option, none, some, List, [],
  ◌∷◌, ◌++◌, any, Text, ◌==◌, eq_iff, elem, is_empty, Dict, lookup, lookup-insert, some_or, arith,
  Bool-cases, Option-cases, false≢true,
}
use clab_manager.Jump.Rules.{
  LabItem, Items, add, extract_ipv4, add_routers, gather_labs, gather_router_ips, allow,
  allow_routers, owner_of, allow_labs, gather_allowed_ips_by_user,
}

or_false : (b : Bool) → b || false ≡ b
or_false true = refl
or_false false = refl

elem-append : (z : Text) (xs : List Text) (x : Text) → elem z (xs ++ x ∷ []) ≡ elem z xs || x == z
elem-append z [] x = ground arith
elem-append z (y ∷ xs) x = ground (arith, elem-append z xs x)

elem-add : (z x : Text) (xs : List Text) → elem z (add x xs) ≡ elem z xs || x == z
unfolding add
elem-add z x xs = ground (arith, elem-append z xs x, eq_iff x z)

abbrev is_same : Text → Option Text → Bool
is_same ip none = false
is_same ip (some a) = a == ip

unnamed : (a b : Text) → is_empty a ≡ true → is_empty b ≡ false → (a == b) ≡ false
unnamed a b e f = elim (Bool-cases (a == b)) [
  | inl q ↦ absurd (false≢true (sym f ∙ (ap is_empty (sym ((eq_iff a b).0 q)) ∙ e)))
  | inr q ↦ q
]

module _ (ipv4 : Text → Option Text) where
  -- The address is that of the router.
  abbrev pub is_address : Text → Text → Bool
  is_address ip router = is_same ip (extract_ipv4 ipv4 router)

  abbrev pub has_router : Text → LabItem → Bool
  has_router ip lab = any (is_address ip) lab.routers

  -- Some router has the address.
  abbrev pub is_router : Text → Items → Bool
  is_router ip items = any (any (has_router ip)) items

  -- Some lab that the user holds has a router with the address.
  abbrev pub is_reserved : Text → Text → Items → Bool
  is_reserved username ip items =
      any (any (λ lab. owner_of lab == username && has_router ip lab)) items

  elem-add_routers :
      (ip : Text) (routers out : List Text)
      → elem ip (add_routers ipv4 routers out) ≡ elem ip out || any (is_address ip) routers
  unfolding add_routers
  elem-add_routers ip [] out = ground arith
  elem-add_routers ip (r ∷ routers) out = elim (Option-cases (extract_ipv4 ipv4 r)) [
    | inl e ↦ rw e (elem-add_routers ip routers out ∙ ground (arith, ap (is_same ip) e))
    | inr (a, e) ↦ rw e (
        ground
          (arith, ap (is_same ip) e, elem-add_routers ip routers (add a out), elem-add ip a out))
  ]

  elem-gather_labs :
      (ip : Text) (labs : List LabItem) (out : List Text)
      → elem ip (gather_labs ipv4 labs out) ≡ elem ip out || any (has_router ip) labs
  unfolding gather_labs
  elem-gather_labs ip [] out = ground arith
  elem-gather_labs ip (lab ∷ labs) out = ground (
    arith,
    elem-gather_labs ip labs (add_routers ipv4 lab.routers out),
    elem-add_routers ip lab.routers out,
  )

  pub elem-gather_router_ips :
      (ip : Text) (items : Items) (out : List Text)
      → elem ip (gather_router_ips ipv4 items out) ≡ elem ip out || is_router ip items
  unfolding gather_router_ips
  elem-gather_router_ips ip [] out = ground arith
  elem-gather_router_ips ip (vm ∷ items) out =
      ground (
        arith,
        elem-gather_router_ips ip items (gather_labs ipv4 vm out),
        elem-gather_labs ip vm out,
      )

  abbrev allows : Text → Text → Dict (List Text) → Bool
  allows username ip allowed = elem ip (some_or (lookup username allowed) [])

  allows-allow :
      (username ip owner a : Text) (allowed : Dict (List Text))
      → allows username ip (allow owner a allowed)
        ≡ allows username ip allowed || owner == username && a == ip
  unfolding allow
  allows-allow username ip owner a allowed =
      let cur = some_or (lookup owner allowed) [] in
      elim (Bool-cases (owner == username)) [
        | inl e ↦
            let s =
              ap (λ u. elem ip (some_or (lookup u allowed) [])) ((eq_iff owner username).0 e) in
            rw (lookup-insert owner username (add a cur) allowed, e) (elem-add ip a cur ∙ rw s refl)
        | inr e ↦ rw (lookup-insert owner username (add a cur) allowed, e) (sym (or_false _))
      ]

  allows-allow_routers :
      (username ip owner : Text) (routers : List Text) (allowed : Dict (List Text))
      → allows username ip (allow_routers ipv4 owner routers allowed)
        ≡ allows username ip allowed || owner == username && any (is_address ip) routers
  unfolding allow_routers
  allows-allow_routers username ip owner [] allowed = ground arith
  allows-allow_routers username ip owner (r ∷ routers) allowed =
      elim (Option-cases (extract_ipv4 ipv4 r)) [
        | inl e ↦ rw e (
            allows-allow_routers username ip owner routers allowed
            ∙ ground (arith, ap (is_same ip) e))
        | inr (a, e) ↦ rw e (
            ground (
              arith,
              ap (is_same ip) e,
              allows-allow_routers username ip owner routers (allow owner a allowed),
              allows-allow username ip owner a allowed,
            ))
      ]

  allows-allow_labs :
      (username ip : Text) (labs : List LabItem) (allowed : Dict (List Text))
      → is_empty username ≡ false
      → allows username ip (allow_labs ipv4 labs allowed)
        ≡ allows username ip allowed
          || any (λ lab. owner_of lab == username && has_router ip lab) labs
  unfolding allow_labs
  allows-allow_labs username ip [] allowed named = ground arith
  allows-allow_labs username ip (lab ∷ labs) allowed named =
      elim (Bool-cases (is_empty (owner_of lab))) [
        | inl e ↦
            rw (e, unnamed (owner_of lab) username e named)
              (allows-allow_labs username ip labs allowed named)
        | inr e ↦ rw e (
            ground (
              arith,
              allows-allow_labs username ip labs
                  (allow_routers ipv4 (owner_of lab) lab.routers allowed) named,
              allows-allow_routers username ip (owner_of lab) lab.routers allowed,
            ))
      ]

  pub allows-gather :
      (username ip : Text) (items : Items) (allowed : Dict (List Text))
      → is_empty username ≡ false
      → allows username ip (gather_allowed_ips_by_user ipv4 items allowed)
        ≡ allows username ip allowed || is_reserved username ip items
  unfolding gather_allowed_ips_by_user
  allows-gather username ip [] allowed named = ground arith
  allows-gather username ip (vm ∷ items) allowed named = ground (
    arith,
    allows-gather username ip items (allow_labs ipv4 vm allowed) named,
    allows-allow_labs username ip vm allowed named,
  )
