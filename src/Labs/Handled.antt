-- ===== src/Labs/Handled.antt =====
-- lab_requests.py: proofs on what `get_request` finds after a claim or a deletion.
use clab_manager.Prelude.{
  ◌+◌, ◌≤◌, ◌≡◌, refl, ◌∙◌, Bool, true, false, none, some, List, [], ◌∷◌, inl, inr, first, tally,
  arith, Text, lower, strip, is_empty, In, In-sorted, tally-sorted, Bool-cases,
}
use clab_manager.Labs.Requests.{
  LabRequest, done, newer, sort_desc, has_id, get_request, update_first, remove_first, save_found,
  claimed, claim_request, delete_request,
}

In-tally :
    (p : LabRequest → Bool) (r : LabRequest) (items : List LabRequest)
    → In r items
    → p r ≡ true
    → 1 ≤ tally p items
In-tally p r [] i h = absurd i
In-tally p r (x ∷ items) (inl e) h = rw (e, h) (omega arith)
In-tally p r (x ∷ items) (inr i) h = omega (arith, In-tally p r items i h)

-- The one item that passes a test is the first that passes it.
first_unique :
    (p : LabRequest → Bool) (r : LabRequest) (items : List LabRequest)
    → In r items
    → p r ≡ true
    → tally p items ≤ 1
    → first p items ≡ some r
first_unique p r [] i h t = absurd i
first_unique p r (x ∷ items) (inl e) h t = rw (e, h) refl
first_unique p r (x ∷ items) (inr i) h t = elim (Bool-cases (p x)) [
  | inl k ↦ absurd (ground (arith, In-tally p r items i h))
  | inr k ↦ rw k (first_unique p r items i h (ground arith))
]

tally-first-none :
    (p : LabRequest → Bool) (items : List LabRequest) → tally p items ≡ 0 → first p items ≡ none
tally-first-none p [] t = refl
tally-first-none p (x ∷ items) t = ground (arith, tally-first-none p items)

module _ (key : Text) where
  update_first_lem :
      (f : LabRequest → LabRequest) (items : List LabRequest)
      → ((r : LabRequest) → has_id key (f r) ≡ has_id key r)
      → 1 ≤ tally (has_id key) items
      → (r : LabRequest) × (rest : List LabRequest) × (update_first key f items ≡ some (f r, rest))
        × (has_id key (f r) ≡ true)
        × In (f r) rest
        × (tally (has_id key) rest ≡ tally (has_id key) items)
  unfolding update_first
  update_first_lem f [] same t = absurd (omega (arith, t))
  update_first_lem f (x ∷ items) same t = elim (Bool-cases (has_id key x)) [
    | inl e ↦
        (x, f x ∷ items, rw (e, update_first) refl, same x ∙ e, inl refl, ground (arith, same x))
    | inr e ↦
        let (r, rest, eq, mine, i, count) = update_first_lem f items same (ground arith) in
        (r, x ∷ rest, rw (e, update_first, eq) refl, mine, inr i, ground arith)
  ]

  remove_first_lem :
      (items : List LabRequest)
      → 1 ≤ tally (has_id key) items
      → (r : LabRequest) × (rest : List LabRequest) × (remove_first key items ≡ some (r, rest))
        × (has_id key r ≡ true)
        × (1 + tally (has_id key) rest ≡ tally (has_id key) items)
  unfolding remove_first
  remove_first_lem [] t = absurd (omega (arith, t))
  remove_first_lem (x ∷ items) t = elim (Bool-cases (has_id key x)) [
    | inl e ↦ (x, items, rw (e, remove_first) refl, e, ground arith)
    | inr e ↦
        let (r, rest, eq, mine, count) = remove_first_lem items (ground arith) in
        (r, x ∷ rest, rw (e, remove_first, eq) refl, mine, ground arith)
  ]

claimed-has_id :
    (key admin full_name now : Text) (r : LabRequest)
    → has_id key (claimed admin full_name now r) ≡ has_id key r
unfolding claimed has_id
claimed-has_id key admin full_name now r = refl

claimed_by :
    (admin full_name now : Text) (r : LabRequest)
    → (claimed admin full_name now r).assigned_admin_username ≡ some admin
unfolding claimed
claimed_by admin full_name now r = refl

-- Where exactly one request has the id and neither the id nor the name of the administrator is
-- empty, a claim succeeds, and asking for the id then shows the claimed request with that
-- administrator.
pub claim_request-get :
    (request_id admin_username full_name now : Text) (items : List LabRequest)
    → is_empty (strip request_id) ≡ false
    → is_empty (lower (strip admin_username)) ≡ false
    → tally (has_id (strip request_id)) items ≡ 1
    → (r : LabRequest) × (saved : List LabRequest) × (claim_request request_id admin_username
          full_name now items
        ≡ done (r, saved))
      × (get_request request_id saved ≡ some r)
      × (r.assigned_admin_username ≡ some (lower (strip admin_username)))
unfolding claim_request get_request save_found sort_desc
claim_request-get request_id admin_username full_name now items e k t =
    let key = strip request_id in
    let admin = lower (strip admin_username) in
    let f = claimed admin full_name now in
    let (r, rest, eq, mine, i, count) =
      update_first_lem key f items (claimed-has_id key admin full_name now) (omega (arith, t)) in
    (
      f r,
      sort_desc rest,
      rw (e, k, eq) refl,
      rw e (
          first_unique (has_id key) (f r) (sort_desc rest) (In-sorted newer (f r) rest i) mine
            (omega (arith, tally-sorted newer (has_id key) rest, count, t))),
      claimed_by admin full_name now r,
    )

-- Where exactly one request has the id and the id is not empty, a deletion succeeds and returns a
-- request with that id, and asking for the id then finds nothing.
pub delete_request-get :
    (request_id : Text) (items : List LabRequest)
    → is_empty (strip request_id) ≡ false
    → tally (has_id (strip request_id)) items ≡ 1
    → (r : LabRequest) × (saved : List LabRequest) × (delete_request request_id items
        ≡ done (r, saved))
      × (has_id (strip request_id) r ≡ true)
      × (get_request request_id saved ≡ none)
unfolding delete_request get_request save_found sort_desc
delete_request-get request_id items e t =
    let key = strip request_id in
    let (r, rest, eq, mine, count) = remove_first_lem key items (omega (arith, t)) in
    (
      r,
      sort_desc rest,
      rw (e, eq) refl,
      mine,
      rw e (
          tally-first-none (has_id key) (sort_desc rest)
            (omega (arith, tally-sorted newer (has_id key) rest, count, t))),
    )
