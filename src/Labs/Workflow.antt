-- ===== src/Labs/Workflow.antt =====
-- lab_requests.py: proofs on the order, the statuses and the visibility of the requests.
use clab_manager.Prelude.{
  ◌≡◌, refl, ap, sym, subst, ◌∙◌, Bool, true, false, Option, none, some, List, [], ◌∷◌, ◌++◌, inl,
  inr, ◌⊎◌, ◌↔◌, keep, length, ltb, arith, if◌then◌else◌, Text, ◌==◌, eq_iff, false≢true, elem,
  lower, strip, lstrip, rstrip, is_empty, lower-strip_idem, All, In, All-append, All-sorted,
  Ordered, sorted-Ordered, In-sorted, In-of_sorted, In-keep, In-of_keep, Bool-cases, Option-cases,
}
use clab_manager.Auth.Data.{text_le}
use clab_manager.Labs.Requests.{
  LabRequest, Problem, Reply, done, raised, allowed_statuses, normalize_status, last_change, newer,
  sort_desc, Suggestion, new_request, create_request, is_visible, list_requests, has_id,
  update_first, remove_first, save_found, claimed, claim_request, is_unassigned, answered,
  given_status, answer, update_request_by_admin, delete_request,
}

text_le_total : (s t : Text) → text_le s t ≡ false → text_le t s ≡ true
unfolding text_le
text_le_total [] t h = absurd (ground arith)
text_le_total (a ∷ s) [] h = refl
text_le_total (a ∷ s) (b ∷ t) h = ground (arith, text_le_total s t)

text_le_trans : (s t r : Text) → text_le s t ≡ true → text_le t r ≡ true → text_le s r ≡ true
unfolding text_le
text_le_trans [] t r h k = refl
text_le_trans (a ∷ s) [] r h k = absurd (ground arith)
text_le_trans (a ∷ s) (b ∷ t) [] h k = absurd (ground arith)
text_le_trans (a ∷ s) (b ∷ t) (c ∷ r) h k = ground (arith, text_le_trans s t r)

sort_desc-Ordered : (items : List LabRequest) → Ordered newer (sort_desc items)
unfolding sort_desc newer
sort_desc-Ordered items =
    sorted-Ordered newer (λ x y. text_le_total (last_change y) (last_change x))
      (λ x y z h k. text_le_trans (last_change z) (last_change y) (last_change x) k h) items

abbrev pub HasStatus : LabRequest → Type 0
HasStatus r = elem (lower (strip r.status)) allowed_statuses ≡ true

-- Every status is a known one, and the newest changes come first.
pub record IsStored (items : List LabRequest) : Type 0 where
  pub known : All HasStatus items
  pub ordered : Ordered newer items

-- What holds of what an operation saves, if it does not raise.
abbrev pub Saves : (List LabRequest → Type 0) → Reply (LabRequest × List LabRequest) → Type 0
Saves P (done (r, items)) = P items
Saves P (raised p) = Unit

sort_desc-IsStored : (items : List LabRequest) → All HasStatus items → IsStored (sort_desc items)
unfolding sort_desc
sort_desc-IsStored items h = record {
  known = All-sorted newer HasStatus items h;
  ordered = sort_desc-Ordered items;
}

-- A new request is stored with the first status, in order.
pub create_request-IsStored :
    (s : Suggestion) (id now : Text) (items : List LabRequest)
    → IsStored items
    → Saves IsStored (create_request s id now items)
unfolding create_request new_request lower strip lstrip rstrip ◌==◌
create_request-IsStored s id now items w =
    elim (Bool-cases (is_empty (lower (strip s.owner_username)))) [
      | inl e ↦ rw e tt
      | inr e ↦ elim (Bool-cases (ltb (length (strip s.need_details)) 8)) [
        | inl k ↦ rw (e, k) tt
        | inr k ↦
            rw (e, k)
              (sort_desc-IsStored (items ++ new_request s id now ∷ [])
                (All-append HasStatus items (new_request s id now ∷ []) w.known (refl, tt)))
      ]
    ]

-- What holds of the items that a loop leaves.
abbrev Leaves : Option (LabRequest × List LabRequest) → Type 0
Leaves none = Unit
Leaves (some (r, items)) = All HasStatus items

save_found-IsStored :
    (o : Option (LabRequest × List LabRequest)) → Leaves o → Saves IsStored (save_found o)
unfolding save_found
save_found-IsStored none h = tt
save_found-IsStored (some (r, items)) h = sort_desc-IsStored items h

update_first-Leaves :
    (key : Text) (f : LabRequest → LabRequest) (items : List LabRequest)
    → ((r : LabRequest) → HasStatus r → HasStatus (f r))
    → All HasStatus items
    → Leaves (update_first key f items)
unfolding update_first
update_first-Leaves key f [] k h = tt
update_first-Leaves key f (r ∷ items) k h =
    let rest = update_first-Leaves key f items k h.1 in
    elim (Bool-cases (has_id key r)) [
      | inl e ↦ rw (e, Leaves) (k r h.0, h.1)
      | inr e ↦
          rw (e, Leaves)
            (elim (Option-cases (update_first key f items)) [
              | inl n ↦ rw (n, Leaves) tt
              | inr (u, n) ↦ rw (n, Leaves) (h.0, rw n at rest)
            ])
    ]

remove_first-Leaves :
    (key : Text) (items : List LabRequest) → All HasStatus items → Leaves (remove_first key items)
unfolding remove_first
remove_first-Leaves key [] h = tt
remove_first-Leaves key (r ∷ items) h =
    let rest = remove_first-Leaves key items h.1 in
    elim (Bool-cases (has_id key r)) [
      | inl e ↦ rw (e, Leaves) h.1
      | inr e ↦
          rw (e, Leaves)
            (elim (Option-cases (remove_first key items)) [
              | inl n ↦ rw (n, Leaves) tt
              | inr (u, n) ↦ rw (n, Leaves) (h.0, rw n at rest)
            ])
    ]

claimed-HasStatus :
    (admin full_name now : Text) (r : LabRequest)
    → HasStatus r
    → HasStatus (claimed admin full_name now r)
unfolding claimed
claimed-HasStatus admin full_name now r h = rw h h

-- Claiming a request keeps the stored requests in order, with known statuses.
pub claim_request-IsStored :
    (request_id admin_username admin_full_name now : Text) (items : List LabRequest)
    → IsStored items
    → Saves IsStored (claim_request request_id admin_username admin_full_name now items)
unfolding claim_request
claim_request-IsStored request_id admin_username admin_full_name now items w =
    let admin = lower (strip admin_username) in
    elim (Bool-cases (is_empty (strip request_id))) [
      | inl e ↦ rw e tt
      | inr e ↦ elim (Bool-cases (is_empty admin)) [
        | inl k ↦ rw (e, k) tt
        | inr k ↦
            rw (e, k)
              (save_found-IsStored
                (update_first (strip request_id) (claimed admin admin_full_name now) items)
                (update_first-Leaves (strip request_id) (claimed admin admin_full_name now) items
                  (claimed-HasStatus admin admin_full_name now) w.known))
      ]
    ]

Reply-cases :
    {A : Type 0} (m : Reply A) → ((a : A) × (m ≡ done a)) ⊎ ((p : Problem) × (m ≡ raised p))
Reply-cases (done a) = inl (a, refl)
Reply-cases (raised p) = inr (p, refl)

if_done :
    (b : Bool) (v w : Text) (p : Problem)
    → (if b then done v else raised p) ≡ done w
    → (b ≡ true) × (v ≡ w)
if_done b v w p h = ground arith

normalize_status_lem :
    (value status : Text)
    → normalize_status value ≡ done status
    → elem (lower (strip status)) allowed_statuses ≡ true
unfolding normalize_status
normalize_status_lem value status h =
    let v = lower (strip value) in
    let (known, same) = if_done (elem v allowed_statuses) v status Problem.invalid_status h in
    subst (λ t. elem (lower (strip t)) allowed_statuses ≡ true) same
      (sym (ap (λ t. elem t allowed_statuses) (sym (lower-strip_idem value))) ∙ known)

answered-HasStatus :
    (admin full_name : Text) (status response : Option Text) (now : Text) (r : LabRequest)
    → ((t : Text) → status ≡ some t → elem (lower (strip t)) allowed_statuses ≡ true)
    → HasStatus r
    → HasStatus (answered admin full_name status response now r)
unfolding answered
answered-HasStatus admin full_name none response now r k h = elim (Bool-cases (is_unassigned r)) [
  | inl e ↦ rw e h
  | inr e ↦ rw e h
]
answered-HasStatus admin full_name (some t) response now r k h =
    elim (Bool-cases (is_unassigned r)) [ inl e ↦ rw e (k t refl) | inr e ↦ rw e (k t refl) ]

given_of :
    (value : Text) (t : Option Text) (u : Text)
    → given_status (some value) ≡ done t
    → t ≡ some u
    → normalize_status value ≡ done u
unfolding given_status
given_of value t u h e = elim (Reply-cases (normalize_status value)) [
  | inl (v, n) ↦ ground arith
  | inr (p, n) ↦ absurd (ground arith)
]

given_status_lem :
    (status : Option Text) (t : Option Text) (u : Text)
    → given_status status ≡ done t
    → t ≡ some u
    → elem (lower (strip u)) allowed_statuses ≡ true
unfolding given_status
given_status_lem none t u h e = absurd (ground arith)
given_status_lem (some value) t u h e = normalize_status_lem value u (given_of value t u h e)

answer-IsStored :
    (request_id admin admin_full_name : Text) (status response : Option Text) (now : Text)
    (items : List LabRequest)
    → IsStored items
    → Saves IsStored (answer request_id admin admin_full_name status response now items)
unfolding answer
answer-IsStored request_id admin full_name status response now items w =
    elim (Reply-cases (given_status status)) [
      | inr (p, e) ↦ rw (e, Saves) tt
      | inl (t, e) ↦
          let f = answered admin full_name t response now in
          rw (e, Saves)
            (save_found-IsStored (update_first (strip request_id) f items) (
              update_first-Leaves (strip request_id) f items
                (λ r.
                  answered-HasStatus admin full_name t response now r
                    λ u. given_status_lem status t u e)
                w.known))
    ]

-- Where every stored request has a known status and the newest changes come first, it is so after
-- an answer of an administrator that succeeds.
pub update_request-IsStored :
    (request_id admin_username admin_full_name : Text) (status response : Option Text) (now : Text)
    (items : List LabRequest)
    → IsStored items
    → Saves IsStored (
        update_request_by_admin request_id admin_username admin_full_name status response now items)
unfolding update_request_by_admin
update_request-IsStored request_id admin_username admin_full_name status response now items w =
    let admin = lower (strip admin_username) in
    elim (Bool-cases (is_empty (strip request_id))) [
      | inl e ↦ rw e tt
      | inr e ↦ elim (Bool-cases (is_empty admin)) [
        | inl k ↦ rw (e, k) tt
        | inr k ↦
            rw (e, k) (answer-IsStored request_id admin admin_full_name status response now items w)
      ]
    ]

-- Deleting a request keeps the stored requests in order, with known statuses.
pub delete_request-IsStored :
    (request_id : Text) (items : List LabRequest)
    → IsStored items
    → Saves IsStored (delete_request request_id items)
unfolding delete_request
delete_request-IsStored request_id items w = elim (Bool-cases (is_empty (strip request_id))) [
  | inl e ↦ rw e tt
  | inr e ↦ rw e (
      save_found-IsStored (remove_first (strip request_id) items)
        (remove_first-Leaves (strip request_id) items w.known))
]

visible_iff :
    (actor : Text) (actor_is_admin : Bool) (r : LabRequest)
    → (is_visible actor actor_is_admin r ≡ true)
      ↔ ((actor_is_admin ≡ true) ⊎ (lower (strip r.owner_username) ≡ actor))
unfolding is_visible
visible_iff actor true r = (λ _. inl refl, λ _. refl)
visible_iff actor false r = (
  λ e. inr ((eq_iff (lower (strip r.owner_username)) actor).0 e),
  λ h. elim h [
    | inl e ↦ absurd (false≢true e)
    | inr same ↦ (eq_iff (lower (strip r.owner_username)) actor).1 same
  ],
)

-- The newest changes come first in the list of an actor, and a request is on it exactly when it is
-- stored and the actor is an administrator, or has the name of its owner, without blanks around the
-- names and whatever their case.
pub list_requests_iff :
    (r : LabRequest) (actor_username : Text) (actor_is_admin : Bool) (items : List LabRequest)
    → Ordered newer (list_requests actor_username actor_is_admin items)
      × (In r (list_requests actor_username actor_is_admin items) ↔ (
          In r items
          × ((actor_is_admin ≡ true)
              ⊎ (lower (strip r.owner_username) ≡ lower (strip actor_username)))))
unfolding list_requests sort_desc
list_requests_iff r actor_username actor_is_admin items =
    let actor = lower (strip actor_username) in
    let seen = is_visible actor actor_is_admin in
    let (back, forth) = visible_iff actor actor_is_admin r in
    (
      sort_desc-Ordered (keep seen items),
      (
        λ i.
            let (there, v) = In-of_keep seen r items (In-of_sorted newer r (keep seen items) i) in
            (there, back v),
        λ (i, v). In-sorted newer r (keep seen items) (In-keep seen r items i (forth v)),
      ),
    )
