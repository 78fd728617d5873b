-- ===== src/Reservations/Queries.antt =====
-- reservations.py: the operations that read, cancel, release and count bookings. Each takes the
-- data that `_load` returned, and returns its result with the data that it saves, if it saves.
use clab_manager.Prelude.{
  ℕ, Bool, false, not, ◌&&◌, ◌||◌, Option, none, some, List, [], ◌∷◌, keep, any, length, ltb, leb,
  if◌then◌else◌, Text, ◌==◌, keys, sorted, some_or,
}
use clab_manager.Reservations.Data.{
  Entry, Reservations, lab_key, entry_start, entry_end, on_span, is_active_now, same_owner,
  entries_for_key, set_entries_for_key, ensure_entry_ids, prune_expired_entries,
}

-- `datetime.max`
abbrev pub max_time : ℕ
max_time = 315_537_897_599_999_999

-- The order of a sort by start, `last` standing for a start that does not parse.
unfoldable pub start_le : ℕ → Entry → Entry → Bool
start_le last x y = leb (some_or (entry_start x) last) (some_or (entry_start y) last)

-- The later start wins; of two equal ones the first.
unfoldable pub later_of : Option (Entry × ℕ) → Entry → ℕ → Option (Entry × ℕ)
later_of none x a = some (x, a)
later_of (some (y, s)) x a = if ltb s a then some (x, a) else some (y, s)

unfoldable pub later_active : ℕ → Option (Entry × ℕ) → Entry → Option (Entry × ℕ)
unfolding later_of
later_active now best x = elim (entry_start x) [
  | none ↦ best
  | some a ↦ elim (entry_end x) [
    | none ↦ best
    | some b ↦ if leb a now && leb now b then later_of best x a else best
  ]
]

unfoldable pub latest_active : ℕ → Option (Entry × ℕ) → List Entry → Option (Entry × ℕ)
unfolding later_active
latest_active now best [] = best
latest_active now best (x ∷ xs) = latest_active now (later_active now best x) xs

unfoldable pub entry_of : Option (Entry × ℕ) → Option Entry
entry_of none = none
entry_of (some (x, _)) = some x

-- The start of `get_reservation`, `list_scheduled_reservations` and the cancellation: the pruned
-- data, the bookings of the lab with their ids, and whether either step changed anything.
unfoldable pub opened : (ℕ → Text) → ℕ → Reservations → Text → Reservations × List Entry × Bool
unfolding ensure_entry_ids prune_expired_entries
opened fresh now data_ key =
    let (data', pruned) = prune_expired_entries now data_ in
    let (entries, named) = ensure_entry_ids fresh 0 (entries_for_key data' key) in
    (data', entries, named || pruned)

-- `_save(data)` when something changed. The ids were written into the entries that `data` holds.
unfoldable pub save_if : Bool → Reservations → Text → List Entry → Option Reservations
save_if changed data_ key entries =
    if changed then some (set_entries_for_key data_ key entries) else none

unfoldable pub get_reservation :
    (ℕ → Text) → ℕ → Reservations → Text → Text → Option Entry × Option Reservations
unfolding opened save_if latest_active entry_of
get_reservation fresh now data_ vm_id lab_name =
    let key = lab_key vm_id lab_name in
    let (data', entries, changed) = opened fresh now data_ key in
    (entry_of (latest_active now none entries), save_if changed data' key entries)

-- Both ends parse and the start is still to come.
unfoldable pub is_scheduled : ℕ → Entry → Bool
is_scheduled now x = on_span x (λ a _. ltb now a)

unfoldable pub list_scheduled_reservations :
    (ℕ → Text) → ℕ → Reservations → Text → Text → List Entry × Option Reservations
unfolding opened save_if is_scheduled start_le
list_scheduled_reservations fresh now data_ vm_id lab_name =
    let key = lab_key vm_id lab_name in
    let (data', entries, changed) = opened fresh now data_ key in
    (
      sorted (start_le max_time) (keep (is_scheduled now) entries),
      save_if changed data' key entries,
    )

-- The start parses and is still to come.
unfoldable pub is_future : ℕ → Entry → Bool
is_future now x = elim (entry_start x) [ none ↦ false | some a ↦ ltb now a ]

-- Takes out the first item that passes the test.
unfoldable pub take_first : (Entry → Bool) → List Entry → Option Entry × List Entry
take_first test [] = (none, [])
take_first test (x ∷ xs) =
    let (removed, kept) = take_first test xs in if test x then (some x, xs) else (removed, x ∷ kept)

-- Saves what is left where an item was taken out, and does otherwise as told.
unfoldable pub store_removed :
    Reservations
    → Text
    → Option Reservations
    → Option Entry × List Entry
    → Option Entry × Option Reservations
store_removed data_ key otherwise (some x, kept) =
    (some x, some (set_entries_for_key data_ key kept))
store_removed data_ key otherwise (none, kept) = (none, otherwise)

unfoldable pub cancel_scheduled_reservation :
    (ℕ → Text) → ℕ → Reservations → Text → Text → Text → Option Entry × Option Reservations
unfolding opened save_if is_future take_first store_removed
cancel_scheduled_reservation fresh now data_ vm_id lab_name reservation_id =
    let key = lab_key vm_id lab_name in
    let (data', entries, changed) = opened fresh now data_ key in
    store_removed data' key (save_if changed data' key entries)
      (take_first (λ x. x.reservation_id == reservation_id && is_future now x) entries)

unfoldable pub release_lab : ℕ → Reservations → Text → Text → Option Entry × Option Reservations
unfolding prune_expired_entries take_first store_removed
release_lab now data_ vm_id lab_name =
    let key = lab_key vm_id lab_name in
    let data' = (prune_expired_entries now data_).0 in
    store_removed data' key none (take_first (λ x. is_active_now x now) (entries_for_key data' key))

unfoldable pub active_labs : ℕ → Text → Reservations → List Text → List Text
active_labs now username data_ [] = []
active_labs now username data_ (k ∷ ks) =
    let rest = active_labs now username data_ ks in
    if any (λ x. same_owner x username && is_active_now x now) (entries_for_key data_ k)
    then k ∷ rest
    else rest

unfoldable pub count_user_active_reservations : ℕ → Reservations → Text → ℕ
unfolding active_labs
count_user_active_reservations now data_ username =
    length (active_labs now username data_ (keys data_))

unfoldable pub last_active : ℕ → Option Entry → List Entry → Option Entry
last_active now found [] = found
last_active now found (x ∷ xs) = last_active now (if is_active_now x now then some x else found) xs

-- What `attach_reservations` shows of a lab: of several active bookings the last in the list, and
-- the bookings to come, by start.
unfoldable pub lab_view : ℕ → List Entry → Option Entry × List Entry
unfolding last_active start_le is_future
lab_view now entries = (
  last_active now none entries,
  sorted (start_le max_time) (keep (λ x. not (is_active_now x now) && is_future now x) entries),
)

pub record LabView : Type 0 where
  pub lab_name : Text
  pub reservation : Option Entry
  pub scheduled_reservations : List Entry

unfoldable pub attach_labs : ℕ → Reservations → Text → List Text → List LabView
unfolding lab_view
attach_labs now data_ vm_id [] = []
attach_labs now data_ vm_id (lab_name ∷ labs) =
    let (reservation, scheduled) = lab_view now (entries_for_key data_ (lab_key vm_id lab_name)) in
    record { lab_name = lab_name; reservation = reservation; scheduled_reservations = scheduled }
    ∷ attach_labs now data_ vm_id labs

unfoldable pub attach_items :
    ℕ → Reservations → List (Text × List Text) → List (Text × List LabView)
unfolding attach_labs
attach_items now data_ [] = []
attach_items now data_ ((vm_id, labs) ∷ items) =
    (vm_id, attach_labs now data_ vm_id labs) ∷ attach_items now data_ items

-- The items are a machine's id and the names of its labs.
unfoldable pub attach_reservations :
    ℕ → Reservations → List (Text × List Text) → List (Text × List LabView) × Option Reservations
unfolding attach_items prune_expired_entries
attach_reservations now data_ items =
    let (data', changed) = prune_expired_entries now data_ in
    (attach_items now data' items, if changed then some data' else none)
