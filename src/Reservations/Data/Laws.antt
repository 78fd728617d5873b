-- ===== src/Reservations/Data/Laws.antt =====
-- What the list of a lab is after a write, a pruning and the assignment of ids.
use clab_manager.Prelude.{
  ℕ, ◌≡◌, refl, ap, ◌∙◌, Bool, false, List, [], ◌∷◌, inl, inr, keep, if◌then◌else◌, arith, Text,
  ◌==◌, eq_iff, eq_refl, keys, lookup-insert, lookup-erase, elem, Bool-cases,
}
use clab_manager.Reservations.Data.{
  Entry, Reservations, objects, stored, slot_entries, entries_for_key, set_entries_for_key,
  is_unexpired, prune_keys, prune_expired_entries,
}

objects-stored : (xs : List Entry) → objects (stored xs) ≡ xs
unfolding objects stored
objects-stored [] = refl
objects-stored (x ∷ xs) = ap (◌∷◌ x) (objects-stored xs)

pub entries-set :
    (data_ : Reservations) (k j : Text) (xs : List Entry)
    → entries_for_key (set_entries_for_key data_ k xs) j
      ≡ (if k == j then xs else entries_for_key data_ j)
unfolding entries_for_key set_entries_for_key
entries-set data_ k j [] = elim (Bool-cases (k == j)) [
  | inl e ↦ rw (lookup-erase, e) (unfold slot_entries in refl)
  | inr e ↦ rw (lookup-erase, e)
]
entries-set data_ k j (x ∷ xs) = elim (Bool-cases (k == j)) [
  | inl e ↦ rw (lookup-insert, e) (unfold slot_entries stored in ap (◌∷◌ x) (objects-stored xs))
  | inr e ↦ rw (lookup-insert, e)
]

keep-keep {ℓ} : {A : Type ℓ} (p : A → Bool) (xs : List A) → keep p (keep p xs) ≡ keep p xs
keep-keep p [] = refl
keep-keep p (x ∷ xs) = ground (arith, keep-keep p xs)

entries-absent :
    (data_ : Reservations) (j : Text) → elem j (keys data_) ≡ false → entries_for_key data_ j ≡ []
unfolding entries_for_key slot_entries
entries-absent [] j h = refl
entries-absent ((k, v) ∷ d) j h = ground (arith, entries-absent d j)

entries-prune_keys :
    (now : ℕ) (ks : List Text) (data_ : Reservations) (j : Text)
    → entries_for_key (prune_keys now ks data_).0 j ≡ (
        if elem j ks
        then keep (is_unexpired now) (entries_for_key data_ j)
        else entries_for_key data_ j)
unfolding prune_keys
entries-prune_keys now [] data_ j = refl
entries-prune_keys now (k ∷ ks) data_ j =
    let kept = keep (is_unexpired now) (entries_for_key data_ k) in
    ground (
      arith,
      entries-prune_keys now ks (set_entries_for_key data_ k kept) j,
      entries-set data_ k j kept,
      keep-keep (is_unexpired now) (entries_for_key data_ j),
      eq_iff k j,
    )

pub entries-prune :
    (now : ℕ) (data_ : Reservations) (j : Text)
    → entries_for_key (prune_expired_entries now data_).0 j
      ≡ keep (is_unexpired now) (entries_for_key data_ j)
unfolding prune_expired_entries
entries-prune now data_ j =
    ground (arith, entries-prune_keys now (keys data_) data_ j, entries-absent data_ j)

pub entries-set_self :
    (data_ : Reservations) (k : Text) (xs : List Entry)
    → entries_for_key (set_entries_for_key data_ k xs) k ≡ xs
entries-set_self data_ k xs = entries-set data_ k k xs ∙ rw eq_refl
