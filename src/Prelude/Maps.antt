-- ===== src/Prelude/Maps.antt =====
-- Python's `dict` with text keys, in insertion order.
use Prim.Native.Nat.{◌+◌}
use mathlib.Core.Path.{◌≡◌, refl}
use mathlib.Core.Bool.{Bool, true, false}
use mathlib.Core.Option.{Option, none, some}
use mathlib.Core.List.{List, [], ◌∷◌, map}
use native.Mathlib.Omega.{arith}
use clab_manager.Prelude.Tests.{if◌then◌else◌}
use clab_manager.Prelude.Lists.{tally}
use clab_manager.Prelude.Strings.{Text, ◌==◌, eq_iff, eq_refl}

abbrev pub Dict {ℓ} : Type ℓ → Type ℓ
Dict V = List (Text × V)

module _ {ℓ} {V : Type ℓ} where
  -- `d.get(k)`
  abbrev pub lookup : Text → Dict V → Option V
  lookup k [] = none
  lookup k ((j, v) ∷ d) = if j == k then some v else lookup k d

  -- `k in d`
  abbrev pub has_key : Text → Dict V → Bool
  has_key k d = elim (lookup k d) [ none ↦ false | some _ ↦ true ]

  -- `d[k] = v`
  abbrev pub insert : Text → V → Dict V → Dict V
  insert k v [] = (k, v) ∷ []
  insert k v ((j, w) ∷ d) = if j == k then (j, v) ∷ d else (j, w) ∷ insert k v d

  -- `d.pop(k, None)`
  abbrev pub erase : Text → Dict V → Dict V
  erase k [] = []
  erase k ((j, w) ∷ d) = if j == k then erase k d else (j, w) ∷ erase k d

  -- `d.values()`
  abbrev pub values : Dict V → List V
  values = map (λ e. e.1)

  -- `d.keys()`
  abbrev pub keys : Dict V → List Text
  keys = map (λ e. e.0)

  -- What makes such a list a dict: no key twice.
  abbrev pub HasUniqueKeys : Dict V → Type ℓ
  HasUniqueKeys [] = Unit
  HasUniqueKeys ((k, v) ∷ d) = (lookup k d ≡ none) × HasUniqueKeys d

  pub lookup-insert :
      (k j : Text) (v : V) (d : Dict V)
      → lookup j (insert k v d) ≡ (if k == j then some v else lookup j d)
  lookup-insert k j v [] = refl
  lookup-insert k j v ((i, w) ∷ d) =
      ground (arith, eq_iff k j, eq_iff i k, eq_iff i j, lookup-insert k j v d)

  pub lookup-erase :
      (k j : Text) (d : Dict V) → lookup j (erase k d) ≡ (if k == j then none else lookup j d)
  lookup-erase k j [] = ground arith
  lookup-erase k j ((i, w) ∷ d) =
      ground (arith, eq_iff k j, eq_iff i k, eq_iff i j, lookup-erase k j d)

  pub insert-HasUniqueKeys :
      (k : Text) (v : V) (d : Dict V) → HasUniqueKeys d → HasUniqueKeys (insert k v d)
  insert-HasUniqueKeys k v [] h = (refl, tt)
  insert-HasUniqueKeys k v ((j, w) ∷ d) h =
      ground (arith, insert-HasUniqueKeys k v d h.1, lookup-insert k j v d, eq_iff j k, eq_iff k j)

  pub erase-HasUniqueKeys : (k : Text) (d : Dict V) → HasUniqueKeys d → HasUniqueKeys (erase k d)
  erase-HasUniqueKeys k [] h = tt
  erase-HasUniqueKeys k ((j, w) ∷ d) h =
      ground (arith, erase-HasUniqueKeys k d h.1, lookup-erase k j d, eq_iff j k, eq_iff k j)

  -- Erasing an absent key changes nothing.
  pub erase_absent : (k : Text) (d : Dict V) → lookup k d ≡ none → erase k d ≡ d
  erase_absent k [] h = refl
  erase_absent k ((j, w) ∷ d) h = ground (arith, erase_absent k d)

  pub lookup-insert_self : (k : Text) (v : V) (d : Dict V) → lookup k (insert k v d) ≡ some v
  lookup-insert_self k v d = ground (arith, lookup-insert k k v d, eq_refl k)

  pub lookup-erase_self : (k : Text) (d : Dict V) → lookup k (erase k d) ≡ none
  lookup-erase_self k d = ground (arith, lookup-erase k k d, eq_refl k)

  pub insert-insert : (k : Text) (v w : V) (d : Dict V) → insert k w (insert k v d) ≡ insert k w d
  insert-insert k v w [] = ground (arith, eq_refl k)
  insert-insert k v w ((j, x) ∷ d) = ground (arith, insert-insert k v w d)

  -- A count over the values, after one of them is replaced, or a new one comes.
  pub tally-insert :
      (p : V → Bool) (k : Text) (v w : V) (d : Dict V)
      → lookup k d ≡ some v
      → tally p (values (insert k w d)) + (if p v then 1 else 0)
        ≡ tally p (values d) + (if p w then 1 else 0)
  tally-insert p k v w [] h = absurd (ground arith)
  tally-insert p k v w ((j, x) ∷ d) h = ground (arith, tally-insert p k v w d)

  pub tally-insert_new :
      (p : V → Bool) (k : Text) (w : V) (d : Dict V)
      → lookup k d ≡ none
      → tally p (values (insert k w d)) ≡ tally p (values d) + (if p w then 1 else 0)
  tally-insert_new p k w [] h = ground arith
  tally-insert_new p k w ((j, x) ∷ d) h = ground (arith, tally-insert_new p k w d)

  pub tally-erase :
      (p : V → Bool) (k : Text) (v : V) (d : Dict V)
      → HasUniqueKeys d
      → lookup k d ≡ some v
      → tally p (values (erase k d)) + (if p v then 1 else 0) ≡ tally p (values d)
  tally-erase p k v [] u h = absurd (ground arith)
  tally-erase p k v ((j, x) ∷ d) u h =
      ground (arith, tally-erase p k v d u.1, erase_absent k d, eq_iff j k)
