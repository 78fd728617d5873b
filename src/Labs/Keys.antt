-- ===== src/Labs/Keys.antt =====
-- The keys `vm_id::lab_name` of the stores in lab_locks.py, sandbox_labs.py and reservations.py.
use clab_manager.Prelude.{◌≡◌, ◌≢◌, [], ◌∷◌, ◌++◌, arith, Text, All}
use clab_manager.Reservations.Data.{lab_key}

-- A machine id without a colon. (58 is its code point.)
abbrev pub HasNoColon : Text → Type 0
HasNoColon = All (λ c. c ≢ 58)

split_unique :
    (v w m n : Text)
    → HasNoColon v
    → HasNoColon w
    → v ++ (58 ∷ 58 ∷ m) ≡ w ++ (58 ∷ 58 ∷ n)
    → (v ≡ w) × (m ≡ n)
split_unique [] [] m n hv hw e = ground arith
split_unique [] (c ∷ w) m n hv hw e = ground arith
split_unique (c ∷ v) [] m n hv hw e = ground arith
split_unique (c ∷ v) (d ∷ w) m n hv hw e = ground (arith, split_unique v w m n)

-- On machine ids without a colon, two labs with the same key are the same lab of the same machine.
pub lab_key_injective :
    (v w m n : Text) → HasNoColon v → HasNoColon w → lab_key v m ≡ lab_key w n → (v ≡ w) × (m ≡ n)
unfolding lab_key
lab_key_injective v w m n = split_unique v w m n
