-- ===== src/Labs/Flags.antt =====
-- lab_locks.py and sandbox_labs.py: proofs on what setting a lock or a flag changes.
use clab_manager.Prelude.{
  ◌≡◌, refl, Bool, true, false, Option, [], ◌∷◌, some_or, inl, inr, arith, if◌then◌else◌, Text,
  ◌==◌, eq_iff, elem, Dict, erase, HasUniqueKeys, lookup-insert, lookup-erase, Bool-cases,
}
use clab_manager.Reservations.Data.{lab_key}
use clab_manager.Labs.Keys.{HasNoColon, lab_key_injective}
use clab_manager.Labs.Locks.{Locks, get_lock, is_locked, store_lock, set_locked, flag_lab}
use clab_manager.Labs.Sandbox.{
  Sandboxes, flag, is_enabled, is_modified, set_enabled, set_keys, sandbox_lab,
}

-- After a lock is set or taken off, that lab is locked as asked, and every lab under another key is as before.
pub set_locked_lem :
    (v m w n : Text) (locked : Bool) (actor : Option Text) (now : Text) (labs : Locks)
    → is_locked w n (set_locked v m locked actor now labs).1
      ≡ (if lab_key v m == lab_key w n then locked else is_locked w n labs)
unfolding is_locked set_locked store_lock get_lock
set_locked_lem v m w n locked actor now labs = ground (
  arith,
  lookup-insert (lab_key v m) (lab_key w n)
      (record { locked = true; locked_by = some_or actor []; locked_at = now }) labs,
  lookup-erase (lab_key v m) (lab_key w n) labs,
)

-- Where the ids of two machines have no colon and differ, setting or taking off a lock on a lab of
-- one leaves the locks of the other as they are.
pub set_locked-elsewhere :
    (v m w n : Text) (locked : Bool) (actor : Option Text) (now : Text) (labs : Locks)
    → HasNoColon v
    → HasNoColon w
    → (v == w) ≡ false
    → is_locked w n (set_locked v m locked actor now labs).1 ≡ is_locked w n labs
set_locked-elsewhere v m w n locked actor now labs hv hw d =
    elim (Bool-cases (lab_key v m == lab_key w n)) [
      | inl e ↦
          let (same, _) =
            lab_key_injective v w m n hv hw ((eq_iff (lab_key v m) (lab_key w n)).0 e) in
          absurd (ground (arith, eq_iff v w))
      | inr e ↦ ground (arith, set_locked_lem v m w n locked actor now labs)
    ]

-- The flag on a list is the answer of `is_locked`.
pub flag_lab_lem : (labs : Locks) (v m : Text) → (flag_lab labs v m).lab_locked ≡ is_locked v m labs
unfolding flag_lab is_locked get_lock
flag_lab_lem labs v m = ground arith

elem-set_keys : (key : Text) (d : Dict Bool) → HasUniqueKeys d → elem key (set_keys d) ≡ flag key d
unfolding set_keys flag
elem-set_keys key [] u = refl
elem-set_keys key ((j, true) ∷ d) u = ground (arith, elem-set_keys key d u.1)
elem-set_keys key ((j, false) ∷ d) u = ground (arith, elem-set_keys key d u.1, eq_iff j key)

-- The flags on a list are the answers of `is_enabled` and `is_modified`.
pub sandbox_lab_lem :
    (s : Sandboxes) (v m : Text)
    → HasUniqueKeys s.labs
    → HasUniqueKeys s.modified
    → ((sandbox_lab s v m).sandbox_enabled ≡ is_enabled v m s)
      × ((sandbox_lab s v m).sandbox_yaml_modified ≡ is_modified v m s)
unfolding sandbox_lab is_enabled is_modified
sandbox_lab_lem s v m u u' =
    (elem-set_keys (lab_key v m) s.labs u, elem-set_keys (lab_key v m) s.modified u')

-- Switching a sandbox off and on again leaves it enabled and not modified, and leaves every lab
-- under another key as it was.
pub set_enabled-forgets :
    (v m w n : Text) (s : Sandboxes)
    → let s' = set_enabled v m true (set_enabled v m false s) in
      (is_enabled w n s' ≡ (if lab_key v m == lab_key w n then true else is_enabled w n s))
      × (is_modified w n s' ≡ (if lab_key v m == lab_key w n then false else is_modified w n s))
unfolding set_enabled is_enabled is_modified flag
set_enabled-forgets v m w n s = ground (
  arith,
  lookup-insert (lab_key v m) (lab_key w n) true (erase (lab_key v m) s.labs),
  lookup-erase (lab_key v m) (lab_key w n) s.labs,
  lookup-erase (lab_key v m) (lab_key w n) s.modified,
)
