-- ===== src/Labs/Locks.antt =====
-- central/src/services/lab_locks.py: which labs an administrator has locked. The store is the object
-- `labs` of the file.
use clab_manager.Prelude.{
  Bool, true, false, Option, none, some, List, [], map, some_or, if◌then◌else◌, Text, Dict, lookup,
  insert, erase,
}
use clab_manager.Reservations.Data.{lab_key}
use clab_manager.Auth.Access.{Item}

pub record Lock : Type 0 where
  pub locked : Bool
  pub locked_by : Text
  pub locked_at : Text

abbrev pub Locks : Type 0
Locks = Dict Lock

-- `none` for the answer `{"locked": False}` without the other fields.
unfoldable pub get_lock : Text → Text → Locks → Option Lock
get_lock vm_id lab_name labs = lookup (lab_key vm_id lab_name) labs

unfoldable pub is_locked : Text → Text → Locks → Bool
unfolding get_lock
is_locked vm_id lab_name labs = elim (get_lock vm_id lab_name labs) [
  | none ↦ false
  | some l ↦ l.locked
]

-- The store that `set_locked` saves.
unfoldable pub store_lock : Text → Text → Bool → Option Text → Text → Locks → Locks
store_lock vm_id lab_name locked actor_username now labs =
    if locked
    then insert (lab_key vm_id lab_name)
        (record { locked = true; locked_by = some_or actor_username []; locked_at = now }) labs
    else erase (lab_key vm_id lab_name) labs

unfoldable pub set_locked : Text → Text → Bool → Option Text → Text → Locks → Option Lock × Locks
unfolding store_lock get_lock
set_locked vm_id lab_name locked actor_username now labs =
    let saved = store_lock vm_id lab_name locked actor_username now labs in
    (get_lock vm_id lab_name saved, saved)

-- A lab on a list with its lock.
pub record FlaggedLab : Type 0 where
  pub name : Text
  pub lab_locked : Bool
  pub lab_lock : Lock

abbrev open_lock : Lock
open_lock = record { locked = false; locked_by = []; locked_at = [] }

unfoldable pub flag_lab : Locks → Text → Text → FlaggedLab
flag_lab labs vm_id lab_name =
    let lock_info = some_or (lookup (lab_key vm_id lab_name) labs) open_lock in
    record { name = lab_name; lab_locked = lock_info.locked; lab_lock = lock_info }

unfoldable pub attach_flags : Locks → List Item → List (Text × List FlaggedLab)
unfolding flag_lab
attach_flags labs items = map (λ item. (item.id, map (flag_lab labs item.id) item.labs)) items
