-- ===== src/Labs/Sandbox.antt =====
-- central/src/services/sandbox_labs.py: which labs are sandboxes, and which of those were modified.
use clab_manager.Prelude.{
  Bool, true, false, List, map, keep, some_or, if◌then◌else◌, Text, elem, Dict, lookup, insert,
  erase, keys, sorted,
}
use clab_manager.Reservations.Data.{lab_key}
use clab_manager.Auth.Data.{text_le}
use clab_manager.Auth.Access.{Item}

pub record Sandboxes : Type 0 where
  pub labs : Dict Bool
  pub modified : Dict Bool

-- `bool(d.get(key, False))`
unfoldable pub flag : Text → Dict Bool → Bool
flag key d = some_or (lookup key d) false

unfoldable pub is_enabled : Text → Text → Sandboxes → Bool
unfolding flag
is_enabled vm_id lab_name s = flag (lab_key vm_id lab_name) s.labs

unfoldable pub is_modified : Text → Text → Sandboxes → Bool
unfolding flag
is_modified vm_id lab_name s = flag (lab_key vm_id lab_name) s.modified

unfoldable pub set_enabled : Text → Text → Bool → Sandboxes → Sandboxes
set_enabled vm_id lab_name enabled s =
    let key = lab_key vm_id lab_name in
    if enabled
    then record s { labs = insert key true s.labs }
    else record { labs = erase key s.labs; modified = erase key s.modified }

unfoldable pub set_modified : Text → Text → Bool → Sandboxes → Sandboxes
set_modified vm_id lab_name modified s =
    let key = lab_key vm_id lab_name in
    if modified
    then record s { modified = insert key true s.modified }
    else record s { modified = erase key s.modified }

-- The keys whose value is true.
unfoldable pub set_keys : Dict Bool → List Text
set_keys d = keys (keep (λ e. e.1) d)

unfoldable pub list_enabled_keys : Sandboxes → List Text
unfolding set_keys
list_enabled_keys s = sorted text_le (set_keys s.labs)

pub record SandboxLab : Type 0 where
  pub name : Text
  pub sandbox_enabled : Bool
  pub sandbox_yaml_modified : Bool

unfoldable pub sandbox_lab : Sandboxes → Text → Text → SandboxLab
unfolding set_keys
sandbox_lab s vm_id lab_name = record {
  name = lab_name;
  sandbox_enabled = elem (lab_key vm_id lab_name) (set_keys s.labs);
  sandbox_yaml_modified = elem (lab_key vm_id lab_name) (set_keys s.modified);
}

unfoldable pub attach_flags : Sandboxes → List Item → List (Text × List SandboxLab)
unfolding sandbox_lab
attach_flags s items = map (λ item. (item.id, map (sandbox_lab s item.id) item.labs)) items
