-- ===== src/Jump/Tests.antt =====
-- The properties of the filter on concrete reservations.
use clab_manager.Prelude.{ℕ, ◌≡◌, refl, false, not, arith, ◌||◌, some, List, [], ◌∷◌, Text, text}
use clab_manager.Jump.Rules.{
  LabItem, Items, gather_router_ips, gather_allowed_ips_by_user, table_of,
}
use clab_manager.Jump.Enforced.{lets_through_iff}
use clab_manager.Jump.Enforced.Packets.{Packet, is_let_through}
use clab_manager.Jump.Enforced.Gathered.{is_router, is_reserved}

abbrev lab : Text → Text → LabItem
lab owner address = record { owner_username = owner; routers = address ∷ [] }

-- One machine with two labs, one of them reserved by Bob.
abbrev items : Items
items = (lab (text "Bob") (text "10.0.0.1/24") ∷ lab [] (text "10.0.0.2") ∷ []) ∷ []

abbrev users : List (Text × ℕ)
users = (text "eve", 1002) ∷ (text "bob", 1001) ∷ []

abbrev packet : Packet
packet = record { uid = 1001; daddr = text "10.0.0.2"; established = false }

lets_through_iff_example :
    is_let_through
      (table_of (gather_router_ips some items []) users (gather_allowed_ips_by_user some items []))
      packet
    ≡ not (is_router some (text "10.0.0.2") items)
      || is_reserved some (text "bob") (text "10.0.0.2") items
lets_through_iff_example =
    lets_through_iff some items users (text "bob") packet refl refl refl
      ((λ e. absurd (ground arith)), ((λ _. refl), tt)) refl
