-- ===== src/Jump/Enforced.antt =====
-- jump_access.py: proofs on what the rules of the reservations let through.
pub mod Packets
pub mod Gathered
use clab_manager.Prelude.{
  ℕ, ◌≡◌, refl, ◌∙◌, true, false, not, ◌||◌, Option, List, [], All, any, eqb, Text, is_empty,
}
use clab_manager.Jump.Rules.{Items, gather_router_ips, gather_allowed_ips_by_user, table_of}
use clab_manager.Jump.Enforced.Packets.{Packet, is_let_through, has_uid, table-lets_through}
use clab_manager.Jump.Enforced.Gathered.{
  is_router, is_reserved, elem-gather_router_ips, allows-gather,
}

module _ (ipv4 : Text → Option Text) where
  -- A new packet of a listed user that is not root, with a name that is not empty and a number that
  -- no other name shares, is let through exactly when its destination is no address of a listed
  -- router, or the address of a router of a lab that this user has reserved; where the first rule
  -- that decides has the verdict.
  pub lets_through_iff :
      (items : Items) (users : List (Text × ℕ)) (username : Text) (p : Packet)
      → p.established ≡ false
      → eqb p.uid 0 ≡ false
      → any (has_uid p.uid) users ≡ true
      → All (λ q. has_uid p.uid q ≡ true → q.0 ≡ username) users
      → is_empty username ≡ false
      → is_let_through
          (table_of
            (gather_router_ips ipv4 items [])
            users
            (gather_allowed_ips_by_user ipv4 items []))
          p
        ≡ not (is_router ipv4 p.daddr items) || is_reserved ipv4 username p.daddr items
  lets_through_iff items users username p fresh mortal listed only named =
      table-lets_through (gather_router_ips ipv4 items []) users
        (gather_allowed_ips_by_user ipv4 items []) username p fresh mortal listed only
      ∙ rw
          (
            elem-gather_router_ips ipv4 p.daddr items [],
            allows-gather ipv4 username p.daddr items [] named,
          )
          refl
