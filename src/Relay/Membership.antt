-- ===== src/Relay/Membership.antt =====
-- The hubs that joins and leaves make of a new one.
use yata_collaborative_edito.Base.{ℕ, Option, Text, text_Eq}
use yata_collaborative_edito.Relay.{ClientSession, Hub, new_hub, join, leave}
use yata_collaborative_edito.Relay.Sessions.{IsValid}
use yata_collaborative_edito.Relay.Joined.{new_hub-IsValid, join-IsValid}
use yata_collaborative_edito.Relay.Left.{leave-IsValid}

-- The hubs that joins and leaves make of a new one, in any order.
pub data Reachable : Hub → Type 0 where
  begin : Reachable new_hub
  joined :
      (h : Hub) (room_id client_id name : Text) (conn : Option ℕ)
      → Reachable h
      → Reachable (join h room_id client_id name conn).0
  left : (h : Hub) (s : Option ClientSession) → Reachable h → Reachable (leave h s)

-- In every hub that joins and leaves make of a new one, in any order, each room stands under
-- its own name and has a session, and each session stands under its own two names, which are
-- not blank, at an address in use.
pub Reachable-IsValid : (h : Hub) → Reachable h → IsValid h
Reachable-IsValid _ begin = new_hub-IsValid
Reachable-IsValid _ (joined h room_id client_id name conn r) =
    join-IsValid h room_id client_id name conn (Reachable-IsValid h r)
Reachable-IsValid _ (left h s r) = leave-IsValid h s (Reachable-IsValid h r)
