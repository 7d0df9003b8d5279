-- ===== src/Relay/Sessions.antt =====
-- The sessions of a hub by their two names, and the invariant of the hub.
use yata_collaborative_edito.Base.{
  ◌<◌, ◌≡◌, ◌≢◌, ap, Bool, false, ◌&&◌, Option, none, some, [], arith, if◌then◌else◌, Text, text_eq,
  text_Eq, is_empty, lookup, lookup-insert,
}
use yata_collaborative_edito.Relay.{ClientSession, Room, new_room, Hub, room_or_new, store_room}

-- A session stands under its own client and in its own room.
pub record IsSession (h : Hub) (room_id client_id : Text) (s : ClientSession) : Type 0 where
  pub client : s.client_id ≡ client_id
  pub room : s.room_id ≡ room_id
  pub in_use : s.address < h.allocated
  pub client_named : is_empty client_id ≡ false
  pub room_named : is_empty room_id ≡ false

-- The session that the hub has under the two names.
abbrev pub session_at : Hub → Text → Text → Option ClientSession
session_at h room_id client_id = elim (lookup room_id h.rooms) [
  | none ↦ none
  | some room ↦ lookup client_id room.clients
]

pub record IsValid (h : Hub) : Type 0 where
  pub rooms : (id : Text) (room : Room) → lookup id h.rooms ≡ some room → room.id ≡ id
  pub occupied : (id : Text) (room : Room) → lookup id h.rooms ≡ some room → room.clients ≢ []
  pub sessions :
      (id client : Text) (s : ClientSession)
      → session_at h id client ≡ some s
      → IsSession h id client s

-- Are these the two names of the session looked for?
abbrev pub both : Text → Text → Text → Text → Bool
both room_id client_id id client = text_eq room_id id && text_eq client_id client

pub session_at-found :
    (h : Hub) (id client : Text) (room : Room)
    → lookup id h.rooms ≡ some room
    → session_at h id client ≡ lookup client room.clients
session_at-found h id client room found =
    ap (λ o. elim o [ none ↦ none | some r ↦ lookup client r.clients ]) found

pub session_at-store_room :
    (h : Hub) (id i client : Text) (room : Room)
    → session_at (store_room h id room) i client
      ≡ (if text_eq id i then lookup client room.clients else session_at h i client)
unfolding store_room
session_at-store_room h id i client room = ground (arith, lookup-insert id i room h.rooms)

pub session_at-room_or_new :
    (h : Hub) (id client : Text) → lookup client (room_or_new h id).clients ≡ session_at h id client
unfolding room_or_new new_room lookup
session_at-room_or_new h id client = ground arith
