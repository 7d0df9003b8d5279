-- ===== src/Relay/Broadcast.antt =====
-- BroadcastToRoom and BroadcastToAllInRoom: who is sent a message.
use mathlib.Core.Path.{subst}
use yata_collaborative_edito.Base.{
  is_some, ◌≡◌, ◌≢◌, ◌⊎◌, ◌↔◌, refl, sym, Bool, true, false, inl, inr, none, some, List, [], ◌∷◌,
  ◌++◌, arith, In, Bool-cases, Text, text_Eq, trim_space, is_empty, Map, ==_iff, lookup,
}
use yata_collaborative_edito.Relay.{
  ClientSession, Room, Hub, returned, raised, receivers, send_all, send_each, connected, find_room,
  broadcast_to_room, broadcast_to_all_in_room, not_joined,
}
use yata_collaborative_edito.Relay.Sessions.{session_at}

-- The sessions in the room.
unfoldable pub members : Map Text ClientSession → List ClientSession
members [] = []
members ((_, s) ∷ rest) = s ∷ members rest

pub receivers_iff :
    (s v : ClientSession) (m : Map Text ClientSession)
    → In v (receivers s m)
      ↔ (In v (members m) × (is_some v.web_socket ≡ true) × (v.address ≢ s.address))
unfolding receivers members
receivers_iff s v [] = ground arith
receivers_iff s v ((k, t) ∷ m) = ground (arith, receivers_iff s v m, ==_iff t.address s.address)

send_all-none_fails :
    (fails : ClientSession → Bool) (vs : List ClientSession)
    → ((v : ClientSession) → fails v ≡ false)
    → send_all fails vs ≡ (vs, true)
unfolding send_all
send_all-none_fails fails [] none_fails = refl
send_all-none_fails fails (v ∷ vs) none_fails =
    ground (arith, none_fails v, send_all-none_fails fails vs none_fails)

abbrev some_of : List ClientSession → Bool
some_of [] = false
some_of (_ ∷ _) = true

broadcast-receivers :
    (fails : ClientSession → Bool) (h : Hub) (s stored : ClientSession) (room : Room)
    → lookup s.room_id h.rooms ≡ some room
    → lookup s.client_id room.clients ≡ some stored
    → stored.address ≡ s.address
    → ((v : ClientSession) → fails v ≡ false)
    → broadcast_to_room fails h (some s)
      ≡ (receivers s room.clients, returned (some_of (receivers s room.clients)))
unfolding broadcast_to_room
broadcast-receivers fails h s stored room found there same none_fails = ground (
  arith,
  ==_iff stored.address s.address,
  send_all-none_fails fails (receivers s room.clients) none_fails,
)

-- A broadcast by a session that the hub has, where no write fails, goes to the sessions of its
-- room that have a connection and are not the sender, and to no other; it returns no error, and
-- true if there was any, false if there was none.
pub broadcast_reaches :
    (fails : ClientSession → Bool) (h : Hub) (s stored : ClientSession) (room : Room)
    → lookup s.room_id h.rooms ≡ some room
    → lookup s.client_id room.clients ≡ some stored
    → stored.address ≡ s.address
    → ((v : ClientSession) → fails v ≡ false)
    → ((v : ClientSession)
        → In v (broadcast_to_room fails h (some s)).0
          ↔ (In v (members room.clients) × (is_some v.web_socket ≡ true) × (v.address ≢ s.address)))
      × (((broadcast_to_room fails h (some s)).1 ≡ returned false)
          ↔ ((broadcast_to_room fails h (some s)).0 ≡ []))
      × (((broadcast_to_room fails h (some s)).1 ≡ returned true)
          ↔ ((broadcast_to_room fails h (some s)).0 ≢ []))
broadcast_reaches fails h s stored room found there same none_fails =
    let e = broadcast-receivers fails h s stored room found there same none_fails in
    (
      λ v.
          subst
            (λ p. In v p.0 ↔ (
              In v (members room.clients)
              × (is_some v.web_socket ≡ true)
              × (v.address ≢ s.address)))
            (sym e) (receivers_iff s v room.clients),
      ground (arith, e),
      ground (arith, e),
    )

-- Where some write may fail, the sessions that were written to are the receivers before the
-- first whose write fails: an error means there is such a receiver, and none has been passed over.
pub broadcast_stops :
    (fails : ClientSession → Bool) (vs : List ClientSession)
    → (rest : List ClientSession) × (vs ≡ (send_all fails vs).0 ++ rest)
      × ((v : ClientSession) → In v (send_all fails vs).0 → fails v ≡ false)
      × (((send_all fails vs).1 ≡ true) ↔ (rest ≡ []))
unfolding send_all
broadcast_stops fails [] = ([], refl, λ v i. absurd i, ground arith)
broadcast_stops fails (v ∷ vs) =
    let (rest, whole, fine, all) = broadcast_stops fails vs in
    elim (Bool-cases (fails v)) [
      | inl e ↦ (v ∷ vs, ground arith, λ w i. ground arith, ground arith)
      | inr e ↦ (rest, ground arith, λ w i. ground (arith, fine w), ground arith)
    ]

-- A broadcast by a session that is unknown to the hub, or that another has replaced, is
-- refused and nobody is sent anything.
pub broadcast_refuses :
    (fails : ClientSession → Bool) (h : Hub) (s : ClientSession)
    → (session_at h s.room_id s.client_id ≡ none)
      ⊎ ((stored : ClientSession) × (session_at h s.room_id s.client_id ≡ some stored)
          × (stored.address ≢ s.address))
    → broadcast_to_room fails h (some s) ≡ ([], raised not_joined)
unfolding broadcast_to_room
broadcast_refuses fails h s (inl e) = ground arith
broadcast_refuses fails h s (inr (stored, e, n)) = ground (arith, ==_iff stored.address s.address)

send_each_iff :
    (fails : ClientSession → Bool) (v : ClientSession) (m : Map Text ClientSession)
    → In v (send_each fails (connected m))
      ↔ (In v (members m) × (is_some v.web_socket ≡ true) × (fails v ≡ false))
unfolding send_each connected members
send_each_iff fails v [] = ground arith
send_each_iff fails v ((k, t) ∷ m) = ground (arith, send_each_iff fails v m)

-- A broadcast to all in a room that exists goes to every session of it that has a connection
-- whose write does not fail: a failing connection keeps nothing from the others.
pub broadcast_all_reaches :
    (fails : ClientSession → Bool) (h : Hub) (room_id : Text) (room : Room)
    → is_empty (trim_space room_id) ≡ false
    → lookup (trim_space room_id) h.rooms ≡ some room
    → (sent : List ClientSession) × (broadcast_to_all_in_room fails h room_id ≡ returned sent)
      × ((v : ClientSession)
          → In v sent
            ↔ (In v (members room.clients) × (is_some v.web_socket ≡ true) × (fails v ≡ false)))
unfolding broadcast_to_all_in_room find_room
broadcast_all_reaches fails h room_id room named found = (
  send_each fails (connected room.clients),
  ground arith,
  λ v. send_each_iff fails v room.clients,
)
