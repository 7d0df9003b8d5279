-- ===== src/Examples/Relay.antt =====
-- The theorems on backend/internal/relay/hub.go at a hub with one room of two sessions.
use mathlib.Core.Path.{subst}
use yata_collaborative_edito.Base.{
  is_some, ℕ, ◌≡◌, ◌≢◌, ◌↔◌, refl, Bool, true, false, none, some, [], ◌∷◌, arith, Text, codes,
  text_eq, text_Eq, trim_space, trim_left, is_space, is_empty, lookup, insert, In,
}
use yata_collaborative_edito.Relay.{
  ClientSession, new_client_session, Room, Hub, new_hub, new_room, room_or_new, store_room, join,
  returned, broadcast_to_room,
}
use yata_collaborative_edito.Relay.Sessions.{session_at, IsValid}
use yata_collaborative_edito.Relay.Membership.{Reachable-IsValid, Reachable, begin, joined}
use yata_collaborative_edito.Relay.Broadcast.{members, broadcast_reaches}

abbrev room_name : Text
room_name = codes "r"

abbrev padded_room : Text
padded_room = codes " r "

abbrev ana : Text
ana = codes "ana"

abbrev bob : Text
bob = codes "bob"

abbrev ana_session : ClientSession
ana_session = record {
  address = 0;
  client_id = ana;
  room_id = room_name;
  name = ana;
  web_socket = some 10;
}

abbrev bob_session : ClientSession
bob_session = record {
  address = 1;
  client_id = bob;
  room_id = room_name;
  name = bob;
  web_socket = some 11;
}

abbrev shared_room : Room
shared_room = record { id = room_name; clients = (ana, ana_session) ∷ (bob, bob_session) ∷ [] }

abbrev busy : Hub
busy = record { rooms = (room_name, shared_room) ∷ []; allocated = 2 }

abbrev joined_hub : Hub
joined_hub = (join (join new_hub padded_room ana ana (some 10)).0 room_name bob bob (some 11)).0

busy_joined : joined_hub ≡ busy
unfolding new_hub join room_or_new store_room new_client_session new_room trim_space trim_left
    is_space lookup insert text_eq
busy_joined = refl

busy-Reachable : Reachable joined_hub
busy-Reachable =
    joined (join new_hub padded_room ana ana (some 10)).0 room_name bob bob (some 11)
      (joined new_hub padded_room ana ana (some 10) begin)

reachable_joined : IsValid joined_hub
reachable_joined = Reachable-IsValid joined_hub busy-Reachable

Reachable-IsValid_example : IsValid joined_hub
Reachable-IsValid_example = Reachable-IsValid joined_hub busy-Reachable

busy-IsValid : IsValid busy
busy-IsValid = subst IsValid busy_joined reachable_joined

ana_joined : session_at busy room_name ana ≡ some ana_session
unfolding lookup text_eq
ana_joined = refl

bob_joined : session_at busy room_name bob ≡ some bob_session
unfolding lookup text_eq
bob_joined = refl

eve_absent : session_at busy (trim_space padded_room) (trim_space (codes "eve")) ≡ none
unfolding lookup text_eq trim_space trim_left is_space
eve_absent = refl

room_named : is_empty (trim_space padded_room) ≡ false
unfolding trim_space trim_left is_space
room_named = refl

eve_named : is_empty (trim_space (codes "eve")) ≡ false
unfolding trim_space trim_left is_space
eve_named = refl

ana_named : is_empty (trim_space ana) ≡ false
unfolding trim_space trim_left is_space
ana_named = refl

ana_taken : session_at busy (trim_space padded_room) (trim_space ana) ≡ some ana_session
unfolding lookup text_eq trim_space trim_left is_space
ana_taken = refl

-- A session of the same names at another address.
abbrev stale : ClientSession
stale = record ana_session { address = 7 }

stale_differs : ◌≢◌ {A = ℕ} 0 7
stale_differs e = omega arith

room_found : lookup room_name busy.rooms ≡ some shared_room
unfolding lookup text_eq
room_found = refl

ana_found : lookup ana shared_room.clients ≡ some ana_session
unfolding lookup text_eq
ana_found = refl

-- No write fails.
abbrev sound : ClientSession → Bool
sound v = false

broadcast_reaches_example :
    ((v : ClientSession)
      → In v (broadcast_to_room sound busy (some ana_session)).0
        ↔ (In v (members shared_room.clients) × (is_some v.web_socket ≡ true) × (v.address ≢ 0)))
    × (((broadcast_to_room sound busy (some ana_session)).1 ≡ returned false)
        ↔ ((broadcast_to_room sound busy (some ana_session)).0 ≡ []))
    × (((broadcast_to_room sound busy (some ana_session)).1 ≡ returned true)
        ↔ ((broadcast_to_room sound busy (some ana_session)).0 ≢ []))
broadcast_reaches_example =
    broadcast_reaches sound busy ana_session ana_session shared_room room_found ana_found refl
      (λ v. refl)

-- Writing to the second session fails.
abbrev bob_fails : ClientSession → Bool
bob_fails v = text_eq v.client_id bob

padded_found : lookup (trim_space padded_room) busy.rooms ≡ some shared_room
unfolding lookup text_eq trim_space trim_left is_space
padded_found = refl
