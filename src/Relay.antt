-- ===== src/Relay.antt =====
-- backend/internal/relay/hub.go, room.go and client.go: the rooms of the relay and the sessions in
-- them. A session carries its address, by which the code compares sessions; a hub carries the next
-- free address. The mutex makes each operation atomic.
pub mod Sessions
pub mod Joining
pub mod Leaving
pub mod Joined
pub mod Left
pub mod Membership
pub mod Broadcast
pub mod Handshake
pub mod Rounds
pub mod Serving
pub mod Cases
pub mod Isolation
pub mod Answering
pub mod Lifetime
pub mod Safety
use yata_collaborative_edito.Base.{
  ℕ, suc, Bool, true, false, not, ◌&&◌, ◌||◌, Option, none, some, List, [], ◌∷◌, ◌==◌,
  if◌then◌else◌, Text, text_Eq, trim_space, is_empty, Map, lookup, insert, delete, length, is_some,
}
use yata_collaborative_edito.Presence.{PresenceUser, new_presence_user}

-- type ClientSession struct, at its address; `web_socket` is nil or a connection
pub record ClientSession : Type 0 where
  pub address : ℕ
  pub client_id : Text
  pub room_id : Text
  pub name : Text
  pub web_socket : Option ℕ

-- NewClientSession
unfoldable pub new_client_session : ℕ → Text → Text → Text → Option ℕ → ClientSession
new_client_session address client_id room_id name conn = record {
  address = address;
  client_id = client_id;
  room_id = room_id;
  name = name;
  web_socket = conn;
}

-- type Room struct
pub record Room : Type 0 where
  pub id : Text
  pub clients : Map Text ClientSession

-- NewRoom
unfoldable pub new_room : Text → Room
new_room id = record { id = id; clients = [] }

-- type Hub struct
pub record Hub : Type 0 where
  pub rooms : Map Text Room
  pub allocated : ℕ

-- NewHub
unfoldable pub new_hub : Hub
new_hub = record { rooms = []; allocated = 0 }

-- The errors of the hub; the comments quote their texts.
pub data HubError : Type 0 where
  -- "Room ID is empty."
  room_id_empty : HubError
  -- "Client ID is empty."
  client_id_empty : HubError
  -- "Client already exists."
  client_already_exists : HubError
  -- "Room ID does not exist."
  room_id_does_not_exist : HubError
  -- "Room ID is not valid."
  room_id_invalid : HubError
  -- "Client ID is not valid."
  client_id_invalid : HubError
  -- "Room does not exist."
  room_does_not_exist : HubError
  -- ErrNotJoined
  not_joined : HubError
  -- an error of the connection's WriteMessage
  send_failed : HubError

pub data Result (A : Type 0) : Type 0 where
  returned : A → Result A
  raised : HubError → Result A

-- The room of that name, or a new one.
unfoldable pub room_or_new : Hub → Text → Room
unfolding new_room
room_or_new h id = elim (lookup id h.rooms) [ some room ↦ room | none ↦ new_room id ]

unfoldable pub store_room : Hub → Text → Room → Hub
store_room h id room = record h { rooms = insert id room h.rooms }

-- Join
unfoldable pub join : Hub → Text → Text → Text → Option ℕ → Hub × Result ClientSession
unfolding new_client_session
join h room_id client_id name conn =
    let new_room_id = trim_space room_id in
    let new_client_id = trim_space client_id in
    let room = room_or_new h new_room_id in
    let session = new_client_session h.allocated new_client_id new_room_id name conn in
    if is_empty new_room_id
    then (h, raised room_id_empty)
    else if is_empty new_client_id
    then (h, raised client_id_empty)
    else elim (lookup new_client_id room.clients) [
      | some _ ↦ (store_room h new_room_id room, raised client_already_exists)
      | none ↦ (
        record (store_room h new_room_id
            (record room { clients = insert new_client_id session room.clients })) {
              allocated = suc h.allocated;
            },
        returned session,
      )
    ]

-- The end of Leave: the session is taken out, and so is a room that is left empty.
unfoldable pub remove_client : Hub → Text → Room → Text → Hub
remove_client h room_id room client_id = elim (delete client_id room.clients) [
  | [] ↦ record h { rooms = delete room.id h.rooms }
  | c ∷ rest ↦ store_room h room_id (record room { clients = c ∷ rest })
]

-- Leave
unfoldable pub leave : Hub → Option ClientSession → Hub
leave h none = h
leave h (some s) =
    if is_empty s.client_id || is_empty s.room_id then h else elim (lookup s.room_id h.rooms) [
      | none ↦ h
      | some room ↦ elim (lookup s.client_id room.clients) [
        | none ↦ h
        | some session ↦
            if not (session.address == s.address)
            then h
            else remove_client h s.room_id room session.client_id
      ]
    ]

-- CountRooms
unfoldable pub count_rooms : Hub → ℕ
count_rooms h = length h.rooms

-- What the readers of a room begin with: the trimmed name must be that of a room.
unfoldable pub find_room : Hub → Text → Result Room
find_room h room_id =
    if is_empty (trim_space room_id)
    then raised room_id_does_not_exist
    else elim (lookup (trim_space room_id) h.rooms) [
      | none ↦ raised room_does_not_exist
      | some room ↦ returned room
    ]

-- CountClients
unfoldable pub count_clients : Hub → Text → Result ℕ
count_clients h room_id = elim (find_room h room_id) [
  | raised e ↦ raised e
  | returned room ↦ returned (length room.clients)
]

unfoldable pub users_of : Map Text ClientSession → List PresenceUser
unfolding new_presence_user
users_of [] = []
users_of ((_, s) ∷ rest) = new_presence_user s.client_id s.name ∷ users_of rest

-- GetActiveUsers
unfoldable pub get_active_users : Hub → Text → Result (List PresenceUser)
get_active_users h room_id = elim (find_room h room_id) [
  | raised e ↦ raised e
  | returned room ↦ returned (users_of room.clients)
]

-- HasClient
unfoldable pub has_client : Hub → Text → Text → Result Bool
has_client h room_id client_id =
    if is_empty (trim_space room_id)
    then raised room_id_invalid
    else if is_empty (trim_space client_id)
    then raised client_id_invalid
    else elim (lookup (trim_space room_id) h.rooms) [
      | none ↦ raised room_id_does_not_exist
      | some room ↦ returned (is_some (lookup (trim_space client_id) room.clients))
    ]

-- The receivers of BroadcastToRoom: the others in the room that have a connection.
unfoldable pub receivers : ClientSession → Map Text ClientSession → List ClientSession
receivers sender [] = []
receivers sender ((_, v) ∷ rest) =
    if not (v.address == sender.address) && is_some v.web_socket
    then v ∷ receivers sender rest
    else receivers sender rest

-- The sending loop of BroadcastToRoom, which stops at the first failure: who was sent the
-- message, and whether all were. `fails` is what WriteMessage answers.
unfoldable pub send_all : (ClientSession → Bool) → List ClientSession → List ClientSession × Bool
send_all fails [] = ([], true)
send_all fails (v ∷ rest) =
    let (sent, done) = send_all fails rest in if fails v then ([], false) else (v ∷ sent, done)

abbrev pub finish : List ClientSession × Bool → List ClientSession × Result Bool
finish (sent, true) = (sent, returned true)
finish (sent, false) = (sent, raised send_failed)

-- BroadcastToRoom, with the sessions that the message was written to
unfoldable pub broadcast_to_room :
    (ClientSession → Bool) → Hub → Option ClientSession → List ClientSession × Result Bool
broadcast_to_room fails h none = ([], raised not_joined)
broadcast_to_room fails h (some s) = elim (lookup s.room_id h.rooms) [
  | none ↦ ([], raised not_joined)
  | some room ↦ elim (lookup s.client_id room.clients) [
    | none ↦ ([], raised not_joined)
    | some stored ↦
        if not (stored.address == s.address)
        then ([], raised not_joined)
        else elim (receivers s room.clients) [
          | [] ↦ ([], returned false)
          | v ∷ rest ↦ finish (send_all fails (v ∷ rest))
        ]
  ]
]

unfoldable pub connected : Map Text ClientSession → List ClientSession
connected [] = []
connected ((_, v) ∷ rest) = if is_some v.web_socket then v ∷ connected rest else connected rest

-- The sending loop of BroadcastToAllInRoom, which goes on after a failure.
unfoldable pub send_each : (ClientSession → Bool) → List ClientSession → List ClientSession
send_each fails [] = []
send_each fails (v ∷ rest) = if fails v then send_each fails rest else v ∷ send_each fails rest

-- BroadcastToAllInRoom, with the sessions that the message was written to
unfoldable pub broadcast_to_all_in_room :
    (ClientSession → Bool) → Hub → Text → Result (List ClientSession)
broadcast_to_all_in_room fails h room_id = elim (find_room h room_id) [
  | raised e ↦ raised e
  | returned room ↦ returned (send_each fails (connected room.clients))
]
