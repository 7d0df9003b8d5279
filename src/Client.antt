-- ===== src/Client.antt =====
-- backend/internal/client/client.go: the connection of a replica to the relay and the queue of
-- what it could not send. A function is what one method does between taking and releasing
-- ConnMutex; a websocket connection is its address.
pub mod Schedule
pub mod Connection
pub mod Counting
pub mod Delivery
pub mod Flush
pub mod Join
pub mod Messages
pub mod Answers
pub mod Arrival
use yata_collaborative_edito.Base.{
  ℕ, Bool, true, false, ◌||◌, not, ◌&&◌, Option, none, some, List, [], ◌∷◌, ◌++◌, ◌==◌,
  if◌then◌else◌, ℤ, pos, eq_ℤ, Text, text_eq, trim_space, is_empty, length,
}
use yata_collaborative_edito.Protocol.Messages.{
  Bytes, JoinPayload, Json, Answer, MessageError, returned, raised, or_error, ◌>>=◌, type_join,
  type_join_ack, supported_version,
}
use yata_collaborative_edito.Protocol.Decoding.{decode_envelope, decode_join_ack, encode_envelope}

-- type ConnectionState
pub data ConnectionState : Type 0 where
  disconnected : ConnectionState
  connecting : ConnectionState
  syncing : ConnectionState
  online : ConnectionState
  closing : ConnectionState

abbrev pub is_disconnected : ConnectionState → Bool
is_disconnected disconnected = true
is_disconnected s = false

abbrev pub is_connecting : ConnectionState → Bool
is_connecting connecting = true
is_connecting s = false

abbrev pub is_syncing : ConnectionState → Bool
is_syncing syncing = true
is_syncing s = false

abbrev pub is_online : ConnectionState → Bool
is_online online = true
is_online s = false

abbrev pub is_closing : ConnectionState → Bool
is_closing closing = true
is_closing s = false

-- type CollaborativeClient struct, less the document and the mutexes. `reconnect_signal` is
-- whether the channel of one place holds a signal, `stopped` whether StopSignal is closed.
pub record CollaborativeClient : Type 0 where
  pub server_url : Text
  pub room_id : Text
  pub client_id : Text
  pub connection : Option ℕ
  pub state : ConnectionState
  pub offline_queue : List Bytes
  pub reconnect_signal : Bool
  pub stopped : Bool

-- `client.Conn == conn`, where conn is not nil
abbrev pub is_at : Option ℕ → ℕ → Bool
is_at none conn = false
is_at (some c) conn = c == conn

abbrev pub is_nil : Option ℕ → Bool
is_nil none = true
is_nil (some c) = false

-- NewCollaborativeClient
unfoldable pub new_collaborative_client :
    (server_url room_id client_id : Text) → Option CollaborativeClient
new_collaborative_client server_url room_id client_id =
    if is_empty (trim_space server_url)
      || (is_empty (trim_space room_id) || is_empty (trim_space client_id))
    then none
    else some (record {
      server_url = trim_space server_url;
      room_id = trim_space room_id;
      client_id = trim_space client_id;
      connection = none;
      state = disconnected;
      offline_queue = [];
      reconnect_signal = false;
      stopped = false;
    })

-- What the first call of Close does under ConnMutex; what is given besides is the connection that
-- it closes at the end
unfoldable pub begin_close : CollaborativeClient → CollaborativeClient × Option ℕ
begin_close c = (record c { connection = none; state = closing }, c.connection)

-- close(client.StopSignal)
unfoldable pub close_signal : CollaborativeClient → CollaborativeClient
close_signal c = record c { stopped = true }

-- Close, from beginning to end
unfoldable pub close : CollaborativeClient → CollaborativeClient × Option ℕ
unfolding begin_close close_signal
close c =
    if c.stopped then (c, none) else (let (c', conn) = begin_close c in (close_signal c', conn))

-- EnqueueOffline
unfoldable pub enqueue_offline : CollaborativeClient → Bytes → CollaborativeClient
enqueue_offline c message = record c { offline_queue = c.offline_queue ++ message ∷ [] }

-- OfflineQueueLength
unfoldable pub offline_queue_length : CollaborativeClient → ℕ
offline_queue_length c = length c.offline_queue

-- How SendOrQueue goes on after the lock
pub data Sending : Type 0 where
  empty_message : Sending
  queued : Sending
  -- to write to this connection
  writing : ℕ → Sending

-- SendOrQueue, up to the write
unfoldable pub send_or_queue : CollaborativeClient → Bytes → CollaborativeClient × Sending
unfolding enqueue_offline
send_or_queue c message = if is_empty message then (c, empty_message) else elim c.connection [
  | none ↦ (enqueue_offline c message, queued)
  | some conn ↦
      if not (is_online c.state) then (enqueue_offline c message, queued) else (c, writing conn)
]

-- RequestReconnect
unfoldable pub request_reconnect : CollaborativeClient → CollaborativeClient
request_reconnect c = record c { reconnect_signal = true }

-- What MarkDisconnected of a connection that is not nil does under ConnMutex, and whether it calls
-- RequestReconnect after that
unfoldable pub drop_connection : CollaborativeClient → ℕ → CollaborativeClient × Bool
drop_connection c conn =
    if is_at c.connection conn
    then (if is_closing c.state
        then (record c { connection = none }, false)
        else (record c { connection = none; state = disconnected }, true))
    else (c, false)

-- MarkDisconnected of a connection that is not nil, from beginning to end
unfoldable pub mark_disconnected : CollaborativeClient → ℕ → CollaborativeClient
unfolding drop_connection request_reconnect
mark_disconnected c conn =
    let (c', should_reconnect) = drop_connection c conn in
    if should_reconnect then request_reconnect c' else c'

-- MarkOnline of a connection that is not nil
unfoldable pub mark_online : CollaborativeClient → ℕ → CollaborativeClient × Bool
mark_online c conn =
    if is_at c.connection conn && is_syncing c.state
    then (record c { state = online }, true)
    else (c, false)

-- BeginReconnect
unfoldable pub begin_reconnect : CollaborativeClient → CollaborativeClient × Bool
begin_reconnect c =
    if is_disconnected c.state && is_nil c.connection
    then (record c { state = connecting }, true)
    else (c, false)

-- ReconnectOnce after DialAndJoin has failed
unfoldable pub reconnect_failed : CollaborativeClient → CollaborativeClient
reconnect_failed c =
    if is_connecting c.state then record c { connection = none; state = disconnected } else c

-- ReconnectOnce with the connection of DialAndJoin, and whether it installs it
unfoldable pub install_connection : CollaborativeClient → ℕ → CollaborativeClient × Bool
install_connection c conn =
    if not (is_connecting c.state)
    then (c, false)
    else (record c { connection = some conn; state = syncing }, true)

-- The beginning of a round of FlushOfflineQueue
pub data Flushing : Type 0 where
  finished : Flushing
  flush : Bytes → Flushing

unfoldable pub flush_next : CollaborativeClient → ℕ → CollaborativeClient × Flushing
flush_next c conn =
    if not (is_at c.connection conn)
    then (c, finished)
    else if not (is_syncing c.state)
    then (c, finished)
    else elim c.offline_queue [
      | [] ↦ (record c { state = online }, finished)
      | message ∷ rest ↦ (c, flush message)
    ]

-- OfflineQueue[1:], which panics where there is nothing
unfoldable pub drop_first : List Bytes → Option (List Bytes)
drop_first [] = none
drop_first (message ∷ rest) = some rest

-- The end of a round of FlushOfflineQueue, after the write: whether another follows; `none` is a
-- panic
unfoldable pub flush_written : CollaborativeClient → ℕ → Option (CollaborativeClient × Bool)
unfolding drop_first
flush_written c conn =
    if not (is_at c.connection conn)
    then some (c, false)
    else if not (is_syncing c.state)
    then some (c, false)
    else elim (drop_first c.offline_queue) [
      | none ↦ none
      | some rest ↦ some (record c { offline_queue = rest }, true)
    ]

-- The message that DialAndJoin sends, before it is encoded
unfoldable pub join_payload : CollaborativeClient → JoinPayload
join_payload c = record { room_id = c.room_id; client_id = c.client_id; name = [] }

-- The first message of DialAndJoin
unfoldable pub join_message : Json → CollaborativeClient → Answer Bytes
unfolding join_payload
join_message json c =
    or_error (json.joins.marshal (join_payload c)) >>= encode_envelope json type_join

-- The errors of ValidateJoinAck
pub data JoinAckError : Type 0 where
  unsupported_message : JoinAckError
  unreadable : MessageError → JoinAckError
  unsupported_version : JoinAckError
  no_join_ack : JoinAckError
  unknown_room : JoinAckError
  unknown_client : JoinAckError

-- ValidateJoinAck
unfoldable pub validate_join_ack :
    Json → CollaborativeClient → (is_text : Bool) → Bytes → Option JoinAckError
validate_join_ack json c is_text message =
    if not is_text then some unsupported_message else elim (decode_envelope json message) [
      | raised e ↦ some (unreadable e)
      | returned envelope ↦
          let (version, type_message, payload) = envelope in
          if not (eq_ℤ version supported_version)
          then some unsupported_version
          else if not (text_eq type_message type_join_ack)
          then some no_join_ack
          else elim (decode_join_ack json payload) [
            | raised e ↦ some (unreadable e)
            | returned names ↦
                let (room, client_id) = names in
                if not (text_eq room c.room_id)
                then some unknown_room
                else if not (text_eq client_id c.client_id)
                then some unknown_client
                else none
          ]
    ]
