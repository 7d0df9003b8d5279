-- ===== src/Relay/Rounds.antt =====
-- backend/internal/relay/handler.go: a round of the loop of ws, from the message that has been
-- read to the next read. Other connections may change the hub and the database between rounds.
use yata_collaborative_edito.Base.{
  ℕ, Bool, false, not, ◌&&◌, none, some, List, [], ◌∷◌, ◌++◌, if◌then◌else◌, Text, text_eq,
  trim_space, is_empty, eq_ℤ,
}
use yata_collaborative_edito.Protocol.Messages.{
  Bytes, UpdatePayload, SnapshotOp, Json, Codec, Answer, supported_version, type_update,
  op_snapshot, op_presence, op_sync1,
}
use yata_collaborative_edito.Protocol.Operations.{Delta}
use yata_collaborative_edito.Protocol.Decoding.{
  decode_envelope, decode_update, decode_snapshot, encode_error_payload,
}
use yata_collaborative_edito.Sync.Adapter.{encode_sync_step2}
use yata_collaborative_edito.Storage.{
  Stored, done, failed, StorageError, save_snapshot_room, load_internal_snapshot,
}
use yata_collaborative_edito.Storage.Buckets.{Bolt}
use yata_collaborative_edito.Relay.{
  ClientSession, Hub, HubError, Result, returned, raised, broadcast_to_room,
}
use yata_collaborative_edito.Relay.Handshake.{
  ErrorReply, expected_message_reply, invalid_payload_reply, unsupported_version_reply,
  internal_error_reply, not_joined_reply, unknown_message_reply,
}

-- What follows a round: `continue`, the end of ws, or a nil pointer that is followed.
pub data Next : Type 0 where
  continues : Next
  ends : Next
  panics : Next

-- A message that was written to a connection
abbrev pub Written : Type 0
Written = ℕ × Bytes

-- Does WriteMessage fail on the connection of the session? The broadcasts ask it of no session
-- without one, since `receivers` and `connected` leave those out.
abbrev pub write_fails : (ℕ → Bool) → ClientSession → Bool
write_fails fails s = elim s.web_socket [ none ↦ false | some conn ↦ fails conn ]

-- Writing the message to each session's connection
abbrev pub written_to : Bytes → List ClientSession → List Written
written_to message [] = []
written_to message (s ∷ rest) = elim s.web_socket [
  | none ↦ written_to message rest
  | some conn ↦ (conn, message) ∷ written_to message rest
]

-- ClientSession.Send, where an error is the end of ws; a nil webSocket is followed
unfoldable pub send : (ℕ → Bool) → ClientSession → Bytes → Next → Next × List Written
send fails s message next = elim s.web_socket [
  | none ↦ (panics, [])
  | some conn ↦ if fails conn then (ends, []) else (next, (conn, message) ∷ [])
]

module _ (json : Json) where
  -- SendErrorMessage, whose error is the end of ws
  unfoldable pub send_error_message :
      (ℕ → Bool) → ClientSession → ErrorReply → Next → Next × List Written
  send_error_message fails s (code, text) next = elim (encode_error_payload json code text) [
    | Answer.raised _ ↦ (ends, [])
    | Answer.returned message ↦ send fails s message next
  ]

  -- The answer to a sync_step1 with the delta
  unfoldable pub send_sync2 : (ℕ → Bool) → ClientSession → Delta → Next × List Written
  send_sync2 fails s delta = elim (encode_sync_step2 json delta) [
    | Answer.raised _ ↦ send_error_message fails s internal_error_reply continues
    | Answer.returned message ↦ send fails s message continues
  ]

  -- The answer to a sync_step1 that had no receiver, by what LoadInternalSnapshot has returned
  unfoldable pub answer_sync1 : (ℕ → Bool) → ClientSession → Stored Delta → Next × List Written
  answer_sync1 fails s (done delta) = send_sync2 fails s delta
  answer_sync1 fails s (failed StorageError.snapshot_not_found) =
      send_sync2 fails s (record { inserts = []; deletes = [] })
  answer_sync1 fails s (failed e) = send_error_message fails s internal_error_reply continues

  module _ (bolt : Bolt) (deltas : Codec Delta) where
    -- The outcome of a round: what follows, what was written, and the database
    abbrev pub Outcome : Type 0
    Outcome = (Next × List Written) × bolt.Bucket

    -- `*snapshot.Delta` is saved
    unfoldable pub save_snapshot :
        (ℕ → Bool) → (commits : Bool) → ClientSession → bolt.Bucket → SnapshotOp → Outcome
    save_snapshot fails commits s db snapshot = elim snapshot.delta [
      | none ↦ ((panics, []), db)
      | some delta ↦
          let (db', error) = save_snapshot_room bolt deltas db commits s.room_id delta in
          elim error [
            | none ↦ ((continues, []), db')
            | some _ ↦ (send_error_message fails s internal_error_reply continues, db')
          ]
    ]

    -- What follows BroadcastToRoom
    unfoldable pub after_broadcast :
        (ℕ → Bool)
        → ClientSession
        → bolt.Bucket
        → (formatted_type : Text) → Result Bool
        → Next × List Written
    after_broadcast fails s db t (raised HubError.not_joined) =
        send_error_message fails s not_joined_reply continues
    after_broadcast fails s db t (raised e) =
        send_error_message fails s internal_error_reply continues
    after_broadcast fails s db t (returned receivers_exist) =
        if not receivers_exist && text_eq t op_sync1
        then answer_sync1 fails s (load_internal_snapshot bolt deltas db s.room_id)
        else (continues, [])

    -- BroadcastToRoom and what follows it
    unfoldable pub relay_message :
        (ℕ → Bool)
        → Hub
        → ClientSession
        → bolt.Bucket
        → (message : Bytes) → (formatted_type : Text) → Outcome
    relay_message fails hub s db message t =
        let (sent, result) = broadcast_to_room (write_fails fails) hub (some s) in
        let (next, answer) = after_broadcast fails s db t result in
        ((next, written_to message sent ++ answer), db)

    -- An operation of a type that is not blank
    unfoldable pub relay_operation :
        (ℕ → Bool)
        → (commits : Bool) → Hub
        → ClientSession
        → bolt.Bucket
        → (message : Bytes) → UpdatePayload
        → (formatted_type : Text) → Outcome
    relay_operation fails commits hub s db message update t =
        if text_eq t op_snapshot
        then elim (decode_snapshot json update) [
          | Answer.raised _ ↦ (send_error_message fails s invalid_payload_reply continues, db)
          | Answer.returned snapshot ↦ save_snapshot fails commits s db snapshot
        ]
        else if text_eq t op_presence
        then ((continues, []), db)
        else relay_message fails hub s db message t

    -- The case of an update
    unfoldable pub relay_update :
        (ℕ → Bool)
        → (commits : Bool) → Hub
        → ClientSession
        → bolt.Bucket
        → (message payload : Bytes) → Outcome
    relay_update fails commits hub s db message payload = elim (decode_update json payload) [
      | Answer.raised _ ↦ (send_error_message fails s invalid_payload_reply continues, db)
      | Answer.returned update ↦ elim (json.operations.unmarshal update.operation) [
        | none ↦ (send_error_message fails s invalid_payload_reply continues, db)
        | some envelope ↦
            if is_empty (trim_space envelope.type_name)
            then (send_error_message fails s invalid_payload_reply continues, db)
            else relay_operation fails commits hub s db message update
                (trim_space envelope.type_name)
      ]
    ]

    -- A round of the loop of ws
    unfoldable pub message_round :
        (ℕ → Bool)
        → (commits : Bool) → Hub
        → ClientSession
        → bolt.Bucket
        → (is_text : Bool) → (message : Bytes) → Outcome
    message_round fails commits hub s db is_text message =
        if not is_text
        then (send_error_message fails s expected_message_reply ends, db)
        else elim (decode_envelope json message) [
          | Answer.raised _ ↦ (send_error_message fails s invalid_payload_reply continues, db)
          | Answer.returned envelope ↦
              let (version, type_message, payload) = envelope in
              if not (eq_ℤ version supported_version)
              then (send_error_message fails s unsupported_version_reply continues, db)
              else if text_eq type_message type_update
              then relay_update fails commits hub s db message payload
              else (send_error_message fails s unknown_message_reply continues, db)
        ]
