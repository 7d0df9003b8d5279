-- ===== src/Protocol/Decoding.antt =====
-- backend/internal/protocol/messages.go: the functions, over encoding/json as a parameter.
use yata_collaborative_edito.Base.{
  Bool, true, false, not, ◌||◌, Option, none, some, if◌then◌else◌, ℤ, Text, text_eq, trim_space,
  is_empty, length, ◌==◌,
}
use yata_collaborative_edito.Protocol.Messages.{
  Bytes, JoinPayload, JoinAckPayload, UpdatePayload, InsertOp, DeleteOp, SyncOp1, SyncOp2,
  SnapshotOp, PresenceOp, Json, Answer, returned, raised, or_error, ◌>>=◌, given, missing_field,
  invalid_payload, client_id_is_empty, room_is_empty, name_is_empty, supported_version,
  type_join_ack, type_error, op_insert, op_delete, op_sync1, op_sync2, op_snapshot, op_presence,
}

abbrev pub is_missing : {A : Type 0} → Option A → Bool
is_missing none = true
is_missing (some _) = false

-- The operation types that DecodeUpdate knows.
pub data OpType : Type 0 where
  is_insert is_delete is_sync1 is_sync2 is_snapshot is_presence : OpType

unfoldable pub op_type : Text → Option OpType
op_type t =
    if text_eq t op_insert
    then some is_insert
    else if text_eq t op_delete
    then some is_delete
    else if text_eq t op_sync1
    then some is_sync1
    else if text_eq t op_sync2
    then some is_sync2
    else if text_eq t op_snapshot
    then some is_snapshot
    else if text_eq t op_presence
    then some is_presence
    else none

-- DecodeInsert
unfoldable pub check_insert : InsertOp → Answer InsertOp
check_insert op =
    if is_empty op.new_id.client_id
      || (is_empty op.origin_id.client_id || is_empty op.right_id.client_id)
    then raised missing_field
    else if is_empty op.character
    then raised missing_field
    else if not (length op.character == 1)
    then raised invalid_payload
    else returned op

-- DecodeDelete
unfoldable pub check_delete : DeleteOp → Answer DeleteOp
check_delete op = if is_empty op.target_id.client_id then raised missing_field else returned op

-- DecodeSync1
unfoldable pub check_sync1 : SyncOp1 → Answer SyncOp1
check_sync1 op =
    if is_missing op.vector_state || is_missing op.delete_set
    then raised missing_field
    else returned op

-- DecodeSync2
unfoldable pub check_sync2 : SyncOp2 → Answer SyncOp2
check_sync2 op = if is_missing op.delta then raised missing_field else returned op

-- DecodeSnapshot
unfoldable pub check_snapshot : SnapshotOp → Answer SnapshotOp
check_snapshot op = if is_missing op.delta then raised missing_field else returned op

-- DecodePresence
unfoldable pub check_presence : PresenceOp → Answer PresenceOp
check_presence op = if is_missing op.users then raised missing_field else returned op

-- DecodeJoin after Unmarshal
unfoldable pub check_join : JoinPayload → Answer (Text × Text × Text)
check_join join =
    if is_empty (trim_space join.client_id)
    then raised client_id_is_empty
    else if is_empty (trim_space join.room_id)
    then raised room_is_empty
    else if is_empty (trim_space join.name)
    then raised name_is_empty
    else returned (trim_space join.room_id, trim_space join.client_id, trim_space join.name)

-- DecodeJoinAck after Unmarshal
unfoldable pub check_join_ack : JoinAckPayload → Answer (Text × Text)
check_join_ack ack =
    if is_empty (trim_space ack.client_id)
    then raised client_id_is_empty
    else if is_empty (trim_space ack.room)
    then raised room_is_empty
    else returned (trim_space ack.room, trim_space ack.client_id)

module _ (json : Json) where
  -- DecodeEnvelope
  unfoldable pub decode_envelope : Bytes → Answer (ℤ × Text × Bytes)
  unfolding ◌>>=◌
  decode_envelope message = or_error (json.envelopes.unmarshal message) >>= λ msg.
      returned (msg.version, msg.message_type, msg.payload)

  -- DecodeInsert
  unfoldable pub decode_insert : UpdatePayload → Answer InsertOp
  decode_insert p = or_error (json.inserts.unmarshal p.operation) >>= check_insert

  -- DecodeDelete
  unfoldable pub decode_delete : UpdatePayload → Answer DeleteOp
  decode_delete p = or_error (json.deletes.unmarshal p.operation) >>= check_delete

  -- DecodeSync1
  unfoldable pub decode_sync1 : UpdatePayload → Answer SyncOp1
  decode_sync1 p = or_error (json.syncs1.unmarshal p.operation) >>= check_sync1

  -- DecodeSync2
  unfoldable pub decode_sync2 : UpdatePayload → Answer SyncOp2
  decode_sync2 p = or_error (json.syncs2.unmarshal p.operation) >>= check_sync2

  -- DecodeSnapshot
  unfoldable pub decode_snapshot : UpdatePayload → Answer SnapshotOp
  decode_snapshot p = or_error (json.snapshots.unmarshal p.operation) >>= check_snapshot

  -- DecodePresence
  unfoldable pub decode_presence : UpdatePayload → Answer PresenceOp
  decode_presence p = or_error (json.presences.unmarshal p.operation) >>= check_presence

  -- The switch of DecodeUpdate
  unfoldable pub check_operation : OpType → UpdatePayload → Answer UpdatePayload
  check_operation is_insert p = given (decode_insert p) p
  check_operation is_delete p = given (decode_delete p) p
  check_operation is_sync1 p = given (decode_sync1 p) p
  check_operation is_sync2 p = given (decode_sync2 p) p
  check_operation is_snapshot p = given (decode_snapshot p) p
  check_operation is_presence p = given (decode_presence p) p

  -- DecodeUpdate after its first Unmarshal
  unfoldable pub check_update : UpdatePayload → Answer UpdatePayload
  check_update p =
      if is_empty p.operation
      then raised missing_field
      else or_error (json.operations.unmarshal p.operation) >>= λ envelope.
          elim (op_type (trim_space envelope.type_name)) [
            | none ↦ raised invalid_payload
            | some t ↦ check_operation t p
          ]

  -- DecodeUpdate
  unfoldable pub decode_update : Bytes → Answer UpdatePayload
  decode_update message = or_error (json.updates.unmarshal message) >>= check_update

  -- DecodeJoin
  unfoldable pub decode_join : Bytes → Answer (Text × Text × Text)
  decode_join message = or_error (json.joins.unmarshal message) >>= check_join

  -- DecodeJoinAck
  unfoldable pub decode_join_ack : Bytes → Answer (Text × Text)
  decode_join_ack message = or_error (json.join_acks.unmarshal message) >>= check_join_ack

  -- The envelope that every message is put in
  unfoldable pub encode_envelope : Text → Bytes → Answer Bytes
  encode_envelope message_type payload = or_error (
      json.envelopes.marshal
        (record { version = supported_version; message_type = message_type; payload = payload }))

  -- EncodeJoinAck
  unfoldable pub encode_join_ack : (room client_id : Text) → Answer Bytes
  encode_join_ack room client_id =
      or_error (json.join_acks.marshal (record { room = room; client_id = client_id }))
      >>= encode_envelope type_join_ack

  -- EncodeErrorPayload
  unfoldable pub encode_error_payload : (code message : Text) → Answer Bytes
  encode_error_payload code message =
      or_error (json.errors.marshal (record { code = code; message = message }))
      >>= encode_envelope type_error
