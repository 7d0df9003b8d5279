-- ===== src/Sync/Laws.antt =====
-- What is relied on in encoding/json, and what DecodeUpdate and ConvertUpdateOperation do with an
-- operation that it reads.
use yata_collaborative_edito.Base.{
  ◌≡◌, refl, ap, ◌∙◌, false, some, arith, is_empty, trim_space, text_eq, text_eq_iff,
}
use yata_collaborative_edito.Protocol.Messages.{
  Bytes, Envelope, JoinPayload, JoinAckPayload, UpdatePayload, OperationEnvelope, InsertOp,
  DeleteOp, Json, returned, ◌>>=◌, supported_version, type_update, op_insert, op_delete,
}
use yata_collaborative_edito.Protocol.Decoding.{
  op_type, is_insert, is_delete, check_insert, check_delete, decode_envelope, decode_insert,
  decode_delete, check_operation, check_update, decode_update,
}
use yata_collaborative_edito.Sync.Adapter.{
  ConvertedOperation, convert_insert, convert_delete, insert_operation_converter,
  delete_operation_converter, convert_type, convert_update_operation,
}

-- What the code relies on in encoding/json. Marshal writes compact text, which is never empty;
-- raw text in a message keeps its bytes if it is compact; Unmarshal reads back what Marshal
-- wrote, and at the type that has only the type's name it ignores the other fields.
pub record Laws (json : Json) : Type 1 where
  pub compact : Bytes → Type 0
  pub envelopes :
      (a : Envelope) (b : Bytes)
      → compact a.payload
      → json.envelopes.marshal a ≡ some b
      → json.envelopes.unmarshal b ≡ some a
  pub updates :
      (a : UpdatePayload) (b : Bytes)
      → compact a.operation
      → json.updates.marshal a ≡ some b
      → compact b × (json.updates.unmarshal b ≡ some a)
  pub joins :
      (a : JoinPayload) (b : Bytes)
      → json.joins.marshal a ≡ some b
      → compact b × (json.joins.unmarshal b ≡ some a)
  pub join_acks :
      (a : JoinAckPayload) (b : Bytes)
      → json.join_acks.marshal a ≡ some b
      → compact b × (json.join_acks.unmarshal b ≡ some a)
  pub inserts :
      (a : InsertOp) (b : Bytes)
      → json.inserts.marshal a ≡ some b
      → compact b
        × (is_empty b ≡ false)
        × (json.inserts.unmarshal b ≡ some a)
        × (json.operations.unmarshal b ≡ some (record { type_name = a.type_name }))
  pub deletes :
      (a : DeleteOp) (b : Bytes)
      → json.deletes.marshal a ≡ some b
      → compact b
        × (is_empty b ≡ false)
        × (json.deletes.unmarshal b ≡ some a)
        × (json.operations.unmarshal b ≡ some (record { type_name = a.type_name }))

-- The message is an update in the supported version that the receiver accepts and converts to
-- the operation, whose type it reads as well.
unfoldable pub Delivers : Json → Bytes → ConvertedOperation → Type 0
Delivers json message op =
    (payload : Bytes) × (update : UpdatePayload) × (decode_envelope json message
      ≡ returned (supported_version, type_update, payload))
    × (decode_update json payload ≡ returned update)
    × (convert_update_operation json update ≡ returned op)
    × (json.operations.unmarshal update.operation ≡ some (record { type_name = op.type_name }))

insert_is_trimmed : trim_space op_insert ≡ op_insert
unfolding trim_space
insert_is_trimmed = refl

delete_is_trimmed : trim_space op_delete ≡ op_delete
unfolding trim_space
delete_is_trimmed = refl

insert_is_known : op_type op_insert ≡ some is_insert
unfolding op_type text_eq
insert_is_known = refl

delete_is_known : op_type op_delete ≡ some is_delete
unfolding op_type text_eq
delete_is_known = refl

delete_is_not_insert : text_eq op_delete op_insert ≡ false
unfolding text_eq
delete_is_not_insert = refl

abbrev insert_envelope : OperationEnvelope
insert_envelope = record { type_name = op_insert }

abbrev delete_envelope : OperationEnvelope
delete_envelope = record { type_name = op_delete }

module _ (json : Json) where
  pub check_update-insert :
      (u : UpdatePayload) (a : InsertOp)
      → is_empty u.operation ≡ false
      → json.operations.unmarshal u.operation ≡ some insert_envelope
      → json.inserts.unmarshal u.operation ≡ some a
      → check_insert a ≡ returned a
      → check_update json u ≡ returned u
  unfolding check_update check_operation decode_insert ◌>>=◌
  check_update-insert u a filled kind read fine =
      ground (arith, ap op_type insert_is_trimmed ∙ insert_is_known)

  pub check_update-delete :
      (u : UpdatePayload) (a : DeleteOp)
      → is_empty u.operation ≡ false
      → json.operations.unmarshal u.operation ≡ some delete_envelope
      → json.deletes.unmarshal u.operation ≡ some a
      → check_delete a ≡ returned a
      → check_update json u ≡ returned u
  unfolding check_update check_operation decode_delete ◌>>=◌
  check_update-delete u a filled kind read fine =
      ground (arith, ap op_type delete_is_trimmed ∙ delete_is_known)

  pub convert_update_operation-insert :
      (u : UpdatePayload) (a : InsertOp)
      → json.operations.unmarshal u.operation ≡ some insert_envelope
      → json.inserts.unmarshal u.operation ≡ some a
      → convert_update_operation json u ≡ convert_insert a
  unfolding convert_update_operation convert_type insert_operation_converter ◌>>=◌
  convert_update_operation-insert u a kind read =
      ground (arith, insert_is_trimmed, text_eq_iff op_insert op_insert)

  pub convert_update_operation-delete :
      (u : UpdatePayload) (a : DeleteOp)
      → json.operations.unmarshal u.operation ≡ some delete_envelope
      → json.deletes.unmarshal u.operation ≡ some a
      → convert_update_operation json u ≡ convert_delete a
  unfolding convert_update_operation convert_type delete_operation_converter ◌>>=◌
  convert_update_operation-delete u a kind read =
      ground (arith, delete_is_trimmed, delete_is_not_insert, text_eq_iff op_delete op_delete)
