-- ===== src/Sync/Adapter.antt =====
-- backend/internal/sync/adapter.go: operations from and to their messages, and their
-- application to a document.
use yata_collaborative_edito.Base.{
  ℕ, ◌||◌, Option, none, some, List, [], ◌∷◌, if◌then◌else◌, Text, text_eq, trim_space, is_empty,
  Run, ok,
}
use yata_collaborative_edito.Presence.{PresenceUser}
use yata_collaborative_edito.Protocol.Operations.{
  InsertOperation, DeleteOperation, Delta, new_insert_operation, new_delete_operation,
}
use yata_collaborative_edito.Protocol.Messages.{
  Bytes, UpdatePayload, InsertOp, DeleteOp, Json, Answer, returned, raised, or_error, ◌>>=◌,
  missing_field, invalid_payload, unsupported_conversion, unsupported_operation, type_update,
  op_insert, op_delete, op_sync1, op_sync2, op_snapshot, op_presence,
}
use yata_collaborative_edito.Protocol.Decoding.{encode_envelope}
use yata_collaborative_edito.Document.{Document, DocumentError, zero_id, RangeOrder}
use yata_collaborative_edito.Document.Traversal.{encode_rune}
use yata_collaborative_edito.Document.Update.{remote_insert, remote_delete}
use yata_collaborative_edito.Sync.{Vector}

-- type ConvertedOperation struct; a field called Delete in the source is `deletion`
pub record ConvertedOperation : Type 0 where
  pub type_name : Text
  pub insertion : InsertOperation
  pub deletion : DeleteOperation

-- The zero values of the two operations
abbrev pub zero_insert : InsertOperation
zero_insert = record { new_id = zero_id; origin_id = zero_id; right_id = zero_id; content = 0 }

abbrev pub zero_delete : DeleteOperation
zero_delete = record { target_id = zero_id }

unfoldable pub converted_insert : InsertOperation → ConvertedOperation
converted_insert op = record { type_name = op_insert; insertion = op; deletion = zero_delete }

unfoldable pub converted_delete : DeleteOperation → ConvertedOperation
converted_delete op = record { type_name = op_delete; insertion = zero_insert; deletion = op }

-- The one rune of a text.
unfoldable pub single : Text → Option ℕ
single [] = none
single (r ∷ []) = some r
single (r ∷ q ∷ s) = none

-- InsertOperationConverter after Unmarshal
unfoldable pub convert_insert : InsertOp → Answer ConvertedOperation
unfolding new_insert_operation
convert_insert op = elim (single op.character) [
  | none ↦ raised invalid_payload
  | some r ↦
      if is_empty op.new_id.client_id
        || (is_empty op.origin_id.client_id || is_empty op.right_id.client_id)
      then raised missing_field
      else returned (converted_insert (new_insert_operation op.new_id op.origin_id op.right_id r))
]

-- DeleteOperationConverter after Unmarshal
unfoldable pub convert_delete : DeleteOp → Answer ConvertedOperation
unfolding new_delete_operation
convert_delete op =
    if is_empty op.target_id.client_id
    then raised missing_field
    else returned (converted_delete (new_delete_operation op.target_id))

module _ (json : Json) where
  -- InsertOperationConverter
  unfoldable pub insert_operation_converter : UpdatePayload → Answer ConvertedOperation
  insert_operation_converter p = or_error (json.inserts.unmarshal p.operation) >>= convert_insert

  -- DeleteOperationConverter
  unfoldable pub delete_operation_converter : UpdatePayload → Answer ConvertedOperation
  delete_operation_converter p = or_error (json.deletes.unmarshal p.operation) >>= convert_delete

  -- The switch of ConvertUpdateOperation
  unfoldable pub convert_type : Text → UpdatePayload → Answer ConvertedOperation
  convert_type t p =
      if text_eq t op_insert
      then insert_operation_converter p
      else if text_eq t op_delete
      then delete_operation_converter p
      else if text_eq t op_sync1 || text_eq t op_sync2
      then raised unsupported_conversion
      else raised invalid_payload

  -- ConvertUpdateOperation
  unfoldable pub convert_update_operation : UpdatePayload → Answer ConvertedOperation
  convert_update_operation p = or_error (json.operations.unmarshal p.operation) >>= λ envelope.
      if is_empty (trim_space envelope.type_name)
      then raised missing_field
      else convert_type (trim_space envelope.type_name) p

  -- The end of each encoder: an operation's bytes in an update, in an envelope
  unfoldable pub encode_update : Bytes → Answer Bytes
  encode_update operation =
      or_error (json.updates.marshal (record { operation = operation }))
      >>= encode_envelope json type_update

  -- EncodeInsertOperation
  unfoldable pub encode_insert_operation : InsertOperation → Answer Bytes
  encode_insert_operation op =
      or_error (
        json.inserts.marshal (record {
          type_name = op_insert;
          new_id = op.new_id;
          origin_id = op.origin_id;
          right_id = op.right_id;
          character = encode_rune op.content ∷ [];
        }))
      >>= encode_update

  -- EncodeDeleteOperation
  unfoldable pub encode_delete_operation : DeleteOperation → Answer Bytes
  encode_delete_operation op =
      or_error (json.deletes.marshal (record { type_name = op_delete; target_id = op.target_id }))
      >>= encode_update

  -- EncodeSyncStep1
  unfoldable pub encode_sync_step1 : Vector → Answer Bytes
  encode_sync_step1 vector =
      or_error (
        json.syncs1.marshal (record {
          type_name = op_sync1;
          vector_state = some vector.state_vectors;
          delete_set = some vector.delete_set;
        }))
      >>= encode_update

  -- EncodeSyncStep2
  unfoldable pub encode_sync_step2 : Delta → Answer Bytes
  encode_sync_step2 delta =
      or_error (json.syncs2.marshal (record { type_name = op_sync2; delta = some delta }))
      >>= encode_update

  -- EncodeSnapshot
  unfoldable pub encode_snapshot : Delta → Answer Bytes
  encode_snapshot delta =
      or_error (json.snapshots.marshal (record { type_name = op_snapshot; delta = some delta }))
      >>= encode_update

  -- EncodePresence
  unfoldable pub encode_presence : Option (List PresenceUser) → Answer Bytes
  encode_presence users =
      or_error (json.presences.marshal (record { type_name = op_presence; users = users }))
      >>= encode_update

  -- EncodeUpdateOperation
  unfoldable pub encode_update_operation : ConvertedOperation → Answer Bytes
  encode_update_operation op =
      if text_eq op.type_name op_insert
      then encode_insert_operation op.insertion
      else if text_eq op.type_name op_delete
      then encode_delete_operation op.deletion
      else raised unsupported_operation

-- How ApplyConvertedOperation ends
pub data Applied : Type 0 where
  applied : Applied
  failed : DocumentError → Applied
  not_an_operation : Applied

-- The error of RemoteInsert, where "Pending value." counts as none
unfoldable pub insert_outcome : Document × Option DocumentError → Document × Applied
insert_outcome (d, none) = (d, applied)
insert_outcome (d, some DocumentError.pending_value) = (d, applied)
insert_outcome (d, some e) = (d, failed e)

abbrev pub map_run : {A B : Type 0} → (A → B) → Run A → Run B
map_run f (ok a) = ok (f a)
map_run f Run.panic = Run.panic
map_run f Run.out_of_fuel = Run.out_of_fuel

-- ApplyConvertedOperation; RemoteDelete answers no error
unfoldable pub apply_converted_operation :
    RangeOrder → Document → ConvertedOperation → Run (Document × Applied)
apply_converted_operation ranges d op =
    if text_eq op.type_name op_insert
    then map_run insert_outcome (
        remote_insert ranges d op.insertion.new_id op.insertion.origin_id op.insertion.right_id
          op.insertion.content)
    else if text_eq op.type_name op_delete
    then map_run (λ e. (e, applied)) (remote_delete d op.deletion.target_id)
    else ok (d, not_an_operation)
