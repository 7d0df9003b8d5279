-- ===== src/Client/Arrival.antt =====
-- An operation that one replica encodes, in the round of RemoteMessageLoop that receives it at
-- another.
use yata_collaborative_edito.Base.{
  ℕ, ◌≡◌, ◌⊎◌, refl, ap, ◌∙◌, true, false, List, ◌∷◌, ◌++◌, arith, inr, Text, text_eq, text_eq_iff,
  is_empty, eq_ℤ, ok,
}
use yata_collaborative_edito.Identifier.{id_Eq}
use yata_collaborative_edito.Protocol.Operations.{DeleteOperation}
use yata_collaborative_edito.Protocol.Messages.{
  Bytes, Json, returned, op_insert, op_delete, supported_version, type_update,
}
use yata_collaborative_edito.Document.{Ptr, Document, RangeOrder}
use yata_collaborative_edito.Document.Traversal.{visible_content}
use yata_collaborative_edito.Document.Update.{remote_delete}
use yata_collaborative_edito.Document.Valid.{IsValid}
use yata_collaborative_edito.Document.Reading.{reads_valid}
use yata_collaborative_edito.Document.RemoteDeletion.{RemoteDeleted, remote_delete-RemoteDeleted}
use yata_collaborative_edito.Sync.Adapter.{
  ConvertedOperation, converted_delete, apply_converted_operation, applied, map_run,
  encode_delete_operation,
}
use yata_collaborative_edito.Sync.Laws.{Laws, Delivers}
use yata_collaborative_edito.Sync.RoundTrip.{delete_round_trip}
use yata_collaborative_edito.Client.Messages.{
  Replica, Wire, announce, receive_operation, receive_update, remote_message,
}

version_is_supported : eq_ℤ supported_version supported_version ≡ true
unfolding eq_ℤ
version_is_supported = refl

module _ (ranges : RangeOrder) (json : Json) (wire : Wire) (conn : ℕ) (r : Replica) where
  -- An operation that is delivered and applied is announced.
  delivered-announced :
      (message : Bytes) (op : ConvertedOperation) (d : Document) (content : Text)
      → Delivers json message op
      → (op.type_name ≡ op_insert) ⊎ (op.type_name ≡ op_delete)
      → apply_converted_operation ranges r.document op ≡ ok (d, applied)
      → visible_content d ≡ ok content
      → remote_message ranges json wire conn r true message
        ≡ ok (announce json wire.sends conn (record r { document = d }))
  unfolding Delivers remote_message receive_update receive_operation
  delivered-announced message op d content delivers kind applies shows =
      let (payload, update, envelope, decoded, converts, typed) = delivers in
      ground (
        arith,
        envelope,
        decoded,
        converts,
        typed,
        kind,
        applies,
        shows,
        version_is_supported,
        text_eq_iff type_update type_update,
        text_eq_iff op.type_name op_insert,
        text_eq_iff op.type_name op_delete,
      )

  -- A replica's document is valid, and an element of its list, whose identifier names a client, is
  -- not deleted. The round of RemoteMessageLoop that reads the message which EncodeDeleteOperation
  -- makes of the deletion of that element runs: the document that it leaves is valid, has the same
  -- list, shows all but that element and has logged the deletion, and the round announces it.
  pub deletion_arrives :
      (laws : Laws json) (op : DeleteOperation) (message : Bytes) (xs : List Ptr) (p : Ptr)
      (zs : List Ptr)
      → encode_delete_operation json op ≡ returned message
      → op.target_id ≡ (r.document.memory p).element_id
      → is_empty op.target_id.client_id ≡ false
      → IsValid r.document (xs ++ p ∷ zs)
      → (r.document.memory p).is_deleted ≡ false
      → (result : RemoteDeleted r.document xs p zs) × (remote_message ranges json wire conn r true
            message
          ≡ ok (announce json wire.sends conn (record r { document = result.after })))
  unfolding apply_converted_operation converted_delete text_eq
  deletion_arrives laws op message xs p zs encodes target named valid live =
      let result = remote_delete-RemoteDeleted xs p zs valid live in
      (
        result,
        delivered-announced message (converted_delete op) result.after _
            (delete_round_trip json laws op message encodes named) (inr refl)
            (ap (λ run. map_run (λ e. (e, applied)) run)
              (ap (remote_delete r.document) target ∙ result.runs))
            (reads_valid result.valid).0,
      )
