-- ===== src/Client/Answers.antt =====
-- What a round of RemoteMessageLoop does with an operation, and with each part of a sync.
use yata_collaborative_edito.Base.{
  ℕ, ◌≡◌, refl, true, none, some, [], ◌∷◌, ◌++◌, arith, Text, Map, ok, ==_iff,
}
use yata_collaborative_edito.Identifier.{ElementId}
use yata_collaborative_edito.Protocol.Operations.{InsertOperation, DeleteOperation, Delta}
use yata_collaborative_edito.Protocol.Messages.{Bytes, UpdatePayload, Json, returned}
use yata_collaborative_edito.Document.{Document, RangeOrder}
use yata_collaborative_edito.Document.Traversal.{visible_content}
use yata_collaborative_edito.Document.Update.{integrate_delta}
use yata_collaborative_edito.Sync.{generate_state_vector, generate_delete_set}
use yata_collaborative_edito.Sync.Missing.{answer}
use yata_collaborative_edito.Sync.Adapter.{encode_sync_step2, encode_snapshot}
use yata_collaborative_edito.Client.{syncing, online}
use yata_collaborative_edito.Client.Flush.{flush_sends_all}
use yata_collaborative_edito.Client.Messages.{
  Replica, Wire, goes_on, document_delta, zero_vector, send_current_snapshot, announce,
  receive_sync1, receive_sync2,
}

module _ (ranges : RangeOrder) (json : Json) (conn : ℕ) (r : Replica)
    (payload : UpdatePayload) where
  -- A sync_step1 with the vector and the delete set of a peer's logs is answered, where the
  -- answer can be encoded and the write succeeds, with the operations of the replica's logs that
  -- ComputeDelta finds missing there, and changes nothing.
  pub receive_sync1_answers :
      (type_name : Text) (peer_inserts : Map ElementId InsertOperation)
      (peer_deletes : Map ElementId DeleteOperation) (message : Bytes)
      → json.syncs1.unmarshal payload.operation
        ≡ some (record {
          type_name = type_name;
          vector_state = some (generate_state_vector peer_inserts);
          delete_set = some (generate_delete_set peer_deletes);
        })
      → encode_sync_step2 json
          (answer r.document.insert_log r.document.delete_log peer_inserts peer_deletes)
        ≡ returned message
      → receive_sync1 json true conn r payload ≡ (r, goes_on, message ∷ [])
  unfolding receive_sync1 document_delta
  receive_sync1_answers type_name peer_inserts peer_deletes message reads encodes = ground arith

  -- A sync_step2 of a Syncing client on its connection, where the delta is integrated without an
  -- error, the content of the document that this leaves can be read (VisibleContent does not panic
  -- on it), every write succeeds and the snapshot can be encoded: the client is Online with an
  -- empty queue, and has written its queue in order, and then the snapshot of the document.
  pub receive_sync2_online :
      (wire : Wire) (type_name : Text) (delta : Delta) (d : Document) (content : Text)
      (snapshot : Bytes)
      → json.syncs2.unmarshal payload.operation
        ≡ some (record { type_name = type_name; delta = some delta })
      → integrate_delta ranges r.document delta ≡ ok (d, none)
      → visible_content d ≡ ok content
      → r.client.connection ≡ some conn
      → r.client.state ≡ syncing
      → ((j : ℕ) → wire.flushes j ≡ true)
      → wire.sends ≡ true
      → encode_snapshot json (document_delta d zero_vector) ≡ returned snapshot
      → receive_sync2 ranges json wire conn r payload
        ≡ ok (
          record {
            client = record r.client { connection = some conn; state = online; offline_queue = [] };
            document = d;
          },
          goes_on,
          r.client.offline_queue ++ snapshot ∷ [],
        )
  unfolding receive_sync2 announce send_current_snapshot
  receive_sync2_online wire type_name delta d content snapshot reads integrates shows at state
        accepts sends encodes =
      let flushed = flush_sends_all wire.flushes r.client conn at state accepts in
      ground (arith, flushed, (==_iff conn conn).1 refl)
