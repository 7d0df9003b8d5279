-- ===== src/Storage/LogRoundTrip.antt =====
-- SaveInsertOperations and LoadInsertOperations, SaveDeleteOperations and LoadDeleteOperations: the
-- logs of a document in its room.
use yata_collaborative_edito.Base.{
  Option, none, some, ◌≡◌, ◌∙◌, ap, refl, arith, text_eq_iff, Map, lookup, In,
}
use yata_collaborative_edito.Identifier.{ElementId, id_Eq}
use yata_collaborative_edito.Protocol.Messages.{Bytes}
use yata_collaborative_edito.Protocol.Operations.{
  InsertOperation, DeleteOperation, new_insert_operation, new_delete_operation,
}
use yata_collaborative_edito.Document.{Document}
use yata_collaborative_edito.Storage.{
  Stored, done, or_fail, no_bucket, insert_log_key, delete_log_key,
}
use yata_collaborative_edito.Storage.Buckets.{Bolt, BoltLaws}
use yata_collaborative_edito.Storage.Rooms.{>>=-done, or_fail-done}
use yata_collaborative_edito.Storage.Serializing.{
  PersistedInsertOperation, PersistedDeleteOperation, to_persisted_insert_operation,
  to_insert_operation, to_persisted_delete_operation, to_delete_operation,
}
use yata_collaborative_edito.Storage.Documents.{
  PersistedJson, in_bucket, save_operations, save_insert_operations, load_insert_operations,
  save_delete_operations, load_delete_operations, note_insert, note_delete,
}
use yata_collaborative_edito.Storage.Logs.{IsLog, empty-IsLog, save_operations-load}
use yata_collaborative_edito.Storage.Overlay.{IsMap}

abbrev pub insert_key : InsertOperation → ElementId
insert_key op = op.new_id

abbrev pub delete_key : DeleteOperation → ElementId
delete_key op = op.target_id

restores_insert :
    (op : InsertOperation) → to_insert_operation (to_persisted_insert_operation op) ≡ op
unfolding to_insert_operation to_persisted_insert_operation new_insert_operation
restores_insert op = refl

restores_delete :
    (op : DeleteOperation) → to_delete_operation (to_persisted_delete_operation op) ≡ op
unfolding to_delete_operation to_persisted_delete_operation new_delete_operation
restores_delete op = refl

module _ (bolt : Bolt) (laws : BoltLaws bolt) where
  pub in_bucket-done :
      (room room' : bolt.Bucket) (key : Bytes) (f : bolt.Bucket → Stored bolt.Bucket)
      → in_bucket bolt room key f ≡ done room'
      → (b : bolt.Bucket) × (b' : bolt.Bucket) × (bolt.bucket room key ≡ some b)
        × (f b ≡ done b')
        × (bolt.bucket room' key ≡ some b')
  unfolding in_bucket
  in_bucket-done room room' key f saved =
      let (b, first, rest) = >>=-done (or_fail no_bucket (bolt.bucket room key)) _ saved in
      let (b', second, last) = >>=-done (f b) _ rest in
      (
        b,
        b',
        or_fail-done no_bucket _ first,
        second,
        ground (arith, last, laws.bucket-store room b' key key, text_eq_iff key key),
      )

  module _ (json : PersistedJson)
      (decodes_inserts : (p : PersistedInsertOperation) (b : Bytes)
        → json.inserts.marshal p ≡ some b
        → json.inserts.unmarshal b ≡ some p)
      (decodes_deletes : (p : PersistedDeleteOperation) (b : Bytes)
        → json.deletes.marshal p ≡ some b
        → json.deletes.unmarshal b ≡ some p) where
    -- The bucket holds these insertions and nothing else.
    pub InsertStored : bolt.Bucket → (ElementId → Option InsertOperation) → Type 0
    InsertStored b m =
        IsLog bolt laws json.inserts to_persisted_insert_operation to_insert_operation insert_key
          restores_insert decodes_inserts b m

    pub empty-InsertStored :
        (b : bolt.Bucket) → ((k : Bytes) → bolt.get b k ≡ none) → InsertStored b (λ _. none)
    unfolding InsertStored
    empty-InsertStored b nothing =
        empty-IsLog bolt laws json.inserts to_persisted_insert_operation to_insert_operation
          insert_key restores_insert decodes_inserts b nothing

    -- A log whose entries stand under their own identifiers is saved over the insertions that the
    -- room's bucket holds, and loading gives both, the saved one where there are two.
    pub insert_log_round_trip :
        (room room' b : bolt.Bucket) (d : Document) (held : ElementId → Option InsertOperation)
        → bolt.bucket room insert_log_key ≡ some b
        → InsertStored b held
        → IsMap d.insert_log
        → ((k : ElementId) (op : InsertOperation) → In (k, op) d.insert_log → insert_key op ≡ k)
        → save_insert_operations bolt json room d ≡ done room'
        → (log : Map ElementId InsertOperation) × (load_insert_operations bolt json room'
            ≡ done log)
          × ((id : ElementId)
              → lookup id log
                ≡ elim (lookup id d.insert_log) [ some op ↦ some op | none ↦ held id ])
    unfolding save_insert_operations load_insert_operations note_insert InsertStored
    insert_log_round_trip room room' b d held there stored functional named saved =
        let (c, c', found, written, after) =
          in_bucket-done room room' insert_log_key
            (save_operations bolt json.inserts to_persisted_insert_operation d.insert_log) saved in
        let same : b ≡ c = ground (arith, there, found) in
        let (log, loaded, lookups) =
          save_operations-load bolt laws json.inserts to_persisted_insert_operation
            to_insert_operation insert_key restores_insert decodes_inserts d.insert_log b c' held
            stored functional named
            (ap (save_operations bolt json.inserts to_persisted_insert_operation d.insert_log) same
              ∙ written) in
        (log, ground (arith, after, loaded), lookups)

    -- The bucket holds these deletions and nothing else.
    pub DeleteStored : bolt.Bucket → (ElementId → Option DeleteOperation) → Type 0
    DeleteStored b m =
        IsLog bolt laws json.deletes to_persisted_delete_operation to_delete_operation delete_key
          restores_delete decodes_deletes b m

    pub empty-DeleteStored :
        (b : bolt.Bucket) → ((k : Bytes) → bolt.get b k ≡ none) → DeleteStored b (λ _. none)
    unfolding DeleteStored
    empty-DeleteStored b nothing =
        empty-IsLog bolt laws json.deletes to_persisted_delete_operation to_delete_operation
          delete_key restores_delete decodes_deletes b nothing

    -- A log whose entries stand under their own identifiers is saved over the deletions that the
    -- room's bucket holds, and loading gives both, the saved one where there are two.
    pub delete_log_round_trip :
        (room room' b : bolt.Bucket) (d : Document) (held : ElementId → Option DeleteOperation)
        → bolt.bucket room delete_log_key ≡ some b
        → DeleteStored b held
        → IsMap d.delete_log
        → ((k : ElementId) (op : DeleteOperation) → In (k, op) d.delete_log → delete_key op ≡ k)
        → save_delete_operations bolt json room d ≡ done room'
        → (log : Map ElementId DeleteOperation) × (load_delete_operations bolt json room'
            ≡ done log)
          × ((id : ElementId)
              → lookup id log
                ≡ elim (lookup id d.delete_log) [ some op ↦ some op | none ↦ held id ])
    unfolding save_delete_operations load_delete_operations note_delete DeleteStored
    delete_log_round_trip room room' b d held there stored functional named saved =
        let (c, c', found, written, after) =
          in_bucket-done room room' delete_log_key
            (save_operations bolt json.deletes to_persisted_delete_operation d.delete_log) saved in
        let same : b ≡ c = ground (arith, there, found) in
        let (log, loaded, lookups) =
          save_operations-load bolt laws json.deletes to_persisted_delete_operation
            to_delete_operation delete_key restores_delete decodes_deletes d.delete_log b c' held
            stored functional named
            (ap (save_operations bolt json.deletes to_persisted_delete_operation d.delete_log) same
              ∙ written) in
        (log, ground (arith, after, loaded), lookups)
