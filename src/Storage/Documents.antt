-- ===== src/Storage/Documents.antt =====
-- backend/internal/storage/boltdb.go: a document in the buckets of its room, and back.
use yata_collaborative_edito.Base.{
  ℕ, zero, suc, Bool, Option, none, some, [], ◌∷◌, ◌==◌, if◌then◌else◌, Text, codes, trim_space,
  Map, insert, Run, ok, out_of_fuel, is_empty,
}
use yata_collaborative_edito.Identifier.{ElementId, id_Eq}
use yata_collaborative_edito.Protocol.Messages.{Bytes, Codec}
use yata_collaborative_edito.Protocol.Operations.{InsertOperation, DeleteOperation}
use yata_collaborative_edito.Document.{Ptr, null, Memory, write, Document}
use yata_collaborative_edito.Storage.{
  StorageError, Stored, done, failed, ◌>>=◌, or_fail, bolt_error, json_error, no_bucket,
  snapshot_not_found, rooms_key, metadata_key, elements_key, insert_log_key, delete_log_key,
  create_room, store_room_bucket, end_transaction,
}
use yata_collaborative_edito.Sync.Adapter.{map_run}
use yata_collaborative_edito.Storage.Buckets.{Bolt}
use yata_collaborative_edito.Storage.Keys.{format_id}
use yata_collaborative_edito.Storage.Serializing.{
  PersistedElement, PersistedMetadata, PersistedInsertOperation, PersistedDeleteOperation,
  to_persisted_element, to_element, to_persisted_metadata, to_persisted_insert_operation,
  to_insert_operation, to_persisted_delete_operation, to_delete_operation,
}

-- encoding/json at the persisted types
pub record PersistedJson : Type 0 where
  pub metadata : Codec PersistedMetadata
  pub elements : Codec PersistedElement
  pub inserts : Codec PersistedInsertOperation
  pub deletes : Codec PersistedDeleteOperation

abbrev pub document_key : Bytes
document_key = codes "document"

-- NewRoomStorage, the room's name that it keeps; a nil storage is refused.
unfoldable pub new_room_storage : (storage_exists : Bool) → Text → Option Text
new_room_storage storage_exists room =
    if is_empty (trim_space room)
    then none
    else if storage_exists
    then some (trim_space room)
    else none

-- What LoadElements collects: the persisted elements, and the new elements at new addresses
pub record LoadedElements : Type 0 where
  pub persisted : Map ElementId PersistedElement
  pub by_id : Map ElementId Ptr
  pub memory : Memory
  pub allocated : Ptr

-- What the function of LoadElements does with an element
unfoldable pub note_element : PersistedElement → LoadedElements → LoadedElements
note_element p s = record {
  persisted = insert p.element_id p s.persisted;
  by_id = insert (to_element p).element_id s.allocated s.by_id;
  memory = write s.memory s.allocated (to_element p);
  allocated = suc s.allocated;
}

-- What LoadSnapshot returns without an error
pub record LoadedSnapshot : Type 0 where
  pub metadata : PersistedMetadata
  pub elements : LoadedElements
  pub insert_log : Map ElementId InsertOperation
  pub delete_log : Map ElementId DeleteOperation

-- insertLog[insert.NewID] = &insert
unfoldable pub note_insert :
    PersistedInsertOperation → Map ElementId InsertOperation → Map ElementId InsertOperation
note_insert p log = let op = to_insert_operation p in insert op.new_id op log

unfoldable pub note_delete :
    PersistedDeleteOperation → Map ElementId DeleteOperation → Map ElementId DeleteOperation
note_delete p log = let op = to_delete_operation p in insert op.target_id op log

module _ (bolt : Bolt) where
  open bolt use {Bucket, get, bucket, put, store, entries}

  -- The bucket inside, changed by `f`
  unfoldable pub in_bucket : Bucket → Bytes → (Bucket → Stored Bucket) → Stored Bucket
  in_bucket room key f = do
    inner ← or_fail no_bucket (bucket room key)
    changed ← f inner
    done (store room key changed)

  -- json.Marshal and Put
  unfoldable pub put_value : {A : Type 0} → Codec A → Bucket → Bytes → A → Stored Bucket
  put_value codec b key a = do
    data_bytes ← or_fail json_error (codec.marshal a)
    or_fail bolt_error (put b key data_bytes)

  -- The loop over a map of operations, each put under its identifier
  unfoldable pub save_operations :
      {V P : Type 0} → Codec P → (V → P) → Map ElementId V → Bucket → Stored Bucket
  unfolding put_value
  save_operations codec persist [] b = done b
  save_operations codec persist ((k, v) ∷ rest) b = do
    b' ← put_value codec b (format_id k) (persist v)
    save_operations codec persist rest b'

  -- The function that ForEach calls, over all entries; it reads each value and notes what was read
  unfoldable pub load_entries :
      {P S : Type 0} → Codec P → (P → S → S) → Map Bytes Bytes → S → Stored S
  load_entries codec note [] s = done s
  load_entries codec note ((_, v) ∷ rest) s = do
    persisted ← or_fail json_error (codec.unmarshal v)
    load_entries codec note rest (note persisted s)

  module _ (json : PersistedJson) where
    -- SaveMetadata
    unfoldable pub save_metadata : Bucket → Document → Stored Bucket
    unfolding in_bucket put_value
    save_metadata room d =
        in_bucket room metadata_key
          (λ b. put_value json.metadata b document_key (to_persisted_metadata d))

    -- LoadMetadata
    unfoldable pub load_metadata : Bucket → Stored PersistedMetadata
    load_metadata room = do
      metadata ← or_fail snapshot_not_found (bucket room metadata_key)
      data_bytes ← or_fail snapshot_not_found (get metadata document_key)
      or_fail json_error (json.metadata.unmarshal data_bytes)

    -- The loop of SaveElements
    unfoldable pub save_elements_loop : ℕ → Memory → Ptr → Bucket → Run (Stored Bucket)
    unfolding put_value
    save_elements_loop zero m current b = out_of_fuel
    save_elements_loop (suc fuel) m current b =
        if current == null
        then ok (done b)
        else elim (put_value json.elements b (format_id (m current).element_id)
            (to_persisted_element m current)) [
              | failed e ↦ ok (failed e)
              | done b' ↦ save_elements_loop fuel m (m current).right b'
            ]

    -- SaveInsertOperations
    unfoldable pub save_insert_operations : Bucket → Document → Stored Bucket
    unfolding in_bucket save_operations
    save_insert_operations room d =
        in_bucket room insert_log_key
          (save_operations json.inserts to_persisted_insert_operation d.insert_log)

    -- SaveDeleteOperations
    unfoldable pub save_delete_operations : Bucket → Document → Stored Bucket
    unfolding in_bucket save_operations
    save_delete_operations room d =
        in_bucket room delete_log_key
          (save_operations json.deletes to_persisted_delete_operation d.delete_log)

    -- LoadInsertOperations
    unfoldable pub load_insert_operations : Bucket → Stored (Map ElementId InsertOperation)
    unfolding load_entries note_insert
    load_insert_operations room = do
      b ← or_fail no_bucket (bucket room insert_log_key)
      load_entries json.inserts note_insert (entries b) []

    -- LoadDeleteOperations
    unfoldable pub load_delete_operations : Bucket → Stored (Map ElementId DeleteOperation)
    unfolding load_entries note_delete
    load_delete_operations room = do
      b ← or_fail no_bucket (bucket room delete_log_key)
      load_entries json.deletes note_delete (entries b) []

    -- SaveElements; a walk that does not end has no fuel that is enough.
    unfoldable pub save_elements : Bucket → Document → Run (Stored Bucket)
    unfolding save_elements_loop
    save_elements room d = elim (bucket room elements_key) [
      | none ↦ ok (failed no_bucket)
      | some b ↦
          map_run (λ r. (do saved ← r; done (store room elements_key saved)))
            (save_elements_loop (suc d.allocated) d.memory d.start b)
    ]

    -- The four saves of SaveSnapshot
    unfoldable pub write_room : Bucket → Document → Run (Stored Bucket)
    write_room room d = elim (save_metadata room d) [
      | failed e ↦ ok (failed e)
      | done room1 ↦
          map_run
            (λ r. (do
              room2 ← r
              room3 ← save_insert_operations room2 d
              save_delete_operations room3 d))
            (save_elements room1 d)
    ]

    -- The transaction of SaveSnapshot
    unfoldable pub write_document : Text → Document → Bucket → Run (Stored Bucket)
    write_document room d root =
        elim (do rooms ← or_fail no_bucket (bucket root rooms_key); create_room bolt rooms room) [
          | failed e ↦ ok (failed e)
          | done created ↦
              let (rooms', sub_room) = created in
              map_run (λ r. (do saved ← r; done (store_room_bucket bolt root rooms' room saved)))
                (write_room sub_room d)
        ]

    -- SaveSnapshot
    unfoldable pub save_snapshot :
        Bucket → (commits : Bool) → Document → Text → Run (Bucket × Option StorageError)
    save_snapshot db commits d room =
        map_run (end_transaction bolt db commits) (write_document room d db)

    -- LoadElements, which reads elements into new addresses of a memory
    unfoldable pub load_elements : Bucket → Memory → Ptr → Stored LoadedElements
    unfolding load_entries note_element
    load_elements room memory allocated = do
      b ← or_fail no_bucket (bucket room elements_key)
      load_entries json.elements note_element (entries b)
          (record { persisted = []; by_id = []; memory = memory; allocated = allocated })

    -- LoadSnapshot
    unfoldable pub load_snapshot : Bucket → Text → Memory → Ptr → Stored LoadedSnapshot
    load_snapshot db room memory allocated = do
      rooms ← or_fail no_bucket (bucket db rooms_key)
      room_bucket ← or_fail snapshot_not_found (bucket rooms (trim_space room))
      metadata ← load_metadata room_bucket
      elements ← load_elements room_bucket memory allocated
      insert_log ← load_insert_operations room_bucket
      delete_log ← load_delete_operations room_bucket
      done (record {
        metadata = metadata;
        elements = elements;
        insert_log = insert_log;
        delete_log = delete_log;
      })
