-- ===== src/Hydration/Saved.antt =====
-- SaveElements in the room, LoadElements from it and ReconstructDocument, one after the other.
use yata_collaborative_edito.Base.{
  true, none, some, is_some, List, ◌≡◌, ◌<◌, refl, Map, lookup, In, has, All, ok,
}
use yata_collaborative_edito.Identifier.{ElementId, id_Eq}
use yata_collaborative_edito.Protocol.Messages.{Bytes}
use yata_collaborative_edito.Protocol.Operations.{InsertOperation, DeleteOperation}
use yata_collaborative_edito.Document.{Ptr, Memory, Document, RangeOrder, zero_id}
use yata_collaborative_edito.Document.Valid.{IsValid, nodes}
use yata_collaborative_edito.Storage.{done, elements_key}
use yata_collaborative_edito.Storage.Buckets.{Bolt, BoltLaws}
use yata_collaborative_edito.Storage.Serializing.{PersistedElement, to_persisted_metadata}
use yata_collaborative_edito.Storage.Documents.{
  PersistedJson, LoadedElements, LoadedSnapshot, save_elements, load_elements,
}
use yata_collaborative_edito.Hydration.{reconstruct_document}
use yata_collaborative_edito.Hydration.Restored.{IsSaved}
use yata_collaborative_edito.Hydration.Image.{save_elements-IsImage}
use yata_collaborative_edito.Hydration.RoundTrip.{IsSameDocument, reconstruct_document_restores}

-- The loaded parts of a document, with its own metadata
abbrev pub snapshot_of :
    Document
    → LoadedElements
    → Map ElementId InsertOperation
    → Map ElementId DeleteOperation
    → LoadedSnapshot
snapshot_of d loaded insert_log delete_log = record {
  metadata = to_persisted_metadata d;
  elements = loaded;
  insert_log = insert_log;
  delete_log = delete_log;
}

module _ (bolt : Bolt) (laws : BoltLaws bolt) (json : PersistedJson)
    (decodes : (p : PersistedElement) (b : Bytes)
      → json.elements.marshal p ≡ some b
      → json.elements.unmarshal b ≡ some p)
    (ranges : RangeOrder) where
  -- A valid document in which each origin is in the list and no identifier is the zero value, and
  -- SaveElements puts its elements into a room's empty bucket without an error. LoadElements of the
  -- room then returns no error, and ReconstructDocument of the loaded elements, with the document's
  -- own metadata and logs of operations on its elements, runs, returns no error, and leaves a valid
  -- document with the same elements in the same order, with their contents and deletions, the same
  -- client and clock, and nothing that waits, whatever document it is called on.
  pub saved_document_restores :
      (d : Document) (cs : List Ptr) (room room' b : bolt.Bucket) (memory : Memory)
      (allocated : Ptr) (base : Document) (insert_log : Map ElementId InsertOperation)
      (delete_log : Map ElementId DeleteOperation)
      → IsValid d cs
      → lookup zero_id d.elements_by_id ≡ none
      → All (λ p. has (d.memory p).origin (nodes d cs) ≡ true) cs
      → bolt.bucket room elements_key ≡ some b
      → ((k : Bytes) → bolt.get b k ≡ none)
      → save_elements bolt json room d ≡ ok (done room')
      → 0 < allocated
      → ((k : ElementId) (op : InsertOperation)
          → In (k, op) insert_log
          → is_some (lookup k d.elements_by_id) ≡ true)
      → ((k : ElementId) (op : DeleteOperation)
          → In (k, op) delete_log
          → is_some (lookup k d.elements_by_id) ≡ true)
      → (loaded : LoadedElements) × (load_elements bolt json room' memory allocated ≡ done loaded)
        × (e : Document) × (es : List Ptr) × (reconstruct_document ranges base
              (done (snapshot_of d loaded insert_log delete_log))
            ≡ ok (e, none))
        × IsSameDocument d cs e es
  saved_document_restores d cs room room' b memory allocated base insert_log delete_log valid
        no_zero rooted there nothing saved positive inserts deletes =
      let (loaded, loads, image) =
        save_elements-IsImage d cs valid bolt laws json decodes room room' b memory allocated there
          nothing saved positive in
      let whole : IsSaved d cs loaded = record {
        valid = valid;
        image = image;
        no_zero = no_zero;
        rooted = rooted;
      } in
      let (e, es, runs, same) =
        reconstruct_document_restores ranges d cs (snapshot_of d loaded insert_log delete_log) base
          whole refl inserts deletes in
      (loaded, loads, e, es, runs, same)
