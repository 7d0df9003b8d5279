-- ===== src/Hydration.antt =====
-- backend/internal/document/hydrate.go: a document from what LoadSnapshot returns.
pub mod Relations
pub mod Restored
pub mod Image
pub mod Neighbours
pub mod Counting
pub mod Placed
pub mod RoundTrip
pub mod Saved
use yata_collaborative_edito.Base.{
  Bool, true, false, not, ◌&&◌, ◌||◌, Option, none, some, is_some, List, [], ◌∷◌, ◌==◌,
  if◌then◌else◌, Text, codes, text_eq, Map, lookup, insert, Run, ok, ◌>>=◌,
}
use yata_collaborative_edito.Identifier.{ElementId, id_Eq}
use yata_collaborative_edito.Protocol.Operations.{InsertOperation, DeleteOperation}
use yata_collaborative_edito.Document.{
  Ptr, null, Element, Memory, write, PendingElement, new_pending, Document, RangeOrder, start_id,
  end_id, zero_id,
}
use yata_collaborative_edito.Document.Update.{process_pending, process_pending_deletes}
use yata_collaborative_edito.Storage.{StorageError, Stored, done, failed}
use yata_collaborative_edito.Storage.Serializing.{PersistedElement}
use yata_collaborative_edito.Storage.Documents.{LoadedElements, LoadedSnapshot}

pub data HydrationError : Type 0 where
  -- an error of LoadSnapshot
  not_loaded : StorageError → HydrationError
  -- "No existing key."
  no_existing_key : HydrationError
  -- "Start or End are null value."
  no_sentinel : HydrationError

pub data Rebuilt (A : Type 0) : Type 0 where
  rebuilt : A → Rebuilt A
  raised : HydrationError → Rebuilt A

-- elementsBydIds[id], nil if there is none
unfoldable pub pointer_to : Map ElementId Ptr → ElementId → Ptr
pointer_to by_id id = elim (lookup id by_id) [ none ↦ null | some p ↦ p ]

unfoldable pub is_sentinel_client : Text → Bool
is_sentinel_client client = text_eq client (codes "START") || text_eq client (codes "END")

-- The three pointers of an element
unfoldable pub relate : Memory → Ptr → (origin left right : Ptr) → Memory
unfolding write
relate m p origin left right =
    write m p (record (m p) { origin = origin; left = left; right = right })

-- What RebuildRelations does with one element
unfoldable pub rebuild_one :
    Map ElementId PersistedElement → Map ElementId Ptr → ElementId → Ptr → Memory → Rebuilt Memory
unfolding pointer_to relate
rebuild_one persisted by_id k p m = elim (lookup k persisted) [
  | none ↦ raised no_existing_key
  | some e ↦
      let origin = pointer_to by_id e.origin_id in
      let left = pointer_to by_id e.left_id in
      let right = pointer_to by_id e.right_id in
      if is_sentinel_client k.client_id
      then rebuilt (relate m p null left right)
      else if (origin == null) || (left == null) || (right == null)
      then raised no_existing_key
      else rebuilt (relate m p origin left right)
]

-- RebuildRelations
unfoldable pub rebuild_relations :
    Map ElementId PersistedElement
    → (by_id : Map ElementId Ptr) → (rest : Map ElementId Ptr) → Memory
    → Rebuilt Memory
unfolding rebuild_one
rebuild_relations persisted by_id [] m = rebuilt m
rebuild_relations persisted by_id ((k, p) ∷ rest) m = elim (rebuild_one persisted by_id k p m) [
  | raised e ↦ raised e
  | rebuilt m' ↦ rebuild_relations persisted by_id rest m'
]

-- The loop of ReconstructPendingInserts
unfoldable pub pending_inserts_of :
    Map ElementId Ptr → Map ElementId InsertOperation → Map ElementId PendingElement
unfolding new_pending
pending_inserts_of by_id [] = []
pending_inserts_of by_id ((k, v) ∷ rest) =
    let others = pending_inserts_of by_id rest in
    if is_some (lookup k by_id)
    then others
    else insert k (new_pending k v.origin_id v.right_id v.content) others

-- The loop of ReconstructPendingDeletes
unfoldable pub pending_deletes_of :
    Map ElementId Ptr → Map ElementId DeleteOperation → Map ElementId PendingElement
unfolding new_pending
pending_deletes_of by_id [] = []
pending_deletes_of by_id ((k, _) ∷ rest) =
    let others = pending_deletes_of by_id rest in
    if is_some (lookup k by_id) then others else insert k (new_pending k zero_id zero_id 0) others

-- ReconstructPendingInserts
unfoldable pub reconstruct_pending_inserts : Document → Document
reconstruct_pending_inserts d = record d {
  pending_inserts = pending_inserts_of d.elements_by_id d.insert_log;
}

-- ReconstructPendingDeletes
unfoldable pub reconstruct_pending_deletes : Document → Document
reconstruct_pending_deletes d = record d {
  pending_deletes = pending_deletes_of d.elements_by_id d.delete_log;
}

-- The fields that ReconstructDocument sets, with the memory of the rebuilt elements
unfoldable pub set_data : Document → LoadedSnapshot → Memory → Document
unfolding pointer_to
set_data d s m = record d {
  memory = m;
  allocated = s.elements.allocated;
  start = pointer_to s.elements.by_id start_id;
  end = pointer_to s.elements.by_id end_id;
  client_id = s.metadata.client_id;
  clock = s.metadata.clock;
  character_counter = s.metadata.character_counter;
  elements_by_id = s.elements.by_id;
  insert_log = s.insert_log;
  delete_log = s.delete_log;
}

-- ReconstructDocument after the data is set
unfoldable pub settle : RangeOrder → Document → Run (Document × Option HydrationError)
settle ranges d = do
  inserted ← process_pending ranges (reconstruct_pending_deletes (reconstruct_pending_inserts d))
  deleted ← process_pending_deletes ranges inserted
  ok (deleted, if (deleted.start == null) || (deleted.end == null) then some no_sentinel else none)

-- ReconstructDocument; the argument is what LoadSnapshot returns
unfoldable pub reconstruct_document :
    RangeOrder → Document → Stored LoadedSnapshot → Run (Document × Option HydrationError)
unfolding rebuild_relations
reconstruct_document ranges d (failed e) = ok (d, some (not_loaded e))
reconstruct_document ranges d (done s) =
    elim (rebuild_relations s.elements.persisted s.elements.by_id s.elements.by_id
      s.elements.memory) [ raised e ↦ ok (d, some e) | rebuilt m ↦ settle ranges (set_data d s m) ]
