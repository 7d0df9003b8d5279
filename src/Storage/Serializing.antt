-- ===== src/Storage/Serializing.antt =====
-- backend/internal/storage/serializer.go and backend/internal/persistence/model.go: what is kept of
-- an element, of a document and of an operation.
use yata_collaborative_edito.Base.{ℕ, Bool, if◌then◌else◌, ◌==◌, ℤ, Text}
use yata_collaborative_edito.Identifier.{ElementId}
use yata_collaborative_edito.Protocol.Operations.{
  InsertOperation, DeleteOperation, new_insert_operation, new_delete_operation,
}
use yata_collaborative_edito.Document.{
  Ptr, null, Element, new_element, Memory, Document, new_document, zero_id,
}

-- type PersistedElement struct
pub record PersistedElement : Type 0 where
  pub element_id : ElementId
  pub origin_id : ElementId
  pub left_id : ElementId
  pub right_id : ElementId
  pub is_deleted : Bool
  pub content : ℕ

-- type PersistedMetadata struct
pub record PersistedMetadata : Type 0 where
  pub client_id : Text
  pub clock : ℤ
  pub character_counter : ℤ

-- type PersistedInsertOperation struct
pub record PersistedInsertOperation : Type 0 where
  pub new_id : ElementId
  pub origin_id : ElementId
  pub right_id : ElementId
  pub content : ℕ

-- type PersistedDeleteOperation struct
pub record PersistedDeleteOperation : Type 0 where
  pub target_id : ElementId

-- The identifier of the element that is pointed to, or the zero value
unfoldable pub id_of : Memory → Ptr → ElementId
id_of m p = if p == null then zero_id else (m p).element_id

-- ToPersistedElement
unfoldable pub to_persisted_element : Memory → Ptr → PersistedElement
unfolding id_of
to_persisted_element m p = record {
  element_id = (m p).element_id;
  origin_id = id_of m (m p).origin;
  left_id = id_of m (m p).left;
  right_id = id_of m (m p).right;
  is_deleted = (m p).is_deleted;
  content = (m p).content;
}

-- ToElement
unfoldable pub to_element : PersistedElement → Element
unfolding new_element
to_element persisted = record (new_element persisted.element_id null null null persisted.content) {
  is_deleted = persisted.is_deleted;
}

-- ToPersistedMetadata
unfoldable pub to_persisted_metadata : Document → PersistedMetadata
to_persisted_metadata d = record {
  client_id = d.client_id;
  clock = d.clock;
  character_counter = d.character_counter;
}

-- ToMetadata, where `uuid` is what generateUUID returns for the new document
unfoldable pub to_metadata : Text → PersistedMetadata → Document
unfolding new_document
to_metadata uuid persisted = record (new_document uuid) {
  client_id = persisted.client_id;
  character_counter = persisted.character_counter;
  clock = persisted.clock;
}

-- ToPersistedInsertOperation
unfoldable pub to_persisted_insert_operation : InsertOperation → PersistedInsertOperation
to_persisted_insert_operation op = record {
  new_id = op.new_id;
  origin_id = op.origin_id;
  right_id = op.right_id;
  content = op.content;
}

-- ToInsertOperation
unfoldable pub to_insert_operation : PersistedInsertOperation → InsertOperation
unfolding new_insert_operation
to_insert_operation p = new_insert_operation p.new_id p.origin_id p.right_id p.content

-- ToPersistedDeleteOperation
unfoldable pub to_persisted_delete_operation : DeleteOperation → PersistedDeleteOperation
to_persisted_delete_operation op = record { target_id = op.target_id }

-- ToDeleteOperation
unfoldable pub to_delete_operation : PersistedDeleteOperation → DeleteOperation
unfolding new_delete_operation
to_delete_operation p = new_delete_operation p.target_id
