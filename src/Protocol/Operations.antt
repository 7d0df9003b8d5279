-- ===== src/Protocol/Operations.antt =====
-- backend/internal/protocol/operations.go and delta.go.
use yata_collaborative_edito.Base.{ℕ, List}
use yata_collaborative_edito.Identifier.{ElementId}

-- type InsertOperation struct
pub record InsertOperation : Type 0 where
  pub new_id : ElementId
  pub origin_id : ElementId
  pub right_id : ElementId
  pub content : ℕ

-- type DeleteOperation struct
pub record DeleteOperation : Type 0 where
  pub target_id : ElementId

-- NewInsertOperation
unfoldable pub new_insert_operation : ElementId → ElementId → ElementId → ℕ → InsertOperation
new_insert_operation new_id origin_id right_id content = record {
  new_id = new_id;
  origin_id = origin_id;
  right_id = right_id;
  content = content;
}

-- NewDeleteOperation
unfoldable pub new_delete_operation : ElementId → DeleteOperation
new_delete_operation target_id = record { target_id = target_id }

-- type Delta struct. The source has slices of pointers; a nil among them, which a null in JSON
-- gives and IntegrateDelta follows, is outside the model.
pub record Delta : Type 0 where
  pub inserts : List InsertOperation
  pub deletes : List DeleteOperation
