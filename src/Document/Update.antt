-- ===== src/Document/Update.antt =====
-- backend/internal/document/document.go: the operations that change a document, and the two
-- loops over the pending elements of traversal.go. A run gives the document that is left and the
-- error that the method returns, if any.
use yata_collaborative_edito.Base.{
  ℕ, zero, suc, Bool, true, false, ◌||◌, not, ◌&&◌, Option, none, some, List, [], ◌∷◌, ◌==◌,
  if◌then◌else◌, ℤ, pos, ◌+ℤ◌, ◌-ℤ◌, Map, insert, delete, length, Run, ok, panic, out_of_fuel,
  ◌>>=◌,
}
use yata_collaborative_edito.Identifier.{ElementId, new_id, id_Eq}
use yata_collaborative_edito.Protocol.Operations.{
  InsertOperation, DeleteOperation, Delta, new_insert_operation, new_delete_operation,
}
use yata_collaborative_edito.Document.{
  Ptr, null, Element, new_element, PendingElement, new_pending, Memory, write, set_left, set_right,
  set_deleted, Document, DocumentError, already_inserted, pending_value, Result, returned, raised,
  zero_id, element_at, deref, RangeOrder,
}
use yata_collaborative_edito.Document.Traversal.{
  find_visible_position, find_visible_element, find_insertion_point,
}

-- generateElementID
unfoldable pub generate_element_id : Document → Document × ElementId
unfolding new_id
generate_element_id d = (record d { clock = d.clock +ℤ pos 1 }, new_id d.client_id d.clock)

-- The new element at `p`, then left.Right = p and right.Left = p.
unfoldable pub link_memory : Memory → Ptr → Element → (left right : Ptr) → Memory
unfolding write set_left set_right
link_memory m p element left right = set_left (set_right (write m p element) left p) right p

unfoldable pub link : Document → Element → (left right : Ptr) → Run Document
link d element left right =
    if left == null || (right == null)
    then panic
    else ok (record d {
      memory = link_memory d.memory d.allocated element left right;
      allocated = suc d.allocated;
    })

-- The map, the log and the counter after an element has been linked in at `p`.
unfoldable pub register : Document → Ptr → ElementId → InsertOperation → Document
register d p id operation = record d {
  elements_by_id = insert id p d.elements_by_id;
  insert_log = insert id operation d.insert_log;
  character_counter = d.character_counter +ℤ pos 1;
}

unfoldable pub insert_between :
    Document → (previous next : Ptr) → ℕ → Run (Document × Result ElementId)
unfolding generate_element_id new_element new_insert_operation deref
insert_between d previous next character =
    let (d', id) = generate_element_id d in
    do
      linked ← link d' (new_element id previous previous next character) previous next
      previous_element ← deref linked.memory previous
      next_element ← deref linked.memory next
      ok (
        register linked d'.allocated id
            (new_insert_operation id previous_element.element_id next_element.element_id character),
        returned id,
      )

-- InsertElement
unfoldable pub insert_element : Document → ℤ → ℕ → Run (Document × Result ElementId)
insert_element d index character = do
  found ← find_visible_position d index
  elim found [
    | raised e ↦ ok (d, raised e)
    | returned (previous, next) ↦ insert_between d previous next character
  ]

-- integrateInsert
unfoldable pub integrate_insert :
    Document → (new_id origin_id right_id : ElementId) → ℕ → Run Document
unfolding new_element new_insert_operation
integrate_insert d new_id origin_id right_id content = do
  (left, right) ← find_insertion_point d origin_id right_id new_id
  linked ← link d (new_element new_id (element_at d origin_id) left right content) left right
  ok (register linked d.allocated new_id (new_insert_operation new_id origin_id right_id content))

-- integrateDeletion
unfoldable pub integrate_deletion : Document → ElementId → Run Document
unfolding new_delete_operation deref
integrate_deletion d element_id = do
  element ← deref d.memory (element_at d element_id)
  ok (record d {
    memory = set_deleted d.memory (element_at d element_id);
    character_counter = d.character_counter -ℤ pos 1;
    delete_log = insert element.element_id (new_delete_operation element.element_id) d.delete_log;
  })

-- One round of processPending: `for _, v := range d.PendingInserts`.
unfoldable pub pending_round :
    Document → Bool → Map ElementId PendingElement → Run (Document × Bool)
pending_round d progress [] = ok (d, progress)
pending_round d progress ((_, v) ∷ rest) =
    let skipped = pending_round d progress rest in
    if not (element_at d v.origin_id == null) && not (element_at d v.right_id == null)
    then (do
      integrated ← integrate_insert d v.new_id v.origin_id v.right_id v.content
      pending_round
          (record integrated { pending_inserts = delete v.new_id integrated.pending_inserts }) true
          rest)
    else skipped

-- The rounds of processPending.
unfoldable pub pending_rounds : RangeOrder → ℕ → Document → Run Document
pending_rounds ranges zero d = out_of_fuel
pending_rounds ranges (suc fuel) d = do
  (d', progress) ← pending_round d false (ranges.order d.pending_inserts)
  let again = pending_rounds ranges fuel d'
  if progress then again else ok d'

-- processPending
unfoldable pub process_pending : RangeOrder → Document → Run Document
process_pending ranges d = pending_rounds ranges (suc (length d.pending_inserts)) d

-- The loop of processPendingDeletes.
unfoldable pub pending_deletes_loop : Document → Map ElementId PendingElement → Run Document
pending_deletes_loop d [] = ok d
pending_deletes_loop d ((_, v) ∷ rest) =
    let skipped = pending_deletes_loop d rest in
    if not (element_at d v.new_id == null)
    then (do
      integrated ← integrate_deletion d v.new_id
      pending_deletes_loop
          (record integrated { pending_deletes = delete v.new_id integrated.pending_deletes }) rest)
    else skipped

-- processPendingDeletes
unfoldable pub process_pending_deletes : RangeOrder → Document → Run Document
process_pending_deletes ranges d = pending_deletes_loop d (ranges.order d.pending_deletes)

-- RemoteInsert
unfoldable pub remote_insert :
    RangeOrder
    → Document
    → (new_id origin_id right_id : ElementId) → ℕ
    → Run (Document × Option DocumentError)
unfolding new_pending new_insert_operation
remote_insert ranges d new_id origin_id right_id content =
    if not (element_at d new_id == null)
    then ok (d, some already_inserted)
    else if (element_at d origin_id == null) || (element_at d right_id == null)
    then ok (
      record d {
        pending_inserts =
            insert new_id (new_pending new_id origin_id right_id content) d.pending_inserts;
        insert_log =
            insert new_id (new_insert_operation new_id origin_id right_id content) d.insert_log;
      },
      some pending_value,
    )
    else (do
      integrated ← integrate_insert d new_id origin_id right_id content
      settled ← process_pending ranges integrated
      deleted ← process_pending_deletes ranges settled
      ok (deleted, none))

-- Delete
unfoldable pub delete_element : Document → ℤ → Run (Document × Result ElementId)
unfolding new_delete_operation deref
delete_element d index = do
  found ← find_visible_element d index
  elim found [
    | raised e ↦ ok (d, raised e)
    | returned p ↦ (do
      element ← deref d.memory p
      ok (
        record d {
          memory = set_deleted d.memory p;
          character_counter = d.character_counter -ℤ pos 1;
          delete_log =
              insert element.element_id (new_delete_operation element.element_id) d.delete_log;
        },
        returned element.element_id,
      ))
  ]

-- RemoteDelete; the error that it returns is always nil
unfoldable pub remote_delete : Document → ElementId → Run Document
unfolding new_pending new_delete_operation
remote_delete d element_id =
    if element_at d element_id == null
    then ok (record d {
      pending_deletes =
          insert element_id (new_pending element_id zero_id zero_id 0) d.pending_deletes;
      delete_log = insert element_id (new_delete_operation element_id) d.delete_log;
    })
    else if (d.memory (element_at d element_id)).is_deleted
    then ok d
    else integrate_deletion d element_id

unfoldable pub delta_inserts :
    RangeOrder → Document → List InsertOperation → Run (Document × Option DocumentError)
delta_inserts ranges d [] = ok (d, none)
delta_inserts ranges d (v ∷ rest) = do
  (d', e) ← remote_insert ranges d v.new_id v.origin_id v.right_id v.content
  let further = delta_inserts ranges d' rest
  elim e [
    | none ↦ further
    | some pending_value ↦ further
    | some already_inserted ↦ further
    | some other ↦ ok (d', some other)
  ]

unfoldable pub delta_deletes : Document → List DeleteOperation → Run Document
delta_deletes d [] = ok d
delta_deletes d (v ∷ rest) = do d' ← remote_delete d v.target_id; delta_deletes d' rest

-- IntegrateDelta
unfoldable pub integrate_delta :
    RangeOrder → Document → Delta → Run (Document × Option DocumentError)
integrate_delta ranges d delta = do
  (d', e) ← delta_inserts ranges d delta.inserts
  elim e [
    | some e' ↦ ok (d', some e')
    | none ↦ (do d'' ← delta_deletes d' delta.deletes; ok (d'', none))
  ]
