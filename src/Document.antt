-- ===== src/Document.antt =====
-- backend/internal/document: element.go, buffer.go and the types and constructor of document.go.
-- Elements stand at addresses of a memory, nil is the address 0.
pub mod Traversal
pub mod Update
pub mod Chain
pub mod Valid
pub mod Positions
pub mod Linking
pub mod Insertion
pub mod Conflicts
pub mod Integration
pub mod Marking
pub mod Reading
pub mod Siblings
pub mod Convergence
pub mod Deletion
pub mod RemoteDeletion
pub mod Reversed
pub mod PendingOrder
pub mod Pending
pub mod Growth
pub mod CatchingUp
pub mod Delivery
pub mod Rounds
pub mod Sweep
pub mod Arrival
pub mod Remote
pub mod Ordered
use yata_collaborative_edito.Base.{
  ℕ, suc, Bool, true, false, Option, none, some, List, [], ◌∷◌, ◌≡◌, ◌==◌, if◌then◌else◌, ℤ, pos,
  negsuc, Text, codes, Map, lookup, insert, Run, ok, panic,
}
use yata_collaborative_edito.Identifier.{ElementId, new_id, id_Eq}
use yata_collaborative_edito.Protocol.Operations.{InsertOperation, DeleteOperation}
use mathlib.Core.List.{Perm}

abbrev pub Ptr : Type 0
Ptr = ℕ

abbrev pub null : Ptr
null = 0

-- type Element struct
pub record Element : Type 0 where
  pub element_id : ElementId
  pub origin : Ptr
  pub left : Ptr
  pub right : Ptr
  pub is_deleted : Bool
  pub content : ℕ

-- NewElement
unfoldable pub new_element : ElementId → (origin left right : Ptr) → ℕ → Element
new_element id origin left right content = record {
  element_id = id;
  origin = origin;
  left = left;
  right = right;
  is_deleted = false;
  content = content;
}

-- type PendingElement struct
pub record PendingElement : Type 0 where
  pub new_id : ElementId
  pub origin_id : ElementId
  pub right_id : ElementId
  pub content : ℕ

-- NewPending
unfoldable pub new_pending : ElementId → ElementId → ElementId → ℕ → PendingElement
new_pending id origin right content = record {
  new_id = id;
  origin_id = origin;
  right_id = right;
  content = content;
}

-- What stands at each address.
abbrev pub Memory : Type 0
Memory = Ptr → Element

unfoldable pub write : Memory → Ptr → Element → Memory
write m p e q = if q == p then e else m q

-- m.Left = p; m.Right = q; m.IsDeleted = true
unfoldable pub set_left : Memory → Ptr → Ptr → Memory
unfolding write
set_left m p q = write m p (record (m p) { left = q })

unfoldable pub set_right : Memory → Ptr → Ptr → Memory
unfolding write
set_right m p q = write m p (record (m p) { right = q })

unfoldable pub set_deleted : Memory → Ptr → Memory
unfolding write
set_deleted m p = write m p (record (m p) { is_deleted = true })

-- type Document struct, with the memory that its elements live in and the next free address
pub record Document : Type 0 where
  pub memory : Memory
  pub allocated : Ptr
  pub start : Ptr
  pub end : Ptr
  pub elements_by_id : Map ElementId Ptr
  pub character_counter : ℤ
  pub client_id : Text
  pub clock : ℤ
  pub pending_inserts : Map ElementId PendingElement
  pub pending_deletes : Map ElementId PendingElement
  pub insert_log : Map ElementId InsertOperation
  pub delete_log : Map ElementId DeleteOperation

-- The errors that the operations return; the comments quote their texts.
pub data DocumentError : Type 0 where
  -- "Inexisting position to insert character."
  inexisting_position : DocumentError
  -- "The character to delete does not exist."
  no_character : DocumentError
  -- "An unexpected error has occured."
  unexpected : DocumentError
  -- "The value was already inserted."
  already_inserted : DocumentError
  -- "Pending value."
  pending_value : DocumentError

pub data Result {ℓ} (A : Type ℓ) : Type ℓ where
  returned : A → Result A
  raised : DocumentError → Result A

-- startID and endID
abbrev pub start_id : ElementId
start_id = record { client_id = codes "START"; clock = negsuc 0 }

abbrev pub end_id : ElementId
end_id = record { client_id = codes "END"; clock = negsuc 1 }

-- The zero value identifier.ID{}
abbrev pub zero_id : ElementId
zero_id = record { client_id = []; clock = pos 0 }

-- d.ElementsByID[id], nil if there is none
unfoldable pub element_at : Document → ElementId → Ptr
element_at d id = elim (lookup id d.elements_by_id) [ none ↦ null | some p ↦ p ]

-- A field of a pointer: nil is a fault.
unfoldable pub deref : Memory → Ptr → Run Element
deref m p = if p == null then panic else ok (m p)

-- The addresses of the two sentinels of a new document.
abbrev pub start_ptr : Ptr
start_ptr = 1

abbrev pub end_ptr : Ptr
end_ptr = 2

unfoldable pub new_memory : Memory
unfolding write set_left set_right new_element
new_memory =
    let blank = new_element zero_id null null null 0 in
    let start = write (λ _. blank) start_ptr (new_element start_id null null null 0) in
    let both = write start end_ptr (new_element end_id null null null 0) in
    set_left (set_right both start_ptr end_ptr) end_ptr start_ptr

-- NewDocument; `uuid` is what generateUUID returns
unfoldable pub new_document : Text → Document
new_document uuid = record {
  memory = new_memory;
  allocated = 3;
  start = start_ptr;
  end = end_ptr;
  elements_by_id = insert end_id end_ptr (insert start_id start_ptr []);
  character_counter = pos 0;
  client_id = uuid;
  clock = pos 0;
  pending_inserts = [];
  pending_deletes = [];
  insert_log = [];
  delete_log = [];
}

-- The order in which `range` visits a map of pending elements: the runtime's choice.
pub record RangeOrder : Type 0 where
  pub order : Map ElementId PendingElement → Map ElementId PendingElement
  pub order-perm : (m : Map ElementId PendingElement) → Perm (order m) m
