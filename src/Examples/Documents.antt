-- ===== src/Examples/Documents.antt =====
-- The theorems on backend/internal/document at a new document and at one with a single element.
use yata_collaborative_edito.Base.{
  ℕ, ◌≡◌, ◌≢◌, refl, false, none, [], ◌∷◌, map, arith, pos, Text, text_eq, codes, eq_ℤ, lookup,
  insert, ok, panic,
}
use yata_collaborative_edito.Identifier.{ElementId, id_eq, id_Eq}
use yata_collaborative_edito.Protocol.Operations.{InsertOperation}
use yata_collaborative_edito.Document.{
  Document, Element, new_document, new_memory, new_element, write, set_left, set_right, start_id,
  end_id, start_ptr, end_ptr, raised, no_character,
}
use yata_collaborative_edito.Document.Traversal.{visible_content, traverse, encode_rune}
use yata_collaborative_edito.Document.Update.{register, link_memory, remote_delete, delete_element}
use yata_collaborative_edito.Document.Valid.{IsValid, visible, nodes}
use yata_collaborative_edito.Document.Linking.{placed, placed-IsValid}
use yata_collaborative_edito.Document.Reading.{new_document-IsValid, reads_valid}
use yata_collaborative_edito.Document.Insertion.{Inserted, insert_element-Inserted}
use yata_collaborative_edito.Document.Integration.{Integrated, integrate_insert-Integrated}
use yata_collaborative_edito.Document.Convergence.{Twice, cells, siblings_converge}
use yata_collaborative_edito.Document.Deletion.{
  Deleted, delete_element-Deleted, delete_element-above,
}
use yata_collaborative_edito.Document.RemoteDeletion.{
  RemoteDeleted, remote_delete-RemoteDeleted, remote_delete_start,
}

abbrev pub ana : Text
ana = codes "A"

abbrev blank : Document
blank = new_document ana

abbrev pub id_of : Text → ℕ → ElementId
id_of client clock = record { client_id = client; clock = pos clock }

abbrev pub bob_id : ElementId
bob_id = id_of (codes "B") 0

abbrev letter : Element
letter = record {
  element_id = bob_id;
  origin = start_ptr;
  left = start_ptr;
  right = end_ptr;
  is_deleted = false;
  content = b'b';
}

abbrev letter_operation : InsertOperation
letter_operation = record {
  new_id = bob_id;
  origin_id = start_id;
  right_id = end_id;
  content = b'b';
}

-- A document that shows "b".
abbrev pub written : Document
written = placed blank letter start_ptr end_ptr letter_operation

blank-IsValid : IsValid blank []
blank-IsValid = new_document-IsValid ana

unused : lookup bob_id blank.elements_by_id ≡ none
unfolding new_document lookup insert id_eq text_eq eq_ℤ
unused = refl

pub written-IsValid : IsValid written (3 ∷ [])
unfolding new_document
written-IsValid = placed-IsValid [] [] blank-IsValid letter letter_operation refl refl refl unused

reads_valid_example :
    (visible_content written ≡ ok (map encode_rune (visible written.memory (3 ∷ []))))
    × (traverse written ≡ ok (nodes written (3 ∷ [])))
reads_valid_example = reads_valid written-IsValid

pub ana_unused : lookup (id_of ana 0) written.elements_by_id ≡ none
unfolding new_document register lookup insert id_eq text_eq eq_ℤ
ana_unused = refl

pub letter_live : (written.memory 3).is_deleted ≡ false
unfolding new_document register link_memory write set_left set_right
letter_live = refl

insert_element-Inserted_example : Inserted written (3 ∷ []) 0 b'a'
unfolding register new_document
insert_element-Inserted_example =
    insert_element-Inserted 0 b'a' written-IsValid ana_unused (omega arith)

delete_element-Deleted_example : Deleted written (3 ∷ []) 0
unfolding new_document register link_memory write set_left set_right
delete_element-Deleted_example = delete_element-Deleted 0 written-IsValid (omega arith)

delete_element-above_example : delete_element written (pos 4) ≡ ok (written, raised no_character)
unfolding new_document register link_memory write set_left set_right
delete_element-above_example = delete_element-above 4 written-IsValid (omega arith)

remote_delete-RemoteDeleted_example : RemoteDeleted written [] 3 []
remote_delete-RemoteDeleted_example =
    remote_delete-RemoteDeleted [] 3 [] written-IsValid letter_live

abbrev pub erased : RemoteDeleted written [] 3 []
erased = remote_delete-RemoteDeleted [] 3 [] written-IsValid letter_live

start_live : (blank.memory blank.start).is_deleted ≡ false
unfolding new_document new_memory write set_left set_right new_element
start_live = refl

remote_delete_start_example :
    (after : Document) × (remote_delete blank start_id ≡ ok after) × (visible_content after ≡ panic)
remote_delete_start_example = remote_delete_start blank-IsValid start_live refl

integrate_insert-Integrated_example : Integrated written [] (3 ∷ []) [] (id_of ana 0) b'a'
unfolding register new_document
integrate_insert-Integrated_example =
    integrate_insert-Integrated [] (3 ∷ []) [] (id_of ana 0) b'a' written-IsValid ana_unused

abbrev pub carl : Text
carl = codes "C"

carl_unused : lookup (id_of carl 0) written.elements_by_id ≡ none
unfolding new_document register lookup insert id_eq text_eq eq_ℤ
carl_unused = refl

letter_origin : (written.memory 3).origin ≡ written.start
unfolding new_document register link_memory write set_left set_right
letter_origin = refl

names_differ : id_of ana 0 ≢ id_of carl 0
names_differ e = ground arith

siblings_converge_example :
    (a : Twice written [] (3 ∷ []) [] (id_of ana 0) (id_of carl 0) b'a' b'c') × (b : Twice written
      []
      (3 ∷ [])
      []
      (id_of carl 0)
      (id_of ana 0)
      b'c'
      b'a')
    × (cells a.after a.chain ≡ cells b.after b.chain)
unfolding register new_document
siblings_converge_example =
    siblings_converge [] (3 ∷ []) [] written-IsValid (letter_origin, tt) (id_of ana 0)
      (id_of carl 0) b'a' b'c' ana_unused carl_unused names_differ
