-- ===== src/Examples/Logs.antt =====
-- The theorems on the logs of a document in the storage, at a log of one insertion and one of one
-- deletion.
use yata_collaborative_edito.Base.{
  ℕ, Bool, true, false, ◌==◌, Option, none, some, [], ◌∷◌, ◌≡◌, ◌∙◌, refl, sym, ap, inl, inr, arith,
  pos, text_eq, codes, Map, lookup, insert, In,
}
use yata_collaborative_edito.Identifier.{ElementId, id_eq_iff, id_Eq}
use yata_collaborative_edito.Protocol.Messages.{Bytes}
use yata_collaborative_edito.Protocol.Operations.{
  InsertOperation, DeleteOperation, new_insert_operation, new_delete_operation,
}
use yata_collaborative_edito.Document.{Document, new_document, start_id, end_id}
use yata_collaborative_edito.Storage.{done, insert_log_key, delete_log_key}
use yata_collaborative_edito.Storage.Keys.{format_id, format_id_injective}
use yata_collaborative_edito.Storage.Serializing.{
  PersistedElement, PersistedInsertOperation, PersistedDeleteOperation, to_insert_operation,
  to_delete_operation, to_persisted_insert_operation, to_persisted_delete_operation,
}
use yata_collaborative_edito.Storage.Documents.{
  PersistedJson, in_bucket, put_value, save_operations, save_insert_operations,
  load_insert_operations, save_delete_operations, load_delete_operations,
}
use yata_collaborative_edito.Storage.LogRoundTrip.{
  insert_key, delete_key, InsertStored, DeleteStored, empty-InsertStored, empty-DeleteStored,
  insert_log_round_trip, delete_log_round_trip,
}
use yata_collaborative_edito.Examples.Codec.{take_id-put_id, silent, ◌>>=◌, put_id, take_id}
use yata_collaborative_edito.Examples.Buckets.{
  Tree, node, bare, grown, find, graft, forest, forest-laws,
}
use yata_collaborative_edito.Examples.Deltas.{
  put_insert, take_insert, take_insert-put_insert, put_delete, take_delete, take_delete-put_delete,
}

abbrev first_of : {A B : Type 0} → (A → B) → Option (A × Bytes) → Option B
first_of f none = none
first_of f (some (a, _)) = some (f a)

abbrev flag : Bool → ℕ
flag true = 1
flag false = 0

unfoldable pub put_element : PersistedElement → Bytes
put_element p =
    put_id p.element_id (
      put_id p.origin_id
        (put_id p.left_id (put_id p.right_id (flag p.is_deleted ∷ p.content ∷ []))))

abbrev last_two : Bytes → Option (Bool × ℕ)
last_two [] = none
last_two (f ∷ []) = none
last_two (f ∷ c ∷ _) = some (f == 1, c)

unfoldable pub take_element : Bytes → Option PersistedElement
take_element b = do
  (element_id, b1) ← take_id b
  (origin_id, b2) ← take_id b1
  (left_id, b3) ← take_id b2
  (right_id, b4) ← take_id b3
  (is_deleted, content) ← last_two b4
  some (record {
    element_id = element_id;
    origin_id = origin_id;
    left_id = left_id;
    right_id = right_id;
    is_deleted = is_deleted;
    content = content;
  })

flag-back : (b : Bool) → (flag b == 1) ≡ b
flag-back true = refl
flag-back false = refl

take_element-put_element : (p : PersistedElement) → take_element (put_element p) ≡ some p
unfolding take_element put_element
take_element-put_element p = simp (take_id-put_id, flag-back)

abbrev pub persisted : PersistedJson
persisted = record {
  metadata = silent;
  elements = record { marshal = λ p. some (put_element p); unmarshal = take_element };
  inserts = record {
    marshal = λ p. some (put_insert (to_insert_operation p) []);
    unmarshal = λ b. first_of to_persisted_insert_operation (take_insert b);
  };
  deletes = record {
    marshal = λ p. some (put_delete (to_delete_operation p) []);
    unmarshal = λ b. first_of to_persisted_delete_operation (take_delete b);
  };
}

pub elements_decode :
    (p : PersistedElement) (b : Bytes)
    → persisted.elements.marshal p ≡ some b
    → persisted.elements.unmarshal b ≡ some p
elements_decode p b e =
    let same : put_element p ≡ b = ground (arith, e) in
    ap take_element (sym same) ∙ take_element-put_element p

inserts_decode :
    (p : PersistedInsertOperation) (b : Bytes)
    → persisted.inserts.marshal p ≡ some b
    → persisted.inserts.unmarshal b ≡ some p
unfolding to_insert_operation to_persisted_insert_operation new_insert_operation
inserts_decode p b e =
    let same : put_insert (to_insert_operation p) [] ≡ b = ground (arith, e) in
    ap (λ x. first_of to_persisted_insert_operation (take_insert x)) (sym same)
    ∙ ap (first_of to_persisted_insert_operation)
        (take_insert-put_insert (to_insert_operation p) [])

deletes_decode :
    (p : PersistedDeleteOperation) (b : Bytes)
    → persisted.deletes.marshal p ≡ some b
    → persisted.deletes.unmarshal b ≡ some p
unfolding to_delete_operation to_persisted_delete_operation new_delete_operation
deletes_decode p b e =
    let same : put_delete (to_delete_operation p) [] ≡ b = ground (arith, e) in
    ap (λ x. first_of to_persisted_delete_operation (take_delete x)) (sym same)
    ∙ ap (first_of to_persisted_delete_operation)
        (take_delete-put_delete (to_delete_operation p) [])

abbrev ana_id : ElementId
ana_id = record { client_id = codes "ana"; clock = pos 12 }

abbrev typed : InsertOperation
typed = record { new_id = ana_id; origin_id = start_id; right_id = end_id; content = b'x' }

abbrev erased : DeleteOperation
erased = record { target_id = ana_id }

abbrev small : Document
small = record (new_document (codes "ana")) {
  insert_log = (ana_id, typed) ∷ [];
  delete_log = (ana_id, erased) ∷ [];
}

abbrev pub room : Tree
room = node [] (grown insert_log_key (node [] bare) (grown delete_log_key (node [] bare) bare))

abbrev insert_saved : Tree
insert_saved = node [] (
    grown insert_log_key (node ((format_id ana_id, put_insert typed []) ∷ []) bare)
      (grown delete_log_key (node [] bare) bare))

abbrev delete_saved : Tree
delete_saved = node [] (
    grown insert_log_key (node [] bare)
      (grown delete_log_key (node ((format_id ana_id, put_delete erased []) ∷ []) bare) bare))

nothing_stored : (k : Bytes) → forest.get (node [] bare) k ≡ none
unfolding lookup
nothing_stored k = refl

no_inserts :
    InsertStored forest forest-laws persisted inserts_decode deletes_decode
      (node [] bare)
      (λ _. none)
no_inserts =
    empty-InsertStored forest forest-laws persisted inserts_decode deletes_decode (node [] bare)
      nothing_stored

no_deletes :
    DeleteStored forest forest-laws persisted inserts_decode deletes_decode
      (node [] bare)
      (λ _. none)
no_deletes =
    empty-DeleteStored forest forest-laws persisted inserts_decode deletes_decode (node [] bare)
      nothing_stored

room_inserts : forest.bucket room insert_log_key ≡ some (node [] bare)
unfolding find text_eq
room_inserts = refl

room_deletes : forest.bucket room delete_log_key ≡ some (node [] bare)
unfolding find text_eq
room_deletes = refl

inserts_saved : save_insert_operations forest persisted room small ≡ done insert_saved
unfolding save_insert_operations in_bucket save_operations put_value find graft text_eq insert
    to_insert_operation to_persisted_insert_operation new_insert_operation new_document
inserts_saved = refl

deletes_saved : save_delete_operations forest persisted room small ≡ done delete_saved
unfolding save_delete_operations in_bucket save_operations put_value find graft text_eq insert
    to_delete_operation to_persisted_delete_operation new_delete_operation new_document
deletes_saved = refl

only_entry :
    {V : Type 0} (v w : V) (k : ElementId)
    → In {A = ElementId × V} (k, w) ((ana_id, v) ∷ [])
    → (ana_id ≡ k) × (v ≡ w)
only_entry {V} v w k (inl e) =
    (ap (λ (x : ElementId × V). x.0) e, ap (λ (x : ElementId × V). x.1) e)
only_entry v w k (inr i) = absurd i

one_entry :
    {V : Type 0} (v : V) (k : ElementId) (w : V)
    → In {A = ElementId × V} (k, w) ((ana_id, v) ∷ [])
    → lookup k ((ana_id, v) ∷ []) ≡ some w
unfolding lookup
one_entry v k w i =
    let (same, held) = only_entry v w k i in ground (arith, held, id_eq_iff ana_id k, same)

insert_log_round_trip_example :
    (log : Map ElementId InsertOperation) × (load_insert_operations forest persisted insert_saved
      ≡ done log)
    × ((id : ElementId)
        → lookup id log ≡ elim (lookup id small.insert_log) [ some op ↦ some op | none ↦ none ])
insert_log_round_trip_example =
    insert_log_round_trip forest forest-laws persisted inserts_decode deletes_decode room
      insert_saved (node [] bare) small (λ _. none) room_inserts no_inserts (one_entry typed)
      (λ k op i. let (same, held) = only_entry typed op k i in ap insert_key (sym held) ∙ same)
      inserts_saved

delete_log_round_trip_example :
    (log : Map ElementId DeleteOperation) × (load_delete_operations forest persisted delete_saved
      ≡ done log)
    × ((id : ElementId)
        → lookup id log ≡ elim (lookup id small.delete_log) [ some op ↦ some op | none ↦ none ])
delete_log_round_trip_example =
    delete_log_round_trip forest forest-laws persisted inserts_decode deletes_decode room
      delete_saved (node [] bare) small (λ _. none) room_deletes no_deletes (one_entry erased)
      (λ k op i. let (same, held) = only_entry erased op k i in ap delete_key (sym held) ∙ same)
      deletes_saved

format_id_injective_example : ana_id ≡ ana_id
format_id_injective_example = format_id_injective ana_id ana_id refl
