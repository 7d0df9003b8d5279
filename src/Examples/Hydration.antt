-- ===== src/Examples/Hydration.antt =====
-- The theorem on backend/internal/document/hydrate.go at a document that shows one letter.
use yata_collaborative_edito.Base.{
  true, none, some, List, [], ◌∷◌, ◌≡◌, refl, arith, codes, text_eq, eq_ℤ, lookup, insert, has, ok,
}
use yata_collaborative_edito.Identifier.{id_eq, id_Eq}
use yata_collaborative_edito.Document.{
  Ptr, Document, new_document, new_memory, new_element, write, set_left, set_right, start_id,
  end_id, zero_id,
}
use yata_collaborative_edito.Document.Update.{register, link_memory}
use yata_collaborative_edito.Document.Valid.{nodes}
use yata_collaborative_edito.Storage.{done}
use yata_collaborative_edito.Storage.Serializing.{to_persisted_element}
use yata_collaborative_edito.Storage.Documents.{
  LoadedElements, save_elements, save_elements_loop, load_elements, in_bucket, save_operations,
  put_value,
}
use yata_collaborative_edito.Hydration.{reconstruct_document}
use yata_collaborative_edito.Hydration.RoundTrip.{IsSameDocument}
use yata_collaborative_edito.Hydration.Saved.{snapshot_of, saved_document_restores}
use yata_collaborative_edito.Storage.Keys.{format_id}
use yata_collaborative_edito.Protocol.Messages.{Bytes}
use yata_collaborative_edito.Storage.{elements_key}
use yata_collaborative_edito.Storage.Walk.{entries_at, save_elements_ends}
use yata_collaborative_edito.Examples.Buckets.{
  Tree, node, bare, grown, forest, find, graft, forest-laws,
}
use yata_collaborative_edito.Examples.Logs.{persisted, elements_decode, put_element}
use yata_collaborative_edito.Examples.Remote.{kept}
use yata_collaborative_edito.Examples.Documents.{written, written-IsValid, bob_id}

zero_unused : lookup zero_id written.elements_by_id ≡ none
unfolding register new_document lookup insert id_eq text_eq eq_ℤ
zero_unused = refl

letter_rooted : has (written.memory 3).origin (nodes written (3 ∷ [])) ≡ true
unfolding register new_document link_memory write set_left set_right
letter_rooted = refl

-- A room with an empty bucket for the elements
abbrev elements_room : Tree
elements_room = node [] (grown elements_key (node [] bare) bare)

abbrev kept_as : Ptr → Bytes
kept_as p = put_element (to_persisted_element written.memory p)

abbrev saved_room : Tree
saved_room = node [] (
    grown elements_key
      (node
        ((format_id start_id, kept_as 1)
          ∷ (format_id bob_id, kept_as 3)
          ∷ (format_id end_id, kept_as 2)
          ∷ [])
        bare)
      bare)

elements_there : forest.bucket elements_room elements_key ≡ some (node [] bare)
unfolding find text_eq
elements_there = refl

nothing_there : (k : Bytes) → forest.get (node [] bare) k ≡ none
unfolding lookup
nothing_there k = refl

elements_saved : save_elements forest persisted elements_room written ≡ ok (done saved_room)
unfolding save_elements save_elements_loop in_bucket put_value find graft text_eq insert register
    new_document new_memory new_element link_memory write set_left set_right to_persisted_element
    format_id
elements_saved = refl

saved_document_restores_example :
    (loaded : LoadedElements) × (load_elements forest persisted saved_room new_memory 1
      ≡ done loaded)
    × (e : Document) × (es : List Ptr) × (reconstruct_document kept
          (new_document (codes "B"))
          (done (snapshot_of written loaded [] []))
        ≡ ok (e, none))
    × IsSameDocument written (3 ∷ []) e es
saved_document_restores_example =
    saved_document_restores forest forest-laws persisted elements_decode kept written (3 ∷ [])
      elements_room saved_room (node [] bare) new_memory 1 (new_document (codes "B")) [] []
      written-IsValid zero_unused (letter_rooted, tt) elements_there nothing_there elements_saved
      (omega arith) (λ k op i. absurd i) (λ k op i. absurd i)

save_elements_ends_example :
    save_elements forest persisted elements_room written
    ≡ ok (
        in_bucket forest elements_room elements_key (
          save_operations forest persisted.elements
            (λ e. e)
            (entries_at written.memory (nodes written (3 ∷ [])))))
save_elements_ends_example =
    save_elements_ends forest persisted elements_room written (3 ∷ []) written-IsValid
