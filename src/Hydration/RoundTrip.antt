-- ===== src/Hydration/RoundTrip.antt =====
-- ReconstructDocument of what a valid document has saved: the same document again.
use yata_collaborative_edito.Base.{
  true, none, is_some, List, [], ◌∷◌, map, ==_iff, ◌≡◌, ◌∙◌, refl, sym, ap, inl, inr, arith, Map,
  lookup, In, Option-cases, ok,
}
use yata_collaborative_edito.Identifier.{ElementId, id_Eq}
use yata_collaborative_edito.Protocol.Operations.{InsertOperation, DeleteOperation}
use yata_collaborative_edito.Document.{Ptr, null, Document, RangeOrder}
use yata_collaborative_edito.Document.Valid.{IsValid, cell}
use yata_collaborative_edito.Storage.{done}
use yata_collaborative_edito.Storage.Serializing.{to_persisted_metadata}
use yata_collaborative_edito.Storage.Documents.{LoadedElements, LoadedSnapshot}
use yata_collaborative_edito.Hydration.{
  set_data, settle, pending_inserts_of, pending_deletes_of, reconstruct_pending_inserts,
  reconstruct_pending_deletes, reconstruct_document,
}
use yata_collaborative_edito.Hydration.Relations.{rebuild_relations-IsRestored}
use yata_collaborative_edito.Hydration.Restored.{copy-not_null, IsSaved, entry_of}
use yata_collaborative_edito.Hydration.Neighbours.{back, loaded-IsProper, cells-back}
use mathlib.Core.List.Perm
use yata_collaborative_edito.Document.CatchingUp.{waiting-IsValid}
use yata_collaborative_edito.Document.Update.{
  process_pending, pending_rounds, pending_round, process_pending_deletes, pending_deletes_loop,
}
use yata_collaborative_edito.Hydration.Placed.{
  placed-IsValid, start_placed, end_placed, start_in, end_in, inside,
}

-- Operations on elements that are there do not wait.
pending_inserts_of-none :
    (by_id : Map ElementId Ptr) (log : Map ElementId InsertOperation)
    → ((k : ElementId) (op : InsertOperation) → In (k, op) log → is_some (lookup k by_id) ≡ true)
    → pending_inserts_of by_id log ≡ []
unfolding pending_inserts_of
pending_inserts_of-none by_id [] known = refl
pending_inserts_of-none by_id ((k, op) ∷ rest) known =
    ground (
      arith,
      known k op (inl refl),
      pending_inserts_of-none by_id rest (λ j v i. known j v (inr i)),
    )

pending_deletes_of-none :
    (by_id : Map ElementId Ptr) (log : Map ElementId DeleteOperation)
    → ((k : ElementId) (op : DeleteOperation) → In (k, op) log → is_some (lookup k by_id) ≡ true)
    → pending_deletes_of by_id log ≡ []
unfolding pending_deletes_of
pending_deletes_of-none by_id [] known = refl
pending_deletes_of-none by_id ((k, op) ∷ rest) known =
    ground (
      arith,
      known k op (inl refl),
      pending_deletes_of-none by_id rest (λ j v i. known j v (inr i)),
    )

process_pending-none :
    (ranges : RangeOrder) (d : Document) → d.pending_inserts ≡ [] → process_pending ranges d ≡ ok d
unfolding process_pending pending_rounds pending_round
process_pending-none ranges d i =
    let order : ranges.order d.pending_inserts ≡ [] =
      ap ranges.order i ∙ Perm.eq-nil (ranges.order-perm []) in
    ground (arith, order)

process_pending_deletes-none :
    (ranges : RangeOrder) (d : Document)
    → d.pending_deletes ≡ []
    → process_pending_deletes ranges d ≡ ok d
unfolding process_pending_deletes pending_deletes_loop
process_pending_deletes-none ranges d i =
    let order : ranges.order d.pending_deletes ≡ [] =
      ap ranges.order i ∙ Perm.eq-nil (ranges.order-perm []) in
    ground (arith, order)

-- The elements of the document have been loaded.
loaded_too :
    (d : Document) (cs : List Ptr) (loaded : LoadedElements) (k : ElementId)
    → IsSaved d cs loaded
    → is_some (lookup k d.elements_by_id) ≡ true
    → is_some (lookup k loaded.by_id) ≡ true
loaded_too d cs loaded k saved h = elim (Option-cases (lookup k d.elements_by_id)) [
  | inl e ↦ absurd (ground (arith, h, e))
  | inr (p, e) ↦
      let (there, named) = saved.valid.known k p e in
      ap (λ x. is_some (lookup x loaded.by_id)) (sym named) ∙ saved.image.placed p there
]

-- A document that has been restored: what it shares with the one that was saved.
pub record IsSameDocument (d : Document) (cs : List Ptr) (e : Document) (es : List Ptr)
    : Type 0 where
  pub valid : IsValid e es
  pub cells : map (cell e.memory) es ≡ map (cell d.memory) cs
  pub client_id : e.client_id ≡ d.client_id
  pub clock : e.clock ≡ d.clock
  pub no_inserts : e.pending_inserts ≡ []
  pub no_deletes : e.pending_deletes ≡ []

-- A valid document in which each origin is in the list and no identifier is the zero value has been
-- saved, and each operation of the loaded logs is on one of its elements. ReconstructDocument of
-- what LoadElements gives of it runs, returns no error, and leaves a valid document with the same
-- elements in the same order, with their contents and deletions, the same client and clock, and
-- nothing that waits, whatever document it is called on.
pub reconstruct_document_restores :
    (ranges : RangeOrder) (d : Document) (cs : List Ptr) (s : LoadedSnapshot) (base : Document)
    → IsSaved d cs s.elements
    → s.metadata ≡ to_persisted_metadata d
    → ((k : ElementId) (op : InsertOperation)
        → In (k, op) s.insert_log
        → is_some (lookup k d.elements_by_id) ≡ true)
    → ((k : ElementId) (op : DeleteOperation)
        → In (k, op) s.delete_log
        → is_some (lookup k d.elements_by_id) ≡ true)
    → (e : Document) × (es : List Ptr) × (reconstruct_document ranges base (done s) ≡ ok (e, none))
      × IsSameDocument d cs e es
unfolding reconstruct_document settle reconstruct_pending_inserts reconstruct_pending_deletes
    set_data to_persisted_metadata
reconstruct_document_restores ranges d cs s base saved metadata inserts deletes =
    let (m', restored) =
      rebuild_relations-IsRestored s.elements.persisted s.elements.by_id (entry_of s.elements)
        s.elements.by_id s.elements.memory (loaded-IsProper d cs s.elements saved) in
    let a = set_data base s m' in
    let e = reconstruct_pending_deletes (reconstruct_pending_inserts a) in
    let no_inserts : e.pending_inserts ≡ [] =
      pending_inserts_of-none s.elements.by_id s.insert_log
        (λ k op i. loaded_too d cs s.elements k saved (inserts k op i)) in
    let no_deletes : e.pending_deletes ≡ [] =
      pending_deletes_of-none s.elements.by_id s.delete_log
        (λ k op i. loaded_too d cs s.elements k saved (deletes k op i)) in
    let start_there =
      copy-not_null d cs s.elements saved d.start
        (start_in d cs s saved metadata base m' restored) in
    let end_there =
      copy-not_null d cs s.elements saved d.end (end_in d cs s saved metadata base m' restored) in
    (
      e,
      map (back d cs s.elements saved) cs,
      ground (
        arith,
        restored.run,
        process_pending-none ranges e no_inserts,
        process_pending_deletes-none ranges e no_deletes,
        start_placed d cs s saved metadata base m' restored,
        end_placed d cs s saved metadata base m' restored,
        ==_iff a.start null,
        ==_iff a.end null,
        start_there,
        end_there,
      ),
      record {
        valid =
            waiting-IsValid e.pending_inserts e.pending_deletes
              (placed-IsValid d cs s saved metadata base m' restored);
        cells =
            cells-back d cs s.elements saved m' restored cs
              (inside d cs s saved metadata base m' restored);
        client_id = ap (λ x. x.client_id) metadata;
        clock = ap (λ x. x.clock) metadata;
        no_inserts = no_inserts;
        no_deletes = no_deletes;
      },
    )
