-- ===== src/Document/Ordered.antt =====
-- RemoteInsert where its neighbours stand in the list, in the one order or the other.
use mathlib.Core.List.Perm
use yata_collaborative_edito.Base.{
  ℕ, ◌≡◌, ◌≢◌, ◌∙◌, ap, none, List, [], ◌∷◌, ◌++◌, arith, last_of, lookup, ok, panic, false, true,
  ◌>>=◌, Run, Option, All-has, has,
}
use yata_collaborative_edito.Identifier.{ElementId, id_Eq}
use yata_collaborative_edito.Document.{Ptr, null, Document, DocumentError, element_at, RangeOrder}
use yata_collaborative_edito.Document.Update.{
  remote_insert, process_pending, pending_rounds, pending_round, process_pending_deletes,
  pending_deletes_loop,
}
use yata_collaborative_edito.Document.Valid.{
  nodes, IsValid, InUse, first_of, element_at-node, element_at-none,
}
use yata_collaborative_edito.Document.Linking.{has-last_of-nodes}
use yata_collaborative_edito.Document.Integration.{
  Integrated, integrate_insert-Integrated, right_has,
}
use yata_collaborative_edito.Document.Reversed.{integrate_insert_reversed}
use yata_collaborative_edito.Document.CatchingUp.{absent}
use yata_collaborative_edito.Document.Remote.{remote_insert_integrates}

module _ (ranges : RangeOrder) (d : Document) where
  nothing_waits :
      d.pending_inserts ≡ []
      → d.pending_deletes ≡ []
      → Path
          (Run (Document × Option DocumentError))
          (process_pending ranges d >>= λ d1.
            (process_pending_deletes ranges d1 >>= λ d2. ok (d2, none)))
          (ok (d, none))
  unfolding process_pending pending_rounds pending_round process_pending_deletes
      pending_deletes_loop
  nothing_waits i x =
      let inserts : ranges.order d.pending_inserts ≡ [] =
        ap ranges.order i ∙ Perm.eq-nil (ranges.order-perm []) in
      let deletes : ranges.order d.pending_deletes ≡ [] =
        ap ranges.order x ∙ Perm.eq-nil (ranges.order-perm []) in
      ground (arith, inserts, deletes)

node_present :
    {d : Document} {cs : List Ptr} (p : Ptr)
    → IsValid d cs
    → has p (nodes d cs) ≡ true
    → absent d (d.memory p).element_id ≡ false
node_present {d} {cs} p v h =
    ground (arith, element_at-node p v h, (All-has (InUse d) (nodes d cs) p v.in_use h).0)

-- Where nothing waits in a valid document, RemoteInsert of a new identifier with an origin and a
-- right neighbour in the list, the origin first, runs and returns no error, and what it leaves is
-- what integrateInsert leaves: the new element between the two, the rest as before.
pub remote_insert_ordered :
    (ranges : RangeOrder) {d : Document} (xs mid zs : List Ptr) (id : ElementId) (content : ℕ)
    → IsValid d (xs ++ (mid ++ zs))
    → lookup id d.elements_by_id ≡ none
    → d.pending_inserts ≡ []
    → d.pending_deletes ≡ []
    → (result : Integrated d xs mid zs id content) × (remote_insert ranges d id
          (d.memory (last_of d.start xs)).element_id
          (d.memory (first_of zs d.end)).element_id
          content
        ≡ ok (result.after, none))
remote_insert_ordered ranges {d} xs mid zs id content v unused i x =
    let result = integrate_insert-Integrated xs mid zs id content v unused in
    let origin_id = (d.memory (last_of d.start xs)).element_id in
    let right_id = (d.memory (first_of zs d.end)).element_id in
    let origin_there : absent d origin_id ≡ false =
      node_present (last_of d.start xs) v (has-last_of-nodes xs (mid ++ zs) v) in
    let right_there : absent d right_id ≡ false =
      node_present (first_of zs d.end) v (right_has xs mid zs v) in
    let rest = nothing_waits ranges result.after (result.keeps.0 ∙ i) (result.keeps.1 ∙ x) in
    (
      result,
      remote_insert_integrates ranges d id origin_id right_id content
            (ground (arith, element_at-none d id unused)) (ground arith)
          ∙ (ground (arith, result.runs, rest)),
    )

-- In a valid document, where an operation with a new identifier names an origin before the end of
-- the list and a right neighbour of the list that does not stand behind it, RemoteInsert panics.
pub remote_insert_reversed :
    (ranges : RangeOrder) {d : Document} (xs rest : List Ptr) (id right_id : ElementId)
    (content : ℕ)
    → IsValid d (xs ++ rest)
    → lookup id d.elements_by_id ≡ none
    → element_at d right_id ≢ null
    → has (element_at d right_id) (rest ++ d.end ∷ []) ≡ false
    → remote_insert ranges d id (d.memory (last_of d.start xs)).element_id right_id content ≡ panic
remote_insert_reversed ranges {d} xs rest id right_id content v unused present behind =
    let p = last_of d.start xs in
    let origin_id = (d.memory p).element_id in
    let named = has-last_of-nodes xs rest v in
    let origin_there : absent d origin_id ≡ false = node_present p v named in
    let run =
      integrate_insert_reversed id origin_id right_id content xs rest v (element_at-node p v named)
        present behind in
    remote_insert_integrates ranges d id origin_id right_id content
      (ground (arith, element_at-none d id unused)) (ground arith)
    ∙ ground (arith, run)
