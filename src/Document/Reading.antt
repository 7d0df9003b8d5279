-- ===== src/Document/Reading.antt =====
-- NewDocument, VisibleContent and Traverse.
use yata_collaborative_edito.Base.{
  ℕ, zero, suc, ◌<◌, ◌≡◌, refl, true, false, some, List, [], ◌∷◌, ◌++◌, map, arith, has, All-prefix,
  Distinct-apart, length, length-append, Text, text_eq, eq_ℤ, lookup, insert, ok,
}
use yata_collaborative_edito.Identifier.{ElementId, id_eq, id_eq_iff, id_Eq}
use yata_collaborative_edito.Document.{
  Ptr, Memory, Document, new_document, new_memory, new_element, write, set_left, set_right,
  start_id, end_id, start_ptr, end_ptr,
}
use yata_collaborative_edito.Document.Traversal.{
  visible_content, content_loop, encode_rune, traverse, traverse_loop,
}
use yata_collaborative_edito.Document.Chain.{Linked}
use yata_collaborative_edito.Document.Valid.{visible, nodes, IsValid}
use yata_collaborative_edito.Document.Positions.{NonNull, non_null, start_used}

new_known :
    (id : ElementId) (p : Ptr)
    → lookup id (insert end_id end_ptr (insert start_id start_ptr [])) ≡ some p
    → (has p (start_ptr ∷ end_ptr ∷ []) ≡ true) × ((new_memory p).element_id ≡ id)
unfolding new_memory lookup insert write set_left set_right new_element
new_known id p h = ground (arith, id_eq_iff start_id id, id_eq_iff end_id id)

-- A new document is valid and has no elements, whatever its client identifier.
pub new_document-IsValid : (uuid : Text) → IsValid (new_document uuid) []
unfolding new_document new_memory lookup insert write set_left set_right new_element id_eq text_eq
    eq_ℤ
new_document-IsValid uuid = record {
  linked = (refl, refl, refl);
  distinct = (refl, (refl, tt));
  in_use = (omega arith, (omega arith, tt));
  room = omega arith;
  end_live = refl;
  counter = refl;
  start_named = refl;
  end_named = refl;
  registered = (refl, (refl, tt));
  known = new_known;
}

module _ (m : Memory) (end : Ptr) where
  content_loop-visible :
      (a : Ptr) (cs : List Ptr) (fuel : ℕ)
      → Linked m a (cs ++ end ∷ [])
      → NonNull cs
      → has end cs ≡ false
      → length cs < fuel
      → content_loop m fuel end (m a).right ≡ ok (map encode_rune (visible m cs))
  unfolding content_loop
  content_loop-visible a cs zero s nn h small = absurd (omega arith)
  content_loop-visible a [] (suc fuel) s nn h small = ground arith
  content_loop-visible a (c ∷ cs) (suc fuel) s nn h small =
      ground (arith, content_loop-visible c cs fuel s.2 nn.1)

traverse_loop-nodes :
    (m : Memory) (a : Ptr) (cs : List Ptr) (fuel : ℕ)
    → Linked m a cs
    → NonNull (a ∷ cs)
    → suc (length cs) < fuel
    → traverse_loop m fuel a ≡ ok (a ∷ cs)
unfolding traverse_loop
traverse_loop-nodes m a cs zero s nn small = absurd (omega arith)
traverse_loop-nodes m a [] (suc zero) s nn small = absurd (omega arith)
traverse_loop-nodes m a [] (suc (suc fuel)) s nn small = ground arith
traverse_loop-nodes m a (c ∷ cs) (suc fuel) s nn small =
    ground (arith, traverse_loop-nodes m c cs fuel s.2 nn.1)

module _ {d : Document} {cs : List Ptr} (v : IsValid d cs) where
  -- On a valid document `VisibleContent` returns the contents of the elements that are not
  -- deleted, in the order of the list, and `Traverse` the whole list with both sentinels.
  pub reads_valid :
      (visible_content d ≡ ok (map encode_rune (visible d.memory cs)))
      × (traverse d ≡ ok (nodes d cs))
  unfolding visible_content traverse
  reads_valid = (
    ground (
      arith,
      v.counter,
      start_used v,
      content_loop-visible d.memory d.end d.start cs (suc d.allocated) v.linked
          (All-prefix (λ p. 0 < p) cs (d.end ∷ []) (non_null v))
          (Distinct-apart d.end cs [] v.distinct.1) (omega (arith, v.room)),
    ),
    traverse_loop-nodes d.memory d.start (cs ++ d.end ∷ []) (suc d.allocated) v.linked
        (start_used v, non_null v) (omega (arith, v.room, length-append cs (d.end ∷ []))),
  )
