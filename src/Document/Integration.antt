-- ===== src/Document/Integration.antt =====
-- integrateInsert: where a remote insertion goes, and what it leaves.
use mathlib.Core.Path.{subst, ap₂}
use mathlib.Core.List.{append_assoc}
use yata_collaborative_edito.Base.{
  ℕ, suc, ◌<◌, ◌≡◌, ◌∙◌, refl, sym, ap, true, none, false, List, [], ◌∷◌, ◌++◌, arith, has,
  Distinct, Distinct-suffix, Distinct-apart, All-prefix, All-suffix, last_of, last_of-append,
  length-append, lookup, insert, ok,
}
use yata_collaborative_edito.Identifier.{ElementId, id_Eq}
use yata_collaborative_edito.Protocol.Operations.{InsertOperation}
use yata_collaborative_edito.Document.{Ptr, Element, Document, element_at}
use yata_collaborative_edito.Document.Traversal.{conflict_zone, find_insertion_point}
use yata_collaborative_edito.Document.Update.{integrate_insert, register}
use yata_collaborative_edito.Document.Chain.{Linked}
use yata_collaborative_edito.Document.Valid.{
  cell, visible, nodes, IsValid, first_of, behind, first_of-behind, first_of-append,
  element_at-node,
}
use yata_collaborative_edito.Document.Positions.{NonNull, non_null}
use yata_collaborative_edito.Document.Linking.{
  link-ok, placed, placed-IsValid, placed-visible, left_used, has-last_of-nodes, has-first_of-nodes,
  old_cell, new_cell,
}
use yata_collaborative_edito.Document.Conflicts.{
  Linked-suffix, conflict_loop-zone, insertion_loop-Settled, Settled,
}

chain_split :
    (xs mid zs : List Ptr) (end : Ptr)
    → (xs ++ (mid ++ zs)) ++ end ∷ [] ≡ xs ++ (mid ++ first_of zs end ∷ behind zs end)
chain_split xs mid zs end =
    append_assoc xs (mid ++ zs) (end ∷ []) ∙ ap (◌++◌ xs) (first_of-behind mid zs end)

-- The elements `mid` stand between the origin, the last of `xs`, and the right neighbour, the
-- first of `zs`.
module _ {d : Document} (xs mid zs : List Ptr) (v : IsValid d (xs ++ (mid ++ zs))) where
  abbrev origin : Ptr
  origin = last_of d.start xs

  abbrev right : Ptr
  right = first_of zs d.end

  pub right_has : has right (nodes d (xs ++ (mid ++ zs))) ≡ true
  right_has =
      subst (λ ns. has right (nodes d ns) ≡ true) (append_assoc xs mid zs)
        (has-first_of-nodes (xs ++ mid) zs (subst (IsValid d) (sym (append_assoc xs mid zs)) v))

  origin_at : element_at d (d.memory origin).element_id ≡ origin
  origin_at = element_at-node origin v (has-last_of-nodes xs (mid ++ zs) v)

  right_at : element_at d (d.memory right).element_id ≡ right
  right_at = element_at-node right v right_has

  mid-Linked : Linked d.memory origin (mid ++ right ∷ behind zs d.end)
  mid-Linked =
      Linked-suffix d.memory d.start xs _
        (subst (Linked d.memory d.start) (chain_split xs mid zs d.end) v.linked)

  mid_apart : has right mid ≡ false
  mid_apart =
      Distinct-apart right mid (behind zs d.end)
        (Distinct-suffix xs _ (subst Distinct (chain_split xs mid zs d.end) v.distinct.1))

  mid-NonNull : NonNull mid
  mid-NonNull =
      All-prefix (λ p. 0 < p) mid _
        (All-suffix (λ p. 0 < p) xs _ (subst NonNull (chain_split xs mid zs d.end) (non_null v)))

  conflict_zone-mid :
      conflict_zone d (d.memory origin).element_id (d.memory right).element_id ≡ ok mid
  unfolding conflict_zone
  conflict_zone-mid =
      rw (origin_at, right_at)
        (ground (
          arith,
          left_used xs (mid ++ zs) v,
          conflict_loop-zone d.memory right (behind zs d.end) origin mid (suc d.allocated)
              mid-Linked mid-NonNull mid_apart
              (omega (arith, v.room, length-append xs (mid ++ zs), length-append mid zs)),
        ))

  -- findInsetionPoint gives two neighbours between the origin and the right neighbour.
  find_insertion_point-Settled :
      (new_id : ElementId)
      → (s : Settled d (xs ++ (mid ++ zs)) origin new_id mid) × (find_insertion_point d
            (d.memory origin).element_id
            (d.memory right).element_id
            new_id
          ≡ ok (last_of origin s.passed, first_of s.kept right))
  unfolding find_insertion_point
  find_insertion_point-Settled new_id =
      let (s, run) =
        insertion_loop-Settled v origin new_id origin mid right (behind zs d.end) mid-Linked in
      (s, rw (conflict_zone-mid, origin_at) (ground (arith, run, left_used xs (mid ++ zs) v)))

-- What a remote insertion leaves that goes between the origin and its right neighbour.
pub record Integrated (d : Document) (xs mid zs : List Ptr) (new_id : ElementId) (content : ℕ)
    : Type 0 where
  pub settled : Settled d (xs ++ (mid ++ zs)) (last_of d.start xs) new_id mid
  pub after : Document
  pub runs :
      integrate_insert d new_id
        (d.memory (last_of d.start xs)).element_id
        (d.memory (first_of zs d.end)).element_id
        content
      ≡ ok after
  pub valid : IsValid after ((xs ++ settled.passed) ++ d.allocated ∷ (settled.kept ++ zs))
  pub shows :
      visible after.memory ((xs ++ settled.passed) ++ d.allocated ∷ (settled.kept ++ zs))
      ≡ visible d.memory (xs ++ settled.passed) ++ content ∷ visible d.memory (settled.kept ++ zs)
  pub maps : after.elements_by_id ≡ insert new_id d.allocated d.elements_by_id
  pub logs :
      after.insert_log
      ≡ insert new_id
          (record {
            new_id = new_id;
            origin_id = (d.memory (last_of d.start xs)).element_id;
            right_id = (d.memory (first_of zs d.end)).element_id;
            content = content;
          })
          d.insert_log
  pub old :
      (q : Ptr)
      → has q (nodes d (xs ++ (mid ++ zs))) ≡ true
      → (cell after.memory q ≡ cell d.memory q) × ((after.memory q).origin ≡ (d.memory q).origin)
  pub new :
      (cell after.memory d.allocated
        ≡ record { id = new_id; content = content; is_deleted = false })
      × ((after.memory d.allocated).origin ≡ last_of d.start xs)
  pub sentinels : (after.start ≡ d.start) × (after.end ≡ d.end)
  pub keeps :
      (after.pending_inserts ≡ d.pending_inserts)
      × (after.pending_deletes ≡ d.pending_deletes)
      × (after.delete_log ≡ d.delete_log)

regroup :
    (xs passed kept zs : List Ptr) → xs ++ ((passed ++ kept) ++ zs) ≡ (xs ++ passed) ++ (kept ++ zs)
regroup xs passed kept zs = simp append_assoc

abbrev remote_element : Document → ElementId → (origin l r : Ptr) → ℕ → Element
remote_element d new_id origin l r content = record {
  element_id = new_id;
  origin = origin;
  left = l;
  right = r;
  is_deleted = false;
  content = content;
}

-- A new identifier, an origin and a right neighbour in the list with the origin first:
-- `integrateInsert` runs, and puts the element between the two, behind exactly the elements that
-- the loop passes, in a document that is valid again.
pub integrate_insert-Integrated :
    {d : Document} (xs mid zs : List Ptr) (new_id : ElementId) (content : ℕ)
    → IsValid d (xs ++ (mid ++ zs))
    → lookup new_id d.elements_by_id ≡ none
    → Integrated d xs mid zs new_id content
unfolding integrate_insert register
integrate_insert-Integrated {d} xs mid zs new_id content v fresh =
    let (s, found) = find_insertion_point-Settled xs mid zs v new_id in
    let chain = ap (λ ns. xs ++ (ns ++ zs)) s.splits ∙ regroup xs s.passed s.kept zs in
    let v' = subst (IsValid d) chain v in
    let origin = last_of d.start xs in
    let l = last_of d.start (xs ++ s.passed) in
    let r = first_of (s.kept ++ zs) d.end in
    let e = remote_element d new_id origin l r content in
    let operation : InsertOperation = record {
      new_id = new_id;
      origin_id = (d.memory origin).element_id;
      right_id = (d.memory (first_of zs d.end)).element_id;
      content = content;
    } in
    let found' =
      found
      ∙ ap₂ (λ a b. ok (a, b)) (sym (last_of-append d.start xs s.passed))
          (sym (first_of-append s.kept zs d.end)) in
    record {
      settled = s;
      after = placed d e l r operation;
      runs =
          rw (found', origin_at xs mid zs v)
            (ground (arith, link-ok (xs ++ s.passed) (s.kept ++ zs) v' e));
      valid = placed-IsValid (xs ++ s.passed) (s.kept ++ zs) v' e operation refl refl refl fresh;
      shows = placed-visible (xs ++ s.passed) (s.kept ++ zs) v' e operation refl refl refl fresh;
      maps = refl;
      logs = refl;
      old =
          subst
            (λ ns.
              (q : Ptr)
              → has q (nodes d ns) ≡ true
              → (cell (placed d e l r operation).memory q ≡ cell d.memory q)
                × (((placed d e l r operation).memory q).origin ≡ (d.memory q).origin))
            (sym chain)
            (old_cell (xs ++ s.passed) (s.kept ++ zs) v' e operation refl refl refl fresh);
      new = new_cell (xs ++ s.passed) (s.kept ++ zs) v' e operation refl refl refl fresh;
      sentinels = (refl, refl);
      keeps = (refl, refl, refl);
    }
