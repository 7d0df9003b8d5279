-- ===== src/Document/Linking.antt =====
-- Linking a new element into a valid document, as InsertElement and integrateInsert do.
use mathlib.Core.List.{append_assoc}
use mathlib.Core.Path.{subst, ap₂}
use yata_collaborative_edito.Base.{
  suc, ◌<◌, ◌≡◌, ◌∙◌, refl, sym, ap, true, false, none, some, inl, inr, List, [], ◌∷◌, ◌++◌, arith,
  Bool-cases, has, has-append, has-weaken, has-middle, not-has_above, Distinct, Distinct-middle,
  All, All-map, All-map₂, All-middle, All-has, last_of, length, length-append, pos, ◌+ℤ◌,
  pos_add-one, Map, lookup, insert, lookup-insert, ok,
}
use yata_collaborative_edito.Identifier.{ElementId, id_eq, id_Eq, id_eq_iff}
use yata_collaborative_edito.Protocol.Operations.{InsertOperation}
use yata_collaborative_edito.Document.{Ptr, Element, Memory, Document}
use yata_collaborative_edito.Document.Update.{link_memory, link, register}
use yata_collaborative_edito.Document.Chain.{
  Linked, link-Linked, link-is_deleted, link-content, link-element_id, link-origin,
}
use yata_collaborative_edito.Document.Valid.{
  cell, visible, nodes, InUse, IsRegistered, IsValid, first_of, behind, first_of-behind,
  visible-append, visible-link,
}

-- The document after a new element has been put between two neighbours and registered.
abbrev pub linked_document : Document → Element → (left right : Ptr) → Document
linked_document d e l r = record d {
  memory = link_memory d.memory d.allocated e l r;
  allocated = suc d.allocated;
}

abbrev pub placed : Document → Element → (left right : Ptr) → InsertOperation → Document
placed d e l r operation = register (linked_document d e l r) d.allocated e.element_id operation

first_of-behind_middle :
    (p : Ptr) (xs zs : List Ptr) (end : Ptr)
    → (xs ++ p ∷ zs) ++ end ∷ [] ≡ xs ++ p ∷ first_of zs end ∷ behind zs end
first_of-behind_middle p xs [] end = append_assoc xs (p ∷ []) (end ∷ [])
first_of-behind_middle p xs (z ∷ zs) end = append_assoc xs (p ∷ z ∷ zs) (end ∷ [])

has-last_of_cons : (a : Ptr) (xs ys : List Ptr) → has (last_of a xs) (a ∷ (xs ++ ys)) ≡ true
has-last_of_cons a [] ys = ground arith
has-last_of_cons a (x ∷ xs) ys = ground (arith, has-last_of_cons x xs ys)

module _ {d : Document} (xs zs : List Ptr) (v : IsValid d (xs ++ zs)) where
  -- The nodes, split at the place of the new one.
  split : nodes d (xs ++ zs) ≡ d.start ∷ (xs ++ first_of zs d.end ∷ behind zs d.end)
  split = ap (◌∷◌ d.start) (first_of-behind xs zs d.end)

  split_middle :
      nodes d (xs ++ d.allocated ∷ zs)
      ≡ d.start ∷ (xs ++ d.allocated ∷ first_of zs d.end ∷ behind zs d.end)
  split_middle = ap (◌∷◌ d.start) (first_of-behind_middle d.allocated xs zs d.end)

  unused : has d.allocated (nodes d (xs ++ zs)) ≡ false
  unused = not-has_above d.allocated (nodes d (xs ++ zs)) v.in_use

  unused_parts :
      (has d.allocated xs ≡ false)
      × (has d.allocated zs ≡ false)
      × (has d.allocated (d.start ∷ d.end ∷ []) ≡ false)
  unused_parts =
      let apart = has-append d.allocated (xs ++ zs) (d.end ∷ []) in
      let parts = has-append d.allocated xs zs in
      (ground (arith, unused), ground (arith, unused), ground (arith, unused))

  pub has-last_of-nodes : has (last_of d.start xs) (nodes d (xs ++ zs)) ≡ true
  has-last_of-nodes =
      subst (λ ns. has (last_of d.start xs) ns ≡ true) (sym split)
        (has-last_of_cons d.start xs (first_of zs d.end ∷ behind zs d.end))

  pub has-first_of-nodes : has (first_of zs d.end) (nodes d (xs ++ zs)) ≡ true
  has-first_of-nodes =
      subst (λ ns. has (first_of zs d.end) ns ≡ true) (sym split)
        (has-middle (first_of zs d.end) (d.start ∷ xs) (behind zs d.end))

  pub left_used : InUse d (last_of d.start xs)
  left_used = All-has (InUse d) (nodes d (xs ++ zs)) (last_of d.start xs) v.in_use has-last_of-nodes

  pub right_used : InUse d (first_of zs d.end)
  right_used =
      All-has (InUse d) (nodes d (xs ++ zs)) (first_of zs d.end) v.in_use has-first_of-nodes

  -- `link` finds two elements to link to.
  pub link-ok :
      (e : Element)
      → link d e (last_of d.start xs) (first_of zs d.end)
        ≡ ok (linked_document d e (last_of d.start xs) (first_of zs d.end))
  unfolding link
  link-ok e = ground (arith, left_used, right_used)

  module _ (e : Element) (operation : InsertOperation) (eleft : e.left ≡ last_of d.start xs)
      (eright : e.right ≡ first_of zs d.end) (live : e.is_deleted ≡ false)
      (fresh : lookup e.element_id d.elements_by_id ≡ none) where
    abbrev pub m' : Memory
    m' = link_memory d.memory d.allocated e (last_of d.start xs) (first_of zs d.end)

    placed-Linked : Linked m' d.start ((xs ++ d.allocated ∷ zs) ++ d.end ∷ [])
    placed-Linked = rw (first_of-behind_middle d.allocated xs zs d.end) (
        link-Linked d.memory d.allocated e _ _ d.start xs (behind zs d.end)
          (subst (Linked d.memory d.start) (first_of-behind xs zs d.end) v.linked)
          (subst Distinct split v.distinct) (subst (λ ns. has d.allocated ns ≡ false) split unused)
          refl eleft eright)

    placed-Distinct : Distinct (nodes d (xs ++ d.allocated ∷ zs))
    placed-Distinct = subst Distinct (sym split_middle) (
        Distinct-middle d.allocated (d.start ∷ xs) _ (subst Distinct split v.distinct)
          (subst (λ ns. has d.allocated ns ≡ false) split unused))

    -- A property of the old nodes and of the new one holds of all.
    placed-All :
        (P : Ptr → Type 0)
        → All P (nodes d (xs ++ zs))
        → P d.allocated
        → All P (nodes d (xs ++ d.allocated ∷ zs))
    placed-All P old new =
        subst (All P) (sym split_middle)
          (All-middle P d.allocated (d.start ∷ xs) _ (subst (All P) split old) new)

    pub placed-visible :
        visible m' (xs ++ d.allocated ∷ zs) ≡ visible d.memory xs ++ e.content ∷ visible d.memory zs
    placed-visible =
        visible-append m' xs (d.allocated ∷ zs)
        ∙ ap₂ (◌++◌) (visible-link d.memory d.allocated e _ _ xs unused_parts.0) (
            ground (
              arith,
              link-is_deleted d.memory d.allocated e (last_of d.start xs) (first_of zs d.end)
                  d.allocated,
              link-content d.memory d.allocated e (last_of d.start xs) (first_of zs d.end)
                  d.allocated,
              visible-link d.memory d.allocated e (last_of d.start xs) (first_of zs d.end) zs,
              unused_parts,
            ))

    -- An old element keeps its identifier, which is not the new one.
    pub old_named :
        (q : Ptr) → has q (nodes d (xs ++ zs)) ≡ true → (m' q).element_id ≡ (d.memory q).element_id
    old_named q h = ground (
      arith,
      unused,
      link-element_id d.memory d.allocated e (last_of d.start xs) (first_of zs d.end) q,
    )

    new_named : (m' d.allocated).element_id ≡ e.element_id
    new_named = ground (
      arith,
      link-element_id d.memory d.allocated e (last_of d.start xs) (first_of zs d.end) d.allocated,
    )

    -- An old element keeps what replicas agree on, and its origin.
    pub old_cell :
        (q : Ptr)
        → has q (nodes d (xs ++ zs)) ≡ true
        → (cell m' q ≡ cell d.memory q) × ((m' q).origin ≡ (d.memory q).origin)
    old_cell q h =
        let l = last_of d.start xs in
        let r = first_of zs d.end in
        (
          ground (
            arith,
            unused,
            link-element_id d.memory d.allocated e l r q,
            link-content d.memory d.allocated e l r q,
            link-is_deleted d.memory d.allocated e l r q,
          ),
          ground (arith, unused, link-origin d.memory d.allocated e l r q),
        )

    pub new_cell :
        (cell m' d.allocated
          ≡ record { id = e.element_id; content = e.content; is_deleted = e.is_deleted })
        × ((m' d.allocated).origin ≡ e.origin)
    new_cell =
        let l = last_of d.start xs in
        let r = first_of zs d.end in
        (
          ground (
            arith,
            link-element_id d.memory d.allocated e l r d.allocated,
            link-content d.memory d.allocated e l r d.allocated,
            link-is_deleted d.memory d.allocated e l r d.allocated,
          ),
          ground (arith, link-origin d.memory d.allocated e l r d.allocated),
        )

    new_map : Map ElementId Ptr
    new_map = insert e.element_id d.allocated d.elements_by_id

    old_registered :
        (q : Ptr) → InUse d q → IsRegistered d q → lookup (m' q).element_id new_map ≡ some q
    unfolding new_map
    old_registered q used known = ground (
      arith,
      fresh,
      id_eq_iff e.element_id (d.memory q).element_id,
      link-element_id d.memory d.allocated e (last_of d.start xs) (first_of zs d.end) q,
      lookup-insert e.element_id (d.memory q).element_id d.allocated d.elements_by_id,
    )

    new_registered : lookup (m' d.allocated).element_id new_map ≡ some d.allocated
    unfolding new_map
    new_registered = rw new_named (
        ground (
          arith,
          id_eq_iff e.element_id e.element_id,
          lookup-insert e.element_id e.element_id d.allocated d.elements_by_id,
        ))

    has_old :
        (q : Ptr)
        → has q (nodes d (xs ++ zs)) ≡ true
        → has q (nodes d (xs ++ d.allocated ∷ zs)) ≡ true
    has_old q h =
        subst (λ ns. has q ns ≡ true) (sym split_middle)
          (has-weaken q d.allocated (d.start ∷ xs) _ (subst (λ ns. has q ns ≡ true) split h))

    has_new : has d.allocated (nodes d (xs ++ d.allocated ∷ zs)) ≡ true
    has_new =
        subst (λ ns. has d.allocated ns ≡ true) (sym split_middle)
          (has-middle d.allocated (d.start ∷ xs) _)

    new_known :
        (id : ElementId) (q : Ptr)
        → lookup id new_map ≡ some q
        → (has q (nodes d (xs ++ d.allocated ∷ zs)) ≡ true) × ((m' q).element_id ≡ id)
    unfolding new_map
    new_known id q found = elim (Bool-cases (id_eq e.element_id id)) [
      | inl same ↦
          let is : d.allocated ≡ q =
            ground (arith, lookup-insert e.element_id id d.allocated d.elements_by_id) in
          (
            subst (λ a. has a (nodes d (xs ++ d.allocated ∷ zs)) ≡ true) is has_new,
            rw (← is) (new_named ∙ (id_eq_iff e.element_id id).0 same),
          )
      | inr other ↦
          let (old, named) =
            v.known id q
              (ground (arith, lookup-insert e.element_id id d.allocated d.elements_by_id)) in
          (has_old q old, old_named q old ∙ named)
    ]

    has_start : has d.start (nodes d (xs ++ zs)) ≡ true
    has_start = ground arith

    has_end : has d.end (nodes d (xs ++ zs)) ≡ true
    has_end = has-middle d.end (d.start ∷ (xs ++ zs)) []

    placed-counter :
        d.character_counter +ℤ pos 1 ≡ pos (length (visible m' (xs ++ d.allocated ∷ zs)))
    placed-counter =
        rw (v.counter, pos_add-one)
          (ap pos (
            omega (
              arith,
              ap length placed-visible,
              ap length (visible-append d.memory xs zs),
              length-append (visible d.memory xs) (e.content ∷ visible d.memory zs),
              length-append (visible d.memory xs) (visible d.memory zs),
            )))

    -- The invariant of the document with the new element.
    pub placed-IsValid :
        IsValid
          (placed d e (last_of d.start xs) (first_of zs d.end) operation)
          (xs ++ d.allocated ∷ zs)
    unfolding register new_map
    placed-IsValid = record {
      linked = placed-Linked;
      distinct = placed-Distinct;
      in_use =
          placed-All (λ q. (0 < q) × (q < suc d.allocated))
            (All-map (InUse d) (λ q. (0 < q) × (q < suc d.allocated)) (nodes d (xs ++ zs))
              (λ q used. (used.0, omega arith)) v.in_use)
            (omega (arith, v.room), omega arith);
      room = omega (arith, v.room, length-append xs zs, length-append xs (d.allocated ∷ zs));
      end_live = ground (
        arith,
        v.end_live,
        unused_parts,
        link-is_deleted d.memory d.allocated e (last_of d.start xs) (first_of zs d.end) d.end,
      );
      counter = placed-counter;
      start_named = old_named d.start has_start ∙ v.start_named;
      end_named = old_named d.end has_end ∙ v.end_named;
      registered =
          placed-All (λ q. lookup (m' q).element_id new_map ≡ some q)
            (All-map₂ (InUse d) (IsRegistered d) (λ q. lookup (m' q).element_id new_map ≡ some q)
              (nodes d (xs ++ zs)) old_registered v.in_use v.registered)
            new_registered;
      known = new_known;
    }
