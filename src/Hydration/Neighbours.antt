-- ===== src/Hydration/Neighbours.antt =====
-- RebuildRelations does not fail on what a valid document has saved, and gives each copy the
-- copies of its element's neighbours.
use yata_collaborative_edito.Base.{
  true, List, [], ◌∷◌, ◌++◌, map, ◌==◌, ==_iff, ◌≡◌, ◌≢◌, ◌∙◌, ◌⊎◌, refl, sym, ap, inl, inr, arith,
  text_eq, Bool-cases, has, has-append, All, All-has, Distinct,
}
use mathlib.Core.Path.{subst}
use yata_collaborative_edito.Identifier.{ElementId, id_Eq}
use yata_collaborative_edito.Document.{Ptr, null, Memory, Document, start_id, end_id}
use yata_collaborative_edito.Document.Chain.{Linked}
use yata_collaborative_edito.Document.Valid.{nodes, visible, cell}
use yata_collaborative_edito.Storage.Overlay.{lookup-In}
use yata_collaborative_edito.Storage.Serializing.{id_of, to_persisted_element}
use yata_collaborative_edito.Storage.Documents.{LoadedElements}
use yata_collaborative_edito.Hydration.{pointer_to, is_sentinel_client}
use yata_collaborative_edito.Hydration.Relations.{IsRelated, IsComplete, IsProper, IsRestored}
use yata_collaborative_edito.Hydration.Restored.{
  IsSaved, right-in, left-in, entry_of, copy_of, copy_found, same_element, copy_of-IsCopy,
  pointer_back, copy-not_null, pointer_nowhere, entry_of-node,
}

sentinels :
    (is_sentinel_client start_id.client_id ≡ true) × (is_sentinel_client end_id.client_id ≡ true)
unfolding is_sentinel_client text_eq
sentinels = (refl, refl)

module _ (d : Document) (cs : List Ptr) (loaded : LoadedElements)
    (saved : IsSaved d cs loaded) where
  open saved use {valid, image, no_zero, rooted}

  abbrev pub back : Ptr → Ptr
  back = copy_of d cs loaded saved

  -- A node is a sentinel or between the two.
  node_cases :
      (p : Ptr) → has p (nodes d cs) ≡ true → (p ≡ d.start) ⊎ ((p ≡ d.end) ⊎ (has p cs ≡ true))
  node_cases p h = ground (arith, h, has-append p cs (d.end ∷ []), ==_iff p d.start, ==_iff p d.end)

  inner : (p : Ptr) → has p cs ≡ true → has p (nodes d cs) ≡ true
  inner p h = ground (arith, h, has-append p cs (d.end ∷ []))

  right-node : (p : Ptr) → has p cs ≡ true → has (d.memory p).right (nodes d cs) ≡ true
  right-node p h =
      ground (arith, right-in d.memory d.start d.end p cs valid.linked (ground (arith, h)))

  left-node : (p : Ptr) → has p cs ≡ true → has (d.memory p).left (nodes d cs) ≡ true
  left-node p h =
      let there =
        left-in d.memory d.start p (cs ++ d.end ∷ []) valid.linked
          (ground (arith, h, has-append p cs (d.end ∷ []))) in
      ground (arith, there)

  pointed :
      (x : Ptr) → has x (nodes d cs) ≡ true → pointer_to loaded.by_id (id_of d.memory x) ≢ null
  pointed x h e = copy-not_null d cs loaded saved x h (sym (pointer_back d cs loaded saved x h) ∙ e)

  node-IsComplete :
      (p : Ptr)
      → has p (nodes d cs) ≡ true
      → IsComplete loaded.persisted loaded.by_id
          (d.memory p).element_id
          (entry_of loaded (d.memory p).element_id)
  unfolding IsComplete to_persisted_element
  node-IsComplete p h =
      let e = entry_of-node d cs loaded saved p h in
      subst (IsComplete loaded.persisted loaded.by_id (d.memory p).element_id) (sym e) (
        image.persisted p h,
        elim (node_cases p h) [
          | inl s ↦ inl (
              ap (λ x. is_sentinel_client (d.memory x).element_id.client_id) s
              ∙ ap (λ (x : ElementId). is_sentinel_client x.client_id) valid.start_named
              ∙ sentinels.0)
          | inr (inl t) ↦ inl (
              ap (λ x. is_sentinel_client (d.memory x).element_id.client_id) t
              ∙ ap (λ (x : ElementId). is_sentinel_client x.client_id) valid.end_named
              ∙ sentinels.1)
          | inr (inr i) ↦ inr (
            pointed (d.memory p).origin (All-has _ cs p rooted i),
            pointed (d.memory p).left (left-node p i),
            pointed (d.memory p).right (right-node p i),
          )
        ],
      )

  pub loaded-IsProper : IsProper loaded.persisted loaded.by_id (entry_of loaded) loaded.by_id
  loaded-IsProper = record {
    complete = λ k q i.
        let (p, h, e, _) = image.copies k q (image.is_map k q i) in
        subst (λ x. IsComplete loaded.persisted loaded.by_id x (entry_of loaded x)) e
          (node-IsComplete p h);
    apart = λ k j q i h.
        let (p, _, e, copy) = image.copies k q (image.is_map k q i) in
        let (o, _, f, same) = image.copies j q (image.is_map j q h) in
        sym e ∙ sym copy.id ∙ same.id ∙ f;
  }

  module _ (m' : Memory)
      (restored : IsRestored loaded.persisted loaded.by_id
        (entry_of loaded)
        loaded.by_id
        loaded.memory
        m') where
    related :
        (p : Ptr)
        → has p (nodes d cs) ≡ true
        → IsRelated loaded.persisted loaded.by_id m'
            (d.memory p).element_id
            (back p)
            (to_persisted_element d.memory p)
    related p h =
        subst (IsRelated loaded.persisted loaded.by_id m' (d.memory p).element_id (back p))
          (entry_of-node d cs loaded saved p h)
          (restored.relations (d.memory p).element_id (back p) (
            inl (
              lookup-In (d.memory p).element_id (back p) loaded.by_id
                (copy_found d cs loaded saved p h))))

    pub back-Linked :
        (a : Ptr) (bs : List Ptr)
        → Linked d.memory a bs
        → All (λ p. has p (nodes d cs) ≡ true) (a ∷ bs)
        → Linked m' (back a) (map back bs)
    unfolding to_persisted_element
    back-Linked a [] l (h, _) =
        (related a h).right
        ∙ ap (λ x. pointer_to loaded.by_id (id_of d.memory x)) l
        ∙ pointer_nowhere d cs loaded saved
    back-Linked a (b ∷ bs) (right, left, rest) (h, all) = (
      (related a h).right
          ∙ ap (λ x. pointer_to loaded.by_id (id_of d.memory x)) right
          ∙ pointer_back d cs loaded saved b all.0,
      (related b all.0).left
          ∙ ap (λ x. pointer_to loaded.by_id (id_of d.memory x)) left
          ∙ pointer_back d cs loaded saved a h,
      back-Linked b bs rest all,
    )

    pub has-back :
        (p : Ptr) (xs : List Ptr)
        → has p (nodes d cs) ≡ true
        → All (λ q. has q (nodes d cs) ≡ true) xs
        → has (back p) (map back xs) ≡ has p xs
    has-back p [] h all = refl
    has-back p (x ∷ xs) h (g, all) =
        let same : back p ≡ back x → p ≡ x = λ e. same_element d cs loaded saved p x h g (
          sym (copy_of-IsCopy d cs loaded saved p h).id
          ∙ ap (λ q. (loaded.memory q).element_id) e
          ∙ (copy_of-IsCopy d cs loaded saved x g).id) in
        elim (Bool-cases (p == x)) [
          | inl e ↦ ground (arith, e, ap back ((==_iff p x).0 e), ==_iff (back p) (back x))
          | inr e ↦
              ground (arith, e, same, ==_iff p x, ==_iff (back p) (back x), has-back p xs h all)
        ]

    pub back-Distinct :
        (xs : List Ptr)
        → Distinct xs
        → All (λ q. has q (nodes d cs) ≡ true) xs
        → Distinct (map back xs)
    back-Distinct [] dist all = tt
    back-Distinct (x ∷ xs) (apart, rest) (h, all) =
        (has-back x xs h all ∙ apart, back-Distinct xs rest all)

    pub back_element_id :
        (p : Ptr) → has p (nodes d cs) ≡ true → (m' (back p)).element_id ≡ (d.memory p).element_id
    back_element_id p h = restored.same.ids (back p) ∙ (copy_of-IsCopy d cs loaded saved p h).id

    pub back_content :
        (p : Ptr) → has p (nodes d cs) ≡ true → (m' (back p)).content ≡ (d.memory p).content
    back_content p h =
        restored.same.contents (back p) ∙ (copy_of-IsCopy d cs loaded saved p h).content

    pub back_is_deleted :
        (p : Ptr) → has p (nodes d cs) ≡ true → (m' (back p)).is_deleted ≡ (d.memory p).is_deleted
    back_is_deleted p h =
        restored.same.deleted (back p) ∙ (copy_of-IsCopy d cs loaded saved p h).is_deleted

    pub visible-back :
        (xs : List Ptr)
        → All (λ q. has q (nodes d cs) ≡ true) xs
        → visible m' (map back xs) ≡ visible d.memory xs
    visible-back [] all = refl
    visible-back (x ∷ xs) (h, all) =
        ground (arith, back_is_deleted x h, back_content x h, visible-back xs all)

    pub cells-back :
        (xs : List Ptr)
        → All (λ q. has q (nodes d cs) ≡ true) xs
        → map (cell m') (map back xs) ≡ map (cell d.memory) xs
    cells-back [] all = refl
    cells-back (x ∷ xs) (h, all) =
        ground
          (arith, back_is_deleted x h, back_content x h, back_element_id x h, cells-back xs all)
