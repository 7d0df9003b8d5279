-- ===== src/Hydration/Image.antt =====
-- SaveElements of a valid document and LoadElements of the room, which hydrate.go starts from.
use yata_collaborative_edito.Base.{
  true, none, some, is_some, List, [], ◌∷◌, ◌≡◌, ◌<◌, ◌∙◌, Option, refl, sym, ap, inl, inr, arith,
  ==_iff, lookup, In, Bool-cases, Option-cases, has, All-has, ok, ◌==◌,
}
use yata_collaborative_edito.Identifier.{ElementId, id_Eq}
use yata_collaborative_edito.Protocol.Messages.{Bytes}
use yata_collaborative_edito.Document.{Ptr, Memory, Document}
use yata_collaborative_edito.Document.Valid.{IsValid, nodes, IsRegistered}
use yata_collaborative_edito.Storage.{done, elements_key}
use yata_collaborative_edito.Storage.Buckets.{Bolt, BoltLaws}
use yata_collaborative_edito.Storage.Serializing.{PersistedElement, to_persisted_element}
use yata_collaborative_edito.Storage.Documents.{
  PersistedJson, LoadedElements, save_elements, save_operations, load_elements,
}
use yata_collaborative_edito.Storage.Logs.{empty-IsLog, save_operations-IsLog}
use yata_collaborative_edito.Storage.Overlay.{
  lookup-In, IsKeyed-IsMap, overlay, overlay-hit, overlay-miss,
}
use yata_collaborative_edito.Storage.LogRoundTrip.{in_bucket-done}
use yata_collaborative_edito.Storage.Elements.{IsNoted, load_elements-notes}
use yata_collaborative_edito.Storage.Walk.{entries_at, save_elements_ends}
use yata_collaborative_edito.Hydration.Restored.{IsImage}

-- The entries are those of the elements.
entries_at-element :
    (m : Memory) (ps : List Ptr) (k : ElementId) (e : PersistedElement)
    → In (k, e) (entries_at m ps)
    → (p : Ptr) × (has p ps ≡ true) × ((m p).element_id ≡ k) × (to_persisted_element m p ≡ e)
unfolding entries_at
entries_at-element m [] k e i = absurd i
entries_at-element m (p ∷ ps) k e (inl same) =
    (p, ground (arith, ==_iff p p), ap (λ x. x.0) same, ap (λ x. x.1) same)
entries_at-element m (p ∷ ps) k e (inr i) =
    let (q, there, named, made) = entries_at-element m ps k e i in
    (q, ground (arith, there), named, made)

entries_at-named :
    (m : Memory) (ps : List Ptr) (k : ElementId) (e : PersistedElement)
    → In (k, e) (entries_at m ps)
    → e.element_id ≡ k
unfolding to_persisted_element
entries_at-named m ps k e i =
    let (p, _, named, made) = entries_at-element m ps k e i in
    sym (ap (λ x. x.element_id) made) ∙ named

element-entries_at :
    (m : Memory) (ps : List Ptr) (p : Ptr)
    → has p ps ≡ true
    → In ((m p).element_id, to_persisted_element m p) (entries_at m ps)
unfolding entries_at
element-entries_at m [] p h = absurd (ground (arith, h))
element-entries_at m (q ∷ ps) p h = elim (Bool-cases (p == q)) [
  | inl same ↦
      inl (ap (λ x. ((m x).element_id, to_persisted_element m x)) (sym ((==_iff p q).0 same)))
  | inr other ↦ inr (element-entries_at m ps p (ground (arith, h, other)))
]

module _ (d : Document) (cs : List Ptr) (valid : IsValid d cs) where
  same_node :
      (p q : Ptr)
      → has p (nodes d cs) ≡ true
      → has q (nodes d cs) ≡ true
      → (d.memory p).element_id ≡ (d.memory q).element_id
      → p ≡ q
  same_node p q hp hq e =
      let rp : IsRegistered d p = All-has (IsRegistered d) (nodes d cs) p valid.registered hp in
      let rq : IsRegistered d q = All-has (IsRegistered d) (nodes d cs) q valid.registered hq in
      let both : some p ≡ some q = sym rp ∙ ap (λ x. lookup x d.elements_by_id) e ∙ rq in
      ground (arith, both)

  -- What the bucket holds after SaveElements.
  abbrev pub saved_at : ElementId → Option PersistedElement
  saved_at id = overlay (entries_at d.memory (nodes d cs)) (λ _. none) id

  saved_at-node :
      (p : Ptr)
      → has p (nodes d cs) ≡ true
      → saved_at (d.memory p).element_id ≡ some (to_persisted_element d.memory p)
  saved_at-node p h =
      overlay-hit (entries_at d.memory (nodes d cs)) (λ _. none) (d.memory p).element_id
        (to_persisted_element d.memory p)
        (λ w i.
          let (q, there, named, made) =
            entries_at-element d.memory (nodes d cs) (d.memory p).element_id w i in
          sym made ∙ ap (to_persisted_element d.memory) (same_node q p there h named))
        (inr (element-entries_at d.memory (nodes d cs) p h))

  node-saved_at :
      (id : ElementId) (e : PersistedElement)
      → saved_at id ≡ some e
      → (p : Ptr) × (has p (nodes d cs) ≡ true)
        × ((d.memory p).element_id ≡ id)
        × (to_persisted_element d.memory p ≡ e)
  node-saved_at id e held =
      let log = entries_at d.memory (nodes d cs) in
      elim (Option-cases (lookup id log)) [
        | inl missing ↦ absurd (ground (arith, held, overlay-miss log (λ _. none) id missing))
        | inr (v, found) ↦
            let (p, there, named, made) =
              entries_at-element d.memory (nodes d cs) id v (lookup-In id v log found) in
            let stands = saved_at-node p there in
            (p, there, named, ground (arith, sym stands ∙ ap saved_at named ∙ held))
      ]

  -- Elements that LoadElements has noted, all of those of the document and no other.
  IsNoted-IsImage :
      (s : LoadedElements)
      → IsNoted saved_at s
      → ((id : ElementId) → lookup id s.persisted ≡ saved_at id)
      → IsImage d cs s
  unfolding to_persisted_element
  IsNoted-IsImage s noted same = record {
    persisted = λ p h. same (d.memory p).element_id ∙ saved_at-node p h;
    placed = λ p h.
        noted.both (d.memory p).element_id
        ∙ ap is_some (same (d.memory p).element_id ∙ saved_at-node p h);
    copies = λ id q found.
        let (e, held, named, copy) = noted.loaded id q found in
        let (p, there, p_named, made) = node-saved_at id e held in
        (
          p,
          there,
          p_named,
          record {
            positive = copy.positive;
            allocated = copy.allocated;
            id = copy.id ∙ sym (ap (λ x. x.element_id) made);
            content = copy.content ∙ sym (ap (λ x. x.content) made);
            is_deleted = copy.is_deleted ∙ sym (ap (λ x. x.is_deleted) made);
          },
        );
    is_map = IsKeyed-IsMap s.by_id noted.keyed;
  }

  module _ (bolt : Bolt) (laws : BoltLaws bolt) (json : PersistedJson)
      (decodes : (p : PersistedElement) (b : Bytes)
        → json.elements.marshal p ≡ some b
        → json.elements.unmarshal b ≡ some p) where
    -- SaveElements puts the elements of a valid document into an empty bucket of a room without an
    -- error. LoadElements of the room then returns without an error, and it gives the elements of
    -- the document and no other.
    pub save_elements-IsImage :
        (room room' b : bolt.Bucket) (memory : Memory) (allocated : Ptr)
        → bolt.bucket room elements_key ≡ some b
        → ((k : Bytes) → bolt.get b k ≡ none)
        → save_elements bolt json room d ≡ ok (done room')
        → 0 < allocated
        → (s : LoadedElements) × (load_elements bolt json room' memory allocated ≡ done s)
          × IsImage d cs s
    save_elements-IsImage room room' b memory allocated there nothing saved positive =
        let log = entries_at d.memory (nodes d cs) in
        let (c, c', found, written, after) =
          in_bucket-done bolt laws room room' elements_key
            (save_operations bolt json.elements (λ e. e) log)
            (ground (arith, saved, save_elements_ends bolt json room d cs valid)) in
        let same : b ≡ c = ground (arith, there, found) in
        let stored =
          save_operations-IsLog bolt laws json.elements (λ e. e) (λ e. e) (λ e. e.element_id)
            (λ e. refl) decodes log c c' (λ _. none)
            (empty-IsLog bolt laws json.elements (λ e. e) (λ e. e) (λ e. e.element_id) (λ e. refl)
              decodes c (λ k. ap (λ x. bolt.get x k) (sym same) ∙ nothing k))
            (λ k e i. entries_at-named d.memory (nodes d cs) k e i) written in
        let (s, loaded, noted, lookups) =
          load_elements-notes bolt laws json decodes c' room' memory allocated saved_at after stored
            positive in
        (s, loaded, IsNoted-IsImage s noted lookups)
