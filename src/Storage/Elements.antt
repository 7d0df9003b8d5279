-- ===== src/Storage/Elements.antt =====
-- LoadElements: what it has noted of the elements of a bucket.
use yata_collaborative_edito.Base.{
  true, some, is_some, List, [], ◌∷◌, ◌≡◌, ◌<◌, ◌∙◌, ◌⊎◌, Option, refl, sym, ap, inl, inr, arith,
  ==_iff, lookup, lookup-insert, In, text_eq_iff, text_Eq, Bool-cases, Option-cases,
}
use yata_collaborative_edito.Identifier.{ElementId, id_eq, id_eq_iff, id_Eq}
use yata_collaborative_edito.Protocol.Messages.{Bytes}
use yata_collaborative_edito.Document.{Ptr, Memory, write, new_element}
use yata_collaborative_edito.Storage.{done, elements_key}
use yata_collaborative_edito.Storage.Buckets.{Bolt, BoltLaws}
use yata_collaborative_edito.Storage.Keys.{format_id, format_id_injective}
use yata_collaborative_edito.Storage.Serializing.{PersistedElement, to_element}
use yata_collaborative_edito.Storage.Documents.{
  PersistedJson, LoadedElements, note_element, load_entries, load_elements,
}
use yata_collaborative_edito.Storage.Logs.{Read, IsLog}
use yata_collaborative_edito.Storage.Overlay.{IsKeyed, insert-IsKeyed}

-- The element at the address was made of what is persisted.
pub record IsLoaded (s : LoadedElements) (q : Ptr) (e : PersistedElement) : Type 0 where
  pub positive : 0 < q
  pub allocated : q < s.allocated
  pub id : (s.memory q).element_id ≡ e.element_id
  pub content : (s.memory q).content ≡ e.content
  pub is_deleted : (s.memory q).is_deleted ≡ e.is_deleted

-- What LoadElements has noted so far stands in `m`.
pub record IsNoted (m : ElementId → Option PersistedElement) (s : LoadedElements) : Type 0 where
  pub positive : 0 < s.allocated
  pub keyed : IsKeyed s.by_id
  pub persisted :
      (id : ElementId) (e : PersistedElement) → lookup id s.persisted ≡ some e → m id ≡ some e
  pub both : (id : ElementId) → is_some (lookup id s.by_id) ≡ is_some (lookup id s.persisted)
  pub loaded :
      (id : ElementId) (q : Ptr)
      → lookup id s.by_id ≡ some q
      → (e : PersistedElement) × (m id ≡ some e) × (e.element_id ≡ id) × IsLoaded s q e

note_element-IsLoaded :
    (m : ElementId → Option PersistedElement) (p : PersistedElement) (s : LoadedElements)
    (id : ElementId) (q : Ptr)
    → IsNoted m s
    → m p.element_id ≡ some p
    → lookup id (note_element p s).by_id ≡ some q
    → (e : PersistedElement) × (m id ≡ some e)
      × (e.element_id ≡ id)
      × IsLoaded (note_element p s) q e
unfolding note_element to_element write new_element
note_element-IsLoaded m p s id q noted there found = elim (Bool-cases (id_eq p.element_id id)) [
  | inl e ↦
      let named = (id_eq_iff p.element_id id).0 e in
      let new : q ≡ s.allocated =
        ground (arith, found, e, lookup-insert p.element_id id s.allocated s.by_id) in
      (
        p,
        ap m (sym named) ∙ there,
        named,
        record {
          positive = ground (arith, new, noted.positive);
          allocated = omega (arith, new);
          id = ground (arith, new, ==_iff s.allocated q);
          content = ground (arith, new, ==_iff s.allocated q);
          is_deleted = ground (arith, new, ==_iff s.allocated q);
        },
      )
  | inr e ↦
      let (old, stands, named, copy) =
        noted.loaded id q
          (ground (arith, found, e, lookup-insert p.element_id id s.allocated s.by_id)) in
      (
        old,
        stands,
        named,
        record {
          positive = copy.positive;
          allocated = omega (arith, copy.allocated);
          id = ground (arith, copy.allocated, copy.id, ==_iff s.allocated q);
          content = ground (arith, copy.allocated, copy.content, ==_iff s.allocated q);
          is_deleted = ground (arith, copy.allocated, copy.is_deleted, ==_iff s.allocated q);
        },
      )
]

note_element-IsNoted :
    (m : ElementId → Option PersistedElement) (p : PersistedElement) (s : LoadedElements)
    → IsNoted m s
    → m p.element_id ≡ some p
    → IsNoted m (note_element p s)
unfolding note_element to_element new_element
note_element-IsNoted m p s noted there = record {
  positive = omega (arith, noted.positive);
  keyed = insert-IsKeyed p.element_id s.allocated s.by_id noted.keyed;
  persisted = λ id e found. ground (
    arith,
    found,
    there,
    id_eq_iff p.element_id id,
    lookup-insert p.element_id id p s.persisted,
    noted.persisted id e,
  );
  both = λ id. ground (
    arith,
    lookup-insert p.element_id id p s.persisted,
    lookup-insert p.element_id id s.allocated s.by_id,
    noted.both id,
  );
  loaded = λ id q found. note_element-IsLoaded m p s id q noted there found;
}

module _ (bolt : Bolt) (laws : BoltLaws bolt) (json : PersistedJson)
    (decodes : (p : PersistedElement) (b : Bytes)
      → json.elements.marshal p ≡ some b
      → json.elements.unmarshal b ≡ some p) where
  -- The bucket holds these elements and nothing else.
  abbrev pub ElementStored : bolt.Bucket → (ElementId → Option PersistedElement) → Type 0
  ElementStored b m =
      IsLog bolt laws json.elements (λ e. e) (λ e. e) (λ e. e.element_id) (λ e. refl) decodes b m

  abbrev pub ElementRead : Bytes → Bytes → (ElementId → Option PersistedElement) → Type 0
  ElementRead k v m =
      Read bolt laws json.elements (λ e. e) (λ e. e) (λ e. e.element_id) (λ e. refl) decodes k v m

  load_entries-notes :
      (m : ElementId → Option PersistedElement) (es : List (Bytes × Bytes)) (s : LoadedElements)
      → ((k v : Bytes) → In (k, v) es → ElementRead k v m)
      → IsNoted m s
      → (t : LoadedElements) × (load_entries bolt json.elements note_element es s ≡ done t)
        × IsNoted m t
        × ((id : ElementId)
            → (is_some (lookup id s.persisted) ≡ true) ⊎ (is_some (lookup (format_id id) es) ≡ true)
            → is_some (lookup id t.persisted) ≡ true)
  unfolding load_entries lookup note_element
  load_entries-notes m [] s reads noted = (s, refl, noted, λ id held. ground (arith, held))
  load_entries-notes m ((k, v) ∷ rest) s reads noted =
      let r = reads k v (inl refl) in
      let p = r.value in
      let (t, loaded, after, covered) =
        load_entries-notes m rest (note_element p s) (λ j w i. reads j w (inr i))
          (note_element-IsNoted m p s noted r.held) in
      (
        t,
        ground (arith, r.decoded, loaded),
        after,
        λ id held. covered id (
            ground (
              arith,
              held,
              r.named,
              lookup-insert p.element_id id p s.persisted,
              text_eq_iff k (format_id id),
              id_eq_iff p.element_id id,
              format_id_injective p.element_id id,
            )),
      )

  -- LoadElements of a bucket that holds these elements notes them all.
  pub load_elements-notes :
      (b room : bolt.Bucket) (memory : Memory) (allocated : Ptr)
      (m : ElementId → Option PersistedElement)
      → bolt.bucket room elements_key ≡ some b
      → ElementStored b m
      → 0 < allocated
      → (s : LoadedElements) × (load_elements bolt json room memory allocated ≡ done s)
        × IsNoted m s
        × ((id : ElementId) → lookup id s.persisted ≡ m id)
  unfolding load_elements lookup IsKeyed
  load_elements-notes b room memory allocated m there stored positive =
      let (s, loaded, noted, covered) =
        load_entries-notes m (bolt.entries b)
          (record { persisted = []; by_id = []; memory = memory; allocated = allocated })
          (λ k v i. stored.reads k v (laws.entries-In b k v i))
          (record {
            positive = positive;
            keyed = tt;
            persisted = λ id e found. absurd (ground (arith, found));
            both = λ id. refl;
            loaded = λ id q found. absurd (ground (arith, found));
          }) in
      (
        s,
        ground (arith, there, loaded),
        noted,
        λ id. elim (Option-cases (lookup id s.persisted)) [
          | inr (e, found) ↦ found ∙ sym (noted.persisted id e found)
          | inl missing ↦ elim (Option-cases (m id)) [
            | inl none_there ↦ missing ∙ sym none_there
            | inr (e, held) ↦
                let seen = covered id (
                  inr (
                    ap is_some (laws.lookup-entries b (format_id id))
                    ∙ stored.present id (ap is_some held))) in
                absurd (ground (arith, seen, missing))
          ]
        ],
      )
