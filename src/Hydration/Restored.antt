-- ===== src/Hydration/Restored.antt =====
-- The chain of a document after RebuildRelations, from the elements that a valid document has saved.
use yata_collaborative_edito.Base.{
  ◌<◌, true, false, none, some, is_some, List, [], ◌∷◌, ◌++◌, ◌==◌, ==_iff, ◌≡◌, ◌≢◌, ◌∙◌, sym, ap,
  inl, inr, arith, lookup, Bool-cases, Option-cases, has, All, All-has,
}
use mathlib.Core.Path.{subst}
use yata_collaborative_edito.Identifier.{ElementId, id_Eq}
use yata_collaborative_edito.Document.{Ptr, null, Memory, Document, zero_id}
use yata_collaborative_edito.Document.Chain.{Linked}
use yata_collaborative_edito.Document.Valid.{IsValid, nodes, IsRegistered}
use yata_collaborative_edito.Storage.Overlay.{IsMap}
use yata_collaborative_edito.Storage.Serializing.{PersistedElement, id_of, to_persisted_element}
use yata_collaborative_edito.Storage.Documents.{LoadedElements}
use yata_collaborative_edito.Hydration.{pointer_to}

-- An element that LoadElements has made of the element at `p`
pub record IsCopy (m : Memory) (p : Ptr) (loaded : LoadedElements) (q : Ptr) : Type 0 where
  pub positive : 0 < q
  pub allocated : q < loaded.allocated
  pub id : (loaded.memory q).element_id ≡ (m p).element_id
  pub content : (loaded.memory q).content ≡ (m p).content
  pub is_deleted : (loaded.memory q).is_deleted ≡ (m p).is_deleted

-- What LoadElements gives when the bucket has exactly the elements of the document.
pub record IsImage (d : Document) (cs : List Ptr) (loaded : LoadedElements) : Type 0 where
  pub persisted :
      (p : Ptr)
      → has p (nodes d cs) ≡ true
      → lookup (d.memory p).element_id loaded.persisted ≡ some (to_persisted_element d.memory p)
  pub placed :
      (p : Ptr)
      → has p (nodes d cs) ≡ true
      → is_some (lookup (d.memory p).element_id loaded.by_id) ≡ true
  pub copies :
      (id : ElementId) (q : Ptr)
      → lookup id loaded.by_id ≡ some q
      → (p : Ptr) × (has p (nodes d cs) ≡ true)
        × ((d.memory p).element_id ≡ id)
        × IsCopy d.memory p loaded q
  pub is_map : IsMap loaded.by_id

pub right-in :
    (m : Memory) (a e p : Ptr) (bs : List Ptr)
    → Linked m a (bs ++ e ∷ [])
    → has p (a ∷ bs) ≡ true
    → has (m p).right (bs ++ e ∷ []) ≡ true
right-in m a e p [] l h = ground (arith, l, h, ==_iff p a)
right-in m a e p (b ∷ bs) l h = elim (Bool-cases (p == a)) [
  | inl same ↦ ground (arith, l.0, ap (λ x. (m x).right) ((==_iff p a).0 same))
  | inr other ↦ ground (arith, right-in m b e p bs l.2 (ground (arith, h, other)))
]

pub left-in :
    (m : Memory) (a p : Ptr) (bs : List Ptr)
    → Linked m a bs
    → has p bs ≡ true
    → has (m p).left (a ∷ bs) ≡ true
left-in m a p [] l h = absurd (ground (arith, h))
left-in m a p (b ∷ bs) l h = elim (Bool-cases (p == b)) [
  | inl same ↦ ground (arith, l.1, ap (λ x. (m x).left) ((==_iff p b).0 same))
  | inr other ↦ ground (arith, left-in m b p bs l.2 (ground (arith, h, other)))
]

abbrev pub blank_entry : PersistedElement
blank_entry = record {
  element_id = zero_id;
  origin_id = zero_id;
  left_id = zero_id;
  right_id = zero_id;
  is_deleted = false;
  content = 0;
}

-- The entry that is persisted under the key.
unfoldable pub entry_of : LoadedElements → ElementId → PersistedElement
entry_of loaded k = elim (lookup k loaded.persisted) [ none ↦ blank_entry | some e ↦ e ]

-- A valid document, in which each element's origin is in the list and none has the zero value as
-- its identifier, and what LoadElements gives of it.
pub record IsSaved (d : Document) (cs : List Ptr) (loaded : LoadedElements) : Type 0 where
  pub valid : IsValid d cs
  pub image : IsImage d cs loaded
  pub no_zero : lookup zero_id d.elements_by_id ≡ none
  pub rooted : All (λ p. has (d.memory p).origin (nodes d cs) ≡ true) cs

module _ (d : Document) (cs : List Ptr) (loaded : LoadedElements)
    (saved : IsSaved d cs loaded) where
  open saved use {valid, image, no_zero, rooted}

  -- Where the copy of an element stands.
  unfoldable pub copy_of : Ptr → Ptr
  copy_of p = pointer_to loaded.by_id (d.memory p).element_id

  pub copy_found :
      (p : Ptr)
      → has p (nodes d cs) ≡ true
      → lookup (d.memory p).element_id loaded.by_id ≡ some (copy_of p)
  unfolding copy_of pointer_to
  copy_found p h = elim (Option-cases (lookup (d.memory p).element_id loaded.by_id)) [
    | inl e ↦ absurd (ground (arith, e, image.placed p h))
    | inr (q, e) ↦ ground (arith, e)
  ]

  pub not-null : (p : Ptr) → has p (nodes d cs) ≡ true → p ≢ null
  not-null p h e = ground (arith, e, (All-has _ (nodes d cs) p valid.in_use h).0)

  pub same_element :
      (p q : Ptr)
      → has p (nodes d cs) ≡ true
      → has q (nodes d cs) ≡ true
      → (d.memory p).element_id ≡ (d.memory q).element_id
      → p ≡ q
  same_element p q hp hq e =
      let rp : IsRegistered d p = All-has (IsRegistered d) (nodes d cs) p valid.registered hp in
      let rq : IsRegistered d q = All-has (IsRegistered d) (nodes d cs) q valid.registered hq in
      let both : some p ≡ some q = sym rp ∙ ap (λ x. lookup x d.elements_by_id) e ∙ rq in
      ground (arith, both)

  pub copy_of-IsCopy : (p : Ptr) → has p (nodes d cs) ≡ true → IsCopy d.memory p loaded (copy_of p)
  copy_of-IsCopy p h =
      let (o, inside, same, copy) =
        image.copies (d.memory p).element_id (copy_of p) (copy_found p h) in
      subst (λ x. IsCopy d.memory x loaded (copy_of p)) (same_element o p inside h same) copy

  -- The pointer that is read back for a pointer of the document.
  pub pointer_back :
      (x : Ptr) → has x (nodes d cs) ≡ true → pointer_to loaded.by_id (id_of d.memory x) ≡ copy_of x
  unfolding copy_of id_of
  pointer_back x h = ground (arith, ==_iff x null, not-null x h)

  pub copy-not_null : (x : Ptr) → has x (nodes d cs) ≡ true → copy_of x ≢ null
  copy-not_null x h e = ground (arith, e, (copy_of-IsCopy x h).positive)

  pub pointer_nowhere : pointer_to loaded.by_id (id_of d.memory null) ≡ null
  unfolding id_of pointer_to
  pointer_nowhere = elim (Option-cases (lookup zero_id loaded.by_id)) [
    | inl e ↦ ground (arith, e)
    | inr (q, e) ↦
        let (p, h, zero_named, _) = image.copies zero_id q e in
        let there : IsRegistered d p = All-has (IsRegistered d) (nodes d cs) p valid.registered h in
        absurd (ground (arith, there, no_zero, zero_named))
  ]

  pub entry_of-node :
      (p : Ptr)
      → has p (nodes d cs) ≡ true
      → entry_of loaded (d.memory p).element_id ≡ to_persisted_element d.memory p
  unfolding entry_of
  entry_of-node p h = ground (arith, image.persisted p h)
