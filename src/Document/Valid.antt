-- ===== src/Document/Valid.antt =====
-- The invariant of a document: its elements form one doubly linked list between the sentinels,
-- the map names exactly the elements of the list, and the counter counts the visible ones.
use mathlib.Core.List.{append_assoc}
use mathlib.Core.Path.{subst}
use yata_collaborative_edito.Base.{
  ℕ, ◌+◌, ◌<◌, ◌≡◌, ◌≢◌, refl, sym, Bool, true, false, some, List, [], ◌∷◌, ◌++◌, arith,
  if◌then◌else◌, has, Distinct, All, All-has, Option-cases, inl, inr, none, length, pos, lookup,
}
use yata_collaborative_edito.Identifier.{ElementId, id_Eq}
use yata_collaborative_edito.Document.{
  Ptr, null, Element, Memory, Document, start_id, end_id, element_at,
}
use yata_collaborative_edito.Document.Update.{link_memory}
use yata_collaborative_edito.Document.Chain.{Linked, link-is_deleted, link-content}

-- The contents of the elements that are not deleted.
abbrev pub visible : Memory → List Ptr → List ℕ
visible m [] = []
visible m (c ∷ cs) = if (m c).is_deleted then visible m cs else (m c).content ∷ visible m cs

-- What replicas have to agree on about an element.
pub record Cell : Type 0 where
  pub id : ElementId
  pub content : ℕ
  pub is_deleted : Bool

abbrev pub cell : Memory → Ptr → Cell
cell m q = record { id = (m q).element_id; content = (m q).content; is_deleted = (m q).is_deleted }

-- The addresses of the elements `cs`, with those of the two sentinels.
abbrev pub nodes : Document → List Ptr → List Ptr
nodes d cs = d.start ∷ (cs ++ d.end ∷ [])

abbrev pub InUse : Document → Ptr → Type 0
InUse d p = (0 < p) × (p < d.allocated)

abbrev pub IsRegistered : Document → Ptr → Type 0
IsRegistered d p = lookup (d.memory p).element_id d.elements_by_id ≡ some p

-- `cs` are the addresses of the elements between the sentinels, in order.
pub record IsValid (d : Document) (cs : List Ptr) : Type 0 where
  pub linked : Linked d.memory d.start (cs ++ d.end ∷ [])
  pub distinct : Distinct (nodes d cs)
  pub in_use : All (InUse d) (nodes d cs)
  pub room : length cs + 2 < d.allocated
  pub end_live : (d.memory d.end).is_deleted ≡ false
  pub counter : d.character_counter ≡ pos (length (visible d.memory cs))
  pub start_named : (d.memory d.start).element_id ≡ start_id
  pub end_named : (d.memory d.end).element_id ≡ end_id
  pub registered : All (IsRegistered d) (nodes d cs)
  pub known :
      (id : ElementId) (p : Ptr)
      → lookup id d.elements_by_id ≡ some p
      → (has p (nodes d cs) ≡ true) × ((d.memory p).element_id ≡ id)

-- The address behind the first part of a chain.
abbrev pub first_of : List Ptr → Ptr → Ptr
first_of [] end = end
first_of (z ∷ zs) end = z

abbrev pub behind : List Ptr → Ptr → List Ptr
behind [] end = []
behind (z ∷ zs) end = zs ++ end ∷ []

pub first_of-behind :
    (xs zs : List Ptr) (end : Ptr) → (xs ++ zs) ++ end ∷ [] ≡ xs ++ first_of zs end ∷ behind zs end
first_of-behind xs [] end = append_assoc xs [] (end ∷ [])
first_of-behind xs (z ∷ zs) end = append_assoc xs (z ∷ zs) (end ∷ [])

pub visible-append :
    (m : Memory) (xs zs : List Ptr) → visible m (xs ++ zs) ≡ visible m xs ++ visible m zs
visible-append m [] zs = refl
visible-append m (x ∷ xs) zs = ground (arith, visible-append m xs zs)

pub visible-link :
    (m : Memory) (p : Ptr) (e : Element) (l r : Ptr) (cs : List Ptr)
    → has p cs ≡ false
    → visible (link_memory m p e l r) cs ≡ visible m cs
visible-link m p e l r [] h = refl
visible-link m p e l r (c ∷ cs) h =
    ground (arith, link-is_deleted m p e l r c, link-content m p e l r c, visible-link m p e l r cs)

pub first_of-append :
    (xs zs : List Ptr) (end : Ptr) → first_of (xs ++ zs) end ≡ first_of xs (first_of zs end)
first_of-append [] zs end = refl
first_of-append (x ∷ xs) zs end = refl

module _ (d : Document) (id : ElementId) where
  pub element_at-some : (p : Ptr) → lookup id d.elements_by_id ≡ some p → element_at d id ≡ p
  unfolding element_at
  element_at-some p e = rw (e, element_at)

  pub element_at-none : lookup id d.elements_by_id ≡ none → element_at d id ≡ null
  unfolding element_at
  element_at-none e = rw (e, element_at)

-- The map finds every element of the list by its identifier.
pub element_at-node :
    {d : Document} {cs : List Ptr} (p : Ptr)
    → IsValid d cs
    → has p (nodes d cs) ≡ true
    → element_at d (d.memory p).element_id ≡ p
element_at-node {d} {cs} p v h =
    element_at-some d _ p (All-has (IsRegistered d) (nodes d cs) p v.registered h)

-- What the map finds is an element of the list with that identifier.
pub element_at-has :
    {d : Document} {cs : List Ptr} (id : ElementId)
    → IsValid d cs
    → element_at d id ≢ null
    → (has (element_at d id) (nodes d cs) ≡ true)
      × ((d.memory (element_at d id)).element_id ≡ id)
      × (lookup id d.elements_by_id ≡ some (element_at d id))
element_at-has {d} {cs} id v h = elim (Option-cases (lookup id d.elements_by_id)) [
  | inl e ↦ absurd (h (element_at-none d id e))
  | inr (p, e) ↦
      let (a, b) = v.known id p e in
      subst
        (λ q.
          (has q (nodes d cs) ≡ true)
          × ((d.memory q).element_id ≡ id)
          × (lookup id d.elements_by_id ≡ some q))
        (sym (element_at-some d id p e)) (a, b, e)
]

-- An identifier that the map does not find is unused.
pub element_at-null :
    {d : Document} {cs : List Ptr} (id : ElementId)
    → IsValid d cs
    → element_at d id ≡ null
    → lookup id d.elements_by_id ≡ none
element_at-null {d} {cs} id v h = elim (Option-cases (lookup id d.elements_by_id)) [
  | inl e ↦ e
  | inr (p, e) ↦
      let used = All-has (InUse d) (nodes d cs) p v.in_use (v.known id p e).0 in
      absurd (ground (arith, used, element_at-some d id p e))
]
