-- ===== src/Hydration/Relations.antt =====
-- RebuildRelations: which pointers it sets, and that it touches nothing else.
use yata_collaborative_edito.Base.{
  true, some, [], ◌∷◌, ◌==◌, ==_iff, ◌≡◌, ◌≢◌, ◌∙◌, ◌⊎◌, refl, ap, inl, inr, arith, if◌then◌else◌,
  Map, lookup, In, Bool-cases,
}
use yata_collaborative_edito.Identifier.{ElementId, id_Eq}
use yata_collaborative_edito.Document.{Ptr, null, Memory, write}
use yata_collaborative_edito.Storage.Serializing.{PersistedElement}
use yata_collaborative_edito.Hydration.{
  rebuilt, pointer_to, is_sentinel_client, relate, rebuild_one, rebuild_relations,
}

module _ (persisted : Map ElementId PersistedElement) (by_id : Map ElementId Ptr) where
  -- The element at `q` has the pointers that are persisted under `k`.
  pub record IsRelated (m : Memory) (k : ElementId) (q : Ptr) (e : PersistedElement) : Type 0 where
    pub left : (m q).left ≡ pointer_to by_id e.left_id
    pub right : (m q).right ≡ pointer_to by_id e.right_id
    pub origin :
        (m q).origin
        ≡ (if is_sentinel_client k.client_id then null else pointer_to by_id e.origin_id)

  -- What the elements are, apart from their pointers.
  pub record IsSame (m m' : Memory) : Type 0 where
    pub ids : (q : Ptr) → (m' q).element_id ≡ (m q).element_id
    pub contents : (q : Ptr) → (m' q).content ≡ (m q).content
    pub deleted : (q : Ptr) → (m' q).is_deleted ≡ (m q).is_deleted

  -- An element of the loop whose own entry and neighbours are there.
  unfoldable pub IsComplete : ElementId → PersistedElement → Type 0
  IsComplete k e =
      (lookup k persisted ≡ some e)
      × ((is_sentinel_client k.client_id ≡ true)
          ⊎ ((pointer_to by_id e.origin_id ≢ null)
              × (pointer_to by_id e.left_id ≢ null)
              × (pointer_to by_id e.right_id ≢ null)))

  abbrev related : Memory → ElementId → Ptr → PersistedElement → Memory
  related m k p e =
      relate m p (if is_sentinel_client k.client_id then null else pointer_to by_id e.origin_id)
        (pointer_to by_id e.left_id) (pointer_to by_id e.right_id)

  rebuild_one-related :
      (k : ElementId) (p : Ptr) (m : Memory) (e : PersistedElement)
      → IsComplete k e
      → rebuild_one persisted by_id k p m ≡ rebuilt (related m k p e)
  unfolding rebuild_one IsComplete
  rebuild_one-related k p m e (there, complete) = ground (
    arith,
    there,
    complete,
    ==_iff (pointer_to by_id e.origin_id) null,
    ==_iff (pointer_to by_id e.left_id) null,
    ==_iff (pointer_to by_id e.right_id) null,
  )

  -- One round relates its own element and leaves what is related, if it has the same entry or
  -- another address.
  related-IsRelated :
      (k j : ElementId) (p q : Ptr) (m : Memory) (e f : PersistedElement)
      → ((p ≡ q) × (k ≡ j) × (e ≡ f)) ⊎ ((p ≢ q) × IsRelated m j q f)
      → IsRelated (related m k p e) j q f
  unfolding relate write
  related-IsRelated k j p q m e f (inl (same, keys, values)) = record {
    left = ground (arith, ap (λ (x : PersistedElement). pointer_to by_id x.left_id) values);
    right = ground (arith, ap (λ (x : PersistedElement). pointer_to by_id x.right_id) values);
    origin = ground (
      arith,
      ap (λ (x : PersistedElement). pointer_to by_id x.origin_id) values,
      ap (λ (x : ElementId). is_sentinel_client x.client_id) keys,
    );
  }
  related-IsRelated k j p q m e f (inr (differs, old)) = record {
    left = ground (arith, differs, old.left);
    right = ground (arith, differs, old.right);
    origin = ground (arith, differs, old.origin);
  }

  related-IsSame :
      (k : ElementId) (p : Ptr) (m : Memory) (e : PersistedElement) → IsSame m (related m k p e)
  unfolding relate write
  related-IsSame k p m e = record {
    ids = λ q. ground arith;
    contents = λ q. ground arith;
    deleted = λ q. ground arith;
  }

  -- The entries are complete, and different keys have different addresses.
  pub record IsProper (entry : ElementId → PersistedElement) (es : Map ElementId Ptr) : Type 0 where
    pub complete : (k : ElementId) (p : Ptr) → In (k, p) es → IsComplete k (entry k)
    pub apart : (k j : ElementId) (p : Ptr) → In (k, p) es → In (j, p) es → k ≡ j

  rest-IsProper :
      (entry : ElementId → PersistedElement) (k : ElementId) (p : Ptr) (es : Map ElementId Ptr)
      → IsProper entry ((k, p) ∷ es)
      → IsProper entry es
  rest-IsProper entry k p es proper = record {
    complete = λ j q i. proper.complete j q (inr i);
    apart = λ j l q i h. proper.apart j l q (inr i) (inr h);
  }

  pub record IsRestored (entry : ElementId → PersistedElement) (es : Map ElementId Ptr)
      (m m' : Memory) : Type 0 where
    pub run : rebuild_relations persisted by_id es m ≡ rebuilt m'
    pub same : IsSame m m'
    pub relations :
        (k : ElementId) (p : Ptr)
        → In (k, p) es ⊎ (IsRelated m k p (entry k) × ((j : ElementId) → In (j, p) es → j ≡ k))
        → IsRelated m' k p (entry k)

  kept_or_set :
      (entry : ElementId → PersistedElement) (k j : ElementId) (p q : Ptr) (m : Memory)
      → IsRelated m j q (entry j)
      → (p ≡ q → k ≡ j)
      → ((p ≡ q) × (k ≡ j) × (entry k ≡ entry j)) ⊎ ((p ≢ q) × IsRelated m j q (entry j))
  kept_or_set entry k j p q m old only = elim (Bool-cases (p == q)) [
    | inl e ↦ let same = (==_iff p q).0 e in inl (same, only same, ap entry (only same))
    | inr e ↦ inr (λ same. ground (arith, e, same), old)
  ]

  -- RebuildRelations of complete entries gives every element its persisted neighbours.
  pub rebuild_relations-IsRestored :
      (entry : ElementId → PersistedElement) (es : Map ElementId Ptr) (m : Memory)
      → IsProper entry es
      → (m' : Memory) × IsRestored entry es m m'
  unfolding rebuild_relations
  rebuild_relations-IsRestored entry [] m proper = (
    m,
    record {
      run = refl;
      same = record { ids = λ q. refl; contents = λ q. refl; deleted = λ q. refl };
      relations = λ k p h. elim h [ inl i ↦ absurd i | inr (old, _) ↦ old ];
    },
  )
  rebuild_relations-IsRestored entry ((k, p) ∷ es) m proper =
      let one = related m k p (entry k) in
      let (m', later) =
        rebuild_relations-IsRestored entry es one (rest-IsProper entry k p es proper) in
      let first = related-IsSame k p m (entry k) in
      let step = rebuild_one-related k p m (entry k) (proper.complete k p (inl refl)) in
      (
        m',
        record {
          run = ground (arith, step, later.run);
          same = record {
            ids = λ q. later.same.ids q ∙ first.ids q;
            contents = λ q. later.same.contents q ∙ first.contents q;
            deleted = λ q. later.same.deleted q ∙ first.deleted q;
          };
          relations = λ j q h. elim h [
            | inl (inr i) ↦ later.relations j q (inl i)
            | inl (inl e) ↦
                let keys = ap (λ (x : ElementId × Ptr). x.0) e in
                let places = ap (λ (x : ElementId × Ptr). x.1) e in
                later.relations j q (
                  inr (
                    related-IsRelated k j p q m (entry k) (entry j)
                        (inl (places, keys, ap entry keys)),
                    λ l i. proper.apart l j q (inr i) (inl e),
                  ))
            | inr (old, only) ↦ later.relations j q (
                inr (
                  related-IsRelated k j p q m (entry k) (entry j)
                      (kept_or_set entry k j p q m old (λ at. only k (inl (ap (λ x. (k, x)) at)))),
                  λ l i. only l (inr i),
                ))
          ];
        },
      )
