-- ===== src/Storage/Walk.antt =====
-- SaveElements walks the list of a valid document once, from end to end.
use yata_collaborative_edito.Base.{
  ℕ, zero, suc, ◌<◌, ◌≡◌, ◌≢◌, refl, inl, inr, ◌⊎◌, List, [], ◌∷◌, ◌++◌, arith, ==_iff, All,
  All-map, length, length-append, Map, ok, Option-cases,
}
use yata_collaborative_edito.Identifier.{ElementId}
use yata_collaborative_edito.Document.{Ptr, null, Memory, Document}
use yata_collaborative_edito.Document.Chain.{Linked}
use yata_collaborative_edito.Document.Valid.{IsValid, nodes}
use yata_collaborative_edito.Storage.{Stored, done, failed, StorageError, elements_key}
use yata_collaborative_edito.Storage.Buckets.{Bolt}
use yata_collaborative_edito.Storage.Keys.{format_id}
use yata_collaborative_edito.Storage.Serializing.{PersistedElement, to_persisted_element}
use yata_collaborative_edito.Storage.Documents.{
  PersistedJson, in_bucket, put_value, save_operations, save_elements_loop, save_elements,
}

-- The elements at the addresses, as they are persisted, each under its identifier.
unfoldable pub entries_at : Memory → List Ptr → Map ElementId PersistedElement
entries_at m [] = []
entries_at m (p ∷ ps) = ((m p).element_id, to_persisted_element m p) ∷ entries_at m ps

Stored-cases :
    {A : Type 0} (r : Stored A) → ((e : StorageError) × (r ≡ failed e)) ⊎ ((a : A) × (r ≡ done a))
Stored-cases (done a) = inr (a, refl)
Stored-cases (failed e) = inl (e, refl)

module _ (bolt : Bolt) (json : PersistedJson) where
  save_elements_loop-null :
      (fuel : ℕ) (m : Memory) (b : bolt.Bucket)
      → 0 < fuel
      → save_elements_loop bolt json fuel m null b ≡ ok (done b)
  unfolding save_elements_loop
  save_elements_loop-null zero m b h = absurd (omega (arith, h))
  save_elements_loop-null (suc fuel) m b h = refl

  save_elements_loop-walks :
      (fuel : ℕ) (m : Memory) (a : Ptr) (bs : List Ptr) (b : bolt.Bucket)
      → Linked m a bs
      → All (λ p. p ≢ null) (a ∷ bs)
      → length (a ∷ bs) < fuel
      → save_elements_loop bolt json fuel m a b
        ≡ ok (save_operations bolt json.elements (λ e. e) (entries_at m (a ∷ bs)) b)
  unfolding save_elements_loop save_operations entries_at
  save_elements_loop-walks zero m a bs b l there h = absurd (omega (arith, h))
  save_elements_loop-walks (suc fuel) m a [] b l (here, _) h =
      elim (Stored-cases
        (put_value bolt json.elements b (format_id (m a).element_id) (to_persisted_element m a))) [
          | inl (e, r) ↦ ground (arith, r, here, ==_iff a null)
          | inr (c, r) ↦ ground (
            arith,
            r,
            here,
            ==_iff a null,
            l,
            save_elements_loop-null fuel m c (omega (arith, h)),
          )
        ]
  save_elements_loop-walks (suc fuel) m a (x ∷ bs) b l (here, there) h =
      elim (Stored-cases
        (put_value bolt json.elements b (format_id (m a).element_id) (to_persisted_element m a))) [
          | inl (e, r) ↦ ground (arith, r, here, ==_iff a null)
          | inr (c, r) ↦ ground (
            arith,
            r,
            here,
            ==_iff a null,
            l.0,
            save_elements_loop-walks fuel m x bs c l.2 there (omega (arith, h)),
          )
        ]

  -- On a valid document the loop of SaveElements ends, and what SaveElements does is to put every
  -- element from the start to the end, both included, in their order, up to the first error.
  pub save_elements_ends :
      (room : bolt.Bucket) (d : Document) (cs : List Ptr)
      → IsValid d cs
      → save_elements bolt json room d
        ≡ ok (
            in_bucket bolt room elements_key
              (save_operations bolt json.elements (λ e. e) (entries_at d.memory (nodes d cs))))
  unfolding save_elements in_bucket
  save_elements_ends room d cs v = elim (Option-cases (bolt.bucket room elements_key)) [
    | inl e ↦ ground (arith, e)
    | inr (b, e) ↦
        let walk =
          save_elements_loop-walks (suc d.allocated) d.memory d.start (cs ++ d.end ∷ []) b v.linked
            (All-map _ _ (nodes d cs) (λ p h null_p. ground (arith, h, null_p)) v.in_use)
            (ground (arith, v.room, length-append cs (d.end ∷ []))) in
        ground (arith, e, walk)
  ]
