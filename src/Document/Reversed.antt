-- ===== src/Document/Reversed.antt =====
-- integrateInsert where the right neighbour does not stand behind the origin: the walk of
-- conflictZone runs off the end of the list. And where the two can stand at all.
use mathlib.Core.Path.{subst}
use mathlib.Core.List.{append_assoc, append-nil}
use yata_collaborative_edito.Base.{
  ℕ, zero, suc, ◌<◌, ◌≡◌, ◌≢◌, ◌∙◌, ◌⊎◌, refl, sym, true, false, inl, inr, List, [], ◌∷◌, ◌++◌,
  arith, ◌==◌, Bool-cases, ==_iff, has, has-append, has-split, last_of, last_of-append, length,
  length-append, panic, All-suffix,
}
use yata_collaborative_edito.Identifier.{ElementId}
use yata_collaborative_edito.Document.{Ptr, null, Memory, Document, element_at, deref}
use yata_collaborative_edito.Document.Traversal.{conflict_loop, conflict_zone, find_insertion_point}
use yata_collaborative_edito.Document.Update.{integrate_insert}
use yata_collaborative_edito.Document.Chain.{Linked}
use yata_collaborative_edito.Document.Valid.{nodes, IsValid, first_of}
use yata_collaborative_edito.Document.Positions.{NonNull, non_null}
use yata_collaborative_edito.Document.Conflicts.{Linked-suffix}
use yata_collaborative_edito.Document.Linking.{left_used}

-- A walk to an element that does not come runs into nil.
conflict_loop_lost :
    (m : Memory) (t a : Ptr) (cs : List Ptr) (fuel : ℕ)
    → Linked m a cs
    → NonNull cs
    → has t cs ≡ false
    → t ≢ null
    → length cs < fuel
    → conflict_loop m fuel (m a).right t ≡ panic
unfolding conflict_loop
conflict_loop_lost m t a cs zero s nn h n small = absurd (omega arith)
conflict_loop_lost m t a [] (suc fuel) s nn h n small = ground arith
conflict_loop_lost m t a (c ∷ cs) (suc fuel) s nn h n small =
    ground (arith, conflict_loop_lost m t c cs fuel s.2 nn.1)

-- An address of the list is the end or the last of a first part.
pub node_cases :
    (d : Document) (cs : List Ptr) (q : Ptr)
    → has q (nodes d cs) ≡ true
    → (q ≡ d.end)
      ⊎ ((xs : List Ptr) × (rest : List Ptr) × (cs ≡ xs ++ rest) × (q ≡ last_of d.start xs))
node_cases d cs q h = elim (Bool-cases (q == d.start)) [
  | inl first ↦ inr ([], cs, refl, (==_iff q d.start).0 first)
  | inr later ↦ elim (Bool-cases (has q cs)) [
    | inl inside ↦
        let (ys, zs, e) = has-split q cs inside in
        inr (
          ys ++ q ∷ [],
          zs,
          e ∙ sym (append_assoc ys (q ∷ []) zs),
          sym (last_of-append d.start ys (q ∷ [])),
        )
    | inr outside ↦ inl (ground (arith, has-append q cs (d.end ∷ []), ==_iff q d.end))
  ]
]

-- An address stands in the rest of the list, as the first of a second part, or does not.
pub rest_cases :
    (end : Ptr) (rest : List Ptr) (q : Ptr)
    → ((mid : List Ptr) × (zs : List Ptr) × (rest ≡ mid ++ zs) × (q ≡ first_of zs end))
      ⊎ (has q (rest ++ end ∷ []) ≡ false)
rest_cases end rest q = elim (Bool-cases (has q rest)) [
  | inl inside ↦ let (mid, zs, e) = has-split q rest inside in inl (mid, q ∷ zs, e, refl)
  | inr outside ↦ elim (Bool-cases (q == end)) [
    | inl last ↦ inl (rest, [], sym (append-nil rest), (==_iff q end).0 last)
    | inr other ↦ inr (ground (arith, has-append q rest (end ∷ [])))
  ]
]

module _ (d : Document) (new_id origin_id right_id : ElementId) (content : ℕ) where
  -- A walk from an origin, over a list that has no such right neighbour.
  integrate_insert_lost :
      (cs : List Ptr)
      → Linked d.memory (element_at d origin_id) cs
      → NonNull (element_at d origin_id ∷ cs)
      → has (element_at d right_id) cs ≡ false
      → element_at d right_id ≢ null
      → length cs < suc d.allocated
      → integrate_insert d new_id origin_id right_id content ≡ panic
  unfolding integrate_insert find_insertion_point conflict_zone deref
  integrate_insert_lost cs linked nn lost n small =
      let walk =
        conflict_loop_lost d.memory (element_at d right_id) (element_at d origin_id) cs
          (suc d.allocated) linked nn.1 lost n small in
      ground (arith, walk)

module _ {d : Document} (new_id origin_id right_id : ElementId) (content : ℕ) where
  pub integrate_insert_end :
      {cs : List Ptr}
      → IsValid d cs
      → element_at d origin_id ≡ d.end
      → element_at d right_id ≢ null
      → integrate_insert d new_id origin_id right_id content ≡ panic
  integrate_insert_end {cs} v at n =
      integrate_insert_lost d new_id origin_id right_id content []
        (subst (λ a. Linked d.memory a []) (sym at ∙ refl)
          (subst (λ a. Linked d.memory a []) (last_of-append d.start cs (d.end ∷ []))
            (Linked-suffix d.memory d.start (cs ++ d.end ∷ []) []
              (subst (Linked d.memory d.start) (sym (append-nil (cs ++ d.end ∷ []))) v.linked))))
        (subst (λ a. 0 < a) (sym at) (All-suffix (λ p. 0 < p) cs (d.end ∷ []) (non_null v)).0, tt)
        refl n (omega arith)

  -- In a valid document, where the origin is in the list before the end and the right neighbour
  -- does not stand behind it, `integrateInsert` faults.
  pub integrate_insert_reversed :
      (xs rest : List Ptr)
      → IsValid d (xs ++ rest)
      → element_at d origin_id ≡ last_of d.start xs
      → element_at d right_id ≢ null
      → has (element_at d right_id) (rest ++ d.end ∷ []) ≡ false
      → integrate_insert d new_id origin_id right_id content ≡ panic
  integrate_insert_reversed xs rest v at n behind =
      integrate_insert_lost d new_id origin_id right_id content (rest ++ d.end ∷ [])
        (subst (λ a. Linked d.memory a (rest ++ d.end ∷ [])) (sym at)
          (Linked-suffix d.memory d.start xs (rest ++ d.end ∷ [])
            (subst (Linked d.memory d.start) (append_assoc xs rest (d.end ∷ [])) v.linked)))
        (
          subst (λ a. 0 < a) (sym at) (left_used xs rest v).0,
          All-suffix (λ p. 0 < p) xs (rest ++ d.end ∷ [])
              (subst NonNull (append_assoc xs rest (d.end ∷ [])) (non_null v)),
        )
        behind n (omega (arith, v.room, length-append xs rest, length-append rest (d.end ∷ [])))
