-- ===== src/Storage/Overlay.antt =====
-- The map that a log of operations is saved over, and the map after that.
use yata_collaborative_edito.Base.{
  none, some, Option, [], ◌∷◌, ◌≡◌, ◌⊎◌, refl, ap, inl, inr, arith, if◌then◌else◌, Map, lookup,
  insert, lookup-insert, Eq, In, Bool-cases,
}
use yata_collaborative_edito.Identifier.{ElementId, id_eq, id_eq_iff, id_Eq}

pub lookup-In :
    {K V : Type 0} ⦃e : Eq K⦄ (k : K) (v : V) (m : Map K V) → lookup k m ≡ some v → In (k, v) m
unfolding lookup
lookup-In k v [] found = absurd (ground (arith, found))
lookup-In ⦃e⦄ k v ((j, w) ∷ m) found = ground (arith, found, e.beq_iff j k, lookup-In k v m)

-- The entry's value is the one that the map has for its key.
abbrev pub IsMap : {V : Type 0} → Map ElementId V → Type 0
IsMap {V} m = (k : ElementId) (v : V) → In (k, v) m → lookup k m ≡ some v

-- No key stands twice.
unfoldable pub IsKeyed : {V : Type 0} → Map ElementId V → Type 0
IsKeyed [] = Unit
IsKeyed ((k, v) ∷ m) = (lookup k m ≡ none) × IsKeyed m

pub IsKeyed-IsMap : {V : Type 0} (m : Map ElementId V) → IsKeyed m → IsMap m
unfolding IsKeyed lookup
IsKeyed-IsMap [] keyed k v i = absurd i
IsKeyed-IsMap ((j, w) ∷ m) keyed k v (inl e) =
    ground (arith, id_eq_iff j k, ap (λ x. x.0) e, ap (λ x. x.1) e)
IsKeyed-IsMap ((j, w) ∷ m) keyed k v (inr i) =
    ground (arith, id_eq_iff j k, keyed.0, IsKeyed-IsMap m keyed.1 k v i)

pub insert-IsKeyed :
    {V : Type 0} (k : ElementId) (v : V) (m : Map ElementId V) → IsKeyed m → IsKeyed (insert k v m)
unfolding IsKeyed lookup insert
insert-IsKeyed k v [] keyed = (refl, tt)
insert-IsKeyed k v ((j, w) ∷ m) keyed = elim (Bool-cases (id_eq j k)) [
  | inl e ↦ ground (arith, e, (id_eq_iff j k).0 e, keyed.0, keyed.1)
  | inr e ↦ ground (
    arith,
    e,
    id_eq_iff j k,
    id_eq_iff k j,
    keyed.0,
    lookup-insert k j v m,
    insert-IsKeyed k v m keyed.1,
  )
]

module _ {V : Type 0} where
  abbrev pub set_at : ElementId → V → (ElementId → Option V) → ElementId → Option V
  set_at k v m id = if id_eq k id then some v else m id

  -- The map after its entries have been put over `m`, one by one.
  unfoldable pub overlay : Map ElementId V → (ElementId → Option V) → ElementId → Option V
  overlay [] m = m
  overlay ((k, v) ∷ rest) m = overlay rest (set_at k v m)

  pub overlay-hit :
      (log : Map ElementId V) (m : ElementId → Option V) (id : ElementId) (v : V)
      → ((w : V) → In (id, w) log → w ≡ v)
      → (m id ≡ some v) ⊎ In (id, v) log
      → overlay log m id ≡ some v
  unfolding overlay
  overlay-hit [] m id v same (inl e) = e
  overlay-hit [] m id v same (inr i) = absurd i
  overlay-hit ((k, w) ∷ rest) m id v same there = elim (Bool-cases (id_eq k id)) [
    | inl e ↦
        let k_id = (id_eq_iff k id).0 e in
        overlay-hit rest (set_at k w m) id v (λ u i. same u (inr i))
          (inl (ground (arith, e, same w (inl (ap (λ x. (x, w)) k_id)))))
    | inr e ↦ elim there [
      | inl old ↦
          overlay-hit rest (set_at k w m) id v (λ u i. same u (inr i))
            (inl (ground (arith, e, old)))
      | inr (inl head) ↦
          absurd (ground (arith, e, id_eq_iff k id, ap (λ (x : ElementId × V). x.0) head))
      | inr (inr later) ↦ overlay-hit rest (set_at k w m) id v (λ u i. same u (inr i)) (inr later)
    ]
  ]

  pub overlay-miss :
      (log : Map ElementId V) (m : ElementId → Option V) (id : ElementId)
      → lookup id log ≡ none
      → overlay log m id ≡ m id
  unfolding overlay lookup
  overlay-miss [] m id missing = refl
  overlay-miss ((k, w) ∷ rest) m id missing =
      ground (arith, missing, overlay-miss rest (set_at k w m) id)
