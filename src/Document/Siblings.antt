-- ===== src/Document/Siblings.antt =====
-- Concurrent insertions at one place: elements with the same origin are kept in the order of
-- their identifiers, whatever the order of arrival.
use yata_collaborative_edito.Base.{
  ◌≡◌, ◌≢◌, refl, sym, ap, true, false, inl, inr, List, [], ◌∷◌, ◌++◌, map, arith, if◌then◌else◌,
  Bool-cases, All, text_ltb_asymm, text_ltb_total, text_ltb_trans,
}
use yata_collaborative_edito.Identifier.{ElementId}
use yata_collaborative_edito.Document.{Ptr, Document}
use yata_collaborative_edito.Document.Traversal.{id_before}
use yata_collaborative_edito.Document.Valid.{Cell, cell}
use yata_collaborative_edito.Document.Conflicts.{origin_first, Passes, Stops}

-- The place of a new element among its siblings: before the first that is not before it.
abbrev pub place : Cell → List Cell → List Cell
place x [] = x ∷ []
place x (y ∷ ys) = if id_before y.id x.id then y ∷ place x ys else x ∷ y ∷ ys

module _ (a b : ElementId) where
  pub id_before_asymm : id_before a b ≡ true → id_before b a ≡ false
  unfolding id_before
  id_before_asymm h = ground (arith, text_ltb_asymm a.client_id b.client_id)

  pub id_before_total : a ≢ b → id_before a b ≡ false → id_before b a ≡ true
  unfolding id_before
  id_before_total ne h = ground (arith, text_ltb_total a.client_id b.client_id)

pub id_before_trans :
    (a b c : ElementId) → id_before a b ≡ true → id_before b c ≡ true → id_before a c ≡ true
unfolding id_before
id_before_trans a b c h k = ground (arith, text_ltb_trans a.client_id b.client_id c.client_id)

place_comm_before :
    (x y : Cell) (zs : List Cell)
    → id_before x.id y.id ≡ true
    → place x (place y zs) ≡ place y (place x zs)
place_comm_before x y [] h = ground (arith, id_before_asymm x.id y.id)
place_comm_before x y (z ∷ zs) h =
    ground
      (arith, id_before_asymm x.id y.id, id_before_trans z.id x.id y.id, place_comm_before x y zs)

-- Two siblings may be placed in either order.
pub place_comm :
    (x y : Cell) (zs : List Cell) → x.id ≢ y.id → place x (place y zs) ≡ place y (place x zs)
place_comm x y zs ne = elim (Bool-cases (id_before x.id y.id)) [
  | inl before ↦ place_comm_before x y zs before
  | inr after ↦ sym (place_comm_before y x zs (id_before_total x.id y.id ne after))
]

-- An element never comes before its own origin.
origin_first_self : (cs : List Ptr) (o : Ptr) → origin_first cs o o ≡ false
origin_first_self [] o = refl
origin_first_self (c ∷ cs) o = ground (arith, origin_first_self cs o)

abbrev pub AreSiblings : Document → Ptr → List Ptr → Type 0
AreSiblings d origin = All (λ q. (d.memory q).origin ≡ origin)

module _ (d : Document) (cs : List Ptr) (origin : Ptr) (x : Cell) where
  place-kept :
      (kept : List Ptr)
      → AreSiblings d origin kept
      → Stops d cs origin x.id kept
      → place x (map (cell d.memory) kept) ≡ x ∷ map (cell d.memory) kept
  place-kept [] same stops = refl
  place-kept (q ∷ kept) same (inl after) = cc (origin_first_self cs origin)
  place-kept (q ∷ kept) same (inr not_before) = rw not_before

  -- The place at which the loop of findInsetionPoint stops among siblings.
  pub place-settled :
      (passed kept : List Ptr)
      → AreSiblings d origin kept
      → All (Passes d cs origin x.id) passed
      → Stops d cs origin x.id kept
      → place x (map (cell d.memory) (passed ++ kept))
        ≡ map (cell d.memory) passed ++ x ∷ map (cell d.memory) kept
  place-settled [] kept same passes stops = place-kept kept same stops
  place-settled (q ∷ passed) kept same passes stops =
      rw (passes.0.1) (ap (◌∷◌ (cell d.memory q)) (place-settled passed kept same passes.1 stops))
