-- ===== src/Hydration/Placed.antt =====
-- The data that ReconstructDocument sets from what a valid document has saved: a valid document.
use mathlib.Core.Path.{subst}
use yata_collaborative_edito.Base.{
  ℕ, pos, ◌+◌, ◌<◌, true, some, List, [], ◌∷◌, ◌++◌, map, ◌≡◌, ◌∙◌, refl, sym, ap, arith, lookup,
  has, has-append, All, All-prefix, Distinct, length, length-append,
}
use yata_collaborative_edito.Identifier.{ElementId, id_Eq}
use yata_collaborative_edito.Document.{Ptr, Memory, Document}
use yata_collaborative_edito.Document.Chain.{Linked}
use yata_collaborative_edito.Document.Valid.{IsValid, InUse, nodes, IsRegistered}
use yata_collaborative_edito.Storage.Serializing.{to_persisted_metadata}
use yata_collaborative_edito.Storage.Documents.{LoadedSnapshot}
use yata_collaborative_edito.Hydration.{pointer_to, set_data}
use yata_collaborative_edito.Hydration.Relations.{IsRestored}
use yata_collaborative_edito.Hydration.Restored.{
  IsSaved, entry_of, copy_of, copy_found, copy_of-IsCopy,
}
use yata_collaborative_edito.Hydration.Neighbours.{
  back, back-Linked, has-back, back-Distinct, back_element_id, back_is_deleted, visible-back,
}
use yata_collaborative_edito.Hydration.Counting.{Distinct-length}

All-in :
    (xs ys : List ℕ) → ((p : ℕ) → has p xs ≡ true → has p ys ≡ true) → All (λ p. has p ys ≡ true) xs
All-in [] ys f = tt
All-in (x ∷ xs) ys f = (f x (ground arith), All-in xs ys (λ p h. f p (ground (arith, h))))

All-map_place :
    (P Q : ℕ → Type 0) (f : ℕ → ℕ) (xs : List ℕ)
    → ((x : ℕ) → Q x → P (f x))
    → All Q xs
    → All P (map f xs)
All-map_place P Q f [] g all = tt
All-map_place P Q f (x ∷ xs) g (q, all) = (g x q, All-map_place P Q f xs g all)

map-append : (f : ℕ → ℕ) (xs ys : List ℕ) → map f (xs ++ ys) ≡ map f xs ++ map f ys
map-append f [] ys = refl
map-append f (x ∷ xs) ys = ap (◌∷◌ (f x)) (map-append f xs ys)

length-map : (f : ℕ → ℕ) (xs : List ℕ) → length (map f xs) ≡ length xs
length-map f [] = refl
length-map f (x ∷ xs) = ground (arith, length-map f xs)

module _ (d : Document) (cs : List Ptr) (s : LoadedSnapshot) (saved : IsSaved d cs s.elements)
    (metadata : s.metadata ≡ to_persisted_metadata d) (base : Document) (m' : Memory)
    (restored : IsRestored s.elements.persisted s.elements.by_id
      (entry_of s.elements)
      s.elements.by_id
      s.elements.memory
      m') where
  open saved use {valid, image}

  abbrev place : Ptr → Ptr
  place = back d cs s.elements saved

  abbrev again : Document
  again = set_data base s m'

  in_nodes : All (λ p. has p (nodes d cs) ≡ true) (nodes d cs)
  in_nodes = All-in (nodes d cs) (nodes d cs) (λ p h. h)

  pub inside : All (λ p. has p (nodes d cs) ≡ true) cs
  inside = All-prefix _ cs (d.end ∷ []) (in_nodes.1)

  pub start_placed : again.start ≡ place d.start
  unfolding set_data copy_of
  start_placed = ap (pointer_to s.elements.by_id) (sym valid.start_named)

  pub end_placed : again.end ≡ place d.end
  unfolding set_data copy_of
  end_placed = ap (pointer_to s.elements.by_id) (sym valid.end_named)

  nodes_placed : map place (nodes d cs) ≡ nodes again (map place cs)
  nodes_placed = ground (arith, start_placed, end_placed, map-append place cs (d.end ∷ []))

  pub start_in : has d.start (nodes d cs) ≡ true
  start_in = ground arith

  pub end_in : has d.end (nodes d cs) ≡ true
  end_in = ground (arith, has-append d.end cs (d.end ∷ []))

  All-placed :
      (P : Ptr → Type 0)
      → ((p : Ptr) → has p (nodes d cs) ≡ true → P (place p))
      → All P (nodes again (map place cs))
  All-placed P f =
      subst (All P) nodes_placed
        (All-map_place P (λ p. has p (nodes d cs) ≡ true) place (nodes d cs) f in_nodes)

  placed-Linked : Linked m' again.start (map place cs ++ again.end ∷ [])
  placed-Linked =
      subst (λ a. Linked m' a (map place cs ++ again.end ∷ [])) (sym start_placed)
        (subst (λ e. Linked m' (place d.start) (map place cs ++ e ∷ [])) (sym end_placed)
          (subst (Linked m' (place d.start)) (map-append place cs (d.end ∷ [])) (
            back-Linked d cs s.elements saved m' restored d.start (cs ++ d.end ∷ []) valid.linked
              in_nodes)))

  placed-Distinct : Distinct (nodes again (map place cs))
  placed-Distinct =
      subst Distinct nodes_placed
        (back-Distinct d cs s.elements saved m' restored (nodes d cs) valid.distinct in_nodes)

  placed-InUse : All (InUse again) (nodes again (map place cs))
  unfolding set_data
  placed-InUse = All-placed (InUse again) (λ p h.
      let copy = copy_of-IsCopy d cs s.elements saved p h in (copy.positive, copy.allocated))

  placed_room : length (map place cs) + 2 < again.allocated
  placed_room =
      let ((positive, below), _) = placed-InUse in
      let few =
        Distinct-length again.allocated (nodes again (map place cs))
          (omega (arith, positive, below)) placed-Distinct placed-InUse in
      omega (arith, few, length-append (map place cs) (again.end ∷ []))

  placed_known :
      (id : ElementId) (q : Ptr)
      → lookup id again.elements_by_id ≡ some q
      → (has q (nodes again (map place cs)) ≡ true) × ((m' q).element_id ≡ id)
  unfolding set_data
  placed_known id q e =
      let (p, h, named, copy) = image.copies id q e in
      let found : some q ≡ some (place p) =
        sym e
        ∙ ap (λ x. lookup x s.elements.by_id) (sym named)
        ∙ copy_found d cs s.elements saved p h in
      let at : q ≡ place p = ground (arith, found) in
      (
        ap (λ x. has x (nodes again (map place cs))) at
            ∙ ap (has (place p)) (sym nodes_placed)
            ∙ has-back d cs s.elements saved m' restored p (nodes d cs) h in_nodes
            ∙ h,
        restored.same.ids q ∙ copy.id ∙ named,
      )

  pub placed-IsValid : IsValid again (map place cs)
  unfolding set_data to_persisted_metadata
  placed-IsValid = record {
    linked = placed-Linked;
    distinct = placed-Distinct;
    in_use = placed-InUse;
    room = placed_room;
    end_live =
        ap (λ x. (m' x).is_deleted) end_placed
        ∙ back_is_deleted d cs s.elements saved m' restored d.end end_in
        ∙ valid.end_live;
    counter =
        ap (λ x. x.character_counter) metadata
        ∙ valid.counter
        ∙ ap (λ v. pos (length v)) (sym (visible-back d cs s.elements saved m' restored cs inside));
    start_named =
        ap (λ x. (m' x).element_id) start_placed
        ∙ back_element_id d cs s.elements saved m' restored d.start start_in
        ∙ valid.start_named;
    end_named =
        ap (λ x. (m' x).element_id) end_placed
        ∙ back_element_id d cs s.elements saved m' restored d.end end_in
        ∙ valid.end_named;
    registered = All-placed (IsRegistered again) (λ p h.
        ap (λ x. lookup x s.elements.by_id) (back_element_id d cs s.elements saved m' restored p h)
        ∙ copy_found d cs s.elements saved p h);
    known = placed_known;
  }
