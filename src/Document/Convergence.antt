-- ===== src/Document/Convergence.antt =====
-- Two replicas that integrate two concurrent insertions at one place in opposite orders.
use mathlib.Core.Path.{subst, ap₂}
use mathlib.Core.List.{append_assoc, map-append}
use yata_collaborative_edito.Base.{
  ℕ, ◌≡◌, ◌≢◌, ◌∙◌, refl, sym, ap, true, false, none, List, [], ◌∷◌, ◌++◌, map, arith, ◌||◌, has,
  has-append, All, All-append, All-prefix, All-suffix, last_of, lookup, lookup-insert, ok, ◌>>=◌,
}
use yata_collaborative_edito.Identifier.{ElementId, id_eq_iff, id_Eq}
use yata_collaborative_edito.Document.{Ptr, Document}
use yata_collaborative_edito.Document.Update.{integrate_insert}
use yata_collaborative_edito.Document.Valid.{Cell, cell, nodes, IsValid, first_of}
use yata_collaborative_edito.Document.Integration.{
  Integrated, integrate_insert-Integrated, right_has,
}
use yata_collaborative_edito.Document.Linking.{has-last_of-nodes}
use yata_collaborative_edito.Document.Siblings.{AreSiblings, place, place_comm, place-settled}

-- What replicas agree on, for each element in order.
abbrev pub cells : Document → List Ptr → List Cell
cells d = map (cell d.memory)

abbrev inserted : ElementId → ℕ → Cell
inserted id content = record { id = id; content = content; is_deleted = false }

cells-same :
    (d e : Document) (ys : List Ptr)
    → ((q : Ptr) → has q ys ≡ true → cell e.memory q ≡ cell d.memory q)
    → cells e ys ≡ cells d ys
cells-same d e [] h = refl
cells-same d e (y ∷ ys) h =
    ap₂ (◌∷◌) (h y (ground arith)) (cells-same d e ys (λ q k. h q (ground arith)))

All-has_each {κ} :
    (P : Ptr → Type κ) (Q : Ptr → Type κ) (ys : List Ptr)
    → ((q : Ptr) → has q ys ≡ true → P q → Q q)
    → All P ys
    → All Q ys
All-has_each P Q [] f h = tt
All-has_each P Q (y ∷ ys) f h =
    (f y (ground arith) h.0, All-has_each P Q ys (λ q k. f q (ground arith)) h.1)

module _ {d : Document} {xs mid zs : List Ptr} {x : ElementId} {content : ℕ}
    (r : Integrated d xs mid zs x content) (siblings : AreSiblings d (last_of d.start xs) mid) where
  -- The elements between the origin and the right neighbour afterwards.
  abbrev pub mid' : List Ptr
  mid' = r.settled.passed ++ d.allocated ∷ r.settled.kept

  passed_has : (q : Ptr) → has q r.settled.passed ≡ true → has q mid ≡ true
  passed_has q h =
      subst (λ ns. has q ns ≡ true) (sym r.settled.splits)
        (ground (arith, has-append q r.settled.passed r.settled.kept))

  kept_has : (q : Ptr) → has q r.settled.kept ≡ true → has q mid ≡ true
  kept_has q h =
      subst (λ ns. has q ns ≡ true) (sym r.settled.splits)
        (ground (arith, has-append q r.settled.passed r.settled.kept))

  node_has :
      (q : Ptr)
      → (has q xs || (has q mid || has q zs)) ≡ true
      → has q (nodes d (xs ++ (mid ++ zs))) ≡ true
  node_has q h = ground (
    arith,
    has-append q (xs ++ (mid ++ zs)) (d.end ∷ []),
    has-append q xs (mid ++ zs),
    has-append q mid zs,
  )

  -- Among siblings the new element goes where the order of the identifiers puts it.
  pub cells-mid' : cells r.after mid' ≡ place (inserted x content) (cells d mid)
  cells-mid' =
      let s = r.settled in
      let sib = subst (AreSiblings d (last_of d.start xs)) s.splits siblings in
      map-append (cell r.after.memory) s.passed (d.allocated ∷ s.kept)
      ∙ ap₂ (◌++◌)
          (cells-same d r.after s.passed
            (λ q h. (r.old q (node_has q (ground (arith, passed_has q h)))).0))
          (ap₂ (◌∷◌) r.new.0 (
            cells-same d r.after s.kept
              (λ q h. (r.old q (node_has q (ground (arith, kept_has q h)))).0)))
      ∙ sym (
          place-settled d (xs ++ (mid ++ zs)) (last_of d.start xs) (inserted x content) s.passed
            s.kept (All-suffix (λ q. (d.memory q).origin ≡ last_of d.start xs) s.passed s.kept sib)
            s.passes s.stops)
      ∙ ap (λ ns. place (inserted x content) (cells d ns)) (sym s.splits)

  pub siblings' : AreSiblings r.after (last_of d.start xs) mid'
  siblings' =
      let s = r.settled in
      let P = λ (q : Ptr). (d.memory q).origin ≡ last_of d.start xs in
      let Q = λ (q : Ptr). (r.after.memory q).origin ≡ last_of d.start xs in
      let sib : All P (s.passed ++ s.kept) = subst (All P) s.splits siblings in
      All-append Q s.passed (d.allocated ∷ s.kept)
        (All-has_each P Q s.passed
          (λ q h o. (r.old q (node_has q (ground (arith, passed_has q h)))).1 ∙ o)
          (All-prefix P s.passed s.kept sib))
        (
          r.new.1,
          All-has_each P Q s.kept
              (λ q h o. (r.old q (node_has q (ground (arith, kept_has q h)))).1 ∙ o)
              (All-suffix P s.passed s.kept sib),
        )

  chain' : (xs ++ r.settled.passed) ++ d.allocated ∷ (r.settled.kept ++ zs) ≡ xs ++ (mid' ++ zs)
  chain' = simp append_assoc

  outer_same : (cells r.after xs ≡ cells d xs) × (cells r.after zs ≡ cells d zs)
  outer_same = (
    cells-same d r.after xs (λ q h. (r.old q (node_has q (ground arith))).0),
    cells-same d r.after zs (λ q h. (r.old q (node_has q (ground arith))).0),
  )

  -- The whole list afterwards.
  pub cells-after :
      cells r.after ((xs ++ r.settled.passed) ++ d.allocated ∷ (r.settled.kept ++ zs))
      ≡ cells d xs ++ (place (inserted x content) (cells d mid) ++ cells d zs)
  cells-after =
      ap (cells r.after) chain'
      ∙ map-append (cell r.after.memory) xs (mid' ++ zs)
      ∙ ap₂ (◌++◌) outer_same.0
          (map-append (cell r.after.memory) mid' zs ∙ ap₂ (◌++◌) cells-mid' outer_same.1)

  pub valid' : IsValid r.after (xs ++ (mid' ++ zs))
  valid' = subst (IsValid r.after) chain' r.valid

  fresh' :
      (y : ElementId)
      → x ≢ y
      → lookup y d.elements_by_id ≡ none
      → lookup y r.after.elements_by_id ≡ none
  fresh' y ne unknown =
      rw r.maps (ground (arith, id_eq_iff x y, lookup-insert x y d.allocated d.elements_by_id))

  -- The identifiers of the origin and of the right neighbour are still those.
  ends_named :
      IsValid d (xs ++ (mid ++ zs))
      → ((r.after.memory (last_of r.after.start xs)).element_id
          ≡ (d.memory (last_of d.start xs)).element_id)
        × ((r.after.memory (first_of zs r.after.end)).element_id
            ≡ (d.memory (first_of zs d.end)).element_id)
  ends_named v = (
    ap (λ s. (r.after.memory (last_of s xs)).element_id) r.sentinels.0
        ∙ ap (λ c. c.id) (r.old (last_of d.start xs) (has-last_of-nodes xs (mid ++ zs) v)).0,
    ap (λ s. (r.after.memory (first_of zs s)).element_id) r.sentinels.1
        ∙ ap (λ c. c.id) (r.old (first_of zs d.end) (right_has xs mid zs v)).0,
  )

-- A second insertion at the place of the first.
pub record Twice (d : Document) (xs mid zs : List Ptr) (x y : ElementId) (cx cy : ℕ) : Type 0 where
  pub after : Document
  pub chain : List Ptr
  pub runs :
      (integrate_insert d x
          (d.memory (last_of d.start xs)).element_id
          (d.memory (first_of zs d.end)).element_id
          cx
        >>= λ d'.
            integrate_insert d' y
              (d.memory (last_of d.start xs)).element_id
              (d.memory (first_of zs d.end)).element_id
              cy)
      ≡ ok after
  pub valid : IsValid after chain
  pub shows :
      cells after chain
      ≡ cells d xs ++ (place (inserted y cy) (place (inserted x cx) (cells d mid)) ++ cells d zs)

module _ {d : Document} (xs mid zs : List Ptr) (v : IsValid d (xs ++ (mid ++ zs)))
    (siblings : AreSiblings d (last_of d.start xs) mid) where
  integrate-Twice :
      (x y : ElementId) (cx cy : ℕ)
      → lookup x d.elements_by_id ≡ none
      → lookup y d.elements_by_id ≡ none
      → x ≢ y
      → Twice d xs mid zs x y cx cy
  integrate-Twice x y cx cy no_x no_y ne =
      let r = integrate_insert-Integrated xs mid zs x cx v no_x in
      let s =
        integrate_insert-Integrated xs (mid' r siblings) zs y cy (valid' r siblings)
          (fresh' r siblings y ne no_y) in
      let same = ends_named r siblings v in
      let outer = outer_same r siblings in
      record {
        after = s.after;
        chain = (xs ++ s.settled.passed) ++ r.after.allocated ∷ (s.settled.kept ++ zs);
        runs =
            rw r.runs
              (ap₂ (λ o n. integrate_insert r.after y o n cy) (sym same.0) (sym same.1) ∙ s.runs);
        valid = s.valid;
        shows =
            cells-after s (
              subst (λ a. AreSiblings r.after (last_of a xs) (mid' r siblings)) (sym r.sentinels.0)
                (siblings' r siblings))
            ∙ ap₂ (◌++◌) outer.0
                (ap₂ (λ c e. place (inserted y cy) c ++ e) (cells-mid' r siblings) outer.1);
      }

  -- Let all elements between an origin and a right neighbour of a valid document have that
  -- origin. Two new insertions there with different identifiers run in either order, to valid
  -- documents that agree, element by element, on identifiers, contents and deletions.
  pub siblings_converge :
      (x y : ElementId) (cx cy : ℕ)
      → lookup x d.elements_by_id ≡ none
      → lookup y d.elements_by_id ≡ none
      → x ≢ y
      → (a : Twice d xs mid zs x y cx cy) × (b : Twice d xs mid zs y x cy cx) × (cells a.after
            a.chain
          ≡ cells b.after b.chain)
  siblings_converge x y cx cy no_x no_y ne =
      let a = integrate-Twice x y cx cy no_x no_y ne in
      let b = integrate-Twice y x cy cx no_y no_x (λ e. ne (sym e)) in
      (
        a,
        b,
        a.shows
            ∙ ap (λ m. cells d xs ++ (m ++ cells d zs))
                (place_comm (inserted y cy) (inserted x cx) (cells d mid) (λ e. ne (sym e)))
            ∙ sym b.shows,
      )
