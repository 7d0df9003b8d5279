-- ===== src/Document/Marking.antt =====
-- Marking an element of a valid document as deleted, as Delete and integrateDeletion do.
use mathlib.Core.Path.{subst, ap₂}
use mathlib.Core.List.{append_assoc}
use yata_collaborative_edito.Base.{
  ◌<◌, ◌≡◌, ◌≢◌, ◌∙◌, refl, sym, ap, true, false, some, List, [], ◌∷◌, ◌++◌, arith, ◌==◌,
  if◌then◌else◌, has, has-middle, has-append, Distinct, Distinct-apart, Distinct-suffix, All-has,
  All-map, length, length-append, remove_at, remove_at-append, pos, ◌-ℤ◌, pos_sub-one, lookup, Map,
}
use yata_collaborative_edito.Identifier.{ElementId, id_Eq}
use yata_collaborative_edito.Protocol.Operations.{DeleteOperation}
use yata_collaborative_edito.Document.{Ptr, Memory, set_deleted, Document}
use yata_collaborative_edito.Document.Chain.{Linked}
use yata_collaborative_edito.Document.Valid.{visible, visible-append, nodes, InUse, IsValid}

module _ (m : Memory) (p q : Ptr) where
  -- Marking an element changes only its own mark.
  pub set_deleted-fields :
      ((set_deleted m p q).right ≡ (m q).right)
      × ((set_deleted m p q).left ≡ (m q).left)
      × ((set_deleted m p q).content ≡ (m q).content)
      × ((set_deleted m p q).element_id ≡ (m q).element_id)
      × ((set_deleted m p q).origin ≡ (m q).origin)
      × ((set_deleted m p q).is_deleted ≡ (if q == p then true else (m q).is_deleted))
  unfolding set_deleted
  set_deleted-fields =
      (ground arith, ground arith, ground arith, ground arith, ground arith, ground arith)

pub set_deleted_self : (m : Memory) (p : Ptr) → (set_deleted m p p).is_deleted ≡ true
set_deleted_self m p = ground (arith, set_deleted-fields m p p)

Linked-set_deleted :
    (m : Memory) (p a : Ptr) (bs : List Ptr) → Linked m a bs → Linked (set_deleted m p) a bs
Linked-set_deleted m p a [] s = ground (arith, set_deleted-fields m p a)
Linked-set_deleted m p a (b ∷ bs) s = (
  ground (arith, set_deleted-fields m p a),
  ground (arith, set_deleted-fields m p b),
  Linked-set_deleted m p b bs s.2,
)

visible-set_deleted :
    (m : Memory) (p : Ptr) (cs : List Ptr)
    → has p cs ≡ false
    → visible (set_deleted m p) cs ≡ visible m cs
visible-set_deleted m p [] h = refl
visible-set_deleted m p (c ∷ cs) h =
    ground (arith, set_deleted-fields m p c, visible-set_deleted m p cs)

-- The document after an element has been marked.
abbrev pub marked : Document → Ptr → Document
marked d p = record d {
  memory = set_deleted d.memory p;
  character_counter = d.character_counter -ℤ pos 1;
}

module _ {d : Document} (xs zs : List Ptr) (p : Ptr) (v : IsValid d (xs ++ p ∷ zs))
    (live : (d.memory p).is_deleted ≡ false) where
  parts_apart : (has p xs ≡ false) × (has p zs ≡ false) × (p ≢ d.end)
  parts_apart =
      let d' = subst Distinct (append_assoc xs (p ∷ zs) (d.end ∷ [])) v.distinct.1 in
      let tail = (Distinct-suffix xs (p ∷ (zs ++ d.end ∷ [])) d').0 in
      (
        Distinct-apart p xs (zs ++ d.end ∷ []) d',
        ground (arith, tail, has-append p zs (d.end ∷ [])),
        ground (arith, tail, has-append p zs (d.end ∷ [])),
      )

  pub marked-visible :
      visible (set_deleted d.memory p) (xs ++ p ∷ zs) ≡ visible d.memory xs ++ visible d.memory zs
  marked-visible =
      visible-append (set_deleted d.memory p) xs (p ∷ zs)
      ∙ ap₂ (◌++◌) (visible-set_deleted d.memory p xs parts_apart.0) (
          ground (
            arith,
            set_deleted-fields d.memory p p,
            visible-set_deleted d.memory p zs parts_apart.1,
          ))

  visible_before :
      visible d.memory (xs ++ p ∷ zs)
      ≡ visible d.memory xs ++ ((d.memory p).content ∷ visible d.memory zs)
  visible_before = visible-append d.memory xs (p ∷ zs) ∙ ap (◌++◌ (visible d.memory xs)) (rw live)

  pub marked-shows :
      visible (set_deleted d.memory p) (xs ++ p ∷ zs)
      ≡ remove_at (length (visible d.memory xs)) (visible d.memory (xs ++ p ∷ zs))
  marked-shows =
      marked-visible
      ∙ sym (remove_at-append (d.memory p).content (visible d.memory xs) (visible d.memory zs))
      ∙ ap (remove_at (length (visible d.memory xs))) (sym visible_before)

  pub middle_has : has p (nodes d (xs ++ p ∷ zs)) ≡ true
  middle_has = ground (arith, has-append p (xs ++ p ∷ zs) (d.end ∷ []), has-middle p xs zs)

  pub middle_used : 0 < p
  middle_used = (All-has (InUse d) (nodes d (xs ++ p ∷ zs)) p v.in_use middle_has).0

  marked-counter :
      d.character_counter -ℤ pos 1 ≡ pos (length (visible (set_deleted d.memory p) (xs ++ p ∷ zs)))
  marked-counter =
      ap (λ c. c -ℤ pos 1)
        (v.counter
          ∙ ap pos (
              omega (
                arith,
                ap length visible_before,
                ap length marked-visible,
                length-append (visible d.memory xs) ((d.memory p).content ∷ visible d.memory zs),
                length-append (visible d.memory xs) (visible d.memory zs),
              )))
      ∙ pos_sub-one (length (visible (set_deleted d.memory p) (xs ++ p ∷ zs)))

  pub marked-IsValid : IsValid (marked d p) (xs ++ p ∷ zs)
  marked-IsValid = record {
    linked = Linked-set_deleted d.memory p d.start _ v.linked;
    distinct = v.distinct;
    in_use = v.in_use;
    room = v.room;
    end_live = ground (arith, v.end_live, parts_apart, set_deleted-fields d.memory p d.end);
    counter = marked-counter;
    start_named = (set_deleted-fields d.memory p d.start).3 ∙ v.start_named;
    end_named = (set_deleted-fields d.memory p d.end).3 ∙ v.end_named;
    registered =
        All-map (λ q. lookup (d.memory q).element_id d.elements_by_id ≡ some q)
          (λ q. lookup (set_deleted d.memory p q).element_id d.elements_by_id ≡ some q)
          (nodes d (xs ++ p ∷ zs)) (λ q e. rw ((set_deleted-fields d.memory p q).3) e) v.registered;
    known = λ id q e. let (a, b) = v.known id q e in (a, (set_deleted-fields d.memory p q).3 ∙ b);
  }

-- The delete log is no part of the invariant.
pub log-IsValid :
    {d : Document} {cs : List Ptr} (log : Map ElementId DeleteOperation)
    → IsValid d cs
    → IsValid (record d { delete_log = log }) cs
log-IsValid log v = record {
  linked = v.linked;
  distinct = v.distinct;
  in_use = v.in_use;
  room = v.room;
  end_live = v.end_live;
  counter = v.counter;
  start_named = v.start_named;
  end_named = v.end_named;
  registered = v.registered;
  known = v.known;
}
