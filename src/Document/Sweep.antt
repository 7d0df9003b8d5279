-- ===== src/Document/Sweep.antt =====
-- processPendingDeletes carries out every waiting deletion whose element has come.
use mathlib.Core.Path.{subst}
use yata_collaborative_edito.Base.{
  ◌≡◌, ◌≢◌, ◌∙◌, refl, sym, ap, true, false, inl, inr, List, [], ◌∷◌, arith, ◌==◌, Bool-cases,
  ==_iff, has, has-split, lookup, insert, delete, lookup-delete, ok, is_some,
}
use yata_collaborative_edito.Identifier.{ElementId, id_eq, id_eq_iff, id_Eq}
use yata_collaborative_edito.Document.{Ptr, null, Document, PendingElement, element_at}
use yata_collaborative_edito.Document.Update.{integrate_deletion, pending_deletes_loop}
use yata_collaborative_edito.Document.Valid.{IsValid, element_at-has}
use yata_collaborative_edito.Document.Marking.{set_deleted-fields, marked-IsValid, log-IsValid}
use yata_collaborative_edito.Document.RemoteDeletion.{logged}
use yata_collaborative_edito.Document.PendingOrder.{PendingMap, Waiting, but}
use yata_collaborative_edito.Document.Pending.{Waiting-tail, Waiting-delete, Waiting-more}
use yata_collaborative_edito.Document.CatchingUp.{absent, deletable, waiting-IsValid}

-- The document after a waiting deletion has been carried out.
abbrev swept_one : Document → ElementId → Document
swept_one d id =
    let after = logged d (element_at d id) in
    record after { pending_deletes = delete id after.pending_deletes }

module _ (d : Document) (k : ElementId) (v : PendingElement) (rest : PendingMap) where
  sweep_skips :
      element_at d v.new_id ≡ null
      → pending_deletes_loop d ((k, v) ∷ rest) ≡ pending_deletes_loop d rest
  unfolding pending_deletes_loop
  sweep_skips h = rw h

  sweep_steps :
      element_at d v.new_id ≢ null
      → pending_deletes_loop d ((k, v) ∷ rest) ≡ pending_deletes_loop (swept_one d v.new_id) rest
  unfolding pending_deletes_loop integrate_deletion
  sweep_steps h = ground arith

module _ {d : Document} {cs : List Ptr} (id : ElementId) (v : IsValid d cs) where
  swept_one-IsValid :
      element_at d id ≢ null → deletable d cs id ≡ true → IsValid (swept_one d id) cs
  swept_one-IsValid present ready =
      let p = element_at d id in
      let inside : has p cs ≡ true = ground arith in
      let live : (d.memory p).is_deleted ≡ false = ground arith in
      let (xs, zs, split) = has-split p cs inside in
      let pid = (d.memory p).element_id in
      subst (IsValid (swept_one d id)) (sym split) (
        waiting-IsValid d.pending_inserts (delete id d.pending_deletes) (
          log-IsValid (insert pid (record { target_id = pid }) d.delete_log)
            (marked-IsValid xs zs p (subst (IsValid d) split v) live)))

  swept_one-deletable :
      element_at d id ≢ null
      → (k : ElementId) → but id (deletable d cs) k ≡ true
      → deletable (swept_one d id) cs k ≡ true
  unfolding element_at
  swept_one-deletable present k h = elim (Bool-cases (element_at d k == null)) [
    | inl missing ↦ ground arith
    | inr found ↦
        let here : element_at d k ≢ null = ground arith in
        let mine = (element_at-has id v present).1 in
        let theirs = (element_at-has k v here).1 in
        let apart : element_at d k ≢ element_at d id = λ e. absurd (
          ground (
            arith,
            id_eq_iff id k,
            sym mine ∙ ap (λ q. (d.memory q).element_id) (sym e) ∙ theirs,
          )) in
        let fields = set_deleted-fields d.memory (element_at d id) (element_at d k) in
        ground (arith, apart, fields)
  ]

-- What the loop leaves.
pub record Swept (d : Document) (cs : List Ptr) (ps : PendingMap) (d' : Document) : Type 0 where
  pub valid : IsValid d' cs
  pub maps : d'.elements_by_id ≡ d.elements_by_id
  pub inserts : d'.pending_inserts ≡ d.pending_inserts
  pub entries : Waiting (λ _. true) d'.pending_deletes
  pub fewer :
      (k : ElementId)
      → is_some (lookup k d'.pending_deletes) ≡ true
      → is_some (lookup k d.pending_deletes) ≡ true
  pub swept :
      (k : ElementId)
      → is_some (lookup k ps) ≡ true
      → is_some (lookup k d'.pending_deletes) ≡ true
      → absent d k ≡ true
  pub marks : (q : Ptr) → (d.memory q).is_deleted ≡ true → (d'.memory q).is_deleted ≡ true
  pub erased :
      (k : ElementId)
      → is_some (lookup k ps) ≡ true
      → absent d k ≡ false
      → (d'.memory (element_at d k)).is_deleted ≡ true

Swept-nothing :
    (d : Document) (cs : List Ptr)
    → IsValid d cs
    → Waiting (λ _. true) d.pending_deletes
    → Swept d cs [] d
unfolding lookup
Swept-nothing d cs v w = record {
  valid = v;
  maps = refl;
  inserts = refl;
  entries = w;
  fewer = λ k h. h;
  swept = λ k h i. absurd (ground arith);
  marks = λ q h. h;
  erased = λ k h i. absurd (ground arith);
}

module _ (d : Document) (cs : List Ptr) (k : ElementId) (v : PendingElement) (rest : PendingMap)
    (same : k ≡ v.new_id) where
  Swept-skips :
      {d' : Document}
      → element_at d v.new_id ≡ null
      → Swept d cs rest d'
      → Swept d cs ((k, v) ∷ rest) d'
  unfolding lookup
  Swept-skips missing s = record {
    valid = s.valid;
    maps = s.maps;
    inserts = s.inserts;
    entries = s.entries;
    fewer = s.fewer;
    swept = λ j h i. elim (Bool-cases (id_eq k j)) [
      | inl head ↦
          let e = ap (element_at d) (sym same ∙ (id_eq_iff k j).0 head) in
          ground (arith, e, missing)
      | inr tail ↦ s.swept j (ground arith) i
    ];
    marks = s.marks;
    erased = λ j h present. elim (Bool-cases (id_eq k j)) [
      | inl head ↦
          let e = ap (element_at d) (sym same ∙ (id_eq_iff k j).0 head) in
          absurd (ground (arith, e, missing))
      | inr tail ↦ s.erased j (ground arith) present
    ];
  }

  swept_one_maps : (j : ElementId) → element_at (swept_one d v.new_id) j ≡ element_at d j
  unfolding element_at
  swept_one_maps j = refl

  Swept-steps :
      {d' : Document} → Swept (swept_one d v.new_id) cs rest d' → Swept d cs ((k, v) ∷ rest) d'
  unfolding lookup
  Swept-steps {d'} s =
      let p = element_at d v.new_id in
      let marks = λ (q : Ptr) (h : (d.memory q).is_deleted ≡ true).
        s.marks q (ground (arith, set_deleted-fields d.memory p q)) in
      record {
        valid = s.valid;
        maps = s.maps;
        inserts = s.inserts;
        entries = s.entries;
        fewer = λ j h. ground (arith, s.fewer j h, lookup-delete v.new_id j d.pending_deletes);
        swept = λ j h i. elim (Bool-cases (id_eq k j)) [
          | inl head ↦
              let e = sym same ∙ (id_eq_iff k j).0 head in
              absurd (
                ground (
                  arith,
                  s.fewer j i,
                  lookup-delete v.new_id j d.pending_deletes,
                  (id_eq_iff v.new_id j).1 e,
                ))
          | inr tail ↦ ground (arith, s.swept j (ground arith) i, swept_one_maps j)
        ];
        marks = marks;
        erased = λ j h present. elim (Bool-cases (id_eq k j)) [
          | inl head ↦
              let e = ap (element_at d) (sym same ∙ (id_eq_iff k j).0 head) in
              subst (λ q. (d'.memory q).is_deleted ≡ true) e
                (s.marks p (ground (arith, set_deleted-fields d.memory p p)))
          | inr tail ↦
              subst (λ q. (d'.memory q).is_deleted ≡ true) (swept_one_maps j)
                (s.erased j (ground arith) (ground (arith, swept_one_maps j)))
        ];
      }

pub sweep-Swept :
    (d : Document) (cs : List Ptr) (ps : PendingMap)
    → IsValid d cs
    → Waiting (deletable d cs) ps
    → Waiting (λ _. true) d.pending_deletes
    → (d' : Document) × (pending_deletes_loop d ps ≡ ok d') × Swept d cs ps d'
unfolding pending_deletes_loop
sweep-Swept d cs [] v w all = (d, refl, Swept-nothing d cs v all)
sweep-Swept d cs ((k, p) ∷ rest) v w all =
    let same : k ≡ p.new_id = (id_eq_iff k p.new_id).0 w.entries.0.0 in
    elim (Bool-cases (element_at d p.new_id == null)) [
      | inl missing ↦
          let gone = (==_iff (element_at d p.new_id) null).0 missing in
          let (d', run, s) =
            sweep-Swept d cs rest v
              (Waiting-more (but k (deletable d cs)) (deletable d cs) (λ j h. ground arith)
                (Waiting-tail (deletable d cs) w))
              all in
          (d', sweep_skips d k p rest gone ∙ run, Swept-skips d cs k p rest same gone s)
      | inr found ↦
          let here : element_at d p.new_id ≢ null = ground arith in
          let ready : deletable d cs p.new_id ≡ true =
            subst (λ i. deletable d cs i ≡ true) same w.entries.0.1 in
          let (d', run, s) =
            sweep-Swept (swept_one d p.new_id) cs rest (swept_one-IsValid p.new_id v here ready)
              (Waiting-more (but p.new_id (deletable d cs)) (deletable (swept_one d p.new_id) cs)
                (swept_one-deletable p.new_id v here)
                (subst (λ i. Waiting (but i (deletable d cs)) rest) same
                  (Waiting-tail (deletable d cs) w)))
              (Waiting-more (but p.new_id (λ _. true)) (λ _. true) (λ j h. refl)
                (Waiting-delete (λ _. true) p.new_id d.pending_deletes all)) in
          (d', sweep_steps d k p rest here ∙ run, Swept-steps d cs k p rest same s)
    ]
