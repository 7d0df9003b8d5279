-- ===== src/Document/Arrival.antt =====
-- What RemoteInsert does from the integrated insertion on.
use mathlib.Core.Path.{subst}
use yata_collaborative_edito.Base.{
  ◌<◌, ◌≡◌, ◌∙◌, refl, sym, true, false, not, ◌||◌, inl, inr, Option, none, some, List, arith,
  Bool-cases, lookup, ok, All, All-map, is_some, ◌>>=◌, Settles, Settles->>=,
}
use yata_collaborative_edito.Identifier.{ElementId, id_eq, id_eq_iff, id_Eq}
use yata_collaborative_edito.Document.{
  Ptr, Document, DocumentError, already_inserted, pending_value, element_at, RangeOrder,
}
use yata_collaborative_edito.Document.Update.{process_pending, process_pending_deletes}
use yata_collaborative_edito.Document.Valid.{IsValid}
use yata_collaborative_edito.Document.RemoteDeletion.{element_at-map}
use yata_collaborative_edito.Document.Growth.{Grown, Grown-element_at}
use yata_collaborative_edito.Document.PendingOrder.{
  PendingMap, Waiting, but, Waiting-Perm, Waiting-without, Waiting-each, visited,
}
use yata_collaborative_edito.Document.Pending.{Waiting-more}
use yata_collaborative_edito.Document.CatchingUp.{
  absent, deletable, is_ready, IsCatchingUp, Retains, absent-Grown, deletable-Grown, Grown-Retains,
}
use yata_collaborative_edito.Document.Delivery.{used}
use yata_collaborative_edito.Document.Rounds.{Caught, process_pending-Caught}
use yata_collaborative_edito.Document.Sweep.{Swept, sweep-Swept}

-- A document between two operations: valid, and what waits, waits for elements that are absent.
pub record IsConsistent (d : Document) (cs : List Ptr) : Type 0 where
  pub valid : IsValid d cs
  pub inserts : Waiting (absent d) d.pending_inserts
  pub deletes : Waiting (absent d) d.pending_deletes

abbrev pub NoneReady : Document → Type 0
NoneReady d = All (λ e. is_ready d e ≡ false) d.pending_inserts

-- What each answer of RemoteInsert means.
abbrev pub Outcome : Document → ElementId → Document → Option DocumentError → Type 0
Outcome d id d' none =
    (absent d' id ≡ false)
    × NoneReady d'
    × ((not (is_some (lookup id d.pending_deletes)) || (d'.memory (element_at d' id)).is_deleted)
        ≡ true)
Outcome d id d' (some pending_value) =
    (is_some (lookup id d'.pending_inserts) ≡ true)
    × (d'.memory ≡ d.memory)
    × (d'.elements_by_id ≡ d.elements_by_id)
Outcome d id d' (some already_inserted) = (absent d id ≡ false) × (d' ≡ d)
Outcome d id d' (some e) = ⊥

pub record Received (d : Document) (id : ElementId) (r : Document × Option DocumentError)
    : Type 0 where
  pub chain : List Ptr
  pub consistent : IsConsistent r.0 chain
  pub retains : Retains d r.0
  pub outcome : Outcome d id r.0 r.1

module _ {d d' : Document} {cs : List Ptr} {id : ElementId} (g : Grown d cs id d') where
  arrived-IsCatchingUp :
      IsConsistent d cs → lookup id d.pending_inserts ≡ none → IsCatchingUp d' g.chain
  arrived-IsCatchingUp s free = record {
    valid = g.valid;
    inserts =
        Waiting-more (but id (absent d)) (absent d') (λ k h. absent-Grown g k h)
          (subst (Waiting (but id (absent d))) (sym g.keeps.0)
            (Waiting-without (absent d) id d.pending_inserts free s.inserts));
    deletes =
        Waiting-more (absent d) (deletable d' g.chain)
          (λ k h. deletable-Grown g (used s.valid) k (ground arith))
          (subst (Waiting (absent d)) (sym g.keeps.1) s.deletes);
  }

  arrived-present : 0 < d.allocated → id_eq id id ≡ true → absent d' id ≡ false
  arrived-present u same = ground (arith, Grown-element_at g id)

module _ {d d' : Document} {cs : List Ptr} {ps : PendingMap} (s : Swept d cs ps d') where
  swept_at : (k : ElementId) → element_at d' k ≡ element_at d k
  swept_at k = element_at-map d d' k s.maps

  Swept-NoneReady : NoneReady d → NoneReady d'
  Swept-NoneReady h =
      subst (λ m. All (λ e. is_ready d' e ≡ false) m) (sym s.inserts)
        (All-map (λ e. is_ready d e ≡ false) (λ e. is_ready d' e ≡ false) d.pending_inserts
          (λ e x. ground (arith, swept_at e.1.origin_id, swept_at e.1.right_id)) h)

  Swept-IsConsistent :
      Waiting (absent d) d.pending_inserts
      → ((k : ElementId)
          → is_some (lookup k d.pending_deletes) ≡ true
          → is_some (lookup k ps) ≡ true)
      → IsConsistent d' cs
  Swept-IsConsistent inserts visits = record {
    valid = s.valid;
    inserts =
        Waiting-more (absent d) (absent d') (λ k h. ground (arith, swept_at k))
          (subst (Waiting (absent d)) (sym s.inserts) inserts);
    deletes =
        Waiting-each (λ _. true) (absent d') d'.pending_deletes
          (λ k h. ground (arith, swept_at k, s.swept k (visits k (s.fewer k h)) h)) s.entries;
  }

module _ (ranges : RangeOrder) {d : Document} {cs : List Ptr} (s : IsConsistent d cs)
    (id : ElementId) (free : lookup id d.pending_inserts ≡ none) where
  -- From the integrated insertion on.
  pub settle :
      {d1 : Document}
      → Grown d cs id d1
      → Settles (Received d id) (
          process_pending ranges d1 >>= λ d2.
          (process_pending_deletes ranges d2 >>= λ d3. ok (d3, none)))
  unfolding process_pending_deletes
  settle {d1} g =
      Settles->>= (Caught d1) (Received d id) (process_pending ranges d1)
        (λ d2. process_pending_deletes ranges d2 >>= λ d3. ok (d3, none))
        (process_pending-Caught ranges d1 g.chain (arrived-IsCatchingUp g s free))
        (λ d2 c.
          let ps = ranges.order d2.pending_deletes in
          let perm = ranges.order-perm d2.pending_deletes in
          let (d3, run, w) =
            sweep-Swept d2 c.chain ps c.state.valid
              (Waiting-Perm (deletable d2 c.chain) perm c.state.deletes)
              (Waiting-more (deletable d2 c.chain) (λ _. true) (λ k h. refl) c.state.deletes) in
          let here : absent d2 id ≡ false =
            c.retains id (arrived-present g (used s.valid) ((id_eq_iff id id).1 refl)) in
          subst (λ m. Settles (Received d id) (m >>= λ d3. ok (d3, none))) (sym run)
            (record {
              chain = c.chain;
              consistent = Swept-IsConsistent w c.state.inserts (λ k h. visited k perm h);
              retains = λ k h.
                  let kept = c.retains k (Grown-Retains g (used s.valid) k h) in
                  ground (arith, kept, swept_at w k);
              outcome = (
                ground (arith, here, swept_at w id),
                Swept-NoneReady w c.stuck,
                elim (Bool-cases (is_some (lookup id d.pending_deletes))) [
                  | inr unmarked ↦ ground arith
                  | inl waited ↦
                      let deletes = c.holds ∙ g.keeps.1 in
                      let seen =
                        visited id perm
                          (subst (λ m. is_some (lookup id m) ≡ true) (sym deletes) waited) in
                      let gone =
                        subst (λ q. (d3.memory q).is_deleted ≡ true) (sym (swept_at w id))
                          (w.erased id seen here) in
                      ground (arith, gone)
                ],
              );
            }))
