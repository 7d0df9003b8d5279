-- ===== src/Document/Delivery.antt =====
-- processPending and processPendingDeletes: what waits is carried out when its elements arrive.
use mathlib.Core.Path.{subst}
use yata_collaborative_edito.Base.{
  ◌<◌, ◌≡◌, ◌∙◌, refl, sym, ap, Bool, true, false, inl, inr, none, List, [], ◌∷◌, arith, Bool-cases,
  lookup, delete, Run, ok, panic, out_of_fuel, All, length, is_some, ◌>>=◌, Settles, Settles->>=,
}
use yata_collaborative_edito.Identifier.{ElementId, id_eq_iff, id_Eq}
use yata_collaborative_edito.Document.{Ptr, null, Document, PendingElement, element_at}
use yata_collaborative_edito.Document.Update.{integrate_insert, pending_round}
use yata_collaborative_edito.Document.Valid.{IsValid}
use yata_collaborative_edito.Document.Growth.{Grown, integrate_insert-Grown}
use yata_collaborative_edito.Document.PendingOrder.{PendingMap, Waiting, but}
use yata_collaborative_edito.Document.Pending.{
  Waiting-tail, Waiting-delete, Waiting-more, All-present-delete, length-delete-lt,
}
use yata_collaborative_edito.Document.CatchingUp.{
  absent, deletable, is_ready, IsCatchingUp, Retains, Rounded, absent-Grown, deletable-Grown,
  Grown-Retains, waiting-IsValid,
}

-- The document without the pending insertion that has just been integrated.
abbrev settled_one : Document → ElementId → Document
settled_one d id = record d { pending_inserts = delete id d.pending_inserts }

pub used : {d : Document} {cs : List Ptr} → IsValid d cs → 0 < d.allocated
used v = omega (arith, v.room)

module _ {d d' : Document} {cs : List Ptr} {id : ElementId} (g : Grown d cs id d') where
  settled_one-IsCatchingUp : IsCatchingUp d cs → IsCatchingUp (settled_one d' id) g.chain
  unfolding element_at
  settled_one-IsCatchingUp s = record {
    valid = waiting-IsValid (delete id d'.pending_inserts) d'.pending_deletes g.valid;
    inserts =
        Waiting-more (but id (absent d)) (absent (settled_one d' id)) (λ k h. absent-Grown g k h)
          (subst (λ m. Waiting (but id (absent d)) (delete id m)) (sym g.keeps.0)
            (Waiting-delete (absent d) id d.pending_inserts s.inserts));
    deletes =
        Waiting-more (deletable d cs) (deletable (settled_one d' id) g.chain)
          (λ k h. deletable-Grown g (used s.valid) k h)
          (subst (Waiting (deletable d cs)) (sym g.keeps.1) s.deletes);
  }

  settled_one-Retains : 0 < d.allocated → Retains d (settled_one d' id)
  unfolding element_at
  settled_one-Retains u k h = Grown-Retains g u k h

  settled_one-absent :
      (ps : PendingMap) → Waiting (but id (absent d)) ps → Waiting (absent (settled_one d' id)) ps
  unfolding element_at
  settled_one-absent ps w =
      Waiting-more (but id (absent d)) (absent (settled_one d' id)) (λ k h. absent-Grown g k h) w

  settled_one-shrinks :
      is_some (lookup id d.pending_inserts) ≡ true
      → length (settled_one d' id).pending_inserts < length d.pending_inserts
  settled_one-shrinks h =
      subst (λ m. length (delete id m) < length d.pending_inserts) (sym g.keeps.0)
        (length-delete-lt id d.pending_inserts h)

module _ (d : Document) (progress : Bool) (k : ElementId) (v : PendingElement)
    (rest : PendingMap) where
  round_skips :
      is_ready d (k, v) ≡ false
      → pending_round d progress ((k, v) ∷ rest) ≡ pending_round d progress rest
  unfolding pending_round
  round_skips h = ground arith

  round_steps :
      is_ready d (k, v) ≡ true
      → pending_round d progress ((k, v) ∷ rest) ≡ (
          integrate_insert d v.new_id v.origin_id v.right_id v.content >>= λ d'.
          pending_round (settled_one d' v.new_id) true rest)
  unfolding pending_round
  round_steps h = ground arith

  Rounded-skips :
      {r : Document × Bool}
      → is_ready d (k, v) ≡ false
      → Rounded d progress rest r
      → Rounded d progress ((k, v) ∷ rest) r
  Rounded-skips h r = record {
    chain = r.chain;
    state = r.state;
    retains = r.retains;
    holds = r.holds;
    stays = r.stays;
    shrinks = r.shrinks;
    moved = r.moved;
    rested = λ e. let (same, others) = r.rested e in (same, (h, others));
  }

  Rounded-steps :
      {d1 : Document} {r : Document × Bool}
      → Retains d d1
      → d1.pending_deletes ≡ d.pending_deletes
      → length d1.pending_inserts < length d.pending_inserts
      → Rounded d1 true rest r
      → Rounded d progress ((k, v) ∷ rest) r
  Rounded-steps kept held less r = record {
    chain = r.chain;
    state = r.state;
    retains = λ j h. r.retains j (kept j h);
    holds = r.holds ∙ held;
    stays = λ _. r.stays refl;
    shrinks = omega (arith, r.shrinks);
    moved = λ _. inr (omega (arith, r.shrinks));
    rested = λ e. absurd (ground (arith, r.stays refl));
  }

pub Settles-more :
    {A : Type 0} (P Q : A → Type 0) (m : Run A) → ((a : A) → P a → Q a) → Settles P m → Settles Q m
Settles-more P Q (ok a) f s = f a s
Settles-more P Q panic f s = tt
Settles-more P Q out_of_fuel f s = absurd s

pub pending_round-Rounded :
    (d : Document) (cs : List Ptr) (progress : Bool) (ps : PendingMap)
    → IsCatchingUp d cs
    → Waiting (absent d) ps
    → All (λ e. is_some (lookup e.0 d.pending_inserts) ≡ true) ps
    → Settles (Rounded d progress ps) (pending_round d progress ps)
unfolding pending_round
pending_round-Rounded d cs progress [] s w here = record {
  chain = cs;
  state = s;
  retains = λ k h. h;
  holds = refl;
  stays = λ e. e;
  shrinks = omega arith;
  moved = λ e. inl e;
  rested = λ e. (refl, tt);
}
pending_round-Rounded d cs progress ((k, v) ∷ rest) s w here =
    elim (Bool-cases (is_ready d (k, v))) [
      | inr stuck ↦
          subst (Settles (Rounded d progress ((k, v) ∷ rest)))
            (sym (round_skips d progress k v rest stuck))
            (Settles-more (Rounded d progress rest) (Rounded d progress ((k, v) ∷ rest))
              (pending_round d progress rest) (λ r x. Rounded-skips d progress k v rest stuck x)
              (pending_round-Rounded d cs progress rest s
                (Waiting-more (but k (absent d)) (absent d) (λ j h. ground arith)
                  (Waiting-tail (absent d) w))
                here.1))
      | inl ready ↦
          let same : k ≡ v.new_id = (id_eq_iff k v.new_id).0 w.entries.0.0 in
          let named = ap (element_at d) same in
          let unused : element_at d v.new_id ≡ null = ground (arith, named, w.entries.0.1) in
          subst (Settles (Rounded d progress ((k, v) ∷ rest)))
            (sym (round_steps d progress k v rest ready))
            (Settles->>= (Grown d cs v.new_id) (Rounded d progress ((k, v) ∷ rest))
              (integrate_insert d v.new_id v.origin_id v.right_id v.content)
              (λ d'. pending_round (settled_one d' v.new_id) true rest)
              (integrate_insert-Grown v.new_id v.origin_id v.right_id v.content s.valid unused
                (ground arith) (ground arith))
              (λ d' g.
                Settles-more (Rounded (settled_one d' v.new_id) true rest)
                  (Rounded d progress ((k, v) ∷ rest))
                  (pending_round (settled_one d' v.new_id) true rest)
                  (λ r x.
                    Rounded-steps d progress k v rest (settled_one-Retains g (used s.valid))
                      g.keeps.1
                      (settled_one-shrinks g
                        (subst (λ i. is_some (lookup i d.pending_inserts) ≡ true) same here.0))
                      x)
                  (pending_round-Rounded (settled_one d' v.new_id) g.chain true rest
                    (settled_one-IsCatchingUp g s)
                    (settled_one-absent g rest (
                      subst (λ i. Waiting (but i (absent d)) rest) same
                        (Waiting-tail (absent d) w)))
                    (subst (λ m. All (λ e. is_some (lookup e.0 (delete v.new_id m)) ≡ true) rest)
                      (sym g.keeps.0)
                      (All-present-delete v.new_id rest d.pending_inserts
                        (subst (λ i. lookup i rest ≡ none) same w.unlike.0) here.1)))))
    ]
