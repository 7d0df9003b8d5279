-- ===== src/Document/Rounds.antt =====
-- The rounds of processPending end, and the loop of processPendingDeletes carries out every
-- deletion whose element has come.
use mathlib.Core.Path.{subst}
use mathlib.Core.Logic.{∥∥₁_elim}
use yata_collaborative_edito.Base.{
  ℕ, zero, suc, ◌<◌, ◌≡◌, ◌∙◌, refl, sym, false, inl, inr, List, arith, if◌then◌else◌, Bool-cases,
  ok, All, length, ◌>>=◌, Settles, Settles->>=,
}
use yata_collaborative_edito.Identifier.{id_Eq}
use yata_collaborative_edito.Document.{Ptr, Document, RangeOrder}
use yata_collaborative_edito.Document.Update.{pending_round, pending_rounds, process_pending}
use yata_collaborative_edito.Document.PendingOrder.{Waiting-Perm, Present-Perm, All-prop, All-Perm}
use yata_collaborative_edito.Document.Pending.{present_self}
use yata_collaborative_edito.Document.CatchingUp.{absent, is_ready, IsCatchingUp, Retains, Rounded}
use yata_collaborative_edito.Document.Delivery.{pending_round-Rounded, Settles-more}

-- After processPending: no pending insertion has both its elements.
pub record Caught (d d' : Document) : Type 0 where
  pub chain : List Ptr
  pub state : IsCatchingUp d' chain
  pub retains : Retains d d'
  pub holds : d'.pending_deletes ≡ d.pending_deletes
  pub stuck : All (λ e. is_ready d' e ≡ false) d'.pending_inserts

module _ (ranges : RangeOrder) where
  rounds_step :
      (fuel : ℕ) (d : Document)
      → pending_rounds ranges (suc fuel) d ≡ (
          pending_round d false (ranges.order d.pending_inserts) >>= λ r.
          if r.1 then pending_rounds ranges fuel r.0 else ok r.0)
  unfolding pending_rounds
  rounds_step fuel d = refl

  stuck-All :
      (d : Document)
      → All (λ e. is_ready d e ≡ false) (ranges.order d.pending_inserts)
      → All (λ e. is_ready d e ≡ false) d.pending_inserts
  stuck-All d h =
      ∥∥₁_elim (ranges.order-perm d.pending_inserts)
        (All-prop (λ e. is_ready d e ≡ false) d.pending_inserts (λ e. hlevel))
        (λ p. All-Perm (λ e. is_ready d e ≡ false) p h)

  Caught-further :
      {d e d' : Document}
      → Retains d e
      → e.pending_deletes ≡ d.pending_deletes
      → Caught e d'
      → Caught d d'
  Caught-further kept held c = record {
    chain = c.chain;
    state = c.state;
    retains = λ k h. c.retains k (kept k h);
    holds = c.holds ∙ held;
    stuck = c.stuck;
  }

  -- One round more than there are pending insertions is enough.
  pub pending_rounds-Caught :
      (fuel : ℕ) (d : Document) (cs : List Ptr)
      → IsCatchingUp d cs
      → length d.pending_inserts < fuel
      → Settles (Caught d) (pending_rounds ranges fuel d)
  pending_rounds-Caught zero d cs s small = absurd (omega arith)
  pending_rounds-Caught (suc fuel) d cs s small =
      let ps = ranges.order d.pending_inserts in
      subst (Settles (Caught d)) (sym (rounds_step fuel d)) (
        Settles->>= (Rounded d false ps) (Caught d) (pending_round d false ps)
          (λ r. if r.1 then pending_rounds ranges fuel r.0 else ok r.0)
          (pending_round-Rounded d cs false ps s
            (Waiting-Perm (absent d) (ranges.order-perm d.pending_inserts) s.inserts)
            (Present-Perm d.pending_inserts (ranges.order-perm d.pending_inserts)
              (present_self d.pending_inserts)))
          (λ r x. elim (Bool-cases r.1) [
            | inl more ↦ rw more (
                Settles-more (Caught r.0) (Caught d) (pending_rounds ranges fuel r.0)
                  (λ d' c. Caught-further x.retains x.holds c)
                  (pending_rounds-Caught fuel r.0 x.chain x.state (ground (arith, x.moved more))))
            | inr done ↦ rw done (record {
              chain = x.chain;
              state = x.state;
              retains = x.retains;
              holds = x.holds;
              stuck =
                  let (same, all) = x.rested done in
                  subst (λ e. All (λ p. is_ready e p ≡ false) e.pending_inserts) (sym same)
                    (stuck-All d all);
            })
          ]))

  pub process_pending-Caught :
      (d : Document) (cs : List Ptr)
      → IsCatchingUp d cs
      → Settles (Caught d) (process_pending ranges d)
  unfolding process_pending
  process_pending-Caught d cs s =
      pending_rounds-Caught (suc (length d.pending_inserts)) d cs s (omega arith)
