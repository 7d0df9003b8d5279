-- ===== src/Document/CatchingUp.antt =====
-- What waits in a document: what holds of it while processPending runs.
use yata_collaborative_edito.Base.{
  ◌<◌, ◌≤◌, ◌≡◌, ◌⊎◌, Bool, true, false, not, ◌&&◌, ◌||◌, List, arith, ◌==◌, has, All, length,
}
use yata_collaborative_edito.Identifier.{ElementId, id_Eq}
use yata_collaborative_edito.Document.{Ptr, null, Document, PendingElement, element_at}
use yata_collaborative_edito.Document.Valid.{IsValid}
use yata_collaborative_edito.Document.Growth.{Grown, Grown-element_at}
use yata_collaborative_edito.Document.PendingOrder.{PendingMap, Waiting, but}

-- The map has no element of this identifier.
abbrev pub absent : Document → ElementId → Bool
absent d k = element_at d k == null

-- An element that a pending deletion waits for has not come, or has just come and can be marked.
abbrev pub deletable : Document → List Ptr → ElementId → Bool
deletable d cs k =
    (element_at d k == null)
    || (has (element_at d k) cs && not (d.memory (element_at d k)).is_deleted)

-- Both elements that the pending insertion names are there.
abbrev pub is_ready : Document → ElementId × PendingElement → Bool
is_ready d (k, v) = not (element_at d v.origin_id == null) && not (element_at d v.right_id == null)

-- The document while pending elements are processed.
pub record IsCatchingUp (d : Document) (cs : List Ptr) : Type 0 where
  pub valid : IsValid d cs
  pub inserts : Waiting (absent d) d.pending_inserts
  pub deletes : Waiting (deletable d cs) d.pending_deletes

-- What was in the document is still there.
abbrev pub Retains : Document → Document → Type 0
Retains d d' = (k : ElementId) → absent d k ≡ false → absent d' k ≡ false

-- After a round: whether something was integrated, and what that did.
pub record Rounded (d : Document) (progress : Bool) (ps : PendingMap) (r : Document × Bool)
    : Type 0 where
  pub chain : List Ptr
  pub state : IsCatchingUp r.0 chain
  pub retains : Retains d r.0
  pub holds : r.0.pending_deletes ≡ d.pending_deletes
  pub stays : progress ≡ true → r.1 ≡ true
  pub shrinks : length r.0.pending_inserts ≤ length d.pending_inserts
  pub moved :
      r.1 ≡ true → (progress ≡ true) ⊎ (length r.0.pending_inserts < length d.pending_inserts)
  pub rested : r.1 ≡ false → (r.0 ≡ d) × All (λ e. is_ready d e ≡ false) ps

module _ {d d' : Document} {cs : List Ptr} {id : ElementId} (g : Grown d cs id d') where
  pub absent-Grown : (k : ElementId) → but id (absent d) k ≡ true → absent d' k ≡ true
  absent-Grown k h = ground (arith, Grown-element_at g k)

  pub deletable-Grown :
      0 < d.allocated → (k : ElementId) → deletable d cs k ≡ true → deletable d' g.chain k ≡ true
  deletable-Grown used k h = ground (
    arith,
    Grown-element_at g k,
    g.added,
    g.live,
    g.kept (element_at d k),
    g.marks (element_at d k),
  )

  pub Grown-Retains : 0 < d.allocated → Retains d d'
  Grown-Retains used k h = ground (arith, Grown-element_at g k)

-- What waits is no part of the invariant.
pub waiting-IsValid :
    {d : Document} {cs : List Ptr} (inserts deletes : PendingMap)
    → IsValid d cs
    → IsValid (record d { pending_inserts = inserts; pending_deletes = deletes }) cs
waiting-IsValid inserts deletes v = record {
  linked = v.linked;
  distinct = v.distinct;
  in_use = v.in_use;
  room = v.room;
  end_live = v.end_live;
  counter = v.counter;
  start_named = v.start_named;
  end_named = v.end_named;
  registered = v.registered;
  known = v.known;
}
