-- ===== src/Document/Remote.antt =====
-- RemoteInsert as a whole: an insertion that arrives is integrated or waits, and with it every
-- pending operation that it makes possible is carried out.
use mathlib.Core.Path.{subst}
use yata_collaborative_edito.Base.{
  ℕ, ◌≡◌, refl, sym, true, false, ◌||◌, inl, inr, none, some, List, arith, Bool-cases, lookup,
  insert, lookup-insert_self, ok, ◌>>=◌, Settles, Settles->>=,
}
use yata_collaborative_edito.Identifier.{ElementId, id_eq_iff, id_Eq}
use yata_collaborative_edito.Protocol.Operations.{new_insert_operation}
use yata_collaborative_edito.Document.{
  Ptr, Document, already_inserted, pending_value, new_pending, element_at, RangeOrder,
}
use yata_collaborative_edito.Document.Update.{
  integrate_insert, process_pending, process_pending_deletes, remote_insert,
}
use yata_collaborative_edito.Document.Valid.{IsValid}
use yata_collaborative_edito.Document.Growth.{Grown, integrate_insert-Grown}
use yata_collaborative_edito.Document.Pending.{Waiting-insert}
use yata_collaborative_edito.Document.CatchingUp.{absent}
use yata_collaborative_edito.Document.Arrival.{IsConsistent, Received, settle}

-- The document of an insertion that has to wait.
abbrev parked : Document → (id origin_id right_id : ElementId) → ℕ → Document
unfolding new_pending new_insert_operation
parked d id origin_id right_id content = record d {
  pending_inserts = insert id (new_pending id origin_id right_id content) d.pending_inserts;
  insert_log = insert id (new_insert_operation id origin_id right_id content) d.insert_log;
}

module _ {d : Document} {cs : List Ptr} (id origin_id right_id : ElementId) (content : ℕ) where
  parked-IsConsistent :
      IsConsistent d cs
      → absent d id ≡ true
      → IsConsistent (parked d id origin_id right_id content) cs
  unfolding element_at new_pending parked
  parked-IsConsistent s h = record {
    valid = parked-IsValid s.valid;
    inserts =
        Waiting-insert (absent d) id (new_pending id origin_id right_id content) d.pending_inserts
          ((id_eq_iff id id).1 refl) h s.inserts;
    deletes = s.deletes;
  }
    where
      parked-IsValid : IsValid d cs → IsValid (parked d id origin_id right_id content) cs
      parked-IsValid v = record {
        linked = v.linked;
        distinct = v.distinct;
        in_use = v.in_use;
        room = v.room;
        end_live = v.end_live;
        counter = v.counter;
        start_named = v.start_named;
        end_named = v.end_named;
        registered = v.registered;
        known = v.known;
      }

  parked-Received :
      IsConsistent d cs
      → absent d id ≡ true
      → Received d id (parked d id origin_id right_id content, some pending_value)
  unfolding element_at parked
  parked-Received s h = record {
    chain = cs;
    consistent = parked-IsConsistent s h;
    retains = λ k e. e;
    outcome = (
      ground (
        arith,
        lookup-insert_self id (new_pending id origin_id right_id content) d.pending_inserts,
      ),
      refl,
      refl,
    );
  }

module _ (ranges : RangeOrder) (d : Document) (id origin_id right_id : ElementId)
    (content : ℕ) where
  remote_insert_known :
      absent d id ≡ false
      → remote_insert ranges d id origin_id right_id content ≡ ok (d, some already_inserted)
  unfolding remote_insert
  remote_insert_known h = ground arith

  remote_insert-parked :
      absent d id ≡ true
      → (absent d origin_id || absent d right_id) ≡ true
      → remote_insert ranges d id origin_id right_id content
        ≡ ok (parked d id origin_id right_id content, some pending_value)
  unfolding remote_insert
  remote_insert-parked h m = ground arith

  pub remote_insert_integrates :
      absent d id ≡ true
      → (absent d origin_id || absent d right_id) ≡ false
      → remote_insert ranges d id origin_id right_id content ≡ (
          integrate_insert d id origin_id right_id content >>= λ d1.
          (process_pending ranges d1 >>= λ d2.
          (process_pending_deletes ranges d2 >>= λ d3. ok (d3, none))))
  unfolding remote_insert
  remote_insert_integrates h m = ground arith

  known-Received :
      {cs : List Ptr}
      → IsConsistent d cs
      → absent d id ≡ false
      → Received d id (d, some already_inserted)
  known-Received {cs} s h = record {
    chain = cs;
    consistent = s;
    retains = λ k e. e;
    outcome = (h, refl);
  }

-- RemoteInsert on a consistent document, of an operation that does not wait already when its two
-- neighbours are there, leaves a consistent document in which every element of before still is,
-- unless it faults. It returns that the value was already inserted only for an identifier of the
-- document, and then changes nothing; that the value is pending only with the operation among the
-- pending insertions and the list and the map as they were; and no error only with the identifier
-- in the map, no pending insertion left whose neighbours are both there, and the new element
-- marked as deleted when a deletion waited for it. The loops of processPending and
-- processPendingDeletes end.
pub remote_insert-Received :
    (ranges : RangeOrder) {d : Document} {cs : List Ptr} (id origin_id right_id : ElementId)
    (content : ℕ)
    → IsConsistent d cs
    → ((absent d origin_id || absent d right_id) ≡ false → lookup id d.pending_inserts ≡ none)
    → Settles (Received d id) (remote_insert ranges d id origin_id right_id content)
remote_insert-Received ranges {d} {cs} id origin_id right_id content s free =
    elim (Bool-cases (absent d id)) [
      | inr known ↦
          subst (Settles (Received d id))
            (sym (remote_insert_known ranges d id origin_id right_id content known))
            (known-Received ranges d id origin_id right_id content s known)
      | inl unknown ↦ elim (Bool-cases (absent d origin_id || absent d right_id)) [
        | inl missing ↦
            subst (Settles (Received d id))
              (sym (remote_insert-parked ranges d id origin_id right_id content unknown missing))
              (parked-Received id origin_id right_id content s unknown)
        | inr there ↦
            subst (Settles (Received d id))
              (sym (remote_insert_integrates ranges d id origin_id right_id content unknown there))
              (Settles->>= (Grown d cs id) (Received d id)
                (integrate_insert d id origin_id right_id content)
                (λ d1. process_pending ranges d1 >>= λ d2.
                  (process_pending_deletes ranges d2 >>= λ d3. ok (d3, none)))
                (integrate_insert-Grown id origin_id right_id content s.valid (ground arith)
                  (ground arith) (ground arith))
                (λ d1 g. settle ranges s id (free there) g))
      ]
    ]
