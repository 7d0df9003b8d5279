-- ===== src/Examples/Remote.antt =====
-- The theorems on RemoteInsert at a document in which one insertion and one deletion wait for the
-- same element.
use mathlib.Core.List.Perm
use yata_collaborative_edito.Base.{
  ◌≡◌, ◌≢◌, refl, false, none, [], ◌∷◌, arith, text_eq, eq_ℤ, lookup, insert, ok, panic, Settles,
  has,
}
use yata_collaborative_edito.Identifier.{id_eq, id_Eq}
use yata_collaborative_edito.Document.{
  Document, RangeOrder, new_pending, zero_id, start_id, new_document, element_at, null,
}
use yata_collaborative_edito.Document.Update.{register, remote_insert}
use yata_collaborative_edito.Document.PendingOrder.{Waiting}
use yata_collaborative_edito.Document.Integration.{Integrated}
use yata_collaborative_edito.Document.CatchingUp.{absent, waiting-IsValid}
use yata_collaborative_edito.Document.Arrival.{IsConsistent, Received}
use yata_collaborative_edito.Document.Remote.{remote_insert-Received}
use yata_collaborative_edito.Document.Ordered.{remote_insert_ordered, remote_insert_reversed}
use yata_collaborative_edito.Examples.Documents.{
  ana, carl, bob_id, id_of, written, written-IsValid, ana_unused,
}

-- A runtime that visits the entries in the order in which they came.
abbrev pub kept : RangeOrder
kept = record { order = λ m. m; order-perm = λ m. Perm.refl m }

abbrev expecting : Document
expecting = record written {
  pending_inserts = (id_of carl 0, new_pending (id_of carl 0) (id_of ana 0) bob_id b'c') ∷ [];
  pending_deletes = (id_of ana 0, new_pending (id_of ana 0) zero_id zero_id 0) ∷ [];
}

carl_waits : Waiting (absent expecting) expecting.pending_inserts
unfolding new_pending element_at register new_document lookup insert id_eq text_eq eq_ℤ
carl_waits = record { entries = ((refl, refl), tt); unlike = (refl, tt) }

ana_waits : Waiting (absent expecting) expecting.pending_deletes
unfolding new_pending element_at register new_document lookup insert id_eq text_eq eq_ℤ
ana_waits = record { entries = ((refl, refl), tt); unlike = (refl, tt) }

expecting-IsConsistent : IsConsistent expecting (3 ∷ [])
unfolding element_at
expecting-IsConsistent = record {
  valid = waiting-IsValid expecting.pending_inserts expecting.pending_deletes written-IsValid;
  inserts = carl_waits;
  deletes = ana_waits;
}

ana_comes : lookup (id_of ana 0) expecting.pending_inserts ≡ none
unfolding lookup id_eq text_eq eq_ℤ
ana_comes = refl

remote_insert-Received_example :
    Settles
      (Received expecting (id_of ana 0))
      (remote_insert kept expecting (id_of ana 0) start_id bob_id b'a')
remote_insert-Received_example =
    remote_insert-Received kept (id_of ana 0) start_id bob_id b'a' expecting-IsConsistent
      (λ _. ana_comes)

remote_insert_ordered_example :
    (result : Integrated written [] (3 ∷ []) [] (id_of ana 0) b'a') × (remote_insert kept written
        (id_of ana 0)
        (written.memory written.start).element_id
        (written.memory written.end).element_id
        b'a'
      ≡ ok (result.after, none))
unfolding register new_document
remote_insert_ordered_example =
    remote_insert_ordered kept [] (3 ∷ []) [] (id_of ana 0) b'a' written-IsValid ana_unused refl
      refl

start_present : element_at written start_id ≢ null
unfolding element_at register new_document lookup insert id_eq text_eq eq_ℤ
start_present e = omega (arith, e)

start_first : has (element_at written start_id) (written.end ∷ []) ≡ false
unfolding element_at register new_document lookup insert id_eq text_eq eq_ℤ
start_first = refl

remote_insert_reversed_example :
    remote_insert kept written (id_of ana 0) (written.memory 3).element_id start_id b'a' ≡ panic
remote_insert_reversed_example =
    remote_insert_reversed kept (3 ∷ []) [] (id_of ana 0) start_id b'a' written-IsValid ana_unused
      start_present start_first
