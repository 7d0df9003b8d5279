-- ===== src/Examples/Sync.antt =====
-- The theorems on backend/internal/sync/statevector.go at two small logs.
use yata_collaborative_edito.Base.{
  ℕ, ◌≡◌, refl, inl, inr, true, false, some, [], ◌∷◌, arith, pos, Text, codes, text_eq, eq_ℤ, Map,
  lookup, insert, text_Eq, In,
}
use yata_collaborative_edito.Identifier.{ElementId, id_eq, id_Eq, new_id}
use yata_collaborative_edito.Protocol.Operations.{InsertOperation, DeleteOperation}
use yata_collaborative_edito.Document.{start_id, end_id}
use yata_collaborative_edito.Sync.{
  is_sentinel, exists, generate_state_vector, generate_delete_set, compute_delta, is_missing_insert,
  is_missing_delete, missing_keys, state_vector_loop, state_vector_step, validate_clock_continuity,
  continuity_loop, delete_set_loop, sort_clocks,
}
use yata_collaborative_edito.Sync.Continuity.{Log, Gapless, IsSound}
use yata_collaborative_edito.Sync.StateVector.{state_vector-IsSound}
use yata_collaborative_edito.Sync.Missing.{
  answer, vector_of, answer_inserts_complete, answer_deletes_complete,
}

abbrev ana : Text
ana = codes "A"

abbrev id_at : ℕ → ElementId
id_at clock = record { client_id = ana; clock = pos clock }

abbrev typed : ℕ → InsertOperation
typed clock = record {
  new_id = id_at clock;
  origin_id = start_id;
  right_id = end_id;
  content = b'a';
}

abbrev erased : ℕ → DeleteOperation
erased clock = record { target_id = id_at clock }

-- Clocks 0, 1 and 3 of one client: the log of a replica that has missed clock 2.
abbrev gappy : Log
gappy = (id_at 0, typed 0) ∷ (id_at 3, typed 3) ∷ (id_at 1, typed 1) ∷ []

abbrev short : Log
short = (id_at 0, typed 0) ∷ []

abbrev erasures : Map ElementId DeleteOperation
erasures = (id_at 1, erased 1) ∷ (id_at 0, erased 0) ∷ []

state_vector-IsSound_example : IsSound gappy (generate_state_vector gappy)
state_vector-IsSound_example = state_vector-IsSound gappy

ana_is_client : is_sentinel ana ≡ false
unfolding is_sentinel text_eq
ana_is_client = refl

zero_logged : exists (lookup (id_at 1) gappy) ≡ true
unfolding lookup id_eq text_eq eq_ℤ
zero_logged = refl

gappy-Gapless : Gapless gappy ana (pos 1)
unfolding lookup id_eq text_eq eq_ℤ
gappy-Gapless j h = ground arith

known_three : lookup (id_at 3) gappy ≡ some (typed 3)
unfolding lookup id_eq text_eq eq_ℤ
known_three = refl

unknown_three : exists (lookup (id_at 3) short) ≡ false
unfolding lookup id_eq text_eq eq_ℤ
unknown_three = refl

answer_inserts_complete_example : In (typed 3) (answer gappy erasures short []).inserts
answer_inserts_complete_example =
    answer_inserts_complete gappy short erasures [] (id_at 3) (typed 3) 3 ana_is_client refl
      known_three unknown_three

known_erasure : lookup (id_at 0) erasures ≡ some (erased 0)
unfolding lookup id_eq text_eq eq_ℤ
known_erasure = refl

unknown_erasure : exists (lookup {V = DeleteOperation} (id_at 0) []) ≡ false
unfolding lookup
unknown_erasure = refl

answer_deletes_complete_example : In (erased 0) (answer gappy erasures short []).deletes
answer_deletes_complete_example =
    answer_deletes_complete gappy short erasures [] (id_at 0) (erased 0) ana_is_client known_erasure
      unknown_erasure

three_sent : In (id_at 3) (compute_delta gappy erasures (vector_of gappy [])).0
unfolding compute_delta is_missing_insert missing_keys is_sentinel text_eq eq_ℤ lookup id_eq
    generate_state_vector state_vector_loop state_vector_step validate_clock_continuity
    continuity_loop new_id insert
three_sent = inl refl

three_known : exists (lookup (id_at 3) gappy) ≡ true
unfolding lookup id_eq text_eq eq_ℤ
three_known = refl

erasure_sent : In (id_at 0) (compute_delta gappy erasures (vector_of short [])).1
unfolding compute_delta is_missing_delete missing_keys is_sentinel text_eq eq_ℤ lookup id_eq
    generate_delete_set delete_set_loop sort_clocks
erasure_sent = inr (inl refl)
