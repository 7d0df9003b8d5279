-- ===== src/Sync/Missing.antt =====
-- ComputeDelta and ComputeSerializedDelta against the vector that another replica generates.
use mathlib.Core.Path.{subst}
use yata_collaborative_edito.Base.{
  ℕ, ◌≡◌, ◌∙◌, sym, ap, Bool, true, false, not, inl, inr, some, List, [], ◌∷◌, arith, In,
  Bool-cases, Option-cases, pos, ltb_ℤ, text_Eq, Map, lookup,
}
use yata_collaborative_edito.Identifier.{ElementId, id_eq_iff, id_Eq}
use yata_collaborative_edito.Protocol.Operations.{InsertOperation, DeleteOperation, Delta}
use yata_collaborative_edito.Sync.{
  Vector, is_sentinel, exists, generate_state_vector, generate_delete_set, delete_exists,
  is_missing_insert, is_missing_delete, missing_keys, collect, compute_delta,
  compute_serialized_delta,
}
use yata_collaborative_edito.Sync.Continuity.{Log, Gapless}
use yata_collaborative_edito.Sync.StateVector.{state_vector-IsSound, state_vector-Reaches}
use yata_collaborative_edito.Sync.DeleteSet.{delete_set_lem}

module _ {V : Type 0} where
  missing_keys-In :
      (missing : ElementId → Bool) (k : ElementId) (m : Map ElementId V) (v : V)
      → lookup k m ≡ some v
      → missing k ≡ true
      → In k (missing_keys missing m)
  unfolding missing_keys lookup
  missing_keys-In missing k [] v h t = absurd (cc h)
  missing_keys-In missing k ((j, w) ∷ m) v h t =
      ground (arith, id_eq_iff j k, missing_keys-In missing k m v)

  missing_keys_sound :
      (missing : ElementId → Bool) (k : ElementId) (m : Map ElementId V)
      → In k (missing_keys missing m)
      → (missing k ≡ true)
  unfolding missing_keys
  missing_keys_sound missing k [] h = absurd h
  missing_keys_sound missing k ((j, w) ∷ m) h = ground (arith, missing_keys_sound missing k m)

  collect-In :
      (log : Map ElementId V) (k : ElementId) (v : V) (ks : List ElementId)
      → lookup k log ≡ some v
      → In k ks
      → In v (collect log ks)
  unfolding collect
  collect-In log k v [] h i = absurd i
  collect-In log k v (j ∷ ks) h i = ground (arith, collect-In log k v ks)

-- The vector that a replica with these logs sends.
abbrev pub vector_of : Log → Map ElementId DeleteOperation → Vector
vector_of insert_log delete_log = record {
  state_vectors = generate_state_vector insert_log;
  delete_set = generate_delete_set delete_log;
}

-- The answer of a replica with logs `inserts` and `deletes` to one with the `peer_` logs.
abbrev pub answer :
    (inserts : Log) (deletes : Map ElementId DeleteOperation) (peer_inserts : Log)
    → Map ElementId DeleteOperation
    → Delta
answer inserts deletes peer_inserts peer_deletes =
    compute_serialized_delta inserts deletes
      (compute_delta inserts deletes (vector_of peer_inserts peer_deletes))

missing_insert :
    (peer : Log) (k : ElementId) (n : ℕ)
    → is_sentinel k.client_id ≡ false
    → k.clock ≡ pos n
    → exists (lookup k peer) ≡ false
    → is_missing_insert (generate_state_vector peer) k ≡ true
unfolding is_missing_insert
missing_insert peer k n s clock unknown =
    elim (Option-cases (lookup k.client_id (generate_state_vector peer))) [
      | inl e ↦ rw (s, e)
      | inr (m, e) ↦ elim (Bool-cases (ltb_ℤ m k.clock)) [
        | inl less ↦ rw (s, e) less
        | inr more ↦
            let known =
              (state_vector-IsSound peer).gapless k.client_id m e n
                (subst (λ c. ltb_ℤ m c ≡ false) clock more) in
            let known' =
              subst
                (λ c. exists (lookup (record { client_id = k.client_id; clock = c }) peer) ≡ true)
                (sym clock) known in
            absurd (ground (arith, known'))
      ]
    ]

missing_delete :
    (peer : Map ElementId DeleteOperation) (k : ElementId)
    → is_sentinel k.client_id ≡ false
    → is_missing_delete (generate_delete_set peer) k ≡ not (exists (lookup k peer))
unfolding is_missing_delete delete_exists
missing_delete peer k s =
    let held = (delete_set_lem peer k.client_id).0 k.clock in
    elim (Option-cases (lookup k.client_id (generate_delete_set peer))) [
      | inl e ↦ ground (arith, held)
      | inr (clocks, e) ↦ ground (arith, held)
    ]

module _ (inserts peer_inserts : Log) (deletes peer_deletes : Map ElementId DeleteOperation)
    (k : ElementId) where
  -- No insertion is lost: one that the replica has logged and the peer has not is in the answer
  -- to the peer's vector, if its client is no sentinel and its clock is not negative.
  pub answer_inserts_complete :
      (op : InsertOperation) (n : ℕ)
      → is_sentinel k.client_id ≡ false
      → k.clock ≡ pos n
      → lookup k inserts ≡ some op
      → exists (lookup k peer_inserts) ≡ false
      → In op (answer inserts deletes peer_inserts peer_deletes).inserts
  unfolding compute_serialized_delta compute_delta
  answer_inserts_complete op n s clock h unknown =
      collect-In inserts k op
        (missing_keys (is_missing_insert (generate_state_vector peer_inserts)) inserts) h
        (missing_keys-In (is_missing_insert (generate_state_vector peer_inserts)) k inserts op h
          (missing_insert peer_inserts k n s clock unknown))

  -- No deletion is lost: one that the replica has logged and the peer has not is in the answer to
  -- the peer's vector, if its client is no sentinel.
  pub answer_deletes_complete :
      (op : DeleteOperation)
      → is_sentinel k.client_id ≡ false
      → lookup k deletes ≡ some op
      → exists (lookup k peer_deletes) ≡ false
      → In op (answer inserts deletes peer_inserts peer_deletes).deletes
  unfolding compute_serialized_delta compute_delta
  answer_deletes_complete op s h unknown =
      collect-In deletes k op
        (missing_keys (is_missing_delete (generate_delete_set peer_deletes)) deletes) h
        (missing_keys-In (is_missing_delete (generate_delete_set peer_deletes)) k deletes op h
          (missing_delete peer_deletes k s ∙ ap not unknown))

  -- No insertion is sent again that the peer has logged together with all earlier ones of its
  -- client.
  pub missing_inserts_sound :
      In k (compute_delta inserts deletes (vector_of peer_inserts peer_deletes)).0
      → exists (lookup k peer_inserts) ≡ true
      → ¬ Gapless peer_inserts k.client_id k.clock
  unfolding compute_delta is_missing_insert
  missing_inserts_sound h known gapless =
      let t =
        missing_keys_sound (is_missing_insert (generate_state_vector peer_inserts)) k inserts h in
      let s : is_sentinel k.client_id ≡ false = ground (arith, t) in
      let (m, e, reached) = state_vector-Reaches peer_inserts k known s gapless in
      cc (rw (s, e) at t, reached)

  -- No deletion is sent again that the peer has logged.
  pub missing_deletes_sound :
      In k (compute_delta inserts deletes (vector_of peer_inserts peer_deletes)).1
      → exists (lookup k peer_deletes) ≡ false
  unfolding compute_delta is_missing_delete
  missing_deletes_sound h =
      let t =
        missing_keys_sound (is_missing_delete (generate_delete_set peer_deletes)) k deletes h in
      let s : is_sentinel k.client_id ≡ false = ground (arith, t) in
      ground (arith, t, missing_delete peer_deletes k s)
