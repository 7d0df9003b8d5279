-- ===== src/Relay/Cases.antt =====
-- What a round of ws may do, case by case, and that none follows a nil pointer.
use mathlib.Core.Path.{subst}
use yata_collaborative_edito.Base.{
  ℕ, Bool, true, false, some, [], ◌≡◌, ◌≢◌, ◌⊎◌, refl, inl, inr, arith, Text, Bool-cases,
  Option-cases, text_eq, trim_space, is_empty, eq_ℤ,
}
use yata_collaborative_edito.Protocol.Messages.{
  Bytes, Json, Codec, Answer, MessageError, SnapshotOp, UpdatePayload, ◌>>=◌, type_update,
  op_snapshot, op_presence, supported_version,
}
use yata_collaborative_edito.Protocol.Operations.{Delta}
use yata_collaborative_edito.Protocol.Decoding.{
  check_snapshot, decode_snapshot, decode_update, decode_envelope,
}
use yata_collaborative_edito.Storage.{Stored, load_internal_snapshot}
use yata_collaborative_edito.Storage.Buckets.{Bolt}
use yata_collaborative_edito.Relay.{ClientSession, Hub, broadcast_to_room, Result}
use yata_collaborative_edito.Relay.Handshake.{
  ErrorReply, invalid_payload_reply, expected_message_reply, unknown_message_reply,
  unsupported_version_reply,
}
use yata_collaborative_edito.Relay.Rounds.{
  Next, continues, ends, panics, Outcome, write_fails, send, send_error_message, send_sync2,
  answer_sync1, save_snapshot, after_broadcast, relay_message, relay_operation, relay_update,
  message_round,
}

pub Answer-cases :
    {A : Type 0} (a : Answer A)
    → ((e : MessageError) × (a ≡ Answer.raised e)) ⊎ ((x : A) × (a ≡ Answer.returned x))
Answer-cases (Answer.raised e) = inl (e, refl)
Answer-cases (Answer.returned x) = inr (x, refl)

continues-safe : ◌≢◌ {A = Next} continues panics
continues-safe e = ground arith

pub ends-safe : ◌≢◌ {A = Next} ends panics
ends-safe e = ground arith

module _ (json : Json) where
  pub send_error_message-safe :
      (fails : ℕ → Bool) (s : ClientSession) (reply : ErrorReply) (next : Next) (conn : ℕ)
      → s.web_socket ≡ some conn
      → next ≢ panics
      → (send_error_message json fails s reply next).0 ≢ panics
  unfolding send_error_message send
  send_error_message-safe fails s reply next conn at safe = ground (arith, at, safe)

  answer_sync1-safe :
      (fails : ℕ → Bool) (s : ClientSession) (r : Stored Delta) (conn : ℕ)
      → s.web_socket ≡ some conn
      → (answer_sync1 json fails s r).0 ≢ panics
  unfolding answer_sync1 send_sync2 send send_error_message
  answer_sync1-safe fails s r conn at = ground (arith, at)

  module _ (bolt : Bolt) (deltas : Codec Delta) where
    pub save_snapshot-safe :
        (fails : ℕ → Bool) (commits : Bool) (s : ClientSession) (db : bolt.Bucket)
        (update : UpdatePayload) (snapshot : SnapshotOp) (conn : ℕ)
        → s.web_socket ≡ some conn
        → decode_snapshot json update ≡ Answer.returned snapshot
        → (save_snapshot json bolt deltas fails commits s db snapshot).0.0 ≢ panics
    unfolding save_snapshot decode_snapshot check_snapshot send_error_message send ◌>>=◌
    save_snapshot-safe fails commits s db update snapshot conn at decoded =
        ground (arith, at, decoded)

    after_broadcast-safe :
        (fails : ℕ → Bool) (s : ClientSession) (db : bolt.Bucket) (t : Text) (r : Result Bool)
        (conn : ℕ)
        → s.web_socket ≡ some conn
        → (after_broadcast json bolt deltas fails s db t r).0 ≢ panics
    unfolding after_broadcast send_error_message send
    after_broadcast-safe fails s db t r conn at = ground (
      arith,
      at,
      answer_sync1-safe fails s (load_internal_snapshot bolt deltas db s.room_id) conn at,
    )

    module _ (fails : ℕ → Bool) (commits : Bool) (hub : Hub) (s : ClientSession)
        (db : bolt.Bucket) where
      pub data RoundCase (message : Bytes) (out : Outcome json bolt deltas) : Type 0 where
        -- the client is told of an error
        answered :
            (reply : ErrorReply) (next : Next)
            → next ≢ panics
            → out ≡ (send_error_message json fails s reply next, db)
            → RoundCase message out
        -- a snapshot
        saved :
            (update : UpdatePayload) (snapshot : SnapshotOp)
            → decode_snapshot json update ≡ Answer.returned snapshot
            → out ≡ save_snapshot json bolt deltas fails commits s db snapshot
            → RoundCase message out
        -- a presence
        ignored : out ≡ ((continues, []), db) → RoundCase message out
        -- any other operation
        relayed :
            (t : Text)
            → out ≡ relay_message json bolt deltas fails hub s db message t
            → RoundCase message out

      relay_operation_cases :
          (message : Bytes) (update : UpdatePayload) (t : Text)
          → RoundCase message
              (relay_operation json bolt deltas fails commits hub s db message update t)
      unfolding relay_operation
      relay_operation_cases message update t = elim (Bool-cases (text_eq t op_snapshot)) [
        | inl e ↦ elim (Answer-cases (decode_snapshot json update)) [
          | inl (err, r) ↦ answered invalid_payload_reply continues continues-safe (ground arith)
          | inr (snapshot, r) ↦ saved update snapshot r (ground arith)
        ]
        | inr e ↦ elim (Bool-cases (text_eq t op_presence)) [
          | inl p ↦ ignored (ground arith)
          | inr p ↦ relayed t (ground arith)
        ]
      ]

      relay_update_cases :
          (message payload : Bytes)
          → RoundCase message (relay_update json bolt deltas fails commits hub s db message payload)
      unfolding relay_update
      relay_update_cases message payload = elim (Answer-cases (decode_update json payload)) [
        | inl (err, r) ↦ answered invalid_payload_reply continues continues-safe (ground arith)
        | inr (update, r) ↦ elim (Option-cases (json.operations.unmarshal update.operation)) [
          | inl o ↦ answered invalid_payload_reply continues continues-safe (ground arith)
          | inr (envelope, o) ↦ elim (Bool-cases (is_empty (trim_space envelope.type_name))) [
            | inl b ↦ answered invalid_payload_reply continues continues-safe (ground arith)
            | inr b ↦
                subst (RoundCase message) (ground arith)
                  (relay_operation_cases message update (trim_space envelope.type_name))
          ]
        ]
      ]

      pub message_round_cases :
          (is_text : Bool) (message : Bytes)
          → RoundCase message
              (message_round json bolt deltas fails commits hub s db is_text message)
      unfolding message_round
      message_round_cases false message = answered expected_message_reply ends ends-safe refl
      message_round_cases true message = elim (Answer-cases (decode_envelope json message)) [
        | inl (err, r) ↦ answered invalid_payload_reply continues continues-safe (ground arith)
        | inr ((version, kind, payload), r) ↦ elim (Bool-cases (eq_ℤ version supported_version)) [
          | inr v ↦ answered unsupported_version_reply continues continues-safe (ground arith)
          | inl v ↦ elim (Bool-cases (text_eq kind type_update)) [
            | inr u ↦ answered unknown_message_reply continues continues-safe (ground arith)
            | inl u ↦ subst (RoundCase message) (ground arith) (relay_update_cases message payload)
          ]
        ]
      ]

    -- Whatever a client that has a connection sends, the round that handles it follows no nil
    -- pointer.
    pub message_round-safe :
        (fails : ℕ → Bool) (commits : Bool) (hub : Hub) (s : ClientSession) (db : bolt.Bucket)
        (is_text : Bool) (message : Bytes) (conn : ℕ)
        → s.web_socket ≡ some conn
        → (message_round json bolt deltas fails commits hub s db is_text message).0.0 ≢ panics
    unfolding relay_message
    message_round-safe fails commits hub s db is_text message conn at =
        elim (message_round_cases fails commits hub s db is_text message) [
          | answered reply next safe e ↦
              ground (arith, e, send_error_message-safe fails s reply next conn at safe)
          | saved update snapshot d e ↦
              ground (arith, e, save_snapshot-safe fails commits s db update snapshot conn at d)
          | ignored e ↦ ground (arith, e)
          | relayed t e ↦ ground (
            arith,
            e,
            after_broadcast-safe fails s db t (broadcast_to_room (write_fails fails) hub (some s)).1
                conn at,
          )
        ]
