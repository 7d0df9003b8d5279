-- ===== src/Client/Messages.antt =====
-- backend/internal/client/client.go: RemoteMessageLoop and SendCurrentSnapshot. One round of the
-- loop takes the client and its document, and gives them as they are left, whether the loop goes
-- on, and what was written to the connection; no other goroutine comes in between.
use yata_collaborative_edito.Base.{
  ℕ, Bool, ◌||◌, not, ◌&&◌, Option, none, some, List, [], ◌∷◌, ◌++◌, if◌then◌else◌, eq_ℤ, Text,
  text_eq, Map, Run, ok, ◌>>=◌,
}
use yata_collaborative_edito.Protocol.Operations.{Delta}
use yata_collaborative_edito.Protocol.Messages.{
  Bytes, UpdatePayload, Json, returned, raised, type_update, supported_version, op_insert,
  op_delete, op_sync1, op_sync2,
}
use yata_collaborative_edito.Protocol.Decoding.{decode_envelope, decode_update}
use yata_collaborative_edito.Document.{Document, RangeOrder}
use yata_collaborative_edito.Document.Traversal.{visible_content}
use yata_collaborative_edito.Document.Update.{integrate_delta}
use yata_collaborative_edito.Sync.{Vector, compute_delta, compute_serialized_delta}
use yata_collaborative_edito.Sync.Adapter.{
  convert_update_operation, apply_converted_operation, applied, failed, not_an_operation,
  encode_sync_step2, encode_snapshot,
}
use yata_collaborative_edito.Client.{CollaborativeClient, is_online, is_at, mark_disconnected}
use yata_collaborative_edito.Client.Flush.{flush_offline_queue}

-- A client with its document
pub record Replica : Type 0 where
  pub client : CollaborativeClient
  pub document : Document

-- Whether the writes of a round succeed: those of FlushOfflineQueue, and the other one
pub record Wire : Type 0 where
  pub flushes : ℕ → Bool
  pub sends : Bool

pub data Turn : Type 0 where
  goes_on : Turn
  ends : Turn

-- ComputeDelta and ComputeSerializedDelta of the document
unfoldable pub document_delta : Document → Vector → Delta
document_delta d vector =
    compute_serialized_delta d.insert_log d.delete_log
      (compute_delta d.insert_log d.delete_log vector)

-- `var vector internalSync.Vector`
abbrev pub zero_vector : Vector
zero_vector = record { state_vectors = []; delete_set = [] }

-- SendCurrentSnapshot
unfoldable pub send_current_snapshot : Json → (sends : Bool) → Replica → Replica × List Bytes
send_current_snapshot json sends r =
    if not (is_online r.client.state) then (r, []) else elim r.client.connection [
      | none ↦ (r, [])
      | some conn ↦ elim (encode_snapshot json (document_delta r.document zero_vector)) [
        | raised _ ↦ (r, [])
        | returned snapshot ↦
            if sends
            then (r, snapshot ∷ [])
            else (record r { client = mark_disconnected r.client conn }, [])
      ]
    ]

-- The end of a round that has changed the document
unfoldable pub announce : Json → Bool → (conn : ℕ) → Replica → Replica × Turn × List Bytes
announce json sends conn r =
    let (r', written) = send_current_snapshot json sends r in
    if not (is_online r.client.state && is_at r.client.connection conn)
    then (r, ends, [])
    else (r', goes_on, written)

-- The case of an insertion or a deletion
unfoldable pub receive_operation :
    RangeOrder
    → Json
    → Bool
    → (conn : ℕ) → Replica
    → UpdatePayload
    → Run (Replica × Turn × List Bytes)
receive_operation ranges json sends conn r payload = elim (convert_update_operation json payload) [
  | raised _ ↦ ok (r, goes_on, [])
  | returned op ↦ (do
    (d, how) ← apply_converted_operation ranges r.document op
    elim how [
      | applied ↦ (do
        _ ← visible_content d
        ok (announce json sends conn (record r { document = d })))
      | failed _ ↦ ok (record r { document = d }, goes_on, [])
      | not_an_operation ↦ ok (record r { document = d }, goes_on, [])
    ])
]

-- A nil map has no entries.
abbrev pub or_empty : {V : Type 0} → Option (Map Text V) → Map Text V
or_empty none = []
or_empty (some m) = m

-- The case of sync_step1
unfoldable pub receive_sync1 :
    Json → Bool → (conn : ℕ) → Replica → UpdatePayload → Replica × Turn × List Bytes
receive_sync1 json sends conn r payload = elim (json.syncs1.unmarshal payload.operation) [
  | none ↦ (r, goes_on, [])
  | some op ↦
      elim (encode_sync_step2 json (
        document_delta r.document (record {
          state_vectors = or_empty op.vector_state;
          delete_set = or_empty op.delete_set;
        }))) [
          | raised _ ↦ (r, goes_on, [])
          | returned envelope ↦
              if sends
              then (r, goes_on, envelope ∷ [])
              else (record r { client = mark_disconnected r.client conn }, ends, [])
        ]
]

abbrev also : List Bytes → Replica × Turn × List Bytes → Replica × Turn × List Bytes
also messages (r, turn, written) = (r, turn, messages ++ written)

-- The case of sync_step2
unfoldable pub receive_sync2 :
    RangeOrder
    → Json
    → Wire
    → (conn : ℕ) → Replica
    → UpdatePayload
    → Run (Replica × Turn × List Bytes)
receive_sync2 ranges json wire conn r payload = elim (json.syncs2.unmarshal payload.operation) [
  | none ↦ ok (r, goes_on, [])
  | some op ↦ elim op.delta [
    | none ↦ ok (r, goes_on, [])
    | some delta ↦ (do
      (d, e) ← integrate_delta ranges r.document delta
      elim e [
        | some _ ↦ ok (record r { document = d }, goes_on, [])
        | none ↦ (do
          _ ← visible_content d
          (c, messages) ← flush_offline_queue wire.flushes r.client conn
          ok (also messages (announce json wire.sends conn (record { client = c; document = d }))))
      ])
  ]
]

-- The switch over the type of the operation
unfoldable pub receive_update :
    RangeOrder
    → Json
    → Wire
    → (conn : ℕ) → Replica
    → Text
    → UpdatePayload
    → Run (Replica × Turn × List Bytes)
receive_update ranges json wire conn r type_name payload =
    if text_eq type_name op_insert || text_eq type_name op_delete
    then receive_operation ranges json wire.sends conn r payload
    else if text_eq type_name op_sync1
    then ok (receive_sync1 json wire.sends conn r payload)
    else if text_eq type_name op_sync2
    then receive_sync2 ranges json wire conn r payload
    else ok (r, goes_on, [])

-- A round of RemoteMessageLoop whose read succeeds
unfoldable pub remote_message :
    RangeOrder
    → Json
    → Wire
    → (conn : ℕ) → Replica
    → (is_text : Bool) → Bytes
    → Run (Replica × Turn × List Bytes)
remote_message ranges json wire conn r is_text message =
    if not is_text then ok (r, goes_on, []) else elim (decode_envelope json message) [
      | raised _ ↦ ok (r, goes_on, [])
      | returned envelope ↦
          let (version, type_message, payload) = envelope in
          if not (eq_ℤ version supported_version)
          then ok (r, goes_on, [])
          else if not (text_eq type_message type_update)
          then ok (r, goes_on, [])
          else elim (decode_update json payload) [
            | raised _ ↦ ok (r, goes_on, [])
            | returned update ↦ elim (json.operations.unmarshal update.operation) [
              | none ↦ ok (r, goes_on, [])
              | some operation ↦ receive_update ranges json wire conn r operation.type_name update
            ]
          ]
    ]
