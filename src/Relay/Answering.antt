-- ===== src/Relay/Answering.antt =====
-- A client that is alone in its room: the relay answers its sync_step1 from the storage.
use mathlib.Core.Path.{subst}
use yata_collaborative_edito.Base.{
  ℕ, Bool, true, false, none, some, List, [], ◌∷◌, ◌≡◌, ◌∙◌, refl, sym, inl, arith, Text, text_eq,
  text_eq_iff, text_Eq, trim_space, is_empty, is_some, In, lookup, ==_iff, eq_ℤ,
}
use yata_collaborative_edito.Protocol.Messages.{
  Bytes, Json, Codec, Answer, OperationEnvelope, UpdatePayload, SnapshotOp, op_sync1, op_snapshot,
  op_presence, type_update, supported_version,
}
use yata_collaborative_edito.Protocol.Operations.{Delta}
use yata_collaborative_edito.Protocol.Decoding.{decode_envelope, decode_update, decode_snapshot}
use yata_collaborative_edito.Sync.Adapter.{encode_sync_step2}
use yata_collaborative_edito.Storage.{
  Stored, done, failed, snapshot_not_found, save_snapshot_room, load_internal_snapshot,
}
use yata_collaborative_edito.Storage.Buckets.{Bolt, BoltLaws}
use yata_collaborative_edito.Storage.Snapshots.{save_snapshot_room-load}
use yata_collaborative_edito.Relay.{
  ClientSession, Hub, Room, broadcast_to_room, returned, receivers,
}
use yata_collaborative_edito.Relay.Broadcast.{members, receivers_iff}
use yata_collaborative_edito.Relay.Rounds.{
  continues, write_fails, send, send_sync2, answer_sync1, save_snapshot, after_broadcast,
  relay_message, relay_operation, relay_update, message_round,
}
use yata_collaborative_edito.Relay.Serving.{Incoming, message_loop}

-- The message is an update whose operation has this type.
pub record IsUpdate (json : Json) (message : Bytes) (t : Text) (update : UpdatePayload)
    : Type 0 where
  pub payload : Bytes
  pub operation : OperationEnvelope
  pub in_envelope :
      decode_envelope json message ≡ Answer.returned (supported_version, type_update, payload)
  pub accepted : decode_update json payload ≡ Answer.returned update
  pub named : json.operations.unmarshal update.operation ≡ some operation
  pub typed : trim_space operation.type_name ≡ t

-- The hub has the session, on an open connection, and nobody else is connected in its room.
pub record IsAlone (hub : Hub) (s : ClientSession) (conn : ℕ) : Type 0 where
  pub room : Room
  pub stored : ClientSession
  pub found : lookup s.room_id hub.rooms ≡ some room
  pub there : lookup s.client_id room.clients ≡ some stored
  pub same : stored.address ≡ s.address
  pub open_on : s.web_socket ≡ some conn
  pub alone :
      (v : ClientSession)
      → In v (members room.clients)
      → is_some v.web_socket ≡ true
      → v.address ≡ s.address

no_item : {A : Type 0} (xs : List A) → ((x : A) → In x xs → ⊥) → xs ≡ []
no_item [] none_in = refl
no_item (x ∷ xs) none_in = absurd (none_in x (inl refl))

no_receivers :
    (hub : Hub) (s : ClientSession) (conn : ℕ) (a : IsAlone hub s conn)
    → receivers s a.room.clients ≡ []
no_receivers hub s conn a = no_item _ (λ v i.
    let (inside, open_on, differs) = (receivers_iff s v a.room.clients).0 i in
    differs (a.alone v inside open_on))

-- The delta that an answer has for what the storage gives.
pub data Held : Stored Delta → Delta → Type 0 where
  kept : (delta : Delta) → Held (done delta) delta
  nothing : Held (failed snapshot_not_found) (record { inserts = []; deletes = [] })

module _ (json : Json) (bolt : Bolt) (deltas : Codec Delta) where
  update_recognised :
      (eq_ℤ supported_version supported_version ≡ true) × (text_eq type_update type_update ≡ true)
  unfolding text_eq eq_ℤ
  update_recognised = (refl, refl)

  round-operation :
      (fails : ℕ → Bool) (commits : Bool) (hub : Hub) (s : ClientSession) (db : bolt.Bucket)
      (message : Bytes) (t : Text) (update : UpdatePayload)
      → IsUpdate json message t update
      → is_empty t ≡ false
      → message_round json bolt deltas fails commits hub s db true message
        ≡ relay_operation json bolt deltas fails commits hub s db message update t
  unfolding message_round relay_update
  round-operation fails commits hub s db message t update u filled =
      ground (
        arith, update_recognised.0, update_recognised.1, u.in_envelope, u.accepted, u.named,
        u.typed,
      )

  broadcast-alone :
      (fails : ClientSession → Bool) (hub : Hub) (s : ClientSession) (conn : ℕ)
      → IsAlone hub s conn
      → broadcast_to_room fails hub (some s) ≡ ([], returned false)
  unfolding broadcast_to_room
  broadcast-alone fails hub s conn a = ground (
    arith,
    a.found,
    a.there,
    ==_iff a.stored.address s.address,
    a.same,
    no_receivers hub s conn a,
  )

  -- The one message that is sent to a client on an open connection
  sync2_sent :
      (fails : ℕ → Bool) (s : ClientSession) (conn : ℕ) (delta : Delta) (answer : Bytes)
      (r : Stored Delta)
      → Held r delta
      → s.web_socket ≡ some conn
      → fails conn ≡ false
      → encode_sync_step2 json delta ≡ Answer.returned answer
      → answer_sync1 json fails s r ≡ (continues, (conn, answer) ∷ [])
  unfolding answer_sync1 send_sync2 send
  sync2_sent fails s conn delta answer r (kept d) there writes encoded = ground (arith)
  sync2_sent fails s conn delta answer r nothing there writes encoded = ground (arith)

  sync1_filled : is_empty op_sync1 ≡ false
  sync1_filled = refl

  sync1_others :
      (text_eq op_sync1 op_snapshot ≡ false)
      × (text_eq op_sync1 op_presence ≡ false)
      × (text_eq op_sync1 op_sync1 ≡ true)
  unfolding text_eq
  sync1_others = (refl, refl, refl)

  -- A sync_step1 of a client that is alone in its room, whose connection can be written to, is
  -- answered with a sync_step2 of the delta that the storage holds for the room, and of no
  -- operations when it holds none; the database stays as it is.
  pub sync1_answered :
      (fails : ℕ → Bool) (commits : Bool) (hub : Hub) (s : ClientSession) (db : bolt.Bucket)
      (conn : ℕ) (message answer : Bytes) (update : UpdatePayload) (delta : Delta)
      → IsUpdate json message op_sync1 update
      → IsAlone hub s conn
      → fails conn ≡ false
      → Held (load_internal_snapshot bolt deltas db s.room_id) delta
      → encode_sync_step2 json delta ≡ Answer.returned answer
      → message_round json bolt deltas fails commits hub s db true message
        ≡ ((continues, (conn, answer) ∷ []), db)
  unfolding relay_operation relay_message after_broadcast
  sync1_answered fails commits hub s db conn message answer update delta u a writes held encoded =
      let (n1, n2, n3) = sync1_others in
      round-operation fails commits hub s db message op_sync1 update u sync1_filled
      ∙ ground (
        arith,
        n1,
        n2,
        n3,
        broadcast-alone (write_fails fails) hub s conn a,
        sync2_sent fails s conn delta answer (load_internal_snapshot bolt deltas db s.room_id) held
            a.open_on writes encoded,
      )

  snapshot_filled : (is_empty op_snapshot ≡ false) × (text_eq op_snapshot op_snapshot ≡ true)
  unfolding text_eq
  snapshot_filled = (refl, refl)

  -- A snapshot that is saved without an error changes the database and writes nothing.
  pub snapshot_saved :
      (fails : ℕ → Bool) (commits : Bool) (hub : Hub) (s : ClientSession) (db : bolt.Bucket)
      (message : Bytes) (update : UpdatePayload) (snapshot : SnapshotOp) (delta : Delta)
      → IsUpdate json message op_snapshot update
      → decode_snapshot json update ≡ Answer.returned snapshot
      → snapshot.delta ≡ some delta
      → (save_snapshot_room bolt deltas db commits s.room_id delta).1 ≡ none
      → message_round json bolt deltas fails commits hub s db true message
        ≡ ((continues, []), (save_snapshot_room bolt deltas db commits s.room_id delta).0)
  unfolding relay_operation save_snapshot
  snapshot_saved fails commits hub s db message update snapshot delta u decoded has ok =
      round-operation fails commits hub s db message op_snapshot update u snapshot_filled.0
      ∙ ground (arith, snapshot_filled.1, decoded, has, ok)

  -- A client that is alone in its room sends a snapshot, which is saved without an error, and then
  -- a sync_step1: what the relay writes is one sync_step2 with the delta of the snapshot.
  pub snapshot_answers_sync1 :
      (laws : BoltLaws bolt) (hub : Hub) (s : ClientSession) (db : bolt.Bucket) (conn : ℕ)
      (first second : Incoming) (update1 update2 : UpdatePayload) (snapshot : SnapshotOp)
      (delta : Delta) (answer : Bytes)
      → ((b : Bytes) → deltas.marshal delta ≡ some b → deltas.unmarshal b ≡ some delta)
      → first.is_text ≡ true
      → second.is_text ≡ true
      → IsUpdate json first.message op_snapshot update1
      → IsUpdate json second.message op_sync1 update2
      → decode_snapshot json update1 ≡ Answer.returned snapshot
      → snapshot.delta ≡ some delta
      → (save_snapshot_room bolt deltas db first.commits s.room_id delta).1 ≡ none
      → IsAlone hub s conn
      → second.fails conn ≡ false
      → encode_sync_step2 json delta ≡ Answer.returned answer
      → (message_loop json bolt deltas hub s db (first ∷ second ∷ [])).written ≡ (conn, answer) ∷ []
  unfolding message_loop
  snapshot_answers_sync1 laws hub s db conn first second update1 update2 snapshot delta answer
        decodes text1 text2 u1 u2 decoded has ok alone writes encoded =
      let db' = (save_snapshot_room bolt deltas db first.commits s.room_id delta).0 in
      let loads : load_internal_snapshot bolt deltas db' s.room_id ≡ done delta =
        save_snapshot_room-load bolt laws deltas db first.commits s.room_id s.room_id delta decodes
          ok
        ∙ ground (arith, text_eq_iff (trim_space s.room_id) (trim_space s.room_id)) in
      ground (
        arith,
        text1,
        text2,
        snapshot_saved first.fails first.commits hub s db first.message update1 snapshot delta u1
            decoded has ok,
        sync1_answered second.fails second.commits hub s db' conn second.message answer update2
            delta u2 alone writes (subst (λ r. Held r delta) (sym loads) (kept delta)) encoded,
      )
