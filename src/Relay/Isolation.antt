-- ===== src/Relay/Isolation.antt =====
-- A round of ws stays in the room of its session: whom it writes to, and whose snapshot it saves.
use mathlib.Core.Path.{subst}
use yata_collaborative_edito.Base.{
  ℕ, Bool, false, not, ◌&&◌, some, List, [], ◌∷◌, ◌++◌, ◌≡◌, ◌≢◌, ◌∙◌, ◌⊎◌, refl, sym, ap, inl, inr,
  arith, Text, Bool-cases, Option-cases, text_eq, text_Eq, trim_space, In, lookup,
}
use yata_collaborative_edito.Protocol.Messages.{Bytes, Json, Codec, SnapshotOp, op_sync1}
use yata_collaborative_edito.Protocol.Operations.{Delta}
use yata_collaborative_edito.Protocol.Decoding.{encode_error_payload}
use yata_collaborative_edito.Sync.Adapter.{encode_sync_step2}
use yata_collaborative_edito.Storage.{
  Stored, done, failed, StorageError, save_snapshot_room, load_internal_snapshot,
}
use yata_collaborative_edito.Storage.Buckets.{Bolt, BoltLaws}
use yata_collaborative_edito.Storage.Snapshots.{save_snapshot_room-load, save_snapshot_room-failed}
use yata_collaborative_edito.Relay.{
  ClientSession, Hub, HubError, Room, broadcast_to_room, Result, returned, raised, receivers,
  send_all,
}
use yata_collaborative_edito.Relay.Broadcast.{members, receivers_iff}
use yata_collaborative_edito.Relay.Handshake.{ErrorReply, internal_error_reply, not_joined_reply}
use yata_collaborative_edito.Relay.Rounds.{
  Next, continues, Written, write_fails, written_to, send, send_error_message, send_sync2,
  answer_sync1, save_snapshot, after_broadcast, relay_message, message_round,
}
use yata_collaborative_edito.Relay.Cases.{
  Answer-cases, message_round_cases, answered, saved, ignored, relayed,
}

-- What is written goes to the session's own connection.
abbrev Own : ClientSession → List Written → Type 0
Own s sent = (w : Written) → In w sent → s.web_socket ≡ some w.0

send-Own :
    (fails : ℕ → Bool) (s : ClientSession) (message : Bytes) (next : Next)
    → Own s (send fails s message next).1
unfolding send
send-Own fails s message next w i = ground (arith, i)

written_to-In :
    (message : Bytes) (vs : List ClientSession) (w : Written)
    → In w (written_to message vs)
    → (v : ClientSession) × (w.1 ≡ message) × In v vs × (v.web_socket ≡ some w.0)
written_to-In message [] w i = absurd i
written_to-In message (v ∷ vs) w i = elim (Option-cases v.web_socket) [
  | inl e ↦
      let (u, same, inside, there) = written_to-In message vs w (ground (arith, e, i)) in
      (u, same, inr inside, there)
  | inr (conn, e) ↦
      let first : ((conn, message) ≡ w) ⊎ In w (written_to message vs) = ground (arith, e, i) in
      elim first [
        | inl new ↦ (v, ap (λ x. x.1) (sym new), inl refl, e ∙ ap (λ x. some x.0) new)
        | inr old ↦
            let (u, same, inside, there) = written_to-In message vs w old in
            (u, same, inr inside, there)
      ]
]

send_all-In :
    (fails : ClientSession → Bool) (vs : List ClientSession) (v : ClientSession)
    → In v (send_all fails vs).0
    → In v vs
unfolding send_all
send_all-In fails [] v i = absurd i
send_all-In fails (u ∷ vs) v i = ground (arith, i, send_all-In fails vs v)

-- Another session of the room
pub record Neighbour (hub : Hub) (s v : ClientSession) : Type 0 where
  pub room : Room
  pub found : lookup s.room_id hub.rooms ≡ some room
  pub inside : In v (members room.clients)
  pub differs : v.address ≢ s.address

broadcast-Neighbour :
    (fails : ClientSession → Bool) (hub : Hub) (s v : ClientSession)
    → In v (broadcast_to_room fails hub (some s)).0
    → Neighbour hub s v
unfolding broadcast_to_room
broadcast-Neighbour fails hub s v i = elim (Option-cases (lookup s.room_id hub.rooms)) [
  | inl e ↦ absurd (ground (arith, e, i))
  | inr (room, e) ↦
      let received : In v (receivers s room.clients) =
        ground (arith, e, i, send_all-In fails (receivers s room.clients) v) in
      let (inside, _, differs) = (receivers_iff s v room.clients).0 received in
      record { room = room; found = e; inside = inside; differs = differs }
]

-- A written message is one to the session's own connection, or the one that it has sent, to another
-- session of its room.
pub Stays : Hub → ClientSession → Bytes → Written → Type 0
Stays hub s message w =
    (s.web_socket ≡ some w.0)
    ⊎ ((w.1 ≡ message) × (v : ClientSession) × Neighbour hub s v × (v.web_socket ≡ some w.0))

In-append : {A : Type 0} (x : A) (xs ys : List A) → In x (xs ++ ys) → In x xs ⊎ In x ys
In-append x [] ys i = inr i
In-append x (z ∷ xs) ys i = ground (arith, i, In-append x xs ys)

module _ (json : Json) where
  send_error_message-Own :
      (fails : ℕ → Bool) (s : ClientSession) (reply : ErrorReply) (next : Next)
      → Own s (send_error_message json fails s reply next).1
  unfolding send_error_message
  send_error_message-Own fails s (code, text) next w i =
      elim (Answer-cases (encode_error_payload json code text)) [
        | inl (e, r) ↦ absurd (ground (arith, r, i))
        | inr (message, r) ↦ send-Own fails s message next w (ground (arith, r, i))
      ]

  send_sync2-Own :
      (fails : ℕ → Bool) (s : ClientSession) (delta : Delta)
      → Own s (send_sync2 json fails s delta).1
  unfolding send_sync2
  send_sync2-Own fails s delta w i = elim (Answer-cases (encode_sync_step2 json delta)) [
    | inl (e, r) ↦
        send_error_message-Own fails s internal_error_reply continues w (ground (arith, r, i))
    | inr (message, r) ↦ send-Own fails s message continues w (ground (arith, r, i))
  ]

  answer_sync1-Own :
      (fails : ℕ → Bool) (s : ClientSession) (r : Stored Delta)
      → Own s (answer_sync1 json fails s r).1
  unfolding answer_sync1
  answer_sync1-Own fails s (done delta) w i = send_sync2-Own fails s delta w i
  answer_sync1-Own fails s (failed StorageError.snapshot_not_found) w i =
      send_sync2-Own fails s _ w i
  answer_sync1-Own fails s (failed e) w i =
      send_error_message-Own fails s internal_error_reply continues w i

  module _ (bolt : Bolt) (deltas : Codec Delta) where
    after_broadcast-Own :
        (fails : ℕ → Bool) (s : ClientSession) (db : bolt.Bucket) (t : Text) (r : Result Bool)
        → Own s (after_broadcast json bolt deltas fails s db t r).1
    unfolding after_broadcast
    after_broadcast-Own fails s db t (raised HubError.not_joined) w i =
        send_error_message-Own fails s not_joined_reply continues w i
    after_broadcast-Own fails s db t (raised e) w i =
        send_error_message-Own fails s internal_error_reply continues w i
    after_broadcast-Own fails s db t (returned there) w i =
        elim (Bool-cases (not there && text_eq t op_sync1)) [
          | inl e ↦
              answer_sync1-Own fails s (load_internal_snapshot bolt deltas db s.room_id) w
                (ground (arith, e, i))
          | inr e ↦ absurd (ground (arith, e, i))
        ]

    save_snapshot-Own :
        (fails : ℕ → Bool) (commits : Bool) (s : ClientSession) (db : bolt.Bucket)
        (snapshot : SnapshotOp)
        → Own s (save_snapshot json bolt deltas fails commits s db snapshot).0.1
    unfolding save_snapshot
    save_snapshot-Own fails commits s db snapshot w i = elim (Option-cases snapshot.delta) [
      | inl n ↦ absurd (ground (arith, n, i))
      | inr (delta, f) ↦
          elim (Option-cases (save_snapshot_room bolt deltas db commits s.room_id delta).1) [
            | inl ok ↦ absurd (ground (arith, f, ok, i))
            | inr (e, fault) ↦
                send_error_message-Own fails s internal_error_reply continues w
                  (ground (arith, f, fault, i))
          ]
    ]

    -- Whatever a client sends, the relay writes in that round only to the client itself, and to
    -- other sessions of its room the message as it is.
    pub message_round-Stays :
        (fails : ℕ → Bool) (commits : Bool) (hub : Hub) (s : ClientSession) (db : bolt.Bucket)
        (is_text : Bool) (message : Bytes) (w : Written)
        → In w (message_round json bolt deltas fails commits hub s db is_text message).0.1
        → Stays hub s message w
    unfolding relay_message Stays
    message_round-Stays fails commits hub s db is_text message w i =
        elim (message_round_cases json bolt deltas fails commits hub s db is_text message) [
          | answered reply next safe e ↦
              inl (send_error_message-Own fails s reply next w (subst (In w) (ap (λ o. o.0.1) e) i))
          | saved update snapshot d e ↦
              inl (
                save_snapshot-Own fails commits s db snapshot w
                  (subst (In w) (ap (λ o. o.0.1) e) i))
          | ignored e ↦ absurd (ground (arith, e, i))
          | relayed t e ↦
              let sent = broadcast_to_room (write_fails fails) hub (some s) in
              elim (In-append w (written_to message sent.0) _
                (subst (In w) (ap (λ o. o.0.1) e) i)) [
                  | inl passed ↦
                      let (v, same, inside, there) = written_to-In message sent.0 w passed in
                      inr (same, v, broadcast-Neighbour (write_fails fails) hub s v inside, there)
                  | inr own ↦ inl (after_broadcast-Own fails s db t sent.1 w own)
                ]
        ]

    save_snapshot-others :
        (laws : BoltLaws bolt)
        → ((d : Delta) (b : Bytes) → deltas.marshal d ≡ some b → deltas.unmarshal b ≡ some d)
        → (fails : ℕ → Bool) (commits : Bool) (s : ClientSession) (db : bolt.Bucket)
          (snapshot : SnapshotOp) (other : Text)
        → text_eq (trim_space s.room_id) (trim_space other) ≡ false
        → load_internal_snapshot bolt deltas
            (save_snapshot json bolt deltas fails commits s db snapshot).1
            other
          ≡ load_internal_snapshot bolt deltas db other
    unfolding save_snapshot
    save_snapshot-others laws decodes fails commits s db snapshot other differs =
        elim (Option-cases snapshot.delta) [
          | inl n ↦ ground (arith, n)
          | inr (delta, f) ↦
              elim (Option-cases (save_snapshot_room bolt deltas db commits s.room_id delta).1) [
                | inl ok ↦ ground (
                  arith,
                  f,
                  ok,
                  differs,
                  save_snapshot_room-load bolt laws deltas db commits s.room_id other delta
                      (decodes delta) ok,
                )
                | inr (e, fault) ↦ ground (
                  arith,
                  f,
                  fault,
                  save_snapshot_room-failed bolt laws deltas db commits s.room_id delta e fault,
                )
              ]
        ]

    -- A round saves at most the snapshot of its session's room: for every other room
    -- LoadInternalSnapshot gives what it gave before.
    pub message_round-others :
        (laws : BoltLaws bolt)
        → ((d : Delta) (b : Bytes) → deltas.marshal d ≡ some b → deltas.unmarshal b ≡ some d)
        → (fails : ℕ → Bool) (commits : Bool) (hub : Hub) (s : ClientSession) (db : bolt.Bucket)
          (is_text : Bool) (message : Bytes) (other : Text)
        → text_eq (trim_space s.room_id) (trim_space other) ≡ false
        → load_internal_snapshot bolt deltas
            (message_round json bolt deltas fails commits hub s db is_text message).1
            other
          ≡ load_internal_snapshot bolt deltas db other
    unfolding relay_message
    message_round-others laws decodes fails commits hub s db is_text message other differs =
        elim (message_round_cases json bolt deltas fails commits hub s db is_text message) [
          | answered reply next safe e ↦ ap (λ o. load_internal_snapshot bolt deltas o.1 other) e
          | saved update snapshot d e ↦
              ap (λ o. load_internal_snapshot bolt deltas o.1 other) e
              ∙ save_snapshot-others laws decodes fails commits s db snapshot other differs
          | ignored e ↦ ap (λ o. load_internal_snapshot bolt deltas o.1 other) e
          | relayed t e ↦ ap (λ o. load_internal_snapshot bolt deltas o.1 other) e
        ]
