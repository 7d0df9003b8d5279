-- ===== src/Relay/Serving.antt =====
-- backend/internal/relay/handler.go: ws, from the first message of a connection to its end, where
-- no other connection does anything meanwhile.
use yata_collaborative_edito.Base.{
  ℕ, Bool, true, false, some, List, [], ◌∷◌, ◌++◌, Text, if◌then◌else◌,
}
use yata_collaborative_edito.Protocol.Messages.{Bytes, Json, Codec, Answer}
use yata_collaborative_edito.Protocol.Operations.{Delta}
use yata_collaborative_edito.Protocol.Decoding.{encode_error_payload, encode_join_ack}
use yata_collaborative_edito.Sync.Adapter.{encode_presence}
use yata_collaborative_edito.Storage.Buckets.{Bolt}
use yata_collaborative_edito.Relay.{
  ClientSession, Hub, returned, raised, join, leave, get_active_users, broadcast_to_all_in_room,
}
use yata_collaborative_edito.Relay.Handshake.{
  ErrorReply, internal_error_reply, refused, requested, handshake,
}
use yata_collaborative_edito.Relay.Rounds.{
  Next, continues, ends, Written, write_fails, written_to, send, send_error_message, message_round,
}

-- What ReadMessage gives and what the round that follows meets: the connections whose writes fail,
-- and whether bbolt commits
pub record Incoming : Type 0 where
  pub is_text : Bool
  pub message : Bytes
  pub fails : ℕ → Bool
  pub commits : Bool

-- EncodePresence and BroadcastToAllInRoom of the users in the room: whether no error ended it,
-- and what was written
unfoldable pub announce_presence : Json → (ℕ → Bool) → Hub → Text → Bool × List Written
announce_presence json fails hub room = elim (get_active_users hub room) [
  | raised _ ↦ (false, [])
  | returned users ↦ elim (encode_presence json (some users)) [
    | Answer.raised _ ↦ (false, [])
    | Answer.returned message ↦ elim (broadcast_to_all_in_room (write_fails fails) hub room) [
      | raised _ ↦ (false, [])
      | returned sent ↦ (true, written_to message sent)
    ]
  ]
]

-- SendErrorMessage of websocket.go, which passes no error on
unfoldable pub refuse : Json → (ℕ → Bool) → (conn : ℕ) → ErrorReply → List Written
refuse json fails conn (code, text) = elim (encode_error_payload json code text) [
  | Answer.raised _ ↦ []
  | Answer.returned message ↦ if fails conn then [] else (conn, message) ∷ []
]

module _ (json : Json) (bolt : Bolt) (deltas : Codec Delta) where
  -- A connection's effect: how it ended, what was written, the hub and the database
  pub record Served : Type 0 where
    pub next : Next
    pub written : List Written
    pub hub : Hub
    pub database : bolt.Bucket

  -- The loop of ws; a read that fails ends it.
  unfoldable pub message_loop : Hub → ClientSession → bolt.Bucket → List Incoming → Served
  message_loop hub s db [] = record { next = ends; written = []; hub = hub; database = db }
  message_loop hub s db (i ∷ rest) =
      let ((next, sent), db') =
        message_round json bolt deltas i.fails i.commits hub s db i.is_text i.message in
      let later = message_loop hub s db' rest in
      elim next [
        | continues ↦ record later { written = sent ++ later.written }
        | stopped ↦ record { next = stopped; written = sent; hub = hub; database = db' }
      ]

  -- What ws does between Hub.Join and the loop
  unfoldable pub welcome :
      (ℕ → Bool) → Hub → ClientSession → (room client : Text) → Next × List Written
  welcome fails hub s room client = elim (encode_join_ack json room client) [
    | Answer.raised _ ↦ send_error_message json fails s internal_error_reply ends
    | Answer.returned ack ↦
        let (next, sent) = send fails s ack continues in
        elim next [
          | continues ↦
              let (announced, shown) = announce_presence json fails hub room in
              (if announced then continues else ends, sent ++ shown)
          | stopped ↦ (stopped, sent)
        ]
  ]

  -- The deferred function of ws: the session leaves, and the others are told.
  unfoldable pub finish_session : (ℕ → Bool) → ClientSession → Served → Served
  finish_session fails s served =
      let hub' = leave served.hub (some s) in
      record served {
        written = served.written ++ (announce_presence json fails hub' s.room_id).1;
        hub = hub';
      }

  -- ws after Hub.Join has returned the session. `at_end` says which writes fail at the end.
  unfoldable pub serve_session :
      Incoming
      → (at_end : ℕ → Bool) → Hub
      → ClientSession
      → bolt.Bucket
      → (room client : Text) → List Incoming
      → Served
  serve_session first at_end hub s db room client rest =
      let (next, sent) = welcome first.fails hub s room client in
      let loop = message_loop hub s db rest in
      finish_session at_end s (elim next [
        | continues ↦ record loop { written = sent ++ loop.written }
        | stopped ↦ record { next = stopped; written = sent; hub = hub; database = db }
      ])

  -- ws of an upgraded connection
  unfoldable pub ws : Hub → bolt.Bucket → (conn : ℕ) → (at_end : ℕ → Bool) → List Incoming → Served
  ws hub db conn at_end [] = record { next = ends; written = []; hub = hub; database = db }
  ws hub db conn at_end (first ∷ rest) =
      let refusal : ErrorReply → Hub → Served = λ reply hub'. record {
        next = ends;
        written = refuse json first.fails conn reply;
        hub = hub';
        database = db;
      } in
      elim (handshake json first.is_text first.message) [
        | refused reply ↦ refusal reply hub
        | requested room client name ↦
            let (hub', joined) = join hub room client name (some conn) in
            elim joined [
              | raised _ ↦ refusal internal_error_reply hub'
              | returned s ↦ serve_session first at_end hub' s db room client rest
            ]
      ]
