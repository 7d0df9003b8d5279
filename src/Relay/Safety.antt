-- ===== src/Relay/Safety.antt =====
-- No connection makes ws follow a nil pointer.
use yata_collaborative_edito.Base.{
  ℕ, Bool, some, Option, List, [], ◌∷◌, ◌≡◌, ◌≢◌, ◌⊎◌, refl, inl, inr, arith, Text, text_Eq,
}
use yata_collaborative_edito.Protocol.Messages.{Json, Codec}
use yata_collaborative_edito.Protocol.Operations.{Delta}
use yata_collaborative_edito.Protocol.Decoding.{encode_join_ack}
use yata_collaborative_edito.Storage.Buckets.{Bolt}
use yata_collaborative_edito.Relay.{
  ClientSession, new_client_session, Hub, HubError, Result, returned, raised, join,
}
use yata_collaborative_edito.Relay.Handshake.{internal_error_reply, handshake}
use yata_collaborative_edito.Relay.Rounds.{ends, panics, send, message_round}
use yata_collaborative_edito.Relay.Serving.{
  Incoming, message_loop, welcome, finish_session, serve_session, ws,
}
use yata_collaborative_edito.Relay.Cases.{
  Answer-cases, ends-safe, send_error_message-safe, message_round-safe,
}
use yata_collaborative_edito.Relay.Lifetime.{Handshake-cases}

Result-cases :
    {A : Type 0} (r : Result A) → ((e : HubError) × (r ≡ raised e)) ⊎ ((a : A) × (r ≡ returned a))
Result-cases (raised e) = inl (e, refl)
Result-cases (returned a) = inr (a, refl)

-- The session that Join returns has the connection that it was given.
join_connection :
    (hub : Hub) (room client name : Text) (conn : Option ℕ) (s : ClientSession)
    → (join hub room client name conn).1 ≡ returned s
    → s.web_socket ≡ conn
unfolding join new_client_session
join_connection hub room client name conn s joined = ground (arith, joined)

module _ (json : Json) (bolt : Bolt) (deltas : Codec Delta) where
  message_loop-safe :
      (hub : Hub) (s : ClientSession) (db : bolt.Bucket) (rest : List Incoming) (conn : ℕ)
      → s.web_socket ≡ some conn
      → (message_loop json bolt deltas hub s db rest).next ≢ panics
  unfolding message_loop
  message_loop-safe hub s db [] conn at = ends-safe
  message_loop-safe hub s db (i ∷ rest) conn at = ground (
    arith,
    message_round-safe json bolt deltas i.fails i.commits hub s db i.is_text i.message conn at,
    message_loop-safe hub s
        (message_round json bolt deltas i.fails i.commits hub s db i.is_text i.message).1 rest conn
        at,
  )

  welcome-safe :
      (fails : ℕ → Bool) (hub : Hub) (s : ClientSession) (room client : Text) (conn : ℕ)
      → s.web_socket ≡ some conn
      → (welcome json bolt deltas fails hub s room client).0 ≢ panics
  unfolding welcome send
  welcome-safe fails hub s room client conn at =
      elim (Answer-cases (encode_join_ack json room client)) [
        | inl (e, r) ↦ ground (
          arith,
          r,
          send_error_message-safe json fails s internal_error_reply ends conn at ends-safe,
        )
        | inr (ack, r) ↦ ground (arith, r, at)
      ]

  serve_session-safe :
      (first : Incoming) (at_end : ℕ → Bool) (hub : Hub) (s : ClientSession) (db : bolt.Bucket)
      (room client : Text) (rest : List Incoming) (conn : ℕ)
      → s.web_socket ≡ some conn
      → (serve_session json bolt deltas first at_end hub s db room client rest).next ≢ panics
  unfolding serve_session finish_session
  serve_session-safe first at_end hub s db room client rest conn at = ground (
    arith,
    welcome-safe first.fails hub s room client conn at,
    message_loop-safe hub s db rest conn at,
  )

  -- Whatever a connection sends, whichever writes fail, and whatever the hub and the database hold,
  -- ws follows no nil pointer from the first message to the end of its loop: neither that of a
  -- missing delta in a snapshot nor that of a session without a connection.
  pub ws-safe :
      (hub : Hub) (db : bolt.Bucket) (conn : ℕ) (at_end : ℕ → Bool) (incoming : List Incoming)
      → (ws json bolt deltas hub db conn at_end incoming).next ≢ panics
  unfolding ws
  ws-safe hub db conn at_end [] = ends-safe
  ws-safe hub db conn at_end (first ∷ rest) =
      elim (Handshake-cases (handshake json first.is_text first.message)) [
        | inl (reply, r) ↦ ground (arith, r)
        | inr (room, client, name, r) ↦
            elim (Result-cases (join hub room client name (some conn)).1) [
              | inl (e, joined) ↦ ground (arith, r, joined)
              | inr (s, joined) ↦ ground (
                arith,
                r,
                joined,
                serve_session-safe first at_end (join hub room client name (some conn)).0 s db room
                    client rest conn (join_connection hub room client name (some conn) s joined),
              )
            ]
      ]
