-- ===== src/Client/Join.antt =====
-- The handshake between DialAndJoin of client.go and ws of backend/internal/relay/handler.go.
use yata_collaborative_edito.Base.{
  ◌≡◌, Option-cases, inl, inr, trim_left, trim_space_idempotent, refl, true, false, none, some,
  Text, arith, is_empty, trim_space, text_eq, text_eq_iff, eq_ℤ, eq_ℤ_iff,
}
use yata_collaborative_edito.Protocol.Messages.{
  Bytes, Json, JoinPayload, returned, or_error, ◌>>=◌, supported_version, type_join, type_join_ack,
  Envelope, JoinAckPayload,
}
use yata_collaborative_edito.Protocol.Decoding.{
  decode_envelope, decode_join, check_join, encode_envelope, encode_join_ack, check_join_ack,
  decode_join_ack,
}
use yata_collaborative_edito.Sync.Laws.{Laws}
use yata_collaborative_edito.Relay.Handshake.{refused, handshake, invalid_payload_reply}
use yata_collaborative_edito.Client.{
  CollaborativeClient, new_collaborative_client, join_payload, join_message, validate_join_ack,
}

type_join_self : text_eq type_join type_join ≡ true
type_join_self = (text_eq_iff type_join type_join).1 refl

version_self : eq_ℤ supported_version supported_version ≡ true
version_self = (eq_ℤ_iff supported_version supported_version).1 refl

module _ (json : Json) (laws : Laws json) where
  -- What is read in the envelope that was made of a payload.
  envelope_reads :
      (t : Text) (payload message : Bytes)
      → laws.compact payload
      → encode_envelope json t payload ≡ returned message
      → decode_envelope json message ≡ returned (supported_version, t, payload)
  unfolding encode_envelope decode_envelope ◌>>=◌
  envelope_reads t payload message c h =
      let envelope : Envelope = record {
        version = supported_version;
        message_type = t;
        payload = payload;
      } in
      elim (Option-cases (json.envelopes.marshal envelope)) [
        | inl f ↦ absurd (ground (arith, f, h))
        | inr (m, f) ↦ ground (arith, f, h, laws.envelopes envelope m c f)
      ]

  -- What the relay reads in the message of a join.
  join_reads :
      (p : JoinPayload) (message : Bytes)
      → (or_error (json.joins.marshal p) >>= encode_envelope json type_join) ≡ returned message
      → (payload : Bytes) × (decode_envelope json message
          ≡ returned (supported_version, type_join, payload))
        × (decode_join json payload ≡ check_join p)
  unfolding ◌>>=◌ decode_join
  join_reads p message h = elim (Option-cases (json.joins.marshal p)) [
    | inl f ↦ absurd (ground (arith, f, h))
    | inr (payload, f) ↦
        let (c, read) = laws.joins p payload f in
        (
          payload,
          envelope_reads type_join payload message c (ground (arith, f, h)),
          ground (arith, read),
        )
  ]

  -- The relay refuses, as an invalid payload, the first message that DialAndJoin makes for any
  -- client, since it gives no name and DecodeJoin demands one.
  pub join_message-refused :
      (c : CollaborativeClient) (message : Bytes)
      → join_message json c ≡ returned message
      → handshake json true message ≡ refused invalid_payload_reply
  unfolding join_message join_payload handshake check_join trim_space trim_left
  join_message-refused c message h =
      let (payload, envelope, join) = join_reads (join_payload c) message h in
      ground (arith, envelope, join, type_join_self, version_self)

-- The names of a new client are trimmed, and not blank.
new_client_named :
    (server_url room_id client_id : Text) (c : CollaborativeClient)
    → new_collaborative_client server_url room_id client_id ≡ some c
    → (trim_space c.room_id ≡ c.room_id)
      × (trim_space c.client_id ≡ c.client_id)
      × (is_empty c.room_id ≡ false)
      × (is_empty c.client_id ≡ false)
unfolding new_collaborative_client
new_client_named server_url room_id client_id c h = (
  ground (arith, h, trim_space_idempotent room_id),
  ground (arith, h, trim_space_idempotent client_id),
  ground (arith, h),
  ground (arith, h),
)

type_join_ack_self : text_eq type_join_ack type_join_ack ≡ true
type_join_ack_self = (text_eq_iff type_join_ack type_join_ack).1 refl

-- The answer that EncodeJoinAck makes for the room and the name of a client passes that client's
-- ValidateJoinAck.
pub encode_join_ack-validate_join_ack :
    (json : Json) (laws : Laws json) (server_url room_id client_id : Text) (c : CollaborativeClient)
    (message : Bytes)
    → new_collaborative_client server_url room_id client_id ≡ some c
    → encode_join_ack json c.room_id c.client_id ≡ returned message
    → validate_join_ack json c true message ≡ none
unfolding encode_join_ack validate_join_ack decode_join_ack check_join_ack ◌>>=◌
encode_join_ack-validate_join_ack json laws server_url room_id client_id c message new h =
    let ack : JoinAckPayload = record { room = c.room_id; client_id = c.client_id } in
    let (room_trim, client_trim, room_named, client_named) =
      new_client_named server_url room_id client_id c new in
    elim (Option-cases (json.join_acks.marshal ack)) [
      | inl f ↦ absurd (ground (arith, f, h))
      | inr (payload, f) ↦
          let (compact, read) = laws.join_acks ack payload f in
          let envelope =
            envelope_reads json laws type_join_ack payload message compact (ground (arith, f, h)) in
          ground (
            arith,
            envelope,
            read,
            type_join_ack_self,
            version_self,
            room_trim,
            client_trim,
            (text_eq_iff c.room_id c.room_id).1 refl,
            (text_eq_iff c.client_id c.client_id).1 refl,
          )
    ]
