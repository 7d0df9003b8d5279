-- ===== src/Relay/Handshake.antt =====
-- backend/internal/relay/handler.go: what ws does with the first message of a connection, up to
-- the call of Hub.Join.
use yata_collaborative_edito.Base.{Bool, not, if◌then◌else◌, Text, text_eq, codes, eq_ℤ}
use yata_collaborative_edito.Protocol.Messages.{
  Bytes, Json, returned, raised, type_join, supported_version,
}
use yata_collaborative_edito.Protocol.Decoding.{decode_envelope, decode_join}

-- The code and the text of an error message
abbrev pub ErrorReply : Type 0
ErrorReply = Text × Text

abbrev pub expected_message_reply : ErrorReply
expected_message_reply =
    (codes "expected_text_message", codes "Only text message type is accepted.")

abbrev pub invalid_payload_reply : ErrorReply
invalid_payload_reply = (codes "invalid_payload", codes "The payload is not valid.")

abbrev pub unsupported_version_reply : ErrorReply
unsupported_version_reply =
    (codes "unsupported_version", codes "The protocol version is not supported.")

abbrev pub expected_join_reply : ErrorReply
expected_join_reply = (codes "expected_join", codes "The first message must be join.")

abbrev pub internal_error_reply : ErrorReply
internal_error_reply = (codes "internal_error", codes "Server internal error.")

abbrev pub not_joined_reply : ErrorReply
not_joined_reply = (codes "not_joined", codes "The current client is not joined to any room.")

abbrev pub unknown_message_reply : ErrorReply
unknown_message_reply = (codes "unknown_message_type", codes "Unkown message type.")

pub data Handshake : Type 0 where
  -- SendErrorMessage, and the end of the connection
  refused : ErrorReply → Handshake
  -- Hub.Join of this room, client and name
  requested : (room client name : Text) → Handshake

-- ws, from its first message to Hub.Join
unfoldable pub handshake : Json → (is_text : Bool) → Bytes → Handshake
handshake json is_text message =
    if not is_text then refused expected_message_reply else elim (decode_envelope json message) [
      | raised _ ↦ refused invalid_payload_reply
      | returned envelope ↦
          let (version, request_type, payload_join) = envelope in
          if not (eq_ℤ version supported_version)
          then refused unsupported_version_reply
          else if not (text_eq request_type type_join)
          then refused expected_join_reply
          else elim (decode_join json payload_join) [
            | raised _ ↦ refused invalid_payload_reply
            | returned names ↦ let (room, client, name) = names in requested room client name
          ]
    ]
