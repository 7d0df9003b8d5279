-- ===== src/Protocol/Messages.antt =====
-- backend/internal/protocol/messages.go: the messages, and the checks on those received. The
-- package encoding/json is a parameter: per type, what Marshal and Unmarshal answer.
use yata_collaborative_edito.Base.{ℕ, Option, none, some, List, ℤ, pos, Text, codes, Map}
use yata_collaborative_edito.Identifier.{ElementId}
use yata_collaborative_edito.Presence.{PresenceUser}
use yata_collaborative_edito.Protocol.Operations.{Delta}

abbrev pub Bytes : Type 0
Bytes = List ℕ

-- var SupportedVersion and the message types
abbrev pub supported_version : ℤ
supported_version = pos 1

abbrev pub type_join : Text
type_join = codes "join"

abbrev pub type_join_ack : Text
type_join_ack = codes "join_ack"

abbrev pub type_error : Text
type_error = codes "error"

abbrev pub type_update : Text
type_update = codes "update"

abbrev pub op_insert : Text
op_insert = codes "insert"

abbrev pub op_delete : Text
op_delete = codes "delete"

abbrev pub op_sync1 : Text
op_sync1 = codes "sync_step1"

abbrev pub op_sync2 : Text
op_sync2 = codes "sync_step2"

abbrev pub op_snapshot : Text
op_snapshot = codes "snapshot"

abbrev pub op_presence : Text
op_presence = codes "presence"

-- type Envelope struct
pub record Envelope : Type 0 where
  pub version : ℤ
  pub message_type : Text
  pub payload : Bytes

-- type JoinPayload struct
pub record JoinPayload : Type 0 where
  pub room_id : Text
  pub client_id : Text
  pub name : Text

-- type JoinAckPayload struct
pub record JoinAckPayload : Type 0 where
  pub room : Text
  pub client_id : Text

-- type ErrorPayload struct
pub record ErrorPayload : Type 0 where
  pub code : Text
  pub message : Text

-- type UpdatePayload struct
pub record UpdatePayload : Type 0 where
  pub operation : Bytes

-- type OperationEnvelope struct
pub record OperationEnvelope : Type 0 where
  pub type_name : Text

-- type InsertOp struct
pub record InsertOp : Type 0 where
  pub type_name : Text
  pub new_id : ElementId
  pub origin_id : ElementId
  pub right_id : ElementId
  pub character : Text

-- type DeleteOp struct
pub record DeleteOp : Type 0 where
  pub type_name : Text
  pub target_id : ElementId

-- type SyncOp1 struct; a nil map is `none`
pub record SyncOp1 : Type 0 where
  pub type_name : Text
  pub vector_state : Option (Map Text ℤ)
  pub delete_set : Option (Map Text (List ℤ))

-- type SyncOp2 struct; a nil pointer is `none`
pub record SyncOp2 : Type 0 where
  pub type_name : Text
  pub delta : Option Delta

-- type SnapshotOp struct
pub record SnapshotOp : Type 0 where
  pub type_name : Text
  pub delta : Option Delta

-- type PresenceOp struct; a nil slice is `none`
pub record PresenceOp : Type 0 where
  pub type_name : Text
  pub users : Option (List PresenceUser)

-- What json.Marshal and json.Unmarshal answer at one type; `none` is an error.
pub record Codec (A : Type 0) : Type 0 where
  pub marshal : A → Option Bytes
  pub unmarshal : Bytes → Option A

-- encoding/json at the types of the messages
pub record Json : Type 0 where
  pub envelopes : Codec Envelope
  pub joins : Codec JoinPayload
  pub join_acks : Codec JoinAckPayload
  pub errors : Codec ErrorPayload
  pub updates : Codec UpdatePayload
  pub operations : Codec OperationEnvelope
  pub inserts : Codec InsertOp
  pub deletes : Codec DeleteOp
  pub syncs1 : Codec SyncOp1
  pub syncs2 : Codec SyncOp2
  pub snapshots : Codec SnapshotOp
  pub presences : Codec PresenceOp

-- The errors, by their texts.
pub data MessageError : Type 0 where
  -- an error of encoding/json
  json_error : MessageError
  missing_field : MessageError
  invalid_payload : MessageError
  unsupported_conversion : MessageError
  unsupported_operation : MessageError
  -- "Client ID is empty."
  client_id_is_empty : MessageError
  -- "Room is empty."
  room_is_empty : MessageError
  -- "Name is empty."
  name_is_empty : MessageError

pub data Answer (A : Type 0) : Type 0 where
  returned : A → Answer A
  raised : MessageError → Answer A

-- `if err != nil { return ..., err }` after a call of encoding/json
abbrev pub or_error : {A : Type 0} → Option A → Answer A
or_error none = raised json_error
or_error (some a) = returned a

-- `if err != nil { return ..., err }`, else the rest
infixl 15 ◌>>=◌
unfoldable pub ◌>>=◌ : {A B : Type 0} → Answer A → (A → Answer B) → Answer B
returned a >>= f = f a
raised e >>= f = raised e

-- `_, err := f(...)`, then the given value
abbrev pub given : {A B : Type 0} → Answer A → B → Answer B
given (returned _) b = returned b
given (raised e) b = raised e
