-- ===== src/Examples/Serving.antt =====
-- The theorems on ws at a room with one client, who saves a snapshot and asks for it.
use mathlib.Core.Path.{subst}
use yata_collaborative_edito.Base.{
  ℕ, Bool, true, false, Option, none, some, List, [], ◌∷◌, ◌≡◌, ◌≢◌, refl, sym, inl, Text, codes,
  text_eq, is_space, trim_left, trim_space, lookup, In, arith,
}
use yata_collaborative_edito.Protocol.Operations.{Delta}
use yata_collaborative_edito.Protocol.Messages.{
  Bytes, Json, Answer, op_sync1, op_sync2, op_snapshot, type_update, type_join, supported_version,
  ◌>>=◌,
}
use yata_collaborative_edito.Protocol.Decoding.{
  decode_envelope, decode_update, check_update, check_operation, decode_sync1, decode_snapshot,
  check_sync1, check_snapshot, op_type, encode_envelope,
}
use yata_collaborative_edito.Sync.Adapter.{encode_sync_step2, encode_update}
use yata_collaborative_edito.Storage.{
  update, end_transaction, create_room, create_in, write_snapshot, save_snapshot_room,
  load_snapshot_room, load_internal_snapshot,
}
use yata_collaborative_edito.Relay.{ClientSession, Room, Hub, new_hub}
use yata_collaborative_edito.Relay.Broadcast.{members}
use yata_collaborative_edito.Relay.Joined.{new_hub-IsValid}
use yata_collaborative_edito.Relay.Sessions.{session_at}
use yata_collaborative_edito.Relay.Rounds.{continues, panics, message_round}
use yata_collaborative_edito.Relay.Serving.{Incoming, message_loop, ws}
use yata_collaborative_edito.Relay.Safety.{ws-safe}
use yata_collaborative_edito.Relay.Isolation.{Stays, message_round-Stays, message_round-others}
use yata_collaborative_edito.Relay.Answering.{
  IsUpdate, IsAlone, Held, nothing, sync1_answered, snapshot_answers_sync1,
}
use yata_collaborative_edito.Relay.Lifetime.{ws_restores}
use yata_collaborative_edito.Examples.Codec.{
  plain, put_text, take_text, put_int, take_int, take, put_id, take_id,
}
use yata_collaborative_edito.Examples.Buckets.{find, graft, forest, forest-laws}
use yata_collaborative_edito.Examples.Deltas.{
  delta_codec, delta_codec-inverse, read_delta, write_delta,
}
use yata_collaborative_edito.Examples.Storage.{opened, deletion}

unfoldable behind : {A : Type 0} → Option (Text × Bytes) → (Text → Bytes → Option A) → Option A
behind none f = none
behind (some (t, b)) f = f t b

abbrev with_delta : Option Delta → Bytes
with_delta none = []
with_delta (some delta) = write_delta delta

-- encoding/json at the types that ws uses
abbrev lively : Json
lively = record plain {
  errors = record {
    marshal = λ a. some (put_text a.code (put_text a.message []));
    unmarshal = λ b. none;
  };
  syncs1 = record {
    marshal = λ a. none;
    unmarshal = λ b.
        behind (take_text b)
          (λ t _. some (record { type_name = t; vector_state = some []; delete_set = some [] }));
  };
  syncs2 = record {
    marshal = λ a. some (put_text a.type_name (with_delta a.delta));
    unmarshal = λ b.
        behind (take_text b) (λ t rest. some (record { type_name = t; delta = read_delta rest }));
  };
  snapshots = record {
    marshal = λ a. some (put_text a.type_name (with_delta a.delta));
    unmarshal = λ b.
        behind (take_text b) (λ t rest. some (record { type_name = t; delta = read_delta rest }));
  };
  presences = record { marshal = λ a. some (put_text a.type_name []); unmarshal = λ b. none };
}

abbrev room_name : Text
room_name = codes "r"

abbrev ana : ClientSession
ana = record {
  address = 0;
  client_id = codes "ana";
  room_id = room_name;
  name = codes "ana";
  web_socket = some 10;
}

abbrev own_room : Room
own_room = record { id = room_name; clients = (codes "ana", ana) ∷ [] }

abbrev quiet : Hub
quiet = record { rooms = (room_name, own_room) ∷ []; allocated = 1 }

ana-IsAlone : IsAlone quiet ana 10
unfolding lookup text_eq members
ana-IsAlone = record {
  room = own_room;
  stored = ana;
  found = refl;
  there = refl;
  same = refl;
  open_on = refl;
  alone = λ v i c. ground (arith, i);
}

unfoldable pub update_bytes : Bytes → Bytes
update_bytes operation = put_int supported_version (put_text type_update operation)

abbrev asks : Bytes
asks = update_bytes (put_text op_sync1 [])

abbrev saves_it : Bytes
saves_it = update_bytes (put_text op_snapshot (write_delta deletion))

asks-IsUpdate : IsUpdate lively asks op_sync1 (record { operation = put_text op_sync1 [] })
unfolding update_bytes put_int put_text take_int take_text take behind decode_envelope decode_update
    check_update check_operation decode_sync1 check_sync1 op_type trim_space trim_left is_space
    text_eq ◌>>=◌
asks-IsUpdate = record {
  payload = put_text op_sync1 [];
  operation = record { type_name = op_sync1 };
  in_envelope = refl;
  accepted = refl;
  named = refl;
  typed = refl;
}

saves_it-IsUpdate :
    IsUpdate lively saves_it op_snapshot
      (record { operation = put_text op_snapshot (write_delta deletion) })
unfolding update_bytes put_int put_text take_int take_text take behind decode_envelope decode_update
    check_update check_operation decode_snapshot check_snapshot op_type trim_space trim_left
    is_space text_eq read_delta write_delta ◌>>=◌ take_id put_id
saves_it-IsUpdate = record {
  payload = put_text op_snapshot (write_delta deletion);
  operation = record { type_name = op_snapshot };
  in_envelope = refl;
  accepted = refl;
  named = refl;
  typed = refl;
}

-- No write fails.
abbrev sound : ℕ → Bool
sound conn = false

abbrev nothing_held : Delta
nothing_held = record { inserts = []; deletes = [] }

empty_holds : Held (load_internal_snapshot forest delta_codec opened room_name) nothing_held
unfolding load_internal_snapshot load_snapshot_room find lookup text_eq trim_space trim_left
    is_space
empty_holds = nothing

abbrev sync2_bytes : Delta → Bytes
sync2_bytes delta = update_bytes (put_text op_sync2 (write_delta delta))

sync2_encoded :
    (delta : Delta) → encode_sync_step2 lively delta ≡ Answer.returned (sync2_bytes delta)
unfolding encode_sync_step2 encode_update encode_envelope update_bytes ◌>>=◌
sync2_encoded delta = refl

sync1_answered_example :
    message_round lively forest delta_codec sound true quiet ana opened true asks
    ≡ ((continues, (10, sync2_bytes nothing_held) ∷ []), opened)
sync1_answered_example =
    sync1_answered lively forest delta_codec sound true quiet ana opened 10 asks
      (sync2_bytes nothing_held) (record { operation = put_text op_sync1 [] }) nothing_held
      asks-IsUpdate ana-IsAlone refl empty_holds (sync2_encoded nothing_held)

abbrev incoming : Bytes → Incoming
incoming message = record { is_text = true; message = message; fails = sound; commits = true }

saves_deletion : (save_snapshot_room forest delta_codec opened true room_name deletion).1 ≡ none
unfolding save_snapshot_room update end_transaction write_snapshot create_room create_in find graft
    trim_space trim_left is_space write_delta text_eq
saves_deletion = refl

deletion_decoded :
    decode_snapshot lively (record { operation = put_text op_snapshot (write_delta deletion) })
    ≡ Answer.returned (record { type_name = op_snapshot; delta = some deletion })
unfolding decode_snapshot check_snapshot put_text take_text take behind read_delta write_delta ◌>>=◌
    take_id put_id take_int put_int
deletion_decoded = refl

snapshot_answers_sync1_example :
    (message_loop lively forest delta_codec quiet ana opened
      (incoming saves_it ∷ incoming asks ∷ [])).written
    ≡ (10, sync2_bytes deletion) ∷ []
snapshot_answers_sync1_example =
    snapshot_answers_sync1 lively forest delta_codec forest-laws quiet ana opened 10
      (incoming saves_it) (incoming asks)
      (record { operation = put_text op_snapshot (write_delta deletion) })
      (record { operation = put_text op_sync1 [] })
      (record { type_name = op_snapshot; delta = some deletion }) deletion (sync2_bytes deletion)
      (delta_codec-inverse deletion) refl refl saves_it-IsUpdate asks-IsUpdate deletion_decoded refl
      saves_deletion ana-IsAlone refl (sync2_encoded deletion)

other_room : text_eq (trim_space room_name) (trim_space (codes "q")) ≡ false
unfolding trim_space trim_left is_space text_eq
other_room = refl

message_round-others_example :
    load_internal_snapshot forest delta_codec
      (message_round lively forest delta_codec sound true quiet ana opened true saves_it).1
      (codes "q")
    ≡ load_internal_snapshot forest delta_codec opened (codes "q")
message_round-others_example =
    message_round-others lively forest delta_codec forest-laws delta_codec-inverse sound true quiet
      ana opened true saves_it (codes "q") other_room

asks_answered :
    message_round lively forest delta_codec sound true quiet ana opened true asks
    ≡ ((continues, (10, sync2_bytes nothing_held) ∷ []), opened)
asks_answered =
    sync1_answered lively forest delta_codec sound true quiet ana opened 10 asks
      (sync2_bytes nothing_held) (record { operation = put_text op_sync1 [] }) nothing_held
      asks-IsUpdate ana-IsAlone refl empty_holds (sync2_encoded nothing_held)

asks_written :
    In
      (10, sync2_bytes nothing_held)
      (message_round lively forest delta_codec sound true quiet ana opened true asks).0.1
asks_written = subst (λ o. In (10, sync2_bytes nothing_held) o.0.1) (sym asks_answered) (inl refl)

message_round-Stays_example : Stays quiet ana asks (10, sync2_bytes nothing_held)
message_round-Stays_example =
    message_round-Stays lively forest delta_codec sound true quiet ana opened true asks
      (10, sync2_bytes nothing_held) asks_written

-- Ana joins and asks.
abbrev visit : List Incoming
visit =
    incoming (
      put_int supported_version (
        put_text type_join
          (put_text room_name (put_text (codes "ana") (put_text (codes "ana") [])))))
    ∷ incoming asks
    ∷ []

ws-safe_example : (ws lively forest delta_codec new_hub opened 10 sound visit).next ≢ panics
ws-safe_example = ws-safe lively forest delta_codec new_hub opened 10 sound visit

ws_restores_example :
    session_at
      (ws lively forest delta_codec new_hub opened 10 sound visit).hub
      room_name
      (codes "ana")
    ≡ session_at new_hub room_name (codes "ana")
ws_restores_example =
    ws_restores lively forest delta_codec new_hub opened 10 sound visit new_hub-IsValid room_name
      (codes "ana")
