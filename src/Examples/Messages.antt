-- ===== src/Examples/Messages.antt =====
-- The round trips of backend/internal/sync/adapter.go with a concrete codec.
use yata_collaborative_edito.Base.{◌≡◌, refl, [], ◌∷◌, pos, codes}
use yata_collaborative_edito.Identifier.{ElementId}
use yata_collaborative_edito.Protocol.Operations.{InsertOperation, DeleteOperation}
use yata_collaborative_edito.Protocol.Messages.{
  Bytes, UpdatePayload, InsertOp, returned, op_insert, op_delete, type_update, ◌>>=◌,
}
use yata_collaborative_edito.Protocol.Decoding.{decode_insert, encode_envelope, check_insert}
use yata_collaborative_edito.Document.{start_id, end_id}
use yata_collaborative_edito.Document.Traversal.{encode_rune}
use yata_collaborative_edito.Sync.Adapter.{
  converted_insert, converted_delete, encode_insert_operation, encode_delete_operation,
  encode_update,
}
use yata_collaborative_edito.Sync.Laws.{Delivers}
use yata_collaborative_edito.Sync.RoundTrip.{insert_round_trip, delete_round_trip}
use yata_collaborative_edito.Examples.Codec.{
  plain, plain-Laws, insert_bytes, take, put_int, put_text, take_text, put_id, take_int, take_id,
}

abbrev ana_id : ElementId
ana_id = record { client_id = codes "A"; clock = pos 0 }

abbrev insertion : InsertOperation
insertion = record { new_id = ana_id; origin_id = start_id; right_id = end_id; content = b'x' }

abbrev insertion_op : InsertOp
insertion_op = record {
  type_name = op_insert;
  new_id = ana_id;
  origin_id = start_id;
  right_id = end_id;
  character = encode_rune b'x' ∷ [];
}

abbrev insertion_message : Bytes
insertion_message = put_int (pos 1) (put_text type_update (insert_bytes insertion_op))

insertion_encoded : encode_insert_operation plain insertion ≡ returned insertion_message
unfolding encode_insert_operation encode_update encode_envelope ◌>>=◌
insertion_encoded = refl

scalar : encode_rune b'x' ≡ b'x'
unfolding encode_rune
scalar = refl

insert_round_trip_example : Delivers plain insertion_message (converted_insert insertion)
insert_round_trip_example =
    insert_round_trip plain plain-Laws insertion insertion_message insertion_encoded refl refl refl
      scalar

abbrev deletion : DeleteOperation
deletion = record { target_id = ana_id }

abbrev deletion_message : Bytes
deletion_message = put_int (pos 1) (put_text type_update (put_text op_delete (put_id ana_id [])))

deletion_encoded : encode_delete_operation plain deletion ≡ returned deletion_message
unfolding encode_delete_operation encode_update encode_envelope ◌>>=◌
deletion_encoded = refl

delete_round_trip_example : Delivers plain deletion_message (converted_delete deletion)
delete_round_trip_example =
    delete_round_trip plain plain-Laws deletion deletion_message deletion_encoded refl

abbrev update : UpdatePayload
update = record { operation = insert_bytes insertion_op }

update_accepted : decode_insert plain update ≡ returned insertion_op
unfolding decode_insert check_insert ◌>>=◌ put_text take_text put_id take_id put_int take_int
    encode_rune take
update_accepted = refl
