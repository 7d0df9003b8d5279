-- ===== src/Examples/Answers.antt =====
-- The theorems on RemoteMessageLoop at a client in the middle of its synchronisation.
use yata_collaborative_edito.Base.{pos, ◌≡◌, refl, true, none, some, [], ◌∷◌, ok, map}
use yata_collaborative_edito.Protocol.Operations.{Delta, InsertOperation}
use yata_collaborative_edito.Protocol.Messages.{
  Bytes, UpdatePayload, Json, type_update, op_insert, op_sync1, op_sync2, ◌>>=◌,
}
use yata_collaborative_edito.Document.{new_document, start_id, end_id}
use yata_collaborative_edito.Document.Traversal.{visible_content, encode_rune}
use yata_collaborative_edito.Document.Update.{
  integrate_delta, delta_inserts, delta_deletes, remote_delete, register, link_memory,
}
use yata_collaborative_edito.Document.Valid.{visible}
use yata_collaborative_edito.Document.Reading.{reads_valid}
use yata_collaborative_edito.Sync.{generate_state_vector, generate_delete_set}
use yata_collaborative_edito.Sync.Adapter.{encode_update, encode_snapshot}
use yata_collaborative_edito.Protocol.Decoding.{encode_envelope}
use yata_collaborative_edito.Client.{online}
use yata_collaborative_edito.Client.Messages.{Replica, Wire, goes_on, receive_sync2}
use yata_collaborative_edito.Client.Answers.{receive_sync2_online}
use yata_collaborative_edito.Examples.Codec.{plain, insert_bytes, put_text, put_int}
use yata_collaborative_edito.Examples.Documents.{ana, id_of, bob_id, written, erased}
use yata_collaborative_edito.Examples.Remote.{kept}
use yata_collaborative_edito.Examples.Client.{busy, greeting, farewell}

abbrev waiting : Replica
waiting = record { client = busy; document = written }

erased_content :
    visible_content erased.after ≡ ok (map encode_rune (visible erased.after.memory (3 ∷ [])))
erased_content = (reads_valid erased.valid).0

removed : remote_delete written bob_id ≡ ok erased.after
unfolding register link_memory new_document
removed = erased.runs

abbrev removals : Delta
removals = record { inserts = []; deletes = record { target_id = bob_id } ∷ [] }

-- Codecs that read one message of each kind, and write any.
abbrev fixed : Json
fixed = record plain {
  updates = record { marshal = λ _. some (1 ∷ []); unmarshal = λ _. none };
  syncs1 = record {
    marshal = λ _. none;
    unmarshal = λ _. some (record {
      type_name = op_sync1;
      vector_state = some (generate_state_vector []);
      delete_set = some (generate_delete_set []);
    });
  };
  syncs2 = record {
    marshal = λ _. some (2 ∷ []);
    unmarshal = λ _. some (record { type_name = op_sync2; delta = some removals });
  };
  snapshots = record { marshal = λ _. some (3 ∷ []); unmarshal = λ _. none };
}

abbrev request : UpdatePayload
request = record { operation = 9 ∷ [] }

abbrev wrapped : Bytes
wrapped = put_int (pos 1) (put_text type_update (1 ∷ []))

removals_integrate : integrate_delta kept written removals ≡ ok (erased.after, none)
unfolding integrate_delta delta_inserts delta_deletes
removals_integrate = rw removed

receive_sync2_online_example :
    receive_sync2 kept fixed (record { flushes = λ j. true; sends = true }) 4 waiting request
    ≡ ok (
      record {
        client = record busy { connection = some 4; state = online; offline_queue = [] };
        document = erased.after;
      },
      goes_on,
      greeting ∷ farewell ∷ wrapped ∷ [],
    )
unfolding encode_snapshot encode_update encode_envelope ◌>>=◌
receive_sync2_online_example =
    receive_sync2_online kept fixed 4 waiting request (record { flushes = λ j. true; sends = true })
      op_sync2 removals erased.after (map encode_rune (visible erased.after.memory (3 ∷ [])))
      wrapped refl removals_integrate erased_content refl refl (λ j. refl) refl refl

abbrev steady : Wire
steady = record { flushes = λ j. true; sends = true }

abbrev ana_letter : InsertOperation
ana_letter = record {
  new_id = id_of ana 0;
  origin_id = start_id;
  right_id = end_id;
  content = b'x';
}

abbrev ana_message : Bytes
ana_message = put_int (pos 1) (
    put_text type_update (
      insert_bytes (record {
        type_name = op_insert;
        new_id = id_of ana 0;
        origin_id = start_id;
        right_id = end_id;
        character = encode_rune b'x' ∷ [];
      })))
