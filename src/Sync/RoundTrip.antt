-- ===== src/Sync/RoundTrip.antt =====
-- The encoders of backend/internal/sync/adapter.go against the decoders of
-- backend/internal/protocol/messages.go and the converters.
use yata_collaborative_edito.Base.{
  ℕ, ◌≡◌, refl, ap, ◌∙◌, false, some, [], ◌∷◌, arith, Text, is_empty, length, inl, inr, ==_iff,
  Option-cases,
}
use yata_collaborative_edito.Protocol.Operations.{
  InsertOperation, DeleteOperation, new_insert_operation, new_delete_operation,
}
use yata_collaborative_edito.Protocol.Messages.{
  Bytes, Envelope, UpdatePayload, InsertOp, DeleteOp, Json, returned, or_error, ◌>>=◌,
  supported_version, type_update, op_insert, op_delete,
}
use yata_collaborative_edito.Protocol.Decoding.{
  check_insert, check_delete, decode_envelope, decode_insert, decode_update, encode_envelope,
}
use yata_collaborative_edito.Document.Traversal.{encode_rune}
use yata_collaborative_edito.Sync.Adapter.{
  converted_insert, converted_delete, single, convert_insert, convert_delete,
  insert_operation_converter, encode_update, encode_insert_operation, encode_delete_operation,
}
use yata_collaborative_edito.Sync.Laws.{
  Laws, Delivers, check_update-insert, check_update-delete, convert_update_operation-insert,
  convert_update_operation-delete,
}

abbrev insert_message : InsertOperation → InsertOp
insert_message op = record {
  type_name = op_insert;
  new_id = op.new_id;
  origin_id = op.origin_id;
  right_id = op.right_id;
  character = encode_rune op.content ∷ [];
}

insert_fits :
    (op : InsertOperation)
    → is_empty op.new_id.client_id ≡ false
    → is_empty op.origin_id.client_id ≡ false
    → is_empty op.right_id.client_id ≡ false
    → encode_rune op.content ≡ op.content
    → (check_insert (insert_message op) ≡ returned (insert_message op))
      × (convert_insert (insert_message op) ≡ returned (converted_insert op))
unfolding check_insert convert_insert single new_insert_operation
insert_fits op new_named origin_named right_named scalar = (ground arith, ground arith)

delete_fits :
    (op : DeleteOperation)
    → is_empty op.target_id.client_id ≡ false
    → (check_delete (record { type_name = op_delete; target_id = op.target_id })
        ≡ returned (record { type_name = op_delete; target_id = op.target_id }))
      × (convert_delete (record { type_name = op_delete; target_id = op.target_id })
          ≡ returned (converted_delete op))
unfolding check_delete convert_delete new_delete_operation
delete_fits op named = (ground arith, ground arith)

module _ (json : Json) (laws : Laws json) where
  encode_update-decode :
      (operation message : Bytes)
      → laws.compact operation
      → encode_update json operation ≡ returned message
      → (payload : Bytes) × (decode_envelope json message
          ≡ returned (supported_version, type_update, payload))
        × (json.updates.unmarshal payload ≡ some (record { operation = operation }))
  unfolding encode_update encode_envelope decode_envelope ◌>>=◌
  encode_update-decode operation message c e =
      let update : UpdatePayload = record { operation = operation } in
      elim (Option-cases (json.updates.marshal update)) [
        | inl f ↦ ground (arith, f)
        | inr (payload, f) ↦
            let (c', g) = laws.updates update payload c f in
            let envelope : Envelope = record {
              version = supported_version;
              message_type = type_update;
              payload = payload;
            } in
            elim (Option-cases (json.envelopes.marshal envelope)) [
              | inl k ↦ ground (arith, k)
              | inr (m, k) ↦ (payload, ground (arith, laws.envelopes envelope m c' k), g)
            ]
      ]

  -- The message that EncodeInsertOperation makes of an insertion whose three identifiers name
  -- a client and whose content is a scalar value is accepted by the receiver, which converts it
  -- to the same insertion.
  pub insert_round_trip :
      (op : InsertOperation) (message : Bytes)
      → encode_insert_operation json op ≡ returned message
      → is_empty op.new_id.client_id ≡ false
      → is_empty op.origin_id.client_id ≡ false
      → is_empty op.right_id.client_id ≡ false
      → encode_rune op.content ≡ op.content
      → Delivers json message (converted_insert op)
  unfolding encode_insert_operation ◌>>=◌ decode_update Delivers converted_insert
  insert_round_trip op message e new_named origin_named right_named scalar =
      elim (Option-cases (json.inserts.marshal (insert_message op))) [
        | inl f ↦ ground (arith, f)
        | inr (raw, f) ↦
            let (c, filled, read, kind) = laws.inserts (insert_message op) raw f in
            let update : UpdatePayload = record { operation = raw } in
            let (payload, envelope, body) =
              encode_update-decode raw message c (ground (arith, f)) in
            let (fine, same) = insert_fits op new_named origin_named right_named scalar in
            let checked =
              check_update-insert json update (insert_message op) filled kind read fine in
            (
              payload,
              update,
              envelope,
              ground (arith, body, checked),
              convert_update_operation-insert json update (insert_message op) kind read ∙ same,
              kind,
            )
      ]

  -- The message that EncodeDeleteOperation makes of a deletion whose target names a client is
  -- accepted by the receiver, which converts it to the same deletion.
  pub delete_round_trip :
      (op : DeleteOperation) (message : Bytes)
      → encode_delete_operation json op ≡ returned message
      → is_empty op.target_id.client_id ≡ false
      → Delivers json message (converted_delete op)
  unfolding encode_delete_operation ◌>>=◌ decode_update Delivers converted_delete
  delete_round_trip op message e named =
      let body : DeleteOp = record { type_name = op_delete; target_id = op.target_id } in
      elim (Option-cases (json.deletes.marshal body)) [
        | inl f ↦ ground (arith, f)
        | inr (raw, f) ↦
            let (c, filled, read, kind) = laws.deletes body raw f in
            let update : UpdatePayload = record { operation = raw } in
            let (payload, envelope, whole) =
              encode_update-decode raw message c (ground (arith, f)) in
            let (fine, same) = delete_fits op named in
            let checked = check_update-delete json update body filled kind read fine in
            (
              payload,
              update,
              envelope,
              ground (arith, whole, checked),
              convert_update_operation-delete json update body kind read ∙ same,
              kind,
            )
      ]

one_long : (s : Text) → length s ≡ 1 → (r : ℕ) × (s ≡ r ∷ [])
one_long [] e = ground arith
one_long (r ∷ []) e = (r, refl)
one_long (r ∷ q ∷ s) e = ground arith

check_insert-convert_insert :
    (b a : InsertOp)
    → check_insert b ≡ returned a
    → (b ≡ a)
      × (r : ℕ) × (a.character ≡ r ∷ [])
      × (convert_insert b
          ≡ returned (converted_insert (new_insert_operation a.new_id a.origin_id a.right_id r)))
unfolding check_insert convert_insert single
check_insert-convert_insert b a e =
    let same : b ≡ a = ground arith in
    let (r, one) = one_long b.character (ground (arith, ==_iff (length b.character) 1)) in
    (same, r, ground (arith, one), ground (arith, one))

-- The insertion that DecodeInsert accepts is converted without an error, with the three
-- identifiers of the message and the one character that it has.
pub accepted_insert_converts :
    (json : Json) (u : UpdatePayload) (a : InsertOp)
    → decode_insert json u ≡ returned a
    → (r : ℕ) × (a.character ≡ r ∷ [])
      × (insert_operation_converter json u
          ≡ returned (converted_insert (new_insert_operation a.new_id a.origin_id a.right_id r)))
unfolding decode_insert insert_operation_converter ◌>>=◌
accepted_insert_converts json u a e = elim (Option-cases (json.inserts.unmarshal u.operation)) [
  | inl f ↦ ground (arith, f)
  | inr (b, f) ↦
      let (same, r, one, fits) = check_insert-convert_insert b a (ground (arith, f)) in
      (r, one, ap (λ o. or_error o >>= convert_insert) f ∙ fits)
]
