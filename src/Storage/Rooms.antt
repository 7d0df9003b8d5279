-- ===== src/Storage/Rooms.antt =====
-- The snapshots of the rooms as a map: what SaveSnapshotRoom does to what LoadInternalSnapshot
-- reads.
use yata_collaborative_edito.Base.{
  Bool, true, false, Option, none, some, ◌≡◌, ◌⊎◌, refl, inl, inr, arith, Text, trim_space, text_eq,
  is_empty, Bool-cases, Option-cases,
}
use yata_collaborative_edito.Protocol.Messages.{Bytes, Codec}
use yata_collaborative_edito.Protocol.Operations.{Delta}
use yata_collaborative_edito.Storage.{
  Stored, done, failed, StorageError, empty_room, ◌>>=◌, or_fail, rooms_key, snapshot_key, update,
  end_transaction, create_room, create_in, store_room_bucket, save_snapshot_room, write_snapshot,
  bolt_error, json_error,
}
use yata_collaborative_edito.Storage.Buckets.{Bolt, BoltLaws}

-- Inversion of a step that succeeds.
pub >>=-done :
    {A B : Type 0} (m : Stored A) (f : A → Stored B) {b : B}
    → (m >>= f) ≡ done b
    → (a : A) × (m ≡ done a) × (f a ≡ done b)
>>=-done (done a) f h = (a, refl, h)
>>=-done (failed e) f h = absurd (ground arith)

pub or_fail-done :
    {A : Type 0} (e : StorageError) (o : Option A) {a : A} → or_fail e o ≡ done a → o ≡ some a
or_fail-done e none h = absurd (ground arith)
or_fail-done e (some b) h = ground arith

module _ (bolt : Bolt) where
  open bolt use {Bucket, get, bucket, put, create, store}

  -- A transaction either leaves the database as it was or has the change.
  pub end_transaction_cases :
      (db : Bucket) (commits : Bool) (r : Stored Bucket)
      → ((e : StorageError) × (end_transaction bolt db commits r ≡ (db, some e)))
        ⊎ ((db' : Bucket) × (r ≡ done db') × (end_transaction bolt db commits r ≡ (db', none)))
  unfolding end_transaction
  end_transaction_cases db commits (failed e) = inl (e, refl)
  end_transaction_cases db true (done db') = inr (db', refl, refl)
  end_transaction_cases db false (done db') = inl (bolt_error, refl)

  module _ (laws : BoltLaws bolt) where
    pub record Saved (deltas : Codec Delta) (db : Bucket) (room : Text) (delta : Delta)
        (db' : Bucket) : Type 0 where
      pub bytes : Bytes
      pub rooms : Bucket
      pub rooms' : Bucket
      pub sub_room : Bucket
      pub saved : Bucket
      pub named : is_empty (trim_space room) ≡ false
      pub encoded : deltas.marshal delta ≡ some bytes
      pub found : bucket db rooms_key ≡ some rooms
      pub created : create_room bolt rooms (trim_space room) ≡ done (rooms', sub_room)
      pub written : put sub_room snapshot_key bytes ≡ some saved
      pub result : store_room_bucket bolt db rooms' (trim_space room) saved ≡ db'

    -- The other rooms are as before.
    pub create_room_others :
        (rooms rooms' sub : Bucket) (room : Text) (j : Bytes)
        → create_room bolt rooms room ≡ done (rooms', sub)
        → text_eq (trim_space room) j ≡ false
        → bucket rooms' j ≡ bucket rooms j
    unfolding create_room create_in
    create_room_others rooms rooms' sub room j h other =
        elim (Option-cases (create rooms (trim_space room))) [
          | inl e ↦ absurd (ground (arith, h, e))
          | inr ((c, d), e) ↦ ground (arith, h, e, laws.bucket-create rooms c d (trim_space room) j)
        ]

    -- SaveSnapshotRoom either returns an error and leaves the database as it was, or each step of
    -- its transaction has succeeded.
    pub save_snapshot_room_cases :
        (deltas : Codec Delta) (db : Bucket) (commits : Bool) (room : Text) (delta : Delta)
        → ((e : StorageError) × (save_snapshot_room bolt deltas db commits room delta
              ≡ (db, some e)))
          ⊎ ((db' : Bucket) × Saved deltas db room delta db'
              × (save_snapshot_room bolt deltas db commits room delta ≡ (db', none)))
    unfolding save_snapshot_room update write_snapshot
    save_snapshot_room_cases deltas db commits room delta =
        elim (Bool-cases (is_empty (trim_space room))) [
          | inl e ↦ inl (empty_room, ground arith)
          | inr e ↦ elim (Option-cases (deltas.marshal delta)) [
            | inl m ↦ inl (json_error, ground arith)
            | inr (bytes, m) ↦
                elim (end_transaction_cases db commits
                  (write_snapshot bolt (trim_space room) bytes db)) [
                    | inl (err, t) ↦ inl (err, ground (arith, t))
                    | inr (db', r, t) ↦
                        let (rooms, found, r1) = >>=-done _ _ r in
                        let ((rooms', sub), created, r2) = >>=-done _ _ r1 in
                        let (saved, written, r3) = >>=-done _ _ r2 in
                        inr (
                          db',
                          record {
                            bytes = bytes;
                            rooms = rooms;
                            rooms' = rooms';
                            sub_room = sub;
                            saved = saved;
                            named = e;
                            encoded = m;
                            found = or_fail-done _ _ found;
                            created = created;
                            written = or_fail-done _ _ written;
                            result = ground (arith, r3);
                          },
                          ground (arith, t),
                        )
                  ]
          ]
        ]
