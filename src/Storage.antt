-- ===== src/Storage.antt =====
-- backend/internal/storage/boltdb.go: the database of the relay, its rooms, and the snapshot of
-- a room that the relay keeps.
pub mod Buckets
pub mod Keys
pub mod Serializing
pub mod Documents
pub mod Rooms
pub mod Snapshots
pub mod Overlay
pub mod Logs
pub mod Elements
pub mod Walk
pub mod LogRoundTrip
use yata_collaborative_edito.Base.{
  Bool, true, false, Option, none, some, List, [], if◌then◌else◌, Text, codes, trim_space, is_empty,
}
use yata_collaborative_edito.Protocol.Messages.{Bytes, Codec}
use yata_collaborative_edito.Protocol.Operations.{Delta}
use Buckets.{Bolt}

pub data StorageError : Type 0 where
  -- an error of bbolt
  bolt_error : StorageError
  -- an error of encoding/json
  json_error : StorageError
  -- "No bucket found" and the like
  no_bucket : StorageError
  -- "empty room", "No room found", "Invalid room"
  empty_room : StorageError
  -- ErrSnapshotNotFound
  snapshot_not_found : StorageError

pub data Stored (A : Type 0) : Type 0 where
  done : A → Stored A
  failed : StorageError → Stored A

infixl 5 ◌>>=◌
abbrev pub ◌>>=◌ : {A B : Type 0} → Stored A → (A → Stored B) → Stored B
done a >>= f = f a
failed e >>= f = failed e

-- `if err != nil`, or a nil bucket
abbrev pub or_fail : {A : Type 0} → StorageError → Option A → Stored A
or_fail e none = failed e
or_fail e (some a) = done a

abbrev pub rooms_key : Bytes
rooms_key = codes "rooms"

abbrev pub metadata_key : Bytes
metadata_key = codes "metadata"

abbrev pub elements_key : Bytes
elements_key = codes "elements"

abbrev pub insert_log_key : Bytes
insert_log_key = codes "insert_log"

abbrev pub delete_log_key : Bytes
delete_log_key = codes "delete_log"

abbrev pub snapshot_key : Bytes
snapshot_key = codes "snapshot"

module _ (bolt : Bolt) where
  open bolt use {Bucket, get, bucket, put, create, store}

  -- The end of a transaction: its changes are kept if it returns no error and they can be
  -- committed.
  unfoldable pub end_transaction :
      Bucket → (commits : Bool) → Stored Bucket → Bucket × Option StorageError
  end_transaction db commits (failed e) = (db, some e)
  end_transaction db true (done db') = (db', none)
  end_transaction db false (done db') = (db, some bolt_error)

  -- db.Update
  unfoldable pub update :
      Bucket → (commits : Bool) → (Bucket → Stored Bucket) → Bucket × Option StorageError
  update db commits f = end_transaction db commits (f db)

  -- OpenDB, with what bolt.Open gives
  unfoldable pub open_db : Option Bucket → (commits : Bool) → Stored Bucket
  unfolding update end_transaction
  open_db none commits = failed bolt_error
  open_db (some db) commits =
      let (db', error) =
        update db commits
          (λ root. do (root', _) ← or_fail bolt_error (create root rooms_key); done root') in
      elim error [ none ↦ done db' | some e ↦ failed e ]

  -- A bucket of a room, created where it is not there.
  unfoldable pub create_in : Bucket → Bytes → Stored Bucket
  create_in room key = do (room', _) ← or_fail bolt_error (create room key); done room'

  -- createRoom: the bucket of the rooms and that of the room
  unfoldable pub create_room : Bucket → Text → Stored (Bucket × Bucket)
  create_room rooms room = if is_empty (trim_space room) then failed empty_room else (do
    (rooms', sub_room) ← or_fail bolt_error (create rooms (trim_space room))
    sub1 ← create_in sub_room metadata_key
    sub2 ← create_in sub1 elements_key
    sub3 ← create_in sub2 insert_log_key
    sub4 ← create_in sub3 delete_log_key
    done (rooms', sub4))

  -- Writing the buckets of the rooms and of one room back.
  abbrev pub store_room_bucket : (root rooms : Bucket) → Text → Bucket → Bucket
  store_room_bucket root rooms room sub_room =
      store root rooms_key (store rooms (trim_space room) sub_room)

  -- The transaction of SaveSnapshotRoom
  unfoldable pub write_snapshot : (room : Text) (data_bytes : Bytes) → Bucket → Stored Bucket
  write_snapshot room data_bytes root = do
    rooms ← or_fail no_bucket (bucket root rooms_key)
    (rooms', saving_room) ← create_room rooms room
    saved ← or_fail bolt_error (put saving_room snapshot_key data_bytes)
    done (store_room_bucket root rooms' room saved)

  module _ (deltas : Codec Delta) where
    -- SaveSnapshotRoom
    unfoldable pub save_snapshot_room :
        Bucket → (commits : Bool) → Text → Delta → Bucket × Option StorageError
    unfolding update
    save_snapshot_room db commits room delta =
        if is_empty (trim_space room) then (db, some empty_room) else elim (deltas.marshal delta) [
          | none ↦ (db, some json_error)
          | some data_bytes ↦ update db commits (write_snapshot (trim_space room) data_bytes)
        ]

    -- LoadSnapshotRoom of a bucket that is not nil
    unfoldable pub load_snapshot_room : Bucket → Stored Delta
    load_snapshot_room room = do
      bytes ← or_fail snapshot_not_found (get room snapshot_key)
      or_fail json_error (deltas.unmarshal bytes)

    -- LoadInternalSnapshot
    unfoldable pub load_internal_snapshot : Bucket → Text → Stored Delta
    load_internal_snapshot db room = if is_empty (trim_space room) then failed empty_room else (do
      rooms ← or_fail no_bucket (bucket db rooms_key)
      snapshot_room ← or_fail snapshot_not_found (bucket rooms (trim_space room))
      load_snapshot_room snapshot_room)
