-- ===== src/Storage/Snapshots.antt =====
-- The snapshots of the rooms as a map: what SaveSnapshotRoom changes of what LoadInternalSnapshot
-- reads, and the database as a refinement of a map from rooms to deltas.
use yata_collaborative_edito.Base.{
  Bool, true, false, Option, none, some, List, [], ◌∷◌, ◌≡◌, ◌∙◌, ap, inl, inr, arith,
  if◌then◌else◌, Text, trim_space, trim_space_idempotent, text_eq, text_eq_iff, is_empty,
  Bool-cases, Option-cases,
}
use yata_collaborative_edito.Protocol.Messages.{Bytes, Codec}
use yata_collaborative_edito.Protocol.Operations.{Delta}
use yata_collaborative_edito.Storage.{
  Stored, done, failed, StorageError, snapshot_not_found, empty_room, ◌>>=◌, or_fail, rooms_key,
  snapshot_key, update, end_transaction, open_db, save_snapshot_room, load_snapshot_room,
  load_internal_snapshot,
}
use yata_collaborative_edito.Storage.Buckets.{Bolt, BoltLaws}
use yata_collaborative_edito.Storage.Rooms.{Saved, save_snapshot_room_cases, create_room_others}

text_eq_refl : (t : Text) → text_eq t t ≡ true
text_eq_refl t = ground (arith, text_eq_iff t t)

module _ (bolt : Bolt) (laws : BoltLaws bolt) (deltas : Codec Delta) where
  open bolt use {Bucket, get, bucket, put, create, store, empty}

  -- What LoadInternalSnapshot reads of the bucket of the rooms.
  abbrev read_room : Bucket → Text → Stored Delta
  read_room rooms room = do
    snapshot_room ← or_fail snapshot_not_found (bucket rooms room)
    load_snapshot_room bolt deltas snapshot_room

  load_blank :
      (db : Bucket) (room : Text)
      → is_empty (trim_space room) ≡ true
      → load_internal_snapshot bolt deltas db room ≡ failed empty_room
  unfolding load_internal_snapshot
  load_blank db room blank = ground arith

  load_found :
      (db rooms : Bucket) (room : Text)
      → bucket db rooms_key ≡ some rooms
      → load_internal_snapshot bolt deltas db room ≡ (
          if is_empty (trim_space room)
          then failed empty_room
          else read_room rooms (trim_space room))
  unfolding load_internal_snapshot
  load_found db rooms room found = ground (arith, found)

  saved_read :
      (room other : Text) (delta : Delta) (db db' : Bucket)
      → (s : Saved bolt laws deltas db room delta db') → deltas.unmarshal s.bytes ≡ some delta
      → is_empty (trim_space other) ≡ false
      → read_room (store s.rooms' (trim_space room) s.saved) (trim_space other) ≡ (
          if text_eq (trim_space room) (trim_space other)
          then done delta
          else read_room s.rooms (trim_space other))
  unfolding load_snapshot_room
  saved_read room other delta db db' s decodes named =
      let r = trim_space room in
      let o = trim_space other in
      let once : trim_space r ≡ r = trim_space_idempotent room in
      elim (Bool-cases (text_eq r o)) [
        | inl same ↦ ground (
          arith,
          laws.bucket-store s.rooms' s.saved r o,
          laws.get-put s.sub_room s.saved snapshot_key snapshot_key s.bytes s.written,
          text_eq_refl snapshot_key,
          decodes,
        )
        | inr differs ↦ ground (
          arith,
          laws.bucket-store s.rooms' s.saved r o,
          create_room_others bolt laws s.rooms s.rooms' s.sub_room r o s.created
              (ap (λ x. text_eq x o) once ∙ differs),
        )
      ]

  saved_found :
      (room : Text) (delta : Delta) (db db' : Bucket)
      → (s : Saved bolt laws deltas db room delta db')
      → bucket db' rooms_key ≡ some (store s.rooms' (trim_space room) s.saved)
  saved_found room delta db db' s = ground (
    arith,
    s.result,
    trim_space_idempotent room,
    text_eq_refl rooms_key,
    laws.bucket-store db (store s.rooms' (trim_space room) s.saved) rooms_key rooms_key,
  )

  -- When SaveSnapshotRoom returns no error, LoadInternalSnapshot gives the saved delta for that
  -- room, however it is spaced, and for every other room what it gave before.
  pub save_snapshot_room-load :
      (db : Bucket) (commits : Bool) (room other : Text) (delta : Delta)
      → ((b : Bytes) → deltas.marshal delta ≡ some b → deltas.unmarshal b ≡ some delta)
      → (save_snapshot_room bolt deltas db commits room delta).1 ≡ none
      → load_internal_snapshot bolt deltas
          (save_snapshot_room bolt deltas db commits room delta).0
          other
        ≡ (if text_eq (trim_space room) (trim_space other)
            then done delta
            else load_internal_snapshot bolt deltas db other)
  save_snapshot_room-load db commits room other delta decodes ok =
      elim (save_snapshot_room_cases bolt laws deltas db commits room delta) [
        | inl (e, r) ↦ absurd (ground (arith, r, ok))
        | inr (db', s, r) ↦
            ap (λ x. load_internal_snapshot bolt deltas x.0 other) r
            ∙ load_found db' _ other (saved_found room delta db db' s)
            ∙ elim (Bool-cases (is_empty (trim_space other))) [
              | inl blank ↦ ground (
                arith,
                blank,
                s.named,
                text_eq_iff (trim_space room) (trim_space other),
                load_found db s.rooms other s.found,
              )
              | inr named ↦ ground (
                arith,
                named,
                saved_read room other delta db db' s (decodes s.bytes s.encoded) named,
                load_found db s.rooms other s.found,
              )
            ]
      ]

  -- What SaveSnapshotRoom returns an error for it has not changed.
  pub save_snapshot_room-failed :
      (db : Bucket) (commits : Bool) (room : Text) (delta : Delta) (e : StorageError)
      → (save_snapshot_room bolt deltas db commits room delta).1 ≡ some e
      → (save_snapshot_room bolt deltas db commits room delta).0 ≡ db
  save_snapshot_room-failed db commits room delta e fails =
      elim (save_snapshot_room_cases bolt laws deltas db commits room delta) [
        | inl (err, r) ↦ ap (λ x. x.0) r
        | inr (db', s, r) ↦ absurd (ground (arith, r, fails))
      ]

  -- The snapshots by room, without a database.
  abbrev pub Snapshots : Type 0
  Snapshots = Text → Option Delta

  -- A call of SaveSnapshotRoom, and whether bbolt commits its transaction
  pub record Save : Type 0 where
    pub room : Text
    pub delta : Delta
    pub commits : Bool

  abbrev pub or_missing : Option Delta → Stored Delta
  or_missing none = failed snapshot_not_found
  or_missing (some delta) = done delta

  -- The loads of the database give what the map has.
  pub IsView : Bucket → Snapshots → Type 0
  IsView db m =
      (room : Text)
      → load_internal_snapshot bolt deltas db room ≡ (
          if is_empty (trim_space room)
          then failed empty_room
          else or_missing (m (trim_space room)))

  -- The map after a save with this outcome.
  unfoldable pub noted : Option StorageError → Save → Snapshots → Snapshots
  noted (some e) s m = m
  noted none s m = λ room. if text_eq (trim_space s.room) room then some s.delta else m room

  opened-IsView :
      (commits : Bool) (db : Bucket)
      → open_db bolt (some empty) commits ≡ done db
      → IsView db (λ _. none)
  unfolding IsView open_db update end_transaction
  opened-IsView commits db opened room = elim (Option-cases (create empty rooms_key)) [
    | inl e ↦ absurd (ground (arith, opened, e))
    | inr ((c, d), e) ↦ elim (Bool-cases commits) [
      | inl yes_commits ↦ ground (
        arith,
        opened,
        e,
        laws.create_found empty c d rooms_key e,
        laws.bucket-empty rooms_key,
        laws.bucket-empty (trim_space room),
        laws.bucket-create empty c d rooms_key rooms_key e,
        text_eq_refl rooms_key,
        load_found c d room,
      )
      | inr never ↦ absurd (ground (arith, opened, e, never))
    ]
  ]

  unfoldable pub saves : List Save → Bucket × Snapshots → Bucket × Snapshots
  saves [] (db, m) = (db, m)
  saves (s ∷ rest) (db, m) =
      let (db', outcome) = save_snapshot_room bolt deltas db s.commits s.room s.delta in
      saves rest (db', noted outcome s m)

  module _
      (decodes : (d : Delta) (b : Bytes)
        → deltas.marshal d ≡ some b
        → deltas.unmarshal b ≡ some d) where
    save-IsView :
        (s : Save) (db : Bucket) (m : Snapshots)
        → IsView db m
        → IsView
            (save_snapshot_room bolt deltas db s.commits s.room s.delta).0
            (noted (save_snapshot_room bolt deltas db s.commits s.room s.delta).1 s m)
    unfolding IsView noted
    save-IsView s db m view room =
        elim (Option-cases (save_snapshot_room bolt deltas db s.commits s.room s.delta).1) [
          | inl ok ↦ elim (Bool-cases (is_empty (trim_space room))) [
            | inl blank ↦ ground (
              arith,
              load_blank (save_snapshot_room bolt deltas db s.commits s.room s.delta).0 room blank,
            )
            | inr named ↦ ground (
              arith,
              ok,
              named,
              view room,
              save_snapshot_room-load db s.commits s.room room s.delta (decodes s.delta) ok,
            )
          ]
          | inr (e, fails) ↦ ground (
            arith,
            fails,
            save_snapshot_room-failed db s.commits s.room s.delta e fails,
            view room,
          )
        ]

    saves-IsView :
        (list : List Save) (db : Bucket) (m : Snapshots)
        → IsView db m
        → IsView (saves list (db, m)).0 (saves list (db, m)).1
    unfolding saves
    saves-IsView [] db m view = view
    saves-IsView (s ∷ rest) db m view = saves-IsView rest _ _ (save-IsView s db m view)

    -- In a new database that OpenDB has opened, after any calls of SaveSnapshotRoom, with or
    -- without errors, LoadInternalSnapshot gives for each room the delta of the last call for it
    -- that returned no error, and ErrSnapshotNotFound where there is none.
    pub saves_refine :
        (commits : Bool) (db : Bucket) (list : List Save)
        → open_db bolt (some empty) commits ≡ done db
        → IsView (saves list (db, λ _. none)).0 (saves list (db, λ _. none)).1
    saves_refine commits db list opened =
        saves-IsView list db (λ _. none) (opened-IsView commits db opened)
