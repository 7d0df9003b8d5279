-- ===== src/Examples/Storage.antt =====
-- The theorems on backend/internal/storage at a database of two rooms.
use yata_collaborative_edito.Base.{
  true, false, none, some, List, [], ◌∷◌, ◌≡◌, refl, pos, if◌then◌else◌, codes, text_eq, is_space,
  trim_left, trim_space,
}
use yata_collaborative_edito.Protocol.Operations.{Delta}
use yata_collaborative_edito.Storage.{
  done, open_db, update, end_transaction, create_room, create_in, write_snapshot,
  save_snapshot_room, load_internal_snapshot,
}
use yata_collaborative_edito.Storage.Snapshots.{
  Save, saves, IsView, save_snapshot_room-load, saves_refine,
}
use yata_collaborative_edito.Examples.Buckets.{
  Tree, node, bare, grown, find, graft, forest, forest-laws,
}
use yata_collaborative_edito.Examples.Deltas.{delta_codec, delta_codec-inverse, write_delta}

abbrev pub deletion : Delta
deletion = record {
  inserts = [];
  deletes = record { target_id = record { client_id = codes "ana"; clock = pos 3 } } ∷ [];
}

-- The database that OpenDB makes of a new one.
abbrev pub opened : Tree
opened = node [] (grown (codes "rooms") (node [] bare) bare)

opened_lem : open_db forest (some forest.empty) true ≡ done opened
unfolding open_db update end_transaction find graft
opened_lem = refl

saves_succeed : (save_snapshot_room forest delta_codec opened true (codes " r ") deletion).1 ≡ none
unfolding save_snapshot_room update end_transaction write_snapshot create_room create_in find graft
    trim_space trim_left is_space write_delta text_eq
saves_succeed = refl

save_snapshot_room-load_example :
    load_internal_snapshot forest delta_codec
      (save_snapshot_room forest delta_codec opened true (codes " r ") deletion).0
      (codes "r")
    ≡ (if text_eq (trim_space (codes " r ")) (trim_space (codes "r"))
        then done deletion
        else load_internal_snapshot forest delta_codec opened (codes "r"))
save_snapshot_room-load_example =
    save_snapshot_room-load forest forest-laws delta_codec opened true (codes " r ") (codes "r")
      deletion (delta_codec-inverse deletion) saves_succeed

-- Three saves, of which the second is not committed.
abbrev three_saves : List (Save forest forest-laws delta_codec)
three_saves =
    record { room = codes "r"; delta = deletion; commits = true }
    ∷ record { room = codes "q"; delta = deletion; commits = false }
    ∷ record { room = codes "q"; delta = record { inserts = []; deletes = [] }; commits = true }
    ∷ []

saves_refine_example :
    IsView forest forest-laws delta_codec
      (saves forest forest-laws delta_codec three_saves (opened, λ _. none)).0
      (saves forest forest-laws delta_codec three_saves (opened, λ _. none)).1
saves_refine_example =
    saves_refine forest forest-laws delta_codec delta_codec-inverse true opened three_saves
      opened_lem
