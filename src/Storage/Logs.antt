-- ===== src/Storage/Logs.antt =====
-- What is saved under the identifiers of a log is read back: one proof for the insertions, the
-- deletions and the elements.
use mathlib.Core.Path.{subst}
use yata_collaborative_edito.Base.{
  true, false, Option, none, some, is_some, List, [], ◌∷◌, ◌≡◌, ◌∙◌, ◌⊎◌, refl, sym, ap, inl, inr,
  arith, if◌then◌else◌, text_eq, text_eq_iff, text_Eq, Map, lookup, insert, lookup-insert, In,
  Bool-cases, Option-cases,
}
use yata_collaborative_edito.Identifier.{ElementId, id_eq, id_eq_iff, id_Eq}
use yata_collaborative_edito.Protocol.Messages.{Bytes, Codec}
use yata_collaborative_edito.Storage.{done, bolt_error}
use yata_collaborative_edito.Storage.Buckets.{Bolt, BoltLaws}
use yata_collaborative_edito.Storage.Keys.{format_id, format_id_injective}
use yata_collaborative_edito.Storage.Overlay.{
  lookup-In, IsMap, set_at, overlay, overlay-hit, overlay-miss,
}
use yata_collaborative_edito.Storage.Rooms.{>>=-done, or_fail-done}
use yata_collaborative_edito.Storage.Documents.{put_value, save_operations, load_entries}

module _ (bolt : Bolt) (laws : BoltLaws bolt) {V P : Type 0} (codec : Codec P) (persist : V → P)
    (restore : P → V) (key : V → ElementId) (restores : (v : V) → restore (persist v) ≡ v)
    (decodes : (p : P) (b : Bytes) → codec.marshal p ≡ some b → codec.unmarshal b ≡ some p) where
  open bolt use {Bucket, get, put, entries}

  -- What a value of the bucket stands for
  pub record Read (k v : Bytes) (m : ElementId → Option V) : Type 0 where
    pub value : P
    pub decoded : codec.unmarshal v ≡ some value
    pub named : k ≡ format_id (key (restore value))
    pub held : m (key (restore value)) ≡ some (restore value)

  -- The bucket has what `m` gives, and nothing else.
  pub record IsLog (b : Bucket) (m : ElementId → Option V) : Type 0 where
    pub reads : (k v : Bytes) → get b k ≡ some v → Read k v m
    pub present : (id : ElementId) → is_some (m id) ≡ true → is_some (get b (format_id id)) ≡ true

  -- A bucket without values is the log of nothing.
  pub empty-IsLog : (b : Bucket) → ((k : Bytes) → get b k ≡ none) → IsLog b (λ _. none)
  empty-IsLog b nothing = record {
    reads = λ k v there. absurd (ground (arith, there, nothing k));
    present = λ id there. absurd (ground (arith, there));
  }

  put_value-done :
      (b b' : Bucket) (k : Bytes) (p : P)
      → put_value bolt codec b k p ≡ done b'
      → (bytes : Bytes) × (codec.marshal p ≡ some bytes) × (put b k bytes ≡ some b')
  unfolding put_value
  put_value-done b b' k p saved = elim (Option-cases (codec.marshal p)) [
    | inl e ↦ absurd (ground (arith, e, saved))
    | inr (bytes, e) ↦
        (bytes, e, or_fail-done bolt_error (put b k bytes) (ground (arith, e, saved)))
  ]

  put_value-Read :
      (b b' : Bucket) (k : ElementId) (v : V) (m : ElementId → Option V) (bytes j w : Bytes)
      → IsLog b m
      → key v ≡ k
      → codec.marshal (persist v) ≡ some bytes
      → get b' j ≡ (if text_eq (format_id k) j then some bytes else get b j)
      → get b' j ≡ some w
      → Read j w (set_at k v m)
  put_value-Read b b' k v m bytes j w log named marshalled reads there =
      elim (Bool-cases (text_eq (format_id k) j)) [
        | inl same ↦ record {
          value = persist v;
          decoded = decodes (persist v) w (ground (arith, marshalled, reads, there, same));
          named =
              sym ((text_eq_iff (format_id k) j).0 same)
              ∙ ap format_id (sym named ∙ ap key (sym (restores v)));
          held = ground (arith, restores v, named, id_eq_iff k k);
        }
        | inr other ↦
            let old = log.reads j w (ground (arith, reads, there, other)) in
            let q = restore old.value in
            let differs : id_eq k (key q) ≡ false =
              ground (arith, other, id_eq_iff k (key q), text_eq_iff (format_id k) j, old.named) in
            record {
              value = old.value;
              decoded = old.decoded;
              named = old.named;
              held = ground (arith, differs, old.held);
            }
      ]

  put_value-IsLog :
      (b b' : Bucket) (k : ElementId) (v : V) (m : ElementId → Option V)
      → IsLog b m
      → key v ≡ k
      → put_value bolt codec b (format_id k) (persist v) ≡ done b'
      → IsLog b' (set_at k v m)
  put_value-IsLog b b' k v m log named saved =
      let (bytes, marshalled, written) = put_value-done b b' (format_id k) (persist v) saved in
      record {
        reads = λ j w there.
            put_value-Read b b' k v m bytes j w log named marshalled
              (laws.get-put b b' (format_id k) j bytes written) there;
        present = λ id there. ground (
          arith,
          there,
          laws.get-put b b' (format_id k) (format_id id) bytes written,
          log.present id,
          id_eq_iff k id,
          text_eq_iff (format_id k) (format_id id),
        );
      }

  pub save_operations-IsLog :
      (log : Map ElementId V) (b b' : Bucket) (m : ElementId → Option V)
      → IsLog b m
      → ((k : ElementId) (v : V) → In (k, v) log → key v ≡ k)
      → save_operations bolt codec persist log b ≡ done b'
      → IsLog b' (overlay log m)
  unfolding save_operations overlay
  save_operations-IsLog [] b b' m log named saved =
      subst (λ c. IsLog c m) (ground (arith, saved)) log
  save_operations-IsLog ((k, v) ∷ rest) b b' m log named saved =
      let (c, first, later) =
        >>=-done (put_value bolt codec b (format_id k) (persist v))
          (save_operations bolt codec persist rest) saved in
      save_operations-IsLog rest c b' (set_at k v m)
        (put_value-IsLog b c k v m log (named k v (inl refl)) first) (λ j w i. named j w (inr i))
        later

  -- What LoadInsertOperations and LoadDeleteOperations note of a value.
  abbrev pub note : P → Map ElementId V → Map ElementId V
  note p log = insert (key (restore p)) (restore p) log

  IsBelow : Map ElementId V → (ElementId → Option V) → Type 0
  IsBelow log m = (id : ElementId) (v : V) → lookup id log ≡ some v → m id ≡ some v

  abbrev Covers : List (Bytes × Bytes) → Map ElementId V → Map ElementId V → Type 0
  Covers es before after =
      (id : ElementId)
      → (is_some (lookup id before) ≡ true) ⊎ (is_some (lookup (format_id id) es) ≡ true)
      → is_some (lookup id after) ≡ true

  load_entries-reads :
      (m : ElementId → Option V) (es : List (Bytes × Bytes)) (before : Map ElementId V)
      → ((k v : Bytes) → In (k, v) es → Read k v m)
      → IsBelow before m
      → (after : Map ElementId V) × (load_entries bolt codec note es before ≡ done after)
        × IsBelow after m
        × Covers es before after
  unfolding load_entries IsBelow lookup
  load_entries-reads m [] before reads below =
      (before, refl, below, λ id held. ground (arith, held))
  load_entries-reads m ((k, v) ∷ rest) before reads below =
      let r = reads k v (inl refl) in
      let q = restore r.value in
      let (after, loaded, inside, covered) =
        load_entries-reads m rest (note r.value before) (λ j w i. reads j w (inr i))
          (λ id u found. ground (
            arith,
            found,
            r.held,
            below id u,
            lookup-insert (key q) id q before,
            id_eq_iff (key q) id,
          )) in
      (
        after,
        ground (arith, r.decoded, loaded),
        inside,
        λ id held. covered id (
            ground (
              arith,
              held,
              r.named,
              lookup-insert (key q) id q before,
              text_eq_iff k (format_id id),
              id_eq_iff (key q) id,
              format_id_injective (key q) id,
            )),
      )

  -- Reading the bucket gives the map that it stands for.
  pub load_entries-IsLog :
      (b : Bucket) (m : ElementId → Option V)
      → IsLog b m
      → (log : Map ElementId V) × (load_entries bolt codec note (entries b) [] ≡ done log)
        × ((id : ElementId) → lookup id log ≡ m id)
  unfolding IsBelow lookup
  load_entries-IsLog b m log =
      let (loaded, e, below, covered) =
        load_entries-reads m (entries b) [] (λ k v i. log.reads k v (laws.entries-In b k v i))
          (λ id v found. absurd (ground (arith, found))) in
      (
        loaded,
        e,
        λ id. elim (Option-cases (lookup id loaded)) [
          | inr (v, found) ↦ found ∙ sym (below id v found)
          | inl missing ↦ elim (Option-cases (m id)) [
            | inl none_there ↦ missing ∙ sym none_there
            | inr (v, there) ↦
                let stored = log.present id (ap is_some there) in
                let seen =
                  covered id (inr (ap is_some (laws.lookup-entries b (format_id id)) ∙ stored)) in
                absurd (ground (arith, seen, missing))
          ]
        ],
      )

  -- A log whose entries stand under their own identifiers is put over what the bucket had, and
  -- reading the bucket gives both, the new entry where there are two.
  pub save_operations-load :
      (log : Map ElementId V) (b b' : Bucket) (m : ElementId → Option V)
      → IsLog b m
      → IsMap log
      → ((k : ElementId) (v : V) → In (k, v) log → key v ≡ k)
      → save_operations bolt codec persist log b ≡ done b'
      → (loaded : Map ElementId V) × (load_entries bolt codec note (entries b') [] ≡ done loaded)
        × ((id : ElementId)
            → lookup id loaded ≡ elim (lookup id log) [ some v ↦ some v | none ↦ m id ])
  save_operations-load log b b' m stored functional named saved =
      let (loaded, e, same) =
        load_entries-IsLog b' (overlay log m)
          (save_operations-IsLog log b b' m stored named saved) in
      (
        loaded,
        e,
        λ id. same id ∙ elim (Option-cases (lookup id log)) [
          | inl missing ↦ ground (arith, missing, overlay-miss log m id missing)
          | inr (v, found) ↦ ground (
            arith,
            found,
            overlay-hit log m id v (λ w i. ground (arith, functional id w i, found))
                (inr (lookup-In id v log found)),
          )
        ],
      )
