-- ===== src/Examples/Catalog.antt =====
-- The theorems on the requests at a table of one document, over a concrete database.
use mathlib.Core.Path.{subst}
use yata_collaborative_edito.Base.{
  ℕ, Option, none, some, List, [], ◌∷◌, ◌++◌, ◌≡◌, ◌∙◌, ◌⊎◌, ◌↔◌, refl, sym, ap, inl, inr, arith,
  if◌then◌else◌, Text, codes, text_eq, text_eq_iff, text_Eq, Map, lookup, insert, delete,
  lookup-insert, In, Option-cases,
}
use yata_collaborative_edito.Storage.Overlay.{lookup-In}
use yata_collaborative_edito.Catalog.Tables.{DocumentMetadata, Sql, SqlLaws, Row, found, no_rows}
use yata_collaborative_edito.HttpApi.{ApiJson, status, documents, patch_document}
use yata_collaborative_edito.HttpApi.Documents.{
  answer, created_answer, patch_renames, patch_unknown, post_creates,
}
use yata_collaborative_edito.Examples.Buckets.{once, once-In, lookup-once}

-- A name and two times for each identifier; a time is a number.
abbrev Table : Type 0
Table = Map Text (Text × ℕ × ℕ)

abbrev document_of : Text → Text × ℕ × ℕ → DocumentMetadata ℕ
document_of id (name, created, updated) = record {
  document_id = id;
  name = name;
  created_at = created;
  updated_at = updated;
}

abbrev row : Text → Option (Text × ℕ × ℕ) → Row (DocumentMetadata ℕ)
row id none = no_rows
row id (some v) = found (document_of id v)

unfoldable rows_of : Table → List (DocumentMetadata ℕ)
rows_of [] = []
rows_of ((id, v) ∷ t) = document_of id v ∷ rows_of t

unfoldable put_new : Table → DocumentMetadata ℕ → Option Table
put_new t m = elim (lookup m.document_id t) [
  | some _ ↦ none
  | none ↦ some (insert m.document_id (m.name, m.created_at, m.updated_at) t)
]

unfoldable change : Table → Text → ℕ → Text → Option (Table × Option ℕ)
change t name time id = elim (lookup id t) [
  | none ↦ some (t, some 0)
  | some (_, created, _) ↦ some (insert id (name, created, time) t, some 1)
]

abbrev tables : Sql ℕ
tables = record {
  Database = Table;
  insert_row = put_new;
  update_rows = change;
  all_rows = λ t. some (rows_of (once t));
  row_of = λ t id. row id (lookup id t);
  kept = λ t. t;
}

abbrev entry_of : DocumentMetadata ℕ → Text × (Text × ℕ × ℕ)
entry_of m = (m.document_id, (m.name, m.created_at, m.updated_at))

In-rows_of : (t : Table) (m : DocumentMetadata ℕ) → In m (rows_of t) ↔ In (entry_of m) t
unfolding rows_of
In-rows_of [] m = ground arith
In-rows_of ((id, v) ∷ t) m =
    let (there, back) = In-rows_of t m in
    (
      λ i. elim i [ inl e ↦ inl (ap entry_of e) | inr later ↦ inr (there later) ],
      λ i. elim i [
        | inl e ↦ inl (ap (λ (x : Text × (Text × ℕ × ℕ)). document_of x.0 x.1) e)
        | inr later ↦ inr (back later)
      ],
    )

row_found :
    (t : Table) (m : DocumentMetadata ℕ)
    → lookup m.document_id t ≡ some ((entry_of m).1)
    → row m.document_id (lookup m.document_id t) ≡ found m
row_found t m e = ap (row m.document_id) e

found_row :
    (t : Table) (m : DocumentMetadata ℕ)
    → row m.document_id (lookup m.document_id t) ≡ found m
    → lookup m.document_id t ≡ some ((entry_of m).1)
found_row t m e = elim (Option-cases (lookup m.document_id t)) [
  | inl n ↦ absurd (ground (arith, n, e))
  | inr ((name, created, updated), h) ↦ ground (arith, h, e)
]

tables-laws : SqlLaws tables
unfolding put_new change
tables-laws = record {
  insert_fresh = λ t u m e. ground (arith, e);
  row-insert = λ t u m id e. ground (
    arith,
    e,
    lookup-insert m.document_id id (m.name, m.created_at, m.updated_at) t,
    text_eq_iff m.document_id id,
  );
  row-update = λ t u name time id other n e. elim (Option-cases (lookup id t)) [
    | inl missing ↦ ground (arith, e, missing, text_eq_iff id other)
    | inr ((old, created, updated), there) ↦
        ground
          (arith, e, there, lookup-insert id other (name, created, time) t, text_eq_iff id other)
  ];
  update_count = λ t u name time id n e. ground (arith, e);
  all_rows_iff = λ t rows m e.
      let same : rows ≡ rows_of (once t) = ground (arith, e) in
      let (there, back) = In-rows_of (once t) m in
      (
        λ i. row_found t m (once-In m.document_id _ t (there (subst (In m) same i))),
        λ h. subst (In m) (sym same) (
            back
              (lookup-In m.document_id _ (once t) (lookup-once m.document_id t ∙ found_row t m h))),
      );
}

unfoldable name_list : List (DocumentMetadata ℕ) → Text
name_list [] = []
name_list (m ∷ ms) = m.document_id ++ name_list ms

-- A body is a name; an answer is the identifiers.
abbrev names : ApiJson ℕ
names = record {
  decode_value = λ b. some b;
  marshal_document = λ m. some m.document_id;
  marshal_documents = λ ms. some (name_list ms);
}

abbrev notes : Text
notes = codes "notes"

abbrev one_document : Table
one_document = (codes "a", (notes, 1, 1)) ∷ []

abbrev draft : Text
draft = codes "draft"

notes_there : tables.row_of one_document (codes "a") ≡ found (document_of (codes "a") (notes, 1, 1))
unfolding lookup text_eq
notes_there = refl

renamed_update :
    tables.update_rows one_document draft 5 (codes "a")
    ≡ some ((codes "a", (draft, 1, 5)) ∷ [], some 1)
unfolding change lookup insert text_eq
renamed_update = refl

patch_renames_example :
    (patch_document tables names one_document 5 (codes "PATCH") (codes "a") draft
      ≡ ((codes "a", (draft, 1, 5)) ∷ [], answer tables tables-laws names 200 (some (codes "a"))))
    × ((other : Text)
        → tables.row_of ((codes "a", (draft, 1, 5)) ∷ []) other ≡ (
            if text_eq (codes "a") other
            then found (document_of (codes "a") (draft, 1, 5))
            else tables.row_of one_document other))
patch_renames_example =
    patch_renames tables tables-laws names one_document ((codes "a", (draft, 1, 5)) ∷ []) 5
      (codes "a") draft draft 1 (document_of (codes "a") (notes, 1, 1)) notes_there refl refl
      renamed_update

b_missing : tables.row_of one_document (codes "b") ≡ no_rows
unfolding lookup text_eq
b_missing = refl

patch_unknown_example :
    (status (patch_document tables names one_document 5 (codes "PATCH") (codes "b") draft).1 ≡ 500)
    × ((other : Text)
        → tables.row_of
            (patch_document tables names one_document 5 (codes "PATCH") (codes "b") draft).0
            other
          ≡ tables.row_of one_document other)
patch_unknown_example =
    patch_unknown tables tables-laws names one_document 5 (codes "b") draft draft b_missing refl
      refl

abbrev draft_row : DocumentMetadata ℕ
draft_row = document_of (codes "b") (draft, 5, 6)

draft_inserted :
    tables.insert_row one_document draft_row
    ≡ some ((codes "a", (notes, 1, 1)) ∷ (codes "b", (draft, 5, 6)) ∷ [])
unfolding put_new lookup insert text_eq
draft_inserted = refl

abbrev both_rows : List (DocumentMetadata ℕ)
both_rows = document_of (codes "a") (notes, 1, 1) ∷ draft_row ∷ []

both_listed :
    tables.all_rows ((codes "a", (notes, 1, 1)) ∷ (codes "b", (draft, 5, 6)) ∷ []) ≡ some both_rows
unfolding rows_of once delete text_eq
both_listed = refl

abbrev two_documents : Table
two_documents = (codes "a", (notes, 1, 1)) ∷ (codes "b", (draft, 5, 6)) ∷ []

post_creates_example :
    (documents tables names one_document 5 6 (some (codes "b")) (codes "POST") draft
      ≡ (two_documents, created_answer tables tables-laws names draft_row))
    × (documents tables names two_documents 7 8 none (codes "GET") []
        ≡ (two_documents, answer tables tables-laws names 200 (names.marshal_documents both_rows)))
    × ((m : DocumentMetadata ℕ)
        → In m both_rows ↔ ((m ≡ draft_row) ⊎ (tables.row_of one_document m.document_id ≡ found m)))
post_creates_example =
    post_creates tables tables-laws names one_document two_documents 5 6 7 8 (codes "b") draft none
      draft [] both_rows refl refl draft_inserted both_listed
