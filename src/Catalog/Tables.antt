-- ===== src/Catalog/Tables.antt =====
-- database/sql with modernc.org/sqlite as a parameter: what the statements of
-- backend/internal/catalog/catalog.go answer on its one table, and what the code relies on.
use yata_collaborative_edito.Base.{
  ℕ, Option, some, List, ◌≡◌, ◌↔◌, Text, text_eq, if◌then◌else◌, In,
}

-- type DocumentMetadata struct, over Go's time.Time
pub record DocumentMetadata (Time : Type 0) : Type 0 where
  pub document_id : Text
  pub name : Text
  pub created_at : Time
  pub updated_at : Time

-- QueryRow and Scan
pub data Row (A : Type 0) : Type 0 where
  found : A → Row A
  -- sql.ErrNoRows
  no_rows : Row A
  -- any other error
  query_failed : Row A

pub record Sql (Time : Type 0) : Type 1 where
  pub Database : Type 0
  -- INSERT INTO documents; `none` is an error
  pub insert_row : Database → DocumentMetadata Time → Option Database
  -- UPDATE documents SET name, updated_at WHERE document_id; `none` is an error of Exec. Inside is
  -- what RowsAffected then gives; `none` is an error of it.
  pub update_rows :
      Database → (name : Text) → (updated_at : Time) → (id : Text) → Option (Database × Option ℕ)
  -- SELECT of all, and Scan of each row; `none` is an error
  pub all_rows : Database → Option (List (DocumentMetadata Time))
  -- SELECT WHERE document_id
  pub row_of : Database → Text → Row (DocumentMetadata Time)
  -- what a column gives back for a time that was written to it
  pub kept : Time → Time

abbrev pub as_read : {Time : Type 0} → (Time → Time) → DocumentMetadata Time → DocumentMetadata Time
as_read kept m = record m { created_at = kept m.created_at; updated_at = kept m.updated_at }

abbrev pub renamed_row :
    {Time : Type 0} → Text → Time → Row (DocumentMetadata Time) → Row (DocumentMetadata Time)
renamed_row name t (found m) = found (record m { name = name; updated_at = t })
renamed_row name t no_rows = no_rows
renamed_row name t query_failed = query_failed

abbrev pub count : {A : Type 0} → Row A → ℕ
count (found _) = 1
count no_rows = 0
count query_failed = 0

module _ {Time : Type 0} (sql : Sql Time) where
  open sql use {Database, insert_row, update_rows, all_rows, row_of, kept}

  -- What SQL says of statements that return no error, on a table whose primary key is document_id.
  pub record SqlLaws : Type 0 where
    pub insert_fresh :
        (db db' : Database) (m : DocumentMetadata Time)
        → insert_row db m ≡ some db'
        → count (row_of db m.document_id) ≡ 0
    pub row-insert :
        (db db' : Database) (m : DocumentMetadata Time) (id : Text)
        → insert_row db m ≡ some db'
        → row_of db' id
          ≡ (if text_eq m.document_id id then found (as_read kept m) else row_of db id)
    pub row-update :
        (db db' : Database) (name : Text) (t : Time) (id other : Text) (n : Option ℕ)
        → update_rows db name t id ≡ some (db', n)
        → row_of db' other ≡ (
            if text_eq id other
            then renamed_row name (kept t) (row_of db other)
            else row_of db other)
    pub update_count :
        (db db' : Database) (name : Text) (t : Time) (id : Text) (n : ℕ)
        → update_rows db name t id ≡ some (db', some n)
        → n ≡ count (row_of db id)
    pub all_rows_iff :
        (db : Database) (rows : List (DocumentMetadata Time)) (m : DocumentMetadata Time)
        → all_rows db ≡ some rows
        → In m rows ↔ (row_of db m.document_id ≡ found m)
