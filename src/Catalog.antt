-- ===== src/Catalog.antt =====
-- backend/internal/catalog/catalog.go: the names of the documents. A store is its database.
pub mod Tables
use yata_collaborative_edito.Base.{
  ℕ, Bool, true, false, Option, none, some, List, [], Text, ◌==◌, if◌then◌else◌,
}
use Tables.{DocumentMetadata, Row, found, no_rows, query_failed, Sql}

pub data CatalogError : Type 0 where
  -- an error of database/sql
  sql_error : CatalogError
  -- sql.ErrNoRows
  err_no_rows : CatalogError
  -- "The operation affected a different amount of rows than expected"
  unexpected_rows : CatalogError

pub data Result (A : Type 0) : Type 0 where
  returned : A → Result A
  raised : CatalogError → Result A

module _ {Time : Type 0} (sql : Sql Time) where
  open sql use {Database, insert_row, update_rows, all_rows, row_of}

  -- CreateDocument; the arguments are what the two calls of time.Now give
  unfoldable pub create_document :
      Database → (now later : Time) → (id name : Text) → Database × Result (DocumentMetadata Time)
  create_document db now later id name =
      let document : DocumentMetadata Time = record {
        document_id = id;
        name = name;
        created_at = now;
        updated_at = later;
      } in
      elim (insert_row db document) [
        | none ↦ (db, raised sql_error)
        | some db' ↦ (db', returned document)
      ]

  -- RenameDocument; `none` is a nil error
  unfoldable pub rename_document :
      Database → (now : Time) → (id name : Text) → Database × Option CatalogError
  rename_document db now id name = elim (update_rows db name now id) [
    | none ↦ (db, some sql_error)
    | some (db', none) ↦ (db', some sql_error)
    | some (db', some rows) ↦ if rows == 1 then (db', none) else (db', some unexpected_rows)
  ]

  -- ListDocuments
  unfoldable pub list_documents : Database → Result (List (DocumentMetadata Time))
  list_documents db = elim (all_rows db) [ none ↦ raised sql_error | some rows ↦ returned rows ]

  -- GetDocumentByID
  unfoldable pub get_document_by_id : Database → Text → Result (DocumentMetadata Time)
  get_document_by_id db id = elim (row_of db id) [
    | found document ↦ returned document
    | no_rows ↦ raised err_no_rows
    | query_failed ↦ raised sql_error
  ]
