-- ===== src/HttpApi.antt =====
-- backend/internal/httpapi/handler.go: the requests about documents, as functions of the database.
pub mod Documents
use yata_collaborative_edito.Base.{
  ℕ, Bool, true, false, not, Option, none, some, List, [], Text, codes, text_eq, is_empty,
  if◌then◌else◌,
}
use yata_collaborative_edito.Protocol.Messages.{Bytes}
use yata_collaborative_edito.Catalog.{
  CatalogError, err_no_rows, Result, returned, raised, create_document, rename_document,
  list_documents, get_document_by_id,
}
use yata_collaborative_edito.Catalog.Tables.{DocumentMetadata, Sql}

-- What http.Error is given
pub data Problem : Type 0 where
  -- an error of encoding/json
  json_problem : Problem
  -- "name cannot be empty"
  empty_name : Problem
  -- "method not allowed"
  wrong_method : Problem
  -- "could not create the document"
  not_created : Problem
  -- an error of crypto/rand
  no_random : Problem
  -- an error of the catalog
  catalog_problem : CatalogError → Problem

-- A response: its status, with the JSON that is written or the text of an error
pub data Response : Type 0 where
  wrote : (status : ℕ) → Bytes → Response
  http_error : (status : ℕ) → Problem → Response

abbrev pub status : Response → ℕ
status (wrote code _) = code
status (http_error code _) = code

-- encoding/json at the types of the requests and answers: `Decode` of a Value gives its name
pub record ApiJson (Time : Type 0) : Type 0 where
  pub decode_value : Bytes → Option Text
  pub marshal_document : DocumentMetadata Time → Option Bytes
  pub marshal_documents : List (DocumentMetadata Time) → Option Bytes

module _ {Time : Type 0} (sql : Sql Time) (json : ApiJson Time) where
  open sql use {Database}

  -- The case of GET
  unfoldable pub get_documents : Database → Response
  get_documents db = elim (list_documents sql db) [
    | raised e ↦ http_error 500 (catalog_problem e)
    | returned list ↦ elim (json.marshal_documents list) [
      | none ↦ http_error 500 json_problem
      | some documents ↦ wrote 200 documents
    ]
  ]

  -- The case of POST, with what time.Now and generateUUID give
  unfoldable pub post_document :
      Database → (now later : Time) → (uuid : Option Text) → (body : Bytes) → Database × Response
  post_document db now later uuid body = elim (json.decode_value body) [
    | none ↦ (db, http_error 400 json_problem)
    | some name ↦ if is_empty name then (db, http_error 400 empty_name) else elim uuid [
      | none ↦ (db, http_error 500 no_random)
      | some id ↦
          let (db', created) = create_document sql db now later id name in
          elim created [
            | raised _ ↦ (db', http_error 500 not_created)
            | returned document ↦ elim (json.marshal_document document) [
              | none ↦ (db', http_error 500 not_created)
              | some data_bytes ↦ (db', wrote 201 data_bytes)
            ]
          ]
    ]
  ]

  -- documents
  unfoldable pub documents :
      Database
      → (now later : Time) → (uuid : Option Text) → (method : Text) → (body : Bytes)
      → Database × Response
  documents db now later uuid method body =
      if text_eq method (codes "GET")
      then (db, get_documents db)
      else if text_eq method (codes "POST")
      then post_document db now later uuid body
      else (db, http_error 405 wrong_method)

  -- The end of patchDocument, after the renaming
  unfoldable pub renamed_document : Database → (id : Text) → Response
  renamed_document db id = elim (get_document_by_id sql db id) [
    | raised CatalogError.err_no_rows ↦ http_error 404 (catalog_problem err_no_rows)
    | raised e ↦ http_error 500 (catalog_problem e)
    | returned document ↦ elim (json.marshal_document document) [
      | none ↦ http_error 500 json_problem
      | some data_bytes ↦ wrote 200 data_bytes
    ]
  ]

  -- patchDocument
  unfoldable pub patch_document :
      Database → (now : Time) → (method id : Text) → (body : Bytes) → Database × Response
  patch_document db now method id body =
      if not (text_eq method (codes "PATCH"))
      then (db, http_error 405 wrong_method)
      else elim (json.decode_value body) [
        | none ↦ (db, http_error 400 json_problem)
        | some name ↦
            if is_empty name
            then (db, http_error 400 empty_name)
            else (let (db', error) = rename_document sql db now id name in
                elim error [
                  | some e ↦ (db', http_error 500 (catalog_problem e))
                  | none ↦ (db', renamed_document db' id)
                ])
      ]
