-- ===== src/HttpApi/Documents.antt =====
-- What the requests do to the documents, and an answer that none of them gives.
use yata_collaborative_edito.Base.{
  ℕ, true, false, Option, none, some, List, ◌≡◌, ◌≢◌, ◌∙◌, ◌⊎◌, ◌↔◌, refl, ap, inl, inr, arith,
  if◌then◌else◌, ◌==◌, Text, codes, text_eq, text_eq_iff, is_empty, In, Bool-cases, Option-cases,
}
use yata_collaborative_edito.Protocol.Messages.{Bytes}
use yata_collaborative_edito.Catalog.{
  create_document, rename_document, list_documents, get_document_by_id,
}
use yata_collaborative_edito.Catalog.Tables.{
  DocumentMetadata, Sql, SqlLaws, Row, found, no_rows, query_failed, count,
}
use yata_collaborative_edito.HttpApi.{
  json_problem, not_created, Response, wrote, http_error, status, ApiJson, post_document,
  get_documents, documents, renamed_document, patch_document,
}

Row-cases :
    {A : Type 0} (r : Row A) → (r ≡ no_rows) ⊎ ((r ≡ query_failed) ⊎ ((a : A) × (r ≡ found a)))
Row-cases no_rows = inl refl
Row-cases query_failed = inr (inl refl)
Row-cases (found a) = inr (inr (a, refl))

is_patch : text_eq (codes "PATCH") (codes "PATCH") ≡ true
unfolding text_eq
is_patch = refl

is_get : text_eq (codes "GET") (codes "GET") ≡ true
unfolding text_eq
is_get = refl

is_post :
    (text_eq (codes "POST") (codes "GET") ≡ false) × (text_eq (codes "POST") (codes "POST") ≡ true)
unfolding text_eq
is_post = (refl, refl)

module _ {Time : Type 0} (sql : Sql Time) (laws : SqlLaws sql) (json : ApiJson Time) where
  open sql use {Database, insert_row, update_rows, all_rows, row_of, kept}

  -- The answer to a request whose document is `m`
  abbrev pub answer : (code : ℕ) → Option Bytes → Response
  answer code none = http_error 500 json_problem
  answer code (some data_bytes) = wrote code data_bytes

  -- A PATCH with a name, of a document that is there, where the update returns no error: the name
  -- and the time of the document change and nothing else in the table; the answer has status 200
  -- and the changed document, unless that cannot be encoded.
  pub patch_renames :
      (db db' : Database) (now : Time) (id name : Text) (body : Bytes) (n : ℕ)
      (m : DocumentMetadata Time)
      → row_of db id ≡ found m
      → json.decode_value body ≡ some name
      → is_empty name ≡ false
      → update_rows db name now id ≡ some (db', some n)
      → (patch_document sql json db now (codes "PATCH") id body ≡ (
        db',
        answer 200 (json.marshal_document (record m { name = name; updated_at = kept now })),
      ))
        × ((other : Text)
            → row_of db' other ≡ (
                if text_eq id other
                then found (record m { name = name; updated_at = kept now })
                else row_of db other))
  unfolding patch_document rename_document renamed_document get_document_by_id
  patch_renames db db' now id name body n m there decoded filled updated = (
    ground (
      arith,
      is_patch,
      there,
      decoded,
      filled,
      updated,
      laws.update_count db db' name now id n updated,
      laws.row-update db db' name now id id (some n) updated,
      text_eq_iff id id,
    ),
    λ other. ground (
      arith,
      there,
      laws.row-update db db' name now id other (some n) updated,
      text_eq_iff id other,
    ),
  )

  -- A PATCH with a name of a document that is not there has status 500, and changes no document.
  pub patch_unknown :
      (db : Database) (now : Time) (id name : Text) (body : Bytes)
      → row_of db id ≡ no_rows
      → json.decode_value body ≡ some name
      → is_empty name ≡ false
      → (status (patch_document sql json db now (codes "PATCH") id body).1 ≡ 500)
        × ((other : Text)
            → row_of (patch_document sql json db now (codes "PATCH") id body).0 other
              ≡ row_of db other)
  unfolding patch_document rename_document
  patch_unknown db now id name body missing decoded filled =
      let patched = patch_document sql json db now (codes "PATCH") id body in
      elim (Option-cases (update_rows db name now id)) [
        | inl e ↦
            let same : patched.0 ≡ db = ground (arith, is_patch, decoded, filled, e) in
            (ground (arith, is_patch, decoded, filled, e), λ other. ap (λ x. row_of x other) same)
        | inr ((db', none), e) ↦
            let left : patched.0 ≡ db' = ground (arith, is_patch, decoded, filled, e) in
            (
              ground (arith, is_patch, decoded, filled, e),
              λ other.
                  ap (λ x. row_of x other) left
                  ∙ ground (
                    arith,
                    laws.row-update db db' name now id other none e,
                    text_eq_iff id other,
                    missing,
                  ),
            )
        | inr ((db', some n), e) ↦
            let counted = laws.update_count db db' name now id n e in
            let left : patched.0 ≡ db' =
              ground (arith, is_patch, decoded, filled, e, counted, missing) in
            (
              ground (arith, is_patch, decoded, filled, e, counted, missing),
              λ other.
                  ap (λ x. row_of x other) left
                  ∙ ground (
                    arith,
                    laws.row-update db db' name now id other (some n) e,
                    text_eq_iff id other,
                    missing,
                  ),
            )
      ]

  -- A document that has been renamed is there.
  renamed_is_found :
      (db db' : Database) (now : Time) (id name : Text) (n : ℕ)
      → update_rows db name now id ≡ some (db', some n)
      → (n == 1) ≡ true
      → status (renamed_document sql json db' id) ≢ 404
  unfolding renamed_document get_document_by_id
  renamed_is_found db db' now id name n updated one =
      let counted = laws.update_count db db' name now id n updated in
      let after = laws.row-update db db' name now id id (some n) updated in
      elim (Row-cases (row_of db id)) [
        | inl e ↦ absurd (ground (arith, e, counted, one))
        | inr (inl e) ↦ absurd (ground (arith, e, counted, one))
        | inr (inr (m, e)) ↦ ground (arith, e, after, text_eq_iff id id)
      ]

  -- No PATCH is answered with status 404.
  pub patch_never_404 :
      (db : Database) (now : Time) (method id : Text) (body : Bytes)
      → status (patch_document sql json db now method id body).1 ≢ 404
  unfolding patch_document rename_document
  patch_never_404 db now method id body = elim (Option-cases (json.decode_value body)) [
    | inl d ↦ ground (arith, d)
    | inr (name, d) ↦ elim (Option-cases (update_rows db name now id)) [
      | inl e ↦ ground (arith, d, e)
      | inr ((db', none), e) ↦ ground (arith, d, e)
      | inr ((db', some n), e) ↦ elim (Bool-cases (n == 1)) [
        | inl one ↦ ground (arith, d, e, one, renamed_is_found db db' now id name n e one)
        | inr other ↦ ground (arith, d, e, other)
      ]
    ]
  ]

  -- The answer to a POST whose document is `m`
  abbrev pub created_answer : DocumentMetadata Time → Response
  created_answer m = elim (json.marshal_document m) [
    | none ↦ http_error 500 not_created
    | some data_bytes ↦ wrote 201 data_bytes
  ]

  -- A POST with a name, where the insertion returns no error, is answered with status 201 and the
  -- document, or with 500 if that cannot be encoded. A GET after it, where the table can be read,
  -- changes nothing and is answered with status 200 and a list that has the new document, under the
  -- fresh identifier, and those of before, and no others, or with 500 if the list cannot be encoded.
  pub post_creates :
      (db db' : Database) (now later then_now then_later : Time) (id name : Text)
      (uuid : Option Text) (body get_body : Bytes) (rows : List (DocumentMetadata Time))
      → json.decode_value body ≡ some name
      → is_empty name ≡ false
      → insert_row db
          (record { document_id = id; name = name; created_at = now; updated_at = later })
        ≡ some db'
      → all_rows db' ≡ some rows
      → (documents sql json db now later (some id) (codes "POST") body ≡ (
        db',
        created_answer
            (record { document_id = id; name = name; created_at = now; updated_at = later }),
      ))
        × (documents sql json db' then_now then_later uuid (codes "GET") get_body
            ≡ (db', answer 200 (json.marshal_documents rows)))
        × ((m : DocumentMetadata Time)
            → In m rows ↔ (
                (m ≡ record {
                  document_id = id;
                  name = name;
                  created_at = kept now;
                  updated_at = kept later;
                })
                ⊎ (row_of db m.document_id ≡ found m)))
  unfolding documents post_document create_document list_documents get_documents
  post_creates db db' now later then_now then_later id name uuid body get_body rows decoded filled
        inserted read =
      let created : DocumentMetadata Time = record {
        document_id = id;
        name = name;
        created_at = now;
        updated_at = later;
      } in
      (
        ground (arith, is_post.0, is_post.1, decoded, filled, inserted),
        ground (arith, is_get, read),
        λ m.
            let listed_iff = laws.all_rows_iff db' rows m read in
            let after = laws.row-insert db db' created m.document_id inserted in
            elim (Bool-cases (text_eq id m.document_id)) [
              | inl same ↦
                  let fresh : count (row_of db m.document_id) ≡ 0 = ground (
                    arith,
                    same,
                    text_eq_iff id m.document_id,
                    laws.insert_fresh db db' created inserted,
                  ) in
                  ground (arith, same, listed_iff, after, fresh, text_eq_iff id m.document_id)
              | inr differs ↦
                  ground (arith, differs, listed_iff, after, text_eq_iff id m.document_id)
            ],
      )
