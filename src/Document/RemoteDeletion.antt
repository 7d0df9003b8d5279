-- ===== src/Document/RemoteDeletion.antt =====
-- RemoteDelete.
use mathlib.Core.Path.{subst, ap₂}
use yata_collaborative_edito.Base.{
  ◌≡◌, ◌≢◌, ◌∙◌, refl, sym, ap, true, false, some, inl, inr, List, [], ◌∷◌, ◌++◌, arith, ◌==◌,
  Bool-cases, ==_iff, ◌-ℤ◌, lookup, insert, insert-insert_same, ok, panic, lookup-insert_self,
}
use yata_collaborative_edito.Identifier.{ElementId, id_Eq}
use yata_collaborative_edito.Document.{
  Ptr, null, set_deleted, Document, zero_id, start_id, element_at,
}
use yata_collaborative_edito.Document.Traversal.{visible_content}
use yata_collaborative_edito.Document.Update.{integrate_deletion, remote_delete}
use yata_collaborative_edito.Document.Valid.{visible, IsValid, element_at-node}
use yata_collaborative_edito.Document.Positions.{start_used}
use yata_collaborative_edito.Document.Marking.{
  set_deleted_self, marked, marked-visible, marked-IsValid, middle_used, log-IsValid, middle_has,
}

pub element_at-map :
    (d e : Document) (id : ElementId)
    → e.elements_by_id ≡ d.elements_by_id
    → element_at e id ≡ element_at d id
unfolding element_at
element_at-map d e id h = rw (h, element_at)

-- A deletion that waits for its element.
abbrev waiting : Document → ElementId → Document
waiting d id = record d {
  pending_deletes =
      insert id (record { new_id = id; origin_id = zero_id; right_id = zero_id; content = 0 })
        d.pending_deletes;
  delete_log = insert id (record { target_id = id }) d.delete_log;
}

-- A deletion that has been carried out.
abbrev pub logged : Document → Ptr → Document
logged d p =
    let id = (d.memory p).element_id in
    record (marked d p) { delete_log = insert id (record { target_id = id }) d.delete_log }

module _ (d : Document) (id : ElementId) where
  pub remote_delete-waiting : element_at d id ≡ null → remote_delete d id ≡ ok (waiting d id)
  unfolding remote_delete
  remote_delete-waiting e = rw e

  pub remote_delete-deleted :
      element_at d id ≢ null
      → (d.memory (element_at d id)).is_deleted ≡ true
      → remote_delete d id ≡ ok d
  unfolding remote_delete
  remote_delete-deleted e dead = ground arith

  pub remote_delete-logged :
      element_at d id ≢ null
      → (d.memory (element_at d id)).is_deleted ≡ false
      → remote_delete d id ≡ ok (logged d (element_at d id))
  unfolding remote_delete integrate_deletion
  remote_delete-logged e live = ground arith

ok-injective : {a b : Document} → ok a ≡ ok b → a ≡ b
ok-injective h = cc

abbrev Again : ElementId → Document → Type 0
Again id a = remote_delete a id ≡ ok a

waiting-Again : (d : Document) (id : ElementId) → element_at d id ≡ null → Again id (waiting d id)
waiting-Again d id e =
    remote_delete-waiting (waiting d id) id (element_at-map d (waiting d id) id refl ∙ e)
    ∙ ap₂
        (λ deletes log. ok (record (waiting d id) { pending_deletes = deletes; delete_log = log }))
        (insert-insert_same id
          (record { new_id = id; origin_id = zero_id; right_id = zero_id; content = 0 })
          d.pending_deletes)
        (insert-insert_same id (record { target_id = id }) d.delete_log)

logged-Again :
    (d : Document) (id : ElementId) → element_at d id ≢ null → Again id (logged d (element_at d id))
logged-Again d id e =
    let at = element_at-map d (logged d (element_at d id)) id refl in
    remote_delete-deleted (logged d (element_at d id)) id (λ h. e (sym at ∙ h))
      (subst (λ q. (set_deleted d.memory (element_at d id) q).is_deleted ≡ true) (sym at)
        (set_deleted_self d.memory (element_at d id)))

-- Whatever the document, a remote deletion that is received again changes nothing more.
pub remote_delete_idempotent :
    (d a : Document) (id : ElementId) → remote_delete d id ≡ ok a → remote_delete a id ≡ ok a
remote_delete_idempotent d a id h = elim (Bool-cases (element_at d id == null)) [
  | inl missing ↦
      let e = (==_iff (element_at d id) null).0 missing in
      subst (Again id) (ok-injective (sym (remote_delete-waiting d id e) ∙ h))
        (waiting-Again d id e)
  | inr found ↦
      let e : element_at d id ≢ null = ground arith in
      elim (Bool-cases (d.memory (element_at d id)).is_deleted) [
        | inl dead ↦
            subst (Again id) (ok-injective (sym (remote_delete-deleted d id e dead) ∙ h))
              (remote_delete-deleted d id e dead)
        | inr live ↦
            subst (Again id) (ok-injective (sym (remote_delete-logged d id e live) ∙ h))
              (logged-Again d id e)
      ]
]

-- What a remote deletion of an element of the list leaves.
pub record RemoteDeleted (d : Document) (xs : List Ptr) (p : Ptr) (zs : List Ptr) : Type 0 where
  pub after : Document
  pub runs : remote_delete d (d.memory p).element_id ≡ ok after
  pub valid : IsValid after (xs ++ p ∷ zs)
  pub shows : visible after.memory (xs ++ p ∷ zs) ≡ visible d.memory xs ++ visible d.memory zs
  pub logs :
      lookup (d.memory p).element_id after.delete_log
      ≡ some (record { target_id = (d.memory p).element_id })

-- A remote deletion of an element that stands in the list of a valid document and is not deleted
-- runs, leaves a valid document with the same list, hides exactly that element, and is logged.
pub remote_delete-RemoteDeleted :
    {d : Document} (xs : List Ptr) (p : Ptr) (zs : List Ptr)
    → IsValid d (xs ++ p ∷ zs)
    → (d.memory p).is_deleted ≡ false
    → RemoteDeleted d xs p zs
remote_delete-RemoteDeleted {d} xs p zs v live =
    let id = (d.memory p).element_id in
    let at = element_at-node p v (middle_has xs zs p v live) in
    let used = middle_used xs zs p v live in
    record {
      after = logged d p;
      runs =
          remote_delete-logged d id (λ e. absurd (ground arith))
            (subst (λ q. (d.memory q).is_deleted ≡ false) (sym at) live)
          ∙ ap (λ q. ok (logged d q)) at;
      valid =
          log-IsValid (insert id (record { target_id = id }) d.delete_log)
            (marked-IsValid xs zs p v live);
      shows = marked-visible xs zs p v live;
      logs = lookup-insert_self id (record { target_id = id }) d.delete_log;
    }

-- The sentinels are not guarded: where a valid document shows nothing and its start sentinel is
-- not deleted, the remote deletion of the start sentinel is carried out, and reading the content
-- of the document that it leaves panics.
pub remote_delete_start :
    {d : Document} {cs : List Ptr}
    → IsValid d cs
    → (d.memory d.start).is_deleted ≡ false
    → visible d.memory cs ≡ []
    → (after : Document) × (remote_delete d start_id ≡ ok after) × (visible_content after ≡ panic)
unfolding visible_content ◌-ℤ◌
remote_delete_start {d} {cs} v live blank =
    let at : element_at d start_id ≡ d.start =
      ap (element_at d) (sym v.start_named) ∙ element_at-node d.start v (ground arith) in
    let used = start_used v in
    (
      logged d d.start,
      remote_delete-logged d start_id (λ e. absurd (ground arith))
            (subst (λ q. (d.memory q).is_deleted ≡ false) (sym at) live)
          ∙ ap (λ q. ok (logged d q)) at,
      ground (arith, v.counter),
    )
