-- ===== src/Document/Deletion.antt =====
-- Delete: a local deletion.
use mathlib.Core.Path.{subst}
use yata_collaborative_edito.Base.{
  ℕ, zero, suc, ◌+◌, ◌<◌, ◌≤◌, ◌≡◌, ◌∙◌, refl, sym, ap, true, false, some, inl, inr, List, [], ◌∷◌,
  ◌++◌, arith, Bool-cases, length, remove_at, pos, eq_ℤ, eq_ℤ_iff, lookup, lookup-insert_self,
  insert, ok,
}
use yata_collaborative_edito.Identifier.{ElementId, id_Eq}
use yata_collaborative_edito.Document.{
  Ptr, Memory, set_deleted, Document, returned, raised, no_character,
}
use yata_collaborative_edito.Document.Traversal.{element_loop, find_visible_element}
use yata_collaborative_edito.Document.Update.{delete_element}
use yata_collaborative_edito.Document.Chain.{Linked}
use yata_collaborative_edito.Document.Valid.{visible, IsValid}
use yata_collaborative_edito.Document.Positions.{NonNull, non_null, start_used}
use yata_collaborative_edito.Document.Marking.{
  marked, marked-shows, marked-IsValid, middle_used, log-IsValid,
}

-- The visible element number `i`, counted from `n`.
pub record Hit (m : Memory) (cs : List Ptr) (n i : ℕ) : Type 0 where
  pub before : List Ptr
  pub element : Ptr
  pub after : List Ptr
  pub joined : cs ≡ before ++ element ∷ after
  pub live : (m element).is_deleted ≡ false
  pub count : length (visible m before) + n ≡ i

module _ (m : Memory) (fuel i n : ℕ) (c : Ptr) (used : 0 < c) where
  step_deleted :
      (m c).is_deleted ≡ true
      → element_loop m (suc fuel) (pos i) c n ≡ element_loop m fuel (pos i) (m c).right n
  unfolding element_loop
  step_deleted dead = ground arith

  step_visible :
      (m c).is_deleted ≡ false
      → eq_ℤ (pos n) (pos i) ≡ false
      → element_loop m (suc fuel) (pos i) c n ≡ element_loop m fuel (pos i) (m c).right (n + 1)
  unfolding element_loop
  step_visible shown further = ground arith

  step_found :
      (m c).is_deleted ≡ false
      → eq_ℤ (pos n) (pos i) ≡ true
      → element_loop m (suc fuel) (pos i) c n ≡ ok (some c)
  unfolding element_loop
  step_found shown here = ground arith

module _ (m : Memory) (end i : ℕ) where
  element_loop-Hit :
      (a : Ptr) (cs : List Ptr) (fuel n : ℕ)
      → Linked m a (cs ++ end ∷ [])
      → NonNull (cs ++ end ∷ [])
      → length cs < fuel
      → n ≤ i
      → i < n + length (visible m cs)
      → (h : Hit m cs n i) × (element_loop m fuel (pos i) (m a).right n ≡ ok (some h.element))
  element_loop-Hit a cs zero n s nn h low high = absurd (omega arith)
  element_loop-Hit a [] (suc fuel) n s nn h low high = absurd (omega arith)
  element_loop-Hit a (c ∷ cs) (suc fuel) n s nn h low high = elim (Bool-cases (m c).is_deleted) [
    | inl dead ↦
        let (r, run) = element_loop-Hit c cs fuel n s.2 nn.1 (omega arith) low (ground arith) in
        (
          record {
            before = c ∷ r.before;
            element = r.element;
            after = r.after;
            joined = ap (◌∷◌ c) r.joined;
            live = r.live;
            count = rw dead r.count;
          },
          rw s.0 (step_deleted m fuel i n c nn.0 dead ∙ run),
        )
    | inr shown ↦ elim (Bool-cases (eq_ℤ (pos n) (pos i))) [
      | inl here ↦ (
        record {
          before = [];
          element = c;
          after = cs;
          joined = refl;
          live = shown;
          count = ground (arith, eq_ℤ_iff (pos n) (pos i));
        },
        rw s.0 (step_found m fuel i n c nn.0 shown here),
      )
      | inr further ↦
          let (r, run) =
            element_loop-Hit c cs fuel (n + 1) s.2 nn.1 (omega arith)
              (ground (arith, eq_ℤ_iff (pos n) (pos i))) (ground arith) in
          (
            record {
              before = c ∷ r.before;
              element = r.element;
              after = r.after;
              joined = ap (◌∷◌ c) r.joined;
              live = r.live;
              count = rw shown (omega (arith, r.count));
            },
            rw s.0 (step_visible m fuel i n c nn.0 shown further ∙ run),
          )
    ]
  ]

-- What a local deletion at position `i` leaves.
pub record Deleted (d : Document) (cs : List Ptr) (i : ℕ) : Type 0 where
  pub after : Document
  pub id : ElementId
  pub runs : delete_element d (pos i) ≡ ok (after, returned id)
  pub valid : IsValid after cs
  pub shows : visible after.memory cs ≡ remove_at i (visible d.memory cs)
  pub logged : lookup id after.delete_log ≡ some (record { target_id = id })
  pub keeps : (after.elements_by_id ≡ d.elements_by_id) × (after.insert_log ≡ d.insert_log)

module _ {d : Document} (i : ℕ) where
  find_visible_element-Hit :
      {cs : List Ptr}
      → IsValid d cs
      → i < length (visible d.memory cs)
      → (h : Hit d.memory cs 0 i) × (find_visible_element d (pos i) ≡ ok (returned h.element))
  unfolding find_visible_element
  find_visible_element-Hit {cs} v small =
      let (h, run) =
        element_loop-Hit d.memory d.end i d.start cs (suc d.allocated) 0 v.linked (non_null v)
          (omega (arith, v.room)) (omega arith) (omega arith) in
      (h, ground (arith, run, v.counter, start_used v))

  -- On a valid document `Delete` at the index of a visible element marks that element: the
  -- document stays valid with the same elements, shows the contents without it, and logs the
  -- deletion under the identifier that it returns.
  pub delete_element-Deleted :
      {cs : List Ptr} → IsValid d cs → i < length (visible d.memory cs) → Deleted d cs i
  unfolding delete_element
  delete_element-Deleted {cs} v small =
      let (h, run) = find_visible_element-Hit v small in
      let v' = subst (IsValid d) h.joined v in
      let id = (d.memory h.element).element_id in
      let count : length (visible d.memory h.before) ≡ i = omega (arith, h.count) in
      let used = middle_used h.before h.after h.element v' h.live in
      record {
        after = record (marked d h.element) {
          delete_log = insert id (record { target_id = id }) d.delete_log;
        };
        id = id;
        runs = rw run (ground (arith, used));
        valid =
            subst
              (IsValid (record (marked d h.element) {
                delete_log = insert id (record { target_id = id }) d.delete_log;
              }))
              (sym h.joined)
              (log-IsValid (insert id (record { target_id = id }) d.delete_log)
                (marked-IsValid h.before h.after h.element v' h.live));
        shows =
            subst
              (λ ns.
                visible (set_deleted d.memory h.element) ns ≡ remove_at i (visible d.memory ns))
              (sym h.joined)
              (subst
                (λ n.
                  visible (set_deleted d.memory h.element) (h.before ++ h.element ∷ h.after)
                  ≡ remove_at n (visible d.memory (h.before ++ h.element ∷ h.after)))
                count (marked-shows h.before h.after h.element v' h.live));
        logged = lookup-insert_self id (record { target_id = id }) d.delete_log;
        keeps = (refl, refl);
      }

  -- Any other index is refused, and the document stays as it was.
  pub delete_element-above :
      {cs : List Ptr}
      → IsValid d cs
      → length (visible d.memory cs) ≤ i
      → delete_element d (pos i) ≡ ok (d, raised no_character)
  unfolding delete_element find_visible_element
  delete_element-above v large = ground (arith, v.counter)
