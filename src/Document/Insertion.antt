-- ===== src/Document/Insertion.antt =====
-- InsertElement: a local insertion.
use mathlib.Core.Path.{subst}
use yata_collaborative_edito.Base.{
  ℕ, ◌≤◌, ◌≡◌, ◌∙◌, refl, sym, ap, none, some, List, ◌∷◌, ◌++◌, arith, length, insert_at,
  insert_at-append, pos, ◌+ℤ◌, lookup, lookup-insert_self, true, false, has, last_of, ok,
}
use yata_collaborative_edito.Identifier.{ElementId, id_Eq}
use yata_collaborative_edito.Protocol.Operations.{InsertOperation}
use yata_collaborative_edito.Document.{Ptr, Element, Document, returned}
use yata_collaborative_edito.Document.Update.{insert_element, insert_between, link_memory, register}
use yata_collaborative_edito.Document.Valid.{visible, nodes, IsValid, first_of, visible-append}
use yata_collaborative_edito.Document.Positions.{find_visible_position-Gap}
use yata_collaborative_edito.Document.Linking.{
  link-ok, placed, placed-IsValid, placed-visible, left_used, right_used, old_named,
  has-last_of-nodes, has-first_of-nodes,
}

-- The identifier that the next local insertion gets.
abbrev pub next_id : Document → ElementId
next_id d = record { client_id = d.client_id; clock = d.clock }

-- The clock is no part of the invariant.
clock-IsValid :
    {d : Document} {cs : List Ptr}
    → IsValid d cs
    → IsValid (record d { clock = d.clock +ℤ pos 1 }) cs
clock-IsValid v = record {
  linked = v.linked;
  distinct = v.distinct;
  in_use = v.in_use;
  room = v.room;
  end_live = v.end_live;
  counter = v.counter;
  start_named = v.start_named;
  end_named = v.end_named;
  registered = v.registered;
  known = v.known;
}

-- What a local insertion of `character` at position `i` leaves.
pub record Inserted (d : Document) (cs : List Ptr) (i character : ℕ) : Type 0 where
  pub after : Document
  pub before : List Ptr
  pub rest : List Ptr
  pub operation : InsertOperation
  pub runs : insert_element d (pos i) character ≡ ok (after, returned (next_id d))
  pub splits : cs ≡ before ++ rest
  pub valid : IsValid after (before ++ d.allocated ∷ rest)
  pub shows :
      visible after.memory (before ++ d.allocated ∷ rest)
      ≡ insert_at i character (visible d.memory cs)
  pub ticks : after.clock ≡ d.clock +ℤ pos 1
  pub logged : lookup (next_id d) after.insert_log ≡ some operation
  pub names : (operation.new_id ≡ next_id d) × (operation.content ≡ character)
  pub origin : operation.origin_id ≡ (d.memory (last_of d.start before)).element_id
  pub right : operation.right_id ≡ (d.memory (first_of rest d.end)).element_id

-- The new element of a local insertion, and the operation that is logged.
abbrev local_element : Document → (l r : Ptr) → ℕ → Element
local_element d l r character = record {
  element_id = next_id d;
  origin = l;
  left = l;
  right = r;
  is_deleted = false;
  content = character;
}

abbrev local_operation : Document → (l r : Ptr) → ℕ → InsertOperation
local_operation d l r character =
    let m = link_memory d.memory d.allocated (local_element d l r character) l r in
    record {
      new_id = next_id d;
      origin_id = (m l).element_id;
      right_id = (m r).element_id;
      content = character;
    }

abbrev ticked : Document → Document
ticked d = record d { clock = d.clock +ℤ pos 1 }

abbrev local_placed : Document → (l r : Ptr) → ℕ → Document
local_placed d l r character =
    placed (ticked d) (local_element d l r character) l r (local_operation d l r character)

module _ {d : Document} (xs zs : List Ptr) (v : IsValid d (xs ++ zs)) (character : ℕ) where
  insert_between-ok :
      insert_between d (last_of d.start xs) (first_of zs d.end) character
      ≡ ok (local_placed d (last_of d.start xs) (first_of zs d.end) character, returned (next_id d))
  unfolding insert_between
  insert_between-ok =
      let v' = clock-IsValid v in
      let el = local_element d (last_of d.start xs) (first_of zs d.end) character in
      ground (arith, link-ok xs zs v' el, left_used xs zs v', right_used xs zs v')

  insert_between-Inserted :
      lookup (next_id d) d.elements_by_id ≡ none
      → insert_element d (pos (length (visible d.memory xs))) character
        ≡ insert_between d (last_of d.start xs) (first_of zs d.end) character
      → Inserted d (xs ++ zs) (length (visible d.memory xs)) character
  unfolding register
  insert_between-Inserted fresh runs =
      let l = last_of d.start xs in
      let r = first_of zs d.end in
      let el = local_element d l r character in
      record {
        after = local_placed d l r character;
        before = xs;
        rest = zs;
        operation = local_operation d l r character;
        runs = runs ∙ insert_between-ok;
        splits = refl;
        valid = placed-IsValid xs zs v' el (local_operation d l r character) refl refl refl fresh;
        shows =
            placed-visible xs zs v' el (local_operation d l r character) refl refl refl fresh
            ∙ sym (insert_at-append character (visible d.memory xs) (visible d.memory zs))
            ∙ ap (insert_at (length (visible d.memory xs)) character)
                (sym (visible-append d.memory xs zs));
        ticks = refl;
        logged = lookup-insert_self (next_id d) (local_operation d l r character) d.insert_log;
        names = (refl, refl);
        origin = named l (has-last_of-nodes xs zs v');
        right = named r (has-first_of-nodes xs zs v');
      }
    where
      v' : IsValid (ticked d) (xs ++ zs)
      v' = clock-IsValid v

      named :
          (q : Ptr)
          → has q (nodes d (xs ++ zs)) ≡ true
          → (link_memory d.memory d.allocated
              (local_element d (last_of d.start xs) (first_of zs d.end) character)
              (last_of d.start xs)
              (first_of zs d.end)
              q).element_id
            ≡ (d.memory q).element_id
      named =
          old_named xs zs v' (local_element d (last_of d.start xs) (first_of zs d.end) character)
            (local_operation d (last_of d.start xs) (first_of zs d.end) character) refl refl refl
            fresh

-- On a valid document whose next identifier is unused, `InsertElement` at an index from 0 to the
-- number of visible elements returns that identifier, leaves a valid document that shows the old
-- contents with the character inserted at the index, advances the clock and logs the operation.
pub insert_element-Inserted :
    {d : Document} {cs : List Ptr} (i character : ℕ)
    → IsValid d cs
    → lookup (next_id d) d.elements_by_id ≡ none
    → i ≤ length (visible d.memory cs)
    → Inserted d cs i character
unfolding insert_element
insert_element-Inserted {d} {cs} i character v fresh h =
    let (g, run) = find_visible_position-Gap v i h in
    let count : length (visible d.memory g.before) ≡ i = omega (arith, g.count) in
    subst (λ ns. Inserted d ns i character) (sym g.joined)
      (subst (λ n. Inserted d (g.before ++ g.after) n character) (count)
        (insert_between-Inserted g.before g.after (subst (IsValid d) g.joined v) character fresh
          (ap (λ n. insert_element d (pos n) character) count ∙ rw run)))
