-- ===== src/Document/Traversal.antt =====
-- backend/internal/document/traversal.go: the walks along the element list. Each loop has one
-- round for every address in use.
use yata_collaborative_edito.Base.{
  ℕ, zero, suc, ◌+◌, Bool, true, false, not, ◌||◌, Option, none, some, List, [], ◌∷◌, ◌++◌, ◌&&◌,
  ◌==◌, ltb, leb, if◌then◌else◌, ℤ, pos, eq_ℤ, ltb_ℤ, Text, codes, text_ltb, Run, ok, panic,
  out_of_fuel, ◌>>=◌,
}
use yata_collaborative_edito.Identifier.{ElementId}
use yata_collaborative_edito.Document.{
  Ptr, null, Memory, Document, Result, returned, raised, inexisting_position, no_character,
  unexpected, element_at, deref,
}

-- The loop of findVisiblePosition: the neighbours at the index, or `none` past the last element.
unfoldable pub position_loop : Memory → ℕ → ℤ → Ptr → ℕ → Run (Option (Ptr × Ptr))
position_loop m zero index current visible_index = out_of_fuel
position_loop m (suc fuel) index current visible_index =
    let element = m current in
    let further =
      position_loop m fuel index element.right
        (if element.is_deleted then visible_index else visible_index + 1) in
    if current == null
    then ok none
    else if not element.is_deleted && eq_ℤ (pos visible_index) index
    then ok (some (element.left, current))
    else further

-- findVisiblePosition
unfoldable pub find_visible_position : Document → ℤ → Run (Result (Ptr × Ptr))
unfolding deref
find_visible_position d index =
    if ltb_ℤ d.character_counter index || ltb_ℤ index (pos 0)
    then ok (raised inexisting_position)
    else do
      start ← deref d.memory d.start
      found ← position_loop d.memory (suc d.allocated) index start.right 0
      elim found [
        | some neighbours ↦ ok (returned neighbours)
        | none ↦ do end ← deref d.memory d.end; ok (returned (end.left, d.end))
      ]

-- The loop of findVisibleElement.
unfoldable pub element_loop : Memory → ℕ → ℤ → Ptr → ℕ → Run (Option Ptr)
element_loop m zero index current visible_position = out_of_fuel
element_loop m (suc fuel) index current visible_position =
    let element = m current in
    let further =
      element_loop m fuel index element.right
        (if element.is_deleted then visible_position else visible_position + 1) in
    if current == null
    then ok none
    else if not element.is_deleted && eq_ℤ (pos visible_position) index
    then ok (some current)
    else further

-- findVisibleElement
unfoldable pub find_visible_element : Document → ℤ → Run (Result Ptr)
unfolding deref
find_visible_element d index =
    if not (ltb_ℤ index d.character_counter) || ltb_ℤ index (pos 0)
    then ok (raised no_character)
    else do
      start ← deref d.memory d.start
      found ← element_loop d.memory (suc d.allocated) index start.right 0
      elim found [ some p ↦ ok (returned p) | none ↦ ok (raised unexpected) ]

-- The loop of conflictZone: the elements from `current` up to `right`.
unfoldable pub conflict_loop : Memory → ℕ → (current right : Ptr) → Run (List Ptr)
conflict_loop m zero current right = out_of_fuel
conflict_loop m (suc fuel) current right =
    let rest = conflict_loop m fuel (m current).right right in
    if current == right
    then ok []
    else if current == null
    then panic
    else (do zone ← rest; ok (current ∷ zone))

-- conflictZone
unfoldable pub conflict_zone : Document → (origin_id right_id : ElementId) → Run (List Ptr)
unfolding deref
conflict_zone d origin_id right_id = do
  origin ← deref d.memory (element_at d origin_id)
  conflict_loop d.memory (suc d.allocated) origin.right (element_at d right_id)

-- The loop of isOriginAfter.
unfoldable pub origin_after_loop :
    Memory → ℕ → (end inserted conflictive_origin current : Ptr) → Run Bool
origin_after_loop m zero end inserted conflictive_origin current = out_of_fuel
origin_after_loop m (suc fuel) end inserted conflictive_origin current =
    let further = origin_after_loop m fuel end inserted conflictive_origin (m current).right in
    if current == end
    then ok false
    else if inserted == current
    then ok false
    else if conflictive_origin == current
    then ok true
    else if current == null
    then panic
    else further

-- isOriginAfter
unfoldable pub is_origin_after :
    Document → (insert_operation conflictive_operation : Ptr) → Run Bool
unfolding deref
is_origin_after d insert_operation conflictive_operation = do
  start ← deref d.memory d.start
  origin_after_loop d.memory (suc d.allocated) d.end insert_operation
      (d.memory conflictive_operation).origin start.right

-- The order of two concurrent insertions: by clock, then by client.
unfoldable pub id_before : ElementId → ElementId → Bool
id_before a b =
    if ltb_ℤ a.clock b.clock
    then true
    else if ltb_ℤ b.clock a.clock
    then false
    else text_ltb a.client_id b.client_id

-- The loop of findInsetionPoint over the conflicting elements.
unfoldable pub insertion_loop :
    Document → (origin : Ptr) → ElementId → (left right : Ptr) → List Ptr → Run (Ptr × Ptr)
insertion_loop d origin new_id left right [] = ok (left, right)
insertion_loop d origin new_id left right (op ∷ rest) =
    let further = insertion_loop d origin new_id op (d.memory op).right rest in
    do
      after ← is_origin_after d origin op
      (if after
          then ok (left, right)
          else if id_before (d.memory op).element_id new_id
          then further
          else ok (left, op))

-- findInsetionPoint
unfoldable pub find_insertion_point :
    Document → (origin_id right_id new_id : ElementId) → Run (Ptr × Ptr)
unfolding deref
find_insertion_point d origin_id right_id new_id = do
  origin ← deref d.memory (element_at d origin_id)
  zone ← conflict_zone d origin_id right_id
  insertion_loop d (element_at d origin_id) new_id (element_at d origin_id) origin.right zone

-- string(r) of a rune: what is no scalar value becomes U+FFFD
unfoldable pub encode_rune : ℕ → ℕ
encode_rune r = if ltb r 0xd800 || (leb 0xe000 r && ltb r 0x110000) then r else 0xfffd

unfoldable pub content_loop : Memory → ℕ → (end current : Ptr) → Run (List ℕ)
content_loop m zero end current = out_of_fuel
content_loop m (suc fuel) end current =
    let element = m current in
    let rest = content_loop m fuel end element.right in
    if current == end then ok [] else if current == null then panic else (do
      content ← rest
      ok (if not element.is_deleted then encode_rune element.content ∷ content else content))

-- VisibleContent and String; the slice's capacity must not be negative
unfoldable pub visible_content : Document → Run Text
unfolding deref
visible_content d = if ltb_ℤ d.character_counter (pos 0) then panic else do
  start ← deref d.memory d.start
  content_loop d.memory (suc d.allocated) d.end start.right

unfoldable pub internal_loop : Memory → ℕ → (end current : Ptr) → Run Text
internal_loop m zero end current = out_of_fuel
internal_loop m (suc fuel) end current =
    let element = m current in
    let rest = internal_loop m fuel end element.right in
    if current == end then ok [] else if current == null then panic else (do
      content ← rest
      ok (
          codes " -> "
          ++ (encode_rune element.content
              ∷ ((if element.is_deleted then codes "(X)" else []) ++ content))))

-- PrintInternal
unfoldable pub print_internal : Document → Run Text
unfolding deref
print_internal d = do
  start ← deref d.memory d.start
  content ← internal_loop d.memory (suc d.allocated) d.end start.right
  end ← deref d.memory d.end
  ok (start.element_id.client_id ++ (content ++ (codes " -> " ++ end.element_id.client_id)))

-- VisibleLength
unfoldable pub visible_length : Document → ℤ
visible_length d = d.character_counter

unfoldable pub traverse_loop : Memory → ℕ → Ptr → Run (List Ptr)
traverse_loop m zero current = out_of_fuel
traverse_loop m (suc fuel) current =
    let rest = traverse_loop m fuel (m current).right in
    if current == null then ok [] else (do elements ← rest; ok (current ∷ elements))

-- Traverse
unfoldable pub traverse : Document → Run (List Ptr)
traverse d = traverse_loop d.memory (suc d.allocated) d.start
