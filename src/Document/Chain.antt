-- ===== src/Document/Chain.antt =====
-- The doubly linked list of elements, as a chain of addresses, and what linking in a new element
-- does to it.
use yata_collaborative_edito.Base.{
  ◌≡◌, false, List, [], ◌∷◌, ◌++◌, arith, ◌==◌, if◌then◌else◌, has, Distinct, last_of, has-middle,
  has-last_of,
}
use yata_collaborative_edito.Document.{Ptr, null, Element, Memory, write, set_left, set_right}
use yata_collaborative_edito.Document.Update.{link_memory}

-- From `a` the `right` pointers lead through the addresses of the list to nil, and the `left`
-- pointers lead back.
abbrev pub Linked : Memory → Ptr → List Ptr → Type 0
Linked m a [] = (m a).right ≡ null
Linked m a (b ∷ bs) = ((m a).right ≡ b) × ((m b).left ≡ a) × Linked m b bs

-- The fields of the elements after a new one has been linked in.
module _ (m : Memory) (p : Ptr) (e : Element) (l r : Ptr) (q : Ptr) where
  pub link-right :
      (link_memory m p e l r q).right
      ≡ (if q == l then p else if q == p then e.right else (m q).right)
  unfolding link_memory write set_left set_right
  link-right = ground arith

  pub link-left :
      (link_memory m p e l r q).left ≡ (if q == r then p else if q == p then e.left else (m q).left)
  unfolding link_memory write set_left set_right
  link-left = ground arith

  pub link-is_deleted :
      (link_memory m p e l r q).is_deleted ≡ (if q == p then e.is_deleted else (m q).is_deleted)
  unfolding link_memory write set_left set_right
  link-is_deleted = ground arith

  pub link-content :
      (link_memory m p e l r q).content ≡ (if q == p then e.content else (m q).content)
  unfolding link_memory write set_left set_right
  link-content = ground arith

  pub link-element_id :
      (link_memory m p e l r q).element_id ≡ (if q == p then e.element_id else (m q).element_id)
  unfolding link_memory write set_left set_right
  link-element_id = ground arith

  pub link-origin : (link_memory m p e l r q).origin ≡ (if q == p then e.origin else (m q).origin)
  unfolding link_memory write set_left set_right
  link-origin = ground arith

module _ (m : Memory) (p : Ptr) (e : Element) (l r : Ptr) where
  -- A chain that the change does not touch stays a chain.
  link-frame :
      (b : Ptr) (bs : List Ptr)
      → Linked m b bs
      → has l (b ∷ bs) ≡ false
      → has p (b ∷ bs) ≡ false
      → has r bs ≡ false
      → Linked (link_memory m p e l r) b bs
  link-frame b [] s hl hp hr = ground (arith, link-right m p e l r b)
  link-frame b (c ∷ bs) s hl hp hr = (
    ground (arith, link-right m p e l r b),
    ground (arith, link-left m p e l r c),
    link-frame c bs s.2 (ground arith) (ground arith) (ground arith),
  )

  -- The new element stands between `l` and `r`; nothing else has moved.
  pub link-Linked :
      (a : Ptr) (xs ys : List Ptr)
      → Linked m a (xs ++ r ∷ ys)
      → Distinct (a ∷ (xs ++ r ∷ ys))
      → has p (a ∷ (xs ++ r ∷ ys)) ≡ false
      → l ≡ last_of a xs
      → e.left ≡ l
      → e.right ≡ r
      → Linked (link_memory m p e l r) a (xs ++ p ∷ r ∷ ys)
  link-Linked a [] ys s d h el eleft eright = (
    ground (arith, link-right m p e l r a),
    ground (arith, link-left m p e l r p),
    (
      ground (arith, link-right m p e l r p),
      ground (arith, link-left m p e l r r),
      link-frame r ys s.2 (ground arith) (ground arith) (ground arith),
    ),
  )
  link-Linked a (x ∷ xs) ys s d h el eleft eright = (
    ground (arith, link-right m p e l r a, has-last_of x xs (r ∷ ys)),
    ground (arith, link-left m p e l r x, has-middle r xs ys),
    link-Linked x xs ys s.2 d.1 (ground arith) el eleft eright,
  )
