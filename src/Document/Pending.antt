-- ===== src/Document/Pending.antt =====
-- The maps of pending elements: what holds of each entry, through every order of a `range`, and
-- after insertions and deletions.
use mathlib.Core.Path.{subst}
use yata_collaborative_edito.Base.{
  ◌<◌, ◌≤◌, ◌≡◌, refl, inl, inr, Bool-cases, is_some, Bool, true, none, [], ◌∷◌, arith, All, length,
  lookup, insert, delete, lookup-insert, lookup-delete,
}
use yata_collaborative_edito.Identifier.{ElementId, id_eq, id_eq_iff, id_Eq}
use yata_collaborative_edito.Document.{PendingElement}
use yata_collaborative_edito.Document.PendingOrder.{
  PendingMap, KeysDiffer, EntryHas, Waiting, but, All-but,
}

pub Waiting-tail :
    (p : ElementId → Bool) {k : ElementId} {v : PendingElement} {m : PendingMap}
    → Waiting p ((k, v) ∷ m)
    → Waiting (but k p) m
Waiting-tail p {k} {v} {m} w = record {
  entries = All-but p k m w.unlike.0 w.entries.1;
  unlike = w.unlike.1;
}

All-delete :
    (p : ElementId → Bool) (k : ElementId) (m : PendingMap)
    → All (EntryHas p) m
    → All (EntryHas p) (delete k m)
unfolding delete
All-delete p k [] h = tt
All-delete p k ((j, v) ∷ m) h = elim (Bool-cases (id_eq j k)) [
  | inl same ↦ rw same (All-delete p k m h.1)
  | inr other ↦ rw other (h.0, All-delete p k m h.1)
]

KeysDiffer-delete : (k : ElementId) (m : PendingMap) → KeysDiffer m → KeysDiffer (delete k m)
unfolding delete
KeysDiffer-delete k [] h = tt
KeysDiffer-delete k ((j, v) ∷ m) h = elim (Bool-cases (id_eq j k)) [
  | inl same ↦ rw same (KeysDiffer-delete k m h.1)
  | inr other ↦ rw other (ground (arith, lookup-delete k j m), KeysDiffer-delete k m h.1)
]

pub Waiting-delete :
    (p : ElementId → Bool) (k : ElementId) (m : PendingMap)
    → Waiting p m
    → Waiting (but k p) (delete k m)
Waiting-delete p k m w = record {
  entries =
      All-but p k (delete k m) (ground (arith, lookup-delete k k m, id_eq_iff k k))
        (All-delete p k m w.entries);
  unlike = KeysDiffer-delete k m w.unlike;
}

All-more :
    (p q : ElementId → Bool) (m : PendingMap)
    → ((k : ElementId) → p k ≡ true → q k ≡ true)
    → All (EntryHas p) m
    → All (EntryHas q) m
All-more p q [] f h = tt
All-more p q ((k, v) ∷ m) f h = ((h.0.0, f k h.0.1), All-more p q m f h.1)

pub Waiting-more :
    (p q : ElementId → Bool) {m : PendingMap}
    → ((k : ElementId) → p k ≡ true → q k ≡ true)
    → Waiting p m
    → Waiting q m
Waiting-more p q {m} f w = record { entries = All-more p q m f w.entries; unlike = w.unlike }

All-insert :
    (p : ElementId → Bool) (k : ElementId) (v : PendingElement) (m : PendingMap)
    → EntryHas p (k, v)
    → All (EntryHas p) m
    → All (EntryHas p) (insert k v m)
unfolding insert
All-insert p k v [] e h = (e, tt)
All-insert p k v ((j, w) ∷ m) e h = elim (Bool-cases (id_eq j k)) [
  | inl same ↦ rw same (e, h.1)
  | inr other ↦ rw other (h.0, All-insert p k v m e h.1)
]

nothing : (k : ElementId) → lookup {V = PendingElement} k [] ≡ none
unfolding lookup
nothing k = refl

KeysDiffer-insert :
    (k : ElementId) (v : PendingElement) (m : PendingMap) → KeysDiffer m → KeysDiffer (insert k v m)
unfolding insert
KeysDiffer-insert k v [] h = (nothing k, tt)
KeysDiffer-insert k v ((j, w) ∷ m) h = elim (Bool-cases (id_eq j k)) [
  | inl same ↦ rw same (subst (λ i. lookup i m ≡ none) ((id_eq_iff j k).0 same) h.0, h.1)
  | inr other ↦ rw other (
    ground (arith, lookup-insert k j v m, id_eq_iff k j, id_eq_iff j k),
    KeysDiffer-insert k v m h.1,
  )
]

pub Waiting-insert :
    (p : ElementId → Bool) (k : ElementId) (v : PendingElement) (m : PendingMap)
    → id_eq k v.new_id ≡ true
    → p k ≡ true
    → Waiting p m
    → Waiting p (insert k v m)
Waiting-insert p k v m named has w = record {
  entries = All-insert p k v m (named, has) w.entries;
  unlike = KeysDiffer-insert k v m w.unlike;
}

-- Every key of a map is in the map.
All-present :
    (m all : PendingMap)
    → ((k : ElementId) → is_some (lookup k m) ≡ true → is_some (lookup k all) ≡ true)
    → All (λ e. is_some (lookup e.0 all) ≡ true) m
unfolding lookup
All-present [] all h = tt
All-present ((k, v) ∷ m) all h =
    (h k (ground (arith, id_eq_iff k k)), All-present m all (λ j p. h j (ground arith)))

pub present_self : (m : PendingMap) → All (λ e. is_some (lookup e.0 m) ≡ true) m
present_self m = All-present m m (λ k h. h)

pub All-present-delete :
    (k : ElementId) (l all : PendingMap)
    → lookup k l ≡ none
    → All (λ e. is_some (lookup e.0 all) ≡ true) l
    → All (λ e. is_some (lookup e.0 (delete k all)) ≡ true) l
unfolding lookup
All-present-delete k [] all n h = tt
All-present-delete k ((j, v) ∷ l) all n h = (
  ground (arith, lookup-delete k j all, id_eq_iff k j, id_eq_iff j k),
  All-present-delete k l all (ground arith) h.1,
)

length-delete-le : (k : ElementId) (m : PendingMap) → length (delete k m) ≤ length m
unfolding delete
length-delete-le k [] = omega arith
length-delete-le k ((j, v) ∷ m) = ground (arith, length-delete-le k m)

-- Deleting a key that is there makes the map smaller.
pub length-delete-lt :
    (k : ElementId) (m : PendingMap) → is_some (lookup k m) ≡ true → length (delete k m) < length m
unfolding delete lookup
length-delete-lt k [] h = absurd (ground arith)
length-delete-lt k ((j, v) ∷ m) h = ground (arith, length-delete-le k m, length-delete-lt k m)
