-- ===== src/Document/PendingOrder.antt =====
-- The maps of pending elements: what holds of each entry, through every order of a `range`.
use mathlib.Core.List.{Perm, Permᴰ}
use mathlib.Core.List.Perm
use mathlib.Core.Logic.{∥∥₁_elim}
use mathlib.Core.Path.{subst}
use mathlib.Core.HLevel.{×_prop}
use native.Mathlib.Decide.{ℕ_discrete}
use yata_collaborative_edito.Base.{
  ◌≡◌, ap, inl, inr, Option-cases, is_some, Bool, true, not, ◌&&◌, none, [], ◌∷◌, arith, All, Map,
  lookup,
}
use yata_collaborative_edito.Identifier.{ElementId, id_eq, id_eq_iff, id_Eq}
use yata_collaborative_edito.Document.{PendingElement}

abbrev pub PendingMap : Type 0
PendingMap = Map ElementId PendingElement

-- No key stands twice.
abbrev pub KeysDiffer : PendingMap → Type 0
KeysDiffer [] = Unit {0}
KeysDiffer ((k, v) ∷ m) = (lookup k m ≡ none) × KeysDiffer m

abbrev pub EntryHas : (ElementId → Bool) → ElementId × PendingElement → Type 0
EntryHas p (k, v) = (id_eq k v.new_id ≡ true) × (p k ≡ true)

-- Each entry stands under its own identifier, which has the property, and under no other.
pub record Waiting (p : ElementId → Bool) (m : PendingMap) : Type 0 where
  pub entries : All (EntryHas p) m
  pub unlike : KeysDiffer m

pub lookup-Perm :
    (k : ElementId) {l m : PendingMap} → Permᴰ l m → lookup k l ≡ none → lookup k m ≡ none
unfolding lookup
lookup-Perm k Permᴰ.nil h = h
lookup-Perm k (Permᴰ.cons {a = (i, v)} {b = (j, w)} e p) h =
    ground (arith, ap (λ x. x.0) e, lookup-Perm k p)
lookup-Perm k (Permᴰ.swap {a = (i, v)} {b = (j, w)} {a' = (i', v')} {b' = (j', w')} e f) h =
    ground (arith, ap (λ x. x.0) e, ap (λ x. x.0) f)
lookup-Perm k (Permᴰ.trans p q) h = lookup-Perm k q (lookup-Perm k p h)

pub All-Perm :
    (P : ElementId × PendingElement → Type 0) {l m : PendingMap} → Permᴰ l m → All P l → All P m
All-Perm P Permᴰ.nil h = h
All-Perm P (Permᴰ.cons e p) h = (subst P e h.0, All-Perm P p h.1)
All-Perm P (Permᴰ.swap e f) h = (subst P f h.1.0, (subst P e h.0, h.1.1))
All-Perm P (Permᴰ.trans p q) h = All-Perm P q (All-Perm P p h)

KeysDiffer-Perm : {l m : PendingMap} → Permᴰ l m → KeysDiffer l → KeysDiffer m
unfolding lookup
KeysDiffer-Perm Permᴰ.nil h = h
KeysDiffer-Perm (Permᴰ.cons {a = (i, v)} {b = (j, w)} {l₂ = m} e p) h =
    (subst (λ k. lookup k m ≡ none) (ap (λ x. x.0) e) (lookup-Perm i p h.0), KeysDiffer-Perm p h.1)
KeysDiffer-Perm (Permᴰ.swap {a = (i, v)} {b = (j, w)} {a' = (i', v')} {b' = (j', w')} e f) h =
    let ei = ap (λ x. x.0) e in
    let fj = ap (λ x. x.0) f in
    (
      ground (arith, ei, fj, id_eq_iff i j, id_eq_iff i' j', id_eq_iff j' i'),
      (ground (arith, ei, fj), h.1.1),
    )
KeysDiffer-Perm (Permᴰ.trans p q) h = KeysDiffer-Perm q (KeysDiffer-Perm p h)

pub KeysDiffer-prop : (m : PendingMap) → IsProp (KeysDiffer m)
KeysDiffer-prop [] = hlevel
KeysDiffer-prop ((k, v) ∷ m) = ×_prop (hlevel ℕ_discrete) (KeysDiffer-prop m)

pub All-prop :
    (P : ElementId × PendingElement → Type 0) (m : PendingMap)
    → ((e : ElementId × PendingElement) → IsProp (P e))
    → IsProp (All P m)
All-prop P [] h = hlevel
All-prop P (e ∷ m) h = ×_prop (h e) (All-prop P m h)

EntryHas-prop : (p : ElementId → Bool) (e : ElementId × PendingElement) → IsProp (EntryHas p e)
EntryHas-prop p (k, v) = hlevel

none_prop : (k : ElementId) (m : PendingMap) → IsProp (lookup k m ≡ none)
none_prop k m = hlevel ℕ_discrete

-- The order in which a `range` visits the map does not matter.
pub Waiting-Perm : (p : ElementId → Bool) {l m : PendingMap} → Perm l m → Waiting p m → Waiting p l
Waiting-Perm p {l} {m} q w = record {
  entries =
      ∥∥₁_elim (Perm.symm q) (All-prop (EntryHas p) l (EntryHas-prop p))
        (λ d. All-Perm (EntryHas p) d w.entries);
  unlike = ∥∥₁_elim (Perm.symm q) (KeysDiffer-prop l) (λ d. KeysDiffer-Perm d w.unlike);
}

pub Present-Perm :
    (all : PendingMap) {l m : PendingMap}
    → Perm l m
    → All (λ e. is_some (lookup e.0 all) ≡ true) m
    → All (λ e. is_some (lookup e.0 all) ≡ true) l
Present-Perm all {l} {m} q h =
    ∥∥₁_elim (Perm.symm q) (All-prop (λ e. is_some (lookup e.0 all) ≡ true) l (λ e. hlevel))
      (λ d. All-Perm (λ e. is_some (lookup e.0 all) ≡ true) d h)

-- The property, and not this key.
abbrev pub but : ElementId → (ElementId → Bool) → ElementId → Bool
but k p j = p j && not (id_eq k j)

pub All-but :
    (p : ElementId → Bool) (k : ElementId) (m : PendingMap)
    → lookup k m ≡ none
    → All (EntryHas p) m
    → All (EntryHas (but k p)) m
unfolding lookup
All-but p k [] h w = tt
All-but p k ((j, v) ∷ m) h w =
    ((w.0.0, ground (arith, id_eq_iff j k, id_eq_iff k j)), All-but p k m (ground arith) w.1)

pub Waiting-without :
    (p : ElementId → Bool) (k : ElementId) (m : PendingMap)
    → lookup k m ≡ none
    → Waiting p m
    → Waiting (but k p) m
Waiting-without p k m h w = record { entries = All-but p k m h w.entries; unlike = w.unlike }

-- A property of every key that the map has.
All-each :
    (p q : ElementId → Bool) (m : PendingMap)
    → ((k : ElementId) → is_some (lookup k m) ≡ true → q k ≡ true)
    → All (EntryHas p) m
    → All (EntryHas q) m
unfolding lookup
All-each p q [] f h = tt
All-each p q ((k, v) ∷ m) f h =
    ((h.0.0, f k (ground (arith, id_eq_iff k k))), All-each p q m (λ j i. f j (ground arith)) h.1)

pub Waiting-each :
    (p q : ElementId → Bool) (m : PendingMap)
    → ((k : ElementId) → is_some (lookup k m) ≡ true → q k ≡ true)
    → Waiting p m
    → Waiting q m
Waiting-each p q m f w = record { entries = All-each p q m f w.entries; unlike = w.unlike }

-- A visit of the map meets every key.
pub visited :
    (k : ElementId) {l m : PendingMap}
    → Perm l m
    → is_some (lookup k m) ≡ true
    → is_some (lookup k l) ≡ true
visited k {l} {m} q h = elim (Option-cases (lookup k l)) [
  | inr (v, e) ↦ ground (arith, e)
  | inl e ↦
      let gone : lookup k m ≡ none =
        ∥∥₁_elim q (λ x y. none_prop k m x y) (λ d. lookup-Perm k d e) in
      absurd (ground (arith, gone))
]
