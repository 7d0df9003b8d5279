-- ===== src/Base/Lists.antt =====
-- Lists measured by the native numbers, membership as a Boolean test, and predicates by recursion.
use Prim.Native.Nat.{ℕ, zero, suc, ◌+◌, ◌<◌}
use mathlib.Core.Path.{◌≡◌, refl, sym, ap, subst}
use mathlib.Core.Bool.{Bool, true, false, ◌||◌}
use mathlib.Core.List.{List, [], ◌∷◌, ◌++◌}
use native.Mathlib.Omega.{arith}
use yata_collaborative_edito.Base.Tests.{◌==◌, ==_iff, Bool-cases}
use mathlib.Core.Logic.{◌⊎◌, inl, inr}

module _ {ℓ} {A : Type ℓ} where
  abbrev pub length : List A → ℕ
  length [] = 0
  length (x ∷ xs) = suc (length xs)

  pub length-append : (xs ys : List A) → length (xs ++ ys) ≡ length xs + length ys
  length-append [] ys = omega arith
  length-append (x ∷ xs) ys = omega (arith, length-append xs ys)

  -- `insert_at n x xs` has `x` at position `n`, or at the end if the list is shorter.
  abbrev pub insert_at : ℕ → A → List A → List A
  insert_at zero x ys = x ∷ ys
  insert_at (suc n) x [] = x ∷ []
  insert_at (suc n) x (y ∷ ys) = y ∷ insert_at n x ys

  -- The list without its entry at position `n`.
  abbrev pub remove_at : ℕ → List A → List A
  remove_at n [] = []
  remove_at zero (y ∷ ys) = ys
  remove_at (suc n) (y ∷ ys) = y ∷ remove_at n ys

abbrev pub All {ℓ κ} : {A : Type ℓ} → (A → Type κ) → List A → Type κ
All P [] = Unit
All P (x ∷ xs) = P x × All P xs

abbrev pub has : ℕ → List ℕ → Bool
has a [] = false
has a (x ∷ xs) = (a == x) || has a xs

-- No entry stands twice.
abbrev pub Distinct : List ℕ → Type 0
Distinct [] = Unit {0}
Distinct (x ∷ xs) = (has x xs ≡ false) × Distinct xs

-- The last node of the chain that begins with `a` and goes on with the list.
abbrev pub last_of : ℕ → List ℕ → ℕ
last_of a [] = a
last_of a (x ∷ xs) = last_of x xs

pub has-append : (a : ℕ) (xs ys : List ℕ) → has a (xs ++ ys) ≡ (has a xs || has a ys)
has-append a [] ys = refl
has-append a (x ∷ xs) ys = ground (arith, has-append a xs ys)

pub has-middle : (a : ℕ) (xs ys : List ℕ) → has a (xs ++ a ∷ ys) ≡ true
has-middle a [] ys = ground arith
has-middle a (x ∷ xs) ys = ground (arith, has-middle a xs ys)

pub has-last_of : (x : ℕ) (xs ys : List ℕ) → has (last_of x xs) (x ∷ (xs ++ ys)) ≡ true
has-last_of x [] ys = ground arith
has-last_of x (y ∷ xs) ys = ground (arith, has-last_of y xs ys)

-- A new entry in the middle keeps the entries distinct.
pub Distinct-middle :
    (p : ℕ) (xs ys : List ℕ)
    → Distinct (xs ++ ys)
    → has p (xs ++ ys) ≡ false
    → Distinct (xs ++ p ∷ ys)
Distinct-middle p [] ys d h = (h, d)
Distinct-middle p (x ∷ xs) ys d h = (
  ground (arith, has-append x xs ys, has-append x xs (p ∷ ys)),
  Distinct-middle p xs ys d.1 (ground arith),
)

pub All-append {ℓ κ} :
    {A : Type ℓ} (P : A → Type κ) (xs ys : List A) → All P xs → All P ys → All P (xs ++ ys)
All-append P [] ys hx hy = hy
All-append P (x ∷ xs) ys hx hy = (hx.0, All-append P xs ys hx.1 hy)

pub All-middle {ℓ κ} :
    {A : Type ℓ} (P : A → Type κ) (x : A) (xs ys : List A)
    → All P (xs ++ ys)
    → P x
    → All P (xs ++ x ∷ ys)
All-middle P x [] ys h p = (p, h)
All-middle P x (y ∷ xs) ys h p = (h.0, All-middle P x xs ys h.1 p)

pub All-map {ℓ κ} :
    {A : Type ℓ} (P Q : A → Type κ) (xs : List A) → ((x : A) → P x → Q x) → All P xs → All Q xs
All-map P Q [] f h = tt
All-map P Q (x ∷ xs) f h = (f x h.0, All-map P Q xs f h.1)

pub All-has {κ} : (P : ℕ → Type κ) (xs : List ℕ) (a : ℕ) → All P xs → has a xs ≡ true → P a
All-has P [] a h e = absurd (cc e)
All-has P (x ∷ xs) a h e = elim (Bool-cases (a == x)) [
  | inl same ↦ subst P (sym ((==_iff a x).0 same)) h.0
  | inr other ↦ All-has P xs a h.1 (ground arith)
]

pub All-map₂ {ℓ κ} :
    {A : Type ℓ} (P Q R : A → Type κ) (xs : List A)
    → ((x : A) → P x → Q x → R x)
    → All P xs
    → All Q xs
    → All R xs
All-map₂ P Q R [] f h k = tt
All-map₂ P Q R (x ∷ xs) f h k = (f x h.0 k.0, All-map₂ P Q R xs f h.1 k.1)

pub has-weaken : (q p : ℕ) (xs ys : List ℕ) → has q (xs ++ ys) ≡ true → has q (xs ++ p ∷ ys) ≡ true
has-weaken q p [] ys h = ground arith
has-weaken q p (x ∷ xs) ys h = ground (arith, has-weaken q p xs ys)

pub not-has_above : (p : ℕ) (xs : List ℕ) → All (λ q. (0 < q) × (q < p)) xs → has p xs ≡ false
not-has_above p [] h = refl
not-has_above p (x ∷ xs) h = ground (arith, not-has_above p xs h.1)

pub insert_at-append {ℓ} :
    {A : Type ℓ} (a : A) (xs ys : List A) → insert_at (length xs) a (xs ++ ys) ≡ xs ++ a ∷ ys
insert_at-append a [] [] = refl
insert_at-append a [] (y ∷ ys) = refl
insert_at-append a (x ∷ xs) ys = ap (◌∷◌ x) (insert_at-append a xs ys)

pub remove_at-append {ℓ} :
    {A : Type ℓ} (a : A) (xs ys : List A) → remove_at (length xs) (xs ++ a ∷ ys) ≡ xs ++ ys
remove_at-append a [] ys = refl
remove_at-append a (x ∷ xs) ys = ap (◌∷◌ x) (remove_at-append a xs ys)

pub Distinct-suffix : (xs ys : List ℕ) → Distinct (xs ++ ys) → Distinct ys
Distinct-suffix [] ys d = d
Distinct-suffix (x ∷ xs) ys d = Distinct-suffix xs ys d.1

pub Distinct-apart : (t : ℕ) (xs ys : List ℕ) → Distinct (xs ++ t ∷ ys) → has t xs ≡ false
Distinct-apart t [] ys d = refl
Distinct-apart t (x ∷ xs) ys d = ground (arith, has-middle t xs ys, Distinct-apart t xs ys d.1)

pub All-prefix {ℓ κ} : {A : Type ℓ} (P : A → Type κ) (xs ys : List A) → All P (xs ++ ys) → All P xs
All-prefix P [] ys h = tt
All-prefix P (x ∷ xs) ys h = (h.0, All-prefix P xs ys h.1)

pub All-suffix {ℓ κ} : {A : Type ℓ} (P : A → Type κ) (xs ys : List A) → All P (xs ++ ys) → All P ys
All-suffix P [] ys h = h
All-suffix P (x ∷ xs) ys h = All-suffix P xs ys h.1

pub last_of-append : (a : ℕ) (xs ys : List ℕ) → last_of a (xs ++ ys) ≡ last_of (last_of a xs) ys
last_of-append a [] ys = refl
last_of-append a (x ∷ xs) ys = last_of-append x xs ys

-- A member of a list splits it.
pub has-split :
    (p : ℕ) (cs : List ℕ) → has p cs ≡ true → (xs : List ℕ) × (zs : List ℕ) × (cs ≡ xs ++ p ∷ zs)
has-split p [] h = absurd (cc h)
has-split p (c ∷ cs) h = elim (Bool-cases (p == c)) [
  | inl same ↦ ([], cs, ap (λ q. q ∷ cs) (sym ((==_iff p c).0 same)))
  | inr other ↦ let (xs, zs, e) = has-split p cs (ground arith) in (c ∷ xs, zs, ap (◌∷◌ c) e)
]

-- The item stands in the list.
abbrev pub In : {A : Type 0} → A → List A → Type 0
In x [] = ⊥
In x (y ∷ ys) = (y ≡ x) ⊎ In x ys
