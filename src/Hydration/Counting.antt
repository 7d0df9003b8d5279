-- ===== src/Hydration/Counting.antt =====
-- Addresses below a bound, none of them null and none twice, are fewer than the bound.
use yata_collaborative_edito.Base.{
  ℕ, zero, suc, ◌<◌, ◌≤◌, false, List, [], ◌∷◌, ◌≡◌, refl, inl, inr, arith, if◌then◌else◌, ◌==◌,
  ==_iff, has, All, Distinct, length, Bool-cases,
}

abbrev without : ℕ → List ℕ → List ℕ
without n [] = []
without n (x ∷ xs) = if n == x then without n xs else x ∷ without n xs

has-without : (n a : ℕ) (xs : List ℕ) → has a xs ≡ false → has a (without n xs) ≡ false
has-without n a [] h = refl
has-without n a (x ∷ xs) h = ground (arith, h, has-without n a xs)

without-absent : (n : ℕ) (xs : List ℕ) → has n xs ≡ false → without n xs ≡ xs
without-absent n [] h = refl
without-absent n (x ∷ xs) h = ground (arith, h, without-absent n xs)

without-Distinct : (n : ℕ) (xs : List ℕ) → Distinct xs → Distinct (without n xs)
without-Distinct n [] d = tt
without-Distinct n (x ∷ xs) (h, d) = elim (Bool-cases (n == x)) [
  | inl e ↦ ground (arith, e, without-Distinct n xs d)
  | inr e ↦ ground (arith, e, has-without n x xs h, without-Distinct n xs d)
]

without-length : (n : ℕ) (xs : List ℕ) → Distinct xs → length xs ≤ suc (length (without n xs))
without-length n [] d = omega arith
without-length n (x ∷ xs) (h, d) = elim (Bool-cases (n == x)) [
  | inl e ↦ ground (arith, e, without-absent n xs, h, ==_iff n x)
  | inr e ↦ ground (arith, e, without-length n xs d)
]

without-bounded :
    (n : ℕ) (xs : List ℕ)
    → All (λ p. (0 < p) × (p < suc n)) xs
    → All (λ p. (0 < p) × (p < n)) (without n xs)
without-bounded n [] all = tt
without-bounded n (x ∷ xs) ((positive, below), all) = elim (Bool-cases (n == x)) [
  | inl e ↦ ground (arith, e, without-bounded n xs all)
  | inr e ↦ ground (arith, e, positive, below, without-bounded n xs all)
]

pub Distinct-length :
    (n : ℕ) (xs : List ℕ) → 0 < n → Distinct xs → All (λ p. (0 < p) × (p < n)) xs → length xs < n
Distinct-length zero xs h d all = absurd (omega (arith, h))
Distinct-length (suc zero) [] h d all = omega arith
Distinct-length (suc zero) (x ∷ xs) h d ((positive, below), all) =
    absurd (omega (arith, positive, below))
Distinct-length (suc (suc n)) xs h d all = omega (
  arith,
  without-length (suc n) xs d,
  Distinct-length (suc n) (without (suc n) xs) (omega arith) (without-Distinct (suc n) xs d)
      (without-bounded (suc n) xs all),
)
