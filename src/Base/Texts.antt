-- ===== src/Base/Texts.antt =====
-- Go's strings as their code points. Go compares the UTF-8 bytes, which gives the same order.
use Prim.Native.Nat.{ℕ}
use Prim.Native.Char.{code}
use Prim.Native.String.{String}
use mathlib.Core.Path.{◌≡◌, ◌∙◌, refl, sym, ap}
use mathlib.Core.Logic.{◌↔◌, ◌⊎◌, inl, inr}
use mathlib.Core.Bool.{Bool, true, false, ◌&&◌, ◌||◌}
use mathlib.Core.List.{List, [], ◌∷◌, ◌++◌, reverse, reverse-append, reverse-reverse, append-nil}
use native.Mathlib.Omega.{arith}
use yata_collaborative_edito.Base.Tests.{Bool-cases, Eq, ltb, leb, ◌==◌, if◌then◌else◌}

abbrev pub Text : Type 0
Text = List ℕ

-- The code points of a literal.
abbrev pub codes : String → Text
codes String.[] = []
codes (String.◌∷◌ c s) = code c ∷ codes s

unfoldable pub text_eq : Text → Text → Bool
text_eq [] [] = true
text_eq [] (y ∷ ys) = false
text_eq (x ∷ xs) [] = false
text_eq (x ∷ xs) (y ∷ ys) = (x == y) && text_eq xs ys

pub text_eq_iff : (s t : Text) → (text_eq s t ≡ true) ↔ (s ≡ t)
unfolding text_eq
text_eq_iff [] [] = ground arith
text_eq_iff [] (y ∷ ys) = ground arith
text_eq_iff (x ∷ xs) [] = ground arith
text_eq_iff (x ∷ xs) (y ∷ ys) = ground (arith, text_eq_iff xs ys)

-- `s < t` on strings.
unfoldable pub text_ltb : Text → Text → Bool
text_ltb s [] = false
text_ltb [] (y ∷ ys) = true
text_ltb (x ∷ xs) (y ∷ ys) = ltb x y || ((x == y) && text_ltb xs ys)

pub text_ltb_irrefl : (s : Text) → text_ltb s s ≡ false
unfolding text_ltb
text_ltb_irrefl [] = refl
text_ltb_irrefl (x ∷ xs) = ground (arith, text_ltb_irrefl xs)

pub text_ltb_asymm : (s t : Text) → text_ltb s t ≡ true → text_ltb t s ≡ false
unfolding text_ltb
text_ltb_asymm [] [] h = refl
text_ltb_asymm [] (y ∷ ys) h = refl
text_ltb_asymm (x ∷ xs) [] h = ground arith
text_ltb_asymm (x ∷ xs) (y ∷ ys) h = ground (arith, text_ltb_asymm xs ys)

pub text_ltb_total : (s t : Text) → (text_ltb s t ≡ true) ⊎ ((text_ltb t s ≡ true) ⊎ (s ≡ t))
unfolding text_ltb
text_ltb_total [] [] = inr (inr refl)
text_ltb_total [] (y ∷ ys) = inl refl
text_ltb_total (x ∷ xs) [] = inr (inl refl)
text_ltb_total (x ∷ xs) (y ∷ ys) = ground (arith, text_ltb_total xs ys)

pub text_ltb_trans :
    (s t u : Text) → text_ltb s t ≡ true → text_ltb t u ≡ true → text_ltb s u ≡ true
unfolding text_ltb
text_ltb_trans s t [] h k = ground arith
text_ltb_trans s [] (z ∷ zs) h k = ground arith
text_ltb_trans [] (y ∷ ys) (z ∷ zs) h k = refl
text_ltb_trans (x ∷ xs) (y ∷ ys) (z ∷ zs) h k = ground (arith, text_ltb_trans xs ys zs)

-- unicode.IsSpace
unfoldable pub is_space : ℕ → Bool
is_space c =
    (leb 9 c && leb c 13)
    || (c == 32)
    || (c == 0x85)
    || (c == 0xa0)
    || (c == 0x1680)
    || (leb 0x2000 c && leb c 0x200a)
    || (c == 0x2028)
    || (c == 0x2029)
    || (c == 0x202f)
    || (c == 0x205f)
    || (c == 0x3000)

unfoldable pub trim_left : Text → Text
trim_left [] = []
trim_left (c ∷ s) = let rest = trim_left s in if is_space c then rest else c ∷ s

-- strings.TrimSpace
unfoldable pub trim_space : Text → Text
unfolding is_space trim_left
trim_space s = reverse (trim_left (reverse (trim_left s)))

abbrev pub is_empty : Text → Bool
is_empty [] = true
is_empty (c ∷ s) = false

instance abbrev pub text_Eq : Eq Text
text_Eq = record { beq = text_eq; beq_iff = text_eq_iff }

trim_left_split : (s : Text) → (p : Text) × (s ≡ p ++ trim_left s)
unfolding trim_left
trim_left_split [] = ([], refl)
trim_left_split (c ∷ s) =
    let (p, e) = trim_left_split s in
    elim (Bool-cases (is_space c)) [
      | inl space ↦ (c ∷ p, ground (arith, e))
      | inr letter ↦ ([], ground arith)
    ]

-- What is left begins with no space, and so does each beginning of it.
trim_left_start : (s t r : Text) → trim_left s ≡ t ++ r → trim_left t ≡ t
unfolding trim_left
trim_left_start s [] r h = refl
trim_left_start [] (c ∷ t) r h = absurd (ground (arith, h))
trim_left_start (d ∷ s) (c ∷ t) r h = elim (Bool-cases (is_space d)) [
  | inl space ↦ trim_left_start s (c ∷ t) r (ground (arith, h))
  | inr letter ↦ ground (arith, h)
]

-- A trimmed text is left as it is.
pub trim_space_idempotent : (s : Text) → trim_space (trim_space s) ≡ trim_space s
unfolding trim_space
trim_space_idempotent s =
    let u = trim_left s in
    let w = trim_left (reverse u) in
    let (p, e) = trim_left_split (reverse u) in
    let split : u ≡ reverse w ++ reverse p =
      sym (reverse-reverse u) ∙ ap reverse e ∙ reverse-append p w in
    let first : trim_left (reverse w) ≡ reverse w =
      trim_left_start s (reverse w) (reverse p) split in
    let second : trim_left w ≡ w = trim_left_start (reverse u) w [] (sym (append-nil w)) in
    ap (λ x. reverse (trim_left (reverse x))) first
    ∙ ap (λ x. reverse (trim_left x)) (reverse-reverse w)
    ∙ ap reverse second
