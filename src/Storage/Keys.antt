-- ===== src/Storage/Keys.antt =====
-- backend/internal/storage/boltdb.go: formatID, the key of an element or an operation in its
-- bucket, with fmt.Sprint of an integer written out.
use Prim.Native.Nat.{◌*◌, ◌/◌, ◌%◌}
use yata_collaborative_edito.Base.{
  ℕ, zero, suc, ◌+◌, ◌-◌, ◌≤◌, ◌<◌, ◌≡◌, ◌≢◌, ◌∙◌, inl, inr, refl, sym, ap, false, [], ◌∷◌, ◌++◌,
  arith, ltb, if◌then◌else◌, ℤ, pos, negsuc, Text, has, has-append, has-middle, Bool-cases,
}
use yata_collaborative_edito.Identifier.{ElementId}

abbrev digit : ℕ → ℕ
digit n = 48 + n

unfoldable digits : ℕ → ℕ → Text
digits zero n = digit n ∷ []
digits (suc fuel) n =
    let front = digits fuel (n / 10) in
    if ltb n 10 then digit n ∷ [] else front ++ digit (n % 10) ∷ []

-- The decimal digits of a number, which has not more of them than itself.
unfoldable pub decimal : ℕ → Text
unfolding digits
decimal n = digits n n

-- fmt.Sprint
unfoldable pub sprint : ℤ → Text
sprint (pos n) = decimal n
sprint (negsuc n) = b'-' ∷ decimal (suc n)

-- formatID
unfoldable pub format_id : ElementId → Text
format_id id = b'(' ∷ (id.client_id ++ (b',' ∷ (sprint id.clock ++ b')' ∷ [])))

unfoldable value : ℕ → Text → ℕ
value acc [] = acc
value acc (c ∷ s) = value (acc * 10 + (c - 48)) s

value-append : (acc c : ℕ) (s : Text) → value acc (s ++ c ∷ []) ≡ value acc s * 10 + (c - 48)
unfolding value
value-append acc c [] = refl
value-append acc c (d ∷ s) = value-append (acc * 10 + (d - 48)) c s

smaller : (n fuel : ℕ) → ltb n 10 ≡ false → n ≤ suc fuel → n / 10 ≤ fuel
smaller n fuel large h = let wide : 10 ≤ n = ground (arith, large) in omega (arith, wide, h)

value-digits : (fuel n : ℕ) → n ≤ fuel → value 0 (digits fuel n) ≡ n
unfolding digits value
value-digits zero n h = omega arith
value-digits (suc fuel) n h = elim (Bool-cases (ltb n 10)) [
  | inl small ↦ ground (arith, small)
  | inr large ↦ ground (
    arith,
    large,
    value-append 0 (digit (n % 10)) (digits fuel (n / 10)),
    value-digits fuel (n / 10) (smaller n fuel large h),
  )
]

-- The first of two texts up to the last comma.
last_comma :
    (xs ys ps qs : Text)
    → has b',' ps ≡ false
    → has b',' qs ≡ false
    → xs ++ b',' ∷ ps ≡ ys ++ b',' ∷ qs
    → (xs ≡ ys) × (ps ≡ qs)
last_comma [] [] ps qs h k e = ground (arith, e)
last_comma [] (y ∷ ys) ps qs h k e = absurd (ground (arith, e, h, has-middle b',' ys qs))
last_comma (x ∷ xs) [] ps qs h k e = absurd (ground (arith, e, k, has-middle b',' xs ps))
last_comma (x ∷ xs) (y ∷ ys) ps qs h k e =
    let (p, q) = last_comma xs ys ps qs h k (ground (arith, e)) in (ground (arith, e, p), q)

-- A digit is neither the comma nor the sign.
digits-has : (c fuel n : ℕ) → c < 48 → has c (digits fuel n) ≡ false
unfolding digits
digits-has c zero n h = ground arith
digits-has c (suc fuel) n h = ground (
  arith,
  h,
  has-append c (digits fuel (n / 10)) (digit (n % 10) ∷ []),
  digits-has c fuel (n / 10) h,
)

sprint-has_comma : (i : ℤ) → has b',' (sprint i ++ b')' ∷ []) ≡ false
unfolding sprint decimal
sprint-has_comma (pos n) =
    ground (arith, has-append b',' (decimal n) (b')' ∷ []), digits-has b',' n n (omega arith))
sprint-has_comma (negsuc n) = ground (
  arith,
  has-append b',' (decimal (suc n)) (b')' ∷ []),
  digits-has b',' (suc n) (suc n) (omega arith),
)

decimal_injective : (n m : ℕ) → decimal n ≡ decimal m → n ≡ m
unfolding decimal
decimal_injective n m e =
    sym (value-digits n n (omega arith)) ∙ ap (value 0) e ∙ value-digits m m (omega arith)

decimal_sign : (n : ℕ) (s : Text) → decimal n ≢ b'-' ∷ s
unfolding decimal
decimal_sign n s e =
    let none_there = digits-has b'-' n n (omega arith) in
    ground (arith, ap (has b'-') e, none_there)

sprint_injective : (i j : ℤ) → sprint i ≡ sprint j → i ≡ j
unfolding sprint
sprint_injective (pos n) (pos m) e = ap pos (decimal_injective n m e)
sprint_injective (pos n) (negsuc m) e = absurd (decimal_sign n (decimal (suc m)) e)
sprint_injective (negsuc n) (pos m) e = absurd (decimal_sign m (decimal (suc n)) (sym e))
sprint_injective (negsuc n) (negsuc m) e =
    let same : suc n ≡ suc m = decimal_injective (suc n) (suc m) (ground (arith, e)) in
    ground (arith, same)

last_equal : (xs ys : Text) (c : ℕ) → xs ++ c ∷ [] ≡ ys ++ c ∷ [] → xs ≡ ys
last_equal [] [] c e = refl
last_equal [] (y ∷ []) c e = absurd (ground (arith, e))
last_equal [] (y ∷ z ∷ ys) c e = absurd (ground (arith, e))
last_equal (x ∷ []) [] c e = absurd (ground (arith, e))
last_equal (x ∷ z ∷ xs) [] c e = absurd (ground (arith, e))
last_equal (x ∷ xs) (y ∷ ys) c e = ground (arith, e, last_equal xs ys c)

abbrev rest_of : Text → Text
rest_of [] = []
rest_of (c ∷ s) = s

-- Different identifiers have different keys, whatever characters the clients have.
pub format_id_injective : (a b : ElementId) → format_id a ≡ format_id b → a ≡ b
unfolding format_id
format_id_injective a b e =
    let (clients, clocks) =
      last_comma a.client_id b.client_id (sprint a.clock ++ b')' ∷ []) (sprint b.clock ++ b')' ∷ [])
        (sprint-has_comma a.clock) (sprint-has_comma b.clock) (ap rest_of e) in
    let clock =
      sprint_injective a.clock b.clock (last_equal (sprint a.clock) (sprint b.clock) b')' clocks) in
    ground (arith, clients, clock)
