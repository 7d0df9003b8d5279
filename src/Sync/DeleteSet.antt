-- ===== src/Sync/DeleteSet.antt =====
-- GenerateDeleteSet: for each client the sorted clocks of the deletions in the log.
use mathlib.Core.Path.{subst}
use yata_collaborative_edito.Base.{
  ◌≡◌, ◌∙◌, refl, sym, ap, Bool, false, ◌||◌, List, [], ◌∷◌, ◌++◌, arith, ℤ, ltb_ℤ, eq_ℤ, Text,
  text_eq_iff, text_Eq, Map, lookup, insert, lookup-insert, All, Bool-cases, inl, inr,
}
use yata_collaborative_edito.Identifier.{ElementId, id_eq, id_Eq}
use yata_collaborative_edito.Protocol.Operations.{DeleteOperation}
use yata_collaborative_edito.Sync.{
  exists, sort_insert, sort_ints, sort_clocks, or_nil, delete_set_loop, generate_delete_set,
  delete_exists,
}

delete_exists-append :
    (xs ys : List ℤ) (n : ℤ)
    → delete_exists (xs ++ ys) n ≡ (delete_exists xs n || delete_exists ys n)
unfolding delete_exists
delete_exists-append [] ys n = refl
delete_exists-append (x ∷ xs) ys n = ground (arith, delete_exists-append xs ys n)

delete_exists-sort_insert :
    (x : ℤ) (xs : List ℤ) (n : ℤ)
    → delete_exists (sort_insert x xs) n ≡ (eq_ℤ x n || delete_exists xs n)
unfolding delete_exists sort_insert
delete_exists-sort_insert x [] n = ground arith
delete_exists-sort_insert x (y ∷ xs) n = ground (arith, delete_exists-sort_insert x xs n)

delete_exists-sort_ints :
    (xs : List ℤ) (n : ℤ) → delete_exists (sort_ints xs) n ≡ delete_exists xs n
unfolding delete_exists sort_ints
delete_exists-sort_ints [] n = refl
delete_exists-sort_ints (x ∷ xs) n =
    ground (arith, delete_exists-sort_insert x (sort_ints xs) n, delete_exists-sort_ints xs n)

sorted_nil : sort_ints [] ≡ []
unfolding sort_ints
sorted_nil = refl

or_nil-sort_clocks :
    (c : Text) (m : Map Text (List ℤ))
    → or_nil (lookup c (sort_clocks m)) ≡ sort_ints (or_nil (lookup c m))
unfolding lookup sort_clocks
or_nil-sort_clocks c [] = sym sorted_nil
or_nil-sort_clocks c ((k, clocks) ∷ m) = ground (arith, or_nil-sort_clocks c m)

-- The deletions of a client that the set holds.
abbrev pub holds : Map Text (List ℤ) → Text → ℤ → Bool
holds set c n = delete_exists (or_nil (lookup c set)) n

abbrev pub is_logged : Map ElementId DeleteOperation → Text → ℤ → Bool
is_logged log c n = exists (lookup (record { client_id = c; clock = n }) log)

holds_appended :
    (set : Map Text (List ℤ)) (k : ElementId) (c : Text) (n : ℤ)
    → holds (insert k.client_id (or_nil (lookup k.client_id set) ++ k.clock ∷ []) set) c n
      ≡ (holds set c n || id_eq k (record { client_id = c; clock = n }))
unfolding id_eq delete_exists
holds_appended set k c n = ground (
  arith,
  text_eq_iff k.client_id c,
  lookup-insert k.client_id c (or_nil (lookup k.client_id set) ++ k.clock ∷ []) set,
  delete_exists-append (or_nil (lookup k.client_id set)) (k.clock ∷ []) n,
)

is_logged-cons :
    (k : ElementId) (op : DeleteOperation) (log : Map ElementId DeleteOperation) (c : Text) (n : ℤ)
    → is_logged ((k, op) ∷ log) c n
      ≡ (id_eq k (record { client_id = c; clock = n }) || is_logged log c n)
unfolding lookup
is_logged-cons k op log c n = ground arith

is_logged-nil : (c : Text) (n : ℤ) → is_logged [] c n ≡ false
unfolding lookup
is_logged-nil c n = refl

loop_holds :
    (set : Map Text (List ℤ)) (log : Map ElementId DeleteOperation) (c : Text) (n : ℤ)
    → holds (delete_set_loop set log) c n ≡ (holds set c n || is_logged log c n)
unfolding delete_set_loop
loop_holds set [] c n = ground (arith, is_logged-nil c n)
loop_holds set ((k, op) ∷ log) c n = ground (
  arith,
  loop_holds (insert k.client_id (or_nil (lookup k.client_id set) ++ k.clock ∷ []) set) log c n,
  holds_appended set k c n,
  is_logged-cons k op log c n,
)

-- Every list of clocks in ascending order.
abbrev pub IsSorted : List ℤ → Type 0
IsSorted [] = Unit {0}
IsSorted (x ∷ xs) = All (λ y. ltb_ℤ y x ≡ false) xs × IsSorted xs

sort_insert-All :
    (a x : ℤ) (xs : List ℤ)
    → ltb_ℤ x a ≡ false
    → All (λ y. ltb_ℤ y a ≡ false) xs
    → All (λ y. ltb_ℤ y a ≡ false) (sort_insert x xs)
unfolding sort_insert
sort_insert-All a x [] h hs = (h, tt)
sort_insert-All a x (y ∷ xs) h hs = elim (Bool-cases (ltb_ℤ y x)) [
  | inl less ↦ rw less (hs.0, sort_insert-All a x xs h hs.1)
  | inr more ↦ rw more (h, hs)
]

All-above :
    (x y : ℤ) (xs : List ℤ)
    → ltb_ℤ y x ≡ false
    → All (λ z. ltb_ℤ z y ≡ false) xs
    → All (λ z. ltb_ℤ z x ≡ false) xs
All-above x y [] h hs = tt
All-above x y (z ∷ xs) h hs = (ground arith, All-above x y xs h hs.1)

sort_insert-IsSorted : (x : ℤ) (xs : List ℤ) → IsSorted xs → IsSorted (sort_insert x xs)
unfolding sort_insert
sort_insert-IsSorted x [] s = (tt, tt)
sort_insert-IsSorted x (y ∷ xs) s = elim (Bool-cases (ltb_ℤ y x)) [
  | inl less ↦ rw less (sort_insert-All y x xs (ground arith) s.0, sort_insert-IsSorted x xs s.1)
  | inr more ↦ rw more ((more, All-above x y xs more s.0), s)
]

sort_ints-IsSorted : (xs : List ℤ) → IsSorted (sort_ints xs)
unfolding sort_ints
sort_ints-IsSorted [] = tt
sort_ints-IsSorted (x ∷ xs) = sort_insert-IsSorted x (sort_ints xs) (sort_ints-IsSorted xs)

nil_holds : (c : Text) (n : ℤ) → holds [] c n ≡ false
unfolding lookup delete_exists
nil_holds c n = refl

-- The delete set holds exactly the logged deletions, client by client, with the clocks of each
-- client in ascending order.
pub delete_set_lem :
    (log : Map ElementId DeleteOperation) (c : Text)
    → ((n : ℤ) → holds (generate_delete_set log) c n ≡ is_logged log c n)
      × IsSorted (or_nil (lookup c (generate_delete_set log)))
unfolding generate_delete_set
delete_set_lem log c =
    let sorted = or_nil-sort_clocks c (delete_set_loop [] log) in
    (
      λ n.
          ap (λ xs. delete_exists xs n) sorted
          ∙ delete_exists-sort_ints (or_nil (lookup c (delete_set_loop [] log))) n
          ∙ loop_holds [] log c n
          ∙ ap (λ b. b || is_logged log c n) (nil_holds c n),
      subst IsSorted (sym sorted) (sort_ints-IsSorted (or_nil (lookup c (delete_set_loop [] log)))),
    )
