-- ===== src/Document/Positions.antt =====
-- findVisiblePosition and findVisibleElement: where the loops stop in a valid document.
use yata_collaborative_edito.Base.{
  ℕ, zero, suc, ◌+◌, ◌<◌, ◌≤◌, ◌≡◌, ◌∙◌, refl, ap, inl, inr, true, false, some, List, [], ◌∷◌, ◌++◌,
  arith, Bool-cases, All, All-map, negsuc, last_of, length, pos, eq_ℤ, eq_ℤ_iff, ok,
}
use yata_collaborative_edito.Document.{Ptr, Memory, Document, returned, raised, inexisting_position}
use yata_collaborative_edito.Document.Traversal.{position_loop, find_visible_position}
use yata_collaborative_edito.Document.Chain.{Linked}
use yata_collaborative_edito.Document.Valid.{visible, first_of, IsValid, InUse}

abbrev pub NonNull : List Ptr → Type 0
NonNull = All (λ p. 0 < p)

-- The gap before the visible element number `i`, counted from `v`.
pub record Gap (m : Memory) (cs : List Ptr) (v i : ℕ) : Type 0 where
  pub before : List Ptr
  pub after : List Ptr
  pub joined : cs ≡ before ++ after
  pub count : length (visible m before) + v ≡ i

module _ (m : Memory) (fuel i v : ℕ) (c : Ptr) (used : 0 < c) where
  step_deleted :
      (m c).is_deleted ≡ true
      → position_loop m (suc fuel) (pos i) c v ≡ position_loop m fuel (pos i) (m c).right v
  unfolding position_loop
  step_deleted dead = ground arith

  step_visible :
      (m c).is_deleted ≡ false
      → eq_ℤ (pos v) (pos i) ≡ false
      → position_loop m (suc fuel) (pos i) c v ≡ position_loop m fuel (pos i) (m c).right (v + 1)
  unfolding position_loop
  step_visible shown further = ground arith

  step_found :
      (m c).is_deleted ≡ false
      → eq_ℤ (pos v) (pos i) ≡ true
      → position_loop m (suc fuel) (pos i) c v ≡ ok (some ((m c).left, c))
  unfolding position_loop
  step_found shown here = ground arith

module _ {m : Memory} {cs : List Ptr} {v i : ℕ} (c : Ptr) where
  Gap-deleted : (m c).is_deleted ≡ true → Gap m cs v i → Gap m (c ∷ cs) v i
  Gap-deleted dead g = record {
    before = c ∷ g.before;
    after = g.after;
    joined = ap (◌∷◌ c) g.joined;
    count = rw dead g.count;
  }

  Gap-visible : (m c).is_deleted ≡ false → Gap m cs (v + 1) i → Gap m (c ∷ cs) v i
  Gap-visible shown g = record {
    before = c ∷ g.before;
    after = g.after;
    joined = ap (◌∷◌ c) g.joined;
    count = rw shown (omega (arith, g.count));
  }

module _ (m : Memory) (end : Ptr) (live : (m end).is_deleted ≡ false) (i : ℕ) where
  position_loop-Gap :
      (a : Ptr) (cs : List Ptr) (fuel v : ℕ)
      → Linked m a (cs ++ end ∷ [])
      → NonNull (cs ++ end ∷ [])
      → length cs < fuel
      → v ≤ i
      → i ≤ v + length (visible m cs)
      → (g : Gap m cs v i) × (position_loop m fuel (pos i) (m a).right v
          ≡ ok (some (last_of a g.before, first_of g.after end)))
  unfolding position_loop Gap-deleted Gap-visible
  position_loop-Gap a cs zero v s nn h low high = absurd (omega arith)
  position_loop-Gap a [] (suc fuel) v s nn h low high = (
    record { before = []; after = []; joined = refl; count = omega arith },
    ground (arith, eq_ℤ_iff (pos v) (pos i)),
  )
  position_loop-Gap a (c ∷ cs) (suc fuel) v s nn h low high = elim (Bool-cases (m c).is_deleted) [
    | inl dead ↦
        let (g, run) = position_loop-Gap c cs fuel v s.2 nn.1 (omega arith) low (ground arith) in
        (Gap-deleted c dead g, rw s.0 (step_deleted m fuel i v c nn.0 dead ∙ run))
    | inr shown ↦ elim (Bool-cases (eq_ℤ (pos v) (pos i))) [
      | inl here ↦ (
        record {
          before = [];
          after = c ∷ cs;
          joined = refl;
          count = ground (arith, eq_ℤ_iff (pos v) (pos i));
        },
        rw s.0 (step_found m fuel i v c nn.0 shown here ∙ ap (λ l. ok (some (l, c))) s.1),
      )
      | inr further ↦
          let (g, run) =
            position_loop-Gap c cs fuel (v + 1) s.2 nn.1 (omega arith)
              (ground (arith, eq_ℤ_iff (pos v) (pos i))) (ground arith) in
          (Gap-visible c shown g, rw s.0 (step_visible m fuel i v c nn.0 shown further ∙ run))
    ]
  ]

module _ {d : Document} {cs : List Ptr} (v : IsValid d cs) where
  pub start_used : 0 < d.start
  start_used = v.in_use.0.0

  pub non_null : NonNull (cs ++ d.end ∷ [])
  non_null = All-map (InUse d) (λ p. 0 < p) (cs ++ d.end ∷ []) (λ p used. used.0) v.in_use.1

  -- The neighbours that findVisiblePosition returns for an index up to the number of visible
  -- elements.
  pub find_visible_position-Gap :
      (i : ℕ)
      → i ≤ length (visible d.memory cs)
      → (g : Gap d.memory cs 0 i) × (find_visible_position d (pos i)
          ≡ ok (returned (last_of d.start g.before, first_of g.after d.end)))
  unfolding find_visible_position
  find_visible_position-Gap i h =
      let (g, run) =
        position_loop-Gap d.memory d.end v.end_live i d.start cs (suc d.allocated) 0 v.linked
          non_null (omega (arith, v.room)) (omega arith) (omega arith) in
      (g, ground (arith, run, v.counter, start_used))

  -- Any other index is refused.
  pub find_visible_position-above :
      (i : ℕ)
      → length (visible d.memory cs) < i
      → find_visible_position d (pos i) ≡ ok (raised inexisting_position)
  unfolding find_visible_position
  find_visible_position-above i h = ground (arith, v.counter)

pub find_visible_position-negative :
    (d : Document) (n : ℕ) → find_visible_position d (negsuc n) ≡ ok (raised inexisting_position)
unfolding find_visible_position
find_visible_position-negative d n = ground arith
