-- ===== src/Document/Conflicts.antt =====
-- The walks of a remote insertion: conflictZone, isOriginAfter and the loop of
-- findInsetionPoint on a linked chain.
use yata_collaborative_edito.Base.{
  ℕ, zero, suc, ◌<◌, ◌≡◌, refl, ap, Bool, true, false, inl, inr, List, [], ◌∷◌, ◌++◌, arith, ◌==◌,
  if◌then◌else◌, Bool-cases, has, All, All-prefix, Distinct-apart, ◌⊎◌, last_of, length, ok,
}
use yata_collaborative_edito.Identifier.{ElementId}
use yata_collaborative_edito.Document.{Ptr, Memory, Document}
use yata_collaborative_edito.Document.Traversal.{
  conflict_loop, origin_after_loop, is_origin_after, insertion_loop, id_before,
}
use yata_collaborative_edito.Document.Chain.{Linked}
use yata_collaborative_edito.Document.Valid.{first_of, IsValid}
use yata_collaborative_edito.Document.Positions.{NonNull, non_null, start_used}

pub Linked-suffix :
    (m : Memory) (a : Ptr) (xs ys : List Ptr) → Linked m a (xs ++ ys) → Linked m (last_of a xs) ys
Linked-suffix m a [] ys s = s
Linked-suffix m a (x ∷ xs) ys s = Linked-suffix m x xs ys s.2

-- Whether the origin of the conflicting element stands before `inserted` in the chain.
abbrev pub origin_first : List Ptr → (inserted conflictive_origin : Ptr) → Bool
origin_first [] inserted conflictive_origin = false
origin_first (c ∷ cs) inserted conflictive_origin =
    if inserted == c
    then false
    else if conflictive_origin == c
    then true
    else origin_first cs inserted conflictive_origin

module _ (m : Memory) (t : Ptr) (ts : List Ptr) where
  -- The zone from behind `a` up to `t` is what stands between them.
  pub conflict_loop-zone :
      (a : Ptr) (mid : List Ptr) (fuel : ℕ)
      → Linked m a (mid ++ t ∷ ts)
      → NonNull mid
      → has t mid ≡ false
      → length mid < fuel
      → conflict_loop m fuel (m a).right t ≡ ok mid
  unfolding conflict_loop
  conflict_loop-zone a mid zero s nn h small = absurd (omega arith)
  conflict_loop-zone a [] (suc fuel) s nn h small = ground arith
  conflict_loop-zone a (c ∷ mid) (suc fuel) s nn h small =
      ground (arith, conflict_loop-zone c mid fuel s.2 nn.1)

module _ (m : Memory) (end inserted conflictive_origin : Ptr) where
  origin_after_loop-first :
      (a : Ptr) (cs : List Ptr) (fuel : ℕ)
      → Linked m a (cs ++ end ∷ [])
      → NonNull cs
      → has end cs ≡ false
      → length cs < fuel
      → origin_after_loop m fuel end inserted conflictive_origin (m a).right
        ≡ ok (origin_first cs inserted conflictive_origin)
  unfolding origin_after_loop
  origin_after_loop-first a cs zero s nn h small = absurd (omega arith)
  origin_after_loop-first a [] (suc fuel) s nn h small = ground arith
  origin_after_loop-first a (c ∷ cs) (suc fuel) s nn h small =
      ground (arith, origin_after_loop-first c cs fuel s.2 nn.1)

module _ (d : Document) (cs : List Ptr) (origin : Ptr) (new_id : ElementId) where
  -- The conflicting element stays on the left of the new one.
  abbrev pub Passes : Ptr → Type 0
  Passes op =
      (origin_first cs origin (d.memory op).origin ≡ false)
      × (id_before (d.memory op).element_id new_id ≡ true)

  -- The first element on the right of the new one is where the loop breaks.
  abbrev pub Stops : List Ptr → Type 0
  Stops [] = Unit {0}
  Stops (op ∷ rest) =
      (origin_first cs origin (d.memory op).origin ≡ true)
      ⊎ (id_before (d.memory op).element_id new_id ≡ false)

  pub record Settled (mid : List Ptr) : Type 0 where
    pub passed : List Ptr
    pub kept : List Ptr
    pub splits : mid ≡ passed ++ kept
    pub passes : All Passes passed
    pub stops : Stops kept

module _ {d : Document} {cs : List Ptr} (v : IsValid d cs) where
  pub is_origin_after-first :
      (inserted conflictive : Ptr)
      → is_origin_after d inserted conflictive
        ≡ ok (origin_first cs inserted (d.memory conflictive).origin)
  unfolding is_origin_after
  is_origin_after-first inserted conflictive = ground (
    arith,
    start_used v,
    origin_after_loop-first d.memory d.end inserted (d.memory conflictive).origin d.start cs
        (suc d.allocated) v.linked (All-prefix (λ p. 0 < p) cs (d.end ∷ []) (non_null v))
        (Distinct-apart d.end cs [] v.distinct.1) (omega (arith, v.room)),
  )

  -- The loop stops between two neighbours, at the first element that does not pass.
  pub insertion_loop-Settled :
      (origin : Ptr) (new_id : ElementId) (a : Ptr) (mid : List Ptr) (t : Ptr) (ts : List Ptr)
      → Linked d.memory a (mid ++ t ∷ ts)
      → (s : Settled d cs origin new_id mid) × (insertion_loop d origin new_id a
            (d.memory a).right
            mid
          ≡ ok (last_of a s.passed, first_of s.kept t))
  unfolding insertion_loop
  insertion_loop-Settled origin new_id a [] t ts s =
      (record { passed = []; kept = []; splits = refl; passes = tt; stops = tt }, rw s.0)
  insertion_loop-Settled origin new_id a (op ∷ mid) t ts s =
      rw (is_origin_after-first origin op)
        (elim (Bool-cases (origin_first cs origin (d.memory op).origin)) [
          | inl after ↦ (
            record { passed = []; kept = op ∷ mid; splits = refl; passes = tt; stops = inl after },
            rw (after, s.0),
          )
          | inr not_after ↦ elim (Bool-cases (id_before (d.memory op).element_id new_id)) [
            | inl before ↦
                let (rest, run) = insertion_loop-Settled origin new_id op mid t ts s.2 in
                (
                  record {
                    passed = op ∷ rest.passed;
                    kept = rest.kept;
                    splits = ap (◌∷◌ op) rest.splits;
                    passes = ((not_after, before), rest.passes);
                    stops = rest.stops;
                  },
                  rw (not_after, before) run,
                )
            | inr not_before ↦ (
              record {
                passed = [];
                kept = op ∷ mid;
                splits = refl;
                passes = tt;
                stops = inr not_before;
              },
              rw (not_after, not_before),
            )
          ]
        ])
