-- ===== src/Sync/StateVector.antt =====
-- GenerateStateVector: each entry is the end of the longest gapless run of a client's clocks.
use mathlib.Core.Path.{subst}
use yata_collaborative_edito.Base.{
  ◌≡◌, ◌∙◌, ◌⊎◌, sym, ap, true, false, inl, inr, none, some, [], ◌∷◌, arith, if◌then◌else◌,
  Bool-cases, Option-cases, ℤ, ltb_ℤ, Text, text_eq_iff, text_Eq, Map, lookup, lookup-insert,
}
use yata_collaborative_edito.Identifier.{ElementId, id_eq, id_eq_iff, id_Eq}
use yata_collaborative_edito.Sync.{
  is_sentinel, exists, validate_clock_continuity, state_vector_step, state_vector_loop,
  generate_state_vector,
}
use yata_collaborative_edito.Sync.Continuity.{
  Log, some-inj, Logged, Gapless, validate_clock_continuity_iff, IsSound, Reaches,
}

module _ (log : Log) (vector : Map Text ℤ) (k : ElementId) where
  -- One step leaves every other client alone, and for its own goes to its clock or stays.
  step_cases :
      (c : Text)
      → (lookup c (state_vector_step log vector k) ≡ lookup c vector)
        ⊎ ((c ≡ k.client_id)
            × (lookup c (state_vector_step log vector k) ≡ some k.clock)
            × (is_sentinel c ≡ false)
            × (validate_clock_continuity log c k.clock ≡ true))
  unfolding state_vector_step
  step_cases c =
      ground (arith, text_eq_iff k.client_id c, lookup-insert k.client_id c k.clock vector)

  step_raises :
      (n : ℤ)
      → is_sentinel k.client_id ≡ false
      → validate_clock_continuity log k.client_id k.clock ≡ true
      → lookup k.client_id vector ≡ some n
      → lookup k.client_id (state_vector_step log vector k)
        ≡ some (if ltb_ℤ n k.clock then k.clock else n)
  unfolding state_vector_step
  step_raises n s g h = ground (
    arith,
    text_eq_iff k.client_id k.client_id,
    lookup-insert k.client_id k.client_id k.clock vector,
  )

  step_starts :
      is_sentinel k.client_id ≡ false
      → validate_clock_continuity log k.client_id k.clock ≡ true
      → lookup k.client_id vector ≡ none
      → lookup k.client_id (state_vector_step log vector k) ≡ some k.clock
  unfolding state_vector_step
  step_starts s g h = ground (
    arith,
    text_eq_iff k.client_id k.client_id,
    lookup-insert k.client_id k.client_id k.clock vector,
  )

  step_covers :
      is_sentinel k.client_id ≡ false
      → validate_clock_continuity log k.client_id k.clock ≡ true
      → Reaches (state_vector_step log vector k) k.client_id k.clock
  step_covers s g = elim (Option-cases (lookup k.client_id vector)) [
    | inl e ↦ (k.clock, step_starts s g e, ground arith)
    | inr (n, e) ↦ (if ltb_ℤ n k.clock then k.clock else n, step_raises n s g e, ground arith)
  ]

  step_grows :
      (c : Text) (n : ℤ) → lookup c vector ≡ some n → Reaches (state_vector_step log vector k) c n
  step_grows c n h = elim (step_cases c) [
    | inl e ↦ (n, e ∙ h, ground arith)
    | inr (e, l, s, g) ↦
        let h' = subst (λ a. lookup a vector ≡ some n) e h in
        let s' = subst (λ a. is_sentinel a ≡ false) e s in
        let g' = subst (λ a. validate_clock_continuity log a k.clock ≡ true) e g in
        (
          if ltb_ℤ n k.clock then k.clock else n,
          ap (λ a. lookup a (state_vector_step log vector k)) e ∙ step_raises n s' g' h',
          ground arith,
        )
  ]

  step-IsSound :
      Logged log k.client_id k.clock
      → IsSound log vector
      → IsSound log (state_vector_step log vector k)
  step-IsSound here v = record {
    gapless = λ c n h. elim (step_cases c) [
      | inl e ↦ v.gapless c n (sym e ∙ h)
      | inr (e, l, s, g) ↦
          subst (Gapless log c) (some-inj (sym l ∙ h))
            ((validate_clock_continuity_iff log c k.clock).0 g)
    ];
    reached = λ c n h. elim (step_cases c) [
      | inl e ↦ v.reached c n (sym e ∙ h)
      | inr (e, l, s, g) ↦
          subst (Logged log c) (some-inj (sym l ∙ h))
            (subst (λ a. Logged log a k.clock) (sym e) here)
    ];
    clients =
        λ c n h. elim (step_cases c) [ inl e ↦ v.clients c n (sym e ∙ h) | inr (e, l, s, g) ↦ s ];
  }

-- A map has every key of its list.
pub has_key :
    {V : Type 0} (k : ElementId) (v : V) (m : Map ElementId V)
    → exists (lookup k ((k, v) ∷ m)) ≡ true
unfolding lookup
has_key k v m = ground (arith, id_eq_iff k k)

pub has_key_later :
    {V : Type 0} (j k : ElementId) (v : V) (m : Map ElementId V)
    → exists (lookup j m) ≡ true
    → exists (lookup j ((k, v) ∷ m)) ≡ true
unfolding lookup
has_key_later j k v m h = ground arith

-- The keys of `rest` are keys of the log.
abbrev Within : Log → Log → Type 0
Within rest log = (j : ElementId) → exists (lookup j rest) ≡ true → exists (lookup j log) ≡ true

module _ (log : Log) where
  loop-IsSound :
      (vector : Map Text ℤ) (rest : Log)
      → Within rest log
      → IsSound log vector
      → IsSound log (state_vector_loop log vector rest)
  unfolding state_vector_loop
  loop-IsSound vector [] w v = v
  loop-IsSound vector ((k, op) ∷ rest) w v =
      loop-IsSound (state_vector_step log vector k) rest (λ j h. w j (has_key_later j k op rest h))
        (step-IsSound log vector k (w k (has_key k op rest)) v)

  loop_grows :
      (vector : Map Text ℤ) (rest : Log) (c : Text) (n : ℤ)
      → lookup c vector ≡ some n
      → Reaches (state_vector_loop log vector rest) c n
  unfolding state_vector_loop
  loop_grows vector [] c n h = (n, h, ground arith)
  loop_grows vector ((k, op) ∷ rest) c n h =
      let (m, e, le) = step_grows log vector k c n h in
      let (m', e', le') = loop_grows (state_vector_step log vector k) rest c m e in
      (m', e', ground arith)

  loop_covers :
      (vector : Map Text ℤ) (rest : Log) (j : ElementId)
      → exists (lookup j rest) ≡ true
      → is_sentinel j.client_id ≡ false
      → validate_clock_continuity log j.client_id j.clock ≡ true
      → Reaches (state_vector_loop log vector rest) j.client_id j.clock
  unfolding state_vector_loop lookup
  loop_covers vector [] j h s g = absurd (cc h)
  loop_covers vector ((k, op) ∷ rest) j h s g = elim (Bool-cases (id_eq k j)) [
    | inl same ↦
        let is = (id_eq_iff k j).0 same in
        let (m, e, le) =
          step_covers log vector k (subst (λ a. is_sentinel a.client_id ≡ false) (sym is) s)
            (subst (λ a. validate_clock_continuity log a.client_id a.clock ≡ true) (sym is) g) in
        let (m', e', le') = loop_grows (state_vector_step log vector k) rest k.client_id m e in
        subst
          (λ a.
            Reaches (state_vector_loop log (state_vector_step log vector k) rest) a.client_id
              a.clock)
          is (m', e', ground arith)
    | inr other ↦ loop_covers (state_vector_step log vector k) rest j (ground arith) s g
  ]

  -- Every entry of the vector that `GenerateStateVector` gives is a logged clock of a client that
  -- is no sentinel, and the log has all clocks of the client from 0 up to it.
  pub state_vector-IsSound : IsSound log (generate_state_vector log)
  unfolding generate_state_vector lookup
  state_vector-IsSound =
      loop-IsSound [] log (λ j h. h)
        (record { gapless = λ c n h. cc h; reached = λ c n h. cc h; clients = λ c n h. cc h })

  -- A logged clock up to which the log has all clocks of its client, no sentinel, is reached by
  -- the client's entry in the vector that `GenerateStateVector` gives.
  pub state_vector-Reaches :
      (k : ElementId)
      → exists (lookup k log) ≡ true
      → is_sentinel k.client_id ≡ false
      → Gapless log k.client_id k.clock
      → Reaches (generate_state_vector log) k.client_id k.clock
  unfolding generate_state_vector
  state_vector-Reaches k h s g =
      loop_covers [] log k h s ((validate_clock_continuity_iff log k.client_id k.clock).1 g)
