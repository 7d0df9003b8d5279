-- ===== src/Sync.antt =====
-- backend/internal/sync/statevector.go: the state vector and delete set that a replica sends, and
-- the operations that another replica finds to be missing there.
pub mod Continuity
pub mod StateVector
pub mod DeleteSet
pub mod Missing
pub mod Adapter
pub mod Laws
pub mod RoundTrip
use yata_collaborative_edito.Base.{
  ℕ, zero, suc, Bool, true, false, ◌||◌, not, Option, none, some, List, [], ◌∷◌, ◌++◌,
  if◌then◌else◌, ℤ, pos, negsuc, ltb_ℤ, eq_ℤ, Text, codes, text_eq, text_Eq, Map, lookup, insert,
  length,
}
use yata_collaborative_edito.Identifier.{ElementId, new_id, id_Eq}
use yata_collaborative_edito.Protocol.Operations.{InsertOperation, DeleteOperation, Delta}

-- type Vector struct
pub record Vector : Type 0 where
  pub state_vectors : Map Text ℤ
  pub delete_set : Map Text (List ℤ)

-- The test that skips the sentinels.
unfoldable pub is_sentinel : Text → Bool
is_sentinel client_id = text_eq client_id (codes "START") || text_eq client_id (codes "END")

-- `_, exists := m[k]`
abbrev pub exists : {V : Type 0} → Option V → Bool
exists none = false
exists (some v) = true

-- The loop of validateClockContinuity: `rounds` clocks from `i` on.
unfoldable pub continuity_loop : Map ElementId InsertOperation → Text → ℕ → (rounds : ℕ) → Bool
unfolding new_id
continuity_loop log client_id i zero = true
continuity_loop log client_id i (suc rounds) =
    let further = continuity_loop log client_id (suc i) rounds in
    if exists (lookup (new_id client_id (pos i)) log) then further else false

-- validateClockContinuity
unfoldable pub validate_clock_continuity : Map ElementId InsertOperation → Text → ℤ → Bool
validate_clock_continuity log client_id (pos n) = continuity_loop log client_id 0 (suc n)
validate_clock_continuity log client_id (negsuc n) = true

-- The body of the loop of GenerateStateVector for the key `k`.
unfoldable pub state_vector_step :
    Map ElementId InsertOperation → Map Text ℤ → ElementId → Map Text ℤ
state_vector_step log vector k =
    if is_sentinel k.client_id
    then vector
    else if not (validate_clock_continuity log k.client_id k.clock)
    then vector
    else elim (lookup k.client_id vector) [
      | none ↦ insert k.client_id k.clock vector
      | some value ↦ if ltb_ℤ value k.clock then insert k.client_id k.clock vector else vector
    ]

-- The loop of GenerateStateVector over the keys of the insert log.
unfoldable pub state_vector_loop :
    Map ElementId InsertOperation → Map Text ℤ → Map ElementId InsertOperation → Map Text ℤ
state_vector_loop log vector [] = vector
state_vector_loop log vector ((k, _) ∷ rest) =
    state_vector_loop log (state_vector_step log vector k) rest

-- GenerateStateVector
unfoldable pub generate_state_vector : Map ElementId InsertOperation → Map Text ℤ
generate_state_vector log = state_vector_loop log [] log

-- sort.Ints
unfoldable pub sort_insert : ℤ → List ℤ → List ℤ
sort_insert x [] = x ∷ []
sort_insert x (y ∷ ys) = if ltb_ℤ y x then y ∷ sort_insert x ys else x ∷ y ∷ ys

unfoldable pub sort_ints : List ℤ → List ℤ
sort_ints [] = []
sort_ints (x ∷ xs) = sort_insert x (sort_ints xs)

-- sortClocks
unfoldable pub sort_clocks : Map Text (List ℤ) → Map Text (List ℤ)
sort_clocks [] = []
sort_clocks ((client_id, clocks) ∷ rest) = (client_id, sort_ints clocks) ∷ sort_clocks rest

-- m[k], with nil where there is no entry
abbrev pub or_nil : Option (List ℤ) → List ℤ
or_nil none = []
or_nil (some clocks) = clocks

unfoldable pub delete_set_loop :
    Map Text (List ℤ) → Map ElementId DeleteOperation → Map Text (List ℤ)
delete_set_loop set [] = set
delete_set_loop set ((k, _) ∷ rest) =
    delete_set_loop (insert k.client_id (or_nil (lookup k.client_id set) ++ k.clock ∷ []) set) rest

-- GenerateDeleteSet
unfoldable pub generate_delete_set : Map ElementId DeleteOperation → Map Text (List ℤ)
generate_delete_set log = sort_clocks (delete_set_loop [] log)

-- deleteExists
unfoldable pub delete_exists : List ℤ → ℤ → Bool
delete_exists [] clock = false
delete_exists (x ∷ xs) clock = if eq_ℤ x clock then true else delete_exists xs clock

-- Whether ComputeDelta appends the insertion `k`.
unfoldable pub is_missing_insert : Map Text ℤ → ElementId → Bool
is_missing_insert known k =
    if is_sentinel k.client_id
    then false
    else elim (lookup k.client_id known) [ none ↦ true | some value ↦ ltb_ℤ value k.clock ]

-- Whether ComputeDelta appends the deletion `k`.
unfoldable pub is_missing_delete : Map Text (List ℤ) → ElementId → Bool
is_missing_delete known k =
    if is_sentinel k.client_id then false else elim (lookup k.client_id known) [
      | none ↦ true
      | some clocks ↦ not (delete_exists clocks k.clock)
    ]

unfoldable pub missing_keys : {V : Type 0} → (ElementId → Bool) → Map ElementId V → List ElementId
missing_keys missing [] = []
missing_keys missing ((k, _) ∷ rest) =
    if missing k then k ∷ missing_keys missing rest else missing_keys missing rest

-- ComputeDelta
unfoldable pub compute_delta :
    Map ElementId InsertOperation
    → Map ElementId DeleteOperation
    → Vector
    → List ElementId × List ElementId
compute_delta insert_log delete_log vector = (
  missing_keys (is_missing_insert vector.state_vectors) insert_log,
  missing_keys (is_missing_delete vector.delete_set) delete_log,
)

-- A loop of ComputeSerializedDelta.
unfoldable pub collect : {V : Type 0} → Map ElementId V → List ElementId → List V
collect log [] = []
collect log (k ∷ rest) = elim (lookup k log) [
  | none ↦ collect log rest
  | some v ↦ v ∷ collect log rest
]

-- ComputeSerializedDelta
unfoldable pub compute_serialized_delta :
    Map ElementId InsertOperation
    → Map ElementId DeleteOperation
    → List ElementId × List ElementId
    → Delta
compute_serialized_delta insert_log delete_log (missing_inserts, missing_deletes) = record {
  inserts = collect insert_log missing_inserts;
  deletes = collect delete_log missing_deletes;
}
