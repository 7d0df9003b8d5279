-- ===== src/Sync/Continuity.antt =====
-- validateClockContinuity, and what an entry of a state vector means.
use yata_collaborative_edito.Base.{
  ℕ, zero, suc, ◌+◌, ◌<◌, ◌≤◌, ◌≡◌, refl, true, false, some, arith, ℤ, pos, negsuc, ltb_ℤ, Text,
  text_Eq, Map, lookup,
}
use yata_collaborative_edito.Identifier.{ElementId, id_Eq}
use yata_collaborative_edito.Protocol.Operations.{InsertOperation}
use yata_collaborative_edito.Sync.{is_sentinel, exists, continuity_loop, validate_clock_continuity}

abbrev pub Log : Type 0
Log = Map ElementId InsertOperation

abbrev pub id_of : Text → ℤ → ElementId
id_of client_id clock = record { client_id = client_id; clock = clock }

pub some-inj : {A : Type 0} {a b : A} → some a ≡ some b → a ≡ b
some-inj h = cc

-- The log has the insertion with this identifier.
abbrev pub Logged : Log → Text → ℤ → Type 0
Logged log client_id clock = exists (lookup (id_of client_id clock) log) ≡ true

-- The log has all clocks of the client from 0 up to this one.
abbrev pub Gapless : Log → Text → ℤ → Type 0
Gapless log client_id clock = (j : ℕ) → ltb_ℤ clock (pos j) ≡ false → Logged log client_id (pos j)

continuity_loop_sound :
    (log : Log) (client_id : Text) (i rounds j : ℕ)
    → continuity_loop log client_id i rounds ≡ true
    → i ≤ j
    → j < i + rounds
    → Logged log client_id (pos j)
unfolding continuity_loop
continuity_loop_sound log client_id i zero j h low high = absurd (omega arith)
continuity_loop_sound log client_id i (suc rounds) j h low high =
    ground (arith, continuity_loop_sound log client_id (suc i) rounds j)

continuity_loop_complete :
    (log : Log) (client_id : Text) (i rounds : ℕ)
    → ((j : ℕ) → i ≤ j → j < i + rounds → Logged log client_id (pos j))
    → continuity_loop log client_id i rounds ≡ true
unfolding continuity_loop
continuity_loop_complete log client_id i zero h = refl
continuity_loop_complete log client_id i (suc rounds) h =
    let here = h i (omega arith) (omega arith) in
    let rest =
      continuity_loop_complete log client_id (suc i) rounds
        (λ j low high. h j (omega arith) (omega arith)) in
    ground (arith, here, rest)

-- `validateClockContinuity` decides whether the log is gapless up to the clock.
pub validate_clock_continuity_iff :
    (log : Log) (client_id : Text) (clock : ℤ)
    → (validate_clock_continuity log client_id clock ≡ true → Gapless log client_id clock)
      × (Gapless log client_id clock → validate_clock_continuity log client_id clock ≡ true)
unfolding validate_clock_continuity
validate_clock_continuity_iff log client_id (pos n) = (
  λ h j le. continuity_loop_sound log client_id 0 (suc n) j h (omega arith) (ground arith),
  λ g. continuity_loop_complete log client_id 0 (suc n) (λ j low high. g j (ground arith)),
)
validate_clock_continuity_iff log client_id (negsuc n) = (λ h j le. ground arith, λ g. refl)

-- What an entry of the vector means, and that no client is a sentinel.
pub record IsSound (log : Log) (vector : Map Text ℤ) : Type 0 where
  pub gapless : (c : Text) (n : ℤ) → lookup c vector ≡ some n → Gapless log c n
  pub reached : (c : Text) (n : ℤ) → lookup c vector ≡ some n → Logged log c n
  pub clients : (c : Text) (n : ℤ) → lookup c vector ≡ some n → is_sentinel c ≡ false

-- The vector reaches at least this clock of the client.
abbrev pub Reaches : Map Text ℤ → Text → ℤ → Type 0
Reaches vector c clock = (n : ℤ) × (lookup c vector ≡ some n) × (ltb_ℤ n clock ≡ false)
