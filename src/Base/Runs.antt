-- ===== src/Base/Runs.antt =====
-- Runs of code that may dereference nil, or that a bound on its rounds may stop.

pub data Run {ℓ} (A : Type ℓ) : Type ℓ where
  ok : A → Run A
  panic : Run A
  out_of_fuel : Run A

infixl 5 ◌>>=◌
abbrev pub ◌>>=◌ {ℓ κ} : {A : Type ℓ} {B : Type κ} → Run A → (A → Run B) → Run B
ok a >>= f = f a
panic >>= f = panic
out_of_fuel >>= f = out_of_fuel

-- The run does not stop for lack of fuel, and what it returns, if it does not fault, is as
-- described.
abbrev pub Settles {ℓ} : {A : Type ℓ} → (A → Type 0) → Run A → Type 0
Settles P (ok a) = P a
Settles P panic = Unit
Settles P out_of_fuel = ⊥

pub Settles->>= {ℓ κ} :
    {A : Type ℓ} {B : Type κ} (P : A → Type 0) (Q : B → Type 0) (m : Run A) (f : A → Run B)
    → Settles P m
    → ((a : A) → P a → Settles Q (f a))
    → Settles Q (m >>= f)
Settles->>= P Q (ok a) f s k = k a s
Settles->>= P Q panic f s k = tt
Settles->>= P Q out_of_fuel f s k = absurd s
