-- ===== src/Identifier.antt =====
-- backend/internal/identifier/identifier.go: element identifiers, and the order in which
-- concurrent insertions at one place are put.
use yata_collaborative_edito.Base.{
  ◌≡◌, ◌↔◌, Bool, true, ◌&&◌, arith, ℤ, Text, text_eq, text_eq_iff, eq_ℤ, eq_ℤ_iff, Eq,
}

-- type ID struct
pub record ElementId : Type 0 where
  pub client_id : Text
  pub clock : ℤ

-- NewID
unfoldable pub new_id : Text → ℤ → ElementId
new_id client_id clock = record { client_id = client_id; clock = clock }

-- `==` on the struct
unfoldable pub id_eq : ElementId → ElementId → Bool
id_eq a b = text_eq a.client_id b.client_id && eq_ℤ a.clock b.clock

pub id_eq_iff : (a b : ElementId) → (id_eq a b ≡ true) ↔ (a ≡ b)
unfolding id_eq
id_eq_iff a b = ground (arith, text_eq_iff a.client_id b.client_id, eq_ℤ_iff a.clock b.clock)

instance abbrev pub id_Eq : Eq ElementId
id_Eq = record { beq = id_eq; beq_iff = id_eq_iff }
