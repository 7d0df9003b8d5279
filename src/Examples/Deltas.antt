-- ===== src/Examples/Deltas.antt =====
-- A concrete codec for deltas, which gives back what it was given.
use yata_collaborative_edito.Base.{
  ℕ, zero, suc, ◌≡◌, refl, Option, none, some, List, [], ◌∷◌, length,
}
use yata_collaborative_edito.Protocol.Messages.{Bytes, Codec}
use yata_collaborative_edito.Protocol.Operations.{InsertOperation, DeleteOperation, Delta}
use yata_collaborative_edito.Examples.Codec.{◌>>=◌, put_id, take_id, take_id-put_id}

abbrev pub put_insert : InsertOperation → Bytes → Bytes
put_insert op b = put_id op.new_id (put_id op.origin_id (put_id op.right_id (op.content ∷ b)))

abbrev pub take_number : Bytes → Option (ℕ × Bytes)
take_number [] = none
take_number (n ∷ b) = some (n, b)

unfoldable pub take_insert : Bytes → Option (InsertOperation × Bytes)
take_insert b = do
  (new_id, b1) ← take_id b
  (origin_id, b2) ← take_id b1
  (right_id, b3) ← take_id b2
  (content, b4) ← take_number b3
  some (
    record { new_id = new_id; origin_id = origin_id; right_id = right_id; content = content },
    b4,
  )

pub take_insert-put_insert :
    (op : InsertOperation) (b : Bytes) → take_insert (put_insert op b) ≡ some (op, b)
unfolding take_insert
take_insert-put_insert op b = simp take_id-put_id

abbrev pub put_delete : DeleteOperation → Bytes → Bytes
put_delete op b = put_id op.target_id b

unfoldable pub take_delete : Bytes → Option (DeleteOperation × Bytes)
take_delete b = do (target_id, rest) ← take_id b; some (record { target_id = target_id }, rest)

pub take_delete-put_delete :
    (op : DeleteOperation) (b : Bytes) → take_delete (put_delete op b) ≡ some (op, b)
unfolding take_delete
take_delete-put_delete op b = simp take_id-put_id

module _ {A : Type 0} (put_one : A → Bytes → Bytes) (take_one : Bytes → Option (A × Bytes)) where
  unfoldable put_all : List A → Bytes → Bytes
  put_all [] b = b
  put_all (a ∷ rest) b = put_one a (put_all rest b)

  unfoldable take_all : ℕ → Bytes → Option (List A × Bytes)
  take_all zero b = some ([], b)
  take_all (suc n) b = do (a, b1) ← take_one b; (rest, b2) ← take_all n b1; some (a ∷ rest, b2)

  take_all-put_all :
      ((a : A) (b : Bytes) → take_one (put_one a b) ≡ some (a, b))
      → (rest : List A) (b : Bytes) → take_all (length rest) (put_all rest b) ≡ some (rest, b)
  unfolding put_all take_all
  take_all-put_all one [] b = refl
  take_all-put_all one (a ∷ rest) b =
      rw (one a (put_all rest b)) (rw (take_all-put_all one rest b) refl)

unfoldable pub write_delta : Delta → Bytes
unfolding put_all take_insert take_delete
write_delta d =
    length d.inserts
    ∷ length d.deletes
    ∷ put_all put_insert take_insert d.inserts (put_all put_delete take_delete d.deletes [])

unfoldable pub read_delta : Bytes → Option Delta
unfolding take_all take_insert take_delete
read_delta [] = none
read_delta (n ∷ []) = none
read_delta (n ∷ m ∷ b) = do
  (inserts, b1) ← take_all put_insert take_insert n b
  (deletes, _) ← take_all put_delete take_delete m b1
  some (record { inserts = inserts; deletes = deletes })

read_delta-write_delta : (d : Delta) → read_delta (write_delta d) ≡ some d
unfolding read_delta write_delta
read_delta-write_delta d =
    rw
      (take_all-put_all put_insert take_insert take_insert-put_insert d.inserts
        (put_all put_delete take_delete d.deletes []))
      (rw (take_all-put_all put_delete take_delete take_delete-put_delete d.deletes []) refl)

abbrev pub delta_codec : Codec Delta
delta_codec = record { marshal = λ d. some (write_delta d); unmarshal = read_delta }

pub delta_codec-inverse :
    (d : Delta) (b : Bytes) → delta_codec.marshal d ≡ some b → delta_codec.unmarshal b ≡ some d
delta_codec-inverse d b e = cc (e, read_delta-write_delta d)
