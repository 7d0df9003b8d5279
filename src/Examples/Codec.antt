-- ===== src/Examples/Codec.antt =====
-- A concrete codec for the messages, which has the laws that the round trips ask of encoding/json:
-- each text stands behind its length, each integer behind its sign.
use yata_collaborative_edito.Base.{
  ℕ, zero, suc, ◌≡◌, refl, false, Option, none, some, [], ◌∷◌, ◌++◌, ℤ, pos, negsuc, Text, is_empty,
  length,
}
use yata_collaborative_edito.Identifier.{ElementId}
use yata_collaborative_edito.Protocol.Messages.{Bytes, InsertOp, Json, Codec}
use yata_collaborative_edito.Sync.Laws.{Laws}

infixl 5 ◌>>=◌
abbrev pub ◌>>=◌ : {A B : Type 0} → Option A → (A → Option B) → Option B
none >>= f = none
some a >>= f = f a

unfoldable pub take : ℕ → Bytes → Option (Text × Bytes)
take zero b = some ([], b)
take (suc n) [] = none
take (suc n) (c ∷ b) = do (t, rest) ← take n b; some (c ∷ t, rest)

unfoldable pub put_text : Text → Bytes → Bytes
put_text t b = length t ∷ (t ++ b)

unfoldable pub take_text : Bytes → Option (Text × Bytes)
take_text [] = none
take_text (n ∷ b) = take n b

take-append : (t : Text) (b : Bytes) → take (length t) (t ++ b) ≡ some (t, b)
unfolding take
take-append [] b = refl
take-append (c ∷ t) b = rw (take-append t b)

take_text-put_text : (t : Text) (b : Bytes) → take_text (put_text t b) ≡ some (t, b)
unfolding take_text put_text
take_text-put_text t b = take-append t b

unfoldable pub put_int : ℤ → Bytes → Bytes
put_int (pos n) b = 0 ∷ n ∷ b
put_int (negsuc n) b = 1 ∷ n ∷ b

unfoldable pub take_int : Bytes → Option (ℤ × Bytes)
take_int [] = none
take_int (s ∷ []) = none
take_int (zero ∷ n ∷ b) = some (pos n, b)
take_int (suc s ∷ n ∷ b) = some (negsuc n, b)

take_int-put_int : (i : ℤ) (b : Bytes) → take_int (put_int i b) ≡ some (i, b)
unfolding take_int put_int
take_int-put_int (pos n) b = refl
take_int-put_int (negsuc n) b = refl

unfoldable pub put_id : ElementId → Bytes → Bytes
put_id id b = put_text id.client_id (put_int id.clock b)

unfoldable pub take_id : Bytes → Option (ElementId × Bytes)
take_id b = do
  (client, rest) ← take_text b
  (clock, rest') ← take_int rest
  some (record { client_id = client; clock = clock }, rest')

pub take_id-put_id : (id : ElementId) (b : Bytes) → take_id (put_id id b) ≡ some (id, b)
unfolding take_id put_id
take_id-put_id id b = simp (take_text-put_text, take_int-put_int)

-- A type that no round trip is about.
abbrev pub silent : {A : Type 0} → Codec A
silent = record { marshal = λ _. none; unmarshal = λ _. none }

abbrev pub plain : Json
plain = record {
  envelopes = record {
    marshal = λ a. some (put_int a.version (put_text a.message_type a.payload));
    unmarshal = λ b. (do
      (version, rest) ← take_int b
      (message_type, payload) ← take_text rest
      some (record { version = version; message_type = message_type; payload = payload }));
  };
  joins = record {
    marshal = λ a. some (put_text a.room_id (put_text a.client_id (put_text a.name [])));
    unmarshal = λ b. (do
      (room_id, b1) ← take_text b
      (client_id, b2) ← take_text b1
      (name, _) ← take_text b2
      some (record { room_id = room_id; client_id = client_id; name = name }));
  };
  join_acks = record {
    marshal = λ a. some (put_text a.room (put_text a.client_id []));
    unmarshal = λ b. (do
      (room, b1) ← take_text b
      (client_id, _) ← take_text b1
      some (record { room = room; client_id = client_id }));
  };
  errors = silent;
  updates = record {
    marshal = λ a. some a.operation;
    unmarshal = λ b. some (record { operation = b });
  };
  operations = record {
    marshal = λ a. none;
    unmarshal = λ b. (do (t, _) ← take_text b; some (record { type_name = t }));
  };
  inserts = record {
    marshal = λ a. some (
        put_text a.type_name
          (put_id a.new_id (put_id a.origin_id (put_id a.right_id (put_text a.character [])))));
    unmarshal = λ b. (do
      (t, b1) ← take_text b
      (new_id, b2) ← take_id b1
      (origin_id, b3) ← take_id b2
      (right_id, b4) ← take_id b3
      (character, _) ← take_text b4
      some (record {
        type_name = t;
        new_id = new_id;
        origin_id = origin_id;
        right_id = right_id;
        character = character;
      }));
  };
  deletes = record {
    marshal = λ a. some (put_text a.type_name (put_id a.target_id []));
    unmarshal = λ b. (do
      (t, b1) ← take_text b
      (target_id, _) ← take_id b1
      some (record { type_name = t; target_id = target_id }));
  };
  syncs1 = silent;
  syncs2 = silent;
  snapshots = silent;
  presences = silent;
}

put_text-filled : (t : Text) (b : Bytes) → is_empty (put_text t b) ≡ false
unfolding put_text
put_text-filled t b = refl

some-eq : (a b : Bytes) → some a ≡ some b → a ≡ b
some-eq a b e = cc

abbrev pub insert_bytes : InsertOp → Bytes
insert_bytes a =
    put_text a.type_name
      (put_id a.new_id (put_id a.origin_id (put_id a.right_id (put_text a.character []))))

pub plain-Laws : Laws plain
plain-Laws = record {
  compact = λ _. Unit {0};
  envelopes = λ a b c e. rw (← some-eq _ b e) (simp (take_int-put_int, take_text-put_text));
  updates = λ a b c e. (tt, rw (← some-eq _ b e));
  joins = λ a b e. (tt, rw (← some-eq _ b e) (simp take_text-put_text));
  join_acks = λ a b e. (tt, rw (← some-eq _ b e) (simp take_text-put_text));
  inserts = λ a b e. (
    tt,
    rw (← some-eq _ b e) (put_text-filled a.type_name _),
    rw (← some-eq _ b e) (simp (take_text-put_text, take_id-put_id)),
    rw (← some-eq _ b e) (simp take_text-put_text),
  );
  deletes = λ a b e. (
    tt,
    rw (← some-eq _ b e) (put_text-filled a.type_name _),
    rw (← some-eq _ b e) (simp (take_text-put_text, take_id-put_id)),
    rw (← some-eq _ b e) (simp take_text-put_text),
  );
}
