-- ===== src/Client/Counting.antt =====
-- How often a message has been taken, waits and has been written, and what each step does to that.
use yata_collaborative_edito.Base.{
  ℕ, suc, ◌+◌, ◌≤◌, ◌≡◌, ◌∙◌, ◌⊎◌, refl, ap, Bool, true, false, ◌&&◌, Option, none, some, List, [],
  ◌∷◌, ◌++◌, arith, inl, inr, Bool-cases, if◌then◌else◌, text_eq, text_eq_iff,
}
use yata_collaborative_edito.Protocol.Messages.{Bytes}
use yata_collaborative_edito.Client.{
  CollaborativeClient, enqueue_offline, send_or_queue, drop_connection, flush_next, flush_written,
  is_at, is_syncing, drop_first,
}
use yata_collaborative_edito.Client.Schedule.{LoopState, Round, System, sent, dropped, taken}

-- How often a message is in a list.
abbrev pub count : Bytes → List Bytes → ℕ
count m [] = 0
count m (x ∷ xs) = if text_eq x m then suc (count m xs) else count m xs

abbrev pub count_writers : Bytes → List (ℕ × Bytes) → ℕ
count_writers m [] = 0
count_writers m ((conn, x) ∷ ws) =
    if text_eq x m then suc (count_writers m ws) else count_writers m ws

-- Whether the message has been written by the round, which will take it off the queue.
abbrev pub leaving : Bytes → Option Round → ℕ
leaving m none = 0
leaving m (some r) = if r.is_written && text_eq r.message m then 1 else 0

-- The message of the round is the first of the queue.
abbrev pub is_head : Option Round → List Bytes → Bool
is_head none q = true
is_head (some r) [] = false
is_head (some r) (x ∷ q) = text_eq x r.message

pub record Keeps (s : System) : Type 0 where
  pub head : is_head s.round s.client.offline_queue ≡ true
  pub kept :
      (m : Bytes)
      → count m s.accepted + leaving m s.round
        ≤ count m s.delivered + (count m s.client.offline_queue + count_writers m s.writers)

count-append : (m : Bytes) (xs ys : List Bytes) → count m (xs ++ ys) ≡ count m xs + count m ys
count-append m [] ys = ground arith
count-append m (x ∷ xs) ys = ground (arith, count-append m xs ys)

count_writers-middle :
    (m : Bytes) (before after : List (ℕ × Bytes)) (conn : ℕ) (x : Bytes)
    → count_writers m (before ++ (conn, x) ∷ after)
      ≡ (if text_eq x m then 1 else 0) + count_writers m (before ++ after)
count_writers-middle m [] after conn x = ground arith
count_writers-middle m ((c, y) ∷ before) after conn x =
    ground (arith, count_writers-middle m before after conn x)

text_eq_refl : (x : Bytes) → text_eq x x ≡ true
text_eq_refl x = (text_eq_iff x x).1 refl

is_head-append :
    (r : Option Round) (q : List Bytes) (m : Bytes)
    → is_head r q ≡ true
    → is_head r (q ++ m ∷ []) ≡ true
is_head-append none q m h = refl
is_head-append (some r) [] m h = absurd (ground arith)
is_head-append (some r) (x ∷ q) m h = h

pub queue_cases : (q : List Bytes) → (q ≡ []) ⊎ ((x : Bytes) × (rest : List Bytes) × (q ≡ x ∷ rest))
queue_cases [] = inl refl
queue_cases (x ∷ rest) = inr (x, rest, refl)

-- What the end of a round does to the queue.
flush_written_queue :
    (c c' : CollaborativeClient) (conn : ℕ) (more : Bool)
    → flush_written c conn ≡ some (c', more)
    → (c'.offline_queue ≡ c.offline_queue)
      ⊎ ((x : Bytes) × (c.offline_queue ≡ x ∷ c'.offline_queue))
unfolding flush_written drop_first
flush_written_queue c c' conn more h =
    elim (Bool-cases (is_at c.connection conn && is_syncing c.state)) [
      | inr other ↦ inl (ground (arith, h))
      | inl same ↦ elim (queue_cases c.offline_queue) [
        | inl e ↦ absurd (ground (arith, h, e))
        | inr (x, rest, e) ↦ inr (x, ground (arith, h, e))
      ]
    ]

module _ (s : System) (k : Keeps s) where
  pub sends-Keeps : (m : Bytes) → Keeps (sent s m (send_or_queue s.client m))
  unfolding send_or_queue enqueue_offline
  sends-Keeps m = record {
    head = ground (arith, k.head, is_head-append s.round s.client.offline_queue m);
    kept = λ x. ground (arith, k.kept x, count-append x s.client.offline_queue (m ∷ []));
  }

  pub takes-Keeps : (conn : ℕ) → s.round ≡ none → Keeps (taken s conn (flush_next s.client conn))
  unfolding flush_next
  takes-Keeps conn h = record {
    head = grind (arith, k.head, h, text_eq_refl);
    kept = λ x. ground (arith, k.kept x, h);
  }

  module _ (before after : List (ℕ × Bytes)) (conn : ℕ) (m : Bytes)
      (e : s.writers ≡ before ++ (conn, m) ∷ after) where
    pub write_succeeds-Keeps :
        Keeps (record s { writers = before ++ after; delivered = s.delivered ++ m ∷ [] })
    write_succeeds-Keeps = record {
      head = k.head;
      kept = λ x.
          let moved = ap (count_writers x) e ∙ count_writers-middle x before after conn m in
          ground (arith, k.kept x, moved, count-append x s.delivered (m ∷ []));
    }

    pub write_fails-Keeps :
        Keeps (record s { writers = before ++ after; client = enqueue_offline s.client m })
    unfolding enqueue_offline
    write_fails-Keeps = record {
      head = is_head-append s.round s.client.offline_queue m k.head;
      kept = λ x.
          let moved = ap (count_writers x) e ∙ count_writers-middle x before after conn m in
          ground (arith, k.kept x, moved, count-append x s.client.offline_queue (m ∷ []));
    }

  pub drops-Keeps : (conn : ℕ) → Keeps (dropped s (drop_connection s.client conn))
  unfolding drop_connection
  drops-Keeps conn = record { head = ground (arith, k.head); kept = λ x. ground (arith, k.kept x) }

  -- Steps that leave the queue, the round and what was sent.
  pub queue-Keeps :
      {c : CollaborativeClient} (l : LoopState) (signalling : ℕ) (is_closed : Bool)
      → c.offline_queue ≡ s.client.offline_queue
      → Keeps (record s { client = c; loop = l; signalling = signalling; is_closed = is_closed })
  queue-Keeps l signalling is_closed e = record {
    head = ap (is_head s.round) e ∙ k.head;
    kept = λ x. ground (arith, k.kept x, e);
  }

  pub flush_succeeds-Keeps :
      (conn : ℕ) (m : Bytes)
      → s.round ≡ some (record { connection = conn; message = m; is_written = false })
      → Keeps (record s {
        round = some (record { connection = conn; message = m; is_written = true });
        delivered = s.delivered ++ m ∷ [];
      })
  flush_succeeds-Keeps conn m e = record {
    head = ground (arith, k.head, e);
    kept = λ x. ground (arith, k.kept x, e, count-append x s.delivered (m ∷ []));
  }

  pub flush_fails-Keeps :
      (conn : ℕ) (m : Bytes)
      → s.round ≡ some (record { connection = conn; message = m; is_written = false })
      → Keeps (dropped (record s { round = none }) (drop_connection s.client conn))
  unfolding drop_connection
  flush_fails-Keeps conn m e = record {
    head = ground arith;
    kept = λ x. ground (arith, k.kept x, e);
  }

  pub flush_ends-Keeps :
      (conn : ℕ) (m : Bytes) (c : CollaborativeClient) (more : Bool)
      → s.round ≡ some (record { connection = conn; message = m; is_written = true })
      → flush_written s.client conn ≡ some (c, more)
      → Keeps (record s { round = none; client = c })
  flush_ends-Keeps conn m c more e h = record {
    head = refl;
    kept = λ x. elim (flush_written_queue s.client c conn more h) [
      | inl same ↦ ground (arith, k.kept x, e, same)
      | inr (y, split) ↦
          let named : text_eq y m ≡ true = ground (arith, k.head, e, split) in
          let equal = (text_eq_iff y m).0 named in
          let tests : text_eq y x ≡ text_eq m x = ap (λ z. text_eq z x) equal in
          ground (arith, k.kept x, e, split, tests)
    ];
  }
