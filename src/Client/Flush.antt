-- ===== src/Client/Flush.antt =====
-- FlushOfflineQueue from its beginning to its end, where no other goroutine comes in between.
use yata_collaborative_edito.Base.{
  ℕ, zero, suc, ◌+◌, ◌<◌, ◌≡◌, ◌==◌, ◌∙◌, refl, sym, ap, Bool, true, false, none, some, List, [],
  ◌∷◌, ◌++◌, arith, length, Run, ok, panic, out_of_fuel, ◌>>=◌, ==_iff, length-append,
}
use yata_collaborative_edito.Protocol.Messages.{Bytes}
use yata_collaborative_edito.Client.{
  disconnected, syncing, online, CollaborativeClient, mark_disconnected, request_reconnect,
  finished, flush, flush_next, flush_written, drop_first,
}

-- The rounds, with the messages that they write; the write of round `i` succeeds or fails.
unfoldable pub flush_loop :
    (accepts : ℕ → Bool)
    → ℕ
    → (i : ℕ) → CollaborativeClient
    → ℕ
    → Run (CollaborativeClient × List Bytes)
flush_loop accepts zero i c conn = out_of_fuel
flush_loop accepts (suc fuel) i c conn =
    let (c', next) = flush_next c conn in
    elim next [
      | finished ↦ ok (c', [])
      | flush message ↦ elim (accepts i) [
        | false ↦ ok (mark_disconnected c' conn, [])
        | true ↦ elim (flush_written c' conn) [
          | none ↦ panic
          | some round ↦
              let (c'', more) = round in
              elim more [
                | false ↦ ok (c'', message ∷ [])
                | true ↦ (do
                  (after, messages) ← flush_loop accepts fuel (suc i) c'' conn
                  ok (after, message ∷ messages))
              ]
        ]
      ]
    ]

-- FlushOfflineQueue
unfoldable pub flush_offline_queue :
    (accepts : ℕ → Bool) → CollaborativeClient → ℕ → Run (CollaborativeClient × List Bytes)
flush_offline_queue accepts c conn = flush_loop accepts (suc (length c.offline_queue)) 0 c conn

-- The client at a queue, in the state Syncing, with the connection installed.
abbrev at_queue : CollaborativeClient → ℕ → List Bytes → CollaborativeClient
at_queue c conn q = record c { connection = some conn; state = syncing; offline_queue = q }

same_self : (conn : ℕ) → (conn == conn) ≡ true
same_self conn = (==_iff conn conn).1 refl

module _ (accepts : ℕ → Bool) (c : CollaborativeClient) (conn : ℕ) where
  flush_loop-all :
      (q : List Bytes) (fuel i : ℕ)
      → ((j : ℕ) → accepts j ≡ true)
      → length q < fuel
      → flush_loop accepts fuel i (at_queue c conn q) conn
        ≡ ok (record (at_queue c conn []) { state = online }, q)
  unfolding flush_loop flush_next flush_written drop_first
  flush_loop-all q zero i h n = absurd (omega (arith, n))
  flush_loop-all [] (suc fuel) i h n = ground (arith, same_self conn)
  flush_loop-all (m ∷ q) (suc fuel) i h n =
      ground (arith, same_self conn, h i, flush_loop-all q fuel (suc i) h (omega (arith, n)))

  abbrev dropped : List Bytes → CollaborativeClient
  dropped q = record c {
    connection = none;
    state = disconnected;
    offline_queue = q;
    reconnect_signal = true;
  }

  flush_loop-prefix :
      (before after : List Bytes) (m : Bytes) (fuel i : ℕ)
      → ((j : ℕ) → j < length before → accepts (i + j) ≡ true)
      → accepts (i + length before) ≡ false
      → length before < fuel
      → flush_loop accepts fuel i (at_queue c conn (before ++ m ∷ after)) conn
        ≡ ok (dropped (m ∷ after), before)
  unfolding flush_loop flush_next flush_written drop_first mark_disconnected request_reconnect
  flush_loop-prefix before after m zero i h f n = absurd (omega (arith, n))
  flush_loop-prefix [] after m (suc fuel) i h f n =
      let fails : accepts i ≡ false = ap accepts (omega arith) ∙ f in
      ground (arith, same_self conn, fails)
  flush_loop-prefix (x ∷ before) after m (suc fuel) i h f n =
      let first : accepts i ≡ true = ap accepts (omega arith) ∙ h 0 (omega arith) in
      let rest =
        flush_loop-prefix before after m fuel (suc i)
          (λ j small. ap accepts (omega arith) ∙ h (suc j) (omega (arith, small)))
          (ap accepts (omega arith) ∙ f) (omega (arith, n)) in
      ground (arith, same_self conn, first, rest)

  installed_queue :
      c.connection ≡ some conn → c.state ≡ syncing → at_queue c conn c.offline_queue ≡ c
  installed_queue e h = ground (arith, e, h)

-- While its connection is installed and the state is Syncing, FlushOfflineQueue with writes that
-- succeed writes the whole queue in its order and ends, with an empty queue and the state Online.
pub flush_sends_all :
    (accepts : ℕ → Bool) (c : CollaborativeClient) (conn : ℕ)
    → c.connection ≡ some conn
    → c.state ≡ syncing
    → ((j : ℕ) → accepts j ≡ true)
    → flush_offline_queue accepts c conn
      ≡ ok
          (record c { connection = some conn; state = online; offline_queue = [] }, c.offline_queue)
unfolding flush_offline_queue
flush_sends_all accepts c conn e h all =
    ap (λ x. flush_loop accepts (suc (length c.offline_queue)) 0 x conn)
      (sym (installed_queue accepts c conn e h))
    ∙ flush_loop-all accepts c conn c.offline_queue (suc (length c.offline_queue)) 0 all
        (omega arith)

-- While its connection is installed and the state is Syncing, FlushOfflineQueue whose first
-- failing write is that of a message in the queue has written those before it, in order, and
-- ends: that message and those behind it stay in the queue, and the client is Disconnected,
-- without a connection, with a signal to reconnect.
pub flush_stops :
    (accepts : ℕ → Bool) (c : CollaborativeClient) (conn : ℕ) (before after : List Bytes)
    (m : Bytes)
    → c.connection ≡ some conn
    → c.state ≡ syncing
    → c.offline_queue ≡ before ++ m ∷ after
    → ((j : ℕ) → j < length before → accepts j ≡ true)
    → accepts (length before) ≡ false
    → flush_offline_queue accepts c conn
      ≡ ok (
        record c {
          connection = none;
          state = disconnected;
          offline_queue = m ∷ after;
          reconnect_signal = true;
        },
        before,
      )
unfolding flush_offline_queue
flush_stops accepts c conn before after m e h split all fails =
    ap (λ x. flush_loop accepts (suc (length c.offline_queue)) 0 x conn)
      (sym (installed_queue accepts c conn e h))
    ∙ ap (λ q. flush_loop accepts (suc (length q)) 0 (at_queue c conn q) conn) split
    ∙ flush_loop-prefix accepts c conn before after m (suc (length (before ++ m ∷ after))) 0
        (λ j small. ap accepts (omega arith) ∙ all j small) (ap accepts (omega arith) ∙ fails)
        (omega (arith, length-append before (m ∷ after)))
