-- ===== src/Client/Delivery.antt =====
-- What SendOrQueue takes is written, waits in the queue, or is about to be written: nothing that
-- the goroutines of a client do loses it.
use mathlib.Core.List.{append-nil}
use yata_collaborative_edito.Base.{
  ℕ, ◌≡◌, ◌∙◌, ◌⊎◌, refl, sym, ap, true, false, ◌&&◌, some, List, [], ◌∷◌, ◌++◌, Text, arith, inl,
  inr, Bool-cases, text_eq_iff,
}
use yata_collaborative_edito.Protocol.Messages.{Bytes}
use yata_collaborative_edito.Client.{
  CollaborativeClient, begin_close, close_signal, enqueue_offline, request_reconnect,
  drop_connection, send_or_queue, Sending, empty_message, queued, writing, flush_next, online,
  begin_reconnect, reconnect_failed, install_connection, flush_written, new_collaborative_client,
  is_at, is_syncing, drop_first,
}
use yata_collaborative_edito.Client.Schedule.{
  retrying, woken, System, sent, started, Step, Reachable,
}
use yata_collaborative_edito.Client.Counting.{
  Keeps, queue_cases, sends-Keeps, takes-Keeps, write_succeeds-Keeps, write_fails-Keeps,
  drops-Keeps, queue-Keeps, flush_succeeds-Keeps, flush_fails-Keeps, flush_ends-Keeps,
}

Step-Keeps : {s t : System} → Step s t → Keeps s → Keeps t
unfolding request_reconnect begin_reconnect reconnect_failed install_connection begin_close
    close_signal
Step-Keeps {s} (Step.sends m) k = sends-Keeps s k m
Step-Keeps {s} (Step.write_succeeds before after conn m e) k =
    write_succeeds-Keeps s k before after conn m e
Step-Keeps {s} (Step.write_fails before after conn m e) k =
    write_fails-Keeps s k before after conn m e
Step-Keeps {s} (Step.drops conn old) k = drops-Keeps s k conn
Step-Keeps {s} (Step.signals others h) k = queue-Keeps s k s.loop others s.is_closed refl
Step-Keeps {s} (Step.wakes h signal) k = queue-Keeps s k woken s.signalling s.is_closed refl
Step-Keeps {s} (Step.begins h) k = record {
  head = ground (arith, k.head);
  kept = λ x. ground (arith, k.kept x);
}
Step-Keeps {s} (Step.retries h) k = record {
  head = ground (arith, k.head);
  kept = λ x. ground (arith, k.kept x);
}
Step-Keeps {s} (Step.dial_fails h) k =
    queue-Keeps s k retrying s.signalling s.is_closed (ground arith)
Step-Keeps {s} (Step.dial_succeeds h) k = record {
  head = ground (arith, k.head);
  kept = λ x. ground (arith, k.kept x);
}
Step-Keeps {s} (Step.flush_takes conn old h) k = takes-Keeps s k conn h
Step-Keeps {s} (Step.flush_succeeds conn m h) k = flush_succeeds-Keeps s k conn m h
Step-Keeps {s} (Step.flush_fails conn m h) k = flush_fails-Keeps s k conn m h
Step-Keeps {s} (Step.flush_ends conn m c more h e) k = flush_ends-Keeps s k conn m c more h e
Step-Keeps {s} (Step.closes h) k = queue-Keeps s k s.loop s.signalling true refl
Step-Keeps {s} (Step.stops h other) k = queue-Keeps s k s.loop s.signalling s.is_closed refl

started-Keeps :
    (server_url room_id client_id : Text) (c : CollaborativeClient)
    → new_collaborative_client server_url room_id client_id ≡ some c
    → Keeps (started c)
unfolding started
started-Keeps server_url room_id client_id c h = record { head = refl; kept = λ x. ground arith }

-- In every state that the goroutines of a new client reach, in any order of their steps, each
-- message has been written, is in the queue or is about to be written at least as often as
-- SendOrQueue has taken it, where a message that a round of FlushOfflineQueue has written and
-- not yet taken off counts once more than it was taken; and the message of such a round is the
-- first of the queue.
pub Reachable-Keeps : {s : System} → Reachable s → Keeps s
Reachable-Keeps (Reachable.starts server_url room_id client_id c h) =
    started-Keeps server_url room_id client_id c h
Reachable-Keeps (Reachable.steps r t) = Step-Keeps t (Reachable-Keeps r)

send_or_queue_cases :
    (c : CollaborativeClient) (m : Bytes)
    → ((send_or_queue c m).0.offline_queue ≡ c.offline_queue)
      ⊎ ((send_or_queue c m).0.offline_queue ≡ c.offline_queue ++ m ∷ [])
unfolding send_or_queue enqueue_offline
send_or_queue_cases c m = ground arith

sent_client :
    (s : System) (m : Bytes) (r : CollaborativeClient × Sending) → (sent s m r).client ≡ r.0
sent_client s m (c, empty_message) = refl
sent_client s m (c, queued) = refl
sent_client s m (c, writing conn) = refl

-- In a state that the goroutines of a new client reach, the end of a round of FlushOfflineQueue
-- does not panic: it stops with the client as it is, or takes off the message that was written.
pub flush_ends_safely :
    {s : System} (conn : ℕ) (m : Bytes)
    → Reachable s
    → s.round ≡ some (record { connection = conn; message = m; is_written = true })
    → (flush_written s.client conn ≡ some (s.client, false))
      ⊎ ((rest : List Bytes) × (s.client.offline_queue ≡ m ∷ rest)
          × (flush_written s.client conn ≡ some (record s.client { offline_queue = rest }, true)))
unfolding flush_written drop_first
flush_ends_safely {s} conn m r e =
    let k = Reachable-Keeps r in
    elim (Bool-cases (is_at s.client.connection conn && is_syncing s.client.state)) [
      | inr other ↦ inl (ground arith)
      | inl same ↦ elim (queue_cases s.client.offline_queue) [
        | inl nothing ↦ absurd (ground (arith, k.head, nothing, e))
        | inr (x, rest, split) ↦
            let equal = (text_eq_iff x m).0 (ground (arith, k.head, split, e)) in
            inr (rest, split ∙ ap (λ y. y ∷ rest) equal, ground (arith, split))
      ]
    ]

-- Nothing has been added.
unchanged : {q r : List Bytes} → r ≡ q → (added : List Bytes) × (r ≡ q ++ added)
unchanged {q} same = ([], same ∙ sym (append-nil q))

sent_queue :
    (s : System) (m : Bytes)
    → (added : List Bytes) × ((sent s m (send_or_queue s.client m)).client.offline_queue
        ≡ s.client.offline_queue ++ added)
sent_queue s m =
    let at = ap (λ c. c.offline_queue) (sent_client s m (send_or_queue s.client m)) in
    elim (send_or_queue_cases s.client m) [
      | inl same ↦ unchanged (at ∙ same)
      | inr more ↦ (m ∷ [], at ∙ more)
    ]

-- While a client is Online, no step of its goroutines takes a message off the offline queue: the
-- step leaves the queue as it was, or adds messages at its end.
pub online_queue_waits :
    {s t : System}
    → Step s t
    → s.client.state ≡ online
    → (added : List Bytes) × (t.client.offline_queue ≡ s.client.offline_queue ++ added)
unfolding send_or_queue enqueue_offline drop_connection request_reconnect begin_reconnect
    reconnect_failed install_connection flush_next flush_written begin_close close_signal
online_queue_waits {s} (Step.sends m) e = sent_queue s m
online_queue_waits {s} (Step.write_succeeds before after conn m _) e = unchanged (ground arith)
online_queue_waits {s} (Step.write_fails before after conn m _) e = (m ∷ [], refl)
online_queue_waits {s} (Step.drops conn old) e = unchanged (ground (arith, e))
online_queue_waits {s} (Step.signals others h) e = unchanged (ground arith)
online_queue_waits {s} (Step.wakes h signal) e = unchanged (ground arith)
online_queue_waits {s} (Step.begins h) e = unchanged (ground (arith, e))
online_queue_waits {s} (Step.retries h) e = unchanged (ground (arith, e))
online_queue_waits {s} (Step.dial_fails h) e = unchanged (ground (arith, e))
online_queue_waits {s} (Step.dial_succeeds h) e = unchanged (ground (arith, e))
online_queue_waits {s} (Step.flush_takes conn old h) e = unchanged (ground (arith, e))
online_queue_waits {s} (Step.flush_succeeds conn m h) e = unchanged (ground arith)
online_queue_waits {s} (Step.flush_fails conn m h) e = unchanged (ground (arith, e))
online_queue_waits {s} (Step.flush_ends conn m c more h w) e = unchanged (ground (arith, e, w))
online_queue_waits {s} (Step.closes h) e = unchanged (ground arith)
online_queue_waits {s} (Step.stops h other) e = unchanged (ground arith)
