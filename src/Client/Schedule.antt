-- ===== src/Client/Schedule.antt =====
-- The goroutines of a client, interleaved: a step is what one of them does under ConnMutex, or one
-- write with its outcome. MarkDisconnected is two: its section under ConnMutex, and later its
-- RequestReconnect. Taking a signal and BeginReconnect are two as well, and so are the section of
-- Close and its closing of StopSignal.
use yata_collaborative_edito.Base.{
  ℕ, suc, ◌<◌, ◌≡◌, Bool, true, false, Option, none, some, List, [], ◌∷◌, ◌++◌, Text,
}
use yata_collaborative_edito.Protocol.Messages.{Bytes}
use yata_collaborative_edito.Client.{
  CollaborativeClient, begin_close, close_signal, enqueue_offline, Sending, empty_message, queued,
  writing, send_or_queue, request_reconnect, drop_connection, begin_reconnect, reconnect_failed,
  install_connection, Flushing, finished, flush, flush_next, flush_written,
  new_collaborative_client,
}

-- Where ReconnectLoop is
pub data LoopState : Type 0 where
  -- at the outer select
  idle : LoopState
  -- before BeginReconnect, after the signal
  woken : LoopState
  -- in DialAndJoin
  dialing : LoopState
  -- at the select with the timer
  retrying : LoopState

-- A round of FlushOfflineQueue that has taken a message, before or after its write
pub record Round : Type 0 where
  pub connection : ℕ
  pub message : Bytes
  pub is_written : Bool

pub record System : Type 0 where
  pub client : CollaborativeClient
  pub loop : LoopState
  -- the connections that have been dialled, by their addresses
  pub opened : ℕ
  -- the calls of SendOrQueue that have a message to write
  pub writers : List (ℕ × Bytes)
  pub round : Option Round
  -- the calls of MarkDisconnected that are about to call RequestReconnect
  pub signalling : ℕ
  -- whether StopOnce has been passed, and the section of Close with it
  pub is_closed : Bool
  -- what SendOrQueue took, and what was written, since the start
  pub accepted : List Bytes
  pub delivered : List Bytes

-- Start of a new client
unfoldable pub started : CollaborativeClient → System
unfolding request_reconnect
started c = record {
  client = request_reconnect c;
  loop = idle;
  opened = 0;
  writers = [];
  round = none;
  signalling = 0;
  is_closed = false;
  accepted = [];
  delivered = [];
}

abbrev pub sent : System → Bytes → CollaborativeClient × Sending → System
sent s m (c, empty_message) = record s { client = c }
sent s m (c, queued) = record s { client = c; accepted = m ∷ s.accepted }
sent s m (c, writing conn) = record s {
  client = c;
  accepted = m ∷ s.accepted;
  writers = (conn, m) ∷ s.writers;
}

abbrev pub dropped : System → CollaborativeClient × Bool → System
dropped s (c, true) = record s { client = c; signalling = suc s.signalling }
dropped s (c, false) = record s { client = c }

abbrev pub begun : System → CollaborativeClient × Bool → System
begun s (c, true) = record s { client = c; loop = dialing }
begun s (c, false) = record s { client = c; loop = idle }

abbrev pub dialled : System → CollaborativeClient × Bool → System
dialled s (c, true) = record s { client = c; loop = idle; opened = suc s.opened }
dialled s (c, false) = record s { client = c; loop = retrying; opened = suc s.opened }

abbrev pub taken : System → ℕ → CollaborativeClient × Flushing → System
taken s conn (c, finished) = record s { client = c }
taken s conn (c, flush m) = record s {
  client = c;
  round = some (record { connection = conn; message = m; is_written = false });
}

pub data Step (s : System) : System → Type 0 where
  sends : (m : Bytes) → Step s (sent s m (send_or_queue s.client m))
  write_succeeds :
      (before after : List (ℕ × Bytes)) (conn : ℕ) (m : Bytes)
      → s.writers ≡ before ++ (conn, m) ∷ after
      → Step s (record s { writers = before ++ after; delivered = s.delivered ++ m ∷ [] })
  write_fails :
      (before after : List (ℕ × Bytes)) (conn : ℕ) (m : Bytes)
      → s.writers ≡ before ++ (conn, m) ∷ after
      → Step s (record s { writers = before ++ after; client = enqueue_offline s.client m })
  -- a failed write, or a failed read of RemoteMessageLoop
  drops : (conn : ℕ) → conn < s.opened → Step s (dropped s (drop_connection s.client conn))
  signals :
      (others : ℕ)
      → s.signalling ≡ suc others
      → Step s (record s { client = request_reconnect s.client; signalling = others })
  wakes :
      s.loop ≡ idle
      → s.client.reconnect_signal ≡ true
      → Step s (record s { client = record s.client { reconnect_signal = false }; loop = woken })
  begins : s.loop ≡ woken → Step s (begun s (begin_reconnect s.client))
  retries : s.loop ≡ retrying → Step s (begun s (begin_reconnect s.client))
  dial_fails :
      s.loop ≡ dialing → Step s (record s { client = reconnect_failed s.client; loop = retrying })
  dial_succeeds : s.loop ≡ dialing → Step s (dialled s (install_connection s.client s.opened))
  flush_takes :
      (conn : ℕ)
      → conn < s.opened
      → s.round ≡ none
      → Step s (taken s conn (flush_next s.client conn))
  flush_succeeds :
      (conn : ℕ) (m : Bytes)
      → s.round ≡ some (record { connection = conn; message = m; is_written = false })
      → Step s (record s {
        round = some (record { connection = conn; message = m; is_written = true });
        delivered = s.delivered ++ m ∷ [];
      })
  flush_fails :
      (conn : ℕ) (m : Bytes)
      → s.round ≡ some (record { connection = conn; message = m; is_written = false })
      → Step s (dropped (record s { round = none }) (drop_connection s.client conn))
  flush_ends :
      (conn : ℕ) (m : Bytes) (c : CollaborativeClient) (more : Bool)
      → s.round ≡ some (record { connection = conn; message = m; is_written = true })
      → flush_written s.client conn ≡ some (c, more)
      → Step s (record s { round = none; client = c })
  closes :
      s.is_closed ≡ false
      → Step s (record s { client = (begin_close s.client).0; is_closed = true })
  stops :
      s.is_closed ≡ true
      → s.client.stopped ≡ false
      → Step s (record s { client = close_signal s.client })

-- The states that the goroutines of a new client can bring it to.
pub data Reachable : System → Type 0 where
  starts :
      (server_url room_id client_id : Text) (c : CollaborativeClient)
      → new_collaborative_client server_url room_id client_id ≡ some c
      → Reachable (started c)
  steps : {s t : System} → Reachable s → Step s t → Reachable t
