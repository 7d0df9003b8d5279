-- ===== src/Client/Connection.antt =====
-- The connection and the state of a client agree, and a client that is disconnected reconnects.
use yata_collaborative_edito.Base.{
  ℕ, ◌≡◌, ◌∙◌, refl, ap, Bool, true, false, ◌||◌, ◌==◌, not, none, some, Text, arith,
}
use yata_collaborative_edito.Protocol.Messages.{Bytes}
use yata_collaborative_edito.Client.{
  closing, CollaborativeClient, begin_close, close_signal, enqueue_offline, send_or_queue,
  request_reconnect, drop_connection, begin_reconnect, reconnect_failed, install_connection,
  flush_next, flush_written, new_collaborative_client, is_nil, is_disconnected, is_connecting,
  is_syncing, is_online, is_closing, drop_first,
}
use yata_collaborative_edito.Client.Schedule.{
  LoopState, idle, woken, dialing, retrying, System, started, sent, dropped, begun, dialled, taken,
  Step, Reachable,
}

abbrev pub is_dialing : LoopState → Bool
is_dialing dialing = true
is_dialing l = false

abbrev pub is_retrying : LoopState → Bool
is_retrying retrying = true
is_retrying l = false

abbrev pub is_woken : LoopState → Bool
is_woken woken = true
is_woken l = false

-- What holds of a client, of its reconnecting goroutine, of the calls that are about to signal and
-- of Close between two steps.
pub record Agrees (c : CollaborativeClient) (l : LoopState) (signalling : ℕ) (is_closed : Bool)
    : Type 0 where
  pub installed : not (is_nil c.connection) ≡ (is_syncing c.state || is_online c.state)
  pub waking :
      is_disconnected c.state ≡ true
      → (c.reconnect_signal || (is_woken l || (is_retrying l || not (signalling == 0)))) ≡ true
  pub dials : is_connecting c.state ≡ true → is_dialing l ≡ true
  pub closes : is_closed ≡ is_closing c.state
  pub quits : c.stopped ≡ true → is_closed ≡ true

-- The connection, the state and the signal are as before.
pub record Unmoved (c c' : CollaborativeClient) : Type 0 where
  pub connection : c'.connection ≡ c.connection
  pub state : c'.state ≡ c.state
  pub signal : c'.reconnect_signal ≡ c.reconnect_signal
  pub stopped : c'.stopped ≡ c.stopped

module _ {c : CollaborativeClient} {l : LoopState} {n : ℕ} {b : Bool} (a : Agrees c l n b) where
  Unmoved-Agrees : {c' : CollaborativeClient} → Unmoved c c' → Agrees c' l n b
  Unmoved-Agrees u = record {
    installed = ground (arith, u.connection, u.state, a.installed);
    waking = ground (arith, u.state, u.signal, a.waking);
    dials = ground (arith, u.state, a.dials);
    closes = ground (arith, u.state, a.closes);
    quits = ground (arith, u.stopped, a.quits);
  }

  request_reconnect-Agrees : (others : ℕ) → Agrees (request_reconnect c) l others b
  unfolding request_reconnect
  request_reconnect-Agrees others = record {
    installed = ground (arith, a.installed);
    waking = λ h. refl;
    dials = ground (arith, a.dials);
    closes = ground (arith, a.closes);
    quits = ground (arith, a.quits);
  }

  begin_close-Agrees : Agrees (begin_close c).0 l n true
  unfolding begin_close
  begin_close-Agrees = record {
    installed = refl;
    waking = λ h. absurd (ground (arith, h));
    dials = λ h. absurd (ground (arith, h));
    closes = refl;
    quits = λ h. refl;
  }

  close_signal-Agrees : b ≡ true → Agrees (close_signal c) l n b
  unfolding close_signal
  close_signal-Agrees h = record {
    installed = a.installed;
    waking = a.waking;
    dials = a.dials;
    closes = a.closes;
    quits = λ e. h;
  }

  reconnect_failed-Agrees : Agrees (reconnect_failed c) retrying n b
  unfolding reconnect_failed
  reconnect_failed-Agrees = record {
    installed = ground (arith, a.installed);
    waking = ground (arith, a.waking);
    dials = ground (arith, a.dials);
    closes = ground (arith, a.closes);
    quits = ground (arith, a.quits);
  }

abbrev SystemAgrees : System → Type 0
SystemAgrees s = Agrees s.client s.loop s.signalling s.is_closed

abbrev unsignalled : CollaborativeClient → CollaborativeClient
unsignalled c = record c { reconnect_signal = false }

module _ (s : System) (a : SystemAgrees s) where
  drops-Agrees : (conn : ℕ) → SystemAgrees (dropped s (drop_connection s.client conn))
  unfolding drop_connection
  drops-Agrees conn = record {
    installed = ground (arith, a.installed);
    waking = ground (arith, a.waking);
    dials = ground (arith, a.dials);
    closes = ground (arith, a.closes);
    quits = ground (arith, a.quits);
  }

  wakes-Agrees :
      s.loop ≡ idle → SystemAgrees (record s { client = unsignalled s.client; loop = woken })
  wakes-Agrees h = record {
    installed = a.installed;
    waking = λ e. refl;
    dials = ground (arith, a.dials, h);
    closes = a.closes;
    quits = a.quits;
  }

  begins-Agrees : is_dialing s.loop ≡ false → SystemAgrees (begun s (begin_reconnect s.client))
  unfolding begin_reconnect
  begins-Agrees h = record {
    installed = ground (arith, a.installed);
    waking = ground (arith, a.waking, a.installed);
    dials = ground (arith, a.dials, h);
    closes = ground (arith, a.closes);
    quits = ground (arith, a.quits);
  }

  dial_succeeds-Agrees :
      s.loop ≡ dialing → SystemAgrees (dialled s (install_connection s.client s.opened))
  unfolding install_connection
  dial_succeeds-Agrees h = record {
    installed = ground (arith, a.installed);
    waking = ground (arith, a.waking, a.installed, h);
    dials = ground (arith, a.dials, h);
    closes = ground (arith, a.closes);
    quits = ground (arith, a.quits);
  }

  sends-Agrees : (m : Bytes) → SystemAgrees (sent s m (send_or_queue s.client m))
  unfolding send_or_queue enqueue_offline
  sends-Agrees m = record {
    installed = ground (arith, a.installed);
    waking = ground (arith, a.waking);
    dials = ground (arith, a.dials);
    closes = ground (arith, a.closes);
    quits = ground (arith, a.quits);
  }

  takes-Agrees : (conn : ℕ) → SystemAgrees (taken s conn (flush_next s.client conn))
  unfolding flush_next
  takes-Agrees conn = record {
    installed = ground (arith, a.installed);
    waking = ground (arith, a.waking);
    dials = ground (arith, a.dials);
    closes = ground (arith, a.closes);
    quits = ground (arith, a.quits);
  }

flush_written-Unmoved :
    (c c' : CollaborativeClient) (conn : ℕ) (more : Bool)
    → flush_written c conn ≡ some (c', more)
    → Unmoved c c'
unfolding flush_written drop_first
flush_written-Unmoved c c' conn more h = record {
  connection = ground (arith, h);
  state = ground (arith, h);
  signal = ground (arith, h);
  stopped = ground (arith, h);
}

enqueue-Unmoved : (c : CollaborativeClient) (m : Bytes) → Unmoved c (enqueue_offline c m)
unfolding enqueue_offline
enqueue-Unmoved c m = record { connection = refl; state = refl; signal = refl; stopped = refl }

Step-Agrees : {s t : System} → Step s t → SystemAgrees s → SystemAgrees t
Step-Agrees {s} (Step.sends m) a = sends-Agrees s a m
Step-Agrees {s} (Step.write_succeeds before after conn m e) a = a
Step-Agrees {s} (Step.write_fails before after conn m e) a =
    Unmoved-Agrees a (enqueue-Unmoved s.client m)
Step-Agrees {s} (Step.drops conn old) a = drops-Agrees s a conn
Step-Agrees {s} (Step.signals others h) a = request_reconnect-Agrees a others
Step-Agrees {s} (Step.wakes h signal) a = wakes-Agrees s a h
Step-Agrees {s} (Step.begins h) a = begins-Agrees s a (ap is_dialing h)
Step-Agrees {s} (Step.retries h) a = begins-Agrees s a (ap is_dialing h)
Step-Agrees {s} (Step.dial_fails h) a = reconnect_failed-Agrees a
Step-Agrees {s} (Step.dial_succeeds h) a = dial_succeeds-Agrees s a h
Step-Agrees {s} (Step.flush_takes conn old h) a = takes-Agrees s a conn
Step-Agrees {s} (Step.flush_succeeds conn m h) a = a
Step-Agrees {s} (Step.flush_fails conn m h) a = drops-Agrees (record s { round = none }) a conn
Step-Agrees {s} (Step.flush_ends conn m c more h e) a =
    Unmoved-Agrees a (flush_written-Unmoved s.client c conn more e)
Step-Agrees {s} (Step.closes h) a = begin_close-Agrees a
Step-Agrees {s} (Step.stops h other) a = close_signal-Agrees a h

started-Agrees :
    (server_url room_id client_id : Text) (c : CollaborativeClient)
    → new_collaborative_client server_url room_id client_id ≡ some c
    → SystemAgrees (started c)
unfolding new_collaborative_client started request_reconnect
started-Agrees server_url room_id client_id c h = record {
  installed = ground (arith, h);
  waking = ground (arith, h);
  dials = ground (arith, h);
  closes = ground (arith, h);
  quits = ground (arith, h);
}

-- In every state that the goroutines of a new client reach, in any order of their steps, a
-- connection is installed exactly when the state is Syncing or Online; a client that is
-- Disconnected has a signal to reconnect, a call of MarkDisconnected that is about to send one, or
-- a loop that has taken one or waits to try again; one that is Connecting has a loop that dials;
-- it is Closing exactly when Close has begun, and StopSignal is closed only then.
pub Reachable-Agrees : {s : System} → Reachable s → Agrees s.client s.loop s.signalling s.is_closed
Reachable-Agrees (Reachable.starts server_url room_id client_id c h) =
    started-Agrees server_url room_id client_id c h
Reachable-Agrees (Reachable.steps r t) = Step-Agrees t (Reachable-Agrees r)

closing_once : {s t : System} → Step s t → s.client.state ≡ closing → t.client.state ≡ closing
unfolding send_or_queue enqueue_offline drop_connection request_reconnect begin_reconnect
    reconnect_failed install_connection flush_next begin_close close_signal
closing_once {s} (Step.sends m) e = ground (arith, e)
closing_once {s} (Step.write_succeeds before after conn m _) e = e
closing_once {s} (Step.write_fails before after conn m _) e = e
closing_once {s} (Step.drops conn old) e = ground (arith, e)
closing_once {s} (Step.signals others h) e = ground (arith, e)
closing_once {s} (Step.wakes h signal) e = ground (arith, e)
closing_once {s} (Step.begins h) e = ground (arith, e)
closing_once {s} (Step.retries h) e = ground (arith, e)
closing_once {s} (Step.dial_fails h) e = ground (arith, e)
closing_once {s} (Step.dial_succeeds h) e = ground (arith, e)
closing_once {s} (Step.flush_takes conn old h) e = ground (arith, e)
closing_once {s} (Step.flush_succeeds conn m h) e = e
closing_once {s} (Step.flush_fails conn m h) e = ground (arith, e)
closing_once {s} (Step.flush_ends conn m c more h w) e =
    (flush_written-Unmoved s.client c conn more w).state ∙ e
closing_once {s} (Step.closes h) e = refl
closing_once {s} (Step.stops h other) e = e

-- Once a client that the goroutines of a new one have brought about is Closing, it is so after
-- each further step, and has no connection.
pub closing_stays :
    {s t : System}
    → Reachable s
    → Step s t
    → s.client.state ≡ closing
    → (t.client.state ≡ closing) × (t.client.connection ≡ none)
closing_stays {s} {t} r step h =
    let a = Reachable-Agrees r in
    let b = Reachable-Agrees (Reachable.steps r step) in
    let state = closing_once step h in (state, ground (arith, b.installed, state))
