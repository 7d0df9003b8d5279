-- ===== src/Examples/Client.antt =====
-- The theorems on backend/internal/client at a client that queues a message, connects and writes
-- it.
use yata_collaborative_edito.Base.{
  ◌≡◌, refl, true, false, none, some, List, [], ◌∷◌, ◌++◌, arith, codes, trim_space, trim_left,
  is_space, ok, ltb,
}
use yata_collaborative_edito.Protocol.Messages.{
  Bytes, ◌>>=◌, returned, type_join, type_join_ack, supported_version,
}
use yata_collaborative_edito.Protocol.Decoding.{encode_envelope, encode_join_ack}
use yata_collaborative_edito.Relay.Handshake.{handshake, refused, invalid_payload_reply}
use yata_collaborative_edito.Client.{
  CollaborativeClient, disconnected, syncing, new_collaborative_client, send_or_queue,
  enqueue_offline, begin_reconnect, install_connection, flush_next, online, request_reconnect,
  join_message, join_payload, validate_join_ack,
}
use yata_collaborative_edito.Client.Schedule.{
  System, Step, Reachable, started, sent, begun, dialled, taken, woken,
}
use yata_collaborative_edito.Client.Connection.{Agrees, Reachable-Agrees}
use yata_collaborative_edito.Client.Counting.{Keeps}
use yata_collaborative_edito.Client.Delivery.{Reachable-Keeps, online_queue_waits}
use yata_collaborative_edito.Client.Flush.{flush_offline_queue, flush_stops}
use yata_collaborative_edito.Client.Join.{join_message-refused, encode_join_ack-validate_join_ack}
use yata_collaborative_edito.Examples.Codec.{plain, plain-Laws, put_text, put_int}

abbrev laptop : CollaborativeClient
laptop = record {
  server_url = codes "s";
  room_id = codes "r";
  client_id = codes "c";
  connection = none;
  state = disconnected;
  offline_queue = [];
  reconnect_signal = false;
  stopped = false;
}

laptop_new : new_collaborative_client (codes " s") (codes "r") (codes "c ") ≡ some laptop
unfolding new_collaborative_client trim_space trim_left is_space
laptop_new = refl

abbrev pub greeting : Bytes
greeting = codes "hi"

abbrev s1 : System
s1 = sent (started laptop) greeting (send_or_queue (started laptop).client greeting)

r1 : Reachable s1
r1 =
    Reachable.steps (Reachable.starts (codes " s") (codes "r") (codes "c ") laptop laptop_new)
      (Step.sends greeting)

abbrev s_woken : System
s_woken = record s1 { client = record s1.client { reconnect_signal = false }; loop = woken }

r_woken : Reachable s_woken
unfolding started request_reconnect send_or_queue enqueue_offline
r_woken = Reachable.steps r1 (Step.wakes refl refl)

abbrev s2 : System
s2 = begun s_woken (begin_reconnect s_woken.client)

r2 : Reachable s2
r2 = Reachable.steps r_woken (Step.begins refl)

abbrev s3 : System
s3 = dialled s2 (install_connection s2.client s2.opened)

r3 : Reachable s3
unfolding started request_reconnect send_or_queue enqueue_offline begin_reconnect
r3 = Reachable.steps r2 (Step.dial_succeeds refl)

abbrev s4 : System
s4 = taken s3 0 (flush_next s3.client 0)

r4 : Reachable s4
unfolding started request_reconnect send_or_queue enqueue_offline begin_reconnect install_connection
r4 = Reachable.steps r3 (Step.flush_takes 0 (omega arith) refl)

abbrev s5 : System
s5 = record s4 {
  round = some (record { connection = 0; message = greeting; is_written = true });
  delivered = s4.delivered ++ greeting ∷ [];
}

r5 : Reachable s5
unfolding started request_reconnect send_or_queue enqueue_offline begin_reconnect install_connection
    flush_next
r5 = Reachable.steps r4 (Step.flush_succeeds 0 greeting refl)

Reachable-Agrees_example : Agrees s5.client s5.loop s5.signalling s5.is_closed
Reachable-Agrees_example = Reachable-Agrees r5

Reachable-Keeps_example : Keeps s5
Reachable-Keeps_example = Reachable-Keeps r5

abbrev pub farewell : Bytes
farewell = codes "bye"

abbrev pub busy : CollaborativeClient
busy = record laptop {
  connection = some 4;
  state = syncing;
  offline_queue = greeting ∷ farewell ∷ [];
}

flush_stops_example :
    flush_offline_queue (λ j. ltb j 1) busy 4
    ≡ ok (
      record busy {
        connection = none;
        state = disconnected;
        offline_queue = farewell ∷ [];
        reconnect_signal = true;
      },
      greeting ∷ [],
    )
flush_stops_example =
    flush_stops (λ j. ltb j 1) busy 4 (greeting ∷ []) [] farewell refl refl refl
      (λ j small. ground (arith, small)) refl

-- A write to an older connection has not ended yet.
abbrev overtaken : System
overtaken = record (started laptop) {
  client = record busy { state = online };
  opened = 5;
  writers = (3, greeting) ∷ [];
}

online_queue_waits_example :
    (added : List Bytes) × (greeting ∷ farewell ∷ greeting ∷ []
      ≡ (greeting ∷ farewell ∷ []) ++ added)
unfolding enqueue_offline started request_reconnect
online_queue_waits_example =
    online_queue_waits {s = overtaken} (Step.write_fails [] [] 3 greeting refl) refl

abbrev laptop_join : Bytes
laptop_join =
    put_int supported_version
      (put_text type_join (put_text (codes "r") (put_text (codes "c") (put_text [] []))))

laptop_joins : join_message plain laptop ≡ returned laptop_join
unfolding join_message join_payload encode_envelope ◌>>=◌
laptop_joins = refl

join_message-refused_example : handshake plain true laptop_join ≡ refused invalid_payload_reply
join_message-refused_example = join_message-refused plain plain-Laws laptop laptop_join laptop_joins

abbrev laptop_ack : Bytes
laptop_ack =
    put_int supported_version
      (put_text type_join_ack (put_text (codes "r") (put_text (codes "c") [])))

laptop_acked : encode_join_ack plain laptop.room_id laptop.client_id ≡ returned laptop_ack
unfolding encode_join_ack encode_envelope ◌>>=◌
laptop_acked = refl

encode_join_ack-validate_join_ack_example : validate_join_ack plain laptop true laptop_ack ≡ none
encode_join_ack-validate_join_ack_example =
    encode_join_ack-validate_join_ack plain plain-Laws (codes " s") (codes "r") (codes "c ") laptop
      laptop_ack laptop_new laptop_acked
