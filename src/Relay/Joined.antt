-- ===== src/Relay/Joined.antt =====
-- Join keeps the invariant of the hub.
use mathlib.Core.Path.{subst}
use yata_collaborative_edito.Base.{
  ℕ, suc, ◌≡◌, ◌≢◌, ◌∙◌, ◌⊎◌, refl, sym, ap, true, false, inl, inr, Option, some, [], ◌∷◌, arith,
  Bool-cases, Option-cases, Text, text_eq_iff, text_Eq, trim_space, is_empty, Map, Eq, lookup,
  insert, lookup-insert,
}
use yata_collaborative_edito.Relay.{
  ClientSession, new_client_session, Room, new_room, Hub, new_hub, room_or_new, store_room, join,
}
use yata_collaborative_edito.Relay.Sessions.{
  IsValid, session_at, session_at-store_room, session_at-room_or_new,
}
use yata_collaborative_edito.Relay.Joining.{join-new, join-taken}

pub new_hub-IsValid : IsValid new_hub
unfolding new_hub lookup
new_hub-IsValid = record {
  rooms = λ id room e. ground arith;
  occupied = λ id room e. ground arith;
  sessions = λ id client s e. ground arith;
}

pub store_room-lookup :
    (h : Hub) (id i : Text) (room r : Room)
    → lookup i (store_room h id room).rooms ≡ some r
    → ((id ≡ i) × (room ≡ r)) ⊎ (lookup i h.rooms ≡ some r)
unfolding store_room
store_room-lookup h id i room r e =
    ground (arith, text_eq_iff id i, lookup-insert id i room h.rooms)

pub insert-occupied : {K V : Type 0} ⦃e : Eq K⦄ (k : K) (v : V) (m : Map K V) → insert k v m ≢ []
unfolding insert
insert-occupied k v [] = ground arith
insert-occupied k v ((j, w) ∷ m) = ground arith

pub admit-IsValid :
    (h : Hub) (room : Room) (id client : Text) (s : ClientSession)
    → IsValid h
    → room.id ≡ id
    → is_empty id ≡ false
    → is_empty client ≡ false
    → s.client_id ≡ client
    → s.room_id ≡ id
    → s.address ≡ h.allocated
    → ((c : Text) → lookup c room.clients ≡ session_at h id c)
    → IsValid (record (store_room h id (record room { clients = insert client s room.clients })) {
      allocated = suc h.allocated;
    })
admit-IsValid h room id client s v same named called to in_room at clients =
    let room' : Room = record room { clients = insert client s room.clients } in
    record {
      rooms = λ i r e. elim (store_room-lookup h id i room' r e) [
        | inl (p, q) ↦ ground (arith)
        | inr old ↦ v.rooms i r old
      ];
      occupied = λ i r e. elim (store_room-lookup h id i room' r e) [
        | inl (p, q) ↦
            λ empty. insert-occupied client s room.clients (ap (λ x. x.clients) q ∙ empty)
        | inr old ↦ v.occupied i r old
      ];
      sessions = λ i c t e.
          let found : ((id ≡ i) × (client ≡ c) × (s ≡ t)) ⊎ (session_at h i c ≡ some t) = ground (
            arith,
            e,
            session_at-store_room h id i c room',
            lookup-insert client c s room.clients,
            clients c,
            text_eq_iff id i,
            text_eq_iff client c,
          ) in
          elim found [
            | inl (p, q, r) ↦ record {
              client = ground arith;
              room = ground arith;
              in_use = ground arith;
              client_named = ap is_empty (sym q) ∙ called;
              room_named = ap is_empty (sym p) ∙ named;
            }
            | inr old ↦
                let w = v.sessions i c t old in
                record {
                  client = w.client;
                  room = w.room;
                  in_use = ground (arith, w.in_use);
                  client_named = w.client_named;
                  room_named = w.room_named;
                }
          ];
    }

pub same-IsValid :
    (h g : Hub)
    → IsValid h
    → ((i : Text) → lookup i g.rooms ≡ lookup i h.rooms)
    → g.allocated ≡ h.allocated
    → IsValid g
same-IsValid h g v same kept = record {
  rooms = λ i r e. v.rooms i r (sym (same i) ∙ e);
  occupied = λ i r e. v.occupied i r (sym (same i) ∙ e);
  sessions = λ i c t e.
      let w = v.sessions i c t (ground (arith, same i)) in
      record {
        client = w.client;
        room = w.room;
        in_use = ground (arith, w.in_use);
        client_named = w.client_named;
        room_named = w.room_named;
      };
}

pub store_room-same :
    (h : Hub) (id client : Text) (s : ClientSession)
    → session_at h id client ≡ some s
    → (i : Text) → lookup i (store_room h id (room_or_new h id)).rooms ≡ lookup i h.rooms
unfolding store_room room_or_new
store_room-same h id client s found i =
    ground (arith, lookup-insert id i (room_or_new h id) h.rooms, text_eq_iff id i)

pub join-unnamed :
    (h : Hub) (room_id client_id name : Text) (conn : Option ℕ)
    → (is_empty (trim_space room_id) ≡ true) ⊎ (is_empty (trim_space client_id) ≡ true)
    → (join h room_id client_id name conn).0 ≡ h
unfolding join
join-unnamed h room_id client_id name conn blank = ground arith

pub room_or_new-id : (h : Hub) (id : Text) → IsValid h → (room_or_new h id).id ≡ id
unfolding room_or_new new_room
room_or_new-id h id v = elim (Option-cases (lookup id h.rooms)) [
  | inl e ↦ ground arith
  | inr (room, e) ↦ ground (arith, v.rooms id room e)
]

-- Every join leaves a hub in which each room stands under its own name, no room is empty, and
-- each session stands under its own two names, which are not blank, at an address in use.
pub join-IsValid :
    (h : Hub) (room_id client_id name : Text) (conn : Option ℕ)
    → IsValid h
    → IsValid (join h room_id client_id name conn).0
unfolding new_client_session store_room
join-IsValid h room_id client_id name conn v =
    let r = trim_space room_id in
    let k = trim_space client_id in
    elim (Bool-cases (is_empty r)) [
      | inl e ↦ subst IsValid (sym (join-unnamed h room_id client_id name conn (inl e))) v
      | inr named ↦ elim (Bool-cases (is_empty k)) [
        | inl e ↦ subst IsValid (sym (join-unnamed h room_id client_id name conn (inr e))) v
        | inr called ↦ elim (Option-cases (session_at h r k)) [
          | inl free ↦
              subst IsValid
                (sym (ap (λ p. p.0) (join-new h room_id client_id name conn named called free)))
                (admit-IsValid h (room_or_new h r) r k
                  (new_client_session h.allocated k r name conn) v (room_or_new-id h r v) named
                  called refl refl refl (session_at-room_or_new h r))
          | inr (s, taken) ↦
              subst IsValid
                (sym
                  (ap (λ p. p.0) (join-taken h room_id client_id name conn s named called taken)))
                (same-IsValid h (store_room h r (room_or_new h r)) v (store_room-same h r k s taken)
                  refl)
        ]
      ]
    ]
