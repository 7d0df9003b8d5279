-- ===== src/Relay/Left.antt =====
-- Leave keeps the invariant of the hub.
use mathlib.Core.Path.{subst}
use yata_collaborative_edito.Base.{
  ℕ, ◌≡◌, ◌≢◌, ◌∙◌, ◌⊎◌, refl, sym, ap, inl, inr, Option, none, some, arith, Option-cases, Text,
  text_Eq, lookup, delete, lookup-delete,
}
use yata_collaborative_edito.Relay.{ClientSession, Room, Hub, store_room, remove_client, leave}
use yata_collaborative_edito.Relay.Sessions.{IsSession, IsValid, session_at}
use yata_collaborative_edito.Relay.Leaving.{
  remove_client-last, remove_client-others, List-cases, remove_client-session_at, leave-found,
  leave_ignores,
}
use yata_collaborative_edito.Relay.Joined.{store_room-lookup}

pub remove_client-IsSession :
    (h g : Hub) (room : Room) (id client i c : Text) (t : ClientSession)
    → IsValid h
    → lookup id h.rooms ≡ some room
    → remove_client h id room client ≡ g
    → g.allocated ≡ h.allocated
    → session_at g i c ≡ some t
    → IsSession g i c t
remove_client-IsSession h g room id client i c t v found to kept e =
    let old : session_at h i c ≡ some t = ground (
      arith,
      remove_client-session_at h room id client i c (v.rooms id room found) found,
      ap (λ x. session_at x i c) to,
    ) in
    let w = v.sessions i c t old in
    record {
      client = w.client;
      room = w.room;
      in_use = ground (arith, w.in_use);
      client_named = w.client_named;
      room_named = w.room_named;
    }

pub remove_client-IsValid :
    (h : Hub) (room : Room) (id client : Text)
    → IsValid h
    → lookup id h.rooms ≡ some room
    → IsValid (remove_client h id room client)
unfolding store_room
remove_client-IsValid h room id client v found = elim (List-cases (delete client room.clients)) [
  | inl e ↦
      let to = remove_client-last h room id client e in
      subst IsValid (sym to) (record {
        rooms = λ i r f. v.rooms i r (ground (arith, lookup-delete room.id i h.rooms));
        occupied = λ i r f. v.occupied i r (ground (arith, lookup-delete room.id i h.rooms));
        sessions = λ i c t f.
            remove_client-IsSession h (record h { rooms = delete room.id h.rooms }) room id client i
              c t v found to refl f;
      })
  | inr n ↦
      let left : Room = record room { clients = delete client room.clients } in
      let to = remove_client-others h room id client n in
      let same = v.rooms id room found in
      subst IsValid (sym to) (record {
        rooms = λ i r f. elim (store_room-lookup h id i left r f) [
          | inl (p, q) ↦ ground arith
          | inr old ↦ v.rooms i r old
        ];
        occupied = λ i r f. elim (store_room-lookup h id i left r f) [
          | inl (p, q) ↦ λ empty. n (ap (λ x. x.clients) q ∙ empty)
          | inr old ↦ v.occupied i r old
        ];
        sessions = λ i c t f.
            remove_client-IsSession h (store_room h id left) room id client i c t v found to refl f;
      })
]

ℕ-cases : (a b : ℕ) → (a ≡ b) ⊎ (a ≢ b)
ℕ-cases a b = ground arith

-- Every leave keeps the same invariant; a room that loses its last session is gone.
pub leave-IsValid : (h : Hub) (s : Option ClientSession) → IsValid h → IsValid (leave h s)
unfolding leave
leave-IsValid h none v = v
leave-IsValid h (some s) v = elim (Option-cases (session_at h s.room_id s.client_id)) [
  | inl e ↦ subst IsValid (sym (leave_ignores h s (inl e))) v
  | inr (stored, e) ↦ elim (ℕ-cases stored.address s.address) [
    | inr n ↦ subst IsValid (sym (leave_ignores h s (inr (stored, e, n)))) v
    | inl same ↦ elim (Option-cases (lookup s.room_id h.rooms)) [
      | inl f ↦ ground (arith, f)
      | inr (room, f) ↦
          subst IsValid (sym (leave-found h s stored room v f e same))
            (remove_client-IsValid h room s.room_id s.client_id v f)
    ]
  ]
]
