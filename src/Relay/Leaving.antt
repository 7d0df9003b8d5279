-- ===== src/Relay/Leaving.antt =====
-- Leave: who is in which room afterwards.
use yata_collaborative_edito.Base.{
  ◌≡◌, ◌≢◌, ◌∙◌, ◌⊎◌, refl, ap, inl, inr, none, some, List, [], ◌∷◌, arith, if◌then◌else◌,
  Option-cases, Text, text_eq_iff, text_Eq, ==_iff, lookup, delete, lookup-delete,
}
use yata_collaborative_edito.Relay.{ClientSession, Room, Hub, store_room, remove_client, leave}
use yata_collaborative_edito.Relay.Sessions.{
  IsValid, session_at, both, session_at-found, session_at-store_room,
}

pub remove_client-last :
    (h : Hub) (room : Room) (id client : Text)
    → delete client room.clients ≡ []
    → remove_client h id room client ≡ record h { rooms = delete room.id h.rooms }
unfolding remove_client
remove_client-last h room id client e = ground arith

pub remove_client-others :
    (h : Hub) (room : Room) (id client : Text)
    → delete client room.clients ≢ []
    → remove_client h id room client
      ≡ store_room h id (record room { clients = delete client room.clients })
unfolding remove_client
remove_client-others h room id client e = ground arith

pub List-cases : {A : Type 0} (xs : List A) → (xs ≡ []) ⊎ (xs ≢ [])
List-cases [] = inl refl
List-cases (x ∷ xs) = inr (ground arith)

pub remove_client-session_at :
    (h : Hub) (room : Room) (id client i c : Text)
    → room.id ≡ id
    → lookup id h.rooms ≡ some room
    → session_at (remove_client h id room client) i c
      ≡ (if both id client i c then none else session_at h i c)
unfolding lookup
remove_client-session_at h room id client i c same found =
    elim (List-cases (delete client room.clients)) [
      | inl e ↦
          ap (λ g. session_at g i c) (remove_client-last h room id client e)
          ∙ (ground (
            arith,
            lookup-delete client c room.clients,
            ap (lookup c) e,
            session_at-found h id c room found,
            text_eq_iff id i,
            lookup-delete room.id i h.rooms,
          ))
      | inr e ↦
          ap (λ g. session_at g i c) (remove_client-others h room id client e)
          ∙ session_at-store_room h id i c (record room { clients = delete client room.clients })
          ∙ (ground (
            arith,
            lookup-delete client c room.clients,
            session_at-found h id c room found,
            text_eq_iff id i,
          ))
    ]

pub leave-found :
    (h : Hub) (s stored : ClientSession) (room : Room)
    → IsValid h
    → lookup s.room_id h.rooms ≡ some room
    → session_at h s.room_id s.client_id ≡ some stored
    → stored.address ≡ s.address
    → leave h (some s) ≡ remove_client h s.room_id room s.client_id
unfolding leave
leave-found h s stored room v e there same =
    let session = v.sessions s.room_id s.client_id stored there in
    let client = session.client in
    let called = session.client_named in
    let named = session.room_named in ground (arith, ==_iff stored.address s.address)

-- Leave with a session that the hub has, at its address, takes that session out and leaves
-- what stands under every other pair of names.
pub leave_removes :
    (h : Hub) (s stored : ClientSession)
    → IsValid h
    → session_at h s.room_id s.client_id ≡ some stored
    → stored.address ≡ s.address
    → (i c : Text)
    → session_at (leave h (some s)) i c
      ≡ (if both s.room_id s.client_id i c then none else session_at h i c)
leave_removes h s stored v there same i c = elim (Option-cases (lookup s.room_id h.rooms)) [
  | inl e ↦ ground (arith, e)
  | inr (room, e) ↦
      ap (λ g. session_at g i c) (leave-found h s stored room v e there same)
      ∙ remove_client-session_at h room s.room_id s.client_id i c (v.rooms s.room_id room e) e
]

-- Leave has no effect with a session that the hub does not have, or has replaced by a session
-- at another address.
pub leave_ignores :
    (h : Hub) (s : ClientSession)
    → (session_at h s.room_id s.client_id ≡ none)
      ⊎ ((stored : ClientSession) × (session_at h s.room_id s.client_id ≡ some stored)
          × (stored.address ≢ s.address))
    → leave h (some s) ≡ h
unfolding leave
leave_ignores h s (inl e) = ground arith
leave_ignores h s (inr (stored, e, n)) = ground (arith, ==_iff stored.address s.address)
