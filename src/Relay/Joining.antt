-- ===== src/Relay/Joining.antt =====
-- Join: who is in which room afterwards.
use yata_collaborative_edito.Base.{
  ℕ, suc, ◌≡◌, ◌∙◌, ap, false, Option, none, some, arith, if◌then◌else◌, Text, text_eq_iff, text_Eq,
  trim_space, is_empty, insert, lookup-insert,
}
use yata_collaborative_edito.Relay.{
  ClientSession, new_client_session, Hub, room_or_new, store_room, join, returned, raised,
  client_already_exists,
}
use yata_collaborative_edito.Relay.Sessions.{
  session_at, both, session_at-store_room, session_at-room_or_new,
}

pub join-new :
    (h : Hub) (room_id client_id name : Text) (conn : Option ℕ)
    → is_empty (trim_space room_id) ≡ false
    → is_empty (trim_space client_id) ≡ false
    → session_at h (trim_space room_id) (trim_space client_id) ≡ none
    → join h room_id client_id name conn ≡ (
      (record (store_room h (trim_space room_id) (record (room_or_new h (trim_space room_id)) {
        clients =
            insert
              (trim_space client_id)
              (new_client_session h.allocated (trim_space client_id) (trim_space room_id) name conn)
              (room_or_new h (trim_space room_id)).clients;
      })) { allocated = suc h.allocated }),
      returned
          (new_client_session h.allocated (trim_space client_id) (trim_space room_id) name conn),
    )
unfolding join
join-new h room_id client_id name conn named called free =
    ground (arith, session_at-room_or_new h (trim_space room_id) (trim_space client_id))

-- A join under two names that are not blank, where the room has no such client, answers with
-- the new session; afterwards the hub has that session under the trimmed names and under every
-- other pair of names what it had before.
pub join_admits :
    (h : Hub) (room_id client_id name : Text) (conn : Option ℕ)
    → is_empty (trim_space room_id) ≡ false
    → is_empty (trim_space client_id) ≡ false
    → session_at h (trim_space room_id) (trim_space client_id) ≡ none
    → ((join h room_id client_id name conn).1
        ≡ returned
            (new_client_session h.allocated (trim_space client_id) (trim_space room_id) name conn))
      × ((i c : Text)
          → session_at (join h room_id client_id name conn).0 i c ≡ (
              if both (trim_space room_id) (trim_space client_id) i c
              then some (
                  new_client_session h.allocated
                    (trim_space client_id)
                    (trim_space room_id)
                    name
                    conn)
              else session_at h i c))
join_admits h room_id client_id name conn named called free =
    let r = trim_space room_id in
    let k = trim_space client_id in
    let s = new_client_session h.allocated k r name conn in
    let room = room_or_new h r in
    let e = join-new h room_id client_id name conn named called free in
    (
      ap (λ p. p.1) e,
      λ i c.
          ap (λ p. session_at p.0 i c) e
          ∙ session_at-store_room h r i c (record room { clients = insert k s room.clients })
          ∙ (ground (
            arith,
            lookup-insert k c s room.clients,
            session_at-room_or_new h r c,
            text_eq_iff r i,
          )),
    )

pub join-taken :
    (h : Hub) (room_id client_id name : Text) (conn : Option ℕ) (s : ClientSession)
    → is_empty (trim_space room_id) ≡ false
    → is_empty (trim_space client_id) ≡ false
    → session_at h (trim_space room_id) (trim_space client_id) ≡ some s
    → join h room_id client_id name conn ≡ (
      store_room h (trim_space room_id) (room_or_new h (trim_space room_id)),
      raised client_already_exists,
    )
unfolding join
join-taken h room_id client_id name conn s named called taken =
    ground (arith, session_at-room_or_new h (trim_space room_id) (trim_space client_id))

-- A join under the names of a session that the hub has is refused, and the hub has the same
-- sessions under all names.
pub join_refuses :
    (h : Hub) (room_id client_id name : Text) (conn : Option ℕ) (s : ClientSession)
    → is_empty (trim_space room_id) ≡ false
    → is_empty (trim_space client_id) ≡ false
    → session_at h (trim_space room_id) (trim_space client_id) ≡ some s
    → ((join h room_id client_id name conn).1 ≡ raised client_already_exists)
      × ((i c : Text) → session_at (join h room_id client_id name conn).0 i c ≡ session_at h i c)
join_refuses h room_id client_id name conn s named called taken =
    let r = trim_space room_id in
    let k = trim_space client_id in
    let e : join h room_id client_id name conn
        ≡ (store_room h r (room_or_new h r), raised client_already_exists) =
      join-taken h room_id client_id name conn s named called taken in
    (
      ap (λ p. p.1) e,
      λ i c.
          ap (λ p. session_at p.0 i c) e
          ∙ session_at-store_room h r i c (room_or_new h r)
          ∙ (ground (arith, session_at-room_or_new h r c, text_eq_iff r i)),
    )
