-- ===== src/Relay/Lifetime.antt =====
-- What a whole connection leaves of the hub.
use yata_collaborative_edito.Base.{
  ℕ, Bool, true, false, Option, none, some, List, [], ◌∷◌, ◌≡◌, ◌∙◌, ◌⊎◌, refl, ap, inl, inr, arith,
  Text, Bool-cases, Option-cases, text_eq_iff, trim_space, is_empty,
}
use yata_collaborative_edito.Protocol.Messages.{Json, Codec}
use yata_collaborative_edito.Protocol.Operations.{Delta}
use yata_collaborative_edito.Storage.Buckets.{Bolt}
use yata_collaborative_edito.Relay.{
  ClientSession, new_client_session, Hub, HubError, room_id_empty, client_id_empty,
  client_already_exists, returned, raised, join, leave,
}
use yata_collaborative_edito.Relay.Sessions.{session_at, IsValid}
use yata_collaborative_edito.Relay.Joining.{join_admits, join_refuses}
use yata_collaborative_edito.Relay.Joined.{join-IsValid, join-unnamed}
use yata_collaborative_edito.Relay.Leaving.{leave_removes}
use yata_collaborative_edito.Relay.Handshake.{ErrorReply, Handshake, refused, requested, handshake}
use yata_collaborative_edito.Relay.Rounds.{message_round}
use yata_collaborative_edito.Relay.Serving.{
  Incoming, message_loop, finish_session, serve_session, ws,
}

pub Handshake-cases :
    (h : Handshake)
    → ((reply : ErrorReply) × (h ≡ refused reply))
      ⊎ ((room : Text) × (client : Text) × (name : Text) × (h ≡ requested room client name))
Handshake-cases (refused reply) = inl (reply, refl)
Handshake-cases (requested room client name) = inr (room, client, name, refl)

module _ (hub : Hub) (valid : IsValid hub) (room client name : Text) (conn : Option ℕ) where
  -- A join that is refused leaves the sessions as they were.
  unfoldable JoinRefused : Type 0
  JoinRefused =
      (e : HubError) × ((join hub room client name conn).1 ≡ raised e)
      × ((i c : Text) → session_at (join hub room client name conn).0 i c ≡ session_at hub i c)

  -- So does one that is admitted, once the session has left.
  unfoldable JoinAdmitted : Type 0
  JoinAdmitted =
      (s : ClientSession) × ((join hub room client name conn).1 ≡ returned s)
      × ((i c : Text)
          → session_at (leave (join hub room client name conn).0 (some s)) i c ≡ session_at hub i c)

  join_unnamed_cases :
      (is_empty (trim_space room) ≡ true) ⊎ (is_empty (trim_space client) ≡ true) → JoinRefused
  unfolding join JoinRefused
  join_unnamed_cases blank =
      let same =
        λ (i c : Text). ap (λ h. session_at h i c) (join-unnamed hub room client name conn blank) in
      elim (Bool-cases (is_empty (trim_space room))) [
        | inl b ↦ (room_id_empty, ground arith, same)
        | inr b ↦ (client_id_empty, ground (arith, blank), same)
      ]

  join_fresh :
      is_empty (trim_space room) ≡ false
      → is_empty (trim_space client) ≡ false
      → session_at hub (trim_space room) (trim_space client) ≡ none
      → JoinAdmitted
  unfolding new_client_session JoinAdmitted
  join_fresh named called fresh =
      let k = trim_space client in
      let r = trim_space room in
      let s = new_client_session hub.allocated k r name conn in
      let (admitted, sessions) = join_admits hub room client name conn named called fresh in
      let here : session_at (join hub room client name conn).0 r k ≡ some s =
        ground (arith, sessions r k, text_eq_iff r r, text_eq_iff k k) in
      (
        s,
        admitted,
        λ i c.
            leave_removes (join hub room client name conn).0 s s
              (join-IsValid hub room client name conn valid) here refl i c
            ∙ ground (arith, sessions i c, text_eq_iff r i, text_eq_iff k c, fresh),
      )

  join_cases : JoinRefused ⊎ JoinAdmitted
  unfolding JoinRefused
  join_cases = elim (Bool-cases (is_empty (trim_space room))) [
    | inl e ↦ inl (join_unnamed_cases (inl e))
    | inr named ↦ elim (Bool-cases (is_empty (trim_space client))) [
      | inl e ↦ inl (join_unnamed_cases (inr e))
      | inr called ↦ elim (Option-cases (session_at hub (trim_space room) (trim_space client))) [
        | inl fresh ↦ inr (join_fresh named called fresh)
        | inr (s, taken) ↦
            let (refusal, same) = join_refuses hub room client name conn s named called taken in
            inl (client_already_exists, refusal, same)
      ]
    ]
  ]

module _ (json : Json) where
  module _ (bolt : Bolt) (deltas : Codec Delta) where
    message_loop-hub :
        (hub : Hub) (s : ClientSession) (db : bolt.Bucket) (rest : List Incoming)
        → (message_loop json bolt deltas hub s db rest).hub ≡ hub
    unfolding message_loop
    message_loop-hub hub s db [] = refl
    message_loop-hub hub s db (i ∷ rest) = ground (
      arith,
      message_loop-hub hub s
          (message_round json bolt deltas i.fails i.commits hub s db i.is_text i.message).1 rest,
    )

    -- After a session has been served the hub is the one it had joined, without it.
    serve_session-hub :
        (first : Incoming) (at_end : ℕ → Bool) (hub : Hub) (s : ClientSession) (db : bolt.Bucket)
        (room client : Text) (rest : List Incoming)
        → (serve_session json bolt deltas first at_end hub s db room client rest).hub
          ≡ leave hub (some s)
    unfolding serve_session finish_session
    serve_session-hub first at_end hub s db room client rest =
        ground (arith, message_loop-hub hub s db rest)

    -- A connection leaves no session behind: whatever its messages are and whichever writes fail,
    -- a valid hub has the same sessions under all names when ws ends as when it began.
    pub ws_restores :
        (hub : Hub) (db : bolt.Bucket) (conn : ℕ) (at_end : ℕ → Bool) (incoming : List Incoming)
        → IsValid hub
        → (i c : Text)
        → session_at (ws json bolt deltas hub db conn at_end incoming).hub i c ≡ session_at hub i c
    unfolding ws JoinRefused JoinAdmitted
    ws_restores hub db conn at_end [] valid i c = refl
    ws_restores hub db conn at_end (first ∷ rest) valid i c =
        elim (Handshake-cases (handshake json first.is_text first.message)) [
          | inl (reply, r) ↦ ground (arith, r)
          | inr (room, client, name, r) ↦ elim (join_cases hub valid room client name (some conn)) [
            | inl (e, refusal, same) ↦ ground (arith, r, refusal, same i c)
            | inr (s, admitted, left) ↦ ground (
              arith,
              r,
              admitted,
              serve_session-hub first at_end (join hub room client name (some conn)).0 s db room
                  client rest,
              left i c,
            )
          ]
        ]
