-- ===== src/Presence.antt =====
-- backend/internal/presence/presence.go: the users of a room as they are shown.
use yata_collaborative_edito.Base.{Text}

-- type PresenceUser struct
pub record PresenceUser : Type 0 where
  pub id : Text
  pub name : Text

-- NewPresenceUser
unfoldable pub new_presence_user : Text → Text → PresenceUser
new_presence_user id name = record { id = id; name = name }
