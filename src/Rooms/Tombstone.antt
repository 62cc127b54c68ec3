-- ===== src/Rooms/Tombstone.antt =====
-- app/rooms.py: `delete_message`, the owner's tombstone of one message.
pub mod Once
use brainard.Prelude.{
  ℕ, ◌-◌, String, Bool, true, false, Option, none, some, List, [], ◌∷◌, ◌==◌, if◌then◌else◌,
  is_some,
}
use brainard.Errors.{Code, Result, ok, raise}
use brainard.Model.{Room, RoomMessage, Chat, Hub}
use brainard.Rooms.Queries.{with_existing_room}

abbrev pub deleted_message_marker : String
deleted_message_marker = "[message deleted by owner]"

unfoldable pub find_message : String → List RoomMessage → Option RoomMessage
find_message id [] = none
find_message id (m ∷ ms) = if m.id == id then some m else find_message id ms

-- The text is overwritten; number, sender, kind and instant stay.
abbrev pub tombstone : ℕ → RoomMessage → RoomMessage
tombstone now m = record m { text = deleted_message_marker; deleted_at = some now }

unfoldable pub bury : String → ℕ → List RoomMessage → List RoomMessage
bury id now [] = []
bury id now (m ∷ ms) = if m.id == id then tombstone now m ∷ ms else m ∷ bury id now ms

unfoldable pub delete_found : String → ℕ → Chat → Option RoomMessage → Result (RoomMessage × Chat)
delete_found id now c none = raise 404 Code.room_message_not_found
delete_found id now c (some m) =
    if is_some m.deleted_at
    then ok (m, c)
    else ok (
      tombstone now m,
      record c {
        room = record c.room { message_count = c.room.message_count - 1 };
        messages = bury id now c.messages;
      },
    )

unfoldable pub delete_locked : String → ℕ → Chat → Result (RoomMessage × Chat)
delete_locked id now c = delete_found id now c (find_message id c.messages)

unfoldable pub delete_message : Option Chat → String → String → ℕ → Hub → Result RoomMessage × Hub
delete_message seen room_id message_id now hub =
    with_existing_room seen room_id (delete_locked message_id now) hub
