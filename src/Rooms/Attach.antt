-- ===== src/Rooms/Attach.antt =====
-- app/rooms.py: the announcements of an attachment that was added or removed.
use Prim.Native.String.{◌++◌}
use brainard.Prelude.{ℕ, String, Option, none, some}
use brainard.Prelude.Decimal.{decimal}
use brainard.Prelude.Table.{lookup, insert}
use brainard.Model.{RoomMessage, Hub}
use brainard.Rooms.Queries.{system_message, announce}

attachment_added_text : String → ℕ → String → String
attachment_added_text filename byte_size uploaded_by =
    "Attachment added: \""
    ++ (filename ++ ("\" (" ++ (decimal byte_size ++ (" bytes), by " ++ (uploaded_by ++ ".")))))

attachment_removed_text : String → String → String
attachment_removed_text filename removed_by =
    "Attachment removed: \"" ++ (filename ++ ("\", by " ++ (removed_by ++ ".")))

-- `_post_attachment_system_message`: into an open or a closed room; a room that is gone is no error.
unfoldable pub post_attachment_system_message :
    String → String → ℕ → String → Hub → Option RoomMessage × Hub
post_attachment_system_message room_id text now id hub = elim (lookup room_id hub.chats) [
  | none ↦ (none, hub)
  | some c ↦ (
    some (system_message c text now id),
    record hub { chats = insert room_id (announce c text now id) hub.chats },
  )
]

unfoldable pub post_attachment_added_message :
    String → String → ℕ → String → ℕ → String → Hub → Option RoomMessage × Hub
unfolding attachment_added_text
post_attachment_added_message room_id filename byte_size uploaded_by now id hub =
    post_attachment_system_message room_id (attachment_added_text filename byte_size uploaded_by)
      now id hub

unfoldable pub post_attachment_removed_message :
    String → String → String → ℕ → String → Hub → Option RoomMessage × Hub
unfolding attachment_removed_text
post_attachment_removed_message room_id filename removed_by now id hub =
    post_attachment_system_message room_id (attachment_removed_text filename removed_by) now id hub
