-- ===== src/Rooms/Remove.antt =====
-- app/rooms.py: `delete_room` and `assign_group_to_rooms`.
pub mod Grouping
use brainard.Prelude.{
  ℕ, String, Bool, true, false, not, Option, none, some, List, [], ◌∷◌, map, ◌==◌, if◌then◌else◌,
  ltb, length, any, contains, is_nil, is_none, keep,
}
use brainard.Prelude.Text.{strip, is_empty}
use brainard.Prelude.Table.{Table, lookup, insert, remove}
use brainard.Errors.{Code, Result, ok, err, raise, raise_if, ◌>>=◌, ◌>>◌}
use brainard.Model.{Chat, Hub}
use brainard.Rooms.Validate.{validate_group}

-- What the caller learns, and the blobs to release after the commit.
pub record Removed : Type 0 where
  pub messages_deleted : ℕ
  pub members_deleted : ℕ
  pub attachment_hashes : List String

unfoldable pub remove_found : String → Hub → Option Chat → Result Removed × Hub
remove_found room_id hub none = (raise 404 Code.room_not_found, hub)
remove_found room_id hub (some c) = (
  ok (record {
    messages_deleted = length c.messages;
    members_deleted = length c.members;
    attachment_hashes = map (λ a. a.blob_sha256) c.attachments;
  }),
  record hub { chats = remove room_id hub.chats },
)

-- `delete_room`: the room's rows go with it, in one commit.
unfoldable pub delete_room : Option Chat → String → Hub → Result Removed × Hub
unfolding remove_found
delete_room none room_id hub = (raise 404 Code.room_not_found, hub)
delete_room (some seen) room_id hub = remove_found room_id hub (lookup room_id hub.chats)

abbrev pub max_bulk_assign_rooms : ℕ
max_bulk_assign_rooms = 500

-- `set(ids)`, one of each.
unfoldable pub unique : List String → List String
unique [] = []
unique (x ∷ xs) = let rest = unique xs in if contains x rest then rest else x ∷ rest

unfoldable pub regroup : List String → Option String → String → Chat → Chat
regroup ids group id c =
    if contains id ids then record c { room = record c.room { group_name = group } } else c

-- `UPDATE rooms SET group_name = … WHERE id IN (ids)`
unfoldable pub set_group : List String → Option String → Table Chat → Table Chat
set_group ids group [] = []
set_group ids group ((id, c) ∷ t) = (id, regroup ids group id c) ∷ set_group ids group t

unfoldable pub missing_ids : List String → Table Chat → List String
missing_ids ids chats = keep (λ id. is_none (lookup id chats)) ids

-- The rejections, and the ids and the label to write.
unfoldable pub validate_assignment :
    List String → Option String → Table Chat → Result (List String × Option String)
validate_assignment room_ids group chats = do
  raise_if (is_nil room_ids) 422 Code.invalid_room_ids
  raise_if (ltb max_bulk_assign_rooms (length room_ids)) 422 Code.invalid_room_ids
  raise_if (any is_empty (map strip room_ids)) 422 Code.invalid_room_ids
  cleaned ← validate_group group
  raise_if (not (is_nil (missing_ids (unique (map strip room_ids)) chats))) 404
      Code.unknown_room_ids
  ok (unique (map strip room_ids), cleaned)

unfoldable pub assign_validated :
    Hub → Result (List String × Option String) → Result (ℕ × Option String) × Hub
assign_validated hub (err e) = (err e, hub)
assign_validated hub (ok (ids, group)) =
    (ok (length ids, group), record hub { chats = set_group ids group hub.chats })

-- `assign_group_to_rooms`: all of the rooms or none.
unfoldable pub assign_group_to_rooms :
    List String → Option String → Hub → Result (ℕ × Option String) × Hub
assign_group_to_rooms room_ids group hub =
    assign_validated hub (validate_assignment room_ids group hub.chats)
