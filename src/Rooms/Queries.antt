-- ===== src/Rooms/Queries.antt =====
-- app/rooms.py: what the room operations read and write of one room, and the row lock.
use brainard.Prelude.{
  ℕ, ◌+◌, max, String, Bool, ◌||◌, Option, none, some, List, [], ◌∷◌, ◌++◌, map, ◌==◌, any, eqb,
}
use brainard.Prelude.Table.{lookup, insert}
use brainard.Errors.{Code, Result, ok, err, raise}
use brainard.Model.{RoomMessage, Chat, Hub, Notice}

-- `get_members`
unfoldable pub get_members : Chat → List String
get_members c = map (λ m. m.agent_name) c.members

-- `_CONSENSUS_GATED_MODES`
unfoldable pub is_consensus_gated : String → Bool
is_consensus_gated mode = mode == "debate" || mode == "critique"

-- `select(func.max(RoomMessage.seq))`, 0 for no message
unfoldable pub max_seq : List RoomMessage → ℕ
max_seq [] = 0
max_seq (m ∷ ms) = max m.seq (max_seq ms)

unfoldable pub next_seq : Chat → ℕ
next_seq c = max_seq c.messages + 1

-- The unique index on (room_id, seq).
unfoldable pub has_seq : ℕ → List RoomMessage → Bool
has_seq n ms = any (λ m. eqb m.seq n) ms

-- `db.add(message); room.message_count += 1`
unfoldable pub add_message : Chat → RoomMessage → Chat
add_message c m = record c {
  room = record c.room { message_count = c.room.message_count + 1 };
  messages = c.messages ++ m ∷ [];
}

-- The server's own announcements: the next `seq`, sender and kind "system", no guardrail.
unfoldable pub system_message : Chat → String → ℕ → String → RoomMessage
unfolding next_seq
system_message c text now id = record {
  id = id;
  seq = next_seq c;
  sender = "system";
  text = text;
  kind = "system";
  created_at = now;
  deleted_at = none;
}

unfoldable pub announce : Chat → String → ℕ → String → Chat
unfolding add_message system_message
announce c text now id = add_message c (system_message c text now id)

module _ {A : Type 0} where
  -- The room's row is written back on commit, and nothing is written when the body raises.
  unfoldable pub commit : String → Hub → Result (A × Chat) → Result A × Hub
  commit room_id hub (ok (a, c)) = (ok a, record hub { chats = insert room_id c hub.chats })
  commit room_id hub (err e) = (err e, hub)

  unfoldable pub locked : (Chat → Result (A × Chat)) → Option Chat → Result (A × Chat)
  locked body none = raise 404 Code.room_not_found
  locked body (some c) = body c

  -- `SELECT … FOR UPDATE` on the room's row, a body over what it reads, one commit. In the code a body
  -- has the whole session; the modelled ones write the locked room and its rows alone.
  unfoldable pub with_room_lock : String → (Chat → Result (A × Chat)) → Hub → Result A × Hub
  unfolding commit locked
  with_room_lock room_id body hub = commit room_id hub (locked body (lookup room_id hub.chats))

module _ {A : Type 0} where
  -- The unlocked existence check that stands before the lock; `seen` is what it reads.
  unfoldable pub with_existing_room :
      Option Chat → String → (Chat → Result (A × Chat)) → Hub → Result A × Hub
  with_existing_room none room_id body hub = (raise 404 Code.room_not_found, hub)
  with_existing_room (some c) room_id body hub = with_room_lock room_id body hub

unfoldable pub notify : Notice → Hub → Hub
notify n hub = record hub { outbox = hub.outbox ++ n ∷ [] }
