-- ===== src/Rooms/Reminder.antt =====
-- app/rooms.py: a room that waits for its owner, and the reminder that the owner gets.
use brainard.Prelude.{ℕ, String, Bool, ◌&&◌, Option, none, some, if◌then◌else◌, is_none}
use brainard.Prelude.Table.{lookup, insert}
use brainard.Model.{Room, Chat, Hub, Notice, is_open}
use brainard.Rooms.Queries.{notify}

-- The room waits for its owner to post.
abbrev pub is_not_opened : Room → Bool
is_not_opened r = r.requires_owner_open && is_none r.opened_at

-- `_maybe_ping_owner_room_not_opened`: at most one reminder for a room.
unfoldable pub is_reminder_due : Room → Bool
is_reminder_due r = is_open r && is_not_opened r && is_none r.owner_open_reminder_sent_at

unfoldable pub remind_owner : String → Option String → ℕ → Hub → Chat → Hub
unfolding is_reminder_due notify
remind_owner room_id agent_name now hub c =
    if is_reminder_due c.room
    then notify (Notice.owner_open_pending room_id agent_name) (record hub {
      chats =
          insert room_id
            (record c { room = record c.room { owner_open_reminder_sent_at = some now } })
            hub.chats;
    })
    else hub

unfoldable pub maybe_ping_owner_room_not_opened : String → Option String → ℕ → Hub → Hub
unfolding remind_owner
maybe_ping_owner_room_not_opened room_id agent_name now hub = elim (lookup room_id hub.chats) [
  | none ↦ hub
  | some c ↦ remind_owner room_id agent_name now hub c
]
