-- ===== src/Rooms/Close.antt =====
-- app/rooms.py: `close_room` and `post_closing_nudge`.
pub mod Once
use brainard.Prelude.{
  ℕ, String, Bool, true, false, not, ◌&&◌, Option, none, some, List, [], ◌∷◌, if◌then◌else◌,
  contains, is_none, get_or_else,
}
use brainard.Prelude.Table.{lookup, insert}
use brainard.Errors.{Code, Result, ok, err, raise, raise_if, ◌>>=◌, ◌>>◌}
use brainard.Model.{Room, RoomMessage, Chat, Hub, Notice, is_open}
use brainard.Rooms.Queries.{system_message, announce, with_existing_room, notify}
use brainard.Rooms.Post.{close_if}

-- `VALID_CLOSE_REASONS`
abbrev pub valid_close_reasons : List String
valid_close_reasons = "done" ∷ "owner" ∷ "cap" ∷ "stall" ∷ "time" ∷ []

abbrev pub is_valid_reason : Option String → Bool
is_valid_reason none = true
is_valid_reason (some reason) = contains reason valid_close_reasons

-- `_apply_close`, up to its commit.
unfoldable pub apply_close : String → ℕ → Chat → Chat
unfolding close_if
apply_close reason now c = record c { room = close_if (some reason) now c.room }

-- Under the lock: whether this call closes the room, and the room after it.
unfoldable pub close_locked : Option String → ℕ → Chat → Result ((Bool × Room) × Chat)
close_locked reason now c =
    if is_open c.room
    then ok (
      (true, (apply_close (get_or_else reason "owner") now c).room),
      apply_close (get_or_else reason "owner") now c,
    )
    else ok ((false, c.room), c)

-- The owner hears of a close by the call that applied it.
unfoldable pub close_committed : String → Result (Bool × Room) × Hub → Result Room × Hub
close_committed room_id (err e, hub) = (err e, hub)
close_committed room_id (ok (false, r), hub) = (ok r, hub)
close_committed room_id (ok (true, r), hub) =
    (ok r, notify (Notice.room_closed room_id r.close_reason) hub)

unfoldable pub close_room : Option Chat → String → Option String → ℕ → Hub → Result Room × Hub
close_room seen room_id reason now hub =
    if is_valid_reason reason
    then close_committed room_id (with_existing_room seen room_id (close_locked reason now) hub)
    else (raise 422 Code.invalid_close_reason, hub)

-- `post_closing_nudge` under the lock: one warning for a room, and no guardrail.
unfoldable pub nudge : String → ℕ → String → Chat → Option RoomMessage × Chat
nudge text now id c =
    if is_open c.room && is_none c.closing_warned_at
    then (
      some (system_message c text now id),
      announce (record c { room = record c.room { closing_warned_at = some now } }) text now id,
    )
    else (none, c)

unfoldable pub nudge_stored : String → Hub → Option RoomMessage × Chat → Option RoomMessage × Hub
nudge_stored room_id hub (m, c) = (m, record hub { chats = insert room_id c hub.chats })

unfoldable pub post_closing_nudge : String → String → ℕ → String → Hub → Option RoomMessage × Hub
post_closing_nudge room_id text now id hub = elim (lookup room_id hub.chats) [
  | none ↦ (none, hub)
  | some c ↦ nudge_stored room_id hub (nudge text now id c)
]
