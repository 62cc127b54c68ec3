-- ===== src/Trace.antt =====
-- The operations of app/rooms.py as a language of calls, run in any order. Each call carries what
-- its unlocked reads saw, so any interleaving with the other calls is such a list.
pub mod Moves
pub mod Calls
pub mod Upkeep
pub mod History
use brainard.Prelude.{ℕ, String, Bool, Option, List, [], ◌∷◌, ◌≡◌, ◌≢◌}
use brainard.Prelude.Table.{Table}
use brainard.Model.{Chat, Hub, Machine, Principal}
use brainard.Rooms.Create.{RoomRequest, create_room}
use brainard.Rooms.Reminder.{maybe_ping_owner_room_not_opened}
use brainard.Rooms.Post.{post_message}
use brainard.Rooms.Close.{close_room, post_closing_nudge}
use brainard.Rooms.Tombstone.{delete_message}
use brainard.Rooms.Switch.{switch_room_mode}
use brainard.Rooms.Toggle.{set_agent_uploads_allowed, set_requires_owner_open, set_room_member_seat}
use brainard.Rooms.Attach.{post_attachment_system_message}
use brainard.Rooms.Poll.{maybe_refresh_working_marker, maybe_ping_owner_stalled_room}
use brainard.Rooms.Remove.{delete_room, assign_group_to_rooms}

pub data Call : Type 0 where
  create : String → ℕ → RoomRequest → Call
  post : Option Chat → String → String → String → String → Principal → ℕ → String → Call
  close : Option Chat → String → Option String → ℕ → Call
  warn : String → String → ℕ → String → Call
  bury : Option Chat → String → String → ℕ → Call
  switch : Option Chat → String → String → Option String → Option (Table String) → ℕ → String → Call
  uploads : Option Chat → String → Bool → ℕ → String → Call
  gate : Option Chat → String → Bool → ℕ → String → Call
  seat : Option Chat → String → String → Option String → ℕ → String → Call
  attach : String → String → ℕ → String → Call
  remind : String → Option String → ℕ → Call
  refresh : String → Option String → Option Principal → ℕ → Call
  stall : String → ℕ → Call
  remove : Option Chat → String → Call
  group : List String → Option String → Call
  register : Table Machine → Call

-- The hub after a call, whether it answers or rejects.
unfoldable pub run : Call → Hub → Hub
run (create id now q) h = (create_room id now q h).1
run (post seen room sender text kind principal now id) h =
    (post_message seen room sender text kind principal now id h).1
run (close seen room reason now) h = (close_room seen room reason now h).1
run (warn room text now id) h = (post_closing_nudge room text now id h).1
run (bury seen room message now) h = (delete_message seen room message now h).1
run (switch seen room mode topic sides now id) h =
    (switch_room_mode seen room mode topic sides now id h).1
run (uploads seen room allowed now id) h = (set_agent_uploads_allowed seen room allowed now id h).1
run (gate seen room required now id) h = (set_requires_owner_open seen room required now id h).1
run (seat seen room agent machine now id) h =
    (set_room_member_seat seen room agent machine now id h).1
run (attach room text now id) h = (post_attachment_system_message room text now id h).1
run (remind room agent now) h = maybe_ping_owner_room_not_opened room agent now h
run (refresh room agent principal now) h = maybe_refresh_working_marker room agent principal now h
run (stall room now) h = maybe_ping_owner_stalled_room room now h
run (remove seen room) h = (delete_room seen room h).1
run (group rooms label) h = (assign_group_to_rooms rooms label h).1
run (register machines) h = record h { machines = machines }

unfoldable pub run_all : List Call → Hub → Hub
unfolding run
run_all [] h = h
run_all (c ∷ cs) h = run_all cs (run c h)

-- A call that neither deletes the room nor gives its id, a fresh ULID, to another.
abbrev pub Spares : String → Call → Type 0
Spares room (create id now q) = id ≢ room
Spares room (remove seen id) = id ≢ room
Spares room other = Unit

abbrev pub AllSpare : String → List Call → Type 0
AllSpare room [] = Unit
AllSpare room (c ∷ cs) = Spares room c × AllSpare room cs
