-- ===== src/Rooms/Create.antt =====
-- app/rooms.py: `create_room`.
pub mod Sound
pub mod Seated
use brainard.Prelude.{
  ℕ, String, Bool, true, false, ◌&&◌, Option, none, some, List, [], ◌∷◌, map, leb, is_none,
  if◌then◌else◌, get_or_else,
}
use brainard.Prelude.Text.{strip, is_empty}
use brainard.Prelude.Table.{Table, insert}
use brainard.Errors.{Code, Result, ok, err, raise_if, ◌>>=◌, ◌>>◌}
use brainard.Model.{Room, RoomMember, Chat, Hub, Machine, opened}
use brainard.Modes.{validate_mode}
use brainard.Rooms.Queries.{is_consensus_gated}
use brainard.Rooms.Validate.{
  ℤ, pos, negsuc, validate_members, validate_max_messages, validate_consensus_floor,
  validate_stall_notify_secs, validate_topic, validate_group, validate_project,
  validate_seat_assignments, validate_sides, validate_deadline, get_value,
}

-- The parameters of `create_room`; `seats` is empty where `seat_machines` is None.
pub record RoomRequest : Type 0 where
  pub name : String
  pub members : List String
  pub max_messages : Option ℤ
  pub mode : String
  pub topic : Option String
  pub sides : Option (Table String)
  pub duration_seconds : Option ℤ
  pub expires_at : Option ℕ
  pub group : Option String
  pub consensus_floor : Option ℤ
  pub project : Option String
  pub seat_machines : Table (Option String)
  pub stall_notify_secs : Option ℤ

-- What the validators hand to the constructor of the rows.
pub record ValidRoom : Type 0 where
  pub members : List String
  pub max_messages : ℕ
  pub topic : Option String
  pub sides : Table (Option String)
  pub group : Option String
  pub project : Option String
  pub consensus_floor : ℕ
  pub stall_notify_secs : ℕ
  pub seats : Table (Option String)
  pub deadline : Option ℕ

unfoldable pub validate_room : Table Machine → ℕ → RoomRequest → Result ValidRoom
validate_room machines now q = do
  raise_if (is_empty (strip q.name)) 422 Code.invalid_room_name
  members ← validate_members q.members
  max ← validate_max_messages q.max_messages
  mode_def ← validate_mode q.mode
  topic ← validate_topic q.mode q.topic
  sides ← validate_sides mode_def members q.sides
  group ← validate_group q.group
  project ← validate_project q.project
  floor ← validate_consensus_floor q.consensus_floor
  stall ← validate_stall_notify_secs q.stall_notify_secs
  seats ← validate_seat_assignments machines members q.seat_machines
  raise_if (is_consensus_gated q.mode && leb max floor) 422 Code.consensus_floor_unreachable
  deadline ← validate_deadline now q.duration_seconds q.expires_at
  ok (record {
    members = members;
    max_messages = max;
    topic = topic;
    sides = sides;
    group = group;
    project = project;
    consensus_floor = floor;
    stall_notify_secs = stall;
    seats = seats;
    deadline = deadline;
  })

-- The seconds of a duration that `validate_deadline` has let through.
abbrev pub duration_of : Option ℤ → Option ℕ
duration_of none = none
duration_of (some (pos n)) = some n
duration_of (some (negsuc n)) = none

unfoldable pub new_room : ℕ → RoomRequest → ValidRoom → Room
new_room now q v = record {
  name = strip q.name;
  status = opened;
  max_messages = v.max_messages;
  message_count = 0;
  notify_on_close = true;
  agent_uploads_allowed = true;
  created_at = now;
  closed_at = none;
  close_reason = none;
  mode = q.mode;
  topic = v.topic;
  expires_at = if is_none q.duration_seconds then v.deadline else none;
  closing_warned_at = none;
  group_name = v.group;
  opened_at = none;
  requires_owner_open = true;
  pending_duration_seconds = duration_of q.duration_seconds;
  owner_open_reminder_sent_at = none;
  consensus_floor = v.consensus_floor;
  project = v.project;
  stall_notify_secs = v.stall_notify_secs;
  stall_notify_sent_at = none;
}

unfoldable pub new_member : ℕ → ValidRoom → String → RoomMember
unfolding get_value
new_member now v agent_name = record {
  agent_name = agent_name;
  created_at = now;
  side = get_value agent_name v.sides;
  bound_machine_id = get_value agent_name v.seats;
  working_until = none;
}

unfoldable pub new_chat : ℕ → RoomRequest → ValidRoom → Chat
unfolding new_room new_member
new_chat now q v = record {
  room = new_room now q v;
  members = map (new_member now v) v.members;
  messages = [];
  attachments = [];
}

unfoldable pub store_room : String → ℕ → RoomRequest → Hub → Result ValidRoom → Result Chat × Hub
store_room id now q hub (err e) = (err e, hub)
store_room id now q hub (ok v) =
    (ok (new_chat now q v), record hub { chats = insert id (new_chat now q v) hub.chats })

-- `create_room`, with the server's new ULID as `id`.
unfoldable pub create_room : String → ℕ → RoomRequest → Hub → Result Chat × Hub
create_room id now q hub = store_room id now q hub (validate_room hub.machines now q)
