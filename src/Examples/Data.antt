-- ===== src/Examples/Data.antt =====
-- A debate between two agents in session, a room that waits for its owner, and hubs of them.
use brainard.Prelude.{ℕ, String, true, false, refl, Option, none, some, [], ◌∷◌}
use brainard.Prelude.Table.{Table, lookup, insert}
use brainard.Model.{Room, RoomMember, RoomMessage, Chat, Hub, Machine, seconds, opened}
use brainard.Rooms.Queries.{get_members, is_consensus_gated}
use brainard.Rooms.Invariant.{IsSound}
use brainard.Rooms.Isolation.{IsSoundHub, AllChats-insert}

abbrev pub member : String → Option String → RoomMember
member name machine_id = record {
  agent_name = name;
  created_at = 0;
  side = none;
  bound_machine_id = machine_id;
  working_until = none;
}

abbrev pub objection : String → ℕ → String → RoomMessage
objection id seq sender = record {
  id = id;
  seq = seq;
  sender = sender;
  text = "I still disagree on one point.";
  kind = "objection";
  created_at = seconds seq;
  deleted_at = none;
}

abbrev pub debate_room : Room
debate_room = record {
  name = "Tabs or spaces";
  status = opened;
  max_messages = 10;
  message_count = 2;
  notify_on_close = true;
  agent_uploads_allowed = true;
  created_at = 0;
  closed_at = none;
  close_reason = none;
  mode = "debate";
  topic = some "Tabs are better than spaces";
  expires_at = some (seconds 600);
  closing_warned_at = none;
  group_name = none;
  opened_at = none;
  requires_owner_open = false;
  pending_duration_seconds = none;
  owner_open_reminder_sent_at = none;
  consensus_floor = 2;
  project = none;
  stall_notify_secs = 1200;
  stall_notify_sent_at = none;
}

-- Both agents have objected; the seat of "ada" belongs to machine "m1".
abbrev pub debate : Chat
debate = record {
  room = debate_room;
  members = member "ada" (some "m1") ∷ member "bob" none ∷ [];
  messages = objection "a" 1 "ada" ∷ objection "b" 2 "bob" ∷ [];
  attachments = [];
}

-- The owner has not opened this one, which has ten minutes to run from then on.
abbrev pub waiting : Chat
waiting = record {
  room = record debate_room {
    message_count = 0;
    expires_at = none;
    requires_owner_open = true;
    pending_duration_seconds = some 600;
  };
  members = member "ada" none ∷ member "bob" none ∷ [];
  messages = [];
  attachments = [];
}

abbrev pub machines : Table Machine
machines =
    (
      "m1",
      record {
        name = "laptop";
        token_hash = "h1";
        last_seen = none;
        status = "active";
        role = "agent";
        default_project = none;
      },
    )
    ∷ []

abbrev pub empty_hub : Hub
empty_hub = record { chats = []; machines = machines; outbox = [] }

abbrev pub hub : Hub
hub = record { chats = ("r1", debate) ∷ ("r2", waiting) ∷ []; machines = machines; outbox = [] }

pub debate-IsSound : IsSound debate
unfolding is_consensus_gated get_members
debate-IsSound = record {
  transcript = record { numbered = (refl, (refl, tt)); counted = refl };
  row = record {
    closed_instant = refl;
    closed_reason = refl;
    opened = refl;
    timer = refl;
    floor = refl;
  };
  agents = refl;
}

pub waiting-IsSound : IsSound waiting
unfolding is_consensus_gated get_members
waiting-IsSound = record {
  transcript = record { numbered = tt; counted = refl };
  row = record {
    closed_instant = refl;
    closed_reason = refl;
    opened = refl;
    timer = refl;
    floor = refl;
  };
  agents = refl;
}

empty_hub-IsSoundHub : IsSoundHub empty_hub
unfolding lookup
empty_hub-IsSoundHub = record { at = λ id c e. cc }

pub hub-IsSoundHub : IsSoundHub hub
unfolding insert
hub-IsSoundHub =
    AllChats-insert IsSound (record empty_hub { chats = ("r1", debate) ∷ [] }) hub "r2" waiting
      (AllChats-insert IsSound empty_hub (record empty_hub { chats = ("r1", debate) ∷ [] }) "r1"
        debate empty_hub-IsSoundHub debate-IsSound refl)
      waiting-IsSound refl
