-- ===== src/Model.antt =====
-- app/models.py and app/auth.py: the rows of a chat room, machines, and who makes a request.
-- A row's primary key is the key of its table. Every query of rooms.py on members, messages or
-- attachments selects one `room_id`, so these rows are kept under their room. Instants are
-- microseconds since the epoch.
use brainard.Prelude.{ℕ, ◌*◌, String, Bool, true, false, Option, List}
use brainard.Prelude.Table.{Table}

-- `timedelta(seconds=n)`
abbrev pub seconds : ℕ → ℕ
seconds n = n * 1_000_000

pub data Status : Type 0 where
  opened closed : Status

pub record Room : Type 0 where
  pub name : String
  pub status : Status
  pub max_messages : ℕ
  pub message_count : ℕ
  pub notify_on_close : Bool
  pub agent_uploads_allowed : Bool
  pub created_at : ℕ
  pub closed_at : Option ℕ
  pub close_reason : Option String
  pub mode : String
  pub topic : Option String
  pub expires_at : Option ℕ
  pub closing_warned_at : Option ℕ
  pub group_name : Option String
  pub opened_at : Option ℕ
  pub requires_owner_open : Bool
  pub pending_duration_seconds : Option ℕ
  pub owner_open_reminder_sent_at : Option ℕ
  pub consensus_floor : ℕ
  pub project : Option String
  pub stall_notify_secs : ℕ
  pub stall_notify_sent_at : Option ℕ

pub record RoomMember : Type 0 where
  pub agent_name : String
  pub created_at : ℕ
  pub side : Option String
  pub bound_machine_id : Option String
  pub working_until : Option ℕ

pub record RoomMessage : Type 0 where
  pub id : String
  pub seq : ℕ
  pub sender : String
  pub text : String
  pub kind : String
  pub created_at : ℕ
  pub deleted_at : Option ℕ

-- `blob_sha256` is the content hash of the file.
pub record RoomAttachment : Type 0 where
  pub id : String
  pub blob_sha256 : String
  pub filename : String
  pub uploaded_by : String
  pub created_at : ℕ

-- A room's row with the rows that refer to it, in the order of their insertion.
pub record Chat : Type 0 where
  pub room : Room
  pub open room use *
  pub members : List RoomMember
  pub messages : List RoomMessage
  pub attachments : List RoomAttachment

pub record Machine : Type 0 where
  pub name : String
  pub token_hash : String
  pub last_seen : Option ℕ
  pub status : String
  pub role : String
  pub default_project : Option String

-- Who a bearer token authenticates: the owner, or the machine with an id.
pub data Principal : Type 0 where
  owner : Principal
  machine : String → Principal

-- The calls of app/notify.py that reach the owner.
pub data Notice : Type 0 where
  room_closed : String → Option String → Notice
  owner_open_pending : String → Option String → Notice
  room_stalled : String → Notice

pub record Hub : Type 0 where
  pub chats : Table Chat
  pub machines : Table Machine
  pub outbox : List Notice

abbrev pub is_open : Room → Bool
is_open r = elim r.status [ opened ↦ true | closed ↦ false ]

-- `principal.kind == "owner"`
abbrev pub is_owner : Principal → Bool
is_owner owner = true
is_owner (machine id) = false
