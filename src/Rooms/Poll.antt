-- ===== src/Rooms/Poll.antt =====
-- app/rooms.py: the long-poll, the working leases and the stall alarm.
pub mod Replies
pub mod Answers
pub mod Ends
use brainard.Prelude.{
  ℕ, zero, suc, ◌+◌, ◌-◌, max, min, String, Bool, true, false, not, ◌&&◌, ◌||◌, Option, none, some,
  List, [], ◌∷◌, ◌==◌, if◌then◌else◌, ltb, leb, any, keep, is_nil, is_none, is_some,
}
use brainard.Prelude.Table.{lookup, insert}
use brainard.Errors.{Code, Result, ok, raise}
use brainard.Model.{
  Room, RoomMember, RoomMessage, Chat, Hub, Notice, Principal, owner, machine, is_open, seconds,
}
use brainard.Rooms.Queries.{notify}
use brainard.Rooms.Seats.{find_member}
use brainard.Rooms.Reminder.{is_not_opened, maybe_ping_owner_room_not_opened}

abbrev pub max_wait_secs : ℕ
max_wait_secs = 120

abbrev pub working_lease_secs : ℕ
working_lease_secs = 180

-- `_member_is_working`: the lease has not expired.
unfoldable pub member_is_working : ℕ → RoomMember → Bool
member_is_working now m = elim m.working_until [ none ↦ false | some t ↦ ltb now t ]

-- The later of two instants that may be missing.
abbrev pub latest : Option ℕ → Option ℕ → Option ℕ
latest none b = b
latest (some a) none = some a
latest (some a) (some b) = some (max a b)

unfoldable pub last_message_at : List RoomMessage → Option ℕ
last_message_at [] = none
last_message_at (m ∷ ms) = latest (some m.created_at) (last_message_at ms)

-- A member's most recent poll, for a seat that is bound.
unfoldable pub bound_poll_at : RoomMember → Option ℕ
bound_poll_at m = elim m.working_until [
  | none ↦ none
  | some t ↦ if is_some m.bound_machine_id then some (t - seconds working_lease_secs) else none
]

unfoldable pub last_poll_at : List RoomMember → Option ℕ
unfolding bound_poll_at
last_poll_at [] = none
last_poll_at (m ∷ ms) = latest (bound_poll_at m) (last_poll_at ms)

-- `_last_activity_at`
unfoldable pub last_activity_at : Option ℕ → List RoomMember → Option ℕ
unfolding last_poll_at
last_activity_at message members = latest message (last_poll_at members)

-- A seat that is open, or bound to this machine.
unfoldable pub may_refresh : String → RoomMember → Bool
may_refresh id m = elim m.bound_machine_id [ none ↦ true | some bound ↦ bound == id ]

unfoldable pub refresh_member : String → String → ℕ → List RoomMember → List RoomMember
unfolding may_refresh
refresh_member name id now [] = []
refresh_member name id now (m ∷ ms) =
    if m.agent_name == name
    then (if may_refresh id m
        then record m { working_until = some (now + seconds working_lease_secs) }
        else m)
      ∷ ms
    else m ∷ refresh_member name id now ms

unfoldable pub refresh_in : String → String → String → ℕ → Hub → Option Chat → Hub
refresh_in room_id name id now hub none = hub
refresh_in room_id name id now hub (some c) = record hub {
  chats = insert room_id (record c { members = refresh_member name id now c.members }) hub.chats;
}

-- `_maybe_refresh_working_marker`: an agent marks itself alone, and never an error.
unfoldable pub maybe_refresh_working_marker :
    String → Option String → Option Principal → ℕ → Hub → Hub
maybe_refresh_working_marker room_id none principal now hub = hub
maybe_refresh_working_marker room_id (some name) none now hub = hub
maybe_refresh_working_marker room_id (some name) (some owner) now hub = hub
maybe_refresh_working_marker room_id (some name) (some (machine id)) now hub =
    refresh_in room_id name id now hub (lookup room_id hub.chats)

-- What one iteration of a poll reads.
pub record PollView : Type 0 where
  pub room : Room
  pub messages : List RoomMessage
  pub partner_working : Bool
  pub last_activity : Option ℕ
  pub agent_name_is_member : Bool

abbrev is_other : Option String → RoomMember → Bool
is_other none m = true
is_other (some name) m = not (m.agent_name == name)

abbrev is_member_name : Option String → List RoomMember → Bool
is_member_name none ms = false
is_member_name (some name) ms = any (λ m. m.agent_name == name) ms

-- The rows that a query by the room's id finds.
abbrev pub messages_in : String → Hub → List RoomMessage
messages_in room_id hub = elim (lookup room_id hub.chats) [ none ↦ [] | some c ↦ c.messages ]

abbrev pub members_in : String → Hub → List RoomMember
members_in room_id hub = elim (lookup room_id hub.chats) [ none ↦ [] | some c ↦ c.members ]

-- What `_room_and_messages_since` makes of the rows that its four statements read: the room, the
-- messages, the members, and the messages again for the latest instant.
unfoldable pub room_and_messages_since :
    ℕ → Option String → ℕ → Room → List RoomMessage → List RoomMember → List RoomMessage → PollView
unfolding member_is_working last_activity_at last_message_at
room_and_messages_since since agent_name now room messages members latest_messages = record {
  room = room;
  messages = keep (λ m. ltb since m.seq) messages;
  partner_working = any (member_is_working now) (keep (is_other agent_name) members);
  last_activity = last_activity_at (last_message_at latest_messages) members;
  agent_name_is_member = is_member_name agent_name members;
}

-- `elapsed >= stall_notify_secs` since the last activity; false where there was none.
unfoldable pub is_silent : ℕ → Room → Option ℕ → Bool
is_silent now r none = false
is_silent now r (some t) = leb (t + seconds r.stall_notify_secs) now

unfoldable pub is_stall_due : ℕ → Room → Option ℕ → Bool
unfolding is_silent
is_stall_due now r activity =
    is_some r.opened_at && is_none r.stall_notify_sent_at && is_silent now r activity

unfoldable pub alarm : String → ℕ → Hub → Option Chat → Hub
unfolding is_stall_due notify
alarm room_id now hub none = hub
alarm room_id now hub (some c) =
    if is_open c.room
      && is_stall_due now c.room (last_activity_at (last_message_at c.messages) c.members)
    then notify (Notice.room_stalled room_id) (record hub {
      chats =
          insert room_id (record c { room = record c.room { stall_notify_sent_at = some now } })
            hub.chats;
    })
    else hub

-- `_maybe_ping_owner_stalled_room`: the check again under the lock, and one alarm for a room.
unfoldable pub maybe_ping_owner_stalled_room : String → ℕ → Hub → Hub
unfolding alarm
maybe_ping_owner_stalled_room room_id now hub = alarm room_id now hub (lookup room_id hub.chats)

-- A poll's answer; `not_opened` stands for the notice that the owner has not opened the room.
pub record PollReply : Type 0 where
  pub room : Room
  pub messages : List RoomMessage
  pub not_opened : Bool
  pub partner_working : Bool

pub data Iteration : Type 0 where
  gone : Iteration
  replied : PollReply → Iteration
  asleep : Iteration

abbrev reply : PollView → Bool → PollReply
reply v not_opened = record {
  room = v.room;
  messages = v.messages;
  not_opened = not_opened;
  partner_working = v.partner_working;
}

-- One iteration over what it read: the answer or a sleep, and the pings.
unfoldable pub poll_view : String → Option String → ℕ → Bool → Hub → PollView → Iteration × Hub
unfolding is_stall_due
poll_view room_id agent_name now past_deadline hub v =
    if is_open v.room && is_not_opened v.room
    then (
      replied (reply v true),
      maybe_ping_owner_room_not_opened room_id (if v.agent_name_is_member then agent_name else none)
          now hub,
    )
    else (
      if not (is_nil v.messages) || not (is_open v.room) || past_deadline
          then replied (reply v false)
          else asleep,
      if is_stall_due now v.room v.last_activity
          then maybe_ping_owner_stalled_room room_id now hub
          else hub,
    )

-- The rest of an iteration, from the hub in which the room's row was read.
unfoldable pub poll_found :
    String → ℕ → Option String → ℕ → Bool → (ℕ → Hub → Hub) → Hub → Option Chat → Iteration × Hub
unfolding poll_view room_and_messages_since
poll_found room_id since agent_name now past_deadline others at_room none = (gone, at_room)
poll_found room_id since agent_name now past_deadline others at_room (some c) =
    let at_messages = others 1 at_room in
    let at_members = others 2 at_messages in
    let at_latest = others 3 at_members in
    poll_view room_id agent_name now past_deadline (others 4 at_latest) (
      room_and_messages_since since agent_name now c.room (messages_in room_id at_messages)
        (members_in room_id at_members) (messages_in room_id at_latest))

-- One iteration. `others k` is what other requests commit before its statement `k`: the room's, the
-- messages', the members', that of the latest message, and the first one of a ping.
unfoldable pub poll_iteration :
    String → ℕ → Option String → ℕ → Bool → (ℕ → Hub → Hub) → Hub → Iteration × Hub
unfolding poll_found
poll_iteration room_id since agent_name now past_deadline others hub =
    poll_found room_id since agent_name now past_deadline others (others 0 hub)
      (lookup room_id (others 0 hub).chats)

-- The world of a poll: the wall clock and the monotonic clock (in seconds) at each iteration, and
-- what the other requests commit before each of its statements.
pub record World : Type 0 where
  pub now : ℕ → ℕ
  pub monotonic : ℕ → ℕ
  pub others : ℕ → ℕ → Hub → Hub

-- The loop from iteration `i` on; `none` means that the rounds ran out.
unfoldable pub poll_loop :
    World → String → ℕ → Option String → ℕ → ℕ → ℕ → Hub → Option (Result PollReply × Hub)
poll_loop w room_id since agent_name deadline zero i hub = none
poll_loop w room_id since agent_name deadline (suc rounds) i hub =
    let (it, hub') =
      poll_iteration room_id since agent_name (w.now i) (leb deadline (w.monotonic i)) (w.others i)
        hub in
    elim it [
      | gone ↦ some (raise 404 Code.room_not_found, hub')
      | replied r ↦ some (ok r, hub')
      | asleep ↦ poll_loop w room_id since agent_name deadline rounds (suc i) hub'
    ]

-- `poll_messages`; the deadline is set before the first iteration.
unfoldable pub poll_messages :
    World
    → ℕ
    → String
    → ℕ
    → ℕ
    → Option String
    → Option Principal
    → ℕ
    → Hub
    → Option (Result PollReply × Hub)
poll_messages w rounds room_id since wait agent_name principal start hub =
    poll_loop w room_id since agent_name (start + min wait max_wait_secs) rounds 0
      (maybe_refresh_working_marker room_id agent_name principal (w.now 0) hub)
