-- ===== src/Rooms/Poll/Replies.antt =====
-- app/rooms.py, `poll_messages`: what one iteration reads and answers.
use brainard.Prelude.{
  ℕ, arith, String, Bool, true, false, not, ◌&&◌, ◌||◌, ◌≡◌, refl, sym, Option, none, some, ltb,
  keep, is_nil, Bool-cases, inl, inr, List,
}
use brainard.Prelude.Table.{lookup}
use brainard.Model.{Chat, Hub, is_open, RoomMessage, Room}
use brainard.Rooms.Reminder.{is_not_opened}
use brainard.Rooms.Poll.{
  Iteration, gone, replied, asleep, PollReply, PollView, poll_view, poll_found, poll_iteration,
  room_and_messages_since, messages_in, members_in,
}

-- The messages above `since` that the second statement of an iteration reads.
abbrev pub messages_since : String → ℕ → Hub → List RoomMessage
messages_since room_id since hub = keep (λ m. ltb since m.seq) (messages_in room_id hub)

abbrev viewed : Room → List RoomMessage → Bool → Option ℕ → Bool → PollView
viewed room messages partner activity member = record {
  room = room;
  messages = messages;
  partner_working = partner;
  last_activity = activity;
  agent_name_is_member = member;
}

-- The reply `r` of an iteration shows the room that its first statement reads and the messages above
-- `since` that its second one reads, and there is a reason not to wait.
pub record IsReply (room_id : String) (since : ℕ) (past_deadline : Bool) (at_room at_messages : Hub)
    (r : PollReply) : Type 0 where
  pub chat : Chat
  pub stored : lookup room_id at_room.chats ≡ some chat
  pub room : r.room ≡ chat.room
  pub messages : r.messages ≡ messages_since room_id since at_messages
  pub not_opened : r.not_opened ≡ (is_open chat.room && is_not_opened chat.room)
  pub reason :
      (r.not_opened || not (is_nil r.messages) || not (is_open chat.room) || past_deadline) ≡ true

-- An iteration that goes to sleep has no reason to answer.
pub record IsQuiet (room_id : String) (since : ℕ) (past_deadline : Bool) (at_room at_messages : Hub)
    : Type 0 where
  pub chat : Chat
  pub stored : lookup room_id at_room.chats ≡ some chat
  pub live : is_open chat.room ≡ true
  pub begun : is_not_opened chat.room ≡ false
  pub nothing_new : is_nil (messages_since room_id since at_messages) ≡ true
  pub early : past_deadline ≡ false

abbrev pub Replies : String → ℕ → Bool → Hub → Hub → Iteration → Type 0
Replies room_id since past_deadline at_room at_messages gone = lookup room_id at_room.chats ≡ none
Replies room_id since past_deadline at_room at_messages (replied r) =
    IsReply room_id since past_deadline at_room at_messages r
Replies room_id since past_deadline at_room at_messages asleep =
    IsQuiet room_id since past_deadline at_room at_messages

module _ (room_id : String) (since : ℕ) (agent_name : Option String) where
  view-Replies :
      (now : ℕ) (past : Bool) (at_room at_messages hub : Hub) (c : Chat) (partner member : Bool)
      (activity : Option ℕ)
      → lookup room_id at_room.chats ≡ some c
      → Replies room_id since past at_room at_messages
          (poll_view room_id agent_name now past hub
            (viewed c.room (messages_since room_id since at_messages) partner activity member)).0
  unfolding poll_view
  view-Replies now past at_room at_messages hub c partner member activity e =
      elim (Bool-cases (is_open c.room && is_not_opened c.room)) [
        | inl waits ↦ rw waits (record {
          chat = c;
          stored = e;
          room = refl;
          messages = refl;
          not_opened = sym waits;
          reason = refl;
        })
        | inr runs ↦
            elim (Bool-cases (
              not (is_nil (messages_since room_id since at_messages))
              || not (is_open c.room)
              || past)) [
                | inl wakes ↦ rw runs (
                    rw wakes (record {
                      chat = c;
                      stored = e;
                      room = refl;
                      messages = refl;
                      not_opened = sym runs;
                      reason = wakes;
                    }))
                | inr sleeps ↦ rw runs (
                    rw sleeps (record {
                      chat = c;
                      stored = e;
                      live = ground arith;
                      begun = ground arith;
                      nothing_new = ground arith;
                      early = ground arith;
                    }))
              ]
      ]

  pub iteration-Replies :
      (now : ℕ) (past : Bool) (others : ℕ → Hub → Hub) (hub : Hub)
      → Replies room_id since past
          (others 0 hub)
          (others 1 (others 0 hub))
          (poll_iteration room_id since agent_name now past others hub).0
  unfolding poll_iteration poll_found room_and_messages_since
  iteration-Replies now past others hub = found (lookup room_id (others 0 hub).chats) refl
    where
      found :
          (o : Option Chat)
          → lookup room_id (others 0 hub).chats ≡ o
          → Replies room_id since past
              (others 0 hub)
              (others 1 (others 0 hub))
              (poll_found room_id since agent_name now past others (others 0 hub) o).0
      found none e = e
      found (some c) e =
          let at_messages = others 1 (others 0 hub) in
          let at_members = others 2 at_messages in
          let at_latest = others 3 at_members in
          let v =
            room_and_messages_since since agent_name now c.room (messages_in room_id at_messages)
              (members_in room_id at_members) (messages_in room_id at_latest) in
          view-Replies now past (others 0 hub) at_messages (others 4 at_latest) c v.partner_working
            v.agent_name_is_member v.last_activity e
