-- ===== src/Trace/Calls.antt =====
-- app/rooms.py: the calls on the hub, seen from one room.
use brainard.Prelude.{
  ℕ, String, true, false, ◌≡◌, ◌≢◌, refl, inl, inr, Option, some, arith, ==-ne, Bool-cases,
  Option-cases,
}
use brainard.Prelude.Table.{Table, lookup, lookup-insert}
use brainard.Errors.{Result, ok, err}
use brainard.Model.{Chat, Hub, Principal}
use brainard.Modes.{RoomMode}
use brainard.Rooms.Isolation.{IsSoundHub}
use brainard.Rooms.Create.{RoomRequest, ValidRoom, validate_room, store_room, create_room}
use brainard.Rooms.Reminder.{remind_owner, is_reminder_due, maybe_ping_owner_room_not_opened}
use brainard.Rooms.Post.{Precheck, refused, parked, passed, post_checked, post_locked, post_message}
use brainard.Rooms.Close.{
  is_valid_reason, close_locked, close_room, nudge_stored, post_closing_nudge,
}
use brainard.Rooms.Switch.{switch_locked, switch_checked, validate_switch, switch_room_mode}
use brainard.Rooms.Attach.{post_attachment_system_message}
use brainard.Rooms.Soundness.{post_committed-chats, close_committed-chats}
use brainard.Rooms.Evolution.{row-Evolves, announce-Evolves}
use brainard.Rooms.Evolves.{
  post_locked-Evolves, close_locked-Evolves, nudge-Evolves, switch_locked-Evolves,
}
use brainard.Trace.Moves.{
  Moves, Moves-same, Moves-other, Moves-insert, Moves-lock, Moves-existing, Moves-then_same,
}

module _ (j : String) where
  pub create_room-Moves :
      (id : String) (now : ℕ) (q : RoomRequest) (h : Hub)
      → id ≢ j
      → Moves j h (create_room id now q h).1
  unfolding create_room store_room
  create_room-Moves id now q h other = stored (validate_room h.machines now q)
    where
      stored : (r : Result ValidRoom) → Moves j h (store_room id now q h r).1
      stored (ok v) = Moves-other j h _ (rw (lookup-insert, ==-ne id j other))
      stored (err e) = Moves-same j h h refl

  remind_owner-Moves :
      (id : String) (agent : Option String) (now : ℕ) (h : Hub) (c : Chat)
      → lookup id h.chats ≡ some c
      → Moves j h (remind_owner id agent now h c)
  unfolding remind_owner
  remind_owner-Moves id agent now h c e = elim (Bool-cases (is_reminder_due c.room)) [
    | inl due ↦ rw due (
        Moves-insert j h _ id c _ e
          (row-Evolves c (record c.room { owner_open_reminder_sent_at = some now }) (ground arith))
          refl)
    | inr not_due ↦ rw not_due (Moves-same j h h refl)
  ]

  pub maybe_ping_owner_room_not_opened-Moves :
      (id : String) (agent : Option String) (now : ℕ) (h : Hub)
      → Moves j h (maybe_ping_owner_room_not_opened id agent now h)
  unfolding maybe_ping_owner_room_not_opened
  maybe_ping_owner_room_not_opened-Moves id agent now h = elim (Option-cases (lookup id h.chats)) [
    | inl absent ↦ rw (absent, maybe_ping_owner_room_not_opened) (Moves-same j h h refl)
    | inr (c, found) ↦
        rw (found, maybe_ping_owner_room_not_opened) (remind_owner-Moves id agent now h c found)
  ]

  post_checked-Moves :
      (room_id sender text kind : String) (principal : Principal) (now : ℕ) (id : String) (h : Hub)
      (p : Precheck)
      → IsSoundHub h
      → Moves j h (post_checked room_id sender text kind principal now id h p).1
  unfolding post_checked
  post_checked-Moves room_id sender text kind principal now id h (refused e) s =
      Moves-same j h h refl
  post_checked-Moves room_id sender text kind principal now id h (parked false) s =
      Moves-same j h h refl
  post_checked-Moves room_id sender text kind principal now id h (parked true) s =
      maybe_ping_owner_room_not_opened-Moves room_id _ now h
  post_checked-Moves room_id sender text kind principal now id h passed s =
      Moves-then_same j h _ _
        (Moves-lock j (post_locked _ _ kind now principal id) room_id h
          (λ c e. post_locked-Evolves _ _ kind now principal id c (s.at room_id c e).transcript))
        (post_committed-chats room_id _ _)

  pub post_message-Moves :
      (seen : Option Chat) (room_id sender text kind : String) (principal : Principal) (now : ℕ)
      (id : String) (h : Hub)
      → IsSoundHub h
      → Moves j h (post_message seen room_id sender text kind principal now id h).1
  unfolding post_message
  post_message-Moves seen room_id sender text kind principal now id h s =
      post_checked-Moves room_id sender text kind principal now id h _ s

  pub close_room-Moves :
      (seen : Option Chat) (id : String) (reason : Option String) (now : ℕ) (h : Hub)
      → Moves j h (close_room seen id reason now h).1
  unfolding close_room
  close_room-Moves seen id reason now h = elim (Bool-cases (is_valid_reason reason)) [
    | inl valid ↦ rw valid (
        Moves-then_same j h _ _
          (Moves-existing j (close_locked reason now) seen id h
            (λ c _. close_locked-Evolves reason now c))
          (close_committed-chats id _ _))
    | inr bad ↦ rw bad (Moves-same j h h refl)
  ]

  pub post_closing_nudge-Moves :
      (room_id text : String) (now : ℕ) (id : String) (h : Hub)
      → Moves j h (post_closing_nudge room_id text now id h).1
  unfolding post_closing_nudge nudge_stored
  post_closing_nudge-Moves room_id text now id h = elim (Option-cases (lookup room_id h.chats)) [
    | inl absent ↦ rw (absent, post_closing_nudge) (Moves-same j h h refl)
    | inr (c, found) ↦
        rw (found, post_closing_nudge)
          (Moves-insert j h _ room_id c _ found (nudge-Evolves text now id c) refl)
  ]

  pub post_attachment_system_message-Moves :
      (room_id text : String) (now : ℕ) (id : String) (h : Hub)
      → Moves j h (post_attachment_system_message room_id text now id h).1
  unfolding post_attachment_system_message
  post_attachment_system_message-Moves room_id text now id h =
      elim (Option-cases (lookup room_id h.chats)) [
        | inl absent ↦ rw (absent, post_attachment_system_message) (Moves-same j h h refl)
        | inr (c, found) ↦
            rw (found, post_attachment_system_message)
              (Moves-insert j h _ room_id c _ found (announce-Evolves c text now id) refl)
      ]

  pub switch_room_mode-Moves :
      (seen : Option Chat) (room_id mode : String) (topic : Option String)
      (sides : Option (Table String)) (now : ℕ) (id : String) (h : Hub)
      → Moves j h (switch_room_mode seen room_id mode topic sides now id h).1
  unfolding switch_room_mode switch_checked
  switch_room_mode-Moves seen room_id mode topic sides now id h =
      checked (validate_switch mode topic)
    where
      checked :
          (r : Result (RoomMode × Option String))
          → Moves j h (switch_checked seen room_id mode sides now id h r).1
      checked (err e) = Moves-same j h h refl
      checked (ok (d, cleaned)) =
          Moves-existing j (switch_locked d mode cleaned sides now id) seen room_id h
            λ c _. switch_locked-Evolves d mode cleaned sides now id c
