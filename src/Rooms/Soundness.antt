-- ===== src/Rooms/Soundness.antt =====
-- app/rooms.py: the operations on the hub, and the well-formedness of every stored room.
use brainard.Prelude.{
  ℕ, String, Bool, true, false, ◌≡◌, refl, Option, none, some, arith, Bool-cases, Option-cases, inl,
  inr,
}
use brainard.Prelude.Table.{Table, lookup}
use brainard.Errors.{Result, ok, err, OnOk}
use brainard.Model.{Room, RoomMessage, Chat, Hub, Principal}
use brainard.Modes.{RoomMode}
use brainard.Rooms.Queries.{notify}
use brainard.Rooms.Invariant.{IsSound, announce-IsSound}
use brainard.Rooms.Isolation.{
  IsSoundHub, AllChats-insert, AllChats-same, with_room_lock-AllChats, with_existing_room-AllChats,
}
use brainard.Rooms.Create.{RoomRequest, ValidRoom, validate_room, new_chat, store_room, create_room}
use brainard.Rooms.Create.Sound.{IsValid, validate_room-IsValid, new_chat-IsSound}
use brainard.Rooms.Reminder.{remind_owner, is_reminder_due, maybe_ping_owner_room_not_opened}
use brainard.Rooms.Post.{
  Precheck, refused, parked, passed, post_committed, post_checked, post_locked, post_precheck,
  post_message,
}
use brainard.Rooms.Post.Keeps.{post_locked-IsSound}
use brainard.Rooms.Close.{
  is_valid_reason, close_committed, close_locked, close_room, nudge_stored, post_closing_nudge,
}
use brainard.Rooms.Switch.{switch_locked, switch_checked, validate_switch, switch_room_mode}
use brainard.Rooms.Attach.{post_attachment_system_message}
use brainard.Rooms.Keeps.{room-IsSound, close_locked-IsSound, nudge-IsSound, switch_locked-IsSound}

-- A room that the validators let through is stored well formed beside the others.
pub create_room-IsSoundHub :
    (id : String) (now : ℕ) (q : RoomRequest) (hub : Hub)
    → IsSoundHub hub
    → IsSoundHub (create_room id now q hub).1
unfolding create_room store_room
create_room-IsSoundHub id now q hub h =
    stored (validate_room hub.machines now q) (validate_room-IsValid hub.machines now q)
  where
    stored :
        (r : Result ValidRoom) → OnOk (IsValid now q) r → IsSoundHub (store_room id now q hub r).1
    stored (ok v) valid =
        AllChats-insert IsSound hub _ id (new_chat now q v) h (new_chat-IsSound now q v valid) refl
    stored (err e) valid = h

-- The write of a reminder changes nothing that the invariant reads.
remind_owner-IsSoundHub :
    (id : String) (agent : Option String) (now : ℕ) (hub : Hub) (c : Chat)
    → IsSoundHub hub
    → IsSound c
    → IsSoundHub (remind_owner id agent now hub c)
unfolding remind_owner
remind_owner-IsSoundHub id agent now hub c h sound = elim (Bool-cases (is_reminder_due c.room)) [
  | inl due ↦ rw due (
      AllChats-insert IsSound hub _ id _ h
        (room-IsSound c (record c.room { owner_open_reminder_sent_at = some now }) sound refl
          (ground arith))
        refl)
  | inr not_due ↦ rw not_due h
]

pub maybe_ping_owner_room_not_opened-IsSoundHub :
    (id : String) (agent : Option String) (now : ℕ) (hub : Hub)
    → IsSoundHub hub
    → IsSoundHub (maybe_ping_owner_room_not_opened id agent now hub)
unfolding maybe_ping_owner_room_not_opened
maybe_ping_owner_room_not_opened-IsSoundHub id agent now hub h =
    elim (Option-cases (lookup id hub.chats)) [
      | inl absent ↦ rw (absent, maybe_ping_owner_room_not_opened) h
      | inr (c, found) ↦
          rw (found, maybe_ping_owner_room_not_opened)
            (remind_owner-IsSoundHub id agent now hub c h (h.at id c found))
    ]

pub post_committed-chats :
    (id : String) (r : Result (RoomMessage × Option String)) (hub : Hub)
    → (post_committed id (r, hub)).1.chats ≡ hub.chats
unfolding post_committed notify
post_committed-chats id (err e) hub = refl
post_committed-chats id (ok (m, none)) hub = refl
post_committed-chats id (ok (m, some reason)) hub = refl

post_checked-IsSoundHub :
    (room_id sender text kind : String) (principal : Principal) (now : ℕ) (id : String) (hub : Hub)
    (p : Precheck)
    → IsSoundHub hub
    → IsSoundHub (post_checked room_id sender text kind principal now id hub p).1
unfolding post_checked
post_checked-IsSoundHub room_id sender text kind principal now id hub (refused e) h = h
post_checked-IsSoundHub room_id sender text kind principal now id hub (parked false) h = h
post_checked-IsSoundHub room_id sender text kind principal now id hub (parked true) h =
    maybe_ping_owner_room_not_opened-IsSoundHub room_id _ now hub h
post_checked-IsSoundHub room_id sender text kind principal now id hub passed h =
    AllChats-same IsSound _ _
      (with_room_lock-AllChats IsSound (post_locked _ _ kind now principal id) room_id hub
        (λ c _ sound. post_locked-IsSound _ _ kind now principal id c sound) h)
      (post_committed-chats room_id _ _)

-- Whatever the unlocked reads saw, a post keeps every room well formed.
pub post_message-IsSoundHub :
    (seen : Option Chat) (room_id sender text kind : String) (principal : Principal) (now : ℕ)
    (id : String) (hub : Hub)
    → IsSoundHub hub
    → IsSoundHub (post_message seen room_id sender text kind principal now id hub).1
unfolding post_message
post_message-IsSoundHub seen room_id sender text kind principal now id hub h =
    post_checked-IsSoundHub room_id sender text kind principal now id hub
      (post_precheck seen sender text kind principal) h

pub close_committed-chats :
    (id : String) (r : Result (Bool × Room)) (hub : Hub)
    → (close_committed id (r, hub)).1.chats ≡ hub.chats
unfolding close_committed notify
close_committed-chats id (err e) hub = refl
close_committed-chats id (ok (false, r)) hub = refl
close_committed-chats id (ok (true, r)) hub = refl

pub close_room-IsSoundHub :
    (seen : Option Chat) (id : String) (reason : Option String) (now : ℕ) (hub : Hub)
    → IsSoundHub hub
    → IsSoundHub (close_room seen id reason now hub).1
unfolding close_room
close_room-IsSoundHub seen id reason now hub h = elim (Bool-cases (is_valid_reason reason)) [
  | inl valid ↦ rw valid (
      AllChats-same IsSound _ _
        (with_existing_room-AllChats IsSound (close_locked reason now) seen id hub
          (λ c _ sound. close_locked-IsSound reason now c sound) h)
        (close_committed-chats id _ _))
  | inr bad ↦ rw bad h
]

pub post_closing_nudge-IsSoundHub :
    (room_id text : String) (now : ℕ) (id : String) (hub : Hub)
    → IsSoundHub hub
    → IsSoundHub (post_closing_nudge room_id text now id hub).1
unfolding post_closing_nudge nudge_stored
post_closing_nudge-IsSoundHub room_id text now id hub h =
    elim (Option-cases (lookup room_id hub.chats)) [
      | inl absent ↦ rw (absent, post_closing_nudge) h
      | inr (c, found) ↦
          rw (found, post_closing_nudge)
            (AllChats-insert IsSound hub _ room_id _ h
              (nudge-IsSound text now id c (h.at room_id c found)) refl)
    ]

pub post_attachment_system_message-IsSoundHub :
    (room_id text : String) (now : ℕ) (id : String) (hub : Hub)
    → IsSoundHub hub
    → IsSoundHub (post_attachment_system_message room_id text now id hub).1
unfolding post_attachment_system_message
post_attachment_system_message-IsSoundHub room_id text now id hub h =
    elim (Option-cases (lookup room_id hub.chats)) [
      | inl absent ↦ rw (absent, post_attachment_system_message) h
      | inr (c, found) ↦
          rw (found, post_attachment_system_message)
            (AllChats-insert IsSound hub _ room_id _ h
              (announce-IsSound c text now id (h.at room_id c found)) refl)
    ]

pub switch_room_mode-IsSoundHub :
    (seen : Option Chat) (room_id mode : String) (topic : Option String)
    (sides : Option (Table String)) (now : ℕ) (id : String) (hub : Hub)
    → IsSoundHub hub
    → IsSoundHub (switch_room_mode seen room_id mode topic sides now id hub).1
unfolding switch_room_mode switch_checked
switch_room_mode-IsSoundHub seen room_id mode topic sides now id hub h =
    checked (validate_switch mode topic)
  where
    checked :
        (r : Result (RoomMode × Option String))
        → IsSoundHub (switch_checked seen room_id mode sides now id hub r).1
    checked (err e) = h
    checked (ok (d, cleaned)) =
        with_existing_room-AllChats IsSound (switch_locked d mode cleaned sides now id) seen room_id
          hub (λ c _ sound. switch_locked-IsSound d mode cleaned sides now id c sound) h
