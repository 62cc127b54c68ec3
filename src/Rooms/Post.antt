-- ===== src/Rooms/Post.antt =====
-- app/rooms.py: `post_message` with its gates, and the owner's ping while a room is not opened.
pub mod Opening
pub mod Insert
pub mod Agreed
pub mod Access
pub mod Outcome
pub mod Keeps
pub mod Waiting
pub mod Exclusive
use Prim.Native.String.{len}
use brainard.Prelude.{
  ℕ, zero, suc, ◌+◌, ◌-◌, ◌*◌, String, Bool, true, false, not, ◌&&◌, ◌||◌, Option, none, some, List,
  [], ◌∷◌, map, ◌==◌, ltb, leb, if◌then◌else◌, any, contains, keep, is_none, is_some, eqb, is_nil,
}
use brainard.Prelude.Text.{strip, is_empty}
use brainard.Prelude.Table.{lookup, insert}
use brainard.Errors.{Code, ApiError, Result, ok, err, raise, raise_if, ◌>>=◌, ◌>>◌}
use brainard.Model.{
  Room, RoomMessage, Chat, Hub, Notice, Principal, is_open, is_owner, seconds, closed,
}
use brainard.Rooms.Queries.{
  get_members, is_consensus_gated, next_seq, has_seq, add_message, with_room_lock, notify,
}
use brainard.Rooms.Seats.{check_and_bind_seat}
use brainard.Rooms.Consensus.{check_close_as_agreed_gate}
use brainard.Rooms.Reminder.{is_not_opened, maybe_ping_owner_room_not_opened}

abbrev pub max_text_bytes : ℕ
max_text_bytes = 32 * 1024

-- `kind in VALID_POST_KINDS`
abbrev pub is_valid_post_kind : String → Bool
is_valid_post_kind kind = kind == "message" || kind == "done" || kind == "objection"

-- A deferred duration becomes a deadline when the room opens.
unfoldable pub start_timer : ℕ → Room → Room
start_timer now r = elim r.pending_duration_seconds [
  | none ↦ r
  | some n ↦ record r { expires_at = some (now + seconds n); pending_duration_seconds = none }
]

-- The owner's first message opens the room.
unfoldable pub open_by_owner : String → ℕ → Room → Room
unfolding start_timer
open_by_owner sender now r =
    if sender == "owner" && is_none r.opened_at
    then start_timer now (record r { opened_at = some now })
    else r

-- `close_reason` after the message counts: the done signal, or else the cap.
unfoldable pub guardrail : String → Room → Option String
guardrail kind r =
    if kind == "done"
    then some "done"
    else if leb r.max_messages r.message_count
    then some "cap"
    else none

unfoldable pub close_if : Option String → ℕ → Room → Room
close_if none now r = r
close_if (some reason) now r = record r {
  status = closed;
  closed_at = some now;
  close_reason = some reason;
}

unfoldable pub close_by_guardrail : String → ℕ → Chat → Chat
unfolding guardrail close_if
close_by_guardrail kind now c = record c { room = close_if (guardrail kind c.room) now c.room }

unfoldable pub posted : String → String → String → ℕ → String → Chat → RoomMessage
unfolding next_seq
posted sender text kind now id c = record {
  id = id;
  seq = next_seq c;
  sender = sender;
  text = text;
  kind = kind;
  created_at = now;
  deleted_at = none;
}

-- The insert, the count and the guardrail, on a room whose seat is checked; `none` is an
-- IntegrityError of the unique index.
unfoldable pub insert_opened :
    String → String → String → ℕ → String → Chat → Option ((RoomMessage × Option String) × Chat)
insert_opened sender text kind now id c =
    let m = posted sender text kind now id c in
    let after = add_message c m in
    if has_seq m.seq c.messages
    then none
    else some ((m, guardrail kind after.room), close_by_guardrail kind now after)

-- `_insert_message_and_maybe_close`
unfoldable pub insert_message_and_maybe_close :
    String
    → String
    → String
    → ℕ
    → Principal
    → String
    → Chat
    → Result (Option ((RoomMessage × Option String) × Chat))
insert_message_and_maybe_close sender text kind now principal id c = do
  bound ← check_and_bind_seat c sender principal
  ok (
      insert_opened sender text kind now id
        (record bound { room = open_by_owner sender now bound.room }))

-- The retry loop, with the number of attempts left; every attempt begins at the room that the first
-- one found. In the code a collision ends the row lock, and the next attempt reads the room again;
-- where the messages are well counted, no attempt collides.
unfoldable pub insert_attempts :
    ℕ
    → Result (Option ((RoomMessage × Option String) × Chat))
    → Result ((RoomMessage × Option String) × Chat)
insert_attempts zero attempt = raise 503 Code.room_message_conflict_retry
insert_attempts (suc n) (err e) = err e
insert_attempts (suc n) (ok none) = insert_attempts n (ok none)
insert_attempts (suc n) (ok (some done)) = ok done

abbrev pub max_insert_attempts : ℕ
max_insert_attempts = 3

-- `post_message` from the row lock to the commit.
unfoldable pub post_locked :
    String
    → String
    → String
    → ℕ
    → Principal
    → String
    → Chat
    → Result ((RoomMessage × Option String) × Chat)
post_locked sender text kind now principal id c = do
  raise_if (not (is_open c.room)) 409 Code.room_closed
  check_close_as_agreed_gate c sender kind
  insert_attempts max_insert_attempts
      (insert_message_and_maybe_close sender text kind now principal id c)

-- What `post_message` decides before it takes the lock. `parked` is the owner-open gate, with
-- whether the sender is a member.
pub data Precheck : Type 0 where
  refused : ApiError → Precheck
  parked : Bool → Precheck
  passed : Precheck

unfoldable pub precheck_sender : Chat → String → Principal → Precheck
unfolding get_members
precheck_sender c sender principal =
    if sender == "owner" && not (is_owner principal)
    then refused (record { status_code = 403; code = Code.owner_sender_requires_owner_token })
    else if not (sender == "owner") && is_not_opened c.room
    then parked (contains sender (get_members c))
    else if not (sender == "owner") && not (contains sender (get_members c))
    then refused (record { status_code = 403; code = Code.sender_not_room_member })
    else passed

unfoldable pub precheck_room : Option Chat → String → Principal → Precheck
unfolding precheck_sender
precheck_room none sender principal =
    refused (record { status_code = 404; code = Code.room_not_found })
precheck_room (some c) sender principal =
    if is_open c.room
    then precheck_sender c (strip sender) principal
    else refused (record { status_code = 409; code = Code.room_closed })

unfoldable pub check_post_fields : String → String → String → Result (Unit {0})
check_post_fields sender text kind = do
  raise_if (not (is_valid_post_kind kind)) 422 Code.invalid_message_kind
  raise_if (is_empty (strip sender)) 422 Code.invalid_sender
  raise_if (is_empty (strip text)) 422 Code.empty_message_text
  raise_if (ltb max_text_bytes (len text)) 422 Code.message_text_too_large

unfoldable pub post_precheck : Option Chat → String → String → String → Principal → Precheck
post_precheck seen sender text kind principal = elim (check_post_fields sender text kind) [
  | err e ↦ refused e
  | ok _ ↦ precheck_room seen sender principal
]

-- After the commit: the owner hears of a close, and the caller gets the message.
unfoldable pub post_committed :
    String → Result (RoomMessage × Option String) × Hub → Result RoomMessage × Hub
unfolding notify
post_committed room_id (err e, hub) = (err e, hub)
post_committed room_id (ok (m, none), hub) = (ok m, hub)
post_committed room_id (ok (m, some reason), hub) =
    (ok m, notify (Notice.room_closed room_id (some reason)) hub)

unfoldable pub post_checked :
    String
    → String
    → String
    → String
    → Principal
    → ℕ
    → String
    → Hub
    → Precheck
    → Result RoomMessage × Hub
post_checked room_id sender text kind principal now id hub (refused e) = (err e, hub)
post_checked room_id sender text kind principal now id hub (parked is_member) = (
  raise 403 Code.room_not_opened,
  if is_member then maybe_ping_owner_room_not_opened room_id (some (strip sender)) now hub else hub,
)
post_checked room_id sender text kind principal now id hub passed =
    post_committed room_id
      (with_room_lock room_id (post_locked (strip sender) (strip text) kind now principal id) hub)

-- `post_message`: `seen` is what the unlocked read found, and `hub` what the lock finds.
unfoldable pub post_message :
    Option Chat
    → String
    → String
    → String
    → String
    → Principal
    → ℕ
    → String
    → Hub
    → Result RoomMessage × Hub
post_message seen room_id sender text kind principal now id hub =
    post_checked room_id sender text kind principal now id hub
      (post_precheck seen sender text kind principal)
