-- ===== src/Rooms/Post/Outcome.antt =====
-- app/rooms.py, `post_message` under the lock: the room after an accepted post.
use brainard.Prelude.{
  ℕ, ◌+◌, ◌<◌, String, true, ◌≡◌, refl, Option, none, some, [], ◌∷◌, ◌++◌, ◌==◌, arith, leb,
  if◌then◌else◌, length, is_none,
}
use brainard.Errors.{OnOk, OnOk-eq}
use brainard.Model.{Room, RoomMessage, Chat, Principal, is_open}
use brainard.Rooms.Queries.{next_seq, add_message}
use brainard.Rooms.Messages.{max_seq-Numbered}
use brainard.Rooms.Invariant.{IsCounted}
use brainard.Rooms.Seats.{check_and_bind_seat}
use brainard.Rooms.Seats.Binding.{SameButSeats, check_and_bind_seat-SameButSeats}
use brainard.Rooms.Post.{
  start_timer, open_by_owner, guardrail, close_if, close_by_guardrail, post_locked, posted,
}
use brainard.Rooms.Post.Insert.{inserted, opened_chat, post_locked-OnOk}

-- The room `c'` after message `m` of `kind` in the room `c`.
pub record IsPosted (kind : String) (c : Chat) (m : RoomMessage) (reason : Option String)
    (c' : Chat) : Type 0 where
  pub number : m.seq ≡ length c.messages + 1
  pub stored : c'.messages ≡ c.messages ++ m ∷ []
  pub count : c'.message_count ≡ c.message_count + 1
  pub reported : reason ≡ (
      if kind == "done"
      then some "done"
      else if leb c.max_messages (c.message_count + 1)
      then some "cap"
      else none)
  pub closes : is_open c'.room ≡ is_none reason
  pub under_cap : is_open c'.room ≡ true → c'.message_count < c'.max_messages

posted_row :
    (sender kind : String) (now : ℕ) (r : Room)
    → is_open r ≡ true
    → let counted = record (open_by_owner sender now r) {
      message_count = (open_by_owner sender now r).message_count + 1;
    } in
      let after = close_if (guardrail kind counted) now counted in
      (after.message_count ≡ r.message_count + 1)
      × (guardrail kind counted ≡ (
          if kind == "done"
          then some "done"
          else if leb r.max_messages (r.message_count + 1)
          then some "cap"
          else none))
      × (is_open after ≡ is_none (guardrail kind counted))
      × (is_open after ≡ true → after.message_count < after.max_messages)
unfolding open_by_owner start_timer guardrail close_if
posted_row sender kind now r live = (ground arith, ground arith, ground arith, ground arith)

inserted-IsPosted :
    (sender text kind : String) (now : ℕ) (id : String) (c b : Chat)
    → IsCounted c
    → is_open c.room ≡ true
    → SameButSeats c b
    → let r = inserted sender text kind now id (opened_chat sender now b) in
      IsPosted kind c r.0.0 r.0.1 r.1
unfolding close_by_guardrail add_message posted next_seq
inserted-IsPosted sender text kind now id c b h live same =
    let row = posted_row sender kind now b.room (rw same.room live) in
    record {
      number = rw same.messages (omega (arith, max_seq-Numbered c.messages h.numbered));
      stored = rw same.messages refl;
      count = rw (← same.room) row.0;
      reported = rw (← same.room) row.1;
      closes = row.2;
      under_cap = row.3;
    }

-- In a room whose transcript is well formed, an accepted post takes the next number, stands last in the transcript, counts once, and closes
-- the room exactly when it is a "done" or fills the cap; a room that is still open is below its cap.
pub post_locked-IsPosted :
    (sender text kind : String) (now : ℕ) (principal : Principal) (id : String) (c : Chat)
    → IsCounted c
    → OnOk (λ r. IsPosted kind c r.0.0 r.0.1 r.1) (post_locked sender text kind now principal id c)
post_locked-IsPosted sender text kind now principal id c h =
    post_locked-OnOk _ sender text kind now principal id c h λ b live passed seat.
      inserted-IsPosted sender text kind now id c b h live (
        OnOk-eq (SameButSeats c) (check_and_bind_seat c sender principal)
          (check_and_bind_seat-SameButSeats c sender principal) seat)
