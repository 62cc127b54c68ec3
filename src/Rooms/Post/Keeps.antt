-- ===== src/Rooms/Post/Keeps.antt =====
-- app/rooms.py, `post_message` under the lock, and the well-formedness of its room.
use brainard.Prelude.{ℕ, String, Bool, ◌||◌, ◌≡◌, refl, Option, none, some, ◌==◌, arith, ◌∙◌}
use brainard.Errors.{OnOk, OnOk-eq}
use brainard.Model.{Room, RoomMessage, Chat, Principal}
use brainard.Rooms.Queries.{add_message, get_members}
use brainard.Rooms.Messages.{has_owner_message-append}
use brainard.Rooms.Invariant.{IsCounted, IsConsistent, IsSound, add_message-IsCounted}
use brainard.Rooms.Seats.Binding.{SameButSeats, check_and_bind_seat-SameButSeats}
use brainard.Rooms.Seats.{check_and_bind_seat}
use brainard.Rooms.Post.{
  start_timer, open_by_owner, close_if, close_by_guardrail, posted, post_locked,
}
use brainard.Rooms.Post.Insert.{opened_chat, counted_chat, post_locked-OnOk}

open_by_owner-IsConsistent :
    (sender : String) (now : ℕ) (r : Room) (o : Bool)
    → IsConsistent r o
    → IsConsistent (open_by_owner sender now r) (o || (sender == "owner"))
unfolding open_by_owner start_timer
open_by_owner-IsConsistent sender now r o h = ground arith

close_if-IsConsistent :
    (reason : Option String) (now : ℕ) (r : Room) (o : Bool)
    → IsConsistent r o
    → IsConsistent (close_if reason now r) o
unfolding close_if
close_if-IsConsistent none now r o h = h
close_if-IsConsistent (some reason) now r o h = ground arith

-- The count is no part of the row's consistency.
pub recount-IsConsistent :
    (n : ℕ) (r : Room) (o : Bool)
    → IsConsistent r o
    → IsConsistent (record r { message_count = n }) o
recount-IsConsistent n r o h = record {
  closed_instant = h.closed_instant;
  closed_reason = h.closed_reason;
  opened = h.opened;
  timer = h.timer;
  floor = h.floor;
}

pub SameButSeats-IsSound : (c b : Chat) → SameButSeats c b → IsSound c → IsSound b
SameButSeats-IsSound c b same h = record {
  transcript = record {
    numbered = rw same.messages h.transcript.numbered;
    counted = rw (same.room, same.messages) h.transcript.counted;
  };
  row = rw (same.room, same.messages) h.row;
  agents = rw same.agents h.agents;
}

open_by_owner-count :
    (sender : String) (now : ℕ) (r : Room)
    → (open_by_owner sender now r).message_count ≡ r.message_count
unfolding open_by_owner start_timer
open_by_owner-count sender now r = ground arith

counted_chat-IsSound :
    (sender text kind : String) (now : ℕ) (id : String) (c : Chat)
    → IsSound c
    → IsSound (counted_chat sender text kind now id (opened_chat sender now c))
unfolding get_members
counted_chat-IsSound sender text kind now id c h =
    let m : RoomMessage = posted sender text kind now id (opened_chat sender now c) in
    let opened : IsCounted (opened_chat sender now c) = record {
      numbered = h.transcript.numbered;
      counted = open_by_owner-count sender now c.room ∙ h.transcript.counted;
    } in
    record {
      transcript =
          add_message-IsCounted (opened_chat sender now c) m opened (unfold posted in refl)
            (unfold posted in refl);
      row =
          unfold add_message in
          rw has_owner_message-append (
            unfold posted in
            recount-IsConsistent _ _ _ (open_by_owner-IsConsistent sender now c.room _ h.row));
      agents = unfold add_message in h.agents;
    }

close_if-count :
    (reason : Option String) (now : ℕ) (r : Room)
    → (close_if reason now r).message_count ≡ r.message_count
unfolding close_if
close_if-count none now r = refl
close_if-count (some reason) now r = refl

-- A close changes the room's row alone.
pub close_if-IsSound :
    (reason : Option String) (now : ℕ) (c : Chat)
    → IsSound c
    → IsSound (record c { room = close_if reason now c.room })
unfolding get_members
close_if-IsSound reason now c h = record {
  transcript = record {
    numbered = h.transcript.numbered;
    counted = close_if-count reason now c.room ∙ h.transcript.counted;
  };
  row = close_if-IsConsistent reason now c.room _ h.row;
  agents = h.agents;
}

-- Whatever the sender, the kind and the guardrail, an accepted post leaves the room well formed.
pub post_locked-IsSound :
    (sender text kind : String) (now : ℕ) (principal : Principal) (id : String) (c : Chat)
    → IsSound c
    → OnOk (λ r. IsSound r.1) (post_locked sender text kind now principal id c)
unfolding close_by_guardrail
post_locked-IsSound sender text kind now principal id c h =
    post_locked-OnOk (λ r. IsSound r.1) sender text kind now principal id c h.transcript
      λ b live gate seat. close_if-IsSound _ now _ (
        counted_chat-IsSound sender text kind now id b (
          SameButSeats-IsSound c b
            (OnOk-eq (SameButSeats c) (check_and_bind_seat c sender principal)
              (check_and_bind_seat-SameButSeats c sender principal) seat)
            h))
