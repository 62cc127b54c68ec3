-- ===== src/Rooms/Post/Opening.antt =====
-- app/rooms.py, `post_message`: the owner's first message opens the room and starts its timer.
use brainard.Prelude.{ℕ, ◌+◌, String, Bool, true, ◌≡◌, Option, none, some, arith, is_some}
use brainard.Errors.{OnOk, OnOk-eq}
use brainard.Model.{seconds, Room, Chat, Principal}
use brainard.Rooms.Queries.{add_message}
use brainard.Rooms.Messages.{has_owner_message}
use brainard.Rooms.Invariant.{IsConsistent, IsSound}
use brainard.Rooms.Seats.{check_and_bind_seat}
use brainard.Rooms.Seats.Binding.{SameButSeats, check_and_bind_seat-SameButSeats}
use brainard.Rooms.Post.{
  start_timer, open_by_owner, close_if, close_by_guardrail, guardrail, post_locked,
}
use brainard.Rooms.Post.Insert.{post_locked-OnOk}

-- The deadline of a room whose deferred duration, if it has one, starts at `now`.
abbrev pub deadline_from : ℕ → Room → Option ℕ
deadline_from now r = elim r.pending_duration_seconds [
  | none ↦ r.expires_at
  | some n ↦ some (now + seconds n)
]

-- The room has been opened: no duration is deferred, and the deadline is the one that was agreed.
pub record IsStarted (now : ℕ) (r r' : Room) : Type 0 where
  pub opened : is_some r'.opened_at ≡ true
  pub nothing_deferred : r'.pending_duration_seconds ≡ none
  pub deadline : r'.expires_at ≡ deadline_from now r

owner_row-IsStarted :
    (kind : String) (now : ℕ) (r : Room) (o : Bool)
    → IsConsistent r o
    → let counted = record (open_by_owner "owner" now r) {
      message_count = (open_by_owner "owner" now r).message_count + 1;
    } in
      IsStarted now r (close_if (guardrail kind counted) now counted)
unfolding open_by_owner start_timer close_if guardrail
owner_row-IsStarted kind now r o h = ground (arith, h.timer)

-- The owner's post that is accepted in a well-formed room leaves the room opened, with no deferred
-- duration: a duration that was deferred has become a deadline counted from the post.
pub post_locked-IsStarted :
    (text kind : String) (now : ℕ) (principal : Principal) (id : String) (c : Chat)
    → IsSound c
    → OnOk (λ r. IsStarted now c.room r.1.room) (post_locked "owner" text kind now principal id c)
unfolding close_by_guardrail add_message
post_locked-IsStarted text kind now principal id c h =
    post_locked-OnOk _ "owner" text kind now principal id c h.transcript λ b live gate seat.
      let same : SameButSeats c b =
        OnOk-eq (SameButSeats c) (check_and_bind_seat c "owner" principal)
          (check_and_bind_seat-SameButSeats c "owner" principal) seat in
      rw (← same.room)
        (owner_row-IsStarted kind now b.room (has_owner_message c.messages) (rw same.room h.row))
