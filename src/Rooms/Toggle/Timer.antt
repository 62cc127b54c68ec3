-- ===== src/Rooms/Toggle/Timer.antt =====
-- app/rooms.py, `set_requires_owner_open`: the deferred duration of a room that stops waiting.
use brainard.Prelude.{ℕ, String, Bool, false, not, ◌≡◌, none, arith, if◌then◌else◌}
use brainard.Errors.{Code, OnOk, OnOk-raise_if}
use brainard.Model.{Room, Chat, is_open}
use brainard.Rooms.Queries.{announce, add_message}
use brainard.Rooms.Messages.{has_owner_message}
use brainard.Rooms.Invariant.{IsConsistent, IsSound}
use brainard.Rooms.Reminder.{is_not_opened}
use brainard.Rooms.Post.{start_timer}
use brainard.Rooms.Post.Opening.{deadline_from}
use brainard.Rooms.Toggle.{opens_by_toggle, set_open_gate, set_open_locked}

-- The room `r'` after the requirement of the room `r` is set to `required`.
pub record IsGated (required : Bool) (now : ℕ) (r r' : Room) : Type 0 where
  pub requirement : r'.requires_owner_open ≡ required
  pub not_waiting :
      required ≡ false → (is_not_opened r' ≡ false) × (r'.pending_duration_seconds ≡ none)
  pub deadline : r'.expires_at ≡ (if required then r.expires_at else deadline_from now r)

set_open_gate-IsGated :
    (required : Bool) (now : ℕ) (r : Room) (o : Bool)
    → IsConsistent r o
    → IsGated required now r (set_open_gate required now r)
unfolding set_open_gate opens_by_toggle start_timer
set_open_gate-IsGated required now r o h = ground (arith, h.timer)

-- In a well-formed room the toggle that is accepted sets the requirement. Turned off, it leaves a
-- room that does not wait and has no deferred duration: a duration that was deferred has become a
-- deadline counted from the toggle. Turned on, it leaves the deadline alone.
pub set_open_locked-IsGated :
    (required : Bool) (now : ℕ) (id : String) (c : Chat)
    → IsSound c
    → OnOk (λ r. IsGated required now c.room r.1.room) (set_open_locked required now id c)
unfolding set_open_locked announce add_message
set_open_locked-IsGated required now id c h =
    OnOk-raise_if _ (not (is_open c.room)) 409 Code.room_closed _ λ live.
      let gated = set_open_gate-IsGated required now c.room (has_owner_message c.messages) h.row in
      record {
        requirement = gated.requirement;
        not_waiting = gated.not_waiting;
        deadline = gated.deadline;
      }
