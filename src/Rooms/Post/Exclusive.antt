-- ===== src/Rooms/Post/Exclusive.antt =====
-- app/rooms.py, `post_message` under the lock: the seat of the agent that a machine posts as.
use brainard.Prelude.{ℕ, String, true, ◌≡◌, ◌≢◌, refl, sym, ◌∙◌, some, arith, is_some, ==-self}
use brainard.Errors.{OnOk, OnOk-eq, OnOk-intro}
use brainard.Model.{Chat, machine}
use brainard.Rooms.Queries.{add_message}
use brainard.Rooms.Invariant.{IsCounted, IsSound}
use brainard.Rooms.Seats.{find_member, check_and_bind_seat}
use brainard.Rooms.Seats.Binding.{
  HasClaimed, seat_machine, check_and_bind_seat-HasClaimed, check_and_bind_seat-other,
}
use brainard.Rooms.Post.{close_by_guardrail, post_locked}
use brainard.Rooms.Post.Insert.{post_locked-OnOk}
use brainard.Rooms.Post.Keeps.{post_locked-IsSound}

post_locked-HasClaimed :
    (sender text kind : String) (now : ℕ) (holder id : String) (c : Chat)
    → IsCounted c
    → OnOk
        (λ r. HasClaimed sender holder c r.1)
        (post_locked sender text kind now (machine holder) id c)
unfolding close_by_guardrail add_message seat_machine
post_locked-HasClaimed sender text kind now holder id c h =
    post_locked-OnOk (λ r. HasClaimed sender holder c r.1) sender text kind now (machine holder) id
      c h
      λ b live gate seat.
        OnOk-eq (HasClaimed sender holder c) (check_and_bind_seat c sender (machine holder))
          (check_and_bind_seat-HasClaimed c sender holder) seat

bound-refuses :
    (sender text kind : String) (now : ℕ) (holder other id : String) (c : Chat)
    → IsCounted c
    → seat_machine sender c ≡ some holder
    → holder ≢ other
    → OnOk (λ r. ⊥) (post_locked sender text kind now (machine other) id c)
bound-refuses sender text kind now holder other id c h bound apart =
    post_locked-OnOk (λ r. ⊥) sender text kind now (machine other) id c h
      λ b live gate seat.
        ground (arith, sym (check_and_bind_seat-other c sender other bound apart) ∙ seat)

-- Once a machine's post as a member of a well-formed room is accepted, the room after it accepts no
-- post as that member from any other machine.
pub post_locked-exclusive :
    (sender text kind text' kind' : String) (now later : ℕ) (holder other id id' : String)
    (c : Chat)
    → IsSound c
    → is_some (find_member sender c.members) ≡ true
    → holder ≢ other
    → OnOk
        (λ r. OnOk (λ r'. ⊥) (post_locked sender text' kind' later (machine other) id' r.1))
        (post_locked sender text kind now (machine holder) id c)
post_locked-exclusive sender text kind text' kind' now later holder other id id' c h member apart =
    OnOk-intro _ (post_locked sender text kind now (machine holder) id c) λ r e.
      bound-refuses sender text' kind' later holder other id' r.1
        (OnOk-eq (λ r. IsSound r.1) _
          (post_locked-IsSound sender text kind now (machine holder) id c h) e).transcript
        (OnOk-eq (λ r. HasClaimed sender holder c r.1) _
            (post_locked-HasClaimed sender text kind now holder id c h.transcript) e sender
          ∙ rw (==-self sender, member) refl)
        apart
