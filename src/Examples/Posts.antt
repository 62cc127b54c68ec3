-- ===== src/Examples/Posts.antt =====
-- Posts in the debate and in the waiting room.
use brainard.Prelude.{Bool, true, false, not, ◌&&◌, ◌≡◌, refl, some, false→ne}
use brainard.Prelude.Text.{strip}
use brainard.Prelude.Table.{lookup}
use brainard.Errors.{Code, Result, ok, err, raise, raise_if, OnOk, ◌>>=◌, ◌>>◌}
use brainard.Model.{Chat, machine, owner}
use brainard.Rooms.Queries.{has_seq, max_seq, get_members, is_consensus_gated}
use brainard.Rooms.Seats.{check_and_bind_seat, find_member}
use brainard.Rooms.Seats.Binding.{HasClaimed, check_and_bind_seat-HasClaimed}
use brainard.Rooms.Consensus.{
  check_gate_status, get_consensus_gate_status, check_close_as_agreed_gate,
}
use brainard.Rooms.Post.{
  insert_attempts, insert_message_and_maybe_close, insert_opened, posted, post_locked, post_message,
  check_post_fields,
}
use brainard.Rooms.Post.Insert.{inserted, opened_chat, post_locked-IsCounted}
use brainard.Rooms.Post.Agreed.{
  is_agreed, IsDone, post_locked-agreed, check_close_as_agreed_gate_lem,
}
use brainard.Rooms.Post.Outcome.{IsPosted, post_locked-IsPosted}
use brainard.Rooms.Post.Access.{IsAdmitted, post_message-IsAdmitted}
use brainard.Rooms.Post.Waiting.{reminded, after_reminder, post_message-waits}
use brainard.Rooms.Post.Opening.{IsStarted, post_locked-IsStarted}
use brainard.Rooms.Post.Exclusive.{post_locked-exclusive}
use brainard.Examples.Data.{
  waiting-IsSound, waiting, debate, waiting, hub, debate-IsSound, hub-IsSoundHub,
}

abbrev is_ok : {A : Type 0} → Result A → Bool
is_ok (ok a) = true
is_ok (err e) = false

done_is_accepted : is_ok (post_locked "ada" "Agreed." "done" 9 (machine "m1") "c" debate) ≡ true
unfolding post_locked check_close_as_agreed_gate check_gate_status get_consensus_gate_status
    insert_attempts insert_message_and_maybe_close check_and_bind_seat find_member insert_opened
    has_seq posted max_seq
done_is_accepted = refl

post_locked-agreed_example :
    OnOk
      (λ r. (is_agreed debate ≡ true) × (r.0.1 ≡ some "done") × IsDone 9 r.1.room)
      (post_locked "ada" "Agreed." "done" 9 (machine "m1") "c" debate)
unfolding is_consensus_gated
post_locked-agreed_example =
    post_locked-agreed "ada" "Agreed." "done" 9 (machine "m1") "c" debate debate-IsSound.transcript
      (false→ne "ada" "owner" refl) refl refl

post_locked-IsPosted_example :
    OnOk
      (λ r. IsPosted "message" debate r.0.0 r.0.1 r.1)
      (post_locked "bob" "Hello." "message" 9 (machine "m2") "c" debate)
post_locked-IsPosted_example =
    post_locked-IsPosted "bob" "Hello." "message" 9 (machine "m2") "c" debate
      debate-IsSound.transcript

post_message-IsAdmitted_example :
    OnOk
      (λ m.
        (m.sender ≡ strip " ada ")
        × ((c : Chat) × (some debate ≡ some c)
            × IsAdmitted c " ada " "Hello." "message" (machine "m1")))
      (post_message (some debate) "r1" " ada " "Hello." "message" (machine "m1") 9 "c" hub).0
post_message-IsAdmitted_example =
    post_message-IsAdmitted (some debate) "r1" " ada " "Hello." "message" (machine "m1") 9 "c" hub
      hub-IsSoundHub

check_and_bind_seat-HasClaimed_example :
    OnOk (HasClaimed "bob" "m2" debate) (check_and_bind_seat debate "bob" (machine "m2"))
check_and_bind_seat-HasClaimed_example = check_and_bind_seat-HasClaimed debate "bob" "m2"

post_locked-IsCounted_example : post_locked "bob" "Hello." "message" 9 (machine "m2") "c" debate ≡ (
    raise_if false 409 Code.room_closed
    >> (check_close_as_agreed_gate debate "bob" "message"
        >> (check_and_bind_seat debate "bob" (machine "m2") >>= λ b.
            ok (inserted "bob" "Hello." "message" 9 "c" (opened_chat "bob" 9 b)))))
post_locked-IsCounted_example =
    post_locked-IsCounted "bob" "Hello." "message" 9 (machine "m2") "c" debate
      debate-IsSound.transcript

check_close_as_agreed_gate_lem_example :
    check_close_as_agreed_gate debate "bob" "done"
    ≡ raise_if
        (is_consensus_gated "debate" && not (is_agreed debate))
        409
        Code.close_as_agreed_not_permitted
check_close_as_agreed_gate_lem_example = check_close_as_agreed_gate_lem debate "bob" "done"

post_message-waits_example :
    let first =
      post_message (some waiting) "r2" "ada" "Shall we?" "message" (machine "m1") 9 "c" hub in
    let second =
      post_message
        (some (reminded 9 waiting))
        "r2"
        "bob"
        "Yes."
        "message"
        (machine "m2")
        11
        "d"
        first.1 in
    (first.0 ≡ raise 403 Code.room_not_opened)
    × (second.0 ≡ raise 403 Code.room_not_opened)
    × (first.1 ≡ after_reminder "r2" (strip "ada") 9 waiting hub)
    × (second.1 ≡ first.1)
unfolding check_post_fields strip get_members lookup
post_message-waits_example =
    post_message-waits waiting (reminded 9 waiting) "r2" "ada" "Shall we?" "message" "bob" "Yes."
      "message" "c" "d" (machine "m1") (machine "m2") 9 11 hub refl refl refl refl refl refl refl
      refl refl refl

post_locked-IsStarted_example :
    OnOk
      (λ r. IsStarted 50 waiting.room r.1.room)
      (post_locked "owner" "Begin." "message" 50 owner "c" waiting)
post_locked-IsStarted_example =
    post_locked-IsStarted "Begin." "message" 50 owner "c" waiting waiting-IsSound

post_locked-exclusive_example :
    OnOk
      (λ r. OnOk (λ r'. ⊥) (post_locked "bob" "Me too." "message" 12 (machine "m3") "d" r.1))
      (post_locked "bob" "Hello." "message" 9 (machine "m2") "c" debate)
unfolding find_member
post_locked-exclusive_example =
    post_locked-exclusive "bob" "Hello." "message" "Me too." "message" 9 12 "m2" "m3" "c" "d" debate
      debate-IsSound refl (false→ne "m2" "m3" refl)
