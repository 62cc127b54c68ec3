-- ===== src/Examples/Rooms.antt =====
-- Creating, closing, deleting, grouping, polling and sweeping.
use brainard.Prelude.{String, true, false, ◌≡◌, refl, none, some, List, [], ◌∷◌, is_some, arith}
use brainard.Prelude.Table.{lookup, insert}
use brainard.Errors.{ok, OnOk}
use brainard.Model.{Chat, machine, closed}
use brainard.Rooms.Queries.{with_room_lock, with_existing_room, commit, locked, notify}
use brainard.Rooms.Seats.Binding.{seat_machine}
use brainard.Rooms.Validate.{pos}
use brainard.Rooms.Create.{RoomRequest, validate_room, create_room}
use brainard.Rooms.Create.Sound.{IsValid, validate_room-IsValid}
use brainard.Rooms.Create.Seated.{is_active, create_room-is_active}
use brainard.Rooms.Post.{close_if}
use brainard.Rooms.Close.{apply_close, close_locked, close_committed, close_room}
use brainard.Rooms.Close.Once.{close_room-once}
use brainard.Rooms.Tombstone.{delete_locked}
use brainard.Rooms.Tombstone.Once.{IsDeleted, delete_locked-IsDeleted}
use brainard.Rooms.Remove.{assign_group_to_rooms}
use brainard.Rooms.Remove.Grouping.{AssignsAll, assign_group_to_rooms-AssignsAll}
use brainard.Rooms.Poll.{World, poll_messages, maybe_refresh_working_marker}
use brainard.Rooms.Poll.Ends.{poll_messages-ends}
use brainard.Rooms.Isolation.{IsSoundHub}
use brainard.Rooms.Evolution.{Evolves}
use brainard.Sweeper.{scan, close_each, is_expired, close_expired_rooms}
use brainard.Sweeper.Expired.{close_expired_rooms-is_expired}
use brainard.Trace.{Call, post, close, bury, warn, run_all}
use brainard.Trace.History.{run_all-IsSoundHub, run_all-Evolves}
use brainard.Rooms.Toggle.{set_open_locked}
use brainard.Rooms.Toggle.Timer.{IsGated, set_open_locked-IsGated}
use brainard.Rooms.Poll.Answers.{Answers, poll_messages-Answers}
use brainard.Examples.Data.{
  waiting-IsSound, waiting, debate, debate_room, machines, hub, hub-IsSoundHub,
}

abbrev calls : List Call
calls =
    post (some debate) "r1" "bob" "One more thing." "message" (machine "m2") 9 "c"
    ∷ warn "r1" "Two minutes left." 10 "d"
    ∷ bury (some debate) "r1" "a" 11
    ∷ close (some debate) "r1" (some "owner") 12
    ∷ []

run_all-IsSoundHub_example : IsSoundHub (run_all calls hub)
run_all-IsSoundHub_example = run_all-IsSoundHub calls hub hub-IsSoundHub

run_all-Evolves_example :
    (c' : Chat) × (lookup "r1" (run_all calls hub).chats ≡ some c') × Evolves debate c'
unfolding lookup
run_all-Evolves_example =
    run_all-Evolves "r1" calls hub debate hub-IsSoundHub (tt, (tt, (tt, (tt, tt)))) refl

abbrev shut_debate : Chat
shut_debate = record debate {
  room = record debate_room { status = closed; closed_at = some 12; close_reason = some "owner" };
}

close_room-once_example :
    close_room (some debate) "r1" (some "stall") 20 (close_room (some debate) "r1" none 12 hub).1
    ≡ (ok shut_debate.room, (close_room (some debate) "r1" none 12 hub).1)
unfolding close_room with_existing_room with_room_lock commit locked close_locked close_committed
    apply_close close_if notify lookup insert
close_room-once_example =
    close_room-once (some debate) debate "r1" none (some "stall") 12 20 shut_debate.room hub
      (close_room (some debate) "r1" none 12 hub).1 refl refl

delete_locked-IsDeleted_example :
    OnOk (λ r. IsDeleted "a" debate r.0 r.1) (delete_locked "a" 11 debate)
delete_locked-IsDeleted_example = delete_locked-IsDeleted "a" 11 debate

assign_group_to_rooms-AssignsAll_example :
    AssignsAll
      ("r1" ∷ " r2 " ∷ [])
      hub
      (assign_group_to_rooms ("r1" ∷ " r2 " ∷ []) (some "Style") hub)
assign_group_to_rooms-AssignsAll_example =
    assign_group_to_rooms-AssignsAll ("r1" ∷ " r2 " ∷ []) (some "Style") hub

abbrev request : RoomRequest
request = record {
  name = " Review ";
  members = "ada" ∷ "bob" ∷ [];
  max_messages = some (pos 40);
  mode = "critique";
  topic = some "The new schema";
  sides = some (("ada", "proposer") ∷ ("bob", "critic") ∷ []);
  duration_seconds = some (pos 600);
  expires_at = none;
  group = none;
  consensus_floor = some (pos 6);
  project = none;
  seat_machines = ("ada", some "m1") ∷ [];
  stall_notify_secs = none;
}

validate_room-IsValid_example : OnOk (IsValid 5 request) (validate_room machines 5 request)
validate_room-IsValid_example = validate_room-IsValid machines 5 request

create_room-is_active_example :
    OnOk
      (λ c. (agent id : String) → seat_machine agent c ≡ some id → is_active machines id ≡ true)
      (create_room "r3" 5 request hub).0
create_room-is_active_example = create_room-is_active "r3" 5 request hub

abbrev quiet : World
quiet = record { now = λ i. i; monotonic = λ i. i; others = λ i k h. h }

poll_messages-ends_example :
    is_some (poll_messages quiet 121 "r1" 2 900 (some "ada") (some (machine "m1")) 0 hub) ≡ true
poll_messages-ends_example =
    poll_messages-ends quiet "r1" 2 900 (some "ada") (some (machine "m1")) 0 hub (λ i. omega arith)
      (omega arith)

-- The debate, which the sweeper closes a hundred seconds after its deadline.
abbrev swept_debate : Chat
swept_debate = record debate {
  room = record debate_room {
    status = closed;
    closed_at = some 700_000_000;
    close_reason = some "time";
  };
}

close_expired_rooms-is_expired_example : is_expired 700_000_000 swept_debate.room ≡ false
unfolding scan close_each close_expired_rooms close_room with_existing_room with_room_lock commit
    locked close_locked close_committed apply_close close_if notify lookup insert
close_expired_rooms-is_expired_example =
    close_expired_rooms-is_expired 700_000_000 hub "r1" swept_debate refl

set_open_locked-IsGated_example :
    OnOk (λ r. IsGated false 50 waiting.room r.1.room) (set_open_locked false 50 "c" waiting)
set_open_locked-IsGated_example = set_open_locked-IsGated false 50 "c" waiting waiting-IsSound

poll_messages-Answers_example :
    Answers quiet "r1" 1
      (some "ada")
      30
      0
      (maybe_refresh_working_marker "r1" (some "ada") (some (machine "m1")) 0 hub)
      (poll_messages quiet 121 "r1" 1 30 (some "ada") (some (machine "m1")) 0 hub)
poll_messages-Answers_example =
    poll_messages-Answers quiet 121 "r1" 1 30 (some "ada") (some (machine "m1")) 0 hub
