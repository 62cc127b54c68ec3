-- ===== src/Rooms/Seats.antt =====
-- app/room_seats.py: a seat belongs to one machine from its assignment or its first write on.
pub mod Binding
use brainard.Prelude.{String, Option, none, some, List, [], ◌∷◌, ◌==◌, if◌then◌else◌}
use brainard.Errors.{Code, Result, ok, raise}
use brainard.Model.{RoomMember, Chat, Principal, owner, machine}

-- The member row of an agent name: (room_id, agent_name) is a unique index.
unfoldable pub find_member : String → List RoomMember → Option RoomMember
find_member name [] = none
find_member name (m ∷ ms) = if m.agent_name == name then some m else find_member name ms

unfoldable pub set_bound_machine : String → Option String → List RoomMember → List RoomMember
set_bound_machine name id [] = []
set_bound_machine name id (m ∷ ms) =
    if m.agent_name == name
    then record m { bound_machine_id = id } ∷ ms
    else m ∷ set_bound_machine name id ms

unfoldable pub bind_seat : Chat → String → String → Option String → Result Chat
bind_seat c sender id none =
    ok (record c { members = set_bound_machine sender (some id) c.members })
bind_seat c sender id (some bound) =
    if bound == id then ok c else raise 403 Code.seat_bound_to_other_machine

unfoldable pub check_member_seat : Chat → String → String → Option RoomMember → Result Chat
unfolding bind_seat
check_member_seat c sender id none = ok c
check_member_seat c sender id (some m) = bind_seat c sender id m.bound_machine_id

unfoldable pub check_and_bind_seat : Chat → String → Principal → Result Chat
unfolding check_member_seat
check_and_bind_seat c sender owner = ok c
check_and_bind_seat c sender (machine id) =
    check_member_seat c sender id (find_member sender c.members)
