-- ===== src/Rooms/Toggle.antt =====
-- app/rooms.py: the owner's switches of a room in session: agent uploads, the owner-open
-- requirement, the machine of a seat.
pub mod Timer
use Prim.Native.String.{◌++◌}
use brainard.Prelude.{
  ℕ, String, Bool, true, false, not, ◌&&◌, Option, none, some, if◌then◌else◌, is_none,
}
use brainard.Prelude.Table.{Table, lookup}
use brainard.Errors.{Code, Result, ok, raise_if, ◌>>=◌, ◌>>◌}
use brainard.Model.{Room, Chat, Hub, Machine, is_open}
use brainard.Rooms.Queries.{announce, with_existing_room}
use brainard.Rooms.Seats.{find_member, set_bound_machine}
use brainard.Rooms.Validate.{seat_machine_id}
use brainard.Rooms.Post.{start_timer}

agent_uploads_announcement : Bool → String
agent_uploads_announcement true = "Agent file uploads are now allowed in this room."
agent_uploads_announcement false =
    "Agent file uploads are now disabled in this room. Agents: do not generate or upload a file -- put "
    ++ ("the content directly in a room message instead. You may still attach a document already saved in "
        ++ "the Brain (Attach from Brain) even while this is off.")

unfoldable pub set_uploads_locked : Bool → ℕ → String → Chat → Result (String × Chat)
unfolding agent_uploads_announcement
set_uploads_locked allowed now id c = do
  raise_if (not (is_open c.room)) 409 Code.room_closed
  let text = agent_uploads_announcement allowed
  let toggled = record c { room = record c.room { agent_uploads_allowed = allowed } }
  ok (text, announce toggled text now id)

unfoldable pub set_agent_uploads_allowed :
    Option Chat → String → Bool → ℕ → String → Hub → Result String × Hub
set_agent_uploads_allowed seen room_id allowed now id hub =
    with_existing_room seen room_id (set_uploads_locked allowed now id) hub

requires_owner_open_announcement : Bool → Bool → String
requires_owner_open_announcement true opened_by_this_toggle =
    "This room now requires the owner to post before agents may speak. Agents: if the owner hasn't "
    ++ "posted yet, stop and wait -- do not start on the topic."
requires_owner_open_announcement false true =
    "The owner-open requirement for this room has been turned off, before the owner posted. Agents "
    ++ "may begin from the topic now -- you no longer need to wait for a message from 'owner'."
requires_owner_open_announcement false false =
    "The owner-open requirement for this room has been turned off. Agents may begin from the topic without waiting for the owner."

-- Turning the requirement off ends the wait of a room that the owner has not opened.
unfoldable pub opens_by_toggle : Bool → Room → Bool
opens_by_toggle required r = not required && is_none r.opened_at && r.requires_owner_open

unfoldable pub set_open_gate : Bool → ℕ → Room → Room
unfolding opens_by_toggle
set_open_gate required now r =
    let timed = if opens_by_toggle required r then start_timer now r else r in
    record timed { requires_owner_open = required }

unfoldable pub set_open_locked : Bool → ℕ → String → Chat → Result (String × Chat)
unfolding requires_owner_open_announcement
set_open_locked required now id c = do
  raise_if (not (is_open c.room)) 409 Code.room_closed
  let text = requires_owner_open_announcement required (opens_by_toggle required c.room)
  ok (text, announce (record c { room = set_open_gate required now c.room }) text now id)

unfoldable pub set_requires_owner_open :
    Option Chat → String → Bool → ℕ → String → Hub → Result String × Hub
set_requires_owner_open seen room_id required now id hub =
    with_existing_room seen room_id (set_open_locked required now id) hub

machine_name : Option Machine → String
machine_name none = ""
machine_name (some m) = m.name

-- The announcement names the newly bound machine, if there is one.
seat_reassignment_announcement : String → Option String → String
seat_reassignment_announcement agent none =
    "The seat '"
    ++ (agent
        ++ ("' has been released by the owner. It is open again -- the next machine token to post or attach as '"
            ++ (agent ++ "' will claim it.")))
seat_reassignment_announcement agent (some name) =
    "The seat '"
    ++ (agent
        ++ ("' has been assigned by the owner to machine '"
            ++ (name
                ++ ("'. Only that machine's token may now post or attach as '"
                    ++ (agent ++ "'.")))))

-- The seat's new machine: none releases it.
unfoldable pub new_seat_machine : Table Machine → Option String → Result (Option String)
new_seat_machine machines none = ok none
new_seat_machine machines (some id) =
    seat_machine_id machines Code.invalid_seat_machine_id id >>= λ m. ok (some m)

unfoldable pub assign_seat :
    Table Machine → String → Option String → ℕ → String → Chat → String × Chat
unfolding seat_reassignment_announcement machine_name
assign_seat machines agent_name machine now id c =
    let text =
      seat_reassignment_announcement agent_name
        (elim machine [ none ↦ none | some m ↦ some (machine_name (lookup m machines)) ]) in
    let seated = record c { members = set_bound_machine agent_name machine c.members } in
    (text, announce seated text now id)

unfoldable pub set_seat_locked :
    Table Machine → String → Option String → ℕ → String → Chat → Result (String × Chat)
set_seat_locked machines agent_name machine_id now id c = do
  raise_if (not (is_open c.room)) 409 Code.room_closed
  raise_if (is_none (find_member agent_name c.members)) 404 Code.room_member_not_found
  machine ← new_seat_machine machines machine_id
  ok (assign_seat machines agent_name machine now id c)

unfoldable pub set_room_member_seat :
    Option Chat → String → String → Option String → ℕ → String → Hub → Result String × Hub
set_room_member_seat seen room_id agent_name machine_id now id hub =
    with_existing_room seen room_id (set_seat_locked hub.machines agent_name machine_id now id) hub
