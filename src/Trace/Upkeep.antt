-- ===== src/Trace/Upkeep.antt =====
-- app/rooms.py: leases, the alarm, removal and grouping, seen from one room.
use brainard.Prelude.{
  ℕ, String, ◌≡◌, ◌≢◌, refl, inl, inr, Option, none, some, List, arith, ==-ne, Bool-cases,
  Option-cases, ◌&&◌, contains,
}
use brainard.Prelude.Table.{lookup, lookup-remove}
use brainard.Errors.{Result, ok, err}
use brainard.Model.{Chat, Hub, Principal, owner, machine, is_open}
use brainard.Rooms.Poll.{
  refresh_in, maybe_refresh_working_marker, alarm, maybe_ping_owner_stalled_room, is_stall_due,
  last_activity_at, last_message_at,
}
use brainard.Rooms.Remove.{
  remove_found, delete_room, regroup, validate_assignment, assign_validated, assign_group_to_rooms,
}
use brainard.Rooms.Remove.Grouping.{lookup-set_group}
use brainard.Rooms.Upkeep.{names-refresh_member}
use brainard.Rooms.Evolution.{Evolves, Evolves-refl, row-Evolves, members-Evolves}
use brainard.Trace.Moves.{Moves, Moves-same, Moves-other, Moves-insert}

module _ (j : String) where
  pub maybe_refresh_working_marker-Moves :
      (room_id : String) (agent : Option String) (principal : Option Principal) (now : ℕ) (h : Hub)
      → Moves j h (maybe_refresh_working_marker room_id agent principal now h)
  unfolding maybe_refresh_working_marker refresh_in
  maybe_refresh_working_marker-Moves room_id none principal now h = Moves-same j h h refl
  maybe_refresh_working_marker-Moves room_id (some name) none now h = Moves-same j h h refl
  maybe_refresh_working_marker-Moves room_id (some name) (some owner) now h = Moves-same j h h refl
  maybe_refresh_working_marker-Moves room_id (some name) (some (machine id)) now h =
      elim (Option-cases (lookup room_id h.chats)) [
        | inl absent ↦ rw absent (Moves-same j h h refl)
        | inr (c, found) ↦ rw found (
            Moves-insert j h _ room_id c _ found
              (members-Evolves c _ (names-refresh_member name id now c.members)) refl)
      ]

  alarm-Moves :
      (room_id : String) (now : ℕ) (h : Hub) (c : Chat)
      → lookup room_id h.chats ≡ some c
      → Moves j h (alarm room_id now h (some c))
  unfolding alarm
  alarm-Moves room_id now h c e =
      elim (Bool-cases (
        is_open c.room
        && is_stall_due now c.room (last_activity_at (last_message_at c.messages) c.members))) [
          | inl due ↦ rw due (
              Moves-insert j h _ room_id c _ e
                (row-Evolves c (record c.room { stall_notify_sent_at = some now }) (ground arith))
                refl)
          | inr not_due ↦ rw not_due (Moves-same j h h refl)
        ]

  pub maybe_ping_owner_stalled_room-Moves :
      (room_id : String) (now : ℕ) (h : Hub)
      → Moves j h (maybe_ping_owner_stalled_room room_id now h)
  unfolding maybe_ping_owner_stalled_room
  maybe_ping_owner_stalled_room-Moves room_id now h = elim (Option-cases (lookup room_id h.chats)) [
    | inl absent ↦ rw absent (unfold alarm in Moves-same j h h refl)
    | inr (c, found) ↦ rw found (alarm-Moves room_id now h c found)
  ]

  pub delete_room-Moves :
      (seen : Option Chat) (room_id : String) (h : Hub)
      → room_id ≢ j
      → Moves j h (delete_room seen room_id h).1
  unfolding delete_room
  delete_room-Moves none room_id h other = Moves-same j h h refl
  delete_room-Moves (some c) room_id h other = removed (lookup room_id h.chats)
    where
      removed : (o : Option Chat) → Moves j h (remove_found room_id h o).1
      removed none = Moves-same j h h refl
      removed (some d) = Moves-other j h _ (rw (lookup-remove, ==-ne room_id j other))

  regroup-Evolves :
      (ids : List String) (label : Option String) (id : String) (c : Chat)
      → Evolves c (regroup ids label id c)
  unfolding regroup
  regroup-Evolves ids label id c = elim (Bool-cases (contains id ids)) [
    | inl named ↦ rw named (row-Evolves c (record c.room { group_name = label }) (ground arith))
    | inr other ↦ rw other (Evolves-refl c)
  ]

  pub assign_group_to_rooms-Moves :
      (rooms : List String) (label : Option String) (h : Hub)
      → Moves j h (assign_group_to_rooms rooms label h).1
  unfolding assign_group_to_rooms assign_validated
  assign_group_to_rooms-Moves rooms label h = assigned (validate_assignment rooms label h.chats)
    where
      assigned : (r : Result (List String × Option String)) → Moves j h (assign_validated h r).1
      assigned (err e) = Moves-same j h h refl
      assigned (ok (ids, group)) = record {
        at = λ c found.
            (regroup ids group j c, rw lookup-set_group (rw found), regroup-Evolves ids group j c);
      }
