-- ===== src/Rooms/Upkeep.antt =====
-- app/rooms.py: leases, the alarm, removal and grouping, and the well-formedness of every room.
use mathlib.Core.Option
use mathlib.Core.Option.{some-injective}
use mathlib.Core.Path.{subst}
use brainard.Rooms.Remove.Grouping.{lookup-set_group}
use brainard.Prelude.{
  sym, ℕ, String, ◌&&◌, ◌≡◌, refl, ◌∙◌, Option, none, some, List, [], ◌∷◌, map, arith, Bool-cases,
  Option-cases, inl, inr, contains,
}
use brainard.Prelude.Table.{lookup}
use brainard.Errors.{Result, ok, err}
use brainard.Model.{RoomMember, Chat, Hub, Principal, owner, machine, is_open}
use brainard.Rooms.Invariant.{IsSound}
use brainard.Rooms.Isolation.{IsSoundHub, AllChats-insert, AllChats-remove}
use brainard.Rooms.Poll.{
  refresh_member, refresh_in, maybe_refresh_working_marker, alarm, maybe_ping_owner_stalled_room,
  is_stall_due, last_activity_at, last_message_at,
}
use brainard.Rooms.Remove.{
  remove_found, delete_room, regroup, validate_assignment, assign_validated, assign_group_to_rooms,
}
use brainard.Rooms.Keeps.{room-IsSound, members-IsSound}

pub names-refresh_member :
    (name id : String) (now : ℕ) (ms : List RoomMember)
    → map (λ m. m.agent_name) (refresh_member name id now ms) ≡ map (λ m. m.agent_name) ms
unfolding refresh_member
names-refresh_member name id now [] = refl
names-refresh_member name id now (m ∷ ms) = ground (arith, names-refresh_member name id now ms)

pub maybe_refresh_working_marker-IsSoundHub :
    (room_id : String) (agent : Option String) (principal : Option Principal) (now : ℕ) (hub : Hub)
    → IsSoundHub hub
    → IsSoundHub (maybe_refresh_working_marker room_id agent principal now hub)
unfolding maybe_refresh_working_marker refresh_in
maybe_refresh_working_marker-IsSoundHub room_id none principal now hub h = h
maybe_refresh_working_marker-IsSoundHub room_id (some name) none now hub h = h
maybe_refresh_working_marker-IsSoundHub room_id (some name) (some owner) now hub h = h
maybe_refresh_working_marker-IsSoundHub room_id (some name) (some (machine id)) now hub h =
    elim (Option-cases (lookup room_id hub.chats)) [
      | inl absent ↦ rw absent h
      | inr (c, found) ↦ rw found (
          AllChats-insert IsSound hub _ room_id _ h
            (members-IsSound c _ (h.at room_id c found)
              (names-refresh_member name id now c.members))
            refl)
    ]

alarm-IsSoundHub :
    (room_id : String) (now : ℕ) (hub : Hub) (c : Chat)
    → IsSoundHub hub
    → IsSound c
    → IsSoundHub (alarm room_id now hub (some c))
unfolding alarm
alarm-IsSoundHub room_id now hub c h sound =
    elim (Bool-cases (
      is_open c.room
      && is_stall_due now c.room (last_activity_at (last_message_at c.messages) c.members))) [
        | inl due ↦ rw due (
            AllChats-insert IsSound hub _ room_id _ h
              (room-IsSound c (record c.room { stall_notify_sent_at = some now }) sound refl
                (ground arith))
              refl)
        | inr not_due ↦ rw not_due h
      ]

pub maybe_ping_owner_stalled_room-IsSoundHub :
    (room_id : String) (now : ℕ) (hub : Hub)
    → IsSoundHub hub
    → IsSoundHub (maybe_ping_owner_stalled_room room_id now hub)
unfolding maybe_ping_owner_stalled_room
maybe_ping_owner_stalled_room-IsSoundHub room_id now hub h =
    elim (Option-cases (lookup room_id hub.chats)) [
      | inl absent ↦ rw absent (unfold alarm in h)
      | inr (c, found) ↦ rw found (alarm-IsSoundHub room_id now hub c h (h.at room_id c found))
    ]

pub delete_room-IsSoundHub :
    (seen : Option Chat) (room_id : String) (hub : Hub)
    → IsSoundHub hub
    → IsSoundHub (delete_room seen room_id hub).1
unfolding delete_room
delete_room-IsSoundHub none room_id hub h = h
delete_room-IsSoundHub (some c) room_id hub h = removed (lookup room_id hub.chats)
  where
    removed : (o : Option Chat) → IsSoundHub (remove_found room_id hub o).1
    removed none = h
    removed (some d) = AllChats-remove IsSound hub _ room_id h refl

regroup-IsSound :
    (ids : List String) (label : Option String) (id : String) (c : Chat)
    → IsSound c
    → IsSound (regroup ids label id c)
unfolding regroup
regroup-IsSound ids label id c h = elim (Bool-cases (contains id ids)) [
  | inl named ↦
      rw named (room-IsSound c (record c.room { group_name = label }) h refl (ground arith))
  | inr other ↦ rw other h
]

found_regrouped :
    (ids : List String) (label : Option String) (j : String) (o : Option Chat) {d : Chat}
    → ((c : Chat) → o ≡ some c → IsSound c)
    → Option.map (regroup ids label j) o ≡ some d
    → IsSound d
found_regrouped ids label j none h e = cc
found_regrouped ids label j (some c) h e =
    subst IsSound (some-injective _ _ e) (regroup-IsSound ids label j c (h c refl))

pub assign_group_to_rooms-IsSoundHub :
    (rooms : List String) (label : Option String) (hub : Hub)
    → IsSoundHub hub
    → IsSoundHub (assign_group_to_rooms rooms label hub).1
unfolding assign_group_to_rooms assign_validated
assign_group_to_rooms-IsSoundHub rooms label hub h =
    assigned (validate_assignment rooms label hub.chats)
  where
    assigned : (r : Result (List String × Option String)) → IsSoundHub (assign_validated hub r).1
    assigned (err e) = h
    assigned (ok (ids, group)) = record {
      at = λ j d found.
          found_regrouped ids group j (lookup j hub.chats) (h.at j)
            (sym (lookup-set_group ids group j hub.chats) ∙ found);
    }
