-- ===== src/Trace/History.antt =====
-- app/rooms.py: sequences of calls, in any order.
use brainard.Prelude.{String, ◌≡◌, refl, some, List, [], ◌∷◌}
use brainard.Prelude.Table.{lookup}
use brainard.Model.{Chat, Hub}
use brainard.Rooms.Invariant.{IsSound}
use brainard.Rooms.Keeps.{
  delete_locked-IsSound, set_uploads_locked-IsSound, set_open_locked-IsSound,
  set_seat_locked-IsSound,
}
use brainard.Rooms.Evolves.{
  delete_locked-Evolves, set_uploads_locked-Evolves, set_open_locked-Evolves,
  set_seat_locked-Evolves,
}
use brainard.Rooms.Tombstone.{delete_locked, delete_message}
use brainard.Rooms.Toggle.{
  set_uploads_locked, set_agent_uploads_allowed, set_open_locked, set_requires_owner_open,
  set_seat_locked, set_room_member_seat,
}
use brainard.Rooms.Isolation.{IsSoundHub, AllChats-same, with_existing_room-AllChats}
use brainard.Rooms.Upkeep.{
  maybe_refresh_working_marker-IsSoundHub, maybe_ping_owner_stalled_room-IsSoundHub,
  delete_room-IsSoundHub, assign_group_to_rooms-IsSoundHub,
}
use brainard.Rooms.Soundness.{
  create_room-IsSoundHub, post_message-IsSoundHub, close_room-IsSoundHub,
  post_closing_nudge-IsSoundHub, switch_room_mode-IsSoundHub,
  post_attachment_system_message-IsSoundHub, maybe_ping_owner_room_not_opened-IsSoundHub,
}
use brainard.Rooms.Evolution.{Evolves, Evolves-refl, Evolves-trans}
use brainard.Trace.{
  Call, create, post, close, warn, bury, switch, uploads, gate, seat, attach, remind, refresh,
  stall, remove, group, register, run, run_all, Spares, AllSpare,
}
use brainard.Trace.Moves.{Moves, Moves-same, Moves-existing}
use brainard.Trace.Upkeep.{
  maybe_refresh_working_marker-Moves, maybe_ping_owner_stalled_room-Moves, delete_room-Moves,
  assign_group_to_rooms-Moves,
}
use brainard.Trace.Calls.{
  create_room-Moves, post_message-Moves, close_room-Moves, post_closing_nudge-Moves,
  switch_room_mode-Moves, post_attachment_system_message-Moves,
  maybe_ping_owner_room_not_opened-Moves,
}

run-IsSoundHub : (c : Call) (h : Hub) → IsSoundHub h → IsSoundHub (run c h)
unfolding run delete_message set_agent_uploads_allowed set_requires_owner_open set_room_member_seat
run-IsSoundHub (create id now q) h s = create_room-IsSoundHub id now q h s
run-IsSoundHub (post seen room sender text kind principal now id) h s =
    post_message-IsSoundHub seen room sender text kind principal now id h s
run-IsSoundHub (close seen room reason now) h s = close_room-IsSoundHub seen room reason now h s
run-IsSoundHub (warn room text now id) h s = post_closing_nudge-IsSoundHub room text now id h s
run-IsSoundHub (bury seen room message now) h s =
    with_existing_room-AllChats IsSound (delete_locked message now) seen room h
      (λ c _ sound. delete_locked-IsSound message now c sound) s
run-IsSoundHub (switch seen room mode topic sides now id) h s =
    switch_room_mode-IsSoundHub seen room mode topic sides now id h s
run-IsSoundHub (uploads seen room allowed now id) h s =
    with_existing_room-AllChats IsSound (set_uploads_locked allowed now id) seen room h
      (λ c _ sound. set_uploads_locked-IsSound allowed now id c sound) s
run-IsSoundHub (gate seen room required now id) h s =
    with_existing_room-AllChats IsSound (set_open_locked required now id) seen room h
      (λ c _ sound. set_open_locked-IsSound required now id c sound) s
run-IsSoundHub (seat seen room agent machine now id) h s =
    with_existing_room-AllChats IsSound (set_seat_locked h.machines agent machine now id) seen room
      h (λ c _ sound. set_seat_locked-IsSound h.machines agent machine now id c sound) s
run-IsSoundHub (attach room text now id) h s =
    post_attachment_system_message-IsSoundHub room text now id h s
run-IsSoundHub (remind room agent now) h s =
    maybe_ping_owner_room_not_opened-IsSoundHub room agent now h s
run-IsSoundHub (refresh room agent principal now) h s =
    maybe_refresh_working_marker-IsSoundHub room agent principal now h s
run-IsSoundHub (stall room now) h s = maybe_ping_owner_stalled_room-IsSoundHub room now h s
run-IsSoundHub (remove seen room) h s = delete_room-IsSoundHub seen room h s
run-IsSoundHub (group rooms label) h s = assign_group_to_rooms-IsSoundHub rooms label h s
run-IsSoundHub (register machines) h s = AllChats-same IsSound h _ s refl

-- After any calls in any order, whatever their unlocked reads saw, every stored room is well formed
-- if every room was before: its messages are numbered from 1 without a gap, its count is that of
-- the live ones, it is closed with an instant and a reason or neither, opened exactly when the owner
-- has posted, has a deferred duration only while it waits, and has a reachable floor and two
-- distinct agents.
pub run_all-IsSoundHub : (cs : List Call) (h : Hub) → IsSoundHub h → IsSoundHub (run_all cs h)
unfolding run_all
run_all-IsSoundHub [] h s = s
run_all-IsSoundHub (c ∷ cs) h s = run_all-IsSoundHub cs (run c h) (run-IsSoundHub c h s)

module _ (j : String) where
  run-Moves : (c : Call) (h : Hub) → IsSoundHub h → Spares j c → Moves j h (run c h)
  unfolding run delete_message set_agent_uploads_allowed set_requires_owner_open
      set_room_member_seat
  run-Moves (create id now q) h s other = create_room-Moves j id now q h other
  run-Moves (post seen room sender text kind principal now id) h s _ =
      post_message-Moves j seen room sender text kind principal now id h s
  run-Moves (close seen room reason now) h s _ = close_room-Moves j seen room reason now h
  run-Moves (warn room text now id) h s _ = post_closing_nudge-Moves j room text now id h
  run-Moves (bury seen room message now) h s _ =
      Moves-existing j (delete_locked message now) seen room h
        (λ c _. delete_locked-Evolves message now c)
  run-Moves (switch seen room mode topic sides now id) h s _ =
      switch_room_mode-Moves j seen room mode topic sides now id h
  run-Moves (uploads seen room allowed now id) h s _ =
      Moves-existing j (set_uploads_locked allowed now id) seen room h
        (λ c _. set_uploads_locked-Evolves allowed now id c)
  run-Moves (gate seen room required now id) h s _ =
      Moves-existing j (set_open_locked required now id) seen room h
        (λ c _. set_open_locked-Evolves required now id c)
  run-Moves (seat seen room agent machine now id) h s _ =
      Moves-existing j (set_seat_locked h.machines agent machine now id) seen room h
        (λ c _. set_seat_locked-Evolves h.machines agent machine now id c)
  run-Moves (attach room text now id) h s _ =
      post_attachment_system_message-Moves j room text now id h
  run-Moves (remind room agent now) h s _ =
      maybe_ping_owner_room_not_opened-Moves j room agent now h
  run-Moves (refresh room agent principal now) h s _ =
      maybe_refresh_working_marker-Moves j room agent principal now h
  run-Moves (stall room now) h s _ = maybe_ping_owner_stalled_room-Moves j room now h
  run-Moves (remove seen room) h s other = delete_room-Moves j seen room h other
  run-Moves (group rooms label) h s _ = assign_group_to_rooms-Moves j rooms label h
  run-Moves (register machines) h s _ = Moves-same j h _ refl

-- Over any calls that spare a room, in a hub of well-formed rooms: the room stays stored, every
-- message keeps its place, its number, its sender and its kind and changes at most into a tombstone
-- of itself, a closed room stays closed with its instant and its reason, the instant of the opening
-- stays, and so do the agents, the limits and the creation.
pub run_all-Evolves :
    (j : String) (cs : List Call) (h : Hub) (c : Chat)
    → IsSoundHub h
    → AllSpare j cs
    → lookup j h.chats ≡ some c
    → (c' : Chat) × (lookup j (run_all cs h).chats ≡ some c') × Evolves c c'
unfolding run_all
run_all-Evolves j [] h c s spare found = (c, found, Evolves-refl c)
run_all-Evolves j (k ∷ cs) h c s spare found =
    let (d, here, ev) = (run-Moves j k h s spare.0).at c found in
    let (e, there, ev') = run_all-Evolves j cs (run k h) d (run-IsSoundHub k h s) spare.1 here in
    (e, there, Evolves-trans c d e ev ev')
