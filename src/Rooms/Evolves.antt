-- ===== src/Rooms/Evolves.antt =====
-- app/rooms.py: the bodies of the operations, and how each changes its room.
use brainard.Prelude.{
  ℕ, String, Bool, true, not, ◌&&◌, ◌≡◌, refl, inl, inr, Option, none, some, List, [], ◌∷◌, map,
  ◌==◌, arith, leb, is_none, is_some, Bool-cases,
}
use brainard.Prelude.Table.{Table}
use brainard.Errors.{Code, OnOk, OnOk-eq, OnOk-bind, OnOk-raise_if}
use brainard.Model.{Room, RoomMessage, Chat, Machine, Principal, is_open}
use brainard.Modes.{RoomMode}
use brainard.Rooms.Queries.{get_members, is_consensus_gated, add_message}
use brainard.Rooms.Invariant.{IsCounted}
use brainard.Rooms.Seats.{find_member, check_and_bind_seat}
use brainard.Rooms.Seats.Binding.{
  SameButSeats, set_bound_machine-SameButSeats, check_and_bind_seat-SameButSeats,
}
use brainard.Rooms.Validate.{validate_sides}
use brainard.Rooms.Post.{start_timer, open_by_owner, close_if, close_by_guardrail, post_locked}
use brainard.Rooms.Post.Insert.{post_locked-OnOk}
use brainard.Rooms.Close.{apply_close, close_locked, nudge}
use brainard.Rooms.Tombstone.{find_message, bury, delete_found, delete_locked}
use brainard.Rooms.Switch.{apply_switch, switch_locked, set_side}
use brainard.Rooms.Toggle.{
  set_uploads_locked, set_open_gate, set_open_locked, new_seat_machine, assign_seat,
  set_seat_locked,
}
use brainard.Rooms.Keeps.{names-set_side}
use brainard.Rooms.Evolution.{
  Continues, RowEvolves, Evolves, Continues-refl, RowEvolves-refl, Evolves-refl, Evolves-trans,
  row-Evolves, message-Evolves, members-Evolves, announce-Evolves,
}

SameButSeats-Evolves : (c b : Chat) → SameButSeats c b → Evolves c b
SameButSeats-Evolves c b h = record {
  transcript = rw h.messages (Continues-refl c.messages);
  row = rw h.room (RowEvolves-refl c.room);
  agents = h.agents;
}

-- An open row may be opened by the owner, counted up and closed.
posted_row-RowEvolves :
    (sender : String) (reason : Option String) (now n : ℕ) (r : Room)
    → is_open r ≡ true
    → RowEvolves r (close_if reason now (record (open_by_owner sender now r) { message_count = n }))
unfolding close_if open_by_owner start_timer
posted_row-RowEvolves sender none now n r live = ground arith
posted_row-RowEvolves sender (some reason) now n r live = ground arith

pub post_locked-Evolves :
    (sender text kind : String) (now : ℕ) (principal : Principal) (id : String) (c : Chat)
    → IsCounted c
    → OnOk (λ r. Evolves c r.1) (post_locked sender text kind now principal id c)
unfolding close_by_guardrail add_message
post_locked-Evolves sender text kind now principal id c h =
    post_locked-OnOk (λ r. Evolves c r.1) sender text kind now principal id c h
      λ b live gate seat.
        let same : SameButSeats c b =
          OnOk-eq (SameButSeats c) (check_and_bind_seat c sender principal)
            (check_and_bind_seat-SameButSeats c sender principal) seat in
        Evolves-trans c b _ (SameButSeats-Evolves c b same)
          (message-Evolves b _ _ (posted_row-RowEvolves sender _ now _ b.room (rw same.room live)))

pub close_locked-Evolves :
    (reason : Option String) (now : ℕ) (c : Chat)
    → OnOk (λ r. Evolves c r.1) (close_locked reason now c)
unfolding close_locked apply_close
close_locked-Evolves reason now c = elim (Bool-cases (is_open c.room)) [
  | inl live ↦ rw live (row-Evolves c _ (unfold close_if in ground arith))
  | inr done ↦ rw done (Evolves-refl c)
]

pub nudge-Evolves :
    (text : String) (now : ℕ) (id : String) (c : Chat) → Evolves c (nudge text now id c).1
unfolding nudge
nudge-Evolves text now id c = elim (Bool-cases (is_open c.room && is_none c.closing_warned_at)) [
  | inl due ↦
      rw due (Evolves-trans c _ _ (row-Evolves c _ (ground arith)) (announce-Evolves _ text now id))
  | inr no_more ↦ rw no_more (Evolves-refl c)
]

Continues-bury :
    (id : String) (now : ℕ) (ms : List RoomMessage) (m : RoomMessage)
    → find_message id ms ≡ some m
    → m.deleted_at ≡ none
    → Continues ms (bury id now ms)
unfolding bury find_message
Continues-bury id now [] m e live = tt
Continues-bury id now (x ∷ ms) m e live = elim (Bool-cases (x.id == id)) [
  | inl found ↦ rw found (inr (now, ground arith, refl), Continues-refl ms)
  | inr other ↦ rw other (inl refl, Continues-bury id now ms m (ground arith) live)
]

delete_found-Evolves :
    (id : String) (now : ℕ) (c : Chat) (o : Option RoomMessage)
    → find_message id c.messages ≡ o
    → OnOk (λ r. Evolves c r.1) (delete_found id now c o)
unfolding delete_found get_members
delete_found-Evolves id now c none e = tt
delete_found-Evolves id now c (some m) e = elim (Bool-cases (is_some m.deleted_at)) [
  | inl dead ↦ rw dead (Evolves-refl c)
  | inr live ↦ rw live (record {
    transcript = Continues-bury id now c.messages m e (ground arith);
    row = ground arith;
    agents = refl;
  })
]

pub delete_locked-Evolves :
    (id : String) (now : ℕ) (c : Chat) → OnOk (λ r. Evolves c r.1) (delete_locked id now c)
unfolding delete_locked
delete_locked-Evolves id now c = delete_found-Evolves id now c (find_message id c.messages) refl

pub switch_locked-Evolves :
    (d : RoomMode) (mode : String) (topic : Option String) (sides : Option (Table String)) (now : ℕ)
    (id : String) (c : Chat)
    → OnOk (λ r. Evolves c r.1) (switch_locked d mode topic sides now id c)
unfolding switch_locked apply_switch
switch_locked-Evolves d mode topic sides now id c =
    OnOk-raise_if _ (not (is_open c.room)) 409 Code.room_closed _ λ live.
      OnOk-raise_if _ (is_consensus_gated mode && leb c.max_messages c.consensus_floor) 409
        Code.consensus_floor_unreachable _
        λ reachable. OnOk-bind _ (validate_sides d (get_members c) sides) _ λ sides' _.
          Evolves-trans c _ _
            (Evolves-trans c _ _
              (row-Evolves c (record c.room { mode = mode; topic = topic }) (ground arith))
              (members-Evolves _ (map (set_side sides') c.members)
                (names-set_side sides' c.members)))
            (announce-Evolves _ _ now id)

pub set_uploads_locked-Evolves :
    (allowed : Bool) (now : ℕ) (id : String) (c : Chat)
    → OnOk (λ r. Evolves c r.1) (set_uploads_locked allowed now id c)
unfolding set_uploads_locked
set_uploads_locked-Evolves allowed now id c =
    OnOk-raise_if _ (not (is_open c.room)) 409 Code.room_closed _
      λ live. Evolves-trans c _ _ (row-Evolves c _ (ground arith)) (announce-Evolves _ _ now id)

set_open_gate-RowEvolves :
    (required : Bool) (now : ℕ) (r : Room) → RowEvolves r (set_open_gate required now r)
unfolding set_open_gate start_timer
set_open_gate-RowEvolves required now r = ground arith

pub set_open_locked-Evolves :
    (required : Bool) (now : ℕ) (id : String) (c : Chat)
    → OnOk (λ r. Evolves c r.1) (set_open_locked required now id c)
unfolding set_open_locked
set_open_locked-Evolves required now id c =
    OnOk-raise_if _ (not (is_open c.room)) 409 Code.room_closed _ λ live.
      Evolves-trans c _ _ (row-Evolves c _ (set_open_gate-RowEvolves required now c.room))
        (announce-Evolves _ _ now id)

pub set_seat_locked-Evolves :
    (machines : Table Machine) (agent : String) (machine_id : Option String) (now : ℕ) (id : String)
    (c : Chat)
    → OnOk (λ r. Evolves c r.1) (set_seat_locked machines agent machine_id now id c)
unfolding set_seat_locked assign_seat
set_seat_locked-Evolves machines agent machine_id now id c =
    OnOk-raise_if _ (not (is_open c.room)) 409 Code.room_closed _ λ live.
      OnOk-raise_if _ (is_none (find_member agent c.members)) 404 Code.room_member_not_found _
        λ known. OnOk-bind _ (new_seat_machine machines machine_id) _ λ machine _.
          Evolves-trans c _ _
            (SameButSeats-Evolves c _ (set_bound_machine-SameButSeats c agent machine))
            (announce-Evolves _ _ now id)
