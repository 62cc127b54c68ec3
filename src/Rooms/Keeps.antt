-- ===== src/Rooms/Keeps.antt =====
-- app/rooms.py: the bodies of the owner's operations, and the well-formedness of their room.
use brainard.Prelude.{
  ℕ, ◌+◌, String, Bool, false, not, ◌&&◌, ◌≡◌, refl, ap, ◌∙◌, Option, none, some, List, [], ◌∷◌,
  map, ◌==◌, arith, leb, is_none, is_some, get_or_else, Bool-cases, inl, inr,
}
use brainard.Prelude.Table.{Table}
use brainard.Errors.{Code, OnOk, OnOk-bind, OnOk-raise_if}
use brainard.Model.{Room, RoomMember, RoomMessage, Chat, Machine, is_open}
use brainard.Modes.{RoomMode}
use brainard.Rooms.Queries.{get_members, is_consensus_gated}
use brainard.Rooms.Messages.{Numbered, count_live, has_owner_message}
use brainard.Rooms.Invariant.{IsConsistent, IsSound, announce-IsSound}
use brainard.Rooms.Seats.{find_member}
use brainard.Rooms.Seats.Binding.{set_bound_machine-SameButSeats}
use brainard.Rooms.Validate.{validate_sides}
use brainard.Rooms.Post.{start_timer}
use brainard.Rooms.Post.Keeps.{SameButSeats-IsSound, close_if-IsSound, recount-IsConsistent}
use brainard.Rooms.Close.{apply_close, close_locked, nudge}
use brainard.Rooms.Tombstone.{find_message, bury, delete_found, delete_locked}
use brainard.Rooms.Switch.{set_side, apply_switch, switch_locked}
use brainard.Rooms.Toggle.{
  set_uploads_locked, set_open_gate, set_open_locked, new_seat_machine, assign_seat,
  set_seat_locked,
}

-- A new row for the room, with the same count.
pub room-IsSound :
    (c : Chat) (r : Room)
    → IsSound c
    → r.message_count ≡ c.message_count
    → IsConsistent r (has_owner_message c.messages)
    → IsSound (record c { room = r })
unfolding get_members
room-IsSound c r h e row = record {
  transcript = record { numbered = h.transcript.numbered; counted = e ∙ h.transcript.counted };
  row = row;
  agents = h.agents;
}

-- New member rows, of the same names.
pub members-IsSound :
    (c : Chat) (ms : List RoomMember)
    → IsSound c
    → map (λ m. m.agent_name) ms ≡ map (λ m. m.agent_name) c.members
    → IsSound (record c { members = ms })
unfolding get_members
members-IsSound c ms h e = record {
  transcript = record { numbered = h.transcript.numbered; counted = h.transcript.counted };
  row = h.row;
  agents = rw e h.agents;
}

-- Closing an open room, or leaving a closed one as it is.
pub close_locked-IsSound :
    (reason : Option String) (now : ℕ) (c : Chat)
    → IsSound c
    → OnOk (λ r. IsSound r.1) (close_locked reason now c)
unfolding close_locked apply_close
close_locked-IsSound reason now c h = elim (Bool-cases (is_open c.room)) [
  | inl live ↦ rw live (close_if-IsSound (some (get_or_else reason "owner")) now c h)
  | inr done ↦ rw done h
]

pub nudge-IsSound :
    (text : String) (now : ℕ) (id : String) (c : Chat) → IsSound c → IsSound (nudge text now id c).1
unfolding nudge
nudge-IsSound text now id c h = elim (Bool-cases (is_open c.room && is_none c.closing_warned_at)) [
  | inl due ↦ rw due (announce-IsSound _ text now id (room-IsSound c _ h refl (ground arith)))
  | inr no_more ↦ rw no_more h
]

Numbered-bury :
    (k : ℕ) (id : String) (now : ℕ) (ms : List RoomMessage)
    → Numbered k ms
    → Numbered k (bury id now ms)
unfolding bury
Numbered-bury k id now [] h = tt
Numbered-bury k id now (m ∷ ms) h = elim (Bool-cases (m.id == id)) [
  | inl found ↦ rw found (h.0, h.1)
  | inr other ↦ rw other (h.0, Numbered-bury _ id now ms h.1)
]

-- A live message that is buried is counted no more.
pub count_live-bury :
    (id : String) (now : ℕ) (ms : List RoomMessage) (m : RoomMessage)
    → find_message id ms ≡ some m
    → m.deleted_at ≡ none
    → count_live (bury id now ms) + 1 ≡ count_live ms
unfolding bury find_message
count_live-bury id now [] m e live = cc
count_live-bury id now (x ∷ ms) m e live = ground (arith, count_live-bury id now ms m)

has_owner_message-bury :
    (id : String) (now : ℕ) (ms : List RoomMessage)
    → has_owner_message (bury id now ms) ≡ has_owner_message ms
unfolding bury
has_owner_message-bury id now [] = refl
has_owner_message-bury id now (m ∷ ms) = ground (arith, has_owner_message-bury id now ms)

is_some-false {ℓ} : {A : Type ℓ} (o : Option A) → is_some o ≡ false → o ≡ none
is_some-false none h = refl
is_some-false (some a) h = cc

delete_found-IsSound :
    (id : String) (now : ℕ) (c : Chat) (o : Option RoomMessage)
    → find_message id c.messages ≡ o
    → IsSound c
    → OnOk (λ r. IsSound r.1) (delete_found id now c o)
unfolding delete_found get_members
delete_found-IsSound id now c none e h = tt
delete_found-IsSound id now c (some m) e h = elim (Bool-cases (is_some m.deleted_at)) [
  | inl dead ↦ rw dead h
  | inr live ↦ rw live (record {
    transcript = record {
      numbered = Numbered-bury 1 id now c.messages h.transcript.numbered;
      counted = omega (
        arith,
        count_live-bury id now c.messages m e (is_some-false m.deleted_at live),
        h.transcript.counted,
      );
    };
    row = rw has_owner_message-bury (recount-IsConsistent _ c.room _ h.row);
    agents = h.agents;
  })
]

pub delete_locked-IsSound :
    (id : String) (now : ℕ) (c : Chat)
    → IsSound c
    → OnOk (λ r. IsSound r.1) (delete_locked id now c)
unfolding delete_locked
delete_locked-IsSound id now c h = delete_found-IsSound id now c (find_message id c.messages) refl h

pub names-set_side :
    (sides : Table (Option String)) (ms : List RoomMember)
    → map (λ m. m.agent_name) (map (set_side sides) ms) ≡ map (λ m. m.agent_name) ms
names-set_side sides [] = refl
names-set_side sides (m ∷ ms) = ap (λ ns. m.agent_name ∷ ns) (names-set_side sides ms)

pub switch_locked-IsSound :
    (d : RoomMode) (mode : String) (topic : Option String) (sides : Option (Table String)) (now : ℕ)
    (id : String) (c : Chat)
    → IsSound c
    → OnOk (λ r. IsSound r.1) (switch_locked d mode topic sides now id c)
unfolding switch_locked apply_switch
switch_locked-IsSound d mode topic sides now id c h =
    OnOk-raise_if _ (not (is_open c.room)) 409 Code.room_closed _ λ live.
      OnOk-raise_if _ (is_consensus_gated mode && leb c.max_messages c.consensus_floor) 409
        Code.consensus_floor_unreachable _
        λ reachable. OnOk-bind _ (validate_sides d (get_members c) sides) _ λ sides' _.
          announce-IsSound _ _ now id (
            members-IsSound (record c { room = record c.room { mode = mode; topic = topic } })
              (map (set_side sides') c.members) (room-IsSound c _ h refl (ground arith))
              (names-set_side sides' c.members))

pub set_uploads_locked-IsSound :
    (allowed : Bool) (now : ℕ) (id : String) (c : Chat)
    → IsSound c
    → OnOk (λ r. IsSound r.1) (set_uploads_locked allowed now id c)
unfolding set_uploads_locked
set_uploads_locked-IsSound allowed now id c h =
    OnOk-raise_if _ (not (is_open c.room)) 409 Code.room_closed _
      λ live. announce-IsSound _ _ now id (room-IsSound c _ h refl (ground arith))

set_open_gate-IsConsistent :
    (required : Bool) (now : ℕ) (r : Room) (o : Bool)
    → IsConsistent r o
    → IsConsistent (set_open_gate required now r) o
unfolding set_open_gate start_timer
set_open_gate-IsConsistent required now r o h = ground arith

set_open_gate-count :
    (required : Bool) (now : ℕ) (r : Room)
    → (set_open_gate required now r).message_count ≡ r.message_count
unfolding set_open_gate start_timer
set_open_gate-count required now r = ground arith

pub set_open_locked-IsSound :
    (required : Bool) (now : ℕ) (id : String) (c : Chat)
    → IsSound c
    → OnOk (λ r. IsSound r.1) (set_open_locked required now id c)
unfolding set_open_locked
set_open_locked-IsSound required now id c h =
    OnOk-raise_if _ (not (is_open c.room)) 409 Code.room_closed _ λ live.
      announce-IsSound _ _ now id (
        room-IsSound c (set_open_gate required now c.room) h
          (set_open_gate-count required now c.room)
          (set_open_gate-IsConsistent required now c.room _ h.row))

pub set_seat_locked-IsSound :
    (machines : Table Machine) (agent : String) (machine_id : Option String) (now : ℕ) (id : String)
    (c : Chat)
    → IsSound c
    → OnOk (λ r. IsSound r.1) (set_seat_locked machines agent machine_id now id c)
unfolding set_seat_locked assign_seat
set_seat_locked-IsSound machines agent machine_id now id c h =
    OnOk-raise_if _ (not (is_open c.room)) 409 Code.room_closed _ λ live.
      OnOk-raise_if _ (is_none (find_member agent c.members)) 404 Code.room_member_not_found _
        λ known. OnOk-bind _ (new_seat_machine machines machine_id) _ λ machine _.
          announce-IsSound _ _ now id
            (SameButSeats-IsSound c _ (set_bound_machine-SameButSeats c agent machine) h)
