-- ===== src/Rooms/Seats/Binding.antt =====
-- app/room_seats.py: which seats and rows a check changes.
use brainard.Prelude.{
  ◌∙◌, ap, ◌&&◌, is_some, Option-cases, Bool-cases, inl, inr, String, ◌≡◌, ◌≢◌, refl, Option, none,
  some, List, [], ◌∷◌, map, ◌==◌, eq_iff, arith, if◌then◌else◌,
}
use brainard.Errors.{Code, raise, OnOk}
use brainard.Model.{RoomMember, Chat, Principal, owner, machine}
use brainard.Rooms.Queries.{get_members}
use brainard.Rooms.Seats.{
  find_member, set_bound_machine, bind_seat, check_member_seat, check_and_bind_seat,
}

-- Binding a seat changes neither the room, nor the transcript, nor the members' names,
-- nor the attachments.
pub record SameButSeats (c b : Chat) : Type 0 where
  pub room : b.room ≡ c.room
  pub messages : b.messages ≡ c.messages
  pub agents : get_members b ≡ get_members c
  pub attachments : b.attachments ≡ c.attachments

abbrev names : List RoomMember → List String
names = map (λ m. m.agent_name)

names-set_bound_machine :
    (name : String) (id : Option String) (ms : List RoomMember)
    → names (set_bound_machine name id ms) ≡ names ms
unfolding set_bound_machine
names-set_bound_machine name id [] = refl
names-set_bound_machine name id (m ∷ ms) = ground (arith, names-set_bound_machine name id ms)

pub set_bound_machine-SameButSeats :
    (c : Chat) (name : String) (id : Option String)
    → SameButSeats c (record c { members = set_bound_machine name id c.members })
unfolding get_members
set_bound_machine-SameButSeats c name id = record {
  room = refl;
  messages = refl;
  agents = names-set_bound_machine name id c.members;
  attachments = refl;
}

SameButSeats-refl : (c : Chat) → SameButSeats c c
SameButSeats-refl c = record { room = refl; messages = refl; agents = refl; attachments = refl }

bind_seat-SameButSeats :
    (c : Chat) (sender id : String) (bound : Option String)
    → OnOk (SameButSeats c) (bind_seat c sender id bound)
unfolding bind_seat
bind_seat-SameButSeats c sender id none = set_bound_machine-SameButSeats c sender (some id)
bind_seat-SameButSeats c sender id (some o) = elim (Bool-cases (o == id)) [
  | inl same ↦ rw same (SameButSeats-refl c)
  | inr other ↦ rw other tt
]

check_member_seat-SameButSeats :
    (c : Chat) (sender id : String) (m : Option RoomMember)
    → OnOk (SameButSeats c) (check_member_seat c sender id m)
unfolding check_member_seat
check_member_seat-SameButSeats c sender id none = SameButSeats-refl c
check_member_seat-SameButSeats c sender id (some m) =
    bind_seat-SameButSeats c sender id m.bound_machine_id

pub check_and_bind_seat-SameButSeats :
    (c : Chat) (sender : String) (principal : Principal)
    → OnOk (SameButSeats c) (check_and_bind_seat c sender principal)
unfolding check_and_bind_seat
check_and_bind_seat-SameButSeats c sender owner = SameButSeats-refl c
check_and_bind_seat-SameButSeats c sender (machine id) =
    check_member_seat-SameButSeats c sender id (find_member sender c.members)

abbrev pub bound_machine : Option RoomMember → Option String
bound_machine none = none
bound_machine (some m) = m.bound_machine_id

-- The machine that a seat is bound to: none for an open seat and for a name that is no member.
unfoldable pub seat_machine : String → Chat → Option String
seat_machine name c = bound_machine (find_member name c.members)

seat-set_bound_machine :
    (name j : String) (id : Option String) (ms : List RoomMember)
    → bound_machine (find_member j (set_bound_machine name id ms))
      ≡ (if name == j && is_some (find_member j ms) then id else bound_machine (find_member j ms))
unfolding find_member set_bound_machine
seat-set_bound_machine name j id [] = ground arith
seat-set_bound_machine name j id (m ∷ ms) = ground (
  arith,
  seat-set_bound_machine name j id ms,
  eq_iff m.agent_name name,
  eq_iff m.agent_name j,
  eq_iff name j,
)

pub seat_machine-set_bound_machine :
    (c : Chat) (name j : String) (id : Option String)
    → seat_machine j (record c { members = set_bound_machine name id c.members })
      ≡ (if name == j && is_some (find_member j c.members) then id else seat_machine j c)
unfolding seat_machine
seat_machine-set_bound_machine c name j id = seat-set_bound_machine name j id c.members

-- The sender's seat, if there is one, is bound to `id`, and every other seat is as it was.
abbrev pub HasClaimed : String → String → Chat → Chat → Type 0
HasClaimed sender id c b =
    (j : String)
    → seat_machine j b
      ≡ (if sender == j && is_some (find_member j c.members) then some id else seat_machine j c)

HasClaimed-self :
    (c : Chat) (sender id : String) → seat_machine sender c ≡ some id → HasClaimed sender id c c
HasClaimed-self c sender id e j = elim (Bool-cases (sender == j)) [
  | inl same ↦
      let p : sender ≡ j = (eq_iff sender j).0 same in ground (arith, ap (λ k. seat_machine k c) p)
  | inr other ↦ rw other
]

bind_seat-HasClaimed :
    (c : Chat) (sender id : String) (bound : Option String)
    → seat_machine sender c ≡ bound
    → OnOk (HasClaimed sender id c) (bind_seat c sender id bound)
unfolding bind_seat
bind_seat-HasClaimed c sender id none e = λ j. seat_machine-set_bound_machine c sender j (some id)
bind_seat-HasClaimed c sender id (some o) e = elim (Bool-cases (o == id)) [
  | inl same ↦ rw same (HasClaimed-self c sender id (e ∙ ap some ((eq_iff o id).0 same)))
  | inr other ↦ rw other tt
]

check_member_seat-HasClaimed :
    (c : Chat) (sender id : String) (m : Option RoomMember)
    → find_member sender c.members ≡ m
    → OnOk (HasClaimed sender id c) (check_member_seat c sender id m)
unfolding check_member_seat
check_member_seat-HasClaimed c sender id none e = λ j. elim (Bool-cases (sender == j)) [
  | inl same ↦
      let p : sender ≡ j = (eq_iff sender j).0 same in
      ground (arith, ap (λ k. find_member k c.members) p)
  | inr other ↦ rw other
]
check_member_seat-HasClaimed c sender id (some m) e =
    bind_seat-HasClaimed c sender id m.bound_machine_id (unfold seat_machine in ap bound_machine e)

-- A write of machine `id` as `sender` that passes the check leaves the sender's seat, if the sender
-- is a member, bound to `id`, and every other seat as it was.
pub check_and_bind_seat-HasClaimed :
    (c : Chat) (sender id : String)
    → OnOk (HasClaimed sender id c) (check_and_bind_seat c sender (machine id))
unfolding check_and_bind_seat
check_and_bind_seat-HasClaimed c sender id =
    check_member_seat-HasClaimed c sender id (find_member sender c.members) refl

-- A seat that is bound to one machine refuses every other.
pub check_and_bind_seat-other :
    (c : Chat) (sender id : String) {bound : String}
    → seat_machine sender c ≡ some bound
    → bound ≢ id
    → check_and_bind_seat c sender (machine id) ≡ raise 403 Code.seat_bound_to_other_machine
unfolding check_and_bind_seat check_member_seat bind_seat seat_machine
check_and_bind_seat-other c sender id {bound} e ne =
    elim (Option-cases (find_member sender c.members)) [
      | inl absent ↦ ground arith
      | inr (m, found) ↦ ground (arith, eq_iff bound id)
    ]
