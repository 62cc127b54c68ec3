-- ===== src/Rooms/Create/Seated.antt =====
-- app/rooms.py, `_validate_seat_assignments` and the seats of a new room.
use mathlib.Core.Path.{subst}
use mathlib.Core.Option.{some-injective}
use brainard.Prelude.{
  ℕ, String, Bool, true, false, not, ◌&&◌, ◌≡◌, refl, sym, ap, ◌∙◌, Option, none, some, List, [],
  ◌∷◌, map, ◌==◌, eq_iff, arith, any, contains, if◌then◌else◌, Bool-cases, inl, inr, leb,
}
use brainard.Prelude.Text.{strip, is_empty}
use brainard.Prelude.Table.{Table, lookup, insert, lookup-insert}
use brainard.Errors.{Code, Result, ok, err, OnOk, OnOk-eq, OnOk-bind, OnOk-raise_if}
use brainard.Model.{Hub, Machine}
use brainard.Modes.{validate_mode}
use brainard.Rooms.Queries.{is_consensus_gated}
use brainard.Rooms.Seats.{find_member}
use brainard.Rooms.Seats.Binding.{bound_machine, seat_machine}
use brainard.Rooms.Validate.{
  check_machine, seat_machine_id, from_keys, assign_seats, validate_seat_assignments, get_value,
  validate_members, validate_max_messages, validate_topic, validate_sides, validate_group,
  validate_project, validate_consensus_floor, validate_stall_notify_secs, validate_deadline,
}
use brainard.Rooms.Create.{
  RoomRequest, ValidRoom, validate_room, new_member, new_chat, store_room, create_room,
}

abbrev pub is_active : Table Machine → String → Bool
is_active machines id = elim (lookup id machines) [ none ↦ false | some m ↦ m.status == "active" ]

-- Every machine that the table names is registered and active.
pub record AreActive (machines : Table Machine) (seats : Table (Option String)) : Type 0 where
  pub at : (agent id : String) → lookup agent seats ≡ some (some id) → is_active machines id ≡ true

check_machine-active :
    (machines : Table Machine) (id : String)
    → OnOk (λ m. is_active machines m ≡ true) (check_machine id (lookup id machines))
unfolding check_machine
check_machine-active machines id = found (lookup id machines) refl
  where
    found :
        (o : Option Machine)
        → lookup id machines ≡ o
        → OnOk (λ m. is_active machines m ≡ true) (check_machine id o)
    found none e = tt
    found (some m) e = elim (Bool-cases (m.status == "active")) [
      | inl active ↦ rw active (rw (e, is_active) active)
      | inr other ↦ rw other tt
    ]

seat_machine_id-active :
    (machines : Table Machine) (blank : Code) (id : String)
    → OnOk (λ m. is_active machines m ≡ true) (seat_machine_id machines blank id)
unfolding seat_machine_id
seat_machine_id-active machines blank id =
    OnOk-raise_if _ (is_empty (strip id)) 422 blank _
      λ given. check_machine-active machines (strip id)

insert-AreActive :
    (machines : Table Machine) (seats : Table (Option String)) (agent id : String)
    → AreActive machines seats
    → is_active machines id ≡ true
    → AreActive machines (insert agent (some id) seats)
insert-AreActive machines seats agent id h active = record {
  at = λ j k found. written (agent == j) j k (sym (lookup-insert agent j (some id) seats) ∙ found);
}
  where
    written :
        (b : Bool) (j k : String)
        → (if b then some (some id) else lookup j seats) ≡ some (some k)
        → is_active machines k ≡ true
    written true j k p =
        subst (λ i. is_active machines i ≡ true)
          (some-injective id k (some-injective (some id) (some k) p)) active
    written false j k p = h.at j k p

assign_seats-AreActive :
    (machines : Table Machine) (seats resolved : Table (Option String))
    → AreActive machines resolved
    → OnOk (AreActive machines) (assign_seats machines seats resolved)
unfolding assign_seats
assign_seats-AreActive machines [] resolved h = h
assign_seats-AreActive machines ((agent, none) ∷ seats) resolved h =
    assign_seats-AreActive machines seats resolved h
assign_seats-AreActive machines ((agent, some id) ∷ seats) resolved h =
    OnOk-bind _ (seat_machine_id machines Code.invalid_room_seats id) _ λ m e.
      assign_seats-AreActive machines seats (insert agent (some m) resolved) (
        insert-AreActive machines resolved agent m h
          (OnOk-eq _ _ (seat_machine_id-active machines Code.invalid_room_seats id) e))

from_keys-open : (ms : List String) (j id : String) → lookup j (from_keys ms) ≡ some (some id) → ⊥
unfolding lookup
from_keys-open [] j id e = cc
from_keys-open (m ∷ ms) j id e = ground (arith, from_keys-open ms j id)

validate_seat_assignments-AreActive :
    (machines : Table Machine) (members : List String) (seats : Table (Option String))
    → OnOk (AreActive machines) (validate_seat_assignments machines members seats)
unfolding validate_seat_assignments
validate_seat_assignments-AreActive machines members seats =
    OnOk-raise_if _ (any (λ s. not (contains s.0 members)) seats) 422 Code.invalid_room_seats _
      λ known.
        assign_seats-AreActive machines seats (from_keys members)
          (record { at = λ j id e. elim (from_keys-open members j id e) [ ] })

validate_room-AreActive :
    (machines : Table Machine) (now : ℕ) (q : RoomRequest)
    → OnOk (λ v. AreActive machines v.seats) (validate_room machines now q)
unfolding validate_room
validate_room-AreActive machines now q =
    OnOk-raise_if _ (is_empty (strip q.name)) 422 Code.invalid_room_name _ λ named.
      OnOk-bind _ (validate_members q.members) _ λ members em.
        OnOk-bind _ (validate_max_messages q.max_messages) _ λ max emax.
          OnOk-bind _ (validate_mode q.mode) _ λ d ed.
            OnOk-bind _ (validate_topic q.mode q.topic) _ λ topic et.
              OnOk-bind _ (validate_sides d members q.sides) _ λ sides es.
                OnOk-bind _ (validate_group q.group) _ λ group eg.
                  OnOk-bind _ (validate_project q.project) _ λ project ep.
                    OnOk-bind _ (validate_consensus_floor q.consensus_floor) _ λ floor ef.
                      OnOk-bind _ (validate_stall_notify_secs q.stall_notify_secs) _ λ stall est.
                        OnOk-bind _ (validate_seat_assignments machines members q.seat_machines) _
                          λ seats esm.
                            OnOk-raise_if _ (is_consensus_gated q.mode && leb max floor) 422
                              Code.consensus_floor_unreachable _
                              λ reachable.
                                OnOk-bind _ (validate_deadline now q.duration_seconds q.expires_at)
                                  _
                                  λ deadline edl.
                                    OnOk-eq _ _
                                      (validate_seat_assignments-AreActive machines members
                                        q.seat_machines)
                                      esm

new_member-seat :
    (now : ℕ) (v : ValidRoom) (ms : List String) (j id : String)
    → bound_machine (find_member j (map (new_member now v) ms)) ≡ some id
    → get_value j v.seats ≡ some id
unfolding new_member find_member
new_member-seat now v [] j id e = cc
new_member-seat now v (m ∷ ms) j id e =
    ground (arith, new_member-seat now v ms j id, eq_iff m j, ap (λ k. get_value k v.seats))

get_value-some :
    (j id : String) (t : Table (Option String))
    → get_value j t ≡ some id
    → lookup j t ≡ some (some id)
unfolding get_value
get_value-some j id t e = ground arith

-- Every seat of a new room that is bound is bound to a registered, active machine.
pub create_room-is_active :
    (room_id : String) (now : ℕ) (q : RoomRequest) (hub : Hub)
    → OnOk
        (λ c.
          (agent id : String) → seat_machine agent c ≡ some id → is_active hub.machines id ≡ true)
        (create_room room_id now q hub).0
unfolding create_room store_room new_chat seat_machine
create_room-is_active room_id now q hub =
    stored (validate_room hub.machines now q) (validate_room-AreActive hub.machines now q)
  where
    stored :
        (r : Result ValidRoom)
        → OnOk (λ v. AreActive hub.machines v.seats) r
        → OnOk
            (λ c.
              (agent id : String)
              → seat_machine agent c ≡ some id
              → is_active hub.machines id ≡ true)
            (store_room room_id now q hub r).0
    stored (err e) h = tt
    stored (ok v) h = λ agent id e.
        h.at agent id (get_value-some agent id v.seats (new_member-seat now v v.members agent id e))
