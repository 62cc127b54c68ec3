-- ===== src/Rooms/Create/Sound.antt =====
-- app/rooms.py, the validators of `create_room` and the rows of a new room.
use brainard.Prelude.{
  ℕ, ◌≤◌, ◌<◌, ◌+◌, ◌*◌, ◌||◌, String, true, false, ◌&&◌, ◌≡◌, refl, Option, none, some, List, [],
  ◌∷◌, map, arith, leb, ◌==◌,
}
use brainard.Prelude.Text.{strip, is_empty}
use brainard.Prelude.Table.{Table}
use brainard.Errors.{Code, OnOk, OnOk-eq, OnOk-bind, OnOk-raise_if}
use brainard.Model.{seconds, Machine}
use brainard.Modes.{validate_mode}
use brainard.Rooms.Queries.{is_consensus_gated, get_members}
use brainard.Rooms.Validate.{
  ℤ, pos, negsuc, check_members, validate_members, validate_max_messages, validate_consensus_floor,
  validate_stall_notify_secs, validate_topic, validate_group, validate_project,
  validate_seat_assignments, validate_sides, validate_deadline, in_range,
}
use brainard.Rooms.Invariant.{is_pair_of_agents, IsSound, IsConsistent}
use brainard.Rooms.Create.{RoomRequest, ValidRoom, validate_room, new_room, new_member, new_chat}

check_members-pair : (ms : List String) → OnOk (λ v. is_pair_of_agents v ≡ true) (check_members ms)
unfolding check_members
check_members-pair [] = tt
check_members-pair (a ∷ []) = tt
check_members-pair (a ∷ b ∷ []) =
    OnOk-raise_if _ (is_empty a || is_empty b) 422 Code.invalid_room_members _
      λ named. OnOk-raise_if _ (a == b) 422 Code.duplicate_room_members _ λ distinct. ground arith
check_members-pair (a ∷ b ∷ c ∷ ms) = tt

in_range-bounds :
    (lo hi : ℕ) (code : Code) (n : ℤ) → OnOk (λ m. (lo ≤ m) × (m ≤ hi)) (in_range lo hi code n)
unfolding in_range
in_range-bounds lo hi code (pos n) = ground arith
in_range-bounds lo hi code (negsuc n) = tt

validate_max_messages-bounds :
    (n : Option ℤ) → OnOk (λ m. (1 ≤ m) × (m ≤ 10000)) (validate_max_messages n)
unfolding validate_max_messages
validate_max_messages-bounds none = omega arith
validate_max_messages-bounds (some n) = in_range-bounds _ _ _ n

validate_consensus_floor-bounds :
    (n : Option ℤ) → OnOk (λ m. (1 ≤ m) × (m ≤ 10000)) (validate_consensus_floor n)
unfolding validate_consensus_floor
validate_consensus_floor-bounds none = omega arith
validate_consensus_floor-bounds (some n) = in_range-bounds _ _ _ n

validate_stall_notify_secs-bounds :
    (n : Option ℤ) → OnOk (λ m. (300 ≤ m) × (m ≤ 604_800)) (validate_stall_notify_secs n)
unfolding validate_stall_notify_secs
validate_stall_notify_secs-bounds none = omega arith
validate_stall_notify_secs-bounds (some n) = in_range-bounds _ _ _ n

-- A deadline lies after `now`, by at most 30 days.
abbrev pub IsDeadline : ℕ → Option ℕ → Type 0
IsDeadline now none = Unit
IsDeadline now (some t) = (now < t) × (t ≤ now + seconds (30 * 86_400))

validate_deadline-IsDeadline :
    (now : ℕ) (d : Option ℤ) (t : Option ℕ) → OnOk (IsDeadline now) (validate_deadline now d t)
unfolding validate_deadline in_range
validate_deadline-IsDeadline now none none = tt
validate_deadline-IsDeadline now none (some t) = ground arith
validate_deadline-IsDeadline now (some (pos n)) none = ground arith
validate_deadline-IsDeadline now (some (negsuc n)) none = tt
validate_deadline-IsDeadline now (some n) (some t) = tt

-- The rows of a new room, as the validators hand them on.
pub record IsValid (now : ℕ) (q : RoomRequest) (v : ValidRoom) : Type 0 where
  pub agents : is_pair_of_agents v.members ≡ true
  pub floor : (is_consensus_gated q.mode && leb v.max_messages v.consensus_floor) ≡ false
  pub max_range : (1 ≤ v.max_messages) × (v.max_messages ≤ 10000)
  pub floor_range : (1 ≤ v.consensus_floor) × (v.consensus_floor ≤ 10000)
  pub stall_range : (300 ≤ v.stall_notify_secs) × (v.stall_notify_secs ≤ 604_800)
  pub deadline : IsDeadline now v.deadline

-- A request that the validators accept gives two distinct, non-empty agent names, a floor that can
-- be reached in a gated mode, limits in their ranges, and a deadline, if any, after `now` and within
-- 30 days of it.
pub validate_room-IsValid :
    (machines : Table Machine) (now : ℕ) (q : RoomRequest)
    → OnOk (IsValid now q) (validate_room machines now q)
unfolding validate_room validate_members
validate_room-IsValid machines now q =
    OnOk-raise_if _ (is_empty (strip q.name)) 422 Code.invalid_room_name _ λ named.
      OnOk-bind _ (validate_members q.members) _ λ members em.
        OnOk-bind _ (validate_max_messages q.max_messages) _ λ max emax.
          OnOk-bind _ (validate_mode q.mode) _ λ d ed.
            OnOk-bind _ (validate_topic q.mode q.topic) _ λ topic et.
              OnOk-bind _ (validate_sides d members q.sides) _ λ sides es.
                OnOk-bind _ (validate_group q.group) _ λ group eg.
                  OnOk-bind _ (validate_project q.project) _ λ project ep.
                    OnOk-bind _ (validate_consensus_floor q.consensus_floor) _ λ floor ef.
                      OnOk-bind _ (validate_stall_notify_secs q.stall_notify_secs) _ λ stall est.
                        OnOk-bind _ (validate_seat_assignments machines members q.seat_machines) _
                          λ seats esm.
                            OnOk-raise_if _ (is_consensus_gated q.mode && leb max floor) 422
                              Code.consensus_floor_unreachable _
                              λ reachable.
                                OnOk-bind _ (validate_deadline now q.duration_seconds q.expires_at)
                                  _
                                  λ deadline edl. record {
                                    agents =
                                        OnOk-eq _ (validate_members q.members)
                                          (check_members-pair (map strip q.members)) em;
                                    floor = reachable;
                                    max_range =
                                        OnOk-eq _ _ (validate_max_messages-bounds q.max_messages)
                                          emax;
                                    floor_range =
                                        OnOk-eq _ _
                                          (validate_consensus_floor-bounds q.consensus_floor) ef;
                                    stall_range =
                                        OnOk-eq _ _
                                          (validate_stall_notify_secs-bounds q.stall_notify_secs)
                                          est;
                                    deadline =
                                        OnOk-eq (IsDeadline now) _
                                          (validate_deadline-IsDeadline now q.duration_seconds
                                            q.expires_at)
                                          edl;
                                  }

agents-new_member :
    (now : ℕ) (v : ValidRoom) (ms : List String)
    → map (λ m. m.agent_name) (map (new_member now v) ms) ≡ ms
unfolding new_member
agents-new_member now v [] = refl
agents-new_member now v (m ∷ ms) = rw (agents-new_member now v ms)

new_room-IsConsistent :
    (now : ℕ) (q : RoomRequest) (v : ValidRoom)
    → IsValid now q v
    → IsConsistent (new_room now q v) false
unfolding new_room
new_room-IsConsistent now q v h = record {
  closed_instant = refl;
  closed_reason = refl;
  opened = refl;
  timer = ground arith;
  floor = h.floor;
}

pub new_chat-IsSound :
    (now : ℕ) (q : RoomRequest) (v : ValidRoom) → IsValid now q v → IsSound (new_chat now q v)
unfolding new_chat get_members
new_chat-IsSound now q v h = record {
  transcript = record { numbered = tt; counted = unfold new_room in refl };
  row = new_room-IsConsistent now q v h;
  agents = rw (agents-new_member now v v.members) h.agents;
}
