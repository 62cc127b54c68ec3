-- ===== src/Rooms/Validate.antt =====
-- app/rooms.py: the validators of `create_room` and `switch_room_mode`.
use Prim.Native.String.{count}
use brainard.Prelude.{
  ℕ, ◌+◌, ◌*◌, String, Bool, not, ◌&&◌, ◌||◌, Option, none, some, List, [], ◌∷◌, map, ◌==◌,
  if◌then◌else◌, ltb, leb, all, any, contains, is_none, get_or_else,
}
use brainard.Prelude.Text.{strip, is_empty}
use brainard.Prelude.Table.{Table, lookup, insert}
use brainard.Errors.{Code, Result, ok, raise, raise_if, ◌>>=◌, ◌>>◌}
use brainard.Model.{Machine, seconds}
use brainard.Modes.{RoomMode, default_mode}

-- A Python integer: `negsuc n` is -(n + 1).
pub data ℤ : Type 0 where
  pos : ℕ → ℤ
  negsuc : ℕ → ℤ

abbrev pub max_messages_min : ℕ
max_messages_min = 1

abbrev pub max_messages_max : ℕ
max_messages_max = 10000

abbrev pub default_max_messages : ℕ
default_max_messages = 100

abbrev pub consensus_floor_min : ℕ
consensus_floor_min = 1

abbrev pub consensus_floor_max : ℕ
consensus_floor_max = max_messages_max

abbrev pub default_consensus_floor : ℕ
default_consensus_floor = 20

abbrev pub stall_notify_secs_min : ℕ
stall_notify_secs_min = 300

abbrev pub stall_notify_secs_max : ℕ
stall_notify_secs_max = 7 * 24 * 3600

abbrev pub default_stall_notify_secs : ℕ
default_stall_notify_secs = 1200

abbrev pub min_duration_seconds : ℕ
min_duration_seconds = 1

abbrev pub max_duration_seconds : ℕ
max_duration_seconds = 30 * 24 * 3600

abbrev pub max_group_length : ℕ
max_group_length = 100

abbrev pub max_project_length : ℕ
max_project_length = 255

-- `lo <= value <= hi`, or the rejection.
unfoldable pub in_range : ℕ → ℕ → Code → ℤ → Result ℕ
in_range lo hi code (negsuc n) = raise 422 code
in_range lo hi code (pos n) = if leb lo n && leb n hi then ok n else raise 422 code

-- Exactly two names, neither empty, and distinct.
unfoldable pub check_members : List String → Result (List String)
check_members [] = raise 422 Code.invalid_room_members
check_members (a ∷ []) = raise 422 Code.invalid_room_members
check_members (a ∷ b ∷ []) = do
  raise_if (is_empty a || is_empty b) 422 Code.invalid_room_members
  raise_if (a == b) 422 Code.duplicate_room_members
  ok (a ∷ b ∷ [])
check_members (a ∷ b ∷ c ∷ more) = raise 422 Code.invalid_room_members

-- `_validate_members`
unfoldable pub validate_members : List String → Result (List String)
unfolding check_members
validate_members members = check_members (map strip members)

unfoldable pub validate_max_messages : Option ℤ → Result ℕ
unfolding in_range
validate_max_messages none = ok default_max_messages
validate_max_messages (some n) =
    in_range max_messages_min max_messages_max Code.invalid_max_messages n

unfoldable pub validate_consensus_floor : Option ℤ → Result ℕ
unfolding in_range
validate_consensus_floor none = ok default_consensus_floor
validate_consensus_floor (some n) =
    in_range consensus_floor_min consensus_floor_max Code.invalid_consensus_floor n

unfoldable pub validate_stall_notify_secs : Option ℤ → Result ℕ
unfolding in_range
validate_stall_notify_secs none = ok default_stall_notify_secs
validate_stall_notify_secs (some n) =
    in_range stall_notify_secs_min stall_notify_secs_max Code.invalid_stall_notify_secs n

-- `text.strip() or None`
abbrev pub non_blank : String → Option String
non_blank text = if is_empty text then none else some text

abbrev pub clean_topic : Option String → Option String
clean_topic none = none
clean_topic (some t) = non_blank (strip t)

unfoldable pub validate_topic : String → Option String → Result (Option String)
validate_topic mode topic = do
  raise_if (not (mode == default_mode) && is_none (clean_topic topic)) 422 Code.missing_room_topic
  ok (clean_topic topic)

-- A short label: trimmed, blank is none, at most `cap` characters.
unfoldable pub validate_label : ℕ → Code → Option String → Result (Option String)
validate_label cap code none = ok none
validate_label cap code (some label) = do
  let cleaned = strip label
  if is_empty cleaned
      then ok none
      else if ltb cap (count cleaned)
      then raise 422 code
      else ok (some cleaned)

unfoldable pub validate_group : Option String → Result (Option String)
unfolding validate_label
validate_group = validate_label max_group_length Code.invalid_room_group

unfoldable pub validate_project : Option String → Result (Option String)
unfolding validate_label
validate_project = validate_label max_project_length Code.invalid_room_project

unfoldable pub check_machine : String → Option Machine → Result String
check_machine id none = raise 422 Code.unknown_seat_machine
check_machine id (some m) =
    if m.status == "active" then ok id else raise 422 Code.seat_machine_not_active

-- The id of an existing, active machine for a seat.
unfoldable pub seat_machine_id : Table Machine → Code → String → Result String
unfolding check_machine
seat_machine_id machines blank id = do
  raise_if (is_empty (strip id)) 422 blank
  check_machine (strip id) (lookup (strip id) machines)

-- `dict.fromkeys(members)`
abbrev pub from_keys : List String → Table (Option String)
from_keys members = map (λ m. (m, none)) members

unfoldable pub assign_seats :
    Table Machine → Table (Option String) → Table (Option String) → Result (Table (Option String))
unfolding seat_machine_id
assign_seats machines [] resolved = ok resolved
assign_seats machines ((agent, none) ∷ seats) resolved = assign_seats machines seats resolved
assign_seats machines ((agent, some id) ∷ seats) resolved =
    seat_machine_id machines Code.invalid_room_seats id >>= λ machine_id.
    assign_seats machines seats (insert agent (some machine_id) resolved)

-- `_validate_seat_assignments`; an empty or absent `seats` leaves every seat open.
unfoldable pub validate_seat_assignments :
    Table Machine → List String → Table (Option String) → Result (Table (Option String))
unfolding assign_seats
validate_seat_assignments machines members seats = do
  raise_if (any (λ s. not (contains s.0 members)) seats) 422 Code.invalid_room_seats
  assign_seats machines seats (from_keys members)

-- `set(xs) == set(ys)`
abbrev pub is_same_set : List String → List String → Bool
is_same_set xs ys = all (λ x. contains x ys) xs && all (λ y. contains y xs) ys

unfoldable pub check_sides :
    Option (String × String) → List String → Table String → Result (Table (Option String))
check_sides none members given = ok (from_keys members)
check_sides (some (a, b)) members given = do
  raise_if
      (not (is_same_set (map (λ s. s.0) given) members)
        || not (is_same_set (map (λ s. s.1) given) (a ∷ b ∷ [])))
      422 Code.invalid_room_sides
  ok (map (λ s. (s.0, some s.1)) given)

-- `_validate_sides`
unfoldable pub validate_sides :
    RoomMode → List String → Option (Table String) → Result (Table (Option String))
unfolding check_sides
validate_sides d members sides = check_sides d.sides members (get_or_else sides [])

-- `d.get(key)` of a dict with optional values.
unfoldable pub get_value : String → Table (Option String) → Option String
get_value key d = get_or_else (lookup key d) none

-- `_validate_deadline`
unfoldable pub validate_deadline : ℕ → Option ℤ → Option ℕ → Result (Option ℕ)
unfolding in_range
validate_deadline now none none = ok none
validate_deadline now none (some t) = do
  raise_if (leb t now) 422 Code.invalid_room_deadline
  raise_if (ltb (now + seconds max_duration_seconds) t) 422 Code.invalid_room_deadline
  ok (some t)
validate_deadline now (some n) none = do
  n' ← in_range min_duration_seconds max_duration_seconds Code.invalid_room_deadline n
  ok (some (now + seconds n'))
validate_deadline now (some n) (some t) = raise 422 Code.invalid_room_deadline
