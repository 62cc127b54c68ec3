-- ===== src/Rooms/Switch.antt =====
-- app/rooms.py: `switch_room_mode` and its announcement.
use Prim.Native.String.{◌++◌}
use brainard.Prelude.{
  ℕ, String, not, ◌&&◌, Option, none, some, List, [], ◌∷◌, map, if◌then◌else◌, leb, get_or_else,
}
use brainard.Prelude.Decimal.{join}
use brainard.Prelude.Table.{Table, lookup}
use brainard.Errors.{Code, Result, ok, err, raise_if, ◌>>=◌, ◌>>◌}
use brainard.Model.{RoomMember, Chat, Hub, is_open}
use brainard.Modes.{RoomMode, validate_mode, role_text_for}
use brainard.Rooms.Queries.{get_members, is_consensus_gated, announce, with_existing_room}
use brainard.Rooms.Validate.{validate_topic, validate_sides, get_value}

-- "<agent> (<side label>): <role text>"
stance_line : RoomMode → Option String → Table (Option String) → String → String → String
stance_line d topic sides agent partner =
    let side = get_value agent sides in
    agent
    ++ (" ("
        ++ (get_or_else (lookup (get_or_else side "") d.side_labels) ""
            ++ ("): " ++ get_or_else (role_text_for d side (get_or_else topic "") partner) "")))

-- One line for each of the two members of an asymmetric mode.
stance_lines : RoomMode → Option String → Table (Option String) → List String → List String
unfolding stance_line
stance_lines d topic sides [] = []
stance_lines d topic sides (a ∷ []) = []
stance_lines d topic sides (a ∷ b ∷ more) =
    stance_line d topic sides a b ∷ stance_line d topic sides b a ∷ []

topic_part : Option String → List String → List String
topic_part none parts = parts
topic_part (some t) parts = ("Topic: " ++ (t ++ ".")) ∷ parts

stance_part : RoomMode → Option String → List String → Table (Option String) → List String
unfolding stance_lines
stance_part d topic members sides = elim d.role_text [
  | none ↦ []
  | some fn ↦
      if d.symmetric
      then ("Both agents: " ++ fn none (get_or_else topic "") "the other agent") ∷ []
      else stance_lines d topic sides members
]

-- `_mode_switch_announcement`
unfoldable pub mode_switch_announcement :
    RoomMode → Option String → List String → Table (Option String) → String
unfolding topic_part stance_part
mode_switch_announcement d topic members sides = join " " (
    ("Mode switched to " ++ (d.label ++ "."))
    ∷ topic_part topic (stance_part d topic members sides))

abbrev pub set_side : Table (Option String) → RoomMember → RoomMember
set_side sides m = record m { side = get_value m.agent_name sides }

-- The mode, the topic and the sides change together, and the agents are told.
unfoldable pub apply_switch :
    RoomMode → String → Option String → Table (Option String) → ℕ → String → Chat → String × Chat
apply_switch d mode topic sides now id c =
    let text = mode_switch_announcement d topic (get_members c) sides in
    let switched = record c {
      room = record c.room { mode = mode; topic = topic };
      members = map (set_side sides) c.members;
    } in
    (text, announce switched text now id)

unfoldable pub switch_locked :
    RoomMode
    → String
    → Option String
    → Option (Table String)
    → ℕ
    → String
    → Chat
    → Result (String × Chat)
switch_locked d mode topic sides now id c = do
  raise_if (not (is_open c.room)) 409 Code.room_closed
  raise_if (is_consensus_gated mode && leb c.max_messages c.consensus_floor) 409
      Code.consensus_floor_unreachable
  sides' ← validate_sides d (get_members c) sides
  ok (apply_switch d mode topic sides' now id c)

unfoldable pub validate_switch : String → Option String → Result (RoomMode × Option String)
validate_switch mode topic = do
  d ← validate_mode mode
  cleaned ← validate_topic mode topic
  ok (d, cleaned)

unfoldable pub switch_checked :
    Option Chat
    → String
    → String
    → Option (Table String)
    → ℕ
    → String
    → Hub
    → Result (RoomMode × Option String)
    → Result String × Hub
switch_checked seen room_id mode sides now id hub (err e) = (err e, hub)
switch_checked seen room_id mode sides now id hub (ok (d, topic)) =
    with_existing_room seen room_id (switch_locked d mode topic sides now id) hub

-- `switch_room_mode`, which returns the announcement.
unfoldable pub switch_room_mode :
    Option Chat
    → String
    → String
    → Option String
    → Option (Table String)
    → ℕ
    → String
    → Hub
    → Result String × Hub
switch_room_mode seen room_id mode topic sides now id hub =
    switch_checked seen room_id mode sides now id hub (validate_switch mode topic)
