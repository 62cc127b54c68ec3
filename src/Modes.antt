-- ===== src/Modes.antt =====
-- app/room_modes.py: the five modes of a room, their sides and the texts that brief the agents.
use Prim.Native.String.{◌++◌}
use brainard.Prelude.{
  ℕ, String, Bool, true, false, Option, none, some, [], ◌∷◌, ◌==◌, if◌then◌else◌,
}
use brainard.Prelude.Decimal.{decimal}
use brainard.Prelude.Table.{Table}
use brainard.Errors.{Code, Result, ok, raise}

abbrev pub default_mode : String
default_mode = "freeform"

-- A side is none in a symmetric mode. The two functions take (side, topic, partner) and
-- (side, consensus_floor).
pub record RoomMode : Type 0 where
  pub label : String
  pub symmetric : Bool
  pub sides : Option (String × String)
  pub side_labels : Table String
  pub role_text : Option (Option String → String → String → String)
  pub closing_instruction : Option (Option String → ℕ → String)

-- `side == name`, for a side that may be None.
abbrev is_side : String → Option String → Bool
is_side name none = false
is_side name (some side) = side == name

debate_role_text : Option String → String → String → String
debate_role_text side topic partner =
    if is_side "for" side
    then "You argue FOR the proposition: "
      ++ (topic ++ ". Make the strongest case for it, rebut your opponent, stay substantive.")
    else "You argue AGAINST the proposition: "
      ++ (topic ++ ". Make the strongest case against it, rebut your opponent, stay substantive.")

consensus_gate_note : ℕ → String
consensus_gate_note consensus_floor =
    "Before a \"done\" post can close this room as agreed, this room requires at least "
    ++ (decimal consensus_floor
        ++ (" messages AND both you and your partner to have each posted at least one message with an added "
            ++ ("\"kind\": \"objection\" field -- your strongest remaining objection, or an explicit statement that you "
                ++ "have none. State it whenever you're ready; it doesn't have to be your last message before \"done\".")))

debate_closing : Option String → ℕ → String
unfolding consensus_gate_note
debate_closing side consensus_floor =
    "As the deadline nears (you'll get a system notice), post a closing statement summarizing your "
    ++ ("strongest points. " ++ consensus_gate_note consensus_floor)

collaborate_role_text : Option String → String → String → String
collaborate_role_text side topic partner =
    "Collaborate with "
    ++ (partner
        ++ (" to "
            ++ (topic ++ ". Build on each other's contributions and converge on the best result.")))

collaborate_closing : Option String → ℕ → String
collaborate_closing side consensus_floor =
    "When wrapping up, post a short summary of what you concluded or produced together."

brainstorm_role_text : Option String → String → String → String
brainstorm_role_text side topic partner =
    "Brainstorm ideas about "
    ++ (topic
        ++ (" with "
            ++ (partner
                ++ (". Go wide, defer judgment, build on each other's "
                    ++ "ideas rather than critiquing them."))))

brainstorm_closing : Option String → ℕ → String
brainstorm_closing side consensus_floor =
    "When wrapping up, post a consolidated list of the best ideas."

critique_role_text : Option String → String → String → String
critique_role_text side topic partner =
    if is_side "proposer" side
    then "Present and defend your proposal: "
      ++ (topic ++ ". Respond to the critic's objections and refine it.")
    else "Stress-test and red-team the proposal: "
      ++ (topic ++ ". Find flaws, edge cases, and failure modes; be rigorous but fair.")

critique_closing : Option String → ℕ → String
unfolding consensus_gate_note
critique_closing side consensus_floor =
    (if is_side "proposer" side
      then "When wrapping up, post a revised proposal accounting for the critique."
      else "When wrapping up, post your top remaining concerns.")
    ++ (" " ++ consensus_gate_note consensus_floor)

abbrev symmetric_mode :
    String
    → Option (Option String → String → String → String)
    → Option (Option String → ℕ → String)
    → RoomMode
symmetric_mode label role closing = record {
  label = label;
  symmetric = true;
  sides = none;
  side_labels = [];
  role_text = role;
  closing_instruction = closing;
}

-- `ROOM_MODES.get(mode)`
unfoldable pub room_modes : String → Option RoomMode
unfolding debate_role_text debate_closing collaborate_role_text collaborate_closing
    brainstorm_role_text brainstorm_closing critique_role_text critique_closing
room_modes mode =
    if mode == "freeform"
    then some (symmetric_mode "Freeform" none none)
    else if mode == "debate"
    then some (record {
      label = "Debate";
      symmetric = false;
      sides = some ("for", "against");
      side_labels = ("for", "For") ∷ ("against", "Against") ∷ [];
      role_text = some debate_role_text;
      closing_instruction = some debate_closing;
    })
    else if mode == "collaborate"
    then some (symmetric_mode "Collaborate" (some collaborate_role_text) (some collaborate_closing))
    else if mode == "brainstorm"
    then some (symmetric_mode "Brainstorm" (some brainstorm_role_text) (some brainstorm_closing))
    else if mode == "critique"
    then some (record {
      label = "Critique";
      symmetric = false;
      sides = some ("proposer", "critic");
      side_labels = ("proposer", "Proposer") ∷ ("critic", "Critic") ∷ [];
      role_text = some critique_role_text;
      closing_instruction = some critique_closing;
    })
    else none

abbrev found_mode : Option RoomMode → Result RoomMode
found_mode none = raise 422 Code.invalid_room_mode
found_mode (some d) = ok d

-- `validate_mode`, which hands on the definition that its callers then look up.
unfoldable pub validate_mode : String → Result RoomMode
validate_mode mode = found_mode (room_modes mode)

unfoldable pub role_text_for : RoomMode → Option String → String → String → Option String
role_text_for d side topic partner = elim d.role_text [
  | none ↦ none
  | some fn ↦ some (fn side topic partner)
]

unfoldable pub closing_instruction_for : RoomMode → Option String → ℕ → Option String
closing_instruction_for d side consensus_floor = elim d.closing_instruction [
  | none ↦ none
  | some fn ↦ some (fn side consensus_floor)
]
