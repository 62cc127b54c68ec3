-- ===== src/Rooms/Consensus.antt =====
-- app/rooms.py: the gate of an agent's "done" in a debate or a critique.
use brainard.Prelude.{
  ℕ, ◌-◌, String, Bool, not, ◌&&◌, ◌||◌, Option, none, some, List, map, ◌==◌, if◌then◌else◌, any,
  keep, eqb, is_nil,
}
use brainard.Errors.{Code, Result, ok, raise_if}
use brainard.Model.{RoomMessage, Chat}
use brainard.Rooms.Queries.{get_members, is_consensus_gated}

-- The state of the consensus gate, for the room view and for the gate itself.
pub record GateStatus : Type 0 where
  pub consensus_floor : ℕ
  pub message_count : ℕ
  pub messages_needed : ℕ
  pub objectors : List (String × Bool)

-- `member in objectors`: a sender of at least one message of kind "objection", deleted or not.
unfoldable pub has_objected : List RoomMessage → String → Bool
has_objected ms member = any (λ m. m.kind == "objection" && m.sender == member) ms

unfoldable pub get_consensus_gate_status : Chat → Option GateStatus
unfolding has_objected is_consensus_gated get_members
get_consensus_gate_status c =
    if is_consensus_gated c.mode
    then some (record {
      consensus_floor = c.consensus_floor;
      message_count = c.message_count;
      messages_needed = c.consensus_floor - c.message_count;
      objectors = map (λ m. (m, has_objected c.messages m)) (get_members c);
    })
    else none

-- `missing_objectors`
unfoldable pub missing_objectors : List (String × Bool) → List String
missing_objectors os = map (λ o. o.0) (keep (λ o. not o.1) os)

unfoldable pub check_gate_status : Option GateStatus → Result (Unit {0})
unfolding missing_objectors
check_gate_status none = ok tt
check_gate_status (some s) =
    raise_if (not (eqb s.messages_needed 0 && is_nil (missing_objectors s.objectors))) 409
      Code.close_as_agreed_not_permitted

unfoldable pub check_close_as_agreed_gate : Chat → String → String → Result (Unit {0})
check_close_as_agreed_gate c sender kind =
    if sender == "owner" || not (kind == "done")
    then ok tt
    else check_gate_status (get_consensus_gate_status c)
