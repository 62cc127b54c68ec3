-- ===== src/Judgments.antt =====
-- app/flags.py and app/proposals.py: the queues of the librarian and of the owner. The read and the
-- write of a call are one step here; the code takes no row lock between them.
pub mod Final
use brainard.Prelude.{ℕ, String, Bool, true, false, not, Option, none, some, is_some, if◌then◌else◌}
use brainard.Prelude.Table.{Table, lookup, insert}
use brainard.Errors.{Code, Result, ok, err, raise}

pub record Flag : Type 0 where
  pub type : String
  pub entry_id : String
  pub related_entry_id : Option String
  pub created_at : ℕ
  pub resolved_at : Option ℕ
  pub resolved_by : Option String

unfoldable pub resolve_found :
    String → String → ℕ → Table Flag → Flag → Result (Flag × Bool) × Table Flag
resolve_found id machine_id now flags f =
    if is_some f.resolved_at
    then (ok (f, true), flags)
    else let resolved = record f { resolved_at = some now; resolved_by = some machine_id } in
      (ok (resolved, false), insert id resolved flags)

-- `resolve_flag`: the flag, and whether it was resolved already.
unfoldable pub resolve_flag : String → String → ℕ → Table Flag → Result (Flag × Bool) × Table Flag
unfolding resolve_found
resolve_flag id machine_id now flags = elim (lookup id flags) [
  | none ↦ (raise 404 Code.flag_not_found, flags)
  | some f ↦ resolve_found id machine_id now flags f
]

-- What a decision reads and writes of a library entry.
pub record Proposal : Type 0 where
  pub is_doctrine_proposal : Bool
  pub proposal_decision : Option String
  pub proposal_decided_at : Option ℕ

unfoldable pub undecided : Option Proposal → Result Proposal
undecided none = raise 404 Code.proposal_not_found
undecided (some p) =
    if not p.is_doctrine_proposal
    then raise 404 Code.proposal_not_found
    else if is_some p.proposal_decision
    then raise 422 Code.proposal_already_decided
    else ok p

-- `get_undecided_proposal`
unfoldable pub get_undecided_proposal : String → Table Proposal → Result Proposal
unfolding undecided
get_undecided_proposal id entries = undecided (lookup id entries)

unfoldable pub record_decision :
    String → String → ℕ → Table Proposal → Result Proposal → Result Proposal × Table Proposal
record_decision id decision now entries (err e) = (err e, entries)
record_decision id decision now entries (ok p) =
    let decided = record p { proposal_decision = some decision; proposal_decided_at = some now } in
    (ok decided, insert id decided entries)

unfoldable pub decide : String → String → ℕ → Table Proposal → Result Proposal × Table Proposal
unfolding record_decision
decide id decision now entries =
    record_decision id decision now entries (get_undecided_proposal id entries)
