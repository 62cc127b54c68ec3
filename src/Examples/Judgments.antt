-- ===== src/Examples/Judgments.antt =====
-- A flag and a proposal that wait.
use brainard.Prelude.{true, none, some, [], ◌∷◌, ◌≡◌, refl}
use brainard.Prelude.Table.{Table, lookup, insert}
use brainard.Judgments.{
  Flag, resolve_flag, Proposal, decide, record_decision, get_undecided_proposal, undecided,
}
use brainard.Judgments.Final.{
  StaysResolved, resolve_flag-StaysResolved, StaysDecided, decide-StaysDecided,
}

abbrev flags : Table Flag
flags =
    (
      "f1",
      record {
        type = "fork";
        entry_id = "e1";
        related_entry_id = some "e2";
        created_at = 3;
        resolved_at = none;
        resolved_by = none;
      },
    )
    ∷ []

abbrev proposals : Table Proposal
proposals =
    (
      "p1",
      record { is_doctrine_proposal = true; proposal_decision = none; proposal_decided_at = none },
    )
    ∷ []

resolve_flag-StaysResolved_example : StaysResolved "f1" (resolve_flag "f1" "m1" 9 flags)
resolve_flag-StaysResolved_example = resolve_flag-StaysResolved "f1" "m1" 9 flags

decide-StaysDecided_example : StaysDecided "p1" (decide "p1" "approved" 9 proposals)
decide-StaysDecided_example = decide-StaysDecided "p1" "approved" 9 proposals

-- Two decisions that both read the proposal before either writes: the second overwrites the first.
decisions_race :
    (record_decision "p1" "rejected" 10
      (decide "p1" "approved" 9 proposals).1
      (get_undecided_proposal "p1" proposals)).1
    ≡ (decide "p1" "rejected" 10 proposals).1
unfolding decide record_decision get_undecided_proposal undecided lookup insert
decisions_race = refl
