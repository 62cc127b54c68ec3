-- ===== src/Judgments/Final.antt =====
-- app/flags.py and app/proposals.py: a second resolution and a second decision.
use brainard.Prelude.{
  ℕ, String, Bool, true, ◌≡◌, refl, ◌∙◌, Option, none, some, is_some, Bool-cases, inl, inr, ==-self,
  if-true,
}
use brainard.Prelude.Table.{Table, lookup, insert, lookup-insert}
use brainard.Errors.{Code, Result, ok, err, raise, OnOk}
use brainard.Judgments.{
  Flag, resolve_found, resolve_flag, Proposal, undecided, get_undecided_proposal, record_decision,
  decide,
}

module _ {A : Type 0} where
  lookup-inserted : (id : String) (a : A) (t : Table A) → lookup id (insert id a t) ≡ some a
  lookup-inserted id a t = lookup-insert id id a t ∙ if-true _ _ _ (==-self id)

stored-resolve_flag :
    (id machine_id : String) (now : ℕ) (flags : Table Flag) (f : Flag)
    → lookup id flags ≡ some f
    → is_some f.resolved_at ≡ true
    → resolve_flag id machine_id now flags ≡ (ok (f, true), flags)
unfolding resolve_flag resolve_found
stored-resolve_flag id machine_id now flags f e h = rw (e, resolve_flag) (rw h refl)

-- What a second resolution of the flag answers after a first.
abbrev pub StaysResolved : String → Result (Flag × Bool) × Table Flag → Type 0
StaysResolved id (err e, flags) = Unit
StaysResolved id (ok (f, already), flags) =
    (machine_id : String) (now : ℕ) → resolve_flag id machine_id now flags ≡ (ok (f, true), flags)

-- After a resolution that is answered, every further one that reads its result, by any machine at
-- any instant, answers the same flag as resolved already, and changes nothing.
pub resolve_flag-StaysResolved :
    (id machine_id : String) (now : ℕ) (flags : Table Flag)
    → StaysResolved id (resolve_flag id machine_id now flags)
unfolding resolve_flag resolve_found
resolve_flag-StaysResolved id machine_id now flags = found (lookup id flags) refl
  where
    found :
        (o : Option Flag)
        → lookup id flags ≡ o
        → StaysResolved id (resolve_flag id machine_id now flags)
    found none e = rw (e, StaysResolved, resolve_flag) tt
    found (some f) e = elim (Bool-cases (is_some f.resolved_at)) [
      | inl was ↦
          rw (e, StaysResolved, resolve_flag)
            (rw was (λ m t. stored-resolve_flag id m t flags f e was))
      | inr fresh ↦
          rw (e, StaysResolved, resolve_flag)
            (rw fresh (λ m t. stored-resolve_flag id m t _ _ (lookup-inserted id _ flags) refl))
    ]

undecided-proposes : (o : Option Proposal) → OnOk (λ p. p.is_doctrine_proposal ≡ true) (undecided o)
unfolding undecided
undecided-proposes none = tt
undecided-proposes (some p) = elim (Bool-cases p.is_doctrine_proposal) [
  | inl proposes ↦ elim (Bool-cases (is_some p.proposal_decision)) [
    | inl was ↦ rw (proposes, was) tt
    | inr fresh ↦ rw (proposes, fresh) refl
  ]
  | inr other ↦ rw other tt
]

-- What a second decision on the proposal answers after a first.
abbrev pub StaysDecided : String → Result Proposal × Table Proposal → Type 0
StaysDecided id (err e, entries) = Unit
StaysDecided id (ok p, entries) =
    (decision : String) (now : ℕ)
    → decide id decision now entries ≡ (raise 422 Code.proposal_already_decided, entries)

-- After a decision that is answered, every further one on the proposal that reads its result is
-- rejected with 422 `proposal_already_decided` and changes nothing.
pub decide-StaysDecided :
    (id decision : String) (now : ℕ) (entries : Table Proposal)
    → StaysDecided id (decide id decision now entries)
unfolding decide record_decision get_undecided_proposal undecided
decide-StaysDecided id decision now entries =
    decided (undecided (lookup id entries)) (undecided-proposes (lookup id entries))
  where
    decided :
        (r : Result Proposal)
        → OnOk (λ p. p.is_doctrine_proposal ≡ true) r
        → StaysDecided id (record_decision id decision now entries r)
    decided (err e) h = tt
    decided (ok p) h = λ later t. rw (lookup-inserted, undecided) (rw h refl)
