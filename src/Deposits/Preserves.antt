-- ===== src/Deposits/Preserves.antt =====
-- app/routers/deposits.py: an invariant of the database over any number of requests.
use brainard.Prelude.{
  ℕ, zero, suc, ◌-◌, ◌≡◌, refl, Option, none, some, List, [], ◌∷◌, Bool-cases, inl, inr,
}
use brainard.Prelude.Table.{lookup}
use brainard.Deposits.{
  Try, returned, raised, api_error, integrity_error, type_error, attribute_error, assertion_error,
  ◌>>◌, Deposit, Database, DepositRequest, DepositResponse, Service, Arrival,
}
use brainard.Deposits.Kept.{OnReturned, OnReturned-eq}
use brainard.Deposits.Insert.{insert_deposit}
use brainard.Deposits.Create.{
  Submission, Meanwhile, check_request, committed, commit_rival, commit_rivals, conflict_found,
  after_conflict, answer_insert, or_give_up, deposit_attempts, insert_checked, create_or_replay,
  create_deposit, create_deposits, max_insert_attempts,
}
use brainard.Deposits.Answered.{meanwhile-IsLater}
use brainard.Deposits.Sound.{
  HasReferences, HasReferences-later, validate_knowledge_references-HasReferences,
}

>>-passed : (r k : Try (Unit {0})) → (r >> k) ≡ returned tt → (r ≡ returned tt) × (k ≡ returned tt)
>>-passed (returned tt) k e = (refl, e)
>>-passed (raised x) k e = cc

check_request-HasReferences :
    (s : Service) (body : DepositRequest) (db : Database)
    → check_request s body db ≡ returned tt
    → HasReferences db.knowledge_entries body.knowledge
unfolding check_request
check_request-HasReferences s body db e =
    validate_knowledge_references-HasReferences db body.knowledge body.project
      (>>-passed _ _ (>>-passed _ _ e).1).0

module _ (P : Database → Type 0)
    (keep : (s : Service) (at : Arrival) (n : ℕ) (body : DepositRequest) (db : Database)
      → HasReferences db.knowledge_entries body.knowledge
      → P db
      → OnReturned (λ r. P r.1) (insert_deposit s at n body db)) where
  commit_rival-Preserves :
      (s : Service) (rival : Submission) (db : Database) → P db → P (commit_rival s rival db)
  unfolding commit_rival
  commit_rival-Preserves s rival db h =
      after (check_request s rival.body db) refl (insert_deposit s rival.at 0 rival.body db) refl
    where
      after :
          (v : Try (Unit {0}))
          → check_request s rival.body db ≡ v
          → (r : Try (Deposit × Database)) → insert_deposit s rival.at 0 rival.body db ≡ r
          → P (committed (v >> r) db)
      after (raised e) ev r er = h
      after (returned tt) ev (raised e) er = h
      after (returned tt) ev (returned r) er =
          OnReturned-eq (λ x. P x.1) (insert_deposit s rival.at 0 rival.body db) r
            (keep s rival.at 0 rival.body db (check_request-HasReferences s rival.body db ev) h) er

  after_conflict-Preserves :
      (body : DepositRequest) (db : Database) (next : Try DepositResponse × Database)
      → P db
      → P next.1
      → P (after_conflict body db next).1
  unfolding after_conflict conflict_found
  after_conflict-Preserves body db next h n = found (lookup body.deposit_id db.deposits)
    where
      found : (o : Option Deposit) → P (conflict_found body db next o).1
      found none = n
      found (some d) = h

  answer_insert-Preserves :
      (body : DepositRequest) (db : Database) (next : Try DepositResponse × Database)
      (r : Try (Deposit × Database))
      → P db
      → P next.1
      → OnReturned (λ x. P x.1) r
      → P (answer_insert body db next r).1
  unfolding answer_insert
  answer_insert-Preserves body db next (returned r) h n k = k
  answer_insert-Preserves body db next (raised integrity_error) h n k =
      after_conflict-Preserves body db next h n
  answer_insert-Preserves body db next (raised (api_error e)) h n k = h
  answer_insert-Preserves body db next (raised type_error) h n k = h
  answer_insert-Preserves body db next (raised attribute_error) h n k = h
  answer_insert-Preserves body db next (raised assertion_error) h n k = h

  or_give_up-Preserves :
      (left : ℕ) (db : Database) (next : Try DepositResponse × Database)
      → P db
      → P next.1
      → P (or_give_up left db next).1
  unfolding or_give_up
  or_give_up-Preserves zero db next h n = h
  or_give_up-Preserves (suc left) db next h n = n

  commit_rivals-Preserves :
      (s : Service) (rivals : List Submission) (db : Database)
      → P db
      → P (commit_rivals s rivals db)
  unfolding commit_rivals
  commit_rivals-Preserves s [] db h = h
  commit_rivals-Preserves s (rival ∷ rivals) db h =
      commit_rivals-Preserves s rivals (commit_rival s rival db)
        (commit_rival-Preserves s rival db h)

  deposit_attempts-Preserves :
      (s : Service) (q : Submission) (left : ℕ) (rivals : List Meanwhile) (db : Database)
      → HasReferences db.knowledge_entries q.body.knowledge
      → P db
      → P (deposit_attempts s q left rivals db).1
  unfolding deposit_attempts
  deposit_attempts-Preserves s q zero rivals db refs h = h
  deposit_attempts-Preserves s q (suc left) [] db refs h =
      answer_insert-Preserves q.body db _ _ h
        (or_give_up-Preserves left db _ h (deposit_attempts-Preserves s q left [] db refs h))
        (keep s q.at (max_insert_attempts - suc left) q.body db refs h)
  deposit_attempts-Preserves s q (suc left) (m ∷ others) db refs h =
      let collided = commit_rival s m.collision db in
      let again = commit_rivals s m.after collided in
      let kept : P collided = commit_rival-Preserves s m.collision db h in
      let kept_on : P again = commit_rivals-Preserves s m.after collided kept in
      after_conflict-Preserves q.body collided _ kept (
        or_give_up-Preserves left again _ kept_on (
          deposit_attempts-Preserves s q left others again
            (HasReferences-later db.knowledge_entries again.knowledge_entries q.body.knowledge
              (meanwhile-IsLater s m db).0 refs)
            kept_on))

  create_deposit-Preserves :
      (s : Service) (q : Submission) (rivals : List Meanwhile) (db : Database)
      → P db
      → P (create_deposit s q rivals db).1
  unfolding create_deposit create_or_replay insert_checked
  create_deposit-Preserves s q rivals db h = elim (Bool-cases (s.is_valid_ulid q.body.deposit_id)) [
    | inl valid ↦ rw valid (stored (lookup q.body.deposit_id db.deposits))
    | inr invalid ↦ rw invalid h
  ]
    where
      checked :
          (v : Try (Unit {0}))
          → check_request s q.body db ≡ v
          → P (insert_checked s q rivals db v).1
      checked (raised x) e = h
      checked (returned tt) e =
          deposit_attempts-Preserves s q max_insert_attempts rivals db
            (check_request-HasReferences s q.body db e) h

      stored : (o : Option Deposit) → P (create_or_replay s q rivals db o).1
      stored (some d) = h
      stored none = checked (check_request s q.body db) refl

  pub create_deposits-Preserves :
      (s : Service) (qs : List (Submission × List Meanwhile)) (db : Database)
      → P db
      → P (create_deposits s qs db)
  unfolding create_deposits
  create_deposits-Preserves s [] db h = h
  create_deposits-Preserves s ((q, rivals) ∷ qs) db h =
      create_deposits-Preserves s qs (create_deposit s q rivals db).1
        (create_deposit-Preserves s q rivals db h)
