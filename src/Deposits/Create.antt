-- ===== src/Deposits/Create.antt =====
-- app/routers/deposits.py: `create_deposit`, with the other deposits that win a race against it.
use brainard.Prelude.{
  ℕ, zero, suc, ◌-◌, true, false, not, Option, none, some, List, [], ◌∷◌, if◌then◌else◌,
}
use brainard.Prelude.Json.{Object}
use brainard.Prelude.Table.{lookup}
use brainard.Errors.{Code}
use brainard.Deposits.{
  Try, returned, raised, Exception, api_error, integrity_error, assertion_error, ◌>>◌, Deposit,
  Database, DepositRequest, DepositResponse, Service, Arrival,
}
use brainard.Deposits.Validate.{
  validate_knowledge_shape, validate_documents_shape, validate_events, validate_handoff_or_waiver,
  validate_project_update,
}
use brainard.Deposits.References.{validate_knowledge_references}
use brainard.Deposits.Insert.{insert_deposit, build_ack}

-- A request with its sender, and what is drawn while it is served.
pub record Submission : Type 0 where
  pub body : DepositRequest
  pub at : Arrival

unfoldable pub check_update : Option Object → Try (Unit {0})
check_update none = returned tt
check_update (some update) = validate_project_update update

-- The checks of a request that is not a replay, in the order of the code.
unfoldable pub check_request : Service → DepositRequest → Database → Try (Unit {0})
unfolding check_update
check_request s body db = do
  validate_knowledge_shape body.knowledge
  validate_knowledge_references db body.knowledge body.project
  validate_documents_shape body.documents
  validate_events s body.events
  validate_handoff_or_waiver body
  check_update body.project_update

unfoldable pub committed : Try (Deposit × Database) → Database → Database
committed (returned (d, after)) db = after
committed (raised e) db = db

-- A deposit that another request commits, checked against the state that it commits to.
unfoldable pub commit_rival : Service → Submission → Database → Database
unfolding committed check_request
commit_rival s rival db =
    committed (check_request s rival.body db >> insert_deposit s rival.at 0 rival.body db) db

unfoldable pub commit_rivals : Service → List Submission → Database → Database
unfolding commit_rival
commit_rivals s [] db = db
commit_rivals s (rival ∷ rivals) db = commit_rivals s rivals (commit_rival s rival db)

-- What commits around an attempt that collides: the deposit that it collides with, and deposits
-- between its rollback, which forgets every row that was read, and the next attempt. A deposit that
-- commits after the checks of a request without a collision is not modelled.
pub record Meanwhile : Type 0 where
  pub collision : Submission
  pub after : List Submission

unfoldable pub conflict_found :
    DepositRequest
    → Database
    → Try DepositResponse × Database
    → Option Deposit
    → Try DepositResponse × Database
conflict_found body db retry none = retry
conflict_found body db retry (some d) = (returned (build_ack body.deposit_id d true db), db)

-- After a collision: the acknowledgment of the deposit, if it exists by now.
unfoldable pub after_conflict :
    DepositRequest → Database → Try DepositResponse × Database → Try DepositResponse × Database
unfolding conflict_found
after_conflict body db retry = conflict_found body db retry (lookup body.deposit_id db.deposits)

unfoldable pub answer_insert :
    DepositRequest
    → Database
    → Try DepositResponse × Database
    → Try (Deposit × Database)
    → Try DepositResponse × Database
unfolding after_conflict
answer_insert body db retry (returned (d, after)) =
    (returned (build_ack body.deposit_id d false after), after)
answer_insert body db retry (raised integrity_error) = after_conflict body db retry
answer_insert body db retry (raised e) = (raised e, db)

abbrev pub max_insert_attempts : ℕ
max_insert_attempts = 3

abbrev pub conflict_error : Exception
conflict_error = api_error (record { status_code = 503; code = Code.deposit_conflict_retry })

-- What follows a collision where no attempt is left.
unfoldable pub or_give_up :
    ℕ → Database → Try DepositResponse × Database → Try DepositResponse × Database
or_give_up zero db next = (raised conflict_error, db)
or_give_up (suc left) db next = next

-- The loop, with the attempts that are left. An attempt for which the list says nothing runs alone.
unfoldable pub deposit_attempts :
    Service → Submission → ℕ → List Meanwhile → Database → Try DepositResponse × Database
unfolding commit_rivals after_conflict answer_insert or_give_up
deposit_attempts s q zero others db = (raised assertion_error, db)
deposit_attempts s q (suc left) [] db =
    let next = deposit_attempts s q left [] db in
    answer_insert q.body db (or_give_up left db next)
      (insert_deposit s q.at (max_insert_attempts - suc left) q.body db)
deposit_attempts s q (suc left) (m ∷ others) db =
    let collided = commit_rival s m.collision db in
    let again = commit_rivals s m.after collided in
    let next = deposit_attempts s q left others again in
    after_conflict q.body collided (or_give_up left again next)

unfoldable pub insert_checked :
    Service
    → Submission
    → List Meanwhile
    → Database
    → Try (Unit {0})
    → Try DepositResponse × Database
unfolding deposit_attempts
insert_checked s q others db (raised e) = (raised e, db)
insert_checked s q others db (returned ok) = deposit_attempts s q max_insert_attempts others db

-- A deposit that exists is acknowledged again, whatever the request contains.
unfoldable pub create_or_replay :
    Service
    → Submission
    → List Meanwhile
    → Database
    → Option Deposit
    → Try DepositResponse × Database
unfolding insert_checked check_request
create_or_replay s q others db none = insert_checked s q others db (check_request s q.body db)
create_or_replay s q others db (some d) = (returned (build_ack q.body.deposit_id d true db), db)

abbrev pub invalid_id_error : Exception
invalid_id_error = api_error (record { status_code = 422; code = Code.invalid_deposit_id })

-- `create_deposit`
unfoldable pub create_deposit :
    Service → Submission → List Meanwhile → Database → Try DepositResponse × Database
unfolding create_or_replay
create_deposit s q others db =
    if not (s.is_valid_ulid q.body.deposit_id)
    then (raised invalid_id_error, db)
    else create_or_replay s q others db (lookup q.body.deposit_id db.deposits)

-- Requests one after the other, each with what commits while its attempts collide.
unfoldable pub create_deposits : Service → List (Submission × List Meanwhile) → Database → Database
unfolding create_deposit
create_deposits s [] db = db
create_deposits s ((q, others) ∷ qs) db = create_deposits s qs (create_deposit s q others db).1
