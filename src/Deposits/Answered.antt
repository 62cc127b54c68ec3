-- ===== src/Deposits/Answered.antt =====
-- app/routers/deposits.py: the answer of `create_deposit` is read of a deposit that is stored.
use brainard.Prelude.{
  ℕ, zero, suc, ◌-◌, String, ◌≡◌, refl, Option, none, some, List, [], ◌∷◌, Bool-cases, inl, inr,
}
use brainard.Prelude.Table.{lookup}
use brainard.Deposits.{
  Try, returned, raised, api_error, type_error, attribute_error, assertion_error, integrity_error,
  ◌>>◌, Deposit, Database, DepositRequest, DepositResponse, Service,
}
use brainard.Deposits.Kept.{OnReturned}
use brainard.Deposits.Insert.{insert_deposit, build_ack}
use brainard.Deposits.Create.{
  Submission, Meanwhile, check_request, committed, commit_rival, commit_rivals, conflict_found,
  after_conflict, create_or_replay, answer_insert, max_insert_attempts, or_give_up,
  deposit_attempts, insert_checked, create_deposit, create_deposits,
}
use brainard.Deposits.Later.{IsLater, IsLater-refl, IsLater-trans, insert_deposit-IsLater}

-- What a request leaves behind: a later state and, where it is acknowledged, the deposit of which
-- the acknowledgment is read.
abbrev pub IsAnswered : String → Database → Try DepositResponse × Database → Type 0
IsAnswered id db r =
    IsLater db r.1
    × OnReturned
        (λ ack.
          (d : Deposit) × (lookup id r.1.deposits ≡ some d)
          × (ack ≡ build_ack id d (DepositResponse.replayed ack) r.1))
        r.0

pub commit_rival-IsLater :
    (s : Service) (rival : Submission) (db : Database) → IsLater db (commit_rival s rival db)
unfolding commit_rival
commit_rival-IsLater s rival db =
    after (check_request s rival.body db) (insert_deposit s rival.at 0 rival.body db)
      (insert_deposit-IsLater s rival.at 0 rival.body db)
  where
    after :
        (v : Try (Unit {0})) (r : Try (Deposit × Database))
        → OnReturned
            (λ r. IsLater db r.1 × (lookup rival.body.deposit_id r.1.deposits ≡ some r.0))
            r
        → IsLater db (committed (v >> r) db)
    after (raised e) r h = IsLater-refl db
    after (returned ok) (raised e) h = IsLater-refl db
    after (returned ok) (returned r) h = h.0

pub commit_rivals-IsLater :
    (s : Service) (rivals : List Submission) (db : Database)
    → IsLater db (commit_rivals s rivals db)
unfolding commit_rivals
commit_rivals-IsLater s [] db = IsLater-refl db
commit_rivals-IsLater s (rival ∷ rivals) db =
    IsLater-trans db (commit_rival s rival db) (commit_rivals s rivals (commit_rival s rival db))
      (commit_rival-IsLater s rival db) (commit_rivals-IsLater s rivals (commit_rival s rival db))

-- Around an attempt that collides, up to the next one.
pub meanwhile-IsLater :
    (s : Service) (m : Meanwhile) (db : Database)
    → IsLater db (commit_rivals s m.after (commit_rival s m.collision db))
meanwhile-IsLater s m db =
    IsLater-trans db (commit_rival s m.collision db)
      (commit_rivals s m.after (commit_rival s m.collision db))
      (commit_rival-IsLater s m.collision db)
      (commit_rivals-IsLater s m.after (commit_rival s m.collision db))

after_conflict-IsAnswered :
    (body : DepositRequest) (start db : Database) (next : Try DepositResponse × Database)
    → IsLater start db
    → IsAnswered body.deposit_id start next
    → IsAnswered body.deposit_id start (after_conflict body db next)
unfolding after_conflict conflict_found build_ack
after_conflict-IsAnswered body start db next later h =
    found (lookup body.deposit_id db.deposits) refl
  where
    found :
        (o : Option Deposit)
        → lookup body.deposit_id db.deposits ≡ o
        → IsAnswered body.deposit_id start (conflict_found body db next o)
    found none e = h
    found (some d) e = (later, (d, e, refl))

or_give_up-IsAnswered :
    (id : String) (left : ℕ) (start db : Database) (next : Try DepositResponse × Database)
    → IsLater start db
    → IsAnswered id start next
    → IsAnswered id start (or_give_up left db next)
unfolding or_give_up
or_give_up-IsAnswered id zero start db next later h = (later, tt)
or_give_up-IsAnswered id (suc left) start db next later h = h

answer_insert-IsAnswered :
    (body : DepositRequest) (start db : Database) (next : Try DepositResponse × Database)
    (r : Try (Deposit × Database))
    → IsLater start db
    → IsAnswered body.deposit_id start next
    → OnReturned (λ r. IsLater db r.1 × (lookup body.deposit_id r.1.deposits ≡ some r.0)) r
    → IsAnswered body.deposit_id start (answer_insert body db next r)
unfolding answer_insert build_ack
answer_insert-IsAnswered body start db next (returned (d, after)) later h (l, stored) =
    (IsLater-trans start db after later l, (d, stored, refl))
answer_insert-IsAnswered body start db next (raised integrity_error) later h u =
    after_conflict-IsAnswered body start db next later h
answer_insert-IsAnswered body start db next (raised (api_error e)) later h u = (later, tt)
answer_insert-IsAnswered body start db next (raised type_error) later h u = (later, tt)
answer_insert-IsAnswered body start db next (raised attribute_error) later h u = (later, tt)
answer_insert-IsAnswered body start db next (raised assertion_error) later h u = (later, tt)

deposit_attempts-IsAnswered :
    (s : Service) (q : Submission) (left : ℕ) (rivals : List Meanwhile) (start db : Database)
    → IsLater start db
    → IsAnswered q.body.deposit_id start (deposit_attempts s q left rivals db)
unfolding deposit_attempts
deposit_attempts-IsAnswered s q zero rivals start db later = (later, tt)
deposit_attempts-IsAnswered s q (suc left) [] start db later =
    answer_insert-IsAnswered q.body start db _ _ later
      (or_give_up-IsAnswered q.body.deposit_id left start db _ later
        (deposit_attempts-IsAnswered s q left [] start db later))
      (insert_deposit-IsLater s q.at (max_insert_attempts - suc left) q.body db)
deposit_attempts-IsAnswered s q (suc left) (m ∷ others) start db later =
    let collided = commit_rival s m.collision db in
    let again = commit_rivals s m.after collided in
    let later' : IsLater start again =
      IsLater-trans start db again later (meanwhile-IsLater s m db) in
    after_conflict-IsAnswered q.body start collided _
      (IsLater-trans start db collided later (commit_rival-IsLater s m.collision db))
      (or_give_up-IsAnswered q.body.deposit_id left start again _ later'
        (deposit_attempts-IsAnswered s q left others start again later'))

create_or_replay-IsAnswered :
    (s : Service) (q : Submission) (rivals : List Meanwhile) (db : Database) (o : Option Deposit)
    → lookup q.body.deposit_id db.deposits ≡ o
    → IsAnswered q.body.deposit_id db (create_or_replay s q rivals db o)
unfolding create_or_replay insert_checked build_ack
create_or_replay-IsAnswered s q rivals db (some d) e = (IsLater-refl db, (d, e, refl))
create_or_replay-IsAnswered s q rivals db none e = checked (check_request s q.body db)
  where
    checked :
        (v : Try (Unit {0})) → IsAnswered q.body.deposit_id db (insert_checked s q rivals db v)
    checked (raised x) = (IsLater-refl db, tt)
    checked (returned ok) =
        deposit_attempts-IsAnswered s q max_insert_attempts rivals db db (IsLater-refl db)

pub create_deposit-IsAnswered :
    (s : Service) (q : Submission) (rivals : List Meanwhile) (db : Database)
    → IsAnswered q.body.deposit_id db (create_deposit s q rivals db)
unfolding create_deposit
create_deposit-IsAnswered s q rivals db = elim (Bool-cases (s.is_valid_ulid q.body.deposit_id)) [
  | inl valid ↦ rw valid (create_or_replay-IsAnswered s q rivals db _ refl)
  | inr invalid ↦ rw invalid (IsLater-refl db, tt)
]

pub create_deposits-IsLater :
    (s : Service) (qs : List (Submission × List Meanwhile)) (db : Database)
    → IsLater db (create_deposits s qs db)
unfolding create_deposits
create_deposits-IsLater s [] db = IsLater-refl db
create_deposits-IsLater s ((q, rivals) ∷ qs) db =
    IsLater-trans db (create_deposit s q rivals db).1
      (create_deposits s qs (create_deposit s q rivals db).1)
      (create_deposit-IsAnswered s q rivals db).0
      (create_deposits-IsLater s qs (create_deposit s q rivals db).1)
