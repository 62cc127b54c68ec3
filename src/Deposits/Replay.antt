-- ===== src/Deposits/Replay.antt =====
-- app/routers/deposits.py: the idempotency key of a deposit.
use brainard.Prelude.{
  String, Bool, true, false, not, ◌≡◌, refl, sym, ap, ◌∙◌, some, List, if◌then◌else◌,
}
use brainard.Prelude.Table.{lookup}
use brainard.Deposits.{Try, returned, raised, Deposit, Database, DepositResponse, Service}
use brainard.Deposits.Kept.{OnReturned-eq}
use brainard.Deposits.Later.{SameDeposit}
use brainard.Deposits.Answered.{create_deposit-IsAnswered, create_deposits-IsLater}
use brainard.Deposits.Insert.{build_ack}
use brainard.Deposits.Create.{
  Submission, Meanwhile, invalid_id_error, create_or_replay, create_deposit, create_deposits,
}

-- The id of an acknowledged deposit is a ULID.
answered-valid :
    (s : Service) (q : Submission) (rivals : List Meanwhile) (db : Database) (ack : DepositResponse)
    → (create_deposit s q rivals db).0 ≡ returned ack
    → s.is_valid_ulid q.body.deposit_id ≡ true
unfolding create_deposit
answered-valid s q rivals db ack e = by_validity (s.is_valid_ulid q.body.deposit_id) _ e
  where
    by_validity :
        (b : Bool) (r : Try DepositResponse × Database)
        → (if not b then (raised invalid_id_error, db) else r).0 ≡ returned ack
        → b ≡ true
    by_validity true r answered = refl
    by_validity false r answered = cc

-- A stored deposit is acknowledged again, and nothing is stored.
replay-stored :
    (s : Service) (q : Submission) (rivals : List Meanwhile) (db : Database) (d : Deposit)
    → s.is_valid_ulid q.body.deposit_id ≡ true
    → lookup q.body.deposit_id db.deposits ≡ some d
    → create_deposit s q rivals db ≡ (returned (build_ack q.body.deposit_id d true db), db)
unfolding create_deposit create_or_replay
replay-stored s q rivals db d valid stored = rw (valid, stored) refl

-- The acknowledgment of a deposit stays the same, up to the marker, while it is kept.
build_ack-later :
    (id : String) (d : Deposit) (replayed : Bool) (db db' : Database)
    → SameDeposit id d db db'
    → build_ack id d true db' ≡ record (build_ack id d replayed db) { replayed = true }
unfolding build_ack
build_ack-later id d replayed db db' same = rw (same.1, same.2) refl

-- Once a deposit is acknowledged, any request with its id that comes after any other requests,
-- whatever they contain and whatever deposits their attempts collide with, stores nothing and gets
-- the acknowledgment that the first one got, marked as replayed.
pub create_deposit-replayed :
    (s : Service) (q again : Submission) (rivals rivals' : List Meanwhile)
    (between : List (Submission × List Meanwhile)) (db : Database) (ack : DepositResponse)
    → (create_deposit s q rivals db).0 ≡ returned ack
    → again.body.deposit_id ≡ q.body.deposit_id
    → create_deposit s again rivals' (create_deposits s between (create_deposit s q rivals db).1)
      ≡ (
        returned (record ack { replayed = true }),
        create_deposits s between (create_deposit s q rivals db).1,
      )
create_deposit-replayed s q again rivals rivals' between db ack e same =
    let after = (create_deposit s q rivals db).1 in
    let last = create_deposits s between after in
    let source : (d : Deposit) × (lookup q.body.deposit_id after.deposits ≡ some d)
        × (ack ≡ build_ack q.body.deposit_id d ack.replayed after) =
      OnReturned-eq _ _ ack (create_deposit-IsAnswered s q rivals db).1 e in
    let kept : SameDeposit q.body.deposit_id source.0 after last =
      (create_deposits-IsLater s between after).1 q.body.deposit_id source.0 source.1 in
    replay-stored s again rivals' last source.0
      (ap s.is_valid_ulid same ∙ answered-valid s q rivals db ack e)
      (ap (λ id. lookup id last.deposits) same ∙ kept.0)
    ∙ ap (λ a. (returned a, last))
        (ap (λ id. build_ack id source.0 true last) same
          ∙ build_ack-later q.body.deposit_id source.0 ack.replayed after last kept
          ∙ ap {A = DepositResponse} {B = DepositResponse} (λ a. record a { replayed = true })
              (sym source.2))
