-- ===== src/Deposits/History.antt =====
-- app/routers/deposits.py: the library over any number of requests to `create_deposit`.
use brainard.Prelude.{ℕ, sym, List, is_some, is_none}
use mathlib.Core.Path.{subst}
use brainard.Prelude.Table.{lookup}
use brainard.Deposits.{Database, DepositRequest, Service, Arrival}
use brainard.Deposits.Kept.{
  OnReturned, OnReturned-bind, OnReturned-fail_if, OnReturned-eq, KeptEntries, AppliesDocuments,
}
use brainard.Deposits.Applied.{apply_documents-AppliesDocuments}
use brainard.Deposits.Knowledge.{apply_knowledge}
use brainard.Deposits.Documents.{apply_documents}
use brainard.Deposits.Insert.{new_deposit, store_envelope, insert_deposit}
use brainard.Deposits.Create.{Submission, Meanwhile, create_deposits}
use brainard.Deposits.Answered.{create_deposits-IsLater}
use brainard.Deposits.Sound.{IsSeparated, HasReferences}
use brainard.Deposits.Separated.{Separated, apply_knowledge-Separated}
use brainard.Deposits.Preserves.{create_deposits-Preserves}

insert_deposit-Separated :
    (s : Service) (at : Arrival) (n : ℕ) (body : DepositRequest) (db : Database)
    → HasReferences db.knowledge_entries body.knowledge
    → Separated db
    → OnReturned (λ r. Separated r.1) (insert_deposit s at n body db)
unfolding insert_deposit store_envelope
insert_deposit-Separated s at n body db refs h =
    let d =
      new_deposit body at.machine_id (at.received_at n)
        (is_none (lookup body.project db.projects)) in
    OnReturned-fail_if _ (is_some (lookup body.deposit_id db.deposits)) _ _ λ free.
      OnReturned-bind _
        (apply_knowledge s body.deposit_id d (at.entry_id n) 0 body.knowledge
          (store_envelope body d db))
        _
        λ k one.
          OnReturned-bind _
            (apply_documents body.deposit_id d (at.document_id n) 0 body.documents k.1) _
            λ m two.
              subst IsSeparated
                (sym
                  (OnReturned-eq (λ x. AppliesDocuments k.1 x.1) _ m
                    (apply_documents-AppliesDocuments body.deposit_id d (at.document_id n) 0
                      body.documents k.1)
                    two).1)
                (OnReturned-eq (λ x. Separated x.1) _ k
                  (apply_knowledge-Separated s body.deposit_id d (at.entry_id n) 0 body.knowledge
                    (store_envelope body d db) refs h)
                  one)

-- Over any requests one after the other, together with the deposits that collide with one of their
-- attempts or that commit between such a collision and the next attempt: no entry of the library is
-- removed, its text and its parents do not change, an entry that is superseded or retired does not
-- change at all, and where every entry's parents are stored and are proposals exactly if the entry
-- is one, that still holds of the entries afterwards. A deposit that commits after the checks of a
-- request without a collision is outside of this.
pub create_deposits-IsSeparated :
    (s : Service) (qs : List (Submission × List Meanwhile)) (db : Database)
    → IsSeparated db.knowledge_entries
    → KeptEntries db.knowledge_entries (create_deposits s qs db).knowledge_entries
      × IsSeparated (create_deposits s qs db).knowledge_entries
create_deposits-IsSeparated s qs db h = (
  (create_deposits-IsLater s qs db).0,
  create_deposits-Preserves Separated insert_deposit-Separated s qs db h,
)
