-- ===== src/Deposits/Later.antt =====
-- app/routers/deposits.py: what `create_deposit` leaves of the deposits that are stored.
use mathlib.Core.Path.{subst}
use brainard.Prelude.{
  ==-self, ℕ, String, false, ◌≡◌, refl, sym, ap, ◌∙◌, Option, none, some, List, [], ◌∷◌, ◌++◌, ◌==◌,
  eq_iff, arith, is_some, is_none, map, any-append,
}
use brainard.Prelude.Table.{lookup, insert, lookup-insert}
use brainard.Deposits.{
  Deposit, Event, Handoff, EventIn, HandoffIn, Database, DepositRequest, Service, Arrival,
}
use brainard.Deposits.Kept.{
  OnReturned, OnReturned-bind, OnReturned-fail_if, OnReturned-eq, KeptEntries, KeptEntries-refl,
  KeptEntries-trans, AppliesKnowledge, AppliesDocuments,
}
use brainard.Deposits.Applied.{apply_knowledge-AppliesKnowledge, apply_documents-AppliesDocuments}
use brainard.Deposits.Knowledge.{apply_knowledge}
use brainard.Deposits.Documents.{apply_documents}
use brainard.Deposits.Insert.{
  new_event, new_handoffs, new_deposit, store_envelope, has_handoff, insert_deposit, events_count,
}

-- The deposit is stored as before, with as many events and its handoff.
abbrev pub SameDeposit : String → Deposit → Database → Database → Type 0
SameDeposit id d db db' =
    (lookup id db'.deposits ≡ some d)
    × (events_count id db'.events ≡ events_count id db.events)
    × (has_handoff id db'.handoffs ≡ has_handoff id db.handoffs)

-- Entries and deposits are kept.
abbrev pub IsLater : Database → Database → Type 0
IsLater db db' =
    KeptEntries db.knowledge_entries db'.knowledge_entries
    × ((id : String) (d : Deposit) → lookup id db.deposits ≡ some d → SameDeposit id d db db')

pub IsLater-refl : (db : Database) → IsLater db db
IsLater-refl db = (KeptEntries-refl db.knowledge_entries, λ id d stored. (stored, refl, refl))

pub IsLater-trans : (a b c : Database) → IsLater a b → IsLater b c → IsLater a c
IsLater-trans a b c (k, f) (l, g) = (
  KeptEntries-trans a.knowledge_entries b.knowledge_entries c.knowledge_entries k l,
  λ id d stored.
      let first : SameDeposit id d a b = f id d stored in
      let next : SameDeposit id d b c = g id d first.0 in
      (next.0, next.1 ∙ first.1, next.2 ∙ first.2),
)

-- The events of another deposit do not count.
events_count-append_other :
    (id : String) (body : DepositRequest) (xs : List Event) (es : List EventIn)
    → (body.deposit_id == id) ≡ false
    → events_count id (xs ++ map (new_event body) es) ≡ events_count id xs
unfolding events_count new_event
events_count-append_other id body [] [] other = refl
events_count-append_other id body [] (e ∷ es) other =
    rw other (events_count-append_other id body [] es other)
events_count-append_other id body (x ∷ xs) es other =
    ground (arith, events_count-append_other id body xs es other)

has_handoff-append_other :
    (id : String) (body : DepositRequest) (now : ℕ) (hs : List Handoff) (h : Option HandoffIn)
    → (body.deposit_id == id) ≡ false
    → has_handoff id (hs ++ new_handoffs body now h) ≡ has_handoff id hs
unfolding has_handoff new_handoffs
has_handoff-append_other id body now hs none other = any-append _ hs [] ∙ ground arith
has_handoff-append_other id body now hs (some h) other = any-append _ hs _ ∙ ground arith

store_envelope-IsLater :
    (body : DepositRequest) (d : Deposit) (db : Database)
    → is_some (lookup body.deposit_id db.deposits) ≡ false
    → IsLater db (store_envelope body d db)
unfolding store_envelope
store_envelope-IsLater body d db free = (
  KeptEntries-refl db.knowledge_entries,
  λ id old stored.
      let other : (body.deposit_id == id) ≡ false = ground (arith, eq_iff body.deposit_id id) in
      (
        lookup-insert body.deposit_id id d db.deposits ∙ (rw other stored),
        events_count-append_other id body db.events body.events other,
        has_handoff-append_other id body d.received_at db.handoffs body.handoff other,
      ),
)

-- The envelope, the compartments, and the deposit's row written back with the acknowledgments.
complete-IsLater :
    (body : DepositRequest) (d complete : Deposit) (db k m : Database)
    → is_some (lookup body.deposit_id db.deposits) ≡ false
    → AppliesKnowledge (store_envelope body d db) k
    → AppliesDocuments k m
    → IsLater db (record m { deposits = insert body.deposit_id complete m.deposits })
complete-IsLater body d complete db k m free (same, kept, docs) (same', entries) =
    let stored : IsLater db (store_envelope body d db) = store_envelope-IsLater body d db free in
    (
      subst (KeptEntries db.knowledge_entries) (sym entries) (
          KeptEntries-trans db.knowledge_entries (store_envelope body d db).knowledge_entries
            k.knowledge_entries stored.0 kept),
      λ id old found.
          let other : (body.deposit_id == id) ≡ false = ground (arith, eq_iff body.deposit_id id) in
          let before : SameDeposit id old db (store_envelope body d db) = stored.1 id old found in
          (
            lookup-insert body.deposit_id id complete m.deposits
                ∙ (rw other (ap (lookup id) (same'.0 ∙ same.0) ∙ before.0)),
            ap (events_count id) (same'.1 ∙ same.1) ∙ before.1,
            ap (has_handoff id) (same'.2 ∙ same.2) ∙ before.2,
          ),
    )

-- A deposit is stored beside the others, under its own id.
pub insert_deposit-IsLater :
    (s : Service) (at : Arrival) (n : ℕ) (body : DepositRequest) (db : Database)
    → OnReturned
        (λ r. IsLater db r.1 × (lookup body.deposit_id r.1.deposits ≡ some r.0))
        (insert_deposit s at n body db)
unfolding insert_deposit
insert_deposit-IsLater s at n body db =
    let d =
      new_deposit body at.machine_id (at.received_at n)
        (is_none (lookup body.project db.projects)) in
    OnReturned-fail_if _ (is_some (lookup body.deposit_id db.deposits)) _ _ λ free.
      OnReturned-bind _
        (apply_knowledge s body.deposit_id d (at.entry_id n) 0 body.knowledge
          (store_envelope body d db))
        _
        λ k one.
          OnReturned-bind _
            (apply_documents body.deposit_id d (at.document_id n) 0 body.documents k.1) _
            λ m two. (
              complete-IsLater body d (record d { knowledge_ack = k.0; documents_ack = m.0 }) db k.1
                  m.1 free
                  (OnReturned-eq (λ x. AppliesKnowledge (store_envelope body d db) x.1) _ k
                    (apply_knowledge-AppliesKnowledge s body.deposit_id d (at.entry_id n) 0
                      body.knowledge (store_envelope body d db))
                    one)
                  (OnReturned-eq (λ x. AppliesDocuments k.1 x.1) _ m
                    (apply_documents-AppliesDocuments body.deposit_id d (at.document_id n) 0
                      body.documents k.1)
                    two),
              lookup-insert body.deposit_id body.deposit_id
                    (record d { knowledge_ack = k.0; documents_ack = m.0 }) m.1.deposits
                  ∙ (rw (==-self body.deposit_id) refl),
            )
