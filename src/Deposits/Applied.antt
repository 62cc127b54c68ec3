-- ===== src/Deposits/Applied.antt =====
-- app/routers/deposits.py: what `_apply_knowledge` and `_apply_documents` leave as it was.
use mathlib.Core.Path.{subst}
use mathlib.Core.Option.{some-injective}
use brainard.Prelude.{
  ◌⊎◌, ℕ, suc, String, Bool, true, false, not, ◌||◌, ◌≡◌, refl, sym, ◌∙◌, Option, none, some, List,
  [], ◌∷◌, arith, Bool-cases, inl, inr, if◌then◌else◌, is_some,
}
use brainard.Prelude.Json.{Object}
use brainard.Prelude.Table.{lookup}
use brainard.Errors.{Code}
use brainard.Deposits.{Deposit, KnowledgeEntry, superseded, is_active, Database, Service}
use brainard.Judgments.{Flag}
use brainard.Deposits.Validate.{is_retire_item, text_at}
use brainard.Deposits.Knowledge.{
  retired_entry, set_entry, retire_found, supersede_found, apply_retirement, new_entry, first_seen,
  superseded_entry, supersede_parent, supersede_parents, flag_duplicates, is_unregistered,
  apply_creation, apply_item, apply_knowledge,
}
use brainard.Deposits.Documents.{apply_document, apply_documents}
use brainard.Deposits.Kept.{
  OnReturned, OnReturned-bind, OnReturned-reject_if, OnReturned-fail_if, OnReturned-map,
  OnReturned-eq, Follows, KeptEntries-refl, insert-KeptEntries, AppliesKnowledge,
  AppliesKnowledge-refl, AppliesKnowledge-trans, AppliesDocuments, AppliesDocuments-trans,
}

pub superseded_entry-Follows : (e : KnowledgeEntry) → Follows e (superseded_entry e)
unfolding superseded_entry is_active
superseded_entry-Follows e = by_status (Bool-cases (is_active e.status))
  where
    by_status :
        (is_active e.status ≡ true) ⊎ (is_active e.status ≡ false)
        → Follows e (if is_active e.status then record e { status = superseded } else e)
    by_status (inl live) = rw live (refl, λ closed. cc)
    by_status (inr closed) = rw closed (refl, λ c. refl)

-- An entry written back as a successor of the one that is stored.
set_entry-AppliesKnowledge :
    (id : String) (e : KnowledgeEntry) (db : Database)
    → ((old : KnowledgeEntry) → lookup id db.knowledge_entries ≡ some old → Follows old e)
    → AppliesKnowledge db (set_entry id e db)
unfolding set_entry
set_entry-AppliesKnowledge id e db h =
    ((refl, refl, refl, refl), insert-KeptEntries id e db.knowledge_entries h, refl)

pub supersede_parent-AppliesKnowledge :
    (id : String) (now : ℕ) (p : String) (db : Database)
    → OnReturned (AppliesKnowledge db) (supersede_parent id now p db)
unfolding supersede_parent supersede_found
supersede_parent-AppliesKnowledge id now p db = found (lookup p db.knowledge_entries) refl
  where
    found :
        (o : Option KnowledgeEntry)
        → lookup p db.knowledge_entries ≡ o
        → OnReturned (AppliesKnowledge db) (supersede_found id now p db o)
    found none e = tt
    found (some parent) e = (
      (refl, refl, refl, refl),
      insert-KeptEntries p (superseded_entry parent) db.knowledge_entries λ old stored.
          subst (λ x. Follows x (superseded_entry parent))
            (some-injective parent old (sym e ∙ stored)) (superseded_entry-Follows parent),
      refl,
    )

pub supersede_parents-AppliesKnowledge :
    (id : String) (now : ℕ) (ps : List String) (db : Database)
    → OnReturned (AppliesKnowledge db) (supersede_parents id now ps db)
unfolding supersede_parents
supersede_parents-AppliesKnowledge id now [] db = AppliesKnowledge-refl db
supersede_parents-AppliesKnowledge id now (p ∷ ps) db =
    OnReturned-bind (AppliesKnowledge db) (supersede_parent id now p db) _ λ after one.
      OnReturned-map (AppliesKnowledge after) (AppliesKnowledge db)
        (supersede_parents id now ps after)
        (λ last rest.
          AppliesKnowledge-trans db after last
            (OnReturned-eq (AppliesKnowledge db) (supersede_parent id now p db) after
              (supersede_parent-AppliesKnowledge id now p db) one)
            rest)
        (supersede_parents-AppliesKnowledge id now ps after)

pub apply_retirement-AppliesKnowledge :
    (i : ℕ) (item : Object) (db : Database)
    → OnReturned (λ r. AppliesKnowledge db r.1) (apply_retirement i item db)
unfolding apply_retirement retire_found retired_entry
apply_retirement-AppliesKnowledge i item db =
    found (text_at "retire" item) (lookup (text_at "retire" item) db.knowledge_entries) refl
  where
    found :
        (id : String) (o : Option KnowledgeEntry)
        → lookup id db.knowledge_entries ≡ o
        → OnReturned (λ r. AppliesKnowledge db r.1) (retire_found i id (text_at "reason" item) db o)
    found id none e = tt
    found id (some target) e =
        OnReturned-reject_if _ (not (is_active target.status)) Code.invalid_retire_target _ λ live.
          set_entry-AppliesKnowledge id (retired_entry (text_at "reason" item) target) db
            λ old stored.
              subst (λ x. Follows x (retired_entry (text_at "reason" item) target))
                (some-injective target old (sym e ∙ stored)) (refl, λ closed. ground arith)

flag_duplicates-AppliesKnowledge :
    (s : Service) (id : String) (now : ℕ) (e : KnowledgeEntry) (db : Database)
    → AppliesKnowledge db (flag_duplicates s id now e db)
unfolding flag_duplicates
flag_duplicates-AppliesKnowledge s id now e db = by_kind e.is_doctrine_proposal _
  where
    by_kind :
        (b : Bool) (f : List Flag) → AppliesKnowledge db (if b then db else record db { flags = f })
    by_kind true f = AppliesKnowledge-refl db
    by_kind false f = ((refl, refl, refl, refl), KeptEntries-refl db.knowledge_entries, refl)

pub free-not_some :
    (o : Option KnowledgeEntry) (b : Bool) (e : KnowledgeEntry)
    → (is_some o || b) ≡ false
    → o ≡ some e
    → ⊥
free-not_some none b e free stored = cc
free-not_some (some x) b e free stored = cc

pub apply_creation-AppliesKnowledge :
    (s : Service) (deposit_id : String) (d : Deposit) (id : String) (i : ℕ) (item : Object)
    (db : Database)
    → OnReturned (λ r. AppliesKnowledge db r.1) (apply_creation s deposit_id d id i item db)
unfolding apply_creation
apply_creation-AppliesKnowledge s deposit_id d id i item db =
    let entry = new_entry deposit_id d item in
    OnReturned-fail_if _
      (is_some (lookup id db.knowledge_entries) || is_unregistered entry.project db.projects) _ _
      λ free.
        OnReturned-bind _
          (supersede_parents id d.received_at (first_seen [] entry.supersedes)
            (set_entry id entry db))
          _
          λ after done.
            AppliesKnowledge-trans db (set_entry id entry db)
              (flag_duplicates s id d.received_at entry after)
              (set_entry-AppliesKnowledge id entry db
                λ old stored. absurd (free-not_some _ _ old free stored))
              (AppliesKnowledge-trans (set_entry id entry db) after
                (flag_duplicates s id d.received_at entry after)
                (OnReturned-eq (AppliesKnowledge (set_entry id entry db)) _ after
                  (supersede_parents-AppliesKnowledge id d.received_at
                    (first_seen [] entry.supersedes) (set_entry id entry db))
                  done)
                (flag_duplicates-AppliesKnowledge s id d.received_at entry after))

pub apply_item-AppliesKnowledge :
    (s : Service) (deposit_id : String) (d : Deposit) (id : String) (i : ℕ) (item : Object)
    (db : Database)
    → OnReturned (λ r. AppliesKnowledge db r.1) (apply_item s deposit_id d id i item db)
unfolding apply_item
apply_item-AppliesKnowledge s deposit_id d id i item db = elim (Bool-cases (is_retire_item item)) [
  | inl retires ↦ rw retires (apply_retirement-AppliesKnowledge i item db)
  | inr creates ↦ rw creates (apply_creation-AppliesKnowledge s deposit_id d id i item db)
]

pub apply_knowledge-AppliesKnowledge :
    (s : Service) (deposit_id : String) (d : Deposit) (ids : ℕ → String) (i : ℕ)
    (items : List Object) (db : Database)
    → OnReturned (λ r. AppliesKnowledge db r.1) (apply_knowledge s deposit_id d ids i items db)
unfolding apply_knowledge
apply_knowledge-AppliesKnowledge s deposit_id d ids i [] db = AppliesKnowledge-refl db
apply_knowledge-AppliesKnowledge s deposit_id d ids i (item ∷ items) db =
    OnReturned-bind _ (apply_item s deposit_id d (ids i) i item db) _ λ r one.
      OnReturned-bind _ (apply_knowledge s deposit_id d ids (suc i) items r.1) _ λ more rest.
        AppliesKnowledge-trans db r.1 more.1
          (OnReturned-eq (λ x. AppliesKnowledge db x.1) _ r
            (apply_item-AppliesKnowledge s deposit_id d (ids i) i item db) one)
          (OnReturned-eq (λ x. AppliesKnowledge r.1 x.1) _ more
            (apply_knowledge-AppliesKnowledge s deposit_id d ids (suc i) items r.1) rest)

apply_document-AppliesDocuments :
    (deposit_id : String) (d : Deposit) (id : String) (item : Object) (db : Database)
    → OnReturned (λ r. AppliesDocuments db r.1) (apply_document deposit_id d id item db)
unfolding apply_document
apply_document-AppliesDocuments deposit_id d id item db =
    OnReturned-fail_if _ (is_some (lookup id db.mirrored_documents)) _ _
      λ free. ((refl, refl, refl, refl), refl)

pub apply_documents-AppliesDocuments :
    (deposit_id : String) (d : Deposit) (ids : ℕ → String) (i : ℕ) (items : List Object)
    (db : Database)
    → OnReturned (λ r. AppliesDocuments db r.1) (apply_documents deposit_id d ids i items db)
unfolding apply_documents
apply_documents-AppliesDocuments deposit_id d ids i [] db = ((refl, refl, refl, refl), refl)
apply_documents-AppliesDocuments deposit_id d ids i (item ∷ items) db =
    OnReturned-bind _ (apply_document deposit_id d (ids i) item db) _ λ r one.
      OnReturned-bind _ (apply_documents deposit_id d ids (suc i) items r.1) _ λ more rest.
        AppliesDocuments-trans db r.1 more.1
          (OnReturned-eq (λ x. AppliesDocuments db x.1) _ r
            (apply_document-AppliesDocuments deposit_id d (ids i) item db) one)
          (OnReturned-eq (λ x. AppliesDocuments r.1 x.1) _ more
            (apply_documents-AppliesDocuments deposit_id d ids (suc i) items r.1) rest)
