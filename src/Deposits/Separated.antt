-- ===== src/Deposits/Separated.antt =====
-- app/routers/deposits.py: `create_deposit` keeps proposals and the library apart.
use brainard.Prelude.{
  ℕ, suc, String, false, not, ◌||◌, ◌≡◌, refl, Option, none, some, List, [], ◌∷◌, arith, Bool-cases,
  inl, inr, is_some,
}
use brainard.Prelude.Json.{Object}
use brainard.Prelude.Table.{lookup}
use brainard.Errors.{Code}
use brainard.Deposits.{Deposit, KnowledgeEntry, Database, is_active, Service}
use brainard.Deposits.Validate.{is_retire_item, text_at, texts_at, proposes}
use brainard.Deposits.Kept.{
  OnReturned, OnReturned-bind, OnReturned-reject_if, OnReturned-fail_if, OnReturned-eq,
  AppliesKnowledge,
}
use brainard.Deposits.Applied.{apply_item-AppliesKnowledge, free-not_some, superseded_entry-Follows}
use brainard.Deposits.Knowledge.{
  retired_entry, set_entry, retire_found, supersede_found, apply_retirement, new_entry, first_seen,
  superseded_entry, supersede_parent, supersede_parents, flag_duplicates, is_unregistered,
  apply_creation, apply_item, apply_knowledge,
}
use brainard.Deposits.Sound.{
  HasParents, IsSeparated, insert-IsSeparated, update-IsSeparated, HasReferences,
  HasReferences-later,
}

abbrev pub Separated : Database → Type 0
Separated db = IsSeparated db.knowledge_entries

supersede_found-Separated :
    (id : String) (now : ℕ) (p : String) (db : Database) (parent : KnowledgeEntry)
    → lookup p db.knowledge_entries ≡ some parent
    → Separated db
    → OnReturned Separated (supersede_found id now p db (some parent))
unfolding supersede_found
supersede_found-Separated id now p db parent e h =
    update-IsSeparated p parent (superseded_entry parent) db.knowledge_entries e
      (superseded_entry-Follows parent) h

supersede_none-Separated :
    (id : String) (now : ℕ) (p : String) (db : Database)
    → OnReturned Separated (supersede_found id now p db none)
unfolding supersede_found
supersede_none-Separated id now p db = tt

supersede_parents-Separated :
    (id : String) (now : ℕ) (ps : List String) (db : Database)
    → Separated db
    → OnReturned Separated (supersede_parents id now ps db)
unfolding supersede_parents supersede_parent
supersede_parents-Separated id now [] db h = h
supersede_parents-Separated id now (p ∷ ps) db h =
    OnReturned-bind Separated (supersede_found id now p db (lookup p db.knowledge_entries)) _
      λ after one.
        supersede_parents-Separated id now ps after
          (OnReturned-eq Separated _ after (found (lookup p db.knowledge_entries) refl) one)
  where
    found :
        (o : Option KnowledgeEntry)
        → lookup p db.knowledge_entries ≡ o
        → OnReturned Separated (supersede_found id now p db o)
    found none e = supersede_none-Separated id now p db
    found (some parent) e = supersede_found-Separated id now p db parent e h

retire_none-Separated :
    (i : ℕ) (id reason : String) (db : Database)
    → OnReturned (λ r. Separated r.1) (retire_found i id reason db none)
unfolding retire_found
retire_none-Separated i id reason db = tt

retire_found-Separated :
    (i : ℕ) (id reason : String) (db : Database) (target : KnowledgeEntry)
    → lookup id db.knowledge_entries ≡ some target
    → Separated db
    → OnReturned (λ r. Separated r.1) (retire_found i id reason db (some target))
unfolding retire_found retired_entry set_entry
retire_found-Separated i id reason db target e h =
    OnReturned-reject_if _ (not (is_active target.status)) Code.invalid_retire_target _ λ live.
      update-IsSeparated id target (retired_entry reason target) db.knowledge_entries e
        (refl, λ closed. ground arith) h

apply_retirement-Separated :
    (i : ℕ) (item : Object) (db : Database)
    → Separated db
    → OnReturned (λ r. Separated r.1) (apply_retirement i item db)
unfolding apply_retirement
apply_retirement-Separated i item db h =
    found (text_at "retire" item) (lookup (text_at "retire" item) db.knowledge_entries) refl
  where
    found :
        (id : String) (o : Option KnowledgeEntry)
        → lookup id db.knowledge_entries ≡ o
        → OnReturned (λ r. Separated r.1) (retire_found i id (text_at "reason" item) db o)
    found id none e = retire_none-Separated i id (text_at "reason" item) db
    found id (some target) e = retire_found-Separated i id (text_at "reason" item) db target e h

flag_duplicates-Separated :
    (s : Service) (id : String) (now : ℕ) (e : KnowledgeEntry) (db : Database)
    → Separated db
    → Separated (flag_duplicates s id now e db)
unfolding flag_duplicates
flag_duplicates-Separated s id now e db h = elim (Bool-cases e.is_doctrine_proposal) [
  | inl proposal ↦ rw proposal h
  | inr library ↦ rw library h
]

apply_creation-Separated :
    (s : Service) (deposit_id : String) (d : Deposit) (id : String) (i : ℕ) (item : Object)
    (db : Database)
    → HasParents db.knowledge_entries (texts_at "supersedes" item) (proposes item)
    → Separated db
    → OnReturned (λ r. Separated r.1) (apply_creation s deposit_id d id i item db)
unfolding apply_creation set_entry new_entry
apply_creation-Separated s deposit_id d id i item db parents h =
    let entry = new_entry deposit_id d item in
    OnReturned-fail_if _
      (is_some (lookup id db.knowledge_entries) || is_unregistered entry.project db.projects) _ _
      λ free.
        OnReturned-bind _
          (supersede_parents id d.received_at (first_seen [] entry.supersedes)
            (set_entry id entry db))
          _
          λ after done. flag_duplicates-Separated s id d.received_at entry after (
            OnReturned-eq Separated _ after
              (supersede_parents-Separated id d.received_at (first_seen [] entry.supersedes)
                (set_entry id entry db)
                (insert-IsSeparated id entry db.knowledge_entries
                  (λ old stored. absurd (free-not_some _ _ old free stored)) parents h))
              done)

apply_item-Separated :
    (s : Service) (deposit_id : String) (d : Deposit) (id : String) (i : ℕ) (item : Object)
    (db : Database)
    → (is_retire_item item ≡ false
        → HasParents db.knowledge_entries (texts_at "supersedes" item) (proposes item))
    → Separated db
    → OnReturned (λ r. Separated r.1) (apply_item s deposit_id d id i item db)
unfolding apply_item
apply_item-Separated s deposit_id d id i item db parents h =
    elim (Bool-cases (is_retire_item item)) [
      | inl retires ↦ rw retires (apply_retirement-Separated i item db h)
      | inr creates ↦
          rw creates (apply_creation-Separated s deposit_id d id i item db (parents creates) h)
    ]

pub apply_knowledge-Separated :
    (s : Service) (deposit_id : String) (d : Deposit) (ids : ℕ → String) (i : ℕ)
    (items : List Object) (db : Database)
    → HasReferences db.knowledge_entries items
    → Separated db
    → OnReturned (λ r. Separated r.1) (apply_knowledge s deposit_id d ids i items db)
unfolding apply_knowledge
apply_knowledge-Separated s deposit_id d ids i [] db refs h = h
apply_knowledge-Separated s deposit_id d ids i (item ∷ items) db (ref, refs) h =
    OnReturned-bind _ (apply_item s deposit_id d (ids i) i item db) _ λ r one.
      OnReturned-bind _ (apply_knowledge s deposit_id d ids (suc i) items r.1) _ λ more rest.
        OnReturned-eq (λ x. Separated x.1) _ more
          (apply_knowledge-Separated s deposit_id d ids (suc i) items r.1
            (HasReferences-later db.knowledge_entries r.1.knowledge_entries items
              (OnReturned-eq (λ x. AppliesKnowledge db x.1) _ r
                (apply_item-AppliesKnowledge s deposit_id d (ids i) i item db) one).1
              refs)
            (OnReturned-eq (λ x. Separated x.1) _ r
              (apply_item-Separated s deposit_id d (ids i) i item db ref h) one))
          rest
