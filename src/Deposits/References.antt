-- ===== src/Deposits/References.antt =====
-- app/routers/deposits.py: the checks of knowledge[] against the tables.
use brainard.Prelude.{String, Bool, not, ◌&&◌, none, some, List, ◌==◌, any, is_none, false}
use brainard.Prelude.Json.{Object, get, as_text}
use brainard.Prelude.Table.{Table, lookup}
use brainard.Errors.{Code}
use brainard.Deposits.{Try, ◌>>◌, reject_if, Project, KnowledgeEntry, Database, is_active}
use brainard.Deposits.Validate.{is_retire_item, text_at, texts_at, proposes}

-- The item names a project other than the deposit's own, and that one is not registered.
unfoldable pub names_unknown_project : Table Project → String → Object → Bool
names_unknown_project projects envelope item = elim (get "project" item) [
  | none ↦ false
  | some v ↦ elim (as_text v) [
    | none ↦ false
    | some name ↦ not (name == envelope) && is_none (lookup name projects)
  ]
]

unfoldable pub is_missing : Table KnowledgeEntry → String → Bool
is_missing entries s = is_none (lookup s entries)

unfoldable pub is_library_entry : Table KnowledgeEntry → String → Bool
is_library_entry entries s = elim (lookup s entries) [
  | none ↦ false
  | some e ↦ not (KnowledgeEntry.is_doctrine_proposal e)
]

unfoldable pub is_proposal : Table KnowledgeEntry → String → Bool
is_proposal entries s = elim (lookup s entries) [
  | none ↦ false
  | some e ↦ KnowledgeEntry.is_doctrine_proposal e
]

unfoldable pub is_retirable : Table KnowledgeEntry → String → Bool
unfolding is_active
is_retirable entries s = elim (lookup s entries) [
  | none ↦ false
  | some e ↦ is_active (KnowledgeEntry.status e)
]

-- `_validate_knowledge_references`
unfoldable pub validate_knowledge_references : Database → List Object → String → Try (Unit {0})
unfolding names_unknown_project is_missing is_library_entry is_proposal is_retirable
validate_knowledge_references db items envelope =
    let entries = db.knowledge_entries in
    do
      reject_if
          (any (λ i. not (is_retire_item i) && names_unknown_project db.projects envelope i) items)
          Code.unknown_entry_project
      reject_if
          (any (λ i. not (is_retire_item i) && any (is_missing entries) (texts_at "supersedes" i))
            items)
          Code.unknown_supersedes_reference
      reject_if
          (any
            (λ i.
              not (is_retire_item i)
              && (proposes i && any (is_library_entry entries) (texts_at "supersedes" i)))
            items)
          Code.proposal_cannot_supersede_library
      reject_if
          (any
            (λ i.
              not (is_retire_item i)
              && (not (proposes i) && any (is_proposal entries) (texts_at "supersedes" i)))
            items)
          Code.library_cannot_supersede_proposal
      reject_if
          (any (λ i. is_retire_item i && not (is_retirable entries (text_at "retire" i))) items)
          Code.invalid_retire_target
