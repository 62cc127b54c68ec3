-- ===== src/Deposits/Knowledge.antt =====
-- app/routers/deposits.py: `_apply_knowledge`.
use brainard.Prelude.{
  ℕ, suc, String, Bool, true, false, not, ◌&&◌, ◌||◌, Option, none, some, List, [], ◌∷◌, ◌++◌, ◌==◌,
  map, if◌then◌else◌, contains, keep, is_none, is_some,
}
use brainard.Prelude.Json.{Object, get, as_text}
use brainard.Prelude.Table.{Table, lookup, insert}
use brainard.Errors.{Code}
use brainard.Judgments.{Flag}
use brainard.Deposits.{
  Try, returned, raised, integrity_error, attribute_error, ◌>>=◌, ◌>>◌, reject_if, fail_if, Project,
  KnowledgeAckItem, Deposit, KnowledgeEntry, active, superseded, retired, is_active, Database,
  Service,
}
use brainard.Deposits.Validate.{is_retire_item, text_at, texts_at, proposes}

unfoldable pub retired_entry : String → KnowledgeEntry → KnowledgeEntry
retired_entry reason target = record target { status = retired; retire_reason = some reason }

unfoldable pub set_entry : String → KnowledgeEntry → Database → Database
set_entry id e db = record db { knowledge_entries = insert id e db.knowledge_entries }

-- The check is made again: an earlier item may have closed the target.
unfoldable pub retire_found :
    ℕ → String → String → Database → Option KnowledgeEntry → Try (KnowledgeAckItem × Database)
unfolding retired_entry set_entry is_active
retire_found i id reason db none =
    reject_if true Code.invalid_retire_target >> raised attribute_error
retire_found i id reason db (some target) = do
  reject_if (not (is_active target.status)) Code.invalid_retire_target
  returned (
    record { index = i; action = "retired"; id = id; title = target.title },
    set_entry id (retired_entry reason target) db,
  )

-- A retire action.
unfoldable pub apply_retirement : ℕ → Object → Database → Try (KnowledgeAckItem × Database)
unfolding retire_found
apply_retirement i item db =
    retire_found i (text_at "retire" item) (text_at "reason" item) db
      (lookup (text_at "retire" item) db.knowledge_entries)

-- The project of a new entry: the deposit's own where the key is absent, none where it is null.
unfoldable pub entry_project : String → Object → Option String
entry_project envelope item = elim (get "project" item) [
  | none ↦ some envelope
  | some v ↦ as_text v
]

unfoldable pub new_entry : String → Deposit → Object → KnowledgeEntry
unfolding entry_project
new_entry deposit_id d item = record {
  title = text_at "title" item;
  namespace = text_at "namespace" item;
  project = entry_project d.project item;
  tags = texts_at "tags" item;
  status = active;
  retire_reason = none;
  supersedes = texts_at "supersedes" item;
  body = text_at "body" item;
  machine_id = d.machine_id;
  tool = d.tool;
  session = d.session;
  deposit_id = deposit_id;
  created_at = d.received_at;
  is_doctrine_proposal = proposes item;
}

-- `list(dict.fromkeys(xs))`, where the first list holds what was seen already.
unfoldable pub first_seen : List String → List String → List String
first_seen seen [] = []
first_seen seen (x ∷ xs) =
    let again = first_seen seen xs in
    let rest = first_seen (x ∷ seen) xs in if contains x seen then again else x ∷ rest

-- The ids of the other entries that name the parent.
unfoldable pub sibling_ids : String → String → Table KnowledgeEntry → List String
sibling_ids id parent_id entries =
    map (λ row. row.0)
      (keep (λ row. not (row.0 == id) && contains parent_id (KnowledgeEntry.supersedes row.1))
        entries)

abbrev pub new_flag : String → String → ℕ → String → Flag
new_flag type entry_id now related = record {
  type = type;
  entry_id = entry_id;
  related_entry_id = some related;
  created_at = now;
  resolved_at = none;
  resolved_by = none;
}

unfoldable pub superseded_entry : KnowledgeEntry → KnowledgeEntry
unfolding is_active
superseded_entry parent =
    if is_active parent.status then record parent { status = superseded } else parent

unfoldable pub supersede_found :
    String → ℕ → String → Database → Option KnowledgeEntry → Try Database
unfolding superseded_entry sibling_ids
supersede_found id now parent_id db none = raised attribute_error
supersede_found id now parent_id db (some parent) = returned (record db {
  flags = db.flags ++ map (new_flag "fork" id now) (sibling_ids id parent_id db.knowledge_entries);
  knowledge_entries = insert parent_id (superseded_entry parent) db.knowledge_entries;
})

-- A parent that the new entry names: forks are flagged, and an active parent is superseded.
unfoldable pub supersede_parent : String → ℕ → String → Database → Try Database
unfolding supersede_found
supersede_parent id now parent_id db =
    supersede_found id now parent_id db (lookup parent_id db.knowledge_entries)

unfoldable pub supersede_parents : String → ℕ → List String → Database → Try Database
unfolding supersede_parent
supersede_parents id now [] db = returned db
supersede_parents id now (p ∷ ps) db =
    supersede_parent id now p db >>= λ after. supersede_parents id now ps after

-- The hints of possible duplicates; a proposal gets none, nor does a parent.
unfoldable pub flag_duplicates : Service → String → ℕ → KnowledgeEntry → Database → Database
flag_duplicates s id now entry db = if entry.is_doctrine_proposal then db else record db {
  flags =
      db.flags
      ++ map (new_flag "duplicate" id now) (
          keep (λ other. not (contains other entry.supersedes))
            (s.duplicate_hints db.knowledge_entries id entry));
}

unfoldable pub is_unregistered : Option String → Table Project → Bool
is_unregistered none projects = false
is_unregistered (some p) projects = is_none (lookup p projects)

-- A new entry. The database refuses an id that is taken and a project that is not registered.
unfoldable pub apply_creation :
    Service → String → Deposit → String → ℕ → Object → Database → Try (KnowledgeAckItem × Database)
unfolding new_entry set_entry first_seen supersede_parents flag_duplicates is_unregistered
apply_creation s deposit_id d id i item db =
    let entry = new_entry deposit_id d item in
    fail_if (is_some (lookup id db.knowledge_entries) || is_unregistered entry.project db.projects)
      integrity_error
    >> (supersede_parents id d.received_at (first_seen [] entry.supersedes) (set_entry id entry db)
        >>= λ after. returned (
          record { index = i; action = "created"; id = id; title = entry.title },
          flag_duplicates s id d.received_at entry after,
        ))

unfoldable pub apply_item :
    Service → String → Deposit → String → ℕ → Object → Database → Try (KnowledgeAckItem × Database)
unfolding apply_retirement apply_creation
apply_item s deposit_id d id i item db =
    if is_retire_item item
    then apply_retirement i item db
    else apply_creation s deposit_id d id i item db

-- `_apply_knowledge`, from index `i` on; `ids i` is the id that is drawn for item `i`.
unfoldable pub apply_knowledge :
    Service
    → String
    → Deposit
    → (ℕ → String)
    → ℕ
    → List Object
    → Database
    → Try (List KnowledgeAckItem × Database)
unfolding apply_item
apply_knowledge s deposit_id d ids i [] db = returned ([], db)
apply_knowledge s deposit_id d ids i (item ∷ items) db =
    apply_item s deposit_id d (ids i) i item db >>= λ r.
    apply_knowledge s deposit_id d ids (suc i) items r.1 >>= λ more. returned (r.0 ∷ more.0, more.1)
