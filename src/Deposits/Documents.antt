-- ===== src/Deposits/Documents.antt =====
-- app/routers/deposits.py: `_apply_documents`.
use brainard.Prelude.{
  ℕ, suc, ◌+◌, String, Bool, ◌&&◌, List, [], ◌∷◌, ◌==◌, max, if◌then◌else◌, is_some,
}
use brainard.Prelude.Json.{Object}
use brainard.Prelude.Table.{Table, lookup, insert}
use brainard.Deposits.{
  Try, returned, integrity_error, ◌>>=◌, ◌>>◌, fail_if, DocumentAckItem, Deposit, MirroredDocument,
  Database,
}
use brainard.Deposits.Validate.{text_at}

unfoldable pub is_at : String → String → MirroredDocument → Bool
is_at project path doc = doc.project == project && doc.path == path

-- `select(max(version))`, or zero where the path has no document yet.
unfoldable pub max_version : String → String → Table MirroredDocument → ℕ
unfolding is_at
max_version project path [] = 0
max_version project path ((id, doc) ∷ docs) =
    let rest = max_version project path docs in
    if is_at project path doc then max (MirroredDocument.version doc) rest else rest

unfoldable pub new_document : String → Deposit → Object → Table MirroredDocument → MirroredDocument
unfolding max_version
new_document deposit_id d item docs = record {
  project = d.project;
  path = text_at "path" item;
  kind = text_at "kind" item;
  title = text_at "title" item;
  content = text_at "content" item;
  version = max_version d.project (text_at "path" item) docs + 1;
  deposit_id = deposit_id;
  machine_id = d.machine_id;
  created_at = d.received_at;
}

unfoldable pub apply_document :
    String → Deposit → String → Object → Database → Try (DocumentAckItem × Database)
unfolding new_document
apply_document deposit_id d id item db =
    let doc = new_document deposit_id d item db.mirrored_documents in
    fail_if (is_some (lookup id db.mirrored_documents)) integrity_error
    >> returned (
      record { path = doc.path; version = doc.version; id = id },
      record db { mirrored_documents = insert id doc db.mirrored_documents },
    )

-- `_apply_documents`; `ids i` is the id that is drawn for the document with index `i`.
unfoldable pub apply_documents :
    String
    → Deposit
    → (ℕ → String)
    → ℕ
    → List Object
    → Database
    → Try (List DocumentAckItem × Database)
unfolding apply_document
apply_documents deposit_id d ids i [] db = returned ([], db)
apply_documents deposit_id d ids i (item ∷ items) db =
    apply_document deposit_id d (ids i) item db >>= λ r.
    apply_documents deposit_id d ids (suc i) items r.1 >>= λ more. returned (r.0 ∷ more.0, more.1)
