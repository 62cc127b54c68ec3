-- ===== src/Deposits.antt =====
-- app/routers/deposits.py with the rows of app/models.py that it writes and the request and the
-- answer of app/schemas.py. The ids of events, handoffs and flags are not modelled.
pub mod Validate
pub mod References
pub mod Knowledge
pub mod Documents
pub mod Insert
pub mod Create
pub mod Kept
pub mod Applied
pub mod Later
pub mod Answered
pub mod Sound
pub mod Separated
pub mod Preserves
pub mod Versions
pub mod History
pub mod Replay
use brainard.Prelude.{ℕ, String, Bool, true, false, Option, List}
use brainard.Prelude.Json.{Json, Object}
use brainard.Prelude.Table.{Table}
use brainard.Errors.{Code, ApiError}
use brainard.Judgments.{Flag}

-- What leaves a function in Python: a rejection, an error of the database, or a defect.
pub data Exception : Type 0 where
  api_error : ApiError → Exception
  integrity_error type_error attribute_error assertion_error : Exception

pub data Try {ℓ} (A : Type ℓ) : Type ℓ where
  returned : A → Try A
  raised : Exception → Try A

infixl 5 ◌>>=◌
abbrev pub ◌>>=◌ {ℓ κ} : {A : Type ℓ} {B : Type κ} → Try A → (A → Try B) → Try B
raised e >>= next = raised e
returned a >>= next = next a

infixl 5 ◌>>◌
abbrev pub ◌>>◌ {ℓ} : {B : Type ℓ} → Try (Unit {0}) → Try B → Try B
check >> next = check >>= λ _. next

-- `if test: raise ApiError(422, code, …)`
abbrev pub reject_if : Bool → Code → Try (Unit {0})
reject_if true code = raised (api_error (record { status_code = 422; code = code }))
reject_if false code = returned tt

-- An exception raised by Python or by the database where the test holds.
abbrev pub fail_if : Bool → Exception → Try (Unit {0})
fail_if true e = raised e
fail_if false e = returned tt

pub record Project : Type 0 where
  pub status : String
  pub created_at : ℕ
  pub description : Option String

pub record KnowledgeAckItem : Type 0 where
  pub index : ℕ
  pub action : String
  pub id : String
  pub title : String

pub record DocumentAckItem : Type 0 where
  pub path : String
  pub version : ℕ
  pub id : String

pub record Deposit : Type 0 where
  pub machine_id : String
  pub tool : String
  pub session : String
  pub project : String
  pub reason : String
  pub client_ts : ℕ
  pub doctrine_version : Option String
  pub metrics : Option Object
  pub no_handoff : Option String
  pub received_at : ℕ
  pub stub_created : Bool
  pub knowledge_ack : List KnowledgeAckItem
  pub documents_ack : List DocumentAckItem

pub record Event : Type 0 where
  pub deposit_id : String
  pub project : String
  pub seq : ℕ
  pub ts : ℕ
  pub kind : String
  pub summary : String
  pub payload : Option Object
  pub tags : List String

pub record Handoff : Type 0 where
  pub deposit_id : String
  pub project : String
  pub stands : String
  pub in_flight : String
  pub blocked : String
  pub next_steps : String
  pub notes : Option String
  pub received_at : ℕ

pub data EntryStatus : Type 0 where
  active superseded retired : EntryStatus

unfoldable pub is_active : EntryStatus → Bool
is_active active = true
is_active _ = false

pub record KnowledgeEntry : Type 0 where
  pub title : String
  pub namespace : String
  pub project : Option String
  pub tags : List String
  pub status : EntryStatus
  pub retire_reason : Option String
  pub supersedes : List String
  pub body : String
  pub machine_id : String
  pub tool : String
  pub session : String
  pub deposit_id : String
  pub created_at : ℕ
  pub is_doctrine_proposal : Bool

pub record MirroredDocument : Type 0 where
  pub project : String
  pub path : String
  pub kind : String
  pub title : String
  pub content : String
  pub version : ℕ
  pub deposit_id : String
  pub machine_id : String
  pub created_at : ℕ

-- The tables that a deposit reads and writes.
pub record Database : Type 0 where
  pub projects : Table Project
  pub deposits : Table Deposit
  pub events : List Event
  pub handoffs : List Handoff
  pub knowledge_entries : Table KnowledgeEntry
  pub flags : List Flag
  pub mirrored_documents : Table MirroredDocument

pub record EventIn : Type 0 where
  pub seq : ℕ
  pub ts : ℕ
  pub kind : String
  pub summary : String
  pub payload : Option Object
  pub tags : List String

pub record HandoffIn : Type 0 where
  pub stands : String
  pub in_flight : String
  pub blocked : String
  pub next_steps : String
  pub notes : Option String

-- The metrics are given as the object that is stored of them.
pub record DepositRequest : Type 0 where
  pub deposit_id : String
  pub tool : String
  pub session : String
  pub project : String
  pub reason : String
  pub client_ts : ℕ
  pub doctrine_version : Option String
  pub metrics : Option Object
  pub events : List EventIn
  pub handoff : Option HandoffIn
  pub no_handoff : Option String
  pub knowledge : List Object
  pub documents : List Object
  pub project_update : Option Object

pub record DepositResponse : Type 0 where
  pub deposit_id : String
  pub received_at : ℕ
  pub replayed : Bool
  pub events : ℕ
  pub handoff : Bool
  pub project : String
  pub stub_created : Bool
  pub knowledge : List KnowledgeAckItem
  pub documents : List DocumentAckItem

-- What libraries and the database's text search answer: whether a text is a ULID, the bytes of a
-- payload as JSON, and the entries that a new entry may duplicate.
pub record Service : Type 0 where
  pub is_valid_ulid : String → Bool
  pub json_bytes : Object → ℕ
  pub duplicate_hints : Table KnowledgeEntry → String → KnowledgeEntry → List String

-- Who sends a request, and for each attempt to insert it the time and the ids that are drawn.
pub record Arrival : Type 0 where
  pub machine_id : String
  pub received_at : ℕ → ℕ
  pub entry_id : ℕ → ℕ → String
  pub document_id : ℕ → ℕ → String
