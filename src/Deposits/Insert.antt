-- ===== src/Deposits/Insert.antt =====
-- app/routers/deposits.py: `_insert_deposit`, one transaction, and the acknowledgment.
use brainard.Prelude.{
  ℕ, String, Bool, Option, none, some, List, [], ◌∷◌, ◌++◌, ◌==◌, map, any, length, keep,
  if◌then◌else◌, is_some, is_none,
}
use brainard.Prelude.Json.{Object, get, has, as_text}
use brainard.Prelude.Table.{lookup, insert}
use brainard.Deposits.{
  Try, returned, integrity_error, ◌>>=◌, ◌>>◌, fail_if, Project, Deposit, Event, Handoff, Database,
  EventIn, HandoffIn, DepositRequest, DepositResponse, Service, Arrival,
}
use brainard.Deposits.Validate.{text_at}
use brainard.Deposits.Knowledge.{apply_knowledge}
use brainard.Deposits.Documents.{apply_documents}

unfoldable pub updated_description : Object → Option String → Option String
updated_description update old = elim (get "description" update) [ none ↦ old | some v ↦ as_text v ]

-- `apply_project_update`: an absent key leaves the value as it is.
unfoldable pub apply_project_update : Object → Project → Project
unfolding updated_description
apply_project_update update p = record p {
  description = updated_description update p.description;
  status = if has "status" update then text_at "status" update else p.status;
}

unfoldable pub updated_project : Option Object → Project → Project
unfolding apply_project_update
updated_project none p = p
updated_project (some update) p = apply_project_update update p

abbrev pub stub : ℕ → Project
stub now = record { status = "active"; created_at = now; description = none }

-- The project's row: that of the table, or a stub.
unfoldable pub found_project : ℕ → Option Project → Project
found_project now none = stub now
found_project now (some p) = p

unfoldable pub new_event : DepositRequest → EventIn → Event
new_event body e = record {
  deposit_id = body.deposit_id;
  project = body.project;
  seq = e.seq;
  ts = e.ts;
  kind = e.kind;
  summary = e.summary;
  payload = e.payload;
  tags = e.tags;
}

unfoldable pub new_handoffs : DepositRequest → ℕ → Option HandoffIn → List Handoff
new_handoffs body now none = []
new_handoffs body now (some h) =
    record {
      deposit_id = body.deposit_id;
      project = body.project;
      stands = HandoffIn.stands h;
      in_flight = HandoffIn.in_flight h;
      blocked = HandoffIn.blocked h;
      next_steps = HandoffIn.next_steps h;
      notes = HandoffIn.notes h;
      received_at = now;
    }
    ∷ []

-- The envelope, before the compartments that are acknowledged item by item.
unfoldable pub new_deposit : DepositRequest → String → ℕ → Bool → Deposit
new_deposit body machine_id now stub_created = record {
  machine_id = machine_id;
  tool = body.tool;
  session = body.session;
  project = body.project;
  reason = body.reason;
  client_ts = body.client_ts;
  doctrine_version = body.doctrine_version;
  metrics = body.metrics;
  no_handoff = body.no_handoff;
  received_at = now;
  stub_created = stub_created;
  knowledge_ack = [];
  documents_ack = [];
}

-- The rows of the project, the deposit, its events and its handoff.
unfoldable pub store_envelope : DepositRequest → Deposit → Database → Database
unfolding found_project updated_project new_event new_handoffs
store_envelope body d db = record db {
  projects =
      insert body.project
        (updated_project body.project_update
          (found_project d.received_at (lookup body.project db.projects)))
        db.projects;
  deposits = insert body.deposit_id d db.deposits;
  events = db.events ++ map (new_event body) body.events;
  handoffs = db.handoffs ++ new_handoffs body d.received_at body.handoff;
}

unfoldable pub has_handoff : String → List Handoff → Bool
has_handoff id handoffs = any (λ h. Handoff.deposit_id h == id) handoffs

-- `_insert_deposit`, at the attempt with number `n`. The database refuses an id that is taken.
unfoldable pub insert_deposit :
    Service → Arrival → ℕ → DepositRequest → Database → Try (Deposit × Database)
unfolding new_deposit store_envelope
insert_deposit s at n body db =
    let d =
      new_deposit body at.machine_id (at.received_at n)
        (is_none (lookup body.project db.projects)) in
    fail_if (is_some (lookup body.deposit_id db.deposits)) integrity_error
    >> (apply_knowledge s body.deposit_id d (at.entry_id n) 0 body.knowledge
          (store_envelope body d db)
        >>= λ k. apply_documents body.deposit_id d (at.document_id n) 0 body.documents k.1 >>= λ m.
            let complete = record d { knowledge_ack = k.0; documents_ack = m.0 } in
            returned
              (complete, record m.1 { deposits = insert body.deposit_id complete m.1.deposits }))

unfoldable pub events_count : String → List Event → ℕ
events_count id events = length (keep (λ e. Event.deposit_id e == id) events)

-- `_build_ack`
unfoldable pub build_ack : String → Deposit → Bool → Database → DepositResponse
unfolding events_count has_handoff
build_ack id d replayed db = record {
  deposit_id = id;
  received_at = d.received_at;
  replayed = replayed;
  events = events_count id db.events;
  handoff = has_handoff id db.handoffs;
  project = d.project;
  stub_created = d.stub_created;
  knowledge = d.knowledge_ack;
  documents = d.documents_ack;
}
