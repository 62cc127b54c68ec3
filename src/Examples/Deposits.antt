-- ===== src/Examples/Deposits.antt =====
-- Deposits of a session: a lesson that supersedes another, a document, an event and a handoff.
use brainard.Prelude.{arith, ℕ, ◌+◌, String, true, false, ◌≡◌, refl, none, some, List, [], ◌∷◌}
use brainard.Prelude.Json.{Json, text, array, Object, member, no_members, element, no_elements}
use brainard.Prelude.Json.{has, get, is_unhashable, as_text, as_texts, truthy, only_keys}
use brainard.Prelude.Text.{strip, utf8_length}
use brainard.Deposits.Validate.{
  validate_knowledge_shape, validate_documents_shape, validate_events, validate_handoff_or_waiver,
  is_retire_item, text_at, texts_at, proposes,
}
use brainard.Deposits.References.{validate_knowledge_references}
use brainard.Deposits.Knowledge.{apply_knowledge}
use brainard.Deposits.Documents.{apply_documents, max_version}
use brainard.Deposits.Insert.{insert_deposit, build_ack, has_handoff, events_count}
use brainard.Prelude.Table.{lookup, insert}
use brainard.Deposits.{
  returned, raised, type_error, Database, DepositRequest, DepositResponse, Service, Arrival,
}
use brainard.Deposits.Kept.{KeptEntries}
use brainard.Deposits.Sound.{IsSeparated}
use brainard.Deposits.Create.{Submission, Meanwhile, create_deposit, create_deposits}
use brainard.Deposits.Replay.{create_deposit-replayed}
use brainard.Deposits.Versions.{count_at, KeptDocuments, IsVersioned, create_deposits-IsVersioned}
use brainard.Deposits.History.{create_deposits-IsSeparated}

abbrev service : Service
service = record {
  is_valid_ulid = λ id. true;
  json_bytes = λ o. 2;
  duplicate_hints = λ entries id e. [];
}

abbrev arrival : (ℕ → ℕ → String) → (ℕ → ℕ → String) → Arrival
arrival entries documents = record {
  machine_id = "M1";
  received_at = λ n. 100 + n;
  entry_id = entries;
  document_id = documents;
}

abbrev empty_database : Database
empty_database = record {
  projects = [];
  deposits = [];
  events = [];
  handoffs = [];
  knowledge_entries = [];
  flags = [];
  mirrored_documents = [];
}

abbrev lesson : String → Json → Object
lesson title parents = member "title" (text title) (
    member "namespace" (text "lessons")
      (member "body" (text "Restart the worker.") (member "supersedes" parents no_members)))

abbrev adr : Object
adr = member "path" (text "docs/adr-1.md") (
    member "kind" (text "adr")
      (member "title" (text "Queues") (member "content" (text "We use one.") no_members)))

abbrev request : String → List Object → List Object → DepositRequest
request id knowledge documents = record {
  deposit_id = id;
  tool = "cli";
  session = "S1";
  project = "garden";
  reason = "session_end";
  client_ts = 90;
  doctrine_version = none;
  metrics = none;
  events =
      record { seq = 1; ts = 80; kind = "note"; summary = "Done."; payload = none; tags = [] } ∷ [];
  handoff = none;
  no_handoff = some "nothing left";
  knowledge = knowledge;
  documents = documents;
  project_update = none;
}

abbrev first : Submission
first = record {
  body = request "D1" (lesson "Old" (array no_elements) ∷ []) (adr ∷ []);
  at = arrival (λ n i. "E1") (λ n i. "F1");
}

-- Commits while the first attempt of `first` runs.
abbrev rival : Submission
rival = record { body = request "D2" [] (adr ∷ []); at = arrival (λ n i. "E2") (λ n i. "F2") }

-- Commits between the two attempts.
abbrev early : Submission
early = record { body = request "D5" [] []; at = arrival (λ n i. "E5") (λ n i. "F5") }

abbrev around : List Meanwhile
around = record { collision = rival; after = early ∷ [] } ∷ []

abbrev successor : Submission
successor = record {
  body = request "D3" (lesson "New" (array (element (text "E1") no_elements)) ∷ []) [];
  at = arrival (λ n i. "E3") (λ n i. "F3");
}

abbrev resent : Submission
resent = record { body = request "D1" [] []; at = arrival (λ n i. "E4") (λ n i. "F4") }

abbrev first_ack : DepositResponse
first_ack = record {
  deposit_id = "D1";
  received_at = 101;
  replayed = false;
  events = 1;
  handoff = false;
  project = "garden";
  stub_created = false;
  knowledge = record { index = 0; action = "created"; id = "E1"; title = "Old" } ∷ [];
  documents = record { path = "docs/adr-1.md"; version = 2; id = "F1" } ∷ [];
}

-- The second attempt is accepted, with the next version of the document.
first-acknowledged : (create_deposit service first (around) empty_database).0 ≡ returned first_ack
unfolding create_deposit lookup insert has get is_unhashable as_text as_texts truthy only_keys strip
    utf8_length validate_knowledge_shape validate_knowledge_references validate_documents_shape
    validate_events validate_handoff_or_waiver insert_deposit apply_knowledge apply_documents
    is_retire_item text_at texts_at proposes build_ack has_handoff events_count max_version
first-acknowledged = refl

create_deposit-replayed_example :
    create_deposit service resent [] (
      create_deposits service
        ((successor, []) ∷ [])
        (create_deposit service first (around) empty_database).1)
    ≡ (
      returned (record first_ack { replayed = true }),
      create_deposits service
          ((successor, []) ∷ [])
          (create_deposit service first (around) empty_database).1,
    )
create_deposit-replayed_example =
    create_deposit-replayed service first resent (around) [] ((successor, []) ∷ []) empty_database
      first_ack first-acknowledged refl

empty-IsSeparated : IsSeparated []
unfolding lookup
empty-IsSeparated = λ j e found. cc

create_deposits-IsSeparated_example :
    KeptEntries []
      (create_deposits service
        ((first, around) ∷ (successor, []) ∷ [])
        empty_database).knowledge_entries
    × IsSeparated
        (create_deposits service
          ((first, around) ∷ (successor, []) ∷ [])
          empty_database).knowledge_entries
create_deposits-IsSeparated_example =
    create_deposits-IsSeparated service ((first, around) ∷ (successor, []) ∷ []) empty_database
      empty-IsSeparated

-- A namespace that is a list is no rejection: the look-up in the set fails.
list_namespace-type_error :
    validate_knowledge_shape (member "namespace" (array no_elements) no_members ∷ [])
    ≡ raised type_error
unfolding validate_knowledge_shape has get is_unhashable
list_namespace-type_error = refl

create_deposits-IsVersioned_example :
    KeptDocuments []
      (create_deposits service
        ((first, around) ∷ (successor, []) ∷ [])
        empty_database).mirrored_documents
    × IsVersioned
        (create_deposits service
          ((first, around) ∷ (successor, []) ∷ [])
          empty_database).mirrored_documents
unfolding count_at max_version
create_deposits-IsVersioned_example =
    create_deposits-IsVersioned service ((first, around) ∷ (successor, []) ∷ []) empty_database
      (λ project path version. ground arith)
