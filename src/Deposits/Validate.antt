-- ===== src/Deposits/Validate.antt =====
-- app/routers/deposits.py: the checks that read the request alone, and app/projects.py's of a
-- project update. The lists of failing items in the rejections are not modelled.
use brainard.Prelude.{
  ℕ, ◌*◌, String, Bool, true, false, not, ◌&&◌, ◌||◌, Option, none, some, List, [], ◌∷◌, ◌==◌, ltb,
  any, contains, is_none, is_some, get_or_else, if◌then◌else◌,
}
use brainard.Prelude.Text.{strip, is_empty, utf8_length}
use brainard.Prelude.Json.{
  Json, Object, null, boolean, get, has, only_keys, truthy, as_text, as_texts, is_unhashable,
}
use brainard.Errors.{Code}
use brainard.Deposits.{
  Try, returned, type_error, ◌>>◌, reject_if, fail_if, EventIn, DepositRequest, Service,
}

abbrev pub valid_event_kinds : List String
valid_event_kinds =
    "session.started" ∷ "session.ended" ∷ "work.started" ∷ "work.completed" ∷ "artifact.produced"
    ∷ "decision.made" ∷ "error.hit" ∷ "lesson.candidate" ∷ "note" ∷ []

abbrev pub max_payload_bytes : ℕ
max_payload_bytes = 256 * 1024

unfoldable pub payload_size : Service → Option Object → ℕ
payload_size s none = 0
payload_size s (some payload) = s.json_bytes payload

-- `_validate_events`
unfoldable pub validate_events : Service → List EventIn → Try (Unit {0})
unfolding payload_size
validate_events s events = do
  reject_if (any (λ e. not (contains (EventIn.kind e) valid_event_kinds)) events)
      Code.unknown_event_kind
  reject_if (any (λ e. ltb max_payload_bytes (payload_size s (EventIn.payload e))) events)
      Code.payload_too_large

-- `_validate_handoff_or_waiver`
unfoldable pub validate_handoff_or_waiver : DepositRequest → Try (Unit {0})
validate_handoff_or_waiver body = if not (body.reason == "session_end") then returned tt else do
  reject_if (is_none body.handoff && is_none body.no_handoff) Code.handoff_or_waiver_required
  reject_if (is_some body.handoff && is_some body.no_handoff) Code.handoff_and_waiver_conflict

abbrev pub valid_knowledge_namespaces : List String
valid_knowledge_namespaces = "lessons" ∷ "howto" ∷ "reference" ∷ []

abbrev pub max_body_bytes : ℕ
max_body_bytes = 1024 * 1024

unfoldable pub is_retire_item : Object → Bool
is_retire_item item = has "retire" item

-- `not isinstance(v, str) or not v.strip()`
unfoldable pub is_blank : Option Json → Bool
is_blank none = true
is_blank (some v) = elim (as_text v) [ none ↦ true | some s ↦ is_empty (strip s) ]

-- `v not in {…}`, where `v` may be absent.
unfoldable pub is_outside : List String → Option Json → Bool
is_outside valid none = true
is_outside valid (some v) = elim (as_text v) [ none ↦ true | some s ↦ not (contains s valid) ]

unfoldable pub is_unhashable_at : String → Object → Bool
is_unhashable_at key item = elim (get key item) [ none ↦ false | some v ↦ is_unhashable v ]

-- A text that is blank or larger than the cap.
unfoldable pub is_bad_text : ℕ → Option Json → Bool
is_bad_text cap none = true
is_bad_text cap (some v) = elim (as_text v) [
  | none ↦ true
  | some s ↦ is_empty (strip s) || ltb cap (utf8_length s)
]

-- An absent key, whose default is the empty list, or a list of strings.
unfoldable pub is_bad_list : Option Json → Bool
is_bad_list none = false
is_bad_list (some v) = is_none (as_texts v)

-- An absent key, null, or a text that is not blank.
unfoldable pub is_bad_project : Option Json → Bool
unfolding is_blank
is_bad_project none = false
is_bad_project (some null) = false
is_bad_project (some v) = is_blank (some v)

unfoldable pub is_bad_flag : Option Json → Bool
is_bad_flag none = false
is_bad_flag (some (boolean b)) = false
is_bad_flag (some v) = true

unfoldable pub is_truthy : Option Json → Bool
is_truthy none = false
is_truthy (some v) = truthy v

unfoldable pub is_bad_retirement : Object → Bool
unfolding is_blank is_truthy
is_bad_retirement item =
    is_blank (get "retire" item)
    || is_blank (get "reason" item)
    || is_truthy (get "doctrine_proposal" item)

unfoldable pub is_bad_entry : Object → Bool
unfolding is_blank is_outside is_bad_text is_bad_list is_bad_project is_bad_flag
is_bad_entry item =
    is_blank (get "title" item)
    || is_outside valid_knowledge_namespaces (get "namespace" item)
    || is_bad_text max_body_bytes (get "body" item)
    || is_bad_list (get "tags" item)
    || is_bad_project (get "project" item)
    || is_bad_list (get "supersedes" item)
    || is_bad_flag (get "doctrine_proposal" item)

unfoldable pub is_bad_knowledge : Object → Bool
unfolding is_retire_item is_bad_retirement is_bad_entry
is_bad_knowledge item = if is_retire_item item then is_bad_retirement item else is_bad_entry item

-- `_validate_knowledge_shape`. A namespace that is a list or an object cannot be looked up.
unfoldable pub validate_knowledge_shape : List Object → Try (Unit {0})
unfolding is_bad_knowledge is_retire_item is_unhashable_at
validate_knowledge_shape items = do
  fail_if (any (λ i. not (is_retire_item i) && is_unhashable_at "namespace" i) items) type_error
  reject_if (any is_bad_knowledge items) Code.invalid_knowledge_entry

abbrev pub valid_document_kinds : List String
valid_document_kinds = "adr" ∷ "doc" ∷ []

abbrev pub max_document_content_bytes : ℕ
max_document_content_bytes = 1024 * 1024

unfoldable pub is_bad_document : Object → Bool
unfolding is_blank is_outside is_bad_text
is_bad_document item =
    is_blank (get "path" item)
    || is_outside valid_document_kinds (get "kind" item)
    || is_blank (get "title" item)
    || is_bad_text max_document_content_bytes (get "content" item)
    || not (only_keys ("path" ∷ "kind" ∷ "title" ∷ "content" ∷ []) item)

-- `_validate_documents_shape`
unfoldable pub validate_documents_shape : List Object → Try (Unit {0})
unfolding is_bad_document is_unhashable_at
validate_documents_shape items = do
  fail_if (any (is_unhashable_at "kind") items) type_error
  reject_if (any is_bad_document items) Code.invalid_document_entry

abbrev pub valid_project_statuses : List String
valid_project_statuses = "active" ∷ "paused" ∷ "done" ∷ []

unfoldable pub is_bad_description : Option Json → Bool
is_bad_description none = false
is_bad_description (some null) = false
is_bad_description (some v) = is_none (as_text v)

-- `validate_project_update`
unfoldable pub validate_project_update : Object → Try (Unit {0})
unfolding is_bad_description is_unhashable_at is_outside
validate_project_update update = do
  reject_if (not (only_keys ("description" ∷ "status" ∷ []) update)) Code.invalid_project_update
  reject_if (is_bad_description (get "description" update)) Code.invalid_project_update
  fail_if (is_unhashable_at "status" update) type_error
  reject_if (has "status" update && is_outside valid_project_statuses (get "status" update))
      Code.invalid_project_update

-- What the code reads of a member that the checks have let pass.
unfoldable pub text_at : String → Object → String
text_at key item = elim (get key item) [ none ↦ "" | some v ↦ get_or_else (as_text v) "" ]

unfoldable pub texts_at : String → Object → List String
texts_at key item = elim (get key item) [ none ↦ [] | some v ↦ get_or_else (as_texts v) [] ]

unfoldable pub proposes : Object → Bool
unfolding is_truthy
proposes item = is_truthy (get "doctrine_proposal" item)
