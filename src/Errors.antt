-- ===== src/Errors.antt =====
-- app/errors.py: a rejection with its HTTP status and its machine-readable code, and results.
-- The human-readable `detail` text of a rejection is not modelled.
use mathlib.Core.Path.{subst}
use brainard.Prelude.{◌≡◌, refl, ap, ℕ, Bool, true, false}

-- One constructor for each `code` string that the modelled functions raise.
pub data Code : Type 0 where
  invalid_room_members duplicate_room_members invalid_max_messages invalid_consensus_floor : Code
  invalid_stall_notify_secs missing_room_topic invalid_room_group invalid_room_project : Code
  invalid_room_seats unknown_seat_machine seat_machine_not_active invalid_room_sides : Code
  invalid_room_deadline invalid_room_name invalid_room_mode consensus_floor_unreachable : Code
  invalid_message_kind invalid_sender empty_message_text message_text_too_large : Code
  room_not_found room_closed owner_sender_requires_owner_token room_not_opened : Code
  sender_not_room_member seat_bound_to_other_machine close_as_agreed_not_permitted : Code
  room_message_conflict_retry room_message_not_found invalid_close_reason : Code
  room_member_not_found invalid_seat_machine_id invalid_room_ids unknown_room_ids : Code
  token_revoked invalid_token owner_token_required machine_token_required invalid_role : Code
  invalid_name invalid_default_project flag_not_found proposal_not_found : Code
  proposal_already_decided : Code
  attachment_invalid_type attachment_too_large attachment_disk_floor_exceeded : Code
  attachment_global_ceiling_exceeded attachment_storage_inconsistent agent_uploads_disabled : Code
  room_attachment_cap_exceeded attachment_conflict_retry attachment_not_found : Code
  document_not_found document_not_attachable invalid_project : Code
  room_attachments_identity_revoked : Code
  unknown_event_kind payload_too_large handoff_or_waiver_required : Code
  handoff_and_waiver_conflict invalid_knowledge_entry unknown_entry_project : Code
  unknown_supersedes_reference proposal_cannot_supersede_library : Code
  library_cannot_supersede_proposal invalid_retire_target invalid_document_entry : Code
  invalid_project_update invalid_deposit_id deposit_conflict_retry : Code

pub record ApiError : Type 0 where
  pub status_code : ℕ
  pub code : Code

pub data Result {ℓ} (A : Type ℓ) : Type ℓ where
  ok : A → Result A
  err : ApiError → Result A

-- `raise ApiError(status, code, …)`
abbrev pub raise {ℓ} : {A : Type ℓ} → ℕ → Code → Result A
raise status code = err (record { status_code = status; code = code })

-- `if test: raise ApiError(status, code, …)`
abbrev pub raise_if : Bool → ℕ → Code → Result (Unit {0})
raise_if true status code = raise status code
raise_if false status code = ok tt

-- A step that goes on with what an earlier one returned.
infixl 5 ◌>>=◌
abbrev pub ◌>>=◌ {ℓ κ} : {A : Type ℓ} {B : Type κ} → Result A → (A → Result B) → Result B
err rejected >>= next = err rejected
ok value >>= next = next value

-- A step after a check.
infixl 5 ◌>>◌
abbrev pub ◌>>◌ {ℓ} : {B : Type ℓ} → Result (Unit {0}) → Result B → Result B
check >> next = check >>= λ _. next

abbrev from_ok {ℓ} : {A : Type ℓ} → A → Result A → A
from_ok d (ok a) = a
from_ok d (err e) = d

-- The result satisfies `P`, if there is one.
abbrev pub OnOk {ℓ κ} : {A : Type ℓ} → (A → Type κ) → Result A → Type κ
OnOk P (ok a) = P a
OnOk P (err e) = Unit

pub OnOk-eq {ℓ κ} : {A : Type ℓ} (P : A → Type κ) (r : Result A) {a : A} → OnOk P r → r ≡ ok a → P a
OnOk-eq P (ok b) h e = subst P (ap (from_ok b) e) h
OnOk-eq P (err x) h e = cc

pub OnOk-intro {ℓ κ} :
    {A : Type ℓ} (P : A → Type κ) (r : Result A) → ((a : A) → r ≡ ok a → P a) → OnOk P r
OnOk-intro P (ok a) h = h a refl
OnOk-intro P (err x) h = tt

pub OnOk-bind {ℓ κ} :
    {A B : Type ℓ} (P : B → Type κ) (r : Result A) (f : A → Result B)
    → ((a : A) → r ≡ ok a → OnOk P (f a))
    → OnOk P (r >>= f)
OnOk-bind P (ok a) f h = h a refl
OnOk-bind P (err x) f h = tt

pub OnOk-raise_if {ℓ κ} :
    {B : Type ℓ} (P : B → Type κ) (b : Bool) (status : ℕ) (code : Code) (k : Result B)
    → (b ≡ false → OnOk P k)
    → OnOk P (raise_if b status code >> k)
OnOk-raise_if P true status code k h = tt
OnOk-raise_if P false status code k h = h refl

pub OnOk-map {ℓ κ} :
    {A : Type ℓ} (P Q : A → Type κ) (r : Result A) → ((a : A) → P a → Q a) → OnOk P r → OnOk Q r
OnOk-map P Q (ok a) f h = f a h
OnOk-map P Q (err e) f h = tt
