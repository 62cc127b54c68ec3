-- ===== src/Examples/Attachments.antt =====
-- A store with one text that two rooms share.
use brainard.Prelude.{String, true, false, ◌≡◌, refl, none, some, List, [], ◌∷◌, arith, eq_iff}
use brainard.Prelude.Table.{lookup, insert}
use brainard.Errors.{ok}
use brainard.Model.{RoomAttachment, Chat, machine}
use brainard.Rooms.Isolation.{AllChats-insert}
use brainard.Uploads.{chunk, md}
use brainard.Attachments.{AttachmentBlob, Vault}
use brainard.Attachments.Add.{NewFile, add_room_attachment}
use brainard.Attachments.Outcome.{IsAdded, add_room_attachment-IsAdded}
use brainard.Attachments.Reclaim.{
  blob_is_referenced, sweep_expired_blobs, reclaim_each, any_document, any_room, protects,
  get_attachment_or_404,
}
use brainard.Attachments.Save.{save_attachment_to_brain}
use brainard.Attachments.Sound.{IsHeld, IsSoundStore}
use brainard.Attachments.Sweep.{IsSpared, sweep_expired_blobs-IsSpared}
use brainard.Attachments.Sweep.Settled.{sweep_expired_blobs-blob_is_referenced}
use brainard.Attachments.Requests.{
  UploadRequest, Request, upload, drop, sweep, save, drop_room, serve_all, upload_pdf_attachment,
}
use brainard.Attachments.Requests.History.{serve_all-IsSoundStore}
use brainard.Attachments.Saved.{IsKept, save_attachment_to_brain-IsKept}
use brainard.Attachments.Addressed.{IsAddressed}
use brainard.Attachments.Addressed.Roundtrip.{read_blob, upload_pdf_attachment-read_blob}
use brainard.Examples.Data.{debate, waiting, empty_hub}
use brainard.Examples.Uploads.{digest, digest-a, limits, idle, is_a}
use brainard.Uploads.{
  receive_attachment_upload, receive_from, exit_with, write_validated, check_text,
  first_disallowed_control_char, is_disallowed, lacks_headroom, wrote,
}
use brainard.Rooms.Queries.{get_members}
use brainard.Rooms.Seats.{check_and_bind_seat, find_member}
use brainard.Uploads.Utf8.{decode, end_of_input, decode_chunk}
use brainard.Prelude.Text.{strip}
use brainard.Attachments.Add.{attach, attempt, refuse, store_attachment, add_attempts}
use brainard.Attachments.Requests.{add_received}
use brainard.Attachments.{create_blob, get_or_create_blob, check_entry, clean_sender}

abbrev note : String → RoomAttachment
note id = record {
  id = id;
  blob_sha256 = "h1";
  filename = "notes.md";
  uploaded_by = "ada";
  created_at = 5;
}

abbrev with_note : String → Chat → Chat
with_note id c = record c { attachments = note id ∷ [] }

abbrev row : AttachmentBlob
row = record { byte_size = 4; created_at = 5 }

abbrev vault : Vault
vault = record {
  db = record {
    hub = record empty_hub {
      chats = ("r1", with_note "a1" debate) ∷ ("r2", with_note "a2" waiting) ∷ [];
    };
    blobs = ("h1", row) ∷ [];
    total_bytes = some 4;
    documents = [];
  };
  dir = record { storage = idle; pdf_files = []; md_files = ("h1", 1 ∷ 2 ∷ 3 ∷ 4 ∷ []) ∷ [] };
}

vault-IsSoundStore : IsSoundStore limits vault
unfolding lookup insert
vault-IsSoundStore = record {
  keyed = (refl, tt);
  counted = refl;
  ceiling = ground arith;
  rooms =
      AllChats-insert (IsHeld limits vault.db.blobs)
        (record empty_hub { chats = ("r1", with_note "a1" debate) ∷ [] }) vault.db.hub "r2"
        (with_note "a2" waiting)
        (AllChats-insert (IsHeld limits vault.db.blobs) empty_hub
          (record empty_hub { chats = ("r1", with_note "a1" debate) ∷ [] }) "r1"
          (with_note "a1" debate) (record { at = λ id c e. cc }) (refl, ground arith) refl)
        (refl, ground arith) refl;
  linked = λ id d e. cc;
  filed = λ h b e. ground (arith, eq_iff "h1" h, e);
}

abbrev requests : List Request
requests =
    upload (some debate)
      (record {
        room_id = "r1";
        sender = "bob";
        principal = machine "m2";
        filename = "a.md";
        tmp = "t";
        arrivals = chunk 100 (0x61 ∷ []) ∷ [];
        last = 100;
      })
      9 "a3"
    ∷ save "r1" "a1" "brainard" false (ok "d1")
    ∷ drop "r1" "a1" 10
    ∷ drop_room (some waiting) "r2" 11
    ∷ sweep 12
    ∷ []

serve_all-IsSoundStore_example : IsSoundStore limits (serve_all digest limits requests vault)
serve_all-IsSoundStore_example =
    serve_all-IsSoundStore digest limits requests vault vault-IsSoundStore

sweep_expired_blobs-IsSpared_example :
    IsSpared limits 9 "h1" row (sweep_expired_blobs limits 9 vault).1
unfolding lookup blob_is_referenced any_document any_room protects
sweep_expired_blobs-IsSpared_example =
    sweep_expired_blobs-IsSpared limits 9 "h1" row vault refl refl refl

sweep_expired_blobs-blob_is_referenced_example :
    blob_is_referenced limits 9 "h1" (sweep_expired_blobs limits 9 vault).1.db ≡ true
unfolding lookup sweep_expired_blobs reclaim_each any_document any_room protects
sweep_expired_blobs-blob_is_referenced_example =
    sweep_expired_blobs-blob_is_referenced limits 9 "h1" row vault refl

abbrev file : NewFile
file = record {
  sender = " bob ";
  principal = machine "m2";
  filename = "notes.md";
  tmp = "t";
  sha256_hex = "h1";
  byte_size = 4;
  fmt = md;
}

add_room_attachment-IsAdded_example :
    IsAdded limits "r1" file 9 "a3" vault
      (add_room_attachment [] (some debate) limits "r1" file 9 "a3" vault)
add_room_attachment-IsAdded_example =
    add_room_attachment-IsAdded limits (some debate) "r1" file 9 "a3" vault

save_attachment_to_brain-IsKept_example : IsKept "d1" (
    serve_all digest limits
      (drop "r1" "a1" 10 ∷ drop_room (some waiting) "r2" 11 ∷ sweep 12 ∷ [])
      (save_attachment_to_brain "r1" "a1" "brainard" false (ok "d1") vault).1)
unfolding save_attachment_to_brain get_attachment_or_404 lookup strip
save_attachment_to_brain-IsKept_example =
    save_attachment_to_brain-IsKept digest limits "r1" "a1" "brainard" "d1" false
      (drop "r1" "a1" 10 ∷ drop_room (some waiting) "r2" 11 ∷ sweep 12 ∷ []) vault
      vault-IsSoundStore refl (tt, (tt, (tt, tt)))

abbrev letter : UploadRequest
letter = record {
  room_id = "r1";
  sender = "bob";
  principal = machine "m2";
  filename = "a.md";
  tmp = "t";
  arrivals = chunk 100 (0x61 ∷ []) ∷ [];
  last = 100;
}

abbrev bare_vault : Vault
bare_vault = record vault {
  dir = record { storage = idle; pdf_files = []; md_files = [] };
  db = record vault.db {
    hub = record empty_hub { chats = ("r1", debate) ∷ [] };
    blobs = [];
    total_bytes = none;
  };
}

bare_vault-IsSoundStore : IsSoundStore limits bare_vault
unfolding lookup insert
bare_vault-IsSoundStore = record {
  keyed = tt;
  counted = refl;
  ceiling = ground arith;
  rooms =
      AllChats-insert (IsHeld limits []) empty_hub bare_vault.db.hub "r1" debate
        (record { at = λ id c e. cc }) (refl, ground arith) refl;
  linked = λ id d e. cc;
  filed = λ h b e. cc;
}

bare_vault-IsAddressed : IsAddressed digest bare_vault.dir
unfolding lookup
bare_vault-IsAddressed = record {
  pdf_files = record { at = λ h c e. cc };
  md_files = record { at = λ h c e. cc };
}

letter_answer_lem :
    (upload_pdf_attachment digest limits (some debate) letter 9 "a3" bare_vault).0
    ≡ some (
        ok (record {
          id = "a3";
          blob_sha256 = "ha";
          filename = "a.md";
          uploaded_by = "bob";
          created_at = 9;
        }))
unfolding lookup upload_pdf_attachment digest is_a receive_attachment_upload receive_from exit_with
    write_validated check_text decode end_of_input decode_chunk first_disallowed_control_char strip
    attach attempt refuse store_attachment add_received create_blob get_or_create_blob is_disallowed
    lacks_headroom wrote add_room_attachment add_attempts check_entry clean_sender get_members
    check_and_bind_seat find_member insert
letter_answer_lem = refl

upload_pdf_attachment-read_blob_example :
    read_blob "ha"
      (upload_pdf_attachment digest limits (some debate) letter 9 "a3" bare_vault).1.dir
    ≡ some (0x61 ∷ [])
unfolding lookup
upload_pdf_attachment-read_blob_example =
    upload_pdf_attachment-read_blob digest limits (some debate) letter 9 "a3" bare_vault
      (record {
        id = "a3";
        blob_sha256 = "ha";
        filename = "a.md";
        uploaded_by = "bob";
        created_at = 9;
      })
      digest-a refl bare_vault-IsSoundStore bare_vault-IsAddressed letter_answer_lem
