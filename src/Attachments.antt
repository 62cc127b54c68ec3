-- ===== src/Attachments.antt =====
-- app/attachments.py: the store of the blobs, its references, and the operations on both. The
-- display names come sanitized by `safe_filename_component` of app/room_export.py.
pub mod Add
pub mod Reclaim
pub mod Save
pub mod Entry
pub mod Requests
pub mod Sound
pub mod Sweep
pub mod Resolved
pub mod Outcome
pub mod Kept
pub mod Saved
pub mod Addressed
use brainard.Prelude.{
  ℕ, zero, suc, ◌+◌, ◌-◌, ◌*◌, String, Bool, true, false, not, ◌&&◌, ◌||◌, Option, none, some, List,
  [], ◌∷◌, ◌++◌, ◌==◌, ltb, leb, if◌then◌else◌, length, any, contains, keep, is_none, is_some,
  get_or_else,
}
use brainard.Prelude.Text.{strip, is_empty}
use brainard.Prelude.Table.{Table, lookup, insert, remove}
use brainard.Errors.{Code, ApiError, Result, ok, err, raise, raise_if, ◌>>=◌, ◌>>◌}
use brainard.Model.{Room, RoomAttachment, Chat, Hub, Principal, is_open, is_owner, seconds}
use brainard.Rooms.Queries.{get_members}
use brainard.Rooms.Seats.{check_and_bind_seat}
use brainard.Uploads.{Settings, Format, pdf, md, Storage}

pub record AttachmentBlob : Type 0 where
  pub byte_size : ℕ
  pub created_at : ℕ

-- What attachments read and write of a mirrored document.
pub record Document : Type 0 where
  pub title : String
  pub blob_sha256 : Option String

-- The tables; `total_bytes` is the singleton row of AttachmentStorageStats, if it is there.
pub record Database : Type 0 where
  pub hub : Hub
  pub blobs : Table AttachmentBlob
  pub total_bytes : Option ℕ
  pub documents : Table Document

-- The storage directory: the temporary files, and the blobs by hash under either suffix.
pub record Directory : Type 0 where
  pub storage : Storage
  pub pdf_files : Table (List ℕ)
  pub md_files : Table (List ℕ)

pub record Vault : Type 0 where
  pub db : Database
  pub dir : Directory

abbrev pub files_of : Format → Directory → Table (List ℕ)
files_of pdf dir = dir.pdf_files
files_of md dir = dir.md_files

unfoldable pub set_files : Format → Table (List ℕ) → Directory → Directory
set_files pdf files dir = record dir { pdf_files = files }
set_files md files dir = record dir { md_files = files }

-- `tmp_path.unlink(missing_ok=True)`
unfoldable pub unlink_tmp : String → Directory → Directory
unlink_tmp tmp dir = record dir {
  storage = record dir.storage { files = remove tmp dir.storage.files };
}

-- `blob_path` without a format, for a hash: the suffix of the file that exists, by default pdf.
unfoldable pub stored_format : String → Directory → Format
stored_format sha256_hex dir =
    if is_some (lookup sha256_hex dir.pdf_files)
    then pdf
    else if is_some (lookup sha256_hex dir.md_files)
    then md
    else pdf

-- `attachment_media_type` of a path that `blob_path` made.
abbrev pub attachment_media_type : Format → String
attachment_media_type pdf = "application/pdf"
attachment_media_type md = "text/markdown; charset=utf-8"

-- `os.replace(tmp_path, final_path)`, unless the blob's file is there already; a 500 where both files
-- are missing.
unfoldable pub move_into_place : String → String → Format → Directory → Result Directory
unfolding set_files
move_into_place tmp sha256_hex fmt dir =
    if is_some (lookup sha256_hex (files_of fmt dir))
    then ok (unlink_tmp tmp dir)
    else elim (lookup tmp dir.storage.files) [
      | none ↦ raise 500 Code.attachment_storage_inconsistent
      | some content ↦
          ok (set_files fmt (insert sha256_hex content (files_of fmt dir)) (unlink_tmp tmp dir))
    ]

unfoldable pub create_blob :
    String → ℕ → ℕ → Database → Directory → Result Directory → Result Database × Directory
create_blob sha256_hex byte_size now db dir (err e) = (err e, dir)
create_blob sha256_hex byte_size now db dir (ok moved) = (
  ok (record db {
    blobs = insert sha256_hex (record { byte_size = byte_size; created_at = now }) db.blobs;
    total_bytes = some (get_or_else db.total_bytes 0 + byte_size);
  }),
  moved,
)

-- `_get_or_create_blob`, in the caller's transaction.
unfoldable pub get_or_create_blob :
    Settings → String → ℕ → String → Format → ℕ → Database → Directory → Result Database × Directory
unfolding create_blob move_into_place unlink_tmp
get_or_create_blob s sha256_hex byte_size tmp fmt now db dir =
    if is_some (lookup sha256_hex db.blobs)
    then (ok db, unlink_tmp tmp dir)
    else if ltb s.attachment_global_ceiling_bytes (get_or_else db.total_bytes 0 + byte_size)
    then (raise 413 Code.attachment_global_ceiling_exceeded, unlink_tmp tmp dir)
    else create_blob sha256_hex byte_size now db dir (move_into_place tmp sha256_hex fmt dir)

-- `_clean_sender`
unfoldable pub clean_sender : String → Principal → Result String
clean_sender sender principal = do
  raise_if (is_empty (strip sender)) 422 Code.invalid_sender
  raise_if (strip sender == "owner" && not (is_owner principal)) 403
      Code.owner_sender_requires_owner_token
  ok (strip sender)

-- `_sender_is_member`
abbrev pub sender_is_member : Chat → String → Bool
sender_is_member c sender = contains sender (get_members c)

-- What the row lock guards, for an upload (`is_upload`) and for a document of the Brain: the sender,
-- and the room with the sender's seat.
unfoldable pub check_entry : Settings → Bool → Chat → String → Principal → Result (String × Chat)
check_entry s is_upload c sender principal = do
  raise_if (not (is_open c.room)) 409 Code.room_closed
  cleaned ← clean_sender sender principal
  raise_if (not (cleaned == "owner") && not (sender_is_member c cleaned)) 403
      Code.sender_not_room_member
  raise_if (is_upload && not (cleaned == "owner") && not c.agent_uploads_allowed) 403
      Code.agent_uploads_disabled
  bound ← check_and_bind_seat c cleaned principal
  raise_if (leb s.attachment_max_files_per_room (length c.attachments)) 409
      Code.room_attachment_cap_exceeded
  ok (cleaned, bound)
