-- ===== src/Attachments/Save.antt =====
-- app/attachments.py: saving an attachment to the Brain.
use brainard.Prelude.{String, Bool, some, is_none}
use brainard.Prelude.Text.{strip, is_empty}
use brainard.Prelude.Table.{lookup, insert}
use brainard.Errors.{Code, Result, ok, err, raise_if, ◌>>=◌, ◌>>◌}
use brainard.Model.{RoomAttachment}
use brainard.Attachments.{Database, Vault}
use brainard.Attachments.Reclaim.{get_attachment_or_404}

-- The checks in front of the deposit. Whether the reserved machine is revoked is an argument.
unfoldable pub check_save : String → String → String → Bool → Database → Result RoomAttachment
check_save room_id attachment_id project revoked db = do
  a ← get_attachment_or_404 room_id attachment_id db
  raise_if (is_empty (strip project)) 422 Code.invalid_project
  raise_if (is_none (lookup a.blob_sha256 db.blobs)) 500 Code.attachment_storage_inconsistent
  raise_if revoked 503 Code.room_attachments_identity_revoked
  ok a

-- The new document, linked to the blob.
unfoldable pub link_blob : RoomAttachment → String → Database → Database
link_blob a document_id db = record db {
  documents =
      insert document_id (record { title = a.filename; blob_sha256 = some a.blob_sha256 })
        db.documents;
}

unfoldable pub save_checked : Result String → Vault → Result RoomAttachment → Result String × Vault
unfolding link_blob
save_checked deposited v (err e) = (err e, v)
save_checked (err e) v (ok a) = (err e, v)
save_checked (ok document_id) v (ok a) =
    (ok document_id, record v { db = link_blob a document_id v.db })

-- `save_attachment_to_brain`. `deposited` is what `create_deposit` answers: the id of the document
-- that it stored, or a rejection.
unfoldable pub save_attachment_to_brain :
    String → String → String → Bool → Result String → Vault → Result String × Vault
unfolding check_save save_checked
save_attachment_to_brain room_id attachment_id project revoked deposited v =
    save_checked deposited v (check_save room_id attachment_id project revoked v.db)
