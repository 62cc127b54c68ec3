-- ===== src/Attachments/Addressed/Roundtrip.antt =====
-- app/attachments.py: what was uploaded is what is served.
use mathlib.Core.Path.{subst}
use brainard.Prelude.{
  ℕ, String, true, ◌≡◌, refl, sym, ap, ◌∙◌, ◌⊎◌, Option, none, some, List, is_some, arith,
  Bool-cases, Option-cases, inl, inr, ==-self,
}
use brainard.Prelude.Table.{lookup, lookup-insert}
use brainard.Errors.{Result, ok, err}
use brainard.Model.{RoomAttachment, Chat}
use brainard.Uploads.{
  Settings, Storage, Exit, received, rejected, disconnected, receive_attachment_upload,
}
use brainard.Uploads.Reference.{upload_of, content_of}
use brainard.Uploads.Exits.{IsSettled}
use brainard.Uploads.Whole.{receive_attachment_upload-IsSettled}
use brainard.Attachments.{AttachmentBlob, Database, Directory, Vault, files_of, stored_format}
use brainard.Attachments.Add.{NewFile}
use brainard.Attachments.Sound.{is_stored, has_file, IsSoundStore}
use brainard.Attachments.Resolved.{IsAccounted}
use brainard.Attachments.Outcome.{IsAdded, add_room_attachment-IsAdded}
use brainard.Attachments.Requests.{UploadRequest, set_storage, add_received, upload_pdf_attachment}
use brainard.Attachments.Requests.History.{upload_pdf_attachment-IsSoundStore}
use brainard.Attachments.Addressed.{IsAddressed, files_of-HoldsByHash}
use brainard.Attachments.Addressed.Requested.{upload_pdf_attachment-IsAddressed}

-- The bytes that a download of the blob serves.
unfoldable pub read_blob : String → Directory → Option (List ℕ)
unfolding stored_format
read_blob h dir = lookup h (files_of (stored_format h dir) dir)

read_blob-has_file :
    (h : String) (dir : Directory) → has_file h dir ≡ true → is_some (read_blob h dir) ≡ true
unfolding read_blob
read_blob-has_file h dir e = ground (arith, e)

read_blob-IsAddressed :
    (sha256 : List ℕ → String) (h : String) (dir : Directory) (content : List ℕ)
    → IsAddressed sha256 dir
    → read_blob h dir ≡ some content
    → sha256 content ≡ h
unfolding read_blob
read_blob-IsAddressed sha256 h dir content k e =
    (files_of-HoldsByHash sha256 (stored_format h dir) dir k).at h content e

IsAccounted-is_stored :
    (s : Settings) (sha : String) (size now : ℕ) (before after : Database)
    → IsAccounted s sha size now before after
    → is_stored sha after.blobs ≡ true
IsAccounted-is_stored s sha size now before after h =
    elim (Bool-cases (is_stored sha before.blobs)) [
      | inl there ↦ rw (h.blobs, there) there
      | inr new ↦
          rw (h.blobs, new)
            (rw
              (
                lookup-insert sha sha (record { byte_size = size; created_at = now }) before.blobs,
                ==-self sha,
              )
              refl)
    ]

module _ (sha256 : List ℕ → String) (s : Settings) where
  -- The file of an addressed, sound store under the hash of a content is that content.
  read_blob-content :
      (content : List ℕ) (v : Vault)
      → ((other : List ℕ) → sha256 other ≡ sha256 content → other ≡ content)
      → IsSoundStore s v
      → IsAddressed sha256 v.dir
      → is_stored (sha256 content) v.db.blobs ≡ true
      → read_blob (sha256 content) v.dir ≡ some content
  read_blob-content content v unique h k there =
      read (Option-cases (lookup (sha256 content) v.db.blobs))
        (Option-cases (read_blob (sha256 content) v.dir))
    where
      read :
          (lookup (sha256 content) v.db.blobs ≡ none)
            ⊎ ((b : AttachmentBlob) × (lookup (sha256 content) v.db.blobs ≡ some b))
          → (read_blob (sha256 content) v.dir ≡ none)
            ⊎ ((other : List ℕ) × (read_blob (sha256 content) v.dir ≡ some other))
          → read_blob (sha256 content) v.dir ≡ some content
      read (inl gone) other = cc (sym (ap is_some gone) ∙ there)
      read (inr (b, found)) (inl gone) = cc (
          sym (ap is_some gone)
          ∙ read_blob-has_file (sha256 content) v.dir (h.filed (sha256 content) b found))
      read (inr (b, found)) (inr (other, e)) =
          e ∙ ap some (unique other (read_blob-IsAddressed sha256 (sha256 content) v.dir other k e))

  -- An accepted upload, of a content whose hash no other content has, into a sound store that is
  -- addressed by hashes, under a new temporary name: a download of the new attachment's blob serves
  -- exactly the bytes that were sent.
  pub upload_pdf_attachment-read_blob :
      (seen : Option Chat) (q : UploadRequest) (now : ℕ) (id : String) (v : Vault)
      (a : RoomAttachment)
      → ((other : List ℕ)
          → sha256 other ≡ sha256 (content_of q.arrivals)
          → other ≡ content_of q.arrivals)
      → lookup q.tmp v.dir.storage.files ≡ none
      → IsSoundStore s v
      → IsAddressed sha256 v.dir
      → (upload_pdf_attachment sha256 s seen q now id v).0 ≡ some (ok a)
      → read_blob a.blob_sha256 (upload_pdf_attachment sha256 s seen q now id v).1.dir
        ≡ some (content_of q.arrivals)
  unfolding upload_pdf_attachment add_received upload_of IsAdded
  upload_pdf_attachment-read_blob seen q now id v a unique fresh h k answered =
      finished (receive_attachment_upload sha256 s q.tmp q.last q.arrivals v.dir.storage)
        (receive_attachment_upload-IsSettled sha256 s q.tmp v.dir.storage fresh q.last q.arrivals)
        (upload_pdf_attachment-IsSoundStore sha256 s seen q now id v h)
        (upload_pdf_attachment-IsAddressed sha256 s seen q now id v fresh k) answered
    where
      same : (a' : RoomAttachment) → some (ok a') ≡ some (ok a) → a' ≡ a
      same a' e' = cc

      stored :
          (file : NewFile) (w : Vault) (r : Result RoomAttachment × Vault)
          → file.sha256_hex ≡ sha256 (content_of q.arrivals)
          → IsAdded s q.room_id file now id w r
          → IsSoundStore s r.1
          → IsAddressed sha256 r.1.dir
          → some r.0 ≡ some (ok a)
          → read_blob a.blob_sha256 r.1.dir ≡ some (content_of q.arrivals)
      stored file w (err x, after) e added sound addressed e' = cc
      stored file w (ok a', after) e (c, b, found, entry, new, chats, documents, accounted, gone)
            sound addressed e' =
          rw (sym (ap (λ x. x.blob_sha256) (same a' e')) ∙ ap (λ x. x.blob_sha256) new ∙ e) (
            read_blob-content (content_of q.arrivals) after unique sound addressed (
              subst (λ x. is_stored x after.db.blobs ≡ true) e
                (IsAccounted-is_stored s file.sha256_hex file.byte_size now w.db after.db
                  accounted)))

      finished :
          (r : Exit × Storage)
          → IsSettled sha256 s q.tmp v.dir.storage (content_of q.arrivals) r
          → IsSoundStore s (add_received sha256 s seen q now id v r).1
          → IsAddressed sha256 (add_received sha256 s seen q now id v r).1.dir
          → (add_received sha256 s seen q now id v r).0 ≡ some (ok a)
          → read_blob a.blob_sha256 (add_received sha256 s seen q now id v r).1.dir
            ≡ some (content_of q.arrivals)
      finished (received u, st) i sound addressed e =
          stored
            (record {
              sender = q.sender;
              principal = q.principal;
              filename = q.filename;
              tmp = q.tmp;
              sha256_hex = u.sha256_hex;
              byte_size = u.byte_size;
              fmt = u.fmt;
            })
            (set_storage st v) _ (ap (λ x. x.sha256_hex) i.upload)
            (add_room_attachment-IsAdded s seen q.room_id _ now id (set_storage st v)) sound
            addressed e
      finished (rejected x, st) i sound addressed e = cc
      finished (disconnected, st) i sound addressed e = cc
