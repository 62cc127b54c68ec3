-- ===== src/Attachments/Saved.antt =====
-- app/attachments.py: a document that was saved from a room keeps its file.
use mathlib.Core.Path.{subst}
use brainard.Prelude.{
  ℕ, String, Bool, true, ◌≡◌, ◌≢◌, refl, sym, ap, ◌∙◌, Option, none, some, List, [], ◌∷◌, is_some,
  ==-self, ==-ne,
}
use brainard.Prelude.Table.{lookup, lookup-insert}
use brainard.Errors.{Result, ok, err}
use brainard.Model.{RoomAttachment, Chat}
use brainard.Rooms.Remove.{delete_room}
use brainard.Uploads.{
  Settings, Storage, Exit, received, rejected, disconnected, receive_attachment_upload,
}
use brainard.Attachments.{AttachmentBlob, Document, Vault}
use brainard.Attachments.Reclaim.{keys, sweep_expired_blobs, delete_room_with_blobs}
use brainard.Attachments.Save.{check_save, link_blob, save_checked, save_attachment_to_brain}
use brainard.Attachments.Sound.{is_stored, has_file, is_linked, IsSoundStore}
use brainard.Attachments.Requests.{
  UploadRequest, set_storage, add_received, upload_pdf_attachment, Request, upload, from_brain,
  drop, sweep, save, drop_room, serve, serve_all,
}
use brainard.Attachments.Kept.{
  add_room_attachment-documents, add_attachment_from_brain_document-documents,
  delete_room_attachment-documents, release_removed-documents, reclaim_each-documents,
}
use brainard.Attachments.Sound.Documents.{save_attachment_to_brain-IsSoundStore}
use brainard.Attachments.Requests.History.{serve_all-IsSoundStore}

-- No later document takes the id.
abbrev pub IsOther : String → Result String → Type 0
IsOther id (ok other) = other ≢ id
IsOther id (err e) = Unit

abbrev pub Keeps : String → Request → Type 0
Keeps id (save room_id attachment_id project revoked deposited) = IsOther id deposited
Keeps id other = Unit

abbrev pub AllKeepId : String → List Request → Type 0
AllKeepId id [] = Unit
AllKeepId id (r ∷ rs) = Keeps id r × AllKeepId id rs

-- The document has a blob, which is stored and has its file.
pub record IsKept (id : String) (v : Vault) : Type 0 where
  pub document : Document
  pub hash : String
  pub found : lookup id v.db.documents ≡ some document
  pub linked : document.blob_sha256 ≡ some hash
  pub stored : is_stored hash v.db.blobs ≡ true
  pub filed : has_file hash v.dir ≡ true

module _ (sha256 : List ℕ → String) (s : Settings) where
  upload_pdf_attachment-documents :
      (seen : Option Chat) (q : UploadRequest) (now : ℕ) (id : String) (v : Vault)
      → (upload_pdf_attachment sha256 s seen q now id v).1.db.documents ≡ v.db.documents
  unfolding upload_pdf_attachment add_received
  upload_pdf_attachment-documents seen q now id v =
      finished (receive_attachment_upload sha256 s q.tmp q.last q.arrivals v.dir.storage)
    where
      finished :
          (r : Exit × Storage)
          → (add_received sha256 s seen q now id v r).1.db.documents ≡ v.db.documents
      finished (received u, st) =
          add_room_attachment-documents s seen q.room_id _ now id (set_storage st v)
      finished (rejected e, st) = refl
      finished (disconnected, st) = refl

  save_checked-lookup :
      (id : String) (deposited : Result String) (v : Vault) (r : Result RoomAttachment)
      → IsOther id deposited
      → lookup id (save_checked deposited v r).1.db.documents ≡ lookup id v.db.documents
  unfolding save_checked link_blob
  save_checked-lookup id deposited v (err e) k = refl
  save_checked-lookup id (err e) v (ok a) k = refl
  save_checked-lookup id (ok other) v (ok a) k =
      rw
        (
          lookup-insert other id (record { title = a.filename; blob_sha256 = some a.blob_sha256 })
              v.db.documents,
          ==-ne other id k,
        )
        refl

  serve-lookup :
      (id : String) (r : Request) (v : Vault)
      → Keeps id r
      → lookup id (serve sha256 s r v).db.documents ≡ lookup id v.db.documents
  unfolding serve sweep_expired_blobs delete_room_with_blobs save_attachment_to_brain
  serve-lookup id (upload seen q now new) v k =
      ap (lookup id) (upload_pdf_attachment-documents seen q now new v)
  serve-lookup id (from_brain seen room_id sender principal document_id filename now new) v k =
      ap (lookup id) (
        add_attachment_from_brain_document-documents s seen room_id sender principal document_id
          filename now new v)
  serve-lookup id (drop room_id attachment_id now) v k =
      ap (lookup id) (delete_room_attachment-documents s room_id attachment_id now v)
  serve-lookup id (sweep now) v k =
      ap (lookup id) (reclaim_each-documents s now (keys v.db.blobs) v)
  serve-lookup id (save room_id attachment_id project revoked deposited) v k =
      save_checked-lookup id deposited v (check_save room_id attachment_id project revoked v.db) k
  serve-lookup id (drop_room seen room_id now) v k = ap (lookup id) (
      release_removed-documents s now
        (record v { db = record v.db { hub = (delete_room seen room_id v.db.hub).1 } })
        (delete_room seen room_id v.db.hub).0)

  serve_all-lookup :
      (id : String) (rs : List Request) (v : Vault)
      → AllKeepId id rs
      → lookup id (serve_all sha256 s rs v).db.documents ≡ lookup id v.db.documents
  unfolding serve_all
  serve_all-lookup id [] v k = refl
  serve_all-lookup id (r ∷ rs) v k =
      serve_all-lookup id rs (serve sha256 s r v) k.1 ∙ serve-lookup id r v k.0

  sound-IsKept :
      (id hash : String) (d : Document) (v : Vault)
      → IsSoundStore s v
      → lookup id v.db.documents ≡ some d
      → d.blob_sha256 ≡ some hash
      → IsKept id v
  sound-IsKept id hash d v h found linked = row (lookup hash v.db.blobs) refl
    where
      there : is_stored hash v.db.blobs ≡ true
      there = subst (λ o. is_linked v.db.blobs o ≡ true) linked (h.linked id d found)

      row : (o : Option AttachmentBlob) → lookup hash v.db.blobs ≡ o → IsKept id v
      row none gone = cc (sym (ap is_some gone) ∙ there)
      row (some b) e = record {
        document = d;
        hash = hash;
        found = found;
        linked = linked;
        stored = there;
        filed = h.filed hash b e;
      }

  save_checked-found :
      (id : String) (v : Vault) (r : Result RoomAttachment)
      → (save_checked (ok id) v r).0 ≡ ok id
      → (d : Document) × (hash : String) × (lookup id (save_checked (ok id) v r).1.db.documents
          ≡ some d)
        × (d.blob_sha256 ≡ some hash)
  unfolding save_checked link_blob
  save_checked-found id v (err e) answered = cc
  save_checked-found id v (ok a) answered = (
    record { title = a.filename; blob_sha256 = some a.blob_sha256 },
    a.blob_sha256,
    rw
        (
          lookup-insert id id (record { title = a.filename; blob_sha256 = some a.blob_sha256 })
              v.db.documents,
          ==-self id,
        )
        refl,
    refl,
  )

  -- Once saving an attachment of a sound store to the Brain has answered, the document keeps its blob
  -- and the blob its file over any later requests that give the document's id to no other: sweeps,
  -- deletions of the attachment and of the room included, whatever the time.
  pub save_attachment_to_brain-IsKept :
      (room_id attachment_id project id : String) (revoked : Bool) (rs : List Request) (v : Vault)
      → IsSoundStore s v
      → (save_attachment_to_brain room_id attachment_id project revoked (ok id) v).0 ≡ ok id
      → AllKeepId id rs
      → IsKept id (
          serve_all sha256 s rs
            (save_attachment_to_brain room_id attachment_id project revoked (ok id) v).1)
  unfolding save_attachment_to_brain
  save_attachment_to_brain-IsKept room_id attachment_id project id revoked rs v h answered k =
      let r = check_save room_id attachment_id project revoked v.db in
      let (d, hash, found, linked) = save_checked-found id v r answered in
      sound-IsKept id hash d (serve_all sha256 s rs (save_checked (ok id) v r).1)
        (serve_all-IsSoundStore sha256 s rs (save_checked (ok id) v r).1 (
          save_attachment_to_brain-IsSoundStore s room_id attachment_id project revoked (ok id) v
            h))
        (serve_all-lookup id rs (save_checked (ok id) v r).1 k ∙ found) linked
