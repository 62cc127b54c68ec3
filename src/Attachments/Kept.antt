-- ===== src/Attachments/Kept.antt =====
-- app/attachments.py: the operations that leave the documents alone.
use brainard.Prelude.{
  ℕ, String, Bool, true, false, ◌≡◌, refl, ap, ◌∙◌, Option, none, some, List, [], ◌∷◌, arith,
  Bool-cases, inl, inr,
}
use brainard.Prelude.Table.{lookup}
use brainard.Errors.{Result, ok, err}
use brainard.Model.{RoomAttachment, Chat, Principal}
use brainard.Rooms.Remove.{Removed}
use brainard.Uploads.{Settings}
use brainard.Attachments.{AttachmentBlob, Vault}
use brainard.Attachments.Add.{
  NewFile, attach, link_document, find_attachable, add_room_attachment,
  add_attachment_from_brain_document,
}
use brainard.Attachments.Outcome.{IsAdded, add_room_attachment-IsAdded}
use brainard.Attachments.Reclaim.{
  blob_is_referenced, delete_blob, reclaim_found, reclaim_blob_if_unreferenced, note_deleted,
  reclaim_each, release_blobs_for_deleted_room, release_removed, get_attachment_or_404,
  drop_attachment, delete_room_attachment,
}

module _ (s : Settings) where
  -- A deletion of blobs leaves the documents alone.
  pub reclaim_blob_if_unreferenced-documents :
      (now : ℕ) (h : String) (v : Vault)
      → (reclaim_blob_if_unreferenced s now h v).1.db.documents ≡ v.db.documents
  unfolding reclaim_blob_if_unreferenced reclaim_found delete_blob
  reclaim_blob_if_unreferenced-documents now h v = found (lookup h v.db.blobs)
    where
      found :
          (o : Option AttachmentBlob) → (reclaim_found s now h v o).1.db.documents ≡ v.db.documents
      found none = refl
      found (some b) = elim (Bool-cases (blob_is_referenced s now h v.db)) [
        | inl referenced ↦ rw referenced refl
        | inr free ↦ rw free refl
      ]

  pub reclaim_each-documents :
      (now : ℕ) (hs : List String) (v : Vault)
      → (reclaim_each s now hs v).1.db.documents ≡ v.db.documents
  unfolding reclaim_each
  reclaim_each-documents now [] v = refl
  reclaim_each-documents now (h ∷ hs) v =
      noted (reclaim_blob_if_unreferenced s now h v).0
        (reclaim_each s now hs (reclaim_blob_if_unreferenced s now h v).1)
        (reclaim_each-documents now hs (reclaim_blob_if_unreferenced s now h v).1
          ∙ reclaim_blob_if_unreferenced-documents now h v)
    where
      noted :
          (b : Bool) (r : List String × Vault)
          → r.1.db.documents ≡ v.db.documents
          → (note_deleted h b r).1.db.documents ≡ v.db.documents
      noted true (deleted, w) e = e
      noted false (deleted, w) e = e

  pub add_room_attachment-documents :
      (seen : Option Chat) (room_id : String) (q : NewFile) (now : ℕ) (id : String) (v : Vault)
      → (add_room_attachment [] seen s room_id q now id v).1.db.documents ≡ v.db.documents
  unfolding IsAdded
  add_room_attachment-documents seen room_id q now id v =
      split (add_room_attachment [] seen s room_id q now id v)
        (add_room_attachment-IsAdded s seen room_id q now id v)
    where
      split :
          (r : Result RoomAttachment × Vault)
          → IsAdded s room_id q now id v r
          → r.1.db.documents ≡ v.db.documents
      split (ok a, after) (c, b, found, entry, new, chats, documents, accounted, gone) = documents
      split (err e, after) (same, gone) = ap (λ db. db.documents) same

  pub link_document-documents :
      (room_id sender : String) (principal : Principal) (sha filename : String) (now : ℕ)
      (id : String) (v : Vault) (o : Option Chat)
      → (link_document s room_id sender principal sha filename now id v o).1.db.documents
        ≡ v.db.documents
  unfolding link_document attach
  link_document-documents room_id sender principal sha filename now id v none = refl
  link_document-documents room_id sender principal sha filename now id v (some c) = ground arith

  pub add_attachment_from_brain_document-documents :
      (seen : Option Chat) (room_id sender : String) (principal : Principal)
      (document_id filename : String) (now : ℕ) (id : String) (v : Vault)
      → (add_attachment_from_brain_document seen s room_id sender principal document_id filename now
          id v).1.db.documents
        ≡ v.db.documents
  unfolding add_attachment_from_brain_document
  add_attachment_from_brain_document-documents none room_id sender principal document_id filename
        now id v =
      refl
  add_attachment_from_brain_document-documents (some seen) room_id sender principal document_id
        filename now id v =
      found (find_attachable (lookup document_id v.db.documents))
    where
      found :
          (r : Result String)
          → (elim r as (λ x. Result RoomAttachment × Vault) [
            | err e ↦ (err e, v)
            | ok sha256_hex ↦
                link_document s room_id sender principal sha256_hex filename now id v
                  (lookup room_id v.db.hub.chats)
          ]).1.db.documents
            ≡ v.db.documents
      found (err e) = refl
      found (ok sha) =
          link_document-documents room_id sender principal sha filename now id v
            (lookup room_id v.db.hub.chats)

  pub delete_room_attachment-documents :
      (room_id attachment_id : String) (now : ℕ) (v : Vault)
      → (delete_room_attachment s room_id attachment_id now v).1.db.documents ≡ v.db.documents
  unfolding delete_room_attachment drop_attachment
  delete_room_attachment-documents room_id attachment_id now v =
      found (get_attachment_or_404 room_id attachment_id v.db)
    where
      dropped : (drop_attachment room_id attachment_id v.db).documents ≡ v.db.documents
      dropped = ground arith

      found :
          (r : Result RoomAttachment)
          → (elim r as (λ x. Result String × Vault) [
            | err e ↦ (err e, v)
            | ok a ↦ (
              ok a.blob_sha256,
              (reclaim_blob_if_unreferenced s now a.blob_sha256
                  (record v { db = drop_attachment room_id attachment_id v.db })).1,
            )
          ]).1.db.documents
            ≡ v.db.documents
      found (err e) = refl
      found (ok a) =
          reclaim_blob_if_unreferenced-documents now a.blob_sha256
            (record v { db = drop_attachment room_id attachment_id v.db })
          ∙ dropped

  pub release_removed-documents :
      (now : ℕ) (v : Vault) (r : Result Removed)
      → (release_removed s now v r).db.documents ≡ v.db.documents
  unfolding release_removed release_blobs_for_deleted_room
  release_removed-documents now v (err e) = refl
  release_removed-documents now v (ok r) = reclaim_each-documents now r.attachment_hashes v
