-- ===== src/Attachments/Addressed/Requested.antt =====
-- app/attachments.py: every request keeps the blobs addressed by their hashes.
use brainard.Prelude.{
  ℕ, String, true, ◌+◌, ◌≡◌, sym, ap, Option, none, some, List, [], is_some, ltb, get_or_else,
  Bool-cases, inl, inr,
}
use brainard.Prelude.Table.{lookup}
use brainard.Errors.{Result, ok, err, OnOk}
use brainard.Model.{RoomAttachment, Chat}
use brainard.Uploads.{
  Settings, Format, Storage, Exit, received, rejected, disconnected, receive_attachment_upload,
}
use brainard.Uploads.Reference.{upload_of, content_of}
use brainard.Uploads.Exits.{IsSettled}
use brainard.Uploads.Whole.{receive_attachment_upload-IsSettled}
use brainard.Attachments.{
  Database, Directory, Vault, move_into_place, create_blob, get_or_create_blob, check_entry,
}
use brainard.Attachments.Add.{
  NewFile, new_attachment, refuse, store_attachment, attempt, add_attempts, add_room_attachment,
}
use brainard.Attachments.Requests.{UploadRequest, set_storage, add_received, upload_pdf_attachment}
use brainard.Attachments.Addressed.{
  IsAddressed, HasContent, unlink_tmp-IsAddressed, move_into_place-IsAddressed,
}

module _ (sha256 : List ℕ → String) (s : Settings) where
  create_blob-IsAddressed :
      (sha : String) (size now : ℕ) (db : Database) (dir : Directory) (r : Result Directory)
      → IsAddressed sha256 dir
      → OnOk (IsAddressed sha256) r
      → IsAddressed sha256 (create_blob sha size now db dir r).1
  unfolding create_blob
  create_blob-IsAddressed sha size now db dir (ok after) k h = h
  create_blob-IsAddressed sha size now db dir (err e) k h = k

  get_or_create_blob-IsAddressed :
      (sha : String) (size : ℕ) (tmp : String) (fmt : Format) (now : ℕ) (db : Database)
      (dir : Directory)
      → HasContent sha256 tmp sha dir
      → IsAddressed sha256 dir
      → IsAddressed sha256 (get_or_create_blob s sha size tmp fmt now db dir).1
  unfolding get_or_create_blob
  get_or_create_blob-IsAddressed sha size tmp fmt now db dir c k =
      elim (Bool-cases (is_some (lookup sha db.blobs))) [
        | inl there ↦ rw there (unlink_tmp-IsAddressed sha256 tmp dir k)
        | inr new ↦
            elim (Bool-cases
              (ltb s.attachment_global_ceiling_bytes (get_or_else db.total_bytes 0 + size))) [
                | inl over ↦ rw (new, over) (unlink_tmp-IsAddressed sha256 tmp dir k)
                | inr fits ↦
                    rw (new, fits)
                      (create_blob-IsAddressed sha size now db dir (move_into_place tmp sha fmt dir)
                        k (move_into_place-IsAddressed sha256 tmp sha fmt dir c k))
              ]
      ]

  store_attachment-IsAddressed :
      (retry : Vault → Result RoomAttachment × Vault) (room_id : String) (b : Chat)
      (a : RoomAttachment) (v : Vault) (r : Result Database × Directory)
      → IsAddressed sha256 r.1
      → IsAddressed sha256 (store_attachment retry [] room_id b a v r).1.dir
  unfolding store_attachment
  store_attachment-IsAddressed retry room_id b a v (ok db, dir) k = k
  store_attachment-IsAddressed retry room_id b a v (err e, dir) k = k

  attempt-IsAddressed :
      (retry : Vault → Result RoomAttachment × Vault) (room_id : String) (q : NewFile) (now : ℕ)
      (id : String) (v : Vault) (o : Option Chat)
      → HasContent sha256 q.tmp q.sha256_hex v.dir
      → IsAddressed sha256 v.dir
      → IsAddressed sha256 (attempt retry [] s room_id q now id v o).1.dir
  unfolding attempt
  attempt-IsAddressed retry room_id q now id v none c k =
      unlink_tmp-IsAddressed sha256 q.tmp v.dir k
  attempt-IsAddressed retry room_id q now id v (some chat) c k =
      entered (check_entry s true chat q.sender q.principal)
    where
      next : String × Chat → Result RoomAttachment × Vault
      next checked =
          store_attachment retry [] room_id checked.1
            (new_attachment id q.sha256_hex q.filename checked.0 now) v
            (get_or_create_blob s q.sha256_hex q.byte_size q.tmp q.fmt now v.db v.dir)

      entered : (r : Result (String × Chat)) → IsAddressed sha256 (refuse q.tmp v r next).1.dir
      entered (err x) = unlink_tmp-IsAddressed sha256 q.tmp v.dir k
      entered (ok (cleaned, b)) =
          store_attachment-IsAddressed retry room_id b
            (new_attachment id q.sha256_hex q.filename cleaned now) v
            (get_or_create_blob s q.sha256_hex q.byte_size q.tmp q.fmt now v.db v.dir)
            (get_or_create_blob-IsAddressed q.sha256_hex q.byte_size q.tmp q.fmt now v.db v.dir c k)

  add_room_attachment-IsAddressed :
      (seen : Option Chat) (room_id : String) (q : NewFile) (now : ℕ) (id : String) (v : Vault)
      → HasContent sha256 q.tmp q.sha256_hex v.dir
      → IsAddressed sha256 v.dir
      → IsAddressed sha256 (add_room_attachment [] seen s room_id q now id v).1.dir
  unfolding add_room_attachment add_attempts
  add_room_attachment-IsAddressed none room_id q now id v c k =
      unlink_tmp-IsAddressed sha256 q.tmp v.dir k
  add_room_attachment-IsAddressed (some x) room_id q now id v c k =
      attempt-IsAddressed (λ w. add_attempts 2 [] s room_id q now id w) room_id q now id v
        (lookup room_id v.db.hub.chats) c k

  -- An upload whose temporary name is new leaves the blobs addressed by the hashes of their contents.
  pub upload_pdf_attachment-IsAddressed :
      (seen : Option Chat) (q : UploadRequest) (now : ℕ) (id : String) (v : Vault)
      → lookup q.tmp v.dir.storage.files ≡ none
      → IsAddressed sha256 v.dir
      → IsAddressed sha256 (upload_pdf_attachment sha256 s seen q now id v).1.dir
  unfolding upload_pdf_attachment add_received upload_of
  upload_pdf_attachment-IsAddressed seen q now id v fresh k =
      finished (receive_attachment_upload sha256 s q.tmp q.last q.arrivals v.dir.storage)
        (receive_attachment_upload-IsSettled sha256 s q.tmp v.dir.storage fresh q.last q.arrivals)
    where
      still : (st : Storage) → IsAddressed sha256 (set_storage st v).dir
      still st = record { pdf_files = k.pdf_files; md_files = k.md_files }

      finished :
          (r : Exit × Storage)
          → IsSettled sha256 s q.tmp v.dir.storage (content_of q.arrivals) r
          → IsAddressed sha256 (add_received sha256 s seen q now id v r).1.dir
      finished (received u, st) i =
          add_room_attachment-IsAddressed seen q.room_id _ now id (set_storage st v)
            (content_of q.arrivals, i.stored, sym (ap (λ x. x.sha256_hex) i.upload)) (still st)
      finished (rejected e, st) i = still st
      finished (disconnected, st) i = still st
