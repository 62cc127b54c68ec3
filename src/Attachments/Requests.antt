-- ===== src/Attachments/Requests.antt =====
-- app/attachments.py and app/routers/room_attachments.py: the requests on the store, one after
-- the other in any order, each served alone.
pub mod History
use brainard.Prelude.{ℕ, String, Bool, Option, none, some, List, [], ◌∷◌}
use brainard.Errors.{ApiError, Result, ok, err}
use brainard.Model.{RoomAttachment, Chat, Principal}
use brainard.Uploads.{
  Settings, Storage, Exit, received, rejected, disconnected, Arrival, receive_attachment_upload,
}
use brainard.Attachments.{Vault}
use brainard.Attachments.Add.{NewFile, add_room_attachment, add_attachment_from_brain_document}
use brainard.Attachments.Reclaim.{
  sweep_expired_blobs, delete_room_attachment, delete_room_with_blobs,
}
use brainard.Attachments.Save.{save_attachment_to_brain}

-- The arguments of an upload; `tmp` is the name that `mkstemp` makes up.
pub record UploadRequest : Type 0 where
  pub room_id : String
  pub sender : String
  pub principal : Principal
  pub filename : String
  pub tmp : String
  pub arrivals : List Arrival
  pub last : ℕ

abbrev pub set_storage : Storage → Vault → Vault
set_storage st v = record v { dir = record v.dir { storage = st } }

module _ (sha256 : List ℕ → String) (s : Settings) where
  -- The received file goes to the store; `none` if the client hung up.
  unfoldable pub add_received :
      Option Chat
      → UploadRequest
      → ℕ
      → String
      → Vault
      → Exit × Storage
      → Option (Result RoomAttachment) × Vault
  add_received seen q now id v (received u, st) =
      let file : NewFile = record {
        sender = q.sender;
        principal = q.principal;
        filename = q.filename;
        tmp = q.tmp;
        sha256_hex = u.sha256_hex;
        byte_size = u.byte_size;
        fmt = u.fmt;
      } in
      let r = add_room_attachment [] seen s q.room_id file now id (set_storage st v) in
      (some r.0, r.1)
  add_received seen q now id v (rejected e, st) = (some (err e), set_storage st v)
  add_received seen q now id v (disconnected, st) = (none, set_storage st v)

  -- `upload_pdf_attachment`, both phases, where no other request intervenes.
  unfoldable pub upload_pdf_attachment :
      Option Chat → UploadRequest → ℕ → String → Vault → Option (Result RoomAttachment) × Vault
  unfolding add_received
  upload_pdf_attachment seen q now id v =
      add_received seen q now id v
        (receive_attachment_upload sha256 s q.tmp q.last q.arrivals v.dir.storage)

pub data Request : Type 0 where
  upload : Option Chat → UploadRequest → ℕ → String → Request
  from_brain : Option Chat → String → String → Principal → String → String → ℕ → String → Request
  drop : String → String → ℕ → Request
  sweep : ℕ → Request
  save : String → String → String → Bool → Result String → Request
  drop_room : Option Chat → String → ℕ → Request

module _ (sha256 : List ℕ → String) (s : Settings) where
  -- The store after a request, whatever it answers.
  unfoldable pub serve : Request → Vault → Vault
  unfolding upload_pdf_attachment
  serve (upload seen q now id) v = (upload_pdf_attachment sha256 s seen q now id v).1
  serve (from_brain seen room_id sender principal document_id filename now id) v =
      (add_attachment_from_brain_document seen s room_id sender principal document_id filename now
        id v).1
  serve (drop room_id attachment_id now) v =
      (delete_room_attachment s room_id attachment_id now v).1
  serve (sweep now) v = (sweep_expired_blobs s now v).1
  serve (save room_id attachment_id project revoked deposited) v =
      (save_attachment_to_brain room_id attachment_id project revoked deposited v).1
  serve (drop_room seen room_id now) v = (delete_room_with_blobs seen s room_id now v).1

  unfoldable pub serve_all : List Request → Vault → Vault
  unfolding serve
  serve_all [] v = v
  serve_all (r ∷ rs) v = serve_all rs (serve r v)
