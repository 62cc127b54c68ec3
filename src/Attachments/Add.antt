-- ===== src/Attachments/Add.antt =====
-- app/attachments.py: `add_room_attachment` and `add_attachment_from_brain_document`.
use brainard.Prelude.{ℕ, zero, suc, String, true, false, Option, none, some, List, [], ◌∷◌, ◌++◌}
use brainard.Prelude.Table.{lookup, insert}
use brainard.Errors.{Code, Result, ok, err, raise}
use brainard.Model.{RoomAttachment, Chat, Principal}
use brainard.Uploads.{Settings, Format}
use brainard.Attachments.{
  Document, Database, Directory, Vault, unlink_tmp, get_or_create_blob, check_entry,
}

-- The arguments of `add_room_attachment`, after the stream was received.
pub record NewFile : Type 0 where
  pub sender : String
  pub principal : Principal
  pub filename : String
  pub tmp : String
  pub sha256_hex : String
  pub byte_size : ℕ
  pub fmt : Format

abbrev pub new_attachment : String → String → String → String → ℕ → RoomAttachment
new_attachment id sha256_hex filename uploaded_by now = record {
  id = id;
  blob_sha256 = sha256_hex;
  filename = filename;
  uploaded_by = uploaded_by;
  created_at = now;
}

-- `db.add(attachment)` on a room whose seat is checked, and the commit.
unfoldable pub attach : String → Chat → RoomAttachment → Database → Database
attach room_id c a db = record db {
  hub = record db.hub {
    chats = insert room_id (record c { attachments = c.attachments ++ a ∷ [] }) db.hub.chats;
  };
}

-- A rejection: the transaction is rolled back and the temporary file is deleted.
unfoldable pub refuse :
    {A : Type 0}
    → String
    → Vault
    → Result A
    → (A → Result RoomAttachment × Vault)
    → Result RoomAttachment × Vault
unfolding unlink_tmp
refuse tmp v (err e) next = (err e, record v { dir = unlink_tmp tmp v.dir })
refuse tmp v (ok a) next = next a

-- The blob is there: the commit, or the IntegrityError of a collision, which rolls the tables back
-- and leaves the directory.
unfoldable pub store_attachment :
    (Vault → Result RoomAttachment × Vault)
    → List (Vault → Vault)
    → String
    → Chat
    → RoomAttachment
    → Vault
    → Result Database × Directory
    → Result RoomAttachment × Vault
unfolding attach
store_attachment retry others room_id c a v (err e, dir) = (err e, record v { dir = dir })
store_attachment retry [] room_id c a v (ok db, dir) =
    (ok a, record { db = attach room_id c a db; dir = dir })
store_attachment retry (other ∷ others) room_id c a v (ok db, dir) =
    retry (other (record v { dir = dir }))

-- One attempt of the loop, under the row lock.
unfoldable pub attempt :
    (Vault → Result RoomAttachment × Vault)
    → List (Vault → Vault)
    → Settings
    → String
    → NewFile
    → ℕ
    → String
    → Vault
    → Option Chat
    → Result RoomAttachment × Vault
unfolding refuse store_attachment unlink_tmp
attempt retry others s room_id q now id v none =
    (raise 404 Code.room_not_found, record v { dir = unlink_tmp q.tmp v.dir })
attempt retry others s room_id q now id v (some c) =
    refuse q.tmp v (check_entry s true c q.sender q.principal) (λ checked.
      store_attachment retry others room_id checked.1
        (new_attachment id q.sha256_hex q.filename checked.0 now) v
        (get_or_create_blob s q.sha256_hex q.byte_size q.tmp q.fmt now v.db v.dir))

abbrev pub tail : List (Vault → Vault) → List (Vault → Vault)
tail [] = []
tail (other ∷ others) = others

-- The loop, with the number of attempts left. Each of `others` is what the concurrent transactions
-- commit that one attempt collides with.
unfoldable pub add_attempts :
    ℕ
    → List (Vault → Vault)
    → Settings
    → String
    → NewFile
    → ℕ
    → String
    → Vault
    → Result RoomAttachment × Vault
unfolding attempt
add_attempts zero others s room_id q now id v = (raise 503 Code.attachment_conflict_retry, v)
add_attempts (suc n) others s room_id q now id v =
    attempt (λ w. add_attempts n (tail others) s room_id q now id w) others s room_id q now id v
      (lookup room_id v.db.hub.chats)

abbrev pub max_attachment_attempts : ℕ
max_attachment_attempts = 3

-- `add_room_attachment`; `seen` is the unlocked read of the room, `id` the new ULID.
unfoldable pub add_room_attachment :
    List (Vault → Vault)
    → Option Chat
    → Settings
    → String
    → NewFile
    → ℕ
    → String
    → Vault
    → Result RoomAttachment × Vault
unfolding unlink_tmp
add_room_attachment others none s room_id q now id v =
    (raise 404 Code.room_not_found, record v { dir = unlink_tmp q.tmp v.dir })
add_room_attachment others (some seen) s room_id q now id v =
    add_attempts max_attachment_attempts others s room_id q now id v

-- `add_attachment_from_brain_document` under the row lock. Its retries are
-- not modelled: without a new blob nothing but a taken ULID collides.
unfoldable pub link_document :
    Settings
    → String
    → String
    → Principal
    → String
    → String
    → ℕ
    → String
    → Vault
    → Option Chat
    → Result RoomAttachment × Vault
unfolding attach
link_document s room_id sender principal sha256_hex filename now id v none =
    (raise 404 Code.room_not_found, v)
link_document s room_id sender principal sha256_hex filename now id v (some c) =
    elim (check_entry s false c sender principal) [
      | err e ↦ (err e, v)
      | ok (cleaned, bound) ↦
          let a = new_attachment id sha256_hex filename cleaned now in
          (ok a, record v { db = attach room_id bound a v.db })
    ]

-- The document to attach: it exists, and has a file.
unfoldable pub find_attachable : Option Document → Result String
find_attachable none = raise 404 Code.document_not_found
find_attachable (some d) = elim d.blob_sha256 [
  | none ↦ raise 422 Code.document_not_attachable
  | some sha256_hex ↦ ok sha256_hex
]

-- `add_attachment_from_brain_document`, with the display name as an argument.
unfoldable pub add_attachment_from_brain_document :
    Option Chat
    → Settings
    → String
    → String
    → Principal
    → String
    → String
    → ℕ
    → String
    → Vault
    → Result RoomAttachment × Vault
unfolding find_attachable
add_attachment_from_brain_document none s room_id sender principal document_id filename now id v =
    (raise 404 Code.room_not_found, v)
add_attachment_from_brain_document (some seen) s room_id sender principal document_id filename now
      id v =
    elim (find_attachable (lookup document_id v.db.documents)) [
      | err e ↦ (err e, v)
      | ok sha256_hex ↦
          link_document s room_id sender principal sha256_hex filename now id v
            (lookup room_id v.db.hub.chats)
    ]
