-- ===== src/Attachments/Reclaim.antt =====
-- app/attachments.py: the reference-counted deletion of blobs, the sweep, the deletion of one
-- reference, and saving to the Brain.
use brainard.Prelude.{
  ℕ, ◌+◌, ◌-◌, ◌*◌, String, Bool, true, false, not, ◌&&◌, ◌||◌, Option, none, some, List, [], ◌∷◌,
  ◌==◌, ltb, if◌then◌else◌, any, keep,
}
use brainard.Prelude.Table.{Table, lookup, insert, remove}
use brainard.Errors.{Code, Result, ok, err, raise, ◌>>=◌}
use brainard.Model.{Room, RoomAttachment, Chat, is_open, seconds}
use brainard.Rooms.Remove.{Removed, delete_room}
use brainard.Uploads.{Settings}
use brainard.Attachments.{
  AttachmentBlob, Document, Database, Directory, Vault, files_of, set_files, stored_format,
}

-- `attachment.blob_sha256 == sha256_hex`
abbrev pub refers_to : String → RoomAttachment → Bool
refers_to sha256_hex a = a.blob_sha256 == sha256_hex

abbrev pub grace_of : Settings → ℕ
grace_of s = seconds (s.attachment_grace_period_days * 86_400)

-- Open, or not closed for longer than the grace period: `closed_at > now - grace`, with the
-- difference moved to the other side.
unfoldable pub is_protected : Settings → ℕ → Room → Bool
is_protected s now r =
    is_open r || elim r.closed_at [ none ↦ true | some at ↦ ltb now (at + grace_of s) ]

-- A room that protects the blob by one of its attachments.
unfoldable pub protects : Settings → ℕ → String → Chat → Bool
unfolding is_protected
protects s now sha256_hex c = any (refers_to sha256_hex) c.attachments && is_protected s now c.room

-- The two counts of `_blob_is_referenced`, as tests.
unfoldable pub any_room : (Chat → Bool) → Table Chat → Bool
any_room test [] = false
any_room test ((id, c) ∷ t) = test c || any_room test t

abbrev pub is_document_of : String → Document → Bool
is_document_of sha256_hex d = elim d.blob_sha256 [ none ↦ false | some h ↦ h == sha256_hex ]

unfoldable pub any_document : String → Table Document → Bool
any_document sha256_hex [] = false
any_document sha256_hex ((id, d) ∷ t) = is_document_of sha256_hex d || any_document sha256_hex t

-- `_blob_is_referenced`
unfoldable pub blob_is_referenced : Settings → ℕ → String → Database → Bool
blob_is_referenced s now sha256_hex db =
    any_document sha256_hex db.documents || any_room (protects s now sha256_hex) db.hub.chats

-- `DELETE FROM room_attachments WHERE blob_sha256 = …`
unfoldable pub detach : String → Table Chat → Table Chat
detach sha256_hex [] = []
detach sha256_hex ((id, c) ∷ t) =
    (id, record c { attachments = keep (λ a. not (refers_to sha256_hex a)) c.attachments })
    ∷ detach sha256_hex t

-- The statistics, if their row is there, without a blob.
abbrev pub less : ℕ → Option ℕ → Option ℕ
less size none = none
less size (some total) = some (total - size)

-- The references, the statistics and the row of a blob, in one commit.
unfoldable pub delete_blob : String → AttachmentBlob → Database → Database
unfolding detach
delete_blob sha256_hex b db = record db {
  hub = record db.hub { chats = detach sha256_hex db.hub.chats };
  total_bytes = less b.byte_size db.total_bytes;
  blobs = remove sha256_hex db.blobs;
}

-- After the commit: `blob_path(…).unlink(missing_ok=True)`
unfoldable pub unlink_blob : String → Directory → Directory
unfolding stored_format set_files
unlink_blob sha256_hex dir =
    let fmt = stored_format sha256_hex dir in
    set_files fmt (remove sha256_hex (files_of fmt dir)) dir

-- The commit and the deletion of the file are one step here. In the code the row lock is released in
-- between, so what an upload of the same content may do there is not modelled.
unfoldable pub reclaim_found : Settings → ℕ → String → Vault → Option AttachmentBlob → Bool × Vault
unfolding blob_is_referenced delete_blob unlink_blob
reclaim_found s now sha256_hex v none = (false, v)
reclaim_found s now sha256_hex v (some b) =
    if blob_is_referenced s now sha256_hex v.db
    then (false, v)
    else (true, record { db = delete_blob sha256_hex b v.db; dir = unlink_blob sha256_hex v.dir })

-- `_reclaim_blob_if_unreferenced`
unfoldable pub reclaim_blob_if_unreferenced : Settings → ℕ → String → Vault → Bool × Vault
unfolding reclaim_found
reclaim_blob_if_unreferenced s now sha256_hex v =
    reclaim_found s now sha256_hex v (lookup sha256_hex v.db.blobs)

-- The hashes that were reclaimed, with one more if it was.
abbrev pub note_deleted : String → Bool → List String × Vault → List String × Vault
note_deleted sha256_hex true (deleted, v) = (sha256_hex ∷ deleted, v)
note_deleted sha256_hex false (deleted, v) = (deleted, v)

-- The loop over candidates of the sweep and of the release.
unfoldable pub reclaim_each : Settings → ℕ → List String → Vault → List String × Vault
unfolding reclaim_blob_if_unreferenced
reclaim_each s now [] v = ([], v)
reclaim_each s now (h ∷ hs) v =
    let r = reclaim_blob_if_unreferenced s now h v in note_deleted h r.0 (reclaim_each s now hs r.1)

abbrev pub keys {ℓ} : {V : Type ℓ} → Table V → List String
keys [] = []
keys ((k, v) ∷ t) = k ∷ keys t

-- `sweep_expired_blobs`
unfoldable pub sweep_expired_blobs : Settings → ℕ → Vault → List String × Vault
sweep_expired_blobs s now v = reclaim_each s now (keys v.db.blobs) v

-- `release_blobs_for_deleted_room`
unfoldable pub release_blobs_for_deleted_room :
    Settings → ℕ → List String → Vault → List String × Vault
release_blobs_for_deleted_room s now candidates v = reclaim_each s now candidates v

-- `delete_room` of app/rooms.py with the release after its commit.
unfoldable pub release_removed : Settings → ℕ → Vault → Result Removed → Vault
unfolding release_blobs_for_deleted_room
release_removed s now v (err e) = v
release_removed s now v (ok r) = (release_blobs_for_deleted_room s now r.attachment_hashes v).1

unfoldable pub delete_room_with_blobs :
    Option Chat → Settings → String → ℕ → Vault → Result Removed × Vault
unfolding release_removed
delete_room_with_blobs seen s room_id now v =
    let r = delete_room seen room_id v.db.hub in
    (r.0, release_removed s now (record v { db = record v.db { hub = r.1 } }) r.0)

unfoldable pub find_attachment : String → List RoomAttachment → Option RoomAttachment
find_attachment id [] = none
find_attachment id (a ∷ rest) = if a.id == id then some a else find_attachment id rest

-- `_get_attachment_or_404`: an attachment id is a primary key, and its row stands under its room.
unfoldable pub get_attachment_or_404 : String → String → Database → Result RoomAttachment
unfolding find_attachment
get_attachment_or_404 room_id attachment_id db = elim (lookup room_id db.hub.chats) [
  | none ↦ raise 404 Code.attachment_not_found
  | some c ↦ elim (find_attachment attachment_id c.attachments) [
    | none ↦ raise 404 Code.attachment_not_found
    | some a ↦ ok a
  ]
]

unfoldable pub drop_attachment : String → String → Database → Database
drop_attachment room_id attachment_id db = elim (lookup room_id db.hub.chats) [
  | none ↦ db
  | some c ↦ record db {
    hub = record db.hub {
      chats =
          insert room_id
            (record c { attachments = keep (λ a. not (a.id == attachment_id)) c.attachments })
            db.hub.chats;
    };
  }
]

-- `delete_room_attachment`
unfoldable pub delete_room_attachment :
    Settings → String → String → ℕ → Vault → Result String × Vault
unfolding get_attachment_or_404 drop_attachment
delete_room_attachment s room_id attachment_id now v =
    elim (get_attachment_or_404 room_id attachment_id v.db) [
      | err e ↦ (err e, v)
      | ok a ↦ (
        ok a.blob_sha256,
        (reclaim_blob_if_unreferenced s now a.blob_sha256
            (record v { db = drop_attachment room_id attachment_id v.db })).1,
      )
    ]

-- `get_room_attachment_for_download`
unfoldable pub get_room_attachment_for_download :
    String → String → Database → Result (RoomAttachment × AttachmentBlob)
unfolding get_attachment_or_404
get_room_attachment_for_download room_id attachment_id db =
    get_attachment_or_404 room_id attachment_id db >>= λ a. elim (lookup a.blob_sha256 db.blobs) [
      | none ↦ raise 500 Code.attachment_storage_inconsistent
      | some b ↦ ok (a, b)
    ]
