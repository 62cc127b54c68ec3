-- ===== src/Attachments/Requests/History.antt =====
-- app/attachments.py: the invariant of the store over any sequence of requests.
use brainard.Prelude.{
  ℕ, String, Bool, true, not, ◌≡◌, refl, Option, none, some, List, [], ◌∷◌, ◌==◌, keep, arith,
}
use brainard.Prelude.Table.{Table, lookup, insert}
use brainard.Errors.{Result, ok, err}
use brainard.Model.{RoomAttachment, Chat, Hub}
use brainard.Rooms.Isolation.{AllChats, AllChats-insert, AllChats-remove}
use brainard.Rooms.Remove.{Removed, remove_found, delete_room}
use brainard.Uploads.{
  Settings, Storage, Exit, received, rejected, disconnected, receive_attachment_upload,
}
use brainard.Attachments.{AttachmentBlob, Vault}
use brainard.Attachments.Reclaim.{
  get_attachment_or_404, drop_attachment, delete_room_attachment, reclaim_blob_if_unreferenced,
  keys, sweep_expired_blobs, release_blobs_for_deleted_room, release_removed,
  delete_room_with_blobs,
}
use brainard.Attachments.Sound.{are_stored, IsHeld, IsSoundStore}
use brainard.Attachments.Sound.Adding.{dir-IsSoundStore}
use brainard.Attachments.Sound.Linking.{add_room_attachment-IsSoundStore}
use brainard.Attachments.Sound.Documents.{
  add_attachment_from_brain_document-IsSoundStore, save_attachment_to_brain-IsSoundStore,
}
use brainard.Attachments.Sound.Detaching.{length-keep}
use brainard.Attachments.Sound.Reclaiming.{
  reclaim_blob_if_unreferenced-IsSoundStore, reclaim_each-IsSoundStore,
}
use brainard.Attachments.Requests.{
  UploadRequest, set_storage, add_received, upload_pdf_attachment, Request, upload, from_brain,
  drop, sweep, save, drop_room, serve, serve_all,
}

are_stored-keep :
    (blobs : Table AttachmentBlob) (p : RoomAttachment → Bool) (xs : List RoomAttachment)
    → are_stored xs blobs ≡ true
    → are_stored (keep p xs) blobs ≡ true
are_stored-keep blobs p [] h = refl
are_stored-keep blobs p (x ∷ xs) h = ground (arith, h, are_stored-keep blobs p xs)

module _ (s : Settings) where
  -- Other rooms with the same or fewer references.
  hub-IsSoundStore :
      (v : Vault) (hub : Hub)
      → IsSoundStore s v
      → AllChats (IsHeld s v.db.blobs) hub
      → IsSoundStore s (record v { db = record v.db { hub = hub } })
  hub-IsSoundStore v hub h k = record {
    keyed = h.keyed;
    counted = h.counted;
    ceiling = h.ceiling;
    rooms = k;
    linked = h.linked;
    filed = h.filed;
  }

  drop_attachment-IsSoundStore :
      (room_id attachment_id : String) (v : Vault)
      → IsSoundStore s v
      → IsSoundStore s (record v { db = drop_attachment room_id attachment_id v.db })
  unfolding drop_attachment
  drop_attachment-IsSoundStore room_id attachment_id v h =
      found (lookup room_id v.db.hub.chats) refl
    where
      without : Chat → Chat
      without c = record c { attachments = keep (λ a. not (a.id == attachment_id)) c.attachments }

      found :
          (o : Option Chat)
          → lookup room_id v.db.hub.chats ≡ o
          → IsSoundStore s (record v {
            db = elim o [
              | none ↦ v.db
              | some c ↦ record v.db {
                hub = record v.db.hub { chats = insert room_id (without c) v.db.hub.chats };
              }
            ];
          })
      found none e = h
      found (some c) e =
          let held = h.rooms.at room_id c e in
          hub-IsSoundStore v (record v.db.hub { chats = insert room_id (without c) v.db.hub.chats })
            h
            (AllChats-insert (IsHeld s v.db.blobs) v.db.hub _ room_id (without c) h.rooms
              (
                are_stored-keep v.db.blobs (λ a. not (a.id == attachment_id)) c.attachments held.0,
                ground
                    (arith, length-keep (λ a. not (a.id == attachment_id)) c.attachments, held.1),
              )
              refl)

  delete_room_attachment-IsSoundStore :
      (room_id attachment_id : String) (now : ℕ) (v : Vault)
      → IsSoundStore s v
      → IsSoundStore s (delete_room_attachment s room_id attachment_id now v).1
  unfolding delete_room_attachment
  delete_room_attachment-IsSoundStore room_id attachment_id now v h =
      found (get_attachment_or_404 room_id attachment_id v.db)
    where
      found :
          (r : Result RoomAttachment)
          → IsSoundStore s
              (elim r as (λ x. Result String × Vault) [
                | err e ↦ (err e, v)
                | ok a ↦ (
                  ok a.blob_sha256,
                  (reclaim_blob_if_unreferenced s now a.blob_sha256
                      (record v { db = drop_attachment room_id attachment_id v.db })).1,
                )
              ]).1
      found (err e) = h
      found (ok a) =
          reclaim_blob_if_unreferenced-IsSoundStore s now a.blob_sha256
            (record v { db = drop_attachment room_id attachment_id v.db })
            (drop_attachment-IsSoundStore room_id attachment_id v h)

  delete_room-IsSoundStore :
      (seen : Option Chat) (room_id : String) (v : Vault)
      → IsSoundStore s v
      → IsSoundStore s
          (record v { db = record v.db { hub = (delete_room seen room_id v.db.hub).1 } })
  unfolding delete_room
  delete_room-IsSoundStore none room_id v h = h
  delete_room-IsSoundStore (some seen) room_id v h = found (lookup room_id v.db.hub.chats)
    where
      found :
          (o : Option Chat)
          → IsSoundStore s
              (record v { db = record v.db { hub = (remove_found room_id v.db.hub o).1 } })
      found none = h
      found (some c) =
          hub-IsSoundStore v (remove_found room_id v.db.hub (some c)).1 h
            (AllChats-remove (IsHeld s v.db.blobs) v.db.hub _ room_id h.rooms refl)

  release_removed-IsSoundStore :
      (now : ℕ) (v : Vault) (r : Result Removed)
      → IsSoundStore s v
      → IsSoundStore s (release_removed s now v r)
  unfolding release_removed release_blobs_for_deleted_room
  release_removed-IsSoundStore now v (err e) h = h
  release_removed-IsSoundStore now v (ok r) h =
      reclaim_each-IsSoundStore s now r.attachment_hashes v h

module _ (sha256 : List ℕ → String) (s : Settings) where
  set_storage-IsSoundStore :
      (st : Storage) (v : Vault) → IsSoundStore s v → IsSoundStore s (set_storage st v)
  set_storage-IsSoundStore st v h =
      dir-IsSoundStore s v.db v.dir (set_storage st v).dir h (λ k f. f)

  pub upload_pdf_attachment-IsSoundStore :
      (seen : Option Chat) (q : UploadRequest) (now : ℕ) (id : String) (v : Vault)
      → IsSoundStore s v
      → IsSoundStore s (upload_pdf_attachment sha256 s seen q now id v).1
  unfolding upload_pdf_attachment add_received
  upload_pdf_attachment-IsSoundStore seen q now id v h =
      finished (receive_attachment_upload sha256 s q.tmp q.last q.arrivals v.dir.storage)
    where
      finished : (r : Exit × Storage) → IsSoundStore s (add_received sha256 s seen q now id v r).1
      finished (received u, st) =
          add_room_attachment-IsSoundStore s [] seen q.room_id
            (record {
              sender = q.sender;
              principal = q.principal;
              filename = q.filename;
              tmp = q.tmp;
              sha256_hex = u.sha256_hex;
              byte_size = u.byte_size;
              fmt = u.fmt;
            })
            now id (set_storage st v) tt (set_storage-IsSoundStore st v h)
      finished (rejected e, st) = set_storage-IsSoundStore st v h
      finished (disconnected, st) = set_storage-IsSoundStore st v h

  serve-IsSoundStore :
      (r : Request) (v : Vault) → IsSoundStore s v → IsSoundStore s (serve sha256 s r v)
  unfolding serve sweep_expired_blobs delete_room_with_blobs
  serve-IsSoundStore (upload seen q now id) v h =
      upload_pdf_attachment-IsSoundStore seen q now id v h
  serve-IsSoundStore (from_brain seen room_id sender principal document_id filename now id) v h =
      add_attachment_from_brain_document-IsSoundStore s seen room_id sender principal document_id
        filename now id v h
  serve-IsSoundStore (drop room_id attachment_id now) v h =
      delete_room_attachment-IsSoundStore s room_id attachment_id now v h
  serve-IsSoundStore (sweep now) v h = reclaim_each-IsSoundStore s now (keys v.db.blobs) v h
  serve-IsSoundStore (save room_id attachment_id project revoked deposited) v h =
      save_attachment_to_brain-IsSoundStore s room_id attachment_id project revoked deposited v h
  serve-IsSoundStore (drop_room seen room_id now) v h =
      release_removed-IsSoundStore s now
        (record v { db = record v.db { hub = (delete_room seen room_id v.db.hub).1 } })
        (delete_room seen room_id v.db.hub).0 (delete_room-IsSoundStore s seen room_id v h)

  -- After any requests on a sound store, each served alone, from its first read to the deletion of
  -- the last file that it reclaims, whatever each answers, the store is sound: the bytes on
  -- record are the sum of the sizes of the stored blobs and within the ceiling, no room has more
  -- attachments than the cap, every attachment and every document refers to a stored blob, and every
  -- stored blob has its file.
  pub serve_all-IsSoundStore :
      (rs : List Request) (v : Vault) → IsSoundStore s v → IsSoundStore s (serve_all sha256 s rs v)
  unfolding serve_all
  serve_all-IsSoundStore [] v h = h
  serve_all-IsSoundStore (r ∷ rs) v h =
      serve_all-IsSoundStore rs (serve sha256 s r v) (serve-IsSoundStore r v h)
