-- ===== src/Attachments/Sound/Linking.antt =====
-- app/attachments.py: adding a file or a document keeps the invariant of the store.
use mathlib.Core.Path.{subst}
use brainard.Prelude.{
  ℕ, zero, suc, ◌<◌, String, Bool, true, ◌≡◌, refl, Option, none, some, List, [], ◌∷◌, ◌++◌, length,
  length-append, arith,
}
use brainard.Prelude.Table.{Table, lookup}
use brainard.Errors.{Result, ok, err}
use brainard.Model.{RoomAttachment, Chat, Principal}
use brainard.Rooms.Isolation.{AllChats, AllChats-insert}
use brainard.Rooms.Seats.Binding.{check_and_bind_seat-SameButSeats, SameButSeats}
use brainard.Errors.{OnOk-eq}
use brainard.Uploads.{Settings}
use brainard.Attachments.{
  AttachmentBlob, Database, Directory, Vault, unlink_tmp, check_entry, get_or_create_blob,
}
use brainard.Attachments.Entry.{IsEntered, check_entry-IsEntered}
use brainard.Attachments.Add.{
  NewFile, new_attachment, attach, refuse, store_attachment, attempt, tail, add_attempts,
  max_attachment_attempts, add_room_attachment,
}
use brainard.Attachments.Sound.{is_stored, are_stored, IsHeld, IsSoundStore, are_stored-append}
use brainard.Attachments.Sound.Adding.{IsCreated, dir-IsSoundStore, get_or_create_blob-IsCreated}

-- Every one of the concurrent transactions keeps the invariant.
abbrev pub AllKeep : Settings → List (Vault → Vault) → Type 0
AllKeep s [] = Unit
AllKeep s (other ∷ others) =
    ((v : Vault) → IsSoundStore s v → IsSoundStore s (other v)) × AllKeep s others

module _ (s : Settings) where
  pub attach-IsSoundStore :
      (room_id : String) (b : Chat) (a : RoomAttachment) (db : Database) (dir : Directory)
      → IsSoundStore s (record { db = db; dir = dir })
      → is_stored a.blob_sha256 db.blobs ≡ true
      → are_stored b.attachments db.blobs ≡ true
      → length b.attachments < s.attachment_max_files_per_room
      → IsSoundStore s (record { db = attach room_id b a db; dir = dir })
  unfolding attach
  attach-IsSoundStore room_id b a db dir h there held below = record {
    keyed = h.keyed;
    counted = h.counted;
    ceiling = h.ceiling;
    rooms =
        AllChats-insert (IsHeld s db.blobs) db.hub (attach room_id b a db).hub room_id
          (record b { attachments = b.attachments ++ a ∷ [] }) h.rooms
          (
            ground (arith, are_stored-append db.blobs b.attachments (a ∷ []), there, held),
            ground (arith, length-append b.attachments (a ∷ []), below),
          )
          refl;
    linked = h.linked;
    filed = h.filed;
  }

  -- The room with its seat holds what the stored room holds.
  pub entered_lem :
      (is_upload : Bool) (c : Chat) (sender : String) (principal : Principal) (cleaned : String)
      (b : Chat) (blobs : Table AttachmentBlob)
      → check_entry s is_upload c sender principal ≡ ok (cleaned, b)
      → IsHeld s blobs c
      → (are_stored b.attachments blobs ≡ true)
        × (length b.attachments < s.attachment_max_files_per_room)
  entered_lem is_upload c sender principal cleaned b blobs e h =
      (rw same.attachments h.0, rw same.attachments entry.below_cap)
    where
      entry : IsEntered s is_upload c sender principal cleaned b
      entry = check_entry-IsEntered s is_upload c sender principal cleaned b e

      same : SameButSeats c b
      same =
          OnOk-eq (SameButSeats c) _ (check_and_bind_seat-SameButSeats c cleaned principal)
            entry.seated

  unlink_tmp-IsSoundStore :
      (tmp : String) (v : Vault)
      → IsSoundStore s v
      → IsSoundStore s (record v { dir = unlink_tmp tmp v.dir })
  unfolding unlink_tmp
  unlink_tmp-IsSoundStore tmp v h =
      dir-IsSoundStore s v.db v.dir (unlink_tmp tmp v.dir) h (λ k f. f)

  module _ (retry : Vault → Result RoomAttachment × Vault)
      (again : (v : Vault) → IsSoundStore s v → IsSoundStore s (retry v).1) where
    store_attachment-IsSoundStore :
        (others : List (Vault → Vault)) (room_id : String) (b : Chat) (a : RoomAttachment)
        (v : Vault) (r : Result Database × Directory)
        → AllKeep s others
        → AllChats (IsHeld s v.db.blobs) v.db.hub
        → ((blobs : Table AttachmentBlob)
            → AllChats (IsHeld s blobs) v.db.hub
            → (are_stored b.attachments blobs ≡ true)
              × (length b.attachments < s.attachment_max_files_per_room))
        → IsCreated s v.db a.blob_sha256 r
        → IsSoundStore s (store_attachment retry others room_id b a v r).1
    unfolding store_attachment
    store_attachment-IsSoundStore others room_id b a v (err x, dir) k w held g = g
    store_attachment-IsSoundStore [] room_id b a v (ok db, dir) k w held (g, there, same, old) =
        let now_held = held db.blobs (subst (AllChats (IsHeld s db.blobs)) same g.rooms) in
        attach-IsSoundStore room_id b a db dir g there now_held.0 now_held.1
    store_attachment-IsSoundStore (other ∷ others) room_id b a v (ok db, dir) k w held
          (g, there, same, old) =
        again (other (record v { dir = dir })) (k.0 (record v { dir = dir }) old)

    attempt-IsSoundStore :
        (others : List (Vault → Vault)) (room_id : String) (q : NewFile) (now : ℕ) (id : String)
        (v : Vault) (o : Option Chat)
        → AllKeep s others
        → lookup room_id v.db.hub.chats ≡ o
        → IsSoundStore s v
        → IsSoundStore s (attempt retry others s room_id q now id v o).1
    unfolding attempt
    attempt-IsSoundStore others room_id q now id v none k e h = unlink_tmp-IsSoundStore q.tmp v h
    attempt-IsSoundStore others room_id q now id v (some c) k e h =
        entered (check_entry s true c q.sender q.principal) refl
      where
        next : String × Chat → Result RoomAttachment × Vault
        next checked =
            store_attachment retry others room_id checked.1
              (new_attachment id q.sha256_hex q.filename checked.0 now) v
              (get_or_create_blob s q.sha256_hex q.byte_size q.tmp q.fmt now v.db v.dir)

        entered :
            (r : Result (String × Chat))
            → check_entry s true c q.sender q.principal ≡ r
            → IsSoundStore s (refuse q.tmp v r next).1
        entered (err x) f = unlink_tmp-IsSoundStore q.tmp v h
        entered (ok (cleaned, b)) f =
            store_attachment-IsSoundStore others room_id b
              (new_attachment id q.sha256_hex q.filename cleaned now) v
              (get_or_create_blob s q.sha256_hex q.byte_size q.tmp q.fmt now v.db v.dir) k h.rooms
              (λ blobs rooms.
                entered_lem true c q.sender q.principal cleaned b blobs f (rooms.at room_id c e))
              (get_or_create_blob-IsCreated s q.sha256_hex q.byte_size q.tmp q.fmt now v.db v.dir h)

  add_attempts-IsSoundStore :
      (n : ℕ) (others : List (Vault → Vault)) (room_id : String) (q : NewFile) (now : ℕ)
      (id : String) (v : Vault)
      → AllKeep s others
      → IsSoundStore s v
      → IsSoundStore s (add_attempts n others s room_id q now id v).1
  unfolding add_attempts
  add_attempts-IsSoundStore zero others room_id q now id v k h = h
  add_attempts-IsSoundStore (suc n) others room_id q now id v k h =
      attempt-IsSoundStore (λ w. add_attempts n (tail others) s room_id q now id w)
        (λ w g. add_attempts-IsSoundStore n (tail others) room_id q now id w (rest others k) g)
        others room_id q now id v (lookup room_id v.db.hub.chats) k refl h
    where
      rest : (others : List (Vault → Vault)) → AllKeep s others → AllKeep s (tail others)
      rest [] k = tt
      rest (other ∷ others) k = k.1

  pub add_room_attachment-IsSoundStore :
      (others : List (Vault → Vault)) (seen : Option Chat) (room_id : String) (q : NewFile)
      (now : ℕ) (id : String) (v : Vault)
      → AllKeep s others
      → IsSoundStore s v
      → IsSoundStore s (add_room_attachment others seen s room_id q now id v).1
  unfolding add_room_attachment
  add_room_attachment-IsSoundStore others none room_id q now id v k h =
      unlink_tmp-IsSoundStore q.tmp v h
  add_room_attachment-IsSoundStore others (some seen) room_id q now id v k h =
      add_attempts-IsSoundStore max_attachment_attempts others room_id q now id v k h
