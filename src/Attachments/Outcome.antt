-- ===== src/Attachments/Outcome.antt =====
-- app/attachments.py: what an addition does, on every branch.
use brainard.Prelude.{ℕ, String, true, ◌≡◌, refl, ap, Option, none, some, [], ◌∷◌, ◌++◌}
use brainard.Prelude.Table.{lookup, insert}
use brainard.Errors.{Result, ok, err}
use brainard.Model.{RoomAttachment, Chat}
use brainard.Uploads.{Settings}
use brainard.Attachments.{Database, Directory, Vault, get_or_create_blob, check_entry}
use brainard.Attachments.Entry.{IsEntered, check_entry-IsEntered}
use brainard.Attachments.Add.{
  NewFile, new_attachment, attach, refuse, store_attachment, attempt, add_attempts,
  add_room_attachment,
}
use brainard.Attachments.Resolved.{
  IsGone, unlink_tmp-IsGone, IsAccounted, IsResolved, get_or_create_blob-IsResolved,
}

module _ (s : Settings) where
  -- The new reference, under the checks, or nothing but a temporary file less.
  unfoldable pub IsAdded :
      String → NewFile → ℕ → String → Vault → Result RoomAttachment × Vault → Type 0
  IsAdded room_id q now id before (ok a, after) =
      (c : Chat) × (b : Chat) × (lookup room_id before.db.hub.chats ≡ some c)
      × IsEntered s true c q.sender q.principal a.uploaded_by b
      × (a ≡ new_attachment id q.sha256_hex q.filename a.uploaded_by now)
      × (after.db.hub.chats
          ≡ insert room_id (record b { attachments = b.attachments ++ a ∷ [] }) before.db.hub.chats)
      × (after.db.documents ≡ before.db.documents)
      × IsAccounted s q.sha256_hex q.byte_size now before.db after.db
      × IsGone q.tmp after.dir
  IsAdded room_id q now id before (err e, after) = (after.db ≡ before.db) × IsGone q.tmp after.dir

  module _ (retry : Vault → Result RoomAttachment × Vault) where
    store_attachment-IsAdded :
        (room_id : String) (q : NewFile) (now : ℕ) (id cleaned : String) (c b : Chat) (v : Vault)
        (r : Result Database × Directory)
        → lookup room_id v.db.hub.chats ≡ some c
        → IsEntered s true c q.sender q.principal cleaned b
        → IsResolved s q.sha256_hex q.byte_size now q.tmp v.db r
        → IsAdded room_id q now id v (
            store_attachment retry [] room_id b
              (new_attachment id q.sha256_hex q.filename cleaned now)
              v
              r)
    unfolding store_attachment IsAdded attach
    store_attachment-IsAdded room_id q now id cleaned c b v (err e, dir) found entry h = (refl, h)
    store_attachment-IsAdded room_id q now id cleaned c b v (ok db, dir) found entry
          (same, documents, accounted, gone) =
        (
          c,
          b,
          found,
          entry,
          refl,
          ap
              (λ h.
                insert room_id
                  (record b {
                    attachments =
                        b.attachments ++ new_attachment id q.sha256_hex q.filename cleaned now ∷ [];
                  })
                  h.chats)
              same,
          documents,
          record {
            blobs = accounted.blobs;
            total_bytes = accounted.total_bytes;
            ceiling = accounted.ceiling;
          },
          gone,
        )

    attempt-IsAdded :
        (room_id : String) (q : NewFile) (now : ℕ) (id : String) (v : Vault) (o : Option Chat)
        → lookup room_id v.db.hub.chats ≡ o
        → IsAdded room_id q now id v (attempt retry [] s room_id q now id v o)
    unfolding attempt IsAdded
    attempt-IsAdded room_id q now id v none e = (refl, unlink_tmp-IsGone q.tmp v.dir)
    attempt-IsAdded room_id q now id v (some c) e =
        entered (check_entry s true c q.sender q.principal) refl
      where
        next : String × Chat → Result RoomAttachment × Vault
        next checked =
            store_attachment retry [] room_id checked.1
              (new_attachment id q.sha256_hex q.filename checked.0 now) v
              (get_or_create_blob s q.sha256_hex q.byte_size q.tmp q.fmt now v.db v.dir)

        entered :
            (r : Result (String × Chat))
            → check_entry s true c q.sender q.principal ≡ r
            → IsAdded room_id q now id v (refuse q.tmp v r next)
        entered (err x) f = (refl, unlink_tmp-IsGone q.tmp v.dir)
        entered (ok (cleaned, b)) f =
            store_attachment-IsAdded room_id q now id cleaned c b v
              (get_or_create_blob s q.sha256_hex q.byte_size q.tmp q.fmt now v.db v.dir) e
              (check_entry-IsEntered s true c q.sender q.principal cleaned b f)
              (get_or_create_blob-IsResolved s q.sha256_hex q.byte_size q.tmp q.fmt now v.db v.dir)

  -- An addition that no other transaction collides with: it is accepted only in an open room below
  -- its cap, from the owner with the owner token or from a member, whom the upload switch allows and
  -- whose seat is free or the requester's; it then adds one reference, last in its room, and stores
  -- a content once: a new one counts, within the ceiling. Rejected, it leaves the tables alone. In
  -- both cases the temporary file is gone.
  pub add_room_attachment-IsAdded :
      (seen : Option Chat) (room_id : String) (q : NewFile) (now : ℕ) (id : String) (v : Vault)
      → IsAdded room_id q now id v (add_room_attachment [] seen s room_id q now id v)
  unfolding add_room_attachment add_attempts IsAdded
  add_room_attachment-IsAdded none room_id q now id v = (refl, unlink_tmp-IsGone q.tmp v.dir)
  add_room_attachment-IsAdded (some c) room_id q now id v =
      attempt-IsAdded (λ w. add_attempts 2 [] s room_id q now id w) room_id q now id v
        (lookup room_id v.db.hub.chats) refl
