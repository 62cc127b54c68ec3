-- ===== src/Attachments/Sweep.antt =====
-- app/attachments.py: what the reference-counted deletion spares.
pub mod Settled
use brainard.Prelude.{
  ℕ, String, Bool, true, false, not, ◌&&◌, ◌||◌, ◌≡◌, ◌≢◌, refl, sym, ap, ◌∙◌, ◌⊎◌, inl, inr,
  Option, none, some, List, [], ◌∷◌, ◌==◌, eq_iff, keep, any, contains, if◌then◌else◌, arith,
  Bool-cases, Option-cases, ==-self,
}
use brainard.Prelude.Table.{Table, lookup, remove, lookup-remove}
use brainard.Model.{RoomAttachment, Chat}
use brainard.Uploads.{Settings}
use brainard.Attachments.{AttachmentBlob, Database, Directory, Vault}
use brainard.Attachments.Reclaim.{
  refers_to, is_protected, protects, any_room, any_document, blob_is_referenced, detach,
  delete_blob, unlink_blob, reclaim_found, reclaim_blob_if_unreferenced, note_deleted, reclaim_each,
  keys, sweep_expired_blobs,
}
use brainard.Attachments.Sound.{has_file}
use brainard.Attachments.Sound.Detaching.{has_file-unlink_blob}

any-refers_to :
    (h k : String) (xs : List RoomAttachment)
    → (h == k) ≡ false
    → any (refers_to k) (keep (λ a. not (refers_to h a)) xs) ≡ any (refers_to k) xs
any-refers_to h k [] other = refl
any-refers_to h k (x ∷ xs) other =
    ground (
      arith,
      any-refers_to h k xs other,
      eq_iff h k,
      eq_iff x.blob_sha256 h,
      eq_iff x.blob_sha256 k,
    )

any_room-detach :
    (s : Settings) (now : ℕ) (h k : String) (chats : Table Chat)
    → (h == k) ≡ false
    → any_room (protects s now k) (detach h chats) ≡ any_room (protects s now k) chats
unfolding any_room detach protects
any_room-detach s now h k [] other = refl
any_room-detach s now h k ((id, c) ∷ t) other =
    rw (any_room-detach s now h k t other, any-refers_to h k c.attachments other) refl

module _ (s : Settings) (now : ℕ) where
  -- The deletion of one blob takes no reference from another.
  pub delete_blob-blob_is_referenced :
      (h k : String) (b : AttachmentBlob) (db : Database)
      → (h == k) ≡ false
      → blob_is_referenced s now k (delete_blob h b db) ≡ blob_is_referenced s now k db
  unfolding blob_is_referenced delete_blob
  delete_blob-blob_is_referenced h k b db other =
      rw (any_room-detach s now h k db.hub.chats other) refl

  -- A blob that the store keeps, with its row and its file.
  pub record IsSpared (k : String) (b : AttachmentBlob) (v : Vault) : Type 0 where
    pub row : lookup k v.db.blobs ≡ some b
    pub file : has_file k v.dir ≡ true
    pub reference : blob_is_referenced s now k v.db ≡ true

  unreferenced_lem :
      (h k : String) (db : Database)
      → blob_is_referenced s now h db ≡ false
      → blob_is_referenced s now k db ≡ true
      → (h == k) ≡ false
  unreferenced_lem h k db free held = elim (Bool-cases (h == k)) [
    | inl same ↦
        cc (sym free ∙ ap (λ x. blob_is_referenced s now x db) ((eq_iff h k).0 same) ∙ held)
    | inr other ↦ other
  ]

  reclaim_blob_if_unreferenced-IsSpared :
      (h k : String) (b : AttachmentBlob) (v : Vault)
      → IsSpared k b v
      → IsSpared k b (reclaim_blob_if_unreferenced s now h v).1
  unfolding reclaim_blob_if_unreferenced reclaim_found delete_blob
  reclaim_blob_if_unreferenced-IsSpared h k b v i = found (lookup h v.db.blobs) refl
    where
      deleted :
          (c : AttachmentBlob)
          → blob_is_referenced s now h v.db ≡ false
          → IsSpared k b (record { db = delete_blob h c v.db; dir = unlink_blob h v.dir })
      deleted c free =
          let other = unreferenced_lem h k v.db free i.reference in
          record {
            row = rw (lookup-remove h k v.db.blobs, other) i.row;
            file = has_file-unlink_blob h k v.dir other i.file;
            reference = delete_blob-blob_is_referenced h k c v.db other ∙ i.reference;
          }

      found :
          (o : Option AttachmentBlob)
          → lookup h v.db.blobs ≡ o
          → IsSpared k b (reclaim_found s now h v o).1
      found none e = i
      found (some c) e = elim (Bool-cases (blob_is_referenced s now h v.db)) [
        | inl referenced ↦ rw referenced i
        | inr free ↦ rw free (deleted c free)
      ]

  pub note_deleted_lem :
      (P : Vault → Type 0) (h : String) (b : Bool) (r : List String × Vault)
      → P r.1
      → P (note_deleted h b r).1
  note_deleted_lem P h true (deleted, v) p = p
  note_deleted_lem P h false (deleted, v) p = p

  reclaim_each-IsSpared :
      (hs : List String) (k : String) (b : AttachmentBlob) (v : Vault)
      → IsSpared k b v
      → IsSpared k b (reclaim_each s now hs v).1
  unfolding reclaim_each
  reclaim_each-IsSpared [] k b v i = i
  reclaim_each-IsSpared (h ∷ hs) k b v i =
      let r = reclaim_blob_if_unreferenced s now h v in
      note_deleted_lem (IsSpared k b) h r.0 (reclaim_each s now hs r.1)
        (reclaim_each-IsSpared hs k b r.1 (reclaim_blob_if_unreferenced-IsSpared h k b v i))

  -- A blob that a document refers to, or a room that is open or closed for no longer than the grace
  -- period, keeps its row, its file and that reference over a sweep.
  pub sweep_expired_blobs-IsSpared :
      (k : String) (b : AttachmentBlob) (v : Vault)
      → lookup k v.db.blobs ≡ some b
      → has_file k v.dir ≡ true
      → blob_is_referenced s now k v.db ≡ true
      → IsSpared k b (sweep_expired_blobs s now v).1
  unfolding sweep_expired_blobs
  sweep_expired_blobs-IsSpared k b v row file reference =
      reclaim_each-IsSpared (keys v.db.blobs) k b v
        (record { row = row; file = file; reference = reference })
