-- ===== src/Attachments/Sound/Reclaiming.antt =====
-- app/attachments.py: the deletion of a blob keeps the invariant of the store.
use mathlib.Core.Path.{subst}
use brainard.Prelude.{
  ℕ, ◌≤◌, String, Bool, true, false, not, ◌≡◌, refl, sym, ◌∙◌, Option, none, some, List, [], ◌∷◌,
  ◌==◌, if◌then◌else◌, get_or_else, arith, Bool-cases, inl, inr,
}
use brainard.Prelude.Table.{lookup, remove, lookup-remove}
use brainard.Prelude.Table.Sums.{IsKeyed-remove, sum_of, sum_of-remove}
use brainard.Uploads.{Settings}
use brainard.Attachments.{AttachmentBlob, Vault}
use brainard.Attachments.Reclaim.{
  refers_to, any_document, blob_is_referenced, less, delete_blob, unlink_blob, reclaim_found,
  reclaim_blob_if_unreferenced, note_deleted, reclaim_each,
}
use brainard.Attachments.Sound.{IsHeld, has_file, IsSoundStore}
use brainard.Attachments.Sound.Detaching.{
  any_document-false, are_stored-detached, length-keep, lookup-detach, has_file-unlink_blob,
  is_linked-remove,
}

module _ (s : Settings) where
  delete_blob-IsSoundStore :
      (h : String) (b : AttachmentBlob) (v : Vault)
      → lookup h v.db.blobs ≡ some b
      → any_document h v.db.documents ≡ false
      → IsSoundStore s v
      → IsSoundStore s (record { db = delete_blob h b v.db; dir = unlink_blob h v.dir })
  unfolding delete_blob
  delete_blob-IsSoundStore h b v found free k = record {
    keyed = IsKeyed-remove h v.db.blobs k.keyed;
    counted = subtracted v.db.total_bytes k.counted;
    ceiling = lowered v.db.total_bytes k.ceiling;
    rooms = record {
      at = λ id after there.
          let before = lookup-detach h id v.db.hub.chats after there in
          let held = k.rooms.at id before.0 before.1 in
          subst (IsHeld s (remove h v.db.blobs)) (sym before.2) (
            are_stored-detached h v.db.blobs before.0.attachments held.0,
            ground (arith, length-keep (λ a. not (refers_to h a)) before.0.attachments, held.1),
          );
    };
    linked = λ id d there.
        is_linked-remove h v.db.blobs d (any_document-false h v.db.documents id d free there)
          (k.linked id d there);
    filed = λ j c there. filed j c (sym (lookup-remove h j v.db.blobs) ∙ there);
  }
    where
      subtracted :
          (o : Option ℕ)
          → get_or_else o 0 ≡ sum_of (λ x. x.byte_size) v.db.blobs
          → get_or_else (less b.byte_size o) 0 ≡ sum_of (λ x. x.byte_size) (remove h v.db.blobs)
      subtracted none e =
          ground (arith, e, sum_of-remove (λ x. x.byte_size) h b v.db.blobs k.keyed found)
      subtracted (some t) e =
          ground (arith, e, sum_of-remove (λ x. x.byte_size) h b v.db.blobs k.keyed found)

      lowered :
          (o : Option ℕ)
          → get_or_else o 0 ≤ s.attachment_global_ceiling_bytes
          → get_or_else (less b.byte_size o) 0 ≤ s.attachment_global_ceiling_bytes
      lowered none e = e
      lowered (some t) e = ground (arith, e)

      filed :
          (j : String) (c : AttachmentBlob)
          → (if h == j then none else lookup j v.db.blobs) ≡ some c
          → has_file j (unlink_blob h v.dir) ≡ true
      filed j c there = choose (h == j) refl there
        where
          choose :
              (t : Bool)
              → (h == j) ≡ t
              → (if t then none else lookup j v.db.blobs) ≡ some c
              → has_file j (unlink_blob h v.dir) ≡ true
          choose true same there = cc
          choose false other there = has_file-unlink_blob h j v.dir other (k.filed j c there)

  pub reclaim_blob_if_unreferenced-IsSoundStore :
      (now : ℕ) (h : String) (v : Vault)
      → IsSoundStore s v
      → IsSoundStore s (reclaim_blob_if_unreferenced s now h v).1
  unfolding reclaim_blob_if_unreferenced reclaim_found blob_is_referenced
  reclaim_blob_if_unreferenced-IsSoundStore now h v k = found (lookup h v.db.blobs) refl
    where
      found :
          (o : Option AttachmentBlob)
          → lookup h v.db.blobs ≡ o
          → IsSoundStore s (reclaim_found s now h v o).1
      found none e = k
      found (some b) e = elim (Bool-cases (blob_is_referenced s now h v.db)) [
        | inl referenced ↦ rw referenced k
        | inr free ↦ rw free (delete_blob-IsSoundStore h b v e (ground (arith, free)) k)
      ]

  pub reclaim_each-IsSoundStore :
      (now : ℕ) (hs : List String) (v : Vault)
      → IsSoundStore s v
      → IsSoundStore s (reclaim_each s now hs v).1
  unfolding reclaim_each
  reclaim_each-IsSoundStore now [] v k = k
  reclaim_each-IsSoundStore now (h ∷ hs) v k =
      noted (reclaim_blob_if_unreferenced s now h v).0
        (reclaim_each s now hs (reclaim_blob_if_unreferenced s now h v).1)
        (reclaim_each-IsSoundStore now hs (reclaim_blob_if_unreferenced s now h v).1
          (reclaim_blob_if_unreferenced-IsSoundStore now h v k))
    where
      noted :
          (b : Bool) (r : List String × Vault)
          → IsSoundStore s r.1
          → IsSoundStore s (note_deleted h b r).1
      noted true (deleted, w) g = g
      noted false (deleted, w) g = g
