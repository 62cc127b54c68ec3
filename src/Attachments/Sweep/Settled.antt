-- ===== src/Attachments/Sweep/Settled.antt =====
-- app/attachments.py: what a sweep leaves.
use brainard.Prelude.{
  ℕ, String, true, false, ◌≡◌, refl, sym, ap, ◌∙◌, ◌⊎◌, inl, inr, Option, none, some, List, [], ◌∷◌,
  ◌==◌, eq_iff, contains, arith, Bool-cases,
}
use brainard.Prelude.Table.{Table, lookup, lookup-remove}
use brainard.Uploads.{Settings}
use brainard.Attachments.{AttachmentBlob, Vault}
use brainard.Attachments.Reclaim.{
  blob_is_referenced, delete_blob, unlink_blob, reclaim_found, reclaim_blob_if_unreferenced,
  reclaim_each, keys, sweep_expired_blobs,
}
use brainard.Attachments.Sweep.{delete_blob-blob_is_referenced, note_deleted_lem}

contains-keys :
    (k : String) (t : Table AttachmentBlob) → (lookup k t ≡ none) ⊎ (contains k (keys t) ≡ true)
unfolding lookup
contains-keys k [] = inl refl
contains-keys k ((j, b) ∷ t) = elim (Bool-cases (j == k)) [
  | inl same ↦ inr (ground (arith, same))
  | inr other ↦ elim (contains-keys k t) [
    | inl gone ↦ inl (rw other gone)
    | inr there ↦ inr (ground (arith, there))
  ]
]

module _ (s : Settings) (now : ℕ) where
  -- A blob is gone, or something protects it.
  abbrev pub IsSettled : String → Vault → Type 0
  IsSettled k v = (lookup k v.db.blobs ≡ none) ⊎ (blob_is_referenced s now k v.db ≡ true)

  deleted-IsSettled :
      (h k : String) (c : AttachmentBlob) (v : Vault)
      → ((h == k) ≡ true) ⊎ IsSettled k v
      → IsSettled k (record { db = delete_blob h c v.db; dir = unlink_blob h v.dir })
  unfolding delete_blob
  deleted-IsSettled h k c v i = elim (Bool-cases (h == k)) [
    | inl same ↦ inl (rw (lookup-remove h k v.db.blobs, same) refl)
    | inr other ↦ still i other
  ]
    where
      still :
          ((h == k) ≡ true) ⊎ IsSettled k v
          → (h == k) ≡ false
          → IsSettled k (record { db = delete_blob h c v.db; dir = unlink_blob h v.dir })
      still (inl same) other = cc
      still (inr (inl gone)) other = inl (rw (lookup-remove h k v.db.blobs, other) gone)
      still (inr (inr held)) other =
          inr (delete_blob-blob_is_referenced s now h k c v.db other ∙ held)

  reclaim_blob_if_unreferenced-IsSettled :
      (h k : String) (v : Vault)
      → ((h == k) ≡ true) ⊎ IsSettled k v
      → IsSettled k (reclaim_blob_if_unreferenced s now h v).1
  unfolding reclaim_blob_if_unreferenced reclaim_found
  reclaim_blob_if_unreferenced-IsSettled h k v i = found (lookup h v.db.blobs) refl i
    where
      found :
          (o : Option AttachmentBlob)
          → lookup h v.db.blobs ≡ o
          → ((h == k) ≡ true) ⊎ IsSettled k v
          → IsSettled k (reclaim_found s now h v o).1
      found none e (inl same) = inl (sym (ap (λ x. lookup x v.db.blobs) ((eq_iff h k).0 same)) ∙ e)
      found none e (inr j) = j
      found (some c) e j = elim (Bool-cases (blob_is_referenced s now h v.db)) [
        | inl referenced ↦ rw referenced (kept referenced j)
        | inr free ↦ rw free (deleted-IsSettled h k c v j)
      ]
        where
          kept :
              blob_is_referenced s now h v.db ≡ true
              → ((h == k) ≡ true) ⊎ IsSettled k v
              → IsSettled k v
          kept referenced (inl same) =
              inr
                (sym (ap (λ x. blob_is_referenced s now x v.db) ((eq_iff h k).0 same)) ∙ referenced)
          kept referenced (inr j) = j

  reclaim_each-IsSettled :
      (hs : List String) (k : String) (v : Vault)
      → (contains k hs ≡ true) ⊎ IsSettled k v
      → IsSettled k (reclaim_each s now hs v).1
  unfolding reclaim_each
  reclaim_each-IsSettled [] k v (inl there) = cc
  reclaim_each-IsSettled [] k v (inr i) = i
  reclaim_each-IsSettled (h ∷ hs) k v i =
      let r = reclaim_blob_if_unreferenced s now h v in
      note_deleted_lem s now (IsSettled k) h r.0 (reclaim_each s now hs r.1)
        (reclaim_each-IsSettled hs k r.1 (first i))
    where
      first :
          (contains k (h ∷ hs) ≡ true) ⊎ IsSettled k v
          → (contains k hs ≡ true) ⊎ IsSettled k (reclaim_blob_if_unreferenced s now h v).1
      first (inr j) = inr (reclaim_blob_if_unreferenced-IsSettled h k v (inr j))
      first (inl there) = elim (Bool-cases (h == k)) [
        | inl same ↦ inr (reclaim_blob_if_unreferenced-IsSettled h k v (inl same))
        | inr other ↦ inl (ground (arith, there, other))
      ]

  -- After a sweep in which no other request runs, every blob that is left is referenced: a document
  -- has it, or a room that is open or closed for no longer than the grace period.
  pub sweep_expired_blobs-blob_is_referenced :
      (k : String) (b : AttachmentBlob) (v : Vault)
      → lookup k (sweep_expired_blobs s now v).1.db.blobs ≡ some b
      → blob_is_referenced s now k (sweep_expired_blobs s now v).1.db ≡ true
  unfolding sweep_expired_blobs
  sweep_expired_blobs-blob_is_referenced k b v there =
      settled (reclaim_each-IsSettled (keys v.db.blobs) k v start)
    where
      start : (contains k (keys v.db.blobs) ≡ true) ⊎ IsSettled k v
      start = elim (contains-keys k v.db.blobs) [
        | inl gone ↦ inr (inl gone)
        | inr listed ↦ inl listed
      ]

      settled :
          IsSettled k (reclaim_each s now (keys v.db.blobs) v).1
          → blob_is_referenced s now k (reclaim_each s now (keys v.db.blobs) v).1.db ≡ true
      settled (inl gone) = cc
      settled (inr held) = held
