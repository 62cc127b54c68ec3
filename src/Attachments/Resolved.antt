-- ===== src/Attachments/Resolved.antt =====
-- app/attachments.py: what the blob of an addition does to the tables and the directory.
use brainard.Prelude.{
  ℕ, ◌+◌, ◌≤◌, String, true, false, ◌≡◌, refl, none, some, List, ==-self, is_some, get_or_else,
  if◌then◌else◌, ltb, leb, ◌||◌, arith, Bool-cases, Option-cases, inl, inr,
}
use brainard.Prelude.Table.{Table, lookup, insert, lookup-remove}
use brainard.Errors.{Result, ok, err}
use brainard.Uploads.{Settings, Format, pdf, md}
use brainard.Attachments.{
  Database, Directory, unlink_tmp, set_files, files_of, move_into_place, create_blob,
  get_or_create_blob,
}
use brainard.Attachments.Sound.{is_stored}

-- The temporary file is consumed or deleted.
abbrev pub IsGone : String → Directory → Type 0
IsGone tmp dir = lookup tmp dir.storage.files ≡ none

pub unlink_tmp-IsGone : (tmp : String) (dir : Directory) → IsGone tmp (unlink_tmp tmp dir)
unfolding unlink_tmp
unlink_tmp-IsGone tmp dir = rw (lookup-remove tmp tmp dir.storage.files, ==-self tmp) refl

set_files-IsGone :
    (fmt : Format) (files : Table (List ℕ)) (tmp : String) (dir : Directory)
    → IsGone tmp dir
    → IsGone tmp (set_files fmt files dir)
unfolding set_files
set_files-IsGone pdf files tmp dir h = h
set_files-IsGone md files tmp dir h = h

abbrev IsMoved : String → Directory → Result Directory → Type 0
IsMoved tmp before (ok after) = IsGone tmp after
IsMoved tmp before (err e) = IsGone tmp before

move_into_place-IsMoved :
    (tmp sha : String) (fmt : Format) (dir : Directory)
    → IsMoved tmp dir (move_into_place tmp sha fmt dir)
unfolding move_into_place
move_into_place-IsMoved tmp sha fmt dir =
    elim (Bool-cases (is_some (lookup sha (files_of fmt dir)))) [
      | inl there ↦ rw there (unlink_tmp-IsGone tmp dir)
      | inr missing ↦ elim (Option-cases (lookup tmp dir.storage.files)) [
        | inl gone ↦ rw (missing, gone) gone
        | inr (content, found) ↦
            rw (missing, found)
              (set_files-IsGone fmt (insert sha content (files_of fmt dir)) tmp (unlink_tmp tmp dir)
                (unlink_tmp-IsGone tmp dir))
      ]
    ]

-- A stored content is not stored again; a new one counts within the ceiling.
pub record IsAccounted (s : Settings) (sha : String) (size now : ℕ) (before after : Database)
    : Type 0 where
  pub blobs : after.blobs ≡ (
      if is_stored sha before.blobs
      then before.blobs
      else insert sha (record { byte_size = size; created_at = now }) before.blobs)
  pub total_bytes : after.total_bytes ≡ (
      if is_stored sha before.blobs
      then before.total_bytes
      else some (get_or_else before.total_bytes 0 + size))
  pub ceiling :
      (is_stored sha before.blobs
        || leb (get_or_else before.total_bytes 0 + size) s.attachment_global_ceiling_bytes)
      ≡ true

module _ (s : Settings) where
  abbrev pub IsResolved : String → ℕ → ℕ → String → Database → Result Database × Directory → Type 0
  IsResolved sha size now tmp before (ok after, dir) =
      (after.hub ≡ before.hub)
      × (after.documents ≡ before.documents)
      × IsAccounted s sha size now before after
      × IsGone tmp dir
  IsResolved sha size now tmp before (err e, dir) = IsGone tmp dir

  pub create_blob-IsResolved :
      (sha : String) (size : ℕ) (tmp : String) (now : ℕ) (db : Database) (dir : Directory)
      (r : Result Directory)
      → is_stored sha db.blobs ≡ false
      → get_or_else db.total_bytes 0 + size ≤ s.attachment_global_ceiling_bytes
      → IsMoved tmp dir r
      → IsResolved sha size now tmp db (create_blob sha size now db dir r)
  unfolding create_blob
  create_blob-IsResolved sha size tmp now db dir (err e) new fits h = h
  create_blob-IsResolved sha size tmp now db dir (ok after) new fits h = (
    refl,
    refl,
    record { blobs = rw new refl; total_bytes = rw new refl; ceiling = ground (arith, fits) },
    h,
  )

  pub get_or_create_blob-IsResolved :
      (sha : String) (size : ℕ) (tmp : String) (fmt : Format) (now : ℕ) (db : Database)
      (dir : Directory)
      → IsResolved sha size now tmp db (get_or_create_blob s sha size tmp fmt now db dir)
  unfolding get_or_create_blob
  get_or_create_blob-IsResolved sha size tmp fmt now db dir =
      elim (Bool-cases (is_some (lookup sha db.blobs))) [
        | inl there ↦ rw there (
          refl,
          refl,
          record { blobs = rw there refl; total_bytes = rw there refl; ceiling = rw there refl },
          unlink_tmp-IsGone tmp dir,
        )
        | inr new ↦
            elim (Bool-cases
              (ltb s.attachment_global_ceiling_bytes (get_or_else db.total_bytes 0 + size))) [
                | inl over ↦ rw (new, over) (unlink_tmp-IsGone tmp dir)
                | inr fits ↦
                    rw (new, fits)
                      (create_blob-IsResolved sha size tmp now db dir
                        (move_into_place tmp sha fmt dir) new (ground arith)
                        (move_into_place-IsMoved tmp sha fmt dir))
              ]
      ]
