-- ===== src/Attachments/Sound/Adding.antt =====
-- app/attachments.py: a new reference keeps the invariant of the store.
use mathlib.Core.Path.{subst}
use brainard.Prelude.{
  ℕ, ◌+◌, ◌≤◌, String, Bool, true, false, ◌||◌, ◌≡◌, refl, sym, ◌∙◌, none, some, List, is_some,
  get_or_else, ◌==◌, eq_iff, ==-self, if◌then◌else◌, arith, ltb, Bool-cases, Option-cases, inl, inr,
}
use brainard.Prelude.Table.{Table, lookup, insert, lookup-insert}
use brainard.Prelude.Table.Sums.{IsKeyed-insert, sum_of-insert-none}
use brainard.Errors.{Result, ok, err, OnOk}
use brainard.Uploads.{Settings, Format, pdf, md}
use brainard.Attachments.{
  AttachmentBlob, Database, Directory, unlink_tmp, move_into_place, set_files, files_of,
  create_blob, get_or_create_blob,
}
use brainard.Attachments.Sound.{is_stored, has_file, IsSoundStore, are_stored_mono, is_linked_mono}

has_file-set_files :
    (fmt : Format) (tmp sha k : String) (content : List ℕ) (dir : Directory)
    → has_file k (set_files fmt (insert sha content (files_of fmt dir)) (unlink_tmp tmp dir))
      ≡ ((sha == k) || has_file k dir)
unfolding set_files unlink_tmp
has_file-set_files pdf tmp sha k content dir =
    ground (arith, lookup-insert sha k content dir.pdf_files)
has_file-set_files md tmp sha k content dir =
    ground (arith, lookup-insert sha k content dir.md_files)

has_file-files_of :
    (fmt : Format) (sha : String) (dir : Directory)
    → is_some (lookup sha (files_of fmt dir)) ≡ true
    → has_file sha dir ≡ true
has_file-files_of pdf sha dir h = ground (arith, h)
has_file-files_of md sha dir h = ground (arith, h)

-- The blob's file is there, and so is every other that was.
move_into_place-has_file :
    (tmp sha : String) (fmt : Format) (dir : Directory)
    → OnOk
        (λ after.
          (has_file sha after ≡ true)
          × ((k : String) → has_file k dir ≡ true → has_file k after ≡ true))
        (move_into_place tmp sha fmt dir)
unfolding move_into_place unlink_tmp
move_into_place-has_file tmp sha fmt dir =
    elim (Bool-cases (is_some (lookup sha (files_of fmt dir)))) [
      | inl there ↦ rw there (has_file-files_of fmt sha dir there, λ k h. h)
      | inr missing ↦ elim (Option-cases (lookup tmp dir.storage.files)) [
        | inl gone ↦ rw (missing, gone) tt
        | inr (content, found) ↦
            rw (missing, found)
              (
                has_file-set_files fmt tmp sha sha content dir ∙ ground (arith, ==-self sha),
                λ k h. has_file-set_files fmt tmp sha k content dir ∙ ground (arith, h),
              )
      ]
    ]

module _ (s : Settings) where
  -- The blob is stored, and the rooms are as they were; or nothing but the directory has changed.
  -- The invariant also holds of the new directory with the tables rolled back.
  abbrev pub IsCreated : Database → String → Result Database × Directory → Type 0
  IsCreated before sha (ok db, dir) =
      IsSoundStore s (record { db = db; dir = dir })
      × (is_stored sha db.blobs ≡ true)
      × (db.hub ≡ before.hub)
      × IsSoundStore s (record { db = before; dir = dir })
  IsCreated before sha (err e, dir) = IsSoundStore s (record { db = before; dir = dir })

  -- The directory may change as long as no file of a blob goes.
  pub dir-IsSoundStore :
      (db : Database) (dir after : Directory)
      → IsSoundStore s (record { db = db; dir = dir })
      → ((k : String) → has_file k dir ≡ true → has_file k after ≡ true)
      → IsSoundStore s (record { db = db; dir = after })
  dir-IsSoundStore db dir after h f = record {
    keyed = h.keyed;
    counted = h.counted;
    ceiling = h.ceiling;
    rooms = h.rooms;
    linked = h.linked;
    filed = λ k b found. f k (h.filed k b found);
  }

  is_stored-insert :
      (sha k : String) (b : AttachmentBlob) (t : Table AttachmentBlob)
      → is_stored k t ≡ true
      → is_stored k (insert sha b t) ≡ true
  is_stored-insert sha k b t h = ground (arith, lookup-insert sha k b t, h)

  create_blob-IsCreated :
      (sha : String) (size now : ℕ) (db : Database) (dir : Directory) (r : Result Directory)
      → IsSoundStore s (record { db = db; dir = dir })
      → lookup sha db.blobs ≡ none
      → get_or_else db.total_bytes 0 + size ≤ s.attachment_global_ceiling_bytes
      → OnOk
          (λ after.
            (has_file sha after ≡ true)
            × ((k : String) → has_file k dir ≡ true → has_file k after ≡ true))
          r
      → IsCreated db sha (create_blob sha size now db dir r)
  unfolding create_blob
  create_blob-IsCreated sha size now db dir (err e) h new fits placed = h
  create_blob-IsCreated sha size now db dir (ok after) h new fits placed = (
    record {
      keyed = IsKeyed-insert sha row db.blobs h.keyed;
      counted =
          ground (arith, sum_of-insert-none (λ b. b.byte_size) sha row db.blobs new, h.counted);
      ceiling = fits;
      rooms = record {
        at = λ id c found. (
          are_stored_mono db.blobs (insert sha row db.blobs)
              (λ k there. is_stored-insert sha k row db.blobs there) c.attachments
              (h.rooms.at id c found).0,
          (h.rooms.at id c found).1,
        );
      };
      linked = λ id d found.
          is_linked_mono db.blobs (insert sha row db.blobs)
            (λ k there. is_stored-insert sha k row db.blobs there) d.blob_sha256
            (h.linked id d found);
      filed =
          λ k b found. choose (sha == k) k b refl (sym (lookup-insert sha k row db.blobs) ∙ found);
    },
    rw (lookup-insert sha sha row db.blobs, ==-self sha) refl,
    refl,
    dir-IsSoundStore db dir after h placed.1,
  )
    where
      row : AttachmentBlob
      row = record { byte_size = size; created_at = now }

      choose :
          (t : Bool) (k : String) (b : AttachmentBlob)
          → (sha == k) ≡ t
          → (if t then some row else lookup k db.blobs) ≡ some b
          → has_file k after ≡ true
      choose true k b same found =
          subst (λ x. has_file x after ≡ true) ((eq_iff sha k).0 same) placed.0
      choose false k b other found = placed.1 k (h.filed k b found)

  pub get_or_create_blob-IsCreated :
      (sha : String) (size : ℕ) (tmp : String) (fmt : Format) (now : ℕ) (db : Database)
      (dir : Directory)
      → IsSoundStore s (record { db = db; dir = dir })
      → IsCreated db sha (get_or_create_blob s sha size tmp fmt now db dir)
  unfolding get_or_create_blob unlink_tmp
  get_or_create_blob-IsCreated sha size tmp fmt now db dir h =
      elim (Option-cases (lookup sha db.blobs)) [
        | inr (b, there) ↦ rw there (
          dir-IsSoundStore db dir (unlink_tmp tmp dir) h (λ k f. f),
          rw there refl,
          refl,
          dir-IsSoundStore db dir (unlink_tmp tmp dir) h (λ k f. f),
        )
        | inl new ↦
            elim (Bool-cases
              (ltb s.attachment_global_ceiling_bytes (get_or_else db.total_bytes 0 + size))) [
                | inl over ↦
                    rw (new, over) (dir-IsSoundStore db dir (unlink_tmp tmp dir) h (λ k f. f))
                | inr fits ↦
                    rw (new, fits)
                      (create_blob-IsCreated sha size now db dir (move_into_place tmp sha fmt dir) h
                        new (ground arith) (move_into_place-has_file tmp sha fmt dir))
              ]
      ]
