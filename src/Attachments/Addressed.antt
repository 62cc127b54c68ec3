-- ===== src/Attachments/Addressed.antt =====
-- app/attachments.py: the blobs are addressed by the hash of their content.
pub mod Requested
pub mod Roundtrip
use mathlib.Core.Path.{subst}
use mathlib.Core.Option.{some-injective}
use brainard.Prelude.{
  ℕ, String, Bool, true, false, ◌≡◌, ◌≢◌, refl, sym, ap, ◌∙◌, Option, none, some, List, [], ◌∷◌,
  ◌==◌, eq_iff, is_some, if◌then◌else◌, arith, Bool-cases, Option-cases, inl, inr,
}
use brainard.Prelude.Table.{Table, lookup, insert, remove, lookup-insert, lookup-remove}
use brainard.Errors.{Code, Result, ok, err, raise, OnOk}
use brainard.Model.{RoomAttachment, Chat}
use brainard.Uploads.{
  Settings, Format, pdf, md, Storage, Exit, received, rejected, disconnected,
  receive_attachment_upload,
}
use brainard.Attachments.{
  Database, Directory, Vault, unlink_tmp, set_files, files_of, move_into_place, create_blob,
  get_or_create_blob, check_entry,
}
use brainard.Attachments.Sound.{is_stored, has_file}

module _ (sha256 : List ℕ → String) where
  -- Every file of the table has the hash of its content for a key.
  pub record HoldsByHash (files : Table (List ℕ)) : Type 0 where
    pub at : (h : String) (content : List ℕ) → lookup h files ≡ some content → sha256 content ≡ h

  -- The blob files of either format.
  pub record IsAddressed (dir : Directory) : Type 0 where
    pub pdf_files : HoldsByHash dir.pdf_files
    pub md_files : HoldsByHash dir.md_files

  insert-HoldsByHash :
      (h : String) (content : List ℕ) (files : Table (List ℕ))
      → sha256 content ≡ h
      → HoldsByHash files
      → HoldsByHash (insert h content files)
  insert-HoldsByHash h content files e k = record {
    at = λ j other found.
        choose (h == j) j other refl (sym (lookup-insert h j content files) ∙ found);
  }
    where
      choose :
          (b : Bool) (j : String) (other : List ℕ)
          → (h == j) ≡ b
          → (if b then some content else lookup j files) ≡ some other
          → sha256 other ≡ j
      choose true j other same found =
          ap sha256 (sym (some-injective content other found)) ∙ e ∙ (eq_iff h j).0 same
      choose false j other differ found = k.at j other found

  pub remove-HoldsByHash :
      (h : String) (files : Table (List ℕ)) → HoldsByHash files → HoldsByHash (remove h files)
  remove-HoldsByHash h files k = record {
    at = λ j other found. choose (h == j) j other (sym (lookup-remove h j files) ∙ found);
  }
    where
      choose :
          (b : Bool) (j : String) (other : List ℕ)
          → (if b then none else lookup j files) ≡ some other
          → sha256 other ≡ j
      choose true j other found = cc
      choose false j other found = k.at j other found

  pub files_of-HoldsByHash :
      (fmt : Format) (dir : Directory) → IsAddressed dir → HoldsByHash (files_of fmt dir)
  files_of-HoldsByHash pdf dir k = k.pdf_files
  files_of-HoldsByHash md dir k = k.md_files

  pub set_files-IsAddressed :
      (fmt : Format) (files : Table (List ℕ)) (dir : Directory)
      → HoldsByHash files
      → IsAddressed dir
      → IsAddressed (set_files fmt files dir)
  unfolding set_files
  set_files-IsAddressed pdf files dir h k = record { pdf_files = h; md_files = k.md_files }
  set_files-IsAddressed md files dir h k = record { pdf_files = k.pdf_files; md_files = h }

  pub unlink_tmp-IsAddressed :
      (tmp : String) (dir : Directory) → IsAddressed dir → IsAddressed (unlink_tmp tmp dir)
  unfolding unlink_tmp
  unlink_tmp-IsAddressed tmp dir k = record { pdf_files = k.pdf_files; md_files = k.md_files }

  -- The temporary file holds what was hashed.
  abbrev pub HasContent : String → String → Directory → Type 0
  HasContent tmp sha dir =
      (content : List ℕ) × (lookup tmp dir.storage.files ≡ some content) × (sha256 content ≡ sha)

  pub move_into_place-IsAddressed :
      (tmp sha : String) (fmt : Format) (dir : Directory)
      → HasContent tmp sha dir
      → IsAddressed dir
      → OnOk IsAddressed (move_into_place tmp sha fmt dir)
  unfolding move_into_place
  move_into_place-IsAddressed tmp sha fmt dir (content, there, e) k =
      elim (Bool-cases (is_some (lookup sha (files_of fmt dir)))) [
        | inl stored ↦ rw stored (unlink_tmp-IsAddressed tmp dir k)
        | inr missing ↦
            rw (missing, there)
              (set_files-IsAddressed fmt (insert sha content (files_of fmt dir))
                (unlink_tmp tmp dir)
                (insert-HoldsByHash sha content (files_of fmt dir) e
                  (files_of-HoldsByHash fmt dir k))
                (unlink_tmp-IsAddressed tmp dir k))
      ]
