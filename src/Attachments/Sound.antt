-- ===== src/Attachments/Sound.antt =====
-- app/attachments.py: the invariant of the store.
pub mod Adding
pub mod Linking
pub mod Documents
pub mod Detaching
pub mod Reclaiming
use mathlib.Core.Path.{subst}
use brainard.Prelude.{
  ℕ, ◌+◌, ◌≤◌, String, Bool, true, false, ◌&&◌, ◌||◌, ◌≡◌, ◌≢◌, refl, sym, ap, ◌∙◌, Option, none,
  some, List, [], ◌∷◌, ◌++◌, all, length, is_some, get_or_else, ◌==◌, if◌then◌else◌, arith,
}
use brainard.Prelude.Table.{Table, lookup}
use brainard.Prelude.Table.Sums.{IsKeyed, sum_of}
use brainard.Model.{RoomAttachment, Chat, Hub}
use brainard.Rooms.Isolation.{AllChats}
use brainard.Uploads.{Settings}
use brainard.Attachments.{AttachmentBlob, Document, Database, Directory, Vault}

abbrev pub is_stored : String → Table AttachmentBlob → Bool
is_stored h blobs = is_some (lookup h blobs)

abbrev pub are_stored : List RoomAttachment → Table AttachmentBlob → Bool
are_stored attachments blobs = all (λ a. is_stored a.blob_sha256 blobs) attachments

-- A room refers to blobs that are stored, and to no more than the cap allows.
abbrev pub IsHeld : Settings → Table AttachmentBlob → Chat → Type 0
IsHeld s blobs c =
    (are_stored c.attachments blobs ≡ true)
    × (length c.attachments ≤ s.attachment_max_files_per_room)

abbrev pub is_linked : Table AttachmentBlob → Option String → Bool
is_linked blobs none = true
is_linked blobs (some h) = is_stored h blobs

abbrev pub has_file : String → Directory → Bool
has_file h dir = is_some (lookup h dir.pdf_files) || is_some (lookup h dir.md_files)

-- The bytes on record are those of the blobs and within the ceiling; rooms and documents refer to
-- stored blobs, and each stored blob has its file.
pub record IsSoundStore (s : Settings) (v : Vault) : Type 0 where
  pub keyed : IsKeyed v.db.blobs
  pub counted : get_or_else v.db.total_bytes 0 ≡ sum_of (λ b. b.byte_size) v.db.blobs
  pub ceiling : get_or_else v.db.total_bytes 0 ≤ s.attachment_global_ceiling_bytes
  pub rooms : AllChats (IsHeld s v.db.blobs) v.db.hub
  pub linked :
      (id : String) (d : Document)
      → lookup id v.db.documents ≡ some d
      → is_linked v.db.blobs d.blob_sha256 ≡ true
  pub filed :
      (h : String) (b : AttachmentBlob) → lookup h v.db.blobs ≡ some b → has_file h v.dir ≡ true

-- References stay stored where every stored blob does.
pub are_stored_mono :
    (before after : Table AttachmentBlob)
    → ((h : String) → is_stored h before ≡ true → is_stored h after ≡ true)
    → (attachments : List RoomAttachment) → are_stored attachments before ≡ true
    → are_stored attachments after ≡ true
are_stored_mono before after f [] h = refl
are_stored_mono before after f (a ∷ rest) h =
    ground (arith, h, f a.blob_sha256, are_stored_mono before after f rest)

pub is_linked_mono :
    (before after : Table AttachmentBlob)
    → ((h : String) → is_stored h before ≡ true → is_stored h after ≡ true)
    → (o : Option String) → is_linked before o ≡ true
    → is_linked after o ≡ true
is_linked_mono before after f none h = refl
is_linked_mono before after f (some k) h = f k h

pub are_stored-append :
    (blobs : Table AttachmentBlob) (xs ys : List RoomAttachment)
    → are_stored (xs ++ ys) blobs ≡ (are_stored xs blobs && are_stored ys blobs)
are_stored-append blobs [] ys = refl
are_stored-append blobs (x ∷ xs) ys = ground (arith, are_stored-append blobs xs ys)
