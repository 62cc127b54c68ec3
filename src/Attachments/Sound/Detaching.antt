-- ===== src/Attachments/Sound/Detaching.antt =====
-- app/attachments.py: what stays when a blob goes.
use mathlib.Core.Option.{some-injective}
use brainard.Prelude.{
  ◌≤◌, String, Bool, true, false, not, ◌≡◌, refl, sym, Option, none, some, List, [], ◌∷◌, ◌==◌,
  eq_iff, length, keep, if◌then◌else◌, arith,
}
use brainard.Prelude.Table.{Table, lookup, remove, lookup-remove}
use brainard.Model.{RoomAttachment, Chat}
use brainard.Attachments.{AttachmentBlob, Document, Directory, set_files, stored_format}
use brainard.Attachments.Reclaim.{refers_to, is_document_of, any_document, detach, unlink_blob}
use brainard.Attachments.Sound.{is_stored, are_stored, is_linked, has_file}

pub any_document-false :
    (h : String) (documents : Table Document) (id : String) (d : Document)
    → any_document h documents ≡ false
    → lookup id documents ≡ some d
    → is_document_of h d ≡ false
unfolding any_document lookup
any_document-false h [] id d e found = cc
any_document-false h ((j, x) ∷ t) id d e found =
    ground (arith, e, found, any_document-false h t id d)

-- A stored blob other than the deleted one stays.
pub is_stored-remove :
    (h k : String) (blobs : Table AttachmentBlob)
    → (k == h) ≡ false
    → is_stored k blobs ≡ true
    → is_stored k (remove h blobs) ≡ true
is_stored-remove h k blobs other there =
    ground (arith, lookup-remove h k blobs, eq_iff h k, eq_iff k h, there)

pub are_stored-detached :
    (h : String) (blobs : Table AttachmentBlob) (xs : List RoomAttachment)
    → are_stored xs blobs ≡ true
    → are_stored (keep (λ a. not (refers_to h a)) xs) (remove h blobs) ≡ true
are_stored-detached h blobs [] e = refl
are_stored-detached h blobs (x ∷ xs) e =
    ground (arith, e, are_stored-detached h blobs xs, is_stored-remove h x.blob_sha256 blobs)

pub length-keep :
    (p : RoomAttachment → Bool) (xs : List RoomAttachment) → length (keep p xs) ≤ length xs
length-keep p [] = ground arith
length-keep p (x ∷ xs) = ground (arith, length-keep p xs)

-- A room without its references to a blob.
abbrev detached : String → Chat → Chat
detached h c = record c { attachments = keep (λ a. not (refers_to h a)) c.attachments }

pub lookup-detach :
    (h id : String) (chats : Table Chat) (after : Chat)
    → lookup id (detach h chats) ≡ some after
    → (c : Chat) × (lookup id chats ≡ some c)
      × (after ≡ record c { attachments = keep (λ a. not (refers_to h a)) c.attachments })
unfolding detach lookup
lookup-detach h id [] after e = cc
lookup-detach h id ((j, c) ∷ t) after e = choose (j == id) (lookup-detach h id t after) e
  where
    choose :
        (b : Bool)
        → (lookup id (detach h t) ≡ some after
            → (x : Chat) × (lookup id t ≡ some x) × (after ≡ detached h x))
        → (if b then some (detached h c) else lookup id (detach h t)) ≡ some after
        → (x : Chat) × ((if b then some c else lookup id t) ≡ some x) × (after ≡ detached h x)
    choose true rest found = (c, refl, sym (some-injective (detached h c) after found))
    choose false rest found = rest found

pub has_file-unlink_blob :
    (h k : String) (dir : Directory)
    → (h == k) ≡ false
    → has_file k dir ≡ true
    → has_file k (unlink_blob h dir) ≡ true
unfolding unlink_blob stored_format set_files
has_file-unlink_blob h k dir other there =
    ground (arith, lookup-remove h k dir.pdf_files, lookup-remove h k dir.md_files, there, other)

pub is_linked-remove :
    (h : String) (blobs : Table AttachmentBlob) (d : Document)
    → is_document_of h d ≡ false
    → is_linked blobs d.blob_sha256 ≡ true
    → is_linked (remove h blobs) d.blob_sha256 ≡ true
is_linked-remove h blobs d other linked = choose d.blob_sha256 other linked
  where
    choose :
        (o : Option String)
        → elim o [ none ↦ false | some k ↦ k == h ] ≡ false
        → is_linked blobs o ≡ true
        → is_linked (remove h blobs) o ≡ true
    choose none other linked = refl
    choose (some k) other linked = is_stored-remove h k blobs other linked
