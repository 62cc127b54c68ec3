-- ===== src/Attachments/Sound/Documents.antt =====
-- app/attachments.py: attaching from and saving to the Brain keep the invariant of the store.
use mathlib.Core.Path.{subst}
use mathlib.Core.Option.{some-injective}
use brainard.Prelude.{
  ℕ, String, Bool, true, false, ◌≡◌, refl, sym, ◌∙◌, Option, none, some, ◌==◌, if◌then◌else◌, arith,
}
use brainard.Prelude.Table.{lookup, lookup-insert}
use brainard.Errors.{Result, ok, err}
use brainard.Model.{RoomAttachment, Chat, Principal}
use brainard.Uploads.{Settings}
use brainard.Attachments.{Document, Database, Vault, check_entry}
use brainard.Attachments.Add.{
  new_attachment, attach, link_document, find_attachable, add_attachment_from_brain_document,
}
use brainard.Attachments.Save.{check_save, link_blob, save_checked, save_attachment_to_brain}
use brainard.Attachments.Sound.{is_stored, is_linked, IsSoundStore}
use brainard.Attachments.Sound.Linking.{attach-IsSoundStore, entered_lem}

module _ (s : Settings) where
  link_document-IsSoundStore :
      (room_id sender : String) (principal : Principal) (sha256_hex filename : String) (now : ℕ)
      (id : String) (v : Vault) (o : Option Chat)
      → lookup room_id v.db.hub.chats ≡ o
      → is_stored sha256_hex v.db.blobs ≡ true
      → IsSoundStore s v
      → IsSoundStore s (link_document s room_id sender principal sha256_hex filename now id v o).1
  unfolding link_document
  link_document-IsSoundStore room_id sender principal sha filename now id v none e there h = h
  link_document-IsSoundStore room_id sender principal sha filename now id v (some c) e there h =
      entered (check_entry s false c sender principal) refl
    where
      entered :
          (r : Result (String × Chat))
          → check_entry s false c sender principal ≡ r
          → IsSoundStore s
              (elim r as (λ x. Result RoomAttachment × Vault) [
                | err e ↦ (err e, v)
                | ok (cleaned, bound) ↦ (
                  ok (new_attachment id sha filename cleaned now),
                  record v {
                    db = attach room_id bound (new_attachment id sha filename cleaned now) v.db;
                  },
                )
              ]).1
      entered (err x) f = h
      entered (ok (cleaned, b)) f =
          let held =
            entered_lem s false c sender principal cleaned b v.db.blobs f
              (h.rooms.at room_id c e) in
          attach-IsSoundStore s room_id b (new_attachment id sha filename cleaned now) v.db v.dir h
            there held.0 held.1

  find_attachable-is_stored :
      (v : Vault) (document_id sha256_hex : String) (o : Option Document)
      → IsSoundStore s v
      → lookup document_id v.db.documents ≡ o
      → find_attachable o ≡ ok sha256_hex
      → is_stored sha256_hex v.db.blobs ≡ true
  unfolding find_attachable
  find_attachable-is_stored v document_id sha none h e f = cc
  find_attachable-is_stored v document_id sha (some d) h e f =
      ground (arith, f, h.linked document_id d e)

  pub add_attachment_from_brain_document-IsSoundStore :
      (seen : Option Chat) (room_id sender : String) (principal : Principal)
      (document_id filename : String) (now : ℕ) (id : String) (v : Vault)
      → IsSoundStore s v
      → IsSoundStore s
          (add_attachment_from_brain_document seen s room_id sender principal document_id filename
            now id v).1
  unfolding add_attachment_from_brain_document
  add_attachment_from_brain_document-IsSoundStore none room_id sender principal document_id filename
        now id v h =
      h
  add_attachment_from_brain_document-IsSoundStore (some seen) room_id sender principal document_id
        filename now id v h =
      found (find_attachable (lookup document_id v.db.documents)) refl
    where
      found :
          (r : Result String)
          → find_attachable (lookup document_id v.db.documents) ≡ r
          → IsSoundStore s
              (elim r as (λ x. Result RoomAttachment × Vault) [
                | err e ↦ (err e, v)
                | ok sha256_hex ↦
                    link_document s room_id sender principal sha256_hex filename now id v
                      (lookup room_id v.db.hub.chats)
              ]).1
      found (err x) e = h
      found (ok sha) e =
          link_document-IsSoundStore room_id sender principal sha filename now id v
            (lookup room_id v.db.hub.chats) refl
            (find_attachable-is_stored v document_id sha (lookup document_id v.db.documents) h refl
              e)
            h

  -- What passes the checks refers to a stored blob.
  pub check_save-is_stored :
      (room_id attachment_id project : String) (revoked : Bool) (db : Database) (a : RoomAttachment)
      → check_save room_id attachment_id project revoked db ≡ ok a
      → is_stored a.blob_sha256 db.blobs ≡ true
  unfolding check_save
  check_save-is_stored room_id attachment_id project revoked db a e = ground (arith, e)

  pub link_blob-IsSoundStore :
      (a : RoomAttachment) (document_id : String) (v : Vault)
      → IsSoundStore s v
      → is_stored a.blob_sha256 v.db.blobs ≡ true
      → IsSoundStore s (record v { db = link_blob a document_id v.db })
  unfolding link_blob
  link_blob-IsSoundStore a document_id v h there = record {
    keyed = h.keyed;
    counted = h.counted;
    ceiling = h.ceiling;
    rooms = record { at = h.rooms.at };
    linked = λ id d found.
        choose (document_id == id) id d
          (sym (lookup-insert document_id id row v.db.documents) ∙ found);
    filed = h.filed;
  }
    where
      row : Document
      row = record { title = a.filename; blob_sha256 = some a.blob_sha256 }

      choose :
          (t : Bool) (id : String) (d : Document)
          → (if t then some row else lookup id v.db.documents) ≡ some d
          → is_linked v.db.blobs d.blob_sha256 ≡ true
      choose true id d found =
          subst (λ x. is_linked v.db.blobs x.blob_sha256 ≡ true) (some-injective row d found) there
      choose false id d found = h.linked id d found

  pub save_attachment_to_brain-IsSoundStore :
      (room_id attachment_id project : String) (revoked : Bool) (deposited : Result String)
      (v : Vault)
      → IsSoundStore s v
      → IsSoundStore s
          (save_attachment_to_brain room_id attachment_id project revoked deposited v).1
  unfolding save_attachment_to_brain save_checked
  save_attachment_to_brain-IsSoundStore room_id attachment_id project revoked deposited v h =
      checked deposited (check_save room_id attachment_id project revoked v.db) refl
    where
      checked :
          (deposited : Result String) (r : Result RoomAttachment)
          → check_save room_id attachment_id project revoked v.db ≡ r
          → IsSoundStore s (save_checked deposited v r).1
      checked deposited (err x) e = h
      checked (err x) (ok a) e = h
      checked (ok document_id) (ok a) e =
          link_blob-IsSoundStore a document_id v h
            (check_save-is_stored room_id attachment_id project revoked v.db a e)
