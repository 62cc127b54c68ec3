-- ===== src/Uploads/Underway.antt =====
-- app/attachments.py: where an upload stands between two chunks, and what a write does to it.
use mathlib.Core.Path.{subst}
use brainard.Prelude.{
  ℕ, ◌+◌, ◌-◌, ◌<◌, ◌≤◌, String, Bool, true, false, ◌≡◌, ◌≢◌, refl, sym, ap, ◌∙◌, ◌⊎◌, inl, inr,
  Option, none, some, List, ◌++◌, length, length-append, ltb, arith, Bool-cases, ==-ne, ==-self,
}
use brainard.Prelude.Table.{Table, lookup, remove, lookup-insert, lookup-remove}
use brainard.Errors.{Result, ok, err}
use brainard.Uploads.Utf8.{Decoder, fresh_decoder, decode}
use brainard.Uploads.{
  Settings, Format, pdf, md, Receiver, Storage, write_or_abandon, or_abandon, abandon, release_rest,
  release_upload_budget, validate_and_write, validate, write_validated, write_chunk, append_to,
  lacks_headroom, wrote, check_text,
}
use brainard.Uploads.Reference.Scanning.{
  scan, scan_on, scan-append, verdict, decided, check_text-decode,
}

pub release_rest-files : (u : Receiver) (e : Storage) → (release_rest u e).files ≡ e.files
unfolding release_rest release_upload_budget
release_rest-files u e = ground arith

pub release_rest-reserved :
    (u : Receiver) (e : Storage) → (release_rest u e).reserved_bytes ≡ e.reserved_bytes - u.reserved
unfolding release_rest release_upload_budget
release_rest-reserved u e = ground arith

validate-pdf :
    (bytes : List ℕ) (final : Bool) (u : Receiver)
    → u.fmt ≡ some pdf
    → validate bytes final u ≡ ok u
unfolding validate
validate-pdf bytes final u h = rw h refl

validate-md :
    (bytes : List ℕ) (final : Bool) (u : Receiver)
    → u.fmt ≡ some md
    → validate bytes final u ≡ decided u (verdict final (scan u.decoder bytes))
unfolding validate
validate-md bytes final u h =
    ap (λ o. elim o [ some md ↦ check_text u (decode u.decoder bytes final) | _ ↦ ok u ]) h
    ∙ check_text-decode u bytes final

pub verdict-false : (o : Option Decoder) → verdict false o ≡ none → o ≡ none
verdict-false none h = refl
verdict-false (some d) h = cc

verdict-some :
    (final : Bool) (o : Option Decoder) (w : Decoder) → verdict final o ≡ some w → o ≡ some w
verdict-some final none w h = cc
verdict-some false (some d) w h = h
verdict-some true (some d) w h = ground (arith, h)

module _ (s : Settings) (tmp : String) (d : Storage) where
  -- The upload has a format and a file, which holds the content `c` so far; its pledge stands beside
  -- those of the storage `d` that it found.
  pub record IsStreaming (f : Format) (c : List ℕ) (u : Receiver) (e : Storage) : Type 0 where
    pub chosen : u.fmt ≡ some f
    pub hashed : u.hashed ≡ c
    pub total : u.total ≡ length c
    pub pledge : u.total + u.reserved ≡ s.attachment_max_file_bytes
    pub decoded : f ≡ md → scan fresh_decoder c ≡ some u.decoder
    pub pledged : e.reserved_bytes ≡ d.reserved_bytes + u.reserved
    pub stored : lookup tmp e.files ≡ some c
    pub others : (j : String) → tmp ≢ j → lookup j e.files ≡ lookup j d.files

  -- No trace of the upload is left.
  pub record IsRestored (e : Storage) : Type 0 where
    pub released : e.reserved_bytes ≡ d.reserved_bytes
    pub unlinked : lookup tmp e.files ≡ none
    pub others : (j : String) → tmp ≢ j → lookup j e.files ≡ lookup j d.files

  -- The content is too large, or it is no text.
  abbrev pub IsHopeless : Bool → Format → List ℕ → Type 0
  IsHopeless final f c =
      (s.attachment_max_file_bytes < length c)
      ⊎ ((f ≡ md) × (verdict final (scan fresh_decoder c) ≡ none))

  -- The volume has room for a whole file beside the pledges that the upload found.
  abbrev pub IsRoomy : ℕ → Type 0
  IsRoomy free =
      s.attachment_free_disk_floor_bytes + s.attachment_max_file_bytes + d.reserved_bytes ≤ free

  abbrev pub IsWritten : ℕ → Bool → Format → List ℕ → Result Receiver × Storage → Type 0
  IsWritten free final f c (ok u, e) =
      IsStreaming f c u e × (f ≡ md → verdict final (scan fresh_decoder c) ≡ some u.decoder)
  IsWritten free final f c (err x, e) = IsRestored e × (IsRoomy free → IsHopeless final f c)

  remove_tmp-IsRestored :
      (files : Table (List ℕ)) (e : Storage)
      → ((j : String) → tmp ≢ j → lookup j files ≡ lookup j d.files)
      → e.files ≡ remove tmp files
      → e.reserved_bytes ≡ d.reserved_bytes
      → IsRestored e
  remove_tmp-IsRestored files e h at r = record {
    released = r;
    unlinked = rw (at, lookup-remove tmp tmp files, ==-self tmp) refl;
    others = λ j n. rw (at, lookup-remove tmp j files, ==-ne tmp j n) (h j n);
  }

  pub abandon-IsRestored :
      (f : Format) (c : List ℕ) (u : Receiver) (e : Storage)
      → IsStreaming f c u e
      → IsRestored (abandon tmp u e)
  unfolding abandon
  abandon-IsRestored f c u e h =
      remove_tmp-IsRestored e.files (abandon tmp u e) h.others
        (rw (h.chosen, release_rest-files) refl)
        (rw (h.chosen, release_rest-reserved) (ground (arith, h.pledged)))

  -- What a write of `bytes` leads to, after the validation has left the decoder `w`.
  abbrev IsChunkWritten :
      ℕ → Format → List ℕ → Decoder → Storage → Result Receiver × Storage → Type 0
  IsChunkWritten free f c w e (ok v, e') = IsStreaming f c v e' × (v.decoder ≡ w)
  IsChunkWritten free f c w e (err x, e') =
      (e' ≡ e) × (IsRoomy free → s.attachment_max_file_bytes < length c)

  written-IsStreaming :
      (f : Format) (c bytes : List ℕ) (w : Decoder) (u : Receiver) (e : Storage)
      → IsStreaming f c u e
      → (f ≡ md → scan fresh_decoder (c ++ bytes) ≡ some w)
      → u.total + length bytes ≤ s.attachment_max_file_bytes
      → IsStreaming f
          (c ++ bytes)
          (wrote bytes (record u { decoder = w }))
          (release_upload_budget (length bytes) (append_to tmp bytes e))
  unfolding wrote append_to release_upload_budget
  written-IsStreaming f c bytes w u e h k small =
      rw (h.stored, append_to)
        (record {
          chosen = h.chosen;
          hashed = ap (λ x. x ++ bytes) h.hashed;
          total = ground (arith, length-append c bytes, h.total);
          pledge = ground (arith, h.pledge);
          decoded = k;
          pledged = ground (arith, h.pledged, h.pledge);
          stored = rw (lookup-insert tmp tmp (c ++ bytes) e.files, ==-self tmp) refl;
          others =
              λ j n. rw (lookup-insert tmp j (c ++ bytes) e.files, ==-ne tmp j n) (h.others j n);
        })

  write_chunk-IsChunkWritten :
      (free : ℕ) (f : Format) (c bytes : List ℕ) (w : Decoder) (u : Receiver) (e : Storage)
      → IsStreaming f c u e
      → (f ≡ md → scan fresh_decoder (c ++ bytes) ≡ some w)
      → IsChunkWritten free f
          (c ++ bytes)
          w
          e
          (write_chunk s free tmp bytes (record u { decoder = w }) e)
  unfolding write_chunk lacks_headroom wrote
  write_chunk-IsChunkWritten free f c bytes w u e h k =
      elim (Bool-cases (ltb s.attachment_max_file_bytes (u.total + length bytes))) [
        | inl large ↦ rw large (refl, λ room. ground (arith, length-append c bytes, h.total))
        | inr small ↦ elim (Bool-cases (lacks_headroom s free (length bytes) u.reserved e)) [
          | inl full ↦
              rw (small, full)
                (refl, λ room. ground (arith, length-append c bytes, h.pledge, h.pledged))
          | inr headroom ↦
              rw (small, headroom)
                (written-IsStreaming f c bytes w u e h k (ground (arith, h.total)), refl)
        ]
      ]

  or_abandon-IsWritten :
      (free : ℕ) (final : Bool) (f : Format) (c c' : List ℕ) (w : Decoder) (u : Receiver)
      (e : Storage) (r : Result Receiver × Storage)
      → IsStreaming f c u e
      → (f ≡ md → verdict final (scan fresh_decoder c') ≡ some w)
      → IsChunkWritten free f c' w e r
      → IsWritten free final f c' (or_abandon tmp u r)
  unfolding or_abandon
  or_abandon-IsWritten free final f c c' w u e (ok v, e') h k (p, q) =
      (p, λ m. k m ∙ ap some (sym q))
  or_abandon-IsWritten free final f c c' w u e (err x, e') h k (p, q) = (
    subst (λ z. IsRestored (abandon tmp u z)) (sym p) (abandon-IsRestored f c u e h),
    λ room. inl (q room),
  )

  -- One step of the loop in an upload that has a format: on success the content grows by `bytes`.
  pub write_or_abandon-IsWritten :
      (free : ℕ) (final : Bool) (f : Format) (c bytes : List ℕ) (u : Receiver) (e : Storage)
      → IsStreaming f c u e
      → IsWritten free final f (c ++ bytes) (write_or_abandon s free tmp bytes final u e)
  unfolding write_or_abandon validate_and_write write_validated or_abandon
  write_or_abandon-IsWritten free final pdf c bytes u e h =
      rw (validate-pdf bytes final u h.chosen) (
        or_abandon-IsWritten free final pdf c (c ++ bytes) u.decoder u e
          (write_chunk s free tmp bytes u e) h (λ m. cc)
          (write_chunk-IsChunkWritten free pdf c bytes u.decoder u e h (λ m. cc)))
  write_or_abandon-IsWritten free final md c bytes u e h =
      rw (validate-md bytes final u h.chosen) (split (verdict final (scan u.decoder bytes)) refl)
    where
      whole : scan fresh_decoder (c ++ bytes) ≡ scan u.decoder bytes
      whole = scan-append c bytes fresh_decoder ∙ ap (λ o. scan_on o bytes) (h.decoded refl)

      split :
          (o : Option Decoder)
          → verdict final (scan u.decoder bytes) ≡ o
          → IsWritten free final md
              (c ++ bytes)
              (or_abandon tmp u (write_validated s free tmp bytes (decided u o) e))
      split none k =
          (abandon-IsRestored md c u e h, λ room. inr (refl, ap (verdict final) whole ∙ k))
      split (some w) k =
          or_abandon-IsWritten free final md c (c ++ bytes) w u e
            (write_chunk s free tmp bytes (record u { decoder = w }) e) h
            (λ m. ap (verdict final) whole ∙ k)
            (write_chunk-IsChunkWritten free md c bytes w u e h
              (λ m. whole ∙ verdict-some final (scan u.decoder bytes) w k))
