-- ===== src/Uploads/Exits.antt =====
-- app/attachments.py: how an upload may end, and its last write.
use brainard.Prelude.{
  ℕ, ◌≤◌, String, true, false, ◌≡◌, ◌≢◌, refl, ap, ◌∙◌, inl, inr, none, some, List, [], ◌∷◌, ◌++◌,
  length, length-append, is_some, arith,
}
use brainard.Prelude.Table.{lookup}
use brainard.Errors.{Code, Result, ok, err}
use brainard.Uploads.Utf8.{fresh_decoder}
use brainard.Uploads.{
  Settings, Format, pdf, md, pdf_magic, Receiver, Storage, Upload, Exit, received, rejected,
  disconnected, Arrival, chunk, hang_up, format_of, end_stream, exit_with, release_rest,
  write_or_abandon,
}
use brainard.Uploads.Reference.{is_acceptable, upload_of, is_disconnected}
use brainard.Uploads.Reference.Scanning.{scan, verdict}
use brainard.Uploads.Reference.Chances.{
  format_of-append, scan-none, is_acceptable-large, is_acceptable-garbled, is_acceptable-true,
}
use brainard.Uploads.Underway.{
  IsStreaming, IsRestored, IsHopeless, IsRoomy, IsWritten, release_rest-files,
  release_rest-reserved, verdict-false,
}

module _ (s : Settings) where
  pub doomed_lem :
      (tmp : String) (d : Storage) (c rest : List ℕ)
      → length pdf_magic ≤ length c
      → IsHopeless s tmp d false (format_of c) c
      → is_acceptable s (c ++ rest) ≡ false
  doomed_lem tmp d c rest n (inl large) =
      is_acceptable-large s (c ++ rest) (ground (arith, length-append c rest, large))
  doomed_lem tmp d c rest n (inr (h, k)) =
      is_acceptable-garbled s (c ++ rest) (format_of-append c rest n ∙ h)
        (scan-none c rest (verdict-false (scan fresh_decoder c) k))

module _ (s : Settings) (tmp : String) (d : Storage) where
  -- There is room at every chunk and at the end.
  abbrev pub AllRoomy : ℕ → List Arrival → Type 0
  AllRoomy last [] = IsRoomy s tmp d last
  AllRoomy last (chunk free bytes ∷ arrivals) = IsRoomy s tmp d free × AllRoomy last arrivals
  AllRoomy last (hang_up ∷ arrivals) = AllRoomy last arrivals

module _ (sha256 : List ℕ → String) (s : Settings) (tmp : String) (d : Storage) where
  -- The content `c` is acceptable, and the temporary file holds it and nothing else.
  pub record IsReceived (c : List ℕ) (u : Upload) (e : Storage) : Type 0 where
    pub upload : u ≡ upload_of sha256 c
    pub acceptable : is_acceptable s c ≡ true
    pub stored : lookup tmp e.files ≡ some c
    pub released : e.reserved_bytes ≡ d.reserved_bytes
    pub others : (j : String) → tmp ≢ j → lookup j e.files ≡ lookup j d.files

  -- How an upload of `c` may end; where the volume is roomy only a refused content is rejected.
  unfoldable pub IsClean : Type 0 → List ℕ → Exit × Storage → Type 0
  IsClean Roomy c (received u, e) = IsReceived c u e
  IsClean Roomy c (rejected x, e) = IsRestored s tmp d e × (Roomy → is_acceptable s c ≡ false)
  IsClean Roomy c (disconnected, e) = IsRestored s tmp d e

  pub IsClean-map :
      (P Q : Type 0) → (Q → P) → (c : List ℕ) (r : Exit × Storage) → IsClean P c r → IsClean Q c r
  unfolding IsClean
  IsClean-map P Q f c (received u, e) h = h
  IsClean-map P Q f c (rejected x, e) (h, k) = (h, λ q. k (f q))
  IsClean-map P Q f c (disconnected, e) h = h

  accepted-IsReceived :
      (f : Format) (c : List ℕ) (u : Receiver) (e : Storage)
      → format_of c ≡ f
      → 1 ≤ length c
      → IsStreaming s tmp d f c u e
      → (f ≡ md → is_some (verdict true (scan fresh_decoder c)) ≡ true)
      → IsReceived c
          (record { sha256_hex = sha256 u.hashed; byte_size = u.total; fmt = f })
          (release_rest u e)
  unfolding upload_of
  accepted-IsReceived f c u e m n h t = record {
    upload = rw (h.hashed, h.total, m) refl;
    acceptable = is_acceptable-true s f c m n (ground (arith, h.total, h.pledge)) t;
    stored = rw (release_rest-files u e) h.stored;
    released = release_rest-reserved u e ∙ ground (arith, h.pledged);
    others = λ j k. rw (release_rest-files u e) (h.others j k);
  }

  exit_with-known :
      (f : Format) (u : Receiver) (e : Storage)
      → u.fmt ≡ some f
      → exit_with sha256 s tmp (ok u, e) ≡ (
        received (record { sha256_hex = sha256 u.hashed; byte_size = u.total; fmt = f }),
        release_rest u e,
      )
  unfolding exit_with
  exit_with-known f u e h =
      ap
        (λ o. elim o [
          | none ↦ (rejected (record { status_code = 415; code = Code.attachment_invalid_type }), e)
          | some g ↦ (
            received (record { sha256_hex = sha256 u.hashed; byte_size = u.total; fmt = g }),
            release_rest u e,
          )
        ])
        h

  abbrev pub follow_up : ℕ → Receiver → Storage → Format → Result Receiver × Storage
  follow_up last u e pdf = (ok u, e)
  follow_up last u e md = write_or_abandon s last tmp [] true u e

  pub end_stream-known :
      (last : ℕ) (f : Format) (u : Receiver) (e : Storage)
      → u.fmt ≡ some f
      → end_stream s last tmp u e ≡ follow_up last u e f
  unfolding end_stream
  end_stream-known last pdf u e h = rw h refl
  end_stream-known last md u e h = rw h refl

  -- The last write, once it has gone through the whole content.
  pub exit_with-IsClean :
      (last : ℕ) (f : Format) (c : List ℕ) (r : Result Receiver × Storage)
      → format_of c ≡ f
      → 1 ≤ length c
      → IsWritten s tmp d last true f c r
      → IsClean (IsRoomy s tmp d last) c (exit_with sha256 s tmp r)
  unfolding IsClean exit_with
  exit_with-IsClean last f c (ok u, e) m n (h, k) =
      rw (exit_with-known f u e h.chosen)
        (accepted-IsReceived f c u e m n h (λ i. ap is_some (k i)))
  exit_with-IsClean last f c (err x, e) m n (h, k) = (h, λ room. refused (k room))
    where
      refused : IsHopeless s tmp d true f c → is_acceptable s c ≡ false
      refused (inl large) = is_acceptable-large s c large
      refused (inr (i, j)) = is_acceptable-garbled s c (m ∙ i) j

  pub exit_with-is_disconnected :
      (r : Result Receiver × Storage) → is_disconnected (exit_with sha256 s tmp r).0 ≡ false
  unfolding exit_with
  exit_with-is_disconnected (err x, e) = refl
  exit_with-is_disconnected (ok u, e) = ground arith

  -- How an upload of `c` may end, wherever the volume has room or not.
  abbrev pub IsSettled : List ℕ → Exit × Storage → Type 0
  IsSettled c (received u, e) = IsReceived c u e
  IsSettled c (rejected x, e) = IsRestored s tmp d e
  IsSettled c (disconnected, e) = IsRestored s tmp d e

  pub IsClean-IsSettled :
      (Roomy : Type 0) (c : List ℕ) (r : Exit × Storage) → IsClean Roomy c r → IsSettled c r
  unfolding IsClean
  IsClean-IsSettled Roomy c (received u, e) h = h
  IsClean-IsSettled Roomy c (rejected x, e) h = h.0
  IsClean-IsSettled Roomy c (disconnected, e) h = h
