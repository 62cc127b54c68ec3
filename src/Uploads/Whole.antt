-- ===== src/Uploads/Whole.antt =====
-- app/attachments.py: an upload as a whole, from an empty receiver to its exit.
use mathlib.Core.List.{append-nil, append_assoc}
use brainard.Prelude.{
  ℕ, ◌<◌, String, true, false, ◌≡◌, refl, ap, ◌∙◌, none, some, List, [], ◌∷◌, ◌++◌, length,
  length-append, all, arith,
}
use brainard.Prelude.Table.{lookup}
use brainard.Errors.{Result, ok, err}
use brainard.Uploads.{
  Settings, Format, pdf, md, pdf_magic, Receiver, new_receiver, Storage, Exit, received, rejected,
  disconnected, Arrival, chunk, hang_up, format_of, commit_to, start_streaming, open_tmp,
  receive_chunk, end_stream, exit_with, receive_from, receive_attachment_upload, abandon,
  release_rest, write_or_abandon,
}
use brainard.Uploads.Reference.{expected_upload, upload_in, content_of, is_chunk, is_disconnected}
use brainard.Uploads.Reference.Chances.{format_of-short, is_acceptable-empty}
use brainard.Uploads.Underway.{
  IsStreaming, IsRestored, IsRoomy, abandon-IsRestored, write_or_abandon-IsWritten,
}
use brainard.Uploads.Exits.{
  IsClean, IsClean-map, IsSettled, IsClean-IsSettled, doomed_lem, AllRoomy, end_stream-known,
  exit_with-IsClean, exit_with-is_disconnected,
}
use brainard.Uploads.Loop.{
  Underway, waiting, streaming, IsNext, open_tmp-IsStreaming, receive_chunk-IsNext,
}

module _ (sha256 : List ℕ → String) (s : Settings) (tmp : String) (d : Storage)
    (fresh : lookup tmp d.files ≡ none) where
  untouched-IsRestored : IsRestored s tmp d d
  untouched-IsRestored = record { released = refl; unlinked = fresh; others = λ j n. refl }

  -- A short content is a text, if it is anything.
  short-IsClean :
      (last : ℕ) (c : List ℕ)
      → length c < length pdf_magic
      → IsClean sha256 s tmp d
          (IsRoomy s tmp d last)
          c
          (exit_with sha256 s tmp (end_stream s last tmp (record new_receiver { prefix = c }) d))
  unfolding IsClean exit_with end_stream commit_to
  short-IsClean last [] n = (untouched-IsRestored, λ room. is_acceptable-empty s)
  short-IsClean last (x ∷ xs) n =
      exit_with-IsClean sha256 s tmp d last md (x ∷ xs)
        (commit_to s last tmp md true (record new_receiver { prefix = x ∷ xs }) d)
        (format_of-short (x ∷ xs) n) (ground arith)
        (write_or_abandon-IsWritten s tmp d last true md [] (x ∷ xs)
          (start_streaming s md (record new_receiver { prefix = x ∷ xs })) (open_tmp s tmp d)
          (open_tmp-IsStreaming s tmp d md (x ∷ xs)))

  end_stream-IsClean :
      (last : ℕ) (c : List ℕ) (u : Receiver) (e : Storage)
      → Underway s tmp d c u e
      → IsClean sha256 s tmp d
          (IsRoomy s tmp d last)
          (c ++ [])
          (exit_with sha256 s tmp (end_stream s last tmp u e))
  end_stream-IsClean last c u e (waiting v n at) = rw (v, at, append-nil c) (short-IsClean last c n)
  end_stream-IsClean last c u e (streaming n h) = choose (format_of c) refl h
    where
      choose :
          (f : Format)
          → format_of c ≡ f
          → IsStreaming s tmp d f c u e
          → IsClean sha256 s tmp d
              (IsRoomy s tmp d last)
              (c ++ [])
              (exit_with sha256 s tmp (end_stream s last tmp u e))
      choose pdf m k =
          rw (end_stream-known sha256 s tmp d last pdf u e k.chosen, append-nil c)
            (exit_with-IsClean sha256 s tmp d last pdf c (ok u, e) m (ground (arith, n))
              (k, λ i. cc))
      choose md m k = rw (end_stream-known sha256 s tmp d last md u e k.chosen) (
          exit_with-IsClean sha256 s tmp d last md (c ++ [])
            (write_or_abandon s last tmp [] true u e) (ap format_of (append-nil c) ∙ m)
            (ground (arith, n, length-append c []))
            (write_or_abandon-IsWritten s tmp d last true md c [] u e k))

  abandon-Underway :
      (c : List ℕ) (u : Receiver) (e : Storage)
      → Underway s tmp d c u e
      → IsRestored s tmp d (abandon tmp u e)
  unfolding abandon release_rest
  abandon-Underway c u e (waiting v n at) = rw (v, at) untouched-IsRestored
  abandon-Underway c u e (streaming n h) = abandon-IsRestored s tmp d (format_of c) c u e h

  next-IsClean :
      (free last : ℕ) (c : List ℕ) (arrivals : List Arrival) (r : Result Receiver × Storage)
      → IsNext s tmp d free c r
      → ((u : Receiver) (e : Storage)
          → Underway s tmp d c u e
          → IsClean sha256 s tmp d
              (AllRoomy s tmp d last arrivals)
              (c ++ content_of arrivals)
              (receive_from sha256 s tmp last arrivals (ok u, e)))
      → IsClean sha256 s tmp d
          (IsRoomy s tmp d free × AllRoomy s tmp d last arrivals)
          (c ++ content_of arrivals)
          (receive_from sha256 s tmp last arrivals r)
  unfolding receive_from IsClean IsNext
  next-IsClean free last c arrivals (ok u, e) h k =
      IsClean-map sha256 s tmp d (AllRoomy s tmp d last arrivals)
        (IsRoomy s tmp d free × AllRoomy s tmp d last arrivals) (λ roomy. roomy.1)
        (c ++ content_of arrivals) (receive_from sha256 s tmp last arrivals (ok u, e)) (k u e h)
  next-IsClean free last c [] (err x, e) (h, k) g =
      (h, λ roomy. doomed_lem s tmp d c [] (k roomy.0).0 (k roomy.0).1)
  next-IsClean free last c (a ∷ arrivals) (err x, e) (h, k) g =
      (h, λ roomy. doomed_lem s tmp d c (content_of (a ∷ arrivals)) (k roomy.0).0 (k roomy.0).1)

  -- The rest of an upload, from any point of its loop.
  receive_from-IsClean :
      (last : ℕ) (arrivals : List Arrival) (c : List ℕ) (u : Receiver) (e : Storage)
      → Underway s tmp d c u e
      → IsClean sha256 s tmp d
          (AllRoomy s tmp d last arrivals)
          (c ++ content_of arrivals)
          (receive_from sha256 s tmp last arrivals (ok u, e))
  unfolding receive_from IsClean
  receive_from-IsClean last [] c u e h = end_stream-IsClean last c u e h
  receive_from-IsClean last (hang_up ∷ arrivals) c u e h = abandon-Underway c u e h
  receive_from-IsClean last (chunk free bytes ∷ arrivals) c u e h =
      rw⁻¹ (append_assoc c bytes (content_of arrivals)) (
        next-IsClean free last (c ++ bytes) arrivals (receive_chunk s free tmp bytes u e)
          (receive_chunk-IsNext s tmp d free c bytes u e h)
          (λ v e' k. receive_from-IsClean last arrivals (c ++ bytes) v e' k))

  receive_attachment_upload-IsClean :
      (last : ℕ) (arrivals : List Arrival)
      → IsClean sha256 s tmp d
          (AllRoomy s tmp d last arrivals)
          (content_of arrivals)
          (receive_attachment_upload sha256 s tmp last arrivals d)
  unfolding receive_attachment_upload
  receive_attachment_upload-IsClean last arrivals =
      receive_from-IsClean last arrivals [] new_receiver d (waiting refl (ground arith) refl)

  -- Whatever a client sends, in whatever chunks: an upload is received only if its whole content is
  -- acceptable (within the size cap, and a PDF signature or a UTF-8 text without a disallowed control
  -- character), and then the temporary file holds exactly that content, whose hash, length and format
  -- are answered. On every other exit no temporary file is left. In each case the pledges and the
  -- other files are as they were.
  pub receive_attachment_upload-IsSettled :
      (last : ℕ) (arrivals : List Arrival)
      → IsSettled sha256 s tmp d
          (content_of arrivals)
          (receive_attachment_upload sha256 s tmp last arrivals d)
  receive_attachment_upload-IsSettled last arrivals =
      IsClean-IsSettled sha256 s tmp d (AllRoomy s tmp d last arrivals) (content_of arrivals)
        (receive_attachment_upload sha256 s tmp last arrivals d)
        (receive_attachment_upload-IsClean last arrivals)

  receive_from-is_disconnected :
      (last : ℕ) (arrivals : List Arrival) (r : Result Receiver × Storage)
      → all is_chunk arrivals ≡ true
      → is_disconnected (receive_from sha256 s tmp last arrivals r).0 ≡ false
  unfolding receive_from
  receive_from-is_disconnected last [] (err x, e) h = refl
  receive_from-is_disconnected last (a ∷ arrivals) (err x, e) h = refl
  receive_from-is_disconnected last [] (ok u, e) h =
      exit_with-is_disconnected sha256 s tmp d (end_stream s last tmp u e)
  receive_from-is_disconnected last (hang_up ∷ arrivals) (ok u, e) h = cc
  receive_from-is_disconnected last (chunk free bytes ∷ arrivals) (ok u, e) h =
      receive_from-is_disconnected last arrivals (receive_chunk s free tmp bytes u e) h

  expected_lem :
      (c : List ℕ) (r : Exit × Storage) (Roomy : Type 0)
      → Roomy
      → IsClean sha256 s tmp d Roomy c r
      → is_disconnected r.0 ≡ false
      → upload_in r.0 ≡ expected_upload sha256 s c
  unfolding IsClean expected_upload
  expected_lem c (received u, e) Roomy roomy h k = rw h.acceptable (ap some h.upload)
  expected_lem c (rejected x, e) Roomy roomy (h, refused) k = rw (refused roomy) refl
  expected_lem c (disconnected, e) Roomy roomy h k = cc

  -- Where the volume always has room for a whole file and the pledges of the others, and the
  -- client does not hang up, whether a file is received, and the hash, the size and the format that
  -- are then answered, depend on its whole content alone and not on the chunks, also where they cut a
  -- character in two. Which rejection a file that is not received gets may depend on the chunks.
  pub receive_attachment_upload-expected :
      (last : ℕ) (arrivals : List Arrival)
      → AllRoomy s tmp d last arrivals
      → all is_chunk arrivals ≡ true
      → upload_in (receive_attachment_upload sha256 s tmp last arrivals d).0
        ≡ expected_upload sha256 s (content_of arrivals)
  unfolding receive_attachment_upload
  receive_attachment_upload-expected last arrivals roomy complete =
      expected_lem (content_of arrivals) (receive_attachment_upload sha256 s tmp last arrivals d)
        (AllRoomy s tmp d last arrivals) roomy (receive_attachment_upload-IsClean last arrivals)
        (receive_from-is_disconnected last arrivals (ok new_receiver, d) complete)
