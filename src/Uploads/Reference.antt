-- ===== src/Uploads/Reference.antt =====
-- app/attachments.py: what an upload promises of its whole content, however it arrives in chunks.
pub mod Scanning
pub mod Chances
use brainard.Prelude.{
  ℕ, String, Bool, true, false, not, ◌&&◌, ◌||◌, Option, none, some, List, [], ◌∷◌, ◌++◌, leb,
  length, is_nil, is_none, if◌then◌else◌,
}
use brainard.Uploads.Utf8.{Decoder, fresh_decoder, decode}
use brainard.Uploads.{
  Settings, Upload, Exit, received, rejected, disconnected, Arrival, chunk, hang_up, pdf_magic,
  starts_with, format_of, first_disallowed_control_char,
}

-- Valid UTF-8 as a whole, without a disallowed control character.
unfoldable pub is_text : List ℕ → Bool
is_text content = elim (decode fresh_decoder content true) [
  | none ↦ false
  | some (text, d) ↦ is_none (first_disallowed_control_char text)
]

-- A PDF signature or a text, within the size cap.
unfoldable pub is_acceptable : Settings → List ℕ → Bool
unfolding is_text
is_acceptable s content =
    leb (length content) s.attachment_max_file_bytes
    && (starts_with pdf_magic content || (not (is_nil content) && is_text content))

unfoldable pub upload_of : (List ℕ → String) → List ℕ → Upload
unfolding format_of
upload_of sha256 content = record {
  sha256_hex = sha256 content;
  byte_size = length content;
  fmt = format_of content;
}

unfoldable pub expected_upload : (List ℕ → String) → Settings → List ℕ → Option Upload
unfolding is_acceptable upload_of
expected_upload sha256 s content =
    if is_acceptable s content then some (upload_of sha256 content) else none

-- The upload that was received, if any.
abbrev pub upload_in : Exit → Option Upload
upload_in (received u) = some u
upload_in other = none

-- The whole content that a stream hands over.
abbrev pub content_of : List Arrival → List ℕ
content_of [] = []
content_of (chunk free bytes ∷ arrivals) = bytes ++ content_of arrivals
content_of (hang_up ∷ arrivals) = content_of arrivals

abbrev pub is_chunk : Arrival → Bool
is_chunk (chunk free bytes) = true
is_chunk hang_up = false

abbrev pub is_disconnected : Exit → Bool
is_disconnected disconnected = true
is_disconnected other = false
