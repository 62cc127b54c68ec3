-- ===== src/Uploads.antt =====
-- app/attachments.py: the reception of an upload, from its first byte to the temporary file.
pub mod Utf8
pub mod Reference
pub mod Underway
pub mod Loop
pub mod Exits
pub mod Whole
pub mod Traffic
use brainard.Prelude.{
  ℕ, zero, suc, ◌+◌, ◌-◌, String, Bool, true, false, not, ◌&&◌, ◌||◌, Option, none, some, List, [],
  ◌∷◌, ◌++◌, ltb, leb, eqb, if◌then◌else◌, length, is_nil, is_none, is_some,
}
use brainard.Prelude.Table.{Table, lookup, insert, remove}
use brainard.Errors.{Code, ApiError, Result, ok, err, raise}
use brainard.Uploads.Utf8.{Decoder, fresh_decoder, decode}

-- The limits of app/config.py that attachments obey.
pub record Settings : Type 0 where
  pub attachment_max_file_bytes : ℕ
  pub attachment_max_files_per_room : ℕ
  pub attachment_global_ceiling_bytes : ℕ
  pub attachment_free_disk_floor_bytes : ℕ
  pub attachment_grace_period_days : ℕ

-- `ATTACHMENT_FORMATS`
pub data Format : Type 0 where
  pdf md : Format

-- `PDF_MAGIC`: "%PDF-"
abbrev pub pdf_magic : List ℕ
pdf_magic = 0x25 ∷ 0x50 ∷ 0x44 ∷ 0x46 ∷ 0x2d ∷ []

unfoldable pub starts_with : List ℕ → List ℕ → Bool
starts_with [] content = true
starts_with (b ∷ bs) [] = false
starts_with (b ∷ bs) (c ∷ cs) = eqb b c && starts_with bs cs

-- `ch in MARKDOWN_ALLOWED_CONTROL_CHARS`
abbrev pub is_allowed_control : ℕ → Bool
is_allowed_control c = eqb c 0x9 || eqb c 0xa || eqb c 0xd

unfoldable pub is_disallowed : ℕ → Bool
is_disallowed c =
    not (is_allowed_control c) && (leb c 0x1f || eqb c 0x7f || (leb 0x80 c && leb c 0x9f))

unfoldable pub first_disallowed_control_char : List ℕ → Option ℕ
first_disallowed_control_char [] = none
first_disallowed_control_char (c ∷ cs) =
    if is_disallowed c then some c else first_disallowed_control_char cs

-- The storage directory, by file name, and the pledges of the uploads in flight.
pub record Storage : Type 0 where
  pub files : Table (List ℕ)
  pub reserved_bytes : ℕ

unfoldable pub reserve_upload_budget : ℕ → Storage → Storage
reserve_upload_budget amount d = record d { reserved_bytes = d.reserved_bytes + amount }

-- Clamped at zero, as is `-` on these numbers.
unfoldable pub release_upload_budget : ℕ → Storage → Storage
release_upload_budget amount d = record d { reserved_bytes = d.reserved_bytes - amount }

-- The local variables of one upload; `hashed` is what the hasher was fed.
pub record Receiver : Type 0 where
  pub prefix : List ℕ
  pub fmt : Option Format
  pub hashed : List ℕ
  pub total : ℕ
  pub reserved : ℕ
  pub decoder : Decoder

abbrev pub new_receiver : Receiver
new_receiver = record {
  prefix = [];
  fmt = none;
  hashed = [];
  total = 0;
  reserved = 0;
  decoder = fresh_decoder;
}

-- `f.write(data)` at the end of a file.
unfoldable pub append_to : String → List ℕ → Storage → Storage
append_to name bytes d = elim (lookup name d.files) [
  | none ↦ d
  | some content ↦ record d { files = insert name (content ++ bytes) d.files }
]

-- The free space on the volume when the check reads it is `free`; the two differences of the
-- source are moved to the other side of the order.
unfoldable pub lacks_headroom : Settings → ℕ → ℕ → ℕ → Storage → Bool
lacks_headroom s free about_to_write own_reserved d =
    ltb (free + own_reserved)
      (s.attachment_free_disk_floor_bytes + about_to_write + d.reserved_bytes)

unfoldable pub wrote : List ℕ → Receiver → Receiver
wrote bytes u = record u {
  hashed = u.hashed ++ bytes;
  total = u.total + length bytes;
  reserved = u.reserved - length bytes;
}

-- `_write_chunk`: the size cap and the free disk, then the write.
unfoldable pub write_chunk :
    Settings → ℕ → String → List ℕ → Receiver → Storage → Result Receiver × Storage
unfolding append_to release_upload_budget
write_chunk s free tmp bytes u d =
    if ltb s.attachment_max_file_bytes (u.total + length bytes)
    then (raise 413 Code.attachment_too_large, d)
    else if lacks_headroom s free (length bytes) u.reserved d
    then (raise 507 Code.attachment_disk_floor_exceeded, d)
    else (ok (wrote bytes u), release_upload_budget (length bytes) (append_to tmp bytes d))

-- The text of a Markdown upload: what the decoder completes has no disallowed character.
unfoldable pub check_text : Receiver → Option (List ℕ × Decoder) → Result Receiver
check_text u none = raise 415 Code.attachment_invalid_type
check_text u (some (text, decoder)) =
    if is_some (first_disallowed_control_char text)
    then raise 415 Code.attachment_invalid_type
    else ok (record u { decoder = decoder })

unfoldable pub validate : List ℕ → Bool → Receiver → Result Receiver
validate bytes final u = elim u.fmt [
  | some md ↦ check_text u (decode u.decoder bytes final)
  | _ ↦ ok u
]

unfoldable pub write_validated :
    Settings → ℕ → String → List ℕ → Result Receiver → Storage → Result Receiver × Storage
unfolding write_chunk
write_validated s free tmp bytes (err e) d = (err e, d)
write_validated s free tmp bytes (ok u) d = write_chunk s free tmp bytes u d

unfoldable pub validate_and_write :
    Settings → ℕ → String → List ℕ → Bool → Receiver → Storage → Result Receiver × Storage
unfolding validate
validate_and_write s free tmp bytes final u d =
    write_validated s free tmp bytes (validate bytes final u) d

-- `_open_tmp`, with the name that `mkstemp` made up, and the pledge of the whole cap.
unfoldable pub start_streaming : Settings → Format → Receiver → Receiver
start_streaming s fmt u = record u { fmt = some fmt; reserved = s.attachment_max_file_bytes }

unfoldable pub open_tmp : Settings → String → Storage → Storage
unfolding reserve_upload_budget
open_tmp s tmp d =
    reserve_upload_budget s.attachment_max_file_bytes (record d { files = insert tmp [] d.files })

-- What an exit does: an unfinished file is deleted, and what is still pledged is released.
unfoldable pub release_rest : Receiver → Storage → Storage
unfolding release_upload_budget
release_rest u d = if eqb u.reserved 0 then d else release_upload_budget u.reserved d

unfoldable pub abandon : String → Receiver → Storage → Storage
unfolding release_rest
abandon tmp u d = elim u.fmt [
  | none ↦ release_rest u d
  | some f ↦ release_rest u (record d { files = remove tmp d.files })
]

-- `except BaseException` and `finally`, around a step that began with the variables `u`.
unfoldable pub or_abandon :
    String → Receiver → Result Receiver × Storage → Result Receiver × Storage
unfolding abandon
or_abandon tmp u (ok v, d) = (ok v, d)
or_abandon tmp u (err e, d) = (err e, abandon tmp u d)

unfoldable pub write_or_abandon :
    Settings → ℕ → String → List ℕ → Bool → Receiver → Storage → Result Receiver × Storage
unfolding validate_and_write or_abandon
write_or_abandon s free tmp bytes final u d =
    or_abandon tmp u (validate_and_write s free tmp bytes final u d)

-- The format is chosen, and the first write is the whole prefix.
unfoldable pub commit_to :
    Settings → ℕ → String → Format → Bool → Receiver → Storage → Result Receiver × Storage
unfolding start_streaming open_tmp write_or_abandon
commit_to s free tmp fmt final u d =
    write_or_abandon s free tmp u.prefix final (start_streaming s fmt u) (open_tmp s tmp d)

unfoldable pub format_of : List ℕ → Format
format_of prefix = if starts_with pdf_magic prefix then pdf else md

unfoldable pub buffer_chunk :
    Settings → ℕ → String → List ℕ → Receiver → Storage → Result Receiver × Storage
unfolding commit_to format_of
buffer_chunk s free tmp prefix u d =
    if ltb (length prefix) (length pdf_magic)
    then (ok (record u { prefix = prefix }), d)
    else commit_to s free tmp (format_of prefix) false (record u { prefix = prefix }) d

-- The body of the loop over the stream, for one chunk.
unfoldable pub receive_chunk :
    Settings → ℕ → String → List ℕ → Receiver → Storage → Result Receiver × Storage
unfolding buffer_chunk
receive_chunk s free tmp [] u d = (ok u, d)
receive_chunk s free tmp (b ∷ bs) u d = elim u.fmt [
  | none ↦ buffer_chunk s free tmp (u.prefix ++ b ∷ bs) u d
  | some f ↦ write_or_abandon s free tmp (b ∷ bs) false u d
]

-- What follows the loop, to the writes that it makes.
unfoldable pub end_stream : Settings → ℕ → String → Receiver → Storage → Result Receiver × Storage
end_stream s free tmp u d = elim u.fmt [
  | none ↦
      if is_nil u.prefix
      then (raise 415 Code.attachment_invalid_type, d)
      else commit_to s free tmp md true u d
  | some pdf ↦ (ok u, d)
  | some md ↦ write_or_abandon s free tmp [] true u d
]

-- What `receive_attachment_upload` returns, beside the name of the temporary file.
pub record Upload : Type 0 where
  pub sha256_hex : String
  pub byte_size : ℕ
  pub fmt : Format

-- An upload ends with a file, with a rejection, or when the client disconnects.
pub data Exit : Type 0 where
  received : Upload → Exit
  rejected : ApiError → Exit
  disconnected : Exit

-- What the stream hands over next, with the free space on the volume at that moment.
pub data Arrival : Type 0 where
  chunk : ℕ → List ℕ → Arrival
  hang_up : Arrival

module _ (sha256 : List ℕ → String) (s : Settings) (tmp : String) where
  -- The release of the unused rest of the pledge, and the answer. After the end of the stream the
  -- format is known, so that the case `none` does not occur.
  unfoldable pub exit_with : Result Receiver × Storage → Exit × Storage
  unfolding release_rest
  exit_with (err e, d) = (rejected e, d)
  exit_with (ok u, d) = elim u.fmt [
    | none ↦ (rejected (record { status_code = 415; code = Code.attachment_invalid_type }), d)
    | some f ↦ (
      received (record { sha256_hex = sha256 u.hashed; byte_size = u.total; fmt = f }),
      release_rest u d,
    )
  ]

  -- The loop over the stream, and its end; `last` is the free space after the loop.
  unfoldable pub receive_from : ℕ → List Arrival → Result Receiver × Storage → Exit × Storage
  unfolding end_stream receive_chunk abandon
  receive_from last arrivals (err e, d) = (rejected e, d)
  receive_from last [] (ok u, d) = exit_with (end_stream s last tmp u d)
  receive_from last (hang_up ∷ arrivals) (ok u, d) = (disconnected, abandon tmp u d)
  receive_from last (chunk free bytes ∷ arrivals) (ok u, d) =
      receive_from last arrivals (receive_chunk s free tmp bytes u d)

  -- `receive_attachment_upload`, where no other request touches the storage.
  unfoldable pub receive_attachment_upload : ℕ → List Arrival → Storage → Exit × Storage
  receive_attachment_upload last arrivals d = receive_from last arrivals (ok new_receiver, d)
