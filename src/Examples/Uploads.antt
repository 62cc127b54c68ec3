-- ===== src/Examples/Uploads.antt =====
-- Uploads in chunks. The digest tells the text "a" from every other content.
use brainard.Prelude.{
  ℕ, String, Bool, true, false, ◌≡◌, refl, ap, some, List, [], ◌∷◌, ◌++◌, eqb, if◌then◌else◌, arith,
  ◌+◌, ◌≤◌,
}
use brainard.Prelude.Table.{lookup, insert, remove}
use brainard.Uploads.{
  Settings, Storage, Arrival, chunk, md, Receiver, new_receiver, receive_attachment_upload,
  receive_chunk, write_validated, starts_with, check_text, first_disallowed_control_char,
  is_disallowed, lacks_headroom, wrote, write_chunk, append_to, write_or_abandon,
  validate_and_write, validate, or_abandon, release_upload_budget, reserve_upload_budget, commit_to,
  start_streaming, open_tmp, format_of, buffer_chunk,
}
use brainard.Uploads.Reference.{expected_upload, upload_in, content_of}
use brainard.Uploads.Exits.{IsSettled}
use brainard.Uploads.Whole.{receive_attachment_upload-IsSettled, receive_attachment_upload-expected}
use brainard.Uploads.Traffic.{Traffic, Move, begin, send, quit, moves, settle, step_of, move}
use brainard.Uploads.Utf8.{decode, decode_chunk, decode_byte, decode_lead, decode_next, prepend}
use brainard.Uploads.Traffic.Pledges.{IsBooked, pledges, moves-IsBooked, receive_chunk-headroom}

unfoldable pub is_a : List ℕ → Bool
is_a [] = false
is_a (b ∷ []) = eqb b 0x61
is_a (b ∷ c ∷ bs) = false

unfoldable pub digest : List ℕ → String
unfolding is_a
digest content = if is_a content then "ha" else "other"

told_apart : (t : Bool) → ◌≡◌ {A = String} (if t then "ha" else "other") "ha" → t ≡ true
told_apart true e = refl
told_apart false e = cc

pub digest-a : (other : List ℕ) → digest other ≡ digest (0x61 ∷ []) → other ≡ 0x61 ∷ []
unfolding digest is_a
digest-a [] e = cc
digest-a (b ∷ []) e = ap (λ x. x ∷ []) (ground (arith, told_apart (eqb b 0x61) e))
digest-a (b ∷ c ∷ bs) e = cc

abbrev pub limits : Settings
limits = record {
  attachment_max_file_bytes = 8;
  attachment_max_files_per_room = 3;
  attachment_global_ceiling_bytes = 30;
  attachment_free_disk_floor_bytes = 10;
  attachment_grace_period_days = 7;
}

abbrev pub idle : Storage
idle = record { files = []; reserved_bytes = 0 }

-- The two bytes of "ä" come in different chunks.
abbrev umlaut : List Arrival
umlaut = chunk 100 (0x61 ∷ 0xc3 ∷ []) ∷ chunk 100 [] ∷ chunk 90 (0xa4 ∷ []) ∷ []

receive_attachment_upload-IsSettled_example :
    IsSettled digest limits "t" idle
      (content_of umlaut)
      (receive_attachment_upload digest limits "t" 90 umlaut idle)
unfolding lookup
receive_attachment_upload-IsSettled_example =
    receive_attachment_upload-IsSettled digest limits "t" idle refl 90 umlaut

receive_attachment_upload-expected_example :
    upload_in (receive_attachment_upload digest limits "t" 90 umlaut idle).0
    ≡ expected_upload digest limits (content_of umlaut)
unfolding lookup
receive_attachment_upload-expected_example =
    receive_attachment_upload-expected digest limits "t" idle refl 90 umlaut
      (ground arith, (ground arith, (ground arith, ground arith))) refl

-- Two uploads in flight, of which one hangs up.
abbrev quiet : Traffic
quiet = record { storage = idle; receivers = [] }

quiet-IsBooked : IsBooked limits quiet
unfolding lookup
quiet-IsBooked = record { keyed = tt; pledged = λ tmp u e. cc; ledger = refl }

abbrev steps : List Move
steps =
    begin "t"
    ∷ begin "u"
    ∷ send "t" 100 (0x61 ∷ 0x62 ∷ 0x63 ∷ 0x64 ∷ 0x65 ∷ [])
    ∷ send "u" 100 (0x25 ∷ 0x50 ∷ 0x44 ∷ 0x46 ∷ 0x2d ∷ 0x2e ∷ [])
    ∷ quit "t"
    ∷ []

moves-IsBooked_example : IsBooked limits (moves digest limits steps quiet)
moves-IsBooked_example = moves-IsBooked limits digest steps quiet quiet-IsBooked

abbrev first_bytes : List ℕ
first_bytes = 0x61 ∷ 0x62 ∷ 0x63 ∷ 0x64 ∷ 0x65 ∷ []

abbrev flow : List Move
flow =
    begin "t"
    ∷ begin "u"
    ∷ send "t" 100 first_bytes
    ∷ send "u" 100 (0x25 ∷ 0x50 ∷ 0x44 ∷ 0x46 ∷ 0x2d ∷ [])
    ∷ []

abbrev flowing : Traffic
flowing = moves digest limits flow quiet

abbrev writing : ℕ → ℕ → List ℕ → Receiver
writing total reserved hashed = record new_receiver {
  prefix = first_bytes;
  fmt = some md;
  hashed = hashed;
  total = total;
  reserved = reserved;
}

abbrev after : Storage
after = record {
  files = ("t", first_bytes ++ 0x66 ∷ []) ∷ ("u", 0x25 ∷ 0x50 ∷ 0x44 ∷ 0x46 ∷ 0x2d ∷ []) ∷ [];
  reserved_bytes = 5;
}

receive_chunk-headroom_example : 10 + 6 + pledges (remove "t" flowing.receivers) ≤ 50 + 5
unfolding moves receive_chunk lookup insert remove write_validated starts_with check_text decode
    decode_chunk first_disallowed_control_char is_disallowed lacks_headroom wrote settle step_of
    move write_chunk append_to write_or_abandon validate_and_write validate or_abandon
    release_upload_budget reserve_upload_budget commit_to start_streaming open_tmp format_of
    buffer_chunk decode_byte decode_lead decode_next prepend
receive_chunk-headroom_example =
    receive_chunk-headroom limits flowing "t" (writing 5 3 first_bytes)
      (writing 6 2 (first_bytes ++ 0x66 ∷ [])) 50 (0x66 ∷ []) after
      (moves-IsBooked limits digest flow quiet quiet-IsBooked) refl refl (ground arith)
