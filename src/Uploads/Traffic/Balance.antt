-- ===== src/Uploads/Traffic/Balance.antt =====
-- app/attachments.py: what one step of an upload does to the ledger `_reserved_bytes`.
use brainard.Prelude.{
  ℕ, ◌+◌, ◌≤◌, String, Bool, true, false, ◌≡◌, ◌⊎◌, refl, ◌∙◌, Option, none, some, List, [], ◌∷◌,
  ◌++◌, length, ltb, arith, Bool-cases, Option-cases, inl, inr, if◌then◌else◌, is_nil,
}
use brainard.Prelude.Table.{lookup}
use brainard.Errors.{Code, Result, ok, err, raise, OnOk}
use brainard.Uploads.Utf8.{Decoder, decode}
use brainard.Uploads.Underway.{release_rest-reserved}
use brainard.Uploads.{
  Settings, Exit, received, rejected, Format, pdf, md, pdf_magic, Receiver, Storage, receive_chunk,
  end_stream, exit_with, abandon, release_rest, release_upload_budget, reserve_upload_budget,
  commit_to, buffer_chunk, start_streaming, open_tmp, write_or_abandon, or_abandon,
  validate_and_write, write_validated, write_chunk, wrote, append_to, validate, check_text,
  format_of, lacks_headroom,
}

-- The own pledge of an upload is what it may still write; without a format it has none.
module _ (s : Settings) where
  abbrev pub HasFormat : Option Format → ℕ → ℕ → Type 0
  HasFormat none total reserved = (total ≡ 0) × (reserved ≡ 0)
  HasFormat (some f) total reserved = total + reserved ≡ s.attachment_max_file_bytes

  abbrev pub IsPledged : Receiver → Type 0
  IsPledged u = HasFormat u.fmt u.total u.reserved

  -- A step moves the ledger by as much as it moves the upload's own pledge, and writes only where
  -- the pledges of the others fit beside what it writes, over the floor.
  abbrev pub IsBalanced : ℕ → ℕ → ℕ → Result Receiver × Storage → Type 0
  IsBalanced free others total (ok u, e) =
      IsPledged u
      × (e.reserved_bytes ≡ others + u.reserved)
      × ((u.total ≡ total) ⊎ (s.attachment_free_disk_floor_bytes + u.total + others ≤ free + total))
  IsBalanced free others total (err x, e) = e.reserved_bytes ≡ others

  append_to-reserved :
      (tmp : String) (bytes : List ℕ) (e : Storage)
      → (append_to tmp bytes e).reserved_bytes ≡ e.reserved_bytes
  unfolding append_to
  append_to-reserved tmp bytes e = elim (Option-cases (lookup tmp e.files)) [
    | inl absent ↦ rw (absent, append_to) refl
    | inr (c, found) ↦ rw (found, append_to) refl
  ]

  pub abandon-reserved :
      (tmp : String) (others : ℕ) (u : Receiver) (e : Storage)
      → e.reserved_bytes ≡ others + u.reserved
      → (abandon tmp u e).reserved_bytes ≡ others
  unfolding abandon
  abandon-reserved tmp others u e h = elim (Option-cases u.fmt) [
    | inl unknown ↦ rw (unknown, release_rest-reserved) (ground (arith, h))
    | inr (f, known) ↦ rw (known, release_rest-reserved) (ground (arith, h))
  ]

  -- The decoder is all that a validation changes.
  abbrev IsSame : Receiver → Receiver → Type 0
  IsSame u v = (v.fmt ≡ u.fmt) × (v.total ≡ u.total) × (v.reserved ≡ u.reserved)

  check_text-IsSame :
      (u : Receiver) (t : Option (List ℕ × Decoder)) → OnOk (IsSame u) (check_text u t)
  unfolding check_text
  check_text-IsSame u none = tt
  check_text-IsSame u (some (text, w)) = ground (arith)

  validate-IsSame :
      (bytes : List ℕ) (final : Bool) (u : Receiver) → OnOk (IsSame u) (validate bytes final u)
  unfolding validate
  validate-IsSame bytes final u = choose u.fmt
    where
      choose :
          (o : Option Format)
          → OnOk
              (IsSame u)
              (elim o [ some md ↦ check_text u (decode u.decoder bytes final) | _ ↦ ok u ])
      choose none = (refl, refl, refl)
      choose (some pdf) = (refl, refl, refl)
      choose (some md) = check_text-IsSame u (decode u.decoder bytes final)

  write_chunk-IsBalanced :
      (free others : ℕ) (tmp : String) (bytes : List ℕ) (f : Format) (u v : Receiver) (e : Storage)
      → u.fmt ≡ some f
      → IsSame u v
      → u.total + u.reserved ≡ s.attachment_max_file_bytes
      → e.reserved_bytes ≡ others + u.reserved
      → IsBalanced free others u.total (or_abandon tmp u (write_chunk s free tmp bytes v e))
  unfolding write_chunk or_abandon wrote release_upload_budget lacks_headroom
  write_chunk-IsBalanced free others tmp bytes f u v e known same h k =
      elim (Bool-cases (ltb s.attachment_max_file_bytes (v.total + length bytes))) [
        | inl large ↦ rw large (abandon-reserved tmp others u e k)
        | inr small ↦ elim (Bool-cases (lacks_headroom s free (length bytes) v.reserved e)) [
          | inl full ↦ rw (small, full) (abandon-reserved tmp others u e k)
          | inr headroom ↦
              rw (small, headroom)
                (
                  rw (same.0 ∙ known) (ground (arith, same, h)),
                  ground (arith, append_to-reserved tmp bytes e, k, h, same),
                  inr (ground (arith, headroom, same, k)),
                )
        ]
      ]

  write_or_abandon-IsBalanced :
      (free others : ℕ) (tmp : String) (bytes : List ℕ) (final : Bool) (f : Format) (u : Receiver)
      (e : Storage)
      → u.fmt ≡ some f
      → u.total + u.reserved ≡ s.attachment_max_file_bytes
      → e.reserved_bytes ≡ others + u.reserved
      → IsBalanced free others u.total (write_or_abandon s free tmp bytes final u e)
  unfolding write_or_abandon validate_and_write write_validated or_abandon
  write_or_abandon-IsBalanced free others tmp bytes final f u e known h k =
      split (validate bytes final u) (validate-IsSame bytes final u)
    where
      split :
          (r : Result Receiver)
          → OnOk (IsSame u) r
          → IsBalanced free others u.total (or_abandon tmp u (write_validated s free tmp bytes r e))
      split (err x) same = abandon-reserved tmp others u e k
      split (ok v) same = write_chunk-IsBalanced free others tmp bytes f u v e known same h k

  commit_to-IsBalanced :
      (free others : ℕ) (tmp : String) (f : Format) (final : Bool) (u : Receiver) (e : Storage)
      → u.total ≡ 0
      → u.reserved ≡ 0
      → e.reserved_bytes ≡ others + u.reserved
      → IsBalanced free others u.total (commit_to s free tmp f final u e)
  unfolding commit_to start_streaming open_tmp reserve_upload_budget
  commit_to-IsBalanced free others tmp f final u e h k l =
      write_or_abandon-IsBalanced free others tmp u.prefix final f (start_streaming s f u)
        (open_tmp s tmp e) refl (ground (arith, h)) (ground (arith, l, k))

  buffer_chunk-IsBalanced :
      (free others : ℕ) (tmp : String) (prefix : List ℕ) (u : Receiver) (e : Storage)
      → u.fmt ≡ none
      → u.total ≡ 0
      → u.reserved ≡ 0
      → e.reserved_bytes ≡ others + u.reserved
      → IsBalanced free others u.total (buffer_chunk s free tmp prefix u e)
  unfolding buffer_chunk
  buffer_chunk-IsBalanced free others tmp prefix u e n h k l =
      elim (Bool-cases (ltb (length prefix) (length pdf_magic))) [
        | inl short ↦ rw short (rw n (h, k), l, inl refl)
        | inr long ↦ rw long (
            commit_to-IsBalanced free others tmp (format_of prefix) false
              (record u { prefix = prefix }) e h k l)
      ]

  pub receive_chunk-IsBalanced :
      (free others : ℕ) (tmp : String) (bytes : List ℕ) (u : Receiver) (e : Storage)
      → IsPledged u
      → e.reserved_bytes ≡ others + u.reserved
      → IsBalanced free others u.total (receive_chunk s free tmp bytes u e)
  unfolding receive_chunk
  receive_chunk-IsBalanced free others tmp [] u e h k = (h, k, inl refl)
  receive_chunk-IsBalanced free others tmp (b ∷ bs) u e h k = choose u.fmt refl h
    where
      choose :
          (o : Option Format)
          → u.fmt ≡ o
          → HasFormat o u.total u.reserved
          → IsBalanced free others u.total (elim o [
            | none ↦ buffer_chunk s free tmp (u.prefix ++ b ∷ bs) u e
            | some f ↦ write_or_abandon s free tmp (b ∷ bs) false u e
          ])
      choose none n q = buffer_chunk-IsBalanced free others tmp (u.prefix ++ b ∷ bs) u e n q.0 q.1 k
      choose (some f) n q = write_or_abandon-IsBalanced free others tmp (b ∷ bs) false f u e n q k

  pub end_stream-IsBalanced :
      (free others : ℕ) (tmp : String) (u : Receiver) (e : Storage)
      → IsPledged u
      → e.reserved_bytes ≡ others + u.reserved
      → IsBalanced free others u.total (end_stream s free tmp u e)
  unfolding end_stream
  end_stream-IsBalanced free others tmp u e h k = choose u.fmt refl h
    where
      choose :
          (o : Option Format)
          → u.fmt ≡ o
          → HasFormat o u.total u.reserved
          → IsBalanced free others u.total (elim o [
            | none ↦
                if is_nil u.prefix
                then (raise 415 Code.attachment_invalid_type, e)
                else commit_to s free tmp md true u e
            | some pdf ↦ (ok u, e)
            | some md ↦ write_or_abandon s free tmp [] true u e
          ])
      choose none n q = elim (Bool-cases (is_nil u.prefix)) [
        | inl empty ↦ rw empty (ground (arith, k, q))
        | inr some_bytes ↦
            rw some_bytes (commit_to-IsBalanced free others tmp md true u e q.0 q.1 k)
      ]
      choose (some pdf) n q = (h, k, inl refl)
      choose (some md) n q = write_or_abandon-IsBalanced free others tmp [] true md u e n q k

  pub exit_with-reserved :
      (sha256 : List ℕ → String) (tmp : String) (free others total : ℕ)
      (r : Result Receiver × Storage)
      → IsBalanced free others total r
      → (exit_with sha256 s tmp r).1.reserved_bytes ≡ others
  unfolding exit_with
  exit_with-reserved sha256 tmp free others total (err x, e) h = h
  exit_with-reserved sha256 tmp free others total (ok u, e) (h, k, l) = choose u.fmt h
    where
      choose :
          (o : Option Format)
          → HasFormat o u.total u.reserved
          → let after = elim o as (λ x. Exit × Storage) [
            | none ↦
                (rejected (record { status_code = 415; code = Code.attachment_invalid_type }), e)
            | some f ↦ (
              received (record { sha256_hex = sha256 u.hashed; byte_size = u.total; fmt = f }),
              release_rest u e,
            )
          ] in
            after.1.reserved_bytes ≡ others
      choose none q = ground (arith, k, q)
      choose (some f) q = rw (release_rest-reserved u e) (ground (arith, k))
