-- ===== src/Uploads/Loop.antt =====
-- app/attachments.py: one round of the loop over the stream of an upload.
use mathlib.Core.Path.{subst}
use mathlib.Core.List.{append-nil}
use brainard.Prelude.{
  ℕ, ◌<◌, ◌≤◌, String, false, ◌≡◌, refl, sym, ap, inl, inr, none, some, List, [], ◌∷◌, ◌++◌, length,
  length-append, ltb, arith, Bool-cases, ==-self, ==-ne,
}
use brainard.Prelude.Table.{lookup-insert}
use brainard.Errors.{Result, ok, err}
use brainard.Uploads.Utf8.{decode_chunk}
use brainard.Uploads.{
  Settings, Format, pdf_magic, Receiver, new_receiver, Storage, format_of, commit_to,
  start_streaming, open_tmp, reserve_upload_budget, buffer_chunk, receive_chunk, write_or_abandon,
  first_disallowed_control_char,
}
use brainard.Uploads.Underway.{
  IsStreaming, IsRestored, IsHopeless, IsRoomy, IsWritten, write_or_abandon-IsWritten,
}
use brainard.Uploads.Reference.Chances.{format_of-append}

module _ (s : Settings) (tmp : String) (d : Storage) where
  -- Too few bytes to choose a format, or a file in the making.
  pub data Underway (c : List ℕ) (u : Receiver) (e : Storage) : Type 0 where
    waiting :
        u ≡ record new_receiver { prefix = c }
        → length c < length pdf_magic
        → e ≡ d
        → Underway c u e
    streaming :
        length pdf_magic ≤ length c → IsStreaming s tmp d (format_of c) c u e → Underway c u e

  unfoldable pub IsNext : ℕ → List ℕ → Result Receiver × Storage → Type 0
  IsNext free c (ok u, e) = Underway c u e
  IsNext free c (err x, e) =
      IsRestored s tmp d e
      × (IsRoomy s tmp d free
          → (length pdf_magic ≤ length c) × IsHopeless s tmp d false (format_of c) c)

  pub open_tmp-IsStreaming :
      (f : Format) (c : List ℕ)
      → IsStreaming s tmp d f []
          (start_streaming s f (record new_receiver { prefix = c }))
          (open_tmp s tmp d)
  unfolding start_streaming open_tmp reserve_upload_budget decode_chunk
      first_disallowed_control_char
  open_tmp-IsStreaming f c = record {
    chosen = refl;
    hashed = refl;
    total = refl;
    pledge = omega arith;
    decoded = λ m. refl;
    pledged = refl;
    stored = rw (lookup-insert tmp tmp [] d.files, ==-self tmp) refl;
    others = λ j n. rw (lookup-insert tmp j [] d.files, ==-ne tmp j n) refl;
  }

  written-IsNext :
      (free : ℕ) (f : Format) (c : List ℕ) (r : Result Receiver × Storage)
      → format_of c ≡ f
      → length pdf_magic ≤ length c
      → IsWritten s tmp d free false f c r
      → IsNext free c r
  unfolding IsNext
  written-IsNext free f c (ok u, e) h n (p, q) =
      streaming n (subst (λ g. IsStreaming s tmp d g c u e) (sym h) p)
  written-IsNext free f c (err x, e) h n (p, q) =
      (p, λ room. (n, subst (λ g. IsHopeless s tmp d false g c) (sym h) (q room)))

  commit_to-IsNext :
      (free : ℕ) (c : List ℕ)
      → length pdf_magic ≤ length c
      → IsNext free c
          (commit_to s free tmp (format_of c) false (record new_receiver { prefix = c }) d)
  unfolding commit_to
  commit_to-IsNext free c n =
      written-IsNext free (format_of c) c
        (commit_to s free tmp (format_of c) false (record new_receiver { prefix = c }) d) refl n
        (write_or_abandon-IsWritten s tmp d free false (format_of c) [] c
          (start_streaming s (format_of c) (record new_receiver { prefix = c })) (open_tmp s tmp d)
          (open_tmp-IsStreaming (format_of c) c))

  buffer_chunk-IsNext :
      (free : ℕ) (seen c : List ℕ)
      → IsNext free c (buffer_chunk s free tmp c (record new_receiver { prefix = seen }) d)
  unfolding IsNext buffer_chunk
  buffer_chunk-IsNext free seen c = elim (Bool-cases (ltb (length c) (length pdf_magic))) [
    | inl short ↦ rw short (waiting refl (ground arith) refl)
    | inr long ↦ rw long (commit_to-IsNext free c (ground arith))
  ]

  receive_chunk-known :
      (free b : ℕ) (bs : List ℕ) (f : Format) (u : Receiver) (e : Storage)
      → u.fmt ≡ some f
      → receive_chunk s free tmp (b ∷ bs) u e ≡ write_or_abandon s free tmp (b ∷ bs) false u e
  unfolding receive_chunk
  receive_chunk-known free b bs f u e h =
      ap
        (λ o. elim o [
          | none ↦ buffer_chunk s free tmp (u.prefix ++ b ∷ bs) u e
          | some g ↦ write_or_abandon s free tmp (b ∷ bs) false u e
        ])
        h

  pub receive_chunk-IsNext :
      (free : ℕ) (c bytes : List ℕ) (u : Receiver) (e : Storage)
      → Underway c u e
      → IsNext free (c ++ bytes) (receive_chunk s free tmp bytes u e)
  unfolding receive_chunk IsNext
  receive_chunk-IsNext free c [] u e h = subst (λ x. Underway x u e) (sym (append-nil c)) h
  receive_chunk-IsNext free c (b ∷ bs) u e (waiting v n at) =
      rw (v, at) (buffer_chunk-IsNext free c (c ++ b ∷ bs))
  receive_chunk-IsNext free c (b ∷ bs) u e (streaming n h) =
      rw (receive_chunk-known free b bs (format_of c) u e h.chosen) (
        written-IsNext free (format_of c) (c ++ b ∷ bs)
          (write_or_abandon s free tmp (b ∷ bs) false u e) (format_of-append c (b ∷ bs) n)
          (ground (arith, n, length-append c (b ∷ bs)))
          (write_or_abandon-IsWritten s tmp d free false (format_of c) c (b ∷ bs) u e h))
