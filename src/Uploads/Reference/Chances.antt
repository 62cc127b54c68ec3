-- ===== src/Uploads/Reference/Chances.antt =====
-- app/attachments.py: which prefixes of a content decide that it is refused.
use brainard.Prelude.{
  ℕ, ◌<◌, ◌≤◌, true, false, ◌≡◌, refl, ap, ◌∙◌, inl, inr, Option, none, some, List, [], ◌∷◌, ◌++◌,
  length, is_some, is_none, Bool-cases, arith,
}
use brainard.Uploads.Utf8.{Decoder, fresh_decoder, decode, decode_chunk, end_of_input}
use brainard.Uploads.{
  Settings, Format, pdf, md, pdf_magic, starts_with, format_of, first_disallowed_control_char,
}
use brainard.Uploads.Reference.{is_text, is_acceptable}
use brainard.Uploads.Reference.Scanning.{passed, scan, scan_on, scan-append, verdict}

-- The signature of a content is settled by its first bytes.
starts_with-append :
    (m c rest : List ℕ) → length m ≤ length c → starts_with m (c ++ rest) ≡ starts_with m c
unfolding starts_with
starts_with-append [] c rest h = refl
starts_with-append (b ∷ bs) [] rest h = elim h [ ]
starts_with-append (b ∷ bs) (x ∷ xs) rest h =
    rw (starts_with-append bs xs rest (ground (arith, h))) refl

starts_with-short : (m c : List ℕ) → length c < length m → starts_with m c ≡ false
unfolding starts_with
starts_with-short [] c h = elim h [ ]
starts_with-short (b ∷ bs) [] h = refl
starts_with-short (b ∷ bs) (x ∷ xs) h = ground (arith, starts_with-short bs xs)

pub format_of-append :
    (c rest : List ℕ) → length pdf_magic ≤ length c → format_of (c ++ rest) ≡ format_of c
unfolding format_of
format_of-append c rest h = rw (starts_with-append pdf_magic c rest h) refl

pub format_of-short : (c : List ℕ) → length c < length pdf_magic → format_of c ≡ md
unfolding format_of
format_of-short c h = rw (starts_with-short pdf_magic c h) refl

pub is_text-scan : (c : List ℕ) → is_text c ≡ is_some (verdict true (scan fresh_decoder c))
unfolding is_text decode end_of_input
is_text-scan c = split (decode_chunk fresh_decoder c)
  where
    split :
        (r : Option (List ℕ × Decoder))
        → elim (end_of_input r) [
          | none ↦ false
          | some (text, d) ↦ is_none (first_disallowed_control_char text)
        ]
          ≡ is_some (verdict true (passed r))
    split none = refl
    split (some (text, d)) = ground arith

md-starts_with : (c : List ℕ) → format_of c ≡ md → starts_with pdf_magic c ≡ false
unfolding format_of
md-starts_with c h = elim (Bool-cases (starts_with pdf_magic c)) [
  | inl signed ↦ cc
  | inr unsigned ↦ unsigned
]

pdf-starts_with : (c : List ℕ) → format_of c ≡ pdf → starts_with pdf_magic c ≡ true
unfolding format_of
pdf-starts_with c h = elim (Bool-cases (starts_with pdf_magic c)) [
  | inl signed ↦ signed
  | inr unsigned ↦ cc
]

-- A prefix that is no text is the prefix of no text.
pub scan-none :
    (c rest : List ℕ)
    → scan fresh_decoder c ≡ none
    → verdict true (scan fresh_decoder (c ++ rest)) ≡ none
scan-none c rest h =
    ap (verdict true) (scan-append c rest fresh_decoder ∙ ap (λ o. scan_on o rest) h)

module _ (s : Settings) where
  pub is_acceptable-large :
      (c : List ℕ) → s.attachment_max_file_bytes < length c → is_acceptable s c ≡ false
  unfolding is_acceptable
  is_acceptable-large c h = ground (arith, h)

  pub is_acceptable-empty : is_acceptable s [] ≡ false
  unfolding is_acceptable starts_with
  is_acceptable-empty = ground arith

  pub is_acceptable-garbled :
      (c : List ℕ)
      → format_of c ≡ md
      → verdict true (scan fresh_decoder c) ≡ none
      → is_acceptable s c ≡ false
  unfolding is_acceptable
  is_acceptable-garbled c h k = ground (arith, md-starts_with c h, is_text-scan c ∙ ap is_some k)

  pub is_acceptable-true :
      (f : Format) (c : List ℕ)
      → format_of c ≡ f
      → 1 ≤ length c
      → length c ≤ s.attachment_max_file_bytes
      → (f ≡ md → is_some (verdict true (scan fresh_decoder c)) ≡ true)
      → is_acceptable s c ≡ true
  unfolding is_acceptable
  is_acceptable-true pdf c h n l t = ground (arith, pdf-starts_with c h)
  is_acceptable-true md [] h n l t = elim n [ ]
  is_acceptable-true md (x ∷ xs) h n l t =
      ground (arith, md-starts_with (x ∷ xs) h, is_text-scan (x ∷ xs) ∙ t refl)
