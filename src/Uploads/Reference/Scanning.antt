-- ===== src/Uploads/Reference/Scanning.antt =====
-- app/attachments.py: the decoder and the control-character scan, run over chunks.
use brainard.Prelude.{
  ℕ, Bool, true, false, ◌||◌, ◌≡◌, refl, Option, none, some, List, [], ◌∷◌, ◌++◌, is_some,
  if◌then◌else◌, arith, eqb,
}
use brainard.Errors.{Code, Result, ok, raise}
use brainard.Uploads.Utf8.{Decoder, decode_byte, decode_chunk, prepend, end_of_input, decode}
use brainard.Uploads.{Receiver, first_disallowed_control_char, check_text}

abbrev pub has_disallowed : List ℕ → Bool
has_disallowed text = is_some (first_disallowed_control_char text)

-- The decoder after a text that passes the scan.
abbrev pub passed : Option (List ℕ × Decoder) → Option Decoder
passed none = none
passed (some (text, d)) = if has_disallowed text then none else some d

-- The decoder after a chunk, if its bytes and its characters are fine.
abbrev pub scan : Decoder → List ℕ → Option Decoder
scan d bytes = passed (decode_chunk d bytes)

abbrev pub scan_on : Option Decoder → List ℕ → Option Decoder
scan_on none bytes = none
scan_on (some d) bytes = scan d bytes

has_disallowed-append :
    (cs ds : List ℕ) → has_disallowed (cs ++ ds) ≡ (has_disallowed cs || has_disallowed ds)
unfolding first_disallowed_control_char
has_disallowed-append [] ds = refl
has_disallowed-append (c ∷ cs) ds = ground (arith, has_disallowed-append cs ds)

passed-prepend :
    (cs : List ℕ) (r : Option (List ℕ × Decoder))
    → passed (prepend cs r) ≡ (if has_disallowed cs then none else passed r)
unfolding prepend
passed-prepend cs none = ground arith
passed-prepend cs (some (ds, d)) = ground (arith, has_disallowed-append cs ds)

step_on : Option (List ℕ × Decoder) → List ℕ → Option Decoder
step_on none bytes = none
step_on (some (cs, e)) bytes = if has_disallowed cs then none else scan e bytes

scan-step : (d : Decoder) (b : ℕ) (bs : List ℕ) → scan d (b ∷ bs) ≡ step_on (decode_byte d b) bs
unfolding step_on decode_chunk
scan-step d b bs = split (decode_byte d b)
  where
    split :
        (r : Option (List ℕ × Decoder))
        → passed (elim r [ none ↦ none | some (cs, e) ↦ prepend cs (decode_chunk e bs) ])
          ≡ step_on r bs
    split none = refl
    split (some (cs, e)) = passed-prepend cs (decode_chunk e bs)

step_on-append :
    (r : Option (List ℕ × Decoder)) (xs ys : List ℕ)
    → ((e : Decoder) → scan e (xs ++ ys) ≡ scan_on (scan e xs) ys)
    → step_on r (xs ++ ys) ≡ scan_on (step_on r xs) ys
unfolding step_on
step_on-append none xs ys h = refl
step_on-append (some (cs, e)) xs ys h = choose (has_disallowed cs)
  where
    choose :
        (b : Bool)
        → (if b then none else scan e (xs ++ ys)) ≡ scan_on (if b then none else scan e xs) ys
    choose true = refl
    choose false = h e

-- The chunks do not matter: the scan of two is that of their concatenation.
pub scan-append : (xs ys : List ℕ) (d : Decoder) → scan d (xs ++ ys) ≡ scan_on (scan d xs) ys
unfolding first_disallowed_control_char decode_chunk
scan-append [] ys d = refl
scan-append (x ∷ xs) ys d =
    rw (scan-step d x (xs ++ ys), scan-step d x xs)
      (step_on-append (decode_byte d x) xs ys (scan-append xs ys))

-- At the end of the input no character may be open.
abbrev pub verdict : Bool → Option Decoder → Option Decoder
verdict final none = none
verdict false (some d) = some d
verdict true (some d) = if eqb d.need 0 then some d else none

abbrev pub decided : Receiver → Option Decoder → Result Receiver
decided u none = raise 415 Code.attachment_invalid_type
decided u (some d) = ok (record u { decoder = d })

pub check_text-decode :
    (u : Receiver) (bytes : List ℕ) (final : Bool)
    → check_text u (decode u.decoder bytes final) ≡ decided u (verdict final (scan u.decoder bytes))
unfolding check_text decode end_of_input
check_text-decode u bytes true = split (decode_chunk u.decoder bytes)
  where
    split :
        (r : Option (List ℕ × Decoder))
        → check_text u (end_of_input r) ≡ decided u (verdict true (passed r))
    split none = refl
    split (some (text, d)) = ground arith
check_text-decode u bytes false = split (decode_chunk u.decoder bytes)
  where
    split : (r : Option (List ℕ × Decoder)) → check_text u r ≡ decided u (verdict false (passed r))
    split none = refl
    split (some (text, d)) = ground arith
