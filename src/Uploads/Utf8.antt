-- ===== src/Uploads/Utf8.antt =====
-- The incremental UTF-8 decoder of Python's `codecs`, in strict mode, that app/attachments.py feeds
-- with the chunks of an upload. A byte and a code point are numbers.
use brainard.Prelude.{
  ℕ, zero, suc, ◌+◌, ◌-◌, ◌*◌, Bool, ◌&&◌, Option, none, some, List, [], ◌∷◌, ◌++◌, ltb, leb, eqb,
  if◌then◌else◌,
}

-- The continuation bytes still to come, the range of the next one, and the bits so far.
pub record Decoder : Type 0 where
  pub need : ℕ
  pub low : ℕ
  pub high : ℕ
  pub bits : ℕ

abbrev pub awaiting : ℕ → ℕ → ℕ → ℕ → Decoder
awaiting need low high bits = record { need = need; low = low; high = high; bits = bits }

abbrev pub fresh_decoder : Decoder
fresh_decoder = awaiting 0 0x80 0xbf 0

-- The first byte of a character: the character itself, or what has to follow.
unfoldable pub decode_lead : ℕ → Option (List ℕ × Decoder)
decode_lead b =
    if ltb b 0x80
    then some (b ∷ [], fresh_decoder)
    else if ltb b 0xc2
    then none
    else if ltb b 0xe0
    then some ([], awaiting 1 0x80 0xbf (b - 0xc0))
    else if eqb b 0xe0
    then some ([], awaiting 2 0xa0 0xbf 0)
    else if eqb b 0xed
    then some ([], awaiting 2 0x80 0x9f 0xd)
    else if ltb b 0xf0
    then some ([], awaiting 2 0x80 0xbf (b - 0xe0))
    else if eqb b 0xf0
    then some ([], awaiting 3 0x90 0xbf 0)
    else if ltb b 0xf4
    then some ([], awaiting 3 0x80 0xbf (b - 0xf0))
    else if eqb b 0xf4
    then some ([], awaiting 3 0x80 0x8f 4)
    else none

unfoldable pub decode_next : ℕ → ℕ → ℕ → Option (List ℕ × Decoder)
decode_next zero b bits = some ((bits * 64 + (b - 0x80)) ∷ [], fresh_decoder)
decode_next (suc need) b bits = some ([], awaiting (suc need) 0x80 0xbf (bits * 64 + (b - 0x80)))

unfoldable pub decode_byte : Decoder → ℕ → Option (List ℕ × Decoder)
unfolding decode_lead decode_next
decode_byte d b = elim d.need [
  | zero ↦ decode_lead b
  | suc need ↦ if leb d.low b && leb b d.high then decode_next need b d.bits else none
]

unfoldable pub prepend : List ℕ → Option (List ℕ × Decoder) → Option (List ℕ × Decoder)
prepend cs none = none
prepend cs (some (rest, d)) = some (cs ++ rest, d)

-- `decoder.decode(data, False)`: the characters that the bytes complete, or a UnicodeDecodeError.
unfoldable pub decode_chunk : Decoder → List ℕ → Option (List ℕ × Decoder)
unfolding decode_byte prepend
decode_chunk d [] = some ([], d)
decode_chunk d (b ∷ bs) = elim (decode_byte d b) [
  | none ↦ none
  | some (cs, e) ↦ prepend cs (decode_chunk e bs)
]

-- The end of the input inside a character is an error.
unfoldable pub end_of_input : Option (List ℕ × Decoder) → Option (List ℕ × Decoder)
end_of_input none = none
end_of_input (some (cs, d)) = if eqb d.need 0 then some (cs, d) else none

-- `decoder.decode(data, final)`
unfoldable pub decode : Decoder → List ℕ → Bool → Option (List ℕ × Decoder)
decode d bytes final = let text = decode_chunk d bytes in if final then end_of_input text else text
