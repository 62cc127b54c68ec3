-- ===== src/Prelude/Text.antt =====
-- `str.strip`, over the characters that `str.isspace` accepts.
use Prim.Native.Char.{Char, code}
use brainard.Prelude.{ℕ, ◌+◌, ltb, String, Bool, true, false, ◌&&◌, ◌||◌, leb, if◌then◌else◌}

is_between : ℕ → ℕ → ℕ → Bool
is_between lo hi c = leb lo c && leb c hi

-- The code points that Python's `strip` removes.
pub is_space : ℕ → Bool
unfolding is_between
is_space c =
    is_between 9 13 c
    || is_between 28 32 c
    || is_between 0x85 0x85 c
    || is_between 0xa0 0xa0 c
    || is_between 0x1680 0x1680 c
    || is_between 0x2000 0x200a c
    || is_between 0x2028 0x2029 c
    || is_between 0x202f 0x202f c
    || is_between 0x205f 0x205f c
    || is_between 0x3000 0x3000 c

abbrev pub is_empty : String → Bool
is_empty String.[] = true
is_empty (String.◌∷◌ c s) = false

pub lstrip : String → String
lstrip String.[] = String.[]
lstrip (String.◌∷◌ c s) = let rest = lstrip s in if is_space (code c) then rest else String.◌∷◌ c s

drop_last : Char → String → String
drop_last c rest = if is_empty rest && is_space (code c) then String.[] else String.◌∷◌ c rest

pub rstrip : String → String
unfolding drop_last
rstrip String.[] = String.[]
rstrip (String.◌∷◌ c s) = drop_last c (rstrip s)

unfoldable pub strip : String → String
unfolding lstrip rstrip is_space
strip s = rstrip (lstrip s)

utf8_width : ℕ → ℕ
utf8_width c = if ltb c 0x80 then 1 else if ltb c 0x800 then 2 else if ltb c 0x10000 then 3 else 4

-- `len(s.encode("utf-8"))`
unfoldable pub utf8_length : String → ℕ
unfolding utf8_width
utf8_length String.[] = 0
utf8_length (String.◌∷◌ c s) = utf8_width (code c) + utf8_length s
