-- ===== src/Examples/Strings.antt =====
-- `strip`, `decimal` and `join` on short texts.
use brainard.Prelude.{◌≡◌, refl, [], ◌∷◌}
use brainard.Prelude.Text.{strip}
use brainard.Prelude.Decimal.{decimal, join}

strip_spaces : strip "  a b \n" ≡ "a b"
unfolding strip
strip_spaces = refl

strip_blank : strip " \t " ≡ ""
unfolding strip
strip_blank = refl

decimal_digits : decimal 2048 ≡ "2048"
unfolding decimal
decimal_digits = refl

join_words : join ", " ("a" ∷ "b" ∷ "c" ∷ []) ≡ "a, b, c"
unfolding join
join_words = refl
