-- ===== src/Prelude/Decimal.antt =====
-- `str(n)` of a number, and joining texts.
use brainard.Prelude.{
  ℕ, zero, suc, ◌/◌, ◌%◌, ◌<◌, ◌≡◌, String, List, [], ◌∷◌, ltb, eqb, if◌then◌else◌, arith,
  Bool-cases, inl, inr,
}
use Prim.Native.String.{◌++◌}

digit : ℕ → String
digit d =
    if eqb d 0
    then "0"
    else if eqb d 1
    then "1"
    else if eqb d 2
    then "2"
    else if eqb d 3
    then "3"
    else if eqb d 4
    then "4"
    else if eqb d 5
    then "5"
    else if eqb d 6
    then "6"
    else if eqb d 7
    then "7"
    else if eqb d 8
    then "8"
    else "9"

-- The digits of `n` in front of a text; `n + 1` rounds are enough.
decimal_from : ℕ → ℕ → String → String
decimal_from zero n rest = rest
decimal_from (suc f) n rest =
    let more = decimal_from f (n / 10) (digit (n % 10) ++ rest) in
    if ltb n 10 then digit n ++ rest else more

unfoldable pub decimal : ℕ → String
unfolding decimal_from digit
decimal n = decimal_from (suc n) n ""

-- `" ".join(parts)`, with the separator as an argument.
unfoldable pub join : String → List String → String
join sep [] = ""
join sep (s ∷ []) = s
join sep (s ∷ t ∷ ss) = s ++ (sep ++ join sep (t ∷ ss))

-- Any fuel above the number gives the same text: the rounds never run out.
decimal_from-fuel :
    (f g n : ℕ) (rest : String) → n < f → n < g → decimal_from f n rest ≡ decimal_from g n rest
unfolding decimal_from
decimal_from-fuel zero g n rest hf hg = elim hf [ ]
decimal_from-fuel (suc f) zero n rest hf hg = elim hg [ ]
decimal_from-fuel (suc f) (suc g) n rest hf hg = elim (Bool-cases (ltb n 10)) [
  | inl small ↦ rw small
  | inr large ↦
      rw large
        (decimal_from-fuel f g (n / 10) (digit (n % 10) ++ rest) (ground arith) (ground arith))
]
