-- ===== src/Prelude/Table/Sums.antt =====
-- Tables whose keys are unique, and the sum of a quantity over the rows of one.
use brainard.Prelude.{
  ℕ, ◌+◌, String, ◌≡◌, refl, none, some, [], ◌∷◌, ◌==◌, eq_iff, arith, Bool-cases, inl, inr,
}
use brainard.Prelude.Table.{Table, lookup, insert, remove, lookup-insert, lookup-remove}

module _ {ℓ} {V : Type ℓ} where
  -- No key stands twice.
  abbrev pub IsKeyed : Table V → Type ℓ
  IsKeyed [] = Unit
  IsKeyed ((k, v) ∷ t) = (lookup k t ≡ none) × IsKeyed t

  pub IsKeyed-insert : (k : String) (v : V) (t : Table V) → IsKeyed t → IsKeyed (insert k v t)
  unfolding lookup insert
  IsKeyed-insert k v [] h = (refl, tt)
  IsKeyed-insert k v ((j, w) ∷ t) h = elim (Bool-cases (j == k)) [
    | inl same ↦ rw same h
    | inr other ↦ rw other (
      rw (lookup-insert k j v t) (ground (arith, eq_iff k j, eq_iff j k, h.0)),
      IsKeyed-insert k v t h.1,
    )
  ]

  pub IsKeyed-remove : (k : String) (t : Table V) → IsKeyed t → IsKeyed (remove k t)
  unfolding remove
  IsKeyed-remove k [] h = tt
  IsKeyed-remove k ((j, w) ∷ t) h = elim (Bool-cases (j == k)) [
    | inl same ↦ rw same (IsKeyed-remove k t h.1)
    | inr other ↦ rw other (rw (lookup-remove k j t) (ground (arith, h.0)), IsKeyed-remove k t h.1)
  ]

  -- A key that does not stand is not removed.
  pub remove-none : (k : String) (t : Table V) → lookup k t ≡ none → remove k t ≡ t
  unfolding lookup remove
  remove-none k [] h = refl
  remove-none k ((j, w) ∷ t) h = ground (arith, remove-none k t)

  module _ (f : V → ℕ) where
    abbrev pub sum_of : Table V → ℕ
    sum_of [] = 0
    sum_of ((k, v) ∷ t) = f v + sum_of t

    pub sum_of-insert-none :
        (k : String) (v : V) (t : Table V)
        → lookup k t ≡ none
        → sum_of (insert k v t) ≡ f v + sum_of t
    unfolding lookup insert
    sum_of-insert-none k v [] h = refl
    sum_of-insert-none k v ((j, w) ∷ t) h = ground (arith, sum_of-insert-none k v t)

    pub sum_of-insert-some :
        (k : String) (v old : V) (t : Table V)
        → lookup k t ≡ some old
        → sum_of (insert k v t) + f old ≡ sum_of t + f v
    unfolding lookup insert
    sum_of-insert-some k v old [] h = cc
    sum_of-insert-some k v old ((j, w) ∷ t) h = ground (arith, sum_of-insert-some k v old t, h)

    pub sum_of-remove :
        (k : String) (v : V) (t : Table V)
        → IsKeyed t
        → lookup k t ≡ some v
        → sum_of t ≡ f v + sum_of (remove k t)
    unfolding lookup remove
    sum_of-remove k v [] h found = cc
    sum_of-remove k v ((j, w) ∷ t) h found =
        ground (arith, eq_iff j k, remove-none k t, sum_of-remove k v t, h.0, h.1, found)
