-- ===== src/Prelude/Table.antt =====
-- A database table as an association list, keyed by the primary key.
pub mod Sums
use mathlib.Core.Option.{some-injective}
use brainard.Prelude.{
  String, Bool, true, false, sym, ap, Option, none, some, List, [], ◌∷◌, ◌≡◌, refl, ◌==◌, eq_iff,
  arith, if◌then◌else◌,
}

abbrev pub Table {ℓ} : Type ℓ → Type ℓ
Table V = List (String × V)

module _ {ℓ} {V : Type ℓ} where
  -- `db.get(Model, key)`
  unfoldable pub lookup : String → Table V → Option V
  lookup k [] = none
  lookup k ((j, v) ∷ t) = if j == k then some v else lookup k t

  -- A row written back, or added at the end.
  unfoldable pub insert : String → V → Table V → Table V
  insert k v [] = (k, v) ∷ []
  insert k v ((j, w) ∷ t) = if j == k then (j, v) ∷ t else (j, w) ∷ insert k v t

  -- `DELETE … WHERE id = key`
  unfoldable pub remove : String → Table V → Table V
  remove k [] = []
  remove k ((j, v) ∷ t) = let rest = remove k t in if j == k then rest else (j, v) ∷ rest

  pub lookup-insert :
      (k j : String) (v : V) (t : Table V)
      → lookup j (insert k v t) ≡ (if k == j then some v else lookup j t)
  unfolding lookup insert
  lookup-insert k j v [] = refl
  lookup-insert k j v ((i, w) ∷ t) =
      ground (arith, eq_iff k j, eq_iff i k, eq_iff i j, lookup-insert k j v t)

  pub lookup-remove :
      (k j : String) (t : Table V) → lookup j (remove k t) ≡ (if k == j then none else lookup j t)
  unfolding lookup remove
  lookup-remove k j [] = ground arith
  lookup-remove k j ((i, v) ∷ t) =
      ground (arith, lookup-remove k j t, eq_iff i k, eq_iff i j, eq_iff k j)

  -- A row written back unchanged leaves the table as it is.
  pub insert-same : (k : String) (v : V) (t : Table V) → lookup k t ≡ some v → insert k v t ≡ t
  unfolding lookup insert
  insert-same k v [] e = cc
  insert-same k v ((j, w) ∷ t) e = first (j == k) e (insert-same k v t)
    where
      first :
          (b : Bool)
          → (if b then some w else lookup k t) ≡ some v
          → (lookup k t ≡ some v → insert k v t ≡ t)
          → (if b then (j, v) ∷ t else (j, w) ∷ insert k v t) ≡ (j, w) ∷ t
      first true found rest = ap (λ x. (j, x) ∷ t) (sym (some-injective w v found))
      first false found rest = ap (λ u. (j, w) ∷ u) (rest found)
