-- ===== src/Machines/Registry.antt =====
-- app/machines.py: the two unique columns of the registry, its id and its token's hash.
use mathlib.Core.Path.{subst}
use mathlib.Core.Option.{some-injective}
use brainard.Prelude.{
  String, false, ◌≡◌, refl, sym, ap, ◌∙◌, none, some, [], ◌∷◌, ◌==◌, eq_iff, arith, Bool-cases, inl,
  inr, ==-ne, if-true, if-false,
}
use brainard.Prelude.Table.{Table, lookup, insert, lookup-insert}
use brainard.Model.{Machine}
use brainard.Machines.{find_by_hash}

-- No two rows share an id or a token's hash.
abbrev pub IsRegistry : Table Machine → Type 0
IsRegistry [] = Unit
IsRegistry ((id, m) ∷ t) =
    (lookup id t ≡ none) × (find_by_hash m.token_hash t ≡ none) × IsRegistry t

-- The hash of a stored machine finds that machine.
pub find_by_hash-lookup :
    (t : Table Machine) (id : String) (m : Machine)
    → IsRegistry t
    → lookup id t ≡ some m
    → find_by_hash m.token_hash t ≡ some (id, m)
unfolding lookup find_by_hash
find_by_hash-lookup [] id m r e = cc
find_by_hash-lookup ((k, v) ∷ t) id m r e = elim (Bool-cases (k == id)) [
  | inl same ↦
      let p : v ≡ m = some-injective v m (sym (if-true _ _ _ same) ∙ e) in
      let q : (k, v) ≡ (id, m) = rw ((eq_iff k id).0 same) (ap (λ x. (id, x)) p) in
      if-true _ _ _ ((eq_iff v.token_hash m.token_hash).1 (ap (λ (x : Machine). x.token_hash) p))
      ∙ ap (λ x. some x) q
  | inr other ↦
      let found = find_by_hash-lookup t id m r.2 (sym (if-false _ _ _ other) ∙ e) in
      if-false _ _ _ (
        ==-ne v.token_hash m.token_hash
          (λ p. ground (arith, sym r.1 ∙ ap (λ h. find_by_hash h t) p ∙ found)))
      ∙ found
]

-- The machine that a hash finds is stored, and the hash is its own.
pub lookup-find_by_hash :
    (t : Table Machine) (h id : String) (m : Machine)
    → IsRegistry t
    → find_by_hash h t ≡ some (id, m)
    → (lookup id t ≡ some m) × (m.token_hash ≡ h)
unfolding lookup find_by_hash
lookup-find_by_hash [] h id m r e = cc
lookup-find_by_hash ((k, v) ∷ t) h id m r e = elim (Bool-cases (v.token_hash == h)) [
  | inl same ↦
      let q : (k, v) ≡ (id, m) = some-injective (k, v) (id, m) (sym (if-true _ _ _ same) ∙ e) in
      (
        if-true _ _ _ ((eq_iff k id).1 (ap (λ x. x.0) q)) ∙ ap (λ x. some x.1) q,
        sym (ap (λ (x : String × Machine). x.1.token_hash) q) ∙ (eq_iff v.token_hash h).0 same,
      )
  | inr other ↦
      let (found, own) = lookup-find_by_hash t h id m r.2 (sym (if-false _ _ _ other) ∙ e) in
      (
        if-false _ _ _ (==-ne k id (λ p. ground (arith, sym r.0 ∙ ap (λ j. lookup j t) p ∙ found)))
            ∙ found,
        own,
      )
]

lookup-none-insert :
    (t : Table Machine) (k id : String) (m m' : Machine)
    → lookup id t ≡ some m
    → lookup k t ≡ none
    → lookup k (insert id m' t) ≡ none
lookup-none-insert t k id m m' e f = elim (Bool-cases (id == k)) [
  | inl same ↦ cc (sym e ∙ ap (λ j. lookup j t) ((eq_iff id k).0 same) ∙ f)
  | inr other ↦ rw lookup-insert (rw other f)
]

find_by_hash-none-insert :
    (t : Table Machine) (h id : String) (m m' : Machine)
    → lookup id t ≡ some m
    → m'.token_hash ≡ m.token_hash
    → find_by_hash h t ≡ none
    → find_by_hash h (insert id m' t) ≡ none
unfolding lookup insert find_by_hash
find_by_hash-none-insert [] h id m m' e s f = cc
find_by_hash-none-insert ((k, v) ∷ t) h id m m' e s f =
    ground (arith, find_by_hash-none-insert t h id m m')

-- A stored row may be written back with the hash that it has.
pub insert-IsRegistry :
    (t : Table Machine) (id : String) (m m' : Machine)
    → IsRegistry t
    → lookup id t ≡ some m
    → m'.token_hash ≡ m.token_hash
    → IsRegistry (insert id m' t)
unfolding lookup insert
insert-IsRegistry [] id m m' r e s = cc
insert-IsRegistry ((k, v) ∷ t) id m m' r e s = elim (Bool-cases (k == id)) [
  | inl same ↦
      let p : v ≡ m = some-injective v m (sym (if-true _ _ _ same) ∙ e) in
      let kept : m'.token_hash ≡ v.token_hash = s ∙ sym (ap (λ (x : Machine). x.token_hash) p) in
      subst IsRegistry (sym (if-true _ _ _ same)) (r.0, ap (λ h. find_by_hash h t) kept ∙ r.1, r.2)
  | inr other ↦
      let here : lookup id t ≡ some m = sym (if-false _ _ _ other) ∙ e in
      subst IsRegistry (sym (if-false _ _ _ other)) (
        lookup-none-insert t k id m m' here r.0,
        find_by_hash-none-insert t v.token_hash id m m' here s r.1,
        insert-IsRegistry t id m m' r.2 here s,
      )
]

find_by_hash-none-new :
    (t : Table Machine) (h id : String) (m : Machine)
    → lookup id t ≡ none
    → (m.token_hash == h) ≡ false
    → find_by_hash h t ≡ none
    → find_by_hash h (insert id m t) ≡ none
unfolding lookup insert find_by_hash
find_by_hash-none-new [] h id m e n f = ground arith
find_by_hash-none-new ((k, v) ∷ t) h id m e n f = ground (arith, find_by_hash-none-new t h id m)

-- A new row with an id and a hash that no row has.
pub new-IsRegistry :
    (t : Table Machine) (id : String) (m : Machine)
    → IsRegistry t
    → lookup id t ≡ none
    → find_by_hash m.token_hash t ≡ none
    → IsRegistry (insert id m t)
unfolding lookup insert find_by_hash
new-IsRegistry [] id m r e f = (refl, refl, tt)
new-IsRegistry ((k, v) ∷ t) id m r e f =
    let other : (k == id) ≡ false = ground arith in
    let back : (id == k) ≡ false = ground (arith, eq_iff id k, eq_iff k id) in
    let absent : lookup id t ≡ none = sym (if-false _ _ _ other) ∙ e in
    let apart : (v.token_hash == m.token_hash) ≡ false = ground arith in
    let apart' : (m.token_hash == v.token_hash) ≡ false =
      ground (arith, eq_iff m.token_hash v.token_hash, eq_iff v.token_hash m.token_hash) in
    let free : find_by_hash m.token_hash t ≡ none = sym (if-false _ _ _ apart) ∙ f in
    subst IsRegistry (sym (if-false _ _ _ other)) (
      lookup-insert id k m t ∙ if-false _ _ _ back ∙ r.0,
      find_by_hash-none-new t v.token_hash id m absent apart' r.1,
      new-IsRegistry t id m r.2 absent free,
    )
