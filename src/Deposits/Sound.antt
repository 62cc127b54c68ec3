-- ===== src/Deposits/Sound.antt =====
-- app/routers/deposits.py: an entry and what it supersedes stand on the same side, as proposals or
-- as entries of the library.
use brainard.Prelude.{
  String, Bool, true, false, not, ◌&&◌, ◌≡◌, ◌≢◌, is_none, refl, sym, ap, ◌∙◌, some, List, [], ◌∷◌,
  ◌==◌, eq_iff, arith, Bool-cases, Option-cases, inl, inr, any, contains,
}
use mathlib.Core.Path.{subst}
use mathlib.Core.Option.{some-injective}
use brainard.Prelude.Json.{Object}
use brainard.Prelude.Table.{Table, lookup, insert, lookup-insert}
use brainard.Errors.{Code}
use brainard.Deposits.{Try, returned, ◌>>◌, reject_if, KnowledgeEntry, Database}
use brainard.Deposits.Validate.{is_retire_item, texts_at, proposes}
use brainard.Deposits.References.{
  is_missing, is_library_entry, is_proposal, validate_knowledge_references,
}
use brainard.Deposits.Kept.{Follows, KeptEntries, insert-KeptEntries}

-- The parents are stored, and are proposals exactly where the entry is one.
abbrev pub HasParents : Table KnowledgeEntry → List String → Bool → Type 0
HasParents t parents proposal =
    (p : String)
    → contains p parents ≡ true
    → (parent : KnowledgeEntry) × (lookup p t ≡ some parent)
      × (parent.is_doctrine_proposal ≡ proposal)

abbrev pub IsSeparated : Table KnowledgeEntry → Type 0
IsSeparated t =
    (j : String) (e : KnowledgeEntry)
    → lookup j t ≡ some e
    → HasParents t e.supersedes e.is_doctrine_proposal

true≢false : true ≢ false
true≢false e = cc

pub HasParents-later :
    (t t' : Table KnowledgeEntry) (ps : List String) (b : Bool)
    → KeptEntries t t'
    → HasParents t ps b
    → HasParents t' ps b
HasParents-later t t' ps b kept h = λ p named.
    let old : (e : KnowledgeEntry) × (lookup p t ≡ some e) × (e.is_doctrine_proposal ≡ b) =
      h p named in
    let now : (e' : KnowledgeEntry) × (lookup p t' ≡ some e') × Follows old.0 e' =
      kept p old.0 old.1 in
    (now.0, now.1, ap KnowledgeEntry.is_doctrine_proposal now.2.0 ∙ old.2)

-- A row that succeeds the one it replaces, with parents on its side.
pub insert-IsSeparated :
    (id : String) (e : KnowledgeEntry) (t : Table KnowledgeEntry)
    → ((old : KnowledgeEntry) → lookup id t ≡ some old → Follows old e)
    → HasParents t e.supersedes e.is_doctrine_proposal
    → IsSeparated t
    → IsSeparated (insert id e t)
insert-IsSeparated id e t follows parents h = λ j x found.
    HasParents-later t (insert id e t) x.supersedes x.is_doctrine_proposal
      (insert-KeptEntries id e t follows)
      (elim (Bool-cases (id == j)) [
        | inl same ↦
            subst (λ y. HasParents t (KnowledgeEntry.supersedes y) y.is_doctrine_proposal)
              (some-injective e x (sym (lookup-insert id j e t ∙ (rw same refl)) ∙ found)) parents
        | inr other ↦ h j x (sym (lookup-insert id j e t ∙ (rw other refl)) ∙ found)
      ])

-- The same where the row is stored already.
pub update-IsSeparated :
    (id : String) (old e : KnowledgeEntry) (t : Table KnowledgeEntry)
    → lookup id t ≡ some old
    → Follows old e
    → IsSeparated t
    → IsSeparated (insert id e t)
update-IsSeparated id old e t stored f h =
    insert-IsSeparated id e t
      (λ x found. subst (λ y. Follows y e) (some-injective old x (sym stored ∙ found)) f)
      (subst (λ y. HasParents t (KnowledgeEntry.supersedes y) y.is_doctrine_proposal) (sym f.0)
        (h id old stored))
      h

-- What the checks of references give for each new item.
abbrev pub HasReferences : Table KnowledgeEntry → List Object → Type 0
HasReferences t [] = Unit
HasReferences t (item ∷ items) =
    (is_retire_item item ≡ false → HasParents t (texts_at "supersedes" item) (proposes item))
    × HasReferences t items

pub HasReferences-later :
    (t t' : Table KnowledgeEntry) (items : List Object)
    → KeptEntries t t'
    → HasReferences t items
    → HasReferences t' items
HasReferences-later t t' [] kept h = tt
HasReferences-later t t' (item ∷ items) kept (h, hs) = (
  λ creates. HasParents-later t t' (texts_at "supersedes" item) (proposes item) kept (h creates),
  HasReferences-later t t' items kept hs,
)

any-none :
    (f : String → Bool) (p : String) (xs : List String)
    → any f xs ≡ false
    → contains p xs ≡ true
    → f p ≡ false
any-none f p [] quiet named = cc
any-none f p (x ∷ xs) quiet named = elim (Bool-cases (x == p)) [
  | inl same ↦ ground (arith, eq_iff x p)
  | inr other ↦ any-none f p xs (ground arith) (ground arith)
]

proposal-parent :
    (t : Table KnowledgeEntry) (p : String)
    → is_missing t p ≡ false
    → is_library_entry t p ≡ false
    → (e : KnowledgeEntry) × (lookup p t ≡ some e) × (e.is_doctrine_proposal ≡ true)
unfolding is_missing is_library_entry
proposal-parent t p present no_library = elim (Option-cases (lookup p t)) [
  | inl absent ↦ absurd (true≢false (sym (ap is_none absent) ∙ present))
  | inr (e, found) ↦ (e, found, ground arith)
]

library-parent :
    (t : Table KnowledgeEntry) (p : String)
    → is_missing t p ≡ false
    → is_proposal t p ≡ false
    → (e : KnowledgeEntry) × (lookup p t ≡ some e) × (e.is_doctrine_proposal ≡ false)
unfolding is_missing is_proposal
library-parent t p present no_proposal = elim (Option-cases (lookup p t)) [
  | inl absent ↦ absurd (true≢false (sym (ap is_none absent) ∙ present))
  | inr (e, found) ↦ (e, found, ground arith)
]

item-HasParents :
    (t : Table KnowledgeEntry) (ps : List String) (b : Bool)
    → any (is_missing t) ps ≡ false
    → (b && any (is_library_entry t) ps) ≡ false
    → (not b && any (is_proposal t) ps) ≡ false
    → HasParents t ps b
item-HasParents t ps true present no_library no_proposal = λ p named.
    proposal-parent t p (any-none (is_missing t) p ps present named)
      (any-none (is_library_entry t) p ps no_library named)
item-HasParents t ps false present no_library no_proposal = λ p named.
    library-parent t p (any-none (is_missing t) p ps present named)
      (any-none (is_proposal t) p ps no_proposal named)

check-HasReferences :
    (t : Table KnowledgeEntry) (items : List Object)
    → any (λ i. not (is_retire_item i) && any (is_missing t) (texts_at "supersedes" i)) items
      ≡ false
    → any
        (λ i.
          not (is_retire_item i)
          && (proposes i && any (is_library_entry t) (texts_at "supersedes" i)))
        items
      ≡ false
    → any
        (λ i.
          not (is_retire_item i)
          && (not (proposes i) && any (is_proposal t) (texts_at "supersedes" i)))
        items
      ≡ false
    → HasReferences t items
check-HasReferences t [] a b c = tt
check-HasReferences t (item ∷ items) a b c = (
  λ creates.
      item-HasParents t (texts_at "supersedes" item) (proposes item) (ground arith) (ground arith)
        (ground arith),
  check-HasReferences t items (ground arith) (ground arith) (ground arith),
)

pub reject_if-passed :
    (b : Bool) (c : Code) (k : Try (Unit {0}))
    → (reject_if b c >> k) ≡ returned tt
    → (b ≡ false) × (k ≡ returned tt)
reject_if-passed true c k e = cc
reject_if-passed false c k e = (refl, e)

pub validate_knowledge_references-HasReferences :
    (db : Database) (items : List Object) (envelope : String)
    → validate_knowledge_references db items envelope ≡ returned tt
    → HasReferences db.knowledge_entries items
unfolding validate_knowledge_references
validate_knowledge_references-HasReferences db items envelope e =
    let one = reject_if-passed _ _ _ e in
    let two = reject_if-passed _ _ _ one.1 in
    let three = reject_if-passed _ _ _ two.1 in
    let four = reject_if-passed _ _ _ three.1 in
    check-HasReferences db.knowledge_entries items two.0 three.0 four.0
