-- ===== src/Deposits/Versions.antt =====
-- app/routers/deposits.py: the versions of a mirrored document.
use brainard.Prelude.{
  ℕ, suc, ◌+◌, max, String, Bool, true, false, ◌&&◌, ◌≡◌, refl, sym, ap, ◌∙◌, none, some, List, [],
  ◌∷◌, ◌==◌, eq_iff, arith, ltb, leb, eqb, Bool-cases, inl, inr, if◌then◌else◌, is_some, is_none,
}
use mathlib.Core.Path.{subst}
use brainard.Prelude.Json.{Object}
use brainard.Prelude.Table.{Table, lookup, insert, lookup-insert}
use brainard.Deposits.{Deposit, MirroredDocument, Database, DepositRequest, Service, Arrival}
use brainard.Deposits.Kept.{
  OnReturned, OnReturned-bind, OnReturned-fail_if, OnReturned-eq, AppliesKnowledge,
}
use brainard.Deposits.Applied.{apply_knowledge-AppliesKnowledge}
use brainard.Deposits.Knowledge.{apply_knowledge}
use brainard.Deposits.Documents.{is_at, max_version, new_document, apply_document, apply_documents}
use brainard.Deposits.Insert.{new_deposit, store_envelope, insert_deposit}
use brainard.Deposits.Sound.{HasReferences}
use brainard.Deposits.Create.{Submission, Meanwhile, create_deposits}
use brainard.Deposits.Preserves.{create_deposits-Preserves}

-- How many documents of the project have that path and that version.
unfoldable pub count_at : String → String → ℕ → Table MirroredDocument → ℕ
unfolding is_at
count_at project path version [] = 0
count_at project path version ((id, doc) ∷ docs) =
    let rest = count_at project path version docs in
    if is_at project path doc && eqb (MirroredDocument.version doc) version then suc rest else rest

-- The versions of a path are 1, 2, … up to the latest, each once.
abbrev pub IsVersioned : Table MirroredDocument → Type 0
IsVersioned docs =
    (project path : String) (version : ℕ)
    → count_at project path version docs
      ≡ (if ltb 0 version && leb version (max_version project path docs) then 1 else 0)

max-swap : (a b c : ℕ) → max a (max b c) ≡ max b (max a c)
max-swap a b c = omega arith

first-differs :
    {V : Type 0} (id j : String) (x : V) (t : Table V)
    → lookup id ((j, x) ∷ t) ≡ none
    → ((j == id) ≡ false) × (lookup id t ≡ none)
unfolding lookup
first-differs id j x t free = (ground arith, ground arith)

max_version-insert :
    (project path id : String) (doc : MirroredDocument) (docs : Table MirroredDocument)
    → lookup id docs ≡ none
    → max_version project path (insert id doc docs) ≡ (
        if is_at project path doc
        then max doc.version (max_version project path docs)
        else max_version project path docs)
unfolding insert max_version
max_version-insert project path id doc [] free = by_place (is_at project path doc)
  where
    by_place :
        (b : Bool) → (if b then max doc.version 0 else 0) ≡ (if b then max doc.version 0 else 0)
    by_place b = refl
max_version-insert project path id doc ((j, x) ∷ docs) free =
    rw (first-differs id j x docs free).0 (
      rw (max_version-insert project path id doc docs (first-differs id j x docs free).1)
        (by_place (is_at project path x) (is_at project path doc)))
  where
    by_place :
        (b c : Bool)
        → let m = max_version project path docs in
          let m' = (if c then max doc.version m else m) in
          (if b then max (MirroredDocument.version x) m' else m') ≡ (
            if c
            then max doc.version (if b then max (MirroredDocument.version x) m else m)
            else (if b then max (MirroredDocument.version x) m else m))
    by_place true true =
        max-swap (MirroredDocument.version x) doc.version (max_version project path docs)
    by_place true false = refl
    by_place false true = refl
    by_place false false = refl

count_at-insert :
    (project path : String) (version : ℕ) (id : String) (doc : MirroredDocument)
    (docs : Table MirroredDocument)
    → lookup id docs ≡ none
    → count_at project path version (insert id doc docs) ≡ (
        if is_at project path doc && eqb doc.version version
        then suc (count_at project path version docs)
        else count_at project path version docs)
unfolding lookup insert count_at
count_at-insert project path version id doc [] free = refl
count_at-insert project path version id doc ((j, x) ∷ docs) free =
    ground (arith, count_at-insert project path version id doc docs)

is_at-same :
    (project path : String) (doc : MirroredDocument)
    → is_at project path doc ≡ true
    → (doc.project ≡ project) × (doc.path ≡ path)
unfolding is_at
is_at-same project path doc h =
    (ground (arith, eq_iff doc.project project), ground (arith, eq_iff doc.path path))

counted-next :
    (count latest version next : ℕ)
    → next ≡ latest + 1
    → count ≡ (if ltb 0 version && leb version latest then 1 else 0)
    → (if eqb next version then suc count else count)
      ≡ (if ltb 0 version && leb version (max next latest) then 1 else 0)
counted-next count latest version next e h = ground arith

-- The next version of a path.
next-IsVersioned :
    (id : String) (doc : MirroredDocument) (docs : Table MirroredDocument)
    → lookup id docs ≡ none
    → doc.version ≡ max_version doc.project doc.path docs + 1
    → IsVersioned docs
    → IsVersioned (insert id doc docs)
next-IsVersioned id doc docs free next h = λ project path version.
    elim (Bool-cases (is_at project path doc)) [
      | inl here ↦
          let same = is_at-same project path doc here in
          let at : doc.version ≡ max_version project path docs + 1 =
            next
            ∙ ap (λ p. max_version p doc.path docs + 1) same.0
            ∙ ap (λ p. max_version project p docs + 1) same.1 in
          rw
            (
              count_at-insert project path version id doc docs free,
              max_version-insert project path id doc docs free,
            )
            (rw here (
              counted-next (count_at project path version docs) (max_version project path docs)
                version doc.version at (h project path version)))
      | inr elsewhere ↦
          rw
            (
              count_at-insert project path version id doc docs free,
              max_version-insert project path id doc docs free,
            )
            (rw elsewhere (h project path version))
    ]

-- Every document stays as it was.
abbrev pub KeptDocuments : Table MirroredDocument → Table MirroredDocument → Type 0
KeptDocuments docs docs' =
    (id : String) (doc : MirroredDocument) → lookup id docs ≡ some doc → lookup id docs' ≡ some doc

insert-KeptDocuments :
    (id : String) (doc : MirroredDocument) (docs : Table MirroredDocument)
    → lookup id docs ≡ none
    → KeptDocuments docs (insert id doc docs)
insert-KeptDocuments id doc docs free = λ j old found.
    let other : (id == j) ≡ false = ground (arith, eq_iff id j) in
    lookup-insert id j doc docs ∙ (rw other found)

-- The documents of `start` stay, and the versions of every path have no gap.
abbrev IsContinued : Table MirroredDocument → Database → Type 0
IsContinued start db = KeptDocuments start db.mirrored_documents × IsVersioned db.mirrored_documents

module _ (start : Table MirroredDocument) where
  apply_document-IsContinued :
      (deposit_id : String) (d : Deposit) (id : String) (item : Object) (db : Database)
      → IsContinued start db
      → OnReturned (λ r. IsContinued start r.1) (apply_document deposit_id d id item db)
  unfolding apply_document new_document
  apply_document-IsContinued deposit_id d id item db (kept, versioned) =
      OnReturned-fail_if _ (is_some (lookup id db.mirrored_documents)) _ _ λ fresh.
        let doc = new_document deposit_id d item db.mirrored_documents in
        let free : lookup id db.mirrored_documents ≡ none = ground arith in
        (
          λ j old found.
              insert-KeptDocuments id doc db.mirrored_documents free j old (kept j old found),
          next-IsVersioned id doc db.mirrored_documents free refl versioned,
        )

  apply_documents-IsContinued :
      (deposit_id : String) (d : Deposit) (ids : ℕ → String) (i : ℕ) (items : List Object)
      (db : Database)
      → IsContinued start db
      → OnReturned (λ r. IsContinued start r.1) (apply_documents deposit_id d ids i items db)
  unfolding apply_documents
  apply_documents-IsContinued deposit_id d ids i [] db h = h
  apply_documents-IsContinued deposit_id d ids i (item ∷ items) db h =
      OnReturned-bind _ (apply_document deposit_id d (ids i) item db) _ λ r one.
        OnReturned-bind _ (apply_documents deposit_id d ids (suc i) items r.1) _ λ more rest.
          OnReturned-eq (λ x. IsContinued start x.1) _ more
            (apply_documents-IsContinued deposit_id d ids (suc i) items r.1 (
              OnReturned-eq (λ x. IsContinued start x.1) _ r
                (apply_document-IsContinued deposit_id d (ids i) item db h) one))
            rest

  insert_deposit-IsContinued :
      (s : Service) (at : Arrival) (n : ℕ) (body : DepositRequest) (db : Database)
      → HasReferences db.knowledge_entries body.knowledge
      → IsContinued start db
      → OnReturned (λ r. IsContinued start r.1) (insert_deposit s at n body db)
  unfolding insert_deposit store_envelope
  insert_deposit-IsContinued s at n body db refs h =
      let d =
        new_deposit body at.machine_id (at.received_at n)
          (is_none (lookup body.project db.projects)) in
      OnReturned-fail_if _ (is_some (lookup body.deposit_id db.deposits)) _ _ λ free.
        OnReturned-bind _
          (apply_knowledge s body.deposit_id d (at.entry_id n) 0 body.knowledge
            (store_envelope body d db))
          _
          λ k one.
            OnReturned-bind _
              (apply_documents body.deposit_id d (at.document_id n) 0 body.documents k.1) _
              λ m two.
                OnReturned-eq (λ x. IsContinued start x.1) _ m
                  (apply_documents-IsContinued body.deposit_id d (at.document_id n) 0 body.documents
                    k.1
                    (subst (λ docs. KeptDocuments start docs × IsVersioned docs)
                      (sym
                        (OnReturned-eq (λ x. AppliesKnowledge (store_envelope body d db) x.1) _ k
                          (apply_knowledge-AppliesKnowledge s body.deposit_id d (at.entry_id n) 0
                            body.knowledge (store_envelope body d db))
                          one).2)
                      h))
                  two

-- Where the documents of every path of every project have the versions 1, 2, … up to the latest,
-- each once, that still holds after any requests one after the other, together with the deposits that
-- collide with one of their attempts or that commit between such a collision and the next attempt;
-- and every document that was stored stays as it was.
pub create_deposits-IsVersioned :
    (s : Service) (qs : List (Submission × List Meanwhile)) (db : Database)
    → IsVersioned db.mirrored_documents
    → KeptDocuments db.mirrored_documents (create_deposits s qs db).mirrored_documents
      × IsVersioned (create_deposits s qs db).mirrored_documents
create_deposits-IsVersioned s qs db h =
    create_deposits-Preserves (IsContinued db.mirrored_documents)
      (insert_deposit-IsContinued db.mirrored_documents) s qs db (λ id doc found. found, h)
