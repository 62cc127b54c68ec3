-- ===== src/Deposits/Kept.antt =====
-- app/routers/deposits.py: what the compartments of a deposit leave as it was.
use mathlib.Core.Path.{subst}
use brainard.Prelude.{
  String, Bool, true, false, ◌≡◌, refl, ap, ◌∙◌, some, ◌==◌, eq_iff, arith, Bool-cases, inl, inr,
}
use brainard.Prelude.Table.{Table, lookup, insert, lookup-insert}
use brainard.Errors.{Code}
use brainard.Deposits.{
  Try, returned, raised, Exception, ◌>>=◌, ◌>>◌, reject_if, fail_if, KnowledgeEntry, is_active,
  Database,
}

-- What a call returns satisfies `P`, if it returns.
abbrev pub OnReturned {ℓ κ} : {A : Type ℓ} → (A → Type κ) → Try A → Type κ
OnReturned P (returned a) = P a
OnReturned P (raised e) = Unit

pub OnReturned-bind {ℓ κ} :
    {A B : Type ℓ} (P : B → Type κ) (r : Try A) (f : A → Try B)
    → ((a : A) → r ≡ returned a → OnReturned P (f a))
    → OnReturned P (r >>= f)
OnReturned-bind P (returned a) f h = h a refl
OnReturned-bind P (raised e) f h = tt

pub OnReturned-reject_if {κ} :
    {B : Type 0} (P : B → Type κ) (b : Bool) (c : Code) (k : Try B)
    → (b ≡ false → OnReturned P k)
    → OnReturned P (reject_if b c >> k)
OnReturned-reject_if P true c k h = tt
OnReturned-reject_if P false c k h = h refl

pub OnReturned-fail_if {κ} :
    {B : Type 0} (P : B → Type κ) (b : Bool) (e : Exception) (k : Try B)
    → (b ≡ false → OnReturned P k)
    → OnReturned P (fail_if b e >> k)
OnReturned-fail_if P true e k h = tt
OnReturned-fail_if P false e k h = h refl

pub OnReturned-map {ℓ κ} :
    {A : Type ℓ} (P Q : A → Type κ) (r : Try A)
    → ((a : A) → P a → Q a)
    → OnReturned P r
    → OnReturned Q r
OnReturned-map P Q (returned a) f h = f a h
OnReturned-map P Q (raised e) f h = tt

abbrev from_returned {ℓ} : {A : Type ℓ} → A → Try A → A
from_returned d (returned x) = x
from_returned d (raised x) = d

pub OnReturned-eq {ℓ κ} :
    {A : Type ℓ} (P : A → Type κ) (r : Try A) (a : A) → OnReturned P r → r ≡ returned a → P a
OnReturned-eq P (returned b) a h e = subst P (ap (from_returned b) e) h
OnReturned-eq P (raised x) a h e = cc

-- An entry keeps its text and its parents; a closed one does not change at all.
abbrev pub Follows : KnowledgeEntry → KnowledgeEntry → Type 0
Follows e e' =
    (e' ≡ record e { status = e'.status; retire_reason = e'.retire_reason })
    × (is_active e.status ≡ false → e' ≡ e)

abbrev pub KeptEntries : Table KnowledgeEntry → Table KnowledgeEntry → Type 0
KeptEntries t t' =
    (j : String) (e : KnowledgeEntry)
    → lookup j t ≡ some e
    → (e' : KnowledgeEntry) × (lookup j t' ≡ some e') × Follows e e'

pub Follows-refl : (e : KnowledgeEntry) → Follows e e
Follows-refl e = (refl, λ closed. refl)

pub KeptEntries-refl : (t : Table KnowledgeEntry) → KeptEntries t t
KeptEntries-refl t = λ j e found. (e, found, Follows-refl e)

pub Follows-trans : (a b c : KnowledgeEntry) → Follows a b → Follows b c → Follows a c
Follows-trans a b c f g = (
  g.0
      ∙ ap {A = KnowledgeEntry} {B = KnowledgeEntry}
          (λ x. record x { status = c.status; retire_reason = c.retire_reason }) f.0,
  λ closed. g.1 (ap (λ x. is_active (KnowledgeEntry.status x)) (f.1 closed) ∙ closed) ∙ f.1 closed,
)

pub KeptEntries-trans :
    (t u v : Table KnowledgeEntry) → KeptEntries t u → KeptEntries u v → KeptEntries t v
KeptEntries-trans t u v k l = λ j e found.
    let first : (e' : KnowledgeEntry) × (lookup j u ≡ some e') × Follows e e' = k j e found in
    let next : (e' : KnowledgeEntry) × (lookup j v ≡ some e') × Follows first.0 e' =
      l j first.0 first.1 in
    (next.0, next.1, Follows-trans e first.0 next.0 first.2 next.2)

pub insert-KeptEntries :
    (id : String) (e : KnowledgeEntry) (t : Table KnowledgeEntry)
    → ((old : KnowledgeEntry) → lookup id t ≡ some old → Follows old e)
    → KeptEntries t (insert id e t)
insert-KeptEntries id e t h = λ j old found. elim (Bool-cases (id == j)) [
  | inl same ↦ (
    e,
    lookup-insert id j e t ∙ (rw same refl),
    h old (ap (λ x. lookup x t) (ground (arith, eq_iff id j)) ∙ found),
  )
  | inr other ↦ (old, lookup-insert id j e t ∙ (rw other found), Follows-refl old)
]

-- What items of knowledge[] and documents[] never write.
abbrev pub SameEnvelopes : Database → Database → Type 0
SameEnvelopes db db' =
    (db'.deposits ≡ db.deposits)
    × (db'.events ≡ db.events)
    × (db'.handoffs ≡ db.handoffs)
    × (db'.projects ≡ db.projects)

-- Items of knowledge[] keep the entries and leave the documents alone.
abbrev pub AppliesKnowledge : Database → Database → Type 0
AppliesKnowledge db db' =
    SameEnvelopes db db'
    × KeptEntries db.knowledge_entries db'.knowledge_entries
    × (db'.mirrored_documents ≡ db.mirrored_documents)

pub AppliesKnowledge-refl : (db : Database) → AppliesKnowledge db db
AppliesKnowledge-refl db = ((refl, refl, refl, refl), KeptEntries-refl db.knowledge_entries, refl)

pub AppliesKnowledge-trans :
    (a b c : Database) → AppliesKnowledge a b → AppliesKnowledge b c → AppliesKnowledge a c
AppliesKnowledge-trans a b c (s, k, m) (s', k', m') = (
  (s'.0 ∙ s.0, s'.1 ∙ s.1, s'.2 ∙ s.2, s'.3 ∙ s.3),
  KeptEntries-trans a.knowledge_entries b.knowledge_entries c.knowledge_entries k k',
  m' ∙ m,
)

-- Items of documents[] leave the entries alone.
abbrev pub AppliesDocuments : Database → Database → Type 0
AppliesDocuments db db' = SameEnvelopes db db' × (db'.knowledge_entries ≡ db.knowledge_entries)

pub AppliesDocuments-trans :
    (a b c : Database) → AppliesDocuments a b → AppliesDocuments b c → AppliesDocuments a c
AppliesDocuments-trans a b c (s, k) (s', k') =
    ((s'.0 ∙ s.0, s'.1 ∙ s.1, s'.2 ∙ s.2, s'.3 ∙ s.3), k' ∙ k)
