-- ===== src/Rooms/Evolution.antt =====
-- How a room may change: its transcript grows and is buried message by message, a close is for
-- good, so is the opening, and the agents and the limits stay.
use brainard.Prelude.{
  ℕ, String, true, false, ◌≡◌, refl, sym, ap, ◌∙◌, ◌⊎◌, inl, inr, none, List, [], ◌∷◌, ◌++◌, map,
  arith, is_some,
}
use brainard.Model.{Room, RoomMember, RoomMessage, Chat, is_open}
use brainard.Rooms.Queries.{get_members, announce}
use brainard.Rooms.Tombstone.{tombstone}

-- A message stays as it is, or it was live and is now a tombstone of itself.
abbrev pub KeepsMessage : RoomMessage → RoomMessage → Type 0
KeepsMessage x y = (y ≡ x) ⊎ ((now : ℕ) × (x.deleted_at ≡ none) × (y ≡ tombstone now x))

-- Every message of the first transcript stands at its place in the second.
abbrev pub Continues : List RoomMessage → List RoomMessage → Type 0
Continues [] ys = Unit
Continues (x ∷ xs) [] = ⊥
Continues (x ∷ xs) (y ∷ ys) = KeepsMessage x y × Continues xs ys

pub record RowEvolves (r r' : Room) : Type 0 where
  pub stays_closed :
      is_open r ≡ false
      → (r'.status ≡ r.status) × (r'.closed_at ≡ r.closed_at) × (r'.close_reason ≡ r.close_reason)
  pub stays_opened : is_some r.opened_at ≡ true → r'.opened_at ≡ r.opened_at
  pub max_messages : r'.max_messages ≡ r.max_messages
  pub consensus_floor : r'.consensus_floor ≡ r.consensus_floor
  pub created_at : r'.created_at ≡ r.created_at

pub record Evolves (c c' : Chat) : Type 0 where
  pub transcript : Continues c.messages c'.messages
  pub row : RowEvolves c.room c'.room
  pub agents : get_members c' ≡ get_members c

pub Continues-refl : (xs : List RoomMessage) → Continues xs xs
Continues-refl [] = tt
Continues-refl (x ∷ xs) = (inl refl, Continues-refl xs)

KeepsMessage-trans : (x y z : RoomMessage) → KeepsMessage x y → KeepsMessage y z → KeepsMessage x z
KeepsMessage-trans x y z (inl p) (inl q) = inl (q ∙ p)
KeepsMessage-trans x y z (inl p) (inr (now, live, q)) =
    inr (now, sym (ap (λ m. m.deleted_at) p) ∙ live, q ∙ ap (tombstone now) p)
KeepsMessage-trans x y z (inr (now, live, p)) (inl q) = inr (now, live, q ∙ p)
KeepsMessage-trans x y z (inr (now, live, p)) (inr (now', live', q)) =
    cc (ap (λ (m : RoomMessage). m.deleted_at) p)

pub Continues-trans :
    (xs ys zs : List RoomMessage) → Continues xs ys → Continues ys zs → Continues xs zs
Continues-trans [] ys zs h k = tt
Continues-trans (x ∷ xs) [] zs h k = elim h [ ]
Continues-trans (x ∷ xs) (y ∷ ys) [] h k = elim k [ ]
Continues-trans (x ∷ xs) (y ∷ ys) (z ∷ zs) h k =
    (KeepsMessage-trans x y z h.0 k.0, Continues-trans xs ys zs h.1 k.1)

pub Continues-append : (xs : List RoomMessage) (m : RoomMessage) → Continues xs (xs ++ m ∷ [])
Continues-append [] m = tt
Continues-append (x ∷ xs) m = (inl refl, Continues-append xs m)

pub RowEvolves-refl : (r : Room) → RowEvolves r r
RowEvolves-refl r = record {
  stays_closed = λ _. (refl, refl, refl);
  stays_opened = λ _. refl;
  max_messages = refl;
  consensus_floor = refl;
  created_at = refl;
}

RowEvolves-trans : (r s t : Room) → RowEvolves r s → RowEvolves s t → RowEvolves r t
RowEvolves-trans r s t h k = record {
  stays_closed = λ shut. ground (arith, h.stays_closed shut, k.stays_closed);
  stays_opened = λ was. ground (arith, h.stays_opened was, k.stays_opened);
  max_messages = k.max_messages ∙ h.max_messages;
  consensus_floor = k.consensus_floor ∙ h.consensus_floor;
  created_at = k.created_at ∙ h.created_at;
}

pub Evolves-refl : (c : Chat) → Evolves c c
Evolves-refl c = record {
  transcript = Continues-refl c.messages;
  row = RowEvolves-refl c.room;
  agents = refl;
}

pub Evolves-trans : (c d e : Chat) → Evolves c d → Evolves d e → Evolves c e
Evolves-trans c d e h k = record {
  transcript = Continues-trans c.messages d.messages e.messages h.transcript k.transcript;
  row = RowEvolves-trans c.room d.room e.room h.row k.row;
  agents = k.agents ∙ h.agents;
}

-- A new row alone.
pub row-Evolves : (c : Chat) (r : Room) → RowEvolves c.room r → Evolves c (record c { room = r })
unfolding get_members
row-Evolves c r h = record { transcript = Continues-refl c.messages; row = h; agents = refl }

-- A new message, and a row that differs from the old one as it may.
pub message-Evolves :
    (c : Chat) (r : Room) (m : RoomMessage)
    → RowEvolves c.room r
    → Evolves c (record c { room = r; messages = c.messages ++ m ∷ [] })
unfolding get_members
message-Evolves c r m h = record {
  transcript = Continues-append c.messages m;
  row = h;
  agents = refl;
}

-- New member rows of the same names.
pub members-Evolves :
    (c : Chat) (ms : List RoomMember)
    → map (λ m. m.agent_name) ms ≡ map (λ m. m.agent_name) c.members
    → Evolves c (record c { members = ms })
unfolding get_members
members-Evolves c ms e = record {
  transcript = Continues-refl c.messages;
  row = RowEvolves-refl c.room;
  agents = e;
}

-- An announcement changes the count alone in the row.
pub announce-Evolves :
    (c : Chat) (text : String) (now : ℕ) (id : String) → Evolves c (announce c text now id)
unfolding announce
announce-Evolves c text now id = message-Evolves c _ _ (ground arith)
