-- ===== src/Trace/Moves.antt =====
-- What one room may undergo in a step of the hub.
use mathlib.Core.Path.{subst}
use mathlib.Core.Option.{some-injective}
use brainard.Prelude.{
  String, ◌≡◌, refl, sym, ap, ◌∙◌, inl, inr, Option, none, some, ◌==◌, eq_iff, Bool-cases,
}
use brainard.Prelude.Table.{lookup, insert, lookup-insert}
use brainard.Errors.{Result, ok, err, OnOk}
use brainard.Model.{Chat, Hub}
use brainard.Rooms.Queries.{commit, locked, with_room_lock, with_existing_room}
use brainard.Rooms.Evolution.{Evolves, Evolves-refl}

-- The room `j`, if it is stored, is stored again and has evolved.
pub record Moves (j : String) (h h' : Hub) : Type 0 where
  pub at :
      (c : Chat)
      → lookup j h.chats ≡ some c
      → (c' : Chat) × (lookup j h'.chats ≡ some c') × Evolves c c'

module _ (j : String) where
  pub Moves-same : (h h' : Hub) → h'.chats ≡ h.chats → Moves j h h'
  Moves-same h h' e = record { at = λ c found. (c, ap (lookup j) e ∙ found, Evolves-refl c) }

  pub Moves-other : (h h' : Hub) → lookup j h'.chats ≡ lookup j h.chats → Moves j h h'
  Moves-other h h' e = record { at = λ c found. (c, e ∙ found, Evolves-refl c) }

  -- One room is written back, evolved.
  pub Moves-insert :
      (h h' : Hub) (id : String) (c c' : Chat)
      → lookup id h.chats ≡ some c
      → Evolves c c'
      → h'.chats ≡ insert id c' h.chats
      → Moves j h h'
  Moves-insert h h' id c c' found ev e = record {
    at = λ d here. elim (Bool-cases (id == j)) [
      | inl same ↦
          let p : id ≡ j = (eq_iff id j).0 same in
          (
            c',
            ap (lookup j) e ∙ rw lookup-insert (rw same),
            subst (λ x. Evolves x c')
                (some-injective c d (sym found ∙ ap (λ k. lookup k h.chats) p ∙ here)) ev,
          )
      | inr other ↦ (d, ap (lookup j) e ∙ rw lookup-insert (rw other here), Evolves-refl d)
    ];
  }

module _ {A : Type 0} (j : String) (body : Chat → Result (A × Chat)) where
  pub Moves-lock :
      (id : String) (h : Hub)
      → ((c : Chat) → lookup id h.chats ≡ some c → OnOk (λ r. Evolves c r.1) (body c))
      → Moves j h (with_room_lock id body h).1
  unfolding with_room_lock
  Moves-lock id h keep = found (lookup id h.chats) refl
    where
      stored :
          (c : Chat)
          → lookup id h.chats ≡ some c
          → (r : Result (A × Chat)) → OnOk (λ r. Evolves c r.1) r
          → Moves j h (commit id h r).1
      stored c e (ok (a, c')) ev = Moves-insert j h (commit id h (ok (a, c'))).1 id c c' e ev refl
      stored c e (err x) ev = Moves-same j h h refl

      found : (o : Option Chat) → lookup id h.chats ≡ o → Moves j h (commit id h (locked body o)).1
      found none e = Moves-same j h h refl
      found (some c) e = stored c e (body c) (keep c e)

module _ {A : Type 0} (j : String) (body : Chat → Result (A × Chat)) where
  pub Moves-existing :
      (seen : Option Chat) (id : String) (h : Hub)
      → ((c : Chat) → lookup id h.chats ≡ some c → OnOk (λ r. Evolves c r.1) (body c))
      → Moves j h (with_existing_room seen id body h).1
  unfolding with_existing_room
  Moves-existing none id h keep = Moves-same j h h refl
  Moves-existing (some c) id h keep = Moves-lock j body id h keep

module _ (j : String) where
  -- One more write of the table as it stands.
  pub Moves-then_same : (h h' h'' : Hub) → Moves j h h' → h''.chats ≡ h'.chats → Moves j h h''
  Moves-then_same h h' h'' m e = record {
    at = λ c found. let (c', here, ev) = m.at c found in (c', ap (lookup j) e ∙ here, ev);
  }
