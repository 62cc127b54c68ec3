-- ===== src/Rooms/Tombstone/Once.antt =====
-- app/rooms.py, `delete_message`: a second deletion, the numbers and the objections.
use mathlib.Core.Option.{some-injective}
use brainard.Prelude.{
  ℕ, ◌+◌, String, Bool, true, false, ◌≡◌, refl, ap, Option, none, some, List, [], ◌∷◌, ◌==◌, arith,
  is_some, if◌then◌else◌, Bool-cases, inl, inr,
}
use brainard.Errors.{ok, OnOk}
use brainard.Model.{RoomMessage, Chat}
use brainard.Rooms.Queries.{max_seq, next_seq}
use brainard.Rooms.Consensus.{has_objected}
use brainard.Rooms.Tombstone.{find_message, tombstone, bury, delete_found, delete_locked}

find_message-bury :
    (id : String) (now : ℕ) (ms : List RoomMessage) (m : RoomMessage)
    → find_message id ms ≡ some m
    → find_message id (bury id now ms) ≡ some (tombstone now m)
unfolding find_message bury
find_message-bury id now [] m e = cc
find_message-bury id now (x ∷ ms) m e = first (x.id == id) refl e (find_message-bury id now ms m)
  where
    first :
        (b : Bool)
        → (x.id == id) ≡ b
        → (if b then some x else find_message id ms) ≡ some m
        → (find_message id ms ≡ some m → find_message id (bury id now ms) ≡ some (tombstone now m))
        → find_message id (bury id now (x ∷ ms)) ≡ some (tombstone now m)
    first true same found rest =
        rw same (rw same (ap (λ y. some (tombstone now y)) (some-injective x m found)))
    first false other found rest = rw other (rw other (rest found))

max_seq-bury :
    (id : String) (now : ℕ) (ms : List RoomMessage) → max_seq (bury id now ms) ≡ max_seq ms
unfolding max_seq bury
max_seq-bury id now [] = refl
max_seq-bury id now (m ∷ ms) = ground (arith, max_seq-bury id now ms)

has_objected-bury :
    (id : String) (now : ℕ) (ms : List RoomMessage) (a : String)
    → has_objected (bury id now ms) a ≡ has_objected ms a
unfolding has_objected bury
has_objected-bury id now [] a = refl
has_objected-bury id now (m ∷ ms) a = ground (arith, has_objected-bury id now ms a)

-- The room `c'` that a deletion of message `id` leaves, answering `m`.
pub record IsDeleted (id : String) (c : Chat) (m : RoomMessage) (c' : Chat) : Type 0 where
  pub again : (later : ℕ) → delete_locked id later c' ≡ ok (m, c')
  pub number : next_seq c' ≡ next_seq c
  pub objections : (a : String) → has_objected c'.messages a ≡ has_objected c.messages a

delete_found-IsDeleted :
    (id : String) (now : ℕ) (c : Chat) (o : Option RoomMessage)
    → find_message id c.messages ≡ o
    → OnOk (λ r. IsDeleted id c r.0 r.1) (delete_found id now c o)
unfolding delete_found delete_locked next_seq
delete_found-IsDeleted id now c none e = tt
delete_found-IsDeleted id now c (some m) e = elim (Bool-cases (is_some m.deleted_at)) [
  | inl gone ↦
      rw gone
        (record { again = λ later. rw e (rw gone refl); number = refl; objections = λ a. refl })
  | inr live ↦ rw live (record {
    again = λ later. rw (find_message-bury id now c.messages m e) refl;
    number = ap (λ n. n + 1) (max_seq-bury id now c.messages);
    objections = has_objected-bury id now c.messages;
  })
]

-- A deletion that is answered is made once: every further deletion of the message answers the same
-- row and changes nothing. It frees no number, and it takes back no objection.
pub delete_locked-IsDeleted :
    (id : String) (now : ℕ) (c : Chat) → OnOk (λ r. IsDeleted id c r.0 r.1) (delete_locked id now c)
unfolding delete_locked
delete_locked-IsDeleted id now c = delete_found-IsDeleted id now c (find_message id c.messages) refl
