-- ===== src/Rooms/Close/Once.antt =====
-- app/rooms.py, `close_room` on a room that is closed.
use mathlib.Core.Path.{subst}
use brainard.Prelude.{
  ℕ, String, Bool, true, false, ◌≡◌, refl, Option, none, some, Bool-cases, inl, inr, ==-self,
  get_or_else,
}
use brainard.Prelude.Table.{lookup, insert, lookup-insert, insert-same}
use brainard.Errors.{Result, ok, err}
use brainard.Model.{Room, Chat, Hub, is_open}
use brainard.Rooms.Queries.{commit, locked, with_room_lock, with_existing_room, notify}
use brainard.Rooms.Post.{close_if}
use brainard.Rooms.Close.{is_valid_reason, apply_close, close_locked, close_committed, close_room}

-- The room `id` is stored, closed, and its row is `r`.
pub record IsClosedAs (id : String) (r : Room) (hub : Hub) : Type 0 where
  pub chat : Chat
  pub stored : lookup id hub.chats ≡ some chat
  pub row : chat.room ≡ r
  pub shut : is_open chat.room ≡ false

-- What a close that succeeds leaves behind.
abbrev pub Closes : String → Result Room × Hub → Type 0
Closes id (ok r, hub) = IsClosedAs id r hub
Closes id (err e, hub) = Unit

lookup-inserted : (id : String) (c : Chat) (hub : Hub) → lookup id (insert id c hub.chats) ≡ some c
lookup-inserted id c hub = rw (lookup-insert, ==-self id)

close_locked-Closes :
    (id : String) (reason : Option String) (now : ℕ) (hub : Hub) (c : Chat)
    → Closes id (close_committed id (commit id hub (close_locked reason now c)))
unfolding close_locked close_committed commit notify apply_close close_if
close_locked-Closes id reason now hub c = elim (Bool-cases (is_open c.room)) [
  | inl live ↦ rw live (record {
    chat = apply_close (get_or_else reason "owner") now c;
    stored = lookup-inserted id _ hub;
    row = refl;
    shut = refl;
  })
  | inr shut ↦
      rw shut (record { chat = c; stored = lookup-inserted id c hub; row = refl; shut = shut })
]

pub close_room-Closes :
    (seen : Option Chat) (id : String) (reason : Option String) (now : ℕ) (hub : Hub)
    → Closes id (close_room seen id reason now hub)
unfolding locked close_committed commit close_room with_existing_room with_room_lock
close_room-Closes seen id reason now hub = valid (is_valid_reason reason) refl seen
  where
    found :
        (o : Option Chat)
        → lookup id hub.chats ≡ o
        → Closes id (close_committed id (commit id hub (locked (close_locked reason now) o)))
    found none e = tt
    found (some c) e = close_locked-Closes id reason now hub c

    valid :
        (b : Bool)
        → is_valid_reason reason ≡ b
        → (s : Option Chat) → Closes id (close_room s id reason now hub)
    valid true e none = rw e tt
    valid true e (some c) = rw e (found (lookup id hub.chats) refl)
    valid false e s = rw e tt

-- A room that is closed stays as it is under every further close, which answers with its row.
pub close_room-IsClosedAs :
    (c : Chat) (id : String) (reason : Option String) (now : ℕ) (r : Room) (hub : Hub)
    → is_valid_reason reason ≡ true
    → IsClosedAs id r hub
    → close_room (some c) id reason now hub ≡ (ok r, hub)
unfolding close_room with_existing_room with_room_lock commit locked close_locked close_committed
close_room-IsClosedAs c id reason now r hub valid h =
    rw (valid, h.stored, h.shut, insert-same id h.chat hub.chats h.stored, h.row) refl

-- After a close that is answered, every further valid close of the room, whatever its reason and
-- its instant, answers with the same row and leaves the hub, the owner's notices included, as it is.
pub close_room-once :
    (seen : Option Chat) (c : Chat) (id : String) (reason later : Option String) (now then' : ℕ)
    (r : Room) (hub hub' : Hub)
    → close_room seen id reason now hub ≡ (ok r, hub')
    → is_valid_reason later ≡ true
    → close_room (some c) id later then' hub' ≡ (ok r, hub')
close_room-once seen c id reason later now then' r hub hub' first valid =
    close_room-IsClosedAs c id later then' r hub' valid
      (subst (Closes id) first (close_room-Closes seen id reason now hub))
