-- ===== src/Rooms/Isolation.antt =====
-- app/rooms.py: the lock of one room's row, seen from the hub.
use mathlib.Core.Path.{subst}
use mathlib.Core.Option.{some-injective}
use brainard.Prelude.{
  String, Bool, true, false, ◌≡◌, ◌≢◌, refl, sym, ap, ◌∙◌, Option, none, some, ◌==◌, if◌then◌else◌,
  ==-ne,
}
use brainard.Prelude.Table.{lookup, insert, remove, lookup-insert, lookup-remove}
use brainard.Errors.{Result, ok, err, OnOk}
use brainard.Model.{Chat, Hub, Notice}
use brainard.Rooms.Queries.{commit, locked, with_room_lock, with_existing_room, notify}
use brainard.Rooms.Invariant.{IsSound}

-- Every stored room satisfies `P`.
pub record AllChats (P : Chat → Type 0) (hub : Hub) : Type 0 where
  pub at : (id : String) (c : Chat) → lookup id hub.chats ≡ some c → P c

abbrev pub IsSoundHub : Hub → Type 0
IsSoundHub = AllChats IsSound

pick :
    (P : Chat → Type 0) (b : Bool) (c : Chat) (o : Option Chat) {d : Chat}
    → P c
    → (o ≡ some d → P d)
    → (if b then some c else o) ≡ some d
    → P d
pick P true c o h g e = subst P (some-injective c _ e) h
pick P false c o h g e = g e

pick_none :
    (P : Chat → Type 0) (b : Bool) (o : Option Chat) {d : Chat}
    → (o ≡ some d → P d)
    → (if b then none else o) ≡ some d
    → P d
pick_none P true o g e = cc
pick_none P false o g e = g e

module _ (P : Chat → Type 0) where
  pub AllChats-insert :
      (hub hub' : Hub) (id : String) (c : Chat)
      → AllChats P hub
      → P c
      → hub'.chats ≡ insert id c hub.chats
      → AllChats P hub'
  AllChats-insert hub hub' id c h p e = record {
    at = λ j d found.
        pick P (id == j) c (lookup j hub.chats) p (h.at j d)
          (sym (lookup-insert id j c hub.chats) ∙ sym (ap (lookup j) e) ∙ found);
  }

  pub AllChats-remove :
      (hub hub' : Hub) (id : String)
      → AllChats P hub
      → hub'.chats ≡ remove id hub.chats
      → AllChats P hub'
  AllChats-remove hub hub' id h e = record {
    at = λ j d found.
        pick_none P (id == j) (lookup j hub.chats) (h.at j d)
          (sym (lookup-remove id j hub.chats) ∙ sym (ap (lookup j) e) ∙ found);
  }

  pub AllChats-same : (hub hub' : Hub) → AllChats P hub → hub'.chats ≡ hub.chats → AllChats P hub'
  AllChats-same hub hub' h e = record { at = λ j d found. h.at j d (sym (ap (lookup j) e) ∙ found) }

  pub AllChats-notify : (n : Notice) (hub : Hub) → AllChats P hub → AllChats P (notify n hub)
  unfolding notify
  AllChats-notify n hub h = AllChats-same hub (notify n hub) h refl

module _ {A : Type 0} (P : Chat → Type 0) (body : Chat → Result (A × Chat)) where
  -- A body that keeps `P` wherever it succeeds keeps it in every room of the hub.
  pub with_room_lock-AllChats :
      (id : String) (hub : Hub)
      → ((c : Chat) → lookup id hub.chats ≡ some c → P c → OnOk (λ r. P r.1) (body c))
      → AllChats P hub
      → AllChats P (with_room_lock id body hub).1
  unfolding with_room_lock
  with_room_lock-AllChats id hub keep h = found (lookup id hub.chats) refl
    where
      stored : (r : Result (A × Chat)) → OnOk (λ r. P r.1) r → AllChats P (commit id hub r).1
      stored (ok (a, c)) p = AllChats-insert P hub (commit id hub (ok (a, c))).1 id c h p refl
      stored (err e) p = h

      found :
          (o : Option Chat) → lookup id hub.chats ≡ o → AllChats P (commit id hub (locked body o)).1
      found none e = h
      found (some c) e = stored (body c) (keep c e (h.at id c e))

module _ {A : Type 0} (P : Chat → Type 0) (body : Chat → Result (A × Chat)) where
  pub with_existing_room-AllChats :
      (seen : Option Chat) (id : String) (hub : Hub)
      → ((c : Chat) → lookup id hub.chats ≡ some c → P c → OnOk (λ r. P r.1) (body c))
      → AllChats P hub
      → AllChats P (with_existing_room seen id body hub).1
  unfolding with_existing_room
  with_existing_room-AllChats none id hub keep h = h
  with_existing_room-AllChats (some c) id hub keep h = with_room_lock-AllChats P body id hub keep h

module _ {A : Type 0} (body : Chat → Result (A × Chat)) (id j : String) (other : id ≢ j)
    (hub : Hub) where
  -- Whatever a body does under the lock of one room, the rows of another room are as they were.
  pub with_room_lock-other : lookup j (with_room_lock id body hub).1.chats ≡ lookup j hub.chats
  unfolding with_room_lock
  with_room_lock-other = stored (locked body (lookup id hub.chats))
    where
      stored : (r : Result (A × Chat)) → lookup j (commit id hub r).1.chats ≡ lookup j hub.chats
      stored (ok (a, c)) = rw (lookup-insert, ==-ne id j other)
      stored (err e) = refl
