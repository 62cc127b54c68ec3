-- ===== src/Sweeper/Expired.antt =====
-- app/room_sweeper.py, `_close_expired_rooms`: the rooms that are past their deadline.
use mathlib.Core.Path.{subst}
use mathlib.Core.Option.{some-injective}
use brainard.Prelude.{
  ℕ, String, Bool, true, false, ◌≡◌, ◌≢◌, refl, sym, ap, ◌∙◌, Option, none, some, List, [], ◌∷◌,
  ◌==◌, eq_iff, arith, contains, Bool-cases, inl, inr, ==-self, get_or_else,
}
use brainard.Prelude.Table.{Table, lookup, lookup-insert}
use brainard.Errors.{ok}
use brainard.Model.{Room, Chat, Hub, is_open}
use brainard.Rooms.Queries.{commit, locked, with_room_lock, with_existing_room}
use brainard.Rooms.Soundness.{close_committed-chats}
use brainard.Rooms.Isolation.{with_room_lock-other}
use brainard.Rooms.Close.{close_locked, close_committed, close_room, apply_close}
use brainard.Rooms.Post.{close_if}
use brainard.Sweeper.{scan, is_expired, close_each, close_expired_rooms}

-- No other request runs during the cycle.
abbrev pub alone : String → Hub → Hub
alone id hub = hub

-- The rooms that are still expired are on the list.
record AreListed (now : ℕ) (ids : List String) (hub : Hub) : Type 0 where
  pub at :
      (j : String) (c : Chat)
      → lookup j hub.chats ≡ some c
      → is_expired now c.room ≡ true
      → contains j ids ≡ true

scan-contains :
    (test : Room → Bool) (t : Table Chat) (j : String) (c : Chat)
    → lookup j t ≡ some c
    → test c.room ≡ true
    → contains j (scan test t) ≡ true
unfolding lookup scan
scan-contains test [] j c e h = cc
scan-contains test ((i, d) ∷ t) j c e h = elim (Bool-cases (i == j)) [
  | inl same ↦ first same (some-injective d c (sym (rw same refl) ∙ e))
  | inr other ↦ ground (arith, scan-contains test t j c)
]
  where
    first : (i == j) ≡ true → d ≡ c → contains j (scan test ((i, d) ∷ t)) ≡ true
    first same p =
        let hit : test d.room ≡ true = ap (λ (x : Chat). test x.room) p ∙ h in rw hit (rw same refl)

close_locked-shut :
    (reason : Option String) (now : ℕ) (c : Chat)
    → (r : (Bool × Room) × Chat) × (close_locked reason now c ≡ ok r) × (is_open r.1.room ≡ false)
unfolding close_locked apply_close close_if
close_locked-shut reason now c = elim (Bool-cases (is_open c.room)) [
  | inl live ↦
      let after = apply_close (get_or_else reason "owner") now c in
      (((true, after.room), after), rw live refl, refl)
  | inr shut ↦ (((false, c.room), c), rw shut refl, shut)
]

close_time-chats :
    (c : Chat) (id : String) (now : ℕ) (hub : Hub)
    → (close_room (some c) id (some "time") now hub).1.chats
      ≡ (with_room_lock id (close_locked (some "time") now) hub).1.chats
unfolding close_room with_existing_room
close_time-chats c id now hub = close_committed-chats id _ _

-- A stored room is closed after its own close.
close_time-closes :
    (id : String) (now : ℕ) (hub : Hub) (d : Chat)
    → lookup id (close_room (lookup id hub.chats) id (some "time") now hub).1.chats ≡ some d
    → is_open d.room ≡ false
unfolding with_room_lock commit locked close_room with_existing_room close_committed
close_time-closes id now hub d e = found (lookup id hub.chats) refl e
  where
    found :
        (o : Option Chat)
        → lookup id hub.chats ≡ o
        → lookup id (close_room o id (some "time") now hub).1.chats ≡ some d
        → is_open d.room ≡ false
    found none p q = cc (sym p ∙ q)
    found (some c) p q =
        let (r, ran, shut) = close_locked-shut (some "time") now c in
        let stored : lookup id (with_room_lock id (close_locked (some "time") now) hub).1.chats
            ≡ some r.1 =
          rw p (rw ran (rw (lookup-insert, ==-self id) refl)) in
        let same : r.1 ≡ d =
          some-injective r.1 d
            (sym stored ∙ sym (ap (lookup id) (close_time-chats c id now hub)) ∙ q) in
        rw (← same) shut

-- The close of one room leaves another as it was.
close_time-other :
    (id j : String) (now : ℕ) (hub : Hub)
    → id ≢ j
    → lookup j (close_room (lookup id hub.chats) id (some "time") now hub).1.chats
      ≡ lookup j hub.chats
unfolding close_room with_existing_room close_committed
close_time-other id j now hub other = found (lookup id hub.chats)
  where
    found :
        (o : Option Chat)
        → lookup j (close_room o id (some "time") now hub).1.chats ≡ lookup j hub.chats
    found none = refl
    found (some c) =
        ap (lookup j) (close_time-chats c id now hub)
        ∙ with_room_lock-other (close_locked (some "time") now) id j other hub

closed-AreListed :
    (now : ℕ) (id : String) (ids : List String) (hub : Hub)
    → AreListed now (id ∷ ids) hub
    → AreListed now ids (close_room (lookup id hub.chats) id (some "time") now hub).1
closed-AreListed now id ids hub h = record {
  at = λ j c found expired. elim (Bool-cases (id == j)) [
    | inl same ↦
        let here =
          subst
            (λ k.
              lookup k (close_room (lookup id hub.chats) id (some "time") now hub).1.chats ≡ some c)
            (sym ((eq_iff id j).0 same)) found in
        ground (arith, close_time-closes id now hub c here)
    | inr other ↦
        let apart : id ≢ j = λ p. ground (arith, eq_iff id j) in
        let listed = h.at j c (sym (close_time-other id j now hub apart) ∙ found) expired in
        ground arith
  ];
}

close_each-AreListed :
    (now : ℕ) (ids : List String) (hub : Hub)
    → AreListed now ids hub
    → AreListed now [] (close_each alone now ids hub).1
unfolding close_each
close_each-AreListed now [] hub h = h
close_each-AreListed now (id ∷ ids) hub h =
    close_each-AreListed now ids _ (closed-AreListed now id ids hub h)

-- After a cycle in which no other request runs, no stored room is open past its deadline.
pub close_expired_rooms-is_expired :
    (now : ℕ) (hub : Hub) (j : String) (c : Chat)
    → lookup j (close_expired_rooms alone now hub).1.chats ≡ some c
    → is_expired now c.room ≡ false
unfolding close_expired_rooms
close_expired_rooms-is_expired now hub j c e = elim (Bool-cases (is_expired now c.room)) [
  | inl late ↦
      let none_left = close_each-AreListed now (scan (is_expired now) hub.chats) hub (record {
        at = λ i d found expired. scan-contains (is_expired now) hub.chats i d found expired;
      }) in
      cc (none_left.at j c e late)
  | inr fine ↦ fine
]
