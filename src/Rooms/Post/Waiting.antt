-- ===== src/Rooms/Post/Waiting.antt =====
-- app/rooms.py, `post_message` and the reminder in a room that waits for its owner.
use brainard.Prelude.{
  ◌++◌, ◌∷◌, [], ◌∙◌, ap, is_none, if◌then◌else◌, ℕ, String, Bool, true, false, ◌≡◌, refl, Option,
  none, some, ◌==◌, arith, Bool-cases, inl, inr, contains, ==-self,
}
use brainard.Prelude.Text.{strip}
use brainard.Prelude.Table.{lookup, insert, lookup-insert}
use brainard.Errors.{Code, ok, raise}
use brainard.Model.{Notice, Chat, Hub, Principal, is_open}
use brainard.Rooms.Queries.{get_members, notify}
use brainard.Rooms.Reminder.{
  is_not_opened, is_reminder_due, remind_owner, maybe_ping_owner_room_not_opened,
}
use brainard.Rooms.Post.{
  check_post_fields, post_precheck, precheck_room, precheck_sender, parked, post_checked,
  post_message,
}

lookup-inserted : (id : String) (c : Chat) (hub : Hub) → lookup id (insert id c hub.chats) ≡ some c
lookup-inserted id c hub = rw (lookup-insert, ==-self id)

abbrev pub reminded : ℕ → Chat → Chat
reminded t c = record c { room = record c.room { owner_open_reminder_sent_at = some t } }

reminded-is_spent : (t : ℕ) (c : Chat) → is_reminder_due (reminded t c).room ≡ false
unfolding is_reminder_due
reminded-is_spent t c = ground arith

remind_owner-once :
    (id : String) (a b : Option String) (t u : ℕ) (hub : Hub) (c : Chat)
    → lookup id hub.chats ≡ some c
    → let pinged = remind_owner id a t hub c in
      maybe_ping_owner_room_not_opened id b u pinged ≡ pinged
unfolding remind_owner maybe_ping_owner_room_not_opened notify
remind_owner-once id a b t u hub c e = elim (Bool-cases (is_reminder_due c.room)) [
  | inl due ↦ rw due (
      rw (lookup-inserted id (reminded t c) hub, maybe_ping_owner_room_not_opened)
        (rw (reminded-is_spent t c) refl))
  | inr spent ↦ rw spent (rw (e, maybe_ping_owner_room_not_opened) (rw spent refl))
]

pinged-none :
    (id : String) (n : Option String) (v : ℕ) (hub : Hub)
    → lookup id hub.chats ≡ none
    → maybe_ping_owner_room_not_opened id n v hub ≡ hub
unfolding maybe_ping_owner_room_not_opened
pinged-none id n v hub e = rw (e, maybe_ping_owner_room_not_opened) refl

pinged-some :
    (id : String) (n : Option String) (v : ℕ) (hub : Hub) (c : Chat)
    → lookup id hub.chats ≡ some c
    → maybe_ping_owner_room_not_opened id n v hub ≡ remind_owner id n v hub c
unfolding maybe_ping_owner_room_not_opened
pinged-some id n v hub c e = rw (e, maybe_ping_owner_room_not_opened) refl

maybe_ping_owner_room_not_opened-once :
    (id : String) (a b : Option String) (t u : ℕ) (hub : Hub)
    → let pinged = maybe_ping_owner_room_not_opened id a t hub in
      maybe_ping_owner_room_not_opened id b u pinged ≡ pinged
maybe_ping_owner_room_not_opened-once id a b t u hub = found (lookup id hub.chats) refl
  where
    found :
        (o : Option Chat)
        → lookup id hub.chats ≡ o
        → let pinged = maybe_ping_owner_room_not_opened id a t hub in
          maybe_ping_owner_room_not_opened id b u pinged ≡ pinged
    found none e = rw (pinged-none id a t hub e) (pinged-none id b u hub e)
    found (some c) e = rw (pinged-some id a t hub c e) (remind_owner-once id a b t u hub c e)

post_precheck-parked :
    (c : Chat) (sender text kind : String) (principal : Principal)
    → check_post_fields sender text kind ≡ ok tt
    → is_open c.room ≡ true
    → is_not_opened c.room ≡ true
    → (strip sender == "owner") ≡ false
    → post_precheck (some c) sender text kind principal
      ≡ parked (contains (strip sender) (get_members c))
unfolding post_precheck precheck_room precheck_sender
post_precheck-parked c sender text kind principal fields live waiting agent =
    rw (fields, post_precheck) (rw (live, agent, waiting) refl)

-- The hub after the first parked post of a member: where no reminder was sent yet, the room is marked
-- with the instant and the owner gets one notice, with the member's name; else nothing changes.
abbrev pub after_reminder : String → String → ℕ → Chat → Hub → Hub
after_reminder room_id agent now c hub = elim c.room.owner_open_reminder_sent_at [
  | some sent ↦ hub
  | none ↦ record hub {
    chats = insert room_id (reminded now c) hub.chats;
    outbox = hub.outbox ++ (Notice.owner_open_pending room_id (some agent) ∷ []);
  }
]

remind_owner-after_reminder :
    (room_id agent : String) (now : ℕ) (c : Chat) (hub : Hub)
    → is_open c.room ≡ true
    → is_not_opened c.room ≡ true
    → remind_owner room_id (some agent) now hub c ≡ after_reminder room_id agent now c hub
unfolding remind_owner notify
remind_owner-after_reminder room_id agent now c hub live waiting =
    ap (λ b. if b then pinged else hub) due ∙ by_mark c.room.owner_open_reminder_sent_at
  where
    pinged : Hub
    pinged = record hub {
      chats = insert room_id (reminded now c) hub.chats;
      outbox = hub.outbox ++ (Notice.owner_open_pending room_id (some agent) ∷ []);
    }

    due : is_reminder_due c.room ≡ is_none c.room.owner_open_reminder_sent_at
    due = unfold is_reminder_due in ground (arith, live, waiting)

    by_mark :
        (o : Option ℕ)
        → (if is_none o then pinged else hub) ≡ (elim o [ some sent ↦ hub | none ↦ pinged ])
    by_mark none = refl
    by_mark (some sent) = refl

-- In an open room that waits for its owner, a well-formed post that is not the owner's is rejected
-- with 403 `room_not_opened`. The first of a member's, whose unlocked read saw the room that is stored,
-- reminds the owner with one notice, unless a reminder was sent before; the next one, of whichever
-- agent and at whatever instant, whose unlocked read saw an open room that waits, is rejected the
-- same and changes nothing.
pub post_message-waits :
    (c seen : Chat) (room_id s1 t1 k1 s2 t2 k2 id1 id2 : String) (p1 p2 : Principal) (now later : ℕ)
    (hub : Hub)
    → is_open c.room ≡ true
    → is_not_opened c.room ≡ true
    → is_open seen.room ≡ true
    → is_not_opened seen.room ≡ true
    → check_post_fields s1 t1 k1 ≡ ok tt
    → check_post_fields s2 t2 k2 ≡ ok tt
    → (strip s1 == "owner") ≡ false
    → (strip s2 == "owner") ≡ false
    → contains (strip s1) (get_members c) ≡ true
    → lookup room_id hub.chats ≡ some c
    → let first = post_message (some c) room_id s1 t1 k1 p1 now id1 hub in
      let second = post_message (some seen) room_id s2 t2 k2 p2 later id2 first.1 in
      (first.0 ≡ raise 403 Code.room_not_opened)
      × (second.0 ≡ raise 403 Code.room_not_opened)
      × (first.1 ≡ after_reminder room_id (strip s1) now c hub)
      × (second.1 ≡ first.1)
unfolding post_message post_checked
post_message-waits c seen room_id s1 t1 k1 s2 t2 k2 id1 id2 p1 p2 now later hub live waiting live'
      waiting' f1 f2 a1 a2 known stored =
    rw (post_precheck-parked c s1 t1 k1 p1 f1 live waiting a1, post_message)
      (rw (post_precheck-parked seen s2 t2 k2 p2 f2 live' waiting' a2, post_message)
        (rw known (second_parked (contains (strip s2) (get_members seen)))))
  where
    first_parked :
        maybe_ping_owner_room_not_opened room_id (some (strip s1)) now hub
        ≡ after_reminder room_id (strip s1) now c hub
    first_parked =
        pinged-some room_id (some (strip s1)) now hub c stored
        ∙ remind_owner-after_reminder room_id (strip s1) now c hub live waiting

    second_parked :
        (b : Bool)
        → let hub' = maybe_ping_owner_room_not_opened room_id (some (strip s1)) now hub in
          ((post_checked room_id s1 t1 k1 p1 now id1 hub (parked true)).0
            ≡ raise 403 Code.room_not_opened)
          × ((post_checked room_id s2 t2 k2 p2 later id2 hub' (parked b)).0
              ≡ raise 403 Code.room_not_opened)
          × (hub' ≡ after_reminder room_id (strip s1) now c hub)
          × ((post_checked room_id s2 t2 k2 p2 later id2 hub' (parked b)).1 ≡ hub')
    second_parked true = (
      refl,
      refl,
      first_parked,
      maybe_ping_owner_room_not_opened-once room_id (some (strip s1)) (some (strip s2)) now later
          hub,
    )
    second_parked false = (refl, refl, first_parked, refl)
