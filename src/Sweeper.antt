-- ===== src/Sweeper.antt =====
-- app/room_sweeper.py: one cycle of the background sweeper. What the other requests do between its
-- short transactions is an argument.
pub mod Expired
use brainard.Prelude.{
  ℕ, suc, ◌+◌, String, Bool, true, false, ◌&&◌, Option, none, some, List, [], ◌∷◌, ◌==◌, leb,
  is_none, if◌then◌else◌,
}
use brainard.Prelude.Table.{Table, lookup}
use brainard.Errors.{Result, ok, err}
use brainard.Model.{Room, RoomMessage, Chat, Hub, is_open, seconds}
use brainard.Rooms.Close.{close_room, post_closing_nudge}

abbrev pub warn_seconds : ℕ
warn_seconds = 120

abbrev pub closing_nudge_text : String
closing_nudge_text = "About 2 minutes left — post your closing statements now."

-- `expires_at IS NOT NULL AND expires_at <= t`
abbrev pub is_due_by : ℕ → Room → Bool
is_due_by t r = elim r.expires_at [ none ↦ false | some e ↦ leb e t ]

-- The ids of the rooms that satisfy a condition.
unfoldable pub scan : (Room → Bool) → Table Chat → List String
scan test [] = []
scan test ((id, c) ∷ t) = let rest = scan test t in if test c.room then id ∷ rest else rest

abbrev pub is_expired : ℕ → Room → Bool
is_expired now r = is_open r && is_due_by now r

abbrev pub is_closing_soon : ℕ → Room → Bool
is_closing_soon now r =
    is_open r && is_none r.closing_warned_at && is_due_by (now + seconds warn_seconds) r

-- `room.close_reason == "time"` of what `close_room` returned.
abbrev is_time_closed : Result Room → Bool
is_time_closed (err e) = false
is_time_closed (ok r) = elim r.close_reason [ none ↦ false | some reason ↦ reason == "time" ]

-- The close of each room in turn, each after the interference of the others; a rejection skips
-- its room alone.
unfoldable pub close_each : (String → Hub → Hub) → ℕ → List String → Hub → List String × Hub
close_each others now [] hub = ([], hub)
close_each others now (id ∷ ids) hub =
    let before = others id hub in
    let (r, after) = close_room (lookup id before.chats) id (some "time") now before in
    let (closed, hub') = close_each others now ids after in
    (if is_time_closed r then id ∷ closed else closed, hub')

-- `_close_expired_rooms`
unfoldable pub close_expired_rooms : (String → Hub → Hub) → ℕ → Hub → List String × Hub
unfolding close_each scan
close_expired_rooms others now hub = close_each others now (scan (is_expired now) hub.chats) hub

unfoldable pub warn_each :
    (String → Hub → Hub) → (String → String) → ℕ → List String → Hub → List String × Hub
warn_each others new_id now [] hub = ([], hub)
warn_each others new_id now (id ∷ ids) hub =
    let (m, after) = post_closing_nudge id closing_nudge_text now (new_id id) (others id hub) in
    let (warned, hub') = warn_each others new_id now ids after in
    (if is_none m then warned else id ∷ warned, hub')

-- `_warn_closing_rooms`
unfoldable pub warn_closing_rooms :
    (String → Hub → Hub) → (String → String) → ℕ → Hub → List String × Hub
unfolding warn_each scan
warn_closing_rooms others new_id now hub =
    warn_each others new_id now (scan (is_closing_soon now) hub.chats) hub
