-- ===== src/Rooms/Poll/Ends.antt =====
-- app/rooms.py, the loop of `poll_messages` and its deadline.
use brainard.Prelude.{
  ℕ, zero, suc, ◌+◌, ◌-◌, sym, ◌≤◌, ◌<◌, min, String, Bool, true, false, ◌≡◌, refl, ap, ◌∙◌, Option,
  none, some, arith, is_some, leb, Bool-cases, inl, inr,
}
use brainard.Prelude.Table.{lookup}
use brainard.Model.{Chat, Hub, Principal}
use brainard.Rooms.Poll.{
  Iteration, gone, replied, asleep, World, PollView, poll_view, poll_found, poll_iteration,
  poll_loop, poll_messages, max_wait_secs, room_and_messages_since, messages_in, members_in,
}

abbrev pub is_asleep : Iteration → Bool
is_asleep gone = false
is_asleep (replied r) = false
is_asleep asleep = true

poll_view-past :
    (room_id : String) (agent_name : Option String) (now : ℕ) (hub : Hub) (v : PollView)
    → is_asleep (poll_view room_id agent_name now true hub v).0 ≡ false
unfolding poll_view
poll_view-past room_id agent_name now hub v = ground arith

poll_iteration-past :
    (room_id : String) (since : ℕ) (agent_name : Option String) (now : ℕ) (others : ℕ → Hub → Hub)
    (hub : Hub)
    → is_asleep (poll_iteration room_id since agent_name now true others hub).0 ≡ false
unfolding poll_iteration poll_found
poll_iteration-past room_id since agent_name now others hub =
    found (lookup room_id (others 0 hub).chats)
  where
    found :
        (o : Option Chat)
        → is_asleep (poll_found room_id since agent_name now true others (others 0 hub) o).0 ≡ false
    found none = refl
    found (some c) =
        let at_messages = others 1 (others 0 hub) in
        let at_members = others 2 at_messages in
        let at_latest = others 3 at_members in
        poll_view-past room_id agent_name now (others 4 at_latest) (
          room_and_messages_since since agent_name now c.room (messages_in room_id at_messages)
            (members_in room_id at_members) (messages_in room_id at_latest))

module _ (w : World) (ticks : (i : ℕ) → w.monotonic i < w.monotonic (suc i)) (room_id : String)
    (since : ℕ) (agent_name : Option String) (deadline : ℕ) where
  pub poll_loop-ends :
      (rounds k i : ℕ) (hub : Hub)
      → deadline ≤ w.monotonic i + k
      → k < rounds
      → is_some (poll_loop w room_id since agent_name deadline rounds i hub) ≡ true
  unfolding poll_loop
  poll_loop-ends zero k i hub near few = elim few [ ]
  poll_loop-ends (suc rounds) k i hub near few =
      slept
        (poll_iteration room_id since agent_name (w.now i) (leb deadline (w.monotonic i))
          (w.others i) hub).0
        refl
        (λ early.
          poll_loop-ends rounds (k - 1) (suc i)
            (poll_iteration room_id since agent_name (w.now i) (leb deadline (w.monotonic i))
              (w.others i) hub).1
            (ground (arith, ticks i)) (ground arith))
    where
      asleep_past :
          leb deadline (w.monotonic i) ≡ true
          → is_asleep
              (poll_iteration room_id since agent_name
                (w.now i)
                (leb deadline (w.monotonic i))
                (w.others i)
                hub).0
            ≡ false
      asleep_past past =
          rw past (poll_iteration-past room_id since agent_name (w.now i) (w.others i) hub)

      slept :
          (it : Iteration)
          → (poll_iteration room_id since agent_name
              (w.now i)
              (leb deadline (w.monotonic i))
              (w.others i)
              hub).0
            ≡ it
          → (leb deadline (w.monotonic i) ≡ false
              → is_some (
                  poll_loop w room_id since agent_name deadline rounds
                    (suc i)
                    (poll_iteration room_id since agent_name
                      (w.now i)
                      (leb deadline (w.monotonic i))
                      (w.others i)
                      hub).1)
                ≡ true)
          → is_some (poll_loop w room_id since agent_name deadline (suc rounds) i hub) ≡ true
      slept gone e next = rw (e, is_some, poll_loop) refl
      slept (replied r) e next = rw (e, is_some, poll_loop) refl
      slept asleep e next = elim (Bool-cases (leb deadline (w.monotonic i))) [
        | inl past ↦ cc (sym (ap is_asleep e) ∙ asleep_past past)
        | inr early ↦ rw (e, is_some, poll_loop) (next early)
      ]

-- A poll answers within 121 iterations: the monotonic clock advances between two of them, and the
-- wait is capped at 120 seconds, whatever `wait` asks for and whatever the other requests do.
pub poll_messages-ends :
    (w : World) (room_id : String) (since wait : ℕ) (agent_name : Option String)
    (principal : Option Principal) (start : ℕ) (hub : Hub)
    → ((i : ℕ) → w.monotonic i < w.monotonic (suc i))
    → start ≤ w.monotonic 0
    → is_some (poll_messages w 121 room_id since wait agent_name principal start hub) ≡ true
unfolding poll_messages
poll_messages-ends w room_id since wait agent_name principal start hub ticks begun =
    poll_loop-ends w ticks room_id since agent_name (start + min wait max_wait_secs) 121 120 0 _
      (omega arith) (omega arith)
