-- ===== src/Rooms/Poll/Answers.antt =====
-- app/rooms.py, `poll_messages`: what a poll answers, and when.
use mathlib.Core.Path.{subst}
use brainard.Prelude.{
  ℕ, zero, suc, ◌+◌, ◌<◌, arith, min, String, ◌≡◌, refl, Option, none, some, leb,
}
use brainard.Errors.{Code, Result, ok, err}
use brainard.Model.{Hub, Principal}
use brainard.Rooms.Poll.{
  Iteration, gone, replied, asleep, World, PollReply, poll_iteration, poll_loop, poll_messages,
  max_wait_secs, maybe_refresh_working_marker,
}
use brainard.Rooms.Poll.Replies.{Replies, iteration-Replies}

-- The hub in which the iteration begins that comes `k` iterations after `i`, where `hub` is the one in
-- which `i` begins.
unfoldable pub begins : World → String → ℕ → Option String → ℕ → ℕ → ℕ → Hub → Hub
begins w room_id since agent_name deadline i zero hub = hub
begins w room_id since agent_name deadline i (suc k) hub =
    begins w room_id since agent_name deadline (suc i) k
      (poll_iteration room_id since agent_name (w.now i) (leb deadline (w.monotonic i)) (w.others i)
        hub).1

-- What iteration `n`, which begins in `hub`, reads and answers satisfies `Replies`.
abbrev pub RepliesIn : World → String → ℕ → ℕ → ℕ → Hub → Iteration → Type 0
RepliesIn w room_id since deadline n hub it =
    Replies room_id since (leb deadline (w.monotonic n)) (w.others n 0 hub)
      (w.others n 1 (w.others n 0 hub)) it

-- The same of the iteration that comes `k` iterations after `i`.
abbrev pub RepliesAt : World → String → ℕ → Option String → ℕ → ℕ → Hub → ℕ → Iteration → Type 0
RepliesAt w room_id since agent_name deadline i hub k it =
    RepliesIn w room_id since deadline (i + k) (begins w room_id since agent_name deadline i k hub)
      it

-- The iteration that ends the poll: every one before it had no reason to answer.
pub record EndsWith (w : World) (room_id : String) (since : ℕ) (agent_name : Option String)
    (deadline i : ℕ) (hub : Hub) (it : Iteration) : Type 0 where
  pub round : ℕ
  pub quiet : (k : ℕ) → k < round → RepliesAt w room_id since agent_name deadline i hub k asleep
  pub last : RepliesAt w room_id since agent_name deadline i hub round it

abbrev pub Answers :
    World → String → ℕ → Option String → ℕ → ℕ → Hub → Option (Result PollReply × Hub) → Type 0
Answers w room_id since agent_name deadline i hub none = Unit
Answers w room_id since agent_name deadline i hub (some (err e, after)) =
    (e ≡ record { status_code = 404; code = Code.room_not_found })
    × EndsWith w room_id since agent_name deadline i hub gone
Answers w room_id since agent_name deadline i hub (some (ok r, after)) =
    EndsWith w room_id since agent_name deadline i hub (replied r)

module _ (w : World) (room_id : String) (since : ℕ) (agent_name : Option String)
    (deadline : ℕ) where
  next_hub : ℕ → Hub → Hub
  next_hub i hub =
      (poll_iteration room_id since agent_name (w.now i) (leb deadline (w.monotonic i)) (w.others i)
        hub).1

  RepliesAt-zero :
      (i : ℕ) (hub : Hub) (it : Iteration)
      → RepliesIn w room_id since deadline i hub it
      → RepliesAt w room_id since agent_name deadline i hub zero it
  unfolding begins
  RepliesAt-zero i hub it h =
      subst (λ n. RepliesIn w room_id since deadline n hub it) (omega arith) h

  RepliesAt-suc :
      (i k : ℕ) (hub : Hub) (it : Iteration)
      → RepliesAt w room_id since agent_name deadline (suc i) (next_hub i hub) k it
      → RepliesAt w room_id since agent_name deadline i hub (suc k) it
  unfolding begins next_hub
  RepliesAt-suc i k hub it h =
      subst
        (λ n.
          RepliesIn w room_id since deadline n
            (begins w room_id since agent_name deadline (suc i) k (next_hub i hub)) it)
        (omega arith) h

  EndsWith-later :
      (i : ℕ) (hub : Hub) (it : Iteration)
      → RepliesIn w room_id since deadline i hub asleep
      → EndsWith w room_id since agent_name deadline (suc i) (next_hub i hub) it
      → EndsWith w room_id since agent_name deadline i hub it
  EndsWith-later i hub it first rest = record {
    round = suc rest.round;
    quiet = quiet;
    last = RepliesAt-suc i rest.round hub it rest.last;
  }
    where
      quiet :
          (k : ℕ)
          → k < suc rest.round
          → RepliesAt w room_id since agent_name deadline i hub k asleep
      quiet zero n = RepliesAt-zero i hub asleep first
      quiet (suc k) n = RepliesAt-suc i k hub asleep (rest.quiet k (omega arith))

  EndsWith-now :
      (i : ℕ) (hub : Hub) (it : Iteration)
      → RepliesIn w room_id since deadline i hub it
      → EndsWith w room_id since agent_name deadline i hub it
  EndsWith-now i hub it h = record {
    round = zero;
    quiet = λ k n. elim n [ ];
    last = RepliesAt-zero i hub it h;
  }

  Answers-later :
      (i : ℕ) (hub : Hub) (r : Option (Result PollReply × Hub))
      → RepliesIn w room_id since deadline i hub asleep
      → Answers w room_id since agent_name deadline (suc i) (next_hub i hub) r
      → Answers w room_id since agent_name deadline i hub r
  Answers-later i hub none first rest = tt
  Answers-later i hub (some (err e, after)) first rest =
      (rest.0, EndsWith-later i hub gone first rest.1)
  Answers-later i hub (some (ok r, after)) first rest = EndsWith-later i hub (replied r) first rest

  poll_loop-Answers :
      (rounds i : ℕ) (hub : Hub)
      → Answers w room_id since agent_name deadline i hub
          (poll_loop w room_id since agent_name deadline rounds i hub)
  unfolding poll_loop next_hub
  poll_loop-Answers zero i hub = tt
  poll_loop-Answers (suc rounds) i hub =
      step
        (poll_iteration room_id since agent_name (w.now i) (leb deadline (w.monotonic i))
          (w.others i) hub).0
        refl
        (iteration-Replies room_id since agent_name (w.now i) (leb deadline (w.monotonic i))
          (w.others i) hub)
        (poll_loop-Answers rounds (suc i) (next_hub i hub))
    where
      step :
          (it : Iteration)
          → (poll_iteration room_id since agent_name
              (w.now i)
              (leb deadline (w.monotonic i))
              (w.others i)
              hub).0
            ≡ it
          → RepliesIn w room_id since deadline i hub
              (poll_iteration room_id since agent_name
                (w.now i)
                (leb deadline (w.monotonic i))
                (w.others i)
                hub).0
          → Answers w room_id since agent_name deadline
              (suc i)
              (next_hub i hub)
              (poll_loop w room_id since agent_name deadline rounds (suc i) (next_hub i hub))
          → Answers w room_id since agent_name deadline i hub
              (poll_loop w room_id since agent_name deadline (suc rounds) i hub)
      step gone e h rest =
          rw (e, Answers, poll_loop)
            (refl, EndsWith-now i hub gone (subst (RepliesIn w room_id since deadline i hub) e h))
      step (replied r) e h rest =
          rw (e, Answers, poll_loop)
            (EndsWith-now i hub (replied r) (subst (RepliesIn w room_id since deadline i hub) e h))
      step asleep e h rest =
          rw (e, Answers, poll_loop)
            (Answers-later i hub
              (poll_loop w room_id since agent_name deadline rounds (suc i) (next_hub i hub))
              (subst (RepliesIn w room_id since deadline i hub) e h) rest)

-- A poll answers at the first iteration that has a reason to. Before it, each iteration found the
-- room open and begun, no message above `since` and the deadline not reached. It answers with the
-- room as that iteration's first statement read it and exactly the messages above `since` as its
-- second one did, where the room waits for its owner, is closed, has such messages or the deadline
-- has passed; it fails only with 404, when the room is gone.
pub poll_messages-Answers :
    (w : World) (rounds : ℕ) (room_id : String) (since wait : ℕ) (agent_name : Option String)
    (principal : Option Principal) (start : ℕ) (hub : Hub)
    → Answers w room_id since agent_name
        (start + min wait max_wait_secs)
        0
        (maybe_refresh_working_marker room_id agent_name principal (w.now 0) hub)
        (poll_messages w rounds room_id since wait agent_name principal start hub)
unfolding poll_messages
poll_messages-Answers w rounds room_id since wait agent_name principal start hub =
    poll_loop-Answers w room_id since agent_name (start + min wait max_wait_secs) rounds 0 _
