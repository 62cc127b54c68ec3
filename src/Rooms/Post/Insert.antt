-- ===== src/Rooms/Post/Insert.antt =====
-- app/rooms.py, `_insert_message_and_maybe_close` and the retry loop round it.
use brainard.Prelude.{ap, ℕ, String, true, false, not, ◌≡◌, refl, Option, some, arith}
use brainard.Rooms.Seats.Binding.{SameButSeats, check_and_bind_seat-SameButSeats}
use brainard.Errors.{
  ◌>>◌, OnOk, OnOk-eq, OnOk-bind, OnOk-raise_if, Code, Result, ok, err, ◌>>=◌, raise_if,
}
use brainard.Model.{Room, RoomMessage, Chat, Principal, is_open}
use brainard.Rooms.Queries.{next_seq, has_seq, add_message}
use brainard.Rooms.Messages.{count_live, has_seq-Numbered}
use brainard.Rooms.Invariant.{IsCounted, next_seq-IsCounted}
use brainard.Rooms.Seats.{check_and_bind_seat}
use brainard.Rooms.Consensus.{check_close_as_agreed_gate}
use brainard.Rooms.Post.{
  max_insert_attempts, guardrail, close_by_guardrail, posted, open_by_owner, insert_opened,
  insert_attempts, insert_message_and_maybe_close, post_locked,
}

-- The room after the owner's opening, with the seat bound.
abbrev pub opened_chat : String → ℕ → Chat → Chat
opened_chat sender now c = record c { room = open_by_owner sender now c.room }

-- The room after the message counts, before the guardrail.
abbrev pub counted_chat : String → String → String → ℕ → String → Chat → Chat
counted_chat sender text kind now id c = add_message c (posted sender text kind now id c)

-- The message, the reason of a close and the room after both.
abbrev pub inserted :
    String → String → String → ℕ → String → Chat → (RoomMessage × Option String) × Chat
inserted sender text kind now id c =
    let after = counted_chat sender text kind now id c in
    (
      (posted sender text kind now id c, guardrail kind after.room),
      close_by_guardrail kind now after,
    )

next_seq-is_free : (c : Chat) → IsCounted c → has_seq (next_seq c) c.messages ≡ false
next_seq-is_free c h =
    has_seq-Numbered 1 (next_seq c) c.messages h.numbered (omega (arith, next_seq-IsCounted c h))

pub insert_opened-IsCounted :
    (sender text kind : String) (now : ℕ) (id : String) (c : Chat)
    → IsCounted c
    → insert_opened sender text kind now id c ≡ some (inserted sender text kind now id c)
unfolding insert_opened posted
insert_opened-IsCounted sender text kind now id c h = rw (next_seq-is_free c h)

pub opened_chat-IsCounted :
    (sender : String) (now : ℕ) (c b : Chat)
    → IsCounted c
    → SameButSeats c b
    → IsCounted (opened_chat sender now b)
unfolding open_by_owner
opened_chat-IsCounted sender now c b h same = record {
  numbered = rw same.messages h.numbered;
  counted =
      ground (
        arith,
        h.counted,
        ap (λ (r : Room). r.message_count) same.room,
        ap count_live same.messages,
      );
}

attempts-IsCounted :
    (sender text kind : String) (now : ℕ) (id : String) (r : Result Chat)
    → ((b : Chat) → r ≡ ok b → IsCounted (opened_chat sender now b))
    → insert_attempts max_insert_attempts
        (r >>= λ b. ok (insert_opened sender text kind now id (opened_chat sender now b)))
      ≡ (r >>= λ b. ok (inserted sender text kind now id (opened_chat sender now b)))
unfolding insert_attempts
attempts-IsCounted sender text kind now id (ok b) h =
    rw (insert_opened-IsCounted sender text kind now id (opened_chat sender now b) (h b refl))
attempts-IsCounted sender text kind now id (err e) h = refl

-- In a room whose transcript is well formed the insert never meets a number that is taken, so the
-- post is its first attempt: the open check, the gate, the seat check and the insert.
pub post_locked-IsCounted :
    (sender text kind : String) (now : ℕ) (principal : Principal) (id : String) (c : Chat)
    → IsCounted c
    → post_locked sender text kind now principal id c ≡ (
        raise_if (not (is_open c.room)) 409 Code.room_closed
        >> (check_close_as_agreed_gate c sender kind
            >> (check_and_bind_seat c sender principal >>= λ b.
                ok (inserted sender text kind now id (opened_chat sender now b)))))
unfolding post_locked insert_message_and_maybe_close
post_locked-IsCounted sender text kind now principal id c h =
    ap
      (λ r.
        raise_if (not (is_open c.room)) 409 Code.room_closed
        >> (check_close_as_agreed_gate c sender kind >> r))
      (attempts-IsCounted sender text kind now id (check_and_bind_seat c sender principal) (λ b e.
        opened_chat-IsCounted sender now c b h (
          OnOk-eq (SameButSeats c) (check_and_bind_seat c sender principal)
            (check_and_bind_seat-SameButSeats c sender principal) e)))

-- A post that is accepted found the room open, passed the gate and the seat check, and did the
-- insert.
pub post_locked-OnOk {κ} :
    (P : (RoomMessage × Option String) × Chat → Type κ) (sender text kind : String) (now : ℕ)
    (principal : Principal) (id : String) (c : Chat)
    → IsCounted c
    → ((b : Chat)
        → is_open c.room ≡ true
        → check_close_as_agreed_gate c sender kind ≡ ok tt
        → check_and_bind_seat c sender principal ≡ ok b
        → P (inserted sender text kind now id (opened_chat sender now b)))
    → OnOk P (post_locked sender text kind now principal id c)
post_locked-OnOk P sender text kind now principal id c h step =
    rw (post_locked-IsCounted sender text kind now principal id c h) (
      OnOk-raise_if P (not (is_open c.room)) 409 Code.room_closed
        (check_close_as_agreed_gate c sender kind
          >> (check_and_bind_seat c sender principal >>= λ b.
              ok (inserted sender text kind now id (opened_chat sender now b))))
        λ live.
          OnOk-bind P (check_close_as_agreed_gate c sender kind)
            (λ _. check_and_bind_seat c sender principal >>= λ b.
              ok (inserted sender text kind now id (opened_chat sender now b)))
            λ u gate.
              OnOk-bind P (check_and_bind_seat c sender principal)
                (λ b. ok (inserted sender text kind now id (opened_chat sender now b)))
                λ b seat. step b (ground arith) (ground arith) seat)
