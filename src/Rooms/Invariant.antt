-- ===== src/Rooms/Invariant.antt =====
-- The well-formedness of a room with its rows, and how a new message keeps it.
use brainard.Prelude.{
  ℕ, suc, String, Bool, true, false, not, ◌&&◌, ◌≡◌, refl, none, List, [], ◌∷◌, ◌==◌, arith, length,
  leb, is_none, is_some,
}
use brainard.Prelude.Text.{is_empty}
use brainard.Model.{Room, RoomMessage, Chat, is_open}
use brainard.Rooms.Queries.{
  next_seq, add_message, system_message, announce, get_members, is_consensus_gated,
}
use brainard.Rooms.Messages.{
  Numbered, count_live, has_owner_message, max_seq-Numbered, Numbered-append, count_live-append,
  has_owner_message-append,
}

-- Two agents with names of their own.
abbrev pub is_pair_of_agents : List String → Bool
is_pair_of_agents [] = false
is_pair_of_agents (a ∷ []) = false
is_pair_of_agents (a ∷ b ∷ []) = not (a == b) && not (is_empty a) && not (is_empty b)
is_pair_of_agents (a ∷ b ∷ c ∷ ms) = false

-- A deferred duration waits only in a room that waits for its owner and has no deadline.
abbrev pub is_timer_waiting : Room → Bool
is_timer_waiting r = r.requires_owner_open && is_none r.opened_at && is_none r.expires_at

-- The transcript: numbered from 1 with no gap, and counted without the tombstones.
pub record IsCounted (c : Chat) : Type 0 where
  pub numbered : Numbered 1 c.messages
  pub counted : c.message_count ≡ count_live c.messages

-- The room's row: closed with an instant and a reason or neither, opened exactly when the owner has
-- posted, at most one of a deferred duration and a deadline, a consensus floor that can be reached.
pub record IsConsistent (r : Room) (has_owner : Bool) : Type 0 where
  pub closed_instant : is_some r.closed_at ≡ not (is_open r)
  pub closed_reason : is_some r.close_reason ≡ not (is_open r)
  pub opened : is_some r.opened_at ≡ has_owner
  pub timer : (is_some r.pending_duration_seconds && not (is_timer_waiting r)) ≡ false
  pub floor : (is_consensus_gated r.mode && leb r.max_messages r.consensus_floor) ≡ false

pub record IsSound (c : Chat) : Type 0 where
  pub transcript : IsCounted c
  pub row : IsConsistent c.room (has_owner_message c.messages)
  pub agents : is_pair_of_agents (get_members c) ≡ true

pub next_seq-IsCounted : (c : Chat) → IsCounted c → next_seq c ≡ suc (length c.messages)
unfolding next_seq
next_seq-IsCounted c h = omega (arith, max_seq-Numbered c.messages h.numbered)

-- A message with the next number, not deleted, keeps the transcript.
pub add_message-IsCounted :
    (c : Chat) (m : RoomMessage)
    → IsCounted c
    → m.seq ≡ next_seq c
    → m.deleted_at ≡ none
    → IsCounted (add_message c m)
unfolding add_message
add_message-IsCounted c m h e live = record {
  numbered = Numbered-append 1 c.messages m h.numbered (omega (arith, e, next_seq-IsCounted c h));
  counted = omega (arith, count_live-append c.messages m live, h.counted);
}

-- An announcement changes the transcript and the count alone.
pub announce-IsSound :
    (c : Chat) (text : String) (now : ℕ) (id : String)
    → IsSound c
    → IsSound (announce c text now id)
unfolding announce get_members
announce-IsSound c text now id h = record {
  transcript = add_message-IsCounted c (system_message c text now id) h.transcript refl refl;
  row = record {
    closed_instant = h.row.closed_instant;
    closed_reason = h.row.closed_reason;
    opened =
        ground
          (arith, h.row.opened, has_owner_message-append c.messages (system_message c text now id));
    timer = h.row.timer;
    floor = h.row.floor;
  };
  agents = h.agents;
}
