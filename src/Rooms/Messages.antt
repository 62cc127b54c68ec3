-- ===== src/Rooms/Messages.antt =====
-- The transcript of a room: its numbering and its live messages.
use brainard.Prelude.{
  ℕ, suc, ◌+◌, ◌≤◌, max, Bool, false, ◌||◌, ◌≡◌, refl, none, List, [], ◌∷◌, ◌++◌, ◌==◌, arith,
  length, any, is_none, if◌then◌else◌,
}
use brainard.Model.{RoomMessage}
use brainard.Rooms.Queries.{max_seq, has_seq}

-- The sequence numbers count up by one, from `n`.
abbrev pub Numbered : ℕ → List RoomMessage → Type 0
Numbered n [] = Unit
Numbered n (m ∷ ms) = (m.seq ≡ n) × Numbered (suc n) ms

-- The messages that are not tombstones.
abbrev pub count_live : List RoomMessage → ℕ
count_live [] = 0
count_live (m ∷ ms) = if is_none m.deleted_at then suc (count_live ms) else count_live ms

-- Whether the owner has posted, in a message since deleted or not.
abbrev pub has_owner_message : List RoomMessage → Bool
has_owner_message ms = any (λ m. m.sender == "owner") ms

max_seq-Numbered_from :
    (k : ℕ) (ms : List RoomMessage) → Numbered (suc k) ms → max k (max_seq ms) ≡ k + length ms
unfolding max_seq
max_seq-Numbered_from k [] h = omega arith
max_seq-Numbered_from k (m ∷ ms) h = omega (arith, h.0, max_seq-Numbered_from (suc k) ms h.1)

pub max_seq-Numbered : (ms : List RoomMessage) → Numbered 1 ms → max_seq ms ≡ length ms
max_seq-Numbered ms h = omega (arith, max_seq-Numbered_from 0 ms h)

pub has_seq-Numbered :
    (k n : ℕ) (ms : List RoomMessage) → Numbered k ms → k + length ms ≤ n → has_seq n ms ≡ false
unfolding has_seq
has_seq-Numbered k n [] h le = refl
has_seq-Numbered k n (m ∷ ms) h le = ground (arith, has_seq-Numbered (suc k) n ms h.1)

pub Numbered-append :
    (k : ℕ) (ms : List RoomMessage) (m : RoomMessage)
    → Numbered k ms
    → m.seq ≡ k + length ms
    → Numbered k (ms ++ m ∷ [])
Numbered-append k [] m h e = (omega arith, tt)
Numbered-append k (x ∷ ms) m h e = (h.0, Numbered-append (suc k) ms m h.1 (omega arith))

pub count_live-append :
    (ms : List RoomMessage) (m : RoomMessage)
    → m.deleted_at ≡ none
    → count_live (ms ++ m ∷ []) ≡ count_live ms + 1
count_live-append [] m e = ground arith
count_live-append (x ∷ ms) m e = ground (arith, count_live-append ms m e)

pub has_owner_message-append :
    (ms : List RoomMessage) (m : RoomMessage)
    → has_owner_message (ms ++ m ∷ []) ≡ (has_owner_message ms || (m.sender == "owner"))
has_owner_message-append [] m = ground arith
has_owner_message-append (x ∷ ms) m = ground (arith, has_owner_message-append ms m)
