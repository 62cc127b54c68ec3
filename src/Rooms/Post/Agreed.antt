-- ===== src/Rooms/Post/Agreed.antt =====
-- app/rooms.py, `_check_close_as_agreed_gate`: an agent's "done" in a debate or a critique.
use brainard.Prelude.{
  ℕ, String, Bool, true, not, ◌&&◌, ◌≡◌, ◌≢◌, refl, some, List, [], ◌∷◌, map, ◌==◌, arith, leb, all,
  is_nil, ==-ne,
}
use brainard.Errors.{Code, ok, raise_if, OnOk}
use brainard.Model.{Room, Chat, Principal, closed}
use brainard.Rooms.Queries.{get_members, is_consensus_gated}
use brainard.Rooms.Invariant.{IsCounted}
use brainard.Rooms.Consensus.{
  has_objected, get_consensus_gate_status, missing_objectors, check_gate_status,
  check_close_as_agreed_gate,
}
use brainard.Rooms.Post.{guardrail, close_if, close_by_guardrail, post_locked}
use brainard.Rooms.Post.Insert.{post_locked-OnOk}

-- The floor is reached and every member is on record with an objection.
unfoldable pub is_agreed : Chat → Bool
is_agreed c = leb c.consensus_floor c.message_count && all (has_objected c.messages) (get_members c)

missing_objectors-nil :
    (f : String → Bool) (ms : List String)
    → is_nil (missing_objectors (map (λ m. (m, f m)) ms)) ≡ all f ms
unfolding missing_objectors
missing_objectors-nil f [] = refl
missing_objectors-nil f (m ∷ ms) = ground (arith, missing_objectors-nil f ms)

-- The gate refuses exactly the "done" of a sender other than the owner, in a gated mode, while the
-- floor is not reached or a member has no objection on record.
pub check_close_as_agreed_gate_lem :
    (c : Chat) (sender kind : String)
    → check_close_as_agreed_gate c sender kind
      ≡ raise_if
          (kind == "done"
            && not (sender == "owner")
            && is_consensus_gated c.mode
            && not (is_agreed c))
          409
          Code.close_as_agreed_not_permitted
unfolding check_close_as_agreed_gate check_gate_status get_consensus_gate_status is_agreed
check_close_as_agreed_gate_lem c sender kind =
    ground (arith, missing_objectors-nil (has_objected c.messages) (get_members c))

gate_needs_agreement :
    (c : Chat) (sender kind : String)
    → sender ≢ "owner"
    → is_consensus_gated c.mode ≡ true
    → check_close_as_agreed_gate c sender kind ≡ ok tt
    → (kind == "done") ≡ true
    → is_agreed c ≡ true
gate_needs_agreement c sender kind agent gated passed done =
    ground (arith, check_close_as_agreed_gate_lem c sender kind, ==-ne sender "owner" agent)

-- The room is closed, at that instant and by a done signal.
abbrev pub IsDone : ℕ → Room → Type 0
IsDone now r = (r.status ≡ closed) × (r.closed_at ≡ some now) × (r.close_reason ≡ some "done")

-- In a debate or a critique whose transcript is well formed, a "done" that is not the owner's is
-- accepted only when the room has reached its floor and every member has posted an objection; then
-- the room is closed at that instant with the reason "done", which is answered.
pub post_locked-agreed :
    (sender text kind : String) (now : ℕ) (principal : Principal) (id : String) (c : Chat)
    → IsCounted c
    → sender ≢ "owner"
    → is_consensus_gated c.mode ≡ true
    → (kind == "done") ≡ true
    → OnOk
        (λ r. (is_agreed c ≡ true) × (r.0.1 ≡ some "done") × IsDone now r.1.room)
        (post_locked sender text kind now principal id c)
post_locked-agreed sender text kind now principal id c h agent gated done =
    post_locked-OnOk _ sender text kind now principal id c h λ b live passed seat. (
      gate_needs_agreement c sender kind agent gated passed done,
      unfold guardrail in rw done refl,
      unfold close_by_guardrail guardrail close_if in rw done (refl, refl, refl),
    )
