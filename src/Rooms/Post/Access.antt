-- ===== src/Rooms/Post/Access.antt =====
-- app/rooms.py, `post_message`: the checks before the lock, and a message that is accepted.
use Prim.Native.String.{len}
use brainard.Prelude.{
  ℕ, ◌≤◌, String, true, false, ◌≡◌, refl, Option, none, some, ◌==◌, arith, contains,
}
use brainard.Prelude.Text.{strip, is_empty}
use brainard.Prelude.Table.{lookup}
use brainard.Errors.{Result, ok, err, OnOk, OnOk-map}
use brainard.Model.{RoomMessage, Chat, Hub, Principal, is_open, is_owner}
use brainard.Rooms.Queries.{get_members, commit, locked, with_room_lock}
use brainard.Rooms.Isolation.{IsSoundHub}
use brainard.Rooms.Reminder.{is_not_opened}
use brainard.Rooms.Post.{
  is_valid_post_kind, Precheck, refused, parked, passed, precheck_sender, precheck_room,
  check_post_fields, post_precheck, post_committed, post_checked, post_locked, post_message, posted,
}
use brainard.Rooms.Post.Insert.{post_locked-OnOk}

-- What the unlocked checks have established of a request that goes on to the lock.
pub record IsAdmitted (c : Chat) (sender text kind : String) (principal : Principal) : Type 0 where
  pub kind_valid : is_valid_post_kind kind ≡ true
  pub sender_given : is_empty (strip sender) ≡ false
  pub text_given : is_empty (strip text) ≡ false
  pub text_fits : len text ≤ 32768
  pub room_open : is_open c.room ≡ true
  pub owner_token : (strip sender == "owner") ≡ true → is_owner principal ≡ true
  pub opened : (strip sender == "owner") ≡ false → is_not_opened c.room ≡ false
  pub member : (strip sender == "owner") ≡ false → contains (strip sender) (get_members c) ≡ true

precheck_sender-passed :
    (c : Chat) (sender : String) (principal : Principal)
    → precheck_sender c sender principal ≡ passed
    → ((sender == "owner") ≡ true → is_owner principal ≡ true)
      × ((sender == "owner") ≡ false → is_not_opened c.room ≡ false)
      × ((sender == "owner") ≡ false → contains sender (get_members c) ≡ true)
unfolding precheck_sender
precheck_sender-passed c sender principal e =
    (λ own. ground arith, λ agent. ground arith, λ agent. ground arith)

-- A request passes the unlocked checks only if all of them hold.
pub post_precheck-passed :
    (seen : Option Chat) (sender text kind : String) (principal : Principal)
    → post_precheck seen sender text kind principal ≡ passed
    → (c : Chat) × (seen ≡ some c) × IsAdmitted c sender text kind principal
unfolding post_precheck precheck_room check_post_fields
post_precheck-passed none sender text kind principal e = ground arith
post_precheck-passed (some c) sender text kind principal e =
    let who : precheck_sender c (strip sender) principal ≡ passed = ground arith in
    let (own, waiting, known) = precheck_sender-passed c (strip sender) principal who in
    (
      c,
      refl,
      record {
        kind_valid = ground arith;
        sender_given = ground arith;
        text_given = ground arith;
        text_fits = ground arith;
        room_open = ground arith;
        owner_token = own;
        opened = waiting;
        member = known;
      },
    )

post_committed-OnOk :
    (Q : RoomMessage → Type 0) (room_id : String) (r : Result (RoomMessage × Option String))
    (h : Hub)
    → OnOk (λ x. Q x.0) r
    → OnOk Q (post_committed room_id (r, h)).0
unfolding post_committed
post_committed-OnOk Q room_id (err e) h q = tt
post_committed-OnOk Q room_id (ok (m, none)) h q = q
post_committed-OnOk Q room_id (ok (m, some reason)) h q = q

posted-OnOk :
    (sender text kind : String) (principal : Principal) (now : ℕ) (id room_id : String) (hub : Hub)
    → IsSoundHub hub
    → OnOk
        (λ x. x.0.sender ≡ sender)
        (with_room_lock room_id (post_locked sender text kind now principal id) hub).0
unfolding with_room_lock commit locked posted
posted-OnOk sender text kind principal now id room_id hub sound =
    found (lookup room_id hub.chats) refl
  where
    stored :
        (r : Result ((RoomMessage × Option String) × Chat))
        → OnOk (λ x. x.0.0.sender ≡ sender) r
        → OnOk (λ x. x.0.sender ≡ sender) (commit room_id hub r).0
    stored (ok (a, c)) q = q
    stored (err e) q = tt

    found :
        (o : Option Chat)
        → lookup room_id hub.chats ≡ o
        → OnOk
            (λ x. x.0.sender ≡ sender)
            (commit room_id hub (locked (post_locked sender text kind now principal id) o)).0
    found none e = tt
    found (some c) e = stored (post_locked sender text kind now principal id c) (
        post_locked-OnOk _ sender text kind now principal id c (sound.at room_id c e).transcript
          λ b live gate seat. refl)

-- In a hub of well-formed rooms a message is accepted only from a request that has passed every check: with the owner's token for
-- the sender "owner", and else from a member of a room that the owner has opened or that does not
-- wait; it is stored under the trimmed sender's name.
pub post_message-IsAdmitted :
    (seen : Option Chat) (room_id sender text kind : String) (principal : Principal) (now : ℕ)
    (id : String) (hub : Hub)
    → IsSoundHub hub
    → OnOk
        (λ m.
          (m.sender ≡ strip sender)
          × ((c : Chat) × (seen ≡ some c) × IsAdmitted c sender text kind principal))
        (post_message seen room_id sender text kind principal now id hub).0
unfolding post_message post_checked
post_message-IsAdmitted seen room_id sender text kind principal now id hub sound =
    checked (post_precheck seen sender text kind principal) refl
  where
    checked :
        (p : Precheck)
        → post_precheck seen sender text kind principal ≡ p
        → OnOk
            (λ m.
              (m.sender ≡ strip sender)
              × ((c : Chat) × (seen ≡ some c) × IsAdmitted c sender text kind principal))
            (post_checked room_id sender text kind principal now id hub p).0
    checked (refused e) q = tt
    checked (parked known) q = tt
    checked passed q =
        let r =
          with_room_lock room_id (post_locked (strip sender) (strip text) kind now principal id)
            hub in
        post_committed-OnOk _ room_id r.0 r.1 (
          OnOk-map _ _ r.0 (λ x e. (e, post_precheck-passed seen sender text kind principal q))
            (posted-OnOk (strip sender) (strip text) kind principal now id room_id hub sound))
