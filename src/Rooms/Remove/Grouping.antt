-- ===== src/Rooms/Remove/Grouping.antt =====
-- app/rooms.py, `assign_group_to_rooms`: the labels after it.
use mathlib.Core.Option
use brainard.Prelude.{
  ℕ, String, true, false, not, ◌||◌, ◌≡◌, refl, ap, ◌∙◌, Option, some, List, [], ◌∷◌, map, ◌==◌,
  eq_iff, arith, contains, Bool-cases, inl, inr, Option-cases, is_nil, is_none, length, any, ltb,
}
use brainard.Prelude.Text.{strip, is_empty}
use brainard.Prelude.Table.{Table, lookup}
use brainard.Errors.{Code, Result, ok, err, OnOk, OnOk-bind, OnOk-raise_if}
use brainard.Model.{Chat, Hub}
use brainard.Rooms.Validate.{validate_group}
use brainard.Rooms.Remove.{
  regroup, set_group, unique, missing_ids, validate_assignment, assign_validated,
  max_bulk_assign_rooms, assign_group_to_rooms,
}

pub lookup-set_group :
    (ids : List String) (group : Option String) (j : String) (t : Table Chat)
    → lookup j (set_group ids group t) ≡ Option.map (regroup ids group j) (lookup j t)
unfolding lookup set_group
lookup-set_group ids group j [] = refl
lookup-set_group ids group j ((i, c) ∷ t) = elim (Bool-cases (i == j)) [
  | inl same ↦ rw (same, (eq_iff i j).0 same)
  | inr other ↦ rw other (lookup-set_group ids group j t)
]

contains-unique : (x : String) (xs : List String) → contains x (unique xs) ≡ contains x xs
unfolding unique
contains-unique x [] = refl
contains-unique x (y ∷ ys) = elim (Bool-cases (contains y (unique ys))) [
  | inl twice ↦ elim (Bool-cases (y == x)) [
    | inl same ↦ rw (twice, same) (rw (← (eq_iff y x).0 same) twice)
    | inr other ↦ rw (twice, other) (contains-unique x ys)
  ]
  | inr once ↦ rw once (ap (λ b. (y == x) || b) (contains-unique x ys))
]

is_known :
    (ids : List String) (t : Table Chat) (j : String)
    → is_nil (missing_ids ids t) ≡ true
    → contains j ids ≡ true
    → is_none (lookup j t) ≡ false
unfolding missing_ids
is_known [] t j h m = cc
is_known (i ∷ ids) t j h m =
    ground (arith, is_known ids t j, eq_iff i j, ap (λ k. is_none (lookup k t)))

-- What an assignment that is answered with `label` leaves of the rooms.
pub record IsGrouped (room_ids : List String) (label : Option String) (before after : Table Chat)
    : Type 0 where
  pub named :
      (j : String)
      → contains j (map strip room_ids) ≡ true
      → (c : Chat) × (lookup j before ≡ some c)
        × (lookup j after ≡ some (record c { room = record c.room { group_name = label } }))
  pub unnamed :
      (j : String) → contains j (map strip room_ids) ≡ false → lookup j after ≡ lookup j before

-- All of the named rooms get the label, or nothing changes.
abbrev pub AssignsAll : List String → Hub → Result (ℕ × Option String) × Hub → Type 0
AssignsAll room_ids hub (ok (n, label), after) = IsGrouped room_ids label hub.chats after.chats
AssignsAll room_ids hub (err e, after) = after ≡ hub

IsAssigned : List String → Table Chat → List String → Type 0
IsAssigned room_ids t ids =
    (ids ≡ unique (map strip room_ids))
    × (is_nil (missing_ids (unique (map strip room_ids)) t) ≡ true)

validate_assignment-ids :
    (room_ids : List String) (group : Option String) (t : Table Chat)
    → OnOk (λ v. IsAssigned room_ids t v.0) (validate_assignment room_ids group t)
unfolding validate_assignment IsAssigned
validate_assignment-ids room_ids group t =
    OnOk-raise_if _ (is_nil room_ids) 422 Code.invalid_room_ids _ λ some_given.
      OnOk-raise_if _ (ltb max_bulk_assign_rooms (length room_ids)) 422 Code.invalid_room_ids _
        λ few.
          OnOk-raise_if _ (any is_empty (map strip room_ids)) 422 Code.invalid_room_ids _ λ given.
            OnOk-bind _ (validate_group group) _ λ label el.
              OnOk-raise_if _ (not (is_nil (missing_ids (unique (map strip room_ids)) t))) 404
                Code.unknown_room_ids _ λ known. (refl, ground arith)

set_group-IsGrouped :
    (room_ids : List String) (label : Option String) (t : Table Chat)
    → is_nil (missing_ids (unique (map strip room_ids)) t) ≡ true
    → IsGrouped room_ids label t (set_group (unique (map strip room_ids)) label t)
unfolding regroup
set_group-IsGrouped room_ids label t known = record {
  named = λ j listed.
      let inside : contains j (unique (map strip room_ids)) ≡ true =
        contains-unique j (map strip room_ids) ∙ listed in
      elim (Option-cases (lookup j t)) [
        | inl absent ↦
            cc (is_known (unique (map strip room_ids)) t j known inside, ap is_none absent)
        | inr (c, found) ↦ (c, found, lookup-set_group _ label j t ∙ rw (found) (rw inside refl))
      ];
  unnamed = λ j unlisted.
      let outside : contains j (unique (map strip room_ids)) ≡ false =
        contains-unique j (map strip room_ids) ∙ unlisted in
      elim (Option-cases (lookup j t)) [
        | inl absent ↦ lookup-set_group _ label j t ∙ rw absent refl
        | inr (c, found) ↦ lookup-set_group _ label j t ∙ rw found (rw outside refl)
      ];
}

-- An assignment writes its label to every named room, all of which exist, and to no other; a
-- rejected one leaves the hub as it is.
pub assign_group_to_rooms-AssignsAll :
    (room_ids : List String) (group : Option String) (hub : Hub)
    → AssignsAll room_ids hub (assign_group_to_rooms room_ids group hub)
unfolding assign_group_to_rooms assign_validated IsAssigned
assign_group_to_rooms-AssignsAll room_ids group hub =
    assigned (validate_assignment room_ids group hub.chats)
      (validate_assignment-ids room_ids group hub.chats)
  where
    assigned :
        (v : Result (List String × Option String))
        → OnOk (λ v. IsAssigned room_ids hub.chats v.0) v
        → AssignsAll room_ids hub (assign_validated hub v)
    assigned (err e) h = refl
    assigned (ok (ids, label)) h = rw h.0 (set_group-IsGrouped room_ids label hub.chats h.1)
