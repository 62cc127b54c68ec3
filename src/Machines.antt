-- ===== src/Machines.antt =====
-- app/machines.py, app/auth.py and app/roles.py: the registry of machines and who a token is.
-- `hash_token` of app/security.py, a SHA-256 digest, is the argument `hash` of what uses it. The
-- token and the id of a new machine, both random, are arguments too.
pub mod Registry
pub mod Tokens
pub mod Updates
use Prim.Native.String.{count}
use brainard.Prelude.{
  ℕ, String, Bool, true, false, not, ◌&&◌, ◌||◌, Option, none, some, List, [], ◌∷◌, ◌==◌,
  if◌then◌else◌, contains, leb, ltb, get_or_else,
}
use brainard.Prelude.Text.{strip, is_empty}
use brainard.Prelude.Table.{Table, lookup, insert}
use brainard.Errors.{Code, Result, ok, err, raise, raise_if, ◌>>=◌, ◌>>◌}
use brainard.Model.{Machine, Principal, owner, machine, is_owner}

-- `VALID_ROLES`
abbrev pub is_valid_role : String → Bool
is_valid_role role = role == "solo" || role == "commander" || role == "builder"

abbrev pub validate_role : String → Result (Unit {0})
validate_role role = raise_if (not (is_valid_role role)) 422 Code.invalid_role

-- `select(Machine).where(Machine.token_hash == token_hash)`; the column is unique.
unfoldable pub find_by_hash : String → Table Machine → Option (String × Machine)
find_by_hash h [] = none
find_by_hash h ((id, m) ∷ t) = if m.token_hash == h then some (id, m) else find_by_hash h t

unfoldable pub mint_validated :
    String → Machine → Table Machine → Result (Unit {0}) → Result String × Table Machine
mint_validated id m machines (err e) = (err e, machines)
mint_validated id m machines (ok _) = (ok id, insert id m machines)

-- The id of the new machine, whose plaintext token the caller has already.
unfoldable pub mint_machine :
    (String → String)
    → String
    → String
    → String
    → String
    → Option String
    → Table Machine
    → Result String × Table Machine
unfolding mint_validated
mint_machine hash id token name role default_project machines =
    mint_validated id
      (record {
        name = name;
        token_hash = hash token;
        last_seen = none;
        status = "active";
        role = role;
        default_project = default_project;
      })
      machines (validate_role role)

-- The fields of a `PATCH`: an absent key is none, and a null project is `some none`.
pub record MachineUpdate : Type 0 where
  pub role : Option String
  pub default_project : Option (Option String)
  pub name : Option String

abbrev check_role : Option String → Result (Unit {0})
check_role none = ok tt
check_role (some role) = validate_role role

unfoldable pub check_name : Option String → Result (Unit {0})
check_name none = ok tt
check_name (some name) = do
  raise_if (is_empty (strip name)) 422 Code.invalid_name
  raise_if (ltb 255 (count name)) 422 Code.invalid_name

unfoldable pub check_default_project : Option (Option String) → Result (Unit {0})
check_default_project none = ok tt
check_default_project (some none) = ok tt
check_default_project (some (some project)) =
    raise_if (not (leb 1 (count project) && leb (count project) 255)) 422
      Code.invalid_default_project

unfoldable pub validate_machine_update : MachineUpdate → Result (Unit {0})
validate_machine_update u = do
  check_role u.role
  check_name u.name
  check_default_project u.default_project

-- Absent keys leave the current value.
unfoldable pub apply_machine_update : MachineUpdate → Machine → Machine
apply_machine_update u m = record m {
  role = get_or_else u.role m.role;
  default_project = get_or_else u.default_project m.default_project;
  name = get_or_else u.name m.name;
}

unfoldable pub update_found :
    String → Table Machine → Machine → Result (Unit {0}) → Result (Option Machine) × Table Machine
update_found id machines m (err e) = (err e, machines)
update_found id machines m (ok _) = (ok (some m), insert id m machines)

-- The machine after the update; none where there is no such machine.
unfoldable pub update_machine :
    String → MachineUpdate → Table Machine → Result (Option Machine) × Table Machine
unfolding apply_machine_update
update_machine id u machines = elim (lookup id machines) [
  | none ↦ (ok none, machines)
  | some m ↦ update_found id machines (apply_machine_update u m) (validate_machine_update u)
]

unfoldable pub set_status : String → String → Table Machine → Option Machine × Table Machine
set_status status id machines = elim (lookup id machines) [
  | none ↦ (none, machines)
  | some m ↦
      (some (record m { status = status }), insert id (record m { status = status }) machines)
]

unfoldable pub revoke_machine : String → Table Machine → Option Machine × Table Machine
unfolding set_status
revoke_machine = set_status "revoked"

unfoldable pub reactivate_machine : String → Table Machine → Option Machine × Table Machine
unfolding set_status
reactivate_machine = set_status "active"

-- The machine that the hash belongs to, and the mark of when it was last seen.
unfoldable pub authenticate_machine :
    ℕ → Table Machine → Option (String × Machine) → Result Principal × Table Machine
authenticate_machine now machines none = (raise 401 Code.invalid_token, machines)
authenticate_machine now machines (some (id, m)) =
    if m.status == "revoked"
    then (raise 401 Code.token_revoked, machines)
    else (ok (machine id), insert id (record m { last_seen = some now }) machines)

-- `authenticate`; `owners` are the hashes of the owner's tokens.
unfoldable pub authenticate :
    (String → String) → String → ℕ → List String → Table Machine → Result Principal × Table Machine
unfolding authenticate_machine find_by_hash
authenticate hash token now owners machines =
    if contains (hash token) owners
    then (ok owner, machines)
    else authenticate_machine now machines (find_by_hash (hash token) machines)

-- `require_owner` and `require_machine`
unfoldable pub require_owner : Result Principal × Table Machine → Result Principal × Table Machine
require_owner (err e, machines) = (err e, machines)
require_owner (ok owner, machines) = (ok owner, machines)
require_owner (ok (machine id), machines) = (raise 403 Code.owner_token_required, machines)

unfoldable pub require_machine : Result Principal × Table Machine → Result Principal × Table Machine
require_machine (err e, machines) = (err e, machines)
require_machine (ok owner, machines) = (raise 403 Code.machine_token_required, machines)
require_machine (ok (machine id), machines) = (ok (machine id), machines)
