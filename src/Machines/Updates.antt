-- ===== src/Machines/Updates.antt =====
-- app/machines.py, `update_machine`: what an update may change.
use brainard.Prelude.{
  ◌≤◌, String, true, false, ◌≡◌, refl, ap, get_or_else, ◌∙◌, Option, none, some, arith, if-true,
  ==-self,
}
use Prim.Native.String.{count}
use brainard.Prelude.Text.{strip, is_empty}
use brainard.Prelude.Table.{Table, lookup, lookup-insert}
use brainard.Errors.{Result, ok, err}
use brainard.Model.{Machine}
use brainard.Machines.{
  MachineUpdate, is_valid_role, check_name, check_default_project, validate_machine_update,
  apply_machine_update, update_found, update_machine,
}
use brainard.Machines.Registry.{IsRegistry, insert-IsRegistry}

-- The fields that the update gives are in their bounds.
pub record IsUpdate (u : MachineUpdate) : Type 0 where
  pub role : (r : String) → u.role ≡ some r → is_valid_role r ≡ true
  pub name : (n : String) → u.name ≡ some n → (is_empty (strip n) ≡ false) × (count n ≤ 255)
  pub project : (p : String) → u.default_project ≡ some (some p) → (1 ≤ count p) × (count p ≤ 255)

validate_machine_update-IsUpdate :
    (u : MachineUpdate) → validate_machine_update u ≡ ok tt → IsUpdate u
unfolding validate_machine_update check_name check_default_project
validate_machine_update-IsUpdate u e = record {
  role = λ r given. ground arith;
  name = λ n given. (ground arith, ground arith);
  project = λ p given. (ground arith, ground arith);
}

-- The row `m'` that an accepted update stores for the machine `id`.
pub record IsUpdated (id : String) (u : MachineUpdate) (before after : Table Machine) (m' : Machine)
    : Type 0 where
  pub old : Machine
  pub was : lookup id before ≡ some old
  pub stored : lookup id after ≡ some m'
  pub bounds : IsUpdate u
  pub role_given : (r : String) → u.role ≡ some r → m'.role ≡ r
  pub role_kept : u.role ≡ none → m'.role ≡ old.role
  pub project_given : (p : Option String) → u.default_project ≡ some p → m'.default_project ≡ p
  pub project_kept : u.default_project ≡ none → m'.default_project ≡ old.default_project
  pub name_given : (n : String) → u.name ≡ some n → m'.name ≡ n
  pub name_kept : u.name ≡ none → m'.name ≡ old.name
  pub last_seen : m'.last_seen ≡ old.last_seen
  pub token_hash : m'.token_hash ≡ old.token_hash
  pub status : m'.status ≡ old.status
  pub registry : IsRegistry after

abbrev pub Updates :
    String → MachineUpdate → Table Machine → Result (Option Machine) × Table Machine → Type 0
Updates id u before (err e, after) = after ≡ before
Updates id u before (ok none, after) = (lookup id before ≡ none) × (after ≡ before)
Updates id u before (ok (some m), after) = IsUpdated id u before after m

-- An update of a registry that is accepted has the fields that it gives in their bounds and stores a
-- row with exactly these, each field that it does not give as before, and the machine's token, status
-- and last use kept, in a registry; one that is rejected, or names no machine, changes nothing.
pub update_machine-Updates :
    (id : String) (u : MachineUpdate) (machines : Table Machine)
    → IsRegistry machines
    → Updates id u machines (update_machine id u machines)
unfolding update_found update_machine apply_machine_update
update_machine-Updates id u machines r = found (lookup id machines) refl
  where
    checked :
        (m : Machine)
        → lookup id machines ≡ some m
        → (v : Result (Unit {0})) → validate_machine_update u ≡ v
        → Updates id u machines (update_found id machines (apply_machine_update u m) v)
    checked m e (err x) v = refl
    checked m e (ok t) v = record {
      old = m;
      was = e;
      stored = lookup-insert id id _ machines ∙ if-true _ _ _ (==-self id);
      bounds = validate_machine_update-IsUpdate u v;
      role_given = λ r given. ap (λ o. get_or_else o m.role) given;
      role_kept = λ absent. ap (λ o. get_or_else o m.role) absent;
      project_given = λ p given. ap (λ o. get_or_else o m.default_project) given;
      project_kept = λ absent. ap (λ o. get_or_else o m.default_project) absent;
      name_given = λ n given. ap (λ o. get_or_else o m.name) given;
      name_kept = λ absent. ap (λ o. get_or_else o m.name) absent;
      last_seen = refl;
      token_hash = refl;
      status = refl;
      registry = insert-IsRegistry machines id m (apply_machine_update u m) r e refl;
    }

    found :
        (o : Option Machine)
        → lookup id machines ≡ o
        → Updates id u machines (update_machine id u machines)
    found none e = rw (e, Updates, update_machine) (e, refl)
    found (some m) e =
        rw (e, Updates, update_machine) (checked m e (validate_machine_update u) refl)
