-- ===== src/Examples/Machines.antt =====
-- The tokens of two machines. The digest is the identity here.
use brainard.Prelude.{String, ◌≡◌, refl, none, some, List, [], ◌∷◌}
use brainard.Prelude.Table.{Table, lookup}
use brainard.Errors.{Code, ok, raise, OnOk}
use brainard.Model.{Machine, machine}
use brainard.Machines.{
  MachineUpdate, find_by_hash, mint_machine, revoke_machine, reactivate_machine, update_machine,
  authenticate,
}
use brainard.Machines.Registry.{IsRegistry}
use brainard.Machines.Tokens.{
  IsHolder, authenticate-IsHolder, revoke_machine-authenticate, mint_machine-authenticate,
}
use brainard.Machines.Updates.{Updates, update_machine-Updates}

abbrev plain : String → String
plain token = token

abbrev row : String → String → String → Machine
row name token_hash status = record {
  name = name;
  token_hash = token_hash;
  last_seen = none;
  status = status;
  role = "solo";
  default_project = none;
}

abbrev rows : Table Machine
rows = ("m1", row "laptop" "t1" "active") ∷ ("m2", row "server" "t2" "revoked") ∷ []

abbrev owner_hashes : List String
owner_hashes = "t0" ∷ []

rows-IsRegistry : IsRegistry rows
unfolding lookup find_by_hash
rows-IsRegistry = (refl, refl, (refl, refl, tt))

authenticate-IsHolder_example :
    OnOk (IsHolder "t1" owner_hashes rows) (authenticate plain "t1" 7 owner_hashes rows).0
authenticate-IsHolder_example = authenticate-IsHolder plain "t1" 7 owner_hashes rows rows-IsRegistry

revoke_machine-authenticate_example :
    let revoked = (revoke_machine "m1" rows).1 in
    (authenticate plain "t1" 7 owner_hashes revoked ≡ (raise 401 Code.token_revoked, revoked))
    × ((authenticate plain "t1" 7 owner_hashes (reactivate_machine "m1" revoked).1).0
        ≡ ok (machine "m1"))
unfolding lookup
revoke_machine-authenticate_example =
    revoke_machine-authenticate plain "t1" 7 owner_hashes rows "m1" (row "laptop" "t1" "active")
      rows-IsRegistry refl refl refl

mint_machine-authenticate_example :
    let minted = (mint_machine plain "m3" "t3" "tablet" "builder" none rows).1 in
    ((authenticate plain "t3" 7 owner_hashes minted).0 ≡ ok (machine "m3")) × IsRegistry minted
unfolding lookup find_by_hash
mint_machine-authenticate_example =
    mint_machine-authenticate plain "t3" 7 owner_hashes rows "m3" "tablet" "builder" none
      rows-IsRegistry refl refl refl refl

abbrev rename : MachineUpdate
rename = record { role = some "commander"; default_project = some none; name = some "desktop" }

update_machine-Updates_example : Updates "m1" rename rows (update_machine "m1" rename rows)
update_machine-Updates_example = update_machine-Updates "m1" rename rows rows-IsRegistry
