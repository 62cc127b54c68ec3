-- ===== src/Machines/Tokens.antt =====
-- app/auth.py, `authenticate`, with the operations of app/machines.py that decide what it answers.
use brainard.Prelude.{
  ℕ, String, true, false, ◌≡◌, refl, sym, ap, ◌∙◌, Option, none, some, List, ◌==◌, contains,
  Bool-cases, inl, inr, ==-self, if-true, if-false,
}
use brainard.Prelude.Table.{Table, lookup, insert, lookup-insert}
use brainard.Errors.{Code, ok, raise, OnOk}
use brainard.Model.{Machine, Principal, owner, machine}
use brainard.Machines.{
  find_by_hash, is_valid_role, mint_machine, set_status, revoke_machine, reactivate_machine,
  authenticate_machine, authenticate,
}
use brainard.Machines.Registry.{
  IsRegistry, find_by_hash-lookup, lookup-find_by_hash, insert-IsRegistry, new-IsRegistry,
}

-- Whose token it is.
abbrev pub IsHolder : String → List String → Table Machine → Principal → Type 0
IsHolder h owners machines owner = contains h owners ≡ true
IsHolder h owners machines (machine id) =
    (m : Machine) × (lookup id machines ≡ some m)
    × (m.token_hash ≡ h)
    × ((m.status == "revoked") ≡ false)

lookup-inserted :
    (id : String) (m : Machine) (t : Table Machine) → lookup id (insert id m t) ≡ some m
lookup-inserted id m t = lookup-insert id id m t ∙ if-true _ _ _ (==-self id)

abbrev with_status : String → Machine → Machine
with_status status m = record m { status = status }

set_status-stored :
    (status id : String) (t : Table Machine) (m : Machine)
    → lookup id t ≡ some m
    → (set_status status id t).1 ≡ insert id (with_status status m) t
unfolding set_status
set_status-stored status id t m e = rw (e, set_status) refl

module _ (hash : String → String) (token : String) (now : ℕ) (owners : List String) where
  -- In a registry, a token is accepted only as the owner's, if its hash is one of the owner's, or as
  -- that of the machine that has its hash and is not revoked.
  pub authenticate-IsHolder :
      (machines : Table Machine)
      → IsRegistry machines
      → OnOk (IsHolder (hash token) owners machines) (authenticate hash token now owners machines).0
  unfolding authenticate authenticate_machine
  authenticate-IsHolder machines r = elim (Bool-cases (contains (hash token) owners)) [
    | inl own ↦ rw own (rw own refl)
    | inr other ↦ rw other (found (find_by_hash (hash token) machines) refl)
  ]
    where
      found :
          (o : Option (String × Machine))
          → find_by_hash (hash token) machines ≡ o
          → OnOk (IsHolder (hash token) owners machines) (authenticate_machine now machines o).0
      found none e = tt
      found (some (id, m)) e = elim (Bool-cases (m.status == "revoked")) [
        | inl out ↦ rw out tt
        | inr live ↦
            let (stored, own) = lookup-find_by_hash machines (hash token) id m r e in
            rw live (m, stored, own, live)
      ]

  stored-authenticate :
      (machines : Table Machine) (id : String) (m : Machine)
      → IsRegistry machines
      → contains (hash token) owners ≡ false
      → lookup id machines ≡ some m
      → m.token_hash ≡ hash token
      → authenticate hash token now owners machines
        ≡ authenticate_machine now machines (some (id, m))
  unfolding authenticate
  stored-authenticate machines id m r other e own =
      if-false _ _ _ other
      ∙ ap (authenticate_machine now machines)
          (sym (ap (λ h. find_by_hash h machines) own) ∙ find_by_hash-lookup machines id m r e)

  stored-set_status :
      (status : String) (machines : Table Machine) (id : String) (m : Machine)
      → IsRegistry machines
      → contains (hash token) owners ≡ false
      → lookup id machines ≡ some m
      → m.token_hash ≡ hash token
      → let after = (set_status status id machines).1 in
        (authenticate hash token now owners after
          ≡ authenticate_machine now after (some (id, with_status status m)))
        × IsRegistry after
        × (lookup id after ≡ some (with_status status m))
  stored-set_status status machines id m r other e own =
      rw (set_status-stored status id machines m e) (
        let r' = insert-IsRegistry machines id m (with_status status m) r e refl in
        let here = lookup-inserted id (with_status status m) machines in
        (stored-authenticate _ id (with_status status m) r' other here own, r', here))

  -- In a registry, the token of a machine that is revoked, if it is not an owner's, is rejected with 401 `token_revoked` and
  -- leaves no mark; once the machine is reactivated, the same token is that machine's again.
  pub revoke_machine-authenticate :
      (machines : Table Machine) (id : String) (m : Machine)
      → IsRegistry machines
      → contains (hash token) owners ≡ false
      → lookup id machines ≡ some m
      → m.token_hash ≡ hash token
      → let revoked = (revoke_machine id machines).1 in
        (authenticate hash token now owners revoked ≡ (raise 401 Code.token_revoked, revoked))
        × ((authenticate hash token now owners (reactivate_machine id revoked).1).0
            ≡ ok (machine id))
  unfolding revoke_machine reactivate_machine authenticate_machine
  revoke_machine-authenticate machines id m r other e own =
      let (out, r', here) = stored-set_status "revoked" machines id m r other e own in
      let (back, r'', again) =
        stored-set_status "active" _ id (with_status "revoked" m) r' other here own in
      (out, ap (λ x. x.0) back)

  -- In a registry, a machine that is minted with a valid role, and an id and a token that are new to
  -- it and to the owners, is whom its token authenticates, and the registry stays one.
  pub mint_machine-authenticate :
      (machines : Table Machine) (id name role : String) (default_project : Option String)
      → IsRegistry machines
      → contains (hash token) owners ≡ false
      → lookup id machines ≡ none
      → find_by_hash (hash token) machines ≡ none
      → is_valid_role role ≡ true
      → let minted = (mint_machine hash id token name role default_project machines).1 in
        ((authenticate hash token now owners minted).0 ≡ ok (machine id)) × IsRegistry minted
  unfolding mint_machine authenticate_machine
  mint_machine-authenticate machines id name role default_project r other e free valid =
      let m : Machine = record {
        name = name;
        token_hash = hash token;
        last_seen = none;
        status = "active";
        role = role;
        default_project = default_project;
      } in
      let r' = new-IsRegistry machines id m r e free in
      let here = lookup-inserted id m machines in
      rw (valid, mint_machine)
        (ap (λ x. x.0) (stored-authenticate (insert id m machines) id m r' other here refl), r')
