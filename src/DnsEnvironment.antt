-- ===== src/DnsEnvironment.antt =====
-- backend/service/mux_provider.go: the environment variables that are set while a DNS provider is
-- made, under the lock `credentialEnvironmentMu`. What os.ReadFile gives, and which keys os.Setenv
-- takes, are the parameters `read_file` and `is_settable`.
pub mod Restored
mod Examples
use Prim.Native.Nat.{Ordering}
use Prim.Native.String.{compare}
use cert_vault.Prelude.{
  String, Bool, true, false, Option, none, some, List, [], ◌∷◌, ◌==◌, if◌then◌else◌,
}
use cert_vault.Prelude.Dict.{Dict, lookup, insert, erase}
use cert_vault.Prelude.Outcome.{Outcome, ok, err}
use cert_vault.Config.{is_some}
use cert_vault.Config.Texts.{has_suffix, trim_suffix}
use cert_vault.Network.{trim_space}

pub data EnvironmentError : Type 0 where
  not_set unreadable not_settable not_restored : (key : String) → EnvironmentError
  create_failed : (message : String) → EnvironmentError

-- the environment of the process, and what `restore` holds
pub record Setup : Type 0 where
  pub variables : Dict String
  pub saved : Dict (Option String)

-- Each target is saved once.
unfoldable pub save : String → Setup → Setup
save key s = record s {
  saved =
      if is_some (lookup key s.saved) then s.saved else insert key (lookup key s.variables) s.saved;
}

abbrev key_le : String → String → Bool
key_le a b = elim (compare a b) [ Ordering.gt ↦ false | _ ↦ true ]

unfoldable pub insert_by_key : String × String → Dict String → Dict String
insert_by_key entry [] = entry ∷ []
insert_by_key entry (other ∷ entries) =
    let below = insert_by_key entry entries in
    if key_le entry.0 other.0 then entry ∷ other ∷ entries else other ∷ below

-- the entries by ascending keys: `sort.Strings(keys)`
unfoldable pub by_key : Dict String → Dict String
unfolding insert_by_key
by_key [] = []
by_key (entry ∷ entries) = insert_by_key entry (by_key entries)

module _ (read_file : String → Option String) (is_settable : String → Bool) where
  unfoldable pub set : String → String → Setup → Outcome EnvironmentError (Unit {0}) × Setup
  unfolding save
  set key value s =
      let t = save key s in
      if is_settable key
      then (ok tt, record t { variables = insert key value t.variables })
      else (err (not_settable key), t)

  unfoldable pub set_from_file :
      String → Option String → Setup → Outcome EnvironmentError (Unit {0}) × Setup
  unfolding set
  set_from_file key none s = (err (unreadable key), s)
  set_from_file key (some contents) s = set (trim_suffix key "_FILE") (trim_space contents) s

  -- one round of the loop
  unfoldable pub set_credential :
      String → String → Setup → Outcome EnvironmentError (Unit {0}) × Setup
  unfolding set_from_file
  set_credential key value s =
      if value == ""
      then (if is_some (lookup key s.variables) then (ok tt, s) else (err (not_set key), s))
      else if has_suffix key "_FILE"
      then set_from_file key (read_file value) s
      else set key value s

  -- the loop stops at an error
  abbrev pub then_continue :
      (Setup → Outcome EnvironmentError (Unit {0}) × Setup)
      → Outcome EnvironmentError (Unit {0}) × Setup
      → Outcome EnvironmentError (Unit {0}) × Setup
  then_continue rest (ok u, s) = rest s
  then_continue rest (err e, s) = (err e, s)

  -- the credential's variables, in the order of the list
  unfoldable pub set_all : Dict String → Setup → Outcome EnvironmentError (Unit {0}) × Setup
  unfolding set_credential
  set_all [] s = (ok tt, s)
  set_all ((key, value) ∷ more) s = then_continue (set_all more) (set_credential key value s)

  -- an error of the restoration is added to the others
  unfoldable pub restore_all :
      Dict (Option String) → Dict String → List EnvironmentError × Dict String
  restore_all [] variables = ([], variables)
  restore_all ((key, none) ∷ more) variables = restore_all more (erase key variables)
  restore_all ((key, some old) ∷ more) variables =
      let rest =
        restore_all more (if is_settable key then insert key old variables else variables) in
      (if is_settable key then rest.0 else not_restored key ∷ rest.0, rest.1)

  abbrev pub created :
      {A : Type 0}
      → (Dict String → Outcome String A)
      → Outcome EnvironmentError (Unit {0}) × Setup
      → Outcome EnvironmentError A
  created create (err e, s) = err e
  created create (ok u, s) = elim (create s.variables) [
    | ok a ↦ ok a
    | err e ↦ err (create_failed e)
  ]

  abbrev restored :
      {A : Type 0}
      → (Dict String → Outcome String A)
      → Outcome EnvironmentError (Unit {0}) × Setup
      → Outcome EnvironmentError A × (List EnvironmentError × Dict String)
  restored create r = (created create r, restore_all r.1.saved r.1.variables)

  -- the result of `create`, the errors of the restoration, and the environment afterwards
  unfoldable pub with_credential_environment :
      {A : Type 0}
      → Dict String
      → (Dict String → Outcome String A)
      → Dict String
      → Outcome EnvironmentError A × (List EnvironmentError × Dict String)
  unfolding set_all by_key restore_all
  with_credential_environment environment create variables =
      restored create (set_all (by_key environment) (record { variables = variables; saved = [] }))
