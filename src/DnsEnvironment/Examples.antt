-- ===== src/DnsEnvironment/Examples.antt =====
-- A credential with a variable and a file.
use cert_vault.Prelude.{String, ◌≡◌, refl, Bool, true, Option, some, [], ◌∷◌}
use cert_vault.Prelude.Dict.{Dict, lookup, insert, erase}
use cert_vault.Prelude.Outcome.{Outcome, ok, err}
use cert_vault.Config.Texts.{has_suffix, trim_suffix}
use cert_vault.Network.{trim_space}
use cert_vault.DnsEnvironment.{
  not_set, with_credential_environment, set_all, set_credential, set_from_file, set, save,
  restore_all, by_key,
}
use cert_vault.DnsEnvironment.Restored.{Agree, with_credential_environment-Agree}

abbrev read_file : String → Option String
read_file path = some " secret "

abbrev all_settable : String → Bool
all_settable key = true

abbrev variables : Dict String
variables = ("TOKEN", "old") ∷ ("HOME", "/root") ∷ []

abbrev credential : Dict String
credential = ("HOME", "") ∷ ("TOKEN_FILE", "/run/token") ∷ ("ZONE", "z") ∷ []

-- what the constructor of the provider reads
abbrev token_of : Dict String → Outcome String (Option String)
token_of environment = ok (lookup "TOKEN" environment)

token_is_set :
    with_credential_environment read_file all_settable credential token_of variables
    ≡ (ok (some "secret"), ([], ("TOKEN", "old") ∷ ("HOME", "/root") ∷ []))
unfolding with_credential_environment set_all set_credential set_from_file set save restore_all
    by_key lookup insert erase has_suffix trim_suffix trim_space
token_is_set = refl

missing_is_an_error :
    with_credential_environment read_file all_settable (("UNSET", "") ∷ []) token_of variables
    ≡ (err (not_set "UNSET"), ([], variables))
unfolding with_credential_environment set_all set_credential restore_all by_key lookup
missing_is_an_error = refl

with_credential_environment-Agree_example :
    let after =
      (with_credential_environment read_file all_settable credential token_of variables).1 in
    (after.0 ≡ []) × Agree after.1 variables
unfolding lookup
with_credential_environment-Agree_example =
    with_credential_environment-Agree read_file all_settable credential token_of variables
      (refl, (refl, tt)) (λ _ _ _. refl)
