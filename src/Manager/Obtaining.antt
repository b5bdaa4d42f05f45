-- ===== src/Manager/Obtaining.antt =====
-- backend/service/manager.go, `obtain`, `client` and `provider`, with `forDomain` of
-- backend/service/mux_provider.go. What they take from lego is the record `Lego`; the certificates
-- of `mockCertificate` for development are its field `mock_certificate`.
use cert_vault.Prelude.{String, Bool, Option, none, some, List, [], ◌∷◌, if◌then◌else◌}
use cert_vault.Prelude.Dict.{Dict, lookup, insert}
use cert_vault.Prelude.Outcome.{Outcome, ok, err}
use cert_vault.Config.{Config, DnsCredential, Certificate as Definition, credential_for_domain}
use cert_vault.Config.Texts.{trim_prefix}
use cert_vault.DnsEnvironment.{EnvironmentError, with_credential_environment}
use cert_vault.Artifacts.{Resource}
use cert_vault.Accounts.{Registration, User, Codec, load_user, save_user}
use cert_vault.Files.{Fs, Library, Storage, lift, ◌>>=◌, ◌>>◌}

pub record Lego (Provider Client : Type 0) : Type 0 where
  pub create_provider : String → Dict String → Outcome String Provider
  pub new_client : User → (directory_url : String) → Outcome String Client
  pub register : Client → (accept_terms : Bool) → Outcome String Registration
  pub set_dns01_provider : Client → Dict Provider → Outcome String Client
  pub to_key_type : String → Outcome String String
  pub obtain_bundle :
      Client → (domains : List String) → (key_type : String) → Outcome String Resource
  pub mock_certificate : Definition → Outcome String Resource
  pub read_file : String → Option String
  pub is_settable : String → Bool
  pub environment_text : EnvironmentError → String

-- `muxProvider`'s providers, and the environment of the process
pub record Mux (Provider : Type 0) : Type 0 where
  pub providers : Dict Provider
  pub variables : Dict String

module _ {Provider Client : Type 0} (lego : Lego Provider Client) (config : Config)
    (def : Definition) where
  -- an error of the restoration takes the provider away
  abbrev pub made :
      Outcome EnvironmentError Provider × (List EnvironmentError × Dict String)
      → Outcome String Provider × Dict String
  made (err e, (errors, variables)) = (err (lego.environment_text e), variables)
  made (ok provider, ([], variables)) = (ok provider, variables)
  made (ok provider, (e ∷ errors, variables)) = (err (lego.environment_text e), variables)

  abbrev pub kept :
      (name : String)
      → Mux Provider
      → Outcome String Provider × Dict String
      → Outcome String Provider × Mux Provider
  kept name mux (ok provider, variables) = (
    ok provider,
    record { providers = insert name provider mux.providers; variables = variables },
  )
  kept name mux (err message, variables) = (err message, record mux { variables = variables })

  unfoldable pub or_create :
      (name : String)
      → DnsCredential
      → Option Provider
      → Mux Provider
      → Outcome String Provider × Mux Provider
  unfolding with_credential_environment insert
  or_create name credential (some provider) mux = (ok provider, mux)
  or_create name credential none mux = kept name mux (
      made (
        with_credential_environment lego.read_file lego.is_settable credential.environment
          (lego.create_provider credential.provider) mux.variables))

  unfoldable pub for_credential :
      String × Option DnsCredential → Mux Provider → Outcome String Provider × Mux Provider
  unfolding or_create lookup
  for_credential (name, none) mux = (err "no DNS credential", mux)
  for_credential (name, some credential) mux =
      or_create name credential (lookup name mux.providers) mux

  -- `forDomain`
  unfoldable pub for_domain : String → Mux Provider → Outcome String Provider × Mux Provider
  unfolding for_credential credential_for_domain
  for_domain domain mux = for_credential (credential_for_domain config def domain) mux

  abbrev pub on_provider :
      (Provider → Outcome String (Unit {0}))
      → Outcome String Provider × Mux Provider
      → Outcome String (Unit {0}) × Mux Provider
  on_provider act (ok provider, mux) = (act provider, mux)
  on_provider act (err message, mux) = (err message, mux)

  -- `Present`, where `act` is the provider's
  unfoldable pub present :
      (Provider → Outcome String (Unit {0}))
      → String
      → Mux Provider
      → Outcome String (Unit {0}) × Mux Provider
  unfolding for_domain
  present act domain mux = on_provider act (for_domain domain mux)

  -- `CleanUp`
  unfoldable pub clean_up :
      (Provider → Outcome String (Unit {0}))
      → String
      → Mux Provider
      → Outcome String (Unit {0}) × Mux Provider
  unfolding for_domain
  clean_up act domain mux = on_provider act (for_domain domain mux)

  abbrev pub next :
      (Mux Provider → Outcome String (Unit {0}) × Mux Provider)
      → Outcome String Provider × Mux Provider
      → Outcome String (Unit {0}) × Mux Provider
  next rest (ok provider, mux) = rest mux
  next rest (err message, mux) = (err message, mux)

  -- the loop of `provider`
  unfoldable pub all_providers :
      List String → Mux Provider → Outcome String (Unit {0}) × Mux Provider
  unfolding for_domain trim_prefix
  all_providers [] mux = (ok tt, mux)
  all_providers (d ∷ domains) mux =
      next (all_providers domains) (for_domain (trim_prefix d "*.") mux)

  abbrev pub providers_of :
      Outcome String (Unit {0}) × Mux Provider → Outcome String (Dict Provider)
  providers_of (ok u, mux) = ok mux.providers
  providers_of (err message, mux) = err message

  -- `provider`
  unfoldable pub provider : Dict String → Outcome String (Dict Provider)
  unfolding all_providers
  provider variables =
      providers_of (all_providers def.domains (record { providers = []; variables = variables }))

  module _ (lib : Library) (storage : Storage) (codec : Codec) (mock : Bool) where
    -- a user without a registration is registered and saved
    unfoldable pub registered : User → Client → Option Registration → Fs Client
    unfolding save_user lift
    registered user client (some registration) = lift (ok client)
    registered user client none = do
      registration ← lift (lego.register client config.acme.accept_terms)
      save_user lib storage codec config.acme.directory_url config.acme.email
          (record user { registration = some registration })
      lift (ok client)

    -- `client`
    unfoldable pub client : Fs Client
    unfolding registered load_user
    client = do
      user ← load_user lib storage codec config.acme.directory_url config.acme.email
      made ← lift (lego.new_client user config.acme.directory_url)
      registered user made user.registration

    unfoldable pub obtain_real : Dict String → Fs (Option Resource)
    unfolding client provider lift
    obtain_real variables = do
      c ← client
      providers ← lift (provider variables)
      ready ← lift (lego.set_dns01_provider c providers)
      key_type ← lift (lego.to_key_type def.key_type)
      resource ← lift (lego.obtain_bundle ready def.domains key_type)
      lift (ok (some resource))

    abbrev pub as_some : Outcome String Resource → Outcome String (Option Resource)
    as_some (ok resource) = ok (some resource)
    as_some (err message) = err message

    -- `obtain`; `variables` is the environment of the process
    unfoldable pub obtain : Dict String → Fs (Option Resource)
    unfolding obtain_real lift
    obtain variables =
        if mock then lift (as_some (lego.mock_certificate def)) else obtain_real variables
