-- ===== src/Config.antt =====
-- backend/config/config.go and types.go: the checks of a configuration, and what is read from it.
-- What the checks take from net/url and net/netip are the arguments `is_uri`, `is_absolute` and
-- `are_proxies`.
pub mod Texts
pub mod Zones
pub mod Validation
pub mod Lookup
mod Examples
use mathlib.Core.Option
use cert_vault.Prelude.{
  ℤ, pos, negsuc, is_negative, is_zero, ℕ, String, Bool, true, false, not, ◌&&◌, ◌||◌, Option, none,
  some, List, [], ◌∷◌, ltb, ◌==◌, if◌then◌else◌, contains, any,
}
use cert_vault.Prelude.Dict.{Dict, lookup, insert}
use cert_vault.Prelude.Outcome.{Outcome, ok, err, ◌>>=◌, ◌>>◌}
use Texts.{to_lower, trim_prefix, trim_suffix, trim_right, has_suffix, text_length, dotted}

pub record DnsCredential : Type 0 where
  pub provider : String
  pub environment : Dict String

pub record Zone : Type 0 where
  pub name : String
  pub credential : String

pub record Certificate : Type 0 where
  pub name : String
  pub domains : List String
  pub key_type : String
  pub renew_before : ℤ
  pub credential : String
  pub enabled : Option Bool
  pub automatic_issuance : Option Bool

pub record Hook : Type 0 where
  pub name : String
  pub kind : String  -- `Type`
  pub events : List String
  pub certificates : List String
  pub url : String
  pub secret_file : String
  pub command : String
  pub args : List String
  pub timeout : ℤ

pub record Oidc : Type 0 where
  pub issuer_url : String
  pub client_id : String
  pub client_secret : String
  pub client_secret_file : String
  pub scopes : List String

pub record Acme : Type 0 where
  pub email : String
  pub directory_url : String
  pub accept_terms : Bool
  pub automatic_issuance : Bool

-- the fields that config.go and manager.go read
pub record Config : Type 0 where
  pub public_url : String
  pub ui_enabled : Option Bool
  pub trusted_proxies : List String
  pub acme : Acme
  pub session_duration : ℤ
  pub oidc : Option Oidc
  pub audit_retention : ℤ
  pub dns_credentials : Dict DnsCredential
  pub zones : List Zone
  pub certificates : List Certificate
  pub hooks : List Hook

pub data ConfigError : Type 0 where
  negative_session negative_retention email_required terms_required invalid_directory
        invalid_proxies oidc_incomplete oidc_without_secret oidc_two_secrets oidc_without_openid
        oidc_without_public_url credential_incomplete :
      ConfigError
  zone_unknown_credential : (zone credential : String) → ConfigError
  certificate_name no_domains unsupported_key_type unknown_credential :
      (certificate : String) → ConfigError
  no_zone : (domain : String) → ConfigError
  hook_unknown_certificate : (hook certificate : String) → ConfigError

abbrev pub default_renew_before : ℤ
default_renew_before = pos 2592000000000000  -- 30 * 24 * time.Hour

abbrev pub default_session_duration : ℤ
default_session_duration = pos 28800000000000  -- 8 * time.Hour

abbrev pub default_key_type : String
default_key_type = "ec256"

unfoldable pub valid : String → Bool
valid key_type = contains ("ec256" ∷ "ec384" ∷ "rsa2048" ∷ "rsa3072" ∷ "rsa4096" ∷ []) key_type

-- an early return
abbrev pub reject_if : Bool → ConfigError → Outcome ConfigError (Unit {0})
reject_if b e = if b then err e else ok tt

-- does this zone replace the best one so far?
unfoldable pub improves : String → String → String → Bool
improves domain best zone =
    (domain == zone || has_suffix domain (dotted zone)) && ltb (text_length best) (text_length zone)

-- the loop of `findZone`: the value at its end
unfoldable pub find_zone_from : String → String → String → Dict String → String
unfolding improves
find_zone_from domain best value [] = value
find_zone_from domain best value ((zone, credential) ∷ zones) =
    find_zone_from domain (if improves domain best zone then zone else best)
      (if improves domain best zone then credential else value) zones

unfoldable pub find_zone : String → Dict String → String
unfolding find_zone_from
find_zone domain zones = find_zone_from domain "" "" zones

unfoldable pub zone_name : Zone → String
zone_name z = trim_suffix (to_lower z.name) "."

unfoldable pub zone_map : List Zone → Dict String → Dict String
unfolding zone_name
zone_map [] zones = zones
zone_map (z ∷ more) zones = zone_map more (insert (zone_name z) z.credential zones)

-- the name of the credential, and the credential if there is one
unfoldable pub credential_for_domain : Config → Certificate → String → String × Option DnsCredential
unfolding find_zone zone_map
credential_for_domain c cert domain =
    let name =
      if cert.credential == ""
      then find_zone (trim_prefix (to_lower domain) "*.") (zone_map c.zones [])
      else cert.credential in
    (name, lookup name c.dns_credentials)

abbrev pub is_some {ℓ} : {A : Type ℓ} → Option A → Bool
is_some none = false
is_some (some a) = true

-- `credentials[name]`
unfoldable pub is_known : Dict DnsCredential → String → Bool
is_known credentials name = is_some (lookup name credentials)

unfoldable pub with_oidc_defaults : Oidc → Oidc
with_oidc_defaults o = record o {
  issuer_url = trim_right o.issuer_url b'/';
  scopes = elim o.scopes [
    | [] ↦ "openid" ∷ "profile" ∷ "email" ∷ "groups" ∷ []
    | s ∷ more ↦ s ∷ more
  ];
}

unfoldable pub check_oidc : Bool → Oidc → Outcome ConfigError (Unit {0})
check_oidc absolute o =
    reject_if (o.issuer_url == "" || o.client_id == "") oidc_incomplete
    >> reject_if (o.client_secret == "" && o.client_secret_file == "") oidc_without_secret
    >> reject_if (not (o.client_secret == "") && not (o.client_secret_file == "")) oidc_two_secrets
    >> reject_if (not (contains o.scopes "openid")) oidc_without_openid
    >> reject_if (not absolute) oidc_without_public_url

-- the configuration with its OIDC part filled in
unfoldable pub validate_oidc : Bool → Config → Option Oidc → Outcome ConfigError Config
unfolding check_oidc with_oidc_defaults
validate_oidc absolute c none = ok c
validate_oidc absolute c (some o) =
    check_oidc absolute (with_oidc_defaults o)
    >> ok (record c { oidc = some (with_oidc_defaults o) })

unfoldable pub validate_zones :
    Dict DnsCredential → List Zone → Dict String → Outcome ConfigError (Dict String)
unfolding is_known zone_name
validate_zones credentials [] zones = ok zones
validate_zones credentials (z ∷ more) zones =
    reject_if (zone_name z == "" || not (is_known credentials z.credential))
      (zone_unknown_credential (zone_name z) z.credential)
    >> validate_zones credentials more (insert (zone_name z) z.credential zones)

unfoldable pub validate_domains :
    Dict String → String → List String → Outcome ConfigError (Unit {0})
unfolding find_zone
validate_domains zones credential [] = ok tt
validate_domains zones credential (domain ∷ domains) =
    reject_if (find_zone (trim_prefix domain "*.") zones == "" && credential == "") (no_zone domain)
    >> validate_domains zones credential domains

unfoldable pub validate_certificate :
    Dict DnsCredential → Dict String → List String → Certificate → Outcome ConfigError (Unit {0})
unfolding is_known validate_domains valid
validate_certificate credentials zones names cert =
    reject_if (cert.name == "" || contains names cert.name) (certificate_name cert.name)
    >> reject_if (elim cert.domains [ [] ↦ true | d ∷ more ↦ false ]) (no_domains cert.name)
    >> reject_if (not (cert.key_type == "") && not (valid cert.key_type))
        (unsupported_key_type cert.name)
    >> reject_if (not (cert.credential == "") && not (is_known credentials cert.credential))
        (unknown_credential cert.name)
    >> validate_domains zones cert.credential cert.domains

-- the names of the certificates
unfoldable pub validate_certificates :
    Dict DnsCredential
    → Dict String
    → List String
    → List Certificate
    → Outcome ConfigError (List String)
unfolding validate_certificate
validate_certificates credentials zones names [] = ok names
validate_certificates credentials zones names (cert ∷ certificates) =
    validate_certificate credentials zones names cert
    >> validate_certificates credentials zones (cert.name ∷ names) certificates

unfoldable pub validate_hook : List String → String → List String → Outcome ConfigError (Unit {0})
validate_hook names hook [] = ok tt
validate_hook names hook (certificate ∷ certificates) =
    reject_if (not (contains names certificate)) (hook_unknown_certificate hook certificate)
    >> validate_hook names hook certificates

unfoldable pub validate_hooks : List String → List Hook → Outcome ConfigError (Unit {0})
unfolding validate_hook
validate_hooks names [] = ok tt
validate_hooks names (hook ∷ hooks) =
    validate_hook names hook.name hook.certificates >> validate_hooks names hooks

-- what follows the OIDC part
unfoldable pub validate_parts : Config → Outcome ConfigError Config
unfolding validate_zones validate_certificates validate_hooks
validate_parts c = do
  reject_if (any (λ e. e.0 == "" || e.1.provider == "") c.dns_credentials) credential_incomplete
  zones ← validate_zones c.dns_credentials c.zones []
  names ← validate_certificates c.dns_credentials zones [] c.certificates
  validate_hooks names c.hooks
  ok c

-- `Validate`, which fills in the OIDC part
unfoldable pub validate :
    (String → Bool) → (String → Bool) → (List String → Bool) → Config → Outcome ConfigError Config
unfolding validate_oidc validate_parts
validate is_uri is_absolute are_proxies c = do
  reject_if (is_negative c.session_duration) negative_session
  reject_if (is_negative c.audit_retention) negative_retention
  reject_if (c.acme.email == "") email_required
  reject_if (not c.acme.accept_terms) terms_required
  reject_if (not (is_uri c.acme.directory_url)) invalid_directory
  reject_if (not (are_proxies c.trusted_proxies)) invalid_proxies
  filled ← validate_oidc (is_absolute c.public_url) c c.oidc
  validate_parts filled

unfoldable pub with_defaults : Certificate → Certificate
with_defaults v = record v {
  key_type = if v.key_type == "" then default_key_type else v.key_type;
  renew_before = if is_zero v.renew_before then default_renew_before else v.renew_before;
}

-- `Certificate`
unfoldable pub certificate : String → List Certificate → Option Certificate
unfolding with_defaults
certificate name [] = none
certificate name (v ∷ certificates) =
    let later = certificate name certificates in
    if v.name == name then some (with_defaults v) else later

abbrev pub or_else : Bool → Option Bool → Bool
or_else b none = b
or_else b (some set) = set

unfoldable pub should_automatically_issue : Config → Certificate → Bool
should_automatically_issue c cert =
    if not (or_else true cert.enabled)
    then false
    else or_else c.acme.automatic_issuance cert.automatic_issuance

unfoldable pub has_automatic_issuance : Config → Bool
unfolding should_automatically_issue
has_automatic_issuance c =
    any (λ cert. or_else true cert.enabled && should_automatically_issue c cert) c.certificates

unfoldable pub session_duration_of : Config → ℤ
session_duration_of c =
    if is_zero c.session_duration then default_session_duration else c.session_duration
