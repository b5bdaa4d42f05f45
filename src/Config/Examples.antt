-- ===== src/Config/Examples.antt =====
-- A configuration with one certificate.
use cert_vault.Prelude.{
  pos, String, ◌≡◌, refl, Bool, true, none, some, List, [], ◌∷◌, arith, inl, contains,
}
use cert_vault.Prelude.Dict.{lookup, insert}
use cert_vault.Prelude.Outcome.{ok, err}
use cert_vault.Config.{
  Config, Certificate, DnsCredential, find_zone, find_zone_from, improves, credential_for_domain,
  validate, validate_oidc, validate_parts, validate_zones, validate_certificates,
  validate_certificate, validate_domains, validate_hooks, is_known, zone_name, valid, certificate,
  with_defaults, no_zone,
}
use cert_vault.Config.Texts.{to_lower, trim_prefix, trim_suffix, has_suffix, text_length, dotted}
use cert_vault.Config.Zones.{find_zone-lookup}
use cert_vault.Config.Validation.{validate-credential_for_domain}
use cert_vault.Config.Lookup.{IsUsable, certificate-IsUsable}

abbrev site : Certificate
site = record {
  name = "site";
  domains = "example.com" ∷ "*.eu.example.com" ∷ [];
  key_type = "";
  renew_before = pos 0;
  credential = "";
  enabled = none;
  automatic_issuance = none;
}

abbrev one_site : Config
one_site = record {
  public_url = "";
  ui_enabled = none;
  trusted_proxies = [];
  acme = record {
    email = "a@example.com";
    directory_url = "https://acme.example/directory";
    accept_terms = true;
    automatic_issuance = true;
  };
  session_duration = pos 0;
  oidc = none;
  audit_retention = pos 0;
  dns_credentials = ("dns", record { provider = "manual"; environment = [] }) ∷ [];
  zones = record { name = "Example.com."; credential = "dns" } ∷ [];
  certificates = site ∷ [];
  hooks = [];
}

abbrev any_text : String → Bool
any_text _ = true

abbrev any_texts : List String → Bool
any_texts _ = true

validate_site : validate any_text any_text any_texts one_site ≡ ok one_site
unfolding validate validate_oidc validate_parts validate_zones validate_certificates
    validate_certificate validate_domains validate_hooks is_known zone_name valid contains lookup
    insert find_zone find_zone_from improves to_lower trim_prefix trim_suffix has_suffix text_length
    dotted
validate_site = refl

-- a domain with an upper-case letter is refused, although its credential would be found
validate_upper_case :
    validate any_text any_text any_texts
      (record one_site { certificates = record site { domains = "Example.com" ∷ [] } ∷ [] })
    ≡ err (no_zone "Example.com")
unfolding validate validate_oidc validate_parts validate_zones validate_certificates
    validate_certificate validate_domains validate_hooks is_known zone_name valid contains lookup
    insert find_zone find_zone_from improves to_lower trim_prefix trim_suffix has_suffix text_length
    dotted
validate_upper_case = refl

validate-credential_for_domain_example :
    (credential : DnsCredential) × ((credential_for_domain one_site site "example.com").1
      ≡ some credential)
unfolding to_lower
validate-credential_for_domain_example =
    validate-credential_for_domain any_text any_text any_texts one_site one_site site "example.com"
      validate_site (inl refl) (inl refl) refl

found_site : certificate "site" one_site.certificates ≡ some (with_defaults site)
unfolding certificate
found_site = refl

certificate-IsUsable_example : IsUsable "site" (with_defaults site)
certificate-IsUsable_example =
    certificate-IsUsable any_text any_text any_texts one_site one_site "site" (with_defaults site)
      validate_site found_site

find_zone-lookup_example :
    find_zone "www.eu.example.com"
      (("example.com", "a") ∷ ("eu.example.com", "b") ∷ ("com", "c") ∷ [])
    ≡ "b"
unfolding lookup has_suffix text_length dotted
find_zone-lookup_example =
    find_zone-lookup "www.eu.example.com" "eu.example.com" "b"
      (("example.com", "a") ∷ ("eu.example.com", "b") ∷ ("com", "c") ∷ []) (λ e. cc e) refl refl
      ((λ _. omega arith), ((λ _. omega arith), ((λ _. omega arith), tt)))
