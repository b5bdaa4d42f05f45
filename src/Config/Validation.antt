-- ===== src/Config/Validation.antt =====
-- What a configuration that passes `Validate` promises (backend/config/config.go).
use cert_vault.Prelude.{
  IsIn, String, ◌≡◌, ◌≢◌, ◌⊎◌, refl, Bool, true, false, some, List, [], ◌∷◌, arith, ◌==◌, eq_iff,
  In, All, Bool-cases, Option-cases, inl, inr,
}
use cert_vault.Prelude.Dict.{Dict, lookup, insert}
use cert_vault.Prelude.Outcome.{Outcome, ok, err, ◌>>=◌, ◌>>◌}
use cert_vault.Config.{
  Config, ConfigError, Certificate, DnsCredential, Zone, reject_if, improves, find_zone_from,
  find_zone, zone_name, zone_map, is_known, credential_for_domain, validate_zones, validate_domains,
  validate_certificate, validate_certificates, validate_parts, validate_oidc, validate, valid,
}
use cert_vault.Config.Texts.{to_lower, trim_prefix}

-- a step of a chain of checks that ends well has ended well
passed :
    {A B : Type 0} (m : Outcome ConfigError A) (f : A → Outcome ConfigError B) (b : B)
    → (m >>= f) ≡ ok b
    → (a : A) × (m ≡ ok a) × (f a ≡ ok b)
passed (ok a) f b h = (a, refl, h)
passed (err e) f b h = absurd (cc h)

not_rejected : (b : Bool) (e : ConfigError) (u : Unit {0}) → reject_if b e ≡ ok u → b ≡ false
not_rejected true e u h = absurd (cc h)
not_rejected false e u h = refl

-- every credential of a zone is configured
abbrev AreKnown : Dict DnsCredential → Dict String → Type 0
AreKnown credentials zones = All (λ e. is_known credentials e.1 ≡ true) zones

insert-AreKnown :
    (credentials : Dict DnsCredential) (name credential : String) (zones : Dict String)
    → is_known credentials credential ≡ true
    → AreKnown credentials zones
    → AreKnown credentials (insert name credential zones)
unfolding insert
insert-AreKnown credentials name credential [] k h = (k, tt)
insert-AreKnown credentials name credential ((z, c) ∷ zones) k h = elim (Bool-cases (z == name)) [
  | inl same ↦ rw same (k, h.1)
  | inr other ↦ rw other (h.0, insert-AreKnown credentials name credential zones k h.1)
]

validated_zones :
    (credentials : Dict DnsCredential) (zones : List Zone) (seen result : Dict String)
    → AreKnown credentials seen
    → validate_zones credentials zones seen ≡ ok result
    → (result ≡ zone_map zones seen) × AreKnown credentials result
unfolding validate_zones zone_map
validated_zones credentials [] seen result k h =
    let same : seen ≡ result = cc h in rw (← same) (refl, k)
validated_zones credentials (z ∷ zones) seen result k h =
    let (u, checked, later) =
      passed (reject_if _ _) (λ _. validate_zones credentials zones _) result h in
    let fine = not_rejected _ _ u checked in
    validated_zones credentials zones (insert (zone_name z) z.credential seen) result
      (insert-AreKnown credentials (zone_name z) z.credential seen (ground (arith, fine)) k) later

found_known :
    (credentials : Dict DnsCredential) (domain best value : String) (zones : Dict String)
    → AreKnown credentials zones
    → (value ≡ "") ⊎ (is_known credentials value ≡ true)
    → (find_zone_from domain best value zones ≡ "")
      ⊎ (is_known credentials (find_zone_from domain best value zones) ≡ true)
unfolding find_zone_from
found_known credentials domain best value [] k h = h
found_known credentials domain best value ((z, c) ∷ zones) k h =
    elim (Bool-cases (improves domain best z)) [
      | inl better ↦ rw better (found_known credentials domain z c zones k.1 (inr k.0))
      | inr worse ↦ rw worse (found_known credentials domain best value zones k.1 h)
    ]

-- what the loops over the certificates have checked of one
pub record IsChecked (credentials : Dict DnsCredential) (zones : Dict String) (cert : Certificate)
    : Type 0 where
  pub own : (cert.credential ≡ "") ⊎ (is_known credentials cert.credential ≡ true)
  pub supported : (cert.key_type ≡ "") ⊎ (valid cert.key_type ≡ true)
  pub covered :
      (domain : String)
      → In domain cert.domains
      → (find_zone (trim_prefix domain "*.") zones ≢ "") ⊎ (cert.credential ≢ "")

validated_domains :
    (zones : Dict String) (credential : String) (domains : List String) (u : Unit {0})
    → validate_domains zones credential domains ≡ ok u
    → (domain : String) → In domain domains
    → (find_zone (trim_prefix domain "*.") zones ≢ "") ⊎ (credential ≢ "")
unfolding validate_domains
validated_domains zones credential [] u h domain i = absurd i
validated_domains zones credential (d ∷ domains) u h domain i =
    let (v, checked, later) =
      passed (reject_if _ _) (λ _. validate_domains zones credential domains) u h in
    let fine = not_rejected _ _ v checked in
    elim i [
      | inl here ↦ rw (← here) (elim (Bool-cases (credential == "")) [
        | inl empty ↦
            inl (λ e. ground (arith, fine, empty, eq_iff (find_zone (trim_prefix d "*.") zones) ""))
        | inr given ↦ inr (λ e. ground (arith, given, eq_iff credential ""))
      ])
      | inr below ↦ validated_domains zones credential domains u later domain below
    ]

-- a check, and what follows it
check_then :
    {B : Type 0} (b : Bool) (e : ConfigError) (m : Outcome ConfigError B) (r : B)
    → (reject_if b e >> m) ≡ ok r
    → (b ≡ false) × (m ≡ ok r)
check_then true e m r h = absurd (cc h)
check_then false e m r h = (refl, h)

own_known :
    (credentials : Dict DnsCredential) (zones : Dict String) (names : List String)
    (cert : Certificate) (u : Unit {0})
    → validate_certificate credentials zones names cert ≡ ok u
    → (cert.credential ≡ "") ⊎ (is_known credentials cert.credential ≡ true)
unfolding validate_certificate
own_known credentials zones names cert u h = ground (arith, eq_iff cert.credential "")

key_supported :
    (credentials : Dict DnsCredential) (zones : Dict String) (names : List String)
    (cert : Certificate) (u : Unit {0})
    → validate_certificate credentials zones names cert ≡ ok u
    → (cert.key_type ≡ "") ⊎ (valid cert.key_type ≡ true)
unfolding validate_certificate
key_supported credentials zones names cert u h = ground (arith, eq_iff cert.key_type "")

domains_checked :
    (credentials : Dict DnsCredential) (zones : Dict String) (names : List String)
    (cert : Certificate) (u : Unit {0})
    → validate_certificate credentials zones names cert ≡ ok u
    → validate_domains zones cert.credential cert.domains ≡ ok u
unfolding validate_certificate
domains_checked credentials zones names cert u h = ground arith

pub validated_certificates :
    (credentials : Dict DnsCredential) (zones : Dict String) (names result : List String)
    (certificates : List Certificate)
    → validate_certificates credentials zones names certificates ≡ ok result
    → (cert : Certificate) → IsIn cert certificates
    → IsChecked credentials zones cert
unfolding validate_certificates
validated_certificates credentials zones names result [] h cert i = absurd i
validated_certificates credentials zones names result (c ∷ certificates) h cert i =
    let (u, checked, later) =
      passed (validate_certificate credentials zones names c)
        (λ _. validate_certificates credentials zones (c.name ∷ names) certificates) result h in
    elim i [
      | inl here ↦ rw (← here) (record {
        own = own_known credentials zones names c u checked;
        supported = key_supported credentials zones names c u checked;
        covered =
            validated_domains zones c.credential c.domains u
              (domains_checked credentials zones names c u checked);
      })
      | inr below ↦
          validated_certificates credentials zones (c.name ∷ names) result certificates later cert
            below
    ]

Outcome-cases :
    {A : Type 0} (o : Outcome ConfigError A)
    → ((a : A) × (o ≡ ok a)) ⊎ ((e : ConfigError) × (o ≡ err e))
Outcome-cases (ok a) = inl (a, refl)
Outcome-cases (err e) = inr (e, refl)

-- what has been checked when the last part ends well
pub record ArePartsChecked (c : Config) : Type 0 where
  pub zones : Dict String
  pub names : List String
  pub zoned : validate_zones c.dns_credentials c.zones [] ≡ ok zones
  pub certified : validate_certificates c.dns_credentials zones [] c.certificates ≡ ok names

pub validated_parts : (c d : Config) → validate_parts c ≡ ok d → (c ≡ d) × ArePartsChecked c
unfolding validate_parts
validated_parts c d h = elim (Outcome-cases (validate_zones c.dns_credentials c.zones [])) [
  | inr (e, failed) ↦ absurd (ground (arith, failed))
  | inl (zones, zoned) ↦
      elim (Outcome-cases (validate_certificates c.dns_credentials zones [] c.certificates)) [
        | inr (e, failed) ↦ absurd (ground (arith, zoned, failed))
        | inl (names, certified) ↦ (
          ground (arith, zoned, certified),
          record { zones = zones; names = names; zoned = zoned; certified = certified },
        )
      ]
]

pub validated_last :
    (is_uri is_absolute : String → Bool) (are_proxies : List String → Bool) (c d : Config)
    → validate is_uri is_absolute are_proxies c ≡ ok d
    → (filled : Config) × (validate_parts filled ≡ ok d)
unfolding validate
validated_last is_uri is_absolute are_proxies c d h =
    elim (Outcome-cases (validate_oidc (is_absolute c.public_url) c c.oidc)) [
      | inl (filled, done) ↦ (filled, ground (arith, done))
      | inr (e, failed) ↦ absurd (ground (arith, failed))
    ]

known :
    (credentials : Dict DnsCredential) (name : String)
    → is_known credentials name ≡ true
    → (credential : DnsCredential) × (lookup name credentials ≡ some credential)
unfolding is_known
known credentials name h = elim (Option-cases (lookup name credentials)) [
  | inl nothing ↦ absurd (ground arith)
  | inr (credential, found) ↦ (credential, found)
]

parts_credential :
    (c : Config) (cert : Certificate) (domain : String)
    → ArePartsChecked c
    → IsIn cert c.certificates
    → In domain cert.domains
    → to_lower domain ≡ domain
    → (credential : DnsCredential) × ((credential_for_domain c cert domain).1 ≡ some credential)
unfolding credential_for_domain
parts_credential c cert domain p i j lower =
    let checked =
      validated_certificates c.dns_credentials p.zones [] p.names c.certificates p.certified cert
        i in
    let (image, all_known) = validated_zones c.dns_credentials c.zones [] p.zones tt p.zoned in
    elim (Bool-cases (cert.credential == "")) [
      | inr given ↦ rw given (
          known c.dns_credentials cert.credential (elim checked.own [
            | inl e ↦ absurd (cc ((eq_iff cert.credential "").1 e, given))
            | inr k ↦ k
          ]))
      | inl empty ↦
          rw (empty, lower, ← image)
            (known c.dns_credentials (find_zone (trim_prefix domain "*.") p.zones) (
              unfold find_zone in
              elim (found_known c.dns_credentials (trim_prefix domain "*.") "" "" p.zones all_known
                (inl refl)) [
                  | inl nowhere ↦ elim (checked.covered domain j) [
                    | inl somewhere ↦ absurd (somewhere nowhere)
                    | inr own ↦ absurd (own ((eq_iff cert.credential "").0 empty))
                  ]
                  | inr k ↦ k
                ]))
    ]

-- A configuration that passes `Validate` has a DNS credential for every domain of its certificates
-- that is written in lower case.
pub validate-credential_for_domain :
    (is_uri is_absolute : String → Bool) (are_proxies : List String → Bool) (c d : Config)
    (cert : Certificate) (domain : String)
    → validate is_uri is_absolute are_proxies c ≡ ok d
    → IsIn cert d.certificates
    → In domain cert.domains
    → to_lower domain ≡ domain
    → (credential : DnsCredential) × ((credential_for_domain d cert domain).1 ≡ some credential)
validate-credential_for_domain is_uri is_absolute are_proxies c d cert domain h =
    let (filled, parts) = validated_last is_uri is_absolute are_proxies c d h in
    let (same, checked) = validated_parts filled d parts in
    parts_credential d cert domain (rw (← same) checked)
