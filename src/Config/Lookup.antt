-- ===== src/Config/Lookup.antt =====
-- What is read from a configuration (backend/config/config.go, `Certificate` and
-- `HasAutomaticIssuance`).
use cert_vault.Prelude.{
  is_zero, IsIn, String, ◌≡◌, ◌≢◌, ◌⊎◌, ◌↔◌, ◌∙◌, refl, ap, Bool, true, false, some, List, [], ◌∷◌,
  arith, ◌==◌, eq_iff, contains, Bool-cases, inl, inr, any,
}
use cert_vault.Prelude.Outcome.{ok}
use cert_vault.Config.{
  Config, Certificate, validate, should_automatically_issue, has_automatic_issuance, valid,
  certificate, with_defaults,
}
use cert_vault.Config.Validation.{
  ArePartsChecked, validated_parts, validated_last, validated_certificates,
}

found_IsIn :
    (name : String) (certificates : List Certificate) (found : Certificate)
    → certificate name certificates ≡ some found
    → (cert : Certificate) × IsIn cert certificates
      × (found ≡ with_defaults cert)
      × (cert.name ≡ name)
unfolding certificate
found_IsIn name [] found h = absurd (cc h)
found_IsIn name (c ∷ certificates) found h = elim (Bool-cases (c.name == name)) [
  | inl here ↦ (c, inl refl, ground (arith, here), (eq_iff c.name name).0 here)
  | inr other ↦
      let (cert, below, image, named) =
        found_IsIn name certificates found (ground (arith, other)) in
      (cert, inr below, image, named)
]

-- what a certificate looked up by its name can be relied on for
pub record IsUsable (name : String) (v : Certificate) : Type 0 where
  pub named : v.name ≡ name
  pub supported : valid v.key_type ≡ true
  pub renewable : is_zero v.renew_before ≡ false

defaults-IsUsable :
    (name : String) (cert : Certificate)
    → cert.name ≡ name
    → (cert.key_type ≡ "") ⊎ (valid cert.key_type ≡ true)
    → IsUsable name (with_defaults cert)
unfolding with_defaults
defaults-IsUsable name cert named supported = record {
  named = named;
  supported = elim (Bool-cases (cert.key_type == "")) [
    | inl empty ↦ rw empty (unfold valid contains in refl)
    | inr given ↦
        rw given (elim supported [
          | inl e ↦ absurd (cc ((eq_iff cert.key_type "").1 e, given))
          | inr k ↦ k
        ])
  ];
  renewable = elim (Bool-cases (is_zero cert.renew_before)) [
    | inl zero ↦ rw zero refl
    | inr some_time ↦ rw some_time some_time
  ];
}

-- A certificate that is looked up by its name in a configuration that passes `Validate` has that
-- name, a supported key type and a renewal time other than zero.
pub certificate-IsUsable :
    (is_uri is_absolute : String → Bool) (are_proxies : List String → Bool) (c d : Config)
    (name : String) (found : Certificate)
    → validate is_uri is_absolute are_proxies c ≡ ok d
    → certificate name d.certificates ≡ some found
    → IsUsable name found
certificate-IsUsable is_uri is_absolute are_proxies c d name found h k =
    let (filled, parts) = validated_last is_uri is_absolute are_proxies c d h in
    let (same, checked) = validated_parts filled d parts in
    let p : ArePartsChecked d = rw (← same) checked in
    let (cert, present, image, named) = found_IsIn name d.certificates found k in
    rw image (
      defaults-IsUsable name cert named
        (validated_certificates d.dns_credentials p.zones [] p.names d.certificates p.certified cert
          present).supported)

any-IsIn :
    {A : Type 0} (p : A → Bool) (xs : List A) → any p xs ≡ true → (a : A) × IsIn a xs × (p a ≡ true)
any-IsIn p [] h = absurd (cc h)
any-IsIn p (x ∷ xs) h = elim (Bool-cases (p x)) [
  | inl here ↦ (x, inl refl, here)
  | inr other ↦
      let (a, below, holds) = any-IsIn p xs (ground (arith, other)) in (a, inr below, holds)
]

IsIn-any :
    {A : Type 0} (p : A → Bool) (xs : List A) (a : A) → IsIn a xs → p a ≡ true → any p xs ≡ true
IsIn-any p [] a i h = absurd i
IsIn-any p (x ∷ xs) a (inl here) h = let now : p x ≡ true = ap p here ∙ h in ground (arith, now)
IsIn-any p (x ∷ xs) a (inr below) h = ground (arith, IsIn-any p xs a below h)

-- Automatic issuance is on exactly if some certificate is to be issued automatically; a disabled
-- one never is.
pub has_automatic_issuance_iff :
    (c : Config)
    → (has_automatic_issuance c ≡ true) ↔ (
        (cert : Certificate) × IsIn cert c.certificates
        × (should_automatically_issue c cert ≡ true)
        × (cert.enabled ≢ some false))
unfolding has_automatic_issuance should_automatically_issue
has_automatic_issuance_iff c = (
  (λ h.
      let (cert, present, holds) = any-IsIn _ c.certificates h in
      (cert, present, ground arith, (λ off. ground (arith, off)))),
  (λ h.
      let (cert, present, holds, on) = h in IsIn-any _ c.certificates cert present (ground arith)),
)
