-- ===== src/Drift/InSync.antt =====
-- When a certificate is as the configuration wants it (backend/service/configuration_drift.go).
use cert_vault.Prelude.{
  String, ◌≡◌, ◌≢◌, ◌↔◌, ◌∙◌, sym, ap, ℕ, Bool, false, Option, some, arith, ◌==◌, eq_iff,
  Bool-cases, inl, inr,
}
use cert_vault.Prelude.Outcome.{Outcome, ok, err, ◌>>=◌}
use cert_vault.Certificates.{Certificate, Version}
use cert_vault.Artifacts.{Bytes, Block}
use cert_vault.Drift.{
  PublicKey, DriftError, same_domains, key_type_of, compared, drift_from, configuration_drift,
}
use cert_vault.Drift.Domains.{AreSame, same_domains_iff}

module _ (read_file : Version → String → Outcome String Bytes)
    (decode : Bytes → Option (Block × Bytes)) (parse_certificate : Bytes → Outcome String PublicKey)
    (decimal : ℕ → String) where
  abbrev compare_key : String → String → Outcome DriftError Bool
  compare_key = compared read_file decode parse_certificate decimal

  abbrev key_of : Version → Outcome DriftError String
  key_of = key_type_of read_file decode parse_certificate decimal

  compared_iff :
      (wanted issued : String)
      → (compare_key wanted issued ≡ ok false) ↔ ((issued ≢ "") × (issued ≡ wanted))
  unfolding compared
  compared_iff wanted issued = elim (Bool-cases (issued == "")) [
    | inl empty ↦ rw empty ((λ h. absurd (cc h)), (λ h. absurd (h.0 ((eq_iff issued "").0 empty))))
    | inr given ↦ rw given (
      (λ h. ((λ e. cc ((eq_iff issued "").1 e, given)), ground (arith, eq_iff issued wanted, h))),
      (λ h. ground (arith, eq_iff issued wanted, h.1)),
    )
  ]

  then_compared :
      (wanted : String) (key : Outcome DriftError String)
      → ((key >>= compare_key wanted) ≡ ok false) ↔ ((key ≡ ok wanted) × (wanted ≢ ""))
  then_compared wanted (err e) = ((λ h. absurd (cc h)), (λ h. absurd (cc h.0)))
  then_compared wanted (ok issued) = (
    (λ h.
        let (given, same) = (compared_iff wanted issued).0 h in
        (ap ok same, (λ e. given (same ∙ e)))),
    (λ h.
        let same : issued ≡ wanted = cc h.0 in
        (compared_iff wanted issued).1 ((λ e. h.1 (sym same ∙ e)), same)),
  )

  -- The current version of a certificate shows no drift exactly if it has been issued for the same
  -- names as the configuration wants, whatever their case and order, and its key is of the type that
  -- the configuration names.
  pub configuration_drift_iff :
      (c : Certificate) (v : Version)
      → c.current_version ≡ some v
      → (configuration_drift read_file decode parse_certificate decimal c ≡ ok false)
        ↔ (AreSame c.domains v.domains × (key_of v ≡ ok c.key_type) × (c.key_type ≢ ""))
  unfolding configuration_drift drift_from
  configuration_drift_iff c v current =
      rw current (elim (Bool-cases (same_domains c.domains v.domains)) [
        | inl same ↦ rw same (
          (λ h.
              let (key, given) = (then_compared c.key_type (key_of v)).0 h in
              ((same_domains_iff c.domains v.domains).0 same, key, given)),
          (λ h. (then_compared c.key_type (key_of v)).1 (h.1, h.2)),
        )
        | inr other ↦ rw other (
          (λ h. absurd (cc h)),
          (λ h. absurd (cc ((same_domains_iff c.domains v.domains).1 h.0, other))),
        )
      ])
