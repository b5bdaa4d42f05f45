-- ===== src/Artifacts/Examples.antt =====
-- A decoder that takes one byte for a certificate after the first line.
use cert_vault.Prelude.{
  ℕ, suc, zero, ◌<◌, String, ◌≡◌, ◌≢◌, refl, Option, none, some, [], ◌∷◌, ◌++◌, arith, length,
}
use cert_vault.Prelude.Outcome.{Outcome, ok, err}
use cert_vault.Artifacts.{
  trim_space, has_prefix, Bytes, bytes_of, Block, out_of_fuel, parse_certificate_pem, parse_within,
  artifacts_of,
}
use cert_vault.Artifacts.Termination.{parse_certificate_pem_total}
use cert_vault.Artifacts.Chain.{IsChain, artifacts_of-IsChain}

abbrev same : Bytes → Bytes
same bytes = bytes

abbrev accept : Bytes → Outcome String Bytes
accept bytes = ok bytes

abbrev after : ℕ → Bytes → Option (Block × Bytes)
after n [] = none
after zero (b ∷ bytes) = some (record { kind = "CERTIFICATE"; headers = 0; bytes = b ∷ [] }, bytes)
after (suc n) (b ∷ bytes) = after n bytes

abbrev first_line : Bytes → Bytes
first_line bytes = bytes_of "-----BEGIN CERTIFICATE-----" ++ bytes

abbrev decode : Bytes → Option (Block × Bytes)
decode = after 27

after_shrinks :
    (n : ℕ) (bytes rest : Bytes) (block : Block)
    → after n bytes ≡ some (block, rest)
    → length rest < length bytes
after_shrinks n [] rest block h = absurd (cc h)
after_shrinks zero (b ∷ bytes) rest block h = let e : bytes ≡ rest = cc h in rw (← e) (omega arith)
after_shrinks (suc n) (b ∷ bytes) rest block h = omega (arith, after_shrinks n bytes rest block h)

parse_two :
    parse_certificate_pem Bytes same accept decode same
      (first_line (65 ∷ 10 ∷ first_line (66 ∷ 10 ∷ [])))
    ≡ ok ((65 ∷ []) ∷ (66 ∷ []) ∷ [])
unfolding parse_certificate_pem trim_space has_prefix
parse_two = refl

parse_certificate_pem_total_example :
    (parse_within Bytes same accept decode same 100 (first_line (65 ∷ []))
      ≡ parse_certificate_pem Bytes same accept decode same (first_line (65 ∷ [])))
    × (parse_certificate_pem Bytes same accept decode same (first_line (65 ∷ [])) ≢ err out_of_fuel)
parse_certificate_pem_total_example =
    parse_certificate_pem_total Bytes same accept decode same
      (λ bytes rest block. after_shrinks 27 bytes rest block) 100 (first_line (65 ∷ []))
      (omega arith)

artifacts_of-IsChain_example :
    let a =
      artifacts_of Bytes same accept decode same (1 ∷ []) ((2 ∷ []) ∷ (1 ∷ []) ∷ (2 ∷ []) ∷ []) in
    (a.leaf ≡ 1 ∷ [])
    × (a.full_chain ≡ a.leaf ++ a.chain)
    × IsChain same (1 ∷ []) ((2 ∷ []) ∷ (1 ∷ []) ∷ (2 ∷ []) ∷ []) a.chain
artifacts_of-IsChain_example =
    artifacts_of-IsChain Bytes same accept decode same (1 ∷ [])
      ((2 ∷ []) ∷ (1 ∷ []) ∷ (2 ∷ []) ∷ [])
