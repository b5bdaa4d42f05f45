-- ===== src/Artifacts.antt =====
-- backend/service/certificate_artifacts.go: the files that are made of what the ACME server sends.
-- What it takes from crypto/x509 and encoding/pem are the parameters `Certificate`, `raw`,
-- `parse_certificate`, `decode` and `encode`.
pub mod Termination
pub mod Chain
mod Examples
use Prim.Native.Char.{code}
use cert_vault.Prelude.{
  ℕ, suc, zero, String, Bool, true, false, not, ◌&&◌, ◌||◌, Option, none, some, List, [], ◌∷◌, ◌++◌,
  eqb, ◌==◌, if◌then◌else◌, length,
}
use cert_vault.Prelude.Outcome.{Outcome, ok, err, ◌>>=◌}

abbrev pub Bytes : Type 0
Bytes = List ℕ

abbrev pub bytes_of : String → Bytes
bytes_of String.[] = []
bytes_of (String.◌∷◌ c s) = code c ∷ bytes_of s

abbrev is_space : ℕ → Bool
is_space b = eqb b 32 || eqb b 9 || eqb b 10 || eqb b 11 || eqb b 12 || eqb b 13

pub trim_left : Bytes → Bytes
trim_left [] = []
trim_left (b ∷ bytes) = let rest = trim_left bytes in if is_space b then rest else b ∷ bytes

abbrev is_empty : Bytes → Bool
is_empty [] = true
is_empty (b ∷ bytes) = false

pub trim_end : Bytes → Bytes
trim_end [] = []
trim_end (b ∷ bytes) =
    let rest = trim_end bytes in if is_space b && is_empty rest then [] else b ∷ rest

-- `bytes.TrimSpace`
unfoldable pub trim_space : Bytes → Bytes
unfolding trim_left trim_end
trim_space bytes = trim_end (trim_left bytes)

-- `bytes.HasPrefix`
unfoldable pub has_prefix : Bytes → Bytes → Bool
has_prefix bytes [] = true
has_prefix [] (p ∷ prefix) = false
has_prefix (b ∷ bytes) (p ∷ prefix) = eqb b p && has_prefix bytes prefix

unfoldable pub same_bytes : Bytes → Bytes → Bool
same_bytes [] [] = true
same_bytes [] (c ∷ cs) = false
same_bytes (b ∷ bs) [] = false
same_bytes (b ∷ bs) (c ∷ cs) = eqb b c && same_bytes bs cs

-- `pem.Block`
pub record Block : Type 0 where
  pub kind : String
  pub headers : ℕ  -- how many it has
  pub bytes : Bytes

-- `certificate.Resource`, as far as it is read
pub record Resource : Type 0 where
  pub certificate : Bytes
  pub issuer_certificate : Bytes
  pub private_key : Bytes

pub data ArtifactError : Type 0 where
  out_of_fuel expected_certificate invalid_block no_certificate : ArtifactError
  unparsable : String → ArtifactError

-- `seen[raw]`
unfoldable pub seen_in : List Bytes → Bytes → Bool
seen_in [] wanted = false
seen_in (raw ∷ seen) wanted = same_bytes raw wanted || seen_in seen wanted

module _ (Certificate : Type 0) (raw : Certificate → Bytes)
    (parse_certificate : Bytes → Outcome String Certificate)
    (decode : Bytes → Option (Block × Bytes)) (encode : Bytes → Bytes) where
  unfoldable pub or_unparsable : Outcome String Certificate → Outcome ArtifactError Certificate
  or_unparsable (ok c) = ok c
  or_unparsable (err message) = err (unparsable message)

  -- the block is a certificate's
  unfoldable pub certificate_of : Block → Outcome ArtifactError Certificate
  unfolding or_unparsable
  certificate_of block =
      if not (block.kind == "CERTIFICATE") || not (eqb block.headers 0)
      then err invalid_block
      else or_unparsable (parse_certificate block.bytes)

  unfoldable pub prepend :
      Outcome ArtifactError Certificate
      → Outcome ArtifactError (List Certificate)
      → Outcome ArtifactError (List Certificate)
  prepend (err e) later = err e
  prepend (ok c) (err e) = err e
  prepend (ok c) (ok certificates) = ok (c ∷ certificates)

  -- one round, on the trimmed bytes; `next` is the rest of the loop
  unfoldable pub decoded :
      (Bytes → Outcome ArtifactError (List Certificate))
      → Option (Block × Bytes)
      → Outcome ArtifactError (List Certificate)
  unfolding certificate_of prepend
  decoded next none = err invalid_block
  decoded next (some (block, rest)) = prepend (certificate_of block) (next rest)

  unfoldable pub round :
      (Bytes → Outcome ArtifactError (List Certificate))
      → Bytes
      → Outcome ArtifactError (List Certificate)
  unfolding decoded
  round next [] = ok []
  round next (b ∷ bytes) =
      if has_prefix (b ∷ bytes) (bytes_of "-----BEGIN CERTIFICATE-----")
      then decoded next (decode (b ∷ bytes))
      else err expected_certificate

  -- the loop of `parseCertificatePEM`
  unfoldable pub parse_within : ℕ → Bytes → Outcome ArtifactError (List Certificate)
  unfolding round
  parse_within zero bytes = err out_of_fuel
  parse_within (suc fuel) bytes = round (parse_within fuel) (trim_space bytes)

  unfoldable pub parse_certificate_pem : Bytes → Outcome ArtifactError (List Certificate)
  unfolding parse_within
  parse_certificate_pem bytes = parse_within (suc (length bytes)) bytes

  -- `certificateArtifacts`
  pub record Artifacts : Type 0 where
    pub certificate : Certificate
    pub leaf : Bytes
    pub chain : Bytes
    pub full_chain : Bytes

  -- the loop over the issuers: the chain that they add
  unfoldable pub chain_of : List Bytes → List Certificate → Bytes
  chain_of seen [] = []
  chain_of seen (issuer ∷ issuers) =
      let rest = chain_of (if seen_in seen (raw issuer) then seen else raw issuer ∷ seen) issuers in
      if seen_in seen (raw issuer) then rest else encode (raw issuer) ++ rest

  unfoldable pub artifacts_of : Certificate → List Certificate → Artifacts
  unfolding chain_of
  artifacts_of leaf issuers = record {
    certificate = leaf;
    leaf = encode (raw leaf);
    chain = chain_of (raw leaf ∷ []) issuers;
    full_chain = encode (raw leaf) ++ chain_of (raw leaf ∷ []) issuers;
  }

  -- The separate issuer field is read only if the certificate field has a leaf alone.
  unfoldable pub issuers_of : List Certificate → Bytes → Outcome ArtifactError (List Certificate)
  unfolding parse_certificate_pem
  issuers_of [] issuer_certificate = parse_certificate_pem issuer_certificate
  issuers_of (c ∷ issuers) issuer_certificate = ok (c ∷ issuers)

  unfoldable pub of_certificates : List Certificate → Bytes → Outcome ArtifactError Artifacts
  unfolding issuers_of artifacts_of
  of_certificates [] issuer_certificate = err no_certificate
  of_certificates (leaf ∷ issuers) issuer_certificate =
      issuers_of issuers issuer_certificate >>= λ chain. ok (artifacts_of leaf chain)

  -- `normalizeCertificateArtifacts`
  unfoldable pub normalize_certificate_artifacts : Option Resource → Outcome ArtifactError Artifacts
  unfolding of_certificates
  normalize_certificate_artifacts none = err no_certificate
  normalize_certificate_artifacts (some resource) =
      parse_certificate_pem resource.certificate >>= λ certificates.
      of_certificates certificates resource.issuer_certificate
