-- ===== src/Drift.antt =====
-- backend/service/configuration_drift.go: has a certificate to be issued again, since the
-- configuration has changed? What `ReadFile`, encoding/pem and crypto/x509 give, and the decimal
-- text of a number, are the parameters of the section.
pub mod Domains
pub mod InSync
mod Examples
use cert_vault.Prelude.{
  ℕ, String, Bool, true, false, not, ◌&&◌, ◌||◌, Option, none, some, List, [], ◌∷◌, eqb, ◌==◌,
  if◌then◌else◌, contains, length,
}
use cert_vault.Prelude.Outcome.{Outcome, ok, err, ◌>>=◌}
use cert_vault.Config.Texts.{to_lower}
use cert_vault.Certificates.{Certificate, Version}
use cert_vault.Artifacts.{Bytes, Block}

-- The set of the lower-case names, as a list that has each once.
unfoldable pub normalize : List String → List String
normalize [] = []
normalize (domain ∷ domains) =
    let set = normalize domains in
    if contains set (to_lower domain) then set else to_lower domain ∷ set

-- the loop over `left`
unfoldable pub all_in : List String → List String → Bool
all_in [] right = true
all_in (domain ∷ left) right = if not (contains right domain) then false else all_in left right

unfoldable pub same_domains : List String → List String → Bool
unfolding normalize all_in
same_domains a b =
    if not (eqb (length (normalize a)) (length (normalize b)))
    then false
    else all_in (normalize a) (normalize b)

-- what `cert.PublicKey.(type)` may be
pub data PublicKey : Type 0 where
  ecdsa rsa : ℕ → PublicKey
  other : PublicKey

pub data DriftError : Type 0 where
  no_pem_block unsupported_key : DriftError
  failed : String → DriftError

-- `issuedKeyType`; `decimal` writes a number
unfoldable pub issued_key_type : (ℕ → String) → PublicKey → String
issued_key_type decimal (ecdsa bits) =
    if eqb bits 256 then "ec256" else if eqb bits 384 then "ec384" else ""
issued_key_type decimal (rsa bits) = Prim.Native.String.◌++◌ "rsa" (decimal bits)
issued_key_type decimal other = ""

module _ (read_file : Version → String → Outcome String Bytes)
    (decode : Bytes → Option (Block × Bytes)) (parse_certificate : Bytes → Outcome String PublicKey)
    (decimal : ℕ → String) where
  unfoldable pub or_failed : {A : Type 0} → Outcome String A → Outcome DriftError A
  or_failed (ok a) = ok a
  or_failed (err message) = err (failed message)

  unfoldable pub block_of : Option (Block × Bytes) → Outcome DriftError Block
  block_of none = err no_pem_block
  block_of (some (block, rest)) = ok block

  -- the key type of the stored certificate
  unfoldable pub inspected : Version → Outcome DriftError String
  unfolding issued_key_type or_failed block_of
  inspected v = do
    contents ← or_failed (read_file v "certificate.crt")
    block ← block_of (decode contents)
    key ← or_failed (parse_certificate block.bytes)
    ok (issued_key_type decimal key)

  unfoldable pub key_type_of : Version → Outcome DriftError String
  unfolding inspected
  key_type_of v = if v.key_type == "" then inspected v else ok v.key_type

  unfoldable pub compared : String → String → Outcome DriftError Bool
  compared wanted issued = if issued == "" then err unsupported_key else ok (not (issued == wanted))

  unfoldable pub drift_from : Certificate → Option Version → Outcome DriftError Bool
  unfolding same_domains key_type_of compared
  drift_from c none = ok false
  drift_from c (some v) =
      if not (same_domains c.domains v.domains)
      then ok true
      else (key_type_of v >>= compared c.key_type)

  -- `configurationDrift`
  unfoldable pub configuration_drift : Certificate → Outcome DriftError Bool
  unfolding drift_from
  configuration_drift c = drift_from c c.current_version
