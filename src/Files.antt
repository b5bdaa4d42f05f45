-- ===== src/Files.antt =====
-- backend/service/manager.go: the files of the issued versions: `save`, `ReadFile` and
-- `atomicWrite`. The files are a map from paths, without the temporary ones, whose names are new.
-- `Disk.faults` says, system call by system call, what fails.
pub mod Stored
pub mod Examples
mod Calls
use cert_vault.Prelude.{
  ℕ, String, Bool, not, Option, none, some, List, [], ◌∷◌, ◌++◌, ◌==◌, if◌then◌else◌, contains,
}
use cert_vault.Prelude.Outcome.{Outcome, ok, err}
use cert_vault.Prelude.Dict.{Dict, lookup, insert}
use cert_vault.Database.{Time}
use cert_vault.Database.Exec.{fault, rest}
use cert_vault.Certificates.{Version}
use cert_vault.Artifacts.{
  Bytes, Block, Resource, ArtifactError, Artifacts, normalize_certificate_artifacts,
}
use cert_vault.Drift.{PublicKey, issued_key_type}
use cert_vault.Vault.{Gcm, encrypt, decrypt}
unfoldable pub use Calls.{
  change, call, continue, ◌>>=◌, ◌>>◌, lift, first_error, closing, removing, written, replace,
  atomic_write, read_path,
}
pub use Calls.{Disk, sound, Fs, Reading, contents, not_exist, failed}

-- `x509.Certificate`, as far as it is read
pub record X509 : Type 0 where
  pub raw : Bytes
  pub key : PublicKey
  pub serial : String
  pub issuer : String
  pub not_before : Time
  pub not_after : Time
  pub dns_names : List String

-- what the files take from the libraries: crypto/x509, encoding/pem, encoding/json, crypto/sha256
-- with encoding/hex, `time.Format`, `filepath.Join` of two paths, `strconv`, crypto/cipher,
-- crypto/rand, and the order in which Go ranges over a map
pub record Library : Type 0 where
  pub parse_certificate : Bytes → Outcome String X509
  pub decode : Bytes → Option (Block × Bytes)
  pub encode : Bytes → Bytes
  pub json : Version → Bytes
  pub fingerprint : Bytes → String
  pub format : Time → String
  pub join : String → String → String
  pub decimal : ℕ → String
  pub new_gcm : Bytes → Outcome String Gcm
  pub read_random : ℕ → Outcome String Bytes
  pub arrange : Dict Bytes → Dict Bytes
  pub artifact_text : ArtifactError → String

-- `DataDir` and `MasterKey` of the configuration
pub record Storage : Type 0 where
  pub data_dir : String
  pub master_key : Bytes

abbrev pub or_text :
    {A : Type 0} → (ArtifactError → String) → Outcome ArtifactError A → Outcome String A
or_text text (ok a) = ok a
or_text text (err e) = err (text e)

-- the loop over the files
unfoldable pub write_files : (String → String) → Dict Bytes → Fs (Unit {0})
unfolding atomic_write ◌>>◌
write_files path [] = lift (ok tt)
write_files path ((name, b) ∷ files) = atomic_write (path name) b >> write_files path files

abbrev pub private_key_of : Option Resource → Bytes
private_key_of none = []
private_key_of (some r) = r.private_key

unfoldable pub new_files : (leaf chain full_chain key : Bytes) → Dict Bytes
new_files leaf chain full_chain key =
    ("certificate.crt", leaf)
    ∷ ("chain.crt", chain)
    ∷ ("fullchain.crt", full_chain)
    ∷ ("private.key.enc", key)
    ∷ []

abbrev pub disk_name : String → String
disk_name name = if name == "private.key" then "private.key.enc" else name

-- the names that older versions of the program gave the files
abbrev pub legacy_name : String → String
legacy_name name =
    if name == "certificate.crt"
    then "certificate.pem"
    else if name == "chain.crt"
    then "chain.pem"
    else if name == "fullchain.crt"
    then "fullchain.pem"
    else "private-key.pem.enc"

unfoldable pub reading : Reading → Outcome String Bytes
reading (contents b) = ok b
reading not_exist = err "file does not exist"
reading (failed e) = err e

-- the legacy file stands in for one that is not there
unfoldable pub or_legacy : String → Reading × Disk → Reading × Disk
unfolding read_path
or_legacy path (not_exist, d) = read_path path d
or_legacy path (contents b, d) = (contents b, d)
or_legacy path (failed e, d) = (failed e, d)

unfoldable pub file_names : List String
file_names = "certificate.crt" ∷ "chain.crt" ∷ "fullchain.crt" ∷ "private.key" ∷ []

module _ (lib : Library) (storage : Storage) where
  unfoldable pub normalized :
      Option Resource
      → Outcome String (Artifacts X509 (λ c. c.raw) lib.parse_certificate lib.decode lib.encode)
  unfolding normalize_certificate_artifacts
  normalized r = or_text lib.artifact_text (
      normalize_certificate_artifacts X509 (λ c. c.raw) lib.parse_certificate lib.decode lib.encode
        r)

  -- the directory of a version, under the data directory
  unfoldable pub version_dir : String → Time → String
  version_dir name now =
      lib.join (lib.join (lib.join "certificates" name) "versions") (lib.format now)

  unfoldable pub path_in : String → String → String
  path_in rel name = lib.join (lib.join storage.data_dir rel) name

  unfoldable pub version_of : String → Time → X509 → Version
  unfolding version_dir issued_key_type
  version_of name now c = record {
    key_type = issued_key_type lib.decimal c.key;
    id = 0;
    certificate_name = name;
    path = version_dir name now;
    serial = c.serial;
    issuer = c.issuer;
    fingerprint_sha256 = lib.fingerprint c.raw;
    not_before = c.not_before;
    not_after = c.not_after;
    created_at = now;
    domains = c.dns_names;
  }

  -- `save`
  unfoldable pub save : String → Option Resource → Time → Fs Version
  unfolding normalized version_dir path_in new_files version_of write_files ◌>>◌
  save name r now = do
    artifacts ← lift (normalized r)
    call
    key ← lift (encrypt lib.new_gcm lib.read_random storage.master_key (private_key_of r))
    write_files (path_in (version_dir name now))
        (lib.arrange (new_files artifacts.leaf artifacts.chain artifacts.full_chain key))
    atomic_write (path_in (version_dir name now) "metadata.json")
        (lib.json (version_of name now artifacts.certificate))
    lift (ok (version_of name now artifacts.certificate))

  unfoldable pub deciphered : String → Bytes → Outcome String Bytes
  unfolding decrypt
  deciphered name b =
      if name == "private.key" then decrypt lib.new_gcm storage.master_key b else ok b

  -- `ReadFile`, for one of the names
  unfoldable pub read_allowed : Version → String → Fs Bytes
  unfolding read_path or_legacy reading deciphered lift ◌>>=◌
  read_allowed v name d =
      let (r, after) =
        or_legacy (path_in v.path (legacy_name name))
          (read_path (path_in v.path (disk_name name)) d) in
      (lift (reading r) >>= λ b. lift (deciphered name b)) after

  -- `ReadFile`
  unfoldable pub read_file : Version → String → Fs Bytes
  unfolding read_allowed file_names
  read_file v name d =
      if not (contains file_names name) then (err "invalid file", d) else read_allowed v name d
