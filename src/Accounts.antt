-- ===== src/Accounts.antt =====
-- backend/service/acme_account.go: the stored ACME accounts, one for each directory URL. What it
-- takes from encoding/json, encoding/hex, crypto/x509, crypto/ecdsa and crypto/sha256 are the fields
-- of `Codec`. A key is the bytes that stand for it.
pub mod Listing
pub mod Deletion
mod Examples
use Prim.Native.Nat.{Ordering}
use Prim.Native.String.{◌++◌, compare}
use cert_vault.Prelude.{
  ℕ, String, Bool, true, false, not, ◌&&◌, ◌||◌, Option, none, some, List, [], ◌∷◌, eqb, ◌==◌,
  if◌then◌else◌,
}
use cert_vault.Prelude.Outcome.{Outcome, ok, err}
use cert_vault.Prelude.Dict.{lookup, erase}
use cert_vault.Config.Texts.{has_suffix, trim_right, trim_suffix}
use cert_vault.Artifacts.{Bytes}
use cert_vault.Vault.{decrypt, encrypt}
use cert_vault.Files.{
  Disk, Fs, call, lift, atomic_write, Reading, contents, not_exist, failed, read_path, Library,
  Storage, ◌>>=◌, ◌>>◌,
}
use cert_vault.Database.Exec.{fault, rest}

-- `acme.ExtendedAccount`, as far as it is read
pub record Registration : Type 0 where
  pub status : String
  pub location : String

-- `acmeUser`
pub record User : Type 0 where
  pub email : String
  pub registration : Option Registration
  pub key : Bytes

-- `acmeUserWire`
pub record Wire : Type 0 where
  pub directory_url : String
  pub email : String
  pub key : Bytes
  pub registration : Option Registration

-- `ACMEAccount`
pub record Account : Type 0 where
  pub id : String
  pub directory_url : String
  pub email : String
  pub status : String
  pub registration_url : String
  pub current : Bool

pub data AccountError : Type 0 where
  account_not_found current_account invalid_account_id : AccountError
  broken : String → AccountError

pub record Codec : Type 0 where
  pub generate_key : Outcome String Bytes
  pub marshal_key : Bytes → Outcome String Bytes
  pub parse_key : Bytes → Outcome String Bytes
  pub marshal : Wire → Outcome String Bytes
  pub parse : Bytes → Outcome String Wire
  pub sha256_hex : String → String
  pub quote : String → String
  pub decode_hex : String → Option ℕ  -- the number of bytes

abbrev pub suffix : String
suffix = ".json.enc"

-- `normalizedDirectoryURL`
unfoldable pub normalized_directory_url : String → String
normalized_directory_url url = trim_right url b'/'

unfoldable pub valid_length : Option ℕ → Bool
valid_length none = false
valid_length (some n) = eqb n 32

abbrev pub status_of : Registration → String
status_of r = if r.status == "" then "registered" else r.status

abbrev pub status_or_unregistered : Option Registration → String
status_or_unregistered none = "unregistered"
status_or_unregistered (some r) = status_of r

abbrev pub location_or_empty : Option Registration → String
location_or_empty none = ""
location_or_empty (some r) = r.location

-- `readAccount`, once the account has been parsed
unfoldable pub account_of : Wire → Account
account_of wire = record {
  id = "";
  directory_url = wire.directory_url;
  email = wire.email;
  status = status_or_unregistered wire.registration;
  registration_url = location_or_empty wire.registration;
  current = false;
}

abbrev pub or_broken : {A : Type 0} → Outcome String A → Outcome AccountError A
or_broken (ok a) = ok a
or_broken (err message) = err (broken message)

unfoldable pub removed :
    String → Account → Option String → Option Bytes → Disk → Outcome AccountError Account × Disk
unfolding erase
removed path account (some message) file d = (err (broken message), d)
removed path account none none d = (err account_not_found, d)
removed path account none (some b) d = (ok account, record d { files = erase path d.files })

-- `os.Remove`, with the error that `DeleteAccount` makes of it
unfoldable pub remove : String → Account → Disk → Outcome AccountError Account × Disk
unfolding removed lookup
remove path account d =
    removed path account (fault d.faults) (lookup path d.files)
      (record d { faults = rest d.faults })

module _ (lib : Library) (storage : Storage) (codec : Codec)
    (directory_url acme_email : String) where
  -- `validAccountID`
  unfoldable pub valid_account_id : String → Bool
  unfolding valid_length
  valid_account_id id = if id == "account" then true else valid_length (codec.decode_hex id)

  -- the name of the file in `accountPath`
  unfoldable pub account_file : String
  unfolding normalized_directory_url
  account_file = codec.sha256_hex (normalized_directory_url directory_url) ++ suffix

  unfoldable pub path_of : String → String
  path_of file = lib.join (lib.join storage.data_dir "accounts") file

  -- `saveUser`
  unfoldable pub save_user : User → Fs (Unit {0})
  unfolding normalized_directory_url account_file path_of
  save_user user = do
    key ← lift (codec.marshal_key user.key)
    plain ← lift (
        codec.marshal (record {
          directory_url = normalized_directory_url directory_url;
          email = user.email;
          key = key;
          registration = user.registration;
        }))
    encrypted ← lift (encrypt lib.new_gcm lib.read_random storage.master_key plain)
    atomic_write (path_of account_file) encrypted

  -- a user of an older file, which has no directory URL, is saved again
  unfoldable pub saved_again : Wire → User → Fs User
  unfolding save_user lift
  saved_again wire user =
      if wire.directory_url == "" then save_user user >> lift (ok user) else lift (ok user)

  unfoldable pub load_stored : Bytes → Fs User
  unfolding saved_again
  load_stored b = do
    plain ← lift (decrypt lib.new_gcm storage.master_key b)
    wire ← lift (codec.parse plain)
    key ← lift (codec.parse_key wire.key)
    saved_again wire (record { email = wire.email; registration = wire.registration; key = key })

  abbrev pub new_user : Outcome String Bytes → Outcome String User
  new_user (ok key) = ok (record { email = acme_email; registration = none; key = key })
  new_user (err message) = err message

  unfoldable pub load_read : Reading × Disk → Outcome String User × Disk
  unfolding load_stored
  load_read (contents b, d) = load_stored b d
  load_read (not_exist, d) = (new_user codec.generate_key, d)
  load_read (failed message, d) = (err message, d)

  -- `loadUser`
  unfoldable pub load_user : Fs User
  unfolding load_read read_path path_of account_file
  load_user = call >> λ d. load_read (read_path (path_of account_file) d)

  -- the text of an account file
  unfoldable pub parsed : Bytes → Outcome String Account
  unfolding account_of
  parsed b =
      cert_vault.Prelude.Outcome.◌>>=◌ (decrypt lib.new_gcm storage.master_key b) (λ plain.
        cert_vault.Prelude.Outcome.◌>>=◌ (codec.parse plain) (λ wire. ok (account_of wire)))

  unfoldable pub reading_of : Reading → Outcome AccountError Account
  unfolding parsed
  reading_of (contents b) = or_broken (parsed b)
  reading_of not_exist = err account_not_found
  reading_of (failed message) = err (broken message)

  unfoldable pub delete_read :
      String → Outcome AccountError Account × Disk → Outcome AccountError Account × Disk
  unfolding remove
  delete_read id (err e, d) = (err e, d)
  delete_read id (ok account, d) = remove (path_of (id ++ suffix)) (record account { id = id }) d

  -- `DeleteAccount`
  unfoldable pub delete_account : String → Disk → Outcome AccountError Account × Disk
  unfolding delete_read reading_of valid_account_id read_path
  delete_account id d =
      if not (valid_account_id id)
      then (err invalid_account_id, d)
      else if id == trim_suffix account_file suffix
      then (err current_account, d)
      else let (r, after) = read_path (path_of (id ++ suffix)) d in
        delete_read id (reading_of r, after)
