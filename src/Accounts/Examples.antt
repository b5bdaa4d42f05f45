-- ===== src/Accounts/Examples.antt =====
-- The deletion of an account of the older kind.
use cert_vault.Prelude.{none, [], ◌∷◌}
use cert_vault.Prelude.Outcome.{ok}
use cert_vault.Artifacts.{bytes_of}
use cert_vault.Files.{Disk, sound}
use cert_vault.Files.Examples.{library, storage}
use cert_vault.Accounts.{Codec, delete_account}
use cert_vault.Accounts.Deletion.{IsDeletion, delete_account-IsDeletion}

abbrev codec : Codec
codec = record {
  generate_key = ok (3 ∷ []);
  marshal_key = λ key. ok key;
  parse_key = λ key. ok key;
  marshal = λ wire. ok (7 ∷ []);
  parse = λ b.
      ok
        (record { directory_url = ""; email = "a@example.com"; key = 3 ∷ []; registration = none });
  sha256_hex = λ s. "00";
  quote = λ s. s;
  decode_hex = λ s. none;
}

abbrev disk : Disk
disk = sound (
    ("/data/accounts/account.json.enc", bytes_of "CV01nnkey")
    ∷ ("/data/accounts/00.json.enc", bytes_of "CV01nnkey")
    ∷ [])

delete_account-IsDeletion_example :
    IsDeletion library storage codec "https://acme.example/directory" "a@example.com" "account"
      disk.files
      (delete_account library storage codec "https://acme.example/directory" "a@example.com"
        "account" disk)
delete_account-IsDeletion_example =
    delete_account-IsDeletion library storage codec "https://acme.example/directory" "a@example.com"
      "account" disk
