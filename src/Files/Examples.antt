-- ===== src/Files/Examples.antt =====
-- A library whose certificates are byte strings, and a resource that is stored.
use cert_vault.Prelude.{String, ◌≡◌, refl, some, [], ◌∷◌}
use cert_vault.Prelude.Outcome.{ok}
use cert_vault.Prelude.Dict.{Dict}
use cert_vault.Certificates.{Version}
use cert_vault.Artifacts.{
  Bytes, bytes_of, Resource, trim_space, has_prefix, normalize_certificate_artifacts,
  parse_certificate_pem, Artifacts, artifacts_of,
}
use cert_vault.Drift.{ecdsa}
use cert_vault.Vault.{Gcm}
use cert_vault.Files.{sound, X509, Library, Storage, normalized, save}
use cert_vault.Files.Stored.{IsLawful, Reads, read_file-save}

abbrev glue : String → String → String
glue String.[] name = name
glue (String.◌∷◌ c dir) name = String.◌∷◌ c (glue dir name)

glue_injective : (dir a b : String) → glue dir a ≡ glue dir b → a ≡ b
glue_injective String.[] a b h = h
glue_injective (String.◌∷◌ c dir) a b h = glue_injective dir a b (cc h)

abbrev plain_gcm : Gcm
plain_gcm = record {
  nonce_size = 2;
  seal = λ nonce plaintext. plaintext;
  unseal = λ nonce ciphertext. ok ciphertext;
}

abbrev pub library : Library
library = record {
  parse_certificate = λ bytes. ok (record {
    raw = bytes;
    key = ecdsa 256;
    serial = "1";
    issuer = "ca";
    not_before = 0;
    not_after = 100;
    dns_names = "a.example.com" ∷ [];
  });
  decode = λ bytes. some (record { kind = "CERTIFICATE"; headers = 0; bytes = 65 ∷ [] }, []);
  encode = λ bytes. 45 ∷ bytes;
  json = λ v. 1 ∷ [];
  fingerprint = λ bytes. "f";
  format = λ now. "20260101";
  join = λ dir name. glue (glue dir "/") name;
  decimal = λ n. "";
  new_gcm = λ key. ok plain_gcm;
  read_random = λ n. ok (7 ∷ 8 ∷ []);
  arrange = λ dict. dict;
  artifact_text = λ e. "artifacts";
}

abbrev pub storage : Storage
storage = record { data_dir = "/data"; master_key = 1 ∷ [] }

abbrev pub resource : Resource
resource = record {
  certificate = bytes_of "-----BEGIN CERTIFICATE-----A";
  issuer_certificate = [];
  private_key = 9 ∷ [];
}

library-IsLawful : IsLawful library
library-IsLawful = record {
  join_injective = λ dir a b i j h. glue_injective (glue dir "/") a b h;
  arrange-lookup = λ dict key. refl;
  arrange-IsDistinct = λ dict d. d;
  arrange-All = λ names dict h. h;
}

abbrev artifacts :
    Artifacts X509 (λ c. c.raw) library.parse_certificate library.decode library.encode
artifacts =
    artifacts_of X509 (λ c. c.raw) library.parse_certificate library.decode library.encode
      (record {
        raw = 65 ∷ [];
        key = ecdsa 256;
        serial = "1";
        issuer = "ca";
        not_before = 0;
        not_after = 100;
        dns_names = "a.example.com" ∷ [];
      })
      []

resource_normalized : normalized library storage (some resource) ≡ ok artifacts
unfolding normalized normalize_certificate_artifacts parse_certificate_pem trim_space has_prefix
    artifacts_of
resource_normalized = refl

read_file-save_example :
    (v : Version) × (after : Dict Bytes) × (save library storage "site" (some resource) 5 (sound [])
      ≡ (ok v, sound after))
    × Reads library storage library-IsLawful v (sound after) artifacts (9 ∷ [])
read_file-save_example =
    read_file-save library storage library-IsLawful "site" resource 5 [] artifacts plain_gcm
      (7 ∷ 8 ∷ []) resource_normalized refl refl (refl, (λ plaintext. refl))
