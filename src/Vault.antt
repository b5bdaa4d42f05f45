-- ===== src/Vault.antt =====
-- backend/vault/vault.go: the form in which private keys are stored. What it takes from crypto/aes,
-- crypto/cipher and crypto/rand are the parameters `new_gcm`, a constructor that may refuse a key,
-- and `read_random`.
pub mod Sealed
use cert_vault.Prelude.{
  ℕ, ◌+◌, String, Bool, not, ◌||◌, ◌++◌, ltb, if◌then◌else◌, length, take, drop,
}
use cert_vault.Prelude.Outcome.{Outcome, ok, err, ◌>>=◌}
use cert_vault.Artifacts.{Bytes, bytes_of, same_bytes}

-- `cipher.AEAD`: its nonce size, and `Seal` and `Open` without additional data
pub record Gcm : Type 0 where
  pub nonce_size : ℕ
  pub seal : (nonce plaintext : Bytes) → Bytes
  pub unseal : (nonce ciphertext : Bytes) → Outcome String Bytes

abbrev pub magic : Bytes
magic = bytes_of "CV01"

-- `Encrypt`; `read_random n` is what `io.ReadFull` makes of n bytes
unfoldable pub encrypt :
    (Bytes → Outcome String Gcm)
    → (ℕ → Outcome String Bytes)
    → (key plaintext : Bytes) → Outcome String Bytes
encrypt new_gcm read_random key plaintext = do
  gcm ← new_gcm key
  nonce ← read_random gcm.nonce_size
  ok (magic ++ (nonce ++ gcm.seal nonce plaintext))

-- the last part of `Decrypt`
unfoldable pub opened : Gcm → Bytes → Outcome String Bytes
unfolding same_bytes
opened gcm ciphertext =
    if ltb (length ciphertext) (length magic + gcm.nonce_size)
      || not (same_bytes (take (length magic) ciphertext) magic)
    then err "invalid encrypted data"
    else gcm.unseal (take gcm.nonce_size (drop (length magic) ciphertext))
        (drop (length magic + gcm.nonce_size) ciphertext)

-- `Decrypt`
unfoldable pub decrypt :
    (Bytes → Outcome String Gcm) → (key ciphertext : Bytes) → Outcome String Bytes
unfolding opened
decrypt new_gcm key ciphertext = do gcm ← new_gcm key; opened gcm ciphertext
