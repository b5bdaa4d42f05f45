-- ===== src/Vault/Sealed.antt =====
-- What is encrypted can be decrypted (backend/vault/vault.go).
use cert_vault.Prelude.{
  ℕ, suc, ◌+◌, String, ◌≡◌, refl, false, ◌++◌, [], ◌∷◌, ltb, arith, length, take, drop, take-append,
  drop-append, length-append,
}
use cert_vault.Prelude.Outcome.{Outcome, ok}
use cert_vault.Artifacts.{Bytes, same_bytes}
use cert_vault.Vault.{Gcm, magic, encrypt, opened, decrypt}

-- the documented laws of an AEAD, at one of its nonces
abbrev pub Unseals : Gcm → Bytes → Type 0
Unseals gcm nonce =
    (length nonce ≡ gcm.nonce_size)
    × ((plaintext : Bytes) → gcm.unseal nonce (gcm.seal nonce plaintext) ≡ ok plaintext)

long_enough :
    (nonce sealed : Bytes)
    → ltb (length (magic ++ (nonce ++ sealed))) (length magic + length nonce) ≡ false
long_enough nonce sealed = ground (arith, length-append nonce sealed)

drop_both :
    (front middle back : Bytes)
    → drop (length front + length middle) (front ++ (middle ++ back)) ≡ back
unfolding drop
drop_both [] middle back =
    let e : length {A = ℕ} [] + length middle ≡ length middle = omega arith in
    rw e (drop-append middle back)
drop_both (b ∷ front) middle back =
    let e : length (b ∷ front) + length middle ≡ suc (length front + length middle) = omega arith in
    rw e (drop_both front middle back)

opened-seal :
    (gcm : Gcm) (nonce plaintext : Bytes)
    → Unseals gcm nonce
    → opened gcm (magic ++ (nonce ++ gcm.seal nonce plaintext)) ≡ ok plaintext
unfolding opened same_bytes take drop
opened-seal gcm nonce plaintext (size, laws) =
    rw
      (
        ← size,
        long_enough nonce (gcm.seal nonce plaintext),
        take-append nonce (gcm.seal nonce plaintext),
        drop_both magic nonce (gcm.seal nonce plaintext),
      )
      (laws plaintext)

-- what `encrypt` gives with a key and a nonce that are there, and what `decrypt` makes of it
pub decrypt-encrypt :
    (new_gcm : Bytes → Outcome String Gcm) (read_random : ℕ → Outcome String Bytes)
    (key plaintext nonce : Bytes) (gcm : Gcm)
    → new_gcm key ≡ ok gcm
    → read_random gcm.nonce_size ≡ ok nonce
    → Unseals gcm nonce
    → (sealed : Bytes) × (encrypt new_gcm read_random key plaintext ≡ ok sealed)
      × (decrypt new_gcm key sealed ≡ ok plaintext)
unfolding encrypt decrypt
decrypt-encrypt new_gcm read_random key plaintext nonce gcm valid drawn laws = (
  magic ++ (nonce ++ gcm.seal nonce plaintext),
  rw (valid, drawn) refl,
  rw (valid) (opened-seal gcm nonce plaintext laws),
)
