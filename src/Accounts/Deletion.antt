-- ===== src/Accounts/Deletion.antt =====
-- What `DeleteAccount` does to the stored accounts (backend/service/acme_account.go).
use Prim.Native.String.{◌++◌}
use cert_vault.Prelude.{
  String, ◌≡◌, ◌≢◌, refl, sym, true, some, inl, inr, ◌⊎◌, ◌∙◌, Bool-cases, Option-cases, ◌==◌,
  eq_iff,
}
use cert_vault.Prelude.Outcome.{Outcome, ok, err}
use cert_vault.Prelude.Dict.{Dict, lookup, erase}
use cert_vault.Artifacts.{Bytes}
use cert_vault.Config.Texts.{trim_suffix}
use cert_vault.Database.Exec.{fault, rest}
use cert_vault.Files.{Disk, Library, Storage, read_path}
use cert_vault.Accounts.{
  Codec, Account, AccountError, suffix, valid_account_id, account_file, path_of, reading_of, remove,
  removed, delete_read, delete_account, parsed, or_broken,
}

module _ (lib : Library) (storage : Storage) (codec : Codec)
    (directory_url acme_email : String) where
  abbrev path : String → String
  path id = path_of lib storage codec directory_url acme_email (id ++ suffix)

  -- an account that has been deleted
  pub record IsGone (id : String) (before after : Dict Bytes) (account : Account) : Type 0 where
    pub valid : valid_account_id lib storage codec directory_url acme_email id ≡ true
    pub other : id ≢ trim_suffix (account_file lib storage codec directory_url acme_email) suffix
    pub file : Bytes
    pub there : lookup (path id) before ≡ some file
    pub stored : Account
    pub legible : parsed lib storage codec directory_url acme_email file ≡ ok stored
    pub answer : account ≡ record stored { id = id }
    pub image : after ≡ erase (path id) before

  abbrev pub IsDeletion : String → Dict Bytes → Outcome AccountError Account × Disk → Type 0
  IsDeletion id before r =
      ((account : Account) × (r.0 ≡ ok account) × IsGone id before r.1.files account)
      ⊎ ((e : AccountError) × (r.0 ≡ err e) × (r.1.files ≡ before))

  module _ (id : String)
      (valid : valid_account_id lib storage codec directory_url acme_email id ≡ true)
      (other : id
        ≢ trim_suffix (account_file lib storage codec directory_url acme_email) suffix) where
    remove-IsDeletion :
        (stored : Account) (file : Bytes) (d : Disk)
        → lookup (path id) d.files ≡ some file
        → parsed lib storage codec directory_url acme_email file ≡ ok stored
        → IsDeletion id d.files (remove (path id) (record stored { id = id }) d)
    unfolding remove removed
    remove-IsDeletion stored file d there legible = elim (Option-cases (fault d.faults)) [
      | inl works ↦
          rw (works, there)
            (inl (
              record stored { id = id },
              refl,
              record {
                valid = valid;
                other = other;
                file = file;
                there = there;
                stored = stored;
                legible = legible;
                answer = refl;
                image = refl;
              },
            ))
      | inr (message, fails) ↦ rw fails (inr (_, refl, refl))
    ]

    read-IsDeletion :
        (file : Bytes) (o : Outcome String Account) (d : Disk)
        → lookup (path id) d.files ≡ some file
        → parsed lib storage codec directory_url acme_email file ≡ o
        → IsDeletion id d.files
            (delete_read lib storage codec directory_url acme_email id (or_broken o, d))
    unfolding delete_read
    read-IsDeletion file (ok stored) d there legible = remove-IsDeletion stored file d there legible
    read-IsDeletion file (err message) d there legible = inr (_, refl, refl)

  -- Whatever fails, `DeleteAccount` either answers an account, which the file of its valid id has
  -- held, which is not the current one, and whose file alone is gone; or it fails, and all files are
  -- as before.
  pub delete_account-IsDeletion :
      (id : String) (d : Disk)
      → IsDeletion id d.files (delete_account lib storage codec directory_url acme_email id d)
  unfolding delete_account read_path reading_of delete_read
  delete_account-IsDeletion id d =
      elim (Bool-cases (valid_account_id lib storage codec directory_url acme_email id)) [
        | inr bad ↦ rw bad (inr (_, refl, refl))
        | inl valid ↦
            elim (Bool-cases (
              id == trim_suffix (account_file lib storage codec directory_url acme_email) suffix)) [
                | inl same ↦ rw (valid, same) (inr (_, refl, refl))
                | inr apart ↦
                    let other : id
                        ≢ trim_suffix (account_file lib storage codec directory_url acme_email)
                            suffix =
                      λ e.
                        let bad =
                          (eq_iff id (
                              trim_suffix (account_file lib storage codec directory_url acme_email)
                                suffix)).1
                            e in
                        cc (sym bad ∙ apart) in
                    elim (Option-cases (fault d.faults)) [
                      | inr (message, fails) ↦ rw (valid, apart, fails) (inr (_, refl, refl))
                      | inl works ↦ elim (Option-cases (lookup (path id) d.files)) [
                        | inl absent ↦ rw (valid, apart, works, absent) (inr (_, refl, refl))
                        | inr (file, there) ↦
                            rw (valid, apart, works, there)
                              (read-IsDeletion id valid other file _
                                (record d { faults = rest d.faults }) there refl)
                      ]
                    ]
              ]
      ]
