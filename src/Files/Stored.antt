-- ===== src/Files/Stored.antt =====
-- What `save` stores is what `ReadFile` gives back (backend/service/manager.go).
use cert_vault.Prelude.{
  String, ◌≡◌, ◌≢◌, refl, sym, ap, ◌∙◌, true, false, Option, none, some, List, [], ◌∷◌, Bool-cases,
  inl, inr, ◌==◌, eq_iff, contains, All, In, text_ne,
}
use cert_vault.Prelude.Outcome.{ok}
use cert_vault.Prelude.Dict.{Dict, lookup, insert, IsDistinct, lookup-insert}
use cert_vault.Database.{Time}
use cert_vault.Certificates.{Version}
use cert_vault.Artifacts.{Bytes, Resource, Artifacts}
use cert_vault.Vault.{Gcm, encrypt}
use cert_vault.Vault.Sealed.{Unseals, decrypt-encrypt}
use cert_vault.Files.{
  Disk, sound, change, call, continue, ◌>>=◌, ◌>>◌, lift, closing, first_error, removing, written,
  replace, atomic_write, write_files, read_path, X509, Library, Storage, private_key_of, normalized,
  version_dir, path_in, new_files, version_of, save, disk_name, or_legacy, reading, deciphered,
  file_names, read_allowed, read_file,
}

-- the names under which `save` stores
abbrev pub disk_names : List String
disk_names =
    "certificate.crt" ∷ "chain.crt" ∷ "fullchain.crt" ∷ "private.key.enc" ∷ "metadata.json" ∷ []

-- what is documented of `filepath.Join` for these names, and of the ranging over a map
pub record IsLawful (lib : Library) : Type 0 where
  pub join_injective :
      (dir a b : String)
      → In a disk_names
      → In b disk_names
      → lib.join dir a ≡ lib.join dir b
      → a ≡ b
  pub arrange-lookup :
      (dict : Dict Bytes) (key : String) → lookup key (lib.arrange dict) ≡ lookup key dict
  pub arrange-IsDistinct : (dict : Dict Bytes) → IsDistinct dict → IsDistinct (lib.arrange dict)
  pub arrange-All :
      (names : List String) (dict : Dict Bytes)
      → All (λ e. In e.0 names) dict
      → All (λ e. In e.0 names) (lib.arrange dict)

atomic_write_lem :
    (path : String) (b : Bytes) (files : Dict Bytes)
    → atomic_write path b (sound files) ≡ (ok tt, sound (insert path b files))
unfolding atomic_write replace removing closing written first_error change call ◌>>◌ ◌>>=◌ continue
atomic_write_lem path b files = refl

-- the files after the loop
stored : (String → String) → Dict Bytes → Dict Bytes → Dict Bytes
stored path [] files = files
stored path ((name, b) ∷ more) files = stored path more (insert (path name) b files)

write_files_lem :
    (path : String → String) (new files : Dict Bytes)
    → write_files path new (sound files) ≡ (ok tt, sound (stored path new files))
unfolding write_files stored lift ◌>>◌ ◌>>=◌ continue
write_files_lem path [] files = refl
write_files_lem path ((name, b) ∷ more) files =
    write_files_lem path more (insert (path name) b files)

abbrev or_old : Option Bytes → Option Bytes → Option Bytes
or_old none old = old
or_old (some b) old = some b

lookup-stored :
    (path : String → String) (names : List String) (key : String) (new files : Dict Bytes)
    → ((a : String) → In a names → path a ≡ path key → a ≡ key)
    → All (λ e. In e.0 names) new
    → IsDistinct new
    → lookup (path key) (stored path new files) ≡ or_old (lookup key new) (lookup (path key) files)
unfolding stored lookup
lookup-stored path names key [] files inj named distinct = refl
lookup-stored path names key ((name, b) ∷ more) files inj (is_name, named) (fresh, distinct) =
    let ih = lookup-stored path names key more (insert (path name) b files) inj named distinct in
    let put = lookup-insert (path name) (path key) b files in
    elim (Bool-cases (name == key)) [
      | inl e ↦
          let same : name ≡ key = (eq_iff name key).0 e in
          let gone : lookup key more ≡ none = rw (← same) fresh in
          let here : (path name == path key) ≡ true =
            (eq_iff (path name) (path key)).1 (ap path same) in
          rw (ih, put, gone, here, e) refl
      | inr e ↦
          let apart : (path name == path key) ≡ false = text_ne (path name) (path key) (λ q.
            let again : (name == key) ≡ true = (eq_iff name key).1 (inj name is_name q) in
            absurd (cc)) in
          rw (ih, put, apart, e) refl
    ]

module _ (lib : Library) (storage : Storage) (laws : IsLawful lib) where
  -- the artifacts of a resource
  abbrev pub ArtifactsOf : Type 0
  ArtifactsOf = Artifacts X509 (λ c. c.raw) lib.parse_certificate lib.decode lib.encode

  -- the files that `save` leaves
  saved : String → Time → ArtifactsOf → Bytes → Dict Bytes → Dict Bytes
  saved name now a key files =
      insert (path_in lib storage (version_dir lib storage name now) "metadata.json")
        (lib.json (version_of lib storage name now a.certificate))
        (stored (path_in lib storage (version_dir lib storage name now))
          (lib.arrange (new_files a.leaf a.chain a.full_chain key)) files)

  save_lem :
      (name : String) (r : Option Resource) (now : Time) (files : Dict Bytes) (a : ArtifactsOf)
      (key : Bytes)
      → normalized lib storage r ≡ ok a
      → encrypt lib.new_gcm lib.read_random storage.master_key (private_key_of r) ≡ ok key
      → save lib storage name r now (sound files)
        ≡ (ok (version_of lib storage name now a.certificate), sound (saved name now a key files))
  unfolding save saved lift ◌>>=◌ ◌>>◌ continue change call
  save_lem name r now files a key made encrypted =
      rw
        (
          made,
          encrypted,
          write_files_lem (path_in lib storage (version_dir lib storage name now))
              (lib.arrange (new_files a.leaf a.chain a.full_chain key)) files,
        )
        refl

  -- a stored file
  lookup-saved :
      (name : String) (now : Time) (files : Dict Bytes) (a : ArtifactsOf) (key : Bytes)
      (file : String) (b : Bytes)
      → In file disk_names
      → file ≢ "metadata.json"
      → lookup file (new_files a.leaf a.chain a.full_chain key) ≡ some b
      → lookup
          (path_in lib storage (version_dir lib storage name now) file)
          (saved name now a key files)
        ≡ some b
  unfolding saved new_files path_in lookup
  lookup-saved name now files a key file b is_name other there =
      let path = path_in lib storage (version_dir lib storage name now) in
      let dir = lib.join storage.data_dir (version_dir lib storage name now) in
      let new = new_files a.leaf a.chain a.full_chain key in
      let old = stored path (lib.arrange new) files in
      let named : All (λ e. In e.0 disk_names) new =
        (inl refl, (inr (inl refl), (inr (inr (inl refl)), (inr (inr (inr (inl refl))), tt)))) in
      let distinct : IsDistinct new = (refl, (refl, (refl, (refl, tt)))) in
      let put =
        lookup-insert (path "metadata.json") (path file)
          (lib.json (version_of lib storage name now a.certificate)) old in
      let apart : (path "metadata.json" == path file) ≡ false =
        text_ne (path "metadata.json") (path file) (λ q. other (
          sym (
            laws.join_injective dir "metadata.json" file (inr (inr (inr (inr (inl refl))))) is_name
              q))) in
      let loop =
        lookup-stored path disk_names file (lib.arrange new) files
          (λ j i. laws.join_injective dir j file i is_name) (laws.arrange-All disk_names new named)
          (laws.arrange-IsDistinct new distinct) in
      put ∙ (rw (apart, loop, laws.arrange-lookup new file, there) refl)

  -- reading a file that is there
  read_file_lem :
      (v : Version) (name : String) (files : Dict Bytes) (b : Bytes)
      → contains file_names name ≡ true
      → lookup (path_in lib storage v.path (disk_name name)) files ≡ some b
      → (read_file lib storage v name (sound files)).0 ≡ deciphered lib storage name b
  unfolding read_file read_allowed read_path or_legacy reading lift ◌>>=◌ continue
  read_file_lem v name files b allowed there = rw (allowed, there) refl

  -- reading a file that `save` has stored
  read_saved :
      (name : String) (now : Time) (files : Dict Bytes) (a : ArtifactsOf) (key : Bytes)
      (file : String) (b : Bytes)
      → contains file_names file ≡ true
      → In (disk_name file) disk_names
      → disk_name file ≢ "metadata.json"
      → lookup (disk_name file) (new_files a.leaf a.chain a.full_chain key) ≡ some b
      → (read_file lib storage
          (version_of lib storage name now a.certificate)
          file
          (sound (saved name now a key files))).0
        ≡ deciphered lib storage file b
  unfolding version_of version_dir
  read_saved name now files a key file b allowed is_name other there =
      read_file_lem (version_of lib storage name now a.certificate) file
        (saved name now a key files) b allowed
        (lookup-saved name now files a key (disk_name file) b is_name other there)

  -- the four files, as `ReadFile` gives them
  abbrev pub Reads : Version → Disk → ArtifactsOf → Bytes → Type 0
  Reads v d a key =
      ((read_file lib storage v "certificate.crt" d).0 ≡ ok a.leaf)
      × ((read_file lib storage v "chain.crt" d).0 ≡ ok a.chain)
      × ((read_file lib storage v "fullchain.crt" d).0 ≡ ok a.full_chain)
      × ((read_file lib storage v "private.key" d).0 ≡ ok key)

  -- If no system call fails, the cipher takes the master key and unseals what it seals, a nonce can be
  -- drawn, and filepath.Join and the ranging over a map are as documented, then a resource that has
  -- artifacts is saved, and after that `ReadFile` gives the leaf, the chain, both, and the private
  -- key as it was.
  pub read_file-save :
      (name : String) (r : Resource) (now : Time) (files : Dict Bytes) (a : ArtifactsOf) (gcm : Gcm)
      (nonce : Bytes)
      → normalized lib storage (some r) ≡ ok a
      → lib.new_gcm storage.master_key ≡ ok gcm
      → lib.read_random gcm.nonce_size ≡ ok nonce
      → Unseals gcm nonce
      → (v : Version) × (after : Dict Bytes) × (save lib storage name (some r) now (sound files)
          ≡ (ok v, sound after))
        × Reads v (sound after) a r.private_key
  unfolding deciphered lookup new_files contains file_names
  read_file-save name r now files a gcm nonce made valid drawn unseals =
      let (sealed, encrypted, decrypted) =
        decrypt-encrypt lib.new_gcm lib.read_random storage.master_key r.private_key nonce gcm valid
          drawn unseals in
      let v = version_of lib storage name now a.certificate in
      let after = saved name now a sealed files in
      let reads = read_saved name now files a sealed in
      (
        v,
        after,
        save_lem name (some r) now files a sealed made encrypted,
        (
          reads "certificate.crt" a.leaf refl (inl refl)
              (λ e. cc ((eq_iff "certificate.crt" "metadata.json").1 e)) refl,
          reads "chain.crt" a.chain refl (inr (inl refl))
              (λ e. cc ((eq_iff "chain.crt" "metadata.json").1 e)) refl,
          reads "fullchain.crt" a.full_chain refl (inr (inr (inl refl)))
              (λ e. cc ((eq_iff "fullchain.crt" "metadata.json").1 e)) refl,
          reads "private.key" sealed refl (inr (inr (inr (inl refl))))
                (λ e. cc ((eq_iff "private.key.enc" "metadata.json").1 e)) refl
              ∙ decrypted,
        ),
      )
