-- ===== src/Accounts/Listing.antt =====
-- backend/service/acme_account.go, `ListAccounts`.
use Prim.Native.Nat.{Ordering}
use Prim.Native.String.{◌++◌, compare}
use cert_vault.Prelude.{
  String, Bool, true, false, not, ◌&&◌, ◌||◌, Option, none, some, List, [], ◌∷◌, ◌==◌,
  if◌then◌else◌,
}
use cert_vault.Prelude.Outcome.{Outcome, ok, err}
use cert_vault.Config.Texts.{has_suffix, trim_suffix}
use cert_vault.Files.{Disk, Reading, contents, not_exist, failed, read_path, Library, Storage}
use cert_vault.Accounts.{
  Account, Codec, suffix, parsed, account_file, path_of, normalized_directory_url,
}

abbrev same_flag : Bool → Bool → Bool
same_flag a b = (a && b) || (not a && not b)

-- does the first account come first? The current one is before the others.
unfoldable pub precedes : Account → Account → Bool
precedes a b =
    if same_flag a.current b.current
    then elim (compare a.directory_url b.directory_url) [ Ordering.lt ↦ true | _ ↦ false ]
    else a.current

unfoldable pub insert_account : Account → List Account → List Account
unfolding precedes
insert_account a [] = a ∷ []
insert_account a (b ∷ accounts) =
    let below = insert_account a accounts in if precedes b a then b ∷ below else a ∷ b ∷ accounts

-- `sort.Slice`, which leaves the order of equal ones open
unfoldable pub sort : List Account → List Account
unfolding insert_account
sort [] = []
sort (a ∷ accounts) = insert_account a (sort accounts)

module _ (lib : Library) (storage : Storage) (codec : Codec)
    (directory_url acme_email : String) where
  -- an account of the list, with what its file's name tells
  unfoldable pub named_account : (file : String) → Account → Account
  unfolding normalized_directory_url account_file
  named_account file account = record account {
    id = trim_suffix file suffix;
    current = file == (account_file lib storage codec directory_url acme_email);
    directory_url =
        if account.directory_url == ""
          && (file == (account_file lib storage codec directory_url acme_email))
        then normalized_directory_url directory_url
        else account.directory_url;
  }

  abbrev pub legible : Reading → Outcome String Account
  legible (contents b) = parsed lib storage codec directory_url acme_email b
  legible not_exist = err "file does not exist"
  legible (failed message) = err message

  abbrev pub add :
      Account → Outcome String (List Account) × Disk → Outcome String (List Account) × Disk
  add account (ok accounts, d) = (ok (account ∷ accounts), d)
  add account (err message, d) = (err message, d)

  abbrev pub listed_with :
      (file : String)
      → (Disk → Outcome String (List Account) × Disk)
      → Outcome String Account × Disk
      → Outcome String (List Account) × Disk
  listed_with file others (ok account, d) = add (named_account file account) (others d)
  listed_with file others (err message, d) =
      (err ("read ACME account " ++ (codec.quote file ++ (": " ++ message))), d)

  -- the loop over the directory's entries, each a name and whether it is a directory
  unfoldable pub list_entries : List (String × Bool) → Disk → Outcome String (List Account) × Disk
  unfolding named_account read_path path_of has_suffix
  list_entries [] d = (ok [], d)
  list_entries ((file, is_directory) ∷ entries) d =
      let (r, after) = read_path (path_of lib storage codec directory_url acme_email file) d in
      let skipped = list_entries entries d in
      let read = listed_with file (list_entries entries) (legible r, after) in
      if is_directory || not (has_suffix file suffix) then skipped else read

  abbrev pub sorted : Outcome String (List Account) × Disk → Outcome String (List Account) × Disk
  sorted (ok accounts, d) = (ok (sort accounts), d)
  sorted (err message, d) = (err message, d)

  -- `ListAccounts`; `entries` is what os.ReadDir gives, and `none` if there is no directory
  unfoldable pub list_accounts :
      Outcome String (Option (List (String × Bool))) → Disk → Outcome String (List Account) × Disk
  unfolding list_entries sort
  list_accounts (err message) d = (err message, d)
  list_accounts (ok none) d = (ok [], d)
  list_accounts (ok (some entries)) d = sorted (list_entries entries d)
