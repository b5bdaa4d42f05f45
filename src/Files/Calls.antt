-- ===== src/Files/Calls.antt =====
-- backend/service/manager.go: `atomicWrite`, and os.ReadFile, on a disk whose system calls may fail.
use cert_vault.Prelude.{String, Option, none, some, List, []}
use cert_vault.Prelude.Outcome.{Outcome, ok, err}
use cert_vault.Prelude.Dict.{Dict, lookup, insert}
use cert_vault.Database.Exec.{fault, rest}
use cert_vault.Artifacts.{Bytes}

pub record Disk : Type 0 where
  pub files : Dict Bytes
  pub faults : List (Option String)

-- no call fails
abbrev pub sound : Dict Bytes → Disk
sound files = record { files = files; faults = [] }

abbrev pub Fs : Type 0 → Type 0
Fs A = Disk → Outcome String A × Disk

abbrev pub done : Option String → Dict Bytes → Disk → Outcome String (Unit {0}) × Disk
done (some e) files d = (err e, d)
done none files d = (ok tt, record d { files = files })

-- a system call that changes the files unless it fails
unfoldable pub change : (Dict Bytes → Dict Bytes) → Fs (Unit {0})
change act d = done (fault d.faults) (act d.files) (record d { faults = rest d.faults })

-- a system call that leaves them alone
unfoldable pub call : Fs (Unit {0})
unfolding change
call = change (λ files. files)

module _ {A B : Type 0} where
  unfoldable pub continue : Outcome String A × Disk → (A → Fs B) → Outcome String B × Disk
  continue (ok a, d) f = f a d
  continue (err e, d) f = (err e, d)

  infixl 5 ◌>>=◌
  unfoldable pub ◌>>=◌ : Fs A → (A → Fs B) → Fs B
  unfolding continue
  ◌>>=◌ m f d = continue (m d) f

infixl 5 ◌>>◌
unfoldable pub ◌>>◌ : {A : Type 0} → Fs (Unit {0}) → Fs A → Fs A
unfolding ◌>>=◌
m >> f = m >>= λ _. f

-- a step that does not touch the disk
unfoldable pub lift : {A : Type 0} → Outcome String A → Fs A
lift r d = (r, d)

-- the error that came first
unfoldable pub first_error :
    Outcome String (Unit {0}) → Outcome String (Unit {0}) → Outcome String (Unit {0})
first_error (ok u) later = later
first_error (err e) later = err e

-- `Close`, which follows the writing whether it fails or not
unfoldable pub closing : Outcome String (Unit {0}) × Disk → Outcome String (Unit {0}) × Disk
unfolding first_error call
closing (r, d) = (first_error r (call d).0, (call d).1)

-- the deferred `Remove` of the temporary file, whose error is ignored
unfoldable pub removing : Outcome String (Unit {0}) × Disk → Outcome String (Unit {0}) × Disk
unfolding call
removing (r, d) = (r, (call d).1)

-- `Chmod`, `Write` and `Sync`
unfoldable pub written : Fs (Unit {0})
unfolding ◌>>◌ call
written = call >> call >> call

-- what follows `CreateTemp`
unfoldable pub replace : String → Bytes → Fs (Unit {0})
unfolding closing removing written continue
replace path b d = removing (continue (closing (written d)) (λ _. change (insert path b)))

-- `atomicWrite`, after `MkdirAll` and `CreateTemp`
unfoldable pub atomic_write : String → Bytes → Fs (Unit {0})
unfolding replace ◌>>◌ call
atomic_write path b = call >> call >> replace path b

-- what `os.ReadFile` returns
pub data Reading : Type 0 where
  contents : Bytes → Reading
  not_exist : Reading
  failed : String → Reading

abbrev pub found : Option Bytes → Reading
found none = not_exist
found (some b) = contents b

abbrev pub answer : Option String → Option Bytes → Reading
answer none file = found file
answer (some e) file = failed e

unfoldable pub read_path : String → Disk → Reading × Disk
unfolding lookup
read_path path d =
    (answer (fault d.faults) (lookup path d.files), record d { faults = rest d.faults })
