-- ===== src/Manager.antt =====
-- backend/service/manager.go: the manager of the issuances. This file has the admission of jobs:
-- `validateIssuance`, `Enqueue` and `reconcile`. `World` is what a call may change.
pub mod Hooks
pub mod Obtaining
pub mod Issuing
pub mod Keeping
pub mod Recorded
pub mod Admitted
pub mod Scheduling
pub mod Running
pub mod Waking
mod Examples
use Prim.Native.String.{◌++◌}
use cert_vault.Prelude.{
  ℕ, suc, ◌+◌, ◌*◌, String, Bool, true, false, not, Option, none, some, List, [], ◌∷◌, ℤ, pos,
  negsuc, ltb, if◌then◌else◌, contains,
}
use cert_vault.Prelude.Outcome.{Outcome, ok, err}
use cert_vault.Database.{Time, second, Connection, Error}
use cert_vault.Database.Exec.{Exec}
use cert_vault.Config.{
  Config, Hook, Certificate as Definition, certificate, should_automatically_issue, or_else,
}
use cert_vault.Config.Texts.{has_prefix}
use cert_vault.Jobs.{Job, admit, interrupted_issuance_error}
use cert_vault.Certificates.{Certificate, Version}
use cert_vault.Certificates.Listing.{list}
use cert_vault.Artifacts.{Bytes, Resource}
use cert_vault.Drift.{configuration_drift, PublicKey}
use cert_vault.Files.{Disk, Library, Storage, read_file}

-- the errors of the manager
pub data IssueError : Type 0 where
  unsupported_kind : (kind : String) → IssueError
  unknown_certificate : (name : String) → IssueError
  repository : Error → IssueError
  failed : String → IssueError
  interrupted : IssueError → IssueError
  unfinished : Error → IssueError
  unfinished_after : IssueError → Error → IssueError

-- the body of a hook's call
pub record Payload : Type 0 where
  pub event : String
  pub certificate : String
  pub version : Option Version
  pub error : Option String

-- what `notifyIssuance` hands to the notifier
pub record Notice : Type 0 where
  pub title : String
  pub body : String
  pub kind : String

-- `Manager`, and what its methods take from libraries: the texts of errors, and `%q`
pub record Manager : Type 0 where
  pub config : Config
  pub storage : Storage
  pub lib : Library
  pub notifies : Bool  -- is the notifier configured?
  pub repository_text : Error → String
  pub quote : String → String

-- `wake` is a channel for one element; `fired` are the hook calls that were started
pub record World : Type 0 where
  pub connection : Connection
  pub disk : Disk
  pub woken : Bool
  pub fired : List (Hook × Payload)
  pub notices : List Notice

abbrev pub initial : String
initial = "initial"

abbrev pub manual : String
manual = "manual"

abbrev pub scheduled : String
scheduled = "scheduled"

abbrev pub kinds : List String
kinds = initial ∷ manual ∷ scheduled ∷ []

abbrev pub around : (before middle after : String) → String
around before middle after = before ++ (middle ++ after)

-- a call of a repository
unfoldable pub on_connection : {A : Type 0} → Exec A → World → Outcome Error A × World
on_connection action w =
    let (r, connection) = action w.connection in (r, record w { connection = connection })

-- a job wakes the loop, whether it is new or was pending already
unfoldable pub woken_by :
    Outcome Error (Job × Bool) × World → Outcome IssueError (Job × Bool) × World
woken_by (ok job, w) = (ok job, record w { woken = true })
woken_by (err e, w) = (err (repository e), w)

unfoldable pub enqueue_valid :
    Outcome IssueError (Unit {0})
    → (name kind : String) → Time
    → World
    → Outcome IssueError (Job × Bool) × World
unfolding woken_by on_connection
enqueue_valid (err e) name kind now w = (err e, w)
enqueue_valid (ok u) name kind now w = woken_by (on_connection (admit name kind now) w)

module _ (m : Manager) where
  unfoldable pub error_text : IssueError → String
  error_text (unsupported_kind kind) = "unsupported issuance kind " ++ m.quote kind
  error_text (unknown_certificate name) = around "certificate " (m.quote name) ": record not found"
  error_text (repository e) = m.repository_text e
  error_text (failed message) = message
  error_text (interrupted e) = around interrupted_issuance_error ": " (error_text e)
  error_text (unfinished e) = "finish issuance job: " ++ m.repository_text e
  error_text (unfinished_after first e) =
      around (error_text first) "\nfinish issuance job: " (m.repository_text e)

  unfoldable pub enabled_definition : String → Option Definition → Outcome IssueError (Unit {0})
  enabled_definition name none = err (unknown_certificate name)
  enabled_definition name (some d) =
      if not (or_else true d.enabled) then err (unknown_certificate name) else ok tt

  -- `validateIssuance`
  unfoldable pub validate_issuance : (name kind : String) → Outcome IssueError (Unit {0})
  unfolding enabled_definition contains certificate
  validate_issuance name kind =
      if contains kinds kind
      then enabled_definition name (certificate name m.config.certificates)
      else err (unsupported_kind kind)

  -- `Enqueue`
  unfoldable pub enqueue :
      (name kind : String) → Time → World → Outcome IssueError (Job × Bool) × World
  unfolding enqueue_valid validate_issuance
  enqueue name kind now = enqueue_valid (validate_issuance name kind) name kind now

-- `time.Until(end) < seconds * time.Second`, at the time `now`
unfoldable pub ends_within : (now end : Time) → ℤ → Bool
ends_within now end (pos seconds) = ltb end (now + seconds * second)
ends_within now end (negsuc seconds) = ltb (end + suc seconds * second) now

-- a certificate without a version is due, and one whose version ends soon
unfoldable pub is_due : Time → Certificate → Bool
unfolding ends_within
is_due now c = elim c.current_version [
  | none ↦ true
  | some v ↦ ends_within now v.not_after c.renew_before_seconds
]

-- does the latest job's error say that a restart broke the job off?
unfoldable pub was_interrupted : Certificate → Bool
unfolding has_prefix
was_interrupted c = elim c.latest_job [
  | none ↦ false
  | some job ↦ has_prefix job.error interrupted_issuance_error
]

-- what the clock gives to `time.Until` and to `Admit`, and the disk that `ReadFile` meets
pub record Moment : Type 0 where
  pub inspected_at : Time
  pub admitted_at : Time
  pub disk : Disk

module _ (m : Manager) where
  abbrev key_of : Bytes → Outcome String PublicKey
  key_of bytes = elim (m.lib.parse_certificate bytes) [
    | ok c ↦ ok c.key
    | err message ↦ err message
  ]

  -- `configurationDrift`, on the disk
  unfoldable pub has_drifted : Disk → Certificate → Bool
  unfolding configuration_drift
  has_drifted disk c =
      elim (configuration_drift (λ v name. (read_file m.lib m.storage v name disk).0) m.lib.decode
        key_of m.lib.decimal c) [ ok drift ↦ drift | err e ↦ false ]

  -- does the configuration let a certificate be issued by itself?
  unfoldable pub automatic : Certificate → Bool
  unfolding certificate should_automatically_issue
  automatic c = elim (certificate c.name m.config.certificates) [
    | none ↦ false
    | some d ↦ should_automatically_issue m.config d
  ]

  unfoldable pub wanted : Moment → Certificate → Bool
  unfolding is_due has_drifted
  wanted moment c = if is_due moment.inspected_at c then true else has_drifted moment.disk c

  -- one round of the loop over the certificates
  unfoldable pub reconcile_certificate : Moment → Certificate → World → World
  unfolding automatic was_interrupted wanted enqueue
  reconcile_certificate moment c w =
      if not (automatic c)
      then w
      else if was_interrupted c
      then w
      else if wanted moment c
      then (enqueue m c.name scheduled moment.admitted_at w).1
      else w

  unfoldable pub reconcile_certificates : (ℕ → Moment) → List Certificate → World → World
  unfolding reconcile_certificate
  reconcile_certificates moments [] w = w
  reconcile_certificates moments (c ∷ certificates) w =
      reconcile_certificates (λ i. moments (suc i)) certificates
        (reconcile_certificate (moments 0) c w)

  unfoldable pub reconcile_listed : (ℕ → Moment) → Outcome Error (List Certificate) × World → World
  unfolding reconcile_certificates
  reconcile_listed moments (err e, w) = w
  reconcile_listed moments (ok certificates, w) = reconcile_certificates moments certificates w

  -- `reconcile`
  unfoldable pub reconcile : (ℕ → Moment) → World → World
  unfolding reconcile_listed on_connection
  reconcile moments w = reconcile_listed moments (on_connection list w)
