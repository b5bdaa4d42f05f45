-- ===== src/Manager/Issuing.antt =====
-- backend/service/manager.go: an issuance, `Issue` and `issue`. What `obtain` does for a
-- definition is the field `obtained` of its surroundings; Manager.Obtaining has the code.
use cert_vault.Prelude.{ℕ, String, Bool, true, false, Option, none, some, ◌==◌, if◌then◌else◌}
use cert_vault.Prelude.Outcome.{Outcome, ok, err}
use cert_vault.Database.{Time, Error}
use cert_vault.Database.Exec.{Exec}
use cert_vault.Config.{Certificate as Definition, certificate}
use cert_vault.Jobs.{start, finish}
use cert_vault.Certificates.{Version, add_version}
use cert_vault.Certificates.Listing.{get}
use cert_vault.Artifacts.{Resource}
use cert_vault.Audits.{record_audit}
use cert_vault.Files.{Fs, save}
use cert_vault.Manager.{
  Manager, World, Payload, IssueError, repository, failed, interrupted, unfinished,
  unfinished_after, error_text, validate_issuance, on_connection, initial, manual, scheduled,
}
use cert_vault.Manager.Hooks.{fire_hooks, notify_issuance}

-- what an issuance meets: the clock at its calls, `obtain`, and whether the
-- context is cancelled at its end
pub record Surroundings : Type 0 where
  pub saved_at : Time
  pub added_at : Time
  pub recorded_at : Time
  pub finished_at : Time
  pub obtained : Option Definition → Fs (Option Resource)
  pub cancelled : Bool

abbrev pub Action : Type 0 → Type 0
Action A = World → Outcome IssueError A × World

module _ {A B : Type 0} where
  unfoldable pub continue :
      Outcome IssueError A × World → (A → Action B) → Outcome IssueError B × World
  continue (ok a, w) f = f a w
  continue (err e, w) f = (err e, w)

  infixl 5 ◌>>=◌
  unfoldable pub ◌>>=◌ : Action A → (A → Action B) → Action B
  unfolding continue
  ◌>>=◌ m f w = continue (m w) f

infixl 5 ◌>>◌
unfoldable pub ◌>>◌ : {A : Type 0} → Action (Unit {0}) → Action A → Action A
unfolding ◌>>=◌
m >> f = m >>= λ _. f

module _ {A : Type 0} where
  unfoldable pub lift : Outcome IssueError A → Action A
  lift r w = (r, w)

  unfoldable pub as_repository : Outcome Error A × World → Outcome IssueError A × World
  as_repository (ok a, w) = (ok a, w)
  as_repository (err e, w) = (err (repository e), w)

  unfoldable pub call : Exec A → Action A
  unfolding as_repository on_connection
  call action w = as_repository (on_connection action w)

  abbrev pub or_failed : Outcome String A → Outcome IssueError A
  or_failed (ok a) = ok a
  or_failed (err message) = err (failed message)

  unfoldable pub on_disk : Fs A → Action A
  on_disk action w = let (r, disk) = action w.disk in (or_failed r, record w { disk = disk })

-- a call whose error is ignored
unfoldable pub ignoring : Exec (Unit {0}) → Action (Unit {0})
unfolding on_connection
ignoring action w = (ok tt, (on_connection action w).1)

abbrev pub audit_action : String → String
audit_action kind =
    if kind == initial
    then "certificate.initial"
    else if kind == manual
    then "certificate.manual"
    else if kind == scheduled
    then "certificate.scheduled"
    else ""

abbrev pub with_interruption : Bool → Option IssueError → Option IssueError
with_interruption true (some e) = some (interrupted e)
with_interruption true none = none
with_interruption false result = result

abbrev pub joined : Option IssueError → Error → IssueError
joined none e = unfinished e
joined (some first) e = unfinished_after first e

module _ (m : Manager) (s : Surroundings) where
  -- the body of `issue`, up to its deferred part: the version that it has issued
  unfoldable pub issue_body : (name kind : String) → Action Version
  unfolding validate_issuance certificate
  issue_body name kind = do
    lift (validate_issuance m name kind)
    found ← call (get name)
    resource ← on_disk (s.obtained (certificate name m.config.certificates))
    version ← on_disk (save m.lib m.storage name resource s.saved_at)
    call (add_version version s.added_at)
    ignoring (record_audit s.recorded_at "system" (audit_action kind) name "" "")
    lift (ok version)

  abbrev pub text_of : Option IssueError → Option String
  text_of none = none
  text_of (some e) = some (error_text m e)

  abbrev payload_of : (event name : String) → Option Version → Option IssueError → Payload
  payload_of event name version result = record {
    event = event;
    certificate = name;
    version = version;
    error = text_of result;
  }

  -- the hooks and the notification of the result
  unfoldable pub announce :
      (name kind : String) → Option Version → Option IssueError → World → World
  unfolding fire_hooks notify_issuance
  announce name kind version (some e) w =
      notify_issuance m name kind (text_of (some e))
        (fire_hooks m (payload_of "certificate.failed" name version (some e)) w)
  announce name kind version none w =
      let issued = fire_hooks m (payload_of "certificate.issued" name version none) w in
      let renewed = fire_hooks m (payload_of "certificate.renewed" name version none) issued in
      notify_issuance m name kind none (if kind == initial then issued else renewed)

  abbrev pub after_finish : Option IssueError → Outcome Error (Unit {0}) → Option IssueError
  after_finish result (ok u) = result
  after_finish result (err e) = some (joined result e)

  -- the rest of the deferred part, with the result of `Finish`
  unfoldable pub settled :
      (name kind : String)
      → Option Version
      → Option IssueError
      → Outcome Error (Unit {0}) × World
      → Option IssueError × World
  unfolding announce
  settled name kind version result (r, w) =
      (after_finish result r, announce name kind version (after_finish result r) w)

  -- the deferred part of `issue`
  unfoldable pub settle :
      (name kind : String)
      → ℕ
      → Option Version
      → Option IssueError
      → World
      → Option IssueError × World
  unfolding settled on_connection finish
  settle name kind job version result w =
      settled name kind version (with_interruption s.cancelled result) (
        on_connection (finish job (text_of (with_interruption s.cancelled result)) s.finished_at) w)

  unfoldable pub after_body :
      (name kind : String) → ℕ → Outcome IssueError Version × World → Option IssueError × World
  unfolding settle
  after_body name kind job (ok version, w) = settle name kind job (some version) none w
  after_body name kind job (err e, w) = settle name kind job none (some e) w

  -- `issue`: its error, if it has one
  unfoldable pub issue : (name kind : String) → ℕ → World → Option IssueError × World
  unfolding after_body issue_body
  issue name kind job w = after_body name kind job (issue_body name kind w)

  unfoldable pub issue_started :
      (name kind : String) → Outcome IssueError ℕ × World → Option IssueError × World
  unfolding issue
  issue_started name kind (ok job, w) = issue name kind job w
  issue_started name kind (err e, w) = (some e, w)

  -- `Issue`
  unfoldable pub issue_now : (name kind : String) → Time → World → Option IssueError × World
  unfolding issue_started validate_issuance start
  issue_now name kind now w =
      issue_started name kind
        ((lift (validate_issuance m name kind) >> call (start name kind now)) w)
