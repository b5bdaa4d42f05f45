-- ===== src/Manager/Waking.antt =====
-- backend/service/manager.go: the wake-up of the loop of `Run` by `Enqueue`.
use mathlib.Core.Path.{subst}
use cert_vault.Prelude.{
  ℕ, String, ◌≡◌, ◌≢◌, ◌⊎◌, Bool, refl, true, Option, none, some, List, [], ◌∷◌, inl, inr, IsIn,
  Bool-cases, Option-cases,
}
use cert_vault.Prelude.Outcome.{Outcome, ok, err}
use cert_vault.Database.{Time, Database, JobRow, Connection, Error, queued, not_found}
use cert_vault.Database.Exec.{transaction, query, write, pure, ◌>>=◌, ◌>>◌}
use cert_vault.Database.Rows.{first, or_not_found}
use cert_vault.Database.Returns.{at, transaction_err}
use cert_vault.Jobs.{waiting, claim, claim_body, preload, none_if_not_found, admit, Job}
use cert_vault.Jobs.Admission.{admit_as_err}
use cert_vault.Jobs.Queue.{not_queued_lem}
use cert_vault.Manager.{
  Manager, World, Moment, IssueError, on_connection, enqueue, enqueue_valid, woken_by,
  validate_issuance,
}
use cert_vault.Manager.Issuing.{Surroundings}
use cert_vault.Manager.Running.{waiting as idle, after_claim, at_tick, turn}

-- a claim with a queued job answers with it, or with an error of the driver
no_claim :
    (now : Time) (db : Database) (faults : List (Option String)) (row : JobRow)
    → first waiting db.jobs.rows ≡ some row
    → (claim now (at db faults)).0 ≢ ok none
unfolding claim claim_body none_if_not_found transaction query write preload ◌>>=◌ ◌>>◌ pure
    or_not_found
no_claim now db [] row found h = let h' = (rw found at h) in cc
no_claim now db (some e ∷ fs) row found h = cc
no_claim now db (none ∷ []) row found h = let h' = (rw found at h) in cc
no_claim now db (none ∷ some e ∷ fs) row found h = cc
no_claim now db (none ∷ none ∷ []) row found h = let h' = (rw found at h) in cc
no_claim now db (none ∷ none ∷ some e ∷ fs) row found h = let h' = (rw found at h) in cc
no_claim now db (none ∷ none ∷ none ∷ []) row found h = let h' = (rw found at h) in cc
no_claim now db (none ∷ none ∷ none ∷ some e ∷ fs) row found h = let h' = (rw found at h) in cc
no_claim now db (none ∷ none ∷ none ∷ none ∷ []) row found h = let h' = (rw found at h) in cc
no_claim now db (none ∷ none ∷ none ∷ none ∷ some e ∷ fs) row found h =
    let h' = (rw found at h) in cc
no_claim now db (none ∷ none ∷ none ∷ none ∷ none ∷ fs) row found h = let h' = (rw found at h) in cc

first-none :
    (rows : List JobRow)
    → first waiting rows ≡ none
    → (r : JobRow) → IsIn r rows
    → r.status ≢ queued
unfolding first
first-none [] h r member = absurd member
first-none (x ∷ rows) h r member = elim (Bool-cases (waiting x)) [
  | inl waits ↦ let h' = (rw waits at h) in absurd (cc)
  | inr done ↦ elim member [
    | inl e ↦ subst (λ k. k.status ≢ queued) e (not_queued_lem x done)
    | inr later ↦ first-none rows (rw done at h) r later
  ]
]

none_unchanged :
    (r : Outcome Error Job × Connection) (db : Database)
    → (r.0 ≡ err not_found → r.1.db ≡ db)
    → (none_if_not_found r).0 ≡ ok none
    → (none_if_not_found r).1.db ≡ db
unfolding none_if_not_found
none_unchanged (ok job, c) db h e = absurd (cc)
none_unchanged (err not_found, c) db h e = h refl
none_unchanged (err _, c) db h e = absurd (cc)

-- no job is queued, or the channel that wakes the loop is full
abbrev pub IsAwake : World → Type 0
IsAwake w = ((r : JobRow) → IsIn r w.connection.db.jobs.rows → r.status ≢ queued) ⊎ (w.woken ≡ true)

claim-IsAwake :
    (now : Time) (w : World)
    → (on_connection (claim now) w).0 ≡ ok none
    → IsAwake (on_connection (claim now) w).1
unfolding on_connection claim
claim-IsAwake now w e = elim (Option-cases (first waiting w.connection.db.jobs.rows)) [
  | inl no_job ↦
      let same =
        none_unchanged (transaction (claim_body now) w.connection) w.connection.db
          (λ k. transaction_err (claim_body now) w.connection k) e in
      inl (rw same (first-none w.connection.db.jobs.rows no_job))
  | inr (row, found) ↦
      absurd (no_claim now w.connection.db w.connection.faults row found (unfold claim in e))
]

woken_by-IsAwake :
    (w : World) (r : Outcome Error (Job × Bool) × Connection)
    → ((e : Error) → r.0 ≡ err e → r.1.db ≡ w.connection.db)
    → IsAwake w
    → IsAwake (woken_by (r.0, record w { connection = r.1 })).1
unfolding woken_by
woken_by-IsAwake w (ok answer, c) h awake = inr refl
woken_by-IsAwake w (err e, c) h awake = rw (h e refl) awake

module _ (m : Manager) where
  enqueue_valid-IsAwake :
      (v : Outcome IssueError (Unit {0})) (name kind : String) (now : Time) (w : World)
      → IsAwake w
      → IsAwake (enqueue_valid v name kind now w).1
  unfolding enqueue_valid on_connection admit
  enqueue_valid-IsAwake (err e) name kind now w awake = awake
  enqueue_valid-IsAwake (ok u) name kind now w awake =
      woken_by-IsAwake w (admit name kind now w.connection)
        (λ e h. admit_as_err name kind queued now w.connection h) awake

  enqueue-IsAwake :
      (name kind : String) (now : Time) (w : World)
      → IsAwake w
      → IsAwake (enqueue m name kind now w).1
  unfolding enqueue
  enqueue-IsAwake name kind now w awake =
      enqueue_valid-IsAwake (validate_issuance m name kind) name kind now w awake

  -- calls of `Enqueue` one after another, as name, kind and time
  unfoldable pub enqueue_each : List (String × String × Time) → World → World
  enqueue_each [] w = w
  enqueue_each ((name, kind, now) ∷ requests) w =
      enqueue_each requests (enqueue m name kind now w).1

  enqueue_each-IsAwake :
      (requests : List (String × String × Time)) (w : World)
      → IsAwake w
      → IsAwake (enqueue_each requests w)
  unfolding enqueue_each
  enqueue_each-IsAwake [] w awake = awake
  enqueue_each-IsAwake ((name, kind, now) ∷ requests) w awake =
      enqueue_each-IsAwake requests (enqueue m name kind now w).1
        (enqueue-IsAwake name kind now w awake)

  after_claim-none :
      (s : Surroundings) (r : Outcome Error (Option Job) × World)
      → r.0 ≡ ok none
      → after_claim m s r ≡ record { phase = idle; world = r.1 }
  unfolding after_claim
  after_claim-none s (ok none, w) e = refl
  after_claim-none s (ok (some job), w) e = absurd (cc)
  after_claim-none s (err x, w) e = absurd (cc)

  -- No wake-up is lost: where the claim of a round finds nothing to do, the loop comes to its last
  -- select, and however many calls of `Enqueue` come before it is left, for whatever certificates,
  -- and whatever statements of theirs fail, no job is queued then, or the channel that wakes the
  -- loop is full.
  pub turn-IsAwake :
      (tick : Option (ℕ → Moment)) (now : Time) (s : Surroundings) (w : World)
      (requests : List (String × String × Time))
      → (on_connection (claim now) (at_tick m tick w)).0 ≡ ok none
      → ((turn m tick now s w).phase ≡ idle)
        × IsAwake (enqueue_each requests (turn m tick now s w).world)
  unfolding turn
  turn-IsAwake tick now s w requests e =
      rw (after_claim-none s (on_connection (claim now) (at_tick m tick w)) e) (
        refl,
        enqueue_each-IsAwake requests (on_connection (claim now) (at_tick m tick w)).1
            (claim-IsAwake now (at_tick m tick w) e),
      )
