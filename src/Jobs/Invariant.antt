-- ===== src/Jobs/Invariant.antt =====
-- What every method of the job repository keeps (backend/database/repository/job_repository.go),
-- whatever statements fail.
use mathlib.Core.Path.{subst}
use cert_vault.Prelude.{
  ℕ, suc, ◌≤◌, ◌<◌, String, ◌≡◌, refl, Bool, true, false, Option, none, some, List, [], ◌∷◌, ◌++◌,
  arith, leb, eqb, if◌then◌else◌, count_if, count_if-concat, All, All-append, Bool-cases, inl, inr,
}
use cert_vault.Prelude.Outcome.{Outcome, ok, err}
use cert_vault.Database.{
  Time, Database, JobRow, JobStatus, queued, running, CertificateRow, Connection, Error, not_found,
}
use cert_vault.Database.Exec.{pure, raise, continue, ◌>>=◌, ◌>>◌}
use cert_vault.Database.Rows.{
  first, update, insert, next_id, count_if_of_first, count_if-update_same, count_if-update_le,
  All-update,
}
use cert_vault.Database.Find.{find_enabled_certificate}
use cert_vault.Database.Returns.{
  at, Returns, Returns-query, Returns-write, Returns-bind, Returns-apply, transaction_db, write_db,
  write-Returns,
}
use cert_vault.Jobs.{
  max_pending_issuance_jobs, is_pending, pending, pending_for, job_by_id, new_job, create_job,
  admit_new, admit_found, admit_body, admit, admit_as, start, id_if_created, claim, claim_body,
  recover_interrupted, finish, finish_body, Job, waiting_by_id, as_running, as_interrupted,
  executing, as_finished, mark_certificate, update_where_id, none_if_not_found, preload,
}

-- by ascending id
abbrev pub IsAscending : List JobRow → Type 0
IsAscending [] = Unit
IsAscending (r ∷ rows) = All (λ s. r.id < s.id) rows × IsAscending rows

-- the rows of `jobs`
pub record AreValid (seq : ℕ) (rows : List JobRow) : Type 0 where
  pub ordered : IsAscending rows
  pub numbered : All (λ r. r.id ≤ seq) rows
  pub distinct : (id : ℕ) → count_if (job_by_id id) rows ≤ 1
  pub single : (certificate : ℕ) → count_if (pending_for certificate) rows ≤ 1
  pub bounded : count_if pending rows ≤ max_pending_issuance_jobs

abbrev pub IsValid : Database → Type 0
IsValid db = AreValid db.jobs.seq db.jobs.rows

fresh_id :
    (seq : ℕ) (rows : List JobRow)
    → All (λ r. r.id ≤ seq) rows
    → (id : ℕ) → seq < id
    → count_if (job_by_id id) rows ≡ 0
unfolding count_if job_by_id
fresh_id seq [] h id l = refl
fresh_id seq (r ∷ rows) h id l = ground (arith, fresh_id seq rows h.1 id l)

weaken :
    (seq : ℕ) (rows : List JobRow) → All (λ r. r.id ≤ seq) rows → All (λ r. r.id ≤ suc seq) rows
weaken seq [] h = tt
weaken seq (r ∷ rows) h = (omega (arith, h.0), weaken seq rows h.1)

IsAscending-concat :
    (seq : ℕ) (rows : List JobRow) (row : JobRow)
    → All (λ r. r.id ≤ seq) rows
    → seq < row.id
    → IsAscending rows
    → IsAscending (rows ++ row ∷ [])
IsAscending-concat seq [] row h l a = (tt, tt)
IsAscending-concat seq (r ∷ rows) row h l a = (
  All-append (λ s. r.id < s.id) rows _ a.0 (omega (arith, h.0), tt),
  IsAscending-concat seq rows row h.1 l a.1,
)

IsAscending-update :
    (p : JobRow → Bool) (f : JobRow → JobRow) (rows : List JobRow)
    → ((r : JobRow) → (f r).id ≡ r.id)
    → IsAscending rows
    → IsAscending (update p f rows)
unfolding update
IsAscending-update p f [] same a = tt
IsAscending-update p f (r ∷ rows) same a = (
  All-update (λ s. (if p r then f r else r).id < s.id) p f rows (λ s l _. rw (same s) l)
      (elim (Bool-cases (p r)) [
        | inl fits ↦ rw (fits, same r) a.0
        | inr not_fits ↦ rw not_fits a.0
      ]),
  IsAscending-update p f rows same a.1,
)

-- an insertion, where the certificate has no pending job and the queue has room
inserted-AreValid :
    (seq : ℕ) (rows : List JobRow) (certificate : ℕ) (kind : String) (status : JobStatus)
    (now : Time)
    → AreValid seq rows
    → first (pending_for certificate) rows ≡ none
    → count_if pending rows < max_pending_issuance_jobs
    → AreValid (suc seq) (rows ++ new_job (suc seq) certificate kind status now ∷ [])
unfolding job_by_id pending_for pending
inserted-AreValid seq rows certificate kind status now v free room =
    let row = new_job (suc seq) certificate kind status now in
    record {
      ordered = IsAscending-concat seq rows row v.numbered (omega arith) v.ordered;
      numbered =
          All-append (λ r. r.id ≤ suc seq) rows _ (weaken seq rows v.numbered) (omega arith, tt);
      distinct = λ id. ground (
        arith,
        count_if-concat (job_by_id id) rows row,
        v.distinct id,
        fresh_id seq rows v.numbered id,
      );
      single = λ other. elim (Bool-cases (eqb certificate other)) [
        | inl same ↦
            let e : certificate ≡ other = ground arith in
            subst (λ k. count_if (pending_for k) (rows ++ row ∷ []) ≤ 1) e
              (ground (
                arith,
                count_if-concat (pending_for certificate) rows row,
                count_if_of_first (pending_for certificate) rows free,
              ))
        | inr different ↦
            ground (arith, count_if-concat (pending_for other) rows row, v.single other)
      ];
      bounded = ground (arith, count_if-concat pending rows row);
    }

-- an update that makes no job pending and keeps ids and certificates
updated-AreValid :
    (seq : ℕ) (rows : List JobRow) (p : JobRow → Bool) (f : JobRow → JobRow)
    → ((r : JobRow) → (f r).id ≡ r.id)
    → ((r : JobRow) → (f r).certificate_id ≡ r.certificate_id)
    → ((r : JobRow) → p r ≡ true → is_pending r.status ≡ false → is_pending (f r).status ≡ false)
    → AreValid seq rows
    → AreValid seq (update p f rows)
unfolding job_by_id pending_for pending
updated-AreValid seq rows p f same_id same_certificate still v = record {
  ordered = IsAscending-update p f rows same_id v.ordered;
  numbered = All-update (λ r. r.id ≤ seq) p f rows (λ r h _. rw (same_id r) h) v.numbered;
  distinct = λ id.
      omega
        (arith, count_if-update_same p (job_by_id id) f rows (λ r. rw (same_id r)), v.distinct id);
  single = λ certificate. omega (
    arith,
    count_if-update_le p (pending_for certificate) f rows
        (λ r idle fits. rw (same_certificate r) (ground (arith, still r fits))),
    v.single certificate,
  );
  bounded =
      omega
        (arith, count_if-update_le p pending f rows (λ r idle fits. still r fits idle), v.bounded);
}

admit_new-IsValid :
    (certificate : CertificateRow) (kind : String) (status : JobStatus) (now : Time) (count : ℕ)
    (c : Connection)
    → IsValid c.db
    → first (pending_for certificate.id) c.db.jobs.rows ≡ none
    → count_if pending c.db.jobs.rows ≡ count
    → Returns (λ _. IsValid) (admit_new certificate kind status now count c)
unfolding admit_new create_job pure raise
admit_new-IsValid certificate kind status now count c v free counted =
    elim (Bool-cases (leb max_pending_issuance_jobs count)) [
      | inl full ↦ rw full tt
      | inr room ↦ rw room (
          Returns-apply (λ _. IsValid)
            (λ db. new_job (next_id db.jobs) certificate.id kind status now)
            (λ db. record db {
              jobs = insert (new_job (next_id db.jobs) certificate.id kind status now) db.jobs;
            })
            _ c
            (λ faults.
              inserted-AreValid c.db.jobs.seq c.db.jobs.rows certificate.id kind status now v free
                (ground arith)))
    ]

admit_found-IsValid :
    (certificate : CertificateRow) (kind : String) (status : JobStatus) (now : Time)
    (found : Option JobRow) (c : Connection)
    → IsValid c.db
    → first (pending_for certificate.id) c.db.jobs.rows ≡ found
    → Returns (λ _. IsValid) (admit_found certificate kind status now found c)
unfolding admit_found pure
admit_found-IsValid certificate kind status now (some row) c v e = v
admit_found-IsValid certificate kind status now none c v e =
    Returns-query (λ _. IsValid) (λ db. ok (count_if pending db.jobs.rows)) _ c
      (λ count faults counted.
        admit_new-IsValid certificate kind status now count (at c.db faults) v e (ground arith))

pub admit_as-IsValid :
    (name kind : String) (status : JobStatus) (now : Time) (c : Connection)
    → IsValid c.db
    → IsValid (admit_as name kind status now c).1.db
unfolding admit_as admit_body find_enabled_certificate
admit_as-IsValid name kind status now c v =
    transaction_db IsValid (admit_body name kind status now) c v (λ faults.
      Returns-query (λ _. IsValid) _ _ (at c.db faults)
        (λ certificate faults' found.
          Returns-query (λ _. IsValid) _ _ (at c.db faults')
            (λ row faults'' searched.
              admit_found-IsValid certificate kind status now row (at c.db faults'') v
                (ground arith))))

none_if_not_found_db : (r : Outcome Error Job × Connection) → (none_if_not_found r).1 ≡ r.1
unfolding none_if_not_found
none_if_not_found_db (ok job, c) = refl
none_if_not_found_db (err not_found, c) = refl
none_if_not_found_db (err _, c) = refl

claim_body-IsValid :
    (now : Time) (c : Connection) → IsValid c.db → Returns (λ _. IsValid) (claim_body now c)
unfolding claim_body preload pure as_running waiting_by_id
claim_body-IsValid now c v =
    Returns-query (λ _. IsValid) _ _ c
      (λ row f₁ found.
        Returns-bind (λ _. IsValid) (preload row) _ (at c.db f₁)
          (Returns-query _ _ _ (at c.db f₁) (λ name f₂ named f₃.
            Returns-write (λ _. IsValid) _ _ (at c.db f₃)
              (λ f₄.
                updated-AreValid c.db.jobs.seq c.db.jobs.rows (waiting_by_id row.id)
                  (as_running now) (λ r. refl) (λ r. refl) (λ r fits idle. ground arith) v))))

pub claim-IsValid : (now : Time) (c : Connection) → IsValid c.db → IsValid (claim now c).1.db
unfolding claim
claim-IsValid now c v = rw none_if_not_found_db (
    transaction_db IsValid (claim_body now) c v
      (λ faults. claim_body-IsValid now (at c.db faults) v))

pub recover_interrupted-IsValid :
    (now : Time) (c : Connection) → IsValid c.db → IsValid (recover_interrupted now c).1.db
unfolding recover_interrupted as_interrupted
recover_interrupted-IsValid now c v = write_db IsValid _ c v (
    updated-AreValid c.db.jobs.seq c.db.jobs.rows executing (as_interrupted now) (λ r. refl)
      (λ r. refl) (λ r fits idle. refl) v)

mark_certificate-IsValid :
    (result : Option String) (id : ℕ) (now : Time) (c : Connection)
    → IsValid c.db
    → Returns (λ _. IsValid) (mark_certificate result id now c)
unfolding mark_certificate update_where_id preload pure raise
mark_certificate-IsValid none id now c v = v
mark_certificate-IsValid (some message) id now c v =
    Returns-query (λ _. IsValid) _ _ c
      (λ row f₁ found.
        Returns-bind (λ _. IsValid) (preload row) _ (at c.db f₁)
          (Returns-query _ _ _ (at c.db f₁) (λ name f₂ named f₃.
            elim (Bool-cases (eqb row.certificate_id 0)) [
              | inl zeroed ↦ rw zeroed tt
              | inr positive ↦ rw positive (write-Returns (λ _. IsValid) _ (at c.db f₃) v)
            ])))

as_finished-idle :
    (result : Option String) (now : Time) (r : JobRow)
    → is_pending (as_finished result now r).status ≡ false
unfolding as_finished
as_finished-idle none now r = refl
as_finished-idle (some message) now r = refl

finish_body-IsValid :
    (id : ℕ) (result : Option String) (now : Time) (c : Connection)
    → IsValid c.db
    → Returns (λ _. IsValid) (finish_body id result now c)
unfolding finish_body update_where_id as_finished
finish_body-IsValid id result now c v = elim (Bool-cases (eqb id 0)) [
  | inl zeroed ↦ rw zeroed (unfold ◌>>◌ raise in tt)
  | inr positive ↦ rw positive (
      Returns-write (λ _. IsValid) _ (mark_certificate result id now) c
        (λ faults. mark_certificate-IsValid result id now _ (
          updated-AreValid c.db.jobs.seq c.db.jobs.rows (job_by_id id) (as_finished result now)
            (λ r. refl) (λ r. refl) (λ r fits idle. as_finished-idle result now r) v)))
]

pub finish-IsValid :
    (id : ℕ) (result : Option String) (now : Time) (c : Connection)
    → IsValid c.db
    → IsValid (finish id result now c).1.db
unfolding finish
finish-IsValid id result now c v =
    transaction_db IsValid (finish_body id result now) c v
      (λ faults. finish_body-IsValid id result now (at c.db faults) v)

-- the calls that change the table of jobs
pub data Call : Type 0 where
  admitted started : (name kind : String) → Call
  claimed recovered : Call
  finished : (id : ℕ) (result : Option String) → Call

unfoldable pub perform : Time → Call → Connection → Connection
perform now (admitted name kind) c = (admit name kind now c).1
perform now (started name kind) c = (start name kind now c).1
perform now claimed c = (claim now c).1
perform now recovered c = (recover_interrupted now c).1
perform now (finished id result) c = (finish id result now c).1

unfoldable pub perform_all : List (Time × Call) → Connection → Connection
perform_all [] c = c
perform_all ((now, call) ∷ calls) c = perform_all calls (perform now call c)

start-IsValid :
    (name kind : String) (now : Time) (c : Connection)
    → IsValid c.db
    → IsValid (start name kind now c).1.db
unfolding start ◌>>=◌
start-IsValid name kind now c v =
    after_start (admit_as name kind running now c) (admit_as-IsValid name kind running now c v)
  where
    after_start :
        (r : Outcome Error (Job × Bool) × Connection)
        → IsValid r.1.db
        → IsValid (continue r id_if_created).1.db
    after_start (ok (job, true), c') h = h
    after_start (ok (job, false), c') h = h
    after_start (err e, c') h = h

perform-IsValid :
    (now : Time) (call : Call) (c : Connection) → IsValid c.db → IsValid (perform now call c).db
unfolding perform admit
perform-IsValid now (admitted name kind) c v = admit_as-IsValid name kind queued now c v
perform-IsValid now (started name kind) c v = start-IsValid name kind now c v
perform-IsValid now claimed c v = claim-IsValid now c v
perform-IsValid now recovered c v = recover_interrupted-IsValid now c v
perform-IsValid now (finished id result) c v = finish-IsValid id result now c v

-- Whatever calls are made, at whatever times, and whatever statements fail, valid jobs stay valid:
-- their ids ascend, a certificate has at most one pending job, and at most
-- `max_pending_issuance_jobs` are pending.
pub perform_all-IsValid :
    (calls : List (Time × Call)) (c : Connection) → IsValid c.db → IsValid (perform_all calls c).db
unfolding perform_all
perform_all-IsValid [] c v = v
perform_all-IsValid ((now, call) ∷ calls) c v =
    perform_all-IsValid calls (perform now call c) (perform-IsValid now call c v)
