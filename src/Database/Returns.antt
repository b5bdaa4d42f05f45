-- ===== src/Database/Returns.antt =====
-- Rules for what an action leaves when it returns without an error, one for each way to build it.
use mathlib.Core.Path.{subst}
use cert_vault.Prelude.{String, ◌≡◌, refl, ap, Option, none, some, List}
use cert_vault.Prelude.Outcome.{Outcome, ok, err}
use cert_vault.Database.{Database, Connection, Error}
use cert_vault.Database.Exec.{
  Exec, fault, rest, on_rest, pure, statement, query, write, transaction, ◌>>=◌, ◌>>◌, continue,
  attempt, begin, finish, commit,
}

abbrev pub at : Database → List (Option String) → Connection
at db faults = record { db = db; faults = faults }

-- a result without an error satisfies `Q`
abbrev pub Returns {ℓ} :
    {A : Type 0} → (A → Database → Type ℓ) → Outcome Error A × Connection → Type ℓ
Returns Q (ok a, c) = Q a c.db
Returns Q (err e, c) = Unit

module _ {ℓ} {A B : Type 0} (Q : B → Database → Type ℓ) where
  after :
      (f : A → Exec B) (r : Outcome Error A × Database) (faults : List (Option String))
      → ((a : A) (db : Database) → r ≡ (ok a, db) → Returns Q (f a (at db faults)))
      → Returns Q (continue (r.0, at r.1 faults) f)
  unfolding continue
  after f (ok a, db) faults h = h a db refl
  after f (err x, db) faults h = tt

  after_attempt :
      (act : Database → Outcome Error A × Database) (f : A → Exec B) (o : Option String)
      (c : Connection)
      → ((a : A) (db : Database) → act c.db ≡ (ok a, db) → Returns Q (f a (at db c.faults)))
      → Returns Q (continue (attempt act o c) f)
  unfolding attempt continue
  after_attempt act f (some e) c h = tt
  after_attempt act f none c h = after f (act c.db) c.faults h

  -- after a statement, with whatever faults are still to come
  pub Returns-statement :
      (act : Database → Outcome Error A × Database) (f : A → Exec B) (c : Connection)
      → ((a : A) (db : Database) (faults : List (Option String))
          → act c.db ≡ (ok a, db)
          → Returns Q (f a (at db faults)))
      → Returns Q ((statement act >>= f) c)
  unfolding statement ◌>>=◌
  Returns-statement act f c h =
      after_attempt act f (fault c.faults) (on_rest c) (λ a db. h a db (rest c.faults))

  -- after a statement that only reads
  pub Returns-query :
      (act : Database → Outcome Error A) (f : A → Exec B) (c : Connection)
      → ((a : A) (faults : List (Option String))
          → act c.db ≡ ok a
          → Returns Q (f a (at c.db faults)))
      → Returns Q ((query act >>= f) c)
  unfolding query
  Returns-query act f c h =
      Returns-statement (λ db. (act db, db)) f c
        (λ a db faults e.
          subst (λ d. Returns Q (f a (at d faults))) (ap (λ p. p.1) e)
            (h a faults (ap (λ p. p.0) e)))

  continue-Returns :
      (r : Outcome Error A × Connection) (f : A → Exec B)
      → Returns (λ a db. (faults : List (Option String)) → Returns Q (f a (at db faults))) r
      → Returns Q (continue r f)
  unfolding continue
  continue-Returns (ok a, c) f h = h c.faults
  continue-Returns (err e, c) f h = tt

  -- after a chain
  pub Returns-bind :
      (m : Exec A) (f : A → Exec B) (c : Connection)
      → Returns (λ a db. (faults : List (Option String)) → Returns Q (f a (at db faults))) (m c)
      → Returns Q ((m >>= f) c)
  unfolding ◌>>=◌
  Returns-bind m f c h = continue-Returns (m c) f h

  -- after a statement that does not fail by itself, such as an insertion
  pub Returns-apply :
      (g : Database → A) (act : Database → Database) (f : A → Exec B) (c : Connection)
      → ((faults : List (Option String)) → Returns Q (f (g c.db) (at (act c.db) faults)))
      → Returns Q ((statement (λ db. (ok (g db), act db)) >>= f) c)
  unfolding statement ◌>>=◌ attempt continue
  Returns-apply g act f c h = go (fault c.faults)
    where
      go :
          (o : Option String)
          → Returns Q (continue (attempt (λ db. (ok (g db), act db)) o (on_rest c)) f)
      go none = h (rest c.faults)
      go (some e) = tt

module _ {ℓ} {B : Type 0} (Q : B → Database → Type ℓ) where
  -- after a statement that only writes
  pub Returns-write :
      (act : Database → Database) (f : Exec B) (c : Connection)
      → ((faults : List (Option String)) → Returns Q (f (at (act c.db) faults)))
      → Returns Q ((write act >> f) c)
  unfolding write ◌>>◌
  Returns-write act f c h =
      Returns-statement Q (λ db. (ok tt, act db)) (λ _. f) c
        (λ a db faults e. subst (λ d. Returns Q (f (at d faults))) (ap (λ p. p.1) e) (h faults))

module _ {A : Type 0} (P : Database → Type 0) where
  commit_db :
      (before : Database) (a : A) (o : Option String) (c : Connection)
      → P before
      → P c.db
      → P (commit before a o c).1.db
  unfolding commit
  commit_db before a (some e) c p h = p
  commit_db before a none c p h = h

  finish_db :
      (before : Database) (r : Outcome Error A × Connection)
      → P before
      → Returns (λ _. P) r
      → P (finish before r).1.db
  unfolding finish
  finish_db before (err e, c) p h = p
  finish_db before (ok a, c) p h = commit_db before a (fault c.faults) (on_rest c) p h

  begin_db :
      (body : Exec A) (o : Option String) (c : Connection)
      → P c.db
      → Returns (λ _. P) (body c)
      → P (begin body o c).1.db
  unfolding begin
  begin_db body (some e) c p h = p
  begin_db body none c p h = finish_db c.db (body c) p h

  -- A transaction keeps what its body keeps when it returns; otherwise nothing has changed.
  pub transaction_db :
      (body : Exec A) (c : Connection)
      → P c.db
      → ((faults : List (Option String)) → Returns (λ _. P) (body (at c.db faults)))
      → P (transaction body c).1.db
  unfolding transaction
  transaction_db body c p h = begin_db body (fault c.faults) (on_rest c) p (h (rest c.faults))

module _ {A : Type 0} where
  commit_err :
      (before : Database) (a : A) (o : Option String) (c : Connection) {e : Error}
      → (commit before a o c).0 ≡ err e
      → (commit before a o c).1.db ≡ before
  unfolding commit
  commit_err before a (some x) c h = refl
  commit_err before a none c h = absurd (cc)

  finish_err :
      (before : Database) (r : Outcome Error A × Connection) {e : Error}
      → (finish before r).0 ≡ err e
      → (finish before r).1.db ≡ before
  unfolding finish
  finish_err before (err x, c) h = refl
  finish_err before (ok a, c) h = commit_err before a (fault c.faults) (on_rest c) h

  begin_err :
      (body : Exec A) (o : Option String) (c : Connection) {e : Error}
      → (begin body o c).0 ≡ err e
      → (begin body o c).1.db ≡ c.db
  unfolding begin
  begin_err body (some x) c h = refl
  begin_err body none c h = finish_err c.db (body c) h

  -- a transaction that fails, at whatever statement, leaves the tables as they were
  pub transaction_err :
      (body : Exec A) (c : Connection) {e : Error}
      → (transaction body c).0 ≡ err e
      → (transaction body c).1.db ≡ c.db
  unfolding transaction
  transaction_err body c h = begin_err body (fault c.faults) (on_rest c) h

module _ {ℓ} {A : Type 0} (Q : A → Database → Type ℓ) where
  commit-Returns :
      (before : Database) (a : A) (o : Option String) (c : Connection)
      → Q a c.db
      → Returns Q (commit before a o c)
  unfolding commit
  commit-Returns before a (some x) c h = tt
  commit-Returns before a none c h = h

  finish-Returns :
      (before : Database) (r : Outcome Error A × Connection)
      → Returns Q r
      → Returns Q (finish before r)
  unfolding finish
  finish-Returns before (err x, c) h = tt
  finish-Returns before (ok a, c) h = commit-Returns before a (fault c.faults) (on_rest c) h

  begin-Returns :
      (body : Exec A) (o : Option String) (c : Connection)
      → Returns Q (body c)
      → Returns Q (begin body o c)
  unfolding begin
  begin-Returns body (some x) c h = tt
  begin-Returns body none c h = finish-Returns c.db (body c) h

  -- a transaction that succeeds has done what its body does
  pub transaction-Returns :
      (body : Exec A) (c : Connection)
      → ((faults : List (Option String)) → Returns Q (body (at c.db faults)))
      → Returns Q (transaction body c)
  unfolding transaction
  transaction-Returns body c h = begin-Returns body (fault c.faults) (on_rest c) (h (rest c.faults))

-- a write, alone or at the end of a chain
pub write_db :
    (P : Database → Type 0) (act : Database → Database) (c : Connection)
    → P c.db
    → P (act c.db)
    → P (write act c).1.db
unfolding write statement attempt
write_db P act c p h = go (fault c.faults)
  where
    go : (o : Option String) → P (attempt (λ db. (ok tt, act db)) o (on_rest c)).1.db
    go none = h
    go (some e) = p

pub write-Returns {ℓ} :
    (Q : Unit {0} → Database → Type ℓ) (act : Database → Database) (c : Connection)
    → Q tt (act c.db)
    → Returns Q (write act c)
unfolding write statement attempt
write-Returns Q act c h = go (fault c.faults)
  where
    go : (o : Option String) → Returns Q (attempt (λ db. (ok tt, act db)) o (on_rest c))
    go none = h
    go (some e) = tt

-- the use of such a rule, at a result that is known
pub Returns-ok {ℓ} :
    {A : Type 0} (Q : A → Database → Type ℓ) (r : Outcome Error A × Connection) (a : A)
    → Returns Q r
    → r.0 ≡ ok a
    → Q a r.1.db
Returns-ok Q (ok x, c) a h e = let same : x ≡ a = cc in subst (λ k. Q k c.db) same h
Returns-ok Q (err x, c) a h e = absurd (cc)

module _ {ℓ} {A : Type 0} (Q : A → Database → Type ℓ) where
  -- what holds of every result
  pub Returns-any :
      (r : Outcome Error A × Connection) → ((a : A) (db : Database) → Q a db) → Returns Q r
  Returns-any (ok a, c) h = h a c.db
  Returns-any (err e, c) h = tt

  -- a read at the end of a chain
  pub query-Returns :
      (act : Database → Outcome Error A) (c : Connection)
      → ((a : A) → act c.db ≡ ok a → Q a c.db)
      → Returns Q (query act c)
  unfolding query statement attempt
  query-Returns act c h = go (fault c.faults)
    where
      read : (r : Outcome Error A) → act c.db ≡ r → Returns Q (r, at c.db (rest c.faults))
      read (ok a) e = h a e
      read (err x) e = tt

      go : (o : Option String) → Returns Q (attempt (λ db. (act db, db)) o (on_rest c))
      go none = read (act c.db) refl
      go (some e) = tt

-- a step that the answer does not depend on
module _ {ℓ} {B : Type 0} (X : B → Type ℓ) where
  continue-pure :
      (r : Outcome Error (Unit {0}) × Connection) (b : B)
      → X b
      → Returns (λ a _. X a) (continue r (λ _. pure b))
  unfolding continue pure
  continue-pure (ok tt', c) b x = x
  continue-pure (err e, c) b x = tt

  pub Returns-then_pure :
      (m : Exec (Unit {0})) (b : B) (c : Connection) → X b → Returns (λ a _. X a) ((m >> pure b) c)
  unfolding ◌>>◌
  Returns-then_pure m b c x = continue-pure (m c) b x

pub Returns-map {ℓ κ} :
    {A : Type 0} (Q : A → Database → Type ℓ) (R : A → Database → Type κ)
    (r : Outcome Error A × Connection)
    → ((a : A) (db : Database) → Q a db → R a db)
    → Returns Q r
    → Returns R r
Returns-map Q R (ok a, c) f h = f a c.db h
Returns-map Q R (err e, c) f h = tt
