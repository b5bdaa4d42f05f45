-- ===== src/Database/Exec.antt =====
-- Actions on a connection: a statement, a chain of statements, and GORM's `Transaction`, which
-- takes back what its statements wrote when one of them, its body or the commit fails.
use cert_vault.Prelude.{String, Option, none, some, List, [], ◌∷◌}
use cert_vault.Prelude.Outcome.{Outcome, ok, err}
use cert_vault.Database.{Database, Connection, Error, driver}

abbrev pub Exec : Type 0 → Type 0
Exec A = Connection → Outcome Error A × Connection

abbrev pub fault : List (Option String) → Option String
fault [] = none
fault (f ∷ faults) = f

abbrev pub rest : List (Option String) → List (Option String)
rest [] = []
rest (f ∷ faults) = faults

abbrev pub on_rest : Connection → Connection
on_rest c = record c { faults = rest c.faults }

module _ {A : Type 0} where
  unfoldable pub pure : A → Exec A
  pure a c = (ok a, c)

  unfoldable pub raise : Error → Exec A
  raise e c = (err e, c)

  unfoldable pub attempt :
      (Database → Outcome Error A × Database)
      → Option String
      → Connection
      → Outcome Error A × Connection
  attempt act (some e) c = (err (driver e), c)
  attempt act none c = let (r, db) = act c.db in (r, record c { db = db })

  -- one SQL statement
  unfoldable pub statement : (Database → Outcome Error A × Database) → Exec A
  unfolding attempt
  statement act c = attempt act (fault c.faults) (on_rest c)

  -- a statement that only reads
  unfoldable pub query : (Database → Outcome Error A) → Exec A
  unfolding statement
  query act = statement (λ db. (act db, db))

  unfoldable pub commit : Database → A → Option String → Connection → Outcome Error A × Connection
  commit before a (some e) c = (err (driver e), record c { db = before })
  commit before a none c = (ok a, c)

  unfoldable pub finish : Database → Outcome Error A × Connection → Outcome Error A × Connection
  unfolding commit
  finish before (err e, c) = (err e, record c { db = before })
  finish before (ok a, c) = commit before a (fault c.faults) (on_rest c)

  unfoldable pub begin : Exec A → Option String → Connection → Outcome Error A × Connection
  unfolding finish
  begin body (some e) c = (err (driver e), c)
  begin body none c = finish c.db (body c)

  unfoldable pub transaction : Exec A → Exec A
  unfolding begin
  transaction body c = begin body (fault c.faults) (on_rest c)

-- a statement that only writes
unfoldable pub write : (Database → Database) → Exec (Unit {0})
unfolding statement
write act = statement (λ db. (ok tt, act db))

module _ {A B : Type 0} where
  unfoldable pub continue :
      Outcome Error A × Connection → (A → Exec B) → Outcome Error B × Connection
  continue (ok a, c) f = f a c
  continue (err e, c) f = (err e, c)

  infixl 5 ◌>>=◌
  -- opening this opens `pure` and `raise` too
  unfoldable pub ◌>>=◌ : Exec A → (A → Exec B) → Exec B
  unfolding continue pure raise
  ◌>>=◌ m f c = continue (m c) f

infixl 5 ◌>>◌
unfoldable pub ◌>>◌ : {A : Type 0} → Exec (Unit {0}) → Exec A → Exec A
unfolding ◌>>=◌
m >> f = m >>= λ _. f
