-- ===== src/Database/ReadOnly.antt =====
-- Actions that leave the tables alone, whether they succeed or fail.
use cert_vault.Prelude.{String, ◌≡◌, ◌∙◌, refl, Option, none, some}
use cert_vault.Prelude.Outcome.{Outcome, ok, err}
use cert_vault.Database.{Database, Connection, Error}
use cert_vault.Database.Exec.{
  Exec, fault, on_rest, pure, query, statement, attempt, continue, ◌>>=◌,
}

abbrev pub ReadsOnly : {A : Type 0} → Exec A → Type 0
ReadsOnly m = (c : Connection) → (m c).1.db ≡ c.db

module _ {A : Type 0} where
  pub pure-ReadsOnly : (a : A) → ReadsOnly (pure a)
  unfolding pure
  pure-ReadsOnly a c = refl

  attempt_db :
      (act : Database → Outcome Error A) (o : Option String) (c : Connection)
      → (attempt (λ db. (act db, db)) o c).1.db ≡ c.db
  unfolding attempt
  attempt_db act none c = refl
  attempt_db act (some e) c = refl

  pub query-ReadsOnly : (act : Database → Outcome Error A) → ReadsOnly (query act)
  unfolding query statement
  query-ReadsOnly act c = attempt_db act (fault c.faults) (on_rest c)

module _ {A B : Type 0} where
  continue_db :
      (r : Outcome Error A × Connection) (f : A → Exec B)
      → ((a : A) → ReadsOnly (f a))
      → (continue r f).1.db ≡ r.1.db
  unfolding continue
  continue_db (ok a, c) f h = h a c
  continue_db (err e, c) f h = refl

  pub bind-ReadsOnly :
      (m : Exec A) (f : A → Exec B)
      → ReadsOnly m
      → ((a : A) → ReadsOnly (f a))
      → ReadsOnly (m >>= f)
  unfolding ◌>>=◌
  bind-ReadsOnly m f h k c = continue_db (m c) f k ∙ h c
