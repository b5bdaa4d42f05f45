-- ===== src/Manager/Running.antt =====
-- backend/service/manager.go: the rounds of the loops of `Run`.
use cert_vault.Prelude.{ℕ, false, Option, none, some}
use cert_vault.Prelude.Outcome.{Outcome, ok, err}
use cert_vault.Database.{Time, Error}
use cert_vault.Jobs.{Job, claim, recover_interrupted}
use cert_vault.Manager.{Manager, World, Moment, on_connection, reconcile}
use cert_vault.Manager.Issuing.{Surroundings, issue}

-- where `Run` stands: before the recovery, at the head of the loop, at the select, or at its end
pub data Phase : Type 0 where
  recovering working waiting stopped : Phase

pub record Loop : Type 0 where
  pub phase : Phase
  pub world : World

-- what the select of an idle round receives
pub data Signal : Type 0 where
  cancelled polled woken : Signal
  ticked : (ℕ → Moment) → Signal

module _ (m : Manager) where
  unfoldable pub after_recovery : (ℕ → Moment) → Outcome Error (Unit {0}) × World → Loop
  after_recovery moments (ok u, w) = record { phase = working; world = reconcile m moments w }
  after_recovery moments (err e, w) = record { phase = recovering; world = w }

  -- a round of the first loop
  unfoldable pub recover : Time → (ℕ → Moment) → World → Loop
  unfolding after_recovery
  recover now moments w = after_recovery moments (on_connection (recover_interrupted now) w)

  unfoldable pub after_claim : Surroundings → Outcome Error (Option Job) × World → Loop
  after_claim s (ok (some job), w) = record {
    phase = working;
    world = (issue m s job.certificate_name job.kind job.id w).1;
  }
  after_claim s (ok none, w) = record { phase = waiting; world = w }
  after_claim s (err e, w) = record { phase = waiting; world = w }

  -- the first select; `tick` has the moments of a tick that is due
  unfoldable pub at_tick : Option (ℕ → Moment) → World → World
  at_tick none w = w
  at_tick (some moments) w = reconcile m moments w

  -- a round of the second loop, up to its last select, while the context is not cancelled; what
  -- other goroutines do during the round is left out
  unfoldable pub turn : Option (ℕ → Moment) → Time → Surroundings → World → Loop
  unfolding after_claim
  turn tick now s w = after_claim s (on_connection (claim now) (at_tick tick w))

  -- the last select; the channel is empty after it has been read
  unfoldable pub receive : Signal → World → Loop
  receive cancelled w = record { phase = stopped; world = w }
  receive polled w = record { phase = working; world = w }
  receive woken w = record { phase = working; world = record w { woken = false } }
  receive (ticked moments) w = record { phase = working; world = reconcile m moments w }
