-- ===== src/OidcStates/Bounds.antt =====
-- What a valid state store is, and that sweeps and removals keep its bounds (backend/api/auth/oidc_state_store.go).
use cert_vault.Prelude.{
  ◌≤◌, String, ◌≡◌, true, false, some, [], ◌∷◌, arith, length, Bool-cases, inl, inr,
}
use cert_vault.Prelude.Dict.{Dict, lookup, erase, IsDistinct, erase-IsDistinct, length-erase-le}
use cert_vault.Database.{Time}
use cert_vault.OidcStates.{
  oidc_max_states, oidc_max_states_per_ip, oidc_max_rate_clients, OidcFlow, LoginBucket,
  OidcStateStore, remove, sweep_flows, sweep_clients, is_expired, is_idle,
}
use cert_vault.OidcStates.Snapshot.{Present, Present-erase}
use cert_vault.OidcStates.Counting.{AreExact, AreExact-erase, flows_of, flows_of-erase}

-- the flows and their counts
pub record AreBounded (s : OidcStateStore) : Type 0 where
  pub exact : AreExact s.flows s.counts
  pub few : length s.flows ≤ oidc_max_states
  pub fair : (peer : String) → flows_of peer s.flows ≤ oidc_max_states_per_ip

pub record AreLimited (clients : Dict LoginBucket) : Type 0 where
  pub distinct : IsDistinct clients
  pub few : length clients ≤ oidc_max_rate_clients

pub record IsValid (s : OidcStateStore) : Type 0 where
  pub bounded : AreBounded s
  pub limited : AreLimited s.clients
  pub scheduled : s.closed ≡ false → s.timer ≡ false → (s.flows ≡ []) × (s.clients ≡ [])
  pub emptied : s.closed ≡ true → (s.flows ≡ []) × (s.counts ≡ []) × (s.clients ≡ [])

pub remove-AreBounded :
    (key : String) (flow : OidcFlow) (s : OidcStateStore)
    → lookup key s.flows ≡ some flow
    → AreBounded s
    → AreBounded (remove key flow s)
unfolding remove
remove-AreBounded key flow s found b = record {
  exact = AreExact-erase key flow s.flows s.counts found b.exact;
  few = omega (arith, length-erase-le key s.flows, b.few);
  fair = λ peer. omega (arith, flows_of-erase peer key flow s.flows found, b.fair peer);
}

pub sweep_flows-AreBounded :
    (now : Time) (snapshot : Dict OidcFlow) (s : OidcStateStore)
    → IsDistinct snapshot
    → Present s.flows snapshot
    → AreBounded s
    → AreBounded (sweep_flows now snapshot s)
unfolding sweep_flows
sweep_flows-AreBounded now [] s d p b = b
sweep_flows-AreBounded now ((key, flow) ∷ snapshot) s d p b =
    elim (Bool-cases (is_expired flow.state now)) [
      | inl old ↦ rw old (
          sweep_flows-AreBounded now snapshot (remove key flow s) d.1
            (unfold remove in Present-erase key s.flows snapshot b.exact.distinct_flows d.0 p.1)
            (remove-AreBounded key flow s p.0 b))
      | inr young ↦ rw young (sweep_flows-AreBounded now snapshot s d.1 p.1 b)
    ]

pub sweep_clients-AreLimited :
    (now : Time) (snapshot clients : Dict LoginBucket)
    → AreLimited clients
    → AreLimited (sweep_clients now snapshot clients)
unfolding sweep_clients
sweep_clients-AreLimited now [] clients l = l
sweep_clients-AreLimited now ((peer, client) ∷ snapshot) clients l =
    elim (Bool-cases (is_idle client now)) [
      | inl idle ↦ rw idle (
          sweep_clients-AreLimited now snapshot (erase peer clients) (record {
            distinct = erase-IsDistinct peer clients l.distinct;
            few = omega (arith, length-erase-le peer clients, l.few);
          }))
      | inr busy ↦ rw busy (sweep_clients-AreLimited now snapshot clients l)
    ]
